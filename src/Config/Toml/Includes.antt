-- ===== src/Config/Toml/Includes.antt =====
-- What is read for the entries of a configuration, with the texts that they include:
-- `convert_pingap_config` and `convert_include_toml` of pingap-config/src/common.rs.
use pingap.Common.{
  ◌≡◌, refl, subst, ◌∙◌, ◌⊎◌, inl, inr, Bool, true, false, Option, none, some, List, [], ◌∷◌, map,
}
use pingap.Common.Tests.{Bool-cases, Option-cases, if◌then◌else◌}
use pingap.Common.Text.{Str, str, str_eq, str_eq_iff, join, unwrap_or_default}
use pingap.Common.Map.{Map, get, insert, remove, get-insert, get-remove, HasDistinctKeys}
use pingap.Config.Pingap.{StorageConf}
use pingap.Config.Toml.{TomlLib, insert_all, texts, included, convert_include_toml}

abbrev pub or_else : {V : Type 0} → Option V → Option V → Option V
or_else none other = other
or_else (some v) other = some v

get-insert_all :
    {V : Type 0} (entries m : Map V)
    → HasDistinctKeys entries
    → (k : Str) → get k (insert_all entries m) ≡ or_else (get k entries) (get k m)
unfolding insert_all get
get-insert_all [] m distinct k = refl
get-insert_all ((n, v) ∷ entries) m (fresh, distinct) k =
    let rest = get-insert_all entries (insert n v m) distinct k in
    let placed = get-insert n k v m in
    elim (Bool-cases (str_eq n k)) [
      | inl same ↦
          let e = (str_eq_iff n k).0 same in
          let none_later : get k entries ≡ none = subst (λ x. get x entries ≡ none) e fresh in
          rw (get, same) (rest ∙ rw (none_later, placed, same) refl)
      | inr differs ↦ rw (get, differs) (rest ∙ rw (placed, differs) refl)
    ]

module _ (toml : TomlLib) where
  -- A table that was read has no name twice.
  abbrev pub IsTableReader : Type 0
  IsTableReader =
      (s : Str) (entries : Map toml.Value) → toml.table s ≡ some entries → HasDistinctKeys entries

  abbrev pub storage_text : Map StorageConf → toml.Value → Str
  storage_text storages item = elim (get (unwrap_or_default (toml.as_str item)) storages) [
    | none ↦ []
    | some storage ↦ storage.value
  ]

  -- The value of a key in the texts of the storages that a list names, one text after the other.
  abbrev pub included_value : Map StorageConf → toml.Value → Str → Option toml.Value
  included_value storages includes k = elim (toml.as_array includes) [
    | none ↦ none
    | some items ↦ elim (toml.table (join (0xa ∷ []) (map (storage_text storages) items))) [
      | none ↦ none
      | some entries ↦ get k entries
    ]
  ]

  -- The text of an entry: its table as it is, or, with the replacement of includes, a table without
  -- them where the keys of the included texts stand before those of the entry.
  pub data Printed (storages : Map StorageConf) (value : toml.Value) : Bool → Str → Type 0 where
    no_table : {replaces : Bool} → toml.as_table value ≡ none → Printed storages value replaces []
    as_it_is :
        {replaces : Bool} {m : Map toml.Value}
        → toml.as_table value ≡ some m
        → (replaces ≡ false) ⊎ (get (str "includes") m ≡ none)
        → Printed storages value replaces (toml.table_to_string m)
    replaced :
        {m t : Map toml.Value} {includes : toml.Value}
        → toml.as_table value ≡ some m
        → get (str "includes") m ≡ some includes
        → ((k : Str)
            → get k t
              ≡ or_else
                  (included_value storages includes k)
                  (if str_eq (str "includes") k then none else get k m))
        → Printed storages value true (toml.table_to_string t)

  get-texts :
      (storages : Map StorageConf) (name : Str)
      → unwrap_or_default (get name (texts toml storages))
        ≡ elim (get name storages) [ none ↦ [] | some storage ↦ storage.value ]
  unfolding get
  get-texts [] name = refl
  get-texts ((n, storage) ∷ storages) name = elim (Bool-cases (str_eq n name)) [
    | inl same ↦ rw (get, same) refl
    | inr differs ↦ rw (get, differs) (get-texts storages name)
  ]

  included_texts :
      (storages : Map StorageConf) (items : List toml.Value)
      → map
          (λ item.
            unwrap_or_default (get (unwrap_or_default (toml.as_str item)) (texts toml storages)))
          items
        ≡ map (storage_text storages) items
  included_texts storages [] = refl
  included_texts storages (item ∷ items) =
      rw (included_texts storages items, get-texts storages (unwrap_or_default (toml.as_str item)))
        refl

  get-included :
      (storages : Map StorageConf) (includes : toml.Value) (m : Map toml.Value)
      → IsTableReader
      → (k : Str)
      → get k (included toml (texts toml storages) includes m)
        ≡ or_else (included_value storages includes k) (get k m)
  get-included storages includes m reader k = elim (Option-cases (toml.as_array includes)) [
    | inl no_list ↦ rw (included, included_value, no_list) refl
    | inr (items, listed) ↦
        let text = join (0xa ∷ []) (map (storage_text storages) items) in
        elim (Option-cases (toml.table text)) [
          | inl bad ↦ rw (included, included_value, listed, included_texts storages items, bad) refl
          | inr (entries, parsed) ↦
              rw (included, included_value, listed, included_texts storages items, parsed)
                (get-insert_all entries m (reader text entries parsed) k)
        ]
  ]

  pub convert_include_toml-Printed :
      (storages : Map StorageConf) (replaces : Bool) (value : toml.Value)
      → IsTableReader
      → Printed storages value replaces
          (convert_include_toml toml (texts toml storages) replaces value)
  unfolding convert_include_toml
  convert_include_toml-Printed storages false value reader =
      elim (Option-cases (toml.as_table value)) [
        | inl none_there ↦ rw (convert_include_toml, none_there) (no_table none_there)
        | inr (m, there) ↦ rw (convert_include_toml, there) (as_it_is there (inl refl))
      ]
  convert_include_toml-Printed storages true value reader =
      elim (Option-cases (toml.as_table value)) [
        | inl none_there ↦ rw (convert_include_toml, none_there) (no_table none_there)
        | inr (m, there) ↦ elim (Option-cases (get (str "includes") m)) [
          | inl silent ↦ rw (convert_include_toml, there, silent) (as_it_is there (inr silent))
          | inr (includes, named) ↦
              rw (convert_include_toml, there, named)
                (replaced there named λ k.
                  get-included storages includes (remove (str "includes") m) reader k
                  ∙ rw (get-remove (str "includes") k m) refl)
        ]
      ]
