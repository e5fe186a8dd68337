-- ===== src/Config/Toml.antt =====
-- The reading of a configuration's text: `convert_pingap_config`, the includes and the parts of
-- `TomlConfig` in pingap-config/src/common.rs. The crates toml and serde read and print texts.
pub mod Includes
pub mod Entries
use pingap.Common.{Bool, not, Option, none, some, List, [], ◌∷◌, map}
use pingap.Common.Tests.{if◌then◌else◌}
use pingap.Common.Text.{Str, str, join, unwrap_or_default}
use pingap.Common.Map.{Map, get, insert}
use pingap.Common.Map
use pingap.Common.Results.{Result, ok, err, ◌>>=◌}
use pingap.Config.Conf.{LocationConf, ServerConf}
use pingap.Config.Error.{Error, de}
use pingap.Config.Pingap.{UpstreamConf, CertificateConf, StorageConf, PingapConf}

-- The parts of a text, the table of basic left out.
pub record TomlConfig (Value : Type 0) : Type 0 where
  pub servers : Option (Map Value)
  pub upstreams : Option (Map Value)
  pub locations : Option (Map Value)
  pub plugins : Option (Map Value)
  pub certificates : Option (Map Value)
  pub storages : Option (Map Value)

-- The crate toml and the readers and printers that serde derives, with the text of an error.
pub record TomlLib : Type 1 where
  pub Value : Type 0
  pub as_table : Value → Option (Map Value)
  pub as_array : Value → Option (List Value)
  pub as_str : Value → Option Str
  pub table_to_string : Map Value → Str
  pub table : Str → Option (Map Value)
  pub config : Str → Result Str (TomlConfig Value)
  pub storage : Str → Result Str StorageConf
  pub upstream : Str → Result Str UpstreamConf
  pub location : Str → Result Str LocationConf
  pub server : Str → Result Str ServerConf
  pub plugin : Str → Result Str (Map Value)
  pub certificate : Str → Result Str CertificateConf
  pub to_string_pretty : PingapConf Value → Result Str Str

abbrev pub unwrap_table : {V : Type 0} → Option (Map V) → Map V
unwrap_table none = []
unwrap_table (some entries) = entries

abbrev pub as_de : {A : Type 0} → Result Str A → Result Error A
as_de (ok a) = ok a
as_de (err source) = err (de source)

-- Inserts the entries of a table, one after the other.
unfoldable pub insert_all : {V : Type 0} → Map V → Map V → Map V
unfolding insert
insert_all [] m = m
insert_all ((key, value) ∷ entries) m = insert_all entries (insert key value m)

-- The loop over a table: each value is read and put under its name.
unfoldable pub convert_entries :
    {V W : Type 0} → (V → Result Error W) → Map V → Map W → Result Error (Map W)
convert_entries read [] conf = ok conf
convert_entries read ((name, value) ∷ values) conf = do
  entry ← read value
  convert_entries read values (insert name entry conf)

module _ (toml : TomlLib) where
  abbrev pub format_toml : toml.Value → Str
  format_toml value = elim (toml.as_table value) [
    | none ↦ []
    | some table ↦ toml.table_to_string table
  ]

  abbrev include_text : Map Str → toml.Value → Str
  include_text «data» item = unwrap_or_default (get (unwrap_or_default (toml.as_str item)) «data»)

  abbrev pub get_include_toml : Map Str → toml.Value → Option Str
  get_include_toml «data» includes = elim (toml.as_array includes) [
    | none ↦ none
    | some values ↦ some (join (0xa ∷ []) (map (include_text «data») values))
  ]

  -- The table of an entry with the keys of the texts that it includes.
  abbrev pub included : Map Str → toml.Value → Map toml.Value → Map toml.Value
  included «data» includes m = elim (get_include_toml «data» includes) [
    | none ↦ m
    | some text ↦ elim (toml.table text) [ none ↦ m | some entries ↦ insert_all entries m ]
  ]

  unfoldable pub convert_include_toml : Map Str → Bool → toml.Value → Str
  unfolding get insert_all
  convert_include_toml «data» replace_includes value = elim (toml.as_table value) [
    | none ↦ []
    | some m ↦
        if not replace_includes then toml.table_to_string m else elim (get (str "includes") m) [
          | none ↦ toml.table_to_string m
          | some includes ↦
              toml.table_to_string (included «data» includes (Map.remove (str "includes") m))
        ]
  ]

  abbrev pub texts : Map StorageConf → Map Str
  texts storages = map (λ entry. (entry.0, entry.1.value)) storages

  abbrev pub read_plain : {W : Type 0} → (Str → Result Str W) → toml.Value → Result Error W
  read_plain read value = as_de (read (format_toml value))

  abbrev pub read_including :
      {W : Type 0} → (Str → Result Str W) → Map Str → Bool → toml.Value → Result Error W
  read_including read «data» replace_includes value =
      as_de (read (convert_include_toml «data» replace_includes value))

  -- The configuration of a text. The texts that may be included are those of the storages.
  unfoldable pub convert_pingap_config : Str → Bool → Result Error (PingapConf toml.Value)
  unfolding convert_entries convert_include_toml
  convert_pingap_config text replace_includes = do
    «data» ← as_de (toml.config text)
    storages ← convert_entries (read_plain toml.storage) (unwrap_table «data».storages) []
    let includes = texts storages
    upstreams ←
        convert_entries (read_including toml.upstream includes replace_includes)
          (unwrap_table «data».upstreams) []
    locations ←
        convert_entries (read_including toml.location includes replace_includes)
          (unwrap_table «data».locations) []
    servers ←
        convert_entries (read_including toml.server includes replace_includes)
          (unwrap_table «data».servers) []
    plugins ← convert_entries (read_plain toml.plugin) (unwrap_table «data».plugins) []
    certificates ←
        convert_entries (read_plain toml.certificate) (unwrap_table «data».certificates) []
    ok (record {
      upstreams = upstreams;
      locations = locations;
      servers = servers;
      plugins = plugins;
      certificates = certificates;
      storages = storages;
    })
