-- ===== src/Config/Toml/Entries.antt =====
-- Where the entries of a configuration come from: `convert_pingap_config` of
-- pingap-config/src/common.rs.
use pingap.Common.{◌≡◌, refl, sym, ap, subst, ◌∙◌, ◌⊎◌, inl, inr, Bool, Option, none, some, [], ◌∷◌}
use pingap.Common.Tests.{Bool-cases, Option-cases}
use pingap.Common.Text.{Str, str_eq, str_eq_iff}
use pingap.Common.Map.{Map, get, insert, get-insert, HasDistinctKeys}
use pingap.Common.Results.{Result, ok, err, bind_ok, ok_inj, err≢ok, ◌>>=◌}
use pingap.Config.Conf.{LocationConf, ServerConf}
use pingap.Config.Error.{Error}
use pingap.Config.Pingap.{UpstreamConf, StorageConf, PingapConf}
use pingap.Config.Toml.{
  TomlConfig, TomlLib, unwrap_table, as_de, convert_entries, texts, read_plain, read_including,
  convert_include_toml, convert_pingap_config,
}
use pingap.Config.Toml.Includes.{IsTableReader, Printed, convert_include_toml-Printed}

module _ {V W : Type 0} (read : V → Result Error W) where
  Comes : Option V → Option W → Option W → Type 0
  Comes none before after = after ≡ before
  Comes (some v) before after = (w : W) × (read v ≡ ok w) × (after ≡ some w)

  get-convert_entries :
      (values : Map V)
      → HasDistinctKeys values
      → (m conf : Map W) → convert_entries read values m ≡ ok conf
      → (name : Str) → Comes (get name values) (get name m) (get name conf)
  unfolding get convert_entries Comes
  get-convert_entries [] distinct m conf done name = ap (get name) (sym (ok_inj done))
  get-convert_entries ((n, v) ∷ values) (fresh, distinct) m conf done name =
      let (entry, here, later) =
        bind_ok (read v) (λ w. convert_entries read values (insert n w m)) done in
      let rest = get-convert_entries values distinct (insert n entry m) conf later name in
      let placed = get-insert n name entry m in
      elim (Bool-cases (str_eq n name)) [
        | inl same ↦
            let e = (str_eq_iff n name).0 same in
            let later_none : get name values ≡ none = subst (λ k. get k values ≡ none) e fresh in
            let at_name : get name (insert n entry m) ≡ some entry = rw (placed, same) refl in
            let kept : get name conf ≡ get name (insert n entry m) =
              subst (λ o. Comes o (get name (insert n entry m)) (get name conf)) later_none rest in
            rw (get, same) (entry, here, kept ∙ at_name)
        | inr differs ↦
            let elsewhere : get name (insert n entry m) ≡ get name m = rw (placed, differs) refl in
            rw (get, differs)
              (subst (λ b. Comes (get name values) b (get name conf)) elsewhere rest)
      ]

as_de_ok : {A : Type 0} (r : Result Str A) (a : A) → as_de r ≡ ok a → r ≡ ok a
as_de_ok (ok b) a h = ap ok (ok_inj h)
as_de_ok (err e) a h = absurd (err≢ok h)

module _ (toml : TomlLib) where
  -- The entries of a category have the names of its table; each is read from the text of its value.
  abbrev pub AreRead :
      {W : Type 0}
      → (Str → Result Str W)
      → Map StorageConf
      → Bool
      → Option (Map toml.Value)
      → Map W
      → Type 0
  AreRead read storages replaces values entries =
      (name : Str)
      → ((get name (unwrap_table values) ≡ none) × (get name entries ≡ none))
        ⊎ ((value : toml.Value) × (s : Str) × (get name (unwrap_table values) ≡ some value)
            × Printed toml storages value replaces s
            × (entry : _) × (read s ≡ ok entry)
            × (get name entries ≡ some entry))

  convert_entries-AreRead :
      {W : Type 0} (read : Str → Result Str W) (storages : Map StorageConf) (replaces : Bool)
      (values : Option (Map toml.Value)) (entries : Map W)
      → IsTableReader toml
      → HasDistinctKeys (unwrap_table values)
      → convert_entries
          (read_including toml read (texts toml storages) replaces)
          (unwrap_table values)
          []
        ≡ ok entries
      → AreRead read storages replaces values entries
  unfolding get Comes
  convert_entries-AreRead read storages replaces values entries reader distinct done name =
      let reading = read_including toml read (texts toml storages) replaces in
      let comes = get-convert_entries reading (unwrap_table values) distinct [] entries done name in
      elim (Option-cases (get name (unwrap_table values))) [
        | inl no_name ↦
            inl (no_name, subst (λ o. Comes reading o none (get name entries)) no_name comes)
        | inr (value, there) ↦
            let (entry, was_read, placed) =
              subst (λ o. Comes reading o none (get name entries)) there comes in
            let s = convert_include_toml toml (texts toml storages) replaces value in
            inr (
              value,
              s,
              there,
              convert_include_toml-Printed toml storages replaces value reader,
              entry,
              as_de_ok (read s) entry was_read,
              placed,
            )
      ]

  abbrev reads :
      {W : Type 0}
      → (Str → Result Str W)
      → Map StorageConf
      → Bool
      → Option (Map toml.Value)
      → Result Error (Map W)
  reads read storages replaces values =
      convert_entries (read_including toml read (texts toml storages) replaces)
        (unwrap_table values) []

  module _ (parts : TomlConfig toml.Value) (replaces : Bool) (storages : Map StorageConf) where
    -- The steps of the conversion behind the servers, the locations, the upstreams.
    abbrev after_servers :
        Map UpstreamConf → Map LocationConf → Map ServerConf → Result Error (PingapConf toml.Value)
    after_servers ups locs servs = do
      plugins ← convert_entries (read_plain toml toml.plugin) (unwrap_table parts.plugins) []
      certificates ←
          convert_entries (read_plain toml toml.certificate) (unwrap_table parts.certificates) []
      ok (record {
        upstreams = ups;
        locations = locs;
        servers = servs;
        plugins = plugins;
        certificates = certificates;
        storages = storages;
      })

    abbrev after_locations :
        Map UpstreamConf → Map LocationConf → Result Error (PingapConf toml.Value)
    after_locations ups locs = do
      servs ← reads toml.server storages replaces parts.servers
      after_servers ups locs servs

    abbrev after_upstreams : Map UpstreamConf → Result Error (PingapConf toml.Value)
    after_upstreams ups = do
      locs ← reads toml.location storages replaces parts.locations
      after_locations ups locs

    abbrev after_storages : Result Error (PingapConf toml.Value)
    after_storages = do
      ups ← reads toml.upstream storages replaces parts.upstreams
      after_upstreams ups

  -- The configuration of a text has, of the upstreams, the locations and the servers, an entry for
  -- each name of the text's table and no other, if the tables have no name twice. Each is read from
  -- the table under its name; where includes are replaced and the table has some, it is read without
  -- them and with the keys of the texts that they name among the configuration's storages, which
  -- stand before those of the table.
  pub convert_pingap_config-AreRead :
      (text : Str) (replaces : Bool) (parts : TomlConfig toml.Value)
      → IsTableReader toml
      → toml.config text ≡ ok parts
      → HasDistinctKeys (unwrap_table parts.upstreams)
      → HasDistinctKeys (unwrap_table parts.locations)
      → HasDistinctKeys (unwrap_table parts.servers)
      → (conf : PingapConf toml.Value) → convert_pingap_config toml text replaces ≡ ok conf
      → AreRead toml.upstream conf.storages replaces parts.upstreams conf.upstreams
        × AreRead toml.location conf.storages replaces parts.locations conf.locations
        × AreRead toml.server conf.storages replaces parts.servers conf.servers
  unfolding convert_pingap_config
  convert_pingap_config-AreRead text replaces parts reader known upstreams locations servers conf
        done =
      let (storages, _, rest) =
        bind_ok (convert_entries (read_plain toml toml.storage) (unwrap_table parts.storages) [])
          (after_storages parts replaces) (rw (convert_pingap_config, known) at done) in
      let (ups, ups_read, rest) =
        bind_ok (reads toml.upstream storages replaces parts.upstreams)
          (after_upstreams parts replaces storages) rest in
      let (locs, locs_read, rest) =
        bind_ok (reads toml.location storages replaces parts.locations)
          (after_locations parts replaces storages ups) rest in
      let (servs, servs_read, rest) =
        bind_ok (reads toml.server storages replaces parts.servers)
          (after_servers parts replaces storages ups locs) rest in
      let (plugins, plugins_read, rest) =
        bind_ok (convert_entries (read_plain toml toml.plugin) (unwrap_table parts.plugins) [])
          (λ plugins. do
            certificates ←
                convert_entries (read_plain toml toml.certificate) (unwrap_table parts.certificates)
                  []
            ok (record {
              upstreams = ups;
              locations = locs;
              servers = servs;
              plugins = plugins;
              certificates = certificates;
              storages = storages;
            }))
          rest in
      let (certificates, _, rest) =
        bind_ok
          (convert_entries (read_plain toml toml.certificate) (unwrap_table parts.certificates) [])
          (λ certificates. ok (record {
            upstreams = ups;
            locations = locs;
            servers = servs;
            plugins = plugins;
            certificates = certificates;
            storages = storages;
          }))
          rest in
      subst
        (λ (c : PingapConf toml.Value).
          AreRead toml.upstream c.storages replaces parts.upstreams c.upstreams
          × AreRead toml.location c.storages replaces parts.locations c.locations
          × AreRead toml.server c.storages replaces parts.servers c.servers)
        (ok_inj rest)
        (
          convert_entries-AreRead toml.upstream storages replaces parts.upstreams ups reader
              upstreams ups_read,
          convert_entries-AreRead toml.location storages replaces parts.locations locs reader
              locations locs_read,
          convert_entries-AreRead toml.server storages replaces parts.servers servs reader servers
              servs_read,
        )
