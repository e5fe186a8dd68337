-- ===== src/Tests/Traffic.antt =====
-- The counters of a server on concrete requests: src/proxy/server.rs.
use pingap.Common.{
  ℕ, ◌^◌, ◌≡◌, refl, sym, ap, ◌∙◌, ◌⊎◌, inl, inr, ◌-◌, Option, none, some, List, [], ◌∷◌, arith,
}
use pingap.Common.Text.{Str, str, str_eq_iff, starts_with}
use pingap.Common.Map.{get, update}
use pingap.Common.Results.{ok, err}
use pingap.Core.Ctx.{Ctx, new_ctx}
use pingap.Core.Plugin.{Session}
use pingap.Http.Header.{parse_usize, get_host}
use pingap.Common.Tests.{some≢none}
use pingap.Location.Selector.{body_too_large}
use pingap.Location.Registry.{get_location}
use pingap.Location.Route.{
  Location, get_content_length, validate_content_length, match_host_path, add_processing,
  sub_processing,
}
use pingap.Server.Balance.{IsSound, processing_of}
use pingap.Server.Balance.Single.{
  logging-early_request_filter, logging-early_request_filter_of_too_large,
  logging-early_request_filter_of_no_match,
}
use pingap.Server.Balance.Traffic.{IsBalanced, Reach, start, next, arrives, ends, Reach-IsBalanced}
use pingap.Server.State.{State}
use pingap.Server.Early.{
  early_request_filter, enter_location, prepared, with_addresses, with_connection, count_request,
}
use pingap.Server.Logging.{logging, get_upstream_with_variables, resolved_name, leave_location}
use pingap.Server.Plugins.Chain.{KeepsLocation}
use pingap.Server.State.{accept_request}
use pingap.Server.Plugins.{handle_request_plugin}
use pingap.Upstream.Peer.{get_upstream}
use pingap.Server.Routes.{find_location, add_variables}
use pingap.Server.Routes.Choice.{first_match, last_known}
use pingap.Tests.Fixtures.{literals, env, base_location, web, locations, state, ask}

code : Unit {0}
unfolding get update get_location match_host_path get_content_length validate_content_length
    add_processing sub_processing first_match last_known early_request_filter logging get_host
    parse_usize starts_with get_upstream_with_variables get_upstream resolved_name enter_location
    find_location handle_request_plugin add_variables prepared with_addresses with_connection
    leave_location count_request accept_request
code = tt

abbrev names : List Str
names = str "api" ∷ str "web" ∷ []

abbrev hit : Session
hit = ask (str "/api/x") []

abbrev large : Session
large = ask (str "/api/x") ((str "content-length", str "11") ∷ [])

abbrev miss : Session
miss = ask (str "/else") []

abbrev after : Session → Ctx
after session = (early_request_filter literals env state session new_ctx).ctx

abbrev counter : Session → Str → Option ℕ
counter session j =
    processing_of literals j
      (logging literals (early_request_filter literals env state session new_ctx).state session
        (after session)).0.locations

listed : get state.server.name state.server_locations ≡ some names
unfolding code
listed = refl

chosen :
    (first_match literals locations [] (str "/api/x") names ≡ some (str "api", base_location))
    × (first_match literals locations [] (str "/else") names ≡ none)
    × (last_known literals locations names none ≡ some (str "web", web))
unfolding code
chosen = (refl, refl, refl)

sizes :
    (validate_content_length literals env.http base_location hit.req_header ≡ ok tt)
    × (validate_content_length literals env.http base_location large.req_header
        ≡ err (body_too_large 10))
    × (validate_content_length literals env.http web miss.req_header ≡ ok tt)
unfolding code
sizes = (refl, refl, refl)

-- The counter after a request: as it was, down by one, and up by one.
counters :
    (counter hit (str "api") ≡ some 0)
    × (counter large (str "api") ≡ some (2 ^ 32 - 1))
    × (counter miss (str "web") ≡ some 0)
unfolding code
counters = (refl, refl, refl)

two_entries :
    (k : Str) (l : Location literals)
    → get k locations ≡ some l
    → ((str "api" ≡ k) × (base_location ≡ l)) ⊎ ((str "web" ≡ k) × (web ≡ l))
unfolding get
two_entries k l e = ground (arith, str_eq_iff (str "api") k, str_eq_iff (str "web") k)

sound : IsSound literals locations
sound = record {
  named = λ k l e. elim (two_entries k l e) [
    | inl (at, is) ↦ ap (λ (l : Location literals). l.name) (sym is) ∙ at
    | inr (at, is) ↦ ap (λ (l : Location literals). l.name) (sym is) ∙ at
  ];
  bounded = λ k l e. elim (two_entries k l e) [
    | inl (at, is) ↦ rw (sym is) (omega arith)
    | inr (at, is) ↦ rw (sym is) (omega arith)
  ];
}

keeps : KeepsLocation env.plugins
keeps name plugin step session ctx e = absurd (some≢none (sym e))

logging-early_request_filter_example : counter hit (str "api") ≡ some 0
unfolding code
logging-early_request_filter_example =
    logging-early_request_filter literals env state hit new_ctx names (str "api") base_location
      listed hit (after hit) keeps sound chosen.0 sizes.0 refl (str "api")

logging-early_request_filter_of_too_large_example : counter large (str "api") ≡ some (2 ^ 32 - 1)
unfolding code
logging-early_request_filter_of_too_large_example =
    logging-early_request_filter_of_too_large literals env state large new_ctx names (str "api")
      base_location listed large (after large) (body_too_large 10) sound chosen.0 sizes.1 refl

logging-early_request_filter_of_no_match_example : counter miss (str "web") ≡ some 0
unfolding code
logging-early_request_filter_of_no_match_example =
    logging-early_request_filter_of_no_match literals env state miss new_ctx names (str "web") web
      listed miss (after miss) keeps chosen.1 chosen.2 sizes.2 refl refl

abbrev quiet : State literals
quiet = record state { locations = (str "api", base_location) ∷ [] }

quiet_entry :
    (j : Str) (l : Location literals)
    → get j quiet.locations ≡ some l
    → (l.name ≡ j) × (l.processing ≡ 0)
unfolding get
quiet_entry j l e = ground (arith, str_eq_iff (str "api") j)

quiet-IsBalanced : IsBalanced literals quiet []
quiet-IsBalanced = record { counts = λ j l named e. quiet_entry j l e; counts_all = (refl, refl) }

-- One request starts and ends.
visit :
    Reach literals env quiet []
      (logging literals
        (early_request_filter literals env quiet hit new_ctx).state
        hit
        (after hit)).0
      []
unfolding code
visit =
    next
      (next start (arrives quiet [] hit new_ctx names (str "api") base_location listed refl refl))
      (ends (early_request_filter literals env quiet hit new_ctx).state [] [] hit (after hit))

Reach-IsBalanced_example :
    IsBalanced literals
      (logging literals
        (early_request_filter literals env quiet hit new_ctx).state
        hit
        (after hit)).0
      []
Reach-IsBalanced_example = Reach-IsBalanced literals env quiet [] _ [] keeps quiet-IsBalanced visit
