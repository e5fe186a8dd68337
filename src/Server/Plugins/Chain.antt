-- ===== src/Server/Plugins/Chain.antt =====
-- The order in which the plugins of a location run, and what they leave alone: the chain of
-- src/proxy/server.rs.
use pingap.Common.{
  ◌<◌, ◌≤◌, ◌≡◌, refl, sym, ap, subst, ◌∙◌, ◌⊎◌, inl, inr, Bool, true, false, Option, none, some,
  List, [], ◌∷◌, ◌++◌, arith,
}
use pingap.Common.Tests.{ltb, Bool-cases, Option-cases}
use pingap.Common.Text.{Str}
use pingap.Common.Results.{Result, ok, err, Result-cases}
use pingap.Core.Ctx.{Ctx, add_plugin_processing_time}
use pingap.Core.Plugin.{PluginStep, HttpResponse, Failure, Session, Plugin}
use pingap.Server.Plugins.{PluginEnv, Ran, answer, after_plugin, run_plugins, handle_request_plugin}

module _ (env : PluginEnv) (step : PluginStep) where
  -- The context after a plugin: with the time that it took, if it says that it did something.
  abbrev pub after : Bool → Str → Ctx → Ctx
  after true name ctx = add_plugin_processing_time ctx name (env.elapsed name step)
  after false name ctx = ctx

  -- The plugins of a list are run one after the other, and none of them answers or fails: from a
  -- session and a context to those behind the list. A name without a plugin is skipped.
  pub data Passes : List Str → Session → Ctx → Session → Ctx → Type 0 where
    nobody : {session : Session} {ctx : Ctx} → Passes [] session ctx session ctx
    unknown :
        {name : Str} {names : List Str} {session session' : Session} {ctx ctx' : Ctx}
        → env.get_plugin name ≡ none
        → Passes names session ctx session' ctx'
        → Passes (name ∷ names) session ctx session' ctx'
    passed :
        {name : Str} {names : List Str} {session between session' : Session}
        {ctx ctx_between ctx' : Ctx} {plugin : Plugin} {executed : Bool}
        → env.get_plugin name ≡ some plugin
        → plugin.handle_request step session ctx ≡ (between, ctx_between, ok (executed, none))
        → Passes names between (after executed name ctx_between) session' ctx'
        → Passes (name ∷ names) session ctx session' ctx'

  -- A plugin ends the chain: it fails, it gives a response, which is sent unless its status is a sign
  -- that it was sent before, or the sending fails.
  pub data Ends (name : Str) (session : Session) (ctx : Ctx) : Ran → Type 0 where
    failed :
        {plugin : Plugin} {session' : Session} {ctx' : Ctx} {e : Failure}
        → env.get_plugin name ≡ some plugin
        → plugin.handle_request step session ctx ≡ (session', ctx', err e)
        → Ends name session ctx (session', ctx', err e)
    sent_before :
        {plugin : Plugin} {session' : Session} {ctx' : Ctx} {executed : Bool} {resp : HttpResponse}
        → env.get_plugin name ≡ some plugin
        → plugin.handle_request step session ctx ≡ (session', ctx', ok (executed, some resp))
        → 900 ≤ resp.status
        → Ends name session ctx (session', after executed name ctx', ok true)
    answered :
        {plugin : Plugin} {session' sent : Session} {ctx' : Ctx} {executed : Bool}
        {resp : HttpResponse}
        → env.get_plugin name ≡ some plugin
        → plugin.handle_request step session ctx ≡ (session', ctx', ok (executed, some resp))
        → resp.status < 900
        → env.send resp session' ≡ (sent, ok tt)
        → Ends name session ctx
            (sent, record (after executed name ctx') { status = some resp.status }, ok true)
    unsent :
        {plugin : Plugin} {session' sent : Session} {ctx' : Ctx} {executed : Bool}
        {resp : HttpResponse} {e : Failure}
        → env.get_plugin name ≡ some plugin
        → plugin.handle_request step session ctx ≡ (session', ctx', ok (executed, some resp))
        → resp.status < 900
        → env.send resp session' ≡ (sent, err e)
        → Ends name session ctx
            (sent, record (after executed name ctx') { status = some resp.status }, err e)

  -- Everybody passes, or the first one that does not ends the chain.
  abbrev pub FirstEnds : List Str → Session → Ctx → Ran → Type 0
  FirstEnds names session ctx ran =
      ((session' : Session) × (ctx' : Ctx) × Passes names session ctx session' ctx'
        × (ran ≡ (session', ctx', ok false)))
      ⊎ ((before : List Str) × (name : Str) × (behind : List Str) × (session' : Session)
          × (ctx' : Ctx) × (names ≡ before ++ (name ∷ behind))
          × Passes before session ctx session' ctx'
          × Ends name session' ctx' ran)

  answer-Ends :
      (name : Str) (session session' : Session) (ctx ctx' : Ctx) (plugin : Plugin) (executed : Bool)
      (resp : HttpResponse)
      → env.get_plugin name ≡ some plugin
      → plugin.handle_request step session ctx ≡ (session', ctx', ok (executed, some resp))
      → (out : Session × Result Failure (Unit {0})) → env.send resp session' ≡ out
      → Ends name session ctx (answer env step resp session' (after executed name ctx'))
  unfolding answer
  answer-Ends name session session' ctx ctx' plugin executed resp known ran (sent, out) gives =
      elim (Bool-cases (ltb resp.status 900)) [
        | inr large ↦ rw (answer, large) (sent_before known ran (ground (arith, large)))
        | inl small ↦ elim (Result-cases out) [
          | inl (tt, e) ↦
              let done = gives ∙ ap (λ r. (sent, r)) e in
              rw (answer, small, done) (answered known ran (ground (arith, small)) done)
          | inr (failure, e) ↦
              let done = gives ∙ ap (λ r. (sent, r)) e in
              rw (answer, small, done) (unsent known ran (ground (arith, small)) done)
        ]
      ]

  after_plugin-after :
      (name : Str) (rest : Session → Ctx → Ran) (session : Session) (ctx : Ctx) (executed : Bool)
      (result : Option HttpResponse)
      → after_plugin env step name rest (session, ctx, ok (executed, result)) ≡ elim result [
        | none ↦ rest session (after executed name ctx)
        | some resp ↦ answer env step resp session (after executed name ctx)
      ]
  unfolding after_plugin
  after_plugin-after name rest session ctx true none = refl
  after_plugin-after name rest session ctx false none = refl
  after_plugin-after name rest session ctx true (some resp) = refl
  after_plugin-after name rest session ctx false (some resp) = refl

  after_plugin-FirstEnds :
      (name : Str) (names : List Str) (session : Session) (ctx : Ctx) (plugin : Plugin)
      → env.get_plugin name ≡ some plugin
      → ((s : Session) (c : Ctx) → FirstEnds names s c (run_plugins env step names s c))
      → (out : Session × Ctx × Result Failure (Bool × Option HttpResponse))
      → plugin.handle_request step session ctx ≡ out
      → FirstEnds
          (name ∷ names)
          session
          ctx
          (after_plugin env step name (run_plugins env step names) out)
  unfolding after_plugin
  after_plugin-FirstEnds name names session ctx plugin known later (session', ctx', err e) ran =
      inr ([], name, names, session, ctx, refl, nobody, failed known ran)
  after_plugin-FirstEnds name names session ctx plugin known later
        (session', ctx', ok (executed, none)) ran =
      let same = after_plugin-after name (run_plugins env step names) session' ctx' executed none in
      elim (later session' (after executed name ctx')) [
        | inl (last, ctx_last, all, e) ↦ inl (last, ctx_last, passed known ran all, same ∙ e)
        | inr (before, first, behind, s, c, e, all, ends) ↦ inr (
          name ∷ before,
          first,
          behind,
          s,
          c,
          ap (λ l. name ∷ l) e,
          passed known ran all,
          subst (Ends first s c) (sym same) ends,
        )
      ]
  after_plugin-FirstEnds name names session ctx plugin known later
        (session', ctx', ok (executed, some resp)) ran =
      let same =
        after_plugin-after name (run_plugins env step names) session' ctx' executed (some resp) in
      inr (
        [],
        name,
        names,
        session,
        ctx,
        refl,
        nobody,
        subst (Ends name session ctx) (sym same) (
            answer-Ends name session session' ctx ctx' plugin executed resp known ran
              (env.send resp session') refl),
      )

  -- The plugins run in the order of the list, each on the session and the context that the one
  -- before it left, as long as none answers or fails; the first one that does gives the result, and
  -- the ones behind it are not run.
  pub run_plugins-FirstEnds :
      (names : List Str) (session : Session) (ctx : Ctx)
      → FirstEnds names session ctx (run_plugins env step names session ctx)
  unfolding run_plugins
  run_plugins-FirstEnds [] session ctx = inl (session, ctx, nobody, refl)
  run_plugins-FirstEnds (name ∷ names) session ctx = elim (Option-cases (env.get_plugin name)) [
    | inr (plugin, known) ↦
        rw (known, run_plugins)
          (after_plugin-FirstEnds name names session ctx plugin known (run_plugins-FirstEnds names)
            (plugin.handle_request step session ctx) refl)
    | inl missing ↦
        rw (missing, run_plugins)
          (elim (run_plugins-FirstEnds names session ctx) [
            | inl (s, c, all, e) ↦ inl (s, c, unknown missing all, e)
            | inr (before, first, behind, s, c, e, all, ends) ↦ inr (
              name ∷ before,
              first,
              behind,
              s,
              c,
              ap (λ l. name ∷ l) e,
              unknown missing all,
              ends,
            )
          ])
  ]

-- A plugin keeps the location that was chosen for the request.
abbrev pub KeepsLocation : PluginEnv → Type 0
KeepsLocation env =
    (name : Str) (plugin : Plugin) (step : PluginStep) (session : Session) (ctx : Ctx)
    → env.get_plugin name ≡ some plugin
    → (plugin.handle_request step session ctx).1.location ≡ ctx.location

module _ (env : PluginEnv) (step : PluginStep) (keeps : KeepsLocation env) where
  after_plugin-location :
      (name : Str) (rest : Session → Ctx → Ran) (location : Str)
      (out : Session × Ctx × Result Failure (Bool × Option HttpResponse))
      → ((s : Session) (c : Ctx) → c.location ≡ location → (rest s c).1.location ≡ location)
      → out.1.location ≡ location
      → (after_plugin env step name rest out).1.location ≡ location
  unfolding after_plugin answer add_plugin_processing_time
  after_plugin-location name rest location (session, ctx, err e) h k = k
  after_plugin-location name rest location (session, ctx, ok (true, none)) h k = h session _ k
  after_plugin-location name rest location (session, ctx, ok (false, none)) h k = h session ctx k
  after_plugin-location name rest location (session, ctx, ok (executed, some resp)) h k =
      ground arith

  run_plugins-location :
      (names : List Str) (session : Session) (ctx : Ctx) (location : Str)
      → ctx.location ≡ location
      → (run_plugins env step names session ctx).1.location ≡ location
  unfolding run_plugins
  run_plugins-location [] session ctx location k = k
  run_plugins-location (name ∷ names) session ctx location k =
      elim (Option-cases (env.get_plugin name)) [
        | inl missing ↦
            rw (missing, run_plugins) (run_plugins-location names session ctx location k)
        | inr (plugin, known) ↦
            rw (known, run_plugins)
              (after_plugin-location name (run_plugins env step names) location _
                (λ s c. run_plugins-location names s c location)
                (keeps name plugin step session ctx known ∙ k))
      ]

  pub handle_request_plugin-location :
      (plugins : Option (List Str)) (session : Session) (ctx : Ctx)
      → (handle_request_plugin env step plugins session ctx).1.location ≡ ctx.location
  unfolding handle_request_plugin
  handle_request_plugin-location none session ctx = refl
  handle_request_plugin-location (some plugins) session ctx =
      ground (arith, run_plugins-location plugins session ctx ctx.location refl)
