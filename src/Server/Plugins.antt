-- ===== src/Server/Plugins.antt =====
-- The plugin chain of a request: `Server::handle_request_plugin` of src/proxy/server.rs.
pub mod Chain
use pingap.Common.{ℕ, Bool, true, false, Option, none, some, List, [], ◌∷◌}
use pingap.Common.Tests.{ltb, if◌then◌else◌}
use pingap.Common.Text.{Str}
use pingap.Common.Results.{Result, ok, err}
use pingap.Core.Ctx.{Ctx, add_plugin_processing_time}
use pingap.Core.Plugin.{PluginStep, HttpResponse, Failure, Session, Plugin}

-- What the server takes from its surroundings: the plugins by name, the sending of a response,
-- and the time that a plugin takes.
pub record PluginEnv : Type 0 where
  pub get_plugin : Str → Option Plugin
  pub send : HttpResponse → Session → Session × Result Failure (Unit {0})
  pub elapsed : Str → PluginStep → ℕ

abbrev pub Ran : Type 0
Ran = Session × Ctx × Result Failure Bool

module _ (env : PluginEnv) (step : PluginStep) where
  abbrev sent : Ctx → Session × Result Failure (Unit {0}) → Ran
  sent ctx (session, ok _) = (session, ctx, ok true)
  sent ctx (session, err e) = (session, ctx, err e)

  -- A status of 900 and more is a sign that the response was sent already.
  unfoldable pub answer : HttpResponse → Session → Ctx → Ran
  answer resp session ctx =
      if ltb resp.status 900
      then sent (record ctx { status = some resp.status }) (env.send resp session)
      else (session, ctx, ok true)

  unfoldable pub after_plugin :
      Str
      → (Session → Ctx → Ran)
      → Session × Ctx × Result Failure (Bool × Option HttpResponse)
      → Ran
  after_plugin name rest (session, ctx, err e) = (session, ctx, err e)
  after_plugin name rest (session, ctx, ok (executed, result)) =
      let timed =
        if executed then add_plugin_processing_time ctx name (env.elapsed name step) else ctx in
      elim result [ none ↦ rest session timed | some resp ↦ answer resp session timed ]

  -- The loop over the plugins of a location.
  unfoldable pub run_plugins : List Str → Session → Ctx → Ran
  run_plugins [] session ctx = (session, ctx, ok false)
  run_plugins (name ∷ names) session ctx = elim (env.get_plugin name) [
    | none ↦ run_plugins names session ctx
    | some plugin ↦ after_plugin name (run_plugins names) (plugin.handle_request step session ctx)
  ]

  unfoldable pub handle_request_plugin : Option (List Str) → Session → Ctx → Ran
  handle_request_plugin none session ctx = (session, ctx, ok false)
  handle_request_plugin (some plugins) session ctx =
      if session.is_upgrade_req then (session, ctx, ok false) else run_plugins plugins session ctx
