-- ===== src/Plugin/Redirect/Followed.antt =====
-- What happens to a client that follows a redirect: pingap-plugin/src/redirect.rs.
use pingap.Common.{◌≡◌, refl, Bool, true, false, none, ◌++◌}
use pingap.Common.Text.{Str, starts_with-append}
use pingap.Common.Results.{ok}
use pingap.Core.Ctx.{Ctx}
use pingap.Core.Plugin.{request, Session}
use pingap.External.{HttpLib}
use pingap.Plugin.Redirect.{Redirect, new, is_some, same, handle_request}

module _ (http : HttpLib) (prefix : Str) (http_to_https : Bool) (session : Session)
    (ctx : Ctx) where
  abbrev self : Redirect
  self = new prefix http_to_https

  -- The request that follows a redirect of the session: the path behind the prefix.
  abbrev pub followed : Session
  followed = record session {
    req_header = record (session.req_header) {
      uri = record (session.req_header.uri) { path = self.prefix ++ session.req_header.uri.path };
    };
  }

  -- The plugin lets a request pass that follows its redirect over the connection that it asks for,
  -- so that no redirect leads to another one.
  pub handle_request-followed :
      same (is_some ctx.tls_version) http_to_https ≡ true
      → handle_request http self request followed ctx ≡ (followed, ctx, ok (false, none))
  unfolding handle_request new
  handle_request-followed over =
      let there = starts_with-append self.prefix session.req_header.uri.path in
      rw (handle_request, over, there) refl
