-- ===== src/Location/Route/Matching.antt =====
-- When a location matches: `Location::match_host_path` of pingap-location/src/location.rs against
-- a description of what its selectors stand for.
use pingap.Common.{◌≡◌, refl, ◌↔◌, ◌⊎◌, true, none, List, [], ◌∷◌, ◌++◌, arith}
use pingap.Common.Text.{Str, str_eq_iff, starts_with-exists, starts_with-append}
use pingap.External.{RegexLib}
use pingap.Location.Capture
use pingap.Location.Capture.{RegexCapture}
use pingap.Location.Selector.{
  PathSelector, regex_path, prefix_path, equal_path, any_path, HostSelector, regex_host, equal_host,
}
use pingap.Location.Route.{Location, found, match_path, match_hosts, match_host, match_host_path}

module _ (rx : RegexLib) where
  abbrev pub PathMatches : PathSelector rx → Str → Type 0
  PathMatches (regex_path value) path = rx.is_match value.re path ≡ true
  PathMatches (prefix_path value) path = (rest : Str) × (path ≡ value ++ rest)
  PathMatches (equal_path value) path = path ≡ value
  PathMatches any_path path = Unit

  abbrev pub HostMatches : HostSelector rx → Str → Type 0
  HostMatches (regex_host value) host = rx.is_match value.re host ≡ true
  HostMatches (equal_host value) host = (value ≡ []) ⊎ (value ≡ host)

  abbrev pub SomeHost : List (HostSelector rx) → Str → Type 0
  SomeHost [] host = ⊥
  SomeHost (h ∷ hs) host = HostMatches h host ⊎ SomeHost hs host

  -- What the configuration of the location asks of a request.
  pub record Accepts (self : Location rx) (host path : Str) : Type 0 where
    pub by_path : (self.path ≡ []) ⊎ PathMatches self.path_selector path
    pub by_host : (self.hosts ≡ []) ⊎ SomeHost self.hosts host

  captures-matched :
      (c : RegexCapture rx) (s : Str) → (Capture.captures rx c s).0 ≡ rx.is_match c.re s
  unfolding Capture.captures
  captures-matched c s = ground arith

  match_path_iff :
      (p : PathSelector rx) (path : Str) → ((match_path rx p path).0 ≡ true) ↔ PathMatches p path
  unfolding match_path
  match_path_iff (regex_path value) path = rw (captures-matched value path) (λ h. h, λ h. h)
  match_path_iff (prefix_path value) path =
      (λ h. starts_with-exists path value h, λ (rest, e). rw e (starts_with-append value rest))
  match_path_iff (equal_path value) path = ground (arith, str_eq_iff value path)
  match_path_iff any_path path = (λ _. tt, λ _. refl)

  match_hosts_iff :
      (hs : List (HostSelector rx)) (host : Str) (vars : List (Str × Str))
      → ((match_hosts rx hs host vars).0 ≡ true) ↔ SomeHost hs host
  unfolding match_hosts
  match_hosts_iff [] host vars = ground arith
  match_hosts_iff (regex_host value ∷ hs) host vars = ground (
    arith,
    captures-matched value host,
    match_hosts_iff hs host (vars ++ found rx (Capture.captures rx value host)),
  )
  match_hosts_iff (equal_host value ∷ hs) host vars =
      ground (arith, str_eq_iff value host, match_hosts_iff hs host vars)

  match_host_iff :
      (self : Location rx) (host : Str) (vars : List (Str × Str))
      → ((match_host rx self host vars).0 ≡ true) ↔ ((self.hosts ≡ []) ⊎ SomeHost self.hosts host)
  unfolding match_host
  match_host_iff self host vars = ground (arith, match_hosts_iff self.hosts host vars)

  -- A location matches a request exactly when its path is empty or accepts the request's path, and
  -- its list of hosts is empty or one of them accepts the request's host.
  pub match_host_path_iff :
      (self : Location rx) (host path : Str)
      → ((match_host_path rx self host path).0 ≡ true) ↔ Accepts self host path
  unfolding match_host_path
  match_host_path_iff self host path = ground (
    arith,
    match_path_iff self.path_selector path,
    match_host_iff self host [],
    match_host_iff self host (match_path rx self.path_selector path).1,
  )

  -- A location that gives no host hands on no variables, whatever its path has captured.
  pub match_host_path-no_hosts :
      (self : Location rx) (host path : Str)
      → self.hosts ≡ []
      → (match_host_path rx self host path).1 ≡ none
  unfolding match_host_path match_host
  match_host_path-no_hosts self host path e = ground arith
