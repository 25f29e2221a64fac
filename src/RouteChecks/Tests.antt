-- ===== src/RouteChecks/Tests.antt =====
-- Runs of the checks of core/checks/implementations on a route, and the theorems about them at concrete
-- inputs.
use guard_core_ts.Base.{
  length, ℕ, ◌≡◌, refl, String, Bool, true, false, [], ◌∷◌, none, some, str_eq, ◌||◌, subst,
  if◌then◌else◌,
}
use mathlib.Core.Option
use guard_core_ts.JsMap.{JsMap, get}
use guard_core_ts.Response.{Response}
use guard_core_ts.IpAccess.{Addresses, has_slash}
use guard_core_ts.RouteChecks.{
  Verdict, accepted, rejected, RouteConfig, Config, Request, Left, truthy, strip_prefix, or_reason,
  extract_credential, resolve_credential, first_verifier, on_verdict, verify, authenticate,
  handle_auth_failure, authentication_check, in_time_window, is_trusted_proxy, proxy_matches,
}

abbrev error_response : ℕ → String → Response
error_response status message = record { status_code = status; body_text = message; headers = [] }

abbrev same : String → String
same s = s

-- A verifier that knows one token, of the user 7.
abbrev verifier : String → Verdict ℕ
verifier token = if str_eq token "s3cret" then accepted 7 else rejected

abbrev route : RouteConfig ℕ
route = record {
  require_https = true;
  auth_required = some "bearer";
  authorization_header_required = none;
  auth_verifier = none;
  api_key_verifier = none;
  api_key_header = none;
  api_key_required = false;
  required_headers = ("x-tenant", "required") ∷ ("x-version", "2") ∷ [];
  time_restrictions = none;
}

abbrev config : Bool → Config ℕ
config passive = record {
  passive_mode = passive;
  global_verifier = some verifier;
  emergency_mode = true;
  emergency_whitelist = [];
  enforce_https = true;
  trust_x_forwarded_proto = true;
  trusted_proxies = "10.0.0.1" ∷ [];
}

abbrev headers : JsMap String
headers =
    ("authorization", "Bearer s3cret")
    ∷ ("x-tenant", "acme")
    ∷ ("x-version", "2")
    ∷ ("x-forwarded-proto", "https")
    ∷ []

abbrev request : Request ℕ
request = record {
  client_host = some "203.0.113.9";
  url_scheme = "http";
  headers = headers;
  route_config = some route;
}

abbrev nothing_left : Left ℕ
nothing_left = record { events = []; auth_principal = none }

abbrev addresses : Addresses ℕ
addresses = record { parse = λ s. none; in_cidr = λ p s. none; is_loopback = λ p. false }

principal_set :
    (authentication_check error_response (config false) same request nothing_left).1.auth_principal
    ≡ some 7
unfolding authentication_check authenticate truthy get extract_credential or_reason strip_prefix
    resolve_credential first_verifier verify on_verdict
principal_set = refl

bearer_without_space : (extract_credential "Bearers3cret" "bearer").0 ≡ none
unfolding extract_credential or_reason strip_prefix
bearer_without_space = refl

around_midnight :
    in_time_window (λ s t. str_eq s "22:00" || str_eq s "23:30") "23:30" ("22:00", "06:00") ≡ true
unfolding in_time_window
around_midnight = refl

-- In passive mode a missing credential is reported, and then that there is no verifier.
reported_twice :
    length
      (authentication_check error_response
        (config true)
        same
        (record request { headers = [] })
        nothing_left).1.events
    ≡ 2
unfolding authentication_check authenticate truthy get extract_credential or_reason strip_prefix
    resolve_credential first_verifier verify handle_auth_failure
reported_twice = refl

not_proxy :
    (ip : String)
    → truthy request.client_host ≡ some ip
    → is_trusted_proxy addresses ip ("10.0.0.1" ∷ []) ≡ false
unfolding truthy is_trusted_proxy proxy_matches has_slash
not_proxy ip e =
    subst (λ o. is_trusted_proxy addresses (Option.get_or o "") ("10.0.0.1" ∷ []) ≡ false) e refl
