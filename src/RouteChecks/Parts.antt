-- ===== src/RouteChecks/Parts.antt =====
-- The data of the checks of core/checks/implementations on a route, and the tests that need no response.
use Prim.Native.Char.{code}
use mathlib.Core.Option
use guard_core_ts.Base.{
  String, Bool, true, false, List, [], ◌∷◌, Option, none, some, ◌==◌, not, ◌&&◌, ◌||◌,
  if◌then◌else◌, str_eq, ◌<>◌,
}
use guard_core_ts.JsMap.{JsMap}
use guard_core_ts.IpAccess.{Addresses, has_slash}

-- An event of a check, with the metadata that tells violations apart.
pub record Violation : Type 0 where
  pub event_type : String
  pub action_taken : String
  pub reason : String
  pub violation_type : String
  pub subject : String

-- How a verifier ends: it throws, or its answer is falsy or truthy.
pub data Verdict (V : Type 0) : Type 0 where
  verifier_threw rejected : Verdict V
  accepted : V → Verdict V

-- The part of a route configuration that these checks read.
pub record RouteConfig (V : Type 0) : Type 0 where
  pub require_https : Bool
  pub auth_required : Option String
  pub authorization_header_required : Option String
  pub auth_verifier : Option (String → Verdict V)
  pub api_key_verifier : Option (String → Verdict V)
  pub api_key_header : Option String
  pub api_key_required : Bool
  pub required_headers : JsMap String
  pub time_restrictions : Option (String × String)

pub record Config (V : Type 0) : Type 0 where
  pub passive_mode : Bool
  pub global_verifier : Option (String → Verdict V)
  pub emergency_mode : Bool
  pub emergency_whitelist : List String
  pub enforce_https : Bool
  pub trust_x_forwarded_proto : Bool
  pub trusted_proxies : List String

pub record Request (V : Type 0) : Type 0 where
  pub client_host : Option String
  pub url_scheme : String
  pub headers : JsMap String
  pub route_config : Option (RouteConfig V)

-- What a check leaves behind: its events, and `request.state.auth_principal`.
pub record Left (V : Type 0) : Type 0 where
  pub events : List Violation
  pub auth_principal : Option V

-- A string that is set and not empty.
unfoldable pub truthy : Option String → Option String
truthy none = none
truthy (some String.[]) = none
truthy (some (String.◌∷◌ c s)) = some (String.◌∷◌ c s)

abbrev pub is_some : {A : Type 0} → Option A → Bool
is_some none = false
is_some (some a) = true

-- What follows a prefix, where a text starts with it.
unfoldable pub strip_prefix : String → String → Option String
strip_prefix String.[] s = some s
strip_prefix (String.◌∷◌ c p) String.[] = none
strip_prefix (String.◌∷◌ c p) (String.◌∷◌ d s) =
    let rest = strip_prefix p s in if code c == code d then rest else none

unfoldable pub or_reason : String → Option String → Option String × String
or_reason reason none = (none, reason)
or_reason reason (some credential) = (some credential, "")

-- `extractCredential`
unfoldable pub extract_credential : String → String → Option String × String
extract_credential auth_header auth_type =
    if str_eq auth_type "bearer"
    then or_reason "Missing or invalid Bearer token" (strip_prefix "Bearer " auth_header)
    else if str_eq auth_type "basic"
    then or_reason "Missing or invalid Basic authentication" (strip_prefix "Basic " auth_header)
    else or_reason ("Missing " <> auth_type <> " authentication") (truthy (some auth_header))

unfoldable pub auth_type_of : {V : Type 0} → RouteConfig V → String
auth_type_of r =
    Option.get_or r.auth_required (Option.get_or r.authorization_header_required "api_key")

-- `routeVerifier ?? config.authVerifier ?? null`
unfoldable pub first_verifier :
    {V : Type 0}
    → Option (String → Verdict V)
    → Option (String → Verdict V)
    → Option (String → Verdict V)
first_verifier none fallback = fallback
first_verifier (some verifier) fallback = some verifier

-- `resolveCredential`: the credential or the reason of its absence, and the verifier.
unfoldable pub api_key_credential : Option String → Option String × String
api_key_credential header = or_reason "Missing API key" (truthy header)

-- `classifyHeaderViolation`, the violation type of a header.
unfoldable pub classify_header_violation : (String → String) → String → String
classify_header_violation lower header =
    if str_eq (lower header) "x-api-key" then "api_key_required" else "required_header"

unfoldable pub missing_reason : String → String
missing_reason header = "Missing required header: " <> header

unfoldable pub mismatched_reason : String → String
mismatched_reason header = "Header '" <> header <> "' does not match the required value"

-- What is wrong with a header, if anything: it is absent or empty, or has another value.
unfoldable pub header_fault : String → String → Option String → Option String
header_fault header expected none = some (missing_reason header)
header_fault header expected (some actual) =
    if not (str_eq expected "required") && not (str_eq actual expected)
    then some (mismatched_reason header)
    else none

-- `currentTime >= start && currentTime <= end`, by the order of texts, around midnight if need be.
unfoldable pub in_time_window : (String → String → Bool) → String → String × String → Bool
in_time_window text_leb now (start, end) =
    if not (text_leb start end)
    then text_leb start now || text_leb now end
    else text_leb start now && text_leb now end

-- `isTrustedProxy`, over the address parser.
unfoldable pub proxy_matches : {P : Type 0} → Addresses P → String → String → Bool
proxy_matches addresses ip proxy =
    if has_slash proxy
    then elim (addresses.parse ip) [
      | none ↦ false
      | some parsed ↦ Option.get_or (addresses.in_cidr parsed proxy) false
    ]
    else str_eq ip proxy

unfoldable pub is_trusted_proxy : {P : Type 0} → Addresses P → String → List String → Bool
is_trusted_proxy addresses ip [] = false
is_trusted_proxy addresses ip (proxy ∷ proxies) =
    if proxy_matches addresses ip proxy then true else is_trusted_proxy addresses ip proxies
