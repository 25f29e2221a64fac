-- ===== src/RouteChecks.antt =====
-- The checks of a request against its route and the configuration that need no other handler, in
-- packages/core/src/core/checks/implementations: authentication.ts, required-headers.ts, emergency-mode.ts,
-- https-enforcement.ts and time-window.ts, with extractCredential of core/checks/helpers.ts and
-- isRequestHttps, isTrustedProxy and checkTimeWindow of core/validation/validator.ts. Verifiers, the address parser
-- and lower case come from outside. None of these calls of `logActivity` passes hooks, so they only log.
pub mod Parts
pub mod Credentials
pub mod Authentication
pub mod Headers
pub mod Gates
pub mod Tests
use Prim.Native.String
use mathlib.Core.Option
use guard_core_ts.Base.{
  ℕ, String, Bool, false, [], ◌∷◌, ◌++◌, Option, none, some, leb, not, ◌&&◌, ◌||◌, if◌then◌else◌,
  str_eq, ◌<>◌,
}
use guard_core_ts.JsMap.{JsMap, get}
use guard_core_ts.Response.{Response}
use guard_core_ts.Activity.{includes}
use guard_core_ts.IpAccess.{Addresses, is_empty}
unfoldable pub use guard_core_ts.RouteChecks.Parts.*

module _ {V : Type 0} (error_response : ℕ → String → Response) (c : Config V) where
  abbrev pub action : String
  action = if c.passive_mode then "logged_only" else "request_blocked"

  abbrev pub note : Violation → Left V → Left V
  note e s = record s { events = s.events ++ e ∷ [] }

  -- A response unless passive mode is on.
  abbrev pub deny : ℕ → String → Option Response
  deny status message = if c.passive_mode then none else some (error_response status message)

  -- `handleAuthFailure`
  unfoldable pub handle_auth_failure :
      String → String → RouteConfig V → Left V → Option Response × Left V
  handle_auth_failure auth_reason violation_type r s = (
    deny 401 "Authentication required",
    note
        (record {
          event_type = "decorator_violation";
          action_taken = action;
          reason = auth_reason;
          violation_type = violation_type;
          subject = auth_type_of r;
        })
        s,
  )

  -- `checkPresence`
  unfoldable pub on_presence :
      Option String × String → RouteConfig V → Left V → Option Response × Left V
  on_presence (none, reason) r s = handle_auth_failure reason "authorization_header" r s
  on_presence (some credential, reason) r s = (none, s)

  unfoldable pub resolve_credential :
      (String → String)
      → JsMap String
      → Option String
      → RouteConfig V
      → (Option String × String) × Option (String → Verdict V)
  resolve_credential lower headers (some auth_type) r = (
    extract_credential (Option.get_or (get headers "authorization") "") auth_type,
    first_verifier r.auth_verifier c.global_verifier,
  )
  resolve_credential lower headers none r = (
    api_key_credential (get headers (lower (Option.get_or r.api_key_header ""))),
    first_verifier r.api_key_verifier c.global_verifier,
  )

  unfoldable pub on_verdict : Verdict V → RouteConfig V → Left V → Option Response × Left V
  on_verdict verifier_threw r s = handle_auth_failure "Authentication error" "require_auth" r s
  on_verdict rejected r s = handle_auth_failure "Authentication failed" "require_auth" r s
  on_verdict (accepted v) r s = (none, record s { auth_principal = some v })

  -- Passive mode answers nothing to a missing credential, and the check goes on without a verifier.
  abbrev pub or_no_verifier : RouteConfig V → Option Response × Left V → Option Response × Left V
  or_no_verifier r (some response, s) = (some response, s)
  or_no_verifier r (none, s) = handle_auth_failure "No auth verifier configured" "require_auth" r s

  -- `check` from the credential on.
  unfoldable pub verify :
      (Option String × String) × Option (String → Verdict V)
      → RouteConfig V
      → Left V
      → Option Response × Left V
  verify ((none, reason), verifier) r s =
      or_no_verifier r (handle_auth_failure reason "require_auth" r s)
  verify ((some credential, reason), none) r s =
      handle_auth_failure "No auth verifier configured" "require_auth" r s
  verify ((some credential, reason), some verifier) r s = on_verdict (verifier credential) r s

  -- `AuthenticationCheck.check` on a route: presence only, or a credential that is verified.
  unfoldable pub authenticate :
      (String → String)
      → JsMap String
      → Option String
      → Option String
      → RouteConfig V
      → Left V
      → Option Response × Left V
  authenticate lower headers (some scheme) auth r s =
      on_presence (extract_credential (Option.get_or (get headers "authorization") "") scheme) r s
  authenticate lower headers none (some auth_type) r s =
      verify (resolve_credential lower headers (some auth_type) r) r s
  authenticate lower headers none none r s =
      if r.api_key_required then verify (resolve_credential lower headers none r) r s else (none, s)

  unfoldable pub authentication_check :
      (String → String) → Request V → Left V → Option Response × Left V
  authentication_check lower q s = elim q.route_config [
    | none ↦ (none, s)
    | some r ↦
        authenticate lower q.headers (truthy r.authorization_header_required)
          (truthy r.auth_required) r s
  ]

  -- `reportHeaderViolation`
  unfoldable pub report_header_violation :
      (String → String) → String → String → Left V → Option Response × Left V
  report_header_violation lower header reason s = (
    deny 400 reason,
    note
        (record {
          event_type = "decorator_violation";
          action_taken = action;
          reason = reason;
          violation_type = classify_header_violation lower header;
          subject = header;
        })
        s,
  )

  unfoldable pub or_report :
      (String → String)
      → String
      → Option String
      → Left V
      → Option Response × Left V
      → Option Response × Left V
  or_report lower header none s rest = rest
  or_report lower header (some reason) s rest = report_header_violation lower header reason s

  -- `RequiredHeadersCheck.check`: the first fault is reported, and the others are not.
  unfoldable pub check_headers :
      (String → String) → JsMap String → JsMap String → Left V → Option Response × Left V
  check_headers lower headers [] s = (none, s)
  check_headers lower headers ((header, expected) ∷ required) s =
      or_report lower header (header_fault header expected (truthy (get headers (lower header)))) s
        (check_headers lower headers required s)

  unfoldable pub required_headers_check :
      (String → String) → Request V → Left V → Option Response × Left V
  required_headers_check lower q s = elim q.route_config [
    | none ↦ (none, s)
    | some r ↦ check_headers lower q.headers r.required_headers s
  ]

  -- `EmergencyModeCheck.check`
  unfoldable pub emergency_mode_check : Request V → Left V → Option Response × Left V
  emergency_mode_check q s =
      let client_ip = Option.get_or q.client_host "" in
      if not c.emergency_mode || includes c.emergency_whitelist client_ip then (none, s) else (
        deny 503 "Service temporarily unavailable",
        note
            (record {
              event_type = "emergency_mode_block";
              action_taken = action;
              reason = "[EMERGENCY MODE] IP " <> client_ip <> " not in whitelist";
              violation_type = "";
              subject = "";
            })
            s,
      )

  -- `TimeWindowCheck.check`
  unfoldable pub time_window_check : (String → String → Bool) → String → Request V → Option Response
  time_window_check text_leb now q = elim (Option.bind q.route_config (λ r. r.time_restrictions)) [
    | none ↦ none
    | some window ↦
        if in_time_window text_leb now window
        then none
        else deny 403 "Access denied: outside allowed time window"
  ]

  -- `isRequestHttps`
  unfoldable pub forwarded_https :
      {P : Type 0} → Addresses P → (String → String) → Option String → JsMap String → Bool
  forwarded_https addresses lower none headers = false
  forwarded_https addresses lower (some ip) headers =
      is_trusted_proxy addresses ip c.trusted_proxies
      && str_eq (lower (Option.get_or (get headers "x-forwarded-proto") "")) "https"

  unfoldable pub is_request_https :
      {P : Type 0} → Addresses P → (String → String) → Request V → Bool
  is_request_https addresses lower q =
      str_eq q.url_scheme "https"
      || (c.trust_x_forwarded_proto
          && not (is_empty c.trusted_proxies)
          && forwarded_https addresses lower (truthy q.client_host) q.headers)

  unfoldable pub https_required : Request V → Bool
  https_required q = elim q.route_config [ none ↦ c.enforce_https | some r ↦ r.require_https ]

  -- `HttpsEnforcementCheck.check`, with the response of the factory and the event of
  -- `sendHttpsViolationEvent`.
  unfoldable pub https_enforcement_check :
      {P : Type 0}
      → Addresses P
      → (String → String)
      → Response
      → Request V
      → Left V
      → Option Response × Left V
  https_enforcement_check addresses lower redirect q s =
      if not (https_required q) || is_request_https addresses lower q then (none, s) else (
        (if c.passive_mode then none else some redirect),
        note
            (record {
              event_type =
                  if is_some q.route_config then "decorator_violation" else "https_enforced";
              action_taken = "https_redirect";
              reason =
                  if is_some q.route_config
                  then "Route requires HTTPS but request was HTTP"
                  else "HTTP request redirected to HTTPS for security";
              violation_type = if is_some q.route_config then "require_https" else "";
              subject = "";
            })
            s,
      )
