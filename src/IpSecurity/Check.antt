-- ===== src/IpSecurity/Check.antt =====
-- packages/core/src/core/checks/implementations/ip-security.ts: `IpSecurityCheck.check`. The answer of
-- the ban manager (IpBan) is given; a call of `escalateIdentityViolation` is recorded with its
-- category and its trigger, a call of `logActivity` with its reason.
use guard_core_ts.Base.{
  Bool, List, Option, String, [], false, if◌then◌else◌, none, not, some, str_eq, ℕ, ◌&&◌, ◌++◌,
  ◌<>◌, ◌||◌, ◌∷◌,
}
use guard_core_ts.IpAccess.{Addresses, GeoHandler, is_empty}
use guard_core_ts.Response.{Response}
use guard_core_ts.Routing.{should_bypass_check}
use guard_core_ts.IpSecurity.Lists.{
  Access, Config, Route, check_ip_access_detail, check_route_ip_access, is_ip_in_whitelist, is_true,
  set_list,
}

-- What a check sends to the event bus.
pub record Sent : Type 0 where
  pub event_type : String
  pub action_taken : String
  pub reason : String

-- The request's state, and what the check leaves behind.
pub record Trail : Type 0 where
  pub is_whitelisted : Bool
  pub is_exempt : Bool
  pub logs : List String
  pub events : List Sent
  pub escalations : List (String × String)

module _ {P : Type 0} (addresses : Addresses P) (c : Config) (geo : Option GeoHandler)
    (is_ip_banned : Option (String → Bool)) (create_error_response : ℕ → String → Response) where
  abbrev log_reason : String → Trail → Trail
  log_reason reason l = record l { logs = l.logs ++ reason ∷ [] }

  abbrev pub send_event : String → String → Trail → Trail
  send_event event_type reason l =
      let action = if c.passive_mode then "logged_only" else "request_blocked" in
      record l {
        events =
            l.events
            ++ record { event_type = event_type; action_taken = action; reason = reason } ∷ [];
      }

  abbrev escalate : String → String → Trail → Trail
  escalate category trigger l = record l { escalations = l.escalations ++ (category, trigger) ∷ [] }

  abbrev pub is_banned : Option (String → Bool) → String → Bool
  is_banned none ip = false
  is_banned (some banned) ip = banned ip

  abbrev pub bypassed_of : Option Route → Option (List String)
  bypassed_of none = none
  bypassed_of (some route) = some route.bypassed_checks

  -- `checkBannedIp`
  unfoldable pub check_banned_ip : Option Route → String → Trail → Option Response × Trail
  unfolding should_bypass_check
  check_banned_ip route ip l =
      let reason = "Banned IP attempted access: " <> ip in
      let left = send_event "ip_blocked" reason (log_reason reason l) in
      if should_bypass_check "ip_ban" (bypassed_of route) || not (is_banned is_ip_banned ip)
      then (none, l)
      else if c.passive_mode
      then (none, left)
      else (some (create_error_response 403 "IP address banned"), left)

  -- `routeResult === false`
  abbrev pub is_denial : Option Bool → Bool
  is_denial none = false
  is_denial (some verdict) = not verdict

  -- `checkRouteIpRestrictions`, of the route, if it has a configuration.
  unfoldable pub check_route_ip_restrictions :
      Option Route → String → Trail → Option Response × Trail
  unfolding check_route_ip_access
  check_route_ip_restrictions none ip l = (none, l)
  check_route_ip_restrictions (some route) ip l =
      let reason = "IP not allowed by route config: " <> ip in
      let left =
        send_event "decorator_violation" ("IP " <> ip <> " blocked") (log_reason reason l) in
      if not (is_denial (check_route_ip_access addresses geo route ip))
      then (none, l)
      else if c.passive_mode
      then (none, left)
      else (some (create_error_response 403 "Forbidden"), escalate "ip_restriction" reason left)

  -- The block under `!access.allowed`.
  unfoldable pub check_global : Access → String → Trail → Option Response × Trail
  check_global access ip l =
      let left =
        send_event "ip_blocked" access.reason
          (log_reason ("IP not allowed: " <> ip <> " - " <> access.reason) l) in
      if access.allowed
      then (none, l)
      else if c.passive_mode
      then (none, left)
      else (some (create_error_response 403 "Forbidden"), escalate "ip_blocked" access.reason left)

  abbrev pub overrides_ip_lists : Option Route → Bool
  overrides_ip_lists none = false
  overrides_ip_lists (some route) = not (is_empty route.ip_whitelist)

  -- `request.state.isWhitelisted` and `request.state.isExempt`
  unfoldable pub set_flags : Access → Bool → String → Trail → Trail
  unfolding is_ip_in_whitelist
  set_flags access overrides ip l = record l {
    is_whitelisted =
        access.allowed && not overrides && not (is_empty (set_list addresses c.whitelist));
    is_exempt =
        access.allowed
        && not overrides
        && not (is_empty c.exempt_ips)
        && is_true addresses (is_ip_in_whitelist addresses ip c.exempt_ips);
  }

  -- A response ends the check; without one it goes on.
  abbrev pub unless_answered :
      Option Response × Trail
      → (Trail → Option (Option Response) × Trail)
      → Option (Option Response) × Trail
  unless_answered (some r, l) go_on = (some (some r), l)
  unless_answered (none, l) go_on = go_on l

  abbrev pub ends : Option Response × Trail → Option (Option Response) × Trail
  ends (r, l) = (some r, l)

  -- `check` from the verdict on; none where the geo handler threw.
  unfoldable pub check_access :
      Option Route → String → Option Access → Trail → Option (Option Response) × Trail
  unfolding set_flags check_route_ip_restrictions check_global
  check_access route ip none l = (none, l)
  check_access route ip (some access) l =
      unless_answered
        (check_route_ip_restrictions route ip (set_flags access (overrides_ip_lists route) ip l))
        (λ (l' : Trail). ends (check_global access ip l'))

  unfoldable pub check_client : Option Route → String → Trail → Option (Option Response) × Trail
  unfolding check_banned_ip check_access check_ip_access_detail should_bypass_check
  check_client route ip l = unless_answered (check_banned_ip route ip l) (λ (l' : Trail).
      if should_bypass_check "ip" (bypassed_of route)
      then (some none, l')
      else check_access route ip
          (check_ip_access_detail addresses c geo ip (overrides_ip_lists route) false) l')

  -- `check`
  unfoldable pub check : Option Route → Option String → Trail → Option (Option Response) × Trail
  unfolding check_client
  check route none l = (some none, l)
  check route (some ip) l = if str_eq ip "" then (some none, l) else check_client route ip l
