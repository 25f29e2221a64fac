-- ===== src/IpSecurity/Admission.antt =====
-- packages/core/src/core/checks/implementations/ip-security.ts: whom the check lets in.
use guard_core_ts.Base.{
  Bool, Option, String, arith, false, if_both, if_cases, inl, inr, none, not, refl, some, true, ℕ,
  ◌||◌, ◌≡◌, ◌⊎◌,
}
use guard_core_ts.IpAccess.{Addresses, GeoHandler}
use guard_core_ts.Response.{Response}
use guard_core_ts.Routing.{should_bypass_check}
use guard_core_ts.IpSecurity.Lists.{
  Access, Config, Route, check_ip_access_detail, check_route_ip_access,
}
use guard_core_ts.IpSecurity.Check.{
  Trail, bypassed_of, check_access, check_banned_ip, check_client, check_global,
  check_route_ip_restrictions, ends, is_banned, is_denial, overrides_ip_lists, set_flags,
  unless_answered,
}

module _ {P : Type 0} (addresses : Addresses P) (c : Config) (geo : Option GeoHandler)
    (is_ip_banned : Option (String → Bool)) (create_error_response : ℕ → String → Response) where
  unless_answered-passes :
      (p : Option Response × Trail) (go_on : Trail → Option (Option Response) × Trail)
      → (unless_answered addresses c geo is_ip_banned create_error_response p go_on).0 ≡ some none
      → (p.0 ≡ none) × ((go_on p.1).0 ≡ some none)
  unless_answered-passes (some r, l) go_on h = ground arith
  unless_answered-passes (none, l) go_on h = (refl, h)

  -- The test of the ban, as `checkBannedIp` makes it.
  abbrev pub IsNotBanned : Option Route → String → Type 0
  IsNotBanned route ip =
      (should_bypass_check "ip_ban"
          (bypassed_of addresses c geo is_ip_banned create_error_response route)
        || not (is_banned addresses c geo is_ip_banned create_error_response is_ip_banned ip))
      ≡ true

  check_banned_ip-passes :
      (route : Option Route) (ip : String) (l : Trail)
      → c.passive_mode ≡ false
      → (check_banned_ip addresses c geo is_ip_banned create_error_response route ip l).0 ≡ none
      → IsNotBanned route ip
  unfolding check_banned_ip
  check_banned_ip-passes route ip l active h = ground (arith, active, h)

  -- No list or country of the route denies the address.
  abbrev pub RouteAdmits : Option Route → String → Type 0
  RouteAdmits none ip = Unit
  RouteAdmits (some route) ip =
      is_denial addresses c geo is_ip_banned create_error_response
        (check_route_ip_access addresses geo route ip)
      ≡ false

  check_route-passes :
      (route : Option Route) (ip : String) (l : Trail)
      → c.passive_mode ≡ false
      → (check_route_ip_restrictions addresses c geo is_ip_banned create_error_response route ip
          l).0
        ≡ none
      → RouteAdmits route ip
  unfolding check_route_ip_restrictions
  check_route-passes none ip l active h = tt
  check_route-passes (some route) ip l active h = ground (arith, active, h)

  check_global-passes :
      (access : Access) (ip : String) (l : Trail)
      → c.passive_mode ≡ false
      → (check_global addresses c geo is_ip_banned create_error_response access ip l).0 ≡ none
      → access.allowed ≡ true
  unfolding check_global
  check_global-passes access ip l active h = ground (arith, active, h)

  -- The lists and countries of the configuration allow the address.
  abbrev pub IsAllowed : Option Access → Type 0
  IsAllowed none = ⊥
  IsAllowed (some access) = access.allowed ≡ true

  ends-passes :
      (p : Option Response × Trail)
      → (ends addresses c geo is_ip_banned create_error_response p).0 ≡ some none
      → p.0 ≡ none
  ends-passes (some r, l) h = ground arith
  ends-passes (none, l) h = refl

  check_access-Passes :
      (route : Option Route) (ip : String) (access : Option Access) (l : Trail)
      → c.passive_mode ≡ false
      → (check_access addresses c geo is_ip_banned create_error_response route ip access l).0
        ≡ some none
      → IsAllowed access × RouteAdmits route ip
  unfolding check_access
  check_access-Passes route ip none l active h = ground arith
  check_access-Passes route ip (some access) l active h =
      let flagged : Trail =
        set_flags addresses c geo is_ip_banned create_error_response access
          (overrides_ip_lists addresses c geo is_ip_banned create_error_response route) ip l in
      let by_route : Option Response × Trail =
        check_route_ip_restrictions addresses c geo is_ip_banned create_error_response route ip
          flagged in
      let by_config : Option Response × Trail =
        check_global addresses c geo is_ip_banned create_error_response access ip by_route.1 in
      let (first, rest) = unless_answered-passes by_route _ h in
      (
        check_global-passes access ip by_route.1 active (ends-passes by_config rest),
        check_route-passes route ip flagged active first,
      )

  -- Outside passive mode a client address comes through the check only if it is not banned, or the
  -- route bypasses the ban check; and if the route bypasses the address check, or the lists and
  -- countries of the configuration allow the address and those of the route do not deny it.
  pub check_client-admits :
      (route : Option Route) (ip : String) (l : Trail)
      → c.passive_mode ≡ false
      → (check_client addresses c geo is_ip_banned create_error_response route ip l).0 ≡ some none
      → IsNotBanned route ip
        × ((should_bypass_check "ip"
                (bypassed_of addresses c geo is_ip_banned create_error_response route)
              ≡ true)
            ⊎ (IsAllowed (
                  check_ip_access_detail addresses c geo ip
                    (overrides_ip_lists addresses c geo is_ip_banned create_error_response route)
                    false)
                × RouteAdmits route ip))
  unfolding check_client
  check_client-admits route ip l active h =
      let by_ban : Option Response × Trail =
        check_banned_ip addresses c geo is_ip_banned create_error_response route ip l in
      let (first, rest) = unless_answered-passes by_ban _ h in
      let access : Option Access =
        check_ip_access_detail addresses c geo ip
          (overrides_ip_lists addresses c geo is_ip_banned create_error_response route) false in
      let bypassed : Bool =
        should_bypass_check "ip"
          (bypassed_of addresses c geo is_ip_banned create_error_response route) in
      let not_banned = check_banned_ip-passes route ip l active first in
      (
        not_banned,
        if_cases
            (λ (p : Option (Option Response) × Trail).
              p.0 ≡ some none → (bypassed ≡ true) ⊎ (IsAllowed access × RouteAdmits route ip))
            bypassed (λ e passes. inl e)
            (λ e passes. inr (check_access-Passes route ip access by_ban.1 active passes)) rest,
      )

  -- In passive mode the check answers no request.
  abbrev NoResponse : Option Response → Type 0
  NoResponse none = Unit
  NoResponse (some r) = ⊥

  abbrev NoAnswer : Option (Option Response) → Type 0
  NoAnswer none = Unit
  NoAnswer (some answer) = NoResponse answer

  unless_answered-NoAnswer :
      (p : Option Response × Trail) (go_on : Trail → Option (Option Response) × Trail)
      → NoResponse p.0
      → ((l : Trail) → NoAnswer (go_on l).0)
      → NoAnswer (unless_answered addresses c geo is_ip_banned create_error_response p go_on).0
  unless_answered-NoAnswer (some r, l) go_on h k = absurd h
  unless_answered-NoAnswer (none, l) go_on h k = k l

  check_banned_ip-Quiet :
      (route : Option Route) (ip : String) (l : Trail)
      → c.passive_mode ≡ true
      → NoResponse (check_banned_ip addresses c geo is_ip_banned create_error_response route ip l).0
  unfolding check_banned_ip
  check_banned_ip-Quiet route ip l passive = ground (arith, passive)

  check_route-Quiet :
      (route : Option Route) (ip : String) (l : Trail)
      → c.passive_mode ≡ true
      → NoResponse
          (check_route_ip_restrictions addresses c geo is_ip_banned create_error_response route ip
            l).0
  unfolding check_route_ip_restrictions
  check_route-Quiet none ip l passive = tt
  check_route-Quiet (some route) ip l passive = ground (arith, passive)

  check_global-Quiet :
      (access : Access) (ip : String) (l : Trail)
      → c.passive_mode ≡ true
      → NoResponse (check_global addresses c geo is_ip_banned create_error_response access ip l).0
  unfolding check_global
  check_global-Quiet access ip l passive = ground (arith, passive)

  ends-NoAnswer :
      (p : Option Response × Trail)
      → NoResponse p.0
      → NoAnswer (ends addresses c geo is_ip_banned create_error_response p).0
  ends-NoAnswer p h = h

  check_access-NoAnswer :
      (route : Option Route) (ip : String) (access : Option Access) (l : Trail)
      → c.passive_mode ≡ true
      → NoAnswer
          (check_access addresses c geo is_ip_banned create_error_response route ip access l).0
  unfolding check_access
  check_access-NoAnswer route ip none l passive = tt
  check_access-NoAnswer route ip (some access) l passive =
      let flagged : Trail =
        set_flags addresses c geo is_ip_banned create_error_response access
          (overrides_ip_lists addresses c geo is_ip_banned create_error_response route) ip l in
      unless_answered-NoAnswer
        (check_route_ip_restrictions addresses c geo is_ip_banned create_error_response route ip
          flagged)
        _ (check_route-Quiet route ip flagged passive)
        (λ l'. check_global-Quiet access ip l' passive)

  -- In passive mode the check answers no request, whoever it comes from.
  check_client-NoAnswer :
      (route : Option Route) (ip : String) (l : Trail)
      → c.passive_mode ≡ true
      → NoAnswer (check_client addresses c geo is_ip_banned create_error_response route ip l).0
  unfolding check_client
  check_client-NoAnswer route ip l passive =
      unless_answered-NoAnswer
        (check_banned_ip addresses c geo is_ip_banned create_error_response route ip l) _
        (check_banned_ip-Quiet route ip l passive)
        (λ l'.
          if_both (λ (p : Option (Option Response) × Trail). NoAnswer p.0)
            (should_bypass_check "ip"
              (bypassed_of addresses c geo is_ip_banned create_error_response route))
            tt (check_access-NoAnswer route ip _ l' passive))
