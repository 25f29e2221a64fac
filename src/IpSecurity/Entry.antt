-- ===== src/IpSecurity/Entry.antt =====
-- packages/core/src/core/checks/implementations/ip-security.ts: exactly which addresses the check lets in.
use guard_core_ts.Base.{
  Bool, List, Option, String, false, if◌then◌else◌, none, not, some, true, ℕ, ◌≡◌, ◌⊎◌,
}
use guard_core_ts.Response.{Response}
use guard_core_ts.Routing.{should_bypass_check}
use guard_core_ts.IpAccess.{Addresses, GeoHandler, generic_list_block_reason, is_empty}
use guard_core_ts.IpSecurity.Lists.{
  Access, Config, Route, access_by_country, allowed_access, is_ip_in_whitelist, is_listed, is_true,
  refused_access, resolve_country_verdict,
}
use guard_core_ts.IpSecurity.Policy.{ConfigCountryAdmits, ConfigPolicy, IsListed, RoutePolicy}
use guard_core_ts.IpSecurity.Check.{bypassed_of, overrides_ip_lists}
use guard_core_ts.IpSecurity.Verdicts.{Allows}

module _ {P : Type 0} (addresses : Addresses P) (c : Config) (geo : Option GeoHandler)
    (is_ip_banned : Option (String → Bool)) (create_error_response : ℕ → String → Response) where
  abbrev by_country : String → Option Access
  by_country ip = access_by_country addresses ip (resolve_country_verdict addresses c geo ip)

  abbrev refused : String → Option Access
  refused ip = some (refused_access addresses (generic_list_block_reason ip))

  -- The list tests of `checkIpAccessDetail` under a given allowlist.
  abbrev list_tests : List String → String → Option Access
  list_tests entries ip =
      if not (is_empty entries)
      then (if is_true addresses (is_ip_in_whitelist addresses ip entries)
          then some (allowed_access addresses)
          else refused ip)
      else if is_listed addresses ip c.blacklist
      then refused ip
      else by_country ip

  abbrev Passes : Option Access → Type 0
  Passes access = Allows addresses c geo is_ip_banned create_error_response access

  abbrev Unlisted : String → Type 0
  Unlisted ip =
      ((parsed : P) × (addresses.parse ip ≡ some parsed))
      × (¬ IsListed addresses ip c.blacklist)
      × ConfigCountryAdmits addresses c geo ip

  abbrev pub NoBan : Option (String → Bool) → String → Type 0
  NoBan none ip = Unit
  NoBan (some banned) ip = banned ip ≡ false

  -- The route leaves the check of that name out.
  abbrev pub Bypasses : String → Option Route → Type 0
  Bypasses name route =
      should_bypass_check name
        (bypassed_of addresses c geo is_ip_banned create_error_response route)
      ≡ true

  -- What lets an address in.
  abbrev pub EntryPolicy : Option Route → String → Type 0
  EntryPolicy route ip =
      (Bypasses "ip_ban" route ⊎ NoBan is_ip_banned ip)
      × (Bypasses "ip" route
          ⊎ (ConfigPolicy addresses c geo
                (overrides_ip_lists addresses c geo is_ip_banned create_error_response route) ip
              × RoutePolicy addresses geo route ip))
