-- ===== src/IpSecurity/Lists.antt =====
-- packages/core/src/core/checks/helpers.ts (`isIpInBlacklist`, `isIpInWhitelist`, `checkCountryAccess`,
-- `checkRouteIpAccess`) and the verdicts of core/checks/implementations/ip-security.ts. The address
-- package and the geo handler are parameters, as in IpAccess; none is a throw of `initialize`.
use guard_core_ts.Base.{
  Bool, List, Option, String, [], false, if◌then◌else◌, none, not, some, str_eq, true, ◌&&◌, ◌<>◌,
  ◌∷◌,
}
use mathlib.Core.Option
use guard_core_ts.Activity.{includes}
use guard_core_ts.IpAccess.{Addresses, GeoHandler, generic_list_block_reason, has_slash, is_empty}

-- The part of the configuration that the check reads.
pub record Config : Type 0 where
  pub passive_mode : Bool
  pub whitelist : Option (List String)
  pub blacklist : List String
  pub exempt_ips : List String
  pub blocked_countries : List String
  pub whitelist_countries : List String

-- The part of a route configuration that it reads; a missing list is an empty one.
pub record Route : Type 0 where
  pub ip_blacklist : List String
  pub ip_whitelist : List String
  pub blocked_countries : List String
  pub whitelist_countries : List String
  pub bypassed_checks : List String

pub record Access : Type 0 where
  pub allowed : Bool
  pub reason : String

module _ {P : Type 0} (addresses : Addresses P) where
  -- `parsed.match([addr, prefixLen])`, false where one of the two does not parse.
  abbrev pub in_network : Option P → String → Bool
  in_network none entry = false
  in_network (some parsed) entry = Option.get_or (addresses.in_cidr parsed entry) false

  -- Does an entry, an address or a network, hold the address?
  abbrev pub address_matches : String → String → Bool
  address_matches ip entry =
      if has_slash entry then in_network (addresses.parse ip) entry else str_eq ip entry

  -- `isIpInBlacklist`
  unfoldable pub is_ip_in_blacklist : String → List String → Bool
  is_ip_in_blacklist ip [] = false
  is_ip_in_blacklist ip (blocked ∷ entries) =
      if address_matches ip blocked then true else is_ip_in_blacklist ip entries

  -- The loop of `isIpInWhitelist`.
  unfoldable pub in_some_entry : String → List String → Bool
  in_some_entry ip [] = false
  in_some_entry ip (allowed ∷ entries) =
      if address_matches ip allowed then true else in_some_entry ip entries

  -- `isIpInWhitelist`; none for an empty list.
  unfoldable pub is_ip_in_whitelist : String → List String → Option Bool
  unfolding in_some_entry
  is_ip_in_whitelist ip [] = none
  is_ip_in_whitelist ip (allowed ∷ entries) = some (in_some_entry ip (allowed ∷ entries))

  -- `ipInList`: an address that does not parse is in every list.
  unfoldable pub is_listed : String → List String → Bool
  is_listed ip [] = elim (addresses.parse ip) [ none ↦ true | some parsed ↦ false ]
  is_listed ip (entry ∷ entries) =
      let rest = is_listed ip entries in
      elim (addresses.parse ip) [
        | none ↦ true
        | some parsed ↦ if address_matches ip entry then true else rest
      ]

  -- `Boolean(country)`
  abbrev pub country_name : Option String → Option String
  country_name none = none
  country_name (some country) = if str_eq country "" then none else some country

  abbrev pub in_countries : List String → Option String → Bool
  in_countries countries none = false
  in_countries countries (some country) = includes countries country

  -- `checkCountryAccess`
  unfoldable pub check_country_access : Option GeoHandler → Route → String → Option Bool
  check_country_access none route ip = none
  check_country_access (some geo) route ip =
      let country = country_name (geo.get_country ip) in
      if not (is_empty route.blocked_countries) && in_countries route.blocked_countries country
      then some false
      else if not (is_empty route.whitelist_countries)
      then some (in_countries route.whitelist_countries country)
      else none

  abbrev pub or_country : Option Bool → Option Bool → Option Bool
  or_country none country = country
  or_country (some verdict) country = some verdict

  -- `checkRouteIpAccess`
  unfoldable pub check_route_ip_access : Option GeoHandler → Route → String → Option Bool
  unfolding is_ip_in_blacklist is_ip_in_whitelist check_country_access
  check_route_ip_access geo route ip =
      if is_ip_in_blacklist ip route.ip_blacklist
      then some false
      else or_country (is_ip_in_whitelist ip route.ip_whitelist) (check_country_access geo route ip)

  -- An IPv4 loopback address, and one that does not parse, have no country verdict.
  abbrev pub skips_country : Option P → Bool
  skips_country none = true
  skips_country (some parsed) = addresses.is_loopback parsed

  -- The end of `resolveCountryVerdict`.
  unfoldable pub country_verdict : Config → Option String → Bool × Option String
  country_verdict c none = (not (is_empty c.whitelist_countries), none)
  country_verdict c (some country) =
      if not (is_empty c.whitelist_countries)
      then (not (includes c.whitelist_countries country), some country)
      else (includes c.blocked_countries country, some country)

  abbrev pub geo_verdict : Config → Option GeoHandler → String → Option (Bool × Option String)
  geo_verdict c none ip = some (false, none)
  geo_verdict c (some geo) ip =
      if not geo.is_initialized && not geo.initialize
      then none
      else some (country_verdict c (country_name (geo.get_country ip)))

  -- `resolveCountryVerdict`
  unfoldable pub resolve_country_verdict :
      Config → Option GeoHandler → String → Option (Bool × Option String)
  unfolding country_verdict
  resolve_country_verdict c geo ip =
      if is_empty c.blocked_countries && is_empty c.whitelist_countries
      then some (false, none)
      else if skips_country (addresses.parse ip)
      then some (false, none)
      else geo_verdict c geo ip

  abbrev pub allowed_access : Access
  allowed_access = record { allowed = true; reason = "" }

  abbrev pub refused_access : String → Access
  refused_access reason = record { allowed = false; reason = reason }

  abbrev country_block_reason : String → Option String → String
  country_block_reason ip none = generic_list_block_reason ip
  country_block_reason ip (some country) = "IP from blocked country: " <> country

  abbrev pub access_by_country : String → Option (Bool × Option String) → Option Access
  access_by_country ip none = none
  access_by_country ip (some (blocked, country)) =
      some (if blocked then refused_access (country_block_reason ip country) else allowed_access)

  -- The whitelist, where it is set and not empty.
  abbrev pub set_list : Option (List String) → List String
  set_list none = []
  set_list (some entries) = entries

  abbrev pub is_true : Option Bool → Bool
  is_true none = false
  is_true (some b) = b

  -- `checkIpAccessDetail`
  unfoldable pub check_ip_access_detail :
      Config → Option GeoHandler → String → Bool → Bool → Option Access
  unfolding is_ip_in_whitelist is_listed resolve_country_verdict
  check_ip_access_detail c geo ip skip_ip_lists skip_countries =
      let by_country = access_by_country ip (resolve_country_verdict c geo ip) in
      let after_lists = if skip_countries then some allowed_access else by_country in
      if skip_ip_lists
      then after_lists
      else if not (is_empty (set_list c.whitelist))
      then (if is_true (is_ip_in_whitelist ip (set_list c.whitelist))
          then some allowed_access
          else some (refused_access (generic_list_block_reason ip)))
      else if is_listed ip c.blacklist
      then some (refused_access (generic_list_block_reason ip))
      else after_lists
