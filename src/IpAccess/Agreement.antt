-- ===== src/IpAccess/Agreement.antt =====
-- The two verdicts on an address, `checkIpAccess` and `isIpAllowed`: where they agree and where they do not
-- (core/checks/ip-access.ts, utils.ts).
use guard_core_ts.Base.{
  ◌≡◌, refl, sym, ◌∙◌, ap, String, Bool, true, false, List, [], ◌∷◌, Option, none, some,
  if◌then◌else◌, str_eq, arith,
}
use mathlib.Core.Option
use guard_core_ts.IpAccess.{
  Addresses, AccessConfig, GeoHandler, ip_in_list, is_empty, check_ip_access, is_ip_allowed,
  check_unknown_identity_access, list_verdict, country_tier, after_country, after_lists,
  parsed_access, allowed_by, check_ip_country, check_cloud_providers_detail, parsed_allowed,
}

module _ {P : Type 0} (addresses : Addresses P) (c : AccessConfig) where
  unknown_none :
      (ip : String)
      → str_eq ip "unknown" ≡ false
      → check_unknown_identity_access addresses c ip false false ≡ none
  unfolding check_unknown_identity_access
  unknown_none ip h = ground (arith, h)

  known :
      (geo : Option GeoHandler) (ip : String)
      → str_eq ip "unknown" ≡ false
      → check_ip_access addresses c geo none ip false false
        ≡ parsed_access addresses c geo none ip false false (addresses.parse ip)
  unfolding check_ip_access
  known geo ip h =
      ap
        (λ o.
          Option.get_or o (parsed_access addresses c geo none ip false false (addresses.parse ip)))
        (unknown_none ip h)

  not-IsListed :
      (parsed : P) (ip : String) (entries : List String)
      → is_empty entries ≡ true
      → ip_in_list addresses c parsed ip entries ≡ some false
  unfolding ip_in_list
  not-IsListed parsed ip [] h = refl
  not-IsListed parsed ip (e ∷ entries) h = cc

  -- The verdict of the lists without an allowlist.
  blacklist_verdict :
      (parsed : P) (ip : String)
      → is_empty c.whitelist ≡ true
      → list_verdict addresses c parsed ip false false
        ≡ Option.map
            (λ found. if found then none else some false)
            (ip_in_list addresses c parsed ip c.blacklist)
  unfolding list_verdict
  blacklist_verdict parsed ip h = rw h refl

  country_agrees :
      (geo : Option GeoHandler) (ip : String) (listed : Option Bool)
      → is_empty c.whitelist ≡ true
      → (after_lists addresses c geo none ip
          (Option.map (λ found. if found then none else some false) listed)).allowed
        ≡ allowed_by addresses c geo ip listed (some false)
  unfolding after_lists after_country country_tier allowed_by check_cloud_providers_detail
      check_ip_country
  country_agrees geo ip none h = refl
  country_agrees geo ip (some true) h = refl
  country_agrees none ip (some false) h = rw h refl
  country_agrees (some handler) ip (some false) h = rw h (ground arith)

  parsed_agrees :
      (geo : Option GeoHandler) (ip : String) (o : Option P)
      → is_empty c.whitelist ≡ true
      → (parsed_access addresses c geo none ip false false o).allowed
        ≡ parsed_allowed addresses c geo ip o
  unfolding parsed_access parsed_allowed
  parsed_agrees geo ip none h = refl
  parsed_agrees geo ip (some parsed) h =
      ap (λ v. (after_lists addresses c geo none ip v).allowed) (blacklist_verdict parsed ip h)
      ∙ country_agrees geo ip (ip_in_list addresses c parsed ip c.blacklist) h
      ∙ ap (allowed_by addresses c geo ip (ip_in_list addresses c parsed ip c.blacklist))
          (sym (not-IsListed parsed ip c.whitelist h))

  -- Without an allowlist and without a cloud handler, on a known address, `checkIpAccess` and
  -- `isIpAllowed` give the same verdict.
  pub access-allowed :
      (geo : Option GeoHandler) (ip : String)
      → is_empty c.whitelist ≡ true
      → str_eq ip "unknown" ≡ false
      → (check_ip_access addresses c geo none ip false false).allowed
        ≡ is_ip_allowed addresses c geo ip
  unfolding is_ip_allowed
  access-allowed geo ip no_list h =
      ap (λ r. r.allowed) (known geo ip h) ∙ parsed_agrees geo ip (addresses.parse ip) no_list

  listed_verdict :
      (parsed : P) (ip : String)
      → is_empty c.whitelist ≡ false
      → ip_in_list addresses c parsed ip c.whitelist ≡ some true
      → list_verdict addresses c parsed ip false false ≡ some (some true)
  unfolding list_verdict
  listed_verdict parsed ip w a = rw (w, a) refl

  let_in : (ip : String) → (after_lists addresses c none none ip (some (some true))).allowed ≡ true
  unfolding after_lists after_country country_tier check_cloud_providers_detail
  let_in ip = refl

  -- An address on both lists, without a geo handler: the detailed verdict does not read the block
  -- list where there is an allowlist, and lets it in; the other one blocks it.
  pub access-differs :
      (ip : String) (parsed : P)
      → str_eq ip "unknown" ≡ false
      → addresses.parse ip ≡ some parsed
      → is_empty c.whitelist ≡ false
      → ip_in_list addresses c parsed ip c.whitelist ≡ some true
      → ip_in_list addresses c parsed ip c.blacklist ≡ some true
      → ((check_ip_access addresses c none none ip false false).allowed ≡ true)
        × (is_ip_allowed addresses c none ip ≡ false)
  unfolding parsed_access is_ip_allowed parsed_allowed allowed_by
  access-differs ip parsed h p w a b = (
    ap (λ r. r.allowed) (known none ip h)
        ∙ ap (λ o. (parsed_access addresses c none none ip false false o).allowed) p
        ∙ ap (λ v. (after_lists addresses c none none ip v).allowed) (listed_verdict parsed ip w a)
        ∙ let_in ip,
    ap (parsed_allowed addresses c none ip) p
        ∙ ap (λ o. allowed_by addresses c none ip o (ip_in_list addresses c parsed ip c.whitelist))
            b,
  )
