-- ===== src/IpAccess/Tests.antt =====
-- Runs of core/checks/ip-access.ts and `isIpAllowed`, and the theorems about them at concrete inputs.
use guard_core_ts.Base.{
  ◌≡◌, ◌↔◌, refl, String, true, false, List, [], ◌∷◌, none, some, if◌then◌else◌, str_eq,
}
use guard_core_ts.IpAccess.{
  Addresses, AccessConfig, GeoHandler, check_ip_access, is_ip_allowed, ip_in_list, has_slash,
  check_unknown_identity_access, parsed_access, list_verdict, after_lists, after_country,
  country_tier, check_ip_country, country_blocked, blocked_result, parsed_allowed, allowed_by,
}
use guard_core_ts.IpAccess.Policy.{AccessPolicy}
use guard_core_ts.IpAccess.Entry.{check_ip_access-AccessPolicy}
use guard_core_ts.IpAccess.Agreement.{access-allowed}

-- Every text is an address but "bad"; "10.0.0.0/8" holds "10.0.0.1" alone, and no other network parses.
abbrev addresses : Addresses String
addresses = record {
  parse = λ s. if str_eq s "bad" then none else some s;
  in_cidr = λ p entry. if str_eq entry "10.0.0.0/8" then some (str_eq p "10.0.0.1") else none;
  is_loopback = λ p. str_eq p "127.0.0.1";
}

abbrev lists : List String → List String → AccessConfig
lists allow block = record {
  whitelist = allow;
  blacklist = block;
  blocked_countries = "XX" ∷ [];
  whitelist_countries = [];
  block_cloud_providers = [];
}

abbrev geo : GeoHandler
geo = record { is_initialized = true; initialize = true; get_country = λ ip. some "XX" }

country_block :
    check_ip_access addresses (lists [] []) (some geo) none "10.0.0.2" false false
    ≡ blocked_result "IP from blocked country: XX"
unfolding check_ip_access check_unknown_identity_access parsed_access list_verdict ip_in_list
    after_lists after_country country_tier check_ip_country country_blocked
country_block = refl

malformed_entry_blocks :
    is_ip_allowed addresses (lists [] ("10.0.0.0/99" ∷ [])) none "10.0.0.2" ≡ false
unfolding is_ip_allowed parsed_allowed allowed_by ip_in_list has_slash
malformed_entry_blocks = refl

access-allowed_example :
    (check_ip_access addresses
      (lists [] ("10.0.0.0/8" ∷ []))
      (some geo)
      none
      "10.0.0.1"
      false
      false).allowed
    ≡ is_ip_allowed addresses (lists [] ("10.0.0.0/8" ∷ [])) (some geo) "10.0.0.1"
access-allowed_example =
    access-allowed addresses (lists [] ("10.0.0.0/8" ∷ [])) (some geo) "10.0.0.1" refl refl

check_ip_access-AccessPolicy_example :
    ((check_ip_access addresses
        (lists [] ("10.0.0.0/8" ∷ []))
        (some geo)
        none
        "10.0.0.1"
        false
        true).allowed
      ≡ true)
    ↔ AccessPolicy addresses (lists [] ("10.0.0.0/8" ∷ [])) (some geo) none "10.0.0.1" false true
check_ip_access-AccessPolicy_example =
    check_ip_access-AccessPolicy addresses (lists [] ("10.0.0.0/8" ∷ [])) (some geo) none "10.0.0.1"
      false true
