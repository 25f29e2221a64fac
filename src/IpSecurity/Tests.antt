-- ===== src/IpSecurity/Tests.antt =====
-- Concrete runs of the address check, and the theorems at concrete inputs.
use guard_core_ts.Base.{
  Bool, Option, String, [], false, none, refl, some, str_eq, true, ℕ, ◌∷◌, ◌≡◌,
}
use guard_core_ts.IpAccess.{Addresses, has_slash}
use guard_core_ts.Response.{Response}
use guard_core_ts.Routing.{should_bypass_check}
use guard_core_ts.IpSecurity.Lists.{
  Config, Route, check_country_access, check_ip_access_detail, check_route_ip_access, in_some_entry,
  is_ip_in_blacklist, is_ip_in_whitelist, is_listed, resolve_country_verdict,
}
use guard_core_ts.IpSecurity.Check.{
  Trail, check_access, check_banned_ip, check_client, check_global, check_route_ip_restrictions,
  set_flags,
}

-- Addresses that are texts, and no networks.
abbrev addresses : Addresses String
addresses = record {
  parse = λ (ip : String). some ip;
  in_cidr = λ (parsed entry : String). none;
  is_loopback = λ (parsed : String). str_eq parsed "127.0.0.1";
}

abbrev config : Bool → Config
config passive = record {
  passive_mode = passive;
  whitelist = none;
  blacklist = "10.0.0.9" ∷ [];
  exempt_ips = "10.0.0.1" ∷ [];
  blocked_countries = [];
  whitelist_countries = [];
}

abbrev route : Route
route = record {
  ip_blacklist = "10.0.0.7" ∷ [];
  ip_whitelist = [];
  blocked_countries = [];
  whitelist_countries = [];
  bypassed_checks = [];
}

abbrev left_empty : Trail
left_empty = record {
  is_whitelisted = false;
  is_exempt = false;
  logs = [];
  events = [];
  escalations = [];
}

abbrev error_response : ℕ → String → Response
error_response status message = record { status_code = status; body_text = message; headers = [] }

abbrev bans : String → Bool
bans ip = str_eq ip "10.0.0.8"

abbrev runs : Bool → String → Option (Option Response) × Trail
runs passive ip =
    check_client addresses (config passive) none (some bans) error_response (some route) ip
      left_empty

banned_is_refused : (runs false "10.0.0.8").0 ≡ some (some (error_response 403 "IP address banned"))
unfolding check_client check_banned_ip should_bypass_check
banned_is_refused = refl

exempt_is_marked : (runs false "10.0.0.1").1.is_exempt ≡ true
unfolding check_client check_banned_ip should_bypass_check check_access set_flags
    check_route_ip_restrictions check_global check_ip_access_detail is_ip_in_whitelist in_some_entry
    is_listed resolve_country_verdict check_route_ip_access is_ip_in_blacklist check_country_access
    has_slash
exempt_is_marked = refl

lets_in : (runs false "10.0.0.2").0 ≡ some none
unfolding check_client check_banned_ip should_bypass_check check_access set_flags
    check_route_ip_restrictions check_global check_ip_access_detail is_ip_in_whitelist in_some_entry
    is_listed resolve_country_verdict check_route_ip_access is_ip_in_blacklist check_country_access
    has_slash
lets_in = refl
