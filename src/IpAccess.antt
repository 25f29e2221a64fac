-- ===== src/IpAccess.antt =====
-- packages/core/src/core/checks/ip-access.ts, with `checkIpCountry` and `isIpAllowed` of utils.ts: may an
-- address in. `none` is a throw. The address parser (ipaddr.js) and the geo and cloud handlers are
-- parameters.
pub mod Agreement
pub mod Policy
pub mod Tiers
pub mod Entry
pub mod Tests
use Prim.Native.Char.{code}
use guard_core_ts.Base.{
  ℕ, String, Bool, true, false, List, [], ◌∷◌, Option, none, some, if◌then◌else◌, str_eq, ◌<>◌,
  ◌==◌, not, ◌&&◌, ◌||◌,
}
use mathlib.Core.Option
use guard_core_ts.Activity.{includes}

pub record IpAccessResult : Type 0 where
  pub allowed : Bool
  pub reason : String
  pub cloud_provider : Option String
  pub network : Option String

-- `parse` and `match` of the address package on a parsed address `P`; `in_cidr` is none where the
-- entry does not parse, and false for a network of the other kind.
pub record Addresses (P : Type 0) : Type 0 where
  pub parse : String → Option P
  pub in_cidr : P → String → Option Bool
  pub is_loopback : P → Bool

-- The geo handler: it is initialized, or its initialization succeeds or throws.
pub record GeoHandler : Type 0 where
  pub is_initialized : Bool
  pub initialize : Bool
  pub get_country : String → Option String

pub record CloudHandler : Type 0 where
  pub is_cloud_ip : String → List String → Bool
  pub get_cloud_provider_details : String → List String → Option (String × String)

pub record AccessConfig : Type 0 where
  pub whitelist : List String
  pub blacklist : List String
  pub blocked_countries : List String
  pub whitelist_countries : List String
  pub block_cloud_providers : List String

abbrev pub allowed_result : IpAccessResult
allowed_result = record { allowed = true; reason = ""; cloud_provider = none; network = none }

abbrev pub blocked_result : String → IpAccessResult
blocked_result reason = record {
  allowed = false;
  reason = reason;
  cloud_provider = none;
  network = none;
}

abbrev pub generic_list_block_reason : String → String
generic_list_block_reason ip = "IP " <> ip <> " not in global allowlist/blocklist"

abbrev pub is_empty {ℓ} : {A : Type ℓ} → List A → Bool
is_empty [] = true
is_empty (x ∷ xs) = false

-- `entry.includes('/')`
unfoldable pub has_slash : String → Bool
has_slash String.[] = false
has_slash (String.◌∷◌ c s) = if code c == b'/' then true else has_slash s

-- The answer of a network test, or else the rest of the list.
abbrev pub or_rest : Option Bool → Option Bool → Option Bool
or_rest none rest = none
or_rest (some true) rest = some true
or_rest (some false) rest = rest

module _ {P : Type 0} (addresses : Addresses P) (c : AccessConfig) where
  -- `ipInList`
  unfoldable pub ip_in_list : P → String → List String → Option Bool
  ip_in_list parsed ip [] = some false
  ip_in_list parsed ip (entry ∷ entries) =
      let rest = ip_in_list parsed ip entries in
      if has_slash entry
      then or_rest (addresses.in_cidr parsed entry) rest
      else if str_eq ip entry
      then some true
      else rest

  -- An IPv4 loopback address has no country; one that does not parse has the geo verdict.
  abbrev pub loopback : Option P → Bool
  loopback none = false
  loopback (some parsed) = addresses.is_loopback parsed

  -- The verdict on a country, where there is one.
  unfoldable pub country_blocked : Option String → Bool
  country_blocked none = false
  country_blocked (some country) =
      if str_eq country ""
      then false
      else if not (is_empty c.whitelist_countries)
      then not (includes c.whitelist_countries country)
      else includes c.blocked_countries country

  -- `checkIpCountry`
  unfoldable pub check_ip_country : GeoHandler → String → Option Bool
  check_ip_country geo ip =
      if is_empty c.blocked_countries && is_empty c.whitelist_countries
      then some false
      else if loopback (addresses.parse ip)
      then some false
      else if not geo.is_initialized && not geo.initialize
      then none
      else some (country_blocked (geo.get_country ip))

  -- `checkCloudProvidersDetail`
  unfoldable pub check_cloud_providers_detail : Option CloudHandler → String → Option IpAccessResult
  check_cloud_providers_detail none ip = none
  check_cloud_providers_detail (some cloud) ip =
      if is_empty c.block_cloud_providers || not (cloud.is_cloud_ip ip c.block_cloud_providers)
      then none
      else elim (cloud.get_cloud_provider_details ip c.block_cloud_providers) [
        | none ↦ some (blocked_result (generic_list_block_reason ip))
        | some (provider, network) ↦ some (record {
          allowed = false;
          reason = "IP belongs to blocked cloud provider: " <> provider;
          cloud_provider = some provider;
          network = some network;
        })
      ]

  -- `checkUnknownIdentityAccess`
  unfoldable pub check_unknown_identity_access : String → Bool → Bool → Option IpAccessResult
  check_unknown_identity_access ip skip_ip_lists skip_countries =
      if not (str_eq ip "unknown")
      then none
      else if (not skip_ip_lists && not (is_empty c.whitelist))
          || (not skip_countries && not (is_empty c.whitelist_countries))
      then some (blocked_result (generic_list_block_reason ip))
      else some allowed_result

  -- The verdict of the lists: a block, or whether the country verdict is skipped.
  unfoldable pub list_verdict : P → String → Bool → Bool → Option (Option Bool)
  list_verdict parsed ip skip_ip_lists skip_countries =
      if skip_ip_lists
      then some (some skip_countries)
      else if not (is_empty c.whitelist)
      then Option.map (λ found. if found then some true else none)
          (ip_in_list parsed ip c.whitelist)
      else Option.map (λ found. if found then none else some skip_countries)
          (ip_in_list parsed ip c.blacklist)

  -- The country tier of `checkIpAccess`: whether it blocks.
  unfoldable pub country_tier : Option GeoHandler → String → Bool → Option Bool
  country_tier geo ip true = some false
  country_tier none ip false = some false
  country_tier (some geo) ip false =
      if is_empty c.blocked_countries && is_empty c.whitelist_countries
      then some false
      else check_ip_country geo ip

  abbrev pub country_reason : Option GeoHandler → String → String
  country_reason none ip = generic_list_block_reason ip
  country_reason (some geo) ip = elim (geo.get_country ip) [
    | none ↦ generic_list_block_reason ip
    | some country ↦
        if str_eq country ""
        then generic_list_block_reason ip
        else "IP from blocked country: " <> country
  ]

  -- What follows the country tier; a throw is the generic block.
  unfoldable pub after_country :
      Option GeoHandler → Option CloudHandler → String → Option Bool → IpAccessResult
  after_country geo cloud ip none = blocked_result (generic_list_block_reason ip)
  after_country geo cloud ip (some true) = blocked_result (country_reason geo ip)
  after_country geo cloud ip (some false) =
      Option.get_or (check_cloud_providers_detail cloud ip) allowed_result

  unfoldable pub after_lists :
      Option GeoHandler → Option CloudHandler → String → Option (Option Bool) → IpAccessResult
  after_lists geo cloud ip none = blocked_result (generic_list_block_reason ip)
  after_lists geo cloud ip (some none) = blocked_result (generic_list_block_reason ip)
  after_lists geo cloud ip (some (some skip)) =
      after_country geo cloud ip (country_tier geo ip skip)

  -- The body of the `try` of `checkIpAccess`.
  unfoldable pub parsed_access :
      Option GeoHandler → Option CloudHandler → String → Bool → Bool → Option P → IpAccessResult
  parsed_access geo cloud ip skip_ip_lists skip_countries none =
      blocked_result (generic_list_block_reason ip)
  parsed_access geo cloud ip skip_ip_lists skip_countries (some parsed) =
      after_lists geo cloud ip (list_verdict parsed ip skip_ip_lists skip_countries)

  -- `checkIpAccess`
  unfoldable pub check_ip_access :
      Option GeoHandler → Option CloudHandler → String → Bool → Bool → IpAccessResult
  check_ip_access geo cloud ip skip_ip_lists skip_countries =
      Option.get_or (check_unknown_identity_access ip skip_ip_lists skip_countries)
        (parsed_access geo cloud ip skip_ip_lists skip_countries (addresses.parse ip))

  -- The tests of `isIpAllowed`, in its order, on what they find; none is a throw.
  unfoldable pub allowed_by : Option GeoHandler → String → Option Bool → Option Bool → Bool
  allowed_by geo ip none listed = false
  allowed_by geo ip (some true) listed = false
  allowed_by geo ip (some false) none = false
  allowed_by geo ip (some false) (some found) =
      if not (is_empty c.whitelist) && not found then false else elim geo [
        | none ↦ true
        | some handler ↦ not (Option.get_or (check_ip_country handler ip) true)
      ]

  unfoldable pub parsed_allowed : Option GeoHandler → String → Option P → Bool
  parsed_allowed geo ip none = false
  parsed_allowed geo ip (some parsed) =
      allowed_by geo ip (ip_in_list parsed ip c.blacklist) (ip_in_list parsed ip c.whitelist)

  -- `isIpAllowed`
  unfoldable pub is_ip_allowed : Option GeoHandler → String → Bool
  is_ip_allowed geo ip = parsed_allowed geo ip (addresses.parse ip)
