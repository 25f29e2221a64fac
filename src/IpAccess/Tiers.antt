-- ===== src/IpAccess/Tiers.antt =====
-- packages/core/src/core/checks/ip-access.ts: the country and cloud verdicts are those of the policy.
use guard_core_ts.Base.{
  Bool, Bool-cases, Option, String, ap, arith, eq_iff, false, inl, inr, none, not, refl, some,
  str_eq, sym, true, ◌&&◌, ◌<>◌, ◌||◌, ◌↔◌, ◌∙◌, ◌≡◌,
}
use mathlib.Core.Option
use guard_core_ts.IpAccess.{
  AccessConfig, Addresses, CloudHandler, GeoHandler, IpAccessResult, after_country, after_lists,
  allowed_result, blocked_result, check_cloud_providers_detail, check_ip_country, country_blocked,
  country_tier, generic_list_block_reason, is_empty,
}
use guard_core_ts.IpAccess.Policy.{CloudAdmits, CountryAdmits, CountryTier, GeoAdmits}

module _ {P : Type 0} (addresses : Addresses P) (c : AccessConfig) where
  country_blocked-Admits :
      (country : Option String)
      → (country_blocked addresses c country ≡ false) ↔ CountryAdmits addresses c country
  unfolding country_blocked
  country_blocked-Admits none = (λ h. tt, λ h. refl)
  country_blocked-Admits (some x) =
      let (to, of) = eq_iff x "" in
      elim (Bool-cases (str_eq x "")) [
        | inl empty ↦ (λ h. inl (to empty), λ h. ground (arith, empty))
        | inr named ↦ (
          λ h. inr (ground (arith, h, named)),
          λ h. elim h [ inl e ↦ ground (arith, of e, named) | inr a ↦ ground (arith, a, named) ],
        )
      ]

  abbrev unasked : Bool
  unasked = is_empty c.blocked_countries && is_empty c.whitelist_countries

  check_ip_country-Admits :
      (geo : GeoHandler) (ip : String) (parsed : P)
      → addresses.parse ip ≡ some parsed
      → (check_ip_country addresses c geo ip ≡ some false)
        ↔ GeoAdmits addresses c (some geo) ip parsed
  unfolding check_ip_country
  check_ip_country-Admits geo ip parsed e =
      let (to, of) = country_blocked-Admits (geo.get_country ip) in
      elim (Bool-cases unasked) [
        | inl none_asked ↦ rw none_asked (λ h. inl refl, λ h. refl)
        | inr asked ↦ elim (Bool-cases (addresses.is_loopback parsed)) [
          | inl local ↦ rw (asked, e, local) (λ h. inr (inl refl), λ h. refl)
          | inr remote ↦ elim (Bool-cases (geo.is_initialized || geo.initialize)) [
            | inl ready ↦
                let runs : (not geo.is_initialized && not geo.initialize) ≡ false =
                  ground (arith, ready) in
                rw (asked, e, remote, runs)
                  (
                    λ h. inr (inr (ready, to (ground (arith, h)))),
                    λ h. elim h [
                      | inl u ↦ ground (arith, u)
                      | inr (inl l) ↦ ground (arith, l)
                      | inr (inr (r, a)) ↦ ap some (of a)
                    ],
                  )
            | inr not_ready ↦
                let throws : (not geo.is_initialized && not geo.initialize) ≡ true =
                  ground (arith, not_ready) in
                rw (asked, e, remote, throws)
                  (
                    λ h. ground (arith, h),
                    λ h. elim h [
                      | inl u ↦ ground (arith, u)
                      | inr (inl l) ↦ ground (arith, l)
                      | inr (inr (r, a)) ↦ ground (arith, r, not_ready)
                    ],
                  )
          ]
        ]
      ]

  country_tier-Tier :
      (geo : Option GeoHandler) (ip : String) (skip : Bool) (parsed : P)
      → addresses.parse ip ≡ some parsed
      → (country_tier addresses c geo ip skip ≡ some false)
        ↔ CountryTier addresses c geo ip skip parsed
  unfolding country_tier
  country_tier-Tier geo ip true parsed e = (λ h. tt, λ h. refl)
  country_tier-Tier none ip false parsed e = (λ h. tt, λ h. refl)
  country_tier-Tier (some geo) ip false parsed e =
      let (to, of) = check_ip_country-Admits geo ip parsed e in
      elim (Bool-cases unasked) [
        | inl none_asked ↦ rw none_asked (λ h. inl refl, λ h. refl)
        | inr asked ↦
            let same : country_tier addresses c (some geo) ip false
                ≡ check_ip_country addresses c geo ip =
              ground (arith, asked) in
            (λ h. to (sym same ∙ h), λ h. same ∙ of h)
      ]

  -- Does the answer let the address in?
  abbrev pub Admits : IpAccessResult → Type 0
  Admits answer = answer.allowed ≡ true

  cloud_block :
      (ip : String) (details : Option (String × String))
      → (Option.get_or
          (elim details [
            | none ↦ some (blocked_result (generic_list_block_reason ip))
            | some (provider, network) ↦ some (record {
              allowed = false;
              reason = "IP belongs to blocked cloud provider: " <> provider;
              cloud_provider = some provider;
              network = some network;
            })
          ])
          allowed_result).allowed
        ≡ false
  cloud_block ip none = refl
  cloud_block ip (some (provider, network)) = refl

  cloud-Admits :
      (cloud : Option CloudHandler) (ip : String)
      → Admits (Option.get_or (check_cloud_providers_detail addresses c cloud ip) allowed_result)
        ↔ CloudAdmits addresses c cloud ip
  unfolding check_cloud_providers_detail
  cloud-Admits none ip = (λ h. tt, λ h. refl)
  cloud-Admits (some cloud) ip =
      let free : Bool =
        is_empty c.block_cloud_providers || not (cloud.is_cloud_ip ip c.block_cloud_providers) in
      elim (Bool-cases free) [
        | inl yes_free ↦ rw yes_free (λ h. refl, λ h. refl)
        | inr not_free ↦
            let blocked =
              cloud_block ip (cloud.get_cloud_provider_details ip c.block_cloud_providers) in
            rw not_free (λ h. ground (arith, h, blocked), λ h. ground (arith, h))
      ]

  after_country-Admits :
      (geo : Option GeoHandler) (cloud : Option CloudHandler) (ip : String) (verdict : Option Bool)
      → Admits (after_country addresses c geo cloud ip verdict)
        ↔ ((verdict ≡ some false) × CloudAdmits addresses c cloud ip)
  unfolding after_country
  after_country-Admits geo cloud ip none = (λ h. ground (arith, h), λ (e, a). ground (arith, e))
  after_country-Admits geo cloud ip (some true) =
      (λ h. ground (arith, h), λ (e, a). ground (arith, e))
  after_country-Admits geo cloud ip (some false) =
      let (to, of) = cloud-Admits cloud ip in (λ h. (refl, to h), λ (e, a). of a)

  pub skip-Admits :
      (geo : Option GeoHandler) (cloud : Option CloudHandler) (ip : String) (skip : Bool)
      (parsed : P)
      → addresses.parse ip ≡ some parsed
      → Admits (after_lists addresses c geo cloud ip (some (some skip)))
        ↔ (CountryTier addresses c geo ip skip parsed × CloudAdmits addresses c cloud ip)
  unfolding after_lists
  skip-Admits geo cloud ip skip parsed e =
      let (to, of) = after_country-Admits geo cloud ip (country_tier addresses c geo ip skip) in
      let (to', of') = country_tier-Tier geo ip skip parsed e in
      (λ h. let (v, a) = to h in (to' v, a), λ (t, a). of (of' t, a))
