-- ===== src/IpAccess/Policy.antt =====
-- packages/core/src/core/checks/ip-access.ts: exactly which addresses `checkIpAccess` lets in.
use guard_core_ts.Base.{
  All, Bool, List, Option, String, [], arith, false, if◌then◌else◌, inl, inr, none, not, refl, some,
  str_eq, sym, true, ◌&&◌, ◌||◌, ◌↔◌, ◌∙◌, ◌∷◌, ◌≡◌, ◌≢◌, ◌⊎◌,
}
use guard_core_ts.Activity.{includes}
use guard_core_ts.IpAccess.{
  AccessConfig, Addresses, CloudHandler, GeoHandler, has_slash, ip_in_list, is_empty, or_rest,
}

or_rest-true :
    (verdict rest : Option Bool)
    → (or_rest verdict rest ≡ some true)
      ↔ ((verdict ≡ some true) ⊎ ((verdict ≡ some false) × (rest ≡ some true)))
or_rest-true none rest = (λ h. ground (arith, h), λ h. ground (arith, h))
or_rest-true (some true) rest = (λ h. inl refl, λ h. refl)
or_rest-true (some false) rest = (λ h. inr (refl, h), λ h. ground (arith, h))

or_rest-false :
    (verdict rest : Option Bool)
    → (or_rest verdict rest ≡ some false) ↔ ((verdict ≡ some false) × (rest ≡ some false))
or_rest-false none rest = (λ h. ground (arith, h), λ h. ground (arith, h))
or_rest-false (some true) rest = (λ h. ground (arith, h), λ h. ground (arith, h))
or_rest-false (some false) rest = (λ h. (refl, h), λ (v, h). h)

module _ {P : Type 0} (addresses : Addresses P) (c : AccessConfig) where
  -- An entry with a slash is a network, which may not parse; another is an address.
  abbrev pub entry_verdict : P → String → String → Option Bool
  entry_verdict parsed ip entry =
      if has_slash entry then addresses.in_cidr parsed entry else some (str_eq ip entry)

  abbrev pub Misses : P → String → String → Type 0
  Misses parsed ip entry = entry_verdict parsed ip entry ≡ some false

  -- Some entry covers the address, and no entry before it fails to parse.
  abbrev pub IsIn : P → String → List String → Type 0
  IsIn parsed ip [] = ⊥
  IsIn parsed ip (entry ∷ entries) =
      (entry_verdict parsed ip entry ≡ some true)
      ⊎ (Misses parsed ip entry × IsIn parsed ip entries)

  abbrev pub CountryAdmits : Option String → Type 0
  CountryAdmits none = Unit
  CountryAdmits (some country) =
      (country ≡ "")
      ⊎ ((if is_empty c.whitelist_countries
            then not (includes c.blocked_countries country)
            else includes c.whitelist_countries country)
          ≡ true)

  -- The countries are skipped or not asked for, there is no handler, the address is a loopback
  -- address, or the handler is ready and its country is admitted.
  abbrev pub GeoAdmits : Option GeoHandler → String → P → Type 0
  GeoAdmits none ip parsed = Unit
  GeoAdmits (some geo) ip parsed =
      ((is_empty c.blocked_countries && is_empty c.whitelist_countries) ≡ true)
      ⊎ ((addresses.is_loopback parsed ≡ true)
          ⊎ (((geo.is_initialized || geo.initialize) ≡ true) × CountryAdmits (geo.get_country ip)))

  abbrev pub CountryTier : Option GeoHandler → String → Bool → P → Type 0
  CountryTier geo ip true parsed = Unit
  CountryTier geo ip false parsed = GeoAdmits geo ip parsed

  -- An allowlist that is not empty decides alone; without one every entry of the blocklist parses and
  -- misses the address, and its country is admitted.
  abbrev pub ByLists : List String → Option GeoHandler → String → Bool → P → Type 0
  ByLists [] geo ip skip parsed =
      All (Misses parsed ip) c.blacklist × CountryTier geo ip skip parsed
  ByLists (entry ∷ entries) geo ip skip parsed = IsIn parsed ip (entry ∷ entries)

  abbrev pub ListsAdmit : Option GeoHandler → String → Bool → Bool → P → Type 0
  ListsAdmit geo ip true skip parsed = CountryTier geo ip skip parsed
  ListsAdmit geo ip false skip parsed = ByLists c.whitelist geo ip skip parsed

  abbrev pub CloudAdmits : Option CloudHandler → String → Type 0
  CloudAdmits none ip = Unit
  CloudAdmits (some cloud) ip =
      (is_empty c.block_cloud_providers || not (cloud.is_cloud_ip ip c.block_cloud_providers))
      ≡ true

  -- What `checkIpAccess` asks of an address; of an unknown one, that no allowlist is in force.
  abbrev pub AccessPolicy : Option GeoHandler → Option CloudHandler → String → Bool → Bool → Type 0
  AccessPolicy geo cloud ip skip_ip_lists skip_countries =
      ((ip ≡ "unknown")
        × (((skip_ip_lists || is_empty c.whitelist)
              && (skip_countries || is_empty c.whitelist_countries))
            ≡ true))
      ⊎ ((ip ≢ "unknown")
          × ((parsed : P) × (addresses.parse ip ≡ some parsed)
              × ListsAdmit geo ip skip_ip_lists skip_countries parsed
              × CloudAdmits cloud ip))

  ip_in_list-or_rest :
      (parsed : P) (ip entry : String) (entries : List String)
      → ip_in_list addresses c parsed ip (entry ∷ entries)
        ≡ or_rest (entry_verdict parsed ip entry) (ip_in_list addresses c parsed ip entries)
  unfolding ip_in_list
  ip_in_list-or_rest parsed ip entry entries = ground arith

  pub ip_in_list-IsIn :
      (parsed : P) (ip : String) (entries : List String)
      → (ip_in_list addresses c parsed ip entries ≡ some true) ↔ IsIn parsed ip entries
  unfolding ip_in_list
  ip_in_list-IsIn parsed ip [] = (λ h. ground (arith, h), λ m. absurd m)
  ip_in_list-IsIn parsed ip (entry ∷ entries) =
      let (to, of) = ip_in_list-IsIn parsed ip entries in
      let same = ip_in_list-or_rest parsed ip entry entries in
      let (to', of') =
        or_rest-true (entry_verdict parsed ip entry) (ip_in_list addresses c parsed ip entries) in
      (
        λ h. elim (to' (sym same ∙ h)) [ inl e ↦ inl e | inr (m, r) ↦ inr (m, to r) ],
        λ h. elim h [ inl e ↦ same ∙ of' (inl e) | inr (m, r) ↦ same ∙ of' (inr (m, of r)) ],
      )

  pub ip_in_list-Misses :
      (parsed : P) (ip : String) (entries : List String)
      → (ip_in_list addresses c parsed ip entries ≡ some false) ↔ All (Misses parsed ip) entries
  unfolding ip_in_list
  ip_in_list-Misses parsed ip [] = (λ h. tt, λ h. refl)
  ip_in_list-Misses parsed ip (entry ∷ entries) =
      let (to, of) = ip_in_list-Misses parsed ip entries in
      let same = ip_in_list-or_rest parsed ip entry entries in
      let (to', of') =
        or_rest-false (entry_verdict parsed ip entry) (ip_in_list addresses c parsed ip entries) in
      (λ h. let (m, r) = to' (sym same ∙ h) in (m, to r), λ (m, r). same ∙ of' (m, of r))
