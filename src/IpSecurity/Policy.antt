-- ===== src/IpSecurity/Policy.antt =====
-- packages/core/src/core/checks/helpers.ts and core/checks/implementations/ip-security.ts: what the lists and
-- countries of a route and of the configuration ask of an address, stated apart from the code.
use guard_core_ts.Base.{
  Bool, Bool-cases, List, Option, String, [], ap, arith, eq_iff, false, if◌then◌else◌, inl, inr,
  none, refl, some, subst, sym, true, ◌&&◌, ◌||◌, ◌↔◌, ◌∙◌, ◌∷◌, ◌≡◌, ◌⊎◌,
}
use guard_core_ts.Activity.{includes}
use guard_core_ts.IpAccess.{Addresses, GeoHandler, has_slash, is_empty}
use mathlib.Core.Option
use mathlib.Core.Option.{some-injective}
use guard_core_ts.IpSecurity.Lists.{
  Config, Route, address_matches, country_name, in_network, in_some_entry, is_ip_in_blacklist,
  is_listed, set_list, skips_country,
}

get_or-true : (o : Option Bool) → Option.get_or o false ≡ true → o ≡ some true
get_or-true none h = ground arith
get_or-true (some b) h = ap some h

module _ {P : Type 0} (addresses : Addresses P) where
  -- The address parses, and is in the network.
  abbrev pub IsInNetwork : String → String → Type 0
  IsInNetwork ip entry =
      (parsed : P) × (addresses.parse ip ≡ some parsed)
      × (addresses.in_cidr parsed entry ≡ some true)

  -- The entry is a network that holds the address, or the address itself.
  abbrev pub Covers : String → String → Type 0
  Covers ip entry =
      ((has_slash entry ≡ true) × IsInNetwork ip entry) ⊎ ((has_slash entry ≡ false) × (ip ≡ entry))

  -- Some entry covers the address.
  abbrev pub IsListed : String → List String → Type 0
  IsListed ip [] = ⊥
  IsListed ip (entry ∷ entries) = Covers ip entry ⊎ IsListed ip entries

  -- The country is one of the allowed ones, or none is asked for and it is not a blocked one.
  abbrev pub CountryAdmits : List String → List String → Option String → Type 0
  CountryAdmits blocked [] none = Unit
  CountryAdmits blocked [] (some country) = includes blocked country ≡ false
  CountryAdmits blocked (a ∷ allowed) none = ⊥
  CountryAdmits blocked (a ∷ allowed) (some country) = includes (a ∷ allowed) country ≡ true

  -- A route refuses a blocked country, also one that it allows.
  abbrev pub NotBlocked : List String → Option String → Type 0
  NotBlocked blocked none = Unit
  NotBlocked blocked (some country) = includes blocked country ≡ false

  abbrev pub RouteCountryAdmits : Option GeoHandler → Route → String → Type 0
  RouteCountryAdmits none route ip = Unit
  RouteCountryAdmits (some geo) route ip =
      NotBlocked route.blocked_countries (country_name addresses (geo.get_country ip))
      × CountryAdmits [] route.whitelist_countries (country_name addresses (geo.get_country ip))

  -- An allowlist that is not empty decides alone.
  abbrev pub AllowlistOr : String → List String → Type 0 → Type 0
  AllowlistOr ip [] Otherwise = Otherwise
  AllowlistOr ip (entry ∷ entries) Otherwise = IsListed ip (entry ∷ entries)

  -- What a route asks: no entry of its blocklist covers the address, and one of its allowlist does,
  -- or, where that is empty, the country is admitted.
  abbrev pub RoutePolicy : Option GeoHandler → Option Route → String → Type 0
  RoutePolicy geo none ip = Unit
  RoutePolicy geo (some route) ip =
      (¬ IsListed ip route.ip_blacklist)
      × AllowlistOr ip route.ip_whitelist (RouteCountryAdmits geo route ip)

  -- The handler is initialized or can be, and admits the country.
  abbrev pub GeoAdmits : Config → Option GeoHandler → String → Type 0
  GeoAdmits c none ip = Unit
  GeoAdmits c (some geo) ip =
      ((geo.is_initialized || geo.initialize) ≡ true)
      × CountryAdmits c.blocked_countries c.whitelist_countries
          (country_name addresses (geo.get_country ip))

  -- No country is configured, the address is a loopback address or none at all, or its country is
  -- admitted.
  abbrev pub ConfigCountryAdmits : Config → Option GeoHandler → String → Type 0
  ConfigCountryAdmits c geo ip =
      ((is_empty c.blocked_countries && is_empty c.whitelist_countries) ≡ true)
      ⊎ ((skips_country addresses (addresses.parse ip) ≡ true) ⊎ GeoAdmits c geo ip)

  -- What the configuration asks: the country is admitted and, unless the route brings an allowlist of
  -- its own, no entry of the blocklist covers the address, which parses; but an allowlist of the
  -- configuration that is not empty decides alone.
  abbrev pub ConfigPolicy : Config → Option GeoHandler → Bool → String → Type 0
  ConfigPolicy c geo true ip = ConfigCountryAdmits c geo ip
  ConfigPolicy c geo false ip = AllowlistOr ip (set_list addresses c.whitelist) (
      ((parsed : P) × (addresses.parse ip ≡ some parsed))
      × (¬ IsListed ip c.blacklist)
      × ConfigCountryAdmits c geo ip)

  in_network-IsInNetwork :
      (parsed : Option P) (ip entry : String)
      → addresses.parse ip ≡ parsed
      → (in_network addresses parsed entry ≡ true) ↔ IsInNetwork ip entry
  in_network-IsInNetwork none ip entry e = (λ h. ground arith, λ (p, e', h). ground (arith, e, e'))
  in_network-IsInNetwork (some p) ip entry e = (
    λ h. (p, e, get_or-true (addresses.in_cidr p entry) h),
    λ (p', e', h). let same : p ≡ p' = some-injective p p' (sym e ∙ e') in rw (same, h) refl,
  )

  pub address_matches-Covers :
      (ip entry : String) → (address_matches addresses ip entry ≡ true) ↔ Covers ip entry
  address_matches-Covers ip entry =
      let (to, of) = in_network-IsInNetwork (addresses.parse ip) ip entry refl in
      elim (Bool-cases (has_slash entry)) [
        | inl slash ↦ (
          λ h. inl (slash, to (ground (arith, h, slash))),
          λ c. elim c [
            | inl (s, inside) ↦ rw slash (of inside)
            | inr (s, e) ↦ ground (arith, s, slash)
          ],
        )
        | inr plain ↦ (
          λ h. inr (plain, (eq_iff ip entry).0 (ground (arith, h, plain))),
          λ c. elim c [
            | inl (s, inside) ↦ ground (arith, s, plain)
            | inr (s, e) ↦ rw plain ((eq_iff ip entry).1 e)
          ],
        )
      ]

  pub is_ip_in_blacklist-IsListed :
      (ip : String) (entries : List String)
      → (is_ip_in_blacklist addresses ip entries ≡ true) ↔ IsListed ip entries
  unfolding is_ip_in_blacklist
  is_ip_in_blacklist-IsListed ip [] = (λ h. ground (arith, h), λ c. absurd c)
  is_ip_in_blacklist-IsListed ip (entry ∷ entries) =
      let (to, of) = address_matches-Covers ip entry in
      let (to', of') = is_ip_in_blacklist-IsListed ip entries in
      elim (Bool-cases (address_matches addresses ip entry)) [
        | inl here ↦ (λ h. inl (to here), λ c. rw here refl)
        | inr not_here ↦ (
          λ h. inr (to' (ground (arith, h, not_here))),
          λ c. elim c [
            | inl covers ↦ ground (arith, of covers, not_here)
            | inr later ↦ rw not_here (of' later)
          ],
        )
      ]

  pub in_some_entry-blacklist :
      (ip : String) (entries : List String)
      → in_some_entry addresses ip entries ≡ is_ip_in_blacklist addresses ip entries
  unfolding in_some_entry is_ip_in_blacklist
  in_some_entry-blacklist ip [] = refl
  in_some_entry-blacklist ip (entry ∷ entries) =
      ap (λ rest. if address_matches addresses ip entry then true else rest)
        (in_some_entry-blacklist ip entries)

  -- `ipInList` on an address that parses.
  pub is_listed-blacklist :
      (p : P) (ip : String) (entries : List String)
      → addresses.parse ip ≡ some p
      → is_listed addresses ip entries ≡ is_ip_in_blacklist addresses ip entries
  unfolding is_listed is_ip_in_blacklist
  is_listed-blacklist p ip [] e = rw (is_listed, e) refl
  is_listed-blacklist p ip (entry ∷ entries) e =
      subst
        (λ (o : Option P).
          (elim o [
            | none ↦ true
            | some parsed ↦
                if address_matches addresses ip entry then true else is_listed addresses ip entries
          ])
          ≡ (if address_matches addresses ip entry
              then true
              else is_ip_in_blacklist addresses ip entries))
        (sym e)
        (ap (λ rest. if address_matches addresses ip entry then true else rest)
          (is_listed-blacklist p ip entries e))

  pub is_listed-unparsed :
      (ip : String) (entries : List String)
      → addresses.parse ip ≡ none
      → is_listed addresses ip entries ≡ true
  unfolding is_listed
  is_listed-unparsed ip [] e = rw (is_listed, e) refl
  is_listed-unparsed ip (entry ∷ entries) e = rw (is_listed, e) refl
