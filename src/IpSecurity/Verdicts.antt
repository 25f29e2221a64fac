-- ===== src/IpSecurity/Verdicts.antt =====
-- packages/core/src/core/checks/helpers.ts and core/checks/implementations/ip-security.ts: the verdicts of the code
-- are those of the policy.
use guard_core_ts.Base.{
  Bool, Bool-cases, List, Option, String, [], ap, arith, false, if◌then◌else◌, inl, inr, none, not,
  refl, some, sym, true, ℕ, ◌&&◌, ◌||◌, ◌↔◌, ◌∙◌, ◌∷◌, ◌≡◌,
}
use guard_core_ts.Activity.{includes}
use guard_core_ts.Response.{Response}
use guard_core_ts.IpAccess.{Addresses, GeoHandler, is_empty}
use guard_core_ts.IpSecurity.Lists.{
  Access, Config, Route, access_by_country, check_country_access, check_route_ip_access,
  country_name, country_verdict, geo_verdict, in_countries, is_ip_in_blacklist, is_ip_in_whitelist,
  or_country, resolve_country_verdict, skips_country,
}
use guard_core_ts.IpSecurity.Policy.{
  AllowlistOr, ConfigCountryAdmits, CountryAdmits, GeoAdmits, IsListed, NotBlocked,
  RouteCountryAdmits, RoutePolicy, in_some_entry-blacklist, is_ip_in_blacklist-IsListed,
}
use guard_core_ts.IpSecurity.Check.{is_denial}
use guard_core_ts.IpSecurity.Admission.{IsAllowed, RouteAdmits}

not_iff {κ} : {A : Type κ} {b : Bool} → (b ≡ true) ↔ A → (b ≡ false) ↔ (¬ A)
not_iff {b = b} (to, of) = (
  λ h a. ground (arith, h, of a),
  λ no. elim (Bool-cases b) [ inl h ↦ absurd (no (to h)) | inr h ↦ h ],
)

module _ {P : Type 0} (addresses : Addresses P) (c : Config) (geo : Option GeoHandler)
    (is_ip_banned : Option (String → Bool)) (create_error_response : ℕ → String → Response) where
  abbrev denies : Option Bool → Bool
  denies verdict = is_denial addresses c geo is_ip_banned create_error_response verdict

  -- The two country tests of a route, on what they read.
  abbrev country_tests : List String → List String → Option String → Option Bool
  country_tests blocked allowed country =
      if not (is_empty blocked) && in_countries addresses blocked country
      then some false
      else if not (is_empty allowed)
      then some (in_countries addresses allowed country)
      else none

  abbrev Admitted : List String → List String → Option String → Type 0
  Admitted blocked allowed country =
      NotBlocked addresses blocked country × CountryAdmits addresses [] allowed country

  country_tests-Admitted :
      (blocked allowed : List String) (country : Option String)
      → (denies (country_tests blocked allowed country) ≡ false) ↔ Admitted blocked allowed country
  country_tests-Admitted [] [] none = (λ h. (tt, tt), λ a. refl)
  country_tests-Admitted [] [] (some x) = (λ h. (refl, refl), λ a. refl)
  country_tests-Admitted [] (a ∷ allowed) none = (λ h. ground (arith, h), λ (n, m). absurd m)
  country_tests-Admitted [] (a ∷ allowed) (some x) =
      (λ h. (refl, ground (arith, h)), λ (n, e). ground (arith, e))
  country_tests-Admitted (b ∷ blocked) [] none = (λ h. (tt, tt), λ a. refl)
  country_tests-Admitted (b ∷ blocked) [] (some x) =
      (λ h. (ground (arith, h), refl), λ (n, e). ground (arith, n))
  country_tests-Admitted (b ∷ blocked) (a ∷ allowed) none =
      (λ h. ground (arith, h), λ (n, m). absurd m)
  country_tests-Admitted (b ∷ blocked) (a ∷ allowed) (some x) =
      (λ h. (ground (arith, h), ground (arith, h)), λ (n, e). ground (arith, n, e))

  check_country_access-Admits :
      (handler : Option GeoHandler) (route : Route) (ip : String)
      → (denies (check_country_access addresses handler route ip) ≡ false)
        ↔ RouteCountryAdmits addresses handler route ip
  unfolding check_country_access
  check_country_access-Admits none route ip = (λ h. tt, λ a. refl)
  check_country_access-Admits (some handler) route ip =
      country_tests-Admitted route.blocked_countries route.whitelist_countries
        (country_name addresses (handler.get_country ip))

  pub not-IsListed :
      (ip : String) (entries : List String)
      → (is_ip_in_blacklist addresses ip entries ≡ false) ↔ (¬ IsListed addresses ip entries)
  not-IsListed ip entries = not_iff (is_ip_in_blacklist-IsListed addresses ip entries)

  allowlist-Or :
      (ip : String) (entries : List String) (country : Option Bool) (Otherwise : Type 0)
      → (denies country ≡ false) ↔ Otherwise
      → (denies (or_country addresses (is_ip_in_whitelist addresses ip entries) country) ≡ false)
        ↔ AllowlistOr addresses ip entries Otherwise
  unfolding is_ip_in_whitelist
  allowlist-Or ip [] country Otherwise h = h
  allowlist-Or ip (entry ∷ entries) country Otherwise h =
      let entries' : List String = entry ∷ entries in
      let (to, of) = is_ip_in_blacklist-IsListed addresses ip entries' in
      let same = in_some_entry-blacklist addresses ip entries' in
      (λ d. to (sym same ∙ ground (arith, d)), λ l. ap not (same ∙ of l))

  route_access-RoutePolicy :
      (route : Route) (ip : String)
      → (denies (check_route_ip_access addresses geo route ip) ≡ false)
        ↔ RoutePolicy addresses geo (some route) ip
  unfolding check_route_ip_access
  route_access-RoutePolicy route ip =
      let (to, of) = not-IsListed ip route.ip_blacklist in
      let (to', of') =
        allowlist-Or ip route.ip_whitelist (check_country_access addresses geo route ip) _
          (check_country_access-Admits geo route ip) in
      elim (Bool-cases (is_ip_in_blacklist addresses ip route.ip_blacklist)) [
        | inl listed ↦ (λ h. ground (arith, h, listed), λ (n, a). ground (arith, of n, listed))
        | inr free ↦ (λ h. (to free, to' (ground (arith, h, free))), λ (n, a). rw free (of' a))
      ]

  pub RouteAdmits-RoutePolicy :
      (route : Option Route) (ip : String)
      → RouteAdmits addresses c geo is_ip_banned create_error_response route ip
        ↔ RoutePolicy addresses geo route ip
  RouteAdmits-RoutePolicy none ip = (λ h. tt, λ h. tt)
  RouteAdmits-RoutePolicy (some route) ip = route_access-RoutePolicy route ip

  -- Does the configuration block the country?
  abbrev blocks : List String → List String → Option String → Bool
  blocks blocked allowed none = not (is_empty allowed)
  blocks blocked allowed (some country) =
      if not (is_empty allowed) then not (includes allowed country) else includes blocked country

  blocks-Admits :
      (blocked allowed : List String) (country : Option String)
      → (blocks blocked allowed country ≡ false) ↔ CountryAdmits addresses blocked allowed country
  blocks-Admits blocked [] none = (λ h. tt, λ a. refl)
  blocks-Admits blocked [] (some x) = (λ h. h, λ a. a)
  blocks-Admits blocked (a ∷ allowed) none = (λ h. ground (arith, h), λ m. absurd m)
  blocks-Admits blocked (a ∷ allowed) (some x) = (λ h. ground (arith, h), λ m. ground (arith, m))

  country_verdict-blocks :
      (country : Option String)
      → (country_verdict addresses c country).0
        ≡ blocks c.blocked_countries c.whitelist_countries country
  unfolding country_verdict
  country_verdict-blocks none = refl
  country_verdict-blocks (some x) = ground arith

  abbrev pub Allows : Option Access → Type 0
  Allows access = IsAllowed addresses c geo is_ip_banned create_error_response access

  access_by_country-Allows :
      (ip : String) (verdict : Bool × Option String)
      → Allows (access_by_country addresses ip (some verdict)) ↔ (verdict.0 ≡ false)
  access_by_country-Allows ip (true, country) = (λ h. ground (arith, h), λ h. ground (arith, h))
  access_by_country-Allows ip (false, country) = (λ h. refl, λ h. refl)

  by_verdict :
      (ip : String) (country : Option String)
      → Allows (access_by_country addresses ip (some (country_verdict addresses c country)))
        ↔ CountryAdmits addresses c.blocked_countries c.whitelist_countries country
  by_verdict ip country =
      let (to, of) = access_by_country-Allows ip (country_verdict addresses c country) in
      let (to', of') = blocks-Admits c.blocked_countries c.whitelist_countries country in
      let same = country_verdict-blocks country in
      (λ h. to' (sym same ∙ to h), λ a. of (same ∙ of' a))

  geo_verdict-Admits :
      (handler : Option GeoHandler) (ip : String)
      → Allows (access_by_country addresses ip (geo_verdict addresses c handler ip))
        ↔ GeoAdmits addresses c handler ip
  geo_verdict-Admits none ip = (λ h. tt, λ h. refl)
  geo_verdict-Admits (some handler) ip =
      let country : Option String = country_name addresses (handler.get_country ip) in
      let (to, of) = by_verdict ip country in
      elim (Bool-cases (handler.is_initialized || handler.initialize)) [
        | inl ready ↦
            let runs : (not handler.is_initialized && not handler.initialize) ≡ false =
              ground (arith, ready) in
            rw runs (λ h. (ready, to h), λ (r, a). of a)
        | inr not_ready ↦
            let throws : (not handler.is_initialized && not handler.initialize) ≡ true =
              ground (arith, not_ready) in
            rw throws (λ h. absurd h, λ (r, a). ground (arith, r, not_ready))
      ]

  pub by_country-Admits :
      (ip : String)
      → Allows (access_by_country addresses ip (resolve_country_verdict addresses c geo ip))
        ↔ ConfigCountryAdmits addresses c geo ip
  unfolding resolve_country_verdict
  by_country-Admits ip =
      let (to, of) = geo_verdict-Admits geo ip in
      elim (Bool-cases (is_empty c.blocked_countries && is_empty c.whitelist_countries)) [
        | inl unset ↦ rw unset (λ h. inl refl, λ h. refl)
        | inr set ↦ elim (Bool-cases (skips_country addresses (addresses.parse ip))) [
          | inl skips ↦ rw (set, skips) (λ h. inr (inl refl), λ h. refl)
          | inr has ↦
              rw (set, has)
                (
                  λ h. inr (inr (to h)),
                  λ h. elim h [
                    | inl e ↦ ground (arith, e)
                    | inr (inl e) ↦ ground (arith, e)
                    | inr (inr a) ↦ of a
                  ],
                )
        ]
      ]
