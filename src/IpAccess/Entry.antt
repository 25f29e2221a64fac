-- ===== src/IpAccess/Entry.antt =====
-- packages/core/src/core/checks/ip-access.ts: the verdict of `checkIpAccess` is that of the policy.
use guard_core_ts.Base.{
  Bool, Bool-cases, List, Option, String, [], arith, eq_iff, false, if◌then◌else◌, inl, inr, none,
  not, refl, some, str_eq, subst, sym, true, ◌↔◌, ◌∙◌, ◌∷◌, ◌≡◌,
}
use mathlib.Core.Option
use mathlib.Core.Option.{some-injective}
use guard_core_ts.IpAccess.{
  AccessConfig, Addresses, CloudHandler, GeoHandler, after_lists, check_ip_access,
  check_unknown_identity_access, ip_in_list, is_empty, list_verdict, parsed_access,
}
use guard_core_ts.IpAccess.Policy.{
  AccessPolicy, ByLists, CloudAdmits, CountryTier, ListsAdmit, ip_in_list-IsIn, ip_in_list-Misses,
}
use guard_core_ts.IpAccess.Tiers.{Admits, skip-Admits}

module _ {P : Type 0} (addresses : Addresses P) (c : AccessConfig) where
  -- What the lists say, on what `ipInList` found.
  abbrev after_allowlist : Option Bool → Option (Option Bool)
  after_allowlist listed = Option.map (λ found. if found then some true else none) listed

  abbrev after_blocklist : Bool → Option Bool → Option (Option Bool)
  after_blocklist skip listed = Option.map (λ found. if found then none else some skip) listed

  allowlist-Admits :
      (geo : Option GeoHandler) (cloud : Option CloudHandler) (ip : String) (parsed : P)
      (listed : Option Bool)
      → addresses.parse ip ≡ some parsed
      → Admits addresses c (after_lists addresses c geo cloud ip (after_allowlist listed))
        ↔ ((listed ≡ some true) × CloudAdmits addresses c cloud ip)
  unfolding after_lists
  allowlist-Admits geo cloud ip parsed none e =
      (λ h. ground (arith, h), λ (l, a). ground (arith, l))
  allowlist-Admits geo cloud ip parsed (some false) e =
      (λ h. ground (arith, h), λ (l, a). ground (arith, l))
  allowlist-Admits geo cloud ip parsed (some true) e =
      let (to, of) = skip-Admits addresses c geo cloud ip true parsed e in
      (λ h. (refl, (to h).1), λ (l, a). of (tt, a))

  blocklist-Admits :
      (geo : Option GeoHandler) (cloud : Option CloudHandler) (ip : String) (skip : Bool)
      (parsed : P) (listed : Option Bool)
      → addresses.parse ip ≡ some parsed
      → Admits addresses c (after_lists addresses c geo cloud ip (after_blocklist skip listed)) ↔ (
          (listed ≡ some false)
          × (CountryTier addresses c geo ip skip parsed × CloudAdmits addresses c cloud ip))
  unfolding after_lists
  blocklist-Admits geo cloud ip skip parsed none e =
      (λ h. ground (arith, h), λ (l, r). ground (arith, l))
  blocklist-Admits geo cloud ip skip parsed (some true) e =
      (λ h. ground (arith, h), λ (l, r). ground (arith, l))
  blocklist-Admits geo cloud ip skip parsed (some false) e =
      let (to, of) = skip-Admits addresses c geo cloud ip skip parsed e in
      (λ h. (refl, to h), λ (l, r). of r)

  -- `list_verdict` where the lists are not skipped, under a given allowlist.
  abbrev on_lists : List String → P → String → Bool → Option (Option Bool)
  on_lists entries parsed ip skip =
      if not (is_empty entries)
      then after_allowlist (ip_in_list addresses c parsed ip entries)
      else after_blocklist skip (ip_in_list addresses c parsed ip c.blacklist)

  on_lists-ByLists :
      (entries : List String) (geo : Option GeoHandler) (cloud : Option CloudHandler) (ip : String)
      (skip : Bool) (parsed : P)
      → addresses.parse ip ≡ some parsed
      → Admits addresses c (after_lists addresses c geo cloud ip (on_lists entries parsed ip skip))
        ↔ (ByLists addresses c entries geo ip skip parsed × CloudAdmits addresses c cloud ip)
  on_lists-ByLists [] geo cloud ip skip parsed e =
      let (to, of) =
        blocklist-Admits geo cloud ip skip parsed (ip_in_list addresses c parsed ip c.blacklist)
          e in
      let (to', of') = ip_in_list-Misses addresses c parsed ip c.blacklist in
      (λ h. let (l, r) = to h in ((to' l, r.0), r.1), λ ((m, t), a). of (of' m, (t, a)))
  on_lists-ByLists (entry ∷ entries) geo cloud ip skip parsed e =
      let (to, of) =
        allowlist-Admits geo cloud ip parsed (ip_in_list addresses c parsed ip (entry ∷ entries))
          e in
      let (to', of') = ip_in_list-IsIn addresses c parsed ip (entry ∷ entries) in
      (λ h. let (l, a) = to h in (to' l, a), λ (m, a). of (of' m, a))

  list_verdict-ListsAdmit :
      (geo : Option GeoHandler) (cloud : Option CloudHandler) (ip : String)
      (skip_ip_lists skip_countries : Bool) (parsed : P)
      → addresses.parse ip ≡ some parsed
      → Admits addresses c (
          after_lists addresses c geo cloud ip
            (list_verdict addresses c parsed ip skip_ip_lists skip_countries))
        ↔ (ListsAdmit addresses c geo ip skip_ip_lists skip_countries parsed
            × CloudAdmits addresses c cloud ip)
  unfolding list_verdict
  list_verdict-ListsAdmit geo cloud ip true skip parsed e =
      skip-Admits addresses c geo cloud ip skip parsed e
  list_verdict-ListsAdmit geo cloud ip false skip parsed e =
      on_lists-ByLists c.whitelist geo cloud ip skip parsed e

  -- What a known address must meet.
  abbrev Known : Option GeoHandler → Option CloudHandler → String → Bool → Bool → Type 0
  Known geo cloud ip skip_ip_lists skip_countries =
      (parsed : P) × (addresses.parse ip ≡ some parsed)
      × ListsAdmit addresses c geo ip skip_ip_lists skip_countries parsed
      × CloudAdmits addresses c cloud ip

  parsed_access-Known :
      (geo : Option GeoHandler) (cloud : Option CloudHandler) (ip : String)
      (skip_ip_lists skip_countries : Bool) (read : Option P)
      → addresses.parse ip ≡ read
      → Admits addresses c
          (parsed_access addresses c geo cloud ip skip_ip_lists skip_countries read)
        ↔ Known geo cloud ip skip_ip_lists skip_countries
  unfolding parsed_access
  parsed_access-Known geo cloud ip skip_ip_lists skip_countries none e =
      (λ h. ground (arith, h), λ (p, e', l, a). ground (arith, e, e'))
  parsed_access-Known geo cloud ip skip_ip_lists skip_countries (some parsed) e =
      let (to, of) = list_verdict-ListsAdmit geo cloud ip skip_ip_lists skip_countries parsed e in
      (
        λ h. let (l, a) = to h in (parsed, e, l, a),
        λ (p, e', l, a).
            let same : p ≡ parsed = some-injective p parsed (sym e' ∙ e) in
            of
              (subst (λ q. ListsAdmit addresses c geo ip skip_ip_lists skip_countries q) same l, a),
      )

  -- `checkIpAccess` lets in exactly an unknown address, where no allowlist is in force, and one that
  -- parses, that no cloud provider in force holds, and that an allowlist in force covers or, where
  -- none is, that every entry of a blocklist in force misses and whose country is admitted.
  pub check_ip_access-AccessPolicy :
      (geo : Option GeoHandler) (cloud : Option CloudHandler) (ip : String)
      (skip_ip_lists skip_countries : Bool)
      → ((check_ip_access addresses c geo cloud ip skip_ip_lists skip_countries).allowed ≡ true)
        ↔ AccessPolicy addresses c geo cloud ip skip_ip_lists skip_countries
  unfolding check_ip_access check_unknown_identity_access
  check_ip_access-AccessPolicy geo cloud ip skip_ip_lists skip_countries =
      let (to_eq, of_eq) = eq_iff ip "unknown" in
      let (to, of) =
        parsed_access-Known geo cloud ip skip_ip_lists skip_countries (addresses.parse ip) refl in
      elim (Bool-cases (str_eq ip "unknown")) [
        | inl unknown ↦ (
          λ h. inl (to_eq unknown, ground (arith, h, unknown)),
          λ h. elim h [
            | inl (e, free) ↦ ground (arith, unknown, free)
            | inr (ne, k) ↦ absurd (ne (to_eq unknown))
          ],
        )
        | inr known ↦ rw known (
          λ h. inr (λ e. ground (arith, of_eq e, known), to h),
          λ h. elim h [ inl (e, free) ↦ ground (arith, of_eq e, known) | inr (ne, k) ↦ of k ],
        )
      ]
