-- ===== src/RouteChecks/Credentials.antt =====
-- packages/core/src/core/checks/helpers.ts, extractCredential: the credential that a header carries.
use Prim.Native.Char.{Char, code}
use Prim.Native.String.append
use text.Mathlib.TextEquality.{Char-path}
use guard_core_ts.Base.{
  Bool, Bool-cases, Option, String, ap, arith, eq_iff, false, inl, inr, none, refl, some, str_eq,
  sym, true, ◌<>◌, ◌==◌, ◌↔◌, ◌∙◌, ◌≡◌, ◌≢◌, ◌⊎◌,
}
use mathlib.Core.Option
use mathlib.Core.Option.{some-injective}
use guard_core_ts.JsMap.{JsMap, get}
use guard_core_ts.RouteChecks.Parts.{
  Verdict, extract_credential, first_verifier, or_reason, strip_prefix, truthy,
}

-- The header has the form of its scheme: a prefix and the credential, or a credential that is not
-- empty.
abbrev pub Carries : String → String → String → Type 0
Carries header scheme text =
    ((scheme ≡ "bearer") × (header ≡ "Bearer " <> text))
    ⊎ ((scheme ≡ "basic") × (header ≡ "Basic " <> text))
    ⊎ ((scheme ≢ "bearer") × (scheme ≢ "basic") × (header ≡ text) × (text ≢ ""))

-- The request presents a credential: in its authorization header, where the route names a scheme, and
-- else in the header that the route names for its key.
abbrev pub Presents :
    (String → String) → JsMap String → Option String → Option String → String → Type 0
Presents lower headers (some scheme) key_header text =
    Carries (Option.get_or (get headers "authorization") "") scheme text
Presents lower headers none key_header text =
    (get headers (lower (Option.get_or key_header "")) ≡ some text) × (text ≢ "")

-- A first choice, or the other where there is none.
abbrev pub IsFirst {ℓ} : {A : Type ℓ} → Option A → Option A → A → Type ℓ
IsFirst first fallback a = (first ≡ some a) ⊎ ((first ≡ none) × (fallback ≡ some a))

none-some : {A : Type 0} {a : A} → none ≢ some a
none-some e = ground arith

pub first_verifier-IsFirst :
    {V : Type 0} (first fallback : Option (String → Verdict V)) (f : String → Verdict V)
    → (first_verifier first fallback ≡ some f) ↔ IsFirst first fallback f
unfolding first_verifier
first_verifier-IsFirst none fallback f =
    (λ e. inr (refl, e), λ h. elim h [ inl e ↦ absurd (none-some e) | inr (n, e) ↦ e ])
first_verifier-IsFirst (some g) fallback f =
    (λ e. inl e, λ h. elim h [ inl e ↦ e | inr (n, e) ↦ absurd (none-some (sym n)) ])

or_reason-some :
    (reason : String) (read : Option String) (text : String)
    → ((or_reason reason read).0 ≡ some text) ↔ (read ≡ some text)
unfolding or_reason
or_reason-some reason none text = (λ e. e, λ e. e)
or_reason-some reason (some t) text = (λ e. e, λ e. e)

strip_prefix-some : (p s t : String) → strip_prefix p s ≡ some t → s ≡ p <> t
unfolding strip_prefix
strip_prefix-some String.[] s t e = some-injective s t e ∙ sym (append.nil t)
strip_prefix-some (String.◌∷◌ c p) String.[] t e = absurd (none-some e)
strip_prefix-some (String.◌∷◌ c p) (String.◌∷◌ d s) t e = elim (Bool-cases (code c == code d)) [
  | inl same ↦
      let rest : s ≡ p <> t = strip_prefix-some p s t (ground (arith, e, same)) in
      ap (λ (x : Char). String.◌∷◌ x s) (Char-path d c (ground (arith, same)))
      ∙ ap (String.◌∷◌ c) rest
      ∙ sym (append.cons c p t)
  | inr other ↦ ground (arith, e, other)
]

strip_prefix-append : (p t : String) → strip_prefix p (p <> t) ≡ some t
unfolding strip_prefix
strip_prefix-append String.[] t = ap some (append.nil t)
strip_prefix-append (String.◌∷◌ c p) t =
    let same : (code c == code c) ≡ true = ground arith in
    ap (strip_prefix (String.◌∷◌ c p)) (append.cons c p t) ∙ rw same (strip_prefix-append p t)

strip_prefix_iff : (p s t : String) → (strip_prefix p s ≡ some t) ↔ (s ≡ p <> t)
strip_prefix_iff p s t =
    (strip_prefix-some p s t, λ e. ap (strip_prefix p) e ∙ strip_prefix-append p t)

abbrev has_characters : String → Bool
has_characters String.[] = false
has_characters (String.◌∷◌ c s) = true

cons≢empty : {c : Char} {s : String} → String.◌∷◌ c s ≢ ""
cons≢empty e = let wrong : true ≡ false = ap has_characters e in ground (arith, wrong)

truthy_iff :
    (o : Option String) (text : String) → (truthy o ≡ some text) ↔ ((o ≡ some text) × (text ≢ ""))
unfolding truthy
truthy_iff none text = (λ e. absurd (none-some e), λ (e, n). e)
truthy_iff (some String.[]) text =
    (λ e. absurd (none-some e), λ (e, n). absurd (n (sym (some-injective "" text e))))
truthy_iff (some (String.◌∷◌ c s)) text =
    (λ e. (e, λ n. cons≢empty (some-injective (String.◌∷◌ c s) text e ∙ n)), λ (e, n). e)

-- `or_reason` adds nothing to what was read.
pub or_reason-truthy :
    (reason : String) (header : Option String) (text : String)
    → ((or_reason reason (truthy header)).0 ≡ some text) ↔ ((header ≡ some text) × (text ≢ ""))
or_reason-truthy reason header text =
    let (to, of) = or_reason-some reason (truthy header) text in
    let (to', of') = truthy_iff header text in (λ e. to' (to e), λ h. of (of' h))

read_prefix_iff :
    (reason p s t : String) → ((or_reason reason (strip_prefix p s)).0 ≡ some t) ↔ (s ≡ p <> t)
read_prefix_iff reason p s t =
    let (to, of) = or_reason-some reason (strip_prefix p s) t in
    let (to', of') = strip_prefix_iff p s t in (λ e. to' (to e), λ h. of (of' h))

bearer≢basic : {s : String} → s ≡ "bearer" → s ≢ "basic"
bearer≢basic e e' = ground (arith, eq_iff "bearer" "basic", sym e ∙ e')

-- `extractCredential` finds exactly the credential that the header carries.
pub extract-Carries :
    (header scheme text : String)
    → ((extract_credential header scheme).0 ≡ some text) ↔ Carries header scheme text
unfolding extract_credential
extract-Carries header scheme text =
    let (is_bearer, bearer) = eq_iff scheme "bearer" in
    let (is_basic, basic) = eq_iff scheme "basic" in
    elim (Bool-cases (str_eq scheme "bearer")) [
      | inl one ↦
          let (to, of) = read_prefix_iff "Missing or invalid Bearer token" "Bearer " header text in
          rw one (
            λ e. inl (is_bearer one, to e),
            λ h. elim h [
              | inl (s, e) ↦ of e
              | inr (inl (s, e)) ↦ absurd (bearer≢basic (is_bearer one) s)
              | inr (inr (n, m, e, t)) ↦ absurd (n (is_bearer one))
            ],
          )
      | inr not_one ↦ elim (Bool-cases (str_eq scheme "basic")) [
        | inl two ↦
            let (to, of) =
              read_prefix_iff "Missing or invalid Basic authentication" "Basic " header text in
            rw (not_one, two)
              (
                λ e. inr (inl (is_basic two, to e)),
                λ h. elim h [
                  | inl (s, e) ↦ ground (arith, bearer s, not_one)
                  | inr (inl (s, e)) ↦ of e
                  | inr (inr (n, m, e, t)) ↦ absurd (m (is_basic two))
                ],
              )
        | inr not_two ↦
            let (to, of) =
              or_reason-truthy ("Missing " <> scheme <> " authentication") (some header) text in
            rw (not_one, not_two)
              (
                λ e.
                    let (same, t) = to e in
                    inr (
                      inr (
                        λ s. ground (arith, bearer s, not_one),
                        λ s. ground (arith, basic s, not_two),
                        some-injective header text same,
                        t,
                      )),
                λ h. elim h [
                  | inl (s, e) ↦ ground (arith, bearer s, not_one)
                  | inr (inl (s, e)) ↦ ground (arith, basic s, not_two)
                  | inr (inr (n, m, e, t)) ↦ of (ap some e, t)
                ],
              )
      ]
    ]
