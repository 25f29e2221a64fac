-- ===== src/Base64/Shape.antt =====
-- packages/core/src/detection-engine/base64-decode.ts: the texts that `strictBase64Decode` decodes,
-- described by their shape.
use guard_core_ts.Base.{
  All, Bool-cases, List, Option, [], ap, arith, drop, false, inl, inr, length, length-append, none,
  refl, some, subst, suc, sym, true, ℕ, ◌%◌, ◌++◌, ◌+◌, ◌==◌, ◌||◌, ◌∙◌, ◌∷◌, ◌≡◌,
}
use mathlib.Core.Option
use guard_core_ts.Base64.Strict.{index_of, is_alphanumeric, is_base64, is_padding, padding_fits}
use guard_core_ts.Base64.Accepted.{AreAllBase64, IsAccepted}

-- A character of the alphabet.
abbrev pub IsDigit : ℕ → Type 0
IsDigit c = (is_alphanumeric c || c == b'+' || c == b'/') ≡ true

-- The end of a text: nothing, `=` or `==`.
pub data Padding : List ℕ → Type 0 where
  unpadded : Padding []
  padded_once : Padding (b'=' ∷ [])
  padded_twice : Padding (b'=' ∷ b'=' ∷ [])

-- Digits, then the padding, of a length divisible by 4.
abbrev pub IsPadded : List ℕ → Type 0
IsPadded cleaned =
    (body : List ℕ) × (pads : List ℕ) × (cleaned ≡ body ++ pads)
    × All IsDigit body
    × Padding pads
    × (length cleaned % 4 ≡ 0)

pub digit-is_base64 : (c : ℕ) → IsDigit c → is_base64 c ≡ true
digit-is_base64 c h = ground (arith, h)

pub digit-pad : (c : ℕ) → IsDigit c → (c == b'=') ≡ false
digit-pad c h = ground (arith, h)

base64-IsDigit : (c : ℕ) → is_base64 c ≡ true → (c == b'=') ≡ false → IsDigit c
base64-IsDigit c h ne = ground (arith, h, ne)

body-AreAllBase64 :
    (body pads : List ℕ) → All IsDigit body → AreAllBase64 pads → AreAllBase64 (body ++ pads)
body-AreAllBase64 [] pads all h = h
body-AreAllBase64 (c ∷ body) pads (d, all) h =
    rw (digit-is_base64 c d) (body-AreAllBase64 body pads all h)

-- Where `indexOf('=')` finds the padding.
abbrev start_of : ℕ → List ℕ → Option ℕ
start_of n [] = none
start_of n (c ∷ pads) = some n

start_of-suc : (n : ℕ) (pads : List ℕ) → Option.map suc (start_of n pads) ≡ start_of (suc n) pads
start_of-suc n [] = refl
start_of-suc n (c ∷ pads) = refl

abbrev pub BeginsPadded : List ℕ → Type 0
BeginsPadded [] = Unit
BeginsPadded (c ∷ pads) = (c == b'=') ≡ true

index_of-body :
    (body pads : List ℕ)
    → All IsDigit body
    → BeginsPadded pads
    → index_of b'=' (body ++ pads) ≡ start_of (length body) pads
unfolding index_of
index_of-body [] [] all h = refl
index_of-body [] (c ∷ pads) all h = rw h refl
index_of-body (c ∷ body) pads (d, all) h =
    rw (digit-pad c d)
      (ap (Option.map suc) (index_of-body body pads all h) ∙ start_of-suc (length body) pads)

-- Every text of base64 characters is digits, then nothing or what begins with `=`.
abbrev IsSplit : List ℕ → Type 0
IsSplit cleaned =
    (body : List ℕ) × (pads : List ℕ) × (cleaned ≡ body ++ pads)
    × All IsDigit body
    × BeginsPadded pads

AreAllBase64-IsSplit : (cleaned : List ℕ) → AreAllBase64 cleaned → IsSplit cleaned
AreAllBase64-IsSplit [] h = ([], [], refl, tt, tt)
AreAllBase64-IsSplit (c ∷ cleaned) h =
    let b : is_base64 c ≡ true = ground arith in
    let (body, pads, e, all, begins) = AreAllBase64-IsSplit cleaned (ground arith) in
    elim (Bool-cases (c == b'=')) [
      | inl pad ↦ ([], c ∷ cleaned, refl, tt, pad)
      | inr char ↦ (c ∷ body, pads, ap (◌∷◌ c) e, (base64-IsDigit c b char, all), begins)
    ]

drop-body : (body pads : List ℕ) → drop (length body) (body ++ pads) ≡ pads
drop-body [] pads = refl
drop-body (c ∷ body) pads = drop-body body pads

is_padding-Padding : (pads : List ℕ) → is_padding pads ≡ true → Padding pads
is_padding-Padding [] h = unpadded
is_padding-Padding (c ∷ []) h = subst (λ (d : ℕ). Padding (d ∷ [])) (ground (arith, h)) padded_once
is_padding-Padding (c ∷ d ∷ []) h =
    let one : b'=' ≡ c = ground (arith, h) in
    let two : b'=' ≡ d = ground (arith, h) in
    subst (λ (x : ℕ). Padding (x ∷ d ∷ [])) one
      (subst (λ (x : ℕ). Padding (b'=' ∷ x ∷ [])) two padded_twice)
is_padding-Padding (c ∷ d ∷ e ∷ s) h = ground arith

pub Padding-BeginsPadded : (pads : List ℕ) → Padding pads → BeginsPadded pads
Padding-BeginsPadded _ unpadded = tt
Padding-BeginsPadded _ padded_once = refl
Padding-BeginsPadded _ padded_twice = refl

Padding-AreAllBase64 : (pads : List ℕ) → Padding pads → AreAllBase64 pads
Padding-AreAllBase64 _ unpadded = refl
Padding-AreAllBase64 _ padded_once = refl
Padding-AreAllBase64 _ padded_twice = refl

fits-Padding :
    (body pads : List ℕ)
    → padding_fits (body ++ pads) (start_of (length body) pads) ≡ true
    → Padding pads
unfolding padding_fits
fits-Padding body [] h = unpadded
fits-Padding body (c ∷ pads) h =
    let same : drop (length body) (body ++ (c ∷ pads)) ≡ c ∷ pads = drop-body body (c ∷ pads) in
    is_padding-Padding (c ∷ pads)
      (subst (λ (p : List ℕ). is_padding p ≡ true) same (ground (arith, h)))

Padding-fits :
    (body pads : List ℕ)
    → Padding pads
    → (length body + length pads) % 4 ≡ 0
    → padding_fits (body ++ pads) (start_of (length body) pads) ≡ true
unfolding padding_fits
Padding-fits body _ unpadded h = refl
Padding-fits body _ padded_once h =
    let n : length body % 4 ≡ 3 = omega (arith, h) in rw (drop-body body (b'=' ∷ []), n) refl
Padding-fits body _ padded_twice h =
    let n : length body % 4 ≡ 2 = omega (arith, h) in rw (drop-body body (b'=' ∷ b'=' ∷ []), n) refl

pub IsAccepted-IsPadded : (cleaned : List ℕ) → IsAccepted cleaned → IsPadded cleaned
IsAccepted-IsPadded cleaned (four, chars, fits) =
    let (body, pads, e, all, begins) = AreAllBase64-IsSplit cleaned chars in
    let fits' : padding_fits (body ++ pads) (start_of (length body) pads) ≡ true =
      subst (λ (o : Option ℕ). padding_fits (body ++ pads) o ≡ true)
        (index_of-body body pads all begins)
        (subst (λ (t : List ℕ). padding_fits t (index_of b'=' t) ≡ true) e fits) in
    (body, pads, e, all, fits-Padding body pads fits', four)

pub IsPadded-IsAccepted : (cleaned : List ℕ) → IsPadded cleaned → IsAccepted cleaned
IsPadded-IsAccepted cleaned (body, pads, e, all, padding, four) =
    let n : (length body + length pads) % 4 ≡ 0 =
      ap (λ (n : ℕ). n % 4) (sym (length-append body pads))
      ∙ subst (λ (t : List ℕ). length t % 4 ≡ 0) e four in
    let fits : padding_fits (body ++ pads) (index_of b'=' (body ++ pads)) ≡ true =
      subst (λ (o : Option ℕ). padding_fits (body ++ pads) o ≡ true)
        (sym (index_of-body body pads all (Padding-BeginsPadded pads padding)))
        (Padding-fits body pads padding n) in
    (
      four,
      subst AreAllBase64 (sym e)
          (body-AreAllBase64 body pads all (Padding-AreAllBase64 pads padding)),
      subst (λ (t : List ℕ). padding_fits t (index_of b'=' t) ≡ true) (sym e) fits,
    )
