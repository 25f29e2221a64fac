-- ===== src/Base64/Accepted.antt =====
-- packages/core/src/detection-engine/base64-decode.ts: what `strictBase64Decode` accepts, and the
-- bytes that come out.
use guard_core_ts.Base.{
  All, Bool, List, Option, Option-cases, [], any, ap, arith, false, if_cases, if◌then◌else◌, inl,
  inr, leb, length, none, not, refl, some, suc, true, ℕ, ◌%◌, ◌*◌, ◌+◌, ◌-◌, ◌<◌, ◌==◌, ◌||◌, ◌↔◌,
  ◌∷◌, ◌≡◌, ◌≤◌,
}
use mathlib.Core.Option
use guard_core_ts.Base64.Strict.{
  alphabet, decode_from, index_of, is_base64, lookup, padding_fits, push_if, shift_in, shift_right,
  strict_base64_decode,
}
use guard_core_ts.Base64.RoundTrip.{IsByte, all_below, all_below_lem}

abbrev pub AreAllBase64 : List ℕ → Type 0
AreAllBase64 cleaned = any (λ (c : ℕ). not (is_base64 c)) cleaned ≡ false

-- The tests that come before the loop.
abbrev pub IsAccepted : List ℕ → Type 0
IsAccepted cleaned =
    (length cleaned % 4 ≡ 0)
    × AreAllBase64 cleaned
    × (padding_fits cleaned (index_of b'=' cleaned) ≡ true)

-- Bytes, at most 6 bits of them for each character.
abbrev Holds : ℕ → ℕ → Option (List ℕ) → Type 0
Holds bits n decoded =
    (bytes : List ℕ) × (decoded ≡ some bytes) × All IsByte bytes × (8 * length bytes ≤ bits + 6 * n)

abbrev has_value : ℕ → Bool
has_value c = not (is_base64 c) || c == b'=' || elim (lookup c) [ none ↦ false | some n ↦ true ]

all_have_values : all_below has_value 128 ≡ true
unfolding lookup alphabet index_of
all_have_values = refl

pub lookup-total :
    (c : ℕ) → is_base64 c ≡ true → (c == b'=') ≡ false → (n : ℕ) × (lookup c ≡ some n)
lookup-total c b ne =
    let lt : c < 128 = ground arith in
    let has : has_value c ≡ true = all_below_lem has_value 128 c all_have_values lt in
    elim (Option-cases (lookup c)) [ inl e ↦ ground (arith, e, has) | inr (n, e) ↦ (n, e) ]

push_if-Holds :
    (full : Bool) (bits n byte : ℕ) (rest : Option (List ℕ))
    → byte < 256
    → leb 8 (bits + 6) ≡ full
    → Holds (if full then bits + 6 - 8 else bits + 6) n rest
    → Holds bits (suc n) (push_if full byte rest)
push_if-Holds true bits n byte rest lt h (bytes, e, all, le) =
    (byte ∷ bytes, ap (Option.map (◌∷◌ byte)) e, (lt, all), ground arith)
push_if-Holds false bits n byte rest lt h (bytes, e, all, le) = (bytes, e, all, ground arith)

decode_from-Holds :
    (buffer bits : ℕ) (chars : List ℕ)
    → AreAllBase64 chars
    → Holds bits (length chars) (decode_from buffer bits chars)
unfolding decode_from
decode_from-Holds buffer bits [] h = ([], refl, tt, omega arith)
decode_from-Holds buffer bits (c ∷ chars) h =
    let b : is_base64 c ≡ true = ground arith in
    let bs : AreAllBase64 chars = ground arith in
    if_cases (Holds bits (suc (length chars))) (c == b'=') (λ pad. ([], refl, tt, omega arith))
      (λ char.
        let (n, e) = lookup-total c b char in
        let full : Bool = leb 8 (bits + 6) in
        let bits' : ℕ = if full then bits + 6 - 8 else bits + 6 in
        rw e (
          push_if-Holds full bits (length chars) (shift_right (shift_in buffer n) bits' % 256) _
            (omega arith) refl (decode_from-Holds (shift_in buffer n) bits' chars bs)))

-- The tests that come before the loop are all that can fail: a text that passes them is decoded, to
-- bytes, and to at most three for each four of its characters.
strict_base64_decode-accepts :
    (cleaned : List ℕ)
    → IsAccepted cleaned
    → (bytes : List ℕ) × (strict_base64_decode cleaned ≡ some bytes)
      × All IsByte bytes
      × (4 * length bytes ≤ 3 * length cleaned)
unfolding strict_base64_decode
strict_base64_decode-accepts cleaned (four, chars, pads) =
    let (bytes, e, all, le) = decode_from-Holds 0 0 cleaned chars in
    (bytes, simp (four, chars, pads, e), all, omega (arith, le))

-- A text that fails one of them is not decoded.
pub strict_base64_decode-IsAccepted :
    (cleaned bytes : List ℕ) → strict_base64_decode cleaned ≡ some bytes → IsAccepted cleaned
unfolding strict_base64_decode
strict_base64_decode-IsAccepted cleaned bytes h = ground arith

-- `strictBase64Decode` decodes exactly the texts of a length divisible by 4, of characters of the
-- alphabet and `=`, in which at most two `=` end the text; what comes out are bytes, at most three
-- for each four characters.
strict_base64_decode_iff :
    (cleaned : List ℕ)
    → IsAccepted cleaned ↔ (
        (bytes : List ℕ) × (strict_base64_decode cleaned ≡ some bytes)
        × All IsByte bytes
        × (4 * length bytes ≤ 3 * length cleaned))
strict_base64_decode_iff cleaned = (
  strict_base64_decode-accepts cleaned,
  λ (bytes, e, all, le). strict_base64_decode-IsAccepted cleaned bytes e,
)
