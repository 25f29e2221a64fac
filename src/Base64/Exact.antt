-- ===== src/Base64/Exact.antt =====
-- packages/core/src/detection-engine/base64-decode.ts: which texts `strictBase64Decode` decodes, and
-- how many bytes come out.
use guard_core_ts.Base.{
  All, Bool, List, Option, [], ap, arith, false, if◌then◌else◌, leb, length, length-append, refl,
  some, subst, suc, sym, true, ℕ, ◌%◌, ◌*◌, ◌++◌, ◌+◌, ◌-◌, ◌<◌, ◌==◌, ◌↔◌, ◌∷◌, ◌≡◌, ◌≤◌,
}
use mathlib.Core.Option
use guard_core_ts.Base64.Strict.{decode_from, push_if, shift_in, shift_right, strict_base64_decode}
use guard_core_ts.Base64.RoundTrip.{IsByte}
use guard_core_ts.Base64.Accepted.{IsAccepted, lookup-total, strict_base64_decode-IsAccepted}
use guard_core_ts.Base64.Shape.{
  BeginsPadded, IsAccepted-IsPadded, IsDigit, IsPadded, IsPadded-IsAccepted, Padding,
  Padding-BeginsPadded, digit-is_base64, digit-pad, padded_once, padded_twice, unpadded,
}

-- All the bits of the digits, but the fewer than 8 that are left over.
abbrev HoldsAll : ℕ → ℕ → Option (List ℕ) → Type 0
HoldsAll bits n decoded =
    (bytes : List ℕ) × (decoded ≡ some bytes)
    × All IsByte bytes
    × (8 * length bytes ≤ bits + 6 * n)
    × (bits + 6 * n < 8 * length bytes + 8)

push_if-HoldsAll :
    (full : Bool) (bits n byte : ℕ) (rest : Option (List ℕ))
    → byte < 256
    → leb 8 (bits + 6) ≡ full
    → HoldsAll (if full then bits + 6 - 8 else bits + 6) n rest
    → HoldsAll bits (suc n) (push_if full byte rest)
push_if-HoldsAll true bits n byte rest lt h (bytes, e, all, le, more) =
    (byte ∷ bytes, ap (Option.map (◌∷◌ byte)) e, (lt, all), ground arith, ground arith)
push_if-HoldsAll false bits n byte rest lt h (bytes, e, all, le, more) =
    (bytes, e, all, ground arith, ground arith)

decode_from-end :
    (buffer bits : ℕ) (pads : List ℕ) → BeginsPadded pads → decode_from buffer bits pads ≡ some []
unfolding decode_from
decode_from-end buffer bits [] h = refl
decode_from-end buffer bits (c ∷ pads) h = rw h refl

decode_from-HoldsAll :
    (buffer bits : ℕ) (body pads : List ℕ)
    → bits < 8
    → All IsDigit body
    → BeginsPadded pads
    → HoldsAll bits (length body) (decode_from buffer bits (body ++ pads))
unfolding decode_from
decode_from-HoldsAll buffer bits [] pads few all h =
    ([], decode_from-end buffer bits pads h, tt, omega arith, omega (arith, few))
decode_from-HoldsAll buffer bits (c ∷ body) pads few (d, all) h =
    let (n, e) = lookup-total c (digit-is_base64 c d) (digit-pad c d) in
    let full : Bool = leb 8 (bits + 6) in
    let bits' : ℕ = if full then bits + 6 - 8 else bits + 6 in
    let few' : bits' < 8 = ground (arith, few) in
    rw (digit-pad c d, e)
      (push_if-HoldsAll full bits (length body) (shift_right (shift_in buffer n) bits' % 256) _
        (omega arith) refl (decode_from-HoldsAll (shift_in buffer n) bits' body pads few' all h))

-- The `=` of a text.
abbrev pub pads_in : List ℕ → ℕ
pads_in [] = 0
pads_in (c ∷ text) = (if c == b'=' then 1 else 0) + pads_in text

pads_in-body :
    (body pads : List ℕ) → All IsDigit body → Padding pads → pads_in (body ++ pads) ≡ length pads
pads_in-body [] _ all unpadded = refl
pads_in-body [] _ all padded_once = refl
pads_in-body [] _ all padded_twice = refl
pads_in-body (c ∷ body) pads (d, all) padding =
    rw (digit-pad c d) (omega (arith, pads_in-body body pads all padding))

Padding-length : (pads : List ℕ) → Padding pads → length pads ≤ 2
Padding-length _ unpadded = omega arith
Padding-length _ padded_once = omega arith
Padding-length _ padded_twice = omega arith

-- Three bytes for each four characters, less one for each `=`.
abbrev pub DecodesExactly : List ℕ → Type 0
DecodesExactly cleaned =
    (bytes : List ℕ) × (strict_base64_decode cleaned ≡ some bytes)
    × All IsByte bytes
    × (4 * (length bytes + pads_in cleaned) ≡ 3 * length cleaned)

padded-DecodesExactly :
    (body pads : List ℕ)
    → All IsDigit body
    → Padding pads
    → length (body ++ pads) % 4 ≡ 0
    → IsAccepted (body ++ pads)
    → DecodesExactly (body ++ pads)
unfolding strict_base64_decode
padded-DecodesExactly body pads digits padding n (four, chars, fits) =
    let (bytes, e, all, le, more) =
      decode_from-HoldsAll 0 0 body pads (omega arith) digits (Padding-BeginsPadded pads padding) in
    let few : length pads ≤ 2 = Padding-length pads padding in
    let count : pads_in (body ++ pads) ≡ length pads = pads_in-body body pads digits padding in
    let sum : length (body ++ pads) ≡ length body + length pads = length-append body pads in
    (bytes, simp (four, chars, fits, e), all, omega (arith, le, more, few, count, sum, n))

-- `strictBase64Decode` decodes exactly the texts of a length divisible by 4 that are characters of
-- the alphabet and then nothing, `=` or `==`; what comes out are bytes, three for each four
-- characters, less one for each `=`.
pub strict_base64_decode-IsPadded : (cleaned : List ℕ) → IsPadded cleaned ↔ DecodesExactly cleaned
strict_base64_decode-IsPadded cleaned = (
  λ (body, pads, e, digits, padding, four). subst DecodesExactly (sym e) (
      padded-DecodesExactly body pads digits padding
        (subst (λ (t : List ℕ). length t % 4 ≡ 0) e four)
        (subst IsAccepted e (IsPadded-IsAccepted cleaned (body, pads, e, digits, padding, four)))),
  λ (bytes, e, all, exact).
      IsAccepted-IsPadded cleaned (strict_base64_decode-IsAccepted cleaned bytes e),
)
