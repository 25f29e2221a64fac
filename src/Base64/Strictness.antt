-- ===== src/Base64/Strictness.antt =====
-- packages/core/src/detection-engine/base64-decode.ts: the tests that `strictBase64Decode` makes
-- before its loop, on the base64 of some bytes.
use guard_core_ts.Base.{
  All, Bool, List, Option, [], any, ap, arith, drop, false, if◌then◌else◌, length, none, not, refl,
  some, suc, true, ℕ, ◌%◌, ◌*◌, ◌+◌, ◌/◌, ◌<◌, ◌==◌, ◌∙◌, ◌∷◌, ◌≡◌,
}
use mathlib.Core.Option
use guard_core_ts.Base64.Strict.{
  index_of, is_base64, is_padding, padding_fits, strict_base64_decode,
}
use guard_core_ts.Base64.RoundTrip.{
  IsByte, decode_from-encode, encode, symbol, symbol-is_base64, symbol_no_pad,
}

length-encode : (bytes : List ℕ) → length (encode bytes) % 4 ≡ 0
unfolding encode
length-encode [] = refl
length-encode (a ∷ []) = refl
length-encode (a ∷ b ∷ []) = refl
length-encode (a ∷ b ∷ c ∷ bytes) = omega (arith, length-encode bytes)

abbrev foreign : ℕ → Bool
foreign c = not (is_base64 c)

encode_is_base64 : (bytes : List ℕ) → All IsByte bytes → any foreign (encode bytes) ≡ false
unfolding encode
encode_is_base64 [] h = refl
encode_is_base64 (a ∷ []) (ha, h) =
    simp (symbol-is_base64 (a / 4) (omega arith), symbol-is_base64 (a % 4 * 16) (omega arith))
encode_is_base64 (a ∷ b ∷ []) (ha, (hb, h)) = simp (
  symbol-is_base64 (a / 4) (omega arith),
  symbol-is_base64 (a % 4 * 16 + b / 16) (omega arith),
  symbol-is_base64 (b % 16 * 4) (omega arith),
)
encode_is_base64 (a ∷ b ∷ c ∷ bytes) (ha, (hb, (hc, h))) = simp (
  symbol-is_base64 (a / 4) (omega arith),
  symbol-is_base64 (a % 4 * 16 + b / 16) (omega arith),
  symbol-is_base64 (b % 16 * 4 + c / 64) (omega arith),
  symbol-is_base64 (c % 64) (omega arith),
  encode_is_base64 bytes h,
)

-- A whole group before the padding changes nothing.
padding_fits-group :
    (w x y z : ℕ) (chars : List ℕ) (at : Option ℕ)
    → padding_fits
        (w ∷ x ∷ y ∷ z ∷ chars)
        (Option.map suc (Option.map suc (Option.map suc (Option.map suc at))))
      ≡ padding_fits chars at
unfolding padding_fits
padding_fits-group w x y z chars none = refl
padding_fits-group w x y z chars (some n) =
    let e : suc (suc (suc (suc n))) % 4 ≡ n % 4 = omega arith in
    ap
      (λ (r : ℕ).
        if not (is_padding (drop n chars))
        then false
        else if r == 1
        then false
        else r + length (drop n chars) == 4)
      e

index_of-group :
    (w x y z : ℕ) (chars : List ℕ)
    → w < 64
    → x < 64
    → y < 64
    → z < 64
    → index_of b'=' (symbol w ∷ symbol x ∷ symbol y ∷ symbol z ∷ chars)
      ≡ Option.map suc (Option.map suc (Option.map suc (Option.map suc (index_of b'=' chars))))
unfolding index_of
index_of-group w x y z chars hw hx hy hz =
    simp (symbol_no_pad w hw, symbol_no_pad x hx, symbol_no_pad y hy, symbol_no_pad z hz)

encode-padding_fits :
    (bytes : List ℕ)
    → All IsByte bytes
    → padding_fits (encode bytes) (index_of b'=' (encode bytes)) ≡ true
unfolding encode index_of padding_fits
encode-padding_fits [] h = refl
encode-padding_fits (a ∷ []) (ha, h) =
    simp (symbol_no_pad (a / 4) (omega arith), symbol_no_pad (a % 4 * 16) (omega arith))
encode-padding_fits (a ∷ b ∷ []) (ha, (hb, h)) = simp (
  symbol_no_pad (a / 4) (omega arith),
  symbol_no_pad (a % 4 * 16 + b / 16) (omega arith),
  symbol_no_pad (b % 16 * 4) (omega arith),
)
encode-padding_fits (a ∷ b ∷ c ∷ bytes) (ha, (hb, (hc, h))) =
    let w : ℕ = a / 4 in
    let x : ℕ = a % 4 * 16 + b / 16 in
    let y : ℕ = b % 16 * 4 + c / 64 in
    let z : ℕ = c % 64 in
    ap (padding_fits (encode (a ∷ b ∷ c ∷ bytes))) (
      index_of-group w x y z (encode bytes) (omega arith) (omega arith) (omega arith) (omega arith))
    ∙ padding_fits-group (symbol w) (symbol x) (symbol y) (symbol z) (encode bytes)
        (index_of b'=' (encode bytes))
    ∙ encode-padding_fits bytes h

-- The base64 of any bytes is read back as these bytes.
pub strict_base64_decode-encode :
    (bytes : List ℕ) → All IsByte bytes → strict_base64_decode (encode bytes) ≡ some bytes
unfolding strict_base64_decode
strict_base64_decode-encode bytes h = simp (
  length-encode bytes,
  encode_is_base64 bytes h,
  encode-padding_fits bytes h,
  decode_from-encode 0 bytes h,
)
