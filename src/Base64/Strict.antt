-- ===== src/Base64/Strict.antt =====
-- packages/core/src/detection-engine/base64-decode.ts: `strictBase64Decode` and `isHexLiteral`. A
-- text is the list of its UTF-16 code units, a `Uint8Array` the list of its bytes. The loop's buffer
-- is kept modulo 2 ^ 32: `<<` drops what leaves 32 bits, and the sign that `>>` copies in stands above
-- the 8 bits that `& 0xff` keeps.
use guard_core_ts.Base.{
  ℕ, zero, suc, ◌+◌, ◌-◌, ◌*◌, ◌/◌, ◌%◌, Bool, true, false, List, [], ◌∷◌, ◌++◌, Option, none, some,
  leb, ◌==◌, if◌then◌else◌, ◌&&◌, ◌||◌, not, any, length, drop,
}
use mathlib.Core.Option

abbrev pub in_range : ℕ → ℕ → ℕ → Bool
in_range lo hi c = leb lo c && leb c hi

abbrev pub is_alphanumeric : ℕ → Bool
is_alphanumeric c = in_range b'A' b'Z' c || in_range b'a' b'z' c || in_range b'0' b'9' c

-- What `[^A-Za-z0-9+/=]` does not match.
abbrev pub is_base64 : ℕ → Bool
is_base64 c = is_alphanumeric c || c == b'+' || c == b'/' || c == b'='

-- `s.indexOf(c)`: none for -1.
unfoldable pub index_of : ℕ → List ℕ → Option ℕ
index_of c [] = none
index_of c (d ∷ s) = if d == c then some 0 else Option.map suc (index_of c s)

-- `/^={1,2}$/`
abbrev pub is_padding : List ℕ → Bool
is_padding [] = false
is_padding (c ∷ []) = c == b'='
is_padding (c ∷ d ∷ []) = c == b'=' && d == b'='
is_padding (c ∷ d ∷ e ∷ s) = false

-- The tests of the block under `padStart !== -1`.
unfoldable pub padding_fits : List ℕ → Option ℕ → Bool
padding_fits cleaned none = true
padding_fits cleaned (some pad_start) =
    let padding = drop pad_start cleaned in
    if not (is_padding padding)
    then false
    else if pad_start % 4 == 1
    then false
    else pad_start % 4 + length padding == 4

abbrev pub letters : ℕ → ℕ → List ℕ
letters first zero = []
letters first (suc n) = first ∷ letters (suc first) n

-- `ABC...Zabc...z0123456789+/`
unfoldable pub alphabet : List ℕ
alphabet = letters b'A' 26 ++ letters b'a' 26 ++ letters b'0' 10 ++ (b'+' ∷ b'/' ∷ [])

-- `lookup.get(ch)`: no character stands twice in the alphabet.
unfoldable pub lookup : ℕ → Option ℕ
unfolding alphabet index_of
lookup ch = index_of ch alphabet

-- `(buffer << 6) | sixBits`
abbrev pub shift_in : ℕ → ℕ → ℕ
shift_in buffer six_bits = buffer * 64 % 4294967296 + six_bits

-- `buffer >> bits`, for the at most 6 bits that are left over.
abbrev pub shift_right : ℕ → ℕ → ℕ
shift_right buffer bits =
    if bits == 0
    then buffer
    else if bits == 2
    then buffer / 4
    else if bits == 4
    then buffer / 16
    else buffer / 64

-- `bytes.push` under its test, with what the rest of the loop pushes.
abbrev pub push_if : Bool → ℕ → Option (List ℕ) → Option (List ℕ)
push_if true byte rest = Option.map (◌∷◌ byte) rest
push_if false byte rest = rest

-- `if (sixBits === undefined) return null`
abbrev with_value : Option ℕ → (ℕ → Option (List ℕ)) → Option (List ℕ)
with_value none go_on = none
with_value (some six_bits) go_on = go_on six_bits

-- The loop over the characters of `cleaned`.
unfoldable pub decode_from : ℕ → ℕ → List ℕ → Option (List ℕ)
unfolding lookup
decode_from buffer bits [] = some []
decode_from buffer bits (ch ∷ chars) =
    if ch == b'='
    then some []
    else with_value (lookup ch) (λ (six_bits : ℕ).
      let buffer' = shift_in buffer six_bits in
      let full = leb 8 (bits + 6) in
      let bits' = if full then bits + 6 - 8 else bits + 6 in
      push_if full (shift_right buffer' bits' % 256) (decode_from buffer' bits' chars))

unfoldable pub strict_base64_decode : List ℕ → Option (List ℕ)
unfolding decode_from padding_fits index_of
strict_base64_decode cleaned =
    if not (length cleaned % 4 == 0)
    then none
    else if any (λ (c : ℕ). not (is_base64 c)) cleaned
    then none
    else if not (padding_fits cleaned (index_of b'=' cleaned))
    then none
    else decode_from 0 0 cleaned

abbrev is_hex_digit : ℕ → Bool
is_hex_digit c = in_range b'0' b'9' c || in_range b'a' b'f' c || in_range b'A' b'F' c

-- `/^0[xX][0-9a-fA-F]+$/`
unfoldable pub is_hex_literal : List ℕ → Bool
is_hex_literal (z ∷ x ∷ d ∷ digits) =
    z == b'0'
    && (x == b'x' || x == b'X')
    && not (any (λ (c : ℕ). not (is_hex_digit c)) (d ∷ digits))
is_hex_literal _ = false
