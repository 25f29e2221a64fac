-- ===== src/Decoders/Utf8.antt =====
-- packages/core/src/detection-engine/encoding-decoders.ts: `utf8DecodeIgnore`. The bytes from `index`
-- on are a list; a byte beyond its end is read as 0, of which, as of `undefined`, no test holds.
use guard_core_ts.Base.{
  Bool, List, Option, [], drop, if◌then◌else◌, leb, length, ltb, none, some, suc, zero, ℕ, ◌%◌,
  ◌&&◌, ◌*◌, ◌++◌, ◌==◌, ◌||◌, ◌∷◌,
}
use mathlib.Core.Option
use Prim.Native.Nat.{bit_and, bit_or}
use guard_core_ts.Base64.Strict.{in_range}
use guard_core_ts.Base64.Ratios.{units}

abbrev pub byte_at : ℕ → List ℕ → ℕ
byte_at i [] = 0
byte_at zero (b ∷ bytes) = b
byte_at (suc i) (b ∷ bytes) = byte_at i bytes

-- `isCont`
abbrev pub is_cont : ℕ → Bool
is_cont b = in_range 0x80 0xbf b

-- `char` with `consumed`, where there is one, or the RangeError of `String.fromCodePoint`.
pub data Sequence : Type 0 where
  invalid : Sequence
  char : List ℕ → ℕ → Sequence
  range_error : Sequence

-- `String.fromCharCode`
abbrev from_char_code : ℕ → ℕ → Sequence
from_char_code code consumed = char (code % 65536 ∷ []) consumed

-- `String.fromCodePoint`
abbrev pub from_code_point : ℕ → ℕ → Sequence
from_code_point cp consumed = if leb cp 0x10ffff then char (units cp) consumed else range_error

-- `((b0 & 0x1f) << 6) | b1`
abbrev two_byte_code : ℕ → ℕ → ℕ
two_byte_code b0 b1 = bit_or (bit_and b0 0x1f * 64) b1

-- `((b0 & 0x0f) << 12) | (b1 << 6) | (b2 & 0x3f)`
abbrev three_byte_code : ℕ → ℕ → ℕ → ℕ
three_byte_code b0 b1 b2 = bit_or (bit_or (bit_and b0 0x0f * 4096) (b1 * 64)) (bit_and b2 0x3f)

-- `((b0 & 0x07) << 18) | (b1 << 12) | (b2 << 6) | (b3 & 0x3f)`
abbrev pub four_byte_code : ℕ → ℕ → ℕ → ℕ → ℕ
four_byte_code b0 b1 b2 b3 =
    bit_or (bit_or (bit_or (bit_and b0 0x07 * 262144) (b1 * 4096)) (b2 * 64)) (bit_and b3 0x3f)

-- The tests of the sequences of four bytes.
abbrev pub starts_four : ℕ → ℕ → ℕ → ℕ → Bool
starts_four b0 b1 b2 b3 =
    b0 == 0xf0 && is_cont b1 && leb 0x90 b1 && is_cont b2 && is_cont b3
    || (b0 == 0xf1 || b0 == 0xf2 || b0 == 0xf3) && is_cont b1 && is_cont b2 && is_cont b3
    || b0 == 0xf4 && is_cont b1 && leb b1 0x8f && is_cont b2 && is_cont b3

-- The tests of the sequences of three bytes.
abbrev pub starts_three : ℕ → ℕ → ℕ → Bool
starts_three b0 b1 b2 =
    b0 == 0xe0 && is_cont b1 && leb 0xa0 b1 && is_cont b2
    || (in_range 0xe1 0xec b0 || b0 == 0xee || b0 == 0xef) && is_cont b1 && is_cont b2
    || b0 == 0xed && is_cont b1 && leb b1 0x9f && is_cont b2

-- The chain of tests on the bytes at `index`.
abbrev pub sequence_of : ℕ → ℕ → ℕ → ℕ → Sequence
sequence_of b0 b1 b2 b3 =
    if ltb b0 0x80
    then from_char_code b0 1
    else if in_range 0xc2 0xdf b0 && is_cont b1
    then from_char_code (two_byte_code b0 b1) 2
    else if starts_three b0 b1 b2
    then from_char_code (three_byte_code b0 b1 b2) 3
    else if starts_four b0 b1 b2 b3
    then from_code_point (four_byte_code b0 b1 b2 b3) 4
    else invalid

unfoldable pub sequence_at : List ℕ → Sequence
sequence_at bytes =
    sequence_of (byte_at 0 bytes) (byte_at 1 bytes) (byte_at 2 bytes) (byte_at 3 bytes)

-- `result += char; index += consumed`, or the next byte, with what the rest of the loop gives.
abbrev pub after_sequence : Sequence → (ℕ → Option (List ℕ)) → Option (List ℕ)
after_sequence invalid go_on = go_on 1
after_sequence (char text consumed) go_on =
    Option.map (λ (rest : List ℕ). text ++ rest) (go_on consumed)
after_sequence range_error go_on = none

-- The loop from `index` on; none where it throws.
unfoldable pub decode_ignore_from : ℕ → List ℕ → Option (List ℕ)
unfolding sequence_at
decode_ignore_from zero bytes = some []
decode_ignore_from (suc fuel) [] = some []
decode_ignore_from (suc fuel) (b ∷ bytes) =
    after_sequence (sequence_at (b ∷ bytes))
      (λ (consumed : ℕ). decode_ignore_from fuel (drop consumed (b ∷ bytes)))

-- At most a step for each byte.
unfoldable pub utf8_decode_ignore : List ℕ → Option (List ℕ)
unfolding decode_ignore_from
utf8_decode_ignore bytes = decode_ignore_from (length bytes) bytes
