-- ===== src/Decoders/Escapes.antt =====
-- packages/core/src/detection-engine/encoding-decoders.ts: the escapes of characters and the
-- overlong sequences. A text is the list of its code units. The expressions match a fixed form, or a
-- longest run of one, and are written as tests of the characters. Whether the strict `TextDecoder`
-- decodes some bytes is a parameter.
use guard_core_ts.Base.{
  Bool, List, Option, [], any, if◌then◌else◌, length, ltb, none, some, suc, take, zero, ℕ, ◌&&◌,
  ◌*◌, ◌++◌, ◌+◌, ◌-◌, ◌==◌, ◌||◌, ◌∷◌,
}
use mathlib.Core.Option
use Prim.Native.Nat.{bit_and, bit_or}
use guard_core_ts.Base64.Strict.{in_range}
use guard_core_ts.Base64.Ratios.{units}

-- The value of a hexadecimal digit.
unfoldable pub hex_value : ℕ → Option ℕ
hex_value c =
    if in_range b'0' b'9' c
    then some (c - b'0')
    else if in_range b'a' b'f' c
    then some (c - b'a' + 10)
    else if in_range b'A' b'F' c
    then some (c - b'A' + 10)
    else none

-- `Number.parseInt(hex, 16)` of `n` digits at the head of a text, none where they are not there.
unfoldable pub hex_digits : ℕ → ℕ → List ℕ → Option ℕ
unfolding hex_value
hex_digits zero value text = some value
hex_digits (suc n) value [] = none
hex_digits (suc n) value (c ∷ text) = elim (hex_value c) [
  | none ↦ none
  | some d ↦ hex_digits n (value * 16 + d) text
]

abbrev backslash : ℕ
backslash = 0x5c

-- `\x` and two digits
abbrev hex_escape : List ℕ → Option ℕ
hex_escape (a ∷ b ∷ text) = if a == backslash && b == b'x' then hex_digits 2 0 text else none
hex_escape _ = none

-- `\u` and four digits
abbrev unicode_escape : List ℕ → Option ℕ
unicode_escape (a ∷ b ∷ text) = if a == backslash && b == b'u' then hex_digits 4 0 text else none
unicode_escape _ = none

-- A backslash and two digits
abbrev ldap_hex_escape : List ℕ → Option ℕ
ldap_hex_escape (a ∷ text) = if a == backslash then hex_digits 2 0 text else none
ldap_hex_escape _ = none

-- `%u`, of either case, and four digits
abbrev percent_u_escape : List ℕ → Option ℕ
percent_u_escape (a ∷ b ∷ text) =
    if a == b'%' && (b == b'u' || b == b'U') then hex_digits 4 0 text else none
percent_u_escape _ = none

-- `content.replace(expression, ...)`: `skip` characters of a match are still to pass.
unfoldable pub replace_escapes : (List ℕ → Option ℕ) → ℕ → ℕ → List ℕ → List ℕ
replace_escapes escape width skip [] = []
replace_escapes escape width (suc skip) (c ∷ text) = replace_escapes escape width skip text
replace_escapes escape width zero (c ∷ text) = elim (escape (c ∷ text)) [
  | none ↦ c ∷ replace_escapes escape width zero text
  | some code ↦ code ∷ replace_escapes escape width (width - 1) text
]

unfoldable pub decode_hex_escapes : List ℕ → List ℕ
unfolding replace_escapes hex_digits
decode_hex_escapes content = replace_escapes hex_escape 4 0 content

unfoldable decode_unicode_escapes : List ℕ → List ℕ
unfolding replace_escapes hex_digits
decode_unicode_escapes content = replace_escapes unicode_escape 6 0 content

unfoldable decode_ldap_hex_escapes : List ℕ → List ℕ
unfolding replace_escapes hex_digits
decode_ldap_hex_escapes content = replace_escapes ldap_hex_escape 3 0 content

unfoldable decode_percent_u_escapes : List ℕ → List ℕ
unfolding replace_escapes hex_digits
decode_percent_u_escapes content = replace_escapes percent_u_escape 6 0 content

-- `OVERLONG_LEAD_SPECS`: the length, the mask and the bounds of the first continuation.
pub record LeadSpec : Type 0 where
  pub sequence_length : ℕ
  lead_mask : ℕ
  first_min : ℕ
  first_max : ℕ

abbrev pub spec : ℕ → ℕ → ℕ → ℕ → LeadSpec
spec n mask lo hi = record { sequence_length = n; lead_mask = mask; first_min = lo; first_max = hi }

unfoldable pub overlong_lead_specs : ℕ → Option LeadSpec
overlong_lead_specs lead =
    if lead == 0xc0 || lead == 0xc1
    then some (spec 2 0x1f 0x80 0xbf)
    else if lead == 0xe0
    then some (spec 3 0x0f 0x80 0x9f)
    else if lead == 0xf0
    then some (spec 4 0x07 0x80 0x8f)
    else none

-- `codepoint = (codepoint << 6) | (byte & 0x3f)`, over the continuations.
abbrev combine : ℕ → List ℕ → ℕ
combine codepoint [] = codepoint
combine codepoint (byte ∷ bytes) = combine (bit_or (codepoint * 64) (bit_and byte 0x3f)) bytes

abbrev not_continuation : ℕ → Bool
not_continuation byte = ltb byte 0x80 || ltb 0xbf byte

-- The tests on the continuations, and the code point.
abbrev pub overlong_code : ℕ → LeadSpec → List ℕ → Option ℕ
overlong_code lead s [] = none
overlong_code lead s (first ∷ others) =
    if ltb first s.first_min || ltb s.first_max first
    then none
    else if any not_continuation others
    then none
    else some (combine (bit_and lead s.lead_mask) (first ∷ others))

abbrev pub read_sequence : ℕ → List ℕ → Option LeadSpec → Option (ℕ × ℕ)
read_sequence lead bytes none = none
read_sequence lead bytes (some s) =
    if ltb (suc (length bytes)) s.sequence_length
    then none
    else Option.map (λ (code : ℕ). (code, s.sequence_length))
        (overlong_code lead s (take (s.sequence_length - 1) bytes))

-- `decodeOverlongSequenceAt`, of the byte at `index` and those after it.
unfoldable pub decode_overlong_sequence_at : ℕ → List ℕ → Option (ℕ × ℕ)
unfolding overlong_lead_specs
decode_overlong_sequence_at lead bytes = read_sequence lead bytes (overlong_lead_specs lead)

-- The branches of the loop: how many bytes are to pass, and what is pushed.
abbrev pub push_decoded : Option (ℕ × ℕ) → ℕ → (ℕ → List ℕ) → List ℕ
push_decoded (some (code, n)) b go_on = units code ++ go_on (n - 1)
push_decoded none b go_on = if ltb b 0x80 then b ∷ go_on 0 else go_on 0

-- The loop of `lenientOverlongUtf8Decode`: `skip` bytes of a sequence are still to pass.
unfoldable pub lenient_from : ℕ → List ℕ → List ℕ
unfolding decode_overlong_sequence_at
lenient_from skip [] = []
lenient_from (suc skip) (b ∷ raw) = lenient_from skip raw
lenient_from zero (b ∷ raw) =
    push_decoded (decode_overlong_sequence_at b raw) b (λ (skip : ℕ). lenient_from skip raw)

unfoldable pub lenient_overlong_utf8_decode : List ℕ → List ℕ
unfolding lenient_from
lenient_overlong_utf8_decode raw = lenient_from zero raw

-- `%` and two digits
abbrev percent_byte : List ℕ → Option ℕ
percent_byte (a ∷ text) = if a == b'%' then hex_digits 2 0 text else none
percent_byte _ = none

-- What replaces a run of such bytes: the run, where its bytes are UTF-8.
unfoldable pub replace_run : (List ℕ → Bool) → List ℕ → List ℕ → List ℕ
unfolding lenient_overlong_utf8_decode
replace_run is_utf8 raw run = if is_utf8 raw then run else lenient_overlong_utf8_decode raw

-- A longest run is collected, with its bytes in `raw`; an empty run replaces nothing.
unfoldable pub percent_runs_from : (List ℕ → Bool) → List ℕ → List ℕ → ℕ → List ℕ → List ℕ
unfolding replace_run hex_digits
percent_runs_from is_utf8 raw run skip [] = replace_run is_utf8 raw run
percent_runs_from is_utf8 raw run (suc skip) (c ∷ text) =
    percent_runs_from is_utf8 raw run skip text
percent_runs_from is_utf8 raw run zero (c ∷ text) = elim (percent_byte (c ∷ text)) [
  | some b ↦ percent_runs_from is_utf8 (raw ++ (b ∷ [])) (run ++ take 3 (c ∷ text)) 2 text
  | none ↦ replace_run is_utf8 raw run ++ (c ∷ percent_runs_from is_utf8 [] [] zero text)
]

-- `decodeOverlongUtf8PercentRuns`; the parameter is whether the strict `TextDecoder` decodes bytes.
unfoldable pub decode_overlong_utf8_percent_runs : (List ℕ → Bool) → List ℕ → List ℕ
unfolding percent_runs_from
decode_overlong_utf8_percent_runs is_utf8 content = percent_runs_from is_utf8 [] [] zero content
