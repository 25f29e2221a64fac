-- ===== src/Decoders/Tests.antt =====
-- Concrete runs of the decoders, and the theorems at concrete inputs.
use guard_core_ts.Base.{List, [], arith, false, none, refl, some, ℕ, ◌↔◌, ◌∷◌, ◌≡◌}
use guard_core_ts.Decoders.Utf8.{decode_ignore_from, sequence_at, utf8_decode_ignore}
use guard_core_ts.Decoders.Throws.{MeetsF4, utf8_decode_ignore-throws_iff}
use guard_core_ts.Decoders.Escapes.{
  decode_hex_escapes, decode_overlong_sequence_at, decode_overlong_utf8_percent_runs, hex_digits,
  hex_value, lenient_from, lenient_overlong_utf8_decode, overlong_lead_specs, percent_runs_from,
  replace_escapes, replace_run,
}
use guard_core_ts.Decoders.Overlong.{three, Form, disguise, lenient_overlong-disguise, one}
use guard_core_ts.Decoders.Unquote.{py_unquote, py_unquote-ascii, quote}

-- U+0100 comes out as U+0180: the mark of the second byte stays in the code.
decode_two_bytes : utf8_decode_ignore (0xc4 ∷ 0x80 ∷ []) ≡ some (0x180 ∷ [])
unfolding utf8_decode_ignore decode_ignore_from sequence_at
decode_two_bytes = refl

-- U+4F60 comes out as U+6F60.
decode_three_bytes : utf8_decode_ignore (0xe4 ∷ 0xbd ∷ 0xa0 ∷ []) ≡ some (0x6f60 ∷ [])
unfolding utf8_decode_ignore decode_ignore_from sequence_at
decode_three_bytes = refl

-- A byte that starts nothing is dropped.
decode_stray : utf8_decode_ignore (b'a' ∷ 0xff ∷ b'b' ∷ []) ≡ some (b'a' ∷ b'b' ∷ [])
unfolding utf8_decode_ignore decode_ignore_from sequence_at
decode_stray = refl

decode_escape :
    decode_hex_escapes (b'a' ∷ 0x5c ∷ b'x' ∷ b'4' ∷ b'1' ∷ b'b' ∷ []) ≡ b'a' ∷ b'A' ∷ b'b' ∷ []
unfolding decode_hex_escapes replace_escapes hex_digits hex_value
decode_escape = refl

-- An overlong slash.
decode_overlong_slash : lenient_overlong_utf8_decode (0xc0 ∷ 0xaf ∷ []) ≡ b'/' ∷ []
unfolding lenient_overlong_utf8_decode lenient_from decode_overlong_sequence_at overlong_lead_specs
decode_overlong_slash = refl

-- `%C0%AF`, which is no UTF-8.
decode_overlong_run :
    decode_overlong_utf8_percent_runs
      (λ (raw : List ℕ). false)
      (b'a' ∷ b'%' ∷ b'C' ∷ b'0' ∷ b'%' ∷ b'A' ∷ b'F' ∷ b'b' ∷ [])
    ≡ b'a' ∷ b'/' ∷ b'b' ∷ []
unfolding decode_overlong_utf8_percent_runs percent_runs_from replace_run
    lenient_overlong_utf8_decode lenient_from decode_overlong_sequence_at overlong_lead_specs
    hex_digits hex_value
decode_overlong_run = refl

abbrev plane_16 : List ℕ
plane_16 = b'a' ∷ 0xf4 ∷ 0x80 ∷ 0x80 ∷ 0x80 ∷ []

utf8_decode_ignore-throws_iff_example : (utf8_decode_ignore plane_16 ≡ none) ↔ MeetsF4 plane_16
utf8_decode_ignore-throws_iff_example = utf8_decode_ignore-throws_iff plane_16

py_unquote-ascii_example : py_unquote (quote (b'.' ∷ b'/' ∷ [])) ≡ some (b'.' ∷ b'/' ∷ [])
py_unquote-ascii_example = py_unquote-ascii (b'.' ∷ b'/' ∷ []) (omega arith, (omega arith, tt))

-- `./` with an overlong slash.
abbrev hidden_slash : List (Form × ℕ)
hidden_slash = (one, b'.') ∷ (three, b'/') ∷ []

lenient_overlong-disguise_example :
    lenient_overlong_utf8_decode (disguise hidden_slash) ≡ b'.' ∷ b'/' ∷ []
lenient_overlong-disguise_example =
    lenient_overlong-disguise hidden_slash (omega arith, (omega arith, tt))
