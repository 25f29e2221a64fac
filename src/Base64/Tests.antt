-- ===== src/Base64/Tests.antt =====
-- Concrete runs of the base64 decoder, and the theorems at concrete inputs.
use guard_core_ts.Base.{
  List, Option, [], arith, length, none, refl, some, true, ℕ, ◌↔◌, ◌∷◌, ◌≡◌, ◌≤◌,
}
use guard_core_ts.Base64.Strict.{
  alphabet, decode_from, index_of, is_hex_literal, lookup, padding_fits, strict_base64_decode,
}
use guard_core_ts.Base64.RoundTrip.{encode}
use guard_core_ts.Base64.Strictness.{strict_base64_decode-encode}
use guard_core_ts.Base64.Shape.{IsPadded, padded_once}
use guard_core_ts.Base64.Exact.{DecodesExactly, strict_base64_decode-IsPadded}
use guard_core_ts.Base64.Gunzip.{Read, bounded_gunzip, chunk, collect, copy_out, finish, is_gzip}
use guard_core_ts.Base64.Bounded.{NoEmptyChunk}
use guard_core_ts.Base64.Prefix.{IsResult, bounded_gunzip_lem}
use guard_core_ts.Base64.Ratios.{code_points, points_after}
use guard_core_ts.Base64.Candidates.{Runtime, decode_base64_candidates}
use guard_core_ts.Base64.Budget.{candidates-opened}

-- `Hi!`, padded once, and without its padding.
decode_hi : strict_base64_decode (b'S' ∷ b'G' ∷ b'k' ∷ b'=' ∷ []) ≡ some (b'H' ∷ b'i' ∷ [])
unfolding strict_base64_decode decode_from lookup alphabet index_of padding_fits
decode_hi = refl

decode_unpadded : strict_base64_decode (b'S' ∷ b'G' ∷ b'k' ∷ []) ≡ none
unfolding strict_base64_decode
decode_unpadded = refl

hex_literal : is_hex_literal (b'0' ∷ b'x' ∷ b'1' ∷ b'f' ∷ []) ≡ true
unfolding is_hex_literal
hex_literal = refl

-- A pair of surrogates is one code point.
one_point : code_points (0xd83d ∷ 0xde00 ∷ b'a' ∷ []) ≡ 0x1f600 ∷ b'a' ∷ []
unfolding code_points points_after
one_point = refl

abbrev hi_text : List ℕ
hi_text = b'S' ∷ b'G' ∷ b'k' ∷ b'=' ∷ []

abbrev four_bytes : List ℕ
four_bytes = 0 ∷ 127 ∷ 255 ∷ 16 ∷ []

strict_base64_decode-encode_example : strict_base64_decode (encode four_bytes) ≡ some four_bytes
strict_base64_decode-encode_example =
    strict_base64_decode-encode four_bytes
      (omega arith, (omega arith, (omega arith, (omega arith, tt))))

strict_base64_decode-IsPadded_example : IsPadded hi_text ↔ DecodesExactly hi_text
strict_base64_decode-IsPadded_example = strict_base64_decode-IsPadded hi_text

hi_text-IsPadded : IsPadded hi_text
hi_text-IsPadded =
    (b'S' ∷ b'G' ∷ b'k' ∷ [], b'=' ∷ [], refl, (refl, (refl, (refl, tt))), padded_once, refl)

-- A bomb: every read gives two more bytes.
abbrev bomb : List ℕ → ℕ → Read
bomb raw i = chunk (65 ∷ 65 ∷ [])

abbrev gzip_bytes : List ℕ
gzip_bytes = 0x1f ∷ 0x8b ∷ 8 ∷ []

bomb_is_cut : bounded_gunzip bomb 4 gzip_bytes 3 ≡ some (some (65 ∷ 65 ∷ 65 ∷ []))
unfolding bounded_gunzip is_gzip collect finish copy_out
bomb_is_cut = refl

bomb_has-NoEmptyChunk : NoEmptyChunk (bomb gzip_bytes)
bomb_has-NoEmptyChunk i value e = ground arith

bounded_gunzip_lem_example :
    (out : Option (List ℕ)) × (bounded_gunzip bomb 8193 gzip_bytes 8192 ≡ some out)
    × IsResult (bomb gzip_bytes) gzip_bytes 8192 out
bounded_gunzip_lem_example = bounded_gunzip_lem bomb gzip_bytes 8192 bomb_has-NoEmptyChunk

-- A runtime whose decoders keep bytes as they are and whose one candidate is the whole content.
abbrev runtime : Runtime
runtime = record {
  decode_fatal = λ (bytes : List ℕ). some bytes;
  decode_replacing = λ (bytes : List ℕ). bytes;
  inflate = bomb;
  base64_matches = λ (text : List ℕ). (0, length text) ∷ [];
  run_matches = λ (text : List ℕ). [];
  sub_floor_matches = λ (text : List ℕ). [];
}

candidates-opened_example :
    length (decode_base64_candidates runtime (encode gzip_bytes) none).1.opened ≤ 8
candidates-opened_example = candidates-opened runtime (encode gzip_bytes)
