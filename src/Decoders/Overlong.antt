-- ===== src/Decoders/Overlong.antt =====
-- packages/core/src/detection-engine/encoding-decoders.ts: what `lenientOverlongUtf8Decode` makes of
-- characters that are hidden in overlong sequences.
use guard_core_ts.Base.{
  All, Bool, List, Option, [], ap, arith, false, length, length-append, ltb, lt→ltb, none, refl,
  some, suc, take, take-length, true, zero, ℕ, ◌%◌, ◌++◌, ◌+◌, ◌-◌, ◌/◌, ◌<◌, ◌==◌, ◌||◌, ◌∙◌, ◌∷◌,
  ◌≡◌,
}
use guard_core_ts.Base64.RoundTrip.{all_below, all_below_lem}
use guard_core_ts.Base64.Ratios.{units}
use guard_core_ts.Decoders.Escapes.{
  LeadSpec, decode_overlong_sequence_at, lenient_from, lenient_overlong_utf8_decode, overlong_code,
  overlong_lead_specs, push_decoded, read_sequence, spec,
}
use guard_core_ts.Decoders.Unquote.{IsAscii}

-- The count of bytes that a character is written in.
pub data Form : Type 0 where
  one two three four : Form

-- An ASCII character in a form; all but the first are overlong.
abbrev bytes_of : Form → ℕ → List ℕ
bytes_of one c = c ∷ []
bytes_of two c = (0xc0 + c / 64) ∷ (0x80 + c % 64) ∷ []
bytes_of three c = 0xe0 ∷ (0x80 + c / 64) ∷ (0x80 + c % 64) ∷ []
bytes_of four c = 0xf0 ∷ 0x80 ∷ (0x80 + c / 64) ∷ (0x80 + c % 64) ∷ []

abbrev pub disguise : List (Form × ℕ) → List ℕ
disguise [] = []
disguise ((f, c) ∷ text) = bytes_of f c ++ disguise text

abbrev characters : List (Form × ℕ) → List ℕ
characters [] = []
characters ((f, c) ∷ text) = c ∷ characters text

abbrev is_code : Option ℕ → ℕ → Bool
is_code none c = false
is_code (some n) c = n == c

abbrev two_read : ℕ → Bool
two_read c =
    is_code (overlong_code (0xc0 + c / 64) (spec 2 0x1f 0x80 0xbf) ((0x80 + c % 64) ∷ [])) c

abbrev three_read : ℕ → Bool
three_read c =
    is_code (overlong_code 0xe0 (spec 3 0x0f 0x80 0x9f) ((0x80 + c / 64) ∷ (0x80 + c % 64) ∷ [])) c

abbrev four_read : ℕ → Bool
four_read c =
    is_code
      (overlong_code 0xf0 (spec 4 0x07 0x80 0x8f) (0x80 ∷ (0x80 + c / 64) ∷ (0x80 + c % 64) ∷ [])) c

all_two : all_below two_read 128 ≡ true
all_two = refl

all_three : all_below three_read 128 ≡ true
all_three = refl

all_four : all_below four_read 128 ≡ true
all_four = refl

is_code-some : (o : Option ℕ) (c : ℕ) → is_code o c ≡ true → o ≡ some c
is_code-some none c h = ground arith
is_code-some (some n) c h = ground arith

-- A sequence that its lead and its continuations make up is read, whatever follows.
sequence-read :
    (lead c : ℕ) (s : LeadSpec) (bytes rest : List ℕ)
    → overlong_lead_specs lead ≡ some s
    → s.sequence_length ≡ suc (length bytes)
    → overlong_code lead s bytes ≡ some c
    → decode_overlong_sequence_at lead (bytes ++ rest) ≡ some (c, suc (length bytes))
unfolding decode_overlong_sequence_at
sequence-read lead c s bytes rest es el ec =
    let long : ltb (suc (length (bytes ++ rest))) s.sequence_length ≡ false =
      ground (arith, el, length-append bytes rest) in
    let cut : s.sequence_length - 1 ≡ length bytes = omega (arith, el) in
    let first : take (s.sequence_length - 1) (bytes ++ rest) ≡ bytes =
      ap (λ (n : ℕ). take n (bytes ++ rest)) cut ∙ take-length bytes rest in
    let read : read_sequence lead (bytes ++ rest) (some s) ≡ some (c, s.sequence_length) =
      simp (long, first, ec) in
    ap (read_sequence lead (bytes ++ rest)) es ∙ read ∙ ap (λ (n : ℕ). some (c, n)) el

-- The bytes of a sequence that are still to pass are passed.
skips : (bytes rest : List ℕ) → lenient_from (length bytes) (bytes ++ rest) ≡ lenient_from zero rest
unfolding lenient_from
skips [] rest = refl
skips (b ∷ bytes) rest = skips bytes rest

overlong-read :
    (lead c : ℕ) (s : LeadSpec) (bytes rest : List ℕ)
    → overlong_lead_specs lead ≡ some s
    → s.sequence_length ≡ suc (length bytes)
    → overlong_code lead s bytes ≡ some c
    → c < 128
    → lenient_from zero (lead ∷ (bytes ++ rest)) ≡ c ∷ lenient_from zero rest
unfolding lenient_from
overlong-read lead c s bytes rest es el ec lt =
    let small : ltb c 0x10000 ≡ true = lt→ltb c 0x10000 (omega (arith, lt)) in
    let skip : suc (length bytes) - 1 ≡ length bytes = omega arith in
    ap (λ (o : Option (ℕ × ℕ)). push_decoded o lead (λ (n : ℕ). lenient_from n (bytes ++ rest)))
      (sequence-read lead c s bytes rest es el ec)
    ∙ ap (λ (n : ℕ). units c ++ lenient_from n (bytes ++ rest)) skip
    ∙ ap (◌++◌ (units c)) (skips bytes rest)
    ∙ rw small refl

lenient_from-one :
    (c : ℕ) (rest : List ℕ) → c < 128 → lenient_from zero (c ∷ rest) ≡ c ∷ lenient_from zero rest
unfolding lenient_from decode_overlong_sequence_at overlong_lead_specs
lenient_from-one c rest lt =
    let e1 : (c == 0xc0 || c == 0xc1) ≡ false = ground arith in
    let e2 : (c == 0xe0) ≡ false = ground arith in
    let e3 : (c == 0xf0) ≡ false = ground arith in
    let low : ltb c 0x80 ≡ true = lt→ltb c 0x80 lt in
    let specs : overlong_lead_specs c ≡ none = simp (e1, e2, e3) in
    ap
      (λ (o : Option LeadSpec).
        push_decoded (read_sequence c rest o) c (λ (skip : ℕ). lenient_from skip rest))
      specs
    ∙ rw low refl

lenient_from-form :
    (f : Form) (c : ℕ) (rest : List ℕ)
    → c < 128
    → lenient_from zero (bytes_of f c ++ rest) ≡ c ∷ lenient_from zero rest
unfolding overlong_lead_specs
lenient_from-form one c rest lt = lenient_from-one c rest lt
lenient_from-form two c rest lt =
    let lead : (0xc0 + c / 64 == 0xc0 || 0xc0 + c / 64 == 0xc1) ≡ true = ground arith in
    overlong-read (0xc0 + c / 64) c (spec 2 0x1f 0x80 0xbf) ((0x80 + c % 64) ∷ []) rest
      (rw lead refl) refl (is_code-some _ c (all_below_lem two_read 128 c all_two lt)) lt
lenient_from-form three c rest lt =
    overlong-read 0xe0 c (spec 3 0x0f 0x80 0x9f) ((0x80 + c / 64) ∷ (0x80 + c % 64) ∷ []) rest refl
      refl (is_code-some _ c (all_below_lem three_read 128 c all_three lt)) lt
lenient_from-form four c rest lt =
    overlong-read 0xf0 c (spec 4 0x07 0x80 0x8f) (0x80 ∷ (0x80 + c / 64) ∷ (0x80 + c % 64) ∷ [])
      rest refl refl (is_code-some _ c (all_below_lem four_read 128 c all_four lt)) lt

-- A text of ASCII characters, each written as itself or in an overlong sequence of two, three or four
-- bytes, is what `lenientOverlongUtf8Decode` makes of these bytes.
pub lenient_overlong-disguise :
    (text : List (Form × ℕ))
    → All IsAscii (characters text)
    → lenient_overlong_utf8_decode (disguise text) ≡ characters text
unfolding lenient_overlong_utf8_decode lenient_from
lenient_overlong-disguise [] h = refl
lenient_overlong-disguise ((f, c) ∷ text) (lt, h) =
    lenient_from-form f c (disguise text) lt ∙ ap (◌∷◌ c) (lenient_overlong-disguise text h)
