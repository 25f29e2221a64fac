-- ===== src/Decoders/Throws.antt =====
-- packages/core/src/detection-engine/encoding-decoders.ts: when `utf8DecodeIgnore` throws. The bytes
-- after the first are combined with their marks, `b1 << 12` and not `(b1 & 0x3f) << 12`, so that a
-- sequence led by 0xf4 gives a number above the largest code point.
use guard_core_ts.Base.{
  Bool, Bool-cases, List, Option, [], arith, drop, false, if_both, if_cases, inl, inr, leb, leb→le,
  length, length-drop, ltb, none, refl, some, subst, suc, true, zero, ℕ, ◌%◌, ◌&&◌, ◌*◌, ◌+◌, ◌-◌,
  ◌/◌, ◌<◌, ◌==◌, ◌↔◌, ◌∷◌, ◌≡◌, ◌≤◌, ◌⊎◌,
}
use mathlib.Core.Option
use Prim.Native.Nat.{bit_and, bit_or}
use guard_core_ts.Base64.RoundTrip.{all_below, all_below_lem}
use guard_core_ts.Base64.Strict.{in_range}
use guard_core_ts.Decoders.Utf8.{
  Sequence, after_sequence, byte_at, char, decode_ignore_from, four_byte_code, from_code_point,
  invalid, is_cont, range_error, sequence_at, sequence_of, starts_four, starts_three,
  utf8_decode_ignore,
}
use guard_core_ts.Decoders.Bits.{bit_or-le-sum, le-bit_or}

-- The two bytes that decide: the lead, and a continuation.
abbrev lead_code : ℕ → ℕ → ℕ
lead_code b0 b1 = bit_or (bit_and b0 0x07 * 262144) (b1 * 4096)

abbrev low_leads : ℕ → Bool
low_leads k = leb (lead_code (0xf0 + k / 64) (0x80 + k % 64)) 0xff000

low_leads_bounded : all_below low_leads 256 ≡ true
low_leads_bounded = refl

abbrev high_leads : ℕ → Bool
high_leads k = leb 0x180000 (lead_code 0xf4 (0x80 + k))

high_leads_bounded : all_below high_leads 64 ≡ true
high_leads_bounded = refl

lead_code-below :
    (b0 b1 : ℕ) → 0xf0 ≤ b0 → b0 < 0xf4 → 0x80 ≤ b1 → b1 ≤ 0xbf → lead_code b0 b1 ≤ 0xff000
lead_code-below b0 b1 lo hi lo1 hi1 =
    let k : ℕ = (b0 - 0xf0) * 64 + (b1 - 0x80) in
    let e0 : 0xf0 + k / 64 ≡ b0 = omega arith in
    let e1 : 0x80 + k % 64 ≡ b1 = omega arith in
    let h : low_leads k ≡ true = all_below_lem low_leads 256 k low_leads_bounded (omega arith) in
    subst (λ (x : ℕ). lead_code b0 x ≤ 0xff000) e1
      (subst (λ (x : ℕ). lead_code x (0x80 + k % 64) ≤ 0xff000) e0 (leb→le _ _ h))

lead_code-above : (b1 : ℕ) → 0x80 ≤ b1 → b1 ≤ 0xbf → 0x180000 ≤ lead_code 0xf4 b1
lead_code-above b1 lo hi =
    let e : 0x80 + (b1 - 0x80) ≡ b1 = omega arith in
    subst (λ (x : ℕ). 0x180000 ≤ lead_code 0xf4 x) e
      (leb→le _ _ (all_below_lem high_leads 64 (b1 - 0x80) high_leads_bounded (omega arith)))

and_mask : all_below (λ (b : ℕ). leb (bit_and b 0x3f) 0x3f) 256 ≡ true
and_mask = refl

four_byte_code-below :
    (b0 b1 b2 b3 : ℕ)
    → 0xf0 ≤ b0
    → b0 < 0xf4
    → is_cont b1 ≡ true
    → is_cont b2 ≡ true
    → is_cont b3 ≡ true
    → four_byte_code b0 b1 b2 b3 ≤ 0x10ffff
four_byte_code-below b0 b1 b2 b3 lo hi h1 h2 h3 =
    let l1 : (0x80 ≤ b1) × (b1 ≤ 0xbf) = ground arith in
    let l2 : b2 ≤ 0xbf = ground arith in
    let l3 : b3 < 256 = ground arith in
    let m : bit_and b3 0x3f ≤ 0x3f =
      leb→le _ _ (all_below_lem (λ (b : ℕ). leb (bit_and b 0x3f) 0x3f) 256 b3 and_mask l3) in
    let c : lead_code b0 b1 ≤ 0xff000 = lead_code-below b0 b1 lo hi l1.0 l1.1 in
    omega (
      arith,
      bit_or-le-sum (lead_code b0 b1) (b2 * 64),
      bit_or-le-sum (bit_or (lead_code b0 b1) (b2 * 64)) (bit_and b3 0x3f),
    )

four_byte_code-above : (b1 b2 b3 : ℕ) → is_cont b1 ≡ true → 0x10ffff < four_byte_code 0xf4 b1 b2 b3
four_byte_code-above b1 b2 b3 h =
    let l : (0x80 ≤ b1) × (b1 ≤ 0xbf) = ground arith in
    omega (
      arith,
      lead_code-above b1 l.0 l.1,
      le-bit_or (lead_code 0xf4 b1) (b2 * 64),
      le-bit_or (bit_or (lead_code 0xf4 b1) (b2 * 64)) (bit_and b3 0x3f),
    )

-- A sequence of four bytes led by 0xf4, as UTF-8 allows it.
abbrev is_f4_sequence : ℕ → ℕ → ℕ → ℕ → Bool
is_f4_sequence b0 b1 b2 b3 = b0 == 0xf4 && is_cont b1 && leb b1 0x8f && is_cont b2 && is_cont b3

-- How far the loop steps.
abbrev advance : Sequence → ℕ
advance invalid = 1
advance (char text consumed) = consumed
advance range_error = 1

-- Stepping through the bytes as the loop does, one comes to such a sequence.
pub data MeetsF4 : List ℕ → Type 0 where
  here :
      (b : ℕ) (bytes : List ℕ)
      → is_f4_sequence b (byte_at 0 bytes) (byte_at 1 bytes) (byte_at 2 bytes) ≡ true
      → MeetsF4 (b ∷ bytes)
  later :
      (b : ℕ) (bytes : List ℕ)
      → MeetsF4 (drop (advance (sequence_at (b ∷ bytes))) (b ∷ bytes))
      → MeetsF4 (b ∷ bytes)

f4-range_error :
    (b0 b1 b2 b3 : ℕ) → is_f4_sequence b0 b1 b2 b3 ≡ true → sequence_of b0 b1 b2 b3 ≡ range_error
f4-range_error b0 b1 b2 b3 h =
    let e : 0xf4 ≡ b0 = ground arith in
    let rest : is_f4_sequence 0xf4 b1 b2 b3 ≡ true = ground arith in
    let big : leb (four_byte_code 0xf4 b1 b2 b3) 0x10ffff ≡ false =
      ground (arith, four_byte_code-above b1 b2 b3) in
    subst (λ (b : ℕ). sequence_of b b1 b2 b3 ≡ range_error) e (simp (rest, big))

abbrev is_range_error : Sequence → Bool
is_range_error invalid = false
is_range_error (char text consumed) = false
is_range_error range_error = true

four-f4 :
    (b0 b1 b2 b3 : ℕ)
    → starts_four b0 b1 b2 b3 ≡ true
    → is_range_error (from_code_point (four_byte_code b0 b1 b2 b3) 4) ≡ true
    → is_f4_sequence b0 b1 b2 b3 ≡ true
four-f4 b0 b1 b2 b3 four err = elim (Bool-cases (b0 == 0xf4)) [
  | inl f4 ↦ ground arith
  | inr other ↦
      let parts : (0xf0 ≤ b0) × (b0 < 0xf4) = ground arith in
      let conts : (is_cont b1 ≡ true) × (is_cont b2 ≡ true) × (is_cont b3 ≡ true) = ground arith in
      let le = four_byte_code-below b0 b1 b2 b3 parts.0 parts.1 conts.0 conts.1 conts.2 in
      ground (arith, le, err)
]

range_error-f4 :
    (b0 b1 b2 b3 : ℕ)
    → is_range_error (sequence_of b0 b1 b2 b3) ≡ true
    → is_f4_sequence b0 b1 b2 b3 ≡ true
range_error-f4 b0 b1 b2 b3 =
    let P : Sequence → Type 0 =
      λ (s : Sequence). is_range_error s ≡ true → is_f4_sequence b0 b1 b2 b3 ≡ true in
    if_both P (ltb b0 0x80) (λ e. ground arith)
      (if_both P (in_range 0xc2 0xdf b0 && is_cont b1) (λ e. ground arith)
        (if_both P (starts_three b0 b1 b2) (λ e. ground arith)
          (if_cases P (starts_four b0 b1 b2 b3) (four-f4 b0 b1 b2 b3) (λ no_four e. ground arith))))

advance_pos : (b0 b1 b2 b3 : ℕ) → 1 ≤ advance (sequence_of b0 b1 b2 b3)
advance_pos b0 b1 b2 b3 =
    let P : Sequence → Type 0 = λ (s : Sequence). 1 ≤ advance s in
    let code : ℕ = four_byte_code b0 b1 b2 b3 in
    if_both P (ltb b0 0x80) (omega arith) (
      if_both P (in_range 0xc2 0xdf b0 && is_cont b1) (omega arith) (
        if_both P (starts_three b0 b1 b2) (omega arith) (
          if_both P (starts_four b0 b1 b2 b3)
            (if_both P (leb code 0x10ffff) (omega arith) (omega arith)) (omega arith))))

map-none : (f : List ℕ → List ℕ) (o : Option (List ℕ)) → Option.map f o ≡ none → o ≡ none
map-none f none h = refl
map-none f (some text) h = ground arith

after_none :
    (s : Sequence) (go_on : ℕ → Option (List ℕ))
    → after_sequence s go_on ≡ none
    → (is_range_error s ≡ true) ⊎ (go_on (advance s) ≡ none)
after_none invalid go_on h = inr h
after_none (char text consumed) go_on h = inr (map-none _ (go_on consumed) h)
after_none range_error go_on h = inl refl

none-after :
    (s : Sequence) (go_on : ℕ → Option (List ℕ))
    → go_on (advance s) ≡ none
    → after_sequence s go_on ≡ none
none-after invalid go_on h = h
none-after (char text consumed) go_on h = rw h refl
none-after range_error go_on h = refl

decode-MeetsF4 :
    (fuel : ℕ) (bytes : List ℕ)
    → length bytes ≤ fuel
    → decode_ignore_from fuel bytes ≡ none
    → MeetsF4 bytes
unfolding decode_ignore_from sequence_at
decode-MeetsF4 zero bytes le h = ground arith
decode-MeetsF4 (suc fuel) [] le h = ground arith
decode-MeetsF4 (suc fuel) (b ∷ bytes) le h =
    let b1 : ℕ = byte_at 0 bytes in
    let b2 : ℕ = byte_at 1 bytes in
    let b3 : ℕ = byte_at 2 bytes in
    let s : Sequence = sequence_of b b1 b2 b3 in
    let pos : 1 ≤ advance s = advance_pos b b1 b2 b3 in
    elim (after_none s _ h) [
      | inl e ↦ here b bytes (range_error-f4 b b1 b2 b3 e)
      | inr e ↦ later b bytes (
          decode-MeetsF4 fuel (drop (advance s) (b ∷ bytes))
            (omega (arith, le, pos, length-drop (advance s) (b ∷ bytes))) e)
    ]

MeetsF4-decode :
    (fuel : ℕ) (bytes : List ℕ)
    → length bytes ≤ fuel
    → MeetsF4 bytes
    → decode_ignore_from fuel bytes ≡ none
unfolding decode_ignore_from sequence_at
MeetsF4-decode zero _ le (here b bytes f4) = ground arith
MeetsF4-decode zero _ le (later b bytes m) = ground arith
MeetsF4-decode (suc fuel) _ le (here b bytes f4) =
    rw (f4-range_error b (byte_at 0 bytes) (byte_at 1 bytes) (byte_at 2 bytes) f4) refl
MeetsF4-decode (suc fuel) _ le (later b bytes m) =
    let s : Sequence = sequence_at (b ∷ bytes) in
    let pos : 1 ≤ advance s = advance_pos b (byte_at 0 bytes) (byte_at 1 bytes) (byte_at 2 bytes) in
    none-after s _ (
      MeetsF4-decode fuel (drop (advance s) (b ∷ bytes))
        (omega (arith, le, pos, length-drop (advance s) (b ∷ bytes))) m)

-- `utf8DecodeIgnore` throws exactly where it comes, stepping from sequence to sequence, to a sequence
-- of four bytes that UTF-8 allows and that is led by 0xf4.
pub utf8_decode_ignore-throws_iff :
    (bytes : List ℕ) → (utf8_decode_ignore bytes ≡ none) ↔ MeetsF4 bytes
unfolding utf8_decode_ignore
utf8_decode_ignore-throws_iff bytes = (
  decode-MeetsF4 (length bytes) bytes (omega arith),
  MeetsF4-decode (length bytes) bytes (omega arith),
)
