-- ===== src/Base64/RoundTrip.antt =====
-- packages/core/src/detection-engine/base64-decode.ts: what `strictBase64Decode` makes of the base64
-- of any bytes, as RFC 4648 writes it.
use guard_core_ts.Base.{
  All, Bool, List, Option, [], ap, arith, false, if◌then◌else◌, leb, none, not, refl, some, suc,
  true, zero, ℕ, ◌%◌, ◌&&◌, ◌*◌, ◌+◌, ◌-◌, ◌/◌, ◌<◌, ◌==◌, ◌∙◌, ◌∷◌, ◌≡◌,
}
use guard_core_ts.Base64.Strict.{
  alphabet, decode_from, index_of, is_base64, lookup, push_if, shift_in, shift_right,
}
use mathlib.Core.Option

-- The character of six bits.
unfoldable pub symbol : ℕ → ℕ
symbol n =
    if leb 63 n
    then b'/'
    else if leb 62 n
    then b'+'
    else if leb 52 n
    then n - 4
    else if leb 26 n
    then n + 71
    else n + 65

-- Base64, by groups of three bytes.
unfoldable pub encode : List ℕ → List ℕ
encode [] = []
encode (a ∷ []) = symbol (a / 4) ∷ symbol (a % 4 * 16) ∷ b'=' ∷ b'=' ∷ []
encode (a ∷ b ∷ []) =
    symbol (a / 4) ∷ symbol (a % 4 * 16 + b / 16) ∷ symbol (b % 16 * 4) ∷ b'=' ∷ []
encode (a ∷ b ∷ c ∷ bytes) =
    symbol (a / 4)
    ∷ symbol (a % 4 * 16 + b / 16)
    ∷ symbol (b % 16 * 4 + c / 64)
    ∷ symbol (c % 64)
    ∷ encode bytes

abbrev pub IsByte : ℕ → Type 0
IsByte n = n < 256

-- A test that holds of all numbers below `n`.
abbrev pub all_below : (ℕ → Bool) → ℕ → Bool
all_below p zero = true
all_below p (suc n) = p n && all_below p n

pub all_below_lem : (p : ℕ → Bool) (n k : ℕ) → all_below p n ≡ true → k < n → p k ≡ true
all_below_lem p zero k h lt = ground arith
all_below_lem p (suc n) k h lt = ground (arith, all_below_lem p n k)

abbrev reads : ℕ → Bool
reads n =
    not (symbol n == b'=')
    && is_base64 (symbol n)
    && elim (lookup (symbol n)) [ none ↦ false | some m ↦ m == n ]

all_read : all_below reads 64 ≡ true
unfolding symbol lookup alphabet index_of
all_read = refl

symbol-reads : (n : ℕ) → n < 64 → reads n ≡ true
symbol-reads n lt = all_below_lem reads 64 n all_read lt

lookup-symbol : (n : ℕ) → n < 64 → lookup (symbol n) ≡ some n
lookup-symbol n lt = ground (arith, symbol-reads n)

pub symbol-is_base64 : (n : ℕ) → n < 64 → is_base64 (symbol n) ≡ true
symbol-is_base64 n lt = ground (arith, symbol-reads n)

pub symbol_no_pad : (n : ℕ) → n < 64 → (symbol n == b'=') ≡ false
symbol_no_pad n lt = ground (arith, symbol-reads n)

decode_from-symbol :
    (buffer bits n : ℕ) (chars : List ℕ)
    → n < 64
    → let bits' : ℕ = if leb 8 (bits + 6) then bits + 6 - 8 else bits + 6 in
      decode_from buffer bits (symbol n ∷ chars)
      ≡ push_if
          (leb 8 (bits + 6))
          (shift_right (shift_in buffer n) bits' % 256)
          (decode_from (shift_in buffer n) bits' chars)
unfolding decode_from
decode_from-symbol buffer bits n chars lt = simp (lookup-symbol n lt, symbol_no_pad n lt)

first_byte :
    (buffer a b : ℕ)
    → a < 256
    → b < 256
    → shift_in (shift_in buffer (a / 4)) (a % 4 * 16 + b / 16) / 16 % 256 ≡ a
first_byte buffer a b ha hb = omega arith

second_byte :
    (buffer a b c : ℕ)
    → b < 256
    → c < 256
    → shift_in (shift_in buffer (a % 4 * 16 + b / 16)) (b % 16 * 4 + c / 64) / 4 % 256 ≡ b
second_byte buffer a b c hb hc = omega arith

third_byte :
    (buffer b c : ℕ) → c < 256 → shift_in (shift_in buffer (b % 16 * 4 + c / 64)) (c % 64) % 256 ≡ c
third_byte buffer b c hc = omega arith

map_group :
    (x a y b z c : ℕ) (bytes : Option (List ℕ))
    → x ≡ a
    → y ≡ b
    → z ≡ c
    → Option.map (◌∷◌ x) (Option.map (◌∷◌ y) (Option.map (◌∷◌ z) bytes))
      ≡ Option.map (λ (rest : List ℕ). a ∷ b ∷ c ∷ rest) bytes
map_group x a y b z c none ex ey ez = refl
map_group x a y b z c (some bytes) ex ey ez = simp (ex, ey, ez)

-- The characters of two bytes, as far as they go.
decode_from-pair :
    (buffer a b : ℕ) (chars : List ℕ)
    → a < 256
    → b < 256
    → decode_from buffer 0 (symbol (a / 4) ∷ symbol (a % 4 * 16 + b / 16) ∷ chars)
      ≡ Option.map
          (◌∷◌ a)
          (decode_from (shift_in (shift_in buffer (a / 4)) (a % 4 * 16 + b / 16)) 4 chars)
decode_from-pair buffer a b chars ha hb =
    let x : ℕ = a / 4 in
    let y : ℕ = a % 4 * 16 + b / 16 in
    decode_from-symbol buffer 0 x (symbol y ∷ chars) (omega arith)
    ∙ decode_from-symbol (shift_in buffer x) 6 y chars (omega arith)
    ∙ ap (λ (n : ℕ). Option.map (◌∷◌ n) (decode_from (shift_in (shift_in buffer x) y) 4 chars))
        (first_byte buffer a b ha hb)

-- A group of four characters is its three bytes, whatever the buffer held.
decode_from-group :
    (buffer a b c : ℕ) (chars : List ℕ)
    → a < 256
    → b < 256
    → c < 256
    → (buffer' : ℕ) × (decode_from buffer 0 (
          symbol (a / 4)
          ∷ symbol (a % 4 * 16 + b / 16)
          ∷ symbol (b % 16 * 4 + c / 64)
          ∷ symbol (c % 64)
          ∷ chars)
        ≡ Option.map (λ (rest : List ℕ). a ∷ b ∷ c ∷ rest) (decode_from buffer' 0 chars))
decode_from-group buffer a b c chars ha hb hc =
    let x : ℕ = shift_in (shift_in buffer (a / 4)) (a % 4 * 16 + b / 16) in
    let y : ℕ = shift_in x (b % 16 * 4 + c / 64) in
    let z : ℕ = shift_in y (c % 64) in
    let tail = symbol (c % 64) ∷ chars in
    let third = decode_from-symbol x 4 (b % 16 * 4 + c / 64) tail (omega arith) in
    let fourth = decode_from-symbol y 2 (c % 64) chars (omega arith) in
    (
      z,
      decode_from-pair buffer a b (symbol (b % 16 * 4 + c / 64) ∷ tail) ha hb
          ∙ ap (Option.map (◌∷◌ a)) (third ∙ ap (Option.map (◌∷◌ (y / 4 % 256))) fourth)
          ∙ map_group a a (y / 4 % 256) b (z % 256) c (decode_from z 0 chars) refl
              (second_byte (shift_in buffer (a / 4)) a b c hb hc) (third_byte x b c hc),
    )

decode_from-pad :
    (buffer bits : ℕ) (chars : List ℕ) → decode_from buffer bits (b'=' ∷ chars) ≡ some []
unfolding decode_from
decode_from-pad buffer bits chars = refl

decode_from-one :
    (buffer a : ℕ)
    → a < 256
    → decode_from buffer 0 (symbol (a / 4) ∷ symbol (a % 4 * 16) ∷ b'=' ∷ b'=' ∷ []) ≡ some (a ∷ [])
decode_from-one buffer a ha =
    let pads : List ℕ = b'=' ∷ b'=' ∷ [] in
    let e : a % 4 * 16 ≡ a % 4 * 16 + 0 / 16 = omega arith in
    ap (λ (n : ℕ). decode_from buffer 0 (symbol (a / 4) ∷ symbol n ∷ pads)) e
    ∙ decode_from-pair buffer a 0 pads ha (omega arith)
    ∙ ap (Option.map (◌∷◌ a)) (decode_from-pad _ 4 (b'=' ∷ []))

decode_from-two :
    (buffer a b : ℕ)
    → a < 256
    → b < 256
    → decode_from buffer 0
        (symbol (a / 4) ∷ symbol (a % 4 * 16 + b / 16) ∷ symbol (b % 16 * 4) ∷ b'=' ∷ [])
      ≡ some (a ∷ b ∷ [])
decode_from-two buffer a b ha hb =
    let pads : List ℕ = b'=' ∷ [] in
    let e : b % 16 * 4 ≡ b % 16 * 4 + 0 / 64 = omega arith in
    let x : ℕ = shift_in (shift_in buffer (a / 4)) (a % 4 * 16 + b / 16) in
    let y : ℕ = shift_in x (b % 16 * 4 + 0 / 64) in
    ap
      (λ (n : ℕ).
        decode_from buffer 0 (symbol (a / 4) ∷ symbol (a % 4 * 16 + b / 16) ∷ symbol n ∷ pads))
      e
    ∙ decode_from-pair buffer a b (symbol (b % 16 * 4 + 0 / 64) ∷ pads) ha hb
    ∙ ap (Option.map (◌∷◌ a)) (
        decode_from-symbol x 4 (b % 16 * 4 + 0 / 64) pads (omega arith)
        ∙ ap (Option.map (◌∷◌ (y / 4 % 256))) (decode_from-pad y 2 [])
        ∙ ap (λ (n : ℕ). some (n ∷ []))
            (second_byte (shift_in buffer (a / 4)) a b 0 hb (omega arith)))

pub decode_from-encode :
    (buffer : ℕ) (bytes : List ℕ)
    → All IsByte bytes
    → decode_from buffer 0 (encode bytes) ≡ some bytes
unfolding decode_from encode
decode_from-encode buffer [] h = refl
decode_from-encode buffer (a ∷ []) (ha, h) = decode_from-one buffer a ha
decode_from-encode buffer (a ∷ b ∷ []) (ha, (hb, h)) = decode_from-two buffer a b ha hb
decode_from-encode buffer (a ∷ b ∷ c ∷ bytes) (ha, (hb, (hc, h))) =
    let (buffer', e) = decode_from-group buffer a b c (encode bytes) ha hb hc in
    e ∙ ap (Option.map (λ (rest : List ℕ). a ∷ b ∷ c ∷ rest)) (decode_from-encode buffer' bytes h)
