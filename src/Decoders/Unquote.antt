-- ===== src/Decoders/Unquote.antt =====
-- packages/core/src/detection-engine/encoding-decoders.ts: `pyUnquote` with `runToBytes`, and what it
-- makes of a text in which each byte is an escape. A longest run of printable characters is collected
-- in `run`; none is the RangeError of `utf8DecodeIgnore`.
use guard_core_ts.Base.{
  All, All-imp, Bool, List, Option, [], any, ap, append-nil, append_assoc, arith, drop, false,
  if◌then◌else◌, length, ltb, lt→ltb, map, none, not, refl, some, suc, sym, true, zero, ℕ, ◌%◌,
  ◌&&◌, ◌++◌, ◌+◌, ◌/◌, ◌<◌, ◌==◌, ◌∙◌, ◌∷◌, ◌≡◌, ◌≤◌,
}
use mathlib.Core.Option
use guard_core_ts.Base64.Strict.{in_range}
use guard_core_ts.Base64.RoundTrip.{IsByte, all_below, all_below_lem}
use guard_core_ts.Decoders.Utf8.{
  Sequence, after_sequence, byte_at, char, decode_ignore_from, sequence_at, sequence_of,
  utf8_decode_ignore,
}
use guard_core_ts.Decoders.Escapes.{hex_digits, hex_value}

abbrev is_printable : ℕ → Bool
is_printable c = in_range b' ' b'~' c

-- A character in front of the first piece.
abbrev on_first : ℕ → List (List ℕ) → List (List ℕ)
on_first c [] = (c ∷ []) ∷ []
on_first c (piece ∷ pieces) = (c ∷ piece) ∷ pieces

-- `run.split('%')`
unfoldable pieces_of : List ℕ → List (List ℕ)
pieces_of [] = [] ∷ []
pieces_of (c ∷ run) =
    let pieces = pieces_of run in if c == b'%' then [] ∷ pieces else on_first c pieces

abbrev escape_or_text : Option ℕ → List ℕ → List ℕ
escape_or_text (some byte) item = byte ∷ drop 2 item
escape_or_text none item = b'%' ∷ item

-- The bytes of a piece after a `%`.
unfoldable piece_bytes : List ℕ → List ℕ
unfolding hex_digits
piece_bytes item = escape_or_text (hex_digits 2 0 item) item

abbrev pieces_bytes : List (List ℕ) → List ℕ
pieces_bytes [] = []
pieces_bytes (item ∷ pieces) = piece_bytes item ++ pieces_bytes pieces

abbrev first_and_rest : List (List ℕ) → List ℕ
first_and_rest [] = []
first_and_rest (first ∷ rest) = first ++ pieces_bytes rest

unfoldable run_to_bytes : List ℕ → List ℕ
unfolding pieces_of piece_bytes
run_to_bytes run = first_and_rest (pieces_of run)

-- Two parts of the output, unless one threw.
abbrev then_append : Option (List ℕ) → Option (List ℕ) → Option (List ℕ)
then_append none rest = none
then_append (some text) rest = Option.map (λ (more : List ℕ). text ++ more) rest

-- A run is decoded when it ends; the other characters are kept.
unfoldable unquote_from : List ℕ → List ℕ → Option (List ℕ)
unfolding utf8_decode_ignore run_to_bytes
unquote_from run [] = utf8_decode_ignore (run_to_bytes run)
unquote_from run (c ∷ text) =
    let longer = unquote_from (run ++ (c ∷ [])) text in
    let rest = unquote_from [] text in
    if is_printable c
    then longer
    else then_append (utf8_decode_ignore (run_to_bytes run)) (Option.map (◌∷◌ c) rest)

unfoldable pub py_unquote : List ℕ → Option (List ℕ)
unfolding unquote_from
py_unquote content =
    if not (any (λ (c : ℕ). c == b'%') content) then some content else unquote_from [] content

abbrev hex_digit : ℕ → ℕ
hex_digit n = if ltb n 10 then n + 48 else n + 55

-- Every byte as an escape.
unfoldable pub quote : List ℕ → List ℕ
quote [] = []
quote (b ∷ bytes) = b'%' ∷ hex_digit (b / 16) ∷ hex_digit (b % 16) ∷ quote bytes

abbrev escaped : ℕ → List ℕ
escaped b = hex_digit (b / 16) ∷ hex_digit (b % 16) ∷ []

abbrev reads_byte : ℕ → Bool
reads_byte b =
    elim (hex_digits 2 0 (escaped b)) [ none ↦ false | some n ↦ n == b ]
    && not (hex_digit (b / 16) == b'%')
    && not (hex_digit (b % 16) == b'%')
    && is_printable (hex_digit (b / 16))
    && is_printable (hex_digit (b % 16))

all_bytes_read : all_below reads_byte 256 ≡ true
unfolding hex_digits hex_value
all_bytes_read = refl

byte-reads : (b : ℕ) → b < 256 → reads_byte b ≡ true
byte-reads b lt = all_below_lem reads_byte 256 b all_bytes_read lt

piece_bytes-escaped : (b : ℕ) → b < 256 → piece_bytes (escaped b) ≡ b ∷ []
unfolding piece_bytes
piece_bytes-escaped b lt =
    let e : hex_digits 2 0 (escaped b) ≡ some b = ground (arith, byte-reads b) in
    ap (λ (o : Option ℕ). escape_or_text o (escaped b)) e

pieces_of-quote :
    (bytes : List ℕ) → All IsByte bytes → pieces_of (quote bytes) ≡ [] ∷ map escaped bytes
unfolding pieces_of quote
pieces_of-quote [] h = refl
pieces_of-quote (b ∷ bytes) (lt, h) =
    let reads : reads_byte b ≡ true = byte-reads b lt in
    let e1 : (hex_digit (b / 16) == b'%') ≡ false = ground (arith, reads) in
    let e2 : (hex_digit (b % 16) == b'%') ≡ false = ground (arith, reads) in
    simp (e1, e2, pieces_of-quote bytes h)

pieces_bytes-escaped :
    (bytes : List ℕ) → All IsByte bytes → pieces_bytes (map escaped bytes) ≡ bytes
pieces_bytes-escaped [] h = refl
pieces_bytes-escaped (b ∷ bytes) (lt, h) =
    simp (piece_bytes-escaped b lt, pieces_bytes-escaped bytes h)

run_to_bytes-quote : (bytes : List ℕ) → All IsByte bytes → run_to_bytes (quote bytes) ≡ bytes
unfolding run_to_bytes
run_to_bytes-quote bytes h = simp (pieces_of-quote bytes h, pieces_bytes-escaped bytes h)

abbrev ArePrintable : List ℕ → Type 0
ArePrintable = All (λ (c : ℕ). is_printable c ≡ true)

quote-ArePrintable : (bytes : List ℕ) → All IsByte bytes → ArePrintable (quote bytes)
unfolding quote
quote-ArePrintable [] h = tt
quote-ArePrintable (b ∷ bytes) (lt, h) =
    let reads : reads_byte b ≡ true = byte-reads b lt in
    (refl, (ground (arith, reads), (ground (arith, reads), quote-ArePrintable bytes h)))

unquote_from-run :
    (run text : List ℕ)
    → ArePrintable text
    → unquote_from run text ≡ utf8_decode_ignore (run_to_bytes (run ++ text))
unfolding unquote_from
unquote_from-run run [] h =
    ap (λ (r : List ℕ). utf8_decode_ignore (run_to_bytes r)) (sym (append-nil run))
unquote_from-run run (c ∷ text) (p, h) = rw p (
    unquote_from-run (run ++ (c ∷ [])) text h
    ∙ ap (λ (r : List ℕ). utf8_decode_ignore (run_to_bytes r)) (append_assoc run (c ∷ []) text))

-- Of a text in which each byte is written as an escape, `pyUnquote` makes what `utf8DecodeIgnore`
-- makes of the bytes.
py_unquote-quote :
    (bytes : List ℕ) → All IsByte bytes → py_unquote (quote bytes) ≡ utf8_decode_ignore bytes
unfolding py_unquote quote
py_unquote-quote [] h = refl
py_unquote-quote (b ∷ bytes) h =
    unquote_from-run [] (quote (b ∷ bytes)) (quote-ArePrintable (b ∷ bytes) h)
    ∙ ap utf8_decode_ignore (run_to_bytes-quote (b ∷ bytes) h)

abbrev pub IsAscii : ℕ → Type 0
IsAscii c = c < 128

sequence-ascii : (c b1 b2 b3 : ℕ) → c < 128 → sequence_of c b1 b2 b3 ≡ char (c ∷ []) 1
sequence-ascii c b1 b2 b3 lt =
    let low : ltb c 0x80 ≡ true = lt→ltb c 0x80 lt in
    let e : c % 65536 ≡ c = omega arith in simp (low, e)

decode_ascii :
    (fuel : ℕ) (text : List ℕ)
    → All IsAscii text
    → length text ≤ fuel
    → decode_ignore_from fuel text ≡ some text
unfolding decode_ignore_from sequence_at
decode_ascii zero [] h le = refl
decode_ascii zero (c ∷ text) h le = ground arith
decode_ascii (suc fuel) [] h le = refl
decode_ascii (suc fuel) (c ∷ text) (lt, h) le =
    let e : sequence_at (c ∷ text) ≡ char (c ∷ []) 1 =
      sequence-ascii c (byte_at 0 text) (byte_at 1 text) (byte_at 2 text) lt in
    let go_on : ℕ → Option (List ℕ) =
      λ (consumed : ℕ). decode_ignore_from fuel (drop consumed (c ∷ text)) in
    ap (λ (s : Sequence). after_sequence s go_on) e
    ∙ ap (Option.map (◌∷◌ c)) (decode_ascii fuel text h (omega (arith, le)))

-- A text of ASCII characters, each written as an escape, is what `pyUnquote` makes of it.
pub py_unquote-ascii : (text : List ℕ) → All IsAscii text → py_unquote (quote text) ≡ some text
unfolding utf8_decode_ignore
py_unquote-ascii text h =
    py_unquote-quote text (All-imp IsAscii IsByte (λ c lt. omega (arith, lt)) text h)
    ∙ decode_ascii (length text) text h (omega arith)
