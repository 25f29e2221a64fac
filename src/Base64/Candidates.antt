-- ===== src/Base64/Candidates.antt =====
-- packages/core/src/detection-engine/base64-decode.ts: `decodeUtf8Bytes`, `decodeCleaned`,
-- `decodeToken`, `decodeRuns` and `decodeBase64Candidates`. The runtime's parts are parameters: the
-- strict and the replacing `TextDecoder`, the decompression stream, and the matches of the three
-- expressions that search (a match is its start and its end). An expression that is one class of
-- characters is modelled. The counter that the calls share is `value`; `opened` records the inputs
-- that were given to `boundedGunzip`.
use guard_core_ts.Base.{
  Bool, List, Option, [], any, drop, false, filter, if◌then◌else◌, leb, length, ltb, map, none, not,
  some, suc, take, true, zero, ℕ, ◌%◌, ◌&&◌, ◌++◌, ◌-◌, ◌==◌, ◌||◌, ◌∷◌,
}
use mathlib.Core.Option
use guard_core_ts.Base64.Strict.{in_range, is_alphanumeric, is_hex_literal, strict_base64_decode}
use guard_core_ts.Base64.Gunzip.{Read, bounded_gunzip, is_gzip}
use guard_core_ts.Base64.Ratios.{
  at_least, code_points, from_points, more_than, printable_ratio, replacement_char_ratio,
}

abbrev max_gunzip_output_bytes : ℕ
max_gunzip_output_bytes = 8192

abbrev pub max_gunzip_attempts_per_pass : ℕ
max_gunzip_attempts_per_pass = 8

abbrev printable_ratio_threshold : ℕ
printable_ratio_threshold = 50

abbrev pub fallback_printable_ratio_threshold : ℕ
fallback_printable_ratio_threshold = 95

abbrev max_replacement_char_ratio : ℕ
max_replacement_char_ratio = 20

abbrev pub min_run_length : ℕ
min_run_length = 12

-- What the runtime supplies.
pub record Runtime : Type 0 where
  pub decode_fatal : List ℕ → Option (List ℕ)
  pub decode_replacing : List ℕ → List ℕ
  pub inflate : List ℕ → ℕ → Read
  pub base64_matches : List ℕ → List (ℕ × ℕ)
  pub run_matches : List ℕ → List (ℕ × ℕ)
  pub sub_floor_matches : List ℕ → List (ℕ × ℕ)

-- `gunzipAttemptsLeft`
pub record Attempts : Type 0 where
  pub value : ℕ
  pub opened : List (List ℕ)

-- `SEPARATOR_CLASS`, of a code point.
abbrev pub is_separator : ℕ → Bool
is_separator p =
    ltb p 0x80 && not (is_alphanumeric p || p == b'+' || p == b'/' || p == b'-' || p == b'_')
    || in_range 0xdc80 0xdcff p

-- `buildWidenedMarkerClass`
unfoldable is_widened_marker : ℕ → Bool
is_widened_marker b =
    ltb b 0x80
    && (not (is_alphanumeric b || b == b'+' || b == b'/' || b == b'_')
          && not (b == 0x0d || b == 0x0a || b == 0x3d)
        || b == b'-'
        || b == b'_')

-- `text.replace(/c/g, ...)`, by a character and by nothing.
abbrev pub replace_all : ℕ → ℕ → List ℕ → List ℕ
replace_all c d text = map (λ (x : ℕ). if x == c then d else x) text

abbrev pub remove_all : ℕ → List ℕ → List ℕ
remove_all c text = filter (λ (x : ℕ). not (x == c)) text

abbrev pub includes_char : ℕ → List ℕ → Bool
includes_char c text = any (λ (x : ℕ). x == c) text

abbrev pub is_prefix : List ℕ → List ℕ → Bool
is_prefix [] text = true
is_prefix (c ∷ part) [] = false
is_prefix (c ∷ part) (d ∷ text) = c == d && is_prefix part text

-- `text.includes(part)`
unfoldable pub includes : List ℕ → List ℕ → Bool
includes [] part = is_prefix part []
includes (c ∷ text) part = is_prefix part (c ∷ text) || includes text part

abbrev pub slice : List ℕ → ℕ → ℕ → List ℕ
slice text start end = take (end - start) (drop start text)

-- `'='.repeat(n)`
abbrev pub equals_signs : ℕ → List ℕ
equals_signs zero = []
equals_signs (suc n) = b'=' ∷ equals_signs n

-- `if (matches.length === 0) return ...`
abbrev pub if_matched {ℓ} : {A : Type ℓ} → List (ℕ × ℕ) → A → A → A
if_matched [] otherwise then_do = otherwise
if_matched (first ∷ matches) otherwise then_do = then_do

module _ (runtime : Runtime) where
  -- `minPrintableRatio` of a decoded text.
  abbrev if_printable : List ℕ → ℕ → Option (List ℕ)
  if_printable decoded min_printable_ratio =
      if at_least (printable_ratio decoded) min_printable_ratio then some decoded else none

  unfoldable decode_utf8_bytes : List ℕ → ℕ → Option (List ℕ)
  unfolding printable_ratio replacement_char_ratio
  decode_utf8_bytes raw min_printable_ratio = elim (runtime.decode_fatal raw) [
    | some decoded ↦ if_printable decoded min_printable_ratio
    | none ↦
        let decoded = runtime.decode_replacing raw in
        if more_than (replacement_char_ratio decoded) max_replacement_char_ratio
        then none
        else if_printable decoded min_printable_ratio
  ]

  -- `await boundedGunzip(raw)`, with a read for each byte that may come out and one more; a stream of
  -- more reads than that, of which some are empty, is taken for one that throws.
  abbrev gunzipped : List ℕ → Option (List ℕ)
  gunzipped raw =
      Option.get_or
        (bounded_gunzip runtime.inflate (suc max_gunzip_output_bytes) raw max_gunzip_output_bytes)
        none

  -- From `let data = raw`.
  unfoldable pub unzip : List ℕ → Attempts → List ℕ × Attempts
  unfolding bounded_gunzip is_gzip
  unzip raw attempts =
      if is_gzip raw && ltb 0 attempts.value
      then (
        Option.get_or (gunzipped raw) raw,
        record { value = attempts.value - 1; opened = raw ∷ attempts.opened },
      )
      else (raw, attempts)

  -- `decodeCleaned` from `if (raw === null)` on.
  unfoldable pub decode_raw : Option (List ℕ) → ℕ → Attempts → Option (List ℕ) × Attempts
  unfolding unzip decode_utf8_bytes
  decode_raw none min_printable_ratio attempts = (none, attempts)
  decode_raw (some raw) min_printable_ratio attempts =
      let (bytes, left) = unzip raw attempts in (decode_utf8_bytes bytes min_printable_ratio, left)

  unfoldable pub decode_cleaned : List ℕ → ℕ → Attempts → Option (List ℕ) × Attempts
  unfolding strict_base64_decode decode_raw
  decode_cleaned cleaned min_printable_ratio attempts =
      let padding = (4 - length cleaned % 4) % 4 in
      decode_raw (strict_base64_decode (cleaned ++ equals_signs padding)) min_printable_ratio
        attempts

  -- `decodeToken` from `if (urlsafeDecoded !== null)` on.
  unfoldable pub or_stripped : List ℕ → ℕ → Option (List ℕ) × Attempts → Option (List ℕ) × Attempts
  unfolding decode_cleaned
  or_stripped cleaned min_printable_ratio (some text, left) = (some text, left)
  or_stripped cleaned min_printable_ratio (none, left) =
      if includes_char b'-' cleaned || includes_char b'_' cleaned
      then decode_cleaned (remove_all b'_' (remove_all b'-' cleaned)) min_printable_ratio left
      else (none, left)

  unfoldable pub decode_token : List ℕ → ℕ → Attempts → Option (List ℕ) × Attempts
  unfolding is_hex_literal code_points decode_cleaned or_stripped
  decode_token token min_printable_ratio attempts =
      if is_hex_literal token
      then (none, attempts)
      else let points = filter (λ (p : ℕ). not (is_separator p)) (code_points token) in
        let cleaned = from_points points in
        let urlsafe = replace_all b'_' b'/' (replace_all b'-' b'+' cleaned) in
        or_stripped cleaned min_printable_ratio
          (decode_cleaned urlsafe min_printable_ratio attempts)

  -- The loop of `decodeRuns` from `lastEnd` on, with `result` so far.
  unfoldable pub decode_runs_from :
      List ℕ → List (ℕ × ℕ) → ℕ → List ℕ → Attempts → List ℕ × Attempts
  unfolding decode_token
  decode_runs_from token [] last_end result attempts = (result ++ drop last_end token, attempts)
  decode_runs_from token ((start, end) ∷ matches) last_end result attempts =
      let run = slice token start end in
      let (decoded, left) = decode_token run fallback_printable_ratio_threshold attempts in
      decode_runs_from token matches end
        (result ++ slice token last_end start ++ Option.get_or decoded run) left

  unfoldable pub decode_runs : List ℕ → Attempts → List ℕ × Attempts
  unfolding decode_runs_from
  decode_runs token attempts =
      if_matched (runtime.run_matches token) (token, attempts)
        (decode_runs_from token (runtime.run_matches token) 0 [] attempts)

  -- `[...token.matchAll(subFloorRe)].map((m) => m[0]).join('')`
  abbrev pub joined : List ℕ → List (ℕ × ℕ) → List ℕ
  joined token [] = []
  joined token ((start, end) ∷ matches) = slice token start end ++ joined token matches

  unfoldable pub or_runs : List ℕ → Option (List ℕ) × Attempts → List ℕ × Attempts
  unfolding decode_runs
  or_runs token (some text, left) = (text, left)
  or_runs token (none, left) = decode_runs token left

  -- `base`
  unfoldable pub decode_base : List ℕ → Attempts → List ℕ × Attempts
  unfolding decode_token or_runs is_widened_marker
  decode_base token attempts =
      let primary_threshold =
        if any is_widened_marker token
        then fallback_printable_ratio_threshold
        else printable_ratio_threshold in
      or_runs token (decode_token token primary_threshold attempts)

  unfoldable pub reassemble : List ℕ → Attempts → Option (List ℕ) × Attempts
  unfolding decode_token
  reassemble token attempts =
      let fragments = joined token (runtime.sub_floor_matches token) in
      if leb min_run_length (length fragments)
      then decode_token fragments fallback_printable_ratio_threshold attempts
      else (none, attempts)

  -- What a candidate adds to `result`.
  unfoldable joined_with : List ℕ → Option (List ℕ) → List ℕ
  unfolding includes
  joined_with base none = base
  joined_with base (some reassembled) =
      if includes base reassembled then base else base ++ b' ' ∷ reassembled

  unfoldable pub candidates_from : List ℕ → List (ℕ × ℕ) → ℕ → List ℕ → Attempts → List ℕ × Attempts
  unfolding decode_base reassemble joined_with
  candidates_from content [] last_end result attempts = (result ++ drop last_end content, attempts)
  candidates_from content ((start, end) ∷ matches) last_end result attempts =
      let token = slice content start end in
      let (base, left) = decode_base token attempts in
      let (reassembled, left') = reassemble token left in
      candidates_from content matches end
        (result ++ slice content last_end start ++ joined_with base reassembled) left'

  unfoldable pub decode_base64_candidates : List ℕ → Option Attempts → List ℕ × Attempts
  unfolding candidates_from
  decode_base64_candidates content gunzip_attempts_left =
      let attempts =
        Option.get_or gunzip_attempts_left
          (record { value = max_gunzip_attempts_per_pass; opened = [] }) in
      if_matched (runtime.base64_matches content) (content, attempts)
        (candidates_from content (runtime.base64_matches content) 0 [] attempts)
