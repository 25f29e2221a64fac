-- ===== src/Base64/Budget.antt =====
-- packages/core/src/detection-engine/base64-decode.ts: the gunzip attempts that the calls of one
-- pass share.
use guard_core_ts.Base.{
  List, Option, [], arith, filter, if_both, if_cases, leb, length, ltb, none, not, refl, some, ℕ,
  ◌%◌, ◌&&◌, ◌++◌, ◌+◌, ◌-◌, ◌||◌, ◌∙◌, ◌∷◌, ◌≡◌, ◌≤◌,
}
use guard_core_ts.Base64.Strict.{is_hex_literal, strict_base64_decode}
use guard_core_ts.Base64.Gunzip.{is_gzip}
use guard_core_ts.Base64.Ratios.{code_points, from_points}
use guard_core_ts.Base64.Candidates.{
  Attempts, Runtime, candidates_from, decode_base, decode_base64_candidates, decode_cleaned,
  decode_raw, decode_runs, decode_runs_from, decode_token, equals_signs,
  fallback_printable_ratio_threshold, if_matched, includes_char, is_separator, joined,
  max_gunzip_attempts_per_pass, min_run_length, or_runs, or_stripped, reassemble, remove_all,
  replace_all, slice, unzip,
}

-- Each attempt that was used up has opened one input.
unfoldable Spends : Attempts → Attempts → Type 0
Spends before after = after.value + length after.opened ≡ before.value + length before.opened

Spends-refl : (a : Attempts) → Spends a a
unfolding Spends
Spends-refl a = refl

Spends-trans : (a b c : Attempts) → Spends a b → Spends b c → Spends a c
unfolding Spends
Spends-trans a b c h k = k ∙ h

module _ (runtime : Runtime) where
  unzip-Spends :
      (raw : List ℕ) (attempts : Attempts) → Spends attempts (unzip runtime raw attempts).1
  unfolding unzip Spends
  unzip-Spends raw attempts =
      if_cases (λ (p : List ℕ × Attempts). Spends attempts p.1)
        (is_gzip raw && ltb 0 attempts.value) (λ opens. ground arith) (λ keeps. refl)

  decode_raw-Spends :
      (raw : Option (List ℕ)) (ratio : ℕ) (attempts : Attempts)
      → Spends attempts (decode_raw runtime raw ratio attempts).1
  unfolding decode_raw
  decode_raw-Spends none ratio attempts = Spends-refl attempts
  decode_raw-Spends (some raw) ratio attempts = unzip-Spends raw attempts

  decode_cleaned-Spends :
      (cleaned : List ℕ) (ratio : ℕ) (attempts : Attempts)
      → Spends attempts (decode_cleaned runtime cleaned ratio attempts).1
  unfolding decode_cleaned
  decode_cleaned-Spends cleaned ratio attempts =
      let padded : List ℕ = cleaned ++ equals_signs ((4 - length cleaned % 4) % 4) in
      decode_raw-Spends (strict_base64_decode padded) ratio attempts

  or_stripped-Spends :
      (cleaned : List ℕ) (ratio : ℕ) (attempts : Attempts) (decoded : Option (List ℕ) × Attempts)
      → Spends attempts decoded.1
      → Spends attempts (or_stripped runtime cleaned ratio decoded).1
  unfolding or_stripped
  or_stripped-Spends cleaned ratio attempts (some text, left) h = h
  or_stripped-Spends cleaned ratio attempts (none, left) h =
      let stripped : List ℕ = remove_all b'_' (remove_all b'-' cleaned) in
      if_both (λ (p : Option (List ℕ) × Attempts). Spends attempts p.1)
        (includes_char b'-' cleaned || includes_char b'_' cleaned)
        (Spends-trans attempts left _ h (decode_cleaned-Spends stripped ratio left)) h

  decode_token-Spends :
      (token : List ℕ) (ratio : ℕ) (attempts : Attempts)
      → Spends attempts (decode_token runtime token ratio attempts).1
  unfolding decode_token
  decode_token-Spends token ratio attempts =
      let cleaned : List ℕ =
        from_points (filter (λ (p : ℕ). not (is_separator p)) (code_points token)) in
      let urlsafe : List ℕ = replace_all b'_' b'/' (replace_all b'-' b'+' cleaned) in
      if_both (λ (p : Option (List ℕ) × Attempts). Spends attempts p.1) (is_hex_literal token)
        (Spends-refl attempts)
        (or_stripped-Spends cleaned ratio attempts (decode_cleaned runtime urlsafe ratio attempts)
          (decode_cleaned-Spends urlsafe ratio attempts))

  decode_runs_from-Spends :
      (token : List ℕ) (matches : List (ℕ × ℕ)) (last_end : ℕ) (result : List ℕ)
      (attempts : Attempts)
      → Spends attempts (decode_runs_from runtime token matches last_end result attempts).1
  unfolding decode_runs_from
  decode_runs_from-Spends token [] last_end result attempts = Spends-refl attempts
  decode_runs_from-Spends token ((start, end) ∷ matches) last_end result attempts =
      Spends-trans attempts _ _
        (decode_token-Spends (slice token start end) fallback_printable_ratio_threshold attempts)
        (decode_runs_from-Spends token matches end _ _)

  if_matched-Spends :
      (matches : List (ℕ × ℕ)) (attempts : Attempts) (p q : List ℕ × Attempts)
      → Spends attempts p.1
      → Spends attempts q.1
      → Spends attempts (if_matched matches p q).1
  if_matched-Spends [] attempts p q h k = h
  if_matched-Spends (m ∷ matches) attempts p q h k = k

  decode_runs-Spends :
      (token : List ℕ) (attempts : Attempts)
      → Spends attempts (decode_runs runtime token attempts).1
  unfolding decode_runs
  decode_runs-Spends token attempts =
      if_matched-Spends (runtime.run_matches token) attempts _ _ (Spends-refl attempts)
        (decode_runs_from-Spends token (runtime.run_matches token) 0 [] attempts)

  or_runs-Spends :
      (token : List ℕ) (attempts : Attempts) (decoded : Option (List ℕ) × Attempts)
      → Spends attempts decoded.1
      → Spends attempts (or_runs runtime token decoded).1
  unfolding or_runs
  or_runs-Spends token attempts (some text, left) h = h
  or_runs-Spends token attempts (none, left) h =
      Spends-trans attempts left _ h (decode_runs-Spends token left)

  decode_base-Spends :
      (token : List ℕ) (attempts : Attempts)
      → Spends attempts (decode_base runtime token attempts).1
  unfolding decode_base
  decode_base-Spends token attempts =
      or_runs-Spends token attempts _ (decode_token-Spends token _ attempts)

  reassemble-Spends :
      (token : List ℕ) (attempts : Attempts) → Spends attempts (reassemble runtime token attempts).1
  unfolding reassemble
  reassemble-Spends token attempts =
      let fragments : List ℕ = joined runtime token (runtime.sub_floor_matches token) in
      if_both (λ (p : Option (List ℕ) × Attempts). Spends attempts p.1)
        (leb min_run_length (length fragments))
        (decode_token-Spends fragments fallback_printable_ratio_threshold attempts)
        (Spends-refl attempts)

  candidates_from-Spends :
      (content : List ℕ) (matches : List (ℕ × ℕ)) (last_end : ℕ) (result : List ℕ)
      (attempts : Attempts)
      → Spends attempts (candidates_from runtime content matches last_end result attempts).1
  unfolding candidates_from
  candidates_from-Spends content [] last_end result attempts = Spends-refl attempts
  candidates_from-Spends content ((start, end) ∷ matches) last_end result attempts =
      let token : List ℕ = slice content start end in
      let left : Attempts = (decode_base runtime token attempts).1 in
      Spends-trans attempts left _ (decode_base-Spends token attempts) (
        Spends-trans left _ _ (reassemble-Spends token left)
          (candidates_from-Spends content matches end _ _))

  decode_base64_candidates-Spends :
      (content : List ℕ) (attempts : Attempts)
      → Spends attempts (decode_base64_candidates runtime content (some attempts)).1
  unfolding decode_base64_candidates
  decode_base64_candidates-Spends content attempts =
      let matches : List (ℕ × ℕ) = runtime.base64_matches content in
      if_matched-Spends matches attempts (content, attempts)
        (candidates_from runtime content matches 0 [] attempts) (Spends-refl attempts)
        (candidates_from-Spends content matches 0 [] attempts)

  -- Whatever the content and whatever the runtime answers, a pass that makes its own counter gives
  -- at most 8 inputs to `boundedGunzip`.
  pub candidates-opened :
      (content : List ℕ)
      → length (decode_base64_candidates runtime content none).1.opened
        ≤ max_gunzip_attempts_per_pass
  unfolding decode_base64_candidates Spends
  candidates-opened content = omega (
    arith,
    decode_base64_candidates-Spends content
        (record { value = max_gunzip_attempts_per_pass; opened = [] }),
  )
