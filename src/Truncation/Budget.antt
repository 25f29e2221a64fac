-- ===== src/Truncation/Budget.antt =====
-- The budgets of truncation (detection-engine/truncation.ts): no result is longer than its budget.
use guard_core_ts.Base.{
  ℕ, ◌+◌, ◌-◌, ◌≤◌, min, List, [], ◌∷◌, ◌++◌, length, take, drop, length-append, length-drop,
  length-take, arith,
}
use guard_core_ts.Truncation.{
  Regions, piece, extract_and_concatenate, consume_gap, gap_before, build_parts, attack_length,
  build_result, cap_with_tail, tail_start,
}

-- What is extracted from the attack regions is never longer than the budget.
pub extract-length :
    (content : List ℕ) (regions : Regions) (budget : ℕ)
    → length (extract_and_concatenate content regions budget) ≤ budget
unfolding extract_and_concatenate
extract-length content [] budget = omega arith
extract-length content ((start, end) ∷ regions) budget = ground (
  arith,
  length-take (min (end - start) budget) (drop start content),
  length-append (piece content start (min (end - start) budget))
      (extract_and_concatenate content regions (budget - min (end - start) budget)),
  extract-length content regions (budget - min (end - start) budget),
)

gap-length :
    (content : List ℕ) (last_end start gap_budget : ℕ)
    → length (gap_before content last_end start gap_budget).0
        + (gap_before content last_end start gap_budget).1
      ≤ gap_budget
unfolding gap_before consume_gap
gap-length content last_end start gap_budget = ground (
  arith,
  length-take (start - last_end) (drop last_end content),
  length-take (gap_budget - 1) (drop last_end content),
  length-append (piece content last_end (gap_budget - 1)) (b' ' ∷ []),
)

concat-length :
    (xs ys zs : List ℕ) (n : ℕ)
    → length xs + length ys + length zs ≤ n
    → length (xs ++ ys ++ zs) ≤ n
concat-length xs ys zs n h = omega (arith, h, length-append (xs ++ ys) zs, length-append xs ys)

parts-length :
    (content : List ℕ) (regions : Regions) (gap_budget last_end : ℕ)
    → length (build_parts content regions gap_budget last_end) ≤ attack_length regions + gap_budget
unfolding build_parts attack_length
parts-length content [] gap_budget last_end =
    ground (arith, length-take (min (length content - last_end) gap_budget) (drop last_end content))
parts-length content ((start, end) ∷ regions) gap_budget last_end =
    let gap = gap_before content last_end start gap_budget in
    concat-length gap.0 (piece content start (end - start)) (build_parts content regions gap.1 end)
      _
      (omega (
        arith,
        length-take (end - start) (drop start content),
        gap-length content last_end start gap_budget,
        parts-length content regions gap.1 end,
      ))

-- Where the attack regions fit in the budget, the regions with their context do not exceed it.
pub build_result-length :
    (content : List ℕ) (regions : Regions) (budget : ℕ)
    → attack_length regions ≤ budget
    → length (build_result content regions budget) ≤ budget
unfolding build_result
build_result-length content regions budget h =
    omega (arith, parts-length content regions (budget - attack_length regions) 0, h)

-- A capped content is never longer than the cap.
pub cap_with_tail-length : (content : List ℕ) (cap : ℕ) → length (cap_with_tail content cap) ≤ cap
unfolding cap_with_tail
cap_with_tail-length content cap =
    let tail : ℕ = min 4096 cap in
    let start : ℕ = tail_start (length content) tail in
    ground (
      arith,
      length-append (take (cap - tail) content) (drop start content),
      length-take (cap - tail) content,
      length-drop start content,
    )
