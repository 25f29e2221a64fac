-- ===== src/Truncation.antt =====
-- packages/core/src/detection-engine/truncation.ts, with truncateSafely of preprocessor.ts: cutting a content
-- down to a budget around its attack regions. A region is its start and its end. A content is a list of
-- code units. What the regular expressions of the indicators match is a parameter: for each of them its
-- matches in a content, a match being its index and its length.
pub mod Budget
pub mod Regions
pub mod Safely
pub mod Tests
use guard_core_ts.Base.{
  ℕ, ◌+◌, ◌-◌, ◌/◌, Bool, not, map, min, max, List, [], ◌∷◌, ◌++◌, length, take, drop, ltb, leb,
  ◌==◌, if◌then◌else◌, ◌&&◌,
}

abbrev pub Regions : Type 0
Regions = List (ℕ × ℕ)

-- `content.slice(start, start + n)`
abbrev pub piece : List ℕ → ℕ → ℕ → List ℕ
piece content start n = take n (drop start content)

abbrev pub Match : Type 0
Match = ℕ × ℕ

-- A match with 100 units around it, inside the content.
abbrev pub region_around : ℕ → Match → ℕ × ℕ
region_around size (index, len) = (index - 100, min size (index + len + 100))

-- The loops over the indicators and over the matches of each.
unfoldable pub collect_windows : ℕ → ℕ → List (List Match) → Regions → Regions
collect_windows max_regions size [] regions = regions
collect_windows max_regions size (matches ∷ indicators) regions =
    let regions' = regions ++ map (region_around size) (take max_regions matches) in
    let rest = collect_windows max_regions size indicators regions' in
    if leb max_regions (length regions') then regions' else rest

-- `a[0] - b[0] || a[1] - b[1]` is not above 0.
abbrev pub comes_first : ℕ × ℕ → ℕ × ℕ → Bool
comes_first (s, e) (s', e') = if s == s' then leb e e' else ltb s s'

unfoldable pub insert_region : ℕ × ℕ → Regions → Regions
insert_region r [] = r ∷ []
insert_region r (x ∷ regions) =
    let rest = insert_region r regions in if comes_first r x then r ∷ x ∷ regions else x ∷ rest

-- `regions.sort`
unfoldable pub sort_regions : Regions → Regions
unfolding insert_region
sort_regions [] = []
sort_regions (r ∷ regions) = insert_region r (sort_regions regions)

-- The merge of regions in order: `last` is the one that is still growing.
unfoldable pub merge_regions : ℕ × ℕ → Regions → Regions
merge_regions last [] = last ∷ []
merge_regions (s, e) ((start, end) ∷ regions) =
    let grown = merge_regions (s, max e end) regions in
    let fresh = merge_regions (start, end) regions in if leb start e then grown else (s, e) ∷ fresh

abbrev pub merged_regions : Regions → Regions
merged_regions [] = []
merged_regions (r ∷ regions) = merge_regions r regions

-- `extractAttackRegions`
unfoldable pub extract_attack_regions : (List ℕ → List (List Match)) → ℕ → List ℕ → Regions
unfolding collect_windows sort_regions merge_regions
extract_attack_regions matches max_content_length content =
    let max_regions = min 100 (max_content_length / 100) in
    take max_regions (
      merged_regions
        (sort_regions (collect_windows max_regions (length content) (matches content) [])))

-- `extractAndConcatenateAttackRegions`
unfoldable pub extract_and_concatenate : List ℕ → Regions → ℕ → List ℕ
extract_and_concatenate content [] remaining = []
extract_and_concatenate content ((start, end) ∷ regions) remaining =
    let chunk_len = min (end - start) remaining in
    let rest = extract_and_concatenate content regions (remaining - chunk_len) in
    if remaining - chunk_len == 0
    then piece content start chunk_len
    else piece content start chunk_len ++ rest

-- `consumeGap`: a gap that is too long ends in a space.
unfoldable pub consume_gap : List ℕ → ℕ → ℕ → ℕ → List ℕ × ℕ
consume_gap content last_end start gap_budget =
    if leb (start - last_end) gap_budget
    then (piece content last_end (start - last_end), gap_budget - (start - last_end))
    else (piece content last_end (gap_budget - 1) ++ b' ' ∷ [], 0)

-- The gap before a region, where there is one and budget is left.
unfoldable pub gap_before : List ℕ → ℕ → ℕ → ℕ → List ℕ × ℕ
gap_before content last_end start gap_budget =
    if ltb last_end start && ltb 0 gap_budget
    then consume_gap content last_end start gap_budget
    else ([], gap_budget)

-- The loop over the regions, and the tail after them.
unfoldable pub build_parts : List ℕ → Regions → ℕ → ℕ → List ℕ
build_parts content [] gap_budget last_end =
    if ltb last_end (length content) && ltb 0 gap_budget
    then piece content last_end (min (length content - last_end) gap_budget)
    else []
build_parts content ((start, end) ∷ regions) gap_budget last_end =
    let gap = gap_before content last_end start gap_budget in
    gap.0 ++ piece content start (end - start) ++ build_parts content regions gap.1 end

unfoldable pub attack_length : Regions → ℕ
attack_length [] = 0
attack_length ((start, end) ∷ regions) = (end - start) + attack_length regions

-- `buildResultWithAttackRegionsAndContext`; a gap budget below 0 does what 0 does.
unfoldable pub build_result : List ℕ → Regions → ℕ → List ℕ
build_result content regions budget = build_parts content regions (budget - attack_length regions) 0

-- Where `slice(length - tail)` starts: a negative index counts from the end again, and stops at 0.
abbrev pub tail_start : ℕ → ℕ → ℕ
tail_start length tail = if leb tail length then length - tail else length - (tail - length)

-- `capWithTail`, with FULL_SCAN_TAIL_BYTES
unfoldable pub cap_with_tail : List ℕ → ℕ → List ℕ
cap_with_tail content cap =
    let tail = min 4096 cap in
    take (cap - tail) content ++ drop (tail_start (length content) tail) content

-- The part of the preprocessor that the truncation reads.
pub record Preprocessor : Type 0 where
  pub max_content_length : ℕ
  pub max_full_scan_bytes : ℕ
  pub preserve_attack_patterns : Bool

-- The end of `truncateSafely`, on the attack regions.
unfoldable pub cut_around : List ℕ → Regions → ℕ → List ℕ
unfolding cap_with_tail attack_length extract_and_concatenate build_result
cut_around content [] cap = cap_with_tail content cap
cut_around content (r ∷ regions) cap =
    if leb cap (attack_length (r ∷ regions))
    then extract_and_concatenate content (r ∷ regions) cap
    else build_result content (r ∷ regions) cap

-- `truncateSafely`
unfoldable pub truncate_safely : (List ℕ → List (List Match)) → Preprocessor → List ℕ → List ℕ
unfolding extract_attack_regions cut_around
truncate_safely matches p content =
    if leb (length content) p.max_full_scan_bytes
    then content
    else if not p.preserve_attack_patterns
    then take p.max_full_scan_bytes content
    else cut_around content (extract_attack_regions matches p.max_content_length content)
        p.max_full_scan_bytes
