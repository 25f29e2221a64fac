-- ===== src/Truncation/Tests.antt =====
-- Runs of detection-engine/truncation.ts, and the theorem about it at a concrete input.
use guard_core_ts.Base.{ℕ, ◌≡◌, refl, List, [], ◌∷◌, true}
use guard_core_ts.Truncation.{
  Match, Preprocessor, attack_length, build_parts, build_result, cap_with_tail, collect_windows,
  consume_gap, cut_around, extract_and_concatenate, extract_attack_regions, gap_before,
  insert_region, merge_regions, sort_regions, truncate_safely,
}

abbrev content : List ℕ
content = 1 ∷ 2 ∷ 3 ∷ 4 ∷ 5 ∷ 6 ∷ 7 ∷ 8 ∷ []

gap_is_cut : build_result content ((4, 6) ∷ []) 5 ≡ 1 ∷ 2 ∷ b' ' ∷ 5 ∷ 6 ∷ []
unfolding build_result build_parts gap_before consume_gap attack_length
gap_is_cut = refl

merged : merge_regions (0, 3) ((2, 5) ∷ (7, 8) ∷ []) ≡ (0, 5) ∷ (7, 8) ∷ []
unfolding merge_regions
merged = refl

sorted : sort_regions ((5, 7) ∷ (1, 3) ∷ (1, 2) ∷ []) ≡ (1, 2) ∷ (1, 3) ∷ (5, 7) ∷ []
unfolding sort_regions insert_region
sorted = refl

-- One indicator, which matches two units in the middle.
abbrev matches : List ℕ → List (List Match)
matches text = ((4, 2) ∷ []) ∷ []

abbrev preprocessor : Preprocessor
preprocessor = record {
  max_content_length = 1000;
  max_full_scan_bytes = 5;
  preserve_attack_patterns = true;
}

one_region : extract_attack_regions matches 1000 content ≡ (0, 8) ∷ []
unfolding extract_attack_regions collect_windows sort_regions insert_region merge_regions
one_region = refl

region_is_cut : truncate_safely matches preprocessor content ≡ 1 ∷ 2 ∷ 3 ∷ 4 ∷ 5 ∷ []
unfolding truncate_safely cut_around attack_length extract_and_concatenate extract_attack_regions
    collect_windows sort_regions insert_region merge_regions
region_is_cut = refl

-- `slice` with a negative start counts from the end.
short_tail : cap_with_tail content 10 ≡ 7 ∷ 8 ∷ []
unfolding cap_with_tail
short_tail = refl
