-- ===== src/Truncation/Regions.antt =====
-- packages/core/src/detection-engine/truncation.ts: the attack regions that are found lie in the content, in
-- order and apart.
use guard_core_ts.Base.{
  All, All-append, List, [], arith, if_both, if_cases, leb, length, map, max, min, suc, take, zero,
  ℕ, ◌++◌, ◌+◌, ◌/◌, ◌∷◌, ◌≤◌,
}
use guard_core_ts.Truncation.{
  Match, Regions, collect_windows, comes_first, extract_attack_regions, insert_region,
  merge_regions, merged_regions, sort_regions, region_around,
}

abbrev pub IsWithin : ℕ → ℕ × ℕ → Type 0
IsWithin size (s, e) = (s ≤ e) × (e ≤ size)

-- No region starts before the one that stands before it.
abbrev IsSorted : ℕ → Regions → Type 0
IsSorted last [] = Unit
IsSorted last ((s, e) ∷ regions) = (last ≤ s) × IsSorted s regions

-- Each region lies in the content and after the one before it.
abbrev pub IsOrdered : ℕ → Regions → ℕ → Type 0
IsOrdered last [] size = Unit
IsOrdered last ((s, e) ∷ regions) size =
    (last ≤ s) × (s ≤ e) × (e ≤ size) × IsOrdered e regions size

-- A match of the content lies in it.
abbrev pub IsInside : ℕ → Match → Type 0
IsInside size (index, len) = index + len ≤ size

windows-IsWithin :
    (n size : ℕ) (matches : List Match)
    → All (IsInside size) matches
    → All (IsWithin size) (map (region_around size) (take n matches))
windows-IsWithin zero size matches h = tt
windows-IsWithin (suc n) size [] h = tt
windows-IsWithin (suc n) size ((index, len) ∷ matches) (h, hs) =
    ((omega (arith, h), omega arith), windows-IsWithin n size matches hs)

collect_windows-IsWithin :
    (max_regions size : ℕ) (indicators : List (List Match)) (regions : Regions)
    → All (All (IsInside size)) indicators
    → All (IsWithin size) regions
    → All (IsWithin size) (collect_windows max_regions size indicators regions)
unfolding collect_windows
collect_windows-IsWithin max_regions size [] regions h r = r
collect_windows-IsWithin max_regions size (matches ∷ indicators) regions (h, hs) r =
    let windows : Regions = map (region_around size) (take max_regions matches) in
    let r' : All (IsWithin size) (regions ++ windows) =
      All-append (IsWithin size) regions windows r (windows-IsWithin max_regions size matches h) in
    if_both (All (IsWithin size)) (leb max_regions (length (regions ++ windows))) r'
      (collect_windows-IsWithin max_regions size indicators (regions ++ windows) hs r')

insert-IsWithin :
    (size : ℕ) (r : ℕ × ℕ) (regions : Regions)
    → IsWithin size r
    → All (IsWithin size) regions
    → All (IsWithin size) (insert_region r regions)
unfolding insert_region
insert-IsWithin size r [] h hs = (h, tt)
insert-IsWithin size r (x ∷ regions) h (k, hs) =
    if_both (All (IsWithin size)) (comes_first r x) (h, (k, hs))
      (k, insert-IsWithin size r regions h hs)

insert-IsSorted :
    (last : ℕ) (r : ℕ × ℕ) (regions : Regions)
    → last ≤ r.0
    → IsSorted last regions
    → IsSorted last (insert_region r regions)
unfolding insert_region
insert-IsSorted last (s, e) [] h hs = (h, tt)
insert-IsSorted last (s, e) ((s', e') ∷ regions) h (k, hs) =
    if_cases (IsSorted last) (comes_first (s, e) (s', e'))
      (λ first. (h, (ground (arith, first), hs)))
      (λ later. (k, insert-IsSorted s' (s, e) regions (ground (arith, later)) hs))

sort-IsWithin :
    (size : ℕ) (regions : Regions)
    → All (IsWithin size) regions
    → All (IsWithin size) (sort_regions regions)
unfolding sort_regions
sort-IsWithin size [] h = tt
sort-IsWithin size (r ∷ regions) (h, hs) =
    insert-IsWithin size r (sort_regions regions) h (sort-IsWithin size regions hs)

sort-IsSorted : (regions : Regions) → IsSorted 0 (sort_regions regions)
unfolding sort_regions
sort-IsSorted [] = tt
sort-IsSorted (r ∷ regions) =
    insert-IsSorted 0 r (sort_regions regions) (omega arith) (sort-IsSorted regions)

IsSorted-weaken :
    (last last' : ℕ) (regions : Regions)
    → last' ≤ last
    → IsSorted last regions
    → IsSorted last' regions
IsSorted-weaken last last' [] le h = tt
IsSorted-weaken last last' ((s, e) ∷ regions) le (h, hs) = (omega (arith, le, h), hs)

merge-IsOrdered :
    (last size s e : ℕ) (regions : Regions)
    → last ≤ s
    → IsWithin size (s, e)
    → All (IsWithin size) regions
    → IsSorted s regions
    → IsOrdered last (merge_regions (s, e) regions) size
unfolding merge_regions
merge-IsOrdered last size s e [] h (se, en) k o = (h, se, en, tt)
merge-IsOrdered last size s e ((start, end) ∷ regions) h (se, en) ((w, v), ks) (o, os) =
    if_cases (λ (rs : Regions). IsOrdered last rs size) (leb start e)
      (λ joins.
        merge-IsOrdered last size s (max e end) regions h (omega (arith, se), omega (arith, en, v))
          ks (IsSorted-weaken start s regions o os))
      (λ apart.
        (h, se, en, merge-IsOrdered e size start end regions (ground (arith, apart)) (w, v) ks os))

merged-IsOrdered :
    (size : ℕ) (regions : Regions)
    → All (IsWithin size) regions
    → IsSorted 0 regions
    → IsOrdered 0 (merged_regions regions) size
merged-IsOrdered size [] k o = tt
merged-IsOrdered size ((s, e) ∷ regions) (k, ks) (o, os) =
    merge-IsOrdered 0 size s e regions o k ks os

take-IsOrdered :
    (n last size : ℕ) (regions : Regions)
    → IsOrdered last regions size
    → IsOrdered last (take n regions) size
take-IsOrdered zero last size regions h = tt
take-IsOrdered (suc n) last size [] h = tt
take-IsOrdered (suc n) last size ((s, e) ∷ regions) (a, b, c, h) =
    (a, b, c, take-IsOrdered n e size regions h)

-- The regions that `extractAttackRegions` returns.
pub extract_attack_regions-IsOrdered :
    (matches : List ℕ → List (List Match)) (max_content_length : ℕ) (content : List ℕ)
    → All (All (IsInside (length content))) (matches content)
    → IsOrdered 0 (extract_attack_regions matches max_content_length content) (length content)
unfolding extract_attack_regions
extract_attack_regions-IsOrdered matches max_content_length content h =
    let max_regions : ℕ = min 100 (max_content_length / 100) in
    let size : ℕ = length content in
    let found : Regions = collect_windows max_regions size (matches content) [] in
    let within : All (IsWithin size) found =
      collect_windows-IsWithin max_regions size (matches content) [] h tt in
    take-IsOrdered max_regions 0 size _ (
      merged-IsOrdered size (sort_regions found) (sort-IsWithin size found within)
        (sort-IsSorted found))
