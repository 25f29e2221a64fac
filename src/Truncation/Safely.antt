-- ===== src/Truncation/Safely.antt =====
-- packages/core/src/detection-engine/truncation.ts and preprocessor.ts: what `truncateSafely` keeps.
use guard_core_ts.Base.{
  Bool, List, [], drop, false, if◌then◌else◌, length, min, not, take, true, ℕ, ◌++◌, ◌-◌, ◌<◌, ◌∷◌,
  ◌≡◌, ◌≤◌, ◌⊎◌,
}
use guard_core_ts.Truncation.{Preprocessor, Regions, attack_length, cut_around, piece}

-- The regions of a content, one after the other.
abbrev pub regions_text : List ℕ → Regions → List ℕ
regions_text content [] = []
regions_text content ((s, e) ∷ regions) = piece content s (e - s) ++ regions_text content regions

-- Every region stands whole in the result, in the same order.
abbrev pub KeepsAll : List ℕ → Regions → List ℕ → Type 0
KeepsAll content [] out = Unit
KeepsAll content ((s, e) ∷ regions) out =
    (gap : List ℕ) × (rest : List ℕ) × (out ≡ gap ++ piece content s (e - s) ++ rest)
    × KeepsAll content regions rest

-- With no region the first and the last part; regions below the cap whole, with context; else the
-- first of their text.
abbrev pub IsAround : List ℕ → Regions → ℕ → List ℕ → Type 0
IsAround content [] cap out =
    out ≡ take (cap - min 4096 cap) content ++ drop (length content - min 4096 cap) content
IsAround content (r ∷ regions) cap out =
    ((attack_length (r ∷ regions) < cap) × KeepsAll content (r ∷ regions) out)
    ⊎ ((cap ≤ attack_length (r ∷ regions)) × (out ≡ take cap (regions_text content (r ∷ regions))))

abbrev pub IsCut : List ℕ → Regions → ℕ → Bool → List ℕ → Type 0
IsCut content regions cap true out = IsAround content regions cap out
IsCut content regions cap false out = out ≡ take cap content

-- A content within the cap is kept as it is.
abbrev pub IsSafe : List ℕ → Regions → Preprocessor → List ℕ → Type 0
IsSafe content regions p out =
    (length out ≤ p.max_full_scan_bytes)
    × (((length content ≤ p.max_full_scan_bytes) × (out ≡ content))
        ⊎ ((p.max_full_scan_bytes < length content)
            × IsCut content regions p.max_full_scan_bytes p.preserve_attack_patterns out))

-- What is done with a content above the cap.
abbrev cut_by : List ℕ → Regions → ℕ → Bool → List ℕ
cut_by content regions cap preserve =
    if not preserve then take cap content else cut_around content regions cap
