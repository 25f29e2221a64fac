-- ===== src/Paths/Segments.antt =====
-- Splitting a path at its slashes, rendering a list of segments, and the segments that dot folding
-- keeps (core/validation/path-matching.ts).
use guard_core_ts.Base.{
  ℕ, ◌≡◌, refl, ◌⊎◌, inl, inr, true, false, List, [], ◌∷◌, ◌==◌, arith, All, All-append, Bool-cases,
  Option-cases,
}
use guard_core_ts.Paths.{
  Text, slash, text_eq, one_dot, two_dots, param_base, fold_dot_segment_params, fold_backslashes,
  cons_head, split, pop, take_segment, walk,
}

-- A code unit that may stand in a segment: neither slash nor backslash.
abbrev pub IsInner : ℕ → Type 0
IsInner c = ((c == slash) ≡ false) × ((c == b'\\') ≡ false)

-- A segment of a normal form: it is inside one, it is not empty, and it is not a dot segment, also
-- not one with parameters.
pub record IsPlain (w : Text) : Type 0 where
  pub inner : All IsInner w
  pub some_text : text_eq w [] ≡ false
  pub no_dot : text_eq (fold_dot_segment_params w) one_dot ≡ false
  pub no_dots : text_eq (fold_dot_segment_params w) two_dots ≡ false

pub text_eq_refl : (s : Text) → text_eq s s ≡ true
text_eq_refl [] = refl
text_eq_refl (c ∷ s) = ground (arith, text_eq_refl s)

pub text_eq-eq : (s t : Text) → text_eq s t ≡ true → s ≡ t
text_eq-eq [] [] e = refl
text_eq-eq [] (d ∷ t) e = cc
text_eq-eq (c ∷ s) [] e = cc
text_eq-eq (c ∷ s) (d ∷ t) e = ground (arith, text_eq-eq s t)

-- The segments of a text have no slash, and no backslash where the text has none.
cons_head-IsInner :
    (c : ℕ) (ws : List Text) → IsInner c → All (All IsInner) ws → All (All IsInner) (cons_head c ws)
cons_head-IsInner c [] i h = ((i, tt), tt)
cons_head-IsInner c (w ∷ ws) i (h, hs) = ((i, h), hs)

pub split-IsInner : (s : Text) → All (λ c. (c == b'\\') ≡ false) s → All (All IsInner) (split s)
unfolding split
split-IsInner [] h = (tt, tt)
split-IsInner (c ∷ s) (h, hs) = elim (Bool-cases (c == slash)) [
  | inl e ↦ rw e (tt, split-IsInner s hs)
  | inr e ↦ rw e (cons_head-IsInner c (split s) (e, h) (split-IsInner s hs))
]

pub fold_backslashes-none : (s : Text) → All (λ c. (c == b'\\') ≡ false) (fold_backslashes s)
unfolding fold_backslashes
fold_backslashes-none [] = tt
fold_backslashes-none (c ∷ s) = (ground arith, fold_backslashes-none s)

pub fold_backslashes_id : (s : Text) → All (λ c. (c == b'\\') ≡ false) s → fold_backslashes s ≡ s
unfolding fold_backslashes
fold_backslashes_id [] h = refl
fold_backslashes_id (c ∷ s) (h, hs) = ground (arith, fold_backslashes_id s hs)

-- A folded segment is a dot segment or the raw one.
pub fold_cases :
    (w : Text)
    → (fold_dot_segment_params w ≡ one_dot)
      ⊎ (fold_dot_segment_params w ≡ two_dots)
      ⊎ (fold_dot_segment_params w ≡ w)
unfolding fold_dot_segment_params
fold_cases w = elim (Option-cases (param_base w)) [
  | inl e ↦ rw (e, fold_dot_segment_params) (inr (inr refl))
  | inr (base, e) ↦
      rw (e, fold_dot_segment_params)
        (ground (arith, text_eq-eq base one_dot, text_eq-eq base two_dots))
]

pop-All : (P : Text → Type 0) (ws : List Text) → All P ws → All P (pop ws)
pop-All P [] h = tt
pop-All P (w ∷ []) h = tt
pop-All P (w ∷ v ∷ ws) (h, hs) = (h, pop-All P (v ∷ ws) hs)

take_segment-IsPlain :
    (ws : List Text) (raw : Text)
    → All IsPlain ws
    → All IsInner raw
    → All IsPlain (take_segment ws (fold_dot_segment_params raw))
unfolding take_segment
take_segment-IsPlain ws raw h i = elim (fold_cases raw) [
  | inl e ↦ rw e h
  | inr (inl e) ↦ rw e (pop-All IsPlain ws h)
  | inr (inr e) ↦
      ground (arith, e, h, pop-All IsPlain ws h, All-append IsPlain ws (raw ∷ []) h, plain raw i e)
]
  where
    plain :
        (w : Text)
        → All IsInner w
        → fold_dot_segment_params w ≡ w
        → text_eq w [] ≡ false
        → text_eq w one_dot ≡ false
        → text_eq w two_dots ≡ false
        → IsPlain w
    plain w inner e some_text no_dot no_dots = record {
      inner = inner;
      some_text = some_text;
      no_dot = rw e no_dot;
      no_dots = rw e no_dots;
    }

-- The walk keeps only plain segments.
pub walk-IsPlain :
    (ws raws : List Text) → All IsPlain ws → All (All IsInner) raws → All IsPlain (walk ws raws)
unfolding walk
walk-IsPlain ws [] h i = h
walk-IsPlain ws (raw ∷ raws) h (i, is) =
    walk-IsPlain (take_segment ws (fold_dot_segment_params raw)) raws
      (take_segment-IsPlain ws raw h i) is
