-- ===== src/Paths/Canonical.antt =====
-- The normal form of a path (core/validation/path-matching.ts): what it looks like, and that a path
-- in normal form is kept.
use guard_core_ts.Base.{
  ℕ, zero, suc, ◌≡◌, refl, sym, ap, ◌∙◌, inl, inr, false, List, [], ◌∷◌, ◌++◌, Option, some, ◌==◌,
  arith, All, All-append, append-nil, append_assoc, Option-cases,
}
use guard_core_ts.Paths.{
  ◌>>=◌, Text, slash, param_base, fold_dot_segment_params, fold_backslashes, split, join,
  take_segment, walk, render, collapse_dot_segments, decode_percent_recursive, normalize_url_path,
  decode_rounds, has_escape, decode_percent_once, flush,
}
use guard_core_ts.Paths.Segments.{
  IsInner, IsPlain, split-IsInner, fold_backslashes-none, fold_backslashes_id, fold_cases,
  walk-IsPlain,
}

-- A text in normal form: a slash, and plain segments with a slash between two of them.
abbrev pub IsCanonical : Text → Type 0
IsCanonical s = (ws : List Text) × All IsPlain ws × (s ≡ render ws)

-- Collapsing gives a text in normal form: no empty segment, no dot segment, no backslash is left.
pub collapse-IsCanonical : (s : Text) → IsCanonical (collapse_dot_segments s)
unfolding collapse_dot_segments
collapse-IsCanonical s = (
  walk [] (split (fold_backslashes s)),
  walk-IsPlain [] _ tt (split-IsInner (fold_backslashes s) (fold_backslashes-none s)),
  refl,
)

take_segment_plain :
    (ws : List Text) (w : Text)
    → IsPlain w
    → take_segment ws (fold_dot_segment_params w) ≡ ws ++ w ∷ []
unfolding take_segment
take_segment_plain ws w p = ground (arith, fold_cases w, p.some_text, p.no_dot, p.no_dots)

walk_plain : (ws vs : List Text) → All IsPlain vs → walk ws vs ≡ ws ++ vs
unfolding walk
walk_plain ws [] h = sym (append-nil ws)
walk_plain ws (v ∷ vs) (p, h) =
    rw (take_segment_plain ws v p) (walk_plain (ws ++ v ∷ []) vs h ∙ append_assoc ws (v ∷ []) vs)

split-append : (w s : Text) → All IsInner w → split (w ++ slash ∷ s) ≡ w ∷ split s
unfolding split
split-append [] s h = refl
split-append (c ∷ w) s (i, h) = rw (i.0, split-append w s h)

split_inner : (w : Text) → All IsInner w → split w ≡ w ∷ []
unfolding split
split_inner [] h = refl
split_inner (c ∷ w) (i, h) = rw (i.0, split_inner w h)

split-join : (w : Text) (ws : List Text) → All IsPlain (w ∷ ws) → split (join (w ∷ ws)) ≡ w ∷ ws
unfolding join
split-join w [] (p, h) = split_inner w p.inner
split-join w (v ∷ ws) (p, h) =
    split-append w (join (v ∷ ws)) p.inner ∙ ap (◌∷◌ w) (split-join v ws h)

walk-render : (ws : List Text) → All IsPlain ws → walk [] (split (render ws)) ≡ ws
unfolding split walk take_segment fold_dot_segment_params param_base join
walk-render [] h = refl
walk-render (w ∷ ws) h = rw (split-join w ws h) (walk_plain [] (w ∷ ws) h)

no_backslash : (w : Text) → All IsInner w → All (λ c. (c == b'\\') ≡ false) w
no_backslash [] h = tt
no_backslash (c ∷ w) (i, h) = (i.1, no_backslash w h)

join-no_backslash : (ws : List Text) → All IsPlain ws → All (λ c. (c == b'\\') ≡ false) (join ws)
unfolding join
join-no_backslash [] h = tt
join-no_backslash (w ∷ []) (p, h) = no_backslash w p.inner
join-no_backslash (w ∷ v ∷ ws) (p, h) =
    All-append (λ c. (c == b'\\') ≡ false) w (slash ∷ join (v ∷ ws)) (no_backslash w p.inner)
      (refl, join-no_backslash (v ∷ ws) h)

-- A text in normal form is kept as it is.
pub collapse-canonical : (s : Text) → IsCanonical s → collapse_dot_segments s ≡ s
unfolding collapse_dot_segments
collapse-canonical s (ws, h, e) =
    rw (e, fold_backslashes_id (render ws) (refl, join-no_backslash ws h))
      (ap render (walk-render ws h))

module _ (utf8 : List ℕ → Option Text) where
  rounds-no_escape : (n : ℕ) (s t : Text) → decode_rounds utf8 n s ≡ some t → has_escape t ≡ false
  unfolding decode_rounds
  rounds-no_escape zero s t e = ground (arith, e)
  rounds-no_escape (suc n) s t e = elim (Option-cases (decode_percent_once utf8 [] s)) [
    | inl n' ↦ ground (arith, n', e)
    | inr (next, d) ↦ rounds-no_escape n next t (ap (λ o. o >>= decode_rounds utf8 n) (sym d) ∙ e)
  ]

  -- What is decoded has no escape left: a path that still has one after the rounds has no normal form.
  pub decode-no_escape :
      (s t : Text) → decode_percent_recursive utf8 s ≡ some t → has_escape t ≡ false
  unfolding decode_percent_recursive
  decode-no_escape s t e = rounds-no_escape 4 s t e

  once_plain : (s : Text) → has_escape s ≡ false → decode_percent_once utf8 [] s ≡ some s
  unfolding has_escape decode_percent_once flush
  once_plain [] h = refl
  once_plain (c ∷ []) h = refl
  once_plain (c ∷ d ∷ []) h = refl
  once_plain (c ∷ d ∷ e ∷ s) h = ground (arith, h, once_plain (d ∷ e ∷ s))

  rounds_plain : (n : ℕ) (s : Text) → has_escape s ≡ false → decode_rounds utf8 n s ≡ some s
  unfolding decode_rounds
  rounds_plain zero s h = rw h
  rounds_plain (suc n) s h = rw (once_plain s h) (rounds_plain n s h)

  -- A text in normal form without escapes is its own normal form, whatever the decoder.
  pub normalize-canonical :
      (s : Text) → IsCanonical s → has_escape s ≡ false → normalize_url_path utf8 s ≡ some s
  unfolding normalize_url_path decode_percent_recursive
  normalize-canonical s c h = rw (rounds_plain 4 s h) (ap some (collapse-canonical s c))
