-- ===== src/Paths/Subtree.antt =====
-- Matching an excluded path (core/validation/path-matching.ts): on normal forms it is the prefix order
-- of the segments, and not of the text.
use guard_core_ts.Base.{
  ℕ, ◌≡◌, refl, sym, ap, ◌∙◌, ◌⊎◌, inl, inr, Bool, true, false, List, [], ◌∷◌, ◌++◌, Option, none,
  some, ◌&&◌, ◌||◌, arith, All, append-nil, Option-cases, ◌↔◌, subst,
}
use mathlib.Core.Option
use guard_core_ts.Paths.{
  Text, slash, text_eq, starts_with, join, render, is_subtree_or_equal, path_matches_exclusions,
  normalize_url_path, normalize_exclude_paths, path_is_excluded, decode_percent_recursive,
  collapse_dot_segments, keep_normal,
}
use guard_core_ts.Paths.Segments.{IsInner, IsPlain}
use guard_core_ts.Paths.Canonical.{IsCanonical, collapse-IsCanonical}

-- One list of segments begins with another.
abbrev pub is_prefix : List Text → List Text → Bool
is_prefix [] ws = true
is_prefix (v ∷ vs) [] = false
is_prefix (v ∷ vs) (w ∷ ws) = text_eq w v && is_prefix vs ws

-- Segments, each after a slash.
abbrev flat : List Text → Text
flat [] = []
flat (w ∷ ws) = slash ∷ w ++ flat ws

render-flat : (w : Text) (ws : List Text) → render (w ∷ ws) ≡ flat (w ∷ ws)
unfolding join
render-flat w [] = ap (◌∷◌ slash) (sym (append-nil w))
render-flat w (v ∷ ws) = ap (λ t. slash ∷ w ++ t) (render-flat v ws)

abbrev under : Text → Text → Bool
under s t = text_eq s t || starts_with s (t ++ slash ∷ [])

under_end : (ws : List Text) → under (flat ws) [] ≡ true
under_end [] = refl
under_end (w ∷ ws) = refl

under-segment :
    (w v : Text) (ws vs : List Text)
    → All IsInner w
    → All IsInner v
    → under (w ++ flat ws) (v ++ flat vs) ≡ text_eq w v && under (flat ws) (flat vs)
under-segment [] [] ws vs h k = refl
under-segment [] (d ∷ v) [] vs h (i, k) = refl
under-segment [] (d ∷ v) (w ∷ ws) vs h (i, k) = ground (arith, i)
under-segment (c ∷ w) [] ws [] (i, h) k = ground (arith, i)
under-segment (c ∷ w) [] ws (v ∷ vs) (i, h) k = ground (arith, i)
under-segment (c ∷ w) (d ∷ v) ws vs (i, h) (j, k) = ground (arith, under-segment w v ws vs h k)

under-flat :
    (ws vs : List Text)
    → All IsPlain ws
    → All IsPlain vs
    → under (flat ws) (flat vs) ≡ is_prefix vs ws
under-flat ws [] h k = under_end ws
under-flat [] (v ∷ vs) h k = refl
under-flat (w ∷ ws) (v ∷ vs) (p, h) (q, k) =
    under-segment w v ws vs p.inner q.inner ∙ ap (λ b. text_eq w v && b) (under-flat ws vs h k)

not_root : (v : Text) (vs : List Text) → IsPlain v → text_eq (flat (v ∷ vs)) (slash ∷ []) ≡ false
not_root [] vs q = ground (arith, q.some_text)
not_root (d ∷ v) vs q = refl

root_alone :
    (v : Text) (vs : List Text)
    → IsPlain v
    → is_subtree_or_equal (slash ∷ []) (flat (v ∷ vs)) ≡ false
unfolding is_subtree_or_equal
root_alone [] vs q = ground (arith, q.some_text)
root_alone (d ∷ v) vs q = refl

render-nil : render [] ≡ slash ∷ []
unfolding join
render-nil = refl

subtree_root : (ws : List Text) → is_subtree_or_equal (render ws) (render []) ≡ true
unfolding is_subtree_or_equal join
subtree_root ws = refl

subtree_flat :
    (t v : Text) (vs : List Text)
    → IsPlain v
    → is_subtree_or_equal t (flat (v ∷ vs)) ≡ under t (flat (v ∷ vs))
unfolding is_subtree_or_equal
subtree_flat t v vs q = rw (not_root v vs q)

-- On normal forms a path is under an excluded path exactly when its segments begin with those of the
-- excluded path: a text that merely begins alike is not excluded.
pub subtree-is_prefix :
    (ws vs : List Text)
    → All IsPlain ws
    → All IsPlain vs
    → is_subtree_or_equal (render ws) (render vs) ≡ is_prefix vs ws
unfolding is_subtree_or_equal
subtree-is_prefix ws [] h k = subtree_root ws
subtree-is_prefix [] (v ∷ vs) h (q, k) =
    ap (λ t. is_subtree_or_equal t (render (v ∷ vs))) render-nil
    ∙ ap (is_subtree_or_equal (slash ∷ [])) (render-flat v vs)
    ∙ root_alone v vs q
subtree-is_prefix (w ∷ ws) (v ∷ vs) h k =
    ap (λ t. is_subtree_or_equal t (render (v ∷ vs))) (render-flat w ws)
    ∙ ap (is_subtree_or_equal (flat (w ∷ ws))) (render-flat v vs)
    ∙ subtree_flat (flat (w ∷ ws)) v vs k.0
    ∙ under-flat (w ∷ ws) (v ∷ vs) h k

some_inj : {a b : Text} → ◌≡◌ {A = Option Text} (some a) (some b) → a ≡ b
some_inj {a} {b} e = ground (arith, e)

abbrev pub Exists : (Text → Type 0) → List Text → Type 0
Exists P [] = ⊥
Exists P (p ∷ ps) = P p ⊎ Exists P ps

module _ (utf8 : List ℕ → Option Text) where
  normalize-IsCanonical :
      (raw path : Text) → normalize_url_path utf8 raw ≡ some path → IsCanonical path
  unfolding normalize_url_path
  normalize-IsCanonical raw path e = elim (Option-cases (decode_percent_recursive utf8 raw)) [
    | inl n ↦ ground (arith, n)
    | inr (decoded, d) ↦
        subst IsCanonical (some_inj (ap (Option.map collapse_dot_segments) (sym d) ∙ e))
          (collapse-IsCanonical decoded)
  ]

  -- An entry that has a normal form, whose segments the given ones begin with.
  abbrev pub Covers : List Text → Text → Type 0
  Covers ws entry =
      (vs : List Text) × All IsPlain vs
      × (normalize_url_path utf8 entry ≡ some (render vs))
      × (is_prefix vs ws ≡ true)

  Covers-render :
      (ws : List Text) (p path : Text)
      → All IsPlain ws
      → normalize_url_path utf8 p ≡ some path
      → (is_subtree_or_equal (render ws) path ≡ true) ↔ Covers ws p
  Covers-render ws p path h n =
      let (vs, plain, e) = normalize-IsCanonical p path n in
      (
        λ m. (
          vs,
          plain,
          n ∙ ap some e,
          sym (subtree-is_prefix ws vs h plain)
              ∙ subst (λ t. is_subtree_or_equal (render ws) t ≡ true) e m,
        ),
        λ (us, plain', e', m).
            subst (λ t. is_subtree_or_equal (render ws) t ≡ true) (some_inj (sym e' ∙ n))
              (subtree-is_prefix ws us h plain' ∙ m),
      )

  kept_iff :
      (o : Option Text) (ws : List Text) (p : Text) (ps qs : List Text)
      → All IsPlain ws
      → normalize_url_path utf8 p ≡ o
      → (path_matches_exclusions (render ws) ps ≡ true) ↔ Exists (Covers ws) qs
      → (path_matches_exclusions (render ws) (keep_normal o ps) ≡ true)
        ↔ (Covers ws p ⊎ Exists (Covers ws) qs)
  unfolding path_matches_exclusions
  kept_iff none ws p ps qs h n rest =
      (λ m. inr (rest.0 m), λ x. elim x [ inl (vs, plain, e, m) ↦ cc | inr r ↦ rest.1 r ])
  kept_iff (some path) ws p ps qs h n rest = ground (arith, Covers-render ws p path h n, rest)

  matches_iff :
      (ws : List Text) (ps : List Text)
      → All IsPlain ws
      → (path_matches_exclusions (render ws) (normalize_exclude_paths utf8 ps) ≡ true)
        ↔ Exists (Covers ws) ps
  unfolding normalize_exclude_paths path_matches_exclusions
  matches_iff ws [] h = ground arith
  matches_iff ws (p ∷ ps) h =
      kept_iff (normalize_url_path utf8 p) ws p (normalize_exclude_paths utf8 ps) ps h refl
        (matches_iff ws ps h)

  -- A path with a normal form is excluded exactly when some configured entry has a normal form whose
  -- segments the path's segments begin with.
  pub path_is_excluded_iff :
      (url : Text) (ps ws : List Text)
      → All IsPlain ws
      → normalize_url_path utf8 url ≡ some (render ws)
      → (path_is_excluded utf8 url ps ≡ true) ↔ Exists (Covers ws) ps
  unfolding path_is_excluded
  path_is_excluded_iff url ps ws h e = rw (e, path_is_excluded) (matches_iff ws ps h)
