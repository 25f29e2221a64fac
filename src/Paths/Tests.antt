-- ===== src/Paths/Tests.antt =====
-- Runs of core/validation/path-matching.ts, and the theorems about it at concrete inputs.
use guard_core_ts.Base.{
  ℕ, ◌≡◌, refl, ◌↔◌, true, false, List, [], ◌∷◌, Option, none, some, ltb, if◌then◌else◌,
}
use guard_core_ts.Paths.{
  Text, slash, render, collapse_dot_segments, is_subtree_or_equal, has_escape,
  decode_percent_recursive, decode_percent_once, decode_rounds, escape, hex_value, flush,
  normalize_url_path, path_is_excluded, fold_backslashes, split, join, walk, take_segment,
  fold_dot_segment_params, param_base,
}
use guard_core_ts.Paths.Segments.{IsPlain}
use guard_core_ts.Paths.Canonical.{collapse-canonical, decode-no_escape}
use guard_core_ts.Paths.Subtree.{Exists, Covers, path_is_excluded_iff}

-- A decoder of ASCII, which throws on every other byte.
abbrev ascii : List ℕ → Option Text
ascii [] = some []
ascii (b ∷ bytes) = elim (ascii bytes) [
  | none ↦ none
  | some t ↦ if ltb b 128 then some (b ∷ t) else none
]

abbrev api : Text
api = b'a' ∷ b'p' ∷ b'i' ∷ []

abbrev docs : Text
docs = b'd' ∷ b'o' ∷ b'c' ∷ b's' ∷ []

-- /docs/%2e%2e/api/docs
abbrev dotted : Text
dotted =
    slash ∷ b'd' ∷ b'o' ∷ b'c' ∷ b's' ∷ slash ∷ b'%' ∷ b'2' ∷ b'e' ∷ b'%' ∷ b'2' ∷ b'e' ∷ slash
    ∷ b'a' ∷ b'p' ∷ b'i' ∷ slash ∷ docs

api-IsPlain : IsPlain api
unfolding fold_dot_segment_params param_base
api-IsPlain = record {
  inner = ((refl, refl), ((refl, refl), ((refl, refl), tt)));
  some_text = refl;
  no_dot = refl;
  no_dots = refl;
}

docs-IsPlain : IsPlain docs
unfolding fold_dot_segment_params param_base
docs-IsPlain = record {
  inner = ((refl, refl), ((refl, refl), ((refl, refl), ((refl, refl), tt))));
  some_text = refl;
  no_dot = refl;
  no_dots = refl;
}

dotted_lem : normalize_url_path ascii dotted ≡ some (render (api ∷ docs ∷ []))
unfolding normalize_url_path decode_percent_recursive decode_rounds decode_percent_once has_escape
    escape hex_value flush collapse_dot_segments fold_backslashes split join walk take_segment
    fold_dot_segment_params param_base
dotted_lem = refl

-- The prefix of a text is not enough: /docsapi is not under /docs.
not_a_prefix : is_subtree_or_equal (slash ∷ b'd' ∷ b'o' ∷ b'c' ∷ b's' ∷ api) (slash ∷ docs) ≡ false
unfolding is_subtree_or_equal
not_a_prefix = refl

-- A byte that is not decoded leaves the path checked.
undecodable : path_is_excluded ascii (slash ∷ b'%' ∷ b'f' ∷ b'f' ∷ []) ((slash ∷ []) ∷ []) ≡ false
unfolding path_is_excluded normalize_url_path decode_percent_recursive decode_rounds
    decode_percent_once escape hex_value flush
undecodable = refl

collapse-canonical_example :
    collapse_dot_segments (render (api ∷ docs ∷ [])) ≡ render (api ∷ docs ∷ [])
collapse-canonical_example =
    collapse-canonical (render (api ∷ docs ∷ []))
      (api ∷ docs ∷ [], (api-IsPlain, (docs-IsPlain, tt)), refl)

decode-no_escape_example : has_escape (slash ∷ b'.' ∷ []) ≡ false
unfolding decode_percent_recursive decode_rounds decode_percent_once has_escape escape hex_value
    flush
decode-no_escape_example =
    decode-no_escape ascii (slash ∷ b'%' ∷ b'2' ∷ b'e' ∷ []) (slash ∷ b'.' ∷ []) refl

path_is_excluded_iff_example :
    (path_is_excluded ascii dotted ((slash ∷ api) ∷ []) ≡ true)
    ↔ Exists (Covers ascii (api ∷ docs ∷ [])) ((slash ∷ api) ∷ [])
path_is_excluded_iff_example =
    path_is_excluded_iff ascii dotted ((slash ∷ api) ∷ []) (api ∷ docs ∷ [])
      (api-IsPlain, (docs-IsPlain, tt)) dotted_lem
