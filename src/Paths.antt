-- ===== src/Paths.antt =====
-- packages/core/src/core/validation/path-matching.ts: the normal form of a request path and the
-- matching of excluded paths. A text is the list of its code units. The UTF-8 decoder is the
-- runtime's `TextDecoder`, a parameter: `none` where it throws.
pub mod Segments
pub mod Canonical
pub mod Subtree
pub mod Tests
use guard_core_ts.Base.{
  ℕ, zero, suc, ◌+◌, ◌-◌, ◌*◌, Bool, true, false, List, [], ◌∷◌, ◌++◌, map, Option, none, some, leb,
  ◌==◌, if◌then◌else◌, ◌&&◌, ◌||◌, any,
}
use mathlib.Core.Option

infixl 5 ◌>>=◌
abbrev pub ◌>>=◌ {ℓ κ} : {A : Type ℓ} {B : Type κ} → Option A → (A → Option B) → Option B
none >>= f = none
some a >>= f = f a

abbrev pub Text : Type 0
Text = List ℕ

abbrev pub slash : ℕ
slash = b'/'

abbrev pub text_eq : Text → Text → Bool
text_eq [] [] = true
text_eq [] (d ∷ t) = false
text_eq (c ∷ s) [] = false
text_eq (c ∷ s) (d ∷ t) = c == d && text_eq s t

abbrev pub starts_with : Text → Text → Bool
starts_with s [] = true
starts_with [] (d ∷ t) = false
starts_with (c ∷ s) (d ∷ t) = c == d && starts_with s t

-- The value of a digit of `[0-9A-Fa-f]`.
unfoldable pub hex_value : ℕ → Option ℕ
hex_value c =
    if leb b'0' c && leb c b'9'
    then some (c - b'0')
    else if leb b'A' c && leb c b'F'
    then some (c - b'A' + 10)
    else if leb b'a' c && leb c b'f'
    then some (c - b'a' + 10)
    else none

-- The byte of an escape `%XX`.
unfoldable pub escape : ℕ → ℕ → ℕ → Option ℕ
escape c d e = if c == b'%' then (do x ← hex_value d; y ← hex_value e; some (x * 16 + y)) else none

-- `PERCENT_RUN.test(s)`
unfoldable pub has_escape : Text → Bool
has_escape (c ∷ d ∷ e ∷ s) = elim (escape c d e) [ some b ↦ true | none ↦ has_escape (d ∷ e ∷ s) ]
has_escape _ = false

module _ (utf8 : List ℕ → Option Text) where
  -- The end of a run of escapes: its bytes are decoded, before what follows.
  unfoldable pub flush : List ℕ → Option Text → Option Text
  flush [] rest = rest
  flush (b ∷ bytes) rest = do decoded ← utf8 (b ∷ bytes); t ← rest; some (decoded ++ t)

  -- `decodePercentOnce`, with the bytes of the run that is open.
  unfoldable pub decode_percent_once : List ℕ → Text → Option Text
  decode_percent_once bytes (c ∷ d ∷ e ∷ s) = elim (escape c d e) [
    | some b ↦ decode_percent_once (bytes ++ b ∷ []) s
    | none ↦ flush bytes (Option.map (◌∷◌ c) (decode_percent_once [] (d ∷ e ∷ s)))
  ]
  decode_percent_once bytes s = flush bytes (some s)

  -- The rounds of `decodePercentRecursive`.
  unfoldable pub decode_rounds : ℕ → Text → Option Text
  decode_rounds zero s = if has_escape s then none else some s
  decode_rounds (suc n) s = do next ← decode_percent_once [] s; decode_rounds n next

  -- `decodePercentRecursive`, with MAX_DECODE_ROUNDS
  unfoldable pub decode_percent_recursive : Text → Option Text
  decode_percent_recursive s = decode_rounds 4 s

-- `rawSegment.slice(0, rawSegment.indexOf(';'))`, with `none` where there is no ';'.
unfoldable pub param_base : Text → Option Text
param_base [] = none
param_base (c ∷ s) = if c == b';' then some [] else Option.map (◌∷◌ c) (param_base s)

abbrev pub one_dot : Text
one_dot = b'.' ∷ []

abbrev pub two_dots : Text
two_dots = b'.' ∷ b'.' ∷ []

-- `foldDotSegmentParams`
unfoldable pub fold_dot_segment_params : Text → Text
fold_dot_segment_params raw = elim (param_base raw) [
  | none ↦ raw
  | some base ↦ if text_eq base one_dot || text_eq base two_dots then base else raw
]

-- `decoded.replace(/\\/g, '/')`
unfoldable pub fold_backslashes : Text → Text
fold_backslashes s = map (λ c. if c == b'\\' then slash else c) s

abbrev pub cons_head : ℕ → List Text → List Text
cons_head c [] = (c ∷ []) ∷ []
cons_head c (w ∷ ws) = (c ∷ w) ∷ ws

-- `split('/')`
unfoldable pub split : Text → List Text
split [] = [] ∷ []
split (c ∷ s) = let rest = split s in if c == slash then [] ∷ rest else cons_head c rest

-- `join('/')`
unfoldable pub join : List Text → Text
join [] = []
join (w ∷ []) = w
join (w ∷ v ∷ ws) = w ++ slash ∷ join (v ∷ ws)

abbrev pub pop : List Text → List Text
pop [] = []
pop (w ∷ []) = []
pop (w ∷ v ∷ ws) = w ∷ pop (v ∷ ws)

-- What one segment does to the segments before it.
unfoldable pub take_segment : List Text → Text → List Text
take_segment segments segment =
    if text_eq segment [] || text_eq segment one_dot
    then segments
    else if text_eq segment two_dots
    then pop segments
    else segments ++ segment ∷ []

unfoldable pub walk : List Text → List Text → List Text
walk segments [] = segments
walk segments (raw ∷ rest) = walk (take_segment segments (fold_dot_segment_params raw)) rest

abbrev pub render : List Text → Text
render segments = slash ∷ join segments

-- `collapseDotSegments`
unfoldable pub collapse_dot_segments : Text → Text
collapse_dot_segments decoded = render (walk [] (split (fold_backslashes decoded)))

-- `isSubtreeOrEqual`
unfoldable pub is_subtree_or_equal : Text → Text → Bool
is_subtree_or_equal path excluded =
    if text_eq excluded (slash ∷ [])
    then true
    else text_eq path excluded || starts_with path (excluded ++ slash ∷ [])

-- `pathMatchesExclusions`
unfoldable pub path_matches_exclusions : Text → List Text → Bool
path_matches_exclusions path exclusions = any (is_subtree_or_equal path) exclusions

abbrev pub keep_normal : Option Text → List Text → List Text
keep_normal none paths = paths
keep_normal (some path) paths = path ∷ paths

module _ (utf8 : List ℕ → Option Text) where
  -- `normalizeUrlPath`
  unfoldable pub normalize_url_path : Text → Option Text
  normalize_url_path raw = Option.map collapse_dot_segments (decode_percent_recursive utf8 raw)

  -- `normalizeExcludePaths`: an entry without a normal form drops out.
  unfoldable pub normalize_exclude_paths : List Text → List Text
  normalize_exclude_paths [] = []
  normalize_exclude_paths (p ∷ ps) = keep_normal (normalize_url_path p) (normalize_exclude_paths ps)

  -- `pathIsExcluded`
  unfoldable pub path_is_excluded : Text → List Text → Bool
  path_is_excluded url_path exclude_paths = elim (normalize_url_path url_path) [
    | some path ↦ path_matches_exclusions path (normalize_exclude_paths exclude_paths)
    | none ↦ false
  ]
