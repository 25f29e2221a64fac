-- ===== src/Base64/Ratios.antt =====
-- packages/core/src/detection-engine/base64-decode.ts: the tests on a decoded text. A ratio is kept
-- as its two counts, a threshold in hundredths: the quotient of two counts below 2 ^ 47 that is not
-- the threshold does not round to it.
use guard_core_ts.Base.{
  Bool, List, Option, [], false, if◌then◌else◌, leb, length, ltb, none, not, some, suc, ℕ, ◌%◌, ◌*◌,
  ◌++◌, ◌+◌, ◌-◌, ◌/◌, ◌==◌, ◌||◌, ◌∷◌,
}
use guard_core_ts.Base64.Strict.{in_range}

-- The code points of a text, as `for ... of` gives them: `high` is a surrogate that waits.
abbrev is_high : ℕ → Bool
is_high c = in_range 0xd800 0xdbff c

abbrev is_low : ℕ → Bool
is_low c = in_range 0xdc00 0xdfff c

unfoldable pub points_after : Option ℕ → List ℕ → List ℕ
points_after none [] = []
points_after (some high) [] = high ∷ []
points_after none (c ∷ text) =
    let pair = points_after (some c) text in
    let rest = points_after none text in if is_high c then pair else c ∷ rest
points_after (some high) (c ∷ text) =
    let both = points_after none text in
    let pair = points_after (some c) text in
    if is_low c
    then ((high - 0xd800) * 1024 + (c - 0xdc00) + 0x10000) ∷ both
    else if is_high c
    then high ∷ pair
    else high ∷ c ∷ both

unfoldable pub code_points : List ℕ → List ℕ
unfolding points_after
code_points text = points_after none text

-- A code point's code units.
abbrev pub units : ℕ → List ℕ
units p =
    if ltb p 0x10000
    then p ∷ []
    else (0xd800 + (p - 0x10000) / 1024) ∷ (0xdc00 + (p - 0x10000) % 1024) ∷ []

abbrev pub from_points : List ℕ → List ℕ
from_points [] = []
from_points (p ∷ points) = units p ++ from_points points

unfoldable is_printable_code_point : ℕ → Bool
is_printable_code_point cp =
    if ltb cp 0x20 || cp == 0x7f
    then false
    else if in_range 0x80 0x9f cp || cp == 0xa0 || cp == 0xad
    then false
    else if in_range 0x2000 0x200f cp || in_range 0x2028 0x202f cp
    then false
    else if cp == 0x205f || cp == 0x3000 || cp == 0x1680
    then false
    else if in_range 0x2060 0x206f cp || cp == 0xfeff
    then false
    else not (in_range 0xfff9 0xfffb cp || in_range 0xd800 0xdfff cp || in_range 0xe000 0xf8ff cp)

abbrev pub count : (ℕ → Bool) → List ℕ → ℕ
count p [] = 0
count p (x ∷ xs) = if p x then suc (count p xs) else count p xs

-- A ratio is its numerator and its denominator, an empty text's 0.
unfoldable pub printable_ratio : List ℕ → ℕ × ℕ
unfolding is_printable_code_point code_points
printable_ratio [] = (0, 1)
printable_ratio (c ∷ text) =
    let points = code_points (c ∷ text) in (count is_printable_code_point points, length points)

unfoldable pub replacement_char_ratio : List ℕ → ℕ × ℕ
unfolding code_points
replacement_char_ratio [] = (0, 1)
replacement_char_ratio (c ∷ text) =
    let points = code_points (c ∷ text) in (count (λ (p : ℕ). p == 0xfffd) points, length points)

-- A ratio against a threshold in hundredths.
abbrev pub at_least : ℕ × ℕ → ℕ → Bool
at_least (n, d) hundredths = leb (hundredths * d) (n * 100)

abbrev pub more_than : ℕ × ℕ → ℕ → Bool
more_than (n, d) hundredths = ltb (hundredths * d) (n * 100)
