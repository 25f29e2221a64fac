-- ===== src/BodyReader/Parsing.antt =====
-- `parseContentLength` of core/bounded-body-reader.ts, on texts as lists of code units.
use guard_core_ts.Base.{
  ℕ, ◌+◌, ◌-◌, ◌*◌, Bool, List, [], ◌∷◌, Option, none, some, ltb, leb, ◌==◌, ◌&&◌, ◌||◌,
  if◌then◌else◌,
}

-- `trim`: the white space of the language, by code unit.
abbrev pub is_space : ℕ → Bool
is_space c =
    (leb 9 c && leb c 13)
    || c == 32
    || c == 160
    || c == 5760
    || (leb 8192 c && leb c 8202)
    || c == 8232
    || c == 8233
    || c == 8239
    || c == 8287
    || c == 12288
    || c == 65279

unfoldable pub trim_start : List ℕ → List ℕ
trim_start [] = []
trim_start (c ∷ cs) = if is_space c then trim_start cs else c ∷ cs

-- White space at the end goes: an element stays if it is none or something after it stays.
unfoldable pub trim_end : List ℕ → List ℕ
trim_end [] = []
trim_end (c ∷ cs) = keep_char c (trim_end cs)
  where
    keep_char : ℕ → List ℕ → List ℕ
    keep_char c [] = if is_space c then [] else c ∷ []
    keep_char c (d ∷ ds) = c ∷ d ∷ ds

abbrev pub is_digit : ℕ → Bool
is_digit c = leb 48 c && leb c 57

-- `/^\d+$/` and `Number.parseInt`: the value of the digits, if there are only digits.
unfoldable pub digits_value : ℕ → List ℕ → Option ℕ
digits_value acc [] = some acc
digits_value acc (c ∷ cs) = if is_digit c then digits_value (acc * 10 + (c - 48)) cs else none

unfoldable pub positive : Option ℕ → Option ℕ
positive none = none
positive (some n) = if ltb 0 n then some n else none

unfoldable pub parse_stripped : List ℕ → Option ℕ
parse_stripped [] = none
parse_stripped (c ∷ cs) = positive (digits_value 0 (c ∷ cs))

-- `parseContentLength`
unfoldable pub parse_content_length : List ℕ → Option ℕ
parse_content_length value = parse_stripped (trim_end (trim_start value))
