-- ===== src/BodyReader/ContentLength.antt =====
-- The declared size of a body (`parseContentLength` of core/bounded-body-reader.ts).
use guard_core_ts.Base.{
  ℕ, zero, suc, ◌+◌, ◌/◌, ◌%◌, ◌<◌, ◌≡◌, ◌≢◌, append_assoc, refl, ◌∙◌, ap, true, false, List, [],
  ◌∷◌, ◌++◌, some, ltb, if◌then◌else◌, All, if_cases, arith,
}
use guard_core_ts.BodyReader.{
  is_space, is_digit, trim_start, trim_end, digits_value, positive, parse_stripped,
  parse_content_length,
}

-- The decimal digits of a number, in front of others.
abbrev digits_from : ℕ → ℕ → List ℕ → List ℕ
digits_from zero n acc = acc
digits_from (suc fuel) n acc =
    let rest = digits_from fuel (n / 10) ((48 + n % 10) ∷ acc) in
    if ltb n 10 then (48 + n) ∷ acc else rest

-- A number has fewer digits than its successor is large.
abbrev pub digits : ℕ → List ℕ
digits n = digits_from (suc n) n []

is_digit_of : (n : ℕ) → n < 10 → is_digit (48 + n) ≡ true
is_digit_of n h = ground arith

digits_step :
    (n : ℕ) (acc : List ℕ) → digits_value (n / 10) ((48 + n % 10) ∷ acc) ≡ digits_value n acc
unfolding digits_value
digits_step n acc =
    rw (is_digit_of (n % 10) (omega arith)) (ap (λ v. digits_value v acc) (omega arith))

digits_from_value :
    (fuel n : ℕ) (acc : List ℕ)
    → n < fuel
    → digits_value 0 (digits_from fuel n acc) ≡ digits_value n acc
unfolding digits_value
digits_from_value zero n acc h = ground arith
digits_from_value (suc fuel) n acc h =
    if_cases (λ (ds : List ℕ). digits_value 0 ds ≡ digits_value n acc) (ltb n 10)
      (λ e. rw (is_digit_of n (ground (arith, e))) (ap (λ v. digits_value v acc) (omega arith)))
      (λ e.
        digits_from_value fuel (n / 10) ((48 + n % 10) ∷ acc) (ground (arith, h, e))
        ∙ digits_step n acc)

abbrev IsDigits : List ℕ → Type 0
IsDigits cs = All (λ c. is_digit c ≡ true) cs

digits_from-IsDigits :
    (fuel n : ℕ) (acc : List ℕ) → IsDigits acc → IsDigits (digits_from fuel n acc)
digits_from-IsDigits zero n acc h = h
digits_from-IsDigits (suc fuel) n acc h =
    if_cases IsDigits (ltb n 10) (λ e. (is_digit_of n (ground (arith, e)), h))
      (λ e.
        digits_from-IsDigits fuel (n / 10) ((48 + n % 10) ∷ acc)
          (is_digit_of (n % 10) (omega arith), h))

abbrev pub IsSpaces : List ℕ → Type 0
IsSpaces cs = All (λ c. is_space c ≡ true) cs

digit_not_space : (c : ℕ) → is_digit c ≡ true → is_space c ≡ false
digit_not_space c h = ground arith

trim_start-append : (a xs : List ℕ) → IsSpaces a → trim_start (a ++ xs) ≡ trim_start xs
unfolding trim_start
trim_start-append [] xs h = refl
trim_start-append (c ∷ a) xs (e, h) = rw e (trim_start-append a xs h)

trim_end-spaces : (b : List ℕ) → IsSpaces b → trim_end b ≡ []
unfolding trim_end
trim_end-spaces [] h = refl
trim_end-spaces (c ∷ b) (e, h) = rw (trim_end-spaces b h, e) refl

trim_end-append :
    (c : ℕ) (ds b : List ℕ) → IsDigits (c ∷ ds) → IsSpaces b → trim_end ((c ∷ ds) ++ b) ≡ c ∷ ds
unfolding trim_end
trim_end-append c [] b (e, h) k = rw (trim_end-spaces b k, digit_not_space c e) refl
trim_end-append c (d ∷ ds) b (e, h) k = rw (trim_end-append d ds b h k) refl

stripped :
    (ds a b : List ℕ)
    → IsDigits ds
    → IsSpaces a
    → IsSpaces b
    → ds ≢ []
    → trim_end (trim_start (a ++ ds ++ b)) ≡ ds
unfolding trim_start
stripped [] a b h k l ne = ground arith
stripped (c ∷ ds) a b (e, h) k l ne =
    rw (append_assoc a (c ∷ ds) b, trim_start-append a ((c ∷ ds) ++ b) k, digit_not_space c e)
      (trim_end-append c ds b (e, h) l)

parse_stripped-value :
    (ds : List ℕ) (n : ℕ)
    → 0 < n
    → digits_value 0 ds ≡ some n
    → (parse_stripped ds ≡ some n) × (ds ≢ [])
unfolding parse_stripped digits_value positive
parse_stripped-value [] n h e = ground arith
parse_stripped-value (c ∷ ds) n h e = (rw e (ground (arith, h)), λ e'. ground arith)

-- A positive number written in decimal, with any white space around it, is read back as that number.
pub parse-digits :
    (n : ℕ) (before after : List ℕ)
    → 0 < n
    → IsSpaces before
    → IsSpaces after
    → parse_content_length (before ++ digits n ++ after) ≡ some n
unfolding parse_content_length digits_value
parse-digits n before after h k l =
    let (value, filled) =
      parse_stripped-value (digits n) n h (digits_from_value (suc n) n [] (omega arith)) in
    rw (stripped (digits n) before after (digits_from-IsDigits (suc n) n [] tt) k l filled) value
