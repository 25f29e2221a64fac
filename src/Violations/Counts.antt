-- ===== src/Violations/Counts.antt =====
-- What `incrementSuspiciousCounts` counts, forgets and keeps (core/checks/helpers.ts).
use guard_core_ts.Base.{
  ℕ, ◌+◌, ◌≤◌, ◌<◌, ◌≡◌, refl, ap, ◌∙◌, ◌≢◌, ◌⊎◌, String, List, [], ◌∷◌, Option, none, some,
  if◌then◌else◌, str_eq, eq_iff, eq_refl, arith, length, inl, inr, Option-cases,
}
use mathlib.Core.Option
use guard_core_ts.JsMap.{JsMap, get, put, delete, size, first_key}
use guard_core_ts.JsMap.Laws.{
  IsMap, get-put, get-delete_ne, put-IsMap, delete-IsMap, size-delete, get-some-has, size-put-le,
  size-delete-le,
}
use guard_core_ts.Violations.{
  Counts, max_tracked, count_of, count_categories, resolved, drop_oldest, make_room,
  increment_suspicious_counts, sum_values, total_suspicious_count,
}

-- How often a category stands in a list.
abbrev pub occurrences : String → List String → ℕ
occurrences c [] = 0
occurrences c (d ∷ ds) = (if str_eq d c then 1 else 0) + occurrences c ds

count_categories-count :
    (counts : JsMap ℕ) (cs : List String) (c : String)
    → count_of (count_categories counts cs) c ≡ count_of counts c + occurrences c cs
unfolding count_categories
count_categories-count counts [] c = omega arith
count_categories-count counts (d ∷ ds) c = ground (
  arith,
  count_categories-count (put counts d (count_of counts d + 1)) ds c,
  get-put counts d c (count_of counts d + 1),
  eq_iff d c,
)

sum_values-put :
    (counts : JsMap ℕ) (c : String) (n : ℕ)
    → sum_values (put counts c n) + count_of counts c ≡ sum_values counts + n
unfolding sum_values put get
sum_values-put [] c n = omega arith
sum_values-put ((d, k) ∷ m) c n = ground (arith, sum_values-put m c n)

count_categories-sum :
    (counts : JsMap ℕ) (cs : List String)
    → sum_values (count_categories counts cs) ≡ sum_values counts + length cs
unfolding count_categories
count_categories-sum counts [] = omega arith
count_categories-sum counts (d ∷ ds) = omega (
  arith,
  count_categories-sum (put counts d (count_of counts d + 1)) ds,
  sum_values-put counts d (count_of counts d + 1),
)

increment-get :
    (m : Counts) (ip : String) (cs : List String)
    → get (increment_suspicious_counts m ip cs) ip
      ≡ some (count_categories (Option.get_or (get m ip) []) (resolved cs))
unfolding increment_suspicious_counts
increment-get m ip cs = get-put _ ip ip _ ∙ rw (eq_refl ip)

-- A violation adds to each category of its address as often as it names that category.
pub increment-count :
    (m : Counts) (ip : String) (cs : List String) (c : String)
    → count_of (Option.get_or (get (increment_suspicious_counts m ip cs) ip) []) c
      ≡ count_of (Option.get_or (get m ip) []) c + occurrences c (resolved cs)
increment-count m ip cs c =
    ap (λ o. count_of (Option.get_or o []) c) (increment-get m ip cs)
    ∙ count_categories-count (Option.get_or (get m ip) []) (resolved cs) c

-- The total of its address grows by the number of categories named, at least by one.
pub increment-total :
    (m : Counts) (ip : String) (cs : List String)
    → total_suspicious_count (increment_suspicious_counts m ip cs) ip
      ≡ total_suspicious_count m ip + length (resolved cs)
unfolding total_suspicious_count
increment-total m ip cs =
    ap (λ o. sum_values (Option.get_or o [])) (increment-get m ip cs)
    ∙ count_categories-sum (Option.get_or (get m ip) []) (resolved cs)

pub record IsTracked (m : Counts) : Type 0 where
  pub keys : IsMap m
  pub within : size m ≤ max_tracked

make_room-size :
    (o : Option (JsMap ℕ)) (m : Counts)
    → size m ≤ max_tracked
    → ((o ≡ none) ⊎ (size m < max_tracked))
    → size (make_room o m) < max_tracked
unfolding make_room drop_oldest max_tracked delete
make_room-size (some c) m h k = ground arith
make_room-size none [] h k = omega arith
make_room-size none ((i, c) ∷ m) h k = ground (arith, eq_refl i)

make_room-IsMap : (o : Option (JsMap ℕ)) (m : Counts) → IsMap m → IsMap (make_room o m)
unfolding make_room drop_oldest
make_room-IsMap (some c) m h = h
make_room-IsMap none [] h = ground arith
make_room-IsMap none ((i, c) ∷ m) h = ground (arith, delete-IsMap ((i, c) ∷ m) i h)

-- A violation keeps the number of tracked addresses within the cap.
pub increment-IsTracked :
    (m : Counts) (ip : String) (cs : List String)
    → IsTracked m
    → IsTracked (increment_suspicious_counts m ip cs)
unfolding increment_suspicious_counts
increment-IsTracked m ip cs v = record {
  keys = put-IsMap _ ip _ (make_room-IsMap (get m ip) (delete m ip) (delete-IsMap m ip v.keys));
  within = omega (
    arith,
    size-put-le (make_room (get m ip) (delete m ip)) ip
        (count_categories (Option.get_or (get m ip) []) (resolved cs)),
    make_room-size (get m ip) (delete m ip) (omega (arith, size-delete-le m ip, v.within))
        (room (Option-cases (get m ip))),
  );
}
  where
    room :
        ((get m ip ≡ none) ⊎ ((c : JsMap ℕ) × (get m ip ≡ some c)))
        → (get m ip ≡ none) ⊎ (size (delete m ip) < max_tracked)
    room (inl e) = inl e
    room (inr (c, e)) = inr (ground (arith, size-delete m ip, get-some-has m ip c e, v.within))

make_room-other :
    (o : Option (JsMap ℕ)) (m : Counts) (j : String)
    → (size m < max_tracked) ⊎ (first_key m ≢ some j)
    → get (make_room o m) j ≡ get m j
unfolding make_room drop_oldest
make_room-other (some c) m j h = refl
make_room-other none [] j h = ground arith
make_room-other none ((k, v) ∷ m) j h = ground (arith, get-delete_ne ((k, v) ∷ m) k j, eq_iff k j)

-- A violation of one address changes the counts of no other, unless that other is the oldest of a
-- full map.
pub increment-other :
    (m : Counts) (ip : String) (cs : List String) (j : String)
    → ip ≢ j
    → (size (delete m ip) < max_tracked) ⊎ (first_key (delete m ip) ≢ some j)
    → get (increment_suspicious_counts m ip cs) j ≡ get m j
unfolding increment_suspicious_counts
increment-other m ip cs j ne h =
    get-put _ ip j _
    ∙ ground
        (arith, eq_iff ip j, make_room-other (get m ip) (delete m ip) j h, get-delete_ne m ip j)
