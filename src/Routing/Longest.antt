-- ===== src/Routing/Longest.antt =====
-- Which of the registered paths a request gets (core/routing/resolver.ts).
use guard_core_ts.Base.{
  ◌≤◌, ◌≡◌, ◌≢◌, refl, ◌∙◌, sym, String, Bool, true, false, List, [], ◌∷◌, ◌++◌, Option, none, some,
  map, any, All, All-imp, ltb, if◌then◌else◌, arith, if_cases, if_both, ◌||◌,
}
use guard_core_ts.Routing.{
  Entry, text_length, entry_matches, insert, sort, lowered, register, match_path_entry,
}

false≢true : false ≢ true
false≢true e = ground arith

module _ {A : Type 0} where
  -- No entry is longer than the ones before it.
  abbrev pub IsSorted : List (Entry A) → Type 0
  IsSorted [] = Unit
  IsSorted (e ∷ entries) =
      All (λ (d : Entry A). text_length d.path ≤ text_length e.path) entries × IsSorted entries

  All-insert :
      (P : Entry A → Type 0) (e : Entry A) (entries : List (Entry A))
      → P e
      → All P entries
      → All P (insert e entries)
  unfolding insert
  All-insert P e [] p h = (p, tt)
  All-insert P e (d ∷ entries) p (q, h) =
      if_both (All P) (ltb (text_length e.path) (text_length d.path))
        (q, All-insert P e entries p h) (p, (q, h))

  insert-IsSorted :
      (e : Entry A) (entries : List (Entry A)) → IsSorted entries → IsSorted (insert e entries)
  unfolding insert
  insert-IsSorted e [] h = (tt, tt)
  insert-IsSorted e (d ∷ entries) (h, hs) =
      if_cases IsSorted (ltb (text_length e.path) (text_length d.path))
        (λ k. (All-insert _ e entries (ground (arith, k)) h, insert-IsSorted e entries hs))
        (λ k.
          let below : text_length d.path ≤ text_length e.path = ground (arith, k) in
          ((below, All-imp _ _ (λ x g. omega (arith, g, below)) entries h), (h, hs)))

  sort-IsSorted : (entries : List (Entry A)) → IsSorted (sort entries)
  unfolding sort
  sort-IsSorted [] = tt
  sort-IsSorted (e ∷ entries) = insert-IsSorted e (sort entries) (sort-IsSorted entries)

  insert-any :
      (p : Entry A → Bool) (e : Entry A) (entries : List (Entry A))
      → any p (insert e entries) ≡ (p e || any p entries)
  unfolding insert
  insert-any p e [] = ground arith
  insert-any p e (d ∷ entries) = ground (arith, insert-any p e entries)

  sort-any : (p : Entry A → Bool) (entries : List (Entry A)) → any p (sort entries) ≡ any p entries
  unfolding sort
  sort-any p [] = refl
  sort-any p (e ∷ entries) = ground (arith, insert-any p e (sort entries), sort-any p entries)

  All-if_back :
      (P : Entry A → Type 0) (e d : Entry A) (inserted entries : List (Entry A)) (b : Bool)
      → (All P inserted → P e × All P entries)
      → All P (if b then d ∷ inserted else e ∷ d ∷ entries)
      → P e × (P d × All P entries)
  All-if_back P e d inserted entries true before (q, k) = let (p, rest) = before k in (p, (q, rest))
  All-if_back P e d inserted entries false before k = k

  All-insert_back :
      (P : Entry A → Type 0) (e : Entry A) (entries : List (Entry A))
      → All P (insert e entries)
      → P e × All P entries
  unfolding insert
  All-insert_back P e [] h = h
  All-insert_back P e (d ∷ entries) h =
      All-if_back P e d (insert e entries) entries (ltb (text_length e.path) (text_length d.path))
        (All-insert_back P e entries) h

  All-sort_back :
      (P : Entry A → Type 0) (entries : List (Entry A)) → All P (sort entries) → All P entries
  unfolding sort
  All-sort_back P [] h = h
  All-sort_back P (e ∷ entries) h =
      let (p, rest) = All-insert_back P e (sort entries) h in (p, All-sort_back P entries rest)

  -- Where no entry is found, none matches; the entry that is found is one of them, matches, and every
  -- entry that matches has a path that is no longer.
  abbrev pub IsLongest : String → String → List (Entry A) → Option (Entry A) → Type 0
  IsLongest method path entries none = any (entry_matches method path) entries ≡ false
  IsLongest method path entries (some e) =
      (entry_matches method path e ≡ true)
      × ((p : Entry A → Bool) → p e ≡ true → any p entries ≡ true)
      × All
          (λ (d : Entry A).
            entry_matches method path d ≡ true → text_length d.path ≤ text_length e.path)
          entries

  skip :
      (method path : String) (e : Entry A) (entries : List (Entry A)) (found : Option (Entry A))
      → entry_matches method path e ≡ false
      → IsLongest method path entries found
      → IsLongest method path (e ∷ entries) found
  skip method path e entries none misses h = rw misses h
  skip method path e entries (some d) misses (hit, among, longest) = (
    hit,
    (λ p k. ground (arith, among p k)),
    ((λ k. absurd (false≢true (sym misses ∙ k))), longest),
  )

  match-IsLongest :
      (method path : String) (entries : List (Entry A))
      → IsSorted entries
      → IsLongest method path entries (match_path_entry method path entries)
  unfolding match_path_entry
  match-IsLongest method path [] h = refl
  match-IsLongest method path (e ∷ entries) (h, hs) =
      if_cases (IsLongest method path (e ∷ entries)) (entry_matches method path e)
        (λ hit. (
          hit,
          (λ p k. rw k refl),
          ((λ k. omega arith), All-imp _ _ (λ d below k. below) entries h),
        ))
        (λ misses. skip method path e entries _ misses (match-IsLongest method path entries hs))

  unsorted :
      (method path : String) (entries : List (Entry A)) (found : Option (Entry A))
      → IsLongest method path (sort entries) found
      → IsLongest method path entries found
  unsorted method path entries none h = sym (sort-any (entry_matches method path) entries) ∙ h
  unsorted method path entries (some e) (hit, among, longest) =
      (hit, (λ p k. sym (sort-any p entries) ∙ among p k), All-sort_back _ entries longest)

  -- After a registration, a request gets the configuration of an entry, old or new, that matches it and
  -- has the longest path of all that match, the wildcard counted; and it gets none only if none matches.
  pub register-IsLongest :
      (lower : String → String) (entries path_entries : List (Entry A)) (method path : String)
      → IsLongest method path
          (path_entries ++ map (lowered lower) entries)
          (match_path_entry method path (register lower entries path_entries))
  unfolding register
  register-IsLongest lower entries path_entries method path =
      let all = path_entries ++ map (lowered lower) entries in
      unsorted method path all _ (match-IsLongest method path (sort all) (sort-IsSorted all))
