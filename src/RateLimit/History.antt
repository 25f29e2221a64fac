-- ===== src/RateLimit/History.antt =====
-- What the in-memory count means: the calls for the key that fall in the window, over any history of
-- calls (`getInMemoryRequestCount`, handlers/rate-limit.ts).
use guard_core_ts.Base.{
  ℕ, ◌+◌, ◌≤◌, ◌≡◌, refl, ap, ◌∙◌, String, false, List, [], ◌∷◌, ◌++◌, filter, filter-append, All,
  All-append, length, length-append, arith, if◌then◌else◌, str_eq, eq_iff, append_assoc, append-nil,
  subst, All-filter, All-imp, eq_refl, Bool-cases, inl, inr,
}
use mathlib.Core.Option
use guard_core_ts.JsMap.{JsMap, get}
use guard_core_ts.JsMap.Laws.{get-put}
use guard_core_ts.RateLimit.Window.{
  in_window, slide, Ascending, Ascending-append, filter_later, filter-Ascending, slide-filter,
}
use guard_core_ts.RateLimit.Manager.{row, in_memory_request_count}

-- A history of calls: the key of each and its time, oldest first.
abbrev pub Calls : Type 0
Calls = List (String × ℕ)

-- The times of the calls for a key.
abbrev pub times : String → Calls → List ℕ
times k [] = []
times k ((j, t) ∷ cs) = if str_eq j k then t ∷ times k cs else times k cs

-- The store after a history, every call with the window `w`.
unfoldable pub run : ℕ → JsMap (List ℕ) → Calls → JsMap (List ℕ)
run w store [] = store
run w store ((k, t) ∷ cs) = run w (in_memory_request_count store k t w).0 cs

-- The clock does not go back: each time is at least the one before, from `last` on, up to `now`.
abbrev pub Chronological : ℕ → Calls → ℕ → Type 0
Chronological last [] now = last ≤ now
Chronological last ((k, t) ∷ cs) now = (last ≤ t) × Chronological t cs now

-- What the store knows of a history that ended at `last`.
record Tracks (w last : ℕ) (store : JsMap (List ℕ)) (h : Calls) : Type 0 where
  ascending : (k : String) → Ascending (row store k)
  past : (k : String) → All (λ t. t ≤ last) (row store k)
  same :
      (k : String) (now : ℕ)
      → last ≤ now
      → filter (in_window now w) (row store k) ≡ filter (in_window now w) (times k h)

times-append : (k : String) (h h' : Calls) → times k (h ++ h') ≡ times k h ++ times k h'
times-append k [] h' = refl
times-append k ((j, t) ∷ h) h' = ground (arith, times-append k h h')

pub row-count :
    (store : JsMap (List ℕ)) (k j : String) (t w : ℕ)
    → row (in_memory_request_count store k t w).0 j
      ≡ (if str_eq k j then slide t w (row store k) else row store j)
unfolding in_memory_request_count
row-count store k j t w =
    ap (λ o. Option.get_or o []) (get-put store k j (slide t w (row store k))) ∙ ground arith

module _ {w last : ℕ} {store : JsMap (List ℕ)} {h : Calls} (v : Tracks w last store h) where
  slid : (k : String) (t : ℕ) → List ℕ
  slid k t = filter (in_window t w) (row store k) ++ t ∷ []

  slid_past :
      (k : String) (t : ℕ) → last ≤ t → All (λ u. u ≤ t) (filter (in_window t w) (row store k))
  slid_past k t le =
      All-filter (λ u. u ≤ t) (in_window t w) (row store k)
        (All-imp (λ u. u ≤ last) (λ u. u ≤ t) (λ u p. omega arith) (row store k) (v.past k))

  -- One call more in the store and in the history.
  slid-same :
      (k : String) (t now : ℕ)
      → last ≤ t
      → t ≤ now
      → filter (in_window now w) (slid k t) ≡ filter (in_window now w) (times k (h ++ (k, t) ∷ []))
  unfolding slid
  slid-same k t now le le' = rw (
    filter-append (in_window now w) (filter (in_window t w) (row store k)) (t ∷ []),
    filter_later t now w (row store k) le',
    times-append k h ((k, t) ∷ []),
    filter-append (in_window now w) (times k h) (times k ((k, t) ∷ [])),
    v.same k now (omega arith),
    eq_refl k,
  )

  other-same :
      (k j : String) (t now : ℕ)
      → str_eq k j ≡ false
      → last ≤ now
      → filter (in_window now w) (row store j)
        ≡ filter (in_window now w) (times j (h ++ (k, t) ∷ []))
  other-same k j t now ne le =
      rw (times-append j h ((k, t) ∷ []), ne, append-nil (times j h)) (v.same j now le)

  -- The row of a key after one call: its own slides, the others stay.
  row_cases :
      (P : List ℕ → Type 0) (k j : String) (t : ℕ)
      → (k ≡ j → P (slid j t))
      → (str_eq k j ≡ false → P (row store j))
      → P (row (in_memory_request_count store k t w).0 j)
  unfolding slid
  row_cases P k j t own other = elim (Bool-cases (str_eq k j)) [
    | inl e ↦
        let same = (eq_iff k j).0 e in
        rw (row-count store k j t w, e)
          (rw same (rw (slide-filter t w (row store j) (v.ascending j)) (own same)))
    | inr e ↦ rw (row-count store k j t w, e) (other e)
  ]

  step-Tracks :
      (k : String) (t : ℕ)
      → last ≤ t
      → Tracks w t (in_memory_request_count store k t w).0 (h ++ (k, t) ∷ [])
  unfolding slid
  step-Tracks k t le = record {
    ascending = λ j.
        row_cases Ascending k j t
          (λ e.
            Ascending-append _ t (filter-Ascending _ (row store j) (v.ascending j))
              (slid_past j t le))
          (λ e. v.ascending j);
    past = λ j.
        row_cases (All (λ u. u ≤ t)) k j t
          (λ e. All-append (λ u. u ≤ t) _ (t ∷ []) (slid_past j t le) (omega arith, tt))
          (λ e. All-imp (λ u. u ≤ last) (λ u. u ≤ t) (λ u p. omega arith) (row store j) (v.past j));
    same = λ j now le'.
        row_cases
          (λ r. filter (in_window now w) r ≡ filter (in_window now w) (times j (h ++ (k, t) ∷ [])))
          k j t (λ e. rw e (slid-same j t now le le')) (λ e. other-same k j t now e (omega arith));
  }

run-Tracks :
    (cs : Calls) (w last now : ℕ) (store : JsMap (List ℕ)) (h : Calls)
    → Tracks w last store h
    → Chronological last cs now
    → (last' : ℕ) × (last' ≤ now) × Tracks w last' (run w store cs) (h ++ cs)
unfolding run
run-Tracks [] w last now store h v c = (last, c, rw (append-nil h) v)
run-Tracks ((k, t) ∷ cs) w last now store h v (le, c) =
    let (last', le', v') = run-Tracks cs w t now _ (h ++ (k, t) ∷ []) (step-Tracks v k t le) c in
    (
      last',
      le',
      subst (Tracks w last' (run w (in_memory_request_count store k t w).0 cs))
          (append_assoc h ((k, t) ∷ []) cs) v',
    )

empty-Tracks : (w : ℕ) → Tracks w 0 [] []
unfolding get
empty-Tracks w = record { ascending = λ k. tt; past = λ k. tt; same = λ k now le. refl }

-- After any history of calls in the order of the clock, all with one window, the count of a call
-- for a key is the number of earlier calls for that key still inside the window, plus one.
pub count-run :
    (w : ℕ) (cs : Calls) (k : String) (now : ℕ)
    → Chronological 0 cs now
    → (in_memory_request_count (run w [] cs) k now w).1
      ≡ length (filter (in_window now w) (times k cs)) + 1
unfolding in_memory_request_count
count-run w cs k now c =
    let (last, le, v) = run-Tracks cs w 0 now [] [] (empty-Tracks w) c in
    ap length (slide-filter now w (row (run w [] cs) k) (v.ascending k))
    ∙ length-append (filter (in_window now w) (row (run w [] cs) k)) (now ∷ [])
    ∙ ap (λ xs. length xs + 1) (v.same k now le)
