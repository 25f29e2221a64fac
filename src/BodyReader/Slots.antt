-- ===== src/BodyReader/Slots.antt =====
-- The budget of reads in flight (`acquireSlot`, `releaseSlot` of core/bounded-body-reader.ts).
use guard_core_ts.Base.{
  ℕ, suc, ◌-◌, ◌≤◌, ◌<◌, ◌≡◌, refl, ◌∙◌, ap, sym, subst, ◌⊎◌, inl, inr, true, List, [], ◌∷◌, ◌++◌,
  Option, none, some, length, length-append, ltb, All, arith, if_cases, append_assoc, append-nil,
}
use guard_core_ts.BodyReader.{
  set_body_read_concurrency_limit, acquire_slot, wake, release_slot, BodyConfig, adopt_limit,
  BudgetEvent, asks, ends, sees, Running, start_if, woken, remove_first, has_reader, step, run,
}

-- No reads yet, under a limit.
abbrev pub idle : ℕ → Running
idle limit = record {
  budget = record { in_flight = 0; acquire = []; max_concurrent_limit = limit };
  readers = [];
  granted = [];
}

-- The reads that asked, in order.
abbrev pub asked : List BudgetEvent → List ℕ
asked [] = []
asked (asks reader ∷ es) = reader ∷ asked es
asked (ends reader ∷ es) = asked es
asked (sees config ∷ es) = asked es

-- An event that brings no other limit.
abbrev pub Keeps : ℕ → BudgetEvent → Type 0
Keeps limit (asks reader) = Unit
Keeps limit (ends reader) = Unit
Keeps limit (sees none) = Unit
Keeps limit (sees (some c)) =
    (c.body_read_max_concurrent ≡ limit) ⊎ (c.body_read_max_concurrent ≡ 0)

-- The budget in order: the slots are those of the running reads, at most the limit, and all of them
-- while a read is queued; and the reads get their slots in the order in which they asked.
pub record IsFair (limit : ℕ) (order : List ℕ) (s : Running) : Type 0 where
  pub limited : s.budget.max_concurrent_limit ≡ limit
  pub counted : s.budget.in_flight ≡ length s.readers
  pub bounded : s.budget.in_flight ≤ limit
  pub busy : (s.budget.acquire ≡ []) ⊎ (s.budget.in_flight ≡ limit)
  pub ordered : s.granted ++ s.budget.acquire ≡ order

none_queued :
    (limit : ℕ) (order : List ℕ) (s : Running)
    → IsFair limit order s
    → s.budget.in_flight < limit
    → s.budget.acquire ≡ []
none_queued limit order s v h = elim v.busy [ inl e ↦ e | inr e ↦ ground (arith, h, e) ]

asks-IsFair :
    (limit : ℕ) (order : List ℕ) (reader : ℕ) (s : Running)
    → IsFair limit order s
    → IsFair limit (order ++ reader ∷ []) (start_if (acquire_slot reader s.budget) reader s)
unfolding start_if acquire_slot
asks-IsFair limit order reader s v =
    if_cases (λ r. IsFair limit (order ++ reader ∷ []) (start_if r reader s))
      (ltb s.budget.in_flight s.budget.max_concurrent_limit)
      (λ free.
        let below : s.budget.in_flight < limit = ground (arith, free, v.limited) in
        let idle_queue = none_queued limit order s v below in
        record {
          limited = v.limited;
          counted = omega (arith, v.counted, length-append s.readers (reader ∷ []));
          bounded = omega (arith, below);
          busy = inl idle_queue;
          ordered =
              subst
                (λ q. s.granted ++ q ≡ order → s.granted ++ reader ∷ [] ++ q ≡ order ++ reader ∷ [])
                (sym idle_queue)
                (λ e. append-nil _ ∙ ap (λ xs. xs ++ reader ∷ []) (sym (append-nil s.granted) ∙ e))
                v.ordered;
        })
      (λ full. record {
        limited = v.limited;
        counted = v.counted;
        bounded = v.bounded;
        busy = inr (ground (arith, full, v.limited, v.bounded));
        ordered =
            sym (append_assoc s.granted s.budget.acquire (reader ∷ []))
            ∙ ap (λ xs. xs ++ reader ∷ []) v.ordered;
      })

remove-length :
    (reader : ℕ) (readers : List ℕ)
    → has_reader reader readers ≡ true
    → suc (length (remove_first reader readers)) ≡ length readers
remove-length reader [] h = ground arith
remove-length reader (r ∷ readers) h = ground (arith, remove-length reader readers)

-- A read is over: its slot goes to the oldest read in the queue.
over : ℕ → List ℕ → Running → Running
unfolding woken wake
over reader q s =
    let w = wake q (s.budget.in_flight - 1) in
    woken (w.0, record s.budget { in_flight = w.2; acquire = w.1 })
      (record s { readers = remove_first reader s.readers })

over-IsFair :
    (limit : ℕ) (order q : List ℕ) (reader : ℕ) (s : Running)
    → IsFair limit order s
    → has_reader reader s.readers ≡ true
    → s.budget.acquire ≡ q
    → IsFair limit order (over reader q s)
unfolding over woken wake
over-IsFair limit order [] reader s v h e = record {
  limited = v.limited;
  counted = omega (arith, v.counted, remove-length reader s.readers h);
  bounded = omega (arith, v.bounded);
  busy = inl refl;
  ordered = ap (λ q. s.granted ++ q) (sym e) ∙ v.ordered;
}
over-IsFair limit order (next ∷ q) reader s v h e =
    let left = remove_first reader s.readers in
    let less = remove-length reader s.readers h in
    let still_busy : s.budget.in_flight ≡ limit = ground (arith, v.busy, e) in
    record {
      limited = v.limited;
      counted = omega (arith, v.counted, less, length-append left (next ∷ []));
      bounded = omega (arith, v.bounded, v.counted, less);
      busy = inr (omega (arith, still_busy, v.counted, less));
      ordered =
          append_assoc s.granted (next ∷ []) q ∙ ap (λ xs. s.granted ++ xs) (sym e) ∙ v.ordered;
    }

sees-IsFair :
    (limit : ℕ) (order : List ℕ) (config : Option BodyConfig) (s : Running)
    → Keeps limit (sees config)
    → IsFair limit order s
    → IsFair limit order (record s { budget = adopt_limit config s.budget })
unfolding adopt_limit set_body_read_concurrency_limit
sees-IsFair limit order none s k v = v
sees-IsFair limit order (some c) s k v =
    if_cases (λ b. IsFair limit order (record s { budget = b })) (ltb 0 c.body_read_max_concurrent)
      (λ e. record {
        limited = ground (arith, k, e);
        counted = v.counted;
        bounded = v.bounded;
        busy = v.busy;
        ordered = v.ordered;
      })
      (λ e. v)

run-IsFair_from :
    (limit : ℕ) (es : List BudgetEvent) (order : List ℕ) (s : Running)
    → All (Keeps limit) es
    → IsFair limit order s
    → IsFair limit (order ++ asked es) (run s es)
unfolding run step release_slot over
run-IsFair_from limit [] order s k v = subst (λ xs. IsFair limit xs s) (sym (append-nil order)) v
run-IsFair_from limit (asks reader ∷ es) order s (k, ks) v =
    subst (λ xs. IsFair limit xs (run s (asks reader ∷ es)))
      (append_assoc order (reader ∷ []) (asked es))
      (run-IsFair_from limit es (order ++ reader ∷ []) (step s (asks reader)) ks
        (asks-IsFair limit order reader s v))
run-IsFair_from limit (ends reader ∷ es) order s (k, ks) v =
    run-IsFair_from limit es order (step s (ends reader)) ks (
      if_cases (IsFair limit order) (has_reader reader s.readers)
        (λ h. over-IsFair limit order s.budget.acquire reader s v h refl) (λ h. v))
run-IsFair_from limit (sees config ∷ es) order s (k, ks) v =
    run-IsFair_from limit es order (step s (sees config)) ks (sees-IsFair limit order config s k v)

-- From an idle budget, under one limit, whatever the reads do: at most `limit` of them run at a time,
-- all of these slots are taken while a read is queued, and the reads start in the order in which they
-- asked.
pub run-IsFair :
    (limit : ℕ) (es : List BudgetEvent)
    → All (Keeps limit) es
    → IsFair limit (asked es) (run (idle limit) es)
run-IsFair limit es k = run-IsFair_from limit es [] (idle limit) k (record {
  limited = refl;
  counted = refl;
  bounded = omega arith;
  busy = inl refl;
  ordered = refl;
})
