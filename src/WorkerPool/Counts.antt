-- ===== src/WorkerPool/Counts.antt =====
-- How the operations of the pool (detection-engine/scan-worker-pool.ts) change the counts of its slots
-- and of the dispatches in flight.
use guard_core_ts.Base.{
  ℕ, zero, suc, ◌+◌, ◌≤◌, ◌≡◌, refl, subst, ◌⊎◌, inl, inr, Bool, true, false, List, [], ◌∷◌, ◌++◌,
  Option, none, some, ◌==◌, ltb, if◌then◌else◌, sum, sum-append, arith, Option-cases,
}
use mathlib.Core.Option
use guard_core_ts.WorkerPool.{
  Slot, Flight, new_slots, claim, flight_on, pump_queue, find_flight, set_busy, without, replace_in,
  expire, has_slot, unreleased,
}
use guard_core_ts.WorkerPool.Pump.{pump_queue-none, pump_queue-some}

-- How many slots of a list are the slot `id`, how many of them are idle, and how many dispatches in
-- flight are on its worker.
abbrev pub slot_count : ℕ → List Slot → ℕ
slot_count id slots = sum (λ s. if s.id == id then 1 else 0) slots

abbrev pub idle_count : ℕ → List Slot → ℕ
idle_count id slots = sum (λ s. if s.busy then 0 else if s.id == id then 1 else 0) slots

abbrev pub use_count : ℕ → List Flight → ℕ
use_count id flights = sum (λ f. if f.slot == id then 1 else 0) flights

module _ (id : ℕ) where
  -- What `claim` does to the counts.
  abbrev pub Claimed : List Slot → Option (ℕ × List Slot) → Type 0
  Claimed slots none = idle_count id slots ≡ 0
  Claimed slots (some r) =
      (idle_count id slots ≡ idle_count id r.1 + (if r.0 == id then 1 else 0))
      × (slot_count id r.1 ≡ slot_count id slots)

  Claimed-busy :
      (s : Slot) (slots : List Slot) (o : Option (ℕ × List Slot))
      → s.busy ≡ true
      → Claimed slots o
      → Claimed (s ∷ slots) (Option.map (λ r. (r.0, s ∷ r.1)) o)
  Claimed-busy s slots none b h = ground arith
  Claimed-busy s slots (some r) b (h, k) = ground arith

  Claimed-at :
      (s : Slot) (slots : List Slot) (b : Bool)
      → s.busy ≡ b
      → Claimed slots (claim slots)
      → Claimed (s ∷ slots) (
          if b
          then Option.map (λ r. (r.0, s ∷ r.1)) (claim slots)
          else some (s.id, record s { busy = true } ∷ slots))
  Claimed-at s slots true e h = Claimed-busy s slots (claim slots) e h
  Claimed-at s slots false e h = (ground arith, ground arith)

  pub claim_lem : (slots : List Slot) → Claimed slots (claim slots)
  unfolding claim
  claim_lem [] = refl
  claim_lem (s ∷ slots) = Claimed-at s slots s.busy refl (claim_lem slots)

  pub pump_queue_counts :
      (queue : List ℕ) (slots : List Slot) (flights : List Flight)
      → (use_count id (pump_queue queue slots flights).2
            + idle_count id (pump_queue queue slots flights).1
          ≡ use_count id flights + idle_count id slots)
        × (slot_count id (pump_queue queue slots flights).1 ≡ slot_count id slots)
        × (use_count id flights ≤ use_count id (pump_queue queue slots flights).2)
  unfolding pump_queue
  pump_queue_counts [] slots flights = (refl, refl, omega arith)
  pump_queue_counts (t ∷ queue) slots flights = elim (Option-cases (claim slots)) [
    | inl e ↦ rw (pump_queue-none t queue slots flights e) (refl, refl, omega arith)
    | inr (r, e) ↦
        let sent = flights ++ flight_on r.0 t ∷ [] in
        let claimed = subst (Claimed slots) e (claim_lem slots) in
        let rest = pump_queue_counts queue r.1 sent in
        let added =
          sum-append (λ (f : Flight). if f.slot == id then 1 else 0) flights
            (flight_on r.0 t ∷ []) in
        rw (pump_queue-some t queue slots flights r e) (
          ground (arith, claimed, rest, added),
          ground (arith, claimed, rest),
          ground (arith, rest, added),
        )
  ]

  pub set_busy_counts :
      (slot : ℕ) (slots : List Slot)
      → (slot_count id (set_busy slot false slots) ≡ slot_count id slots)
        × (idle_count id (set_busy slot false slots)
            ≡ (if slot == id then slot_count id slots else idle_count id slots))
  unfolding set_busy
  set_busy_counts slot [] = ground arith
  set_busy_counts slot (s ∷ slots) = ground (arith, set_busy_counts slot slots)

  pub idle-slot_count : (slots : List Slot) → idle_count id slots ≤ slot_count id slots
  idle-slot_count [] = omega arith
  idle-slot_count (s ∷ slots) = ground (arith, idle-slot_count slots)

  pub without_count :
      (task : ℕ) (flights : List Flight) (f : Flight)
      → find_flight task flights ≡ some f
      → use_count id (without task flights) + (if f.slot == id then 1 else 0) ≡ use_count id flights
  without_count task [] f h = ground arith
  without_count task (g ∷ flights) f h = ground (arith, without_count task flights f)

  pub expire_count :
      (task : ℕ) (flights : List Flight) → use_count id (expire task flights) ≡ use_count id flights
  expire_count task [] = refl
  expire_count task (g ∷ flights) = ground (arith, expire_count task flights)

  pub unreleased_count :
      (slots : List Slot) (flights : List Flight)
      → use_count id (unreleased slots flights) ≤ use_count id flights
  unfolding unreleased
  unreleased_count slots [] = omega arith
  unreleased_count slots (f ∷ flights) = ground (arith, unreleased_count slots flights)

  pub new_slots_counts :
      (n from : ℕ)
      → (slot_count id (new_slots n from)
          ≡ (if ltb id from then 0 else if ltb id (from + n) then 1 else 0))
        × (idle_count id (new_slots n from) ≡ slot_count id (new_slots n from))
  new_slots_counts zero from = ground arith
  new_slots_counts (suc n) from = ground (arith, new_slots_counts n (suc from))

  -- A slot is replaced where it stands; if it stands nowhere, nothing is.
  pub replace_in_counts :
      (slot : ℕ) (fresh : ℕ) (slots : List Slot)
      → (slot_count id (replace_in slot (record { id = fresh; busy = false }) slots)
            + (if slot == id then (if has_slot slot slots then 1 else 0) else 0)
          ≡ slot_count id slots
            + (if fresh == id then (if has_slot slot slots then 1 else 0) else 0))
        × ((slot ≡ id)
            ⊎ (idle_count id (replace_in slot (record { id = fresh; busy = false }) slots)
                ≡ idle_count id slots
                  + (if fresh == id then (if has_slot slot slots then 1 else 0) else 0)))
  unfolding replace_in
  replace_in_counts slot fresh [] = ground arith
  replace_in_counts slot fresh (s ∷ slots) = ground (arith, replace_in_counts slot fresh slots)

  pub has-slot_count :
      (slot : ℕ) (slots : List Slot)
      → slot ≡ id
      → (slot_count id slots ≡ 0) ⊎ (has_slot slot slots ≡ true)
  has-slot_count slot [] e = inl refl
  has-slot_count slot (s ∷ slots) e = ground (arith, has-slot_count slot slots e)
