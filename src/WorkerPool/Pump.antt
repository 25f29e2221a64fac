-- ===== src/WorkerPool/Pump.antt =====
-- One step of `pump` (detection-engine/scan-worker-pool.ts), and what the pump leaves.
use guard_core_ts.Base.{
  ℕ, ◌≡◌, arith, refl, sym, subst, ◌⊎◌, inl, inr, List, [], ◌∷◌, ◌++◌, none, some, Option-cases,
}
use guard_core_ts.WorkerPool.{Slot, Flight, claim, flight_on, pump_queue, find_flight}

pub pump_queue-none :
    (t : ℕ) (queue : List ℕ) (slots : List Slot) (flights : List Flight)
    → claim slots ≡ none
    → pump_queue (t ∷ queue) slots flights ≡ (t ∷ queue, slots, flights)
unfolding pump_queue
pump_queue-none t queue slots flights e = rw (pump_queue, e) refl

pub pump_queue-some :
    (t : ℕ) (queue : List ℕ) (slots : List Slot) (flights : List Flight) (r : ℕ × List Slot)
    → claim slots ≡ some r
    → pump_queue (t ∷ queue) slots flights ≡ pump_queue queue r.1 (flights ++ flight_on r.0 t ∷ [])
unfolding pump_queue
pump_queue-some t queue slots flights r e = rw (pump_queue, e) refl

-- After the pump the queue is empty, or no slot is idle.
pub pump_queue_works :
    (queue : List ℕ) (slots : List Slot) (flights : List Flight)
    → ((pump_queue queue slots flights).0 ≡ []) ⊎ (claim (pump_queue queue slots flights).1 ≡ none)
unfolding pump_queue
pump_queue_works [] slots flights = inl refl
pump_queue_works (t ∷ queue) slots flights = elim (Option-cases (claim slots)) [
  | inl e ↦ rw (pump_queue-none t queue slots flights e) (inr e)
  | inr (r, e) ↦
      rw (pump_queue-some t queue slots flights r e)
        (pump_queue_works queue r.1 (flights ++ flight_on r.0 t ∷ []))
]

find_flight-append :
    (task : ℕ) (flights more : List Flight) (f : Flight)
    → find_flight task flights ≡ some f
    → find_flight task (flights ++ more) ≡ some f
find_flight-append task [] more f h = ground arith
find_flight-append task (g ∷ flights) more f h =
    ground (arith, find_flight-append task flights more f)

-- A flight stays in flight while the pump sends more.
pub pump_queue_keeps :
    (task : ℕ) (queue : List ℕ) (slots : List Slot) (flights : List Flight) (f : Flight)
    → find_flight task flights ≡ some f
    → find_flight task (pump_queue queue slots flights).2 ≡ some f
unfolding pump_queue
pump_queue_keeps task [] slots flights f h = h
pump_queue_keeps task (t ∷ queue) slots flights f h = elim (Option-cases (claim slots)) [
  | inl e ↦ rw (pump_queue-none t queue slots flights e) h
  | inr (r, e) ↦
      let more = flight_on r.0 t ∷ [] in
      rw (pump_queue-some t queue slots flights r e) (
        pump_queue_keeps task queue r.1 (flights ++ more) f
          (find_flight-append task flights more f h))
]

pub find_flight-task :
    (task : ℕ) (flights : List Flight) (f : Flight)
    → find_flight task flights ≡ some f
    → f.task ≡ task
find_flight-task task [] f h = ground arith
find_flight-task task (g ∷ flights) f h = ground (arith, find_flight-task task flights f)

pub find_flight_self :
    (task : ℕ) (flights : List Flight) (f : Flight)
    → find_flight task flights ≡ some f
    → find_flight f.task flights ≡ some f
find_flight_self task flights f h =
    subst (λ t. find_flight t flights ≡ some f) (sym (find_flight-task task flights f h)) h
