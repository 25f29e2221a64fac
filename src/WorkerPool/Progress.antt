-- ===== src/WorkerPool/Progress.antt =====
-- That the pool never gets stuck (detection-engine/scan-worker-pool.ts): the deadlines of the
-- dispatches in flight, and the ends of their workers, resolve all that wait.
use guard_core_ts.Base.{
  ℕ, zero, suc, ◌+◌, ◌≤◌, ◌<◌, ◌≡◌, refl, ap, subst, sym, ◌∙◌, ◌⊎◌, inl, inr, Bool, true, List, [],
  ◌∷◌, ◌++◌, Option, none, some, length, arith, if_cases,
}
use guard_core_ts.WorkerPool.{
  Slot, Flight, Pool, new_pool, claim, pump, find_flight, without, resolve, replace_slot,
  replace_whole_pool, report_timeout, expire, hit_deadline, after_termination, Event, all_stopped,
  finish_close, deadline, stopped, on_deadline, on_stopped, step, run,
}
use guard_core_ts.WorkerPool.Pump.{pump_queue_keeps, find_flight-task, find_flight_self}
use guard_core_ts.WorkerPool.Counts.{slot_count, idle_count, use_count, claim_lem, Claimed}
use guard_core_ts.WorkerPool.Exclusive.{IsExclusive, run-IsExclusive, step-IsExclusive}
use guard_core_ts.WorkerPool.Staffing.{IsLive, pump_queue_lengths, run-IsLive_from, run-IsLive}

-- The dispatches that are not resolved.
abbrev pub waiting : Pool → ℕ
waiting p = length p.queue + length p.flights

-- The deadline of the oldest dispatch in flight, and the end of its worker.
abbrev pub next_expiry : {C : Type 0} → List Flight → List (Event C)
next_expiry [] = []
next_expiry (f ∷ flights) = deadline f.task ∷ stopped f.task ∷ []

-- `n` of them, one after the other.
abbrev pub expiries : {C : Type 0} → ℕ → Pool → List (Event C)
expiries zero p = []
expiries {C} (suc n) p =
    let now : List (Event C) = next_expiry p.flights in now ++ expiries n (run p now)

without-length :
    (task : ℕ) (flights : List Flight) (f : Flight)
    → find_flight task flights ≡ some f
    → suc (length (without task flights)) ≡ length flights
without-length task [] f h = ground arith
without-length task (g ∷ flights) f h = ground (arith, without-length task flights f)

expire-length : (task : ℕ) (flights : List Flight) → length (expire task flights) ≡ length flights
expire-length task [] = refl
expire-length task (g ∷ flights) = ground (arith, expire-length task flights)

find_flight-expire :
    (task : ℕ) (flights : List Flight) (f : Flight)
    → find_flight task flights ≡ some f
    → find_flight task (expire task flights) ≡ some (record f { expired = true })
find_flight-expire task [] f h = ground arith
find_flight-expire task (g ∷ flights) f h = ground (arith, find_flight-expire task flights f)

reported-same :
    (id : ℕ) (p : Pool)
    → ((report_timeout (replace_slot id p)).flights ≡ p.flights)
      × ((report_timeout (replace_slot id p)).queue ≡ p.queue)
unfolding replace_slot report_timeout replace_whole_pool
reported-same id p = ground arith

-- The timeout of a dispatch in flight leaves one less to wait for.
after_termination-waiting :
    (f : Flight) (p : Pool)
    → find_flight f.task p.flights ≡ some f
    → suc (waiting (after_termination f p)) ≡ waiting p
unfolding after_termination resolve pump
after_termination-waiting f p h =
    let reported = report_timeout (replace_slot f.slot p) in
    let (flies, waits) = reported-same f.slot p in
    let lengths = pump_queue_lengths reported.queue reported.slots reported.flights in
    omega (
      arith,
      without-length f.task (pump reported).flights f
          (pump_queue_keeps f.task reported.queue reported.slots reported.flights f (rw flies h)),
      lengths.2,
      ap length flies,
      ap length waits,
    )

abbrev hit : ℕ → Pool → Pool
hit task p = on_deadline (find_flight task p.flights) p

abbrev stop : ℕ → Pool → Pool
stop task p = on_stopped (find_flight task p.flights) p

hit-find_flight :
    (task : ℕ) (p : Pool) (f : Flight)
    → find_flight task p.flights ≡ some f
    → find_flight task (hit task p).flights ≡ some (record f { expired = true })
unfolding on_deadline hit_deadline
hit-find_flight task p f h =
    let same = find_flight-task task p.flights f h in
    rw h (
      if_cases (λ (r : Pool). find_flight task r.flights ≡ some (record f { expired = true }))
        f.expired (λ e. h ∙ ap (λ (b : Bool). some (record f { expired = b })) e)
        (λ e.
          subst (λ t. find_flight task (expire t p.flights) ≡ some (record f { expired = true }))
            (sym same) (find_flight-expire task p.flights f h)))

deadline-waiting : (o : Option Flight) (p : Pool) → waiting (on_deadline o p) ≡ waiting p
unfolding on_deadline hit_deadline
deadline-waiting none p = refl
deadline-waiting (some f) p = ground (arith, expire-length f.task p.flights)

stop-waiting :
    (task : ℕ) (p : Pool) (f : Flight)
    → find_flight task p.flights ≡ some (record f { expired = true })
    → suc (waiting (stop task p)) ≡ waiting p
unfolding on_stopped
stop-waiting task p f h = rw h (after_termination-waiting _ p (find_flight_self task p.flights _ h))

expiry-waiting :
    (task : ℕ) (p : Pool) (f : Flight)
    → find_flight task p.flights ≡ some f
    → suc (waiting (stop task (hit task p))) ≡ waiting p
expiry-waiting task p f h =
    stop-waiting task (hit task p) f (hit-find_flight task p f h)
    ∙ deadline-waiting (find_flight task p.flights) p

no_slots :
    (slots : List Slot)
    → claim slots ≡ none
    → ((id : ℕ) → slot_count id slots ≤ idle_count id slots)
    → length slots ≡ 0
no_slots [] e h = refl
no_slots (s ∷ slots) e h =
    let idle = subst (Claimed s.id (s ∷ slots)) e (claim_lem s.id (s ∷ slots)) in
    ground (arith, h s.id, idle)

backed :
    (p : Pool)
    → ((id : ℕ) → IsExclusive id p)
    → p.flights ≡ []
    → (id : ℕ) → slot_count id p.slots ≤ idle_count id p.slots
backed p x e id = ground (arith, x id, ap (use_count id) e)

-- A pool in order that has nothing in flight has nothing queued, or is being closed.
idle-queue :
    (p : Pool)
    → IsLive p
    → ((id : ℕ) → IsExclusive id p)
    → p.flights ≡ []
    → (length p.queue ≡ 0) ⊎ (p.closing ≡ true)
idle-queue p v x e = elim v.works [
  | inl none_queued ↦ inl (ap length none_queued)
  | inr none_idle ↦ ground (arith, v.staffed, no_slots p.slots none_idle (backed p x e))
]

module _ (C : Type 0) where
  run-IsExclusive_on :
      (es : List (Event C)) (p : Pool)
      → ((id : ℕ) → IsExclusive id p)
      → (id : ℕ) → IsExclusive id (run p es)
  unfolding run
  run-IsExclusive_on [] p x = x
  run-IsExclusive_on (e ∷ es) p x =
      run-IsExclusive_on es (step p e) (λ id. step-IsExclusive id p e (x id))

  run-append : (p : Pool) (es fs : List (Event C)) → run p (es ++ fs) ≡ run (run p es) fs
  unfolding run
  run-append p [] fs = refl
  run-append p (e ∷ es) fs = run-append (step p e) es fs

  next-waiting :
      (p : Pool) (f : Flight) (flights : List Flight)
      → p.flights ≡ f ∷ flights
      → suc (waiting (run {C = C} p (next_expiry (f ∷ flights)))) ≡ waiting p
  unfolding run step
  next-waiting p f flights e =
      expiry-waiting f.task p f
        (subst (λ fs. find_flight f.task fs ≡ some f) (sym e) (ground arith))

  idle-expiries : (n : ℕ) (p : Pool) → p.flights ≡ [] → run {C = C} p (expiries n p) ≡ p
  unfolding run
  idle-expiries zero p e = refl
  idle-expiries (suc n) p e =
      let IsIdle : List Flight → Type 0 = λ fs.
        let now : List (Event C) = next_expiry fs in run p (now ++ expiries n (run p now)) ≡ p in
      subst IsIdle (sym e) (idle-expiries n p e)

  landed :
      (n : ℕ) (p : Pool) (flights : List Flight)
      → p.flights ≡ flights
      → waiting p ≤ n
      → length (run {C = C} p (expiries n p)).flights ≡ 0
  landed n p [] e h = rw (idle-expiries n p e) (ap length e)
  landed zero p (f ∷ flights) e h = ground (arith, ap length e)
  landed (suc n) p (f ∷ flights) e h =
      let now : List (Event C) = next_expiry p.flights in
      let p' = run p now in
      let less =
        subst (λ fs. suc (waiting (run {C = C} p (next_expiry fs))) ≡ waiting p) (sym e)
          (next-waiting p f flights e) in
      rw (run-append p now (expiries n p')) (landed n p' p'.flights refl (omega (arith, less, h)))

  finish_close-waiting :
      (p : Pool)
      → (length p.queue ≡ 0) ⊎ (p.closing ≡ true)
      → length p.flights ≡ 0
      → waiting (step {C = C} p all_stopped) ≡ 0
  unfolding step finish_close
  finish_close-waiting p h e = ground arith

empty : {A : Type 0} (xs : List A) → length xs ≡ 0 → xs ≡ []
empty [] e = refl
empty (x ∷ xs) e = ground arith

-- A pool of at least one slot never gets stuck: whatever happened, when the deadlines of the
-- dispatches in flight pass, one after the other, and their workers end, as many as there are
-- dispatches that wait, and then the workers that `close` awaits end, if it awaits any, nothing is
-- queued or in flight any more.
pub run-expiries :
    {C : Type 0} (size : ℕ) (es : List (Event C))
    → 0 < size
    → let p = run (new_pool size) es in
      waiting (step {C = C} (run {C = C} p (expiries (waiting p) p)) all_stopped) ≡ 0
run-expiries {C = C} size es h =
    let p = run (new_pool size) es in
    let now : List (Event C) = expiries (waiting p) p in
    let none = landed C (waiting p) p p.flights refl (omega arith) in
    finish_close-waiting C (run p now)
      (idle-queue (run p now) (run-IsLive_from now p (run-IsLive size es h))
        (run-IsExclusive_on C now p (λ id. run-IsExclusive size es id))
        (empty (run p now).flights none))
      none
