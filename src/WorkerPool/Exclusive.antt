-- ===== src/WorkerPool/Exclusive.antt =====
-- Which worker runs which scan (detection-engine/scan-worker-pool.ts): no worker has two scans, and an
-- idle slot's worker has none.
use guard_core_ts.Base.{
  ℕ, ◌+◌, ◌≤◌, ◌<◌, ◌≡◌, refl, ◌⊎◌, false, List, [], ◌∷◌, Option, none, some, arith, ◌∙◌, if_both,
}
use guard_core_ts.WorkerPool.{
  Message, Flight, Pool, timeout, Status, new_pool, pump, dispatch, find_flight, set_busy, without,
  resolve, report_success, settle, replace_in, replace_slot, replace_whole_pool, report_timeout,
  hit_deadline, after_termination, close, Event, runs, message, deadline, stopped, closes,
  all_stopped, finish_close, on_message, on_deadline, on_stopped, answer_of, step, run,
}
use guard_core_ts.WorkerPool.Pump.{pump_queue_keeps, find_flight_self}
use guard_core_ts.WorkerPool.Counts.{
  slot_count, idle_count, use_count, pump_queue_counts, set_busy_counts, idle-slot_count,
  without_count, expire_count, unreleased_count, new_slots_counts, replace_in_counts,
  has-slot_count,
}

-- The slot `id` of a pool in order, by how often it is a slot, an idle slot and in use, where `made`
-- slots were made.
abbrev pub InOrder : ℕ → ℕ → ℕ → ℕ → ℕ → Type 0
InOrder id slots idle used made =
    (slots ≤ 1) × (used + idle ≤ 1) × (slots ≤ used + idle) × ((slots + used ≡ 0) ⊎ (id < made))

abbrev pub IsExclusive : ℕ → Pool → Type 0
IsExclusive id p =
    InOrder id (slot_count id p.slots) (idle_count id p.slots) (use_count id p.flights) p.spawned

module _ (id : ℕ) where
  pump-IsExclusive : (p : Pool) → IsExclusive id p → IsExclusive id (pump p)
  unfolding pump
  pump-IsExclusive p v =
      ground (arith, v, pump_queue_counts id p.queue p.slots p.flights, idle-slot_count id p.slots)

  dispatch-IsExclusive : (p : Pool) → IsExclusive id p → IsExclusive id (dispatch p)
  unfolding dispatch
  dispatch-IsExclusive p v = if_both (IsExclusive id) p.drained v (pump-IsExclusive _ v)

  settled :
      (f : Flight) (p : Pool)
      → find_flight f.task p.flights ≡ some f
      → IsExclusive id p
      → InOrder id
          (slot_count id (set_busy f.slot false p.slots))
          (idle_count id (set_busy f.slot false p.slots))
          (use_count id (without f.task p.flights))
          p.spawned
  settled f p h v = ground (
    arith,
    v,
    set_busy_counts id f.slot p.slots,
    without_count id f.task p.flights f h,
    idle-slot_count id p.slots,
  )

  settle-IsExclusive :
      {C : Type 0} (f : Flight) (answer : Option (List C)) (p : Pool)
      → find_flight f.task p.flights ≡ some f
      → IsExclusive id p
      → IsExclusive id (settle f answer p)
  unfolding settle report_success resolve
  settle-IsExclusive f none p h v = pump-IsExclusive _ (settled f p h v)
  settle-IsExclusive f (some cs) p h v = pump-IsExclusive _ (settled f p h v)

  hit_deadline-IsExclusive :
      (f : Flight) (p : Pool) → IsExclusive id p → IsExclusive id (hit_deadline f p)
  unfolding hit_deadline
  hit_deadline-IsExclusive f p v = ground (arith, v, expire_count id f.task p.flights)

  in_use :
      (f : Flight) (p : Pool)
      → find_flight f.task p.flights ≡ some f
      → (f.slot ≡ id)
      → 0 < use_count id p.flights
  in_use f p h e = ground (arith, without_count id f.task p.flights f h)

  -- The slot of a dispatch in flight, replaced, is in no place of the pool.
  replace_slot-IsExclusive :
      (f : Flight) (p : Pool)
      → find_flight f.task p.flights ≡ some f
      → IsExclusive id p
      → IsExclusive id (replace_slot f.slot p)
  unfolding replace_slot
  replace_slot-IsExclusive f p h v = ground (
    arith,
    v,
    in_use f p h,
    replace_in_counts id f.slot p.spawned p.slots,
    idle-slot_count id p.slots,
    idle-slot_count id (replace_in f.slot (record { id = p.spawned; busy = false }) p.slots),
    has-slot_count id f.slot p.slots,
  )

  replace_slot-gone :
      (f : Flight) (p : Pool)
      → find_flight f.task p.flights ≡ some f
      → IsExclusive id p
      → f.slot ≡ id
      → slot_count id (replace_slot f.slot p).slots ≡ 0
  unfolding replace_slot
  replace_slot-gone f p h v e = ground (
    arith,
    v,
    in_use f p h,
    replace_in_counts id f.slot p.spawned p.slots,
    has-slot_count id f.slot p.slots e,
  )

  report_timeout-IsExclusive : (p : Pool) → IsExclusive id p → IsExclusive id (report_timeout p)
  unfolding report_timeout replace_whole_pool
  report_timeout-IsExclusive p v = ground (arith, v, new_slots_counts id p.size p.spawned)

  report_timeout-gone :
      (p : Pool)
      → id < p.spawned
      → slot_count id p.slots ≡ 0
      → slot_count id (report_timeout p).slots ≡ 0
  unfolding report_timeout replace_whole_pool
  report_timeout-gone p h e = ground (arith, new_slots_counts id p.size p.spawned)

  resolve-IsExclusive :
      (f : Flight) (status : Status) (p : Pool)
      → find_flight f.task p.flights ≡ some f
      → (f.slot ≡ id → slot_count id p.slots ≡ 0)
      → IsExclusive id p
      → IsExclusive id (resolve f.task status p)
  unfolding resolve
  resolve-IsExclusive f status p h gone v =
      ground (arith, v, gone, without_count id f.task p.flights f h)

  pump-slot_count : (p : Pool) → slot_count id (pump p).slots ≡ slot_count id p.slots
  unfolding pump
  pump-slot_count p = (pump_queue_counts id p.queue p.slots p.flights).1

  pump-keeps :
      (f : Flight) (q : Pool)
      → find_flight f.task q.flights ≡ some f
      → find_flight f.task (pump q).flights ≡ some f
  unfolding pump
  pump-keeps f q k = pump_queue_keeps f.task q.queue q.slots q.flights f k

  reported-keeps :
      (f : Flight) (p : Pool)
      → find_flight f.task p.flights ≡ some f
      → find_flight f.task (report_timeout (replace_slot f.slot p)).flights ≡ some f
  unfolding report_timeout replace_whole_pool replace_slot
  reported-keeps f p k = ground arith

  made :
      (f : Flight) (p : Pool)
      → find_flight f.task p.flights ≡ some f
      → IsExclusive id p
      → f.slot ≡ id
      → id < (replace_slot f.slot p).spawned
  unfolding replace_slot
  made f p k v e = ground (arith, v, in_use f p k)

  after_termination-IsExclusive :
      (f : Flight) (p : Pool)
      → find_flight f.task p.flights ≡ some f
      → IsExclusive id p
      → IsExclusive id (after_termination f p)
  unfolding after_termination
  after_termination-IsExclusive f p h v =
      let replaced = replace_slot f.slot p in
      let reported = report_timeout replaced in
      resolve-IsExclusive f timeout (pump reported) (pump-keeps f reported (reported-keeps f p h))
        (λ e.
          pump-slot_count reported
          ∙ report_timeout-gone replaced (made f p h v e) (replace_slot-gone f p h v e))
        (pump-IsExclusive reported
          (report_timeout-IsExclusive replaced (replace_slot-IsExclusive f p h v)))

  close-IsExclusive : (p : Pool) → IsExclusive id p → IsExclusive id (close p)
  unfolding close
  close-IsExclusive p v = ground (arith, v, unreleased_count id p.slots p.flights)

  finish_close-IsExclusive : (p : Pool) → IsExclusive id p → IsExclusive id (finish_close p)
  unfolding finish_close
  finish_close-IsExclusive p v = if_both (IsExclusive id) p.closing v v

  message-IsExclusive :
      {C : Type 0} (o : Option Flight) (m : Message C) (task : ℕ) (p : Pool)
      → find_flight task p.flights ≡ o
      → IsExclusive id p
      → IsExclusive id (on_message o m p)
  unfolding on_message
  message-IsExclusive none m task p h v = v
  message-IsExclusive (some f) m task p h v =
      if_both (IsExclusive id) f.expired v
        (settle-IsExclusive f (answer_of m) p (find_flight_self task p.flights f h) v)

  deadline-IsExclusive :
      (o : Option Flight) (p : Pool) → IsExclusive id p → IsExclusive id (on_deadline o p)
  unfolding on_deadline
  deadline-IsExclusive none p v = v
  deadline-IsExclusive (some f) p v =
      if_both (IsExclusive id) f.expired v (hit_deadline-IsExclusive f p v)

  stopped-IsExclusive :
      (o : Option Flight) (task : ℕ) (p : Pool)
      → find_flight task p.flights ≡ o
      → IsExclusive id p
      → IsExclusive id (on_stopped o p)
  unfolding on_stopped
  stopped-IsExclusive none task p h v = v
  stopped-IsExclusive (some f) task p h v =
      if_both (IsExclusive id) f.expired
        (after_termination-IsExclusive f p (find_flight_self task p.flights f h) v) v

  pub step-IsExclusive :
      {C : Type 0} (p : Pool) (e : Event C) → IsExclusive id p → IsExclusive id (step p e)
  unfolding step
  step-IsExclusive p runs v = dispatch-IsExclusive p v
  step-IsExclusive p (message task m) v =
      message-IsExclusive (find_flight task p.flights) m task p refl v
  step-IsExclusive p (deadline task) v = deadline-IsExclusive (find_flight task p.flights) p v
  step-IsExclusive p (stopped task) v =
      stopped-IsExclusive (find_flight task p.flights) task p refl v
  step-IsExclusive p closes v = close-IsExclusive p v
  step-IsExclusive p all_stopped v = finish_close-IsExclusive p v

  run-IsExclusive_from :
      {C : Type 0} (es : List (Event C)) (p : Pool) → IsExclusive id p → IsExclusive id (run p es)
  unfolding run
  run-IsExclusive_from [] p v = v
  run-IsExclusive_from (e ∷ es) p v = run-IsExclusive_from es (step p e) (step-IsExclusive p e v)

  pub new_pool-IsExclusive : (size : ℕ) → IsExclusive id (new_pool size)
  unfolding new_pool
  new_pool-IsExclusive size = ground (arith, new_slots_counts id size 0)

-- Whatever happens to a new pool, a worker never has two dispatches in flight, the slot of an idle
-- worker has none, each slot is in the pool once, and a busy slot of the pool has a dispatch in flight.
pub run-IsExclusive :
    {C : Type 0} (size : ℕ) (es : List (Event C)) (id : ℕ) → IsExclusive id (run (new_pool size) es)
run-IsExclusive size es id =
    run-IsExclusive_from id es (new_pool size) (new_pool-IsExclusive id size)
