-- ===== src/WorkerPool/Account.antt =====
-- Where a dispatch is (detection-engine/scan-worker-pool.ts): in the queue, on a worker, or resolved.
use guard_core_ts.Base.{
  ℕ, zero, suc, ◌+◌, ◌≡◌, refl, inl, inr, false, List, [], ◌∷◌, ◌++◌, Option, none, some, map, ◌==◌,
  ltb, if◌then◌else◌, sum, sum-append, arith, ◌∙◌, if_both, Option-cases,
}
use guard_core_ts.WorkerPool.{
  Message, Slot, Flight, Pool, completed, timeout, error, Status, new_pool, claim, flight_on,
  pump_queue, pump, dispatch, find_flight, set_busy, without, resolve, report_success, settle,
  replace_slot, replace_whole_pool, report_timeout, expire, hit_deadline, after_termination,
  released, unreleased, close, Event, runs, message, deadline, stopped, closes, all_stopped,
  finish_close, on_message, on_deadline, on_stopped, answer_of, step, run,
}
use guard_core_ts.WorkerPool.Pump.{
  pump_queue-none, pump_queue-some, pump_queue_keeps, find_flight_self,
}

-- What the dispatches of a pool weigh, wherever they are, and what the first `n` dispatches weigh.
abbrev pub weight : (ℕ → ℕ) → Pool → ℕ
weight w p =
    sum w p.queue + sum (λ f. w f.task) p.flights + sum (λ (r : ℕ × Status). w r.0) p.results

abbrev pub sum_below : (ℕ → ℕ) → ℕ → ℕ
sum_below w zero = 0
sum_below w (suc n) = sum_below w n + w n

module _ (w : ℕ → ℕ) where
  abbrev flying : List Flight → ℕ
  flying flights = sum (λ f. w f.task) flights

  pump_queue_weight :
      (queue : List ℕ) (slots : List Slot) (flights : List Flight)
      → sum w (pump_queue queue slots flights).0 + flying (pump_queue queue slots flights).2
        ≡ sum w queue + flying flights
  unfolding pump_queue
  pump_queue_weight [] slots flights = refl
  pump_queue_weight (t ∷ queue) slots flights = elim (Option-cases (claim slots)) [
    | inl e ↦ rw (pump_queue-none t queue slots flights e) refl
    | inr (r, e) ↦ rw (pump_queue-some t queue slots flights r e) (
        omega (
          arith,
          pump_queue_weight queue r.1 (flights ++ flight_on r.0 t ∷ []),
          sum-append (λ (f : Flight). w f.task) flights (flight_on r.0 t ∷ []),
        ))
  ]

  without_weight :
      (task : ℕ) (flights : List Flight) (f : Flight)
      → find_flight task flights ≡ some f
      → flying (without task flights) + w task ≡ flying flights
  without_weight task [] f h = ground arith
  without_weight task (g ∷ flights) f h = ground (arith, without_weight task flights f)

  expire_weight : (task : ℕ) (flights : List Flight) → flying (expire task flights) ≡ flying flights
  expire_weight task [] = refl
  expire_weight task (g ∷ flights) = ground (arith, expire_weight task flights)

  released_weight :
      (slots : List Slot) (flights : List Flight)
      → flying (unreleased slots flights) + sum (λ (r : ℕ × Status). w r.0) (released slots flights)
        ≡ flying flights
  unfolding unreleased released
  released_weight slots [] = omega arith
  released_weight slots (f ∷ flights) = ground (arith, released_weight slots flights)

  abandoned_weight :
      (queue : List ℕ) → sum (λ (r : ℕ × Status). w r.0) (map (λ t. (t, error)) queue) ≡ sum w queue
  abandoned_weight [] = refl
  abandoned_weight (t ∷ queue) = omega (arith, abandoned_weight queue)

  weight-pump : (p : Pool) → weight w (pump p) ≡ weight w p
  unfolding pump
  weight-pump p = omega (arith, pump_queue_weight p.queue p.slots p.flights)

  weight-resolve :
      (task : ℕ) (status : Status) (p : Pool) (f : Flight)
      → find_flight task p.flights ≡ some f
      → weight w (resolve task status p) ≡ weight w p
  unfolding resolve
  weight-resolve task status p f h = omega (
    arith,
    without_weight task p.flights f h,
    sum-append (λ (r : ℕ × Status). w r.0) p.results ((task, status) ∷ []),
  )

  -- Every dispatch so far weighs what it should.
  IsCounted : Pool → Type 0
  IsCounted p = weight w p ≡ sum_below w p.dispatched

  pump-IsCounted : (p : Pool) → IsCounted p → IsCounted (pump p)
  unfolding pump IsCounted
  pump-IsCounted p c = weight-pump p ∙ c

  resolve-IsCounted :
      (task : ℕ) (status : Status) (p : Pool) (f : Flight)
      → find_flight task p.flights ≡ some f
      → IsCounted p
      → IsCounted (resolve task status p)
  unfolding resolve IsCounted
  resolve-IsCounted task status p f h c = weight-resolve task status p f h ∙ c

  dispatch-IsCounted : (p : Pool) → IsCounted p → IsCounted (dispatch p)
  unfolding dispatch IsCounted
  dispatch-IsCounted p c =
      if_both IsCounted p.drained
        (omega
          (arith, c, sum-append (λ (r : ℕ × Status). w r.0) p.results ((p.dispatched, error) ∷ [])))
        (pump-IsCounted _ (omega (arith, c, sum-append w p.queue (p.dispatched ∷ []))))

  settle-IsCounted :
      {C : Type 0} (f : Flight) (answer : Option (List C)) (p : Pool)
      → find_flight f.task p.flights ≡ some f
      → IsCounted p
      → IsCounted (settle f answer p)
  unfolding settle report_success IsCounted
  settle-IsCounted f none p h c =
      let idle = record p { slots = set_busy f.slot false p.slots } in
      pump-IsCounted _ (resolve-IsCounted f.task error idle f h c)
  settle-IsCounted f (some cs) p h c =
      let idle = record p { slots = set_busy f.slot false p.slots } in
      pump-IsCounted _ (resolve-IsCounted f.task completed (report_success idle) f h c)

  hit_deadline-IsCounted : (f : Flight) (p : Pool) → IsCounted p → IsCounted (hit_deadline f p)
  unfolding hit_deadline IsCounted
  hit_deadline-IsCounted f p c = omega (arith, c, expire_weight f.task p.flights)

  -- What does not move a dispatch.
  report_timeout-same :
      (p : Pool)
      → (weight w (report_timeout p) ≡ weight w p)
        × ((report_timeout p).dispatched ≡ p.dispatched)
        × ((report_timeout p).flights ≡ p.flights)
  unfolding report_timeout replace_whole_pool
  report_timeout-same p = ground arith

  after_termination-IsCounted :
      (f : Flight) (p : Pool)
      → find_flight f.task p.flights ≡ some f
      → IsCounted p
      → IsCounted (after_termination f p)
  unfolding after_termination replace_slot pump IsCounted
  after_termination-IsCounted f p h c =
      let replaced = replace_slot f.slot p in
      let (weighs, counts, flies) = report_timeout-same replaced in
      let reported = report_timeout replaced in
      resolve-IsCounted f.task timeout (pump reported) f
        (pump_queue_keeps f.task reported.queue reported.slots reported.flights f (rw flies h))
        (pump-IsCounted reported (rw (counts) (weighs ∙ c)))

  close-IsCounted : (p : Pool) → IsCounted p → IsCounted (close p)
  unfolding close IsCounted
  close-IsCounted p c = if_both IsCounted p.drained c (
      omega (
        arith,
        c,
        released_weight p.slots p.flights,
        sum-append (λ (r : ℕ × Status). w r.0) p.results (released p.slots p.flights),
      ))

  finish_close-IsCounted : (p : Pool) → IsCounted p → IsCounted (finish_close p)
  unfolding finish_close IsCounted
  finish_close-IsCounted p c =
      let abandoned : List (ℕ × Status) = map (λ t. (t, error)) p.queue in
      if_both IsCounted p.closing
        (omega (
          arith,
          c,
          abandoned_weight p.queue,
          sum-append (λ (r : ℕ × Status). w r.0) p.results abandoned,
        ))
        c

  message-IsCounted :
      {C : Type 0} (o : Option Flight) (m : Message C) (task : ℕ) (p : Pool)
      → find_flight task p.flights ≡ o
      → IsCounted p
      → IsCounted (on_message o m p)
  unfolding on_message
  message-IsCounted none m task p h c = c
  message-IsCounted (some f) m task p h c =
      if_both IsCounted f.expired c
        (settle-IsCounted f (answer_of m) p (find_flight_self task p.flights f h) c)

  deadline-IsCounted : (o : Option Flight) (p : Pool) → IsCounted p → IsCounted (on_deadline o p)
  unfolding on_deadline
  deadline-IsCounted none p c = c
  deadline-IsCounted (some f) p c = if_both IsCounted f.expired c (hit_deadline-IsCounted f p c)

  stopped-IsCounted :
      (o : Option Flight) (task : ℕ) (p : Pool)
      → find_flight task p.flights ≡ o
      → IsCounted p
      → IsCounted (on_stopped o p)
  unfolding on_stopped
  stopped-IsCounted none task p h c = c
  stopped-IsCounted (some f) task p h c =
      if_both IsCounted f.expired
        (after_termination-IsCounted f p (find_flight_self task p.flights f h) c) c

  step-IsCounted : {C : Type 0} (p : Pool) (e : Event C) → IsCounted p → IsCounted (step p e)
  unfolding step
  step-IsCounted p runs c = dispatch-IsCounted p c
  step-IsCounted p (message task m) c =
      message-IsCounted (find_flight task p.flights) m task p refl c
  step-IsCounted p (deadline task) c = deadline-IsCounted (find_flight task p.flights) p c
  step-IsCounted p (stopped task) c = stopped-IsCounted (find_flight task p.flights) task p refl c
  step-IsCounted p closes c = close-IsCounted p c
  step-IsCounted p all_stopped c = finish_close-IsCounted p c

  run-IsCounted : {C : Type 0} (es : List (Event C)) (p : Pool) → IsCounted p → IsCounted (run p es)
  unfolding run
  run-IsCounted [] p c = c
  run-IsCounted (e ∷ es) p c = run-IsCounted es (step p e) (step-IsCounted p e c)

-- In how many places a dispatch is: queued, in flight or resolved.
abbrev pub places : ℕ → Pool → ℕ
places task p = weight (λ t. if t == task then 1 else 0) p

sum_below_one :
    (task n : ℕ) → sum_below (λ t. if t == task then 1 else 0) n ≡ (if ltb task n then 1 else 0)
sum_below_one task zero = ground arith
sum_below_one task (suc n) = ground (arith, sum_below_one task n)

-- Whatever happens to a new pool, each dispatch so far is in exactly one place: it waits in the queue,
-- a worker has it, or it has one result; and what was not dispatched is in none.
pub run-places :
    {C : Type 0} (size : ℕ) (es : List (Event C)) (task : ℕ)
    → places task (run (new_pool size) es)
      ≡ (if ltb task (run (new_pool size) es).dispatched then 1 else 0)
unfolding new_pool IsCounted
run-places size es task =
    let one = λ (t : ℕ). if t == task then 1 else 0 in
    run-IsCounted one es (new_pool size) refl
    ∙ sum_below_one task (run (new_pool size) es).dispatched
