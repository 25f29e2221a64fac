-- ===== src/WorkerPool/Staffing.antt =====
-- The slots of the pool against its queue (detection-engine/scan-worker-pool.ts).
use guard_core_ts.Base.{
  ℕ, zero, suc, ◌+◌, ◌≤◌, ◌<◌, ◌≡◌, refl, subst, ◌⊎◌, inl, inr, Bool, true, false, List, [], ◌∷◌,
  ◌++◌, Option, none, some, length, length-append, arith, if_both, if_cases, Option-cases,
}
use guard_core_ts.WorkerPool.{
  Message, Slot, Flight, Pool, timeout, Status, new_slots, new_pool, claim, flight_on, pump_queue,
  pump, dispatch, find_flight, set_busy, resolve, report_success, settle, replace_in, replace_slot,
  replace_whole_pool, report_timeout, hit_deadline, after_termination, close, Event, runs, message,
  deadline, stopped, closes, all_stopped, finish_close, on_message, on_deadline, on_stopped,
  answer_of, step, run,
}
use mathlib.Core.Option
use guard_core_ts.WorkerPool.Pump.{pump_queue_works, pump_queue-none, pump_queue-some}

-- The pool is closed and nothing is queued, or `close` awaits its workers, or there are slots.
abbrev pub IsOpen : Pool → Type 0
IsOpen p = ((p.drained ≡ true) × ((length p.queue ≡ 0) ⊎ (p.closing ≡ true))) ⊎ (0 < length p.slots)

-- No dispatch waits while a slot is idle, and the pool is open or closed down.
pub record IsLive (p : Pool) : Type 0 where
  pub works : (p.queue ≡ []) ⊎ (claim p.slots ≡ none)
  pub sized : 0 < p.size
  pub staffed : IsOpen p

-- `works` apart.
abbrev IsStaffed : Pool → Type 0
IsStaffed p = (0 < p.size) × IsOpen p

abbrev Measured : List Slot → Option (ℕ × List Slot) → Type 0
Measured slots none = Unit
Measured slots (some r) = length r.1 ≡ length slots

claim-length_busy :
    (s : Slot) (slots : List Slot) (o : Option (ℕ × List Slot))
    → Measured slots o
    → Measured (s ∷ slots) (Option.map (λ r. (r.0, s ∷ r.1)) o)
claim-length_busy s slots none h = tt
claim-length_busy s slots (some r) h = omega (arith, h)

claim-length : (slots : List Slot) → Measured slots (claim slots)
unfolding claim
claim-length [] = tt
claim-length (s ∷ slots) =
    if_both (Measured (s ∷ slots)) s.busy
      (claim-length_busy s slots (claim slots) (claim-length slots)) refl

pub pump_queue_lengths :
    (queue : List ℕ) (slots : List Slot) (flights : List Flight)
    → (length (pump_queue queue slots flights).0 ≤ length queue)
      × (length (pump_queue queue slots flights).1 ≡ length slots)
      × (length (pump_queue queue slots flights).0 + length (pump_queue queue slots flights).2
          ≡ length queue + length flights)
unfolding pump_queue
pump_queue_lengths [] slots flights = (omega arith, refl, refl)
pump_queue_lengths (t ∷ queue) slots flights = elim (Option-cases (claim slots)) [
  | inl e ↦ rw (pump_queue-none t queue slots flights e) (omega arith, refl, refl)
  | inr (r, e) ↦
      let sent = flights ++ flight_on r.0 t ∷ [] in
      let measured = subst (Measured slots) e (claim-length slots) in
      let rest = pump_queue_lengths queue r.1 sent in
      let added = length-append flights (flight_on r.0 t ∷ []) in
      rw (pump_queue-some t queue slots flights r e)
        (omega (arith, rest), omega (arith, rest, measured), omega (arith, rest, added))
]

pump-IsLive : (p : Pool) → IsStaffed p → IsLive (pump p)
unfolding pump
pump-IsLive p v =
    let lengths = pump_queue_lengths p.queue p.slots p.flights in
    record {
      works = pump_queue_works p.queue p.slots p.flights;
      sized = v.0;
      staffed = ground (arith, v, lengths);
    }

set_busy-length :
    (id : ℕ) (b : Bool) (slots : List Slot) → length (set_busy id b slots) ≡ length slots
unfolding set_busy
set_busy-length id b [] = refl
set_busy-length id b (s ∷ slots) = omega (arith, set_busy-length id b slots)

replace_in-length :
    (id : ℕ) (s : Slot) (slots : List Slot) → length (replace_in id s slots) ≡ length slots
unfolding replace_in
replace_in-length id s [] = refl
replace_in-length id s (t ∷ slots) = ground (arith, replace_in-length id s slots)

new_slots-length : (n from : ℕ) → length (new_slots n from) ≡ n
new_slots-length zero from = refl
new_slots-length (suc n) from = omega (arith, new_slots-length n (suc from))

dispatch-IsLive : (p : Pool) → IsLive p → IsLive (dispatch p)
unfolding dispatch
dispatch-IsLive p v =
    if_cases IsLive p.drained
      (λ e. record { works = v.works; sized = v.sized; staffed = v.staffed })
      (λ e. pump-IsLive _ (v.sized, ground (arith, v.staffed, e)))

settle-IsLive :
    {C : Type 0} (f : Flight) (answer : Option (List C)) (p : Pool)
    → IsLive p
    → IsLive (settle f answer p)
unfolding settle resolve report_success
settle-IsLive f none p v =
    pump-IsLive _ (v.sized, ground (arith, v.staffed, set_busy-length f.slot false p.slots))
settle-IsLive f (some cs) p v =
    pump-IsLive _ (v.sized, ground (arith, v.staffed, set_busy-length f.slot false p.slots))

hit_deadline-IsLive : (f : Flight) (p : Pool) → IsLive p → IsLive (hit_deadline f p)
unfolding hit_deadline
hit_deadline-IsLive f p v = record { works = v.works; sized = v.sized; staffed = v.staffed }

resolve-IsLive : (task : ℕ) (status : Status) (p : Pool) → IsLive p → IsLive (resolve task status p)
unfolding resolve
resolve-IsLive task status p v = record { works = v.works; sized = v.sized; staffed = v.staffed }

report_timeout-IsStaffed : (p : Pool) → IsStaffed p → IsStaffed (report_timeout p)
unfolding report_timeout replace_whole_pool
report_timeout-IsStaffed p v = ground (arith, v, new_slots-length p.size p.spawned)

after_termination-IsLive : (f : Flight) (p : Pool) → IsLive p → IsLive (after_termination f p)
unfolding after_termination replace_slot
after_termination-IsLive f p v = resolve-IsLive f.task timeout _ (
    pump-IsLive _ (
      report_timeout-IsStaffed _ (
        v.sized,
        ground (
          arith,
          v.staffed,
          replace_in-length f.slot (record { id = p.spawned; busy = false }) p.slots,
        ),
      )))

close-IsLive : (p : Pool) → IsLive p → IsLive (close p)
unfolding close claim
close-IsLive p v =
    if_both IsLive p.drained v
      (record { works = inr refl; sized = v.sized; staffed = inl (refl, inr refl) })

finish_close-IsLive : (p : Pool) → IsLive p → IsLive (finish_close p)
unfolding finish_close
finish_close-IsLive p v =
    if_both IsLive p.closing
      (record { works = inl refl; sized = v.sized; staffed = ground (arith, v.staffed) }) v

message-IsLive :
    {C : Type 0} (o : Option Flight) (m : Message C) (p : Pool)
    → IsLive p
    → IsLive (on_message o m p)
unfolding on_message
message-IsLive none m p v = v
message-IsLive (some f) m p v = if_both IsLive f.expired v (settle-IsLive f (answer_of m) p v)

deadline-IsLive : (o : Option Flight) (p : Pool) → IsLive p → IsLive (on_deadline o p)
unfolding on_deadline
deadline-IsLive none p v = v
deadline-IsLive (some f) p v = if_both IsLive f.expired v (hit_deadline-IsLive f p v)

stopped-IsLive : (o : Option Flight) (p : Pool) → IsLive p → IsLive (on_stopped o p)
unfolding on_stopped
stopped-IsLive none p v = v
stopped-IsLive (some f) p v = if_both IsLive f.expired (after_termination-IsLive f p v) v

step-IsLive : {C : Type 0} (p : Pool) (e : Event C) → IsLive p → IsLive (step p e)
unfolding step
step-IsLive p runs v = dispatch-IsLive p v
step-IsLive p (message task m) v = message-IsLive (find_flight task p.flights) m p v
step-IsLive p (deadline task) v = deadline-IsLive (find_flight task p.flights) p v
step-IsLive p (stopped task) v = stopped-IsLive (find_flight task p.flights) p v
step-IsLive p closes v = close-IsLive p v
step-IsLive p all_stopped v = finish_close-IsLive p v

pub run-IsLive_from : {C : Type 0} (es : List (Event C)) (p : Pool) → IsLive p → IsLive (run p es)
unfolding run
run-IsLive_from [] p v = v
run-IsLive_from (e ∷ es) p v = run-IsLive_from es (step p e) (step-IsLive p e v)

-- Whatever happens to a new pool of at least one slot, after each event no dispatch waits in the queue
-- while a slot is idle; and a pool has slots, unless it is closed and either nothing is queued or `close`
-- still awaits its workers.
pub run-IsLive :
    {C : Type 0} (size : ℕ) (es : List (Event C)) → 0 < size → IsLive (run (new_pool size) es)
unfolding new_pool
run-IsLive size es h = run-IsLive_from es (new_pool size) (record {
  works = inl refl;
  sized = h;
  staffed = inr (omega (arith, h, new_slots-length size 0));
})
