-- ===== src/WorkerPool.antt =====
-- packages/core/src/detection-engine/scan-worker-pool.ts: the pool of worker threads for scans with a
-- deadline, as a machine whose events are the calls and the callbacks between which it awaits. A slot
-- object is its number, in the order of `spawn`; a dispatch is its number, in the order of the calls.
-- The workers' threads and their deadlines come from outside: they are the events.
pub mod Slots
pub mod Pump
pub mod Account
pub mod Counts
pub mod Exclusive
pub mod Staffing
pub mod Progress
pub mod Leak
pub mod Tests
use guard_core_ts.Base.{
  ℕ, suc, ◌+◌, Bool, true, false, List, [], ◌∷◌, ◌++◌, Option, none, some, map, ltb, if◌then◌else◌,
}
use mathlib.Core.Option
unfoldable pub use guard_core_ts.WorkerPool.Slots.*

pub data PoolEvent : Type 0 where
  worker_replaced pool_replaced : PoolEvent

-- `spawned` slots were made so far; the workers of `terminated` were told to stop. `results` are the
-- resolved dispatches, oldest first. While `closing`, `close` awaits the ends of its workers.
pub record Pool : Type 0 where
  pub size : ℕ
  pub slots : List Slot
  pub queue : List ℕ
  pub flights : List Flight
  pub consecutive_timeouts : ℕ
  pub drained : Bool
  pub closing : Bool
  pub spawned : ℕ
  pub terminated : List ℕ
  pub dispatched : ℕ
  pub results : List (ℕ × Status)
  pub emitted : List PoolEvent

-- The constructor.
unfoldable pub new_pool : ℕ → Pool
new_pool size = record {
  size = size;
  slots = new_slots size 0;
  queue = [];
  flights = [];
  consecutive_timeouts = 0;
  drained = false;
  closing = false;
  spawned = size;
  terminated = [];
  dispatched = 0;
  results = [];
  emitted = [];
}

unfoldable pub pump : Pool → Pool
pump p =
    let (queue, slots, flights) = pump_queue p.queue p.slots p.flights in
    record p { queue = queue; slots = slots; flights = flights }

-- `dispatch`
unfoldable pub dispatch : Pool → Pool
dispatch p =
    let counted = record p { dispatched = suc p.dispatched } in
    if p.drained
    then record counted { results = p.results ++ (p.dispatched, error) ∷ [] }
    else pump (record counted { queue = p.queue ++ p.dispatched ∷ [] })

-- A dispatch resolves: its `execute` is over.
unfoldable pub resolve : ℕ → Status → Pool → Pool
resolve task status p = record p {
  flights = without task p.flights;
  results = p.results ++ (task, status) ∷ [];
}

-- `reportSuccess`
unfoldable pub report_success : Pool → Pool
report_success p = record p { consecutive_timeouts = 0 }

-- The end of `execute` where the answer won the race.
unfoldable pub settle : {C : Type 0} → Flight → Option (List C) → Pool → Pool
settle f answer p =
    let idle = record p { slots = set_busy f.slot false p.slots } in
    elim answer [
      | none ↦ pump (resolve f.task error idle)
      | some cs ↦ pump (resolve f.task completed (report_success idle))
    ]

-- `replaceSlot`
unfoldable pub replace_slot : ℕ → Pool → Pool
replace_slot id p = record p {
  slots = replace_in id (record { id = p.spawned; busy = false }) p.slots;
  spawned = p.spawned + 1;
  emitted = p.emitted ++ worker_replaced ∷ [];
}

-- `replaceWholePool`
unfoldable pub replace_whole_pool : Pool → Pool
replace_whole_pool p = record p {
  slots = new_slots p.size p.spawned;
  spawned = p.spawned + p.size;
  terminated = p.terminated ++ map (λ s. s.id) p.slots;
  emitted = p.emitted ++ pool_replaced ∷ [];
}

-- `reportTimeout`
unfoldable pub report_timeout : Pool → Pool
report_timeout p =
    if ltb (p.consecutive_timeouts + 1) p.size
    then record p { consecutive_timeouts = p.consecutive_timeouts + 1 }
    else replace_whole_pool (record p { consecutive_timeouts = 0 })

unfoldable pub hit_deadline : Flight → Pool → Pool
hit_deadline f p = record p {
  flights = expire f.task p.flights;
  terminated = p.terminated ++ f.slot ∷ [];
}

-- The end of `execute` after the worker has stopped.
unfoldable pub after_termination : Flight → Pool → Pool
after_termination f p = resolve f.task timeout (pump (report_timeout (replace_slot f.slot p)))

-- `close`, up to where it awaits the ends of the workers of its slots.
unfoldable pub close : Pool → Pool
close p = if p.drained then p else record p {
  drained = true;
  closing = true;
  slots = [];
  flights = unreleased p.slots p.flights;
  terminated = p.terminated ++ map (λ s. s.id) p.slots;
  results = p.results ++ released p.slots p.flights;
}

-- The rest of `close`: what is still queued never starts.
unfoldable pub finish_close : Pool → Pool
finish_close p =
    if p.closing
    then record p {
      closing = false;
      queue = [];
      results = p.results ++ map (λ t. (t, error)) p.queue;
    }
    else p

-- The events of the pool: a call of `run`, a message of the worker of a dispatch, its deadline, the
-- end of its worker's termination, a call of `close`, and the end of the terminations it awaits.
pub data Event (C : Type 0) : Type 0 where
  runs : Event C
  message : ℕ → Message C → Event C
  deadline : ℕ → Event C
  stopped : ℕ → Event C
  closes : Event C
  all_stopped : Event C

-- A message goes to the waiter of a dispatch; after the deadline it is ignored.
unfoldable pub on_message : {C : Type 0} → Option Flight → Message C → Pool → Pool
on_message none m p = p
on_message (some f) m p = if f.expired then p else settle f (answer_of m) p

unfoldable pub on_deadline : Option Flight → Pool → Pool
on_deadline none p = p
on_deadline (some f) p = if f.expired then p else hit_deadline f p

unfoldable pub on_stopped : Option Flight → Pool → Pool
on_stopped none p = p
on_stopped (some f) p = if f.expired then after_termination f p else p

unfoldable pub step : {C : Type 0} → Pool → Event C → Pool
step p runs = dispatch p
step p (message task m) = on_message (find_flight task p.flights) m p
step p (deadline task) = on_deadline (find_flight task p.flights) p
step p (stopped task) = on_stopped (find_flight task p.flights) p
step p closes = close p
step p all_stopped = finish_close p

unfoldable pub run : {C : Type 0} → Pool → List (Event C) → Pool
run p [] = p
run p (e ∷ es) = run (step p e) es
