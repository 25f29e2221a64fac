-- ===== src/WorkerPool/Tests.antt =====
-- Runs of detection-engine/scan-worker-pool.ts, and the theorems about it at concrete inputs.
use guard_core_ts.Base.{ℕ, ◌≡◌, refl, false, List, [], ◌∷◌, none, some, arith, length}
use guard_core_ts.WorkerPool.{
  Pool, candidates, worker_error, completed, timeout, error, Event, runs, message, deadline,
  stopped, closes, all_stopped, new_pool, step, run, has_slot, on_stopped, on_deadline, on_message,
  dispatch, pump, pump_queue, claim, settle, answer_of, resolve, report_success, set_busy,
  hit_deadline, after_termination, close, extract_candidates, finish_close, released, replace_in,
  replace_slot, replace_whole_pool, report_timeout, unreleased,
}
use guard_core_ts.WorkerPool.Counts.{slot_count}
use guard_core_ts.WorkerPool.Account.{places, run-places}
use guard_core_ts.WorkerPool.Exclusive.{IsExclusive, run-IsExclusive}
use guard_core_ts.WorkerPool.Progress.{waiting, expiries, run-expiries}

-- Three dispatches on two workers; the first is answered, the second overshoots its deadline.
abbrev busy : List (Event ℕ)
busy =
    runs ∷ runs ∷ runs ∷ message 0 (candidates (some 7 ∷ none ∷ [])) ∷ deadline 1 ∷ stopped 1 ∷ []

abbrev busy_pool : Pool
busy_pool = run (new_pool 2) busy

answered : busy_pool.results ≡ (0, completed) ∷ (1, timeout) ∷ []
unfolding run step on_stopped on_deadline on_message dispatch new_pool pump pump_queue claim settle
    answer_of resolve report_success set_busy hit_deadline after_termination close
    extract_candidates finish_close released replace_in replace_slot replace_whole_pool
    report_timeout unreleased
answered = refl

closed :
    (run {C = ℕ} busy_pool (message 2 worker_error ∷ runs ∷ closes ∷ all_stopped ∷ [])).results
    ≡ (0, completed) ∷ (1, timeout) ∷ (2, error) ∷ (3, error) ∷ []
unfolding run step on_stopped on_deadline on_message dispatch new_pool pump pump_queue claim settle
    answer_of resolve report_success set_busy hit_deadline after_termination close
    extract_candidates finish_close released replace_in replace_slot replace_whole_pool
    report_timeout unreleased
closed = refl

-- Four timeouts in a row, while the dispatch 3 is still within its deadline: its worker is stopped with
-- the whole pool.
abbrev replaced_pool : Pool
replaced_pool = run {C = ℕ} (new_pool 4) (
    runs
    ∷ runs
    ∷ runs
    ∷ runs
    ∷ runs
    ∷ runs
    ∷ runs
    ∷ deadline 0
    ∷ stopped 0
    ∷ deadline 1
    ∷ stopped 1
    ∷ deadline 2
    ∷ stopped 2
    ∷ deadline 4
    ∷ stopped 4
    ∷ [])

given_up : has_slot 3 replaced_pool.slots ≡ false
unfolding run step on_stopped on_deadline on_message dispatch new_pool pump pump_queue claim settle
    answer_of resolve report_success set_busy hit_deadline after_termination close
    extract_candidates finish_close released replace_in replace_slot replace_whole_pool
    report_timeout unreleased
given_up = refl

-- Then it overshoots its deadline as well: the pool keeps its four slots, and has spawned one worker more.
spawned_for_none :
    (length (run {C = ℕ} replaced_pool (deadline 3 ∷ stopped 3 ∷ [])).slots ≡ 4)
    × (replaced_pool.spawned ≡ 12)
    × ((run {C = ℕ} replaced_pool (deadline 3 ∷ stopped 3 ∷ [])).spawned ≡ 13)
    × (slot_count 12 (run {C = ℕ} replaced_pool (deadline 3 ∷ stopped 3 ∷ [])).slots ≡ 0)
unfolding run step on_stopped on_deadline on_message dispatch new_pool pump pump_queue claim settle
    answer_of resolve report_success set_busy hit_deadline after_termination close
    extract_candidates finish_close released replace_in replace_slot replace_whole_pool
    report_timeout unreleased
spawned_for_none = (refl, refl, refl, refl)

-- A closed pool spawns a worker for a dispatch whose deadline had passed.
spawned_when_closed :
    ((run {C = ℕ} (new_pool 2) (runs ∷ deadline 0 ∷ closes ∷ stopped 0 ∷ [])).spawned ≡ 3)
    × ((run {C = ℕ} (new_pool 2) (runs ∷ deadline 0 ∷ closes ∷ stopped 0 ∷ [])).slots ≡ [])
unfolding run step on_stopped on_deadline on_message dispatch new_pool pump pump_queue claim settle
    answer_of resolve report_success set_busy hit_deadline after_termination close
    extract_candidates finish_close released replace_in replace_slot replace_whole_pool
    report_timeout unreleased
spawned_when_closed = (refl, refl)

-- With one slot, the whole pool is made again after it was closed.
replaced_when_closed :
    length (run {C = ℕ} (new_pool 1) (runs ∷ deadline 0 ∷ closes ∷ stopped 0 ∷ [])).slots ≡ 1
unfolding run step on_stopped on_deadline on_message dispatch new_pool pump pump_queue claim settle
    answer_of resolve report_success set_busy hit_deadline after_termination close
    extract_candidates finish_close released replace_in replace_slot replace_whole_pool
    report_timeout unreleased
replaced_when_closed = refl

run-places_example : places 1 busy_pool ≡ 1
unfolding run step on_stopped on_deadline on_message dispatch new_pool pump pump_queue claim settle
    answer_of resolve report_success set_busy hit_deadline after_termination close
    extract_candidates finish_close released replace_in replace_slot replace_whole_pool
    report_timeout unreleased
run-places_example = run-places 2 busy 1

run-IsExclusive_example : IsExclusive 2 busy_pool
run-IsExclusive_example = run-IsExclusive 2 busy 2

run-expiries_example :
    waiting
      (step {C = ℕ} (run {C = ℕ} busy_pool (expiries (waiting busy_pool) busy_pool)) all_stopped)
    ≡ 0
run-expiries_example = run-expiries 2 busy (omega arith)
