-- ===== src/WorkerPool/Slots.antt =====
-- The slots and the dispatches in flight of the pool of detection-engine/scan-worker-pool.ts, as lists.
use guard_core_ts.Base.{
  ℕ, zero, suc, Bool, true, false, List, [], ◌∷◌, ◌++◌, Option, none, some, ◌==◌, if◌then◌else◌,
  any, not, ◌||◌,
}
use mathlib.Core.Option

pub data Status : Type 0 where
  completed timeout error : Status

-- What a worker sends: an error, candidates of which some may be malformed, or anything else.
pub data Message (C : Type 0) : Type 0 where
  worker_error : Message C
  candidates : List (Option C) → Message C
  malformed : Message C

-- `extractCandidates`, by what it keeps of a message; none is null.
unfoldable pub extract_candidates {ℓ} : {C : Type ℓ} → List (Option C) → List C
extract_candidates [] = []
extract_candidates (none ∷ cs) = extract_candidates cs
extract_candidates (some c ∷ cs) = c ∷ extract_candidates cs

-- The waiter of `execute`: the answer of a dispatch.
unfoldable pub answer_of : {C : Type 0} → Message C → Option (List C)
answer_of worker_error = none
answer_of (candidates cs) = some (extract_candidates cs)
answer_of malformed = none

pub record Slot : Type 0 where
  pub id : ℕ
  pub busy : Bool

-- A dispatch that `execute` holds: on which slot, and whether its deadline has passed, so that it awaits
-- the termination of the worker.
pub record Flight : Type 0 where
  pub task : ℕ
  pub slot : ℕ
  pub expired : Bool

-- `n` new slots, the first with the number `from`.
abbrev pub new_slots : ℕ → ℕ → List Slot
new_slots zero from = []
new_slots (suc n) from = record { id = from; busy = false } ∷ new_slots n (suc from)

-- The first slot that is not busy, marked busy.
unfoldable pub claim : List Slot → Option (ℕ × List Slot)
claim [] = none
claim (s ∷ slots) =
    if s.busy
    then Option.map (λ r. (r.0, s ∷ r.1)) (claim slots)
    else some (s.id, record s { busy = true } ∷ slots)

abbrev pub flight_on : ℕ → ℕ → Flight
flight_on slot task = record { task = task; slot = slot; expired = false }

-- `pump`: queued dispatches go to idle slots, in order.
unfoldable pub pump_queue : List ℕ → List Slot → List Flight → List ℕ × List Slot × List Flight
pump_queue [] slots flights = ([], slots, flights)
pump_queue (t ∷ queue) slots flights = elim (claim slots) [
  | none ↦ (t ∷ queue, slots, flights)
  | some r ↦ pump_queue queue r.1 (flights ++ flight_on r.0 t ∷ [])
]

-- `slot.busy = b`, where the slot is still one of the pool.
unfoldable pub set_busy : ℕ → Bool → List Slot → List Slot
set_busy id b [] = []
set_busy id b (s ∷ slots) = (if s.id == id then record s { busy = b } else s) ∷ set_busy id b slots

abbrev pub find_flight : ℕ → List Flight → Option Flight
find_flight task [] = none
find_flight task (f ∷ flights) = if f.task == task then some f else find_flight task flights

abbrev pub without : ℕ → List Flight → List Flight
without task [] = []
without task (f ∷ flights) = if f.task == task then flights else f ∷ without task flights

-- `this.slots[this.slots.indexOf(stale)] = this.newSlot()`: a stale slot that is not in the pool has
-- the index -1, and the new slot is in no place of the pool.
unfoldable pub replace_in : ℕ → Slot → List Slot → List Slot
replace_in id fresh [] = []
replace_in id fresh (s ∷ slots) =
    let rest = replace_in id fresh slots in if s.id == id then fresh ∷ slots else s ∷ rest

-- The deadline of a flight passes: `terminate` is called on its worker, and awaited.
abbrev pub expire : ℕ → List Flight → List Flight
expire task [] = []
expire task (f ∷ flights) =
    if f.task == task then record f { expired = true } ∷ flights else f ∷ expire task flights

-- The slot is one of the pool's.
abbrev pub has_slot : ℕ → List Slot → Bool
has_slot id slots = any (λ s. s.id == id) slots

-- The flights that `close` ends: their slot is in the pool, and they wait for its worker.
unfoldable pub released : List Slot → List Flight → List (ℕ × Status)
released slots [] = []
released slots (f ∷ flights) =
    let rest = released slots flights in
    if f.expired || not (has_slot f.slot slots) then rest else (f.task, error) ∷ rest

unfoldable pub unreleased : List Slot → List Flight → List Flight
unreleased slots [] = []
unreleased slots (f ∷ flights) =
    let rest = unreleased slots flights in
    if f.expired || not (has_slot f.slot slots) then f ∷ rest else rest
