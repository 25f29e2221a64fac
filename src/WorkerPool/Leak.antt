-- ===== src/WorkerPool/Leak.antt =====
-- Where the worker goes that takes the place of a stale one (`replaceSlot` of
-- detection-engine/scan-worker-pool.ts).
use guard_core_ts.Base.{ℕ, suc, ◌<◌, ◌≡◌, refl, if◌then◌else◌, arith}
use guard_core_ts.WorkerPool.{Pool, has_slot, replace_slot}
use guard_core_ts.WorkerPool.Counts.{slot_count, use_count, replace_in_counts}
use guard_core_ts.WorkerPool.Exclusive.{IsExclusive}

-- In a pool whose next worker is new, the worker that replaces a stale slot is in the pool afterwards
-- exactly if that slot was: for a slot that the pool has given up, a worker is spawned that is in no
-- slot, runs no dispatch, and is not told to stop.
pub replace_slot-has_slot :
    (slot : ℕ) (p : Pool)
    → IsExclusive p.spawned p
    → slot < p.spawned
    → (slot_count p.spawned (replace_slot slot p).slots ≡ (if has_slot slot p.slots then 1 else 0))
      × (use_count p.spawned (replace_slot slot p).flights ≡ 0)
      × ((replace_slot slot p).spawned ≡ suc p.spawned)
      × ((replace_slot slot p).terminated ≡ p.terminated)
unfolding replace_slot
replace_slot-has_slot slot p v h =
    let counts = replace_in_counts p.spawned slot p.spawned p.slots in
    (ground (arith, v, counts), ground (arith, v), omega arith, refl)
