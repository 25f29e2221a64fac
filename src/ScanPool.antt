-- ===== src/ScanPool.antt =====
-- packages/core/src/detection-engine/scan-pool.ts: the supervisor of scans without worker threads. A
-- pattern that times out four times in a row is in quarantine for a cooldown. Times are milliseconds
-- of the injected clock; a call takes the readings of the clock that it makes.
pub mod Quarantine
pub mod Streaks
pub mod Tests
use guard_core_ts.Base.{
  ℕ, ◌+◌, ◌-◌, String, Bool, true, false, List, [], ◌∷◌, ◌++◌, Option, none, some, ltb, leb, not,
  if◌then◌else◌, map,
}
use mathlib.Core.Option
use guard_core_ts.JsMap.{JsMap, get, has, put, delete}

-- `SCAN_POOL_SIZE`
unfoldable pub scan_pool_size : ℕ
scan_pool_size = 4

pub data EventType : Type 0 where
  pattern_quarantined pattern_released : EventType

pub record PoolEvent : Type 0 where
  pub event_type : EventType
  pub pattern : String
  pub consecutive_timeouts : ℕ
  pub cooldown_ms : ℕ
  pub at_ms : ℕ

-- The maps of `ScanPoolSupervisor`, and the events that its listeners got: one that throws is ignored.
pub record Supervisor : Type 0 where
  pub consecutive_timeouts : JsMap ℕ
  pub quarantined_until : JsMap ℕ
  pub emitted : List PoolEvent

pub data Outcome (A : Type 0) : Type 0 where
  completed : A → ℕ → Outcome A
  timeout : ℕ → Outcome A
  quarantined : Outcome A
  error : ℕ → Outcome A

abbrev pub release_event : ℕ → String → PoolEvent
release_event now pattern = record {
  event_type = pattern_released;
  pattern = pattern;
  consecutive_timeouts = 0;
  cooldown_ms = 0;
  at_ms = now;
}

-- The entries that stay in quarantine at a time.
unfoldable pub still_held : ℕ → JsMap ℕ → JsMap ℕ
still_held now [] = []
still_held now ((pattern, until) ∷ m) =
    let rest = still_held now m in if leb until now then rest else (pattern, until) ∷ rest

-- The events of the entries that are over, in the order of the map.
unfoldable pub releases : ℕ → JsMap ℕ → List PoolEvent
releases now [] = []
releases now ((pattern, until) ∷ m) =
    let rest = releases now m in if leb until now then release_event now pattern ∷ rest else rest

-- `releaseExpired`
unfoldable pub release_expired : ℕ → Supervisor → Supervisor
release_expired now s = record s {
  quarantined_until = still_held now s.quarantined_until;
  emitted = s.emitted ++ releases now s.quarantined_until;
}

-- `isActive`
unfoldable pub is_active : String → ℕ → Supervisor → Bool × Supervisor
is_active pattern now s =
    let s' = release_expired now s in (not (has s'.quarantined_until pattern), s')

-- `consecutiveTimeoutCount`
unfoldable pub consecutive_timeout_count : String → Supervisor → ℕ
consecutive_timeout_count pattern s = Option.get_or (get s.consecutive_timeouts pattern) 0

-- `reportSuccess`
unfoldable pub report_success : String → Supervisor → Supervisor
report_success pattern s = record s { consecutive_timeouts = delete s.consecutive_timeouts pattern }

-- `reportTimeout`, with the clock that it reads where it quarantines the pattern.
unfoldable pub report_timeout : ℕ → String → ℕ → Supervisor → Bool × Supervisor
report_timeout cooldown pattern at s =
    let count = consecutive_timeout_count pattern s + 1 in
    if ltb count scan_pool_size
    then (false, record s { consecutive_timeouts = put s.consecutive_timeouts pattern count })
    else (
      true,
      record {
        consecutive_timeouts = delete s.consecutive_timeouts pattern;
        quarantined_until = put s.quarantined_until pattern (at + cooldown);
        emitted =
            s.emitted
            ++ record {
              event_type = pattern_quarantined;
              pattern = pattern;
              consecutive_timeouts = scan_pool_size;
              cooldown_ms = cooldown;
              at_ms = at;
            }
              ∷ [];
      },
    )

-- The readings of the clock in one run: for the release, before and after the scan, and in the report.
pub record Clock : Type 0 where
  pub now : ℕ
  pub start : ℕ
  pub finish : ℕ
  pub at : ℕ

-- `run`, for a scan that gives a value or throws.
unfoldable pub run :
    {A : Type 0}
    → (deadline cooldown : ℕ) → String
    → Option A
    → Clock
    → Supervisor
    → Outcome A × Supervisor
run deadline cooldown pattern scan clock s =
    let (active, s') = is_active pattern clock.now s in
    let elapsed = clock.finish - clock.start in
    if not active then (quarantined, s') else elim scan [
      | none ↦ (error elapsed, s')
      | some value ↦
          if ltb deadline elapsed
          then (timeout elapsed, (report_timeout cooldown pattern clock.at s').1)
          else (completed value elapsed, report_success pattern s')
    ]

-- `quarantinedPatterns`
unfoldable pub quarantined_patterns : ℕ → Supervisor → List String × Supervisor
quarantined_patterns now s =
    let s' = release_expired now s in (map (λ e. e.0) s'.quarantined_until, s')

-- `reset`
unfoldable pub reset : Supervisor → Supervisor
reset s = record s { consecutive_timeouts = []; quarantined_until = [] }
