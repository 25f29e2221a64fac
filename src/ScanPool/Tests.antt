-- ===== src/ScanPool/Tests.antt =====
-- Runs of detection-engine/scan-pool.ts, and the theorems about it at concrete inputs.
use guard_core_ts.Base.{
  List, ◌%◌, ℕ, ◌+◌, ◌≤◌, ◌<◌, ◌≡◌, refl, ◌↔◌, ◌⊎◌, true, [], ◌∷◌, none, some, arith,
}
use guard_core_ts.JsMap.{delete, get, has, put}
use guard_core_ts.ScanPool.{
  report_timeout, report_success, timeout, Supervisor, completed, Clock, scan_pool_size, still_held,
  release_expired, is_active, consecutive_timeout_count, run, reset, quarantined_patterns,
}
use guard_core_ts.ScanPool.Streaks.{
  Scan, new_supervisor, run_scans, run_scans-timeout, timeouts_since,
}

abbrev idle : Supervisor
idle = record { consecutive_timeouts = []; quarantined_until = []; emitted = [] }

-- Three timeouts of a pattern, and one that is in quarantine until 500.
abbrev busy : Supervisor
busy = record {
  consecutive_timeouts = ("(a+)+", 3) ∷ [];
  quarantined_until = ("b*", 500) ∷ [];
  emitted = [];
}

abbrev at_time : ℕ → ℕ → Clock
at_time now elapsed = record { now = now; start = now; finish = now + elapsed; at = now + elapsed }

fast : (run {A = ℕ} 10 60 "x" (some 7) (at_time 100 3) idle).0 ≡ completed 7 3
unfolding run is_active release_expired still_held has
fast = refl

threw_keeps_count :
    (run {A = ℕ} 10 60 "(a+)+" none (at_time 600 3) busy).1.consecutive_timeouts
    ≡ busy.consecutive_timeouts
unfolding run is_active release_expired still_held has
threw_keeps_count = refl

listed : (quarantined_patterns 100 busy).0 ≡ "b*" ∷ []
unfolding quarantined_patterns release_expired still_held
listed = refl

emptied : (reset busy).quarantined_until ≡ []
unfolding reset
emptied = refl

-- One timeout, a success that ends the row, and three timeouts more.
abbrev slow : ℕ → Scan ℕ
slow now = record { pattern = "x"; result = some 7; clock = at_time now 20 }

abbrev scans : List (Scan ℕ)
scans =
    slow 100
    ∷ record { pattern = "x"; result = some 7; clock = at_time 200 3 }
    ∷ slow 300
    ∷ record { pattern = "y"; result = some 7; clock = at_time 350 3 }
    ∷ slow 400
    ∷ slow 500
    ∷ []

three_in_a_row : timeouts_since "x" 0 (run_scans 10 60 ℕ new_supervisor scans).0 ≡ 3
unfolding run_scans run is_active release_expired still_held has report_timeout report_success
    consecutive_timeout_count get put delete scan_pool_size
three_in_a_row = refl

still_active : (is_active "x" 600 (run_scans 10 60 ℕ new_supervisor scans).1).0 ≡ true
unfolding run_scans run is_active release_expired still_held has report_timeout report_success
    consecutive_timeout_count get put delete scan_pool_size
still_active = refl

run_scans-timeout_example :
    ((run {A = ℕ} 10 60 "x" (some 7) (at_time 600 20) (run_scans 10 60 ℕ new_supervisor scans).1).0
      ≡ timeout 20)
    × (((is_active "x" 650
            (run {A = ℕ} 10 60 "x"
              (some 7)
              (at_time 600 20)
              (run_scans 10 60 ℕ new_supervisor scans).1).1).0
          ≡ true)
        ↔ ((0 < (timeouts_since "x" 0 (run_scans 10 60 ℕ new_supervisor scans).0 + 1) % 4)
            ⊎ (620 + 60 ≤ 650)))
run_scans-timeout_example =
    run_scans-timeout 10 60 ℕ scans "x" 7 (at_time 600 20) 650 still_active (omega arith)
