-- ===== src/ScanPool/Streaks.antt =====
-- packages/core/src/detection-engine/scan-pool.ts: the timeouts of a pattern in a row, over a history of scans.
use guard_core_ts.Base.{
  Bool-cases, List, Option, String, [], ap, arith, eq_iff, false, if_both, if◌then◌else◌, inl, inr,
  ltb, lt→ltb, none, not, refl, some, str_eq, true, ℕ, ◌%◌, ◌+◌, ◌-◌, ◌<◌, ◌↔◌, ◌∙◌, ◌∷◌, ◌≡◌, ◌≤◌,
  ◌⊎◌,
}
use mathlib.Core.Option
use guard_core_ts.JsMap.{get}
use guard_core_ts.JsMap.Laws.{get-delete, get-put}
use guard_core_ts.ScanPool.{
  Clock, Outcome, Supervisor, completed, consecutive_timeout_count, error, is_active, quarantined,
  release_expired, report_success, report_timeout, run, scan_pool_size, timeout,
}
use guard_core_ts.ScanPool.Quarantine.{
  IsSupervisor, holds, is_active-holds, release-IsSupervisor, release-below, run-IsSupervisor,
  timeout-is_active,
}

-- A scan of a pattern: what it gives, if it does not throw, and the readings of the clock.
pub record Scan (A : Type 0) : Type 0 where
  pub pattern : String
  pub result : Option A
  pub clock : Clock

-- A supervisor as it is made.
abbrev pub new_supervisor : Supervisor
new_supervisor = record { consecutive_timeouts = []; quarantined_until = []; emitted = [] }

-- A success ends a row of timeouts; an error, or a scan that is not run, does not.
abbrev counted : {A : Type 0} → Outcome A → ℕ → ℕ
counted (completed value elapsed) n = 0
counted (timeout elapsed) n = n + 1
counted quarantined n = n
counted (error elapsed) n = n

-- The timeouts of a pattern since its last success, by the outcomes of all scans, oldest first.
abbrev pub timeouts_since : {A : Type 0} → String → ℕ → List (String × Outcome A) → ℕ
timeouts_since p n [] = n
timeouts_since p n ((q, o) ∷ log) = timeouts_since p (if str_eq q p then counted o n else n) log

count-success :
    (p q : String) (s : Supervisor)
    → IsSupervisor s
    → consecutive_timeout_count p (report_success q s)
      ≡ (if str_eq q p then 0 else consecutive_timeout_count p s)
unfolding consecutive_timeout_count report_success
count-success p q s v = ground (arith, get-delete s.consecutive_timeouts q p v.counted)

count-report :
    (cooldown : ℕ) (p q : String) (at : ℕ) (s : Supervisor)
    → IsSupervisor s
    → consecutive_timeout_count p (report_timeout cooldown q at s).1 ≡ (
        if str_eq q p
        then (if ltb (consecutive_timeout_count q s + 1) 4
            then consecutive_timeout_count q s + 1
            else 0)
        else consecutive_timeout_count p s)
unfolding consecutive_timeout_count report_timeout scan_pool_size
count-report cooldown p q at s v =
    let count : ℕ = Option.get_or (get s.consecutive_timeouts q) 0 + 1 in
    ground (
      arith,
      get-delete s.consecutive_timeouts q p v.counted,
      get-put s.consecutive_timeouts q p count,
    )

-- The count of a pattern is the length of its row, up to whole rounds of four.
abbrev Counts : String → ℕ → Supervisor → Type 0
Counts p n s = consecutive_timeout_count p s ≡ n % 4

new-IsSupervisor : IsSupervisor new_supervisor
unfolding consecutive_timeout_count get scan_pool_size
new-IsSupervisor = record { counted = tt; held = tt; below = λ p. omega arith }

new-Counts : (p : String) → Counts p 0 new_supervisor
unfolding consecutive_timeout_count get
new-Counts p = refl

module _ (deadline cooldown : ℕ) (A : Type 0) where
  -- The scans of a history, one after the other, with the outcome of each.
  unfoldable pub run_scans : Supervisor → List (Scan A) → List (String × Outcome A) × Supervisor
  run_scans s [] = ([], s)
  run_scans s (x ∷ scans) =
      let (outcome, s') = run deadline cooldown x.pattern x.result x.clock s in
      let (log, s'') = run_scans s' scans in ((x.pattern, outcome) ∷ log, s'')

  abbrev Follows : String → String → ℕ → Outcome A × Supervisor → Type 0
  Follows p q n (o, s) = Counts p (if str_eq q p then counted o n else n) s

  same-Follows :
      (p q : String) (n : ℕ) (o : Outcome A) (s : Supervisor)
      → counted o n ≡ n
      → Counts p n s
      → Follows p q n (o, s)
  same-Follows p q n o s e h = ground (arith, e, h)

  timeout-Follows :
      (p q : String) (n at elapsed : ℕ) (s : Supervisor)
      → IsSupervisor s
      → Counts p n s
      → Follows p q n (timeout elapsed, (report_timeout cooldown q at s).1)
  timeout-Follows p q n at elapsed s v h = elim (Bool-cases (str_eq q p)) [
    | inl e ↦
        let same : consecutive_timeout_count q s ≡ n % 4 =
          ap (λ (k : String). consecutive_timeout_count k s) ((eq_iff q p).0 e) ∙ h in
        ground (arith, e, same, count-report cooldown p q at s v)
    | inr e ↦ ground (arith, e, h, count-report cooldown p q at s v)
  ]

  success-Follows :
      (p q : String) (n elapsed : ℕ) (value : A) (s : Supervisor)
      → IsSupervisor s
      → Counts p n s
      → Follows p q n (completed value elapsed, report_success q s)
  success-Follows p q n elapsed value s v h = ground (arith, h, count-success p q s v)

  run-Follows :
      (p q : String) (n : ℕ) (scan : Option A) (clock : Clock) (s : Supervisor)
      → IsSupervisor s
      → Counts p n s
      → Follows p q n (run deadline cooldown q scan clock s)
  unfolding run is_active
  run-Follows p q n none clock s v h =
      let s' : Supervisor = release_expired clock.now s in
      let h' : Counts p n s' = release-below p clock.now s ∙ h in
      if_both (Follows p q n) (not (is_active q clock.now s).0)
        (same-Follows p q n quarantined s' refl h')
        (same-Follows p q n (error (clock.finish - clock.start)) s' refl h')
  run-Follows p q n (some value) clock s v h =
      let s' : Supervisor = release_expired clock.now s in
      let v' : IsSupervisor s' = release-IsSupervisor clock.now s v in
      let h' : Counts p n s' = release-below p clock.now s ∙ h in
      let elapsed : ℕ = clock.finish - clock.start in
      if_both (Follows p q n) (not (is_active q clock.now s).0)
        (same-Follows p q n quarantined s' refl h')
        (if_both (Follows p q n) (ltb deadline elapsed)
          (timeout-Follows p q n clock.at elapsed s' v' h')
          (success-Follows p q n elapsed value s' v' h'))

  run_scans-Counts :
      (p : String) (scans : List (Scan A)) (n : ℕ) (s : Supervisor)
      → IsSupervisor s
      → Counts p n s
      → IsSupervisor (run_scans s scans).1
        × Counts p (timeouts_since p n (run_scans s scans).0) (run_scans s scans).1
  unfolding run_scans
  run_scans-Counts p [] n s v h = (v, h)
  run_scans-Counts p (x ∷ scans) n s v h =
      run_scans-Counts p scans
        (if str_eq x.pattern p
          then counted (run deadline cooldown x.pattern x.result x.clock s).0 n
          else n)
        (run deadline cooldown x.pattern x.result x.clock s).1
        (run-IsSupervisor deadline cooldown x.pattern x.result x.clock s v)
        (run-Follows p x.pattern n x.result x.clock s v h)

  run-timeout :
      (p : String) (value : A) (clock : Clock) (s : Supervisor)
      → (is_active p clock.now s).0 ≡ true
      → deadline < clock.finish - clock.start
      → (run deadline cooldown p (some value) clock s).0 ≡ timeout (clock.finish - clock.start)
  unfolding run
  run-timeout p value clock s active slow =
      rw (active, lt→ltb deadline (clock.finish - clock.start) slow) refl

  -- After any history of scans of any patterns, from a new supervisor, a scan of an active pattern that
  -- overshoots the deadline is a timeout, and the pattern is active at a time afterwards exactly when
  -- its timeouts since its last success, this one included, are no multiple of four, or the cooldown
  -- is over.
  pub run_scans-timeout :
      (scans : List (Scan A)) (p : String) (value : A) (clock : Clock) (later : ℕ)
      → (is_active p clock.now (run_scans new_supervisor scans).1).0 ≡ true
      → deadline < clock.finish - clock.start
      → ((run deadline cooldown p (some value) clock (run_scans new_supervisor scans).1).0
          ≡ timeout (clock.finish - clock.start))
        × (((is_active p later
                (run deadline cooldown p (some value) clock (run_scans new_supervisor scans).1).1).0
              ≡ true)
            ↔ ((0 < (timeouts_since p 0 (run_scans new_supervisor scans).0 + 1) % 4)
                ⊎ (clock.at + cooldown ≤ later)))
  run_scans-timeout scans p value clock later active slow =
      let s : Supervisor = (run_scans new_supervisor scans).1 in
      let row : ℕ = timeouts_since p 0 (run_scans new_supervisor scans).0 in
      let (v, h) = run_scans-Counts p scans 0 new_supervisor new-IsSupervisor (new-Counts p) in
      let free : holds clock.now (get s.quarantined_until p) ≡ false =
        ground (arith, active, is_active-holds p clock.now s v.held) in
      let (to, of) = timeout-is_active deadline cooldown p value clock s later v free slow in
      (
        run-timeout p value clock s active slow,
        (
          λ e. elim (to e) [ inl few ↦ inl (omega (arith, few, h)) | inr over ↦ inr over ],
          λ e. elim e [ inl few ↦ of (inl (omega (arith, few, h))) | inr over ↦ of (inr over) ],
        ),
      )
