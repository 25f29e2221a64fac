-- ===== src/ScanPool/Quarantine.antt =====
-- When a pattern is scanned and when it sits out its quarantine (detection-engine/scan-pool.ts).
use guard_core_ts.Base.{
  ℕ, ◌+◌, ◌-◌, ◌≤◌, ◌<◌, ◌≡◌, refl, ap, ◌∙◌, ◌↔◌, ◌⊎◌, inl, inr, String, Bool, true, false, [], ◌∷◌,
  Option, none, some, ltb, not, if◌then◌else◌, arith, eq_iff, Bool-cases,
}
use mathlib.Core.Option
use guard_core_ts.JsMap.{JsMap, get, has, put}
use guard_core_ts.JsMap.Laws.{
  IsMap, get-put, get-put_self, get-delete, has-get, put-IsMap, delete-IsMap,
}
use guard_core_ts.ScanPool.{
  scan_pool_size, Supervisor, quarantined, Clock, still_held, release_expired, is_active,
  consecutive_timeout_count, report_success, report_timeout, run,
}

-- An entry that is not over.
abbrev pub holds : ℕ → Option ℕ → Bool
holds now none = false
holds now (some until) = ltb now until

still_held_absent :
    (now : ℕ) (m : JsMap ℕ) (p : String) → has m p ≡ false → has (still_held now m) p ≡ false
unfolding still_held has
still_held_absent now [] p h = refl
still_held_absent now ((q, u) ∷ m) p h = ground (arith, still_held_absent now m p)

has-still_held :
    (now : ℕ) (m : JsMap ℕ) (p : String) → IsMap m → has (still_held now m) p ≡ holds now (get m p)
unfolding still_held has get
has-still_held now [] p h = refl
has-still_held now ((q, u) ∷ m) p (h, hs) =
    ground (arith, has-still_held now m p hs, still_held_absent now m q h, eq_iff q p)

still_held-IsMap : (now : ℕ) (m : JsMap ℕ) → IsMap m → IsMap (still_held now m)
unfolding still_held
still_held-IsMap now [] h = tt
still_held-IsMap now ((q, u) ∷ m) (h, hs) =
    ground (arith, still_held_absent now m q h, still_held-IsMap now m hs)

-- A supervisor between calls: its keys are distinct, and no count has reached the pool size.
pub record IsSupervisor (s : Supervisor) : Type 0 where
  pub counted : IsMap s.consecutive_timeouts
  pub held : IsMap s.quarantined_until
  pub below : (p : String) → consecutive_timeout_count p s < scan_pool_size

pub is_active-holds :
    (p : String) (now : ℕ) (s : Supervisor)
    → IsMap s.quarantined_until
    → (is_active p now s).0 ≡ not (holds now (get s.quarantined_until p))
unfolding is_active release_expired
is_active-holds p now s h = ap not (has-still_held now s.quarantined_until p h)

-- The quarantine after a report of a timeout.
abbrev held_after : ℕ → String → ℕ → Supervisor → JsMap ℕ
held_after cooldown p at s =
    if ltb (consecutive_timeout_count p s + 1) 4
    then s.quarantined_until
    else put s.quarantined_until p (at + cooldown)

report-held_after :
    (cooldown : ℕ) (p : String) (at : ℕ) (s : Supervisor)
    → (report_timeout cooldown p at s).1.quarantined_until ≡ held_after cooldown p at s
unfolding report_timeout scan_pool_size
report-held_after cooldown p at s = ground arith

held_after-IsMap :
    (cooldown : ℕ) (p : String) (at : ℕ) (s : Supervisor)
    → IsMap s.quarantined_until
    → IsMap (held_after cooldown p at s)
held_after-IsMap cooldown p at s h =
    ground (arith, h, put-IsMap s.quarantined_until p (at + cooldown) h)

held_after-get :
    (cooldown : ℕ) (p : String) (at : ℕ) (s : Supervisor) (later : ℕ)
    → get s.quarantined_until p ≡ none
    → (not (holds later (get (held_after cooldown p at s) p)) ≡ true)
      ↔ ((consecutive_timeout_count p s + 1 < 4) ⊎ (at + cooldown ≤ later))
held_after-get cooldown p at s later h =
    ground (arith, h, get-put_self s.quarantined_until p (at + cooldown))

pub release-below :
    (p : String) (now : ℕ) (s : Supervisor)
    → consecutive_timeout_count p (release_expired now s) ≡ consecutive_timeout_count p s
unfolding release_expired consecutive_timeout_count
release-below p now s = refl

report-IsSupervisor :
    (cooldown : ℕ) (p : String) (at : ℕ) (s : Supervisor)
    → IsSupervisor s
    → IsSupervisor (report_timeout cooldown p at s).1
unfolding report_timeout consecutive_timeout_count scan_pool_size
report-IsSupervisor cooldown p at s v =
    let count = Option.get_or (get s.consecutive_timeouts p) 0 + 1 in
    elim (Bool-cases (ltb count 4)) [
      | inl e ↦ rw e (record {
        counted = put-IsMap s.consecutive_timeouts p count v.counted;
        held = v.held;
        below = λ q. ground (arith, e, get-put s.consecutive_timeouts p q count, v.below q);
      })
      | inr e ↦ rw e (record {
        counted = delete-IsMap s.consecutive_timeouts p v.counted;
        held = put-IsMap s.quarantined_until p (at + cooldown) v.held;
        below = λ q. ground (arith, get-delete s.consecutive_timeouts p q v.counted, v.below q);
      })
    ]

success-IsSupervisor :
    (p : String) (s : Supervisor) → IsSupervisor s → IsSupervisor (report_success p s)
unfolding report_success consecutive_timeout_count scan_pool_size
success-IsSupervisor p s v = record {
  counted = delete-IsMap s.consecutive_timeouts p v.counted;
  held = v.held;
  below = λ q. ground (arith, get-delete s.consecutive_timeouts p q v.counted, v.below q);
}

pub release-IsSupervisor :
    (now : ℕ) (s : Supervisor) → IsSupervisor s → IsSupervisor (release_expired now s)
unfolding release_expired consecutive_timeout_count
release-IsSupervisor now s v = record {
  counted = v.counted;
  held = still_held-IsMap now s.quarantined_until v.held;
  below = v.below;
}

is_active-release_expired :
    (p : String) (now : ℕ) (s : Supervisor) → (is_active p now s).1 ≡ release_expired now s
unfolding is_active
is_active-release_expired p now s = refl

module _ (deadline cooldown : ℕ) {A : Type 0} where
  -- With a supervisor in order, a pattern in quarantine is not scanned: the run says so, whatever the
  -- scan would do, and changes nothing but that it releases the entries that are over.
  pub run-quarantined :
      (p : String) (scan : Option A) (clock : Clock) (s : Supervisor)
      → IsSupervisor s
      → holds clock.now (get s.quarantined_until p) ≡ true
      → run deadline cooldown p scan clock s ≡ (quarantined, release_expired clock.now s)
  unfolding run is_active
  run-quarantined p scan clock s v h = rw (is_active-holds p clock.now s v.held, h) refl

  -- The state after a run that timed out.
  abbrev pub after : String → A → Clock → Supervisor → Supervisor
  after p value clock s = (run deadline cooldown p (some value) clock s).1

  after_lem :
      (p : String) (value : A) (clock : Clock) (s : Supervisor)
      → IsSupervisor s
      → holds clock.now (get s.quarantined_until p) ≡ false
      → deadline < clock.finish - clock.start
      → after p value clock s ≡ (report_timeout cooldown p clock.at (release_expired clock.now s)).1
  unfolding run
  after_lem p value clock s v h slow =
      ground
        (arith, is_active-holds p clock.now s v.held, h, is_active-release_expired p clock.now s)

  -- From a supervisor in order, a scan of an active pattern that overshoots the deadline is a timeout:
  -- afterwards the pattern is active at a time exactly when this was not its fourth timeout in a row,
  -- or the cooldown is over.
  pub timeout-is_active :
      (p : String) (value : A) (clock : Clock) (s : Supervisor) (later : ℕ)
      → IsSupervisor s
      → holds clock.now (get s.quarantined_until p) ≡ false
      → deadline < clock.finish - clock.start
      → ((is_active p later (after p value clock s)).0 ≡ true)
        ↔ ((consecutive_timeout_count p s + 1 < 4) ⊎ (clock.at + cooldown ≤ later))
  unfolding release_expired still_held
  timeout-is_active p value clock s later v h slow =
      let s' = release_expired clock.now s in
      let free =
        has-get (still_held clock.now s.quarantined_until) p
          (has-still_held clock.now s.quarantined_until p v.held ∙ h) in
      ground (
        arith,
        after_lem p value clock s v h slow,
        is_active-holds p later (after p value clock s),
        report-held_after cooldown p clock.at s',
        held_after-IsMap cooldown p clock.at s'
            (still_held-IsMap clock.now s.quarantined_until v.held),
        held_after-get cooldown p clock.at s' later free,
        release-below p clock.now s,
      )

  -- A run keeps the supervisor in order: distinct keys, and every count below the pool size.
  pub run-IsSupervisor :
      (p : String) (scan : Option A) (clock : Clock) (s : Supervisor)
      → IsSupervisor s
      → IsSupervisor (run deadline cooldown p scan clock s).1
  unfolding run is_active
  run-IsSupervisor p scan clock s v =
      let v' = release-IsSupervisor clock.now s v in
      ground (
        arith,
        v',
        report-IsSupervisor cooldown p clock.at (release_expired clock.now s) v',
        success-IsSupervisor p (release_expired clock.now s) v',
      )
