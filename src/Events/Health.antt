-- ===== src/Events/Health.antt =====
-- The health and the dynamic rules of several sinks (core/events/composite-handler.ts).
use guard_core_ts.Base.{
  ℕ, ◌+◌, ◌≡◌, ◌↔◌, refl, ap, subst, ◌∙◌, Bool, true, false, List, [], ◌∷◌, ◌++◌, Option, none,
  some, ◌&&◌, arith,
}
use mathlib.Core.Option
use guard_core_ts.Events.{
  Sink, Composite, or_next, get_dynamic_rules, note_health, check_all, every, health_check,
}

note-health :
    {W : Type 0} (r : Option Bool × W) (s : Composite W)
    → (((note_health r s).0 ≡ true) ↔ (r.0 ≡ some true)) × ((note_health r s).1.world ≡ r.1)
unfolding note_health
note-health (none, w) s = (ground arith, refl)
note-health (some b, w) s = (ground arith, refl)

and_iff :
    {A B : Type 0} {b c : Bool} → (b ≡ true) ↔ A → (c ≡ true) ↔ B → ((b && c) ≡ true) ↔ (A × B)
and_iff {b = true} f g = ((λ e. (f.0 refl, g.0 e)), (λ h. g.1 h.1))
and_iff {b = false} f g = ((λ e. ground arith), (λ h. f.1 h.0))

module _ {W B R : Type 0} where
  -- The world after each sink has been asked for its health.
  abbrev pub after_checks : List (Sink W B R) → W → W
  after_checks [] w = w
  after_checks (sink ∷ sinks) w = after_checks sinks (sink.health_check w).1

  -- Each sink, when it is asked, says that it is healthy.
  abbrev pub AllHealthy : List (Sink W B R) → W → Type 0
  AllHealthy [] w = Unit
  AllHealthy (sink ∷ sinks) w =
      ((sink.health_check w).0 ≡ some true) × AllHealthy sinks (sink.health_check w).1

  check_all-AllHealthy :
      (sinks : List (Sink W B R)) (s : Composite W)
      → ((every (check_all sinks s).0 ≡ true) ↔ AllHealthy sinks s.world)
        × ((check_all sinks s).1.world ≡ after_checks sinks s.world)
  unfolding check_all every
  check_all-AllHealthy [] s = (ground arith, refl)
  check_all-AllHealthy (sink ∷ sinks) s =
      let r = sink.health_check s.world in
      let (first, moved) = note-health r s in
      let (rest, world) = check_all-AllHealthy sinks (note_health r s).1 in
      (
        and_iff first (
            subst (λ w. (every (check_all sinks (note_health r s).1).0 ≡ true) ↔ AllHealthy sinks w)
              moved rest),
        world ∙ ap (after_checks sinks) moved,
      )

  -- The handler is healthy exactly if each of its sinks, asked in order, says so; every sink is asked,
  -- also after one that failed.
  pub health_check_iff :
      (sinks : List (Sink W B R)) (s : Composite W)
      → (((health_check sinks s).0 ≡ true) ↔ AllHealthy sinks s.world)
        × ((health_check sinks s).1.world ≡ after_checks sinks s.world)
  unfolding health_check
  health_check_iff [] s = (((λ e. tt), (λ h. refl)), refl)
  health_check_iff (sink ∷ sinks) s = check_all-AllHealthy (sink ∷ sinks) s

-- A sink that has no rules to give: it answers null, or throws.
abbrev pub gives_none : {R : Type 0} → Option (Option R) → Bool
gives_none none = true
gives_none (some none) = true
gives_none (some (some r)) = false

or_next-gives_none :
    {W R : Type 0} (rest : Composite W → Option R × Composite W) (a : Option (Option R) × W)
    (s : Composite W)
    → gives_none a.0 ≡ true
    → (n : ℕ) × (or_next rest a s ≡ rest (record s { world = a.1; errors = n }))
unfolding or_next
or_next-gives_none rest (none, w) s h = (s.errors + 1, refl)
or_next-gives_none rest (some none, w) s h = (s.errors, refl)
or_next-gives_none rest (some (some r), w) s h = ground arith

or_next-first :
    {W R : Type 0} (rest : Composite W → Option R × Composite W) (a : Option (Option R) × W)
    (s : Composite W) (r : R)
    → a.0 ≡ some (some r)
    → or_next rest a s ≡ (some r, record s { world = a.1 })
unfolding or_next
or_next-first rest (none, w) s r h = ground arith
or_next-first rest (some none, w) s r h = ground arith
or_next-first {R = R} rest (some (some q), w) s r h =
    ap (λ (o : Option (Option R)). (Option.get_or o none, record s { world = w })) h

module _ {W B R : Type 0} where
  abbrev pub after_rules : List (Sink W B R) → W → W
  after_rules [] w = w
  after_rules (sink ∷ sinks) w = after_rules sinks (sink.get_dynamic_rules w).1

  -- None of the sinks, asked in order, has rules to give.
  abbrev pub Silent : List (Sink W B R) → W → Type 0
  Silent [] w = Unit
  Silent (sink ∷ sinks) w =
      (gives_none (sink.get_dynamic_rules w).0 ≡ true) × Silent sinks (sink.get_dynamic_rules w).1

  -- The rules of the first sink that has some are the handler's, whether the sinks before it answer
  -- null or throw, and the sinks after it are not asked.
  pub get_dynamic_rules-first :
      (before after : List (Sink W B R)) (sink : Sink W B R) (s : Composite W) (r : R)
      → Silent before s.world
      → (sink.get_dynamic_rules (after_rules before s.world)).0 ≡ some (some r)
      → ((get_dynamic_rules (before ++ sink ∷ after) s).0 ≡ some r)
        × ((get_dynamic_rules (before ++ sink ∷ after) s).1.world
            ≡ (sink.get_dynamic_rules (after_rules before s.world)).1)
  unfolding get_dynamic_rules
  get_dynamic_rules-first [] after sink s r h e =
      let first = or_next-first (get_dynamic_rules after) (sink.get_dynamic_rules s.world) s r e in
      (
        ap (λ (a : Option R × Composite W). a.0) first,
        ap (λ (a : Option R × Composite W). a.1.world) first,
      )
  get_dynamic_rules-first (first ∷ before) after sink s r (h, hs) e =
      let rest = get_dynamic_rules (before ++ sink ∷ after) in
      let (n, skips) = or_next-gives_none rest (first.get_dynamic_rules s.world) s h in
      let s' : Composite W = record s { world = (first.get_dynamic_rules s.world).1; errors = n } in
      let (found, world) = get_dynamic_rules-first before after sink s' r hs e in
      (
        ap (λ (a : Option R × Composite W). a.0) skips ∙ found,
        ap (λ (a : Option R × Composite W). a.1.world) skips ∙ world,
      )
