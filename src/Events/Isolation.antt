-- ===== src/Events/Isolation.antt =====
-- A sink that throws keeps no other sink from its call (core/events/composite-handler.ts).
use guard_core_ts.Base.{
  ℕ, ◌+◌, ◌≡◌, ◌≢◌, ◌↔◌, refl, sym, subst, ap, ◌∙◌, String, Bool, true, false, List, [], ◌∷◌, ◌++◌,
  Option, some, length, append_assoc, append-nil, if◌then◌else◌, arith,
}
use guard_core_ts.Events.{
  EventFilter, is_event_allowed, Item, Sink, Composite, log_failure, note_failure, degraded_with,
  is_degraded, is_allowed, enrich, fan_out, pass_on, send_event, start_all, start,
}

module _ {W B R : Type 0} (call : Sink W B R → W → Bool × W) where
  -- The world after each sink was called, in order, whatever the calls before it did.
  abbrev pub after_all : List (Sink W B R) → W → W
  after_all [] w = w
  after_all (sink ∷ sinks) w = after_all sinks (call sink w).1

  -- The names of the sinks that threw in this.
  abbrev pub failures : List (Sink W B R) → W → List String
  failures [] w = []
  failures (sink ∷ sinks) w =
      let rest = failures sinks (call sink w).1 in
      if (call sink w).0 then rest else sink.name ∷ rest

  log_failure-same :
      (r : Bool × W) (s : Composite W)
      → log_failure r s ≡ record s { world = r.1; errors = if r.0 then s.errors else s.errors + 1 }
  unfolding log_failure
  log_failure-same (true, w) s = refl
  log_failure-same (false, w) s = refl

  pub fan_out_lem :
      (sinks : List (Sink W B R)) (s : Composite W)
      → fan_out call sinks s ≡ record s {
        world = after_all sinks s.world;
        errors = s.errors + length (failures sinks s.world);
      }
  unfolding fan_out
  fan_out_lem [] s = ap (λ (n : ℕ). record s { errors = n }) (omega arith)
  fan_out_lem (sink ∷ sinks) s =
      let r = call sink s.world in
      ap (fan_out call sinks) (log_failure-same r s)
      ∙ fan_out_lem sinks
          (record s { world = r.1; errors = if r.0 then s.errors else s.errors + 1 })
      ∙ ap (λ (n : ℕ). record s { world = after_all sinks r.1; errors = n }) (ground arith)

note_failure-same :
    {W : Type 0} (name : String) (r : Bool × W) (s : Composite W)
    → note_failure name r s ≡ record s {
      world = r.1;
      failed_handlers = if r.0 then s.failed_handlers else s.failed_handlers ++ name ∷ [];
      errors = if r.0 then s.errors else s.errors + 1;
    }
unfolding note_failure
note_failure-same name (true, w) s = refl
note_failure-same name (false, w) s = refl

add_names :
    (b : Bool) (names : List String) (name : String) (rest : List String)
    → (if b then names else names ++ name ∷ []) ++ rest ≡ names ++ (if b then rest else name ∷ rest)
add_names true names name rest = refl
add_names false names name rest = append_assoc names (name ∷ []) rest

degraded_names : (names : List String) → (degraded_with true names ≡ true) ↔ (names ≢ [])
unfolding degraded_with
degraded_names [] = ((λ e. ground arith), (λ ne. absurd (ne refl)))
degraded_names (n ∷ ns) = ((λ e e'. ground arith), (λ ne. refl))

module _ {W B R : Type 0} where
  -- An event that the filter lets through reaches every sink once, in order, as the enricher left it,
  -- whichever of them throw: the caller sees no failure, and one error is logged for each of these.
  pub send_event-reaches_all :
      (filter : EventFilter) (enricher : Option (Item B → W → Option (Item B) × W))
      (sinks : List (Sink W B R)) (e e' : Item B) (w : W) (s : Composite W)
      → is_allowed (is_event_allowed filter) e ≡ true
      → enrich enricher e s.world ≡ (some e', w)
      → send_event filter enricher sinks e s ≡ (
        true,
        record s {
          world = after_all (λ sink. sink.send_event e') sinks w;
          errors = s.errors + length (failures (λ sink. sink.send_event e') sinks w);
        },
      )
  unfolding send_event pass_on
  send_event-reaches_all filter enricher sinks e e' w s allowed enriched =
      rw (allowed, enriched)
        (ap (λ s'. (true, s'))
          (fan_out_lem (λ sink. sink.send_event e') sinks (record s { world = w })))

  start_all-names :
      (sinks : List (Sink W B R)) (s : Composite W)
      → ((start_all sinks s).failed_handlers
          ≡ s.failed_handlers ++ failures (λ sink. sink.start) sinks s.world)
        × ((start_all sinks s).world ≡ after_all (λ sink. sink.start) sinks s.world)
  unfolding start_all
  start_all-names [] s = (sym (append-nil s.failed_handlers), refl)
  start_all-names (sink ∷ sinks) s =
      let r = sink.start s.world in
      let names = if r.0 then s.failed_handlers else s.failed_handlers ++ sink.name ∷ [] in
      let noted : Composite W = record s {
        world = r.1;
        failed_handlers = names;
        errors = if r.0 then s.errors else s.errors + 1;
      } in
      let same = ap (start_all sinks) (note_failure-same sink.name r s) in
      let (ns, w) = start_all-names sinks noted in
      (
        ap (λ (c : Composite W). c.failed_handlers) same
            ∙ ns
            ∙ add_names r.0 s.failed_handlers sink.name (failures (λ sink. sink.start) sinks r.1),
        ap (λ (c : Composite W). c.world) same ∙ w,
      )

  -- A start calls every sink, whichever throw; afterwards the failed handlers are exactly those that
  -- threw in this start, in order, and the handler is degraded exactly if there is one.
  pub start-failures :
      (sinks : List (Sink W B R)) (s : Composite W)
      → ((start sinks s).failed_handlers ≡ failures (λ sink. sink.start) sinks s.world)
        × ((start sinks s).world ≡ after_all (λ sink. sink.start) sinks s.world)
        × ((is_degraded (start sinks s) ≡ true)
            ↔ (failures (λ sink. sink.start) sinks s.world ≢ []))
  unfolding start is_degraded
  start-failures sinks s =
      let cleared : Composite W = record s { failed_handlers = [] } in
      let (names, world) = start_all-names sinks cleared in
      (
        names,
        world,
        subst
            (λ ns.
              (degraded_with true ns ≡ true) ↔ (failures (λ sink. sink.start) sinks s.world ≢ []))
            (sym names) (degraded_names (failures (λ sink. sink.start) sinks s.world)),
      )
