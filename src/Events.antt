-- ===== src/Events.antt =====
-- packages/core/src/core/events/event-filter.ts and core/events/composite-handler.ts: the filter of event
-- types, and the handler that passes events on to several sinks. The sinks and the enricher come from
-- outside; what they change is a world that they share, and each of their calls returns or throws.
pub mod Isolation
pub mod Health
pub mod Tests
use guard_core_ts.Base.{
  ℕ, ◌+◌, String, Bool, true, false, List, [], ◌∷◌, ◌++◌, Option, none, some, any, not, ◌&&◌,
  if◌then◌else◌, str_eq,
}

-- `EventFilter`
pub record EventFilter : Type 0 where
  pub muted_event_types : List String
  pub muted_metric_types : List String

-- `set.has(s)`
abbrev pub is_muted : List String → String → Bool
is_muted muted s = any (λ t. str_eq t s) muted

unfoldable pub is_event_allowed : EventFilter → String → Bool
is_event_allowed f event_type = not (is_muted f.muted_event_types event_type)

unfoldable pub is_metric_allowed : EventFilter → String → Bool
is_metric_allowed f metric_type = not (is_muted f.muted_metric_types metric_type)

-- An event or a metric: its type, if that is a text, and the rest.
pub record Item (B : Type 0) : Type 0 where
  pub kind : Option String
  pub body : B

-- The calls of a sink: `true`, or `some`, where the call returns; otherwise it throws.
pub record Sink (W B R : Type 0) : Type 0 where
  pub name : String
  pub send_event : Item B → W → Bool × W
  pub send_metric : Item B → W → Bool × W
  pub initialize_redis : W → Bool × W
  pub start : W → Bool × W
  pub stop : W → Bool × W
  pub flush_buffer : W → Bool × W
  pub get_dynamic_rules : W → Option (Option R) × W
  pub health_check : W → Option Bool × W

-- `CompositeAgentHandler`, with the number of errors logged.
pub record Composite (W : Type 0) : Type 0 where
  pub world : W
  pub started : Bool
  pub failed_handlers : List String
  pub errors : ℕ

unfoldable pub log_failure : {W : Type 0} → Bool × W → Composite W → Composite W
log_failure (true, w) s = record s { world = w }
log_failure (false, w) s = record s { world = w; errors = s.errors + 1 }

abbrev pub is_allowed : {B : Type 0} → (String → Bool) → Item B → Bool
is_allowed allowed e = elim e.kind [ none ↦ true | some k ↦ allowed k ]

-- The enricher changes the item, or throws, which the caller sees.
unfoldable pub enrich :
    {W B : Type 0} → Option (Item B → W → Option (Item B) × W) → Item B → W → Option (Item B) × W
enrich none e w = (some e, w)
enrich (some enricher) e w = enricher e w

unfoldable pub note_failure : {W : Type 0} → String → Bool × W → Composite W → Composite W
note_failure name (true, w) s = record s { world = w }
note_failure name (false, w) s = record s {
  world = w;
  failed_handlers = s.failed_handlers ++ name ∷ [];
  errors = s.errors + 1;
}

-- `isDegraded`
unfoldable pub degraded_with : Bool → List String → Bool
degraded_with started [] = false
degraded_with started (name ∷ names) = started

unfoldable pub is_degraded : {W : Type 0} → Composite W → Bool
is_degraded s = degraded_with s.started s.failed_handlers

-- `getDynamicRules`: the answer of one sink, with the rest of the loop after it.
unfoldable pub or_next :
    {W R : Type 0}
    → (Composite W → Option R × Composite W)
    → Option (Option R) × W
    → Composite W
    → Option R × Composite W
or_next rest (none, w) s = rest (record s { world = w; errors = s.errors + 1 })
or_next rest (some none, w) s = rest (record s { world = w })
or_next rest (some (some r), w) s = (some r, record s { world = w })

-- `healthCheck`: one answer, a throw counting as a failure, and the loop.
unfoldable pub note_health : {W : Type 0} → Option Bool × W → Composite W → Bool × Composite W
note_health (none, w) s = (false, record s { world = w; errors = s.errors + 1 })
note_health (some b, w) s = (b, record s { world = w })

-- `results.every(Boolean)`
unfoldable pub every : List Bool → Bool
every [] = true
every (b ∷ bs) = b && every bs

module _ {W B R : Type 0} where
  -- The loop of `sendEvent`, `sendMetric`, `initializeRedis`, `stop` and `flushBuffer`.
  unfoldable pub fan_out :
      (Sink W B R → W → Bool × W) → List (Sink W B R) → Composite W → Composite W
  fan_out call [] s = s
  fan_out call (sink ∷ sinks) s = fan_out call sinks (log_failure (call sink s.world) s)

  unfoldable pub pass_on :
      (Item B → Sink W B R → W → Bool × W)
      → List (Sink W B R)
      → Option (Item B) × W
      → Composite W
      → Bool × Composite W
  pass_on call sinks (none, w) s = (false, record s { world = w })
  pass_on call sinks (some e, w) s = (true, fan_out (call e) sinks (record s { world = w }))

  -- `sendEvent`: whether it returns, and the state.
  unfoldable pub send_event :
      EventFilter
      → Option (Item B → W → Option (Item B) × W)
      → List (Sink W B R)
      → Item B
      → Composite W
      → Bool × Composite W
  send_event filter enricher sinks e s =
      if not (is_allowed (is_event_allowed filter) e)
      then (true, s)
      else pass_on (λ e sink. sink.send_event e) sinks (enrich enricher e s.world) s

  -- `sendMetric`
  unfoldable pub send_metric :
      EventFilter
      → Option (Item B → W → Option (Item B) × W)
      → List (Sink W B R)
      → Item B
      → Composite W
      → Bool × Composite W
  send_metric filter enricher sinks e s =
      if not (is_allowed (is_metric_allowed filter) e)
      then (true, s)
      else pass_on (λ e sink. sink.send_metric e) sinks (enrich enricher e s.world) s

  unfoldable pub initialize_redis : List (Sink W B R) → Composite W → Composite W
  initialize_redis sinks s = fan_out (λ sink. sink.initialize_redis) sinks s

  unfoldable pub stop : List (Sink W B R) → Composite W → Composite W
  stop sinks s = fan_out (λ sink. sink.stop) sinks s

  unfoldable pub flush_buffer : List (Sink W B R) → Composite W → Composite W
  flush_buffer sinks s = fan_out (λ sink. sink.flush_buffer) sinks s

  unfoldable pub start_all : List (Sink W B R) → Composite W → Composite W
  start_all [] s = s
  start_all (sink ∷ sinks) s = start_all sinks (note_failure sink.name (sink.start s.world) s)

  -- `start`
  unfoldable pub start : List (Sink W B R) → Composite W → Composite W
  start sinks s =
      let s' = start_all sinks (record s { failed_handlers = [] }) in record s' { started = true }

  unfoldable pub get_dynamic_rules : List (Sink W B R) → Composite W → Option R × Composite W
  get_dynamic_rules [] s = (none, s)
  get_dynamic_rules (sink ∷ sinks) s =
      or_next (get_dynamic_rules sinks) (sink.get_dynamic_rules s.world) s

  unfoldable pub check_all : List (Sink W B R) → Composite W → List Bool × Composite W
  check_all [] s = ([], s)
  check_all (sink ∷ sinks) s =
      let (b, s') = note_health (sink.health_check s.world) s in
      let (bs, s'') = check_all sinks s' in (b ∷ bs, s'')

  unfoldable pub health_check : List (Sink W B R) → Composite W → Bool × Composite W
  health_check [] s = (true, s)
  health_check (sink ∷ sinks) s =
      let (results, s') = check_all (sink ∷ sinks) s in (every results, s')
