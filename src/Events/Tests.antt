-- ===== src/Events/Tests.antt =====
-- Runs of core/events/composite-handler.ts, and the theorems about it at concrete inputs.
use guard_core_ts.Base.{
  ℕ, ◌≡◌, refl, String, Bool, true, false, List, [], ◌∷◌, ◌++◌, none, some, if◌then◌else◌,
}
use guard_core_ts.Events.{EventFilter, is_event_allowed, Item, Sink, Composite, enrich, send_event}
use guard_core_ts.Events.Isolation.{send_event-reaches_all}

-- Sinks that write their name into the world; a broken one throws from every call.
abbrev sink_of : String → Bool → Sink (List String) ℕ String
sink_of name works = record {
  name = name;
  send_event = λ e w. (works, w ++ name ∷ []);
  send_metric = λ e w. (works, w ++ name ∷ []);
  initialize_redis = λ w. (works, w);
  start = λ w. (works, w);
  stop = λ w. (works, w);
  flush_buffer = λ w. (works, w);
  get_dynamic_rules = λ w. (if works then some (some name) else none, w ++ name ∷ []);
  health_check = λ w. (if works then some true else none, w);
}

abbrev sinks : List (Sink (List String) ℕ String)
sinks = sink_of "otel" false ∷ sink_of "logfire" true ∷ sink_of "agent" true ∷ []

abbrev fresh : Composite (List String)
fresh = record { world = []; started = false; failed_handlers = []; errors = 0 }

abbrev ban : Item ℕ
ban = record { kind = some "ip_banned"; body = 7 }

abbrev mutes : List String → EventFilter
mutes muted = record { muted_event_types = muted; muted_metric_types = [] }

muted : (send_event (mutes ("ip_banned" ∷ [])) none sinks ban fresh).1.world ≡ []
unfolding send_event is_event_allowed
muted = refl

send_event-reaches_all_example :
    send_event (mutes []) none sinks ban fresh
    ≡ (true, record fresh { world = "otel" ∷ "logfire" ∷ "agent" ∷ []; errors = 1 })
unfolding is_event_allowed enrich
send_event-reaches_all_example =
    send_event-reaches_all (mutes []) none sinks ban ban [] fresh refl refl
