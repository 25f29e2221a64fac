-- ===== src/Behavior/Tests.antt =====
-- Runs of handlers/behavior.ts, and the theorem about it at a concrete input.
use guard_core_ts.Base.{◌≡◌, refl, true, false, [], ◌∷◌, none}
use guard_core_ts.JsMap.{get}
use guard_core_ts.Redis.{ok, absent}
use guard_core_ts.IpBan.{Bans, Services}
use guard_core_ts.Behavior.{
  Usage, Rule, throttle, get_recent_event_count, apply_action, execute_active_mode_action,
}

abbrev rule : Rule
rule = record {
  threshold = 2;
  window = 10;
  action = throttle;
  ban_duration = none;
  has_custom_action = false;
}

abbrev usage : Usage
usage = ("/a", ("x", 1000 ∷ 9000 ∷ []) ∷ []) ∷ ("/b", ("x", 9500 ∷ []) ∷ []) ∷ []

abbrev services : Services (Unit {0})
services = record {
  has_redis = false;
  handler = record {
    set_key = λ namespace key value ttl s. (ok tt, s);
    get_key = λ namespace key s. (ok absent, s);
    delete_key = λ namespace key s. (ok tt, s);
    delete_pattern = λ pattern s. (ok tt, s);
  };
  has_agent = false;
}

abbrev no_bans : Bans (Unit {0})
no_bans = record {
  banned = [];
  redis = tt;
  trace = record { stash = none; hooks = []; events = [] };
}

recent : get_recent_event_count usage "x" 3 12000 ≡ 2
unfolding get_recent_event_count get
recent = refl

throttled : apply_action services true false true rule "x" "too many" 5 (no_bans, []) ≡ (
  ok tt,
  no_bans,
  record {
    event_type = "behavioral_violation";
    ip_address = "x";
    action_taken = "throttle";
    reason = "Behavioral rule violated: too many";
  }
      ∷ [],
)
unfolding apply_action execute_active_mode_action
throttled = refl
