-- ===== src/DynamicRules/Tests.antt =====
-- Concrete runs of the manager of dynamic rules, and the theorems at concrete inputs.
use guard_core_ts.Base.{
  Option, String, [], false, if◌then◌else◌, inl, none, refl, some, str_eq, true, ℕ, ◌∷◌, ◌≡◌,
}
use guard_core_ts.DynamicRules.Snapshot.{
  Codec, Envelope, Rules, cut_millis, dump_last_known_rules_snapshot, envelope_of,
  normalize_timestamp,
}
use guard_core_ts.DynamicRules.Manager.{
  Env, World, accept_rules, apply_rules, check_rule_expiry, emergency_lockdown, has_rule_expired,
  initialize_agent, match_event, no_rules, persist_last_known_rules, raw_rules, rules_received,
  rules_updated, update_rules,
}
use guard_core_ts.DynamicRules.Updates.{
  IsUnexpired, NotOlder, rules_of, update_rules-IsUnexpired, update_rules-NotOlder,
}
use guard_core_ts.DynamicRules.Restart.{IsJson, boot, persist-initialize_agent}

-- Rules of a version, and of a time at which they run out.
abbrev rules_at : ℕ → Option String → Rules
rules_at version expires_at = record {
  rule_id = "r1";
  version = version;
  timestamp = "2026-01-01T00:00:00Z";
  expires_at = expires_at;
  ttl = 300;
  ip_blacklist = "10.0.0.1" ∷ [];
  ip_whitelist = [];
  ip_ban_duration = 3600;
  blocked_countries = [];
  whitelist_countries = [];
  global_rate_limit = none;
  global_rate_window = none;
  endpoint_rate_limits = [];
  blocked_cloud_providers = "AWS" ∷ [];
  blocked_user_agents = [];
  suspicious_patterns = [];
  enable_penetration_detection = none;
  enable_ip_banning = none;
  enable_rate_limiting = none;
  emergency_mode = true;
  emergency_whitelist = [];
}

-- A codec that knows two times and one snapshot.
abbrev codec : Codec
codec = record {
  time_of = λ (text : String). if str_eq text "soon" then some 50 else some 0;
  to_iso_string = λ (t : ℕ). "2026-01-01T00:00:00.000Z";
  stringify = λ (envelope : Envelope). "snapshot";
  parse = λ (text : String). some (record {
    schema_version = 1;
    rules = record {
      fields = rules_at 3 none;
      auto_ban_threshold = none;
      auto_ban_duration = none;
      enable_rate_limit_auto_ban = none;
    };
  });
}

abbrev accepts_all : Rules → Option Rules
accepts_all rules = some rules

abbrev at : ℕ → Env
at now = record {
  now = now;
  redis_up = true;
  file_up = false;
  cache_path = true;
  enable_dynamic_rules = true;
}

abbrev running : Option Rules → World
running rules = record {
  manager = record {
    current_rules = rules;
    update_timer = true;
    last_update = 0;
    agent_handler = true;
    redis_handler = true;
    hydrated = true;
    last_skipped_expired_rule = none;
  };
  redis = none;
  file = none;
  events = [];
}

millis_are_cut : cut_millis "12:00:00.000Z" ≡ "12:00:00Z"
unfolding cut_millis
millis_are_cut = refl

first_rules_events :
    (update_rules codec accepts_all
      (at 10)
      (raw_rules (some (rules_at 3 none)))
      (running none)).events
    ≡ rules_received "r1" 3 0 ∷ emergency_lockdown 0 [] ∷ rules_updated "r1" 3 1 0 true ∷ []
unfolding update_rules check_rule_expiry accept_rules apply_rules persist_last_known_rules
    dump_last_known_rules_snapshot normalize_timestamp has_rule_expired
first_rules_events = refl

blacklist_matches :
    match_event
      (running (some (rules_at 3 none)))
      (record { event_type = "ip_blocked"; ip_address = "10.0.0.1"; country = "" })
    ≡ some ("r1", 3)
unfolding match_event
blacklist_matches = refl

update_rules-IsUnexpired_example : IsUnexpired codec accepts_all 60 (
    rules_of
      (update_rules codec accepts_all (at 60) no_rules (running (some (rules_at 3 (some "soon"))))))
update_rules-IsUnexpired_example =
    update_rules-IsUnexpired codec accepts_all (at 60) no_rules
      (running (some (rules_at 3 (some "soon")))) refl

update_rules-NotOlder_example : NotOlder codec accepts_all (rules_at 3 none) (
    rules_of (
      update_rules codec accepts_all
        (at 10)
        (raw_rules (some (rules_at 2 none)))
        (running (some (rules_at 3 none)))))
update_rules-NotOlder_example =
    update_rules-NotOlder codec accepts_all (at 10) (raw_rules (some (rules_at 2 none)))
      (rules_at 3 none) (running (some (rules_at 3 none))) refl refl

rules-IsJson : IsJson codec (envelope_of codec (rules_at 3 none) "2026-01-01T00:00:00Z" none)
rules-IsJson = record { reads = refl; prints = refl }

dates_are_normal : normalize_timestamp codec "2026-01-01T00:00:00Z" ≡ some "2026-01-01T00:00:00Z"
unfolding normalize_timestamp cut_millis
dates_are_normal = refl

never_expires : has_rule_expired codec accepts_all 90 (rules_at 3 none) ≡ false
unfolding has_rule_expired
never_expires = refl

persist-initialize_agent_example :
    rules_of (
      initialize_agent codec accepts_all (at 90) (
        boot codec accepts_all true
          (persist_last_known_rules codec accepts_all (at 10) (rules_at 3 none) (running none))))
    ≡ some (rules_at 3 none)
persist-initialize_agent_example =
    persist-initialize_agent codec accepts_all (at 10) (at 90) true (running none) (rules_at 3 none)
      "2026-01-01T00:00:00Z" none rules-IsJson dates_are_normal refl refl refl never_expires refl
      (inl (refl, refl, refl))
