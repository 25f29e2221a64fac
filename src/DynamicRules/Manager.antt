-- ===== src/DynamicRules/Manager.antt =====
-- packages/core/src/handlers/dynamic-rules.ts: `DynamicRuleManager`. `World` is the manager with the
-- value at the Redis key, the cache file and the events that it tried to send (a failing `sendEvent`
-- is ignored). `Env` says of one call what the time is and which stores answer. Parameters are those
-- of the snapshot, and DynamicRulesSchema, whose answer on what an agent sends stands in `Fetched`.
use guard_core_ts.Base.{
  Bool, List, Option, String, [], false, if◌then◌else◌, leb, length, ltb, none, not, some, str_eq,
  take, true, ℕ, ◌&&◌, ◌++◌, ◌||◌, ◌∷◌,
}
use guard_core_ts.DynamicRules.Snapshot.{
  Codec, Rules, dump_last_known_rules_snapshot, includes, load_last_known_rules_snapshot,
}

pub record RuleManager : Type 0 where
  pub current_rules : Option Rules
  pub update_timer : Bool
  pub last_update : ℕ
  pub agent_handler : Bool
  pub redis_handler : Bool
  pub hydrated : Bool
  pub last_skipped_expired_rule : Option (String × ℕ)

pub data RuleEvent : Type 0 where
  rules_received : String → ℕ → ℕ → RuleEvent
  emergency_lockdown : ℕ → List String → RuleEvent
  rules_updated : String → ℕ → ℕ → ℕ → Bool → RuleEvent

pub record World : Type 0 where
  pub manager : RuleManager
  pub redis : Option String
  pub file : Option String
  pub events : List RuleEvent

pub record Env : Type 0 where
  pub now : ℕ
  pub redis_up : Bool
  pub file_up : Bool
  pub cache_path : Bool
  pub enable_dynamic_rules : Bool

-- What `getDynamicRules` gives: an error, nothing, or rules, none where the schema refuses them.
pub data Fetched : Type 0 where
  fetch_failed : Fetched
  no_rules : Fetched
  raw_rules : Option Rules → Fetched

abbrev set_rules : Option Rules → World → World
set_rules rules w = record w { manager = record w.manager { current_rules = rules } }

module _ (codec : Codec) (validate : Rules → Option Rules) where
  abbrev pub time_has_passed : ℕ → Option ℕ → Bool
  time_has_passed now none = false
  time_has_passed now (some t) = leb t now

  abbrev pub time_is_ahead : ℕ → Option ℕ → Bool
  time_is_ahead now none = false
  time_is_ahead now (some t) = ltb now t

  -- `hasRuleExpired`, of `expiresAt`; no comparison holds of a date that is not one.
  abbrev pub expiry_has_passed : ℕ → Option String → Bool
  expiry_has_passed now none = false
  expiry_has_passed now (some raw) = time_has_passed now (codec.time_of raw)

  unfoldable pub has_rule_expired : ℕ → Rules → Bool
  has_rule_expired now rules = expiry_has_passed now rules.expires_at

  abbrev pub validated : Option Rules → Option Rules
  validated none = none
  validated (some loaded) = validate loaded

  -- `parseLastKnownRules`
  unfoldable pub parse_last_known_rules : String → Option Rules
  unfolding load_last_known_rules_snapshot
  parse_last_known_rules payload = validated (load_last_known_rules_snapshot codec payload)

  abbrev non_empty : Option String → Option String
  non_empty none = none
  non_empty (some raw) = if str_eq raw "" then none else some raw

  -- `readRedisPayload`
  abbrev pub read_redis_payload : Env → World → Option String
  read_redis_payload env w =
      if w.manager.redis_handler && env.redis_up then non_empty w.redis else none

  -- `readFilePayload`
  abbrev pub read_file_payload : Env → World → Option String
  read_file_payload env w = if env.cache_path && env.file_up then w.file else none

  -- A store's rules, where they are still live.
  abbrev pub live : ℕ → Option Rules → Option Rules
  live now none = none
  live now (some rules) = if has_rule_expired now rules then none else some rules

  abbrev pub from_payload : ℕ → Option String → Option Rules
  from_payload now none = none
  from_payload now (some payload) = live now (parse_last_known_rules payload)

  abbrev pub next_store : Option Rules → Option Rules → Option Rules
  next_store none next = next
  next_store (some rules) next = some rules

  -- `loadLastKnownRules`: Redis before the file.
  unfoldable pub load_last_known_rules : Env → World → Option Rules
  unfolding parse_last_known_rules has_rule_expired
  load_last_known_rules env w =
      next_store (from_payload env.now (read_redis_payload env w))
        (from_payload env.now (read_file_payload env w))

  abbrev pub persist_payload : Env → Option String → World → World
  persist_payload env none w = w
  persist_payload env (some payload) w = record w {
    redis = if w.manager.redis_handler && env.redis_up then some payload else w.redis;
    file = if env.cache_path && env.file_up then some payload else w.file;
  }

  -- `persistLastKnownRules`, with `writeLastKnownRulesFile`: a write that fails leaves the old file.
  unfoldable pub persist_last_known_rules : Env → Rules → World → World
  unfolding dump_last_known_rules_snapshot
  persist_last_known_rules env rules w =
      persist_payload env (dump_last_known_rules_snapshot codec rules) w

  abbrev pub hydrate_from : Env → Option Rules → World → World
  hydrate_from env none w = w
  hydrate_from env (some rules) w = persist_last_known_rules env rules (record w {
    manager = record w.manager { current_rules = some rules; last_update = env.now };
  })

  -- `hydrateLastKnownRules`
  unfoldable pub hydrate_last_known_rules : Env → World → World
  unfolding load_last_known_rules persist_last_known_rules
  hydrate_last_known_rules env w = hydrate_from env (load_last_known_rules env w) w

  abbrev start_update_loop : World → World
  start_update_loop w = record w { manager = record w.manager { update_timer = true } }

  unfoldable pub initialize_agent : Env → World → World
  unfolding hydrate_last_known_rules
  initialize_agent env w =
      let with_agent = record w { manager = record w.manager { agent_handler = true } } in
      let marked = record with_agent { manager = record with_agent.manager { hydrated = true } } in
      if not env.enable_dynamic_rules
      then with_agent
      else start_update_loop
          (if with_agent.manager.hydrated then with_agent else hydrate_last_known_rules env marked)

  unfoldable pub initialize_redis : World → World
  initialize_redis w = record w { manager = record w.manager { redis_handler = true } }

  -- `sendRuleEvent`
  abbrev pub send_rule_event : RuleEvent → World → World
  send_rule_event e w =
      if w.manager.agent_handler then record w { events = w.events ++ e ∷ [] } else w

  abbrev pub still_ahead : ℕ → Option String → Bool
  still_ahead now none = true
  still_ahead now (some raw) = time_is_ahead now (codec.time_of raw)

  abbrev pub unless_expired : ℕ → Option Rules → Option Rules
  unless_expired now none = none
  unless_expired now (some rules) = if still_ahead now rules.expires_at then some rules else none

  -- `checkRuleExpiry`
  unfoldable pub check_rule_expiry : Env → World → World
  check_rule_expiry env w = set_rules (unless_expired env.now w.manager.current_rules) w

  abbrev pub is_old_version : Option Rules → Rules → Bool
  is_old_version none rules = false
  is_old_version (some current) rules =
      str_eq current.rule_id rules.rule_id && leb rules.version current.version

  abbrev pub version_of : Option Rules → ℕ
  version_of none = 0
  version_of (some current) = current.version

  abbrev pub in_emergency : Option Rules → Bool
  in_emergency none = false
  in_emergency (some current) = current.emergency_mode

  abbrev pub lockdown_event : Rules → RuleEvent
  lockdown_event rules =
      emergency_lockdown (length rules.emergency_whitelist) (take 10 rules.emergency_whitelist)

  abbrev pub updated_event : Rules → RuleEvent
  updated_event rules =
      rules_updated rules.rule_id rules.version (length rules.ip_blacklist)
        (length rules.blocked_countries) rules.emergency_mode

  abbrev pub mark_applied : Env → Rules → World → World
  mark_applied env rules w = record w {
    manager = record w.manager { current_rules = some rules; last_update = env.now };
  }

  -- The emergency event fires where the rules before had no emergency.
  abbrev pub alarm : Option Rules → Rules → World → World
  alarm current rules w =
      if rules.emergency_mode && not (in_emergency current)
      then send_rule_event (lockdown_event rules) w
      else w

  -- From `sendRuleEvent('dynamic_rule_updated', ...)` to the end of `updateRules`.
  unfoldable pub apply_rules : Env → Rules → World → World
  unfolding persist_last_known_rules
  apply_rules env rules w =
      let current = w.manager.current_rules in
      let received =
        send_rule_event (rules_received rules.rule_id rules.version (version_of current)) w in
      send_rule_event (updated_event rules)
        (persist_last_known_rules env rules (alarm current rules (mark_applied env rules received)))

  -- `rejectIfAlreadyExpired`, where it rejects.
  abbrev skip_expired : Rules → World → World
  skip_expired rules w = record w {
    manager = record w.manager { last_skipped_expired_rule = some (rules.rule_id, rules.version) };
  }

  unfoldable pub accept_rules : Env → Rules → World → World
  unfolding has_rule_expired apply_rules
  accept_rules env rules w =
      if has_rule_expired env.now rules
      then skip_expired rules w
      else if is_old_version w.manager.current_rules rules
      then w
      else apply_rules env rules w

  abbrev pub on_fetched : Env → Fetched → World → World
  on_fetched env fetch_failed w = w
  on_fetched env no_rules w = w
  on_fetched env (raw_rules none) w = w
  on_fetched env (raw_rules (some rules)) w = accept_rules env rules w

  unfoldable pub update_rules : Env → Fetched → World → World
  unfolding check_rule_expiry accept_rules
  update_rules env fetched w =
      if w.manager.agent_handler then on_fetched env fetched (check_rule_expiry env w) else w

unfoldable pub stop : World → World
stop w = record w { manager = record w.manager { update_timer = false } }

-- What `matchEvent` reads of an event.
pub record Event : Type 0 where
  pub event_type : String
  pub ip_address : String
  pub country : String

-- `eventMatchesIp`; a missing value is the empty text.
abbrev event_matches_ip : Event → Rules → Bool
event_matches_ip event rules =
    not (str_eq event.ip_address "")
    && (includes rules.ip_blacklist event.ip_address
        || includes rules.ip_whitelist event.ip_address)

abbrev event_matches_country : Event → Rules → Bool
event_matches_country event rules =
    not (str_eq event.country "") && includes rules.blocked_countries event.country

abbrev pub is_empty {ℓ} : {A : Type ℓ} → List A → Bool
is_empty [] = true
is_empty (x ∷ xs) = false

abbrev pub is_some {ℓ} : {A : Type ℓ} → Option A → Bool
is_some none = false
is_some (some x) = true

abbrev event_matches_type : Event → Rules → Bool
event_matches_type event rules =
    if str_eq event.event_type "rate_limited"
    then is_some rules.global_rate_limit || not (is_empty rules.endpoint_rate_limits)
    else if str_eq event.event_type "cloud_blocked"
    then not (is_empty rules.blocked_cloud_providers)
    else if str_eq event.event_type "user_agent_blocked"
    then not (is_empty rules.blocked_user_agents)
    else false

unfoldable pub match_event : World → Event → Option (String × ℕ)
match_event w event = elim w.manager.current_rules [
  | none ↦ none
  | some rules ↦
      if event_matches_ip event rules
        || event_matches_country event rules
        || event_matches_type event rules
      then some (rules.rule_id, rules.version)
      else none
]
