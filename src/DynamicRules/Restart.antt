-- ===== src/DynamicRules/Restart.antt =====
-- packages/core/src/handlers/dynamic-rules.ts and models/dynamic-rule-snapshot.ts: rules that were
-- persisted are those that the next start of the program hydrates.
use guard_core_ts.Base.{
  Bool, List, Option, String, [], ap, arith, false, inl, inr, none, refl, some, str_eq, subst, sym,
  true, ℕ, ◌&&◌, ◌∙◌, ◌≡◌, ◌⊎◌,
}
use guard_core_ts.DynamicRules.Snapshot.{
  Codec, Envelope, Rules, dump_last_known_rules_snapshot, dump_with, envelope_of, load_envelope,
  load_last_known_rules_snapshot, normalize_expiry, normalize_timestamp, set_of,
}
use guard_core_ts.DynamicRules.Manager.{
  Env, World, from_payload, has_rule_expired, hydrate_from, hydrate_last_known_rules,
  initialize_agent, live, load_last_known_rules, next_store, parse_last_known_rules,
  persist_last_known_rules, persist_payload, read_file_payload, read_redis_payload, validated,
}
use guard_core_ts.DynamicRules.Updates.{persist-rules_of, rules_of}

-- JSON reads back an envelope that it printed, and did not print it as the empty text.
pub record IsJson (codec : Codec) (envelope : Envelope) : Type 0 where
  pub reads : codec.parse (codec.stringify envelope) ≡ some envelope
  pub prints : str_eq (codec.stringify envelope) "" ≡ false

module _ (codec : Codec) (validate : Rules → Option Rules) where
  abbrev normal : Rules → String → Option String → Rules
  normal rules timestamp expires_at = record rules {
    timestamp = timestamp;
    expires_at = expires_at;
  }

  -- What is dumped is loaded, with the times in their normal form.
  load-dump :
      (rules : Rules) (timestamp : String) (expires_at : Option String)
      → IsJson codec (envelope_of codec rules timestamp expires_at)
      → normalize_timestamp codec rules.timestamp ≡ some timestamp
      → normalize_expiry codec rules.expires_at ≡ some expires_at
      → set_of rules.blocked_cloud_providers ≡ rules.blocked_cloud_providers
      → (payload : String) × (dump_last_known_rules_snapshot codec rules ≡ some payload)
        × (str_eq payload "" ≡ false)
        × (load_last_known_rules_snapshot codec payload ≡ some (normal rules timestamp expires_at))
  unfolding dump_last_known_rules_snapshot load_last_known_rules_snapshot
  load-dump rules timestamp expires_at json ht he hs =
      let envelope : Envelope = envelope_of codec rules timestamp expires_at in
      (
        codec.stringify envelope,
        ap
              (λ (t : Option String).
                dump_with codec rules t (normalize_expiry codec rules.expires_at))
              ht
            ∙ ap (dump_with codec rules (some timestamp)) he,
        json.prints,
        ap (load_envelope codec) json.reads
            ∙ ap
                (λ (providers : List String). some (record (normal rules timestamp expires_at) {
                  blocked_cloud_providers = providers;
                }))
                hs,
      )

  -- The manager of a program that starts anew, over the stores that it finds.
  abbrev pub boot : Bool → World → World
  boot redis_handler w = record {
    manager = record {
      current_rules = none;
      update_timer = false;
      last_update = 0;
      agent_handler = false;
      redis_handler = redis_handler;
      hydrated = false;
      last_skipped_expired_rule = none;
    };
    redis = w.redis;
    file = w.file;
    events = [];
  }

  initialize_agent-rules_of :
      (env : Env) (w : World) (rules : Rules)
      → env.enable_dynamic_rules ≡ true
      → w.manager.hydrated ≡ false
      → load_last_known_rules codec validate env w ≡ some rules
      → rules_of (initialize_agent codec validate env w) ≡ some rules
  unfolding initialize_agent hydrate_last_known_rules persist_last_known_rules load_last_known_rules
  initialize_agent-rules_of env w rules on fresh e =
      let marked : World = record w {
        manager = record w.manager { agent_handler = true; hydrated = true };
      } in
      let hydrated : rules_of (hydrate_last_known_rules codec validate env marked) ≡ some rules =
        ap (λ (o : Option Rules). rules_of (hydrate_from codec validate env o marked)) e
        ∙ persist-rules_of codec validate env (dump_last_known_rules_snapshot codec rules) _ in
      simp (on, fresh, hydrated)

  from_payload-live :
      (now : ℕ) (payload : String) (rules : Rules)
      → load_last_known_rules_snapshot codec payload ≡ some rules
      → validate rules ≡ some rules
      → has_rule_expired codec validate now rules ≡ false
      → from_payload codec validate now (some payload) ≡ some rules
  unfolding parse_last_known_rules
  from_payload-live now payload rules l v fresh =
      ap (λ (o : Option Rules). live codec validate now (validated codec validate o)) l
      ∙ ap (live codec validate now) v
      ∙ rw fresh refl

  -- The store that took the snapshot, at `env`, answers at `env'`: Redis, or, without Redis, the file.
  abbrev IsKept : Env → Env → Bool → World → Type 0
  IsKept env env' redis_handler w =
      (redis_handler ≡ true)
        × ((w.manager.redis_handler && env.redis_up) ≡ true)
        × (env'.redis_up ≡ true)
      ⊎ (redis_handler ≡ false)
        × ((env.cache_path && env.file_up) ≡ true)
        × ((env'.cache_path && env'.file_up) ≡ true)

  read_redis-kept :
      (env env' : Env) (w : World) (payload : String)
      → str_eq payload "" ≡ false
      → (w.manager.redis_handler && env.redis_up) ≡ true
      → env'.redis_up ≡ true
      → read_redis_payload codec validate env'
          (boot true (persist_payload codec validate env (some payload) w))
        ≡ some payload
  read_redis-kept env env' w payload ne took up = simp (up, took, ne)

  read_file-kept :
      (env env' : Env) (w : World) (payload : String)
      → (env.cache_path && env.file_up) ≡ true
      → (env'.cache_path && env'.file_up) ≡ true
      → read_file_payload codec validate env'
          (boot false (persist_payload codec validate env (some payload) w))
        ≡ some payload
  read_file-kept env env' w payload took up = simp (up, took)

  load_last_known-kept :
      (env env' : Env) (redis_handler : Bool) (w : World) (payload : String) (rules : Rules)
      → str_eq payload "" ≡ false
      → from_payload codec validate env'.now (some payload) ≡ some rules
      → IsKept env env' redis_handler w
      → load_last_known_rules codec validate env'
          (boot redis_handler (persist_payload codec validate env (some payload) w))
        ≡ some rules
  unfolding load_last_known_rules
  load_last_known-kept env env' true w payload rules ne e (inl (b, took, up)) =
      let after : World = boot true (persist_payload codec validate env (some payload) w) in
      let next : Option Rules =
        from_payload codec validate env'.now (read_file_payload codec validate env' after) in
      ap
        (λ (o : Option String).
          next_store codec validate (from_payload codec validate env'.now o) next)
        (read_redis-kept env env' w payload ne took up)
      ∙ ap (λ (o : Option Rules). next_store codec validate o next) e
  load_last_known-kept env env' false w payload rules ne e (inr (b, took, up)) =
      ap (from_payload codec validate env'.now) (read_file-kept env env' w payload took up) ∙ e
  load_last_known-kept env env' true w payload rules ne e (inr (b, took, up)) = ground arith
  load_last_known-kept env env' false w payload rules ne e (inl (b, took, up)) = ground arith

  -- Rules that were persisted are, in the normal form of their times, the active rules of a program
  -- that starts anew with dynamic rules enabled: where the store that took the snapshot answers
  -- (Redis, or the file of a program without Redis), JSON reads what it printed, the times are dates,
  -- no cloud provider stands twice, the schema accepts the rules as they are and they have not
  -- expired.
  pub persist-initialize_agent :
      (env env' : Env) (redis_handler : Bool) (w : World) (rules : Rules) (timestamp : String)
      (expires_at : Option String)
      → IsJson codec (envelope_of codec rules timestamp expires_at)
      → normalize_timestamp codec rules.timestamp ≡ some timestamp
      → normalize_expiry codec rules.expires_at ≡ some expires_at
      → set_of rules.blocked_cloud_providers ≡ rules.blocked_cloud_providers
      → validate (normal rules timestamp expires_at) ≡ some (normal rules timestamp expires_at)
      → has_rule_expired codec validate env'.now (normal rules timestamp expires_at) ≡ false
      → env'.enable_dynamic_rules ≡ true
      → IsKept env env' redis_handler w
      → rules_of (
          initialize_agent codec validate env'
            (boot redis_handler (persist_last_known_rules codec validate env rules w)))
        ≡ some (normal rules timestamp expires_at)
  unfolding persist_last_known_rules
  persist-initialize_agent env env' redis_handler w rules timestamp expires_at json ht he hs v fresh
        on k =
      let (payload, d, ne, l) = load-dump rules timestamp expires_at json ht he hs in
      let r : Rules = normal rules timestamp expires_at in
      let e = from_payload-live env'.now payload r l v fresh in
      let P : Option String → Type 0 = λ (o : Option String).
        rules_of (
          initialize_agent codec validate env'
            (boot redis_handler (persist_payload codec validate env o w)))
        ≡ some r in
      subst P (sym d) (
        initialize_agent-rules_of env' _ r on refl
          (load_last_known-kept env env' redis_handler w payload r ne e k))
