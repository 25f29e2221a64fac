-- ===== src/DynamicRules/Updates.antt =====
-- packages/core/src/handlers/dynamic-rules.ts: which rules are active after `updateRules`.
use guard_core_ts.Base.{
  Bool-cases, inl, inr, ◌≢◌, ◌⊎◌, ◌<◌, Option, String, ap, arith, eq_iff, false, if_both, if_cases,
  none, not, refl, some, str_eq, subst, sym, true, ℕ, ◌&&◌, ◌∙◌, ◌≡◌, ◌≤◌,
}
use guard_core_ts.DynamicRules.Snapshot.{Codec, Rules, dump_last_known_rules_snapshot}
use guard_core_ts.DynamicRules.Manager.{
  Env, Fetched, RuleEvent, World, accept_rules, alarm, apply_rules, check_rule_expiry,
  expiry_has_passed, fetch_failed, has_rule_expired, in_emergency, is_old_version, lockdown_event,
  mark_applied, no_rules, on_fetched, persist_last_known_rules, persist_payload, raw_rules,
  rules_received, send_rule_event, still_ahead, time_has_passed, time_is_ahead, unless_expired,
  update_rules, updated_event, version_of,
}

abbrev pub rules_of : World → Option Rules
rules_of w = w.manager.current_rules

module _ (codec : Codec) (validate : Rules → Option Rules) where
  abbrev pub IsAhead : ℕ → Option ℕ → Type 0
  IsAhead now none = Unit
  IsAhead now (some t) = now < t

  -- The moment that `expiresAt` names, if it is there and a date.
  abbrev pub moment_of : Option String → Option ℕ
  moment_of none = none
  moment_of (some raw) = codec.time_of raw

  -- No rules are active, or rules whose moment of expiry, if they have one, is still ahead.
  abbrev pub IsUnexpired : ℕ → Option Rules → Type 0
  IsUnexpired now none = Unit
  IsUnexpired now (some rules) = IsAhead now (moment_of rules.expires_at)

  send-rules_of :
      (e : RuleEvent) (w : World) → rules_of (send_rule_event codec validate e w) ≡ rules_of w
  send-rules_of e w =
      if_both (λ (v : World). rules_of v ≡ rules_of w) w.manager.agent_handler refl refl

  pub persist-rules_of :
      (env : Env) (payload : Option String) (w : World)
      → rules_of (persist_payload codec validate env payload w) ≡ rules_of w
  persist-rules_of env none w = refl
  persist-rules_of env (some payload) w = refl

  alarm-rules_of :
      (current : Option Rules) (rules : Rules) (w : World)
      → rules_of (alarm codec validate current rules w) ≡ rules_of w
  alarm-rules_of current rules w =
      if_both (λ (v : World). rules_of v ≡ rules_of w)
        (rules.emergency_mode && not (in_emergency codec validate current))
        (send-rules_of (lockdown_event codec validate rules) w) refl

  apply_rules-rules_of :
      (env : Env) (rules : Rules) (w : World)
      → rules_of (apply_rules codec validate env rules w) ≡ some rules
  unfolding apply_rules persist_last_known_rules
  apply_rules-rules_of env rules w =
      let current : Option Rules = w.manager.current_rules in
      let received : World =
        send_rule_event codec validate
          (rules_received rules.rule_id rules.version (version_of codec validate current)) w in
      let applied : World = mark_applied codec validate env rules received in
      let alarmed : World = alarm codec validate current rules applied in
      let payload : Option String = dump_last_known_rules_snapshot codec rules in
      send-rules_of (updated_event codec validate rules)
        (persist_payload codec validate env payload alarmed)
      ∙ persist-rules_of env payload alarmed
      ∙ alarm-rules_of current rules applied

  time_is_ahead-IsAhead :
      (now : ℕ) (at : Option ℕ) → time_is_ahead codec validate now at ≡ true → IsAhead now at
  time_is_ahead-IsAhead now none h = tt
  time_is_ahead-IsAhead now (some t) h = ground (arith, h)

  still_ahead-IsAhead :
      (now : ℕ) (raw : Option String)
      → still_ahead codec validate now raw ≡ true
      → IsAhead now (moment_of raw)
  still_ahead-IsAhead now none h = tt
  still_ahead-IsAhead now (some raw) h = time_is_ahead-IsAhead now (codec.time_of raw) h

  time_has_passed-IsAhead :
      (now : ℕ) (at : Option ℕ) → time_has_passed codec validate now at ≡ false → IsAhead now at
  time_has_passed-IsAhead now none h = tt
  time_has_passed-IsAhead now (some t) h = ground (arith, h)

  expiry_has_passed-IsAhead :
      (now : ℕ) (raw : Option String)
      → expiry_has_passed codec validate now raw ≡ false
      → IsAhead now (moment_of raw)
  expiry_has_passed-IsAhead now none h = tt
  expiry_has_passed-IsAhead now (some raw) h = time_has_passed-IsAhead now (codec.time_of raw) h

  unless_expired-IsUnexpired :
      (now : ℕ) (rules : Option Rules) → IsUnexpired now (unless_expired codec validate now rules)
  unless_expired-IsUnexpired now none = tt
  unless_expired-IsUnexpired now (some rules) =
      if_cases (IsUnexpired now) (still_ahead codec validate now rules.expires_at)
        (still_ahead-IsAhead now rules.expires_at) (λ gone. tt)

  accept_rules-IsUnexpired :
      (env : Env) (rules : Rules) (w : World)
      → IsUnexpired env.now (rules_of w)
      → IsUnexpired env.now (rules_of (accept_rules codec validate env rules w))
  unfolding accept_rules has_rule_expired
  accept_rules-IsUnexpired env rules w h =
      let P : World → Type 0 = λ (v : World). IsUnexpired env.now (rules_of v) in
      if_cases P (has_rule_expired codec validate env.now rules) (λ expired. h)
        (λ fresh. if_both P (is_old_version codec validate w.manager.current_rules rules) h (
          subst (IsUnexpired env.now) (sym (apply_rules-rules_of env rules w))
            (expiry_has_passed-IsAhead env.now rules.expires_at fresh)))

  on_fetched-IsUnexpired :
      (env : Env) (fetched : Fetched) (w : World)
      → IsUnexpired env.now (rules_of w)
      → IsUnexpired env.now (rules_of (on_fetched codec validate env fetched w))
  on_fetched-IsUnexpired env fetch_failed w h = h
  on_fetched-IsUnexpired env no_rules w h = h
  on_fetched-IsUnexpired env (raw_rules none) w h = h
  on_fetched-IsUnexpired env (raw_rules (some rules)) w h = accept_rules-IsUnexpired env rules w h

  -- With an agent, whatever it answers, the rules that are active after `updateRules` have no
  -- expiry that its time has reached: they have none, one that is no date, or a later one.
  pub update_rules-IsUnexpired :
      (env : Env) (fetched : Fetched) (w : World)
      → w.manager.agent_handler ≡ true
      → IsUnexpired env.now (rules_of (update_rules codec validate env fetched w))
  unfolding update_rules check_rule_expiry
  update_rules-IsUnexpired env fetched w agent =
      if_cases (λ (v : World). IsUnexpired env.now (rules_of v)) w.manager.agent_handler
        (λ has.
          on_fetched-IsUnexpired env fetched (check_rule_expiry codec validate env w)
            (unless_expired-IsUnexpired env.now w.manager.current_rules))
        (λ has_none. ground (arith, agent))

  -- The active rules, if any, are other rules, or no older version of these.
  abbrev pub NotOlder : Rules → Option Rules → Type 0
  NotOlder before none = Unit
  NotOlder before (some after) = (after.rule_id ≢ before.rule_id) ⊎ (before.version ≤ after.version)

  accept_rules-NotOlder :
      (env : Env) (before rules : Rules) (w : World)
      → rules_of w ≡ some before
      → NotOlder before (rules_of (accept_rules codec validate env rules w))
  unfolding accept_rules
  accept_rules-NotOlder env before rules w e =
      let P : World → Type 0 = λ (v : World). NotOlder before (rules_of v) in
      let same : NotOlder before (rules_of w) =
        subst (NotOlder before) (sym e) (inr (omega arith)) in
      if_both P (has_rule_expired codec validate env.now rules) same (
        if_cases P (is_old_version codec validate w.manager.current_rules rules) (λ old. same)
          (λ new. subst (NotOlder before) (sym (apply_rules-rules_of env rules w)) (
            let new' : is_old_version codec validate (some before) rules ≡ false =
              subst (λ (o : Option Rules). is_old_version codec validate o rules ≡ false) e new in
            elim (Bool-cases (str_eq before.rule_id rules.rule_id)) [
              | inl eq ↦ inr (ground (arith, new', eq))
              | inr ne ↦
                  inl (λ id. ground (arith, ne, (eq_iff before.rule_id rules.rule_id).1 (sym id)))
            ])))

  on_fetched-NotOlder :
      (env : Env) (fetched : Fetched) (before : Rules) (w : World)
      → rules_of w ≡ some before
      → NotOlder before (rules_of (on_fetched codec validate env fetched w))
  on_fetched-NotOlder env fetch_failed before w e =
      subst (NotOlder before) (sym e) (inr (omega arith))
  on_fetched-NotOlder env no_rules before w e = subst (NotOlder before) (sym e) (inr (omega arith))
  on_fetched-NotOlder env (raw_rules none) before w e =
      subst (NotOlder before) (sym e) (inr (omega arith))
  on_fetched-NotOlder env (raw_rules (some rules)) before w e =
      accept_rules-NotOlder env before rules w e

  -- While the active rules have not run out, what `updateRules` leaves active, whatever the agent
  -- answers, are other rules or no older version of the same ones.
  pub update_rules-NotOlder :
      (env : Env) (fetched : Fetched) (before : Rules) (w : World)
      → rules_of w ≡ some before
      → still_ahead codec validate env.now before.expires_at ≡ true
      → NotOlder before (rules_of (update_rules codec validate env fetched w))
  unfolding update_rules check_rule_expiry
  update_rules-NotOlder env fetched before w e ahead =
      let kept : unless_expired codec validate env.now (rules_of w) ≡ some before =
        ap (unless_expired codec validate env.now) e ∙ rw ahead refl in
      if_both (λ (v : World). NotOlder before (rules_of v)) w.manager.agent_handler
        (on_fetched-NotOlder env fetched before (check_rule_expiry codec validate env w) kept)
        (subst (NotOlder before) (sym e) (inr (omega arith)))
