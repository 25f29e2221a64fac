-- ===== src/RateLimitCheck/Refusal.antt =====
-- What a refusal of the rate-limit check records (core/checks/implementations/rate-limit.ts).
use guard_core_ts.Base.{
  ℕ, ◌+◌, ◌≡◌, ◌∙◌, ap, String, Bool, true, [], ◌∷◌, Option, none, some, arith, if_both,
}
use guard_core_ts.Response.{Response}
use guard_core_ts.Redis.{Result, ok, redis_error}
use guard_core_ts.IpBan.{Bans}
use guard_core_ts.Pipeline.{Outcome, pass, respond, threw}
use guard_core_ts.Violations.{Counts, total_suspicious_count}
use guard_core_ts.Violations.Counts.{increment-total}
use guard_core_ts.RateLimitCheck.{
  Engine, Context, Request, ◌then_tier◌, on_answer, apply_rate_limit_check, check,
  record_rate_limit_auto_ban, after_ban, send_tier_event,
}
use guard_core_ts.RateLimitCheck.Tiers.{check-Holds}

-- A request that is let through is no violation; any other is one.
abbrev pub violations : Outcome → ℕ
violations pass = 0
violations (respond r) = 1
violations (threw x) = 1

module _ {S B : Type 0} (ip : String) where
  -- The total of the address grew by the violations of the outcome.
  abbrev pub Counted : Engine S B → Outcome × Engine S B → Type 0
  Counted e r =
      total_suspicious_count r.1.counts ip ≡ total_suspicious_count e.counts ip + violations r.0

  then_tier-Counted :
      (e : Engine S B) (r : Outcome × Engine S B) (k : Engine S B → Outcome × Engine S B)
      → Counted e r
      → ((e' : Engine S B) → Counted e' (k e'))
      → Counted e (r then_tier k)
  then_tier-Counted e (pass, e') k h w = omega (arith, h, w e')
  then_tier-Counted e (respond r, e') k h w = h
  then_tier-Counted e (threw x, e') k h w = h

module _ {S B : Type 0} (c : Context S B) (ip : String)
    (on : c.config.enable_rate_limit_auto_ban ≡ true) where
  after_ban-Counted :
      (m : Counts) (r : Result Bool × Bans B) (e : Engine S B) (response : Response)
      → total_suspicious_count m ip ≡ total_suspicious_count e.counts ip + 1
      → Counted ip e (after_ban c m r e then_tier λ e'. (respond response, e'))
  after_ban-Counted m (ok b, s) e response h = h
  after_ban-Counted m (redis_error, s) e response h = h

  event-counts :
      (event_type reason : String) (e : Engine S B)
      → (send_tier_event c ip event_type reason e).counts ≡ e.counts
  event-counts event_type reason e = ground arith

  recorded-Counted :
      (now : ℕ) (e : Engine S B) (r : Response)
      → Counted ip e (record_rate_limit_auto_ban c ip now e then_tier λ e'. (respond r, e'))
  unfolding record_rate_limit_auto_ban
  recorded-Counted now e r =
      rw on (after_ban-Counted _ _ e r (increment-total e.counts ip ("rate_limit" ∷ [])))

  -- What is counted from the state after an event is counted from the state before it.
  event-Counted :
      (event_type reason : String) (e : Engine S B) (r : Outcome × Engine S B)
      → Counted ip (send_tier_event c ip event_type reason e) r
      → Counted ip e r
  event-Counted event_type reason e r h =
      h ∙ ap (λ m. total_suspicious_count m ip + violations r.0) (event-counts event_type reason e)

  answer-Counted :
      (event_type reason : String) (now : ℕ) (answer : Option Response) (e : Engine S B)
      → Counted ip e (on_answer c ip event_type reason now answer e)
  unfolding on_answer
  answer-Counted event_type reason now none e = omega arith
  answer-Counted event_type reason now (some r) e =
      event-Counted event_type reason e (on_answer c ip event_type reason now (some r) e) (
        if_both (Counted ip (send_tier_event c ip event_type reason e)) c.config.passive_mode
          (omega arith) (recorded-Counted now (send_tier_event c ip event_type reason e) r))

  apply-Counted :
      (limit window : ℕ) (event_type reason : String) (endpoint : Option String) (now : ℕ)
      (e : Engine S B)
      → Counted ip e (apply_rate_limit_check c ip limit window event_type reason endpoint now e)
  unfolding apply_rate_limit_check
  apply-Counted limit window event_type reason endpoint now e =
      answer-Counted event_type reason now _ _

  -- With the auto-ban on, a request of an address is counted as one violation if a tier refuses it,
  -- also where the ban that follows throws, and as none if it is let through, whatever tiers it went
  -- through.
  pub check-Counted :
      (request : Request) (now : ℕ) (e : Engine S B)
      → request.client_host ≡ some ip
      → Counted ip e (check c request now e)
  check-Counted request now e host =
      check-Holds c ip (Counted ip) (λ e'. omega arith) (then_tier-Counted ip) apply-Counted request
        now e host
