-- ===== src/RateLimitCheck/Passive.antt =====
-- Passive mode of the rate-limit check (core/checks/implementations/rate-limit.ts): it watches only.
use guard_core_ts.Base.{
  ℕ, ◌≡◌, refl, ◌∙◌, String, true, Option, none, some, arith, Option-cases, inl, inr,
}
use guard_core_ts.Response.{Response}
use guard_core_ts.Pipeline.{Outcome, pass, respond, threw}
use guard_core_ts.RateLimitCheck.{
  Engine, Context, Request, ◌then_tier◌, on_answer, apply_rate_limit_check, check,
}
use guard_core_ts.RateLimitCheck.Tiers.{check-Holds, no_host-Holds}

module _ {S B : Type 0} where
  -- The check let the request through, and no violation and no ban was recorded.
  abbrev pub Watches : Engine S B → Outcome × Engine S B → Type 0
  Watches e r = (r.0 ≡ pass) × (r.1.counts ≡ e.counts) × (r.1.bans ≡ e.bans)

  then_tier-Watches :
      (e : Engine S B) (r : Outcome × Engine S B) (k : Engine S B → Outcome × Engine S B)
      → Watches e r
      → ((e' : Engine S B) → Watches e' (k e'))
      → Watches e (r then_tier k)
  then_tier-Watches e (pass, e') k (h, i, j) w = let (p, q, b) = w e' in (p, q ∙ i, b ∙ j)
  then_tier-Watches e (respond r, e') k (h, i, j) w = cc
  then_tier-Watches e (threw x, e') k (h, i, j) w = cc

module _ {S B : Type 0} (c : Context S B) (passive : c.config.passive_mode ≡ true) where
  answer-Watches :
      (ip event_type reason : String) (now : ℕ) (answer : Option Response) (e : Engine S B)
      → Watches e (on_answer c ip event_type reason now answer e)
  unfolding on_answer
  answer-Watches ip event_type reason now none e = (refl, refl, refl)
  answer-Watches ip event_type reason now (some r) e = rw passive (ground arith)

  apply-Watches :
      (ip : String) (limit window : ℕ) (event_type reason : String) (endpoint : Option String)
      (now : ℕ) (e : Engine S B)
      → Watches e (apply_rate_limit_check c ip limit window event_type reason endpoint now e)
  unfolding apply_rate_limit_check
  apply-Watches ip limit window event_type reason endpoint now e =
      answer-Watches ip event_type reason now _ _

  -- In passive mode the check lets every request through, whatever the tiers find, and records
  -- neither a violation nor a ban.
  pub check-Watches :
      (request : Request) (now : ℕ) (e : Engine S B) → Watches e (check c request now e)
  check-Watches request now e = elim (Option-cases request.client_host) [
    | inl n ↦
        no_host-Holds c "" Watches (λ e'. (refl, refl, refl)) then_tier-Watches (apply-Watches "")
          request now e n
    | inr (ip, n) ↦
        check-Holds c ip Watches (λ e'. (refl, refl, refl)) then_tier-Watches (apply-Watches ip)
          request now e n
  ]
