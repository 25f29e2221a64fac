-- ===== src/RateLimit/Fallback.antt =====
-- What a failing Redis does to `checkRateLimit` (handlers/rate-limit.ts).
use guard_core_ts.Base.{
  ℕ, ◌≤◌, ◌≡◌, refl, ◌↔◌, ◌∙◌, ap, subst, String, true, false, Option, none, some, arith, ◌<>◌,
}
use guard_core_ts.Response.{Response}
use guard_core_ts.RateLimit.Decision.{verdict-timestamps}
use guard_core_ts.RateLimit.Redis.{RedisClient, Reply, replied, raised}
use guard_core_ts.RateLimit.Manager.{
  Setup, Manager, in_memory_request_count, rate_key, check_rate_limit, redis_request_count,
  count_or_memory, verdict, ask_redis, count_attempt, recover_script, count_pipeline, or_null,
}

module _ {S : Type 0} (client : RedisClient S) (setup : Setup) where
  recover_script-timestamps :
      (key : String) (now window limit : ℕ) (answer : Reply ℕ) (s : Manager S)
      → (recover_script client setup key now window limit answer s).1.timestamps ≡ s.timestamps
  unfolding recover_script
  recover_script-timestamps key now window limit (replied n) s = refl
  recover_script-timestamps key now window limit (raised false) s = refl
  recover_script-timestamps key now window limit (raised true) s = ground arith

  count_pipeline-timestamps :
      (key : String) (now window : ℕ) (s : Manager S)
      → (count_pipeline client setup key now window s).1.timestamps ≡ s.timestamps
  unfolding count_pipeline
  count_pipeline-timestamps key now window s = ground arith

  count_attempt-timestamps :
      (sha : Option String) (key : String) (now window limit : ℕ) (s : Manager S)
      → (count_attempt client setup sha key now window limit s).1.timestamps ≡ s.timestamps
  unfolding count_attempt
  count_attempt-timestamps none key now window limit s = count_pipeline-timestamps key now window s
  count_attempt-timestamps (some sha) key now window limit s =
      recover_script-timestamps key now window limit _ _

  or_null-timestamps :
      (r : Reply ℕ × Manager S) → (or_null client setup r).1.timestamps ≡ r.1.timestamps
  unfolding or_null
  or_null-timestamps (replied n, s) = refl
  or_null-timestamps (raised e, s) = refl

  pub ask_redis-timestamps :
      (key : String) (now window limit : ℕ) (s : Manager S)
      → (ask_redis client setup key now window limit s).1.timestamps ≡ s.timestamps
  unfolding ask_redis redis_request_count
  ask_redis-timestamps key now window limit s = ground (
    arith,
    or_null-timestamps (
        count_attempt client setup s.script_sha (setup.prefix <> "rate_limit:rate:" <> key) now
          window limit s),
    count_attempt-timestamps s.script_sha (setup.prefix <> "rate_limit:rate:" <> key) now window
        limit s,
  )

  count-null :
      (key : String) (now window : ℕ) (r : Option ℕ × Manager S)
      → r.0 ≡ none
      → (count_or_memory client setup key now window r).0
        ≡ (in_memory_request_count r.1.timestamps key now window).1
  unfolding count_or_memory
  count-null key now window (none, s) e = refl
  count-null key now window (some n, s) e = cc

  count-some :
      (key : String) (now window n : ℕ) (r : Option ℕ × Manager S)
      → r.0 ≡ some n
      → count_or_memory client setup key now window r ≡ (n, r.1)
  unfolding count_or_memory
  count-some key now window n (none, s) e = cc
  count-some key now window n (some m, s) e = ground arith

  verdict_iff :
      (create : ℕ → String → Response) (ip : String) (limit window count : ℕ) (s : Manager S)
      → ((verdict client setup create ip limit window count s).0 ≡ none) ↔ (count ≤ limit)
  unfolding verdict
  verdict_iff create ip limit window count s = ground arith

  -- When Redis gives no count, for whatever reason, the call is admitted exactly when the count
  -- of the window in memory, this call included, is within the limit.
  pub outage_iff :
      (create : ℕ → String → Response) (ip : String) (endpoint : Option String)
      (limit window now : ℕ) (s : Manager S)
      → (ask_redis client setup (rate_key ip endpoint) now window limit s).0 ≡ none
      → ((check_rate_limit client setup create ip endpoint limit window now s).0 ≡ none)
        ↔ ((in_memory_request_count s.timestamps (rate_key ip endpoint) now window).1 ≤ limit)
  unfolding check_rate_limit
  outage_iff create ip endpoint limit window now s e =
      let key = rate_key ip endpoint in
      let asked = ask_redis client setup key now window limit s in
      let counted =
        count-null key now window asked e
        ∙ ap (λ m. (in_memory_request_count m key now window).1)
            (ask_redis-timestamps key now window limit s) in
      subst
        (λ n.
          ((check_rate_limit client setup create ip endpoint limit window now s).0 ≡ none)
          ↔ (n ≤ limit))
        counted (verdict_iff create ip limit window _ _)

  -- When Redis gives a count, that count alone decides, and no in-memory timestamp changes.
  pub counted_iff :
      (create : ℕ → String → Response) (ip : String) (endpoint : Option String)
      (limit window now n : ℕ) (s : Manager S)
      → (ask_redis client setup (rate_key ip endpoint) now window limit s).0 ≡ some n
      → (((check_rate_limit client setup create ip endpoint limit window now s).0 ≡ none)
          ↔ (n ≤ limit))
        × ((check_rate_limit client setup create ip endpoint limit window now s).1.timestamps
            ≡ s.timestamps)
  unfolding check_rate_limit
  counted_iff create ip endpoint limit window now n s e =
      rw
        (count-some (rate_key ip endpoint) now window n
          (ask_redis client setup (rate_key ip endpoint) now window limit s) e)
        (
          verdict_iff create ip limit window n _,
          verdict-timestamps client setup create ip limit window n _
              ∙ ask_redis-timestamps (rate_key ip endpoint) now window limit s,
        )

  -- A NOSCRIPT rejection of the cached script loads it again and evaluates it once more: the count is
  -- that of the second evaluation, made in the state the load left, and the new digest is kept.
  pub noscript_recovery :
      (key : String) (now window limit n : ℕ) (s : Manager S) (old new : String) (r r' r'' : S)
      → setup.has_redis ≡ true
      → setup.has_client ≡ true
      → s.script_sha ≡ some old
      → client.evalsha old (setup.prefix <> "rate_limit:rate:" <> key) now window limit s.redis
        ≡ (raised true, r)
      → client.script_load r ≡ (replied new, r')
      → client.evalsha new (setup.prefix <> "rate_limit:rate:" <> key) now window limit r'
        ≡ (replied n, r'')
      → ((ask_redis client setup key now window limit s).0 ≡ some n)
        × ((ask_redis client setup key now window limit s).1.script_sha ≡ some new)
        × ((ask_redis client setup key now window limit s).1.redis ≡ r'')
  unfolding ask_redis redis_request_count count_attempt recover_script or_null
  noscript_recovery key now window limit n s old new r r' r'' hr hc hs e e' e'' = ground arith
