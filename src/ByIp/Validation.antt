-- ===== src/ByIp/Validation.antt =====
-- Rejected input and a failing Redis: what `checkRateLimitByIp` does not record
-- (handlers/rate-limit-by-ip.ts).
use guard_core_ts.Base.{
  ℕ, ◌≡◌, ◌≢◌, ◌↔◌, ◌⊎◌, String, Bool, true, false, if◌then◌else◌, arith, ◌&&◌, ◌<>◌,
}
use guard_core_ts.RateLimit.Redis.{RedisClient, Reply, replied, raised}
use guard_core_ts.ByIp.{
  Stores, ByIpConfig, Answer, type_error, redis_unavailable, has_colon, window_key, redis_commands,
  on_reply, by_memory, conclude, check_rate_limit_by_ip,
}

module _ (hash : String → String) {R : Type 0} (client : RedisClient R) (has_client : Bool)
    (prefix : String) (is_valid_ip : String → Bool) (c : ByIpConfig) (has_handler : Bool) where
  abbrev check : String → String → ℕ → Stores → R → Answer × Stores × R
  check ip path now s r =
      check_rate_limit_by_ip hash client has_client prefix is_valid_ip c has_handler ip path now s r

  conclude-ne-type_error :
      (ip : String) (now : ℕ) (b : Bool) (s : Stores) → (conclude hash c ip now b s).0 ≢ type_error
  unfolding conclude
  conclude-ne-type_error ip now true s = cc
  conclude-ne-type_error ip now false s = cc

  by_memory-ne-type_error :
      (ip path : String) (now : ℕ) (s : Stores) → (by_memory hash c ip path now s).0 ≢ type_error
  unfolding by_memory
  by_memory-ne-type_error ip path now s = conclude-ne-type_error ip now _ _

  on_reply-ne-type_error :
      (ip path : String) (now : ℕ) (s : Stores) (a : Reply ℕ × R)
      → (on_reply hash client has_client prefix c ip path now s a).0 ≢ type_error
  unfolding on_reply
  on_reply-ne-type_error ip path now s (replied n, r) = conclude-ne-type_error ip now _ s
  on_reply-ne-type_error ip path now s (raised e, r) =
      ground (arith, by_memory-ne-type_error ip path now s)

  -- The call throws a TypeError exactly for an address that does not parse or a path with a colon.
  pub type_error_iff :
      (ip path : String) (now : ℕ) (s : Stores) (r : R)
      → ((check ip path now s r).0 ≡ type_error)
        ↔ ((is_valid_ip ip ≡ false) ⊎ (has_colon path ≡ true))
  unfolding check_rate_limit_by_ip
  type_error_iff ip path now s r = ground (
    arith,
    by_memory-ne-type_error ip path now s,
    on_reply-ne-type_error ip path now s (
        redis_commands hash client has_client prefix
          (prefix <> "rate_limit:rate:" <> window_key hash ip path) now c.rate_limit_window r),
  )

  -- And then nothing else happens: no hit, no violation, no Redis command.
  pub type_error_keeps :
      (ip path : String) (now : ℕ) (s : Stores) (r : R)
      → (is_valid_ip ip ≡ false) ⊎ (has_colon path ≡ true)
      → check ip path now s r ≡ (type_error, s, r)
  unfolding check_rate_limit_by_ip
  type_error_keeps ip path now s r h = ground arith

  -- With rate limiting on and Redis in use, a rejected Redis command decides by the policy: with
  -- redisFailOpen the in-memory window judges the call, and without it the call throws, with no hit
  -- recorded in memory and no violation counted.
  pub redis_failure :
      (ip path : String) (now : ℕ) (s : Stores) (r r' : R) (e : Bool)
      → is_valid_ip ip ≡ true
      → has_colon path ≡ false
      → c.enable_rate_limiting ≡ true
      → c.enable_redis && has_handler && has_client ≡ true
      → redis_commands hash client has_client prefix
          (prefix <> "rate_limit:rate:" <> window_key hash ip path)
          now
          c.rate_limit_window
          r
        ≡ (raised e, r')
      → check ip path now s r ≡ (
          if c.redis_fail_open
          then (let (a, s') = by_memory hash c ip path now s in (a, s', r'))
          else (redis_unavailable, s, r'))
  unfolding check_rate_limit_by_ip on_reply
  redis_failure ip path now s r r' e valid plain on used failed =
      simp (valid, plain, on, used, failed)
