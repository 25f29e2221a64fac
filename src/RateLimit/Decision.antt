-- ===== src/RateLimit/Decision.antt =====
-- `checkRateLimit` (handlers/rate-limit.ts): what it leaves of other keys without Redis, and what a
-- refused request gets.
use guard_core_ts.Base.{
  ℕ, ◌≡◌, ◌≢◌, ap, ◌∙◌, String, false, Option, none, some, arith, decimal, str_eq,
}
use guard_core_ts.Activity.{log_activity, send_event}
use guard_core_ts.Response.{Response, set_header}
use guard_core_ts.RateLimit.Redis.{RedisClient}
use guard_core_ts.RateLimit.Manager.{
  Setup, Manager, in_memory_request_count, rate_key, check_rate_limit, rate_limit_exceeded, row,
  passive_of, rate_limit_event, count_or_memory, verdict, ask_redis,
}
use guard_core_ts.RateLimit.History.{row-count}

module _ {S : Type 0} (client : RedisClient S) (setup : Setup) where
  pub verdict-timestamps :
      (create : ℕ → String → Response) (ip : String) (limit window count : ℕ) (s : Manager S)
      → (verdict client setup create ip limit window count s).1.timestamps ≡ s.timestamps
  unfolding verdict rate_limit_exceeded
  verdict-timestamps create ip limit window count s = ground arith

  verdict-refused :
      (create : ℕ → String → Response) (ip : String) (limit window count : ℕ) (s : Manager S)
      (r : Response)
      → passive_of client setup setup.config ≡ false
      → (verdict client setup create ip limit window count s).0 ≡ some r
      → (r ≡ set_header "Retry-After" (decimal window) (create 429 "Too many requests"))
        × ((verdict client setup create ip limit window count s).1.trace.stash ≢ none)
  unfolding verdict rate_limit_exceeded log_activity rate_limit_event send_event
  verdict-refused create ip limit window count s r active e = ground arith

module _ {S : Type 0} (client : RedisClient S) (setup : Setup)
    (local : setup.has_redis ≡ false) where
  ask_redis-local :
      (key : String) (now window limit : ℕ) (s : Manager S)
      → ask_redis client setup key now window limit s ≡ (none, s)
  unfolding ask_redis
  ask_redis-local key now window limit s = rw local

  count-local :
      (key : String) (now window limit : ℕ) (s : Manager S)
      → count_or_memory client setup key now window (ask_redis client setup key now window limit s)
        ≡ (let (store, n) = in_memory_request_count s.timestamps key now window in
            (n, record s { timestamps = store }))
  unfolding count_or_memory
  count-local key now window limit s = rw (ask_redis-local key now window limit s, count_or_memory)

  -- With no Redis handler a call leaves the timestamps of every other key as they were.
  pub check_rate_limit-other :
      (create : ℕ → String → Response) (ip : String) (endpoint : Option String)
      (limit window now : ℕ) (s : Manager S) (j : String)
      → str_eq (rate_key ip endpoint) j ≡ false
      → row (check_rate_limit client setup create ip endpoint limit window now s).1.timestamps j
        ≡ row s.timestamps j
  unfolding check_rate_limit
  check_rate_limit-other create ip endpoint limit window now s j ne =
      ap (λ m. row m j) (verdict-timestamps client setup create ip limit window _ _)
      ∙ ap (λ c. row c.1.timestamps j) (count-local (rate_key ip endpoint) now window limit s)
      ∙ row-count s.timestamps (rate_key ip endpoint) j now window
      ∙ rw ne

module _ {S : Type 0} (client : RedisClient S) (setup : Setup) where
  -- Whatever decides, a refusal is the 429 of the response factory with the window of the tripped
  -- tier in Retry-After, and outside passive mode the reason is stashed for the block hook.
  pub refused_response :
      (create : ℕ → String → Response) (ip : String) (endpoint : Option String)
      (limit window now : ℕ) (s : Manager S) (r : Response)
      → passive_of client setup setup.config ≡ false
      → (check_rate_limit client setup create ip endpoint limit window now s).0 ≡ some r
      → (r ≡ set_header "Retry-After" (decimal window) (create 429 "Too many requests"))
        × ((check_rate_limit client setup create ip endpoint limit window now s).1.trace.stash
            ≢ none)
  unfolding check_rate_limit
  refused_response create ip endpoint limit window now s r active e =
      verdict-refused client setup create ip limit window _ _ r active e
