-- ===== src/RateLimit/Redis.antt =====
-- The Redis client that handlers/rate-limit.ts calls. It is a package outside this repository, so
-- its commands are a record over an abstract server state `S`.
use guard_core_ts.Base.{ℕ, String, Bool}

-- A command answers, or rejects; `raised true` is a rejection whose text includes 'NOSCRIPT'.
pub data Reply {ℓ} (A : Type ℓ) : Type ℓ where
  replied : A → Reply A
  raised : Bool → Reply A

-- A score is a time in milliseconds. The bound `now - window` of `zremrangebyscore` may be
-- negative, so it is passed as its two terms.
pub record RedisClient (S : Type 0) : Type 0 where
  pub script_load : S → Reply String × S
  pub evalsha : (sha key : String) (now window limit : ℕ) → S → Reply ℕ × S
  pub zadd : (key : String) (now : ℕ) → S → Reply (Unit {0}) × S
  pub zremrangebyscore : (key : String) (now window : ℕ) → S → Reply (Unit {0}) × S
  pub zcard : (key : String) → S → Reply ℕ × S
  pub expire : (key : String) (seconds : ℕ) → S → Reply (Unit {0}) × S
  -- `deletePattern` of the Redis handler around the client.
  pub delete_pattern : String → S → S
