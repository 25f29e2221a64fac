-- ===== src/Redis.antt =====
-- The Redis handler as the ban manager uses it (packages/core/src/handlers/redis.ts over the ioredis
-- package): commands over an abstract server state, which answer or throw `GuardRedisError`.
use guard_core_ts.Base.{ℕ, String}

pub data Result {ℓ} (A : Type ℓ) : Type ℓ where
  ok : A → Result A
  redis_error : Result A

-- What `getKey` of a ban finds: nothing, a text that `parseFloat` reads as a time, or another value.
pub data Stored : Type 0 where
  absent : Stored
  expiry : ℕ → Stored
  malformed : Stored

-- `setKey`, `getKey`, `delete` and `deletePattern`, each with its namespace.
pub record RedisHandler (S : Type 0) : Type 0 where
  pub set_key : (namespace key : String) (value ttl : ℕ) → S → Result (Unit {0}) × S
  pub get_key : (namespace key : String) → S → Result Stored × S
  pub delete_key : (namespace key : String) → S → Result (Unit {0}) × S
  pub delete_pattern : (pattern : String) → S → Result (Unit {0}) × S
