-- ===== src/RateLimit/Manager.antt =====
-- `RateLimitManager` of handlers/rate-limit.ts. `now` is the clock that `checkRateLimit` reads.
use guard_core_ts.Base.{
  ℕ, ◌*◌, String, Bool, true, false, List, [], Option, none, some, length, ltb, if◌then◌else◌,
  str_eq, ◌<>◌, decimal,
}
use mathlib.Core.Option
use guard_core_ts.JsMap.{JsMap, get, put}
use guard_core_ts.Activity.{HookConfig, Trace, log_activity, send_event}
use guard_core_ts.Response.{Response, set_header}
use guard_core_ts.RateLimit.Window.{slide}
use guard_core_ts.RateLimit.Redis.{RedisClient, Reply, replied, raised}

-- What the manager reads of the resolved configuration.
pub record ManagerConfig : Type 0 where
  pub passive_mode : Bool
  pub hooks : HookConfig
  pub rate_limit : ℕ
  pub rate_limit_window : ℕ

-- What does not change between calls: the configuration, whether a Redis handler is set and gives a
-- client, its key prefix, and whether an agent is set.
pub record Setup : Type 0 where
  pub config : Option ManagerConfig
  pub has_redis : Bool
  pub has_client : Bool
  pub prefix : String
  pub has_agent : Bool

pub record Manager (S : Type 0) : Type 0 where
  pub timestamps : JsMap (List ℕ)
  pub script_sha : Option String
  pub redis : S
  pub trace : Trace

abbrev pub row : JsMap (List ℕ) → String → List ℕ
row store key = Option.get_or (get store key) []

-- `getInMemoryRequestCount`
unfoldable pub in_memory_request_count : JsMap (List ℕ) → String → ℕ → ℕ → JsMap (List ℕ) × ℕ
in_memory_request_count store key now window =
    let ts = slide now window (row store key) in (put store key ts, length ts)

-- `endpointPath ? `${clientIp}:${endpointPath}` : clientIp`
unfoldable pub rate_key : String → Option String → String
rate_key client_ip none = client_ip
rate_key client_ip (some path) = if str_eq path "" then client_ip else client_ip <> ":" <> path

unfoldable pub script_reloaded : Setup → Trace → Trace
script_reloaded setup t =
    if setup.has_agent
    then send_event
        (record {
          event_type = "rate_limit_script_reloaded";
          ip_address = "system";
          action_taken = "script_reloaded";
          reason = "NOSCRIPT recovery: Lua script re-cached on Redis";
        })
        t
    else t

module _ {S : Type 0} (client : RedisClient S) (setup : Setup) where
  abbrev pub M : Type 0 → Type 0
  M A = Manager S → Reply A × Manager S

  infixl 5 ◌>>=◌ ◌>>◌
  abbrev pub ◌>>=◌ : {A B : Type 0} → M A → (A → M B) → M B
  ◌>>=◌ m f s = let (a, s') = m s in elim a [ replied x ↦ f x s' | raised e ↦ (raised e, s') ]

  abbrev pub ◌>>◌ : {A B : Type 0} → M A → M B → M B
  m >> k = m >>= λ _. k

  -- A command of the client, on the server state.
  abbrev pub send : {A : Type 0} → (S → Reply A × S) → M A
  send command s = let (answer, redis) = command s.redis in (answer, record s { redis = redis })

  -- `this.rateLimitScriptSha = sha`, and the event of a reload.
  abbrev pub reload : String → M (Unit {0})
  reload sha s =
      (replied tt, record s { script_sha = some sha; trace = script_reloaded setup s.trace })

  -- The retry after a rejection: NOSCRIPT loads the script again and evaluates it once more.
  unfoldable pub recover_script : String → ℕ → ℕ → ℕ → Reply ℕ → M ℕ
  recover_script key now window limit (replied n) s = (replied n, s)
  recover_script key now window limit (raised false) s = (raised false, s)
  recover_script key now window limit (raised true) s =
      (do sha ← send client.script_load; reload sha; send (client.evalsha sha key now window limit))
        s

  -- The commands without a cached script.
  unfoldable pub count_pipeline : String → ℕ → ℕ → M ℕ
  count_pipeline key now window = do
    send (client.zadd key now)
    send (client.zremrangebyscore key now window)
    count ← send (client.zcard key)
    send (client.expire key (window * 2))
    λ s. (replied count, s)

  -- With the digest of a cached script, which is never empty, the script is evaluated.
  unfoldable pub count_attempt : Option String → String → ℕ → ℕ → ℕ → M ℕ
  count_attempt none key now window limit s = count_pipeline key now window s
  count_attempt (some sha) key now window limit s =
      let (answer, s') = send (client.evalsha sha key now window limit) s in
      recover_script key now window limit answer s'

  -- The outer `catch`: any rejection is a warning and no count.
  unfoldable pub or_null : Reply ℕ × Manager S → Option ℕ × Manager S
  or_null (replied n, s) = (some n, s)
  or_null (raised e, s) = (none, s)

  -- `getRedisRequestCount`
  unfoldable pub redis_request_count : String → ℕ → ℕ → ℕ → Manager S → Option ℕ × Manager S
  redis_request_count key now window limit s =
      if setup.has_client
      then or_null (
          count_attempt s.script_sha (setup.prefix <> "rate_limit:rate:" <> key) now window limit s)
      else (none, s)

  abbrev pub passive_of : Option ManagerConfig → Bool
  passive_of none = false
  passive_of (some c) = c.passive_mode

  abbrev pub hooks_of : Option ManagerConfig → HookConfig
  hooks_of none = record { has_on_block = false; muted_check_logs = [] }
  hooks_of (some c) = c.hooks

  abbrev pub window_of : Option ManagerConfig → ℕ
  window_of none = 60
  window_of (some c) = c.rate_limit_window

  -- `sendRateLimitEvent`
  unfoldable pub rate_limit_event : String → ℕ → Trace → Trace
  rate_limit_event client_ip count t =
      if setup.has_agent
      then send_event
          (record {
            event_type = "rate_limited";
            ip_address = client_ip;
            action_taken = "request_blocked";
            reason =
                "Rate limit exceeded: "
                <> decimal count
                <> " requests in "
                <> decimal (window_of setup.config)
                <> "s window";
          })
          t
      else t

  -- `handleRateLimitExceeded`
  unfoldable pub rate_limit_exceeded :
      (ℕ → String → Response) → String → ℕ → ℕ → Manager S → Response × Manager S
  rate_limit_exceeded create client_ip count window s = (
    set_header "Retry-After" (decimal window) (create 429 "Too many requests"),
    record s {
      trace = rate_limit_event client_ip count (
          log_activity (hooks_of setup.config) (passive_of setup.config) "rate_limit"
            ("Rate limit exceeded for IP: "
              <> client_ip
              <> " ("
              <> decimal count
              <> " requests in "
              <> decimal window
              <> "s window)")
            "" s.trace);
    },
  )

  -- The comparison at the end of `checkRateLimit`.
  unfoldable pub verdict :
      (ℕ → String → Response) → String → ℕ → ℕ → ℕ → Manager S → Option Response × Manager S
  verdict create client_ip limit window count s =
      if ltb limit count
      then (let (r, s') = rate_limit_exceeded create client_ip count window s in (some r, s'))
      else (none, s)

  -- A count from Redis, or else the in-memory window.
  unfoldable pub count_or_memory : String → ℕ → ℕ → Option ℕ × Manager S → ℕ × Manager S
  count_or_memory key now window (some n, s) = (n, s)
  count_or_memory key now window (none, s) =
      let (store, n) = in_memory_request_count s.timestamps key now window in
      (n, record s { timestamps = store })

  -- Redis is asked first, where a handler is set.
  unfoldable pub ask_redis : String → ℕ → ℕ → ℕ → Manager S → Option ℕ × Manager S
  ask_redis key now window limit s =
      if setup.has_redis then redis_request_count key now window limit s else (none, s)

  -- `checkRateLimit`
  unfoldable pub check_rate_limit :
      (ℕ → String → Response)
      → String
      → Option String
      → ℕ
      → ℕ
      → ℕ
      → Manager S
      → Option Response × Manager S
  check_rate_limit create client_ip endpoint limit window now s =
      let key = rate_key client_ip endpoint in
      let (count, s') = count_or_memory key now window (ask_redis key now window limit s) in
      verdict create client_ip limit window count s'

  -- `reset`
  unfoldable pub reset : Manager S → Manager S
  reset s = record s {
    timestamps = [];
    redis = if setup.has_redis then client.delete_pattern "rate_limit:rate:*" s.redis else s.redis;
  }
