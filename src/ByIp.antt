-- ===== src/ByIp.antt =====
-- packages/core/src/handlers/rate-limit-by-ip.ts: the rate-limit primitive for a raw address, with
-- stores of its own that are capped and kept in order of use. Times are milliseconds. The digest of
-- `hashIdentitySegment` (node:crypto) and the address parser (ipaddr.js) are parameters.
pub mod Lru
pub mod Window
pub mod Validation
pub mod AutoBan
pub mod Tests
use Prim.Native.Char.{code}
use guard_core_ts.Base.{
  ℕ, ◌+◌, ◌*◌, String, Bool, true, false, List, [], ◌∷◌, ◌++◌, Option, none, some, ltb, leb, ◌==◌,
  length, if◌then◌else◌, str_eq, ◌<>◌, not, ◌&&◌,
}
use guard_core_ts.JsMap.{JsMap, get, put, delete, size, first_key}
use guard_core_ts.Redis.{Result, ok, redis_error, absent, RedisHandler}
use guard_core_ts.Activity.{Trace}
use guard_core_ts.IpBan.{Bans, Services, is_ip_banned}
use guard_core_ts.Violations.{ThresholdConfig, Applied, resolve_threshold_ban}
use guard_core_ts.RateLimit.Window.{in_window}
use guard_core_ts.RateLimit.Redis.{RedisClient, Reply, replied, raised}

unfoldable pub drop_oldest {ℓ} : {V : Type ℓ} → JsMap V → JsMap V
drop_oldest m = elim (first_key m) [ none ↦ m | some k ↦ delete m k ]

-- `lruPopOrCreate`: the entry is taken out, to be put back as the newest; a new one makes room.
unfoldable pub lru_pop_or_create {ℓ} : {V : Type ℓ} → JsMap V → String → ℕ → V → V × JsMap V
lru_pop_or_create store key max_keys create = elim (get store key) [
  | some v ↦ (v, delete store key)
  | none ↦ (create, if leb max_keys (size store) then drop_oldest store else store)
]

-- `while (timestamps[0] <= windowStart) timestamps.shift()`
unfoldable pub shift_expired : ℕ → ℕ → List ℕ → List ℕ
shift_expired now window [] = []
shift_expired now window (t ∷ ts) =
    if in_window now window t then t ∷ ts else shift_expired now window ts

-- `endpointPath.includes(':')`
unfoldable pub has_colon : String → Bool
has_colon String.[] = false
has_colon (String.◌∷◌ c s) = if code c == b':' then true else has_colon s

-- The two stores of the module.
pub record Stores : Type 0 where
  pub timestamps : JsMap (List ℕ)
  pub autoban_counts : JsMap ℕ

pub record ByIpConfig : Type 0 where
  pub enable_rate_limiting : Bool
  pub enable_redis : Bool
  pub redis_fail_open : Bool
  pub rate_limit : ℕ
  pub rate_limit_window : ℕ
  pub enable_rate_limit_auto_ban : Bool
  pub passive_mode : Bool
  pub threshold : ThresholdConfig
  pub max_keys : ℕ

-- A throw of `checkRateLimitByIp`, or its answer.
pub data Answer : Type 0 where
  allowed : Bool → Answer
  type_error : Answer
  redis_unavailable : Answer

-- A manager that `new IPBanManager(defaultLogger)` makes: no bans, no Redis handler, no agent.
abbrev pub no_services : Services (Unit {0})
no_services = record {
  has_redis = false;
  handler = record {
    set_key = λ namespace key value ttl s. (ok tt, s);
    get_key = λ namespace key s. (ok absent, s);
    delete_key = λ namespace key s. (ok tt, s);
    delete_pattern = λ pattern s. (ok tt, s);
  };
  has_agent = false;
}

abbrev pub fresh_bans : Bans (Unit {0})
fresh_bans = record {
  banned = [];
  redis = tt;
  trace = record { stash = none; hooks = []; events = [] };
}

module _ (hash : String → String) where
  unfoldable pub window_key : String → String → String
  window_key ip path = if str_eq path "" then ip else ip <> ":" <> hash path

  -- `inMemoryRequestCountByIp`: the count before this hit, which is then recorded.
  unfoldable pub in_memory_request_count_by_ip :
      JsMap (List ℕ) → String → String → ℕ → ℕ → ℕ → ℕ × JsMap (List ℕ)
  in_memory_request_count_by_ip store ip path max_keys now window =
      let key = window_key ip path in
      let (ts, rest) = lru_pop_or_create store key max_keys [] in
      let live = shift_expired now window ts in (length live, put rest key (live ++ now ∷ []))

  -- `feedRateLimitAutoban`; the second part is the ban manager that it makes, which its caller
  -- never sees.
  unfoldable pub feed_rate_limit_autoban :
      ByIpConfig → String → ℕ → JsMap ℕ → JsMap ℕ × Bans (Unit {0})
  feed_rate_limit_autoban c ip now counts =
      if not (c.enable_rate_limit_auto_ban && c.threshold.enable_ip_banning)
      then (counts, fresh_bans)
      else if c.passive_mode
      then (counts, fresh_bans)
      else elim (is_ip_banned no_services ip now fresh_bans).0 [
        | ok true ↦ (counts, fresh_bans)
        | _ ↦
            (let (n, rest) = lru_pop_or_create counts ip c.max_keys 0 in
              (
                put rest ip (n + 1),
                (resolve_threshold_ban no_services c.threshold true (("rate_limit", n + 1) ∷ []) ip
                    ("rate_limit" ∷ []) "rate_limit_exceeded" now fresh_bans).1,
              ))
      ]

  -- The end of `checkRateLimitByIp`: a refused call feeds the auto-ban.
  unfoldable pub conclude : ByIpConfig → String → ℕ → Bool → Stores → Answer × Stores
  conclude c ip now true s = (allowed true, s)
  conclude c ip now false s = (
    allowed false,
    record s { autoban_counts = (feed_rate_limit_autoban c ip now s.autoban_counts).0 },
  )

  -- The in-memory window decides by a strict comparison.
  unfoldable pub by_memory : ByIpConfig → String → String → ℕ → Stores → Answer × Stores
  by_memory c ip path now s =
      let (n, store) =
        in_memory_request_count_by_ip s.timestamps ip path c.max_keys now c.rate_limit_window in
      conclude c ip now (ltb n c.rate_limit) (record s { timestamps = store })

  module _ {R : Type 0} (client : RedisClient R) (has_client : Bool) (prefix : String) where
    -- The commands of `redisRequestCountByIp`, until one rejects.
    unfoldable pub redis_commands : String → ℕ → ℕ → R → Reply ℕ × R
    redis_commands key now window r =
        let (a, r₁) = client.zadd key now r in
        elim a [
          | raised e ↦ (raised e, r₁)
          | replied _ ↦
              (let (b, r₂) = client.zremrangebyscore key now window r₁ in
                elim b [
                  | raised e ↦ (raised e, r₂)
                  | replied _ ↦
                      (let (n, r₃) = client.zcard key r₂ in
                        elim n [
                          | raised e ↦ (raised e, r₃)
                          | replied count ↦
                              (let (d, r₄) = client.expire key (window * 2) r₃ in
                                elim d [
                                  | raised e ↦ (raised e, r₄)
                                  | replied _ ↦ (replied count, r₄)
                                ])
                        ])
                ])
        ]

    -- What a count or a rejection makes of the call: fail-open falls back to memory, else a throw.
    unfoldable pub on_reply :
        ByIpConfig → String → String → ℕ → Stores → Reply ℕ × R → Answer × Stores × R
    on_reply c ip path now s (replied n, r) =
        let (a, s') = conclude c ip now (leb n c.rate_limit) s in (a, s', r)
    on_reply c ip path now s (raised e, r) =
        if c.redis_fail_open
        then (let (a, s') = by_memory c ip path now s in (a, s', r))
        else (redis_unavailable, s, r)

    -- `checkRateLimitByIp`
    unfoldable pub check_rate_limit_by_ip :
        (String → Bool) → ByIpConfig → Bool → String → String → ℕ → Stores → R → Answer × Stores × R
    check_rate_limit_by_ip is_valid_ip c has_handler ip path now s r =
        if not (is_valid_ip ip)
        then (type_error, s, r)
        else if has_colon path
        then (type_error, s, r)
        else if not c.enable_rate_limiting
        then (allowed true, s, r)
        else if c.enable_redis && has_handler && has_client
        then on_reply c ip path now s (
            redis_commands (prefix <> "rate_limit:rate:" <> window_key ip path) now
              c.rate_limit_window r)
        else (let (a, s') = by_memory c ip path now s in (a, s', r))
