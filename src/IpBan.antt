-- ===== src/IpBan.antt =====
-- packages/core/src/handlers/ip-ban.ts: the ban manager. Times are milliseconds of the clock,
-- durations are seconds.
pub mod Memory
pub mod Expiry
pub mod Capacity
pub mod Lasting
pub mod Tests
use guard_core_ts.Base.{
  ℕ, ◌+◌, ◌*◌, String, Bool, true, false, List, [], Option, none, some, ltb, leb, if◌then◌else◌,
  str_eq,
}
use guard_core_ts.JsMap.{JsMap, get, put, delete, size, first_key}
use guard_core_ts.Activity.{AgentEvent, send_event, Trace}
use guard_core_ts.Redis.{Result, ok, redis_error, Stored, absent, expiry, malformed, RedisHandler}

pub record BanEntry : Type 0 where
  pub expires_at : ℕ
  pub reason : String
  pub banned_at : ℕ

pub record Bans (S : Type 0) : Type 0 where
  pub banned : JsMap BanEntry
  pub redis : S
  pub trace : Trace

-- `maxSize`
unfoldable pub max_size : ℕ
max_size = 10000

-- The oldest entry goes, unless its key is the empty text.
unfoldable pub drop_oldest {ℓ} : {V : Type ℓ} → JsMap V → JsMap V
drop_oldest m = elim (first_key m) [ none ↦ m | some k ↦ if str_eq k "" then m else delete m k ]

-- At `maxSize` entries room is made, whether or not the key is new.
unfoldable pub make_room {ℓ} : {V : Type ℓ} → JsMap V → JsMap V
make_room m = if leb max_size (size m) then drop_oldest m else m

abbrev pub ban_entry : ℕ → String → ℕ → BanEntry
ban_entry duration reason now = record {
  expires_at = now + duration * 1000;
  reason = reason;
  banned_at = now;
}

unfoldable pub record_ban : String → ℕ → String → ℕ → JsMap BanEntry → JsMap BanEntry
record_ban ip duration reason now m = put (make_room m) ip (ban_entry duration reason now)

-- Whether a Redis handler and an agent are set, and the commands of the former.
pub record Services (S : Type 0) : Type 0 where
  pub has_redis : Bool
  pub handler : RedisHandler S
  pub has_agent : Bool

module _ {S : Type 0} (services : Services S) where
  abbrev pub notify : AgentEvent → Bans S → Bans S
  notify e s = record s { trace = if services.has_agent then send_event e s.trace else s.trace }

  -- A handler command that runs only where a handler is set.
  abbrev pub with_redis : (S → Result (Unit {0}) × S) → Bans S → Result (Unit {0}) × Bans S
  with_redis command s =
      if services.has_redis
      then (let (r, redis) = command s.redis in (r, record s { redis = redis }))
      else (ok tt, s)

  abbrev pub ban_event : String → String → AgentEvent
  ban_event ip reason = record {
    event_type = "ip_banned";
    ip_address = ip;
    action_taken = "banned";
    reason = reason;
  }

  abbrev pub unban_event : String → AgentEvent
  unban_event ip = record {
    event_type = "ip_unbanned";
    ip_address = ip;
    action_taken = "unbanned";
    reason = "dynamic_rule_whitelist";
  }

  -- What follows a handler command: an event, or the error is passed on.
  abbrev pub then_notify {ℓ} :
      {A : Type ℓ} → AgentEvent → A → Result (Unit {0}) × Bans S → Result A × Bans S
  then_notify e a (ok _, s) = (ok a, notify e s)
  then_notify e a (redis_error, s) = (redis_error, s)

  -- `banIp`
  unfoldable pub ban_ip : String → ℕ → String → ℕ → Bans S → Result Bool × Bans S
  ban_ip ip duration reason now s = then_notify (ban_event ip reason) true (
      with_redis (services.handler.set_key "banned_ips" ip (now + duration * 1000) duration)
        (record s { banned = record_ban ip duration reason now s.banned }))

  -- The delete of a stale Redis entry, and the answer after it.
  abbrev pub forget : String → Bans S → Result Bool × Bans S
  forget ip s =
      let (r, redis) = services.handler.delete_key "banned_ips" ip s.redis in
      (elim r [ ok _ ↦ ok false | redis_error ↦ redis_error ], record s { redis = redis })

  -- A live Redis entry is restored into memory, with no regard to `maxSize`.
  abbrev pub restore : String → ℕ → ℕ → Bans S → Bans S
  restore ip expires_at now s = record s {
    banned =
        put s.banned ip
          (record { expires_at = expires_at; reason = "restored_from_redis"; banned_at = now });
  }

  unfoldable pub on_stored : String → ℕ → Result Stored → Bans S → Result Bool × Bans S
  on_stored ip now redis_error s = (redis_error, s)
  on_stored ip now (ok absent) s = (ok false, s)
  on_stored ip now (ok malformed) s = forget ip s
  on_stored ip now (ok (expiry t)) s =
      if leb now t then (ok true, restore ip t now s) else forget ip s

  unfoldable pub ask_redis : String → ℕ → Bans S → Result Bool × Bans S
  ask_redis ip now s =
      if services.has_redis
      then (let (r, redis) = services.handler.get_key "banned_ips" ip s.redis in
          on_stored ip now r (record s { redis = redis }))
      else (ok false, s)

  unfoldable pub on_entry : String → ℕ → Option BanEntry → Bans S → Result Bool × Bans S
  on_entry ip now none s = ask_redis ip now s
  on_entry ip now (some e) s =
      if leb now e.expires_at
      then (ok true, s)
      else ask_redis ip now (record s { banned = delete s.banned ip })

  -- `isIpBanned`
  unfoldable pub is_ip_banned : String → ℕ → Bans S → Result Bool × Bans S
  is_ip_banned ip now s = on_entry ip now (get s.banned ip) s

  -- `unbanIp`
  unfoldable pub unban_ip : String → Bans S → Result (Unit {0}) × Bans S
  unban_ip ip s = then_notify (unban_event ip) tt (
      with_redis (services.handler.delete_key "banned_ips" ip)
        (record s { banned = delete s.banned ip }))

  -- `reset`
  unfoldable pub reset : Bans S → Result (Unit {0}) × Bans S
  reset s = with_redis (services.handler.delete_pattern "banned_ips:*") (record s { banned = [] })
