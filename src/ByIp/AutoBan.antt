-- ===== src/ByIp/AutoBan.antt =====
-- What the auto-ban of handlers/rate-limit-by-ip.ts does: it counts violations, and the bans it makes
-- are lost with the manager that it makes for each call.
use guard_core_ts.Base.{
  ℕ, ◌+◌, ◌≡◌, refl, ap, ◌∙◌, String, true, false, List, [], ◌∷◌, arith, length,
}
use mathlib.Core.Option
use guard_core_ts.JsMap.{JsMap, get, put}
use guard_core_ts.JsMap.Laws.{get-put_self}
use guard_core_ts.Redis.{ok}
use guard_core_ts.IpBan.{is_ip_banned, on_entry, ask_redis}
use guard_core_ts.Violations.{count_of}
use guard_core_ts.ByIp.{
  ByIpConfig, lru_pop_or_create, feed_rate_limit_autoban, no_services, fresh_bans,
}

module _ (hash : String → String) (c : ByIpConfig) where
  fresh_not_banned :
      (ip : String) (now : ℕ) → (is_ip_banned no_services ip now fresh_bans).0 ≡ ok false
  unfolding is_ip_banned on_entry ask_redis get
  fresh_not_banned ip now = refl

  popped_count :
      (counts : JsMap ℕ) (ip : String) (max_keys : ℕ)
      → (lru_pop_or_create counts ip max_keys 0).0 ≡ count_of counts ip
  unfolding lru_pop_or_create
  popped_count counts ip max_keys = ground arith

  -- The counters after refused calls of one address at the given times.
  unfoldable pub feeds : String → List ℕ → JsMap ℕ → JsMap ℕ
  feeds ip [] counts = counts
  feeds ip (now ∷ times) counts = feeds ip times (feed_rate_limit_autoban hash c ip now counts).0

  module _ (on : c.enable_rate_limit_auto_ban ≡ true)
      (banning : c.threshold.enable_ip_banning ≡ true) (active : c.passive_mode ≡ false) where
    feed_put :
        (ip : String) (now : ℕ) (counts : JsMap ℕ)
        → (feed_rate_limit_autoban hash c ip now counts).0
          ≡ put (lru_pop_or_create counts ip c.max_keys 0).1 ip (count_of counts ip + 1)
    unfolding feed_rate_limit_autoban
    feed_put ip now counts =
        simp (on, banning, active, fresh_not_banned ip now, popped_count counts ip c.max_keys)

    feed_count :
        (ip : String) (now : ℕ) (counts : JsMap ℕ)
        → count_of (feed_rate_limit_autoban hash c ip now counts).0 ip ≡ count_of counts ip + 1
    feed_count ip now counts =
        ap (λ m. count_of m ip) (feed_put ip now counts)
        ∙ ap (λ o. Option.get_or o 0) (get-put_self _ ip (count_of counts ip + 1))

    -- With both auto-ban knobs on and outside passive mode, every refused call of an address is
    -- counted, at whatever times they come: also those after the count has crossed the threshold and
    -- a ban was applied, since the ban stands in a manager that no later call sees.
    pub feeds_count :
        (ip : String) (times : List ℕ) (counts : JsMap ℕ)
        → count_of (feeds ip times counts) ip ≡ count_of counts ip + length times
    unfolding feeds
    feeds_count ip [] counts = omega arith
    feeds_count ip (now ∷ times) counts = omega (
      arith,
      feeds_count ip times (feed_rate_limit_autoban hash c ip now counts).0,
      feed_count ip now counts,
    )
