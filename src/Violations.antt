-- ===== src/Violations.antt =====
-- The violation counters and the threshold ban of packages/core/src/core/checks/helpers.ts:
-- `incrementSuspiciousCounts`, `totalSuspiciousCount`, `resolveThresholdBan`, `tryThresholdBan`.
pub mod Counts
pub mod Threshold
pub mod AutoBan
pub mod Tests
use guard_core_ts.Base.{
  ℕ, ◌+◌, String, Bool, true, false, List, [], ◌∷◌, Option, none, some, ltb, leb, if◌then◌else◌,
  str_eq, ◌<>◌, not, ◌&&◌,
}
use mathlib.Core.Option
use guard_core_ts.JsMap.{JsMap, get, put, delete, size, first_key}
use guard_core_ts.Redis.{Result, ok, redis_error}
use guard_core_ts.IpBan.{Bans, Services, ban_ip}

-- `suspiciousRequestCounts`: for each address, a count for each category.
abbrev pub Counts : Type 0
Counts = JsMap (JsMap ℕ)

-- `MAX_TRACKED_SUSPICIOUS_IPS`
unfoldable pub max_tracked : ℕ
max_tracked = 10000

abbrev pub count_of : JsMap ℕ → String → ℕ
count_of counts category = Option.get_or (get counts category) 0

-- The loop over the categories of one violation.
unfoldable pub count_categories : JsMap ℕ → List String → JsMap ℕ
count_categories counts [] = counts
count_categories counts (c ∷ cs) = count_categories (put counts c (count_of counts c + 1)) cs

-- No category counts as 'uncategorized'; a single text is the list of it.
abbrev pub resolved : List String → List String
resolved [] = "uncategorized" ∷ []
resolved (c ∷ cs) = c ∷ cs

unfoldable pub drop_oldest {ℓ} : {V : Type ℓ} → JsMap V → JsMap V
drop_oldest m = elim (first_key m) [ none ↦ m | some k ↦ delete m k ]

-- An address that is counted for the first time evicts the oldest at the cap.
unfoldable pub make_room : Option (JsMap ℕ) → Counts → Counts
make_room (some counts) m = m
make_room none m = if leb max_tracked (size m) then drop_oldest m else m

-- `incrementSuspiciousCounts`
unfoldable pub increment_suspicious_counts : Counts → String → List String → Counts
increment_suspicious_counts m ip categories =
    let old = get m ip in
    put (make_room old (delete m ip)) ip
      (count_categories (Option.get_or old []) (resolved categories))

unfoldable pub sum_values : JsMap ℕ → ℕ
sum_values [] = 0
sum_values ((k, n) ∷ m) = n + sum_values m

-- `totalSuspiciousCount`
unfoldable pub total_suspicious_count : Counts → String → ℕ
total_suspicious_count m ip = sum_values (Option.get_or (get m ip) [])

pub record BanRule : Type 0 where
  pub threshold : ℕ
  pub duration : ℕ

-- What the threshold ban reads of the configuration.
pub record ThresholdConfig : Type 0 where
  pub enable_ip_banning : Bool
  pub threat_ban_config : JsMap BanRule
  pub auto_ban_threshold : ℕ
  pub auto_ban_duration : ℕ

-- `[duration, banReason, category]`
pub record Applied : Type 0 where
  pub duration : ℕ
  pub reason : String
  pub category : Option String

module _ {S : Type 0} (services : Services S) (config : ThresholdConfig) (has_manager : Bool) where
  -- What follows a call of `banIp`: nothing was applied, or `a` was.
  abbrev pub applied : Applied → Result Bool × Bans S → Result (Option Applied) × Bans S
  applied a (ok true, s) = (ok (some a), s)
  applied a (ok false, s) = (ok none, s)
  applied a (redis_error, s) = (redis_error, s)

  -- The flat threshold, on the total of all categories.
  unfoldable pub flat_ban :
      JsMap ℕ → String → String → ℕ → Bans S → Result (Option Applied) × Bans S
  flat_ban counts ip reason now s =
      if ltb (sum_values counts) config.auto_ban_threshold
      then (ok none, s)
      else applied
          (record { duration = config.auto_ban_duration; reason = reason; category = none })
          (ban_ip services ip config.auto_ban_duration reason now s)

  -- An entry of `threatBanConfig` whose threshold the category's count has reached.
  unfoldable pub crossed : JsMap ℕ → String → Option BanRule
  crossed counts category = elim (get config.threat_ban_config category) [
    | none ↦ none
    | some rule ↦ if ltb (count_of counts category) rule.threshold then none else some rule
  ]

  -- The loop over the threat categories, then the flat threshold.
  unfoldable pub category_ban :
      JsMap ℕ → String → String → ℕ → List String → Bans S → Result (Option Applied) × Bans S
  category_ban counts ip reason now [] s = flat_ban counts ip reason now s
  category_ban counts ip reason now (c ∷ cs) s =
      let rest = category_ban counts ip reason now cs s in
      elim (crossed counts c) [
        | none ↦ rest
        | some rule ↦
            applied
              (record { duration = rule.duration; reason = reason <> ":" <> c; category = some c })
              (ban_ip services ip rule.duration (reason <> ":" <> c) now s)
      ]

  -- `resolveThresholdBan`
  unfoldable pub resolve_threshold_ban :
      JsMap ℕ → String → List String → String → ℕ → Bans S → Result (Option Applied) × Bans S
  resolve_threshold_ban counts ip categories reason now s =
      if not config.enable_ip_banning
      then (ok none, s)
      else if not has_manager
      then (ok none, s)
      else category_ban counts ip reason now categories s

  abbrev pub was_applied : Result (Option Applied) × Bans S → Result Bool × Bans S
  was_applied (ok none, s) = (ok false, s)
  was_applied (ok (some a), s) = (ok true, s)
  was_applied (redis_error, s) = (redis_error, s)

  -- `tryThresholdBan`, on the counts that the middleware holds for the address; the log line of an
  -- applied ban is left out.
  unfoldable pub try_threshold_ban :
      Counts → String → List String → String → ℕ → Bans S → Result Bool × Bans S
  try_threshold_ban m ip categories reason now s =
      was_applied (resolve_threshold_ban (Option.get_or (get m ip) []) ip categories reason now s)
