-- ===== src/Violations/Threshold.antt =====
-- `resolveThresholdBan` against a description of which ban the counts call for (core/checks/helpers.ts).
use guard_core_ts.Base.{
  ℕ, ◌≡◌, String, Bool, List, [], ◌∷◌, Option, none, some, if◌then◌else◌, leb, arith, ◌<>◌, ◌&&◌,
}
use guard_core_ts.JsMap.{JsMap, get}
use guard_core_ts.Redis.{Result, ok}
use guard_core_ts.IpBan.{Bans, Services, ban_ip}
use guard_core_ts.Violations.{
  count_of, sum_values, BanRule, ThresholdConfig, Applied, applied, flat_ban, crossed, category_ban,
  resolve_threshold_ban,
}

-- The categories, with their rules, whose count has reached the threshold of their rule, in order.
abbrev pub due : ThresholdConfig → JsMap ℕ → List String → List (String × BanRule)
due config counts [] = []
due config counts (c ∷ cs) = elim (get config.threat_ban_config c) [
  | none ↦ due config counts cs
  | some rule ↦
      if leb rule.threshold (count_of counts c)
      then (c, rule) ∷ due config counts cs
      else due config counts cs
]

-- The ban that is called for: the first due category, else the flat rule on the total.
abbrev pub called_for :
    ThresholdConfig → JsMap ℕ → String → List (String × BanRule) → Option Applied
called_for config counts reason ((c, rule) ∷ ds) =
    some (record { duration = rule.duration; reason = reason <> ":" <> c; category = some c })
called_for config counts reason [] =
    if leb config.auto_ban_threshold (sum_values counts)
    then some (record { duration = config.auto_ban_duration; reason = reason; category = none })
    else none

module _ {S : Type 0} (services : Services S) (config : ThresholdConfig) (has_manager : Bool) where
  -- To apply what is called for is to call `banIp` with it, and nothing else.
  abbrev pub enforce : String → ℕ → Option Applied → Bans S → Result (Option Applied) × Bans S
  enforce ip now none s = (ok none, s)
  enforce ip now (some a) s =
      applied services config has_manager a (ban_ip services ip a.duration a.reason now s)

  category_ban_lem :
      (counts : JsMap ℕ) (ip reason : String) (now : ℕ) (cs : List String) (s : Bans S)
      → category_ban services config has_manager counts ip reason now cs s
        ≡ enforce ip now (called_for config counts reason (due config counts cs)) s
  unfolding category_ban flat_ban crossed
  category_ban_lem counts ip reason now [] s = ground arith
  category_ban_lem counts ip reason now (c ∷ cs) s =
      ground (arith, category_ban_lem counts ip reason now cs s)

  -- With banning enabled and a ban manager, the threshold ban is exactly the ban that the counts
  -- call for: the first due category in the given order, else the flat rule, else none; and
  -- without them it is none and nothing changes.
  pub resolve_threshold_ban_lem :
      (counts : JsMap ℕ) (ip : String) (categories : List String) (reason : String) (now : ℕ)
      (s : Bans S)
      → resolve_threshold_ban services config has_manager counts ip categories reason now s ≡ (
          if config.enable_ip_banning && has_manager
          then enforce ip now (called_for config counts reason (due config counts categories)) s
          else (ok none, s))
  unfolding resolve_threshold_ban
  resolve_threshold_ban_lem counts ip categories reason now s =
      ground (arith, category_ban_lem counts ip reason now categories s)
