-- ===== src/Violations/AutoBan.antt =====
-- The flat auto-ban over repeated violations, from the counters (core/checks/helpers.ts) through the
-- threshold to the ban manager (handlers/ip-ban.ts).
use guard_core_ts.Base.{
  ℕ, zero, suc, ◌+◌, ◌*◌, ◌≤◌, ◌≡◌, refl, ap, ◌∙◌, String, Bool, true, false, [], ◌∷◌, none, some,
  if◌then◌else◌, leb, arith, le→leb,
}
use mathlib.Core.Option
use guard_core_ts.JsMap.{JsMap, get}
use guard_core_ts.Redis.{Result, ok, redis_error}
use guard_core_ts.IpBan.{Bans, Services, ban_ip, is_ip_banned}
use guard_core_ts.IpBan.Expiry.{ban_ip-is_ip_banned}
use guard_core_ts.Violations.{
  Counts, increment_suspicious_counts, total_suspicious_count, ThresholdConfig, Applied, applied,
  was_applied, try_threshold_ban, sum_values,
}
use guard_core_ts.Violations.Counts.{increment-total}
use guard_core_ts.Violations.Threshold.{enforce, called_for, due, resolve_threshold_ban_lem}

-- The counters after `n` violations of one category by one address.
unfoldable pub violate : ℕ → Counts → String → String → Counts
violate zero m ip category = m
violate (suc n) m ip category =
    increment_suspicious_counts (violate n m ip category) ip (category ∷ [])

violate-total :
    (n : ℕ) (m : Counts) (ip category : String)
    → total_suspicious_count (violate n m ip category) ip ≡ total_suspicious_count m ip + n
unfolding violate
violate-total zero m ip category = omega arith
violate-total (suc n) m ip category = omega (
  arith,
  increment-total (violate n m ip category) ip (category ∷ []),
  violate-total n m ip category,
)

module _ {S : Type 0} (services : Services S) (config : ThresholdConfig) where
  ban_ip-applied :
      (ip : String) (duration : ℕ) (reason : String) (now : ℕ) (s : Bans S)
      → services.has_redis ≡ false
      → (ban_ip services ip duration reason now s).0 ≡ ok true
  unfolding ban_ip
  ban_ip-applied ip duration reason now s local = rw local

  -- A ban that `banIp` applied is reported, in the state that `banIp` left.
  applied_lem :
      (a : Applied) (r : Result Bool × Bans S)
      → r.0 ≡ ok true
      → was_applied services config true (applied services config true a r) ≡ (ok true, r.1)
  applied_lem a (ok true, s) e = refl
  applied_lem a (ok false, s) e = cc
  applied_lem a (redis_error, s) e = cc

  abbrev flat : String → Applied
  flat reason = record { duration = config.auto_ban_duration; reason = reason; category = none }

  -- What the ban attempt does, for the test of the flat threshold.
  abbrev pub outcome : String → String → ℕ → Bool → Bans S → Result Bool × Bans S
  outcome ip reason now true s =
      (ok true, (ban_ip services ip config.auto_ban_duration reason now s).1)
  outcome ip reason now false s = (ok false, s)

  enforce-flat :
      (ip reason : String) (now : ℕ) (b : Bool) (s : Bans S)
      → services.has_redis ≡ false
      → was_applied services config true
          (enforce services config true ip now (if b then some (flat reason) else none) s)
        ≡ outcome ip reason now b s
  enforce-flat ip reason now false s local = refl
  enforce-flat ip reason now true s local =
      applied_lem (flat reason) _ (ban_ip-applied ip config.auto_ban_duration reason now s local)

  called_flat :
      (counts : JsMap ℕ) (category reason : String)
      → get config.threat_ban_config category ≡ none
      → called_for config counts reason (due config counts (category ∷ []))
        ≡ (if leb config.auto_ban_threshold (sum_values counts) then some (flat reason) else none)
  called_flat counts category reason no_rule = ground arith

  -- With banning enabled, no Redis handler and no rule of its own for the category, the `n`-th
  -- violation of an address bans it, for the flat duration, exactly when the total of its counts has
  -- reached the flat threshold; below it nothing changes.
  pub try_threshold_ban_lem :
      (n : ℕ) (m : Counts) (ip category reason : String) (now : ℕ) (s : Bans S)
      → config.enable_ip_banning ≡ true
      → services.has_redis ≡ false
      → get config.threat_ban_config category ≡ none
      → try_threshold_ban services config true
          (violate n m ip category)
          ip
          (category ∷ [])
          reason
          now
          s
        ≡ outcome ip reason now (leb config.auto_ban_threshold (total_suspicious_count m ip + n)) s
  unfolding try_threshold_ban total_suspicious_count
  try_threshold_ban_lem n m ip category reason now s on local no_rule =
      let counts = Option.get_or (get (violate n m ip category) ip) [] in
      ap (was_applied services config true)
        (resolve_threshold_ban_lem services config true counts ip (category ∷ []) reason now s)
      ∙ rw on (
          ap (λ a. was_applied services config true (enforce services config true ip now a s))
            (called_flat counts category reason no_rule))
      ∙ enforce-flat ip reason now _ s local
      ∙ ap (λ t. outcome ip reason now (leb config.auto_ban_threshold t) s)
          (violate-total n m ip category)

  -- With banning enabled, no Redis handler and no rule of its own for the category, once the violations
  -- of an address have reached the flat threshold it is banned, up to the end of the flat duration.
  pub violate-is_ip_banned :
      (n : ℕ) (m : Counts) (ip category reason : String) (now later : ℕ) (s : Bans S)
      → config.enable_ip_banning ≡ true
      → services.has_redis ≡ false
      → get config.threat_ban_config category ≡ none
      → config.auto_ban_threshold ≤ total_suspicious_count m ip + n
      → later ≤ now + config.auto_ban_duration * 1000
      → (is_ip_banned services ip later
          (try_threshold_ban services config true
            (violate n m ip category)
            ip
            (category ∷ [])
            reason
            now
            s).1).0
        ≡ ok true
  violate-is_ip_banned n m ip category reason now later s on local no_rule reached le =
      rw
        (
          try_threshold_ban_lem n m ip category reason now s on local no_rule,
          le→leb config.auto_ban_threshold (total_suspicious_count m ip + n) reached,
        )
        (ban_ip-is_ip_banned services ip config.auto_ban_duration reason now later s le)
