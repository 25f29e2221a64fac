-- ===== src/Violations/Tests.antt =====
-- Runs of the violation counters and threshold bans of core/checks/helpers.ts, and the theorems about
-- them at concrete inputs.
use guard_core_ts.Base.{◌+◌, ◌≡◌, refl, true, false, [], ◌∷◌, none, arith}
use guard_core_ts.JsMap.{get, put, delete}
use guard_core_ts.Redis.{ok, absent}
use guard_core_ts.IpBan.{Bans, Services, is_ip_banned}
use guard_core_ts.Violations.{
  Counts, max_tracked, increment_suspicious_counts, total_suspicious_count, ThresholdConfig,
  resolve_threshold_ban, try_threshold_ban, count_categories, sum_values, make_room,
}
use guard_core_ts.Violations.Counts.{increment-total}
use guard_core_ts.Violations.Threshold.{due, called_for, enforce, resolve_threshold_ban_lem}
use guard_core_ts.Violations.AutoBan.{violate, violate-is_ip_banned}

abbrev services : Services (Unit {0})
services = record {
  has_redis = false;
  handler = record {
    set_key = λ namespace key value ttl s. (ok tt, s);
    get_key = λ namespace key s. (ok absent, s);
    delete_key = λ namespace key s. (ok tt, s);
    delete_pattern = λ pattern s. (ok tt, s);
  };
  has_agent = false;
}

abbrev no_bans : Bans (Unit {0})
no_bans = record {
  banned = [];
  redis = tt;
  trace = record { stash = none; hooks = []; events = [] };
}

abbrev config : ThresholdConfig
config = record {
  enable_ip_banning = true;
  threat_ban_config = ("sqli", record { threshold = 2; duration = 600 }) ∷ [];
  auto_ban_threshold = 5;
  auto_ban_duration = 60;
}

abbrev counts : Counts
counts = ("a", ("xss", 1) ∷ ("sqli", 1) ∷ []) ∷ ("b", ("xss", 4) ∷ []) ∷ []

total_of_two : total_suspicious_count counts "a" ≡ 2
unfolding total_suspicious_count sum_values get
total_of_two = refl

uncategorized : increment_suspicious_counts [] "c" [] ≡ ("c", ("uncategorized", 1) ∷ []) ∷ []
unfolding increment_suspicious_counts make_room count_categories get put delete max_tracked
uncategorized = refl

increment-total_example :
    total_suspicious_count (increment_suspicious_counts counts "a" []) "a"
    ≡ total_suspicious_count counts "a" + 1
increment-total_example = increment-total counts "a" []

resolve_threshold_ban_lem_example :
    resolve_threshold_ban services config true
      (("sqli", 2) ∷ [])
      "a"
      ("xss" ∷ "sqli" ∷ [])
      "scan"
      0
      no_bans
    ≡ enforce services config true "a" 0
        (called_for config
          (("sqli", 2) ∷ [])
          "scan"
          (due config (("sqli", 2) ∷ []) ("xss" ∷ "sqli" ∷ [])))
        no_bans
resolve_threshold_ban_lem_example =
    resolve_threshold_ban_lem services config true (("sqli", 2) ∷ []) "a" ("xss" ∷ "sqli" ∷ [])
      "scan" 0 no_bans

violate-is_ip_banned_example :
    (is_ip_banned services "a" 60000
      (try_threshold_ban services config true
        (violate 3 counts "a" "xss")
        "a"
        ("xss" ∷ [])
        "scan"
        7
        no_bans).1).0
    ≡ ok true
unfolding get total_suspicious_count sum_values
violate-is_ip_banned_example =
    violate-is_ip_banned services config 3 counts "a" "xss" "scan" 7 60000 no_bans refl refl refl
      (omega arith) (omega arith)
