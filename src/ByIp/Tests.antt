-- ===== src/ByIp/Tests.antt =====
-- Runs of handlers/rate-limit-by-ip.ts, and the theorems about it at concrete inputs.
use guard_core_ts.Base.{
  ℕ, ◌+◌, ◌≡◌, refl, inr, String, Bool, true, false, List, [], ◌∷◌, str_eq, not, ◌<>◌,
}
use guard_core_ts.JsMap.{JsMap, has}
use guard_core_ts.JsMap.Laws.{IsMap}
use guard_core_ts.RateLimit.Redis.{RedisClient, replied, raised}
use guard_core_ts.ByIp.{Stores, ByIpConfig, type_error, has_colon, check_rate_limit_by_ip}
use guard_core_ts.ByIp.Validation.{type_error_keeps}

abbrev hash : String → String
hash path = "#" <> path

abbrev down : RedisClient ℕ
down = record {
  script_load = λ r. (raised false, r);
  evalsha = λ sha key now window limit r. (raised false, r);
  zadd = λ key now r. (replied tt, r + 1);
  zremrangebyscore = λ key now window r. (raised false, r);
  zcard = λ key r. (replied r, r);
  expire = λ key seconds r. (replied tt, r);
  delete_pattern = λ pattern r. r;
}

abbrev is_valid_ip : String → Bool
is_valid_ip s = not (str_eq s "not an ip")

abbrev config : ByIpConfig
config = record {
  enable_rate_limiting = true;
  enable_redis = true;
  redis_fail_open = false;
  rate_limit = 2;
  rate_limit_window = 10;
  enable_rate_limit_auto_ban = true;
  passive_mode = false;
  threshold = record {
    enable_ip_banning = true;
    threat_ban_config = [];
    auto_ban_threshold = 2;
    auto_ban_duration = 60;
  };
  max_keys = 2;
}

abbrev store : JsMap (List ℕ)
store = ("a", 1000 ∷ 9000 ∷ []) ∷ ("b", 9500 ∷ []) ∷ []

abbrev stores : Stores
stores = record { timestamps = store; autoban_counts = [] }

distinct : IsMap store
unfolding has
distinct = (refl, (refl, tt))

type_error_keeps_example :
    check_rate_limit_by_ip hash down true "guard:" is_valid_ip config true "a" "/a:b" 5 stores 0
    ≡ (type_error, stores, 0)
unfolding has_colon
type_error_keeps_example =
    type_error_keeps hash down true "guard:" is_valid_ip config true "a" "/a:b" 5 stores 0
      (inr refl)
