-- ===== src/RateLimitCheck/Tests.antt =====
-- Runs of core/checks/implementations/rate-limit.ts, and the theorems about it at concrete inputs.
use guard_core_ts.Base.{ℕ, ◌+◌, ◌≡◌, refl, Bool, true, false, [], ◌∷◌, none, some, length}
use guard_core_ts.JsMap.{get, put}
use guard_core_ts.Redis.{ok, absent}
use guard_core_ts.RateLimit.Redis.{replied}
use guard_core_ts.RateLimit.Window.{slide, cut, find_index, in_window}
use guard_core_ts.RateLimit.Manager.{
  row, check_rate_limit, in_memory_request_count, verdict, count_or_memory, ask_redis, rate_key,
}
use guard_core_ts.RateLimitCheck.{
  Request, Engine, Context, check, tiers, check_route_limit, check_session_limit,
  check_endpoint_limit, on_endpoint_limit, check_geo_rate_limit, with_geo_handler,
  apply_rate_limit_check, on_answer,
}
use guard_core_ts.RateLimitCheck.Passive.{Watches, check-Watches}
use guard_core_ts.RateLimitCheck.Refusal.{Counted, check-Counted}

-- A route limit of five and an endpoint limit of five for the same path, both a minute.
abbrev context : Bool → Context ℕ (Unit {0})
context passive = record {
  client = record {
    script_load = λ r. (replied "new", r);
    evalsha = λ sha key now window limit r. (replied (r + 1), r + 1);
    zadd = λ key now r. (replied tt, r + 1);
    zremrangebyscore = λ key now window r. (replied tt, r);
    zcard = λ key r. (replied r, r);
    expire = λ key seconds r. (replied tt, r);
    delete_pattern = λ pattern r. 0;
  };
  setup = record {
    config = none;
    has_redis = false;
    has_client = false;
    prefix = "guard:";
    has_agent = false;
  };
  create_error_response =
      λ status text. record { status_code = status; body_text = text; headers = [] };
  config = record {
    enable_rate_limiting = true;
    enable_rate_limit_auto_ban = true;
    passive_mode = passive;
    endpoint_rate_limits = ("/login", (5, 60)) ∷ [];
    rate_limit = 10;
    rate_limit_window = 60;
    threshold = record {
      enable_ip_banning = true;
      threat_ban_config = [];
      auto_ban_threshold = 3;
      auto_ban_duration = 60;
    };
  };
  services = record {
    has_redis = false;
    handler = record {
      set_key = λ namespace key value ttl s. (ok tt, s);
      get_key = λ namespace key s. (ok absent, s);
      delete_key = λ namespace key s. (ok tt, s);
      delete_pattern = λ pattern s. (ok tt, s);
    };
    has_agent = false;
  };
  has_ban_manager = true;
  get_country = none;
  to_lower_case = λ s. s;
}

abbrev engine : Engine ℕ (Unit {0})
engine = record {
  manager = record {
    timestamps = [];
    script_sha = none;
    redis = 0;
    trace = record { stash = none; hooks = []; events = [] };
  };
  counts = [];
  bans = record {
    banned = [];
    redis = tt;
    trace = record { stash = none; hooks = []; events = [] };
  };
  bus = [];
}

abbrev login : Request
login = record {
  is_whitelisted = false;
  is_exempt = false;
  client_host = some "a";
  url_path = "/login";
  headers = [];
  route_config = some (record {
    rate_limit = some 5;
    rate_limit_window = some 60;
    session_limits = [];
    geo_rate_limits = [];
  });
}

-- The route tier and the endpoint tier count in one list: one request takes two places of it.
counted_twice :
    length (row (check (context false) login 1000 engine).1.manager.timestamps "a:/login") ≡ 2
unfolding check tiers check_route_limit check_session_limit check_endpoint_limit on_endpoint_limit
    check_geo_rate_limit with_geo_handler apply_rate_limit_check on_answer check_rate_limit
    in_memory_request_count verdict count_or_memory ask_redis rate_key slide cut find_index
    in_window get put
counted_twice = refl

check-Watches_example : Watches engine (check (context true) login 1000 engine)
check-Watches_example = check-Watches (context true) refl login 1000 engine

check-Counted_example : Counted "a" engine (check (context false) login 1000 engine)
check-Counted_example = check-Counted (context false) "a" refl login 1000 engine refl
