-- ===== src/RateLimit/Tests.antt =====
-- Runs of handlers/rate-limit.ts, and the theorems about it at concrete inputs.
use guard_core_ts.Base.{
  List, inr, ℕ, ◌+◌, ◌≤◌, ◌≡◌, refl, ◌↔◌, String, Bool, true, false, [], ◌∷◌, Option, none, some,
  filter, length, arith, decimal, if◌then◌else◌, str_eq,
}
use guard_core_ts.JsMap.{get, put}
use guard_core_ts.Response.{Response, set_header}
use guard_core_ts.RateLimit.Window.{in_window, slide, cut, find_index}
use guard_core_ts.RateLimit.Redis.{RedisClient, replied, raised}
use guard_core_ts.RateLimit.Manager.{
  ManagerConfig, Setup, Manager, in_memory_request_count, check_rate_limit, ask_redis, rate_key,
  reset, verdict, count_or_memory, rate_limit_exceeded,
}
use guard_core_ts.RateLimit.History.{Calls, run, times}
use guard_core_ts.RateLimit.Calls.{Attempt, IsDown, attempts, check_rate_limit_iff, run_attempts}

-- A server that counts the evaluations of a script it knows as "new".
abbrev counting : RedisClient ℕ
counting = record {
  script_load = λ r. (replied "new", r);
  evalsha = λ sha key now window limit r.
      if str_eq sha "new" then (replied (r + 1), r + 1) else (raised true, r);
  zadd = λ key now r. (replied tt, r + 1);
  zremrangebyscore = λ key now window r. (replied tt, r);
  zcard = λ key r. (replied r, r);
  expire = λ key seconds r. (replied tt, r);
  delete_pattern = λ pattern r. 0;
}

-- A server that rejects every command.
abbrev down : RedisClient ℕ
down = record {
  script_load = λ r. (raised false, r);
  evalsha = λ sha key now window limit r. (raised false, r);
  zadd = λ key now r. (raised false, r);
  zremrangebyscore = λ key now window r. (raised false, r);
  zcard = λ key r. (raised false, r);
  expire = λ key seconds r. (raised false, r);
  delete_pattern = λ pattern r. r;
}

abbrev config : ManagerConfig
config = record {
  passive_mode = false;
  hooks = record { has_on_block = true; muted_check_logs = [] };
  rate_limit = 2;
  rate_limit_window = 10;
}

abbrev with_redis : Bool → Setup
with_redis b = record {
  config = some config;
  has_redis = b;
  has_client = b;
  prefix = "guard:";
  has_agent = true;
}

abbrev create : ℕ → String → Response
create status text = record { status_code = status; body_text = text; headers = [] }

-- Two calls of one address inside the window of ten seconds and one that has left it.
abbrev calls : Calls
calls = ("a", 1000) ∷ ("a", 9000) ∷ ("b", 9500) ∷ ("a", 12000) ∷ []

abbrev manager : Option String → Manager ℕ
manager sha = record {
  timestamps = run 10 [] calls;
  script_sha = sha;
  redis = 4;
  trace = record { stash = none; hooks = []; events = [] };
}

abbrev refused : Response
refused = set_header "Retry-After" (decimal 10) (create 429 "Too many requests")

third_call :
    (check_rate_limit counting (with_redis false) create "a" none 2 10 12500 (manager none)).0
    ≡ some refused
unfolding check_rate_limit in_memory_request_count run verdict count_or_memory ask_redis slide cut
    find_index get put rate_key in_window rate_limit_exceeded
third_call = refl

reset_store : (reset counting (with_redis true) (manager none)).timestamps ≡ []
unfolding reset
reset_store = refl

-- Two calls of one address inside the window of ten seconds, the second of them refused, one of another
-- address, and one that has left the window.
abbrev history : List Attempt
history =
    record { ip = "a"; endpoint = none; limit = 2; now = 1000 }
    ∷ record { ip = "a"; endpoint = none; limit = 2; now = 9000 }
    ∷ record { ip = "b"; endpoint = none; limit = 2; now = 9500 }
    ∷ record { ip = "a"; endpoint = none; limit = 0; now = 12000 }
    ∷ []

abbrev fresh : Manager ℕ
fresh = record (manager (some "old")) { timestamps = [] }

down-IsDown : IsDown down
down-IsDown = record {
  no_load = λ r. (false, refl);
  no_script = λ sha key now window limit r. (false, refl);
  no_add = λ key now r. (false, refl);
}

check_rate_limit_iff_example :
    ((check_rate_limit down
        (with_redis true)
        create
        "a"
        none
        2
        10
        12500
        (run_attempts down (with_redis true) create 10 fresh history)).0
      ≡ none)
    ↔ (length (filter (in_window 12500 10) (times (rate_key "a" none) (attempts history))) + 1 ≤ 2)
check_rate_limit_iff_example =
    check_rate_limit_iff down (with_redis true) create "a" none 2 10 12500 fresh history
      (inr down-IsDown) refl (omega arith, (omega arith, (omega arith, (omega arith, omega arith))))
