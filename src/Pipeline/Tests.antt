-- ===== src/Pipeline/Tests.antt =====
-- Runs of core/checks/pipeline.ts, and the theorems about it at concrete inputs.
use guard_core_ts.Base.{
  length, ℕ, ◌+◌, ◌≡◌, refl, String, Bool, true, false, List, [], ◌∷◌, none, some,
}
use guard_core_ts.Activity.{fire_block_hook}
use guard_core_ts.Response.{Response}
use guard_core_ts.Pipeline.{
  State, Check, PipelineConfig, Outcome, pass, respond, threw, guard_redis_error,
  fire_block_hook_for, handle_check_error, execute,
}

abbrev create : ℕ → String → Response
create status text = record { status_code = status; body_text = text; headers = [] }

abbrev config : Bool → PipelineConfig
config tolerant = record {
  redis_fail_open = tolerant;
  fail_secure = true;
  hooks = record { has_on_block = true; muted_check_logs = [] };
}

-- A check that counts its runs and has a fixed outcome.
abbrev fixed : String → Bool → Outcome → Check ℕ
fixed name tolerant outcome = record {
  name = name;
  config = config tolerant;
  create_error_response = create;
  run = λ s. (outcome, record s { world = s.world + 1 });
}

abbrev start : State ℕ
start = record { world = 0; trace = record { stash = none; hooks = []; events = [] } }

abbrev passing : List (Check ℕ)
passing = fixed "route_config" false pass ∷ fixed "rate_limit" true (threw guard_redis_error) ∷ []

abbrev refusing : List (Check ℕ)
refusing =
    fixed "ip_security" false pass ∷ fixed "user_agent" false (respond (create 403 "no")) ∷ []

redis_error_passes : execute passing start ≡ (none, record start { world = 2 })
unfolding execute handle_check_error
redis_error_passes = refl

redis_error_blocks :
    (execute (fixed "rate_limit" false (threw guard_redis_error) ∷ []) start).0
    ≡ some (create 500 "Security check failed")
unfolding execute handle_check_error
redis_error_blocks = refl

refused_once : length (execute refusing start).1.trace.hooks ≡ 1
unfolding execute fire_block_hook_for fire_block_hook
refused_once = refl
