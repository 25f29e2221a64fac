-- ===== src/Pipeline.antt =====
-- packages/core/src/core/checks/pipeline.ts, with the interface of base.ts: the checks that a request
-- goes through. A check is a function on the state of the request and the engine; it passes, answers
-- with a response, or throws. Log lines are left out.
pub mod Order
pub mod FailSecure
pub mod Hooks
pub mod Editing
pub mod Tests
use guard_core_ts.Base.{
  ℕ, zero, suc, String, Bool, true, false, List, [], ◌∷◌, ◌++◌, Option, none, some, length, map,
  take, drop, if◌then◌else◌, str_eq, ◌&&◌,
}
use mathlib.Core.Option
use guard_core_ts.Response.{Response}
use guard_core_ts.Activity.{HookConfig, HookCall, Stash, Trace, fire_block_hook}

-- What a check throws: a `GuardRedisError`, or anything else.
pub data Error : Type 0 where
  guard_redis_error other_error : Error

pub data Outcome : Type 0 where
  pass : Outcome
  respond : Response → Outcome
  threw : Error → Outcome

-- What the pipeline reads of the configuration that a check refers to.
pub record PipelineConfig : Type 0 where
  pub redis_fail_open : Bool
  pub fail_secure : Bool
  pub hooks : HookConfig

-- The engine's state `W` beside what the request leaves behind.
pub record State (W : Type 0) : Type 0 where
  pub world : W
  pub trace : Trace

pub record Check (W : Type 0) : Type 0 where
  pub name : String
  pub config : PipelineConfig
  pub create_error_response : ℕ → String → Response
  pub run : State W → Outcome × State W

module _ {W : Type 0} where
  -- `handleCheckError`
  unfoldable pub handle_check_error : Check W → Error → Option Response
  handle_check_error c guard_redis_error =
      if c.config.redis_fail_open
      then none
      else if c.config.fail_secure
      then some (c.create_error_response 500 "Security check failed")
      else none
  handle_check_error c other_error =
      if c.config.fail_secure
      then some (c.create_error_response 500 "Security check failed")
      else none

  abbrev pub block_call : Check W → Response → Option Stash → HookCall
  block_call c r stash = record {
    check_name = c.name;
    reason = Option.get_or (Option.map (λ s. s.reason) stash) "";
    trigger_info = Option.get_or (Option.map (λ s. s.trigger_info) stash) "";
    passive_mode = false;
    status_code = some r.status_code;
  }

  -- `fireBlockHookFor`
  unfoldable pub fire_block_hook_for : Check W → Response → State W → State W
  fire_block_hook_for c r s = record s {
    trace = fire_block_hook c.config.hooks (block_call c r s.trace.stash) s.trace;
  }

  -- `execute`
  unfoldable pub execute : List (Check W) → State W → Option Response × State W
  execute [] s = (none, s)
  execute (c ∷ cs) s =
      let (outcome, s') = c.run s in
      elim outcome [
        | pass ↦ execute cs s'
        | respond r ↦ (some r, fire_block_hook_for c r s')
        | threw e ↦ elim (handle_check_error c e) [ some r ↦ (some r, s') | none ↦ execute cs s' ]
      ]

  -- `add`
  unfoldable pub add : List (Check W) → Check W → List (Check W)
  add cs c = cs ++ c ∷ []

  -- `insert`, for an index that is not negative: past the end it appends.
  unfoldable pub insert : List (Check W) → ℕ → Check W → List (Check W)
  insert cs i c = take i cs ++ c ∷ drop i cs

  -- `remove`
  unfoldable pub remove : List (Check W) → String → Bool × List (Check W)
  remove [] name = (false, [])
  remove (c ∷ cs) name =
      if str_eq c.name name
      then (true, cs)
      else (let (found, rest) = remove cs name in (found, c ∷ rest))

  -- `getCheckNames`
  unfoldable pub get_check_names : List (Check W) → List String
  get_check_names cs = map (λ c. c.name) cs
