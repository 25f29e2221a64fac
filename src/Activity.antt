-- ===== src/Activity.antt =====
-- What a request leaves behind besides its response: core/block-events.ts and `logActivity` of
-- utils.ts (packages/core/src). Log lines go to an injected logger and are not modelled; the block
-- stash on the request state, the `onBlock` hook calls and the agent events are.
use guard_core_ts.Base.{
  ℕ, String, Bool, true, List, [], ◌∷◌, ◌++◌, Option, none, some, any, if◌then◌else◌, str_eq, ◌||◌,
  ◌&&◌, not,
}

-- `request.state._guardBlockStash`
pub record Stash : Type 0 where
  pub reason : String
  pub trigger_info : String

-- The payload of one `onBlock` call: `status_code` is null where no response is sent.
pub record HookCall : Type 0 where
  pub check_name : String
  pub reason : String
  pub trigger_info : String
  pub passive_mode : Bool
  pub status_code : Option ℕ

-- An event for the agent, without its timestamp and metadata.
pub record AgentEvent : Type 0 where
  pub event_type : String
  pub ip_address : String
  pub action_taken : String
  pub reason : String

pub record Trace : Type 0 where
  pub stash : Option Stash
  pub hooks : List HookCall
  pub events : List AgentEvent

-- The configuration that the dispatch reads: `onBlock` is set or not.
pub record HookConfig : Type 0 where
  pub has_on_block : Bool
  pub muted_check_logs : List String

abbrev pub includes : List String → String → Bool
includes names name = any (λ n. str_eq n name) names

-- `ON_BLOCK_EXCLUDED_CHECK_NAMES`
abbrev pub on_block_excluded : List String
on_block_excluded = "custom_request" ∷ "custom_validators" ∷ "https_enforcement" ∷ []

-- `fireBlockHook`, with `invokeBlockHook`: a hook that throws is caught, so a call is all there is.
unfoldable pub fire_block_hook : HookConfig → HookCall → Trace → Trace
fire_block_hook c call t =
    if not c.has_on_block || includes on_block_excluded call.check_name
    then t
    else record t { hooks = t.hooks ++ call ∷ [] }

-- `logActivity` of type 'suspicious' with hooks. Active mode stashes the reason; passive mode fires
-- the hook at once, unless the check is muted.
unfoldable pub log_activity : HookConfig → Bool → String → String → String → Trace → Trace
log_activity c passive check_name reason trigger t =
    if not passive
    then record t { stash = some (record { reason = reason; trigger_info = trigger }) }
    else if c.has_on_block
        && not (not (str_eq check_name "") && includes c.muted_check_logs check_name)
    then fire_block_hook c
        (record {
          check_name = check_name;
          reason = reason;
          trigger_info = trigger;
          passive_mode = true;
          status_code = none;
        })
        t
    else t

unfoldable pub send_event : AgentEvent → Trace → Trace
send_event e t = record t { events = t.events ++ e ∷ [] }
