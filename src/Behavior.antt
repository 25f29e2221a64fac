-- ===== src/Behavior.antt =====
-- packages/core/src/handlers/behavior.ts: the tracker of behavior rules, its usage windows and its
-- actions. The matching of response bodies is left out.
pub mod Usage
pub mod Tests
use guard_core_ts.Base.{
  ℕ, ◌+◌, ◌*◌, String, Bool, true, false, List, [], ◌∷◌, ◌++◌, Option, none, some, ltb, leb, length,
  filter, if◌then◌else◌, str_eq, ◌<>◌,
}
use mathlib.Core.Option
use guard_core_ts.JsMap.{JsMap, get, put, delete, size, first_key}
use guard_core_ts.Activity.{AgentEvent}
use guard_core_ts.Redis.{Result, ok, redis_error}
use guard_core_ts.IpBan.{Bans, Services, ban_ip}
use guard_core_ts.RateLimit.Window.{slide}

-- `MAX_TRACKED_ENDPOINTS` and `MAX_TRACKED_CLIENTS_PER_ENDPOINT`
unfoldable pub max_rows : ℕ
max_rows = 10000

pub data Action : Type 0 where
  ban log throttle alert : Action

abbrev pub action_name : Action → String
action_name ban = "ban"
action_name log = "log"
action_name throttle = "throttle"
action_name alert = "alert"

-- A rule, without its kind and its response pattern.
pub record Rule : Type 0 where
  pub threshold : ℕ
  pub window : ℕ
  pub action : Action
  pub ban_duration : Option ℕ
  pub has_custom_action : Bool

abbrev pub Usage : Type 0
Usage = JsMap (JsMap (List ℕ))

-- A missing key of a full map evicts the oldest entry, of `localRow`.
unfoldable pub room_for {ℓ} : {V : Type ℓ} → JsMap V → String → JsMap V
room_for m key = elim (get m key) [
  | some v ↦ m
  | none ↦
      if leb max_rows (size m)
      then elim (first_key m) [ some oldest ↦ delete m oldest | none ↦ m ]
      else m
]

-- `localRow`, with what is then stored in the row.
unfoldable pub store_row : Usage → String → String → List ℕ → Usage
store_row usage bucket key ts =
    put (room_for usage bucket) bucket
      (put (room_for (Option.get_or (get usage bucket) []) key) key ts)

-- The row of a client in a bucket.
unfoldable pub local_row : Usage → String → String → List ℕ
local_row usage bucket key = Option.get_or (get (Option.get_or (get usage bucket) []) key) []

-- `trackEndpointUsage`
unfoldable pub track_endpoint_usage : Usage → String → String → Rule → ℕ → Bool × Usage
track_endpoint_usage usage endpoint_id client_ip rule now =
    let ts = slide now rule.window (local_row usage endpoint_id client_ip) in
    (ltb rule.threshold (length ts), store_row usage endpoint_id client_ip ts)

-- `getRecentEventCount`, at a time: `ts >= now - window`.
unfoldable pub get_recent_event_count : Usage → String → ℕ → ℕ → ℕ
get_recent_event_count [] ip window now = 0
get_recent_event_count ((endpoint, clients) ∷ usage) ip window now =
    let rest = get_recent_event_count usage ip window now in
    if str_eq ip ""
    then 0
    else length (filter (λ t. leb now (t + window * 1000)) (Option.get_or (get clients ip) []))
      + rest

module _ {S : Type 0} (services : Services S) (has_ban_manager : Bool) where
  -- `executeActiveModeAction`: what was done, or the error of the ban.
  unfoldable pub execute_active_mode_action :
      Rule → Action → String → ℕ → Bans S → Result String × Bans S
  execute_active_mode_action rule ban client_ip now s =
      if rule.has_custom_action
      then (ok "ban", s)
      else if has_ban_manager
      then (let (r, s') =
            ban_ip services client_ip (Option.get_or rule.ban_duration 3600) "behavioral_violation"
              now s in
          elim r [
            | ok applied ↦ (ok (if applied then "ban" else "tracked"), s')
            | redis_error ↦ (redis_error, s')
          ])
      else (ok "tracked", s)
  execute_active_mode_action rule other client_ip now s = (ok (action_name other), s)

  -- `applyAction`: the event follows the action, in passive mode nothing is done.
  unfoldable pub apply_action :
      Bool
      → Bool
      → Rule
      → String
      → String
      → ℕ
      → Bans S × List AgentEvent
      → Result (Unit {0}) × Bans S × List AgentEvent
  apply_action passive_mode has_agent rule client_ip details now (s, events) =
      let (r, s') =
        if passive_mode
        then (ok "logged_only", s)
        else execute_active_mode_action rule rule.action client_ip now s in
      elim r [
        | redis_error ↦ (redis_error, s', events)
        | ok action_taken ↦ (
          ok tt,
          s',
          if has_agent
              then events
                ++ record {
                  event_type = "behavioral_violation";
                  ip_address = client_ip;
                  action_taken = action_taken;
                  reason = "Behavioral rule violated: " <> details;
                }
                  ∷ []
              else events,
        )
      ]
