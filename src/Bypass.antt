-- ===== src/Bypass.antt =====
-- packages/core/src/core/bypass/handler.ts, with isPathExcluded of core/validation/validator.ts: when a request
-- is answered without the checks. The next handler and the modifier of responses come from outside.
pub mod Tests
use guard_core_ts.Base.{
  ℕ, String, Bool, true, false, List, [], ◌∷◌, ◌++◌, Option, none, some, if◌then◌else◌,
}
use guard_core_ts.Response.{Response}
use guard_core_ts.Paths.{Text, path_is_excluded}
use guard_core_ts.RouteChecks.{truthy}
use guard_core_ts.Routing.{should_bypass_check}

pub data BypassEvent : Type 0 where
  path_excluded security_bypass : BypassEvent

-- The world that the next handler changes, and the events sent.
pub record Served (W : Type 0) : Type 0 where
  pub world : W
  pub events : List BypassEvent

module _ {W : Type 0} (utf8 : List ℕ → Option Text) (call_next : W → Response × W)
    (apply_modifier : Response → Response) where
  abbrev pub proceed : Served W → Option Response × Served W
  proceed s = let (r, w) = call_next s.world in (some (apply_modifier r), record s { world = w })

  abbrev pub sends : BypassEvent → Served W → Served W
  sends e s = record s { events = s.events ++ e ∷ [] }

  -- `handlePassthrough`, of the client, if any, the path and the exclusions.
  unfoldable pub pass_client :
      Option String → Text → List Text → Served W → Option Response × Served W
  pass_client none path exclude_paths s = proceed s
  pass_client (some client) path exclude_paths s =
      if path_is_excluded utf8 path exclude_paths
      then proceed (sends path_excluded s)
      else (none, s)

  unfoldable pub handle_passthrough :
      Option String → Text → List Text → Served W → Option Response × Served W
  handle_passthrough client_host path exclude_paths s =
      pass_client (truthy client_host) path exclude_paths s

  -- `handleSecurityBypass`, of the bypassed checks of the route, if it has a configuration.
  unfoldable pub handle_security_bypass :
      Bool → Option (List String) → Served W → Option Response × Served W
  handle_security_bypass passive_mode bypassed s =
      if should_bypass_check "all" bypassed
      then (if passive_mode
          then (none, sends security_bypass s)
          else proceed (sends security_bypass s))
      else (none, s)
