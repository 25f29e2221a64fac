-- ===== src/RateLimitCheck.antt =====
-- packages/core/src/core/checks/implementations/rate-limit.ts: the rate-limit check, its tiers and
-- the auto-ban that it feeds. The readings of the clock in one check are one time `now`. Lower case and
-- the country of an address come from outside and are parameters.
pub mod Tiers
pub mod Passive
pub mod Refusal
pub mod Tests
use guard_core_ts.Base.{
  ℕ, String, Bool, true, false, List, [], ◌∷◌, ◌++◌, Option, none, some, if◌then◌else◌, str_eq,
  ◌<>◌, decimal, not, ◌||◌, ◌==◌,
}
use mathlib.Core.Option
use guard_core_ts.JsMap.{JsMap, get}
use guard_core_ts.Activity.{AgentEvent}
use guard_core_ts.Response.{Response}
use guard_core_ts.Redis.{Result, ok, redis_error}
use guard_core_ts.IpBan.{Bans, Services}
use guard_core_ts.Violations.{
  Counts, ThresholdConfig, increment_suspicious_counts, try_threshold_ban,
}
use guard_core_ts.Pipeline.{Outcome, pass, respond, threw, guard_redis_error}
use guard_core_ts.RateLimit.Redis.{RedisClient}
use guard_core_ts.RateLimit.Manager.{Setup, Manager, check_rate_limit}

-- The limits that a route configuration may carry. A session limit of 0 stands for every one that is
-- not a positive number.
pub record RouteLimits : Type 0 where
  pub rate_limit : Option ℕ
  pub rate_limit_window : Option ℕ
  pub session_limits : JsMap ℕ
  pub geo_rate_limits : JsMap (ℕ × ℕ)

pub record Request : Type 0 where
  pub is_whitelisted : Bool
  pub is_exempt : Bool
  pub client_host : Option String
  pub url_path : String
  pub headers : JsMap String
  pub route_config : Option RouteLimits

pub record CheckConfig : Type 0 where
  pub enable_rate_limiting : Bool
  pub enable_rate_limit_auto_ban : Bool
  pub passive_mode : Bool
  pub endpoint_rate_limits : JsMap (ℕ × ℕ)
  pub rate_limit : ℕ
  pub rate_limit_window : ℕ
  pub threshold : ThresholdConfig

-- The state that the check reaches: the rate-limit manager, the violation counters, the ban manager
-- and the events sent on the event bus.
pub record Engine (S B : Type 0) : Type 0 where
  pub manager : Manager S
  pub counts : Counts
  pub bans : Bans B
  pub bus : List AgentEvent

-- What the check holds that does not change.
pub record Context (S B : Type 0) : Type 0 where
  pub client : RedisClient S
  pub setup : Setup
  pub create_error_response : ℕ → String → Response
  pub config : CheckConfig
  pub services : Services B
  pub has_ban_manager : Bool
  pub get_country : Option (String → Option String)
  pub to_lower_case : String → String

-- The first tier that does not pass ends the check.
infixl 5 ◌then_tier◌
abbrev pub ◌then_tier◌ {ℓ} : {E : Type ℓ} → Outcome × E → (E → Outcome × E) → Outcome × E
(pass, e) then_tier k = k e
(respond r, e) then_tier k = (respond r, e)
(threw x, e) then_tier k = (threw x, e)

module _ {S B : Type 0} (c : Context S B) where
  abbrev pub after_ban : Counts → Result Bool × Bans B → Engine S B → Outcome × Engine S B
  after_ban counts (ok b, bans) e = (pass, record e { counts = counts; bans = bans })
  after_ban counts (redis_error, bans) e =
      (threw guard_redis_error, record e { counts = counts; bans = bans })

  -- `recordRateLimitAutoBan`: it passes, or throws what `banIp` throws.
  unfoldable pub record_rate_limit_auto_ban : String → ℕ → Engine S B → Outcome × Engine S B
  record_rate_limit_auto_ban client_ip now e =
      let counts = increment_suspicious_counts e.counts client_ip ("rate_limit" ∷ []) in
      if not c.config.enable_rate_limit_auto_ban
      then (pass, e)
      else after_ban counts
          (try_threshold_ban c.services c.config.threshold c.has_ban_manager counts client_ip
            ("rate_limit" ∷ []) "rate_limit_exceeded" now e.bans)
          e

  -- The middleware event of a tier; the global tier has none.
  abbrev pub send_tier_event : String → String → String → Engine S B → Engine S B
  send_tier_event client_ip event_type reason e = if str_eq event_type "" then e else record e {
    bus =
        e.bus
        ++ record {
          event_type = event_type;
          ip_address = client_ip;
          action_taken = if c.config.passive_mode then "logged_only" else "request_blocked";
          reason = reason;
        }
          ∷ [];
  }

  -- What follows the answer of `checkRateLimit`.
  unfoldable pub on_answer :
      String → String → String → ℕ → Option Response → Engine S B → Outcome × Engine S B
  on_answer client_ip event_type reason now none e = (pass, e)
  on_answer client_ip event_type reason now (some r) e =
      let e' = send_tier_event client_ip event_type reason e in
      if c.config.passive_mode
      then (pass, e')
      else record_rate_limit_auto_ban client_ip now e' then_tier λ e''. (respond r, e'')

  -- `applyRateLimitCheck`
  unfoldable pub apply_rate_limit_check :
      String → ℕ → ℕ → String → String → Option String → ℕ → Engine S B → Outcome × Engine S B
  apply_rate_limit_check client_ip limit window event_type reason endpoint now e =
      let (answer, manager) =
        check_rate_limit c.client c.setup c.create_error_response client_ip endpoint limit window
          now e.manager in
      on_answer client_ip event_type reason now answer (record e { manager = manager })

  -- The route's own limit.
  unfoldable pub check_route_limit :
      String → String → RouteLimits → ℕ → Engine S B → Outcome × Engine S B
  check_route_limit client_ip url_path route now e = elim route.rate_limit [
    | none ↦ (pass, e)
    | some limit ↦
        (let window = Option.get_or route.rate_limit_window 60 in
          apply_rate_limit_check client_ip limit window "decorator_violation"
            ("Route-specific rate limit exceeded: "
              <> decimal limit
              <> " requests per "
              <> decimal window
              <> "s")
            (some url_path) now e)
  ]

  -- `checkSessionLimit`: the entries in order, with the window of the route or else the global one.
  unfoldable pub check_session_limit :
      String → JsMap String → ℕ → JsMap ℕ → ℕ → Engine S B → Outcome × Engine S B
  check_session_limit client_ip headers window [] now e = (pass, e)
  check_session_limit client_ip headers window ((name, limit) ∷ limits) now e =
      let value = Option.get_or (get headers (c.to_lower_case name)) "" in
      if limit == 0 || str_eq value ""
      then check_session_limit client_ip headers window limits now e
      else apply_rate_limit_check client_ip limit window "decorator_violation"
          ("Session rate limit exceeded for header '"
            <> name
            <> "': "
            <> decimal limit
            <> " requests per "
            <> decimal window
            <> "s per session")
          (some ("session:" <> c.to_lower_case name <> ":" <> value)) now e
        then_tier check_session_limit client_ip headers window limits now

  -- The entry of `endpointRateLimits` for the path.
  unfoldable pub on_endpoint_limit :
      String → String → ℕ → Option (ℕ × ℕ) → Engine S B → Outcome × Engine S B
  on_endpoint_limit client_ip url_path now none e = (pass, e)
  on_endpoint_limit client_ip url_path now (some (limit, window)) e =
      apply_rate_limit_check client_ip limit window "dynamic_rule_violation"
        ("Endpoint-specific rate limit exceeded: "
          <> decimal limit
          <> " requests per "
          <> decimal window
          <> "s for "
          <> url_path)
        (some url_path) now e

  unfoldable pub check_endpoint_limit : String → String → ℕ → Engine S B → Outcome × Engine S B
  check_endpoint_limit client_ip url_path now e =
      on_endpoint_limit client_ip url_path now (get c.config.endpoint_rate_limits url_path) e

  -- The tier of a country: its own entry, or else that of "*".
  unfoldable pub geo_tier : JsMap (ℕ × ℕ) → Option String → Option (ℕ × ℕ)
  geo_tier limits none = get limits "*"
  geo_tier limits (some country) = elim (get limits country) [
    | some tier ↦ some tier
    | none ↦ get limits "*"
  ]

  unfoldable pub on_geo_tier :
      String → String → Option String → ℕ → Option (ℕ × ℕ) → Engine S B → Outcome × Engine S B
  on_geo_tier client_ip url_path country now none e = (pass, e)
  on_geo_tier client_ip url_path country now (some (limit, window)) e =
      apply_rate_limit_check client_ip limit window "decorator_violation"
        ("Geo rate limit exceeded for "
          <> Option.get_or country "unknown"
          <> ": "
          <> decimal limit
          <> " requests per "
          <> decimal window
          <> "s")
        (some url_path) now e

  unfoldable pub with_geo_handler :
      String
      → String
      → JsMap (ℕ × ℕ)
      → ℕ
      → Option (String → Option String)
      → Engine S B
      → Outcome × Engine S B
  with_geo_handler client_ip url_path limits now none e = (pass, e)
  with_geo_handler client_ip url_path limits now (some country_of) e =
      let country = country_of client_ip in
      on_geo_tier client_ip url_path country now (geo_tier limits country) e

  -- `checkGeoRateLimit`
  unfoldable pub check_geo_rate_limit :
      String → String → JsMap (ℕ × ℕ) → ℕ → Engine S B → Outcome × Engine S B
  check_geo_rate_limit client_ip url_path limits now e =
      with_geo_handler client_ip url_path limits now c.get_country e

  -- The configuration of a request without a route: no tier of its own.
  abbrev pub no_limits : RouteLimits
  no_limits = record {
    rate_limit = none;
    rate_limit_window = none;
    session_limits = [];
    geo_rate_limits = [];
  }

  -- The tiers, in the order of `check`.
  unfoldable pub tiers : String → Request → ℕ → Engine S B → Outcome × Engine S B
  tiers client_ip request now e =
      let route = Option.get_or request.route_config no_limits in
      check_route_limit client_ip request.url_path route now e
      then_tier check_session_limit client_ip request.headers
          (Option.get_or route.rate_limit_window c.config.rate_limit_window) route.session_limits
          now
      then_tier check_endpoint_limit client_ip request.url_path now
      then_tier check_geo_rate_limit client_ip request.url_path route.geo_rate_limits now
      then_tier apply_rate_limit_check client_ip c.config.rate_limit c.config.rate_limit_window ""
          "" none now

  -- `check`
  unfoldable pub check : Request → ℕ → Engine S B → Outcome × Engine S B
  check request now e =
      if request.is_whitelisted || request.is_exempt
      then (pass, e)
      else if not c.config.enable_rate_limiting
      then (pass, e)
      else elim request.client_host [
        | none ↦ (pass, e)
        | some client_ip ↦ if str_eq client_ip "" then (pass, e) else tiers client_ip request now e
      ]
