-- ===== src/RateLimitCheck/Tiers.antt =====
-- Induction over the tiers of the rate-limit check (core/checks/implementations/rate-limit.ts): what
-- each tier does, and what a sequence of two keeps, the whole check does.
use guard_core_ts.Base.{
  ℕ, ◌≡◌, String, [], ◌∷◌, Option, none, some, str_eq, ◌||◌, not, ◌==◌, Option-cases, inl, inr,
  if_both,
}
use mathlib.Core.Option
use guard_core_ts.JsMap.{JsMap, get}
use guard_core_ts.Pipeline.{Outcome, pass}
use guard_core_ts.RateLimitCheck.{
  Engine, Context, Request, RouteLimits, ◌then_tier◌, apply_rate_limit_check, check_route_limit,
  check_session_limit, check_endpoint_limit, check_geo_rate_limit, on_endpoint_limit, on_geo_tier,
  with_geo_handler, tiers, check,
}

module _ {S B : Type 0} (c : Context S B) (ip : String)
    (R : Engine S B → Outcome × Engine S B → Type 0) (idle : (e : Engine S B) → R e (pass, e))
    (both : (e : Engine S B) (r : Outcome × Engine S B) (k : Engine S B → Outcome × Engine S B)
      → R e r
      → ((e' : Engine S B) → R e' (k e'))
      → R e (r then_tier k))
    (apply : (limit window : ℕ) (event_type reason : String) (endpoint : Option String) (now : ℕ)
        (e : Engine S B)
      → R e (apply_rate_limit_check c ip limit window event_type reason endpoint now e)) where
  route-Holds :
      (path : String) (route : RouteLimits) (now : ℕ) (e : Engine S B)
      → R e (check_route_limit c ip path route now e)
  unfolding check_route_limit
  route-Holds path route now e = elim (Option-cases route.rate_limit) [
    | inl n ↦ rw n (idle e)
    | inr (limit, n) ↦ rw n (apply limit _ _ _ _ now e)
  ]

  session-Holds :
      (headers : JsMap String) (window : ℕ) (limits : JsMap ℕ) (now : ℕ) (e : Engine S B)
      → R e (check_session_limit c ip headers window limits now e)
  unfolding check_session_limit
  session-Holds headers window [] now e = (idle e)
  session-Holds headers window ((name, limit) ∷ limits) now e =
      if_both (R e)
        (limit == 0 || str_eq (Option.get_or (get headers (c.to_lower_case name)) "") "")
        (session-Holds headers window limits now e)
        (both e _ _ (apply limit window _ _ _ now e) (session-Holds headers window limits now))

  on_endpoint-Holds :
      (path : String) (now : ℕ) (o : Option (ℕ × ℕ)) (e : Engine S B)
      → R e (on_endpoint_limit c ip path now o e)
  unfolding on_endpoint_limit
  on_endpoint-Holds path now none e = idle e
  on_endpoint-Holds path now (some (limit, window)) e = apply limit window _ _ _ now e

  endpoint-Holds :
      (path : String) (now : ℕ) (e : Engine S B) → R e (check_endpoint_limit c ip path now e)
  unfolding check_endpoint_limit
  endpoint-Holds path now e = on_endpoint-Holds path now _ e

  on_geo_tier-Holds :
      (path : String) (country : Option String) (now : ℕ) (o : Option (ℕ × ℕ)) (e : Engine S B)
      → R e (on_geo_tier c ip path country now o e)
  unfolding on_geo_tier
  on_geo_tier-Holds path country now none e = idle e
  on_geo_tier-Holds path country now (some (limit, window)) e = apply limit window _ _ _ now e

  with_geo-Holds :
      (path : String) (limits : JsMap (ℕ × ℕ)) (now : ℕ) (h : Option (String → Option String))
      (e : Engine S B)
      → R e (with_geo_handler c ip path limits now h e)
  unfolding with_geo_handler
  with_geo-Holds path limits now none e = idle e
  with_geo-Holds path limits now (some country_of) e = on_geo_tier-Holds path _ now _ e

  geo-Holds :
      (path : String) (limits : JsMap (ℕ × ℕ)) (now : ℕ) (e : Engine S B)
      → R e (check_geo_rate_limit c ip path limits now e)
  unfolding check_geo_rate_limit
  geo-Holds path limits now e = with_geo-Holds path limits now c.get_country e

  tiers-Holds : (request : Request) (now : ℕ) (e : Engine S B) → R e (tiers c ip request now e)
  unfolding tiers
  tiers-Holds request now e =
      both e _ _
        (both e _ _
          (both e _ _ (both e _ _ (route-Holds _ _ now e) (session-Holds _ _ _ now))
            (endpoint-Holds _ now))
          (geo-Holds _ _ now))
        (apply _ _ _ _ _ now)

  pub check-Holds :
      (request : Request) (now : ℕ) (e : Engine S B)
      → request.client_host ≡ some ip
      → R e (check c request now e)
  unfolding check
  check-Holds request now e host = rw host (
      if_both (R e) (request.is_whitelisted || request.is_exempt) (idle e) (
        if_both (R e) (not c.config.enable_rate_limiting) (idle e)
          (if_both (R e) (str_eq ip "") (idle e) (tiers-Holds request now e))))

  -- A request without a host is let through at once.
  pub no_host-Holds :
      (request : Request) (now : ℕ) (e : Engine S B)
      → request.client_host ≡ none
      → R e (check c request now e)
  unfolding check
  no_host-Holds request now e host = rw host (
      if_both (R e) (request.is_whitelisted || request.is_exempt) (idle e)
        (if_both (R e) (not c.config.enable_rate_limiting) (idle e) (idle e)))
