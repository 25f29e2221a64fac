-- ===== src/Routing.antt =====
-- packages/core/src/core/routing/resolver.ts: which route configuration a request has. The decorator's
-- look-up and lower case come from outside.
pub mod Longest
pub mod Tests
use Prim.Native.Char.{code}
use Prim.Native.String
use mathlib.Core.Option
use guard_core_ts.Base.{
  ℕ, ◌+◌, String, Bool, true, false, List, [], ◌∷◌, ◌++◌, Option, none, some, map, ltb, not, ◌&&◌,
  ◌||◌, if◌then◌else◌, str_eq, ◌<>◌,
}
use guard_core_ts.Activity.{includes}
use guard_core_ts.RouteChecks.{truthy, strip_prefix, is_some}

-- `text.length`: a character beyond the basic plane counts for two.
unfoldable pub text_length : String → ℕ
text_length String.[] = 0
text_length (String.◌∷◌ c s) = (if ltb (code c) 65536 then 1 else 2) + text_length s

-- `PathRouteConfigEntry`
pub record Entry (A : Type 0) : Type 0 where
  pub method : Option String
  pub path : String
  pub config : A

-- A text up to `/*` at its end, if it ends so.
unfoldable pub wildcard_prefix : String → Option String
wildcard_prefix String.[] = none
wildcard_prefix (String.◌∷◌ c s) =
    let rest = wildcard_prefix s in
    if str_eq (String.◌∷◌ c s) "/*" then some "" else Option.map (λ t. String.◌∷◌ c t) rest

unfoldable pub path_matches : Option String → String → String → Bool
path_matches none entry_path path = str_eq entry_path path
path_matches (some prefix) entry_path path =
    str_eq path prefix || is_some (strip_prefix (prefix <> "/") path)

unfoldable pub method_matches : Option String → String → Bool
method_matches none method = true
method_matches (some m) method = str_eq m method

unfoldable pub entry_matches : {A : Type 0} → String → String → Entry A → Bool
entry_matches method path e =
    method_matches e.method method && path_matches (wildcard_prefix e.path) e.path path

module _ {A : Type 0} where
  -- The stable sort by falling length of the path, one entry at a time.
  unfoldable pub insert : Entry A → List (Entry A) → List (Entry A)
  insert e [] = e ∷ []
  insert e (d ∷ entries) =
      let rest = insert e entries in
      if ltb (text_length e.path) (text_length d.path) then d ∷ rest else e ∷ d ∷ entries

  unfoldable pub sort : List (Entry A) → List (Entry A)
  sort [] = []
  sort (e ∷ entries) = insert e (sort entries)

  abbrev pub lowered : (String → String) → Entry A → Entry A
  lowered lower e = record e { method = Option.map lower (truthy e.method) }

  -- `registerPathRouteConfigs`
  unfoldable pub register : (String → String) → List (Entry A) → List (Entry A) → List (Entry A)
  register lower entries path_entries = sort (path_entries ++ map (lowered lower) entries)

  -- `matchPathEntry`, of the method in lower case.
  unfoldable pub match_path_entry : String → String → List (Entry A) → Option (Entry A)
  match_path_entry method path [] = none
  match_path_entry method path (e ∷ entries) =
      let rest = match_path_entry method path entries in
      if entry_matches method path e then some e else rest

  -- How the look-up of a route's identity in the decorator ends, a throw and a decorator without
  -- look-up being unknown.
  unfoldable pub lookup_route_id : Option (String → Option A) → Option String → Option A × Bool
  lookup_route_id decorator none = (none, false)
  lookup_route_id none (some id) = (none, false)
  lookup_route_id (some look_up) (some id) = (look_up id, not (is_some (look_up id)))

  unfoldable pub first_config : Option A → Option A → Option A
  first_config none fallback = fallback
  first_config (some c) fallback = some c

  -- `getRouteConfig`: the configuration, and whether the route is marked unresolved.
  unfoldable pub get_route_config :
      (String → String)
      → Option (String → Option A)
      → List (Entry A)
      → Option A
      → Option String
      → String
      → String
      → Option A × Bool
  get_route_config lower decorator entries (some direct) route_id method path = (some direct, false)
  get_route_config lower decorator entries none route_id method path =
      let (routed, unresolved) = lookup_route_id decorator (truthy route_id) in
      (
        first_config routed
            (Option.map (λ (e : Entry A). e.config) (match_path_entry (lower method) path entries)),
        unresolved,
      )

-- `shouldBypassCheck`, of the bypassed checks of a route, if it has a configuration.
unfoldable pub should_bypass_check : String → Option (List String) → Bool
should_bypass_check check_name none = false
should_bypass_check check_name (some bypassed) =
    includes bypassed check_name || includes bypassed "all"

-- `getCloudProvidersToCheck`, of the providers of the route and of the configuration.
unfoldable pub filled : List String → Option (List String) → Option (List String)
filled [] fallback = fallback
filled (p ∷ providers) fallback = some (p ∷ providers)

unfoldable pub get_cloud_providers_to_check :
    Option (List String) → List String → Option (List String)
get_cloud_providers_to_check none configured = filled configured none
get_cloud_providers_to_check (some providers) configured = filled providers (filled configured none)
