-- ===== src/Routing/Tests.antt =====
-- Runs of core/routing/resolver.ts, and the theorem about it at a concrete input.
use mathlib.Core.Option
use guard_core_ts.Base.{ℕ, ◌≡◌, refl, String, true, List, [], ◌∷◌, none, some}
use guard_core_ts.RouteChecks.{truthy, strip_prefix}
use guard_core_ts.Routing.{
  Entry, text_length, wildcard_prefix, path_matches, method_matches, entry_matches, insert, sort,
  register, match_path_entry, lookup_route_id, first_config, get_route_config,
}
use guard_core_ts.Routing.Longest.{IsLongest, register-IsLongest}

abbrev same : String → String
same s = s

abbrev entries : List (Entry ℕ)
entries =
    record { method = none; path = "/admin"; config = 1 }
    ∷ record { method = none; path = "/admin/*"; config = 2 }
    ∷ record { method = some "post"; path = "/login"; config = 3 }
    ∷ []

-- The wildcard takes the exact path as well, since its own text is longer.
wildcard_first :
    Option.map
      (λ (e : Entry ℕ). e.config)
      (match_path_entry "get" "/admin" (register same entries []))
    ≡ some 2
unfolding match_path_entry register sort insert text_length entry_matches method_matches
    path_matches wildcard_prefix strip_prefix truthy
wildcard_first = refl

other_method : match_path_entry "get" "/login" (register same entries []) ≡ none
unfolding match_path_entry register sort insert text_length entry_matches method_matches
    path_matches wildcard_prefix strip_prefix truthy
other_method = refl

unknown_route :
    get_route_config {A = ℕ} same (some (λ id. none)) [] none (some "orders") "get" "/"
    ≡ (none, true)
unfolding get_route_config lookup_route_id first_config match_path_entry truthy
unknown_route = refl

register-IsLongest_example :
    IsLongest "get" "/admin" entries (match_path_entry "get" "/admin" (register same entries []))
unfolding truthy
register-IsLongest_example = register-IsLongest same entries [] "get" "/admin"
