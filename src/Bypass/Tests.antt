-- ===== src/Bypass/Tests.antt =====
-- Runs of core/bypass/handler.ts.
use guard_core_ts.Base.{ℕ, suc, ◌≡◌, refl, true, false, List, [], ◌∷◌, Option, none, some}
use guard_core_ts.Response.{Response}
use guard_core_ts.Paths.{Text, slash}
use guard_core_ts.RouteChecks.{truthy}
use guard_core_ts.Routing.{should_bypass_check}
use guard_core_ts.Bypass.{
  Served, security_bypass, pass_client, handle_passthrough, handle_security_bypass,
}

-- A decoder that refuses every byte: no path here has an escape.
abbrev no_bytes : List ℕ → Option Text
no_bytes bytes = none

abbrev api : Text
api = b'a' ∷ b'p' ∷ b'i' ∷ []

-- A handler that counts its calls.
abbrev next : ℕ → Response × ℕ
next n = (record { status_code = 200; body_text = ""; headers = [] }, suc n)

abbrev same : Response → Response
same r = r

abbrev untouched : Served ℕ
untouched = record { world = 0; events = [] }

bypassed :
    (handle_security_bypass no_bytes next same false (some ("all" ∷ [])) untouched).1.world ≡ 1
unfolding handle_security_bypass should_bypass_check
bypassed = refl

passive_goes_on :
    (handle_security_bypass no_bytes next same true (some ("all" ∷ [])) untouched)
    ≡ (none, record { world = 0; events = security_bypass ∷ [] })
unfolding handle_security_bypass should_bypass_check
passive_goes_on = refl

-- A request without a client address goes on to the next handler.
no_client : (handle_passthrough no_bytes next same none (slash ∷ api) [] untouched).1.world ≡ 1
unfolding handle_passthrough pass_client truthy
no_client = refl
