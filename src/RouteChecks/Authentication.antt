-- ===== src/RouteChecks/Authentication.antt =====
-- Who gets past the authentication check (core/checks/implementations/authentication.ts).
use guard_core_ts.Base.{Bool, Option, String, false, inl, inr, none, refl, some, true, ℕ, ◌≡◌, ◌⊎◌}
use mathlib.Core.Option
use guard_core_ts.JsMap.{JsMap}
use guard_core_ts.Response.{Response}
use guard_core_ts.RouteChecks.Credentials.{IsFirst}
use guard_core_ts.RouteChecks.{
  Config, Left, RouteConfig, Verdict, accepted, handle_auth_failure, on_verdict, or_no_verifier,
  rejected, verifier_threw, verify,
}

-- The credential was found, there is a verifier, and it accepts the credential as `v`.
abbrev pub Accepts :
    {V : Type 0} → (Option String × String) × Option (String → Verdict V) → V → Type 0
Accepts ((none, reason), verifier) v = ⊥
Accepts ((some text, reason), none) v = ⊥
Accepts ((some text, reason), some f) v = f text ≡ accepted v

is_accepted : {V : Type 0} → Verdict V → Bool
is_accepted verifier_threw = false
is_accepted rejected = false
is_accepted (accepted v) = true

module _ {V : Type 0} (error_response : ℕ → String → Response) (c : Config V) where
  -- The credential that was read, with the verifier of the route or else of the configuration.
  abbrev Grants :
      (Option String × String) × Option (String → Verdict V)
      → String
      → (String → Verdict V)
      → V
      → Type 0
  Grants found text f v = (found.0.0 ≡ some text) × (found.1 ≡ some f) × (f text ≡ accepted v)

  -- The verifier in force for a route.
  abbrev pub IsInForce : Option String → RouteConfig V → (String → Verdict V) → Type 0
  IsInForce (some scheme) r f = IsFirst r.auth_verifier c.global_verifier f
  IsInForce none r f = IsFirst r.api_key_verifier c.global_verifier f

  verdict-principal :
      (w : Verdict V) (r : RouteConfig V) (s : Left V)
      → ((on_verdict error_response c w r s).1.auth_principal ≡ s.auth_principal)
        ⊎ ((v : V) × (w ≡ accepted v)
            × ((on_verdict error_response c w r s).1.auth_principal ≡ some v))
  unfolding on_verdict handle_auth_failure
  verdict-principal verifier_threw r s = inl refl
  verdict-principal rejected r s = inl refl
  verdict-principal (accepted v) r s = inr (v, refl, refl)

  or_no_verifier-principal :
      (r : RouteConfig V) (p : Option Response × Left V)
      → (or_no_verifier error_response c r p).1.auth_principal ≡ p.1.auth_principal
  unfolding handle_auth_failure
  or_no_verifier-principal r (some response, s) = refl
  or_no_verifier-principal r (none, s) = refl

  -- In either mode, the principal of a request is left as it was, unless the verifier accepted the
  -- credential of the request: then it is what the verifier answered.
  pub verify-principal :
      (found : (Option String × String) × Option (String → Verdict V)) (r : RouteConfig V)
      (s : Left V)
      → ((verify error_response c found r s).1.auth_principal ≡ s.auth_principal)
        ⊎ ((v : V) × Accepts found v
            × ((verify error_response c found r s).1.auth_principal ≡ some v))
  unfolding verify handle_auth_failure
  verify-principal ((none, reason), verifier) r s =
      inl (
        or_no_verifier-principal r (handle_auth_failure error_response c reason "require_auth" r s))
  verify-principal ((some text, reason), none) r s = inl refl
  verify-principal ((some text, reason), some f) r s = verdict-principal (f text) r s
