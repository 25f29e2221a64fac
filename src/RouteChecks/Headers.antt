-- ===== src/RouteChecks/Headers.antt =====
-- Which requests carry the headers that their route requires (core/checks/implementations/required-headers.ts).
use guard_core_ts.Base.{
  ℕ, ◌≡◌, ◌≢◌, ◌↔◌, refl, ◌⊎◌, String, false, [], ◌∷◌, Option, none, some, All, eq_iff, arith,
}
use guard_core_ts.JsMap.{JsMap, get}
use guard_core_ts.Response.{Response}
use guard_core_ts.RouteChecks.{
  Config, Left, truthy, report_header_violation, header_fault, or_report, check_headers,
}

-- The request's value of a header, if any, satisfies what is required of it.
abbrev pub Satisfies : String → Option String → Type 0
Satisfies expected none = ⊥
Satisfies expected (some actual) = (expected ≡ "required") ⊎ (actual ≡ expected)

fault_iff :
    (header expected : String) (value : Option String)
    → (header_fault header expected value ≡ none) ↔ Satisfies expected value
unfolding header_fault
fault_iff header expected none = ((λ e. ground arith), (λ h. absurd h))
fault_iff header expected (some actual) =
    ground (arith, eq_iff expected "required", eq_iff actual expected)

some≢none : {A : Type 0} {a : A} → some a ≢ none
some≢none e = ground arith

module _ {V : Type 0} (error_response : ℕ → String → Response) (c : Config V) where
  or_report-lets_in :
      (lower : String → String) (header : String) (fault : Option String) (s : Left V)
      (rest : Option Response × Left V)
      → c.passive_mode ≡ false
      → ((or_report error_response c lower header fault s rest).0 ≡ none)
        ↔ ((fault ≡ none) × (rest.0 ≡ none))
  unfolding or_report report_header_violation
  or_report-lets_in lower header none s rest active = ((λ e. (refl, e)), (λ h. h.1))
  or_report-lets_in lower header (some reason) s rest active =
      rw active ((λ e. absurd (some≢none e)), (λ h. absurd (some≢none h.0)))

  -- In active mode a request is let in exactly if each header that the route requires, under its lower
  -- case name, is there, is not empty, and has the required value, where a value is required.
  pub check_headers-lets_in :
      (lower : String → String) (headers required : JsMap String) (s : Left V)
      → c.passive_mode ≡ false
      → ((check_headers error_response c lower headers required s).0 ≡ none)
        ↔ All (λ (r : String × String). Satisfies r.1 (truthy (get headers (lower r.0)))) required
  unfolding check_headers
  check_headers-lets_in lower headers [] s active = ((λ e. tt), (λ h. refl))
  check_headers-lets_in lower headers ((header, expected) ∷ required) s active =
      let value = truthy (get headers (lower header)) in
      let fault = header_fault header expected value in
      let first = fault_iff header expected value in
      let rest = check_headers-lets_in lower headers required s active in
      let both =
        or_report-lets_in lower header fault s
          (check_headers error_response c lower headers required s) active in
      ((λ e. (first.0 (both.0 e).0, rest.0 (both.0 e).1)), (λ h. both.1 (first.1 h.0, rest.1 h.1)))
