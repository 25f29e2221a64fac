-- ===== src/Pipeline/Hooks.antt =====
-- The block hook of a request that the pipeline refuses (core/checks/pipeline.ts, block-events.ts).
use guard_core_ts.Base.{List, Option, [], false, none, some, true, ◌++◌, ◌∷◌, ◌≡◌, ◌≢◌, ◌⊎◌}
use guard_core_ts.Response.{Response}
use guard_core_ts.Activity.{HookCall, Stash, includes, on_block_excluded}
use guard_core_ts.Pipeline.{
  Check, Error, Outcome, State, block_call, execute, fire_block_hook_for, handle_check_error, pass,
  respond, threw,
}
use guard_core_ts.Pipeline.FailSecure.{AllTolerated, Tolerates}

module _ {W : Type 0} where
  -- A check that calls no hook itself, as the checks do outside passive mode.
  abbrev pub IsQuiet : Check W → Type 0
  IsQuiet c = (s : State W) → (c.run s).1.trace.hooks ≡ s.trace.hooks

  -- The state after some checks.
  abbrev pub left_by : List (Check W) → State W → State W
  left_by [] s = s
  left_by (c ∷ cs) s = left_by cs (c.run s).1

  -- The check is reached in that state, and this is how it ends.
  abbrev pub Reaches : List (Check W) → State W → Check W → Outcome → State W → Type 0
  Reaches cs s c outcome s' =
      (before : List (Check W)) × (rest : List (Check W)) × (cs ≡ before ++ (c ∷ rest))
      × AllTolerated before s
      × (c.run (left_by before s) ≡ (outcome, s'))

  -- One call more, with the check, the status and what was stashed, unless no hook is set or the check's
  -- name is one of those that it is not called for.
  abbrev pub IsCalled : Check W → Response → Option Stash → List HookCall → List HookCall → Type 0
  IsCalled c r stash old new =
      ((c.config.hooks.has_on_block ≡ true)
        × (includes on_block_excluded c.name ≡ false)
        × (new ≡ old ++ block_call c r stash ∷ []))
      ⊎ (((c.config.hooks.has_on_block ≡ false) ⊎ (includes on_block_excluded c.name ≡ true))
          × (new ≡ old))

  -- How a run ends, with its answer and the hook calls: at a check's response, at a check's error that
  -- the policy does not tolerate, or at the end of the checks.
  abbrev pub EndsWith : List (Check W) → State W → Option Response × State W → Type 0
  EndsWith cs s (answer, t) =
      ((c : Check W) × (r : Response) × (s' : State W) × Reaches cs s c (respond r) s'
        × (answer ≡ some r)
        × IsCalled c r s'.trace.stash s.trace.hooks t.trace.hooks)
      ⊎ (((c : Check W) × (e : Error) × (s' : State W) × Reaches cs s c (threw e) s'
            × (¬ Tolerates c (threw e))
            × (answer ≢ none)
            × (t.trace.hooks ≡ s.trace.hooks))
          ⊎ (AllTolerated cs s × (answer ≡ none) × (t.trace.hooks ≡ s.trace.hooks)))

  -- What `execute` does with the outcome of a check.
  abbrev after_check : Check W → List (Check W) → Outcome → State W → Option Response × State W
  after_check c cs outcome s' = elim outcome [
    | pass ↦ execute cs s'
    | respond r ↦ (some r, fire_block_hook_for c r s')
    | threw e ↦ elim (handle_check_error c e) [ some r ↦ (some r, s') | none ↦ execute cs s' ]
  ]
