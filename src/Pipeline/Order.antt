-- ===== src/Pipeline/Order.antt =====
-- The order of the checks: what runs before what, and what never runs (core/checks/pipeline.ts).
use guard_core_ts.Base.{◌≡◌, refl, List, [], ◌∷◌, ◌++◌, Option, none, some, arith}
use guard_core_ts.Response.{Response}
use guard_core_ts.Pipeline.{State, Check, execute}

module _ {W : Type 0} where
  -- Go on with the other checks where the first ones answered nothing.
  abbrev pub and_then :
      Option Response × State W → (State W → Option Response × State W) → Option Response × State W
  and_then (some r, s) k = (some r, s)
  and_then (none, s) k = k s

  -- A pipeline in two parts runs the second part only where the first gave no response, in the state
  -- that the first left: an earlier response, block or error, keeps every later check from running.
  pub execute-append :
      (cs ds : List (Check W)) (s : State W)
      → execute (cs ++ ds) s ≡ and_then (execute cs s) (execute ds)
  unfolding execute
  execute-append [] ds s = refl
  execute-append (c ∷ cs) ds s = ground (arith, execute-append cs ds (c.run s).1)
