-- ===== src/Pipeline/FailSecure.antt =====
-- When a request gets through the pipeline (core/checks/pipeline.ts).
use guard_core_ts.Base.{◌≡◌, ◌⊎◌, true, false, List, [], ◌∷◌}
use guard_core_ts.Pipeline.{
  State, Check, Outcome, pass, respond, threw, guard_redis_error, other_error,
}

module _ {W : Type 0} where
  -- An error that the configuration tolerates: any where `failSecure` is off, and a Redis error where
  -- `redisFailOpen` is on.
  abbrev pub Tolerates : Check W → Outcome → Type 0
  Tolerates c pass = Unit
  Tolerates c (respond r) = ⊥
  Tolerates c (threw guard_redis_error) =
      (c.config.redis_fail_open ≡ true) ⊎ (c.config.fail_secure ≡ false)
  Tolerates c (threw other_error) = c.config.fail_secure ≡ false

  abbrev pub AllTolerated : List (Check W) → State W → Type 0
  AllTolerated [] s = Unit
  AllTolerated (c ∷ cs) s = Tolerates c (c.run s).0 × AllTolerated cs (c.run s).1
