-- ===== src/RateLimit/Calls.antt =====
-- packages/core/src/handlers/rate-limit.ts: what `checkRateLimit` decides after a history of its own calls,
-- while Redis gives no count.
use guard_core_ts.Base.{
  Bool, List, Option, String, [], ap, arith, false, filter, if_both, inl, inr, length, none, refl,
  some, subst, true, ℕ, ◌+◌, ◌<>◌, ◌↔◌, ◌∙◌, ◌∷◌, ◌≡◌, ◌≤◌, ◌⊎◌,
}
use guard_core_ts.Response.{Response}
use guard_core_ts.RateLimit.Window.{in_window}
use guard_core_ts.RateLimit.Redis.{RedisClient, Reply, raised, replied}
use guard_core_ts.RateLimit.Manager.{
  Manager, Setup, ask_redis, check_rate_limit, count_attempt, count_or_memory, count_pipeline,
  in_memory_request_count, or_null, rate_key, recover_script, redis_request_count,
}
use guard_core_ts.RateLimit.History.{Calls, Chronological, count-run, run, times}
use guard_core_ts.RateLimit.Decision.{verdict-timestamps}
use guard_core_ts.RateLimit.Fallback.{ask_redis-timestamps, outage_iff}

-- A call: the address, the endpoint, the limit and the time.
pub record Attempt : Type 0 where
  pub ip : String
  pub endpoint : Option String
  pub limit : ℕ
  pub now : ℕ

-- The key and the time of each call, whatever was answered.
abbrev pub attempts : List Attempt → Calls
attempts [] = []
attempts (a ∷ past) = (rate_key a.ip a.endpoint, a.now) ∷ attempts past

-- A client that rejects every count and every load of the script.
pub record IsDown {S : Type 0} (client : RedisClient S) : Type 0 where
  pub no_load : (r : S) → (e : Bool) × ((client.script_load r).0 ≡ raised e)
  pub no_script :
      (sha key : String) (now window limit : ℕ) (r : S)
      → (e : Bool) × ((client.evalsha sha key now window limit r).0 ≡ raised e)
  pub no_add :
      (key : String) (now : ℕ) (r : S) → (e : Bool) × ((client.zadd key now r).0 ≡ raised e)

module _ {S : Type 0} (client : RedisClient S) (setup : Setup) where
  -- The calls of a history, all with one window.
  unfoldable pub run_attempts : (ℕ → String → Response) → ℕ → Manager S → List Attempt → Manager S
  run_attempts create window s [] = s
  run_attempts create window s (a ∷ past) =
      run_attempts create window
        (check_rate_limit client setup create a.ip a.endpoint a.limit window a.now s).1 past

  -- Redis never gives a count.
  abbrev Uncounted : Type 0
  Uncounted =
      (key : String) (now window limit : ℕ) (s : Manager S)
      → (ask_redis client setup key now window limit s).0 ≡ none

  or_null-raised :
      (p : Reply ℕ × Manager S) (e : Bool) → p.0 ≡ raised e → (or_null client setup p).0 ≡ none
  unfolding or_null
  or_null-raised (replied n, s) e h = ground (arith, h)
  or_null-raised (raised x, s) e h = refl

  module _ (down : IsDown client) where
    pipeline-raised :
        (key : String) (now window : ℕ) (s : Manager S)
        → (e : Bool) × ((count_pipeline client setup key now window s).0 ≡ raised e)
    unfolding count_pipeline
    pipeline-raised key now window s =
        let (e, h) = down.no_add key now s.redis in (e, ground (arith, h))

    recover-raised :
        (key : String) (now window limit : ℕ) (answer : Reply ℕ) (s : Manager S) (e : Bool)
        → answer ≡ raised e
        → (e' : Bool) × ((recover_script client setup key now window limit answer s).0 ≡ raised e')
    unfolding recover_script
    recover-raised key now window limit (replied n) s e h = ground (arith, h)
    recover-raised key now window limit (raised false) s e h = (false, refl)
    recover-raised key now window limit (raised true) s e h =
        let (e', h') = down.no_load s.redis in (e', ground (arith, h'))

    attempt-raised :
        (sha : Option String) (key : String) (now window limit : ℕ) (s : Manager S)
        → (e : Bool) × ((count_attempt client setup sha key now window limit s).0 ≡ raised e)
    unfolding count_attempt
    attempt-raised none key now window limit s = pipeline-raised key now window s
    attempt-raised (some sha) key now window limit s =
        let (e, h) = down.no_script sha key now window limit s.redis in
        recover-raised key now window limit _ _ e h

    down-Uncounted : Uncounted
    unfolding ask_redis redis_request_count
    down-Uncounted key now window limit s =
        let full : String = setup.prefix <> "rate_limit:rate:" <> key in
        let (e, h) = attempt-raised s.script_sha full now window limit s in
        if_both (λ (p : Option ℕ × Manager S). p.0 ≡ none) setup.has_redis
          (if_both (λ (p : Option ℕ × Manager S). p.0 ≡ none) setup.has_client
            (or_null-raised (count_attempt client setup s.script_sha full now window limit s) e h)
            refl)
          refl

  local-Uncounted : setup.has_redis ≡ false → Uncounted
  unfolding ask_redis
  local-Uncounted local key now window limit s = rw local refl

  count-store :
      (key : String) (now window : ℕ) (r : Option ℕ × Manager S)
      → r.0 ≡ none
      → (count_or_memory client setup key now window r).1.timestamps
        ≡ (in_memory_request_count r.1.timestamps key now window).0
  unfolding count_or_memory
  count-store key now window (none, s) e = refl
  count-store key now window (some n, s) e = ground (arith, e)

  module _ (uncounted : Uncounted) where
    call-timestamps :
        (create : ℕ → String → Response) (ip : String) (endpoint : Option String)
        (limit window now : ℕ) (s : Manager S)
        → (check_rate_limit client setup create ip endpoint limit window now s).1.timestamps
          ≡ (in_memory_request_count s.timestamps (rate_key ip endpoint) now window).0
    unfolding check_rate_limit
    call-timestamps create ip endpoint limit window now s =
        let key : String = rate_key ip endpoint in
        let asked = ask_redis client setup key now window limit s in
        verdict-timestamps client setup create ip limit window
          (count_or_memory client setup key now window asked).0
          (count_or_memory client setup key now window asked).1
        ∙ count-store key now window asked (uncounted key now window limit s)
        ∙ ap (λ m. (in_memory_request_count m key now window).0)
            (ask_redis-timestamps client setup key now window limit s)

    run_attempts-timestamps :
        (create : ℕ → String → Response) (window : ℕ) (s : Manager S) (past : List Attempt)
        → (run_attempts create window s past).timestamps ≡ run window s.timestamps (attempts past)
    unfolding run_attempts run
    run_attempts-timestamps create window s [] = refl
    run_attempts-timestamps create window s (a ∷ past) =
        run_attempts-timestamps create window
          (check_rate_limit client setup create a.ip a.endpoint a.limit window a.now s).1 past
        ∙ ap (λ m. run window m (attempts past))
            (call-timestamps create a.ip a.endpoint a.limit window a.now s)

    decided :
        (create : ℕ → String → Response) (ip : String) (endpoint : Option String)
        (limit window now : ℕ) (s : Manager S) (past : List Attempt)
        → s.timestamps ≡ []
        → Chronological 0 (attempts past) now
        → ((check_rate_limit client setup create ip endpoint limit window now
              (run_attempts create window s past)).0
            ≡ none)
          ↔ (length (filter (in_window now window) (times (rate_key ip endpoint) (attempts past)))
                + 1
              ≤ limit)
    decided create ip endpoint limit window now s past fresh clock =
        let key : String = rate_key ip endpoint in
        let state : Manager S = run_attempts create window s past in
        let stored : state.timestamps ≡ run window [] (attempts past) =
          run_attempts-timestamps create window s past
          ∙ ap (λ m. run window m (attempts past)) fresh in
        let counted =
          ap (λ m. (in_memory_request_count m key now window).1) stored
          ∙ count-run window (attempts past) key now clock in
        subst
          (λ n.
            ((check_rate_limit client setup create ip endpoint limit window now state).0 ≡ none)
            ↔ (n ≤ limit))
          counted
          (outage_iff client setup create ip endpoint limit window now state
            (uncounted key now window limit state))

  -- With no Redis handler, or while Redis rejects every command, after any history of calls of
  -- `checkRateLimit` in clock order with one window, on a manager that started without timestamps, a
  -- call is admitted exactly when the earlier calls for its key inside the window are fewer than the
  -- limit: refused calls count like admitted ones.
  pub check_rate_limit_iff :
      (create : ℕ → String → Response) (ip : String) (endpoint : Option String)
      (limit window now : ℕ) (s : Manager S) (past : List Attempt)
      → (setup.has_redis ≡ false) ⊎ IsDown client
      → s.timestamps ≡ []
      → Chronological 0 (attempts past) now
      → ((check_rate_limit client setup create ip endpoint limit window now
            (run_attempts create window s past)).0
          ≡ none)
        ↔ (length (filter (in_window now window) (times (rate_key ip endpoint) (attempts past))) + 1
            ≤ limit)
  check_rate_limit_iff create ip endpoint limit window now s past (inl local) fresh clock =
      decided (local-Uncounted local) create ip endpoint limit window now s past fresh clock
  check_rate_limit_iff create ip endpoint limit window now s past (inr down) fresh clock =
      decided (down-Uncounted down) create ip endpoint limit window now s past fresh clock
