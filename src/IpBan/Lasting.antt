-- ===== src/IpBan/Lasting.antt =====
-- packages/core/src/handlers/ip-ban.ts: a ban through the calls that come after it.
use guard_core_ts.Base.{
  Bool, Bool-cases, List, Option, String, [], ap, arith, eq_iff, false, if_both, inl, inr, leb,
  none, refl, some, str_eq, subst, sym, true, ℕ, ◌*◌, ◌+◌, ◌<◌, ◌∙◌, ◌∷◌, ◌≡◌, ◌≢◌, ◌≤◌, ◌⊎◌,
}
use guard_core_ts.JsMap.{delete, first_key, get, size}
use guard_core_ts.JsMap.Laws.{get-delete_ne, get-put}
use guard_core_ts.Activity.{AgentEvent}
use guard_core_ts.Redis.{Result, Stored, absent, expiry, malformed, ok, redis_error}
use guard_core_ts.IpBan.{
  BanEntry, Bans, Services, ask_redis, ban_entry, ban_ip, is_ip_banned, max_size, on_entry,
  on_stored, then_notify, unban_event, unban_ip, with_redis,
}
use guard_core_ts.IpBan.Memory.{record_ban-other, record_ban_self}
use guard_core_ts.IpBan.Expiry.{ban_ip-banned, live_entry}
use guard_core_ts.IpBan.Capacity.{Call, asks, bans, resets, run, step, unbans}

module _ {S : Type 0} (services : Services S) (ip : String) where
  -- A call that does not end the ban of the address: it asks about the address before the ban is over,
  -- or about another; it bans another address, for which the address is not evicted, or unbans another.
  abbrev pub Spares : ℕ → Bans S → Call → Type 0
  Spares until s (bans j duration reason now) =
      (j ≢ ip) × ((size s.banned < max_size) ⊎ (first_key s.banned ≢ some ip))
  Spares until s (asks j now) = (j ≢ ip) ⊎ (now ≤ until)
  Spares until s (unbans j) = j ≢ ip
  Spares until s resets = ⊥

  abbrev pub AllSpare : ℕ → Bans S → List Call → Type 0
  AllSpare until s [] = Unit
  AllSpare until s (c ∷ cs) = Spares until s c × AllSpare until (step services s c) cs

  -- The entry of the address is there and ends at that time.
  abbrev Lasts : ℕ → Bans S → Type 0
  Lasts until s = (e : BanEntry) × (get s.banned ip ≡ some e) × (e.expires_at ≡ until)

  Lasts-same :
      (until : ℕ) (s s' : Bans S)
      → get s'.banned ip ≡ get s.banned ip
      → Lasts until s
      → Lasts until s'
  Lasts-same until s s' same (e, h, t) = (e, same ∙ h, t)

  other : (j : String) → j ≢ ip → str_eq j ip ≡ false
  other j ne = ground (arith, eq_iff j ip, ne, Bool-cases (str_eq j ip))

  on_stored-get :
      (j : String) (now : ℕ) (r : Result Stored) (s : Bans S)
      → j ≢ ip
      → get (on_stored services j now r s).1.banned ip ≡ get s.banned ip
  unfolding on_stored
  on_stored-get j now redis_error s ne = refl
  on_stored-get j now (ok absent) s ne = refl
  on_stored-get j now (ok malformed) s ne = refl
  on_stored-get j now (ok (expiry t)) s ne =
      if_both (λ (p : Result Bool × Bans S). get p.1.banned ip ≡ get s.banned ip) (leb now t)
        (get-put s.banned j ip
            (record { expires_at = t; reason = "restored_from_redis"; banned_at = now })
          ∙ rw (other j ne) refl)
        refl

  ask_redis-get :
      (j : String) (now : ℕ) (s : Bans S)
      → j ≢ ip
      → get (ask_redis services j now s).1.banned ip ≡ get s.banned ip
  unfolding ask_redis
  ask_redis-get j now s ne =
      if_both (λ (p : Result Bool × Bans S). get p.1.banned ip ≡ get s.banned ip) services.has_redis
        (on_stored-get j now _ _ ne) refl

  on_entry-get :
      (j : String) (now : ℕ) (o : Option BanEntry) (s : Bans S)
      → j ≢ ip
      → get (on_entry services j now o s).1.banned ip ≡ get s.banned ip
  unfolding on_entry
  on_entry-get j now none s ne = ask_redis-get j now s ne
  on_entry-get j now (some e) s ne =
      if_both (λ (p : Result Bool × Bans S). get p.1.banned ip ≡ get s.banned ip)
        (leb now e.expires_at) refl
        (ask_redis-get j now _ ne ∙ get-delete_ne s.banned j ip (other j ne))

  with_redis-banned :
      (command : S → Result (Unit {0}) × S) (s : Bans S)
      → (with_redis services command s).1.banned ≡ s.banned
  with_redis-banned command s =
      if_both (λ (p : Result (Unit {0}) × Bans S). p.1.banned ≡ s.banned) services.has_redis refl
        refl

  then_notify-banned :
      {A : Type 0} (e : AgentEvent) (a : A) (p : Result (Unit {0}) × Bans S)
      → (then_notify services e a p).1.banned ≡ p.1.banned
  then_notify-banned e a (ok u, s) = refl
  then_notify-banned e a (redis_error, s) = refl

  unban_ip-get :
      (j : String) (s : Bans S) → j ≢ ip → get (unban_ip services j s).1.banned ip ≡ get s.banned ip
  unfolding unban_ip
  unban_ip-get j s ne =
      let left : Bans S = record s { banned = delete s.banned j } in
      let deleted = with_redis services (services.handler.delete_key "banned_ips" j) left in
      ap (λ m. get m ip)
        (then_notify-banned (unban_event services j) tt deleted
          ∙ with_redis-banned (services.handler.delete_key "banned_ips" j) left)
      ∙ get-delete_ne s.banned j ip (other j ne)

  asks-Lasts :
      (until now : ℕ) (j : String) (s : Bans S)
      → (j ≢ ip) ⊎ (now ≤ until)
      → Lasts until s
      → Lasts until (is_ip_banned services j now s).1
  unfolding is_ip_banned
  asks-Lasts until now j s spares (e, h, t) = elim (Bool-cases (str_eq j ip)) [
    | inl same ↦
        let here : j ≡ ip = (eq_iff j ip).0 same in
        elim spares [
          | inl ne ↦ absurd (ne here)
          | inr le ↦
              let live = live_entry services ip now e s h (ground (arith, t, le)) in
              subst (λ (k : String). Lasts until (is_ip_banned services k now s).1) (sym here)
                (subst (λ (p : Result Bool × Bans S). Lasts until p.1) (sym live) (e, h, t))
        ]
    | inr differs ↦
        let ne : j ≢ ip = λ same. ground (arith, differs, (eq_iff j ip).1 same) in
        Lasts-same until s (is_ip_banned services j now s).1
          (on_entry-get j now (get s.banned j) s ne) (e, h, t)
  ]

  step-Lasts :
      (until : ℕ) (s : Bans S) (c : Call)
      → Spares until s c
      → Lasts until s
      → Lasts until (step services s c)
  unfolding step
  step-Lasts until s (bans j duration reason now) (ne, room) l =
      Lasts-same until s (ban_ip services j duration reason now s).1
        (ap (λ m. get m ip) (ban_ip-banned services j duration reason now s)
          ∙ record_ban-other j duration reason now s.banned ip ne room)
        l
  step-Lasts until s (asks j now) spares l = asks-Lasts until now j s spares l
  step-Lasts until s (unbans j) ne l =
      Lasts-same until s (unban_ip services j s).1 (unban_ip-get j s ne) l
  step-Lasts until s resets h l = absurd h

  run-Lasts :
      (until : ℕ) (s : Bans S) (cs : List Call)
      → AllSpare until s cs
      → Lasts until s
      → Lasts until (run services s cs)
  unfolding run
  run-Lasts until s [] h l = l
  run-Lasts until s (c ∷ cs) (h, hs) l =
      run-Lasts until (step services s c) cs hs (step-Lasts until s c h l)

  -- From the ban until its duration is over the address is banned, through any sequence of calls that do
  -- not reset the bans, nor ban or unban the address itself, nor evict it for another, nor ask about it
  -- with a clock past the end of the ban: whatever Redis answers, also when the write of the ban to Redis
  -- failed, and however often it was asked before.
  pub run-is_ip_banned :
      (duration : ℕ) (reason : String) (now later : ℕ) (s : Bans S) (cs : List Call)
      → AllSpare (now + duration * 1000) (ban_ip services ip duration reason now s).1 cs
      → later ≤ now + duration * 1000
      → (is_ip_banned services ip later
          (run services (ban_ip services ip duration reason now s).1 cs)).0
        ≡ ok true
  run-is_ip_banned duration reason now later s cs spare le =
      let until : ℕ = now + duration * 1000 in
      let banned : Bans S = (ban_ip services ip duration reason now s).1 in
      let entry : Lasts until banned = (
        ban_entry duration reason now,
        ap (λ m. get m ip) (ban_ip-banned services ip duration reason now s)
            ∙ record_ban_self ip duration reason now s.banned,
        refl,
      ) in
      let (e, h, t) = run-Lasts until banned cs spare entry in
      ap (λ r. r.0)
        (live_entry services ip later e (run services banned cs) h (ground (arith, t, le)))
