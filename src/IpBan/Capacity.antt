-- ===== src/IpBan/Capacity.antt =====
-- The bound on the ban map, `maxSize`, over any sequence of calls, and where the code does not keep
-- to it (handlers/ip-ban.ts).
use guard_core_ts.Base.{
  ℕ, ◌+◌, ◌≤◌, ◌≡◌, refl, sym, ◌≢◌, String, true, false, List, [], ◌∷◌, Option, none, some, eq_iff,
  eq_refl, arith, le→leb, All,
}
use guard_core_ts.JsMap.{JsMap, get, has, delete, size, first_key}
use guard_core_ts.JsMap.Laws.{
  IsMap, get-put, get-delete, delete-IsMap, has-delete_absent, size-delete-le, get-none-has,
  size-put, size-delete, has-delete_ne, has-first_key,
}
use guard_core_ts.Redis.{ok, expiry}
use guard_core_ts.IpBan.{
  BanEntry, Bans, Services, max_size, ban_entry, record_ban, make_room, drop_oldest, ban_ip,
  is_ip_banned, on_entry, ask_redis, on_stored, unban_ip, reset,
}
use guard_core_ts.IpBan.Memory.{IsBounded, record_ban-IsBounded}

-- The calls of the manager, with the clock that each reads.
pub data Call : Type 0 where
  bans : (ip : String) (duration : ℕ) (reason : String) (now : ℕ) → Call
  asks : (ip : String) (now : ℕ) → Call
  unbans : String → Call
  resets : Call

abbrev pub HasName : Call → Type 0
HasName (bans ip duration reason now) = ip ≢ ""
HasName _ = Unit

module _ {S : Type 0} (services : Services S) where
  unfoldable pub step : Bans S → Call → Bans S
  step s (bans ip duration reason now) = (ban_ip services ip duration reason now s).1
  step s (asks ip now) = (is_ip_banned services ip now s).1
  step s (unbans ip) = (unban_ip services ip s).1
  step s resets = (reset services s).1

  unfoldable pub run : Bans S → List Call → Bans S
  run s [] = s
  run s (c ∷ cs) = run (step s c) cs

  delete-IsBounded : (m : JsMap BanEntry) (ip : String) → IsBounded m → IsBounded (delete m ip)
  delete-IsBounded m ip b = record {
    keys = delete-IsMap m ip b.keys;
    named = has-delete_absent m ip "" b.named;
    within = omega (arith, size-delete-le m ip, b.within);
  }

  module _ (local : services.has_redis ≡ false) where
    on_entry-IsBounded :
        (ip : String) (now : ℕ) (o : Option BanEntry) (s : Bans S)
        → IsBounded s.banned
        → IsBounded (on_entry services ip now o s).1.banned
    unfolding on_entry ask_redis
    on_entry-IsBounded ip now none s b = rw local b
    on_entry-IsBounded ip now (some e) s b =
        rw local (ground (arith, b, delete-IsBounded s.banned ip b))

    step-IsBounded :
        (s : Bans S) (c : Call) → HasName c → IsBounded s.banned → IsBounded (step s c).banned
    unfolding step ban_ip is_ip_banned unban_ip reset has
    step-IsBounded s (bans ip duration reason now) n b =
        rw local (record_ban-IsBounded ip duration reason now s.banned n b)
    step-IsBounded s (asks ip now) n b = on_entry-IsBounded ip now (get s.banned ip) s b
    step-IsBounded s (unbans ip) n b = rw local (delete-IsBounded s.banned ip b)
    step-IsBounded s resets n b =
        rw local (record { keys = tt; named = refl; within = omega arith })

    -- Without a Redis handler, any sequence of calls whose bans name an address keeps the ban map
    -- within `maxSize` entries, with distinct keys.
    pub run-IsBounded :
        (s : Bans S) (cs : List Call)
        → All HasName cs
        → IsBounded s.banned
        → IsBounded (run s cs).banned
    unfolding run
    run-IsBounded s [] n b = b
    run-IsBounded s (c ∷ cs) (n, ns) b = run-IsBounded (step s c) cs ns (step-IsBounded s c n b)

  -- With a Redis handler the bound fails: on a full map, asking about an address that only Redis
  -- holds a live ban for adds an entry beyond `maxSize`.
  pub restore-exceeds :
      (ip : String) (now t : ℕ) (s : Bans S) (r : S)
      → services.has_redis ≡ true
      → size s.banned ≡ max_size
      → get s.banned ip ≡ none
      → services.handler.get_key "banned_ips" ip s.redis ≡ (ok (expiry t), r)
      → now ≤ t
      → ((is_ip_banned services ip now s).0 ≡ ok true)
        × (size (is_ip_banned services ip now s).1.banned ≡ max_size + 1)
  unfolding is_ip_banned on_entry ask_redis on_stored
  restore-exceeds ip now t s r hr full absent e le =
      rw (absent, on_entry)
        (rw (hr, e)
          (rw (le→leb now t le) (
            refl,
            ground (
              arith,
              size-put s.banned ip
                  (record { expires_at = t; reason = "restored_from_redis"; banned_at = now }),
              get-none-has s.banned ip absent,
            ),
          )))

make_room_full :
    (oldest : String) (m : JsMap BanEntry)
    → max_size ≤ size m
    → first_key m ≡ some oldest
    → oldest ≢ ""
    → make_room m ≡ delete m oldest
unfolding make_room drop_oldest
make_room_full oldest m full first named =
    rw (le→leb max_size (size m) full) (ground (arith, eq_iff oldest ""))

-- On a full map, a second ban of an address that has an entry needs no room, and still evicts the
-- oldest entry, of another address: that one is gone, and the map is one entry short of before.
pub record_ban-evicts :
    (ip oldest : String) (duration : ℕ) (reason : String) (now : ℕ) (m : JsMap BanEntry)
    → IsMap m
    → max_size ≤ size m
    → first_key m ≡ some oldest
    → oldest ≢ ""
    → ip ≢ oldest
    → has m ip ≡ true
    → (get (record_ban ip duration reason now m) oldest ≡ none)
      × (size (record_ban ip duration reason now m) + 1 ≡ size m)
unfolding record_ban
record_ban-evicts ip oldest duration reason now m h full first named ne old =
    rw (make_room_full oldest m full first named) (
      ground (
        arith,
        get-put (delete m oldest) ip oldest (ban_entry duration reason now),
        get-delete m oldest oldest h,
        eq_iff ip oldest,
        eq_refl oldest,
      ),
      ground (
        arith,
        size-put (delete m oldest) ip (ban_entry duration reason now),
        size-delete m oldest,
        has-delete_ne m oldest ip (λ e. ne (sym e)),
        has-first_key m oldest first,
      ),
    )
