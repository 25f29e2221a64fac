-- ===== src/IpBan/Expiry.antt =====
-- How long a ban lasts: `banIp`, `isIpBanned` and `unbanIp` together (handlers/ip-ban.ts).
use guard_core_ts.Base.{
  ℕ, ◌+◌, ◌*◌, ◌≤◌, ◌<◌, ◌≡◌, ap, sym, ◌∙◌, ◌≢◌, ◌⊎◌, String, Bool, true, false, Option, none, some,
  leb, if◌then◌else◌, str_eq, arith, le→leb,
}
use guard_core_ts.JsMap.{get, delete, size, first_key}
use guard_core_ts.JsMap.Laws.{IsMap, get-delete}
use guard_core_ts.Redis.{ok}
use guard_core_ts.IpBan.{
  BanEntry, Bans, Services, max_size, ban_entry, record_ban, ban_ip, is_ip_banned, on_entry,
  ask_redis, unban_ip,
}
use guard_core_ts.IpBan.Memory.{record_ban_self, record_ban-other}

module _ {S : Type 0} (services : Services S) where
  pub ban_ip-banned :
      (ip : String) (duration : ℕ) (reason : String) (now : ℕ) (s : Bans S)
      → (ban_ip services ip duration reason now s).1.banned
        ≡ record_ban ip duration reason now s.banned
  unfolding ban_ip
  ban_ip-banned ip duration reason now s = ground arith

  pub live_entry :
      (ip : String) (now : ℕ) (e : BanEntry) (s : Bans S)
      → get s.banned ip ≡ some e
      → now ≤ e.expires_at
      → is_ip_banned services ip now s ≡ (ok true, s)
  unfolding is_ip_banned on_entry
  live_entry ip now e s h le = rw (h, on_entry) (rw (le→leb now e.expires_at le))

  -- A first query after a ban, within its duration, finds the address banned, whatever Redis answers, and
  -- also when the write of the ban to Redis failed.
  pub ban_ip-is_ip_banned :
      (ip : String) (duration : ℕ) (reason : String) (now later : ℕ) (s : Bans S)
      → later ≤ now + duration * 1000
      → (is_ip_banned services ip later (ban_ip services ip duration reason now s).1).0 ≡ ok true
  ban_ip-is_ip_banned ip duration reason now later s le =
      ap (λ r. r.0)
        (live_entry ip later (ban_entry duration reason now) _
          (ap (λ m. get m ip) (ban_ip-banned ip duration reason now s)
            ∙ record_ban_self ip duration reason now s.banned)
          le)

  -- A live entry: the abstract meaning of being banned.
  abbrev pub is_live : ℕ → Option BanEntry → Bool
  is_live now none = false
  is_live now (some e) = leb now e.expires_at

  module _ (local : services.has_redis ≡ false) where
    on_entry-local :
        (ip : String) (now : ℕ) (o : Option BanEntry) (s : Bans S)
        → (on_entry services ip now o s).0 ≡ ok (is_live now o)
    unfolding on_entry ask_redis
    on_entry-local ip now none s = rw local
    on_entry-local ip now (some e) s = rw local (ground arith)

    -- Without a Redis handler the answer is whether the address has a live entry.
    pub is_ip_banned-is_live :
        (ip : String) (now : ℕ) (s : Bans S)
        → (is_ip_banned services ip now s).0 ≡ ok (is_live now (get s.banned ip))
    unfolding is_ip_banned
    is_ip_banned-is_live ip now s = on_entry-local ip now (get s.banned ip) s

    banned_after :
        (ip : String) (duration : ℕ) (reason : String) (now later : ℕ) (s : Bans S) (j : String)
        → (is_ip_banned services j later (ban_ip services ip duration reason now s).1).0
          ≡ ok (is_live later (get (record_ban ip duration reason now s.banned) j))
    banned_after ip duration reason now later s j =
        is_ip_banned-is_live j later _
        ∙ ap (λ m. ok (is_live later (get m j))) (ban_ip-banned ip duration reason now s)

    -- Without a Redis handler a ban ends: at a time past its duration the address is not banned,
    -- and its entry is gone from memory.
    pub ban_ip-ends :
        (ip : String) (duration : ℕ) (reason : String) (now later : ℕ) (s : Bans S)
        → now + duration * 1000 < later
        → (is_ip_banned services ip later (ban_ip services ip duration reason now s).1).0 ≡ ok false
    ban_ip-ends ip duration reason now later s le =
        banned_after ip duration reason now later s ip
        ∙ ap (λ o. ok (is_live later o)) (record_ban_self ip duration reason now s.banned)
        ∙ ground arith

    -- Without a Redis handler a ban changes the answer for no other address, unless the map is full
    -- and that address is its oldest entry.
    pub ban_ip-other :
        (ip : String) (duration : ℕ) (reason : String) (now later : ℕ) (s : Bans S) (j : String)
        → ip ≢ j
        → (size s.banned < max_size) ⊎ (first_key s.banned ≢ some j)
        → (is_ip_banned services j later (ban_ip services ip duration reason now s).1).0
          ≡ (is_ip_banned services j later s).0
    ban_ip-other ip duration reason now later s j ne h =
        banned_after ip duration reason now later s j
        ∙ ap (λ o. ok (is_live later o)) (record_ban-other ip duration reason now s.banned j ne h)
        ∙ sym (is_ip_banned-is_live j later s)

    unban_ip-banned :
        (ip : String) (s : Bans S) → (unban_ip services ip s).1.banned ≡ delete s.banned ip
    unfolding unban_ip
    unban_ip-banned ip s = rw local (ground arith)

    -- Without a Redis handler an address that was unbanned is not banned at any time after, and the
    -- answer for every other address stays.
    pub unban_ip-is_ip_banned :
        (ip : String) (later : ℕ) (s : Bans S) (j : String)
        → IsMap s.banned
        → (is_ip_banned services j later (unban_ip services ip s).1).0
          ≡ (if str_eq ip j then ok false else (is_ip_banned services j later s).0)
    unban_ip-is_ip_banned ip later s j m =
        is_ip_banned-is_live j later _
        ∙ ap (λ m. ok (is_live later (get m j))) (unban_ip-banned ip s)
        ∙ ap (λ o. ok (is_live later o)) (get-delete s.banned ip j m)
        ∙ ground (arith, is_ip_banned-is_live j later s)
