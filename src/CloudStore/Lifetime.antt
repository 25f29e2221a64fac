-- ===== src/CloudStore/Lifetime.antt =====
-- How long the store in memory keeps a provider's ranges (handlers/cloud-ip-stores.ts).
use guard_core_ts.Base.{
  ℕ, ◌+◌, ◌*◌, ◌≡◌, String, List, Option, none, some, if◌then◌else◌, str_eq, arith, if_both,
}
use guard_core_ts.JsMap.{get}
use guard_core_ts.JsMap.Laws.{IsMap, get-put, get-delete, put-IsMap, delete-IsMap}
use guard_core_ts.CloudStore.{CloudIpStore, forget, is_over, get_ranges, set_expiry, set_ranges}

-- The end of a time to live, if there is one.
abbrev pub ends_at : ℕ → Option ℕ → Option ℕ
ends_at now none = none
ends_at now (some ttl) = some (now + ttl * 1000)

set_expiry-get :
    (provider p : String) (ttl : Option ℕ) (now : ℕ) (s : CloudIpStore)
    → IsMap s.expires_at
    → get (set_expiry provider ttl now s.expires_at) p
      ≡ (if str_eq provider p then ends_at now ttl else get s.expires_at p)
unfolding set_expiry
set_expiry-get provider p none now s h = get-delete s.expires_at provider p h
set_expiry-get provider p (some ttl) now s h = get-put s.expires_at provider p (now + ttl * 1000)

-- In a store whose expiry keys are distinct: after the ranges of a provider are set, a later look-up
-- of it gives them exactly while their time to live, if any, is not over, and null from then on; what
-- it gives for another provider is what it gave before.
pub set-get_ranges :
    (provider p : String) (ranges : List String) (ttl : Option ℕ) (now later : ℕ) (s : CloudIpStore)
    → IsMap s.expires_at
    → (get_ranges p later (set_ranges provider ranges ttl now s)).0 ≡ (
        if str_eq provider p
        then (if is_over later (ends_at now ttl) then none else some ranges)
        else (get_ranges p later s).0)
unfolding get_ranges set_ranges
set-get_ranges provider p ranges ttl now later s h =
    ground (arith, set_expiry-get provider p ttl now s h, get-put s.data_of provider p ranges)

expiry-IsMap :
    (provider : String) (ttl : Option ℕ) (now : ℕ) (s : CloudIpStore)
    → IsMap s.expires_at
    → IsMap (set_expiry provider ttl now s.expires_at)
unfolding set_expiry
expiry-IsMap provider none now s h = delete-IsMap s.expires_at provider h
expiry-IsMap provider (some ttl) now s h = put-IsMap s.expires_at provider (now + ttl * 1000) h

-- Setting ranges keeps the expiry keys distinct, and so does every look-up.
pub store-IsMap :
    (provider : String) (ranges : List String) (ttl : Option ℕ) (now : ℕ) (s : CloudIpStore)
    → IsMap s.expires_at
    → IsMap (set_ranges provider ranges ttl now s).expires_at
      × IsMap (get_ranges provider now s).1.expires_at
unfolding get_ranges set_ranges forget
store-IsMap provider ranges ttl now s h = (
  expiry-IsMap provider ttl now s h,
  if_both (λ (r : Option (List String) × CloudIpStore). IsMap r.1.expires_at)
      (is_over now (get s.expires_at provider)) (delete-IsMap s.expires_at provider h) h,
)
