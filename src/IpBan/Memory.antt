-- ===== src/IpBan/Memory.antt =====
-- What a ban leaves in the memory of the ban manager (handlers/ip-ban.ts).
use guard_core_ts.Base.{
  ℕ, ◌≤◌, ◌<◌, ◌≡◌, ◌≢◌, ◌⊎◌, String, true, false, [], ◌∷◌, some, eq_iff, eq_refl, arith,
}
use guard_core_ts.JsMap.{JsMap, get, has, size, first_key}
use guard_core_ts.JsMap.Laws.{
  IsMap, get-put, get-delete_ne, put-IsMap, delete-IsMap, has-put, has-delete_absent, size-put,
  size-delete,
}
use guard_core_ts.IpBan.{BanEntry, max_size, drop_oldest, make_room, ban_entry, record_ban}

pub record_ban_self :
    (ip : String) (duration : ℕ) (reason : String) (now : ℕ) (m : JsMap BanEntry)
    → get (record_ban ip duration reason now m) ip ≡ some (ban_entry duration reason now)
unfolding record_ban
record_ban_self ip duration reason now m =
    ground (arith, get-put (make_room m) ip ip (ban_entry duration reason now), eq_refl ip)

-- The entry of another address is evicted only as the oldest of a full map.
pub make_room-other :
    (m : JsMap BanEntry) (j : String)
    → (size m < max_size) ⊎ (first_key m ≢ some j)
    → get (make_room m) j ≡ get m j
unfolding make_room drop_oldest
make_room-other [] j h = ground arith
make_room-other ((k, v) ∷ m) j h = ground (arith, get-delete_ne ((k, v) ∷ m) k j, eq_iff k j)

pub record_ban-other :
    (ip : String) (duration : ℕ) (reason : String) (now : ℕ) (m : JsMap BanEntry) (j : String)
    → ip ≢ j
    → (size m < max_size) ⊎ (first_key m ≢ some j)
    → get (record_ban ip duration reason now m) j ≡ get m j
unfolding record_ban
record_ban-other ip duration reason now m j ne h = ground (
  arith,
  get-put (make_room m) ip j (ban_entry duration reason now),
  make_room-other m j h,
  eq_iff ip j,
)

-- Distinct keys, none of them empty, and no more of them than `maxSize`.
pub record IsBounded (m : JsMap BanEntry) : Type 0 where
  pub keys : IsMap m
  pub named : has m "" ≡ false
  pub within : size m ≤ max_size

has-first : (k : String) (v : BanEntry) (m : JsMap BanEntry) → has ((k, v) ∷ m) k ≡ true
unfolding has
has-first k v m = rw (eq_refl k)

make_room-size :
    (m : JsMap BanEntry) → has m "" ≡ false → size m ≤ max_size → size (make_room m) < max_size
unfolding make_room drop_oldest max_size has
make_room-size [] e h = omega arith
make_room-size ((k, v) ∷ m) e h =
    ground (arith, size-delete ((k, v) ∷ m) k, has-first k v m, eq_iff k "")

make_room-named : (m : JsMap BanEntry) → has m "" ≡ false → has (make_room m) "" ≡ false
unfolding make_room drop_oldest
make_room-named [] h = ground arith
make_room-named ((k, v) ∷ m) h = ground (arith, has-delete_absent ((k, v) ∷ m) k "")

make_room-IsMap : (m : JsMap BanEntry) → IsMap m → IsMap (make_room m)
unfolding make_room drop_oldest
make_room-IsMap [] h = ground arith
make_room-IsMap ((k, v) ∷ m) h = ground (arith, delete-IsMap ((k, v) ∷ m) k h)

pub record_ban-IsBounded :
    (ip : String) (duration : ℕ) (reason : String) (now : ℕ) (m : JsMap BanEntry)
    → ip ≢ ""
    → IsBounded m
    → IsBounded (record_ban ip duration reason now m)
unfolding record_ban
record_ban-IsBounded ip duration reason now m ne b = record {
  keys = put-IsMap (make_room m) ip _ (make_room-IsMap m b.keys);
  named = ground (
    arith,
    has-put (make_room m) ip "" (ban_entry duration reason now),
    make_room-named m b.named,
    eq_iff ip "",
  );
  within = ground (
    arith,
    size-put (make_room m) ip (ban_entry duration reason now),
    make_room-size m b.named b.within,
  );
}
