-- ===== src/ByIp/Lru.antt =====
-- The capped store of handlers/rate-limit-by-ip.ts, `lruPopOrCreate` followed by `set`: its size, its
-- order of use, and what it forgets.
use guard_core_ts.Base.{
  ℕ, ◌-◌, ◌≤◌, ◌<◌, ◌≡◌, refl, ◌≢◌, ◌⊎◌, inl, inr, String, false, [], ◌∷◌, ◌++◌, some, eq_iff,
  eq_refl, arith, Option-cases,
}
use guard_core_ts.JsMap.{JsMap, get, has, put, delete, size, first_key}
use guard_core_ts.JsMap.Laws.{
  IsMap, get-put, get-delete_ne, delete-IsMap, put-IsMap, size-put-le, size-delete, get-none-has,
  has-delete_absent, get-some-has, has-delete, put_absent,
}
use guard_core_ts.ByIp.{drop_oldest, lru_pop_or_create}

module _ {ℓ} {V : Type ℓ} where
  -- The store after a use of `key` that stores `v`.
  abbrev pub used : JsMap V → String → ℕ → V → V → JsMap V
  used store key max_keys create v = put (lru_pop_or_create store key max_keys create).1 key v

  drop_oldest_absent : (m : JsMap V) (k : String) → has m k ≡ false → has (drop_oldest m) k ≡ false
  unfolding drop_oldest
  drop_oldest_absent [] k h = h
  drop_oldest_absent ((j, v) ∷ m) k h = has-delete_absent ((j, v) ∷ m) j k h

  popped_absent :
      (store : JsMap V) (key : String) (max_keys : ℕ) (create : V)
      → IsMap store
      → has (lru_pop_or_create store key max_keys create).1 key ≡ false
  unfolding lru_pop_or_create
  popped_absent store key max_keys create h = elim (Option-cases (get store key)) [
    | inl e ↦
        let out = get-none-has store key e in
        rw (e, lru_pop_or_create) (ground (arith, out, drop_oldest_absent store key out))
    | inr (v, e) ↦ rw (e, lru_pop_or_create) (has-delete store key h)
  ]

  drop_oldest-IsMap : (m : JsMap V) → IsMap m → IsMap (drop_oldest m)
  unfolding drop_oldest
  drop_oldest-IsMap [] h = h
  drop_oldest-IsMap ((j, v) ∷ m) h = delete-IsMap ((j, v) ∷ m) j h

  drop_oldest-size : (m : JsMap V) → size (drop_oldest m) ≡ size m - 1
  unfolding drop_oldest delete
  drop_oldest-size [] = omega arith
  drop_oldest-size ((j, v) ∷ m) = ground (arith, eq_refl j)

  popped-IsMap :
      (store : JsMap V) (key : String) (max_keys : ℕ) (create : V)
      → IsMap store
      → IsMap (lru_pop_or_create store key max_keys create).1
  unfolding lru_pop_or_create
  popped-IsMap store key max_keys create h =
      ground (arith, h, delete-IsMap store key h, drop_oldest-IsMap store h)

  popped-size :
      (store : JsMap V) (key : String) (max_keys : ℕ) (create : V)
      → 0 < max_keys
      → size store ≤ max_keys
      → size (lru_pop_or_create store key max_keys create).1 < max_keys
  unfolding lru_pop_or_create
  popped-size store key max_keys create pos h = elim (Option-cases (get store key)) [
    | inl e ↦ rw (e, lru_pop_or_create) (ground (arith, drop_oldest-size store))
    | inr (v, e) ↦
        rw (e, lru_pop_or_create)
          (ground (arith, get-some-has store key v e, size-delete store key))
  ]

  -- A use keeps the keys distinct and their number within the cap, and its key becomes the newest.
  pub used_lem :
      (store : JsMap V) (key : String) (max_keys : ℕ) (create v : V)
      → 0 < max_keys
      → IsMap store
      → size store ≤ max_keys
      → IsMap (used store key max_keys create v)
        × (size (used store key max_keys create v) ≤ max_keys)
        × (used store key max_keys create v
            ≡ (lru_pop_or_create store key max_keys create).1 ++ (key, v) ∷ [])
  used_lem store key max_keys create v pos h le = (
    put-IsMap _ key v (popped-IsMap store key max_keys create h),
    omega (
      arith,
      size-put-le (lru_pop_or_create store key max_keys create).1 key v,
      popped-size store key max_keys create pos le,
    ),
    put_absent _ key v (popped_absent store key max_keys create h),
  )

  drop_oldest-other :
      (m : JsMap V) (j : String) → first_key m ≢ some j → get (drop_oldest m) j ≡ get m j
  unfolding drop_oldest
  drop_oldest-other [] j h = refl
  drop_oldest-other ((k, v) ∷ m) j h = ground (arith, get-delete_ne ((k, v) ∷ m) k j, eq_iff k j)

  popped-other :
      (store : JsMap V) (key : String) (max_keys : ℕ) (create : V) (j : String)
      → key ≢ j
      → (size store < max_keys) ⊎ (first_key store ≢ some j)
      → get (lru_pop_or_create store key max_keys create).1 j ≡ get store j
  unfolding lru_pop_or_create
  popped-other store key max_keys create j ne h =
      ground (arith, eq_iff key j, get-delete_ne store key j, drop_oldest-other store j)

  -- A use of one key keeps every other, but for the oldest of a full store.
  pub used-other :
      (store : JsMap V) (key : String) (max_keys : ℕ) (create v : V) (j : String)
      → key ≢ j
      → (size store < max_keys) ⊎ (first_key store ≢ some j)
      → get (used store key max_keys create v) j ≡ get store j
  used-other store key max_keys create v j ne h = ground (
    arith,
    get-put (lru_pop_or_create store key max_keys create).1 key j v,
    eq_iff key j,
    popped-other store key max_keys create j ne h,
  )
