-- ===== src/JsMap/Laws.antt =====
-- Laws of the map: what `get` and `size` see of each operation, and that keys stay distinct.
use guard_core_ts.Base.{
  ◌+◌, ◌≤◌, ◌≡◌, refl, ◌≢◌, String, true, false, [], ◌∷◌, ◌++◌, none, some, if◌then◌else◌, str_eq,
  eq_iff, eq_refl, ◌∙◌, arith,
}
use guard_core_ts.JsMap.{JsMap, get, has, put, delete, size, first_key}

module _ {ℓ} {V : Type ℓ} where
  pub get-put :
      (m : JsMap V) (k j : String) (v : V)
      → get (put m k v) j ≡ (if str_eq k j then some v else get m j)
  unfolding get put
  get-put [] k j v = refl
  get-put ((i, w) ∷ m) k j v = ground (arith, eq_iff k j, eq_iff i k, eq_iff i j, get-put m k j v)

  pub has-get : (m : JsMap V) (k : String) → (has m k ≡ false) → get m k ≡ none
  unfolding has get
  has-get [] k h = refl
  has-get ((j, v) ∷ m) k h = ground (arith, has-get m k)

  pub get-none-has : (m : JsMap V) (k : String) → get m k ≡ none → has m k ≡ false
  unfolding has get
  get-none-has [] k h = refl
  get-none-has ((j, v) ∷ m) k h = ground (arith, get-none-has m k)

  -- Only the first entry of a key is deleted, so distinct keys matter here.
  abbrev pub IsMap : JsMap V → Type 0
  IsMap [] = Unit
  IsMap ((k, v) ∷ m) = (has m k ≡ false) × IsMap m

  pub has-put :
      (m : JsMap V) (k j : String) (v : V)
      → has (put m k v) j ≡ (if str_eq k j then true else has m j)
  unfolding has put
  has-put [] k j v = refl
  has-put ((i, w) ∷ m) k j v = ground (arith, eq_iff k j, eq_iff i k, eq_iff i j, has-put m k j v)

  pub put-IsMap : (m : JsMap V) (k : String) (v : V) → IsMap m → IsMap (put m k v)
  unfolding put has
  put-IsMap [] k v h = (refl, tt)
  put-IsMap ((j, w) ∷ m) k v (h, hs) =
      ground (arith, eq_iff j k, eq_iff k j, has-put m k j v, put-IsMap m k v hs)

  pub get-delete :
      (m : JsMap V) (k j : String)
      → IsMap m
      → get (delete m k) j ≡ (if str_eq k j then none else get m j)
  unfolding get delete
  get-delete [] k j h = ground arith
  get-delete ((i, w) ∷ m) k j (h, hs) =
      ground (arith, eq_iff k j, eq_iff i k, eq_iff i j, has-get m i h, get-delete m k j hs)

  pub get-delete_ne :
      (m : JsMap V) (k j : String) → str_eq k j ≡ false → get (delete m k) j ≡ get m j
  unfolding get delete
  get-delete_ne [] k j h = refl
  get-delete_ne ((i, w) ∷ m) k j h =
      ground (arith, eq_iff k j, eq_iff i k, eq_iff i j, get-delete_ne m k j h)

  pub has-delete_absent :
      (m : JsMap V) (k j : String) → has m j ≡ false → has (delete m k) j ≡ false
  unfolding has delete
  has-delete_absent [] k j h = refl
  has-delete_absent ((i, w) ∷ m) k j h = ground (arith, has-delete_absent m k j)

  pub delete-IsMap : (m : JsMap V) (k : String) → IsMap m → IsMap (delete m k)
  unfolding delete
  delete-IsMap [] k h = tt
  delete-IsMap ((j, w) ∷ m) k (h, hs) = ground (arith, has-delete_absent m k j, delete-IsMap m k hs)

  pub size-put :
      (m : JsMap V) (k : String) (v : V)
      → size (put m k v) ≡ (if has m k then size m else size m + 1)
  unfolding put has
  size-put [] k v = ground arith
  size-put ((j, w) ∷ m) k v = ground (arith, size-put m k v)

  pub size-delete :
      (m : JsMap V) (k : String) → size (delete m k) + (if has m k then 1 else 0) ≡ size m
  unfolding delete has
  size-delete [] k = ground arith
  size-delete ((j, w) ∷ m) k = ground (arith, size-delete m k)

  pub size-put-le : (m : JsMap V) (k : String) (v : V) → size (put m k v) ≤ size m + 1
  size-put-le m k v = ground (arith, size-put m k v)

  pub size-delete-le : (m : JsMap V) (k : String) → size (delete m k) ≤ size m
  size-delete-le m k = ground (arith, size-delete m k)

  pub get-some-has : (m : JsMap V) (k : String) (v : V) → get m k ≡ some v → has m k ≡ true
  unfolding has get
  get-some-has [] k v h = cc
  get-some-has ((j, w) ∷ m) k v h = ground (arith, get-some-has m k v)

  pub has-delete : (m : JsMap V) (k : String) → IsMap m → has (delete m k) k ≡ false
  unfolding has delete
  has-delete [] k h = refl
  has-delete ((j, w) ∷ m) k (h, hs) = ground (arith, eq_iff j k, has-delete m k hs)

  pub has-delete_ne : (m : JsMap V) (k j : String) → k ≢ j → has (delete m k) j ≡ has m j
  unfolding has delete
  has-delete_ne [] k j ne = refl
  has-delete_ne ((i, v) ∷ m) k j ne = ground (arith, eq_iff i k, eq_iff i j, has-delete_ne m k j ne)

  pub has-first_key : (m : JsMap V) (k : String) → first_key m ≡ some k → has m k ≡ true
  unfolding has
  has-first_key [] k h = cc
  has-first_key ((j, v) ∷ m) k h = ground (arith, eq_iff j k)

  -- A new key goes last.
  pub put_absent :
      (m : JsMap V) (k : String) (v : V) → has m k ≡ false → put m k v ≡ m ++ (k, v) ∷ []
  unfolding put has
  put_absent [] k v h = refl
  put_absent ((j, w) ∷ m) k v h = ground (arith, put_absent m k v)

  pub get-put_self : (m : JsMap V) (k : String) (v : V) → get (put m k v) k ≡ some v
  get-put_self m k v = get-put m k k v ∙ rw (eq_refl k)
