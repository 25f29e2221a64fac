-- ===== src/JsMap.antt =====
-- The JavaScript `Map` with string keys, which the handlers keep their state in: a list of entries
-- in insertion order. `put` is `Map.prototype.set`: an old key keeps its place, a new one goes last.
pub mod Laws
use guard_core_ts.Base.{
  ℕ, String, Bool, true, false, List, [], ◌∷◌, Option, none, some, length, if◌then◌else◌, str_eq,
}

abbrev pub JsMap {ℓ} : Type ℓ → Type ℓ
JsMap V = List (String × V)

module _ {ℓ} {V : Type ℓ} where
  -- `m.get(k)`
  unfoldable pub get : JsMap V → String → Option V
  get [] k = none
  get ((j, v) ∷ m) k = if str_eq j k then some v else get m k

  -- `m.has(k)`
  unfoldable pub has : JsMap V → String → Bool
  has [] k = false
  has ((j, v) ∷ m) k = if str_eq j k then true else has m k

  -- `m.set(k, v)`
  unfoldable pub put : JsMap V → String → V → JsMap V
  put [] k v = (k, v) ∷ []
  put ((j, w) ∷ m) k v = if str_eq j k then (j, v) ∷ m else (j, w) ∷ put m k v

  -- `m.delete(k)`
  unfoldable pub delete : JsMap V → String → JsMap V
  delete [] k = []
  delete ((j, v) ∷ m) k = if str_eq j k then m else (j, v) ∷ delete m k

  -- `m.size`
  abbrev pub size : JsMap V → ℕ
  size = length

  -- `m.keys().next().value`
  abbrev pub first_key : JsMap V → Option String
  first_key [] = none
  first_key ((k, v) ∷ m) = some k
