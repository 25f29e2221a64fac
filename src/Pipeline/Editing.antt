-- ===== src/Pipeline/Editing.antt =====
-- Changing the list of checks: `add`, `insert`, `remove` and `getCheckNames` (core/checks/pipeline.ts).
use guard_core_ts.Base.{
  ℕ, zero, suc, ◌≡◌, refl, ap, String, true, false, List, [], ◌∷◌, ◌++◌, arith, length, take, drop,
  if◌then◌else◌, str_eq, eq_refl,
}
use guard_core_ts.Activity.{includes}
use guard_core_ts.Pipeline.{Check, add, insert, remove, get_check_names}

-- A list of names without the first of a name.
abbrev pub without : String → List String → List String
without name [] = []
without name (n ∷ ns) = if str_eq n name then ns else n ∷ without name ns

module _ {W : Type 0} where
  -- `remove` takes out the first check of that name and tells whether there was one.
  pub get_check_names-remove :
      (cs : List (Check W)) (name : String)
      → ((remove cs name).0 ≡ includes (get_check_names cs) name)
        × (get_check_names (remove cs name).1 ≡ without name (get_check_names cs))
  unfolding remove get_check_names
  get_check_names-remove [] name = (refl, refl)
  get_check_names-remove (c ∷ cs) name = ground (arith, get_check_names-remove cs name)

  -- `insert` puts the name at its index, or at the end where the index is past it, and `add` is an
  -- `insert` at the end.
  pub get_check_names-insert :
      (cs : List (Check W)) (i : ℕ) (c : Check W)
      → get_check_names (insert cs i c)
        ≡ take i (get_check_names cs) ++ c.name ∷ drop i (get_check_names cs)
  unfolding insert get_check_names
  get_check_names-insert [] zero c = refl
  get_check_names-insert [] (suc i) c = refl
  get_check_names-insert (d ∷ cs) zero c = refl
  get_check_names-insert (d ∷ cs) (suc i) c = ap (◌∷◌ d.name) (get_check_names-insert cs i c)

  pub insert-length : (cs : List (Check W)) (c : Check W) → insert cs (length cs) c ≡ add cs c
  unfolding insert add
  insert-length [] c = refl
  insert-length (d ∷ cs) c = ap (◌∷◌ d) (insert-length cs c)

  -- Removing a check that was just added under a new name gives the old list back.
  pub remove-add :
      (cs : List (Check W)) (c : Check W)
      → includes (get_check_names cs) c.name ≡ false
      → remove (add cs c) c.name ≡ (true, cs)
  unfolding remove add get_check_names
  remove-add [] c h = ground (arith, eq_refl c.name)
  remove-add (d ∷ cs) c h = ground (arith, remove-add cs c)
