-- ===== src/RateLimit/Window.antt =====
-- The in-memory window of `getInMemoryRequestCount` (handlers/rate-limit.ts) on one list of
-- timestamps, and what it keeps of a list in order.
use guard_core_ts.Base.{
  ℕ, zero, suc, ◌+◌, ◌*◌, ◌≤◌, ◌≡◌, refl, ap, Bool, true, List, [], ◌∷◌, ◌++◌, Option, none, some,
  filter, drop, All, All-append, All-filter, arith, ltb, if◌then◌else◌,
}
use mathlib.Core.Option

-- `t > now - window`, with the window in seconds.
unfoldable pub in_window : ℕ → ℕ → ℕ → Bool
in_window now window t = ltb now (t + window * 1000)

-- `xs.findIndex(p)`, with `none` for -1.
unfoldable pub find_index {ℓ} : {A : Type ℓ} → (A → Bool) → List A → Option ℕ
find_index p [] = none
find_index p (x ∷ xs) = if p x then some 0 else Option.map suc (find_index p xs)

-- `validIndex > 0` splices the head off, -1 empties the list, and 0 leaves it.
unfoldable pub cut {ℓ} : {A : Type ℓ} → Option ℕ → List A → List A
cut none ts = []
cut (some zero) ts = ts
cut (some (suc i)) ts = drop (suc i) ts

-- `getInMemoryRequestCount` on the list of its key: the expired head goes, `now` is pushed.
unfoldable pub slide : ℕ → ℕ → List ℕ → List ℕ
slide now window ts = cut (find_index (in_window now window) ts) ts ++ now ∷ []

abbrev pub Ascending : List ℕ → Type 0
Ascending [] = Unit
Ascending (t ∷ ts) = All (λ u. t ≤ u) ts × Ascending ts

pub cut-map-suc : (o : Option ℕ) (x : ℕ) (xs : List ℕ) → cut (Option.map suc o) (x ∷ xs) ≡ cut o xs
unfolding cut
cut-map-suc none x xs = refl
cut-map-suc (some zero) x xs = refl
cut-map-suc (some (suc i)) x xs = refl

filter-All : (p : ℕ → Bool) (ts : List ℕ) → All (λ t. p t ≡ true) ts → filter p ts ≡ ts
filter-All p [] h = refl
filter-All p (t ∷ ts) (h, hs) = ground (arith, filter-All p ts hs)

in_window_later :
    (now window t : ℕ) (ts : List ℕ)
    → in_window now window t ≡ true
    → All (λ u. t ≤ u) ts
    → All (λ u. in_window now window u ≡ true) ts
unfolding in_window
in_window_later now window t [] h a = tt
in_window_later now window t (u ∷ ts) h (le, a) =
    (ground arith, in_window_later now window t ts h a)

-- On an ascending list the splice keeps exactly the timestamps inside the window.
pub cut-filter :
    (now window : ℕ) (ts : List ℕ)
    → Ascending ts
    → cut (find_index (in_window now window) ts) ts ≡ filter (in_window now window) ts
unfolding find_index cut
cut-filter now window [] a = refl
cut-filter now window (t ∷ ts) (h, a) = ground (
  arith,
  cut-map-suc (find_index (in_window now window) ts) t ts,
  cut-filter now window ts a,
  filter-All (in_window now window) ts,
  in_window_later now window t ts,
)

-- What has left the window at one time has left it at any later time.
pub filter_later :
    (now later window : ℕ) (ts : List ℕ)
    → now ≤ later
    → filter (in_window later window) (filter (in_window now window) ts)
      ≡ filter (in_window later window) ts
unfolding in_window
filter_later now later window [] h = refl
filter_later now later window (t ∷ ts) h = ground (arith, filter_later now later window ts h)

pub filter-Ascending : (p : ℕ → Bool) (ts : List ℕ) → Ascending ts → Ascending (filter p ts)
filter-Ascending p [] a = tt
filter-Ascending p (t ∷ ts) (h, a) =
    ground (arith, filter-Ascending p ts a, All-filter (λ u. t ≤ u) p ts h)

pub Ascending-append :
    (ts : List ℕ) (now : ℕ) → Ascending ts → All (λ t. t ≤ now) ts → Ascending (ts ++ now ∷ [])
Ascending-append [] now a h = (tt, tt)
Ascending-append (t ∷ ts) now (le, a) (h, hs) =
    (All-append (λ u. t ≤ u) ts (now ∷ []) le (h, tt), Ascending-append ts now a hs)

pub slide-filter :
    (now window : ℕ) (ts : List ℕ)
    → Ascending ts
    → slide now window ts ≡ filter (in_window now window) ts ++ now ∷ []
unfolding slide
slide-filter now window ts a = ap (λ xs. xs ++ now ∷ []) (cut-filter now window ts a)
