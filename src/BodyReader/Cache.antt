-- ===== src/BodyReader/Cache.antt =====
-- The cache of a body's prefix in its request (core/bounded-body-reader.ts).
use guard_core_ts.Base.{
  ℕ, zero, suc, ◌≤◌, ◌≡◌, refl, ◌∙◌, ap, true, List, [], ◌∷◌, Option, none, some, take, leb, ◌==◌,
  ◌&&◌, arith, if_cases, le→leb, if_cases, le→leb,
}
use mathlib.Core.Option
use guard_core_ts.BodyReader.{
  Outcome, Call, PrefixCache, Reads, cached_prefix, store_prefix, cap_and_store, or_read,
  read_and_cache_body,
}

take-take : (m n : ℕ) (xs : List ℕ) → n ≤ m → take n (take m xs) ≡ take n xs
take-take m zero xs h = refl
take-take zero (suc n) xs h = ground arith
take-take (suc m) (suc n) [] h = refl
take-take (suc m) (suc n) (x ∷ xs) h = ap (◌∷◌ x) (take-take m n xs (omega (arith, h)))

-- The cache serves a request's prefix of `m` bytes.
abbrev Serves : ℕ → ℕ → Option (List ℕ) × Reads → Type 0
Serves request m (none, s) = Unit
Serves request m (some b, s) = (n : ℕ) → n ≤ m → cached_prefix request n s.cache ≡ some (take n b)

eq_self : (n : ℕ) → (n == n) ≡ true
eq_self n = ground arith

cap_and_store-Serves :
    (request m : ℕ) (r : Option (List ℕ) × Reads) → Serves request m (cap_and_store request m r)
unfolding cap_and_store store_prefix cached_prefix
cap_and_store-Serves request m (none, s) = tt
cap_and_store-Serves request m (some b, s) = λ n h. rw (eq_self request, le→leb n m h) refl

cached-hit :
    (request m n : ℕ) (c : PrefixCache)
    → (c.request == request && leb m c.max_bytes) ≡ true
    → n ≤ m
    → cached_prefix request n (some c) ≡ some (take n (take m c.bytes))
unfolding cached_prefix
cached-hit request m n c hit h =
    let wide : (c.request == request && leb n c.max_bytes) ≡ true = ground (arith, hit, h) in
    rw (wide, take-take m n c.bytes h) refl

or_read-Serves :
    (request m : ℕ) (c : Option PrefixCache) (call : Call) (outcome : Outcome) (s : Reads)
    → s.cache ≡ c
    → Serves request m (or_read (cached_prefix request m c) request m call outcome s)
unfolding or_read cached_prefix
or_read-Serves request m none call outcome s e = cap_and_store-Serves request m _
or_read-Serves request m (some c) call outcome s e =
    if_cases (λ o. Serves request m (or_read o request m call outcome s))
      (c.request == request && leb m c.max_bytes) (λ hit n h. rw e (cached-hit request m n c hit h))
      (λ miss. cap_and_store-Serves request m _)

read_and_cache-Serves :
    (request m : ℕ) (call : Call) (outcome : Outcome) (s : Reads)
    → Serves request m (read_and_cache_body request m call outcome s)
unfolding read_and_cache_body
read_and_cache-Serves request m call outcome s =
    or_read-Serves request m s.cache call outcome s refl

Serves-at :
    (request m n : ℕ) (r : Option (List ℕ) × Reads) (bytes : List ℕ)
    → Serves request m r
    → r.0 ≡ some bytes
    → n ≤ m
    → cached_prefix request n r.1.cache ≡ some (take n bytes)
Serves-at request m n (none, s) bytes v e h = ground arith
Serves-at request m n (some b, s) bytes v e h = v n h ∙ ap (Option.map (take n)) e

-- After a read of a request that gave bytes, a read of the same request with the same cap or a smaller
-- one gives their prefix, calls no reader and changes nothing.
pub read_again :
    (request m n : ℕ) (call again : Call) (outcome other : Outcome) (s : Reads) (bytes : List ℕ)
    → (read_and_cache_body request m call outcome s).0 ≡ some bytes
    → n ≤ m
    → read_and_cache_body request n again other (read_and_cache_body request m call outcome s).1
      ≡ (some (take n bytes), (read_and_cache_body request m call outcome s).1)
unfolding or_read read_and_cache_body
read_again request m n call again outcome other s bytes e h =
    let first = read_and_cache_body request m call outcome s in
    let hit =
      Serves-at request m n first bytes (read_and_cache-Serves request m call outcome s) e h in
    rw (read_and_cache_body, hit) refl
