-- ===== src/BodyReader/Caps.antt =====
-- How much of a body is read for detection, and how often (core/bounded-body-reader.ts).
use guard_core_ts.Base.{
  ℕ, ◌+◌, ◌≤◌, List, Option, none, some, length, length-take, ltb, leb, ◌==◌, ◌&&◌, arith, if_both,
}
use guard_core_ts.BodyReader.{
  Outcome, Call, PrefixCache, Request, Reads, straddle_overlap_bytes, cached_prefix, cap_and_store,
  or_read, read_and_cache_body, read_prefix, read_whole, read_oversized, read_undeclared, declared,
  read_declared, BodyConfig, max_bytes_of, read_capped_body,
}

-- A result of at most `n` bytes.
abbrev pub IsWithin : ℕ → Option (List ℕ) × Reads → Type 0
IsWithin n (none, s) = Unit
IsWithin n (some bytes, s) = length bytes ≤ n

cap_and_store-IsWithin :
    (request m : ℕ) (r : Option (List ℕ) × Reads) → IsWithin m (cap_and_store request m r)
unfolding cap_and_store
cap_and_store-IsWithin request m (none, s) = tt
cap_and_store-IsWithin request m (some bytes, s) = omega (arith, length-take m bytes)

or_read-IsWithin :
    (request m : ℕ) (c : Option PrefixCache) (call : Call) (outcome : Outcome) (s : Reads)
    → IsWithin m (or_read (cached_prefix request m c) request m call outcome s)
unfolding or_read cached_prefix
or_read-IsWithin request m none call outcome s = cap_and_store-IsWithin request m _
or_read-IsWithin request m (some c) call outcome s =
    if_both (λ o. IsWithin m (or_read o request m call outcome s))
      (c.request == request && leb m c.max_bytes) (omega (arith, length-take m c.bytes))
      (cap_and_store-IsWithin request m _)

read_and_cache-IsWithin :
    (request m : ℕ) (call : Call) (outcome : Outcome) (s : Reads)
    → IsWithin m (read_and_cache_body request m call outcome s)
unfolding read_and_cache_body
read_and_cache-IsWithin request m call outcome s = or_read-IsWithin request m s.cache call outcome s

IsWithin-le : (m n : ℕ) (r : Option (List ℕ) × Reads) → m ≤ n → IsWithin m r → IsWithin n r
IsWithin-le m n (none, s) h k = tt
IsWithin-le m n (some bytes, s) h k = omega (arith, h, k)

pub overlap_le : (longest : Option ℕ) → straddle_overlap_bytes longest ≤ 256
unfolding straddle_overlap_bytes
overlap_le none = omega arith
overlap_le (some n) = omega arith

read_oversized-IsWithin :
    (prefix : Option (ℕ → Outcome)) (r : Request) (m overlap : ℕ) (s : Reads)
    → IsWithin (m + overlap) (read_oversized prefix r m overlap s)
unfolding read_oversized read_prefix
read_oversized-IsWithin none r m overlap s = tt
read_oversized-IsWithin (some prefix) r m overlap s = read_and_cache-IsWithin _ _ _ _ _

read_whole-IsWithin :
    (r : Request) (m overlap : ℕ) (s : Reads) → IsWithin (m + overlap) (read_whole r m s)
unfolding read_whole
read_whole-IsWithin r m overlap s =
    IsWithin-le m (m + overlap) (read_whole r m s) (omega arith) (read_and_cache-IsWithin _ _ _ _ _)

read_undeclared-IsWithin :
    (prefix : Option (ℕ → Outcome)) (r : Request) (m overlap : ℕ) (s : Reads)
    → IsWithin (m + overlap) (read_undeclared prefix r m overlap s)
unfolding read_undeclared read_prefix
read_undeclared-IsWithin none r m overlap s = read_whole-IsWithin r m overlap s
read_undeclared-IsWithin (some prefix) r m overlap s = read_and_cache-IsWithin _ _ _ _ _

read_declared-IsWithin :
    (size : Option ℕ) (r : Request) (m overlap : ℕ) (s : Reads)
    → IsWithin (m + overlap) (read_declared size r m overlap s)
unfolding read_declared
read_declared-IsWithin none r m overlap s =
    read_undeclared-IsWithin r.read_body_prefix r m overlap s
read_declared-IsWithin (some size) r m overlap s =
    if_both (IsWithin (m + overlap)) (ltb m size)
      (read_oversized-IsWithin r.read_body_prefix r m overlap s) (read_whole-IsWithin r m overlap s)

-- Whatever the request declares, its adapter returns and the cache holds, a read for detection gives at
-- most the configured number of bytes, and 256 more for the overlap.
pub read_capped_body-IsWithin :
    (r : Request) (config : Option BodyConfig) (longest : Option ℕ) (s : Reads)
    → IsWithin (max_bytes_of config + 256) (read_capped_body r config longest s)
unfolding read_capped_body
read_capped_body-IsWithin r config longest s =
    let m = max_bytes_of config in
    let overlap = straddle_overlap_bytes longest in
    IsWithin-le (m + overlap) (m + 256) (read_capped_body r config longest s)
      (omega (arith, overlap_le longest))
      (read_declared-IsWithin (declared r.content_length) r m overlap s)
