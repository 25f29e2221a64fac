-- ===== src/BodyReader.antt =====
-- packages/core/src/core/bounded-body-reader.ts: the reads of request bodies for detection, with their
-- caps, the cache of the prefix, and the budget of reads in flight. What a reader of the request does
-- is the outcome of its race with the timeout, from outside.
pub mod Parsing
pub mod Slots
pub mod Caps
pub mod Asks
pub mod Cache
pub mod ContentLength
pub mod Tests
use guard_core_ts.Base.{
  ℕ, ◌+◌, ◌-◌, Bool, true, false, List, [], ◌∷◌, ◌++◌, Option, none, some, take, min, ltb, leb,
  ◌==◌, ◌&&◌, if◌then◌else◌,
}
unfoldable pub use guard_core_ts.BodyReader.Parsing.*

-- The module's state: the reads in flight, and the queued ones, oldest first.
pub record Budget : Type 0 where
  pub in_flight : ℕ
  pub acquire : List ℕ
  pub max_concurrent_limit : ℕ

abbrev pub default_body_read_max_concurrent : ℕ
default_body_read_max_concurrent = 64

unfoldable pub set_body_read_concurrency_limit : ℕ → Budget → Budget
set_body_read_concurrency_limit limit b = record b { max_concurrent_limit = limit }

-- `acquireSlot`: whether the read starts at once.
unfoldable pub acquire_slot : ℕ → Budget → Bool × Budget
acquire_slot reader b =
    if ltb b.in_flight b.max_concurrent_limit
    then (true, record b { in_flight = b.in_flight + 1 })
    else (false, record b { acquire = b.acquire ++ reader ∷ [] })

-- `releaseSlot`: which queued read starts.
unfoldable pub wake : List ℕ → ℕ → Option ℕ × List ℕ × ℕ
wake [] in_flight = (none, [], in_flight)
wake (reader ∷ rest) in_flight = (some reader, rest, in_flight + 1)

unfoldable pub release_slot : Budget → Option ℕ × Budget
release_slot b =
    let (woken, acquire, in_flight) = wake b.acquire (b.in_flight - 1) in
    (woken, record b { in_flight = in_flight; acquire = acquire })

-- How the race of a reader with the timeout ends.
pub data Outcome : Type 0 where
  read_bytes : List ℕ → Outcome
  not_bytes threw timed_out : Outcome

pub data Call : Type 0 where
  body_call : Call
  prefix_call : ℕ → Call

pub data Warning : Type 0 where
  reader_not_bytes no_bounded_reader cap_reached : Warning

-- `BodyPrefixCache`
pub record PrefixCache : Type 0 where
  pub request : ℕ
  pub max_bytes : ℕ
  pub bytes : List ℕ

-- A request, its object by a number, with the readers that its adapter has.
pub record Request : Type 0 where
  pub identity : ℕ
  pub content_length : Option (List ℕ)
  pub body : Outcome
  pub read_body_prefix : Option (ℕ → Outcome)

-- The cache in the request's state, and what was called and logged.
pub record Reads : Type 0 where
  pub cache : Option PrefixCache
  pub calls : List Call
  pub warnings : List Warning

abbrev pub warn : Warning → Reads → Reads
warn w s = record s { warnings = s.warnings ++ w ∷ [] }

-- `safeRead`, between the grant of its slot and its release.
unfoldable pub take_outcome : Outcome → Reads → Option (List ℕ) × Reads
take_outcome (read_bytes bytes) s = (some bytes, s)
take_outcome not_bytes s = (none, warn reader_not_bytes s)
take_outcome threw s = (none, s)
take_outcome timed_out s = (none, s)

unfoldable pub safe_read : Call → Outcome → Reads → Option (List ℕ) × Reads
safe_read call outcome s = take_outcome outcome (record s { calls = s.calls ++ call ∷ [] })

-- `straddleOverlapBytes`
unfoldable pub straddle_overlap_bytes : Option ℕ → ℕ
straddle_overlap_bytes none = 0
straddle_overlap_bytes (some longest) = min longest 256

-- `cachedPrefix`
unfoldable pub cached_prefix : ℕ → ℕ → Option PrefixCache → Option (List ℕ)
cached_prefix request max_bytes none = none
cached_prefix request max_bytes (some c) =
    if c.request == request && leb max_bytes c.max_bytes
    then some (take max_bytes c.bytes)
    else none

-- `storePrefix`
unfoldable pub store_prefix : ℕ → ℕ → List ℕ → Reads → Reads
store_prefix request max_bytes bytes s = record s {
  cache = some (record { request = request; max_bytes = max_bytes; bytes = bytes });
}

unfoldable pub cap_and_store : ℕ → ℕ → Option (List ℕ) × Reads → Option (List ℕ) × Reads
cap_and_store request max_bytes (none, s) = (none, s)
cap_and_store request max_bytes (some bytes, s) =
    (some (take max_bytes bytes), store_prefix request max_bytes (take max_bytes bytes) s)

unfoldable pub or_read : Option (List ℕ) → ℕ → ℕ → Call → Outcome → Reads → Option (List ℕ) × Reads
or_read (some bytes) request max_bytes call outcome s = (some bytes, s)
or_read none request max_bytes call outcome s =
    cap_and_store request max_bytes (safe_read call outcome s)

-- `readAndCacheBody`
unfoldable pub read_and_cache_body : ℕ → ℕ → Call → Outcome → Reads → Option (List ℕ) × Reads
read_and_cache_body request max_bytes call outcome s =
    or_read (cached_prefix request max_bytes s.cache) request max_bytes call outcome s

-- The read through `readBodyPrefix`, with the overlap.
unfoldable pub read_prefix : Request → (ℕ → Outcome) → ℕ → Reads → Option (List ℕ) × Reads
read_prefix r prefix fetch s =
    read_and_cache_body r.identity fetch (prefix_call fetch) (prefix fetch) s

unfoldable pub read_whole : Request → ℕ → Reads → Option (List ℕ) × Reads
read_whole r max_bytes s = read_and_cache_body r.identity max_bytes body_call r.body s

-- `readOversizedDeclaredBody`
unfoldable pub read_oversized :
    Option (ℕ → Outcome) → Request → ℕ → ℕ → Reads → Option (List ℕ) × Reads
read_oversized none r max_bytes overlap s = (none, warn no_bounded_reader s)
read_oversized (some prefix) r max_bytes overlap s =
    read_prefix r prefix (max_bytes + overlap) (warn cap_reached s)

-- No usable size is declared.
unfoldable pub read_undeclared :
    Option (ℕ → Outcome) → Request → ℕ → ℕ → Reads → Option (List ℕ) × Reads
read_undeclared none r max_bytes overlap s = read_whole r max_bytes s
read_undeclared (some prefix) r max_bytes overlap s = read_prefix r prefix (max_bytes + overlap) s

unfoldable pub declared : Option (List ℕ) → Option ℕ
declared none = none
declared (some value) = parse_content_length value

unfoldable pub read_declared : Option ℕ → Request → ℕ → ℕ → Reads → Option (List ℕ) × Reads
read_declared none r max_bytes overlap s = read_undeclared r.read_body_prefix r max_bytes overlap s
read_declared (some size) r max_bytes overlap s =
    if ltb max_bytes size
    then read_oversized r.read_body_prefix r max_bytes overlap s
    else read_whole r max_bytes s

-- The part of the configuration that is read.
pub record BodyConfig : Type 0 where
  pub body_read_max_concurrent : ℕ
  pub detection_max_body_inspect_bytes : ℕ

unfoldable pub max_bytes_of : Option BodyConfig → ℕ
max_bytes_of none = 262144
max_bytes_of (some c) = c.detection_max_body_inspect_bytes

unfoldable pub adopt_limit : Option BodyConfig → Budget → Budget
adopt_limit none b = b
adopt_limit (some c) b =
    if ltb 0 c.body_read_max_concurrent
    then set_body_read_concurrency_limit c.body_read_max_concurrent b
    else b

-- `readCappedBody`
unfoldable pub read_capped_body :
    Request → Option BodyConfig → Option ℕ → Reads → Option (List ℕ) × Reads
read_capped_body r config longest s =
    read_declared (declared r.content_length) r (max_bytes_of config)
      (straddle_overlap_bytes longest) s

-- The calls and returns around a read: a read asks for its slot, or one that has its slot is over, or a
-- read sees a configuration.
pub data BudgetEvent : Type 0 where
  asks : ℕ → BudgetEvent
  ends : ℕ → BudgetEvent
  sees : Option BodyConfig → BudgetEvent

-- The budget, and the reads that have a slot, oldest first.
pub record Running : Type 0 where
  pub budget : Budget
  pub readers : List ℕ
  pub granted : List ℕ

unfoldable pub start_if : Bool × Budget → ℕ → Running → Running
start_if (true, b) reader s = record {
  budget = b;
  readers = s.readers ++ reader ∷ [];
  granted = s.granted ++ reader ∷ [];
}
start_if (false, b) reader s = record s { budget = b }

unfoldable pub woken : Option ℕ × Budget → Running → Running
woken (none, b) s = record s { budget = b }
woken (some reader, b) s = record {
  budget = b;
  readers = s.readers ++ reader ∷ [];
  granted = s.granted ++ reader ∷ [];
}

abbrev pub remove_first : ℕ → List ℕ → List ℕ
remove_first reader [] = []
remove_first reader (r ∷ readers) = if r == reader then readers else r ∷ remove_first reader readers

abbrev pub has_reader : ℕ → List ℕ → Bool
has_reader reader [] = false
has_reader reader (r ∷ readers) = if r == reader then true else has_reader reader readers

unfoldable pub step : Running → BudgetEvent → Running
step s (asks reader) = start_if (acquire_slot reader s.budget) reader s
step s (ends reader) =
    if has_reader reader s.readers
    then woken (release_slot s.budget) (record s { readers = remove_first reader s.readers })
    else s
step s (sees config) = record s { budget = adopt_limit config s.budget }

unfoldable pub run : Running → List BudgetEvent → Running
run s [] = s
run s (e ∷ es) = run (step s e) es
