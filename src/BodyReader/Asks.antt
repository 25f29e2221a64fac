-- ===== src/BodyReader/Asks.antt =====
-- packages/core/src/core/bounded-body-reader.ts: what `readCappedBody` asks of the adapter.
use guard_core_ts.Base.{
  List, Option, [], arith, if_cases, inl, inr, ltb, none, refl, some, sym, ℕ, ◌++◌, ◌+◌, ◌<◌, ◌∙◌,
  ◌∷◌, ◌≡◌, ◌≢◌, ◌≤◌, ◌⊎◌,
}
use guard_core_ts.BodyReader.Caps.{overlap_le}
use guard_core_ts.BodyReader.{
  BodyConfig, Call, Outcome, Reads, Request, body_call, cached_prefix, cap_and_store, declared,
  max_bytes_of, not_bytes, or_read, prefix_call, read_and_cache_body, read_bytes, read_capped_body,
  read_declared, read_oversized, read_prefix, read_undeclared, read_whole, cap_reached, threw,
  timed_out, safe_read, store_prefix, straddle_overlap_bytes, take_outcome, warn,
}

-- The size that lets a body be read whole: it is declared and within the cap, or no usable size is
-- declared and the adapter reads no prefixes.
abbrev pub ReadsWhole : Request → ℕ → Type 0
ReadsWhole r limit =
    ((size : ℕ) × (declared r.content_length ≡ some size) × (size ≤ limit))
    ⊎ ((declared r.content_length ≡ none) × (r.read_body_prefix ≡ none))

-- A prefix is asked for where the adapter reads prefixes, and no size within the cap is declared.
abbrev pub ReadsPrefix : Request → ℕ → Type 0
ReadsPrefix r limit =
    (r.read_body_prefix ≢ none)
    × ((declared r.content_length ≡ none)
        ⊎ ((size : ℕ) × (declared r.content_length ≡ some size) × (limit < size)))

-- The calls after a read: as before, or one more, for the whole body or for the cap with an overlap of
-- at most 256.
abbrev pub AsksWithin : Request → ℕ → List Call → List Call → Type 0
AsksWithin r limit before after =
    (after ≡ before)
    ⊎ ((ReadsWhole r limit × (after ≡ before ++ body_call ∷ []))
        ⊎ (ReadsPrefix r limit
            × ((n : ℕ) × (limit ≤ n) × (n ≤ limit + 256) × (after ≡ before ++ prefix_call n ∷ []))))

-- No call, or this one.
abbrev AtMost : Call → List Call → Option (List ℕ) × Reads → Type 0
AtMost call before (o, s) = (s.calls ≡ before) ⊎ (s.calls ≡ before ++ call ∷ [])

take_outcome-calls : (o : Outcome) (s : Reads) → (take_outcome o s).1.calls ≡ s.calls
unfolding take_outcome
take_outcome-calls (read_bytes b) s = refl
take_outcome-calls not_bytes s = refl
take_outcome-calls threw s = refl
take_outcome-calls timed_out s = refl

cap_and_store-calls :
    (request m : ℕ) (r : Option (List ℕ) × Reads) → (cap_and_store request m r).1.calls ≡ r.1.calls
unfolding cap_and_store store_prefix
cap_and_store-calls request m (none, s) = refl
cap_and_store-calls request m (some b, s) = refl

or_read-AtMost :
    (cached : Option (List ℕ)) (request m : ℕ) (call : Call) (outcome : Outcome) (s : Reads)
    → AtMost call s.calls (or_read cached request m call outcome s)
unfolding or_read safe_read
or_read-AtMost (some b) request m call outcome s = inl refl
or_read-AtMost none request m call outcome s =
    let called : Reads = record s { calls = s.calls ++ call ∷ [] } in
    inr (
      cap_and_store-calls request m (take_outcome outcome called)
      ∙ take_outcome-calls outcome called)

read-AtMost :
    (request m : ℕ) (call : Call) (outcome : Outcome) (s : Reads)
    → AtMost call s.calls (read_and_cache_body request m call outcome s)
unfolding read_and_cache_body
read-AtMost request m call outcome s =
    or_read-AtMost (cached_prefix request m s.cache) request m call outcome s

abbrev Asks : Request → ℕ → Reads → Option (List ℕ) × Reads → Type 0
Asks r limit s (o, s') = AsksWithin r limit s.calls s'.calls

whole-Asks :
    (r : Request) (limit : ℕ) (s : Reads)
    → ReadsWhole r limit
    → Asks r limit s (read_whole r limit s)
unfolding read_whole
whole-Asks r limit s may = elim (read-AtMost r.identity limit body_call r.body s) [
  | inl same ↦ inl same
  | inr called ↦ inr (inl (may, called))
]

prefix-Asks :
    (r : Request) (prefix : ℕ → Outcome) (limit overlap : ℕ) (s : Reads)
    → overlap ≤ 256
    → ReadsPrefix r limit
    → Asks r limit s (read_prefix r prefix (limit + overlap) s)
unfolding read_prefix
prefix-Asks r prefix limit overlap s le may =
    elim (read-AtMost r.identity (limit + overlap) (prefix_call (limit + overlap))
      (prefix (limit + overlap)) s) [
        | inl same ↦ inl same
        | inr called ↦ inr (inr (may, (limit + overlap, omega arith, omega (arith, le), called)))
      ]

none≢some : {A : Type 0} {a : A} → some a ≢ none
none≢some e = ground arith

oversized-Asks :
    (prefix : Option (ℕ → Outcome)) (r : Request) (limit overlap size : ℕ) (s : Reads)
    → r.read_body_prefix ≡ prefix
    → overlap ≤ 256
    → declared r.content_length ≡ some size
    → limit < size
    → Asks r limit s (read_oversized prefix r limit overlap s)
unfolding read_oversized
oversized-Asks none r limit overlap size s p le d over = inl refl
oversized-Asks (some prefix) r limit overlap size s p le d over =
    prefix-Asks r prefix limit overlap (warn cap_reached s) le
      ((λ e. none≢some (sym p ∙ e)), inr (size, d, over))

undeclared-Asks :
    (prefix : Option (ℕ → Outcome)) (r : Request) (limit overlap : ℕ) (s : Reads)
    → r.read_body_prefix ≡ prefix
    → overlap ≤ 256
    → declared r.content_length ≡ none
    → Asks r limit s (read_undeclared prefix r limit overlap s)
unfolding read_undeclared
undeclared-Asks none r limit overlap s p le d = whole-Asks r limit s (inr (d, p))
undeclared-Asks (some prefix) r limit overlap s p le d =
    prefix-Asks r prefix limit overlap s le ((λ e. none≢some (sym p ∙ e)), inl d)

declared-Asks :
    (size : Option ℕ) (r : Request) (limit overlap : ℕ) (s : Reads)
    → overlap ≤ 256
    → declared r.content_length ≡ size
    → Asks r limit s (read_declared size r limit overlap s)
unfolding read_declared
declared-Asks none r limit overlap s le d =
    undeclared-Asks r.read_body_prefix r limit overlap s refl le d
declared-Asks (some size) r limit overlap s le d =
    if_cases (Asks r limit s) (ltb limit size)
      (λ over.
        oversized-Asks r.read_body_prefix r limit overlap size s refl le d (ground (arith, over)))
      (λ within. whole-Asks r limit s (inl (size, d, ground (arith, within))))

-- Whatever the adapter can do and the cache holds, a read for detection asks the adapter at most once:
-- for the whole body only if it declares a size within the cap, or no usable size on an adapter that
-- reads no prefixes; else for a prefix of the cap, with an overlap of at most 256.
pub read_capped_body-AsksWithin :
    (r : Request) (config : Option BodyConfig) (longest : Option ℕ) (s : Reads)
    → AsksWithin r (max_bytes_of config) s.calls (read_capped_body r config longest s).1.calls
unfolding read_capped_body
read_capped_body-AsksWithin r config longest s =
    declared-Asks (declared r.content_length) r (max_bytes_of config)
      (straddle_overlap_bytes longest) s (overlap_le longest) refl
