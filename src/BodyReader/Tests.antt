-- ===== src/BodyReader/Tests.antt =====
-- Runs of core/bounded-body-reader.ts, and the theorems about it at concrete inputs.
use guard_core_ts.Base.{◌≡◌, refl, List, [], ◌∷◌, Option, none, some, inl}
use guard_core_ts.BodyReader.{
  read_bytes, timed_out, body_call, prefix_call, Request, Reads, BodyConfig, parse_content_length,
  parse_stripped, positive, trim_start, trim_end, digits_value, declared, read_capped_body,
  read_and_cache_body, read_declared, read_oversized, read_prefix, or_read, cap_and_store,
  store_prefix, safe_read, take_outcome, cached_prefix, straddle_overlap_bytes, max_bytes_of, asks,
  ends, sees, BudgetEvent, run, step, start_if, woken, acquire_slot, release_slot, wake,
  adopt_limit, set_body_read_concurrency_limit,
}
use guard_core_ts.BodyReader.Caps.{IsWithin, read_capped_body-IsWithin}
use guard_core_ts.BodyReader.Asks.{AsksWithin, read_capped_body-AsksWithin}
use guard_core_ts.BodyReader.Slots.{idle, IsFair, run-IsFair}

abbrev no_reads : Reads
no_reads = record { cache = none; calls = []; warnings = [] }

-- " 12 ", on an adapter with a bounded reader.
abbrev upload : Request
upload = record {
  identity = 1;
  content_length = some (32 ∷ 49 ∷ 50 ∷ 32 ∷ []);
  body = read_bytes (1 ∷ 2 ∷ 3 ∷ []);
  read_body_prefix = some (λ n. read_bytes (1 ∷ 2 ∷ []));
}

abbrev small : Option BodyConfig
small = some (record { body_read_max_concurrent = 2; detection_max_body_inspect_bytes = 2 })

signed : parse_content_length (45 ∷ 49 ∷ []) ≡ none
unfolding parse_content_length trim_start trim_end parse_stripped digits_value positive
signed = refl

zero_length : parse_content_length (48 ∷ []) ≡ none
unfolding parse_content_length trim_start trim_end parse_stripped digits_value positive
zero_length = refl

reads_prefix : (read_capped_body upload small (some 5) no_reads).1.calls ≡ prefix_call 7 ∷ []
unfolding read_capped_body declared parse_content_length trim_start trim_end parse_stripped
    digits_value positive read_declared read_oversized read_prefix read_and_cache_body or_read
    cached_prefix cap_and_store safe_read take_outcome store_prefix straddle_overlap_bytes
    max_bytes_of
reads_prefix = refl

given_up : (read_and_cache_body 1 9 body_call timed_out no_reads).0 ≡ none
unfolding read_and_cache_body or_read cached_prefix cap_and_store safe_read take_outcome
given_up = refl

read_capped_body-IsWithin_example : IsWithin 258 (read_capped_body upload small (some 900) no_reads)
unfolding max_bytes_of
read_capped_body-IsWithin_example = read_capped_body-IsWithin upload small (some 900) no_reads

read_capped_body-AsksWithin_example :
    AsksWithin upload (max_bytes_of small) [] (read_capped_body upload small none no_reads).1.calls
read_capped_body-AsksWithin_example = read_capped_body-AsksWithin upload small none no_reads

-- Two slots, four reads: the third waits until the first is over.
abbrev busy : List BudgetEvent
busy = sees small ∷ asks 1 ∷ asks 2 ∷ asks 3 ∷ asks 4 ∷ ends 1 ∷ []

third_runs : (run (idle 2) busy).readers ≡ 2 ∷ 3 ∷ []
unfolding run step start_if woken acquire_slot release_slot wake adopt_limit
    set_body_read_concurrency_limit
third_runs = refl

run-IsFair_example : IsFair 2 (1 ∷ 2 ∷ 3 ∷ 4 ∷ []) (run (idle 2) busy)
run-IsFair_example = run-IsFair 2 busy (inl refl, (tt, (tt, (tt, (tt, (tt, tt))))))
