-- ===== src/Base64/Bounded.antt =====
-- packages/core/src/detection-engine/base64-decode.ts: `boundedGunzip` ends on a stream that never
-- does, and keeps the first bytes of one that does.
use guard_core_ts.Base.{
  List, Option, [], ap, append_assoc, arith, drop, if_both, if_cases, leb, length, length-append,
  length-drop, length-take, none, not, refl, some, suc, sym, take, take-length, zero, ℕ, ◌++◌, ◌+◌,
  ◌<◌, ◌∙◌, ◌∷◌, ◌≡◌, ◌≤◌,
}
use guard_core_ts.Base64.Gunzip.{
  Outcome, Read, after_read, bounded_gunzip, chunk, collect, copy_out, ended, failed, finish,
  finished, grown_chunks, grown_total, is_gzip, reading, room, set_at, thrown, zeros,
}

abbrev pub flatten : List (List ℕ) → List ℕ
flatten [] = []
flatten (value ∷ chunks) = value ++ flatten chunks

-- A stream that throws, or ends, or gives at least a byte, at each read.
abbrev pub NoEmptyChunk : (ℕ → Read) → Type 0
NoEmptyChunk reads = (i : ℕ) (value : List ℕ) → reads i ≡ chunk value → 0 < length value

-- The outcome of a loop that has ended, within the limit.
abbrev pub EndsWithin : ℕ → Outcome → Type 0
EndsWithin max_output reading = ⊥
EndsWithin max_output thrown = Unit
EndsWithin max_output (ended total chunks) =
    (total ≤ max_output) × (length (flatten chunks) ≡ total)

length-flatten-snoc :
    (chunks : List (List ℕ)) (value : List ℕ)
    → length (flatten (chunks ++ (value ∷ []))) ≡ length (flatten chunks) + length value
length-flatten-snoc [] value = ground (arith, length-append value [])
length-flatten-snoc (v ∷ chunks) value = ground (
  arith,
  length-flatten-snoc chunks value,
  length-append v (flatten (chunks ++ (value ∷ []))),
  length-append v (flatten chunks),
)

pub length-grown :
    (max_output total : ℕ) (chunks : List (List ℕ)) (value : List ℕ)
    → length (flatten chunks) ≡ total
    → length (flatten (grown_chunks chunks (room max_output total value) value))
      ≡ grown_total total (room max_output total value)
length-grown max_output total chunks value h = ground (
  arith,
  length-flatten-snoc chunks (take (room max_output total value) value),
  length-take (room max_output total value) value,
)

after_read_lem {κ} :
    (P : Outcome → Type κ) (r : Read) (total : ℕ) (chunks : List (List ℕ))
    (go_on : List ℕ → Outcome)
    → P thrown
    → P (ended total chunks)
    → ((value : List ℕ) → r ≡ chunk value → P (go_on value))
    → P (after_read r total chunks go_on)
after_read_lem P (chunk value) total chunks go_on t e c = c value refl
after_read_lem P finished total chunks go_on t e c = e
after_read_lem P failed total chunks go_on t e c = t

pub collect-EndsWithin :
    (max_output fuel : ℕ) (reads : ℕ → Read) (total : ℕ) (chunks : List (List ℕ))
    → NoEmptyChunk reads
    → max_output < total + fuel
    → total ≤ max_output
    → length (flatten chunks) ≡ total
    → EndsWithin max_output (collect max_output fuel reads total chunks)
unfolding collect
collect-EndsWithin max_output zero reads total chunks ne enough le len = ground arith
collect-EndsWithin max_output (suc fuel) reads total chunks ne enough le len =
    after_read_lem (EndsWithin max_output) (reads 0) total chunks _ tt (le, len)
      (λ value e.
        let n : ℕ = room max_output total value in
        let total' : ℕ = grown_total total n in
        let chunks' : List (List ℕ) = grown_chunks chunks n value in
        let pos : 0 < length value = ne 0 value e in
        let le' : total' ≤ max_output = ground arith in
        let len' : length (flatten chunks') ≡ total' =
          length-grown max_output total chunks value len in
        if_cases (EndsWithin max_output) (leb max_output total') (λ full. (le', len'))
          (λ more.
            collect-EndsWithin max_output fuel (λ (i : ℕ). reads (suc i)) total' chunks'
              (λ i. ne (suc i)) (ground arith) le' len'))

drop-length : (n : ℕ) (xs ys : List ℕ) → drop (length xs + n) (xs ++ ys) ≡ drop n ys
drop-length n [] ys = ap (λ (k : ℕ). drop k ys) (omega arith)
drop-length n (x ∷ xs) ys =
    let e : suc (length xs) + n ≡ suc (length xs + n) = omega arith in
    ap (λ (k : ℕ). drop k (x ∷ (xs ++ ys))) e ∙ drop-length n xs ys

length-zeros : (n : ℕ) → length (zeros n) ≡ n
length-zeros zero = refl
length-zeros (suc n) = ap suc (length-zeros n)

copy_out_lem :
    (done out : List ℕ) (chunks : List (List ℕ))
    → length out ≡ length (flatten chunks)
    → copy_out (done ++ out) chunks (length done) ≡ done ++ flatten chunks
unfolding copy_out
copy_out_lem done [] [] len = refl
copy_out_lem done (x ∷ out) [] len = ground arith
copy_out_lem done out (value ∷ chunks) len =
    let rest : List ℕ = drop (length value) out in
    let placed : set_at (done ++ out) value (length done) ≡ (done ++ value) ++ rest =
      ap (λ (before : List ℕ). before ++ value ++ drop (length done + length value) (done ++ out))
        (take-length done out)
      ∙ ap (λ (after : List ℕ). done ++ value ++ after) (drop-length (length value) done out) in
    ap (λ (t : List ℕ). copy_out t chunks (length done + length value)) placed
    ∙ ap (copy_out ((done ++ value) ++ rest) chunks) (sym (length-append done value))
    ∙ copy_out_lem (done ++ value) rest chunks
        (ground (arith, len, length-append value (flatten chunks), length-drop (length value) out))
    ∙ append_assoc done value (flatten chunks)

abbrev FitsIn : ℕ → Option (List ℕ) → Type 0
FitsIn max_output none = Unit
FitsIn max_output (some out) = length out ≤ max_output

-- A result within the limit.
abbrev Returns : ℕ → Option (Option (List ℕ)) → Type 0
Returns max_output outcome = (out : Option (List ℕ)) × (outcome ≡ some out) × FitsIn max_output out

pub copy_out-zeros :
    (total : ℕ) (chunks : List (List ℕ))
    → length (flatten chunks) ≡ total
    → copy_out (zeros total) chunks 0 ≡ flatten chunks
copy_out-zeros total chunks len =
    copy_out_lem [] (zeros total) chunks (length-zeros total ∙ sym len)

finish-Returns :
    (max_output : ℕ) (outcome : Outcome)
    → EndsWithin max_output outcome
    → Returns max_output (finish outcome)
unfolding finish
finish-Returns max_output reading h = absurd h
finish-Returns max_output thrown h = (none, refl, tt)
finish-Returns max_output (ended total chunks) (le, len) = (
  some (flatten chunks),
  ap (λ (out : List ℕ). some (some out)) (copy_out-zeros total chunks len),
  omega (arith, len, le),
)

-- Where no chunk of the stream is empty, whether it ends or not, `boundedGunzip` returns within one
-- more read than the limit, and what it returns is no longer than the limit.
bounded_gunzip_returns :
    (inflate : List ℕ → ℕ → Read) (raw : List ℕ) (max_output : ℕ)
    → NoEmptyChunk (inflate raw)
    → (out : Option (List ℕ)) × (bounded_gunzip inflate (suc max_output) raw max_output ≡ some out)
      × FitsIn max_output out
unfolding bounded_gunzip
bounded_gunzip_returns inflate raw max_output ne =
    if_both (Returns max_output) (not (is_gzip raw)) (none, refl, tt)
      (finish-Returns max_output _ (
        collect-EndsWithin max_output (suc max_output) (inflate raw) 0 [] ne (omega arith)
          (omega arith) refl))
