-- ===== src/Base64/Prefix.antt =====
-- packages/core/src/detection-engine/base64-decode.ts: what `boundedGunzip` returns of a stream.
use guard_core_ts.Base.{
  List, Option, [], ap, append-nil, append_assoc, arith, drop, false, if_cases, inl, inr, leb,
  length, lt→ltb, none, not, refl, some, subst, suc, sym, take, take-append-drop, take-length, zero,
  ℕ, ◌++◌, ◌∙◌, ◌∷◌, ◌≡◌, ◌≤◌, ◌⊎◌,
}
use guard_core_ts.Base64.Gunzip.{
  Outcome, Read, after_read, bounded_gunzip, chunk, collect, ended, failed, finish, finished,
  grown_chunks, grown_total, is_gzip, reading, room, thrown,
}
use guard_core_ts.Base64.Bounded.{
  EndsWithin, NoEmptyChunk, collect-EndsWithin, copy_out-zeros, flatten, length-grown,
}

abbrev first_read : Read → List ℕ → List ℕ
first_read (chunk value) rest = value ++ rest
first_read finished rest = []
first_read failed rest = []

-- The bytes of the first reads, up to the end of the stream or its failure.
abbrev pub bytes_read : ℕ → (ℕ → Read) → List ℕ
bytes_read zero reads = []
bytes_read (suc n) reads = first_read (reads 0) (bytes_read n (λ (i : ℕ). reads (suc i)))

abbrev pub Fails : (ℕ → Read) → Type 0
Fails reads = (i : ℕ) × (reads i ≡ failed)

-- A loop that ended has kept the first of all the bytes.
abbrev Keeps : ℕ → (ℕ → Read) → List ℕ → Outcome → Type 0
Keeps max_output reads all reading = Unit
Keeps max_output reads all thrown = Fails reads
Keeps max_output reads all (ended total chunks) = flatten chunks ≡ take max_output all

take-all : (n : ℕ) (xs : List ℕ) → length xs ≤ n → take n xs ≡ xs
take-all zero [] h = refl
take-all (suc n) [] h = refl
take-all zero (x ∷ xs) h = ground arith
take-all (suc n) (x ∷ xs) h = ap (◌∷◌ x) (take-all n xs (omega (arith, h)))

drop-all : (n : ℕ) (xs : List ℕ) → length xs ≤ n → drop n xs ≡ []
drop-all zero [] h = refl
drop-all (suc n) [] h = refl
drop-all zero (x ∷ xs) h = ground arith
drop-all (suc n) (x ∷ xs) h = drop-all n xs (omega (arith, h))

take-whole : (n : ℕ) (xs ys : List ℕ) → length xs ≡ n → take n (xs ++ ys) ≡ xs
take-whole n xs ys h = ap (λ (m : ℕ). take m (xs ++ ys)) (sym h) ∙ take-length xs ys

flatten-snoc :
    (chunks : List (List ℕ)) (value : List ℕ)
    → flatten (chunks ++ (value ∷ [])) ≡ flatten chunks ++ value
flatten-snoc [] value = append-nil value
flatten-snoc (v ∷ chunks) value =
    ap (◌++◌ v) (flatten-snoc chunks value) ∙ sym (append_assoc v (flatten chunks) value)

flatten-grown :
    (chunks : List (List ℕ)) (n : ℕ) (value : List ℕ)
    → flatten (grown_chunks chunks n value) ≡ flatten chunks ++ take n value
flatten-grown chunks zero value = sym (append-nil (flatten chunks))
flatten-grown chunks (suc n) value =
    rw (lt→ltb 0 (suc n) (omega arith)) (flatten-snoc chunks (take (suc n) value))

regroup :
    (before value rest : List ℕ) (n : ℕ)
    → before ++ (value ++ rest) ≡ (before ++ take n value) ++ (drop n value ++ rest)
regroup before value rest n =
    ap (λ (v : List ℕ). before ++ (v ++ rest)) (sym (take-append-drop n value))
    ∙ ap (◌++◌ before) (append_assoc (take n value) (drop n value) rest)
    ∙ sym (append_assoc before (take n value) (drop n value ++ rest))

after_read_ind {κ} :
    (P : Read → Outcome → Type κ) (r : Read) (total : ℕ) (chunks : List (List ℕ))
    (go_on : List ℕ → Outcome)
    → (r ≡ failed → P failed thrown)
    → P finished (ended total chunks)
    → ((value : List ℕ) → r ≡ chunk value → P (chunk value) (go_on value))
    → P r (after_read r total chunks go_on)
after_read_ind P (chunk value) total chunks go_on t e c = c value refl
after_read_ind P finished total chunks go_on t e c = e
after_read_ind P failed total chunks go_on t e c = t refl

Keeps-later :
    (max_output : ℕ) (reads : ℕ → Read) (all : List ℕ) (outcome : Outcome)
    → Keeps max_output (λ (i : ℕ). reads (suc i)) all outcome
    → Keeps max_output reads all outcome
Keeps-later max_output reads all reading h = tt
Keeps-later max_output reads all thrown (i, e) = (suc i, e)
Keeps-later max_output reads all (ended total chunks) h = h

collect-Keeps :
    (max_output fuel : ℕ) (reads : ℕ → Read) (total : ℕ) (chunks : List (List ℕ))
    → total ≤ max_output
    → length (flatten chunks) ≡ total
    → Keeps max_output reads
        (flatten chunks ++ bytes_read fuel reads)
        (collect max_output fuel reads total chunks)
unfolding collect
collect-Keeps max_output zero reads total chunks le len = tt
collect-Keeps max_output (suc fuel) reads total chunks le len =
    let before : List ℕ = flatten chunks in
    let later : ℕ → Read = λ (i : ℕ). reads (suc i) in
    let rest : List ℕ = bytes_read fuel later in
    after_read_ind
      (λ (r : Read) (o : Outcome). Keeps max_output reads (before ++ first_read r rest) o) (reads 0)
      total chunks _ (λ e. (0, e))
      (sym (take-all max_output before (omega (arith, len, le)))
        ∙ ap (take max_output) (sym (append-nil before)))
      (λ value e.
        let n : ℕ = room max_output total value in
        let total' : ℕ = grown_total total n in
        let chunks' : List (List ℕ) = grown_chunks chunks n value in
        let le' : total' ≤ max_output = ground arith in
        let len' : length (flatten chunks') ≡ total' =
          length-grown max_output total chunks value len in
        let all : before ++ (value ++ rest) ≡ flatten chunks' ++ (drop n value ++ rest) =
          regroup before value rest n
          ∙ ap (λ (t : List ℕ). t ++ (drop n value ++ rest)) (sym (flatten-grown chunks n value)) in
        if_cases (Keeps max_output reads (before ++ (value ++ rest))) (leb max_output total')
          (λ full. sym (
            ap (take max_output) all
            ∙ take-whole max_output (flatten chunks') (drop n value ++ rest)
                (ground (arith, full, le', len'))))
          (λ more.
            let none_left : drop n value ≡ [] = drop-all n value (ground (arith, more)) in
            let all' : flatten chunks' ++ rest ≡ before ++ (value ++ rest) =
              sym (all ∙ ap (λ (t : List ℕ). flatten chunks' ++ (t ++ rest)) none_left) in
            Keeps-later max_output reads (before ++ (value ++ rest)) _ (
              subst
                (λ (t : List ℕ).
                  Keeps max_output later t (collect max_output fuel later total' chunks'))
                all' (collect-Keeps max_output fuel later total' chunks' le' len'))))

-- `null` only for what is no gzip or a stream that fails; else the first bytes of the stream.
abbrev pub IsResult : (ℕ → Read) → List ℕ → ℕ → Option (List ℕ) → Type 0
IsResult reads raw max_output none = (is_gzip raw ≡ false) ⊎ Fails reads
IsResult reads raw max_output (some out) = out ≡ take max_output (bytes_read (suc max_output) reads)

abbrev Returns : (ℕ → Read) → List ℕ → ℕ → Option (Option (List ℕ)) → Type 0
Returns reads raw max_output outcome =
    (out : Option (List ℕ)) × (outcome ≡ some out) × IsResult reads raw max_output out

finish-Returns :
    (reads : ℕ → Read) (raw : List ℕ) (max_output : ℕ) (outcome : Outcome)
    → EndsWithin max_output outcome
    → Keeps max_output reads (bytes_read (suc max_output) reads) outcome
    → Returns reads raw max_output (finish outcome)
unfolding finish
finish-Returns reads raw max_output reading h k = absurd h
finish-Returns reads raw max_output thrown h k = (none, refl, inr k)
finish-Returns reads raw max_output (ended total chunks) (le, len) k = (
  some (flatten chunks),
  ap (λ (out : List ℕ). some (some out)) (copy_out-zeros total chunks len),
  k,
)

-- Where no chunk of the stream is empty, whether it ends or not, `boundedGunzip` returns within one
-- more read than the limit: the first bytes of the stream, as many as the limit allows, and nothing
-- only if the input is no gzip or a read of the stream fails.
pub bounded_gunzip_lem :
    (inflate : List ℕ → ℕ → Read) (raw : List ℕ) (max_output : ℕ)
    → NoEmptyChunk (inflate raw)
    → (out : Option (List ℕ)) × (bounded_gunzip inflate (suc max_output) raw max_output ≡ some out)
      × IsResult (inflate raw) raw max_output out
unfolding bounded_gunzip
bounded_gunzip_lem inflate raw max_output ne =
    if_cases (Returns (inflate raw) raw max_output) (not (is_gzip raw))
      (λ other. (none, refl, inl (ground (arith, other))))
      (λ gzip.
        finish-Returns (inflate raw) raw max_output _
          (collect-EndsWithin max_output (suc max_output) (inflate raw) 0 [] ne (omega arith)
            (omega arith) refl)
          (collect-Keeps max_output (suc max_output) (inflate raw) 0 [] (omega arith) refl))
