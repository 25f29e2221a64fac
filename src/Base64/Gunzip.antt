-- ===== src/Base64/Gunzip.antt =====
-- packages/core/src/detection-engine/base64-decode.ts: `boundedGunzip`. The runtime's decompression
-- stream is a parameter: what its reads give, one after the other, for the compressed bytes. Nothing
-- says that the reads end, so the loop runs on fuel. `reader.cancel()` is left out: nothing is read
-- after it.
use guard_core_ts.Base.{
  Bool, List, Option, [], drop, false, if◌then◌else◌, leb, length, ltb, min, none, not, some, suc,
  take, zero, ℕ, ◌&&◌, ◌++◌, ◌+◌, ◌-◌, ◌==◌, ◌∷◌,
}

-- One `reader.read()`.
pub data Read : Type 0 where
  chunk : List ℕ → Read
  finished : Read
  failed : Read

-- What the loop comes to: still reading, an exception, or `total` with `chunks`.
pub data Outcome : Type 0 where
  reading : Outcome
  thrown : Outcome
  ended : ℕ → List (List ℕ) → Outcome

-- `const take = Math.min(chunk.length, maxOutputBytes - total)`
abbrev pub room : ℕ → ℕ → List ℕ → ℕ
room max_output total value = min (length value) (max_output - total)

abbrev pub grown_total : ℕ → ℕ → ℕ
grown_total total n = if ltb 0 n then total + n else total

abbrev pub grown_chunks : List (List ℕ) → ℕ → List ℕ → List (List ℕ)
grown_chunks chunks n value = if ltb 0 n then chunks ++ (take n value ∷ []) else chunks

-- `if (done) break`, the exception of a read, or what the loop does with a value.
abbrev pub after_read : Read → ℕ → List (List ℕ) → (List ℕ → Outcome) → Outcome
after_read (chunk value) total chunks go_on = go_on value
after_read finished total chunks go_on = ended total chunks
after_read failed total chunks go_on = thrown

-- The loop `for (;;)`.
unfoldable pub collect : ℕ → ℕ → (ℕ → Read) → ℕ → List (List ℕ) → Outcome
collect max_output zero reads total chunks = reading
collect max_output (suc fuel) reads total chunks =
    after_read (reads 0) total chunks (λ (value : List ℕ).
      let n = room max_output total value in
      let total' = grown_total total n in
      let chunks' = grown_chunks chunks n value in
      let rest = collect max_output fuel (λ (i : ℕ). reads (suc i)) total' chunks' in
      if leb max_output total' then ended total' chunks' else rest)

-- `out.set(chunk, offset)`
abbrev pub set_at : List ℕ → List ℕ → ℕ → List ℕ
set_at out value offset = take offset out ++ value ++ drop (offset + length value) out

unfoldable pub copy_out : List ℕ → List (List ℕ) → ℕ → List ℕ
copy_out out [] offset = out
copy_out out (value ∷ chunks) offset =
    copy_out (set_at out value offset) chunks (offset + length value)

-- `new Uint8Array(total)`
abbrev pub zeros : ℕ → List ℕ
zeros zero = []
zeros (suc n) = 0 ∷ zeros n

unfoldable pub is_gzip : List ℕ → Bool
is_gzip (a ∷ b ∷ raw) = a == 0x1f && b == 0x8b
is_gzip _ = false

-- What follows the loop, and the `catch`.
unfoldable pub finish : Outcome → Option (Option (List ℕ))
unfolding copy_out
finish reading = none
finish thrown = some none
finish (ended total chunks) = some (some (copy_out (zeros total) chunks 0))

-- None out of fuel; `null` is `some none`.
unfoldable pub bounded_gunzip : (List ℕ → ℕ → Read) → ℕ → List ℕ → ℕ → Option (Option (List ℕ))
unfolding is_gzip collect finish
bounded_gunzip inflate fuel raw max_output =
    if not (is_gzip raw) then some none else finish (collect max_output fuel (inflate raw) 0 [])
