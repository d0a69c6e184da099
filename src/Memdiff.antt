-- ===== src/Memdiff.antt =====
-- record/memdiff.c: comparison of two memory buffers. A `const char *` is a function from offsets
-- to bytes, so advancing a pointer shifts the function. The vector instructions that the code
-- calls through compiler intrinsics are written out lane by lane. The result 1 (the buffers
-- differ) is `true`. Each `while` loop takes fuel; `none` means that the fuel ran out.
pub mod Ranges
pub mod Lanes
pub mod Exact
mod Tests
use flightrec.Prelude.{
  ℕ, zero, suc, ◌+◌, ◌-◌, ◌*◌, ◌/◌, Bool, true, false, not, Option, none, some, leb, ltb, ◌==◌,
  if◌then◌else◌, ◌&&◌,
}

abbrev pub Buffer : Type 0
Buffer = ℕ → ℕ

abbrev pub advance : ℕ → Buffer → Buffer
advance n buf = λ i. buf (n + i)

-- `*(uint64_t *)buf` on a little-endian machine, for a word of `n` bytes.
unfoldable pub load_le : ℕ → Buffer → ℕ
load_le zero buf = 0
load_le (suc n) buf = buf 0 + 256 * load_le n (λ i. buf (suc i))

-- The movemask instructions: bit `i` of the result is the top bit of lane `i`.
unfoldable pub movemask : ℕ → (ℕ → Bool) → ℕ
movemask zero lanes = 0
movemask (suc n) lanes = (if lanes 0 then 1 else 0) + 2 * movemask n (λ i. lanes (suc i))

-- `_kortestz_mask8_u8(a, b)`: 1 if no bit of `a | b` is set; the code calls it with `a` zero.
abbrev pub kortestz : ℕ → Bool
kortestz mask = mask == 0

-- The two counted loops of `memdiff8`: `rounds` words from word `cur` on, then `rounds` bytes.
unfoldable pub words_differ : ℕ → ℕ → Buffer → Buffer → Bool
words_differ zero cur buf1 buf2 = false
words_differ (suc rounds) cur buf1 buf2 =
    let rest = words_differ rounds (cur + 1) buf1 buf2 in
    if load_le 8 (advance (8 * cur) buf1) == load_le 8 (advance (8 * cur) buf2) then rest else true

unfoldable pub bytes_differ : ℕ → ℕ → Buffer → Buffer → Bool
bytes_differ zero pos buf1 buf2 = false
bytes_differ (suc rounds) pos buf1 buf2 =
    let rest = bytes_differ rounds (pos + 1) buf1 buf2 in
    if buf1 pos == buf2 pos then rest else true

unfoldable pub memdiff8 : Buffer → Buffer → ℕ → Bool
memdiff8 buf1 buf2 size =
    let limit = size / 8 in
    if words_differ limit 0 buf1 buf2
    then true
    else if ltb (limit * 8) size
    then bytes_differ (size - limit * 8) (limit * 8) buf1 buf2
    else false

-- The shared shape of the vector routines: `while (size >= width)` over whole blocks with `STEP`,
-- then the next narrower routine on what is left.
unfoldable pub scan :
    (width : ℕ) (block : Buffer → Buffer → Bool) (narrower : Buffer → Buffer → ℕ → Option Bool)
    → ℕ
    → Buffer
    → Buffer
    → ℕ
    → Option Bool
scan width block narrower zero buf1 buf2 size = none
scan width block narrower (suc fuel) buf1 buf2 size =
    let rest =
      scan width block narrower fuel (advance width buf1) (advance width buf2) (size - width) in
    if leb width size
    then (if block buf1 buf2 then some true else rest)
    else if ltb 0 size
    then narrower buf1 buf2 size
    else some false

-- One 16-byte or 32-byte block: `_mm_cmpeq_epi8` and `_mm_movemask_epi8`, held to all ones.
unfoldable pub block16 : Buffer → Buffer → Bool
block16 buf1 buf2 = not (movemask 16 (λ i. buf1 i == buf2 i) == 0xFFFF)

unfoldable pub block32 : Buffer → Buffer → Bool
block32 buf1 buf2 = not (movemask 32 (λ i. buf1 i == buf2 i) == 0xFFFFFFFF)

-- One 64-byte block: `_mm512_cmpeq_epi64_mask` compares eight lanes of eight bytes.
unfoldable pub block64 : Buffer → Buffer → Bool
block64 buf1 buf2 = not (
    kortestz
      (movemask 8 (λ i. load_le 8 (advance (8 * i) buf1) == load_le 8 (advance (8 * i) buf2))))

unfoldable pub memdiff16 : Buffer → Buffer → ℕ → Option Bool
memdiff16 buf1 buf2 size =
    scan 16 block16 (λ b1 b2 n. some (memdiff8 b1 b2 n)) (suc size) buf1 buf2 size

unfoldable pub memdiff32 : Buffer → Buffer → ℕ → Option Bool
memdiff32 buf1 buf2 size = scan 32 block32 memdiff16 (suc size) buf1 buf2 size

unfoldable pub memdiff64 : Buffer → Buffer → ℕ → Option Bool
memdiff64 buf1 buf2 size = scan 64 block64 memdiff32 (suc size) buf1 buf2 size

-- What the build and the CPU offer: a routine is compiled in and supported.
pub record Cpu : Type 0 where
  pub avx512dq : Bool
  pub avx2 : Bool
  pub sse2 : Bool

unfoldable pub best_memdiff : Cpu → ℕ → Buffer → Buffer → ℕ → Option Bool
best_memdiff cpu size =
    if leb 64 size && cpu.avx512dq
    then memdiff64
    else if leb 32 size && cpu.avx2
    then memdiff32
    else if leb 16 size && cpu.sse2
    then memdiff16
    else (λ b1 b2 n. some (memdiff8 b1 b2 n))
