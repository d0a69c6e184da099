-- ===== src/Memdiff/Tests.antt =====
-- Runs of the comparisons, and the theorems at an input.
use flightrec.Prelude.{◌≡◌, refl, Bool, true, false, some, ◌==◌, if◌then◌else◌, arith}
use flightrec.Memdiff.{
  Buffer, load_le, movemask, words_differ, bytes_differ, memdiff8, scan, block16, block32, block64,
  memdiff16, memdiff32, memdiff64, Cpu, best_memdiff,
}
use flightrec.Memdiff.Ranges.{Agree, Decides, IsBytes}
use flightrec.Memdiff.Exact.{best_memdiff_exact, memdiff64_same}

-- All bytes 7, but for byte 37.
abbrev flat : Buffer
flat i = 7

abbrev bump : Buffer
bump i = if i == 37 then 8 else 7

abbrev avx2_only : Cpu
avx2_only = record { avx512dq = false; avx2 = true; sse2 = true }

program : Unit {0}
unfolding load_le movemask words_differ bytes_differ memdiff8 scan block16 block32 block64 memdiff16
    memdiff32 memdiff64 best_memdiff
program = tt

runs :
    (memdiff32 flat bump 37 ≡ some false)
    × (memdiff32 flat bump 38 ≡ some true)
    × (memdiff8 flat bump 41 ≡ true)
    × (memdiff16 flat bump 100 ≡ some true)
    × (memdiff64 flat bump 64 ≡ some true)
unfolding program
runs = (refl, refl, refl, refl, refl)

flat-IsBytes : IsBytes flat
flat-IsBytes i = omega arith

bump-IsBytes : IsBytes bump
bump-IsBytes i = ground arith

best_memdiff_exact_example :
    (r : Bool) × (best_memdiff avx2_only 32 flat bump 38 ≡ some r)
    × Decides r (Agree flat bump 0 38)
best_memdiff_exact_example =
    best_memdiff_exact avx2_only 32 flat bump 38 (omega arith) flat-IsBytes bump-IsBytes

memdiff64_same_example : memdiff64 bump bump 70 ≡ some true
memdiff64_same_example = memdiff64_same bump 70 (omega arith)
