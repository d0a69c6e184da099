-- ===== src/Memdiff/Exact.antt =====
-- The routines of record/memdiff.c compare exactly, and `memdiff64` does not.
use flightrec.Prelude.{
  ℕ, zero, suc, ◌+◌, ◌-◌, ◌*◌, ◌/◌, ◌≤◌, ◌<◌, ◌≡◌, refl, inl, inr, Bool, true, false, Option, some,
  ℕ_discrete, leb, leb→le, ltb, ◌==◌, arith, Bool-cases, ==_iff, sym, ◌∙◌, ◌&&◌,
}
use flightrec.Memdiff.{
  Buffer, advance, load_le, words_differ, bytes_differ, memdiff8, scan, block16, block32, memdiff16,
  memdiff32, memdiff64, Cpu, best_memdiff,
}
use flightrec.Memdiff.Ranges.{IsBytes, Agree, Decides, Agree-at, Agree-join, Agree-part, Agree-step}
use flightrec.Memdiff.Lanes.{
  load_le-eq, load_le_cong, Exact, block16-Exact, block32-Exact, block64_same,
}

-- A comparison is right and ends, on buffers of `size` bytes.
abbrev pub Compares : (Buffer → Buffer → ℕ → Option Bool) → Type 0
Compares f =
    (a b : Buffer) (size : ℕ)
    → IsBytes a
    → IsBytes b
    → (r : Bool) × (f a b size ≡ some r) × Decides r (Agree a b 0 size)

module _ (width : ℕ) (positive : 0 < width) (block : Buffer → Buffer → Bool)
    (narrower : Buffer → Buffer → ℕ → Option Bool) (exact : Exact width block)
    (compares : Compares narrower) where
  scan_lem :
      (fuel : ℕ) (a b : Buffer) (size : ℕ)
      → size < fuel
      → IsBytes a
      → IsBytes b
      → (r : Bool) × (scan width block narrower fuel a b size ≡ some r)
        × Decides r (Agree a b 0 size)
  unfolding scan
  scan_lem zero a b size f ha hb = absurd (omega arith)
  scan_lem (suc fuel) a b size f ha hb = elim (Bool-cases (leb width size)) [
    | inl whole ↦ elim (Bool-cases (block a b)) [
      | inl differs ↦ (
        true,
        rw (whole, differs),
        (
          λ e i l h. absurd (cc),
          λ h.
              sym differs
              ∙ (exact a b ha hb).1
                  (Agree-part a b 0 size 0 width (omega arith) (leb→le width size whole) h),
        ),
      )
      | inr equal ↦
          let (r, returns, right) =
            scan_lem fuel (advance width a) (advance width b) (size - width) (ground arith)
              (λ i. ha (width + i)) (λ i. hb (width + i)) in
          (
            r,
            rw (whole, equal) returns,
            (
              λ e. Agree-join a b 0 width size ((exact a b ha hb).0 equal) (
                  Agree-part a b width (width + (size - width)) width size (omega arith)
                    (ground arith) (Agree-at a b width (size - width) (right.0 e))),
              λ h. right.1 (Agree-step a b width size h),
            ),
          )
    ]
    | inr part ↦ elim (Bool-cases (ltb 0 size)) [
      | inl some_left ↦ rw (part, some_left) (compares a b size ha hb)
      | inr done ↦ (false, rw (part, done), (λ e i l h. absurd (ground arith), λ h. refl))
    ]
  ]

-- The two counted loops of `memdiff8`.
words_differ_lem :
    (n cur : ℕ) (a b : Buffer)
    → IsBytes a
    → IsBytes b
    → Decides (words_differ n cur a b) (Agree a b (8 * cur) (8 * (cur + n)))
unfolding words_differ
words_differ_lem zero cur a b ha hb = (λ e i l h. absurd (omega arith), λ h. refl)
words_differ_lem (suc n) cur a b ha hb =
    let a' = advance (8 * cur) a in
    let b' = advance (8 * cur) b in
    let rest = words_differ_lem n (cur + 1) a b ha hb in
    elim (Bool-cases (load_le 8 a' == load_le 8 b')) [
      | inl same ↦
          let front =
            load_le-eq 8 a' b' (λ i. ha (8 * cur + i)) (λ i. hb (8 * cur + i))
              ((==_iff (load_le 8 a') (load_le 8 b')).0 same) in
          rw same (
            (
              λ e.
                  Agree-join a b (8 * cur) (8 * cur + 8) (8 * (cur + suc n))
                    (Agree-at a b (8 * cur) 8 front)
                    (Agree-part a b _ _ (8 * cur + 8) (8 * (cur + suc n)) (omega arith)
                      (omega arith) (rest.0 e)),
              λ h. rest.1 (
                  Agree-part a b _ _ (8 * (cur + 1)) (8 * (cur + 1 + n)) (omega arith) (omega arith)
                    h),
            ))
      | inr other ↦ rw other (
        λ e. absurd (cc),
        λ h.
            ground
              (arith, load_le_cong 8 a' b' (λ i l u. h (8 * cur + i) (omega arith) (omega arith))),
      )
    ]

bytes_differ_lem :
    (n pos : ℕ) (a b : Buffer) → Decides (bytes_differ n pos a b) (Agree a b pos (pos + n))
unfolding bytes_differ
bytes_differ_lem zero pos a b = (λ e i l h. absurd (omega arith), λ h. refl)
bytes_differ_lem (suc n) pos a b =
    let rest = bytes_differ_lem n (pos + 1) a b in
    elim (Bool-cases (a pos == b pos)) [
      | inl same ↦ rw same (
        λ e i l u. elim (ℕ_discrete i pos) [
          | yes p ↦ rw p (ground arith)
          | no p ↦ rest.0 e i (omega arith) (omega arith)
        ],
        λ h. rest.1 (Agree-part a b _ _ (pos + 1) (pos + 1 + n) (omega arith) (omega arith) h),
      )
      | inr other ↦
          rw other (λ e. absurd (cc), λ h. ground (arith, h pos (omega arith) (omega arith)))
    ]

memdiff8_lem :
    (a b : Buffer) (size : ℕ)
    → IsBytes a
    → IsBytes b
    → Decides (memdiff8 a b size) (Agree a b 0 size)
unfolding memdiff8
memdiff8_lem a b size ha hb =
    let k = size / 8 in
    let words = words_differ_lem k 0 a b ha hb in
    let bytes = bytes_differ_lem (size - k * 8) (k * 8) a b in
    elim (Bool-cases (words_differ k 0 a b)) [
      | inl differs ↦ rw differs (
        λ e. absurd (cc),
        λ h. sym differs ∙ words.1 (Agree-part a b 0 size _ _ (omega arith) (omega arith) h),
      )
      | inr equal ↦ elim (Bool-cases (ltb (k * 8) size)) [
        | inl tail ↦
            rw (equal, tail)
              (
                λ e.
                    Agree-join a b 0 (8 * (0 + k)) size
                      (Agree-part a b _ _ _ _ (omega arith) (omega arith) (words.0 equal))
                      (Agree-part a b _ _ _ _ (omega arith) (omega arith) (bytes.0 e)),
                λ h. bytes.1 (Agree-part a b 0 size _ _ (omega arith) (omega arith) h),
              )
        | inr whole ↦
            rw (equal, whole)
              (
                λ e. Agree-part a b _ _ 0 size (omega arith) (ground arith) (words.0 equal),
                λ h. refl,
              )
      ]
    ]

pub memdiff8-Compares : Compares (λ a b n. some (memdiff8 a b n))
memdiff8-Compares a b size ha hb = (memdiff8 a b size, refl, memdiff8_lem a b size ha hb)

pub memdiff16-Compares : Compares memdiff16
unfolding memdiff16
memdiff16-Compares a b size ha hb =
    scan_lem 16 (omega arith) block16 _ block16-Exact memdiff8-Compares (suc size) a b size
      (omega arith) ha hb

pub memdiff32-Compares : Compares memdiff32
unfolding memdiff32
memdiff32-Compares a b size ha hb =
    scan_lem 32 (omega arith) block32 _ block32-Exact memdiff16-Compares (suc size) a b size
      (omega arith) ha hb

-- For a segment size below 64, the routine that `best_memdiff` picks, whatever the CPU offers,
-- ends on all buffers of bytes of every size, and returns 0 exactly when the two buffers hold the
-- same bytes at all offsets below the size.
pub best_memdiff_exact :
    (cpu : Cpu) (segment : ℕ) (a b : Buffer) (size : ℕ)
    → segment < 64
    → IsBytes a
    → IsBytes b
    → (r : Bool) × (best_memdiff cpu segment a b size ≡ some r) × Decides r (Agree a b 0 size)
unfolding best_memdiff
best_memdiff_exact cpu segment a b size small ha hb =
    let no64 : (leb 64 segment && cpu.avx512dq) ≡ false = ground arith in
    elim (Bool-cases (leb 32 segment && cpu.avx2)) [
      | inl wide ↦ rw (no64, wide) (memdiff32-Compares a b size ha hb)
      | inr no32 ↦ elim (Bool-cases (leb 16 segment && cpu.sse2)) [
        | inl sse ↦ rw (no64, no32, sse) (memdiff16-Compares a b size ha hb)
        | inr no16 ↦ rw (no64, no32, no16) (memdiff8-Compares a b size ha hb)
      ]
    ]

-- `memdiff64` returns 1, buffers differ, when it compares a buffer of at least 64 bytes with itself.
pub memdiff64_same : (a : Buffer) (size : ℕ) → 64 ≤ size → memdiff64 a a size ≡ some true
unfolding memdiff64 scan
memdiff64_same a size h =
    let whole : leb 64 size ≡ true = ground arith in rw (whole, block64_same a)
