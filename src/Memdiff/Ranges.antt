-- ===== src/Memdiff/Ranges.antt =====
-- Ranges of bytes on which two buffers agree.
use flightrec.Prelude.{ℕ, ◌+◌, ◌-◌, ◌≤◌, ◌<◌, ◌≡◌, ◌↔◌, Bool, false, dec_lt, arith}
use flightrec.Memdiff.{Buffer, advance}

-- Every cell holds a byte.
abbrev pub IsBytes : Buffer → Type 0
IsBytes buf = (i : ℕ) → buf i < 256

-- The buffers hold the same bytes at the offsets from `lo` to `hi`.
abbrev pub Agree : Buffer → Buffer → ℕ → ℕ → Type 0
Agree a b lo hi = (i : ℕ) → lo ≤ i → i < hi → a i ≡ b i

-- The answer `r` is right for a comparison: `false` exactly when `P` holds.
abbrev pub Decides : Bool → Type 0 → Type 0
Decides r P = (r ≡ false) ↔ P

-- Agreement behind a pointer that was advanced, and on two ranges that meet.
pub Agree-at :
    (a b : Buffer) (k n : ℕ) → Agree (advance k a) (advance k b) 0 n → Agree a b k (k + n)
Agree-at a b k n h i l u =
    let e : k + (i - k) ≡ i = omega arith in rw e at (h (i - k) (omega arith) (omega arith))

pub Agree-join :
    (a b : Buffer) (lo mid hi : ℕ) → Agree a b lo mid → Agree a b mid hi → Agree a b lo hi
Agree-join a b lo mid hi front rest i l u = elim (dec_lt i mid) [
  | yes p ↦ front i l p
  | no p ↦ rest i (omega arith) u
]

pub Agree-part :
    (a b : Buffer) (lo hi lo' hi' : ℕ) → lo ≤ lo' → hi' ≤ hi → Agree a b lo hi → Agree a b lo' hi'
Agree-part a b lo hi lo' hi' p q h i l u = h i (omega arith) (omega arith)

pub Agree-step :
    (a b : Buffer) (w n : ℕ) → Agree a b 0 n → Agree (advance w a) (advance w b) 0 (n - w)
Agree-step a b w n h i l k = h (w + i) (omega arith) (omega arith)
