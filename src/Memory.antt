-- ===== src/Memory.antt =====
-- Memory as the recorder sees it: a byte at each address, read in runs; and the message by which
-- record/memcache.c reports the content of one segment, a row of the table `mem`.
use mathlib.Core.Path.{ap₂}
use flightrec.Prelude.{
  ℕ, zero, suc, ◌+◌, ◌-◌, ◌≤◌, ◌<◌, ◌≡◌, refl, ap, ◌∙◌, List, [], ◌∷◌, ◌++◌, arith, length, take,
  drop,
}

abbrev pub Memory : Type 0
Memory = ℕ → ℕ

-- MEM_SEGMENT_SIZE and PAGE_SIZE.
abbrev pub segment : ℕ
segment = 32

abbrev pub page_size : ℕ
page_size = 4096

-- The `n` bytes from the address `p` on.
unfoldable pub bytes : Memory → ℕ → ℕ → List ℕ
bytes mem p zero = []
bytes mem p (suc n) = mem p ∷ bytes mem (p + 1) n

-- `struct insert_mem_msg`.
pub record MemMsg : Type 0 where
  pub step_id : ℕ
  pub address : ℕ
  pub content : List ℕ

pub length-bytes : (mem : Memory) (p n : ℕ) → length (bytes mem p n) ≡ n
unfolding bytes
length-bytes mem p zero = refl
length-bytes mem p (suc n) = ap suc (length-bytes mem (p + 1) n)

pub bytes-append :
    (mem : Memory) (p n m q : ℕ) → p + n ≡ q → bytes mem p n ++ bytes mem q m ≡ bytes mem p (n + m)
unfolding bytes
bytes-append mem p zero m q e = ap₂ (bytes mem) (omega arith) (omega arith)
bytes-append mem p (suc n) m q e =
    let k : suc n + m ≡ suc (n + m) = omega arith in
    rw k (ap (λ l. mem p ∷ l) (bytes-append mem (p + 1) n m q (omega arith)))

pub take-bytes : (mem : Memory) (p n k : ℕ) → k ≤ n → take k (bytes mem p n) ≡ bytes mem p k
unfolding bytes
take-bytes mem p n zero h = refl
take-bytes mem p zero (suc k) h = absurd (omega arith)
take-bytes mem p (suc n) (suc k) h = ap (λ l. mem p ∷ l) (take-bytes mem (p + 1) n k (omega arith))

pub drop-bytes :
    (mem : Memory) (p n k q : ℕ) → k ≤ n → p + k ≡ q → drop k (bytes mem p n) ≡ bytes mem q (n - k)
unfolding bytes
drop-bytes mem p n zero q h e = ap₂ (bytes mem) (omega arith) (omega arith)
drop-bytes mem p zero (suc k) q h e = absurd (omega arith)
drop-bytes mem p (suc n) (suc k) q h e =
    drop-bytes mem (p + 1) n k q (omega arith) (omega arith) ∙ ap (bytes mem q) (omega arith)

-- Memories that agree on a run give the same bytes.
pub bytes_cong :
    (mem mem' : Memory) (p n : ℕ)
    → ((i : ℕ) → p ≤ i → i < p + n → mem i ≡ mem' i)
    → bytes mem p n ≡ bytes mem' p n
unfolding bytes
bytes_cong mem mem' p zero h = refl
bytes_cong mem mem' p (suc n) h =
    ap₂ ◌∷◌ (h p (omega arith) (omega arith))
      (bytes_cong mem mem' (p + 1) n (λ i l u. h i (omega arith) (omega arith)))
