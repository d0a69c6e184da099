-- ===== src/Memdiff/Lanes.antt =====
-- Words, lanes and masks: the comparison of one block in record/memdiff.c.
use native.Mathlib.Nat.{pow-suc}
use flightrec.Prelude.{
  ℕ, zero, suc, ◌+◌, ◌*◌, ◌^◌, ◌≤◌, ◌<◌, ◌≡◌, refl, Bool, true, ◌==◌, arith, not,
}
use flightrec.Memdiff.{Buffer, advance, load_le, movemask, block16, block32, block64}
use flightrec.Memdiff.Ranges.{IsBytes, Agree, Decides}

pub load_le-eq :
    (n : ℕ) (a b : Buffer) → IsBytes a → IsBytes b → load_le n a ≡ load_le n b → Agree a b 0 n
unfolding load_le
load_le-eq zero a b ha hb e i l h = absurd (omega arith)
load_le-eq (suc n) a b ha hb e zero l h = omega (arith, ha 0, hb 0)
load_le-eq (suc n) a b ha hb e (suc i) l h =
    load_le-eq n (λ j. a (suc j)) (λ j. b (suc j)) (λ j. ha (suc j)) (λ j. hb (suc j))
      (omega (arith, ha 0, hb 0)) i (omega arith) (omega arith)

pub load_le_cong : (n : ℕ) (a b : Buffer) → Agree a b 0 n → load_le n a ≡ load_le n b
unfolding load_le
load_le_cong zero a b h = refl
load_le_cong (suc n) a b h = omega (
  arith,
  h 0 (omega arith) (omega arith),
  load_le_cong n (λ j. a (suc j)) (λ j. b (suc j)) (λ i l k. h (suc i) (omega arith) (omega arith)),
)

-- All lanes of a mask are set exactly when it is one below the power of two.
pub movemask-le : (n : ℕ) (f : ℕ → Bool) → movemask n f + 1 ≤ 2 ^ n
unfolding movemask
movemask-le zero f = omega arith
movemask-le (suc n) f = ground (arith, movemask-le n (λ i. f (suc i)), pow-suc 2 n)

pub movemask-all :
    (n : ℕ) (f : ℕ → Bool) → ((i : ℕ) → i < n → f i ≡ true) → movemask n f + 1 ≡ 2 ^ n
unfolding movemask
movemask-all zero f h = omega arith
movemask-all (suc n) f h = ground (
  arith,
  h 0 (omega arith),
  movemask-all n (λ i. f (suc i)) (λ i k. h (suc i) (omega arith)),
  pow-suc 2 n,
)

pub movemask-lane : (n : ℕ) (f : ℕ → Bool) → movemask n f + 1 ≡ 2 ^ n → (i : ℕ) → i < n → f i ≡ true
unfolding movemask
movemask-lane zero f e i h = absurd (omega arith)
movemask-lane (suc n) f e zero h = ground (arith, movemask-le n (λ i. f (suc i)), pow-suc 2 n)
movemask-lane (suc n) f e (suc i) h =
    movemask-lane n (λ j. f (suc j)) (ground (arith, movemask-le n (λ j. f (suc j)), pow-suc 2 n)) i
      (omega arith)

-- A mask held to all ones tells whether all lanes are set.
pub mask_lem :
    (n m : ℕ) (f : ℕ → Bool)
    → m + 1 ≡ 2 ^ n
    → Decides (not (movemask n f == m)) ((i : ℕ) → i < n → f i ≡ true)
mask_lem n m f e =
    (λ d i h. movemask-lane n f (ground arith) i h, λ h. ground (arith, movemask-all n f h))

-- `block` is right on blocks of `width` bytes.
abbrev pub Exact : ℕ → (Buffer → Buffer → Bool) → Type 0
Exact width block = (a b : Buffer) → IsBytes a → IsBytes b → Decides (block a b) (Agree a b 0 width)

pub lanes-Agree :
    (n m : ℕ) (a b : Buffer)
    → m + 1 ≡ 2 ^ n
    → Decides (not (movemask n (λ j. a j == b j) == m)) (Agree a b 0 n)
lanes-Agree n m a b e =
    let lem = mask_lem n m (λ j. a j == b j) e in
    (
      λ d i l h. ground (arith, lem.0 d i h),
      λ h. lem.1 (λ i k. ground (arith, h i (omega arith) k)),
    )

pub block16-Exact : Exact 16 block16
unfolding block16
block16-Exact a b ha hb = lanes-Agree 16 0xFFFF a b refl

pub block32-Exact : Exact 32 block32
unfolding block32
block32-Exact a b ha hb = lanes-Agree 32 0xFFFFFFFF a b refl

-- A 64-byte block compared with itself is said to differ.
pub block64_same : (a : Buffer) → block64 a a ≡ true
unfolding block64
block64_same a =
    let all =
      movemask-all 8 (λ i. load_le 8 (advance (8 * i) a) == load_le 8 (advance (8 * i) a))
        (λ i h. ground arith) in
    ground (arith, all)
