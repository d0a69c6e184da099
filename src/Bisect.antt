-- ===== src/Bisect.antt =====
-- The binary search that record/memcache.c (find_page) and record/run.c (lookup_cache) spell out
-- over a sorted array: the interval does not include its right bound, and the loop ends early at
-- an entry that holds the address.
use flightrec.Prelude.{
  ℕ, zero, suc, ◌+◌, ◌/◌, ◌-◌, ◌<◌, ◌≤◌, ◌≡◌, refl, ◌≢◌, ◌⊎◌, inl, inr, Option-cases, List, none,
  some, true, false, ltb, get_elem?, length, arith, Bool-cases, dec_lt, get_elem?_total,
  lt_trichotomy,
}

-- Where the address lies against an entry: before it, behind it or in it.
pub data Side : Type 0 where
  lower upper inside : Side

Side-cases : (s : Side) → (s ≡ lower) ⊎ ((s ≡ upper) ⊎ (s ≡ inside))
Side-cases lower = inl refl
Side-cases upper = inr (inl refl)
Side-cases inside = inr (inr refl)

pub data Hit : Type 0 where
  at : ℕ → Hit
  missed out_of_bounds out_of_fuel : Hit

module _ {ℓ} {A : Type ℓ} (side : A → Side) (xs : List A) where
  unfoldable pub bisect : ℕ → ℕ → ℕ → Hit
  bisect zero left right = out_of_fuel
  bisect (suc fuel) left right =
      let index = (left + right) / 2 in
      elim (ltb left right) [
        | false ↦ missed
        | true ↦ elim (get_elem? xs index) [
          | none ↦ out_of_bounds
          | some x ↦ elim (side x) [
            | lower ↦ bisect fuel left index
            | upper ↦ bisect fuel (index + 1) right
            | inside ↦ at index
          ]
        ]
      ]

  -- The entry at `i` holds the address, and the others say on which side it lies.
  pub record Points (i : ℕ) : Type ℓ where
    pub here : (x : A) → get_elem? xs i ≡ some x → side x ≡ inside
    pub before : (j : ℕ) (x : A) → j < i → get_elem? xs j ≡ some x → side x ≡ upper
    pub behind : (j : ℕ) (x : A) → i < j → get_elem? xs j ≡ some x → side x ≡ lower

  pub Points-unique :
      (i : ℕ) → Points i → (k : ℕ) (x : A) → get_elem? xs k ≡ some x → side x ≡ inside → k ≡ i
  Points-unique i p k x e s = elim (lt_trichotomy k i) [
    | inl h ↦ let q = p.before k x h e in absurd (cc)
    | inr (inl same) ↦ same
    | inr (inr h) ↦ let q = p.behind k x h e in absurd (cc)
  ]

  pub bisect_finds :
      (i : ℕ)
      → Points i
      → (fuel left right : ℕ) → right - left < fuel
      → left ≤ i
      → i < right
      → right ≤ length xs
      → bisect fuel left right ≡ at i
  unfolding bisect
  bisect_finds i p zero left right f l r b = absurd (omega arith)
  bisect_finds i p (suc fuel) left right f l r b =
      let mid = (left + right) / 2 in
      let (x, e) = get_elem?_total xs mid (omega arith) in
      ground (
        arith,
        e,
        p.here x,
        p.before mid x,
        p.behind mid x,
        bisect_finds i p fuel left mid,
        bisect_finds i p fuel (mid + 1) right,
      )

  pub bisect_misses :
      ((j : ℕ) (x : A) → get_elem? xs j ≡ some x → side x ≢ inside)
      → (fuel left right : ℕ) → right - left < fuel
      → right ≤ length xs
      → bisect fuel left right ≡ missed
  unfolding bisect
  bisect_misses h zero left right f b = absurd (omega arith)
  bisect_misses h (suc fuel) left right f b = elim (dec_lt left right) [
    | yes p ↦
        let mid = (left + right) / 2 in
        let (x, e) = get_elem?_total xs mid (omega arith) in
        ground
          (arith, e, h mid x e, bisect_misses h fuel left mid, bisect_misses h fuel (mid + 1) right)
    | no p ↦ ground arith
  ]

  -- An entry that the search returns holds the address.
  pub bisect_sound :
      (fuel left right i : ℕ)
      → bisect fuel left right ≡ at i
      → (x : A) × (get_elem? xs i ≡ some x) × (side x ≡ inside)
  unfolding bisect
  bisect_sound zero left right i e = absurd (cc)
  bisect_sound (suc fuel) left right i e =
      let mid = (left + right) / 2 in
      elim (Bool-cases (ltb left right)) [
        | inr closed ↦ absurd (ground arith)
        | inl open_interval ↦ elim (Option-cases (get_elem? xs mid)) [
          | inl outside ↦ absurd (ground arith)
          | inr (x, e') ↦ elim (Side-cases (side x)) [
            | inl s ↦ bisect_sound fuel left mid i (ground arith)
            | inr (inl s) ↦ bisect_sound fuel (mid + 1) right i (ground arith)
            | inr (inr s) ↦ (x, ground arith, s)
          ]
        ]
      ]
