-- ===== src/Lookup/Lines.antt =====
-- The search by linear approximation inside one unit.
use native.Mathlib.Nat.{div-le_of_le-mul, mul-div_right, mod-eq_of_lt, le_of_lt}
use flightrec.Prelude.{
  ℕ, zero, suc, ◌+◌, ◌-◌, ◌*◌, ◌/◌, ◌%◌, ◌^◌, ◌≤◌, ◌<◌, ◌≡◌, ◌≢◌, refl, List, some, true, false,
  arith, leb, lt_trichotomy, test_ne, ◌==◌, get_elem?, get_elem?_total, get_elem?-lt, ℕ_discrete,
  sym, ◌∙◌, ap, inl, inr,
}
use flightrec.Bisect.{lower, upper, inside}
use flightrec.Lookup.{CachedLine, word, sub64, approximate, find_line, compare_address, found}

product-le : (a d k : ℕ) → a ≤ d → a * k ≤ d * k
product-le a d k h = grind arith

-- The quotient that the approximation takes, where nothing wraps.
quotient-le : (a d k : ℕ) → a ≤ d → a * k / d ≤ k
quotient-le a d k h = div-le_of_le-mul d (product-le a d k h)

product-lt : (x d k m : ℕ) → x ≤ d → d * k < m → x * k < m
product-lt x d k m p q = grind arith

approximate-eq :
    (address left la right ra : ℕ)
    → la ≤ address
    → address ≤ ra
    → la < ra
    → ra < word
    → left < right
    → right < 2 ^ 31
    → (ra - la) * (right - left) < word
    → approximate address left la right ra ≡ left + (address - la) * (right - left) / (ra - la)
approximate-eq address left la right ra h₁ h₂ h₃ h₄ h₅ h₆ h₇ =
    let x = address - la in
    let d = ra - la in
    let k = right - left in
    let e₁ : sub64 address la ≡ x = omega arith in
    let e₂ : sub64 ra la ≡ d = omega arith in
    let e₃ : x * k % word ≡ x * k = mod-eq_of_lt (product-lt x d k word (omega arith) h₇) in
    rw (e₁, e₂, e₃) (omega (arith, quotient-le x d k (omega arith)))

approximate-range :
    (address left la right ra : ℕ)
    → la ≤ address
    → address ≤ ra
    → la < ra
    → ra < word
    → left < right
    → right < 2 ^ 31
    → (ra - la) * (right - left) < word
    → (left ≤ approximate address left la right ra)
      × (approximate address left la right ra ≤ right)
      × (address ≡ la → approximate address left la right ra ≡ left)
      × (address ≡ ra → approximate address left la right ra ≡ right)
approximate-range address left la right ra h₁ h₂ h₃ h₄ h₅ h₆ h₇ =
    rw (approximate-eq address left la right ra h₁ h₂ h₃ h₄ h₅ h₆ h₇) (
      omega arith,
      omega (arith, quotient-le (address - la) (ra - la) (right - left) (omega arith)),
      λ e. at_left (omega arith),
      λ e. at_right (omega arith),
    )
  where
    at_left : address - la ≡ 0 → left + (address - la) * (right - left) / (ra - la) ≡ left
    at_left e = rw e (omega arith)

    at_right : address - la ≡ ra - la → left + (address - la) * (right - left) / (ra - la) ≡ right
    at_right e = rw e (rw (mul-div_right (right - left) {m = ra - la} (omega arith)) (omega arith))

-- The addresses grow strictly along the lines.
abbrev pub IsAscending : List CachedLine → Type 0
IsAscending lines =
    (i j : ℕ) (a b : CachedLine)
    → i < j
    → get_elem? lines i ≡ some a
    → get_elem? lines j ≡ some b
    → a.address < b.address

compare_lower :
    (address : ℕ) (x : CachedLine) → address < x.address → compare_address address x ≡ lower
compare_lower address x h = ground arith

compare_upper :
    (address : ℕ) (x : CachedLine) → x.address < address → compare_address address x ≡ upper
compare_upper address x h = ground arith

compare_inside :
    (address : ℕ) (x : CachedLine) → address ≡ x.address → compare_address address x ≡ inside
compare_inside address x h = ground arith

module _ (lines : List CachedLine) (span count : ℕ) (ascending : IsAscending lines)
    (no_wrap : span * count < word) (j : ℕ) (line : CachedLine)
    (present : get_elem? lines j ≡ some line) where
  pub order-le :
      (i : ℕ) (a : CachedLine) → i ≤ j → get_elem? lines i ≡ some a → a.address ≤ line.address
  order-le i a h e = elim (ℕ_discrete i j) [
    | yes same ↦
        let p : some a ≡ some line = sym e ∙ (ap (get_elem? lines) same ∙ present) in ground arith
    | no other ↦ le_of_lt (ascending i j a line (omega arith) e present)
  ]

  pub le-order :
      (i : ℕ) (a : CachedLine) → j ≤ i → get_elem? lines i ≡ some a → line.address ≤ a.address
  le-order i a h e = elim (ℕ_discrete i j) [
    | yes same ↦
        let p : some a ≡ some line = sym e ∙ (ap (get_elem? lines) same ∙ present) in ground arith
    | no other ↦ le_of_lt (ascending j i line a (omega arith) present e)
  ]

  -- While the line lies between two different bounds, the search reaches it.
  pub find_line_finds :
      (fuel left right : ℕ) (l r : CachedLine)
      → right - left < fuel
      → get_elem? lines left ≡ some l
      → get_elem? lines right ≡ some r
      → left ≤ j
      → j ≤ right
      → left < right
      → right < 2 ^ 31
      → r.address < word
      → r.address - l.address ≤ span
      → right - left ≤ count
      → find_line fuel line.address lines left l.address right r.address ≡ found line
  unfolding find_line
  find_line_finds zero left right l r f el er h₁ h₂ h₃ h₄ h₅ h₆ h₇ = absurd (omega arith)
  find_line_finds (suc fuel) left right l r f el er h₁ h₂ h₃ h₄ h₅ h₆ h₇ =
      let index = approximate line.address left l.address right r.address in
      let la-le = order-le left l h₁ el in
      let le-ra = le-order right r h₂ er in
      let apart = ascending left right l r h₃ el er in
      let bound : (r.address - l.address) * (right - left) < word =
        product_bound (r.address - l.address) (right - left) h₆ h₇ in
      let range =
        approximate-range line.address left l.address right r.address la-le le-ra apart h₅ h₃ h₄
          bound in
      let address_eq : (k : ℕ) (a : CachedLine)
          → j ≡ k
          → get_elem? lines k ≡ some a
          → line.address ≡ a.address =
        λ k a p e. same_address k a p e in
      let open_interval : leb left right ≡ true = ground arith in
      let nonzero : (sub64 r.address l.address == 0) ≡ false =
        test_ne (sub64 r.address l.address) 0 (omega arith) in
      elim (lt_trichotomy index j) [
        | inl below ↦
            let (x, ex) =
              get_elem?_total lines index (omega (arith, get_elem?-lt lines j present)) in
            let (y, ey) =
              get_elem?_total lines (index + 1) (omega (arith, get_elem?-lt lines j present)) in
            let more = ascending index j x line below ex present in
            let later = ascending left (index + 1) l y (omega (arith, range.0)) el ey in
            let strict : index + 1 ≢ right =
              λ p. omega (arith, range.3 (address_eq right r (omega arith) er)) in
            let ih =
              find_line_finds fuel (index + 1) right y r (omega (arith, range.0)) ey er
                (omega arith) h₂ (omega arith) h₄ h₅ (omega arith) (omega (arith, range.0)) in
            rw (find_line, open_interval, nonzero, ex, compare_upper line.address x more, ey) ih
        | inr (inl same) ↦
            let p : get_elem? lines index ≡ some line = ap (get_elem? lines) same ∙ present in
            rw (find_line, open_interval, nonzero, p, compare_inside line.address line refl)
        | inr (inr above) ↦
            let (x, ex) =
              get_elem?_total lines index (omega (arith, range.1, get_elem?-lt lines right er)) in
            let (y, ey) =
              get_elem?_total lines (index - 1)
                (omega (arith, range.1, get_elem?-lt lines right er)) in
            let less = ascending j index line x above present ex in
            let sooner = ascending (index - 1) right y r (omega (arith, range.1)) ey er in
            let strict : left ≢ index - 1 =
              λ p. omega (arith, range.2 (address_eq left l (omega arith) el)) in
            let ih =
              find_line_finds fuel left (index - 1) l y (omega (arith, range.1)) el ey h₁
                (omega arith) (omega arith) (omega (arith, range.1)) (omega arith) (omega arith)
                (omega (arith, range.1)) in
            let positive : (index == 0) ≡ false = test_ne index 0 (omega arith) in
            rw
              (
                find_line,
                open_interval,
                nonzero,
                ex,
                compare_lower line.address x less,
                positive,
                ey,
              )
              ih
      ]
    where
      product_bound : (d k : ℕ) → d ≤ span → k ≤ count → d * k < word
      product_bound d k p q = grind arith

      same_address :
          (k : ℕ) (a : CachedLine) → j ≡ k → get_elem? lines k ≡ some a → line.address ≡ a.address
      same_address k a p e =
          let q : some a ≡ some line = sym e ∙ (ap (get_elem? lines) (sym p) ∙ present) in
          ground arith
