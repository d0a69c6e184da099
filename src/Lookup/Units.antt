-- ===== src/Lookup/Units.antt =====
-- `lookup_cache` finds every cached statement, and the units on which it divides by zero.
use flightrec.Prelude.{
  ℕ, suc, ◌-◌, ◌*◌, ◌^◌, ◌≤◌, ◌<◌, ◌≡◌, inl, inr, refl, sym, ◌∙◌, ap, List, [], ◌∷◌, some, true,
  false, arith, ltb, test_eq, ◌==◌, ◌||◌, get_elem?, get_elem?_total, get_elem?-lt, length,
  Bool-cases,
}
use flightrec.Bisect.{lower, upper, inside, Points, Points-unique, bisect_finds}
use flightrec.Lookup.{
  CachedLine, CachedUnit, word, sub64, find_line, search_unit, unit_side, lookup_cache, found,
  division_by_zero,
}
use flightrec.Lookup.Lines.{IsAscending, find_line_finds, order-le, le-order}

-- What `set_breakpoints` fills a unit with: at least two statements in the order of their
-- addresses, and the first and the last of them as bounds. No product in the search wraps.
pub record IsUnit (u : CachedUnit) : Type 0 where
  pub count : u.line_count ≡ length u.lines
  pub several : 2 ≤ u.line_count
  pub ascending : IsAscending u.lines
  pub first : (a : CachedLine) → get_elem? u.lines 0 ≡ some a → a.address ≡ u.start
  pub end : (b : CachedLine) → get_elem? u.lines (u.line_count - 1) ≡ some b → b.address ≡ u.last
  pub fits : u.last < word
  pub small : u.line_count < 2 ^ 31
  pub no_wrap : (u.last - u.start) * u.line_count < word

-- The units in the order of their addresses.
pub record IsCache (cache : List CachedUnit) : Type 0 where
  pub units : (i : ℕ) (u : CachedUnit) → get_elem? cache i ≡ some u → IsUnit u
  pub order :
      (i j : ℕ) (u v : CachedUnit)
      → i < j
      → get_elem? cache i ≡ some u
      → get_elem? cache j ≡ some v
      → u.last < v.start

module _ (u : CachedUnit) (v : IsUnit u) (j : ℕ) (line : CachedLine)
    (present : get_elem? u.lines j ≡ some line) where
  within : (u.start ≤ line.address) × (line.address ≤ u.last)
  within =
      let k = get_elem?-lt u.lines j present in
      let (a, ea) = get_elem?_total u.lines 0 (omega arith) in
      let (b, eb) = get_elem?_total u.lines (u.line_count - 1) (omega (arith, v.count)) in
      let below =
        order-le u.lines 0 0 v.ascending (omega arith) j line present 0 a (omega arith) ea in
      let above =
        le-order u.lines 0 0 v.ascending (omega arith) j line present (u.line_count - 1) b
          (omega (arith, v.count)) eb in
      (omega (arith, v.first a ea), omega (arith, v.end b eb))

  pub search_unit_finds : search_unit u line.address ≡ found line
  unfolding search_unit
  search_unit_finds =
      let k = get_elem?-lt u.lines j present in
      let (a, ea) = get_elem?_total u.lines 0 (omega arith) in
      let (b, eb) = get_elem?_total u.lines (u.line_count - 1) (omega (arith, v.count)) in
      rw (search_unit, ea, eb)
        (find_line_finds u.lines (u.last - u.start) u.line_count v.ascending v.no_wrap j line
          present (suc u.line_count) 0 (u.line_count - 1) a b (omega arith) ea eb (omega arith)
          (omega (arith, v.count)) (omega (arith, v.several)) (omega (arith, v.small))
          (omega (arith, v.fits, v.end b eb)) (omega (arith, v.first a ea, v.end b eb))
          (omega arith))

start-le-last : (u : CachedUnit) → IsUnit u → u.start ≤ u.last
start-le-last u v =
    let (a, ea) = get_elem?_total u.lines 0 (omega (arith, v.count, v.several)) in
    let (low, high) = within u v 0 a ea in omega arith

module _ (cache : List CachedUnit) (c : IsCache cache) (i : ℕ) (u : CachedUnit)
    (here : get_elem? cache i ≡ some u) where
  unit-Points :
      (j : ℕ) (line : CachedLine)
      → get_elem? u.lines j ≡ some line
      → Points (unit_side line.address) cache i
  unit-Points j line present =
      let (low, high) = within u (c.units i u here) j line present in
      record {
        here = λ x e. same x (sym here ∙ e) low high;
        before =
            λ k x h e. earlier x (start-le-last x (c.units k x e)) (c.order k i x u h e here) low;
        behind = λ k x h e. later x (c.order i k u x h here e) high;
      }
    where
      same :
          (x : CachedUnit)
          → some u ≡ some x
          → u.start ≤ line.address
          → line.address ≤ u.last
          → unit_side line.address x ≡ inside
      same x e low high = ground arith

      earlier :
          (x : CachedUnit)
          → x.start ≤ x.last
          → x.last < u.start
          → u.start ≤ line.address
          → unit_side line.address x ≡ upper
      earlier x b e low = ground arith

      later :
          (x : CachedUnit)
          → u.last < x.start
          → line.address ≤ u.last
          → unit_side line.address x ≡ lower
      later x e high = ground arith

kept_side :
    (address : ℕ) (w : CachedUnit)
    → (ltb address w.start || ltb w.last address) ≡ false
    → unit_side address w ≡ inside
kept_side address w h = ground arith

search_same :
    (w u : CachedUnit)
    → some w ≡ some u
    → (address : ℕ) → search_unit w address ≡ search_unit u address
search_same w u e address = cc

-- Over a well-formed cache of units, each with two lines or more, the lookup of the address of a
-- cached line returns that line and leaves its unit's index in the static variable, whatever
-- index of a unit that variable held. It neither divides by zero, nor reads outside an array, nor runs on.
pub lookup_cache_finds :
    (cache : List CachedUnit) (unit i j : ℕ) (u : CachedUnit) (line : CachedLine)
    → IsCache cache
    → unit < length cache
    → get_elem? cache i ≡ some u
    → get_elem? u.lines j ≡ some line
    → lookup_cache cache unit line.address ≡ (i, found line)
unfolding lookup_cache
lookup_cache_finds cache unit i j u line c inside_cache here present =
    let (w, ew) = get_elem?_total cache unit inside_cache in
    let result = search_unit_finds u (c.units i u here) j line present in
    elim (Bool-cases (ltb line.address w.start || ltb w.last line.address)) [
      | inl changed ↦
          let p = unit-Points cache c i u here j line present in
          let hit =
            bisect_finds (unit_side line.address) cache i p (suc (length cache)) 0 (length cache)
              (omega arith) (omega arith) (get_elem?-lt cache i here) (omega arith) in
          rw (lookup_cache, ew, changed, hit, here, result) refl
      | inr kept ↦
          let p = unit-Points cache c i u here j line present in
          let same =
            Points-unique (unit_side line.address) cache i p unit w ew
              (kept_side line.address w kept) in
          let w-eq-u : some w ≡ some u = sym ew ∙ (ap (get_elem? cache) same ∙ here) in
          rw (lookup_cache, ew, kept, same)
            (ap (λ r. (i, r)) (search_same w u w-eq-u line.address ∙ result))
    ]

-- In a unit of one line the search divides by zero, whatever the address.
pub search_unit_single :
    (u : CachedUnit) (line : CachedLine) (address : ℕ)
    → u.lines ≡ line ∷ []
    → u.line_count ≡ 1
    → search_unit u address ≡ division_by_zero
unfolding search_unit find_line
search_unit_single u line address e k =
    let first : get_elem? u.lines 0 ≡ some line = ap (λ l. get_elem? l 0) e in
    let last : u.line_count - 1 ≡ 0 = omega arith in
    let zero_divisor : (sub64 line.address line.address == 0) ≡ true = test_eq _ 0 (omega arith) in
    rw (search_unit, first, last, first) (rw (last, find_line, zero_divisor) refl)
