-- ===== src/Lookup/Samples.antt =====
-- Two units with two lines each.
use mathlib.Core.Path.{subst}
use flightrec.Prelude.{
  ℕ, zero, suc, ◌<◌, ◌≡◌, refl, List, [], ◌∷◌, some, arith, get_elem?, Option, none,
}
use flightrec.Lookup.{CachedLine, CachedUnit}
use flightrec.Lookup.Lines.{IsAscending}
use flightrec.Lookup.Units.{IsUnit, IsCache}

abbrev pub line_at : ℕ → CachedLine
line_at a = record { address = a; func_id = 1; func_flag = 0; org_instr_byte = 0x55 }

abbrev pub util_unit : CachedUnit
util_unit = record { start = 40; last = 50; line_count = 2; lines = line_at 40 ∷ line_at 50 ∷ [] }

-- A predicate on what a read returns.
abbrev IsUnitOf : Option CachedUnit → Type 0
IsUnitOf none = Unit
IsUnitOf (some u) = IsUnit u

abbrev IsBelow : ℕ → List CachedLine → Type 0
IsBelow x lines = (j : ℕ) (b : CachedLine) → get_elem? lines j ≡ some b → x < b.address

IsBelow-nil : (x : ℕ) → IsBelow x []
IsBelow-nil x j b e = absurd (cc)

IsBelow-cons :
    (x y : ℕ) (lines : List CachedLine) → x < y → IsBelow x lines → IsBelow x (line_at y ∷ lines)
IsBelow-cons x y lines h rest zero b e = ground arith
IsBelow-cons x y lines h rest (suc j) b e = rest j b e

ascending_cons :
    (x : ℕ) (lines : List CachedLine)
    → IsBelow x lines
    → IsAscending lines
    → IsAscending (line_at x ∷ lines)
ascending_cons x lines h rest zero zero a b p e f = absurd (omega arith)
ascending_cons x lines h rest zero (suc j) a b p e f = ground (arith, h j b)
ascending_cons x lines h rest (suc i) zero a b p e f = absurd (omega arith)
ascending_cons x lines h rest (suc i) (suc j) a b p e f = rest i j a b (omega arith) e f

ascending_nil : IsAscending []
ascending_nil i j a b p e f = absurd (cc)

two_lines : (x y : ℕ) → x < y → IsAscending (line_at x ∷ line_at y ∷ [])
two_lines x y h =
    ascending_cons x (line_at y ∷ []) (IsBelow-cons x y [] h (IsBelow-nil x))
      (ascending_cons y [] (IsBelow-nil y) ascending_nil)

util_unit-IsUnit : IsUnit util_unit
util_unit-IsUnit = record {
  count = refl;
  several = omega arith;
  ascending = two_lines 40 50 (omega arith);
  first = λ a e. ground arith;
  end = λ b e. ground arith;
  fits = omega arith;
  small = omega arith;
  no_wrap = omega arith;
}

abbrev low_unit : CachedUnit
low_unit = record { start = 10; last = 31; line_count = 2; lines = line_at 10 ∷ line_at 31 ∷ [] }

low_unit-IsUnit : IsUnit low_unit
low_unit-IsUnit = record {
  count = refl;
  several = omega arith;
  ascending = two_lines 10 31 (omega arith);
  first = λ a e. ground arith;
  end = λ b e. ground arith;
  fits = omega arith;
  small = omega arith;
  no_wrap = omega arith;
}

abbrev pub two_units : List CachedUnit
two_units = low_unit ∷ util_unit ∷ []

units-IsUnit : (i : ℕ) (u : CachedUnit) → get_elem? two_units i ≡ some u → IsUnit u
units-IsUnit zero u e = subst (λ o. IsUnitOf o) e low_unit-IsUnit
units-IsUnit (suc zero) u e = subst (λ o. IsUnitOf o) e util_unit-IsUnit
units-IsUnit (suc (suc i)) u e = absurd (cc)

units_order :
    (i j : ℕ) (u v : CachedUnit)
    → i < j
    → get_elem? two_units i ≡ some u
    → get_elem? two_units j ≡ some v
    → u.last < v.start
units_order zero zero u v h e f = absurd (omega arith)
units_order zero (suc zero) u v h e f = ground arith
units_order zero (suc (suc j)) u v h e f = absurd (cc)
units_order (suc zero) zero u v h e f = absurd (omega arith)
units_order (suc zero) (suc zero) u v h e f = absurd (omega arith)
units_order (suc zero) (suc (suc j)) u v h e f = absurd (cc)
units_order (suc (suc i)) j u v h e f = absurd (cc)

pub two_units-IsCache : IsCache two_units
two_units-IsCache = record { units = units-IsUnit; order = units_order }
