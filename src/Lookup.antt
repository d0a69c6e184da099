-- ===== src/Lookup.antt =====
-- record/run.c: the cache of statements, and `lookup_cache`, which finds the statement of an
-- address: a binary search for the unit, then a search by linear approximation for the line.
-- `uint64_t` sums, differences and products are taken modulo 2^64. A read outside an array, a
-- division by zero and the end of the fuel are results of their own.
pub mod Lines
pub mod Units
pub mod Samples
mod Tests
use flightrec.Prelude.{
  ℕ, zero, suc, ◌+◌, ◌-◌, ◌*◌, ◌/◌, ◌%◌, ◌^◌, List, Option, none, some, Bool, true, false, ltb, leb,
  ◌==◌, if◌then◌else◌, get_elem?, length, ◌||◌,
}
use flightrec.Bisect.{Side, lower, upper, inside, Hit, at, bisect}

pub record CachedLine : Type 0 where
  pub address : ℕ
  pub func_id : ℕ
  pub func_flag : ℕ
  pub org_instr_byte : ℕ

-- `start` and `last` are the addresses of the first and of the last line (`end` in the source).
pub record CachedUnit : Type 0 where
  pub start : ℕ
  pub last : ℕ
  pub line_count : ℕ
  pub lines : List CachedLine

pub data Found : Type 0 where
  found : CachedLine → Found
  not_found out_of_bounds division_by_zero out_of_fuel : Found

abbrev pub word : ℕ
word = 2 ^ 64

abbrev pub sub64 : ℕ → ℕ → ℕ
sub64 a b = (a + word - b) % word

-- `left + (address - left_addr) * (right - left) / (right_addr - left_addr)`, where the divisor
-- is not zero; the cast to `int` keeps 32 bits, and an index of more than 31 bits is out of range.
abbrev pub approximate : ℕ → ℕ → ℕ → ℕ → ℕ → ℕ
approximate address left left_addr right right_addr =
    (left + sub64 address left_addr * (right - left) % word / sub64 right_addr left_addr) % 2 ^ 32

abbrev pub compare_address : ℕ → CachedLine → Side
compare_address address line =
    if ltb address line.address then lower else if ltb line.address address then upper else inside

-- The loop on the lines of a unit. The interval includes `right`.
unfoldable pub find_line : ℕ → ℕ → List CachedLine → ℕ → ℕ → ℕ → ℕ → Found
find_line zero address lines left left_addr right right_addr = out_of_fuel
find_line (suc fuel) address lines left left_addr right right_addr =
    let index = approximate address left left_addr right right_addr in
    elim (leb left right) [
      | false ↦ not_found
      | true ↦ elim (sub64 right_addr left_addr == 0) [
        | true ↦ division_by_zero
        | false ↦ elim (get_elem? lines index) [
          | none ↦ out_of_bounds
          | some line ↦ elim (compare_address address line) [
            | inside ↦ found line
            | lower ↦ elim (index == 0) [
              | true ↦ out_of_bounds
              | false ↦ elim (get_elem? lines (index - 1)) [
                | none ↦ out_of_bounds
                | some r ↦ find_line fuel address lines left left_addr (index - 1) r.address
              ]
            ]
            | upper ↦ elim (get_elem? lines (index + 1)) [
              | none ↦ out_of_bounds
              | some l ↦ find_line fuel address lines (index + 1) l.address right right_addr
            ]
          ]
        ]
      ]
    ]

-- The lines of a unit, from its first to its last.
unfoldable pub search_unit : CachedUnit → ℕ → Found
search_unit u address = elim (get_elem? u.lines 0) [
  | none ↦ out_of_bounds
  | some first ↦ elim (get_elem? u.lines (u.line_count - 1)) [
    | none ↦ out_of_bounds
    | some end ↦
        find_line (suc u.line_count) address u.lines 0 first.address (u.line_count - 1) end.address
  ]
]

abbrev pub unit_side : ℕ → CachedUnit → Side
unit_side address u =
    if ltb address u.start then lower else if ltb u.last address then upper else inside

-- `unit` is the static variable of the function: it comes in, and goes out beside the result.
unfoldable pub lookup_cache : List CachedUnit → ℕ → ℕ → ℕ × Found
lookup_cache instr_cache unit address = elim (get_elem? instr_cache unit) [
  | none ↦ (unit, out_of_bounds)
  | some u ↦ elim (ltb address u.start || ltb u.last address) [
    | false ↦ (unit, search_unit u address)
    | true ↦
        elim (bisect (unit_side address) instr_cache (suc (length instr_cache)) 0
          (length instr_cache)) [
            | Hit.missed ↦ (unit, not_found)
            | Hit.out_of_bounds ↦ (unit, out_of_bounds)
            | Hit.out_of_fuel ↦ (unit, out_of_fuel)
            | at index ↦ elim (get_elem? instr_cache index) [
              | none ↦ (index, out_of_bounds)
              | some v ↦ (index, search_unit v address)
            ]
          ]
  ]
]
