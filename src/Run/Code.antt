-- ===== src/Run/Code.antt =====
-- record/run.c: `set_breakpoints`, which puts a trap at each statement and fills the cache of
-- statements. What the two cursors yield, which addresses `ptrace` reads and writes, and what
-- `get_base_address` finds, are given.
pub mod Planting
use flightrec.Prelude.{
  ℕ, ◌+◌, ◌-◌, ◌%◌, List, [], ◌∷◌, Bool, true, false, not, ◌&&◌, Option, none, some, ◌==◌,
  if◌then◌else◌,
}
use flightrec.Memory.{Memory}
use flightrec.Lookup.{CachedLine, CachedUnit, word}
use flightrec.Run.{peek, poke, with_byte, int3}

-- A row of the cursor over the lines of a unit.
pub record LineRow : Type 0 where
  pub address : ℕ
  pub func_id : ℕ
  pub func_flag : ℕ

-- A row of the cursor over the units, with the lines that the other cursor yields for it.
pub record UnitRow : Type 0 where
  pub line_count : ℕ
  pub start : ℕ
  pub last : ℕ
  pub rows : List LineRow
  pub reset_ok : Bool
  pub fetched : Bool

-- `ptrace` on the program, `errno` where it cannot read (`fault` for EIO and EFAULT), the result of
-- `get_base_address`, and whether the base address can be stored.
pub record Tracee : Type 0 where
  pub readable : ℕ → Bool
  pub writable : ℕ → Bool
  pub fault : Bool
  pub found_base : Option ℕ
  pub stored : Bool

abbrev pub place : ℕ → ℕ → ℕ
place base address = (address + base) % word

-- The base address from the row on. `none` is FAILURE, here and below.
unfoldable pub base_for : Tracee → ℕ → LineRow → Option ℕ
base_for t base row =
    if t.readable (place base row.address)
    then some base
    else if not (t.fault && (base == 0))
    then none
    else elim (t.found_base) [
      | none ↦ none
      | some b ↦
          if not (b == 0) && (t.stored && t.readable (place b row.address)) then some b else none
    ]

abbrev pub plant : ℕ → Memory → Memory
plant p code = poke code p 8 (with_byte (peek code p 8) int3)

abbrev pub line_of : ℕ → Memory → LineRow → CachedLine
line_of base code row = record {
  address = row.address;
  func_id = row.func_id;
  func_flag = row.func_flag;
  org_instr_byte = peek code (place base row.address) 8 % 256;
}

unfoldable pub set_lines :
    Tracee → ℕ → Memory → List LineRow → Option (ℕ × Memory × List CachedLine)
unfolding base_for peek poke
set_lines t base code [] = some (base, code, [])
set_lines t base code (row ∷ rows) = elim (base_for t base row) [
  | none ↦ none
  | some b ↦
      if not (t.writable (place b row.address))
      then none
      else elim (set_lines t b (plant (place b row.address) code) rows) [
        | none ↦ none
        | some (b', code', lines) ↦ some (b', code', line_of b code row ∷ lines)
      ]
]

unfoldable pub set_units :
    Tracee → ℕ → Memory → List UnitRow → Option (ℕ × Memory × List CachedUnit)
unfolding set_lines
set_units t base code [] = some (base, code, [])
set_units t base code (u ∷ units) =
    if not (u.reset_ok) then none else elim (set_lines t base code u.rows) [
      | none ↦ none
      | some (b, code', lines) ↦ if not u.fetched then none else elim (set_units t b code' units) [
        | none ↦ none
        | some (b', code'', rest) ↦ some (
          b',
          code'',
          record { start = u.start; last = u.last; line_count = u.line_count; lines = lines }
              ∷ rest,
        )
      ]
    ]

-- `opened` says whether both cursors can be opened, `fetched` whether the units come to their end.
-- The base address is 0 in the beginning.
unfoldable pub set_breakpoints :
    Bool → Bool → Tracee → Memory → List UnitRow → Option (ℕ × Memory × List CachedUnit)
unfolding set_units
set_breakpoints opened fetched t code units =
    if not opened then none else elim (set_units t 0 code units) [
      | none ↦ none
      | some result ↦ if fetched then some result else none
    ]
