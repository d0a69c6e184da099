-- ===== src/Symbols.antt =====
-- record/dbginfo.c: `proc_symbols` with `proc_func`, `proc_block` and `proc_var`.
pub mod Entry
pub mod Forest
pub mod Tree
pub mod Collect
pub mod Ancestors
mod Tests
use flightrec.Prelude.{
  ℕ, ◌+◌, ◌-◌, ◌%◌, ◌^◌, List, [], ◌∷◌, Bool, true, false, not, ◌&&◌, ◌||◌, Option, none, some, ltb,
  ◌==◌, if◌then◌else◌, get_elem?, length, map,
}
use flightrec.Variables.Scopes.{global_scope}
use flightrec.Symbols.Entry.{
  VarDie, FuncDie, BlockDie, Die, Dies, tag_error, variable, subprogram, lexical_block, some_type,
  ignored, unknown, chain_end, sibling, ScopeRow, FuncRow, SymbolRow, Tables, Collected, success,
  failure, overrun, Result, and_then, insert_scope, insert_func,
}

-- `update_var_loc`: one row as it is afterwards.
abbrev pub moved : ℕ → ℕ → ℕ → ℕ → SymbolRow → SymbolRow
moved file line unit offset v =
    if (v.unit_id == unit) && (v.offset == offset)
    then record v { file_id = file; line = line }
    else v

abbrev pub or_zero : Option ℕ → ℕ
or_zero none = 0
or_zero (some n) = n

abbrev pub is_some : Option ℕ → Bool
is_some none = false
is_some (some n) = true

-- An entry with a specification is the definition of what was declared before.
unfoldable pub store_var : VarDie → Option ℕ → ℕ → ℕ → Tables → Tables
store_var d (some spec) scope unit t = record t {
  vars = map (moved d.file d.line unit spec) t.vars;
}
store_var d none scope unit t = record t {
  vars =
      record {
        name = d.name;
        unit_id = unit;
        type_offset = or_zero d.type;
        scope_id = if d.external then global_scope else scope;
        offset = d.offset;
        file_id = d.file;
        line = d.line;
      }
      ∷ t.vars;
}

unfoldable pub proc_var : VarDie → ℕ → ℕ → Tables → Result
proc_var d scope unit t =
    if not (d.offset_ok && d.attrs_ok)
    then (t, failure)
    else if d.artificial || not (is_some d.name || is_some d.specification)
    then (t, success)
    else if not (is_some d.type || is_some d.specification)
    then (t, failure)
    else if not d.stored
    then (t, failure)
    else (store_var d d.specification scope unit t, success)

-- In DWARF 4 the high address can be an offset from the low one. Addresses have 64 bits.
unfoldable pub scope_end : ℕ → ℕ → ℕ
scope_end lo hi = if ltb hi lo then (hi + lo) % 2 ^ 64 else hi

-- What comes before the INSERT: the end of the function, or the addresses of the scope.
pub data Start : Type 0 where
  ended : Collected → Start
  covers : ℕ → ℕ → Start

unfoldable pub func_start : FuncDie → Start
func_start f =
    if not (f.attrs_ok && f.tag_ok)
    then ended failure
    else if not (is_some f.name)
    then ended failure
    else if not (is_some f.low && is_some f.high)
    then ended (if f.external then success else failure)
    else covers (or_zero f.low) (scope_end (or_zero f.low) (or_zero f.high))

-- From the first range to the one before the terminator.
unfoldable pub range_bounds : ℕ → List (ℕ × ℕ) → Option (ℕ × ℕ)
range_bounds base ranges = if ltb (length ranges) 2 then none else elim (get_elem? ranges 0) [
  | none ↦ none
  | some first ↦ elim (get_elem? ranges (length ranges - 2)) [
    | none ↦ none
    | some last ↦ some ((base + first.0) % 2 ^ 64, (base + last.1) % 2 ^ 64)
  ]
]

unfoldable pub covered : Option (ℕ × ℕ) → Start
covered none = ended overrun
covered (some (lo, hi)) = covers lo (scope_end lo hi)

unfoldable pub block_start : ℕ → BlockDie → Start
block_start base b =
    if not b.attrs_ok
    then ended failure
    else if is_some b.low && is_some b.high
    then covered (some (or_zero b.low, or_zero b.high))
    else elim (b.ranges) [
      | none ↦ covered (some (or_zero b.low, or_zero b.high))
      | some none ↦ ended failure
      | some (some l) ↦ covered (range_bounds base l)
    ]

-- Whether the children are to be processed, with the tables as they are then.
pub data Opening : Type 0 where
  closed : Result → Opening
  entered : Tables → Opening

unfoldable pub open_func : FuncDie → ℕ → ℕ → Start → Tables → Opening
open_func f parent depth (ended w) t = closed (t, w)
open_func f parent depth (covers lo hi) t =
    if not f.scope_stored
    then closed (t, failure)
    else let inner = insert_scope parent depth (lo, hi) t in
      if not f.func_stored
      then closed (inner, failure)
      else entered (insert_func (or_zero f.name) t.next_id f.offset inner)

unfoldable pub open_block : BlockDie → ℕ → ℕ → Start → Tables → Opening
open_block b parent depth (ended w) t = closed (t, w)
open_block b parent depth (covers lo hi) t =
    if not b.scope_stored
    then closed (t, failure)
    else entered (insert_scope parent depth (lo, hi) t)

-- The arguments are the base address and the id of the unit, the scope and the depth.
unfoldable mutual
  pub proc_symbols : Dies → ℕ → ℕ → ℕ → ℕ → Tables → Result
  proc_symbols (chain_end ok) base unit scope depth t = (t, if ok then success else failure)
  proc_symbols (sibling d ds) base unit scope depth t =
      and_then (proc_die d base unit scope depth t)
        (λ next. proc_symbols ds base unit scope depth next)

  pub proc_die : Die → ℕ → ℕ → ℕ → ℕ → Tables → Result
  proc_die tag_error base unit scope depth t = (t, failure)
  proc_die (variable d) base unit scope depth t = proc_var d scope unit t
  proc_die (subprogram f ds) base unit scope depth t =
      elim (open_func f scope depth (func_start f) t) [
        | closed r ↦ r
        | entered inner ↦ proc_symbols ds base unit t.next_id (depth + 1) inner
      ]
  proc_die (lexical_block b ds) base unit scope depth t =
      elim (open_block b scope depth (block_start base b) t) [
        | closed r ↦ r
        | entered inner ↦ proc_symbols ds base unit t.next_id (depth + 1) inner
      ]
  proc_die (some_type ok) base unit scope depth t = (t, if ok then success else failure)
  proc_die ignored base unit scope depth t = (t, success)
  proc_die unknown base unit scope depth t = (t, failure)
