-- ===== src/Variables/Location.antt =====
-- examine/vars.c: `get_location`, `get_var_address` and `add_var`, which find out where a variable is.
-- What libdwarf answers is given: the entries of a location attribute with their first operation.
-- Addresses are words; a negative one is at least 2^63. An address that is never stored, and an
-- attribute that is not there, which libdwarf does not report as an error, end as `unset`.
pub mod Select
use flightrec.Prelude.{
  ℕ, ◌+◌, ◌-◌, ◌%◌, List, [], ◌∷◌, Bool, true, false, not, ◌&&◌, ◌||◌, Option, none, some, ltb, leb,
  ◌==◌, if◌then◌else◌,
}
use flightrec.Query.{where_rows, first_row}
use flightrec.Lookup.{word}
use flightrec.References.{Key}
use flightrec.Variables.{View}
use flightrec.Variables.Item.{Outcome, failed, undefined, Answer, Request}
use flightrec.Variables.Entry.{add_var_entry}
use flightrec.Variables.Items.{ptype_scope}

-- One entry of a location list: whether it and its operation can be read, its range, its source,
-- and the code and the first operand of the operation.
pub record Entry : Type 0 where
  pub entry_ok : Bool
  pub offset_pair : Bool
  pub lo_pc : ℕ
  pub hi_pc : ℕ
  pub source : ℕ
  pub value_ok : Bool
  pub op : ℕ
  pub operand : ℕ

-- DW_OP_addr, DW_OP_fbreg, DW_OP_breg0 and DW_OP_breg15.
abbrev pub op_addr : ℕ
op_addr = 3

abbrev pub op_fbreg : ℕ
op_fbreg = 145

abbrev pub op_breg_first : ℕ
op_breg_first = 112

abbrev pub op_breg_last : ℕ
op_breg_last = 127

-- The program counter, the base of the unit and of the program, and the registers by their DWARF
-- numbers.
pub record Place : Type 0 where
  pub pc : ℕ
  pub unit_base : ℕ
  pub program_base : ℕ
  pub registers : ℕ → ℕ

pub data Located : Type 0 where
  lost unset : Located
  located : ℕ → Located

abbrev pub bound : Place → Entry → ℕ → ℕ
bound place e pc = if e.offset_pair then (pc + place.unit_base + place.program_base) % word else pc

-- Whether an entry of a list applies to the program counter.
abbrev pub applies : Place → Entry → Bool
applies place e = leb (bound place e e.lo_pc) place.pc && ltb place.pc (bound place e e.hi_pc)

unfoldable pub operation : Place → Entry → Option ℕ
operation place e =
    if e.op == op_addr
    then some ((e.operand + place.program_base) % word)
    else if e.op == op_fbreg
    then some e.operand
    else if leb op_breg_first e.op && leb e.op op_breg_last
    then some ((place.registers (e.op - op_breg_first) + e.operand) % word)
    else none

-- The address so far, when the loop is at an entry.
unfoldable pub locate : Place → List Entry → Located → Located
unfolding operation
locate place [] address = address
locate place (e ∷ entries) address =
    let skipped = locate place entries address in
    let found = elim (operation place e) as (λ o. Located) [
      | none ↦ lost
      | some a ↦ locate place entries (located a)
    ] in
    if not e.entry_ok
    then lost
    else if ((e.source == 1) && not (applies place e)) || ltb 1 e.source
    then skipped
    else if not e.value_ok
    then lost
    else found

-- The entries of an attribute, if the list can be read.
unfoldable pub get_location : Place → Option (List Entry) → Located
unfolding locate
get_location place none = lost
get_location place (some entries) = locate place entries unset

-- What `dwarf_attr` answers: DW_DLV_ERROR, DW_DLV_NO_ENTRY, or an attribute.
pub data Attribute : Type 0 where
  attr_error attr_missing : Attribute
  attribute : Option (List Entry) → Attribute

-- A variable with its unit, and its function if it has one, as the query joins them.
pub record VarRow : Type 0 where
  pub id : ℕ
  pub name : ℕ
  pub offset : ℕ
  pub func_offset : ℕ
  pub base : ℕ
  pub type : ℕ

-- The debug entries by their offsets: whether one is found, its location and its frame base.
pub record Debug : Type 0 where
  pub vars : List VarRow
  pub var_ok : Bool
  pub regs_ok : Bool
  pub pc : ℕ
  pub registers : ℕ → ℕ
  pub die_ok : ℕ → Bool
  pub location : ℕ → Attribute
  pub frame_base : ℕ → Attribute

unfoldable pub location_of : Place → Attribute → Located
unfolding get_location
location_of place attr_error = lost
location_of place attr_missing = unset
location_of place (attribute entries) = get_location place entries

abbrev pub place_of : Debug → View → VarRow → Place
place_of d v row = record {
  pc = d.pc;
  unit_base = row.base;
  program_base = v.program_base;
  registers = d.registers;
}

abbrev pub add_base : ℕ → Located → Located
add_base a lost = lost
add_base a unset = unset
add_base a (located frame) = located ((a + frame) % word)

-- A negative address is an offset from the frame base of the function.
unfoldable pub from_frame : Debug → View → VarRow → Located → Located
unfolding location_of
from_frame d v row lost = lost
from_frame d v row unset = unset
from_frame d v row (located a) =
    if ltb a 9223372036854775808
    then located a
    else if not (d.die_ok row.func_offset)
    then lost
    else add_base a (location_of (place_of d v row) (d.frame_base row.func_offset))

-- Where a variable is whose row was found.
unfoldable pub row_address : Debug → View → VarRow → Located
unfolding location_of from_frame
row_address d v row =
    if not (d.regs_ok && d.die_ok row.offset)
    then lost
    else from_frame d v row (location_of (place_of d v row) (d.location row.offset))

unfoldable pub get_var_address : Debug → View → ℕ → Option VarRow × Located
unfolding where_rows row_address
get_var_address d v var_id =
    let row =
      if d.var_ok then first_row (where_rows (λ (r : VarRow). r.id == var_id) d.vars) else none in
    (row, elim row [ none ↦ lost | some r ↦ row_address d v r ])

abbrev pub var_request : ℕ → VarRow → ℕ → Request
var_request scope row address = record {
  key = record { parent_type = ptype_scope; parent = scope; child = row.name };
  address = address;
  type = row.type;
  indirect = 0;
}

unfoldable pub add_var : ℕ → Debug → View → ℕ → ℕ → Answer → Answer × Outcome
unfolding get_var_address add_var_entry
add_var fuel d v scope var_id answer =
    let (row, place) = get_var_address d v var_id in
    elim row [
      | none ↦ (answer, failed)
      | some r ↦ elim place [
        | lost ↦ (answer, failed)
        | unset ↦ (answer, undefined)
        | located address ↦ add_var_entry fuel v (var_request scope r address) answer
      ]
    ]
