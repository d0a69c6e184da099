-- ===== src/Variables.antt =====
-- examine/vars.c: what the debugger shows of a variable. The tables and the state of a session are
-- given as a record; a text that is printed is data, with what `sprintf` puts into it.
pub mod Item
pub mod Blocks
pub mod Entry
pub mod Items
pub mod Location
pub mod Samples
pub mod Scopes
mod Tests
use flightrec.Prelude.{
  ℕ, zero, suc, ◌+◌, ◌-◌, ◌*◌, ◌%◌, ◌^◌, List, [], ◌∷◌, Bool, true, false, not, ◌&&◌, Option, none,
  some, ltb, leb, ◌==◌, if◌then◌else◌,
}
use flightrec.Query.{where_rows, first_row}
use flightrec.Memory.{MemMsg, segment}
use flightrec.Heap.{HeapRow, PointerStatus, get_pointer_size}
use flightrec.Lookup.{sub64, word}
use flightrec.VarValue.{select_mem, get_var_value}

-- A row of the table `type`; the offset is its key.
pub record TypeRow : Type 0 where
  pub offset : ℕ
  pub size : ℕ
  pub dim : ℕ
  pub flags : ℕ
  pub parent : ℕ

-- A row of the table `member`: a field of a structure, or an item of an enumeration.
pub record MemberRow : Type 0 where
  pub offset : ℕ
  pub name : ℕ
  pub start : ℕ
  pub type : ℕ
  pub value : ℕ

-- A statement with the name of its function.
pub record FunctionRow : Type 0 where
  pub address : ℕ
  pub name : ℕ

-- The database at the current step, and which of its statements succeed.
pub record View : Type 0 where
  pub types : List TypeRow
  pub members : List MemberRow
  pub functions : List FunctionRow
  pub mem : List MemMsg
  pub heap : List HeapRow
  pub step : ℕ
  pub program_base : ℕ
  pub type_ok : Bool
  pub func_ok : Bool
  pub enum_ok : Bool
  pub mem_ok : Bool
  pub mem_end : Bool
  pub heap_ok : Bool
  pub ref_select : Bool
  pub ref_update : Bool
  pub ref_insert : Bool
  pub array_ok : Bool
  pub struct_ok : Bool
  pub member_ok : Bool

unfoldable pub get_type_size : View → ℕ → Option TypeRow
unfolding where_rows
get_type_size v offset =
    if v.type_ok then first_row (where_rows (λ (r : TypeRow). r.offset == offset) v.types) else none

unfoldable pub func_name : View → ℕ → Option FunctionRow
unfolding where_rows
func_name v address =
    if v.func_ok
    then first_row
        (where_rows (λ (r : FunctionRow). r.address == sub64 address v.program_base) v.functions)
    else none

-- The value of a variable as of the current step.
abbrev pub read_value : View → ℕ → ℕ → Option (List ℕ)
read_value v addr size = get_var_value v.mem_ok v.mem_end v.mem addr size v.step

-- Whether the query of the memory finds a row at the address.
abbrev pub is_recorded : View → ℕ → Bool
is_recorded v address = elim (select_mem v.mem v.step (address + segment) address) [
  | [] ↦ false
  | _ ↦ true
]

abbrev pub look_up_pointer : View → ℕ → PointerStatus
look_up_pointer v address =
    get_pointer_size v.heap_ok v.mem_ok (is_recorded v address) v.heap address v.step

-- TKIND_XXX and TKIND_TYPE.
abbrev pub tkind : ℕ → ℕ
tkind flags = flags % 65536

abbrev pub tkind_signed : ℕ
tkind_signed = 1

abbrev pub tkind_unsigned : ℕ
tkind_unsigned = 2

abbrev pub tkind_float : ℕ
tkind_float = 3

abbrev pub tkind_pointer : ℕ
tkind_pointer = 4

abbrev pub tkind_struct : ℕ
tkind_struct = 5

abbrev pub tkind_union : ℕ
tkind_union = 6

abbrev pub tkind_array : ℕ
tkind_array = 7

abbrev pub tkind_func : ℕ
tkind_func = 8

abbrev pub tkind_enum : ℕ
tkind_enum = 10

abbrev pub tkind_alias : ℕ
tkind_alias = 11

-- The number in the first bytes of a buffer, the lowest byte first.
unfoldable pub unsigned_of : ℕ → List ℕ → ℕ
unsigned_of zero bytes = 0
unsigned_of (suc n) [] = 0
unsigned_of (suc n) (b ∷ bytes) = b + 256 * unsigned_of n bytes

-- The printed texts. A type's name is that of its offset, with stars for the indirections.
pub data Shown : Type 0 where
  type_text : ℕ → ℕ → Shown
  null_text : Shown
  pointer_text dangling_text invalid_text : ℕ → ℕ → ℕ → Shown
  invalid_function : ℕ → Shown
  function_text : ℕ → ℕ → Shown
  whole_string cut_string : ℕ → List ℕ → Shown
  number minus : ℕ → Shown
  with_char : Shown → ℕ → Shown
  float_text : ℕ → List ℕ → Shown
  enum_text : ℕ → ℕ → Shown
  unsupported : Shown

-- A number of so many bytes in two's complement.
unfoldable pub signed_text : ℕ → ℕ → Shown
signed_text size n = if ltb n (2 ^ (8 * size - 1)) then number n else minus (2 ^ (8 * size) - n)

abbrev pub is_print : ℕ → Bool
is_print c = leb 32 c && leb c 126

abbrev pub char_text : ℕ → Shown → Shown
char_text c text = if is_print c then with_char text c else text

abbrev pub is_word : ℕ → Bool
is_word size = if size == 2 then true else if size == 4 then true else size == 8

unfoldable pub show_signed : ℕ → List ℕ → Shown
unfolding unsigned_of signed_text
show_signed size mem =
    if size == 1
    then char_text (unsigned_of 1 mem) (signed_text 1 (unsigned_of 1 mem))
    else if is_word size
    then signed_text size (unsigned_of size mem)
    else unsupported

unfoldable pub show_unsigned : ℕ → List ℕ → Shown
unfolding unsigned_of
show_unsigned size mem =
    if size == 1
    then char_text (unsigned_of 1 mem) (number (unsigned_of 1 mem))
    else if is_word size
    then number (unsigned_of size mem)
    else unsupported

-- The bytes of a float, a double or a long double, which the C library prints.
unfoldable pub show_float : ℕ → List ℕ → Shown
show_float size mem =
    if size == 4
    then float_text 4 mem
    else if size == 8
    then float_text 8 mem
    else if size == 16
    then float_text 16 mem
    else unsupported

-- SELECT name FROM member WHERE offset = ? AND value = ?
unfoldable pub enum_item : View → ℕ → ℕ → Shown
unfolding where_rows
enum_item v type value =
    elim (first_row
      (where_rows (λ (r : MemberRow). (r.offset == type) && (r.value == value)) v.members)) [
        | none ↦ number value
        | some r ↦ enum_text r.name value
      ]
