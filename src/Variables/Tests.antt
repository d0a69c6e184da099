-- ===== src/Variables/Tests.antt =====
-- Variables of a small program.
use flightrec.Prelude.{
  ℕ, ◌+◌, ◌-◌, ◌≡◌, ◌≢◌, refl, ap, List, [], ◌∷◌, map, true, false, some, inl, inr, arith, ltb,
  if◌then◌else◌, ◌==◌,
}
use flightrec.Query.Append.{first_row-In}
use flightrec.Query.{In, where_rows-In, where_rows, first_row}
use flightrec.Memory.{Memory, MemMsg}
use flightrec.Run.{poke}
use flightrec.References.{RefTable}
use flightrec.References.Stable.{IsRefTable}
use flightrec.Variables.{
  TypeRow, MemberRow, View, get_type_size, number, minus, tkind, tkind_pointer,
}
use flightrec.Variables.Samples.{type_rows, view_of, zeros, row_of, row_of-IsAligned, row_of-Shows}
use flightrec.Variables.Item.{Item, Request, Answer, done, endless, only_name, plain, kind_name}
use flightrec.Variables.Entry.{add_var_entry}
use flightrec.Variables.Entry.Alias.{IsRanked, add_var_entry_ends}
use flightrec.Variables.Entry.Numbers.{negative, shown_unsigned, shown_signed}
use flightrec.Variables.Entry.Failure.{unread_entry}
use flightrec.Variables.Entry.Strings.{IsText, printed, shown_array}
use flightrec.Variables.Items.{
  ArrayRow, array_row, item_count, type_row, ref_row, minimum, member_rows, field_requests, add_all,
  add_var_fields, add_var_items,
}
use flightrec.Variables.Items.Exact.{count_from, add_var_items-IsShown}
use flightrec.Variables.Items.Expand.{AreMembers, AreMembersAt, struct_expands}
use flightrec.Variables.Location.{Entry, Debug, VarRow, attribute, op_fbreg, var_request, add_var}
use flightrec.Variables.Location.Select.{IsLocal, add_var_local}

abbrev no_answer : Answer
no_answer = record { items = []; refs = record { rows = []; next_id = 1 } }

abbrev no_answer-IsRefTable : IsRefTable no_answer.refs
no_answer-IsRefTable = record {
  below = λ r m. elim m [ ];
  ids = λ r q m n e. elim m [ ];
  keys = λ r q m n e. elim m [ ];
}

abbrev var_of : ℕ → Request
var_of type = record {
  key = record { parent_type = 1; parent = 2; child = 30 };
  address = 64;
  type = type;
  indirect = 0;
}

abbrev type_at : ℕ → ℕ → ℕ → ℕ → ℕ → TypeRow
type_at offset size dim flags parent = record {
  offset = offset;
  size = size;
  dim = dim;
  flags = flags;
  parent = parent;
}

type_5 : (rows : List MemMsg) → get_type_size (view_of rows) 5 ≡ some (type_at 5 4 0 2 0)
unfolding get_type_size where_rows
type_5 rows = refl

type_6 : (rows : List MemMsg) → get_type_size (view_of rows) 6 ≡ some (type_at 6 4 0 1 0)
unfolding get_type_size where_rows
type_6 rows = refl

shown_unsigned_example :
    add_var_entry 0 (view_of (row_of (poke zeros 64 4 1234) ∷ [])) (var_of 5) no_answer
    ≡ (record { items = plain 30 (number 1234) ∷ []; refs = no_answer.refs }, done)
shown_unsigned_example =
    shown_unsigned 0 (view_of (row_of (poke zeros 64 4 1234) ∷ [])) (var_of 5) no_answer
      (type_at 5 4 0 2 0) (type_5 (row_of (poke zeros 64 4 1234) ∷ [])) refl zeros 1234
      (row_of-IsAligned (poke zeros 64 4 1234)) (omega arith) (omega arith)
      (row_of-Shows (poke zeros 64 4 1234) 4 (omega arith)) refl refl refl refl

shown_signed_example :
    add_var_entry 0 (view_of (row_of (poke zeros 64 4 4294967289) ∷ [])) (var_of 6) no_answer
    ≡ (record { items = plain 30 (minus 7) ∷ []; refs = no_answer.refs }, done)
shown_signed_example =
    shown_signed 0 (view_of (row_of (poke zeros 64 4 4294967289) ∷ [])) (var_of 6) no_answer
      (type_at 6 4 0 1 0) (type_6 (row_of (poke zeros 64 4 4294967289) ∷ [])) refl zeros 4294967289
      (row_of-IsAligned (poke zeros 64 4 4294967289)) (omega arith) (omega arith)
      (row_of-Shows (poke zeros 64 4 4294967289) 4 (omega arith)) refl refl (minus 7)
      (negative 4 4294967289 7 (omega arith) (omega arith)) refl refl

abbrev closed_view : View
closed_view = record (view_of []) { mem_ok = false }

type_5_closed : get_type_size closed_view 5 ≡ some (type_at 5 4 0 2 0)
unfolding get_type_size where_rows
type_5_closed = refl

unread_entry_example :
    add_var_entry 0 closed_view (var_of 5) no_answer
    ≡ (record { items = only_name 30 ∷ []; refs = no_answer.refs }, done)
unread_entry_example =
    unread_entry 0 closed_view (var_of 5) no_answer (type_at 5 4 0 2 0) type_5_closed refl refl refl

-- Three letters and no room for the 0 behind them.
abbrev letters : Memory
letters = λ i. if ltb i 68 then 65 else 0

letters-IsText : IsText letters 64 4 32
letters-IsText = record {
  fits = omega arith;
  inside = λ i l. ground (arith, l);
  closed = λ l. refl;
}

type_8 : get_type_size (view_of (row_of letters ∷ [])) 8 ≡ some (type_at 8 3 3 7 9)
unfolding get_type_size where_rows
type_8 = refl

type_9 : get_type_size (view_of (row_of letters ∷ [])) 9 ≡ some (type_at 9 1 0 1 0)
unfolding get_type_size where_rows
type_9 = refl

-- The array has three characters, and four are shown.
shown_array_example :
    add_var_entry 0 (view_of (row_of letters ∷ [])) (var_of 8) no_answer
    ≡ (record { items = plain 30 (printed letters 64 4 32) ∷ []; refs = no_answer.refs }, done)
shown_array_example =
    shown_array 0 (view_of (row_of letters ∷ [])) (var_of 8) no_answer (type_at 8 3 3 7 9)
      (type_at 9 1 0 1 0) letters 4 type_8 type_9 refl refl refl (row_of-IsAligned letters)
      (omega arith) (row_of-Shows letters 32 (omega arith)) refl refl letters-IsText

abbrev alias_rank : ℕ → ℕ
alias_rank type = if type == 10 then 1 else 0

alias_row :
    (row : TypeRow) → In row type_rows → row.flags ≡ 11 → (row.offset ≡ 10) × (row.parent ≡ 5)
alias_row row (inl e) a = absurd (omega (arith, ap (λ (r : TypeRow). r.flags) e, a))
alias_row row (inr (inl e)) a = absurd (omega (arith, ap (λ (r : TypeRow). r.flags) e, a))
alias_row row (inr (inr (inl e))) a = absurd (omega (arith, ap (λ (r : TypeRow). r.flags) e, a))
alias_row row (inr (inr (inr (inl e)))) a =
    absurd (omega (arith, ap (λ (r : TypeRow). r.flags) e, a))
alias_row row (inr (inr (inr (inr (inl e))))) a =
    absurd (omega (arith, ap (λ (r : TypeRow). r.flags) e, a))
alias_row row (inr (inr (inr (inr (inr (inl e)))))) a =
    (ap (λ (r : TypeRow). r.offset) e, ap (λ (r : TypeRow). r.parent) e)
alias_row row (inr (inr (inr (inr (inr (inr e)))))) a = elim e [ ]

type_rows-IsRanked : IsRanked (view_of []) alias_rank
unfolding get_type_size where_rows
type_rows-IsRanked type row next here a e =
    let (m, t) =
      where_rows-In (λ (r : TypeRow). r.offset == type) type_rows row
        (first_row-In (where_rows (λ (r : TypeRow). r.offset == type) type_rows) row here) in
    let (low, high) = alias_row row m a in
    let itself : row.offset ≡ type = ground (arith, t) in ground (arith, low, high, itself)

add_var_entry_ends_example :
    ((add_var_entry 2 (view_of []) (var_of 10) no_answer).1 ≢ endless)
    × (add_var_entry 9 (view_of []) (var_of 10) no_answer
        ≡ add_var_entry 2 (view_of []) (var_of 10) no_answer)
add_var_entry_ends_example =
    add_var_entry_ends (view_of []) alias_rank type_rows-IsRanked 2 9 (var_of 10) no_answer
      (omega arith) (omega arith)

type_7 : get_type_size (view_of []) 7 ≡ some (type_at 7 8 2 5 0)
unfolding get_type_size where_rows
type_7 = refl

abbrev struct_item : ℕ → Item
struct_item r = record (plain 30 (kind_name (var_of 7))) { reference = some r; named = some 2 }

struct_expands_example :
    (after : RefTable) × (r : ℕ) × (fields : List MemberRow) × (requests : List Request)
    × (add_var_entry 0 (view_of []) (var_of 7) no_answer
        ≡ (record { items = struct_item r ∷ []; refs = after }, done))
    × (add_var_fields 0 (view_of []) r (record { items = []; refs = after })
        ≡ add_all 0 (view_of []) requests (record { items = []; refs = after }))
    × AreMembers (view_of []) 7 fields
    × AreMembersAt r 64 fields requests
    × IsRefTable after
struct_expands_example =
    struct_expands 0 (view_of []) (var_of 7) (type_at 7 8 2 5 0) type_7 refl refl refl refl refl
      refl refl no_answer no_answer-IsRefTable

abbrev array_answer : Answer
array_answer = record {
  items = [];
  refs = record {
    rows =
        record {
          id = 1;
          key = record { parent_type = 1; parent = 2; child = 30 };
          target = record { address = 64; type = 8; indirect = 0 };
        }
        ∷ [];
    next_id = 2;
  };
}

abbrev array_of_three : ArrayRow
array_of_three = record { address = 64; base = 9; item_size = 1; dim = 3; indirect = 0 }

array_row_8 : array_row (view_of []) array_answer.refs 1 ≡ some array_of_three
unfolding array_row ref_row type_row where_rows
array_row_8 = refl

count_of_three : item_count (view_of []) array_of_three ≡ (done, 3)
unfolding item_count
count_of_three = refl

add_var_items-IsShown_example :
    flightrec.Variables.Items.Exact.IsShown array_answer
      (map (λ i. 100 + i) (count_from 1 (minimum 5 3 - 1)))
      (add_var_items 0 (view_of []) (λ i. 100 + i) 1 1 5 array_answer)
add_var_items-IsShown_example =
    add_var_items-IsShown 0 (view_of []) (λ i. 100 + i) 1 1 5 array_answer array_of_three 3 refl
      array_row_8 count_of_three

-- A variable 16 bytes below the frame base, which is 8 above the register 6.
abbrev frame_relative : Entry
frame_relative = record {
  entry_ok = true;
  offset_pair = false;
  lo_pc = 0;
  hi_pc = 0;
  source = 0;
  value_ok = true;
  op = op_fbreg;
  operand = 18446744073709551600;
}

abbrev register_relative : Entry
register_relative = record {
  entry_ok = true;
  offset_pair = false;
  lo_pc = 10;
  hi_pc = 20;
  source = 1;
  value_ok = true;
  op = 118;
  operand = 8;
}

abbrev local_row : VarRow
local_row = record { id = 4; name = 30; offset = 50; func_offset = 40; base = 0; type = 5 }

abbrev debug : Debug
debug = record {
  vars = local_row ∷ [];
  var_ok = true;
  regs_ok = true;
  pc = 15;
  registers = λ n. if n == 6 then 72 else 0;
  die_ok = λ n. true;
  location = λ n. attribute (some (frame_relative ∷ []));
  frame_base = λ n. attribute (some (register_relative ∷ []));
}

local_row-IsLocal : IsLocal debug (view_of []) local_row frame_relative register_relative [] []
local_row-IsLocal = record {
  stopped = refl;
  entry_found = λ n. refl;
  var_place = refl;
  entry_ok = refl;
  value_ok = refl;
  expression = refl;
  relative = refl;
  base_place = refl;
  base_ok = refl;
  base_value = refl;
  base_applies = inr (refl, refl);
  first_register = omega arith;
  last_register = omega arith;
  others_before = λ x m. elim m [ ];
  others_after = λ x m. elim m [ ];
}

local_found : first_row (where_rows (λ (r : VarRow). r.id == 4) debug.vars) ≡ some local_row
unfolding where_rows
local_found = refl

add_var_local_example :
    add_var 0 debug (view_of []) 2 4 no_answer
    ≡ add_var_entry 0 (view_of []) (var_request 2 local_row 64) no_answer
add_var_local_example =
    add_var_local debug (view_of []) local_row frame_relative register_relative [] []
      local_row-IsLocal 0 2 4 no_answer refl local_found
