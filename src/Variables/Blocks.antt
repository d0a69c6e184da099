-- ===== src/Variables/Blocks.antt =====
-- examine/vars.c: the branches of `add_var_entry` for pointers and arrays. The read of a pointer
-- beyond the buffer that holds it, and the division by the size 0, end as `undefined`.
use flightrec.Prelude.{
  ℕ, ◌+◌, ◌/◌, List, [], ◌∷◌, Bool, not, ◌&&◌, ◌||◌, Option, none, some, ltb, ◌==◌, if◌then◌else◌,
  length, take,
}
use flightrec.Heap.{PointerStatus, allocated, released, elsewhere, not_found, failure}
use flightrec.References.{Target, RefTable, get_var_ref}
use flightrec.Variables.{
  TypeRow, View, get_type_size, func_name, read_value, look_up_pointer, tkind, tkind_signed,
  tkind_unsigned, tkind_struct, tkind_union, tkind_func, unsigned_of, Shown, null_text,
  pointer_text, dangling_text, invalid_text, invalid_function, function_text, whole_string,
  cut_string,
}
use flightrec.Variables.Item.{
  Item, done, failed, undefined, Request, only_name, Reply, kind_name, reply_text,
}

-- What `strnlen` counts.
unfoldable pub until_zero : List ℕ → List ℕ
until_zero [] = []
until_zero (b ∷ bytes) = let rest = until_zero bytes in if b == 0 then [] else b ∷ rest

unfoldable pub string_text : ℕ → ℕ → List ℕ → Shown
unfolding until_zero
string_text address dim mem =
    let text = until_zero (take dim mem) in
    if length text == dim then cut_string address text else whole_string address text

-- The characters that are read: the block's, or 32.
abbrev pub string_limit : ℕ → ℕ → ℕ
string_limit block dim = if block == 0 then 32 else dim

unfoldable pub add_string : View → ℕ → ℕ → Item → RefTable → Reply
unfolding string_text
add_string v address limit item refs = elim (read_value v address limit) [
  | none ↦ record { item = item; refs = refs; outcome = done }
  | some mem ↦ record {
    item = record item { value = some (string_text address limit mem); reference = some 0 };
    refs = refs;
    outcome = done;
  }
]

unfoldable pub function_value : View → ℕ → Shown
unfolding func_name
function_value v address = elim (func_name v address) [
  | none ↦ invalid_function address
  | some f ↦ function_text address f.name
]

abbrev pub is_compound : ℕ → Bool
is_compound kind = (kind == tkind_struct) || (kind == tkind_union)

-- A reference to the items, or, for one structure or union, to that.
unfoldable pub add_children : View → Request → ℕ → ℕ → TypeRow → ℕ → ℕ → Item → RefTable → Reply
add_children v q address type row kind dim item refs =
    let only = (dim == 1) && is_compound kind in
    let target : Target = record {
      address = address;
      type = if only then row.parent else type;
      indirect = q.indirect;
    } in
    let (after, ref) = get_var_ref v.ref_select v.ref_update v.ref_insert q.key target refs in
    elim ref [
      | none ↦ record { item = item; refs = after; outcome = done }
      | some r ↦ record {
        item = record item {
          reference = some r;
          indexed = if only then none else some dim;
          value = elim item.value [ none ↦ some (kind_name q) | some text ↦ some text ];
        };
        refs = after;
        outcome = done;
      }
    ]

abbrev pub is_text : ℕ → ℕ → Bool
is_text size kind = (size == 1) && ((kind == tkind_signed) || (kind == tkind_unsigned))

-- The items of a block of memory or of an array; a block's length is counted in items.
unfoldable pub add_items :
    View → Request → ℕ → ℕ → ℕ → TypeRow → ℕ → TypeRow → Item → RefTable → Reply
unfolding add_string function_value add_children
add_items v q address block type row dim base item refs =
    let kind = tkind base.flags in
    let count = if block == 0 then dim else block / base.size in
    if not (block == 0) && (base.size == 0)
    then record { item = item; refs = refs; outcome = undefined }
    else if kind == tkind_func
    then record {
      item = record item { value = some (function_value v address); reference = some 0 };
      refs = refs;
      outcome = done;
    }
    else if is_text base.size kind
    then add_string v address (string_limit block count) item refs
    else add_children v q address type row kind count item refs

-- The type of the items: with indirections it is the type itself.
unfoldable pub add_array : View → Request → ℕ → ℕ → ℕ → TypeRow → ℕ → Item → RefTable → Reply
unfolding get_type_size add_items
add_array v q address block type row dim item refs =
    if q.indirect == 0
    then elim (get_type_size v row.parent) [
      | none ↦ record { item = item; refs = refs; outcome = failed }
      | some base ↦ add_items v q address block type row dim base item refs
    ]
    else add_items v q address block type row dim row item refs

abbrev pub pointer_item : Request → ℕ → Item
pointer_item q address = record (only_name q.key.child) {
  value = some (pointer_text q.type q.indirect address);
}

-- What an address other than 0 points to.
unfoldable pub add_target : View → Request → ℕ → ℕ → TypeRow → RefTable → PointerStatus → Reply
unfolding reply_text add_array
add_target v q address type row refs released =
    reply_text q.key.child refs (some (dangling_text q.type q.indirect address))
add_target v q address type row refs not_found =
    reply_text q.key.child refs (some (invalid_text q.type q.indirect address))
add_target v q address type row refs failure = reply_text q.key.child refs none
add_target v q address type row refs elsewhere =
    add_array v q address 0 type row 1 (pointer_item q address) refs
add_target v q address type row refs (allocated size) =
    add_array v q address size type row (if size == 0 then 1 else row.dim) (pointer_item q address)
      refs

-- The pointer, as its bytes are read.
unfoldable pub add_address : View → Request → ℕ → TypeRow → RefTable → Option (List ℕ) → Reply
unfolding reply_text add_target unsigned_of
add_address v q type row refs none = record {
  item = only_name q.key.child;
  refs = refs;
  outcome = failed;
}
add_address v q type row refs (some mem) =
    let address = unsigned_of 8 mem in
    if ltb (row.size + 1) 8
    then record { item = only_name q.key.child; refs = refs; outcome = undefined }
    else if address == 0
    then reply_text q.key.child refs (some null_text)
    else add_target v q address type row refs (look_up_pointer v address)

unfoldable pub add_pointer : View → Request → ℕ → TypeRow → RefTable → Reply
unfolding add_address
add_pointer v q type row refs = add_address v q type row refs (read_value v q.address row.size)
