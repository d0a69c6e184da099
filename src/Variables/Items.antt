-- ===== src/Variables/Items.antt =====
-- examine/vars.c: `add_var_items` and `add_var_fields`, which show what is behind a reference. The
-- name of the item i, "[i]", is given by a function, as names are numbers. The fetches that go
-- through the fields do not fail.
pub mod Exact
pub mod Expand
use flightrec.Prelude.{
  ℕ, zero, suc, ◌+◌, ◌-◌, ◌*◌, ◌/◌, ◌%◌, List, [], ◌∷◌, Bool, true, false, not, ◌||◌, Option, none,
  some, ltb, ◌==◌, if◌then◌else◌,
}
use flightrec.Query.{where_rows, order_by, first_row}
use flightrec.Lookup.{word}
use flightrec.Heap.{PointerStatus, allocated, released, elsewhere, not_found, failure}
use flightrec.References.{Key, RefRow, RefTable}
use flightrec.Variables.{TypeRow, MemberRow, View, look_up_pointer}
use flightrec.Variables.Item.{Outcome, done, failed, undefined, endless, Answer, Request}
use flightrec.Variables.Entry.{add_var_entry}

-- The row of the query about an array: the base type if it has a row, else the type itself.
pub record ArrayRow : Type 0 where
  pub address : ℕ
  pub base : ℕ
  pub item_size : ℕ
  pub dim : ℕ
  pub indirect : ℕ

unfoldable pub ref_row : ℕ → List RefRow → Option RefRow
unfolding where_rows
ref_row id rows = first_row (where_rows (λ (r : RefRow). r.id == id) rows)

unfoldable pub type_row : ℕ → List TypeRow → Option TypeRow
unfolding where_rows
type_row offset rows = first_row (where_rows (λ (r : TypeRow). r.offset == offset) rows)

unfoldable pub array_row : View → RefTable → ℕ → Option ArrayRow
unfolding ref_row type_row
array_row v refs id = elim (ref_row id refs.rows) [
  | none ↦ none
  | some r ↦ elim (type_row r.target.type v.types) [
    | none ↦ none
    | some t ↦
        let base : TypeRow = elim (type_row t.parent v.types) [ none ↦ t | some b ↦ b ] in
        some record {
          address = r.target.address;
          base = base.offset;
          item_size = base.size;
          dim = t.dim;
          indirect = r.target.indirect;
        }
  ]
]

-- How many items there are: of a pointer, those that fit into the block.
unfoldable pub item_count : View → ArrayRow → Outcome × ℕ
item_count v row =
    if (row.dim == 0) || not (row.indirect == 0)
    then elim (look_up_pointer v row.address) [
      | released ↦ (failed, 0)
      | not_found ↦ (failed, 0)
      | failure ↦ (failed, 0)
      | elsewhere ↦ (done, 1)
      | allocated size ↦
          if size == 0
          then (done, 1)
          else if row.item_size == 0
          then (undefined, 0)
          else (done, size / row.item_size)
    ]
    else (done, row.dim)

-- PTYPE_SCOPE, which is passed as the type of the parent also where that is a reference.
abbrev pub ptype_scope : ℕ
ptype_scope = 1

abbrev pub item_request : (ℕ → ℕ) → ℕ → ArrayRow → ℕ → Request
item_request index_name id row i = record {
  key = record { parent_type = ptype_scope; parent = id; child = index_name i };
  address = (row.address + i * row.item_size) % word;
  type = row.base;
  indirect = row.indirect - 1;
}

-- The requests in turn, until one does not succeed.
unfoldable pub add_all : ℕ → View → List Request → Answer → Answer × Outcome
unfolding add_var_entry
add_all fuel v [] answer = (answer, done)
add_all fuel v (q ∷ qs) answer =
    let (after, outcome) = add_var_entry fuel v q answer in
    let rest = add_all fuel v qs after in
    elim outcome [
      | done ↦ rest
      | failed ↦ (after, failed)
      | undefined ↦ (after, undefined)
      | endless ↦ (after, endless)
    ]

unfoldable pub item_requests : (ℕ → ℕ) → ℕ → ArrayRow → ℕ → ℕ → List Request
item_requests index_name id row i zero = []
item_requests index_name id row i (suc n) =
    item_request index_name id row i ∷ item_requests index_name id row (i + 1) n

abbrev pub minimum : ℕ → ℕ → ℕ
minimum a b = if ltb a b then a else b

unfoldable pub add_var_items : ℕ → View → (ℕ → ℕ) → ℕ → ℕ → ℕ → Answer → Answer × Outcome
unfolding array_row item_count add_all item_requests
add_var_items fuel v index_name id start count answer =
    if not v.array_ok then (answer, failed) else elim (array_row v answer.refs id) [
      | none ↦ (answer, failed)
      | some row ↦
          let (outcome, dim) = item_count v row in
          elim outcome [
            | done ↦
                add_all fuel v (item_requests index_name id row start (minimum count dim - start))
                  answer
            | failed ↦ (answer, failed)
            | undefined ↦ (answer, undefined)
            | endless ↦ (answer, endless)
          ]
    ]

-- SELECT name, start, type FROM member WHERE offset = ? ORDER BY start
unfoldable pub member_rows : View → ℕ → List MemberRow
unfolding where_rows order_by
member_rows v type =
    order_by (λ a b. ltb a.start b.start)
      (where_rows (λ (r : MemberRow). r.offset == type) v.members)

abbrev pub field_request : ℕ → ℕ → MemberRow → Request
field_request id address row = record {
  key = record { parent_type = ptype_scope; parent = id; child = row.name };
  address = (address + row.start) % word;
  type = row.type;
  indirect = 0;
}

unfoldable pub field_requests : ℕ → ℕ → List MemberRow → List Request
field_requests id address [] = []
field_requests id address (row ∷ rows) =
    field_request id address row ∷ field_requests id address rows

unfoldable pub add_var_fields : ℕ → View → ℕ → Answer → Answer × Outcome
unfolding ref_row member_rows add_all field_requests
add_var_fields fuel v id answer =
    if not v.struct_ok then (answer, failed) else elim (ref_row id answer.refs.rows) [
      | none ↦ (answer, failed)
      | some r ↦
          if v.member_ok
          then add_all fuel v (field_requests id r.target.address (member_rows v r.target.type))
              answer
          else (answer, failed)
    ]
