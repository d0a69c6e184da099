-- ===== src/Variables/Entry.antt =====
-- examine/vars.c: `add_var_entry`, which shows a variable, a field or an item, with the branches for
-- numbers, enumerations and structures. The length of a printed text is not modelled.
pub mod Alias
pub mod Numbers
pub mod Strings
pub mod Failure
use flightrec.Prelude.{
  ◌≡◌, ap, ℕ, zero, suc, ◌+◌, List, [], ◌∷◌, ◌++◌, ◌&&◌, ◌||◌, Option, none, some, leb, ◌==◌,
  if◌then◌else◌,
}
use flightrec.References.{Target, RefTable, get_var_ref}
use flightrec.Variables.{
  TypeRow, View, get_type_size, read_value, tkind, tkind_signed, tkind_unsigned, tkind_float,
  tkind_pointer, tkind_array, tkind_enum, tkind_alias, unsigned_of, Shown, unsupported, show_signed,
  show_unsigned, show_float, enum_item,
}
use flightrec.Variables.Item.{
  Outcome, done, failed, endless, Answer, Request, only_name, plain, Reply, kind_name, reply_text,
}
use flightrec.Variables.Blocks.{is_compound, add_array, add_pointer}

-- The type behind the aliases, with its offset.
pub data Resolved : Type 0 where
  at_type : ℕ → TypeRow → Resolved
  missing looping : Resolved

-- The loop over aliases, whose runs the first argument bounds.
unfoldable pub resolve : ℕ → View → ℕ → TypeRow → Resolved
unfolding get_type_size
resolve zero v type row = if row.flags == tkind_alias then looping else at_type type row
resolve (suc fuel) v type row =
    if row.flags == tkind_alias
    then elim (get_type_size v row.parent) [
      | none ↦ missing
      | some next ↦ resolve fuel v row.parent next
    ]
    else at_type type row

-- Structures and unions, whose fields are asked for by the reference.
unfoldable pub add_compound : View → Request → ℕ → TypeRow → RefTable → Reply
add_compound v q type row refs =
    let target : Target = record { address = q.address; type = type; indirect = 0 } in
    let (after, ref) = get_var_ref v.ref_select v.ref_update v.ref_insert q.key target refs in
    elim ref [
      | none ↦ record { item = only_name q.key.child; refs = after; outcome = failed }
      | some r ↦ record {
        item = record (plain q.key.child (kind_name q)) {
          reference = some r;
          named = some row.dim;
        };
        refs = after;
        outcome = done;
      }
    ]

-- An enumeration's value is looked up by its number, if it has 1, 2 or 4 bytes.
unfoldable pub enum_value : View → ℕ → ℕ → List ℕ → Option Shown
unfolding unsigned_of enum_item
enum_value v type size mem =
    if (size == 1) || ((size == 2) || (size == 4))
    then (if v.enum_ok then some (enum_item v type (unsigned_of size mem)) else none)
    else some unsupported

unfoldable pub scalar_text : View → ℕ → TypeRow → List ℕ → Option Shown
unfolding show_signed show_unsigned show_float enum_value
scalar_text v type row mem =
    let kind = tkind row.flags in
    if kind == tkind_signed
    then some (show_signed row.size mem)
    else if kind == tkind_unsigned
    then some (show_unsigned row.size mem)
    else if kind == tkind_float
    then some (show_float row.size mem)
    else enum_value v type row.size mem

-- A kind without a branch of its own is unsupported.
unfoldable pub add_scalar : View → Request → ℕ → TypeRow → RefTable → Reply
unfolding reply_text scalar_text
add_scalar v q type row refs =
    let kind = tkind row.flags in
    if (leb tkind_signed kind && leb kind tkind_float) || (kind == tkind_enum)
    then elim (read_value v q.address row.size) [
      | none ↦ reply_text q.key.child refs none
      | some mem ↦ reply_text q.key.child refs (scalar_text v type row mem)
    ]
    else reply_text q.key.child refs (some unsupported)

-- The switch over the kind, for a type behind its aliases.
unfoldable pub add_kind : View → Request → ℕ → TypeRow → RefTable → Reply
unfolding add_compound add_pointer add_array add_scalar
add_kind v q type row refs =
    let kind = if q.indirect == 0 then tkind row.flags else tkind_pointer in
    if is_compound kind
    then add_compound v q type row refs
    else if kind == tkind_pointer
    then add_pointer v q type row refs
    else if kind == tkind_array
    then add_array v q q.address 0 type row row.dim (only_name q.key.child) refs
    else add_scalar v q type row refs

-- The entry of a variable once its type is known.
unfoldable pub add_resolved : View → Request → Answer → Resolved → Answer × Outcome
unfolding add_kind
add_resolved v q answer missing = (answer, failed)
add_resolved v q answer looping = (answer, endless)
add_resolved v q answer (at_type type row) =
    let reply = add_kind v q type row answer.refs in
    (record { items = answer.items ++ (reply.item ∷ []); refs = reply.refs }, reply.outcome)

unfoldable pub add_var_entry : ℕ → View → Request → Answer → Answer × Outcome
unfolding get_type_size resolve add_resolved
add_var_entry fuel v q answer = elim (get_type_size v q.type) [
  | none ↦ (answer, failed)
  | some first ↦ add_resolved v q answer (resolve fuel v q.type first)
]

-- A variable whose type is known.
pub add_var_entry_lem :
    (fuel : ℕ) (v : View) (q : Request) (answer : Answer) (first : TypeRow)
    → get_type_size v q.type ≡ some first
    → add_var_entry fuel v q answer ≡ add_resolved v q answer (resolve fuel v q.type first)
unfolding add_var_entry
add_var_entry_lem fuel v q answer first e =
    ap
      (λ o. elim o [
        | none ↦ (answer, failed)
        | some f ↦ add_resolved v q answer (resolve fuel v q.type f)
      ])
      e

pub add_var_entry_unknown :
    (fuel : ℕ) (v : View) (q : Request) (answer : Answer)
    → get_type_size v q.type ≡ none
    → add_var_entry fuel v q answer ≡ (answer, failed)
unfolding add_var_entry
add_var_entry_unknown fuel v q answer e =
    ap
      (λ o. elim o [
        | none ↦ (answer, failed)
        | some f ↦ add_resolved v q answer (resolve fuel v q.type f)
      ])
      e
