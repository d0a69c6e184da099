-- ===== src/Variables/Entry/Failure.antt =====
-- A value that cannot be read.
use flightrec.Prelude.{
  ℕ, ◌≡◌, ◌∙◌, ap, [], ◌∷◌, ◌++◌, Bool, true, false, ◌&&◌, ◌||◌, none, some, ◌==◌, leb,
  if◌then◌else◌, if_true, if_false, arith, Bool-cases, inl, inr, sym,
}
use flightrec.VarValue.{get_var_value}
use flightrec.References.{RefTable}
use flightrec.Variables.{
  TypeRow, View, get_type_size, read_value, tkind, tkind_signed, tkind_float, tkind_pointer,
  tkind_array, tkind_enum,
}
use flightrec.Variables.Item.{Request, Answer, Reply, Outcome, done, failed, only_name, reply_text}
use flightrec.Variables.Blocks.{is_compound, add_pointer, add_address}
use flightrec.Variables.Entry.{
  add_kind, add_scalar, add_resolved, scalar_text, add_var_entry, add_var_entry_lem,
}
use flightrec.Variables.Entry.Alias.{resolve_itself}

-- A kind whose value is read at once.
abbrev pub is_read : ℕ → Bool
is_read kind = (leb tkind_signed kind && leb kind tkind_pointer) || (kind == tkind_enum)

read_value_closed :
    (v : View) (address size : ℕ) → v.mem_ok && v.mem_end ≡ false → read_value v address size ≡ none
unfolding get_var_value
read_value_closed v address size e = if_false _ _ e

module _ (v : View) (q : Request) (row : TypeRow) (refs : RefTable)
    (closed : v.mem_ok && v.mem_end ≡ false) where
  abbrev named : Outcome → Reply
  named outcome = record { item = only_name q.key.child; refs = refs; outcome = outcome }

  scalar_unread :
      is_read (tkind row.flags) ≡ true
      → (tkind row.flags == tkind_pointer) ≡ false
      → add_scalar v q q.type row refs ≡ named done
  unfolding add_scalar reply_text
  scalar_unread k n =
      if_true
        {b = (leb tkind_signed (tkind row.flags) && leb (tkind row.flags) tkind_float)
          || (tkind row.flags == tkind_enum)}
        _ _ (ground (arith, k, n))
      ∙ ap
          (λ o. elim o [
            | none ↦ reply_text q.key.child refs none
            | some mem ↦ reply_text q.key.child refs (scalar_text v q.type row mem)
          ])
          (read_value_closed v q.address row.size closed)

  pointer_unread : add_pointer v q q.type row refs ≡ named failed
  unfolding add_pointer add_address
  pointer_unread =
      ap (add_address v q q.type row refs) (read_value_closed v q.address row.size closed)

  kind_unread :
      q.indirect ≡ 0
      → is_read (tkind row.flags) ≡ true
      → add_kind v q q.type row refs
        ≡ named (if tkind row.flags == tkind_pointer then failed else done)
  unfolding add_kind
  kind_unread direct k =
      let shown = if q.indirect == 0 then tkind row.flags else tkind_pointer in
      let no_compound : is_compound shown ≡ false = ground (arith, k, direct) in
      elim (Bool-cases (tkind row.flags == tkind_pointer)) [
        | inl p ↦
            let pointer : (shown == tkind_pointer) ≡ true = ground (arith, p, direct) in
            if_false _ _ no_compound
            ∙ if_true _ _ pointer
            ∙ pointer_unread
            ∙ ap named (sym (if_true failed done p))
        | inr n ↦
            let no_pointer : (shown == tkind_pointer) ≡ false = ground (arith, n, direct) in
            let no_array : (shown == tkind_array) ≡ false = ground (arith, k, direct) in
            if_false _ _ no_compound
            ∙ if_false _ _ no_pointer
            ∙ if_false _ _ no_array
            ∙ scalar_unread k n
            ∙ ap named (sym (if_false failed done n))
      ]

-- If the query of the value fails, and the type, found under its own name, is a number, an enumeration or
-- a pointer without indirections, one item is added, which has only its name, and the call reports a
-- failure for a pointer, but for all other kinds the success.
pub unread_entry :
    (fuel : ℕ) (v : View) (q : Request) (answer : Answer) (row : TypeRow)
    → get_type_size v q.type ≡ some row
    → q.indirect ≡ 0
    → is_read (tkind row.flags) ≡ true
    → v.mem_ok && v.mem_end ≡ false
    → add_var_entry fuel v q answer ≡ (
      record { items = answer.items ++ (only_name q.key.child ∷ []); refs = answer.refs },
      if tkind row.flags == tkind_pointer then failed else done,
    )
unfolding add_resolved
unread_entry fuel v q answer row known direct k closed =
    add_var_entry_lem fuel v q answer row known
    ∙ ap (add_resolved v q answer) (resolve_itself fuel v q.type row (ground (arith, k)))
    ∙ ap
        (λ (r : Reply).
          (record { items = answer.items ++ (r.item ∷ []); refs = r.refs }, r.outcome))
        (kind_unread v q row answer.refs closed direct k)
