-- ===== src/Variables/Entry/Alias.antt =====
-- The loop of `add_var_entry` over aliases ends.
use flightrec.Prelude.{
  List, ℕ, zero, suc, ◌<◌, ◌≡◌, ◌≢◌, inl, inr, refl, sym, ◌∙◌, ap, Option, none, some, ◌==◌,
  if_true, if_all, if◌then◌else◌, if_false, arith, Option-cases, test_eq, test_ne, ◌≤◌, ℕ_discrete,
}
use flightrec.Heap.{PointerStatus, allocated, released, elsewhere, not_found, failure}
use flightrec.References.{RefTable}
use flightrec.Variables.{
  TypeRow, View, read_value, Shown, tkind, tkind_pointer, tkind_array, dangling_text, invalid_text,
  get_type_size, tkind_alias,
}
use flightrec.Variables.Item.{failed, Request, Answer, endless, only_name, Reply, Item, reply_text}
use flightrec.Variables.Blocks.{
  add_address, is_compound, pointer_item, add_string, add_children, add_items, add_array,
  add_pointer, add_target,
}
use flightrec.Variables.Entry.{
  Resolved, at_type, missing, looping, resolve, add_var_entry, add_kind, add_resolved,
  add_var_entry_lem, add_var_entry_unknown, add_compound, add_scalar,
}

-- No alias leads back to itself: a number decreases from each alias to the type it stands for.
abbrev pub IsRanked : View → (ℕ → ℕ) → Type 0
IsRanked v rank =
    (type : ℕ) (row next : TypeRow)
    → get_type_size v type ≡ some row
    → row.flags ≡ tkind_alias
    → get_type_size v row.parent ≡ some next
    → rank row.parent < rank type

-- One turn of the loop.
resolve_alias :
    (fuel : ℕ) (v : View) (type : ℕ) (row next : TypeRow)
    → row.flags ≡ tkind_alias
    → get_type_size v row.parent ≡ some next
    → resolve (suc fuel) v type row ≡ resolve fuel v row.parent next
unfolding resolve
resolve_alias fuel v type row next a e =
    if_true _ _ (test_eq _ _ a)
    ∙ ap (λ o. elim o [ none ↦ missing | some n ↦ resolve fuel v row.parent n ]) e

resolve_lost :
    (fuel : ℕ) (v : View) (type : ℕ) (row : TypeRow)
    → row.flags ≡ tkind_alias
    → get_type_size v row.parent ≡ none
    → resolve (suc fuel) v type row ≡ missing
unfolding resolve
resolve_lost fuel v type row a e =
    if_true _ _ (test_eq _ _ a)
    ∙ ap (λ o. elim o [ none ↦ missing | some n ↦ resolve fuel v row.parent n ]) e

pub resolve_itself :
    (fuel : ℕ) (v : View) (type : ℕ) (row : TypeRow)
    → row.flags ≢ tkind_alias
    → resolve fuel v type row ≡ at_type type row
unfolding resolve
resolve_itself zero v type row n = if_false _ _ (test_ne _ _ n)
resolve_itself (suc fuel) v type row n = if_false _ _ (test_ne _ _ n)

-- A call that ends, with an item of that name.
abbrev pub IsEntry : ℕ → Reply → Type 0
IsEntry n r = (r.outcome ≢ endless) × (r.item.name ≡ n)

-- All branches of the switch are such calls.
add_string-IsEntry :
    (v : View) (address limit : ℕ) (item : Item) (refs : RefTable)
    → IsEntry item.name (add_string v address limit item refs)
unfolding add_string
add_string-IsEntry v address limit item refs = ground arith

add_children-IsEntry :
    (v : View) (q : Request) (address type : ℕ) (row : TypeRow) (kind dim : ℕ) (item : Item)
    (refs : RefTable)
    → IsEntry item.name (add_children v q address type row kind dim item refs)
unfolding add_children
add_children-IsEntry v q address type row kind dim item refs = ground arith

add_items-IsEntry :
    (v : View) (q : Request) (address block type : ℕ) (row : TypeRow) (dim : ℕ) (base : TypeRow)
    (item : Item) (refs : RefTable)
    → IsEntry item.name (add_items v q address block type row dim base item refs)
unfolding add_items
add_items-IsEntry v q address block type row dim base item refs =
    grind (arith, add_string-IsEntry, add_children-IsEntry)

add_array-IsEntry :
    (v : View) (q : Request) (address block type : ℕ) (row : TypeRow) (dim : ℕ) (item : Item)
    (refs : RefTable)
    → IsEntry item.name (add_array v q address block type row dim item refs)
unfolding add_array
add_array-IsEntry v q address block type row dim item refs = grind (arith, add_items-IsEntry)

reply_text-IsEntry :
    (n : ℕ) (refs : RefTable) (text : Option Shown) → IsEntry n (reply_text n refs text)
unfolding reply_text
reply_text-IsEntry n refs none = ground arith
reply_text-IsEntry n refs (some text) = ground arith

add_target-IsEntry :
    (v : View) (q : Request) (address type : ℕ) (row : TypeRow) (refs : RefTable)
    (s : PointerStatus)
    → IsEntry q.key.child (add_target v q address type row refs s)
unfolding add_target
add_target-IsEntry v q address type row refs s =
    elim s as (λ s. IsEntry q.key.child (add_target v q address type row refs s)) [
      | released ↦
          reply_text-IsEntry q.key.child refs (some (dangling_text q.type q.indirect address))
      | not_found ↦
          reply_text-IsEntry q.key.child refs (some (invalid_text q.type q.indirect address))
      | failure ↦ reply_text-IsEntry q.key.child refs none
      | elsewhere ↦ add_array-IsEntry v q address 0 type row 1 (pointer_item q address) refs
      | allocated size ↦
          add_array-IsEntry v q address size type row (if size == 0 then 1 else row.dim)
            (pointer_item q address) refs
    ]

add_address-IsEntry :
    (v : View) (q : Request) (type : ℕ) (row : TypeRow) (refs : RefTable) (mem : Option (List ℕ))
    → IsEntry q.key.child (add_address v q type row refs mem)
unfolding add_address
add_address-IsEntry v q type row refs none = ground arith
add_address-IsEntry v q type row refs (some mem) =
    grind (arith, add_target-IsEntry, reply_text-IsEntry)

add_pointer-IsEntry :
    (v : View) (q : Request) (type : ℕ) (row : TypeRow) (refs : RefTable)
    → IsEntry q.key.child (add_pointer v q type row refs)
unfolding add_pointer
add_pointer-IsEntry v q type row refs =
    add_address-IsEntry v q type row refs (read_value v q.address row.size)

add_compound-IsEntry :
    (v : View) (q : Request) (type : ℕ) (row : TypeRow) (refs : RefTable)
    → IsEntry q.key.child (add_compound v q type row refs)
unfolding add_compound
add_compound-IsEntry v q type row refs = ground arith

add_scalar-IsEntry :
    (v : View) (q : Request) (type : ℕ) (row : TypeRow) (refs : RefTable)
    → IsEntry q.key.child (add_scalar v q type row refs)
unfolding add_scalar
add_scalar-IsEntry v q type row refs = grind (arith, reply_text-IsEntry)

pub add_kind-IsEntry :
    (v : View) (q : Request) (type : ℕ) (row : TypeRow) (refs : RefTable)
    → IsEntry q.key.child (add_kind v q type row refs)
unfolding add_kind
add_kind-IsEntry v q type row refs =
    let kind = if q.indirect == 0 then tkind row.flags else tkind_pointer in
    let compound = add_compound v q type row refs in
    let pointer = add_pointer v q type row refs in
    let array = add_array v q q.address 0 type row row.dim (only_name q.key.child) refs in
    let scalar = add_scalar v q type row refs in
    let other = if kind == tkind_array then array else scalar in
    let Stops : Reply → Type 0 = IsEntry q.key.child in
    if_all Stops (is_compound kind) compound (if kind == tkind_pointer then pointer else other)
      (add_compound-IsEntry v q type row refs)
      (if_all Stops (kind == tkind_pointer) pointer other (add_pointer-IsEntry v q type row refs) (
        if_all Stops (kind == tkind_array) array scalar
          (add_array-IsEntry v q q.address 0 type row row.dim (only_name q.key.child) refs)
          (add_scalar-IsEntry v q type row refs)))

add_resolved_ends :
    (v : View) (q : Request) (answer : Answer) (t : Resolved)
    → t ≢ looping
    → (add_resolved v q answer t).1 ≢ endless
unfolding add_resolved
add_resolved_ends v q answer missing n = λ k. absurd (cc)
add_resolved_ends v q answer looping n = absurd (n refl)
add_resolved_ends v q answer (at_type type row) n = (add_kind-IsEntry v q type row answer.refs).0

module _ (v : View) (rank : ℕ → ℕ) (ranked : IsRanked v rank) where
  -- With fuel for the rank, more fuel changes nothing.
  resolve_same :
      (m n type : ℕ) (row : TypeRow)
      → get_type_size v type ≡ some row
      → rank type < m
      → rank type < n
      → resolve m v type row ≡ resolve n v type row
  resolve_same zero n type row here l k = absurd (omega arith)
  resolve_same (suc m) zero type row here l k = absurd (omega arith)
  resolve_same (suc m) (suc n) type row here l k = elim (ℕ_discrete row.flags tkind_alias) [
    | yes a ↦ elim (Option-cases (get_type_size v row.parent)) [
      | inl e ↦ resolve_lost m v type row a e ∙ sym (resolve_lost n v type row a e)
      | inr (next, e) ↦
          let d = ranked type row next here a e in
          resolve_alias m v type row next a e
          ∙ resolve_same m n row.parent next e (omega arith) (omega arith)
          ∙ sym (resolve_alias n v type row next a e)
    ]
    | no a ↦ resolve_itself (suc m) v type row a ∙ sym (resolve_itself (suc n) v type row a)
  ]

  -- With fuel for the rank, the loop ends.
  resolve_ends :
      (fuel type : ℕ) (row : TypeRow)
      → get_type_size v type ≡ some row
      → rank type < fuel
      → resolve fuel v type row ≢ looping
  resolve_ends zero type row here l = absurd (omega arith)
  resolve_ends (suc fuel) type row here l = elim (ℕ_discrete row.flags tkind_alias) [
    | yes a ↦ elim (Option-cases (get_type_size v row.parent)) [
      | inl e ↦ λ k. lost (sym (resolve_lost fuel v type row a e) ∙ k)
      | inr (next, e) ↦
          let d = ranked type row next here a e in
          λ k.
            resolve_ends fuel row.parent next e (omega arith)
              (sym (resolve_alias fuel v type row next a e) ∙ k)
    ]
    | no a ↦ λ k. found (sym (resolve_itself (suc fuel) v type row a) ∙ k)
  ]
    where
      lost : missing ≢ looping
      lost e = absurd (cc)

      found : at_type type row ≢ looping
      found e = absurd (cc)

  -- If a number decreases from each alias to the type it stands for, then with more fuel than that
  -- number of the variable's type `add_var_entry` does not run out of it, and more fuel yields the
  -- same items, references and outcome.
  pub add_var_entry_ends :
      (fuel more : ℕ) (q : Request) (answer : Answer)
      → rank q.type < fuel
      → fuel ≤ more
      → ((add_var_entry fuel v q answer).1 ≢ endless)
        × (add_var_entry more v q answer ≡ add_var_entry fuel v q answer)
  add_var_entry_ends fuel more q answer l m = elim (Option-cases (get_type_size v q.type)) [
    | inl e ↦ (
      λ k. off (sym (ap (λ p. p.1) (add_var_entry_unknown fuel v q answer e)) ∙ k),
      add_var_entry_unknown more v q answer e ∙ sym (add_var_entry_unknown fuel v q answer e),
    )
    | inr (first, e) ↦ (
      λ k.
          add_resolved_ends v q answer (resolve fuel v q.type first)
            (resolve_ends fuel q.type first e l)
            (sym (ap (λ p. p.1) (add_var_entry_lem fuel v q answer first e)) ∙ k),
      add_var_entry_lem more v q answer first e
          ∙ ap (add_resolved v q answer) (resolve_same more fuel q.type first e (omega arith) l)
          ∙ sym (add_var_entry_lem fuel v q answer first e),
    )
  ]
    where
      off : failed ≢ endless
      off e = absurd (cc)
