-- ===== src/Variables/Items/Expand.antt =====
-- What the reference of a structure leads to.
use mathlib.Core.Path.{ap₂}
use flightrec.Prelude.{
  ℕ, ◌+◌, ◌%◌, ◌^◌, ◌≤◌, ◌≡◌, inl, refl, ◌∙◌, ap, List, [], ◌∷◌, ◌++◌, Bool, true, false, Option,
  none, some, ltb, ◌==◌, ==_iff, not, if◌then◌else◌, if_true, if_false, arith, test_eq,
}
use flightrec.Query.{
  In, IsOrder, IsOrdered, where_rows, where_rows-In, In-where_rows, first_row, order_by,
  order_by-In, order_by-IsOrdered,
}
use flightrec.References.{Target, RefRow, RefTable, get_var_ref}
use flightrec.References.Stable.{IsRefTable, get_var_ref_stable}
use flightrec.Variables.{TypeRow, MemberRow, View, get_type_size, tkind, tkind_pointer}
use flightrec.Variables.Item.{
  Item, Request, Answer, Reply, Outcome, done, failed, only_name, plain, kind_name,
}
use flightrec.Variables.Blocks.{is_compound}
use flightrec.Variables.Entry.{
  add_compound, add_kind, add_resolved, add_var_entry, add_var_entry_lem,
}
use flightrec.Variables.Entry.Alias.{resolve_itself}
use flightrec.Variables.Items.{ref_row, member_rows, field_requests, add_all, add_var_fields}

-- Members in the order of their offsets.
abbrev pub IsAscending : List MemberRow → Type 0
IsAscending [] = Unit {0}
IsAscending (x ∷ xs) = ((y : MemberRow) → In y xs → x.start ≤ y.start) × IsAscending xs

-- Requests for the given members, one each, in a variable at an address with a reference.
abbrev pub AreMembersAt : ℕ → ℕ → List MemberRow → List Request → Type 0
AreMembersAt id address [] [] = Unit {0}
AreMembersAt id address [] (q ∷ qs) = ⊥
AreMembersAt id address (x ∷ xs) [] = ⊥
AreMembersAt id address (x ∷ xs) (q ∷ qs) =
    (q.address ≡ (address + x.start) % 2 ^ 64)
    × (q.type ≡ x.type)
    × (q.indirect ≡ 0)
    × (q.key.parent ≡ id)
    × (q.key.child ≡ x.name)
    × AreMembersAt id address xs qs

-- The members of a type, in the order of their offsets.
pub record AreMembers (v : View) (type : ℕ) (fields : List MemberRow) : Type 0 where
  pub all : (x : MemberRow) → In x v.members → x.offset ≡ type → In x fields
  pub only : (x : MemberRow) → In x fields → In x v.members × (x.offset ≡ type)
  pub ascending : IsAscending fields

by_start-IsOrder : IsOrder (λ (a b : MemberRow). ltb a.start b.start)
by_start-IsOrder = record { asym = λ x y e. ground arith; trans = λ x y z e k. ground arith }

IsOrdered-IsAscending :
    (xs : List MemberRow) → IsOrdered (λ a b. ltb a.start b.start) xs → IsAscending xs
IsOrdered-IsAscending [] h = tt
IsOrdered-IsAscending (x ∷ xs) (h, t) = (λ y m. le x y (h y m), IsOrdered-IsAscending xs t)
  where
    le : (x y : MemberRow) → ltb y.start x.start ≡ false → x.start ≤ y.start
    le x y e = ground arith

member_rows-AreMembers : (v : View) (type : ℕ) → AreMembers v type (member_rows v type)
unfolding member_rows
member_rows-AreMembers v type =
    let before : MemberRow → MemberRow → Bool = λ a b. ltb a.start b.start in
    let rows = where_rows (λ (r : MemberRow). r.offset == type) v.members in
    record {
      all = λ x m e. (order_by-In before rows x).1 (
          In-where_rows (λ (r : MemberRow). r.offset == type) v.members x m
            (test_eq x.offset type e));
      only = λ x m.
          let (i, e) =
            where_rows-In (λ (r : MemberRow). r.offset == type) v.members x
              ((order_by-In before rows x).0 m) in
          (i, (==_iff x.offset type).0 e);
      ascending =
          IsOrdered-IsAscending (order_by before rows)
            (order_by-IsOrdered before by_start-IsOrder rows);
    }

field_requests-AreMembersAt :
    (id address : ℕ) (xs : List MemberRow)
    → AreMembersAt id address xs (field_requests id address xs)
unfolding field_requests
field_requests-AreMembersAt id address [] = tt
field_requests-AreMembersAt id address (x ∷ xs) =
    (refl, refl, refl, refl, refl, field_requests-AreMembersAt id address xs)

-- A row is found by its id.
pub ref_row-In :
    (table : RefTable)
    → IsRefTable table
    → (r : RefRow) → In r table.rows
    → ref_row r.id table.rows ≡ some r
unfolding ref_row
ref_row-In table t r m =
    single (where_rows (λ (x : RefRow). x.id == r.id) table.rows)
      (In-where_rows (λ (x : RefRow). x.id == r.id) table.rows r m (test_eq _ _ refl))
      (λ q n.
        let (o, e) = where_rows-In (λ (x : RefRow). x.id == r.id) table.rows q n in
        t.ids q r o m (ground (arith, e)))
  where
    single : (xs : List RefRow) → In r xs → ((q : RefRow) → In q xs → q ≡ r) → first_row xs ≡ some r
    single [] i f = elim i [ ]
    single (x ∷ xs) i f = ap some (f x (inl refl))

module _ (fuel : ℕ) (v : View) (q : Request) (row : TypeRow)
    (known : get_type_size v q.type ≡ some row) (direct : q.indirect ≡ 0)
    (kind : is_compound (tkind row.flags) ≡ true) (select : v.ref_select ≡ true)
    (update : v.ref_update ≡ true) (insert : v.ref_insert ≡ true) where
  abbrev its_target : Target
  its_target = record { address = q.address; type = q.type; indirect = 0 }

  abbrev compound_item : ℕ → Item
  compound_item r = record (plain q.key.child (kind_name q)) {
    reference = some r;
    named = some row.dim;
  }

  add_compound-get_var_ref :
      (refs after : RefTable) (r : ℕ)
      → get_var_ref true true true q.key its_target refs ≡ (after, some r)
      → add_compound v q q.type row refs
        ≡ record { item = compound_item r; refs = after; outcome = done }
  unfolding add_compound
  add_compound-get_var_ref refs after r e =
      let flags =
        ap₂ (λ a b. get_var_ref a b v.ref_insert q.key its_target refs) select update
        ∙ ap (λ c. get_var_ref true true c q.key its_target refs) insert
        ∙ e in
      ap
        (λ (p : RefTable × Option ℕ). elim p.1 as (λ x. Reply) [
          | none ↦ record { item = only_name q.key.child; refs = p.0; outcome = failed }
          | some s ↦ record { item = compound_item s; refs = p.0; outcome = done }
        ])
        flags

  compound_entry :
      (answer : Answer) (after : RefTable) (r : ℕ)
      → get_var_ref true true true q.key its_target answer.refs ≡ (after, some r)
      → add_var_entry fuel v q answer
        ≡ (record { items = answer.items ++ (compound_item r ∷ []); refs = after }, done)
  unfolding add_resolved add_kind
  compound_entry answer after r e =
      let shown = if q.indirect == 0 then tkind row.flags else tkind_pointer in
      let compound : is_compound shown ≡ true = ground (arith, kind, direct) in
      add_var_entry_lem fuel v q answer row known
      ∙ ap (add_resolved v q answer) (resolve_itself fuel v q.type row (ground (arith, kind)))
      ∙ ap
          (λ (x : Reply).
            (record { items = answer.items ++ (x.item ∷ []); refs = x.refs }, x.outcome))
          (if_true _ _ compound ∙ add_compound-get_var_ref answer.refs after r e)

  -- If the table of references has one row for each key and each id, the type, found under its own
  -- name, is a structure or a union without indirections, and all statements succeed, the entry
  -- succeeds and adds one item, with a reference and the number of fields; and the request for the
  -- fields of that reference makes an entry for each of the members of the type, up to the first
  -- that fails, in the order of their offsets, with the member's name and type, at its offset from
  -- the variable's address, modulo 2^64.
  pub struct_expands :
      v.struct_ok ≡ true
      → v.member_ok ≡ true
      → (answer : Answer) → IsRefTable answer.refs
      → (after : RefTable) × (r : ℕ) × (fields : List MemberRow) × (requests : List Request)
        × (add_var_entry fuel v q answer
            ≡ (record { items = answer.items ++ (compound_item r ∷ []); refs = after }, done))
        × (add_var_fields fuel v r (record { items = []; refs = after })
            ≡ add_all fuel v requests (record { items = []; refs = after }))
        × AreMembers v q.type fields
        × AreMembersAt r q.address fields requests
        × IsRefTable after
  unfolding add_var_fields
  struct_expands opened members answer t =
      let (after, r, e, referred) = get_var_ref_stable q.key its_target answer.refs t in
      let next : Answer = record { items = []; refs = after } in
      (
        after,
        r,
        member_rows v q.type,
        field_requests r q.address (member_rows v q.type),
        compound_entry answer after r e,
        if_false _ _ (ap not opened)
            ∙ ap
                (λ (o : Option RefRow). elim o as (λ x. Answer × Outcome) [
                  | none ↦ (next, failed)
                  | some x ↦
                      if v.member_ok
                      then add_all fuel v
                          (field_requests r x.target.address (member_rows v x.target.type)) next
                      else (next, failed)
                ])
                (ref_row-In after referred.valid
                  (record { id = r; key = q.key; target = its_target }) referred.there)
            ∙ if_true _ _ members,
        member_rows-AreMembers v q.type,
        field_requests-AreMembersAt r q.address (member_rows v q.type),
        referred.valid,
      )
