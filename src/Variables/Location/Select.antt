-- ===== src/Variables/Location/Select.antt =====
-- Which entry of a location list is taken, and where a variable of a function is.
use mathlib.Core.Path.{ap₂}
use flightrec.Prelude.{
  ℕ, ◌+◌, ◌-◌, ◌%◌, ◌≤◌, ◌≡◌, ◌⊎◌, inl, inr, refl, ◌∙◌, ap, List, [], ◌∷◌, ◌++◌, Bool, true, false,
  Option, none, some, not, ◌&&◌, ◌||◌, ltb, leb, ◌==◌, if◌then◌else◌, if_true, if_false, arith,
}
use flightrec.Query.{In, where_rows, first_row}
use flightrec.Lookup.{word}
use flightrec.Variables.{View}
use flightrec.Variables.Item.{Answer, Outcome, failed, undefined}
use flightrec.Variables.Entry.{add_var_entry}
use flightrec.Variables.Location.{
  Entry, Place, Located, lost, unset, located, applies, operation, locate, get_location, op_addr,
  op_fbreg, op_breg_first, op_breg_last, attribute, Debug, VarRow, place_of, location_of,
  from_frame, row_address, add_base, get_var_address, add_var, var_request,
}

-- Entries that are read and passed over.
abbrev pub IsSkipped : Place → Entry → Type 0
IsSkipped place e = (e.entry_ok ≡ true) × (e.source ≡ 1) × (applies place e ≡ false)

locate_skipped :
    (place : Place) (e : Entry) (entries : List Entry) (address : Located)
    → IsSkipped place e
    → locate place (e ∷ entries) address ≡ locate place entries address
unfolding locate
locate_skipped place e entries address (ok, source, out) =
    if_false _ _ (ap not ok)
    ∙ if_true {b = ((e.source == 1) && not (applies place e)) || ltb 1 e.source} _ _
        (ground (arith, source, out))

locate_taken :
    (place : Place) (e : Entry) (entries : List Entry) (address : Located) (a : ℕ)
    → e.entry_ok ≡ true
    → e.value_ok ≡ true
    → (e.source ≡ 0) ⊎ ((e.source ≡ 1) × (applies place e ≡ true))
    → operation place e ≡ some a
    → locate place (e ∷ entries) address ≡ locate place entries (located a)
unfolding locate
locate_taken place e entries address a ok value there found =
    if_false _ _ (ap not ok)
    ∙ if_false {b = ((e.source == 1) && not (applies place e)) || ltb 1 e.source} _ _
        (ground (arith, there))
    ∙ if_false _ _ (ap not value)
    ∙ ap (λ o. elim o as (λ o. Located) [ none ↦ lost | some b ↦ locate place entries (located b) ])
        found

locate_rest :
    (place : Place) (entries : List Entry) (address : Located)
    → ((e : Entry) → In e entries → IsSkipped place e)
    → locate place entries address ≡ address
unfolding locate
locate_rest place [] address f = refl
locate_rest place (e ∷ entries) address f =
    locate_skipped place e entries address (f e (inl refl))
    ∙ locate_rest place entries address (λ x m. f x (inr m))

module _ (place : Place) (e : Entry) (a : ℕ) (ok : e.entry_ok ≡ true) (value : e.value_ok ≡ true)
    (there : (e.source ≡ 0) ⊎ ((e.source ≡ 1) × (applies place e ≡ true)))
    (found : operation place e ≡ some a) where
  locate_selects :
      (before after : List Entry) (address : Located)
      → ((x : Entry) → In x before → IsSkipped place x)
      → ((x : Entry) → In x after → IsSkipped place x)
      → locate place (before ++ (e ∷ after)) address ≡ located a
  locate_selects [] after address f g =
      locate_taken place e after address a ok value there found
      ∙ locate_rest place after (located a) g
  locate_selects (x ∷ before) after address f g =
      locate_skipped place x (before ++ (e ∷ after)) address (f x (inl refl))
      ∙ locate_selects before after address (λ y m. f y (inr m)) g

  -- If one entry of a location list applies to the program counter or is an expression, its
  -- operation can be read and is supported, and all others are entries of a list that can be read
  -- and do not apply, the location is what that operation yields.
  pub get_location_selects :
      (before after : List Entry)
      → ((x : Entry) → In x before → IsSkipped place x)
      → ((x : Entry) → In x after → IsSkipped place x)
      → get_location place (some (before ++ (e ∷ after))) ≡ located a
  unfolding get_location
  get_location_selects before after f g = locate_selects before after unset f g

operation_register :
    (place : Place) (e : Entry)
    → op_breg_first ≤ e.op
    → e.op ≤ op_breg_last
    → operation place e ≡ some ((place.registers (e.op - op_breg_first) + e.operand) % word)
unfolding operation
operation_register place e l h =
    if_false {b = e.op == op_addr} _ _ (ground (arith, l, h))
    ∙ if_false {b = e.op == op_fbreg} _ _ (ground (arith, l, h))
    ∙ if_true {b = leb op_breg_first e.op && leb e.op op_breg_last} _ _ (ground (arith, l, h))

operation_frame : (place : Place) (e : Entry) → e.op ≡ op_fbreg → operation place e ≡ some e.operand
unfolding operation
operation_frame place e o =
    if_false {b = e.op == op_addr} _ _ (ground (arith, o))
    ∙ if_true {b = e.op == op_fbreg} _ _ (ground (arith, o))

-- A variable of a function: an expression relative to the frame, and the function's frame base as a list with
-- one entry that applies, which is relative to a register.
pub record IsLocal (d : Debug) (v : View) (row : VarRow) (e frame : Entry)
    (before after : List Entry) : Type 0 where
  pub stopped : d.regs_ok ≡ true
  pub entry_found : (n : ℕ) → d.die_ok n ≡ true
  pub var_place : d.location row.offset ≡ attribute (some ([] ++ (e ∷ [])))
  pub entry_ok : e.entry_ok ≡ true
  pub value_ok : e.value_ok ≡ true
  pub expression : e.source ≡ 0
  pub relative : e.op ≡ op_fbreg
  pub base_place : d.frame_base row.func_offset ≡ attribute (some (before ++ (frame ∷ after)))
  pub base_ok : frame.entry_ok ≡ true
  pub base_value : frame.value_ok ≡ true
  pub base_applies :
      (frame.source ≡ 0) ⊎ ((frame.source ≡ 1) × (applies (place_of d v row) frame ≡ true))
  pub first_register : op_breg_first ≤ frame.op
  pub last_register : frame.op ≤ op_breg_last
  pub others_before : (x : Entry) → In x before → IsSkipped (place_of d v row) x
  pub others_after : (x : Entry) → In x after → IsSkipped (place_of d v row) x

module _ (d : Debug) (v : View) (row : VarRow) (e frame : Entry) (before after : List Entry)
    (l : IsLocal d v row e frame before after) where
  abbrev frame_address : ℕ
  frame_address = (d.registers (frame.op - op_breg_first) + frame.operand) % word

  abbrev place : Place
  place = place_of d v row

  local_offset : location_of place (d.location row.offset) ≡ located e.operand
  unfolding location_of
  local_offset =
      ap (location_of place) l.var_place
      ∙ get_location_selects place e e.operand l.entry_ok l.value_ok (inl l.expression)
          (operation_frame place e l.relative) [] [] (λ x m. elim m [ ]) (λ x m. elim m [ ])

  frame_place : location_of place (d.frame_base row.func_offset) ≡ located frame_address
  unfolding location_of
  frame_place =
      ap (location_of place) l.base_place
      ∙ get_location_selects place frame frame_address l.base_ok l.base_value l.base_applies
          (operation_register place frame l.first_register l.last_register) before after
          l.others_before l.others_after

  row_address_local :
      row_address d v row
      ≡ located (
          if ltb e.operand 9223372036854775808
          then e.operand
          else (e.operand + frame_address) % word)
  unfolding row_address from_frame
  row_address_local =
      if_false _ _ (ap₂ (λ a b. not (a && b)) l.stopped (l.entry_found row.offset))
      ∙ ap (from_frame d v row) local_offset
      ∙ ap (λ x. if ltb e.operand 9223372036854775808 then located e.operand else x)
          (if_false _ _ (ap not (l.entry_found row.func_offset))
            ∙ ap (add_base e.operand) frame_place)
      ∙ split (ltb e.operand 9223372036854775808) e.operand ((e.operand + frame_address) % word)
    where
      split :
          (b : Bool) (x y : ℕ) → (if b then located x else located y) ≡ located (if b then x else y)
      split true x y = refl
      split false x y = refl

  -- If a variable of a function is found, its location is an expression relative to the frame, the
  -- frame base of its function is a list of entries of which one applies to the program counter and
  -- is a register with an offset, and the registers and the debug entries are read, then the entry
  -- that `add_var` adds is that of the address: the sum of the offset, the register and the
  -- register's offset if the first is negative, and the offset alone otherwise.
  pub add_var_local :
      (fuel scope var_id : ℕ) (answer : Answer)
      → d.var_ok ≡ true
      → first_row (where_rows (λ (r : VarRow). r.id == var_id) d.vars) ≡ some row
      → add_var fuel d v scope var_id answer
        ≡ add_var_entry fuel v
            (var_request scope row (
              if ltb e.operand 9223372036854775808
              then e.operand
              else (e.operand + frame_address) % word))
            answer
  unfolding add_var get_var_address
  add_var_local fuel scope var_id answer queried there =
      let found = if_true _ _ queried ∙ there in
      ap
        (λ (o : Option VarRow). elim o as (λ x. Answer × Outcome) [
          | none ↦ (answer, failed)
          | some r ↦
              at_place r (elim o as (λ x. Located) [ none ↦ lost | some s ↦ row_address d v s ])
        ])
        found
      ∙ ap (at_place row) row_address_local
    where
      at_place : VarRow → Located → Answer × Outcome
      at_place r p = elim p [
        | lost ↦ (answer, failed)
        | unset ↦ (answer, undefined)
        | located address ↦ add_var_entry fuel v (var_request scope r address) answer
      ]
