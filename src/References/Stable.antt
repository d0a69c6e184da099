-- ===== src/References/Stable.antt =====
-- References stay: one for each key, whatever it refers to later.
use mathlib.Core.Path.{subst}
use flightrec.Prelude.{
  ℕ, ◌+◌, ◌<◌, ◌≡◌, ◌≢◌, ◌⊎◌, inl, inr, refl, sym, ◌∙◌, ap, List, [], ◌∷◌, ◌++◌, true, Option, none,
  some, ◌==◌, if_true, if_false, arith, Option-cases, Bool-cases, test_eq, test_ne,
}
use flightrec.Query.{In, where_rows, where_rows-In, In-where_rows, first_row}
use flightrec.Query.Append.{In-append, In-append_left, In-append_right}
use flightrec.References.{
  Key, Target, RefRow, RefTable, same_key, find_ref, with_target, update_ref, get_var_ref,
}

-- Ids are below the next one, and differ for different rows, as do keys.
pub record IsRefTable (table : RefTable) : Type 0 where
  pub below : (r : RefRow) → In r table.rows → r.id < table.next_id
  pub ids : (r q : RefRow) → In r table.rows → In q table.rows → r.id ≡ q.id → r ≡ q
  pub keys : (r q : RefRow) → In r table.rows → In q table.rows → r.key ≡ q.key → r ≡ q

same_key-eq : (a b : Key) → same_key a b ≡ true → a ≡ b
same_key-eq a b e =
    let p : a.parent_type ≡ b.parent_type = ground (arith, e) in
    let q : a.parent ≡ b.parent = ground (arith, e) in
    let r : a.child ≡ b.child = ground (arith, e) in cc

update_ref-In :
    (target : Target) (id : ℕ) (rows : List RefRow) (q : RefRow)
    → In q (update_ref target id rows)
    → (r : RefRow) × In r rows × (q ≡ with_target target id r)
unfolding update_ref
update_ref-In target id [] q m = elim m [ ]
update_ref-In target id (r ∷ rows) q (inr m) =
    let (x, n, c) = update_ref-In target id rows q m in (x, inr n, c)
update_ref-In target id (r ∷ rows) q (inl e) = (r, inl refl, e)

with_target_frame :
    (target : Target) (id : ℕ) (r : RefRow)
    → ((with_target target id r).id ≡ r.id) × ((with_target target id r).key ≡ r.key)
with_target_frame target id r = elim (Bool-cases (r.id == id)) [
  | inl e ↦ let k = if_true _ _ e in (ap (λ (x : RefRow). x.id) k, ap (λ (x : RefRow). x.key) k)
  | inr e ↦ let k = if_false _ _ e in (ap (λ (x : RefRow). x.id) k, ap (λ (x : RefRow). x.key) k)
]

In-update_ref :
    (target : Target) (id : ℕ) (rows : List RefRow) (r : RefRow)
    → In r rows
    → ((r.id ≡ id → In (record r { target = target }) (update_ref target id rows)))
      × (r.id ≢ id → In r (update_ref target id rows))
unfolding update_ref
In-update_ref target id [] r m = elim m [ ]
In-update_ref target id (x ∷ rows) r (inr m) =
    let (a, b) = In-update_ref target id rows r m in (λ e. inr (a e), λ n. inr (b n))
In-update_ref target id (x ∷ rows) r (inl e) = (
  λ k. inl (
      ap (λ (y : RefRow). record y { target = target }) e
      ∙ sym (if_true _ _ (test_eq x.id id (sym (ap (λ (y : RefRow). y.id) e) ∙ k)))),
  λ n. inl (e ∙ sym (if_false _ _ (test_ne x.id id (λ k. n (ap (λ (y : RefRow). y.id) e ∙ k))))),
)

find_ref-some :
    (key : Key) (rows : List RefRow) (r : RefRow)
    → find_ref key rows ≡ some r
    → In r rows × (r.key ≡ key)
unfolding find_ref
find_ref-some key rows r e =
    let (m, t) =
      where_rows-In (λ x. same_key x.key key) rows r
        (head_In (where_rows (λ x. same_key x.key key) rows) e) in
    (m, same_key-eq r.key key t)
  where
    head_In : (xs : List RefRow) → first_row xs ≡ some r → In r xs
    head_In [] e = absurd (cc)
    head_In (y ∷ ys) e = inl (cc)

same_key_refl : (a : Key) → same_key a a ≡ true
same_key_refl a = ground arith

find_ref-none :
    (key : Key) (rows : List RefRow)
    → find_ref key rows ≡ none
    → (r : RefRow) → In r rows
    → r.key ≢ key
unfolding find_ref
find_ref-none key rows e r m k = empty (where_rows (λ x. same_key x.key key) rows) e (
    In-where_rows (λ x. same_key x.key key) rows r m
      (ap (λ x. same_key x key) k ∙ same_key_refl key))
  where
    empty : (xs : List RefRow) → first_row xs ≡ none → In r xs → ⊥
    empty [] e m = elim m [ ]
    empty (z ∷ zs) e m = absurd (cc)

-- What holds after a key was looked up.
pub record Referred (key : Key) (target : Target) (table after : RefTable) (id : ℕ) : Type 0 where
  pub valid : IsRefTable after
  pub there : In (record { id = id; key = key; target = target }) after.rows
  pub kept : (r : RefRow) → In r table.rows → r.id ≢ id → In r after.rows
  pub same : (r : RefRow) → In r table.rows → r.key ≡ key → r.id ≡ id

module _ (key : Key) (target : Target) (table : RefTable) (t : IsRefTable table) where
  updated :
      (r : RefRow)
      → In r table.rows
      → r.key ≡ key
      → Referred key target table (record table { rows = update_ref target r.id table.rows }) r.id
  updated r m k = record {
    valid = record {
      below = λ q n.
          let (x, y, e) = update_ref-In target r.id table.rows q n in
          let l = t.below x y in
          omega (arith, ap (λ (z : RefRow). z.id) e ∙ (with_target_frame target r.id x).0);
      ids = λ q p n o e.
          let (x, y, f) = update_ref-In target r.id table.rows q n in
          let (z, w, g) = update_ref-In target r.id table.rows p o in
          f
          ∙ ap (with_target target r.id) (
              t.ids x z y w (
                sym (ap (λ (a : RefRow). a.id) f ∙ (with_target_frame target r.id x).0)
                ∙ e
                ∙ ap (λ (a : RefRow). a.id) g
                ∙ (with_target_frame target r.id z).0))
          ∙ sym g;
      keys = λ q p n o e.
          let (x, y, f) = update_ref-In target r.id table.rows q n in
          let (z, w, g) = update_ref-In target r.id table.rows p o in
          f
          ∙ ap (with_target target r.id) (
              t.keys x z y w (
                sym (ap (λ (a : RefRow). a.key) f ∙ (with_target_frame target r.id x).1)
                ∙ e
                ∙ ap (λ (a : RefRow). a.key) g
                ∙ (with_target_frame target r.id z).1))
          ∙ sym g;
    };
    there =
        subst
          (λ (x : Key).
            In (record { id = r.id; key = x; target = target }) (update_ref target r.id table.rows))
          k ((In-update_ref target r.id table.rows r m).0 refl);
    kept = λ q n ne. (In-update_ref target r.id table.rows q n).1 ne;
    same = λ q n e. ap (λ (x : RefRow). x.id) (t.keys q r n m (e ∙ sym k));
  }

  abbrev new_row : RefRow
  new_row = record { id = table.next_id; key = key; target = target }

  abbrev inserted : RefTable
  inserted = record { rows = table.rows ++ (new_row ∷ []); next_id = table.next_id + 1 }

  inserted-cases : (q : RefRow) → In q inserted.rows → In q table.rows ⊎ (q ≡ new_row)
  inserted-cases q m = elim (In-append q table.rows (new_row ∷ []) m) [
    | inl o ↦ inl o
    | inr n ↦ elim n [ inl e ↦ inr e | inr z ↦ elim z [ ] ]
  ]

  added :
      ((r : RefRow) → In r table.rows → r.key ≢ key)
      → Referred key target table inserted table.next_id
  added missing = record {
    valid = record {
      below = λ q n. elim (inserted-cases q n) [
        | inl o ↦ let l = t.below q o in omega arith
        | inr e ↦ omega (arith, ap (λ (z : RefRow). z.id) e)
      ];
      ids = λ q p n o e. elim (inserted-cases q n) [
        | inl a ↦ elim (inserted-cases p o) [
          | inl b ↦ t.ids q p a b e
          | inr b ↦ let l = t.below q a in absurd (omega (arith, ap (λ (z : RefRow). z.id) b))
        ]
        | inr a ↦ elim (inserted-cases p o) [
          | inl b ↦ let l = t.below p b in absurd (omega (arith, ap (λ (z : RefRow). z.id) a))
          | inr b ↦ a ∙ sym b
        ]
      ];
      keys = λ q p n o e. elim (inserted-cases q n) [
        | inl a ↦ elim (inserted-cases p o) [
          | inl b ↦ t.keys q p a b e
          | inr b ↦ absurd (missing q a (e ∙ ap (λ (z : RefRow). z.key) b))
        ]
        | inr a ↦ elim (inserted-cases p o) [
          | inl b ↦ absurd (missing p b (sym e ∙ ap (λ (z : RefRow). z.key) a))
          | inr b ↦ a ∙ sym b
        ]
      ];
    };
    there = In-append_right new_row table.rows (new_row ∷ []) (inl refl);
    kept = λ q n ne. In-append_left q table.rows (new_row ∷ []) n;
    same = λ q n e. absurd (missing q n e);
  }

  -- In a table with one row for each key and each id, if all statements succeed, then `get_var_ref`
  -- yields an id whose row has the key and the target, all rows with other ids are still there, a row
  -- that was there for the key had the same id, and the table is again such a table.
  pub get_var_ref_stable :
      (after : RefTable) × (id : ℕ) × (get_var_ref true true true key target table
        ≡ (after, some id))
      × Referred key target table after id
  unfolding get_var_ref
  get_var_ref_stable = elim (Option-cases (find_ref key table.rows)) [
    | inl e ↦ (inserted, table.next_id, ap choose e, added (find_ref-none key table.rows e))
    | inr (r, e) ↦
        let (m, k) = find_ref-some key table.rows r e in
        (
          record table { rows = update_ref target r.id table.rows },
          r.id,
          ap choose e,
          updated r m k,
        )
  ]
    where
      choose : Option RefRow → RefTable × Option ℕ
      choose o = elim o [
        | some r ↦ (record table { rows = update_ref target r.id table.rows }, some r.id)
        | none ↦ (inserted, some table.next_id)
      ]
