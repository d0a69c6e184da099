-- ===== src/Query.antt =====
-- What the SELECT statements of examine/ ask of a table: the rows that pass WHERE, in the order of
-- ORDER BY. SQLite's own evaluation is not modelled; a query is what its clauses say.
pub mod Append
use mathlib.Core.Path.{subst}
use flightrec.Prelude.{
  ◌≡◌, ◌↔◌, refl, sym, ◌∙◌, List, [], ◌∷◌, Bool, true, false, Option, none, some, if◌then◌else◌,
  Bool-cases, ap, ◌⊎◌, inl, inr, ℕ, zero, suc, get_elem?, ◌++◌,
}

module _ {A : Type 0} where
  unfoldable pub where_rows : (A → Bool) → List A → List A
  where_rows test [] = []
  where_rows test (row ∷ rows) =
      let rest = where_rows test rows in if test row then row ∷ rest else rest

  -- `before y x` says that `y` must come in front of `x`.
  unfoldable pub insert_row : (A → A → Bool) → A → List A → List A
  insert_row before x [] = x ∷ []
  insert_row before x (y ∷ ys) =
      let rest = insert_row before x ys in if before y x then y ∷ rest else x ∷ y ∷ ys

  unfoldable pub order_by : (A → A → Bool) → List A → List A
  order_by before [] = []
  order_by before (x ∷ xs) = insert_row before x (order_by before xs)

  unfoldable pub exists_row : (A → Bool) → List A → Bool
  exists_row test [] = false
  exists_row test (row ∷ rows) = if test row then true else exists_row test rows

  -- LIMIT 1.
  abbrev pub first_row : List A → Option A
  first_row [] = none
  first_row (x ∷ xs) = some x

  -- A row of the table.
  abbrev pub In : A → List A → Type 0
  In x [] = ⊥
  In x (y ∷ ys) = (x ≡ y) ⊎ In x ys

module _ {A : Type 0} where
  pub where_rows-In :
      (test : A → Bool) (rows : List A) (x : A)
      → In x (where_rows test rows)
      → In x rows × (test x ≡ true)
  unfolding where_rows
  where_rows-In test [] x m = elim m [ ]
  where_rows-In test (row ∷ rows) x m = pick (test row) refl m (λ n. where_rows-In test rows x n)
    where
      pick :
          (b : Bool)
          → test row ≡ b
          → In x (if b then row ∷ where_rows test rows else where_rows test rows)
          → (In x (where_rows test rows) → In x rows × (test x ≡ true))
          → ((x ≡ row) ⊎ In x rows) × (test x ≡ true)
      pick true e (inl k) rec = (inl k, ap test k ∙ e)
      pick true e (inr m') rec = let (i, t) = rec m' in (inr i, t)
      pick false e m' rec = let (i, t) = rec m' in (inr i, t)

  pub In-where_rows :
      (test : A → Bool) (rows : List A) (x : A)
      → In x rows
      → test x ≡ true
      → In x (where_rows test rows)
  unfolding where_rows
  In-where_rows test [] x m t = elim m [ ]
  In-where_rows test (row ∷ rows) x m t =
      pick (test row) refl m (λ n. In-where_rows test rows x n t)
    where
      pick :
          (b : Bool)
          → test row ≡ b
          → (x ≡ row) ⊎ In x rows
          → (In x rows → In x (where_rows test rows))
          → In x (if b then row ∷ where_rows test rows else where_rows test rows)
      pick true e (inl k) rec = inl k
      pick true e (inr m') rec = inr (rec m')
      pick false e (inl k) rec = let no : true ≡ false = sym t ∙ ap test k ∙ e in absurd (cc)
      pick false e (inr m') rec = rec m'

  insert_row-In :
      (before : A → A → Bool) (x : A) (ys : List A) (z : A)
      → In z (insert_row before x ys) ↔ ((z ≡ x) ⊎ In z ys)
  unfolding insert_row
  insert_row-In before x [] z = (λ m. m, λ m. m)
  insert_row-In before x (y ∷ ys) z = pick (insert_row-In before x ys z) (before y x)
    where
      pick :
          In z (insert_row before x ys) ↔ ((z ≡ x) ⊎ In z ys)
          → (b : Bool)
          → In z (if b then y ∷ insert_row before x ys else x ∷ y ∷ ys)
            ↔ ((z ≡ x) ⊎ ((z ≡ y) ⊎ In z ys))
      pick rec false = (λ m. m, λ m. m)
      pick rec true = (
        λ m. elim m [
          | inl e ↦ inr (inl e)
          | inr m' ↦ elim (rec.0 m') [ inl e ↦ inl e | inr n ↦ inr (inr n) ]
        ],
        λ m. elim m [
          | inl e ↦ inr (rec.1 (inl e))
          | inr n ↦ elim n [ inl e ↦ inl e | inr m' ↦ inr (rec.1 (inr m')) ]
        ],
      )

  pub order_by-In :
      (before : A → A → Bool) (xs : List A) (z : A) → In z (order_by before xs) ↔ In z xs
  unfolding order_by
  order_by-In before [] z = (λ m. m, λ m. m)
  order_by-In before (x ∷ xs) z =
      let ins = insert_row-In before x (order_by before xs) z in
      let rest = order_by-In before xs z in
      (
        λ m. elim (ins.0 m) [ inl e ↦ inl e | inr n ↦ inr (rest.0 n) ],
        λ m. ins.1 (elim m [ inl e ↦ inl e | inr n ↦ inr (rest.1 n) ]),
      )

  -- No row stands behind one that it must come in front of.
  abbrev pub IsOrdered : (A → A → Bool) → List A → Type 0
  IsOrdered before [] = Unit {0}
  IsOrdered before (x ∷ xs) = ((y : A) → In y xs → before y x ≡ false) × IsOrdered before xs

  -- An order on rows: strict, and such that rows that are not in order are like equal ones.
  pub record IsOrder (before : A → A → Bool) : Type 0 where
    pub asym : (x y : A) → before x y ≡ true → before y x ≡ false
    pub trans : (x y z : A) → before y x ≡ false → before z y ≡ false → before z x ≡ false

  module _ (before : A → A → Bool) (o : IsOrder before) where
    insert_row-IsOrdered :
        (x : A) (ys : List A) → IsOrdered before ys → IsOrdered before (insert_row before x ys)
    unfolding insert_row
    insert_row-IsOrdered x [] h = (λ y m. elim m [ ], tt)
    insert_row-IsOrdered x (y ∷ ys) (h, t) = pick (insert_row-IsOrdered x ys t) (before y x) refl
      where
        pick :
            IsOrdered before (insert_row before x ys)
            → (b : Bool) → before y x ≡ b
            → IsOrdered before (if b then y ∷ insert_row before x ys else x ∷ y ∷ ys)
        pick rec true e = (
          λ z m. elim ((insert_row-In before x ys z).0 m) [
            | inl k ↦ ap (λ w. before w y) k ∙ o.asym y x e
            | inr n ↦ h z n
          ],
          rec,
        )
        pick rec false e = (
          λ z m. elim m [ inl k ↦ ap (λ w. before w x) k ∙ e | inr n ↦ o.trans x y z e (h z n) ],
          (h, t),
        )

    pub order_by-IsOrdered : (xs : List A) → IsOrdered before (order_by before xs)
    unfolding order_by
    order_by-IsOrdered [] = tt
    order_by-IsOrdered (x ∷ xs) =
        insert_row-IsOrdered x (order_by before xs) (order_by-IsOrdered xs)

  module _ (before : A → A → Bool) (o : IsOrder before) (test : A → Bool) (rows : List A) where
    -- ORDER BY ... LIMIT 1 takes a row of the table that passes, with no passing row in front of it.
    pub first_row-some :
        (x : A)
        → first_row (order_by before (where_rows test rows)) ≡ some x
        → In x rows × (test x ≡ true) × ((y : A) → In y rows → test y ≡ true → before y x ≡ false)
    first_row-some x e =
        let m = head_In (order_by before (where_rows test rows)) x e in
        let (i, t) =
          where_rows-In test rows x ((order_by-In before (where_rows test rows) x).0 m) in
        (
          i,
          t,
          λ y m' k.
              head_first (order_by before (where_rows test rows)) x e
                (order_by-IsOrdered before o (where_rows test rows)) y
                ((order_by-In before (where_rows test rows) y).1 (In-where_rows test rows y m' k)),
        )
      where
        head_In : (xs : List A) (x : A) → first_row xs ≡ some x → In x xs
        head_In [] x e = absurd (cc)
        head_In (y ∷ ys) x e = inl (cc)

        head_first :
            (xs : List A) (x : A)
            → first_row xs ≡ some x
            → IsOrdered before xs
            → (y : A) → In y xs
            → before y x ≡ false
        head_first [] x e h y m = elim m [ ]
        head_first (z ∷ zs) x e (h, t) y m =
            let k : z ≡ x = cc in
            subst (λ w. before y w ≡ false) k
              (elim m [ inl q ↦ ap (λ w. before w z) q ∙ irrefl z | inr n ↦ h y n ])
          where
            irrefl : (w : A) → before w w ≡ false
            irrefl w = elim (Bool-cases (before w w)) [ inl e ↦ o.asym w w e | inr e ↦ e ]

    -- It takes none only if no row passes.
    pub first_row-none :
        first_row (order_by before (where_rows test rows)) ≡ none
        → (y : A) → In y rows
        → test y ≡ false
    first_row-none e y m = elim (Bool-cases (test y)) [
      | inl t ↦ absurd (
          empty (order_by before (where_rows test rows)) e
            ((order_by-In before (where_rows test rows) y).1 (In-where_rows test rows y m t)))
      | inr t ↦ t
    ]
      where
        empty : (xs : List A) → first_row xs ≡ none → In y xs → ⊥
        empty [] e m = elim m [ ]
        empty (z ∷ zs) e m = absurd (cc)
