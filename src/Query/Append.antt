-- ===== src/Query/Append.antt =====
-- Rows by their index, and rows of one list behind another.
use flightrec.Prelude.{
  ℕ, zero, suc, ◌≡◌, refl, sym, ap, List, [], ◌∷◌, ◌++◌, Bool, true, false, some, ◌⊎◌, inl, inr,
  Bool-cases, get_elem?,
}
use flightrec.Query.{In, where_rows, first_row}

module _ {A : Type 0} where
  -- A row at an index is a row.
  pub get_elem?-In : (xs : List A) (i : ℕ) (x : A) → get_elem? xs i ≡ some x → In x xs
  get_elem?-In [] i x e = absurd (cc)
  get_elem?-In (y ∷ xs) zero x e = inl (cc)
  get_elem?-In (y ∷ xs) (suc i) x e = inr (get_elem?-In xs i x e)

  pub In-get_elem? : (xs : List A) (x : A) → In x xs → (i : ℕ) × (get_elem? xs i ≡ some x)
  In-get_elem? [] x m = elim m [ ]
  In-get_elem? (y ∷ xs) x (inl e) = (0, ap some (sym e))
  In-get_elem? (y ∷ xs) x (inr m) = let (i, e) = In-get_elem? xs x m in (suc i, e)

  pub In-append : (x : A) (xs ys : List A) → In x (xs ++ ys) → In x xs ⊎ In x ys
  In-append x [] ys m = inr m
  In-append x (z ∷ xs) ys (inl e) = inl (inl e)
  In-append x (z ∷ xs) ys (inr m) = elim (In-append x xs ys m) [
    | inl n ↦ inl (inr n)
    | inr n ↦ inr n
  ]

  pub where_rows-append :
      (test : A → Bool) (xs ys : List A)
      → where_rows test (xs ++ ys) ≡ where_rows test xs ++ where_rows test ys
  unfolding where_rows
  where_rows-append test [] ys = refl
  where_rows-append test (x ∷ xs) ys = elim (Bool-cases (test x)) [
    | inl e ↦ rw e (ap (λ l. x ∷ l) (where_rows-append test xs ys))
    | inr e ↦ rw e (where_rows-append test xs ys)
  ]

  pub where_rows-all :
      (test : A → Bool) (xs : List A)
      → ((x : A) → In x xs → test x ≡ true)
      → where_rows test xs ≡ xs
  unfolding where_rows
  where_rows-all test [] h = refl
  where_rows-all test (x ∷ xs) h =
      rw (h x (inl refl)) (ap (λ l. x ∷ l) (where_rows-all test xs (λ y m. h y (inr m))))

  pub where_rows-no :
      (test : A → Bool) (xs : List A)
      → ((x : A) → In x xs → test x ≡ false)
      → where_rows test xs ≡ []
  unfolding where_rows
  where_rows-no test [] h = refl
  where_rows-no test (x ∷ xs) h = rw (h x (inl refl)) (where_rows-no test xs (λ y m. h y (inr m)))

  pub In-append_left : (x : A) (xs ys : List A) → In x xs → In x (xs ++ ys)
  In-append_left x [] ys m = elim m [ ]
  In-append_left x (z ∷ xs) ys (inl e) = inl e
  In-append_left x (z ∷ xs) ys (inr m) = inr (In-append_left x xs ys m)

  pub In-append_right : (x : A) (xs ys : List A) → In x ys → In x (xs ++ ys)
  In-append_right x [] ys m = m
  In-append_right x (z ∷ xs) ys m = inr (In-append_right x xs ys m)

pub first_row-In : {A : Type 0} (rows : List A) (x : A) → first_row rows ≡ some x → In x rows
first_row-In [] x e = absurd (cc)
first_row-In (y ∷ rows) x e = inl (cc)
