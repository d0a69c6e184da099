-- ===== src/Heap/Rows.antt =====
-- How an insertion and a release change the row that is found for an address.
use flightrec.Prelude.{
  ℕ, ◌≡◌, refl, sym, ◌∙◌, ap, List, [], ◌∷◌, ◌++◌, Bool, false, ◌&&◌, Option, none, some, ltb, leb,
  ◌==◌, if◌then◌else◌, arith, inl, inr, Bool-cases, if_true, if_false,
}
use flightrec.Query.{IsOrder, where_rows, order_by, insert_row, first_row}
use flightrec.Heap.{HeapRow, free_row, free_rows, newest, is_candidate, find_row}

pub newest-IsOrder : IsOrder newest
newest-IsOrder = record { asym = λ x y e. ground arith; trans = λ x y z e k. ground arith }

unfoldable pub map_row : (HeapRow → HeapRow) → Option HeapRow → Option HeapRow
map_row f none = none
map_row f (some r) = some (f r)

pub where_rows-append_no :
    (test : HeapRow → Bool) (xs : List HeapRow) (n : HeapRow)
    → test n ≡ false
    → where_rows test (xs ++ (n ∷ [])) ≡ where_rows test xs
unfolding where_rows
where_rows-append_no test [] n e = if_false _ _ e
where_rows-append_no test (x ∷ xs) n e =
    ap (λ rest. if test x then x ∷ rest else rest) (where_rows-append_no test xs n e)

-- A release changes neither the candidates nor their order.
module _ (at address : ℕ) where
  pub free_row-address : (r : HeapRow) → (free_row at address r).address ≡ r.address
  free_row-address r = ground arith

  pub free_row-allocated_at : (r : HeapRow) → (free_row at address r).allocated_at ≡ r.allocated_at
  free_row-allocated_at r = ground arith

  pub free_row-size : (r : HeapRow) → (free_row at address r).size ≡ r.size
  free_row-size r = ground arith

  where_rows-free_rows :
      (a step : ℕ) (rows : List HeapRow)
      → where_rows (is_candidate a step) (free_rows at address rows)
        ≡ free_rows at address (where_rows (is_candidate a step) rows)
  unfolding where_rows free_rows
  where_rows-free_rows a step [] = refl
  where_rows-free_rows a step (r ∷ rows) =
      let same : is_candidate a step (free_row at address r) ≡ is_candidate a step r =
        ap (λ n. (n == a) && leb (free_row at address r).allocated_at step) (free_row-address r)
        ∙ ap (λ n. (r.address == a) && leb n step) (free_row-allocated_at r) in
      elim (Bool-cases (is_candidate a step r)) [
        | inl e ↦
            if_true _ _ (same ∙ e)
            ∙ ap (λ l. free_row at address r ∷ l) (where_rows-free_rows a step rows)
            ∙ sym (ap (free_rows at address) (if_true _ _ e))
        | inr e ↦
            if_false _ _ (same ∙ e)
            ∙ where_rows-free_rows a step rows
            ∙ sym (ap (free_rows at address) (if_false _ _ e))
      ]

  insert_row-free_rows :
      (x : HeapRow) (rows : List HeapRow)
      → insert_row newest (free_row at address x) (free_rows at address rows)
        ≡ free_rows at address (insert_row newest x rows)
  unfolding insert_row free_rows
  insert_row-free_rows x [] = refl
  insert_row-free_rows x (y ∷ rows) =
      let same : newest (free_row at address y) (free_row at address x) ≡ newest y x =
        ap (λ n. ltb n (free_row at address y).allocated_at) (free_row-allocated_at x)
        ∙ ap (λ n. ltb x.allocated_at n) (free_row-allocated_at y) in
      elim (Bool-cases (newest y x)) [
        | inl e ↦
            if_true _ _ (same ∙ e)
            ∙ ap (λ l. free_row at address y ∷ l) (insert_row-free_rows x rows)
            ∙ sym (ap (free_rows at address) (if_true _ _ e))
        | inr e ↦ if_false _ _ (same ∙ e) ∙ sym (ap (free_rows at address) (if_false _ _ e))
      ]

  order_by-free_rows :
      (rows : List HeapRow)
      → order_by newest (free_rows at address rows) ≡ free_rows at address (order_by newest rows)
  unfolding order_by free_rows
  order_by-free_rows [] = refl
  order_by-free_rows (x ∷ rows) =
      ap (insert_row newest (free_row at address x)) (order_by-free_rows rows)
      ∙ insert_row-free_rows x (order_by newest rows)

  first_row-free_rows :
      (rows : List HeapRow)
      → first_row (free_rows at address rows) ≡ map_row (free_row at address) (first_row rows)
  unfolding free_rows map_row
  first_row-free_rows [] = refl
  first_row-free_rows (x ∷ rows) = refl

  pub find_row-free_rows :
      (rows : List HeapRow) (a step : ℕ)
      → find_row (free_rows at address rows) a step
        ≡ map_row (free_row at address) (find_row rows a step)
  unfolding find_row
  find_row-free_rows rows a step =
      ap (λ l. first_row (order_by newest l)) (where_rows-free_rows a step rows)
      ∙ ap first_row (order_by-free_rows (where_rows (is_candidate a step) rows))
      ∙ first_row-free_rows (order_by newest (where_rows (is_candidate a step) rows))
