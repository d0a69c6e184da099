-- ===== src/Session/Stops.antt =====
-- Where the requests continue and reverse-continue stop.
use flightrec.Prelude.{
  ℕ, ◌+◌, ◌≤◌, ◌<◌, ◌≡◌, refl, sym, ◌∙◌, ap, List, [], ◌∷◌, Bool, true, false, not, ◌&&◌, some, ltb,
  ◌==◌, arith, inl, inr, Bool-cases, if_true, if_false,
}
use flightrec.Query.{
  In, IsOrder, IsOrdered, where_rows, order_by-In, order_by-IsOrdered, where_rows-In, In-where_rows,
}
use flightrec.Session.{
  Row, Position, Calls, finish, go_to, on_line, ascending, descending, stopped, at_break,
}
use flightrec.Session.Continue.{
  Breakpoint, has_breakpoint, hit, skip_line, continue_rows, revcontinue_rows, process_continue,
  process_revcontinue, end_continue, end_revcontinue,
}
use flightrec.Session.Moves.{ascending-IsOrder, descending-IsOrder}

-- The loop stops at a row that no row off the current line stands in front of.
skip_line-hit :
    (before : Row → Row → Bool) (o : IsOrder before) (adjacent : ℕ → ℕ → Bool) (fetch_ok : ℕ → Bool)
    (all : (i : ℕ) → fetch_ok i ≡ true) (n : ℕ) (rows : List Row) (pos : Position) (y : Row)
    → IsOrdered before rows
    → In y rows
    → on_line pos y ≡ false
    → (r : Row) × (skip_line adjacent fetch_ok n rows pos ≡ (go_to r, hit))
      × In r rows
      × (before y r ≡ false)
unfolding skip_line
skip_line-hit before o adjacent fetch_ok all n [] pos y h m off = elim m [ ]
skip_line-hit before o adjacent fetch_ok all n (r ∷ rows) pos y (h, t) m off =
    elim (Bool-cases (adjacent pos.step r.id && on_line pos r)) [
      | inl skip ↦ elim m [
        | inl same ↦
            let on : on_line pos r ≡ true =
              and-right (adjacent pos.step r.id) (on_line pos r) skip in
            let k = sym off ∙ ap (on_line pos) same ∙ on in absurd (cc)
        | inr m' ↦
            let (z, e, i, k) =
              skip_line-hit before o adjacent fetch_ok all (n + 1) rows
                (record pos { step = r.id; depth = r.depth }) y t m' off in
            (z, if_false _ _ (ap not (all n)) ∙ if_true _ _ skip ∙ e, inr i, k)
      ]
      | inr stop ↦ (
        r,
        if_false _ _ (ap not (all n)) ∙ if_false _ _ stop,
        inl refl,
        elim m [ inl same ↦ ap (λ w. before w r) same ∙ irrefl r | inr m' ↦ h y m' ],
      )
    ]
  where
    and-right : (a b : Bool) → (a && b) ≡ true → b ≡ true
    and-right a b e = ground arith

    irrefl : (w : Row) → before w w ≡ false
    irrefl w = elim (Bool-cases (before w w)) [ inl e ↦ o.asym w w e | inr e ↦ e ]

both : (a b : Bool) → a ≡ true → b ≡ true → (a && b) ≡ true
both a b e k = ground arith

module _ (calls : Calls) (other : Calls) (signaled : Bool) (breakpoints : List Breakpoint)
    (ids : List ℕ) (rows : List Row) (pos : Position) (q : calls.query_ok ≡ true)
    (f : (i : ℕ) → calls.fetch_ok i ≡ true) (y : Row) (m : In y rows)
    (b : has_breakpoint breakpoints y ≡ true) (off : on_line pos y ≡ false) where
  -- If the query and its fetches succeed, and a later step off the current line has a
  -- breakpoint, continue stops at a recorded step with
  -- a breakpoint, behind the current step and not later than that one.
  pub process_continue_stops :
      pos.step < y.id
      → (r : Row) × In r rows
        × (process_continue calls other signaled breakpoints ids rows pos
            ≡ finish calls (go_to r) true (some (stopped at_break)))
        × (has_breakpoint breakpoints r ≡ true)
        × (pos.step < r.id)
        × (r.id ≤ y.id)
  unfolding process_continue end_continue continue_rows
  process_continue_stops later =
      let test : Row → Bool = λ r. has_breakpoint breakpoints r && ltb pos.step r.id in
      let (r, e, i, k) =
        skip_line-hit ascending ascending-IsOrder (λ here there. there == here + 1) calls.fetch_ok f
          0 (continue_rows breakpoints rows pos) pos y
          (order_by-IsOrdered ascending ascending-IsOrder (where_rows test rows))
          ((order_by-In ascending (where_rows test rows) y).1 (
            In-where_rows test rows y m
              (both (has_breakpoint breakpoints y) (ltb pos.step y.id) b (ground arith))))
          off in
      let (n, t) =
        where_rows-In test rows r ((order_by-In ascending (where_rows test rows) r).0 i) in
      let (c, d) = parts r t in
      (r, n, if_true _ _ q ∙ ap (end_continue calls other signaled ids rows) e, c, d, least r k)
    where
      parts :
          (r : Row)
          → (has_breakpoint breakpoints r && ltb pos.step r.id) ≡ true
          → (has_breakpoint breakpoints r ≡ true) × (pos.step < r.id)
      parts r t = split (has_breakpoint breakpoints r) t
        where
          split : (c : Bool) → (c && ltb pos.step r.id) ≡ true → (c ≡ true) × (pos.step < r.id)
          split c t = ground arith

      least : (r : Row) → ascending y r ≡ false → r.id ≤ y.id
      least r k = ground arith

  -- If the query and its fetches succeed, and an earlier step off the current line has a
  -- breakpoint, reverse-continue stops at a recorded
  -- step with a breakpoint, in front of the current step and not earlier than that one.
  pub process_revcontinue_stops :
      y.id < pos.step
      → (r : Row) × In r rows
        × (process_revcontinue calls other breakpoints rows pos
            ≡ finish calls (go_to r) true (some (stopped at_break)))
        × (has_breakpoint breakpoints r ≡ true)
        × (r.id < pos.step)
        × (y.id ≤ r.id)
  unfolding process_revcontinue end_revcontinue revcontinue_rows
  process_revcontinue_stops earlier =
      let test : Row → Bool = λ r. has_breakpoint breakpoints r && ltb r.id pos.step in
      let (r, e, i, k) =
        skip_line-hit descending descending-IsOrder (λ here there. there + 1 == here) calls.fetch_ok
          f 0 (revcontinue_rows breakpoints rows pos) pos y
          (order_by-IsOrdered descending descending-IsOrder (where_rows test rows))
          ((order_by-In descending (where_rows test rows) y).1 (
            In-where_rows test rows y m
              (both (has_breakpoint breakpoints y) (ltb y.id pos.step) b (ground arith))))
          off in
      let (n, t) =
        where_rows-In test rows r ((order_by-In descending (where_rows test rows) r).0 i) in
      let (c, d) = parts r t in
      (r, n, if_true _ _ q ∙ ap (end_revcontinue calls other rows) e, c, d, least r k)
    where
      parts :
          (r : Row)
          → (has_breakpoint breakpoints r && ltb r.id pos.step) ≡ true
          → (has_breakpoint breakpoints r ≡ true) × (r.id < pos.step)
      parts r t = split (has_breakpoint breakpoints r) t
        where
          split : (c : Bool) → (c && ltb r.id pos.step) ≡ true → (c ≡ true) × (r.id < pos.step)
          split c t = ground arith

      least : (r : Row) → descending y r ≡ false → y.id ≤ r.id
      least r k = ground arith
