-- ===== src/Session/Moves.antt =====
-- Where the requests next, step out, step back and step in go.
use flightrec.Prelude.{
  ◌≤◌, ◌<◌, ◌≡◌, ◌↔◌, ◌∙◌, ap, List, Bool, true, false, not, ◌&&◌, Option, none, some, ltb, leb,
  arith, inl, inr, Option-cases, if_true, if_false,
}
use flightrec.Query.{In, IsOrder, where_rows, order_by, first_row, first_row-some, first_row-none}
use flightrec.Session.{
  Row, Position, Calls, Fetched, row, no_data, fetch, advance, finish, go_to, on_line, ended,
  ascending, descending, next_test, stepout_test, stepback_test, process_next, process_stepout,
  process_stepback, on_stepback, stopped, stepped,
}

pub ascending-IsOrder : IsOrder ascending
ascending-IsOrder = record { asym = λ x y e. ground arith; trans = λ x y z e k. ground arith }

pub descending-IsOrder : IsOrder descending
descending-IsOrder = record { asym = λ x y e. ground arith; trans = λ x y z e k. ground arith }

fetched : Option Row → Fetched
fetched none = no_data
fetched (some r) = row r

module _ (before : Row → Row → Bool) (o : IsOrder before) (test : Row → Bool) (rows : List Row)
    (calls : Calls) (f : calls.fetch_ok 0 ≡ true) where
  -- If some row passes, a passing row is fetched that stands in front of it, or beside it.
  pub fetch_row :
      (y : Row)
      → In y rows
      → test y ≡ true
      → (r : Row) × (fetch calls (order_by before (where_rows test rows)) ≡ row r)
        × In r rows
        × (test r ≡ true)
        × (before y r ≡ false)
  unfolding fetch fetched
  fetch_row y m t = elim (Option-cases (first_row (order_by before (where_rows test rows)))) [
    | inl e ↦ let no = first_row-none before o test rows e y m in absurd (cc)
    | inr (r, e) ↦
        let (i, k, least) = first_row-some before o test rows r e in
        (r, if_true _ _ f ∙ ap fetched e, i, k, least y m t)
  ]

  pub fetch_none :
      ((y : Row) → In y rows → test y ≡ false)
      → fetch calls (order_by before (where_rows test rows)) ≡ no_data
  unfolding fetch fetched
  fetch_none h = elim (Option-cases (first_row (order_by before (where_rows test rows)))) [
    | inl e ↦ if_true _ _ f ∙ ap fetched e
    | inr (r, e) ↦
        let (i, k, least) = first_row-some before o test rows r e in let no = h r i in absurd (cc)
  ]

-- What the test of each query says.
next_test_iff :
    (pos : Position) (r : Row)
    → (next_test pos r ≡ true)
      ↔ ((pos.step < r.id) × (r.depth ≤ pos.depth) × (on_line pos r ≡ false))
next_test_iff pos r = split (on_line pos r)
  where
    split :
        (b : Bool)
        → ((ltb pos.step r.id && leb r.depth pos.depth && not b) ≡ true)
          ↔ ((pos.step < r.id) × (r.depth ≤ pos.depth) × (b ≡ false))
    split b = ground arith

stepback_test_iff :
    (pos : Position) (r : Row)
    → (stepback_test pos r ≡ true)
      ↔ ((r.id < pos.step) × (r.depth ≤ pos.depth) × (on_line pos r ≡ false))
stepback_test_iff pos r = split (on_line pos r)
  where
    split :
        (b : Bool)
        → ((ltb r.id pos.step && leb r.depth pos.depth && not b) ≡ true)
          ↔ ((r.id < pos.step) × (r.depth ≤ pos.depth) × (b ≡ false))
    split b = ground arith

stepout_test_iff :
    (pos : Position) (r : Row)
    → (stepout_test pos r ≡ true) ↔ ((pos.step < r.id) × (r.depth < pos.depth))
stepout_test_iff pos r = ground arith

ascending-le : (y r : Row) → ascending y r ≡ false → r.id ≤ y.id
ascending-le y r e = ground arith

descending-le : (y r : Row) → descending y r ≡ false → y.id ≤ r.id
descending-le y r e = ground arith

module _ (calls : Calls) (signaled : Bool) (rows : List Row) (pos : Position)
    (q : calls.query_ok ≡ true) (f : calls.fetch_ok 0 ≡ true) where
  -- If the query and its fetch succeed, and a later step that is not deeper lies on another line
  -- than the current one, next stops at a recorded step with these properties that is not later
  -- than it.
  pub process_next_stops :
      (y : Row)
      → In y rows
      → pos.step < y.id
      → y.depth ≤ pos.depth
      → on_line pos y ≡ false
      → (r : Row) × In r rows
        × (process_next calls signaled rows pos
            ≡ finish calls (go_to r) true (some (stopped stepped)))
        × (pos.step < r.id)
        × (r.id ≤ y.id)
        × (r.depth ≤ pos.depth)
        × (on_line pos r ≡ false)
  unfolding process_next advance
  process_next_stops y m later shallow off =
      let (r, e, i, k, least) =
        fetch_row ascending ascending-IsOrder (next_test pos) rows calls f y m
          ((next_test_iff pos y).1 (later, shallow, off)) in
      let (a, b, c) = (next_test_iff pos r).0 k in
      (r, i, if_true _ _ q ∙ ap (advance calls signaled pos) e, a, ascending-le y r least, b, c)

  -- If they succeed and no later step that is not deeper lies on another line, next stays and
  -- reports how the program ended.
  pub process_next_ends :
      ((y : Row) → In y rows → next_test pos y ≡ false)
      → process_next calls signaled rows pos ≡ finish calls pos true (some (ended signaled))
  unfolding process_next advance
  process_next_ends h =
      if_true _ _ q
      ∙ ap (advance calls signaled pos)
          (fetch_none ascending ascending-IsOrder (next_test pos) rows calls f h)

  -- If the query and its fetch succeed, the current depth is above 1, and a later step is less
  -- deep, step out stops at a recorded step with these properties that is not later than it.
  pub process_stepout_stops :
      1 < pos.depth
      → (y : Row) → In y rows
      → pos.step < y.id
      → y.depth < pos.depth
      → (r : Row) × In r rows
        × (process_stepout calls signaled rows pos
            ≡ finish calls (go_to r) true (some (stopped stepped)))
        × (pos.step < r.id)
        × (r.id ≤ y.id)
        × (r.depth < pos.depth)
  unfolding process_stepout advance
  process_stepout_stops deep y m later shallow =
      let (r, e, i, k, least) =
        fetch_row ascending ascending-IsOrder (stepout_test pos) rows calls f y m
          ((stepout_test_iff pos y).1 (later, shallow)) in
      let (a, b) = (stepout_test_iff pos r).0 k in
      let inner : leb pos.depth 1 ≡ false = ground arith in
      (
        r,
        i,
        if_false _ _ inner ∙ if_true _ _ q ∙ ap (advance calls signaled pos) e,
        a,
        ascending-le y r least,
        b,
      )

  -- If the query and its fetch succeed, the current step is not the first, and an earlier step
  -- that is not deeper lies on another line, step back stops at a recorded step with these
  -- properties that is not earlier than it.
  pub process_stepback_stops :
      (y : Row)
      → In y rows
      → 1 < pos.step
      → y.id < pos.step
      → y.depth ≤ pos.depth
      → on_line pos y ≡ false
      → (r : Row) × In r rows
        × (process_stepback calls rows pos ≡ finish calls (go_to r) true (some (stopped stepped)))
        × (r.id < pos.step)
        × (y.id ≤ r.id)
        × (r.depth ≤ pos.depth)
        × (on_line pos r ≡ false)
  unfolding process_stepback on_stepback
  process_stepback_stops y m some_step earlier shallow off =
      let (r, e, i, k, least) =
        fetch_row descending descending-IsOrder (stepback_test pos) rows calls f y m
          ((stepback_test_iff pos y).1 (earlier, shallow, off)) in
      let (a, b, c) = (stepback_test_iff pos r).0 k in
      let inner : leb pos.step 1 ≡ false = ground arith in
      (
        r,
        i,
        if_false _ _ inner ∙ if_true _ _ q ∙ ap (on_stepback calls pos) e,
        a,
        descending-le y r least,
        b,
        c,
      )
