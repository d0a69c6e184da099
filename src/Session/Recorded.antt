-- ===== src/Session/Recorded.antt =====
-- Whatever requests a debugger sends, and whichever of their calls fail, the current position is a
-- step of the recording.
use mathlib.Core.Path.{subst}
use flightrec.Prelude.{
  ℕ, ◌+◌, ◌≡◌, refl, sym, ap, List, [], ◌∷◌, Bool, true, false, not, ◌&&◌, Option, none, some, ltb,
  leb, ◌==◌, ==_iff, if◌then◌else◌, arith, inl, inr, Bool-cases, if_true, if_false,
}
use flightrec.Query.{In, where_rows, order_by, order_by-In, where_rows-In}
use flightrec.Session.{
  Row, Position, Calls, Outcome, Event, Fetched, row, no_data, failed, fetch, finish, go_to,
  on_line, ended, ascending, descending, advance, on_stepback, next_test, stepin_test, stepout_test,
  stepback_test, process_next, process_stepin, process_stepout, process_stepback, set_first_step,
  set_last_step, max_id, on_first_step, on_last_step, stopped, stepped, terminated, at_break, entry,
  signal, exit,
}
use flightrec.Session.Continue.{
  Breakpoint, has_breakpoint, Left, hit, no_more, broken, skip_line, continue_rows,
  revcontinue_rows, process_continue, process_revcontinue, end_continue, end_revcontinue,
}

pub data Request : Type 0 where
  next : Request
  step_in : Request
  step_out : Request
  step_back : Request
  continue : Request
  rev_continue : Request

-- The recording, and the breakpoints that are set.
pub record Recording : Type 0 where
  pub rows : List Row
  pub ids : List ℕ
  pub breakpoints : List Breakpoint
  pub signaled : Bool

unfoldable pub perform : Recording → Request → Calls → Calls → Position → Outcome
unfolding process_next process_stepin process_stepout process_stepback process_continue
    process_revcontinue
perform rec next calls other pos = process_next calls rec.signaled rec.rows pos
perform rec step_in calls other pos = process_stepin calls rec.signaled rec.rows pos
perform rec step_out calls other pos = process_stepout calls rec.signaled rec.rows pos
perform rec step_back calls other pos = process_stepback calls rec.rows pos
perform rec continue calls other pos =
    process_continue calls other rec.signaled rec.breakpoints rec.ids rec.rows pos
perform rec rev_continue calls other pos =
    process_revcontinue calls other rec.breakpoints rec.rows pos

unfoldable pub perform_all : Recording → List (Request × Calls × Calls) → Position → Position
unfolding perform
perform_all rec [] pos = pos
perform_all rec ((request, calls, other) ∷ requests) pos =
    perform_all rec requests (perform rec request calls other pos).pos

-- The position has the number and the place of a recorded step.
abbrev pub IsRecorded : List Row → Position → Type 0
IsRecorded rows pos =
    (r : Row) × In r rows × (r.id ≡ pos.step) × (r.file ≡ pos.file) × (r.line ≡ pos.line)

finish-pos :
    (calls : Calls) (pos : Position) (ok : Bool) (e : Option Event)
    → (finish calls pos ok e).pos ≡ pos
unfolding finish
finish-pos calls pos ok e = elim (Bool-cases calls.send_ok) [
  | inl s ↦ ap (λ (o : Outcome). o.pos) (if_true _ _ s)
  | inr s ↦ ap (λ (o : Outcome). o.pos) (if_false _ _ s)
]

-- What holds of both branches holds of a conditional.
if_both : {A : Type 0} (P : A → Type 0) (b : Bool) (x y : A) → P x → P y → P (if b then x else y)
if_both P true x y h k = h
if_both P false x y h k = k

-- What holds of a fetched row.
abbrev All : (Row → Type 0) → Fetched → Type 0
All P (row r) = P r
All P no_data = Unit {0}
All P failed = Unit {0}

fetch-All :
    (P : Row → Type 0) (calls : Calls) (xs : List Row)
    → ((r : Row) → In r xs → P r)
    → All P (fetch calls xs)
unfolding fetch
fetch-All P calls [] h = if_both (All P) (calls.fetch_ok 0) no_data failed tt tt
fetch-All P calls (x ∷ xs) h = if_both (All P) (calls.fetch_ok 0) (row x) failed (h x (inl refl)) tt

module _ (rows : List Row) where
  finish-IsRecorded :
      (calls : Calls) (pos : Position) (ok : Bool) (e : Option Event)
      → IsRecorded rows pos
      → IsRecorded rows (finish calls pos ok e).pos
  finish-IsRecorded calls pos ok e v = subst (IsRecorded rows) (sym (finish-pos calls pos ok e)) v

  go_to-IsRecorded : (r : Row) → In r rows → IsRecorded rows (go_to r)
  go_to-IsRecorded r m = (r, m, refl, refl, refl)

  -- A fetched row is a row of the table.
  abbrev FromTable : Fetched → Type 0
  FromTable f = All (λ r. In r rows) f

  module _ (before : Row → Row → Bool) (test : Row → Bool) where
    from_where : (calls : Calls) → FromTable (fetch calls (where_rows test rows))
    from_where calls =
        fetch-All (λ r. In r rows) calls (where_rows test rows)
          (λ r m. (where_rows-In test rows r m).0)

    from_order : (r : Row) → In r (order_by before (where_rows test rows)) → In r rows
    from_order r m =
        (where_rows-In test rows r ((order_by-In before (where_rows test rows) r).0 m)).0

    from_query : (calls : Calls) → FromTable (fetch calls (order_by before (where_rows test rows)))
    from_query calls =
        fetch-All (λ r. In r rows) calls (order_by before (where_rows test rows)) from_order

  module _ (calls : Calls) (pos : Position) (v : IsRecorded rows pos) where
    advance-IsRecorded :
        (signaled : Bool) (f : Fetched)
        → FromTable f
        → IsRecorded rows (advance calls signaled pos f).pos
    unfolding advance
    advance-IsRecorded signaled (row r) m =
        finish-IsRecorded calls (go_to r) true (some (stopped stepped)) (go_to-IsRecorded r m)
    advance-IsRecorded signaled no_data m =
        finish-IsRecorded calls pos true (some (ended signaled)) v
    advance-IsRecorded signaled failed m = finish-IsRecorded calls pos false none v

    on_stepback-IsRecorded :
        (f : Fetched) → FromTable f → IsRecorded rows (on_stepback calls pos f).pos
    unfolding on_stepback
    on_stepback-IsRecorded (row r) m =
        finish-IsRecorded calls (go_to r) true (some (stopped stepped)) (go_to-IsRecorded r m)
    on_stepback-IsRecorded no_data m = finish-IsRecorded calls pos false none v
    on_stepback-IsRecorded failed m = finish-IsRecorded calls pos false none v

    set_first_step-IsRecorded : IsRecorded rows (set_first_step calls rows pos).0
    unfolding set_first_step on_first_step
    set_first_step-IsRecorded =
        if_both (λ (o : Position × Bool). IsRecorded rows o.0) calls.query_ok _ (pos, false)
          (step (fetch calls (where_rows (λ r. r.id == 1) rows)) (
            fetch-All (λ r. In r rows × (r.id ≡ 1)) calls (where_rows (λ r. r.id == 1) rows)
              (λ r m.
                let (i, t) = where_rows-In (λ w. w.id == 1) rows r m in (i, (==_iff r.id 1).0 t))))
          v
      where
        step :
            (f : Fetched)
            → All (λ r. In r rows × (r.id ≡ 1)) f
            → IsRecorded rows (on_first_step pos f).0
        step (row r) (m, e) = (r, m, e, refl, refl)
        step no_data m = v
        step failed m = v

    set_last_step-IsRecorded : (ids : List ℕ) → IsRecorded rows (set_last_step calls ids rows pos).0
    unfolding set_last_step on_last_step
    set_last_step-IsRecorded ids =
        if_both (λ (o : Position × Bool). IsRecorded rows o.0) calls.query_ok _ (pos, false)
          (step (fetch calls (where_rows (λ r. r.id == max_id ids) rows)) (
            fetch-All (λ r. In r rows) calls (where_rows (λ r. r.id == max_id ids) rows)
              (λ r m. (where_rows-In (λ w. w.id == max_id ids) rows r m).0)))
          v
      where
        step : (f : Fetched) → All (λ r. In r rows) f → IsRecorded rows (on_last_step pos f).0
        step (row r) m = (r, m, refl, refl, refl)
        step no_data m = v
        step failed m = v

  skip_line-IsRecorded :
      (adjacent : ℕ → ℕ → Bool) (fetch_ok : ℕ → Bool) (i : ℕ) (xs : List Row) (pos : Position)
      → IsRecorded rows pos
      → ((r : Row) → In r xs → In r rows)
      → IsRecorded rows (skip_line adjacent fetch_ok i xs pos).0
  unfolding skip_line
  skip_line-IsRecorded adjacent fetch_ok i [] pos v h = v
  skip_line-IsRecorded adjacent fetch_ok i (r ∷ xs) pos v h =
      if_both (λ (o : Position × Left). IsRecorded rows o.0) (not (fetch_ok i)) (pos, broken) _ v
        (elim (Bool-cases (on_line pos r)) [
          | inl on ↦
              let here : IsRecorded rows (record pos { step = r.id; depth = r.depth }) =
                (r, h r (inl refl), refl, same_file pos r on, same_line pos r on) in
              if_both (λ (o : Position × Left). IsRecorded rows o.0)
                (adjacent pos.step r.id && on_line pos r) _ (go_to r, hit)
                (skip_line-IsRecorded adjacent fetch_ok (i + 1) xs
                  (record pos { step = r.id; depth = r.depth }) here (λ x m. h x (inr m)))
                (go_to-IsRecorded r (h r (inl refl)))
          | inr off ↦
              subst (λ (o : Position × Left). IsRecorded rows o.0)
                (sym (if_false _ _ (and_off (adjacent pos.step r.id) (on_line pos r) off)))
                (go_to-IsRecorded r (h r (inl refl)))
        ])
    where
      same_file : (pos : Position) (r : Row) → on_line pos r ≡ true → r.file ≡ pos.file
      same_file pos r on = ground arith

      same_line : (pos : Position) (r : Row) → on_line pos r ≡ true → r.line ≡ pos.line
      same_line pos r on = ground arith

      and_off : (a b : Bool) → b ≡ false → (a && b) ≡ false
      and_off a b e = ground arith

  module _ (calls : Calls) (other : Calls) where
    end_continue-IsRecorded :
        (signaled : Bool) (ids : List ℕ) (o : Position × Left)
        → IsRecorded rows o.0
        → IsRecorded rows (end_continue calls other signaled ids rows o).pos
    unfolding end_continue
    end_continue-IsRecorded signaled ids (pos, broken) v = finish-IsRecorded calls pos false none v
    end_continue-IsRecorded signaled ids (pos, hit) v =
        finish-IsRecorded calls pos true (some (stopped at_break)) v
    end_continue-IsRecorded signaled ids (pos, no_more) v =
        let (last, ok) = set_last_step other ids rows pos in
        finish-IsRecorded calls last ok
          (if ok then some (stopped (if signaled then signal else exit)) else none)
          (set_last_step-IsRecorded other pos v ids)

    end_revcontinue-IsRecorded :
        (o : Position × Left)
        → IsRecorded rows o.0
        → IsRecorded rows (end_revcontinue calls other rows o).pos
    unfolding end_revcontinue
    end_revcontinue-IsRecorded (pos, broken) v = finish-IsRecorded calls pos false none v
    end_revcontinue-IsRecorded (pos, hit) v =
        finish-IsRecorded calls pos true (some (stopped at_break)) v
    end_revcontinue-IsRecorded (pos, no_more) v =
        let (start, ok) = set_first_step other rows pos in
        finish-IsRecorded calls start ok (if ok then some (stopped entry) else none)
          (set_first_step-IsRecorded other pos v)

perform-IsRecorded :
    (rec : Recording) (request : Request) (calls other : Calls) (pos : Position)
    → IsRecorded rec.rows pos
    → IsRecorded rec.rows (perform rec request calls other pos).pos
unfolding perform process_next process_stepin process_stepout process_stepback process_continue
    process_revcontinue continue_rows revcontinue_rows
perform-IsRecorded rec next calls other pos v =
    if_both (λ (o : Outcome). IsRecorded rec.rows o.pos) calls.query_ok _ _
      (advance-IsRecorded rec.rows calls pos v rec.signaled _
        (from_query rec.rows ascending (next_test pos) calls))
      (finish-IsRecorded rec.rows calls pos false none v)
perform-IsRecorded rec step_in calls other pos v =
    if_both (λ (o : Outcome). IsRecorded rec.rows o.pos) calls.query_ok _ _
      (advance-IsRecorded rec.rows calls pos v rec.signaled _
        (from_where rec.rows ascending (stepin_test pos) calls))
      (finish-IsRecorded rec.rows calls pos false none v)
perform-IsRecorded rec step_out calls other pos v =
    if_both (λ (o : Outcome). IsRecorded rec.rows o.pos) (leb pos.depth 1) _ _
      (finish-IsRecorded rec.rows calls pos true none v)
      (if_both (λ (o : Outcome). IsRecorded rec.rows o.pos) calls.query_ok _ _
        (advance-IsRecorded rec.rows calls pos v rec.signaled _
          (from_query rec.rows ascending (stepout_test pos) calls))
        (finish-IsRecorded rec.rows calls pos false none v))
perform-IsRecorded rec step_back calls other pos v =
    if_both (λ (o : Outcome). IsRecorded rec.rows o.pos) (leb pos.step 1) _ _
      (finish-IsRecorded rec.rows calls pos true (some terminated) v)
      (if_both (λ (o : Outcome). IsRecorded rec.rows o.pos) calls.query_ok _ _
        (on_stepback-IsRecorded rec.rows calls pos v _
          (from_query rec.rows descending (stepback_test pos) calls))
        (finish-IsRecorded rec.rows calls pos false none v))
perform-IsRecorded rec continue calls other pos v =
    let test : Row → Bool = λ r. has_breakpoint rec.breakpoints r && ltb pos.step r.id in
    if_both (λ (o : Outcome). IsRecorded rec.rows o.pos) calls.query_ok _ _
      (end_continue-IsRecorded rec.rows calls other rec.signaled rec.ids _ (
        skip_line-IsRecorded rec.rows (λ here there. there == here + 1) calls.fetch_ok 0
          (continue_rows rec.breakpoints rec.rows pos) pos v (from_order rec.rows ascending test)))
      (finish-IsRecorded rec.rows calls pos false none v)
perform-IsRecorded rec rev_continue calls other pos v =
    let test : Row → Bool = λ r. has_breakpoint rec.breakpoints r && ltb r.id pos.step in
    if_both (λ (o : Outcome). IsRecorded rec.rows o.pos) calls.query_ok _ _
      (end_revcontinue-IsRecorded rec.rows calls other _ (
        skip_line-IsRecorded rec.rows (λ here there. there + 1 == here) calls.fetch_ok 0
          (revcontinue_rows rec.breakpoints rec.rows pos) pos v
          (from_order rec.rows descending test)))
      (finish-IsRecorded rec.rows calls pos false none v)

-- If the debugger is at a recorded step, it is at one after any requests, whichever of their calls
-- fail, any of the fetches in a loop included.
pub perform_all-IsRecorded :
    (rec : Recording) (requests : List (Request × Calls × Calls)) (pos : Position)
    → IsRecorded rec.rows pos
    → IsRecorded rec.rows (perform_all rec requests pos)
unfolding perform_all
perform_all-IsRecorded rec [] pos v = v
perform_all-IsRecorded rec ((request, calls, other) ∷ requests) pos v =
    perform_all-IsRecorded rec requests (perform rec request calls other pos).pos
      (perform-IsRecorded rec request calls other pos v)
