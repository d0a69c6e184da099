-- ===== src/Session/Continue.antt =====
-- examine/requests.c: `process_continue` and `process_revcontinue`, which go to the next statement
-- with a breakpoint, or to the end or the start of the recording.
use flightrec.Prelude.{
  ℕ, ◌+◌, List, [], ◌∷◌, Bool, true, false, not, ◌&&◌, none, some, ltb, ◌==◌, if◌then◌else◌,
}
use flightrec.Query.{where_rows, order_by, exists_row}
use flightrec.Session.{
  Row, Position, Calls, Outcome, finish, go_to, on_line, ascending, descending, set_first_step,
  set_last_step, stopped, at_break, signal, exit, entry,
}

pub record Breakpoint : Type 0 where
  pub file_id : ℕ
  pub line : ℕ

-- JOIN local.breakpoint.
abbrev pub has_breakpoint : List Breakpoint → Row → Bool
has_breakpoint breakpoints r =
    exists_row (λ b. (b.file_id == r.file_id) && (b.line == r.line)) breakpoints

-- How the loop is left: at a breakpoint, behind the last one, or by a fetch that fails.
pub data Left : Type 0 where
  hit : Left
  no_more : Left
  broken : Left

-- The loop over the breakpoints, the first of which is fetched by the fetch `i`: a statement adjacent
-- to the current one on the same line is passed over, and moves only the step and the depth.
-- `adjacent` is the test of the two steps.
unfoldable pub skip_line : (ℕ → ℕ → Bool) → (ℕ → Bool) → ℕ → List Row → Position → Position × Left
skip_line adjacent fetch_ok i [] pos = (pos, if fetch_ok i then no_more else broken)
skip_line adjacent fetch_ok i (r ∷ rows) pos =
    let rest =
      skip_line adjacent fetch_ok (i + 1) rows (record pos { step = r.id; depth = r.depth }) in
    if not (fetch_ok i)
    then (pos, broken)
    else if adjacent pos.step r.id && on_line pos r
    then rest
    else (go_to r, hit)

unfoldable pub continue_rows : List Breakpoint → List Row → Position → List Row
unfolding where_rows order_by exists_row
continue_rows breakpoints rows pos =
    order_by ascending (where_rows (λ r. has_breakpoint breakpoints r && ltb pos.step r.id) rows)

-- After the loop. Behind the last breakpoint the last step is the place to go to.
unfoldable pub end_continue : Calls → Calls → Bool → List ℕ → List Row → Position × Left → Outcome
unfolding finish set_last_step
end_continue calls last_calls signaled ids rows (pos, broken) = finish calls pos false none
end_continue calls last_calls signaled ids rows (pos, hit) =
    finish calls pos true (some (stopped at_break))
end_continue calls last_calls signaled ids rows (pos, no_more) =
    let (last, ok) = set_last_step last_calls ids rows pos in
    finish calls last ok (if ok then some (stopped (if signaled then signal else exit)) else none)

unfoldable pub process_continue :
    Calls → Calls → Bool → List Breakpoint → List ℕ → List Row → Position → Outcome
unfolding finish skip_line end_continue continue_rows where_rows order_by exists_row
process_continue calls last_calls signaled breakpoints ids rows pos =
    if calls.query_ok
    then end_continue calls last_calls signaled ids rows (
        skip_line (λ here there. there == here + 1) calls.fetch_ok 0
          (continue_rows breakpoints rows pos) pos)
    else finish calls pos false none

unfoldable pub revcontinue_rows : List Breakpoint → List Row → Position → List Row
unfolding where_rows order_by exists_row
revcontinue_rows breakpoints rows pos =
    order_by descending (where_rows (λ r. has_breakpoint breakpoints r && ltb r.id pos.step) rows)

unfoldable pub end_revcontinue : Calls → Calls → List Row → Position × Left → Outcome
unfolding finish set_first_step
end_revcontinue calls first_calls rows (pos, broken) = finish calls pos false none
end_revcontinue calls first_calls rows (pos, hit) = finish calls pos true (some (stopped at_break))
end_revcontinue calls first_calls rows (pos, no_more) =
    let (start, ok) = set_first_step first_calls rows pos in
    finish calls start ok (if ok then some (stopped entry) else none)

-- `cur_step - 1` wraps at step 0, where no step comes before.
unfoldable pub process_revcontinue : Calls → Calls → List Breakpoint → List Row → Position → Outcome
unfolding finish skip_line end_revcontinue revcontinue_rows where_rows order_by exists_row
process_revcontinue calls first_calls breakpoints rows pos =
    if calls.query_ok
    then end_revcontinue calls first_calls rows (
        skip_line (λ here there. there + 1 == here) calls.fetch_ok 0
          (revcontinue_rows breakpoints rows pos) pos)
    else finish calls pos false none
