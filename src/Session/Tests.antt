-- ===== src/Session/Tests.antt =====
-- Runs of the requests on a small recording: a function on lines 1 to 3 of file 7, which calls one
-- on lines 11 and 12 of file 8.
use flightrec.Prelude.{
  ℕ, ◌<◌, ◌≤◌, ◌≡◌, refl, List, [], ◌∷◌, true, false, some, arith, inl, inr, map, length, drop,
  if◌then◌else◌, ◌==◌, ◌&&◌, ◌+◌,
}
use flightrec.Session.{
  Row, Position, Calls, process_next, process_stepin, process_stepout, process_stepback, finish,
  go_to, stopped, stepped, at_break,
}
use flightrec.Session.Continue.{Breakpoint, process_continue, process_revcontinue, has_breakpoint}
use flightrec.Session.Breakpoints.{
  File, TableCalls, process_breakpoints, process_breakpoints_exact, find_file, is_stoppable,
  at_line,
}
use flightrec.Session.Stack.{
  Step, FrameRow, process_stack, process_stack_complete, process_stack_cut, stack_rows, items_from,
}
use flightrec.Session.Stops.{process_continue_stops, process_revcontinue_stops}
use flightrec.Session.Recorded.{
  Request, Recording, IsRecorded, perform_all, perform_all-IsRecorded, next, step_in, step_out,
  step_back, continue, rev_continue,
}
use flightrec.Query.{In, exists_row, insert_row}

program : Unit {0}
unfolding process_next process_stepin process_stepout process_stepback process_continue
    process_revcontinue process_breakpoints process_stack stack_rows items_from find_file exists_row
    perform_all finish insert_row
program = tt

abbrev at_row : ℕ → ℕ → ℕ → ℕ → ℕ → Row
at_row id depth file_id file line = record {
  id = id;
  depth = depth;
  file_id = file_id;
  file = file;
  line = line;
}

abbrev recorded_rows : List Row
recorded_rows =
    at_row 1 1 70 7 1
    ∷ at_row 2 2 80 8 11
    ∷ at_row 3 2 80 8 12
    ∷ at_row 4 1 70 7 1
    ∷ at_row 5 1 70 7 2
    ∷ at_row 6 1 70 7 3
    ∷ []

abbrev working : Calls
working = record { query_ok = true; fetch_ok = λ i. true; send_ok = true }

-- The second fetch fails.
abbrev second_fails : Calls
second_fails = record { query_ok = true; fetch_ok = λ i. i == 0; send_ok = true }

abbrev position_at : ℕ → ℕ → ℕ → ℕ → Position
position_at step depth file line = record { step = step; depth = depth; file = file; line = line }

abbrev line_two : Row
line_two = at_row 5 1 70 7 2

abbrev line_twelve : Row
line_twelve = at_row 3 2 80 8 12

-- Next from line 1 passes over the call and the second statement of the line.
next_run :
    process_next working false recorded_rows (position_at 1 1 7 1)
    ≡ finish working (go_to line_two) true (some (stopped stepped))
unfolding program
next_run = refl

abbrev set_points : List Breakpoint
set_points = record { file_id = 80; line = 12 } ∷ record { file_id = 70; line = 3 } ∷ []

point_ahead : has_breakpoint set_points (at_row 6 1 70 7 3) ≡ true
unfolding program
point_ahead = refl

process_continue_stops_example :
    (r : Row) × In r recorded_rows
    × (process_continue working working false set_points
          (6 ∷ [])
          recorded_rows
          (position_at 1 1 7 1)
        ≡ finish working (go_to r) true (some (stopped at_break)))
    × (has_breakpoint set_points r ≡ true)
    × (1 < r.id)
    × (r.id ≤ 6)
process_continue_stops_example =
    process_continue_stops working working false set_points (6 ∷ []) recorded_rows
      (position_at 1 1 7 1) refl (λ i. refl) (at_row 6 1 70 7 3)
      (inr (inr (inr (inr (inr (inl refl)))))) point_ahead refl (omega arith)

point_behind : has_breakpoint set_points line_twelve ≡ true
unfolding program
point_behind = refl

process_revcontinue_stops_example :
    (r : Row) × In r recorded_rows
    × (process_revcontinue working working set_points recorded_rows (position_at 6 1 7 3)
        ≡ finish working (go_to r) true (some (stopped at_break)))
    × (has_breakpoint set_points r ≡ true)
    × (r.id < 6)
    × (3 ≤ r.id)
process_revcontinue_stops_example =
    process_revcontinue_stops working working false set_points (6 ∷ []) recorded_rows
      (position_at 6 1 7 3) refl (λ i. refl) line_twelve (inr (inr (inl refl))) point_behind refl
      (omega arith)

abbrev small_recording : Recording
small_recording = record {
  rows = recorded_rows;
  ids = 1 ∷ 2 ∷ 3 ∷ 4 ∷ 5 ∷ 6 ∷ [];
  breakpoints = set_points;
  signaled = false;
}

abbrev some_requests : List (Request × Calls × Calls)
some_requests =
    (step_in, working, working)
    ∷ (step_out, working, working)
    ∷ (next, working, working)
    ∷ (step_back, working, working)
    ∷ (continue, working, working)
    ∷ (rev_continue, second_fails, working)
    ∷ (continue, working, working)
    ∷ []

perform_all-IsRecorded_example :
    IsRecorded recorded_rows (perform_all small_recording some_requests (position_at 1 1 7 1))
perform_all-IsRecorded_example =
    perform_all-IsRecorded small_recording some_requests (position_at 1 1 7 1)
      (at_row 1 1 70 7 1, inl refl, refl, refl, refl)

abbrev table_calls : TableCalls
table_calls = record { query_ok = true; delete_ok = true; prepare_ok = true; insert_ok = λ i. true }

abbrev known_files : List File
known_files = record { name = 8; id = 80 } ∷ record { name = 7; id = 70 } ∷ []

-- Line 3 of file 70 is a step, line 4 is none.
breakpoints_run :
    (process_breakpoints table_calls known_files recorded_rows
      (some 7)
      (some (some 3 ∷ some 4 ∷ []))
      set_points).verified
    ≡ true ∷ false ∷ []
unfolding program
breakpoints_run = refl

file_seven : find_file 7 known_files ≡ some 70
unfolding program
file_seven = refl

process_breakpoints_exact_example :
    exists_row
      (at_line 70 2)
      (process_breakpoints table_calls known_files recorded_rows
        (some 7)
        (some (map some (2 ∷ 4 ∷ [])))
        set_points).table
    ≡ (if 70 == 70
        then exists_row (λ w. w == 2) (2 ∷ 4 ∷ []) && is_stoppable recorded_rows 70 2
        else exists_row (at_line 70 2) set_points)
process_breakpoints_exact_example =
    process_breakpoints_exact table_calls known_files recorded_rows 7 70 (2 ∷ 4 ∷ []) set_points
      refl refl refl (λ i. refl) file_seven 70 2

abbrev step_ids : List Step
step_ids =
    record { id = 1; depth = 1 } ∷ record { id = 2; depth = 2 } ∷ record { id = 3; depth = 2 } ∷ []

abbrev at_frame : ℕ → ℕ → ℕ → ℕ → FrameRow
at_frame step depth line function = record {
  file_id = 70;
  file = 7;
  path = 7;
  line = line;
  function = function;
  scope = function;
  step = step;
  depth = depth;
}

abbrev frame_rows : List FrameRow
frame_rows = at_frame 1 1 1 101 ∷ at_frame 2 2 11 102 ∷ at_frame 3 2 12 102 ∷ []

two_frames : length (stack_rows step_ids frame_rows (position_at 3 2 7 12)) ≤ 0 + 2
unfolding program
two_frames = omega arith

process_stack_complete_example :
    ((process_stack true 0 2 step_ids frame_rows [] (position_at 3 2 7 12)).success ≡ true)
    × ((process_stack true 0 2 step_ids frame_rows [] (position_at 3 2 7 12)).items
        ≡ items_from 0 (drop 0 (stack_rows step_ids frame_rows (position_at 3 2 7 12))))
process_stack_complete_example =
    process_stack_complete 0 2 step_ids frame_rows [] (position_at 3 2 7 12) two_frames

more_than_one : 0 + 1 < length (stack_rows step_ids frame_rows (position_at 3 2 7 12))
unfolding program
more_than_one = omega arith

process_stack_cut_example :
    (process_stack true 0 1 step_ids frame_rows [] (position_at 3 2 7 12)).success ≡ false
process_stack_cut_example =
    process_stack_cut 0 1 step_ids frame_rows [] (position_at 3 2 7 12) more_than_one
