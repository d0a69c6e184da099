-- ===== src/Session.antt =====
-- examine/requests.c: moving through the recorded execution. A debugger's request reads the current
-- position, asks the database for another step, moves there, answers and sends an event.
pub mod Continue
pub mod Breakpoints
pub mod Stack
pub mod Moves
pub mod Stops
pub mod Recorded
mod Tests
use flightrec.Prelude.{
  ℕ, zero, suc, ◌+◌, ◌-◌, List, [], ◌∷◌, Bool, true, false, not, ◌&&◌, Option, none, some, ltb, leb,
  ◌==◌, if◌then◌else◌,
}
use flightrec.Query.{where_rows, order_by, first_row}

-- A row of step JOIN statement JOIN file. A number stands for a file's name.
pub record Row : Type 0 where
  pub id : ℕ
  pub depth : ℕ
  pub file_id : ℕ
  pub file : ℕ
  pub line : ℕ

-- cur_step, cur_depth, cur_file and cur_line.
pub record Position : Type 0 where
  pub step : ℕ
  pub depth : ℕ
  pub file : ℕ
  pub line : ℕ

-- STOP_REASON_STEP and so on.
pub data Reason : Type 0 where
  stepped : Reason
  at_break : Reason
  entry : Reason
  signal : Reason
  exit : Reason

pub data Event : Type 0 where
  response : Bool → Event
  stopped : Reason → Event
  terminated : Event

-- Whether the calls succeed: opening or binding the query, each fetch, in turn, and sending the
-- response.
pub record Calls : Type 0 where
  pub query_ok : Bool
  pub fetch_ok : ℕ → Bool
  pub send_ok : Bool

-- Where the request leaves the debugger, whether it succeeded, and what it sent.
pub record Outcome : Type 0 where
  pub pos : Position
  pub success : Bool
  pub sent : List Event

pub data Fetched : Type 0 where
  row : Row → Fetched
  no_data : Fetched
  failed : Fetched

-- The first fetch of a query.
unfoldable pub fetch : Calls → List Row → Fetched
fetch calls rows =
    if calls.fetch_ok 0 then elim (first_row rows) [ none ↦ no_data | some r ↦ row r ] else failed

abbrev pub go_to : Row → Position
go_to r = record { step = r.id; depth = r.depth; file = r.file; line = r.line }

-- The end of each handler: the response, then, if it could be sent, the event.
unfoldable pub finish : Calls → Position → Bool → Option Event → Outcome
finish calls pos success event =
    if calls.send_ok
    then record {
      pos = pos;
      success = success;
      sent = response success ∷ elim event [ none ↦ [] | some e ↦ e ∷ [] ];
    }
    else record { pos = pos; success = false; sent = [] }

-- No step to go to: the recorded program ended here, by a signal or not.
abbrev pub ended : Bool → Event
ended signaled = if signaled then stopped signal else terminated

-- ORDER BY s.id and ORDER BY s.id DESC.
abbrev pub ascending : Row → Row → Bool
ascending a b = ltb a.id b.id

abbrev pub descending : Row → Row → Bool
descending a b = ltb b.id a.id

-- How `process_next`, `process_stepin` and `process_stepout` treat the fetched row.
unfoldable pub advance : Calls → Bool → Position → Fetched → Outcome
unfolding finish
advance calls signaled pos (row r) = finish calls (go_to r) true (some (stopped stepped))
advance calls signaled pos no_data = finish calls pos true (some (ended signaled))
advance calls signaled pos failed = finish calls pos false none

abbrev pub on_line : Position → Row → Bool
on_line pos r = (r.file == pos.file) && (r.line == pos.line)

abbrev pub next_test : Position → Row → Bool
next_test pos r = ltb pos.step r.id && leb r.depth pos.depth && not (on_line pos r)

unfoldable pub process_next : Calls → Bool → List Row → Position → Outcome
unfolding fetch advance finish where_rows order_by
process_next calls signaled rows pos =
    if calls.query_ok
    then advance calls signaled pos
        (fetch calls (order_by ascending (where_rows (next_test pos) rows)))
    else finish calls pos false none

abbrev pub stepin_test : Position → Row → Bool
stepin_test pos r = r.id == pos.step + 1

unfoldable pub process_stepin : Calls → Bool → List Row → Position → Outcome
unfolding fetch advance finish where_rows
process_stepin calls signaled rows pos =
    if calls.query_ok
    then advance calls signaled pos (fetch calls (where_rows (stepin_test pos) rows))
    else finish calls pos false none

abbrev pub stepout_test : Position → Row → Bool
stepout_test pos r = ltb pos.step r.id && ltb r.depth pos.depth

unfoldable pub process_stepout : Calls → Bool → List Row → Position → Outcome
unfolding fetch advance finish where_rows order_by
process_stepout calls signaled rows pos =
    if leb pos.depth 1
    then finish calls pos true none
    else if calls.query_ok
    then advance calls signaled pos
        (fetch calls (order_by ascending (where_rows (stepout_test pos) rows)))
    else finish calls pos false none

abbrev pub stepback_test : Position → Row → Bool
stepback_test pos r = ltb r.id pos.step && leb r.depth pos.depth && not (on_line pos r)

-- A step back with nowhere to go is an error.
unfoldable pub on_stepback : Calls → Position → Fetched → Outcome
unfolding finish
on_stepback calls pos (row r) = finish calls (go_to r) true (some (stopped stepped))
on_stepback calls pos no_data = finish calls pos false none
on_stepback calls pos failed = finish calls pos false none

unfoldable pub process_stepback : Calls → List Row → Position → Outcome
unfolding fetch on_stepback finish where_rows order_by
process_stepback calls rows pos =
    if leb pos.step 1
    then finish calls pos true (some terminated)
    else if calls.query_ok
    then on_stepback calls pos
        (fetch calls (order_by descending (where_rows (stepback_test pos) rows)))
    else finish calls pos false none

-- `set_first_step` and `set_last_step` set the depth to 1, whatever the row says. They open their
-- own cursor, whose calls `calls` describes; the last step is the row with the greatest id.
abbrev pub place : ℕ → Row → Position
place step r = record { step = step; depth = 1; file = r.file; line = r.line }

unfoldable pub max_id : List ℕ → ℕ
max_id [] = 0
max_id (n ∷ ns) = let rest = max_id ns in if ltb rest n then n else rest

unfoldable pub on_first_step : Position → Fetched → Position × Bool
on_first_step pos (row r) = (place 1 r, true)
on_first_step pos no_data = (pos, false)
on_first_step pos failed = (pos, false)

unfoldable pub set_first_step : Calls → List Row → Position → Position × Bool
unfolding fetch on_first_step where_rows
set_first_step calls rows pos =
    if calls.query_ok
    then on_first_step pos (fetch calls (where_rows (λ r. r.id == 1) rows))
    else (pos, false)

unfoldable pub on_last_step : Position → Fetched → Position × Bool
on_last_step pos (row r) = (place r.id r, true)
on_last_step pos no_data = (pos, false)
on_last_step pos failed = (pos, false)

-- `ids` are those of the table `step` itself.
unfoldable pub set_last_step : Calls → List ℕ → List Row → Position → Position × Bool
unfolding fetch on_last_step where_rows max_id
set_last_step calls ids rows pos =
    if calls.query_ok
    then on_last_step pos (fetch calls (where_rows (λ r. r.id == max_id ids) rows))
    else (pos, false)
