-- ===== src/Workers.antt =====
-- record/db_workers.c: the threads that write the messages of the channels into the database. The
-- journal is off, so after a ROLLBACK the content of the database is not determined: a worker that
-- fails yields no table. How its statements go is given for each message; the table that it writes
-- is built in memory, and the copy of it into the recorder's database is the last statement.
pub mod Exact
mod Tests
use flightrec.Prelude.{
  ℕ, ◌+◌, List, [], ◌∷◌, ◌++◌, Bool, true, false, not, ◌&&◌, Option, none, some, leb, ◌==◌,
  if◌then◌else◌,
}
use flightrec.Query.{exists_row}
use flightrec.Memory.{MemMsg}
use flightrec.Run.{StepMsg}
use flightrec.Heap.{HeapMsg, HeapRow, insert_heap}

-- COMMIT_FREQ.
abbrev pub commit_freq : ℕ
commit_freq = 4096

-- Whether the statements that a message leads to succeed; the last two are run for some only.
pub record Went : Type 0 where
  pub reset : Bool
  pub bind : Bool
  pub fetch : Bool
  pub commit : Bool
  pub begin : Bool

-- The statements before the loop and after it.
pub record Frame : Type 0 where
  pub db_open : Bool
  pub journal : Bool
  pub synchronous : Bool
  pub chown : Bool
  pub create : Bool
  pub prepare : Bool
  pub begin : Bool
  pub commit : Bool
  pub attach : Bool
  pub copy : Bool
  pub index : Bool

-- The table, and how many times it was committed.
pub record Written (T : Type 0) : Type 0 where
  pub table : T
  pub commits : ℕ

module _ {M T : Type 0} (insert : T → M → T) where
  -- The loop over the messages and the COMMIT behind it. Any end of the channel ends the loop.
  unfoldable pub insert_all : Bool → ℕ → List (M × Went) → Written T → Option (Written T)
  insert_all last counter [] w =
      if last then some record { table = w.table; commits = w.commits + 1 } else none
  insert_all last counter ((msg, went) ∷ msgs) w =
      let next = insert w.table msg in
      let go_on = insert_all last (counter + 1) msgs record { table = next; commits = w.commits } in
      let anew = insert_all last 0 msgs record { table = next; commits = w.commits + 1 } in
      if not (went.reset && (went.bind && went.fetch))
      then none
      else if leb commit_freq (counter + 1)
      then (if went.commit && went.begin then anew else none)
      else go_on

abbrev pub opened : Frame → Bool
opened f = f.db_open && (f.journal && f.synchronous)

abbrev pub prepared : Frame → Bool
prepared f = f.create && (f.prepare && f.begin)

abbrev pub add_row : {A : Type 0} → List A → A → List A
add_row rows row = rows ++ (row ∷ [])

-- The rows of the table `step` have the members of their messages.
unfoldable pub wrk_insert_step : Frame → List (StepMsg × Went) → Option (List StepMsg)
unfolding insert_all
wrk_insert_step f msgs =
    if opened f && prepared f
    then elim (insert_all add_row f.commit 0 msgs record { table = []; commits = 0 }) [
      | none ↦ none
      | some w ↦ some w.table
    ]
    else none

unfoldable pub wrk_insert_heap : Frame → List (HeapMsg × Went) → Option (List HeapRow)
unfolding insert_all insert_heap
wrk_insert_heap f msgs =
    if opened f && (f.chown && prepared f)
    then elim (insert_all insert_heap f.commit 0 msgs record { table = []; commits = 0 }) [
      | none ↦ none
      | some w ↦ if f.attach && f.copy then some w.table else none
    ]
    else none

-- CREATE UNIQUE INDEX ... ON mem (address, step_id).
abbrev pub same_place : MemMsg → MemMsg → Bool
same_place a b = (a.address == b.address) && (a.step_id == b.step_id)

unfoldable pub is_unique : List MemMsg → Bool
unfolding exists_row
is_unique [] = true
is_unique (row ∷ rows) = not (exists_row (same_place row) rows) && is_unique rows

unfoldable pub wrk_insert_mem : Frame → List (MemMsg × Went) → Option (List MemMsg)
unfolding insert_all is_unique
wrk_insert_mem f msgs =
    if opened f && (f.chown && prepared f)
    then elim (insert_all add_row f.commit 0 msgs record { table = []; commits = 0 }) [
      | none ↦ none
      | some w ↦
          if f.attach && (f.copy && (f.index && is_unique w.table)) then some w.table else none
    ]
    else none
