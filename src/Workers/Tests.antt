-- ===== src/Workers/Tests.antt =====
-- A few messages for the workers.
use flightrec.Prelude.{ℕ, ◌+◌, ◌/◌, ◌≡◌, refl, List, [], ◌∷◌, ◌++◌, true, false, none, some, arith}
use flightrec.Memory.{MemMsg}
use flightrec.Workers.{Went, Frame, Written, insert_all, add_row, wrk_insert_mem}
use flightrec.Workers.Exact.{table_of, insert_all_exact, insert_all_fails, wrk_insert_mem_refused}

abbrev went_well : Went
went_well = record { reset = true; bind = true; fetch = true; commit = true; begin = true }

abbrev all_open : Frame
all_open = record {
  db_open = true;
  journal = true;
  synchronous = true;
  chown = true;
  create = true;
  prepare = true;
  begin = true;
  commit = true;
  attach = true;
  copy = true;
  index = true;
}

abbrev mem_at : ℕ → ℕ → MemMsg
mem_at address step = record { step_id = step; address = address; content = [] }

abbrev two_rows : List (MemMsg × Went)
two_rows = (mem_at 64 1, went_well) ∷ (mem_at 64 2, went_well) ∷ []

abbrev empty_table : Written (List MemMsg)
empty_table = record { table = []; commits = 0 }

-- The transaction is full after the first of the two messages.
insert_all_exact_example :
    insert_all add_row true 4095 two_rows empty_table
    ≡ some record { table = table_of add_row [] two_rows; commits = 0 + (4095 + 2) / 4096 + 1 }
insert_all_exact_example = insert_all_exact add_row 4095 two_rows empty_table (omega arith) refl

insert_all_fails_example :
    insert_all add_row true 0
      (two_rows ++ ((mem_at 96 3, record went_well { fetch = false }) ∷ two_rows))
      empty_table
    ≡ none
insert_all_fails_example =
    insert_all_fails add_row true 0 two_rows two_rows (mem_at 96 3)
      (record went_well { fetch = false }) empty_table refl

abbrev mapped_twice : List (MemMsg × Went)
mapped_twice = (mem_at 64 5, went_well) ∷ (mem_at 64 5, went_well) ∷ []

wrk_insert_mem_refused_example : wrk_insert_mem all_open mapped_twice ≡ none
wrk_insert_mem_refused_example =
    wrk_insert_mem_refused all_open refl mapped_twice [] [] [] (mem_at 64 5) (mem_at 64 5) refl refl
      refl refl
