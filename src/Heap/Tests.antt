-- ===== src/Heap/Tests.antt =====
-- Runs of the heap worker and the lookup: 40 bytes at 1000 in step 2, released in step 5, and the
-- address allocated again in step 9.
use flightrec.Prelude.{ℕ, ◌≡◌, refl, List, [], ◌∷◌, true, false, arith}
use flightrec.Query.{where_rows, order_by, insert_row}
use flightrec.Heap.{
  HeapMsg, insert_heap_msgs, insert_heap, free_rows, find_row, get_pointer_size, PointerStatus,
  allocated, released, not_found,
}
use flightrec.Heap.Life.{unknown, life_after, happen, answer, IsLog}
use flightrec.Heap.Status.{get_pointer_size_exact}

program : Unit {0}
unfolding where_rows order_by insert_row insert_heap_msgs insert_heap free_rows find_row
    get_pointer_size life_after happen
program = tt

abbrev heap_msg : ℕ → ℕ → ℕ → HeapMsg
heap_msg step_id address size = record { step_id = step_id; address = address; size = size }

abbrev heap_log : List HeapMsg
heap_log = heap_msg 2 1000 40 ∷ heap_msg 3 2000 8 ∷ heap_msg 5 1000 0 ∷ heap_msg 9 1000 64 ∷ []

abbrev status_at : ℕ → PointerStatus
status_at step = get_pointer_size true true false (insert_heap_msgs [] heap_log) 1000 step

status_run :
    (status_at 1 ≡ not_found)
    × (status_at 4 ≡ allocated 40)
    × (status_at 5 ≡ released)
    × (status_at 9 ≡ allocated 64)
unfolding program
status_run = (refl, refl, refl, refl)

heap_log-IsLog : IsLog 1000 1 0 heap_log
heap_log-IsLog = (
  omega arith,
  λ e. omega arith,
  (
    omega arith,
    λ e. omega arith,
    (omega arith, λ e. omega arith, (omega arith, λ e. omega arith, tt)),
  ),
)

get_pointer_size_exact_example :
    get_pointer_size true true false (insert_heap_msgs [] heap_log) 1000 6
    ≡ answer true false (life_after 1000 6 unknown heap_log)
get_pointer_size_exact_example = get_pointer_size_exact 1000 6 true false heap_log heap_log-IsLog
