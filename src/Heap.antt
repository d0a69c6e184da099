-- ===== src/Heap.antt =====
-- The log of dynamic memory: record/db_workers.c, where the heap worker turns messages into rows,
-- and examine/vars.c, `get_pointer_size`, which looks an address up among them at a given step.
pub mod Rows
pub mod Life
pub mod Status
mod Tests
use flightrec.Prelude.{
  ℕ, zero, suc, ◌+◌, List, [], ◌∷◌, ◌++◌, Bool, true, false, not, ◌&&◌, Option, none, some, ltb,
  leb, ◌==◌, if◌then◌else◌,
}
use flightrec.Query.{where_rows, order_by, first_row, insert_row}

-- `struct insert_heap_msg`; the size 0 stands for a release.
pub record HeapMsg : Type 0 where
  pub step_id : ℕ
  pub address : ℕ
  pub size : ℕ

-- A row of the table `heap`; `freed_at` is 0 until the release.
pub record HeapRow : Type 0 where
  pub address : ℕ
  pub size : ℕ
  pub allocated_at : ℕ
  pub freed_at : ℕ

-- UPDATE heap SET freed_at = ? WHERE address = ? AND freed_at = 0.
abbrev pub free_row : ℕ → ℕ → HeapRow → HeapRow
free_row step address r =
    if (r.address == address) && (r.freed_at == 0)
    then record {
      address = r.address;
      size = r.size;
      allocated_at = r.allocated_at;
      freed_at = step;
    }
    else r

unfoldable pub free_rows : ℕ → ℕ → List HeapRow → List HeapRow
free_rows step address [] = []
free_rows step address (r ∷ rows) = free_row step address r ∷ free_rows step address rows

-- One pass of the worker's loop; no statement fails.
unfoldable pub insert_heap : List HeapRow → HeapMsg → List HeapRow
unfolding free_rows
insert_heap table msg =
    if not (msg.size == 0)
    then table
      ++ (record {
        address = msg.address;
        size = msg.size;
        allocated_at = msg.step_id;
        freed_at = 0;
      }
          ∷ [])
    else free_rows msg.step_id msg.address table

unfoldable pub insert_heap_msgs : List HeapRow → List HeapMsg → List HeapRow
unfolding insert_heap
insert_heap_msgs table [] = table
insert_heap_msgs table (msg ∷ msgs) = insert_heap_msgs (insert_heap table msg) msgs

pub data PointerStatus : Type 0 where
  allocated : ℕ → PointerStatus
  released : PointerStatus
  elsewhere : PointerStatus
  not_found : PointerStatus
  failure : PointerStatus

abbrev pub newest : HeapRow → HeapRow → Bool
newest a b = ltb b.allocated_at a.allocated_at

abbrev pub is_candidate : ℕ → ℕ → HeapRow → Bool
is_candidate address step r = (r.address == address) && leb r.allocated_at step

unfoldable pub find_row : List HeapRow → ℕ → ℕ → Option HeapRow
unfolding where_rows order_by
find_row table address step =
    first_row (order_by newest (where_rows (is_candidate address step) table))

-- `elsewhere` is the success with the size 0: no row, but memory was recorded there. `in_memory`
-- says whether the query of the memory finds a row, and the other two whether the queries run.
unfoldable pub get_pointer_size : Bool → Bool → Bool → List HeapRow → ℕ → ℕ → PointerStatus
unfolding find_row
get_pointer_size heap_ok mem_ok in_memory table address step =
    if heap_ok
    then elim (find_row table address step) [
      | some r ↦ if not (r.freed_at == 0) && leb r.freed_at step then released else allocated r.size
      | none ↦ if mem_ok then (if in_memory then elsewhere else not_found) else failure
    ]
    else failure
