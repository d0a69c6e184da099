-- ===== src/Memcache/Values.antt =====
-- What the debugger reads of memory that the cache follows, and the part of `best_memdiff` in it.
use flightrec.Prelude.{
  ℕ, ◌+◌, ◌-◌, ◌≤◌, ◌<◌, ◌≡◌, inl, inr, ◌∙◌, ap, List, [], ◌∷◌, ◌++◌, Bool, true, none, some,
  if◌then◌else◌, arith, length, replicate, ◌&&◌,
}
use mathlib.Core.List.{append-nil}
use flightrec.Query.{In, where_rows}
use flightrec.Query.Append.{where_rows-append, where_rows-no, where_rows-all}
use flightrec.Memory.{Memory, MemMsg, segment, bytes, bytes_cong}
use flightrec.Memdiff.{Cpu, best_memdiff}
use flightrec.Memdiff.Ranges.{IsBytes}
use flightrec.Memdiff.Exact.{best_memdiff_exact}
use flightrec.VarValue.{
  latest, in_window, group_keys, group_rows, copy_chunks, select_mem, get_var_value,
}
use flightrec.VarValue.Select.{by_step, row_at}
use flightrec.VarValue.Exact.{Shows, get_var_value_exact}
use flightrec.Memcache.{Region, proc_dirty_mem}
use flightrec.Memcache.Regions.{In-IsRegion}
use flightrec.Memcache.Loop.{IsExact}
use flightrec.Memcache.Follows.{Follows}
use flightrec.Memcache.History.{Reported, IsComplete, proc_dirty_mem_lem}

best_memdiff-IsExact : (cpu : Cpu) → IsExact (best_memdiff cpu segment)
best_memdiff-IsExact cpu a b ha hb = best_memdiff_exact cpu segment a b segment (omega arith) ha hb

-- Rows that were written by a step are all there is as of it.
row_at_past :
    (step : ℕ) (rows : List MemMsg) (c : ℕ)
    → ((m : MemMsg) → In m rows → m.step_id ≤ step)
    → row_at step rows c ≡ latest c rows
unfolding row_at
row_at_past step rows c past =
    ap (latest c) (where_rows-all (by_step step) rows (λ m i. let p = past m i in ground arith))

Follows-Shows :
    (step : ℕ) (cache : List Region) (rows : List MemMsg) (child : Memory) (r : Region)
    (addr size : ℕ)
    → Follows step cache rows
    → Reported child cache []
    → In r cache
    → r.start ≤ addr
    → addr + size ≤ r.end
    → Shows step rows child addr size
Follows-Shows step cache rows child r addr size f same m low high c aligned above below =
    let v = In-IsRegion cache r f.sorted m in
    let (row, e, k) = f.shows r m c aligned (omega (arith, v.first)) (omega arith) in
    (
      row,
      row_at_past step rows c f.past ∙ e,
      k
          ∙ bytes_cong r.pages child c segment (λ i l u.
            elim (same r m i (omega (arith, v.first)) (omega (arith, v.last))) [
              | inl q ↦ q
              | inr (d, n, q) ↦ elim n [ ]
            ]),
    )

module _ (cpu : Cpu) (child old : Memory) (cb : IsBytes child) (ob : IsBytes old) (step now : ℕ)
    (order : step ≤ now) (cache : List Region) (rows : List MemMsg) (f : Follows step cache rows)
    (dirty : List (ℕ × ℕ)) where
  -- With the comparison that `best_memdiff` picks for a segment, if the rows follow the cache at
  -- a step, then processing any dirty addresses at a step that is not earlier ends, with rows that
  -- follow the new cache at that step, however many bytes each read gets.
  pub proc_dirty_mem-Follows :
      (cache' : List Region) × (msgs : List MemMsg) × (proc_dirty_mem
          (best_memdiff cpu segment)
          child
          old
          cache
          dirty
          now
        ≡ some (cache', msgs))
      × Follows now cache' (rows ++ msgs)
  proc_dirty_mem-Follows =
      let (cache', msgs, e, p) =
        proc_dirty_mem_lem (best_memdiff cpu segment) (best_memdiff-IsExact cpu) child old cb ob
          step now dirty cache rows order f in
      (cache', msgs, e, p.follows)

  -- If besides the dirty addresses hold all pages on which the cache differs from the program's
  -- memory, and each of them is read as a whole, then the debugger's value of a variable that lies
  -- in a region, as of that step, is what the program has there, closed by a 0.
  pub recorded_value :
      IsComplete dirty
      → Reported child cache dirty
      → (r : Region) (addr size : ℕ) → In r cache
      → r.start ≤ addr
      → addr + size ≤ r.end
      → (cache' : List Region) × (msgs : List MemMsg) × (proc_dirty_mem
            (best_memdiff cpu segment)
            child
            old
            cache
            dirty
            now
          ≡ some (cache', msgs))
        × (get_var_value true true (rows ++ msgs) addr size now
            ≡ some (bytes child addr size ++ (0 ∷ [])))
  recorded_value all reported r addr size m low high =
      let (cache', msgs, e, p) =
        proc_dirty_mem_lem (best_memdiff cpu segment) (best_memdiff-IsExact cpu) child old cb ob
          step now dirty cache rows order f in
      let (q, n, s, t) = p.regions r m in
      let v = In-IsRegion cache r f.sorted m in
      (
        cache',
        msgs,
        e,
        get_var_value_exact now (rows ++ msgs) child addr size p.follows.aligned
            (omega (arith, v.first, v.mapped))
            (Follows-Shows now cache' (rows ++ msgs) child q addr size p.follows
              (p.reported all reported) n (omega arith) (omega arith)),
      )

-- Rows of a later step do not change what the debugger reads as of an earlier one.
pub get_var_value_past :
    (query_ok fetch_ok : Bool) (rows msgs : List MemMsg) (addr size step now : ℕ)
    → step < now
    → ((m : MemMsg) → In m msgs → m.step_id ≡ now)
    → get_var_value query_ok fetch_ok (rows ++ msgs) addr size step
      ≡ get_var_value query_ok fetch_ok rows addr size step
unfolding get_var_value select_mem
get_var_value_past query_ok fetch_ok rows msgs addr size step now early stamped =
    let test = in_window step (addr + size) (addr - segment) in
    let none_new = where_rows-no test msgs (λ m i. let s = stamped m i in ground arith) in
    let same =
      where_rows-append test rows msgs
      ∙ ap (λ l. where_rows test rows ++ l) none_new
      ∙ append-nil (where_rows test rows) in
    ap
      (λ l.
        if query_ok && fetch_ok
        then some (
            copy_chunks addr size (group_rows (group_keys l) l)
            ++ replicate (size + 1 - length (copy_chunks addr size (group_rows (group_keys l) l)))
                0)
        else none)
      same
