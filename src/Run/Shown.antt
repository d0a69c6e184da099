-- ===== src/Run/Shown.antt =====
-- What the debugger reads as of a stop is the memory that the program had there.
use mathlib.Core.Path.{subst}
use flightrec.Prelude.{
  ℕ, ◌+◌, ◌-◌, ◌%◌, ◌≤◌, ◌<◌, ◌≡◌, ◌≢◌, inl, inr, sym, ◌∙◌, ap, List, [], ◌∷◌, ◌++◌, true, false,
  not, ◌&&◌, none, some, ◌==◌, if_true, if_false, arith, Bool-cases, get_elem?, length, map,
}
use flightrec.Query.{In}
use flightrec.Memory.{Memory, MemMsg, segment, bytes}
use flightrec.Memdiff.{Cpu, best_memdiff}
use flightrec.Memdiff.Ranges.{IsBytes}
use flightrec.VarValue.{get_var_value}
use flightrec.Lookup.{CachedLine, CachedUnit, found, lookup_cache, word, sub64}
use flightrec.Lookup.Units.{IsCache, lookup_cache_finds}
use flightrec.Memcache.{Region, proc_dirty_mem}
use flightrec.Memcache.Follows.{Follows}
use flightrec.Memcache.History.{Reported, IsComplete}
use flightrec.Memcache.Values.{recorded_value}
use flightrec.Run.{
  Stop, Recorder, Stopped, enter, finish, refresh, process_breakpoint, func_flag_start,
}
use flightrec.Run.Frames.{enter-step_id, enter-frame, at_line-finish, process_breakpoint_at}

finish-mems :
    (base : ℕ) (stop : Stop) (line : CachedLine) (q : Recorder) (mems : List MemMsg) (code : Memory)
    → (finish base stop line q mems code).messages.mems ≡ mems
unfolding finish
finish-mems base stop line q mems code = elim (Bool-cases (not stop.fifo_ok)) [
  | inl bad ↦ ap (λ (s : Stopped). s.messages.mems) (if_true _ _ bad)
  | inr good ↦ ap (λ (s : Stopped). s.messages.mems) (if_false _ _ good)
]

-- The addresses that wait, each with what a read of its page gets.
abbrev pub dirty_pages : Stop → Recorder → List (ℕ × ℕ)
dirty_pages stop r = map (λ a. (a, stop.reads a)) r.waiting

refresh_dirty :
    (cpu : Cpu) (stop : Stop) (line : CachedLine) (r : Recorder) (cache : List Region)
    (msgs : List MemMsg)
    → r.mem_dirty ≡ true
    → line.func_flag ≢ func_flag_start
    → proc_dirty_mem
        (best_memdiff cpu segment)
        stop.child
        stop.buffer
        r.cache
        (dirty_pages stop r)
        r.step_id
      ≡ some (cache, msgs)
    → refresh (best_memdiff cpu segment) stop line r
      ≡ some (record r { mem_dirty = false; waiting = []; cache = cache }, msgs)
unfolding refresh
refresh_dirty cpu stop line r cache msgs dirty inner ran =
    let go : (r.mem_dirty && not (line.func_flag == func_flag_start)) ≡ true =
      ground (arith, dirty) in
    if_true _ _ go
    ∙ ap
        (λ o. elim o [
          | none ↦ none
          | some (c, m) ↦ some (record r { mem_dirty = false; waiting = []; cache = c }, m)
        ])
        ran

module _ (cpu : Cpu) (units : List CachedUnit) (c : IsCache units) (i j : ℕ) (u : CachedUnit)
    (line : CachedLine) (base : ℕ) (here : get_elem? units i ≡ some u)
    (present : get_elem? u.lines j ≡ some line) (stop : Stop)
    (address : sub64 (stop.ip - 1) base ≡ line.address) (r : Recorder)
    (inside : r.unit < length units) (count : r.step_id + 1 < word) (cb : IsBytes stop.child)
    (bb : IsBytes stop.buffer) (rows : List MemMsg) (f : Follows r.step_id r.cache rows)
    (regs : stop.regs_ok ≡ true) (inner : line.func_flag ≢ func_flag_start)
    (dirty : r.mem_dirty ≡ true) (reported : Reported stop.child r.cache (dirty_pages stop r))
    (complete : IsComplete (dirty_pages stop r)) (region : Region) (addr size : ℕ)
    (m : In region r.cache) (low : region.start ≤ addr) (high : addr + size ≤ region.end) where
  -- At a stop in the cache of statements that is not the first of a function, if the registers can
  -- be read, memory is dirty, the rows follow the cache, and the addresses that wait hold all pages
  -- on which the cache differs from the program's memory, each of which is read as a whole, then,
  -- even if the stop fails later, `get_var_value` over the rows, as of this step, yields the bytes
  -- that the program has at any place in a region, closed by a 0.
  pub stop_shows_memory :
      (code : Memory)
      → get_var_value true true
          (rows
            ++ (process_breakpoint (best_memdiff cpu segment) units base stop r code).messages.mems)
          addr
          size
          (r.step_id + 1)
        ≡ some (bytes stop.child addr size ++ (0 ∷ []))
  stop_shows_memory code =
      let next = record r {
        step_id = (r.step_id + 1) % word;
        wait_reset = r.mem_dirty;
        unit = i;
      } in
      let e = enter line next in
      let s : e.step_id ≡ r.step_id + 1 = enter-step_id line next ∙ omega arith in
      let (x, y, z) = enter-frame line next in
      let (cache, msgs, ran, shown) =
        recorded_value cpu stop.child stop.buffer cb bb r.step_id (r.step_id + 1) (omega arith)
          r.cache rows f (dirty_pages stop r) complete reported region addr size m low high in
      let looked : lookup_cache units r.unit (sub64 (stop.ip - 1) base) ≡ (i, found line) =
        ap (lookup_cache units r.unit) address
        ∙ lookup_cache_finds units r.unit i j u line c inside here present in
      let ran' : proc_dirty_mem (best_memdiff cpu segment) stop.child stop.buffer e.cache
            (dirty_pages stop e) e.step_id
          ≡ some (cache, msgs) =
        moved e x z s ran in
      let mems : (process_breakpoint (best_memdiff cpu segment) units base stop r
            code).messages.mems
          ≡ msgs =
        ap (λ (t : Stopped). t.messages.mems)
          (process_breakpoint_at (best_memdiff cpu segment) units base i stop line r code regs
              looked
            ∙ at_line-finish (best_memdiff cpu segment) base stop line next
                (record e { mem_dirty = false; waiting = []; cache = cache }) msgs code
                (refresh_dirty cpu stop line e cache msgs (y ∙ dirty) inner ran'))
        ∙ finish-mems base stop line (record e { mem_dirty = false; waiting = []; cache = cache })
            msgs code in
      subst
        (λ l.
          get_var_value true true (rows ++ l) addr size (r.step_id + 1)
          ≡ some (bytes stop.child addr size ++ (0 ∷ [])))
        (sym mems) shown
    where
      moved :
          (e : Recorder) {cache : List Region} {msgs : List MemMsg}
          → e.cache ≡ r.cache
          → e.waiting ≡ r.waiting
          → e.step_id ≡ r.step_id + 1
          → proc_dirty_mem
              (best_memdiff cpu segment)
              stop.child
              stop.buffer
              r.cache
              (dirty_pages stop r)
              (r.step_id + 1)
            ≡ some (cache, msgs)
          → proc_dirty_mem
              (best_memdiff cpu segment)
              stop.child
              stop.buffer
              e.cache
              (dirty_pages stop e)
              e.step_id
            ≡ some (cache, msgs)
      moved e x z s ran =
          ap
            (λ l.
              proc_dirty_mem (best_memdiff cpu segment) stop.child stop.buffer l
                (dirty_pages stop e) e.step_id)
            x
          ∙ ap
              (λ w.
                proc_dirty_mem (best_memdiff cpu segment) stop.child stop.buffer r.cache
                  (map (λ a. (a, stop.reads a)) w) e.step_id)
              z
          ∙ ap
              (λ n.
                proc_dirty_mem (best_memdiff cpu segment) stop.child stop.buffer r.cache
                  (dirty_pages stop r) n)
              s
          ∙ ran
