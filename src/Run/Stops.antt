-- ===== src/Run/Stops.antt =====
-- `process_breakpoint` as a whole: what a stop at a statement records.
use mathlib.Core.Path.{subst}
use flightrec.Prelude.{
  ℕ, ◌+◌, ◌-◌, ◌%◌, ◌≤◌, ◌<◌, ◌≡◌, sym, ◌∙◌, ap, List, [], ◌∷◌, ◌++◌, some, arith, get_elem?,
  length, map,
}
use flightrec.Query.{In}
use flightrec.Memory.{Memory, MemMsg, segment}
use flightrec.Memdiff.{Cpu, best_memdiff}
use flightrec.Memdiff.Ranges.{IsBytes}
use flightrec.Lookup.{CachedLine, CachedUnit, found, lookup_cache, word, sub64}
use flightrec.Lookup.Units.{IsCache, lookup_cache_finds}
use flightrec.Memcache.Follows.{Follows}
use flightrec.Run.{
  Stop, success, Recorder, StepMsg, Stopped, enter, leave, heap_msg, refresh, process_breakpoint,
}
use flightrec.Run.Traps.{Planted, CallsSucceed, resume_runs_original}
use flightrec.Run.Frames.{
  refresh-Follows, enter-func_id, enter-step_id, enter-frame, enter-depth, leave-depth,
  leave-step_id, leave-cache, all_went, finish_lem, at_line-finish, process_breakpoint_at,
}

abbrev pub recorded_step : CachedLine → Recorder → Stop → StepMsg
recorded_step line r stop = record {
  step_id = r.step_id + 1;
  depth = (enter line r).depth;
  func_id = line.func_id;
  address = line.address;
  regs = stop.regs;
}

module _ (cpu : Cpu) (units : List CachedUnit) (c : IsCache units) (i j : ℕ) (u : CachedUnit)
    (line : CachedLine) (base : ℕ) (here : get_elem? units i ≡ some u)
    (present : get_elem? u.lines j ≡ some line) (stop : Stop)
    (address : sub64 (stop.ip - 1) base ≡ line.address) (r : Recorder)
    (inside : r.unit < length units) (count : r.step_id + 1 < word) (cb : IsBytes stop.child)
    (bb : IsBytes stop.buffer) (rows : List MemMsg) (f : Follows r.step_id r.cache rows) where
  abbrev next : Recorder
  next = record r { step_id = (r.step_id + 1) % word; wait_reset = r.mem_dirty; unit = i }

  next-step_id : next.step_id ≡ r.step_id + 1
  next-step_id = omega arith

  refreshed :
      (q : Recorder) × (mems : List MemMsg) × (refresh
          (best_memdiff cpu segment)
          stop
          line
          (enter line next)
        ≡ some (q, mems))
      × Follows (r.step_id + 1) q.cache (rows ++ mems)
      × (q.step_id ≡ r.step_id + 1)
      × (q.depth ≡ (enter line r).depth)
      × (q.func_id ≡ line.func_id)
  refreshed =
      let s : (enter line next).step_id ≡ r.step_id + 1 = enter-step_id line next ∙ next-step_id in
      let (q, mems, e, g, x, y, z) =
        refresh-Follows cpu stop line (enter line next) rows r.step_id cb bb (omega arith)
          (subst (λ l. Follows r.step_id l rows) (sym ((enter-frame line next).0)) f) in
      (
        q,
        mems,
        e,
        subst (λ n. Follows n q.cache (rows ++ mems)) s g,
        x ∙ s,
        y ∙ enter-depth line r ((r.step_id + 1) % word) i r.mem_dirty,
        z ∙ enter-func_id line next,
      )

  module _ (calls : CallsSucceed stop) (low high : ℕ) (points : List ℕ) (orig code : Memory)
      (b : IsBytes code) (planted : Planted low high points orig code)
      (point : In (stop.ip - 1) points) (byte : line.org_instr_byte ≡ orig (stop.ip - 1))
      (small : orig (stop.ip - 1) < 256) (first : low ≤ stop.ip - 1) (last : stop.ip - 1 + 8 ≤ high)
      (within : (k : ℕ) → In k points → (low ≤ k) × (k < high))
      (keeps : (m : Memory) (k : ℕ) → low ≤ k → k < high → stop.run m k ≡ m k) where
    abbrev pub stopped : Stopped
    stopped = process_breakpoint (best_memdiff cpu segment) units base stop r code

    -- At a stop at a statement of the cache, if all calls succeed, the rows follow the cache of
    -- memory, the step's number does not reach 2^64, the code from `low` to `high` is the original
    -- one with traps at the given points, all of them within, the stop is at such a point, whose
    -- original byte the line holds, and the instruction does not change the code there, then
    -- `process_breakpoint` succeeds, reports the next step with the statement's function, address
    -- and depth, and all heap events at that step, keeps the rows following the cache, counts the
    -- step, leaves the depth behind the statement, leaves the same traps in the code, and runs the
    -- instruction with its original byte in place.
    pub process_breakpoint_records :
        (stopped.outcome ≡ success)
        × (stopped.messages.steps ≡ recorded_step line r stop ∷ [])
        × (stopped.messages.heaps ≡ map (heap_msg (r.step_id + 1)) stop.heap_events)
        × Follows (r.step_id + 1) stopped.recorder.cache (rows ++ stopped.messages.mems)
        × (stopped.recorder.step_id ≡ r.step_id + 1)
        × (stopped.recorder.depth ≡ (leave line (enter line r)).depth)
        × Planted low high points orig stopped.code
        × ((m : Memory) × (stopped.stepped ≡ some m) × (m (stop.ip - 1) ≡ orig (stop.ip - 1)))
    process_breakpoint_records =
        let (q, mems, ran, follows, step, depth, func) = refreshed in
        let (m, end, resumed, original, away, again) =
          resume_runs_original low high points orig code b planted stop calls line (stop.ip - 1)
            point byte small first last within keeps in
        let looked : lookup_cache units r.unit (sub64 (stop.ip - 1) base) ≡ (i, found line) =
          ap (lookup_cache units r.unit) address
          ∙ lookup_cache_finds units r.unit i j u line c inside here present in
        let all : stopped ≡ all_went base stop line q mems m end =
          process_breakpoint_at (best_memdiff cpu segment) units base i stop line r code calls.regs
            looked
          ∙ at_line-finish (best_memdiff cpu segment) base stop line next q mems code ran
          ∙ finish_lem base stop line q mems code m end calls.fifo resumed in
        (
          ap (λ (s : Stopped). s.outcome) all,
          ap (λ (s : Stopped). s.messages.steps) all
              ∙ ap (λ (s : StepMsg). s ∷ []) (step_msg q step depth func),
          ap (λ (s : Stopped). s.messages.heaps) all
              ∙ ap (λ n. map (heap_msg n) stop.heap_events) step,
          subst
              (λ (s : Stopped). Follows (r.step_id + 1) s.recorder.cache (rows ++ s.messages.mems))
              (sym all)
              (subst (λ l. Follows (r.step_id + 1) l (rows ++ mems)) (sym (leave-cache line q))
                follows),
          ap (λ (s : Stopped). s.recorder.step_id) all ∙ leave-step_id line q ∙ step,
          ap (λ (s : Stopped). s.recorder.depth) all ∙ leave-depth line q (enter line r) depth,
          subst (λ (s : Stopped). Planted low high points orig s.code) (sym all) again,
          (m, ap (λ (s : Stopped). s.stepped) all, original),
        )
      where
        step_msg :
            (q : Recorder)
            → q.step_id ≡ r.step_id + 1
            → q.depth ≡ (enter line r).depth
            → q.func_id ≡ line.func_id
            → ◌≡◌ {A = StepMsg}
                (record {
                  step_id = q.step_id;
                  depth = q.depth;
                  func_id = q.func_id;
                  address = sub64 (stop.ip - 1) base;
                  regs = stop.regs;
                })
                (recorded_step line r stop)
        step_msg q a b d = cc
