-- ===== src/Run/Timeline.antt =====
-- Stops and events of the probes in any order: the recorded rows follow the memory all the time.
use mathlib.Core.Path.{subst}
use flightrec.Prelude.{
  ℕ, ◌+◌, ◌-◌, ◌%◌, ◌<◌, ◌≡◌, inl, inr, sym, ◌∙◌, List, ◌++◌, Bool, not, if_true, if_false, arith,
  Bool-cases,
}
use flightrec.Memory.{Memory, MemMsg, segment}
use flightrec.Memdiff.{Cpu, best_memdiff}
use flightrec.Memdiff.Ranges.{IsBytes}
use flightrec.Lookup.{
  CachedLine, CachedUnit, Found, found, not_found, out_of_bounds, division_by_zero, out_of_fuel,
  lookup_cache, word, sub64,
}
use flightrec.Memcache.Follows.{Follows, later-Follows}
use flightrec.Run.{
  Stop, Outcome, Recorder, Stopped, enter, finish, at_line, process_breakpoint, stopped_early,
  failure, crashed, no_messages,
}
use flightrec.Run.Frames.{
  refresh-Follows, enter-step_id, enter-frame, leave-step_id, leave-cache, at_line-finish,
}
use flightrec.Run.Events.{BpfEvent, Probe, Mapping, bpf_callback}
use flightrec.Run.Mapped.{EventFits, bpf_callback-Follows}

-- What a stop keeps, whatever comes of it.
abbrev pub Keeps : ℕ → List MemMsg → Stopped → Type 0
Keeps step rows s =
    (s.recorder.step_id ≡ step) × Follows step s.recorder.cache (rows ++ s.messages.mems)

module _ (cpu : Cpu) (units : List CachedUnit) (base : ℕ) (stop : Stop) (cb : IsBytes stop.child)
    (bb : IsBytes stop.buffer) where
  finish-Keeps :
      (line : CachedLine) (q : Recorder) (mems : List MemMsg) (code : Memory) (step : ℕ)
      (rows : List MemMsg)
      → q.step_id ≡ step
      → Follows step q.cache (rows ++ mems)
      → Keeps step rows (finish base stop line q mems code)
  unfolding finish
  finish-Keeps line q mems code step rows e f = elim (Bool-cases (not stop.fifo_ok)) [
    | inl bad ↦ subst (Keeps step rows) (sym (if_true _ _ bad)) (e, f)
    | inr good ↦ subst (Keeps step rows) (sym (if_false _ _ good)) (
      leave-step_id line q ∙ e,
      subst (λ l. Follows step l (rows ++ mems)) (sym (leave-cache line q)) f,
    )
  ]

  -- Whatever comes of a stop, if the rows follow the cache, and the step's number does not reach
  -- 2^64, then the step is counted, and the rows with the new ones follow the new cache at it.
  pub process_breakpoint-Follows :
      (r : Recorder) (rows : List MemMsg) (code : Memory)
      → r.step_id + 1 < word
      → Follows r.step_id r.cache rows
      → Keeps
          (r.step_id + 1)
          rows
          (process_breakpoint (best_memdiff cpu segment) units base stop r code)
  unfolding process_breakpoint
  process_breakpoint-Follows r rows code small f = elim (Bool-cases (not stop.regs_ok)) [
    | inl bad ↦
        subst (Keeps (r.step_id + 1) rows) (sym (if_true _ _ bad))
          (omega arith, later-Follows r.step_id (r.step_id + 1) r.cache rows (omega arith) f)
    | inr good ↦
        subst (Keeps (r.step_id + 1) rows) (sym (if_false _ _ good))
          (looked (lookup_cache units r.unit (sub64 (stop.ip - 1) base)))
  ]
    where
      still :
          (unit : ℕ) (o : Outcome)
          → Keeps (r.step_id + 1) rows (
              stopped_early o
                (record r {
                  step_id = (r.step_id + 1) % word;
                  wait_reset = r.mem_dirty;
                  unit = unit;
                })
                no_messages
                code)
      still unit o =
          (omega arith, later-Follows r.step_id (r.step_id + 1) r.cache rows (omega arith) f)

      at :
          (unit : ℕ) (line : CachedLine)
          → Keeps (r.step_id + 1) rows (
              at_line
                (best_memdiff cpu segment)
                base
                stop
                line
                (record r {
                  step_id = (r.step_id + 1) % word;
                  wait_reset = r.mem_dirty;
                  unit = unit;
                })
                code)
      at unit line =
          let next = record r {
            step_id = (r.step_id + 1) % word;
            wait_reset = r.mem_dirty;
            unit = unit;
          } in
          let s : (enter line next).step_id ≡ r.step_id + 1 =
            enter-step_id line next ∙ omega arith in
          let (q, mems, e, g, x, y, z) =
            refresh-Follows cpu stop line (enter line next) rows r.step_id cb bb (omega arith)
              (subst (λ l. Follows r.step_id l rows) (sym ((enter-frame line next).0)) f) in
          subst (Keeps (r.step_id + 1) rows)
            (sym (at_line-finish (best_memdiff cpu segment) base stop line next q mems code e))
            (finish-Keeps line q mems code (r.step_id + 1) rows (x ∙ s)
              (subst (λ n. Follows n q.cache (rows ++ mems)) s g))

      looked :
          (o : ℕ × Found)
          → Keeps (r.step_id + 1) rows (elim (o.1) [
            | found l ↦
                at_line
                  (best_memdiff cpu segment)
                  base
                  stop
                  l
                  (record r {
                    step_id = (r.step_id + 1) % word;
                    wait_reset = r.mem_dirty;
                    unit = o.0;
                  })
                  code
            | not_found ↦
                stopped_early failure
                  (record r {
                    step_id = (r.step_id + 1) % word;
                    wait_reset = r.mem_dirty;
                    unit = o.0;
                  })
                  no_messages
                  code
            | _ ↦
                stopped_early crashed
                  (record r {
                    step_id = (r.step_id + 1) % word;
                    wait_reset = r.mem_dirty;
                    unit = o.0;
                  })
                  no_messages
                  code
          ])
      looked (unit, found l) = at unit l
      looked (unit, not_found) = still unit failure
      looked (unit, out_of_bounds) = still unit crashed
      looked (unit, division_by_zero) = still unit crashed
      looked (unit, out_of_fuel) = still unit crashed

-- Where a recording can get to, with the rows of memory that it has written: stops and events of the
-- probes follow in any order.
module _ (cpu : Cpu) (units : List CachedUnit) (base : ℕ) (r₀ : Recorder) (p₀ : Probe)
    (rows₀ : List MemMsg) where
  pub data Reached : Recorder → Probe → List MemMsg → Type 0 where
    begin : Reached r₀ p₀ rows₀
    at_stop :
        (r : Recorder) (p : Probe) (rows : List MemMsg) (stop : Stop) (code : Memory)
        → Reached r p rows
        → IsBytes stop.child
        → IsBytes stop.buffer
        → r.step_id + 1 < word
        → Reached
            (process_breakpoint (best_memdiff cpu segment) units base stop r code).recorder
            p
            (rows
              ++ (process_breakpoint
                  (best_memdiff cpu segment)
                  units
                  base
                  stop
                  r
                  code).messages.mems)
    at_event :
        (r : Recorder) (p : Probe) (rows : List MemMsg) (ended post_ok : Bool) (mapping : Mapping)
        (event : BpfEvent)
        → Reached r p rows
        → EventFits mapping event r p
        → Reached
            (bpf_callback ended post_ok mapping event r p).0
            (bpf_callback ended post_ok mapping event r p).1
            (rows ++ (bpf_callback ended post_ok mapping event r p).2)

  -- If the rows follow the cache in the beginning, then wherever a recording gets to, by stops and by
  -- events whose new regions fit, the rows follow the cache.
  pub recording-Follows :
      Follows r₀.step_id r₀.cache rows₀
      → (r : Recorder) (p : Probe) (rows : List MemMsg) → Reached r p rows
      → Follows r.step_id r.cache rows
  recording-Follows f _ _ _ begin = f
  recording-Follows f _ _ _ (at_stop r p rows stop code before cb bb small) =
      let (e, g) =
        process_breakpoint-Follows cpu units base stop cb bb r rows code small
          (recording-Follows f r p rows before) in
      subst
        (λ n.
          Follows n
            (process_breakpoint (best_memdiff cpu segment) units base stop r code).recorder.cache
            (rows
              ++ (process_breakpoint (best_memdiff cpu segment) units base stop r
                  code).messages.mems))
        (sym e) g
  recording-Follows f _ _ _ (at_event r p rows ended post_ok mapping event before fits) =
      let (e, g) =
        bpf_callback-Follows ended post_ok mapping event r p rows fits
          (recording-Follows f r p rows before) in
      subst
        (λ n.
          Follows n (bpf_callback ended post_ok mapping event r p).0.cache
            (rows ++ (bpf_callback ended post_ok mapping event r p).2))
        (sym e) g
