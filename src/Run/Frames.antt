-- ===== src/Run/Frames.antt =====
-- The parts of `process_breakpoint`: what each keeps, and how they run where nothing fails.
use flightrec.Prelude.{
  Bool, ℕ, ◌+◌, ◌-◌, ◌%◌, ◌≤◌, ◌≡◌, refl, ◌∙◌, ap, List, [], ◌∷◌, ◌++◌, true, false, not, ◌&&◌,
  ◌||◌, Option, none, some, ◌==◌, if_true, if_false, arith, inl, inr, map, Bool-cases,
}
use flightrec.Memory.{Memory, MemMsg, segment}
use flightrec.Memdiff.{Cpu, best_memdiff}
use flightrec.Memdiff.Ranges.{IsBytes}
use flightrec.Lookup.{CachedLine, CachedUnit, Found, found, not_found, lookup_cache, word, sub64}
use flightrec.Memcache.{Compare}
use flightrec.Memcache.Follows.{Follows, later-Follows}
use flightrec.Memcache.Values.{proc_dirty_mem-Follows}
use flightrec.Run.{
  Stop, Outcome, success, failure, crashed, finish, stopped_early, no_messages, Recorder, Stopped,
  enter, leave, heap_msg, refresh, resume, at_line, process_breakpoint, func_flag_start,
  func_flag_end,
}

-- Following the memory does not depend on the other variables.
pub refresh-Follows :
    (cpu : Cpu) (stop : Stop) (line : CachedLine) (r : Recorder) (rows : List MemMsg) (step : ℕ)
    → IsBytes stop.child
    → IsBytes stop.buffer
    → step ≤ r.step_id
    → Follows step r.cache rows
    → (q : Recorder) × (mems : List MemMsg) × (refresh (best_memdiff cpu segment) stop line r
        ≡ some (q, mems))
      × Follows r.step_id q.cache (rows ++ mems)
      × (q.step_id ≡ r.step_id)
      × (q.depth ≡ r.depth)
      × (q.func_id ≡ r.func_id)
unfolding refresh
refresh-Follows cpu stop line r rows step cb bb order f =
    elim (Bool-cases (r.mem_dirty && not (line.func_flag == func_flag_start))) [
      | inl dirty ↦
          let (cache, msgs, e, g) =
            proc_dirty_mem-Follows cpu stop.child stop.buffer cb bb step r.step_id order r.cache
              rows f (map (λ a. (a, stop.reads a)) r.waiting) in
          (
            record r { mem_dirty = false; waiting = []; cache = cache },
            msgs,
            if_true _ _ dirty
                ∙ ap
                    (λ o. elim o [
                      | none ↦ none
                      | some (cache, msgs) ↦
                          some (record r { mem_dirty = false; waiting = []; cache = cache }, msgs)
                    ])
                    e,
            g,
            refl,
            refl,
            refl,
          )
      | inr clean ↦ (
        r,
        [],
        if_false _ _ clean,
        later-Follows step r.step_id r.cache rows order f,
        refl,
        refl,
        refl,
      )
    ]

-- The function that is recorded is always the statement's.
pub enter-func_id : (line : CachedLine) (r : Recorder) → (enter line r).func_id ≡ line.func_id
unfolding enter
enter-func_id line r = ground arith

pub enter-step_id : (line : CachedLine) (r : Recorder) → (enter line r).step_id ≡ r.step_id
unfolding enter
enter-step_id line r = ground arith

-- What a statement leaves as it is.
pub enter-frame :
    (line : CachedLine) (r : Recorder)
    → ((enter line r).cache ≡ r.cache)
      × ((enter line r).mem_dirty ≡ r.mem_dirty)
      × ((enter line r).waiting ≡ r.waiting)
unfolding enter
enter-frame line r =
    elim (Bool-cases (not (line.func_id == r.func_id) || (line.func_flag == func_flag_start))) [
      | inl e ↦
          let k = if_true _ _ e in
          (
            ap (λ (x : Recorder). x.cache) k,
            ap (λ (x : Recorder). x.mem_dirty) k,
            ap (λ (x : Recorder). x.waiting) k,
          )
      | inr e ↦
          let k = if_false _ _ e in
          (
            ap (λ (x : Recorder). x.cache) k,
            ap (λ (x : Recorder). x.mem_dirty) k,
            ap (λ (x : Recorder). x.waiting) k,
          )
    ]

-- The depth does not depend on the step, nor on the unit.
pub enter-depth :
    (line : CachedLine) (r : Recorder) (step unit : ℕ) (wait : Bool)
    → (enter line (record r { step_id = step; wait_reset = wait; unit = unit })).depth
      ≡ (enter line r).depth
unfolding enter
enter-depth line r step unit wait = ground arith

pub leave-depth :
    (line : CachedLine) (r q : Recorder)
    → r.depth ≡ q.depth
    → (leave line r).depth ≡ (leave line q).depth
unfolding leave
leave-depth line r q e = ground (arith, e)

pub leave-step_id : (line : CachedLine) (r : Recorder) → (leave line r).step_id ≡ r.step_id
unfolding leave
leave-step_id line r = ground arith

pub leave-cache : (line : CachedLine) (r : Recorder) → (leave line r).cache ≡ r.cache
unfolding leave
leave-cache line r = elim (Bool-cases (line.func_flag == func_flag_end)) [
  | inl e ↦ ap (λ (x : Recorder). x.cache) (if_true _ _ e)
  | inr e ↦ ap (λ (x : Recorder). x.cache) (if_false _ _ e)
]

-- A stop after which nothing fails.
abbrev pub all_went : ℕ → Stop → CachedLine → Recorder → List MemMsg → Memory → Memory → Stopped
all_went base stop line q mems m end = record {
  outcome = success;
  recorder = leave line q;
  messages = record {
    steps =
        record {
          step_id = q.step_id;
          depth = q.depth;
          func_id = q.func_id;
          address = sub64 (stop.ip - 1) base;
          regs = stop.regs;
        }
        ∷ [];
    heaps = map (heap_msg q.step_id) stop.heap_events;
    mems = mems;
  };
  stepped = some m;
  awaited = q.wait_reset && ((stop.peek_ok && stop.poke_ok) && stop.set_ip_ok);
  code = end;
}

pub finish_lem :
    (base : ℕ) (stop : Stop) (line : CachedLine) (q : Recorder) (mems : List MemMsg)
    (code m end : Memory)
    → stop.fifo_ok ≡ true
    → resume stop line (stop.ip - 1) code ≡ (success, some m, end)
    → finish base stop line q mems code ≡ all_went base stop line q mems m end
unfolding finish
finish_lem base stop line q mems code m end fifo resumed =
    if_false _ _ (ap not fifo)
    ∙ ap
        (λ (x : Outcome × Option Memory × Memory). record (all_went base stop line q mems m end) {
          outcome = x.0;
          stepped = x.1;
          code = x.2;
        })
        resumed

pub at_line-finish :
    (memdiff : Compare) (base : ℕ) (stop : Stop) (line : CachedLine) (r q : Recorder)
    (mems : List MemMsg) (code : Memory)
    → refresh memdiff stop line (enter line r) ≡ some (q, mems)
    → at_line memdiff base stop line r code ≡ finish base stop line q mems code
unfolding at_line
at_line-finish memdiff base stop line r q mems code ran =
    ap
      (λ o. elim o [
        | none ↦ stopped_early crashed r no_messages code
        | some (x, y) ↦ finish base stop line x y code
      ])
      ran

pub process_breakpoint_at :
    (memdiff : Compare) (units : List CachedUnit) (base i : ℕ) (stop : Stop) (line : CachedLine)
    (r : Recorder) (code : Memory)
    → stop.regs_ok ≡ true
    → lookup_cache units r.unit (sub64 (stop.ip - 1) base) ≡ (i, found line)
    → process_breakpoint memdiff units base stop r code
      ≡ at_line memdiff base stop line
          (record r { step_id = (r.step_id + 1) % word; wait_reset = r.mem_dirty; unit = i })
          code
unfolding process_breakpoint
process_breakpoint_at memdiff units base i stop line r code regs looked =
    if_false _ _ (ap not regs)
    ∙ ap
        (λ (o : ℕ × Found). elim (o.1) [
          | found l ↦
              at_line memdiff base stop l
                (record r {
                  step_id = (r.step_id + 1) % word;
                  wait_reset = r.mem_dirty;
                  unit = o.0;
                })
                code
          | not_found ↦
              stopped_early failure
                (record r {
                  step_id = (r.step_id + 1) % word;
                  wait_reset = r.mem_dirty;
                  unit = o.0;
                })
                no_messages code
          | _ ↦
              stopped_early crashed
                (record r {
                  step_id = (r.step_id + 1) % word;
                  wait_reset = r.mem_dirty;
                  unit = o.0;
                })
                no_messages code
        ])
        looked
