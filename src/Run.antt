-- ===== src/Run.antt =====
-- record/run.c: what happens at each stop of the recorded program, and at each event of the kernel's
-- probes. The messages that go to the workers come out as lists. A system call's success, and what
-- it reads, are given with the stop. `uint64_t` is taken modulo 2^64.
pub mod Code
pub mod Events
pub mod Traps
pub mod Frames
pub mod Stops
pub mod Debugged
pub mod Depth
pub mod Mapped
pub mod Timeline
pub mod Shown
pub mod Signals
pub mod Samples
mod Tests
use flightrec.Prelude.{
  ℕ, zero, suc, ◌+◌, ◌-◌, ◌*◌, ◌/◌, ◌%◌, List, [], ◌∷◌, ◌++◌, Bool, true, false, not, ◌&&◌, ◌||◌,
  Option, none, some, ◌==◌, if◌then◌else◌, map,
}
use flightrec.Memory.{Memory, MemMsg}
use flightrec.Heap.{HeapMsg}
use flightrec.Lookup.{CachedLine, CachedUnit, Found, found, not_found, lookup_cache, word, sub64}
use flightrec.Memcache.{Region, Compare, proc_dirty_mem}

-- `struct insert_step_msg`.
pub record StepMsg : Type 0 where
  pub step_id : ℕ
  pub depth : ℕ
  pub func_id : ℕ
  pub address : ℕ
  pub regs : ℕ

-- What goes to the workers of steps, of dynamic memory and of memory.
pub record Messages : Type 0 where
  pub steps : List StepMsg
  pub heaps : List HeapMsg
  pub mems : List MemMsg

-- The static variables of the file: those of `process_breakpoint` and of `lookup_cache` (`unit`),
-- the addresses that wait in `proc_mem_ch`, and whether the last stop has called
-- `trigger_reset_dirty`, which its `wait_reset` says.
pub record Recorder : Type 0 where
  pub step_id : ℕ
  pub depth : ℕ
  pub func_id : ℕ
  pub unit : ℕ
  pub wait_reset : Bool
  pub mem_dirty : Bool
  pub waiting : List ℕ
  pub cache : List Region

-- HEAP_EVENT_ALLOC or HEAP_EVENT_FREE, from the preloaded library.
pub data HeapEvent : Type 0 where
  allocated : ℕ → ℕ → HeapEvent
  freed : ℕ → HeapEvent

pub data Outcome : Type 0 where
  success failure exited crashed : Outcome

-- One stop of the program: its instruction pointer and registers, its memory, the bytes that a read
-- of each dirty page gets, the events in the FIFO, and which of the calls succeed. `run` is what
-- the single instruction does to the memory that it runs in.
pub record Stop : Type 0 where
  pub ip : ℕ
  pub regs : ℕ
  pub child : Memory
  pub buffer : Memory
  pub reads : ℕ → ℕ
  pub heap_events : List HeapEvent
  pub run : Memory → Memory
  pub regs_ok : Bool
  pub fifo_ok : Bool
  pub peek_ok : Bool
  pub poke_ok : Bool
  pub set_ip_ok : Bool
  pub step_ok : Bool
  pub trapped : Bool
  pub trap_ok : Bool

-- FUNC_FLAG_START and FUNC_FLAG_END.
abbrev pub func_flag_start : ℕ
func_flag_start = 1

abbrev pub func_flag_end : ℕ
func_flag_end = 2

-- The depth and the function of a statement that is reached.
unfoldable pub enter : CachedLine → Recorder → Recorder
enter line r =
    if not (line.func_id == r.func_id) || (line.func_flag == func_flag_start)
    then record r {
      depth = if line.func_flag == func_flag_start then (r.depth + 1) % word else r.depth;
      func_id = line.func_id;
    }
    else r

unfoldable pub leave : CachedLine → Recorder → Recorder
leave line r =
    if line.func_flag == func_flag_end then record r { depth = (r.depth + word - 1) % word } else r

unfoldable pub heap_msg : ℕ → HeapEvent → HeapMsg
heap_msg step (allocated address size) = record { step_id = step; address = address; size = size }
heap_msg step (freed address) = record { step_id = step; address = address; size = 0 }

-- The dirty memory of a stop. `none` means that a comparison ran out of fuel.
unfoldable pub refresh : Compare → Stop → CachedLine → Recorder → Option (Recorder × List MemMsg)
unfolding proc_dirty_mem
refresh memdiff stop line r =
    if r.mem_dirty && not (line.func_flag == func_flag_start)
    then elim (proc_dirty_mem memdiff stop.child stop.buffer r.cache
        (map (λ a. (a, stop.reads a)) r.waiting) r.step_id) [
          | none ↦ none
          | some (cache, msgs) ↦
              some (record r { mem_dirty = false; waiting = []; cache = cache }, msgs)
        ]
    else some (r, [])

-- The value of `n` bytes, the lowest first, and the memory with it written.
unfoldable pub peek : Memory → ℕ → ℕ → ℕ
peek code p zero = 0
peek code p (suc n) = code p + 256 * peek code (p + 1) n

unfoldable pub poke : Memory → ℕ → ℕ → ℕ → Memory
poke code p zero v = code
poke code p (suc n) v = λ i. if i == p then v % 256 else poke code (p + 1) n (v / 256) i

-- `(instr & ~0xFF) | byte`.
abbrev pub with_byte : ℕ → ℕ → ℕ
with_byte instr byte = instr - instr % 256 + byte

abbrev pub int3 : ℕ
int3 = 204

-- The original instruction is put back and run, and then the trap: the outcome, the memory that the
-- instruction runs in, if it comes to that, and the memory in the end.
unfoldable pub resume : Stop → CachedLine → ℕ → Memory → Outcome × Option Memory × Memory
unfolding peek poke
resume stop line pc code =
    let instr = peek code pc 8 in
    let restored = poke code pc 8 (with_byte instr line.org_instr_byte) in
    let after = stop.run restored in
    if not (stop.peek_ok && stop.poke_ok)
    then (failure, none, code)
    else if not stop.set_ip_ok
    then (exited, none, restored)
    else if not stop.step_ok
    then (failure, none, restored)
    else if not (stop.trapped && stop.trap_ok)
    then (failure, some restored, after)
    else (success, some restored, poke after pc 8 (with_byte instr int3))

-- How a stop ends; `awaited` says whether it has called `wait_reset_dirty`.
pub record Stopped : Type 0 where
  pub outcome : Outcome
  pub recorder : Recorder
  pub messages : Messages
  pub stepped : Option Memory
  pub awaited : Bool
  pub code : Memory

abbrev pub stopped_early : Outcome → Recorder → Messages → Memory → Stopped
stopped_early o r msgs code = record {
  outcome = o;
  recorder = r;
  messages = msgs;
  stepped = none;
  awaited = false;
  code = code;
}

abbrev pub no_messages : Messages
no_messages = record { steps = []; heaps = []; mems = [] }

-- From the message about the step on, with the messages about memory.
unfoldable pub finish : ℕ → Stop → CachedLine → Recorder → List MemMsg → Memory → Stopped
unfolding leave heap_msg resume
finish base stop line r mems code =
    let pc = stop.ip - 1 in
    let msgs : Messages = record {
      steps =
          record {
            step_id = r.step_id;
            depth = r.depth;
            func_id = r.func_id;
            address = sub64 pc base;
            regs = stop.regs;
          }
          ∷ [];
      heaps = map (heap_msg r.step_id) stop.heap_events;
      mems = mems;
    } in
    if not stop.fifo_ok then stopped_early failure r msgs code else record {
      outcome = (resume stop line pc code).0;
      recorder = leave line r;
      messages = msgs;
      stepped = (resume stop line pc code).1;
      awaited = r.wait_reset && ((stop.peek_ok && stop.poke_ok) && stop.set_ip_ok);
      code = (resume stop line pc code).2;
    }

-- From the line on that the stop is at.
unfoldable pub at_line : Compare → ℕ → Stop → CachedLine → Recorder → Memory → Stopped
unfolding enter refresh finish
at_line memdiff base stop line r code = elim (refresh memdiff stop line (enter line r)) [
  | none ↦ stopped_early crashed r no_messages code
  | some (q, mems) ↦ finish base stop line q mems code
]

unfoldable pub process_breakpoint :
    Compare → List CachedUnit → ℕ → Stop → Recorder → Memory → Stopped
unfolding lookup_cache at_line
process_breakpoint memdiff instr_cache base stop r code =
    let next = record r { step_id = (r.step_id + 1) % word; wait_reset = r.mem_dirty } in
    let looked = lookup_cache instr_cache r.unit (sub64 (stop.ip - 1) base) in
    if not stop.regs_ok then stopped_early failure next no_messages code else elim (looked.1) [
      | found line ↦ at_line memdiff base stop line (record next { unit = looked.0 }) code
      | not_found ↦ stopped_early failure (record next { unit = looked.0 }) no_messages code
      | _ ↦ stopped_early crashed (record next { unit = looked.0 }) no_messages code
    ]
