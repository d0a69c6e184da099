-- ===== src/Run/Tests.antt =====
-- The theorems on stops and events at a program with its statements at 10, 31, 40 and 50, the last
-- of which it stops at, and with one region of memory.
use flightrec.Prelude.{
  ◌+◌, ◌≡◌, ◌≢◌, inl, inr, refl, List, [], ◌∷◌, ◌++◌, true, false, leb, some, arith, map,
}
use flightrec.Memory.{Memory, MemMsg, segment, bytes}
use flightrec.Memdiff.{best_memdiff}
use flightrec.VarValue.{get_var_value}
use flightrec.Lookup.{CachedLine, CachedUnit}
use flightrec.Lookup.Samples.{line_at, util_unit, two_units, two_units-IsCache}
use flightrec.Memcache.Follows.{Follows}
use flightrec.Memcache.Samples.{
  sevens, one_nine, sevens-IsBytes, one_nine-IsBytes, any_cpu, nothing-Follows, first_rows,
  first-Follows, first_region, first-In, first_start, first_end, all_dirty, first-Reported,
}
use flightrec.Run.{success, Recorder, heap_msg, allocated, enter, leave, process_breakpoint}
use flightrec.Run.Traps.{Planted}
use flightrec.Run.Samples.{stop_at_50, recorder, orig_code, trapped_code}
use flightrec.Run.Stops.{recorded_step, process_breakpoint_records}
use flightrec.Run.Depth.{Body, done, plain, call, Stops, nested, nested-Stops}
use flightrec.Run.Events.{Probe, Mapping, mmap_entry, mmap_exit, pagefault, bpf_callback}
use flightrec.Run.Timeline.{Reached, begin, at_event, recording-Follows}
use flightrec.Run.Shown.{stop_shows_memory}
use flightrec.Run.Code.{UnitRow, Tracee, set_breakpoints}
use flightrec.Run.Code.Planting.{AreUnits, unit_places, set_breakpoints_plants}

one_trap : Planted 0 100 (50 ∷ []) orig_code trapped_code
one_trap = record {
  traps = λ i m. elim m [ inl e ↦ ground (arith, e) | inr n ↦ elim n [ ] ];
  others = λ i l u out. let ne : i ≢ 50 = λ e. out (inl e) in ground (arith, ne);
}

stop_shows_memory_example :
    get_var_value true true
      (first_rows
        ++ (process_breakpoint
            (best_memdiff any_cpu segment)
            two_units
            0
            stop_at_50
            recorder
            trapped_code).messages.mems)
      4098
      4
      (1 + 1)
    ≡ some (bytes one_nine 4098 4 ++ (0 ∷ []))
stop_shows_memory_example =
    stop_shows_memory any_cpu two_units two_units-IsCache 1 1 util_unit (line_at 50) 0 refl refl
      stop_at_50 refl recorder (omega arith) (omega arith) one_nine-IsBytes sevens-IsBytes
      first_rows first-Follows refl (λ e. omega arith) refl first-Reported all_dirty first_region
      4098 4 first-In (omega (arith, first_start)) (omega (arith, first_end)) trapped_code

process_breakpoint_records_example :
    ((process_breakpoint
        (best_memdiff any_cpu segment)
        two_units
        0
        stop_at_50
        recorder
        trapped_code).outcome
      ≡ success)
    × ((process_breakpoint
          (best_memdiff any_cpu segment)
          two_units
          0
          stop_at_50
          recorder
          trapped_code).messages.steps
        ≡ recorded_step (line_at 50) recorder stop_at_50 ∷ [])
    × ((process_breakpoint
          (best_memdiff any_cpu segment)
          two_units
          0
          stop_at_50
          recorder
          trapped_code).messages.heaps
        ≡ map (heap_msg (1 + 1)) (allocated 4200 8 ∷ []))
    × Follows
        (1 + 1)
        (process_breakpoint
          (best_memdiff any_cpu segment)
          two_units
          0
          stop_at_50
          recorder
          trapped_code).recorder.cache
        (first_rows
          ++ (process_breakpoint
              (best_memdiff any_cpu segment)
              two_units
              0
              stop_at_50
              recorder
              trapped_code).messages.mems)
    × ((process_breakpoint
          (best_memdiff any_cpu segment)
          two_units
          0
          stop_at_50
          recorder
          trapped_code).recorder.step_id
        ≡ 1 + 1)
    × ((process_breakpoint
          (best_memdiff any_cpu segment)
          two_units
          0
          stop_at_50
          recorder
          trapped_code).recorder.depth
        ≡ (leave (line_at 50) (enter (line_at 50) recorder)).depth)
    × Planted 0 100
        (50 ∷ [])
        orig_code
        (process_breakpoint
          (best_memdiff any_cpu segment)
          two_units
          0
          stop_at_50
          recorder
          trapped_code).code
    × ((m : Memory) × ((process_breakpoint
            (best_memdiff any_cpu segment)
            two_units
            0
            stop_at_50
            recorder
            trapped_code).stepped
          ≡ some m)
        × (m 50 ≡ 85))
process_breakpoint_records_example =
    process_breakpoint_records any_cpu two_units two_units-IsCache 1 1 util_unit (line_at 50) 0 refl
      refl stop_at_50 refl recorder (omega arith) (omega arith) one_nine-IsBytes sevens-IsBytes
      first_rows first-Follows
      (record {
        regs = refl;
        fifo = refl;
        peeked = refl;
        poked = refl;
        set_ip = refl;
        stepped = refl;
        stopped = refl;
        trapped = refl;
      })
      0 100 (50 ∷ []) orig_code trapped_code (λ i. ground arith) one_trap (inl refl) refl
      (omega arith) (omega arith) (omega arith)
      (λ k m. elim m [ inl e ↦ (omega arith, omega arith) | inr n ↦ elim n [ ] ]) (λ m k l u. refl)

abbrev first_line : CachedLine
first_line = record { address = 5; func_id = 2; func_flag = 1; org_instr_byte = 85 }

abbrev last_line : CachedLine
last_line = record { address = 9; func_id = 2; func_flag = 2; org_instr_byte = 85 }

-- A statement, and a call of a function of two statements.
abbrev one_call : Body
one_call = plain (line_at 50) (call first_line done last_line done)

nested-Stops_example : (q : Recorder) × Stops recorder (nested 1 one_call) q × (q.depth ≡ 1)
nested-Stops_example =
    nested-Stops one_call recorder 1 (λ e. omega arith, λ e. omega arith, (refl, refl, tt, tt)) refl
      (omega arith)

abbrev start : Recorder
start = record {
  step_id = 1;
  depth = 0;
  func_id = 0;
  unit = 0;
  wait_reset = false;
  mem_dirty = false;
  waiting = [];
  cache = [];
}

abbrev no_probe : Probe
no_probe = record { mapped_size = 0; second_trap = false; brk_boundary = 0; posted = 0 }

abbrev page_of_sevens : Mapping
page_of_sevens = record { child = sevens; buffer = sevens; count = 4096 }

-- A region of one page is mapped, a page fault is reported, and the program stops.
abbrev sized : Recorder × Probe × List MemMsg
sized = bpf_callback false true page_of_sevens (mmap_entry 4096) start no_probe

abbrev mapped : Recorder × Probe × List MemMsg
mapped = bpf_callback false true page_of_sevens (mmap_exit 4096) sized.0 sized.1

abbrev faulted : Recorder × Probe × List MemMsg
faulted = bpf_callback false true page_of_sevens (pagefault 4100) mapped.0 mapped.1

sized-Reached : Reached any_cpu two_units 0 start no_probe [] sized.0 sized.1 ([] ++ sized.2)
sized-Reached = at_event start no_probe [] false true page_of_sevens (mmap_entry 4096) begin tt

mapped-Reached :
    Reached any_cpu two_units 0 start no_probe [] mapped.0 mapped.1 (([] ++ sized.2) ++ mapped.2)
unfolding bpf_callback
mapped-Reached =
    at_event sized.0 sized.1 ([] ++ sized.2) false true page_of_sevens (mmap_exit 4096)
      sized-Reached
      (record {
        child = sevens-IsBytes;
        buffer = sevens-IsBytes;
        first = refl;
        whole = refl;
        some_page = omega arith;
        mapped = omega arith;
        apart = λ r m. elim m [ ];
        all = omega arith;
      })

faulted-Reached :
    Reached any_cpu two_units 0 start no_probe [] faulted.0 faulted.1
      ((([] ++ sized.2) ++ mapped.2) ++ faulted.2)
faulted-Reached =
    at_event mapped.0 mapped.1 (([] ++ sized.2) ++ mapped.2) false true page_of_sevens
      (pagefault 4100) mapped-Reached tt

recording-Follows_example :
    Follows faulted.0.step_id faulted.0.cache ((([] ++ sized.2) ++ mapped.2) ++ faulted.2)
recording-Follows_example =
    recording-Follows any_cpu two_units 0 start no_probe [] nothing-Follows faulted.0 faulted.1
      ((([] ++ sized.2) ++ mapped.2) ++ faulted.2) faulted-Reached

-- A program that lies at 1000, with two statements.
abbrev two_rows : List UnitRow
two_rows =
    record {
      line_count = 2;
      start = 10;
      last = 31;
      rows =
          record { address = 10; func_id = 1; func_flag = 1 }
          ∷ record { address = 31; func_id = 1; func_flag = 2 }
          ∷ [];
      reset_ok = true;
      fetched = true;
    }
    ∷ []

abbrev moved_program : Tracee
moved_program = record {
  readable = λ p. leb 1000 p;
  writable = λ p. true;
  fault = true;
  found_base = some 1000;
  stored = true;
}

set_breakpoints_plants_example :
    (code : Memory) × (cache : List CachedUnit) × (set_breakpoints true true moved_program orig_code
        two_rows
      ≡ some (1000, code, cache))
    × Planted 1000 2000 (unit_places 1000 two_rows []) orig_code code
    × AreUnits 1000 2000 orig_code (λ i. omega arith) moved_program 1000 two_rows cache
set_breakpoints_plants_example =
    set_breakpoints_plants 1000 2000 orig_code (λ i. omega arith) moved_program 1000 two_rows
      (inr (record {
        unreadable = refl;
        fault = refl;
        found = refl;
        moved = λ e. omega arith;
        stored = refl;
      }))
      ((
        refl,
        refl,
        (
          record {
            readable = refl;
            writable = refl;
            first = omega arith;
            last = omega arith;
            new = λ m. elim m [ ];
          },
          (
            record {
              readable = refl;
              writable = refl;
              first = omega arith;
              last = omega arith;
              new = λ m. elim m [ inl e ↦ omega arith | inr n ↦ elim n [ ] ];
            },
            tt,
          ),
        ),
        tt,
      ))
