-- ===== src/Run/Samples.antt =====
-- A stop at the last of the statements of a program, with one dirty page in its one region.
use flightrec.Prelude.{[], ◌∷◌, true, false, ◌==◌, if◌then◌else◌}
use flightrec.Memory.{Memory}
use flightrec.Memcache.Samples.{sevens, one_nine, first_cache}
use flightrec.Run.{Stop, Recorder, allocated}

abbrev pub stop_at_50 : Stop
stop_at_50 = record {
  ip = 51;
  regs = 0;
  child = one_nine;
  buffer = sevens;
  reads = λ a. 4096;
  heap_events = allocated 4200 8 ∷ [];
  run = λ m. m;
  regs_ok = true;
  fifo_ok = true;
  peek_ok = true;
  poke_ok = true;
  set_ip_ok = true;
  step_ok = true;
  trapped = true;
  trap_ok = true;
}

abbrev pub recorder : Recorder
recorder = record {
  step_id = 1;
  depth = 1;
  func_id = 1;
  unit = 0;
  wait_reset = false;
  mem_dirty = true;
  waiting = 4100 ∷ [];
  cache = first_cache;
}

abbrev pub orig_code : Memory
orig_code = λ i. 85

abbrev pub trapped_code : Memory
trapped_code = λ i. if i == 50 then 204 else 85
