-- ===== src/ResetDirty/Tests.antt =====
-- The thread has taken a first request, and a second one waits; and a thread that could not write.
use flightrec.Prelude.{◌≡◌, refl, true, false, some, arith}
use flightrec.ResetDirty.{
  Reset, waiting, writing, returned, take_start, write_failed, Run, started, triggered, worked,
  start_reset_dirty, trigger_reset_dirty, Returns, wait_reset_dirty-Returns,
}

abbrev fresh : Reset
fresh = record { start_sem = 0; end_sem = 0; phase = waiting }

abbrev one_taken : Reset
one_taken = record { start_sem = 0; end_sem = 0; phase = writing }

fresh_run : start_reset_dirty true true true true ≡ some fresh
unfolding start_reset_dirty
fresh_run = refl

one_request : Run one_taken 1 0
one_request =
    worked true (trigger_reset_dirty true fresh) one_taken 1 0
      (triggered true fresh 0 0 (started true true true true fresh fresh_run)) (take_start 0 0)

two_requests : Run (trigger_reset_dirty true one_taken) 2 0
two_requests = triggered true one_taken 1 0 one_request

wait_reset_dirty-Returns_example : Returns (trigger_reset_dirty true one_taken)
wait_reset_dirty-Returns_example =
    wait_reset_dirty-Returns (trigger_reset_dirty true one_taken) 2 0 two_requests (omega arith)

-- A request is open, and the thread is gone.
not_written : Run (record one_taken { phase = returned }) 1 0
not_written =
    worked false one_taken (record one_taken { phase = returned }) 1 0 one_request
      (write_failed 0 0)
