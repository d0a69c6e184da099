-- ===== src/Run/Signals.antt =====
-- The signals that the probes report: each stop comes with two of SIGTRAP, and posts the semaphore once.
use flightrec.Prelude.{ℕ, suc, ◌+◌, ◌/◌, ◌≡◌, List, [], ◌∷◌, true, ◌==◌, if◌then◌else◌, arith}
use flightrec.Run.Events.{Probe, on_signal, sigtrap}

-- The signals one after the other; the semaphore can always be posted.
unfoldable pub on_signals : List ℕ → Probe → Probe
unfolding on_signal
on_signals [] p = p
on_signals (n ∷ numbers) p = on_signals numbers (on_signal true n p)

-- How many of the signals are SIGTRAP.
abbrev pub traps : List ℕ → ℕ
traps [] = 0
traps (n ∷ numbers) = if n == sigtrap then suc (traps numbers) else traps numbers

-- Whatever other signals are between them, the semaphore is posted at every other SIGTRAP: after `n`
-- of them, `(n + 1) / 2` times if the first of a pair comes next in the beginning, else `n / 2` times.
pub signals_posted :
    (numbers : List ℕ) (p : Probe)
    → (on_signals numbers p).posted
      ≡ p.posted + (traps numbers + (if p.second_trap then 0 else 1)) / 2
unfolding on_signals on_signal
signals_posted [] p = ground arith
signals_posted (n ∷ numbers) p = ground (arith, signals_posted numbers (on_signal true n p))
