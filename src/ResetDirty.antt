-- ===== src/ResetDirty.antt =====
-- record/reset_dirty.c: a thread clears the dirty bits of the program's memory each time that the
-- recorder asks for it. The recorder and the thread take atomic steps in any order; the semaphores
-- are counters, and each call can fail.
mod Tests
use mathlib.Core.Path.{subst}
use flightrec.Prelude.{
  ℕ, zero, suc, ◌+◌, ◌≤◌, ◌<◌, ◌≡◌, inl, inr, refl, Bool, true, false, ◌&&◌, Option, none, some,
  arith, if◌then◌else◌,
}

-- Where the thread is: before `sem_wait`, before `fwrite`, before `sem_post`, or at its end.
pub data Phase : Type 0 where
  waiting : Phase
  writing : Phase
  posting : Phase
  returned : Phase

pub record Reset : Type 0 where
  pub start_sem : ℕ
  pub end_sem : ℕ
  pub phase : Phase

-- Whether the file is opened, the two semaphores are initialised, and the thread is created.
unfoldable pub start_reset_dirty : Bool → Bool → Bool → Bool → Option Reset
start_reset_dirty opened start_ok end_ok created =
    if opened && (start_ok && (end_ok && created))
    then some (record { start_sem = 0; end_sem = 0; phase = waiting })
    else none

-- That `sem_post` fails is reported and passed over.
abbrev pub trigger_reset_dirty : Bool → Reset → Reset
trigger_reset_dirty true s = record s { start_sem = s.start_sem + 1 }
trigger_reset_dirty false s = s

-- The thread's loop: it takes the semaphore, clears the bits, and posts the other one. A call that
-- fails ends the thread; `sem_wait` can fail also where it would block.
pub data Worker : Bool → Reset → Reset → Type 0 where
  take_start :
      (n m : ℕ)
      → Worker true
          (record { start_sem = suc n; end_sem = m; phase = waiting })
          (record { start_sem = n; end_sem = m; phase = writing })
  take_failed :
      (n m : ℕ)
      → Worker false
          (record { start_sem = n; end_sem = m; phase = waiting })
          (record { start_sem = n; end_sem = m; phase = returned })
  write_bits :
      (n m : ℕ)
      → Worker true
          (record { start_sem = n; end_sem = m; phase = writing })
          (record { start_sem = n; end_sem = m; phase = posting })
  write_failed :
      (n m : ℕ)
      → Worker false
          (record { start_sem = n; end_sem = m; phase = writing })
          (record { start_sem = n; end_sem = m; phase = returned })
  post_end :
      (n m : ℕ)
      → Worker true
          (record { start_sem = n; end_sem = m; phase = posting })
          (record { start_sem = n; end_sem = suc m; phase = waiting })
  post_failed :
      (n m : ℕ)
      → Worker false
          (record { start_sem = n; end_sem = m; phase = posting })
          (record { start_sem = n; end_sem = m; phase = returned })

-- `wait_reset_dirty` returns with the semaphore taken, or, when `sem_wait` fails, without.
pub data Waits : Bool → Reset → Reset → Type 0 where
  wait_end :
      (n m : ℕ) (p : Phase)
      → Waits true
          (record { start_sem = n; end_sem = suc m; phase = p })
          (record { start_sem = n; end_sem = m; phase = p })
  wait_failed : (s : Reset) → Waits false s s

abbrev pub counted : Bool → ℕ → ℕ
counted true n = suc n
counted false n = n

-- Any order of steps; the numbers count the calls of `trigger_reset_dirty` that post their semaphore
-- and the returns of `wait_reset_dirty` that took theirs.
pub data Run : Reset → ℕ → ℕ → Type 0 where
  started :
      (opened start_ok end_ok created : Bool) (s : Reset)
      → start_reset_dirty opened start_ok end_ok created ≡ some s
      → Run s 0 0
  triggered :
      (ok : Bool) (s : Reset) (t w : ℕ)
      → Run s t w
      → Run (trigger_reset_dirty ok s) (counted ok t) w
  worked : (ok : Bool) (s q : Reset) (t w : ℕ) → Run s t w → Worker ok s q → Run q t w
  waited : (ok : Bool) (s q : Reset) (t w : ℕ) → Run s t w → Waits ok s q → Run q t (counted ok w)

-- As long as the thread lives, each request is on its way through the semaphores and the thread.
abbrev Balanced : Phase → ℕ → ℕ → ℕ → ℕ → Type 0
Balanced waiting t w n m = t ≡ w + (n + m)
Balanced writing t w n m = t ≡ w + (n + (1 + m))
Balanced posting t w n m = t ≡ w + (n + (1 + m))
Balanced returned t w n m = Unit {0}

triggered-Balanced : (p : Phase) (t w n m : ℕ) → Balanced p t w n m → Balanced p (suc t) w (n + 1) m
triggered-Balanced waiting t w n m b = omega (arith, b)
triggered-Balanced writing t w n m b = omega (arith, b)
triggered-Balanced posting t w n m b = omega (arith, b)
triggered-Balanced returned t w n m b = tt

waited-Balanced : (p : Phase) (t w n m : ℕ) → Balanced p t w n (suc m) → Balanced p t (suc w) n m
waited-Balanced waiting t w n m b = omega (arith, b)
waited-Balanced writing t w n m b = omega (arith, b)
waited-Balanced posting t w n m b = omega (arith, b)
waited-Balanced returned t w n m b = tt

started-Balanced :
    (a b c d : Bool) (s : Reset)
    → start_reset_dirty a b c d ≡ some s
    → Balanced s.phase 0 0 s.start_sem s.end_sem
unfolding start_reset_dirty
started-Balanced a b c d s e = pick (a && (b && (c && d))) e
  where
    same : {x y : Reset} → some x ≡ some y → x ≡ y
    same e = cc

    pick :
        (x : Bool)
        → (if x then some (record { start_sem = 0; end_sem = 0; phase = waiting }) else none)
          ≡ some s
        → Balanced s.phase 0 0 s.start_sem s.end_sem
    pick true e =
        subst (λ (r : Reset). Balanced r.phase 0 0 r.start_sem r.end_sem) (same e) (omega arith)
    pick false e = absurd (cc)

Run-Balanced : (s : Reset) (t w : ℕ) → Run s t w → Balanced s.phase t w s.start_sem s.end_sem
Run-Balanced _ _ _ (started a b c d s e) = started-Balanced a b c d s e
Run-Balanced _ _ _ (triggered true s t w r) =
    triggered-Balanced s.phase t w s.start_sem s.end_sem (Run-Balanced s t w r)
Run-Balanced _ _ _ (triggered false s t w r) = Run-Balanced s t w r
Run-Balanced _ _ _ (worked _ _ _ t w r (take_start n m)) = omega (arith, Run-Balanced _ t w r)
Run-Balanced _ _ _ (worked _ _ _ t w r (take_failed n m)) = tt
Run-Balanced _ _ _ (worked _ _ _ t w r (write_bits n m)) = Run-Balanced _ t w r
Run-Balanced _ _ _ (worked _ _ _ t w r (write_failed n m)) = tt
Run-Balanced _ _ _ (worked _ _ _ t w r (post_end n m)) = omega (arith, Run-Balanced _ t w r)
Run-Balanced _ _ _ (worked _ _ _ t w r (post_failed n m)) = tt
Run-Balanced _ _ _ (waited _ _ _ t w r (wait_end n m p)) =
    waited-Balanced p t w n m (Run-Balanced _ t w r)
Run-Balanced _ _ _ (waited _ _ _ t w r (wait_failed s)) = Run-Balanced s t w r

-- What the thread's steps lead to, whichever of its calls fail: the semaphore can be taken, or the
-- thread has ended and there is nothing to take. Before that a step is possible.
pub data Returns : Reset → Type 0 where
  can_take : (s q : Reset) → Waits true s q → Returns s
  blocked : (s : Reset) → s.phase ≡ returned → s.end_sem ≡ 0 → Returns s
  goes_on :
      (s q : Reset)
      → Worker true s q
      → ((ok : Bool) (u : Reset) → Worker ok s u → Returns u)
      → Returns s

at_posted : (n m : ℕ) (p : Phase) → Returns (record { start_sem = n; end_sem = suc m; phase = p })
at_posted n m p = can_take _ _ (wait_end n m p)

at_returned : (n m : ℕ) → Returns (record { start_sem = n; end_sem = m; phase = returned })
at_returned n zero = blocked _ refl refl
at_returned n (suc m) = at_posted n m returned

after_posting : (ok : Bool) (s u : Reset) → s.phase ≡ posting → Worker ok s u → Returns u
after_posting _ _ _ e (post_end n m) = at_posted n m waiting
after_posting _ _ _ e (post_failed n m) = at_returned n m
after_posting _ _ _ e (take_start n m) = absurd (cc)
after_posting _ _ _ e (take_failed n m) = absurd (cc)
after_posting _ _ _ e (write_bits n m) = absurd (cc)
after_posting _ _ _ e (write_failed n m) = absurd (cc)

at_posting : (n m : ℕ) → Returns (record { start_sem = n; end_sem = m; phase = posting })
at_posting n m = goes_on _ _ (post_end n m) (λ ok u w. after_posting ok _ u refl w)

after_writing : (ok : Bool) (s u : Reset) → s.phase ≡ writing → Worker ok s u → Returns u
after_writing _ _ _ e (write_bits n m) = at_posting n m
after_writing _ _ _ e (write_failed n m) = at_returned n m
after_writing _ _ _ e (take_start n m) = absurd (cc)
after_writing _ _ _ e (take_failed n m) = absurd (cc)
after_writing _ _ _ e (post_end n m) = absurd (cc)
after_writing _ _ _ e (post_failed n m) = absurd (cc)

at_writing : (n m : ℕ) → Returns (record { start_sem = n; end_sem = m; phase = writing })
at_writing n m = goes_on _ _ (write_bits n m) (λ ok u w. after_writing ok _ u refl w)

after_waiting : (ok : Bool) (s u : Reset) → s.phase ≡ waiting → Worker ok s u → Returns u
after_waiting _ _ _ e (take_start n m) = at_writing n m
after_waiting _ _ _ e (take_failed n m) = at_returned n m
after_waiting _ _ _ e (write_bits n m) = absurd (cc)
after_waiting _ _ _ e (write_failed n m) = absurd (cc)
after_waiting _ _ _ e (post_end n m) = absurd (cc)
after_waiting _ _ _ e (post_failed n m) = absurd (cc)

at_waiting :
    (n m : ℕ) → 0 < n + m → Returns (record { start_sem = n; end_sem = m; phase = waiting })
at_waiting n (suc m) h = at_posted n m waiting
at_waiting (suc n) zero h = goes_on _ _ (take_start n zero) (λ ok u w. after_waiting ok _ u refl w)
at_waiting zero zero h = absurd (omega (arith, h))

pending :
    (p : Phase) (t w n m : ℕ)
    → Balanced p t w n m
    → w < t
    → Returns (record { start_sem = n; end_sem = m; phase = p })
pending waiting t w n m b h = at_waiting n m (omega (arith, b, h))
pending writing t w n m b h = at_writing n m
pending posting t w n m b h = at_posting n m
pending returned t w n m b h = at_returned n m

-- Wherever the recorder and the thread get to, whichever calls fail, if more calls of
-- `trigger_reset_dirty` posted their semaphore than returns of `wait_reset_dirty` took theirs, then
-- the thread, whichever of its calls fail then, comes within finitely many of its steps, none of
-- which has to wait, to where `wait_reset_dirty` can take its semaphore, or else has returned and
-- left nothing to take.
pub wait_reset_dirty-Returns : (s : Reset) (t w : ℕ) → Run s t w → w < t → Returns s
wait_reset_dirty-Returns s t w r h =
    pending s.phase t w s.start_sem s.end_sem (Run-Balanced s t w r) h
