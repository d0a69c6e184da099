-- ===== src/Run/Traps.antt =====
-- Traps in the program's code: one byte is replaced in a word that is read and written back, and the
-- original instruction runs while its trap is out.
use mathlib.Core.Path.{subst}
use flightrec.Prelude.{
  ℕ, zero, suc, ◌+◌, ◌*◌, ◌/◌, ◌%◌, ◌≤◌, ◌<◌, ◌≡◌, ◌≢◌, refl, sym, ◌∙◌, ap, List, true, some,
  if_true, if_false, test_eq, test_ne, ℕ_discrete, arith,
}
use flightrec.Query.{In}
use flightrec.Memory.{Memory}
use flightrec.Memdiff.Ranges.{IsBytes}
use flightrec.Lookup.{CachedLine}
use flightrec.Run.{Stop, success, peek, poke, with_byte, int3, resume}

-- Bytes that are read from one memory may be written to one that has the same.
poke-peek :
    (code other : Memory)
    → IsBytes code
    → (n p i : ℕ) → ((k : ℕ) → p ≤ k → k < p + n → other k ≡ code k)
    → poke other p n (peek code p n) i ≡ other i
unfolding peek poke
poke-peek code other b zero p i same = refl
poke-peek code other b (suc n) p i same =
    let here = b p in
    let rest : (code p + 256 * peek code (p + 1) n) / 256 ≡ peek code (p + 1) n = omega arith in
    let low : (code p + 256 * peek code (p + 1) n) % 256 ≡ code p = omega arith in
    elim (ℕ_discrete i p) [
      | yes e ↦
          if_true _ _ (test_eq i p e)
          ∙ low
          ∙ sym (same p (omega arith) (omega arith))
          ∙ ap other (sym e)
      | no n' ↦
          if_false _ _ (test_ne i p n')
          ∙ ap (λ v. poke other (p + 1) n v i) rest
          ∙ poke-peek code other b n (p + 1) i (λ k l u. same k (omega arith) (omega arith))
    ]

-- Another byte in place of the lowest one.
module _ (code other : Memory) (b : IsBytes code) (p byte n : ℕ) (small : byte < 256) where
  pub poke_byte_here : poke other p (suc n) (with_byte (peek code p (suc n)) byte) p ≡ byte
  unfolding peek poke
  poke_byte_here = let here = b p in if_true _ _ (test_eq p p refl) ∙ omega arith

  pub poke_byte_away :
      ((k : ℕ) → p ≤ k → k < p + suc n → k ≢ p → other k ≡ code k)
      → (i : ℕ) → i ≢ p
      → poke other p (suc n) (with_byte (peek code p (suc n)) byte) i ≡ other i
  unfolding peek poke
  poke_byte_away same i ne =
      let here = b p in
      let rest : with_byte (code p + 256 * peek code (p + 1) n) byte / 256 ≡ peek code (p + 1) n =
        omega arith in
      if_false _ _ (test_ne i p ne)
      ∙ ap (λ v. poke other (p + 1) n v i) rest
      ∙ poke-peek code other b n (p + 1) i
          (λ k l u. same k (omega arith) (omega arith) (omega arith))

-- From `low` to `high`, the code is the original one with traps at the given points.
pub record Planted (low high : ℕ) (points : List ℕ) (orig code : Memory) : Type 0 where
  pub traps : (i : ℕ) → In i points → code i ≡ int3
  pub others : (i : ℕ) → low ≤ i → i < high → (In i points → ⊥) → code i ≡ orig i

-- All calls that `resume` makes succeed.
pub record CallsSucceed (stop : Stop) : Type 0 where
  pub regs : stop.regs_ok ≡ true
  pub fifo : stop.fifo_ok ≡ true
  pub peeked : stop.peek_ok ≡ true
  pub poked : stop.poke_ok ≡ true
  pub set_ip : stop.set_ip_ok ≡ true
  pub stepped : stop.step_ok ≡ true
  pub stopped : stop.trapped ≡ true
  pub trapped : stop.trap_ok ≡ true

module _ (low high : ℕ) (points : List ℕ) (orig code : Memory) (b : IsBytes code)
    (planted : Planted low high points orig code) (stop : Stop) (calls : CallsSucceed stop)
    (line : CachedLine) (pc : ℕ) (point : In pc points) (byte : line.org_instr_byte ≡ orig pc)
    (small : orig pc < 256) (first : low ≤ pc) (last : pc + 8 ≤ high)
    (within : (i : ℕ) → In i points → (low ≤ i) × (i < high))
    (keeps : (m : Memory) (i : ℕ) → low ≤ i → i < high → stop.run m i ≡ m i) where
  abbrev restored : Memory
  restored = poke code pc 8 (with_byte (peek code pc 8) line.org_instr_byte)

  abbrev final : Memory
  final = poke (stop.run restored) pc 8 (with_byte (peek code pc 8) int3)

  restored_here : restored pc ≡ orig pc
  restored_here = poke_byte_here code code b pc line.org_instr_byte 7 (omega arith) ∙ byte

  restored_away : (i : ℕ) → i ≢ pc → restored i ≡ code i
  restored_away i ne =
      poke_byte_away code code b pc line.org_instr_byte 7 (omega arith) (λ k l u n. refl) i ne

  final_away : (i : ℕ) → i ≢ pc → final i ≡ stop.run restored i
  final_away i ne =
      poke_byte_away code (stop.run restored) b pc int3 7 (omega arith)
        (λ k l u n. keeps restored k (omega arith) (omega arith) ∙ restored_away k n) i ne

  final-Planted : Planted low high points orig final
  final-Planted = record {
    traps = λ i m. elim (ℕ_discrete i pc) [
      | yes e ↦ ap final e ∙ poke_byte_here code (stop.run restored) b pc int3 7 (omega arith)
      | no ne ↦
          let (l, u) = within i m in
          final_away i ne ∙ keeps restored i l u ∙ restored_away i ne ∙ planted.traps i m
    ];
    others = λ i l u out.
        let ne : i ≢ pc = λ e. out (subst (λ k. In k points) (sym e) point) in
        final_away i ne ∙ keeps restored i l u ∙ restored_away i ne ∙ planted.others i l u out;
  }

  pub resume_runs_original :
      (m last : Memory) × (resume stop line pc code ≡ (success, some m, last))
      × (m pc ≡ orig pc)
      × ((i : ℕ) → i ≢ pc → m i ≡ code i)
      × Planted low high points orig last
  unfolding resume
  resume_runs_original = (
    restored,
    final,
    rw (calls.peeked, calls.poked, calls.set_ip, calls.stepped, calls.stopped, calls.trapped) refl,
    restored_here,
    restored_away,
    final-Planted,
  )
