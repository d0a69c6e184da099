-- ===== src/Expr/Value/Stored.antt =====
-- The value of a variable in an expression is what is stored in it.
use mathlib.Core.Path.{ap₂, subst}
use native.Mathlib.Nat.{pow-succ', pow-le-pow_right}
use flightrec.Prelude.{
  ℕ, zero, ◌+◌, ◌-◌, ◌*◌, ◌^◌, ◌≤◌, ◌<◌, ◌≡◌, sym, ◌∙◌, ap, List, [], ◌∷◌, ◌++◌, true, not, Option,
  none, some, ltb, ◌==◌, if◌then◌else◌, if_true, if_false, arith, test_eq,
}
use flightrec.Lookup.{word}
use flightrec.Memory.{Memory, segment, bytes}
use flightrec.Run.{poke}
use flightrec.VarValue.{get_var_value}
use flightrec.VarValue.Exact.{IsAligned, Shows, get_var_value_exact}
use flightrec.Variables.{View, unsigned_of, Shown, number, minus}
use flightrec.Variables.Entry.Numbers.{Complement, positive, negative, unsigned_of-poke, pow_bytes}
use flightrec.Expr.{
  kind_signed, kind_unsigned, Attributes, var_node, Error, Env, Result, done, no_address,
}
use flightrec.Expr.Evaluate.{no_flags, at_address, evaluate_node, later}
use flightrec.Expr.Value.{widen, is_int_size, value_of, var_value, unsupported_value}

-- A number in two's complement keeps its integer when it gets 64 bits.
widen_lem :
    (size n : ℕ) (text : Shown)
    → zero < size
    → size ≤ 8
    → Complement size n text
    → Complement 8 (widen size n) text
widen_lem _ _ _ z s (positive size n l) =
    let low : 2 ^ (8 * size - 1) ≤ 2 ^ 63 =
      pow-le-pow_right {n = 2} (omega arith) {j = 63} (omega arith) in
    subst (λ k. Complement 8 k (number n))
      (sym (if_true {b = ltb n (2 ^ (8 * size - 1))} _ _ (ground (arith, l))))
      (positive 8 n (omega arith))
widen_lem _ _ _ z s (negative size n m l e) =
    let low : 2 ^ (8 * size - 1) ≤ 2 ^ 63 =
      pow-le-pow_right {n = 2} (omega arith) {j = 63} (omega arith) in
    let high : 2 ^ (8 * size) ≤ 2 ^ 64 =
      pow-le-pow_right {n = 2} (omega arith) {j = 64} (omega arith) in
    let top : 2 ^ (8 * size) ≡ 2 * 2 ^ (8 * size - 1) =
      ap (λ k. 2 ^ k) (omega (arith, z)) ∙ pow-succ' 2 (8 * size - 1) in
    subst (λ k. Complement 8 k (minus m))
      (sym (if_false {b = ltb n (2 ^ (8 * size - 1))} _ _ (ground (arith, l, e, top))))
      (negative 8 (n + (word - 2 ^ (8 * size))) m (omega arith) (omega (arith, e)))

module _ (float_of : ℕ → List ℕ → ℕ) (behind : List ℕ) (v : View) (env : Env) (a : Attributes)
    (id addr : ℕ) (code : Memory) (value : ℕ) (given : env.var_value ≡ var_value float_of behind v)
    (placed : env.get_var_address id ≡ some addr) (direct : a.indirect ≡ 0)
    (supported : is_int_size a.size ≡ true) (aligned : IsAligned v.mem) (far : segment ≤ addr)
    (fits : value < 2 ^ (8 * a.size))
    (s : Shows v.step v.mem (poke code addr a.size value) addr a.size) (opened : v.mem_ok ≡ true)
    (ended : v.mem_end ≡ true) where
  abbrev stored : List ℕ
  stored = bytes (poke code addr a.size value) addr a.size ++ (0 ∷ [])

  unsigned_of-stored : unsigned_of a.size stored ≡ value
  unsigned_of-stored =
      unsigned_of-poke code (0 ∷ []) addr a.size value (omega (arith, fits, pow_bytes a.size))

  var_value-stored :
      var_value float_of behind v none a addr ≡ value_of float_of a.type_kind a.size stored
  unfolding var_value
  var_value-stored =
      ap
        (λ o. elim o as (λ x. ℕ × Option Error) [
          | none ↦ unsupported_value
          | some mem ↦
              if not (a.indirect == 0)
              then (unsigned_of 8 (mem ++ behind), none)
              else value_of float_of a.type_kind a.size mem
        ])
        (ap₂ (λ b c. get_var_value b c v.mem addr a.size v.step) opened ended
          ∙ get_var_value_exact v.step v.mem (poke code addr a.size value) addr a.size aligned far
              s)
      ∙ if_false _ _ (ap not (test_eq a.indirect 0 direct))

  evaluate_var :
      (n : ℕ)
      → value_of float_of a.type_kind a.size stored ≡ (n, none)
      → evaluate_node env (var_node a id) no_flags ≡ done n none
  unfolding evaluate_node at_address
  evaluate_var n e =
      ap
        (λ o. elim o as (λ x. Result) [
          | none ↦ done 0 (some no_address)
          | some p ↦ at_address env no_flags a p none
        ])
        placed
      ∙ ap
          (λ (f : Option Error → Attributes → ℕ → ℕ × Option Error).
            let (x, y) = f none a addr in done x (later none y))
          given
      ∙ ap (λ (p : ℕ × Option Error). done p.0 (later none p.1)) (var_value-stored ∙ e)

  -- If the rows show, at a variable, a memory into which a number that fits was written there, each
  -- row starts a segment, the variable is not in the first segment of memory, its address is found,
  -- the query of its value succeeds, and its type is unsigned, of 1, 2, 4 or 8 bytes and without
  -- indirections, the expression that is the variable has that number as its value.
  pub evaluate_unsigned :
      a.type_kind ≡ kind_unsigned → evaluate_node env (var_node a id) no_flags ≡ done value none
  unfolding value_of
  evaluate_unsigned k = evaluate_var value (
      ap (λ k. value_of float_of k a.size stored) k
      ∙ if_true _ _ supported
      ∙ ap (λ n. (n, none)) unsigned_of-stored)

  -- If the rows show, at a variable, a memory into which the two's complement of an integer was
  -- written there, each row starts a segment, the variable is not in the first segment of memory,
  -- its address is found, the query of its value succeeds, and its type is signed, of 1, 2, 4 or 8
  -- bytes and without indirections, the expression that is the variable has the two's complement of
  -- that integer in 64 bits as its value.
  pub evaluate_signed :
      (text : Shown)
      → Complement a.size value text
      → a.type_kind ≡ kind_signed
      → (n : ℕ) × (evaluate_node env (var_node a id) no_flags ≡ done n none) × Complement 8 n text
  unfolding value_of
  evaluate_signed text c k = (
    widen a.size value,
    evaluate_var (widen a.size value) (
        ap (λ k. value_of float_of k a.size stored) k
        ∙ if_true _ _ supported
        ∙ ap (λ n. (widen a.size n, none)) unsigned_of-stored),
    widen_lem a.size value text (ground (arith, supported)) (ground (arith, supported)) c,
  )
