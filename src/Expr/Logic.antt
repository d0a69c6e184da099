-- ===== src/Expr/Logic.antt =====
-- What the evaluation computes on numbers and in conditions.
use native.Mathlib.Nat.{add-mod, mod-add-div, add-mul-mod_self_left}
use flightrec.Prelude.{
  ℕ, ◌+◌, ◌*◌, ◌/◌, ◌%◌, ◌≡◌, ◌≢◌, refl, sym, ◌∙◌, ap, Bool, true, false, not, ◌&&◌, ◌||◌, none,
  some, arith, Bool-cases, if_true, if_false, test_eq, test_ne, ◌⊎◌, inl, inr,
}
use flightrec.Lookup.{word}
use flightrec.Expr.{
  kind_unsigned, op_add, op_mul, op_and, op_or, op_sub, Attributes, Node, attributes, int_node,
  binary_node, Result, done, Env, unsigned_bin_op, truth, invalid_operator,
}
use flightrec.Expr.Evaluate.{
  Flag, no_flags, evaluate_node, binary_op, number_op, pointer_op, logic_op, is_pointer, is_true,
  is_signed,
}

-- Arithmetic as it is meant, on numbers of any size.
pub data Sum : Type 0 where
  literal : ℕ → Sum
  plus : Sum → Sum → Sum
  times : Sum → Sum → Sum

unfoldable pub meaning : Sum → ℕ
meaning (literal n) = n
meaning (plus a b) = meaning a + meaning b
meaning (times a b) = meaning a * meaning b

-- The `unsigned long` type, and the trees that the parser builds for sums over it.
abbrev pub unsigned_long : Attributes
unsigned_long = record { type_offset = 0; type_kind = kind_unsigned; size = 8; indirect = 0 }

unfoldable pub tree : Sum → Node
tree (literal n) = int_node unsigned_long (n % word)
tree (plus a b) = binary_node unsigned_long op_add (tree a) (tree b)
tree (times a b) = binary_node unsigned_long op_mul (tree a) (tree b)

tree-attributes : (s : Sum) → attributes (tree s) ≡ unsigned_long
unfolding tree attributes
tree-attributes (literal n) = refl
tree-attributes (plus a b) = refl
tree-attributes (times a b) = refl

mul-mod_left : (a b m : ℕ) → a % m * b % m ≡ a * b % m
mul-mod_left a b m =
    let e = mod-add-div a m in
    let k : a * b ≡ a % m * b + m * (a / m * b) = ap (λ n. n * b) (sym e) ∙ grind arith in
    sym (ap (λ n. n % m) k ∙ add-mul-mod_self_left (a % m * b) m (a / m * b))

mul-mod : (a b m : ℕ) → a % m * (b % m) % m ≡ a * b % m
mul-mod a b m =
    mul-mod_left a (b % m) m
    ∙ ap (λ n. n % m) (omega arith)
    ∙ mul-mod_left b a m
    ∙ ap (λ n. n % m) (omega arith)

-- Sums and products of unsigned numbers are computed without an error, modulo 2^64.
pub evaluate_sum :
    (env : Env) (s : Sum) (flag : Flag)
    → evaluate_node env (tree s) flag ≡ done (meaning s % word) none
unfolding evaluate_node tree meaning binary_op number_op unsigned_bin_op
evaluate_sum env (literal n) flag = refl
evaluate_sum env (plus a b) flag =
    rw
      (
        tree-attributes a,
        tree-attributes b,
        evaluate_sum env a no_flags,
        evaluate_sum env b no_flags,
      )
      (ap (λ n. done n none) (sym (add-mod (meaning a) (meaning b) word)))
evaluate_sum env (times a b) flag =
    rw
      (
        tree-attributes a,
        tree-attributes b,
        evaluate_sum env a no_flags,
        evaluate_sum env b no_flags,
      )
      (ap (λ n. done n none) (mul-mod (meaning a) (meaning b) word))

pub not-pointer : (a : Attributes) → a.indirect ≡ 0 → is_pointer a ≡ false
not-pointer a e = ap not (test_eq a.indirect 0 e)

pub a-pointer : (a : Attributes) → a.indirect ≢ 0 → is_pointer a ≡ true
a-pointer a h = ap not (test_ne a.indirect 0 h)

module _ (env : Env) (left right : Attributes) (v w : ℕ) where
  logic_op-and :
      (y : Result)
      → (is_true env left v ≡ false) ⊎ (y ≡ done w none)
      → logic_op env true left right (done v none) y
        ≡ done (truth (is_true env left v && is_true env right w)) none
  unfolding logic_op
  logic_op-and y (inl e) = rw e refl
  logic_op-and y (inr k) = elim (Bool-cases (is_true env left v)) [
    | inl e ↦ rw (e, k) refl
    | inr e ↦ rw e refl
  ]

  logic_op-or :
      (y : Result)
      → (is_true env left v ≡ true) ⊎ (y ≡ done w none)
      → logic_op env false left right (done v none) y
        ≡ done (truth (is_true env left v || is_true env right w)) none
  unfolding logic_op
  logic_op-or y (inl e) = rw e refl
  logic_op-or y (inr k) = elim (Bool-cases (is_true env left v)) [
    | inl e ↦ rw e refl
    | inr e ↦ rw (e, k) refl
  ]

module _ (env : Env) (a : Attributes) (left right : Node) (flag : Flag)
    (plain : (attributes left).indirect ≡ 0) (v w : ℕ)
    (e : evaluate_node env left no_flags ≡ done v none) where
  -- If the left operand, not a pointer, is computed without an error, AND is the conjunction where
  -- the right one is computed as well, and is false without the right one where the left one is false.
  pub evaluate_and :
      (is_true env (attributes left) v ≡ false) ⊎ (evaluate_node env right no_flags ≡ done w none)
      → evaluate_node env (binary_node a op_and left right) flag
        ≡ done (truth (is_true env (attributes left) v && is_true env (attributes right) w)) none
  unfolding evaluate_node binary_op
  evaluate_and h =
      if_false _ _ (not-pointer (attributes left) plain)
      ∙ ap
          (λ x.
            logic_op env true (attributes left) (attributes right) x
              (evaluate_node env right no_flags))
          e
      ∙ logic_op-and env (attributes left) (attributes right) v w (evaluate_node env right no_flags)
          h

  -- If the left operand, not a pointer, is computed without an error, OR is the disjunction
  -- where the right one is computed as well, and is true without the right one where the left
  -- one is true.
  pub evaluate_or :
      (is_true env (attributes left) v ≡ true) ⊎ (evaluate_node env right no_flags ≡ done w none)
      → evaluate_node env (binary_node a op_or left right) flag
        ≡ done (truth (is_true env (attributes left) v || is_true env (attributes right) w)) none
  unfolding evaluate_node binary_op
  evaluate_or h =
      if_false _ _ (not-pointer (attributes left) plain)
      ∙ ap
          (λ x.
            logic_op env false (attributes left) (attributes right) x
              (evaluate_node env right no_flags))
          e
      ∙ logic_op-or env (attributes left) (attributes right) v w (evaluate_node env right no_flags)
          h

-- The difference of two pointers is refused as an invalid operation, whatever they point to.
pub pointer_difference_refused :
    (env : Env) (a : Attributes) (left right : Node) (flag : Flag)
    → (attributes left).indirect ≢ 0
    → (attributes right).indirect ≢ 0
    → evaluate_node env (binary_node a op_sub left right) flag ≡ done 0 (some invalid_operator)
unfolding evaluate_node binary_op pointer_op
pointer_difference_refused env a left right flag h k =
    if_true _ _ (a-pointer (attributes left) h)
    ∙ if_true _ _ (
        refused (is_signed (attributes right).type_kind) (is_pointer (attributes right))
          (a-pointer (attributes right) k))
  where
    refused : (s p : Bool) → p ≡ true → (not (false && s) && not (not (true && (s || p)))) ≡ true
    refused s p e = ground arith
