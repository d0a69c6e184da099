-- ===== src/Expr/Evaluate.antt =====
-- examine/expressions/expression.c: `evaluate_node`. The error message is set by whoever finds an
-- error first or last, and a value comes with it where the code does not look at the message.
use flightrec.Prelude.{
  ℕ, ◌+◌, ◌-◌, ◌*◌, ◌/◌, ◌%◌, Bool, true, false, not, ◌&&◌, ◌||◌, Option, none, some, leb, ◌==◌,
  if◌then◌else◌,
}
use flightrec.Lookup.{word, sub64}
use flightrec.Expr.{
  Kind, kind_signed, kind_unsigned, kind_float, kind_struct, kind_union, kind_array, UnaryOp,
  op_addr, op_deref, op_neg, op_inv, op_not, BinaryOp, op_add, op_sub, op_and, op_or, Attributes,
  Node, attributes, int_node, float_node, string_node, var_node, field_node, item_node, unary_node,
  binary_node, type_node, Error, no_address, pointer_bounds, memory_released, array_bounds,
  no_array_size, invalid_operator, not_divisible, internal_error, Result, done, undefined,
  allocated, released, not_found, failure, Env, signed_bin_op, unsigned_bin_op, float_bin_op,
  negate, truth,
}

-- FLAG_ADDR asks for the address, NO_FLAGS for the value.
pub data Flag : Type 0 where
  flag_addr : Flag
  no_flags : Flag

-- Going on only if no error is set, with 0 otherwise.
abbrev pub check : Result → (ℕ → Result) → Result
check undefined next = undefined
check (done v (some e)) next = done 0 (some e)
check (done v none) next = next v

-- A message set later replaces an earlier one.
abbrev pub later : Option Error → Option Error → Option Error
later old none = old
later old (some e) = some e

-- The value at an address, or the address itself; `old` is the message so far.
unfoldable pub at_address : Env → Flag → Attributes → ℕ → Option Error → Result
at_address env flag_addr a addr old = done addr old
at_address env no_flags a addr old = let (v, e) = env.var_value old a addr in done v (later old e)

abbrev pub is_signed : Kind → Bool
is_signed kind_signed = true
is_signed _ = false

abbrev pub is_float : Kind → Bool
is_float kind_float = true
is_float _ = false

abbrev pub is_aggregate : Kind → Bool
is_aggregate kind_array = true
is_aggregate kind_struct = true
is_aggregate kind_union = true
is_aggregate _ = false

abbrev pub is_pointer : Attributes → Bool
is_pointer a = not (a.indirect == 0)

-- The checks on an item: through a pointer against the allocation, otherwise against the array.
unfoldable pub item_error : Env → Attributes → ℕ → ℕ → Option Error → Result
item_error env object addr index old = elim (env.get_type_size object.type_offset) [
  | none ↦ done 0 (some no_array_size)
  | some s ↦
      if (s.1 == 0) || is_pointer object
      then elim (env.get_pointer_size addr) [
        | allocated bytes ↦
            if bytes == 0
            then done 0 old
            else if s.0 == 0
            then undefined
            else if leb (bytes / s.0) index
            then done 0 (some pointer_bounds)
            else done 0 old
        | released ↦ done 0 (some memory_released)
        | not_found ↦ done 0 old
        | failure ↦ done 0 old
      ]
      else if leb s.1 index
      then done 0 (some array_bounds)
      else done 0 old
]

-- `addr` comes without an error, and `index` with its message, which is not looked at.
unfoldable pub item_access : Env → Flag → Attributes → Attributes → ℕ → Result → Result
unfolding item_error at_address
item_access env flag a object addr undefined = undefined
item_access env flag a object addr (done index old) = elim (item_error env object addr index old) [
  | undefined ↦ undefined
  | done v e ↦ at_address env flag a ((addr + index * a.size) % word) e
]

unfoldable pub unary_op : Env → Flag → Attributes → UnaryOp → Result → Result
unfolding at_address
unary_op env flag a op undefined = undefined
unary_op env flag a op_addr (done v e) = done v e
unary_op env flag a op_deref (done v e) = at_address env flag a v e
unary_op env flag a op_neg (done v e) = done (negate v) e
unary_op env flag a op_inv (done v e) = done (word - 1 - v) e
unary_op env flag a op_not (done v e) = done (truth (v == 0)) e

abbrev pub is_add : BinaryOp → Bool
is_add op_add = true
is_add _ = false

abbrev pub is_sub : BinaryOp → Bool
is_sub op_sub = true
is_sub _ = false

-- The test on the operator and the second operand. `!!` leaves the test of the subtraction as it is.
abbrev pub is_rejected : BinaryOp → Attributes → Bool
is_rejected op right =
    not (is_add op && is_signed right.type_kind)
    && not (not (is_sub op && (is_signed right.type_kind || is_pointer right)))

-- The difference of two pointers, an `int64_t`, is divided by a `size_t`, so it counts as unsigned.
abbrev pub pointer_difference : ℕ → ℕ → Result
pointer_difference size diff =
    if size == 0
    then undefined
    else if diff % size == 0
    then done (diff / size) none
    else done 0 (some not_divisible)

unfoldable pub pointer_op : BinaryOp → Attributes → Attributes → Result → Result → Result
pointer_op op left right x y =
    if is_rejected op right
    then done 0 (some invalid_operator)
    else check x (λ p. check y (λ v.
      if is_signed right.type_kind
      then (if is_add op
          then done ((p + v * left.size) % word) none
          else done (sub64 p (v * left.size % word)) none)
      else pointer_difference left.size (sub64 p v)))

-- Whether an operand of AND and OR counts as true.
abbrev pub is_true : Env → Attributes → ℕ → Bool
is_true env a v = if is_float a.type_kind then not (env.float_is_zero v) else not (v == 0)

unfoldable pub logic_op : Env → Bool → Attributes → Attributes → Result → Result → Result
logic_op env conjunction left right x y = check x (λ v.
    if conjunction && not (is_true env left v)
    then done 0 none
    else if not conjunction && is_true env left v
    then done 1 none
    else check y (λ w. done (truth (is_true env right w)) none))

unfoldable pub number_op :
    Env → Attributes → BinaryOp → Attributes → Attributes → Result → Result → Result
unfolding signed_bin_op unsigned_bin_op float_bin_op
number_op env a op left right x y = check x (λ v. check y (λ w.
    if is_float a.type_kind
    then float_bin_op env op v w
    else if is_signed left.type_kind || is_signed right.type_kind
    then signed_bin_op op v w
    else unsigned_bin_op op v w))

unfoldable pub binary_op :
    Env → Attributes → BinaryOp → Attributes → Attributes → Result → Result → Result
unfolding pointer_op logic_op number_op
binary_op env a op left right x y =
    if is_pointer left then pointer_op op left right x y else elim op [
      | op_and ↦ logic_op env true left right x y
      | op_or ↦ logic_op env false left right x y
      | other ↦ number_op env a other left right x y
    ]

-- The conversion to the type of the node. An aggregate operand comes as its address.
unfoldable pub cast_value : Env → Attributes → Attributes → ℕ → Result
cast_value env a operand v = if is_pointer a then done v none else elim (a.type_kind) [
  | kind_unsigned ↦
      done
        (if not (is_pointer operand) && is_float operand.type_kind
          then env.float_to_unsigned v
          else v)
        none
  | kind_signed ↦
      done
        (if not (is_pointer operand) && is_float operand.type_kind
          then env.float_to_signed v
          else v)
        none
  | kind_float ↦ elim (operand.type_kind) [
    | kind_unsigned ↦ done (env.unsigned_to_float v) none
    | kind_signed ↦ done (env.signed_to_float v) none
    | _ ↦ done v none
  ]
  | _ ↦ done 0 (some internal_error)
]

unfoldable pub evaluate_node : Env → Node → Flag → Result
unfolding at_address item_access unary_op binary_op cast_value attributes
evaluate_node env (int_node a v) flag = done v none
evaluate_node env (float_node a v) flag = done v none
evaluate_node env (string_node a v) flag = done v none
evaluate_node env (var_node a id) flag = elim (env.get_var_address id) [
  | none ↦ done 0 (some no_address)
  | some addr ↦ at_address env flag a addr none
]
evaluate_node env (field_node a object start) flag =
    check (evaluate_node env object flag_addr)
      (λ addr. at_address env flag a ((addr + start) % word) none)
evaluate_node env (item_node a object member) flag =
    let value = evaluate_node env object no_flags in
    let place = evaluate_node env object flag_addr in
    let index = evaluate_node env member no_flags in
    check (if is_pointer (attributes object) then value else place)
      (λ addr. item_access env flag a (attributes object) addr index)
evaluate_node env (unary_node a op_addr left) flag = evaluate_node env left flag_addr
evaluate_node env (unary_node a op_deref left) flag =
    unary_op env flag a op_deref (evaluate_node env left no_flags)
evaluate_node env (unary_node a op_neg left) flag =
    unary_op env flag a op_neg (evaluate_node env left no_flags)
evaluate_node env (unary_node a op_inv left) flag =
    unary_op env flag a op_inv (evaluate_node env left no_flags)
evaluate_node env (unary_node a op_not left) flag =
    unary_op env flag a op_not (evaluate_node env left no_flags)
evaluate_node env (binary_node a op left right) flag =
    binary_op env a op (attributes left) (attributes right) (evaluate_node env left no_flags)
      (evaluate_node env right no_flags)
evaluate_node env (type_node a operand) flag =
    let value = evaluate_node env operand no_flags in
    let place = evaluate_node env operand flag_addr in
    check (if is_aggregate (attributes operand).type_kind then place else value)
      (λ v. cast_value env a (attributes operand) v)
