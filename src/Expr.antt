-- ===== src/Expr.antt =====
-- examine/expressions/expression.c: the evaluation of an expression's tree. A value of the union is
-- its 64 bits, as a number below 2^64; a signed operand is their reading in two's complement. What
-- the evaluation asks of the database, and the processor's arithmetic on doubles, is an interface.
pub mod Evaluate
pub mod Access
pub mod Cache
pub mod Logic
pub mod Value
mod Tests
use Prim.Native.Nat.{bit_and, bit_or, bit_xor}
use flightrec.Prelude.{
  ℕ, zero, suc, ◌+◌, ◌-◌, ◌*◌, ◌/◌, ◌%◌, ◌^◌, Bool, true, false, not, ◌&&◌, ◌||◌, Option, none,
  some, ltb, leb, ◌==◌, if◌then◌else◌,
}
use flightrec.Lookup.{word, sub64}

-- TKIND_XXX.
pub data Kind : Type 0 where
  kind_signed : Kind
  kind_unsigned : Kind
  kind_float : Kind
  kind_pointer : Kind
  kind_struct : Kind
  kind_union : Kind
  kind_array : Kind
  kind_func : Kind
  kind_class : Kind
  kind_enum : Kind

pub data UnaryOp : Type 0 where
  op_addr : UnaryOp
  op_deref : UnaryOp
  op_neg : UnaryOp
  op_inv : UnaryOp
  op_not : UnaryOp

pub data BinaryOp : Type 0 where
  op_mul : BinaryOp
  op_div : BinaryOp
  op_mod : BinaryOp
  op_add : BinaryOp
  op_sub : BinaryOp
  op_bit_and : BinaryOp
  op_xor : BinaryOp
  op_bit_or : BinaryOp
  op_left : BinaryOp
  op_right : BinaryOp
  op_and : BinaryOp
  op_or : BinaryOp
  op_lt : BinaryOp
  op_gt : BinaryOp
  op_le : BinaryOp
  op_ge : BinaryOp
  op_eq : BinaryOp
  op_neq : BinaryOp

-- The attributes of the data type of a node.
pub record Attributes : Type 0 where
  pub type_offset : ℕ
  pub type_kind : Kind
  pub size : ℕ
  pub indirect : ℕ

pub data Node : Type 0 where
  int_node : Attributes → ℕ → Node
  float_node : Attributes → ℕ → Node
  string_node : Attributes → ℕ → Node
  var_node : Attributes → ℕ → Node
  field_node : Attributes → Node → ℕ → Node
  item_node : Attributes → Node → Node → Node
  unary_node : Attributes → UnaryOp → Node → Node
  binary_node : Attributes → BinaryOp → Node → Node → Node
  type_node : Attributes → Node → Node

unfoldable pub attributes : Node → Attributes
attributes (int_node a v) = a
attributes (float_node a v) = a
attributes (string_node a v) = a
attributes (var_node a id) = a
attributes (field_node a object start) = a
attributes (item_node a object member) = a
attributes (unary_node a op left) = a
attributes (binary_node a op left right) = a
attributes (type_node a operand) = a

pub data Error : Type 0 where
  no_address : Error
  pointer_bounds : Error
  memory_released : Error
  array_bounds : Error
  no_array_size : Error
  invalid_operator : Error
  not_divisible : Error
  internal_error : Error
  value_error : Error

-- A value and the error message, which may be set together; or an operation that the processor
-- refuses or C leaves undefined: a division by zero or a shift by the width.
pub data Result : Type 0 where
  done : ℕ → Option Error → Result
  undefined : Result

-- What `get_pointer_size` returns.
pub data PointerSize : Type 0 where
  allocated : ℕ → PointerSize
  released : PointerSize
  not_found : PointerSize
  failure : PointerSize

-- The calls of the evaluation, for one step, and the operations on doubles. `var_value` is called with
-- the message so far, and gives one that it sets itself.
pub record Env : Type 0 where
  pub get_var_address : ℕ → Option ℕ
  pub var_value : Option Error → Attributes → ℕ → ℕ × Option Error
  pub get_type_size : ℕ → Option (ℕ × ℕ)
  pub get_pointer_size : ℕ → PointerSize
  pub float_op : BinaryOp → ℕ → ℕ → ℕ
  pub float_is_zero : ℕ → Bool
  pub float_to_unsigned : ℕ → ℕ
  pub float_to_signed : ℕ → ℕ
  pub unsigned_to_float : ℕ → ℕ
  pub signed_to_float : ℕ → ℕ

-- Signed operations on 64 bits.
abbrev pub half : ℕ
half = 2 ^ 63

abbrev pub signed_ltb : ℕ → ℕ → Bool
signed_ltb a b = ltb ((a + half) % word) ((b + half) % word)

abbrev pub magnitude : ℕ → ℕ
magnitude a = if ltb a half then a else word - a

abbrev pub negate : ℕ → ℕ
negate a = (word - a) % word

abbrev pub truth : Bool → ℕ
truth b = if b then 1 else 0

-- Division truncates, and the remainder has the sign of the dividend.
abbrev pub signed_div : ℕ → ℕ → Result
signed_div a b =
    let q = magnitude a / magnitude b in
    if (b == 0) || ((a == half) && (b == word - 1))
    then undefined
    else done
        (if ltb a half
          then (if ltb b half then q else negate q)
          else (if ltb b half then negate q else q))
        none

abbrev pub signed_mod : ℕ → ℕ → Result
signed_mod a b =
    let r = magnitude a % magnitude b in
    if (b == 0) || ((a == half) && (b == word - 1))
    then undefined
    else done (if ltb a half then r else negate r) none

unfoldable pub signed_bin_op : BinaryOp → ℕ → ℕ → Result
signed_bin_op op_mul a b = done (a * b % word) none
signed_bin_op op_div a b = signed_div a b
signed_bin_op op_add a b = done ((a + b) % word) none
signed_bin_op op_sub a b = done (sub64 a b) none
signed_bin_op op_mod a b = signed_mod a b
signed_bin_op op_lt a b = done (truth (signed_ltb a b)) none
signed_bin_op op_gt a b = done (truth (signed_ltb b a)) none
signed_bin_op op_le a b = done (truth (not (signed_ltb b a))) none
signed_bin_op op_ge a b = done (truth (not (signed_ltb a b))) none
signed_bin_op op_eq a b = done (truth (a == b)) none
signed_bin_op op_neq a b = done (truth (not (a == b))) none
signed_bin_op _ a b = done 0 (some internal_error)

unfoldable pub unsigned_bin_op : BinaryOp → ℕ → ℕ → Result
unsigned_bin_op op_mul a b = done (a * b % word) none
unsigned_bin_op op_div a b = if b == 0 then undefined else done (a / b) none
unsigned_bin_op op_add a b = done ((a + b) % word) none
unsigned_bin_op op_sub a b = done (sub64 a b) none
unsigned_bin_op op_lt a b = done (truth (ltb a b)) none
unsigned_bin_op op_gt a b = done (truth (ltb b a)) none
unsigned_bin_op op_le a b = done (truth (leb a b)) none
unsigned_bin_op op_ge a b = done (truth (leb b a)) none
unsigned_bin_op op_eq a b = done (truth (a == b)) none
unsigned_bin_op op_neq a b = done (truth (not (a == b))) none
unsigned_bin_op op_bit_and a b = done (bit_and a b) none
unsigned_bin_op op_bit_or a b = done (bit_or a b) none
unsigned_bin_op op_xor a b = done (bit_xor a b) none
unsigned_bin_op op_left a b = if leb 64 b then undefined else done (a * 2 ^ b % word) none
unsigned_bin_op op_right a b = if leb 64 b then undefined else done (a / 2 ^ b) none
unsigned_bin_op _ a b = done 0 (some internal_error)

-- No integer-only operator on doubles.
unfoldable pub float_bin_op : Env → BinaryOp → ℕ → ℕ → Result
float_bin_op env op_mod a b = done 0 (some internal_error)
float_bin_op env op_bit_and a b = done 0 (some internal_error)
float_bin_op env op_xor a b = done 0 (some internal_error)
float_bin_op env op_bit_or a b = done 0 (some internal_error)
float_bin_op env op_left a b = done 0 (some internal_error)
float_bin_op env op_right a b = done 0 (some internal_error)
float_bin_op env op_and a b = done 0 (some internal_error)
float_bin_op env op_or a b = done 0 (some internal_error)
float_bin_op env op a b = done (env.float_op op a b) none
