-- ===== src/Expr/Tests.antt =====
-- Runs of the evaluation on an array of four numbers at address 64, which read as their address.
use flightrec.Prelude.{ℕ, zero, suc, ◌-◌, ◌≡◌, ◌≢◌, ◌<◌, refl, true, Option, none, some, arith, ◌%◌}
use flightrec.Lookup.{word}
use flightrec.Expr.{
  kind_array, kind_pointer, op_sub, Attributes, Node, attributes, int_node, var_node, item_node,
  binary_node, Env, not_found, array_bounds, invalid_operator, done, signed_bin_op, unsigned_bin_op,
  float_bin_op,
}
use flightrec.Expr.Evaluate.{
  no_flags, flag_addr, evaluate_node, at_address, item_access, item_error, binary_op, number_op,
  logic_op, pointer_op,
}
use flightrec.Expr.Logic.{
  literal, plus, times, tree, meaning, unsigned_long, evaluate_sum, pointer_difference_refused,
}
use flightrec.Expr.Access.{item_within_array}

program : Unit {0}
unfolding evaluate_node attributes at_address item_access item_error binary_op number_op logic_op
    pointer_op tree meaning signed_bin_op unsigned_bin_op float_bin_op
program = tt

abbrev if_known : ℕ → Option ℕ
if_known zero = none
if_known (suc id) = some 64

abbrev database : Env
database = record {
  get_var_address = if_known;
  var_value = λ old a addr. (addr, none);
  get_type_size = λ offset. some (8, 4);
  get_pointer_size = λ addr. not_found;
  float_op = λ op a b. 0;
  float_is_zero = λ a. true;
  float_to_unsigned = λ a. 0;
  float_to_signed = λ a. 0;
  unsigned_to_float = λ a. 0;
  signed_to_float = λ a. 0;
}

abbrev array_of_long : Attributes
array_of_long = record { type_offset = 1; type_kind = kind_array; size = 32; indirect = 0 }

abbrev pointer_to_long : Attributes
pointer_to_long = record { type_offset = 2; type_kind = kind_pointer; size = 8; indirect = 1 }

abbrev number : ℕ → Node
number n = int_node unsigned_long n

abbrev array_item : ℕ → Node
array_item i = item_node unsigned_long (var_node array_of_long 1) (number i)

-- Item 3 is at 64 + 3 * 8; item 4 is an error, which comes with the value read there.
item_run : evaluate_node database (array_item 3) no_flags ≡ done 88 none
unfolding program
item_run = refl

item_out_run : evaluate_node database (array_item 4) no_flags ≡ done 96 (some array_bounds)
unfolding program
item_out_run = refl

array_place : evaluate_node database (var_node array_of_long 1) flag_addr ≡ done 64 none
unfolding program
array_place = refl

array_plain : (attributes (var_node array_of_long 1)).indirect ≡ 0
unfolding program
array_plain = refl

array_size :
    database.get_type_size (attributes (var_node array_of_long 1)).type_offset ≡ some (8, 4)
array_size = refl

item_index : evaluate_node database (number 3) no_flags ≡ done 3 none
unfolding program
item_index = refl

item_within_array_example : 3 < 4
item_within_array_example =
    item_within_array database unsigned_long (var_node array_of_long 1) (number 3) no_flags 88 64 3
      8 4 none array_plain array_size (λ e. omega arith) array_place item_index item_run

sum_run :
    evaluate_node database
      (tree (plus (literal (word - 1)) (times (literal 3) (literal 5))))
      no_flags
    ≡ done 14 none
unfolding program
sum_run = refl

evaluate_sum_example :
    evaluate_node database (tree (plus (literal 7) (times (literal 3) (literal 5)))) no_flags
    ≡ done (meaning (plus (literal 7) (times (literal 3) (literal 5))) % word) none
evaluate_sum_example =
    evaluate_sum database (plus (literal 7) (times (literal 3) (literal 5))) no_flags

zero_run : evaluate_node database (number 0) no_flags ≡ done 0 none
unfolding program
zero_run = refl

pointer_indirect : (attributes (var_node pointer_to_long 1)).indirect ≢ 0
unfolding program
pointer_indirect e = omega arith

pointer_difference_refused_example :
    evaluate_node database
      (binary_node unsigned_long op_sub (var_node pointer_to_long 1) (var_node pointer_to_long 1))
      no_flags
    ≡ done 0 (some invalid_operator)
pointer_difference_refused_example =
    pointer_difference_refused database unsigned_long (var_node pointer_to_long 1)
      (var_node pointer_to_long 1) no_flags pointer_indirect pointer_indirect
