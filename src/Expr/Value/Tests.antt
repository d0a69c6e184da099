-- ===== src/Expr/Value/Tests.antt =====
-- Variables that are read from one row of memory.
use flightrec.Prelude.{ℕ, ◌≡◌, refl, List, [], ◌∷◌, true, none, some, arith}
use flightrec.Run.{poke}
use flightrec.Variables.{View, minus}
use flightrec.Variables.Samples.{view_of, zeros, row_of, row_of-IsAligned, row_of-Shows}
use flightrec.Variables.Entry.Numbers.{Complement, negative}
use flightrec.Expr.{kind_signed, Attributes, var_node, Env, not_found, done}
use flightrec.Expr.Evaluate.{no_flags, evaluate_node}
use flightrec.Expr.Value.{var_value}
use flightrec.Expr.Value.Stored.{evaluate_signed}

abbrev no_float : ℕ → List ℕ → ℕ
no_float size mem = 0

-- A `short` of the value -7.
abbrev short_view : View
short_view = view_of (row_of (poke zeros 64 2 65529) ∷ [])

abbrev short_type : Attributes
short_type = record { type_offset = 1; type_kind = kind_signed; size = 2; indirect = 0 }

abbrev short_env : Env
short_env = record {
  get_var_address = λ id. some 64;
  var_value = var_value no_float [] short_view;
  get_type_size = λ offset. none;
  get_pointer_size = λ addr. not_found;
  float_op = λ op a b. 0;
  float_is_zero = λ a. true;
  float_to_unsigned = λ a. 0;
  float_to_signed = λ a. 0;
  unsigned_to_float = λ a. 0;
  signed_to_float = λ a. 0;
}

evaluate_signed_example :
    (n : ℕ) × (evaluate_node short_env (var_node short_type 1) no_flags ≡ done n none)
    × Complement 8 n (minus 7)
evaluate_signed_example =
    evaluate_signed no_float [] short_view short_env short_type 1 64 zeros 65529 refl refl refl refl
      (row_of-IsAligned (poke zeros 64 2 65529)) (omega arith) (omega arith)
      (row_of-Shows (poke zeros 64 2 65529) 2 (omega arith)) refl refl (minus 7)
      (negative 2 65529 7 (omega arith) (omega arith)) refl
