-- ===== src/Expr/Value.antt =====
-- examine/expressions/expression.c: `var_value`, the value of a variable in an expression, which is
-- read from the recorded memory. What lies behind the buffer that `get_var_value` allocates, and the
-- processor's reading of a float, are given.
pub mod Stored
mod Tests
use flightrec.Prelude.{
  ℕ, ◌+◌, ◌-◌, ◌*◌, ◌^◌, List, ◌++◌, Bool, true, false, not, ◌||◌, Option, none, some, ltb, ◌==◌,
  if◌then◌else◌,
}
use flightrec.Lookup.{word}
use flightrec.Variables.{View, read_value, unsigned_of, is_word}
use flightrec.Expr.{
  Kind, kind_signed, kind_unsigned, kind_float, kind_pointer, kind_struct, kind_union, kind_array,
  kind_func, kind_class, kind_enum, Attributes, Error, value_error,
}

-- A number of so many bytes as one of 64 bits with the same sign.
abbrev pub widen : ℕ → ℕ → ℕ
widen size n = if ltb n (2 ^ (8 * size - 1)) then n else n + (word - 2 ^ (8 * size))

abbrev pub is_int_size : ℕ → Bool
is_int_size size = (size == 1) || is_word size

abbrev pub is_float_size : ℕ → Bool
is_float_size size = (size == 4) || ((size == 8) || (size == 16))

abbrev pub unsupported_value : ℕ × Option Error
unsupported_value = (0, some value_error)

-- The switch over the kind.
unfoldable pub value_of : (ℕ → List ℕ → ℕ) → Kind → ℕ → List ℕ → ℕ × Option Error
unfolding unsigned_of
value_of float_of kind_signed size mem =
    if is_int_size size then (widen size (unsigned_of size mem), none) else unsupported_value
value_of float_of kind_unsigned size mem =
    if is_int_size size then (unsigned_of size mem, none) else unsupported_value
value_of float_of kind_float size mem =
    if is_float_size size then (float_of size mem, none) else unsupported_value
value_of float_of _ size mem = unsupported_value

-- A value that is switched over is given up if a message was set before.
abbrev pub unless_set : Option Error → ℕ × Option Error → ℕ × Option Error
unless_set none result = result
unless_set (some old) result = (0, result.1)

-- `old` is the message so far; the one that comes back is what is set here. With an indirection 8 bytes
-- are read, whatever the size of the buffer is.
unfoldable pub var_value :
    (ℕ → List ℕ → ℕ) → List ℕ → View → Option Error → Attributes → ℕ → ℕ × Option Error
unfolding value_of unsigned_of
var_value float_of behind v old a addr = elim (read_value v addr a.size) [
  | none ↦ unsupported_value
  | some mem ↦
      if not (a.indirect == 0)
      then (unsigned_of 8 (mem ++ behind), none)
      else unless_set old (value_of float_of a.type_kind a.size mem)
]
