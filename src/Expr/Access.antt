-- ===== src/Expr/Access.antt =====
-- Access to the items of an array and of allocated memory.
use flightrec.Prelude.{
  ℕ, ◌+◌, ◌*◌, ◌%◌, ◌≡◌, ◌≢◌, ◌≤◌, ◌<◌, refl, sym, ◌∙◌, true, Option, none, some, leb, arith,
  test_eq, test_ne, dec_lt,
}
use flightrec.Lookup.{word}
use flightrec.Expr.{Attributes, Error, done, Env, array_bounds, Node, attributes, item_node}
use flightrec.Expr.Logic.{not-pointer}
use flightrec.Expr.Evaluate.{
  Flag, no_flags, flag_addr, item_error, item_access, at_address, later, evaluate_node,
}

-- An error that is set stays set.
at_address-some :
    (env : Env) (flag : Flag) (a : Attributes) (addr v : ℕ) (e : Error)
    → at_address env flag a addr (some e) ≢ done v none
unfolding at_address
at_address-some env flag_addr a addr v e k = absurd (cc)
at_address-some env no_flags a addr v e k = step (env.var_value (some e) a addr).1 k
  where
    step :
        (o : Option Error)
        → done (env.var_value (some e) a addr).0 (later (some e) o) ≡ done v none
        → ⊥
    step none k' = absurd (cc)
    step (some x) k' = absurd (cc)

item_error-array :
    (env : Env) (object : Attributes) (addr index size dim : ℕ) (old : Option Error)
    → object.indirect ≡ 0
    → env.get_type_size object.type_offset ≡ some (size, dim)
    → dim ≢ 0
    → dim ≤ index
    → item_error env object addr index old ≡ done 0 (some array_bounds)
unfolding item_error
item_error-array env object addr index size dim old plain known some_dim beyond =
    let out : leb dim index ≡ true = ground arith in
    rw (item_error, known, test_ne dim 0 some_dim, test_eq object.indirect 0 plain, out) refl

-- For an array, not a pointer, of known length other than 0, whose address is computed without an
-- error, and an index that is computed: if the evaluation of the item ends without an error, the
-- index is within the array.
pub item_within_array :
    (env : Env) (a : Attributes) (object member : Node) (flag : Flag) (v addr index size dim : ℕ)
    (e : Option Error)
    → (attributes object).indirect ≡ 0
    → env.get_type_size (attributes object).type_offset ≡ some (size, dim)
    → dim ≢ 0
    → evaluate_node env object flag_addr ≡ done addr none
    → evaluate_node env member no_flags ≡ done index e
    → evaluate_node env (item_node a object member) flag ≡ done v none
    → index < dim
unfolding evaluate_node item_access
item_within_array env a object member flag v addr index size dim e plain known some_dim place there
      ok =
    elim (dec_lt index dim) [
      | yes within ↦ within
      | no beyond ↦
          let out =
            item_error-array env (attributes object) addr index size dim e plain known some_dim
              (omega arith) in
          let failing : evaluate_node env (item_node a object member) flag
              ≡ at_address env flag a ((addr + index * a.size) % word) (some array_bounds) =
            rw (not-pointer (attributes object) plain, place, there, item_access, out) refl in
          absurd (
            at_address-some env flag a ((addr + index * a.size) % word) v array_bounds
              (sym failing ∙ ok))
    ]
