-- ===== src/Symbols/Tests.antt =====
-- A unit with a function, in which there are a parameter and a block with a variable of its own.
use flightrec.Prelude.{
  ◌+◌, ◌≡◌, inl, refl, [], ◌∷◌, ◌++◌, true, false, none, some, replicate, arith,
}
use flightrec.Query.{In}
use flightrec.Variables.Scopes.{ScopedVar, global_scope, local_rows}
use flightrec.Symbols.Entry.{
  VarDie, FuncDie, BlockDie, Dies, ScopeRow, Tables, variable, subprogram, lexical_block, ignored,
  chain_end, sibling,
}
use flightrec.Symbols.{
  proc_symbols, proc_die, open_func, open_block, func_start, block_start, covered, range_bounds,
  scope_end, proc_var, store_var,
}
use flightrec.Symbols.Tree.{IsSymbols, IsAfter}
use flightrec.Symbols.Collect.{proc_symbols-IsSymbols}
use flightrec.Symbols.Ancestors.{scope_ancestor, block_variable_repeated}

abbrev empty_tables : Tables
empty_tables = record { scopes = []; next_id = 1; funcs = []; vars = [] }

empty-IsSymbols : IsSymbols empty_tables
empty-IsSymbols = record {
  forest = omega arith;
  vars = λ v m. elim m [ ];
  funcs = λ f m. elim m [ ];
}

abbrev int_var : VarDie
int_var = record {
  offset_ok = true;
  attrs_ok = true;
  stored = true;
  offset = 70;
  name = some 30;
  type = some 5;
  artificial = false;
  external = false;
  specification = none;
  file = 1;
  line = 12;
}

abbrev main_func : FuncDie
main_func = record {
  attrs_ok = true;
  tag_ok = true;
  scope_stored = true;
  func_stored = true;
  offset = 50;
  name = some 40;
  low = some 4096;
  high = some 64;
  external = true;
}

abbrev for_block : BlockDie
for_block = record {
  attrs_ok = true;
  scope_stored = true;
  low = none;
  high = none;
  ranges = some (some ((16, 20) ∷ (24, 32) ∷ (0, 0) ∷ []));
}

abbrev one_var : Dies
one_var = sibling (variable int_var) (chain_end true)

abbrev unit_dies : Dies
unit_dies = sibling ignored (
    sibling
      (subprogram main_func
        (sibling (variable int_var) (sibling (lexical_block for_block one_var) (chain_end true))))
      (chain_end true))

abbrev block_scope : ScopeRow
block_scope = record { id = 2; parent = 1; depth = 1; start_addr = 4112; end_addr = 4128 }

abbrev func_scope : ScopeRow
func_scope = record { id = 1; parent = 0; depth = 0; start_addr = 4096; end_addr = 4160 }

unit_run :
    (proc_symbols unit_dies 4096 7 global_scope 0 empty_tables).0.scopes
    ≡ block_scope ∷ func_scope ∷ []
unfolding proc_symbols proc_die open_func open_block func_start block_start covered range_bounds
    scope_end proc_var store_var
unit_run = refl

proc_symbols-IsSymbols_example :
    IsAfter empty_tables (proc_symbols unit_dies 4096 7 global_scope 0 empty_tables).0
proc_symbols-IsSymbols_example =
    proc_symbols-IsSymbols unit_dies 4096 7 empty_tables empty-IsSymbols

abbrev block_var : ScopedVar
block_var = record { id = 9; scope_id = 2; file_id = 1; line = 10 }

block_scope-In : In block_scope (proc_symbols unit_dies 4096 7 global_scope 0 empty_tables).0.scopes
unfolding proc_symbols proc_die open_func open_block func_start block_start covered range_bounds
    scope_end proc_var store_var
block_scope-In = inl refl

block_variable_repeated_example :
    local_rows
      ([] ++ (block_var ∷ []))
      (scope_ancestor (proc_symbols unit_dies 4096 7 global_scope 0 empty_tables).0.scopes)
      2
    ≡ local_rows []
        (scope_ancestor (proc_symbols unit_dies 4096 7 global_scope 0 empty_tables).0.scopes)
        2
      ++ (replicate (1 + 1) block_var
          ++ local_rows []
              (scope_ancestor (proc_symbols unit_dies 4096 7 global_scope 0 empty_tables).0.scopes)
              2)
block_variable_repeated_example =
    block_variable_repeated unit_dies 4096 7 empty_tables [] [] block_var block_scope
      empty-IsSymbols block_scope-In refl
