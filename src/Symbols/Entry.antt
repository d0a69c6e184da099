-- ===== src/Symbols/Entry.antt =====
-- record/dbginfo.c: what is read and what is written. A debug info entry is what libdwarf answers
-- about it; how the statements on the database go, and the functions for types, is part of the entry.
-- Names are numbers. An attribute's value is `none` where it is missing.
use flightrec.Prelude.{ℕ, ◌+◌, List, ◌∷◌, Bool, Option}

-- `line` is not initialised: without its attribute it is what the memory held.
pub record VarDie : Type 0 where
  pub offset_ok : Bool
  pub attrs_ok : Bool
  pub stored : Bool
  pub offset : ℕ
  pub name : Option ℕ
  pub type : Option ℕ
  pub artificial : Bool
  pub external : Bool
  pub specification : Option ℕ
  pub file : ℕ
  pub line : ℕ

pub record FuncDie : Type 0 where
  pub attrs_ok : Bool
  pub tag_ok : Bool
  pub scope_stored : Bool
  pub func_stored : Bool
  pub offset : ℕ
  pub name : Option ℕ
  pub low : Option ℕ
  pub high : Option ℕ
  pub external : Bool

-- `ranges` is the list for the attribute, or `none` if it cannot be had.
pub record BlockDie : Type 0 where
  pub attrs_ok : Bool
  pub scope_stored : Bool
  pub low : Option ℕ
  pub high : Option ℕ
  pub ranges : Option (Option (List (ℕ × ℕ)))

-- An entry with its children, and a chain of siblings, the end of which is an error or not.
mutual
  pub data Die : Type 0 where
    tag_error : Die
    variable : VarDie → Die
    subprogram : FuncDie → Dies → Die
    lexical_block : BlockDie → Dies → Die
    some_type : Bool → Die
    ignored : Die
    unknown : Die

  pub data Dies : Type 0 where
    chain_end : Bool → Dies
    sibling : Die → Dies → Dies

-- Rows of the tables `scope`, `function` and `var`, the ids of the last two left out.
pub record ScopeRow : Type 0 where
  pub id : ℕ
  pub parent : ℕ
  pub depth : ℕ
  pub start_addr : ℕ
  pub end_addr : ℕ

pub record FuncRow : Type 0 where
  pub name : ℕ
  pub scope_id : ℕ
  pub offset : ℕ

pub record SymbolRow : Type 0 where
  pub name : Option ℕ
  pub unit_id : ℕ
  pub type_offset : ℕ
  pub scope_id : ℕ
  pub offset : ℕ
  pub file_id : ℕ
  pub line : ℕ

-- The tables, the newest row first, with the id of the next scope (AUTOINCREMENT).
pub record Tables : Type 0 where
  pub scopes : List ScopeRow
  pub next_id : ℕ
  pub funcs : List FuncRow
  pub vars : List SymbolRow

-- `overrun` is a read outside of the list of ranges.
pub data Collected : Type 0 where
  success failure overrun : Collected

abbrev pub Result : Type 0
Result = Tables × Collected

abbrev pub and_then : Result → (Tables → Result) → Result
and_then (t, success) go = go t
and_then (t, failure) go = (t, failure)
and_then (t, overrun) go = (t, overrun)

abbrev pub insert_scope : ℕ → ℕ → ℕ × ℕ → Tables → Tables
insert_scope parent depth (lo, hi) t = record t {
  scopes =
      record { id = t.next_id; parent = parent; depth = depth; start_addr = lo; end_addr = hi }
      ∷ t.scopes;
  next_id = t.next_id + 1;
}

abbrev pub insert_func : ℕ → ℕ → ℕ → Tables → Tables
insert_func name scope offset t = record t {
  funcs = record { name = name; scope_id = scope; offset = offset } ∷ t.funcs;
}
