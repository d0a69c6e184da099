-- ===== src/Symbols/Collect.antt =====
-- The entries of a unit leave a tree of scopes.
use flightrec.Prelude.{ℕ, ◌+◌, inl, inr, refl, sym, ap, not, if_all}
use flightrec.Variables.Scopes.{global_scope}
use flightrec.Symbols.Entry.{
  FuncDie, BlockDie, Die, Dies, tag_error, variable, subprogram, lexical_block, some_type, ignored,
  unknown, chain_end, sibling, FuncRow, Tables, success, failure, overrun, Result, and_then,
}
use flightrec.Symbols.{
  Start, ended, covers, func_start, block_start, Opening, closed, entered, open_func, open_block,
  proc_symbols, proc_die,
}
use flightrec.Symbols.Forest.{IsWithin}
use flightrec.Symbols.Tree.{
  IsSymbols, IsAfter, IsWithin-kept, IsWithin-IsPlaced, proc_var-IsLeft, insert_scope-IsAfter,
}

and_then-IsAfter :
    (t : Tables) (r : Result) (go : Tables → Result)
    → IsAfter t r.0
    → ((u : Tables) → IsAfter t u → IsAfter t (go u).0)
    → IsAfter t (and_then r go).0
and_then-IsAfter t (u, success) go a next = next u a
and_then-IsAfter t (u, failure) go a next = a
and_then-IsAfter t (u, overrun) go a next = a

-- The scope that was opened is there, for its children.
abbrev IsOpened : Tables → ℕ → Opening → Type 0
IsOpened t depth (closed r) = IsAfter t r.0
IsOpened t depth (entered u) = IsAfter t u × IsWithin t.next_id (depth + 1) u.scopes

open_func-IsOpened :
    (f : FuncDie) (parent depth : ℕ) (b : Start) (t : Tables)
    → IsSymbols t
    → IsWithin parent depth t.scopes
    → IsOpened t depth (open_func f parent depth b t)
unfolding open_func
open_func-IsOpened f parent depth (ended w) t s p = (s, λ q m. m)
open_func-IsOpened f parent depth (covers lo hi) t s p =
    let (a, k) = insert_scope-IsAfter parent depth lo hi t s p in
    if_all (IsOpened t depth) (not f.scope_stored) _ _ (s, λ q m. m)
      (if_all (IsOpened t depth) (not f.func_stored) _ _ (a, k)
        (
          (
            record {
              forest = a.forest;
              vars = a.vars;
              funcs = λ g m. elim m [
                | inl e ↦ inr (_, inl refl, sym (ap (λ (x : FuncRow). x.scope_id) e))
                | inr n ↦ a.funcs g n
              ];
            },
            k,
          ),
          inr (_, inl refl, refl, refl),
        ))

open_block-IsOpened :
    (f : BlockDie) (parent depth : ℕ) (b : Start) (t : Tables)
    → IsSymbols t
    → IsWithin parent depth t.scopes
    → IsOpened t depth (open_block f parent depth b t)
unfolding open_block
open_block-IsOpened f parent depth (ended w) t s p = (s, λ q m. m)
open_block-IsOpened f parent depth (covers lo hi) t s p =
    if_all (IsOpened t depth) (not f.scope_stored) _ _ (s, λ q m. m)
      (insert_scope-IsAfter parent depth lo hi t s p, inr (_, inl refl, refl, refl))

inside-IsAfter :
    (t : Tables) (depth : ℕ) (o : Opening) (go : Tables → Result)
    → IsOpened t depth o
    → ((u : Tables) → IsSymbols u → IsWithin t.next_id (depth + 1) u.scopes → IsAfter u (go u).0)
    → IsAfter t (elim o as (λ x. Result) [ closed r ↦ r | entered u ↦ go u ]).0
inside-IsAfter t depth (closed r) go h next = h
inside-IsAfter t depth (entered u) go ((s, k), w) next =
    let (s', k') = next u s w in (s', λ q m. k' q (k q m))

mutual
  unfolding proc_symbols proc_die

  all-IsAfter :
      (ds : Dies) (base unit scope depth : ℕ) (t : Tables)
      → IsSymbols t
      → IsWithin scope depth t.scopes
      → IsAfter t (proc_symbols ds base unit scope depth t).0
  all-IsAfter (chain_end ok) base unit scope depth t s w = (s, λ q m. m)
  all-IsAfter (sibling d ds) base unit scope depth t s w =
      and_then-IsAfter t (proc_die d base unit scope depth t)
        (λ next. proc_symbols ds base unit scope depth next)
        (one-IsAfter d base unit scope depth t s w)
        (λ u a.
          let (s', k) =
            all-IsAfter ds base unit scope depth u a.0 (IsWithin-kept scope depth t u a.1 w) in
          (s', λ q m. k q (a.1 q m)))

  one-IsAfter :
      (d : Die) (base unit scope depth : ℕ) (t : Tables)
      → IsSymbols t
      → IsWithin scope depth t.scopes
      → IsAfter t (proc_die d base unit scope depth t).0
  one-IsAfter tag_error base unit scope depth t s w = (s, λ q m. m)
  one-IsAfter (variable d) base unit scope depth t s w =
      (proc_var-IsLeft d scope unit t s (IsWithin-IsPlaced scope depth t.scopes w)).after
  one-IsAfter (subprogram f ds) base unit scope depth t s w =
      inside-IsAfter t depth (open_func f scope depth (func_start f) t)
        (λ u. proc_symbols ds base unit t.next_id (depth + 1) u)
        (open_func-IsOpened f scope depth (func_start f) t s w)
        (λ u s' w'. all-IsAfter ds base unit t.next_id (depth + 1) u s' w')
  one-IsAfter (lexical_block b ds) base unit scope depth t s w =
      inside-IsAfter t depth (open_block b scope depth (block_start base b) t)
        (λ u. proc_symbols ds base unit t.next_id (depth + 1) u)
        (open_block-IsOpened b scope depth (block_start base b) t s w)
        (λ u s' w'. all-IsAfter ds base unit t.next_id (depth + 1) u s' w')
  one-IsAfter (some_type ok) base unit scope depth t s w = (s, λ q m. m)
  one-IsAfter ignored base unit scope depth t s w = (s, λ q m. m)
  one-IsAfter unknown base unit scope depth t s w = (s, λ q m. m)

-- For all entries of a unit, nested as they may be, and however it ends, errors included, if the
-- scopes in the tables form a tree in which all functions and variables lie, they do so afterwards,
-- and no scope is lost.
pub proc_symbols-IsSymbols :
    (ds : Dies) (base unit : ℕ) (t : Tables)
    → IsSymbols t
    → IsAfter t (proc_symbols ds base unit global_scope 0 t).0
proc_symbols-IsSymbols ds base unit t s =
    all-IsAfter ds base unit global_scope 0 t s (inl (refl, refl))
