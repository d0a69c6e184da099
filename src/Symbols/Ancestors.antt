-- ===== src/Symbols/Ancestors.antt =====
-- record/db.c: the table `scope_ancestor`, which `process_variables` of examine/requests.c reads. The
-- recursive query starts from the parent of each scope and joins the parent's own row, which is the
-- only one with its id (PRIMARY KEY), so that its rows are the chains of parents; their order in the
-- table is left aside. Fuel: one for each scope.
use mathlib.Core.Path.{ap₂}
use mathlib.Core.List.{append-nil}
use flightrec.Prelude.{
  ℕ, zero, suc, ◌+◌, ◌≤◌, ◌<◌, ◌≡◌, ◌≢◌, inl, inr, refl, sym, ◌∙◌, ap, List, [], ◌∷◌, ◌++◌, none,
  some, Option, ◌==◌, arith, length, replicate, test_eq, test_ne, if_true, if_false,
}
use flightrec.Query.{In, where_rows, first_row}
use flightrec.Query.Append.{where_rows-append, where_rows-all, where_rows-no}
use flightrec.Variables.Scopes.{ScopedVar, AncestorRow, global_scope, local_rows}
use flightrec.Variables.Scopes.Frames.{ancestors_of, own_variable_repeated}
use flightrec.Symbols.Entry.{ScopeRow, Dies, Tables}
use flightrec.Symbols.{proc_symbols}
use flightrec.Symbols.Forest.{IsForest, id-above, depth-length, IsForest-IsWithin}
use flightrec.Symbols.Tree.{IsSymbols}
use flightrec.Symbols.Collect.{proc_symbols-IsSymbols}

unfoldable pub scope_at : ℕ → List ScopeRow → Option ScopeRow
unfolding where_rows
scope_at id rows = first_row (where_rows (λ (p : ScopeRow). p.id == id) rows)

unfoldable pub chain : ℕ → List ScopeRow → ℕ → ℕ → List AncestorRow
unfolding scope_at
chain zero rows descendant ancestor = []
chain (suc n) rows descendant ancestor =
    record { id = descendant; ancestor = ancestor }
    ∷ elim (scope_at ancestor rows) [ none ↦ [] | some p ↦ chain n rows descendant p.parent ]

unfoldable pub chains : List ScopeRow → List ScopeRow → List AncestorRow
unfolding chain
chains rows [] = []
chains rows (s ∷ others) = chain (length rows) rows s.id s.parent ++ chains rows others

abbrev pub scope_ancestor : List ScopeRow → List AncestorRow
scope_ancestor rows = chains rows rows

scope_at-some :
    (next : ℕ) (rows : List ScopeRow) (p : ScopeRow)
    → IsForest next rows
    → In p rows
    → scope_at p.id rows ≡ some p
unfolding scope_at where_rows
scope_at-some next [] p f m = elim m [ ]
scope_at-some next (s ∷ older) p (l, w, f) (inl e) =
    ap first_row
      (if_true {b = s.id == p.id} _ _ (test_eq s.id p.id (ap (λ (x : ScopeRow). x.id) (sym e))))
    ∙ ap some (sym e)
scope_at-some next (s ∷ older) p (l, w, f) (inr m) =
    ap first_row (
      if_false {b = s.id == p.id} _ _
        (test_ne s.id p.id (omega (arith, (id-above s.id older p f m).1))))
    ∙ scope_at-some s.id older p f m

scope_at-none :
    (next : ℕ) (rows : List ScopeRow) → IsForest next rows → scope_at global_scope rows ≡ none
unfolding scope_at
scope_at-none next rows f = ap first_row (
    where_rows-no (λ (p : ScopeRow). p.id == global_scope) rows
      (λ p m. test_ne p.id global_scope (omega (arith, (id-above next rows p f m).0))))

length-chain :
    (n next : ℕ) (rows : List ScopeRow) (d : ℕ) (s : ScopeRow)
    → IsForest next rows
    → In s rows
    → s.depth < n
    → length (chain n rows d s.parent) ≡ s.depth + 1
unfolding chain
length-chain zero next rows d s f m l = absurd (omega (arith, l))
length-chain (suc n) next rows d s f m l = elim (IsForest-IsWithin next rows s f m) [
  | inl (p, z) ↦
      ap suc (ap length (ap rest (ap (λ k. scope_at k rows) p ∙ scope_at-none next rows f)))
      ∙ omega (arith, z)
  | inr (q, i, e, z) ↦
      ap suc (
        ap length (ap rest (ap (λ k. scope_at k rows) (sym e) ∙ scope_at-some next rows q f i))
        ∙ length-chain n next rows d q f i (omega (arith, z, l)))
      ∙ omega (arith, z)
]
  where
    rest : Option ScopeRow → List AncestorRow
    rest o = elim o [ none ↦ [] | some p ↦ chain n rows d p.parent ]

chain-id :
    (n : ℕ) (rows : List ScopeRow) (d a : ℕ) (r : AncestorRow) → In r (chain n rows d a) → r.id ≡ d
unfolding chain
chain-id zero rows d a r m = elim m [ ]
chain-id (suc n) rows d a r (inl e) = ap (λ (x : AncestorRow). x.id) e
chain-id (suc n) rows d a r (inr m) = rest (scope_at a rows) m (λ p. chain-id n rows d p.parent r)
  where
    rest :
        (o : Option ScopeRow)
        → In r (elim o as (λ x. List AncestorRow) [ none ↦ [] | some p ↦ chain n rows d p.parent ])
        → ((p : ScopeRow) → In r (chain n rows d p.parent) → r.id ≡ d)
        → r.id ≡ d
    rest none m h = elim m [ ]
    rest (some p) m h = h p m

own_chain :
    (n : ℕ) (rows : List ScopeRow) (d a : ℕ) → ancestors_of d (chain n rows d a) ≡ chain n rows d a
own_chain n rows d a =
    where_rows-all (λ (r : AncestorRow). r.id == d) (chain n rows d a)
      (λ r m. test_eq r.id d (chain-id n rows d a r m))

other_chain :
    (n : ℕ) (rows : List ScopeRow) (scope d a : ℕ)
    → d ≢ scope
    → ancestors_of scope (chain n rows d a) ≡ []
other_chain n rows scope d a ne =
    where_rows-no (λ (r : AncestorRow). r.id == scope) (chain n rows d a)
      (λ r m. test_ne r.id scope (λ e. ne (sym (chain-id n rows d a r m) ∙ e)))

older_chains :
    (rows others : List ScopeRow) (next scope : ℕ)
    → IsForest next others
    → next ≤ scope
    → ancestors_of scope (chains rows others) ≡ []
unfolding chains where_rows
older_chains rows [] next scope f le = refl
older_chains rows (r ∷ others) next scope (l, w, f) le =
    where_rows-append (λ (x : AncestorRow). x.id == scope) (chain (length rows) rows r.id r.parent)
      (chains rows others)
    ∙ ap₂ (λ a b. a ++ b)
        (other_chain (length rows) rows scope r.id r.parent (omega (arith, l, le)))
        (older_chains rows others r.id scope f (omega (arith, l, le)))

ancestors_of-chains :
    (rows others : List ScopeRow) (next : ℕ) (s : ScopeRow)
    → IsForest next others
    → In s others
    → ancestors_of s.id (chains rows others) ≡ chain (length rows) rows s.id s.parent
unfolding chains
ancestors_of-chains rows [] next s f m = elim m [ ]
ancestors_of-chains rows (r ∷ others) next s (l, w, f) (inl e) =
    let i : r.id ≡ s.id = ap (λ (x : ScopeRow). x.id) (sym e) in
    where_rows-append (λ (x : AncestorRow). x.id == s.id) (chain (length rows) rows r.id r.parent)
      (chains rows others)
    ∙ ap₂ (λ a b. a ++ b)
        (ap₂ (λ k p. ancestors_of s.id (chain (length rows) rows k p)) i
            (ap (λ (x : ScopeRow). x.parent) (sym e))
          ∙ own_chain (length rows) rows s.id s.parent)
        (older_chains rows others r.id s.id f (omega (arith, i)))
    ∙ append-nil (chain (length rows) rows s.id s.parent)
ancestors_of-chains rows (r ∷ others) next s (l, w, f) (inr m) =
    where_rows-append (λ (x : AncestorRow). x.id == s.id) (chain (length rows) rows r.id r.parent)
      (chains rows others)
    ∙ ap₂ (λ a b. a ++ b)
        (other_chain (length rows) rows s.id r.id r.parent
          (omega (arith, (id-above r.id others s f m).1)))
        (ancestors_of-chains rows others r.id s f m)

-- After the entries of a unit were processed, with tables before whose scopes form a tree in which
-- all functions and variables lie, a variable of a scope in the table is listed once more often in
-- the local variables of that scope than the scope is deep, whatever the other variables are.
pub block_variable_repeated :
    (ds : Dies) (base unit : ℕ) (t : Tables) (before after : List ScopedVar) (v : ScopedVar)
    (s : ScopeRow)
    → IsSymbols t
    → In s (proc_symbols ds base unit global_scope 0 t).0.scopes
    → v.scope_id ≡ s.id
    → local_rows
        (before ++ (v ∷ after))
        (scope_ancestor (proc_symbols ds base unit global_scope 0 t).0.scopes)
        s.id
      ≡ local_rows before
          (scope_ancestor (proc_symbols ds base unit global_scope 0 t).0.scopes)
          s.id
        ++ (replicate (s.depth + 1) v
            ++ local_rows after
                (scope_ancestor (proc_symbols ds base unit global_scope 0 t).0.scopes)
                s.id)
block_variable_repeated ds base unit t before after v s ok m own =
    let u = (proc_symbols ds base unit global_scope 0 t).0 in
    let f = (proc_symbols-IsSymbols ds base unit t ok).0.forest in
    let inner : s.id ≢ global_scope = omega (arith, (id-above u.next_id u.scopes s f m).0) in
    own_variable_repeated before after v (scope_ancestor u.scopes) s.id own inner
    ∙ ap
        (λ n.
          local_rows before (scope_ancestor u.scopes) s.id
          ++ (replicate n v ++ local_rows after (scope_ancestor u.scopes) s.id))
        (ap length (ancestors_of-chains u.scopes u.scopes u.next_id s f m)
          ∙ length-chain (length u.scopes) u.next_id u.scopes s.id s f m
              (depth-length u.next_id u.scopes s f m))
