-- ===== src/Symbols/Tree.antt =====
-- What is declared lies in the tree of scopes, after each insertion.
use mathlib.Core.Path.{subst}
use flightrec.Prelude.{
  ℕ, ◌≡◌, inl, inr, refl, sym, ◌∙◌, ap, List, [], ◌∷◌, Bool, true, false, not, ◌&&◌, ◌||◌, Option,
  none, some, ◌==◌, if◌then◌else◌, arith, map, Bool-cases, if_true, if_false, if_all,
}
use flightrec.Query.{In}
use flightrec.Variables.Scopes.{global_scope}
use flightrec.Symbols.Entry.{
  VarDie, ScopeRow, FuncRow, SymbolRow, Tables, Collected, success, failure, Result, insert_scope,
}
use flightrec.Symbols.{moved, is_some, store_var, proc_var}
use flightrec.Symbols.Forest.{IsWithin, IsForest, IsPlaced}

pub record IsSymbols (t : Tables) : Type 0 where
  pub forest : IsForest t.next_id t.scopes
  pub vars : (v : SymbolRow) → In v t.vars → IsPlaced v.scope_id t.scopes
  pub funcs : (f : FuncRow) → In f t.funcs → IsPlaced f.scope_id t.scopes

abbrev pub IsKept : Tables → Tables → Type 0
IsKept t u = (p : ScopeRow) → In p t.scopes → In p u.scopes

abbrev pub IsAfter : Tables → Tables → Type 0
IsAfter t u = IsSymbols u × IsKept t u

pub IsPlaced-kept :
    (scope : ℕ) (t u : Tables) → IsKept t u → IsPlaced scope t.scopes → IsPlaced scope u.scopes
IsPlaced-kept scope t u k (inl e) = inl e
IsPlaced-kept scope t u k (inr (p, m, e)) = inr (p, k p m, e)

pub IsWithin-kept :
    (scope depth : ℕ) (t u : Tables)
    → IsKept t u
    → IsWithin scope depth t.scopes
    → IsWithin scope depth u.scopes
IsWithin-kept scope depth t u k (inl e) = inl e
IsWithin-kept scope depth t u k (inr (p, m, e, d)) = inr (p, k p m, e, d)

pub IsWithin-IsPlaced :
    (scope depth : ℕ) (rows : List ScopeRow) → IsWithin scope depth rows → IsPlaced scope rows
IsWithin-IsPlaced scope depth rows (inl (e, d)) = inl e
IsWithin-IsPlaced scope depth rows (inr (p, m, e, d)) = inr (p, m, e)

moved-scope_id :
    (file line unit offset : ℕ) (v : SymbolRow)
    → (moved file line unit offset v).scope_id ≡ v.scope_id
moved-scope_id file line unit offset v =
    elim (Bool-cases ((v.unit_id == unit) && (v.offset == offset))) [
      | inl e ↦ ap (λ (w : SymbolRow). w.scope_id) (if_true _ _ e)
      | inr e ↦ ap (λ (w : SymbolRow). w.scope_id) (if_false _ _ e)
    ]

moved-IsPlaced :
    (file line unit offset : ℕ) (rows : List ScopeRow) (vars : List SymbolRow)
    → ((v : SymbolRow) → In v vars → IsPlaced v.scope_id rows)
    → (v : SymbolRow) → In v (map (moved file line unit offset) vars)
    → IsPlaced v.scope_id rows
moved-IsPlaced file line unit offset rows [] h v m = elim m [ ]
moved-IsPlaced file line unit offset rows (w ∷ vars) h v (inl e) =
    subst (λ n. IsPlaced n rows)
      (sym (ap (λ (x : SymbolRow). x.scope_id) e ∙ moved-scope_id file line unit offset w))
      (h w (inl refl))
moved-IsPlaced file line unit offset rows (w ∷ vars) h v (inr m) =
    moved-IsPlaced file line unit offset rows vars (λ x n. h x (inr n)) v m

pub store_var-IsAfter :
    (d : VarDie) (o : Option ℕ) (scope unit : ℕ) (t : Tables)
    → IsSymbols t
    → IsPlaced scope t.scopes
    → IsAfter t (store_var d o scope unit t)
unfolding store_var
store_var-IsAfter d (some spec) scope unit t s p = (
  record {
    forest = s.forest;
    vars = moved-IsPlaced d.file d.line unit spec t.scopes t.vars s.vars;
    funcs = s.funcs;
  },
  λ q m. m,
)
store_var-IsAfter d none scope unit t s p = (
  record {
    forest = s.forest;
    vars = λ v m. elim m [
      | inl e ↦
          subst (λ n. IsPlaced n t.scopes) (sym (ap (λ (x : SymbolRow). x.scope_id) e))
            (own d.external)
      | inr n ↦ s.vars v n
    ];
    funcs = s.funcs;
  },
  λ q m. m,
)
  where
    own : (b : Bool) → IsPlaced (if b then global_scope else scope) t.scopes
    own true = inl refl
    own false = p

pub record IsLeft (t : Tables) (r : Result) : Type 0 where
  pub after : IsAfter t r.0

pub proc_var-IsLeft :
    (d : VarDie) (scope unit : ℕ) (t : Tables)
    → IsSymbols t
    → IsPlaced scope t.scopes
    → IsLeft t (proc_var d scope unit t)
unfolding proc_var
proc_var-IsLeft d scope unit t s p =
    let same : (w : Collected) → IsLeft t (t, w) = λ w. record { after = (s, λ q m. m) } in
    if_all (IsLeft t) (not (d.offset_ok && d.attrs_ok)) _ _ (same failure) (
      if_all (IsLeft t) (d.artificial || not (is_some d.name || is_some d.specification)) _ _
        (same success)
        (if_all (IsLeft t) (not (is_some d.type || is_some d.specification)) _ _ (same failure) (
          if_all (IsLeft t) (not d.stored) _ (store_var d d.specification scope unit t, success)
            (same failure)
            (record { after = store_var-IsAfter d d.specification scope unit t s p }))))

pub insert_scope-IsAfter :
    (parent depth lo hi : ℕ) (t : Tables)
    → IsSymbols t
    → IsWithin parent depth t.scopes
    → IsAfter t (insert_scope parent depth (lo, hi) t)
insert_scope-IsAfter parent depth lo hi t s w = (
  record {
    forest = (omega arith, w, s.forest);
    vars = λ v m.
        IsPlaced-kept v.scope_id t (insert_scope parent depth (lo, hi) t) (λ q n. inr n)
          (s.vars v m);
    funcs = λ f m.
        IsPlaced-kept f.scope_id t (insert_scope parent depth (lo, hi) t) (λ q n. inr n)
          (s.funcs f m);
  },
  λ q n. inr n,
)
