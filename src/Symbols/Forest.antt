-- ===== src/Symbols/Forest.antt =====
-- The table `scope` as a tree.
use mathlib.Core.Path.{subst}
use flightrec.Prelude.{ℕ, ◌+◌, ◌<◌, ◌≡◌, ◌⊎◌, inl, inr, sym, ap, List, [], ◌∷◌, arith, length}
use flightrec.Query.{In}
use flightrec.Variables.Scopes.{global_scope}
use flightrec.Symbols.Entry.{ScopeRow}

-- What a row of a scope, or what is declared in it, says of the scope around it.
abbrev pub IsWithin : ℕ → ℕ → List ScopeRow → Type 0
IsWithin scope depth rows =
    ((scope ≡ global_scope) × (depth ≡ 0))
    ⊎ ((p : ScopeRow) × In p rows × (p.id ≡ scope) × (depth ≡ p.depth + 1))

-- The ids go up, and each scope lies in an older one of the depth before its own, or is outermost.
abbrev pub IsForest : ℕ → List ScopeRow → Type 0
IsForest next [] = global_scope < next
IsForest next (s ∷ older) = (s.id < next) × IsWithin s.parent s.depth older × IsForest s.id older

abbrev pub IsPlaced : ℕ → List ScopeRow → Type 0
IsPlaced scope rows = (scope ≡ global_scope) ⊎ ((p : ScopeRow) × In p rows × (p.id ≡ scope))

-- Ids are not those of older scopes.
pub id-above :
    (next : ℕ) (rows : List ScopeRow) (p : ScopeRow)
    → IsForest next rows
    → In p rows
    → (global_scope < p.id) × (p.id < next)
id-above next [] p f m = elim m [ ]
id-above next (s ∷ older) p (l, w, f) (inl e) =
    let k : p.id ≡ s.id = ap (λ (x : ScopeRow). x.id) e in
    (omega (arith, k, first s.id older f), omega (arith, k, l))
  where
    first : (next : ℕ) (rows : List ScopeRow) → IsForest next rows → global_scope < next
    first next [] f = f
    first next (s ∷ older) (l, w, f) = omega (arith, l, first s.id older f)
id-above next (s ∷ older) p (l, w, f) (inr m) =
    let (a, b) = id-above s.id older p f m in (a, omega (arith, l, b))

pub depth-length :
    (next : ℕ) (rows : List ScopeRow) (s : ScopeRow)
    → IsForest next rows
    → In s rows
    → s.depth < length rows
depth-length next [] s f m = elim m [ ]
depth-length next (r ∷ older) s (l, inl (p, d), f) (inl e) =
    omega (arith, d, ap (λ (x : ScopeRow). x.depth) e)
depth-length next (r ∷ older) s (l, inr (q, m, i, d), f) (inl e) =
    omega (arith, d, ap (λ (x : ScopeRow). x.depth) e, depth-length r.id older q f m)
depth-length next (r ∷ older) s (l, w, f) (inr m) = omega (arith, depth-length r.id older s f m)

wider :
    (r : ScopeRow) (rows : List ScopeRow) (scope depth : ℕ)
    → IsWithin scope depth rows
    → IsWithin scope depth (r ∷ rows)
wider r rows scope depth (inl e) = inl e
wider r rows scope depth (inr (p, m, e, d)) = inr (p, inr m, e, d)

pub IsForest-IsWithin :
    (next : ℕ) (rows : List ScopeRow) (s : ScopeRow)
    → IsForest next rows
    → In s rows
    → IsWithin s.parent s.depth rows
IsForest-IsWithin next [] s f m = elim m [ ]
IsForest-IsWithin next (r ∷ older) s (l, w, f) (inl e) =
    wider r older s.parent s.depth
      (subst (λ (x : ScopeRow). IsWithin x.parent x.depth older) (sym e) w)
IsForest-IsWithin next (r ∷ older) s (l, w, f) (inr m) =
    wider r older s.parent s.depth (IsForest-IsWithin r.id older s f m)
