-- ===== src/Variables/Scopes/Frames.antt =====
-- Which variables are shown of a frame.
use mathlib.Core.List.{append_assoc}
use flightrec.Prelude.{
  ℕ, ◌≡◌, ◌≢◌, refl, sym, ◌∙◌, ap, List, [], ◌∷◌, ◌++◌, true, not, Option, none, some, ◌==◌,
  if◌then◌else◌, if_true, if_false, arith, length, replicate, test_eq, test_ne, inl, inr,
  Bool-cases,
}
use flightrec.Query.{In, where_rows, first_row}
use flightrec.Query.Append.{where_rows-append, where_rows-no}
use flightrec.Variables.{View}
use flightrec.Variables.Item.{Outcome, failed, Answer}
use flightrec.Variables.Scopes.{
  Frame, ScopedVar, AncestorRow, Program, global_scope, process_scopes, is_local, var_rows,
  local_rows, add_vars, is_declared, when_ended, scope_of, local_vars, process_variables,
}

-- The rows of the ancestors of a scope.
abbrev pub ancestors_of : ℕ → List AncestorRow → List AncestorRow
ancestors_of scope ancestors = where_rows (λ (s : AncestorRow). s.id == scope) ancestors

var_rows-replicate :
    (v : ScopedVar) (scope : ℕ) (ancestors : List AncestorRow)
    → v.scope_id ≡ scope
    → scope ≢ global_scope
    → var_rows v scope ancestors ≡ replicate (length (ancestors_of scope ancestors)) v
unfolding var_rows where_rows
var_rows-replicate v scope [] own inner = refl
var_rows-replicate v scope (s ∷ ancestors) own inner =
    let rest = var_rows-replicate v scope ancestors own inner in
    let place : not (v.scope_id == global_scope) ≡ true =
      ap not (test_ne v.scope_id global_scope (λ e. inner (sym own ∙ e))) in
    elim (Bool-cases (s.id == scope)) [
      | inl e ↦
          if_true {b = is_local scope v s} _ _ (ground (arith, own, e, place))
          ∙ ap (λ l. v ∷ l) rest
          ∙ ap (λ (l : List AncestorRow). replicate (length l) v)
              (sym (if_true {b = s.id == scope} _ _ e))
      | inr n ↦
          if_false {b = is_local scope v s} _ _ (ground (arith, n))
          ∙ rest
          ∙ ap (λ (l : List AncestorRow). replicate (length l) v)
              (sym (if_false {b = s.id == scope} _ _ n))
    ]

local_rows-append :
    (xs ys : List ScopedVar) (ancestors : List AncestorRow) (scope : ℕ)
    → local_rows (xs ++ ys) ancestors scope
      ≡ local_rows xs ancestors scope ++ local_rows ys ancestors scope
unfolding local_rows
local_rows-append [] ys ancestors scope = refl
local_rows-append (x ∷ xs) ys ancestors scope =
    ap (λ l. var_rows x scope ancestors ++ l) (local_rows-append xs ys ancestors scope)
    ∙ sym (
        append_assoc (var_rows x scope ancestors) (local_rows xs ancestors scope)
          (local_rows ys ancestors scope))

-- A variable of a local scope itself, not of one of its ancestors, is listed once for each ancestor
-- that the scope has.
pub own_variable_repeated :
    (before after : List ScopedVar) (v : ScopedVar) (ancestors : List AncestorRow) (scope : ℕ)
    → v.scope_id ≡ scope
    → scope ≢ global_scope
    → local_rows (before ++ (v ∷ after)) ancestors scope
      ≡ local_rows before ancestors scope
        ++ (replicate (length (ancestors_of scope ancestors)) v ++ local_rows after ancestors scope)
unfolding local_rows
own_variable_repeated before after v ancestors scope own inner =
    local_rows-append before (v ∷ after) ancestors scope
    ∙ ap (λ l. local_rows before ancestors scope ++ (l ++ local_rows after ancestors scope))
        (var_rows-replicate v scope ancestors own inner)

-- The first of the frames of a scope is found by it.
first_of_scope :
    (before : List Frame) (g : Frame) (after : List Frame) (scope : ℕ)
    → ((h : Frame) → In h before → h.scope ≢ scope)
    → g.scope ≡ scope
    → first_row (where_rows (λ (h : Frame). h.scope == scope) (before ++ (g ∷ after))) ≡ some g
unfolding where_rows
first_of_scope before g after scope other own = ap first_row (
    where_rows-append (λ (h : Frame). h.scope == scope) before (g ∷ after)
    ∙ ap (λ l. l ++ where_rows (λ (h : Frame). h.scope == scope) (g ∷ after))
        (where_rows-no (λ (h : Frame). h.scope == scope) before
          (λ h m. test_ne h.scope scope (other h m)))
    ∙ if_true {b = g.scope == scope} _ _ (test_eq g.scope scope own))

-- If two frames, each found by its id, have the same local scope, and no frame in front of the first of
-- the two has it, then both get the same references; and if the queries succeed, the local one leads
-- to the variables as they are looked up for the first of the two: with the registers of its step, and
-- those declared before its line.
pub innermost_shown :
    (fuel : ℕ) (p : Program) (v : View) (index_name : ℕ → ℕ) (answer : Answer) (g f : Frame)
    (before after : List Frame)
    → p.frames ≡ before ++ (g ∷ after)
    → ((h : Frame) → In h before → h.scope ≢ f.scope)
    → g.scope ≡ f.scope
    → f.scope ≢ global_scope
    → first_row (where_rows (λ (h : Frame). h.id == g.id) p.frames) ≡ some g
    → first_row (where_rows (λ (h : Frame). h.id == f.id) p.frames) ≡ some f
    → p.query_ok ≡ true
    → p.query_ends ≡ true
    → (process_scopes p.frames (some f.id) ≡ some (global_scope, f.scope))
      × (process_scopes p.frames (some g.id) ≡ some (global_scope, f.scope))
      × (process_variables fuel p v index_name (scope_of f.scope) answer
          ≡ add_vars fuel
              (p.debug g.step)
              v
              f.scope
              (is_declared g)
              (local_rows p.vars p.ancestors f.scope)
              answer)
unfolding process_scopes process_variables local_vars
innermost_shown fuel p v index_name answer g f before after frames other same local g_found f_found
      queried ended =
    let at_frame : Frame → Answer × Outcome = λ h.
      if p.query_ok
      then when_ended p.query_ends (
          add_vars fuel (p.debug h.step) v f.scope (is_declared h)
            (local_rows p.vars p.ancestors h.scope) answer)
      else (answer, failed) in
    let found : first_row (where_rows (λ (h : Frame). h.scope == f.scope) p.frames) ≡ some g =
      ap (λ l. first_row (where_rows (λ (h : Frame). h.scope == f.scope) l)) frames
      ∙ first_of_scope before g after f.scope other same in
    let scopes_at : Option Frame → Option (ℕ × ℕ) = λ o. elim o as (λ x. Option (ℕ × ℕ)) [
      | none ↦ none
      | some h ↦ some (global_scope, h.scope)
    ] in
    (
      ap scopes_at f_found,
      ap scopes_at g_found ∙ ap (λ n. some (global_scope, n)) same,
      if_false {b = f.scope == global_scope} _ _ (test_ne f.scope global_scope local)
          ∙ ap
              (λ (o : Option Frame). elim o as (λ x. Answer × Outcome) [
                | none ↦ (answer, failed)
                | some h ↦ at_frame h
              ])
              found
          ∙ if_true _ _ queried
          ∙ ap
              (λ b. when_ended b (
                add_vars fuel (p.debug g.step) v f.scope (is_declared g)
                  (local_rows p.vars p.ancestors g.scope) answer))
              ended
          ∙ ap
              (λ n.
                add_vars fuel (p.debug g.step) v f.scope (is_declared g)
                  (local_rows p.vars p.ancestors n) answer)
              same,
    )
