-- ===== src/Variables/Scopes.antt =====
-- examine/requests.c: `process_scopes` and `process_variables`, with the frames that the last request
-- for the stack left. The reference of a scope is told apart from that of a variable, as it is a
-- number and a half in the messages; what is missing in a request is `none`.
pub mod Frames
mod Tests
use flightrec.Prelude.{
  ℕ, ◌+◌, List, [], ◌∷◌, ◌++◌, Bool, true, false, not, ◌&&◌, ◌||◌, Option, none, some, leb, ◌==◌,
  if◌then◌else◌,
}
use flightrec.Query.{where_rows, first_row}
use flightrec.Variables.{View}
use flightrec.Variables.Item.{Outcome, done, failed, undefined, endless, Answer}
use flightrec.Variables.Items.{add_var_items, add_var_fields}
use flightrec.Variables.Location.{Debug, add_var}

-- `struct frame`.
pub record Frame : Type 0 where
  pub id : ℕ
  pub scope : ℕ
  pub step : ℕ
  pub file : ℕ
  pub line : ℕ

-- Rows of the tables `var` and `scope_ancestor`.
pub record ScopedVar : Type 0 where
  pub id : ℕ
  pub scope_id : ℕ
  pub file_id : ℕ
  pub line : ℕ

pub record AncestorRow : Type 0 where
  pub id : ℕ
  pub ancestor : ℕ

abbrev pub global_scope : ℕ
global_scope = 0

-- The references of the global and of the local scope.
unfoldable pub process_scopes : List Frame → Option ℕ → Option (ℕ × ℕ)
unfolding where_rows
process_scopes frames none = none
process_scopes frames (some frame_id) =
    elim (first_row (where_rows (λ (f : Frame). f.id == frame_id) frames)) [
      | none ↦ none
      | some f ↦ some (global_scope, f.scope)
    ]

-- FROM var v, scope_ancestor s WHERE (v.scope_id = s.ancestor OR v.scope_id = ?) AND s.id = ? AND
-- v.scope_id != GLOBAL_SCOPE: a row for each pair.
abbrev pub is_local : ℕ → ScopedVar → AncestorRow → Bool
is_local scope v s =
    ((v.scope_id == s.ancestor) || (v.scope_id == scope))
    && ((s.id == scope) && not (v.scope_id == global_scope))

unfoldable pub var_rows : ScopedVar → ℕ → List AncestorRow → List ScopedVar
var_rows v scope [] = []
var_rows v scope (s ∷ ancestors) =
    let rest = var_rows v scope ancestors in if is_local scope v s then v ∷ rest else rest

unfoldable pub local_rows : List ScopedVar → List AncestorRow → ℕ → List ScopedVar
unfolding var_rows
local_rows [] ancestors scope = []
local_rows (v ∷ vars) ancestors scope =
    var_rows v scope ancestors ++ local_rows vars ancestors scope

-- The variables in turn; those of the frame's file that are declared later are passed over.
unfoldable pub add_vars :
    ℕ → Debug → View → ℕ → (ScopedVar → Bool) → List ScopedVar → Answer → Answer × Outcome
unfolding add_var
add_vars fuel d v scope declared [] answer = (answer, done)
add_vars fuel d v scope declared (r ∷ rows) answer =
    let (after, outcome) = add_var fuel d v scope r.id answer in
    let next = add_vars fuel d v scope declared rows after in
    let skipped = add_vars fuel d v scope declared rows answer in
    if not (declared r) then skipped else elim outcome [
      | done ↦ next
      | failed ↦ (after, failed)
      | undefined ↦ (after, undefined)
      | endless ↦ (after, endless)
    ]

abbrev pub is_declared : Frame → ScopedVar → Bool
is_declared f r = not ((r.file_id == f.file) && leb f.line r.line)

-- What the request asks for: a scope, items with their start and count, or fields.
pub data Asked : Type 0 where
  nothing : Asked
  scope_of : ℕ → Asked
  items_of : ℕ → Option ℕ → Option ℕ → Asked
  fields_of : ℕ → Asked

-- The tables, whether the two queries are run and come to their end, and the debug entries with the
-- registers of each step.
pub record Program : Type 0 where
  pub frames : List Frame
  pub vars : List ScopedVar
  pub ancestors : List AncestorRow
  pub query_ok : Bool
  pub query_ends : Bool
  pub debug : ℕ → Debug

abbrev pub when_ended : Bool → Answer × Outcome → Answer × Outcome
when_ended true result = result
when_ended false (answer, done) = (answer, failed)
when_ended false (answer, failed) = (answer, failed)
when_ended false (answer, undefined) = (answer, undefined)
when_ended false (answer, endless) = (answer, endless)

-- What `add_var_items` and `add_var_fields` return is not looked at.
abbrev pub ignored : Answer × Outcome → Answer × Outcome
ignored (answer, done) = (answer, done)
ignored (answer, failed) = (answer, done)
ignored (answer, undefined) = (answer, undefined)
ignored (answer, endless) = (answer, endless)

unfoldable pub local_vars : ℕ → Program → View → ℕ → Answer → Answer × Outcome
unfolding where_rows local_rows add_vars
local_vars fuel p v scope answer =
    elim (first_row (where_rows (λ (f : Frame). f.scope == scope) p.frames)) [
      | none ↦ (answer, failed)
      | some f ↦
          if p.query_ok
          then when_ended p.query_ends (
              add_vars fuel (p.debug f.step) v scope (is_declared f)
                (local_rows p.vars p.ancestors f.scope) answer)
          else (answer, failed)
    ]

unfoldable pub global_vars : ℕ → Program → View → Answer → Answer × Outcome
unfolding where_rows add_vars
global_vars fuel p v answer =
    if p.query_ok
    then when_ended p.query_ends (
        add_vars fuel (p.debug v.step) v global_scope (λ r. true)
          (where_rows (λ (r : ScopedVar). r.scope_id == global_scope) p.vars) answer)
    else (answer, failed)

unfoldable pub process_variables : ℕ → Program → View → (ℕ → ℕ) → Asked → Answer → Answer × Outcome
unfolding global_vars local_vars add_var_items add_var_fields
process_variables fuel p v index_name nothing answer = (answer, failed)
process_variables fuel p v index_name (scope_of scope) answer =
    if scope == global_scope then global_vars fuel p v answer else local_vars fuel p v scope answer
process_variables fuel p v index_name (items_of ref (some start) (some count)) answer =
    ignored (add_var_items fuel v index_name ref start count answer)
process_variables fuel p v index_name (items_of ref none count) answer = (answer, failed)
process_variables fuel p v index_name (items_of ref (some start) none) answer = (answer, failed)
process_variables fuel p v index_name (fields_of ref) answer =
    ignored (add_var_fields fuel v ref answer)
