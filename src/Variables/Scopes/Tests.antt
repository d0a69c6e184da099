-- ===== src/Variables/Scopes/Tests.antt =====
-- A function that has called itself, and a block inside a function.
use flightrec.Prelude.{ℕ, ◌≡◌, refl, ap, inl, inr, List, [], ◌∷◌, true, some, ◌==◌, arith}
use flightrec.Query.{where_rows, first_row}
use flightrec.Variables.Samples.{view_of}
use flightrec.Variables.Item.{Answer}
use flightrec.Variables.Location.{Debug, attr_error}
use flightrec.Variables.Scopes.{
  Frame, AncestorRow, Program, process_scopes, local_rows, add_vars, is_declared, scope_of,
  process_variables,
}
use flightrec.Variables.Scopes.Frames.{innermost_shown}

-- The scope 5 lies in the scope 4, and this in the global one.
abbrev ancestor_rows : List AncestorRow
ancestor_rows =
    record { id = 5; ancestor = 4 }
    ∷ record { id = 5; ancestor = 0 }
    ∷ record { id = 4; ancestor = 0 }
    ∷ []

-- The function has called itself, and then another one.
abbrev leaf_frame : Frame
leaf_frame = record { id = 2; scope = 6; step = 25; file = 1; line = 40 }

abbrev inner_frame : Frame
inner_frame = record { id = 0; scope = 4; step = 20; file = 1; line = 12 }

abbrev outer_frame : Frame
outer_frame = record { id = 1; scope = 4; step = 8; file = 1; line = 30 }

abbrev no_debug : ℕ → Debug
no_debug step = record {
  vars = [];
  var_ok = true;
  regs_ok = true;
  pc = step;
  registers = λ n. 0;
  die_ok = λ n. true;
  location = λ n. attr_error;
  frame_base = λ n. attr_error;
}

abbrev recursive : Program
recursive = record {
  frames = leaf_frame ∷ inner_frame ∷ outer_frame ∷ [];
  vars = [];
  ancestors = ancestor_rows;
  query_ok = true;
  query_ends = true;
  debug = no_debug;
}

inner_found : first_row (where_rows (λ (h : Frame). h.id == 0) recursive.frames) ≡ some inner_frame
unfolding where_rows
inner_found = refl

outer_found : first_row (where_rows (λ (h : Frame). h.id == 1) recursive.frames) ≡ some outer_frame
unfolding where_rows
outer_found = refl

abbrev empty_answer : Answer
empty_answer = record { items = []; refs = record { rows = []; next_id = 1 } }

innermost_shown_example :
    (process_scopes recursive.frames (some 1) ≡ some (0, 4))
    × (process_scopes recursive.frames (some 0) ≡ some (0, 4))
    × (process_variables 0 recursive (view_of []) (λ i. i) (scope_of 4) empty_answer
        ≡ add_vars 0
            (no_debug 20)
            (view_of [])
            4
            (is_declared inner_frame)
            (local_rows [] ancestor_rows 4)
            empty_answer)
innermost_shown_example =
    innermost_shown 0 recursive (view_of []) (λ i. i) empty_answer inner_frame outer_frame
      (leaf_frame ∷ []) (outer_frame ∷ []) refl
      (λ h m. elim m [
        | inl e ↦ λ k. absurd (omega (arith, k, ap (λ (x : Frame). x.scope) e))
        | inr n ↦ elim n [ ]
      ])
      refl (λ e. absurd (omega (arith, e))) inner_found outer_found refl refl
