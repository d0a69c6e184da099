-- ===== src/Variables/Samples.antt =====
-- The types and the memory of a small program.
use mathlib.Core.Path.{subst}
use flightrec.Prelude.{ℕ, ◌≤◌, ◌≡◌, refl, ap, List, [], ◌∷◌, true, some, inl, inr, arith}
use flightrec.Query.{where_rows}
use flightrec.Memory.{Memory, MemMsg, segment, bytes}
use flightrec.VarValue.{latest}
use flightrec.VarValue.Select.{row_at}
use flightrec.VarValue.Exact.{IsAligned, Shows}
use flightrec.Variables.{TypeRow, MemberRow, View}

abbrev pub type_rows : List TypeRow
type_rows =
    record { offset = 5; size = 4; dim = 0; flags = 2; parent = 0 }
    ∷ record { offset = 6; size = 4; dim = 0; flags = 1; parent = 0 }
    ∷ record { offset = 7; size = 8; dim = 2; flags = 5; parent = 0 }
    ∷ record { offset = 8; size = 3; dim = 3; flags = 7; parent = 9 }
    ∷ record { offset = 9; size = 1; dim = 0; flags = 1; parent = 0 }
    ∷ record { offset = 10; size = 4; dim = 0; flags = 11; parent = 5 }
    ∷ []

abbrev pub member_list : List MemberRow
member_list =
    record { offset = 7; name = 31; start = 0; type = 5; value = 0 }
    ∷ record { offset = 7; name = 32; start = 4; type = 6; value = 0 }
    ∷ []

abbrev pub view_of : List MemMsg → View
view_of rows = record {
  types = type_rows;
  members = member_list;
  functions = [];
  mem = rows;
  heap = [];
  step = 3;
  program_base = 0;
  type_ok = true;
  func_ok = true;
  enum_ok = true;
  mem_ok = true;
  mem_end = true;
  heap_ok = true;
  ref_select = true;
  ref_update = true;
  ref_insert = true;
  array_ok = true;
  struct_ok = true;
  member_ok = true;
}

abbrev pub zeros : Memory
zeros = λ i. 0

abbrev pub row_of : Memory → MemMsg
row_of img = record { step_id = 3; address = 64; content = bytes img 64 segment }

pub row_of-IsAligned : (img : Memory) → IsAligned (row_of img ∷ [])
row_of-IsAligned img m i = elim i [
  | inl e ↦ omega (arith, ap (λ (x : MemMsg). x.address) e)
  | inr n ↦ elim n [ ]
]

pub row_of_64 : (img : Memory) → row_at 3 (row_of img ∷ []) 64 ≡ some (row_of img)
unfolding row_at latest where_rows
row_of_64 img = refl

pub row_of-Shows : (img : Memory) (n : ℕ) → n ≤ 32 → Shows 3 (row_of img ∷ []) img 64 n
row_of-Shows img n l c aligned above below =
    let here : 64 ≡ c = omega arith in
    subst
      (λ (k : ℕ).
        (row : MemMsg) × (row_at 3 (row_of img ∷ []) k ≡ some row)
        × (row.content ≡ bytes img k segment))
      here (row_of img, row_of_64 img, refl)
