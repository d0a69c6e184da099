-- ===== src/Session/Breakpoints.antt =====
-- examine/requests.c: `process_breakpoints`, which replaces the breakpoints of one source file.
use flightrec.Prelude.{
  ℕ, suc, ◌≡◌, refl, ◌∙◌, ap, List, [], ◌∷◌, ◌++◌, map, Bool, true, false, not, ◌&&◌, ◌||◌, Option,
  none, some, ◌==◌, if◌then◌else◌, arith, Bool-cases, inl, inr, if_true, if_false,
}
use flightrec.Query.{where_rows, exists_row}
use flightrec.Session.{Row}
use flightrec.Session.Continue.{Breakpoint}

-- The table `file`: a name and its id.
pub record File : Type 0 where
  pub name : ℕ
  pub id : ℕ

-- Whether the calls succeed: the query of the file, the DELETE, the preparation of the INSERT, and
-- the INSERT of each line by its index.
pub record TableCalls : Type 0 where
  pub query_ok : Bool
  pub delete_ok : Bool
  pub prepare_ok : Bool
  pub insert_ok : ℕ → Bool

unfoldable pub find_file : ℕ → List File → Option ℕ
find_file name [] = none
find_file name (f ∷ files) = if f.name == name then some f.id else find_file name files

-- The INSERT ... SELECT finds a recorded step on the line.
abbrev pub is_stoppable : List Row → ℕ → ℕ → Bool
is_stoppable rows fid line = exists_row (λ (r : Row). (r.file_id == fid) && (r.line == line)) rows

-- The table, the `verified` fields of the response, and whether all lines were taken. A line that
-- is missing from the request, or an INSERT that fails, ends the loop.
pub record Added : Type 0 where
  pub table : List Breakpoint
  pub verified : List Bool
  pub success : Bool

unfoldable pub add_breakpoints :
    (ℕ → Bool) → List Row → ℕ → ℕ → List (Option ℕ) → List Breakpoint → Added
unfolding exists_row
add_breakpoints insert_ok rows fid i [] table = record {
  table = table;
  verified = [];
  success = true;
}
add_breakpoints insert_ok rows fid i (none ∷ lines) table = record {
  table = table;
  verified = [];
  success = false;
}
add_breakpoints insert_ok rows fid i (some line ∷ lines) table =
    let fits = is_stoppable rows fid line in
    let table' = if fits then table ++ (record { file_id = fid; line = line } ∷ []) else table in
    let rest = add_breakpoints insert_ok rows fid (suc i) lines table' in
    if insert_ok i
    then record { table = rest.table; verified = fits ∷ rest.verified; success = rest.success }
    else record { table = table; verified = []; success = false }

abbrev pub failed_with : List Breakpoint → Added
failed_with table = record { table = table; verified = []; success = false }

-- `name` and `lines` are none where the request does not have them.
unfoldable pub process_breakpoints :
    TableCalls
    → List File
    → List Row
    → Option ℕ
    → Option (List (Option ℕ))
    → List Breakpoint
    → Added
unfolding find_file where_rows add_breakpoints exists_row
process_breakpoints calls files rows none lines table = failed_with table
process_breakpoints calls files rows (some name) lines table =
    if calls.query_ok
    then elim (find_file name files) [
      | none ↦ failed_with table
      | some fid ↦
          if calls.delete_ok
          then (let cleared = where_rows (λ (b : Breakpoint). not (b.file_id == fid)) table in
              elim lines [
                | none ↦ failed_with cleared
                | some wanted ↦
                    if calls.prepare_ok
                    then add_breakpoints calls.insert_ok rows fid 0 wanted cleared
                    else failed_with cleared
              ])
          else failed_with table
    ]
    else failed_with table

abbrev pub at_line : ℕ → ℕ → Breakpoint → Bool
at_line fid line b = (b.file_id == fid) && (b.line == line)

exists_row-append :
    {A : Type 0} (test : A → Bool) (xs ys : List A)
    → exists_row test (xs ++ ys) ≡ (exists_row test xs || exists_row test ys)
unfolding exists_row
exists_row-append test [] ys = refl
exists_row-append test (x ∷ xs) ys = elim (Bool-cases (test x)) [
  | inl e ↦ rw e refl
  | inr e ↦ rw e (exists_row-append test xs ys)
]

module _ (rows : List Row) (fid line : ℕ) (table : List Breakpoint) (f l : ℕ) where
  add_one-lookup :
      exists_row (at_line f l) (
        if is_stoppable rows fid line
        then table ++ (record { file_id = fid; line = line } ∷ [])
        else table)
      ≡ (exists_row (at_line f l) table || ((f == fid) && (line == l) && is_stoppable rows fid l))
  unfolding exists_row
  add_one-lookup =
      split (is_stoppable rows fid line) (is_stoppable rows fid l)
        (λ e. ap (is_stoppable rows fid) e)
    where
      added :
          (x s : Bool)
          → (line ≡ l → true ≡ s)
          → (x || (if (fid == f) && (line == l) then true else false))
            ≡ (x || ((f == fid) && (line == l) && s))
      added x s h = ground arith

      kept : (x s : Bool) → (line ≡ l → false ≡ s) → x ≡ (x || ((f == fid) && (line == l) && s))
      kept x s h = ground arith

      split :
          (now after : Bool)
          → (line ≡ l → now ≡ after)
          → exists_row
              (at_line f l)
              (if now then table ++ (record { file_id = fid; line = line } ∷ []) else table)
            ≡ (exists_row (at_line f l) table || ((f == fid) && (line == l) && after))
      split true s h =
          exists_row-append (at_line f l) table (record { file_id = fid; line = line } ∷ [])
          ∙ added (exists_row (at_line f l) table) s h
      split false s h = kept (exists_row (at_line f l) table) s h

module _ (insert_ok : ℕ → Bool) (rows : List Row) (fid : ℕ)
    (ok : (i : ℕ) → insert_ok i ≡ true) where
  -- With no failing call, the loop adds each wanted line that is stoppable.
  add_breakpoints-lookup :
      (wanted : List ℕ) (i : ℕ) (table : List Breakpoint) (f l : ℕ)
      → exists_row
          (at_line f l)
          (add_breakpoints insert_ok rows fid i (map some wanted) table).table
        ≡ (exists_row (at_line f l) table
            || ((f == fid) && exists_row (λ w. w == l) wanted && is_stoppable rows fid l))
  unfolding add_breakpoints exists_row
  add_breakpoints-lookup [] i table f l = ground arith
  add_breakpoints-lookup (line ∷ wanted) i table f l = rw (ok i) (
      add_breakpoints-lookup wanted (suc i)
        (if is_stoppable rows fid line
          then table ++ (record { file_id = fid; line = line } ∷ [])
          else table)
        f l
      ∙ ap (λ b. b || ((f == fid) && exists_row (λ w. w == l) wanted && is_stoppable rows fid l))
          (add_one-lookup rows fid line table f l)
      ∙ gather (exists_row (at_line f l) table) (f == fid) (line == l)
          (exists_row (λ w. w == l) wanted) (is_stoppable rows fid l))
    where
      gather :
          (x a b c d : Bool)
          → ((x || (a && b && d)) || (a && c && d)) ≡ (x || (a && (if b then true else c) && d))
      gather x a b c d = ground arith

  cleared-lookup :
      (table : List Breakpoint) (f l : ℕ)
      → exists_row (at_line f l) (where_rows (λ (b : Breakpoint). not (b.file_id == fid)) table)
        ≡ (not (f == fid) && exists_row (at_line f l) table)
  unfolding exists_row where_rows
  cleared-lookup [] f l = ground arith
  cleared-lookup (b ∷ table) f l =
      split
        (exists_row (at_line f l) (where_rows (λ (b : Breakpoint). not (b.file_id == fid)) table))
        (exists_row (at_line f l) table) refl (cleared-lookup table f l)
    where
      gone :
          (x y : Bool)
          → (b.file_id == fid) ≡ true
          → x ≡ (not (f == fid) && y)
          → x ≡ (not (f == fid) && (if at_line f l b then true else y))
      gone x y e k = ground arith

      kept :
          (x y : Bool)
          → (b.file_id == fid) ≡ false
          → x ≡ (not (f == fid) && y)
          → (if at_line f l b then true else x)
            ≡ (not (f == fid) && (if at_line f l b then true else y))
      kept x y e k = ground arith

      split :
          (x y : Bool)
          → exists_row (at_line f l) (where_rows (λ (c : Breakpoint). not (c.file_id == fid)) table)
            ≡ x
          → x ≡ (not (f == fid) && y)
          → exists_row (at_line f l) (
              if not (b.file_id == fid)
              then b ∷ where_rows (λ (c : Breakpoint). not (c.file_id == fid)) table
              else where_rows (λ (c : Breakpoint). not (c.file_id == fid)) table)
            ≡ (not (f == fid) && (if at_line f l b then true else y))
      split x y w e = elim (Bool-cases (b.file_id == fid)) [
        | inl k ↦ ap (exists_row (at_line f l)) (if_false _ _ (ap not k)) ∙ w ∙ gone x y k e
        | inr k ↦
            ap (exists_row (at_line f l)) (if_true _ _ (ap not k))
            ∙ ap (λ r. if at_line f l b then true else r) w
            ∙ kept x y k e
      ]

-- If no call fails and the request has a file that is known and its lines, then afterwards there
-- is a breakpoint on a line exactly if the line was asked for and is that of a recorded step, where
-- the file is the requested one, and if there was one before, where it is another file.
pub process_breakpoints_exact :
    (calls : TableCalls) (files : List File) (rows : List Row) (name fid : ℕ) (wanted : List ℕ)
    (table : List Breakpoint)
    → calls.query_ok ≡ true
    → calls.delete_ok ≡ true
    → calls.prepare_ok ≡ true
    → ((i : ℕ) → calls.insert_ok i ≡ true)
    → find_file name files ≡ some fid
    → (f l : ℕ)
    → exists_row
        (at_line f l)
        (process_breakpoints calls files rows (some name) (some (map some wanted)) table).table
      ≡ (if f == fid
          then exists_row (λ w. w == l) wanted && is_stoppable rows fid l
          else exists_row (at_line f l) table)
unfolding process_breakpoints exists_row
process_breakpoints_exact calls files rows name fid wanted table q d p ok found f l =
    rw (q, found, d, p)
      (add_breakpoints-lookup calls.insert_ok rows fid ok wanted 0
          (where_rows (λ (b : Breakpoint). not (b.file_id == fid)) table) f l
        ∙ ap (λ b. b || ((f == fid) && exists_row (λ w. w == l) wanted && is_stoppable rows fid l))
            (cleared-lookup calls.insert_ok rows fid ok table f l)
        ∙ gather (f == fid) (exists_row (at_line f l) table) (exists_row (λ w. w == l) wanted)
            (is_stoppable rows fid l))
  where
    gather : (a x y z : Bool) → ((not a && x) || (a && y && z)) ≡ (if a then y && z else x)
    gather a x y z = ground arith
