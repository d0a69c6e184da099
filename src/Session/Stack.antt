-- ===== src/Session/Stack.antt =====
-- examine/requests.c: `process_stack`, which reports the frames of the current position: for each
-- depth up to the current one the last step so far, the deepest first.
use flightrec.Prelude.{
  ℕ, zero, suc, ◌+◌, ◌-◌, ◌≤◌, ◌<◌, ◌≡◌, refl, ◌∙◌, ap, List, [], ◌∷◌, Bool, true, false, not, ◌&&◌,
  ltb, leb, ◌==◌, if◌then◌else◌, arith, dec_lt, length, drop,
}
use flightrec.Query.{where_rows, order_by, exists_row}
use flightrec.Session.{Position}
use flightrec.Lookup.{sub64}

-- A row of the table `step`.
pub record Step : Type 0 where
  pub id : ℕ
  pub depth : ℕ

-- The columns that the query selects, and the depth, by which it orders. Numbers stand for names.
pub record FrameRow : Type 0 where
  pub file_id : ℕ
  pub file : ℕ
  pub path : ℕ
  pub line : ℕ
  pub function : ℕ
  pub scope : ℕ
  pub step : ℕ
  pub depth : ℕ

-- `struct frame`, one for each fetched row.
pub record Frame : Type 0 where
  pub id : ℕ
  pub scope : ℕ
  pub step : ℕ
  pub file : ℕ
  pub line : ℕ

-- An item of the response.
pub record Item : Type 0 where
  pub id : ℕ
  pub name : ℕ
  pub line : ℕ
  pub file : ℕ
  pub path : ℕ

-- SELECT MAX(id) FROM step WHERE id <= ? AND depth <= ? GROUP BY depth.
abbrev pub in_call : Position → Step → Bool
in_call pos s = leb s.id pos.step && leb s.depth pos.depth

abbrev pub is_top : List Step → Position → Step → Bool
is_top steps pos s =
    in_call pos s
    && not (exists_row (λ t. in_call pos t && (t.depth == s.depth) && ltb s.id t.id) steps)

-- SELECT DISTINCT leaves one of the rows that are equal.
abbrev pub same_row : FrameRow → FrameRow → Bool
same_row a b =
    (a.file_id == b.file_id)
    && (a.file == b.file)
    && (a.path == b.path)
    && (a.line == b.line)
    && (a.function == b.function)
    && (a.scope == b.scope)
    && (a.step == b.step)

unfoldable pub distinct : List FrameRow → List FrameRow
unfolding where_rows
distinct [] = []
distinct (r ∷ rows) = r ∷ where_rows (λ s. not (same_row r s)) (distinct rows)

unfoldable pub stack_rows : List Step → List FrameRow → Position → List FrameRow
unfolding where_rows order_by exists_row distinct
stack_rows steps rows pos = distinct (
    order_by (λ a b. ltb b.depth a.depth)
      (where_rows (λ r. exists_row (λ s. (s.id == r.step) && is_top steps pos s) steps) rows))

abbrev pub tail : List Frame → List Frame
tail [] = []
tail (f ∷ frames) = frames

abbrev pub frame_of : ℕ → FrameRow → Frame
frame_of id r = record { id = id; scope = r.scope; step = r.step; file = r.file_id; line = r.line }

abbrev pub item_of : ℕ → FrameRow → Item
item_of id r = record { id = id; name = r.function; line = r.line; file = r.file; path = r.path }

-- What the loop leaves: the items, the frame list, whose old nodes are reused and kept beyond the
-- new ones, the next id, and whether the last fetch found no more rows.
pub record Walk : Type 0 where
  pub items : List Item
  pub frames : List Frame
  pub next_id : ℕ
  pub no_data : Bool

unfoldable pub walk : ℕ → ℕ → List FrameRow → List Frame → ℕ → Walk
walk skip max [] old id = record { items = []; frames = old; next_id = id; no_data = true }
walk skip max (r ∷ rows) old id =
    let rest = walk skip max rows (tail old) (id + 1) in
    if ltb id skip
    then record rest { frames = frame_of id r ∷ rest.frames }
    else if leb max (id - skip)
    then record { items = []; frames = frame_of id r ∷ tail old; next_id = id; no_data = false }
    else record rest { items = item_of id r ∷ rest.items; frames = frame_of id r ∷ rest.frames }

-- The response's items and its field `totalFrames`, the frame list, and whether the request succeeds.
pub record Trace : Type 0 where
  pub items : List Item
  pub total : ℕ
  pub frames : List Frame
  pub success : Bool

-- `query_ok` says that the query could be opened or bound. The fetches all succeed.
unfoldable pub process_stack :
    Bool → ℕ → ℕ → List Step → List FrameRow → List Frame → Position → Trace
unfolding walk stack_rows where_rows order_by exists_row distinct
process_stack query_ok skip max steps rows old pos =
    if query_ok
    then (let w = walk skip max (stack_rows steps rows pos) old 0 in
        record {
          items = w.items;
          total = sub64 w.next_id skip;
          frames = w.frames;
          success = w.no_data;
        })
    else record { items = []; total = 0; frames = old; success = false }

-- The items and the frames for the rows, numbered from `id` on.
unfoldable pub items_from : ℕ → List FrameRow → List Item
items_from id [] = []
items_from id (r ∷ rows) = item_of id r ∷ items_from (id + 1) rows

unfoldable pub frames_from : ℕ → List FrameRow → List Frame
frames_from id [] = []
frames_from id (r ∷ rows) = frame_of id r ∷ frames_from (id + 1) rows

walk-no_data :
    (skip max : ℕ) (rows : List FrameRow) (old : List Frame) (id : ℕ)
    → id + length rows ≤ skip + max
    → (walk skip max rows old id).no_data ≡ true
unfolding walk
walk-no_data skip max [] old id h = refl
walk-no_data skip max (r ∷ rows) old id h =
    let e = walk-no_data skip max rows (tail old) (id + 1) (omega arith) in ground (arith, e)

walk-cut :
    (skip max : ℕ) (rows : List FrameRow) (old : List Frame) (id : ℕ)
    → skip + max < id + length rows
    → id ≤ skip + max
    → (walk skip max rows old id).no_data ≡ false
unfolding walk
walk-cut skip max [] old id h k = absurd (omega arith)
walk-cut skip max (r ∷ rows) old id h k = elim (dec_lt id (skip + max)) [
  | yes more ↦
      let e = walk-cut skip max rows (tail old) (id + 1) (omega arith) (omega arith) in
      let inside : ltb id skip ≡ false → leb max (id - skip) ≡ false = λ past. ground arith in
      ground (arith, e, inside)
  | no full ↦ ground arith
]

walk-shown :
    (skip max : ℕ) (rows : List FrameRow) (old : List Frame) (id : ℕ)
    → skip ≤ id
    → id + length rows ≤ skip + max
    → (walk skip max rows old id).items ≡ items_from id rows
unfolding walk items_from
walk-shown skip max [] old id h k = refl
walk-shown skip max (r ∷ rows) old id h k =
    let e = walk-shown skip max rows (tail old) (id + 1) (omega arith) (omega arith) in
    let past : ltb id skip ≡ false = ground arith in
    let fits : leb max (id - skip) ≡ false = ground arith in
    rw (past, fits) (ap (λ l. item_of id r ∷ l) e)

walk-items :
    (skip max : ℕ) (rows : List FrameRow) (old : List Frame) (id k : ℕ)
    → id + k ≡ skip
    → id + length rows ≤ skip + max
    → (walk skip max rows old id).items ≡ items_from skip (drop k rows)
unfolding walk items_from
walk-items skip max rows old id zero e h =
    walk-shown skip max rows old id (omega arith) h ∙ ap (λ n. items_from n rows) (omega arith)
walk-items skip max [] old id (suc k) e h = refl
walk-items skip max (r ∷ rows) old id (suc k) e h =
    let rest = walk-items skip max rows (tail old) (id + 1) k (omega arith) (omega arith) in
    let before : ltb id skip ≡ true = ground arith in rw before rest

walk-next_id :
    (skip max : ℕ) (rows : List FrameRow) (old : List Frame) (id : ℕ)
    → id + length rows ≤ skip + max
    → (walk skip max rows old id).next_id ≡ id + length rows
unfolding walk
walk-next_id skip max [] old id h = omega arith
walk-next_id skip max (r ∷ rows) old id h =
    let e = walk-next_id skip max rows (tail old) (id + 1) (omega arith) in ground (arith, e)

module _ (skip max : ℕ) (steps : List Step) (rows : List FrameRow) (old : List Frame)
    (pos : Position) where
  -- If the query and its fetches succeed, and the frames to skip and those wanted cover the
  -- stack, the request succeeds, and its items are
  -- all the frames but the skipped ones, in order and numbered from the first that is shown.
  pub process_stack_complete :
      length (stack_rows steps rows pos) ≤ skip + max
      → ((process_stack true skip max steps rows old pos).success ≡ true)
        × ((process_stack true skip max steps rows old pos).items
            ≡ items_from skip (drop skip (stack_rows steps rows pos)))
  unfolding process_stack
  process_stack_complete h = (
    walk-no_data skip max (stack_rows steps rows pos) old 0 (omega arith),
    walk-items skip max (stack_rows steps rows pos) old 0 skip (omega arith) (omega arith),
  )

  -- If the stack has more frames than are skipped and wanted, the request fails, since the loop
  -- ends with a row fetched, which the test after it takes for an error.
  pub process_stack_cut :
      skip + max < length (stack_rows steps rows pos)
      → (process_stack true skip max steps rows old pos).success ≡ false
  unfolding process_stack
  process_stack_cut h =
      walk-cut skip max (stack_rows steps rows pos) old 0 (omega arith) (omega arith)
