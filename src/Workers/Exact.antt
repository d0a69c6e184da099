-- ===== src/Workers/Exact.antt =====
-- What the workers write, and when they fail.
use mathlib.Core.Path.{ap₂}
use mathlib.Core.List.{append-nil, append_assoc}
use flightrec.Prelude.{
  if_all, ℕ, ◌+◌, ◌/◌, ◌<◌, ◌≡◌, refl, sym, ◌∙◌, ap, List, [], ◌∷◌, ◌++◌, Bool, true, false, not,
  ◌&&◌, Option, none, some, leb, if◌then◌else◌, if_true, if_false, arith, length, inl, inr,
  Bool-cases,
}
use flightrec.Workers.{
  Went, Frame, Written, commit_freq, insert_all, opened, prepared, add_row, is_unique, same_place,
  wrk_insert_mem, wrk_insert_heap,
}
use flightrec.Query.{exists_row}
use flightrec.Memory.{MemMsg}
use flightrec.Heap.{HeapMsg, HeapRow, insert_heap, insert_heap_msgs}

-- The messages that the statements go well for.
abbrev pub fine : Went → Bool
fine w = (w.reset && (w.bind && w.fetch)) && (w.commit && w.begin)

abbrev pub all_fine : {M : Type 0} → List (M × Went) → Bool
all_fine [] = true
all_fine (m ∷ msgs) = fine m.1 && all_fine msgs

module _ {M T : Type 0} (insert : T → M → T) where
  -- The table with the messages in their order.
  unfoldable pub table_of : T → List (M × Went) → T
  table_of t [] = t
  table_of t (m ∷ msgs) = table_of (insert t m.0) msgs

  -- If all statements succeed, the loop ends with the table of all messages in their order, after
  -- one COMMIT for each 4096 of them and one at the end.
  pub insert_all_exact :
      (counter : ℕ) (msgs : List (M × Went)) (w : Written T)
      → counter < commit_freq
      → all_fine msgs ≡ true
      → insert_all insert true counter msgs w
        ≡ some record {
          table = table_of w.table msgs;
          commits = w.commits + (counter + length msgs) / commit_freq + 1;
        }
  unfolding insert_all table_of
  insert_all_exact counter [] w l e =
      ap (λ n. some record { table = w.table; commits = n }) (omega arith)
  insert_all_exact counter ((msg, went) ∷ msgs) w l e =
      let ok : (went.reset && (went.bind && went.fetch)) ≡ true = ground (arith, e) in
      let go : (went.commit && went.begin) ≡ true = ground (arith, e) in
      let rest : all_fine msgs ≡ true = ground (arith, e) in
      let next = insert w.table msg in
      let result : ℕ → Option (Written T) =
        λ n. some record { table = table_of next msgs; commits = n } in
      if_false _ _ (ap not ok) ∙ elim (Bool-cases (leb commit_freq (counter + 1))) [
        | inl full ↦
            let last : counter + 1 ≡ commit_freq = ground (arith, full, l) in
            if_true _ _ full
            ∙ if_true _ _ go
            ∙ insert_all_exact 0 msgs (record { table = next; commits = w.commits + 1 })
                (omega arith) rest
            ∙ ap result (omega (arith, last))
        | inr room ↦
            let more : counter + 1 < commit_freq = ground (arith, room) in
            if_false _ _ room
            ∙ insert_all_exact (counter + 1) msgs (record { table = next; commits = w.commits })
                more rest
            ∙ ap result (omega arith)
      ]

  -- A message of which a statement fails: no table, whatever comes before and after it.
  pub insert_all_fails :
      (last : Bool) (counter : ℕ) (before after : List (M × Went)) (msg : M) (went : Went)
      (w : Written T)
      → went.reset && (went.bind && went.fetch) ≡ false
      → insert_all insert last counter (before ++ ((msg, went) ∷ after)) w ≡ none
  unfolding insert_all
  insert_all_fails last counter [] after msg went w bad = if_true _ _ (ap not bad)
  insert_all_fails last counter ((m, x) ∷ before) after msg went w bad =
      let next = insert w.table m in
      let msgs = before ++ ((msg, went) ∷ after) in
      let go_on : Written T = record { table = next; commits = w.commits } in
      let anew : Written T = record { table = next; commits = w.commits + 1 } in
      let None : Option (Written T) → Type 0 = λ o. o ≡ none in
      if_all None (not (x.reset && (x.bind && x.fetch))) none
        (if leb commit_freq (counter + 1)
          then (if x.commit && x.begin then insert_all insert last 0 msgs anew else none)
          else insert_all insert last (counter + 1) msgs go_on)
        refl
        (if_all None (leb commit_freq (counter + 1))
          (if x.commit && x.begin then insert_all insert last 0 msgs anew else none)
          (insert_all insert last (counter + 1) msgs go_on)
          (if_all None (x.commit && x.begin) (insert_all insert last 0 msgs anew) none
            (insert_all_fails last 0 before after msg went anew bad) refl)
          (insert_all_fails last (counter + 1) before after msg went go_on bad))

-- All statements around the loop succeed.
abbrev pub IsOpen : Frame → Type 0
IsOpen f =
    ((opened f && (f.chown && prepared f)) && (f.attach && (f.copy && f.index))) && f.commit ≡ true

abbrev pub messages : {M : Type 0} → List (M × Went) → List M
messages [] = []
messages (m ∷ msgs) = m.0 ∷ messages msgs

table_of-add_row :
    {M : Type 0} (rows : List M) (msgs : List (M × Went))
    → table_of add_row rows msgs ≡ rows ++ messages msgs
unfolding table_of
table_of-add_row rows [] = sym (append-nil rows)
table_of-add_row rows (m ∷ msgs) =
    table_of-add_row (rows ++ (m.0 ∷ [])) msgs ∙ append_assoc rows (m.0 ∷ []) (messages msgs)

table_of-insert_heap :
    (rows : List HeapRow) (msgs : List (HeapMsg × Went))
    → table_of insert_heap rows msgs ≡ insert_heap_msgs rows (messages msgs)
unfolding table_of insert_heap_msgs
table_of-insert_heap rows [] = refl
table_of-insert_heap rows (m ∷ msgs) = table_of-insert_heap (insert_heap rows m.0) msgs

exists_row-append :
    (test : MemMsg → Bool) (mid after : List MemMsg) (b : MemMsg)
    → test b ≡ true
    → exists_row test (mid ++ (b ∷ after)) ≡ true
unfolding exists_row
exists_row-append test [] after b e = if_true _ _ e
exists_row-append test (x ∷ mid) after b e =
    if_all (λ t. t ≡ true) (test x) true (exists_row test (mid ++ (b ∷ after))) refl
      (exists_row-append test mid after b e)

is_unique-repeated :
    (before mid after : List MemMsg) (a b : MemMsg)
    → same_place a b ≡ true
    → is_unique (before ++ (a ∷ (mid ++ (b ∷ after)))) ≡ false
unfolding is_unique
is_unique-repeated [] mid after a b e =
    ap (λ t. not t && is_unique (mid ++ (b ∷ after)))
      (exists_row-append (same_place a) mid after b e)
is_unique-repeated (x ∷ before) mid after a b e =
    let rows = before ++ (a ∷ (mid ++ (b ∷ after))) in
    let rest = is_unique-repeated before mid after a b e in ground (arith, rest)

module _ (f : Frame) (open_all : IsOpen f) where
  mem_run :
      (msgs : List (MemMsg × Went))
      → all_fine msgs ≡ true
      → wrk_insert_mem f msgs ≡ (if is_unique (messages msgs) then some (messages msgs) else none)
  unfolding wrk_insert_mem
  mem_run msgs fine_all =
      let start : opened f && (f.chown && prepared f) ≡ true = ground (arith, open_all) in
      let commit : f.commit ≡ true = ground (arith, open_all) in
      let attach : f.attach ≡ true = ground (arith, open_all) in
      let copy : f.copy ≡ true = ground (arith, open_all) in
      let index : f.index ≡ true = ground (arith, open_all) in
      let empty : Written (List MemMsg) = record { table = []; commits = 0 } in
      if_true _ _ start
      ∙ ap finish (
          ap (λ b. insert_all add_row b 0 msgs empty) commit
          ∙ insert_all_exact add_row 0 msgs empty (omega arith) fine_all)
      ∙ ap₂ (λ a b. if a && b then some (table_of add_row [] msgs) else none) attach
          (ap₂ (λ a b. a && (b && is_unique (table_of add_row [] msgs))) copy index)
      ∙ ap (λ rows. if is_unique rows then some rows else none) (table_of-add_row [] msgs)
    where
      finish : Option (Written (List MemMsg)) → Option (List MemMsg)
      finish o = elim o [
        | none ↦ none
        | some w ↦
            if f.attach && (f.copy && (f.index && is_unique w.table)) then some w.table else none
      ]

  -- The rows of the table `heap`.
  wrk_insert_heap_rows :
      (msgs : List (HeapMsg × Went))
      → all_fine msgs ≡ true
      → wrk_insert_heap f msgs ≡ some (insert_heap_msgs [] (messages msgs))
  unfolding wrk_insert_heap
  wrk_insert_heap_rows msgs fine_all =
      let start : opened f && (f.chown && prepared f) ≡ true = ground (arith, open_all) in
      let commit : f.commit ≡ true = ground (arith, open_all) in
      let copied : f.attach && f.copy ≡ true = ground (arith, open_all) in
      let empty : Written (List HeapRow) = record { table = []; commits = 0 } in
      if_true _ _ start
      ∙ ap finish (
          ap (λ b. insert_all insert_heap b 0 msgs empty) commit
          ∙ insert_all_exact insert_heap 0 msgs empty (omega arith) fine_all)
      ∙ if_true _ _ copied
      ∙ ap some (table_of-insert_heap [] msgs)
    where
      finish : Option (Written (List HeapRow)) → Option (List HeapRow)
      finish o = elim o [ none ↦ none | some w ↦ if f.attach && f.copy then some w.table else none ]

  -- If all statements succeed and no two messages are about the same address at the same step, the
  -- table `mem` has the messages, in the order in which they were sent.
  pub wrk_insert_mem_keeps :
      (msgs : List (MemMsg × Went))
      → all_fine msgs ≡ true
      → is_unique (messages msgs) ≡ true
      → wrk_insert_mem f msgs ≡ some (messages msgs)
  wrk_insert_mem_keeps msgs fine_all once = mem_run msgs fine_all ∙ if_true _ _ once

  -- If two messages are about the same address at the same step, the unique index cannot be made,
  -- and the worker fails although all other statements succeed.
  pub wrk_insert_mem_refused :
      (msgs : List (MemMsg × Went)) (before mid after : List MemMsg) (a b : MemMsg)
      → all_fine msgs ≡ true
      → messages msgs ≡ before ++ (a ∷ (mid ++ (b ∷ after)))
      → a.address ≡ b.address
      → a.step_id ≡ b.step_id
      → wrk_insert_mem f msgs ≡ none
  wrk_insert_mem_refused msgs before mid after a b fine_all e address step =
      mem_run msgs fine_all
      ∙ if_false _ _
          (ap is_unique e ∙ is_unique-repeated before mid after a b (ground (arith, address, step)))
