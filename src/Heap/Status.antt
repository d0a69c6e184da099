-- ===== src/Heap/Status.antt =====
-- What the rows of the heap worker say of an address, against the messages themselves.
use mathlib.Core.Path.{subst}
use flightrec.Prelude.{
  ℕ, ◌≤◌, ◌<◌, ◌≡◌, ◌≢◌, refl, sym, ◌∙◌, ap, List, [], ◌∷◌, ◌++◌, Bool, true, false, not, ◌&&◌,
  Option, none, some, leb, ◌==◌, if◌then◌else◌, arith, inl, inr, Bool-cases, Option-cases,
  ℕ_discrete, if_true, if_false, test_eq, test_ne,
}
use flightrec.Query.Append.{In-append, In-append_right}
use flightrec.Query.{In, where_rows, order_by, first_row, first_row-some, first_row-none}
use flightrec.Heap.{
  HeapMsg, HeapRow, free_rows, insert_heap, insert_heap_msgs, allocated, released, elsewhere,
  not_found, failure, newest, is_candidate, find_row, get_pointer_size,
}
use flightrec.Heap.Rows.{
  newest-IsOrder, find_row-free_rows, where_rows-append_no, free_row-address, free_row-allocated_at,
}
use flightrec.Heap.Life.{
  Life, unknown, live, dead, happen, life_after, answer, is_allocation, IsLog, Agree,
  released-Agree, passed-Agree,
}

module _ (address step : ℕ) (table : List HeapRow) where
  find_row-address : (r : HeapRow) → find_row table address step ≡ some r → r.address ≡ address
  unfolding find_row
  find_row-address r e =
      let (i, t, k) = first_row-some newest newest-IsOrder (is_candidate address step) table r e in
      ground arith

  module _ (n : HeapRow) where
    find_row-other :
        is_candidate address step n ≡ false
        → find_row (table ++ (n ∷ [])) address step ≡ find_row table address step
    unfolding find_row
    find_row-other e =
        ap (λ l. first_row (order_by newest l))
          (where_rows-append_no (is_candidate address step) table n e)

    find_row-new :
        is_candidate address step n ≡ true
        → ((x : HeapRow) → In x table → x.address ≡ address → x.allocated_at < n.allocated_at)
        → find_row (table ++ (n ∷ [])) address step ≡ some n
    unfolding find_row
    find_row-new e older =
        elim (Option-cases (
          first_row
            (order_by newest (where_rows (is_candidate address step) (table ++ (n ∷ [])))))) [
              | inl k ↦
                  let no =
                    first_row-none newest newest-IsOrder (is_candidate address step)
                      (table ++ (n ∷ [])) k n (In-append_right n table (n ∷ []) (inl refl)) in
                  absurd (cc)
              | inr (x, k) ↦
                  let (i, t, front) =
                    first_row-some newest newest-IsOrder (is_candidate address step)
                      (table ++ (n ∷ [])) x k in
                  let least = front n (In-append_right n table (n ∷ []) (inl refl)) e in
                  elim (In-append x table (n ∷ []) i) [
                    | inl m ↦ absurd (clash x t least (older x m))
                    | inr m ↦ elim m [ inl q ↦ k ∙ ap some q | inr none_left ↦ elim none_left [ ] ]
                  ]
            ]
      where
        clash :
            (x : HeapRow)
            → is_candidate address step x ≡ true
            → newest n x ≡ false
            → (x.address ≡ address → x.allocated_at < n.allocated_at)
            → ⊥
        clash x t least young = ground arith

-- The rows of the address were allocated up to the step `from`.
abbrev UpTo : ℕ → ℕ → List HeapRow → Type 0
UpTo address from table = (x : HeapRow) → In x table → x.address ≡ address → x.allocated_at ≤ from

free_rows-UpTo :
    (address from at other : ℕ) (table : List HeapRow)
    → UpTo address from table
    → UpTo address from (free_rows at other table)
unfolding free_rows
free_rows-UpTo address from at other [] h x m e = elim m [ ]
free_rows-UpTo address from at other (y ∷ table) h x (inl k) e =
    let a = ap (λ (r : HeapRow). r.allocated_at) k in
    let b = free_row-allocated_at at other y in
    let c =
      h y (inl refl)
        (sym (free_row-address at other y) ∙ ap (λ (r : HeapRow). r.address) (sym k) ∙ e) in
    omega arith
free_rows-UpTo address from at other (y ∷ table) h x (inr m) e =
    free_rows-UpTo address from at other table (λ z n. h z (inr n)) x m e

allocation_row : HeapMsg → HeapRow
allocation_row msg = record {
  address = msg.address;
  size = msg.size;
  allocated_at = msg.step_id;
  freed_at = 0;
}

insert_heap-allocation :
    (table : List HeapRow) (msg : HeapMsg)
    → msg.size ≢ 0
    → insert_heap table msg ≡ table ++ (allocation_row msg ∷ [])
unfolding insert_heap allocation_row
insert_heap-allocation table msg h = if_true _ _ (ap not (test_ne msg.size 0 h))

insert_heap-release :
    (table : List HeapRow) (msg : HeapMsg)
    → msg.size ≡ 0
    → insert_heap table msg ≡ free_rows msg.step_id msg.address table
unfolding insert_heap
insert_heap-release table msg h = if_false _ _ (ap not (test_eq msg.size 0 h))

later-Agree :
    (step last s : ℕ) (o : Option HeapRow) (life : Life)
    → last ≤ s
    → Agree step last o life
    → Agree step s o life
later-Agree step last s none unknown h v = tt
later-Agree step last s none (live n) h v = elim v [ ]
later-Agree step last s none dead h v = elim v [ ]
later-Agree step last s (some r) unknown h v = elim v [ ]
later-Agree step last s (some r) (live n) h (size, inl e) = (size, inl e)
later-Agree step last s (some r) (live n) h (size, inr (a, b)) = (size, inr (a, omega arith))
later-Agree step last s (some r) dead h v = v

cast-Agree :
    (step last : ℕ) {o o' : Option HeapRow} {life life' : Life}
    → o ≡ o'
    → life ≡ life'
    → Agree step last o' life'
    → Agree step last o life
cast-Agree step last {o' = o'} {life = life} e k v =
    subst (λ p. Agree step last p life) (sym e) (subst (λ l. Agree step last o' l) (sym k) v)

empty-Agree : (address step : ℕ) → Agree step 1 (find_row [] address step) unknown
unfolding find_row where_rows order_by
empty-Agree address step = tt

module _ (address step : ℕ) where
  bound_from :
      (msg : HeapMsg) (from : ℕ)
      → (is_allocation address msg ≡ true → from < msg.step_id)
      → from ≤ (if is_allocation address msg then msg.step_id else from)
  bound_from msg from fresh = elim (Bool-cases (is_allocation address msg)) [
    | inl e ↦
        let lt = fresh e in
        let k : (if is_allocation address msg then msg.step_id else from) ≡ msg.step_id =
          if_true _ _ e in
        omega arith
    | inr e ↦
        let k : (if is_allocation address msg then msg.step_id else from) ≡ from = if_false _ _ e in
        omega arith
  ]

  insert_heap-UpTo :
      (msg : HeapMsg) (table : List HeapRow) (from : ℕ)
      → (is_allocation address msg ≡ true → from < msg.step_id)
      → UpTo address from table
      → UpTo address
          (if is_allocation address msg then msg.step_id else from)
          (insert_heap table msg)
  unfolding allocation_row
  insert_heap-UpTo msg table from fresh old x m e = elim (ℕ_discrete msg.size 0) [
    | yes z ↦
        let n = subst (λ l. In x l) (insert_heap-release table msg z) m in
        let b = free_rows-UpTo address from msg.step_id msg.address table old x n e in
        let c = bound_from msg from fresh in omega arith
    | no nz ↦
        elim (In-append x table (allocation_row msg ∷ [])
          (subst (λ l. In x l) (insert_heap-allocation table msg nz) m)) [
            | inl n ↦ let b = old x n e in let c = bound_from msg from fresh in omega arith
            | inr n ↦ elim n [
              | inl q ↦
                  let here : msg.address ≡ address = sym (ap (λ (r : HeapRow). r.address) q) ∙ e in
                  let is_new : is_allocation address msg ≡ true =
                    both (test_eq msg.address address here) (ap not (test_ne msg.size 0 nz)) in
                  let k : (if is_allocation address msg then msg.step_id else from) ≡ msg.step_id =
                    if_true _ _ is_new in
                  let j = ap (λ (r : HeapRow). r.allocated_at) q in omega arith
              | inr nothing ↦ elim nothing [ ]
            ]
          ]
  ]
    where
      both : {a b : Bool} → a ≡ true → b ≡ true → (a && b) ≡ true
      both h k = ground arith

  insert_heap-Agree :
      (msg : HeapMsg) (table : List HeapRow) (life : Life) (last from : ℕ)
      → 1 ≤ last
      → last ≤ msg.step_id
      → (is_allocation address msg ≡ true → from < msg.step_id)
      → UpTo address from table
      → Agree step last (find_row table address step) life
      → Agree step msg.step_id
          (find_row (insert_heap table msg) address step)
          (happen address step life msg)
  unfolding happen allocation_row
  insert_heap-Agree msg table life last from pos order fresh old v =
      let seen = (msg.address == address) && leb msg.step_id step in
      elim (ℕ_discrete msg.size 0) [
        | yes z ↦
            let found =
              ap (λ l. find_row l address step) (insert_heap-release table msg z)
              ∙ find_row-free_rows msg.step_id msg.address table address step in
            elim (Bool-cases seen) [
              | inl e ↦
                  cast-Agree step msg.step_id found
                    (if_true _ _ e ∙ if_false _ _ (ap not (test_eq msg.size 0 z)))
                    (released-Agree address step last msg.step_id msg.address order (omega arith)
                      (find_row table address step) life (ground arith) (ground arith)
                      (find_row-address address step table) v)
              | inr e ↦ cast-Agree step msg.step_id found (if_false _ _ e) (
                  passed-Agree address step last msg.step_id msg.address order (omega arith)
                    (find_row table address step) life (λ here. ground arith)
                    (find_row-address address step table) v)
            ]
        | no nz ↦
            let stored = ap (λ l. find_row l address step) (insert_heap-allocation table msg nz) in
            elim (Bool-cases seen) [
              | inl e ↦
                  let young : (x : HeapRow)
                      → In x table
                      → x.address ≡ address
                      → x.allocated_at < msg.step_id =
                    λ x m q. let a = old x m q in let b = fresh (fresh_here e nz) in omega arith in
                  cast-Agree step msg.step_id
                    (stored ∙ find_row-new address step table (allocation_row msg) e young)
                    (if_true _ _ e ∙ if_true _ _ (ap not (test_ne msg.size 0 nz))) (refl, inl refl)
              | inr e ↦
                  cast-Agree step msg.step_id
                    (stored ∙ find_row-other address step table (allocation_row msg) e)
                    (if_false _ _ e)
                    (later-Agree step last msg.step_id (find_row table address step) life order v)
            ]
      ]
    where
      fresh_here :
          ((msg.address == address) && leb msg.step_id step) ≡ true
          → msg.size ≢ 0
          → is_allocation address msg ≡ true
      fresh_here e nz = ground arith

  -- The messages so far, and those to come.
  life-Agree :
      (msgs : List HeapMsg) (table : List HeapRow) (life : Life) (last from : ℕ)
      → 1 ≤ last
      → IsLog address last from msgs
      → UpTo address from table
      → Agree step last (find_row table address step) life
      → (end : ℕ) × Agree step end
          (find_row (insert_heap_msgs table msgs) address step)
          (life_after address step life msgs)
  unfolding insert_heap_msgs life_after
  life-Agree [] table life last from pos log old v = (last, v)
  life-Agree (msg ∷ msgs) table life last from pos (order, fresh, log) old v =
      life-Agree msgs (insert_heap table msg) (happen address step life msg) msg.step_id
        (if is_allocation address msg then msg.step_id else from) (omega arith) log
        (insert_heap-UpTo msg table from fresh old)
        (insert_heap-Agree msg table life last from pos order fresh old v)

  -- If the messages are in the order of their steps, which are counted from 1, no step allocates
  -- the address twice, and the query of the heap succeeds, then at each step `get_pointer_size` gives the size of the memory that was
  -- allocated at the address and not released, says so if it was released, and asks the memory if
  -- it was never allocated.
  pub get_pointer_size_exact :
      (mem_ok in_memory : Bool) (msgs : List HeapMsg)
      → IsLog address 1 0 msgs
      → get_pointer_size true mem_ok in_memory (insert_heap_msgs [] msgs) address step
        ≡ answer mem_ok in_memory (life_after address step unknown msgs)
  unfolding get_pointer_size
  get_pointer_size_exact mem_ok in_memory msgs log =
      let (end, v) =
        life-Agree msgs [] unknown 1 0 (omega arith) log (λ x m e. elim m [ ])
          (empty-Agree address step) in
      step_of (find_row (insert_heap_msgs [] msgs) address step)
        (life_after address step unknown msgs) end v
    where
      step_of :
          (o : Option HeapRow) (life : Life) (end : ℕ)
          → Agree step end o life
          → elim o [
            | some r ↦
                if not (r.freed_at == 0) && leb r.freed_at step then released else allocated r.size
            | none ↦ if mem_ok then (if in_memory then elsewhere else not_found) else failure
          ]
            ≡ answer mem_ok in_memory life
      step_of none unknown end v = refl
      step_of none (live n) end v = elim v [ ]
      step_of none dead end v = elim v [ ]
      step_of (some r) unknown end v = elim v [ ]
      step_of (some r) (live n) end (size, inl e) =
          if_false {b = not (r.freed_at == 0) && leb r.freed_at step} _ _ (ground arith)
          ∙ ap allocated size
      step_of (some r) (live n) end (size, inr (a, b)) =
          if_false {b = not (r.freed_at == 0) && leb r.freed_at step} _ _ (ground arith)
          ∙ ap allocated size
      step_of (some r) dead end (a, b) =
          if_true {b = not (r.freed_at == 0) && leb r.freed_at step} _ _ (ground arith)
