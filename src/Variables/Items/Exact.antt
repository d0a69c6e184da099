-- ===== src/Variables/Items/Exact.antt =====
-- The items and fields that are shown: one for each request.
use mathlib.Core.Path.{subst}
use mathlib.Core.List.{append_assoc, append-nil}
use flightrec.Prelude.{
  ℕ, zero, suc, ◌+◌, ◌-◌, ◌≤◌, ◌≡◌, ◌≢◌, inl, inr, refl, sym, ◌∙◌, ap, List, [], ◌∷◌, ◌++◌, map,
  length, take, ◌⊎◌, true, none, some, Option-cases, arith, not, if_false,
}
use flightrec.Variables.{View, get_type_size}
use flightrec.Variables.Item.{Item, Request, Answer, Outcome, done, failed, undefined, endless}
use flightrec.Variables.Entry.{
  Resolved, at_type, missing, looping, resolve, add_kind, add_resolved, add_var_entry,
  add_var_entry_lem, add_var_entry_unknown,
}
use flightrec.Variables.Entry.Alias.{add_kind-IsEntry}
use flightrec.Variables.Items.{
  ArrayRow, array_row, item_count, item_requests, minimum, add_all, add_var_items,
}

abbrev pub names : Answer → List ℕ
names answer = map (λ (i : Item). i.name) answer.items

abbrev pub asked : List Request → List ℕ
asked qs = map (λ (q : Request). q.key.child) qs

map-append :
    (xs : List Item) (i : Item)
    → map (λ (i : Item). i.name) (xs ++ (i ∷ [])) ≡ map (λ (i : Item). i.name) xs ++ (i.name ∷ [])
map-append [] i = refl
map-append (x ∷ xs) i = ap (λ l. x.name ∷ l) (map-append xs i)

-- A call for one item ends with an item of that name, or fails without one.
abbrev Added : Request → Answer → Answer × Outcome → Type 0
Added q answer p =
    ((p.1 ≢ done) × (names p.0 ≡ names answer)) ⊎ (names p.0 ≡ names answer ++ (q.key.child ∷ []))

add_resolved-Added :
    (v : View) (q : Request) (answer : Answer) (t : Resolved)
    → Added q answer (add_resolved v q answer t)
unfolding add_resolved
add_resolved-Added v q answer missing = inl (λ k. absurd (cc), refl)
add_resolved-Added v q answer looping = inl (λ k. absurd (cc), refl)
add_resolved-Added v q answer (at_type type row) =
    let item = (add_kind v q type row answer.refs).item in
    inr (
      map-append answer.items item
      ∙ ap (λ n. names answer ++ (n ∷ [])) (add_kind-IsEntry v q type row answer.refs).1)

add_var_entry-Added :
    (fuel : ℕ) (v : View) (q : Request) (answer : Answer)
    → Added q answer (add_var_entry fuel v q answer)
add_var_entry-Added fuel v q answer = elim (Option-cases (get_type_size v q.type)) [
  | inl n ↦
      subst (Added q answer) (sym (add_var_entry_unknown fuel v q answer n))
        (inl (λ k. absurd (cc), refl))
  | inr (first, k) ↦
      subst (Added q answer) (sym (add_var_entry_lem fuel v q answer first k))
        (add_resolved-Added v q answer (resolve fuel v q.type first))
]

-- Of the names that are asked for, those that are shown: a first part, and all if the call succeeds.
pub record IsShown (answer : Answer) (wanted : List ℕ) (p : Answer × Outcome) : Type 0 where
  pub count : ℕ
  pub within : count ≤ length wanted
  pub shown : names p.0 ≡ names answer ++ take count wanted
  pub complete : (p.1 ≢ done) ⊎ (count ≡ length wanted)

within_more : {k n : ℕ} → k ≤ n → suc k ≤ suc n
within_more l = omega (arith, l)

IsShown-more :
    (answer mid : Answer) (n : ℕ) (wanted : List ℕ) (p : Answer × Outcome)
    → names mid ≡ names answer ++ (n ∷ [])
    → IsShown mid wanted p
    → IsShown answer (n ∷ wanted) p
IsShown-more answer mid n wanted p e s = record {
  count = suc s.count;
  within = within_more s.within;
  shown =
      s.shown
      ∙ ap (λ l. l ++ take s.count wanted) e
      ∙ append_assoc (names answer) (n ∷ []) (take s.count wanted);
  complete = elim s.complete [ inl m ↦ inl m | inr k ↦ inr (ap suc k) ];
}

-- A call that ends early shows the first name, or none.
IsShown-stopped :
    (q : Request) (qs : List Request) (answer after : Answer) (o o' : Outcome)
    → o' ≢ done
    → Added q answer (after, o)
    → IsShown answer (asked (q ∷ qs)) (after, o')
IsShown-stopped q qs answer after o o' n (inl (m, e)) = record {
  count = 0;
  within = omega arith;
  shown = e ∙ sym (append-nil (names answer));
  complete = inl n;
}
IsShown-stopped q qs answer after o o' n (inr e) = record {
  count = 1;
  within = omega arith;
  shown = e;
  complete = inl n;
}

pub add_all-IsShown :
    (fuel : ℕ) (v : View) (qs : List Request) (answer : Answer)
    → IsShown answer (asked qs) (add_all fuel v qs answer)
unfolding add_all
add_all-IsShown fuel v [] answer = record {
  count = 0;
  within = omega arith;
  shown = sym (append-nil (names answer));
  complete = inr refl;
}
add_all-IsShown fuel v (q ∷ qs) answer =
    go (add_var_entry fuel v q answer) (add_var_entry-Added fuel v q answer)
      (add_all-IsShown fuel v qs (add_var_entry fuel v q answer).0)
  where
    go :
        (p : Answer × Outcome)
        → Added q answer p
        → IsShown p.0 (asked qs) (add_all fuel v qs p.0)
        → IsShown answer (asked (q ∷ qs)) (elim p.1 [
          | done ↦ add_all fuel v qs p.0
          | failed ↦ (p.0, failed)
          | undefined ↦ (p.0, undefined)
          | endless ↦ (p.0, endless)
        ])
    go (after, done) (inl (n, k)) rest = absurd (n refl)
    go (after, done) (inr k) rest =
        IsShown-more answer after q.key.child (asked qs) (add_all fuel v qs after) k rest
    go (after, failed) a rest = IsShown-stopped q qs answer after failed failed (λ k. absurd (cc)) a
    go (after, undefined) a rest =
        IsShown-stopped q qs answer after undefined undefined (λ k. absurd (cc)) a
    go (after, endless) a rest =
        IsShown-stopped q qs answer after endless endless (λ k. absurd (cc)) a

-- So many numbers, from a first one on.
unfoldable pub count_from : ℕ → ℕ → List ℕ
count_from i zero = []
count_from i (suc n) = i ∷ count_from (i + 1) n

asked-item_requests :
    (index_name : ℕ → ℕ) (id : ℕ) (row : ArrayRow) (i n : ℕ)
    → asked (item_requests index_name id row i n) ≡ map index_name (count_from i n)
unfolding item_requests count_from
asked-item_requests index_name id row i zero = refl
asked-item_requests index_name id row i (suc n) =
    ap (λ l. index_name i ∷ l) (asked-item_requests index_name id row (i + 1) n)

-- If the reference has a row and its number of items is known, the names that are shown are those
-- of the items from `start` on, up to `count` or to the number of items: a first part of them, and
-- all if the call succeeds.
pub add_var_items-IsShown :
    (fuel : ℕ) (v : View) (index_name : ℕ → ℕ) (id start count : ℕ) (answer : Answer)
    (row : ArrayRow) (dim : ℕ)
    → v.array_ok ≡ true
    → array_row v answer.refs id ≡ some row
    → item_count v row ≡ (done, dim)
    → IsShown answer
        (map index_name (count_from start (minimum count dim - start)))
        (add_var_items fuel v index_name id start count answer)
unfolding add_var_items
add_var_items-IsShown fuel v index_name id start count answer row dim opened found counted =
    let qs = item_requests index_name id row start (minimum count dim - start) in
    let run : add_var_items fuel v index_name id start count answer ≡ add_all fuel v qs answer =
      if_false _ _ (ap not opened)
      ∙ ap
          (λ o. elim o as (λ x. Answer × Outcome) [
            | none ↦ (answer, failed)
            | some r ↦ items r (item_count v r)
          ])
          found
      ∙ ap (items row) counted in
    subst (λ p. IsShown answer (map index_name (count_from start (minimum count dim - start))) p)
      (sym run)
      (subst (λ l. IsShown answer l (add_all fuel v qs answer))
        (asked-item_requests index_name id row start (minimum count dim - start))
        (add_all-IsShown fuel v qs answer))
  where
    items : ArrayRow → Outcome × ℕ → Answer × Outcome
    items r c = elim c.0 [
      | done ↦
          add_all fuel v (item_requests index_name id r start (minimum count c.1 - start)) answer
      | failed ↦ (answer, failed)
      | undefined ↦ (answer, undefined)
      | endless ↦ (answer, endless)
    ]
