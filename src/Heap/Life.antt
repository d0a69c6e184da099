-- ===== src/Heap/Life.antt =====
-- The life of the memory at an address by the messages, and a row of the table that agrees with it.
use flightrec.Prelude.{
  ℕ, ◌≤◌, ◌<◌, ◌≡◌, ◌≢◌, refl, List, [], ◌∷◌, Bool, true, not, ◌&&◌, Option, none, some, leb, ◌==◌,
  if◌then◌else◌, arith, ◌⊎◌, inl, inr, ℕ_discrete,
}
use flightrec.Heap.{
  HeapMsg, HeapRow, free_row, PointerStatus, allocated, released, elsewhere, not_found, failure,
}
use flightrec.Heap.Rows.{map_row}

-- The life of the memory at an address.
pub data Life : Type 0 where
  unknown : Life
  live : ℕ → Life
  dead : Life

abbrev pub release : Life → Life
release unknown = unknown
release (live n) = dead
release dead = dead

-- What a message does to it, as seen at a step.
unfoldable pub happen : ℕ → ℕ → Life → HeapMsg → Life
happen address step life msg =
    if (msg.address == address) && leb msg.step_id step
    then (if not (msg.size == 0) then live msg.size else release life)
    else life

unfoldable pub life_after : ℕ → ℕ → Life → List HeapMsg → Life
unfolding happen
life_after address step life [] = life
life_after address step life (msg ∷ msgs) =
    life_after address step (happen address step life msg) msgs

abbrev pub answer : Bool → Bool → Life → PointerStatus
answer mem_ok in_memory unknown =
    if mem_ok then (if in_memory then elsewhere else not_found) else failure
answer mem_ok in_memory (live n) = allocated n
answer mem_ok in_memory dead = released

abbrev pub is_allocation : ℕ → HeapMsg → Bool
is_allocation address msg = (msg.address == address) && not (msg.size == 0)

-- Messages in the order of their steps, from `last` on, where those that allocate the address are of
-- different steps, after `from`.
abbrev pub IsLog : ℕ → ℕ → ℕ → List HeapMsg → Type 0
IsLog address last from [] = Unit {0}
IsLog address last from (msg ∷ msgs) =
    (last ≤ msg.step_id)
    × (is_allocation address msg ≡ true → from < msg.step_id)
    × IsLog address msg.step_id (if is_allocation address msg then msg.step_id else from) msgs

-- A row that is found, and what became of the memory, by the messages up to the step `last`.
abbrev pub Agree : ℕ → ℕ → Option HeapRow → Life → Type 0
Agree step last none unknown = Unit {0}
Agree step last (some r) (live n) =
    (r.size ≡ n) × ((r.freed_at ≡ 0) ⊎ ((step < r.freed_at) × (r.freed_at ≤ last)))
Agree step last (some r) dead = (r.freed_at ≢ 0) × (r.freed_at ≤ step)
Agree step last none (live n) = ⊥
Agree step last none dead = ⊥
Agree step last (some r) unknown = ⊥

module _ (address step last s other : ℕ) (h : last ≤ s) (pos : 1 ≤ s) where
  -- A release of the address that is seen at the step.
  pub released-Agree :
      (o : Option HeapRow) (life : Life)
      → other ≡ address
      → s ≤ step
      → ((r : HeapRow) → o ≡ some r → r.address ≡ address)
      → Agree step last o life
      → Agree step s (map_row (free_row s other) o) (release life)
  unfolding map_row
  released-Agree none unknown e k c v = tt
  released-Agree none (live n) e k c v = elim v [ ]
  released-Agree none dead e k c v = elim v [ ]
  released-Agree (some r) unknown e k c v = elim v [ ]
  released-Agree (some r) (live n) e k c (size, inl unfreed) =
      let here = c r refl in (λ z. ground arith, ground arith)
  released-Agree (some r) (live n) e k c (size, inr (after, before)) = absurd (omega arith)
  released-Agree (some r) dead e k c (some_step, before) = (λ z. ground arith, ground arith)

  -- Any other release.
  pub passed-Agree :
      (o : Option HeapRow) (life : Life)
      → (other ≡ address → step < s)
      → ((r : HeapRow) → o ≡ some r → r.address ≡ address)
      → Agree step last o life
      → Agree step s (map_row (free_row s other) o) life
  unfolding map_row
  passed-Agree none unknown e c v = tt
  passed-Agree none (live n) e c v = elim v [ ]
  passed-Agree none dead e c v = elim v [ ]
  passed-Agree (some r) unknown e c v = elim v [ ]
  passed-Agree (some r) (live n) e c (size, inl unfreed) =
      let here = c r refl in
      (
        ground arith,
        elim (ℕ_discrete other address) [
          | yes same ↦ let seen = e same in inr (ground arith, ground arith)
          | no differs ↦ inl (ground arith)
        ],
      )
  passed-Agree (some r) (live n) e c (size, inr (after, before)) =
      (ground arith, inr (ground arith, ground arith))
  passed-Agree (some r) dead e c (some_step, before) = (λ z. ground arith, ground arith)
