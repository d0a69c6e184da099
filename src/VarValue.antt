-- ===== src/VarValue.antt =====
-- examine/vars.c: `get_var_value`, which puts the bytes of a variable together from the rows of the
-- table `mem`. Its SELECT is written out over the list of rows, in the order in which they were
-- inserted: WHERE filters, GROUP BY yields one row for each address, in the order of addresses,
-- and HAVING takes the one of the latest step.
pub mod Select
pub mod Chunks
pub mod Exact
use flightrec.Prelude.{
  ℕ, ◌+◌, ◌-◌, List, [], ◌∷◌, ◌++◌, Bool, Option, none, some, ltb, leb, ◌==◌, ◌&&◌, if◌then◌else◌,
  take, drop, length, replicate,
}
use flightrec.Query.{where_rows}
use flightrec.Memory.{MemMsg, segment}

-- WHERE step_id <= ? AND address <= ? AND address >= ?
abbrev pub in_window : ℕ → ℕ → ℕ → MemMsg → Bool
in_window step high low row = leb row.step_id step && leb row.address high && leb low row.address

-- The keys of GROUP BY address: sorted, each once.
unfoldable pub insert_key : ℕ → List ℕ → List ℕ
insert_key a [] = a ∷ []
insert_key a (b ∷ keys) =
    if ltb a b then a ∷ b ∷ keys else if a == b then b ∷ keys else b ∷ insert_key a keys

unfoldable pub group_keys : List MemMsg → List ℕ
unfolding insert_key
group_keys [] = []
group_keys (row ∷ rows) = insert_key row.address (group_keys rows)

-- HAVING step_id = MAX(step_id), in the group of one address.
unfoldable pub latest : ℕ → List MemMsg → Option MemMsg
latest a [] = none
latest a (row ∷ rows) =
    if row.address == a
    then elim (latest a rows) [
      | none ↦ some row
      | some other ↦ if ltb other.step_id row.step_id then some row else some other
    ]
    else latest a rows

unfoldable pub group_rows : List ℕ → List MemMsg → List MemMsg
group_rows [] rows = []
group_rows (a ∷ keys) rows = elim (latest a rows) [
  | none ↦ group_rows keys rows
  | some row ↦ row ∷ group_rows keys rows
]

unfoldable pub select_mem : List MemMsg → ℕ → ℕ → ℕ → List MemMsg
unfolding where_rows group_keys group_rows
select_mem mem step high low =
    let rows = where_rows (in_window step high low) mem in group_rows (group_keys rows) rows

-- The part of one chunk that lies in the variable.
abbrev pub copy_chunk : ℕ → ℕ → MemMsg → List ℕ
copy_chunk addr size row =
    let over =
      if ltb (addr + size) (row.address + segment)
      then (row.address + segment) - (addr + size)
      else 0 in
    let under = if ltb row.address addr then addr - row.address else 0 in
    take (segment - over - under) (drop under row.content)

unfoldable pub copy_chunks : ℕ → ℕ → List MemMsg → List ℕ
copy_chunks addr size [] = []
copy_chunks addr size (row ∷ rows) = copy_chunk addr size row ++ copy_chunks addr size rows

-- `query_ok` and `fetch_ok` say whether the database answers; a failing one yields NULL. The
-- buffer has `size + 1` bytes, zero where no chunk was copied. The bounds do not wrap, since
-- addresses lie between a segment and 2^64 less the size.
unfoldable pub get_var_value : Bool → Bool → List MemMsg → ℕ → ℕ → ℕ → Option (List ℕ)
get_var_value query_ok fetch_ok mem addr size step =
    if query_ok && fetch_ok
    then (let copied = copy_chunks addr size (select_mem mem step (addr + size) (addr - segment)) in
        some (copied ++ replicate (size + 1 - length copied) 0))
    else none
