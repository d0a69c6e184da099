-- ===== src/VarValue/Exact.antt =====
-- `get_var_value` against the memory that the rows of the table `mem` show.
use flightrec.Prelude.{
  ℕ, ◌+◌, ◌-◌, ◌%◌, ◌≤◌, ◌<◌, ◌≡◌, ◌≢◌, ◌↔◌, sym, ◌∙◌, ap, List, [], ◌∷◌, ◌++◌, true, none, some,
  arith, length, replicate,
}
use flightrec.Query.{In, where_rows, where_rows-In}
use flightrec.Memory.{Memory, MemMsg, segment, bytes, length-bytes}
use flightrec.VarValue.{in_window, group_keys, latest, select_mem, copy_chunks, get_var_value}
use flightrec.VarValue.Select.{
  by_step, row_at, group_keys-IsAscending, group_keys-In, latest-address, latest-In, latest-some,
  latest-where_rows,
}
use flightrec.VarValue.Chunks.{copy_chunks-bytes}

-- Each row starts a segment.
abbrev pub IsAligned : List MemMsg → Type 0
IsAligned rows = (row : MemMsg) → In row rows → row.address % segment ≡ 0

-- As of the step, the rows show the memory `img` at all segments that meet the range.
abbrev pub Shows : ℕ → List MemMsg → Memory → ℕ → ℕ → Type 0
Shows step rows img addr size =
    (c : ℕ)
    → c % segment ≡ 0
    → addr < c + segment
    → c < addr + size
    → (row : MemMsg) × (row_at step rows c ≡ some row) × (row.content ≡ bytes img c segment)

window-split :
    (step high low : ℕ) (row : MemMsg)
    → (in_window step high low row ≡ true)
      ↔ ((by_step step row ≡ true) × (row.address ≤ high) × (low ≤ row.address))
window-split step high low row = ground arith

window-step :
    (step high low : ℕ) (row : MemMsg)
    → row.address ≤ high
    → low ≤ row.address
    → in_window step high low row ≡ by_step step row
window-step step high low row h l = ground arith

module _ (step : ℕ) (rows : List MemMsg) (img : Memory) (addr size : ℕ) (a : IsAligned rows)
    (far : segment ≤ addr) (s : Shows step rows img addr size) where
  abbrev selected : List MemMsg
  selected = where_rows (in_window step (addr + size) (addr - segment)) rows

  selected-latest :
      (k : ℕ) → addr < k + segment → k < addr + size → latest k selected ≡ row_at step rows k
  unfolding row_at
  selected-latest k above below =
      latest-where_rows k (in_window step (addr + size) (addr - segment)) (by_step step) rows
        (λ r e. window-step step (addr + size) (addr - segment) r (omega arith) (omega arith))

  selected-some : (k : ℕ) → In k (group_keys selected) → latest k selected ≢ none
  selected-some k m =
      let (row, i, e) = (group_keys-In selected k).0 m in latest-some k selected row i (sym e)

  selected-within :
      (k : ℕ)
      → In k (group_keys selected)
      → (addr - segment - (addr - segment) % segment ≤ k)
        × (k % segment ≡ 0)
        × (addr ≤ k + segment)
        × (k ≤ addr + size)
        × (latest k selected ≢ none)
  selected-within k m =
      let (row, i, e) = (group_keys-In selected k).0 m in
      let (there, inside) =
        where_rows-In (in_window step (addr + size) (addr - segment)) rows row i in
      let (t, high, low) = (window-split step (addr + size) (addr - segment) row).0 inside in
      let aligned = a row there in
      (omega arith, omega arith, omega arith, omega arith, selected-some k m)

  selected-cover :
      (c : ℕ) → c % segment ≡ 0 → addr < c + segment → c < addr + size → In c (group_keys selected)
  selected-cover c aligned above below =
      let (row, e, content) = s c aligned above below in
      let k = selected-latest c above below ∙ e in
      (group_keys-In selected c).1
        (row, latest-In c selected row k, sym (latest-address c selected row k))

  select_mem-bytes :
      copy_chunks addr size (select_mem rows step (addr + size) (addr - segment))
      ≡ bytes img addr size
  unfolding select_mem
  select_mem-bytes =
      copy_chunks-bytes img addr size selected (group_keys selected)
        (addr - segment - (addr - segment) % segment) (omega arith)
        (group_keys-IsAscending selected) selected-within
        (λ c aligned l above below. selected-cover c aligned above below)
        (λ k row e above below.
          let there = latest-In k selected row e in
          let aligned =
            a row
              (where_rows-In (in_window step (addr + size) (addr - segment)) rows row there).0 in
          let here = latest-address k selected row e in
          let (row', e', content) = s k (omega arith) above below in
          let same : row ≡ row' = some_injective (sym e ∙ selected-latest k above below ∙ e') in
          ap (λ (r : MemMsg). r.content) same ∙ content)
      ∙ ap (λ p. bytes img p (addr + size - p)) (omega arith)
      ∙ ap (bytes img addr) (omega arith)
    where
      some_injective : {x y : MemMsg} → some x ≡ some y → x ≡ y
      some_injective e = cc

  -- If every row starts a segment, as of the step the rows show a memory at all segments that meet
  -- the variable, the variable does not start in the first segment of the memory, and the query
  -- succeeds, the result is the bytes of that memory, closed by a 0.
  pub get_var_value_exact :
      get_var_value true true rows addr size step ≡ some (bytes img addr size ++ (0 ∷ []))
  unfolding get_var_value
  get_var_value_exact =
      ap (λ l. some (l ++ replicate (size + 1 - length l) 0)) select_mem-bytes
      ∙ ap (λ n. some (bytes img addr size ++ replicate (size + 1 - n) 0))
          (length-bytes img addr size)
      ∙ ap (λ n. some (bytes img addr size ++ replicate n 0)) one
    where
      one : size + 1 - size ≡ 1
      one = omega arith
