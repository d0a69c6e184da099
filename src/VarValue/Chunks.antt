-- ===== src/VarValue/Chunks.antt =====
-- The chunks that `get_var_value` copies one after the other are the bytes of the variable.
use flightrec.Prelude.{
  ℕ, ◌+◌, ◌-◌, ◌%◌, ◌≤◌, ◌<◌, ◌≡◌, ◌≢◌, ◌⊎◌, inl, inr, refl, sym, ◌∙◌, ap, List, [], ◌∷◌, ◌++◌,
  Option, none, some, ltb, if◌then◌else◌, arith, dec_lt, take, drop,
}
use mathlib.Core.Path.{ap₂}
use mathlib.Core.List.{append-nil}
use flightrec.Query.{In}
use flightrec.Memory.{Memory, MemMsg, segment, bytes, bytes-append, take-bytes, drop-bytes}
use flightrec.VarValue.{latest, group_rows, copy_chunk, copy_chunks}
use flightrec.VarValue.Select.{IsAscending, latest-address}

module _ (img : Memory) (addr size : ℕ) where
  -- Where the copying stands when the segments below `b` are done.
  abbrev pub place : ℕ → ℕ
  place b = b + (addr - b)

  abbrev pub rest_from : ℕ → List ℕ
  rest_from b = bytes img (place b) (addr + size - place b)

  no_bytes : (p n : ℕ) → n ≡ 0 → bytes img p n ≡ []
  unfolding bytes
  no_bytes p n e = ap (bytes img p) e

  module _ (row : MemMsg) (low : addr ≤ row.address + segment)
      (high : row.address ≤ addr + size) where
    copy_chunk-outside :
        (row.address + segment ≤ addr) ⊎ (addr + size ≤ row.address) → copy_chunk addr size row ≡ []
    copy_chunk-outside h = ground arith

    copy_chunk-bytes :
        addr < row.address + segment
        → row.address < addr + size
        → row.content ≡ bytes img row.address segment
        → copy_chunk addr size row
          ≡ bytes img
              (place row.address)
              (segment - (row.address + segment - (addr + size)) - (addr - row.address))
    copy_chunk-bytes above below e =
        let over_eq : (if ltb (addr + size) (row.address + segment)
              then (row.address + segment) - (addr + size)
              else 0)
            ≡ row.address + segment - (addr + size) =
          ground arith in
        let under_eq : (if ltb row.address addr then addr - row.address else 0)
            ≡ addr - row.address =
          ground arith in
        let cut = ap₂ (λ o u. take (segment - o - u) (drop u row.content)) over_eq under_eq in
        let part =
          drop-bytes img row.address segment (addr - row.address) (place row.address) (omega arith)
            refl in
        cut
        ∙ ap
            (λ l.
              take (segment - (row.address + segment - (addr + size)) - (addr - row.address))
                (drop (addr - row.address) l))
            e
        ∙ ap (take (segment - (row.address + segment - (addr + size)) - (addr - row.address))) part
        ∙ take-bytes img (place row.address) (segment - (addr - row.address))
            (segment - (row.address + segment - (addr + size)) - (addr - row.address)) (omega arith)

  -- What one chunk adds.
  copy_chunk_step :
      (row : MemMsg)
      → addr ≤ row.address + segment
      → row.address ≤ addr + size
      → (addr < row.address + segment
          → row.address < addr + size
          → row.content ≡ bytes img row.address segment)
      → copy_chunk addr size row ++ rest_from (row.address + segment) ≡ rest_from row.address
  copy_chunk_step row low high shows = elim (dec_lt addr (row.address + segment)) [
    | no before ↦
        ap (λ l. l ++ rest_from (row.address + segment))
          (copy_chunk-outside row low high (inl (omega arith)))
        ∙ ap₂ (bytes img) (omega arith) (omega arith)
    | yes above ↦ elim (dec_lt row.address (addr + size)) [
      | no behind ↦
          ap₂ ◌++◌ (copy_chunk-outside row low high (inr (omega arith)))
            (no_bytes _ _ (omega arith))
          ∙ sym (no_bytes _ _ (omega arith))
      | yes below ↦
          let n = segment - (row.address + segment - (addr + size)) - (addr - row.address) in
          let chunk = copy_chunk-bytes row low high above below (shows above below) in
          elim (dec_lt (addr + size) (row.address + segment)) [
            | yes last ↦
                ap₂ ◌++◌ chunk (no_bytes _ _ (omega arith))
                ∙ append-nil _
                ∙ ap (bytes img (place row.address)) (omega arith)
            | no more ↦
                ap (λ l. l ++ rest_from (row.address + segment)) chunk
                ∙ bytes-append img (place row.address) n
                    (addr + size - place (row.address + segment)) (place (row.address + segment))
                    (omega arith)
                ∙ ap (bytes img (place row.address)) (omega arith)
          ]
    ]
  ]

  -- The first address that is still to be copied lies in a segment that must be there.
  skip_to :
      (b k : ℕ)
      → b % segment ≡ 0
      → b ≤ k
      → (place b < addr + size → k ≤ place b - place b % segment)
      → rest_from k ≡ rest_from b
  skip_to b k aligned h first = elim (dec_lt (place b) (addr + size)) [
    | yes more ↦
        let q = first more in
        let e : place k ≡ place b = omega arith in ap (λ p. bytes img p (addr + size - p)) e
    | no full ↦ no_bytes _ _ (omega arith) ∙ sym (no_bytes _ _ (omega arith))
  ]

  pub copy_chunks-bytes :
      (rows : List MemMsg) (keys : List ℕ) (b : ℕ)
      → b % segment ≡ 0
      → IsAscending keys
      → ((k : ℕ)
          → In k keys
          → (b ≤ k)
            × (k % segment ≡ 0)
            × (addr ≤ k + segment)
            × (k ≤ addr + size)
            × (latest k rows ≢ none))
      → ((c : ℕ) → c % segment ≡ 0 → b ≤ c → addr < c + segment → c < addr + size → In c keys)
      → ((k : ℕ) (row : MemMsg)
          → latest k rows ≡ some row
          → addr < k + segment
          → k < addr + size
          → row.content ≡ bytes img k segment)
      → copy_chunks addr size (group_rows keys rows) ≡ rest_from b
  unfolding copy_chunks group_rows
  copy_chunks-bytes rows [] b aligned v within cover shows = elim (dec_lt (place b) (addr + size)) [
    | yes more ↦
        let c = place b - place b % segment in
        elim (cover c (omega arith) (omega arith) (omega arith) (omega arith)) [ ]
    | no full ↦ sym (no_bytes _ _ (omega arith))
  ]
  copy_chunks-bytes rows (k ∷ keys) b aligned (first, v) within cover shows =
      let (above, k_aligned, low, high, some_row) = within k (inl refl) in
      let rec =
        copy_chunks-bytes rows keys (k + segment) (omega arith) v
          (λ j m.
            let (x, y, z, w, u) = within j (inr m) in
            let q = first j m in (omega arith, y, z, w, u))
          (λ c a l x y. elim (cover c a (omega arith) x y) [
            | inl e ↦ absurd (omega arith)
            | inr m ↦ m
          ])
          shows in
      step (latest k rows) refl some_row (latest-address k rows) (shows k) rec low high
      ∙ skip_to b k aligned above (λ more. reach (place b - place b % segment) (
          cover (place b - place b % segment) (omega arith) (omega arith) (omega arith)
            (omega arith)))
    where
      reach : (c : ℕ) → In c (k ∷ keys) → k ≤ c
      reach c (inl e) = omega arith
      reach c (inr m) = let q = first c m in omega arith

      step :
          (o : Option MemMsg)
          → latest k rows ≡ o
          → o ≢ none
          → ((r : MemMsg) → o ≡ some r → r.address ≡ k)
          → ((r : MemMsg)
              → o ≡ some r
              → addr < k + segment
              → k < addr + size
              → r.content ≡ bytes img k segment)
          → copy_chunks addr size (group_rows keys rows) ≡ rest_from (k + segment)
          → addr ≤ k + segment
          → k ≤ addr + size
          → copy_chunks addr size
              (elim o [ none ↦ group_rows keys rows | some row ↦ row ∷ group_rows keys rows ])
            ≡ rest_from k
      step none e ne at_k content rec low high = absurd (ne refl)
      step (some row) e ne at_k content rec low high =
          let here = at_k row refl in
          ap (λ l. copy_chunk addr size row ++ l) rec
          ∙ ap (λ c. copy_chunk addr size row ++ rest_from (c + segment)) (sym here)
          ∙ copy_chunk_step row (omega arith) (omega arith) (λ x y.
            content row refl (omega arith) (omega arith) ∙ ap (λ c. bytes img c segment) (sym here))
          ∙ ap rest_from here
