-- ===== src/Run/Code/Planting.antt =====
-- `set_breakpoints` puts the trap at each statement, and keeps the byte that was there.
use flightrec.Prelude.{
  ℕ, suc, ◌%◌, ◌≤◌, ◌<◌, ◌≡◌, ◌≢◌, ◌⊎◌, inl, inr, refl, sym, ◌∙◌, ap, List, [], ◌∷◌, true, false,
  not, ◌&&◌, none, some, ◌==◌, if◌then◌else◌, if_true, if_false, ℕ_discrete, arith,
}
use flightrec.Query.{In}
use flightrec.Memory.{Memory}
use flightrec.Memdiff.Ranges.{IsBytes}
use flightrec.Lookup.{CachedLine, CachedUnit}
use flightrec.Run.{peek, int3}
use flightrec.Run.Traps.{Planted, poke_byte_here, poke_byte_away}
use flightrec.Run.Code.{
  LineRow, UnitRow, Tracee, place, base_for, plant, line_of, set_lines, set_units, set_breakpoints,
}

-- The places of statements, added to others.
abbrev pub places : ℕ → List LineRow → List ℕ → List ℕ
places base [] points = points
places base (row ∷ rows) points = places base rows (place base row.address ∷ points)

abbrev pub unit_places : ℕ → List UnitRow → List ℕ → List ℕ
unit_places base [] points = points
unit_places base (u ∷ units) points = unit_places base units (places base u.rows points)

module _ (low high : ℕ) (orig : Memory) (ob : IsBytes orig) (t : Tracee) (base : ℕ) where
  -- A statement's place can be read and written, and is not one of the given points.
  pub record RowFits (row : LineRow) (points : List ℕ) : Type 0 where
    pub readable : t.readable (place base row.address) ≡ true
    pub writable : t.writable (place base row.address) ≡ true
    pub first : low ≤ place base row.address
    pub last : place base row.address < high
    pub new : In (place base row.address) points → ⊥

  abbrev pub RowsFit : List LineRow → List ℕ → Type 0
  RowsFit [] points = Unit {0}
  RowsFit (row ∷ rows) points = RowFits row points × RowsFit rows (place base row.address ∷ points)

  abbrev pub UnitsFit : List UnitRow → List ℕ → Type 0
  UnitsFit [] points = Unit {0}
  UnitsFit (u ∷ units) points =
      (u.reset_ok ≡ true)
      × (u.fetched ≡ true)
      × RowsFit u.rows points
      × UnitsFit units (places base u.rows points)

  -- The line that is kept for a row.
  abbrev pub IsLine : LineRow → CachedLine → Type 0
  IsLine row line =
      (line.address ≡ row.address)
      × (line.func_id ≡ row.func_id)
      × (line.func_flag ≡ row.func_flag)
      × (line.org_instr_byte ≡ orig (place base row.address))

  abbrev pub AreLines : List LineRow → List CachedLine → Type 0
  AreLines [] [] = Unit {0}
  AreLines (row ∷ rows) (line ∷ lines) = IsLine row line × AreLines rows lines
  AreLines _ _ = ⊥

  abbrev pub AreUnits : List UnitRow → List CachedUnit → Type 0
  AreUnits [] [] = Unit {0}
  AreUnits (row ∷ rows) (u ∷ units) =
      (u.start ≡ row.start)
      × (u.last ≡ row.last)
      × (u.line_count ≡ row.line_count)
      × AreLines row.rows u.lines
      × AreUnits rows units
  AreUnits _ _ = ⊥

  plant-IsBytes : (p : ℕ) (code : Memory) → IsBytes code → IsBytes (plant p code)
  plant-IsBytes p code b i = elim (ℕ_discrete i p) [
    | yes e ↦
        let k = ap (plant p code) e ∙ poke_byte_here code code b p int3 7 (omega arith) in
        omega arith
    | no n ↦
        let k = poke_byte_away code code b p int3 7 (omega arith) (λ k l u n. refl) i n in
        omega (arith, b i)
  ]

  plant-Planted :
      (p : ℕ) (points : List ℕ) (code : Memory)
      → IsBytes code
      → Planted low high points orig code
      → Planted low high (p ∷ points) orig (plant p code)
  plant-Planted p points code b h = record {
    traps = λ i m. elim (ℕ_discrete i p) [
      | yes e ↦ ap (plant p code) e ∙ poke_byte_here code code b p int3 7 (omega arith)
      | no n ↦
          poke_byte_away code code b p int3 7 (omega arith) (λ k l u n'. refl) i n
          ∙ elim m [ inl e ↦ absurd (n e) | inr m' ↦ h.traps i m' ]
    ];
    others = λ i l u out.
        poke_byte_away code code b p int3 7 (omega arith) (λ k l' u' n'. refl) i (λ e. out (inl e))
        ∙ h.others i l u (λ m. out (inr m));
  }

  peek_byte : (code : Memory) (b : IsBytes code) (p n : ℕ) → peek code p (suc n) % 256 ≡ code p
  unfolding peek
  peek_byte code b p n = omega (arith, b p)

  base_for_readable :
      (row : LineRow) {points : List ℕ} → RowFits row points → base_for t base row ≡ some base
  unfolding base_for
  base_for_readable row f = if_true _ _ f.readable

  set_lines_lem :
      (rows : List LineRow) (points : List ℕ) (code : Memory)
      → IsBytes code
      → Planted low high points orig code
      → RowsFit rows points
      → (code' : Memory) × (lines : List CachedLine) × (set_lines t base code rows
          ≡ some (base, code', lines))
        × IsBytes code'
        × Planted low high (places base rows points) orig code'
        × AreLines rows lines
  unfolding set_lines
  set_lines_lem [] points code b h f = (code, [], refl, b, h, tt)
  set_lines_lem (row ∷ rows) points code b h (f, g) =
      let p = place base row.address in
      let (code', lines, e, b', h', l) =
        set_lines_lem rows (p ∷ points) (plant p code) (plant-IsBytes p code b)
          (plant-Planted p points code b h) g in
      (
        code',
        line_of base code row ∷ lines,
        rw (set_lines, base_for_readable row f, f.writable, e) refl,
        b',
        h',
        ((refl, refl, refl, peek_byte code b p 7 ∙ h.others p f.first f.last f.new), l),
      )

  set_units_lem :
      (units : List UnitRow) (points : List ℕ) (code : Memory)
      → IsBytes code
      → Planted low high points orig code
      → UnitsFit units points
      → (code' : Memory) × (cache : List CachedUnit) × (set_units t base code units
          ≡ some (base, code', cache))
        × Planted low high (unit_places base units points) orig code'
        × AreUnits units cache
  unfolding set_units
  set_units_lem [] points code b h f = (code, [], refl, h, tt)
  set_units_lem (u ∷ units) points code b h (reset, fetched, f, g) =
      let (mid, lines, e, b', h', l) = set_lines_lem u.rows points code b h f in
      let (code', cache, k, h'', l') =
        set_units_lem units (places base u.rows points) mid b' h' g in
      (
        code',
        record { start = u.start; last = u.last; line_count = u.line_count; lines = lines } ∷ cache,
        if_false _ _ (ap not reset)
            ∙ ap
                (λ o. elim o [
                  | none ↦ none
                  | some (x, y, z) ↦ if not u.fetched then none else elim (set_units t x y units) [
                    | none ↦ none
                    | some (b', code', rest) ↦ some (
                      b',
                      code',
                      record {
                        start = u.start;
                        last = u.last;
                        line_count = u.line_count;
                        lines = z;
                      }
                          ∷ rest,
                    )
                  ]
                ])
                e
            ∙ if_false _ _ (ap not fetched)
            ∙ ap
                (λ o. elim o [
                  | none ↦ none
                  | some (b', code', rest) ↦ some (
                    b',
                    code',
                    record {
                      start = u.start;
                      last = u.last;
                      line_count = u.line_count;
                      lines = lines;
                    }
                        ∷ rest,
                  )
                ])
                k,
        h'',
        (refl, refl, refl, l, l'),
      )

  -- The first statement is not readable at its own address, but at the base address.
  pub record IsAway (row : LineRow) : Type 0 where
    pub unreadable : t.readable (place 0 row.address) ≡ false
    pub fault : t.fault ≡ true
    pub found : t.found_base ≡ some base
    pub moved : base ≢ 0
    pub stored : t.stored ≡ true

  abbrev pub RowsAway : List LineRow → Type 0
  RowsAway [] = ⊥
  RowsAway (row ∷ rows) = IsAway row

  abbrev pub FirstAway : List UnitRow → Type 0
  FirstAway [] = ⊥
  FirstAway (u ∷ units) = RowsAway u.rows

  base_for_away :
      (row : LineRow)
      → IsAway row
      → t.readable (place base row.address) ≡ true
      → base_for t 0 row ≡ some base
  unfolding base_for
  base_for_away row a readable =
      if_false _ _ a.unreadable
      ∙ if_false _ _ (ap (λ b. not (b && true)) a.fault)
      ∙ ap
          (λ o. elim o [
            | none ↦ none
            | some b ↦
                if not (b == 0) && (t.stored && t.readable (place b row.address))
                then some b
                else none
          ])
          a.found
      ∙ if_true {b = not (base == 0) && (t.stored && t.readable (place base row.address))} _ _
          (let m = a.moved in ground (arith, a.stored, readable, m))

  set_lines_away :
      (rows : List LineRow) (points : List ℕ) (code : Memory)
      → RowsAway rows
      → RowsFit rows points
      → set_lines t 0 code rows ≡ set_lines t base code rows
  unfolding set_lines
  set_lines_away [] points code a f = elim a [ ]
  set_lines_away (row ∷ rows) points code a (f, g) =
      ap
        (λ o. elim o [
          | none ↦ none
          | some b ↦
              if not (t.writable (place b row.address))
              then none
              else elim (set_lines t b (plant (place b row.address) code) rows) [
                | none ↦ none
                | some (b', code', lines) ↦ some (b', code', line_of b code row ∷ lines)
              ]
        ])
        (base_for_away row a f.readable ∙ sym (base_for_readable row f))

  set_units_away :
      (units : List UnitRow) (points : List ℕ) (code : Memory)
      → FirstAway units
      → UnitsFit units points
      → set_units t 0 code units ≡ set_units t base code units
  unfolding set_units
  set_units_away [] points code a f = elim a [ ]
  set_units_away (u ∷ units) points code a (reset, fetched, f, g) =
      ap
        (λ o. if not u.reset_ok then none else elim o [
          | none ↦ none
          | some (x, y, z) ↦ if not u.fetched then none else elim (set_units t x y units) [
            | none ↦ none
            | some (b', code', rest) ↦ some (
              b',
              code',
              record { start = u.start; last = u.last; line_count = u.line_count; lines = z }
                  ∷ rest,
            )
          ]
        ])
        (set_lines_away u.rows points code a f)

  -- If the database yields the units and their lines to the end, and either the statements lie at
  -- their own addresses, or the first does not and `get_base_address` finds the base, which can be
  -- stored, and if with it all places of statements are different, within the code, and can be read
  -- and written, then `set_breakpoints` succeeds, there are traps exactly at the statements, and the
  -- cache has the units and the lines of the database, each line with the byte that was there.
  pub set_breakpoints_plants :
      (units : List UnitRow)
      → (base ≡ 0) ⊎ FirstAway units
      → UnitsFit units []
      → (code : Memory) × (cache : List CachedUnit) × (set_breakpoints true true t orig units
          ≡ some (base, code, cache))
        × Planted low high (unit_places base units []) orig code
        × AreUnits units cache
  unfolding set_breakpoints
  set_breakpoints_plants units away f =
      let (code, cache, e, h, l) =
        set_units_lem units [] orig ob
          (record { traps = λ i m. elim m [ ]; others = λ i l u out. refl }) f in
      (
        code,
        cache,
        ap (λ o. elim o [ none ↦ none | some result ↦ some result ]) (start away ∙ e),
        h,
        l,
      )
    where
      start : (base ≡ 0) ⊎ FirstAway units → set_units t 0 orig units ≡ set_units t base orig units
      start (inl e) = ap (λ b. set_units t b orig units) (sym e)
      start (inr a) = set_units_away units [] orig a f
