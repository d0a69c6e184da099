-- ===== src/VarValue/Select.antt =====
-- The SELECT of `get_var_value`: its keys, and the row that it takes for each.
use flightrec.Prelude.{
  ℕ, ◌<◌, ◌≡◌, ◌≢◌, ◌↔◌, ◌⊎◌, inl, inr, refl, sym, ◌∙◌, ap, List, [], ◌∷◌, Bool, true, false,
  Option, none, some, ltb, leb, ◌==◌, if◌then◌else◌, arith, Bool-cases, if_true, if_false,
  lt_trichotomy, test_eq,
}
use flightrec.Query.{In, where_rows}
use flightrec.Memory.{MemMsg}
use flightrec.VarValue.{insert_key, group_keys, latest}

-- The row of a segment as of a step.
abbrev pub by_step : ℕ → MemMsg → Bool
by_step step row = leb row.step_id step

unfoldable pub row_at : ℕ → List MemMsg → ℕ → Option MemMsg
unfolding latest where_rows
row_at step rows c = latest c (where_rows (by_step step) rows)

insert_key-In : (a : ℕ) (keys : List ℕ) (z : ℕ) → In z (insert_key a keys) ↔ ((z ≡ a) ⊎ In z keys)
unfolding insert_key
insert_key-In a [] z = (λ m. m, λ m. m)
insert_key-In a (b ∷ keys) z = elim (lt_trichotomy a b) [
  | inl h ↦ let e : ltb a b ≡ true = ground arith in rw e (λ m. m, λ m. m)
  | inr (inl h) ↦
      let e : ltb a b ≡ false = ground arith in
      rw (e, test_eq a b h) (λ m. inr m, λ m. elim m [ inl k ↦ inl (k ∙ h) | inr n ↦ n ])
  | inr (inr h) ↦
      let e : ltb a b ≡ false = ground arith in
      let ne : (a == b) ≡ false = ground arith in
      let rec = insert_key-In a keys z in
      rw (e, ne)
        (
          λ m. elim m [
            | inl k ↦ inr (inl k)
            | inr n ↦ elim (rec.0 n) [ inl k ↦ inl k | inr l ↦ inr (inr l) ]
          ],
          λ m. elim m [
            | inl k ↦ inr (rec.1 (inl k))
            | inr n ↦ elim n [ inl k ↦ inl k | inr l ↦ inr (rec.1 (inr l)) ]
          ],
        )
]

abbrev pub IsAscending : List ℕ → Type 0
IsAscending [] = Unit {0}
IsAscending (k ∷ keys) = ((y : ℕ) → In y keys → k < y) × IsAscending keys

insert_key-IsAscending :
    (a : ℕ) (keys : List ℕ) → IsAscending keys → IsAscending (insert_key a keys)
unfolding insert_key
insert_key-IsAscending a [] v = (λ y m. elim m [ ], tt)
insert_key-IsAscending a (b ∷ keys) (h, v) = elim (lt_trichotomy a b) [
  | inl l ↦
      let e : ltb a b ≡ true = ground arith in
      rw e (λ y m. elim m [ inl k ↦ omega arith | inr n ↦ let q = h y n in omega arith ], (h, v))
  | inr (inl l) ↦ let e : ltb a b ≡ false = ground arith in rw (e, test_eq a b l) (h, v)
  | inr (inr l) ↦
      let e : ltb a b ≡ false = ground arith in
      let ne : (a == b) ≡ false = ground arith in
      rw (e, ne)
        (
          λ y m. elim ((insert_key-In a keys y).0 m) [ inl k ↦ omega arith | inr n ↦ h y n ],
          insert_key-IsAscending a keys v,
        )
]

pub group_keys-IsAscending : (rows : List MemMsg) → IsAscending (group_keys rows)
unfolding group_keys
group_keys-IsAscending [] = tt
group_keys-IsAscending (row ∷ rows) =
    insert_key-IsAscending row.address (group_keys rows) (group_keys-IsAscending rows)

pub group_keys-In :
    (rows : List MemMsg) (k : ℕ)
    → In k (group_keys rows) ↔ ((row : MemMsg) × In row rows × (k ≡ row.address))
unfolding group_keys
group_keys-In [] k = (λ m. elim m [ ], λ (row, m, e). elim m [ ])
group_keys-In (row ∷ rows) k =
    let ins = insert_key-In row.address (group_keys rows) k in
    let rec = group_keys-In rows k in
    (
      λ m. elim (ins.0 m) [
        | inl e ↦ (row, inl refl, e)
        | inr n ↦ let (r, i, e) = rec.0 n in (r, inr i, e)
      ],
      λ (r, i, e). elim i [
        | inl q ↦ ins.1 (inl (e ∙ ap (λ (w : MemMsg). w.address) q))
        | inr n ↦ ins.1 (inr (rec.1 (r, n, e)))
      ],
    )

-- The row that is taken has the address, and there is one if some row has it.
pub latest-address :
    (c : ℕ) (rows : List MemMsg) (r : MemMsg) → latest c rows ≡ some r → r.address ≡ c
unfolding latest
latest-address c [] r e = absurd (cc)
latest-address c (row ∷ rows) r e = ground (arith, latest-address c rows r)

pub latest-In : (c : ℕ) (rows : List MemMsg) (r : MemMsg) → latest c rows ≡ some r → In r rows
unfolding latest
latest-In c [] r e = absurd (cc)
latest-In c (row ∷ rows) r e = elim (Bool-cases (row.address == c)) [
  | inr no_match ↦ inr (latest-In c rows r (sym (if_false _ _ no_match) ∙ e))
  | inl matches ↦ pick (latest c rows) (λ h. latest-In c rows r h) (sym (if_true _ _ matches) ∙ e)
]
  where
    pick :
        (o : Option MemMsg)
        → (o ≡ some r → In r rows)
        → elim o [
          | none ↦ some row
          | some other ↦ if ltb other.step_id row.step_id then some row else some other
        ]
          ≡ some r
        → (r ≡ row) ⊎ In r rows
    pick none h k = inl (cc)
    pick (some other) h k = ground (arith, h)

pub latest-some :
    (c : ℕ) (rows : List MemMsg) (x : MemMsg) → In x rows → x.address ≡ c → latest c rows ≢ none
unfolding latest
latest-some c [] x m h e = elim m [ ]
latest-some c (row ∷ rows) x (inl q) h e =
    let k : row.address ≡ c = sym (ap (λ (w : MemMsg). w.address) q) ∙ h in ground arith
latest-some c (row ∷ rows) x (inr m) h e = ground (arith, latest-some c rows x m h)

-- Only the rows of the address matter.
pub latest-where_rows :
    (c : ℕ) (f g : MemMsg → Bool) (rows : List MemMsg)
    → ((r : MemMsg) → r.address ≡ c → f r ≡ g r)
    → latest c (where_rows f rows) ≡ latest c (where_rows g rows)
unfolding latest where_rows
latest-where_rows c f g [] h = refl
latest-where_rows c f g (row ∷ rows) h = ground (arith, h row, latest-where_rows c f g rows h)
