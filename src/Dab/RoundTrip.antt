-- ===== src/Dab/RoundTrip.antt =====
-- What is bound to a statement is fetched again from a row of the same columns.
use flightrec.Prelude.{
  ℕ, ◌+◌, ◌<◌, ◌≡◌, ◌≢◌, inl, inr, refl, sym, ◌∙◌, ap, List, [], ◌∷◌, map, Bool, true, not, Option,
  none, some, ◌^◌, ltb, ◌==◌, if◌then◌else◌, if_true, if_false, Bool-cases, Option-cases, arith,
  length, test_eq,
}
use flightrec.Query.{In}
use flightrec.Dab.{
  Status, dab_ok, fail, invalid, IntKind, chr, uchr, shrt, ushrt, int, uint, lng, ulng, llng, ullng,
  ArgKind, integer_kind, str_kind, flt_kind, dbl_kind, sr_kind, other_kind, Arg, integer, str, flt,
  dbl, sr, other, Column, null_column, integer_column, real_column, text_column, Columns, bits,
  is_signed, stored, fetched, bind_column, cursor_bind_from, cursor_bind, fetch_column,
  fetch_columns, row, dab_cursor_fetch,
}

-- A column that is read as the type that it has.
pub record IsFaithful (c : Columns) : Type 0 where
  pub integers : (n : ℕ) → n < 2 ^ 64 → c.as_integer (integer_column n) ≡ n
  pub reals : (n : ℕ) → n < 2 ^ 64 → c.as_real (real_column n) ≡ n
  pub texts : (t : List ℕ) → (In 0 t → ⊥) → c.as_text (text_column t) ≡ some t
  pub nulls : c.as_text null_column ≡ none
  pub blobs : (t : List ℕ) → c.as_blob (text_column t) ≡ t

unfoldable pub kind_of : Arg → ArgKind
kind_of (integer k n) = integer_kind k
kind_of (str text) = str_kind
kind_of (flt n) = flt_kind
kind_of (dbl n) = dbl_kind
kind_of (sr content) = sr_kind
kind_of other = other_kind

-- A value of its type: a string has no 0 inside, and a float survives the conversion to a double.
abbrev pub Fits : Columns → Arg → Type 0
Fits c (integer k n) = n < 2 ^ bits k
Fits c (str none) = true ≡ true
Fits c (str (some t)) = In 0 t → ⊥
Fits c (flt n) = (c.widen n < 2 ^ 64) × (c.narrow (c.widen n) ≡ n)
Fits c (dbl n) = n < 2 ^ 64
Fits c (sr content) = true ≡ true
Fits c other = ⊥

fetched-stored :
    (k : IntKind) (n : ℕ) → n < 2 ^ bits k → (fetched k (stored k n) ≡ n) × (stored k n < 2 ^ 64)
unfolding fetched stored bits is_signed
fetched-stored chr n l = ground arith
fetched-stored uchr n l = ground arith
fetched-stored shrt n l = ground arith
fetched-stored ushrt n l = ground arith
fetched-stored int n l = ground arith
fetched-stored uint n l = ground arith
fetched-stored lng n l = ground arith
fetched-stored ulng n l = ground arith
fetched-stored llng n l = ground arith
fetched-stored ullng n l = ground arith

module _ (c : Columns) (faithful : IsFaithful c) where
  fetch_column-bind_column :
      (arg : Arg)
      → Fits c arg
      → (column : Column) × (bind_column c arg ≡ some column)
        × (fetch_column c (kind_of arg) column ≡ some arg)
  unfolding bind_column fetch_column kind_of
  fetch_column-bind_column (integer k n) fits =
      let (same, low) = fetched-stored k n fits in
      (
        integer_column (stored k n),
        refl,
        ap (λ s. some (integer k (fetched k s))) (faithful.integers (stored k n) low)
            ∙ ap (λ s. some (integer k s)) same,
      )
  fetch_column-bind_column (str none) fits =
      (null_column, refl, ap (λ t. some (str t)) faithful.nulls)
  fetch_column-bind_column (str (some t)) fits =
      (text_column t, refl, ap (λ t. some (str t)) (faithful.texts t fits))
  fetch_column-bind_column (flt n) (low, same) = (
    real_column (c.widen n),
    refl,
    ap (λ m. some (flt (c.narrow m))) (faithful.reals (c.widen n) low)
        ∙ ap (λ m. some (flt m)) same,
  )
  fetch_column-bind_column (dbl n) fits =
      (real_column n, refl, ap (λ m. some (dbl m)) (faithful.reals n fits))
  fetch_column-bind_column (sr content) fits =
      (text_column content, refl, ap (λ t. some (sr t)) (faithful.blobs content))
  fetch_column-bind_column other fits = elim fits [ ]

  bind-fetch_from :
      (works : ℕ → Bool) (count index : ℕ) (args : List Arg)
      → ((i : ℕ) → works i ≡ true)
      → ((arg : Arg) → In arg args → Fits c arg)
      → index + length args ≡ count
      → (columns : List Column) × (cursor_bind_from c works count index args ≡ (dab_ok, columns))
        × (fetch_columns c (map kind_of args) columns ≡ (dab_ok, args))
  unfolding cursor_bind_from fetch_columns
  bind-fetch_from works count index [] go fits e =
      ([], ap (λ s. (s, [])) (if_true _ _ (test_eq count index (omega (arith, e)))), refl)
  bind-fetch_from works count index (arg ∷ args) go fits e =
      let (column, bound, back) = fetch_column-bind_column arg (fits arg (inl refl)) in
      let (columns, rest, backs) =
        bind-fetch_from works count (index + 1) args go (λ x m. fits x (inr m))
          (omega (arith, e)) in
      (
        column ∷ columns,
        ap (bind_next (cursor_bind_from c works count (index + 1) args)) bound
            ∙ if_false {b = ltb count (index + 1)} _ _ (ground (arith, e))
            ∙ if_false _ _ (ap not (go (index + 1)))
            ∙ ap (λ (p : Status × List Column). (p.0, column ∷ p.1)) rest,
        ap (fetch_next (fetch_columns c (map kind_of args) columns)) back
            ∙ ap (λ (p : Status × List Arg). (p.0, arg ∷ p.1)) backs,
      )
    where
      bind_next : Status × List Column → Option Column → Status × List Column
      bind_next p o = elim o [
        | none ↦ (invalid, [])
        | some x ↦
            if ltb count (index + 1)
            then (fail, [])
            else if not (works (index + 1))
            then (fail, [])
            else (p.0, x ∷ p.1)
      ]

      fetch_next : Status × List Arg → Option Arg → Status × List Arg
      fetch_next p o = elim o [ none ↦ (invalid, []) | some x ↦ (p.0, x ∷ p.1) ]

  -- If SQLite reads each column as what was stored, its calls succeed, each argument is of its type,
  -- a string has no 0 inside, a float survives its conversion to a double, and there are as many
  -- placeholders as arguments, then the binding succeeds, and a fetch of the same types from a row
  -- of what was bound yields the arguments.
  pub dab_cursor_fetch-cursor_bind :
      (works : ℕ → Bool) (args : List Arg)
      → ((i : ℕ) → works i ≡ true)
      → ((arg : Arg) → In arg args → Fits c arg)
      → (columns : List Column) × (cursor_bind c works (length args) args ≡ (dab_ok, columns))
        × (dab_cursor_fetch c true (row columns) (map kind_of args) ≡ (dab_ok, args))
  unfolding dab_cursor_fetch
  dab_cursor_fetch-cursor_bind works args go fits =
      bind-fetch_from works (length args) 0 args go fits (omega arith)

bind_counts_from :
    (c : Columns) (works : ℕ → Bool) (count index : ℕ) (args : List Arg)
    → (cursor_bind_from c works count index args).0 ≡ dab_ok
    → index + length args ≡ count
unfolding cursor_bind_from
bind_counts_from c works count index [] e = elim (Bool-cases (count == index)) [
  | inl same ↦ ground (arith, same)
  | inr unequal ↦ absurd (
      off (
        sym (
          ap (λ (p : Status × List Column). p.0)
            (ap (λ t. (t, [])) (if_false dab_ok invalid unequal)))
        ∙ e))
]
  where
    off : invalid ≢ dab_ok
    off k = absurd (cc)
bind_counts_from c works count index (arg ∷ args) e = elim (Option-cases (bind_column c arg)) [
  | inl n ↦ absurd (refused (sym (ap (λ o. (bind_next o).0) n) ∙ e))
  | inr (column, n) ↦
      let rest = sym (ap (λ o. (bind_next o).0) n) ∙ e in
      elim (Bool-cases (ltb count (index + 1))) [
        | inl beyond ↦
            absurd
              (failed (sym (ap (λ (p : Status × List Column). p.0) (if_true _ _ beyond)) ∙ rest))
        | inr within ↦
            let called =
              sym (ap (λ (p : Status × List Column). p.0) (if_false _ _ within)) ∙ rest in
            elim (Bool-cases (not (works (index + 1)))) [
              | inl bad ↦
                  absurd (
                    failed
                      (sym (ap (λ (p : Status × List Column). p.0) (if_true _ _ bad)) ∙ called))
              | inr good ↦ omega (
                arith,
                bind_counts_from c works count (index + 1) args
                    (sym (ap (λ (p : Status × List Column). p.0) (if_false _ _ good)) ∙ called),
              )
            ]
      ]
]
  where
    bind_next : Option Column → Status × List Column
    bind_next o = elim o [
      | none ↦ (invalid, [])
      | some x ↦
          if ltb count (index + 1)
          then (fail, [])
          else if not (works (index + 1))
          then (fail, [])
          else (
            (cursor_bind_from c works count (index + 1) args).0,
            x ∷ (cursor_bind_from c works count (index + 1) args).1,
          )
    ]

    refused : invalid ≢ dab_ok
    refused k = absurd (cc)

    failed : fail ≢ dab_ok
    failed k = absurd (cc)

-- A binding that succeeds has as many arguments as there are placeholders.
pub cursor_bind_counts :
    (c : Columns) (works : ℕ → Bool) (count : ℕ) (args : List Arg)
    → (cursor_bind c works count args).0 ≡ dab_ok
    → length args ≡ count
cursor_bind_counts c works count args e = omega (arith, bind_counts_from c works count 0 args e)
