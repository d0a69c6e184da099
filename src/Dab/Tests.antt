-- ===== src/Dab/Tests.antt =====
-- A number, a string and a NULL that go through a statement.
use mathlib.Core.Path.{subst}
use flightrec.Prelude.{ℕ, ◌≡◌, refl, sym, List, [], ◌∷◌, map, true, none, some, inl, inr, arith}
use flightrec.Query.{In}
use flightrec.Dab.{
  dab_ok, shrt, Arg, integer, str, Column, null_column, integer_column, real_column, text_column,
  Columns, cursor_bind, row, dab_cursor_fetch, bits,
}
use flightrec.Dab.RoundTrip.{IsFaithful, kind_of, Fits, dab_cursor_fetch-cursor_bind}

abbrev plain_columns : Columns
plain_columns = record {
  as_integer = λ c. elim c [
    | null_column ↦ 0
    | integer_column n ↦ n
    | real_column n ↦ 0
    | text_column t ↦ 0
  ];
  as_real = λ c. elim c [
    | null_column ↦ 0
    | integer_column n ↦ 0
    | real_column n ↦ n
    | text_column t ↦ 0
  ];
  as_text = λ c. elim c [
    | null_column ↦ none
    | integer_column n ↦ none
    | real_column n ↦ none
    | text_column t ↦ some t
  ];
  as_blob = λ c. elim c [
    | null_column ↦ []
    | integer_column n ↦ []
    | real_column n ↦ []
    | text_column t ↦ t
  ];
  widen = λ n. n;
  narrow = λ n. n;
}

plain_columns-IsFaithful : IsFaithful plain_columns
plain_columns-IsFaithful = record {
  integers = λ n l. refl;
  reals = λ n l. refl;
  texts = λ t n. refl;
  nulls = refl;
  blobs = λ t. refl;
}

-- -1 as a `short`, "Hi", and no string.
abbrev three_args : List Arg
three_args = integer shrt 65535 ∷ str (some (72 ∷ 105 ∷ [])) ∷ str none ∷ []

no_zero : In {A = ℕ} 0 (72 ∷ 105 ∷ []) → ⊥
no_zero (inl e) = absurd (omega (arith, e))
no_zero (inr (inl e)) = absurd (omega (arith, e))
no_zero (inr (inr e)) = elim e [ ]

three_args-Fits : (arg : Arg) → In arg three_args → Fits plain_columns arg
unfolding bits
three_args-Fits arg (inl e) = subst (Fits plain_columns) (sym e) (omega arith)
three_args-Fits arg (inr (inl e)) = subst (Fits plain_columns) (sym e) no_zero
three_args-Fits arg (inr (inr (inl e))) = subst (Fits plain_columns) (sym e) refl
three_args-Fits arg (inr (inr (inr e))) = elim e [ ]

dab_cursor_fetch-cursor_bind_example :
    (columns : List Column) × (cursor_bind plain_columns (λ i. true) 3 three_args
      ≡ (dab_ok, columns))
    × (dab_cursor_fetch plain_columns true (row columns) (map kind_of three_args)
        ≡ (dab_ok, three_args))
dab_cursor_fetch-cursor_bind_example =
    dab_cursor_fetch-cursor_bind plain_columns plain_columns-IsFaithful (λ i. true) three_args
      (λ i. refl) three_args-Fits
