-- ===== src/Expr/Cache.antt =====
-- examine/expressions/expression.c: the table of parsed expressions, `query_expr_cache` and
-- `update_expr_cache`. The statements on the table, one row for each text, are written out; texts
-- are numbers. An AST is its address, and 0 for NULL.
mod Tests
use flightrec.Prelude.{
  ℕ, zero, suc, ◌+◌, ◌<◌, ◌≤◌, ◌≡◌, ◌≢◌, refl, sym, ◌∙◌, ap, List, [], ◌∷◌, ◌++◌, Bool, true, false,
  not, Option, none, some, ◌==◌, Option-cases, if◌then◌else◌, arith, inl, inr, Bool-cases, if_true,
  if_false, test_eq,
}
use flightrec.Query.{In, where_rows, first_row}
use flightrec.Query.Append.{In-append, where_rows-append}

-- A row of `local.expr`; the id is AUTOINCREMENT.
pub record ExprRow : Type 0 where
  pub id : ℕ
  pub expr_text : ℕ
  pub ast : ℕ

pub record ExprTable : Type 0 where
  pub rows : List ExprRow
  pub next_id : ℕ

abbrev pub empty_table : ExprTable
empty_table = record { rows = []; next_id = 1 }

-- SELECT id, ast WHERE expr_text = ?
unfoldable pub find_expr : ℕ → List ExprRow → Option ExprRow
unfolding where_rows
find_expr text rows = first_row (where_rows (λ r. r.expr_text == text) rows)

-- `query_ok` and `insert_ok` say whether the statements succeed. The table, and the id and the AST;
-- `none` is FAILURE.
unfoldable pub query_expr_cache : Bool → Bool → ExprTable → ℕ → ExprTable × Option (ℕ × ℕ)
unfolding find_expr
query_expr_cache query_ok insert_ok table text =
    if not query_ok then (table, none) else elim (find_expr text table.rows) [
      | some r ↦ (table, some (r.id, r.ast))
      | none ↦ if not insert_ok then (table, none) else (
        record {
          rows = table.rows ++ (record { id = table.next_id; expr_text = text; ast = 0 } ∷ []);
          next_id = table.next_id + 1;
        },
        some (table.next_id, 0),
      )
    ]

-- UPDATE local.expr SET ast = ? WHERE id = ?
unfoldable pub update_rows : ℕ → ℕ → List ExprRow → List ExprRow
update_rows ast id [] = []
update_rows ast id (r ∷ rows) =
    (if r.id == id then record r { ast = ast } else r) ∷ update_rows ast id rows

-- The values are bound in the order `id`, `ast`, to `SET ast = ?` and `WHERE id = ?`.
unfoldable pub update_expr_cache : Bool → ExprTable → ℕ → ℕ → ExprTable
unfolding update_rows
update_expr_cache update_ok table id ast =
    if update_ok then record table { rows = update_rows id ast table.rows } else table

update_rows_same :
    (id ast : ℕ) (rows : List ExprRow)
    → ((r : ExprRow) → In r rows → r.id < ast)
    → update_rows id ast rows ≡ rows
unfolding update_rows
update_rows_same id ast [] h = refl
update_rows_same id ast (r ∷ rows) h =
    let small = h r (inl refl) in
    ap (λ x. x ∷ update_rows id ast rows)
      (if_false _ _ (let ne : (r.id == ast) ≡ false = ground arith in ne))
    ∙ ap (λ l. r ∷ l) (update_rows_same id ast rows (λ q m. h q (inr m)))

-- An address that is no id changes no row.
update_expr_cache_ignored :
    (update_ok : Bool) (table : ExprTable) (id ast : ℕ)
    → ((r : ExprRow) → In r table.rows → r.id < table.next_id)
    → table.next_id ≤ ast
    → update_expr_cache update_ok table id ast ≡ table
unfolding update_expr_cache
update_expr_cache_ignored true table id ast h big =
    ap (λ l. record table { rows = l })
      (update_rows_same id ast table.rows (λ r m. let k = h r m in omega arith))
update_expr_cache_ignored false table id ast h big = refl

abbrev new_row : ExprTable → ℕ → ExprRow
new_row table text = record { id = table.next_id; expr_text = text; ast = 0 }

abbrev added : ExprTable → ℕ → ExprTable
added table text = record {
  rows = table.rows ++ (new_row table text ∷ []);
  next_id = table.next_id + 1;
}

query_found :
    (table : ExprTable) (text : ℕ) (r : ExprRow)
    → find_expr text table.rows ≡ some r
    → query_expr_cache true true table text ≡ (table, some (r.id, r.ast))
unfolding query_expr_cache
query_found table text r e =
    ap
      (λ o. elim o [
        | some q ↦ (table, some (q.id, q.ast))
        | none ↦ (added table text, some (table.next_id, 0))
      ])
      e

query_added :
    (table : ExprTable) (text : ℕ)
    → find_expr text table.rows ≡ none
    → query_expr_cache true true table text ≡ (added table text, some (table.next_id, 0))
unfolding query_expr_cache
query_added table text e =
    ap
      (λ o. elim o [
        | some q ↦ (table, some (q.id, q.ast))
        | none ↦ (added table text, some (table.next_id, 0))
      ])
      e

find_added :
    (table : ExprTable) (text : ℕ)
    → find_expr text table.rows ≡ none
    → find_expr text (added table text).rows ≡ some (new_row table text)
unfolding find_expr where_rows
find_added table text e =
    ap first_row (where_rows-append (λ r. r.expr_text == text) table.rows (new_row table text ∷ []))
    ∙ ap (λ l. first_row (l ++ where_rows (λ r. r.expr_text == text) (new_row table text ∷ [])))
        (no_first (where_rows (λ r. r.expr_text == text) table.rows) e)
    ∙ ap first_row (if_true _ _ (test_eq text text refl))
  where
    no_first : (rows : List ExprRow) → first_row rows ≡ none → rows ≡ []
    no_first [] e = refl
    no_first (r ∷ rows) e = absurd (cc)

-- In a table whose ids are smaller than the next one, if an expression is asked for, and its AST,
-- whose address is larger than the ids, is stored with `update_expr_cache`, then asking again
-- yields the same id and AST as before: the AST that was stored is not found.
pub stored_not_found :
    (update_ok : Bool) (table : ExprTable) (text id ast : ℕ)
    → ((r : ExprRow) → In r table.rows → r.id < table.next_id)
    → table.next_id < ast
    → (query_expr_cache true true
        (update_expr_cache update_ok (query_expr_cache true true table text).0 id ast)
        text).1
      ≡ (query_expr_cache true true table text).1
stored_not_found update_ok table text id ast h big =
    elim (Option-cases (find_expr text table.rows)) [
      | inl e ↦
          let q = query_added table text e in
          let u =
            update_expr_cache_ignored update_ok (added table text) id ast
              (λ r m. elim (In-append r table.rows (new_row table text ∷ []) m) [
                | inl old ↦ let k = h r old in omega arith
                | inr new ↦ elim new [
                  | inl same ↦ omega (arith, ap (λ (x : ExprRow). x.id) same)
                  | inr n ↦ elim n [ ]
                ]
              ])
              (omega arith) in
          ap
            (λ (t : ExprTable × Option (ℕ × ℕ)).
              (query_expr_cache true true (update_expr_cache update_ok (t.0) id ast) text).1)
            q
          ∙ ap (λ t. (query_expr_cache true true t text).1) u
          ∙ ap (λ (t : ExprTable × Option (ℕ × ℕ)). t.1)
              (query_found (added table text) text (new_row table text) (find_added table text e))
          ∙ sym (ap (λ (t : ExprTable × Option (ℕ × ℕ)). t.1) q)
      | inr (r, e) ↦
          let q = query_found table text r e in
          let u = update_expr_cache_ignored update_ok table id ast h (omega arith) in
          ap
            (λ (t : ExprTable × Option (ℕ × ℕ)).
              (query_expr_cache true true (update_expr_cache update_ok (t.0) id ast) text).1)
            q
          ∙ ap (λ t. (query_expr_cache true true t text).1) u
    ]
