-- ===== src/Expr/Cache/Tests.antt =====
-- An expression that is asked for in an empty table.
use flightrec.Prelude.{◌≡◌, true, arith}
use flightrec.Expr.Cache.{empty_table, query_expr_cache, update_expr_cache, stored_not_found}

stored_not_found_example :
    (query_expr_cache true true
      (update_expr_cache true (query_expr_cache true true empty_table 7).0 1 4096)
      7).1
    ≡ (query_expr_cache true true empty_table 7).1
stored_not_found_example =
    stored_not_found true empty_table 7 1 4096 (λ r m. elim m [ ]) (omega arith)
