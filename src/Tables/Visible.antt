-- ===== src/Tables/Visible.antt =====
-- What the route on queries in src/ezauth/api/tables.py lets a user see.
use ezauth.Prelude.{
  ℕ, zero, suc, take, length, ltb, String, Bool, true, false, ◌&&◌, Option, some, List, [], ◌∷◌,
  nat_eq, option_eq, All, All-map, All-select_holds, select, order_by, ◌≡◌, refl, sym, ap, subst,
  ◌∙◌, arith, inl, inr, Bool-cases,
}
use ezauth.Outcome.{Result-cases}
use ezauth.Prelude.Paging.{cut_page, All-order_by}
use ezauth.Tables.Filter.{Expr}
use ezauth.Tables.Query
use ezauth.Tables.Selects.{Sql}
use ezauth.Tables.Query.{
  RowQuery, row_page, row_before, wanted, passes, past_cursor, compile_spec, resolve_sort,
  cursor_bounds, query_fails,
}
use ezauth.Tables.{CustomColumn, CustomRow, TableDb, Lib}
use ezauth.Tables.Columns.{load_columns, of_table}
use ezauth.Tables.Routes.{query_rows, answer, success, failed, Response}
use ezauth.Tables.Isolation.{is_other}

module _ (lib : Lib) (sql : Sql) where
  All-take :
      (P : CustomRow → Type 0) (n : ℕ) (rows : List CustomRow) → All P rows → All P (take n rows)
  All-take P zero rows h = tt
  All-take P (suc n) [] h = tt
  All-take P (suc n) (r ∷ rows) (here, there) = (here, All-take P n rows there)

  row_page-matches :
      (columns : List CustomColumn) (q : RowQuery) (e : Expr) (m : CustomRow → Bool)
      (rows : List CustomRow)
      → All (λ r. m r ≡ true) (row_page lib sql columns q e m rows).0
  unfolding row_page cut_page
  row_page-matches columns q e m rows =
      let before = row_before sql q.desc e in
      let sorted =
        All-order_by before (λ r. m r ≡ true) (select m rows) (All-select_holds m rows) in
      elim (Bool-cases (ltb q.limit (length (order_by before (select m rows))))) [
        | inl more ↦
            rw more (All-take (λ r. m r ≡ true) q.limit (order_by before (select m rows)) sorted)
        | inr all ↦ rw all sorted
      ]

  wanted-own :
      (app_id table_id user_id : ℕ) (r : CustomRow)
      → wanted app_id table_id (some user_id) r ≡ true
      → is_other app_id user_id r ≡ false
  unfolding wanted of_table is_other
  wanted-own app_id table_id user_id r h = ground arith

  rows_of : Response (List CustomRow × Option String) → List CustomRow
  rows_of (success page) = page.0
  rows_of (failed status) = []

  -- Every row on a page that a user gets is the user's own, in the application of the request, whatever
  -- the filter, the sort and the cursor.
  pub query_rows-own :
      (limit app_id user_id table_id : ℕ) (q : RowQuery) (cursor : Option String) (db : TableDb)
      (rows : List CustomRow) (next : Option String)
      → (query_rows lib limit
          (record { app_id = app_id; user_id = some user_id })
          sql
          table_id
          q
          cursor
          db).0
        ≡ success (rows, next)
      → All (λ r. is_other app_id user_id r ≡ false) rows
  unfolding query_rows Query.query_rows answer rows_of
  query_rows-own limit app_id user_id table_id q cursor db rows next h =
      let columns = load_columns table_id db in
      elim (Result-cases (compile_spec lib sql columns q.filter_spec)) [
        | inl (err, bad) ↦ absurd (ground (arith, bad))
        | inr (clause, compiled) ↦ elim (Result-cases (resolve_sort q.sort_field columns)) [
          | inl (err, bad) ↦ absurd (ground (arith, compiled, bad))
          | inr ((e, type), resolved) ↦ elim (Result-cases (cursor_bounds lib sql type cursor)) [
            | inl (err, bad) ↦ absurd (ground (arith, compiled, resolved, bad))
            | inr (c, bounds) ↦
                elim (Bool-cases
                  (query_fails lib sql (wanted app_id table_id (some user_id)) clause e db.rows)) [
                    | inl fails ↦ absurd (ground (arith, compiled, resolved, bounds, fails))
                    | inr fine ↦
                        let m : CustomRow → Bool = λ r.
                          (wanted app_id table_id (some user_id) r && passes lib sql clause r)
                          && past_cursor lib sql q.desc e c r in
                        let scoped : RowQuery = record q { user_id = some user_id } in
                        let page : (query_rows lib limit
                              (record { app_id = app_id; user_id = some user_id }) sql table_id q
                              cursor db).0
                            ≡ success (row_page lib sql columns scoped e m db.rows) =
                          rw (Query.query_rows, compiled, resolved, bounds, fine) refl in
                        let is : (row_page lib sql columns scoped e m db.rows).0 ≡ rows =
                          ap rows_of (sym page ∙ h) in
                        subst (All (λ r. is_other app_id user_id r ≡ false)) is (
                          All-map (λ r hit. wanted-own app_id table_id user_id r (ground arith))
                            (row_page lib sql columns scoped e m db.rows).0
                            (row_page-matches columns scoped e m db.rows))
                  ]
          ]
        ]
      ]
