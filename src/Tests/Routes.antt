-- ===== src/Tests/Routes.antt =====
-- The routes on rows, for a user with one row in a table of four.
use ezauth.Prelude.{
  false, none, some, [], ◌∷◌, ==_iff, nat_eq, string_eq, option_eq, All, select, order_by,
  row_count, ◌≡◌, refl, arith,
}
use ezauth.Prelude.Keyed.{Keyed}
use ezauth.Json.{str}
use ezauth.Tables.{CustomRow, TableDb}
use ezauth.Tables.Columns.{load_columns}
use ezauth.Tables.Query.{RowQuery, wanted, compile_spec, resolve_sort}
use ezauth.Tables.Routes.{query_rows}
use ezauth.Tables.Isolation.{is_other, serve, change, serve-others}
use ezauth.Tables.Visible.{query_rows-own}
use ezauth.Tests.Tables.{lib, sql, people, row, carol}

abbrev own : CustomRow
own = record (row 31 (("name", str "Al") ∷ [])) { user_id = some 7 }

abbrev shared : TableDb
shared = record people {
  rows =
      own
      ∷ row 32 (("name", str "Barbara") ∷ [])
      ∷ record (row 33 (("name", str "Bob") ∷ [])) { user_id = some 8 }
      ∷ [];
}

shared-Keyed : Keyed (λ (r : CustomRow). r.id) shared.rows
unfolding row_count nat_eq
shared-Keyed i = ground (arith, ==_iff 31 i, ==_iff 32 i, ==_iff 33 i)

serve-others_example :
    select
      (is_other 1 7)
      (serve lib 1_000
        (record { app_id = 1; user_id = some 7 })
        []
        (change 10 5 31 carol)
        shared).rows
    ≡ select (is_other 1 7) shared.rows
serve-others_example = serve-others lib 1_000 1 7 [] shared (change 10 5 31 carol) shared-Keyed

abbrev all_rows : RowQuery
all_rows = record { user_id = none; filter_spec = none; sort_field = none; desc = false; limit = 2 }

query_rows-own_example : All (λ r. is_other 1 7 r ≡ false) (own ∷ [])
unfolding query_rows lib load_columns select order_by nat_eq string_eq option_eq compile_spec
    resolve_sort wanted
query_rows-own_example =
    query_rows-own lib sql 1_000 1 7 5 all_rows none shared (own ∷ []) none refl
