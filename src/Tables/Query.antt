-- ===== src/Tables/Query.antt =====
-- Queries of src/ezauth/services/tables.py: sorting and keyset pagination.
use mathlib.Core.Option
use ezauth.Prelude.{
  any, ◌+◌, ℕ, String, Bool, true, false, ◌&&◌, ◌||◌, Option, none, some, List, ◌==◌, string_eq,
  nat_eq, option_eq, ltb, if◌then◌else◌, select, order_by,
}
use ezauth.Prelude.Paging.{cut_page}
use ezauth.Json.{Json, null, str, obj, field, end, get_field, Codec}
use ezauth.Outcome.{database_error, Result, ok, raised, invalid_cursor, invalid_sort}
use ezauth.Tables.{
  ColumnType, CustomColumn, CustomRow, TableDb, Lib, column_type, column_named, lookup,
}
use ezauth.Tables.Columns.{load_columns, of_table}
use ezauth.Tables.Filter.{
  Expr, created_at, updated_at, extract, Bound, Clause, compile_filter, coerce_bound_value,
  max_filter_depth,
}
use ezauth.Tables.Selects.{value_fails, clause_fails, Sql, value_of, selects}

unfoldable pub resolve_column : String → Option CustomColumn → Result (Expr × Option ColumnType)
unfolding column_type
resolve_column name none = raised invalid_sort
resolve_column name (some c) = ok (extract name (column_type c.type), column_type c.type)

unfoldable pub resolve_sort : Option String → List CustomColumn → Result (Expr × Option ColumnType)
unfolding resolve_column column_named
resolve_sort none columns = ok (created_at, some ColumnType.timestamptz)
resolve_sort (some name) columns =
    if name == "created_at"
    then ok (created_at, some ColumnType.timestamptz)
    else if name == "updated_at"
    then ok (updated_at, some ColumnType.timestamptz)
    else resolve_column name (column_named name columns)

-- (v, i) before (w, j), ascending: NULL comes last.
unfoldable pub null_lt : Sql → Option Bound → ℕ → Option Bound → ℕ → Bool
null_lt sql (some v) i (some w) j = sql.less v w || (sql.same v w && ltb i j)
null_lt sql (some v) i none j = true
null_lt sql none i (some w) j = false
null_lt sql none i none j = ltb i j

-- ORDER BY expression, id in either direction; descending, NULL comes first.
unfoldable pub row_before : Sql → Bool → Expr → CustomRow → CustomRow → Bool
unfolding null_lt value_of
row_before sql true e a b = null_lt sql (value_of sql e b) b.id (value_of sql e a) a.id
row_before sql false e a b = null_lt sql (value_of sql e a) a.id (value_of sql e b) b.id

-- The predicate on a row's value and id: descending or not, the cursor's value and id.
unfoldable pub keyset_predicate : Sql → Bool → Option Bound → ℕ → Option Bound → ℕ → Bool
keyset_predicate sql true none cursor_id (some v) id = true
keyset_predicate sql true none cursor_id none id = ltb id cursor_id
keyset_predicate sql true (some c) cursor_id (some v) id =
    sql.less v c || (sql.same v c && ltb id cursor_id)
keyset_predicate sql true (some c) cursor_id none id = false
keyset_predicate sql false none cursor_id (some v) id = false
keyset_predicate sql false none cursor_id none id = ltb cursor_id id
keyset_predicate sql false (some c) cursor_id (some v) id =
    sql.less c v || (sql.same v c && ltb cursor_id id)
keyset_predicate sql false (some c) cursor_id none id = true

unfoldable pub cursor_payload : Codec → Json → ℕ → Json
cursor_payload lib v row_id = obj (field "v" v (field "id" (str (lib.str_uuid row_id)) end))

unfoldable pub encode_cursor : Codec → Json → ℕ → String
unfolding cursor_payload
encode_cursor lib v row_id = lib.encode (cursor_payload lib v row_id)

unfoldable pub cursor_parts : Codec → Option Json → Option Json → Option (Json × ℕ)
cursor_parts lib (some v) (some id) = elim (lib.uuid_of id) [
  | none ↦ none
  | some row_id ↦ some (v, row_id)
]
cursor_parts lib v id = none

unfoldable pub cursor_object : Codec → Json → Option (Json × ℕ)
unfolding cursor_parts get_field
cursor_object lib (obj fs) = cursor_parts lib (get_field "v" fs) (get_field "id" fs)
cursor_object lib v = none

unfoldable pub decode_cursor : Codec → String → Option (Json × ℕ)
unfolding cursor_object
decode_cursor lib cursor = elim (lib.decode cursor) [ none ↦ none | some v ↦ cursor_object lib v ]

-- The value in the cursor of a row: the payload's where the sort field is a column, else an instant.
unfoldable pub cursor_value : Lib → Option String → List CustomColumn → CustomRow → Json
unfolding column_named lookup
cursor_value lib none columns r = str (lib.isoformat r.created_at)
cursor_value lib (some name) columns r = elim (column_named name columns) [
  | some c ↦ elim (lookup name r.payload) [ none ↦ null | some v ↦ v ]
  | none ↦
      if name == "updated_at"
      then str (lib.isoformat r.updated_at)
      else str (lib.isoformat r.created_at)
]

-- The rows that the query asks for, before the cursor and the order.
unfoldable pub wanted : (app_id table_id : ℕ) → Option ℕ → CustomRow → Bool
unfolding of_table
wanted app_id table_id none r = of_table app_id table_id r
wanted app_id table_id (some user_id) r = of_table app_id table_id r && r.user_id == some user_id

-- The arguments of `query_rows`.
pub record RowQuery : Type 0 where
  pub user_id : Option ℕ
  pub filter_spec : Option Json
  pub sort_field : Option String
  pub desc : Bool
  pub limit : ℕ

module _ (lib : Lib) (sql : Sql) where
  -- No filter, or the compiled one.
  unfoldable pub compile_spec : List CustomColumn → Option Json → Result (Option Clause)
  unfolding compile_filter
  compile_spec columns none = ok none
  compile_spec columns (some spec) =
      elim (compile_filter lib columns (max_filter_depth + 1) spec 0) [
        | raised err ↦ raised err
        | ok (c, n) ↦ ok (some c)
      ]

  abbrev pub passes : Option Clause → CustomRow → Bool
  passes none r = true
  passes (some c) r = selects sql c r

  -- `if cursor:` takes the empty text for none; a value is converted by the type of the sort.
  unfoldable pub cursor_bounds :
      Option ColumnType → Option String → Result (Option (Option Bound × ℕ))
  unfolding decode_cursor coerce_bound_value
  cursor_bounds type none = ok none
  cursor_bounds type (some cursor) =
      if cursor == "" then ok none else elim (decode_cursor lib.codec cursor) [
        | none ↦ raised invalid_cursor
        | some (v, row_id) ↦ elim (coerce_bound_value lib invalid_cursor v type) [
          | raised err ↦ raised err
          | ok b ↦ ok (some (b, row_id))
        ]
      ]

  abbrev pub past_cursor : Bool → Expr → Option (Option Bound × ℕ) → CustomRow → Bool
  past_cursor desc e none r = true
  past_cursor desc e (some (b, row_id)) r =
      keyset_predicate sql desc b row_id (value_of sql e r) r.id

  abbrev pub spec_fails : Option Clause → CustomRow → Bool
  spec_fails none r = false
  spec_fails (some c) r = clause_fails sql c r

  -- Whether a cast of the filter or the sort raises on a row of the table and the user. In which
  -- order the database looks at rows and conditions is its own; here any such cast fails the query.
  unfoldable pub query_fails : (CustomRow → Bool) → Option Clause → Expr → List CustomRow → Bool
  unfolding value_fails clause_fails
  query_fails scoped clause e rows =
      any (λ r. scoped r && (spec_fails clause r || value_fails sql e r)) rows

  -- ORDER BY and LIMIT limit + 1, cut to the page.
  unfoldable pub row_page :
      List CustomColumn
      → RowQuery
      → Expr
      → (CustomRow → Bool)
      → List CustomRow
      → List CustomRow × Option String
  unfolding row_before cursor_value encode_cursor cut_page order_by select
  row_page columns q e matches rows =
      let (page, next) =
        cut_page q.limit (order_by (row_before sql q.desc e) (select matches rows)) in
      (
        page,
        Option.map
            (λ (r : CustomRow).
              encode_cursor lib.codec (cursor_value lib q.sort_field columns r) r.id)
            next,
      )

  unfoldable pub query_rows :
      (app_id table_id : ℕ)
      → RowQuery
      → Option String
      → TableDb
      → Result (List CustomRow × Option String)
  unfolding load_columns compile_spec resolve_sort cursor_bounds wanted query_fails row_page
  query_rows app_id table_id q cursor db =
      let columns = load_columns table_id db in
      elim (compile_spec columns q.filter_spec) [
        | raised err ↦ raised err
        | ok clause ↦ elim (resolve_sort q.sort_field columns) [
          | raised err ↦ raised err
          | ok (e, type) ↦ elim (cursor_bounds type cursor) [
            | raised err ↦ raised err
            | ok c ↦
                if query_fails (wanted app_id table_id q.user_id) clause e db.rows
                then raised database_error
                else ok (
                    row_page columns q e
                      (λ r.
                        (wanted app_id table_id q.user_id r && passes clause r)
                        && past_cursor q.desc e c r)
                      db.rows)
          ]
        ]
      ]
