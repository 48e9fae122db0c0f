-- ===== src/Tables/Routes.antt =====
-- The routes of src/ezauth/api/tables.py over the operations on tables. What the web framework does
-- before a handler runs, the checks of request bodies included, is not modelled.
use ezauth.Prelude.{
  ℕ, String, Bool, true, false, ◌&&◌, Option, none, some, List, ◌==◌, nat_eq, any, map,
  if◌then◌else◌,
}
use ezauth.Prelude.Int.{ℤ}
use ezauth.Json.{Json}
use ezauth.Models.{User}
use ezauth.Outcome.{
  Error, Exec, Result, ok, raised, column_exists, not_found, row_limit_exceeded,
  storage_limit_exceeded, table_exists, validation_error, type_error, overflow_error,
  database_error,
}
use ezauth.Tables.{CustomTable, CustomColumn, CustomRow, Payload, TableDb, Lib}
use ezauth.Tables.Columns
use ezauth.Tables.Columns.{ColumnDef, ColumnChange}
use ezauth.Tables.Rows
use ezauth.Tables.Query
use ezauth.Tables.Selects.{Sql}
use ezauth.Tables.Query.{RowQuery}

-- The application that a request speaks for, and its user unless it comes from an administrator.
pub record AppAuth : Type 0 where
  pub app_id : ℕ
  pub user_id : Option ℕ

unfoldable pub is_admin : AppAuth → Bool
is_admin auth = elim auth.user_id [ none ↦ true | some u ↦ false ]

-- What a handler returns, or the status of the HTTPException that it raises.
pub data Response {ℓ} (A : Type ℓ) : Type ℓ where
  success : A → Response A
  failed : ℕ → Response A

-- A TypeError, an OverflowError and an error of the database are no AuthError: the framework
-- answers 500.
unfoldable pub http_error : Error → ℕ
http_error column_exists = 409
http_error not_found = 404
http_error row_limit_exceeded = 413
http_error storage_limit_exceeded = 413
http_error table_exists = 409
http_error validation_error = 422
http_error type_error = 500
http_error overflow_error = 500
http_error database_error = 500
http_error e = 400

unfoldable pub answer {ℓ} : {A : Type ℓ} → Result A → Response A
unfolding http_error
answer (ok a) = success a
answer (raised e) = failed (http_error e)

-- `try: … except AuthError as e: raise _http_error(e)`
unfoldable pub run : {A : Type 0} → Exec TableDb A → TableDb → Response A × TableDb
unfolding answer
run m db = (answer (m db).0, (m db).1)

-- `_require_admin` before the rest of a handler.
unfoldable pub require_admin :
    {A : Type 0} → AppAuth → (TableDb → Response A × TableDb) → TableDb → Response A × TableDb
unfolding is_admin
require_admin auth handler db = if is_admin auth then handler db else (failed 403, db)

unfoldable pub resolve_row_user : List User → AppAuth → Option ℕ → Response (Option ℕ)
unfolding is_admin
resolve_row_user users auth asked =
    if is_admin auth
    then elim asked [
      | none ↦ success none
      | some u ↦
          if any (λ x. x.id == u && x.app_id == auth.app_id) users
          then success (some u)
          else failed 400
    ]
    else success auth.user_id

-- A column of the body: its position is null where the client gave none.
pub record CreateColumnRequest : Type 0 where
  pub name : String
  pub type : String
  pub required : Bool
  pub default_value : Option Json
  pub position : Option ℤ

-- The dictionary that the handler builds always has the key "position".
unfoldable pub column_def : CreateColumnRequest → ColumnDef
column_def c = record {
  name = c.name;
  type = c.type;
  required = c.required;
  default_value = c.default_value;
  position = some c.position;
}

unfoldable pub create_table :
    (id table_id now : ℕ)
    → AppAuth
    → String
    → List CreateColumnRequest
    → TableDb
    → Response CustomTable × TableDb
unfolding run require_admin column_def Columns.create_table
create_table id table_id now auth name columns =
    require_admin auth
      (run (Columns.create_table id table_id now auth.app_id name (map column_def columns)))

unfoldable pub list_tables : AppAuth → TableDb → Response (List CustomTable × ℕ) × TableDb
unfolding require_admin Columns.list_tables
list_tables auth = require_admin auth (λ db. (success (Columns.list_tables auth.app_id db), db))

-- The bytes used and the limit; the percentage is computed from them.
unfoldable pub get_storage : Lib → (now limit : ℕ) → AppAuth → TableDb → Response (ℕ × ℕ) × TableDb
unfolding require_admin Rows.get_storage_usage
get_storage lib now limit auth = require_admin auth (λ db.
    let (used, db') = Rows.get_storage_usage lib now auth.app_id db in (success (used, limit), db'))

unfoldable pub get_table :
    AppAuth → ℕ → TableDb → Response (CustomTable × List CustomColumn) × TableDb
unfolding run require_admin Columns.get_table
get_table auth table_id = require_admin auth (run (Columns.get_table auth.app_id table_id))

unfoldable pub delete_table : AppAuth → ℕ → TableDb → Response (Unit {0}) × TableDb
unfolding run require_admin Columns.delete_table
delete_table auth table_id = require_admin auth (run (Columns.delete_table auth.app_id table_id))

unfoldable pub add_column :
    ℕ → AppAuth → ℕ → CreateColumnRequest → TableDb → Response CustomColumn × TableDb
unfolding run require_admin Columns.add_column
add_column id auth table_id body = require_admin auth (
    run (
      Columns.add_column id auth.app_id table_id body.name body.type body.required
        body.default_value body.position))

unfoldable pub update_column :
    AppAuth → (table_id column_id : ℕ) → ColumnChange → TableDb → Response CustomColumn × TableDb
unfolding run require_admin Columns.update_column
update_column auth table_id column_id body =
    require_admin auth (run (Columns.update_column auth.app_id table_id column_id body))

unfoldable pub delete_column :
    AppAuth → (table_id column_id : ℕ) → TableDb → Response (Unit {0}) × TableDb
unfolding run require_admin Columns.delete_column
delete_column auth table_id column_id =
    require_admin auth (run (Columns.delete_column auth.app_id table_id column_id))

module _ (lib : Lib) (limit : ℕ) (auth : AppAuth) where
  unfoldable pub insert_as :
      (id now table_id : ℕ) → Payload → Response (Option ℕ) → TableDb → Response CustomRow × TableDb
  unfolding run Rows.insert_row
  insert_as id now table_id items (failed status) db = (failed status, db)
  insert_as id now table_id items (success user_id) db =
      run (Rows.insert_row lib id now auth.app_id table_id items user_id limit) db

  unfoldable pub insert_row :
      List User
      → (id now table_id : ℕ) → Payload
      → Option ℕ
      → TableDb
      → Response CustomRow × TableDb
  unfolding insert_as resolve_row_user
  insert_row users id now table_id items asked =
      insert_as id now table_id items (resolve_row_user users auth asked)

  -- `None if auth.is_admin else auth.user_id`
  abbrev pub scope : Option ℕ
  scope = auth.user_id

  unfoldable pub query_rows :
      Sql
      → ℕ
      → RowQuery
      → Option String
      → TableDb
      → Response (List CustomRow × Option String) × TableDb
  unfolding answer Query.query_rows
  query_rows sql table_id q cursor db = (
    answer (Query.query_rows lib sql auth.app_id table_id (record q { user_id = scope }) cursor db),
    db,
  )

  unfoldable pub get_row : (table_id row_id : ℕ) → TableDb → Response CustomRow × TableDb
  unfolding run Rows.get_row
  get_row table_id row_id = run (Rows.get_row auth.app_id table_id row_id scope)

  unfoldable pub update_row :
      (now table_id row_id : ℕ) → Payload → TableDb → Response CustomRow × TableDb
  unfolding run Rows.update_row
  update_row now table_id row_id items =
      run (Rows.update_row lib now auth.app_id table_id row_id items scope limit)

  unfoldable pub delete_row : (table_id row_id : ℕ) → TableDb → Response (Unit {0}) × TableDb
  unfolding run Rows.delete_row
  delete_row table_id row_id = run (Rows.delete_row lib auth.app_id table_id row_id scope)
