-- ===== src/Tables/Pages.antt =====
-- Reading the pages of a query in src/ezauth/services/tables.py.
use ezauth.Prelude.{
  ℕ, String, Bool, true, false, ◌&&◌, Option, none, some, List, nat_eq, select, ◌≡◌, ◌≢◌,
}
use ezauth.Prelude.Paging.{IsOrder}
use ezauth.Prelude.Pages.{page_of}
use ezauth.Json.{Json, str, Codec}
use ezauth.Outcome.{Result, ok, raised}
use ezauth.Tables.{ColumnType, CustomColumn, CustomRow, TableDb, Lib}
use ezauth.Tables.Columns.{load_columns, of_table}
use ezauth.Tables.Filter.{Expr, Bound, Clause}
use ezauth.Tables.Selects.{Sql}
use ezauth.Tables.Query.{
  RowQuery, row_before, cursor_payload, encode_cursor, cursor_value, cursor_bounds, past_cursor,
  passes, wanted, query_rows,
}
use ezauth.Tables.Order.{SqlLaws, row_before-IsOrder}
use ezauth.Tables.Stored.{Casts, scalar}
use ezauth.Tables.Conforms.{Conforms}

-- What the standard library documents of base64, json and uuid, at cursors of a scalar.
pub record CodecLaws (lib : Codec) : Type 0 where
  pub decode-encode :
      (v : Json) (i : ℕ)
      → scalar v ≡ true
      → lib.decode (lib.encode (cursor_payload lib v i)) ≡ some (cursor_payload lib v i)
  pub encode_full : (v : Json) (i : ℕ) → scalar v ≡ true → lib.encode (cursor_payload lib v i) ≢ ""
  pub uuid_of-str_uuid : (i : ℕ) → lib.uuid_of (str (lib.str_uuid i)) ≡ some i

abbrev pub shown : Result (List CustomRow × Option String) → Option (List CustomRow × Option String)
shown (ok page) = some page
shown (raised e) = none

module _ (lib : Lib) (sql : Sql) (laws : SqlLaws sql) (casts : Casts lib sql)
    (codec : CodecLaws lib.codec) (app_id table_id : ℕ) (q : RowQuery) (db : TableDb) where
  -- A client that asks for the page from a cursor.
  abbrev pub query : Option String → Option (List CustomRow × Option String)
  query cursor = shown (query_rows lib sql app_id table_id q cursor db)

  abbrev columns : List CustomColumn
  columns = load_columns table_id db

  abbrev table_rows : List CustomRow
  table_rows = select (of_table app_id table_id) db.rows

  module _ (e : Expr) (type : Option ColumnType) (clause : Option Clause) where
    abbrev pub matches : CustomRow → Bool
    matches r = wanted app_id table_id q.user_id r && passes lib sql clause r

    cursor_of : CustomRow → String
    cursor_of r = encode_cursor lib.codec (cursor_value lib q.sort_field columns r) r.id

    past_bounds : Result (Option (Option Bound × ℕ)) → CustomRow → Bool
    past_bounds (ok c) r = past_cursor lib sql q.desc e c r
    past_bounds (raised err) r = false

    after_text : String → CustomRow → Bool
    after_text k = past_bounds (cursor_bounds lib sql type (some k))

    abbrev before : CustomRow → CustomRow → Bool
    before = row_before sql q.desc e

    abbrev o : IsOrder before
    o = row_before-IsOrder sql laws q.desc e

    abbrev expected : Option String → Option (List CustomRow × Option String)
    expected c = some (page_of before o matches after_text cursor_of q.limit table_rows c)
