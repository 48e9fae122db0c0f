-- ===== src/Tables/Rows.antt =====
-- The rows of src/ezauth/services/tables.py, and the storage that they take.
use Prim.Native.String.{◌++◌ as ◌<>◌}
use ezauth.Prelude.{
  ℕ, ◌+◌, String, Bool, false, ◌&&◌, Option, none, some, List, [], ◌∷◌, ◌++◌, ◌==◌, string_eq,
  nat_eq, option_eq, leb, first, update, delete, row_count, if◌then◌else◌, not,
}
use ezauth.Prelude.Int.{ℤ, pos, ◌+ℤ◌, ◌-ℤ◌, ltb_ℤ}
use ezauth.Redis.{get, set_ex, del}
use ezauth.Outcome.{
  Exec, Result, ok, raised, pure, gets, lift, modify, raise_if, ◌>>=◌, ◌>>◌, not_found,
  row_limit_exceeded, storage_limit_exceeded, validation_error,
}
use ezauth.Tables.{CustomRow, Payload, TableDb, Lib, merge}
use ezauth.Tables.Values.{validate_row_data, validate_row_data_partial, validate_required_fields}
use ezauth.Tables.Columns.{get_table_or_raise, load_columns, of_table}

abbrev pub max_rows_per_table : ℕ
max_rows_per_table = 10_000

-- DEFAULT_STORAGE_LIMIT, 100 MB
abbrev pub default_storage_limit : ℕ
default_storage_limit = 104_857_600

unfoldable pub storage_usage : Lib → ℕ → List CustomRow → ℕ
storage_usage lib app_id [] = 0
storage_usage lib app_id (r ∷ rows) =
    (if r.app_id == app_id then lib.pg_column_size r.payload else 0) + storage_usage lib app_id rows

-- Whether the storage check refuses; a write that adds nothing is not checked.
unfoldable pub reserve_storage : Lib → ℕ → ℕ → ℤ → List CustomRow → Bool
unfolding storage_usage
reserve_storage lib app_id limit additional rows =
    if not (ltb_ℤ (pos 0) additional)
    then false
    else ltb_ℤ (pos limit) (pos (storage_usage lib app_id rows) +ℤ additional)

abbrev pub storage_key : (ℕ → String) → ℕ → String
storage_key str_uuid app_id = "custom_tables:storage:" <> str_uuid app_id

unfoldable pub invalidate_storage_cache : Lib → ℕ → TableDb → TableDb
unfolding del
invalidate_storage_cache lib app_id db = record db {
  cache = del (storage_key lib.codec.str_uuid app_id) db.cache;
}

-- The cached size, or the size computed and cached for 60 seconds.
unfoldable pub get_storage_usage : Lib → (now app_id : ℕ) → TableDb → ℕ × TableDb
unfolding get set_ex storage_usage
get_storage_usage lib now app_id db =
    elim (get now (storage_key lib.codec.str_uuid app_id) db.cache) [
      | some n ↦ (n, db)
      | none ↦ (
        storage_usage lib app_id db.rows,
        record db {
          cache =
              set_ex now (storage_key lib.codec.str_uuid app_id) (storage_usage lib app_id db.rows)
                60 db.cache;
        },
      )
    ]

-- The conditions on the row, with the user's where one is given.
unfoldable pub is_row : (app_id table_id row_id : ℕ) → Option ℕ → CustomRow → Bool
is_row app_id table_id row_id none r =
    r.id == row_id && (r.table_id == table_id && r.app_id == app_id)
is_row app_id table_id row_id (some user_id) r =
    (r.id == row_id && (r.table_id == table_id && r.app_id == app_id)) && r.user_id == some user_id

unfoldable pub found_row : Option CustomRow → Result CustomRow
found_row none = raised not_found
found_row (some r) = ok r

unfoldable pub get_row : (app_id table_id row_id : ℕ) → Option ℕ → Exec TableDb CustomRow
unfolding is_row found_row first
get_row app_id table_id row_id user_id db =
    (found_row (first (is_row app_id table_id row_id user_id) db.rows), db)

module _ (lib : Lib) where
  unfoldable pub insert_row :
      (id now app_id table_id : ℕ)
      → Payload
      → Option ℕ
      → (storage_limit : ℕ) → Exec TableDb CustomRow
  unfolding get_table_or_raise load_columns of_table validate_row_data reserve_storage
      invalidate_storage_cache row_count
  insert_row id now app_id table_id items user_id storage_limit = do
    table ← get_table_or_raise app_id table_id
    columns ← gets (load_columns table_id)
    rows ← gets (λ (db : TableDb). db.rows)
    raise_if (leb max_rows_per_table (row_count (of_table app_id table_id) rows)) row_limit_exceeded
    validated ← lift (validate_row_data lib items columns)
    raise_if (reserve_storage lib app_id storage_limit (pos (lib.dumped_size validated)) rows)
        storage_limit_exceeded
    let row : CustomRow = record {
      id = id;
      app_id = app_id;
      table_id = table_id;
      user_id = user_id;
      payload = validated;
      created_at = now;
      updated_at = now;
    }
    modify (λ (db : TableDb). record db { rows = db.rows ++ row ∷ [] })
    modify (invalidate_storage_cache lib app_id)
    pure row

  -- `updated_at` is set by the flush; where the payload came out as it was, the flush writes nothing,
  -- which the model leaves out.
  unfoldable pub update_row :
      (now app_id table_id row_id : ℕ)
      → Payload
      → Option ℕ
      → (storage_limit : ℕ) → Exec TableDb CustomRow
  unfolding load_columns get_row validate_row_data_partial validate_required_fields reserve_storage
      invalidate_storage_cache merge update
  update_row now app_id table_id row_id items user_id storage_limit = do
    columns ← gets (load_columns table_id)
    row ← get_row app_id table_id row_id user_id
    validated_partial ← lift (validate_row_data_partial lib items columns)
    let merged = merge row.payload validated_partial
    raise_if (not (validate_required_fields merged columns)) validation_error
    rows ← gets (λ (db : TableDb). db.rows)
    raise_if
        (reserve_storage lib app_id storage_limit
          (pos (lib.dumped_size merged) -ℤ pos (lib.dumped_size row.payload)) rows)
        storage_limit_exceeded
    modify (λ (db : TableDb). record db {
      rows =
          update (λ r. r.id == row.id) (λ r. record r { payload = merged; updated_at = now })
            db.rows;
    })
    modify (invalidate_storage_cache lib app_id)
    pure (record row { payload = merged; updated_at = now })

  unfoldable pub delete_row : (app_id table_id row_id : ℕ) → Option ℕ → Exec TableDb (Unit {0})
  unfolding get_row invalidate_storage_cache delete
  delete_row app_id table_id row_id user_id = do
    row ← get_row app_id table_id row_id user_id
    modify (λ (db : TableDb). record db { rows = delete (λ r. r.id == row.id) db.rows })
    modify (invalidate_storage_cache lib app_id)
