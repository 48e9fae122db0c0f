-- ===== src/Tables/Columns.antt =====
-- The tables and columns of src/ezauth/services/tables.py. `id`, `ids` and `now` are what the inserts
-- draw.
use ezauth.Prelude.{
  ℕ, suc, ◌+◌, String, Bool, true, false, not, ◌&&◌, Option, none, some, List, [], ◌∷◌, ◌++◌, ◌==◌,
  string_eq, nat_eq, ltb, first, select, update, delete, order_by, row_count, if◌then◌else◌,
}
use ezauth.Prelude.Int.{ℤ, pos, ◌+ℤ◌, ltb_ℤ}
use ezauth.Json.{Json}
use ezauth.Outcome.{
  Exec, Result, ok, raised, pure, gets, modify, raise_if, ◌>>=◌, ◌>>◌, table_exists, column_exists,
  not_found,
}
use ezauth.Tables.{CustomTable, CustomColumn, CustomRow, TableDb, lookup, set_key, remove_key}

abbrev pub is_some {ℓ} : {A : Type ℓ} → Option A → Bool
is_some none = false
is_some (some a) = true

unfoldable pub is_table : ℕ → ℕ → CustomTable → Bool
is_table app_id table_id t = t.id == table_id && t.app_id == app_id

unfoldable pub found_table : Option CustomTable → Result CustomTable
found_table none = raised not_found
found_table (some t) = ok t

unfoldable pub get_table_or_raise : ℕ → ℕ → Exec TableDb CustomTable
unfolding is_table found_table first
get_table_or_raise app_id table_id db =
    (found_table (first (is_table app_id table_id) db.tables), db)

-- ORDER BY position
unfoldable pub load_columns : ℕ → TableDb → List CustomColumn
unfolding select order_by
load_columns table_id db =
    order_by (λ a b. ltb_ℤ a.position b.position) (select (λ c. c.table_id == table_id) db.columns)

-- A column of the argument `columns`: `position` is none where the key is missing, and some none
-- where it is null, which the server's default, 0, stands in for.
pub record ColumnDef : Type 0 where
  pub name : String
  pub type : String
  pub required : Bool
  pub default_value : Option Json
  pub position : Option (Option ℤ)

-- `col_def.get("position", i)`
unfoldable pub position_of : ℕ → Option (Option ℤ) → ℤ
position_of i none = pos i
position_of i (some none) = pos 0
position_of i (some (some n)) = n

unfoldable pub new_columns : ℕ → ℕ → ℕ → ℕ → List ColumnDef → List CustomColumn
unfolding position_of
new_columns id app_id table_id i [] = []
new_columns id app_id table_id i (d ∷ defs) =
    record {
      id = id + i;
      app_id = app_id;
      table_id = table_id;
      name = d.name;
      type = d.type;
      required = d.required;
      default_value = d.default_value;
      position = position_of i d.position;
    }
    ∷ new_columns id app_id table_id (suc i) defs

-- The columns take ids from `id` on.
unfoldable pub create_table :
    (id table_id now app_id : ℕ) → String → List ColumnDef → Exec TableDb CustomTable
unfolding new_columns first
create_table id table_id now app_id name columns = do
  existing ← gets (λ (db : TableDb). first (λ t. t.app_id == app_id && t.name == name) db.tables)
  raise_if (is_some existing) table_exists
  let table : CustomTable = record { id = table_id; app_id = app_id; name = name; created_at = now }
  modify (λ (db : TableDb). record db {
    tables = db.tables ++ table ∷ [];
    columns = db.columns ++ new_columns id app_id table_id 0 columns;
  })
  pure table

unfoldable pub list_tables : ℕ → TableDb → List CustomTable × ℕ
unfolding order_by select row_count
list_tables app_id db = (
  order_by (λ a b. ltb a.created_at b.created_at) (select (λ t. t.app_id == app_id) db.tables),
  row_count (λ (t : CustomTable). t.app_id == app_id) db.tables,
)

-- The table with its columns, in the order of the relationship.
unfoldable pub get_table : ℕ → ℕ → Exec TableDb (CustomTable × List CustomColumn)
unfolding get_table_or_raise load_columns
get_table app_id table_id = do
  table ← get_table_or_raise app_id table_id
  columns ← gets (load_columns table.id)
  pure (table, columns)

-- The columns and rows of the table go with it (cascade="all, delete-orphan").
unfoldable pub delete_table : ℕ → ℕ → Exec TableDb (Unit {0})
unfolding get_table_or_raise delete
delete_table app_id table_id = do
  table ← get_table_or_raise app_id table_id
  modify (λ (db : TableDb). record db {
    tables = delete (λ t. t.id == table.id) db.tables;
    columns = delete (λ c. c.table_id == table.id) db.columns;
    rows = delete (λ r. r.table_id == table.id) db.rows;
  })

-- max(position) WHERE p, none for no row
unfoldable pub max_position : (CustomColumn → Bool) → List CustomColumn → Option ℤ
max_position p [] = none
max_position p (c ∷ cs) =
    let rest = max_position p cs in
    if p c
    then elim rest [
      | none ↦ some c.position
      | some n ↦ some (if ltb_ℤ c.position n then n else c.position)
    ]
    else rest

-- The position asked for, or one more than the largest.
unfoldable pub next_position : Option ℤ → ℕ → List CustomColumn → ℤ
unfolding max_position
next_position (some n) table_id columns = n
next_position none table_id columns = elim (max_position (λ c. c.table_id == table_id) columns) [
  | none ↦ pos 1
  | some n ↦ n +ℤ pos 1
]

unfoldable pub in_table : ℕ → String → CustomColumn → Bool
in_table table_id name c = c.table_id == table_id && c.name == name

unfoldable pub add_column :
    (id app_id table_id : ℕ)
    → String
    → String
    → Bool
    → Option Json
    → Option ℤ
    → Exec TableDb CustomColumn
unfolding get_table_or_raise in_table next_position first
add_column id app_id table_id name type required default_value position = do
  table ← get_table_or_raise app_id table_id
  existing ← gets (λ (db : TableDb). first (in_table table_id name) db.columns)
  raise_if (is_some existing) column_exists
  columns ← gets (λ (db : TableDb). db.columns)
  let col : CustomColumn = record {
    id = id;
    app_id = app_id;
    table_id = table_id;
    name = name;
    type = type;
    required = required;
    default_value = default_value;
    position = next_position position table_id columns;
  }
  modify (λ (db : TableDb). record db { columns = db.columns ++ col ∷ [] })
  pure col

unfoldable pub is_column : ℕ → ℕ → CustomColumn → Bool
is_column table_id column_id c = c.id == column_id && c.table_id == table_id

unfoldable pub found_column : Option CustomColumn → Result CustomColumn
found_column none = raised not_found
found_column (some c) = ok c

unfoldable pub get_column : ℕ → ℕ → Exec TableDb CustomColumn
unfolding is_column found_column first
get_column table_id column_id db =
    (found_column (first (is_column table_id column_id) db.columns), db)

unfoldable pub of_table : ℕ → ℕ → CustomRow → Bool
of_table app_id table_id r = r.app_id == app_id && r.table_id == table_id

-- (data - old) || {new: data -> old}, where the payload has the key
unfoldable pub renamed : String → String → CustomRow → CustomRow
unfolding lookup set_key remove_key
renamed old_name new_name r = elim (lookup old_name r.payload) [
  | none ↦ r
  | some v ↦ record r { payload = set_key new_name v (remove_key old_name r.payload) }
]

unfoldable pub rename_row_key : ℕ → ℕ → String → String → List CustomRow → List CustomRow
unfolding of_table renamed update
rename_row_key app_id table_id old_name new_name rows =
    update (of_table app_id table_id) (renamed old_name new_name) rows

unfoldable pub drop_row_key : ℕ → ℕ → String → List CustomRow → List CustomRow
unfolding of_table remove_key update
drop_row_key app_id table_id name rows =
    update (of_table app_id table_id) (λ r. record r { payload = remove_key name r.payload }) rows

-- The arguments of `update_column`: none leaves a field as it is.
pub record ColumnChange : Type 0 where
  pub name : Option String
  pub required : Option Bool
  pub default_value : Option (Option Json)
  pub position : Option ℤ

abbrev pub or_old {ℓ} : {A : Type ℓ} → Option A → A → A
or_old none old = old
or_old (some a) old = a

unfoldable pub changed : ColumnChange → CustomColumn → CustomColumn
changed change c = record c {
  name = or_old change.name c.name;
  required = or_old change.required c.required;
  default_value = or_old change.default_value c.default_value;
  position = or_old change.position c.position;
}

-- Another column of the table has the new name.
unfoldable pub name_taken : ℕ → CustomColumn → ColumnChange → List CustomColumn → Bool
unfolding in_table first
name_taken table_id col change columns =
    if or_old change.name col.name == col.name
    then false
    else is_some (
        first (λ c. in_table table_id (or_old change.name col.name) c && not (c.id == col.id))
          columns)

-- The rows, where the column got another name.
unfoldable pub rename_rows : ℕ → ℕ → CustomColumn → ColumnChange → List CustomRow → List CustomRow
unfolding rename_row_key
rename_rows app_id table_id col change rows =
    if or_old change.name col.name == col.name
    then rows
    else rename_row_key app_id table_id col.name (or_old change.name col.name) rows

unfoldable pub update_column :
    (app_id table_id column_id : ℕ) → ColumnChange → Exec TableDb CustomColumn
unfolding get_table_or_raise get_column name_taken changed rename_rows update
update_column app_id table_id column_id change = do
  table ← get_table_or_raise app_id table_id
  col ← get_column table_id column_id
  columns ← gets (λ (db : TableDb). db.columns)
  raise_if (name_taken table_id col change columns) column_exists
  modify (λ (db : TableDb). record db {
    columns = update (λ c. c.id == col.id) (changed change) db.columns;
    rows = rename_rows app_id table_id col change db.rows;
  })
  pure (changed change col)

unfoldable pub delete_column : (app_id table_id column_id : ℕ) → Exec TableDb (Unit {0})
unfolding get_table_or_raise get_column drop_row_key delete
delete_column app_id table_id column_id = do
  table ← get_table_or_raise app_id table_id
  col ← get_column table_id column_id
  modify (λ (db : TableDb). record db {
    columns = delete (λ c. c.id == col.id) db.columns;
    rows = drop_row_key app_id table_id col.name db.rows;
  })
