-- ===== src/Tables.antt =====
-- src/ezauth/services/tables.py, with the rows of src/ezauth/models/custom_table.py,
-- custom_column.py and custom_row.py: what the operations on custom tables share. The payload of a
-- row is a dictionary, in the order in which its keys were set.
pub mod Values
pub mod Columns
pub mod Rows
pub mod Filter
pub mod Selects
pub mod Query
pub mod Order
pub mod Stored
pub mod Keys
pub mod Types
pub mod Conforms
pub mod Lookup
pub mod Pages
pub mod Bounds
pub mod Steps
pub mod Routes
pub mod Isolation
pub mod Visible
use ezauth.Prelude.{
  ℕ, String, Bool, ◌&&◌, Option, none, some, List, [], ◌∷◌, ◌==◌, nat_eq, string_eq, if◌then◌else◌,
}
use ezauth.Prelude.Int.{ℤ}
use ezauth.Json.{Json, null, Codec}
use ezauth.Redis.{Redis}

pub data ColumnType : Type 0 where
  text int float bool timestamptz json : ColumnType

-- The type of a column is stored as its text.
unfoldable pub column_type : String → Option ColumnType
column_type t =
    if t == "text"
    then some text
    else if t == "int"
    then some int
    else if t == "float"
    then some float
    else if t == "bool"
    then some bool
    else if t == "timestamptz"
    then some timestamptz
    else if t == "json"
    then some json
    else none

pub record CustomTable : Type 0 where
  pub id : ℕ
  pub app_id : ℕ
  pub name : String
  pub created_at : ℕ

pub record CustomColumn : Type 0 where
  pub id : ℕ
  pub app_id : ℕ
  pub table_id : ℕ
  pub name : String
  pub type : String
  pub required : Bool
  pub default_value : Option Json
  pub position : ℤ

abbrev pub Payload : Type 0
Payload = List (String × Json)

pub record CustomRow : Type 0 where
  pub id : ℕ
  pub app_id : ℕ
  pub table_id : ℕ
  pub user_id : Option ℕ
  pub payload : Payload
  pub created_at : ℕ
  pub updated_at : ℕ

pub record TableDb : Type 0 where
  pub tables : List CustomTable
  pub columns : List CustomColumn
  pub rows : List CustomRow
  pub cache : Redis ℕ

-- The parts of Python, SQLAlchemy and PostgreSQL that the services call. A Decimal, a float and an
-- instant are numbers that stand for them.
pub record Lib : Type 0 where
  pub codec : Codec
  -- float(n) of an integer, none where it raises OverflowError
  pub float_of_int : ℤ → Option ℕ
  -- int(x) of a float with x.is_integer(), none for any other float
  pub integer_of_float : ℕ → Option ℤ
  -- Decimal(n) of an integer
  pub decimal_of_int : ℤ → ℕ
  -- Decimal(text.strip()), none where it raises
  pub decimal_of_text : String → Option ℕ
  -- float(text.strip()), none where it raises
  pub float_of_text : String → Option ℕ
  -- text.strip().lower()
  pub strip_lower : String → String
  -- datetime.fromisoformat(text), none where it raises
  pub fromisoformat : String → Option ℕ
  -- t.isoformat()
  pub isoformat : ℕ → String
  -- json.dumps(v)
  pub dumps : Json → String
  -- len(json.dumps(d, separators=(",", ":"), default=str).encode())
  pub dumped_size : Payload → ℕ
  -- pg_column_size(data)
  pub pg_column_size : Payload → ℕ

-- `key in d` and `d[key]`
unfoldable pub lookup : String → Payload → Option Json
lookup key [] = none
lookup key ((k, v) ∷ d) = if k == key then some v else lookup key d

-- `d[key] = v`
unfoldable pub set_key : String → Json → Payload → Payload
set_key key v [] = (key, v) ∷ []
set_key key v ((k, w) ∷ d) = if k == key then (k, v) ∷ d else (k, w) ∷ set_key key v d

-- {**d, **e}
unfoldable pub merge : Payload → Payload → Payload
unfolding set_key
merge d [] = d
merge d ((k, v) ∷ e) = merge (set_key k v d) e

-- `data - key` of JSONB
unfoldable pub remove_key : String → Payload → Payload
remove_key key [] = []
remove_key key ((k, v) ∷ d) =
    let rest = remove_key key d in if k == key then rest else (k, v) ∷ rest

-- {c.name: c for c in columns}.get(name): the last column of the name.
unfoldable pub column_named : String → List CustomColumn → Option CustomColumn
column_named name [] = none
column_named name (c ∷ cs) = elim (column_named name cs) [
  | some d ↦ some d
  | none ↦ if c.name == name then some c else none
]
