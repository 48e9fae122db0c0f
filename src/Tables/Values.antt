-- ===== src/Tables/Values.antt =====
-- The validation of row payloads in src/ezauth/services/tables.py.
use ezauth.Prelude.{
  String, Bool, true, false, ◌&&◌, Option, none, some, List, [], ◌∷◌, if◌then◌else◌,
}
use ezauth.Json.{Json, null, bool, int, float, str}
use ezauth.Outcome.{Result, ok, raised, validation_error, overflow_error}
use ezauth.Tables.{
  ColumnType, CustomColumn, Payload, Lib, column_type, lookup, set_key, column_named,
}

-- The tests of a value by the type of its column; `required` was tested before, for null.
unfoldable pub coerce_typed : Lib → ColumnType → Json → Result Json
coerce_typed lib ColumnType.text (str s) = ok (str s)
coerce_typed lib ColumnType.int (int n) = ok (int n)
coerce_typed lib ColumnType.float (int n) = elim (lib.float_of_int n) [
  | none ↦ raised overflow_error
  | some x ↦ ok (float x)
]
coerce_typed lib ColumnType.float (float x) = ok (float x)
coerce_typed lib ColumnType.bool (bool b) = ok (bool b)
coerce_typed lib ColumnType.timestamptz (str s) = elim (lib.fromisoformat s) [
  | none ↦ raised validation_error
  | some _ ↦ ok (str s)
]
coerce_typed lib ColumnType.json v = ok v
coerce_typed lib type v = raised validation_error

unfoldable pub coerce_known : Lib → Option ColumnType → Json → Result Json
unfolding coerce_typed
coerce_known lib none v = raised validation_error
coerce_known lib (some type) v = coerce_typed lib type v

unfoldable pub coerce_value : Lib → Json → String → Bool → Result Json
unfolding coerce_known column_type
coerce_value lib null type required = if required then raised validation_error else ok null
coerce_value lib v type required = coerce_known lib (column_type type) v

-- `validated[key] = _coerce_value(…)` for a column that was looked for.
unfoldable pub set_coerced : Lib → String → Json → Option CustomColumn → Payload → Result Payload
unfolding coerce_value
set_coerced lib key v none validated = raised validation_error
set_coerced lib key v (some col) validated = elim (coerce_value lib v col.type col.required) [
  | ok w ↦ ok (set_key key w validated)
  | raised e ↦ raised e
]

-- The loop over `data.items()`.
unfoldable pub set_all : Lib → List CustomColumn → Payload → Payload → Result Payload
unfolding set_coerced
set_all lib columns [] validated = ok validated
set_all lib columns ((key, v) ∷ items) validated =
    elim (set_coerced lib key v (column_named key columns) validated) [
      | ok validated' ↦ set_all lib columns items validated'
      | raised e ↦ raised e
    ]

-- What a column that is missing from the data contributes: its default, if it has one.
unfoldable pub default_step : CustomColumn → Option Json → Payload → Result Payload
default_step col (some v) validated = ok validated
default_step col none validated = elim col.default_value [
  | some v ↦ ok (set_key col.name v validated)
  | none ↦ if col.required then raised validation_error else ok validated
]

-- The loop over the columns.
unfoldable pub set_defaults : List CustomColumn → Payload → Payload → Result Payload
unfolding default_step
set_defaults [] items validated = ok validated
set_defaults (col ∷ cols) items validated =
    elim (default_step col (lookup col.name items) validated) [
      | ok validated' ↦ set_defaults cols items validated'
      | raised e ↦ raised e
    ]

unfoldable pub validate_row_data : Lib → Payload → List CustomColumn → Result Payload
unfolding set_defaults set_all
validate_row_data lib items columns = elim (set_defaults columns items []) [
  | ok validated ↦ set_all lib columns items validated
  | raised e ↦ raised e
]

unfoldable pub validate_row_data_partial : Lib → Payload → List CustomColumn → Result Payload
unfolding set_all
validate_row_data_partial lib items columns = set_all lib columns items []

-- `col.name not in merged_data or merged_data[col.name] is None`
unfoldable pub is_missing : Option Json → Bool
is_missing none = true
is_missing (some null) = true
is_missing (some v) = false

-- Whether every required column has a value; the code raises where one has none.
unfoldable pub validate_required_fields : Payload → List CustomColumn → Bool
unfolding is_missing lookup
validate_required_fields merged [] = true
validate_required_fields merged (col ∷ cols) =
    if col.required && is_missing (lookup col.name merged)
    then false
    else validate_required_fields merged cols
