-- ===== src/Tables/Types.antt =====
-- What src/ezauth/services/tables.py stores has the type of its column.
use ezauth.Prelude.{ℕ, String, Bool, true, false, Option, none, some, string_eq, ◌≡◌, refl, arith}
use ezauth.Json.{Json, null, bool, int, float, str, arr, obj}
use ezauth.Outcome.{ok}
use ezauth.Tables.{ColumnType, CustomColumn, Lib, column_type}
use ezauth.Tables.Values.{coerce_typed, coerce_known, coerce_value}

abbrev pub parses : Option ℕ → Bool
parses none = false
parses (some t) = true

-- Whether a stored value has the type of its column; null stands in every column.
unfoldable pub has_type : Lib → ColumnType → Json → Bool
has_type lib type null = true
has_type lib ColumnType.text (str s) = true
has_type lib ColumnType.int (int n) = true
has_type lib ColumnType.float (float x) = true
has_type lib ColumnType.bool (bool b) = true
has_type lib ColumnType.timestamptz (str s) = parses (lib.fromisoformat s)
has_type lib ColumnType.json v = true
has_type lib type v = false

unfoldable pub has_known_type : Lib → Option ColumnType → Json → Bool
unfolding has_type
has_known_type lib none null = true
has_known_type lib none v = false
has_known_type lib (some type) v = has_type lib type v

-- A key needs a column, and the value its type.
unfoldable pub fits : Lib → Option CustomColumn → Json → Bool
unfolding has_known_type column_type
fits lib none v = false
fits lib (some c) v = has_known_type lib (column_type c.type) v

module _ (lib : Lib) where
  coerce_typed-has_type :
      (type : ColumnType) (v w : Json) → coerce_typed lib type v ≡ ok w → has_type lib type w ≡ true
  unfolding coerce_typed has_type
  coerce_typed-has_type ColumnType.text null w h = ground arith
  coerce_typed-has_type ColumnType.text (bool b) w h = ground arith
  coerce_typed-has_type ColumnType.text (int n) w h = ground arith
  coerce_typed-has_type ColumnType.text (float x) w h = ground arith
  coerce_typed-has_type ColumnType.text (str s) w h = ground arith
  coerce_typed-has_type ColumnType.text (arr vs) w h = ground arith
  coerce_typed-has_type ColumnType.text (obj fs) w h = ground arith
  coerce_typed-has_type ColumnType.int null w h = ground arith
  coerce_typed-has_type ColumnType.int (bool b) w h = ground arith
  coerce_typed-has_type ColumnType.int (int n) w h = ground arith
  coerce_typed-has_type ColumnType.int (float x) w h = ground arith
  coerce_typed-has_type ColumnType.int (str s) w h = ground arith
  coerce_typed-has_type ColumnType.int (arr vs) w h = ground arith
  coerce_typed-has_type ColumnType.int (obj fs) w h = ground arith
  coerce_typed-has_type ColumnType.float null w h = ground arith
  coerce_typed-has_type ColumnType.float (bool b) w h = ground arith
  coerce_typed-has_type ColumnType.float (int n) w h = ground arith
  coerce_typed-has_type ColumnType.float (float x) w h = ground arith
  coerce_typed-has_type ColumnType.float (str s) w h = ground arith
  coerce_typed-has_type ColumnType.float (arr vs) w h = ground arith
  coerce_typed-has_type ColumnType.float (obj fs) w h = ground arith
  coerce_typed-has_type ColumnType.bool null w h = ground arith
  coerce_typed-has_type ColumnType.bool (bool b) w h = ground arith
  coerce_typed-has_type ColumnType.bool (int n) w h = ground arith
  coerce_typed-has_type ColumnType.bool (float x) w h = ground arith
  coerce_typed-has_type ColumnType.bool (str s) w h = ground arith
  coerce_typed-has_type ColumnType.bool (arr vs) w h = ground arith
  coerce_typed-has_type ColumnType.bool (obj fs) w h = ground arith
  coerce_typed-has_type ColumnType.timestamptz null w h = ground arith
  coerce_typed-has_type ColumnType.timestamptz (bool b) w h = ground arith
  coerce_typed-has_type ColumnType.timestamptz (int n) w h = ground arith
  coerce_typed-has_type ColumnType.timestamptz (float x) w h = ground arith
  coerce_typed-has_type ColumnType.timestamptz (str s) w h = ground arith
  coerce_typed-has_type ColumnType.timestamptz (arr vs) w h = ground arith
  coerce_typed-has_type ColumnType.timestamptz (obj fs) w h = ground arith
  coerce_typed-has_type ColumnType.json null w h = ground arith
  coerce_typed-has_type ColumnType.json (bool b) w h = ground arith
  coerce_typed-has_type ColumnType.json (int n) w h = ground arith
  coerce_typed-has_type ColumnType.json (float x) w h = ground arith
  coerce_typed-has_type ColumnType.json (str s) w h = ground arith
  coerce_typed-has_type ColumnType.json (arr vs) w h = ground arith
  coerce_typed-has_type ColumnType.json (obj fs) w h = ground arith

  coerce_known-has_known_type :
      (type : Option ColumnType) (v w : Json)
      → coerce_known lib type v ≡ ok w
      → has_known_type lib type w ≡ true
  unfolding coerce_known has_known_type
  coerce_known-has_known_type none v w h = ground arith
  coerce_known-has_known_type (some type) v w h = coerce_typed-has_type type v w h

  null_known : (type : Option ColumnType) → has_known_type lib type null ≡ true
  unfolding has_known_type has_type
  null_known none = refl
  null_known (some type) = refl

  pub coerce_value-has_known_type :
      (v w : Json) (type : String) (required : Bool)
      → coerce_value lib v type required ≡ ok w
      → has_known_type lib (column_type type) w ≡ true
  unfolding coerce_value
  coerce_value-has_known_type null w type required h = ground (arith, null_known (column_type type))
  coerce_value-has_known_type (bool b) w type required h =
      coerce_known-has_known_type (column_type type) (bool b) w h
  coerce_value-has_known_type (int b) w type required h =
      coerce_known-has_known_type (column_type type) (int b) w h
  coerce_value-has_known_type (float b) w type required h =
      coerce_known-has_known_type (column_type type) (float b) w h
  coerce_value-has_known_type (str b) w type required h =
      coerce_known-has_known_type (column_type type) (str b) w h
  coerce_value-has_known_type (arr b) w type required h =
      coerce_known-has_known_type (column_type type) (arr b) w h
  coerce_value-has_known_type (obj b) w type required h =
      coerce_known-has_known_type (column_type type) (obj b) w h
