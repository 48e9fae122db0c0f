-- ===== src/Tables/Stored.antt =====
-- Stored values that can be bound again, in src/ezauth/services/tables.py.
use ezauth.Prelude.{
  ℕ, nat_eq, String, Bool, true, false, Option, none, some, string_eq, ◌≡◌, refl, arith,
}
use ezauth.Prelude.Int.{ℤ}
use ezauth.Json.{Json, null, bool, int, float, str, arr, obj}
use ezauth.Outcome.{ok, invalid_cursor}
use ezauth.Tables.{ColumnType, Lib}
use ezauth.Tables.Filter.{numeric, double, boolean, text, coerce_bound_value}
use ezauth.Tables.Selects.{Sql, cast_field}
use ezauth.Tables.Types.{has_type, has_known_type}

-- The casts of JSON texts, numbers and Booleans in PostgreSQL give what Python binds, and an instant is read
-- back from its ISO format. Nothing is assumed of the cast to a timestamp.
pub record Casts (lib : Lib) (sql : Sql) : Type 0 where
  pub of_text : (s : String) → sql.cast (some ColumnType.text) (str s) ≡ some (text s)
  pub of_int :
      (n : ℤ) → sql.cast (some ColumnType.int) (int n) ≡ some (numeric (lib.decimal_of_int n))
  pub of_float : (x : ℕ) → sql.cast (some ColumnType.float) (float x) ≡ some (double x)
  pub of_bool : (b : Bool) → sql.cast (some ColumnType.bool) (bool b) ≡ some (boolean b)
  pub read_back : (t : ℕ) → lib.fromisoformat (lib.isoformat t) ≡ some t

abbrev pub comparable : Option ColumnType → Bool
comparable (some ColumnType.timestamptz) = false
comparable (some ColumnType.json) = false
comparable type = true

abbrev pub scalar : Json → Bool
scalar (arr vs) = false
scalar (obj fs) = false
scalar v = true

module _ (lib : Lib) (sql : Sql) (casts : Casts lib sql) where
  pub bound_stored :
      (type : Option ColumnType) (v : Json)
      → has_known_type lib type v ≡ true
      → comparable type ≡ true
      → coerce_bound_value lib invalid_cursor v type ≡ ok (cast_field sql type (some v))
  unfolding has_known_type has_type coerce_bound_value cast_field
  bound_stored (some ColumnType.text) null h c = refl
  bound_stored (some ColumnType.text) (bool b) h c = ground arith
  bound_stored (some ColumnType.text) (int n) h c = ground arith
  bound_stored (some ColumnType.text) (float x) h c = ground arith
  bound_stored (some ColumnType.text) (str s) h c = rw (casts.of_text s) refl
  bound_stored (some ColumnType.text) (arr vs) h c = ground arith
  bound_stored (some ColumnType.text) (obj fs) h c = ground arith
  bound_stored (some ColumnType.int) null h c = refl
  bound_stored (some ColumnType.int) (bool b) h c = ground arith
  bound_stored (some ColumnType.int) (int n) h c = rw (casts.of_int n) refl
  bound_stored (some ColumnType.int) (float x) h c = ground arith
  bound_stored (some ColumnType.int) (str s) h c = ground arith
  bound_stored (some ColumnType.int) (arr vs) h c = ground arith
  bound_stored (some ColumnType.int) (obj fs) h c = ground arith
  bound_stored (some ColumnType.float) null h c = refl
  bound_stored (some ColumnType.float) (bool b) h c = ground arith
  bound_stored (some ColumnType.float) (int n) h c = ground arith
  bound_stored (some ColumnType.float) (float x) h c = rw (casts.of_float x) refl
  bound_stored (some ColumnType.float) (str s) h c = ground arith
  bound_stored (some ColumnType.float) (arr vs) h c = ground arith
  bound_stored (some ColumnType.float) (obj fs) h c = ground arith
  bound_stored (some ColumnType.bool) null h c = refl
  bound_stored (some ColumnType.bool) (bool b) h c = rw (casts.of_bool b) refl
  bound_stored (some ColumnType.bool) (int n) h c = ground arith
  bound_stored (some ColumnType.bool) (float x) h c = ground arith
  bound_stored (some ColumnType.bool) (str s) h c = ground arith
  bound_stored (some ColumnType.bool) (arr vs) h c = ground arith
  bound_stored (some ColumnType.bool) (obj fs) h c = ground arith
  bound_stored (some ColumnType.timestamptz) v h c = ground arith
  bound_stored (some ColumnType.json) v h c = ground arith
  bound_stored none null h c = refl
  bound_stored none (bool b) h c = ground arith
  bound_stored none (int n) h c = ground arith
  bound_stored none (float x) h c = ground arith
  bound_stored none (str s) h c = ground arith
  bound_stored none (arr vs) h c = ground arith
  bound_stored none (obj fs) h c = ground arith

  pub stored_scalar :
      (type : Option ColumnType) (v : Json)
      → has_known_type lib type v ≡ true
      → comparable type ≡ true
      → scalar v ≡ true
  unfolding has_known_type has_type
  stored_scalar type null h c = refl
  stored_scalar type (bool b) h c = refl
  stored_scalar type (int n) h c = refl
  stored_scalar type (float x) h c = refl
  stored_scalar type (str s) h c = refl
  stored_scalar none (arr vs) h c = ground arith
  stored_scalar (some ColumnType.text) (arr vs) h c = ground arith
  stored_scalar (some ColumnType.int) (arr vs) h c = ground arith
  stored_scalar (some ColumnType.float) (arr vs) h c = ground arith
  stored_scalar (some ColumnType.bool) (arr vs) h c = ground arith
  stored_scalar (some ColumnType.timestamptz) (arr vs) h c = ground arith
  stored_scalar (some ColumnType.json) (arr vs) h c = ground arith
  stored_scalar none (obj fs) h c = ground arith
  stored_scalar (some ColumnType.text) (obj fs) h c = ground arith
  stored_scalar (some ColumnType.int) (obj fs) h c = ground arith
  stored_scalar (some ColumnType.float) (obj fs) h c = ground arith
  stored_scalar (some ColumnType.bool) (obj fs) h c = ground arith
  stored_scalar (some ColumnType.timestamptz) (obj fs) h c = ground arith
  stored_scalar (some ColumnType.json) (obj fs) h c = ground arith
