-- ===== src/Tables/Selects.antt =====
-- The rows that a compiled filter of src/ezauth/services/tables.py selects. How the database casts a
-- JSON value and compares two values is a parameter.
use ezauth.Prelude.{
  Bool, true, false, not, ◌&&◌, ◌||◌, Option, none, some, string_eq, nat_eq, option_eq,
}
use ezauth.Json.{Json, null}
use ezauth.Tables.{ColumnType, CustomRow, lookup}
use ezauth.Tables.Filter.{
  Expr, created_at, updated_at, extract, Bound, instant, Op, eq, neq, gt, gte, lt, lte, Clause,
  is_null, is_not_null, compare, all_of, any_of, Clauses, empty, more,
}

pub record Sql : Type 0 where
  -- the text of a JSON value, cast by the type of its column; none for NULL
  pub cast : Option ColumnType → Json → Option Bound
  -- whether the cast of that text raises
  pub cast_fails : Option ColumnType → Json → Bool
  pub less : Bound → Bound → Bool
  pub same : Bound → Bound → Bool

-- `data ->> field` is NULL for a missing key and for null.
unfoldable pub cast_field : Sql → Option ColumnType → Option Json → Option Bound
cast_field sql type none = none
cast_field sql type (some null) = none
cast_field sql type (some v) = sql.cast type v

unfoldable pub value_of : Sql → Expr → CustomRow → Option Bound
unfolding cast_field lookup
value_of sql created_at r = some (instant r.created_at)
value_of sql updated_at r = some (instant r.updated_at)
value_of sql (extract name type) r = cast_field sql type (lookup name r.payload)

unfoldable pub compare_values : Sql → Op → Bound → Bound → Bool
compare_values sql eq a b = sql.same a b
compare_values sql neq a b = not (sql.same a b)
compare_values sql gt a b = sql.less b a
compare_values sql gte a b = sql.less b a || sql.same a b
compare_values sql lt a b = sql.less a b
compare_values sql lte a b = sql.less a b || sql.same a b

-- A comparison with NULL selects no row.
unfoldable pub compare_null : Sql → Op → Option Bound → Bound → Bool
unfolding compare_values
compare_null sql op none b = false
compare_null sql op (some a) b = compare_values sql op a b

abbrev pub no_value : Option Bound → Bool
no_value none = true
no_value (some v) = false

-- The rows that a clause selects.
unfoldable mutual
  unfolding value_of compare_null

  pub selects : Sql → Clause → CustomRow → Bool
  selects sql (is_null e) r = no_value (value_of sql e r)
  selects sql (is_not_null e) r = not (no_value (value_of sql e r))
  selects sql (compare op e b) r = compare_null sql op (value_of sql e r) b
  selects sql (all_of cs) r = selects_all sql cs r
  selects sql (any_of cs) r = selects_any sql cs r

  pub selects_all : Sql → Clauses → CustomRow → Bool
  selects_all sql empty r = true
  selects_all sql (more c cs) r = selects sql c r && selects_all sql cs r

  pub selects_any : Sql → Clauses → CustomRow → Bool
  selects_any sql empty r = false
  selects_any sql (more c cs) r = selects sql c r || selects_any sql cs r

-- The casts that a query makes of a row raise where any of them does.
unfoldable pub value_fails : Sql → Expr → CustomRow → Bool
unfolding lookup
value_fails sql created_at r = false
value_fails sql updated_at r = false
value_fails sql (extract name type) r = elim (lookup name r.payload) [
  | none ↦ false
  | some null ↦ false
  | some v ↦ sql.cast_fails type v
]

unfoldable mutual
  unfolding value_fails

  pub clause_fails : Sql → Clause → CustomRow → Bool
  clause_fails sql (is_null e) r = value_fails sql e r
  clause_fails sql (is_not_null e) r = value_fails sql e r
  clause_fails sql (compare op e b) r = value_fails sql e r
  clause_fails sql (all_of cs) r = clauses_fail sql cs r
  clause_fails sql (any_of cs) r = clauses_fail sql cs r

  pub clauses_fail : Sql → Clauses → CustomRow → Bool
  clauses_fail sql empty r = false
  clauses_fail sql (more c cs) r = clause_fails sql c r || clauses_fail sql cs r
