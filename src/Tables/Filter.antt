-- ===== src/Tables/Filter.antt =====
-- Filters of src/ezauth/services/tables.py: a JSON tree is compiled to a clause of the query. The
-- expressions and clauses are those that the code builds with SQLAlchemy.
use ezauth.Prelude.{
  ℕ, zero, suc, ◌+◌, String, Bool, true, false, Option, none, some, List, [], ◌∷◌, ◌==◌, string_eq,
  ltb, if◌then◌else◌,
}
use ezauth.Json.{
  Json, null, bool, int, float, str, arr, obj, Elems, nil, cons, Fields, get_field, get_or_null,
}
use ezauth.Outcome.{Result, ok, raised, invalid_filter, type_error, Error}
use ezauth.Json
use ezauth.Tables.{ColumnType, CustomColumn, Lib, column_type, column_named}

-- A column of the row table, or a field of the payload, cast by the type of its column.
pub data Expr : Type 0 where
  created_at updated_at : Expr
  extract : String → Option ColumnType → Expr

-- A value as it is bound.
pub data Bound : Type 0 where
  numeric : ℕ → Bound
  double : ℕ → Bound
  boolean : Bool → Bound
  instant : ℕ → Bound
  text : String → Bound

pub data Op : Type 0 where
  eq neq gt gte lt lte : Op

mutual
  pub data Clause : Type 0 where
    is_null is_not_null : Expr → Clause
    compare : Op → Expr → Bound → Clause
    all_of any_of : Clauses → Clause

  pub data Clauses : Type 0 where
    empty : Clauses
    more : Clause → Clauses → Clauses

abbrev pub max_filter_depth : ℕ
max_filter_depth = 8

abbrev pub max_filter_clauses : ℕ
max_filter_clauses = 64

-- A field name that is no text is not among the columns; a list or an object cannot be looked up.
unfoldable pub resolve_field : Json → List CustomColumn → Result (Expr × Option ColumnType)
unfolding column_type column_named
resolve_field (str name) columns =
    if name == "created_at"
    then ok (created_at, some ColumnType.timestamptz)
    else if name == "updated_at"
    then ok (updated_at, some ColumnType.timestamptz)
    else elim (column_named name columns) [
      | none ↦ raised invalid_filter
      | some c ↦ ok (extract name (column_type c.type), column_type c.type)
    ]
resolve_field (arr vs) columns = raised type_error
resolve_field (obj fs) columns = raised type_error
resolve_field v columns = raised invalid_filter

abbrev pub bound_or {ℓ} : {A : Type ℓ} → Error → (A → Bound) → Option A → Result (Option Bound)
bound_or code bind none = raised code
bound_or code bind (some a) = ok (some (bind a))

-- "true" and "false", in any case and with blanks around
unfoldable pub boolean_of : Lib → String → Option Bool
boolean_of lib s =
    if lib.strip_lower s == "true"
    then some true
    else if lib.strip_lower s == "false"
    then some false
    else none

-- By the type of the column; a type that is not known is treated as JSON is. Null binds as no value.
unfoldable pub coerce_bound_value : Lib → Error → Json → Option ColumnType → Result (Option Bound)
unfolding boolean_of
coerce_bound_value lib code null type = ok none
coerce_bound_value lib code (int n) (some ColumnType.int) =
    ok (some (numeric (lib.decimal_of_int n)))
coerce_bound_value lib code (float x) (some ColumnType.int) =
    bound_or code (λ n. numeric (lib.decimal_of_int n)) (lib.integer_of_float x)
coerce_bound_value lib code (str s) (some ColumnType.int) =
    bound_or code numeric (lib.decimal_of_text s)
coerce_bound_value lib code v (some ColumnType.int) = raised code
coerce_bound_value lib code (int n) (some ColumnType.float) = elim (lib.float_of_int n) [
  | none ↦ raised Error.overflow_error
  | some x ↦ ok (some (double x))
]
coerce_bound_value lib code (float x) (some ColumnType.float) = ok (some (double x))
coerce_bound_value lib code (str s) (some ColumnType.float) =
    bound_or code double (lib.float_of_text s)
coerce_bound_value lib code v (some ColumnType.float) = raised code
coerce_bound_value lib code (bool b) (some ColumnType.bool) = ok (some (boolean b))
coerce_bound_value lib code (str s) (some ColumnType.bool) =
    bound_or code boolean (boolean_of lib s)
coerce_bound_value lib code v (some ColumnType.bool) = raised code
coerce_bound_value lib code (str s) (some ColumnType.timestamptz) =
    bound_or code instant (lib.fromisoformat s)
coerce_bound_value lib code v (some ColumnType.timestamptz) = raised code
coerce_bound_value lib code (str s) (some ColumnType.text) = ok (some (text s))
coerce_bound_value lib code v (some ColumnType.text) = raised code
coerce_bound_value lib code (str s) type = ok (some (text s))
coerce_bound_value lib code v type = ok (some (text (lib.dumps v)))

unfoldable pub op_named : String → Option Op
op_named s =
    if s == "eq"
    then some eq
    else if s == "neq"
    then some neq
    else if s == "gt"
    then some gt
    else if s == "gte"
    then some gte
    else if s == "lt"
    then some lt
    else if s == "lte"
    then some lte
    else none

unfoldable pub apply_op : Expr → String → Option Bound → Result Clause
unfolding op_named
apply_op e op none =
    if op == "eq"
    then ok (is_null e)
    else if op == "neq"
    then ok (is_not_null e)
    else raised invalid_filter
apply_op e op (some v) = elim (op_named op) [
  | none ↦ raised invalid_filter
  | some o ↦ ok (compare o e v)
]

module _ (lib : Lib) (columns : List CustomColumn) where
  -- The operator and the value of a condition, on the resolved field.
  unfoldable pub compile_op :
      Json → Json → ℕ → Result (Expr × Option ColumnType) → Result (Clause × ℕ)
  unfolding coerce_bound_value apply_op
  compile_op (str op) value n (ok (e, type)) =
      elim (coerce_bound_value lib invalid_filter value type) [
        | raised err ↦ raised err
        | ok v ↦ elim (apply_op e op v) [ raised err ↦ raised err | ok c ↦ ok (c, n) ]
      ]
  compile_op (str op) value n (raised err) = raised err
  compile_op op value n e = raised invalid_filter

  -- A condition; `n` conditions were counted before.
  unfoldable pub compile_condition : Option Json → Fields → ℕ → Result (Clause × ℕ)
  unfolding compile_op resolve_field get_or_null
  compile_condition none fs n = raised invalid_filter
  compile_condition (some name) fs n =
      if ltb max_filter_clauses (n + 1)
      then raised invalid_filter
      else compile_op (get_or_null "op" fs) (get_or_null "value" fs) (n + 1)
          (resolve_field name columns)

  -- The children of a group, with the count handed on from each to the next.
  unfoldable pub compile_children :
      (Json → ℕ → Result (Clause × ℕ)) → List Json → ℕ → Result (Clauses × ℕ)
  compile_children call [] n = ok (empty, n)
  compile_children call (v ∷ vs) n = elim (call v n) [
    | raised err ↦ raised err
    | ok (c, n') ↦ elim (compile_children call vs n') [
      | raised err ↦ raised err
      | ok (cs, n'') ↦ ok (more c cs, n'')
    ]
  ]

  unfoldable pub compile_group :
      (Json → ℕ → Result (Clause × ℕ)) → (Clauses → Clause) → Json → ℕ → Result (Clause × ℕ)
  unfolding compile_children
  compile_group call combine (arr (cons v vs)) n =
      elim (compile_children call (v ∷ Json.elems vs) n) [
        | raised err ↦ raised err
        | ok (cs, n') ↦ ok (combine cs, n')
      ]
  compile_group call combine v n = raised invalid_filter

  -- `for key, combine in (("and", and_), ("or", or_))`: the first group that is there.
  unfoldable pub compile_groups :
      (Json → ℕ → Result (Clause × ℕ)) → Json → Json → Fields → ℕ → Result (Clause × ℕ)
  unfolding compile_group compile_condition get_field
  compile_groups call null null fs n = compile_condition (get_field "field" fs) fs n
  compile_groups call null children fs n = compile_group call any_of children n
  compile_groups call children other fs n = compile_group call all_of children n

  -- `levels` is how many levels of nesting are left: none where depth > MAX_FILTER_DEPTH.
  unfoldable pub compile_filter : ℕ → Json → ℕ → Result (Clause × ℕ)
  unfolding compile_groups get_or_null
  compile_filter zero spec n = raised invalid_filter
  compile_filter (suc levels) (obj fs) n =
      compile_groups (compile_filter levels) (get_or_null "and" fs) (get_or_null "or" fs) fs n
  compile_filter (suc levels) spec n = raised invalid_filter
