-- ===== src/Tests/Tables.antt =====
-- Custom tables at concrete inputs: text stands for the number of its letters.
use Prim.Native.Char.{code}
use ezauth.Prelude.{
  ℕ, Bool, ◌+◌, ◌*◌, String, true, false, Option, none, some, List, [], ◌∷◌, ◌==◌, ==_iff, nat_eq,
  string_eq, ltb, if◌then◌else◌, length, select, order_by, row_count, ◌≡◌, ◌≤◌, refl, arith,
}
use ezauth.Prelude.Int.{ℤ, pos, negsuc, ltb_ℤ}
use ezauth.Prelude.Paging.{All-order_by, All-select_kept}
use ezauth.Tables.Rows.{insert_row, update_row, delete_row}
use ezauth.Json.{
  Json, null, bool, int, float, str, arr, obj, field, end, nil, cons, get_field, Codec,
}
use ezauth.Tables.{
  column_type, column_named, ColumnType, CustomColumn, CustomRow, Payload, TableDb, Lib,
}
use ezauth.Tables.Filter.{
  Bound, numeric, double, boolean, instant, text, Op, Expr, extract, compare, Clause, all_of,
  any_of, more, empty, compile_filter, coerce_bound_value, op_named, apply_op, max_filter_depth,
  max_filter_clauses,
}
use ezauth.Tables.Selects.{Sql}
use ezauth.Tables.Query.{RowQuery}
use ezauth.Tables.Columns.{load_columns}
use ezauth.Tables.Conforms.{DefaultsFit}
use ezauth.Tables.Types.{fits, has_known_type, has_type}
use ezauth.Tables.Steps.{
  Sound, inserted, updated, deleted, RowCalls, nothing, and_call, RowCalls-Sound,
}
use ezauth.Tables.Bounds.{conditions, nesting, compile_filter_bounds}
use ezauth.Tests.Listing.{unary, letters, parts, glue}

-- A scalar as a letter for its kind and its text.
unfoldable tag : Json → String
unfolding unary
tag null = "n"
tag (bool true) = "t"
tag (bool false) = "f"
tag (int (pos n)) = String.◌∷◌ "p" (unary n)
tag (int (negsuc n)) = String.◌∷◌ "m" (unary n)
tag (float x) = String.◌∷◌ "d" (unary x)
tag (str s) = String.◌∷◌ "s" s
tag v = ""

unfoldable untag : String → Json
unfolding letters
untag String.[] = null
untag (String.◌∷◌ c s) =
    if code c == b's'
    then str s
    else if code c == b't'
    then bool true
    else if code c == b'f'
    then bool false
    else if code c == b'p'
    then int (pos (letters s))
    else if code c == b'm'
    then int (negsuc (letters s))
    else if code c == b'd'
    then float (letters s)
    else null

unfoldable join : Json → String
unfolding glue tag
join (obj (field a v (field b (str u) end))) = glue u (String.◌∷◌ "|" (tag v))
join v = ""

unfoldable codec : Codec
unfolding join parts unary letters untag
codec = record {
  encode = join;
  decode = λ s. let (u, k) = parts s in some (obj (field "v" (untag k) (field "id" (str u) end)));
  str_uuid = unary;
  uuid_of = λ v. elim v [ str u ↦ some (letters u) | _ ↦ none ];
}

abbrev decimal : ℤ → ℕ
decimal (pos n) = 2 * n
decimal (negsuc n) = 2 * n + 1

abbrev natural : ℤ → Option ℕ
natural (pos n) = some n
natural (negsuc n) = none

unfoldable pub lib : Lib
unfolding codec letters unary
lib = record {
  codec = codec;
  float_of_int = natural;
  integer_of_float = λ x. some (pos x);
  decimal_of_int = decimal;
  decimal_of_text = λ s. none;
  float_of_text = λ s. none;
  strip_lower = λ s. s;
  fromisoformat = λ s. some (letters s);
  isoformat = unary;
  dumps = λ v. "";
  dumped_size = λ p. length p;
  pg_column_size = λ p. length p;
}

abbrev rank : Bound → ℕ
rank (numeric n) = n
rank (double x) = x
rank (boolean true) = 1
rank (boolean false) = 0
rank (instant t) = t
rank (text s) = letters s

abbrev cast : Option ColumnType → Json → Option Bound
cast (some ColumnType.text) (str s) = some (text s)
cast (some ColumnType.int) (int n) = some (numeric (decimal n))
cast (some ColumnType.float) (float x) = some (double x)
cast (some ColumnType.bool) (bool b) = some (boolean b)
cast (some ColumnType.timestamptz) (str s) = some (instant (letters s))
cast type v = none

abbrev no_cast : Option Bound → Bool
no_cast none = true
no_cast (some b) = false

unfoldable pub sql : Sql
unfolding nat_eq
sql = record {
  cast = cast;
  cast_fails = λ type v. no_cast (cast type v);
  less = λ a b. ltb (rank a) (rank b);
  same = λ a b. rank a == rank b;
}

abbrev name_column : CustomColumn
name_column = record {
  id = 1;
  app_id = 1;
  table_id = 5;
  name = "name";
  type = "text";
  required = true;
  default_value = none;
  position = pos 0;
}

abbrev age_column : CustomColumn
age_column = record name_column {
  id = 2;
  name = "age";
  type = "int";
  required = false;
  position = pos 1;
}

abbrev pub row : ℕ → Payload → CustomRow
row id p = record {
  id = id;
  app_id = 1;
  table_id = 5;
  user_id = none;
  payload = p;
  created_at = id;
  updated_at = id;
}

abbrev pub people : TableDb
people = record {
  tables = record { id = 5; app_id = 1; name = "people"; created_at = 0 } ∷ [];
  columns = name_column ∷ age_column ∷ [];
  rows =
      row 31 (("name", str "Al") ∷ ("age", int (pos 30)) ∷ [])
      ∷ row 32 (("name", str "Barbara") ∷ ("age", int (pos 40)) ∷ [])
      ∷ row 33 (("name", null) ∷ ("age", int (pos 50)) ∷ [])
      ∷ row 34 (("name", str "Bob") ∷ [])
      ∷ [];
  cache = λ k. none;
}

-- {"field": "age", "op": "gte", "value": 30}
abbrev adults : Json
adults = obj (field "field" (str "age") (field "op" (str "gte") (field "value" (int (pos 30)) end)))

-- {"and": [adults, {"or": [adults]}]}
abbrev nested : Json
nested =
    obj (
      field "and" (arr (cons adults (cons (obj (field "or" (arr (cons adults nil)) end)) nil))) end)

abbrev adult : Clause
adult = compare Op.gte (extract "age" (some ColumnType.int)) (numeric 60)

-- What that compiles to.
abbrev twice : Clause
twice = all_of (more adult (more (any_of (more adult empty)) empty))

abbrev sorted_by : Expr
sorted_by = extract "name" (some ColumnType.text)

abbrev by_name : RowQuery
by_name = record {
  user_id = none;
  filter_spec = some adults;
  sort_field = some "name";
  desc = true;
  limit = 2;
}

no_default :
    (columns : List CustomColumn) (c : CustomColumn) (v : Json)
    → c.default_value ≡ none
    → c.default_value ≡ some v
    → fits lib (column_named c.name columns) v ≡ true
no_default columns c v h h' = absurd (ground arith)

people-DefaultsFit : (t : ℕ) → DefaultsFit lib (load_columns t people)
unfolding load_columns
people-DefaultsFit t =
    let P = λ (c : CustomColumn).
      (v : Json)
      → c.default_value ≡ some v
      → fits lib (column_named c.name (load_columns t people)) v ≡ true in
    let before = λ (a b : CustomColumn). ltb_ℤ a.position b.position in
    let here = λ (c : CustomColumn). c.table_id == t in
    All-order_by before P (select here people.columns) (
      All-select_kept before P here people.columns (
        (λ v h. no_default (load_columns t people) name_column v refl h),
        ((λ v h. no_default (load_columns t people) age_column v refl h), tt),
      ))

people-Sound : Sound lib people
unfolding load_columns select order_by row_count nat_eq string_eq fits has_known_type has_type
    column_type column_named
people-Sound = record {
  conform = ((refl, (refl, tt)), ((refl, (refl, tt)), ((refl, (refl, tt)), ((refl, tt), tt))));
  defaults = people-DefaultsFit;
  primary = λ i. ground (arith, ==_iff 31 i, ==_iff 32 i, ==_iff 33 i, ==_iff 34 i);
}

abbrev pub carol : Payload
carol = ("name", str "Carol") ∷ []

abbrev after_insert : TableDb
after_insert = (insert_row lib 35 9 1 5 carol none 1_000 people).1

abbrev after_update : TableDb
after_update = (update_row lib 10 1 5 33 carol none 1_000 after_insert).1

-- Carol is inserted, the row without a name gets hers, and a row of another table is asked for.
calls : RowCalls lib people (delete_row lib 1 6 31 none after_update).1
unfolding row_count nat_eq
calls =
    and_call after_update (delete_row lib 1 6 31 none after_update).1
      (and_call after_insert after_update
        (and_call people after_insert nothing (inserted 35 9 1 5 carol none 1_000 refl))
        (updated 10 1 5 33 carol none 1_000))
      (deleted 1 6 31 none)

RowCalls-Sound_example : Sound lib (delete_row lib 1 6 31 none after_update).1
RowCalls-Sound_example =
    RowCalls-Sound lib people (delete_row lib 1 6 31 none after_update).1 calls people-Sound

compile_filter_bounds_example :
    (conditions twice ≤ max_filter_clauses)
    × (nesting twice ≤ max_filter_depth)
    × (2 ≡ conditions twice)
unfolding compile_filter get_field string_eq column_type column_named coerce_bound_value op_named
    apply_op lib
compile_filter_bounds_example =
    compile_filter_bounds lib (name_column ∷ age_column ∷ []) nested twice 2 refl
