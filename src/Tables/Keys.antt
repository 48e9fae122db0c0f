-- ===== src/Tables/Keys.antt =====
-- The values in the cursors of src/ezauth/services/tables.py.
use ezauth.Prelude.{
  ℕ, nat_eq, String, Bool, true, false, not, ◌&&◌, Option, none, some, List, [], ◌∷◌, ◌==◌, ==_iff,
  string_eq, ◌≡◌, refl, sym, subst, arith, inl, inr, Bool-cases, Option-cases,
}
use ezauth.Json.{Json, null, str}
use ezauth.Outcome.{ok, invalid_cursor}
use ezauth.Tables.{
  ColumnType, CustomColumn, CustomRow, Payload, Lib, column_type, column_named, lookup,
}
use ezauth.Tables.Filter.{Expr, created_at, updated_at, extract, instant, coerce_bound_value}
use ezauth.Tables.Selects.{Sql, cast_field, value_of}
use ezauth.Tables.Query.{cursor_value, resolve_sort, resolve_column}
use ezauth.Tables.Conforms.{Conforms}
use ezauth.Tables.Types.{fits, has_known_type}
use ezauth.Tables.Stored.{Casts, comparable, scalar, bound_stored, stored_scalar}

abbrev pub sort_column : String → Option CustomColumn → Bool
sort_column name none = true
sort_column name (some c) =
    not (name == "created_at") && not (name == "updated_at") && comparable (column_type c.type)

-- Sorting is by a timestamp of the rows, or by a column of no JSON, named like no timestamp.
abbrev pub sortable : Option String → List CustomColumn → Bool
sortable none columns = true
sortable (some name) columns = sort_column name (column_named name columns)

module _ (lib : Lib) (sql : Sql) (casts : Casts lib sql) where
  Conforms-lookup :
      (columns : List CustomColumn) (p : Payload) (name : String) (v : Json)
      → Conforms lib columns p
      → lookup name p ≡ some v
      → fits lib (column_named name columns) v ≡ true
  unfolding lookup
  Conforms-lookup columns [] name v h e = absurd (ground arith)
  Conforms-lookup columns ((k, w) ∷ p) name v (here, there) e = elim (Bool-cases (k == name)) [
    | inl same ↦
        let is : w ≡ v = ground (arith, same) in
        subst (λ x. fits lib (column_named x columns) v ≡ true) ((==_iff k name).0 same)
          (subst (λ x. fits lib (column_named k columns) x ≡ true) is here)
    | inr other ↦ Conforms-lookup columns p name v there (ground (arith, other))
  ]

  instant_read :
      (t : ℕ)
      → coerce_bound_value lib invalid_cursor (str (lib.isoformat t)) (some ColumnType.timestamptz)
        ≡ ok (some (instant t))
  unfolding coerce_bound_value
  instant_read t = rw (casts.read_back t) refl

  not_updated : (name : String) → (name == "created_at") ≡ true → (name == "updated_at") ≡ false
  unfolding string_eq
  not_updated name h =
      subst (λ x. (x == "updated_at") ≡ false) (sym ((==_iff name "created_at").0 h)) refl

  module _ (sort_field : Option String) (columns : List CustomColumn) (r : CustomRow) where
    -- A sort is read back: the value in a row's cursor, by the type, is the value of the expression.
    abbrev Read : Expr × Option ColumnType → Type 0
    Read x =
        coerce_bound_value lib invalid_cursor (cursor_value lib sort_field columns r) x.1
        ≡ ok (value_of sql x.0 r)

  stored_read :
      (type : Option ColumnType) (given : Option Json)
      → ((v : Json) → given ≡ some v → has_known_type lib type v ≡ true)
      → comparable type ≡ true
      → coerce_bound_value lib invalid_cursor (elim given [ none ↦ null | some v ↦ v ]) type
        ≡ ok (cast_field sql type given)
  unfolding cast_field coerce_bound_value
  stored_read type none h c = refl
  stored_read type (some v) h c = bound_stored lib sql casts type v (h v refl) c

  -- What a cursor holds of a row is read back as the value that the row is sorted by.
  pub cursor_value_read :
      (sort_field : Option String) (columns : List CustomColumn) (r : CustomRow) (e : Expr)
      (type : Option ColumnType)
      → sortable sort_field columns ≡ true
      → resolve_sort sort_field columns ≡ ok (e, type)
      → Conforms lib columns r.payload
      → Read sort_field columns r (e, type)
  unfolding cursor_value resolve_sort resolve_column value_of fits
  cursor_value_read none columns r e type s h c =
      let is : (created_at, some ColumnType.timestamptz) ≡ (e, type) = ground arith in
      subst (Read none columns r) is (instant_read r.created_at)
  cursor_value_read (some name) columns r e type s h c =
      elim (Option-cases (column_named name columns)) [
        | inl missing ↦ elim (Bool-cases (name == "created_at")) [
          | inl created ↦
              let is : (created_at, some ColumnType.timestamptz) ≡ (e, type) =
                ground (arith, missing, created) in
              subst (Read (some name) columns r) is
                (rw (cursor_value, missing, not_updated name created) (instant_read r.created_at))
          | inr other ↦ elim (Bool-cases (name == "updated_at")) [
            | inl updated ↦
                let is : (updated_at, some ColumnType.timestamptz) ≡ (e, type) =
                  ground (arith, missing, other, updated) in
                subst (Read (some name) columns r) is
                  (rw (cursor_value, missing, updated) (instant_read r.updated_at))
            | inr neither ↦ absurd (ground (arith, missing, other, neither))
          ]
        ]
        | inr (col, named) ↦
            let ok_name : sort_column name (some col) ≡ true = ground (arith, named) in
            let is : (extract name (column_type col.type), column_type col.type) ≡ (e, type) =
              ground (arith, named, ok_name) in
            subst (Read (some name) columns r) is (
              rw (cursor_value, named)
                (stored_read (column_type col.type) (lookup name r.payload)
                  (λ v is_v.
                    subst (λ x. fits lib x v ≡ true) named
                      (Conforms-lookup columns r.payload name v c is_v))
                  (ground (arith, ok_name))))
      ]

  given_scalar :
      (type : Option ColumnType) (given : Option Json)
      → ((v : Json) → given ≡ some v → has_known_type lib type v ≡ true)
      → comparable type ≡ true
      → scalar (elim given [ none ↦ null | some v ↦ v ]) ≡ true
  given_scalar type none h c = refl
  given_scalar type (some v) h c = stored_scalar lib sql casts type v (h v refl) c

  pub cursor_value-scalar :
      (sort_field : Option String) (columns : List CustomColumn) (r : CustomRow)
      → sortable sort_field columns ≡ true
      → Conforms lib columns r.payload
      → scalar (cursor_value lib sort_field columns r) ≡ true
  unfolding cursor_value fits
  cursor_value-scalar none columns r s c = refl
  cursor_value-scalar (some name) columns r s c = elim (Option-cases (column_named name columns)) [
    | inl missing ↦ elim (Bool-cases (name == "updated_at")) [
      | inl updated ↦ rw (cursor_value, missing, updated) refl
      | inr other ↦ rw (cursor_value, missing, other) refl
    ]
    | inr (col, named) ↦
        let ok_name : sort_column name (some col) ≡ true = ground (arith, named) in
        rw (cursor_value, named)
          (given_scalar (column_type col.type) (lookup name r.payload)
            (λ v is_v.
              subst (λ x. fits lib x v ≡ true) named
                (Conforms-lookup columns r.payload name v c is_v))
            (ground (arith, ok_name)))
  ]
