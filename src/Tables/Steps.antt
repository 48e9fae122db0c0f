-- ===== src/Tables/Steps.antt =====
-- What the operations on rows in src/ezauth/services/tables.py keep of the stored payloads.
use ezauth.Prelude.{
  ℕ, ◌≤◌, true, Option, some, [], ◌∷◌, ◌==◌, nat_eq, ==_iff, All, All-append, All-update, All-first,
  All-first_only, first_holds, update, leb, row_count, first, ◌≡◌, refl, sym, ap, subst, ◌∙◌, arith,
  inl, inr, Bool-cases,
}
use ezauth.Prelude.Int.{pos, ◌-ℤ◌}
use ezauth.Outcome.{ok, Result-cases}
use ezauth.Tables.{CustomRow, Payload, TableDb, Lib, merge}
use ezauth.Tables.Values.{validate_row_data, validate_row_data_partial, validate_required_fields}
use ezauth.Tables.Columns.{get_table_or_raise, load_columns, found_table, is_table, of_table}
use ezauth.Tables.Rows.{
  insert_row, update_row, delete_row, get_row, found_row, is_row, max_rows_per_table,
  reserve_storage, invalidate_storage_cache,
}
use ezauth.Tables.Conforms.{Conforms, DefaultsFit, validate_row_data-Conforms, merged-Conforms}
use ezauth.Tables.Lookup.{
  one_more, row_count-delete_le, row_count-update_same, found_row-some, is_row_ids, All-delete,
  All-both,
}

-- The rows conform to the columns of their tables, the defaults of the columns would fit, and ids
-- are a primary key.
pub record Sound (lib : Lib) (db : TableDb) : Type 0 where
  pub conform : All (λ (r : CustomRow). Conforms lib (load_columns r.table_id db) r.payload) db.rows
  pub defaults : (table_id : ℕ) → DefaultsFit lib (load_columns table_id db)
  pub primary : (i : ℕ) → row_count (λ (r : CustomRow). r.id == i) db.rows ≤ 1

module _ (lib : Lib) where
  insert_row-Sound :
      (id now app_id table_id : ℕ) (items : Payload) (user_id : Option ℕ) (limit : ℕ) (db : TableDb)
      → row_count (λ (r : CustomRow). r.id == id) db.rows ≡ 0
      → Sound lib db
      → Sound lib (insert_row lib id now app_id table_id items user_id limit db).1
  unfolding insert_row get_table_or_raise load_columns invalidate_storage_cache row_count
  insert_row-Sound id now app_id table_id items user_id limit db fresh s =
      elim (Result-cases (found_table (first (is_table app_id table_id) db.tables))) [
        | inl (e, bad) ↦ rw bad s
        | inr (table, here) ↦
            elim (Bool-cases
              (leb max_rows_per_table (row_count (of_table app_id table_id) db.rows))) [
                | inl full ↦ rw (here, full) s
                | inr room ↦
                    elim (Result-cases (validate_row_data lib items (load_columns table_id db))) [
                      | inl (e, bad) ↦ rw (here, room, bad) s
                      | inr (p, valid) ↦
                          elim (Bool-cases
                            (reserve_storage lib app_id limit (pos (lib.dumped_size p)) db.rows)) [
                              | inl full ↦ rw (here, room, valid, full) s
                              | inr fine ↦
                                  rw (here, room, valid, fine)
                                    (record {
                                      conform =
                                          All-append
                                            (λ (r : CustomRow).
                                              Conforms lib (load_columns r.table_id db) r.payload)
                                            db.rows (_ ∷ []) s.conform
                                            (
                                              validate_row_data-Conforms lib
                                                  (load_columns table_id db) items p
                                                  (s.defaults table_id) valid,
                                              tt,
                                            );
                                      defaults = s.defaults;
                                      primary =
                                          λ i. one_more i id db.rows _ fresh refl (s.primary i);
                                    })
                            ]
                    ]
              ]
      ]

  delete_row-Sound :
      (app_id table_id row_id : ℕ) (user_id : Option ℕ) (db : TableDb)
      → Sound lib db
      → Sound lib (delete_row lib app_id table_id row_id user_id db).1
  unfolding delete_row get_row load_columns invalidate_storage_cache
  delete_row-Sound app_id table_id row_id user_id db s =
      elim (Result-cases (found_row (first (is_row app_id table_id row_id user_id) db.rows))) [
        | inl (e, bad) ↦ rw bad s
        | inr (row, here) ↦ rw here (record {
          conform =
              All-delete (λ r. Conforms lib (load_columns r.table_id db) r.payload)
                (λ r. r.id == row.id) db.rows s.conform;
          defaults = s.defaults;
          primary = λ i. omega (
            arith,
            s.primary i,
            row_count-delete_le (λ r. r.id == i) (λ r. r.id == row.id) db.rows,
          );
        })
      ]

  update-Sound :
      (now app_id table_id row_id : ℕ) (items p : Payload) (user_id : Option ℕ) (db : TableDb)
      (row : CustomRow)
      → first (is_row app_id table_id row_id user_id) db.rows ≡ some row
      → validate_row_data_partial lib items (load_columns table_id db) ≡ ok p
      → Sound lib db
      → Sound lib (record db {
        rows =
            update
              (λ r. r.id == row.id)
              (λ r. record r { payload = merge row.payload p; updated_at = now })
              db.rows;
      })
  unfolding load_columns
  update-Sound now app_id table_id row_id items p user_id db row found valid s =
      let (is, at) =
        is_row_ids app_id table_id row_id user_id row
          (first_holds (is_row app_id table_id row_id user_id) db.rows row found) in
      let only : All (λ (r : CustomRow). (r.id == row_id) ≡ true → r ≡ row) db.rows =
        All-first_only (λ r. r.id == row_id) (is_row app_id table_id row_id user_id) db.rows row
          (λ r hit. (==_iff r.id row_id).1 (is_row_ids app_id table_id row_id user_id r hit).0)
          (s.primary row_id) found in
      let old : Conforms lib (load_columns row.table_id db) row.payload =
        All-first (λ r. Conforms lib (load_columns r.table_id db) r.payload)
          (is_row app_id table_id row_id user_id) db.rows row found s.conform in
      let merged : Conforms lib (load_columns row.table_id db) (merge row.payload p) =
        merged-Conforms lib (load_columns row.table_id db) row.payload items p old
          (ap (λ t. validate_row_data_partial lib items (load_columns t db)) at ∙ valid) in
      record {
        conform =
            All-update (λ r. r.id == row.id)
              (λ (r : CustomRow). record r { payload = merge row.payload p; updated_at = now })
              (λ r hit both.
                let same : r ≡ row = both.1 (subst (λ x. (r.id == x) ≡ true) is hit) in
                subst
                  (λ (x : CustomRow).
                    Conforms lib (load_columns x.table_id db) (merge row.payload p))
                  (sym same) merged)
              (λ r miss both. both.0) db.rows
              (All-both (λ r. Conforms lib (load_columns r.table_id db) r.payload)
                (λ r. (r.id == row_id) ≡ true → r ≡ row) db.rows s.conform only);
        defaults = s.defaults;
        primary = λ i.
            subst (λ n. n ≤ 1)
              (sym (
                row_count-update_same (λ r. r.id == i) (λ r. r.id == row.id)
                  (λ (r : CustomRow). record r { payload = merge row.payload p; updated_at = now })
                  db.rows (λ r. refl)))
              (s.primary i);
      }

  update_row-Sound :
      (now app_id table_id row_id : ℕ) (items : Payload) (user_id : Option ℕ) (limit : ℕ)
      (db : TableDb)
      → Sound lib db
      → Sound lib (update_row lib now app_id table_id row_id items user_id limit db).1
  unfolding update_row get_row load_columns invalidate_storage_cache
  update_row-Sound now app_id table_id row_id items user_id limit db s =
      elim (Result-cases (found_row (first (is_row app_id table_id row_id user_id) db.rows))) [
        | inl (e, bad) ↦ rw bad s
        | inr (row, here) ↦
            elim (Result-cases (validate_row_data_partial lib items (load_columns table_id db))) [
              | inl (e, bad) ↦ rw (here, bad) s
              | inr (p, valid) ↦
                  elim (Bool-cases
                    (validate_required_fields (merge row.payload p) (load_columns table_id db))) [
                      | inr missing ↦ rw (here, valid, missing) s
                      | inl whole ↦
                          elim (Bool-cases (
                            reserve_storage lib app_id limit
                              (pos (lib.dumped_size (merge row.payload p))
                                -ℤ pos (lib.dumped_size row.payload))
                              db.rows)) [
                                | inl full ↦ rw (here, valid, whole, full) s
                                | inr fine ↦
                                    let done =
                                      update-Sound now app_id table_id row_id items p user_id db row
                                        (found_row-some
                                          (first (is_row app_id table_id row_id user_id) db.rows)
                                          row here)
                                        valid s in
                                    rw (here, valid, whole, fine)
                                      (record {
                                        conform = done.conform;
                                        defaults = done.defaults;
                                        primary = done.primary;
                                      })
                              ]
                    ]
            ]
      ]

-- A call on the rows, whether it returns or raises; an insert draws an id that no row has.
pub data RowCall (lib : Lib) (db : TableDb) : TableDb → Type 0 where
  inserted :
      (id now app_id table_id : ℕ) (items : Payload) (user_id : Option ℕ) (limit : ℕ)
      → row_count (λ (r : CustomRow). r.id == id) db.rows ≡ 0
      → RowCall lib db (insert_row lib id now app_id table_id items user_id limit db).1
  updated :
      (now app_id table_id row_id : ℕ) (items : Payload) (user_id : Option ℕ) (limit : ℕ)
      → RowCall lib db (update_row lib now app_id table_id row_id items user_id limit db).1
  deleted :
      (app_id table_id row_id : ℕ) (user_id : Option ℕ)
      → RowCall lib db (delete_row lib app_id table_id row_id user_id db).1

-- Calls one after another.
pub data RowCalls (lib : Lib) (db : TableDb) : TableDb → Type 0 where
  nothing : RowCalls lib db db
  and_call :
      (db' db'' : TableDb) → RowCalls lib db db' → RowCall lib db' db'' → RowCalls lib db db''

RowCall-Sound : (lib : Lib) (db db' : TableDb) → RowCall lib db db' → Sound lib db → Sound lib db'
RowCall-Sound lib db db' (inserted id now app_id table_id items user_id limit fresh) s =
    insert_row-Sound lib id now app_id table_id items user_id limit db fresh s
RowCall-Sound lib db db' (updated now app_id table_id row_id items user_id limit) s =
    update_row-Sound lib now app_id table_id row_id items user_id limit db s
RowCall-Sound lib db db' (deleted app_id table_id row_id user_id) s =
    delete_row-Sound lib app_id table_id row_id user_id db s

-- However rows are inserted, updated and deleted, in calls that return or raise, every stored key is
-- that of a column of the row's table and every stored value has the column's type or is null, where
-- this held before, an insert draws a fresh id, and the defaults of the columns have their types.
pub RowCalls-Sound :
    (lib : Lib) (db db' : TableDb) → RowCalls lib db db' → Sound lib db → Sound lib db'
RowCalls-Sound lib db _ nothing s = s
RowCalls-Sound lib db _ (and_call db' db'' calls call) s =
    RowCall-Sound lib db' db'' call (RowCalls-Sound lib db db' calls s)
