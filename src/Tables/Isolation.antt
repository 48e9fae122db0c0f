-- ===== src/Tables/Isolation.antt =====
-- What the routes on rows in src/ezauth/api/tables.py let a user reach.
use ezauth.Prelude.{
  ℕ, Bool, true, false, not, ◌&&◌, Option, some, List, [], ◌∷◌, ◌++◌, ◌==◌, nat_eq, option_eq,
  ==_iff, All, All-map, All-first_only, first_holds, first, select, update, delete, leb, row_count,
  ◌≡◌, refl, sym, subst, arith, inl, inr, Bool-cases,
}
use ezauth.Prelude.Keyed.{Keyed}
use ezauth.Prelude.Int.{pos, ◌-ℤ◌}
use ezauth.Models.{User}
use ezauth.Outcome.{Result-cases}
use ezauth.Tables.{CustomRow, Payload, TableDb, Lib, merge}
use ezauth.Tables.Values.{validate_row_data, validate_row_data_partial, validate_required_fields}
use ezauth.Tables.Columns.{get_table_or_raise, load_columns, found_table, is_table, of_table}
use ezauth.Tables.Rows
use ezauth.Tables.Rows.{
  get_row, found_row, is_row, max_rows_per_table, reserve_storage, invalidate_storage_cache,
}
use ezauth.Tables.Lookup.{found_row-some}
use ezauth.Tables.Routes.{
  AppAuth, insert_row, update_row, delete_row, resolve_row_user, insert_as, is_admin, run,
}

-- A request that may write rows.
pub data RowRequest : Type 0 where
  insert : (id now table_id : ℕ) → Payload → Option ℕ → RowRequest
  change : (now table_id row_id : ℕ) → Payload → RowRequest
  remove : (table_id row_id : ℕ) → RowRequest

unfoldable pub serve : Lib → ℕ → AppAuth → List User → RowRequest → TableDb → TableDb
unfolding insert_row update_row delete_row
serve lib limit auth users (insert id now table_id items asked) db =
    (insert_row lib limit auth users id now table_id items asked db).1
serve lib limit auth users (change now table_id row_id items) db =
    (update_row lib limit auth now table_id row_id items db).1
serve lib limit auth users (remove table_id row_id) db =
    (delete_row lib limit auth table_id row_id db).1

-- The rows that are not the user's own in the application.
unfoldable pub is_other : (app_id user_id : ℕ) → CustomRow → Bool
is_other app_id user_id r = not (r.app_id == app_id && r.user_id == some user_id)

module _ (q : CustomRow → Bool) where
  select-append_out :
      (new : CustomRow)
      → q new ≡ false
      → (rows : List CustomRow) → select q (rows ++ new ∷ []) ≡ select q rows
  unfolding select
  select-append_out new out [] = rw out refl
  select-append_out new out (r ∷ rows) = rw (select-append_out new out rows) refl

  select-update_out :
      (p : CustomRow → Bool) (f : CustomRow → CustomRow)
      → ((r : CustomRow) → q (f r) ≡ q r)
      → (rows : List CustomRow) → All (λ r. p r ≡ true → q r ≡ false) rows
      → select q (update p f rows) ≡ select q rows
  unfolding select update
  select-update_out p f same [] h = refl
  select-update_out p f same (r ∷ rows) (here, there) = elim (Bool-cases (p r)) [
    | inl hit ↦ rw (hit, same r, here hit, select-update_out p f same rows there) refl
    | inr miss ↦ rw (miss, select-update_out p f same rows there) refl
  ]

  select-delete_out :
      (p : CustomRow → Bool) (rows : List CustomRow)
      → All (λ r. p r ≡ true → q r ≡ false) rows
      → select q (delete p rows) ≡ select q rows
  unfolding select delete
  select-delete_out p [] h = refl
  select-delete_out p (r ∷ rows) (here, there) = elim (Bool-cases (p r)) [
    | inl hit ↦ rw (hit, here hit, select-delete_out p rows there) refl
    | inr miss ↦ rw (miss, select-delete_out p rows there) refl
  ]

is_row_own :
    (app_id table_id row_id user_id : ℕ) (r : CustomRow)
    → is_row app_id table_id row_id (some user_id) r ≡ true
    → (r.id ≡ row_id) × (is_other app_id user_id r ≡ false)
unfolding is_row is_other
is_row_own app_id table_id row_id user_id r h = ground (arith, ==_iff r.id row_id)

own_row :
    (app_id user_id : ℕ) (r : CustomRow)
    → r.app_id ≡ app_id
    → r.user_id ≡ some user_id
    → is_other app_id user_id r ≡ false
unfolding is_other
own_row app_id user_id r a u =
    ground (arith, ==_iff r.app_id app_id, ==_iff r.user_id (some user_id))

module _ (lib : Lib) (limit app_id user_id : ℕ) (users : List User) (db : TableDb) where
  abbrev auth : AppAuth
  auth = record { app_id = app_id; user_id = some user_id }

  abbrev others : List CustomRow → List CustomRow
  others = select (is_other app_id user_id)

  -- The rows with the id of a row that was found for the user are the user's.
  own_id :
      (table_id row_id : ℕ) (row : CustomRow)
      → Keyed (λ r. r.id) db.rows
      → first (is_row app_id table_id row_id (some user_id)) db.rows ≡ some row
      → All (λ (r : CustomRow). (r.id == row.id) ≡ true → is_other app_id user_id r ≡ false) db.rows
  own_id table_id row_id row keyed found =
      let mine = is_row app_id table_id row_id (some user_id) in
      let (is, own) =
        is_row_own app_id table_id row_id user_id row (first_holds mine db.rows row found) in
      All-map
        (λ r only hit.
          subst (λ x. is_other app_id user_id x ≡ false)
            (sym (only (subst (λ i. (r.id == i) ≡ true) is hit))) own)
        db.rows
        (All-first_only (λ r. r.id == row_id) mine db.rows row
          (λ r hit. (==_iff r.id row_id).1 (is_row_own app_id table_id row_id user_id r hit).0)
          (keyed row_id) found)

  insert-others :
      (id now table_id : ℕ) (items : Payload)
      → others (Rows.insert_row lib id now app_id table_id items (some user_id) limit db).1.rows
        ≡ others db.rows
  unfolding Rows.insert_row get_table_or_raise invalidate_storage_cache
  insert-others id now table_id items =
      elim (Result-cases (found_table (first (is_table app_id table_id) db.tables))) [
        | inl (e, bad) ↦ rw bad refl
        | inr (table, here) ↦
            elim (Bool-cases
              (leb max_rows_per_table (row_count (of_table app_id table_id) db.rows))) [
                | inl full ↦ rw (here, full) refl
                | inr room ↦
                    elim (Result-cases (validate_row_data lib items (load_columns table_id db))) [
                      | inl (e, bad) ↦ rw (here, room, bad) refl
                      | inr (p, valid) ↦
                          elim (Bool-cases
                            (reserve_storage lib app_id limit (pos (lib.dumped_size p)) db.rows)) [
                              | inl full ↦ rw (here, room, valid, full) refl
                              | inr fine ↦
                                  let new : CustomRow = record {
                                    id = id;
                                    app_id = app_id;
                                    table_id = table_id;
                                    user_id = some user_id;
                                    payload = p;
                                    created_at = now;
                                    updated_at = now;
                                  } in
                                  rw (here, room, valid, fine)
                                    (select-append_out (is_other app_id user_id) new
                                      (own_row app_id user_id new refl refl) db.rows)
                            ]
                    ]
              ]
      ]

  delete-others :
      (table_id row_id : ℕ)
      → Keyed (λ r. r.id) db.rows
      → others (Rows.delete_row lib app_id table_id row_id (some user_id) db).1.rows
        ≡ others db.rows
  unfolding Rows.delete_row get_row invalidate_storage_cache
  delete-others table_id row_id keyed =
      elim (Result-cases
        (found_row (first (is_row app_id table_id row_id (some user_id)) db.rows))) [
          | inl (e, bad) ↦ rw bad refl
          | inr (row, here) ↦
              let found =
                found_row-some (first (is_row app_id table_id row_id (some user_id)) db.rows) row
                  here in
              rw here (
                select-delete_out (is_other app_id user_id) (λ r. r.id == row.id) db.rows
                  (own_id table_id row_id row keyed found))
        ]

  update-others :
      (now table_id row_id : ℕ) (items : Payload)
      → Keyed (λ r. r.id) db.rows
      → others (Rows.update_row lib now app_id table_id row_id items (some user_id) limit db).1.rows
        ≡ others db.rows
  unfolding Rows.update_row get_row invalidate_storage_cache
  update-others now table_id row_id items keyed =
      elim (Result-cases
        (found_row (first (is_row app_id table_id row_id (some user_id)) db.rows))) [
          | inl (e, bad) ↦ rw bad refl
          | inr (row, here) ↦
              elim (Result-cases (validate_row_data_partial lib items (load_columns table_id db))) [
                | inl (e, bad) ↦ rw (here, bad) refl
                | inr (p, valid) ↦
                    elim (Bool-cases
                      (validate_required_fields (merge row.payload p) (load_columns table_id db))) [
                        | inr missing ↦ rw (here, valid, missing) refl
                        | inl whole ↦
                            elim (Bool-cases (
                              reserve_storage lib app_id limit
                                (pos (lib.dumped_size (merge row.payload p))
                                  -ℤ pos (lib.dumped_size row.payload))
                                db.rows)) [
                                  | inl full ↦ rw (here, valid, whole, full) refl
                                  | inr fine ↦
                                      let found =
                                        found_row-some
                                          (first (is_row app_id table_id row_id (some user_id))
                                            db.rows)
                                          row here in
                                      rw (here, valid, whole, fine)
                                        (select-update_out (is_other app_id user_id)
                                          (λ r. r.id == row.id)
                                          (λ (r : CustomRow). record r {
                                            payload = merge row.payload p;
                                            updated_at = now;
                                          })
                                          (λ r. unfold is_other in refl) db.rows
                                          (own_id table_id row_id row keyed found))
                                ]
                      ]
              ]
        ]

  -- A request of a user to insert, change or delete a row, whatever its outcome, leaves the rows of
  -- every other application, of every other user, and of no user as they were, where no two rows
  -- share an id.
  pub serve-others :
      (request : RowRequest)
      → Keyed (λ (r : CustomRow). r.id) db.rows
      → select
          (is_other app_id user_id)
          (serve lib limit
            (record { app_id = app_id; user_id = some user_id })
            users
            request
            db).rows
        ≡ select (is_other app_id user_id) db.rows
  unfolding serve insert_row insert_as resolve_row_user is_admin update_row delete_row run
  serve-others (insert id now table_id items asked) keyed = insert-others id now table_id items
  serve-others (change now table_id row_id items) keyed =
      update-others now table_id row_id items keyed
  serve-others (remove table_id row_id) keyed = delete-others table_id row_id keyed
