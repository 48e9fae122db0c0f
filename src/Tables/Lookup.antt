-- ===== src/Tables/Lookup.antt =====
-- The rows that the operations of src/ezauth/services/tables.py find, add, change and delete.
use ezauth.Prelude.{
  ℕ, ◌≤◌, Bool, true, Option, none, some, List, [], ◌∷◌, ◌++◌, ◌==◌, nat_eq, ==_iff, All,
  row_count-append, select, delete, update, row_count, ◌≡◌, refl, subst, arith, inl, inr,
  Bool-cases,
}
use ezauth.Outcome.{ok}
use ezauth.Tables.{CustomRow}
use ezauth.Tables.Rows.{found_row, is_row}

pub one_more :
    (i id : ℕ) (rows : List CustomRow) (new : CustomRow)
    → row_count (λ (r : CustomRow). r.id == id) rows ≡ 0
    → new.id ≡ id
    → row_count (λ (r : CustomRow). r.id == i) rows ≤ 1
    → row_count (λ (r : CustomRow). r.id == i) (rows ++ new ∷ []) ≤ 1
unfolding row_count
one_more i id rows new fresh is once = elim (Bool-cases (id == i)) [
  | inl same ↦
      let e : id ≡ i = (==_iff id i).0 same in
      let none_yet : row_count (λ (r : CustomRow). r.id == i) rows ≡ 0 =
        subst (λ x. row_count (λ (r : CustomRow). r.id == x) rows ≡ 0) e fresh in
      ground (arith, row_count-append (λ (r : CustomRow). r.id == i) rows (new ∷ []), none_yet)
  | inr other ↦
      ground (arith, row_count-append (λ (r : CustomRow). r.id == i) rows (new ∷ []), other)
]

module _ {ℓ} (P : CustomRow → Type ℓ) where
  pub All-delete :
      (p : CustomRow → Bool) (rows : List CustomRow) → All P rows → All P (delete p rows)
  unfolding delete select
  All-delete p [] h = tt
  All-delete p (r ∷ rows) (here, there) = elim (Bool-cases (p r)) [
    | inl gone ↦ rw gone (All-delete p rows there)
    | inr kept ↦ rw kept (here, All-delete p rows there)
  ]

  pub All-both {κ} :
      (Q : CustomRow → Type κ) (rows : List CustomRow)
      → All P rows
      → All Q rows
      → All (λ r. P r × Q r) rows
  All-both Q [] hs ks = tt
  All-both Q (r ∷ rows) (h, hs) (k, ks) = ((h, k), All-both Q rows hs ks)

pub row_count-delete_le :
    (q p : CustomRow → Bool) (rows : List CustomRow)
    → row_count q (delete p rows) ≤ row_count q rows
unfolding row_count delete select
row_count-delete_le q p [] = omega arith
row_count-delete_le q p (r ∷ rows) = ground (arith, row_count-delete_le q p rows)

pub row_count-update_same :
    (q p : CustomRow → Bool) (f : CustomRow → CustomRow) (rows : List CustomRow)
    → ((r : CustomRow) → q (f r) ≡ q r)
    → row_count q (update p f rows) ≡ row_count q rows
unfolding row_count update
row_count-update_same q p f [] same = refl
row_count-update_same q p f (r ∷ rows) same =
    ground (arith, same r, row_count-update_same q p f rows same)

pub found_row-some : (o : Option CustomRow) (r : CustomRow) → found_row o ≡ ok r → o ≡ some r
unfolding found_row
found_row-some none r h = cc
found_row-some (some s) r h = cc

pub is_row_ids :
    (app_id table_id row_id : ℕ) (user_id : Option ℕ) (r : CustomRow)
    → is_row app_id table_id row_id user_id r ≡ true
    → (r.id ≡ row_id) × (r.table_id ≡ table_id)
unfolding is_row
is_row_ids app_id table_id row_id none r h =
    ground (arith, ==_iff r.id row_id, ==_iff r.table_id table_id)
is_row_ids app_id table_id row_id (some user_id) r h =
    ground (arith, ==_iff r.id row_id, ==_iff r.table_id table_id)
