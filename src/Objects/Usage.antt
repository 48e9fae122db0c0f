-- ===== src/Objects/Usage.antt =====
-- Sums of object sizes under the writes of src/ezauth/services/objects.py.
use ezauth.Prelude.{
  ℕ, ◌+◌, ◌*◌, Bool, true, false, none, some, List, [], ◌∷◌, ◌++◌, ◌≡◌, refl, ◌∙◌, nat_eq,
  string_eq, any, update, row_count, arith, All, Bool-cases, inl, inr, ◌≤◌, row_count-append,
  String, first, first-append_none,
}
use ezauth.Objects.{StorageObject, same_object, sum_sizes}
use ezauth.Objects.Store.{rewritten, upsert, stored}

pub sum_sizes-append :
    (p : StorageObject → Bool) (xs ys : List StorageObject)
    → sum_sizes p (xs ++ ys) ≡ sum_sizes p xs + sum_sizes p ys
unfolding sum_sizes
sum_sizes-append p [] ys = omega arith
sum_sizes-append p (x ∷ xs) ys = omega (arith, sum_sizes-append p xs ys)

sum_sizes-none :
    (p : StorageObject → Bool) (rows : List StorageObject)
    → any p rows ≡ false
    → sum_sizes p rows ≡ 0
unfolding sum_sizes
sum_sizes-none p [] h = refl
sum_sizes-none p (r ∷ rows) h = ground (arith, sum_sizes-none p rows)

row_count-some :
    (p : StorageObject → Bool) (rows : List StorageObject)
    → any p rows ≡ true
    → 1 ≤ row_count p rows
unfolding row_count
row_count-some p [] h = ground arith
row_count-some p (r ∷ rows) h = ground (arith, row_count-some p rows)

-- A write to the rows of q, each of which counts for p before and after.
sum_sizes-update :
    (p q : StorageObject → Bool) (new : StorageObject)
    → ((r : StorageObject) → p (rewritten new r) ≡ p r)
    → (rows : List StorageObject) → All (λ r. q r ≡ true → p r ≡ true) rows
    → sum_sizes p (update q (rewritten new) rows) + sum_sizes q rows
      ≡ sum_sizes p rows + row_count q rows * new.size_bytes
unfolding sum_sizes update row_count rewritten
sum_sizes-update p q new kept [] h = omega arith
sum_sizes-update p q new kept (r ∷ rows) (here, there) =
    let rest = sum_sizes-update p q new kept rows there in
    elim (Bool-cases (q r)) [
      | inl hit ↦ rw (hit, kept r, here hit) (omega (arith, rest))
      | inr miss ↦ rw miss (omega (arith, rest))
    ]

-- The bytes that p counts after an upsert: those before, less the replaced ones, plus the new ones.
pub sum_sizes-upsert :
    (p : StorageObject → Bool) (new : StorageObject) (rows : List StorageObject)
    → let q = same_object new.bucket_id new.user_id new.key in
      p new ≡ true
      → ((r : StorageObject) → p (rewritten new r) ≡ p r)
      → All (λ r. q r ≡ true → p r ≡ true) rows
      → row_count q rows ≤ 1
      → sum_sizes p (upsert new rows) + sum_sizes q rows ≡ sum_sizes p rows + new.size_bytes
unfolding upsert
sum_sizes-upsert p new rows counted kept all unique =
    let q : StorageObject → Bool = same_object new.bucket_id new.user_id new.key in
    elim (Bool-cases (any q rows)) [
      | inl hit ↦
          let once : row_count q rows ≡ 1 = omega (arith, row_count-some q rows hit, unique) in
          rw hit (sum_sizes-update p q new kept rows all ∙ rw once (omega arith))
      | inr miss ↦
          rw (miss, sum_sizes-none q rows miss, sum_sizes-append p rows (new ∷ []))
            (unfold sum_sizes in rw counted (omega arith))
    ]

row_count-update_same :
    (p q : StorageObject → Bool) (f : StorageObject → StorageObject)
    → ((r : StorageObject) → p (f r) ≡ p r)
    → (rows : List StorageObject) → row_count p (update q f rows) ≡ row_count p rows
unfolding row_count update
row_count-update_same p q f kept [] = refl
row_count-update_same p q f kept (r ∷ rows) =
    let rest = row_count-update_same p q f kept rows in
    elim (Bool-cases (q r)) [
      | inl hit ↦ rw (hit, kept r, rest) refl
      | inr miss ↦ rw (miss, rest) refl
    ]

row_count-none :
    (p : StorageObject → Bool) (rows : List StorageObject)
    → any p rows ≡ false
    → row_count p rows ≡ 0
unfolding row_count
row_count-none p [] h = refl
row_count-none p (r ∷ rows) h = ground (arith, row_count-none p rows)

-- The key of the table identifies a row.
same_key :
    (b u : ℕ) (k : String) (new : StorageObject)
    → same_object b u k new ≡ true
    → (rows : List StorageObject)
    → row_count (same_object b u k) rows
      ≡ row_count (same_object new.bucket_id new.user_id new.key) rows
unfolding same_object
same_key b u k new h rows = grind arith

-- An upsert keeps the constraint of the table: at most one row for a bucket, user and key.
pub row_count-upsert :
    (b u : ℕ) (k : String) (new : StorageObject) (rows : List StorageObject)
    → row_count (same_object b u k) rows ≤ 1
    → row_count (same_object b u k) (upsert new rows) ≤ 1
unfolding upsert
row_count-upsert b u k new rows unique =
    let q : StorageObject → Bool = same_object new.bucket_id new.user_id new.key in
    let p : StorageObject → Bool = same_object b u k in
    elim (Bool-cases (any q rows)) [
      | inl hit ↦
          rw
            (
              hit,
              row_count-update_same p q (rewritten new) (λ r. unfold rewritten same_object in refl)
                  rows,
            )
            unique
      | inr miss ↦
          rw (miss, row_count-append p rows (new ∷ []))
            (elim (Bool-cases (p new)) [
              | inl same ↦
                  rw (same_key b u k new same rows, row_count-none q rows miss)
                    (unfold row_count in ground arith)
              | inr other ↦ unfold row_count in ground (arith, other, unique)
            ])
    ]

first-update :
    (q : StorageObject → Bool) (f : StorageObject → StorageObject)
    → ((r : StorageObject) → q (f r) ≡ q r)
    → (rows : List StorageObject) (old : StorageObject) → first q rows ≡ some old
    → first q (update q f rows) ≡ some (f old)
unfolding first update
first-update q f kept [] old h = cc
first-update q f kept (r ∷ rows) old h =
    let rest = first-update q f kept rows old in
    elim (Bool-cases (q r)) [
      | inl hit ↦ rw (hit, kept r, hit) (ground (arith, hit, h))
      | inr miss ↦ ground (arith, miss, h, rest)
    ]

first-any-false :
    (q : StorageObject → Bool) (rows : List StorageObject)
    → any q rows ≡ false
    → first q rows ≡ none
unfolding first
first-any-false q [] h = refl
first-any-false q (r ∷ rows) h = ground (arith, first-any-false q rows)

first-any-true :
    (q : StorageObject → Bool) (rows : List StorageObject)
    → any q rows ≡ true
    → (r : StorageObject) × (first q rows ≡ some r)
unfolding first
first-any-true q [] h = cc
first-any-true q (r ∷ rows) h = elim (Bool-cases (q r)) [
  | inl hit ↦ (r, rw hit refl)
  | inr miss ↦ let (x, e) = first-any-true q rows (ground (arith, h, miss)) in (x, rw miss e)
]

-- The row that an upsert returns is the one that a query then finds.
pub first-upsert :
    (new : StorageObject) (rows : List StorageObject)
    → first (same_object new.bucket_id new.user_id new.key) (upsert new rows)
      ≡ some (stored new rows)
unfolding upsert stored nat_eq
first-upsert new rows =
    let q : StorageObject → Bool = same_object new.bucket_id new.user_id new.key in
    elim (Bool-cases (any q rows)) [
      | inl hit ↦
          let (old, e) = first-any-true q rows hit in
          rw
            (
              hit,
              first-update q (rewritten new) (λ r. unfold rewritten same_object in refl) rows old e,
              stored,
              e,
            )
            refl
      | inr miss ↦
          rw
            (
              miss,
              first-append_none q rows (new ∷ []) (first-any-false q rows miss),
              stored,
              first-any-false q rows miss,
            )
            (unfold first same_object in ground arith)
    ]
