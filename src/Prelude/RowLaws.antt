-- ===== src/Prelude/RowLaws.antt =====
-- Laws of the statements on tables.
use mathlib.Core.Path.{◌≡◌, refl, sym, subst, ◌∙◌}
use mathlib.Core.Bool.{Bool, true, false, not, ◌&&◌, ◌||◌}
use mathlib.Core.Option.{none, some, none-ne-some, some-injective}
use mathlib.Core.List.{List, [], ◌∷◌, ◌++◌}
use mathlib.Core.Logic.{inl, inr}
use Prim.Native.Nat.{◌+◌, ◌≤◌}
use native.Mathlib.Omega.{arith}
use ezauth.Prelude.Tests.{Bool-cases, clash}
use ezauth.Prelude.Lists.{All, any, length}
use ezauth.Prelude.Rows.{select, first, update, row_count, insert_by, order_by}

module _ {ℓ} {R : Type ℓ} where
  pub select-select :
      (p q : R → Bool) (rs : List R) → select q (select p rs) ≡ select (λ r. p r && q r) rs
  unfolding select
  select-select p q [] = refl
  select-select p q (r ∷ rs) = ground (arith, select-select p q rs)

  pub first-select :
      (p q : R → Bool) (rs : List R) → first q (select p rs) ≡ first (λ r. p r && q r) rs
  unfolding select first
  first-select p q [] = refl
  first-select p q (r ∷ rs) = ground (arith, first-select p q rs)

  pub first_holds : (p : R → Bool) (rs : List R) (r : R) → first p rs ≡ some r → p r ≡ true
  unfolding first
  first_holds p [] r h = cc
  first_holds p (x ∷ rs) r h = ground (arith, first_holds p rs r)

  pub All-first-none : (p : R → Bool) (rs : List R) → first p rs ≡ none → All (λ r. p r ≡ false) rs
  unfolding first
  All-first-none p [] h = tt
  All-first-none p (x ∷ rs) h = ground (arith, All-first-none p rs)

  pub first-All-false : (p : R → Bool) (rs : List R) → All (λ r. p r ≡ false) rs → first p rs ≡ none
  unfolding first
  first-All-false p [] h = refl
  first-All-false p (x ∷ rs) h = ground (arith, first-All-false p rs)

  pub select-All-false : (p : R → Bool) (rs : List R) → All (λ r. p r ≡ false) rs → select p rs ≡ []
  unfolding select
  select-All-false p [] h = refl
  select-All-false p (x ∷ rs) h = ground (arith, select-All-false p rs)

  pub All-select_nil : (p : R → Bool) (rs : List R) → select p rs ≡ [] → All (λ r. p r ≡ false) rs
  unfolding select
  All-select_nil p [] h = tt
  All-select_nil p (x ∷ rs) h = ground (arith, All-select_nil p rs)

  pub All-always {κ} : {P : R → Type κ} → ((r : R) → P r) → (rs : List R) → All P rs
  All-always h [] = tt
  All-always h (x ∷ rs) = (h x, All-always h rs)

  pub All-map {κ μ} :
      {P : R → Type κ} {Q : R → Type μ}
      → ((r : R) → P r → Q r)
      → (rs : List R) → All P rs
      → All Q rs
  All-map h [] a = tt
  All-map h (x ∷ rs) a = (h x a.0, All-map h rs a.1)

  -- A property of every row after an update, from one of every row before it.
  pub All-update {κ μ} :
      {P : R → Type κ} {Q : R → Type μ} (p : R → Bool) (f : R → R)
      → ((r : R) → p r ≡ true → P r → Q (f r))
      → ((r : R) → p r ≡ false → P r → Q r)
      → (rs : List R) → All P rs
      → All Q (update p f rs)
  unfolding update
  All-update p f hit miss [] a = tt
  All-update p f hit miss (x ∷ rs) a = elim (Bool-cases (p x)) [
    | inl e ↦ rw e (hit x e a.0, All-update p f hit miss rs a.1)
    | inr e ↦ rw e (miss x e a.0, All-update p f hit miss rs a.1)
  ]

  -- The first row that an update touches is the first one after it, where the change keeps the test.
  pub first-update :
      (p : R → Bool) (f : R → R) (r : R) (rs : List R)
      → p (f r) ≡ true
      → first p rs ≡ some r
      → first p (update p f rs) ≡ some (f r)
  unfolding first update
  first-update p f r [] kept h = absurd (ground (arith, h))
  first-update p f r (x ∷ rs) kept h = elim (Bool-cases (p x)) [
    | inl hit ↦ let is : x ≡ r = ground (arith, hit, h) in rw hit (rw is (rw kept refl))
    | inr miss ↦ rw miss (rw miss (first-update p f r rs kept (ground (arith, miss, h))))
  ]

  pub All-append {κ} : (P : R → Type κ) (xs ys : List R) → All P xs → All P ys → All P (xs ++ ys)
  All-append P [] ys a b = b
  All-append P (x ∷ xs) ys a b = (a.0, All-append P xs ys a.1 b)

  pub row_count-append :
      (p : R → Bool) (xs ys : List R) → row_count p (xs ++ ys) ≡ row_count p xs + row_count p ys
  unfolding row_count
  row_count-append p [] ys = omega arith
  row_count-append p (x ∷ xs) ys = ground (arith, row_count-append p xs ys)

  pub row_count-All-false :
      (p : R → Bool) (rs : List R) → All (λ r. p r ≡ false) rs → row_count p rs ≡ 0
  unfolding row_count
  row_count-All-false p [] h = refl
  row_count-All-false p (x ∷ rs) h = ground (arith, row_count-All-false p rs)

  pub first-append_none :
      (p : R → Bool) (xs ys : List R) → first p xs ≡ none → first p (xs ++ ys) ≡ first p ys
  unfolding first
  first-append_none p [] ys h = refl
  first-append_none p (x ∷ xs) ys h = ground (arith, first-append_none p xs ys)

  pub first-append_some :
      (p : R → Bool) (xs ys : List R) (r : R) → first p xs ≡ some r → first p (xs ++ ys) ≡ some r
  unfolding first
  first-append_some p [] ys r h = cc
  first-append_some p (x ∷ xs) ys r h = ground (arith, first-append_some p xs ys r)

  pub update-All-false :
      (p : R → Bool) (f : R → R) (rs : List R) → All (λ r. p r ≡ false) rs → update p f rs ≡ rs
  unfolding update
  update-All-false p f [] h = refl
  update-All-false p f (x ∷ rs) h = ground (arith, update-All-false p f rs)

  pub All-last {κ} : (P : R → Type κ) (r : R) (rs : List R) → All P (rs ++ r ∷ []) → P r
  All-last P r [] h = h.0
  All-last P r (x ∷ rs) h = All-last P r rs h.1

  first-insert_by :
      (p : R → Bool) (before : R → R → Bool) (x : R) (rs : List R)
      → p x ≡ false
      → first p (insert_by before x rs) ≡ first p rs
  unfolding first insert_by
  first-insert_by p before x [] h = ground arith
  first-insert_by p before x (r ∷ rs) h = ground (arith, first-insert_by p before x rs)

  -- The one row with the property is found, in whatever order the rows come.
  pub first-order_by_last :
      (p : R → Bool) (before : R → R → Bool) (x : R) (rs : List R)
      → All (λ r. p r ≡ false) rs
      → p x ≡ true
      → first p (order_by before (rs ++ x ∷ [])) ≡ some x
  unfolding first order_by
  first-order_by_last p before x [] a h = unfold insert_by in ground arith
  first-order_by_last p before x (r ∷ rs) a h =
      first-insert_by p before r (order_by before (rs ++ x ∷ [])) a.0
      ∙ first-order_by_last p before x rs a.1 h

  any-insert_by :
      (p : R → Bool) (before : R → R → Bool) (x : R) (rs : List R)
      → any p (insert_by before x rs) ≡ (p x || any p rs)
  unfolding insert_by
  any-insert_by p before x [] = refl
  any-insert_by p before x (r ∷ rs) = ground (arith, any-insert_by p before x rs)

  pub any-order_by :
      (p : R → Bool) (before : R → R → Bool) (rs : List R) → any p (order_by before rs) ≡ any p rs
  unfolding order_by
  any-order_by p before [] = refl
  any-order_by p before (r ∷ rs) =
      any-insert_by p before r (order_by before rs) ∙ rw (any-order_by p before rs) refl

  pub order_by_ne_nil :
      (before : R → R → Bool) (r : R) (rs : List R)
      → (x : R) × (xs : List R) × (order_by before (r ∷ rs) ≡ x ∷ xs)
  unfolding order_by
  order_by_ne_nil before r rs = insert_by_cons (order_by before rs)
    where
      insert_by_cons : (ys : List R) → (x : R) × (xs : List R) × (insert_by before r ys ≡ x ∷ xs)
      insert_by_cons [] = (r, [], refl)
      insert_by_cons (y ∷ ys) = elim (Bool-cases (before y r)) [
        | inl e ↦ (y, insert_by before r ys, rw e)
        | inr e ↦ (r, y ∷ ys, rw e)
      ]

  pub select-last :
      (p : R → Bool) (x : R) (rs : List R)
      → p x ≡ true
      → select p (rs ++ x ∷ []) ≡ select p rs ++ x ∷ []
  unfolding select
  select-last p x [] h = ground arith
  select-last p x (r ∷ rs) h = ground (arith, select-last p x rs)

  pub All-select :
      (p q : R → Bool) (rs : List R)
      → All (λ r. (p r && q r) ≡ false) rs
      → All (λ r. q r ≡ false) (select p rs)
  unfolding select
  All-select p q [] h = tt
  All-select p q (r ∷ rs) h = ground (arith, All-select p q rs)

  pub any-select : (p q : R → Bool) (rs : List R) → any q (select p rs) ≡ any (λ r. p r && q r) rs
  unfolding select
  any-select p q [] = refl
  any-select p q (r ∷ rs) = ground (arith, any-select p q rs)

  pub any-append : (p : R → Bool) (xs ys : List R) → any p (xs ++ ys) ≡ (any p xs || any p ys)
  any-append p [] ys = refl
  any-append p (x ∷ xs) ys = ground (arith, any-append p xs ys)

  -- What an update leaves alone in every row stays present.
  pub any-update_same :
      (p q : R → Bool) (f : R → R)
      → ((r : R) → q (f r) ≡ q r)
      → (rs : List R) → any q (update p f rs) ≡ any q rs
  unfolding update
  any-update_same p q f same [] = refl
  any-update_same p q f same (r ∷ rs) = ground (arith, same r, any-update_same p q f same rs)

  pub row_count-delete :
      (p : R → Bool) (rs : List R) → row_count (λ r. not (p r)) rs + row_count p rs ≡ length rs
  unfolding row_count
  row_count-delete p [] = refl
  row_count-delete p (r ∷ rs) = ground (arith, row_count-delete p rs)

  pub length-select : (p : R → Bool) (rs : List R) → length (select p rs) ≡ row_count p rs
  unfolding select row_count
  length-select p [] = refl
  length-select p (r ∷ rs) = ground (arith, length-select p rs)

  pub All-select_holds : (p : R → Bool) (rs : List R) → All (λ r. p r ≡ true) (select p rs)
  unfolding select
  All-select_holds p [] = tt
  All-select_holds p (r ∷ rs) = ground (arith, All-select_holds p rs)

  -- A count that looks only at rows that are kept.
  pub row_count-select :
      (p q : R → Bool) (rs : List R)
      → ((r : R) → q r ≡ true → p r ≡ true)
      → row_count q (select p rs) ≡ row_count q rs
  unfolding select row_count
  row_count-select p q [] h = refl
  row_count-select p q (r ∷ rs) h = ground (arith, h r, row_count-select p q rs h)

  pub All-first {κ} :
      (P : R → Type κ) (p : R → Bool) (rs : List R) (r : R) → first p rs ≡ some r → All P rs → P r
  unfolding first
  All-first P p [] r e a = absurd (none-ne-some r e)
  All-first P p (x ∷ rs) r e a = elim (Bool-cases (p x)) [
    | inl hit ↦ subst P (some-injective x r (sym (unfold first in rw hit) ∙ e)) a.0
    | inr miss ↦ All-first P p rs r (sym (unfold first in rw miss) ∙ e) a.1
  ]

  pub row_count_zero-All :
      (p : R → Bool) (rs : List R) → row_count p rs ≡ 0 → All (λ r. p r ≡ false) rs
  unfolding row_count
  row_count_zero-All p [] h = tt
  row_count_zero-All p (r ∷ rs) h = ground (arith, row_count_zero-All p rs)

  -- Of rows of which at most one has a property, the one that a narrower query finds.
  pub All-first_only :
      (q p : R → Bool) (rs : List R) (s : R)
      → ((r : R) → p r ≡ true → q r ≡ true)
      → row_count q rs ≤ 1
      → first p rs ≡ some s
      → All (λ r. q r ≡ true → r ≡ s) rs
  unfolding row_count first
  All-first_only q p [] s narrower once e = tt
  All-first_only q p (r ∷ rs) s narrower once e = elim (Bool-cases (p r)) [
    | inl hit ↦ (
      λ _. ground arith,
      All-map (λ x out inside. absurd (cc)) rs
          (row_count_zero-All q rs (ground (arith, narrower r hit))),
    )
    | inr miss ↦ (
      λ inside.
          let e' : first p rs ≡ some s = ground arith in
          absurd (
            clash (All-first (λ x. q x ≡ false) p rs s e' (row_count_zero-All q rs (ground arith)))
              (narrower s (first_holds p rs s e'))),
      All-first_only q p rs s narrower (ground arith) (ground arith),
    )
  ]
