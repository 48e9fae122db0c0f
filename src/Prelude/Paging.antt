-- ===== src/Prelude/Paging.antt =====
-- Keyset pagination: each page asks for the rows that come after the last row of the page before
-- it. Reading every page gives the sorted rows, each of them once.
use Prim.Native.Nat.{ℕ, zero, suc, ◌+◌, ◌<◌}
use mathlib.Core.Path.{◌≡◌, refl, ap}
use mathlib.Core.Bool.{Bool, true, false}
use mathlib.Core.Logic.{◌⊎◌, inl, inr}
use mathlib.Core.Option.{Option, none, some}
use mathlib.Core.List.{List, [], ◌∷◌, ◌++◌}
use native.Mathlib.Omega.{arith}
use ezauth.Prelude.Tests.{ltb, if◌then◌else◌, Bool-cases, clash}
use ezauth.Prelude.Lists.{length, take, All}
use ezauth.Prelude.Rows.{select, insert_by, order_by}
use ezauth.Prelude.RowLaws.{All-map}

module _ {ℓ} {R : Type ℓ} where
  abbrev pub drop : ℕ → List R → List R
  drop zero xs = xs
  drop (suc n) [] = []
  drop (suc n) (x ∷ xs) = drop n xs

  pub take-drop : (n : ℕ) (xs : List R) → take n xs ++ drop n xs ≡ xs
  take-drop zero xs = refl
  take-drop (suc n) [] = refl
  take-drop (suc n) (x ∷ xs) = ap (λ ys. x ∷ ys) (take-drop n xs)

  pub length-drop : (n : ℕ) (xs : List R) → n < length xs → length (drop n xs) + n ≡ length xs
  length-drop zero xs h = omega arith
  length-drop (suc n) [] h = omega arith
  length-drop (suc n) (x ∷ xs) h = omega (arith, length-drop n xs)

  -- rows[-1] of a page that is not empty
  abbrev pub last_of : R → List R → R
  last_of r [] = r
  last_of r (x ∷ xs) = last_of x xs

  -- At most `limit` rows of those found, and whether there are more.
  abbrev pub last? : List R → Option R
  last? [] = none
  last? (x ∷ xs) = some (last_of x xs)

  -- LIMIT limit + 1, cut to `limit`, with the last row kept as the cursor where there was one more.
  unfoldable pub cut_page : ℕ → List R → List R × Option R
  cut_page limit found =
      if ltb limit (length found)
      then (take limit found, last? (take limit found))
      else (found, none)

-- A strict order.
pub record IsOrder {ℓ} {R : Type ℓ} (before : R → R → Bool) : Type ℓ where
  pub irreflexive : (a : R) → before a a ≡ false
  pub transitive : (a b c : R) → before a b ≡ true → before b c ≡ true → before a c ≡ true

module _ {ℓ} {R : Type ℓ} (before : R → R → Bool) where
  -- Each row comes before all later ones.
  abbrev pub Ascending : List R → Type 0
  Ascending [] = Unit
  Ascending (r ∷ rs) = All (λ s. before r s ≡ true) rs × Ascending rs

  -- One of two rows comes before the other.
  abbrev pub Apart : R → R → Type 0
  Apart r s = (before r s ≡ true) ⊎ (before s r ≡ true)

  -- Of every two rows one comes before the other: the order leaves no ties.
  abbrev pub Distinct : List R → Type 0
  Distinct [] = Unit
  Distinct (r ∷ rs) = All (Apart r) rs × Distinct rs

  All-insert_by {κ} :
      (P : R → Type κ) (x : R) (rs : List R) → P x → All P rs → All P (insert_by before x rs)
  unfolding insert_by
  All-insert_by P x [] px ps = (px, tt)
  All-insert_by P x (r ∷ rs) px (pr, ps) =
      let rest = All-insert_by P x rs px ps in
      elim (Bool-cases (before r x)) [ inl e ↦ rw e (pr, rest) | inr e ↦ rw e (px, (pr, ps)) ]

  pub All-order_by {κ} : (P : R → Type κ) (rs : List R) → All P rs → All P (order_by before rs)
  unfolding order_by
  All-order_by P [] ps = tt
  All-order_by P (r ∷ rs) (pr, ps) =
      All-insert_by P r (order_by before rs) pr (All-order_by P rs ps)

  pub All-select_kept {κ} :
      (P : R → Type κ) (q : R → Bool) (rs : List R) → All P rs → All P (select q rs)
  unfolding select
  All-select_kept P q [] ps = tt
  All-select_kept P q (r ∷ rs) (pr, ps) =
      let rest = All-select_kept P q rs ps in
      elim (Bool-cases (q r)) [ inl e ↦ rw e (pr, rest) | inr e ↦ rw e rest ]

  insert_by_head :
      (x : R) (rs : List R) → All (λ s. before s x ≡ false) rs → insert_by before x rs ≡ x ∷ rs
  unfolding insert_by
  insert_by_head x [] h = refl
  insert_by_head x (r ∷ rs) (h, _) = rw h refl

  pub All-middle {κ} :
      (P : R → Type κ) (ys : List R) (l : R) (zs : List R) → All P (ys ++ l ∷ zs) → P l
  All-middle P [] l zs (h, _) = h
  All-middle P (y ∷ ys) l zs (_, h) = All-middle P ys l zs h

  pub split_last :
      (t : R) (ts : List R) → (us : List R) × (l : R) × (t ∷ ts ≡ us ++ l ∷ []) × (last_of t ts ≡ l)
  split_last t [] = ([], t, refl, refl)
  split_last t (u ∷ ts) =
      let (us, l, e, same) = split_last u ts in (t ∷ us, l, ap (λ xs. t ∷ xs) e, same)

  module _ (o : IsOrder before) where
    later : (a b : R) → before a b ≡ true → before b a ≡ false
    later a b h = elim (Bool-cases (before b a)) [
      | inl back ↦ absurd (clash (o.irreflexive a) (o.transitive a b a h back))
      | inr e ↦ e
    ]

    other_side : (a b : R) → before a b ≡ false → Apart b a → before b a ≡ true
    other_side a b h (inl up) = up
    other_side a b h (inr down) = absurd (clash h down)

    above :
        (a b : R) (rs : List R)
        → before a b ≡ true
        → All (λ s. before b s ≡ true) rs
        → All (λ s. before a s ≡ true) rs
    above a b rs h = All-map (λ s hs. o.transitive a b s h hs) rs

    Ascending-insert_by :
        (x : R) (rs : List R) → All (Apart x) rs → Ascending rs → Ascending (insert_by before x rs)
    unfolding insert_by
    Ascending-insert_by x [] apart asc = (tt, tt)
    Ascending-insert_by x (r ∷ rs) (apart, aparts) (first, asc) =
        let rest = Ascending-insert_by x rs aparts asc in
        elim (Bool-cases (before r x)) [
          | inl e ↦ rw e (All-insert_by (λ s. before r s ≡ true) x rs e first, rest)
          | inr e ↦
              let up = other_side r x e apart in rw e ((up, above x r rs up first), (first, asc))
        ]

    pub Ascending-order_by : (rs : List R) → Distinct rs → Ascending (order_by before rs)
    unfolding order_by
    Ascending-order_by [] d = tt
    Ascending-order_by (r ∷ rs) (apart, d) =
        Ascending-insert_by r (order_by before rs) (All-order_by (Apart r) rs apart)
          (Ascending-order_by rs d)

    select-insert_by :
        (q : R → Bool) (x : R) (rs : List R)
        → All (Apart x) rs
        → Ascending rs
        → select q (insert_by before x rs)
          ≡ (if q x then insert_by before x (select q rs) else select q rs)
    unfolding insert_by select
    select-insert_by q x [] apart asc = ground arith
    select-insert_by q x (r ∷ rs) (apart, aparts) (first, asc) =
        let rest = select-insert_by q x rs aparts asc in
        elim (Bool-cases (before r x)) [
          | inl e ↦ ground (arith, e, rest)
          | inr e ↦
              let up = other_side r x e apart in
              let all : All (λ s. before s x ≡ false) (select q (r ∷ rs)) =
                All-select_kept (λ s. before s x ≡ false) q (r ∷ rs)
                  (e, All-map (λ s hs. later x s hs) rs (above x r rs up first)) in
              ground (arith, e, insert_by_head x (select q (r ∷ rs)) all)
        ]

    pub Distinct-apart : (q : R → Bool) (rs : List R) → Distinct rs → Distinct (select q rs)
    unfolding select
    Distinct-apart q [] d = tt
    Distinct-apart q (r ∷ rs) (apart, d) =
        let rest = Distinct-apart q rs d in
        let aparts = All-select_kept (Apart r) q rs apart in
        elim (Bool-cases (q r)) [ inl e ↦ rw e (aparts, rest) | inr e ↦ rw e rest ]

    -- Sorting the selected rows is selecting from the sorted rows.
    pub order_by-select :
        (q : R → Bool) (rs : List R)
        → Distinct rs
        → order_by before (select q rs) ≡ select q (order_by before rs)
    unfolding order_by select
    order_by-select q [] d = refl
    order_by-select q (r ∷ rs) (apart, d) =
        let rest = order_by-select q rs d in
        let moved =
          select-insert_by q r (order_by before rs) (All-order_by (Apart r) rs apart)
            (Ascending-order_by rs d) in
        elim (Bool-cases (q r)) [ inl e ↦ rw (moved, e, rest) refl | inr e ↦ rw (moved, e) rest ]

    select-All : (q : R → Bool) (rs : List R) → All (λ s. q s ≡ true) rs → select q rs ≡ rs
    unfolding select
    select-All q [] h = refl
    select-All q (r ∷ rs) (h, hs) = rw (h, select-All q rs hs) refl

    -- What comes after a row of an ascending list is the rest of the list.
    pub cut_after :
        (ys : List R) (l : R) (zs : List R)
        → Ascending (ys ++ l ∷ zs)
        → select (before l) (ys ++ l ∷ zs) ≡ zs
    unfolding select
    cut_after [] l zs (first, _) = rw (o.irreflexive l, select-All (before l) zs first) refl
    cut_after (y ∷ ys) l zs (first, asc) =
        rw (later y l (All-middle (λ s. before y s ≡ true) ys l zs first), cut_after ys l zs asc)
          refl
