-- ===== src/Prelude/Pages.antt =====
-- Reading every page of a keyset pagination.
use Prim.Native.Nat.{ℕ, zero, suc, ◌≤◌, ◌<◌}
use mathlib.Core.Path.{◌≡◌, refl, sym, ap, subst, ◌∙◌}
use mathlib.Core.Bool.{Bool, true, ◌&&◌}
use mathlib.Core.Logic.{inl, inr}
use mathlib.Core.Option
use mathlib.Core.Option.{Option, none, some}
use mathlib.Core.List.{List, [], ◌∷◌, ◌++◌, append_assoc}
use native.Mathlib.Omega.{arith}
use ezauth.Prelude.Tests.{ltb, Bool-cases}
use ezauth.Prelude.Lists.{length, take, All}
use ezauth.Prelude.Rows.{select, order_by}
use ezauth.Prelude.RowLaws.{All-always, select-select}
use ezauth.Prelude.Paging.{
  IsOrder, Ascending, Distinct, Ascending-order_by, order_by-select, All-order_by, All-select_kept,
  cut_after, split_last, All-middle, Distinct-apart, take-drop, length-drop, drop, last?, cut_page,
}

abbrev join_page {ℓ} : {R : Type ℓ} → List R → Option (List R) → Option (List R)
join_page rs none = none
join_page rs (some more) = some (rs ++ more)

module _ {ℓ κ} {R : Type ℓ} {C : Type κ} where
  -- A client that reads page after page, from the cursor that each page returns, until a page
  -- returns no cursor. It is none where a page is refused, and where the last of `fuel` pages still
  -- returns a cursor.
  unfoldable pub read_pages :
      (Option C → Option (List R × Option C)) → ℕ → Option C → Option (List R)
  read_pages page zero c = none
  read_pages page (suc fuel) c = elim (page c) [
    | none ↦ none
    | some (rs, none) ↦ some rs
    | some (rs, some k) ↦ join_page rs (read_pages page fuel (some k))
  ]

  abbrev pub from_cursor : (C → R → Bool) → Option C → R → Bool
  from_cursor after none r = true
  from_cursor after (some k) r = after k r

pub select-same {ℓ} :
    {R : Type ℓ} (p q : R → Bool) (rs : List R)
    → All (λ r. p r ≡ q r) rs
    → select p rs ≡ select q rs
unfolding select
select-same p q [] h = refl
select-same p q (r ∷ rs) (h, hs) = rw (h, select-same p q rs hs) refl

module _ {ℓ κ} {R : Type ℓ} {C : Type κ} (before : R → R → Bool) (o : IsOrder before) (p : R → Bool)
    (after : C → R → Bool) (cursor_of : R → C) (limit : ℕ) (rows : List R) where
  -- The rows that a query from a cursor finds, in order.
  abbrev found : Option C → List R
  found c = order_by before (select (λ r. p r && from_cursor after c r) rows)

  -- A page: at most `limit` of the rows found, and a cursor where there are more.
  abbrev pub page_of : Option C → List R × Option C
  page_of c = let (rs, next) = cut_page limit (found c) in (rs, Option.map cursor_of next)

  -- The cursor of a row of the table stands for the rows after it.
  abbrev pub Agrees : Type 0
  Agrees = All (λ l. All (λ r. after (cursor_of l) r ≡ before l r) rows) rows

  found-after :
      Distinct before rows
      → (ys : List R) (l : R) (zs : List R) → All (λ r. after (cursor_of l) r ≡ before l r) rows
      → order_by before (select p rows) ≡ ys ++ l ∷ zs
      → found (some (cursor_of l)) ≡ zs
  found-after d ys l zs agree e =
      rw
        (
          sym (select-select p (after (cursor_of l)) rows),
          order_by-select before o (after (cursor_of l)) (select p rows)
              (Distinct-apart before o p rows d),
          select-same (after (cursor_of l)) (before l) (order_by before (select p rows)) (
              All-order_by before (λ r. after (cursor_of l) r ≡ before l r) (select p rows)
                (All-select_kept before (λ r. after (cursor_of l) r ≡ before l r) p rows agree)),
          e,
        )
        (cut_after before o ys l zs (
          subst (Ascending before) e
            (Ascending-order_by before o (select p rows) (Distinct-apart before o p rows d))))

  take_split :
      (n : ℕ) (zs : List R)
      → 1 ≤ n
      → n < length zs
      → (us : List R) × (l : R) × (take n zs ≡ us ++ l ∷ []) × (last? (take n zs) ≡ some l)
  take_split zero zs pos more = absurd (omega arith)
  take_split (suc n) [] pos more = absurd (omega arith)
  take_split (suc n) (z ∷ zs) pos more =
      let (us, l, e, same) = split_last before z (take n zs) in (us, l, e, ap (λ x. some x) same)

  abbrev zs_before : List R → R → List R
  zs_before us l = us ++ l ∷ []

  shift :
      (ys us : List R) (l : R) (rest : List R)
      → (ys ++ us) ++ l ∷ rest ≡ (ys ++ zs_before us l) ++ rest
  shift ys us l rest = simp append_assoc

  -- What holds of every row of the table holds of the rows that were sorted.
  at_row {μ} :
      (P : R → Type μ) (ys : List R) (l : R) (zs : List R)
      → order_by before (select p rows) ≡ ys ++ l ∷ zs
      → All P rows
      → P l
  at_row P ys l zs whole all = All-middle before P ys l zs (
      subst (All P) whole
        (All-order_by before P (select p rows) (All-select_kept before P p rows all)))

  -- The pages read from a cursor that stands for the rest `zs` of the sorted rows are `zs`.
  read_rest :
      (page : Option C → Option (List R × Option C))
      → All (λ l. page (some (cursor_of l)) ≡ some (page_of (some (cursor_of l)))) rows
      → 1 ≤ limit
      → Distinct before rows
      → Agrees
      → (fuel : ℕ) (c : Option C) (ys zs : List R) → page c ≡ some (page_of c)
      → found c ≡ zs
      → order_by before (select p rows) ≡ ys ++ zs
      → length zs < fuel
      → read_pages page fuel c ≡ some zs
  unfolding read_pages cut_page
  read_rest page same pos d agree zero c ys zs here e whole enough = absurd (omega arith)
  read_rest page same pos d agree (suc fuel) c ys zs here e whole enough =
      elim (Bool-cases (ltb limit (length zs))) [
        | inl more ↦
            let (us, l, cut, last) = take_split limit zs pos (ground arith) in
            let rest : List R = drop limit zs in
            let all : zs ≡ us ++ l ∷ rest =
              sym (take-drop limit zs) ∙ ap (λ t. t ++ rest) cut ∙ append_assoc us (l ∷ []) rest in
            let whole' : order_by before (select p rows) ≡ (ys ++ us) ++ l ∷ rest =
              whole ∙ ap (λ t. ys ++ t) all ∙ sym (append_assoc ys us (l ∷ rest)) in
            let agree_l : All (λ r. after (cursor_of l) r ≡ before l r) rows =
              at_row (λ x. All (λ r. after (cursor_of x) r ≡ before x r) rows) (ys ++ us) l rest
                whole' agree in
            let same_l : page (some (cursor_of l)) ≡ some (page_of (some (cursor_of l))) =
              at_row (λ x. page (some (cursor_of x)) ≡ some (page_of (some (cursor_of x))))
                (ys ++ us) l rest whole' same in
            let rec : read_pages page fuel (some (cursor_of l)) ≡ some rest =
              read_rest page same pos d agree fuel (some (cursor_of l)) (ys ++ zs_before us l) rest
                same_l (found-after d (ys ++ us) l rest agree_l whole')
                (whole' ∙ shift ys us l rest)
                (omega (arith, length-drop limit zs (ground arith))) in
            let cut_here : page_of c ≡ (take limit zs, some (cursor_of l)) =
              rw (e, more, last) refl in
            rw (read_pages, here ∙ ap (λ x. some x) cut_here, rec)
              (ap (λ t. some t) (take-drop limit zs))
        | inr done ↦
            let all_here : page_of c ≡ (zs, none) = rw (e, done) refl in
            rw (read_pages, here ∙ ap (λ x. some x) all_here) refl
      ]

  -- Reading page after page from the start gives the sorted rows, each once, and comes to a page
  -- without a cursor: where the first page and those from a row's cursor are as above, a page holds
  -- at least one row, the order is strict and leaves no ties, and cursors stand for the rows after
  -- them.
  pub read_pages-order_by :
      (page : Option C → Option (List R × Option C))
      → page none ≡ some (page_of none)
      → All (λ l. page (some (cursor_of l)) ≡ some (page_of (some (cursor_of l)))) rows
      → 1 ≤ limit
      → Distinct before rows
      → Agrees
      → (fuel : ℕ) → length (order_by before (select p rows)) < fuel
      → read_pages page fuel none ≡ some (order_by before (select p rows))
  read_pages-order_by page start same pos d agree fuel enough =
      read_rest page same pos d agree fuel none [] (order_by before (select p rows)) start
        (ap (order_by before)
          (select-same (λ r. p r && true) p rows (All-always (λ r. ground arith) rows)))
        refl enough
