-- ===== src/Prelude/Rows.antt =====
-- The statements that the program sends to the database, over a table as a list of rows in the
-- order in which the database returns them.
use Prim.Native.Nat.{ℕ, suc}
use mathlib.Core.Bool.{Bool, not}
use mathlib.Core.Option.{Option, none, some}
use mathlib.Core.List.{List, [], ◌∷◌}
use ezauth.Prelude.Tests.{if◌then◌else◌}

module _ {ℓ} {R : Type ℓ} where
  -- SELECT … WHERE p
  unfoldable pub select : (R → Bool) → List R → List R
  select p [] = []
  select p (r ∷ rs) = let rest = select p rs in if p r then r ∷ rest else rest

  -- the first row of SELECT … WHERE p, if any
  unfoldable pub first : (R → Bool) → List R → Option R
  first p [] = none
  first p (r ∷ rs) = if p r then some r else first p rs

  -- UPDATE … SET f WHERE p
  unfoldable pub update : (R → Bool) → (R → R) → List R → List R
  update p f [] = []
  update p f (r ∷ rs) = (if p r then f r else r) ∷ update p f rs

  -- how many rows a statement with WHERE p touches
  unfoldable pub row_count : (R → Bool) → List R → ℕ
  row_count p [] = 0
  row_count p (r ∷ rs) = if p r then suc (row_count p rs) else row_count p rs

  -- DELETE … WHERE p
  unfoldable pub delete : (R → Bool) → List R → List R
  delete p rs = select (λ r. not (p r)) rs

  -- ORDER BY: rows of which neither comes before the other keep their order.
  unfoldable pub insert_by : (R → R → Bool) → R → List R → List R
  insert_by before x [] = x ∷ []
  insert_by before x (r ∷ rs) = if before r x then r ∷ insert_by before x rs else x ∷ r ∷ rs

  unfoldable pub order_by : (R → R → Bool) → List R → List R
  unfolding insert_by
  order_by before [] = []
  order_by before (r ∷ rs) = insert_by before r (order_by before rs)
