-- ===== src/Prelude/Keyed.antt =====
-- Rows whose ids are a primary key leave no ties in an order that compares ids last.
use Prim.Native.Nat.{ℕ, ◌≤◌}
use mathlib.Core.Path.{◌≡◌}
use mathlib.Core.Bool.{Bool, false}
use mathlib.Core.List.{List, [], ◌∷◌}
use native.Mathlib.Omega.{arith}
use ezauth.Prelude.Equality.{◌==◌, nat_eq, ==_iff}
use ezauth.Prelude.Rows.{row_count}
use ezauth.Prelude.RowLaws.{All-map, row_count_zero-All}
use ezauth.Prelude.Paging.{Distinct, Apart}

module _ {ℓ} {R : Type ℓ} (id : R → ℕ) where
  -- No two rows have the same id.
  abbrev pub Keyed : List R → Type 0
  Keyed rows = (i : ℕ) → row_count (λ r. id r == i) rows ≤ 1

  Keyed-tail : (r : R) (rows : List R) → Keyed (r ∷ rows) → Keyed rows
  unfolding row_count
  Keyed-tail r rows k i = ground (arith, k i)

  others : (r : R) (rows : List R) → Keyed (r ∷ rows) → row_count (λ s. id s == id r) rows ≡ 0
  unfolding row_count
  others r rows k = ground (arith, k (id r), ==_iff (id r) (id r))

  pub Keyed-Distinct :
      (before : R → R → Bool)
      → ((r s : R) → (id s == id r) ≡ false → Apart before r s)
      → (rows : List R) → Keyed rows
      → Distinct before rows
  Keyed-Distinct before total [] k = tt
  Keyed-Distinct before total (r ∷ rows) k = (
    All-map (λ s other. total r s other) rows
        (row_count_zero-All (λ s. id s == id r) rows (others r rows k)),
    Keyed-Distinct before total rows (Keyed-tail r rows k),
  )
