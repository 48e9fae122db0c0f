-- ===== src/Tables/Order.antt =====
-- The order and the keyset of a query in src/ezauth/services/tables.py.
use ezauth.Prelude.{
  ℕ, ◌⊎◌, nat_eq, Bool, true, false, Option, none, some, ◌==◌, ==_iff, string_eq, if◌then◌else◌,
  ◌≡◌, refl, arith, inl, inr,
}
use ezauth.Prelude.Paging.{IsOrder, Apart}
use ezauth.Tables.{CustomRow}
use ezauth.Tables.Filter.{Expr, Bound}
use ezauth.Tables.Selects.{Sql, value_of}
use ezauth.Tables.Query.{null_lt, row_before, keyset_predicate}

-- The database compares values by a strict order with an equality.
pub record SqlLaws (sql : Sql) : Type 0 where
  pub irreflexive : (v : Bound) → sql.less v v ≡ false
  pub transitive : (u v w : Bound) → sql.less u v ≡ true → sql.less v w ≡ true → sql.less u w ≡ true
  pub symmetric : (v w : Bound) → sql.same v w ≡ sql.same w v
  pub same_transitive :
      (u v w : Bound) → sql.same u v ≡ true → sql.same v w ≡ true → sql.same u w ≡ true
  pub less_left : (u v w : Bound) → sql.same u v ≡ true → sql.less u w ≡ sql.less v w
  pub less_right : (u v w : Bound) → sql.same v w ≡ true → sql.less u v ≡ sql.less u w
  pub total :
      (v w : Bound) → (sql.same v w ≡ true) ⊎ ((sql.less v w ≡ true) ⊎ (sql.less w v ≡ true))

module _ (sql : Sql) (laws : SqlLaws sql) where
  null_lt_irreflexive : (a : Option Bound) (i : ℕ) → null_lt sql a i a i ≡ false
  unfolding null_lt
  null_lt_irreflexive none i = ground arith
  null_lt_irreflexive (some v) i = ground (arith, laws.irreflexive v)

  null_lt_transitive :
      (a b c : Option Bound) (i j k : ℕ)
      → null_lt sql a i b j ≡ true
      → null_lt sql b j c k ≡ true
      → null_lt sql a i c k ≡ true
  unfolding null_lt
  null_lt_transitive (some u) (some v) (some w) i j k h h' = ground (
    arith,
    laws.transitive u v w,
    laws.same_transitive u v w,
    laws.less_left u v w,
    laws.less_right u v w,
  )
  null_lt_transitive (some u) b none i j k h h' = refl
  null_lt_transitive (some u) none (some w) i j k h h' = ground arith
  null_lt_transitive none (some v) c i j k h h' = ground arith
  null_lt_transitive none none (some w) i j k h h' = ground arith
  null_lt_transitive none none none i j k h h' = ground arith

  pub row_before-IsOrder : (desc : Bool) (e : Expr) → IsOrder (row_before sql desc e)
  unfolding row_before
  row_before-IsOrder true e = record {
    irreflexive = λ a. null_lt_irreflexive (value_of sql e a) a.id;
    transitive = λ a b c h h'.
        null_lt_transitive (value_of sql e c) (value_of sql e b) (value_of sql e a) c.id b.id a.id
          h' h;
  }
  row_before-IsOrder false e = record {
    irreflexive = λ a. null_lt_irreflexive (value_of sql e a) a.id;
    transitive = λ a b c h h'.
        null_lt_transitive (value_of sql e a) (value_of sql e b) (value_of sql e c) a.id b.id c.id h
          h';
  }

  null_lt_total :
      (a b : Option Bound) (i j : ℕ)
      → (j == i) ≡ false
      → (null_lt sql a i b j ≡ true) ⊎ (null_lt sql b j a i ≡ true)
  unfolding null_lt
  null_lt_total none none i j h = ground (arith, ==_iff j i)
  null_lt_total none (some w) i j h = inr refl
  null_lt_total (some v) none i j h = inl refl
  null_lt_total (some v) (some w) i j h = elim (laws.total v w) [
    | inl same ↦ let back = laws.symmetric v w in ground (arith, ==_iff j i)
    | inr (inl first) ↦ inl (rw first refl)
    | inr (inr last) ↦ inr (rw last refl)
  ]

  pub row_before-Apart :
      (desc : Bool) (e : Expr) (a b : CustomRow)
      → (b.id == a.id) ≡ false
      → Apart (row_before sql desc e) a b
  unfolding row_before
  row_before-Apart true e a b h =
      elim (null_lt_total (value_of sql e a) (value_of sql e b) a.id b.id h) [
        | inl l ↦ inr l
        | inr r ↦ inl r
      ]
  row_before-Apart false e a b h = null_lt_total (value_of sql e a) (value_of sql e b) a.id b.id h

  keyset_null_lt :
      (desc : Bool) (c v : Option Bound) (i j : ℕ)
      → keyset_predicate sql desc c i v j
        ≡ (if desc then null_lt sql v j c i else null_lt sql c i v j)
  unfolding keyset_predicate null_lt
  keyset_null_lt true none none i j = refl
  keyset_null_lt true none (some v) i j = refl
  keyset_null_lt true (some c) none i j = refl
  keyset_null_lt true (some c) (some v) i j = refl
  keyset_null_lt false none none i j = refl
  keyset_null_lt false none (some v) i j = refl
  keyset_null_lt false (some c) none i j = refl
  keyset_null_lt false (some c) (some v) i j = rw (laws.symmetric v c) refl

  pub keyset_predicate-row_before :
      (desc : Bool) (e : Expr) (l r : CustomRow)
      → keyset_predicate sql desc (value_of sql e l) l.id (value_of sql e r) r.id
        ≡ row_before sql desc e l r
  unfolding row_before
  keyset_predicate-row_before true e l r =
      keyset_null_lt true (value_of sql e l) (value_of sql e r) l.id r.id
  keyset_predicate-row_before false e l r =
      keyset_null_lt false (value_of sql e l) (value_of sql e r) l.id r.id
