-- ===== src/Tables/Bounds.antt =====
-- The caps on filters in src/ezauth/services/tables.py, and the types of what they bind.
use ezauth.Prelude.{
  ℕ, zero, suc, ◌+◌, ◌≤◌, ◌<◌, max, String, Option, none, some, List, [], ◌∷◌, string_eq, ◌≡◌, refl,
  arith, inl, inr,
}
use ezauth.Json.{
  Json, null, bool, int, float, str, arr, obj, nil, cons, elems, Fields, get_field, get_or_null,
}
use ezauth.Outcome.{Result, ok, raised, Result-cases, invalid_filter}
use ezauth.Tables.{ColumnType, CustomColumn, Lib}
use ezauth.Tables.Filter.{
  Expr, Bound, Clause, is_null, is_not_null, compare, all_of, any_of, Clauses, empty, more,
  compile_filter, compile_groups, compile_group, compile_children, compile_condition, compile_op,
  apply_op, resolve_field, coerce_bound_value, max_filter_depth, max_filter_clauses,
}

unfoldable mutual
  -- The conditions of a clause.
  pub conditions : Clause → ℕ
  conditions (is_null e) = 1
  conditions (is_not_null e) = 1
  conditions (compare op e b) = 1
  conditions (all_of cs) = conditions_in cs
  conditions (any_of cs) = conditions_in cs

  pub conditions_in : Clauses → ℕ
  conditions_in empty = 0
  conditions_in (more c cs) = conditions c + conditions_in cs

unfoldable mutual
  -- How deep groups stand in one another.
  pub nesting : Clause → ℕ
  nesting (is_null e) = 0
  nesting (is_not_null e) = 0
  nesting (compare op e b) = 0
  nesting (all_of cs) = suc (nesting_in cs)
  nesting (any_of cs) = suc (nesting_in cs)

  pub nesting_in : Clauses → ℕ
  nesting_in empty = 0
  nesting_in (more c cs) = max (nesting c) (nesting_in cs)

-- What a compilation at `levels` from a count of `n` returns.
abbrev Bounded : ℕ → ℕ → Clause × ℕ → Type 0
Bounded levels n (c, n') = (n' ≡ n + conditions c) × (nesting c < levels) × (n' ≤ 64)

module _ (lib : Lib) (columns : List CustomColumn) where
  apply_op_leaf :
      (e : Expr) (op : String) (v : Option Bound) (c : Clause)
      → apply_op e op v ≡ ok c
      → (conditions c ≡ 1) × (nesting c ≡ 0)
  unfolding apply_op conditions nesting
  apply_op_leaf e op none c h = ground arith
  apply_op_leaf e op (some v) c h = ground arith

  compile_op_leaf :
      (op value : Json) (n : ℕ) (e : Result (Expr × Option ColumnType)) (c : Clause) (n' : ℕ)
      → compile_op lib columns op value n e ≡ ok (c, n')
      → (n' ≡ n) × (conditions c ≡ 1) × (nesting c ≡ 0)
  unfolding compile_op
  compile_op_leaf (str op) value n (ok (e, type)) c n' h =
      elim (Result-cases (coerce_bound_value lib invalid_filter value type)) [
        | inl (err, bad) ↦ absurd (ground (arith, bad))
        | inr (v, bound) ↦ elim (Result-cases (apply_op e op v)) [
          | inl (err, bad) ↦ absurd (ground (arith, bound, bad))
          | inr (d, good) ↦ let leaf = apply_op_leaf e op v d good in ground (arith, bound, good)
        ]
      ]
  compile_op_leaf (str op) value n (raised err) c n' h = cc
  compile_op_leaf null value n e c n' h = cc
  compile_op_leaf (bool b) value n e c n' h = cc
  compile_op_leaf (int b) value n e c n' h = cc
  compile_op_leaf (float b) value n e c n' h = cc
  compile_op_leaf (arr b) value n e c n' h = cc
  compile_op_leaf (obj b) value n e c n' h = cc

  compile_condition-Bounded :
      (name : Option Json) (fs : Fields) (n levels : ℕ) (c : Clause) (n' : ℕ)
      → compile_condition lib columns name fs n ≡ ok (c, n')
      → Bounded (suc levels) n (c, n')
  unfolding compile_condition
  compile_condition-Bounded none fs n levels c n' h = cc
  compile_condition-Bounded (some name) fs n levels c n' h = ground (
    arith,
    compile_op_leaf (get_or_null "op" fs) (get_or_null "value" fs) (n + 1)
        (resolve_field name columns) c n',
  )

  module _ (levels : ℕ) (call : Json → ℕ → Result (Clause × ℕ))
      (bounded : (v : Json) (n : ℕ) (c : Clause) (n' : ℕ)
        → n ≤ 64
        → call v n ≡ ok (c, n')
        → Bounded levels n (c, n')) where
    compile_children_bounds :
        (vs : List Json) (n : ℕ) (cs : Clauses) (n' : ℕ)
        → n ≤ 64
        → compile_children lib columns call vs n ≡ ok (cs, n')
        → (n' ≡ n + conditions_in cs) × (1 ≤ levels → nesting_in cs < levels) × (n' ≤ 64)
    unfolding compile_children conditions nesting
    compile_children_bounds [] n cs n' small h = ground arith
    compile_children_bounds (v ∷ vs) n cs n' small h = elim (Result-cases (call v n)) [
      | inl (e, bad) ↦ absurd (ground (arith, bad))
      | inr ((c, m), good) ↦ elim (Result-cases (compile_children lib columns call vs m)) [
        | inl (e, bad) ↦ absurd (ground (arith, good, bad))
        | inr ((ds, k), more_good) ↦
            let (eq1, deep1, cap1) = bounded v n c m small good in
            let (eq2, deep2, cap2) = compile_children_bounds vs m ds k cap1 more_good in
            ground arith
      ]
    ]

    level_left :
        (v : Json) (vs : List Json) (n : ℕ) (cs : Clauses) (n' : ℕ)
        → n ≤ 64
        → compile_children lib columns call (v ∷ vs) n ≡ ok (cs, n')
        → 1 ≤ levels
    unfolding compile_children
    level_left v vs n cs n' small h = elim (Result-cases (call v n)) [
      | inl (e, bad) ↦ absurd (ground (arith, bad))
      | inr ((c, m), good) ↦ let (eq, deep, cap) = bounded v n c m small good in ground arith
    ]

    compile_group_bounds :
        (combine : Clauses → Clause)
        → ((cs : Clauses)
            → (conditions (combine cs) ≡ conditions_in cs)
              × (nesting (combine cs) ≡ suc (nesting_in cs)))
        → (v : Json) (n : ℕ) (c : Clause) (n' : ℕ) → n ≤ 64
        → compile_group lib columns call combine v n ≡ ok (c, n')
        → Bounded (suc levels) n (c, n')
    unfolding compile_group
    compile_group_bounds combine shape (arr (cons v vs)) n c n' small h =
        elim (Result-cases (compile_children lib columns call (v ∷ elems vs) n)) [
          | inl (e, bad) ↦ absurd (ground (arith, bad))
          | inr ((cs, m), good) ↦
              let (eq, deep, cap) = compile_children_bounds (v ∷ elems vs) n cs m small good in
              let (same, deeper) = shape cs in
              let left = level_left v (elems vs) n cs m small good in ground (arith, good)
        ]
    compile_group_bounds combine shape (arr nil) n c n' small h = cc
    compile_group_bounds combine shape (obj fs) n c n' small h = cc
    compile_group_bounds combine shape null n c n' small h = cc
    compile_group_bounds combine shape (bool b) n c n' small h = cc
    compile_group_bounds combine shape (int b) n c n' small h = cc
    compile_group_bounds combine shape (float b) n c n' small h = cc
    compile_group_bounds combine shape (str b) n c n' small h = cc

    compile_groups_bounds :
        (a b : Json) (fs : Fields) (n : ℕ) (c : Clause) (n' : ℕ)
        → n ≤ 64
        → compile_groups lib columns call a b fs n ≡ ok (c, n')
        → Bounded (suc levels) n (c, n')
    unfolding compile_groups conditions nesting
    compile_groups_bounds null null fs n c n' small h =
        compile_condition-Bounded (get_field "field" fs) fs n levels c n' h
    compile_groups_bounds null (bool x) fs n c n' small h =
        compile_group_bounds any_of (λ cs. (refl, refl)) (bool x) n c n' small h
    compile_groups_bounds null (int x) fs n c n' small h =
        compile_group_bounds any_of (λ cs. (refl, refl)) (int x) n c n' small h
    compile_groups_bounds null (float x) fs n c n' small h =
        compile_group_bounds any_of (λ cs. (refl, refl)) (float x) n c n' small h
    compile_groups_bounds null (str x) fs n c n' small h =
        compile_group_bounds any_of (λ cs. (refl, refl)) (str x) n c n' small h
    compile_groups_bounds null (arr x) fs n c n' small h =
        compile_group_bounds any_of (λ cs. (refl, refl)) (arr x) n c n' small h
    compile_groups_bounds null (obj x) fs n c n' small h =
        compile_group_bounds any_of (λ cs. (refl, refl)) (obj x) n c n' small h
    compile_groups_bounds (bool x) b fs n c n' small h =
        compile_group_bounds all_of (λ cs. (refl, refl)) (bool x) n c n' small h
    compile_groups_bounds (int x) b fs n c n' small h =
        compile_group_bounds all_of (λ cs. (refl, refl)) (int x) n c n' small h
    compile_groups_bounds (float x) b fs n c n' small h =
        compile_group_bounds all_of (λ cs. (refl, refl)) (float x) n c n' small h
    compile_groups_bounds (str x) b fs n c n' small h =
        compile_group_bounds all_of (λ cs. (refl, refl)) (str x) n c n' small h
    compile_groups_bounds (arr x) b fs n c n' small h =
        compile_group_bounds all_of (λ cs. (refl, refl)) (arr x) n c n' small h
    compile_groups_bounds (obj x) b fs n c n' small h =
        compile_group_bounds all_of (λ cs. (refl, refl)) (obj x) n c n' small h

  compile_filter-Bounded :
      (levels : ℕ) (spec : Json) (n : ℕ) (c : Clause) (n' : ℕ)
      → n ≤ 64
      → compile_filter lib columns levels spec n ≡ ok (c, n')
      → Bounded levels n (c, n')
  unfolding compile_filter
  compile_filter-Bounded zero spec n c n' small h = cc
  compile_filter-Bounded (suc levels) (obj fs) n c n' small h =
      compile_groups_bounds levels (compile_filter lib columns levels)
        (compile_filter-Bounded levels) (get_or_null "and" fs) (get_or_null "or" fs) fs n c n' small
        h
  compile_filter-Bounded (suc levels) null n c n' small h = cc
  compile_filter-Bounded (suc levels) (bool b) n c n' small h = cc
  compile_filter-Bounded (suc levels) (int b) n c n' small h = cc
  compile_filter-Bounded (suc levels) (float b) n c n' small h = cc
  compile_filter-Bounded (suc levels) (str b) n c n' small h = cc
  compile_filter-Bounded (suc levels) (arr b) n c n' small h = cc

  -- A filter that compiles has at most 64 conditions, in groups at most 8 deep, and was counted right.
  pub compile_filter_bounds :
      (spec : Json) (c : Clause) (n : ℕ)
      → compile_filter lib columns (max_filter_depth + 1) spec 0 ≡ ok (c, n)
      → (conditions c ≤ max_filter_clauses) × (nesting c ≤ max_filter_depth) × (n ≡ conditions c)
  compile_filter_bounds spec c n h =
      let (eq, deep, cap) =
        compile_filter-Bounded (max_filter_depth + 1) spec 0 c n (omega arith) h in
      ground arith
