-- ===== src/Tables/Conforms.antt =====
-- The payloads that src/ezauth/services/tables.py stores: keys of columns, values of their types.
use ezauth.Prelude.{
  String, true, Option, none, some, List, [], ◌∷◌, ◌==◌, string_eq, ==_iff, All, ◌≡◌, sym, subst,
  arith, inl, inr, Bool-cases, Option-cases,
}
use ezauth.Json.{Json}
use ezauth.Outcome.{ok, Result-cases}
use ezauth.Tables.{CustomColumn, Payload, Lib, column_named, lookup, set_key, merge}
use ezauth.Tables.Values.{
  coerce_value, set_coerced, set_all, default_step, set_defaults, validate_row_data,
  validate_row_data_partial,
}
use ezauth.Tables.Types.{fits, coerce_value-has_known_type}

-- Every key of the payload is a column's, and every value of its column's type.
abbrev pub Conforms : Lib → List CustomColumn → Payload → Type 0
Conforms lib columns p = All (λ entry. fits lib (column_named entry.0 columns) entry.1 ≡ true) p

-- The default of every column would fit it, which no operation checks.
abbrev pub DefaultsFit : Lib → List CustomColumn → Type 0
DefaultsFit lib columns =
    All
      (λ (c : CustomColumn).
        (v : Json) → c.default_value ≡ some v → fits lib (column_named c.name columns) v ≡ true)
      columns

module _ (lib : Lib) where
  module _ (columns : List CustomColumn) where
    set_key-Conforms :
        (key : String) (v : Json) (p : Payload)
        → fits lib (column_named key columns) v ≡ true
        → Conforms lib columns p
        → Conforms lib columns (set_key key v p)
    unfolding set_key
    set_key-Conforms key v [] h hs = (h, tt)
    set_key-Conforms key v ((k, w) ∷ p) h (here, there) = elim (Bool-cases (k == key)) [
      | inl same ↦ rw same (
        subst (λ x. fits lib (column_named x columns) v ≡ true) (sym ((==_iff k key).0 same)) h,
        there,
      )
      | inr other ↦ rw other (here, set_key-Conforms key v p h there)
    ]

    merge-Conforms :
        (d e : Payload)
        → Conforms lib columns d
        → Conforms lib columns e
        → Conforms lib columns (merge d e)
    unfolding merge
    merge-Conforms d [] h hs = h
    merge-Conforms d ((k, v) ∷ e) h (here, there) =
        merge-Conforms (set_key k v d) e (set_key-Conforms k v d here h) there

    set_coerced-Conforms :
        (key : String) (v : Json) (p q : Payload)
        → Conforms lib columns p
        → set_coerced lib key v (column_named key columns) p ≡ ok q
        → Conforms lib columns q
    unfolding set_coerced fits
    set_coerced-Conforms key v p q hs h = elim (Option-cases (column_named key columns)) [
      | inl none_named ↦ absurd (ground (arith, none_named))
      | inr (c, named) ↦ elim (Result-cases (coerce_value lib v c.type c.required)) [
        | inl (e, bad) ↦ absurd (ground (arith, named, bad))
        | inr (w, good) ↦
            let is : set_key key w p ≡ q = ground (arith, named, good) in
            let typed : fits lib (column_named key columns) w ≡ true =
              rw named (coerce_value-has_known_type lib v w c.type c.required good) in
            subst (Conforms lib columns) is (set_key-Conforms key w p typed hs)
      ]
    ]

    set_all-Conforms :
        (items p q : Payload)
        → Conforms lib columns p
        → set_all lib columns items p ≡ ok q
        → Conforms lib columns q
    unfolding set_all
    set_all-Conforms [] p q hs h = subst (Conforms lib columns) (ground arith) hs
    set_all-Conforms ((key, v) ∷ items) p q hs h =
        elim (Result-cases (set_coerced lib key v (column_named key columns) p)) [
          | inl (e, bad) ↦ absurd (ground (arith, bad))
          | inr (m, good) ↦
              set_all-Conforms items m q (set_coerced-Conforms key v p m hs good)
                (ground (arith, good))
        ]

    default_step-Conforms :
        (c : CustomColumn) (given : Option Json) (p q : Payload)
        → ((v : Json) → c.default_value ≡ some v → fits lib (column_named c.name columns) v ≡ true)
        → Conforms lib columns p
        → default_step c given p ≡ ok q
        → Conforms lib columns q
    unfolding default_step
    default_step-Conforms c (some v) p q fit hs h = subst (Conforms lib columns) (ground arith) hs
    default_step-Conforms c none p q fit hs h = elim (Option-cases c.default_value) [
      | inl absent ↦ subst (Conforms lib columns) (ground (arith, absent)) hs
      | inr (v, is) ↦
          subst (Conforms lib columns) (ground (arith, is))
            (set_key-Conforms c.name v p (fit v is) hs)
    ]

    set_defaults-Conforms :
        (cols : List CustomColumn) (items p q : Payload)
        → All
            (λ (c : CustomColumn).
              (v : Json)
              → c.default_value ≡ some v
              → fits lib (column_named c.name columns) v ≡ true)
            cols
        → Conforms lib columns p
        → set_defaults cols items p ≡ ok q
        → Conforms lib columns q
    unfolding set_defaults
    set_defaults-Conforms [] items p q fit hs h = subst (Conforms lib columns) (ground arith) hs
    set_defaults-Conforms (c ∷ cols) items p q (fit, fits_rest) hs h =
        elim (Result-cases (default_step c (lookup c.name items) p)) [
          | inl (e, bad) ↦ absurd (ground (arith, bad))
          | inr (m, good) ↦
              set_defaults-Conforms cols items m q fits_rest
                (default_step-Conforms c (lookup c.name items) p m fit hs good)
                (ground (arith, good))
        ]

    pub validate_row_data-Conforms :
        (items q : Payload)
        → DefaultsFit lib columns
        → validate_row_data lib items columns ≡ ok q
        → Conforms lib columns q
    unfolding validate_row_data
    validate_row_data-Conforms items q fit h = elim (Result-cases (set_defaults columns items [])) [
      | inl (e, bad) ↦ absurd (ground (arith, bad))
      | inr (m, good) ↦
          set_all-Conforms items m q (set_defaults-Conforms columns items [] m fit tt good)
            (ground (arith, good))
    ]

    pub merged-Conforms :
        (old items q : Payload)
        → Conforms lib columns old
        → validate_row_data_partial lib items columns ≡ ok q
        → Conforms lib columns (merge old q)
    unfolding validate_row_data_partial
    merged-Conforms old items q hs h = merge-Conforms old q hs (set_all-Conforms items [] q tt h)
