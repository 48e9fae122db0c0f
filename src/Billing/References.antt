-- ===== src/Billing/References.antt =====
-- The provider references of src/ezauth/services/billing.py: a payment is credited once.
use ezauth.Prelude.{
  ℕ, String, true, false, Option, none, some, List, [], ◌∷◌, ◌++◌, ◌==◌, ==_iff, nat_eq, string_eq,
  option_eq, ◌≡◌, ◌≢◌, refl, subst, any, any-append, arith, Bool-cases, inl, inr,
}
use ezauth.Prelude.Int.{ℤ, pos, ◌+ℤ◌, ltb_ℤ}
use ezauth.Models.{truthy}
use ezauth.Outcome.{ok, raise_if, value_error, ◌>>=◌, bind-ok}
use ezauth.Billing.{
  BillingAccount, BillingTransaction, Ledger, NewEntry, lock_account, new_entry, write_entry,
  commit_others, insert_credit, credit_locked, credit, ref_seen, has_ref,
}

truthy-some : (ref : String) → ref ≢ "" → truthy (some ref) ≡ some ref
unfolding truthy
truthy-some ref h = elim (Bool-cases (ref == "")) [
  | inl empty ↦ absurd (h ((==_iff ref "").0 empty))
  | inr full ↦ rw full refl
]

seen_last :
    (ref : String) (rows : List BillingTransaction) (t : BillingTransaction)
    → ref ≢ ""
    → t.provider_ref ≡ some ref
    → ref_seen (some ref) (rows ++ t ∷ []) ≡ true
unfolding ref_seen
seen_last ref rows t h e =
    rw (truthy-some ref h, any-append (has_ref (some ref)) rows (t ∷ []))
      (unfold has_ref in rw ((==_iff t.provider_ref (some ref)).1 e) (ground arith))

module _ (e : NewEntry) (ref : String) (amount : ℤ) (same : e.provider_ref ≡ some ref)
    (h : ref ≢ "") where
  insert_credit_seen :
      (account : BillingAccount) (l : Ledger)
      → ref_seen (some ref) (insert_credit e account amount l).1.transactions ≡ true
  unfolding insert_credit
  insert_credit_seen account l = elim (Bool-cases (any (has_ref e.provider_ref) l.transactions)) [
    | inl taken ↦
        rw (insert_credit, taken)
          (unfold ref_seen in
            rw (truthy-some ref h) (subst (λ o. any (has_ref o) l.transactions ≡ true) same taken))
    | inr free ↦
        rw (insert_credit, free)
          (unfold write_entry in
            seen_last ref l.transactions
              (new_entry e account amount (account.balance_cents +ℤ amount)) h
              (unfold new_entry in same))
  ]

  credit_locked_seen :
      (arrived : List BillingTransaction) (account : BillingAccount) (l : Ledger)
      → ref_seen (some ref) (credit_locked arrived e amount account l).1.transactions ≡ true
  unfolding credit_locked
  credit_locked_seen arrived account l =
      elim (Bool-cases (ref_seen e.provider_ref l.transactions)) [
        | inl seen ↦
            rw (credit_locked, seen) (subst (λ o. ref_seen o l.transactions ≡ true) same seen)
        | inr fresh ↦
            rw (credit_locked, fresh) (insert_credit_seen account (commit_others arrived l))
      ]

  credit_seen :
      (arrived : List BillingTransaction) (id : ℕ) (l : Ledger) (r : Option BillingTransaction)
      → (credit arrived e id amount l).0 ≡ ok r
      → ref_seen (some ref) (credit arrived e id amount l).1.transactions ≡ true
  unfolding credit
  credit_seen arrived id l r done =
      let (_, _, ran) =
        bind-ok (raise_if (ltb_ℤ amount (pos 0)) value_error)
          (λ _. lock_account id >>= credit_locked arrived e amount) l r done in
      let done' : ((lock_account id >>= credit_locked arrived e amount) l).0 ≡ ok r =
        subst (λ x. x.0 ≡ ok r) ran done in
      let (account, _, ran') =
        bind-ok (lock_account id) (credit_locked arrived e amount) l r done' in
      rw (ran, ran') (credit_locked_seen arrived account (lock_account id l).1)

-- A reference is credited once: after a credit with a reference that returned, whether it wrote
-- the entry or found it, a second credit with the same reference, of any amount that is not negative
-- and to any account that the lock finds, returns no entry and changes nothing. The reference is not
-- the empty text, which the lookup takes for none.
pub credit-once :
    (e e' : NewEntry) (ref : String) (amount amount' : ℤ)
    (arrived arrived' : List BillingTransaction) (id id' : ℕ) (l : Ledger)
    (r : Option BillingTransaction) (account : BillingAccount)
    → e.provider_ref ≡ some ref
    → e'.provider_ref ≡ some ref
    → ref ≢ ""
    → (credit arrived e id amount l).0 ≡ ok r
    → let l' = (credit arrived e id amount l).1 in
      ltb_ℤ amount' (pos 0) ≡ false
      → (lock_account id' l').0 ≡ ok account
      → credit arrived' e' id' amount' l' ≡ (ok none, l')
unfolding lock_account credit
credit-once e e' ref amount amount' arrived arrived' id id' l r account same same' h done fine
      found =
    let seen = credit_seen e ref amount same h arrived id l r done in
    rw (credit, fine, found, credit_locked, same', seen) refl
