-- ===== src/Billing/Balance.antt =====
-- The balances of src/ezauth/services/billing.py.
use ezauth.Prelude.{
  ℕ, none, List, [], ◌∷◌, ◌++◌, ◌==◌, ==_iff, nat_eq, ◌≡◌, ◌≢◌, refl, sym, if◌then◌else◌, any,
  first, first_holds, arith, All, All-update, Bool-cases, inl, inr, clash, All-first, subst,
  Option-cases,
}
use ezauth.Prelude.Int.{ℤ, pos, ◌+ℤ◌, ◌-ℤ◌, ltb_ℤ, +ℤ_parts, -ℤ_parts, eq_of_parts}
use ezauth.Outcome.{ok, bind-Result}
use ezauth.Billing.{
  BillingAccount, BillingTransaction, Ledger, NewEntry, lock_account, one_account, new_entry,
  credited, charged, write_entry, commit_others, insert_credit, credit_locked, credit, charge,
  ref_seen, has_ref,
}

-- The sum of the entries of a tenant.
unfoldable pub total : ℕ → List BillingTransaction → ℤ
total tenant [] = pos 0
total tenant (t ∷ ts) =
    let rest = total tenant ts in if t.tenant_id == tenant then t.amount_cents +ℤ rest else rest

+ℤ_assoc_last : (a b c d : ℤ) → d ≡ b +ℤ c → a +ℤ d ≡ a +ℤ b +ℤ c
+ℤ_assoc_last a b c d h =
    eq_of_parts (a +ℤ d) (a +ℤ b +ℤ c)
      (rw h (omega (arith, +ℤ_parts a (b +ℤ c), +ℤ_parts b c, +ℤ_parts (a +ℤ b) c, +ℤ_parts a b)))

total-last :
    (tenant : ℕ) (rows : List BillingTransaction) (t : BillingTransaction)
    → t.tenant_id ≡ tenant
    → total tenant (rows ++ t ∷ []) ≡ total tenant rows +ℤ t.amount_cents
unfolding total
total-last tenant [] t own = rw ((==_iff t.tenant_id tenant).1 own) (
    eq_of_parts (t.amount_cents +ℤ pos 0) (pos 0 +ℤ t.amount_cents)
      (omega (arith, +ℤ_parts t.amount_cents (pos 0), +ℤ_parts (pos 0) t.amount_cents)))
total-last tenant (r ∷ rows) t own =
    let rest = total-last tenant rows t own in
    elim (Bool-cases (r.tenant_id == tenant)) [
      | inl hit ↦ rw hit (
          +ℤ_assoc_last r.amount_cents (total tenant rows) t.amount_cents
            (total tenant (rows ++ t ∷ [])) rest)
      | inr miss ↦ rw miss rest
    ]

total-others :
    (tenant : ℕ) (rows arrived : List BillingTransaction)
    → All (λ t. t.tenant_id ≢ tenant) arrived
    → total tenant (rows ++ arrived) ≡ total tenant rows
unfolding total
total-others tenant [] [] h = refl
total-others tenant [] (t ∷ arrived) (other, others) =
    ground (arith, total-others tenant [] arrived others, other)
total-others tenant (r ∷ rows) arrived h = rw (total-others tenant rows arrived h) refl

-- The books of a tenant: its account is the one with the id, and the balance of the account is the
-- sum of the tenant's entries.
abbrev pub Books : ℕ → ℕ → Ledger → Type 0
Books tenant id l =
    All
      (λ (a : BillingAccount).
        (a.id ≡ id → a.tenant_id ≡ tenant)
        × (a.tenant_id ≡ tenant → (a.id ≡ id) × (a.balance_cents ≡ total tenant l.transactions)))
      l.accounts

write_entry-Books :
    (tenant id : ℕ) (change : BillingAccount → BillingAccount) (entry : BillingTransaction)
    (l : Ledger)
    → ((a : BillingAccount) → (change a).id ≡ a.id)
    → ((a : BillingAccount) → (change a).tenant_id ≡ a.tenant_id)
    → ((a : BillingAccount) → (change a).balance_cents ≡ a.balance_cents +ℤ entry.amount_cents)
    → entry.tenant_id ≡ tenant
    → Books tenant id l
    → Books tenant id (write_entry id change entry l)
unfolding write_entry
write_entry-Books tenant id change entry l same_id same_tenant adds of_tenant books =
    rw (total-last tenant l.transactions entry of_tenant) (
      All-update (λ (a : BillingAccount). a.id == id) change
        (λ a hit b.
          rw (same_id a, same_tenant a, adds a) (b.0, λ own. ((b.1 own).0, rw (b.1 own).1 refl)))
        (λ a miss b. (b.0, λ own. absurd (clash miss ((==_iff a.id id).1 (b.1 own).0)))) l.accounts
        books)

commit_others-Books :
    (tenant id : ℕ) (arrived : List BillingTransaction) (l : Ledger)
    → All (λ t. t.tenant_id ≢ tenant) arrived
    → Books tenant id l
    → Books tenant id (commit_others arrived l)
unfolding commit_others
commit_others-Books tenant id arrived l others books =
    rw (total-others tenant l.transactions arrived others) books

insert_credit-Books :
    (tenant : ℕ) (e : NewEntry) (account : BillingAccount) (amount : ℤ) (l : Ledger)
    → account.tenant_id ≡ tenant
    → Books tenant account.id l
    → Books tenant account.id (insert_credit e account amount l).1
unfolding insert_credit
insert_credit-Books tenant e account amount l own books =
    elim (Bool-cases (any (has_ref e.provider_ref) l.transactions)) [
      | inl taken ↦ rw taken books
      | inr free ↦ rw free (
          write_entry-Books tenant account.id (credited amount)
            (new_entry e account amount (account.balance_cents +ℤ amount)) l
            (λ a. unfold credited in refl) (λ a. unfold credited in refl)
            (λ a. unfold credited new_entry in refl) (unfold new_entry in own) books)
    ]

credit_locked-Books :
    (tenant : ℕ) (arrived : List BillingTransaction) (e : NewEntry) (account : BillingAccount)
    (amount : ℤ) (l : Ledger)
    → All (λ t. t.tenant_id ≢ tenant) arrived
    → account.tenant_id ≡ tenant
    → Books tenant account.id l
    → Books tenant account.id (credit_locked arrived e amount account l).1
unfolding credit_locked
credit_locked-Books tenant arrived e account amount l others own books =
    elim (Bool-cases (ref_seen e.provider_ref l.transactions)) [
      | inl seen ↦ rw seen books
      | inr fresh ↦ rw fresh (
          insert_credit-Books tenant e account amount (commit_others arrived l) own
            (commit_others-Books tenant account.id arrived l others books))
    ]

-- The account that a lock finds, with what the books say of it.
locked :
    (tenant id : ℕ) (l : Ledger) (account : BillingAccount)
    → Books tenant id l
    → (lock_account id l).0 ≡ ok account
    → (account.id ≡ id) × (account.tenant_id ≡ tenant)
unfolding lock_account one_account
locked tenant id l account books h =
    elim (Option-cases (first (λ (a : BillingAccount). a.id == id) l.accounts)) [
      | inl missing ↦ ground (arith, missing, h)
      | inr (a, found) ↦
          let same_id : a.id ≡ id =
            (==_iff a.id id).0
              (first_holds (λ (x : BillingAccount). x.id == id) l.accounts a found) in
          let own : a.tenant_id ≡ tenant =
            (All-first
                (λ (x : BillingAccount).
                  (x.id ≡ id → x.tenant_id ≡ tenant)
                  × (x.tenant_id ≡ tenant
                      → (x.id ≡ id) × (x.balance_cents ≡ total tenant l.transactions)))
                (λ x. x.id == id) l.accounts a found books).0
              same_id in
          ground (arith, found, h, same_id, own)
    ]

-- A credit keeps the books of the tenant, whether it writes an entry, finds its reference or
-- raises: the balance stays the sum of the entries. Transactions of other tenants may commit entries while
-- it runs; the lock on the account keeps out those of the same tenant.
pub credit-Books :
    (tenant : ℕ) (arrived : List BillingTransaction) (e : NewEntry) (id : ℕ) (amount : ℤ)
    (l : Ledger)
    → All (λ t. t.tenant_id ≢ tenant) arrived
    → Books tenant id l
    → Books tenant id (credit arrived e id amount l).1
unfolding credit
credit-Books tenant arrived e id amount l others books = elim (Bool-cases (ltb_ℤ amount (pos 0))) [
  | inl negative ↦ rw negative books
  | inr fine ↦ rw fine (
      bind-Result (Books tenant id) (lock_account id) (credit_locked arrived e amount) l
        (unfold lock_account in books)
        (λ a h.
          let (same_id, own) = locked tenant id l a books h in
          subst (λ i. Books tenant i (credit_locked arrived e amount a l).1) same_id
            (credit_locked-Books tenant arrived e a amount l others own
              (subst (λ i. Books tenant i l) (sym same_id) books))))
]

subtracts : (a b : ℤ) → a -ℤ b ≡ a +ℤ (pos 0 -ℤ b)
subtracts a b =
    eq_of_parts (a -ℤ b) (a +ℤ (pos 0 -ℤ b))
      (omega (arith, +ℤ_parts a (pos 0 -ℤ b), -ℤ_parts (pos 0) b, -ℤ_parts a b))

-- A charge keeps the books of the tenant, whether it writes its entry or raises.
pub charge-Books :
    (tenant : ℕ) (e : NewEntry) (id : ℕ) (amount : ℤ) (l : Ledger)
    → Books tenant id l
    → Books tenant id (charge e id amount l).1
unfolding charge
charge-Books tenant e id amount l books = elim (Bool-cases (ltb_ℤ amount (pos 0))) [
  | inl negative ↦ rw negative books
  | inr fine ↦ rw fine (
      bind-Result (Books tenant id) (lock_account id)
        (λ account l'.
          let entry : BillingTransaction =
            new_entry (record e { provider_ref = none }) account (pos 0 -ℤ amount)
              (account.balance_cents -ℤ amount) in
          (ok entry, write_entry account.id (charged amount) entry l'))
        l (unfold lock_account in books)
        (λ a h.
          let (same_id, own) = locked tenant id l a books h in
          subst
            (λ i. Books tenant i (
              write_entry a.id (charged amount)
                (new_entry (record e { provider_ref = none }) a (pos 0 -ℤ amount)
                  (a.balance_cents -ℤ amount))
                l))
            same_id
            (write_entry-Books tenant a.id (charged amount)
              (new_entry (record e { provider_ref = none }) a (pos 0 -ℤ amount)
                (a.balance_cents -ℤ amount))
              l (λ x. unfold charged in refl) (λ x. unfold charged in refl)
              (λ x. unfold charged new_entry in subtracts x.balance_cents amount)
              (unfold new_entry in own) (subst (λ i. Books tenant i l) (sym same_id) books))))
]
