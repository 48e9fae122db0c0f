-- ===== src/Billing.antt =====
-- The ledger of src/ezauth/services/billing.py, over the rows of src/ezauth/models/billing.py. What
-- other transactions commit while a call runs is an argument of the call. The mails that follow an
-- entry are left out.
pub mod Balance
pub mod References
use ezauth.Prelude.{
  ℕ, ◌+◌, String, Bool, true, false, not, ◌&&◌, Option, none, some, List, [], ◌∷◌, ◌++◌, ◌==◌,
  nat_eq, string_eq, option_eq, if◌then◌else◌, leb, any, first, update,
}
use ezauth.Prelude.Int.{ℤ, pos, ◌+ℤ◌, ◌-ℤ◌, ltb_ℤ}
use ezauth.Config.{Settings}
use ezauth.Models.{truthy}
use ezauth.Outcome.{
  Exec, Result, ok, raised, pure, gets, lift, raise_if, ◌>>=◌, ◌>>◌, value_error, no_result_found,
  integrity_error,
}

-- The columns of the ledger; the card and the reload settings are not read by it.
pub record BillingAccount : Type 0 where
  pub id : ℕ
  pub tenant_id : ℕ
  pub balance_cents : ℤ
  pub paused : Bool
  pub paused_at : Option ℕ
  pub low_balance_warned_at : Option ℕ
  pub auto_reload_failed_at : Option ℕ

pub record BillingTransaction : Type 0 where
  pub id : ℕ
  pub tenant_id : ℕ
  pub kind : String
  pub amount_cents : ℤ
  pub balance_after_cents : ℤ
  pub description : String
  pub provider : Option String
  pub provider_ref : Option String

pub record Ledger : Type 0 where
  pub accounts : List BillingAccount
  pub transactions : List BillingTransaction

-- The keyword arguments of an entry, with the id that the insert draws.
pub record NewEntry : Type 0 where
  pub id : ℕ
  pub kind : String
  pub description : String
  pub provider : Option String
  pub provider_ref : Option String

-- `.one()` on the locked row
unfoldable pub one_account : Option BillingAccount → Result BillingAccount
one_account none = raised no_result_found
one_account (some a) = ok a

unfoldable pub lock_account : ℕ → Exec Ledger BillingAccount
unfolding one_account first
lock_account id l = (one_account (first (λ a. a.id == id) l.accounts), l)

-- The unique constraint on the reference: null values do not conflict.
unfoldable pub has_ref : Option String → BillingTransaction → Bool
has_ref none t = false
has_ref (some ref) t = t.provider_ref == some ref

-- `provider_ref and await db.scalar(…)`
unfoldable pub ref_seen : Option String → List BillingTransaction → Bool
unfolding has_ref truthy
ref_seen ref rows = any (has_ref (truthy ref)) rows

unfoldable pub new_entry : NewEntry → BillingAccount → ℤ → ℤ → BillingTransaction
new_entry e account amount balance = record {
  id = e.id;
  tenant_id = account.tenant_id;
  kind = e.kind;
  amount_cents = amount;
  balance_after_cents = balance;
  description = e.description;
  provider = e.provider;
  provider_ref = e.provider_ref;
}

unfoldable pub credited : ℤ → BillingAccount → BillingAccount
credited amount a =
    let balance = a.balance_cents +ℤ amount in
    let resumes = a.paused && not (ltb_ℤ balance (pos 0)) in
    record a {
      balance_cents = balance;
      low_balance_warned_at = none;
      auto_reload_failed_at = none;
      paused = if resumes then false else a.paused;
      paused_at = if resumes then none else a.paused_at;
    }

unfoldable pub charged : ℤ → BillingAccount → BillingAccount
charged amount a = record a { balance_cents = a.balance_cents -ℤ amount }

-- An entry and the account that it changes.
unfoldable pub write_entry :
    ℕ → (BillingAccount → BillingAccount) → BillingTransaction → Ledger → Ledger
unfolding update
write_entry id change entry l = record {
  accounts = update (λ a. a.id == id) change l.accounts;
  transactions = l.transactions ++ entry ∷ [];
}

unfoldable pub commit_others : List BillingTransaction → Ledger → Ledger
commit_others arrived l = record l { transactions = l.transactions ++ arrived }

-- The savepoint: the entry is written, or its reference conflicts, the savepoint is rolled back
-- and the reference is looked for again.
unfoldable pub insert_credit :
    NewEntry → BillingAccount → ℤ → Ledger → Result (Option BillingTransaction) × Ledger
unfolding has_ref ref_seen new_entry credited write_entry
insert_credit e account amount l =
    let entry = new_entry e account amount (account.balance_cents +ℤ amount) in
    if any (has_ref e.provider_ref) l.transactions
    then (if ref_seen e.provider_ref l.transactions then ok none else raised integrity_error, l)
    else (ok (some entry), write_entry account.id (credited amount) entry l)

unfoldable pub credit_locked :
    List BillingTransaction
    → NewEntry
    → ℤ
    → BillingAccount
    → Exec Ledger (Option BillingTransaction)
unfolding ref_seen insert_credit commit_others
credit_locked arrived e amount account l =
    if ref_seen e.provider_ref l.transactions
    then (ok none, l)
    else insert_credit e account amount (commit_others arrived l)

unfoldable pub credit :
    List BillingTransaction → NewEntry → ℕ → ℤ → Exec Ledger (Option BillingTransaction)
unfolding lock_account credit_locked
credit arrived e account_id amount = do
  raise_if (ltb_ℤ amount (pos 0)) value_error
  account ← lock_account account_id
  credit_locked arrived e amount account

unfoldable pub charge : NewEntry → ℕ → ℤ → Exec Ledger BillingTransaction
unfolding lock_account new_entry charged write_entry
charge e account_id amount = do
  raise_if (ltb_ℤ amount (pos 0)) value_error
  account ← lock_account account_id
  let balance = account.balance_cents -ℤ amount
  let entry : BillingTransaction =
      new_entry (record e { provider_ref = none }) account (pos 0 -ℤ amount) balance
  λ l. (ok entry, write_entry account.id (charged amount) entry l)
