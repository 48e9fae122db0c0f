-- ===== src/Tests/Billing.antt =====
-- The ledger at concrete inputs.
use ezauth.Prelude.{
  String, true, false, none, some, [], ◌∷◌, ◌≡◌, ◌≢◌, refl, arith, nat_eq, string_eq, option_eq,
  ne_of_test,
}
use ezauth.Prelude.Int.{pos, negsuc, ◌+ℤ◌}
use ezauth.Outcome.{ok}
use ezauth.Billing.{
  BillingAccount, BillingTransaction, Ledger, NewEntry, lock_account, credit, charge, insert_credit,
}
use ezauth.Billing.Balance.{Books, total, credit-Books, charge-Books}
use ezauth.Billing.References.{credit-once}

abbrev account : BillingAccount
account = record {
  id = 3;
  tenant_id = 9;
  balance_cents = negsuc 199;
  paused = true;
  paused_at = some 4;
  low_balance_warned_at = none;
  auto_reload_failed_at = none;
}

-- A metered charge of two dollars.
abbrev usage : BillingTransaction
usage = record {
  id = 1;
  tenant_id = 9;
  kind = "charge";
  amount_cents = negsuc 199;
  balance_after_cents = negsuc 199;
  description = "Metered usage";
  provider = some "system";
  provider_ref = none;
}

abbrev ledger : Ledger
ledger = record { accounts = account ∷ []; transactions = usage ∷ [] }

abbrev topup : NewEntry
topup = record {
  id = 2;
  kind = "topup";
  description = "Credit top-up";
  provider = some "stripe";
  provider_ref = some "pi_1";
}

-- Another tenant is charged meanwhile.
abbrev other : BillingTransaction
other = record usage { id = 5; tenant_id = 8 }

books : Books 9 3 ledger
unfolding total ◌+ℤ◌ nat_eq
books = (((λ _. refl), (λ _. (refl, refl))), tt)

credit-Books_example : Books 9 3 (credit (other ∷ []) topup 3 (pos 500) ledger).1
unfolding nat_eq
credit-Books_example = credit-Books 9 (other ∷ []) topup 3 (pos 500) ledger (omega arith, tt) books

abbrev ref : String
ref = "pi_1"

some_ref : ref ≢ ""
unfolding string_eq
some_ref = ne_of_test ref "" refl

abbrev resumed : BillingAccount
resumed = record account { balance_cents = pos 300; paused = false; paused_at = none }

abbrev paid : BillingTransaction
paid = record {
  id = 2;
  tenant_id = 9;
  kind = "topup";
  amount_cents = pos 500;
  balance_after_cents = pos 300;
  description = "Credit top-up";
  provider = some "stripe";
  provider_ref = some "pi_1";
}

-- The top-up resumes the paused account.
topup_resumes :
    credit [] topup 3 (pos 500) ledger
    ≡ (ok (some paid), record { accounts = resumed ∷ []; transactions = usage ∷ paid ∷ [] })
unfolding credit insert_credit ◌+ℤ◌ nat_eq string_eq option_eq
topup_resumes = refl

credit-once_example :
    let l' = (credit [] topup 3 (pos 500) ledger).1 in
    credit [] topup 3 (pos 700) l' ≡ (ok none, l')
unfolding credit lock_account insert_credit ◌+ℤ◌ nat_eq string_eq option_eq
credit-once_example =
    credit-once topup topup ref (pos 500) (pos 700) [] [] 3 3 ledger (some paid) resumed refl refl
      some_ref refl refl refl

charge-Books_example : Books 9 3 (charge topup 3 (pos 30) ledger).1
charge-Books_example = charge-Books 9 topup 3 (pos 30) ledger books
