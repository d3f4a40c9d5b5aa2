-- ===== src/Tests/Report.antt =====
-- Two claims in the reports: one recovered in two parts, one open with a part recovered.
use freight_auditor.Prelude.{
  String, true, map, Option, none, some, List, [], ◌∷◌, All, ◌≡◌, refl, arith,
}
use freight_auditor.Prelude.Int.{pos, ◌+ℤ◌}
use freight_auditor.Cents.{cents, cents-IsExact}
use freight_auditor.Claims.Status.{recovered, open_status, terminal}
use freight_auditor.Claims.Buckets.{
  ReconcilableClaimRow, ReconcilableRecoveryEventRow, destination, events_of, into_bucket,
  bucket_all,
}
use freight_auditor.Claims.Buckets.Balance.{same_currency_recovered, IsSettled}
use freight_auditor.Claims.Reports.{
  ReconciledRow, account_key, reconcile_portfolio_totals, AccountLabel,
  aggregate_cross_account_portfolio,
}
use freight_auditor.Claims.Reports.Reconciles.{reconcile_portfolio_totals-reconciles}

unfoldable paid_claim : ReconcilableClaimRow cents
unfolding cents
paid_claim = record {
  claim_id = "claim-1";
  amount_claimed = pos 1000000;
  currency = some "USD";
  status = terminal recovered;
}

unfoldable open_claim : ReconcilableClaimRow cents
unfolding cents
open_claim = record {
  claim_id = "claim-2";
  amount_claimed = pos 500000;
  currency = some "USD";
  status = open_status;
}

unfoldable recovery : String → ReconcilableRecoveryEventRow cents
unfolding cents
recovery id = record { claim_id = id; amount_recovered = pos 500000; currency = some "USD" }

abbrev events : List (ReconcilableRecoveryEventRow cents)
events = recovery "claim-1" ∷ recovery "claim-2" ∷ recovery "claim-1" ∷ []

abbrev claims : List (ReconcilableClaimRow cents)
claims = paid_claim ∷ open_claim ∷ []

paid-IsSettled : IsSettled cents events paid_claim
unfolding IsSettled paid_claim recovery events_of same_currency_recovered destination cents ◌+ℤ◌
paid-IsSettled e = refl

open-IsSettled : IsSettled cents events open_claim
unfolding IsSettled open_claim
open-IsSettled e = absurd (ground (arith, e))

reconcile_portfolio_totals-reconciles_example :
    All
      (λ (row : ReconciledRow cents (Option String)). row.reconciles ≡ true)
      (reconcile_portfolio_totals cents claims events)
reconcile_portfolio_totals-reconciles_example =
    reconcile_portfolio_totals-reconciles cents cents-IsExact claims events
      (paid-IsSettled, (open-IsSettled, tt))

abbrev other_account : AccountLabel cents
other_account = record { client_id = "c"; client_name = none; currency = some "EUR" }

abbrev account : AccountLabel cents
account = record { client_id = "c"; client_name = none; currency = some "USD" }

-- Two currencies of one account are two rows.
cross_account_rows :
    map
      (λ (row : ReconciledRow cents (AccountLabel cents)). row.label)
      (aggregate_cross_account_portfolio cents
        ((account, paid_claim) ∷ (other_account, open_claim) ∷ (account, open_claim) ∷ [])
        events)
    ≡ account ∷ other_account ∷ []
unfolding aggregate_cross_account_portfolio bucket_all account_key into_bucket
cross_account_rows = refl
