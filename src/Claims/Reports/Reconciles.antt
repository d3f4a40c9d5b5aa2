-- ===== src/Claims/Reports/Reconciles.antt =====
-- Every row of the portfolio reconciliation balances.
use freight_auditor.Prelude.{String, true, Option, List, [], ◌∷◌, map, All, ◌≡◌}
use freight_auditor.Money.{Decimal, IsExact}
use freight_auditor.Claims.Buckets.{ReconcilableClaimRow, ReconcilableRecoveryEventRow, Bucket}
use freight_auditor.Claims.Buckets.Balance.{
  IsSettled, IsBalancedBucket, bucket_all-IsBalanced, reconciles_of_IsBalanced,
}
use freight_auditor.Claims.Reports.{
  ReconciledRow, finished, currency_key, reconcile_portfolio_totals,
}

module _ (d : Decimal) (exact : IsExact d) where
  abbrev Reconciled : {L : Type 0} → ReconciledRow d L → Type 0
  Reconciled row = row.reconciles ≡ true

  rows-reconcile :
      {L : Type 0} (bs : List (Bucket d L))
      → All (IsBalancedBucket d exact) bs
      → All Reconciled (map (λ (b : Bucket d L). finished d b) bs)
  rows-reconcile [] h = tt
  rows-reconcile (b ∷ bs) h = (reconciles_of_IsBalanced d exact b.totals h.0, rows-reconcile bs h.1)

  IsSettled-labels :
      (claims : List (ReconcilableClaimRow d)) (events : List (ReconcilableRecoveryEventRow d))
      → All (IsSettled d events) claims
      → All
          (λ (c : Option String × ReconcilableClaimRow d). IsSettled d events c.1)
          (map (λ (c : ReconcilableClaimRow d). (c.currency, c)) claims)
  IsSettled-labels [] events h = tt
  IsSettled-labels (c ∷ cs) events h = (h.0, IsSettled-labels cs events h.1)

  -- With exact decimal arithmetic, assumed of all values (nothing rounds and none is NaN or
  -- Infinity), when every claim that counts as recovered has recovered what it
  -- claims in its own currency, each row of the portfolio reconciliation says that it reconciles:
  -- claimed = recovered + outstanding + written off + denied.
  pub reconcile_portfolio_totals-reconciles :
      (claims : List (ReconcilableClaimRow d)) (events : List (ReconcilableRecoveryEventRow d))
      → All (IsSettled d events) claims
      → All
          (λ (row : ReconciledRow d (Option String)). row.reconciles ≡ true)
          (reconcile_portfolio_totals d claims events)
  unfolding reconcile_portfolio_totals
  reconcile_portfolio_totals-reconciles claims events h = rows-reconcile _ (
      bucket_all-IsBalanced d exact (currency_key d) _ events [] (IsSettled-labels claims events h)
        tt)
