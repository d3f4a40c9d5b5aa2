-- ===== src/Claims/Reports.antt =====
-- The three reports on reconciled claims: aggregate-carrier-recovery.ts,
-- reconcile-portfolio-totals.ts and aggregate-cross-account-portfolio.ts.
pub mod Reconciles
use freight_auditor.Prelude.{String, Bool, Option, none, some, List, [], ◌∷◌, map}
use Prim.Native.String
use freight_auditor.Money.{Decimal}
use freight_auditor.Claims.Buckets.{
  ReconcilableClaimRow, ReconcilableRecoveryEventRow, Bucket, bucket_all, ClaimReconciliationTotals,
  finalize_claim_reconciliation_totals, claim_reconciliation_reconciles,
}

module _ (d : Decimal) where
  abbrev pub or_blank : Option String → String
  or_blank none = " "
  or_blank (some c) = c

  abbrev pub CarrierLabel : Type 0
  CarrierLabel = Option String × Option String

  unfoldable pub carrier_key : CarrierLabel → String
  carrier_key l = String.◌++◌ (or_blank l.0) (String.◌++◌ "::" (or_blank l.1))

  -- A report row: the label, the totals, and `reconciles` where the report states it.
  abbrev pub Report : Type 0 → Type 0
  Report L = List (L × ClaimReconciliationTotals d)

  unfoldable pub aggregate_carrier_recovery :
      List (CarrierLabel × (ReconcilableClaimRow d))
      → List (ReconcilableRecoveryEventRow d)
      → Report CarrierLabel
  aggregate_carrier_recovery claims events =
      map
        (λ (b : Bucket d CarrierLabel). (b.label, finalize_claim_reconciliation_totals d b.totals))
        (bucket_all d carrier_key claims events [])

  pub record ReconciledRow (L : Type 0) : Type 0 where
    pub label : L
    pub totals : ClaimReconciliationTotals d
    pub reconciles : Bool

  abbrev pub finished : {L : Type 0} → Bucket d L → ReconciledRow L
  finished b = record {
    label = b.label;
    totals = finalize_claim_reconciliation_totals d b.totals;
    reconciles = claim_reconciliation_reconciles d b.totals;
  }

  unfoldable pub currency_key : Option String → String
  currency_key c = or_blank c

  unfoldable pub reconcile_portfolio_totals :
      List (ReconcilableClaimRow d)
      → List (ReconcilableRecoveryEventRow d)
      → List (ReconciledRow (Option String))
  reconcile_portfolio_totals claims events =
      map (λ (b : Bucket d (Option String)). finished b)
        (bucket_all d currency_key (map (λ (c : (ReconcilableClaimRow d)). (c.currency, c)) claims)
          events [])

  -- The client's id, its name, and the currency; the name is no part of the key.
  pub record AccountLabel : Type 0 where
    pub client_id : String
    pub client_name : Option String
    pub currency : Option String

  unfoldable pub account_key : AccountLabel → String
  account_key l = String.◌++◌ l.client_id (String.◌++◌ "::" (or_blank l.currency))

  unfoldable pub aggregate_cross_account_portfolio :
      List (AccountLabel × (ReconcilableClaimRow d))
      → List (ReconcilableRecoveryEventRow d)
      → List (ReconciledRow AccountLabel)
  aggregate_cross_account_portfolio claims events =
      map (λ (b : Bucket d AccountLabel). finished b) (bucket_all d account_key claims events [])
