-- ===== src/Claims/Buckets.antt =====
-- Reconciling claims with their recoveries (reconcile-claim-buckets.ts), and the buckets that the
-- three reports keep by key.
-- A `Map` from keys to buckets is a list in the order of insertion.
pub mod Balance
use freight_auditor.Prelude.{
  String, ◌==◌, Bool, true, false, not, Option, none, some, List, [], ◌∷◌, map, if◌then◌else◌, keep,
}
use Prim.Native.String
use freight_auditor.Money.{Decimal}
use freight_auditor.Claims.Status.{
  ClaimStatus, open_status, terminal, recovered, denied, written_off,
}

module _ (d : Decimal) where
  pub record ReconcilableClaimRow : Type 0 where
    pub claim_id : String
    pub amount_claimed : d.D
    pub currency : Option String
    pub status : ClaimStatus

  pub record ReconcilableRecoveryEventRow : Type 0 where
    pub claim_id : String
    pub amount_recovered : d.D
    pub currency : Option String

  pub record ClaimReconciliationAccumulator : Type 0 where
    pub claimed : d.D
    pub recovered : d.D
    pub outstanding : d.D
    pub written_off : d.D
    pub denied : d.D
    pub null_currency_recovered : d.D
    pub mismatched_currency_recovered : d.D

  unfoldable pub empty_claim_reconciliation_accumulator : ClaimReconciliationAccumulator
  empty_claim_reconciliation_accumulator = record {
    claimed = d.zero;
    recovered = d.zero;
    outstanding = d.zero;
    written_off = d.zero;
    denied = d.zero;
    null_currency_recovered = d.zero;
    mismatched_currency_recovered = d.zero;
  }

  -- Where an event's amount goes: no currency, another currency than the claim's, or counted.
  pub data Destination : Type 0 where
    null_currency mismatched same_currency : Destination

  unfoldable pub destination : Option String → Option String → Destination
  destination claim none = null_currency
  destination none (some c) = same_currency
  destination (some k) (some c) = if c == k then same_currency else mismatched

  -- The loop over the events: the bucket, and `sameCurrencyRecovered`.
  unfoldable pub accumulate_events :
      Option String
      → List ReconcilableRecoveryEventRow
      → ClaimReconciliationAccumulator
      → d.D
      → ClaimReconciliationAccumulator × d.D
  accumulate_events claim [] bucket same = (bucket, same)
  accumulate_events claim (e ∷ es) bucket same = elim (destination claim e.currency) [
    | null_currency ↦
        accumulate_events claim es
          (record bucket {
            null_currency_recovered = d.plus bucket.null_currency_recovered e.amount_recovered;
          })
          same
    | mismatched ↦
        accumulate_events claim es
          (record bucket {
            mismatched_currency_recovered =
                d.plus bucket.mismatched_currency_recovered e.amount_recovered;
          })
          same
    | same_currency ↦ accumulate_events claim es bucket (d.plus same e.amount_recovered)
  ]

  -- The `switch` on the status.
  unfoldable pub settle :
      ClaimStatus → d.D → d.D → ClaimReconciliationAccumulator → ClaimReconciliationAccumulator
  settle (terminal recovered) claimed same b = b
  settle (terminal denied) claimed same b = record b {
    denied = d.minus (d.plus b.denied claimed) same;
  }
  settle (terminal written_off) claimed same b = record b {
    written_off = d.minus (d.plus b.written_off claimed) same;
  }
  settle open_status claimed same b = record b {
    outstanding = d.minus (d.plus b.outstanding claimed) same;
  }

  unfoldable pub accumulate_claim_reconciliation :
      ClaimReconciliationAccumulator
      → ReconcilableClaimRow
      → List ReconcilableRecoveryEventRow
      → ClaimReconciliationAccumulator
  accumulate_claim_reconciliation bucket claim events =
      let counted = record bucket { claimed = d.plus bucket.claimed claim.amount_claimed } in
      let (b, same) = accumulate_events claim.currency events counted d.zero in
      settle claim.status claim.amount_claimed same
        (record b { recovered = d.plus b.recovered same })

  unfoldable pub claim_reconciliation_reconciles : ClaimReconciliationAccumulator → Bool
  claim_reconciliation_reconciles b =
      d.equals b.claimed (d.plus (d.plus (d.plus b.recovered b.outstanding) b.written_off) b.denied)

  pub record ClaimReconciliationTotals : Type 0 where
    pub claimed : String
    pub recovered : String
    pub outstanding : String
    pub written_off : String
    pub denied : String
    pub null_currency_recovered : String
    pub mismatched_currency_recovered : String

  unfoldable pub finalize_claim_reconciliation_totals :
      ClaimReconciliationAccumulator → ClaimReconciliationTotals
  finalize_claim_reconciliation_totals b = record {
    claimed = d.to_fixed b.claimed;
    recovered = d.to_fixed b.recovered;
    outstanding = d.to_fixed b.outstanding;
    written_off = d.to_fixed b.written_off;
    denied = d.to_fixed b.denied;
    null_currency_recovered = d.to_fixed b.null_currency_recovered;
    mismatched_currency_recovered = d.to_fixed b.mismatched_currency_recovered;
  }

  -- `eventsByClaim.get(claimId) ?? []`.
  unfoldable pub events_of :
      String → List ReconcilableRecoveryEventRow → List ReconcilableRecoveryEventRow
  events_of id [] = []
  events_of id (e ∷ es) = if e.claim_id == id then e ∷ events_of id es else events_of id es

  -- A row of a report's map: its key, what names the bucket, and the accumulator.
  pub record Bucket (L : Type 0) : Type 0 where
    pub key : String
    pub label : L
    pub totals : ClaimReconciliationAccumulator

  module _ {L : Type 0} (key_of : L → String) where
    -- `bucketFor`, and the accumulation into the bucket that it finds or makes.
    unfoldable pub into_bucket :
        L
        → ReconcilableClaimRow
        → List ReconcilableRecoveryEventRow
        → List (Bucket L)
        → List (Bucket L)
    into_bucket l claim events [] =
        (record {
          key = key_of l;
          label = l;
          totals =
              accumulate_claim_reconciliation empty_claim_reconciliation_accumulator claim events;
        })
        ∷ []
    into_bucket l claim events (b ∷ bs) =
        if b.key == key_of l
        then (record b { totals = accumulate_claim_reconciliation b.totals claim events }) ∷ bs
        else b ∷ into_bucket l claim events bs

    -- The loop over the claims.
    unfoldable pub bucket_all :
        List (L × ReconcilableClaimRow)
        → List ReconcilableRecoveryEventRow
        → List (Bucket L)
        → List (Bucket L)
    bucket_all [] events buckets = buckets
    bucket_all ((l, claim) ∷ claims) events buckets =
        bucket_all claims events (into_bucket l claim (events_of claim.claim_id events) buckets)
