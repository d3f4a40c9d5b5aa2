-- ===== src/Claims/Buckets/Balance.antt =====
-- The balance of a reconciliation: what was claimed is recovered, outstanding, written off or denied.
use freight_auditor.Prelude.{
  String, ◌==◌, true, Option, List, [], ◌∷◌, All, arith, ◌≡◌, refl, sym, ap, ◌∙◌, Bool-cases, inl,
  inr,
}
use freight_auditor.Money.{Decimal, IsExact}
use freight_auditor.Money.Laws.{push, swap}
use freight_auditor.Claims.Status.{
  ClaimStatus, open_status, terminal, recovered, denied, written_off,
}
use freight_auditor.Claims.Buckets.{
  ReconcilableClaimRow, ReconcilableRecoveryEventRow, ClaimReconciliationAccumulator,
  empty_claim_reconciliation_accumulator, destination, same_currency, accumulate_events, settle,
  accumulate_claim_reconciliation, claim_reconciliation_reconciles, events_of, Bucket, into_bucket,
  bucket_all,
}

module _ (d : Decimal) where
  -- The amount of a claim's events in the claim's own currency, in the order of the loop.
  unfoldable pub same_currency_recovered :
      Option String → List (ReconcilableRecoveryEventRow d) → d.D → d.D
  same_currency_recovered claim [] acc = acc
  same_currency_recovered claim (e ∷ es) acc = elim (destination d claim e.currency) [
    | same_currency ↦ same_currency_recovered claim es (d.plus acc e.amount_recovered)
    | _ ↦ same_currency_recovered claim es acc
  ]

  -- What FULL_RECOVERY leaves behind: a recovered claim has recovered what it claims.
  unfoldable pub IsSettled : List (ReconcilableRecoveryEventRow d) → ReconcilableClaimRow d → Type 0
  IsSettled events c =
      c.status ≡ terminal recovered
      → same_currency_recovered c.currency (events_of d c.claim_id events) d.zero ≡ c.amount_claimed

  -- The five sums of a bucket that the balance is about, which the loop over the events leaves alone.
  accumulate_events-same :
      (claim : Option String) (es : List (ReconcilableRecoveryEventRow d))
      (b : ClaimReconciliationAccumulator d) (acc : d.D)
      → let r = accumulate_events d claim es b acc in
        ((r.1 ≡ same_currency_recovered claim es acc)
          × ((r.0).claimed ≡ b.claimed)
          × ((r.0).recovered ≡ b.recovered)
          × ((r.0).outstanding ≡ b.outstanding)
          × ((r.0).written_off ≡ b.written_off)
          × ((r.0).denied ≡ b.denied))
  unfolding accumulate_events same_currency_recovered
  accumulate_events-same claim [] b acc = ground arith
  accumulate_events-same claim (e ∷ es) b acc = ground (
    arith,
    accumulate_events-same claim es
        (record b { null_currency_recovered = d.plus b.null_currency_recovered e.amount_recovered })
        acc,
    accumulate_events-same claim es
        (record b {
          mismatched_currency_recovered = d.plus b.mismatched_currency_recovered e.amount_recovered;
        })
        acc,
    accumulate_events-same claim es b (d.plus acc e.amount_recovered),
  )

  abbrev accounted : ClaimReconciliationAccumulator d → d.D
  accounted b = d.plus (d.plus (d.plus b.recovered b.outstanding) b.written_off) b.denied

  module _ (exact : IsExact d) where
    -- Settling a claim of `x`, of which `s` is recovered, accounts for `x` more.
    settle-accounted :
        (status : ClaimStatus) (x s : d.D) (b : ClaimReconciliationAccumulator d)
        → (status ≡ terminal recovered → s ≡ x)
        → accounted (settle d status x s (record b { recovered = d.plus b.recovered s }))
          ≡ d.plus (accounted b) x
    unfolding settle
    settle-accounted (terminal recovered) x s b full =
        ap
          (λ y.
            d.plus (d.plus (d.plus (d.plus b.recovered y) b.outstanding) b.written_off) b.denied)
          (full refl)
        ∙ ap (λ y. d.plus (d.plus y b.written_off) b.denied)
            (push d exact b.recovered x b.outstanding)
        ∙ ap (λ y. d.plus y b.denied) (push d exact _ x b.written_off)
        ∙ push d exact _ x b.denied
    settle-accounted open_status x s b full =
        ap (λ y. d.plus (d.plus y b.written_off) b.denied)
          (swap d exact b.recovered s _ ∙ sym (exact.plus_assoc b.recovered b.outstanding x))
        ∙ ap (λ y. d.plus y b.denied) (push d exact _ x b.written_off)
        ∙ push d exact _ x b.denied
    settle-accounted (terminal written_off) x s b full =
        ap (λ y. d.plus (d.plus y (d.minus (d.plus b.written_off x) s)) b.denied)
          (push d exact b.recovered s b.outstanding)
        ∙ ap (λ y. d.plus y b.denied)
            (swap d exact _ s _ ∙ sym (exact.plus_assoc _ b.written_off x))
        ∙ push d exact _ x b.denied
    settle-accounted (terminal denied) x s b full =
        ap (λ y. d.plus (d.plus y b.written_off) (d.minus (d.plus b.denied x) s))
          (push d exact b.recovered s b.outstanding)
        ∙ ap (λ y. d.plus y (d.minus (d.plus b.denied x) s)) (push d exact _ s b.written_off)
        ∙ swap d exact _ s _
        ∙ sym (exact.plus_assoc _ b.denied x)

    settle-claimed :
        (status : ClaimStatus) (x s : d.D) (b : ClaimReconciliationAccumulator d)
        → (settle d status x s b).claimed ≡ b.claimed
    unfolding settle
    settle-claimed (terminal recovered) x s b = refl
    settle-claimed _ x s b = refl

    -- One claim keeps the balance.
    accumulate-balanced :
        (b : ClaimReconciliationAccumulator d) (claim : ReconcilableClaimRow d)
        (es : List (ReconcilableRecoveryEventRow d))
        → (claim.status ≡ terminal recovered
            → same_currency_recovered claim.currency es d.zero ≡ claim.amount_claimed)
        → b.claimed ≡ accounted b
        → let b' = accumulate_claim_reconciliation d b claim es in b'.claimed ≡ accounted b'
    unfolding accumulate_claim_reconciliation
    accumulate-balanced b claim es full balanced =
        let counted : ClaimReconciliationAccumulator d = record b {
          claimed = d.plus b.claimed claim.amount_claimed;
        } in
        let run : ClaimReconciliationAccumulator d × d.D =
          accumulate_events d claim.currency es counted d.zero in
        let same = accumulate_events-same claim.currency es counted d.zero in
        let left =
          settle-claimed claim.status claim.amount_claimed run.1
            (record (run.0) { recovered = d.plus (run.0).recovered run.1 }) in
        let right =
          settle-accounted claim.status claim.amount_claimed run.1 run.0 (λ e. same.0 ∙ full e) in
        let kept : accounted run.0 ≡ accounted b = cc in
        left ∙ same.1 ∙ ap (λ y. d.plus y claim.amount_claimed) (balanced ∙ sym kept) ∙ sym right

    unfoldable pub IsBalanced : ClaimReconciliationAccumulator d → Type 0
    IsBalanced b = b.claimed ≡ accounted b

    accumulate-IsBalanced :
        (b : ClaimReconciliationAccumulator d) (claim : ReconcilableClaimRow d)
        (events : List (ReconcilableRecoveryEventRow d))
        → IsSettled events claim
        → IsBalanced b
        → IsBalanced (accumulate_claim_reconciliation d b claim (events_of d claim.claim_id events))
    unfolding IsBalanced IsSettled
    accumulate-IsBalanced b claim events settled h =
        accumulate-balanced b claim (events_of d claim.claim_id events) settled h

    empty-IsBalanced : IsBalanced (empty_claim_reconciliation_accumulator d)
    unfolding IsBalanced empty_claim_reconciliation_accumulator
    empty-IsBalanced = sym (exact.plus_zero _ ∙ exact.plus_zero _ ∙ exact.plus_zero _)

    abbrev pub IsBalancedBucket : {L : Type 0} → Bucket d L → Type 0
    IsBalancedBucket b = IsBalanced b.totals

    module _ {L : Type 0} (key_of : L → String) where
      into_bucket-IsBalanced :
          (l : L) (claim : ReconcilableClaimRow d) (events : List (ReconcilableRecoveryEventRow d))
          (bs : List (Bucket d L))
          → IsSettled events claim
          → All IsBalancedBucket bs
          → All IsBalancedBucket
              (into_bucket d key_of l claim (events_of d claim.claim_id events) bs)
      unfolding into_bucket
      into_bucket-IsBalanced l claim events [] settled h =
          (accumulate-IsBalanced _ claim events settled empty-IsBalanced, tt)
      into_bucket-IsBalanced l claim events (b ∷ bs) settled h =
          let there = into_bucket-IsBalanced l claim events bs settled h.1 in
          let here = accumulate-IsBalanced b.totals claim events settled h.0 in
          elim (Bool-cases (b.key == key_of l)) [
            | inl e ↦ rw (e) ((here, h.1))
            | inr e ↦ rw (e) ((h.0, there))
          ]

      pub bucket_all-IsBalanced :
          (claims : List (L × ReconcilableClaimRow d))
          (events : List (ReconcilableRecoveryEventRow d)) (bs : List (Bucket d L))
          → All (λ (c : L × ReconcilableClaimRow d). IsSettled events c.1) claims
          → All IsBalancedBucket bs
          → All IsBalancedBucket (bucket_all d key_of claims events bs)
      unfolding bucket_all
      bucket_all-IsBalanced [] events bs settled h = h
      bucket_all-IsBalanced ((l, claim) ∷ claims) events bs settled h =
          bucket_all-IsBalanced claims events _ settled.1
            (into_bucket-IsBalanced l claim events bs settled.0 h)

    pub reconciles_of_IsBalanced :
        (b : ClaimReconciliationAccumulator d)
        → IsBalanced b
        → claim_reconciliation_reconciles d b ≡ true
    unfolding IsBalanced claim_reconciliation_reconciles
    reconciles_of_IsBalanced b h = (exact.equals_iff _ _).1 h
