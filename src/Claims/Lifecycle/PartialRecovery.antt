-- ===== src/Claims/Lifecycle/PartialRecovery.antt =====
-- Recording a partial recovery keeps the invariant of the claim tables.
use freight_auditor.Prelude.{
  String, ◌==◌, eq_iff, true, false, none, some, List, [], if◌then◌else◌, arith, ◌≡◌, ◌≢◌,
  Bool-cases, inl, inr, ◌∙◌,
}
use freight_auditor.Money.{Decimal, IsExact}
use freight_auditor.Money.Laws.{lte_of_not_gt, lte_of_plus}
use freight_auditor.Claims.Store.{
  terminal_rows, Database, find_claim, recovered_total, PartialRecoveryInput,
}
use freight_auditor.Claims.Validation.{Claim}
use freight_auditor.Claims.Lifecycle.Rows.{
  ClaimIsSound, DatabaseIsSound, terminal_rows-write_other, not_terminal_of_entity, total-cons,
}
use freight_auditor.Claims.Lifecycle.Runs.{PartialRun}

module _ (d : Decimal) (exact : IsExact d) (audit_event_id : List String → String)
    (json : List (String × String) → String) where
  -- A claim that is recovered in full has no room for a positive amount.
  no_room :
      (total claimed a : d.D)
      → d.lte a d.zero ≡ false
      → total ≡ claimed
      → d.gt (d.plus total a) claimed ≢ false
  no_room total claimed a p e h =
      let le = lte_of_not_gt d exact (d.plus total a) claimed h in
      cc (lte_of_plus d exact claimed a (rw e at le))

  module _ {input : PartialRecoveryInput d audit_event_id json} {db db' : Database d}
      (run : PartialRun d audit_event_id json input db db') (s : DatabaseIsSound d db) where
    partial-terminal_rows : (id : String) → terminal_rows id db'.audit ≡ terminal_rows id db.audit
    partial-terminal_rows id = rw run.audit (
        terminal_rows-write_other id run.e db.audit run.wrote
          (not_terminal_of_entity id run.e (rw run.entity)))

    partial-total :
        (id : String)
        → recovered_total d id db'.recovery_events ≡ (
            if input.claim_id == id
            then d.plus (recovered_total d id db.recovery_events) input.amount_recovered
            else recovered_total d id db.recovery_events)
    partial-total id =
        rw (run.rows, total-cons d id run.row db.recovery_events, run.row_claim, run.row_amount)

    partial-claim :
        (id : String) (c : Claim d)
        → find_claim d id db.claims ≡ some c
        → (input.claim_id == id) ≡ true
        → (input.claim_id ≡ id) × (run.claim ≡ c)
    partial-claim id c f same =
        let e = (eq_iff input.claim_id id).0 same in (e, ground (arith, run.found))

    partial-known :
        (id : String) (c : Claim d)
        → find_claim d id db.claims ≡ some c
        → ClaimIsSound d (recovered_total d id db.recovery_events) (terminal_rows id db.audit) c
        → ClaimIsSound d (recovered_total d id db'.recovery_events) (terminal_rows id db'.audit) c
    partial-known id c f old = elim (Bool-cases (input.claim_id == id)) [
      | inl same ↦
          let (e, k) = partial-claim id c f same in
          let total = partial-total id ∙ (rw same) in
          let fits : d.gt (d.plus (recovered_total d id db.recovery_events) input.amount_recovered)
                c.amount_claimed
              ≡ false =
            rw (← e, ← k) run.checked.within in
          record {
            within = rw total (lte_of_not_gt d exact _ _ fits);
            exact = λ r. absurd (no_room _ _ _ run.checked.positive (old.exact r) fits);
            recorded = rw (partial-terminal_rows id) old.recorded;
          }
      | inr other ↦
          let total = partial-total id ∙ (rw other) in
          record {
            within = rw total old.within;
            exact = λ r. total ∙ old.exact r;
            recorded = rw (partial-terminal_rows id) old.recorded;
          }
    ]

    partial-unknown :
        (id : String)
        → find_claim d id db.claims ≡ none
        → (recovered_total d id db'.recovery_events ≡ d.zero) × (terminal_rows id db'.audit ≡ [])
    partial-unknown id f = elim (Bool-cases (input.claim_id == id)) [
      | inl same ↦ let e = (eq_iff input.claim_id id).0 same in absurd (ground (arith, run.found))
      | inr other ↦ (
        partial-total id ∙ (rw other) ∙ (s.unknown id f).0,
        partial-terminal_rows id ∙ (s.unknown id f).1,
      )
    ]

    pub partial-IsSound : DatabaseIsSound d db'
    partial-IsSound = record {
      known = λ id c f. let f' = rw run.claims at f in partial-known id c f' (s.known id c f');
      unknown = λ id f. partial-unknown id (rw run.claims at f);
    }
