-- ===== src/Claims/Lifecycle/Runs.antt =====
-- The parts of a successful operation on the claim tables: what it found, checked and wrote.
use freight_auditor.Prelude.{
  String, false, some, List, ◌∷◌, ok, arith, ◌≡◌, refl, Bool-cases, Option-cases, inl, inr, ◌⊎◌,
  Result-cases,
}
use freight_auditor.Money.{Decimal}
use freight_auditor.Audit.{AuditEvent, Written, write_audit_event}
use freight_auditor.Claims.Status.{ClaimTerminalStatus, open_status}
use freight_auditor.Claims.Findings.{FindingTables}
use freight_auditor.Claims.Store.{
  find_dispute, select_existing_claim, has_duplicate_claimed_finding, Database, RecoveryEvent,
  ClaimEntry, find_claim, recovered_total, set_status, PartialRecoveryInput, PartialRecoveryResult,
  recovery_recorded, claim_resolved, claim_event, created_detail, record_partial_recovery,
  ResolutionInput, insert_recovery, mirror_finding, resolve_claim, CreateInput, CreateResult,
  insert_claim, create_claim_from_dispute,
}
use freight_auditor.Claims.Validation.{
  Claim, ValidAmount, ValidPartialRecovery, ValidResolution, validate_recovery_amount_and_currency,
  validate_partial_recovery, validate_claim_resolution, ClaimableDispute,
  validate_claimable_dispute,
}
use freight_auditor.Claims.Lifecycle.Inversion.{PartialIsChecked, validate_partial_recovery-ok}

module _ (d : Decimal) where
  module _ (audit_event_id : List String → String) (json : List (String × String) → String) where
    pub record PartialRun (input : PartialRecoveryInput d audit_event_id json) (db db' : Database d)
        : Type 0 where
      pub claim : Claim d
      pub found : find_claim d input.claim_id db.claims ≡ some claim
      pub v : ValidPartialRecovery d
      pub checked :
          PartialIsChecked d claim input.amount_recovered
            (recovered_total d input.claim_id db.recovery_events)
            v
      pub w : Written
      pub e : AuditEvent
      pub entity : e.entity ≡ "recovery_event"
      pub wrote : write_audit_event e db.audit ≡ ok w
      pub claims : db'.claims ≡ db.claims
      pub audit : db'.audit ≡ w.log
      pub row : RecoveryEvent d
      pub row_claim : row.claim_id ≡ input.claim_id
      pub row_amount : row.amount_recovered ≡ input.amount_recovered
      pub rows : db'.recovery_events ≡ row ∷ db.recovery_events

    pub record_partial_recovery-ok :
        (input : PartialRecoveryInput d audit_event_id json) (db db' : Database d)
        {r : PartialRecoveryResult d audit_event_id json}
        → record_partial_recovery d audit_event_id json input db ≡ ok (db', r)
        → PartialRun input db db'
    unfolding record_partial_recovery
    record_partial_recovery-ok input db db' h =
        elim (Option-cases (find_claim d input.claim_id db.claims)) [
          | inl p ↦ absurd (cc (rw (p, record_partial_recovery) at h))
          | inr (claim, p) ↦
              elim (Result-cases (
                validate_partial_recovery d claim input.amount_recovered (some input.currency)
                  (recovered_total d input.claim_id db.recovery_events))) [
                    | inr (e, q) ↦ absurd (ground arith)
                    | inl (v, q) ↦
                        elim (Result-cases (
                          write_audit_event (recovery_recorded d audit_event_id json input v)
                            db.audit)) [
                              | inr (e, u) ↦ absurd (ground arith)
                              | inl (w, u) ↦ record {
                                claim = claim;
                                found = p;
                                v = v;
                                checked = validate_partial_recovery-ok d claim _ _ _ q;
                                w = w;
                                e = recovery_recorded d audit_event_id json input v;
                                entity = refl;
                                wrote = u;
                                claims = ground arith;
                                audit = ground arith;
                                row = record {
                                  claim_id = input.claim_id;
                                  finding_id = input.finding_id;
                                  amount_recovered = v.amount;
                                  currency = v.currency;
                                };
                                row_claim = refl;
                                row_amount = (validate_partial_recovery-ok d claim _ _ _ q).amount;
                                rows = ground arith;
                              }
                            ]
                  ]
        ]

    pub record ResolveRun (input : ResolutionInput d audit_event_id json) (db db' : Database d)
        : Type 0 where
      pub claim : Claim d
      pub found : find_claim d input.claim_id db.claims ≡ some claim
      pub v : ValidResolution d
      pub valid :
          validate_claim_resolution d claim input.kind
            (recovered_total d input.claim_id db.recovery_events)
            input.amount_recovered
            input.currency
          ≡ ok v
      pub tables : FindingTables
      pub mirrored : mirror_finding d audit_event_id json input v.new_status db ≡ ok tables
      pub w : Written
      pub wrote :
          write_audit_event (claim_resolved d audit_event_id json input v) tables.audit ≡ ok w
      pub claims : db'.claims ≡ set_status d input.claim_id v.new_status db.claims
      pub audit : db'.audit ≡ w.log
      pub rows :
          db'.recovery_events
          ≡ insert_recovery d audit_event_id json input v.amount db.recovery_events

    pub resolve_claim-ok :
        (input : ResolutionInput d audit_event_id json) (db db' : Database d)
        {t : ClaimTerminalStatus}
        → resolve_claim d audit_event_id json input db ≡ ok (db', t)
        → ResolveRun input db db'
    unfolding resolve_claim
    resolve_claim-ok input db db' h = elim (Option-cases (find_claim d input.claim_id db.claims)) [
      | inl p ↦ absurd (cc (rw (p, resolve_claim) at h))
      | inr (claim, p) ↦
          elim (Result-cases (
            validate_claim_resolution d claim input.kind
              (recovered_total d input.claim_id db.recovery_events) input.amount_recovered
              input.currency)) [
                | inr (e, q) ↦ absurd (ground arith)
                | inl (v, q) ↦
                    elim (Result-cases
                      (mirror_finding d audit_event_id json input v.new_status db)) [
                        | inr (e, m) ↦ absurd (ground arith)
                        | inl (tables, m) ↦
                            elim (Result-cases (
                              write_audit_event (claim_resolved d audit_event_id json input v)
                                tables.audit)) [
                                  | inr (e, u) ↦ absurd (ground arith)
                                  | inl (w, u) ↦ record {
                                    claim = claim;
                                    found = p;
                                    v = v;
                                    valid = q;
                                    tables = tables;
                                    mirrored = m;
                                    w = w;
                                    wrote = u;
                                    claims = ground arith;
                                    audit = ground arith;
                                    rows = ground arith;
                                  }
                                ]
                      ]
              ]
    ]

    pub record CreateRun (input : CreateInput d audit_event_id json) (db db' : Database d)
        : Type 0 where
      pub v : ValidAmount d
      pub positive : d.lte v.amount d.zero ≡ false
      pub w : Written
      pub detail : List (String × String)
      pub wrote :
          write_audit_event
            (claim_event d audit_event_id json input.actor_user_id input.new_id "claim.created"
              detail input.now)
            db.audit
          ≡ ok w
      pub entry : ClaimEntry d
      pub entry_id : entry.id ≡ input.new_id
      pub entry_amount : entry.claim.amount_claimed ≡ v.amount
      pub entry_status : entry.claim.status ≡ open_status
      pub claims : db'.claims ≡ entry ∷ db.claims
      pub audit : db'.audit ≡ w.log
      pub rows : db'.recovery_events ≡ db.recovery_events

    validate_claimable_dispute-ok :
        (row : ClaimableDispute d) {v : ValidAmount d}
        → validate_claimable_dispute d row ≡ ok v
        → d.lte v.amount d.zero ≡ false
    unfolding validate_claimable_dispute validate_recovery_amount_and_currency
    validate_claimable_dispute-ok row h = ground arith

    insert_claim-ok :
        (input : CreateInput d audit_event_id json) (row : ClaimableDispute d) (db db' : Database d)
        {r : CreateResult d audit_event_id json}
        → insert_claim d audit_event_id json input row db ≡ ok (db', r)
        → CreateRun input db db'
    unfolding insert_claim
    insert_claim-ok input row db db' h = elim (Result-cases (validate_claimable_dispute d row)) [
      | inr (e, u) ↦ absurd (ground arith)
      | inl (v, u) ↦
          elim (Bool-cases (
            has_duplicate_claimed_finding d input.dispute_id db.claims db.dispute_lines
              db.dispute_lines)) [
                | inl dup ↦ absurd (ground arith)
                | inr unique ↦
                    elim (Result-cases (
                      write_audit_event
                        (claim_event d audit_event_id json input.actor_user_id input.new_id
                          "claim.created" (created_detail d input.dispute_id v) input.now)
                        db.audit)) [
                          | inr (e, x) ↦ absurd (ground arith)
                          | inl (w, x) ↦ record {
                            v = v;
                            positive = validate_claimable_dispute-ok row u;
                            w = w;
                            detail = created_detail d input.dispute_id v;
                            wrote = x;
                            entry = record {
                              id = input.new_id;
                              dispute_id = input.dispute_id;
                              claim = record {
                                amount_claimed = v.amount;
                                currency = some v.currency;
                                status = open_status;
                              };
                            };
                            entry_id = refl;
                            entry_amount = refl;
                            entry_status = refl;
                            claims = ground arith;
                            audit = ground arith;
                            rows = ground arith;
                          }
                        ]
              ]
    ]

    -- A creation either finds the dispute's claim, and changes nothing, or inserts one.
    pub create_claim_from_dispute-ok :
        (input : CreateInput d audit_event_id json) (db db' : Database d)
        {r : CreateResult d audit_event_id json}
        → create_claim_from_dispute d audit_event_id json input db ≡ ok (db', r)
        → (db' ≡ db) ⊎ CreateRun input db db'
    unfolding create_claim_from_dispute
    create_claim_from_dispute-ok input db db' {r} h =
        elim (Option-cases (find_dispute d input.dispute_id db.disputes)) [
          | inl p ↦ absurd (cc (rw (p, create_claim_from_dispute) at h))
          | inr (row, p) ↦
              elim (Option-cases (select_existing_claim d input.dispute_id db.claims)) [
                | inr (c, q) ↦ inl (ground arith)
                | inl q ↦ inr (insert_claim-ok input row db db' {r = r} (ground arith))
              ]
        ]
