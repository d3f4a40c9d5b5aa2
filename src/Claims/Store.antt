-- ===== src/Claims/Store.antt =====
-- The operations on the claim tables (record-partial-recovery.ts, resolve-claim.ts,
-- create-claim-from-dispute.ts, detect-duplicate-claimed-finding.ts, get-derived-claim-status.ts), for
-- one tenant. Each is one transaction: an error leaves the database as it was. A table is a list, newest
-- row first; a row's generated id, the time and whether the export queue took the job are arguments.
use freight_auditor.Prelude.{
  ℕ, String, ◌==◌, Bool, true, false, not, ◌&&◌, ◌||◌, Option, none, some, List, [], ◌∷◌, Result,
  ok, err, ◌>>=◌, ◌>>◌, throw_if, need, if◌then◌else◌, any,
}
use freight_auditor.Money.{Decimal}
use freight_auditor.Audit.{AuditEvent, AuditLog, analyst, AuditError, write_audit_event}
use freight_auditor.Claims.Findings.{
  tenant, FindingStatusEvent, FindingTables, update_finding_status,
}
use freight_auditor.Claims.Status.{
  ClaimTerminalStatus, recovered, denied, written_off, open_status, terminal, claim_terminal_event,
  terminal_event_to_status, TerminalAuditEvent, DeriveClaimStatusResult, derive_claim_status,
}
use freight_auditor.Claims.Validation.{
  ClaimError, claim_not_found, dispute_not_found, duplicate_claimed_finding, audit_event_conflict,
  Claim, ValidAmount, ClaimableDispute, validate_claimable_dispute, ValidPartialRecovery,
  validate_partial_recovery, ClaimResolutionKind, full_recovery, denial, write_off, ValidResolution,
  validate_claim_resolution,
}

abbrev pub lift_audit {ℓ} : {A : Type ℓ} → Result AuditError A → Result ClaimError A
lift_audit (ok a) = ok a
lift_audit (err e) = err audit_event_conflict

abbrev pub first {ℓ} : {A : Type ℓ} {B : Type 0} → Result ClaimError (A × B) → Result ClaimError A
first (ok p) = ok p.0
first (err e) = err e

abbrev pub kind_text : ClaimResolutionKind → String
kind_text full_recovery = "FULL_RECOVERY"
kind_text denial = "DENIAL"
kind_text write_off = "WRITE_OFF"

-- `SELECT event, recorded_at FROM audit_event WHERE entity = 'claim' AND entity_id = … AND event = ANY(…)`.
unfoldable pub is_terminal_row : String → AuditEvent → Bool
is_terminal_row id e =
    e.entity == "claim"
    && e.entity_id == id
    && elim (terminal_event_to_status e.event) [ none ↦ false | some t ↦ true ]

unfoldable pub terminal_rows : String → AuditLog → List TerminalAuditEvent
terminal_rows id [] = []
terminal_rows id (e ∷ log) =
    let rest = terminal_rows id log in
    if is_terminal_row id e
    then (record { event = e.event; recorded_at = e.recorded_at }) ∷ rest
    else rest

module _ (d : Decimal) where
  pub record ClaimEntry : Type 0 where
    pub id : String
    pub dispute_id : String
    pub claim : Claim d

  pub record RecoveryEvent : Type 0 where
    pub claim_id : String
    pub finding_id : Option String
    pub amount_recovered : d.D
    pub currency : String

  pub record DisputeLine : Type 0 where
    pub dispute_id : String
    pub finding_id : Option String

  -- The tables that the operations read and write; `exports` is the export queue.
  pub record Database : Type 0 where
    pub claims : List ClaimEntry
    pub recovery_events : List RecoveryEvent
    pub disputes : List (String × ClaimableDispute d)
    pub dispute_lines : List DisputeLine
    pub exports : List String
    pub findings : List (String × String)
    pub status_events : List FindingStatusEvent
    pub audit : AuditLog

  unfoldable pub find_claim : String → List ClaimEntry → Option (Claim d)
  find_claim id [] = none
  find_claim id (c ∷ cs) = if c.id == id then some c.claim else find_claim id cs

  -- `SELECT COALESCE(SUM(amount_recovered), 0) … WHERE claim_id = …`.
  unfoldable pub recovered_total : String → List RecoveryEvent → d.D
  recovered_total id [] = d.zero
  recovered_total id (e ∷ es) =
      let rest = recovered_total id es in
      if e.claim_id == id then d.plus rest e.amount_recovered else rest

  -- `UPDATE claim SET status = … WHERE id = …`.
  unfoldable pub set_status : String → ClaimTerminalStatus → List ClaimEntry → List ClaimEntry
  set_status id t [] = []
  set_status id t (c ∷ cs) =
      (if c.id == id then record c { claim = record (c.claim) { status = terminal t } } else c)
      ∷ set_status id t cs

  unfoldable pub find_dispute :
      String → List (String × ClaimableDispute d) → Option (ClaimableDispute d)
  find_dispute id [] = none
  find_dispute id ((j, row) ∷ rows) = if j == id then some row else find_dispute id rows

  -- `selectExistingClaim`.
  unfoldable pub select_existing_claim : String → List ClaimEntry → Option ClaimEntry
  select_existing_claim dispute [] = none
  select_existing_claim dispute (c ∷ cs) =
      if c.dispute_id == dispute then some c else select_existing_claim dispute cs

  abbrev holds_finding : Option String → Option String → Bool
  holds_finding (some f) (some g) = f == g
  holds_finding _ _ = false

  -- The join of `detectDuplicateClaimedFinding`: another dispute with a claim has a line on the finding.
  unfoldable pub claimed_elsewhere :
      String → Option String → List ClaimEntry → List DisputeLine → Bool
  claimed_elsewhere dispute finding claims [] = false
  claimed_elsewhere dispute finding claims (l ∷ ls) =
      not (l.dispute_id == dispute)
        && holds_finding finding l.finding_id
        && any (λ (c : ClaimEntry). c.dispute_id == l.dispute_id) claims
      || claimed_elsewhere dispute finding claims ls

  unfoldable pub has_duplicate_claimed_finding :
      String → List ClaimEntry → List DisputeLine → List DisputeLine → Bool
  unfolding claimed_elsewhere
  has_duplicate_claimed_finding dispute claims lines [] = false
  has_duplicate_claimed_finding dispute claims lines (l ∷ ls) =
      l.dispute_id == dispute && claimed_elsewhere dispute l.finding_id claims lines
      || has_duplicate_claimed_finding dispute claims lines ls

  abbrev pub resolution_detail : Option (ValidAmount d) → String → List (String × String)
  resolution_detail none id = []
  resolution_detail (some v) id =
      ("amountRecovered", d.to_string v.amount)
      ∷ ("currency", v.currency)
      ∷ ("recoveryEventId", id)
      ∷ []

  abbrev pub created_detail : String → ValidAmount d → List (String × String)
  created_detail dispute v =
      ("disputeId", dispute)
      ∷ ("amountClaimed", d.to_string v.amount)
      ∷ ("currency", v.currency)
      ∷ []

  -- `deterministicAuditEventId` is a hash and `detail` a JSON text, here of its members that are not null.
  module _ (audit_event_id : List String → String) (json : List (String × String) → String) where
    abbrev pub claim_event :
        Option String → String → String → List (String × String) → ℕ → AuditEvent
    claim_event user claim_id event detail now = record {
      id = audit_event_id (claim_id ∷ event ∷ []);
      entity = "claim";
      entity_id = claim_id;
      event = event;
      actor_kind = analyst;
      account_id = tenant;
      actor_user_id = user;
      rule_version_id = none;
      rubric_snapshot_id = none;
      detail = json detail;
      recorded_at = now;
    }

    pub record PartialRecoveryInput : Type 0 where
      pub claim_id : String
      pub amount_recovered : d.D
      pub currency : String
      pub finding_id : Option String
      pub new_id : String
      pub now : ℕ
      pub enqueued : Bool

    pub record PartialRecoveryResult : Type 0 where
      pub cumulative_recovered : String
      pub is_final : Bool

    abbrev pub recovery_recorded : PartialRecoveryInput → ValidPartialRecovery d → AuditEvent
    recovery_recorded input v = record {
      id = audit_event_id (input.new_id ∷ "recovery-event.recorded" ∷ []);
      entity = "recovery_event";
      entity_id = input.new_id;
      event = "recovery_event.recorded";
      actor_kind = analyst;
      account_id = tenant;
      actor_user_id = none;
      rule_version_id = none;
      rubric_snapshot_id = none;
      detail = json (
          ("claimId", input.claim_id)
          ∷ ("amountRecovered", d.to_string v.amount)
          ∷ ("cumulativeRecovered", d.to_fixed v.cumulative)
          ∷ ("isFinal", if v.is_final then "true" else "false")
          ∷ []);
      recorded_at = input.now;
    }

    unfoldable pub record_partial_recovery :
        PartialRecoveryInput → Database → Result ClaimError (Database × PartialRecoveryResult)
    record_partial_recovery input db = do
      claim ← need (find_claim input.claim_id db.claims) claim_not_found
      let prior = recovered_total input.claim_id db.recovery_events
      v ← validate_partial_recovery d claim input.amount_recovered (some input.currency) prior
      w ← lift_audit (write_audit_event (recovery_recorded input v) db.audit)
      ok (
        record db {
          recovery_events =
              (record {
                claim_id = input.claim_id;
                finding_id = input.finding_id;
                amount_recovered = v.amount;
                currency = v.currency;
              })
              ∷ db.recovery_events;
          exports = if input.enqueued then input.new_id ∷ db.exports else db.exports;
          audit = w.log;
        },
        record { cumulative_recovered = d.to_fixed v.cumulative; is_final = v.is_final },
      )

    pub record ResolutionInput : Type 0 where
      pub claim_id : String
      pub kind : ClaimResolutionKind
      pub amount_recovered : Option d.D
      pub currency : Option String
      pub finding_id : Option String
      pub new_id : String
      pub status_event_id : String
      pub now : ℕ

    -- The terminal recovery row, where the resolution carries an amount.
    unfoldable pub insert_recovery :
        ResolutionInput → Option (ValidAmount d) → List RecoveryEvent → List RecoveryEvent
    insert_recovery input none rows = rows
    insert_recovery input (some v) rows =
        (record {
          claim_id = input.claim_id;
          finding_id = input.finding_id;
          amount_recovered = v.amount;
          currency = v.currency;
        })
        ∷ rows

    -- A named finding follows a recovery or a write-off, and not a denial.
    unfoldable pub mirror_finding :
        ResolutionInput → ClaimTerminalStatus → Database → Result ClaimError FindingTables
    mirror_finding input t db =
        let tables : FindingTables = record {
          findings = db.findings;
          status_events = db.status_events;
          audit = db.audit;
        } in
        elim input.finding_id [
          | none ↦ ok tables
          | some f ↦ elim t [
            | denied ↦ ok tables
            | recovered ↦ first (
                lift_audit (
                  update_finding_status audit_event_id json f "recovered"
                    "Claim resolved: FULL_RECOVERY" input.status_event_id input.now tables))
            | written_off ↦ first (
                lift_audit (
                  update_finding_status audit_event_id json f "written_off"
                    "Claim resolved: WRITE_OFF" input.status_event_id input.now tables))
          ]
        ]

    abbrev pub claim_resolved : ResolutionInput → ValidResolution d → AuditEvent
    claim_resolved input v =
        claim_event none input.claim_id (claim_terminal_event v.new_status)
          (("kind", kind_text input.kind) ∷ resolution_detail v.amount input.new_id) input.now

    unfoldable pub resolve_claim :
        ResolutionInput → Database → Result ClaimError (Database × ClaimTerminalStatus)
    resolve_claim input db = do
      claim ← need (find_claim input.claim_id db.claims) claim_not_found
      let prior = recovered_total input.claim_id db.recovery_events
      v ← validate_claim_resolution d claim input.kind prior input.amount_recovered input.currency
      tables ← mirror_finding input v.new_status db
      w ← lift_audit (write_audit_event (claim_resolved input v) tables.audit)
      ok (
        record db {
          claims = set_status input.claim_id v.new_status db.claims;
          recovery_events = insert_recovery input v.amount db.recovery_events;
          findings = tables.findings;
          status_events = tables.status_events;
          audit = w.log;
        },
        v.new_status,
      )

    pub record CreateInput : Type 0 where
      pub actor_user_id : Option String
      pub dispute_id : String
      pub new_id : String
      pub now : ℕ

    pub record CreateResult : Type 0 where
      pub claim_id : String
      pub created : Bool

    unfoldable pub insert_claim :
        CreateInput → ClaimableDispute d → Database → Result ClaimError (Database × CreateResult)
    insert_claim input dispute db = do
      v ← validate_claimable_dispute d dispute
      throw_if
          (has_duplicate_claimed_finding input.dispute_id db.claims db.dispute_lines
            db.dispute_lines)
          duplicate_claimed_finding
      w ← lift_audit (
          write_audit_event
            (claim_event input.actor_user_id input.new_id "claim.created"
              (created_detail input.dispute_id v) input.now)
            db.audit)
      ok (
        record db {
          claims =
              (record {
                id = input.new_id;
                dispute_id = input.dispute_id;
                claim = record {
                  amount_claimed = v.amount;
                  currency = some v.currency;
                  status = open_status;
                };
              })
              ∷ db.claims;
          audit = w.log;
        },
        record { claim_id = input.new_id; created = true },
      )

    unfoldable pub create_claim_from_dispute :
        CreateInput → Database → Result ClaimError (Database × CreateResult)
    create_claim_from_dispute input db = do
      dispute ← need (find_dispute input.dispute_id db.disputes) dispute_not_found
      elim (select_existing_claim input.dispute_id db.claims) [
        | some c ↦ ok (db, record { claim_id = c.id; created = false })
        | none ↦ insert_claim input dispute db
      ]

  abbrev pub amounts_of : String → List RecoveryEvent → List d.D
  amounts_of id [] = []
  amounts_of id (e ∷ es) =
      let rest = amounts_of id es in if e.claim_id == id then e.amount_recovered ∷ rest else rest

  unfoldable pub get_derived_claim_status :
      String → Database → Result ClaimError (DeriveClaimStatusResult d)
  get_derived_claim_status id db = do
    claim ← need (find_claim id db.claims) claim_not_found
    ok (
        derive_claim_status d (record {
          stored_status = claim.status;
          terminal_events = terminal_rows id db.audit;
          recovery_events = amounts_of id db.recovery_events;
        }))
