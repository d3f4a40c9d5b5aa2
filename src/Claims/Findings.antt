-- ===== src/Claims/Findings.antt =====
-- A finding's status and its append-only history (src/modules/findings/update-finding-status.ts). The
-- three writes are one: the row, its history entry and the audit event.
use freight_auditor.Prelude.{
  ℕ, String, ◌==◌, Bool, true, false, Option, none, some, List, [], ◌∷◌, Result, ok, ◌>>=◌,
  if◌then◌else◌,
}
use freight_auditor.Audit.{AuditEvent, AuditLog, analyst, AuditError, write_audit_event}

pub record FindingStatusEvent : Type 0 where
  pub finding_id : String
  pub from_status : String
  pub to_status : String
  pub note : String

pub record FindingTables : Type 0 where
  pub findings : List (String × String)
  pub status_events : List FindingStatusEvent
  pub audit : AuditLog

-- `input.clientId`: nothing is computed from it, since every query is scoped to it.
abbrev pub tenant : Option String
tenant = some "tenant"

unfoldable pub find_status : String → List (String × String) → Option String
find_status id [] = none
find_status id ((j, s) ∷ rows) = if j == id then some s else find_status id rows

unfoldable pub set_finding_status :
    String → String → List (String × String) → List (String × String)
set_finding_status id to [] = []
set_finding_status id to ((j, s) ∷ rows) =
    (j, if j == id then to else s) ∷ set_finding_status id to rows

module _ (audit_event_id : List String → String) (json : List (String × String) → String) where
  abbrev pub status_changed : String → String → String → String → String → ℕ → AuditEvent
  status_changed finding from to note event_id now = record {
    id = audit_event_id (event_id ∷ "finding.status_changed" ∷ []);
    entity = "variance_finding";
    entity_id = finding;
    event = "finding.status_changed";
    actor_kind = analyst;
    account_id = tenant;
    actor_user_id = none;
    rule_version_id = none;
    rubric_snapshot_id = none;
    detail = json (
        ("fromStatus", from)
        ∷ ("toStatus", to)
        ∷ ("note", note)
        ∷ ("statusEventId", event_id)
        ∷ []);
    recorded_at = now;
  }

  -- `found: false` and nothing written for a finding that is not there.
  unfoldable pub update_finding_status :
      String
      → String
      → String
      → String
      → ℕ
      → FindingTables
      → Result AuditError (FindingTables × Bool)
  update_finding_status finding to note event_id now t = elim (find_status finding t.findings) [
    | none ↦ ok (t, false)
    | some from ↦ do
      w ← write_audit_event (status_changed finding from to note event_id now) t.audit
      ok (
        record {
          findings = set_finding_status finding to t.findings;
          status_events =
              (record { finding_id = finding; from_status = from; to_status = to; note = note })
              ∷ t.status_events;
          audit = w.log;
        },
        true,
      )
  ]
