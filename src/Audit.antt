-- ===== src/Audit.antt =====
-- The audit ledger (src/modules/audit-ledger/write-audit-event.ts): an append-only table whose ids are
-- derived from what is recorded, so a retry finds its own row. The table is a list, newest first.
-- The input schema's checks are the types here; `detail` is the text of the jsonb value, null included.
-- `entity_id` is never null in what the models write.
pub mod Laws
use freight_auditor.Prelude.{
  ℕ, String, ◌==◌, Bool, ◌&&◌, Option, none, some, List, [], ◌∷◌, Result, ok, err, if◌then◌else◌,
  find, true, false,
}

pub data ActorKind : Type 0 where
  analyst ai system client : ActorKind

abbrev pub actor_kind_eq : ActorKind → ActorKind → Bool
actor_kind_eq ActorKind.analyst ActorKind.analyst = true
actor_kind_eq ActorKind.ai ActorKind.ai = true
actor_kind_eq ActorKind.system ActorKind.system = true
actor_kind_eq ActorKind.client ActorKind.client = true
actor_kind_eq _ _ = false

pub record AuditEvent : Type 0 where
  pub id : String
  pub account_id : Option String
  pub entity : String
  pub entity_id : String
  pub event : String
  pub actor_kind : ActorKind
  pub actor_user_id : Option String
  pub rule_version_id : Option String
  pub rubric_snapshot_id : Option String
  pub detail : String
  pub recorded_at : ℕ

-- `audit_event`.
abbrev pub AuditLog : Type 0
AuditLog = List AuditEvent

pub record Written : Type 0 where
  pub log : AuditLog
  pub created : Bool

pub data AuditError : Type 0 where
  audit_event_conflict : AuditError

-- IS NOT DISTINCT FROM.
abbrev pub not_distinct : Option String → Option String → Bool
not_distinct none none = true
not_distinct (some s) (some t) = s == t
not_distinct _ _ = false

-- The columns that the fallback SELECT compares; `recorded_at` is not among them.
unfoldable pub same_evidence : AuditEvent → AuditEvent → Bool
same_evidence a b =
    not_distinct a.account_id b.account_id
    && a.entity == b.entity
    && a.entity_id == b.entity_id
    && a.event == b.event
    && actor_kind_eq a.actor_kind b.actor_kind
    && not_distinct a.actor_user_id b.actor_user_id
    && not_distinct a.rule_version_id b.rule_version_id
    && not_distinct a.rubric_snapshot_id b.rubric_snapshot_id
    && a.detail == b.detail

unfoldable pub find_event : String → AuditLog → Option AuditEvent
find_event id [] = none
find_event id (e ∷ log) = if e.id == id then some e else find_event id log

-- INSERT … ON CONFLICT (id) DO NOTHING, then the row that is there, if it is the same evidence.
unfoldable pub write_audit_event : AuditEvent → AuditLog → Result AuditError Written
write_audit_event e log = elim (find_event e.id log) [
  | none ↦ ok (record { log = e ∷ log; created = true })
  | some old ↦
      if same_evidence old e
      then ok (record { log = log; created = false })
      else err audit_event_conflict
]
