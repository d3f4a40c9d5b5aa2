-- ===== src/Workflow/Outbox.antt =====
-- The outbox (workflow-outbox.ts, reclaim-stale-outbox-messages.ts, schedule-outbox-delivery-jobs.ts,
-- jobs/outbox-message-scan-handler.ts, jobs/deliver-outbox-message-handler.ts): intents to deliver, that
-- a handler records in its own transaction and a deliverer claims later. The queue is Workflow.Queue's.
pub mod Once
use freight_auditor.Prelude.{
  ℕ, suc, ◌+◌, String, ◌==◌, Bool, true, false, not, ◌&&◌, Option, none, some, List, [], ◌∷◌, any,
  find, length, if◌then◌else◌, includes, Result, ok, err, ◌>>=◌, ◌>>◌, throw_if, need,
}
use freight_auditor.Audit.{system, AuditEvent, AuditLog, AuditError, write_audit_event}
use freight_auditor.Workflow.Queue.{
  pending, key_text, Row, ids, claim_due, may_complete, complete, limit, ReclaimStaleClaimsConfig,
  ReclaimStaleClaimsResult, Account, active, reclaim_stale_claims_for_active_clients,
}

pub record Intent : Type 0 where
  pub command_id : String
  pub dedupe_key : String
  pub message_type : String
  pub payload : String

-- `due_at` is `created_at`.
abbrev pub Message : Type 0
Message = Row Intent

pub data OutboxError : Type 0 where
  command_not_found unique_violation unregistered_message_type audit_conflict : OutboxError
  sender_threw : OutboxError

pub record DeliveryJob : Type 0 where
  pub id : String
  pub client_id : String
  pub idempotency_key : String
  pub outbox_message_id : String
  pub workflow_instance_id : String
  pub command_id : String
  pub message_type : String
  pub payload : String

pub record Database : Type 0 where
  pub accounts : List Account
  -- The account and the id of each `workflow_command`.
  pub commands : List (String × String)
  pub messages : List Message
  pub jobs : List DeliveryJob
  pub audit : AuditLog

abbrev pub outbox_config : ReclaimStaleClaimsConfig
outbox_config = record {
  entity = "workflow_outbox_message";
  reclaimed_event = "workflow.outbox_message_reclaimed";
  failed_event = "workflow.outbox_message_failed";
}

abbrev pub lift_audit {ℓ} : {A : Type ℓ} → Result AuditError A → Result OutboxError A
lift_audit (ok a) = ok a
lift_audit (err e) = err audit_conflict

pub record RecordInput : Type 0 where
  pub client_id : String
  pub workflow_instance_id : String
  pub command_id : String
  pub dedupe_key : String
  pub message_type : String
  pub payload : String

pub record RecordOutboxMessageResult : Type 0 where
  pub outbox_message_id : String
  pub created : Bool

abbrev pub has_command : String → String → List (String × String) → Bool
has_command account id rows = any (λ (c : String × String). c.0 == account && c.1 == id) rows

-- UNIQUE (account_id, dedupe_key).
abbrev pub same_message : String → String → Message → Bool
same_message account key m = m.account_id == account && m.work.dedupe_key == key

abbrev pub new_message : RecordInput → String → ℕ → Message
new_message input id now = record {
  id = id;
  account_id = input.client_id;
  workflow_instance_id = input.workflow_instance_id;
  work = record {
    command_id = input.command_id;
    dedupe_key = input.dedupe_key;
    message_type = input.message_type;
    payload = input.payload;
  };
  due_at = now;
  status = pending;
  attempts = 0;
  claimed_at = none;
}

-- The context of a sender.
pub record SenderContext : Type 0 where
  pub client_id : String
  pub workflow_instance_id : String
  pub command_id : String
  pub outbox_message_id : String
  pub idempotency_key : String
  pub payload : String

-- A sender calls another system: what it leaves here is its answer, or an exception.
abbrev pub Senders : Type 0
Senders = List (String × (SenderContext → Result OutboxError (Unit {0})))

abbrev pub sender_of : String → Senders → Option (SenderContext → Result OutboxError (Unit {0}))
sender_of key [] = none
sender_of key ((k, s) ∷ rest) = if k == key then some s else sender_of key rest

abbrev pub send_delivery : DeliveryJob → List DeliveryJob → List DeliveryJob
send_delivery j jobs = if any (λ (k : DeliveryJob). k.id == j.id) jobs then jobs else j ∷ jobs

abbrev pub context_of_delivery : DeliveryJob → SenderContext
context_of_delivery j = record {
  client_id = j.client_id;
  workflow_instance_id = j.workflow_instance_id;
  command_id = j.command_id;
  outbox_message_id = j.outbox_message_id;
  idempotency_key = j.idempotency_key;
  payload = j.payload;
}

module _ (deterministic_job_id : String → String → String → String) where
  abbrev pub delivery_of : Message → DeliveryJob
  delivery_of m = record {
    id =
        deterministic_job_id "freight.workflow.deliver-outbox-message.v1" m.account_id
          (key_text "workflow-outbox-message:" m.id m.attempts);
    client_id = m.account_id;
    idempotency_key = m.work.dedupe_key;
    outbox_message_id = m.id;
    workflow_instance_id = m.workflow_instance_id;
    command_id = m.work.command_id;
    message_type = m.work.message_type;
    payload = m.work.payload;
  }

  unfoldable pub enqueue_deliveries : List Message → List DeliveryJob → List DeliveryJob
  enqueue_deliveries [] jobs = jobs
  enqueue_deliveries (m ∷ ms) jobs = enqueue_deliveries ms (send_delivery (delivery_of m) jobs)

  unfoldable pub schedule_deliveries :
      ℕ → List String → List Message × List DeliveryJob × ℕ → List Message × List DeliveryJob × ℕ
  schedule_deliveries now [] s = s
  schedule_deliveries now (account ∷ accounts) (messages, jobs, enqueued) =
      let (messages', due) = claim_due account now limit messages in
      schedule_deliveries now accounts
        (messages', enqueue_deliveries due jobs, enqueued + length due)

  unfoldable pub schedule_outbox_delivery_jobs :
      ℕ → List Account → List Message × List DeliveryJob → List Message × List DeliveryJob × ℕ
  schedule_outbox_delivery_jobs now accounts (messages, jobs) =
      schedule_deliveries now (active accounts) (messages, jobs, 0)

module _ (audit_event_id : List String → String) (json : List (String × String) → String) where
  abbrev pub outbox_event : String → String → String → String → ℕ → AuditEvent
  outbox_event account id event detail now = record {
    id = audit_event_id (account ∷ id ∷ event ∷ []);
    entity = "workflow_outbox_message";
    entity_id = id;
    event = event;
    actor_kind = system;
    account_id = some account;
    actor_user_id = none;
    rule_version_id = none;
    rubric_snapshot_id = none;
    detail = detail;
    recorded_at = now;
  }

  abbrev pub recorded_event : RecordInput → String → ℕ → AuditEvent
  recorded_event input new_id now =
      outbox_event input.client_id new_id "workflow.outbox_message_recorded"
        (json (
          ("workflowInstanceId", input.workflow_instance_id)
          ∷ ("commandId", input.command_id)
          ∷ ("dedupeKey", input.dedupe_key)
          ∷ []))
        now

  -- INSERT … ON CONFLICT (account_id, dedupe_key) DO NOTHING, or the id of the row that is there.
  unfoldable pub insert_message :
      RecordInput
      → String
      → ℕ
      → Database
      → Result OutboxError (Database × RecordOutboxMessageResult)
  insert_message input new_id now db =
      elim (find (same_message input.client_id input.dedupe_key) db.messages) [
        | some m ↦ ok (db, record { outbox_message_id = m.id; created = false })
        | none ↦
            throw_if (includes new_id (ids db.messages)) unique_violation
            >> lift_audit (write_audit_event (recorded_event input new_id now) db.audit)
            >>= λ w. ok (
              record db { messages = new_message input new_id now ∷ db.messages; audit = w.log },
              record { outbox_message_id = new_id; created = true },
            )
      ]

  unfoldable pub record_outbox_message :
      RecordInput
      → String
      → ℕ
      → Database
      → Result OutboxError (Database × RecordOutboxMessageResult)
  record_outbox_message input new_id now db =
      throw_if (not (has_command input.client_id input.command_id db.commands)) command_not_found
      >> insert_message input new_id now db

  -- The UPDATE, and an event if it met a row.
  unfoldable pub complete_outbox_message :
      String → String → ℕ → Database → Result OutboxError (Database × Bool)
  complete_outbox_message account id now db =
      let delivered =
        lift_audit (
          write_audit_event
            (outbox_event account id "workflow.outbox_message_delivered" (json []) now) db.audit)
        >>= λ w.
            ok (record db { messages = complete account id db.messages; audit = w.log }, true) in
      if any (may_complete account id) db.messages then delivered else ok (db, false)

  abbrev pub sent_event : DeliveryJob → ℕ → AuditEvent
  sent_event j now =
      outbox_event j.client_id j.outbox_message_id "workflow.outbox_message_sent"
        (json (
          ("workflowInstanceId", j.workflow_instance_id)
          ∷ ("commandId", j.command_id)
          ∷ ("messageType", j.message_type)
          ∷ []))
        now

  -- `dispatch`, as handleDeliverOutboxMessageJob configures it.
  unfoldable pub handle_deliver_outbox_message_job :
      Senders → DeliveryJob → ℕ → Database → Result OutboxError Database
  handle_deliver_outbox_message_job senders j now db =
      need (sender_of j.message_type senders) unregistered_message_type >>= λ sender.
      sender (context_of_delivery j)
      >> complete_outbox_message j.client_id j.outbox_message_id now db
      >>= λ c. lift_audit (write_audit_event (sent_event j now) c.0.audit) >>= λ w.
          ok (record c.0 { audit = w.log })

  module _ (deterministic_job_id : String → String → String → String) where
    -- handleOutboxMessageScanJob: recovery, then the scan, in one transaction.
    unfoldable pub handle_outbox_message_scan_job :
        ℕ → Database → Result OutboxError (Database × ℕ × ReclaimStaleClaimsResult)
    handle_outbox_message_scan_job now db =
        lift_audit (
          reclaim_stale_claims_for_active_clients audit_event_id json outbox_config now db.accounts
            db.messages db.audit)
        >>= λ r.
            let (messages, jobs, n) =
              schedule_outbox_delivery_jobs deterministic_job_id now db.accounts (r.0, db.jobs) in
            ok (record db { messages = messages; jobs = jobs; audit = r.1 }, n, r.2)
