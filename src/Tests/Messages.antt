-- ===== src/Tests/Messages.antt =====
-- A message that is recorded, claimed, delivered, and recorded again.
use freight_auditor.Prelude.{String, true, false, [], ◌∷◌, ok, ◌≡◌, refl}
use freight_auditor.Audit.{find_event, write_audit_event}
use freight_auditor.Tests.Inputs.{joined, object_text}
use freight_auditor.Workflow.Queue.{
  update_in, select_ids, claim_row, claim_due, complete_row, complete, reclaim_stale_claims,
  record_recoveries, reclaim_each, reclaim_stale_claims_for_active_clients,
}
use freight_auditor.Workflow.Outbox.{
  Database, RecordInput, new_message, Senders, delivery_of, enqueue_deliveries, schedule_deliveries,
  schedule_outbox_delivery_jobs, outbox_event, recorded_event, insert_message,
  record_outbox_message, complete_outbox_message, sent_event, handle_deliver_outbox_message_job,
  handle_outbox_message_scan_job,
}
use freight_auditor.Workflow.Outbox.Once.{
  scanned, delivered, here, next, record_outbox_message-once,
}

abbrev letter : RecordInput
letter = record {
  client_id = "acme";
  workflow_instance_id = "w1";
  command_id = "c1";
  dedupe_key = "dispute:d1";
  message_type = "deliver_dispute";
  payload = "{}";
}

abbrev empty : Database
empty = record {
  accounts = record { id = "acme"; is_active = true } ∷ [];
  commands = ("acme", "c1") ∷ ("acme", "c2") ∷ [];
  messages = [];
  jobs = [];
  audit = [];
}

abbrev one : Database
one = record empty {
  messages = new_message letter "m1" 10 ∷ [];
  audit = recorded_event joined object_text letter "m1" 10 ∷ [];
}

abbrev by_key : String → String → String → String
by_key name account key = key

abbrev two : Database
two = record one {
  messages = claim_row 20 (new_message letter "m1" 10) ∷ [];
  jobs = delivery_of by_key (claim_row 20 (new_message letter "m1" 10)) ∷ [];
}

abbrev answered : Senders
answered = ("deliver_dispute", λ ctx. ok tt) ∷ []

abbrev three : Database
three = record two {
  messages = complete_row "acme" "m1" (claim_row 20 (new_message letter "m1" 10)) ∷ [];
  audit =
      sent_event joined object_text (delivery_of by_key (claim_row 20 (new_message letter "m1" 10)))
        30
      ∷ outbox_event joined object_text "acme" "m1" "workflow.outbox_message_delivered"
          (object_text []) 30
      ∷ one.audit;
}

records :
    record_outbox_message joined object_text letter "m1" 10 empty
    ≡ ok (one, record { outbox_message_id = "m1"; created = true })
unfolding record_outbox_message insert_message write_audit_event find_event
records = refl

claims :
    handle_outbox_message_scan_job joined object_text by_key 20 one
    ≡ ok (two, 1, record { reclaimed = 0; failed = 0 })
unfolding handle_outbox_message_scan_job reclaim_stale_claims_for_active_clients reclaim_each
    reclaim_stale_claims record_recoveries schedule_outbox_delivery_jobs schedule_deliveries
    claim_due enqueue_deliveries select_ids update_in
claims = refl

delivers :
    handle_deliver_outbox_message_job joined object_text answered
      (delivery_of by_key (claim_row 20 (new_message letter "m1" 10)))
      30
      two
    ≡ ok three
unfolding handle_deliver_outbox_message_job complete_outbox_message complete write_audit_event
    find_event joined
delivers = refl

record_outbox_message-once_example :
    record_outbox_message joined object_text (record letter { command_id = "c2" }) "m9" 40 three
    ≡ ok (three, record { outbox_message_id = "m1"; created = false })
record_outbox_message-once_example =
    record_outbox_message-once joined object_text letter (record letter { command_id = "c2" }) "m1"
      "m9" 10 40 empty one three (record { outbox_message_id = "m1"; created = true }) records
      (next (next here (scanned by_key 20 (1, record { reclaimed = 0; failed = 0 }) claims)) (
        delivered answered (delivery_of by_key (claim_row 20 (new_message letter "m1" 10))) 30
          delivers))
      refl refl refl
