-- ===== src/Tests/Work.antt =====
-- A command that is scheduled and claimed by a scan, and one that no worker completes.
use freight_auditor.Prelude.{◌+◌, String, true, some, [], ◌∷◌, All, length, ok, ◌≡◌, refl, arith}
use freight_auditor.Audit.{find_event, write_audit_event}
use freight_auditor.Tests.Inputs.{joined, object_text}
use freight_auditor.Tests.Encoding.{encoding, encoding_inj}
use freight_auditor.Workflow.Queue.{
  update_in, select_ids, claim_row, claim_due, reclaim_stale_claims, Account, record_recoveries,
  reclaim_each, reclaim_stale_claims_for_active_clients,
}
use freight_auditor.Workflow.Queue.Rows.{Distinct, with_id}
use freight_auditor.Workflow.Queue.Lifecycle.{Lifecycle, RowIsSound}
use freight_auditor.Workflow.Commands.{
  Command, Database, send, ScheduleInput, new_command, ScanResult, job_of, enqueue_all,
  schedule_each, schedule_workflow_command_jobs, scheduled_event, insert_command,
  schedule_workflow_command, handle_workflow_command_scan_job,
}
use freight_auditor.Workflow.Commands.Jobs.{HasJob, NoneToCome}
use freight_auditor.Workflow.Commands.Reachable.{
  no_commands, scheduled, scanned, Reach, here, next, Reach-QueueIsSound, scan_loses_no_job,
}
use freight_auditor.Workflow.Commands.Recoveries.{Unrecorded}
use freight_auditor.Workflow.Commands.Ticks.Rows.{is_over}
use freight_auditor.Workflow.Commands.Abandoned.{Spaced, IsScannable, scans, abandoned_command_ends}

abbrev by_key : String → String → String → String
by_key name account key = key

abbrev shipper : Account
shipper = record { id = "acme"; is_active = true }

abbrev start : Database
start = no_commands (shipper ∷ []) (("acme", "w1") ∷ []) []

abbrev deliver : ScheduleInput
deliver = record {
  client_id = "acme";
  workflow_instance_id = "w1";
  command_type = "deliver_dispute";
  payload = "{}";
  run_after = 1000;
}

abbrev command_id : String
command_id = "00000000-0000-4000-8000-000000000001"

abbrev fresh : Command
fresh = new_command deliver command_id

abbrev scheduled_db : Database
scheduled_db = record start {
  commands = fresh ∷ [];
  audit = scheduled_event joined object_text deliver command_id 900 ∷ [];
}

abbrev scanned_db : Database
scanned_db = record scheduled_db {
  commands = claim_row 2000 fresh ∷ [];
  jobs = job_of by_key (claim_row 2000 fresh) ∷ [];
}

abbrev one_job : ScanResult
one_job = record { enqueued = 1; recovery = record { reclaimed = 0; failed = 0 } }

schedules :
    schedule_workflow_command joined object_text deliver command_id 900 start
    ≡ ok (scheduled_db, record { command_id = command_id; created = true })
unfolding schedule_workflow_command insert_command write_audit_event find_event
schedules = refl

scans_once :
    handle_workflow_command_scan_job joined object_text by_key 2000 scheduled_db
    ≡ ok (scanned_db, one_job)
unfolding handle_workflow_command_scan_job reclaim_stale_claims_for_active_clients reclaim_each
    reclaim_stale_claims record_recoveries schedule_workflow_command_jobs schedule_each claim_due
    enqueue_all send select_ids update_in
scans_once = refl

abbrev reaches_scheduled : Reach joined object_text by_key start scheduled_db
reaches_scheduled = next here (
    scheduled deliver command_id 900 (record { command_id = command_id; created = true }) refl
      schedules)

Reach-QueueIsSound_example :
    Distinct scanned_db.commands
    × All RowIsSound scanned_db.commands
    × All (HasJob by_key scanned_db.jobs) scanned_db.commands
    × ((c : Command)
        → with_id c.id scanned_db.commands ≡ some c
        → NoneToCome by_key scanned_db.jobs c)
Reach-QueueIsSound_example =
    Reach-QueueIsSound joined object_text by_key (λ _ _ _ _ _ e. e) (shipper ∷ [])
      (("acme", "w1") ∷ []) [] scanned_db (next reaches_scheduled (scanned 2000 one_job scans_once))

scan_loses_no_job_example : length scanned_db.jobs ≡ length scheduled_db.jobs + 1
scan_loses_no_job_example =
    scan_loses_no_job joined object_text by_key (λ _ _ _ _ _ e. e) (shipper ∷ [])
      (("acme", "w1") ∷ []) [] scheduled_db scanned_db 2000 one_job reaches_scheduled scans_once

abbrev stuck : Command
stuck = claim_row 2000 fresh

abbrev stuck_db : Database
stuck_db = record start { commands = stuck ∷ []; jobs = job_of by_key stuck ∷ [] }

stuck-IsScannable : IsScannable encoding object_text by_key encoding_inj stuck_db
unfolding Distinct Unrecorded find_event
stuck-IsScannable = record {
  distinct = (refl, tt);
  small = omega arith;
  unrecorded = ((λ o e n le. refl), tt);
}

abandoned_command_ends_example :
    (db' : Database) × (c' : Command) × (scans encoding object_text by_key encoding_inj
        (3000 ∷ 1803000 ∷ 3603000 ∷ 5403000 ∷ 7203000 ∷ 9003000 ∷ [])
        stuck_db
      ≡ ok db')
    × (with_id command_id db'.commands ≡ some c')
    × (is_over c'.status ≡ true)
unfolding Lifecycle Spaced
abandoned_command_ends_example =
    abandoned_command_ends encoding object_text by_key encoding_inj stuck_db stuck 3000
      (1803000 ∷ 3603000 ∷ 5403000 ∷ 7203000 ∷ 9003000 ∷ []) stuck-IsScannable refl
      (omega arith, omega arith, (2000, refl)) refl (omega arith) (λ u e. ground (arith, e))
      (omega arith) (omega arith)
