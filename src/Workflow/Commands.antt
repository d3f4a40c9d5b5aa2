-- ===== src/Workflow/Commands.antt =====
-- Workflow commands: persisting them (schedule-workflow-command.ts), the scan that recovers and claims
-- them and sends a job for each (schedule-workflow-command-jobs.ts, reclaim-stale-workflow-commands.ts,
-- jobs/enqueue.ts, jobs/make-reclaim-and-scan-job-handler.ts), and the job that runs one
-- (jobs/run-workflow-command-handler.ts, jobs/job-dispatcher.ts). pg-boss is its table of jobs: `send`
-- with an id that is there already does nothing. The digests that make ids are parameters.
pub mod Jobs
pub mod Passes
pub mod Reachable
pub mod Recoveries
pub mod Ticks
pub mod Abandoned
use freight_auditor.Prelude.{
  ℕ, suc, ◌+◌, String, ◌==◌, Bool, true, false, not, ◌&&◌, Option, none, some, List, [], ◌∷◌, any,
  find, length, if◌then◌else◌, nat_eq, includes, Result, ok, err, ◌>>=◌, ◌>>◌, throw_if, need,
}
use freight_auditor.Audit.{AuditEvent, AuditLog, AuditError, system, write_audit_event}
use freight_auditor.Workflow.Queue.{
  pending, Row, ids, claim_due, complete, may_complete, limit, count_text, key_text, Account,
  active, ReclaimStaleClaimsConfig, ReclaimStaleClaimsResult,
  reclaim_stale_claims_for_active_clients,
}

pub record Work : Type 0 where
  pub command_type : String
  pub payload : String

abbrev pub Command : Type 0
Command = Row Work

pub data WorkflowError : Type 0 where
  instance_not_found unique_violation unknown_command_type audit_conflict : WorkflowError
  handler_threw : WorkflowError

pub record Job : Type 0 where
  pub id : String
  pub client_id : String
  pub command_id : String
  pub workflow_instance_id : String
  pub command_type : String
  pub payload : String

pub record Database : Type 0 where
  pub accounts : List Account
  -- The account and the id of each `workflow_instance`.
  pub instances : List (String × String)
  pub commands : List Command
  pub jobs : List Job
  pub audit : AuditLog

abbrev pub command_config : ReclaimStaleClaimsConfig
command_config = record {
  entity = "workflow_command";
  reclaimed_event = "workflow.command_reclaimed";
  failed_event = "workflow.command_failed";
}

abbrev pub lift_audit {ℓ} : {A : Type ℓ} → Result AuditError A → Result WorkflowError A
lift_audit (ok a) = ok a
lift_audit (err e) = err audit_conflict

abbrev pub has_job : String → List Job → Bool
has_job id jobs = any (λ (j : Job). j.id == id) jobs

-- `boss.send(name, payload, { id, db })`: the jobs, and whether one was inserted.
unfoldable pub send : Job → List Job → List Job × Bool
send j jobs = if has_job j.id jobs then (jobs, false) else (j ∷ jobs, true)

pub record ScheduleInput : Type 0 where
  pub client_id : String
  pub workflow_instance_id : String
  pub command_type : String
  pub payload : String
  pub run_after : ℕ

pub record ScheduleWorkflowCommandResult : Type 0 where
  pub command_id : String
  pub created : Bool

abbrev pub has_instance : String → String → List (String × String) → Bool
has_instance account id rows = any (λ (i : String × String). i.0 == account && i.1 == id) rows

-- The columns of `workflow_command_dedupe_key` (migration 0072).
abbrev pub same_command : ScheduleInput → Command → Bool
same_command input c =
    c.account_id == input.client_id
    && c.workflow_instance_id == input.workflow_instance_id
    && c.work.command_type == input.command_type
    && nat_eq c.due_at input.run_after

abbrev pub new_command : ScheduleInput → String → Command
new_command input id = record {
  id = id;
  account_id = input.client_id;
  workflow_instance_id = input.workflow_instance_id;
  work = record { command_type = input.command_type; payload = input.payload };
  due_at = input.run_after;
  status = pending;
  attempts = 0;
  claimed_at = none;
}

-- The context of a command's handler.
pub record CommandContext : Type 0 where
  pub client_id : String
  pub workflow_instance_id : String
  pub command_id : String
  pub command_type : String
  pub payload : String

abbrev pub Handlers : Type 0
Handlers = List (String × (CommandContext → Database → Result WorkflowError Database))

-- `Map.get`, of a map whose keys are distinct.
abbrev pub handler_of :
    String → Handlers → Option (CommandContext → Database → Result WorkflowError Database)
handler_of key [] = none
handler_of key ((k, h) ∷ rest) = if k == key then some h else handler_of key rest

pub record ScanResult : Type 0 where
  pub enqueued : ℕ
  pub recovery : ReclaimStaleClaimsResult

abbrev pub context_of : Job → CommandContext
context_of j = record {
  client_id = j.client_id;
  workflow_instance_id = j.workflow_instance_id;
  command_id = j.command_id;
  command_type = j.command_type;
  payload = j.payload;
}

module _ (deterministic_job_id : String → String → String → String) where
  abbrev pub job_id : String → String → ℕ → String
  job_id client command attempts =
      deterministic_job_id "freight.workflow.run-command.v1" client
        (key_text "workflow-command:" command attempts)

  abbrev pub job_id_of : Command → String
  job_id_of c = job_id c.account_id c.id c.attempts

  -- The job that enqueueInTransaction sends for a claimed command, of its own account.
  abbrev pub job_of : Command → Job
  job_of c = record {
    id = job_id_of c;
    client_id = c.account_id;
    command_id = c.id;
    workflow_instance_id = c.workflow_instance_id;
    command_type = c.work.command_type;
    payload = c.work.payload;
  }

  unfoldable pub enqueue_all : List Command → List Job → List Job
  enqueue_all [] jobs = jobs
  enqueue_all (c ∷ cs) jobs = enqueue_all cs (send (job_of c) jobs).0

  -- The loop of scheduleWorkflowCommandJobs, with its count of jobs.
  unfoldable pub schedule_each :
      ℕ → List String → List Command × List Job × ℕ → List Command × List Job × ℕ
  schedule_each now [] s = s
  schedule_each now (client ∷ clients) (commands, jobs, enqueued) =
      let (commands', due) = claim_due client now limit commands in
      schedule_each now clients (commands', enqueue_all due jobs, enqueued + length due)

  unfoldable pub schedule_workflow_command_jobs :
      ℕ → List Account → List Command × List Job → List Command × List Job × ℕ
  schedule_workflow_command_jobs now accounts (commands, jobs) =
      schedule_each now (active accounts) (commands, jobs, 0)

module _ (audit_event_id : List String → String) (json : List (String × String) → String) where
  abbrev pub scheduled_event : ScheduleInput → String → ℕ → AuditEvent
  scheduled_event input new_id now = record {
    id = audit_event_id (input.client_id ∷ new_id ∷ "workflow.command_scheduled" ∷ []);
    entity = "workflow_command";
    entity_id = new_id;
    event = "workflow.command_scheduled";
    actor_kind = system;
    account_id = some input.client_id;
    actor_user_id = none;
    rule_version_id = none;
    rubric_snapshot_id = none;
    detail = json (
        ("workflowInstanceId", input.workflow_instance_id)
        ∷ ("commandType", input.command_type)
        ∷ ("runAfter", count_text input.run_after)
        ∷ []);
    recorded_at = now;
  }

  -- INSERT … ON CONFLICT (account_id, workflow_instance_id, command_type, run_after) DO NOTHING; a
  -- generated id that is taken violates the primary key.
  unfoldable pub insert_command :
      ScheduleInput
      → String
      → ℕ
      → Database
      → Result WorkflowError (Database × ScheduleWorkflowCommandResult)
  insert_command input new_id now db = elim (find (same_command input) db.commands) [
    | some c ↦ ok (db, record { command_id = c.id; created = false })
    | none ↦
        throw_if (includes new_id (ids db.commands)) unique_violation
        >> lift_audit (write_audit_event (scheduled_event input new_id now) db.audit)
        >>= λ w. ok (
          record db { commands = new_command input new_id ∷ db.commands; audit = w.log },
          record { command_id = new_id; created = true },
        )
  ]

  unfoldable pub schedule_workflow_command :
      ScheduleInput
      → String
      → ℕ
      → Database
      → Result WorkflowError (Database × ScheduleWorkflowCommandResult)
  schedule_workflow_command input new_id now db =
      throw_if (not (has_instance input.client_id input.workflow_instance_id db.instances))
        instance_not_found
      >> insert_command input new_id now db

  abbrev pub run_event : Job → ℕ → AuditEvent
  run_event j now = record {
    id = audit_event_id (j.client_id ∷ j.command_id ∷ "workflow.command_run" ∷ []);
    entity = "workflow_command";
    entity_id = j.command_id;
    event = "workflow.command_run";
    actor_kind = system;
    account_id = some j.client_id;
    actor_user_id = none;
    rule_version_id = none;
    rubric_snapshot_id = none;
    detail =
        json
          (("workflowInstanceId", j.workflow_instance_id) ∷ ("commandType", j.command_type) ∷ []);
    recorded_at = now;
  }

  -- `dispatch`, as handleRunWorkflowCommandJob configures it.
  unfoldable pub handle_run_workflow_command_job :
      Handlers → Job → ℕ → Database → Result WorkflowError Database
  handle_run_workflow_command_job handlers j now db =
      need (handler_of j.command_type handlers) unknown_command_type >>= λ handler.
      handler (context_of j) db >>= λ ran.
      lift_audit (write_audit_event (run_event j now) ran.audit) >>= λ w.
      ok (record ran { commands = complete j.client_id j.command_id ran.commands; audit = w.log })

  module _ (deterministic_job_id : String → String → String → String) where
    -- handleWorkflowCommandScanJob: recovery, then the scan, in one transaction.
    unfoldable pub handle_workflow_command_scan_job :
        ℕ → Database → Result WorkflowError (Database × ScanResult)
    handle_workflow_command_scan_job now db =
        lift_audit (
          reclaim_stale_claims_for_active_clients audit_event_id json command_config now db.accounts
            db.commands db.audit)
        >>= λ r.
            let (commands, jobs, n) =
              schedule_workflow_command_jobs deterministic_job_id now db.accounts (r.0, db.jobs) in
            ok (
              record db { commands = commands; jobs = jobs; audit = r.1 },
              record { enqueued = n; recovery = r.2 },
            )
