-- ===== src/Workflow/Commands/Reachable.antt =====
-- The commands over time: every sequence of schedulings, scans, runs and completions.
use freight_auditor.Prelude.{
  ℕ, ◌+◌, ◌*◌, String, ◌==◌, true, false, none, some, List, [], ◌∷◌, find, length, includes, All,
  Result, ok, err, need, ◌≡◌, ◌⊎◌, inl, inr, refl, sym, subst, ◌∙◌, arith, eq_iff, Bool-cases,
  Option-cases, Result-cases, bind_ok,
}
use Prim.Native.String.{count}
use freight_auditor.Audit.{AuditLog, AuditError, write_audit_event}
use freight_auditor.Workflow.Queue.{
  done, minute, ids, claim_due, may_complete, complete, reclaim_stale_claims, stale_after_minutes,
  max_attempts, limit, ReclaimStaleClaimsConfig, ReclaimStaleClaimsResult, Account, active,
  record_recoveries, reclaim_each, reclaim_stale_claims_for_active_clients,
}
use freight_auditor.Workflow.Queue.Rows.{Distinct, with_id}
use freight_auditor.Workflow.Queue.Batch.{map-Changed}
use freight_auditor.Workflow.Queue.Lifecycle.{Lifecycle, RowIsSound, complete_row-IsSound}
use freight_auditor.Workflow.Commands.{
  Command, WorkflowError, unknown_command_type, Job, Database, command_config, lift_audit,
  ScheduleInput, ScheduleWorkflowCommandResult, same_command, new_command, CommandContext, Handlers,
  handler_of, ScanResult, context_of, schedule_each, schedule_workflow_command_jobs,
  scheduled_event, insert_command, schedule_workflow_command, run_event,
  handle_run_workflow_command_job, handle_workflow_command_scan_job,
}
use freight_auditor.Workflow.Commands.Jobs.{HasJob, NoneToCome, unsent, JobOk, QueueIsSound}
use freight_auditor.Workflow.Commands.Passes.{
  Changed-QueueIsSound, reclaim-QueueIsSound, length-claimed, claim-QueueIsSound,
}

-- A handler writes to other tables only: the engine alone writes commands and jobs.
unfoldable pub Respects : Handlers → Type 0
Respects handlers =
    All
      (λ (h : String × (CommandContext → Database → Result WorkflowError Database)).
        (ctx : CommandContext) (db db' : Database)
        → h.1 ctx db ≡ ok db'
        → (db'.commands ≡ db.commands) × (db'.jobs ≡ db.jobs))
      handlers

same_handler :
    (g h : CommandContext → Database → Result WorkflowError Database) → some g ≡ some h → g ≡ h
same_handler g h e = cc

handler_of-Respects :
    (key : String) (handlers : Handlers)
    (handler : CommandContext → Database → Result WorkflowError Database)
    → Respects handlers
    → handler_of key handlers ≡ some handler
    → (ctx : CommandContext) (db db' : Database) → handler ctx db ≡ ok db'
    → (db'.commands ≡ db.commands) × (db'.jobs ≡ db.jobs)
unfolding Respects
handler_of-Respects key [] handler r e ctx db db' h = cc
handler_of-Respects key ((k, g) ∷ rest) handler r e ctx db db' h = elim (Bool-cases (k == key)) [
  | inl same ↦
      let eq : g ≡ handler = same_handler g handler (ground (arith, e, same)) in
      r.0 ctx db db' ((λ i. eq i ctx db) ∙ h)
  | inr other ↦ handler_of-Respects key rest handler r.1 (ground (arith, e, other)) ctx db db' h
]

lifted_ok : {A : Type 0} (m : Result AuditError A) (a : A) → lift_audit m ≡ ok a → m ≡ ok a
lifted_ok (ok b) a h = cc
lifted_ok (err e) a h = cc

-- A database before the first command.
abbrev pub no_commands : List Account → List (String × String) → AuditLog → Database
no_commands accounts instances log = record {
  accounts = accounts;
  instances = instances;
  commands = [];
  jobs = [];
  audit = log;
}

module _ (audit_event_id : List String → String) (json : List (String × String) → String)
    (deterministic_job_id : String → String → String → String) where
  -- One committed transaction. An id that the database generates is a uuid.
  pub data Step (db : Database) : Database → Type 0 where
    scheduled :
        {db' : Database} (input : ScheduleInput) (new_id : String) (now : ℕ)
        (r : ScheduleWorkflowCommandResult)
        → count new_id ≡ 36
        → schedule_workflow_command audit_event_id json input new_id now db ≡ ok (db', r)
        → Step db db'
    scanned :
        {db' : Database} (now : ℕ) (r : ScanResult)
        → handle_workflow_command_scan_job audit_event_id json deterministic_job_id now db
          ≡ ok (db', r)
        → Step db db'
    ran :
        {db' : Database} (handlers : Handlers) (j : Job) (now : ℕ)
        → Respects handlers
        → handle_run_workflow_command_job audit_event_id json handlers j now db ≡ ok db'
        → Step db db'

  pub data Reach (db : Database) : Database → Type 0 where
    here : Reach db db
    next : {mid db' : Database} → Reach db mid → Step mid db' → Reach db db'

  abbrev Sound : Database → Type 0
  Sound db = QueueIsSound deterministic_job_id db.commands db.jobs

  reclaim_each-IsSound :
      (config : ReclaimStaleClaimsConfig) (now : ℕ) (clients : List String)
      (commands : List Command) (log : AuditLog) (n : ReclaimStaleClaimsResult) (jobs : List Job)
      (s : List Command × AuditLog × ReclaimStaleClaimsResult)
      → reclaim_each audit_event_id json config now clients (commands, log, n) ≡ ok s
      → QueueIsSound deterministic_job_id commands jobs
      → QueueIsSound deterministic_job_id s.0 jobs
  unfolding reclaim_each
  reclaim_each-IsSound config now [] commands log n jobs s h q =
      subst (λ (c : List Command). QueueIsSound deterministic_job_id c jobs) (ground (arith, h)) q
  reclaim_each-IsSound config now (owner ∷ clients) commands log n jobs s h q =
      let passed =
        reclaim_stale_claims owner now (stale_after_minutes * minute) max_attempts limit commands in
      let (t, e, rest) =
        bind_ok (record_recoveries audit_event_id json config owner now passed.1 (log, n)) _ h in
      reclaim_each-IsSound config now clients passed.0 t.0 t.1 jobs s rest (
        reclaim-QueueIsSound deterministic_job_id owner now (stale_after_minutes * minute) limit
          commands jobs q)

  inserted :
      (id : String) (commands : List Command) (c : Command)
      → with_id id commands ≡ some c
      → includes id (ids commands) ≡ true
  inserted id [] c h = cc
  inserted id (x ∷ xs) c h = ground (arith, eq_iff x.id id, eq_iff id x.id, inserted id xs c)

  new_command-traced :
      (input : ScheduleInput) (new_id : String) (commands : List Command) (jobs : List Job)
      → includes new_id (ids commands) ≡ false
      → All (JobOk deterministic_job_id commands) jobs
      → All (JobOk deterministic_job_id (new_command input new_id ∷ commands)) jobs
  new_command-traced input new_id commands [] fresh h = tt
  new_command-traced input new_id commands (j ∷ js) fresh ((c, n, found, le, e), hs) = (
    (c, n, ground (arith, found, fresh, eq_iff new_id c.id, inserted c.id commands c found), le, e),
    new_command-traced input new_id commands js fresh hs,
  )

  new_command-IsSound :
      (input : ScheduleInput) (new_id : String) (commands : List Command) (jobs : List Job)
      → count new_id ≡ 36
      → includes new_id (ids commands) ≡ false
      → QueueIsSound deterministic_job_id commands jobs
      → QueueIsSound deterministic_job_id (new_command input new_id ∷ commands) jobs
  unfolding Distinct Lifecycle
  new_command-IsSound input new_id commands jobs uuid fresh q = record {
    distinct = (fresh, q.distinct);
    uuids = (uuid, q.uuids);
    lifecycles = ((omega arith, refl), q.lifecycles);
    backed = ((λ held. cc), q.backed);
    traced = new_command-traced input new_id commands jobs fresh q.traced;
  }

  -- A scheduling that returns found the command, or inserted it under a new id.
  pub insert_command-ok :
      (input : ScheduleInput) (new_id : String) (now : ℕ) (r : ScheduleWorkflowCommandResult)
      (db db' : Database)
      → insert_command audit_event_id json input new_id now db ≡ ok (db', r)
      → (db'.jobs ≡ db.jobs)
        × ((db'.commands ≡ db.commands)
            ⊎ ((db'.commands ≡ new_command input new_id ∷ db.commands)
                × (includes new_id (ids db.commands) ≡ false)
                × (find (same_command input) db.commands ≡ none)))
  unfolding insert_command
  insert_command-ok input new_id now r db db' h =
      elim (Option-cases (find (same_command input) db.commands)) [
        | inr (c, old) ↦ (ground (arith, h, old), inl (ground (arith, h, old)))
        | inl new ↦ elim (Bool-cases (includes new_id (ids db.commands))) [
          | inl taken ↦ absurd (ground (arith, h, new, taken))
          | inr free ↦
              elim (Result-cases (
                write_audit_event (scheduled_event audit_event_id json input new_id now)
                  db.audit)) [
                    | inr (e, clash) ↦ absurd (ground (arith, h, new, free, clash))
                    | inl (w, wrote) ↦ (
                      ground (arith, h, new, free, wrote),
                      inr (ground (arith, h, new, free, wrote), free, new),
                    )
                  ]
        ]
      ]

  IsSound-along :
      (commands commands' : List Command) (jobs jobs' : List Job)
      → commands' ≡ commands
      → jobs' ≡ jobs
      → QueueIsSound deterministic_job_id commands jobs
      → QueueIsSound deterministic_job_id commands' jobs'
  IsSound-along commands commands' jobs jobs' c j q =
      subst (λ (x : List Job). QueueIsSound deterministic_job_id commands' x) (sym j)
        (subst (λ (x : List Command). QueueIsSound deterministic_job_id x jobs) (sym c) q)

  scheduled-IsSound :
      (input : ScheduleInput) (new_id : String) (now : ℕ) (r : ScheduleWorkflowCommandResult)
      (db db' : Database)
      → count new_id ≡ 36
      → schedule_workflow_command audit_event_id json input new_id now db ≡ ok (db', r)
      → Sound db
      → Sound db'
  unfolding schedule_workflow_command
  scheduled-IsSound input new_id now r db db' uuid h q =
      let (jobs, how) = insert_command-ok input new_id now r db db' (ground (arith, h)) in
      elim how [
        | inl same ↦ IsSound-along db.commands db'.commands db.jobs db'.jobs same jobs q
        | inr (new, free, _) ↦
            IsSound-along (new_command input new_id ∷ db.commands) db'.commands db.jobs db'.jobs new
              jobs (new_command-IsSound input new_id db.commands db.jobs uuid free q)
      ]

  complete-IsSound :
      (owner id : String) (commands : List Command) (jobs : List Job)
      → QueueIsSound deterministic_job_id commands jobs
      → QueueIsSound deterministic_job_id (complete owner id commands) jobs
  unfolding complete
  complete-IsSound owner id commands jobs q =
      Changed-QueueIsSound deterministic_job_id (may_complete owner id)
        (λ (c : Command). record c { status = done }) commands _ jobs
        (λ c. (refl, refl, omega arith)) (complete_row-IsSound owner id) (λ c t. refl)
        (map-Changed (may_complete owner id) (λ (c : Command). record c { status = done }) commands)
        q

  ran-IsSound :
      (handlers : Handlers) (j : Job) (now : ℕ) (db db' : Database)
      → Respects handlers
      → handle_run_workflow_command_job audit_event_id json handlers j now db ≡ ok db'
      → Sound db
      → Sound db'
  unfolding handle_run_workflow_command_job
  ran-IsSound handlers j now db db' respects h q =
      let (handler, known, h₁) =
        bind_ok (need (handler_of j.command_type handlers) unknown_command_type) _ h in
      let (mid, did, h₂) = bind_ok (handler (context_of j) db) _ h₁ in
      let (w, wrote, h₃) =
        bind_ok (lift_audit (write_audit_event (run_event audit_event_id json j now) mid.audit)) _
          h₂ in
      let (commands, jobs) =
        handler_of-Respects j.command_type handlers handler respects (ground (arith, known))
          (context_of j) db mid did in
      IsSound-along (complete j.client_id j.command_id mid.commands) db'.commands mid.jobs db'.jobs
        (ground (arith, h₃)) (ground (arith, h₃))
        (complete-IsSound j.client_id j.command_id mid.commands mid.jobs
          (IsSound-along db.commands mid.commands db.jobs mid.jobs commands jobs q))

  module _
      (no_collision : (name client key client' key' : String)
        → deterministic_job_id name client key ≡ deterministic_job_id name client' key'
        → key ≡ key') where
    schedule_each-IsSound :
        (now : ℕ) (clients : List String) (commands : List Command) (jobs : List Job) (n : ℕ)
        → QueueIsSound deterministic_job_id commands jobs
        → let s = schedule_each deterministic_job_id now clients (commands, jobs, n) in
          QueueIsSound deterministic_job_id s.0 s.1 × (length s.1 + n ≡ length jobs + s.2)
    unfolding schedule_each claim_due
    schedule_each-IsSound now [] commands jobs n q = (q, refl)
    schedule_each-IsSound now (owner ∷ clients) commands jobs n q =
        let (q', l) =
          schedule_each-IsSound now clients _ _ _ (
            claim-QueueIsSound deterministic_job_id no_collision owner now limit commands jobs q) in
        (
          q',
          omega (
            arith,
            l,
            length-claimed deterministic_job_id no_collision owner now limit commands jobs q,
          ),
        )

    -- A scan recovers, claims and sends: each claim's job is new to the queue.
    scan-IsSound :
        (now : ℕ) (r : ScanResult) (db db' : Database)
        → handle_workflow_command_scan_job audit_event_id json deterministic_job_id now db
          ≡ ok (db', r)
        → Sound db
        → Sound db' × (length db'.jobs ≡ length db.jobs + r.enqueued)
    unfolding handle_workflow_command_scan_job reclaim_stale_claims_for_active_clients
        schedule_workflow_command_jobs
    scan-IsSound now r db db' h q =
        let clients = active db.accounts in
        let recovery =
          reclaim_each audit_event_id json command_config now clients
            (db.commands, db.audit, record { reclaimed = 0; failed = 0 }) in
        let (s, recovered, rest) = bind_ok (lift_audit recovery) _ h in
        let (q', l) = schedule_each-IsSound now clients s.0 db.jobs 0 (
          reclaim_each-IsSound command_config now clients db.commands db.audit
            (record { reclaimed = 0; failed = 0 }) db.jobs s (lifted_ok recovery s recovered) q) in
        (
          IsSound-along _ db'.commands _ db'.jobs (ground (arith, rest)) (ground (arith, rest)) q',
          ground (arith, rest, l),
        )

    Step-IsSound : {db db' : Database} → Step db db' → Sound db → Sound db'
    Step-IsSound {db} {db'} (scheduled input new_id now r uuid h) q =
        scheduled-IsSound input new_id now r db db' uuid h q
    Step-IsSound {db} {db'} (scanned now r h) q = (scan-IsSound now r db db' h q).0
    Step-IsSound {db} {db'} (ran handlers j now respects h) q =
        ran-IsSound handlers j now db db' respects h q

    reached_from : {db db' : Database} → Reach db db' → Sound db → Sound db'
    reached_from here q = q
    reached_from (next r s) q = Step-IsSound s (reached_from r q)

    reached :
        (accounts : List Account) (instances : List (String × String)) (log : AuditLog)
        (db : Database)
        → Reach (no_commands accounts instances log) db
        → Sound db
    unfolding Distinct
    reached accounts instances log db r =
        reached_from r
          (record { distinct = tt; uuids = tt; lifecycles = tt; backed = tt; traced = tt })

    -- Whatever has been scheduled, scanned and run since there were no commands: no two commands
    -- have one id, a command has made at most five attempts and its status, attempts and time of
    -- claim agree, a job is in the queue under the id that is hashed of each claimed command and
    -- its present attempt, and none under that of an attempt that a command is still to make.
    -- Assumed: the hash of a job's id never collides on two keys, the generated ids of commands
    -- have 36 characters, and the handlers write no commands and no jobs.
    pub Reach-QueueIsSound :
        (accounts : List Account) (instances : List (String × String)) (log : AuditLog)
        (db : Database)
        → Reach (no_commands accounts instances log) db
        → Distinct db.commands
          × All RowIsSound db.commands
          × All (HasJob deterministic_job_id db.jobs) db.commands
          × ((c : Command)
              → with_id c.id db.commands ≡ some c
              → NoneToCome deterministic_job_id db.jobs c)
    unfolding NoneToCome
    Reach-QueueIsSound accounts instances log db r =
        let q = reached accounts instances log db r in
        (
          q.distinct,
          q.lifecycles,
          q.backed,
          λ c found n lt.
              unsent deterministic_job_id no_collision db.commands db.jobs c n q.uuids q.traced
                found lt,
        )

    -- In a database reached by scheduling, scanning and running from no commands, a scan that returns has added to the queue exactly as many jobs as
    -- it reports: the key that is hashed for a command that was recovered and claimed again is that
    -- of no older job. Assumed: the hash of a job's id never collides on two keys, the generated
    -- ids of commands have 36 characters, and the handlers write no commands and no jobs.
    pub scan_loses_no_job :
        (accounts : List Account) (instances : List (String × String)) (log : AuditLog)
        (db db' : Database) (now : ℕ) (r : ScanResult)
        → Reach (no_commands accounts instances log) db
        → handle_workflow_command_scan_job audit_event_id json deterministic_job_id now db
          ≡ ok (db', r)
        → length db'.jobs ≡ length db.jobs + r.enqueued
    scan_loses_no_job accounts instances log db db' now r reach h =
        (scan-IsSound now r db db' h (reached accounts instances log db reach)).1
