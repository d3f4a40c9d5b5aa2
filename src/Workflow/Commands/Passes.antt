-- ===== src/Workflow/Commands/Passes.antt =====
-- The passes over the table of commands, one account at a time: recovery, and claiming with its jobs.
use freight_auditor.Prelude.{
  ℕ, suc, ◌+◌, ◌≤◌, String, Bool, true, false, some, List, [], ◌∷◌, length, includes, All, ◌≡◌, inl,
  inr, refl, sym, ap, ◌∙◌, arith, Bool-cases, All-keep, keep-All,
}
use Prim.Native.String.{count}
use freight_auditor.Workflow.Queue.{
  is_claimed, update_in, returning, select_ids, is_due, by_due, claim_row, is_stale, by_claim,
  reclaim_row, reclaim_stale_claims, max_attempts,
}
use freight_auditor.Workflow.Queue.Rows.{
  Distinct, with_id, Changed, All-mono, All-zip, with_id_self,
}
use freight_auditor.Workflow.Queue.Batch.{
  select-passes, update-Changed, Changed-Distinct, Changed-All, update-All, Distinct-keep,
  with_id-Changed, returning-All,
}
use freight_auditor.Workflow.Queue.Lifecycle.{RowIsSound, claim_row-IsSound, reclaim_row-IsSound}
use freight_auditor.Workflow.Commands.{
  Command, Job, has_job, job_id, job_id_of, job_of, enqueue_all,
}
use freight_auditor.Workflow.Commands.Jobs.{
  HasJob, JobOk, QueueIsSound, has_job-enqueue_all, enqueue_all-has_job, enqueue_all-All, unsent,
  length-enqueue_all,
}

module _ (deterministic_job_id : String → String → String → String) where
  -- A change that keeps what the ids of jobs are made of.
  abbrev pub KeepsKey : (Command → Command) → Type 0
  KeepsKey f =
      (c : Command)
      → ((f c).id ≡ c.id) × ((f c).account_id ≡ c.account_id) × (c.attempts ≤ (f c).attempts)

  JobOk-grown :
      (commands : List Command) (c d : Command) (n : ℕ) (j : Job)
      → with_id c.id commands ≡ some d
      → d.id ≡ c.id
      → d.account_id ≡ c.account_id
      → n ≤ d.attempts
      → j.id ≡ job_id deterministic_job_id c.account_id c.id n
      → JobOk deterministic_job_id commands j
  JobOk-grown commands c d n j there same account le e = (
    d,
    n,
    ap (λ x. with_id x commands) same ∙ there,
    le,
    e ∙ (λ i. job_id deterministic_job_id (sym account i) (sym same i) n),
  )

  JobOk-Changed :
      (test : Command → Bool) (f : Command → Command) (keeps : KeepsKey f)
      (commands commands' : List Command) (j : Job)
      → Changed test f commands commands'
      → JobOk deterministic_job_id commands j
      → JobOk deterministic_job_id commands' j
  JobOk-Changed test f keeps commands commands' j h (c, n, found, le, e) =
      let (d, there, how) =
        with_id-Changed test f (λ r. (keeps r).0) c.id c commands commands' h found in
      elim how [
        | inl same ↦
            JobOk-grown commands' c d n j there (ap (λ (x : Command). x.id) same)
              (ap (λ (x : Command). x.account_id) same)
              (omega (arith, le, ap (λ (x : Command). x.attempts) same)) e
        | inr new ↦
            JobOk-grown commands' c d n j there (ap (λ (x : Command). x.id) new ∙ (keeps c).0)
              (ap (λ (x : Command). x.account_id) new ∙ (keeps c).1)
              (omega (arith, le, ap (λ (x : Command). x.attempts) new, (keeps c).2)) e
      ]

  traced-Changed :
      (test : Command → Bool) (f : Command → Command) (keeps : KeepsKey f)
      (commands commands' : List Command) (jobs : List Job)
      → Changed test f commands commands'
      → All (JobOk deterministic_job_id commands) jobs
      → All (JobOk deterministic_job_id commands') jobs
  traced-Changed test f keeps commands commands' [] h k = tt
  traced-Changed test f keeps commands commands' (j ∷ js) h k = (
    JobOk-Changed test f keeps commands commands' j h k.0,
    traced-Changed test f keeps commands commands' js h k.1,
  )

  -- A change that sends no job and leaves none of the rows that it changes claimed.
  pub Changed-QueueIsSound :
      (test : Command → Bool) (f : Command → Command) (commands commands' : List Command)
      (jobs : List Job)
      → KeepsKey f
      → ((c : Command) → RowIsSound c → test c ≡ true → RowIsSound (f c))
      → ((c : Command) → test c ≡ true → is_claimed (f c).status ≡ false)
      → Changed test f commands commands'
      → QueueIsSound deterministic_job_id commands jobs
      → QueueIsSound deterministic_job_id commands' jobs
  Changed-QueueIsSound test f commands commands' jobs keeps lives frees h q = record {
    distinct = Changed-Distinct test f (λ r. (keeps r).0) commands commands' h q.distinct;
    uuids =
        Changed-All test f (λ (c : Command). count c.id ≡ 36) commands commands'
          (λ c u t. ap count ((keeps c).0) ∙ u) h q.uuids;
    lifecycles = Changed-All test f RowIsSound commands commands' lives h q.lifecycles;
    backed =
        Changed-All test f (HasJob deterministic_job_id jobs) commands commands'
          (λ c b t held. absurd (ground (arith, frees c t, held))) h q.backed;
    traced = traced-Changed test f keeps commands commands' jobs h q.traced;
  }

  module _ (client : String) (now stale_after cap : ℕ) (commands : List Command) (jobs : List Job)
      (q : QueueIsSound deterministic_job_id commands jobs) where
    pub reclaim-QueueIsSound :
        QueueIsSound deterministic_job_id
          (reclaim_stale_claims client now stale_after max_attempts cap commands).0
          jobs
    unfolding reclaim_stale_claims
    reclaim-QueueIsSound =
        let test : Command → Bool = is_stale client now stale_after in
        Changed-QueueIsSound test (reclaim_row max_attempts) commands _ jobs
          (λ c. (refl, refl, omega arith)) (reclaim_row-IsSound client now stale_after)
          (λ c t. ground arith)
          (update-Changed test (reclaim_row max_attempts) _ commands
            (select-passes test by_claim cap commands q.distinct))
          q

  module _
      (no_collision : (name client key client' key' : String)
        → deterministic_job_id name client key ≡ deterministic_job_id name client' key'
        → key ≡ key')
      (client : String) (now cap : ℕ) (commands : List Command) (jobs : List Job)
      (q : QueueIsSound deterministic_job_id commands jobs) where
    abbrev test : Command → Bool
    test = is_due client now

    abbrev chosen : List String
    chosen = select_ids test by_due cap commands

    abbrev after : List Command
    after = update_in chosen (claim_row now) commands

    abbrev due : List Command
    due = returning chosen after

    claim-Changed : Changed test (claim_row now) commands after
    claim-Changed =
        update-Changed test (claim_row now) chosen commands
          (select-passes test by_due cap commands q.distinct)

    after-Distinct : Distinct after
    after-Distinct =
        Changed-Distinct test (claim_row now) (λ r. refl) commands after claim-Changed q.distinct

    after-uuids : All (λ (c : Command). count c.id ≡ 36) after
    after-uuids =
        Changed-All test (claim_row now) (λ (c : Command). count c.id ≡ 36) commands after
          (λ c u t. u) claim-Changed q.uuids

    due-unsent : All (λ (c : Command). has_job (job_id_of deterministic_job_id c) jobs ≡ false) due
    due-unsent =
        returning-All (λ (c : Command). has_job (job_id_of deterministic_job_id c) jobs ≡ false)
          (claim_row now) (λ c. refl) chosen commands
          (All-mono (λ (c : Command). with_id c.id commands ≡ some c)
            (λ (c : Command).
              includes c.id chosen ≡ true
              → has_job (job_id deterministic_job_id c.account_id c.id (suc c.attempts)) jobs
                ≡ false)
            commands
            (λ c found inside.
              unsent deterministic_job_id no_collision commands jobs c (suc c.attempts) q.uuids
                q.traced found (omega arith))
            (with_id_self commands q.distinct))

    pub length-claimed :
        length (enqueue_all deterministic_job_id due jobs) ≡ length jobs + length due
    length-claimed =
        length-enqueue_all deterministic_job_id no_collision due jobs
          (Distinct-keep (λ (c : Command). includes c.id chosen) after after-Distinct)
          (All-keep (λ (c : Command). count c.id ≡ 36) (λ (c : Command). includes c.id chosen) after
            after-uuids)
          due-unsent

    after-backed :
        All (HasJob deterministic_job_id (enqueue_all deterministic_job_id due jobs)) after
    after-backed =
        let final = enqueue_all deterministic_job_id due jobs in
        All-zip
          (λ (c : Command).
            includes c.id chosen ≡ true → has_job (job_id_of deterministic_job_id c) final ≡ true)
          (λ (c : Command). includes c.id chosen ≡ false → HasJob deterministic_job_id final c)
          (HasJob deterministic_job_id final) after
          (λ c sent kept. elim (Bool-cases (includes c.id chosen)) [
            | inl e ↦ λ held. sent e
            | inr e ↦ kept e
          ])
          (keep-All (λ (c : Command). has_job (job_id_of deterministic_job_id c) final ≡ true)
            (λ (c : Command). includes c.id chosen) after
            (enqueue_all-has_job deterministic_job_id due jobs))
          (update-All
            (λ (c : Command). includes c.id chosen ≡ false → HasJob deterministic_job_id final c)
            (claim_row now) chosen commands
            (All-mono (HasJob deterministic_job_id jobs)
              (λ (c : Command).
                (includes c.id chosen ≡ true
                  → includes c.id chosen ≡ false
                  → HasJob deterministic_job_id final (claim_row now c))
                × (includes c.id chosen ≡ false
                    → includes c.id chosen ≡ false
                    → HasJob deterministic_job_id final c))
              commands
              (λ c old. (
                λ inside outside. absurd (ground (arith, outside, inside)),
                λ outside again held.
                    has_job-enqueue_all deterministic_job_id (job_id_of deterministic_job_id c) due
                      jobs (old held),
              ))
              q.backed))

    pub claim-QueueIsSound :
        QueueIsSound deterministic_job_id after (enqueue_all deterministic_job_id due jobs)
    claim-QueueIsSound = record {
      distinct = after-Distinct;
      uuids = after-uuids;
      lifecycles =
          Changed-All test (claim_row now) RowIsSound commands after (claim_row-IsSound client now)
            claim-Changed q.lifecycles;
      backed = after-backed;
      traced =
          enqueue_all-All deterministic_job_id (JobOk deterministic_job_id after) due jobs
            (traced-Changed test (claim_row now) (λ c. (refl, refl, omega arith)) commands after
              jobs claim-Changed q.traced)
            (All-mono (λ (c : Command). with_id c.id after ≡ some c)
              (λ (c : Command). JobOk deterministic_job_id after (job_of deterministic_job_id c))
              due (λ c found. (c, c.attempts, found, omega arith, refl))
              (All-keep (λ (c : Command). with_id c.id after ≡ some c)
                (λ (c : Command). includes c.id chosen) after (with_id_self after after-Distinct)));
    }
