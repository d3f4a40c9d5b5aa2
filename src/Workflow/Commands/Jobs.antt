-- ===== src/Workflow/Commands/Jobs.antt =====
-- Claimed commands and their jobs: every claim sends a job under an id that was never sent.
use freight_auditor.Prelude.{
  ℕ, ◌+◌, ◌≤◌, ◌<◌, String, ◌==◌, true, false, some, List, [], ◌∷◌, length, All, ◌≡◌, inl, inr,
  refl, sym, ap, ◌∙◌, arith, eq_iff, Bool-cases,
}
use Prim.Native.String.{count}
use freight_auditor.Workflow.Queue.{is_claimed}
use freight_auditor.Workflow.Queue.Rows.{Distinct, with_id, some_inj, All-with_id, absent}
use freight_auditor.Workflow.Queue.Lifecycle.{RowIsSound}
use freight_auditor.Workflow.Keys.{key_text_inj}
use freight_auditor.Workflow.Commands.{
  Command, Job, has_job, send, job_id, job_id_of, job_of, enqueue_all,
}

module _ (deterministic_job_id : String → String → String → String) where
  -- The job of a claimed command is in the queue.
  abbrev pub HasJob : List Job → Command → Type 0
  HasJob jobs c =
      is_claimed c.status ≡ true → has_job (job_id_of deterministic_job_id c) jobs ≡ true

  -- No job in the queue is under the id of an attempt that the command is still to make.
  unfoldable pub NoneToCome : List Job → Command → Type 0
  NoneToCome jobs c =
      (n : ℕ)
      → c.attempts < n
      → has_job (job_id deterministic_job_id c.account_id c.id n) jobs ≡ false

  -- A job was sent for an attempt that some command has made.
  abbrev pub JobOk : List Command → Job → Type 0
  JobOk commands j =
      (c : Command) × (n : ℕ) × (with_id c.id commands ≡ some c)
      × (n ≤ c.attempts)
      × (j.id ≡ job_id deterministic_job_id c.account_id c.id n)

  pub record QueueIsSound (commands : List Command) (jobs : List Job) : Type 0 where
    pub distinct : Distinct commands
    pub uuids : All (λ (c : Command). count c.id ≡ 36) commands
    pub lifecycles : All RowIsSound commands
    pub backed : All (HasJob jobs) commands
    pub traced : All (JobOk commands) jobs

  has_job-send :
      (i : String) (j : Job) (jobs : List Job)
      → has_job i jobs ≡ true
      → has_job i (send j jobs).0 ≡ true
  unfolding send
  has_job-send i j jobs h = ground (arith, h)

  send-has_job : (j : Job) (jobs : List Job) → has_job j.id (send j jobs).0 ≡ true
  unfolding send
  send-has_job j jobs = ground (arith, eq_iff j.id j.id)

  pub has_job-enqueue_all :
      (i : String) (cs : List Command) (jobs : List Job)
      → has_job i jobs ≡ true
      → has_job i (enqueue_all deterministic_job_id cs jobs) ≡ true
  unfolding enqueue_all
  has_job-enqueue_all i [] jobs h = h
  has_job-enqueue_all i (c ∷ cs) jobs h =
      has_job-enqueue_all i cs (send (job_of deterministic_job_id c) jobs).0
        (has_job-send i (job_of deterministic_job_id c) jobs h)

  pub enqueue_all-has_job :
      (cs : List Command) (jobs : List Job)
      → All
          (λ (c : Command).
            has_job (job_id_of deterministic_job_id c) (enqueue_all deterministic_job_id cs jobs)
            ≡ true)
          cs
  unfolding enqueue_all
  enqueue_all-has_job [] jobs = tt
  enqueue_all-has_job (c ∷ cs) jobs = (
    has_job-enqueue_all (job_id_of deterministic_job_id c) cs
        (send (job_of deterministic_job_id c) jobs).0
        (send-has_job (job_of deterministic_job_id c) jobs),
    enqueue_all-has_job cs (send (job_of deterministic_job_id c) jobs).0,
  )

  send-All :
      (P : Job → Type 0) (j : Job) (jobs : List Job) → All P jobs → P j → All P (send j jobs).0
  unfolding send
  send-All P j jobs h k = elim (Bool-cases (has_job j.id jobs)) [
    | inl e ↦ rw e h
    | inr e ↦ rw e (k, h)
  ]

  pub enqueue_all-All :
      (P : Job → Type 0) (cs : List Command) (jobs : List Job)
      → All P jobs
      → All (λ (c : Command). P (job_of deterministic_job_id c)) cs
      → All P (enqueue_all deterministic_job_id cs jobs)
  unfolding enqueue_all
  enqueue_all-All P [] jobs h k = h
  enqueue_all-All P (c ∷ cs) jobs h k =
      enqueue_all-All P cs (send (job_of deterministic_job_id c) jobs).0
        (send-All P (job_of deterministic_job_id c) jobs h k.0) k.1

  module _
      (no_collision : (name client key client' key' : String)
        → deterministic_job_id name client key ≡ deterministic_job_id name client' key'
        → key ≡ key') where
    same_job :
        (a b i j : String) (m n : ℕ)
        → count i ≡ 36
        → count j ≡ 36
        → job_id deterministic_job_id a i m ≡ job_id deterministic_job_id b j n
        → (i ≡ j) × (m ≡ n)
    same_job a b i j m n hi hj e =
        key_text_inj "workflow-command:" i j m n hi hj (no_collision _ a _ b _ e)

    -- No job was sent for an attempt that is still to come.
    pub unsent :
        (commands : List Command) (jobs : List Job) (c : Command) (n : ℕ)
        → All (λ (c : Command). count c.id ≡ 36) commands
        → All (JobOk commands) jobs
        → with_id c.id commands ≡ some c
        → c.attempts < n
        → has_job (job_id deterministic_job_id c.account_id c.id n) jobs ≡ false
    unsent commands [] c n uuids h found lt = refl
    unsent commands (j ∷ js) c n uuids ((b, m, there, le, e), hs) found lt =
        elim (Bool-cases (j.id == job_id deterministic_job_id c.account_id c.id n)) [
          | inr other ↦ ground (arith, other, unsent commands js c n uuids hs found lt)
          | inl same ↦
              let (i, k) =
                same_job b.account_id c.account_id b.id c.id m n
                  (All-with_id (λ (c : Command). count c.id ≡ 36) b.id commands b uuids there)
                  (All-with_id (λ (c : Command). count c.id ≡ 36) c.id commands c uuids found)
                  (sym e ∙ (eq_iff _ _).0 same) in
              let twice : some b ≡ some c = sym there ∙ ap (λ x. with_id x commands) i ∙ found in
              absurd
                (omega (arith, ap (λ (x : Command). x.attempts) (some_inj b c twice), k, le, lt))
        ]

    unsent_others :
        (c : Command) (cs : List Command) (jobs : List Job)
        → count c.id ≡ 36
        → All (λ (x : Command). count x.id ≡ 36) cs
        → All (λ (x : Command). (c.id == x.id) ≡ false) cs
        → All (λ (x : Command). has_job (job_id_of deterministic_job_id x) jobs ≡ false) cs
        → All
            (λ (x : Command).
              has_job (job_id_of deterministic_job_id x) (job_of deterministic_job_id c ∷ jobs)
              ≡ false)
            cs
    unsent_others c [] jobs u us d h = tt
    unsent_others c (x ∷ xs) jobs u us d h = (
      elim (Bool-cases (job_id_of deterministic_job_id c == job_id_of deterministic_job_id x)) [
        | inr e ↦ ground (arith, e, h.0)
        | inl e ↦ absurd (
            ground (
              arith,
              eq_iff c.id x.id,
              d.0,
              same_job c.account_id x.account_id c.id x.id c.attempts x.attempts u us.0
                  ((eq_iff _ _).0 e),
            ))
      ],
      unsent_others c xs jobs u us.1 d.1 h.1,
    )

    pub length-enqueue_all :
        (cs : List Command) (jobs : List Job)
        → Distinct cs
        → All (λ (x : Command). count x.id ≡ 36) cs
        → All (λ (x : Command). has_job (job_id_of deterministic_job_id x) jobs ≡ false) cs
        → length (enqueue_all deterministic_job_id cs jobs) ≡ length jobs + length cs
    unfolding enqueue_all send Distinct
    length-enqueue_all [] jobs d u h = omega arith
    length-enqueue_all (c ∷ cs) jobs d u h = rw h.0 (
        omega (
          arith,
          length-enqueue_all cs (job_of deterministic_job_id c ∷ jobs) d.1 u.1
              (unsent_others c cs jobs u.0 u.1 (absent c.id cs d.0) h.1),
        ))
