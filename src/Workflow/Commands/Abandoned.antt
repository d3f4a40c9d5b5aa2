-- ===== src/Workflow/Commands/Abandoned.antt =====
-- Commands that no worker completes: scan after scan, each comes to an end.
use freight_auditor.Prelude.{
  ℕ, suc, ◌+◌, ◌≤◌, ◌<◌, String, ◌==◌, true, Option, some, List, [], ◌∷◌, map, length, includes,
  All, Result, ok, ◌>>=◌, ◌≡◌, ◌⊎◌, inl, inr, refl, sym, ap, subst, ◌∙◌, arith, Bool-cases,
}
use freight_auditor.Audit.{AuditLog}
use freight_auditor.Workflow.Queue.{
  Status, pending, claimed, done, failed, ids, is_due, claim_row, is_stale, reclaim_row,
  max_attempts, limit, active, reclaim_stale_claims_for_active_clients,
}
use freight_auditor.Workflow.Queue.Lifecycle.{Lifecycle, RowIsSound}
use freight_auditor.Workflow.Queue.Rows.{Distinct, with_id}
use freight_auditor.Workflow.Queue.Batch.{changed_if}
use freight_auditor.Workflow.Commands.{
  Command, WorkflowError, Database, command_config, ScanResult, schedule_each,
  schedule_workflow_command_jobs, handle_workflow_command_scan_job,
}
use freight_auditor.Workflow.Commands.Recoveries.{Unrecorded}
use freight_auditor.Workflow.Commands.Ticks.{
  stale_after, recovered, taken_up, map_twice, length-map, schedule_each-map, reclaim_each-map,
}
use freight_auditor.Workflow.Commands.Ticks.Rows.{
  is_over, Held, scanned_row, Ends, Ends-first, Ends-next,
}

-- Times at least thirty minutes apart.
unfoldable pub Spaced : ℕ → List ℕ → Type 0
Spaced t [] = Unit
Spaced t (u ∷ us) = (t + stale_after ≤ u) × Spaced u us

recovered-keeps :
    (clients : List String) (now : ℕ) (c : Command)
    → ((recovered clients now c).id ≡ c.id)
      × ((recovered clients now c).account_id ≡ c.account_id)
      × ((recovered clients now c).due_at ≡ c.due_at)
unfolding recovered
recovered-keeps [] now c = (refl, refl, refl)
recovered-keeps (o ∷ os) now c = ground (
  arith,
  recovered-keeps os now (changed_if (is_stale o now stale_after) (reclaim_row max_attempts) c),
)

taken_up-keeps :
    (clients : List String) (now : ℕ) (c : Command)
    → ((taken_up clients now c).id ≡ c.id)
      × ((taken_up clients now c).account_id ≡ c.account_id)
      × ((taken_up clients now c).due_at ≡ c.due_at)
unfolding taken_up
taken_up-keeps [] now c = (refl, refl, refl)
taken_up-keeps (o ∷ os) now c =
    ground (arith, taken_up-keeps os now (changed_if (is_due o now) (claim_row now) c))

scanned_row-keeps :
    (clients : List String) (now : ℕ) (c : Command)
    → ((scanned_row clients now c).id ≡ c.id)
      × ((scanned_row clients now c).account_id ≡ c.account_id)
      × ((scanned_row clients now c).due_at ≡ c.due_at)
scanned_row-keeps clients now c =
    let (i, a, t) = taken_up-keeps clients now (recovered clients now c) in
    let (i', a', t') = recovered-keeps clients now c in (i ∙ i', a ∙ a', t ∙ t')

attempts_bound : (s : Status) (n : ℕ) (at : Option ℕ) → Lifecycle s n at → n ≤ max_attempts
unfolding Lifecycle
attempts_bound pending n at h = omega (arith, h.0)
attempts_bound claimed n at h = h.1
attempts_bound done n at h = h.1
attempts_bound failed n at h = omega (arith, h.0)

with_id-map :
    (f : Command → Command) (same_id : (c : Command) → (f c).id ≡ c.id) (i : String) (c : Command)
    (cs : List Command)
    → with_id i cs ≡ some c
    → with_id i (map f cs) ≡ some (f c)
with_id-map f same_id i c [] h = cc
with_id-map f same_id i c (x ∷ xs) h = elim (Bool-cases (x.id == i)) [
  | inl here ↦ ground (arith, h, here, same_id x)
  | inr there ↦
      ground (arith, there, same_id x, with_id-map f same_id i c xs (ground (arith, h, there)))
]

ids-map :
    (f : Command → Command) (same_id : (c : Command) → (f c).id ≡ c.id) (cs : List Command)
    → ids (map f cs) ≡ ids cs
ids-map f same_id [] = refl
ids-map f same_id (c ∷ cs) = λ i. same_id c i ∷ ids-map f same_id cs i

Distinct-map :
    (f : Command → Command) (same_id : (c : Command) → (f c).id ≡ c.id) (cs : List Command)
    → Distinct cs
    → Distinct (map f cs)
unfolding Distinct
Distinct-map f same_id [] d = tt
Distinct-map f same_id (c ∷ cs) d =
    (ground (arith, d.0, same_id c, ids-map f same_id cs), Distinct-map f same_id cs d.1)

module _ (audit_event_id : List String → String) (json : List (String × String) → String)
    (deterministic_job_id : String → String → String → String)
    (injective : (xs ys : List String) → audit_event_id xs ≡ audit_event_id ys → xs ≡ ys) where
  taken_up-Unrecorded :
      (clients : List String) (now : ℕ) (log : AuditLog) (c : Command)
      → Unrecorded audit_event_id log c
      → Unrecorded audit_event_id log (taken_up clients now c)
  unfolding taken_up Unrecorded
  taken_up-Unrecorded [] now log c u = u
  taken_up-Unrecorded (o ∷ os) now log c u =
      taken_up-Unrecorded os now log (changed_if (is_due o now) (claim_row now) c)
        (elim (Bool-cases (is_due o now c)) [
          | inl e ↦ rw e (λ o' e' n le. u o' e' n (ground (arith, e, le)))
          | inr e ↦ rw e u
        ])

  All-map-Unrecorded :
      (clients : List String) (now : ℕ) (log : AuditLog) (cs : List Command)
      → All (Unrecorded audit_event_id log) cs
      → All (Unrecorded audit_event_id log) (map (taken_up clients now) cs)
  All-map-Unrecorded clients now log [] h = tt
  All-map-Unrecorded clients now log (c ∷ cs) h =
      (taken_up-Unrecorded clients now log c h.0, All-map-Unrecorded clients now log cs h.1)

  -- A table that a scan reads whole, with no recovery recorded ahead of time.
  pub record IsScannable (db : Database) : Type 0 where
    pub distinct : Distinct db.commands
    pub small : length db.commands ≤ limit
    pub unrecorded : All (Unrecorded audit_event_id db.audit) db.commands

  scan-map :
      (now : ℕ) (db : Database)
      → IsScannable db
      → (db' : Database) × (r : ScanResult) × (handle_workflow_command_scan_job audit_event_id json
            deterministic_job_id now db
          ≡ ok (db', r))
        × (db'.commands ≡ map (scanned_row (active db.accounts) now) db.commands)
        × (db'.accounts ≡ db.accounts)
        × IsScannable db'
  unfolding handle_workflow_command_scan_job reclaim_stale_claims_for_active_clients
      schedule_workflow_command_jobs
  scan-map now db s =
      let clients = active db.accounts in
      let (s', e, m, d, u) =
        reclaim_each-map audit_event_id json injective command_config now clients db.commands
          db.audit (record { reclaimed = 0; failed = 0 }) s.distinct s.small s.unrecorded in
      let fits : length s'.0 ≤ limit = omega (
        arith,
        ap (length {A = Command}) m,
        length-map (recovered clients now) db.commands,
        s.small,
      ) in
      let z = schedule_each deterministic_job_id now clients (s'.0, db.jobs, 0) in
      let claimed = schedule_each-map deterministic_job_id now clients s'.0 db.jobs 0 d fits in
      (
        record db { commands = z.0; jobs = z.1; audit = s'.1 },
        record { enqueued = z.2; recovery = s'.2 },
        ground (arith, e),
        claimed
            ∙ ap (map (taken_up clients now)) m
            ∙ map_twice (recovered clients now) (taken_up clients now) db.commands,
        refl,
        record {
          distinct =
              subst Distinct (sym claimed) (
                Distinct-map (taken_up clients now) (λ c. (taken_up-keeps clients now c).0) s'.0 d);
          small = omega (
            arith,
            ap (length {A = Command}) claimed,
            length-map (taken_up clients now) s'.0,
            fits,
          );
          unrecorded =
              subst (All (Unrecorded audit_event_id s'.1)) (sym claimed)
                (All-map-Unrecorded clients now s'.1 s'.0 u);
        },
      )

  -- Scan after scan, each a transaction of its own.
  unfoldable pub scans : List ℕ → Database → Result WorkflowError Database
  scans [] db = ok db
  scans (t ∷ ts) db =
      handle_workflow_command_scan_job audit_event_id json deterministic_job_id t db >>= λ r.
      scans ts r.0

  module _ (id : String) where
    -- The command of that id is of an active account, due at `t`, and on its way.
    record Tracked (j t : ℕ) (db : Database) (c : Command) : Type 0 where
      found : with_id id db.commands ≡ some c
      ours : includes c.account_id (active db.accounts) ≡ true
      due : c.due_at ≤ t
      sound : RowIsSound c
      ends : (is_over c.status ≡ true) ⊎ Held j t c

    scanned_found :
        (clients : List String) (now : ℕ) (db db' : Database) (c : Command)
        → with_id id db.commands ≡ some c
        → db'.commands ≡ map (scanned_row clients now) db.commands
        → with_id id db'.commands ≡ some (scanned_row clients now c)
    scanned_found clients now db db' c found m =
        ap (with_id id) m
        ∙ with_id-map (scanned_row clients now) (λ x. (scanned_row-keeps clients now x).0) id c
            db.commands found

    Tracked-next :
        (j now : ℕ) (db db' : Database) (c : Command)
        → with_id id db.commands ≡ some c
        → includes c.account_id (active db.accounts) ≡ true
        → c.due_at ≤ now
        → Ends j now (scanned_row (active db.accounts) now c)
        → db'.commands ≡ map (scanned_row (active db.accounts) now) db.commands
        → db'.accounts ≡ db.accounts
        → Tracked j now db' (scanned_row (active db.accounts) now c)
    Tracked-next j now db db' c found ours due ends m same =
        let (i, a, at) = scanned_row-keeps (active db.accounts) now c in
        record {
          found = scanned_found (active db.accounts) now db db' c found m;
          ours = (λ k. includes (a k) (active (same k))) ∙ ours;
          due = omega (arith, at, due);
          sound = ends.0;
          ends = ends.1;
        }

    Tracked-scanned :
        (j t u : ℕ) (db db' : Database) (c : Command)
        → Tracked j t db c
        → t + stale_after ≤ u
        → db'.commands ≡ map (scanned_row (active db.accounts) u) db.commands
        → db'.accounts ≡ db.accounts
        → Tracked (suc j) u db' (scanned_row (active db.accounts) u c)
    Tracked-scanned j t u db db' c k gap m same =
        let due : c.due_at ≤ u = omega (arith, k.due, gap) in
        Tracked-next (suc j) u db db' c k.found k.ours due
          (Ends-next (active db.accounts) u c k.ours due k.sound j t k.ends gap) m same

    Tracked-first :
        (first : ℕ) (db db' : Database) (c : Command)
        → with_id id db.commands ≡ some c
        → RowIsSound c
        → includes c.account_id (active db.accounts) ≡ true
        → c.due_at ≤ first
        → ((u : ℕ) → c.claimed_at ≡ some u → u ≤ first)
        → db'.commands ≡ map (scanned_row (active db.accounts) first) db.commands
        → db'.accounts ≡ db.accounts
        → Tracked 1 first db' (scanned_row (active db.accounts) first c)
    Tracked-first first db db' c found sound ours due past m same =
        Tracked-next 1 first db db' c found ours due
          (Ends-first (active db.accounts) first c ours due sound past) m same

    keep_scanning :
        (ts : List ℕ) (j t : ℕ) (db : Database) (c : Command)
        → IsScannable db
        → Tracked j t db c
        → Spaced t ts
        → (db' : Database) × (c' : Command) × (u : ℕ) × (scans ts db ≡ ok db')
          × Tracked (j + length ts) u db' c'
    unfolding scans Spaced
    keep_scanning [] j t db c s k gaps =
        (db, c, t, refl, subst (λ n. Tracked n t db c) (omega arith) k)
    keep_scanning (u ∷ us) j t db c s k gaps =
        let (db₁, r, e, m, same, s₁) = scan-map u db s in
        let (db₂, c₂, v, e₂, k₂) =
          keep_scanning us (suc j) u db₁ (scanned_row (active db.accounts) u c) s₁
            (Tracked-scanned j t u db db₁ c k gaps.0 m same) gaps.1 in
        (
          db₂,
          c₂,
          v,
          ap (λ (x : Result WorkflowError (Database × ScanResult)). x >>= λ y. scans us y.0) e ∙ e₂,
          subst (λ n. Tracked n v db₂ c₂) (omega arith) k₂,
        )

    over_of :
        (j t : ℕ) (c : Command)
        → max_attempts < j
        → RowIsSound c
        → (is_over c.status ≡ true) ⊎ Held j t c
        → is_over c.status ≡ true
    unfolding Held
    over_of j t c lt sound (inl o) = o
    over_of j t c lt sound (inr (p, le, _)) =
        absurd (omega (arith, lt, le, attempts_bound c.status c.attempts c.claimed_at sound))

  -- A command of an active account, due by a first scan, whose claim, if it has one, was made by
  -- then: if no worker completes it, the scan and five more, each at least thirty minutes after the
  -- one before, all commit and leave it done or failed. The table has at most twenty commands, with
  -- distinct ids, and no recovery of an attempt to come is recorded; the status, the attempts and
  -- the time of claim of the command agree. Assumed: the hash of an audit event's id never
  -- collides.
  pub abandoned_command_ends :
      (db : Database) (c : Command) (first : ℕ) (rest : List ℕ)
      → IsScannable db
      → with_id c.id db.commands ≡ some c
      → RowIsSound c
      → includes c.account_id (active db.accounts) ≡ true
      → c.due_at ≤ first
      → ((u : ℕ) → c.claimed_at ≡ some u → u ≤ first)
      → Spaced first rest
      → max_attempts ≤ length rest
      → (db' : Database) × (c' : Command) × (scans (first ∷ rest) db ≡ ok db')
        × (with_id c.id db'.commands ≡ some c')
        × (is_over c'.status ≡ true)
  unfolding scans
  abandoned_command_ends db c first rest s found sound ours due past gaps enough =
      let (db₁, r, e, m, same, s₁) = scan-map first db s in
      let (db₂, c₂, v, e₂, k₂) =
        keep_scanning c.id rest 1 first db₁ (scanned_row (active db.accounts) first c) s₁
          (Tracked-first c.id first db db₁ c found sound ours due past m same) gaps in
      (
        db₂,
        c₂,
        ap (λ (x : Result WorkflowError (Database × ScanResult)). x >>= λ y. scans rest y.0) e ∙ e₂,
        k₂.found,
        over_of c.id (1 + length rest) v c₂ (omega (arith, enough)) k₂.sound k₂.ends,
      )
