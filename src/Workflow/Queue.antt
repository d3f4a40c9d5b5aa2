-- ===== src/Workflow/Queue.antt =====
-- The queue that `workflow_command` and `workflow_outbox_message` share: claiming what is due
-- (claim-due-workflow-commands.ts, workflow-outbox.ts), completing it, and taking back what a crashed
-- worker holds (reclaim-stale-claims.ts). A table is a list of rows, of all accounts. `due_at` is
-- `run_after` of a command and `created_at` of a message; a tie of an ORDER BY is in table order.
pub mod Rows
pub mod Batch
pub mod Lifecycle
use freight_auditor.Prelude.{
  ℕ, suc, ◌+◌, ◌*◌, String, ◌==◌, Bool, true, false, ◌&&◌, Option, none, some, List, [], ◌∷◌, map,
  keep, take, sort_by, includes, if◌then◌else◌, leb, nat_eq, Result, ok, err, ◌>>=◌,
}
use Prim.Native.String
use freight_auditor.Audit.{AuditEvent, AuditLog, AuditError, system, write_audit_event}
use freight_auditor.Cents.Text.{print_digits}

-- `done` is 'delivered' for a message.
pub data Status : Type 0 where
  pending claimed done failed : Status

abbrev pub is_pending : Status → Bool
is_pending pending = true
is_pending _ = false

abbrev pub is_claimed : Status → Bool
is_claimed claimed = true
is_claimed _ = false

abbrev pub is_done : Status → Bool
is_done done = true
is_done _ = false

-- `String(n)` of a count.
unfoldable pub count_text : ℕ → String
count_text n = if nat_eq n 0 then "0" else print_digits (suc n) n ""

-- `${prefix}:${id}:${attempts}`.
abbrev pub key_text : String → String → ℕ → String
key_text prefix id attempts =
    String.◌++◌ prefix (String.◌++◌ id (String.◌++◌ ":" (count_text attempts)))

abbrev pub minute : ℕ
minute = 60000

pub record Row (W : Type 0) : Type 0 where
  pub id : String
  pub account_id : String
  pub workflow_instance_id : String
  pub work : W
  pub due_at : ℕ
  pub status : Status
  pub attempts : ℕ
  pub claimed_at : Option ℕ

pub data ClaimOutcome : Type 0 where
  reclaimed exhausted : ClaimOutcome

pub record ReclaimedClaim : Type 0 where
  pub id : String
  pub workflow_instance_id : String
  pub attempts : ℕ
  pub outcome : ClaimOutcome

abbrev pub outcome_of : Status → ClaimOutcome
outcome_of failed = exhausted
outcome_of _ = reclaimed

abbrev pub old_claim : ℕ → ℕ → Option ℕ → Bool
old_claim now stale_after none = false
old_claim now stale_after (some t) = leb (t + stale_after) now

-- The order of two times that may be null, as the rows that are compared have one.
abbrev pub time_le : Option ℕ → Option ℕ → Bool
time_le (some a) (some b) = leb a b
time_le none b = true
time_le (some a) none = false

module _ {W : Type 0} where
  abbrev pub ids : List (Row W) → List String
  ids [] = []
  ids (r ∷ rs) = r.id ∷ ids rs

  -- UPDATE … WHERE id IN (…).
  unfoldable pub update_in : List String → (Row W → Row W) → List (Row W) → List (Row W)
  update_in chosen f [] = []
  update_in chosen f (r ∷ rs) = (if includes r.id chosen then f r else r) ∷ update_in chosen f rs

  -- … RETURNING.
  abbrev pub returning : List String → List (Row W) → List (Row W)
  returning chosen rows = keep (λ (r : Row W). includes r.id chosen) rows

  -- SELECT id … ORDER BY … LIMIT ….
  unfoldable pub select_ids :
      (Row W → Bool) → (Row W → Row W → Bool) → ℕ → List (Row W) → List String
  select_ids test le limit rows = ids (take limit (sort_by le (keep test rows)))

  abbrev pub is_due : String → ℕ → Row W → Bool
  is_due account now r = r.account_id == account && is_pending r.status && leb r.due_at now

  abbrev pub by_due : Row W → Row W → Bool
  by_due a b = leb a.due_at b.due_at

  abbrev pub claim_row : ℕ → Row W → Row W
  claim_row now r = record r { status = claimed; attempts = suc r.attempts; claimed_at = some now }

  unfoldable pub claim_due : String → ℕ → ℕ → List (Row W) → List (Row W) × List (Row W)
  claim_due account now limit rows =
      let chosen = select_ids (is_due account now) by_due limit rows in
      let rows' = update_in chosen (claim_row now) rows in (rows', returning chosen rows')

  abbrev pub may_complete : String → String → Row W → Bool
  may_complete account id r =
      r.account_id == account
      && r.id == id
      && (if is_claimed r.status then true else is_done r.status)

  abbrev pub complete_row : String → String → Row W → Row W
  complete_row account id r = if may_complete account id r then record r { status = done } else r

  -- The table after the UPDATE.
  unfoldable pub complete : String → String → List (Row W) → List (Row W)
  complete account id rows = map (complete_row account id) rows

  abbrev pub is_stale : String → ℕ → ℕ → Row W → Bool
  is_stale account now stale_after r =
      r.account_id == account && is_claimed r.status && old_claim now stale_after r.claimed_at

  abbrev pub by_claim : Row W → Row W → Bool
  by_claim a b = time_le a.claimed_at b.claimed_at

  abbrev pub reclaim_row : ℕ → Row W → Row W
  reclaim_row max_attempts r = record r {
    status = if leb max_attempts r.attempts then failed else pending;
    claimed_at = none;
  }

  abbrev pub reclaimed_claim : Row W → ReclaimedClaim
  reclaimed_claim r = record {
    id = r.id;
    workflow_instance_id = r.workflow_instance_id;
    attempts = r.attempts;
    outcome = outcome_of r.status;
  }

  unfoldable pub reclaim_stale_claims :
      String → ℕ → ℕ → ℕ → ℕ → List (Row W) → List (Row W) × List (Row W)
  reclaim_stale_claims account now stale_after max_attempts limit rows =
      let chosen = select_ids (is_stale account now stale_after) by_claim limit rows in
      let rows' = update_in chosen (reclaim_row max_attempts) rows in
      (rows', returning chosen rows')

-- The defaults of the input schemas: 30 minutes, five attempts, twenty rows.
abbrev pub stale_after_minutes : ℕ
stale_after_minutes = 30

abbrev pub max_attempts : ℕ
max_attempts = 5

abbrev pub limit : ℕ
limit = 20

pub record ReclaimStaleClaimsConfig : Type 0 where
  pub entity : String
  pub reclaimed_event : String
  pub failed_event : String

pub record ReclaimStaleClaimsResult : Type 0 where
  pub reclaimed : ℕ
  pub failed : ℕ

abbrev pub counted : ClaimOutcome → ReclaimStaleClaimsResult → ReclaimStaleClaimsResult
counted ClaimOutcome.reclaimed n = record n { reclaimed = suc n.reclaimed }
counted ClaimOutcome.exhausted n = record n { failed = suc n.failed }

abbrev pub event_of : ReclaimStaleClaimsConfig → ClaimOutcome → String
event_of c ClaimOutcome.reclaimed = c.reclaimed_event
event_of c ClaimOutcome.exhausted = c.failed_event

pub record Account : Type 0 where
  pub id : String
  pub is_active : Bool

-- SELECT id FROM account WHERE is_active = true.
abbrev pub active : List Account → List String
active [] = []
active (a ∷ rest) = if a.is_active then a.id ∷ active rest else active rest

module _ (audit_event_id : List String → String) (json : List (String × String) → String) where
  abbrev pub recovery_event : ReclaimStaleClaimsConfig → String → ℕ → ReclaimedClaim → AuditEvent
  recovery_event config client now r =
      let event = event_of config r.outcome in
      record {
        id = audit_event_id (client ∷ r.id ∷ event ∷ count_text r.attempts ∷ []);
        entity = config.entity;
        entity_id = r.id;
        event = event;
        actor_kind = system;
        account_id = some client;
        actor_user_id = none;
        rule_version_id = none;
        rubric_snapshot_id = none;
        detail = json (
            ("workflowInstanceId", r.workflow_instance_id)
            ∷ ("attempts", count_text r.attempts)
            ∷ []);
        recorded_at = now;
      }

  -- The inner loop of reclaimStaleClaimsForActiveClients.
  unfoldable pub record_recoveries :
      {W : Type 0}
      → ReclaimStaleClaimsConfig
      → String
      → ℕ
      → List (Row W)
      → AuditLog × ReclaimStaleClaimsResult
      → Result AuditError (AuditLog × ReclaimStaleClaimsResult)
  record_recoveries config client now [] (log, n) = ok (log, n)
  record_recoveries config client now (r ∷ rs) (log, n) =
      write_audit_event (recovery_event config client now (reclaimed_claim r)) log >>= λ w.
      record_recoveries config client now rs (w.log, counted (outcome_of r.status) n)

  unfoldable pub reclaim_each :
      {W : Type 0}
      → ReclaimStaleClaimsConfig
      → ℕ
      → List String
      → List (Row W) × AuditLog × ReclaimStaleClaimsResult
      → Result AuditError (List (Row W) × AuditLog × ReclaimStaleClaimsResult)
  reclaim_each config now [] s = ok s
  reclaim_each config now (client ∷ clients) (rows, log, n) =
      let (rows', taken) =
        reclaim_stale_claims client now (stale_after_minutes * minute) max_attempts limit rows in
      record_recoveries config client now taken (log, n) >>= λ s.
      reclaim_each config now clients (rows', s.0, s.1)

  unfoldable pub reclaim_stale_claims_for_active_clients :
      {W : Type 0}
      → ReclaimStaleClaimsConfig
      → ℕ
      → List Account
      → List (Row W)
      → AuditLog
      → Result AuditError (List (Row W) × AuditLog × ReclaimStaleClaimsResult)
  reclaim_stale_claims_for_active_clients config now accounts rows log =
      reclaim_each config now (active accounts) (rows, log, record { reclaimed = 0; failed = 0 })
