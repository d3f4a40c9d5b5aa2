-- ===== src/Payments/Decisions.antt =====
-- The decisions of the payment gate (payments/generate-hold-decision.ts, authorize-payment.ts,
-- generate-short-pay-decision.ts, generate-do-not-pay-decision.ts, generate-payment-escalation.ts,
-- list-pending-payment-authorizations.ts), for one tenant. Each operation is one transaction. The
-- table `payment_gate_decision` is append-only and unique by run and action (migration 0052); the
-- generated id and the time are arguments. Times are milliseconds; an array in an event's detail is the
-- text of its elements.
use freight_auditor.Prelude.{
  ℕ, ◌+◌, ◌*◌, String, ◌==◌, Bool, true, false, not, ◌&&◌, Option, none, some, List, [], ◌∷◌, any,
  keep, if◌then◌else◌, ltb, Result, ok, err, ◌>>=◌, ◌>>◌, throw_if, need,
}
use freight_auditor.Money.{Decimal}
use freight_auditor.Audit.{
  ActorKind, analyst, system, AuditEvent, AuditLog, AuditError, write_audit_event,
}
use freight_auditor.Evaluator.Evaluate.{Outcome, rejected_rework, scored}
use freight_auditor.Payments.Compose.{
  ShortPayCode, ChargeFactRow, AcceptedOverchargeFindingRow, compose_short_pay_decision,
  GateFailureRow, DoNotPayCode, join, compose_do_not_pay_decision,
}

pub data PaymentAction : Type 0 where
  approve hold short_pay do_not_pay : PaymentAction

abbrev pub action_eq : PaymentAction → PaymentAction → Bool
action_eq approve approve = true
action_eq hold hold = true
action_eq short_pay short_pay = true
action_eq do_not_pay do_not_pay = true
action_eq _ _ = false

-- What an analyst may post: `PAYMENT_AUTHORIZATION_ACTIONS`.
pub data AuthorizationAction : Type 0 where
  post_approve post_hold : AuthorizationAction

abbrev pub posted : AuthorizationAction → PaymentAction
posted post_approve = approve
posted post_hold = hold

abbrev pub action_text : PaymentAction → String
action_text approve = "approve"
action_text hold = "hold"
action_text short_pay = "short_pay"
action_text do_not_pay = "do_not_pay"

pub data PaymentError : Type 0 where
  audit_run_not_found audit_run_not_scored audit_run_not_gate_failed unique_violation : PaymentError
  short_pay_refused : ShortPayCode → PaymentError
  do_not_pay_refused : PaymentError
  no_hold_decision already_approved grace_period_not_elapsed audit_conflict : PaymentError

pub record AuditRun : Type 0 where
  pub id : String
  pub invoice_id : String
  pub outcome : Outcome

pub record Decision : Type 0 where
  pub id : String
  pub invoice_id : String
  pub audit_run_id : String
  pub action : PaymentAction
  pub amount : Option String
  pub currency : Option String
  pub actor_kind : ActorKind
  pub rationale : Option String
  pub recorded_at : ℕ

abbrev pub outcome_eq : Outcome → Outcome → Bool
outcome_eq scored scored = true
outcome_eq rejected_rework rejected_rework = true
outcome_eq _ _ = false

unfoldable pub find_run : String → List AuditRun → Option AuditRun
find_run id [] = none
find_run id (r ∷ rs) = if r.id == id then some r else find_run id rs

-- `… AND outcome = …`.
abbrev pub with_outcome : Outcome → Option AuditRun → Option AuditRun
with_outcome o none = none
with_outcome o (some r) = if outcome_eq r.outcome o then some r else none

unfoldable pub find_decision : String → PaymentAction → List Decision → Option Decision
find_decision run a [] = none
find_decision run a (x ∷ xs) =
    if x.audit_run_id == run && action_eq x.action a then some x else find_decision run a xs

-- INSERT under the unique constraint.
unfoldable pub insert_decision : Decision → List Decision → Result PaymentError (List Decision)
insert_decision x xs = elim (find_decision x.audit_run_id x.action xs) [
  | none ↦ ok (x ∷ xs)
  | some y ↦ err unique_violation
]

abbrev pub lift_audit {ℓ} : {A : Type ℓ} → Result AuditError A → Result PaymentError A
lift_audit (ok a) = ok a
lift_audit (err e) = err audit_conflict

abbrev pub lift_short {ℓ} : {A : Type ℓ} → Result ShortPayCode A → Result PaymentError A
lift_short (ok a) = ok a
lift_short (err e) = err (short_pay_refused e)

abbrev pub lift_refusal {ℓ} : {A : Type ℓ} → Result DoNotPayCode A → Result PaymentError A
lift_refusal (ok a) = ok a
lift_refusal (err e) = err do_not_pay_refused

pub record DecisionResult : Type 0 where
  pub decision_id : Option String
  pub created : Bool

abbrev pub outcome_of : Option String → Bool → DecisionResult
outcome_of id c = record { decision_id = id; created = c }

abbrev pub day : ℕ
day = 86400000

module _ (d : Decimal) (locale_le : String → String → Bool) (audit_event_id : List String → String)
    (json : List (String × String) → String) where
  pub record Database : Type 0 where
    pub runs : List AuditRun
    pub charge_facts : List (String × ChargeFactRow d locale_le)
    -- Accepted OVERCHARGE findings, and gate failures, by run.
    pub accepted : List (String × AcceptedOverchargeFindingRow d locale_le)
    pub gate_failures : List (String × GateFailureRow)
    pub decisions : List Decision
    pub audit : AuditLog

  unfoldable pub rows_of : {A : Type 0} → String → List (String × A) → List A
  rows_of key [] = []
  rows_of key ((k, a) ∷ rest) = if k == key then a ∷ rows_of key rest else rows_of key rest

  pub record Request : Type 0 where
    pub client_id : String
    -- Of the analyst that authorizes a payment; what the system does has no user.
    pub actor_user_id : Option String
    pub audit_run_id : String
    pub new_id : String
    pub now : ℕ

  abbrev pub decision :
      Request
      → AuditRun
      → PaymentAction
      → Option String
      → Option String
      → ActorKind
      → Option String
      → Decision
  decision q run a amount currency actor rationale = record {
    id = q.new_id;
    invoice_id = run.invoice_id;
    audit_run_id = q.audit_run_id;
    action = a;
    amount = amount;
    currency = currency;
    actor_kind = actor;
    rationale = rationale;
    recorded_at = q.now;
  }

  abbrev pub user_of : Request → ActorKind → Option String
  user_of q analyst = q.actor_user_id
  user_of q _ = none

  abbrev pub event :
      Request → List String → String → String → ActorKind → List (String × String) → AuditEvent
  event q parts entity_id name actor detail = record {
    id = audit_event_id parts;
    entity = "payment_gate_decision";
    entity_id = entity_id;
    event = name;
    actor_kind = actor;
    account_id = some q.client_id;
    actor_user_id = user_of q actor;
    rule_version_id = none;
    rubric_snapshot_id = none;
    detail = json detail;
    recorded_at = q.now;
  }

  -- The insertion and its audit event.
  unfoldable pub record_decision :
      Decision → AuditEvent → Database → Result PaymentError (Database × DecisionResult)
  record_decision x e db = do
    decisions ← insert_decision x db.decisions
    w ← lift_audit (write_audit_event e db.audit)
    ok (record db { decisions = decisions; audit = w.log }, outcome_of (some x.id) true)

  abbrev pub found_or :
      Option Decision
      → Database
      → Result PaymentError (Database × DecisionResult)
      → Result PaymentError (Database × DecisionResult)
  found_or (some x) db fresh = ok (db, outcome_of (some x.id) false)
  found_or none db fresh = fresh

  unfoldable pub generate_hold_decision :
      Request → Bool → Database → Result PaymentError (Database × DecisionResult)
  generate_hold_decision q false db = ok (db, outcome_of none false)
  generate_hold_decision q true db = do
    run ← need (with_outcome scored (find_run q.audit_run_id db.runs)) audit_run_not_scored
    found_or (find_decision q.audit_run_id hold db.decisions) db (
        record_decision
          (decision q run hold none none system
            (some "Held by default pending analyst payment authorization (hold-then-approve)."))
          (event q (q.client_id ∷ q.audit_run_id ∷ "hold-decision" ∷ []) q.new_id "hold_generated"
            system (("auditRunId", q.audit_run_id) ∷ []))
          db)

  abbrev pub or_null : Option String → String
  or_null none = "null"
  or_null (some s) = s

  unfoldable pub authorize_payment :
      Request
      → AuthorizationAction
      → Option String
      → Database
      → Result PaymentError (Database × DecisionResult)
  authorize_payment q a rationale db = do
    run ← need (find_run q.audit_run_id db.runs) audit_run_not_found
    found_or (find_decision q.audit_run_id (posted a) db.decisions) db (
        record_decision (decision q run (posted a) none none analyst rationale)
          (event q (q.client_id ∷ q.new_id ∷ "payment-authorization" ∷ []) q.new_id
            "payment_authorized" analyst
            (("auditRunId", q.audit_run_id)
              ∷ ("action", action_text (posted a))
              ∷ ("rationale", or_null rationale)
              ∷ []))
          db)

  -- The composition, and the row it makes.
  unfoldable pub pay_short :
      Request → AuditRun → Database → Result PaymentError (Database × DecisionResult)
  pay_short q run db =
      lift_short (
        compose_short_pay_decision d locale_le (rows_of run.invoice_id db.charge_facts)
          (rows_of q.audit_run_id db.accepted))
      >>= λ p.
          record_decision
            (decision q run short_pay (some p.amount_to_pay) (some p.currency) system (
              some (
                join " " (
                  "Short-paid: withheld" ∷ p.withheld_amount ∷ p.currency
                  ∷ "for accepted overcharge findings." ∷ []))))
            (event q (q.client_id ∷ q.audit_run_id ∷ "short-pay-decision" ∷ []) q.new_id
              "short_pay_generated" system
              (("auditRunId", q.audit_run_id)
                ∷ ("amountToPay", p.amount_to_pay)
                ∷ ("withheldAmount", p.withheld_amount)
                ∷ ("findingIds", join "," p.finding_ids)
                ∷ []))
            db

  unfoldable pub generate_short_pay_decision :
      Request → Bool → Database → Result PaymentError (Database × DecisionResult)
  generate_short_pay_decision q false db = ok (db, outcome_of none false)
  generate_short_pay_decision q true db = do
    run ← need (with_outcome scored (find_run q.audit_run_id db.runs)) audit_run_not_scored
    found_or (find_decision q.audit_run_id short_pay db.decisions) db (pay_short q run db)

  -- The id of the row that the insertion made or found.
  unfoldable pub keep_or_insert : Decision → List Decision → List Decision × String
  keep_or_insert x xs = elim (find_decision x.audit_run_id x.action xs) [
    | none ↦ (x ∷ xs, x.id)
    | some y ↦ (xs, y.id)
  ]

  -- INSERT … ON CONFLICT DO NOTHING, and the audit event of the row.
  unfoldable pub refuse :
      Decision → (String → AuditEvent) → Database → Result PaymentError (Database × DecisionResult)
  refuse x e db = do
    let kept = keep_or_insert x db.decisions
    w ← lift_audit (write_audit_event (e kept.1) db.audit)
    ok (record db { decisions = kept.0; audit = w.log }, outcome_of (some kept.1) true)

  unfoldable pub generate_do_not_pay_decision :
      Request → Database → Result PaymentError (Database × DecisionResult)
  generate_do_not_pay_decision q db = do
    run ←
        need (with_outcome rejected_rework (find_run q.audit_run_id db.runs))
          audit_run_not_gate_failed
    p ←
        lift_refusal
          (compose_do_not_pay_decision locale_le (rows_of q.audit_run_id db.gate_failures))
    refuse (decision q run do_not_pay none none system (some p.rationale))
        (λ id.
          event q (q.client_id ∷ q.audit_run_id ∷ "do-not-pay-decision" ∷ []) id
            "do_not_pay_generated" system
            (("auditRunId", q.audit_run_id)
              ∷ ("gateFailureIds", join "," p.gate_failure_ids)
              ∷ ("rationale", p.rationale)
              ∷ []))
        db

  -- The escalation marks a hold that nobody approved in time; it decides nothing.
  unfoldable pub generate_payment_escalation :
      Request
      → ℕ
      → (held_at_text grace_text : String) → Database
      → Result PaymentError (Database × Bool)
  generate_payment_escalation q grace_days held_at_text grace_text db = do
    h ← need (find_decision q.audit_run_id hold db.decisions) no_hold_decision
    throw_if
        (elim (find_decision q.audit_run_id approve db.decisions) [ none ↦ false | some a ↦ true ])
        already_approved
    throw_if (ltb q.now (h.recorded_at + grace_days * day)) grace_period_not_elapsed
    w ← lift_audit (
        write_audit_event
          (event q (q.client_id ∷ q.audit_run_id ∷ "payment_gate.escalated" ∷ []) q.audit_run_id
            "payment_gate.escalated" system
            (("auditRunId", q.audit_run_id)
              ∷ ("holdRecordedAt", held_at_text)
              ∷ ("gracePeriodDays", grace_text)
              ∷ []))
          db.audit)
    ok (record db { audit = w.log }, w.created)

  -- A hold is pending when no other action answers it.
  abbrev pub resolves : PaymentAction → Bool
  resolves hold = false
  resolves _ = true

  unfoldable pub is_pending : List Decision → Decision → Bool
  is_pending all_decisions h =
      action_eq h.action hold
      && not (
          any (λ (x : Decision). x.audit_run_id == h.audit_run_id && resolves x.action)
            all_decisions)

  unfoldable pub pending_payment_authorizations : List Decision → List Decision
  pending_payment_authorizations xs = keep (is_pending xs) xs
