-- ===== src/Payments/Ledger.antt =====
-- What holds of the decisions after any sequence of operations.
use freight_auditor.Prelude.{
  ℕ, String, Bool, true, false, Option, none, some, List, [], ◌∷◌, Result, ok, ◌≡◌, ◌⊎◌, inl, inr,
  refl, arith, Option-cases, Result-cases,
}
use freight_auditor.Money.{Decimal}
use freight_auditor.Audit.{analyst, AuditEvent, write_audit_event}
use freight_auditor.Evaluator.Evaluate.{Outcome, rejected_rework, scored}
use freight_auditor.Payments.Compose.{compose_short_pay_decision, compose_do_not_pay_decision}
use freight_auditor.Payments.Decisions.{
  approve, hold, short_pay, do_not_pay, AuthorizationAction, post_approve, post_hold, PaymentError,
  AuditRun, Decision, find_run, with_outcome, find_decision, insert_decision, DecisionResult,
  Database, rows_of, Request, record_decision, found_or, generate_hold_decision, authorize_payment,
  pay_short, generate_short_pay_decision, keep_or_insert, refuse, generate_do_not_pay_decision,
  generate_payment_escalation,
}

-- What a decision of each action rests on.
unfoldable pub DecisionIsSound : List AuditRun → Decision → Type 0
DecisionIsSound runs x = elim x.action [
  | approve ↦ x.actor_kind ≡ analyst
  | hold ↦ Unit
  | short_pay ↦ (r : AuditRun) × (find_run x.audit_run_id runs ≡ some r) × (r.outcome ≡ scored)
  | do_not_pay ↦
      (r : AuditRun) × (find_run x.audit_run_id runs ≡ some r) × (r.outcome ≡ rejected_rework)
]

-- One decision at most for a run and an action.
unfoldable pub IsUnique : List Decision → Type 0
IsUnique [] = Unit
IsUnique (x ∷ xs) = (find_decision x.audit_run_id x.action xs ≡ none) × IsUnique xs

-- The decisions that an operation leaves: the same, or one new one in front.
unfoldable pub Grown : List AuditRun → List Decision → List Decision → Type 0
Grown runs old new =
    (new ≡ old)
    ⊎ ((x : Decision) × (new ≡ x ∷ old)
        × (find_decision x.audit_run_id x.action old ≡ none)
        × DecisionIsSound runs x)

with_outcome-some :
    (o : Outcome) (m : Option AuditRun) (r : AuditRun)
    → with_outcome o m ≡ some r
    → (m ≡ some r) × (r.outcome ≡ o)
with_outcome-some scored none r h = absurd (ground arith)
with_outcome-some rejected_rework none r h = absurd (ground arith)
with_outcome-some o (some x) r h = ground arith

insert-ok :
    (x : Decision) (xs ys : List Decision)
    → insert_decision x xs ≡ ok ys
    → (ys ≡ x ∷ xs) × (find_decision x.audit_run_id x.action xs ≡ none)
unfolding insert_decision
insert-ok x xs ys h = elim (Option-cases (find_decision x.audit_run_id x.action xs)) [
  | inl n ↦ (ground arith, n)
  | inr (y, n) ↦ absurd (ground arith)
]

module _ (d : Decimal) (locale_le : String → String → Bool) (audit_event_id : List String → String)
    (json : List (String × String) → String) where
  abbrev Db : Type 0
  Db = Database d locale_le audit_event_id json

  abbrev pub Extends : Db → Db → Type 0
  Extends db db' = (db'.runs ≡ db.runs) × Grown db.runs db.decisions db'.decisions

  record_decision-Extends :
      (x : Decision) (e : AuditEvent) (db db' : Db) (r : DecisionResult)
      → DecisionIsSound db.runs x
      → record_decision d locale_le audit_event_id json x e db ≡ ok (db', r)
      → Extends db db'
  unfolding record_decision Grown
  record_decision-Extends x e db db' r sound h =
      elim (Result-cases (insert_decision x db.decisions)) [
        | inr (er, n) ↦ absurd (ground arith)
        | inl (ys, i) ↦
            let (grown, fresh) = insert-ok x db.decisions ys i in
            elim (Result-cases (write_audit_event e db.audit)) [
              | inr (er, n) ↦ absurd (ground arith)
              | inl (w, n) ↦ (ground arith, inr (x, ground arith, fresh, sound))
            ]
      ]

  found_or-Extends :
      (found : Option Decision) (db db' : Db) (r : DecisionResult)
      (fresh : Result PaymentError (Db × DecisionResult))
      → (fresh ≡ ok (db', r) → Extends db db')
      → found_or d locale_le audit_event_id json found db fresh ≡ ok (db', r)
      → Extends db db'
  unfolding Grown
  found_or-Extends none db db' r fresh step h = step h
  found_or-Extends (some x) db db' r fresh step h = (ground arith, inl (ground arith))

  pub hold-Extends :
      (q : Request d locale_le audit_event_id json) (b : Bool) (db db' : Db) (r : DecisionResult)
      → generate_hold_decision d locale_le audit_event_id json q b db ≡ ok (db', r)
      → Extends db db'
  unfolding generate_hold_decision Grown DecisionIsSound
  hold-Extends q false db db' r h = (ground arith, inl (ground arith))
  hold-Extends q true db db' r h =
      elim (Option-cases (with_outcome scored (find_run q.audit_run_id db.runs))) [
        | inl n ↦ absurd (ground arith)
        | inr (run, n) ↦
            found_or-Extends _ db db' r _ (record_decision-Extends _ _ db db' r tt) (rw (n) at h)
      ]

  pub authorize-Extends :
      (q : Request d locale_le audit_event_id json) (a : AuthorizationAction)
      (rationale : Option String) (db db' : Db) (r : DecisionResult)
      → authorize_payment d locale_le audit_event_id json q a rationale db ≡ ok (db', r)
      → Extends db db'
  unfolding authorize_payment DecisionIsSound
  authorize-Extends q post_approve rationale db db' r h =
      elim (Option-cases (find_run q.audit_run_id db.runs)) [
        | inl n ↦ absurd (ground arith)
        | inr (run, n) ↦
            found_or-Extends _ db db' r _ (record_decision-Extends _ _ db db' r refl) (rw (n) at h)
      ]
  authorize-Extends q post_hold rationale db db' r h =
      elim (Option-cases (find_run q.audit_run_id db.runs)) [
        | inl n ↦ absurd (ground arith)
        | inr (run, n) ↦
            found_or-Extends _ db db' r _ (record_decision-Extends _ _ db db' r tt) (rw (n) at h)
      ]

  pay_short-Extends :
      (q : Request d locale_le audit_event_id json) (run : AuditRun) (db db' : Db)
      (r : DecisionResult)
      → (s : AuditRun) × (find_run q.audit_run_id db.runs ≡ some s) × (s.outcome ≡ scored)
      → pay_short d locale_le audit_event_id json q run db ≡ ok (db', r)
      → Extends db db'
  unfolding pay_short DecisionIsSound
  pay_short-Extends q run db db' r known h =
      elim (Result-cases (
        compose_short_pay_decision d locale_le
          (rows_of d locale_le audit_event_id json run.invoice_id db.charge_facts)
          (rows_of d locale_le audit_event_id json q.audit_run_id db.accepted))) [
            | inr (e, m) ↦ absurd (ground arith)
            | inl (p, m) ↦ record_decision-Extends _ _ db db' r known (rw (m) at h)
          ]

  pub short_pay-Extends :
      (q : Request d locale_le audit_event_id json) (b : Bool) (db db' : Db) (r : DecisionResult)
      → generate_short_pay_decision d locale_le audit_event_id json q b db ≡ ok (db', r)
      → Extends db db'
  unfolding generate_short_pay_decision Grown DecisionIsSound
  short_pay-Extends q false db db' r h = (ground arith, inl (ground arith))
  short_pay-Extends q true db db' r h =
      elim (Option-cases (with_outcome scored (find_run q.audit_run_id db.runs))) [
        | inl n ↦ absurd (ground arith)
        | inr (run, n) ↦
            let known = with_outcome-some scored _ run n in
            found_or-Extends _ db db' r _ (pay_short-Extends q run db db' r (run, known.0, known.1))
              (rw (n) at h)
      ]

  -- The row that the insertion of the refusal made or found.
  kept-Grown :
      (runs : List AuditRun) (x : Decision) (xs : List Decision)
      → DecisionIsSound runs x
      → Grown runs xs (keep_or_insert d locale_le audit_event_id json x xs).0
  unfolding Grown keep_or_insert
  kept-Grown runs x xs sound = elim (Option-cases (find_decision x.audit_run_id x.action xs)) [
    | inl n ↦ inr (x, rw (keep_or_insert, n) refl, n, sound)
    | inr (y, n) ↦ inl (rw (keep_or_insert, n) refl)
  ]

  -- The end of the refusal: the audit event, and the rows kept.
  refusal-Extends :
      (x : Decision) (e : String → AuditEvent) (db db' : Db) (r : DecisionResult)
      → DecisionIsSound db.runs x
      → refuse d locale_le audit_event_id json x e db ≡ ok (db', r)
      → Extends db db'
  unfolding refuse
  refusal-Extends x e db db' r sound h =
      let kept = keep_or_insert d locale_le audit_event_id json x db.decisions in
      elim (Result-cases (write_audit_event (e kept.1) db.audit)) [
        | inr (er, n) ↦ absurd (ground arith)
        | inl (w, n) ↦
            let grown = kept-Grown db.runs x db.decisions sound in
            let same : db'.decisions ≡ kept.0 = ground arith in (ground arith, rw (same) grown)
      ]

  pub do_not_pay-Extends :
      (q : Request d locale_le audit_event_id json) (db db' : Db) (r : DecisionResult)
      → generate_do_not_pay_decision d locale_le audit_event_id json q db ≡ ok (db', r)
      → Extends db db'
  unfolding generate_do_not_pay_decision DecisionIsSound
  do_not_pay-Extends q db db' r h =
      elim (Option-cases (with_outcome rejected_rework (find_run q.audit_run_id db.runs))) [
        | inl n ↦ absurd (ground arith)
        | inr (run, n) ↦
            let known = with_outcome-some rejected_rework _ run n in
            elim (Result-cases (
              compose_do_not_pay_decision locale_le
                (rows_of d locale_le audit_event_id json q.audit_run_id db.gate_failures))) [
                  | inr (e, m) ↦ absurd (ground arith)
                  | inl (p, m) ↦
                      refusal-Extends _ _ db db' r (run, known.0, known.1) (rw (n, m) at h)
                ]
      ]

  pub escalation-Extends :
      (q : Request d locale_le audit_event_id json) (days : ℕ) (s t : String) (db db' : Db)
      (b : Bool)
      → generate_payment_escalation d locale_le audit_event_id json q days s t db ≡ ok (db', b)
      → Extends db db'
  unfolding generate_payment_escalation Grown
  escalation-Extends q days s t db db' b h =
      elim (Option-cases (find_decision q.audit_run_id hold db.decisions)) [
        | inl n ↦ absurd (ground arith)
        | inr (x, n) ↦ (ground (arith, n), inl (ground (arith, n)))
      ]
