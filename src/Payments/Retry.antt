-- ===== src/Payments/Retry.antt =====
-- Retries of the payment operations, and what an escalation leaves alone.
use freight_auditor.Prelude.{
  ℕ, ◌+◌, ◌*◌, ◌≤◌, String, Bool, true, false, Option, none, some, List, ◌∷◌, ok, ◌≡◌, inl, inr,
  refl, ap, ◌∙◌, arith, eq_iff, Option-cases, Result-cases,
}
use freight_auditor.Money.{Decimal}
use freight_auditor.Audit.{AuditEvent, write_audit_event}
use freight_auditor.Evaluator.Evaluate.{scored}
use freight_auditor.Payments.Decisions.{
  PaymentAction, approve, hold, AuthorizationAction, posted, Decision, find_run, with_outcome,
  find_decision, insert_decision, DecisionResult, day, Database, Request, record_decision, found_or,
  generate_hold_decision, authorize_payment, generate_payment_escalation,
}

module _ (d : Decimal) (locale_le : String → String → Bool) (audit_event_id : List String → String)
    (json : List (String × String) → String) where
  abbrev Db : Type 0
  Db = Database d locale_le audit_event_id json

  found_in_front :
      (run : String) (a : PaymentAction) (x : Decision) (xs : List Decision)
      → x.audit_run_id ≡ run
      → x.action ≡ a
      → find_decision run a (x ∷ xs) ≡ some x
  unfolding find_decision
  found_in_front run a x xs e f = ground (arith, eq_iff x.audit_run_id run, e, f)

  -- The recorded decision is found again, and the runs stay.
  recorded-found :
      (x : Decision) (e : AuditEvent) (db db' : Db) (r : DecisionResult)
      → record_decision d locale_le audit_event_id json x e db ≡ ok (db', r)
      → (find_decision x.audit_run_id x.action db'.decisions ≡ some x)
        × (db'.runs ≡ db.runs)
        × (r.decision_id ≡ some x.id)
  unfolding record_decision insert_decision
  recorded-found x e db db' r h =
      elim (Option-cases (find_decision x.audit_run_id x.action db.decisions)) [
        | inr (y, n) ↦ absurd (ground arith)
        | inl n ↦ elim (Result-cases (write_audit_event e db.audit)) [
          | inr (er, m) ↦ absurd (ground arith)
          | inl (w, m) ↦
              let grown : db'.decisions ≡ x ∷ db.decisions = ground arith in
              (
                ap (find_decision x.audit_run_id x.action) grown
                    ∙ found_in_front x.audit_run_id x.action x db.decisions refl refl,
                ground arith,
                ground arith,
              )
        ]
      ]

  -- A first result, found or recorded, is found by every later look-up.
  settled :
      (run : String) (a : PaymentAction) (db db' : Db) (x : Decision) (e : AuditEvent)
      (r : DecisionResult)
      → x.audit_run_id ≡ run
      → x.action ≡ a
      → found_or d locale_le audit_event_id json
          (find_decision run a db.decisions)
          db
          (record_decision d locale_le audit_event_id json x e db)
        ≡ ok (db', r)
      → (y : Decision) × (find_decision run a db'.decisions ≡ some y)
        × (db'.runs ≡ db.runs)
        × (r.decision_id ≡ some y.id)
  settled run a db db' x e r p q h = elim (Option-cases (find_decision run a db.decisions)) [
    | inr (y, n) ↦ (y, ground arith, ground arith, ground arith)
    | inl n ↦
        let (f, runs, id) = recorded-found x e db db' r (rw (n) at h) in
        (x, rw (← p, ← q) f, runs, id)
  ]

  -- A retry of the hold of a run, with whatever generated id and time, changes nothing and answers with
  -- the decision of the first call, as not created.
  pub generate_hold_decision-retry :
      (first again : Request d locale_le audit_event_id json) (db db' : Db) (r : DecisionResult)
      → again.audit_run_id ≡ first.audit_run_id
      → generate_hold_decision d locale_le audit_event_id json first true db ≡ ok (db', r)
      → generate_hold_decision d locale_le audit_event_id json again true db'
        ≡ ok (db', record { decision_id = r.decision_id; created = false })
  unfolding generate_hold_decision
  generate_hold_decision-retry first again db db' r same h =
      elim (Option-cases (with_outcome scored (find_run first.audit_run_id db.runs))) [
        | inl n ↦ absurd (ground arith)
        | inr (run, n) ↦
            let (y, f, runs, id) =
              settled first.audit_run_id hold db db' _ _ r refl refl (rw (n) at h) in
            rw (same, runs, n, f, id) refl
      ]

  -- A retry of an analyst's authorization, whichever of the two actions is posted and with whatever
  -- rationale, generated id and time, changes nothing and answers with the decision of the first call, as
  -- not created.
  pub authorize_payment-retry :
      (first again : Request d locale_le audit_event_id json) (a : AuthorizationAction)
      (rationale other : Option String) (db db' : Db) (r : DecisionResult)
      → again.audit_run_id ≡ first.audit_run_id
      → authorize_payment d locale_le audit_event_id json first a rationale db ≡ ok (db', r)
      → authorize_payment d locale_le audit_event_id json again a other db'
        ≡ ok (db', record { decision_id = r.decision_id; created = false })
  unfolding authorize_payment
  authorize_payment-retry first again a rationale other db db' r same h =
      elim (Option-cases (find_run first.audit_run_id db.runs)) [
        | inl n ↦ absurd (ground arith)
        | inr (run, n) ↦
            let (y, f, runs, id) =
              settled first.audit_run_id (posted a) db db' _ _ r refl refl (rw (n) at h) in
            rw (same, runs, n, f, id) refl
      ]

  -- An escalation happens only to a run with a hold and no approval, not before the grace period after
  -- the hold has passed, and it leaves every decision and run as it was: the payment stays held.
  pub generate_payment_escalation-keeps_hold :
      (q : Request d locale_le audit_event_id json) (days : ℕ) (s t : String) (db db' : Db)
      (b : Bool)
      → generate_payment_escalation d locale_le audit_event_id json q days s t db ≡ ok (db', b)
      → ((h : Decision) × (find_decision q.audit_run_id hold db.decisions ≡ some h)
          × (h.recorded_at + days * day ≤ q.now))
        × (find_decision q.audit_run_id approve db.decisions ≡ none)
        × (db'.decisions ≡ db.decisions)
        × (db'.runs ≡ db.runs)
  unfolding generate_payment_escalation
  generate_payment_escalation-keeps_hold q days s t db db' b h =
      elim (Option-cases (find_decision q.audit_run_id hold db.decisions)) [
        | inl n ↦ absurd (ground arith)
        | inr (x, n) ↦ elim (Option-cases (find_decision q.audit_run_id approve db.decisions)) [
          | inr (y, m) ↦ absurd (ground (arith, n, m))
          | inl m ↦ ((x, n, ground (arith, n, m)), m, ground (arith, n, m), ground (arith, n, m))
        ]
      ]
