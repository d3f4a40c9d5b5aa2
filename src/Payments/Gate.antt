-- ===== src/Payments/Gate.antt =====
-- The payment gate over time: every sequence of operations on a database without decisions.
use freight_auditor.Prelude.{
  ℕ, String, ◌==◌, Bool, true, ◌&&◌, Option, some, List, [], ◌∷◌, ◌++◌, All, ok, ◌≡◌, ◌≢◌, inl, inr,
  refl, sym, ap, ◌∙◌, subst, arith, eq_iff, Bool-cases,
}
use freight_auditor.Money.{Decimal}
use freight_auditor.Evaluator.Evaluate.{rejected_rework, scored}
use freight_auditor.Payments.Decisions.{
  PaymentAction, short_pay, do_not_pay, action_eq, AuthorizationAction, AuditRun, Decision,
  find_run, find_decision, DecisionResult, Database, Request, generate_hold_decision,
  authorize_payment, generate_short_pay_decision, generate_do_not_pay_decision,
  generate_payment_escalation,
}
use freight_auditor.Payments.Ledger.{
  DecisionIsSound, IsUnique, Grown, Extends, hold-Extends, authorize-Extends, short_pay-Extends,
  do_not_pay-Extends, escalation-Extends,
}

module _ (d : Decimal) (locale_le : String → String → Bool) (audit_event_id : List String → String)
    (json : List (String × String) → String) where
  -- One committed transaction.
  pub data Step (db : Database d locale_le audit_event_id json)
      : Database d locale_le audit_event_id json → Type 0 where
    held :
        {db' : Database d locale_le audit_event_id json}
        (q : Request d locale_le audit_event_id json) (b : Bool) (r : DecisionResult)
        → generate_hold_decision d locale_le audit_event_id json q b db ≡ ok (db', r)
        → Step db db'
    authorized :
        {db' : Database d locale_le audit_event_id json}
        (q : Request d locale_le audit_event_id json) (a : AuthorizationAction)
        (rationale : Option String) (r : DecisionResult)
        → authorize_payment d locale_le audit_event_id json q a rationale db ≡ ok (db', r)
        → Step db db'
    short_paid :
        {db' : Database d locale_le audit_event_id json}
        (q : Request d locale_le audit_event_id json) (b : Bool) (r : DecisionResult)
        → generate_short_pay_decision d locale_le audit_event_id json q b db ≡ ok (db', r)
        → Step db db'
    refused :
        {db' : Database d locale_le audit_event_id json}
        (q : Request d locale_le audit_event_id json) (r : DecisionResult)
        → generate_do_not_pay_decision d locale_le audit_event_id json q db ≡ ok (db', r)
        → Step db db'
    escalated :
        {db' : Database d locale_le audit_event_id json}
        (q : Request d locale_le audit_event_id json) (days : ℕ) (s t : String) (b : Bool)
        → generate_payment_escalation d locale_le audit_event_id json q days s t db ≡ ok (db', b)
        → Step db db'

  pub data Reach (db : Database d locale_le audit_event_id json)
      : Database d locale_le audit_event_id json → Type 0 where
    here : Reach db db
    next :
        {mid db' : Database d locale_le audit_event_id json}
        → Reach db mid
        → Step mid db'
        → Reach db db'

  abbrev Db : Type 0
  Db = Database d locale_le audit_event_id json

  Step-Extends : {db db' : Db} → Step db db' → Extends d locale_le audit_event_id json db db'
  Step-Extends {db} {db'} (held q b r h) =
      hold-Extends d locale_le audit_event_id json q b db db' r h
  Step-Extends {db} {db'} (authorized q a rationale r h) =
      authorize-Extends d locale_le audit_event_id json q a rationale db db' r h
  Step-Extends {db} {db'} (short_paid q b r h) =
      short_pay-Extends d locale_le audit_event_id json q b db db' r h
  Step-Extends {db} {db'} (refused q r h) =
      do_not_pay-Extends d locale_le audit_event_id json q db db' r h
  Step-Extends {db} {db'} (escalated q days s t b h) =
      escalation-Extends d locale_le audit_event_id json q days s t db db' b h

  -- The decisions are unique by run and action, and each rests on what its action needs.
  unfoldable pub GateIsSound : Db → Type 0
  GateIsSound db = IsUnique db.decisions × All (DecisionIsSound db.runs) db.decisions

  Extends-IsSound :
      (db db' : Db)
      → Extends d locale_le audit_event_id json db db'
      → GateIsSound db
      → GateIsSound db'
  unfolding GateIsSound IsUnique Grown
  Extends-IsSound db db' (runs, inl same) s = rw (runs, same) s
  Extends-IsSound db db' (runs, inr (x, new, fresh, sound)) s =
      rw (runs, new) (((fresh, s.0), (sound, s.1)))

  -- Whatever operations have committed since there were no decisions: a run has at most one decision
  -- of each action, every approval was made by an analyst, every short payment is of a run that was
  -- scored, and every refusal is of a run that the gate rejected.
  pub Reach-GateIsSound : {db db' : Db} → db.decisions ≡ [] → Reach db db' → GateIsSound db'
  unfolding GateIsSound IsUnique
  Reach-GateIsSound {db} {db'} e here = rw (e) ((tt, tt))
  Reach-GateIsSound {db} {db'} e (next {mid} r st) =
      Extends-IsSound mid db' (Step-Extends st) (Reach-GateIsSound e r)

  -- The decisions of every later database end with those of the earlier one, and its runs are the same:
  -- no operation changes or takes back a decision.
  pub Reach-append_only :
      {db db' : Db}
      → Reach db db'
      → (new : List Decision) × (db'.decisions ≡ new ++ db.decisions) × (db'.runs ≡ db.runs)
  unfolding Grown
  Reach-append_only here = ([], refl, refl)
  Reach-append_only {db} {db'} (next r st) =
      let (new, e, runs) = Reach-append_only r in
      let step = Step-Extends st in
      elim step.1 [
        | inl same ↦ (new, same ∙ e, step.0 ∙ runs)
        | inr (x, grown, fresh, sound) ↦ (x ∷ new, grown ∙ ap (λ xs. x ∷ xs) e, step.0 ∙ runs)
      ]

  found-IsSound :
      (runs : List AuditRun) (xs : List Decision) (run : String) (a : PaymentAction) (x : Decision)
      → All (DecisionIsSound runs) xs
      → find_decision run a xs ≡ some x
      → DecisionIsSound runs x × (x.audit_run_id ≡ run) × (action_eq x.action a ≡ true)
  unfolding find_decision
  found-IsSound runs [] run a x s h = absurd (ground arith)
  found-IsSound runs (y ∷ ys) run a x s h =
      elim (Bool-cases (y.audit_run_id == run && action_eq y.action a)) [
        | inr e ↦ found-IsSound runs ys run a x s.1 (ground arith)
        | inl e ↦
            let same : y ≡ x = ground arith in
            subst
              (λ (z : Decision).
                DecisionIsSound runs z × (z.audit_run_id ≡ run) × (action_eq z.action a ≡ true))
              same (s.0, ground (arith, eq_iff y.audit_run_id run, e), ground (arith, e))
      ]

  action_of_eq : (a b : PaymentAction) → action_eq a b ≡ true → a ≡ b
  action_of_eq a b h = ground arith

  short_pay-scored :
      (runs : List AuditRun) (x : Decision)
      → x.action ≡ short_pay
      → DecisionIsSound runs x
      → (r : AuditRun) × (find_run x.audit_run_id runs ≡ some r) × (r.outcome ≡ scored)
  unfolding DecisionIsSound
  short_pay-scored runs x e s = rw (e) at s

  do_not_pay-rejected :
      (runs : List AuditRun) (x : Decision)
      → x.action ≡ do_not_pay
      → DecisionIsSound runs x
      → (r : AuditRun) × (find_run x.audit_run_id runs ≡ some r) × (r.outcome ≡ rejected_rework)
  unfolding DecisionIsSound
  do_not_pay-rejected runs x e s = rw (e) at s

  -- Neither order of operations gives one run both a short payment and a refusal.
  pub Reach-no_conflict :
      {db db' : Db} (run : String) (x y : Decision)
      → db.decisions ≡ []
      → Reach db db'
      → find_decision run short_pay db'.decisions ≡ some x
      → find_decision run do_not_pay db'.decisions ≢ some y
  unfolding GateIsSound
  Reach-no_conflict {db} {db'} run x y e r p q =
      let sound = (Reach-GateIsSound e r).1 in
      let fx = found-IsSound db'.runs db'.decisions run short_pay x sound p in
      let fy = found-IsSound db'.runs db'.decisions run do_not_pay y sound q in
      let (a, fa, oa) = short_pay-scored db'.runs x (action_of_eq x.action short_pay fx.2) fx.0 in
      let (b, fb, ob) =
        do_not_pay-rejected db'.runs y (action_of_eq y.action do_not_pay fy.2) fy.0 in
      let same : x.audit_run_id ≡ y.audit_run_id = fx.1 ∙ sym fy.1 in
      let one : some a ≡ some b = sym fa ∙ ap (λ i. find_run i db'.runs) same ∙ fb in
      ground (arith, one, oa, ob)
