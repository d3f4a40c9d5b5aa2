-- ===== src/Tests/Payment.antt =====
-- The payment gate on two runs of one client.
use freight_auditor.Prelude.{
  ℕ, ◌≤◌, ◌+◌, ◌*◌, String, Bool, true, false, none, some, List, [], ◌∷◌, ◌++◌, ok, ◌≡◌, ◌≢◌, refl,
  All,
}
use freight_auditor.Prelude.Int.{pos, ◌+ℤ◌, ◌-ℤ◌}
use freight_auditor.Cents.Text.{print}
use freight_auditor.Audit.{analyst, system, AuditEvent, find_event, write_audit_event}
use freight_auditor.Payments.Gate.{
  held, short_paid, refused, Reach, here, next, GateIsSound, Reach-GateIsSound, Reach-append_only,
  Reach-no_conflict,
}
use freight_auditor.Payments.Retry.{
  generate_hold_decision-retry, authorize_payment-retry, generate_payment_escalation-keeps_hold,
}
use freight_auditor.Payments.ShortPay.{compose_short_pay_decision_sound}
use freight_auditor.Cents.{cents, cents-IsExact}
use freight_auditor.Evaluator.Evaluate.{rejected_rework, scored}
use freight_auditor.Tests.Inputs.{code_point_le, joined, object_text}
use freight_auditor.Payments.Compose.{
  one_currency, ChargeFactRow, AcceptedOverchargeFindingRow, ShortPayDecision, total_of,
  withheld_of, compose_short_pay_decision, compose_do_not_pay_decision,
}
use freight_auditor.Payments.Decisions.{
  approve, hold, short_pay, do_not_pay, post_approve, AuditRun, Decision, find_run, find_decision,
  insert_decision, DecisionResult, day, Database, rows_of, Request, decision, record_decision,
  generate_hold_decision, authorize_payment, pay_short, generate_short_pay_decision, keep_or_insert,
  refuse, generate_do_not_pay_decision, generate_payment_escalation,
}

abbrev Db : Type 0
Db = Database cents code_point_le joined object_text

abbrev run_a : AuditRun
run_a = record { id = "run-a"; invoice_id = "inv-a"; outcome = scored }

abbrev run_b : AuditRun
run_b = record { id = "run-b"; invoice_id = "inv-b"; outcome = rejected_rework }

abbrev charge : ChargeFactRow cents code_point_le
unfolding cents
charge = record { amount = pos 1000000; currency = some "USD" }

abbrev excess : AcceptedOverchargeFindingRow cents code_point_le
unfolding cents
excess = record { id = "f1"; currency = some "USD"; variance_amount = some (pos 250000) }

abbrev fresh : Db
fresh = record {
  runs = run_a ∷ run_b ∷ [];
  charge_facts = ("inv-a", charge) ∷ [];
  accepted = ("run-a", excess) ∷ [];
  gate_failures = ("run-b", record { id = "g1"; defect = "no total"; citation = none }) ∷ [];
  decisions = [];
  audit = [];
}

abbrev request : String → String → ℕ → Request cents code_point_le joined object_text
request run id now = record {
  client_id = "c";
  actor_user_id = some "ann";
  audit_run_id = run;
  new_id = id;
  now = now;
}

abbrev outcome : String → Bool → DecisionResult
outcome id c = record { decision_id = some id; created = c }

abbrev hold_request : Request cents code_point_le joined object_text
hold_request = request "run-a" "d1" 5

abbrev held_decision : Decision
held_decision =
    decision cents code_point_le joined object_text hold_request run_a hold none none system
      (some "Held by default pending analyst payment authorization (hold-then-approve).")

abbrev held_event : AuditEvent
held_event = record {
  id = "c/run-a/hold-decision/";
  entity = "payment_gate_decision";
  entity_id = "d1";
  event = "hold_generated";
  actor_kind = system;
  account_id = some "c";
  actor_user_id = none;
  rule_version_id = none;
  rubric_snapshot_id = none;
  detail = "auditRunId:run-a,";
  recorded_at = 5;
}

abbrev held_db : Db
held_db = record fresh { decisions = held_decision ∷ []; audit = held_event ∷ [] }

hold_runs :
    generate_hold_decision cents code_point_le joined object_text hold_request true fresh
    ≡ ok (held_db, outcome "d1" true)
unfolding generate_hold_decision find_run find_decision record_decision insert_decision
    write_audit_event find_event joined object_text
hold_runs = refl

abbrev refusal_request : Request cents code_point_le joined object_text
refusal_request = request "run-b" "d2" 6

abbrev refusal : Decision
refusal =
    decision cents code_point_le joined object_text refusal_request run_b do_not_pay none none
      system (some "no total")

abbrev refused_event : AuditEvent
refused_event = record {
  id = "c/run-b/do-not-pay-decision/";
  entity = "payment_gate_decision";
  entity_id = "d2";
  event = "do_not_pay_generated";
  actor_kind = system;
  account_id = some "c";
  actor_user_id = none;
  rule_version_id = none;
  rubric_snapshot_id = none;
  detail = "auditRunId:run-b,gateFailureIds:g1,rationale:no total,";
  recorded_at = 6;
}

abbrev refused_db : Db
refused_db = record held_db {
  decisions = refusal ∷ held_decision ∷ [];
  audit = refused_event ∷ held_event ∷ [];
}

refusal_runs :
    generate_do_not_pay_decision cents code_point_le joined object_text refusal_request held_db
    ≡ ok (refused_db, outcome "d2" true)
unfolding generate_do_not_pay_decision find_run find_decision refuse keep_or_insert rows_of
    compose_do_not_pay_decision write_audit_event find_event joined object_text code_point_le
refusal_runs = refl

abbrev both_steps : Reach cents code_point_le joined object_text fresh refused_db
both_steps =
    next (next here (held hold_request true (outcome "d1" true) hold_runs))
      (refused refusal_request (outcome "d2" true) refusal_runs)

Reach-GateIsSound_example : GateIsSound cents code_point_le joined object_text refused_db
Reach-GateIsSound_example =
    Reach-GateIsSound cents code_point_le joined object_text {db = fresh} {db' = refused_db} refl
      both_steps

Reach-append_only_example :
    (new : List Decision) × (refused_db.decisions ≡ new ++ fresh.decisions)
    × (refused_db.runs ≡ fresh.runs)
Reach-append_only_example =
    Reach-append_only cents code_point_le joined object_text {db = fresh} {db' = refused_db}
      both_steps

abbrev short_request : Request cents code_point_le joined object_text
short_request = request "run-a" "d3" 7

abbrev paid_decision : Decision
paid_decision =
    decision cents code_point_le joined object_text short_request run_a short_pay (some "75.0000")
      (some "USD") system
      (some "Short-paid: withheld 25.0000 USD for accepted overcharge findings.")

abbrev paid_event : AuditEvent
paid_event = record {
  id = "c/run-a/short-pay-decision/";
  entity = "payment_gate_decision";
  entity_id = "d3";
  event = "short_pay_generated";
  actor_kind = system;
  account_id = some "c";
  actor_user_id = none;
  rule_version_id = none;
  rubric_snapshot_id = none;
  detail = "auditRunId:run-a,amountToPay:75.0000,withheldAmount:25.0000,findingIds:f1,";
  recorded_at = 7;
}

abbrev paid_db : Db
paid_db = record fresh { decisions = paid_decision ∷ []; audit = paid_event ∷ [] }

short_pay_runs :
    generate_short_pay_decision cents code_point_le joined object_text short_request true fresh
    ≡ ok (paid_db, outcome "d3" true)
unfolding generate_short_pay_decision find_run find_decision pay_short rows_of
    compose_short_pay_decision one_currency withheld_of total_of record_decision insert_decision
    write_audit_event find_event joined object_text code_point_le cents ◌+ℤ◌ ◌-ℤ◌ print
short_pay_runs = refl

found_short_pay : find_decision "run-a" short_pay paid_db.decisions ≡ some paid_decision
unfolding find_decision
found_short_pay = refl

Reach-no_conflict_example : find_decision "run-a" do_not_pay paid_db.decisions ≢ some refusal
Reach-no_conflict_example =
    Reach-no_conflict cents code_point_le joined object_text {db = fresh} {db' = paid_db} "run-a"
      paid_decision refusal refl
      (next here (short_paid short_request true (outcome "d3" true) short_pay_runs)) found_short_pay

generate_hold_decision-retry_example :
    generate_hold_decision cents code_point_le joined object_text
      (request "run-a" "d9" 8)
      true
      held_db
    ≡ ok (held_db, record { decision_id = some "d1"; created = false })
generate_hold_decision-retry_example =
    generate_hold_decision-retry cents code_point_le joined object_text hold_request
      (request "run-a" "d9" 8) fresh held_db (outcome "d1" true) refl hold_runs

abbrev approval : Decision
approval =
    decision cents code_point_le joined object_text (request "run-a" "d4" 8) run_a approve none none
      analyst none

abbrev approved_event : AuditEvent
approved_event = record {
  id = "c/d4/payment-authorization/";
  entity = "payment_gate_decision";
  entity_id = "d4";
  event = "payment_authorized";
  actor_kind = analyst;
  account_id = some "c";
  actor_user_id = some "ann";
  rule_version_id = none;
  rubric_snapshot_id = none;
  detail = "auditRunId:run-a,action:approve,rationale:null,";
  recorded_at = 8;
}

abbrev approved_db : Db
approved_db = record held_db {
  decisions = approval ∷ held_decision ∷ [];
  audit = approved_event ∷ held_event ∷ [];
}

approval_runs :
    authorize_payment cents code_point_le joined object_text
      (request "run-a" "d4" 8)
      post_approve
      none
      held_db
    ≡ ok (approved_db, outcome "d4" true)
unfolding authorize_payment find_run find_decision record_decision insert_decision write_audit_event
    find_event joined object_text
approval_runs = refl

authorize_payment-retry_example :
    authorize_payment cents code_point_le joined object_text
      (request "run-a" "d7" 9)
      post_approve
      (some "again")
      approved_db
    ≡ ok (approved_db, record { decision_id = some "d4"; created = false })
authorize_payment-retry_example =
    authorize_payment-retry cents code_point_le joined object_text (request "run-a" "d4" 8)
      (request "run-a" "d7" 9) post_approve none (some "again") held_db approved_db
      (outcome "d4" true) refl approval_runs

abbrev late : Request cents code_point_le joined object_text
late = request "run-a" "" 604800005

abbrev escalated_event : AuditEvent
escalated_event = record {
  id = "c/run-a/payment_gate.escalated/";
  entity = "payment_gate_decision";
  entity_id = "run-a";
  event = "payment_gate.escalated";
  actor_kind = system;
  account_id = some "c";
  actor_user_id = none;
  rule_version_id = none;
  rubric_snapshot_id = none;
  detail = "auditRunId:run-a,holdRecordedAt:1970,gracePeriodDays:7,";
  recorded_at = 604800005;
}

abbrev escalated_db : Db
escalated_db = record held_db { audit = escalated_event ∷ held_event ∷ [] }

escalation_runs :
    generate_payment_escalation cents code_point_le joined object_text late 7 "1970" "7" held_db
    ≡ ok (escalated_db, true)
unfolding generate_payment_escalation find_decision write_audit_event find_event joined object_text
escalation_runs = refl

generate_payment_escalation-keeps_hold_example :
    ((h : Decision) × (find_decision "run-a" hold held_db.decisions ≡ some h)
      × (h.recorded_at + 7 * day ≤ 604800005))
    × (find_decision "run-a" approve held_db.decisions ≡ none)
    × (escalated_db.decisions ≡ held_db.decisions)
    × (escalated_db.runs ≡ held_db.runs)
generate_payment_escalation-keeps_hold_example =
    generate_payment_escalation-keeps_hold cents code_point_le joined object_text late 7 "1970" "7"
      held_db escalated_db true escalation_runs

abbrev short_decision : ShortPayDecision cents code_point_le
short_decision = record {
  amount_to_pay = "75.0000";
  withheld_amount = "25.0000";
  currency = "USD";
  finding_ids = "f1" ∷ [];
}

composes :
    compose_short_pay_decision cents code_point_le (charge ∷ []) (excess ∷ []) ≡ ok short_decision
unfolding compose_short_pay_decision one_currency withheld_of total_of code_point_le cents ◌+ℤ◌ ◌-ℤ◌
    print
composes = refl

compose_short_pay_decision_sound_example :
    ((pay : cents.D) × ("75.0000" ≡ cents.to_fixed pay)
      × ("25.0000" ≡ cents.to_fixed (withheld_of cents code_point_le (excess ∷ []) cents.zero))
      × (cents.plus pay (withheld_of cents code_point_le (excess ∷ []) cents.zero)
          ≡ total_of cents code_point_le (charge ∷ []) cents.zero)
      × (cents.lte pay cents.zero ≡ false))
    × All (λ (c : ChargeFactRow cents code_point_le). c.currency ≡ some "USD") (charge ∷ [])
    × All
        (λ (f : AcceptedOverchargeFindingRow cents code_point_le). f.currency ≡ some "USD")
        (excess ∷ [])
compose_short_pay_decision_sound_example =
    compose_short_pay_decision_sound cents code_point_le cents-IsExact (charge ∷ []) (excess ∷ [])
      short_decision composes
