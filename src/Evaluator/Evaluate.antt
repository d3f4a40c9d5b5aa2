-- ===== src/Evaluator/Evaluate.antt =====
-- The gate and score evaluator (evaluator/evaluate-invoice.ts). `rubricContentHash` is SHA-256 of a
-- serialization, by node:crypto: a parameter. An exception of decimal.js is the error of the result.
use freight_auditor.Prelude.{
  ℕ, suc, String, Bool, true, false, ◌&&◌, ◌||◌, Option, none, some, List, [], ◌∷◌, ◌++◌,
  if◌then◌else◌, keep, ltb, nat_eq, sort_by, Result, ok, ◌>>=◌, need,
}
use Prim.Native.String
use freight_auditor.Money.{Decimal}
use freight_auditor.RuleEngine.Ast.{require, compare_node, FactBundle}
use freight_auditor.RuleEngine.Interpreter.{
  EvalValue, money_value, Verdict, pass, fail, cannot_assess, EvalNode, branch, child, value_of,
  evaluate, verdict,
}
use freight_auditor.Rubric.Standard.{
  CriterionKind, gating, scoring, StandardCriterion, ComposedRubric, engine_spec_version,
}
use freight_auditor.Evaluator.Invoice.{ParsedInvoice, ContractFacts}
use freight_auditor.Evaluator.FactBundle.{CoverageMarker, find_coverage_markers, build_fact_bundle}

pub data Outcome : Type 0 where
  rejected_rework scored : Outcome

pub data FindingResult : Type 0 where
  conformed variance not_assessable : FindingResult

pub data Direction : Type 0 where
  overcharge undercharge integrity_only : Direction

pub record Scorecard : Type 0 where
  pub conformed_count : ℕ
  pub variance_count : ℕ
  pub unassessable_count : ℕ
  pub total_overcharge : String
  pub total_undercharge : String

pub record Pins : Type 0 where
  pub parser_version : String
  pub engine_version : String
  pub rubric_hash : String

unfoldable pub result_of_verdict : Verdict → FindingResult
result_of_verdict pass = conformed
result_of_verdict fail = variance
result_of_verdict cannot_assess = not_assessable

abbrev pub is_kind : CriterionKind → CriterionKind → Bool
is_kind gating gating = true
is_kind scoring scoring = true
is_kind _ _ = false

module _ (d : Decimal) where
  pub record GateFailure : Type 0 where
    pub criterion_key : String
    pub defect : String
    pub citation : Option String
    pub evaluated_expr : EvalNode d

  pub record ChargeFinding : Type 0 where
    pub criterion_key : String
    pub result : FindingResult
    pub evaluated_expr : EvalNode d
    pub variance_amount : Option String
    pub currency : Option String
    pub direction : Direction

  pub record AuditResult : Type 0 where
    pub outcome : Outcome
    pub gate_failures : List GateFailure
    pub findings : List ChargeFinding
    pub scorecard : Option Scorecard
    pub coverage_markers : List CoverageMarker
    pub pins : Pins

  -- The counters and totals of the score loop.
  pub record Tally : Type 0 where
    pub conformed_count : ℕ
    pub variance_count : ℕ
    pub unassessable_count : ℕ
    pub total_overcharge : d.D
    pub total_undercharge : d.D

  -- The node under the `require` wrappers.
  unfoldable pub unwrapped : EvalNode d → EvalNode d
  unwrapped (branch (require key inner) v (child c cs)) = unwrapped c
  unwrapped ev = ev

  abbrev pub delta_of_values : EvalValue → EvalValue → Result String (Option (d.D × String))
  delta_of_values (money_value a c) (money_value b e) =
      need (d.new_decimal a) a >>= λ x. need (d.new_decimal b) b >>= λ y. ok (some (d.minus x y, c))
  delta_of_values _ _ = ok none

  abbrev pub delta_of_compare : EvalNode d → Result String (Option (d.D × String))
  delta_of_compare (branch (compare_node op l r t) v (child a (child b cs))) =
      delta_of_values (value_of d a) (value_of d b)
  delta_of_compare _ = ok none

  unfoldable pub money_variance_delta : EvalNode d → Result String (Option (d.D × String))
  money_variance_delta ev = delta_of_compare (unwrapped ev)

  module _ (locale_le : String → String → Bool) where
    abbrev pub before : StandardCriterion d → StandardCriterion d → Bool
    before a b =
        ltb a.eval_order b.eval_order
        || nat_eq a.eval_order b.eval_order && locale_le a.criterion_key b.criterion_key

    unfoldable pub ordered_criteria : ComposedRubric d → CriterionKind → List (StandardCriterion d)
    ordered_criteria rubric kind =
        sort_by before (keep (λ (c : StandardCriterion d). is_kind c.kind kind) rubric.criteria)

  abbrev failure : StandardCriterion d → EvalNode d → String → GateFailure
  failure c ev defect = record {
    criterion_key = c.criterion_key;
    defect = defect;
    citation = c.citation;
    evaluated_expr = ev;
  }

  -- What a gate adds to the failures.
  unfoldable pub gate_failure : StandardCriterion d → EvalNode d → Verdict → List GateFailure
  gate_failure c ev pass = []
  gate_failure c ev fail = failure c ev c.description ∷ []
  gate_failure c ev cannot_assess = failure c ev (String.◌++◌ c.description " (unassessable)") ∷ []

  -- The GATE phase: all of the failures, not the first.
  unfoldable pub run_gates :
      List (StandardCriterion d) → FactBundle d → Result String (List GateFailure)
  run_gates [] facts = ok []
  run_gates (c ∷ cs) facts = evaluate d c.ast facts >>= λ ev.
      run_gates cs facts >>= λ fs. ok (gate_failure c ev (verdict d ev) ++ fs)

  abbrev direction_of : d.D → Direction
  direction_of delta = if d.is_negative delta then undercharge else overcharge

  abbrev finding :
      StandardCriterion d
      → FindingResult
      → EvalNode d
      → Option String
      → Option String
      → Direction
      → ChargeFinding
  finding c result ev amount currency direction = record {
    criterion_key = c.criterion_key;
    result = result;
    evaluated_expr = ev;
    variance_amount = amount;
    currency = currency;
    direction = direction;
  }

  unfoldable pub charge_finding :
      StandardCriterion d → EvalNode d → FindingResult → Option (d.D × String) → ChargeFinding
  charge_finding c ev variance (some (delta, currency)) =
      finding c variance ev (some (d.to_fixed delta)) (some currency) (direction_of delta)
  charge_finding c ev result _ = finding c result ev none none integrity_only

  abbrev add_delta : d.D → Tally → Tally
  add_delta delta t =
      if d.is_positive delta
      then record t { total_overcharge = d.plus t.total_overcharge delta }
      else record t { total_undercharge = d.plus t.total_undercharge (d.abs delta) }

  unfoldable pub tallied : FindingResult → Option (d.D × String) → Tally → Tally
  tallied conformed delta t = record t { conformed_count = suc t.conformed_count }
  tallied not_assessable delta t = record t { unassessable_count = suc t.unassessable_count }
  tallied variance none t = record t { variance_count = suc t.variance_count }
  tallied variance (some (delta, c)) t =
      add_delta delta (record t { variance_count = suc t.variance_count })

  -- The SCORE phase.
  unfoldable pub run_scores :
      List (StandardCriterion d) → FactBundle d → Tally → Result String (List ChargeFinding × Tally)
  run_scores [] facts t = ok ([], t)
  run_scores (c ∷ cs) facts t = evaluate d c.ast facts >>= λ ev.
      money_variance_delta ev >>= λ delta.
      run_scores cs facts (tallied (result_of_verdict (verdict d ev)) delta t) >>= λ rest.
      ok (charge_finding c ev (result_of_verdict (verdict d ev)) delta ∷ rest.0, rest.1)

  abbrev pub no_tally : Tally
  no_tally = record {
    conformed_count = 0;
    variance_count = 0;
    unassessable_count = 0;
    total_overcharge = d.zero;
    total_undercharge = d.zero;
  }

  unfoldable pub scorecard_of : Tally → Scorecard
  scorecard_of t = record {
    conformed_count = t.conformed_count;
    variance_count = t.variance_count;
    unassessable_count = t.unassessable_count;
    total_overcharge = d.to_fixed t.total_overcharge;
    total_undercharge = d.to_fixed t.total_undercharge;
  }

  abbrev pub rejection : List CoverageMarker → Pins → List GateFailure → AuditResult
  rejection markers pins failures = record {
    outcome = rejected_rework;
    gate_failures = failures;
    findings = [];
    scorecard = none;
    coverage_markers = markers;
    pins = pins;
  }

  abbrev pub scoring_result : List CoverageMarker → Pins → List ChargeFinding × Tally → AuditResult
  scoring_result markers pins (findings, t) = record {
    outcome = scored;
    gate_failures = [];
    findings = findings;
    scorecard = some (scorecard_of t);
    coverage_markers = markers;
    pins = pins;
  }

  -- Rejection with the failures, or the scores where there are none.
  unfoldable pub gate_or_score :
      List CoverageMarker
      → Pins
      → List GateFailure
      → Result String (List ChargeFinding × Tally)
      → Result String AuditResult
  gate_or_score markers pins (f ∷ fs) scores = ok (rejection markers pins (f ∷ fs))
  gate_or_score markers pins [] scores = scores >>= λ s. ok (scoring_result markers pins s)

  module _ (fact_key : String → String) (locale_le : String → String → Bool)
      (rubric_content_hash : ComposedRubric d → String) where
    abbrev pub pins_of : ParsedInvoice → ComposedRubric d → Pins
    pins_of inv rubric = record {
      parser_version = inv.parser_version;
      engine_version = engine_spec_version;
      rubric_hash = rubric_content_hash rubric;
    }

    unfoldable pub evaluate_invoice :
        ParsedInvoice → ComposedRubric d → Option ContractFacts → Result String AuditResult
    evaluate_invoice inv rubric contract =
        build_fact_bundle d fact_key locale_le inv contract >>= λ facts.
        run_gates (ordered_criteria locale_le rubric gating) facts >>= λ failures.
        gate_or_score (find_coverage_markers inv) (pins_of inv rubric) failures
          (run_scores (ordered_criteria locale_le rubric scoring) facts no_tally)
