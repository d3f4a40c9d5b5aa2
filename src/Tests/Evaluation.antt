-- ===== src/Tests/Evaluation.antt =====
-- An invoice of one charge, under the STANDARD rubric and under a contract.
use freight_auditor.Prelude.{
  String, true, false, none, some, [], ◌∷◌, All, Result, ok, err, ◌≡◌, ◌≢◌, ◌↔◌, ◌⊎◌, refl,
  is_blank, stated,
}
use freight_auditor.Prelude.Int.{◌+ℤ◌, ◌-ℤ◌}
use freight_auditor.Cents.Text.{
  digit, is_digit, print_digits, print_fraction, read_fraction, read_digits, print_body, print,
  read_negative, read,
}
use freight_auditor.Cents.{magnitude, cents, cents-IsExact}
use freight_auditor.Tests.Inputs.{code_point_le, external_key}
use freight_auditor.RuleEngine.Ast.{fact, FactBundle, fact_of, if_present, present_fact}
use freight_auditor.RuleEngine.Interpreter.{
  unassessable, is_unassessable, fail, value_scalar, same_scalar, EvalNode, leaf, value_of,
  safe_decimal, safe_decimal_of_number, lit_value, fact_value, to_decimal, compare_scalars,
  compare_decimals, compare_parsed, compare_values, evaluate, verdict,
}
use freight_auditor.RuleEngine.Totality.{is_some}
use freight_auditor.Rubric.Standard.{
  gating, StandardCriterion, ComposedRubric, standard_gates, standard_scores, standard_rubric,
  rate_variance_criterion,
}
use freight_auditor.Evaluator.Invoice.{
  NormalizedCharge, pdf, ParsedInvoice, ContractRate, rate_of, ContractFacts,
}
use freight_auditor.Evaluator.FactBundle.{
  rate_basis_marker, identity_marker, markers_from, find_coverage_markers, linehaul_charges,
  billed_currency, rate_currency, currencies_stated_and_equal, triples,
  rate_basis_arithmetic_matches, base_facts, sum_amounts, billed_linehaul, contract_linehaul_rate,
  linehaul_facts, build_fact_bundle,
}
use freight_auditor.Evaluator.Evaluate.{
  rejected_rework, scored, Scorecard, result_of_verdict, is_kind, AuditResult, unwrapped,
  money_variance_delta, ordered_criteria, gate_failure, run_gates, charge_finding, tallied,
  run_scores, scorecard_of, rejection, gate_or_score, evaluate_invoice,
}
use freight_auditor.Evaluator.Gates.{Passes}
use freight_auditor.Evaluator.Outcome.{evaluate_invoice-gates}
use freight_auditor.Evaluator.Scorecard.{ScoresRubric, Sums, evaluate_invoice-scorecard}
use freight_auditor.Evaluator.Totals.{overcharges, undercharges, evaluate_invoice-totals}
use freight_auditor.Evaluator.RateVariance.{rate_variance-one_currency}
use freight_auditor.Evaluator.Certified.{Certified, standard_audit-certifies}

abbrev linehaul : NormalizedCharge
linehaul = record {
  code = some "400";
  x12_element = none;
  category = some "LINEHAUL";
  quarantined = false;
  amount = some "120.0000";
  currency = "USD";
  basis = none;
  rate = none;
  raw_description = none;
  source_loop = none;
}

abbrev invoice : ParsedInvoice
invoice = record {
  transaction_set = pdf;
  parser_version = "v1";
  invoice_number = some "1";
  shipment_references = [];
  carrier_code = none;
  container_numbers = [];
  vessel_voyage = none;
  port_codes = [];
  header_currency = some "USD";
  charges = linehaul ∷ [];
  footing = some (record { declared_total = some "120.01"; line_sum = "120.0000" });
  quarantined_codes = [];
}

abbrev rate : ContractRate
rate = record { amount = "100.0000"; currency = "USD"; clause_id = none }

abbrev contract : ContractFacts
contract = record {
  linehaul_rate = rate_of rate;
  duplicate_invoice = some false;
  shipment_reference_match = none;
  external_resolutions = [];
}

abbrev hash : ComposedRubric cents → String
hash r = r.resolver_version

abbrev none_yet : AuditResult cents
none_yet =
    rejection cents [] (record { parser_version = ""; engine_version = ""; rubric_hash = "" }) []

abbrev or_none : Result String (AuditResult cents) → AuditResult cents
or_none (ok r) = r
or_none (err e) = none_yet

unfoldable standard_value : AuditResult cents
standard_value =
    or_none
      (evaluate_invoice cents external_key code_point_le hash invoice (standard_rubric cents) none)

standard_runs :
    evaluate_invoice cents external_key code_point_le hash invoice (standard_rubric cents) none
    ≡ ok standard_value
unfolding standard_value evaluate_invoice build_fact_bundle rate_basis_arithmetic_matches triples
    cents read linehaul_facts run_gates ordered_criteria standard_rubric standard_gates
    standard_scores evaluate present_fact if_present fact_of base_facts compare_values
    is_unassessable digit is_digit print print_body print_digits print_fraction read_digits
    read_fraction read_negative magnitude charge_finding gate_failure gate_or_score
    money_variance_delta result_of_verdict run_scores scorecard_of tallied unwrapped
    find_coverage_markers identity_marker markers_from rate_basis_marker ◌+ℤ◌ ◌-ℤ◌ is_blank stated
    compare_decimals compare_parsed compare_scalars fact_value lit_value safe_decimal
    safe_decimal_of_number same_scalar to_decimal value_of value_scalar verdict code_point_le
    external_key
standard_runs = refl

standard_scored : standard_value.outcome ≡ scored
unfolding standard_value evaluate_invoice build_fact_bundle rate_basis_arithmetic_matches triples
    cents read linehaul_facts run_gates ordered_criteria standard_rubric standard_gates
    standard_scores evaluate present_fact if_present fact_of base_facts compare_values
    is_unassessable digit is_digit print print_body print_digits print_fraction read_digits
    read_fraction read_negative magnitude charge_finding gate_failure gate_or_score
    money_variance_delta result_of_verdict run_scores scorecard_of tallied unwrapped
    find_coverage_markers identity_marker markers_from rate_basis_marker ◌+ℤ◌ ◌-ℤ◌ is_blank stated
    compare_decimals compare_parsed compare_scalars fact_value lit_value safe_decimal
    safe_decimal_of_number same_scalar to_decimal value_of value_scalar verdict code_point_le
    external_key
standard_scored = refl

evaluate_invoice-gates_example :
    (facts : FactBundle cents) × (build_fact_bundle cents external_key code_point_le invoice none
      ≡ ok facts)
    × ((standard_value.outcome ≡ scored)
        ↔ All
            (λ (c : StandardCriterion cents). is_kind c.kind gating ≡ true → Passes cents facts c)
            (standard_rubric cents).criteria)
evaluate_invoice-gates_example =
    evaluate_invoice-gates cents external_key code_point_le hash invoice (standard_rubric cents)
      none standard_value standard_runs

evaluate_invoice-scorecard_example :
    ((standard_value.outcome ≡ rejected_rework)
      × (standard_value.gate_failures ≢ [])
      × (standard_value.findings ≡ [])
      × (standard_value.scorecard ≡ none))
    ⊎ ((standard_value.outcome ≡ scored)
        × (standard_value.gate_failures ≡ [])
        × ((facts : FactBundle cents) × (build_fact_bundle cents external_key code_point_le invoice
                none
              ≡ ok facts)
            × ScoresRubric cents external_key code_point_le hash facts
                (standard_rubric cents)
                standard_value.findings)
        × ((sc : Scorecard) × (standard_value.scorecard ≡ some sc)
            × Sums cents external_key code_point_le hash standard_value sc))
evaluate_invoice-scorecard_example =
    evaluate_invoice-scorecard cents external_key code_point_le hash invoice (standard_rubric cents)
      none standard_value standard_runs

evaluate_invoice-totals_example :
    (sc : Scorecard) × (standard_value.scorecard ≡ some sc)
    × (sc.total_overcharge ≡ cents.to_fixed (overcharges cents standard_value.findings))
    × (sc.total_undercharge ≡ cents.to_fixed (undercharges cents standard_value.findings))
evaluate_invoice-totals_example =
    evaluate_invoice-totals cents external_key code_point_le hash cents-IsExact invoice
      (standard_rubric cents) none standard_value standard_runs standard_scored

standard_audit-certifies_example : Certified cents external_key code_point_le invoice
standard_audit-certifies_example =
    standard_audit-certifies cents external_key code_point_le hash cents-IsExact invoice
      standard_value standard_runs standard_scored

abbrev or_no_facts : Result String (FactBundle cents) → FactBundle cents
or_no_facts (ok f) = f
or_no_facts (err e) = []

unfoldable contract_facts : FactBundle cents
contract_facts =
    or_no_facts (build_fact_bundle cents external_key code_point_le invoice (some contract))

contract_facts_built :
    build_fact_bundle cents external_key code_point_le invoice (some contract) ≡ ok contract_facts
unfolding contract_facts build_fact_bundle rate_basis_arithmetic_matches triples cents read
    linehaul_facts billed_linehaul billed_currency linehaul_charges sum_amounts
contract_facts_built = refl

abbrev or_leaf : Result String (EvalNode cents) → EvalNode cents
or_leaf (ok ev) = ev
or_leaf (err e) = leaf (fact "") (unassessable "")

unfoldable rate_tree : EvalNode cents
rate_tree = or_leaf (evaluate cents (rate_variance_criterion cents).ast contract_facts)

rate_tree_evaluated :
    evaluate cents (rate_variance_criterion cents).ast contract_facts ≡ ok rate_tree
unfolding rate_tree contract_facts rate_variance_criterion billed_linehaul billed_currency
    linehaul_charges sum_amounts contract_linehaul_rate rate_currency currencies_stated_and_equal
    evaluate_invoice build_fact_bundle rate_basis_arithmetic_matches triples cents read
    linehaul_facts run_gates ordered_criteria standard_rubric standard_gates standard_scores
    evaluate present_fact if_present fact_of base_facts compare_values is_unassessable digit
    is_digit print print_body print_digits print_fraction read_digits read_fraction read_negative
    magnitude charge_finding gate_failure gate_or_score money_variance_delta result_of_verdict
    run_scores scorecard_of tallied unwrapped find_coverage_markers identity_marker markers_from
    rate_basis_marker ◌+ℤ◌ ◌-ℤ◌ is_blank stated compare_decimals compare_parsed compare_scalars
    fact_value lit_value safe_decimal safe_decimal_of_number same_scalar to_decimal value_of
    value_scalar verdict code_point_le external_key
rate_tree_evaluated = refl

rate_tree_fails : verdict cents rate_tree ≡ fail
unfolding rate_tree contract_facts rate_variance_criterion billed_linehaul billed_currency
    linehaul_charges sum_amounts contract_linehaul_rate rate_currency currencies_stated_and_equal
    evaluate_invoice build_fact_bundle rate_basis_arithmetic_matches triples cents read
    linehaul_facts run_gates ordered_criteria standard_rubric standard_gates standard_scores
    evaluate present_fact if_present fact_of base_facts compare_values is_unassessable digit
    is_digit print print_body print_digits print_fraction read_digits read_fraction read_negative
    magnitude charge_finding gate_failure gate_or_score money_variance_delta result_of_verdict
    run_scores scorecard_of tallied unwrapped find_coverage_markers identity_marker markers_from
    rate_basis_marker ◌+ℤ◌ ◌-ℤ◌ is_blank stated compare_decimals compare_parsed compare_scalars
    fact_value lit_value safe_decimal safe_decimal_of_number same_scalar to_decimal value_of
    value_scalar verdict code_point_le external_key
rate_tree_fails = refl

cent_reads : is_some (cents.new_decimal "0.01") ≡ true
unfolding cents read
cent_reads = refl

rate_variance-one_currency_example :
    (linehaul_charges invoice ≢ [])
    × (rate.currency ≢ "")
    × All (λ (x : NormalizedCharge). x.currency ≡ "USD") (linehaul_charges invoice)
rate_variance-one_currency_example =
    rate_variance-one_currency cents external_key code_point_le cents-IsExact invoice contract rate
      contract_facts rate_tree cent_reads refl contract_facts_built rate_tree_evaluated
      (λ e. cc (rate_tree_fails, e))
