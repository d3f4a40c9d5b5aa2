-- ===== src/Evaluator/Outcome.antt =====
-- Which invoices are scored, and what a scorecard says of the findings.
use freight_auditor.Prelude.{
  String, Bool, true, Option, List, [], ◌∷◌, All, Result, ok, err, ◌≡◌, ◌↔◌, inl, inr, refl, sym,
  ap, ◌∙◌, arith, Result-cases, sort_by-All, All-sort_by, keep-All, All-keep_if,
}
use freight_auditor.Money.{Decimal}
use freight_auditor.RuleEngine.Ast.{FactBundle}
use freight_auditor.Rubric.Standard.{gating, scoring, StandardCriterion, ComposedRubric}
use freight_auditor.Evaluator.Invoice.{ParsedInvoice, ContractFacts}
use freight_auditor.Evaluator.FactBundle.{CoverageMarker, find_coverage_markers, build_fact_bundle}
use freight_auditor.Evaluator.Evaluate.{
  scored, Pins, is_kind, GateFailure, ChargeFinding, AuditResult, Tally, before, ordered_criteria,
  run_gates, run_scores, no_tally, gate_or_score, pins_of, evaluate_invoice,
}
use freight_auditor.Evaluator.Gates.{Passes, clean-Passes, Passes-clean}

module _ (d : Decimal) (fact_key : String → String) (locale_le : String → String → Bool)
    (rubric_content_hash : ComposedRubric d → String) where
  abbrev scores : ComposedRubric d → FactBundle d → Result String (List (ChargeFinding d) × Tally d)
  scores rubric facts =
      run_scores d (ordered_criteria d locale_le rubric scoring) facts (no_tally d)

  -- The stages of an evaluation that gave a result.
  pub record InvoiceRun (inv : ParsedInvoice) (rubric : ComposedRubric d)
      (contract : Option ContractFacts) (r : AuditResult d) : Type 0 where
    pub facts : FactBundle d
    pub failures : List (GateFailure d)
    pub bundled : build_fact_bundle d fact_key locale_le inv contract ≡ ok facts
    pub gated : run_gates d (ordered_criteria d locale_le rubric gating) facts ≡ ok failures
    pub decided :
        gate_or_score d
          (find_coverage_markers inv)
          (pins_of d fact_key locale_le rubric_content_hash inv rubric)
          failures
          (scores rubric facts)
        ≡ ok r

  pub invoice_run :
      (inv : ParsedInvoice) (rubric : ComposedRubric d) (contract : Option ContractFacts)
      (r : AuditResult d)
      → evaluate_invoice d fact_key locale_le rubric_content_hash inv rubric contract ≡ ok r
      → InvoiceRun inv rubric contract r
  unfolding evaluate_invoice
  invoice_run inv rubric contract r h =
      elim (Result-cases (build_fact_bundle d fact_key locale_le inv contract)) [
        | inr (e, n) ↦ absurd (ground arith)
        | inl (facts, b) ↦
            elim (Result-cases (run_gates d (ordered_criteria d locale_le rubric gating) facts)) [
              | inr (e, n) ↦ absurd (ground arith)
              | inl (failures, g) ↦ record {
                facts = facts;
                failures = failures;
                bundled = b;
                gated = g;
                decided = ground arith;
              }
            ]
      ]

  -- A scored invoice had no failures.
  scored-clean :
      (ms : List CoverageMarker) (pins : Pins) (fs : List (GateFailure d))
      (s : Result String (List (ChargeFinding d) × Tally d)) (r : AuditResult d)
      → gate_or_score d ms pins fs s ≡ ok r
      → (r.outcome ≡ scored) ↔ (fs ≡ [])
  unfolding gate_or_score
  scored-clean ms pins (f ∷ fs) s r h = (ground arith, ground arith)
  scored-clean ms pins [] (ok s) r h = (λ e. refl, λ e. ground arith)
  scored-clean ms pins [] (err e) r h = absurd (ground arith)

  abbrev GatePasses : FactBundle d → StandardCriterion d → Type 0
  GatePasses facts c = is_kind c.kind gating ≡ true → Passes d facts c

  gates_iff :
      (rubric : ComposedRubric d) (facts : FactBundle d) (fs : List (GateFailure d))
      → run_gates d (ordered_criteria d locale_le rubric gating) facts ≡ ok fs
      → (fs ≡ []) ↔ All (GatePasses facts) rubric.criteria
  unfolding ordered_criteria
  gates_iff rubric facts fs h = (
    λ e. keep-All (Passes d facts) _ rubric.criteria (
        sort_by-All (Passes d facts) (before d locale_le) _ (clean-Passes d _ facts (h ∙ ap ok e))),
    λ p.
        let clean = Passes-clean d _ facts (
          All-sort_by (Passes d facts) (before d locale_le) _
            (All-keep_if (Passes d facts) _ rubric.criteria p)) in
        let e : ok fs ≡ ok [] = sym h ∙ clean in ground (arith, e),
  )

  -- When the evaluation of an invoice gives a result, its fact bundle was built, and the outcome is
  -- SCORED exactly when every GATING criterion of the rubric, in whatever order the rubric lists them,
  -- evaluates to a pass on that bundle: a gate that fails or cannot be assessed rejects.
  pub evaluate_invoice-gates :
      (inv : ParsedInvoice) (rubric : ComposedRubric d) (contract : Option ContractFacts)
      (r : AuditResult d)
      → evaluate_invoice d fact_key locale_le rubric_content_hash inv rubric contract ≡ ok r
      → (facts : FactBundle d) × (build_fact_bundle d fact_key locale_le inv contract ≡ ok facts)
        × ((r.outcome ≡ scored)
            ↔ All
                (λ (c : StandardCriterion d). is_kind c.kind gating ≡ true → Passes d facts c)
                rubric.criteria)
  evaluate_invoice-gates inv rubric contract r h =
      let run = invoice_run inv rubric contract r h in
      let (to, from) = scored-clean _ _ run.failures _ r run.decided in
      let (in_, out) = gates_iff rubric run.facts run.failures run.gated in
      (run.facts, run.bundled, (λ e. in_ (to e), λ p. from (out p)))
