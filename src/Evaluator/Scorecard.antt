-- ===== src/Evaluator/Scorecard.antt =====
-- What the scorecard says of the findings: its counts and its totals.
use freight_auditor.Prelude.{
  ℕ, suc, ◌+◌, String, Bool, true, false, Option, none, some, List, [], ◌∷◌, if◌then◌else◌, length,
  Result, ok, err, ◌≡◌, ◌≢◌, ◌⊎◌, ◌↔◌, keep, inl, inr, refl, arith, Result-cases,
}
use freight_auditor.Money.{Decimal}
use freight_auditor.RuleEngine.Ast.{FactBundle}
use freight_auditor.RuleEngine.Interpreter.{
  EvalNode, Verdict, pass, fail, cannot_assess, evaluate, verdict,
}
use freight_auditor.Rubric.Standard.{StandardCriterion, ComposedRubric}
use freight_auditor.Evaluator.Invoice.{ParsedInvoice, ContractFacts}
use freight_auditor.Evaluator.FactBundle.{CoverageMarker, build_fact_bundle}
use freight_auditor.Evaluator.Evaluate.{
  rejected_rework, scored, FindingResult, conformed, variance, not_assessable, Scorecard, Pins,
  result_of_verdict, GateFailure, ChargeFinding, AuditResult, Tally, money_variance_delta,
  charge_finding, tallied, run_scores, no_tally, scorecard_of, rejection, scoring_result,
  gate_or_score, evaluate_invoice,
}
use freight_auditor.Evaluator.Outcome.{invoice_run}
use freight_auditor.Evaluator.Order.{Rising, of_kind_scoring, ordered_criteria-Rising}

abbrev is_result : FindingResult → FindingResult → Bool
is_result conformed conformed = true
is_result variance variance = true
is_result not_assessable not_assessable = true
is_result _ _ = false

module _ (d : Decimal) where
  -- The findings with a result.
  unfoldable pub counted : FindingResult → List (ChargeFinding d) → ℕ
  counted r [] = 0
  counted r (f ∷ fs) = if is_result f.result r then suc (counted r fs) else counted r fs

  pub record ScoreStep (c : StandardCriterion d) (cs : List (StandardCriterion d))
      (facts : FactBundle d) (t : Tally d) (fs : List (ChargeFinding d)) (last : Tally d)
      : Type 0 where
    pub ev : EvalNode d
    pub delta : Option (d.D × String)
    pub rest : List (ChargeFinding d)
    pub evaluated : evaluate d c.ast facts ≡ ok ev
    pub measured : money_variance_delta d ev ≡ ok delta
    pub others :
        run_scores d cs facts (tallied d (result_of_verdict (verdict d ev)) delta t)
        ≡ ok (rest, last)
    pub findings : fs ≡ charge_finding d c ev (result_of_verdict (verdict d ev)) delta ∷ rest

  pub score_step :
      (c : StandardCriterion d) (cs : List (StandardCriterion d)) (facts : FactBundle d)
      (t : Tally d) (fs : List (ChargeFinding d)) (last : Tally d)
      → run_scores d (c ∷ cs) facts t ≡ ok (fs, last)
      → ScoreStep c cs facts t fs last
  unfolding run_scores
  score_step c cs facts t fs last h = elim (Result-cases (evaluate d c.ast facts)) [
    | inr (e, n) ↦ absurd (ground arith)
    | inl (ev, e) ↦ elim (Result-cases (money_variance_delta d ev)) [
      | inr (x, n) ↦ absurd (ground arith)
      | inl (delta, m) ↦
          let next = tallied d (result_of_verdict (verdict d ev)) delta t in
          elim (Result-cases (run_scores d cs facts next)) [
            | inr (x, n) ↦ absurd (ground arith)
            | inl ((rest, end), n) ↦ record {
              ev = ev;
              delta = delta;
              rest = rest;
              evaluated = e;
              measured = m;
              others = ground arith;
              findings = ground arith;
            }
          ]
    ]
  ]

  abbrev Counts : Tally d → List (ChargeFinding d) → Tally d → Type 0
  Counts t fs last =
      (last.conformed_count ≡ t.conformed_count + counted conformed fs)
      × (last.variance_count ≡ t.variance_count + counted variance fs)
      × (last.unassessable_count ≡ t.unassessable_count + counted not_assessable fs)

  Counts-step :
      (c : StandardCriterion d) (ev : EvalNode d) (r : FindingResult)
      (delta : Option (d.D × String)) (t : Tally d) (rest : List (ChargeFinding d)) (last : Tally d)
      → Counts (tallied d r delta t) rest last
      → Counts t (charge_finding d c ev r delta ∷ rest) last
  unfolding tallied charge_finding counted
  Counts-step c ev conformed delta t rest last h = ground (arith, h)
  Counts-step c ev not_assessable delta t rest last h = ground (arith, h)
  Counts-step c ev variance none t rest last h = ground (arith, h)
  Counts-step c ev variance (some (x, k)) t rest last h = ground (arith, h)

  -- The finding of a criterion on the facts: its key, its evaluated tree and the result that the verdict
  -- stands for.
  unfoldable pub Scored : FactBundle d → StandardCriterion d → ChargeFinding d → Type 0
  Scored facts c f =
      (f.criterion_key ≡ c.criterion_key)
      × (evaluate d c.ast facts ≡ ok f.evaluated_expr)
      × ((f.result ≡ conformed) ↔ (verdict d f.evaluated_expr ≡ pass))
      × ((f.result ≡ variance) ↔ (verdict d f.evaluated_expr ≡ fail))
      × ((f.result ≡ not_assessable) ↔ (verdict d f.evaluated_expr ≡ cannot_assess))

  -- One finding for each criterion, in the same order.
  unfoldable pub ScoredAll :
      FactBundle d → List (StandardCriterion d) → List (ChargeFinding d) → Type 0
  ScoredAll facts [] [] = Unit
  ScoredAll facts (c ∷ cs) (f ∷ fs) = Scored facts c f × ScoredAll facts cs fs
  ScoredAll facts _ _ = ⊥

  abbrev ByVerdict : FindingResult → Verdict → Type 0
  ByVerdict r v =
      ((r ≡ conformed) ↔ (v ≡ pass))
      × ((r ≡ variance) ↔ (v ≡ fail))
      × ((r ≡ not_assessable) ↔ (v ≡ cannot_assess))

  verdict-ByVerdict : (v : Verdict) → ByVerdict (result_of_verdict v) v
  unfolding result_of_verdict
  verdict-ByVerdict pass = ground arith
  verdict-ByVerdict fail = ground arith
  verdict-ByVerdict cannot_assess = ground arith

  charge_finding-Scored :
      (facts : FactBundle d) (c : StandardCriterion d) (ev : EvalNode d) (r : FindingResult)
      (delta : Option (d.D × String))
      → evaluate d c.ast facts ≡ ok ev
      → ByVerdict r (verdict d ev)
      → Scored facts c (charge_finding d c ev r delta)
  unfolding charge_finding Scored
  charge_finding-Scored facts c ev conformed delta e h = (refl, e, h.0, h.1, h.2)
  charge_finding-Scored facts c ev not_assessable delta e h = (refl, e, h.0, h.1, h.2)
  charge_finding-Scored facts c ev variance none e h = (refl, e, h.0, h.1, h.2)
  charge_finding-Scored facts c ev variance (some (x, k)) e h = (refl, e, h.0, h.1, h.2)

  run_scores-Counts :
      (cs : List (StandardCriterion d)) (facts : FactBundle d) (t : Tally d)
      (fs : List (ChargeFinding d)) (last : Tally d)
      → run_scores d cs facts t ≡ ok (fs, last)
      → Counts t fs last × ScoredAll facts cs fs
  unfolding run_scores counted ScoredAll
  run_scores-Counts [] facts t fs last h =
      let none_left : fs ≡ [] = ground arith in
      let same : t ≡ last = ground arith in
      rw (none_left, ← same) ((omega arith, omega arith, omega arith), tt)
  run_scores-Counts (c ∷ cs) facts t fs last h =
      let s = score_step c cs facts t fs last h in
      let (n, l) = run_scores-Counts cs facts _ s.rest last s.others in
      let step = Counts-step c s.ev _ s.delta t s.rest last n in
      rw (s.findings) (
        step,
        (
          charge_finding-Scored facts c s.ev _ s.delta s.evaluated
              (verdict-ByVerdict (verdict d s.ev)),
          l,
        ),
      )

module _ (d : Decimal) (fact_key : String → String) (locale_le : String → String → Bool)
    (rubric_content_hash : ComposedRubric d → String) where
  -- The two shapes of a result that gate_or_score gives.
  pub decided-cases :
      (ms : List CoverageMarker) (pins : Pins) (fs : List (GateFailure d))
      (s : Result String (List (ChargeFinding d) × Tally d)) (r : AuditResult d)
      → gate_or_score d ms pins fs s ≡ ok r
      → ((fs ≢ []) × (r ≡ rejection d ms pins fs))
        ⊎ ((x : List (ChargeFinding d) × Tally d) × (s ≡ ok x) × (r ≡ scoring_result d ms pins x))
  unfolding gate_or_score
  decided-cases ms pins (f ∷ fs) s r h = inl (ground arith, ground arith)
  decided-cases ms pins [] (ok x) r h = inr (x, refl, ground arith)
  decided-cases ms pins [] (err e) r h = absurd (ground arith)

  from_zero : (n m : ℕ) → n ≡ 0 + m → n ≡ m
  from_zero n m h = omega (arith, h)

  -- The counts of a scored result.
  unfoldable pub Sums : AuditResult d → Scorecard → Type 0
  Sums r sc =
      (sc.conformed_count ≡ counted d conformed r.findings)
      × (sc.variance_count ≡ counted d variance r.findings)
      × (sc.unassessable_count ≡ counted d not_assessable r.findings)

  -- The findings are those of the rubric's SCORING criteria, each of them as often as the rubric has it,
  -- by rising `evalOrder`.
  unfoldable pub ScoresRubric : FactBundle d → ComposedRubric d → List (ChargeFinding d) → Type 0
  ScoresRubric facts rubric fs =
      (cs : List (StandardCriterion d)) × Rising d cs
      × ((p : StandardCriterion d → Bool)
          → length (keep p cs) ≡ length (keep p (of_kind_scoring d rubric.criteria)))
      × ScoredAll d facts cs fs

  -- A rejected invoice has a gate failure, no finding and no scorecard. A scored one has no gate
  -- failure. Its findings are one for each SCORING criterion of the rubric, by rising `evalOrder`, each
  -- with the criterion's key, the criterion's tree as evaluated on the invoice's facts, and the result
  -- CONFORMED, VARIANCE or NOT_ASSESSABLE as the verdict is pass, fail or cannot-assess. The three counts
  -- of its scorecard are the numbers of the findings with that result.
  pub evaluate_invoice-scorecard :
      (inv : ParsedInvoice) (rubric : ComposedRubric d) (contract : Option ContractFacts)
      (r : AuditResult d)
      → evaluate_invoice d fact_key locale_le rubric_content_hash inv rubric contract ≡ ok r
      → ((r.outcome ≡ rejected_rework)
          × (r.gate_failures ≢ [])
          × (r.findings ≡ [])
          × (r.scorecard ≡ none))
        ⊎ ((r.outcome ≡ scored)
            × (r.gate_failures ≡ [])
            × ((facts : FactBundle d) × (build_fact_bundle d fact_key locale_le inv contract
                  ≡ ok facts)
                × ScoresRubric facts rubric r.findings)
            × ((sc : Scorecard) × (r.scorecard ≡ some sc) × Sums r sc))
  unfolding Sums ScoresRubric scorecard_of
  evaluate_invoice-scorecard inv rubric contract r h =
      let run = invoice_run d fact_key locale_le rubric_content_hash inv rubric contract r h in
      elim (decided-cases _ _ run.failures _ r run.decided) [
        | inl (n, e) ↦ inl (ground arith, rw (e) n, ground arith, ground arith)
        | inr (x, s, e) ↦
            let (n, l) = run_scores-Counts d _ run.facts (no_tally d) x.0 x.1 s in
            let (rising, same) = ordered_criteria-Rising d locale_le rubric in
            inr (
              rw (e) (
                refl,
                refl,
                (run.facts, run.bundled, (_, rising, same, l)),
                (
                  scorecard_of d x.1,
                  refl,
                  (from_zero _ _ n.0, from_zero _ _ n.1, from_zero _ _ n.2),
                ),
              ))
      ]
