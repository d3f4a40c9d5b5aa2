-- ===== src/Evaluator/Gates.antt =====
-- The gate phase decides the outcome, and the scorecard counts the findings.
use freight_auditor.Prelude.{
  List, [], ◌∷◌, ◌++◌, All, ok, ◌≡◌, inl, inr, refl, sym, ap, ◌∙◌, arith, Result-cases,
}
use freight_auditor.Money.{Decimal}
use freight_auditor.RuleEngine.Ast.{FactBundle}
use freight_auditor.RuleEngine.Interpreter.{
  Verdict, pass, fail, cannot_assess, EvalNode, evaluate, verdict,
}
use freight_auditor.Rubric.Standard.{StandardCriterion}
use freight_auditor.Evaluator.Evaluate.{GateFailure, gate_failure, run_gates}

module _ (d : Decimal) where
  -- The criterion evaluates to a pass.
  unfoldable pub Passes : FactBundle d → StandardCriterion d → Type 0
  Passes facts c = (ev : EvalNode d) × (evaluate d c.ast facts ≡ ok ev) × (verdict d ev ≡ pass)

  gate_failure-pass :
      (c : StandardCriterion d) (ev : EvalNode d) (v : Verdict) (fs : List (GateFailure d))
      → gate_failure d c ev v ++ fs ≡ []
      → (v ≡ pass) × (fs ≡ [])
  unfolding gate_failure
  gate_failure-pass c ev pass fs h = (refl, h)
  gate_failure-pass c ev fail fs h = absurd (ground arith)
  gate_failure-pass c ev cannot_assess fs h = absurd (ground arith)

  -- One step of the gate loop that gave a result.
  record GateStep (c : StandardCriterion d) (cs : List (StandardCriterion d)) (facts : FactBundle d)
      (fs : List (GateFailure d)) : Type 0 where
    ev : EvalNode d
    rest : List (GateFailure d)
    evaluated : evaluate d c.ast facts ≡ ok ev
    others : run_gates d cs facts ≡ ok rest
    result : fs ≡ gate_failure d c ev (verdict d ev) ++ rest

  gate_step :
      (c : StandardCriterion d) (cs : List (StandardCriterion d)) (facts : FactBundle d)
      (fs : List (GateFailure d))
      → run_gates d (c ∷ cs) facts ≡ ok fs
      → GateStep c cs facts fs
  unfolding run_gates
  gate_step c cs facts fs h = elim (Result-cases (evaluate d c.ast facts)) [
    | inr (e, n) ↦ absurd (ground arith)
    | inl (ev, e) ↦ elim (Result-cases (run_gates d cs facts)) [
      | inr (x, n) ↦ absurd (ground arith)
      | inl (rest, r) ↦ record {
        ev = ev;
        rest = rest;
        evaluated = e;
        others = r;
        result = ground arith;
      }
    ]
  ]

  pub clean-Passes :
      (cs : List (StandardCriterion d)) (facts : FactBundle d)
      → run_gates d cs facts ≡ ok []
      → All (Passes facts) cs
  unfolding Passes
  clean-Passes [] facts h = tt
  clean-Passes (c ∷ cs) facts h =
      let s = gate_step c cs facts [] h in
      let (p, n) = gate_failure-pass c s.ev (verdict d s.ev) s.rest (sym s.result) in
      ((s.ev, s.evaluated, p), clean-Passes cs facts (s.others ∙ ap ok n))

  pub Passes-clean :
      (cs : List (StandardCriterion d)) (facts : FactBundle d)
      → All (Passes facts) cs
      → run_gates d cs facts ≡ ok []
  unfolding run_gates Passes gate_failure
  Passes-clean [] facts h = refl
  Passes-clean (c ∷ cs) facts h = rw ((h.0).1, Passes-clean cs facts h.1) (rw ((h.0).2) refl)
