-- ===== src/Evaluator/Totals.antt =====
-- The totals of a scorecard: the overcharges and the undercharges of its findings.
use freight_auditor.Prelude.{
  String, Bool, true, not, Option, none, some, List, [], ◌∷◌, if◌then◌else◌, ok, need, bind_ok,
  subst, ◌≡◌, inl, inr, refl, sym, ap, ◌∙◌, arith, Bool-cases,
}
use freight_auditor.Money.{Decimal, IsExact}
use freight_auditor.Money.Laws.{zero_plus, minus_eq, lte_cancel}
use freight_auditor.RuleEngine.Ast.{compare_node, require, FactBundle}
use freight_auditor.RuleEngine.Interpreter.{
  EvalValue, money_value, EvalNode, branch, child, value_of, verdict,
}
use freight_auditor.Rubric.Standard.{StandardCriterion, ComposedRubric}
use freight_auditor.Evaluator.Invoice.{ParsedInvoice, ContractFacts}
use freight_auditor.Evaluator.Evaluate.{
  scored, FindingResult, conformed, variance, not_assessable, Scorecard, result_of_verdict,
  ChargeFinding, AuditResult, Tally, unwrapped, delta_of_values, money_variance_delta,
  charge_finding, tallied, run_scores, no_tally, scorecard_of, evaluate_invoice,
}
use freight_auditor.Evaluator.Outcome.{invoice_run}
use freight_auditor.Evaluator.Scorecard.{score_step, decided-cases}

module _ (d : Decimal) where
  abbrev pub read_sides : Option d.D → Option d.D → Option (d.D × d.D)
  read_sides (some a) (some b) = some (a, b)
  read_sides _ _ = none

  abbrev pub sides_of : EvalValue → EvalValue → Option (d.D × d.D)
  sides_of (money_value x c) (money_value y e) = read_sides (d.new_decimal x) (d.new_decimal y)
  sides_of _ _ = none

  -- The amounts that a comparison of two money values has on its left, as billed, and on its right, as
  -- expected; `require`s may stand around it.
  unfoldable pub billed_and_expected : EvalNode d → Option (d.D × d.D)
  billed_and_expected (branch (require key inner) v (child c cs)) = billed_and_expected c
  billed_and_expected (branch (compare_node op l r t) v (child a (child b cs))) =
      sides_of (value_of d a) (value_of d b)
  billed_and_expected _ = none

  -- How much the one amount is over the other.
  abbrev pub excess : d.D → d.D → d.D
  excess a b = if d.lte b a then d.minus a b else d.zero

  abbrev pub overcharge_of : FindingResult → Option (d.D × d.D) → d.D
  overcharge_of variance (some (billed, expected)) = excess billed expected
  overcharge_of _ _ = d.zero

  abbrev pub undercharge_of : FindingResult → Option (d.D × d.D) → d.D
  undercharge_of variance (some (billed, expected)) =
      if d.lte expected billed then d.zero else d.minus expected billed
  undercharge_of _ _ = d.zero

  -- Over the VARIANCE findings that compare two amounts: what is billed over what is expected, where it is.
  unfoldable pub overcharges : List (ChargeFinding d) → d.D
  overcharges [] = d.zero
  overcharges (f ∷ fs) =
      d.plus (overcharge_of f.result (billed_and_expected f.evaluated_expr)) (overcharges fs)

  -- What is expected over what is billed, where it is.
  unfoldable pub undercharges : List (ChargeFinding d) → d.D
  undercharges [] = d.zero
  undercharges (f ∷ fs) =
      d.plus (undercharge_of f.result (billed_and_expected f.evaluated_expr)) (undercharges fs)

  abbrev Differ : Option (d.D × String) → Option (d.D × d.D) → Type 0
  Differ none none = Unit
  Differ (some (x, c)) (some (a, b)) = x ≡ d.minus a b
  Differ _ _ = ⊥

  no_delta : (delta : Option (d.D × String)) → none ≡ delta → Differ delta none
  no_delta none h = tt
  no_delta (some x) h = absurd (ground (arith, h))

  values-Differ :
      (v w : EvalValue) (delta : Option (d.D × String))
      → delta_of_values d v w ≡ ok delta
      → Differ delta (sides_of v w)
  values-Differ (money_value x c) (money_value y e) delta h =
      let (a, p, h₁) = bind_ok (need (d.new_decimal x) x) _ h in
      let (b, q, h₂) = bind_ok (need (d.new_decimal y) y) _ h₁ in
      let there : sides_of (money_value x c) (money_value y e) ≡ some (a, b) =
        ground (arith, p, q) in
      let made : some (d.minus a b, c) ≡ delta = ground (arith, h₂) in
      subst (λ z. Differ delta z) (sym there) (subst (λ z. Differ z (some (a, b))) made refl)
  values-Differ _ _ delta h = no_delta delta (ground (arith, h))

  delta-Differ :
      (ev : EvalNode d) (delta : Option (d.D × String))
      → money_variance_delta d ev ≡ ok delta
      → Differ delta (billed_and_expected ev)
  unfolding money_variance_delta unwrapped billed_and_expected
  delta-Differ (branch (require key inner) v (child c cs)) delta h = delta-Differ c delta h
  delta-Differ (branch (compare_node op l r t) v (child a (child b cs))) delta h =
      values-Differ (value_of d a) (value_of d b) delta h
  delta-Differ _ delta h = no_delta delta (ground (arith, h))

  module _ (exact : IsExact d) where
    minus-positive : (a b : d.D) → d.lte d.zero (d.minus a b) ≡ d.lte b a
    minus-positive a b =
        let up : d.lte d.zero (d.minus a b) ≡ true → d.lte b a ≡ true = λ h.
          rw (zero_plus d exact b, exact.minus_plus a b) at
            (exact.plus_mono d.zero (d.minus a b) b h) in
        let down : d.lte b a ≡ true → d.lte d.zero (d.minus a b) ≡ true = λ h.
          lte_cancel d exact d.zero (d.minus a b) b
            (rw (zero_plus d exact b, exact.minus_plus a b) h) in
        ground (arith, up, down)

    -- The magnitude of a negative difference is the difference the other way.
    abs-minus : (a b : d.D) → d.is_negative (d.minus a b) ≡ true → d.abs (d.minus a b) ≡ d.minus b a
    abs-minus a b h =
        let u = d.minus a b in
        sym (
          minus_eq d exact b (d.abs u) a (
            sym (
              ap (d.plus (d.abs u)) (sym (exact.minus_plus a b))
              ∙ sym (exact.plus_assoc (d.abs u) u b)
              ∙ ap (λ z. d.plus z b) (exact.abs_of_negative u h)
              ∙ zero_plus d exact b)))

    -- The totals of `last` are those of `t` with the findings' added.
    abbrev Adds : Tally d → List (ChargeFinding d) → Tally d → Type 0
    Adds t fs last =
        (last.total_overcharge ≡ d.plus t.total_overcharge (overcharges fs))
        × (last.total_undercharge ≡ d.plus t.total_undercharge (undercharges fs))

    -- One finding's amounts, on both totals.
    Adds-along :
        (x y : d.D) (over under : d.D) (n m last_over last_under : d.D)
        → (last_over ≡ d.plus (d.plus over x) n)
        → (last_under ≡ d.plus (d.plus under y) m)
        → (last_over ≡ d.plus over (d.plus x n)) × (last_under ≡ d.plus under (d.plus y m))
    Adds-along x y over under n m last_over last_under h k =
        (h ∙ exact.plus_assoc over x n, k ∙ exact.plus_assoc under y m)

    tallied-totals :
        (r : FindingResult) (delta : Option (d.D × String)) (sides : Option (d.D × d.D))
        (t : Tally d)
        → Differ delta sides
        → ((tallied d r delta t).total_overcharge
            ≡ d.plus t.total_overcharge (overcharge_of r sides))
          × ((tallied d r delta t).total_undercharge
              ≡ d.plus t.total_undercharge (undercharge_of r sides))
    unfolding tallied
    tallied-totals conformed delta sides t h =
        (sym (exact.plus_zero t.total_overcharge), sym (exact.plus_zero t.total_undercharge))
    tallied-totals not_assessable delta sides t h =
        (sym (exact.plus_zero t.total_overcharge), sym (exact.plus_zero t.total_undercharge))
    tallied-totals variance none none t h =
        (sym (exact.plus_zero t.total_overcharge), sym (exact.plus_zero t.total_undercharge))
    tallied-totals variance none (some s) t h = absurd h
    tallied-totals variance (some x) none t h = absurd h
    tallied-totals variance (some (x, c)) (some (a, b)) t h =
        let positive = exact.is_positive_lem x ∙ ap (d.lte d.zero) h ∙ minus-positive a b in
        let negative =
          exact.is_negative_lem x ∙ ap not (ap (d.lte d.zero) h ∙ minus-positive a b) in
        elim (Bool-cases (d.lte b a)) [
          | inl le ↦ (
            rw (positive, le) (ap (d.plus t.total_overcharge) h),
            rw (positive, le) (sym (exact.plus_zero t.total_undercharge)),
          )
          | inr gt ↦
              let under : d.abs x ≡ d.minus b a =
                ap d.abs h ∙ abs-minus a b (ap d.is_negative (sym h) ∙ negative ∙ ap not gt) in
              (
                rw (positive, gt) (sym (exact.plus_zero t.total_overcharge)),
                rw (positive, gt) (ap (d.plus t.total_undercharge) under),
              )
        ]

    finding-amounts :
        (c : StandardCriterion d) (ev : EvalNode d) (r : FindingResult)
        (delta : Option (d.D × String)) (rest : List (ChargeFinding d))
        → (overcharges (charge_finding d c ev r delta ∷ rest)
            ≡ d.plus (overcharge_of r (billed_and_expected ev)) (overcharges rest))
          × (undercharges (charge_finding d c ev r delta ∷ rest)
              ≡ d.plus (undercharge_of r (billed_and_expected ev)) (undercharges rest))
    unfolding overcharges undercharges charge_finding
    finding-amounts c ev conformed delta rest = (refl, refl)
    finding-amounts c ev not_assessable delta rest = (refl, refl)
    finding-amounts c ev variance none rest = (refl, refl)
    finding-amounts c ev variance (some (x, k)) rest = (refl, refl)

    run_scores-Adds :
        (cs : List (StandardCriterion d)) (facts : FactBundle d) (t : Tally d)
        (fs : List (ChargeFinding d)) (last : Tally d)
        → run_scores d cs facts t ≡ ok (fs, last)
        → Adds t fs last
    unfolding run_scores overcharges undercharges
    run_scores-Adds [] facts t fs last h =
        let e : t ≡ last = ground arith in
        let n : fs ≡ [] = ground arith in
        rw (n, ← e)
          (sym (exact.plus_zero t.total_overcharge), sym (exact.plus_zero t.total_undercharge))
    run_scores-Adds (c ∷ cs) facts t fs last h =
        let s = score_step d c cs facts t fs last h in
        let r = result_of_verdict (verdict d s.ev) in
        let sides = billed_and_expected s.ev in
        let (over, under) = run_scores-Adds cs facts _ s.rest last s.others in
        let (o, u) = tallied-totals r s.delta sides t (delta-Differ s.ev s.delta s.measured) in
        let (p, q) = finding-amounts c s.ev r s.delta s.rest in
        let (x, y) =
          Adds-along (overcharge_of r sides) (undercharge_of r sides) t.total_overcharge
            t.total_undercharge (overcharges s.rest) (undercharges s.rest) last.total_overcharge
            last.total_undercharge (over ∙ ap (λ z. d.plus z (overcharges s.rest)) o)
            (under ∙ ap (λ z. d.plus z (undercharges s.rest)) u) in
        (
          x ∙ ap (d.plus t.total_overcharge) (sym p ∙ ap overcharges (sym s.findings)),
          y ∙ ap (d.plus t.total_undercharge) (sym q ∙ ap undercharges (sym s.findings)),
        )

module _ (d : Decimal) (fact_key : String → String) (locale_le : String → String → Bool)
    (rubric_content_hash : ComposedRubric d → String) where
  -- The two totals of a scored invoice are, over the VARIANCE findings that compare two amounts,
  -- the sum of what is billed over what is expected where it is, and the sum of what is expected
  -- over what is billed where it is; the amounts are read off the findings' evaluated trees.
  -- Assumed: exact decimal arithmetic, that is, of all values nothing rounds and none is NaN or
  -- Infinity, and a printed value reads back.
  pub evaluate_invoice-totals :
      (exact : IsExact d) (inv : ParsedInvoice) (rubric : ComposedRubric d)
      (contract : Option ContractFacts) (r : AuditResult d)
      → evaluate_invoice d fact_key locale_le rubric_content_hash inv rubric contract ≡ ok r
      → r.outcome ≡ scored
      → (sc : Scorecard) × (r.scorecard ≡ some sc)
        × (sc.total_overcharge ≡ d.to_fixed (overcharges d r.findings))
        × (sc.total_undercharge ≡ d.to_fixed (undercharges d r.findings))
  unfolding scorecard_of
  evaluate_invoice-totals exact inv rubric contract r h o =
      let run = invoice_run d fact_key locale_le rubric_content_hash inv rubric contract r h in
      elim (decided-cases d fact_key locale_le rubric_content_hash _ _ run.failures _ r
        run.decided) [
          | inl (n, e) ↦ absurd (ground arith)
          | inr (x, s, e) ↦
              let (over, under) = run_scores-Adds d exact _ run.facts (no_tally d) x.0 x.1 s in
              rw (e) (
                scorecard_of d x.1,
                refl,
                ap d.to_fixed (over ∙ zero_plus d exact _),
                ap d.to_fixed (under ∙ zero_plus d exact _),
              )
        ]
