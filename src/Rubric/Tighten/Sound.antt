-- ===== src/Rubric/Tighten/Sound.antt =====
-- What the prover calls monotonic is: whatever passes under the tightened tree passes under the base.
use freight_auditor.Prelude.{
  String, Bool, true, false, ◌&&◌, Option, some, ok, ◌≡◌, ◌≢◌, sym, ap, ◌∙◌, arith, inl, inr,
  Bool-cases, bind_ok, subst,
}
use freight_auditor.Money.{Decimal, IsExact}
use freight_auditor.RuleEngine.Ast.{
  CompareOp, approx, and, lit_number, AstNode, lit, compare_node, logic, FactBundle,
}
use freight_auditor.RuleEngine.Interpreter.{
  bool, EvalNode, value_of, lit_value, safe_decimal_of_number, compare_values, or_text_zero,
  evaluate, verdict, pass,
}
use freight_auditor.Rubric.Tighten.{
  Proof, monotonic, numeric_literal, prove_bound, prove_tolerance, same_node, prove_compare,
  prove_shapes, prove_monotonic_tighten,
}
use freight_auditor.Rubric.Tighten.Same.{
  compare_name_inj, outcome, compare-outcome, compare-sides, same_node-outcome,
}
use freight_auditor.Rubric.Tighten.Bounds.{prove_bound-safe, printed, bound_lem, tolerance_lem}
use freight_auditor.Rubric.Tighten.Clauses.{added_conjuncts_lem}

module _ (d : Decimal) where
  abbrev is_finite_bound : AstNode d → Bool
  is_finite_bound (lit (lit_number n)) = d.is_finite_number n && d.is_finite (d.of_number n)
  is_finite_bound _ = false

  -- A comparison other than `approx` has a finite number literal on its right.
  unfoldable pub has_finite_bound : AstNode d → Bool
  has_finite_bound (compare_node approx l r t) = true
  has_finite_bound (compare_node op l r t) = is_finite_bound r
  has_finite_bound _ = true

  module _ (facts : FactBundle d) (exact : IsExact d) (number_text : d.Number → String)
      (same_number : (m n : d.Number)
        → number_text m ≡ number_text n
        → lit_value d (lit_number m) ≡ lit_value d (lit_number n)) where
    abbrev Passes : AstNode d → Type 0
    Passes n = outcome d facts n ≡ ok (bool true)

    literal_lem :
        (r : AstNode d) (a : d.D)
        → is_finite_bound r ≡ true
        → numeric_literal d r ≡ some a
        → outcome d facts r ≡ ok (printed d exact a)
    unfolding outcome evaluate lit_value safe_decimal_of_number value_of
    literal_lem (lit (lit_number n)) a h k = ground (arith, h, k)
    literal_lem _ a h k = absurd (ground (arith, h))

    compare-bound :
        (o : CompareOp) (l r m n : AstNode d) (t u : Option String) (q : Proof)
        → o ≢ approx
        → same_node d number_text l m ≡ true
        → prove_bound d o (numeric_literal d r) (numeric_literal d n) ≡ monotonic q
        → is_finite_bound r ≡ true
        → is_finite_bound n ≡ true
        → Passes (compare_node o m n u)
        → Passes (compare_node o l r t)
    compare-bound o l r m n t u q plain left p rf nf h =
        let (a, b, ra, nb, safe) = prove_bound-safe d exact o _ _ q p in
        let (v, w, e, f, h₁) = compare-sides d facts o m n u h in
        let bound : w ≡ printed d exact b = ground (arith, f, literal_lem n b nf nb) in
        compare-outcome d facts o l r t v (printed d exact a)
          (same_node-outcome d facts number_text same_number l m left ∙ e) (literal_lem r a rf ra)
        ∙ bound_lem d exact o t u v a b plain safe (ap (compare_values d o u v) (sym bound) ∙ h₁)

    compare-tolerance :
        (l r m n : AstNode d) (t u : Option String) (q : Proof)
        → same_node d number_text l m ≡ true
        → same_node d number_text r n ≡ true
        → prove_tolerance d (d.new_decimal (or_text_zero d t)) (d.new_decimal (or_text_zero d u))
          ≡ monotonic q
        → Passes (compare_node approx m n u)
        → Passes (compare_node approx l r t)
    compare-tolerance l r m n t u q left right p h =
        let (v, w, e, f, h₁) = compare-sides d facts approx m n u h in
        compare-outcome d facts approx l r t v w
          (same_node-outcome d facts number_text same_number l m left ∙ e)
          (same_node-outcome d facts number_text same_number r n right ∙ f)
        ∙ tolerance_lem d exact t u v w q p h₁

    -- `p` is the tightened operator.
    prove_compare_sound :
        (o : CompareOp) (l r : AstNode d) (t : Option String) (p : CompareOp) (m n : AstNode d)
        (u : Option String) (q : Proof)
        → prove_compare d number_text o l r t p m n u ≡ monotonic q
        → has_finite_bound (compare_node o l r t) ≡ true
        → has_finite_bound (compare_node p m n u) ≡ true
        → Passes (compare_node p m n u)
        → Passes (compare_node o l r t)
    unfolding has_finite_bound
    prove_compare_sound approx l r t p m n u q h rf nf k =
        let same = compare_name_inj approx p (ground (arith, h)) in
        compare-tolerance l r m n t u q (ground (arith, h)) (ground (arith, h)) (ground (arith, h))
          (subst (λ x. Passes (compare_node x m n u)) (sym same) k)
    prove_compare_sound o l r t p m n u q h rf nf k =
        let same = compare_name_inj o p (ground (arith, h)) in
        let finite = subst (λ x. has_finite_bound (compare_node x m n u) ≡ true) (sym same) nf in
        compare-bound o l r m n t u q (λ e. absurd (ground (arith, e))) (ground (arith, h))
          (ground (arith, h)) rf finite (subst (λ x. Passes (compare_node x m n u)) (sym same) k)

    prove_shapes_sound :
        (base tightened : AstNode d) (q : Proof)
        → prove_shapes d number_text base tightened ≡ monotonic q
        → has_finite_bound base ≡ true
        → has_finite_bound tightened ≡ true
        → Passes tightened
        → Passes base
    prove_shapes_sound (compare_node o l r t) (compare_node p m n u) q h rf nf k =
        prove_compare_sound o l r t p m n u q h rf nf k
    prove_shapes_sound (logic and clauses) (logic and next) q h rf nf k =
        added_conjuncts_lem d facts number_text same_number clauses next (ground (arith, h)) k
    prove_shapes_sound _ _ q h rf nf k = absurd (ground (arith, h))

    verdict-pass : (ev : EvalNode d) → verdict d ev ≡ pass → value_of d ev ≡ bool true
    unfolding verdict
    verdict-pass ev h = ground (arith, h)

    -- The prover tells the truth: if it calls `tightened` monotonic, every bundle of facts that
    -- passes under `tightened` passes under `base`, which then evaluates without an error. A
    -- comparison at the top of either, `approx` aside, is with a finite number literal. Assumed:
    -- exact decimal arithmetic, that is, of all values nothing rounds and none is NaN or Infinity,
    -- and a printed value reads back; two number literals of one JSON text have one value.
    pub prove_monotonic_tighten_sound :
        (base tightened : AstNode d) (q : Proof) (ev : EvalNode d)
        → prove_monotonic_tighten d number_text base tightened ≡ monotonic q
        → has_finite_bound base ≡ true
        → has_finite_bound tightened ≡ true
        → evaluate d tightened facts ≡ ok ev
        → verdict d ev ≡ pass
        → (ev' : EvalNode d) × (evaluate d base facts ≡ ok ev') × (verdict d ev' ≡ pass)
    unfolding prove_monotonic_tighten outcome verdict
    prove_monotonic_tighten_sound base tightened q ev h rf nf e passed =
        let k : Passes tightened = ground (arith, e, verdict-pass ev passed) in
        let held : Passes base = elim (Bool-cases (same_node d number_text base tightened)) [
          | inl same ↦ same_node-outcome d facts number_text same_number base tightened same ∙ k
          | inr other ↦ prove_shapes_sound base tightened q (ground (arith, h, other)) rf nf k
        ] in
        let (ev', e', h') = bind_ok (evaluate d base facts) _ held in (ev', e', ground (arith, h'))
