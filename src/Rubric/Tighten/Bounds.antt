-- ===== src/Rubric/Tighten/Bounds.antt =====
-- Comparisons: a narrower bound or tolerance that is met leaves the wider one met.
use freight_auditor.Prelude.{
  String, Bool, true, false, ◌||◌, Option, some, ok, ◌>>=◌, ◌≡◌, refl, sym, ap, ◌∙◌, arith, inl,
  inr, Bool-cases, bind_ok, ◌≢◌, if◌then◌else◌,
}
use freight_auditor.Money.{Decimal, IsExact}
use freight_auditor.RuleEngine.Ast.{CompareOp, eq, ne, gt, gte, lt, lte, approx}
use freight_auditor.RuleEngine.Interpreter.{
  EvalValue, number, bool, unassessable, is_unassessable, value_scalar, same_scalar, to_decimal,
  compare_scalars, compare_decimals, compare_parsed, compare_values, or_text_zero,
}
use freight_auditor.Rubric.Tighten.{
  Proof, monotonic, narrower_bound, narrower_tolerance, is_safe, narrowed, prove_bound,
  prove_tolerance,
}

abbrev is_ordering : CompareOp → Bool
is_ordering eq = false
is_ordering ne = false
is_ordering _ = true

module _ (d : Decimal) where
  compare_scalars-ordering :
      (op : CompareOp) (same : Bool)
      → is_ordering op ≡ true
      → compare_scalars d op same ≡ unassessable "non-numeric comparison"
  unfolding compare_scalars
  compare_scalars-ordering eq same h = absurd (ground (arith, h))
  compare_scalars-ordering ne same h = absurd (ground (arith, h))
  compare_scalars-ordering _ same h = refl

  -- A comparison by order holds of two decimals only.
  parsed-decimals :
      (op : CompareOp) (t : Option String) (v w : EvalValue) (x y : Option d.D)
      → is_ordering op ≡ true
      → compare_parsed d op t v w x y ≡ ok (bool true)
      → (a b : d.D) × (x ≡ some a) × (y ≡ some b) × (compare_decimals d op t a b ≡ ok true)
  unfolding compare_parsed
  parsed-decimals op t v w (some a) (some b) o h =
      let (r, e, k) = bind_ok (compare_decimals d op t a b) _ h in
      (a, b, refl, refl, ground (arith, e, k))
  parsed-decimals op t v w _ _ o h = absurd (
      ground
        (arith, h, compare_scalars-ordering op (same_scalar (value_scalar v) (value_scalar w)) o))

  compare_values-decimals :
      (op : CompareOp) (t : Option String) (v w : EvalValue)
      → is_ordering op ≡ true
      → compare_values d op t v w ≡ ok (bool true)
      → ((is_unassessable v || is_unassessable w) ≡ false)
        × (a b : d.D) × (to_decimal d v ≡ ok (some a))
        × (to_decimal d w ≡ ok (some b))
        × (compare_decimals d op t a b ≡ ok true)
  unfolding compare_values
  compare_values-decimals op t v w o h =
      elim (Bool-cases (is_unassessable v || is_unassessable w)) [
        | inl e ↦ absurd (ground (arith, h, e))
        | inr e ↦
            let (x, a, h₁) =
              bind_ok (to_decimal d v) (λ x. to_decimal d w >>= λ y. compare_parsed d op t v w x y)
                (ground (arith, h, e)) in
            let (y, b, h₂) = bind_ok (to_decimal d w) (λ y. compare_parsed d op t v w x y) h₁ in
            let (i, j, k, l, m) = parsed-decimals op t v w x y o h₂ in
            (e, i, j, a ∙ ap ok k, b ∙ ap ok l, m)
      ]

  compare_values-holds :
      (op : CompareOp) (t : Option String) (v w : EvalValue) (a b : d.D)
      → (is_unassessable v || is_unassessable w) ≡ false
      → to_decimal d v ≡ ok (some a)
      → to_decimal d w ≡ ok (some b)
      → compare_decimals d op t a b ≡ ok true
      → compare_values d op t v w ≡ ok (bool true)
  unfolding compare_values compare_parsed
  compare_values-holds op t v w a b e x y h = rw (e, x, y, h) refl

  -- Only `approx` reads the tolerance.
  compare_decimals-tolerance :
      (op : CompareOp) (t u : Option String) (a b : d.D)
      → op ≢ approx
      → compare_decimals d op t a b ≡ compare_decimals d op u a b
  unfolding compare_decimals
  compare_decimals-tolerance approx t u a b plain = absurd (plain refl)
  compare_decimals-tolerance _ t u a b plain = refl

  compare_parsed-tolerance :
      (op : CompareOp) (t u : Option String) (v w : EvalValue) (x y : Option d.D)
      → op ≢ approx
      → compare_parsed d op t v w x y ≡ compare_parsed d op u v w x y
  unfolding compare_parsed
  compare_parsed-tolerance op t u v w (some a) (some b) plain =
      rw (compare_decimals-tolerance op t u a b plain) refl
  compare_parsed-tolerance op t u v w _ _ plain = refl

  compare_values-tolerance :
      (op : CompareOp) (t u : Option String) (v w : EvalValue)
      → op ≢ approx
      → compare_values d op t v w ≡ compare_values d op u v w
  unfolding compare_values
  compare_values-tolerance op t u v w plain = λ i.
      if is_unassessable v || is_unassessable w
      then ok (unassessable "comparand unassessable")
      else to_decimal d v >>= λ x.
          to_decimal d w >>= λ y. compare_parsed-tolerance op t u v w x y plain i

  module _ (exact : IsExact d) where
    ordered :
        (op : CompareOp) (t u : Option String) (x before after : d.D)
        → is_ordering op ≡ true
        → op ≢ approx
        → is_safe d op before after ≡ true
        → compare_decimals d op u x after ≡ ok true
        → compare_decimals d op t x before ≡ ok true
    unfolding compare_decimals
    ordered lt t u x before after o plain safe h = elim (Bool-cases (d.lte before x)) [
      | inl e ↦
          absurd (ground (arith, h, exact.lt_lem x after, exact.lte_trans after before x safe e))
      | inr e ↦ ground (arith, exact.lt_lem x before, e)
    ]
    ordered lte t u x before after o plain safe h =
        ap ok (exact.lte_trans x after before (ground (arith, h)) safe)
    ordered gt t u x before after o plain safe h = elim (Bool-cases (d.lte x before)) [
      | inl e ↦
          let le =
            exact.lte_trans x before after e (ground (arith, exact.gte_lem after before, safe)) in
          absurd (ground (arith, h, exact.gt_lem x after, le))
      | inr e ↦ ground (arith, exact.gt_lem x before, e)
    ]
    ordered gte t u x before after o plain safe h =
        let le =
          exact.lte_trans before after x (ground (arith, exact.gte_lem after before, safe))
            (ground (arith, h, exact.gte_lem x after)) in
        ground (arith, exact.gte_lem x before, le)
    ordered approx t u x before after o plain safe h = absurd (plain refl)
    ordered _ t u x before after o plain safe h = absurd (ground (arith, o))

    narrowed-safe :
        (safe same : Bool) (p q : Proof) → narrowed d safe same p ≡ monotonic q → safe ≡ true
    narrowed-safe true same p q h = refl
    narrowed-safe false same p q h = absurd (ground (arith, h))

    pub prove_bound-safe :
        (op : CompareOp) (x y : Option d.D) (q : Proof)
        → prove_bound d op x y ≡ monotonic q
        → (a b : d.D) × (x ≡ some a) × (y ≡ some b) × (is_safe d op a b ≡ true)
    prove_bound-safe op (some a) (some b) q h =
        (a, b, refl, refl, narrowed-safe (is_safe d op a b) (d.equals b a) narrower_bound q h)
    prove_bound-safe op _ _ q h = absurd (ground (arith, h))

    prove_tolerance-safe :
        (x y : Option d.D) (q : Proof)
        → prove_tolerance d x y ≡ monotonic q
        → (a b : d.D) × (x ≡ some a) × (y ≡ some b) × (d.lte b a ≡ true)
    prove_tolerance-safe (some a) (some b) q h =
        (a, b, refl, refl, narrowed-safe (d.lte b a) (d.equals b a) narrower_tolerance q h)
    prove_tolerance-safe _ _ q h = absurd (ground (arith, h))

    -- The value of a number literal with the decimal `a`.
    abbrev pub printed : d.D → EvalValue
    printed a = number (d.to_string a)

    to_decimal-printed : (a : d.D) → to_decimal d (printed a) ≡ ok (some a)
    unfolding to_decimal
    to_decimal-printed a = rw (exact.new_decimal-to_string a) refl

    bound-ordering :
        (op : CompareOp) (t u : Option String) (v : EvalValue) (a b : d.D)
        → is_ordering op ≡ true
        → op ≢ approx
        → is_safe d op a b ≡ true
        → compare_values d op u v (printed b) ≡ ok (bool true)
        → compare_values d op t v (printed a) ≡ ok (bool true)
    unfolding is_unassessable
    bound-ordering op t u v a b o plain safe h =
        let (e, x, y, dx, dy, holds) = compare_values-decimals op u v (printed b) o h in
        let same : b ≡ y = ground (arith, to_decimal-printed b, dy) in
        compare_values-holds op t v (printed a) x a (ground (arith, e)) dx (to_decimal-printed a)
          (ordered op t u x a b o plain safe (ap (λ z. compare_decimals d op u x z) same ∙ holds))

    -- What passes against the narrower bound `b` passes against `a`.
    pub bound_lem :
        (op : CompareOp) (t u : Option String) (v : EvalValue) (a b : d.D)
        → op ≢ approx
        → is_safe d op a b ≡ true
        → compare_values d op u v (printed b) ≡ ok (bool true)
        → compare_values d op t v (printed a) ≡ ok (bool true)
    bound_lem eq t u v a b plain safe h =
        compare_values-tolerance eq t u v (printed a) plain
        ∙ ap (λ x. compare_values d eq u v (printed x)) (sym ((exact.equals_iff b a).0 safe))
        ∙ h
    bound_lem ne t u v a b plain safe h =
        compare_values-tolerance ne t u v (printed a) plain
        ∙ ap (λ x. compare_values d ne u v (printed x)) (sym ((exact.equals_iff b a).0 safe))
        ∙ h
    bound_lem approx t u v a b plain safe h = absurd (plain refl)
    bound_lem op t u v a b plain safe h = bound-ordering op t u v a b refl plain safe h

    -- What passes with the narrower tolerance passes with the wider one.
    pub tolerance_lem :
        (t u : Option String) (v w : EvalValue) (q : Proof)
        → prove_tolerance d (d.new_decimal (or_text_zero d t)) (d.new_decimal (or_text_zero d u))
          ≡ monotonic q
        → compare_values d approx u v w ≡ ok (bool true)
        → compare_values d approx t v w ≡ ok (bool true)
    unfolding compare_decimals
    tolerance_lem t u v w q p h =
        let (a, b, ta, ub, le) = prove_tolerance-safe _ _ q p in
        let (e, x, y, dx, dy, holds) = compare_values-decimals approx u v w refl h in
        let within : d.lte (d.abs (d.minus x y)) b ≡ true = ground (arith, holds, ub) in
        compare_values-holds approx t v w x y e dx dy
          (rw ta (ap ok (exact.lte_trans (d.abs (d.minus x y)) b a within le)))
