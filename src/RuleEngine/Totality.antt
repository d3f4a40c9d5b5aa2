-- ===== src/RuleEngine/Totality.antt =====
-- The interpreter gives a result on every bundle, once the tolerances of the tree are numbers.
use freight_auditor.Prelude.{
  String, Bool, true, false, ◌&&◌, ◌||◌, Option, none, some, List, [], ◌∷◌, any, all, ok, ◌≡◌, refl,
  arith, Bool-cases, Option-cases, inl, inr,
}
use freight_auditor.Money.{Decimal, IsExact}
use freight_auditor.RuleEngine.Ast.{
  ArithOp, add, sub, mul, div, abs, CompareOp, eq, ne, gt, gte, lt, lte, approx, LogicOp, LitValue,
  lit_number, lit_string, lit_bool, AstNode, lit, money, fact, arith_node, compare_node, logic,
  require, AstNodes, no_args, arg, FactValue, number_fact, string_fact, bool_fact, money_fact,
  decimal_fact, FactBundle, present_fact,
}
use freight_auditor.RuleEngine.Interpreter.{
  EvalValue, number, money_value, bool, string, unassessable, is_unassessable, logic_value,
  EvalNode, leaf, branch, EvalNodes, no_children, child, value_of, values_of, number_or, money_or,
  lit_value, about, fact_value, to_decimal, both, to_decimals, combine, combined, arith_value,
  compare_scalars, or_text_zero, compare_decimals, compare_parsed, compare_values, evaluate,
  evaluate_all,
}

abbrev pub is_some {ℓ} : {A : Type ℓ} → Option A → Bool
is_some none = false
is_some (some a) = true

pub some_of {ℓ} : {A : Type ℓ} (o : Option A) → is_some o ≡ true → (a : A) × (o ≡ some a)
some_of none h = absurd (ground arith)
some_of (some a) h = (a, refl)

module _ (d : Decimal) where
  unfoldable mutual
    -- Every `approx` in the tree has a numeric tolerance.
    pub tolerances_numeric : AstNode d → Bool
    tolerances_numeric (lit v) = true
    tolerances_numeric (money amount currency) = true
    tolerances_numeric (fact key) = true
    tolerances_numeric (require key inner) = tolerances_numeric inner
    tolerances_numeric (arith_node op args) = all_tolerances_numeric args
    tolerances_numeric (compare_node op l r t) =
        is_some (d.new_decimal (or_text_zero d t)) && (tolerances_numeric l && tolerances_numeric r)
    tolerances_numeric (logic op args) = all_tolerances_numeric args

    pub all_tolerances_numeric : AstNodes d → Bool
    all_tolerances_numeric no_args = true
    all_tolerances_numeric (arg n ns) = tolerances_numeric n && all_tolerances_numeric ns

  -- The texts of a value are decimals.
  unfoldable pub readable : EvalValue → Bool
  readable (number s) = is_some (d.new_decimal s)
  readable (money_value amount c) = is_some (d.new_decimal amount)
  readable _ = true

  to_decimal-total :
      (v : EvalValue) → readable v ≡ true → (x : Option d.D) × (to_decimal d v ≡ ok x)
  unfolding readable to_decimal
  to_decimal-total (number s) h = let (x, e) = some_of (d.new_decimal s) h in (some x, rw (e) refl)
  to_decimal-total (money_value a c) h =
      let (x, e) = some_of (d.new_decimal a) h in (some x, rw (e) refl)
  to_decimal-total (bool b) h = (none, refl)
  to_decimal-total (string s) h = (none, refl)
  to_decimal-total (unassessable r) h = (none, refl)

  to_decimals-total :
      (vs : List EvalValue)
      → all readable vs ≡ true
      → (xs : Option (List d.D)) × (to_decimals d vs ≡ ok xs)
  unfolding to_decimals
  to_decimals-total [] h = (some [], refl)
  to_decimals-total (v ∷ vs) h =
      let (x, e) = to_decimal-total v (ground arith) in
      let (xs, es) = to_decimals-total vs (ground arith) in (both d x xs, rw (e, es) refl)

  module _ (exact : IsExact d) where
    printed-readable : (x : d.D) → is_some (d.new_decimal (d.to_string x)) ≡ true
    printed-readable x = rw (exact.new_decimal-to_string x) refl

    fixed-readable : (x : d.D) → is_some (d.new_decimal (d.to_fixed x)) ≡ true
    fixed-readable x = rw (exact.new_decimal-to_fixed x) refl

    number_or-readable : (r : String) (x : Option d.D) → readable (number_or d r x) ≡ true
    unfolding readable
    number_or-readable r none = refl
    number_or-readable r (some x) = printed-readable x

    money_or-readable : (r c : String) (x : Option d.D) → readable (money_or d r c x) ≡ true
    unfolding readable
    money_or-readable r c none = refl
    money_or-readable r c (some x) = fixed-readable x

    lit_value-readable : (v : LitValue d) → readable (lit_value d v) ≡ true
    unfolding lit_value readable
    lit_value-readable (lit_bool b) = refl
    lit_value-readable (lit_number n) = number_or-readable _ _
    lit_value-readable (lit_string s) = refl

    fact_value-readable :
        (k : String) (v : Option (FactValue d)) → readable (fact_value d k v) ≡ true
    unfolding fact_value readable
    fact_value-readable k none = refl
    fact_value-readable k (some (bool_fact b)) = refl
    fact_value-readable k (some (string_fact s)) = refl
    fact_value-readable k (some (number_fact n)) = number_or-readable _ _
    fact_value-readable k (some (decimal_fact s)) = number_or-readable _ _
    fact_value-readable k (some (money_fact a c)) = money_or-readable _ c _

    combine-readable : (op : ArithOp) (xs : List d.D) → readable (combine d op xs) ≡ true
    unfolding combine readable
    combine-readable abs [] = refl
    combine-readable abs (x ∷ xs) = printed-readable _
    combine-readable op [] = ground arith
    combine-readable op (x ∷ []) = ground arith
    combine-readable add (x ∷ y ∷ xs) = printed-readable _
    combine-readable sub (x ∷ y ∷ xs) = printed-readable _
    combine-readable mul (x ∷ y ∷ xs) = printed-readable _
    combine-readable div (x ∷ y ∷ xs) = elim (Bool-cases (any d.is_zero (y ∷ xs))) [
      | inl e ↦ rw (e) refl
      | inr e ↦ rw (e) (printed-readable _)
    ]

    combined_option-readable :
        (op : ArithOp) (xs : Option (List d.D)) → readable (combined d op xs) ≡ true
    unfolding readable
    combined_option-readable op none = refl
    combined_option-readable op (some xs) = combine-readable op xs

    arith_value-total :
        (op : ArithOp) (vs : List EvalValue)
        → all readable vs ≡ true
        → (v : EvalValue) × (arith_value d op vs ≡ ok v) × (readable v ≡ true)
    unfolding arith_value readable
    arith_value-total op vs h =
        let (xs, e) = to_decimals-total vs h in
        elim (Bool-cases (any is_unassessable vs)) [
          | inl u ↦ (unassessable "operand unassessable", rw (u) refl, refl)
          | inr u ↦ (combined d op xs, rw (u, e) refl, combined_option-readable op xs)
        ]

    compare_decimals-total :
        (op : CompareOp) (t : Option String) (a b : d.D)
        → is_some (d.new_decimal (or_text_zero d t)) ≡ true
        → (r : Bool) × (compare_decimals d op t a b ≡ ok r)
    unfolding compare_decimals
    compare_decimals-total eq t a b h = (_, refl)
    compare_decimals-total ne t a b h = (_, refl)
    compare_decimals-total gt t a b h = (_, refl)
    compare_decimals-total gte t a b h = (_, refl)
    compare_decimals-total lt t a b h = (_, refl)
    compare_decimals-total lte t a b h = (_, refl)
    compare_decimals-total approx t a b h =
        let (tol, e) = some_of (d.new_decimal (or_text_zero d t)) h in
        (d.lte (d.abs (d.minus a b)) tol, rw (e) refl)

    compare_scalars-readable :
        (op : CompareOp) (same : Bool) → readable (compare_scalars d op same) ≡ true
    unfolding compare_scalars readable
    compare_scalars-readable eq same = refl
    compare_scalars-readable ne same = refl
    compare_scalars-readable _ same = refl

    logic_value-readable :
        (op : LogicOp) (vs : List EvalValue) → readable (logic_value op vs) ≡ true
    unfolding logic_value readable
    logic_value-readable op vs = ground arith

    compare_parsed-total :
        (op : CompareOp) (t : Option String) (l r : EvalValue) (a b : Option d.D)
        → is_some (d.new_decimal (or_text_zero d t)) ≡ true
        → (v : EvalValue) × (compare_parsed d op t l r a b ≡ ok v) × (readable v ≡ true)
    unfolding compare_parsed readable
    compare_parsed-total op t l r (some a) (some b) h =
        let (result, e) = compare_decimals-total op t a b h in (bool result, rw (e) refl, refl)
    compare_parsed-total op t l r _ _ h = (_, refl, compare_scalars-readable op _)

    compare_values-total :
        (op : CompareOp) (t : Option String) (l r : EvalValue)
        → is_some (d.new_decimal (or_text_zero d t)) ≡ true
        → readable l ≡ true
        → readable r ≡ true
        → (v : EvalValue) × (compare_values d op t l r ≡ ok v) × (readable v ≡ true)
    unfolding compare_values readable
    compare_values-total op t l r h hl hr =
        let (a, ea) = to_decimal-total l hl in
        let (b, eb) = to_decimal-total r hr in
        let (v, ev, hv) = compare_parsed-total op t l r a b h in
        elim (Bool-cases (is_unassessable l || is_unassessable r)) [
          | inl u ↦ (unassessable "comparand unassessable", rw (u) refl, refl)
          | inr u ↦ (v, rw (u, ea, eb) ev, hv)
        ]

    mutual
      unfolding evaluate tolerances_numeric readable values_of value_of

      evaluate-value :
          (n : AstNode d) (facts : FactBundle d)
          → tolerances_numeric n ≡ true
          → (ev : EvalNode d) × (evaluate d n facts ≡ ok ev) × (readable (value_of d ev) ≡ true)
      evaluate-value (lit v) facts h = (_, refl, lit_value-readable v)
      evaluate-value (money amount c) facts h = (_, refl, money_or-readable _ c _)
      evaluate-value (fact key) facts h = (_, refl, fact_value-readable key _)
      evaluate-value (require key inner) facts h =
          let (c, e, hc) = evaluate-value inner facts h in
          elim (Option-cases (present_fact d facts key)) [
            | inl a ↦ (
              leaf (require key inner) (unassessable (about d "required fact '" key "' absent")),
              rw (a) refl,
              refl,
            )
            | inr (v, a) ↦ (
              branch (require key inner) (value_of d c) (child c no_children),
              rw (a, e) refl,
              hc,
            )
          ]
      evaluate-value (arith_node op args) facts h =
          let (cs, e, hcs) = evaluate_all-values args facts h in
          let (v, ev, hv) = arith_value-total op (values_of d cs) hcs in
          (branch (arith_node op args) v cs, rw (e) (rw (ev) refl), hv)
      evaluate-value (compare_node op l r t) facts h =
          let (lv, el, hl) = evaluate-value l facts (ground arith) in
          let (rv, er, hr) = evaluate-value r facts (ground arith) in
          let (v, ev, hv) =
            compare_values-total op t (value_of d lv) (value_of d rv) (ground arith) hl hr in
          (
            branch (compare_node op l r t) v (child lv (child rv no_children)),
            rw (el, er) (rw (ev) refl),
            hv,
          )
      evaluate-value (logic op args) facts h =
          let (cs, e, hcs) = evaluate_all-values args facts h in
          (
            branch (logic op args) (logic_value op (values_of d cs)) cs,
            rw (e) refl,
            logic_value-readable op (values_of d cs),
          )

      evaluate_all-values :
          (ns : AstNodes d) (facts : FactBundle d)
          → all_tolerances_numeric ns ≡ true
          → (cs : EvalNodes d) × (evaluate_all d ns facts ≡ ok cs)
            × (all readable (values_of d cs) ≡ true)
      evaluate_all-values no_args facts h = (_, refl, refl)
      evaluate_all-values (arg n ns) facts h =
          let (c, e, hc) = evaluate-value n facts (ground arith) in
          let (cs, es, hcs) = evaluate_all-values ns facts (ground arith) in
          (child c cs, rw (e, es) refl, ground (arith, hc, hcs))

    -- A tree whose tolerances are numbers evaluates to a result on every fact bundle: the
    -- interpreter does not throw on missing or ill-typed data. Assumed: exact decimal arithmetic,
    -- that is, of all values nothing rounds and none is NaN or Infinity, and a printed value reads
    -- back; a fact that reads as NaN or Infinity is outside the statement.
    pub evaluate-total :
        (n : AstNode d) (facts : FactBundle d)
        → tolerances_numeric n ≡ true
        → (ev : EvalNode d) × (evaluate d n facts ≡ ok ev)
    evaluate-total n facts h = let (ev, e, hv) = evaluate-value n facts h in (ev, e)
