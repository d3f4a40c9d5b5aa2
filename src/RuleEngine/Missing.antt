-- ===== src/RuleEngine/Missing.antt =====
-- A predicate that needs an absent fact is never passed nor failed.
use freight_auditor.Prelude.{
  String, Bool, true, false, ◌||◌, Option, none, some, List, [], ◌∷◌, any, Result, ok, err, ◌>>=◌,
  ◌≡◌, refl, subst, ◌⊎◌, arith, Option-cases, inl, inr,
}
use freight_auditor.Money.{Decimal, IsExact}
use freight_auditor.RuleEngine.Ast.{
  ArithOp, CompareOp, LogicOp, and, or, not, AstNode, lit, money, fact, arith_node, compare_node,
  logic, require, AstNodes, no_args, arg, FactValue, FactBundle, present_fact,
}
use freight_auditor.RuleEngine.Interpreter.{
  EvalValue, number, money_value, bool, string, unassessable, is_unassessable, cannot_assess,
  bools_of, logic_value, EvalNode, leaf, branch, EvalNodes, no_children, child, value_of, values_of,
  fact_value, arith_value, compare_values, required, evaluate, evaluate_all, verdict,
}
use freight_auditor.RuleEngine.Totality.{tolerances_numeric, evaluate-total}

module _ (d : Decimal) where
  abbrev pub absent : FactBundle d → String → Bool
  absent facts key = elim (present_fact d facts key) [ none ↦ true | some v ↦ false ]

  unfoldable mutual
    -- A fact that the value of the tree rests on is absent; `not` looks at its first argument only.
    pub lacks_fact : FactBundle d → AstNode d → Bool
    lacks_fact facts (lit v) = false
    lacks_fact facts (money amount currency) = false
    lacks_fact facts (fact key) = absent facts key
    lacks_fact facts (require key inner) = absent facts key || lacks_fact facts inner
    lacks_fact facts (arith_node op args) = lacks_any facts args
    lacks_fact facts (compare_node op l r t) = lacks_fact facts l || lacks_fact facts r
    lacks_fact facts (logic not args) = lacks_first facts args
    lacks_fact facts (logic op args) = lacks_any facts args

    pub lacks_any : FactBundle d → AstNodes d → Bool
    lacks_any facts no_args = false
    lacks_any facts (arg n ns) = lacks_fact facts n || lacks_any facts ns

    pub lacks_first : FactBundle d → AstNodes d → Bool
    lacks_first facts no_args = false
    lacks_first facts (arg n ns) = lacks_fact facts n

  -- A result that throws, or whose value is `unassessable`.
  abbrev Blocked : Result String (EvalNode d) → Type 0
  Blocked (ok ev) = is_unassessable (value_of d ev) ≡ true
  Blocked (err e) = Unit

  abbrev BlockedAll : Result String (EvalNodes d) → Type 0
  BlockedAll (ok cs) = any is_unassessable (values_of d cs) ≡ true
  BlockedAll (err e) = Unit

  abbrev BlockedFirst : Result String (EvalNodes d) → Type 0
  BlockedFirst (ok no_children) = is_unassessable (unassessable "") ≡ true
  BlockedFirst (ok (child c cs)) = is_unassessable (value_of d c) ≡ true
  BlockedFirst (err e) = Unit

  bools_of-none : (vs : List EvalValue) → any is_unassessable vs ≡ true → bools_of vs ≡ none
  unfolding bools_of is_unassessable
  bools_of-none [] h = absurd (ground arith)
  bools_of-none (bool b ∷ vs) h = rw (bools_of-none vs h) refl
  bools_of-none (number s ∷ vs) h = refl
  bools_of-none (money_value a c ∷ vs) h = refl
  bools_of-none (string s ∷ vs) h = refl
  bools_of-none (unassessable s ∷ vs) h = refl

  and-blocked :
      (vs : List EvalValue)
      → any is_unassessable vs ≡ true
      → is_unassessable (logic_value and vs) ≡ true
  unfolding logic_value is_unassessable
  and-blocked vs h = rw (bools_of-none vs h, is_unassessable) refl

  or-blocked :
      (vs : List EvalValue)
      → any is_unassessable vs ≡ true
      → is_unassessable (logic_value or vs) ≡ true
  unfolding logic_value is_unassessable
  or-blocked vs h = rw (bools_of-none vs h, is_unassessable) refl

  arith-blocked :
      (op : ArithOp) (vs : List EvalValue)
      → any is_unassessable vs ≡ true
      → arith_value d op vs ≡ ok (unassessable "operand unassessable")
  unfolding arith_value
  arith-blocked op vs h = rw (h) refl

  compare-blocked :
      (op : CompareOp) (t : Option String) (l r : EvalValue)
      → is_unassessable l || is_unassessable r ≡ true
      → compare_values d op t l r ≡ ok (unassessable "comparand unassessable")
  unfolding compare_values
  compare-blocked op t l r h = rw (h) refl

  not-Blocked :
      (r : Result String (EvalNodes d)) (args : AstNodes d)
      → BlockedFirst r
      → Blocked (r >>= λ cs. ok (branch (logic not args) (logic_value not (values_of d cs)) cs))
  unfolding logic_value is_unassessable values_of value_of
  not-Blocked (ok no_children) args h = refl
  not-Blocked (ok (child (leaf n (bool b)) cs)) args h = absurd (ground arith)
  not-Blocked (ok (child (branch n (bool b) ks) cs)) args h = absurd (ground arith)
  not-Blocked (ok (child c cs)) args h = ground arith
  not-Blocked (err e) args h = tt

  all-Blocked :
      (op : LogicOp) (r : Result String (EvalNodes d)) (args : AstNodes d)
      → ((vs : List EvalValue)
          → any is_unassessable vs ≡ true
          → is_unassessable (logic_value op vs) ≡ true)
      → BlockedAll r
      → Blocked (r >>= λ cs. ok (branch (logic op args) (logic_value op (values_of d cs)) cs))
  unfolding value_of
  all-Blocked op (ok cs) args step h = step (values_of d cs) h
  all-Blocked op (err e) args step h = tt

  arith-step :
      (op : ArithOp) (r : Result String (EvalNodes d)) (args : AstNodes d)
      → BlockedAll r
      → Blocked (
          r >>= λ cs.
          arith_value d op (values_of d cs) >>= λ v. ok (branch (arith_node op args) v cs))
  unfolding value_of is_unassessable
  arith-step op (ok cs) args h = rw (arith-blocked op (values_of d cs) h) refl
  arith-step op (err e) args h = tt

  compare-step :
      (op : CompareOp) (t : Option String) (l r : AstNode d) (a b : Result String (EvalNode d))
      → Blocked a ⊎ Blocked b
      → Blocked (
          a >>= λ x. b >>= λ y. compare_values d op t (value_of d x) (value_of d y) >>= λ v.
          ok (branch (compare_node op l r t) v (child x (child y no_children))))
  unfolding value_of is_unassessable
  compare-step op t l r (ok x) (ok y) (inl h) =
      rw (compare-blocked op t (value_of d x) (value_of d y) (ground (arith, h))) refl
  compare-step op t l r (ok x) (ok y) (inr h) =
      rw (compare-blocked op t (value_of d x) (value_of d y) (ground (arith, h))) refl
  compare-step op t l r (ok x) (err e) h = tt
  compare-step op t l r (err e) b h = tt

  list-step :
      (a : Result String (EvalNode d)) (b : Result String (EvalNodes d))
      → Blocked a ⊎ BlockedAll b
      → BlockedAll (a >>= λ c. b >>= λ cs. ok (child c cs))
  unfolding values_of
  list-step (ok x) (ok cs) (inl h) = ground (arith, h)
  list-step (ok x) (ok cs) (inr h) = ground (arith, h)
  list-step (ok x) (err e) h = tt
  list-step (err e) b h = tt

  first-step :
      (a : Result String (EvalNode d)) (b : Result String (EvalNodes d))
      → Blocked a
      → BlockedFirst (a >>= λ c. b >>= λ cs. ok (child c cs))
  first-step (ok x) (ok cs) h = h
  first-step (ok x) (err e) h = tt
  first-step (err e) b h = tt

  required-step :
      (key : String) (inner : AstNode d) (v : Option (FactValue d))
      (under : Result String (EvalNode d))
      → (v ≡ none) ⊎ Blocked under
      → Blocked (required d key inner v under)
  unfolding value_of is_unassessable
  required-step key inner none under h = refl
  required-step key inner (some v) under (inl h) = absurd (ground arith)
  required-step key inner (some v) (ok c) (inr h) = h
  required-step key inner (some v) (err e) (inr h) = tt

  absent_lem :
      (facts : FactBundle d) (key : String)
      → absent facts key ≡ true
      → present_fact d facts key ≡ none
  absent_lem facts key h = ground (arith, Option-cases (present_fact d facts key))

  or-cases : (a b : Bool) → a || b ≡ true → (a ≡ true) ⊎ (b ≡ true)
  or-cases true b h = inl refl
  or-cases false b h = inr h

  verdict-blocked :
      (ev : EvalNode d) → is_unassessable (value_of d ev) ≡ true → verdict d ev ≡ cannot_assess
  unfolding verdict is_unassessable
  verdict-blocked ev h = ground arith

  mutual
    unfolding evaluate lacks_fact fact_value value_of is_unassessable

    evaluate-Blocked :
        (n : AstNode d) (facts : FactBundle d)
        → lacks_fact facts n ≡ true
        → Blocked (evaluate d n facts)
    evaluate-Blocked (lit v) facts h = absurd (ground arith)
    evaluate-Blocked (money amount c) facts h = absurd (ground arith)
    evaluate-Blocked (fact key) facts h = rw (absent_lem facts key h) refl
    evaluate-Blocked (require key inner) facts h =
        required-step key inner _ _ (elim (or-cases (absent facts key) (lacks_fact facts inner) h) [
          | inl a ↦ inl (absent_lem facts key a)
          | inr l ↦ inr (evaluate-Blocked inner facts l)
        ])
    evaluate-Blocked (arith_node op args) facts h =
        arith-step op _ args (evaluate_all-BlockedAll args facts h)
    evaluate-Blocked (compare_node op l r t) facts h =
        compare-step op t l r _ _ (elim (or-cases (lacks_fact facts l) (lacks_fact facts r) h) [
          | inl a ↦ inl (evaluate-Blocked l facts a)
          | inr a ↦ inr (evaluate-Blocked r facts a)
        ])
    evaluate-Blocked (logic not args) facts h =
        not-Blocked _ args (evaluate_first-BlockedFirst args facts h)
    evaluate-Blocked (logic and args) facts h =
        all-Blocked and _ args and-blocked (evaluate_all-BlockedAll args facts h)
    evaluate-Blocked (logic or args) facts h =
        all-Blocked or _ args or-blocked (evaluate_all-BlockedAll args facts h)

    evaluate_all-BlockedAll :
        (ns : AstNodes d) (facts : FactBundle d)
        → lacks_any facts ns ≡ true
        → BlockedAll (evaluate_all d ns facts)
    evaluate_all-BlockedAll no_args facts h = absurd (ground arith)
    evaluate_all-BlockedAll (arg n ns) facts h =
        list-step _ _ (elim (or-cases (lacks_fact facts n) (lacks_any facts ns) h) [
          | inl a ↦ inl (evaluate-Blocked n facts a)
          | inr a ↦ inr (evaluate_all-BlockedAll ns facts a)
        ])

    evaluate_first-BlockedFirst :
        (ns : AstNodes d) (facts : FactBundle d)
        → lacks_first facts ns ≡ true
        → BlockedFirst (evaluate_all d ns facts)
    evaluate_first-BlockedFirst no_args facts h = absurd (ground arith)
    evaluate_first-BlockedFirst (arg n ns) facts h = first-step _ _ (evaluate-Blocked n facts h)

  -- When a fact that the tree needs is absent from the bundle, or present as the empty text, the
  -- tree still evaluates to a result and the verdict is neither a pass nor a failure, wherever in
  -- the tree the fact stands. Assumed: exact decimal arithmetic, that is, of all values nothing
  -- rounds and none is NaN or Infinity, and a printed value reads back; the tolerances of the tree
  -- are numbers.
  pub evaluate-missing_fact :
      (exact : IsExact d) (n : AstNode d) (facts : FactBundle d)
      → tolerances_numeric d n ≡ true
      → lacks_fact facts n ≡ true
      → (ev : EvalNode d) × (evaluate d n facts ≡ ok ev) × (verdict d ev ≡ cannot_assess)
  evaluate-missing_fact exact n facts numeric h =
      let (ev, e) = evaluate-total d exact n facts numeric in
      (ev, e, verdict-blocked ev (subst Blocked e (evaluate-Blocked n facts h)))
