-- ===== src/Rubric/Tighten/Same.antt =====
-- Trees with the same canonical text evaluate to the same value.
use freight_auditor.Prelude.{
  String, ◌==◌, true, false, Option, none, some, List, ◌∷◌, Result, ok, ◌>>=◌, ◌≡◌, refl, ap, arith,
  inl, inr, Result-cases, Option-cases, bind_ok, sym, ◌∙◌, eq_iff,
}
use freight_auditor.Money.{Decimal}
use freight_auditor.RuleEngine.Ast.{
  ArithOp, add, sub, mul, div, abs, CompareOp, eq, ne, gt, gte, lt, lte, approx, LogicOp, and, or,
  not, LitValue, lit_number, lit_string, lit_bool, AstNode, lit, money, fact, arith_node,
  compare_node, logic, require, AstNodes, no_args, arg, FactBundle, FactValue, present_fact,
}
use freight_auditor.RuleEngine.Interpreter.{
  EvalValue, unassessable, value_of, values_of, lit_value, arith_name, logic_name, arith_value,
  compare_values, logic_value, about, evaluate, evaluate_all,
}
use freight_auditor.Rubric.Tighten.{compare_name, same_tolerance, same_lit, same_node, same_nodes}

arith_name_inj : (o p : ArithOp) → arith_name o == arith_name p ≡ true → o ≡ p
arith_name_inj add add h = refl
arith_name_inj sub sub h = refl
arith_name_inj mul mul h = refl
arith_name_inj div div h = refl
arith_name_inj abs abs h = refl
arith_name_inj _ _ h = absurd (ground (arith, h))

logic_name_inj : (o p : LogicOp) → logic_name o == logic_name p ≡ true → o ≡ p
logic_name_inj and and h = refl
logic_name_inj or or h = refl
logic_name_inj not not h = refl
logic_name_inj _ _ h = absurd (ground (arith, h))

pub compare_name_inj : (o p : CompareOp) → compare_name o == compare_name p ≡ true → o ≡ p
compare_name_inj eq eq h = refl
compare_name_inj ne ne h = refl
compare_name_inj gt gt h = refl
compare_name_inj gte gte h = refl
compare_name_inj lt lt h = refl
compare_name_inj lte lte h = refl
compare_name_inj approx approx h = refl
compare_name_inj _ _ h = absurd (ground (arith, h))

same_tolerance_eq : (t u : Option String) → same_tolerance t u ≡ true → t ≡ u
same_tolerance_eq none none h = refl
same_tolerance_eq (some s) (some t) h = ap some ((eq_iff s t).0 h)
same_tolerance_eq _ _ h = absurd (ground (arith, h))

module _ (d : Decimal) (facts : FactBundle d) where
  -- The value of a tree, and of a list of arguments.
  unfoldable pub outcome : AstNode d → Result String EvalValue
  outcome n = evaluate d n facts >>= λ ev. ok (value_of d ev)

  unfoldable pub outcomes : AstNodes d → Result String (List EvalValue)
  outcomes ns = evaluate_all d ns facts >>= λ cs. ok (values_of d cs)

  pub outcomes_arg :
      (n : AstNode d) (ns : AstNodes d)
      → outcomes (arg n ns) ≡ (outcome n >>= λ v. outcomes ns >>= λ vs. ok (v ∷ vs))
  unfolding outcome outcomes evaluate evaluate_all values_of
  outcomes_arg n ns = elim (Result-cases (evaluate d n facts)) [
    | inr (e, h) ↦ rw h refl
    | inl (c, h) ↦ elim (Result-cases (evaluate_all d ns facts)) [
      | inr (e, k) ↦ rw (h, k) refl
      | inl (cs, k) ↦ rw (h, k) refl
    ]
  ]

  outcome_arith :
      (op : ArithOp) (ns : AstNodes d)
      → outcome (arith_node op ns) ≡ (outcomes ns >>= λ vs. arith_value d op vs)
  unfolding outcome outcomes evaluate value_of
  outcome_arith op ns = elim (Result-cases (evaluate_all d ns facts)) [
    | inr (e, h) ↦ rw h refl
    | inl (cs, h) ↦ elim (Result-cases (arith_value d op (values_of d cs))) [
      | inr (e, k) ↦ rw (h, k) refl
      | inl (v, k) ↦ rw (h, k) refl
    ]
  ]

  pub outcome_logic :
      (op : LogicOp) (ns : AstNodes d)
      → outcome (logic op ns) ≡ (outcomes ns >>= λ vs. ok (logic_value op vs))
  unfolding outcome outcomes evaluate value_of
  outcome_logic op ns = elim (Result-cases (evaluate_all d ns facts)) [
    | inr (e, h) ↦ rw h refl
    | inl (cs, h) ↦ rw h refl
  ]

  outcome_compare :
      (op : CompareOp) (l r : AstNode d) (t : Option String)
      → outcome (compare_node op l r t)
        ≡ (outcome l >>= λ a. outcome r >>= λ b. compare_values d op t a b)
  unfolding outcome evaluate value_of
  outcome_compare op l r t = elim (Result-cases (evaluate d l facts)) [
    | inr (e, h) ↦ rw h refl
    | inl (a, h) ↦ elim (Result-cases (evaluate d r facts)) [
      | inr (e, k) ↦ rw (h, k) refl
      | inl (b, k) ↦ elim (Result-cases (compare_values d op t (value_of d a) (value_of d b))) [
        | inr (e, i) ↦ rw (h, k, i) refl
        | inl (v, i) ↦ rw (h, k, i) refl
      ]
    ]
  ]

  pub compare-outcome :
      (op : CompareOp) (l r : AstNode d) (t : Option String) (v w : EvalValue)
      → outcome l ≡ ok v
      → outcome r ≡ ok w
      → outcome (compare_node op l r t) ≡ compare_values d op t v w
  compare-outcome op l r t v w e f =
      outcome_compare op l r t ∙ (λ i. e i >>= λ a. f i >>= λ b. compare_values d op t a b)

  -- The values of the sides of a comparison that has one.
  pub compare-sides :
      (op : CompareOp) (l r : AstNode d) (t : Option String) {x : EvalValue}
      → outcome (compare_node op l r t) ≡ ok x
      → (v w : EvalValue) × (outcome l ≡ ok v)
        × (outcome r ≡ ok w)
        × (compare_values d op t v w ≡ ok x)
  compare-sides op l r t h =
      let (v, e, h₁) = bind_ok (outcome l) _ (sym (outcome_compare op l r t) ∙ h) in
      let (w, f, h₂) = bind_ok (outcome r) _ h₁ in (v, w, e, f, h₂)

  abbrev demanded :
      String → Option (FactValue d) → Result String EvalValue → Result String EvalValue
  demanded key none under = ok (unassessable (about d "required fact '" key "' absent"))
  demanded key (some v) under = under

  outcome_require :
      (key : String) (n : AstNode d)
      → outcome (require key n) ≡ demanded key (present_fact d facts key) (outcome n)
  unfolding outcome evaluate value_of
  outcome_require key n = elim (Option-cases (present_fact d facts key)) [
    | inl h ↦ rw h refl
    | inr (v, h) ↦ elim (Result-cases (evaluate d n facts)) [
      | inr (e, k) ↦ rw (h, k) refl
      | inl (c, k) ↦ rw (h, k) refl
    ]
  ]

  -- JSON.stringify prints one text of two numbers only if they are one decimal, or neither is finite.
  module _ (number_text : d.Number → String)
      (same_number : (m n : d.Number)
        → number_text m ≡ number_text n
        → lit_value d (lit_number m) ≡ lit_value d (lit_number n)) where
    same_lit-value :
        (v w : LitValue d) → same_lit d number_text v w ≡ true → lit_value d v ≡ lit_value d w
    unfolding same_lit
    same_lit-value (lit_number m) (lit_number n) h =
        same_number m n ((eq_iff (number_text m) (number_text n)).0 h)
    same_lit-value (lit_string s) (lit_string t) h =
        ap (λ x. lit_value d (lit_string x)) ((eq_iff s t).0 h)
    same_lit-value (lit_bool true) (lit_bool true) h = refl
    same_lit-value (lit_bool false) (lit_bool false) h = refl
    same_lit-value _ _ h = absurd (ground (arith, h))

    mutual
      unfolding same_node same_nodes outcome evaluate value_of

      pub same_node-outcome :
          (a b : AstNode d) → same_node d number_text a b ≡ true → outcome a ≡ outcome b
      same_node-outcome (lit v) (lit w) h = ap ok (same_lit-value v w h)
      same_node-outcome (money a c) (money b e) h =
          let amount = (eq_iff a b).0 (ground (arith, h)) in
          let currency = (eq_iff c e).0 (ground (arith, h)) in rw (amount, currency) refl
      same_node-outcome (fact k) (fact j) h = ap (λ x. outcome (fact x)) ((eq_iff k j).0 h)
      same_node-outcome (require k m) (require j n) h =
          let below = same_node-outcome m n (ground (arith, h)) in
          let key = (eq_iff k j).0 (ground (arith, h)) in
          rw (outcome_require k m, outcome_require j n, below, key) refl
      same_node-outcome (arith_node o ms) (arith_node p ns) h =
          let below = same_nodes-outcomes ms ns (ground (arith, h)) in
          rw (outcome_arith o ms, outcome_arith p ns, below, arith_name_inj o p (ground (arith, h)))
            refl
      same_node-outcome (compare_node o l r t) (compare_node p m n u) h =
          let left = same_node-outcome l m (ground (arith, h)) in
          let right = same_node-outcome r n (ground (arith, h)) in
          rw
            (
              outcome_compare o l r t,
              outcome_compare p m n u,
              left,
              right,
              compare_name_inj o p (ground (arith, h)),
              same_tolerance_eq t u (ground (arith, h)),
            )
            refl
      same_node-outcome (logic o ms) (logic p ns) h =
          let below = same_nodes-outcomes ms ns (ground (arith, h)) in
          rw (outcome_logic o ms, outcome_logic p ns, below, logic_name_inj o p (ground (arith, h)))
            refl
      same_node-outcome _ _ h = absurd (ground (arith, h))

      pub same_nodes-outcomes :
          (ms ns : AstNodes d) → same_nodes d number_text ms ns ≡ true → outcomes ms ≡ outcomes ns
      same_nodes-outcomes no_args no_args h = refl
      same_nodes-outcomes (arg a ms) (arg b ns) h =
          let here = same_node-outcome a b (ground (arith, h)) in
          let rest = same_nodes-outcomes ms ns (ground (arith, h)) in
          rw (outcomes_arg a ms, outcomes_arg b ns, here, rest) refl
      same_nodes-outcomes _ _ h = absurd (ground (arith, h))
