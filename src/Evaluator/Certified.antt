-- ===== src/Evaluator/Certified.antt =====
-- What a clean gate of the STANDARD rubric certifies of the invoice.
use freight_auditor.Prelude.{
  String, ◌==◌, Bool, true, Option, none, some, List, [], ◌∷◌, all, length, All, ok, ◌≡◌, ◌≢◌, inl,
  inr, refl, ap, ◌∙◌, subst, arith, eq_iff, Bool-cases, Option-cases,
}
use freight_auditor.Prelude.{not as bool_not}
use freight_auditor.Money.{Decimal, IsExact}
use freight_auditor.RuleEngine.Ast.{
  gt, lit_number, AstNode, lit, fact, compare_node, number_fact, bool_fact, money_fact, FactBundle,
  fact_of, if_present, present_fact,
}
use freight_auditor.RuleEngine.Interpreter.{
  is_unassessable, pass, EvalNode, value_of, safe_decimal_of_number, lit_value, fact_value,
  to_decimal, compare_decimals, compare_parsed, compare_values, evaluate, verdict,
}
use freight_auditor.Rubric.Standard.{
  gating, StandardCriterion, ComposedRubric, footing_ast, standard_gates, standard_rubric,
}
use freight_auditor.Evaluator.Invoice.{NormalizedCharge, ocean_310, ParsedInvoice}
use freight_auditor.Evaluator.FactBundle.{
  is_stated, or_empty, is_set, line_sum_of, declared_of, base_facts,
}
use freight_auditor.Evaluator.StandardGates.{plain_bundle, flag-true, WithinCent, footing-pass}
use freight_auditor.Evaluator.Gates.{Passes}
use freight_auditor.Evaluator.Outcome.{evaluate_invoice-gates}
use freight_auditor.Evaluator.Evaluate.{scored, is_kind, AuditResult, evaluate_invoice}

all_stated :
    (cs : List NormalizedCharge)
    → all (λ (c : NormalizedCharge). is_stated c.amount) cs ≡ true
    → All (λ (c : NormalizedCharge). c.amount ≢ none) cs
all_stated [] h = tt
all_stated (c ∷ cs) h = (ground arith, all_stated cs (ground arith))

all_nonempty :
    (cs : List NormalizedCharge)
    → all (λ (c : NormalizedCharge). bool_not (c.currency == "")) cs ≡ true
    → All (λ (c : NormalizedCharge). c.currency ≢ "") cs
all_nonempty [] h = tt
all_nonempty (c ∷ cs) h = (ground (arith, eq_iff c.currency ""), all_nonempty cs (ground arith))

module _ (d : Decimal) (fact_key : String → String) (locale_le : String → String → Bool) where
  -- Zero charges are not more than zero.
  none-fails :
      (exact : IsExact d) (facts : FactBundle d) (ev : EvalNode d)
      → present_fact d facts "charge_count" ≡ some (number_fact (d.of_count 0))
      → evaluate d
          (compare_node gt (fact "charge_count") (lit (lit_number (d.of_count 0))) none)
          facts
        ≡ ok ev
      → verdict d ev ≢ pass
  unfolding evaluate fact_value lit_value compare_values to_decimal is_unassessable compare_parsed
      compare_decimals verdict value_of
  none-fails exact facts ev p e v = elim (Option-cases (safe_decimal_of_number d (d.of_count 0))) [
    | inl n ↦ ground (arith, p, n)
    | inr (x, n) ↦
        ground (arith, p, n, exact.new_decimal-to_string x, exact.gt_lem x x, exact.lte_refl x)
  ]

  module _ (inv : ParsedInvoice) (line_sum : d.D) (matches : Option Bool) where
    abbrev plain : FactBundle d
    plain = base_facts d fact_key locale_le inv none line_sum matches

    flag_currencies :
        present_fact d plain "all_currencies_stated"
        ≡ some (bool_fact (all (λ (c : NormalizedCharge). bool_not (c.currency == "")) inv.charges))
    unfolding base_facts present_fact fact_of if_present
    flag_currencies = elim (Option-cases (declared_of d fact_key locale_le inv.footing)) [
      | inl e ↦ rw (e) refl
      | inr (t, e) ↦ rw (e) refl
    ]

    amounts_flag :
        present_fact d plain "all_amounts_stated"
        ≡ some (bool_fact (all (λ (c : NormalizedCharge). is_stated c.amount) inv.charges))
    unfolding base_facts present_fact fact_of if_present
    amounts_flag = elim (Option-cases (declared_of d fact_key locale_le inv.footing)) [
      | inl e ↦ rw (e) refl
      | inr (t, e) ↦ rw (e) refl
    ]

    charge_count :
        present_fact d plain "charge_count" ≡ some (number_fact (d.of_count (length inv.charges)))
    unfolding base_facts present_fact fact_of if_present
    charge_count = elim (Option-cases (declared_of d fact_key locale_le inv.footing)) [
      | inl e ↦ rw (e) refl
      | inr (t, e) ↦ rw (e) refl
    ]

    line_sum_fact :
        present_fact d plain "line_sum"
        ≡ some (money_fact (d.to_fixed line_sum) (or_empty inv.header_currency))
    unfolding base_facts present_fact fact_of if_present
    line_sum_fact = elim (Option-cases (declared_of d fact_key locale_le inv.footing)) [
      | inl e ↦ rw (e) refl
      | inr (t, e) ↦ rw (e) refl
    ]

    declared_fact :
        (t : String)
        → declared_of d fact_key locale_le inv.footing ≡ some t
        → present_fact d plain "declared_total" ≡ some (money_fact t (or_empty inv.header_currency))
    unfolding base_facts present_fact fact_of if_present
    declared_fact t e = rw (e) refl

    undeclared :
        declared_of d fact_key locale_le inv.footing ≡ none
        → present_fact d plain "declared_total" ≡ none
    unfolding base_facts present_fact fact_of if_present
    undeclared e = elim (Bool-cases (bool_not (is_set inv.transaction_set ocean_310))) [
      | inl o ↦ elim (Option-cases matches) [
        | inl n ↦ rw (e, n, o) refl
        | inr (b, n) ↦ rw (e, n, o) refl
      ]
      | inr o ↦ elim (Option-cases matches) [
        | inl n ↦ rw (e, n, o) refl
        | inr (b, n) ↦ rw (e, n, o) refl
      ]
    ]

  undeclared-fails :
      (facts : FactBundle d) (ev : EvalNode d)
      → present_fact d facts "declared_total" ≡ none
      → evaluate d (footing_ast d) facts ≡ ok ev
      → verdict d ev ≢ pass
  unfolding evaluate verdict value_of
  undeclared-fails facts ev p e v = ground (arith, p)

  -- The four certificates: the declared total, which is stated, is within a cent of the line sum, there
  -- is a charge, and every charge states its currency and its amount.
  unfoldable pub Certified : ParsedInvoice → Type 0
  Certified inv =
      ((t : String) × (x : d.D) × (y : d.D) × (declared_of d fact_key locale_le inv.footing
          ≡ some t)
        × (d.new_decimal t ≡ some x)
        × (d.new_decimal (line_sum_of d fact_key locale_le inv.footing) ≡ some y)
        × WithinCent d fact_key locale_le (d.round4 x) (d.round4 (d.round4 y)))
      × (inv.charges ≢ [])
      × All (λ (c : NormalizedCharge). c.currency ≢ "") inv.charges
      × All (λ (c : NormalizedCharge). c.amount ≢ none) inv.charges

  abbrev Gate : FactBundle d → AstNode d → Type 0
  Gate facts ast = (ev : EvalNode d) × (evaluate d ast facts ≡ ok ev) × (verdict d ev ≡ pass)

  footing-Certified :
      (exact : IsExact d) (inv : ParsedInvoice) (l : d.D) (m : Option Bool)
      → d.new_decimal (line_sum_of d fact_key locale_le inv.footing) ≡ some l
      → Gate (plain inv l m) (footing_ast d)
      → (t : String) × (x : d.D) × (y : d.D) × (declared_of d fact_key locale_le inv.footing
          ≡ some t)
        × (d.new_decimal t ≡ some x)
        × (d.new_decimal (line_sum_of d fact_key locale_le inv.footing) ≡ some y)
        × WithinCent d fact_key locale_le (d.round4 x) (d.round4 (d.round4 y))
  footing-Certified exact inv l m summed g =
      elim (Option-cases (declared_of d fact_key locale_le inv.footing)) [
        | inl n ↦ absurd (undeclared-fails _ g.0 (undeclared inv l m n) g.1 g.2)
        | inr (t, e) ↦
            let (x, y, ex, ey, close) =
              footing-pass d fact_key locale_le exact _ t _ _ _ g.0 (declared_fact inv l m t e)
                (line_sum_fact inv l m) g.1 g.2 in
            let printed : y ≡ d.round4 l = ground (arith, ey, exact.new_decimal-to_fixed l) in
            (
              t,
              x,
              l,
              e,
              ex,
              summed,
              subst (λ z. WithinCent d fact_key locale_le (d.round4 x) (d.round4 z)) printed close,
            )
      ]

  charges-Certified :
      (exact : IsExact d) (inv : ParsedInvoice) (l : d.D) (m : Option Bool)
      → Gate
          (plain inv l m)
          (compare_node gt (fact "charge_count") (lit (lit_number (d.of_count 0))) none)
      → inv.charges ≢ []
  charges-Certified exact inv l m g e =
      none-fails exact (plain inv l m) g.0
        (charge_count inv l m ∙ ap (λ cs. some (number_fact (d.of_count (length cs)))) e) g.1 g.2

  Passes-Certified :
      (exact : IsExact d) (inv : ParsedInvoice) (l : d.D) (m : Option Bool)
      → d.new_decimal (line_sum_of d fact_key locale_le inv.footing) ≡ some l
      → All
          (λ (c : StandardCriterion d). is_kind c.kind gating ≡ true → Passes d (plain inv l m) c)
          (standard_rubric d).criteria
      → Certified inv
  unfolding standard_rubric standard_gates Passes Certified
  Passes-Certified exact inv l m summed h =
      let footing = (h.0) refl in
      let currencies = (h.1.0) refl in
      let amounts = (h.1.1.0) refl in
      let count = (h.1.1.1.0) refl in
      (
        footing-Certified exact inv l m summed footing,
        charges-Certified exact inv l m count,
        all_nonempty inv.charges (
            flag-true d fact_key locale_le _ _ _ currencies.0 (flag_currencies inv l m) currencies.1
              currencies.2),
        all_stated inv.charges (
            flag-true d fact_key locale_le _ _ _ amounts.0 (amounts_flag inv l m) amounts.1
              amounts.2),
      )

  -- An invoice that a STANDARD audit without a contract scores states a total within one cent of
  -- its line sum, as the interpreter rounds them; it has a charge, and every charge of it states a
  -- currency and an amount. Assumed: exact decimal arithmetic, that is, of all values nothing
  -- rounds and none is NaN or Infinity, and a printed value reads back.
  pub standard_audit-certifies :
      (rubric_content_hash : ComposedRubric d → String) (exact : IsExact d) (inv : ParsedInvoice)
      (r : AuditResult d)
      → evaluate_invoice d fact_key locale_le rubric_content_hash inv (standard_rubric d) none
        ≡ ok r
      → r.outcome ≡ scored
      → Certified inv
  standard_audit-certifies rubric_content_hash exact inv r h o =
      let (facts, built, clean) =
        evaluate_invoice-gates d fact_key locale_le rubric_content_hash inv (standard_rubric d) none
          r h in
      let b = plain_bundle d fact_key locale_le inv facts built in
      Passes-Certified exact inv b.line_sum b.matches b.summed (
        subst
          (λ (f : FactBundle d).
            All (λ (c : StandardCriterion d). is_kind c.kind gating ≡ true → Passes d f c)
              (standard_rubric d).criteria)
          b.built (clean.0 o))
