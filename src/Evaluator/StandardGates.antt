-- ===== src/Evaluator/StandardGates.antt =====
-- What a clean gate of the STANDARD rubric certifies of the invoice itself.
use freight_auditor.Prelude.{
  String, Bool, true, false, Option, none, some, ok, ◌≡◌, ◌⊎◌, inl, inr, refl, arith, Bool-cases,
  Option-cases, Result-cases,
}
use freight_auditor.Money.{Decimal, IsExact}
use freight_auditor.RuleEngine.Ast.{approx, bool_fact, money_fact, FactBundle, present_fact}
use freight_auditor.RuleEngine.Interpreter.{
  money_value, bool, is_unassessable, pass, value_scalar, same_scalar, EvalNode, value_of,
  safe_decimal, lit_value, fact_value, to_decimal, compare_scalars, compare_decimals,
  compare_parsed, compare_values, evaluate, verdict,
}
use freight_auditor.Rubric.Standard.{is_true, footing_ast}
use freight_auditor.Evaluator.Invoice.{ParsedInvoice}
use freight_auditor.Evaluator.FactBundle.{
  rate_basis_arithmetic_matches, line_sum_of, base_facts, linehaul_facts, build_fact_bundle,
}

module _ (d : Decimal) (fact_key : String → String) (locale_le : String → String → Bool) where
  -- The bundle of an invoice without a contract.
  pub record PlainBundle (inv : ParsedInvoice) (facts : FactBundle d) : Type 0 where
    pub line_sum : d.D
    pub matches : Option Bool
    pub summed : d.new_decimal (line_sum_of d fact_key locale_le inv.footing) ≡ some line_sum
    pub built : facts ≡ base_facts d fact_key locale_le inv none line_sum matches

  pub plain_bundle :
      (inv : ParsedInvoice) (facts : FactBundle d)
      → build_fact_bundle d fact_key locale_le inv none ≡ ok facts
      → PlainBundle inv facts
  unfolding build_fact_bundle linehaul_facts
  plain_bundle inv facts h =
      elim (Result-cases (rate_basis_arithmetic_matches d fact_key locale_le inv.charges)) [
        | inr (e, n) ↦ absurd (ground arith)
        | inl (m, em) ↦
            elim (Option-cases (d.new_decimal (line_sum_of d fact_key locale_le inv.footing))) [
              | inl n ↦ absurd (ground arith)
              | inr (l, el) ↦ record {
                line_sum = l;
                matches = m;
                summed = el;
                built = ground arith;
              }
            ]
      ]

  -- A flag that the bundle holds, tested for true.
  pub flag-true :
      (facts : FactBundle d) (key : String) (b : Bool) (ev : EvalNode d)
      → present_fact d facts key ≡ some (bool_fact b)
      → evaluate d (is_true d key) facts ≡ ok ev
      → verdict d ev ≡ pass
      → b ≡ true
  unfolding evaluate fact_value lit_value compare_values to_decimal is_unassessable compare_parsed
      compare_scalars value_scalar same_scalar verdict value_of
  flag-true facts key true ev p e v = refl
  flag-true facts key false ev p e v = absurd (ground (arith, p))

  -- A money fact as the interpreter reads it.
  money-cases :
      (key t k : String)
      → is_unassessable (fact_value d key (some (money_fact t k))) ≡ true
        ⊎ ((x : d.D) × (d.new_decimal t ≡ some x)
            × (fact_value d key (some (money_fact t k)) ≡ money_value (d.to_fixed x) k))
  unfolding fact_value safe_decimal is_unassessable
  money-cases key t k = elim (Option-cases (d.new_decimal t)) [
    | inl n ↦ inl (rw (n) refl)
    | inr (x, e) ↦ elim (Bool-cases (d.is_finite x)) [
      | inl f ↦ inr (x, e, rw (e) (rw (f) refl))
      | inr f ↦ inl (rw (e) (rw (f) refl))
    ]
  ]

  -- Two amounts within a tolerance of one cent.
  unfoldable pub WithinCent : d.D → d.D → Type 0
  WithinCent x y =
      (cent : d.D) × (d.new_decimal "0.01" ≡ some cent) × (d.lte (d.abs (d.minus x y)) cent ≡ true)

  approx-pass :
      (exact : IsExact d) (x y : d.D) (k l : String)
      → compare_values d approx
          (some "0.01")
          (money_value (d.to_fixed x) k)
          (money_value (d.to_fixed y) l)
        ≡ ok (bool true)
      → WithinCent (d.round4 x) (d.round4 y)
  unfolding compare_values to_decimal is_unassessable compare_parsed compare_decimals WithinCent
  approx-pass exact x y k l h = elim (Option-cases (d.new_decimal "0.01")) [
    | inl n ↦ absurd (ground (arith, exact.new_decimal-to_fixed x, exact.new_decimal-to_fixed y))
    | inr (cent, e) ↦
        (cent, e, ground (arith, exact.new_decimal-to_fixed x, exact.new_decimal-to_fixed y))
  ]

  footing-compared :
      (facts : FactBundle d) (t s k l : String) (ev : EvalNode d)
      → present_fact d facts "declared_total" ≡ some (money_fact t k)
      → present_fact d facts "line_sum" ≡ some (money_fact s l)
      → evaluate d (footing_ast d) facts ≡ ok ev
      → verdict d ev ≡ pass
      → compare_values d approx
          (some "0.01")
          (fact_value d "declared_total" (some (money_fact t k)))
          (fact_value d "line_sum" (some (money_fact s l)))
        ≡ ok (bool true)
  unfolding evaluate verdict value_of
  footing-compared facts t s k l ev p q e v =
      elim (Result-cases (
        compare_values d approx (some "0.01")
          (fact_value d "declared_total" (some (money_fact t k)))
          (fact_value d "line_sum" (some (money_fact s l))))) [
            | inr (x, n) ↦ absurd (ground (arith, p, q))
            | inl (w, c) ↦ ground (arith, p, q)
          ]

  pub footing-pass :
      (exact : IsExact d) (facts : FactBundle d) (t s k l : String) (ev : EvalNode d)
      → present_fact d facts "declared_total" ≡ some (money_fact t k)
      → present_fact d facts "line_sum" ≡ some (money_fact s l)
      → evaluate d (footing_ast d) facts ≡ ok ev
      → verdict d ev ≡ pass
      → (x : d.D) × (y : d.D) × (d.new_decimal t ≡ some x)
        × (d.new_decimal s ≡ some y)
        × WithinCent (d.round4 x) (d.round4 y)
  unfolding compare_values is_unassessable
  footing-pass exact facts t s k l ev p q e v =
      let compared = footing-compared facts t s k l ev p q e v in
      elim (money-cases "declared_total" t k) [
        | inl u ↦ absurd (ground (arith, u, compared))
        | inr (x, ex, vx) ↦ elim (money-cases "line_sum" s l) [
          | inl u ↦ absurd (ground (arith, u, compared))
          | inr (y, ey, vy) ↦ (x, y, ex, ey, approx-pass exact x y k l (rw (vx, vy) at compared))
        ]
      ]
