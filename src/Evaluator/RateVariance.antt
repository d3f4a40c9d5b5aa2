-- ===== src/Evaluator/RateVariance.antt =====
-- The CONTRACT rate criterion compares amounts of one currency only.
use freight_auditor.Prelude.{
  String, ◌==◌, Bool, true, false, ◌||◌, Option, none, some, List, [], ◌∷◌, all, All, ok, ◌≡◌, ◌≢◌,
  inl, inr, subst, arith, eq_iff, Bool-cases, Result-cases, sort_by,
}
use freight_auditor.Money.{Decimal, IsExact}
use freight_auditor.RuleEngine.Interpreter.{cannot_assess, EvalNode, evaluate, verdict}
use freight_auditor.RuleEngine.Totality.{is_some, tolerances_numeric}
use freight_auditor.RuleEngine.Ast.{FactValue, FactBundle, fact_of, if_present, present_fact}
use freight_auditor.RuleEngine.Missing.{absent, lacks_fact, evaluate-missing_fact}
use freight_auditor.Rubric.Standard.{rate_variance_criterion}
use freight_auditor.Evaluator.Invoice.{
  NormalizedCharge, ParsedInvoice, ContractRate, ExternalValueResolution, rate_of, ContractFacts,
}
use freight_auditor.Evaluator.FactBundle.{
  linehaul_charges, billed_currency, rate_currency, currencies_stated_and_equal, parse,
  rate_basis_arithmetic_matches, line_sum_of, base_facts, all_external, billed_linehaul,
  contract_linehaul_rate, assign, linehaul_facts, build_fact_bundle,
}

-- Every charge is in the currency.
abbrev InCurrency : String → List NormalizedCharge → Type 0
InCurrency k cs = All (λ (c : NormalizedCharge). c.currency ≡ k) cs

same-InCurrency :
    (k : String) (cs : List NormalizedCharge)
    → all (λ (x : NormalizedCharge). x.currency == k) cs ≡ true
    → InCurrency k cs
same-InCurrency k [] h = tt
same-InCurrency k (c ∷ cs) h =
    (ground (arith, eq_iff c.currency k), same-InCurrency k cs (ground arith))

-- Stated and equal currencies: there is a charge, and each charge is in the rate's currency.
matched-InCurrency :
    (cs : List NormalizedCharge) (k : String)
    → currencies_stated_and_equal (billed_currency cs) (some k) ≡ true
    → (cs ≢ []) × (k ≢ "") × InCurrency k cs
unfolding currencies_stated_and_equal billed_currency
matched-InCurrency [] k h = absurd (ground arith)
matched-InCurrency (c ∷ cs) k h =
    elim (Bool-cases (all (λ (x : NormalizedCharge). x.currency == c.currency) (c ∷ cs))) [
      | inr e ↦ absurd (ground arith)
      | inl e ↦
          let same : c.currency ≡ k = ground (arith, eq_iff c.currency k, e) in
          (
            ground arith,
            ground (arith, e, eq_iff k ""),
            subst (λ x. InCurrency x (c ∷ cs)) same (same-InCurrency c.currency (c ∷ cs) e),
          )
    ]

module _ (d : Decimal) (fact_key : String → String) (locale_le : String → String → Bool) where
  abbrev bundle_of :
      Option (FactValue d) → Option (FactValue d) → ContractRate → FactBundle d → FactBundle d
  bundle_of billed match r base = assign d fact_key locale_le "linehaul_currencies_match" match (
      assign d fact_key locale_le "contract_linehaul_rate"
        (contract_linehaul_rate d fact_key locale_le (rate_of r))
        (assign d fact_key locale_le "billed_linehaul" billed base))

  or-third : (a b : Bool) → a || (b || true) ≡ true
  or-third a b = ground arith

  bundle-lacks :
      (billed : Option (FactValue d)) (r : ContractRate) (base : FactBundle d)
      → lacks_fact d (bundle_of billed none r base) (rate_variance_criterion d).ast ≡ true
  unfolding rate_variance_criterion lacks_fact present_fact fact_of if_present
  bundle-lacks billed r base =
      or-third (absent d (bundle_of billed none r base) "billed_linehaul")
        (absent d (bundle_of billed none r base) "contract_linehaul_rate")

  -- The bundle of a contract with a rate, where the currencies do not match.
  mismatch-lacks :
      (inv : ParsedInvoice) (r : ContractRate) (base facts : FactBundle d)
      → linehaul_facts d fact_key locale_le inv (rate_of r) base ≡ ok facts
      → currencies_stated_and_equal (billed_currency (linehaul_charges inv)) (some r.currency)
        ≡ false
      → lacks_fact d facts (rate_variance_criterion d).ast ≡ true
  unfolding linehaul_facts rate_currency
  mismatch-lacks inv r base facts h m =
      elim (Result-cases (billed_linehaul d fact_key locale_le (linehaul_charges inv))) [
        | inr (e, n) ↦ absurd (ground arith)
        | inl (billed, b) ↦
            let built : facts ≡ bundle_of billed none r base = ground (arith, h) in
            rw (built) (bundle-lacks billed r base)
      ]

  rate_variance-numeric :
      is_some (d.new_decimal "0.01") ≡ true
      → tolerances_numeric d (rate_variance_criterion d).ast ≡ true
  unfolding rate_variance_criterion tolerances_numeric
  rate_variance-numeric h = ground (arith, h)

  -- The last stage of the bundle of an invoice with a contract.
  bundle_run :
      (inv : ParsedInvoice) (c : ContractFacts) (facts : FactBundle d)
      → build_fact_bundle d fact_key locale_le inv (some c) ≡ ok facts
      → (base : FactBundle d) × (linehaul_facts d fact_key locale_le inv c.linehaul_rate base
          ≡ ok facts)
  unfolding build_fact_bundle
  bundle_run inv c facts h =
      elim (Result-cases (rate_basis_arithmetic_matches d fact_key locale_le inv.charges)) [
        | inr (e, n) ↦ absurd (ground arith)
        | inl (m, em) ↦
            elim (Result-cases
              (parse d fact_key locale_le (line_sum_of d fact_key locale_le inv.footing))) [
                | inr (e, n) ↦ absurd (ground arith)
                | inl (l, el) ↦ (
                  all_external d fact_key locale_le
                      (sort_by (λ (a b : String × ExternalValueResolution). locale_le a.0 b.0)
                        c.external_resolutions)
                      (base_facts d fact_key locale_le inv (some c) l m),
                  ground arith,
                )
              ]
      ]

  -- With a contracted rate, the rate criterion that passes or fails has compared amounts of one
  -- currency: the invoice has linehaul charges, the rate states its currency, and every one of
  -- those charges is in it. Assumed: exact decimal arithmetic, that is, of all values nothing
  -- rounds and none is NaN or Infinity, and a printed value reads back; its tolerance "0.01" reads
  -- as a number.
  pub rate_variance-one_currency :
      (exact : IsExact d) (inv : ParsedInvoice) (c : ContractFacts) (r : ContractRate)
      (facts : FactBundle d) (ev : EvalNode d)
      → is_some (d.new_decimal "0.01") ≡ true
      → c.linehaul_rate ≡ rate_of r
      → build_fact_bundle d fact_key locale_le inv (some c) ≡ ok facts
      → evaluate d (rate_variance_criterion d).ast facts ≡ ok ev
      → verdict d ev ≢ cannot_assess
      → (linehaul_charges inv ≢ [])
        × (r.currency ≢ "")
        × All (λ (x : NormalizedCharge). x.currency ≡ r.currency) (linehaul_charges inv)
  rate_variance-one_currency exact inv c r facts ev numeric rated built evaluated assessed =
      let (base, last) = bundle_run inv c facts built in
      elim (Bool-cases
        (currencies_stated_and_equal (billed_currency (linehaul_charges inv)) (some r.currency))) [
          | inl m ↦ matched-InCurrency (linehaul_charges inv) r.currency m
          | inr m ↦
              let lacks = mismatch-lacks inv r base facts (rw (rated) at last) m in
              let (x, e, v) =
                evaluate-missing_fact d exact (rate_variance_criterion d).ast facts
                  (rate_variance-numeric numeric) lacks in
              absurd (ground (arith, assessed))
        ]
