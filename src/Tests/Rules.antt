-- ===== src/Tests/Rules.antt =====
-- The interpreter on small predicates.
use freight_auditor.Prelude.{true, none, some, [], ◌∷◌, ok, ◌≡◌, refl}
use freight_auditor.Cents.{cents, cents-IsExact}
use freight_auditor.Cents.Text.{read}
use freight_auditor.RuleEngine.Ast.{
  lte, approx, and, AstNode, money, fact, compare_node, logic, no_args, arg, string_fact,
  money_fact, FactBundle, fact_of, if_present, present_fact,
}
use freight_auditor.RuleEngine.Interpreter.{cannot_assess, EvalNode, evaluate, verdict}
use freight_auditor.RuleEngine.Totality.{tolerances_numeric, evaluate-total}
use freight_auditor.RuleEngine.Missing.{lacks_fact, evaluate-missing_fact}
use freight_auditor.RuleEngine.Purity.{fact_keys, Agree, evaluate-pure}

-- |total − lines| ≤ 0.01, and the lines are not more than 100, the total being read last.
abbrev rule : AstNode cents
rule = logic and (
    arg (compare_node lte (fact "lines") (money "100" "USD") none)
      (arg (compare_node approx (fact "lines") (fact "total") (some "0.01")) no_args))

abbrev facts : FactBundle cents
facts = ("lines", money_fact "99.99" "USD") ∷ ("note", string_fact "x") ∷ []

abbrev other_facts : FactBundle cents
other_facts =
    ("note", string_fact "y") ∷ ("lines", money_fact "99.99" "USD") ∷ ("total", string_fact "") ∷ []

numeric : tolerances_numeric cents rule ≡ true
unfolding tolerances_numeric cents read
numeric = refl

evaluate-total_example : (ev : EvalNode cents) × (evaluate cents rule facts ≡ ok ev)
evaluate-total_example = evaluate-total cents cents-IsExact rule facts numeric

lacks : lacks_fact cents facts rule ≡ true
unfolding lacks_fact present_fact fact_of if_present
lacks = refl

evaluate-missing_fact_example :
    (ev : EvalNode cents) × (evaluate cents rule facts ≡ ok ev) × (verdict cents ev ≡ cannot_assess)
evaluate-missing_fact_example = evaluate-missing_fact cents cents-IsExact rule facts numeric lacks

agree : Agree cents facts other_facts (fact_keys cents rule)
unfolding fact_keys present_fact fact_of if_present
agree = (refl, (refl, (refl, tt)))

evaluate-pure_example : evaluate cents rule facts ≡ evaluate cents rule other_facts
evaluate-pure_example = evaluate-pure cents rule facts other_facts agree
