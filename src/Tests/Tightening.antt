-- ===== src/Tests/Tightening.antt =====
-- The tightening prover on bounds of one fact.
use freight_auditor.Prelude.{ℕ, String, none, [], ◌∷◌, ok, ◌≡◌, refl, ap, true}
use freight_auditor.Cents.{cents, cents-IsExact}
use freight_auditor.Cents.Text.{print, read}
use freight_auditor.RuleEngine.Ast.{
  lte, and, lit_number, lit_string, AstNode, lit, fact, compare_node, logic, no_args, arg,
  decimal_fact, FactBundle, present_fact, fact_of, if_present,
}
use freight_auditor.RuleEngine.Interpreter.{
  number, pass, cannot_assess, EvalNode, value_of, safe_decimal, safe_decimal_of_number, fact_value,
  lit_value, to_decimal, is_unassessable, compare_scalars, compare_decimals, compare_parsed,
  compare_values, evaluate, verdict,
}
use freight_auditor.Rubric.Tighten.{
  monotonic, not_monotonic, narrower_bound, added_conjuncts, bound_weakened, same_lit, same_node,
  has_clause, every_in, prove_monotonic_tighten,
}
use freight_auditor.Rubric.Tighten.Sound.{has_finite_bound, prove_monotonic_tighten_sound}

abbrev at_most : ℕ → AstNode cents
at_most n = compare_node lte (fact "fuel_percent") (lit (lit_number (cents.of_count n))) none

abbrev facts : FactBundle cents
facts = ("fuel_percent", decimal_fact "2.5") ∷ []

abbrev number_text : cents.Number → String
number_text n = cents.to_string (cents.of_number n)

same_number :
    (m n : cents.Number)
    → number_text m ≡ number_text n
    → lit_value cents (lit_number m) ≡ lit_value cents (lit_number n)
unfolding cents lit_value safe_decimal_of_number
same_number m n e = ap number e

proved :
    prove_monotonic_tighten cents number_text (at_most 5) (at_most 3) ≡ monotonic narrower_bound
unfolding prove_monotonic_tighten cents same_node same_lit print
proved = refl

weakened :
    prove_monotonic_tighten cents number_text (at_most 3) (at_most 5) ≡ not_monotonic bound_weakened
unfolding prove_monotonic_tighten cents same_node same_lit print
weakened = refl

added :
    prove_monotonic_tighten cents number_text
      (logic and (arg (at_most 5) no_args))
      (logic and (arg (at_most 3) (arg (at_most 5) no_args)))
    ≡ monotonic added_conjuncts
unfolding prove_monotonic_tighten cents same_node same_lit print every_in has_clause
added = refl

run : (ev : EvalNode cents) × (evaluate cents (at_most 3) facts ≡ ok ev) × (verdict cents ev ≡ pass)
unfolding evaluate verdict value_of cents present_fact fact_of if_present fact_value safe_decimal
    read print lit_value safe_decimal_of_number to_decimal is_unassessable compare_values
    compare_parsed compare_decimals
run = (_, refl, refl)

finite_bound : (n : ℕ) → has_finite_bound cents (at_most n) ≡ true
unfolding has_finite_bound cents
finite_bound n = refl

prove_monotonic_tighten_sound_example :
    (ev : EvalNode cents) × (evaluate cents (at_most 5) facts ≡ ok ev) × (verdict cents ev ≡ pass)
prove_monotonic_tighten_sound_example =
    prove_monotonic_tighten_sound cents facts cents-IsExact number_text same_number (at_most 5)
      (at_most 3) narrower_bound run.0 proved (finite_bound 5) (finite_bound 3) run.1 run.2

-- A bound that is a text is a number to the prover only: the interpreter does not compare with it.
abbrev text_base : AstNode cents
text_base = compare_node lte (fact "fuel_percent") (lit (lit_string "5")) none

text_proved :
    prove_monotonic_tighten cents number_text text_base (at_most 3) ≡ monotonic narrower_bound
unfolding prove_monotonic_tighten cents read same_node same_lit
text_proved = refl

text_fails :
    (ev : EvalNode cents) × (evaluate cents text_base facts ≡ ok ev)
    × (verdict cents ev ≡ cannot_assess)
unfolding evaluate verdict value_of cents present_fact fact_of if_present fact_value safe_decimal
    read print lit_value to_decimal is_unassessable compare_values compare_parsed compare_scalars
text_fails = (_, refl, refl)
