-- ===== src/Rubric/Tighten/Clauses.antt =====
-- Conjunctions: one passes exactly when each of its clauses does, so that added clauses only narrow it.
use freight_auditor.Prelude.{
  String, true, List, [], ◌∷◌, ok, ◌>>=◌, ◌≡◌, refl, sym, ◌∙◌, ap, arith, inl, inr, Bool-cases,
  Option-cases, bind_ok, All, subst,
}
use freight_auditor.Money.{Decimal}
use freight_auditor.RuleEngine.Ast.{
  and, lit_number, AstNode, AstNodes, no_args, arg, logic, FactBundle,
}
use freight_auditor.RuleEngine.Interpreter.{
  EvalValue, bool, lit_value, bools_of, logic_value, evaluate_all, values_of,
}
use freight_auditor.Rubric.Tighten.{same_node, has_clause, every_in}
use freight_auditor.Rubric.Tighten.Same.{
  outcome, outcomes, outcomes_arg, outcome_logic, same_node-outcome,
}

abbrev Holds : EvalValue → Type 0
Holds v = v ≡ bool true

conjunction-All : (vs : List EvalValue) → logic_value and vs ≡ bool true → All Holds vs
unfolding logic_value bools_of
conjunction-All [] h = tt
conjunction-All (bool b ∷ vs) h = elim (Option-cases (bools_of vs)) [
  | inl e ↦ absurd (ground (arith, h, e))
  | inr (bs, e) ↦ (ground (arith, h, e), conjunction-All vs (ground (arith, h, e)))
]
conjunction-All (_ ∷ vs) h = absurd (ground (arith, h))

All-conjunction : (vs : List EvalValue) → All Holds vs → logic_value and vs ≡ bool true
unfolding logic_value bools_of
All-conjunction [] h = refl
All-conjunction (v ∷ vs) (h, hs) = elim (Option-cases (bools_of vs)) [
  | inl e ↦ absurd (ground (arith, All-conjunction vs hs, e))
  | inr (bs, e) ↦ rw h (ground (arith, All-conjunction vs hs, e))
]

module _ (d : Decimal) (facts : FactBundle d) where
  -- Every one of the arguments passes.
  unfoldable AllPass : AstNodes d → Type 0
  AllPass no_args = Unit
  AllPass (arg n ns) = (outcome d facts n ≡ ok (bool true)) × AllPass ns

  outcomes-AllPass :
      (ns : AstNodes d) (vs : List EvalValue)
      → outcomes d facts ns ≡ ok vs
      → All Holds vs
      → AllPass ns
  unfolding AllPass
  outcomes-AllPass no_args vs h k = tt
  outcomes-AllPass (arg n ns) vs h k =
      let (v, e, h₁) =
        bind_ok (outcome d facts n) (λ v. outcomes d facts ns >>= λ ws. ok (v ∷ ws))
          (sym (outcomes_arg d facts n ns) ∙ h) in
      let (ws, es, h₂) = bind_ok (outcomes d facts ns) _ h₁ in
      let list : v ∷ ws ≡ vs = ground (arith, h₂) in
      let (here, rest) : All Holds (v ∷ ws) = subst (All Holds) (sym list) k in
      (e ∙ ap ok here, outcomes-AllPass ns ws es rest)

  AllPass-outcomes :
      (ns : AstNodes d)
      → AllPass ns
      → (vs : List EvalValue) × (outcomes d facts ns ≡ ok vs) × All Holds vs
  unfolding AllPass outcomes evaluate_all values_of
  AllPass-outcomes no_args h = ([], refl, tt)
  AllPass-outcomes (arg n ns) (h, hs) =
      let (vs, e, k) = AllPass-outcomes ns hs in
      (bool true ∷ vs, rw (outcomes_arg d facts n ns, h, e) refl, (refl, k))

  conjunction-AllPass :
      (ns : AstNodes d) → outcome d facts (logic and ns) ≡ ok (bool true) → AllPass ns
  conjunction-AllPass ns h =
      let (vs, e, k) =
        bind_ok (outcomes d facts ns) (λ vs. ok (logic_value and vs))
          (sym (outcome_logic d facts and ns) ∙ h) in
      outcomes-AllPass ns vs e (conjunction-All vs (ground (arith, k)))

  AllPass-conjunction :
      (ns : AstNodes d) → AllPass ns → outcome d facts (logic and ns) ≡ ok (bool true)
  AllPass-conjunction ns h =
      let (vs, e, k) = AllPass-outcomes ns h in
      rw (outcome_logic d facts and ns, e, All-conjunction vs k) refl

  module _ (number_text : d.Number → String)
      (same_number : (m n : d.Number)
        → number_text m ≡ number_text n
        → lit_value d (lit_number m) ≡ lit_value d (lit_number n)) where
    has_clause-pass :
        (clause : AstNode d) (ns : AstNodes d)
        → has_clause d number_text clause ns ≡ true
        → AllPass ns
        → outcome d facts clause ≡ ok (bool true)
    unfolding has_clause AllPass
    has_clause-pass clause no_args h k = absurd (ground (arith, h))
    has_clause-pass clause (arg n ns) h (k, ks) =
        elim (Bool-cases (same_node d number_text clause n)) [
          | inl e ↦ same_node-outcome d facts number_text same_number clause n e ∙ k
          | inr e ↦ has_clause-pass clause ns (ground (arith, h, e)) ks
        ]

    every_in-AllPass :
        (clauses ns : AstNodes d)
        → every_in d number_text clauses ns ≡ true
        → AllPass ns
        → AllPass clauses
    unfolding every_in AllPass
    every_in-AllPass no_args ns h k = tt
    every_in-AllPass (arg c cs) ns h k =
        (has_clause-pass c ns (ground (arith, h)) k, every_in-AllPass cs ns (ground (arith, h)) k)

    -- A conjunction passes if one passes that has all its clauses.
    pub added_conjuncts_lem :
        (clauses next : AstNodes d)
        → every_in d number_text clauses next ≡ true
        → outcome d facts (logic and next) ≡ ok (bool true)
        → outcome d facts (logic and clauses) ≡ ok (bool true)
    added_conjuncts_lem clauses next h k =
        AllPass-conjunction clauses (every_in-AllPass clauses next h (conjunction-AllPass next k))
