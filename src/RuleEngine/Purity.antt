-- ===== src/RuleEngine/Purity.antt =====
-- The interpreter reads nothing but the facts that the tree names.
use freight_auditor.Prelude.{String, List, [], ◌∷◌, ◌++◌, All, ok, ◌≡◌, refl, ap}
use freight_auditor.Money.{Decimal}
use freight_auditor.RuleEngine.Ast.{
  AstNode, lit, money, fact, arith_node, compare_node, logic, require, AstNodes, no_args, arg,
  FactBundle, present_fact,
}
use freight_auditor.RuleEngine.Interpreter.{leaf, fact_value, evaluate, evaluate_all}

module _ (d : Decimal) where
  unfoldable mutual
    -- The keys of the facts that the tree names.
    pub fact_keys : AstNode d → List String
    fact_keys (lit v) = []
    fact_keys (money amount currency) = []
    fact_keys (fact key) = key ∷ []
    fact_keys (require key inner) = key ∷ fact_keys inner
    fact_keys (arith_node op args) = all_fact_keys args
    fact_keys (compare_node op l r t) = fact_keys l ++ fact_keys r
    fact_keys (logic op args) = all_fact_keys args

    pub all_fact_keys : AstNodes d → List String
    all_fact_keys no_args = []
    all_fact_keys (arg n ns) = fact_keys n ++ all_fact_keys ns

  -- Two bundles agree on a list of keys.
  abbrev pub Agree : FactBundle d → FactBundle d → List String → Type 0
  Agree f g keys = All (λ (key : String). present_fact d f key ≡ present_fact d g key) keys

  Agree-left : (f g : FactBundle d) (ks ls : List String) → Agree f g (ks ++ ls) → Agree f g ks
  Agree-left f g [] ls h = tt
  Agree-left f g (k ∷ ks) ls h = (h.0, Agree-left f g ks ls h.1)

  Agree-right : (f g : FactBundle d) (ks ls : List String) → Agree f g (ks ++ ls) → Agree f g ls
  Agree-right f g [] ls h = h
  Agree-right f g (k ∷ ks) ls h = Agree-right f g ks ls h.1

  mutual
    unfolding evaluate fact_keys

    evaluate-Agree :
        (n : AstNode d) (f g : FactBundle d)
        → Agree f g (fact_keys n)
        → evaluate d n f ≡ evaluate d n g
    evaluate-Agree (lit v) f g h = refl
    evaluate-Agree (money amount c) f g h = refl
    evaluate-Agree (fact key) f g h = ap (λ v. ok (leaf (fact key) (fact_value d key v))) h.0
    evaluate-Agree (require key inner) f g h = rw (h.0, evaluate-Agree inner f g h.1) refl
    evaluate-Agree (arith_node op args) f g h = rw (evaluate_all-Agree args f g h) refl
    evaluate-Agree (compare_node op l r t) f g h =
        rw
          (
            evaluate-Agree l f g (Agree-left f g (fact_keys l) (fact_keys r) h),
            evaluate-Agree r f g (Agree-right f g (fact_keys l) (fact_keys r) h),
          )
          refl
    evaluate-Agree (logic op args) f g h = rw (evaluate_all-Agree args f g h) refl

    evaluate_all-Agree :
        (ns : AstNodes d) (f g : FactBundle d)
        → Agree f g (all_fact_keys ns)
        → evaluate_all d ns f ≡ evaluate_all d ns g
    evaluate_all-Agree no_args f g h = refl
    evaluate_all-Agree (arg n ns) f g h =
        rw
          (
            evaluate-Agree n f g (Agree-left f g (fact_keys n) (all_fact_keys ns) h),
            evaluate_all-Agree ns f g (Agree-right f g (fact_keys n) (all_fact_keys ns) h),
          )
          refl

  -- The evaluated tree, with every value and reason in it, is the same on two bundles that agree on
  -- the facts that the predicate names; an empty text counts as absent.
  pub evaluate-pure :
      (n : AstNode d) (f g : FactBundle d)
      → Agree f g (fact_keys n)
      → evaluate d n f ≡ evaluate d n g
  evaluate-pure n f g h = evaluate-Agree n f g h
