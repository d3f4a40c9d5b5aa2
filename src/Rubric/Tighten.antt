-- ===== src/Rubric/Tighten.antt =====
-- The tightening prover (rubric-resolver/monotonic-tighten.ts). The code compares two trees by their
-- `canonical` texts, JSON with sorted keys: that is equality field by field, where numbers are compared
-- by what JSON.stringify prints of them, `number_text`.
pub mod Same
pub mod Bounds
pub mod Clauses
pub mod Sound
use freight_auditor.Prelude.{
  String, ◌==◌, Bool, true, false, ◌&&◌, ◌||◌, Option, none, some, if◌then◌else◌,
}
use freight_auditor.Money.{Decimal}
use freight_auditor.RuleEngine.Ast.{
  CompareOp, eq, ne, gt, gte, lt, lte, approx, LogicOp, and, LitValue, lit_number, lit_string,
  lit_bool, AstNode, lit, money, fact, arith_node, compare_node, logic, require, AstNodes, no_args,
  arg,
}
use freight_auditor.RuleEngine.Interpreter.{arith_name, logic_name, same_bool, or_text_zero}

pub data Proof : Type 0 where
  identical narrower_bound narrower_tolerance added_conjuncts : Proof

pub data Reason : Type 0 where
  unsupported_shape operand_changed bound_weakened clause_removed : Reason

pub data TightenProof : Type 0 where
  monotonic : Proof → TightenProof
  not_monotonic : Reason → TightenProof

abbrev pub compare_name : CompareOp → String
compare_name eq = "eq"
compare_name ne = "ne"
compare_name gt = "gt"
compare_name gte = "gte"
compare_name lt = "lt"
compare_name lte = "lte"
compare_name approx = "approx"

-- An absent tolerance is an absent key.
abbrev pub same_tolerance : Option String → Option String → Bool
same_tolerance none none = true
same_tolerance (some s) (some t) = s == t
same_tolerance _ _ = false

module _ (d : Decimal) where
  abbrev pub numeric_literal : AstNode d → Option d.D
  numeric_literal (lit (lit_number n)) = some (d.of_number n)
  numeric_literal (lit (lit_string s)) = d.new_decimal s
  numeric_literal _ = none

  -- The bound of `eq` and `ne` is not to change; `approx` has a test of its own.
  abbrev pub is_safe : CompareOp → d.D → d.D → Bool
  is_safe lt before after = d.lte after before
  is_safe lte before after = d.lte after before
  is_safe gt before after = d.gte after before
  is_safe gte before after = d.gte after before
  is_safe _ before after = d.equals after before

  abbrev pub narrowed : Bool → Bool → Proof → TightenProof
  narrowed safe same proof =
      if safe then monotonic (if same then identical else proof) else not_monotonic bound_weakened

  abbrev pub prove_bound : CompareOp → Option d.D → Option d.D → TightenProof
  prove_bound op (some before) (some after) =
      narrowed (is_safe op before after) (d.equals after before) narrower_bound
  prove_bound op _ _ = not_monotonic unsupported_shape

  abbrev pub prove_tolerance : Option d.D → Option d.D → TightenProof
  prove_tolerance (some before) (some after) =
      narrowed (d.lte after before) (d.equals after before) narrower_tolerance
  prove_tolerance _ _ = not_monotonic unsupported_shape

  module _ (number_text : d.Number → String) where
    unfoldable pub same_lit : LitValue d → LitValue d → Bool
    same_lit (lit_number m) (lit_number n) = number_text m == number_text n
    same_lit (lit_string s) (lit_string t) = s == t
    same_lit (lit_bool b) (lit_bool c) = same_bool b c
    same_lit _ _ = false

    unfoldable mutual
      pub same_node : AstNode d → AstNode d → Bool
      same_node (lit v) (lit w) = same_lit v w
      same_node (money a c) (money b e) = a == b && c == e
      same_node (fact k) (fact j) = k == j
      same_node (require k m) (require j n) = k == j && same_node m n
      same_node (arith_node o ms) (arith_node p ns) =
          arith_name o == arith_name p && same_nodes ms ns
      same_node (compare_node o l r t) (compare_node p m n u) =
          compare_name o == compare_name p && same_node l m && same_node r n && same_tolerance t u
      same_node (logic o ms) (logic p ns) = logic_name o == logic_name p && same_nodes ms ns
      same_node _ _ = false

      pub same_nodes : AstNodes d → AstNodes d → Bool
      same_nodes no_args no_args = true
      same_nodes (arg m ms) (arg n ns) = same_node m n && same_nodes ms ns
      same_nodes _ _ = false

    -- `proveCompare`, on operator, sides and tolerance of the base and of the tightened comparison.
    abbrev pub prove_compare :
        CompareOp
        → (l r : AstNode d) → Option String
        → CompareOp
        → (m n : AstNode d) → Option String
        → TightenProof
    prove_compare approx l r t p m n u =
        if compare_name approx == compare_name p && same_node l m && same_node r n
        then prove_tolerance (d.new_decimal (or_text_zero d t)) (d.new_decimal (or_text_zero d u))
        else not_monotonic operand_changed
    prove_compare o l r t p m n u =
        if compare_name o == compare_name p && same_node l m
        then prove_bound o (numeric_literal r) (numeric_literal n)
        else not_monotonic operand_changed

    -- `nextClauses.has(canonical(clause))`.
    unfoldable pub has_clause : AstNode d → AstNodes d → Bool
    has_clause clause no_args = false
    has_clause clause (arg n ns) = same_node clause n || has_clause clause ns

    unfoldable pub every_in : AstNodes d → AstNodes d → Bool
    every_in no_args next = true
    every_in (arg clause clauses) next = has_clause clause next && every_in clauses next

    abbrev pub prove_shapes : AstNode d → AstNode d → TightenProof
    prove_shapes (compare_node o l r t) (compare_node p m n u) = prove_compare o l r t p m n u
    prove_shapes (logic and clauses) (logic and next) =
        if every_in clauses next then monotonic added_conjuncts else not_monotonic clause_removed
    prove_shapes _ _ = not_monotonic unsupported_shape

    unfoldable pub prove_monotonic_tighten : AstNode d → AstNode d → TightenProof
    prove_monotonic_tighten base tightened =
        if same_node base tightened then monotonic identical else prove_shapes base tightened
