-- ===== src/RuleEngine/Ast.antt =====
-- The predicate AST and the fact bundle (rule-engine/ast.ts). The array of arguments is a type of its
-- own beside the nodes; `undefined` in a bundle is an absent key.
use freight_auditor.Prelude.{String, ◌==◌, Bool, Option, none, some, List, [], ◌∷◌, if◌then◌else◌}
use freight_auditor.Money.{Decimal}

pub data ArithOp : Type 0 where
  add sub mul div abs : ArithOp

pub data CompareOp : Type 0 where
  eq ne gt gte lt lte approx : CompareOp

pub data LogicOp : Type 0 where
  and or not : LogicOp

module _ (d : Decimal) where
  -- `value: number | string | boolean`.
  pub data LitValue : Type 0 where
    lit_number : d.Number → LitValue
    lit_string : String → LitValue
    lit_bool : Bool → LitValue

  mutual
    pub data AstNode : Type 0 where
      lit : LitValue → AstNode
      money : (amount currency : String) → AstNode
      fact : (key : String) → AstNode
      arith_node : ArithOp → AstNodes → AstNode
      compare_node : CompareOp → (left right : AstNode) → (tolerance : Option String) → AstNode
      logic : LogicOp → AstNodes → AstNode
      require : (key : String) → (inner : AstNode) → AstNode

    pub data AstNodes : Type 0 where
      no_args : AstNodes
      arg : AstNode → AstNodes → AstNodes

  pub data FactValue : Type 0 where
    number_fact : d.Number → FactValue
    string_fact : String → FactValue
    bool_fact : Bool → FactValue
    money_fact : (amount currency : String) → FactValue
    decimal_fact : String → FactValue

  abbrev pub FactBundle : Type 0
  FactBundle = List (String × FactValue)

  unfoldable pub fact_of : FactBundle → String → Option FactValue
  fact_of [] key = none
  fact_of ((k, v) ∷ facts) key = if k == key then some v else fact_of facts key

  -- `raw === undefined || raw === ''` is absence.
  unfoldable pub if_present : Option FactValue → Option FactValue
  if_present (some (string_fact s)) = if s == "" then none else some (string_fact s)
  if_present raw = raw

  unfoldable pub present_fact : FactBundle → String → Option FactValue
  present_fact facts key = if_present (fact_of facts key)
