-- ===== src/RuleEngine/Interpreter.antt =====
-- The interpreter (rule-engine/interpreter.ts). Its two `new Decimal` that stand outside
-- `safeDecimal` may throw: that is the error of the result.
use freight_auditor.Prelude.{
  String, ◌==◌, Bool, true, false, not as bool_not, ◌||◌, Option, none, some, List, [], ◌∷◌,
  if◌then◌else◌, any, all, Result, ok, ◌>>=◌, need,
}
use Prim.Native.String
use freight_auditor.Money.{Decimal}
use freight_auditor.RuleEngine.Ast.{
  ArithOp, add, sub, mul, div, abs, CompareOp, eq, ne, gt, gte, lt, lte, approx, LogicOp, and, or,
  not, LitValue, lit_number, lit_string, lit_bool, AstNode, lit, money, fact, arith_node,
  compare_node, logic, require, AstNodes, no_args, arg, FactValue, number_fact, string_fact,
  bool_fact, money_fact, decimal_fact, FactBundle, present_fact,
}

pub data EvalValue : Type 0 where
  number : (value : String) → EvalValue
  money_value : (amount currency : String) → EvalValue
  bool : (value : Bool) → EvalValue
  string : (value : String) → EvalValue
  unassessable : (reason : String) → EvalValue

unfoldable pub is_unassessable : EvalValue → Bool
is_unassessable (unassessable r) = true
is_unassessable _ = false

pub data Verdict : Type 0 where
  pass fail cannot_assess : Verdict

-- The value that the text and Boolean path compares; `null` is `no_scalar`.
pub data Scalar : Type 0 where
  scalar_text : String → Scalar
  scalar_bool : Bool → Scalar
  no_scalar : Scalar

unfoldable pub value_scalar : EvalValue → Scalar
value_scalar (string s) = scalar_text s
value_scalar (bool b) = scalar_bool b
value_scalar (number s) = scalar_text s
value_scalar (money_value amount currency) = scalar_text amount
value_scalar (unassessable r) = no_scalar

abbrev pub same_bool : Bool → Bool → Bool
same_bool true b = b
same_bool false b = bool_not b

unfoldable pub same_scalar : Scalar → Scalar → Bool
same_scalar (scalar_text s) (scalar_text t) = s == t
same_scalar (scalar_bool b) (scalar_bool c) = same_bool b c
same_scalar no_scalar no_scalar = true
same_scalar _ _ = false

abbrev pub arith_name : ArithOp → String
arith_name add = "add"
arith_name sub = "sub"
arith_name mul = "mul"
arith_name div = "div"
arith_name abs = "abs"

abbrev pub logic_name : LogicOp → String
logic_name and = "and"
logic_name or = "or"
logic_name not = "not"

-- `bools`, or `null` when one of the values is no Boolean.
unfoldable pub bools_of : List EvalValue → Option (List Bool)
bools_of [] = some []
bools_of (bool b ∷ vs) = elim (bools_of vs) [ none ↦ none | some bs ↦ some (b ∷ bs) ]
bools_of (_ ∷ vs) = none

unfoldable pub logic_value : LogicOp → List EvalValue → EvalValue
logic_value not (bool b ∷ vs) = bool (bool_not b)
logic_value not _ = unassessable "not: non-bool"
logic_value and vs = elim (bools_of vs) [
  | none ↦ unassessable "and: non-bool operand"
  | some bs ↦ bool (all (λ b. b) bs)
]
logic_value or vs = elim (bools_of vs) [
  | none ↦ unassessable "or: non-bool operand"
  | some bs ↦ bool (any (λ b. b) bs)
]

module _ (d : Decimal) where
  mutual
    -- A node with its value, without and with `children`.
    pub data EvalNode : Type 0 where
      leaf : AstNode d → EvalValue → EvalNode
      branch : AstNode d → EvalValue → EvalNodes → EvalNode

    pub data EvalNodes : Type 0 where
      no_children : EvalNodes
      child : EvalNode → EvalNodes → EvalNodes

  unfoldable pub value_of : EvalNode → EvalValue
  value_of (leaf n v) = v
  value_of (branch n v cs) = v

  unfoldable pub values_of : EvalNodes → List EvalValue
  values_of no_children = []
  values_of (child c cs) = value_of c ∷ values_of cs

  abbrev pub finite : d.D → Option d.D
  finite x = if d.is_finite x then some x else none

  abbrev pub when_finite : Option d.D → Option d.D
  when_finite none = none
  when_finite (some x) = finite x

  -- `safeDecimal`, on a text and on a number.
  unfoldable pub safe_decimal : String → Option d.D
  safe_decimal raw = when_finite (d.new_decimal raw)

  unfoldable pub safe_decimal_of_number : d.Number → Option d.D
  safe_decimal_of_number raw = if d.is_finite_number raw then finite (d.of_number raw) else none

  abbrev pub number_or : String → Option d.D → EvalValue
  number_or reason none = unassessable reason
  number_or reason (some x) = number (d.to_string x)

  abbrev pub money_or : String → String → Option d.D → EvalValue
  money_or reason currency none = unassessable reason
  money_or reason currency (some x) = money_value (d.to_fixed x) currency

  unfoldable pub lit_value : LitValue d → EvalValue
  lit_value (lit_bool b) = bool b
  lit_value (lit_number n) = number_or "non-finite literal" (safe_decimal_of_number n)
  lit_value (lit_string s) = string s

  abbrev pub about : String → String → String → String
  about before key after = String.◌++◌ before (String.◌++◌ key after)

  unfoldable pub fact_value : String → Option (FactValue d) → EvalValue
  fact_value key none = unassessable (about "fact '" key "' absent")
  fact_value key (some (bool_fact b)) = bool b
  fact_value key (some (number_fact n)) =
      number_or (about "fact '" key "' is NaN/Infinity") (safe_decimal_of_number n)
  fact_value key (some (decimal_fact s)) =
      number_or (about "fact '" key "' has a non-numeric decimal") (safe_decimal s)
  fact_value key (some (money_fact amount currency)) =
      money_or (about "fact '" key "' has a non-numeric money amount") currency
        (safe_decimal amount)
  fact_value key (some (string_fact s)) = string s

  -- `toDecimal`: `null` for a value that is no number.
  unfoldable pub to_decimal : EvalValue → Result String (Option d.D)
  to_decimal (number s) = need (d.new_decimal s) s >>= λ x. ok (some x)
  to_decimal (money_value amount c) = need (d.new_decimal amount) amount >>= λ x. ok (some x)
  to_decimal _ = ok none

  abbrev pub both : Option d.D → Option (List d.D) → Option (List d.D)
  both (some x) (some xs) = some (x ∷ xs)
  both _ _ = none

  unfoldable pub to_decimals : List EvalValue → Result String (Option (List d.D))
  to_decimals [] = ok (some [])
  to_decimals (v ∷ vs) = to_decimal v >>= λ x. to_decimals vs >>= λ xs. ok (both x xs)

  abbrev pub reduce : (d.D → d.D → d.D) → d.D → List d.D → d.D
  reduce f acc [] = acc
  reduce f acc (x ∷ xs) = reduce f (f acc x) xs

  unfoldable pub combine : ArithOp → List d.D → EvalValue
  combine abs (x ∷ xs) = number (d.to_string (d.abs x))
  combine add (x ∷ y ∷ xs) = number (d.to_string (reduce d.plus d.zero (x ∷ y ∷ xs)))
  combine sub (x ∷ y ∷ xs) = number (d.to_string (reduce d.minus x (y ∷ xs)))
  combine mul (x ∷ y ∷ xs) = number (d.to_string (reduce d.times d.one (x ∷ y ∷ xs)))
  combine div (x ∷ y ∷ xs) =
      if any d.is_zero (y ∷ xs)
      then unassessable "division by zero"
      else number (d.to_string (reduce d.divided_by x (y ∷ xs)))
  combine op _ = unassessable (String.◌++◌ (arith_name op) ": too few operands")

  abbrev pub combined : ArithOp → Option (List d.D) → EvalValue
  combined op none = unassessable "non-numeric operand"
  combined op (some nums) = combine op nums

  unfoldable pub arith_value : ArithOp → List EvalValue → Result String EvalValue
  arith_value op vs =
      if any is_unassessable vs
      then ok (unassessable "operand unassessable")
      else to_decimals vs >>= λ decs. ok (combined op decs)

  unfoldable pub compare_scalars : CompareOp → Bool → EvalValue
  compare_scalars eq same = bool same
  compare_scalars ne same = bool (bool_not same)
  compare_scalars _ same = unassessable "non-numeric comparison"

  abbrev pub or_text_zero : Option String → String
  or_text_zero none = "0"
  or_text_zero (some t) = t

  unfoldable pub compare_decimals : CompareOp → Option String → d.D → d.D → Result String Bool
  compare_decimals eq t a b = ok (d.equals a b)
  compare_decimals ne t a b = ok (bool_not (d.equals a b))
  compare_decimals gt t a b = ok (d.gt a b)
  compare_decimals gte t a b = ok (d.gte a b)
  compare_decimals lt t a b = ok (d.lt a b)
  compare_decimals lte t a b = ok (d.lte a b)
  compare_decimals approx t a b = need (d.new_decimal (or_text_zero t)) (or_text_zero t) >>= λ tol.
      ok (d.lte (d.abs (d.minus a b)) tol)

  unfoldable pub compare_parsed :
      CompareOp
      → Option String
      → EvalValue
      → EvalValue
      → Option d.D
      → Option d.D
      → Result String EvalValue
  compare_parsed op t l r (some a) (some b) =
      compare_decimals op t a b >>= λ result. ok (bool result)
  compare_parsed op t l r _ _ =
      ok (compare_scalars op (same_scalar (value_scalar l) (value_scalar r)))

  unfoldable pub compare_values :
      CompareOp → Option String → EvalValue → EvalValue → Result String EvalValue
  compare_values op t l r =
      if is_unassessable l || is_unassessable r
      then ok (unassessable "comparand unassessable")
      else to_decimal l >>= λ a. to_decimal r >>= λ b. compare_parsed op t l r a b

  -- The `require` case, with the result under it.
  abbrev pub required :
      String → AstNode d → Option (FactValue d) → Result String EvalNode → Result String EvalNode
  required key inner none under =
      ok (leaf (require key inner) (unassessable (about "required fact '" key "' absent")))
  required key inner (some v) under =
      under >>= λ c. ok (branch (require key inner) (value_of c) (child c no_children))

  unfoldable mutual
    pub evaluate : AstNode d → FactBundle d → Result String EvalNode
    evaluate (lit v) facts = ok (leaf (lit v) (lit_value v))
    evaluate (money amount currency) facts = ok (
        leaf (money amount currency)
          (money_or "non-numeric money amount" currency (safe_decimal amount)))
    evaluate (fact key) facts = ok (leaf (fact key) (fact_value key (present_fact d facts key)))
    evaluate (require key inner) facts =
        required key inner (present_fact d facts key) (evaluate inner facts)
    evaluate (arith_node op args) facts = evaluate_all args facts >>= λ cs.
        arith_value op (values_of cs) >>= λ v. ok (branch (arith_node op args) v cs)
    evaluate (compare_node op left right tolerance) facts = evaluate left facts >>= λ l.
        evaluate right facts >>= λ r. compare_values op tolerance (value_of l) (value_of r) >>= λ v.
        ok (branch (compare_node op left right tolerance) v (child l (child r no_children)))
    evaluate (logic op args) facts = evaluate_all args facts >>= λ cs.
        ok (branch (logic op args) (logic_value op (values_of cs)) cs)

    -- `node.args.map((a) => evaluate(a, facts))`.
    pub evaluate_all : AstNodes d → FactBundle d → Result String EvalNodes
    evaluate_all no_args facts = ok no_children
    evaluate_all (arg n ns) facts =
        evaluate n facts >>= λ c. evaluate_all ns facts >>= λ cs. ok (child c cs)

  unfoldable pub verdict : EvalNode → Verdict
  verdict ev = elim (value_of ev) [ bool true ↦ pass | bool false ↦ fail | _ ↦ cannot_assess ]
