-- ===== src/RuleEngine.antt =====
-- The rule engine (src/modules/rule-engine): the predicate AST, its interpreter, and the lifecycle of
-- a rule version.
pub mod Ast
pub mod Interpreter
pub mod Totality
pub mod Missing
pub mod Purity
pub mod Lifecycle
