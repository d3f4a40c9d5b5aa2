-- ===== src/Tests/Inputs.antt =====
-- The parameters at which the tests run: the order of code points for `localeCompare`, identifiers and
-- JSON texts by concatenation.
use freight_auditor.Prelude.{String, Bool, true, false, List, [], ◌∷◌}
use Prim.Native.Nat.{Ordering}
use Prim.Native.String

unfoldable pub code_point_le : String → String → Bool
code_point_le a b = elim (String.compare a b) [ Ordering.gt ↦ false | _ ↦ true ]

unfoldable pub joined : List String → String
joined [] = ""
joined (x ∷ xs) = String.◌++◌ x (String.◌++◌ "/" (joined xs))

unfoldable pub object_text : List (String × String) → String
object_text [] = ""
object_text ((k, v) ∷ rest) =
    String.◌++◌ k (String.◌++◌ ":" (String.◌++◌ v (String.◌++◌ "," (object_text rest))))

unfoldable pub external_key : String → String
external_key source = String.◌++◌ "external_" source
