-- ===== src/Prelude/Text.antt =====
-- Methods of JavaScript's strings on native texts: `trim`, the test of `/^[A-Z]{3}$/`, and the
-- truth of an optional text.
use Prim.Native.Char.{Char, code}
use Prim.Native.Nat.{ℕ}
use Prim.Native.String.{String}
use mathlib.Core.Bool.{Bool, true, false, not, ◌&&◌, ◌||◌}
use mathlib.Core.Option.{Option, none, some}
use freight_auditor.Prelude.Tests.{leb, nat_eq, if◌then◌else◌}

-- White space and line terminators of the ECMAScript grammar.
abbrev pub is_space : ℕ → Bool
is_space n =
    leb 9 n && leb n 13
    || nat_eq n 32
    || nat_eq n 160
    || nat_eq n 5760
    || leb 8192 n && leb n 8202
    || nat_eq n 8232
    || nat_eq n 8233
    || nat_eq n 8239
    || nat_eq n 8287
    || nat_eq n 12288
    || nat_eq n 65279

unfoldable pub trim_start : String → String
trim_start String.[] = String.[]
trim_start (String.◌∷◌ c s) =
    let rest = trim_start s in if is_space (code c) then rest else String.◌∷◌ c s

-- Every character is white space: `!s.trim()`.
unfoldable pub is_blank : String → Bool
is_blank String.[] = true
is_blank (String.◌∷◌ c s) = is_space (code c) && is_blank s

unfoldable pub trim_end : String → String
trim_end String.[] = String.[]
trim_end (String.◌∷◌ c s) =
    if is_blank (String.◌∷◌ c s) then String.[] else String.◌∷◌ c (trim_end s)

unfoldable pub trim : String → String
trim s = trim_end (trim_start s)

abbrev pub is_upper_letter : Char → Bool
is_upper_letter c = leb 65 (code c) && leb (code c) 90

-- `/^[A-Z]{3}$/.test(s)`.
unfoldable pub is_currency_code : String → Bool
is_currency_code (String.◌∷◌ a (String.◌∷◌ b (String.◌∷◌ c String.[]))) =
    is_upper_letter a && is_upper_letter b && is_upper_letter c
is_currency_code _ = false

-- `Boolean(text?.trim())`.
unfoldable pub stated : Option String → Bool
stated none = false
stated (some s) = not (is_blank s)
