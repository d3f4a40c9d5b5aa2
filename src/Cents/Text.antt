-- ===== src/Cents/Text.antt =====
-- Decimal text of a number of ten-thousandths, and reading it back.
use Prim.Native.Char.{Char, code}
use freight_auditor.Prelude.{
  ℕ, zero, suc, ◌+◌, ◌-◌, ◌*◌, ◌/◌, ◌%◌, ◌<◌, ◌≡◌, refl, Bool, Option, none, some, String, arith,
  leb, nat_eq, if◌then◌else◌, ◌&&◌, true, ◌∙◌, ap, Bool-cases, inl, inr,
}
use freight_auditor.Prelude.Int.{ℤ, pos, negsuc, neg_of}

unfoldable pub digit : ℕ → Char
digit zero = "0"
digit (suc zero) = "1"
digit (suc (suc zero)) = "2"
digit (suc (suc (suc zero))) = "3"
digit (suc (suc (suc (suc zero)))) = "4"
digit (suc (suc (suc (suc (suc zero))))) = "5"
digit (suc (suc (suc (suc (suc (suc zero)))))) = "6"
digit (suc (suc (suc (suc (suc (suc (suc zero))))))) = "7"
digit (suc (suc (suc (suc (suc (suc (suc (suc zero)))))))) = "8"
digit (suc (suc (suc (suc (suc (suc (suc (suc (suc zero))))))))) = "9"
digit (suc (suc (suc (suc (suc (suc (suc (suc (suc (suc n)))))))))) = "0"

code-digit : (d : ℕ) → d < 10 → code (digit d) ≡ 48 + d
unfolding digit
code-digit zero h = refl
code-digit (suc zero) h = refl
code-digit (suc (suc zero)) h = refl
code-digit (suc (suc (suc zero))) h = refl
code-digit (suc (suc (suc (suc zero)))) h = refl
code-digit (suc (suc (suc (suc (suc zero))))) h = refl
code-digit (suc (suc (suc (suc (suc (suc zero)))))) h = refl
code-digit (suc (suc (suc (suc (suc (suc (suc zero))))))) h = refl
code-digit (suc (suc (suc (suc (suc (suc (suc (suc zero)))))))) h = refl
code-digit (suc (suc (suc (suc (suc (suc (suc (suc (suc zero))))))))) h = refl
code-digit (suc (suc (suc (suc (suc (suc (suc (suc (suc (suc n)))))))))) h = absurd (omega arith)

unfoldable pub is_digit : ℕ → Bool
is_digit c = leb 48 c && leb c 57

digit_value : (d : ℕ) → d < 10 → (is_digit (code (digit d)) ≡ true) × (code (digit d) - 48 ≡ d)
unfolding is_digit
digit_value d h = let e = code-digit d h in (rw e (ground arith), omega (arith, e))

-- The digits of `n` in front of `rest`; nothing for 0.
unfoldable pub print_digits : ℕ → ℕ → String → String
print_digits zero n rest = rest
print_digits (suc f) n rest =
    let more = print_digits f (n / 10) (String.◌∷◌ (digit (n % 10)) rest) in
    if nat_eq n 0 then rest else more

unfoldable pub print_fraction : ℕ → String
unfolding digit
print_fraction r = String.◌∷◌ "." (
    String.◌∷◌ (digit (r / 1000)) (
      String.◌∷◌ (digit (r / 100 % 10))
        (String.◌∷◌ (digit (r / 10 % 10)) (String.◌∷◌ (digit (r % 10)) String.[]))))

-- The digits of the fraction: at most four, the first worth `place`.
unfoldable pub read_fraction : ℕ → ℕ → String → Option ℕ
read_fraction place acc String.[] = some acc
read_fraction place acc (String.◌∷◌ c s) =
    let rest = read_fraction (place / 10) (acc + (code c - 48) * place) s in
    if is_digit (code c) then rest else none

unfoldable pub read_digits : ℕ → String → Option ℕ
unfolding read_fraction is_digit
read_digits acc String.[] = some (acc * 10000)
read_digits acc (String.◌∷◌ c s) =
    let rest = read_digits (acc * 10 + (code c - 48)) s in
    let fraction = read_fraction 1000 (acc * 10000) s in
    if is_digit (code c) then rest else if nat_eq (code c) 46 then fraction else none

read-fraction_lem :
    (acc r : ℕ) → r < 10000 → read_digits acc (print_fraction r) ≡ some (acc * 10000 + r)
unfolding read_digits print_fraction
read-fraction_lem acc r h =
    let (d₁, v₁) = digit_value (r / 1000) (omega arith) in
    let (d₂, v₂) = digit_value (r / 100 % 10) (omega arith) in
    let (d₃, v₃) = digit_value (r / 10 % 10) (omega arith) in
    let (d₄, v₄) = digit_value (r % 10) (omega arith) in
    rw (d₁, d₂, d₃, d₄, v₁, v₂, v₃, v₄) (ap some (omega arith))

read-one :
    (n : ℕ) (rest : String)
    → read_digits (n / 10) (String.◌∷◌ (digit (n % 10)) rest) ≡ read_digits n rest
unfolding read_digits
read-one n rest =
    let (d, v) = digit_value (n % 10) (omega arith) in
    let w : n / 10 * 10 + n % 10 ≡ n = omega arith in rw (d, v, w)

read-zero :
    (r : ℕ) → read_digits 0 (String.◌∷◌ "0" (print_fraction r)) ≡ read_digits 0 (print_fraction r)
unfolding read_digits
read-zero r = refl

pub read_digits-print_digits :
    (f n : ℕ) (rest : String) → n < f → read_digits 0 (print_digits f n rest) ≡ read_digits n rest
unfolding print_digits
read_digits-print_digits zero n rest h = elim h [ ]
read_digits-print_digits (suc f) n rest h = elim (Bool-cases (nat_eq n 0)) [
  | inl e ↦ rw e (ap (λ (k : ℕ). read_digits k rest) (ground arith))
  | inr e ↦ rw e (
      read_digits-print_digits f (n / 10) (String.◌∷◌ (digit (n % 10)) rest) (ground arith)
      ∙ read-one n rest)
]

unfoldable pub print_body : ℕ → String
print_body n =
    let q = n / 10000 in
    let fraction = print_fraction (n % 10000) in
    if nat_eq q 0 then String.◌∷◌ "0" fraction else print_digits (suc q) q fraction

read_digits-print_body : (n : ℕ) → read_digits 0 (print_body n) ≡ some n
unfolding print_body
read_digits-print_body n = elim (Bool-cases (nat_eq (n / 10000) 0)) [
  | inl e ↦ rw e (
      read-zero (n % 10000)
      ∙ read-fraction_lem 0 (n % 10000) (omega arith)
      ∙ ap some (ground arith))
  | inr e ↦ rw e (
      read_digits-print_digits (suc (n / 10000)) (n / 10000) _ (omega arith)
      ∙ read-fraction_lem (n / 10000) (n % 10000) (omega arith)
      ∙ ap some (omega arith))
]

unfoldable pub print : ℤ → String
unfolding print_body print_digits print_fraction
print (pos n) = print_body n
print (negsuc n) = String.◌∷◌ "-" (print_body (suc n))

abbrev negated : Option ℕ → Option ℤ
negated none = none
negated (some n) = some (neg_of n)

unfoldable pub read_negative : String → Option ℤ
unfolding read_digits
read_negative String.[] = none
read_negative (String.◌∷◌ c s) = if nat_eq (code c) 45 then negated (read_digits 0 s) else none

unfoldable pub read : String → Option ℤ
unfolding read_digits read_negative
read s = elim (read_digits 0 s) [ some n ↦ some (pos n) | none ↦ read_negative s ]

pub read-print : (a : ℤ) → read (print a) ≡ some a
unfolding read print
read-print (pos n) = rw (read_digits-print_body n, read)
read-print (negsuc n) = rw (read_digits-print_body (suc n), read) (ap some (ground arith))
