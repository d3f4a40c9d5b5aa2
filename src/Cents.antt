-- ===== src/Cents.antt =====
-- A concrete decimal arithmetic, at which the tests run: amounts with four decimal places, counted in
-- ten-thousandths, printed and read as decimal text. Products and quotients drop further places.
pub mod Text
use freight_auditor.Prelude.{
  ℕ, suc, ◌+◌, ◌*◌, ◌/◌, ◌≤◌, ◌≡◌, refl, true, false, not, Bool, arith, ◌&&◌, ◌||◌, if◌then◌else◌,
  nat_eq, some, leb, ◌↔◌, ◌≢◌, ap, String,
}
use freight_auditor.Prelude.Int.{
  ℤ, pos, negsuc, pos_part, neg_part, sub_ℕ, ◌+ℤ◌, ◌-ℤ◌, leb_ℤ, eq_ℤ, eq_ℤ_iff, int_laws,
  eq_of_parts, +ℤ_parts, -ℤ_parts,
}
use Text.{print, read, read-print}
use freight_auditor.Money.{Decimal, IsExact}

unfoldable pub magnitude : ℤ → ℕ
magnitude a = pos_part a + neg_part a

unfoldable pub product : ℤ → ℤ → ℤ
product a b =
    sub_ℕ ((pos_part a * pos_part b + neg_part a * neg_part b) / 10000)
      ((pos_part a * neg_part b + neg_part a * pos_part b) / 10000)

unfoldable pub quotient : ℤ → ℤ → ℤ
unfolding magnitude
quotient a b =
    let q = magnitude a * 10000 / magnitude b in
    if leb_ℤ a (pos 0) && leb_ℤ b (pos 0) || leb_ℤ (pos 0) a && leb_ℤ (pos 0) b
    then pos q
    else sub_ℕ 0 q

unfoldable pub cents : Decimal
unfolding product quotient magnitude
cents = record {
  D = ℤ;
  Number = ℤ;
  of_number = λ n. n;
  is_finite_number = λ n. true;
  of_count = λ n. pos (n * 10000);
  new_decimal = read;
  zero = pos 0;
  one = pos 10000;
  plus = ◌+ℤ◌;
  minus = ◌-ℤ◌;
  times = product;
  divided_by = quotient;
  abs = λ a. pos (magnitude a);
  equals = eq_ℤ;
  lt = λ a b. not (leb_ℤ b a);
  lte = leb_ℤ;
  gt = λ a b. not (leb_ℤ a b);
  gte = λ a b. leb_ℤ b a;
  is_finite = λ a. true;
  is_zero = λ a. eq_ℤ a (pos 0);
  is_negative = λ a. not (leb_ℤ (pos 0) a);
  is_positive = λ a. leb_ℤ (pos 0) a;
  round4 = λ a. a;
  to_fixed = print;
  to_string = print;
}

leb_ℤ_trans : (a b c : ℤ) → leb_ℤ a b ≡ true → leb_ℤ b c ≡ true → leb_ℤ a c ≡ true
leb_ℤ_trans a b c h k = ground arith

leb_ℤ_total : (a b : ℤ) → leb_ℤ a b ≢ true → leb_ℤ b a ≡ true
leb_ℤ_total a b h = ground arith

leb_ℤ_mono : (a b c : ℤ) → leb_ℤ a b ≡ true → leb_ℤ (a +ℤ c) (b +ℤ c) ≡ true
leb_ℤ_mono a b c h = ground (arith, +ℤ_parts a c, +ℤ_parts b c)

abs_of_negative : (a : ℤ) → not (leb_ℤ (pos 0) a) ≡ true → pos (magnitude a) +ℤ a ≡ pos 0
unfolding magnitude ◌+ℤ◌
abs_of_negative a h = ground arith

pub cents-IsExact : IsExact cents
unfolding cents magnitude
cents-IsExact = record {
  equals_iff = eq_ℤ_iff;
  plus_comm = λ a b. omega int_laws;
  plus_assoc = λ a b c. omega int_laws;
  plus_zero = λ a. omega int_laws;
  minus_plus = λ a b. omega int_laws;
  plus_minus = λ a b. omega int_laws;
  lte_refl = λ a. ground arith;
  lte_trans = leb_ℤ_trans;
  lte_antisym = λ a b h k. eq_of_parts a b (ground arith);
  lte_total = leb_ℤ_total;
  plus_mono = leb_ℤ_mono;
  lt_lem = λ a b. refl;
  gt_lem = λ a b. refl;
  gte_lem = λ a b. refl;
  is_negative_lem = λ a. refl;
  is_positive_lem = λ a. refl;
  abs_of_negative = abs_of_negative;
  new_decimal-to_string = read-print;
  new_decimal-to_fixed = read-print;
}
