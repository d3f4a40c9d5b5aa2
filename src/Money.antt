-- ===== src/Money.antt =====
-- The decimal arithmetic that the modules import from decimal.js. The package is not part of the
-- repository, so it is a parameter: its operations are the record `Decimal`, and what the code
-- relies on is `IsExact`, decimal.js's documented behaviour for finite values whose results keep
-- within its precision of 20 significant digits, where no operation rounds.

pub mod Laws
use freight_auditor.Prelude.{ℕ, String, Bool, true, not, Option, some, ◌≡◌, ◌≢◌, ◌↔◌}

pub record Decimal : Type 1 where
  pub D : Type 0
  -- JavaScript's `number`, with `new Decimal(n)` for it.
  pub Number : Type 0
  pub of_number : Number → D
  pub is_finite_number : Number → Bool
  pub of_count : ℕ → Number
  -- `new Decimal(text)`, `none` where the constructor throws.
  pub new_decimal : String → Option D
  pub zero : D
  pub one : D
  pub plus : D → D → D
  pub minus : D → D → D
  pub times : D → D → D
  pub divided_by : D → D → D
  pub abs : D → D
  pub equals : D → D → Bool
  pub lt : D → D → Bool
  pub lte : D → D → Bool
  pub gt : D → D → Bool
  pub gte : D → D → Bool
  pub is_finite : D → Bool
  pub is_zero : D → Bool
  pub is_negative : D → Bool
  pub is_positive : D → Bool
  -- `toDecimalPlaces(4, ROUND_HALF_UP)`, `toFixed(4)`, `toString()`.
  pub round4 : D → D
  pub to_fixed : D → String
  pub to_string : D → String

pub record IsExact (d : Decimal) : Type 0 where
  pub equals_iff : (a b : d.D) → (d.equals a b ≡ true) ↔ (a ≡ b)
  pub plus_comm : (a b : d.D) → d.plus a b ≡ d.plus b a
  pub plus_assoc : (a b c : d.D) → d.plus (d.plus a b) c ≡ d.plus a (d.plus b c)
  pub plus_zero : (a : d.D) → d.plus a d.zero ≡ a
  pub minus_plus : (a b : d.D) → d.plus (d.minus a b) b ≡ a
  pub plus_minus : (a b : d.D) → d.minus (d.plus a b) b ≡ a
  pub lte_refl : (a : d.D) → d.lte a a ≡ true
  pub lte_trans : (a b c : d.D) → d.lte a b ≡ true → d.lte b c ≡ true → d.lte a c ≡ true
  pub lte_antisym : (a b : d.D) → d.lte a b ≡ true → d.lte b a ≡ true → a ≡ b
  pub lte_total : (a b : d.D) → d.lte a b ≢ true → d.lte b a ≡ true
  pub plus_mono : (a b c : d.D) → d.lte a b ≡ true → d.lte (d.plus a c) (d.plus b c) ≡ true
  pub lt_lem : (a b : d.D) → d.lt a b ≡ not (d.lte b a)
  pub gt_lem : (a b : d.D) → d.gt a b ≡ not (d.lte a b)
  pub gte_lem : (a b : d.D) → d.gte a b ≡ d.lte b a
  -- A finite value has one of two signs, and zero counts as positive.
  pub is_negative_lem : (a : d.D) → d.is_negative a ≡ not (d.lte d.zero a)
  pub is_positive_lem : (a : d.D) → d.is_positive a ≡ d.lte d.zero a
  pub abs_of_negative : (a : d.D) → d.is_negative a ≡ true → d.plus (d.abs a) a ≡ d.zero
  -- Printing loses nothing: all digits by `toString`, four places by `toFixed(4)`.
  pub new_decimal-to_string : (a : d.D) → d.new_decimal (d.to_string a) ≡ some a
  pub new_decimal-to_fixed : (a : d.D) → d.new_decimal (d.to_fixed a) ≡ some (d.round4 a)
