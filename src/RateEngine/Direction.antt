-- ===== src/RateEngine/Direction.antt =====
-- The directions of the attributed variances, and that no request is lost.
use freight_auditor.Prelude.{
  ◌+◌, Some, some, String, Bool, true, false, List, [], ◌∷◌, All, length, trim, ◌≡◌, ◌≢◌, ◌↔◌,
}
use freight_auditor.Money.{Decimal}
use freight_auditor.RateEngine.Variance.{
  VarianceMember, VarianceAttributionRequest, overcharge, undercharge, conformed,
  VarianceAttribution, Attributed,
}

module _ (d : Decimal) (upper : String → String) (locale_le : String → String → Bool)
    (code_unit_le : String → String → Bool) where
  -- The amounts of the members, read as decimals, add up.
  unfoldable pub AddsUp : List VarianceMember → d.D → Type 0
  AddsUp [] x = x ≡ d.zero
  AddsUp (m ∷ ms) x =
      (a b : d.D) × (d.new_decimal m.amount ≡ some a) × AddsUp ms b × (x ≡ d.plus a b)

  -- An attribution of the request: the totals of its two sides, billed less expected to four places, and
  -- a direction by the sign of that, where zero counts as an overcharge.
  unfoldable pub IsSigned : VarianceAttribution → VarianceAttributionRequest → Type 0
  IsSigned a q =
      (billed expected : d.D) × AddsUp q.billed billed
      × AddsUp q.expected expected
      × (a.level ≡ q.level)
      × (a.key ≡ trim q.key)
      × (a.billed_total ≡ d.to_fixed (d.round4 billed))
      × (a.expected_total ≡ d.to_fixed (d.round4 expected))
      × (a.variance_amount ≡ d.to_fixed (d.round4 (d.minus billed expected)))
      × ((a.direction ≡ overcharge) ↔ (d.lte d.zero (d.round4 (d.minus billed expected)) ≡ true))
      × ((a.direction ≡ undercharge) ↔ (d.lte d.zero (d.round4 (d.minus billed expected)) ≡ false))
      × (a.direction ≢ conformed)

  abbrev Good : List VarianceAttributionRequest → Attributed d upper locale_le code_unit_le → Type 0
  Good qs r =
      All (λ (a : VarianceAttribution). Some (IsSigned a) qs) r.0
      × (length r.0 + length r.1 ≡ length qs)
