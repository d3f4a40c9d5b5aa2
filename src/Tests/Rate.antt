-- ===== src/Tests/Rate.antt =====
-- Two groups: one that agrees to the cent, one with a side missing.
use freight_auditor.Prelude.{String, [], ◌∷◌}
use freight_auditor.Cents.{cents}
use freight_auditor.Tests.Inputs.{code_point_le}
use freight_auditor.RateEngine.Variance.{
  VarianceMember, group, invoice, VarianceAttributionRequest, overcharge, VarianceAttribution,
  missing_side, Attributed,
}

abbrev member : String → String → VarianceMember
member id amount = record { id = id; amount = amount; currency = "USD" }

abbrev fuel : VarianceAttributionRequest
fuel = record {
  level = group;
  key = "FUEL";
  billed = member "b1" "10.5" ∷ [];
  expected = member "e1" "10" ∷ member "e2" "0.50" ∷ [];
}

abbrev lane : VarianceAttributionRequest
lane = record { level = invoice; key = "LANE"; billed = member "b2" "7" ∷ []; expected = [] }

abbrev same_text : String → String
same_text s = s

abbrev fuel_attribution : VarianceAttribution
fuel_attribution = record {
  level = group;
  key = "FUEL";
  currency = "USD";
  billed_ids = "b1" ∷ [];
  expected_ids = "e1" ∷ "e2" ∷ [];
  billed_total = "10.5000";
  expected_total = "10.5000";
  variance_amount = "0.0000";
  direction = overcharge;
}

abbrev answer : Attributed cents same_text code_point_le code_point_le
answer =
    (fuel_attribution ∷ [], (record { level = invoice; key = "LANE"; reason = missing_side }) ∷ [])
