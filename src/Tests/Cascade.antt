-- ===== src/Tests/Cascade.antt =====
-- A soft STANDARD gate that a contract exempts, and a cascade of INHERIT and ADD with a repeated pin.
use freight_auditor.Prelude.{
  arith, String, none, some, List, [], ◌∷◌, All, ok, err, throw_as, ◌↔◌, ◌≡◌, ◌≢◌, refl, trim,
  trim_start, trim_end, is_blank,
}
use freight_auditor.Rubric.Cascade.{
  RubricTier, client, add, Verb, FoldedCriterion, apply_inherit_add, apply_replace, standard,
  contract, inherit, exempt, Operation, InheritAddCriterion, ExemptedCriterion, utf16_length,
  ExemptPayload, firm_rule, exempt_hard_standard_gate, hard_gate, parse_payload, exempted,
  apply_exempt, gating, human_input, CriterionProtectionMetadata, protection_of, check_members,
  apply_permitted_exempt,
}
use freight_auditor.Rubric.Resolution.{
  Bounded, Exemptible, exemption, apply_permitted_exempt-protects,
}
use freight_auditor.Rubric.Agreement.{Unreplaced, as_replace_error, apply_replace-conservative}

abbrev fuel_rule : InheritAddCriterion
fuel_rule = record {
  criterion_key = "FUEL_CAP";
  members =
      (record {
        criterion_version_id = "v1";
        introduced_by = standard;
        rubric_version_id = "r1";
        source_verb = inherit;
      })
      ∷ [];
}

abbrev waiver : Operation
waiver = record {
  criterion_key = "FUEL_CAP";
  criterion_version_id = none;
  override_verb = exempt;
  override_payload = some (record { reason = " pilot "; authority = "CFO" });
  tier = contract;
  rubric_version_id = "r3";
}

abbrev soft : List CriterionProtectionMetadata
soft = (record { criterion_version_id = "v1"; kind = gating; hardness = human_input }) ∷ []

abbrev waived : ExemptedCriterion
waived = record {
  criterion_key = "FUEL_CAP";
  prior_members = fuel_rule.members;
  reason = "pilot";
  authority = "CFO";
  exempted_by = contract;
  rubric_version_id = "r3";
}

waives : apply_permitted_exempt fuel_rule waiver soft ≡ ok waived
unfolding apply_permitted_exempt check_members protection_of apply_exempt exempted parse_payload
    utf16_length trim trim_start trim_end is_blank
waives = refl

apply_permitted_exempt-protects_example :
    (apply_permitted_exempt fuel_rule waiver soft ≡ ok waived) ↔ (
      (waiver.override_verb ≡ exempt)
      × (waiver.tier ≢ standard)
      × (fuel_rule.members ≢ [])
      × All (Exemptible soft) fuel_rule.members
      × (p : ExemptPayload) × (waiver.override_payload ≡ some p)
      × Bounded 1000 p.reason
      × Bounded 255 p.authority
      × (waived ≡ exemption fuel_rule waiver p))
apply_permitted_exempt-protects_example =
    apply_permitted_exempt-protects fuel_rule waiver soft waived

abbrev hard : List CriterionProtectionMetadata
hard = (record { criterion_version_id = "v1"; kind = gating; hardness = firm_rule }) ∷ []

-- The same waiver of a FIRM_RULE gate.
refuses :
    apply_permitted_exempt fuel_rule waiver hard
    ≡ err (exempt_hard_standard_gate "FUEL_CAP" hard_gate)
unfolding apply_permitted_exempt check_members protection_of
refuses = refl

abbrev pinned_by : RubricTier → Verb → String → Operation
pinned_by tier verb pin = record {
  criterion_key = "FUEL_CAP";
  criterion_version_id = some pin;
  override_verb = verb;
  override_payload = none;
  tier = tier;
  rubric_version_id = "r1";
}

abbrev cascade : List FoldedCriterion
cascade =
    (record {
      criterion_key = "FUEL_CAP";
      operations =
          pinned_by standard inherit "v1"
          ∷ pinned_by client inherit "v9"
          ∷ pinned_by contract add "v2"
          ∷ pinned_by contract add "v1"
          ∷ [];
    })
    ∷ []

apply_replace-conservative_example :
    apply_replace cascade ≡ throw_as as_replace_error (apply_inherit_add cascade)
unfolding Unreplaced
apply_replace-conservative_example = apply_replace-conservative cascade (
  (
    (λ e. ground (arith, e)),
    ((λ e. ground (arith, e)), ((λ e. ground (arith, e)), ((λ e. ground (arith, e)), tt))),
  ),
  tt,
)
