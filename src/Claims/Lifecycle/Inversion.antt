-- ===== src/Claims/Lifecycle/Inversion.antt =====
-- What a successful validation of a recovery or a resolution has checked.
use freight_auditor.Prelude.{String, true, false, Option, none, some, ok, arith, ◌≡◌, ◌≢◌, ◌⊎◌}
use freight_auditor.Money.{Decimal}
use freight_auditor.Claims.Status.{recovered, denied, open_status, is_claim_terminal_status}
use freight_auditor.Claims.Validation.{
  Claim, ValidAmount, ValidPartialRecovery, ValidResolution, validate_recovery_amount_and_currency,
  validate_partial_recovery, validate_claim_resolution, resolve_by_kind, resolve_with_amount,
  ClaimResolutionKind, full_recovery, denial, write_off,
}

module _ (d : Decimal) where
  pub record PartialIsChecked (claim : Claim d) (a prior : d.D) (v : ValidPartialRecovery d)
      : Type 0 where
    pub amount : v.amount ≡ a
    pub positive : d.lte a d.zero ≡ false
    pub cumulative : v.cumulative ≡ d.plus prior a
    pub within : d.gt (d.plus prior a) claim.amount_claimed ≡ false
    pub final : v.is_final ≡ d.equals (d.plus prior a) claim.amount_claimed

  pub validate_partial_recovery-ok :
      (claim : Claim d) (a prior : d.D) (c : Option String) {v : ValidPartialRecovery d}
      → validate_partial_recovery d claim a c prior ≡ ok v
      → PartialIsChecked claim a prior v
  unfolding validate_partial_recovery validate_recovery_amount_and_currency
  validate_partial_recovery-ok claim a prior c h = ground arith

  -- The total after a resolution, by the amount that it carries.
  abbrev pub total_after : d.D → Option (ValidAmount d) → d.D
  total_after prior none = prior
  total_after prior (some v) = d.plus prior v.amount

  pub record ResolutionIsChecked (claim : Claim d) (prior : d.D) (v : ValidResolution d)
      : Type 0 where
    pub was_open : claim.status ≡ open_status
    pub full :
        v.new_status ≡ recovered → d.equals (total_after prior v.amount) claim.amount_claimed ≡ true
    pub partial :
        v.new_status ≢ recovered
        → (v.amount ≡ none) ⊎ (d.gte (total_after prior v.amount) claim.amount_claimed ≡ false)
    pub denied_without : v.new_status ≡ denied → v.amount ≡ none

  pub validate_claim_resolution-ok :
      (claim : Claim d) (kind : ClaimResolutionKind) (prior : d.D) (a : Option d.D)
      (c : Option String) {v : ValidResolution d}
      → validate_claim_resolution d claim kind prior a c ≡ ok v
      → ResolutionIsChecked claim prior v
  unfolding validate_claim_resolution validate_recovery_amount_and_currency resolve_by_kind
      resolve_with_amount is_claim_terminal_status
  validate_claim_resolution-ok claim full_recovery prior a c h = ground arith
  validate_claim_resolution-ok claim denial prior a c h = ground arith
  validate_claim_resolution-ok claim write_off prior a c h = ground arith
