-- ===== src/Claims/Validation.antt =====
-- The checks before a claim's rows are written (validate-recovery-amount-and-currency.ts,
-- validate-claimable-dispute.ts, validate-partial-recovery.ts, validate-claim-resolution.ts).
use freight_auditor.Prelude.{
  String, ◌==◌, Bool, false, not, Option, none, some, Result, ok, err, ◌>>=◌, ◌>>◌, throw_if, need,
}
use freight_auditor.Money.{Decimal}
use freight_auditor.Claims.Status.{
  ClaimTerminalStatus, recovered, denied, written_off, ClaimStatus, is_claim_terminal_status,
}

pub data ClaimResolutionKind : Type 0 where
  full_recovery denial write_off : ClaimResolutionKind

-- The error codes of the four validators and of the operations that call them.
pub data ClaimError : Type 0 where
  non_positive_amount missing_currency mixed_currency exceeds_claimed_amount : ClaimError
  already_terminal full_recovery_amount_mismatch write_off_exceeds_claimed_amount : ClaimError
  denial_must_not_include_amount not_accepted missing_amount : ClaimError
  claim_not_found dispute_not_found duplicate_claimed_finding audit_event_conflict : ClaimError

abbrev currency_differs : Option String → String → Bool
currency_differs none c = false
currency_differs (some e) c = not (c == e)

module _ (d : Decimal) where
  pub record Claim : Type 0 where
    pub amount_claimed : d.D
    pub currency : Option String
    pub status : ClaimStatus

  pub record ValidAmount : Type 0 where
    pub amount : d.D
    pub currency : String

  -- The three callbacks are the codes that every caller passes.
  unfoldable pub validate_recovery_amount_and_currency :
      d.D → Option String → Option String → Result ClaimError ValidAmount
  validate_recovery_amount_and_currency amount currency existing = do
    throw_if (d.lte amount d.zero) non_positive_amount
    c ← need currency missing_currency
    throw_if (currency_differs existing c) mixed_currency
    ok (record { amount = amount; currency = c })

  pub record ClaimableDispute : Type 0 where
    pub accepted : Bool
    pub amount_claimed : Option d.D
    pub currency : Option String

  unfoldable pub validate_claimable_dispute : ClaimableDispute → Result ClaimError ValidAmount
  validate_claimable_dispute row = do
    throw_if (not row.accepted) not_accepted
    amount ← need row.amount_claimed missing_amount
    c ← need row.currency missing_currency
    validate_recovery_amount_and_currency amount (some c) none

  pub record ValidPartialRecovery : Type 0 where
    pub amount : d.D
    pub currency : String
    pub cumulative : d.D
    pub is_final : Bool

  unfoldable pub validate_partial_recovery :
      Claim → d.D → Option String → d.D → Result ClaimError ValidPartialRecovery
  validate_partial_recovery claim amount currency prior = do
    v ← validate_recovery_amount_and_currency amount currency claim.currency
    let cumulative = d.plus prior v.amount
    throw_if (d.gt cumulative claim.amount_claimed) exceeds_claimed_amount
    ok (record {
      amount = v.amount;
      currency = v.currency;
      cumulative = cumulative;
      is_final = d.equals cumulative claim.amount_claimed;
    })

  pub record ValidResolution : Type 0 where
    pub amount : Option ValidAmount
    pub new_status : ClaimTerminalStatus

  -- The part of `validateClaimResolution` that is reached with an amount.
  unfoldable pub resolve_with_amount :
      Claim → ClaimResolutionKind → d.D → ValidAmount → Result ClaimError ValidResolution
  resolve_with_amount claim full_recovery prior v = do
    throw_if (not (d.equals (d.plus prior v.amount) claim.amount_claimed))
        full_recovery_amount_mismatch
    ok (record { amount = some v; new_status = recovered })
  resolve_with_amount claim _ prior v = do
    throw_if (d.gte (d.plus prior v.amount) claim.amount_claimed) write_off_exceeds_claimed_amount
    ok (record { amount = some v; new_status = written_off })

  unfoldable pub resolve_by_kind :
      Claim
      → ClaimResolutionKind
      → d.D
      → Option d.D
      → Option String
      → Result ClaimError ValidResolution
  resolve_by_kind claim denial prior none currency =
      ok (record { amount = none; new_status = denied })
  resolve_by_kind claim denial prior (some a) currency = err denial_must_not_include_amount
  resolve_by_kind claim write_off prior none currency =
      ok (record { amount = none; new_status = written_off })
  resolve_by_kind claim full_recovery prior none currency = err non_positive_amount
  resolve_by_kind claim kind prior (some a) currency = do
    v ← validate_recovery_amount_and_currency a currency claim.currency
    resolve_with_amount claim kind prior v

  unfoldable pub validate_claim_resolution :
      Claim
      → ClaimResolutionKind
      → d.D
      → Option d.D
      → Option String
      → Result ClaimError ValidResolution
  validate_claim_resolution claim kind prior amount currency = do
    throw_if (is_claim_terminal_status claim.status) already_terminal
    resolve_by_kind claim kind prior amount currency
