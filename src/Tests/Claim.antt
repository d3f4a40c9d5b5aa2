-- ===== src/Tests/Claim.antt =====
-- One claim, opened from an accepted dispute, partly recovered and then fully.
use freight_auditor.Prelude.{
  ℕ, String, true, false, none, some, [], ◌∷◌, Result, ok, err, ◌≡◌, ◌≢◌, refl,
}
use freight_auditor.Prelude.Int.{pos, ◌+ℤ◌, ◌-ℤ◌}
use freight_auditor.Cents.{cents, cents-IsExact}
use freight_auditor.Cents.Text.{print}
use freight_auditor.Tests.Inputs.{joined, object_text}
use freight_auditor.Audit.{find_event, write_audit_event}
use freight_auditor.Claims.Status.{
  recovered, open_status, terminal, claim_terminal_event, is_claim_terminal_status,
  DeriveClaimStatusResult,
}
use freight_auditor.Claims.Validation.{
  full_recovery, ClaimError, Claim, validate_recovery_amount_and_currency, ClaimableDispute,
  validate_claimable_dispute, validate_partial_recovery, resolve_with_amount, resolve_by_kind,
  validate_claim_resolution,
}
use freight_auditor.Claims.Store.{
  Database, find_claim, recovered_total, set_status, find_dispute, select_existing_claim,
  has_duplicate_claimed_finding, PartialRecoveryInput, record_partial_recovery, ResolutionInput,
  insert_recovery, mirror_finding, resolve_claim, CreateInput, insert_claim,
  create_claim_from_dispute, get_derived_claim_status,
}
use freight_auditor.Claims.Lifecycle.Rows.{DatabaseIsSound}
use freight_auditor.Claims.Lifecycle.Reachable.{
  recorded, resolved, created, Reach, here, next, IsFresh, Reach-IsSound,
  get_derived_claim_status-matches,
}
use freight_auditor.Claims.Lifecycle.Outcomes.{Reach-keeps_terminal, full_recovery_refused}

abbrev Db : Type 0
Db = Database cents

abbrev dispute : ClaimableDispute cents
unfolding cents
dispute = record { accepted = true; amount_claimed = some (pos 1000000); currency = some "USD" }

abbrev empty_db : Db
empty_db = record {
  claims = [];
  recovery_events = [];
  disputes = ("dispute-1", dispute) ∷ [];
  dispute_lines = [];
  exports = [];
  findings = [];
  status_events = [];
  audit = [];
}

unfoldable after : {A : Type 0} → Result ClaimError (Db × A) → Db
after (ok p) = p.0
after (err e) = empty_db

abbrev opening : CreateInput cents joined object_text
opening = record {
  actor_user_id = some "ann";
  dispute_id = "dispute-1";
  new_id = "claim-1";
  now = 1;
}

unfoldable opened : Db
opened = after (create_claim_from_dispute cents joined object_text opening empty_db)

opening_runs :
    create_claim_from_dispute cents joined object_text opening empty_db
    ≡ ok (opened, record { claim_id = "claim-1"; created = true })
unfolding opened after create_claim_from_dispute find_dispute select_existing_claim insert_claim
    validate_claimable_dispute validate_recovery_amount_and_currency has_duplicate_claimed_finding
    write_audit_event find_event find_claim recovered_total set_status record_partial_recovery
    validate_partial_recovery resolve_claim validate_claim_resolution resolve_by_kind
    resolve_with_amount insert_recovery mirror_finding is_claim_terminal_status claim_terminal_event
    joined object_text cents dispute ◌+ℤ◌ ◌-ℤ◌ print
opening_runs = refl

opening_fresh : find_claim cents "claim-1" empty_db.claims ≡ none
unfolding find_claim
opening_fresh = refl

unfoldable payment : String → ℕ → PartialRecoveryInput cents joined object_text
unfolding cents
payment id amount = record {
  claim_id = "claim-1";
  amount_recovered = pos amount;
  currency = "USD";
  finding_id = none;
  new_id = id;
  now = 2;
  enqueued = true;
}

unfoldable part_paid : Db
part_paid = after (record_partial_recovery cents joined object_text (payment "r1" 400000) opened)

part_payment_runs :
    record_partial_recovery cents joined object_text (payment "r1" 400000) opened
    ≡ ok (part_paid, record { cumulative_recovered = "40.0000"; is_final = false })
unfolding part_paid opened payment after create_claim_from_dispute find_dispute
    select_existing_claim insert_claim validate_claimable_dispute
    validate_recovery_amount_and_currency has_duplicate_claimed_finding write_audit_event find_event
    find_claim recovered_total set_status record_partial_recovery validate_partial_recovery
    resolve_claim validate_claim_resolution resolve_by_kind resolve_with_amount insert_recovery
    mirror_finding is_claim_terminal_status claim_terminal_event joined object_text cents dispute
    ◌+ℤ◌ ◌-ℤ◌ print
part_payment_runs = refl

unfoldable resolution : ℕ → ResolutionInput cents joined object_text
unfolding cents
resolution amount = record {
  claim_id = "claim-1";
  kind = full_recovery;
  amount_recovered = some (pos amount);
  currency = some "USD";
  finding_id = none;
  new_id = "r2";
  status_event_id = "s1";
  now = 3;
}

unfoldable resolved_db : Db
resolved_db = after (resolve_claim cents joined object_text (resolution 600000) part_paid)

resolution_runs :
    resolve_claim cents joined object_text (resolution 600000) part_paid
    ≡ ok (resolved_db, recovered)
unfolding resolved_db part_paid opened payment resolution after create_claim_from_dispute
    find_dispute select_existing_claim insert_claim validate_claimable_dispute
    validate_recovery_amount_and_currency has_duplicate_claimed_finding write_audit_event find_event
    find_claim recovered_total set_status record_partial_recovery validate_partial_recovery
    resolve_claim validate_claim_resolution resolve_by_kind resolve_with_amount insert_recovery
    mirror_finding is_claim_terminal_status claim_terminal_event joined object_text cents dispute
    ◌+ℤ◌ ◌-ℤ◌ print
resolution_runs = refl

abbrev history : Reach cents joined object_text empty_db resolved_db
history =
    next
      (next
        (next here (
          created opening (record { claim_id = "claim-1"; created = true }) opening_fresh
            opening_runs))
        (recorded (payment "r1" 400000)
          (record { cumulative_recovered = "40.0000"; is_final = false }) part_payment_runs))
      (resolved (resolution 600000) recovered resolution_runs)

abbrev empty_IsFresh : IsFresh cents joined object_text empty_db
empty_IsFresh = record { no_claims = refl; no_recoveries = refl; no_events = refl }

Reach-IsSound_example : DatabaseIsSound cents resolved_db
Reach-IsSound_example =
    Reach-IsSound cents joined object_text cents-IsExact {db = empty_db} {db' = resolved_db}
      empty_IsFresh history

abbrev final_claim : Claim cents
unfolding cents
final_claim = record {
  amount_claimed = pos 1000000;
  currency = some "USD";
  status = terminal recovered;
}

final_found : find_claim cents "claim-1" resolved_db.claims ≡ some final_claim
unfolding resolved_db part_paid opened payment resolution after final_claim
    create_claim_from_dispute find_dispute select_existing_claim insert_claim
    validate_claimable_dispute validate_recovery_amount_and_currency has_duplicate_claimed_finding
    write_audit_event find_event find_claim recovered_total set_status record_partial_recovery
    validate_partial_recovery resolve_claim validate_claim_resolution resolve_by_kind
    resolve_with_amount insert_recovery mirror_finding is_claim_terminal_status claim_terminal_event
    joined object_text cents dispute ◌+ℤ◌ ◌-ℤ◌ print
final_found = refl

get_derived_claim_status-matches_example :
    (r : DeriveClaimStatusResult cents) × (get_derived_claim_status cents "claim-1" resolved_db
      ≡ ok r)
    × (r.derived ≡ final_claim.status)
    × (r.matches ≡ true)
get_derived_claim_status-matches_example =
    get_derived_claim_status-matches cents joined object_text cents-IsExact {db = empty_db}
      {db' = resolved_db} "claim-1" final_claim empty_IsFresh history final_found

final_terminal : final_claim.status ≡ terminal recovered
unfolding final_claim
final_terminal = refl

abbrev reopening : CreateInput cents joined object_text
reopening = record {
  actor_user_id = some "ann";
  dispute_id = "dispute-1";
  new_id = "claim-2";
  now = 9;
}

reopening_fresh : find_claim cents "claim-2" resolved_db.claims ≡ none
unfolding resolved_db part_paid opened payment resolution after create_claim_from_dispute
    find_dispute select_existing_claim insert_claim validate_claimable_dispute
    validate_recovery_amount_and_currency has_duplicate_claimed_finding write_audit_event find_event
    find_claim recovered_total set_status record_partial_recovery validate_partial_recovery
    resolve_claim validate_claim_resolution resolve_by_kind resolve_with_amount insert_recovery
    mirror_finding is_claim_terminal_status claim_terminal_event joined object_text cents dispute
    ◌+ℤ◌ ◌-ℤ◌ print
reopening_fresh = refl

reopening_runs :
    create_claim_from_dispute cents joined object_text reopening resolved_db
    ≡ ok (resolved_db, record { claim_id = "claim-1"; created = false })
unfolding resolved_db part_paid opened payment resolution after create_claim_from_dispute
    find_dispute select_existing_claim insert_claim validate_claimable_dispute
    validate_recovery_amount_and_currency has_duplicate_claimed_finding write_audit_event find_event
    find_claim recovered_total set_status record_partial_recovery validate_partial_recovery
    resolve_claim validate_claim_resolution resolve_by_kind resolve_with_amount insert_recovery
    mirror_finding is_claim_terminal_status claim_terminal_event joined object_text cents dispute
    ◌+ℤ◌ ◌-ℤ◌ print
reopening_runs = refl

Reach-keeps_terminal_example : find_claim cents "claim-1" resolved_db.claims ≡ some final_claim
Reach-keeps_terminal_example =
    Reach-keeps_terminal cents joined object_text {db = resolved_db} {db' = resolved_db} "claim-1"
      final_claim recovered final_terminal
      (next here (
        created reopening (record { claim_id = "claim-1"; created = false }) reopening_fresh
          reopening_runs))
      final_found

unfoldable paid_out : Db
paid_out = after (record_partial_recovery cents joined object_text (payment "r1" 1000000) opened)

abbrev open_claim : Claim cents
unfolding cents
open_claim = record { amount_claimed = pos 1000000; currency = some "USD"; status = open_status }

open_found : find_claim cents "claim-1" paid_out.claims ≡ some open_claim
unfolding paid_out opened payment after open_claim create_claim_from_dispute find_dispute
    select_existing_claim insert_claim validate_claimable_dispute
    validate_recovery_amount_and_currency has_duplicate_claimed_finding write_audit_event find_event
    find_claim recovered_total set_status record_partial_recovery validate_partial_recovery
    resolve_claim validate_claim_resolution resolve_by_kind resolve_with_amount insert_recovery
    mirror_finding is_claim_terminal_status claim_terminal_event joined object_text cents dispute
    ◌+ℤ◌ ◌-ℤ◌ print
open_found = refl

open_spent : recovered_total cents "claim-1" paid_out.recovery_events ≡ open_claim.amount_claimed
unfolding paid_out opened payment after open_claim create_claim_from_dispute find_dispute
    select_existing_claim insert_claim validate_claimable_dispute
    validate_recovery_amount_and_currency has_duplicate_claimed_finding write_audit_event find_event
    find_claim recovered_total set_status record_partial_recovery validate_partial_recovery
    resolve_claim validate_claim_resolution resolve_by_kind resolve_with_amount insert_recovery
    mirror_finding is_claim_terminal_status claim_terminal_event joined object_text cents dispute
    ◌+ℤ◌ ◌-ℤ◌ print
open_spent = refl

asks_full : (resolution 1).kind ≡ full_recovery
unfolding resolution
asks_full = refl

names_claim : (resolution 1).claim_id ≡ "claim-1"
unfolding resolution
names_claim = refl

full_recovery_refused_example :
    resolve_claim cents joined object_text (resolution 1) paid_out ≢ ok (paid_out, recovered)
unfolding resolution
full_recovery_refused_example =
    full_recovery_refused cents joined object_text cents-IsExact (resolution 1) paid_out paid_out
      open_claim recovered asks_full open_found open_spent
