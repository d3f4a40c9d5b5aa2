-- ===== src/Claims/Status.antt =====
-- A claim's statuses and the events that record them (claim-status.ts, derive-claim-status.ts). The
-- database admits only these four statuses (migrations/0060_claim_status_check_constraint.sql).
use freight_auditor.Prelude.{
  ℕ, String, ◌==◌, Bool, true, false, Option, none, some, List, [], ◌∷◌, ◌≡◌, refl, if◌then◌else◌,
  ltb,
}
use freight_auditor.Money.{Decimal}

pub data ClaimTerminalStatus : Type 0 where
  recovered denied written_off : ClaimTerminalStatus

pub data ClaimStatus : Type 0 where
  open_status : ClaimStatus
  terminal : ClaimTerminalStatus → ClaimStatus

-- `CLAIM_TERMINAL_EVENTS[status]`, which is also `claim.${status}`.
unfoldable pub claim_terminal_event : ClaimTerminalStatus → String
claim_terminal_event recovered = "claim.recovered"
claim_terminal_event denied = "claim.denied"
claim_terminal_event written_off = "claim.written_off"

unfoldable pub is_claim_terminal_status : ClaimStatus → Bool
is_claim_terminal_status open_status = false
is_claim_terminal_status (terminal t) = true

-- `TERMINAL_EVENT_TO_STATUS.get(event)`.
unfoldable pub terminal_event_to_status : String → Option ClaimTerminalStatus
terminal_event_to_status event =
    if event == "claim.recovered"
    then some recovered
    else if event == "claim.denied"
    then some denied
    else if event == "claim.written_off"
    then some written_off
    else none

abbrev pub status_eq : ClaimStatus → ClaimStatus → Bool
status_eq open_status open_status = true
status_eq (terminal recovered) (terminal recovered) = true
status_eq (terminal denied) (terminal denied) = true
status_eq (terminal written_off) (terminal written_off) = true
status_eq _ _ = false

pub status_eq_refl : (s : ClaimStatus) → status_eq s s ≡ true
status_eq_refl open_status = refl
status_eq_refl (terminal recovered) = refl
status_eq_refl (terminal denied) = refl
status_eq_refl (terminal written_off) = refl

pub terminal_event_to_status-claim_terminal_event :
    (t : ClaimTerminalStatus) → terminal_event_to_status (claim_terminal_event t) ≡ some t
unfolding terminal_event_to_status claim_terminal_event
terminal_event_to_status-claim_terminal_event recovered = refl
terminal_event_to_status-claim_terminal_event denied = refl
terminal_event_to_status-claim_terminal_event written_off = refl

pub record TerminalAuditEvent : Type 0 where
  pub event : String
  pub recorded_at : ℕ

-- `knownTerminalEvents`, each with the status that it records.
unfoldable pub known_terminal_events :
    List TerminalAuditEvent → List (TerminalAuditEvent × ClaimTerminalStatus)
known_terminal_events [] = []
known_terminal_events (e ∷ es) =
    let rest = known_terminal_events es in
    elim (terminal_event_to_status e.event) [ none ↦ rest | some t ↦ (e, t) ∷ rest ]

-- The `reduce` for `latest`: a later event replaces an earlier one, an equal time does not.
unfoldable pub latest_from :
    Option (TerminalAuditEvent × ClaimTerminalStatus)
    → List (TerminalAuditEvent × ClaimTerminalStatus)
    → Option (TerminalAuditEvent × ClaimTerminalStatus)
latest_from latest [] = latest
latest_from none (e ∷ es) = latest_from (some e) es
latest_from (some l) (e ∷ es) =
    latest_from (some (if ltb (l.0).recorded_at (e.0).recorded_at then e else l)) es

abbrev status_of : Option (TerminalAuditEvent × ClaimTerminalStatus) → ClaimStatus
status_of none = open_status
status_of (some l) = terminal l.1

unfoldable pub derived_status : List TerminalAuditEvent → ClaimStatus
unfolding latest_from known_terminal_events
derived_status events = status_of (latest_from none (known_terminal_events events))

module _ (d : Decimal) where
  pub record DeriveClaimStatusInput : Type 0 where
    pub stored_status : ClaimStatus
    pub terminal_events : List TerminalAuditEvent
    pub recovery_events : List d.D

  pub record DeriveClaimStatusResult : Type 0 where
    pub derived : ClaimStatus
    pub cumulative_recovered : String
    pub matches : Bool

  unfoldable pub sum_from : d.D → List d.D → d.D
  sum_from acc [] = acc
  sum_from acc (a ∷ rest) = sum_from (d.plus acc a) rest

  unfoldable pub derive_claim_status : DeriveClaimStatusInput → DeriveClaimStatusResult
  derive_claim_status input =
      let derived = derived_status input.terminal_events in
      record {
        derived = derived;
        cumulative_recovered = d.to_fixed (sum_from d.zero input.recovery_events);
        matches = status_eq derived input.stored_status;
      }
