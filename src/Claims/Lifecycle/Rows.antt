-- ===== src/Claims/Lifecycle/Rows.antt =====
-- The invariant of the claim tables, and how single reads see single writes.
use freight_auditor.Prelude.{
  ℕ, String, ◌==◌, eq_iff, true, false, Option, none, some, List, [], ◌∷◌, ok, if◌then◌else◌, arith,
  ◌≡◌, ◌≢◌, refl, inl, inr, ◌∙◌,
}
use freight_auditor.Money.{Decimal}
use freight_auditor.Audit.{
  AuditEvent, AuditLog, Written, write_audit_event, same_evidence, find_event,
}
use freight_auditor.Audit.Laws.{write_audit_event-cases, same_evidence_fields}
use freight_auditor.Claims.Status.{
  ClaimTerminalStatus, recovered, ClaimStatus, open_status, terminal, claim_terminal_event,
  TerminalAuditEvent,
}
use freight_auditor.Claims.Validation.{Claim}
use freight_auditor.Claims.Store.{
  is_terminal_row, terminal_rows, ClaimEntry, RecoveryEvent, Database, find_claim, recovered_total,
  set_status,
}

-- The ledger has nothing terminal of an open claim, and one event of a resolved one: its own.
abbrev pub IsRecorded : ClaimStatus → List TerminalAuditEvent → Type 0
IsRecorded open_status es = es ≡ []
IsRecorded (terminal t) es =
    (n : ℕ) × (es ≡ (record { event = claim_terminal_event t; recorded_at = n }) ∷ [])

abbrev terminal_row : AuditEvent → TerminalAuditEvent
terminal_row e = record { event = e.event; recorded_at = e.recorded_at }

is_terminal_row_same :
    (id : String) (old e : AuditEvent)
    → same_evidence old e ≡ true
    → is_terminal_row id old ≡ is_terminal_row id e
unfolding is_terminal_row
is_terminal_row_same id old e h = let (p, q, r) = same_evidence_fields old e h in rw (p, q, r)

terminal_rows-find_event :
    (id key : String) (old : AuditEvent) (log : AuditLog)
    → find_event key log ≡ some old
    → is_terminal_row id old ≡ true
    → terminal_rows id log ≢ []
unfolding terminal_rows find_event
terminal_rows-find_event id key old [] h t = cc
terminal_rows-find_event id key old (e ∷ log) h t =
    ground (arith, terminal_rows-find_event id key old log)

pub terminal_rows-write_other :
    (id : String) (e : AuditEvent) (log : AuditLog) {w : Written}
    → write_audit_event e log ≡ ok w
    → is_terminal_row id e ≡ false
    → terminal_rows id w.log ≡ terminal_rows id log
unfolding terminal_rows
terminal_rows-write_other id e log h t = elim (write_audit_event-cases e log h) [
  | inl (p, q) ↦ ground arith
  | inr (old, p, s, q) ↦ ground arith
]

pub terminal_rows-write_first :
    (id : String) (e : AuditEvent) (log : AuditLog) {w : Written}
    → write_audit_event e log ≡ ok w
    → is_terminal_row id e ≡ true
    → terminal_rows id log ≡ []
    → terminal_rows id w.log ≡ terminal_row e ∷ []
unfolding terminal_rows
terminal_rows-write_first id e log h t nothing = elim (write_audit_event-cases e log h) [
  | inl (p, q) ↦ ground arith
  | inr (old, p, s, q) ↦
      absurd
        (terminal_rows-find_event id e.id old log p (is_terminal_row_same id old e s ∙ t) nothing)
]

pub not_terminal_of_entity :
    (id : String) (e : AuditEvent) → (e.entity == "claim") ≡ false → is_terminal_row id e ≡ false
unfolding is_terminal_row
not_terminal_of_entity id e h = rw h

module _ (d : Decimal) where
  pub record ClaimIsSound (total : d.D) (events : List TerminalAuditEvent) (c : Claim d)
      : Type 0 where
    pub within : d.lte total c.amount_claimed ≡ true
    pub exact : c.status ≡ terminal recovered → total ≡ c.amount_claimed
    pub recorded : IsRecorded c.status events

  -- A claim that is not there has no rows of its own.
  pub record DatabaseIsSound (db : Database d) : Type 0 where
    pub known :
        (id : String) (c : Claim d)
        → find_claim d id db.claims ≡ some c
        → ClaimIsSound (recovered_total d id db.recovery_events) (terminal_rows id db.audit) c
    pub unknown :
        (id : String)
        → find_claim d id db.claims ≡ none
        → (recovered_total d id db.recovery_events ≡ d.zero) × (terminal_rows id db.audit ≡ [])

  abbrev resolved : String → ClaimTerminalStatus → String → Option (Claim d) → Option (Claim d)
  resolved id t j none = none
  resolved id t j (some c) = some (if id == j then record c { status = terminal t } else c)

  pub find_claim-set_status :
      (id j : String) (t : ClaimTerminalStatus) (cs : List (ClaimEntry d))
      → find_claim d j (set_status d id t cs) ≡ resolved id t j (find_claim d j cs)
  unfolding find_claim set_status
  find_claim-set_status id j t [] = refl
  find_claim-set_status id j t (c ∷ cs) =
      ground (arith, find_claim-set_status id j t cs, eq_iff c.id id, eq_iff c.id j, eq_iff id j)

  pub total-cons :
      (id : String) (row : RecoveryEvent d) (rows : List (RecoveryEvent d))
      → recovered_total d id (row ∷ rows) ≡ (
          if row.claim_id == id
          then d.plus (recovered_total d id rows) row.amount_recovered
          else recovered_total d id rows)
  unfolding recovered_total
  total-cons id row rows = refl
