-- ===== src/Workflow/Commands/Recoveries.antt =====
-- The evidence of a recovery: its event is new to the ledger, so that recording it cannot fail.
use freight_auditor.Prelude.{
  ℕ, suc, ◌≤◌, ◌<◌, String, ◌==◌, true, false, none, List, [], ◌∷◌, if◌then◌else◌, All, Result, ok,
  ◌>>=◌, ◌≡◌, inl, inr, refl, sym, ap, ◌∙◌, arith, eq_iff, Bool-cases,
}
use freight_auditor.Audit.{AuditError, Written, AuditEvent, AuditLog, find_event, write_audit_event}
use freight_auditor.Workflow.Queue.{
  is_claimed, count_text, Row, outcome_of, reclaimed_claim, ReclaimStaleClaimsConfig,
  ReclaimStaleClaimsResult, counted, recovery_event, record_recoveries,
}
use freight_auditor.Workflow.Queue.Rows.{Distinct, absent}
use freight_auditor.Workflow.Keys.{count_text_inj}

module _ {W : Type 0} where
  -- The attempt that the next recovery of a row is of.
  abbrev pub next_attempt : Row W → ℕ
  next_attempt r = if is_claimed r.status then r.attempts else suc r.attempts

module _ (audit_event_id : List String → String)
    (injective : (xs ys : List String) → audit_event_id xs ≡ audit_event_id ys → xs ≡ ys) where
  second_fourth :
      (a b c d a' b' c' d' : String)
      → audit_event_id (a ∷ b ∷ c ∷ d ∷ []) ≡ audit_event_id (a' ∷ b' ∷ c' ∷ d' ∷ [])
      → (b ≡ b') × (d ≡ d')
  second_fourth a b c d a' b' c' d' e = let same = injective _ _ e in (cc, cc)

write_new :
    (e : AuditEvent) (log : AuditLog)
    → find_event e.id log ≡ none
    → write_audit_event e log ≡ ok (record { log = e ∷ log; created = true })
unfolding write_audit_event
write_new e log h = ground (arith, h)

module _ {W : Type 0} (audit_event_id : List String → String) where
  -- No recovery of the attempts to come is recorded.
  unfoldable pub Unrecorded : AuditLog → Row W → Type 0
  Unrecorded log r =
      (owner event : String) (n : ℕ)
      → next_attempt r ≤ n
      → find_event (audit_event_id (owner ∷ r.id ∷ event ∷ count_text n ∷ [])) log ≡ none

  abbrev pub Kept : List (Row W) → Row W → Type 0
  Kept cs r = All (λ (c : Row W). c.id ≡ r.id → c.attempts < next_attempt r) cs

  module _
      (injective : (xs ys : List String) → audit_event_id xs ≡ audit_event_id ys → xs ≡ ys) where
    write-Unrecorded :
        (owner event : String) (c r : Row W) (e : AuditEvent) (log : AuditLog)
        → e.id ≡ audit_event_id (owner ∷ c.id ∷ event ∷ count_text c.attempts ∷ [])
        → (c.id ≡ r.id → c.attempts < next_attempt r)
        → Unrecorded log r
        → Unrecorded (e ∷ log) r
    unfolding Unrecorded find_event
    write-Unrecorded owner event c r e log made later h owner' event' n le =
        elim (Bool-cases (e.id == audit_event_id (owner' ∷ r.id ∷ event' ∷ count_text n ∷ []))) [
          | inr other ↦ rw other (h owner' event' n le)
          | inl same ↦
              let (i, t) =
                second_fourth audit_event_id injective _ _ _ _ _ _ _ _
                  (sym made ∙ (eq_iff _ _).0 same) in
              absurd (omega (arith, later i, count_text_inj c.attempts n t, le))
        ]

    module _ (json : List (String × String) → String) (config : ReclaimStaleClaimsConfig)
        (owner : String) (now : ℕ) where
      abbrev event_for : Row W → AuditEvent
      event_for c = recovery_event audit_event_id json config owner now (reclaimed_claim c)

      -- No event of the row's own last attempt is recorded.
      abbrev Recoverable : AuditLog → Row W → Type 0
      Recoverable log c =
          (owner event : String)
          → find_event (audit_event_id (owner ∷ c.id ∷ event ∷ count_text c.attempts ∷ [])) log
            ≡ none

      still-Recoverable :
          (c : Row W) (cs : List (Row W)) (log : AuditLog)
          → All (λ (x : Row W). (c.id == x.id) ≡ false) cs
          → All (Recoverable log) cs
          → All (Recoverable (event_for c ∷ log)) cs
      unfolding find_event
      still-Recoverable c [] log d h = tt
      still-Recoverable c (x ∷ xs) log d h = (
        (λ owner' event'.
            elim (Bool-cases (
              (event_for c).id
              == audit_event_id (owner' ∷ x.id ∷ event' ∷ count_text x.attempts ∷ []))) [
                | inr other ↦ rw other (h.0 owner' event')
                | inl same ↦
                    let (i, t) =
                      second_fourth audit_event_id injective _ _ _ _ _ _ _ _
                        ((eq_iff _ _).0 same) in
                    absurd (ground (arith, eq_iff c.id x.id, i, d.0))
              ]),
        still-Recoverable c xs log d.1 h.1,
      )

      pub record_recoveries-ok :
          (cs : List (Row W)) (log : AuditLog) (n : ReclaimStaleClaimsResult)
          → Distinct cs
          → All (Recoverable log) cs
          → (s : AuditLog × ReclaimStaleClaimsResult) × (record_recoveries audit_event_id json
                config owner now cs
                (log, n)
              ≡ ok s)
            × ((r : Row W) → Kept cs r → Unrecorded log r → Unrecorded s.0 r)
      unfolding record_recoveries Distinct
      record_recoveries-ok [] log n d h = ((log, n), refl, λ r k u. u)
      record_recoveries-ok (c ∷ cs) log n d h =
          let (s, e, keeps) =
            record_recoveries-ok cs (event_for c ∷ log) (counted (outcome_of c.status) n) d.1
              (still-Recoverable c cs log (absent c.id cs d.0) h.1) in
          (
            s,
            ap
                  (λ (m : Result AuditError Written). m >>= λ w.
                    record_recoveries audit_event_id json config owner now cs
                      (w.log, counted (outcome_of c.status) n))
                  (write_new (event_for c) log (h.0 owner (event_for c).event))
                ∙ e,
            λ r k u.
                keeps r k.1
                  (write-Unrecorded owner (event_for c).event c r (event_for c) log refl k.0 u),
          )
