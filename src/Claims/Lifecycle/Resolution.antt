-- ===== src/Claims/Lifecycle/Resolution.antt =====
-- Resolving a claim keeps the invariant of the claim tables.
use freight_auditor.Prelude.{
  ℕ, String, ◌==◌, eq_iff, true, false, Option, none, some, List, [], ok, if◌then◌else◌, arith, ◌≡◌,
  refl, Bool-cases, Option-cases, inl, inr, subst, ◌∙◌, Result-cases,
}
use freight_auditor.Money.{Decimal, IsExact}
use freight_auditor.Audit.{write_audit_event}
use freight_auditor.Claims.Status.{
  ClaimTerminalStatus, recovered, denied, written_off, terminal,
  terminal_event_to_status-claim_terminal_event,
}
use freight_auditor.Claims.Findings.{
  FindingTables, update_finding_status, find_status, status_changed,
}
use freight_auditor.Claims.Store.{
  is_terminal_row, terminal_rows, first, lift_audit, Database, RecoveryEvent, find_claim,
  recovered_total, set_status, claim_resolved, ResolutionInput, insert_recovery, mirror_finding,
}
use freight_auditor.Claims.Validation.{Claim, ValidResolution, ValidAmount}
use freight_auditor.Claims.Lifecycle.Rows.{
  IsRecorded, ClaimIsSound, DatabaseIsSound, terminal_rows-write_other, terminal_rows-write_first,
  find_claim-set_status, not_terminal_of_entity,
}
use freight_auditor.Claims.Lifecycle.Inversion.{
  ResolutionIsChecked, total_after, validate_claim_resolution-ok,
}
use freight_auditor.Claims.Lifecycle.Runs.{ResolveRun}

terminal-injective : {t u : ClaimTerminalStatus} → terminal t ≡ terminal u → t ≡ u
terminal-injective h = cc

module _ (d : Decimal) (exact : IsExact d) (audit_event_id : List String → String)
    (json : List (String × String) → String) where
  update-terminal_rows :
      (id finding to note event : String) (now : ℕ) (t : FindingTables) {t' : FindingTables}
      → first (lift_audit (update_finding_status audit_event_id json finding to note event now t))
        ≡ ok t'
      → terminal_rows id t'.audit ≡ terminal_rows id t.audit
  unfolding update_finding_status
  update-terminal_rows id finding to note event now t {t'} h =
      elim (Option-cases (find_status finding t.findings)) [
        | inl p ↦ ground arith
        | inr (from, p) ↦
            let e = status_changed audit_event_id json finding from to note event now in
            elim (Result-cases (write_audit_event e t.audit)) [
              | inr (x, q) ↦ absurd (ground arith)
              | inl (w, q) ↦
                  let same : t'.audit ≡ w.log = ground arith in
                  rw same
                    (terminal_rows-write_other id e t.audit q (not_terminal_of_entity id e refl))
            ]
      ]

  mirror-terminal_rows :
      (input : ResolutionInput d audit_event_id json) (t : ClaimTerminalStatus) (db : Database d)
      {tables : FindingTables} (id : String)
      → mirror_finding d audit_event_id json input t db ≡ ok tables
      → terminal_rows id tables.audit ≡ terminal_rows id db.audit
  unfolding mirror_finding
  mirror-terminal_rows input t db {tables} id h = elim (Option-cases input.finding_id) [
    | inl p ↦ ground arith
    | inr (f, p) ↦ mirror_some t f p h
  ]
    where
      mirror_some :
          (t : ClaimTerminalStatus) (f : String)
          → input.finding_id ≡ some f
          → mirror_finding d audit_event_id json input t db ≡ ok tables
          → terminal_rows id tables.audit ≡ terminal_rows id db.audit
      mirror_some recovered f p h =
          update-terminal_rows id f "recovered" _ _ _ _ (rw (p, mirror_finding) at h)
      mirror_some written_off f p h =
          update-terminal_rows id f "written_off" _ _ _ _ (rw (p, mirror_finding) at h)
      mirror_some denied f p h = ground arith

  insert-total :
      (input : ResolutionInput d audit_event_id json) (a : Option (ValidAmount d)) (id : String)
      (rows : List (RecoveryEvent d))
      → recovered_total d id (insert_recovery d audit_event_id json input a rows) ≡ (
          if input.claim_id == id
          then total_after d (recovered_total d id rows) a
          else recovered_total d id rows)
  unfolding insert_recovery recovered_total
  insert-total input none id rows = ground arith
  insert-total input (some v) id rows = refl

  -- The total fits, on each of the ways to resolve.
  resolved_within :
      (claim : Claim d) (prior : d.D) (v : ValidResolution d) (t : ClaimTerminalStatus)
      → v.new_status ≡ t
      → ResolutionIsChecked d claim prior v
      → d.lte prior claim.amount_claimed ≡ true
      → d.lte (total_after d prior v.amount) claim.amount_claimed ≡ true
  resolved_within claim prior v recovered e c fits =
      rw ((exact.equals_iff _ _).0 (c.full e)) (exact.lte_refl _)
  resolved_within claim prior v _ e c fits = elim (c.partial (λ r. cc)) [
    | inl without ↦ rw without fits
    | inr below ↦
        exact.lte_total _ _
          (λ le. cc (exact.gte_lem (total_after d prior v.amount) claim.amount_claimed))
  ]

  module _ {input : ResolutionInput d audit_event_id json} {db db' : Database d}
      (run : ResolveRun d audit_event_id json input db db') (s : DatabaseIsSound d db) where
    checked :
        ResolutionIsChecked d run.claim (recovered_total d input.claim_id db.recovery_events) run.v
    checked = validate_claim_resolution-ok d run.claim input.kind _ _ _ run.valid

    resolve-total :
        (id : String)
        → recovered_total d id db'.recovery_events ≡ (
            if input.claim_id == id
            then total_after d (recovered_total d id db.recovery_events) run.v.amount
            else recovered_total d id db.recovery_events)
    resolve-total id = rw run.rows (insert-total input run.v.amount id db.recovery_events)

    event_is_terminal :
        is_terminal_row input.claim_id (claim_resolved d audit_event_id json input run.v) ≡ true
    unfolding is_terminal_row
    event_is_terminal = rw (
      terminal_event_to_status-claim_terminal_event run.v.new_status,
      (eq_iff input.claim_id input.claim_id).1 refl,
    )

    other_is_not_terminal :
        (id : String)
        → (input.claim_id == id) ≡ false
        → is_terminal_row id (claim_resolved d audit_event_id json input run.v) ≡ false
    unfolding is_terminal_row
    other_is_not_terminal id h = rw h

    other-terminal_rows :
        (id : String)
        → (input.claim_id == id) ≡ false
        → terminal_rows id db'.audit ≡ terminal_rows id db.audit
    other-terminal_rows id other = rw run.audit (
        terminal_rows-write_other id _ run.tables.audit run.wrote (other_is_not_terminal id other)
        ∙ mirror-terminal_rows input run.v.new_status db id run.mirrored)

    was_bare :
        ClaimIsSound d
          (recovered_total d input.claim_id db.recovery_events)
          (terminal_rows input.claim_id db.audit)
          run.claim
        → terminal_rows input.claim_id db.audit ≡ []
    was_bare old =
        subst (λ st. IsRecorded st (terminal_rows input.claim_id db.audit)) checked.was_open
          old.recorded

    resolved-known :
        ClaimIsSound d
          (recovered_total d input.claim_id db.recovery_events)
          (terminal_rows input.claim_id db.audit)
          run.claim
        → ClaimIsSound d
            (recovered_total d input.claim_id db'.recovery_events)
            (terminal_rows input.claim_id db'.audit)
            (record (run.claim) { status = terminal run.v.new_status })
    resolved-known old =
        let self = (eq_iff input.claim_id input.claim_id).1 refl in
        let total = resolve-total input.claim_id ∙ (rw self) in
        record {
          within = rw total (resolved_within run.claim _ run.v _ refl checked old.within);
          exact = λ r. total ∙ (exact.equals_iff _ _).0 (checked.full (terminal-injective r));
          recorded = (
            input.now,
            rw run.audit (
                terminal_rows-write_first input.claim_id _ run.tables.audit run.wrote
                  event_is_terminal
                  (mirror-terminal_rows input run.v.new_status db input.claim_id run.mirrored
                    ∙ was_bare old)),
          );
        }

    other-known :
        (id : String) (c : Claim d)
        → (input.claim_id == id) ≡ false
        → ClaimIsSound d (recovered_total d id db.recovery_events) (terminal_rows id db.audit) c
        → ClaimIsSound d (recovered_total d id db'.recovery_events) (terminal_rows id db'.audit) c
    other-known id c other old =
        let total = resolve-total id ∙ (rw other) in
        record {
          within = rw total old.within;
          exact = λ r. total ∙ old.exact r;
          recorded = rw (other-terminal_rows id other) old.recorded;
        }

    resolved_claim :
        (id : String) (c : Claim d)
        → find_claim d id (set_status d input.claim_id run.v.new_status db.claims) ≡ some c
        → ClaimIsSound d (recovered_total d id db'.recovery_events) (terminal_rows id db'.audit) c
    resolved_claim id c f = elim (Bool-cases (input.claim_id == id)) [
      | inl same ↦
          let e = (eq_iff input.claim_id id).0 same in
          let k : (record (run.claim) { status = terminal run.v.new_status }) ≡ c = ground (
            arith,
            find_claim-set_status d input.claim_id id run.v.new_status db.claims,
            run.found,
          ) in
          subst
            (λ i.
              ClaimIsSound d (recovered_total d i db'.recovery_events) (terminal_rows i db'.audit)
                c)
            e
            (subst
              (λ x.
                ClaimIsSound d (recovered_total d input.claim_id db'.recovery_events)
                  (terminal_rows input.claim_id db'.audit) x)
              k (resolved-known (s.known input.claim_id run.claim run.found)))
      | inr other ↦ elim (Option-cases (find_claim d id db.claims)) [
        | inl p ↦
            absurd
              (ground (arith, find_claim-set_status d input.claim_id id run.v.new_status db.claims))
        | inr (c', p) ↦
            let e : c' ≡ c =
              ground
                (arith, find_claim-set_status d input.claim_id id run.v.new_status db.claims) in
            other-known id c other (s.known id c (rw e at p))
      ]
    ]

    unresolved :
        (id : String)
        → find_claim d id (set_status d input.claim_id run.v.new_status db.claims) ≡ none
        → (recovered_total d id db'.recovery_events ≡ d.zero) × (terminal_rows id db'.audit ≡ [])
    unresolved id f = elim (Bool-cases (input.claim_id == id)) [
      | inl same ↦
          let e = (eq_iff input.claim_id id).0 same in
          absurd (
            ground (
              arith,
              find_claim-set_status d input.claim_id id run.v.new_status db.claims,
              run.found,
            ))
      | inr other ↦
          let gone : find_claim d id db.claims ≡ none =
            ground (arith, find_claim-set_status d input.claim_id id run.v.new_status db.claims) in
          (
            resolve-total id ∙ (rw other) ∙ (s.unknown id gone).0,
            other-terminal_rows id other ∙ (s.unknown id gone).1,
          )
    ]

    pub resolve-IsSound : DatabaseIsSound d db'
    resolve-IsSound = record {
      known = λ id c f. resolved_claim id c (rw run.claims at f);
      unknown = λ id f. unresolved id (rw run.claims at f);
    }
