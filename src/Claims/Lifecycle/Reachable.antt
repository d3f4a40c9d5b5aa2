-- ===== src/Claims/Lifecycle/Reachable.antt =====
-- What holds of the claim tables after any sequence of operations on an empty database.
use freight_auditor.Prelude.{String, true, none, some, List, [], ok, ◌≡◌, inl, inr}
use freight_auditor.Money.{Decimal, IsExact}
use freight_auditor.Claims.Status.{
  ClaimTerminalStatus, ClaimStatus, open_status, terminal, status_eq_refl,
  terminal_event_to_status-claim_terminal_event, TerminalAuditEvent, derived_status, latest_from,
  known_terminal_events, DeriveClaimStatusResult, derive_claim_status,
}
use freight_auditor.Claims.Validation.{Claim}
use freight_auditor.Claims.Store.{
  terminal_rows, Database, find_claim, recovered_total, PartialRecoveryInput, PartialRecoveryResult,
  record_partial_recovery, ResolutionInput, resolve_claim, CreateInput, CreateResult,
  create_claim_from_dispute, get_derived_claim_status, amounts_of,
}
use freight_auditor.Claims.Lifecycle.Rows.{IsRecorded, DatabaseIsSound}
use freight_auditor.Claims.Lifecycle.Runs.{
  record_partial_recovery-ok, resolve_claim-ok, create_claim_from_dispute-ok,
}
use freight_auditor.Claims.Lifecycle.PartialRecovery.{partial-IsSound}
use freight_auditor.Claims.Lifecycle.Resolution.{resolve-IsSound}
use freight_auditor.Claims.Lifecycle.Creation.{create-IsSound}

derived_status_of_recorded :
    (st : ClaimStatus) (es : List TerminalAuditEvent) → IsRecorded st es → derived_status es ≡ st
unfolding derived_status known_terminal_events latest_from
derived_status_of_recorded open_status es h = rw h
derived_status_of_recorded (terminal t) es (n, h) =
    rw (h, known_terminal_events, terminal_event_to_status-claim_terminal_event t)

module _ (d : Decimal) (audit_event_id : List String → String)
    (json : List (String × String) → String) where
  -- One committed transaction. The database generates a claim id that no claim has.
  pub data Step (db : Database d) : Database d → Type 0 where
    recorded :
        {db' : Database d} (input : PartialRecoveryInput d audit_event_id json)
        (r : PartialRecoveryResult d audit_event_id json)
        → record_partial_recovery d audit_event_id json input db ≡ ok (db', r)
        → Step db db'
    resolved :
        {db' : Database d} (input : ResolutionInput d audit_event_id json) (t : ClaimTerminalStatus)
        → resolve_claim d audit_event_id json input db ≡ ok (db', t)
        → Step db db'
    created :
        {db' : Database d} (input : CreateInput d audit_event_id json)
        (r : CreateResult d audit_event_id json)
        → find_claim d input.new_id db.claims ≡ none
        → create_claim_from_dispute d audit_event_id json input db ≡ ok (db', r)
        → Step db db'

  pub data Reach (db : Database d) : Database d → Type 0 where
    here : Reach db db
    next : {mid db' : Database d} → Reach db mid → Step mid db' → Reach db db'

  pub record IsFresh (db : Database d) : Type 0 where
    pub no_claims : db.claims ≡ []
    pub no_recoveries : db.recovery_events ≡ []
    pub no_events : db.audit ≡ []

  module _ (exact : IsExact d) where
    Step-IsSound :
        {db db' : Database d} → Step db db' → DatabaseIsSound d db → DatabaseIsSound d db'
    Step-IsSound {db} {db'} (recorded input r h) s =
        partial-IsSound d exact audit_event_id json
          (record_partial_recovery-ok d audit_event_id json input db db' h) s
    Step-IsSound {db} {db'} (resolved input t h) s =
        resolve-IsSound d exact audit_event_id json
          (resolve_claim-ok d audit_event_id json input db db' h) s
    Step-IsSound {db} {db'} (created input r fresh h) s =
        elim (create_claim_from_dispute-ok d audit_event_id json input db db' h) [
          | inl same ↦ rw same s
          | inr run ↦ create-IsSound d exact audit_event_id json run s fresh
        ]

    IsFresh-IsSound : {db : Database d} → IsFresh db → DatabaseIsSound d db
    unfolding find_claim recovered_total terminal_rows
    IsFresh-IsSound f = record {
      known = λ id c h. absurd (cc (rw f.no_claims at h));
      unknown = λ id h. (rw f.no_recoveries, rw f.no_events);
    }

    -- Whatever operations have committed since the tables were empty: no claim has recovered more
    -- than it claims, a claim resolved as recovered has recovered exactly that, and the ledger has
    -- no terminal event of an open claim and exactly one, of its own status, of a resolved claim.
    -- Assumed: exact decimal arithmetic, that is, of all values nothing rounds and none is NaN or
    -- Infinity, and a printed value reads back.
    pub Reach-IsSound : {db db' : Database d} → IsFresh db → Reach db db' → DatabaseIsSound d db'
    Reach-IsSound f here = IsFresh-IsSound f
    Reach-IsSound f (next r st) = Step-IsSound st (Reach-IsSound f r)

    -- On every database reached from empty tables, the status derived from the append-only history
    -- of a claim is the status stored in its row, and `matches` says so. Assumed: exact decimal
    -- arithmetic, that is, of all values nothing rounds and none is NaN or Infinity, and a printed
    -- value reads back.
    pub get_derived_claim_status-matches :
        {db db' : Database d} (id : String) (c : Claim d)
        → IsFresh db
        → Reach db db'
        → find_claim d id db'.claims ≡ some c
        → (r : DeriveClaimStatusResult d) × (get_derived_claim_status d id db' ≡ ok r)
          × (r.derived ≡ c.status)
          × (r.matches ≡ true)
    unfolding get_derived_claim_status derive_claim_status
    get_derived_claim_status-matches {db} {db'} id c f r found =
        let sound = (Reach-IsSound f r).known id c found in
        let same =
          derived_status_of_recorded c.status (terminal_rows id db'.audit) sound.recorded in
        let result = derive_claim_status d (record {
          stored_status = c.status;
          terminal_events = terminal_rows id db'.audit;
          recovery_events = amounts_of d id db'.recovery_events;
        }) in
        (result, rw found, same, rw same (status_eq_refl c.status))
