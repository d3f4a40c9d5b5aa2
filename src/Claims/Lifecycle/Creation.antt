-- ===== src/Claims/Lifecycle/Creation.antt =====
-- Opening a claim keeps the invariant of the claim tables.
use freight_auditor.Prelude.{
  String, ◌==◌, eq_iff, false, none, some, List, ◌∷◌, arith, ◌≡◌, Bool-cases, inl, inr, sym, ◌∙◌,
}
use freight_auditor.Money.{Decimal, IsExact}
use freight_auditor.Money.Laws.{zero-lte_of_positive}
use freight_auditor.Claims.Status.{terminal_event_to_status}
use freight_auditor.Claims.Store.{
  is_terminal_row, terminal_rows, Database, find_claim, recovered_total, claim_event, CreateInput,
}
use freight_auditor.Claims.Validation.{Claim}
use freight_auditor.Claims.Lifecycle.Rows.{ClaimIsSound, DatabaseIsSound, terminal_rows-write_other}
use freight_auditor.Claims.Lifecycle.Runs.{CreateRun}

module _ (d : Decimal) (exact : IsExact d) (audit_event_id : List String → String)
    (json : List (String × String) → String) where
  module _ {input : CreateInput d audit_event_id json} {db db' : Database d}
      (run : CreateRun d audit_event_id json input db db') (s : DatabaseIsSound d db)
      (fresh : find_claim d input.new_id db.claims ≡ none) where
    created-terminal_rows : (id : String) → terminal_rows id db'.audit ≡ terminal_rows id db.audit
    unfolding is_terminal_row terminal_event_to_status
    created-terminal_rows id =
        rw run.audit (terminal_rows-write_other id _ db.audit run.wrote not_terminal)
      where
        not_terminal :
            is_terminal_row id (
              claim_event d audit_event_id json input.actor_user_id input.new_id "claim.created"
                run.detail input.now)
            ≡ false
        not_terminal = ground arith

    created-known :
        (id : String) (c : Claim d)
        → find_claim d id (run.entry ∷ db.claims) ≡ some c
        → ClaimIsSound d (recovered_total d id db.recovery_events) (terminal_rows id db.audit) c
    unfolding find_claim
    created-known id c f = elim (Bool-cases (run.entry.id == id)) [
      | inl same ↦
          let e : input.new_id ≡ id = sym run.entry_id ∙ (eq_iff run.entry.id id).0 same in
          let k : run.entry.claim ≡ c = ground arith in
          let (total, rows) = s.unknown id (rw (← e) fresh) in
          record {
            within =
                rw (total, ← k, run.entry_amount)
                  (zero-lte_of_positive d exact run.v.amount run.positive);
            exact = λ r. absurd (cc (run.entry_status, k));
            recorded = rw (← k, run.entry_status) rows;
          }
      | inr other ↦ s.known id c (ground arith)
    ]

    created-unknown :
        (id : String)
        → find_claim d id (run.entry ∷ db.claims) ≡ none
        → find_claim d id db.claims ≡ none
    unfolding find_claim
    created-unknown id f = ground arith

    pub create-IsSound : DatabaseIsSound d db'
    create-IsSound = record {
      known = λ id c f.
          rw (run.rows, created-terminal_rows id) (created-known id c (rw run.claims at f));
      unknown = λ id f.
          rw (run.rows, created-terminal_rows id)
            (s.unknown id (created-unknown id (rw run.claims at f)));
    }
