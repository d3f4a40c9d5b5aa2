-- ===== src/Claims/Lifecycle/Outcomes.antt =====
-- What a resolved or fully recovered claim can still become.
use freight_auditor.Prelude.{
  String, ◌==◌, true, false, Option, none, some, List, ok, arith, ◌≡◌, ◌≢◌, refl, inl, inr, eq_iff,
  Bool-cases, ◌∙◌,
}
use freight_auditor.Money.{Decimal, IsExact}
use freight_auditor.Money.Laws.{lte_of_plus}
use freight_auditor.Claims.Status.{ClaimTerminalStatus, terminal}
use freight_auditor.Claims.Validation.{
  Claim, full_recovery, ValidResolution, validate_claim_resolution, resolve_by_kind,
  resolve_with_amount, validate_recovery_amount_and_currency,
}
use freight_auditor.Claims.Store.{
  Database, find_claim, recovered_total, ResolutionInput, resolve_claim, CreateInput,
}
use freight_auditor.Claims.Lifecycle.Rows.{find_claim-set_status}
use freight_auditor.Claims.Lifecycle.Inversion.{validate_claim_resolution-ok}
use freight_auditor.Claims.Lifecycle.Runs.{
  ResolveRun, CreateRun, record_partial_recovery-ok, resolve_claim-ok, create_claim_from_dispute-ok,
}
use freight_auditor.Claims.Lifecycle.Reachable.{
  Step, recorded, resolved, created, Reach, here, next,
}

module _ (d : Decimal) (audit_event_id : List String → String)
    (json : List (String × String) → String) where
  resolve_keeps :
      {input : ResolutionInput d audit_event_id json} {db db' : Database d} (id : String)
      (c : Claim d) (t : ClaimTerminalStatus)
      → c.status ≡ terminal t
      → ResolveRun d audit_event_id json input db db'
      → find_claim d id db.claims ≡ some c
      → find_claim d id db'.claims ≡ some c
  resolve_keeps {input} {db} id c t e run f = elim (Bool-cases (input.claim_id == id)) [
    | inl same ↦
        let i = (eq_iff input.claim_id id).0 same in
        let k : run.claim ≡ c = ground (arith, run.found) in
        let opened =
          (validate_claim_resolution-ok d run.claim input.kind _ _ _ run.valid).was_open in
        absurd (cc (opened, k))
    | inr other ↦
        rw run.claims
          (find_claim-set_status d input.claim_id id run.v.new_status db.claims ∙ (rw (f, other)))
  ]

  create_keeps :
      {input : CreateInput d audit_event_id json} {db db' : Database d} (id : String) (c : Claim d)
      → find_claim d input.new_id db.claims ≡ none
      → CreateRun d audit_event_id json input db db'
      → find_claim d id db.claims ≡ some c
      → find_claim d id db'.claims ≡ some c
  unfolding find_claim
  create_keeps {input} {db} id c fresh run f =
      rw run.claims (ground (arith, eq_iff run.entry.id id, run.entry_id))

  Step-keeps_terminal :
      {db db' : Database d} (id : String) (c : Claim d) (t : ClaimTerminalStatus)
      → c.status ≡ terminal t
      → Step d audit_event_id json db db'
      → find_claim d id db.claims ≡ some c
      → find_claim d id db'.claims ≡ some c
  Step-keeps_terminal {db} {db'} id c t e (recorded input r h) f =
      rw ((record_partial_recovery-ok d audit_event_id json input db db' h).claims) f
  Step-keeps_terminal {db} {db'} id c t e (resolved input u h) f =
      resolve_keeps id c t e (resolve_claim-ok d audit_event_id json input db db' h) f
  Step-keeps_terminal {db} {db'} id c t e (created input r fresh h) f =
      elim (create_claim_from_dispute-ok d audit_event_id json input db db' h) [
        | inl same ↦ rw same f
        | inr run ↦ create_keeps id c fresh run f
      ]

  -- A resolution is final: once a claim is recovered, denied or written off, its row is the same after
  -- any further operations, its status, amount and currency included.
  pub Reach-keeps_terminal :
      {db db' : Database d} (id : String) (c : Claim d) (t : ClaimTerminalStatus)
      → c.status ≡ terminal t
      → Reach d audit_event_id json db db'
      → find_claim d id db.claims ≡ some c
      → find_claim d id db'.claims ≡ some c
  Reach-keeps_terminal id c t e here f = f
  Reach-keeps_terminal id c t e (next r st) f =
      Step-keeps_terminal id c t e st (Reach-keeps_terminal id c t e r f)

  full_recovery-ok :
      (claim : Claim d) (prior : d.D) (amount : Option d.D) (currency : Option String)
      (v : ValidResolution d)
      → validate_claim_resolution d claim full_recovery prior amount currency ≡ ok v
      → (a : d.D) × (amount ≡ some a)
        × (d.lte a d.zero ≡ false)
        × (d.equals (d.plus prior a) claim.amount_claimed ≡ true)
  unfolding validate_claim_resolution resolve_by_kind resolve_with_amount
      validate_recovery_amount_and_currency
  full_recovery-ok claim prior none currency v h = absurd (ground arith)
  full_recovery-ok claim prior (some a) currency v h = (a, refl, ground arith, ground arith)

  -- A claim whose recoveries already add up to the amount claimed cannot be resolved as recovered:
  -- with no amount, with one that is not positive, or with any positive one, FULL_RECOVERY is
  -- refused. Assumed: exact decimal arithmetic, that is, of all values nothing rounds and none is
  -- NaN or Infinity, and a printed value reads back.
  pub full_recovery_refused :
      (exact : IsExact d) (input : ResolutionInput d audit_event_id json) (db db' : Database d)
      (claim : Claim d) (t : ClaimTerminalStatus)
      → input.kind ≡ full_recovery
      → find_claim d input.claim_id db.claims ≡ some claim
      → recovered_total d input.claim_id db.recovery_events ≡ claim.amount_claimed
      → resolve_claim d audit_event_id json input db ≢ ok (db', t)
  full_recovery_refused exact input db db' claim t kind found spent h =
      refused (resolve_claim-ok d audit_event_id json input db db' h)
    where
      refused : ResolveRun d audit_event_id json input db db' → ⊥
      refused run =
          let k : run.claim ≡ claim = ground (arith, run.found) in
          let (a, given, positive, total) =
            full_recovery-ok run.claim claim.amount_claimed input.amount_recovered input.currency
              run.v (rw (kind, spent) at run.valid) in
          let same : d.plus claim.amount_claimed a ≡ claim.amount_claimed =
            (exact.equals_iff _ _).0 (rw k at total) in
          cc (
            positive,
            lte_of_plus d exact claim.amount_claimed a
                (rw same (exact.lte_refl claim.amount_claimed)),
          )
