-- ===== src/Workflow/Commands/Ticks.antt =====
-- A scan of a table that its limit does not cut off changes each row on its own, and cannot fail.
pub mod Rows
use freight_auditor.Prelude.{
  ℕ, zero, suc, ◌+◌, ◌*◌, ◌≤◌, ◌<◌, String, ◌==◌, Bool, true, false, ◌&&◌, ◌||◌, Option, none, some,
  List, [], ◌∷◌, map, any, find, keep, length, includes, if◌then◌else◌, leb, All, Result, ok, err,
  ◌>>=◌, ◌>>◌, throw_if, need, ◌≡◌, ◌⊎◌, inl, inr, refl, sym, ap, subst, ◌∙◌, arith, eq_iff,
  Bool-cases, All-keep, All-keep_if, keep-All,
}
use freight_auditor.Audit.{find_event, AuditLog, AuditError, find_event}
use freight_auditor.Workflow.Queue.{
  is_claimed, count_text, minute, update_in, returning, select_ids, is_due, by_due, claim_row,
  claim_due, is_stale, by_claim, reclaim_row, reclaim_stale_claims, stale_after_minutes,
  max_attempts, limit, ReclaimStaleClaimsConfig, ReclaimStaleClaimsResult, record_recoveries,
  reclaim_each,
}
use freight_auditor.Workflow.Queue.Rows.{
  Distinct, with_id, Changed, some_inj, All-mono, All-zip, with_id_self,
}
use freight_auditor.Workflow.Queue.Batch.{
  select-passes, update-Changed, Changed-Distinct, Changed-All, select_all, changed_if, update-map,
  Distinct-keep, returning-All,
}
use freight_auditor.Workflow.Commands.{Command, Job, schedule_each}
use freight_auditor.Workflow.Commands.Recoveries.{
  next_attempt, Unrecorded, Kept, record_recoveries-ok,
}

abbrev pub stale_after : ℕ
stale_after = stale_after_minutes * minute

-- A row after the passes over these accounts.
unfoldable pub recovered : List String → ℕ → Command → Command
recovered [] now c = c
recovered (o ∷ os) now c =
    recovered os now (changed_if (is_stale o now stale_after) (reclaim_row max_attempts) c)

unfoldable pub taken_up : List String → ℕ → Command → Command
taken_up [] now c = c
taken_up (o ∷ os) now c = taken_up os now (changed_if (is_due o now) (claim_row now) c)

map_same : (cs : List Command) → map (λ c. c) cs ≡ cs
map_same [] = refl
map_same (c ∷ cs) = ap (λ (t : List Command). c ∷ t) (map_same cs)

pub map_twice :
    (f g : Command → Command) (cs : List Command) → map g (map f cs) ≡ map (λ c. g (f c)) cs
map_twice f g [] = refl
map_twice f g (c ∷ cs) = ap (λ (t : List Command). g (f c) ∷ t) (map_twice f g cs)

pub length-map : (f : Command → Command) (cs : List Command) → length (map f cs) ≡ length cs
length-map f [] = refl
length-map f (c ∷ cs) = omega (arith, length-map f cs)

pub schedule_each-map :
    (deterministic_job_id : String → String → String → String) (now : ℕ) (clients : List String)
    (commands : List Command) (jobs : List Job) (n : ℕ)
    → Distinct commands
    → length commands ≤ limit
    → (schedule_each deterministic_job_id now clients (commands, jobs, n)).0
      ≡ map (taken_up clients now) commands
unfolding schedule_each claim_due taken_up
schedule_each-map det now [] commands jobs n d fits = sym (map_same commands)
schedule_each-map det now (o ∷ os) commands jobs n d fits =
    let whole =
      update-map (is_due o now) (claim_row now) _ commands
        (select-passes (is_due o now) by_due limit commands d)
        (select_all (is_due o now) by_due limit commands fits) in
    schedule_each-map det now os _ _ _
      (Changed-Distinct (is_due o now) (claim_row now) (λ c. refl) commands _
        (update-Changed (is_due o now) (claim_row now) _ commands
          (select-passes (is_due o now) by_due limit commands d))
        d)
      (omega (
        arith,
        ap (length {A = Command}) whole,
        length-map (changed_if (is_due o now) (claim_row now)) commands,
        fits,
      ))
    ∙ ap (map (taken_up os now)) whole
    ∙ map_twice (changed_if (is_due o now) (claim_row now)) (taken_up os now) commands

module _ (audit_event_id : List String → String) (json : List (String × String) → String)
    (injective : (xs ys : List String) → audit_event_id xs ≡ audit_event_id ys → xs ≡ ys) where
  module _ (config : ReclaimStaleClaimsConfig) (owner : String) (now : ℕ) (commands : List Command)
      (log : AuditLog) (d : Distinct commands)
      (unrecorded : All (Unrecorded audit_event_id log) commands) where
    abbrev test : Command → Bool
    test = is_stale owner now stale_after

    abbrev chosen : List String
    chosen = select_ids test by_claim limit commands

    abbrev after : List Command
    after = update_in chosen (reclaim_row max_attempts) commands

    abbrev taken : List Command
    taken = returning chosen after

    passes : All (λ (c : Command). includes c.id chosen ≡ true → test c ≡ true) commands
    passes = select-passes test by_claim limit commands d

    changed : Changed test (reclaim_row max_attempts) commands after
    changed = update-Changed test (reclaim_row max_attempts) chosen commands passes

    after-Distinct : Distinct after
    after-Distinct =
        Changed-Distinct test (reclaim_row max_attempts) (λ c. refl) commands after changed d

    free_row : (c : Command) → is_claimed (reclaim_row max_attempts c).status ≡ false
    free_row c = ground arith

    reclaimed-Unrecorded :
        (c : Command)
        → Unrecorded audit_event_id log c
        → test c ≡ true
        → Unrecorded audit_event_id log (reclaim_row max_attempts c)
    unfolding Unrecorded
    reclaimed-Unrecorded c u t o e n le = u o e n (ground (arith, le, t, free_row c))

    after-Unrecorded : All (Unrecorded audit_event_id log) after
    after-Unrecorded =
        Changed-All test (reclaim_row max_attempts) (Unrecorded audit_event_id log) commands after
          reclaimed-Unrecorded changed unrecorded

    taken-free : All (λ (c : Command). is_claimed c.status ≡ false) taken
    taken-free =
        returning-All (λ (c : Command). is_claimed c.status ≡ false) (reclaim_row max_attempts)
          (λ c. refl) chosen commands
          (All-mono (λ (c : Command). includes c.id chosen ≡ true → test c ≡ true)
            (λ (c : Command).
              includes c.id chosen ≡ true → is_claimed (reclaim_row max_attempts c).status ≡ false)
            commands (λ c _ _. free_row c) passes)

    taken-Recoverable :
        All
          (λ (c : Command).
            (o e : String)
            → find_event (audit_event_id (o ∷ c.id ∷ e ∷ count_text c.attempts ∷ [])) log ≡ none)
          taken
    unfolding Unrecorded
    taken-Recoverable =
        returning-All
          (λ (c : Command).
            (o e : String)
            → find_event (audit_event_id (o ∷ c.id ∷ e ∷ count_text c.attempts ∷ [])) log ≡ none)
          (reclaim_row max_attempts) (λ c. refl) chosen commands
          (All-zip (Unrecorded audit_event_id log)
            (λ (c : Command). includes c.id chosen ≡ true → test c ≡ true)
            (λ (c : Command).
              includes c.id chosen ≡ true
              → (o e : String)
              → find_event (audit_event_id (o ∷ c.id ∷ e ∷ count_text c.attempts ∷ [])) log ≡ none)
            commands (λ c u t inside o e. u o e c.attempts (ground (arith, t inside))) unrecorded
            passes)

    later :
        (r c : Command)
        → with_id r.id after ≡ some r
        → with_id c.id after ≡ some c
        → is_claimed c.status ≡ false
        → c.id ≡ r.id
        → c.attempts < next_attempt r
    later r c found there free same =
        let twice : some c ≡ some r = sym there ∙ ap (λ i. with_id i after) same ∙ found in
        subst (λ (x : Command). c.attempts < next_attempt x) (some_inj c r twice)
          (ground (arith, free))

    after-Kept : All (Kept audit_event_id taken) after
    after-Kept =
        All-mono (λ (r : Command). with_id r.id after ≡ some r) (Kept audit_event_id taken) after
          (λ r found.
            All-zip (λ (c : Command). with_id c.id after ≡ some c)
              (λ (c : Command). is_claimed c.status ≡ false)
              (λ (c : Command). c.id ≡ r.id → c.attempts < next_attempt r) taken
              (λ c there free same. later r c found there free same)
              (All-keep (λ (c : Command). with_id c.id after ≡ some c)
                (λ (c : Command). includes c.id chosen) after (with_id_self after after-Distinct))
              taken-free)
          (with_id_self after after-Distinct)

    pub recover_one :
        length commands ≤ limit
        → (n : ReclaimStaleClaimsResult)
        → (s : AuditLog × ReclaimStaleClaimsResult) × (record_recoveries audit_event_id json config
              owner now taken
              (log, n)
            ≡ ok s)
          × (after ≡ map (changed_if test (reclaim_row max_attempts)) commands)
          × Distinct after
          × All (Unrecorded audit_event_id s.0) after
    recover_one fits n =
        let (s, e, keeps) =
          record_recoveries-ok audit_event_id injective json config owner now taken log n
            (Distinct-keep (λ (c : Command). includes c.id chosen) after after-Distinct)
            taken-Recoverable in
        (
          s,
          e,
          update-map test (reclaim_row max_attempts) chosen commands passes
              (select_all test by_claim limit commands fits),
          after-Distinct,
          All-zip (Kept audit_event_id taken) (Unrecorded audit_event_id log)
              (Unrecorded audit_event_id s.0) after keeps after-Kept after-Unrecorded,
        )

  pub reclaim_each-map :
      (config : ReclaimStaleClaimsConfig) (now : ℕ) (clients : List String)
      (commands : List Command) (log : AuditLog) (n : ReclaimStaleClaimsResult)
      → Distinct commands
      → length commands ≤ limit
      → All (Unrecorded audit_event_id log) commands
      → (s : List Command × AuditLog × ReclaimStaleClaimsResult) × (reclaim_each audit_event_id json
            config now clients
            (commands, log, n)
          ≡ ok s)
        × (s.0 ≡ map (recovered clients now) commands)
        × Distinct s.0
        × All (Unrecorded audit_event_id s.1) s.0
  unfolding reclaim_each reclaim_stale_claims recovered
  reclaim_each-map config now [] commands log n d fits u =
      ((commands, log, n), refl, sym (map_same commands), d, u)
  reclaim_each-map config now (o ∷ os) commands log n d fits u =
      let (t, wrote, whole, d', u') = recover_one config o now commands log d u fits n in
      let (s, e, m, ds, us) =
        reclaim_each-map config now os _ t.0 t.1 d'
          (omega (
            arith,
            ap (length {A = Command}) whole,
            length-map (changed_if (is_stale o now stale_after) (reclaim_row max_attempts))
                commands,
            fits,
          ))
          u' in
      (
        s,
        ap
              (λ (x : Result AuditError (AuditLog × ReclaimStaleClaimsResult)). x >>= λ y.
                reclaim_each audit_event_id json config now os (
                  (reclaim_stale_claims o now stale_after max_attempts limit commands).0,
                  y.0,
                  y.1,
                ))
              wrote
            ∙ e,
        m
            ∙ ap (map (recovered os now)) whole
            ∙ map_twice (changed_if (is_stale o now stale_after) (reclaim_row max_attempts))
                (recovered os now) commands,
        ds,
        us,
      )
