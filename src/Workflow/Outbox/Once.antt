-- ===== src/Workflow/Outbox/Once.antt =====
-- A message is recorded once for its key, and keeps its key whatever becomes of it.
use freight_auditor.Prelude.{
  ℕ, ◌*◌, String, Bool, true, false, none, some, List, [], ◌∷◌, any, find, map, if◌then◌else◌,
  includes, Result, ok, err, ◌>>◌, need, ◌≡◌, ◌⊎◌, inl, inr, refl, sym, ap, subst, ◌∙◌, arith,
  eq_iff, Bool-cases, Option-cases, Result-cases, bind_ok,
}
use freight_auditor.Audit.{AuditLog, AuditError, write_audit_event}
use freight_auditor.Workflow.Queue.{
  minute, ids, update_in, claim_row, claim_due, may_complete, complete_row, complete, reclaim_row,
  reclaim_stale_claims, stale_after_minutes, max_attempts, limit, ReclaimStaleClaimsConfig,
  ReclaimStaleClaimsResult, active, record_recoveries, reclaim_each,
  reclaim_stale_claims_for_active_clients,
}
use freight_auditor.Workflow.Outbox.{
  Message, unregistered_message_type, DeliveryJob, Database, outbox_config, lift_audit, RecordInput,
  RecordOutboxMessageResult, has_command, same_message, new_message, Senders, sender_of,
  context_of_delivery, schedule_deliveries, schedule_outbox_delivery_jobs, outbox_event,
  recorded_event, insert_message, record_outbox_message, complete_outbox_message, sent_event,
  handle_deliver_outbox_message_job, handle_outbox_message_scan_job,
}

lifted_ok : {A : Type 0} (m : Result AuditError A) (a : A) → lift_audit m ≡ ok a → m ≡ ok a
lifted_ok (ok b) a h = cc
lifted_ok (err e) a h = cc

module _ (audit_event_id : List String → String) (json : List (String × String) → String) where
  inserted :
      (input : RecordInput) (new_id : String) (now : ℕ) (db db' : Database)
      (r : RecordOutboxMessageResult)
      → record_outbox_message audit_event_id json input new_id now db ≡ ok (db', r)
      → insert_message audit_event_id json input new_id now db ≡ ok (db', r)
  unfolding record_outbox_message
  inserted input new_id now db db' r h = ground (arith, h)

  -- A recording that returns found the message of its key, or inserted it.
  insert_message-ok :
      (input : RecordInput) (new_id : String) (now : ℕ) (db db' : Database)
      (r : RecordOutboxMessageResult)
      → insert_message audit_event_id json input new_id now db ≡ ok (db', r)
      → ((old : Message) × (find (same_message input.client_id input.dedupe_key) db.messages
            ≡ some old)
          × (db'.messages ≡ db.messages)
          × (r.outbox_message_id ≡ old.id))
        ⊎ ((find (same_message input.client_id input.dedupe_key) db.messages ≡ none)
            × (db'.messages ≡ new_message input new_id now ∷ db.messages)
            × (r.outbox_message_id ≡ new_id))
  unfolding insert_message
  insert_message-ok input new_id now db db' r h =
      elim (Option-cases (find (same_message input.client_id input.dedupe_key) db.messages)) [
        | inr (old, e) ↦ inl (old, e, ground (arith, h, e), ground (arith, h, e))
        | inl new ↦ elim (Bool-cases (includes new_id (ids db.messages))) [
          | inl taken ↦ absurd (ground (arith, h, new, taken))
          | inr free ↦
              elim (Result-cases (
                write_audit_event (recorded_event audit_event_id json input new_id now) db.audit)) [
                  | inr (e, clash) ↦ absurd (ground (arith, h, new, free, clash))
                  | inl (w, wrote) ↦ inr (
                    new,
                    ground (arith, h, new, free, wrote),
                    ground (arith, h, new, free, wrote),
                  )
                ]
        ]
      ]

module _ (client key : String) where
  abbrev wanted : Message → Bool
  wanted = same_message client key

  -- The message of that key has this id.
  abbrev pub Holds : String → List Message → Type 0
  Holds id ms = (m : Message) × (find wanted ms ≡ some m) × (m.id ≡ id)

  -- A change that keeps what a message is.
  abbrev KeepsIntent : (Message → Message) → Type 0
  KeepsIntent f =
      (m : Message) → ((f m).id ≡ m.id) × ((f m).account_id ≡ m.account_id) × ((f m).work ≡ m.work)

  map-Holds :
      (f : Message → Message)
      → KeepsIntent f
      → (id : String) (ms : List Message) → Holds id ms
      → Holds id (map f ms)
  map-Holds f keeps id [] (m, e, i) = cc
  map-Holds f keeps id (x ∷ xs) (m, e, i) = elim (Bool-cases (wanted x)) [
    | inl here ↦ (f x, ground (arith, here, keeps x), (keeps x).0 ∙ ground (arith, e, here, i))
    | inr there ↦
        let (m', e', i') = map-Holds f keeps id xs (m, ground (arith, e, there), i) in
        (m', ground (arith, there, keeps x, e'), i')
  ]

  update-Holds :
      (f : Message → Message)
      → KeepsIntent f
      → (chosen : List String) (id : String) (ms : List Message) → Holds id ms
      → Holds id (update_in chosen f ms)
  unfolding update_in
  update-Holds f keeps chosen id [] (m, e, i) = cc
  update-Holds f keeps chosen id (x ∷ xs) (m, e, i) = elim (Bool-cases (wanted x)) [
    | inl here ↦ (
      if includes x.id chosen then f x else x,
      ground (arith, here, keeps x),
      ground (arith, keeps x, e, here, i),
    )
    | inr there ↦
        let (m', e', i') = update-Holds f keeps chosen id xs (m, ground (arith, e, there), i) in
        (m', ground (arith, there, keeps x, e'), i')
  ]

  complete-Holds :
      (account i id : String) (ms : List Message) → Holds id ms → Holds id (complete account i ms)
  unfolding complete
  complete-Holds account i id ms h = map-Holds (complete_row account i) (λ m. ground arith) id ms h

  schedule_deliveries-Holds :
      (deterministic_job_id : String → String → String → String) (now : ℕ) (accounts : List String)
      (id : String) (ms : List Message) (jobs : List DeliveryJob) (n : ℕ)
      → Holds id ms
      → Holds id (schedule_deliveries deterministic_job_id now accounts (ms, jobs, n)).0
  unfolding schedule_deliveries claim_due
  schedule_deliveries-Holds det now [] id ms jobs n h = h
  schedule_deliveries-Holds det now (a ∷ as') id ms jobs n h =
      schedule_deliveries-Holds det now as' id _ _ _
        (update-Holds (claim_row now) (λ m. (refl, refl, refl)) _ id ms h)

  module _ (audit_event_id : List String → String) (json : List (String × String) → String) where
    reclaim_each-Holds :
        (config : ReclaimStaleClaimsConfig) (now : ℕ) (accounts : List String) (id : String)
        (ms : List Message) (log : AuditLog) (n : ReclaimStaleClaimsResult)
        (s : List Message × AuditLog × ReclaimStaleClaimsResult)
        → reclaim_each audit_event_id json config now accounts (ms, log, n) ≡ ok s
        → Holds id ms
        → Holds id s.0
    unfolding reclaim_each reclaim_stale_claims
    reclaim_each-Holds config now [] id ms log n s h (m, e, i) = (m, ground (arith, h, e), i)
    reclaim_each-Holds config now (a ∷ rest) id ms log n s h k =
        let (t, e, later) =
          bind_ok
            (record_recoveries audit_event_id json config a now
              (reclaim_stale_claims a now (stale_after_minutes * minute) max_attempts limit ms).1
              (log, n))
            _ h in
        reclaim_each-Holds config now rest id _ t.0 t.1 s later
          (update-Holds (reclaim_row max_attempts) (λ m. (refl, refl, refl)) _ id ms k)

    insert-Holds :
        (input : RecordInput) (new_id : String) (now : ℕ) (id : String) (db db' : Database)
        (r : RecordOutboxMessageResult)
        → insert_message audit_event_id json input new_id now db ≡ ok (db', r)
        → Holds id db.messages
        → Holds id db'.messages
    unfolding insert_message
    insert-Holds input new_id now id db db' r h (m, e, i) =
        elim (insert_message-ok audit_event_id json input new_id now db db' r h) [
          | inl (old, _, same, _) ↦ (m, ap (find wanted) same ∙ e, i)
          | inr (none_yet, ms, _) ↦ elim (Bool-cases (wanted (new_message input new_id now))) [
            | inr other ↦ (m, ap (find wanted) ms ∙ ground (arith, other, e), i)
            | inl mine ↦
                let c : input.client_id ≡ client =
                  ground (arith, mine, eq_iff input.client_id client) in
                let k : input.dedupe_key ≡ key =
                  ground (arith, mine, eq_iff input.dedupe_key key) in
                let clash : some m ≡ none =
                  sym e ∙ (λ t. find (same_message (sym c t) (sym k t)) db.messages) ∙ none_yet in
                cc
          ]
        ]

    -- What the first recording leaves: the message of the key, under the id that it returned.
    recorded-Holds :
        (input : RecordInput) (new_id : String) (now : ℕ) (db db' : Database)
        (r : RecordOutboxMessageResult)
        → input.client_id ≡ client
        → input.dedupe_key ≡ key
        → insert_message audit_event_id json input new_id now db ≡ ok (db', r)
        → Holds r.outbox_message_id db'.messages
    unfolding insert_message
    recorded-Holds input new_id now db db' r c k h =
        elim (insert_message-ok audit_event_id json input new_id now db db' r h) [
          | inl (old, found, same, i) ↦ (
            old,
            ap (find wanted) same
                ∙ (λ t. find (same_message (sym c t) (sym k t)) db.messages)
                ∙ found,
            sym i,
          )
          | inr (none_yet, ms, i) ↦ (
            new_message input new_id now,
            ap (find wanted) ms
                ∙ ground (arith, c, k, eq_iff input.client_id client, eq_iff input.dedupe_key key),
            sym i,
          )
        ]

    -- One committed transaction of the outbox; its handlers and its scan.
    pub data Step (db : Database) : Database → Type 0 where
      recorded :
          {db' : Database} (input : RecordInput) (new_id : String) (now : ℕ)
          (r : RecordOutboxMessageResult)
          → record_outbox_message audit_event_id json input new_id now db ≡ ok (db', r)
          → Step db db'
      scanned :
          {db' : Database} (deterministic_job_id : String → String → String → String) (now : ℕ)
          (r : ℕ × ReclaimStaleClaimsResult)
          → handle_outbox_message_scan_job audit_event_id json deterministic_job_id now db
            ≡ ok (db', r.0, r.1)
          → Step db db'
      delivered :
          {db' : Database} (senders : Senders) (j : DeliveryJob) (now : ℕ)
          → handle_deliver_outbox_message_job audit_event_id json senders j now db ≡ ok db'
          → Step db db'

    pub data Reach (db : Database) : Database → Type 0 where
      here : Reach db db
      next : {mid db' : Database} → Reach db mid → Step mid db' → Reach db db'

    scanned-Holds :
        (deterministic_job_id : String → String → String → String) (now : ℕ) (id : String)
        (db db' : Database) (r : ℕ × ReclaimStaleClaimsResult)
        → handle_outbox_message_scan_job audit_event_id json deterministic_job_id now db
          ≡ ok (db', r.0, r.1)
        → Holds id db.messages
        → Holds id db'.messages
    unfolding handle_outbox_message_scan_job reclaim_stale_claims_for_active_clients
        schedule_outbox_delivery_jobs
    scanned-Holds det now id db db' r h k =
        let recovery =
          reclaim_each audit_event_id json outbox_config now (active db.accounts)
            (db.messages, db.audit, record { reclaimed = 0; failed = 0 }) in
        let (s, e, rest) = bind_ok (lift_audit recovery) _ h in
        subst (Holds id) (ground (arith, rest)) (
          schedule_deliveries-Holds det now (active db.accounts) id s.0 db.jobs 0 (
            reclaim_each-Holds outbox_config now (active db.accounts) id db.messages db.audit
              (record { reclaimed = 0; failed = 0 }) s (lifted_ok recovery s e) k))

    completed-Holds :
        (account i id : String) (now : ℕ) (db db' : Database) (b : Bool)
        → complete_outbox_message audit_event_id json account i now db ≡ ok (db', b)
        → Holds id db.messages
        → Holds id db'.messages
    unfolding complete_outbox_message
    completed-Holds account i id now db db' b h k =
        elim (Bool-cases (any (may_complete account i) db.messages)) [
          | inr idle ↦ subst (Holds id) (ground (arith, h, idle)) k
          | inl met ↦
              elim (Result-cases (
                write_audit_event
                  (outbox_event audit_event_id json account i "workflow.outbox_message_delivered"
                    (json []) now)
                  db.audit)) [
                    | inr (e, clash) ↦ absurd (ground (arith, h, met, clash))
                    | inl (w, wrote) ↦
                        subst (Holds id) (ground (arith, h, met, wrote))
                          (complete-Holds account i id db.messages k)
                  ]
        ]

    delivered-Holds :
        (senders : Senders) (j : DeliveryJob) (now : ℕ) (id : String) (db db' : Database)
        → handle_deliver_outbox_message_job audit_event_id json senders j now db ≡ ok db'
        → Holds id db.messages
        → Holds id db'.messages
    unfolding handle_deliver_outbox_message_job
    delivered-Holds senders j now id db db' h k =
        let (sender, known, h₁) =
          bind_ok (need (sender_of j.message_type senders) unregistered_message_type) _ h in
        let completed =
          complete_outbox_message audit_event_id json j.client_id j.outbox_message_id now db in
        let (c, both, h₂) = bind_ok (sender (context_of_delivery j) >> completed) _ h₁ in
        let (u, sent, did) = bind_ok (sender (context_of_delivery j)) _ both in
        let (w, wrote, h₃) =
          bind_ok (lift_audit (write_audit_event (sent_event audit_event_id json j now) c.0.audit))
            _ h₂ in
        subst (Holds id) (ground (arith, h₃))
          (completed-Holds j.client_id j.outbox_message_id id now db c.0 c.1 did k)

    Reach-Holds :
        (id : String) {db db' : Database}
        → Reach db db'
        → Holds id db.messages
        → Holds id db'.messages
    Reach-Holds id here k = k
    Reach-Holds id {db} {db'} (next {mid = mid} r (recorded input new_id now out h)) k =
        insert-Holds input new_id now id mid db' out
          (inserted audit_event_id json input new_id now mid db' out h) (Reach-Holds id r k)
    Reach-Holds id {db} {db'} (next {mid = mid} r (scanned det now out h)) k =
        scanned-Holds det now id mid db' out h (Reach-Holds id r k)
    Reach-Holds id {db} {db'} (next {mid = mid} r (delivered senders j now h)) k =
        delivered-Holds senders j now id mid db' h (Reach-Holds id r k)

module _ (audit_event_id : List String → String) (json : List (String × String) → String) where
  -- Once a message has been recorded, and whatever has been recorded, scanned and delivered since,
  -- to record a message of the same account and key, for a command that is there, changes nothing
  -- and returns the id of the first.
  pub record_outbox_message-once :
      (input again : RecordInput) (new_id other_id : String) (now later : ℕ) (db db₁ db₂ : Database)
      (r : RecordOutboxMessageResult)
      → record_outbox_message audit_event_id json input new_id now db ≡ ok (db₁, r)
      → Reach input.client_id input.dedupe_key audit_event_id json db₁ db₂
      → again.client_id ≡ input.client_id
      → again.dedupe_key ≡ input.dedupe_key
      → has_command again.client_id again.command_id db₂.commands ≡ true
      → record_outbox_message audit_event_id json again other_id later db₂
        ≡ ok (db₂, record { outbox_message_id = r.outbox_message_id; created = false })
  unfolding record_outbox_message insert_message
  record_outbox_message-once input again new_id other_id now later db db₁ db₂ r h reach c k known =
      let (m, found, i) =
        Reach-Holds input.client_id input.dedupe_key audit_event_id json r.outbox_message_id reach (
          recorded-Holds input.client_id input.dedupe_key audit_event_id json input new_id now db
            db₁ r refl refl (inserted audit_event_id json input new_id now db db₁ r h)) in
      let there : find (same_message again.client_id again.dedupe_key) db₂.messages ≡ some m =
        (λ t. find (same_message (c t) (k t)) db₂.messages) ∙ found in
      ground (arith, there, known, i)
