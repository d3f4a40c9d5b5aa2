-- ===== src/Audit/Laws.antt =====
-- What the audit ledger promises: it only grows, a retry changes nothing, and an id is bound for good.
use freight_auditor.Prelude.{
  ℕ, Bool, ◌&&◌, String, Option, ◌==◌, eq_iff, true, false, none, some, ◌∷◌, ok, arith, ◌≡◌, refl,
  sym, ap, ◌∙◌, [], ◌⊎◌, inl, inr, Option-cases, Bool-cases,
}
use freight_auditor.Audit.{
  ActorKind, actor_kind_eq, not_distinct, AuditEvent, AuditLog, Written, same_evidence, find_event,
  write_audit_event,
}

actor_kind_eq_refl : (a : ActorKind) → actor_kind_eq a a ≡ true
actor_kind_eq_refl ActorKind.analyst = refl
actor_kind_eq_refl _ = refl

not_distinct_refl : (s : Option String) → not_distinct s s ≡ true
not_distinct_refl none = refl
not_distinct_refl (some s) = (eq_iff s s).1 refl

pub same_evidence_refl : (e : AuditEvent) → same_evidence e e ≡ true
unfolding same_evidence
same_evidence_refl e = ground (
  arith,
  eq_iff e.entity e.entity,
  eq_iff e.entity_id e.entity_id,
  eq_iff e.event e.event,
  eq_iff e.detail e.detail,
  actor_kind_eq_refl e.actor_kind,
  not_distinct_refl e.account_id,
  not_distinct_refl e.actor_user_id,
  not_distinct_refl e.rule_version_id,
  not_distinct_refl e.rubric_snapshot_id,
)

pub same_evidence_fields :
    (a b : AuditEvent)
    → same_evidence a b ≡ true
    → (a.entity ≡ b.entity) × (a.entity_id ≡ b.entity_id) × (a.event ≡ b.event)
unfolding same_evidence
same_evidence_fields a b h =
    ground (arith, eq_iff a.entity b.entity, eq_iff a.entity_id b.entity_id, eq_iff a.event b.event)

same_evidence_later :
    (e : AuditEvent) (later : ℕ) (old : AuditEvent)
    → same_evidence old (record e { recorded_at = later }) ≡ same_evidence old e
unfolding same_evidence
same_evidence_later e later old = refl

-- A successful write either appends, or meets the same evidence under its id.
pub write_audit_event-cases :
    (e : AuditEvent) (log : AuditLog) {w : Written}
    → write_audit_event e log ≡ ok w
    → ((find_event e.id log ≡ none) × (w ≡ record { log = e ∷ log; created = true }))
      ⊎ ((old : AuditEvent) × (find_event e.id log ≡ some old)
          × (same_evidence old e ≡ true)
          × (w ≡ record { log = log; created = false }))
unfolding write_audit_event
write_audit_event-cases e log h = elim (Option-cases (find_event e.id log)) [
  | inl p ↦ inl (p, ground arith)
  | inr (old, p) ↦ elim (Bool-cases (same_evidence old e)) [
    | inl s ↦ inr (old, p, s, ground arith)
    | inr s ↦ absurd (ground arith)
  ]
]

actor_kind_eq-true : (a b : ActorKind) → actor_kind_eq a b ≡ true → a ≡ b
actor_kind_eq-true ActorKind.analyst ActorKind.analyst h = refl
actor_kind_eq-true ActorKind.ai ActorKind.ai h = refl
actor_kind_eq-true ActorKind.system ActorKind.system h = refl
actor_kind_eq-true ActorKind.client ActorKind.client h = refl
actor_kind_eq-true _ _ h = absurd (ground (arith, h))

not_distinct-true : (s t : Option String) → not_distinct s t ≡ true → s ≡ t
not_distinct-true none none h = refl
not_distinct-true (some s) (some t) h = ap some ((eq_iff s t).0 h)
not_distinct-true _ _ h = absurd (ground (arith, h))

and_split : (p q : Bool) → (p && q) ≡ true → (p ≡ true) × (q ≡ true)
and_split true q h = (refl, h)
and_split false q h = absurd (ground (arith, h))

-- Two rows of one id that the SELECT takes for the same differ in their times only.
same_evidence_but_time :
    (a b : AuditEvent)
    → a.id ≡ b.id
    → same_evidence a b ≡ true
    → a ≡ record b { recorded_at = a.recorded_at }
unfolding same_evidence
same_evidence_but_time a b same h =
    let (h₁, detail) = and_split _ _ h in
    let (h₂, rubric) = and_split _ _ h₁ in
    let (h₃, version) = and_split _ _ h₂ in
    let (h₄, user) = and_split _ _ h₃ in
    let (h₅, kind) = and_split _ _ h₄ in
    let (h₆, event) = and_split _ _ h₅ in
    let (h₇, entity_id) = and_split _ _ h₆ in
    let (account, entity) = and_split _ _ h₇ in
    λ i. record {
      id = same i;
      account_id = not_distinct-true a.account_id b.account_id account i;
      entity = (eq_iff a.entity b.entity).0 entity i;
      entity_id = (eq_iff a.entity_id b.entity_id).0 entity_id i;
      event = (eq_iff a.event b.event).0 event i;
      actor_kind = actor_kind_eq-true a.actor_kind b.actor_kind kind i;
      actor_user_id = not_distinct-true a.actor_user_id b.actor_user_id user i;
      rule_version_id = not_distinct-true a.rule_version_id b.rule_version_id version i;
      rubric_snapshot_id = not_distinct-true a.rubric_snapshot_id b.rubric_snapshot_id rubric i;
      detail = (eq_iff a.detail b.detail).0 detail i;
      recorded_at = a.recorded_at;
    }

find_event-id :
    (id : String) (log : AuditLog) (e : AuditEvent) → find_event id log ≡ some e → e.id ≡ id
unfolding find_event
find_event-id id [] e h = absurd (ground (arith, h))
find_event-id id (x ∷ log) e h = elim (Bool-cases (x.id == id)) [
  | inl y ↦ let same : x.id ≡ e.id = ground (arith, h, y) in sym same ∙ (eq_iff x.id id).0 y
  | inr n ↦ find_event-id id log e (ground (arith, h, n))
]

-- After a successful write the ledger holds under that id a row that agrees with the event in every
-- column but the time, keeps every other id's row as it was, and writing the same evidence again, at
-- whatever time, succeeds and changes nothing.
pub write_audit_event_idem :
    (e : AuditEvent) (later : ℕ) (log : AuditLog) {w : Written}
    → write_audit_event e log ≡ ok w
    → ((at : ℕ) × (find_event e.id w.log ≡ some (record e { recorded_at = at })))
      × ((j : String) → (e.id == j) ≡ false → find_event j w.log ≡ find_event j log)
      × (write_audit_event (record e { recorded_at = later }) w.log
          ≡ ok (record { log = w.log; created = false }))
unfolding write_audit_event find_event
write_audit_event_idem e later log {w} h = elim (write_audit_event-cases e log h) [
  | inl (p, q) ↦ (
    (e.recorded_at, ground (arith, eq_iff e.id e.id)),
    λ j ne. ground arith,
    ground (arith, eq_iff e.id e.id, same_evidence_later e later e, same_evidence_refl e),
  )
  | inr (old, p, s, q) ↦
      let row = same_evidence_but_time old e (find_event-id e.id log old p) s in
      (
        (old.recorded_at, rw (q) (p ∙ ap some row)),
        λ j ne. ground arith,
        ground (arith, same_evidence_later e later old),
      )
]
