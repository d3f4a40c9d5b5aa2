-- ===== src/RuleEngine/Lifecycle/Retry.antt =====
-- A transition that is tried again changes nothing.
use freight_auditor.Prelude.{
  String, ◌==◌, true, false, not, some, List, ◌∷◌, find, ok, throw_if, need, ◌≡◌, sym, subst, ap,
  arith, inl, inr, eq_iff, Option-cases, bind_ok,
}
use freight_auditor.RuleEngine.Lifecycle.{
  may_become, RuleVersion, PromotionEvent, Database, find_version, has_version, is_successor,
  TransitionInput, TransitionResult, next_version, event_of, has_evidence, add_event, record_event,
  move_version, transition_rule_lifecycle, version_not_found, invalid_rule_lifecycle_transition,
  unique_violation,
}
use freight_auditor.RuleEngine.Lifecycle.Tables.{
  found_test, find_version-cons, state_eq_refl, any_event-here,
}
use freight_auditor.RuleEngine.Lifecycle.Moves.{recorded_lem}

add_event-twice :
    (e : PromotionEvent) (es : List PromotionEvent) → add_event e (add_event e es) ≡ add_event e es
add_event-twice e es = ground (arith, any_event-here e es)

-- The table of events once `e` is in it.
abbrev eventful : PromotionEvent → Database → Database
eventful e db = record db { events = add_event e db.events }

record_event-twice :
    (e : PromotionEvent) (db : Database)
    → has_evidence e ≡ true
    → record_event e false (eventful e db)
      ≡ ok (eventful e db, record { rule_version_id = e.rule_version_id; created = false })
unfolding record_event
record_event-twice e db good = rw good (
    ap
      (λ (es : List PromotionEvent). ok (
        record db { events = es },
        record { rule_version_id = e.rule_version_id; created = false },
      ))
      (add_event-twice e db.events))

abbrev Settled : TransitionInput → RuleVersion → String → String → Database → Type 0
Settled input u other_id id db =
    (find_version u.id db.versions ≡ some u)
    × (move_version input u other_id db ≡ ok (db, record { rule_version_id = id; created = false }))

-- Where the successor and its event are there, the transition has nothing to do.
settled :
    (input : TransitionInput) (u v : RuleVersion) (other_id : String) (db : Database)
    → find_version u.id db.versions ≡ some u
    → find (is_successor u.id input.to) db.versions ≡ some v
    → has_evidence (event_of v.id u.lifecycle_state input) ≡ true
    → Settled input u other_id v.id (eventful (event_of v.id u.lifecycle_state input) db)
unfolding move_version
settled input u v other_id db found there good = (
  found,
  rw (there, move_version) (record_event-twice (event_of v.id u.lifecycle_state input) db good),
)

move_version-retry :
    (input : TransitionInput) (u : RuleVersion) (new_id other_id : String) (db db' : Database)
    (r : TransitionResult)
    → find_version u.id db.versions ≡ some u
    → move_version input u new_id db ≡ ok (db', r)
    → Settled input u other_id r.rule_version_id db'
unfolding move_version
move_version-retry input u new_id other_id db db' r found h =
    elim (Option-cases (find (is_successor u.id input.to) db.versions)) [
      | inr (v, there) ↦
          let e = event_of v.id u.lifecycle_state input in
          let (good, same, named) = recorded_lem e false db db' r (ground (arith, h, there)) in
          subst (Settled input u other_id r.rule_version_id) same (
            subst (λ i. Settled input u other_id i (eventful e db)) (sym named)
              (settled input u v other_id db found there good))
      | inl absent ↦
          let e = event_of new_id u.lifecycle_state input in
          let w = next_version u input.to new_id in
          let db₀ : Database = record db { versions = w ∷ db.versions } in
          let (t, fresh, rest) =
            bind_ok (throw_if (has_version new_id db.versions) unique_violation)
              (λ t. record_event e true db₀) (ground (arith, h, absent)) in
          let (good, same, named) = recorded_lem e true db₀ db' r rest in
          subst (Settled input u other_id r.rule_version_id) same (
            subst (λ i. Settled input u other_id i (eventful e db₀)) (sym named)
              (settled input u w other_id db₀
                (find_version-cons w db.versions u.id u (ground (arith, fresh)) found)
                (ground (arith, state_eq_refl input.to, eq_iff u.id u.id)) good))
    ]

-- A transition that has gone through can be tried again with any new id: it changes nothing, and returns the
-- version that the first one returned, as one that was not created.
pub transition_rule_lifecycle-retry :
    (input : TransitionInput) (new_id other_id : String) (db db' : Database) (r : TransitionResult)
    → transition_rule_lifecycle input new_id db ≡ ok (db', r)
    → transition_rule_lifecycle input other_id db'
      ≡ ok (db', record { rule_version_id = r.rule_version_id; created = false })
unfolding transition_rule_lifecycle
transition_rule_lifecycle-retry input new_id other_id db db' r h =
    let (u, known, h₁) =
      bind_ok (need (find_version input.rule_version_id db.versions) version_not_found) _ h in
    let found : find_version input.rule_version_id db.versions ≡ some u = ground (arith, known) in
    let (t, legal, h₂) =
      bind_ok
        (throw_if (not (may_become u.lifecycle_state input.to)) invalid_rule_lifecycle_transition)
        (λ t. move_version input u new_id db) h₁ in
    let test = λ (v : RuleVersion). v.id == input.rule_version_id in
    let same : u.id ≡ input.rule_version_id =
      (eq_iff u.id input.rule_version_id).0 (found_test test db.versions u found) in
    let (still, done) =
      move_version-retry input u new_id other_id db db' r
        (subst (λ i. find_version i db.versions ≡ some u) (sym same) found) h₂ in
    let there = subst (λ i. find_version i db'.versions ≡ some u) same still in
    rw (there, legal) done
