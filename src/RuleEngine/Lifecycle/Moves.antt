-- ===== src/RuleEngine/Lifecycle/Moves.antt =====
-- One transition of a version keeps the tables governed.
use freight_auditor.Prelude.{
  String, Bool, true, false, not, some, List, ◌∷◌, any, find, All, ok, throw_if, ◌≡◌, ◌≢◌, refl,
  subst, arith, inl, inr, eq_iff, Bool-cases, Option-cases, bind_ok,
}
use freight_auditor.RuleEngine.Lifecycle.{
  may_become, RuleVersion, PromotionEvent, Ratification, Database, find_version, has_version,
  is_successor, is_event, TransitionInput, TransitionResult, next_version, event_of, has_evidence,
  add_event, record_event, move_version, ratification_of, check_violation, unique_violation,
}
use freight_auditor.RuleEngine.Lifecycle.Tables.{
  is_text_eq, some_inj, Distinct, found_self, found_test, Lineage, TwoAnalysts, IsGoverned, Extends,
  Lineage-Extends, TwoAnalysts-Extends, All-map, find_version-cons, any_event-add, any_event-here,
}

abbrev with_event : PromotionEvent → List RuleVersion → Database → Database
with_event e vs db = record db { versions = vs; events = add_event e db.events }

All-add_event :
    (P : PromotionEvent → Type 0) (e : PromotionEvent) (es : List PromotionEvent)
    → P e
    → All P es
    → All P (add_event e es)
All-add_event P e es h k =
    elim (Bool-cases (any (is_event e.rule_version_id e.from_lifecycle e.to_lifecycle) es)) [
      | inl there ↦ subst (All P) (ground (arith, there)) k
      | inr none_yet ↦
          let grown : e ∷ es ≡ add_event e es = ground (arith, none_yet) in
          subst (All P) grown (h, k)
    ]

-- What is to be shown of an input that names an analyst.
abbrev pub DualControlled : TransitionInput → String → Database → Type 0
DualControlled input id db =
    (a : String)
    → input.dual_control_analyst_id ≡ some a
    → (r : Ratification) × (ratification_of id db.ratifications ≡ some r)
      × (r.actor_user_id ≢ some a)

pub recorded_lem :
    (e : PromotionEvent) (created : Bool) (db₀ db' : Database) (r : TransitionResult)
    → record_event e created db₀ ≡ ok (db', r)
    → (has_evidence e ≡ true)
      × (record db₀ { events = add_event e db₀.events } ≡ db')
      × (r.rule_version_id ≡ e.rule_version_id)
unfolding record_event
recorded_lem e created db₀ db' r h =
    let (u, good, rest) = bind_ok (throw_if (not (has_evidence e)) check_violation) _ h in
    (ground (arith, good), ground (arith, rest), ground (arith, rest))

module _ (input : TransitionInput) (u : RuleVersion) (db : Database)
    (found : find_version u.id db.versions ≡ some u)
    (legal : may_become u.lifecycle_state input.to ≡ true) (dual : DualControlled input u.id db)
    (g : IsGoverned db) where
  retried-IsGoverned :
      (v : RuleVersion)
      → find (is_successor u.id input.to) db.versions ≡ some v
      → has_evidence (event_of v.id u.lifecycle_state input) ≡ true
      → IsGoverned (with_event (event_of v.id u.lifecycle_state input) db.versions db)
  retried-IsGoverned v there good =
      let e = event_of v.id u.lifecycle_state input in
      let db' = with_event e db.versions db in
      let x : Extends db db' = record {
        versions = λ id w h. h;
        events = any_event-add e db.events;
        ratifications = λ id r h. h;
      } in
      let from =
        is_text_eq u.id v.predecessor
          (ground (arith, found_test (is_successor u.id input.to) db.versions v there)) in
      record {
        distinct = g.distinct;
        lineages =
            All-map (Lineage db) (Lineage db') (λ w. Lineage-Extends db db' w x) db.versions
              g.lineages;
        evidence = All-add_event (λ f. has_evidence f ≡ true) e db.events good g.evidence;
        analysts =
            All-add_event (TwoAnalysts db') e db.events
              (λ a h.
                let (r, ratified, other) = dual a h in
                (
                  v,
                  u.id,
                  r,
                  found_self (is_successor u.id input.to) db.versions v g.distinct there,
                  from,
                  ratified,
                  other,
                ))
              (All-map (TwoAnalysts db) (TwoAnalysts db') (λ f. TwoAnalysts-Extends db db' f x)
                db.events g.analysts);
      }

  created-IsGoverned :
      (new_id : String)
      → has_version new_id db.versions ≡ false
      → has_evidence (event_of new_id u.lifecycle_state input) ≡ true
      → IsGoverned (
          with_event
            (event_of new_id u.lifecycle_state input)
            (next_version u input.to new_id ∷ db.versions)
            db)
  unfolding Distinct
  created-IsGoverned new_id fresh good =
      let e = event_of new_id u.lifecycle_state input in
      let w = next_version u input.to new_id in
      let db' = with_event e (w ∷ db.versions) db in
      let x : Extends db db' = record {
        versions = λ id v h. find_version-cons w db.versions id v fresh h;
        events = any_event-add e db.events;
        ratifications = λ id r h. h;
      } in
      record {
        distinct = (fresh, g.distinct);
        lineages = (
          λ p h. (
            u,
            subst (λ q. find_version q (w ∷ db.versions) ≡ some u) (some_inj u.id p h)
                (find_version-cons w db.versions u.id u fresh found),
            refl,
            refl,
            legal,
            any_event-here e db.events,
          ),
          All-map (Lineage db) (Lineage db') (λ v. Lineage-Extends db db' v x) db.versions
              g.lineages,
        );
        evidence = All-add_event (λ f. has_evidence f ≡ true) e db.events good g.evidence;
        analysts =
            All-add_event (TwoAnalysts db') e db.events
              (λ a h.
                let (r, ratified, other) = dual a h in
                (w, u.id, r, ground (arith, eq_iff new_id new_id), refl, ratified, other))
              (All-map (TwoAnalysts db) (TwoAnalysts db') (λ f. TwoAnalysts-Extends db db' f x)
                db.events g.analysts);
      }

  pub moved-IsGoverned :
      (new_id : String) (db' : Database) (r : TransitionResult)
      → move_version input u new_id db ≡ ok (db', r)
      → IsGoverned db'
  unfolding move_version
  moved-IsGoverned new_id db' r h =
      elim (Option-cases (find (is_successor u.id input.to) db.versions)) [
        | inr (v, there) ↦
            let e = event_of v.id u.lifecycle_state input in
            let (good, same, _) = recorded_lem e false db db' r (ground (arith, h, there)) in
            subst IsGoverned same (retried-IsGoverned v there good)
        | inl absent ↦
            let e = event_of new_id u.lifecycle_state input in
            let db₀ : Database = record db {
              versions = next_version u input.to new_id ∷ db.versions;
            } in
            let (t, fresh, rest) =
              bind_ok (throw_if (has_version new_id db.versions) unique_violation)
                (λ t. record_event e true db₀) (ground (arith, h, absent)) in
            let (good, same, _) = recorded_lem e true db₀ db' r rest in
            subst IsGoverned same (created-IsGoverned new_id (ground (arith, fresh)) good)
      ]
