-- ===== src/RuleEngine/Lifecycle/Governed.antt =====
-- Governance of rule versions: where each came from, and who activated it.
use freight_auditor.Audit.{not_distinct}
use freight_auditor.Prelude.{
  ◌&&◌, ℕ, String, ◌==◌, Bool, true, false, not, none, some, List, [], ◌∷◌, All, leb, Result, ok,
  ◌>>=◌, ◌>>◌, throw_if, need, ◌≡◌, ◌≢◌, sym, subst, ap, ◌∙◌, arith, inl, inr, eq_iff, Bool-cases,
  Option-cases, bind_ok,
}
use freight_auditor.RuleEngine.Lifecycle.{
  PromotionPolicy, HumanOverride, active, quarantined, state_eq, may_become, RuleVersion,
  PromotionEvent, Ratification, Database, find_version, has_version, is_text, TransitionInput,
  TransitionResult, has_evidence, move_version, transition_rule_lifecycle, ratification_of,
  promote_shadow_rule, add_ratification, ratify, resolve_promotion_policy, quarantine_on_reversal,
  LifecycleError, version_not_found, dual_control_required, not_active,
  invalid_rule_lifecycle_transition, reversals,
}
use freight_auditor.RuleEngine.Lifecycle.Tables.{
  Distinct, found_self, found_test, Lineage, TwoAnalysts, IsGoverned, Extends, Lineage-Extends,
  TwoAnalysts-Extends, All-map, find_version-cons,
}
use freight_auditor.RuleEngine.Lifecycle.Moves.{DualControlled, moved-IsGoverned}

transition-IsGoverned :
    (input : TransitionInput) (new_id : String) (db db' : Database) (r : TransitionResult)
    → DualControlled input input.rule_version_id db
    → transition_rule_lifecycle input new_id db ≡ ok (db', r)
    → IsGoverned db
    → IsGoverned db'
unfolding transition_rule_lifecycle
transition-IsGoverned input new_id db db' r dual h g =
    let (u, known, h₁) =
      bind_ok (need (find_version input.rule_version_id db.versions) version_not_found) _ h in
    let found : find_version input.rule_version_id db.versions ≡ some u = ground (arith, known) in
    let (t, legal, h₂) =
      bind_ok
        (throw_if (not (may_become u.lifecycle_state input.to)) invalid_rule_lifecycle_transition)
        (λ t. move_version input u new_id db) h₁ in
    let test = λ (v : RuleVersion). v.id == input.rule_version_id in
    let same : u.id ≡ input.rule_version_id =
      (eq_iff u.id input.rule_version_id).0 (found_test test db.versions u found) in
    moved-IsGoverned input u db (found_self test db.versions u g.distinct found)
      (ground (arith, legal)) (subst (λ i. DualControlled input i db) (sym same) dual) g new_id db'
      r h₂

-- One step of the rules' tables: a version without predecessor, a change of policies and overrides, or an
-- operation that returns. A transition of its own names no analyst: the routes give it a backtest at most.
pub data Step : Database → Database → Type 0 where
  added :
      {db : Database} (v : RuleVersion)
      → v.predecessor ≡ none
      → has_version v.id db.versions ≡ false
      → Step db (record db { versions = v ∷ db.versions })
  configured :
      {db : Database} (ps : List PromotionPolicy) (os : List HumanOverride)
      → Step db (record db { policies = ps; overrides = os })
  moved :
      {db db' : Database} (input : TransitionInput) (new_id : String) (r : TransitionResult)
      → input.dual_control_analyst_id ≡ none
      → transition_rule_lifecycle input new_id db ≡ ok (db', r)
      → Step db db'
  promoted :
      {db db' : Database} (id rationale actor new_id : String) (r : TransitionResult)
      → promote_shadow_rule id rationale actor new_id db ≡ ok (db', r)
      → Step db db'
  ratified :
      {db db' : Database} (id rationale actor new_id : String) (r : TransitionResult)
      → ratify id rationale actor new_id db ≡ ok (db', r)
      → Step db db'
  reversed :
      {db db' : Database} (text : ℕ → ℕ → String) (account criterion id new_id : String) (b : Bool)
      (i : String)
      → quarantine_on_reversal text account criterion id new_id db ≡ ok (db', b, i)
      → Step db db'

pub data Reach : Database → Database → Type 0 where
  here : {db : Database} → Reach db db
  next : {db mid db' : Database} → Reach db mid → Step mid db' → Reach db db'

added-IsGoverned :
    (v : RuleVersion) (db : Database)
    → v.predecessor ≡ none
    → has_version v.id db.versions ≡ false
    → IsGoverned db
    → IsGoverned (record db { versions = v ∷ db.versions })
unfolding Distinct
added-IsGoverned v db first fresh g =
    let db' : Database = record db { versions = v ∷ db.versions } in
    let x : Extends db db' = record {
      versions = λ id w h. find_version-cons v db.versions id w fresh h;
      events = λ id from to h. h;
      ratifications = λ id r h. h;
    } in
    record {
      distinct = (fresh, g.distinct);
      lineages = (
        λ p h. absurd (ground (arith, first, h)),
        All-map (Lineage db) (Lineage db') (λ w. Lineage-Extends db db' w x) db.versions g.lineages,
      );
      evidence = g.evidence;
      analysts =
          All-map (TwoAnalysts db) (TwoAnalysts db') (λ f. TwoAnalysts-Extends db db' f x) db.events
            g.analysts;
    }

promoted-IsGoverned :
    (id rationale actor new_id : String) (db db' : Database) (r : TransitionResult)
    → promote_shadow_rule id rationale actor new_id db ≡ ok (db', r)
    → IsGoverned db
    → IsGoverned db'
unfolding promote_shadow_rule
promoted-IsGoverned id rationale actor new_id db db' r h g =
    let input : TransitionInput = record {
      rule_version_id = id;
      to = active;
      rationale = rationale;
      dual_control_analyst_id = some actor;
      rule_backtest_id = none;
    } in
    let (n, known, h₁) =
      bind_ok (need (ratification_of id db.ratifications) dual_control_required) _ h in
    let (t, other, h₂) =
      bind_ok (throw_if (is_text actor n.actor_user_id) dual_control_required)
        (λ t. transition_rule_lifecycle input new_id db) h₁ in
    let differs : n.actor_user_id ≢ some actor =
      λ same. ground (arith, other, same, eq_iff actor actor) in
    transition-IsGoverned input new_id db db' r
      (λ a e. (n, ground (arith, known), λ same. differs (same ∙ sym e))) h₂ g

ratification-kept :
    (n : Ratification) (id : String) (r : Ratification) (before after : List Ratification)
    → add_ratification n before ≡ ok after
    → ratification_of id before ≡ some r
    → ratification_of id after ≡ some r
ratification-kept n id r before after h k =
    elim (Option-cases (ratification_of n.rule_version_id before)) [
      | inl absent ↦
          let grown : n ∷ before ≡ after = ground (arith, h, absent) in
          let kept : ratification_of id (n ∷ before) ≡ some r =
            elim (Bool-cases (n.rule_version_id == id)) [
              | inl same ↦
                  let named = (eq_iff n.rule_version_id id).0 same in
                  absurd (ground (arith, absent, k, ap (λ x. ratification_of x before) named))
              | inr other ↦ ground (arith, other, k)
            ] in
          subst (λ rs. ratification_of id rs ≡ some r) grown kept
      | inr (old, there) ↦
          elim (Bool-cases
            (old.rationale == n.rationale && not_distinct old.actor_user_id n.actor_user_id)) [
              | inl same ↦
                  subst (λ rs. ratification_of id rs ≡ some r) (ground (arith, h, there, same)) k
              | inr clash ↦ absurd (ground (arith, h, there, clash))
            ]
    ]

ratification-IsGoverned :
    (n : Ratification) (rs : List Ratification) (db : Database)
    → add_ratification n db.ratifications ≡ ok rs
    → IsGoverned db
    → IsGoverned (record db { ratifications = rs })
ratification-IsGoverned n rs db h g =
    let db' : Database = record db { ratifications = rs } in
    let x : Extends db db' = record {
      versions = λ id v k. k;
      events = λ id from to k. k;
      ratifications = λ id r k. ratification-kept n id r db.ratifications rs h k;
    } in
    record {
      distinct = g.distinct;
      lineages =
          All-map (Lineage db) (Lineage db') (λ w. Lineage-Extends db db' w x) db.versions
            g.lineages;
      evidence = g.evidence;
      analysts =
          All-map (TwoAnalysts db) (TwoAnalysts db') (λ f. TwoAnalysts-Extends db db' f x) db.events
            g.analysts;
    }

ratified-IsGoverned :
    (id rationale actor new_id : String) (db db' : Database) (r : TransitionResult)
    → ratify id rationale actor new_id db ≡ ok (db', r)
    → IsGoverned db
    → IsGoverned db'
unfolding ratify
ratified-IsGoverned id rationale actor new_id db db' r h g =
    let (s, went, h₁) = bind_ok (transition_rule_lifecycle _ new_id db) _ h in
    let n : Ratification = record {
      rule_version_id = s.1.rule_version_id;
      actor_user_id = some actor;
      rationale = rationale;
    } in
    let (rs, wrote, h₂) = bind_ok (add_ratification n s.0.ratifications) _ h₁ in
    let g₁ = transition-IsGoverned _ new_id db s.0 s.1 (λ a e. absurd (ground (arith, e))) went g in
    subst IsGoverned (ground (arith, h₂)) (ratification-IsGoverned n rs s.0 wrote g₁)

reversed-IsGoverned :
    (text : ℕ → ℕ → String) (account criterion id new_id : String) (db db' : Database) (b : Bool)
    (i : String)
    → quarantine_on_reversal text account criterion id new_id db ≡ ok (db', b, i)
    → IsGoverned db
    → IsGoverned db'
unfolding quarantine_on_reversal
reversed-IsGoverned text account criterion id new_id db db' b i h g =
    let (v, known, h₁) = bind_ok (need (find_version id db.versions) version_not_found) _ h in
    let (policy, resolved, h₂) =
      bind_ok
        (throw_if (not (state_eq v.lifecycle_state active)) not_active
          >> resolve_promotion_policy account v.rule_type db.policies)
        _ h₁ in
    elim (Bool-cases (leb (reversals account criterion db.overrides) policy.max_reversals)) [
      | inl few ↦ subst IsGoverned (ground (arith, h₂, few)) g
      | inr many ↦
          let input : TransitionInput = record {
            rule_version_id = id;
            to = quarantined;
            rationale = text (reversals account criterion db.overrides) policy.max_reversals;
            dual_control_analyst_id = none;
            rule_backtest_id = none;
          } in
          let done : Database × TransitionResult
              → Result LifecycleError (Database × Bool × String) =
            λ s. ok (s.0, true, s.1.rule_version_id) in
          let taken : (transition_rule_lifecycle input new_id db >>= done) ≡ ok (db', b, i) =
            ground (arith, h₂, many) in
          let (s, went, h₃) = bind_ok (transition_rule_lifecycle input new_id db) done taken in
          subst IsGoverned (ground (arith, h₃))
            (transition-IsGoverned _ new_id db s.0 s.1 (λ a e. absurd (ground (arith, e))) went g)
    ]

Step-IsGoverned : {db db' : Database} → Step db db' → IsGoverned db → IsGoverned db'
Step-IsGoverned (added {db = db} v first fresh) g = added-IsGoverned v db first fresh g
Step-IsGoverned {db} {db'} (configured ps os) g = record {
  distinct = g.distinct;
  lineages = g.lineages;
  evidence = g.evidence;
  analysts = g.analysts;
}
Step-IsGoverned {db} {db'} (moved input new_id r plain h) g =
    transition-IsGoverned input new_id db db' r (λ a e. absurd (ground (arith, plain, e))) h g
Step-IsGoverned {db} {db'} (promoted id rationale actor new_id r h) g =
    promoted-IsGoverned id rationale actor new_id db db' r h g
Step-IsGoverned {db} {db'} (ratified id rationale actor new_id r h) g =
    ratified-IsGoverned id rationale actor new_id db db' r h g
Step-IsGoverned {db} {db'} (reversed text account criterion id new_id b i h) g =
    reversed-IsGoverned text account criterion id new_id db db' b i h g

abbrev pub no_rules : Database
no_rules = record { versions = []; events = []; ratifications = []; policies = []; overrides = [] }

reached : {db : Database} → Reach no_rules db → IsGoverned db
unfolding Distinct
reached here = record { distinct = tt; lineages = tt; evidence = tt; analysts = tt }
reached (next r s) = Step-IsGoverned s (reached r)

-- Whatever rules have been added, moved, ratified, promoted and quarantined since there were none: the
-- predecessor of a version is there, is of the same rule and content, may become what the version is, and
-- the transition has its event; an event of an activation has a backtest or an analyst; and where it has an
-- analyst, the version's predecessor was ratified, and not by that analyst.
pub Reach-IsGoverned :
    (db : Database)
    → Reach no_rules db
    → All (Lineage db) db.versions
      × All (λ (e : PromotionEvent). has_evidence e ≡ true) db.events
      × All (TwoAnalysts db) db.events
Reach-IsGoverned db r = let g = reached r in (g.lineages, g.evidence, g.analysts)
