-- ===== src/RuleEngine/Lifecycle.antt =====
-- The lifecycle of a rule (rule-engine/transition-rule-lifecycle.ts, promote-shadow-rule.ts,
-- quarantine-on-reversal.ts, promotion-policy.ts, and the route that ratifies a rule in
-- server/rule-governance-routes.ts). The tables only grow, newest first: a transition adds a version.
-- `content` is what a version copies of its predecessor. Generated ids are arguments.
pub mod Tables
pub mod Moves
pub mod Governed
pub mod Retry
use freight_auditor.Audit.{not_distinct}
use freight_auditor.Prelude.{
  ℕ, ◌+◌, String, ◌==◌, Bool, true, false, not, ◌&&◌, ◌||◌, Option, none, some, List, [], ◌∷◌, any,
  find, keep, leb, if◌then◌else◌, Result, ok, err, ◌>>=◌, ◌>>◌, throw_if, need,
}

pub data RuleLifecycle : Type 0 where
  proposed shadow active deprecated quarantined : RuleLifecycle

abbrev pub state_eq : RuleLifecycle → RuleLifecycle → Bool
state_eq proposed proposed = true
state_eq shadow shadow = true
state_eq active active = true
state_eq deprecated deprecated = true
state_eq quarantined quarantined = true
state_eq _ _ = false

-- `ALLOWED`.
abbrev pub allowed : RuleLifecycle → List RuleLifecycle
allowed proposed = shadow ∷ quarantined ∷ []
allowed shadow = active ∷ quarantined ∷ []
allowed active = deprecated ∷ quarantined ∷ []
allowed quarantined = shadow ∷ []
allowed deprecated = []

abbrev pub may_become : RuleLifecycle → RuleLifecycle → Bool
may_become from to = any (state_eq to) (allowed from)

pub data LifecycleError : Type 0 where
  version_not_found invalid_rule_lifecycle_transition dual_control_required : LifecycleError
  not_active policy_not_found : LifecycleError
  unique_violation check_violation audit_event_conflict : LifecycleError

pub record RuleVersion : Type 0 where
  pub id : String
  pub rule_id : String
  pub rule_type : String
  pub content : String
  pub lifecycle_state : RuleLifecycle
  pub predecessor : Option String

pub data Direction : Type 0 where
  promote demote : Direction

pub record PromotionEvent : Type 0 where
  pub rule_version_id : String
  pub from_lifecycle : RuleLifecycle
  pub to_lifecycle : RuleLifecycle
  pub direction : Direction
  pub rationale : String
  pub dual_control_analyst_id : Option String
  pub rule_backtest_id : Option String
  -- Written by the ratification of contract rules only.
  pub contract_proposal_backtest_id : Option String

-- The audit event `promoted_to_shadow` of a version: its id is of the version, so there is one at most.
pub record Ratification : Type 0 where
  pub rule_version_id : String
  pub actor_user_id : Option String
  pub rationale : String

pub record PromotionPolicy : Type 0 where
  pub account_id : Option String
  pub rule_type : Option String
  pub max_reversals : ℕ

pub record HumanOverride : Type 0 where
  pub criterion_id : String
  pub account_id : Option String
  pub reversal_count : ℕ

pub record Database : Type 0 where
  pub versions : List RuleVersion
  pub events : List PromotionEvent
  pub ratifications : List Ratification
  pub policies : List PromotionPolicy
  pub overrides : List HumanOverride

abbrev pub find_version : String → List RuleVersion → Option RuleVersion
find_version id vs = find (λ (v : RuleVersion). v.id == id) vs

abbrev pub has_version : String → List RuleVersion → Bool
has_version id vs = any (λ (v : RuleVersion). v.id == id) vs

abbrev pub is_text : String → Option String → Bool
is_text s none = false
is_text s (some t) = t == s

-- The columns of `rule_version_lifecycle_transition_idx` (migration 0030).
abbrev pub is_successor : String → RuleLifecycle → RuleVersion → Bool
is_successor id to v = is_text id v.predecessor && state_eq v.lifecycle_state to

-- The columns of `promotion_event_transition_idx`.
abbrev pub is_event : String → RuleLifecycle → RuleLifecycle → PromotionEvent → Bool
is_event id from to e =
    e.rule_version_id == id && state_eq e.from_lifecycle from && state_eq e.to_lifecycle to

pub record TransitionInput : Type 0 where
  pub rule_version_id : String
  pub to : RuleLifecycle
  pub rationale : String
  pub dual_control_analyst_id : Option String
  pub rule_backtest_id : Option String

pub record TransitionResult : Type 0 where
  pub rule_version_id : String
  pub created : Bool

abbrev pub next_version : RuleVersion → RuleLifecycle → String → RuleVersion
next_version v to new_id = record v { id = new_id; lifecycle_state = to; predecessor = some v.id }

abbrev pub direction_to : RuleLifecycle → Direction
direction_to deprecated = demote
direction_to quarantined = demote
direction_to _ = promote

abbrev pub event_of : String → RuleLifecycle → TransitionInput → PromotionEvent
event_of id from input = record {
  rule_version_id = id;
  from_lifecycle = from;
  to_lifecycle = input.to;
  direction = direction_to input.to;
  rationale = input.rationale;
  dual_control_analyst_id = input.dual_control_analyst_id;
  rule_backtest_id = input.rule_backtest_id;
  contract_proposal_backtest_id = none;
}

abbrev pub is_null : Option String → Bool
is_null none = true
is_null (some s) = false

-- The CHECK active_promotion_requires_backtest (migration 0078).
abbrev pub has_evidence : PromotionEvent → Bool
has_evidence e =
    not (state_eq e.to_lifecycle active)
    || not (is_null e.rule_backtest_id)
    || not (is_null e.contract_proposal_backtest_id)
    || not (is_null e.dual_control_analyst_id)

-- INSERT … ON CONFLICT (rule_version_id, from_lifecycle, to_lifecycle) DO NOTHING.
abbrev pub add_event : PromotionEvent → List PromotionEvent → List PromotionEvent
add_event e es =
    if any (is_event e.rule_version_id e.from_lifecycle e.to_lifecycle) es then es else e ∷ es

unfoldable pub record_event :
    PromotionEvent → Bool → Database → Result LifecycleError (Database × TransitionResult)
record_event e created db =
    throw_if (not (has_evidence e)) check_violation
    >> ok (
      record db { events = add_event e db.events },
      record { rule_version_id = e.rule_version_id; created = created },
    )

-- The version's INSERT … ON CONFLICT (predecessor, state) DO NOTHING, or the row that is there; then the
-- event.
unfoldable pub move_version :
    TransitionInput
    → RuleVersion
    → String
    → Database
    → Result LifecycleError (Database × TransitionResult)
move_version input current new_id db = elim (find (is_successor current.id input.to) db.versions) [
  | some v ↦ record_event (event_of v.id current.lifecycle_state input) false db
  | none ↦
      throw_if (has_version new_id db.versions) unique_violation
      >> record_event (event_of new_id current.lifecycle_state input) true
          (record db { versions = next_version current input.to new_id ∷ db.versions })
]

unfoldable pub transition_rule_lifecycle :
    TransitionInput → String → Database → Result LifecycleError (Database × TransitionResult)
transition_rule_lifecycle input new_id db =
    need (find_version input.rule_version_id db.versions) version_not_found >>= λ current.
    throw_if (not (may_become current.lifecycle_state input.to)) invalid_rule_lifecycle_transition
    >> move_version input current new_id db

abbrev pub ratification_of : String → List Ratification → Option Ratification
ratification_of id rs = find (λ (r : Ratification). r.rule_version_id == id) rs

unfoldable pub promote_shadow_rule :
    (rule_version_id rationale actor new_id : String)
    → Database
    → Result LifecycleError (Database × TransitionResult)
promote_shadow_rule rule_version_id rationale actor new_id db =
    need (ratification_of rule_version_id db.ratifications) dual_control_required >>= λ r.
    throw_if (is_text actor r.actor_user_id) dual_control_required
    >> transition_rule_lifecycle
        (record {
          rule_version_id = rule_version_id;
          to = active;
          rationale = rationale;
          dual_control_analyst_id = some actor;
          rule_backtest_id = none;
        })
        new_id db

-- writeAuditEvent of a ratification: its id is of the two versions, so that a second one by the same
-- analyst with the same rationale is there, and any other is a conflict.
abbrev pub add_ratification :
    Ratification → List Ratification → Result LifecycleError (List Ratification)
add_ratification r rs = elim (ratification_of r.rule_version_id rs) [
  | none ↦ ok (r ∷ rs)
  | some old ↦
      if old.rationale == r.rationale && not_distinct old.actor_user_id r.actor_user_id
      then ok rs
      else err audit_event_conflict
]

-- The body of POST /api/rules/:id/ratify.
unfoldable pub ratify :
    (rule_version_id rationale actor new_id : String)
    → Database
    → Result LifecycleError (Database × TransitionResult)
ratify rule_version_id rationale actor new_id db =
    transition_rule_lifecycle
      (record {
        rule_version_id = rule_version_id;
        to = shadow;
        rationale = rationale;
        dual_control_analyst_id = none;
        rule_backtest_id = none;
      })
      new_id db
    >>= λ s.
        add_ratification
          (record {
            rule_version_id = s.1.rule_version_id;
            actor_user_id = some actor;
            rationale = rationale;
          })
          s.0.ratifications
        >>= λ rs. ok (record s.0 { ratifications = rs }, s.1)

abbrev pub or_null : String → Option String → Bool
or_null s t = is_null t || is_text s t

-- ORDER BY (account_id IS NOT NULL) DESC, (rule_type IS NOT NULL) DESC LIMIT 1.
unfoldable pub first_policy :
    List (PromotionPolicy → Bool) → List PromotionPolicy → Option PromotionPolicy
first_policy [] ps = none
first_policy (p ∷ rest) ps = elim (find p ps) [ some x ↦ some x | none ↦ first_policy rest ps ]

unfoldable pub resolve_promotion_policy :
    String → String → List PromotionPolicy → Result LifecycleError PromotionPolicy
resolve_promotion_policy account rule_type ps =
    need
      (first_policy
        ((λ p. is_text account p.account_id && is_text rule_type p.rule_type)
          ∷ (λ p. is_text account p.account_id && is_null p.rule_type)
          ∷ (λ p. is_null p.account_id && is_text rule_type p.rule_type)
          ∷ (λ p. is_null p.account_id && is_null p.rule_type)
          ∷ [])
        ps)
      policy_not_found

unfoldable pub reversals : String → String → List HumanOverride → ℕ
reversals account criterion [] = 0
reversals account criterion (o ∷ os) =
    if o.criterion_id == criterion && or_null account o.account_id
    then o.reversal_count + reversals account criterion os
    else reversals account criterion os

-- With whether the version was quarantined; `rationale_of` writes the numbers into the rationale.
unfoldable pub quarantine_on_reversal :
    (ℕ → ℕ → String)
    → (account criterion_id rule_version_id new_id : String) → Database
    → Result LifecycleError (Database × Bool × String)
quarantine_on_reversal rationale_of account criterion_id rule_version_id new_id db =
    need (find_version rule_version_id db.versions) version_not_found >>= λ v.
    throw_if (not (state_eq v.lifecycle_state active)) not_active
    >> resolve_promotion_policy account v.rule_type db.policies
    >>= λ policy.
        let count = reversals account criterion_id db.overrides in
        let quarantine =
          transition_rule_lifecycle
            (record {
              rule_version_id = rule_version_id;
              to = quarantined;
              rationale = rationale_of count policy.max_reversals;
              dual_control_analyst_id = none;
              rule_backtest_id = none;
            })
            new_id db
          >>= λ s. ok (s.0, true, s.1.rule_version_id) in
        if leb count policy.max_reversals then ok (db, false, rule_version_id) else quarantine
