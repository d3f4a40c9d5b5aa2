-- ===== src/Workflow/Instances.antt =====
-- Workflow instances and their transitions (create-workflow-instance.ts, validate-workflow-transition.ts,
-- append-workflow-transition.ts). Each operation is one transaction, which holds the row's lock from its
-- read on. Generated ids and times are arguments; times are left out of the rows.
pub mod Rows
pub mod Histories
use freight_auditor.Prelude.{
  ℕ, String, ◌==◌, Bool, true, false, not, ◌&&◌, ◌||◌, Option, none, some, List, [], ◌∷◌, any, find,
  if◌then◌else◌, includes, Result, ok, err, ◌>>=◌, ◌>>◌, throw_if, need,
}
use freight_auditor.Audit.{AuditEvent, AuditLog, AuditError, system, write_audit_event}

-- The arrays of the map, by their key.
abbrev pub WorkflowTransitionMap : Type 0
WorkflowTransitionMap = List (String × List String)

pub data TransitionError : Type 0 where
  unknown_from_state illegal_transition instance_not_found unique_violation : TransitionError
  audit_conflict : TransitionError

abbrev pub targets : String → WorkflowTransitionMap → Option (List String)
targets from [] = none
targets from ((k, to) ∷ rest) = if k == from then some to else targets from rest

unfoldable pub validate_workflow_transition :
    String → String → WorkflowTransitionMap → Result TransitionError (Unit {0})
validate_workflow_transition from to allowed_transitions =
    if from == to
    then ok tt
    else need (targets from allowed_transitions) unknown_from_state >>= λ allowed.
        throw_if (not (includes to allowed)) illegal_transition

pub record Instance : Type 0 where
  pub id : String
  pub account_id : String
  pub workflow_type : String
  pub subject_entity : String
  pub subject_entity_id : String
  pub current_state : String

pub record Transition : Type 0 where
  pub id : String
  pub workflow_instance_id : String
  pub from_state : String
  pub to_state : String

-- Transitions newest first.
pub record Database : Type 0 where
  pub instances : List Instance
  pub transitions : List Transition
  pub audit : AuditLog

pub record CreateWorkflowInstanceInput : Type 0 where
  pub client_id : String
  pub workflow_type : String
  pub subject_entity : String
  pub subject_entity_id : String
  pub initial_state : String

-- The columns of the unique constraint (migration 0046).
abbrev pub same_subject : CreateWorkflowInstanceInput → Instance → Bool
same_subject input r =
    r.account_id == input.client_id
    && r.workflow_type == input.workflow_type
    && r.subject_entity == input.subject_entity
    && r.subject_entity_id == input.subject_entity_id

abbrev pub lift_audit {ℓ} : {A : Type ℓ} → Result AuditError A → Result TransitionError A
lift_audit (ok a) = ok a
lift_audit (err e) = err audit_conflict

abbrev pub has_id : String → List Instance → Bool
has_id id rows = any (λ (r : Instance). r.id == id) rows

unfoldable pub with_state : String → String → List Instance → List Instance
with_state id to [] = []
with_state id to (r ∷ rs) =
    (if r.id == id then record r { current_state = to } else r) ∷ with_state id to rs

abbrev pub new_instance : CreateWorkflowInstanceInput → String → Instance
new_instance input id = record {
  id = id;
  account_id = input.client_id;
  workflow_type = input.workflow_type;
  subject_entity = input.subject_entity;
  subject_entity_id = input.subject_entity_id;
  current_state = input.initial_state;
}

pub record AppendInput : Type 0 where
  pub client_id : String
  pub workflow_instance_id : String
  pub to_state : String

abbrev pub transition_of : String → Instance → String → Transition
transition_of new_id r to = record {
  id = new_id;
  workflow_instance_id = r.id;
  from_state = r.current_state;
  to_state = to;
}

module _ (audit_event_id : List String → String) (json : List (String × String) → String) where
  abbrev pub created_event : Instance → ℕ → AuditEvent
  created_event r now = record {
    id = audit_event_id (r.account_id ∷ r.id ∷ "workflow.created" ∷ []);
    entity = "workflow_instance";
    entity_id = r.id;
    event = "workflow.created";
    actor_kind = system;
    account_id = some r.account_id;
    actor_user_id = none;
    rule_version_id = none;
    rubric_snapshot_id = none;
    detail = json (
        ("workflowType", r.workflow_type)
        ∷ ("subjectEntity", r.subject_entity)
        ∷ ("subjectEntityId", r.subject_entity_id)
        ∷ ("initialState", r.current_state)
        ∷ []);
    recorded_at = now;
  }

  unfoldable pub create_workflow_instance :
      CreateWorkflowInstanceInput
      → String
      → ℕ
      → Database
      → Result TransitionError (Database × Instance)
  create_workflow_instance input new_id now db = elim (find (same_subject input) db.instances) [
    | some r ↦ ok (db, r)
    | none ↦
        throw_if (has_id new_id db.instances) unique_violation
        >> lift_audit (write_audit_event (created_event (new_instance input new_id) now) db.audit)
        >>= λ w. ok (
          record db { instances = new_instance input new_id ∷ db.instances; audit = w.log },
          new_instance input new_id,
        )
  ]

  abbrev pub transitioned_event : String → Transition → ℕ → AuditEvent
  transitioned_event account t now = record {
    id = audit_event_id (account ∷ t.id ∷ "workflow.transitioned" ∷ []);
    entity = "workflow_instance";
    entity_id = t.workflow_instance_id;
    event = "workflow.transitioned";
    actor_kind = system;
    account_id = some account;
    actor_user_id = none;
    rule_version_id = none;
    rubric_snapshot_id = none;
    detail =
        json (("fromState", t.from_state) ∷ ("toState", t.to_state) ∷ ("transitionId", t.id) ∷ []);
    recorded_at = now;
  }

  unfoldable pub append_workflow_transition :
      AppendInput → WorkflowTransitionMap → String → ℕ → Database → Result TransitionError Database
  append_workflow_transition input allowed_transitions new_id now db =
      need
        (find
          (λ (r : Instance). r.account_id == input.client_id && r.id == input.workflow_instance_id)
          db.instances)
        instance_not_found
      >>= λ r.
          validate_workflow_transition r.current_state input.to_state allowed_transitions
          >> lift_audit (
              write_audit_event
                (transitioned_event r.account_id (transition_of new_id r input.to_state) now)
                db.audit)
          >>= λ w. ok (record {
            instances = with_state r.id input.to_state db.instances;
            transitions = transition_of new_id r input.to_state ∷ db.transitions;
            audit = w.log;
          })
