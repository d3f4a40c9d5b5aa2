-- ===== src/Tests/Moves.antt =====
-- An instance that moves twice, the second time to where it is.
use freight_auditor.Prelude.{[], ◌∷◌, All, ok, ◌≡◌, refl}
use freight_auditor.Audit.{find_event, write_audit_event}
use freight_auditor.Tests.Inputs.{joined, object_text}
use freight_auditor.Workflow.Instances.{
  WorkflowTransitionMap, validate_workflow_transition, Instance, Transition, Database,
  CreateWorkflowInstanceInput, with_state, new_instance, AppendInput, transition_of, created_event,
  create_workflow_instance, transitioned_event, append_workflow_transition,
}
use freight_auditor.Workflow.Instances.Histories.{
  Leads, history, created, appended, here, next, Reach-IsLegal,
}

abbrev delivery_map : WorkflowTransitionMap
delivery_map = ("pending_delivery", "delivered" ∷ "abandoned" ∷ []) ∷ []

abbrev input : CreateWorkflowInstanceInput
input = record {
  client_id = "acme";
  workflow_type = "dispute_delivery";
  subject_entity = "dispute";
  subject_entity_id = "d1";
  initial_state = "pending_delivery";
}

abbrev created_db : Database
created_db = record {
  instances = new_instance input "w1" ∷ [];
  transitions = [];
  audit = created_event joined object_text (new_instance input "w1") 10 ∷ [];
}

abbrev move : AppendInput
move = record { client_id = "acme"; workflow_instance_id = "w1"; to_state = "delivered" }

abbrev first : Transition
first = transition_of "t1" (new_instance input "w1") "delivered"

abbrev moved : Instance
moved = record (new_instance input "w1") { current_state = "delivered" }

abbrev moved_db : Database
moved_db = record {
  instances = moved ∷ [];
  transitions = first ∷ [];
  audit = transitioned_event joined object_text "acme" first 20 ∷ created_db.audit;
}

abbrev again_db : Database
again_db = record {
  instances = moved ∷ [];
  transitions = transition_of "t2" moved "delivered" ∷ first ∷ [];
  audit =
      transitioned_event joined object_text "acme" (transition_of "t2" moved "delivered") 30
      ∷ moved_db.audit;
}

creates :
    create_workflow_instance joined object_text input "w1" 10
      (record { instances = []; transitions = []; audit = [] })
    ≡ ok (created_db, new_instance input "w1")
unfolding create_workflow_instance write_audit_event find_event
creates = refl

moves :
    append_workflow_transition joined object_text move delivery_map "t1" 20 created_db ≡ ok moved_db
unfolding append_workflow_transition validate_workflow_transition with_state write_audit_event
    find_event joined
moves = refl

stays :
    append_workflow_transition joined object_text move delivery_map "t2" 30 moved_db ≡ ok again_db
unfolding append_workflow_transition validate_workflow_transition with_state write_audit_event
    find_event joined
stays = refl

Reach-IsLegal_example :
    All
      (λ (r : Instance).
        Leads delivery_map (history delivery_map r.id again_db.transitions) r.current_state)
      again_db.instances
Reach-IsLegal_example = Reach-IsLegal delivery_map joined object_text [] again_db (
    next
      (next (next here (created input "w1" 10 (new_instance input "w1") creates))
        (appended move "t1" 20 moves))
      (appended move "t2" 30 stays))
