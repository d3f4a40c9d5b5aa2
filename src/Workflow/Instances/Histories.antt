-- ===== src/Workflow/Instances/Histories.antt =====
-- The transitions of an instance: a legal path of its state machine that ends in its current state.
use freight_auditor.Prelude.{
  ℕ, String, ◌==◌, Bool, true, false, ◌&&◌, some, List, [], ◌∷◌, find, keep, All, if◌then◌else◌,
  includes, ok, ◌>>◌, need, ◌≡◌, ◌⊎◌, inl, inr, refl, sym, subst, ◌∙◌, arith, eq_iff, Bool-cases,
  Option-cases, Result-cases, bind_ok,
}
use freight_auditor.Audit.{AuditLog, write_audit_event}
use freight_auditor.Workflow.Instances.{
  WorkflowTransitionMap, instance_not_found, targets, validate_workflow_transition, Instance,
  Transition, Database, CreateWorkflowInstanceInput, same_subject, lift_audit, has_id, with_state,
  new_instance, AppendInput, transition_of, created_event, create_workflow_instance,
  transitioned_event, append_workflow_transition,
}
use freight_auditor.Workflow.Instances.Rows.{Distinct, found-has_id, only_row}

module _ (allowed : WorkflowTransitionMap) where
  -- A step of the machine: to the same state, or to a target that the map lists.
  unfoldable pub Legal : String → String → Type 0
  Legal from to =
      (from ≡ to)
      ⊎ ((names : List String) × (targets from allowed ≡ some names) × (includes to names ≡ true))

  validate-Legal :
      (from to : String) → validate_workflow_transition from to allowed ≡ ok tt → Legal from to
  unfolding validate_workflow_transition Legal
  validate-Legal from to h = elim (Bool-cases (from == to)) [
    | inl same ↦ inl ((eq_iff from to).0 same)
    | inr other ↦ elim (Option-cases (targets from allowed)) [
      | inl n ↦ absurd (ground (arith, h, other, n))
      | inr (names, n) ↦ inr (names, n, ground (arith, h, other, n))
    ]
  ]

  -- Transitions, newest first, that lead to a state.
  unfoldable pub Leads : List Transition → String → Type 0
  Leads [] state = Unit
  Leads (t ∷ ts) state =
      (t.to_state ≡ state) × Legal t.from_state t.to_state × Leads ts t.from_state

  abbrev pub history : String → List Transition → List Transition
  history id ts = keep (λ (t : Transition). t.workflow_instance_id == id) ts

  pub record IsLegal (db : Database) : Type 0 where
    pub distinct : Distinct db.instances
    pub histories :
        All (λ (r : Instance). Leads (history r.id db.transitions) r.current_state) db.instances
    pub known :
        All (λ (t : Transition). has_id t.workflow_instance_id db.instances ≡ true) db.transitions

  no_history :
      (id : String) (rows : List Instance) (ts : List Transition)
      → has_id id rows ≡ false
      → All (λ (t : Transition). has_id t.workflow_instance_id rows ≡ true) ts
      → history id ts ≡ []
  no_history id rows [] h k = refl
  no_history id rows (t ∷ ts) h k =
      ground (arith, h, k.0, eq_iff t.workflow_instance_id id, no_history id rows ts h k.1)

  known_later :
      (r : Instance) (rows : List Instance) (ts : List Transition)
      → All (λ (t : Transition). has_id t.workflow_instance_id rows ≡ true) ts
      → All (λ (t : Transition). has_id t.workflow_instance_id (r ∷ rows) ≡ true) ts
  known_later r rows [] k = tt
  known_later r rows (t ∷ ts) k = (ground (arith, k.0), known_later r rows ts k.1)

  has_id-with_state :
      (i id to : String) (rows : List Instance) → has_id i (with_state id to rows) ≡ has_id i rows
  unfolding with_state
  has_id-with_state i id to [] = refl
  has_id-with_state i id to (x ∷ xs) = ground (arith, has_id-with_state i id to xs)

  Distinct-with_state :
      (id to : String) (rows : List Instance) → Distinct rows → Distinct (with_state id to rows)
  unfolding with_state Distinct
  Distinct-with_state id to [] d = tt
  Distinct-with_state id to (x ∷ xs) d =
      (ground (arith, d.0, has_id-with_state x.id id to xs), Distinct-with_state id to xs d.1)

  known-with_state :
      (id to : String) (rows : List Instance) (ts : List Transition)
      → All (λ (t : Transition). has_id t.workflow_instance_id rows ≡ true) ts
      → All (λ (t : Transition). has_id t.workflow_instance_id (with_state id to rows) ≡ true) ts
  known-with_state id to rows [] k = tt
  known-with_state id to rows (t ∷ ts) k = (
    has_id-with_state t.workflow_instance_id id to rows ∙ k.0,
    known-with_state id to rows ts k.1,
  )

  -- The history with the new transition leads to the state of the row.
  abbrev Continues : Instance → String → String → List Transition → Instance → Type 0
  Continues r to new_id ts x = Leads (history x.id (transition_of new_id r to ∷ ts)) x.current_state

  histories-with_state :
      (r : Instance) (to new_id : String) (rows : List Instance) (ts : List Transition)
      → Legal r.current_state to
      → All (λ (x : Instance). x.id ≡ r.id → x.current_state ≡ r.current_state) rows
      → All (λ (x : Instance). Leads (history x.id ts) x.current_state) rows
      → All
          (λ (x : Instance). Leads (history x.id (transition_of new_id r to ∷ ts)) x.current_state)
          (with_state r.id to rows)
  unfolding with_state Leads
  histories-with_state r to new_id [] ts l only h = tt
  histories-with_state r to new_id (x ∷ xs) ts l only h = (
    elim (Bool-cases (x.id == r.id)) [
      | inl same ↦
          let e : x.id ≡ r.id = (eq_iff x.id r.id).0 same in
          let back : (r.id == x.id) ≡ true = (eq_iff r.id x.id).1 (sym e) in
          subst
            (λ (b : Bool).
              Continues r to new_id ts (if b then record x { current_state = to } else x))
            (sym same)
            (subst
              (λ (b : Bool).
                Leads (if b then transition_of new_id r to ∷ history x.id ts else history x.id ts)
                  to)
              (sym back) (refl, l, subst (Leads (history x.id ts)) (only.0 e) h.0))
      | inr other ↦
          let back : (r.id == x.id) ≡ false =
            ground (arith, other, eq_iff r.id x.id, eq_iff x.id r.id) in
          subst
            (λ (b : Bool).
              Continues r to new_id ts (if b then record x { current_state = to } else x))
            (sym other)
            (subst
              (λ (b : Bool).
                Leads (if b then transition_of new_id r to ∷ history x.id ts else history x.id ts)
                  x.current_state)
              (sym back) h.0)
    ],
    histories-with_state r to new_id xs ts l only.1 h.1,
  )

  module _ (audit_event_id : List String → String) (json : List (String × String) → String) where
    pub data Step (db : Database) : Database → Type 0 where
      created :
          {db' : Database} (input : CreateWorkflowInstanceInput) (new_id : String) (now : ℕ)
          (r : Instance)
          → create_workflow_instance audit_event_id json input new_id now db ≡ ok (db', r)
          → Step db db'
      appended :
          {db' : Database} (input : AppendInput) (new_id : String) (now : ℕ)
          → append_workflow_transition audit_event_id json input allowed new_id now db ≡ ok db'
          → Step db db'

    pub data Reach (db : Database) : Database → Type 0 where
      here : Reach db db
      next : {mid db' : Database} → Reach db mid → Step mid db' → Reach db db'

    created-ok :
        (input : CreateWorkflowInstanceInput) (new_id : String) (now : ℕ) (r : Instance)
        (db db' : Database)
        → create_workflow_instance audit_event_id json input new_id now db ≡ ok (db', r)
        → (db'.transitions ≡ db.transitions)
          × ((db'.instances ≡ db.instances)
              ⊎ ((db'.instances ≡ new_instance input new_id ∷ db.instances)
                  × (has_id new_id db.instances ≡ false)))
    unfolding create_workflow_instance
    created-ok input new_id now r db db' h =
        elim (Option-cases (find (same_subject input) db.instances)) [
          | inr (c, old) ↦ (ground (arith, h, old), inl (ground (arith, h, old)))
          | inl new ↦ elim (Bool-cases (has_id new_id db.instances)) [
            | inl taken ↦ absurd (ground (arith, h, new, taken))
            | inr free ↦
                elim (Result-cases (
                  write_audit_event
                    (created_event audit_event_id json (new_instance input new_id) now) db.audit)) [
                      | inr (e, clash) ↦ absurd (ground (arith, h, new, free, clash))
                      | inl (w, wrote) ↦ (
                        ground (arith, h, new, free, wrote),
                        inr (ground (arith, h, new, free, wrote), free),
                      )
                    ]
          ]
        ]

    IsLegal-along :
        (instances : List Instance) (transitions : List Transition) (db' : Database)
        → db'.instances ≡ instances
        → db'.transitions ≡ transitions
        → Distinct instances
        → All (λ (r : Instance). Leads (history r.id transitions) r.current_state) instances
        → All (λ (t : Transition). has_id t.workflow_instance_id instances ≡ true) transitions
        → IsLegal db'
    IsLegal-along instances transitions db' i t d h k = record {
      distinct = subst Distinct (sym i) d;
      histories =
          coe 1 0 (j. All (λ (r : Instance). Leads (history r.id (t j)) r.current_state) (i j)) h;
      known =
          coe 1 0 (j. All (λ (x : Transition). has_id x.workflow_instance_id (i j) ≡ true) (t j)) k;
    }

    created-IsLegal :
        (input : CreateWorkflowInstanceInput) (new_id : String) (now : ℕ) (r : Instance)
        (db db' : Database)
        → create_workflow_instance audit_event_id json input new_id now db ≡ ok (db', r)
        → IsLegal db
        → IsLegal db'
    unfolding Distinct Leads
    created-IsLegal input new_id now r db db' h l =
        let (ts, how) = created-ok input new_id now r db db' h in
        elim how [
          | inl same ↦
              IsLegal-along db.instances db.transitions db' same ts l.distinct l.histories l.known
          | inr (new, free) ↦
              IsLegal-along (new_instance input new_id ∷ db.instances) db.transitions db' new ts
                (free, l.distinct)
                (
                  subst (λ (x : List Transition). Leads x input.initial_state)
                      (sym (no_history new_id db.instances db.transitions free l.known)) tt,
                  l.histories,
                )
                (known_later (new_instance input new_id) db.instances db.transitions l.known)
        ]

    appended-ok :
        (input : AppendInput) (new_id : String) (now : ℕ) (db db' : Database)
        → append_workflow_transition audit_event_id json input allowed new_id now db ≡ ok db'
        → (r : Instance) × (find
              (λ (r : Instance).
                r.account_id == input.client_id && r.id == input.workflow_instance_id)
              db.instances
            ≡ some r)
          × (validate_workflow_transition r.current_state input.to_state allowed ≡ ok tt)
          × (db'.instances ≡ with_state r.id input.to_state db.instances)
          × (db'.transitions ≡ transition_of new_id r input.to_state ∷ db.transitions)
    unfolding append_workflow_transition
    appended-ok input new_id now db db' h =
        let (r, found, h₁) =
          bind_ok
            (need
              (find
                (λ (r : Instance).
                  r.account_id == input.client_id && r.id == input.workflow_instance_id)
                db.instances)
              instance_not_found)
            _ h in
        let write = lift_audit (
          write_audit_event
            (transitioned_event audit_event_id json r.account_id
              (transition_of new_id r input.to_state) now)
            db.audit) in
        let (w, both, h₂) =
          bind_ok (validate_workflow_transition r.current_state input.to_state allowed >> write) _
            h₁ in
        let (u, legal, wrote) =
          bind_ok (validate_workflow_transition r.current_state input.to_state allowed) _ both in
        (r, ground (arith, found), legal, ground (arith, h₂), ground (arith, h₂))

    appended-IsLegal :
        (input : AppendInput) (new_id : String) (now : ℕ) (db db' : Database)
        → append_workflow_transition audit_event_id json input allowed new_id now db ≡ ok db'
        → IsLegal db
        → IsLegal db'
    appended-IsLegal input new_id now db db' h l =
        let (r, found, legal, rows, ts) = appended-ok input new_id now db db' h in
        IsLegal-along (with_state r.id input.to_state db.instances)
          (transition_of new_id r input.to_state ∷ db.transitions) db' rows ts
          (Distinct-with_state r.id input.to_state db.instances l.distinct)
          (histories-with_state r input.to_state new_id db.instances db.transitions
            (validate-Legal r.current_state input.to_state legal)
            (only_row _ db.instances r l.distinct found) l.histories)
          (
            has_id-with_state r.id r.id input.to_state db.instances
                ∙ found-has_id _ db.instances r found,
            known-with_state r.id input.to_state db.instances db.transitions l.known,
          )

    reached_from : {db db' : Database} → Reach db db' → IsLegal db → IsLegal db'
    reached_from here l = l
    reached_from {db} {db'} (next {mid = mid} r (created input new_id now row h)) l =
        created-IsLegal input new_id now row mid db' h (reached_from r l)
    reached_from {db} {db'} (next {mid = mid} r (appended input new_id now h)) l =
        appended-IsLegal input new_id now mid db' h (reached_from r l)

    reached :
        (log : AuditLog) (db : Database)
        → Reach (record { instances = []; transitions = []; audit = log }) db
        → IsLegal db
    unfolding Distinct
    reached log db r = reached_from r (record { distinct = tt; histories = tt; known = tt })

    -- From a database without instances, under one map of allowed transitions: whatever instances have been
    -- created and moved, the recorded transitions of each, in order, are a path of the map that ends in the
    -- instance's current state; each goes to a state that the map lists for the state before, or stays.
    pub Reach-IsLegal :
        (log : AuditLog) (db : Database)
        → Reach (record { instances = []; transitions = []; audit = log }) db
        → All (λ (r : Instance). Leads (history r.id db.transitions) r.current_state) db.instances
    Reach-IsLegal log db r = (reached log db r).histories
