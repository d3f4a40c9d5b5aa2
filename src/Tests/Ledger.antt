-- ===== src/Tests/Ledger.antt =====
-- A first write to the ledger, and its retry.
use freight_auditor.Prelude.{ℕ, some, none, String, ◌==◌, true, false, [], ◌∷◌, ok, ◌≡◌, refl}
use freight_auditor.Audit.{analyst, AuditEvent, find_event, write_audit_event}
use freight_auditor.Audit.Laws.{write_audit_event_idem}

abbrev opened : AuditEvent
opened = record {
  id = "e1";
  entity = "claim";
  entity_id = "claim-1";
  event = "claim.created";
  actor_kind = analyst;
  account_id = some "acme";
  actor_user_id = some "ann";
  rule_version_id = none;
  rubric_snapshot_id = none;
  detail = "{}";
  recorded_at = 1;
}

opened_runs : write_audit_event opened [] ≡ ok (record { log = opened ∷ []; created = true })
unfolding write_audit_event find_event
opened_runs = refl

write_audit_event_idem_example :
    ((at : ℕ) × (find_event opened.id (opened ∷ []) ≡ some (record opened { recorded_at = at })))
    × ((j : String) → (opened.id == j) ≡ false → find_event j (opened ∷ []) ≡ find_event j [])
    × (write_audit_event (record opened { recorded_at = 7 }) (opened ∷ [])
        ≡ ok (record { log = opened ∷ []; created = false }))
write_audit_event_idem_example =
    write_audit_event_idem opened 7 [] {w = record { log = opened ∷ []; created = true }}
      opened_runs
