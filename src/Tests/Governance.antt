-- ===== src/Tests/Governance.antt =====
-- A rule that is proposed, ratified by one analyst and activated by another.
use freight_auditor.Prelude.{true, false, none, [], ◌∷◌, All, ok, err, ◌≡◌, refl}
use freight_auditor.RuleEngine.Lifecycle.{
  proposed, quarantined, TransitionInput, dual_control_required, RuleVersion, PromotionEvent,
  Database, TransitionResult, has_evidence, record_event, move_version, transition_rule_lifecycle,
  promote_shadow_rule, ratify,
}
use freight_auditor.RuleEngine.Lifecycle.Tables.{Lineage, TwoAnalysts}
use freight_auditor.RuleEngine.Lifecycle.Governed.{
  added, ratified, promoted, here, next, no_rules, Reach-IsGoverned,
}
use freight_auditor.RuleEngine.Lifecycle.Retry.{transition_rule_lifecycle-retry}

abbrev draft : RuleVersion
draft = record {
  id = "v1";
  rule_id = "r";
  rule_type = "INTRA_LINE";
  content = "{}";
  lifecycle_state = proposed;
  predecessor = none;
}

abbrev drafted : Database
drafted = record no_rules { versions = draft ∷ [] }

ratification :
    (db : Database) × (r : TransitionResult) × (ratify "v1" "sound" "ann" "v2" drafted ≡ ok (db, r))
unfolding ratify transition_rule_lifecycle move_version record_event
ratification = (_, _, refl)

abbrev quarantine : TransitionInput
quarantine = record {
  rule_version_id = "v1";
  to = quarantined;
  rationale = "withdrawn";
  dual_control_analyst_id = none;
  rule_backtest_id = none;
}

withdrawn :
    (db : Database) × (r : TransitionResult) × (transition_rule_lifecycle quarantine "v2" drafted
      ≡ ok (db, r))
unfolding transition_rule_lifecycle move_version record_event
withdrawn = (_, _, refl)

transition_rule_lifecycle-retry_example :
    transition_rule_lifecycle quarantine "v9" withdrawn.0
    ≡ ok (withdrawn.0, record { rule_version_id = withdrawn.1.rule_version_id; created = false })
transition_rule_lifecycle-retry_example =
    transition_rule_lifecycle-retry quarantine "v2" "v9" drafted withdrawn.0 withdrawn.1 withdrawn.2

activation :
    (db : Database) × (r : TransitionResult) × (promote_shadow_rule "v2" "agreed" "bob" "v3"
        ratification.0
      ≡ ok (db, r))
unfolding promote_shadow_rule transition_rule_lifecycle move_version record_event ratification
activation = (_, _, refl)

-- Who ratified it does not activate it.
own_work : promote_shadow_rule "v2" "agreed" "ann" "v3" ratification.0 ≡ err dual_control_required
unfolding promote_shadow_rule ratification
own_work = refl

-- To ratify it again changes nothing.
again :
    ratify "v1" "sound" "ann" "v9" ratification.0
    ≡ ok (ratification.0, record { rule_version_id = "v2"; created = false })
unfolding ratify transition_rule_lifecycle move_version record_event ratification
again = refl

Reach-IsGoverned_example :
    All (Lineage activation.0) activation.0.versions
    × All (λ (e : PromotionEvent). has_evidence e ≡ true) activation.0.events
    × All (TwoAnalysts activation.0) activation.0.events
Reach-IsGoverned_example = Reach-IsGoverned activation.0 (
    next
      (next (next here (added draft refl refl))
        (ratified "v1" "sound" "ann" "v2" ratification.1 ratification.2))
      (promoted "v2" "agreed" "bob" "v3" activation.1 activation.2))
