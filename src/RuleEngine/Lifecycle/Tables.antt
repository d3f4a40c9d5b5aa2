-- ===== src/RuleEngine/Lifecycle/Tables.antt =====
-- What the tables of versions, events and ratifications keep as they grow.
use freight_auditor.Prelude.{
  String, ◌==◌, Bool, true, false, Option, none, some, List, [], ◌∷◌, any, find, All, ◌≡◌, ◌≢◌,
  refl, ap, arith, inl, inr, eq_iff, Bool-cases,
}
use freight_auditor.RuleEngine.Lifecycle.{
  RuleLifecycle, proposed, shadow, active, deprecated, quarantined, state_eq, may_become,
  RuleVersion, PromotionEvent, Ratification, Database, find_version, has_version, is_text, is_event,
  has_evidence, add_event, ratification_of,
}

pub state_eq_iff : (a b : RuleLifecycle) → state_eq a b ≡ true → a ≡ b
state_eq_iff proposed proposed h = refl
state_eq_iff shadow shadow h = refl
state_eq_iff active active h = refl
state_eq_iff deprecated deprecated h = refl
state_eq_iff quarantined quarantined h = refl
state_eq_iff _ _ h = absurd (ground (arith, h))

pub is_text_eq : (s : String) (t : Option String) → is_text s t ≡ true → t ≡ some s
is_text_eq s none h = absurd (ground (arith, h))
is_text_eq s (some t) h = ap some ((eq_iff t s).0 h)

pub some_inj : (s t : String) → some s ≡ some t → s ≡ t
some_inj s t e = cc

-- The ids are those of one version each.
unfoldable pub Distinct : List RuleVersion → Type 0
Distinct [] = Unit
Distinct (v ∷ vs) = (has_version v.id vs ≡ false) × Distinct vs

pub found-has_version :
    (p : RuleVersion → Bool) (vs : List RuleVersion) (v : RuleVersion)
    → find p vs ≡ some v
    → has_version v.id vs ≡ true
found-has_version p [] v h = cc
found-has_version p (x ∷ xs) v h = ground (arith, h, eq_iff x.id v.id, found-has_version p xs v)

pub found_self :
    (p : RuleVersion → Bool) (vs : List RuleVersion) (v : RuleVersion)
    → Distinct vs
    → find p vs ≡ some v
    → find_version v.id vs ≡ some v
unfolding Distinct
found_self p [] v d h = cc
found_self p (x ∷ xs) v d h = elim (Bool-cases (p x)) [
  | inl here ↦ ground (arith, h, here, eq_iff x.id v.id)
  | inr there ↦
      let found = found-has_version p xs v (ground (arith, h, there)) in
      ground (arith, h, there, d.0, found, eq_iff x.id v.id, found_self p xs v d.1)
]

pub found_test :
    (p : RuleVersion → Bool) (vs : List RuleVersion) (v : RuleVersion)
    → find p vs ≡ some v
    → p v ≡ true
found_test p [] v h = cc
found_test p (x ∷ xs) v h = ground (arith, h, found_test p xs v)

-- Where a version came from, if it has a predecessor: the event of the transition is recorded.
abbrev pub Lineage : Database → RuleVersion → Type 0
Lineage db v =
    (p : String)
    → v.predecessor ≡ some p
    → (u : RuleVersion) × (find_version p db.versions ≡ some u)
      × (u.rule_id ≡ v.rule_id)
      × (u.content ≡ v.content)
      × (may_become u.lifecycle_state v.lifecycle_state ≡ true)
      × (any (is_event v.id u.lifecycle_state v.lifecycle_state) db.events ≡ true)

-- An activation by dual control: the version was ratified, by another analyst.
abbrev pub TwoAnalysts : Database → PromotionEvent → Type 0
TwoAnalysts db e =
    (a : String)
    → e.dual_control_analyst_id ≡ some a
    → (v : RuleVersion) × (p : String) × (r : Ratification) × (find_version e.rule_version_id
          db.versions
        ≡ some v)
      × (v.predecessor ≡ some p)
      × (ratification_of p db.ratifications ≡ some r)
      × (r.actor_user_id ≢ some a)

pub record IsGoverned (db : Database) : Type 0 where
  pub distinct : Distinct db.versions
  pub lineages : All (Lineage db) db.versions
  pub evidence : All (λ (e : PromotionEvent). has_evidence e ≡ true) db.events
  pub analysts : All (TwoAnalysts db) db.events

-- The tables keep what can be found in them.
pub record Extends (db db' : Database) : Type 0 where
  pub versions :
      (id : String) (v : RuleVersion)
      → find_version id db.versions ≡ some v
      → find_version id db'.versions ≡ some v
  pub events :
      (id : String) (from to : RuleLifecycle)
      → any (is_event id from to) db.events ≡ true
      → any (is_event id from to) db'.events ≡ true
  pub ratifications :
      (id : String) (r : Ratification)
      → ratification_of id db.ratifications ≡ some r
      → ratification_of id db'.ratifications ≡ some r

pub Lineage-Extends :
    (db db' : Database) (v : RuleVersion) → Extends db db' → Lineage db v → Lineage db' v
Lineage-Extends db db' v x l p e =
    let (u, found, rule, content, legal, event) = l p e in
    (
      u,
      x.versions p u found,
      rule,
      content,
      legal,
      x.events v.id u.lifecycle_state v.lifecycle_state event,
    )

pub TwoAnalysts-Extends :
    (db db' : Database) (e : PromotionEvent) → Extends db db' → TwoAnalysts db e → TwoAnalysts db' e
TwoAnalysts-Extends db db' e x t a dual =
    let (v, p, r, found, before, ratified, other) = t a dual in
    (v, p, r, x.versions e.rule_version_id v found, before, x.ratifications p r ratified, other)

module _ {A : Type 0} (P Q : A → Type 0) (f : (a : A) → P a → Q a) where
  pub All-map : (xs : List A) → All P xs → All Q xs
  All-map [] h = tt
  All-map (a ∷ rest) h = (f a h.0, All-map rest h.1)

pub find_version-cons :
    (w : RuleVersion) (vs : List RuleVersion) (id : String) (v : RuleVersion)
    → has_version w.id vs ≡ false
    → find_version id vs ≡ some v
    → find_version id (w ∷ vs) ≡ some v
find_version-cons w vs id v fresh h =
    let there = found-has_version (λ (x : RuleVersion). x.id == id) vs v h in
    let same = found_test (λ (x : RuleVersion). x.id == id) vs v h in
    ground (arith, fresh, h, there, eq_iff v.id id, eq_iff w.id id)

pub any_event-add :
    (e : PromotionEvent) (es : List PromotionEvent) (id : String) (from to : RuleLifecycle)
    → any (is_event id from to) es ≡ true
    → any (is_event id from to) (add_event e es) ≡ true
any_event-add e es id from to h = ground (arith, h)

pub state_eq_refl : (a : RuleLifecycle) → state_eq a a ≡ true
state_eq_refl proposed = refl
state_eq_refl shadow = refl
state_eq_refl active = refl
state_eq_refl deprecated = refl
state_eq_refl quarantined = refl

pub any_event-here :
    (e : PromotionEvent) (es : List PromotionEvent)
    → any (is_event e.rule_version_id e.from_lifecycle e.to_lifecycle) (add_event e es) ≡ true
any_event-here e es = ground (
  arith,
  state_eq_refl e.from_lifecycle,
  state_eq_refl e.to_lifecycle,
  eq_iff e.rule_version_id e.rule_version_id,
)
