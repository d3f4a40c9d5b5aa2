-- ===== src/Rubric/Cascade.antt =====
-- The override verbs of a cascade of tiers (rubric-resolver/apply-inherit-add.ts, apply-replace.ts,
-- apply-exempt.ts, exemption-policy.ts), on the folded operations (fold-rubric-tiers.ts).
use freight_auditor.Prelude.{
  ℕ, ◌+◌, String, ◌==◌, Bool, true, false, not, ◌&&◌, Option, none, some, List, [], ◌∷◌, ◌++◌, any,
  if◌then◌else◌, includes, leb, Result, ok, err, ◌>>=◌, ◌>>◌, throw_if, throw_as, need, trim,
}
use Prim.Native.Char.{code}

pub data RubricTier : Type 0 where
  standard client contract : RubricTier

pub data Verb : Type 0 where
  inherit add replace tighten exempt : Verb

-- The payload that `PayloadSchema` accepts in shape: an object of two texts, and nothing else.
pub record ExemptPayload : Type 0 where
  pub reason : String
  pub authority : String

pub record Operation : Type 0 where
  pub criterion_key : String
  pub criterion_version_id : Option String
  pub override_verb : Verb
  pub override_payload : Option ExemptPayload
  pub tier : RubricTier
  pub rubric_version_id : String

pub record FoldedCriterion : Type 0 where
  pub criterion_key : String
  pub operations : List Operation

pub record Member : Type 0 where
  pub criterion_version_id : String
  pub introduced_by : RubricTier
  pub rubric_version_id : String
  pub source_verb : Verb

pub record InheritAddCriterion : Type 0 where
  pub criterion_key : String
  pub members : List Member

-- The reasons of InheritAddResolutionError and ReplaceResolutionError: 'no inherited or added criterion
-- version' is of the first only, 'no resolved criterion version' of the second.
pub data ResolutionReason : Type 0 where
  unsupported_verb pin_required : Verb → ResolutionReason
  nothing_inherited_or_added nothing_resolved replace_without_upstream : ResolutionReason

pub data ExemptReason : Type 0 where
  expected_exempt : Verb → ExemptReason
  no_upstream standard_exempts bad_payload : ExemptReason

pub data GateReason : Type 0 where
  no_metadata hard_gate : GateReason

-- The four error classes, by their codes, with the criterion key.
pub data CascadeError : Type 0 where
  inherit_add_invalid replace_invalid : String → ResolutionReason → CascadeError
  exempt_invalid : String → ExemptReason → CascadeError
  exempt_hard_standard_gate : String → GateReason → CascadeError

abbrev pub member_of : Operation → String → Verb → Member
member_of op pin verb = record {
  criterion_version_id = pin;
  introduced_by = op.tier;
  rubric_version_id = op.rubric_version_id;
  source_verb = verb;
}

abbrev pub is_empty {ℓ} : {A : Type ℓ} → List A → Bool
is_empty [] = true
is_empty (x ∷ xs) = false

-- The tail of the loop of applyInheritAdd, from the test for a missing pin on.
unfoldable pub pin_member :
    Operation
    → Verb
    → List Member × List String
    → Result ResolutionReason (List Member × List String)
pin_member op verb (members, pinned) = need op.criterion_version_id (pin_required verb) >>= λ pin.
    ok (
      if includes pin pinned
      then (members, pinned)
      else (members ++ (member_of op pin verb ∷ []), pin ∷ pinned))

unfoldable pub inherit_add_verb :
    Verb
    → Operation
    → List Member × List String
    → Result ResolutionReason (List Member × List String)
inherit_add_verb inherit op s = if not (is_empty s.0) then ok s else pin_member op inherit s
inherit_add_verb add op s = pin_member op add s
inherit_add_verb verb op s = err (unsupported_verb verb)

-- One operation of applyInheritAdd: the members so far, and the set of their pins.
unfoldable pub inherit_add_step :
    Operation → List Member × List String → Result ResolutionReason (List Member × List String)
inherit_add_step op s = inherit_add_verb op.override_verb op s

unfoldable pub inherit_add_all :
    List Operation → List Member × List String → Result ResolutionReason (List Member × List String)
inherit_add_all [] s = ok s
inherit_add_all (op ∷ ops) s = inherit_add_step op s >>= λ t. inherit_add_all ops t

abbrev pub resolved :
    ResolutionReason → String → List Member → Result ResolutionReason InheritAddCriterion
resolved reason key [] = err reason
resolved reason key (m ∷ ms) = ok (record { criterion_key = key; members = m ∷ ms })

unfoldable pub inherit_add_one : FoldedCriterion → Result CascadeError InheritAddCriterion
inherit_add_one c = throw_as (inherit_add_invalid c.criterion_key) (
    inherit_add_all c.operations ([], []) >>= λ s.
    resolved nothing_inherited_or_added c.criterion_key s.0)

-- `folded.map` with a function that may throw.
unfoldable pub map_or_throw :
    (FoldedCriterion → Result CascadeError InheritAddCriterion)
    → List FoldedCriterion
    → Result CascadeError (List InheritAddCriterion)
map_or_throw f [] = ok []
map_or_throw f (c ∷ cs) = f c >>= λ r. map_or_throw f cs >>= λ rest. ok (r ∷ rest)

unfoldable pub apply_inherit_add :
    List FoldedCriterion → Result CascadeError (List InheritAddCriterion)
apply_inherit_add folded = map_or_throw inherit_add_one folded

abbrev pub has_pin : String → List Member → Bool
has_pin pin members = any (λ (m : Member). m.criterion_version_id == pin) members

-- The tail of the loop of applyReplace for INHERIT and ADD, from the test for a missing pin on.
unfoldable pub append_pin : Operation → Verb → List Member → Result ResolutionReason (List Member)
append_pin op verb members = need op.criterion_version_id (pin_required verb) >>= λ pin.
    ok (if has_pin pin members then members else members ++ (member_of op pin verb ∷ []))

unfoldable pub replace_verb : Verb → Operation → List Member → Result ResolutionReason (List Member)
replace_verb inherit op members =
    if not (is_empty members) then ok members else append_pin op inherit members
replace_verb add op members = append_pin op add members
replace_verb replace op members = need op.criterion_version_id (pin_required replace) >>= λ pin.
    throw_if (is_empty members) replace_without_upstream >> ok (member_of op pin replace ∷ [])
replace_verb verb op members = err (unsupported_verb verb)

-- One operation of applyReplace.
unfoldable pub replace_step : Operation → List Member → Result ResolutionReason (List Member)
replace_step op members = replace_verb op.override_verb op members

unfoldable pub replace_all : List Operation → List Member → Result ResolutionReason (List Member)
replace_all [] members = ok members
replace_all (op ∷ ops) members = replace_step op members >>= λ ms. replace_all ops ms

unfoldable pub replace_one : FoldedCriterion → Result CascadeError InheritAddCriterion
replace_one c =
    throw_as (replace_invalid c.criterion_key)
      (replace_all c.operations [] >>= λ ms. resolved nothing_resolved c.criterion_key ms)

unfoldable pub apply_replace : List FoldedCriterion → Result CascadeError (List InheritAddCriterion)
apply_replace folded = map_or_throw replace_one folded

pub record ExemptedCriterion : Type 0 where
  pub criterion_key : String
  pub prior_members : List Member
  pub reason : String
  pub authority : String
  pub exempted_by : RubricTier
  pub rubric_version_id : String

-- `length` of a JavaScript text: UTF-16 code units.
unfoldable pub utf16_length : String → ℕ
utf16_length String.[] = 0
utf16_length (String.◌∷◌ c s) = (if leb 65536 (code c) then 2 else 1) + utf16_length s

-- `z.string().trim().min(1).max(most)`.
abbrev pub bounded_text : ℕ → String → Bool
bounded_text most s = not (s == "") && leb (utf16_length s) most

unfoldable pub parse_payload : Option ExemptPayload → Option ExemptPayload
parse_payload none = none
parse_payload (some p) =
    if bounded_text 1000 (trim p.reason) && bounded_text 255 (trim p.authority)
    then some (record { reason = trim p.reason; authority = trim p.authority })
    else none

abbrev pub is_exempt : Verb → Bool
is_exempt exempt = true
is_exempt _ = false

abbrev pub is_standard : RubricTier → Bool
is_standard standard = true
is_standard _ = false

unfoldable pub exempted :
    Option InheritAddCriterion → Operation → Result ExemptReason ExemptedCriterion
exempted current op = do
  throw_if (not (is_exempt op.override_verb)) (expected_exempt op.override_verb)
  criterion ← need current no_upstream
  throw_if (is_empty criterion.members) no_upstream
  throw_if (is_standard op.tier) standard_exempts
  p ← need (parse_payload op.override_payload) bad_payload
  ok (record {
    criterion_key = op.criterion_key;
    prior_members = criterion.members;
    reason = p.reason;
    authority = p.authority;
    exempted_by = op.tier;
    rubric_version_id = op.rubric_version_id;
  })

unfoldable pub apply_exempt :
    Option InheritAddCriterion → Operation → Result CascadeError ExemptedCriterion
apply_exempt current op = throw_as (exempt_invalid op.criterion_key) (exempted current op)

pub data ProtectionKind : Type 0 where
  gating scoring : ProtectionKind

pub data Hardness : Type 0 where
  human_input ai_canon ai_docs firm_rule : Hardness

pub record CriterionProtectionMetadata : Type 0 where
  pub criterion_version_id : String
  pub kind : ProtectionKind
  pub hardness : Hardness

abbrev pub is_gate : ProtectionKind → Bool
is_gate gating = true
is_gate scoring = false

abbrev pub is_firm : Hardness → Bool
is_firm firm_rule = true
is_firm _ = false

-- `new Map(metadata.map(…)).get(id)`: the last entry of an id counts.
unfoldable pub protection_of :
    String → List CriterionProtectionMetadata → Option CriterionProtectionMetadata
protection_of id [] = none
protection_of id (m ∷ ms) = elim (protection_of id ms) [
  | some p ↦ some p
  | none ↦ if m.criterion_version_id == id then some m else none
]

abbrev pub is_hard_standard_gate : Member → CriterionProtectionMetadata → Bool
is_hard_standard_gate m p = is_standard m.introduced_by && is_gate p.kind && is_firm p.hardness

unfoldable pub check_members :
    List Member → List CriterionProtectionMetadata → Result GateReason (Unit {0})
check_members [] metadata = ok tt
check_members (m ∷ ms) metadata =
    need (protection_of m.criterion_version_id metadata) no_metadata >>= λ p.
    throw_if (is_hard_standard_gate m p) hard_gate >> check_members ms metadata

unfoldable pub apply_permitted_exempt :
    InheritAddCriterion
    → Operation
    → List CriterionProtectionMetadata
    → Result CascadeError ExemptedCriterion
apply_permitted_exempt current op metadata =
    throw_as (exempt_hard_standard_gate current.criterion_key)
      (check_members current.members metadata)
    >> apply_exempt (some current) op
