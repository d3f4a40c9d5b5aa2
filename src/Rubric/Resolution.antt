-- ===== src/Rubric/Resolution.antt =====
-- What may be exempted.
use freight_auditor.Prelude.{
  ℕ, ◌≤◌, String, true, false, ◌&&◌, Option, none, some, List, [], ◌∷◌, All, ok, ◌≡◌, ◌≢◌, ◌↔◌, ◌∙◌,
  sym, ap, refl, inl, inr, arith, eq_iff, trim, Bool-cases, Option-cases, Result-cases,
}
use freight_auditor.Rubric.Cascade.{
  RubricTier, standard, exempt, ExemptPayload, Operation, Member, InheritAddCriterion,
  ExemptedCriterion, utf16_length, is_empty, is_exempt, is_standard, bounded_text, parse_payload,
  exempted, apply_exempt, gating, firm_rule, CriterionProtectionMetadata, protection_of,
  is_hard_standard_gate, check_members, apply_permitted_exempt,
}

-- A text of one to `most` characters, once it is trimmed.
abbrev pub Bounded : ℕ → String → Type 0
Bounded most s = (trim s ≢ "") × (utf16_length (trim s) ≤ most)

-- No FIRM_RULE gate that STANDARD introduced, and its metadata is there.
abbrev pub Exemptible : List CriterionProtectionMetadata → Member → Type 0
Exemptible metadata m =
    (p : CriterionProtectionMetadata) × (protection_of m.criterion_version_id metadata ≡ some p)
    × ¬ ((m.introduced_by ≡ standard) × (p.kind ≡ gating) × (p.hardness ≡ firm_rule))

hard_gate_iff :
    (m : Member) (p : CriterionProtectionMetadata)
    → (is_hard_standard_gate m p ≡ false)
      ↔ ¬ ((m.introduced_by ≡ standard) × (p.kind ≡ gating) × (p.hardness ≡ firm_rule))
hard_gate_iff m p = (
  λ h k. ground (arith, h, k),
  λ k. elim (Bool-cases (is_hard_standard_gate m p)) [
    | inr h ↦ h
    | inl h ↦ absurd (k (ground (arith, h), ground (arith, h), ground (arith, h)))
  ],
)

bounded_text_iff : (most : ℕ) (s : String) → (bounded_text most (trim s) ≡ true) ↔ Bounded most s
bounded_text_iff most s =
    (λ h. ground (arith, h, eq_iff (trim s) ""), λ h. ground (arith, h, eq_iff (trim s) ""))

check_members-Exemptible :
    (ms : List Member) (metadata : List CriterionProtectionMetadata)
    → check_members ms metadata ≡ ok tt
    → All (Exemptible metadata) ms
unfolding check_members
check_members-Exemptible [] metadata h = tt
check_members-Exemptible (m ∷ ms) metadata h =
    elim (Option-cases (protection_of m.criterion_version_id metadata)) [
      | inl n ↦ absurd (ground arith)
      | inr (p, n) ↦ elim (Bool-cases (is_hard_standard_gate m p)) [
        | inl g ↦ absurd (ground (arith, n, g))
        | inr g ↦ (
          (p, n, (hard_gate_iff m p).0 g),
          check_members-Exemptible ms metadata (ground (arith, n, g)),
        )
      ]
    ]

Exemptible-check_members :
    (ms : List Member) (metadata : List CriterionProtectionMetadata)
    → All (Exemptible metadata) ms
    → check_members ms metadata ≡ ok tt
unfolding check_members
Exemptible-check_members [] metadata h = refl
Exemptible-check_members (m ∷ ms) metadata ((p, n, g), hs) =
    let soft = (hard_gate_iff m p).1 g in
    ground (arith, n, soft, Exemptible-check_members ms metadata hs)

parse_payload-Bounded :
    (payload : Option ExemptPayload) (q : ExemptPayload)
    → parse_payload payload ≡ some q
    → (p : ExemptPayload) × (payload ≡ some p)
      × Bounded 1000 p.reason
      × Bounded 255 p.authority
      × (q ≡ record { reason = trim p.reason; authority = trim p.authority })
unfolding parse_payload
parse_payload-Bounded none q h = absurd (ground (arith, h))
parse_payload-Bounded (some p) q h =
    elim (Bool-cases (bounded_text 1000 (trim p.reason) && bounded_text 255 (trim p.authority))) [
      | inr n ↦ absurd (ground (arith, n, h))
      | inl y ↦ (
        p,
        refl,
        (bounded_text_iff 1000 p.reason).0 (ground (arith, y)),
        (bounded_text_iff 255 p.authority).0 (ground (arith, y)),
        ground (arith, y, h),
      )
    ]

Bounded-parse_payload :
    (p : ExemptPayload)
    → Bounded 1000 p.reason
    → Bounded 255 p.authority
    → parse_payload (some p)
      ≡ some (record { reason = trim p.reason; authority = trim p.authority })
unfolding parse_payload
Bounded-parse_payload p r a =
    let reason = (bounded_text_iff 1000 p.reason).1 r in
    let authority = (bounded_text_iff 255 p.authority).1 a in ground (arith, reason, authority)

filled : (ms : List Member) → ms ≢ [] → is_empty ms ≡ false
filled [] h = absurd (h refl)
filled (m ∷ ms) h = refl

lower_tier : (t : RubricTier) → t ≢ standard → is_standard t ≡ false
lower_tier standard h = absurd (h refl)
lower_tier _ h = refl

-- What an exemption of the criterion records.
abbrev pub exemption : InheritAddCriterion → Operation → ExemptPayload → ExemptedCriterion
exemption current op p = record {
  criterion_key = op.criterion_key;
  prior_members = current.members;
  reason = trim p.reason;
  authority = trim p.authority;
  exempted_by = op.tier;
  rubric_version_id = op.rubric_version_id;
}

-- An exemption goes through exactly when it is an EXEMPT operation of the CLIENT or the CONTRACT tier on a
-- criterion that has members, with a reason of one to 1000 and an authority of one to 255 characters once
-- trimmed, the protection of each member is known, and none of them is a FIRM_RULE gate that STANDARD
-- introduced; it records the members, those texts and its tier.
pub apply_permitted_exempt-protects :
    (current : InheritAddCriterion) (op : Operation) (metadata : List CriterionProtectionMetadata)
    (x : ExemptedCriterion)
    → (apply_permitted_exempt current op metadata ≡ ok x) ↔ (
        (op.override_verb ≡ exempt)
        × (op.tier ≢ standard)
        × (current.members ≢ [])
        × All (Exemptible metadata) current.members
        × (p : ExemptPayload) × (op.override_payload ≡ some p)
        × Bounded 1000 p.reason
        × Bounded 255 p.authority
        × (x ≡ exemption current op p))
unfolding apply_permitted_exempt apply_exempt exempted
apply_permitted_exempt-protects current op metadata x = (
  λ h. elim (Result-cases (check_members current.members metadata)) [
    | inr (e, n) ↦ absurd (ground (arith, h, n))
    | inl (u, n) ↦ elim (Option-cases (parse_payload op.override_payload)) [
      | inl m ↦ absurd (ground (arith, h, n, m))
      | inr (q, m) ↦
          let (p, given, reason, authority, same) = parse_payload-Bounded op.override_payload q m in
          (
            ground (arith, h, n, m),
            ground (arith, h, n, m),
            ground (arith, h, n, m),
            check_members-Exemptible current.members metadata n,
            p,
            given,
            reason,
            authority,
            ground (arith, h, n, m, same),
          )
    ]
  ],
  λ k.
      let (verb, tier, members, soft, p, given, reason, authority, same) = k in
      let checked = Exemptible-check_members current.members metadata soft in
      let parsed = ap parse_payload given ∙ Bounded-parse_payload p reason authority in
      rw
        (
          checked,
          ap is_exempt verb,
          filled current.members members,
          lower_tier op.tier tier,
          parsed,
        )
        (ap ok (sym same)),
)
