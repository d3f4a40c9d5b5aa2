-- ===== src/Rubric/Agreement.antt =====
-- The two resolvers of a cascade (apply-inherit-add.ts, apply-replace.ts), against each other.
use freight_auditor.Prelude.{
  String, ◌==◌, ◌||◌, List, [], ◌∷◌, ◌++◌, All, includes, Result, ok, err, throw_as, ◌>>=◌, ◌≡◌,
  ◌≢◌, ◌∙◌, refl, sym, ap, subst, inl, inr, arith, Bool-cases, Option-cases,
}
use freight_auditor.Rubric.Cascade.{
  Verb, inherit, add, replace, tighten, exempt, Operation, Member, member_of, pin_required,
  CascadeError, ResolutionReason, nothing_inherited_or_added, nothing_resolved, inherit_add_invalid,
  replace_invalid, InheritAddCriterion, FoldedCriterion, inherit_add_step, inherit_add_all,
  inherit_add_one, inherit_add_verb, pin_member, has_pin, append_pin, replace_step, replace_all,
  replace_one, replace_verb, resolved, map_or_throw, apply_inherit_add, apply_replace,
}

-- The set that applyInheritAdd keeps holds the pins of its members.
unfoldable pub Pinned : List Member → List String → Type 0
Pinned members pinned = (pin : String) → includes pin pinned ≡ has_pin pin members

has_pin-append :
    (pin : String) (m : Member) (ms : List Member)
    → has_pin pin (ms ++ (m ∷ [])) ≡ (m.criterion_version_id == pin || has_pin pin ms)
has_pin-append pin m [] = refl
has_pin-append pin m (x ∷ xs) = ground (arith, has_pin-append pin m xs)

-- The two reasons for a criterion that is left without members answer each other.
abbrev pub as_replace_reason : ResolutionReason → ResolutionReason
as_replace_reason nothing_inherited_or_added = nothing_resolved
as_replace_reason reason = reason

-- The error of applyReplace that answers one of applyInheritAdd.
abbrev pub as_replace_error : CascadeError → CascadeError
as_replace_error (inherit_add_invalid key reason) = replace_invalid key (as_replace_reason reason)
as_replace_error e = e

unfoldable pub Agree :
    Result ResolutionReason (List Member × List String)
    → Result ResolutionReason (List Member)
    → Type 0
Agree (ok s) (ok members) = (s.0 ≡ members) × Pinned s.0 s.1
Agree (err e) (err f) = as_replace_reason e ≡ f
Agree _ _ = ⊥

Pinned-append :
    (pin : String) (m : Member) (ms : List Member) (pinned : List String)
    → m.criterion_version_id ≡ pin
    → Pinned ms pinned
    → Pinned (ms ++ (m ∷ [])) (pin ∷ pinned)
unfolding Pinned
Pinned-append pin m ms pinned e p q = ground (arith, has_pin-append q m ms, e, p q)

Agree-along :
    (a b : Result ResolutionReason (List Member × List String))
    (c d : Result ResolutionReason (List Member))
    → a ≡ b
    → c ≡ d
    → Agree b d
    → Agree a c
Agree-along a b c d e f h =
    subst (λ (x : Result ResolutionReason (List Member)). Agree a x) (sym f)
      (subst (λ (x : Result ResolutionReason (List Member × List String)). Agree x d) (sym e) h)

Agree-pin :
    (op : Operation) (verb : Verb) (ms : List Member) (pinned : List String)
    → Pinned ms pinned
    → Agree (pin_member op verb (ms, pinned)) (append_pin op verb ms)
unfolding pin_member append_pin Agree Pinned
Agree-pin op verb ms pinned p = elim (Option-cases op.criterion_version_id) [
  | inl n ↦
      Agree-along _ (err (pin_required verb)) _ (err (pin_required verb)) (ground (arith, n))
        (ground (arith, n)) refl
  | inr (pin, n) ↦ elim (Bool-cases (includes pin pinned)) [
    | inl i ↦
        Agree-along _ (ok (ms, pinned)) _ (ok ms) (ground (arith, n, i))
          (ground (arith, n, i, p pin)) (refl, p)
    | inr i ↦
        let members = ms ++ (member_of op pin verb ∷ []) in
        Agree-along _ (ok (members, pin ∷ pinned)) _ (ok members) (ground (arith, n, i))
          (ground (arith, n, i, p pin))
          (refl, Pinned-append pin (member_of op pin verb) ms pinned refl p)
  ]
]

Agree-verb :
    (v : Verb) (op : Operation) (ms : List Member) (pinned : List String)
    → v ≢ replace
    → Pinned ms pinned
    → Agree (inherit_add_verb v op (ms, pinned)) (replace_verb v op ms)
unfolding inherit_add_verb replace_verb Agree
Agree-verb inherit op [] pinned h p = Agree-pin op inherit [] pinned p
Agree-verb inherit op (m ∷ ms) pinned h p = (refl, p)
Agree-verb add op ms pinned h p = Agree-pin op add ms pinned p
Agree-verb replace op ms pinned h p = absurd (h refl)
Agree-verb tighten op ms pinned h p = refl
Agree-verb exempt op ms pinned h p = refl

-- No verb of the list is REPLACE.
unfoldable pub Unreplaced : List Operation → Type 0
Unreplaced ops = All (λ (op : Operation). op.override_verb ≢ replace) ops

Agree-next :
    (a : Result ResolutionReason (List Member × List String))
    (c : Result ResolutionReason (List Member)) (ops : List Operation)
    → ((ms : List Member) (pinned : List String)
        → Pinned ms pinned
        → Agree (inherit_add_all ops (ms, pinned)) (replace_all ops ms))
    → Agree a c
    → Agree (a >>= λ t. inherit_add_all ops t) (c >>= λ ms. replace_all ops ms)
unfolding Agree
Agree-next (ok (ms, pinned)) (ok members) ops next (e, p) =
    subst (λ (x : List Member). Agree (inherit_add_all ops (ms, pinned)) (replace_all ops x)) e
      (next ms pinned p)
Agree-next (err e) (err f) ops next h = h
Agree-next (ok s) (err f) ops next h = absurd h
Agree-next (err e) (ok ms) ops next h = absurd h

Agree-all :
    (ops : List Operation) (ms : List Member) (pinned : List String)
    → Unreplaced ops
    → Pinned ms pinned
    → Agree (inherit_add_all ops (ms, pinned)) (replace_all ops ms)
unfolding inherit_add_all replace_all inherit_add_step replace_step Unreplaced Agree
Agree-all [] ms pinned u p = (refl, p)
Agree-all (op ∷ ops) ms pinned (h, hs) p =
    Agree-next (inherit_add_step op (ms, pinned)) (replace_step op ms) ops
      (λ ms' pinned' p'. Agree-all ops ms' pinned' hs p')
      (Agree-verb op.override_verb op ms pinned h p)

Agree-resolved :
    (a : Result ResolutionReason (List Member × List String))
    (c : Result ResolutionReason (List Member)) (key : String)
    → Agree a c
    → throw_as as_replace_reason (a >>= λ s. resolved nothing_inherited_or_added key s.0)
      ≡ (c >>= λ ms. resolved nothing_resolved key ms)
unfolding Agree
Agree-resolved (ok ([], pinned)) (ok ms) key (e, p) = ap (resolved nothing_resolved key) e
Agree-resolved (ok (m ∷ rest, pinned)) (ok ms) key (e, p) = ap (resolved nothing_resolved key) e
Agree-resolved (err e) (err f) key h = ap (λ (x : ResolutionReason). err x) h
Agree-resolved (ok s) (err f) key h = absurd h
Agree-resolved (err e) (ok ms) key h = absurd h

rethrown :
    (key : String) (a : Result ResolutionReason InheritAddCriterion)
    → throw_as as_replace_error (throw_as (inherit_add_invalid key) a)
      ≡ throw_as (replace_invalid key) (throw_as as_replace_reason a)
rethrown key (ok x) = refl
rethrown key (err e) = refl

one-agrees :
    (c : FoldedCriterion)
    → Unreplaced c.operations
    → throw_as as_replace_error (inherit_add_one c) ≡ replace_one c
unfolding inherit_add_one replace_one Pinned
one-agrees c u =
    rethrown c.criterion_key _
    ∙ ap (throw_as (replace_invalid c.criterion_key)) (
        Agree-resolved (inherit_add_all c.operations ([], [])) (replace_all c.operations [])
          c.criterion_key (Agree-all c.operations [] [] u (λ pin. refl)))

throw_as-cons :
    (a : Result CascadeError InheritAddCriterion)
    (b : Result CascadeError (List InheritAddCriterion))
    → throw_as as_replace_error (a >>= λ x. b >>= λ xs. ok (x ∷ xs))
      ≡ (throw_as as_replace_error a >>= λ x. throw_as as_replace_error b >>= λ xs. ok (x ∷ xs))
throw_as-cons (err e) b = refl
throw_as-cons (ok x) (err e) = refl
throw_as-cons (ok x) (ok xs) = refl

-- On folded criteria none of whose operations is a REPLACE, the resolver with REPLACE gives the same
-- criteria as the resolver without it, in the same order, or throws its own error for the same criterion
-- with the same reason; 'no resolved criterion version' is its reason where the other says 'no inherited
-- or added criterion version'.
pub apply_replace-conservative :
    (folded : List FoldedCriterion)
    → All (λ (c : FoldedCriterion). Unreplaced c.operations) folded
    → apply_replace folded ≡ throw_as as_replace_error (apply_inherit_add folded)
unfolding apply_inherit_add apply_replace map_or_throw
apply_replace-conservative [] u = refl
apply_replace-conservative (c ∷ cs) (u, us) = sym (
    throw_as-cons (inherit_add_one c) (map_or_throw inherit_add_one cs) ∙ λ i.
    one-agrees c u i >>= λ x. sym (apply_replace-conservative cs us) i >>= λ xs. ok (x ∷ xs))
