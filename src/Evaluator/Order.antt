-- ===== src/Evaluator/Order.antt =====
-- The order in which the criteria of a kind are run.
use freight_auditor.Prelude.{
  ◌≤◌, String, Bool, List, [], ◌∷◌, keep, length, sort_by, insert_by, All, All-insert_by,
  if◌then◌else◌, ◌≡◌, refl, ap, ◌∙◌, inl, inr, arith, Bool-cases,
}
use freight_auditor.Money.{Decimal}
use freight_auditor.Rubric.Standard.{
  CriterionKind, gating, scoring, StandardCriterion, ComposedRubric,
}
use freight_auditor.Evaluator.Evaluate.{is_kind, before, ordered_criteria}

module _ {A : Type 0} (p : A → Bool) (le : A → A → Bool) where
  keep-insert_by :
      (x : A) (xs : List A) → length (keep p (insert_by le x xs)) ≡ length (keep p (x ∷ xs))
  keep-insert_by x [] = refl
  keep-insert_by x (y ∷ ys) = ground (arith, keep-insert_by x ys)

  -- A sort keeps every element as often as it was there.
  pub keep-sort_by : (xs : List A) → length (keep p (sort_by le xs)) ≡ length (keep p xs)
  keep-sort_by [] = refl
  keep-sort_by (x ∷ xs) = ground (arith, keep-insert_by x (sort_by le xs), keep-sort_by xs)

module _ (d : Decimal) where
  abbrev pub scoring_first :
      CriterionKind → StandardCriterion d → List (StandardCriterion d) → List (StandardCriterion d)
  scoring_first scoring c cs = c ∷ cs
  scoring_first gating c cs = cs

  -- The criteria of a rubric that have the kind SCORING.
  abbrev pub of_kind_scoring : List (StandardCriterion d) → List (StandardCriterion d)
  of_kind_scoring [] = []
  of_kind_scoring (c ∷ cs) = scoring_first c.kind c (of_kind_scoring cs)

  -- By rising `evalOrder`.
  unfoldable pub Rising : List (StandardCriterion d) → Type 0
  Rising [] = Unit
  Rising (c ∷ cs) = All (λ (x : StandardCriterion d). c.eval_order ≤ x.eval_order) cs × Rising cs

  kept_first :
      (k : CriterionKind) (c : StandardCriterion d) (cs : List (StandardCriterion d))
      → (if is_kind k scoring then c ∷ cs else cs) ≡ scoring_first k c cs
  kept_first scoring c cs = refl
  kept_first gating c cs = refl

  kept_scoring :
      (cs : List (StandardCriterion d))
      → keep (λ (c : StandardCriterion d). is_kind c.kind scoring) cs ≡ of_kind_scoring cs
  kept_scoring [] = refl
  kept_scoring (c ∷ cs) =
      kept_first c.kind c _ ∙ ap (λ xs. scoring_first c.kind c xs) (kept_scoring cs)

  module _ (locale_le : String → String → Bool) where
    below :
        (x y : StandardCriterion d) (ys : List (StandardCriterion d))
        → x.eval_order ≤ y.eval_order
        → All (λ (z : StandardCriterion d). y.eval_order ≤ z.eval_order) ys
        → All (λ (z : StandardCriterion d). x.eval_order ≤ z.eval_order) ys
    below x y [] le h = tt
    below x y (z ∷ zs) le (h, hs) = (omega (arith, le, h), below x y zs le hs)

    Rising-insert_by :
        (x : StandardCriterion d) (xs : List (StandardCriterion d))
        → Rising xs
        → Rising (insert_by (before d locale_le) x xs)
    unfolding Rising
    Rising-insert_by x [] h = (tt, tt)
    Rising-insert_by x (y ∷ ys) (h, hs) = elim (Bool-cases (before d locale_le x y)) [
      | inl first ↦
          let le : x.eval_order ≤ y.eval_order = ground (arith, first) in
          rw (first) ((le, below x y ys le h), (h, hs))
      | inr later ↦
          let le : y.eval_order ≤ x.eval_order = ground (arith, later) in
          rw (later) (
            All-insert_by (λ (z : StandardCriterion d). y.eval_order ≤ z.eval_order)
                (before d locale_le) x ys le h,
            Rising-insert_by x ys hs,
          )
    ]

    Rising-sort_by : (xs : List (StandardCriterion d)) → Rising (sort_by (before d locale_le) xs)
    unfolding Rising
    Rising-sort_by [] = tt
    Rising-sort_by (x ∷ xs) =
        Rising-insert_by x (sort_by (before d locale_le) xs) (Rising-sort_by xs)

    -- The SCORING criteria of the rubric, each as often as it is there, by rising order.
    pub ordered_criteria-Rising :
        (rubric : ComposedRubric d)
        → Rising (ordered_criteria d locale_le rubric scoring)
          × ((p : StandardCriterion d → Bool)
              → length (keep p (ordered_criteria d locale_le rubric scoring))
                ≡ length (keep p (of_kind_scoring rubric.criteria)))
    unfolding ordered_criteria
    ordered_criteria-Rising rubric = (
      Rising-sort_by (keep (λ (c : StandardCriterion d). is_kind c.kind scoring) rubric.criteria),
      λ p.
          keep-sort_by p (before d locale_le)
            (keep (λ (c : StandardCriterion d). is_kind c.kind scoring) rubric.criteria)
          ∙ ap (λ xs. length (keep p xs)) (kept_scoring rubric.criteria),
    )
