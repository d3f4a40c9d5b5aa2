-- ===== src/Workflow/Queue/Rows.antt =====
-- The rows of a table by their ids, and what holds of all of them.
use freight_auditor.Prelude.{
  ℕ, zero, suc, String, ◌==◌, Bool, true, false, Option, some, List, [], ◌∷◌, keep, take, find,
  includes, All, ◌≡◌, ◌⊎◌, inl, inr, refl, subst, arith, eq_iff, Bool-cases,
}
use freight_auditor.Workflow.Queue.{Row, ids}

module _ {W : Type 0} where
  -- The ids are a primary key.
  unfoldable pub Distinct : List (Row W) → Type 0
  Distinct [] = Unit
  Distinct (r ∷ rs) = (includes r.id (ids rs) ≡ false) × Distinct rs

  abbrev pub with_id : String → List (Row W) → Option (Row W)
  with_id i rows = find (λ (r : Row W). r.id == i) rows

  -- Each row is as it was, or it passed the test and was changed.
  unfoldable pub Changed : (Row W → Bool) → (Row W → Row W) → List (Row W) → List (Row W) → Type 0
  Changed test f [] [] = Unit
  Changed test f (r ∷ rs) (s ∷ ss) =
      ((s ≡ r) ⊎ ((test r ≡ true) × (s ≡ f r))) × Changed test f rs ss
  Changed test f _ _ = ⊥

  pub some_inj : (r c : Row W) → some r ≡ some c → r ≡ c
  some_inj r c e = cc

  pub All-take :
      (P : Row W → Type 0) (n : ℕ) (rows : List (Row W)) → All P rows → All P (take n rows)
  All-take P zero rows h = tt
  All-take P (suc n) [] h = tt
  All-take P (suc n) (r ∷ rs) h = (h.0, All-take P n rs h.1)

  pub All-mono :
      (P Q : Row W → Type 0) (rows : List (Row W))
      → ((r : Row W) → P r → Q r)
      → All P rows
      → All Q rows
  All-mono P Q [] f h = tt
  All-mono P Q (r ∷ rs) f h = (f r h.0, All-mono P Q rs f h.1)

  pub All-zip :
      (P Q R : Row W → Type 0) (rows : List (Row W))
      → ((r : Row W) → P r → Q r → R r)
      → All P rows
      → All Q rows
      → All R rows
  All-zip P Q R [] f h k = tt
  All-zip P Q R (r ∷ rs) f h k = (f r h.0 k.0, All-zip P Q R rs f h.1 k.1)

  pub All-with_id :
      (P : Row W → Type 0) (i : String) (rows : List (Row W)) (r : Row W)
      → All P rows
      → with_id i rows ≡ some r
      → P r
  All-with_id P i [] r h e = cc
  All-with_id P i (s ∷ ss) r h e = elim (Bool-cases (s.id == i)) [
    | inl same ↦ subst P (some_inj s r (ground (arith, e, same))) h.0
    | inr other ↦ All-with_id P i ss r h.1 (ground (arith, e, other))
  ]

  pub with_id-id :
      (i : String) (rows : List (Row W)) (r : Row W) → with_id i rows ≡ some r → r.id ≡ i
  with_id-id i [] r e = cc
  with_id-id i (s ∷ ss) r e = elim (Bool-cases (s.id == i)) [
    | inl same ↦ ground (arith, e, same, eq_iff s.id i)
    | inr other ↦ with_id-id i ss r (ground (arith, e, other))
  ]

  pub keep-passes :
      (test : Row W → Bool) (rows : List (Row W)) → All (λ r. test r ≡ true) (keep test rows)
  keep-passes test [] = tt
  keep-passes test (r ∷ rs) = ground (arith, keep-passes test rs)

  pub includes-ids :
      (P : Row W → Type 0) (i : String) (rows : List (Row W))
      → All P rows
      → includes i (ids rows) ≡ true
      → (r : Row W) × P r × (r.id ≡ i)
  includes-ids P i [] h e = absurd (ground (arith, e))
  includes-ids P i (r ∷ rs) h e = elim (Bool-cases (r.id == i)) [
    | inl same ↦ (r, h.0, (eq_iff r.id i).0 same)
    | inr other ↦ includes-ids P i rs h.1 (ground (arith, e, other))
  ]

  pub absent :
      (i : String) (rows : List (Row W))
      → includes i (ids rows) ≡ false
      → All (λ r. (i == r.id) ≡ false) rows
  absent i [] h = tt
  absent i (r ∷ rs) h = (ground (arith, eq_iff i r.id, eq_iff r.id i), absent i rs (ground arith))

  pub absent-keep :
      (p : Row W → Bool) (i : String) (rows : List (Row W))
      → includes i (ids rows) ≡ false
      → includes i (ids (keep p rows)) ≡ false
  absent-keep p i [] h = refl
  absent-keep p i (r ∷ rs) h = ground (arith, absent-keep p i rs)

  -- A row is what a lookup of its id finds.
  pub with_id_self :
      (rows : List (Row W)) → Distinct rows → All (λ r. with_id r.id rows ≡ some r) rows
  unfolding Distinct
  with_id_self [] h = tt
  with_id_self (r ∷ rs) h = (
    ground (arith, eq_iff r.id r.id),
    All-zip (λ s. with_id s.id rs ≡ some s) (λ s. (r.id == s.id) ≡ false)
        (λ s. with_id s.id (r ∷ rs) ≡ some s) rs (λ s e n. ground (arith, e, n))
        (with_id_self rs h.1) (absent r.id rs h.0),
  )
