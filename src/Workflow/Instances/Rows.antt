-- ===== src/Workflow/Instances/Rows.antt =====
-- The instances by their ids.
use freight_auditor.Prelude.{
  String, ◌==◌, Bool, true, false, some, List, [], ◌∷◌, find, All, ◌≡◌, inl, inr, arith, eq_iff,
  Bool-cases,
}
use freight_auditor.Workflow.Instances.{Instance, has_id}

unfoldable pub Distinct : List Instance → Type 0
Distinct [] = Unit
Distinct (r ∷ rs) = (has_id r.id rs ≡ false) × Distinct rs

pub others :
    (id : String) (rows : List Instance)
    → has_id id rows ≡ false
    → All (λ (x : Instance). (x.id == id) ≡ false) rows
others id [] h = tt
others id (x ∷ xs) h = (ground (arith, h), others id xs (ground (arith, h)))

pub found-has_id :
    (p : Instance → Bool) (rows : List Instance) (r : Instance)
    → find p rows ≡ some r
    → has_id r.id rows ≡ true
found-has_id p [] r h = cc
found-has_id p (x ∷ xs) r h = ground (arith, h, eq_iff x.id r.id, found-has_id p xs r)

pub only_elsewhere :
    (x r : Instance) (xs : List Instance)
    → x ≡ r
    → All (λ (y : Instance). (y.id == x.id) ≡ false) xs
    → All (λ (y : Instance). y.id ≡ r.id → y.current_state ≡ r.current_state) xs
only_elsewhere x r [] e h = tt
only_elsewhere x r (y ∷ ys) e h =
    (λ same. absurd (ground (arith, h.0, e, same, eq_iff y.id x.id)), only_elsewhere x r ys e h.1)

-- A row that was found is the only one of its id.
pub only_row :
    (p : Instance → Bool) (rows : List Instance) (r : Instance)
    → Distinct rows
    → find p rows ≡ some r
    → All (λ (x : Instance). x.id ≡ r.id → x.current_state ≡ r.current_state) rows
unfolding Distinct
only_row p [] r d h = tt
only_row p (x ∷ xs) r d h = elim (Bool-cases (p x)) [
  | inl here ↦ (
    λ e. ground (arith, h, here),
    only_elsewhere x r xs (ground (arith, h, here)) (others x.id xs d.0),
  )
  | inr there ↦ (
    λ e. absurd (ground (arith, d.0, e, found-has_id p xs r (ground (arith, h, there)))),
    only_row p xs r d.1 (ground (arith, h, there)),
  )
]
