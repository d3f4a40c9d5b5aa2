-- ===== src/Prelude/Lists.antt =====
-- Array methods of the source over lists: `length`, `filter`, `some`, `every`, `includes`,
-- `slice`, and a stable `sort`.
use Prim.Native.Nat.{ℕ, zero, suc, ◌+◌, ◌≤◌}
use Prim.Native.String.{String}
use mathlib.Core.Path.{◌≡◌, refl}
use mathlib.Core.Bool.{Bool, true, false, ◌&&◌, ◌||◌}
use mathlib.Core.List.{List, [], ◌∷◌, ◌++◌}
use mathlib.Core.Option.{Option, none, some}
use mathlib.Core.Logic.{◌⊎◌, inl, inr}
use native.Mathlib.Omega.{arith}
use freight_auditor.Prelude.Tests.{Bool-cases, if◌then◌else◌, ◌==◌}

module _ {ℓ} {A : Type ℓ} where
  abbrev pub length : List A → ℕ
  length [] = 0
  length (x ∷ xs) = suc (length xs)

  abbrev pub keep : (A → Bool) → List A → List A
  keep p [] = []
  keep p (x ∷ xs) = if p x then x ∷ keep p xs else keep p xs

  abbrev pub any : (A → Bool) → List A → Bool
  any p [] = false
  any p (x ∷ xs) = p x || any p xs

  abbrev pub all : (A → Bool) → List A → Bool
  all p [] = true
  all p (x ∷ xs) = p x && all p xs

  abbrev pub find : (A → Bool) → List A → Option A
  find p [] = none
  find p (x ∷ xs) = if p x then some x else find p xs

  abbrev pub take : ℕ → List A → List A
  take zero xs = []
  take (suc n) [] = []
  take (suc n) (x ∷ xs) = x ∷ take n xs

  -- Insertion behind the elements that go strictly before: the sort is stable.
  abbrev pub insert_by : (A → A → Bool) → A → List A → List A
  insert_by le x [] = x ∷ []
  insert_by le x (y ∷ ys) = if le x y then x ∷ y ∷ ys else y ∷ insert_by le x ys

  abbrev pub sort_by : (A → A → Bool) → List A → List A
  sort_by le [] = []
  sort_by le (x ∷ xs) = insert_by le x (sort_by le xs)

  pub length-append : (xs ys : List A) → length (xs ++ ys) ≡ length xs + length ys
  length-append [] ys = omega arith
  length-append (x ∷ xs) ys = omega (arith, length-append xs ys)

  pub length-keep : (p : A → Bool) (xs : List A) → length (keep p xs) ≤ length xs
  length-keep p [] = omega arith
  length-keep p (x ∷ xs) = ground (arith, length-keep p xs)

  pub length-insert_by :
      (le : A → A → Bool) (x : A) (xs : List A) → length (insert_by le x xs) ≡ suc (length xs)
  length-insert_by le x [] = refl
  length-insert_by le x (y ∷ ys) = ground (arith, length-insert_by le x ys)

  pub length-sort_by : (le : A → A → Bool) (xs : List A) → length (sort_by le xs) ≡ length xs
  length-sort_by le [] = refl
  length-sort_by le (x ∷ xs) =
      ground (arith, length-insert_by le x (sort_by le xs), length-sort_by le xs)

-- `array.includes(text)`.
abbrev pub includes : String → List String → Bool
includes s [] = false
includes s (x ∷ xs) = x == s || includes s xs

module _ {ℓ κ} {A : Type ℓ} where
  abbrev pub All : (A → Type κ) → List A → Type κ
  All P [] = Unit
  All P (x ∷ xs) = P x × All P xs

module _ {ℓ κ} {A : Type ℓ} (P : A → Type κ) where
  pub All-append : (xs ys : List A) → All P xs → All P ys → All P (xs ++ ys)
  All-append [] ys h k = k
  All-append (x ∷ xs) ys h k = (h.0, All-append xs ys h.1 k)

  pub All-keep : (p : A → Bool) (xs : List A) → All P xs → All P (keep p xs)
  All-keep p [] h = tt
  All-keep p (x ∷ xs) h = ground (arith, All-keep p xs h.1)

  pub All-insert_by :
      (le : A → A → Bool) (x : A) (xs : List A) → P x → All P xs → All P (insert_by le x xs)
  All-insert_by le x [] h k = (h, tt)
  All-insert_by le x (y ∷ ys) h k = ground (arith, h, k, All-insert_by le x ys h k.1)

  pub insert_by-All :
      (le : A → A → Bool) (x : A) (xs : List A) → All P (insert_by le x xs) → P x × All P xs
  insert_by-All le x [] h = h
  insert_by-All le x (y ∷ ys) h = ground (arith, insert_by-All le x ys)

  pub All-sort_by : (le : A → A → Bool) (xs : List A) → All P xs → All P (sort_by le xs)
  All-sort_by le [] h = tt
  All-sort_by le (x ∷ xs) h = All-insert_by le x (sort_by le xs) h.0 (All-sort_by le xs h.1)

  pub sort_by-All : (le : A → A → Bool) (xs : List A) → All P (sort_by le xs) → All P xs
  sort_by-All le [] h = tt
  sort_by-All le (x ∷ xs) h =
      let (here, there) = insert_by-All le x (sort_by le xs) h in (here, sort_by-All le xs there)

  -- What holds of the elements that a test keeps.
  pub keep-All :
      (p : A → Bool) (xs : List A) → All P (keep p xs) → All (λ (x : A). p x ≡ true → P x) xs
  keep-All p [] h = tt
  keep-All p (x ∷ xs) h = ground (arith, keep-All p xs)

  pub All-keep_if :
      (p : A → Bool) (xs : List A) → All (λ (x : A). p x ≡ true → P x) xs → All P (keep p xs)
  All-keep_if p [] h = tt
  All-keep_if p (x ∷ xs) h = ground (arith, h.0, All-keep_if p xs h.1)

-- What holds of one element at least.
module _ {ℓ} {A : Type ℓ} where
  abbrev pub Some : (A → Type 0) → List A → Type 0
  Some P [] = ⊥
  Some P (x ∷ xs) = P x ⊎ Some P xs

module _ {ℓ} {A : Type ℓ} (P : A → Type 0) where
  insert_by-Some :
      (le : A → A → Bool) (x : A) (xs : List A) → Some P (insert_by le x xs) → P x ⊎ Some P xs
  insert_by-Some le x [] h = h
  insert_by-Some le x (y ∷ ys) h = elim (Bool-cases (le x y)) [
    | inl before ↦ rw (before) at h
    | inr after ↦ elim (rw (after) at h) as (λ z. P x ⊎ Some P (y ∷ ys)) [
      | inl p ↦ inr (inl p)
      | inr q ↦ elim (insert_by-Some le x ys q) [ inl p ↦ inl p | inr t ↦ inr (inr t) ]
    ]
  ]

  pub sort_by-Some : (le : A → A → Bool) (xs : List A) → Some P (sort_by le xs) → Some P xs
  sort_by-Some le [] h = h
  sort_by-Some le (x ∷ xs) h = elim (insert_by-Some le x (sort_by le xs) h) [
    | inl p ↦ inl p
    | inr q ↦ inr (sort_by-Some le xs q)
  ]
