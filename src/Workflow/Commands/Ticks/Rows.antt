-- ===== src/Workflow/Commands/Ticks/Rows.antt =====
-- One row under a scan: where it goes from each status, and how many attempts that takes.
use freight_auditor.Prelude.{
  ℕ, suc, ◌+◌, ◌≤◌, String, ◌==◌, Bool, true, false, ◌&&◌, Option, some, List, [], ◌∷◌, includes,
  leb, ◌≡◌, ◌⊎◌, inl, inr, refl, sym, ap, subst, ◌∙◌, arith, eq_iff, Bool-cases,
}
use freight_auditor.Workflow.Queue.{
  Status, pending, claimed, done, failed, is_pending, is_claimed, old_claim, claim_row, reclaim_row,
  max_attempts,
}
use freight_auditor.Workflow.Queue.Lifecycle.{
  Lifecycle, RowIsSound, claim_row-IsSound, reclaim_row-IsSound,
}
use freight_auditor.Workflow.Commands.{Command}
use freight_auditor.Workflow.Commands.Ticks.{stale_after, recovered, taken_up}

abbrev pub is_over : Status → Bool
is_over done = true
is_over failed = true
is_over _ = false

-- A claim of an attempt from the `j`th on, made at `t` or before.
unfoldable pub Held : ℕ → ℕ → Command → Type 0
Held j t c = (c.status ≡ claimed) × (j ≤ c.attempts) × ((u : ℕ) × (c.claimed_at ≡ some u) × (u ≤ t))

abbrev pub scanned_row : List String → ℕ → Command → Command
scanned_row clients now c = taken_up clients now (recovered clients now c)

recovered_other :
    (clients : List String) (now : ℕ) (c : Command)
    → (is_claimed c.status && old_claim now stale_after c.claimed_at) ≡ false
    → recovered clients now c ≡ c
unfolding recovered
recovered_other [] now c h = refl
recovered_other (o ∷ os) now c h =
    ap (recovered os now) (ground (arith, h)) ∙ recovered_other os now c h

recovered_stale :
    (clients : List String) (now : ℕ) (c : Command)
    → includes c.account_id clients ≡ true
    → (is_claimed c.status && old_claim now stale_after c.claimed_at) ≡ true
    → recovered clients now c ≡ reclaim_row max_attempts c
unfolding recovered
recovered_stale [] now c i h = cc
recovered_stale (o ∷ os) now c i h = elim (Bool-cases (o == c.account_id)) [
  | inl mine ↦
      ap (recovered os now) (ground (arith, h, mine, eq_iff o c.account_id, eq_iff c.account_id o))
      ∙ recovered_other os now (reclaim_row max_attempts c) (ground arith)
  | inr other ↦
      ap (recovered os now) (ground (arith, h, other, eq_iff o c.account_id, eq_iff c.account_id o))
      ∙ recovered_stale os now c (ground (arith, i, other)) h
]

taken_up_other :
    (clients : List String) (now : ℕ) (c : Command)
    → (is_pending c.status && leb c.due_at now) ≡ false
    → taken_up clients now c ≡ c
unfolding taken_up
taken_up_other [] now c h = refl
taken_up_other (o ∷ os) now c h =
    ap (taken_up os now) (ground (arith, h)) ∙ taken_up_other os now c h

taken_up_due :
    (clients : List String) (now : ℕ) (c : Command)
    → includes c.account_id clients ≡ true
    → (is_pending c.status && leb c.due_at now) ≡ true
    → taken_up clients now c ≡ claim_row now c
unfolding taken_up
taken_up_due [] now c i h = cc
taken_up_due (o ∷ os) now c i h = elim (Bool-cases (o == c.account_id)) [
  | inl mine ↦
      ap (taken_up os now) (ground (arith, h, mine, eq_iff o c.account_id, eq_iff c.account_id o))
      ∙ taken_up_other os now (claim_row now c) refl
  | inr other ↦
      ap (taken_up os now) (ground (arith, h, other, eq_iff o c.account_id, eq_iff c.account_id o))
      ∙ taken_up_due os now c (ground (arith, i, other)) h
]

Status-cases : (s : Status) → (s ≡ pending) ⊎ ((s ≡ claimed) ⊎ (is_over s ≡ true))
Status-cases pending = inl refl
Status-cases claimed = inr (inl refl)
Status-cases done = inr (inr refl)
Status-cases failed = inr (inr refl)

claim_time :
    (s : Status) (n : ℕ) (at : Option ℕ) → s ≡ claimed → Lifecycle s n at → (u : ℕ) × (at ≡ some u)
unfolding Lifecycle
claim_time pending n at e h = cc
claim_time claimed n at e h = h.2
claim_time done n at e h = cc
claim_time failed n at e h = cc

abbrev pub Ends : ℕ → ℕ → Command → Type 0
Ends j t c = RowIsSound c × ((is_over c.status ≡ true) ⊎ Held j t c)

module _ (clients : List String) (now : ℕ) (c : Command)
    (ours : includes c.account_id clients ≡ true) (due : c.due_at ≤ now)
    (sound : RowIsSound c) where
  claimed_now : c.status ≡ pending → scanned_row clients now c ≡ claim_row now c
  claimed_now p =
      ap (taken_up clients now) (recovered_other clients now c (ground (arith, p)))
      ∙ taken_up_due clients now c ours (ground (arith, p, due))

  Ends-pending : c.status ≡ pending → Ends 1 now (scanned_row clients now c)
  unfolding Held
  Ends-pending p = subst (Ends 1 now) (sym (claimed_now p)) (
    claim_row-IsSound c.account_id now c sound
        (ground (arith, p, due, eq_iff c.account_id c.account_id)),
    inr (refl, omega arith, (now, refl, omega arith)),
  )

  Ends-over : (j : ℕ) → is_over c.status ≡ true → Ends j now (scanned_row clients now c)
  Ends-over j o =
      subst (Ends j now)
        (sym (
          ap (taken_up clients now) (recovered_other clients now c (ground (arith, o)))
          ∙ taken_up_other clients now c (ground (arith, o))))
        (sound, inl o)

  freed : Command
  freed = reclaim_row max_attempts c

  freed-IsSound :
      c.status ≡ claimed → old_claim now stale_after c.claimed_at ≡ true → RowIsSound freed
  unfolding freed
  freed-IsSound p old =
      reclaim_row-IsSound c.account_id now stale_after c sound
        (ground (arith, p, old, eq_iff c.account_id c.account_id))

  Ends-stale :
      (j : ℕ)
      → c.status ≡ claimed
      → j ≤ c.attempts
      → old_claim now stale_after c.claimed_at ≡ true
      → Ends (suc j) now (scanned_row clients now c)
  unfolding Held freed
  Ends-stale j p le old =
      let first =
        ap (taken_up clients now) (recovered_stale clients now c ours (ground (arith, p, old))) in
      elim (Bool-cases (leb max_attempts c.attempts)) [
        | inl spent ↦
            subst (Ends (suc j) now)
              (sym (first ∙ taken_up_other clients now freed (ground (arith, spent))))
              (freed-IsSound p old, inl (ground (arith, spent)))
        | inr left ↦
            subst (Ends (suc j) now)
              (sym (first ∙ taken_up_due clients now freed ours (ground (arith, left, due))))
              (
                claim_row-IsSound c.account_id now freed (freed-IsSound p old)
                    (ground (arith, left, due, eq_iff c.account_id c.account_id)),
                inr (refl, omega (arith, le), (now, refl, omega arith)),
              )
      ]

  Ends-recent :
      (u : ℕ)
      → c.status ≡ claimed
      → c.claimed_at ≡ some u
      → u ≤ now
      → old_claim now stale_after c.claimed_at ≡ false
      → Ends 1 now (scanned_row clients now c)
  unfolding Held Lifecycle
  Ends-recent u p at le young =
      subst (Ends 1 now)
        (sym (
          ap (taken_up clients now) (recovered_other clients now c (ground (arith, p, young)))
          ∙ taken_up_other clients now c (ground (arith, p))))
        (
          sound,
          inr (
            p,
            ground (arith, p, subst (λ s. Lifecycle s c.attempts c.claimed_at) p sound),
            (u, at, le),
          ),
        )

  -- The first scan: the command is over, or it has been claimed.
  pub Ends-first :
      ((u : ℕ) → c.claimed_at ≡ some u → u ≤ now) → Ends 1 now (scanned_row clients now c)
  Ends-first past = elim (Status-cases c.status) [
    | inl p ↦ Ends-pending p
    | inr (inr o) ↦ Ends-over 1 o
    | inr (inl p) ↦
        let (u, at) = claim_time c.status c.attempts c.claimed_at p sound in
        elim (Bool-cases (old_claim now stale_after c.claimed_at)) [
          | inl old ↦ Ends-stale 0 p (omega arith) old
          | inr young ↦ Ends-recent u p at (past u at) young
        ]
  ]

  -- Each further scan costs an attempt, until the command is over.
  pub Ends-next :
      (j t : ℕ)
      → (is_over c.status ≡ true) ⊎ Held j t c
      → t + stale_after ≤ now
      → Ends (suc j) now (scanned_row clients now c)
  unfolding Held
  Ends-next j t (inl o) gap = Ends-over (suc j) o
  Ends-next j t (inr (p, le, (u, at, before))) gap =
      Ends-stale j p le (ground (arith, at, before, gap))
