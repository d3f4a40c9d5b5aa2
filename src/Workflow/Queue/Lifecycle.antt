-- ===== src/Workflow/Queue/Lifecycle.antt =====
-- What the status of a row says of its attempts and its claim, under the operations of the queue.
use freight_auditor.Prelude.{
  ℕ, suc, ◌≤◌, ◌<◌, String, true, Option, none, some, inl, inr, Bool-cases, leb, if◌then◌else◌, ◌≡◌,
  refl, arith,
}
use freight_auditor.Workflow.Queue.{
  Status, pending, claimed, done, failed, is_pending, is_claimed, is_done, Row, is_due, claim_row,
  may_complete, is_stale, reclaim_row, max_attempts,
}

-- At most five attempts: a row that waits has one left, a claimed one has spent it, and a row fails with
-- none left; only a claimed row has the time of its claim, which a completed one keeps.
unfoldable pub Lifecycle : Status → ℕ → Option ℕ → Type 0
Lifecycle pending n at = (n < max_attempts) × (at ≡ none)
Lifecycle claimed n at = (0 < n) × (n ≤ max_attempts) × ((t : ℕ) × (at ≡ some t))
Lifecycle done n at = (0 < n) × (n ≤ max_attempts)
Lifecycle failed n at = (n ≡ max_attempts) × (at ≡ none)

claimed_lem :
    (s : Status) (n : ℕ) (at : Option ℕ) (now : ℕ)
    → Lifecycle s n at
    → is_pending s ≡ true
    → Lifecycle claimed (suc n) (some now)
unfolding Lifecycle
claimed_lem pending n at now h t = (omega arith, omega (arith, h.0), (now, refl))
claimed_lem claimed n at now h t = cc
claimed_lem done n at now h t = cc
claimed_lem failed n at now h t = cc

reclaimed_lem :
    (s : Status) (n : ℕ) (at : Option ℕ)
    → Lifecycle s n at
    → is_claimed s ≡ true
    → Lifecycle (if leb max_attempts n then failed else pending) n none
unfolding Lifecycle
reclaimed_lem claimed n at h t = elim (Bool-cases (leb max_attempts n)) [
  | inl e ↦ rw e (ground (arith, h), refl)
  | inr e ↦ rw e (ground (arith, h), refl)
]
reclaimed_lem pending n at h t = cc
reclaimed_lem done n at h t = cc
reclaimed_lem failed n at h t = cc

completed_lem :
    (s : Status) (n : ℕ) (at : Option ℕ)
    → Lifecycle s n at
    → (if is_claimed s then true else is_done s) ≡ true
    → Lifecycle done n at
unfolding Lifecycle
completed_lem claimed n at h t = (h.0, h.1)
completed_lem done n at h t = h
completed_lem pending n at h t = cc
completed_lem failed n at h t = cc

module _ {W : Type 0} where
  abbrev pub RowIsSound : Row W → Type 0
  RowIsSound r = Lifecycle r.status r.attempts r.claimed_at

  pub claim_row-IsSound :
      (account : String) (now : ℕ) (r : Row W)
      → RowIsSound r
      → is_due account now r ≡ true
      → RowIsSound (claim_row now r)
  claim_row-IsSound account now r h t =
      claimed_lem r.status r.attempts r.claimed_at now h (ground (arith, t))

  pub reclaim_row-IsSound :
      (account : String) (now stale_after : ℕ) (r : Row W)
      → RowIsSound r
      → is_stale account now stale_after r ≡ true
      → RowIsSound (reclaim_row max_attempts r)
  reclaim_row-IsSound account now stale_after r h t =
      reclaimed_lem r.status r.attempts r.claimed_at h (ground (arith, t))

  pub complete_row-IsSound :
      (account id : String) (r : Row W)
      → RowIsSound r
      → may_complete account id r ≡ true
      → RowIsSound (record r { status = done })
  complete_row-IsSound account id r h t =
      completed_lem r.status r.attempts r.claimed_at h (ground (arith, t))
