-- ===== src/Money/Laws.antt =====
-- What follows from exact decimal arithmetic: sums as in an ordered group.
use freight_auditor.Prelude.{true, false, ◌≡◌, sym, ap, ◌∙◌, arith}
use freight_auditor.Money.{Decimal, IsExact}

module _ (d : Decimal) (exact : IsExact d) where
  pub zero_plus : (a : d.D) → d.plus d.zero a ≡ a
  zero_plus a = exact.plus_comm d.zero a ∙ exact.plus_zero a

  pub plus_negated : (a : d.D) → d.plus a (d.minus d.zero a) ≡ d.zero
  plus_negated a = exact.plus_comm a _ ∙ exact.minus_plus d.zero a

  pub plus_cancel : (a b c : d.D) → d.plus a c ≡ d.plus b c → a ≡ b
  plus_cancel a b c h = sym (exact.plus_minus a c) ∙ ap (λ x. d.minus x c) h ∙ exact.plus_minus b c

  pub minus_eq : (a b c : d.D) → a ≡ d.plus b c → d.minus a c ≡ b
  minus_eq a b c h = ap (λ x. d.minus x c) h ∙ exact.plus_minus b c

  pub minus_self : (a : d.D) → d.minus a a ≡ d.zero
  minus_self a = minus_eq a d.zero a (sym (zero_plus a))

  pub lte_cancel : (a b c : d.D) → d.lte (d.plus a c) (d.plus b c) ≡ true → d.lte a b ≡ true
  lte_cancel a b c h =
      let back : (x : d.D) → d.plus (d.plus x c) (d.minus d.zero c) ≡ x =
        λ x. exact.plus_assoc x c _ ∙ ap (λ y. d.plus x y) (plus_negated c) ∙ exact.plus_zero x in
      rw (back a, back b) at (exact.plus_mono _ _ (d.minus d.zero c) h)

  -- Adding a positive amount exceeds.
  pub lte_of_plus : (t a : d.D) → d.lte (d.plus t a) t ≡ true → d.lte a d.zero ≡ true
  lte_of_plus t a h = lte_cancel a d.zero t (rw (exact.plus_comm a t, zero_plus t) h)

  pub lte_of_not_gt : (a b : d.D) → d.gt a b ≡ false → d.lte a b ≡ true
  lte_of_not_gt a b h = ground (arith, exact.gt_lem a b)

  pub zero-lte_of_positive : (a : d.D) → d.lte a d.zero ≡ false → d.lte d.zero a ≡ true
  zero-lte_of_positive a h = exact.lte_total a d.zero (λ e. cc)

  pub push : (a x b : d.D) → d.plus (d.plus a x) b ≡ d.plus (d.plus a b) x
  push a x b =
      exact.plus_assoc a x b ∙ ap (d.plus a) (exact.plus_comm x b) ∙ sym (exact.plus_assoc a b x)

  -- What one sum gains and the other gives up cancels.
  pub swap : (r s t : d.D) → d.plus (d.plus r s) (d.minus t s) ≡ d.plus r t
  swap r s t =
      exact.plus_assoc r s _
      ∙ ap (d.plus r) (exact.plus_comm s (d.minus t s) ∙ exact.minus_plus t s)
