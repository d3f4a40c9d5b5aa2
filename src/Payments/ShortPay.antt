-- ===== src/Payments/ShortPay.antt =====
-- What a short payment pays and withholds.
use freight_auditor.Prelude.{
  String, Bool, true, false, Option, none, some, List, [], ◌∷◌, ◌++◌, map, any, all, All, insert_by,
  sort_by, ok, ◌≡◌, inl, inr, refl, sym, ap, ◌∙◌, subst, arith, eq_iff, Bool-cases,
}
use freight_auditor.Money.{Decimal, IsExact}
use freight_auditor.Money.Laws.{zero_plus, push}
use freight_auditor.Payments.Compose.{
  is_missing, same_currency, one_currency, first_currency, ChargeFactRow,
  AcceptedOverchargeFindingRow, ShortPayDecision, total_of, amount_or_zero, withheld_of, by_id,
  all_currencies, finding_missing, compose_short_pay_decision,
}

same_currency-eq : (a b : Option String) → same_currency a b ≡ true → a ≡ b
same_currency-eq none none h = refl
same_currency-eq none (some b) h = absurd (ground arith)
same_currency-eq (some a) none h = absurd (ground arith)
same_currency-eq (some a) (some b) h = ground (arith, eq_iff a b)

all-same :
    (c : Option String) (cs : List (Option String))
    → all (λ x. same_currency x c) cs ≡ true
    → All (λ x. x ≡ c) cs
all-same c [] h = tt
all-same c (x ∷ xs) h = (same_currency-eq x c (ground arith), all-same c xs (ground arith))

one_currency-All :
    (cs : List (Option String))
    → one_currency cs ≡ true
    → any is_missing cs ≡ false
    → All (λ x. x ≡ some (first_currency cs)) cs
unfolding one_currency
one_currency-All [] h m = tt
one_currency-All (none ∷ cs) h m = absurd (ground arith)
one_currency-All (some c ∷ cs) h m = (refl, all-same (some c) cs h)

any-append :
    (xs ys : List (Option String))
    → any is_missing xs ≡ false
    → any is_missing ys ≡ false
    → any is_missing (xs ++ ys) ≡ false
any-append [] ys h k = k
any-append (x ∷ xs) ys h k = ground (arith, h, k, any-append xs ys)

split-All :
    (P : Option String → Type 0) (xs ys : List (Option String))
    → All P (xs ++ ys)
    → All P xs × All P ys
split-All P [] ys h = (tt, h)
split-All P (x ∷ xs) ys h = let (l, r) = split-All P xs ys h.1 in ((h.0, l), r)

module _ (d : Decimal) (locale_le : String → String → Bool) where
  charges-stated :
      (cs : List (ChargeFactRow d locale_le))
      → any (λ (c : ChargeFactRow d locale_le). is_missing c.currency) cs ≡ false
      → any is_missing (map (λ (c : ChargeFactRow d locale_le). c.currency) cs) ≡ false
  charges-stated [] h = refl
  charges-stated (c ∷ cs) h = ground (arith, h, charges-stated cs)

  findings-stated :
      (fs : List (AcceptedOverchargeFindingRow d locale_le))
      → any (λ (f : AcceptedOverchargeFindingRow d locale_le). finding_missing d locale_le f) fs
        ≡ false
      → any is_missing (map (λ (f : AcceptedOverchargeFindingRow d locale_le). f.currency) fs)
        ≡ false
  findings-stated [] h = refl
  findings-stated (f ∷ fs) h = ground (arith, h, findings-stated fs)

  unmap-charges :
      (P : Option String → Type 0) (cs : List (ChargeFactRow d locale_le))
      → All P (map (λ (c : ChargeFactRow d locale_le). c.currency) cs)
      → All (λ (c : ChargeFactRow d locale_le). P c.currency) cs
  unmap-charges P [] h = tt
  unmap-charges P (c ∷ cs) h = (h.0, unmap-charges P cs h.1)

  unmap-findings :
      (P : Option String → Type 0) (fs : List (AcceptedOverchargeFindingRow d locale_le))
      → All P (map (λ (f : AcceptedOverchargeFindingRow d locale_le). f.currency) fs)
      → All (λ (f : AcceptedOverchargeFindingRow d locale_le). P f.currency) fs
  unmap-findings P [] h = tt
  unmap-findings P (f ∷ fs) h = (h.0, unmap-findings P fs h.1)

  -- The guards of a composition that gave a decision, and the fields it filled.
  record ShortPayRun (charges : List (ChargeFactRow d locale_le))
      (findings : List (AcceptedOverchargeFindingRow d locale_le))
      (p : ShortPayDecision d locale_le) : Type 0 where
    stated :
        any
          (λ (f : AcceptedOverchargeFindingRow d locale_le). finding_missing d locale_le f)
          findings
        ≡ false
    charged : any (λ (c : ChargeFactRow d locale_le). is_missing c.currency) charges ≡ false
    one : one_currency (all_currencies d locale_le charges findings) ≡ true
    kept :
        d.gte
          (withheld_of d locale_le (by_id d locale_le findings) d.zero)
          (total_of d locale_le charges d.zero)
        ≡ false
    pay :
        p.amount_to_pay
        ≡ d.to_fixed (
            d.minus
              (total_of d locale_le charges d.zero)
              (withheld_of d locale_le (by_id d locale_le findings) d.zero))
    withheld :
        p.withheld_amount ≡ d.to_fixed (withheld_of d locale_le (by_id d locale_le findings) d.zero)
    currency : p.currency ≡ first_currency (all_currencies d locale_le charges findings)

  short_pay_run :
      (charges : List (ChargeFactRow d locale_le))
      (findings : List (AcceptedOverchargeFindingRow d locale_le))
      (p : ShortPayDecision d locale_le)
      → compose_short_pay_decision d locale_le charges findings ≡ ok p
      → ShortPayRun charges findings p
  unfolding compose_short_pay_decision
  short_pay_run charges findings p h = record {
    stated = ground arith;
    charged = ground arith;
    one = ground arith;
    kept = ground arith;
    pay = ground arith;
    withheld = ground arith;
    currency = ground arith;
  }

  module _ (exact : IsExact d) where
    withheld-insert :
        (le : AcceptedOverchargeFindingRow d locale_le
          → AcceptedOverchargeFindingRow d locale_le
          → Bool)
        (x : AcceptedOverchargeFindingRow d locale_le)
        (ys : List (AcceptedOverchargeFindingRow d locale_le)) (acc : d.D)
        → withheld_of d locale_le (insert_by le x ys) acc ≡ withheld_of d locale_le (x ∷ ys) acc
    unfolding withheld_of
    withheld-insert le x [] acc = refl
    withheld-insert le x (y ∷ ys) acc = elim (Bool-cases (le x y)) [
      | inl e ↦ rw (e) refl
      | inr e ↦ rw (e) (
          withheld-insert le x ys _
          ∙ ap (withheld_of d locale_le ys) (
              push d exact acc (amount_or_zero d locale_le y.variance_amount)
                (amount_or_zero d locale_le x.variance_amount)))
    ]

    -- The order of the findings does not change what is withheld.
    withheld-sort :
        (le : AcceptedOverchargeFindingRow d locale_le
          → AcceptedOverchargeFindingRow d locale_le
          → Bool)
        (fs : List (AcceptedOverchargeFindingRow d locale_le)) (acc : d.D)
        → withheld_of d locale_le (sort_by le fs) acc ≡ withheld_of d locale_le fs acc
    unfolding withheld_of
    withheld-sort le [] acc = refl
    withheld-sort le (f ∷ fs) acc = withheld-insert le f (sort_by le fs) acc ∙ withheld-sort le fs _

    positive :
        (total withheld : d.D)
        → d.gte withheld total ≡ false
        → d.lte (d.minus total withheld) d.zero ≡ false
    positive total withheld h = elim (Bool-cases (d.lte (d.minus total withheld) d.zero)) [
      | inr e ↦ e
      | inl e ↦
          let up = exact.plus_mono _ _ withheld e in
          absurd (
            ground (
              arith,
              up,
              exact.gte_lem withheld total,
              exact.minus_plus total withheld,
              zero_plus d exact withheld,
            ))
    ]

    -- With exact decimal arithmetic, a short payment names one currency, in which every charge and every
    -- accepted finding is; it withholds the sum of the findings' variances, pays the sum of the charges
    -- less that, and what it pays is more than zero.
    pub compose_short_pay_decision_sound :
        (charges : List (ChargeFactRow d locale_le))
        (findings : List (AcceptedOverchargeFindingRow d locale_le))
        (p : ShortPayDecision d locale_le)
        → compose_short_pay_decision d locale_le charges findings ≡ ok p
        → ((pay : d.D) × (p.amount_to_pay ≡ d.to_fixed pay)
            × (p.withheld_amount ≡ d.to_fixed (withheld_of d locale_le findings d.zero))
            × (d.plus pay (withheld_of d locale_le findings d.zero)
                ≡ total_of d locale_le charges d.zero)
            × (d.lte pay d.zero ≡ false))
          × All (λ (c : ChargeFactRow d locale_le). c.currency ≡ some p.currency) charges
          × All
              (λ (f : AcceptedOverchargeFindingRow d locale_le). f.currency ≡ some p.currency)
              findings
    compose_short_pay_decision_sound charges findings p h =
        let run = short_pay_run charges findings p h in
        let withheld : d.D = withheld_of d locale_le (by_id d locale_le findings) d.zero in
        let total : d.D = total_of d locale_le charges d.zero in
        let same : withheld ≡ withheld_of d locale_le findings d.zero =
          withheld-sort (λ (a b : AcceptedOverchargeFindingRow d locale_le). locale_le a.id b.id)
            findings d.zero in
        let (cs, fs) = split-All _ (map (λ (c : ChargeFactRow d locale_le). c.currency) charges) _ (
          one_currency-All (all_currencies d locale_le charges findings) run.one (
            any-append (map (λ (c : ChargeFactRow d locale_le). c.currency) charges)
              (map (λ (f : AcceptedOverchargeFindingRow d locale_le). f.currency) findings)
              (charges-stated charges run.charged) (findings-stated findings run.stated))) in
        let named = sym run.currency in
        (
          (
            d.minus total withheld,
            run.pay,
            run.withheld ∙ ap d.to_fixed same,
            ap (d.plus (d.minus total withheld)) (sym same) ∙ exact.minus_plus total withheld,
            positive total withheld run.kept,
          ),
          subst (λ k. All (λ (c : ChargeFactRow d locale_le). c.currency ≡ some k) charges) named
              (unmap-charges _ charges cs),
          subst
              (λ k.
                All (λ (f : AcceptedOverchargeFindingRow d locale_le). f.currency ≡ some k)
                  findings)
              named (unmap-findings _ findings fs),
        )
