-- ===== src/Payments/Compose.antt =====
-- The two pure compositions (payments/compose-short-pay-decision.ts, compose-do-not-pay-decision.ts).
-- Amounts are `numeric` columns, whose text always reads as a decimal, so a row holds the decimal.
-- `localeCompare` sorts by ICU's tables: a parameter.

use freight_auditor.Prelude.{
  String, ◌==◌, Bool, true, false, not, ◌||◌, Option, none, some, List, [], ◌∷◌, ◌++◌, map, any,
  all, if◌then◌else◌, sort_by, Result, ok, err, ◌>>◌, throw_if,
}
use Prim.Native.String
use freight_auditor.Money.{Decimal}

pub data ShortPayCode : Type 0 where
  empty_set mixed_currency missing_amount withheld_exceeds_total : ShortPayCode

abbrev pub is_missing {ℓ} : {A : Type ℓ} → Option A → Bool
is_missing none = true
is_missing (some a) = false

-- `new Set(currencies).size > 1`, and the first element of the set.
abbrev pub same_currency : Option String → Option String → Bool
same_currency none none = true
same_currency (some a) (some b) = a == b
same_currency _ _ = false

unfoldable pub one_currency : List (Option String) → Bool
one_currency [] = true
one_currency (c ∷ cs) = all (λ x. same_currency x c) cs

abbrev pub first_currency : List (Option String) → String
first_currency (some c ∷ cs) = c
first_currency _ = ""

module _ (d : Decimal) (locale_le : String → String → Bool) where
  pub record ChargeFactRow : Type 0 where
    pub amount : d.D
    pub currency : Option String

  pub record AcceptedOverchargeFindingRow : Type 0 where
    pub id : String
    pub currency : Option String
    pub variance_amount : Option d.D

  pub record ShortPayDecision : Type 0 where
    pub amount_to_pay : String
    pub withheld_amount : String
    pub currency : String
    pub finding_ids : List String

  unfoldable pub total_of : List ChargeFactRow → d.D → d.D
  total_of [] acc = acc
  total_of (c ∷ cs) acc = total_of cs (d.plus acc c.amount)

  abbrev pub amount_or_zero : Option d.D → d.D
  amount_or_zero none = d.zero
  amount_or_zero (some x) = x

  -- The rows whose `varianceAmount!` the code reads have one.
  unfoldable pub withheld_of : List AcceptedOverchargeFindingRow → d.D → d.D
  withheld_of [] acc = acc
  withheld_of (f ∷ fs) acc = withheld_of fs (d.plus acc (amount_or_zero f.variance_amount))

  abbrev pub by_id : List AcceptedOverchargeFindingRow → List AcceptedOverchargeFindingRow
  by_id fs = sort_by (λ (a b : AcceptedOverchargeFindingRow). locale_le a.id b.id) fs

  abbrev pub all_currencies :
      List ChargeFactRow → List AcceptedOverchargeFindingRow → List (Option String)
  all_currencies cs fs =
      map (λ (c : ChargeFactRow). c.currency) cs
      ++ map (λ (f : AcceptedOverchargeFindingRow). f.currency) fs

  abbrev pub finding_missing : AcceptedOverchargeFindingRow → Bool
  finding_missing f = is_missing f.currency || is_missing f.variance_amount

  abbrev pub none_accepted : List AcceptedOverchargeFindingRow → Bool
  none_accepted [] = true
  none_accepted _ = false

  unfoldable pub compose_short_pay_decision :
      List ChargeFactRow → List AcceptedOverchargeFindingRow → Result ShortPayCode ShortPayDecision
  compose_short_pay_decision charges findings = do
    throw_if (none_accepted findings) empty_set
    throw_if (any finding_missing findings) missing_amount
    throw_if (any (λ (c : ChargeFactRow). is_missing c.currency) charges) missing_amount
    throw_if (not (one_currency (all_currencies charges findings))) mixed_currency
    let total = total_of charges d.zero
    let sorted = by_id findings
    let withheld = withheld_of sorted d.zero
    throw_if (d.gte withheld total) withheld_exceeds_total
    ok (record {
      amount_to_pay = d.to_fixed (d.minus total withheld);
      withheld_amount = d.to_fixed withheld;
      currency = first_currency (all_currencies charges findings);
      finding_ids = map (λ (f : AcceptedOverchargeFindingRow). f.id) sorted;
    })

pub record GateFailureRow : Type 0 where
  pub id : String
  pub defect : String
  pub citation : Option String

pub record DoNotPayDecision : Type 0 where
  pub rationale : String
  pub gate_failure_ids : List String

pub data DoNotPayCode : Type 0 where
  no_gate_failures : DoNotPayCode

-- `r.citation ? … : r.defect`: the empty citation is none.
abbrev pub cited : GateFailureRow → String
cited r = elim r.citation [
  | none ↦ r.defect
  | some c ↦
      if c == "" then r.defect else String.◌++◌ r.defect (String.◌++◌ " (" (String.◌++◌ c ")"))
]

abbrev pub join : String → List String → String
join sep [] = ""
join sep (x ∷ []) = x
join sep (x ∷ y ∷ xs) = String.◌++◌ x (String.◌++◌ sep (join sep (y ∷ xs)))

unfoldable pub compose_do_not_pay_decision :
    (String → String → Bool) → List GateFailureRow → Result DoNotPayCode DoNotPayDecision
compose_do_not_pay_decision locale_le [] = err no_gate_failures
compose_do_not_pay_decision locale_le rows =
    let sorted = sort_by (λ (a b : GateFailureRow). locale_le a.id b.id) rows in
    ok (record {
      rationale = join "; " (map (λ (r : GateFailureRow). cited r) sorted);
      gate_failure_ids = map (λ (r : GateFailureRow). r.id) sorted;
    })
