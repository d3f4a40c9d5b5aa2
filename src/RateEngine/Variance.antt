-- ===== src/RateEngine/Variance.antt =====
-- Variances of groups of charges (rate-engine/attribute-grouped-variance.ts). A thrown error is its
-- message. `toUpperCase` goes by Unicode's tables and `localeCompare` by ICU's: parameters.
use freight_auditor.Prelude.{
  String, ◌==◌, Bool, true, false, not, ◌&&◌, ◌||◌, Option, none, some, List, [], ◌∷◌, ◌++◌, map,
  all, if◌then◌else◌, includes, sort_by, Result, ok, ◌>>=◌, ◌>>◌, throw_if, need, trim,
  is_currency_code,
}
use Prim.Native.String
use freight_auditor.Money.{Decimal}

pub record VarianceMember : Type 0 where
  pub id : String
  pub amount : String
  pub currency : String

pub data Level : Type 0 where
  group invoice : Level

pub record VarianceAttributionRequest : Type 0 where
  pub level : Level
  pub key : String
  pub billed : List VarianceMember
  pub expected : List VarianceMember

pub data VarianceDirection : Type 0 where
  overcharge undercharge conformed : VarianceDirection

pub record VarianceAttribution : Type 0 where
  pub level : Level
  pub key : String
  pub currency : String
  pub billed_ids : List String
  pub expected_ids : List String
  pub billed_total : String
  pub expected_total : String
  pub variance_amount : String
  pub direction : VarianceDirection

pub data IssueReason : Type 0 where
  missing_side currency_mismatch : IssueReason

pub record VarianceAttributionIssue : Type 0 where
  pub level : Level
  pub key : String
  pub reason : IssueReason

abbrev pub level_text : Level → String
level_text group = "GROUP"
level_text invoice = "INVOICE"

abbrev pub scoped : Level → String → String
scoped level key = String.◌++◌ (level_text level) (String.◌++◌ "|" key)

abbrev pub no_members : List VarianceMember → Bool
no_members [] = true
no_members _ = false

module _ (d : Decimal) (upper : String → String) (locale_le : String → String → Bool)
    (code_unit_le : String → String → Bool) where
  abbrev pub currency_of : VarianceMember → String
  currency_of m = upper (trim m.currency)

  -- The one currency of the members, when there is exactly one and it is a code.
  unfoldable pub common_currency : List VarianceMember → Option String
  common_currency [] = none
  common_currency (m ∷ ms) =
      let c = currency_of m in
      if all (λ (x : VarianceMember). currency_of x == c) ms && is_currency_code c
      then some c
      else none

  -- The ids seen, the members' own added.
  unfoldable pub claim_ids :
      String → List VarianceMember → List String → Result String (List String)
  claim_ids scoped_key [] seen = ok seen
  claim_ids scoped_key (m ∷ ms) seen = do
    let id = trim m.id
    throw_if (id == "") (String.◌++◌ "member id is required for " scoped_key)
    throw_if (includes id seen) (String.◌++◌ "member appears in multiple attributions: " id)
    claim_ids scoped_key ms (id ∷ seen)

  abbrev pub invalid : VarianceMember → String
  invalid m = String.◌++◌ "invalid member amount: " m.id

  unfoldable pub parse_member : VarianceMember → Result String d.D
  parse_member m = do
    value ← need (d.new_decimal m.amount) (invalid m)
    throw_if (not (d.is_finite value) || d.is_negative value) (invalid m)
    ok value

  unfoldable pub total : List VarianceMember → d.D → Result String d.D
  total [] sum = ok sum
  total (m ∷ ms) sum = parse_member m >>= λ x. total ms (d.plus sum x)

  unfoldable pub direction_of : d.D → VarianceDirection
  direction_of v =
      if d.is_positive v then overcharge else if d.is_negative v then undercharge else conformed

  abbrev pub ids_of : List VarianceMember → List String
  ids_of ms = sort_by code_unit_le (map (λ (m : VarianceMember). trim m.id) ms)

  unfoldable pub attribution :
      VarianceAttributionRequest → String → String → d.D → d.D → VarianceAttribution
  attribution q key currency billed expected =
      let v = d.round4 (d.minus billed expected) in
      record {
        level = q.level;
        key = key;
        currency = currency;
        billed_ids = ids_of q.billed;
        expected_ids = ids_of q.expected;
        billed_total = d.to_fixed (d.round4 billed);
        expected_total = d.to_fixed (d.round4 expected);
        variance_amount = d.to_fixed v;
        direction = direction_of v;
      }

  abbrev pub Attributed : Type 0
  Attributed = List VarianceAttribution × List VarianceAttributionIssue

  abbrev pub with_issue : VarianceAttributionIssue → Attributed → Attributed
  with_issue i r = (r.0, i ∷ r.1)

  abbrev pub with_attribution : VarianceAttribution → Attributed → Attributed
  with_attribution a r = (a ∷ r.0, r.1)

  abbrev pub issue : VarianceAttributionRequest → String → IssueReason → VarianceAttributionIssue
  issue q key reason = record { level = q.level; key = key; reason = reason }

  -- The attribution of a request with a currency, and then the rest with the ids that are now taken.
  unfoldable pub attribute_group :
      VarianceAttributionRequest
      → String
      → String
      → List String
      → (List String → Result String Attributed)
      → Result String Attributed
  attribute_group q key currency ids rest =
      claim_ids (scoped q.level key) (q.billed ++ q.expected) ids >>= λ seen.
      total q.billed d.zero >>= λ billed. total q.expected d.zero >>= λ expected.
      rest seen >>= λ r. ok (with_attribution (attribution q key currency billed expected) r)

  -- The loop, with the keys and the member ids that it has seen.
  unfoldable pub attribute_from :
      List VarianceAttributionRequest → List String → List String → Result String Attributed
  attribute_from [] keys ids = ok ([], [])
  attribute_from (q ∷ qs) keys ids =
      let key = trim q.key in
      let scoped_key = scoped q.level key in
      let skipped = attribute_from qs (scoped_key ∷ keys) ids in
      throw_if (key == "") "attribution key is required"
      >> throw_if (includes scoped_key keys) (String.◌++◌ "duplicate attribution key: " scoped_key)
      >> elim (no_members q.billed || no_members q.expected) [
        | true ↦ skipped >>= λ r. ok (with_issue (issue q key missing_side) r)
        | false ↦ elim (common_currency (q.billed ++ q.expected)) [
          | none ↦ skipped >>= λ r. ok (with_issue (issue q key currency_mismatch) r)
          | some currency ↦
              attribute_group q key currency ids
                (λ seen. attribute_from qs (scoped_key ∷ keys) seen)
        ]
      ]

  unfoldable pub attribute_grouped_variance :
      List VarianceAttributionRequest → Result String Attributed
  attribute_grouped_variance requests =
      attribute_from
        (sort_by
          (λ (a b : VarianceAttributionRequest).
            locale_le (scoped a.level a.key) (scoped b.level b.key))
          requests)
        [] []
