-- ===== src/Evaluator/FactBundle.antt =====
-- The fact bundle of an invoice (evaluator/fact-bundle.ts). An absent optional array is the empty one,
-- which the code treats alike. `externalValueFactKey` lowers and replaces by JavaScript's Unicode
-- tables, and `localeCompare` sorts by those of ICU: both are parameters.
use freight_auditor.Prelude.{
  ℕ, suc, String, ◌==◌, Bool, true, false, not as bool_not, ◌&&◌, ◌||◌, Option, none, some, List,
  [], ◌∷◌, ◌++◌, map, if◌then◌else◌, any, all, keep, length, leb, sort_by, Result, ok, ◌>>=◌, need,
  stated, is_currency_code,
}
use Prim.Native.String
use freight_auditor.Money.{Decimal}
use freight_auditor.RuleEngine.Ast.{
  FactValue, number_fact, string_fact, bool_fact, money_fact, decimal_fact, FactBundle,
}
use freight_auditor.Evaluator.Invoice.{
  NormalizedCharge, TransactionSet, motor_210, ocean_310, pdf, Footing, ParsedInvoice,
  ExternalValueResolution, found, unavailable, LinehaulRate, not_asked, rate_of, ContractFacts,
}

pub data CoverageCode : Type 0 where
  incomplete_rate_basis fuel_without_rate_basis missing_charge_identity : CoverageCode

pub record CoverageMarker : Type 0 where
  pub charge_index : ℕ
  pub code : CoverageCode
  pub missing_fields : List String

abbrev pub is_stated {ℓ} : {A : Type ℓ} → Option A → Bool
is_stated none = false
is_stated (some a) = true

abbrev pub text_is : Option String → String → Bool
text_is none t = false
text_is (some s) t = s == t

abbrev pub or_empty : Option String → String
or_empty none = ""
or_empty (some s) = s

abbrev pub marker : ℕ → CoverageCode → List String → CoverageMarker
marker i c fields = record { charge_index = i; code = c; missing_fields = fields }

-- The gap in the rate and the basis of a charge.
unfoldable pub rate_basis_marker : ℕ → NormalizedCharge → List CoverageMarker
rate_basis_marker i c = elim c.rate [
  | some r ↦ elim c.basis [
    | some b ↦ []
    | none ↦ marker i incomplete_rate_basis ("basis" ∷ []) ∷ []
  ]
  | none ↦ elim c.basis [
    | some b ↦ marker i incomplete_rate_basis ("rate" ∷ []) ∷ []
    | none ↦
        if text_is c.category "FUEL"
        then marker i fuel_without_rate_basis ("rate" ∷ "basis" ∷ []) ∷ []
        else []
  ]
]

abbrev pub has_identity : NormalizedCharge → Bool
has_identity c = stated c.code || stated c.raw_description

unfoldable pub identity_marker : ℕ → NormalizedCharge → List CoverageMarker
identity_marker i c =
    if has_identity c
    then []
    else marker i missing_charge_identity ("code" ∷ "rawDescription" ∷ []) ∷ []

unfoldable pub markers_from : ℕ → List NormalizedCharge → List CoverageMarker
markers_from i [] = []
markers_from i (c ∷ cs) = rate_basis_marker i c ++ (identity_marker i c ++ markers_from (suc i) cs)

unfoldable pub find_coverage_markers : ParsedInvoice → List CoverageMarker
find_coverage_markers inv = markers_from 0 inv.charges

abbrev pub is_set : TransactionSet → TransactionSet → Bool
is_set motor_210 motor_210 = true
is_set ocean_310 ocean_310 = true
is_set pdf pdf = true
is_set _ _ = false

abbrev pub nonempty : List String → Bool
nonempty [] = false
nonempty (x ∷ xs) = true

abbrev pub one_currency : List String → Bool
one_currency [] = true
one_currency (c ∷ cs) = all (λ x. x == c) (c ∷ cs)

-- The charges of the linehaul sum.
abbrev pub is_linehaul : NormalizedCharge → Bool
is_linehaul c = text_is c.category "LINEHAUL" && bool_not c.quarantined && is_stated c.amount

unfoldable pub linehaul_charges : ParsedInvoice → List NormalizedCharge
linehaul_charges inv = keep is_linehaul inv.charges

-- The currency that all of the linehaul charges share.
unfoldable pub billed_currency : List NormalizedCharge → Option String
billed_currency [] = none
billed_currency (c ∷ cs) =
    if all (λ (x : NormalizedCharge). x.currency == c.currency) (c ∷ cs)
    then some c.currency
    else none

unfoldable pub rate_currency : LinehaulRate → Option String
rate_currency (rate_of r) = some r.currency
rate_currency _ = none

unfoldable pub currencies_stated_and_equal : Option String → Option String → Bool
currencies_stated_and_equal (some b) (some r) = bool_not (b == "") && bool_not (r == "") && b == r
currencies_stated_and_equal _ _ = false

module _ (d : Decimal) (external_value_fact_key : String → String)
    (locale_le : String → String → Bool) where
  abbrev pub entry : String → Option (FactValue d) → FactBundle d → FactBundle d
  entry key none facts = facts
  entry key (some v) facts = (key, v) ∷ facts

  abbrev pub parse : String → Result String d.D
  parse s = need (d.new_decimal s) s

  -- `|rate × basis − amount| ≤ 0.01` of one charge.
  unfoldable pub rate_matches : String → String → String → Result String Bool
  rate_matches rate basis amount = parse rate >>= λ r. parse basis >>= λ b. parse amount >>= λ a.
      parse "0.01" >>= λ cent. ok (d.lte (d.abs (d.minus (d.times r b) a)) cent)

  -- `every` stops at the first charge that does not match.
  unfoldable pub all_rates_match : List (String × String × String) → Result String Bool
  all_rates_match [] = ok true
  all_rates_match ((r, b, a) ∷ rest) =
      let others = all_rates_match rest in
      rate_matches r b a >>= λ m. if m then others else ok false

  -- The stated triples, `none` when one of the charges leaves a part out.
  unfoldable pub triples : List NormalizedCharge → Option (List (String × String × String))
  triples [] = some []
  triples (c ∷ cs) = elim c.rate [
    | none ↦ none
    | some r ↦ elim c.basis [
      | none ↦ none
      | some b ↦ elim c.amount [
        | none ↦ none
        | some a ↦ elim (triples cs) [ none ↦ none | some ts ↦ some ((r, b, a) ∷ ts) ]
      ]
    ]
  ]

  abbrev pub match_triples : Option (List (String × String × String)) → Result String (Option Bool)
  match_triples none = ok none
  match_triples (some []) = ok none
  match_triples (some (t ∷ ts)) = all_rates_match (t ∷ ts) >>= λ m. ok (some m)

  unfoldable pub rate_basis_arithmetic_matches : List NormalizedCharge → Result String (Option Bool)
  rate_basis_arithmetic_matches charges =
      match_triples
        (triples (keep (λ (c : NormalizedCharge). is_stated c.rate || is_stated c.basis) charges))

  abbrev pub bool_entry : String → Bool → String × FactValue d
  bool_entry key b = (key, bool_fact b)

  abbrev pub line_sum_of : Option Footing → String
  line_sum_of none = "0.0000"
  line_sum_of (some f) = f.line_sum

  abbrev pub declared_of : Option Footing → Option String
  declared_of none = none
  declared_of (some f) = f.declared_total

  abbrev pub optional_bool : Option Bool → Option (FactValue d)
  optional_bool none = none
  optional_bool (some b) = some (bool_fact b)

  abbrev pub duplicate_of : Option ContractFacts → Option Bool
  duplicate_of none = none
  duplicate_of (some c) = c.duplicate_invoice

  abbrev pub reference_match_of : Option ContractFacts → Option Bool
  reference_match_of none = none
  reference_match_of (some c) = c.shipment_reference_match

  abbrev pub count : ℕ → FactValue d
  count n = number_fact (d.of_count n)

  abbrev pub money_of : ParsedInvoice → String → FactValue d
  money_of inv amount = money_fact amount (or_empty inv.header_currency)

  -- The bundle before external values and linehaul facts, with the line sum and the arithmetic given.
  unfoldable pub base_facts :
      ParsedInvoice → Option ContractFacts → d.D → Option Bool → FactBundle d
  base_facts inv contract line_sum matches =
      let charges = inv.charges in
      let set = inv.transaction_set in
      let currencies = map (λ (c : NormalizedCharge). c.currency) charges in
      let other_210 = bool_not (is_set set motor_210) in
      let other_310 = bool_not (is_set set ocean_310) in
      entry "declared_total"
        (elim (declared_of inv.footing) [ none ↦ none | some t ↦ some (money_of inv t) ])
        (("line_sum", money_of inv (d.to_fixed line_sum))
          ∷ bool_entry "all_currencies_stated"
              (all (λ (c : NormalizedCharge). bool_not (c.currency == "")) charges)
          ∷ bool_entry "all_amounts_stated"
              (all (λ (c : NormalizedCharge). is_stated c.amount) charges)
          ∷ ("charge_count", count (length charges))
          ∷ (
            "quarantined_count",
            count (length (keep (λ (c : NormalizedCharge). c.quarantined) charges)),
          )
          ∷ bool_entry "has_fuel_category"
              (any (λ (c : NormalizedCharge). text_is c.category "FUEL") charges)
          ∷ entry "duplicate_invoice" (optional_bool (duplicate_of contract)) (
              entry "shipment_reference_match" (optional_bool (reference_match_of contract)) (
                entry "rate_basis_arithmetic_matches" (optional_bool matches) (
                  bool_entry "required_210_invoice_number" (other_210 || stated inv.invoice_number)
                  ∷ bool_entry "required_210_shipment_id"
                      (other_210 || nonempty inv.shipment_references)
                  ∷ bool_entry "required_210_scac" (other_210 || stated inv.carrier_code)
                  ∷ bool_entry "required_310_invoice_number"
                      (other_310 || stated inv.invoice_number)
                  ∷ bool_entry "required_310_reference"
                      (other_310 || nonempty inv.shipment_references)
                  ∷ bool_entry "required_310_container"
                      (other_310 || nonempty inv.container_numbers)
                  ∷ bool_entry "required_310_vessel_voyage" (other_310 || stated inv.vessel_voyage)
                  ∷ bool_entry "required_310_ports" (other_310 || leb 2 (length inv.port_codes))
                  ∷ bool_entry "required_310_charge_identity"
                      (other_310 || all has_identity charges)
                  ∷ bool_entry "valid_310_currency_codes"
                      (other_310 || all is_currency_code currencies)
                  ∷ entry "consistent_310_charge_currencies"
                      (if other_310 then none else some (bool_fact (one_currency currencies)))
                      (("suspicious_missing_data_count", count (length (find_coverage_markers inv)))
                        ∷ [])))))

  abbrev pub suffixed : String → String → String
  suffixed key suffix = String.◌++◌ key suffix

  -- The assignments of one external value; a later assignment shadows an earlier one.
  unfoldable pub external_facts : String → ExternalValueResolution → FactBundle d → FactBundle d
  external_facts key (found value id version) facts =
      (suffixed key "_external_value_id", string_fact id)
      ∷ (suffixed key "_resolver_version", string_fact version)
      ∷ (key, decimal_fact value)
      ∷ facts
  external_facts key (unavailable reason version) facts =
      (suffixed key "_resolver_version", string_fact version)
      ∷ (suffixed key "_unavailable_reason", string_fact reason)
      ∷ facts

  abbrev pub all_external : List (String × ExternalValueResolution) → FactBundle d → FactBundle d
  all_external [] facts = facts
  all_external ((source, resolution) ∷ rest) facts =
      all_external rest (external_facts (external_value_fact_key source) resolution facts)

  unfoldable pub sum_amounts : List NormalizedCharge → d.D → Result String d.D
  sum_amounts [] acc = ok acc
  sum_amounts (c ∷ cs) acc = parse (or_empty c.amount) >>= λ x. sum_amounts cs (d.plus acc x)

  -- `billed_linehaul`, as it is written when the charges share a currency.
  unfoldable pub billed_linehaul : List NormalizedCharge → Result String (Option (FactValue d))
  billed_linehaul charges =
      let total = sum_amounts charges d.zero in
      elim (billed_currency charges) [
        | none ↦ ok none
        | some currency ↦ total >>= λ t. ok (some (money_fact (d.to_fixed t) currency))
      ]

  unfoldable pub contract_linehaul_rate : LinehaulRate → Option (FactValue d)
  contract_linehaul_rate (rate_of r) = some (money_fact r.amount r.currency)
  contract_linehaul_rate _ = none

  -- An assignment in front of the bundle: `undefined` takes the key's earlier value away, which the
  -- fact that is read as absent, the empty text, stands for.
  abbrev pub assign : String → Option (FactValue d) → FactBundle d → FactBundle d
  assign key none facts = (key, string_fact "") ∷ facts
  assign key (some v) facts = (key, v) ∷ facts

  unfoldable pub linehaul_facts :
      ParsedInvoice → LinehaulRate → FactBundle d → Result String (FactBundle d)
  linehaul_facts inv not_asked facts = ok facts
  linehaul_facts inv rate facts =
      let charges = linehaul_charges inv in
      let same = currencies_stated_and_equal (billed_currency charges) (rate_currency rate) in
      billed_linehaul charges >>= λ billed. ok (
        assign "linehaul_currencies_match" (if same then some (bool_fact true) else none) (
          assign "contract_linehaul_rate" (contract_linehaul_rate rate)
            (assign "billed_linehaul" billed facts)))

  abbrev pub externals_of : Option ContractFacts → List (String × ExternalValueResolution)
  externals_of none = []
  externals_of (some c) = c.external_resolutions

  abbrev pub linehaul_of : Option ContractFacts → LinehaulRate
  linehaul_of none = not_asked
  linehaul_of (some c) = c.linehaul_rate

  unfoldable pub build_fact_bundle :
      ParsedInvoice → Option ContractFacts → Result String (FactBundle d)
  build_fact_bundle inv contract = rate_basis_arithmetic_matches inv.charges >>= λ matches.
      parse (line_sum_of inv.footing) >>= λ line_sum. linehaul_facts inv (linehaul_of contract) (
        all_external
          (sort_by (λ (a b : String × ExternalValueResolution). locale_le a.0 b.0)
            (externals_of contract))
          (base_facts inv contract line_sum matches))
