-- ===== src/Rubric/Standard.antt =====
-- The STANDARD rubric (rubric-resolver/standard-rubric.ts) and the CONTRACT rubric on top of it
-- (rubric-resolver/contract-rubric.ts).
use freight_auditor.Prelude.{ℕ, String, true, false, Option, none, some, List, [], ◌∷◌, ◌++◌}
use Prim.Native.String
use freight_auditor.Money.{Decimal}
use freight_auditor.RuleEngine.Ast.{
  eq, gt, approx, LitValue, lit_number, lit_bool, AstNode, lit, fact, compare_node, require,
}

pub data CriterionKind : Type 0 where
  gating scoring : CriterionKind

module _ (d : Decimal) where
  pub record StandardCriterion : Type 0 where
    pub criterion_key : String
    pub kind : CriterionKind
    pub description : String
    pub eval_order : ℕ
    pub ast : AstNode d
    pub citation : Option String

  pub record ComposedRubric : Type 0 where
    pub resolver_version : String
    pub criteria : List StandardCriterion

  abbrev gate : String → ℕ → String → String → AstNode d → StandardCriterion
  gate key order description citation ast = record {
    criterion_key = key;
    kind = gating;
    description = description;
    eval_order = order;
    ast = ast;
    citation = some citation;
  }

  abbrev score : String → ℕ → String → AstNode d → StandardCriterion
  score key order description ast = record {
    criterion_key = key;
    kind = scoring;
    description = description;
    eval_order = order;
    ast = ast;
    citation = none;
  }

  -- `{ type: 'compare', op: 'eq', left: <fact key>, right: <lit> }`.
  abbrev pub fact_is : String → LitValue d → AstNode d
  fact_is key value = compare_node eq (fact key) (lit value) none

  abbrev pub is_true : String → AstNode d
  is_true key = fact_is key (lit_bool true)

  -- A row of the table of required 310 fields.
  abbrev ocean_gate : String → ℕ → String → String → StandardCriterion
  ocean_gate key order fact_key field =
      gate key order (String.◌++◌ "EDI 310 states its " (String.◌++◌ field "."))
        (String.◌++◌ "Ocean freight invoice must state " (String.◌++◌ field ".")) (is_true fact_key)

  abbrev pub footing_ast : AstNode d
  footing_ast =
      require "declared_total"
        (compare_node approx (fact "declared_total") (fact "line_sum") (some "0.01"))

  unfoldable pub standard_gates : List StandardCriterion
  standard_gates =
      gate "STD.FOOTING" 10
        "Declared invoice total foots to the sum of line charges within tolerance."
        "Invoice total (B3-07) must equal the sum of billed line items (ΣL1-04)." footing_ast
      ∷ gate "STD.CURRENCY_STATED" 20
          "Every charge states a currency (never defaulted — critical for ocean/310)."
          "Each charge must state its currency (C3 / L1-20); defaulting is not permitted."
          (is_true "all_currencies_stated")
      ∷ gate "STD.AMOUNT_STATED" 25
          "Every charge has a parseable amount (never guessed — a malformed L1-04 is a structural defect)."
          "Each charge line must state a numeric amount (L1-04); an unparseable value cannot be certified."
          (is_true "all_amounts_stated")
      ∷ gate "STD.HAS_CHARGES" 30
          "Invoice carries at least one charge line (required segment presence)."
          "Invoice must contain at least one billable charge line (L1)."
          (compare_node gt (fact "charge_count") (lit (lit_number (d.of_count 0))) none)
      ∷ gate "STD.210.INVOICE_NUMBER_REQUIRED" 32 "EDI 210 states its invoice number in B3-02."
          "Motor-carrier invoice must state B3-02 invoice number."
          (is_true "required_210_invoice_number")
      ∷ gate "STD.210.SHIPMENT_ID_REQUIRED" 34
          "EDI 210 states its shipment identification in B3-03."
          "Motor-carrier invoice must state B3-03 shipment identification."
          (is_true "required_210_shipment_id")
      ∷ gate "STD.210.SCAC_REQUIRED" 36 "EDI 210 states its carrier SCAC in B3-11."
          "Motor-carrier invoice must state B3-11 Standard Carrier Alpha Code."
          (is_true "required_210_scac")
      ∷ ocean_gate "STD.310.INVOICE_NUMBER_REQUIRED" 38 "required_310_invoice_number"
          "B3-02 invoice number"
      ∷ ocean_gate "STD.310.REFERENCE_REQUIRED" 40 "required_310_reference" "N9 shipment reference"
      ∷ ocean_gate "STD.310.CONTAINER_REQUIRED" 42 "required_310_container" "N7 container identity"
      ∷ ocean_gate "STD.310.VESSEL_VOYAGE_REQUIRED" 44 "required_310_vessel_voyage"
          "V1 vessel/voyage"
      ∷ ocean_gate "STD.310.PORTS_REQUIRED" 46 "required_310_ports"
          "origin and destination R4 ports"
      ∷ gate "STD.310.CHARGE_IDENTITY_REQUIRED" 48
          "Every EDI 310 charge has a charge code or source description."
          "Each ocean charge must be identifiable from L1-08 or L1-12."
          (is_true "required_310_charge_identity")
      ∷ gate "STD.310.CURRENCY_CODE_VALID" 50
          "Every EDI 310 charge currency is a normalized three-letter ISO code."
          "Ocean charge currencies from C3/L1-20 must be normalized ISO-4217 codes."
          (is_true "valid_310_currency_codes")
      ∷ []

  unfoldable pub standard_scores : List StandardCriterion
  standard_scores =
      score "STD.NO_QUARANTINED_CODES" 100
        "All charge codes resolved to a canonical category via the crosswalk."
        (fact_is "quarantined_count" (lit_number (d.of_count 0)))
      ∷ score "STD.FUEL_PRESENT" 110
          "A fuel surcharge is present (categorized FUEL via crosswalk, never by raw code)."
          (is_true "has_fuel_category")
      ∷ score "STD.DUPLICATE_INVOICE" 120
          "Invoice number has not already been billed for this tenant and transaction set."
          (require "duplicate_invoice" (fact_is "duplicate_invoice" (lit_bool false)))
      ∷ score "STD.SHIPMENT_REFERENCE_MATCH" 130
          "At least one stated shipment reference matches a shipment belonging to this tenant."
          (require "shipment_reference_match" (is_true "shipment_reference_match"))
      ∷ score "STD.RATE_BASIS_ARITHMETIC" 140
          "Every charge stating rate/basis has amount equal to rate × basis within one cent."
          (require "rate_basis_arithmetic_matches" (is_true "rate_basis_arithmetic_matches"))
      ∷ score "STD.310.CURRENCY_CONSISTENCY" 150
          "EDI 310 charge currencies are consistent for invoice-level aggregation."
          (is_true "consistent_310_charge_currencies")
      ∷ score "STD.SUSPICIOUS_MISSING_DATA" 160
          "No otherwise-valid charge carries a suspicious verification-data gap."
          (fact_is "suspicious_missing_data_count" (lit_number (d.of_count 0)))
      ∷ []

  unfoldable pub standard_rubric : ComposedRubric
  standard_rubric = record {
    resolver_version = "standard-resolver-v2";
    criteria = standard_gates ++ standard_scores;
  }

  unfoldable pub rate_variance_criterion : StandardCriterion
  rate_variance_criterion =
      score "CONTRACT.RATE_VARIANCE" 200
        "Billed linehaul charge matches the contracted rate within tolerance, in the same currency."
        (require "billed_linehaul" (
          require "contract_linehaul_rate" (
            require "linehaul_currencies_match" (
              compare_node approx (fact "billed_linehaul") (fact "contract_linehaul_rate")
                (some "0.01")))))

  unfoldable pub contract_rubric : ComposedRubric
  contract_rubric = record {
    resolver_version = "contract-resolver-v1";
    criteria = standard_rubric.criteria ++ (rate_variance_criterion ∷ []);
  }

abbrev pub engine_spec_version : String
engine_spec_version = "engine-v1"
