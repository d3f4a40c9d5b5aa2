-- ===== src/Evaluator/Invoice.antt =====
-- The parsed invoice (ingestion/charge-fact.ts), and the facts of a contract (evaluator/fact-bundle.ts).
use freight_auditor.Prelude.{String, Bool, Option, List}

pub record NormalizedCharge : Type 0 where
  pub code : Option String
  pub x12_element : Option String
  pub category : Option String
  pub quarantined : Bool
  pub amount : Option String
  pub currency : String
  pub basis : Option String
  pub rate : Option String
  pub raw_description : Option String
  pub source_loop : Option String

pub data TransactionSet : Type 0 where
  motor_210 ocean_310 pdf : TransactionSet

pub record Footing : Type 0 where
  pub declared_total : Option String
  pub line_sum : String

pub record ParsedInvoice : Type 0 where
  pub transaction_set : TransactionSet
  pub parser_version : String
  pub invoice_number : Option String
  pub shipment_references : List String
  pub carrier_code : Option String
  pub container_numbers : List String
  pub vessel_voyage : Option String
  pub port_codes : List String
  pub header_currency : Option String
  pub charges : List NormalizedCharge
  pub footing : Option Footing
  pub quarantined_codes : List String

pub record ContractRate : Type 0 where
  pub amount : String
  pub currency : String
  pub clause_id : Option String

-- What an external value resolves to; `value_id` is `pin.externalValueId`.
pub data ExternalValueResolution : Type 0 where
  found : (value value_id resolver_version : String) → ExternalValueResolution
  unavailable : (reason resolver_version : String) → ExternalValueResolution

-- `linehaulRate?: ContractRate | null`.
pub data LinehaulRate : Type 0 where
  not_asked : LinehaulRate
  no_rate : LinehaulRate
  rate_of : ContractRate → LinehaulRate

pub record ContractFacts : Type 0 where
  pub linehaul_rate : LinehaulRate
  pub duplicate_invoice : Option Bool
  pub shipment_reference_match : Option Bool
  pub external_resolutions : List (String × ExternalValueResolution)
