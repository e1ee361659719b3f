-- ===== src/Normalizer.antt =====
-- tools/sourceos_policy_normalizer.py: the registry of explanation codes, what an observation may claim
-- against it, and the commands. The registry and the observation are records with the fields that their
-- schemas demand: the third-party validator of the schemas is a parameter, by what it makes of a file.
pub mod Event
pub mod Faithful
pub mod Index
use sourceos_syncd.Prelude.{
  ℕ, String, Bool, true, false, not, ◌||◌, ◌&&◌, Option, none, some, List, [], ◌∷◌, ◌++◌, ◌==◌,
  string_eq, contains, leb, if◌then◌else◌,
}
use sourceos_syncd.Prelude.Dict
use sourceos_syncd.Prelude.Dict.{Dict}
use sourceos_syncd.Json.{Json, Object}

pub data SeverityLevel : Type 0 where
  trace debug info notice warning error critical : SeverityLevel

unfoldable pub severity_order : SeverityLevel → ℕ
severity_order trace = 0
severity_order debug = 1
severity_order info = 2
severity_order notice = 3
severity_order warning = 4
severity_order error = 5
severity_order critical = 6

unfoldable pub severity_text : SeverityLevel → String
severity_text trace = "trace"
severity_text debug = "debug"
severity_text info = "info"
severity_text notice = "notice"
severity_text warning = "warning"
severity_text error = "error"
severity_text critical = "critical"

-- An entry of the registry: schemas/sourceos.policy-explanation-registry.v0.1.
pub record RegistryEntry : Type 0 where
  pub code : String
  pub result : String
  pub semantic_outcome : String
  pub severity : SeverityLevel
  pub risk : String
  pub default_summary : String
  pub default_why : String
  pub default_next_action : String
  pub allowed_operation_classes : List String
  pub allowed_target_classes : List String
  pub allow_stricter_severity : Option Bool

-- Parts of an observation: schemas/sourceos.policy-observation.v0.1. `none` is a member that is missing,
-- or null where the schema admits that; the code reads these alike.
pub record Actor : Type 0 where
  pub actor_id : String
  pub actor_type : String
  pub display_name : String
  pub uid : Json
  pub session_id : Option String
  pub authority_domain : Option String

pub record Causality : Type 0 where
  pub parent_event_id : Option String
  pub root_event_id : Option String
  pub trace_id : Option String
  pub span_id : Option String

pub record Privacy : Type 0 where
  pub tier : Option String
  pub redaction_policy : Option String
  pub secret_fields : Option (List String)

pub record EvidenceItem : Type 0 where
  pub evidence_id : String
  pub source : String
  pub raw_ref : Option String
  pub summary : String

pub record Observation : Type 0 where
  pub observation_id : String
  pub explanation_code : String
  pub policy_bundle : Option String
  pub policy_rule : Option String
  pub actor : Actor
  pub subject : Object
  pub operation : String
  pub target_class : String
  pub result : String
  pub semantic_outcome : Option String
  pub severity : Option SeverityLevel
  pub risk : Option String
  pub summary : Option String
  pub why : Option String
  pub next_action : Option String
  pub causality : Causality
  pub privacy : Privacy
  pub evidence : List EvidenceItem

-- What a file holds: JSON but no object, an object with the schema's errors, or a record.
pub data FromFile {ℓ} (A : Type ℓ) : Type ℓ where
  not_an_object : FromFile A
  invalid : String → List String → FromFile A
  valid : A → FromFile A

pub data RegistryError : Type 0 where
  not_json_object : RegistryError
  schema_errors : String → List String → RegistryError
  duplicate_code : String → RegistryError

-- The loop of `load_registry`: of two entries with one code the later stays, and the code is reported.
unfoldable pub index_codes :
    List RegistryEntry
    → Dict RegistryEntry
    → List RegistryError
    → Dict RegistryEntry × List RegistryError
unfolding Dict.has Dict.put
index_codes [] codes errors = (codes, errors)
index_codes (e ∷ es) codes errors =
    index_codes es (Dict.put e.code e codes)
      (if Dict.has e.code codes then errors ++ duplicate_code e.code ∷ [] else errors)

unfoldable pub load_registry :
    FromFile (List RegistryEntry) → Dict RegistryEntry × List RegistryError
unfolding index_codes
load_registry not_an_object = ([], not_json_object ∷ [])
load_registry (invalid m ms) = ([], schema_errors m ms ∷ [])
load_registry (valid es) = index_codes es [] []

unfoldable pub matches_allowed : String → List String → Bool
matches_allowed value allowed = contains allowed "*" || contains allowed value

unfoldable pub stricter_or_equal : SeverityLevel → SeverityLevel → Bool
unfolding severity_order
stricter_or_equal candidate baseline = leb (severity_order baseline) (severity_order candidate)

pub data SemanticError : Type 0 where
  result_contradicts outcome_contradicts severity_fixed severity_weaker : SemanticError
  risk_contradicts operation_refused target_refused : SemanticError

abbrev pub report_if : Bool → SemanticError → List SemanticError
report_if b m = if b then m ∷ [] else []

-- `k in obs and obs[k] != v`
abbrev pub contradicts : Option String → String → Bool
contradicts none v = false
contradicts (some u) v = not (u == v)

-- `entry.get(k, True)`
abbrev pub or_true : Option Bool → Bool
or_true none = true
or_true (some b) = b

unfoldable pub severity_errors : Option SeverityLevel → RegistryEntry → List SemanticError
unfolding severity_text stricter_or_equal
severity_errors none e = []
severity_errors (some s) e =
    if severity_text s == severity_text e.severity
    then []
    else if not (or_true e.allow_stricter_severity)
    then severity_fixed ∷ []
    else report_if (not (stricter_or_equal s e.severity)) severity_weaker

unfoldable pub validate_observation_semantics : Observation → RegistryEntry → List SemanticError
unfolding severity_errors matches_allowed
validate_observation_semantics o e =
    report_if (not (o.result == e.result)) result_contradicts
    ++ report_if (contradicts o.semantic_outcome e.semantic_outcome) outcome_contradicts
    ++ severity_errors o.severity e
    ++ report_if (contradicts o.risk e.risk) risk_contradicts
    ++ report_if (not (matches_allowed o.operation e.allowed_operation_classes)) operation_refused
    ++ report_if (not (matches_allowed o.target_class e.allowed_target_classes)) target_refused

unfoldable pub load_valid_observation : FromFile Observation → Option Observation
load_valid_observation not_an_object = none
load_valid_observation (invalid m ms) = none
load_valid_observation (valid o) = some o

abbrev pub if_clean {ℓ} : {A B : Type ℓ} → List A → B → Option B
if_clean [] b = some b
if_clean (m ∷ ms) b = none

abbrev pub check_entry : Observation → Option RegistryEntry → Option (Observation × RegistryEntry)
check_entry o none = none
check_entry o (some e) = if_clean (validate_observation_semantics o e) (o, e)

abbrev pub check_against :
    Dict RegistryEntry → Option Observation → Option (Observation × RegistryEntry)
check_against codes none = none
check_against codes (some o) = check_entry o (Dict.get o.explanation_code codes)

abbrev pub if_loaded :
    List RegistryError → Option (Observation × RegistryEntry) → Option (Observation × RegistryEntry)
if_loaded [] checked = checked
if_loaded (m ∷ ms) checked = none

-- The checks that `cmd_validate_observation` and `cmd_normalize` share; `none` is the exit code 1.
unfoldable pub accept :
    FromFile (List RegistryEntry) → FromFile Observation → Option (Observation × RegistryEntry)
unfolding load_registry load_valid_observation validate_observation_semantics Dict.get
accept registry observation =
    if_loaded (load_registry registry).1
      (check_against (load_registry registry).0 (load_valid_observation observation))

unfoldable pub cmd_validate_registry : FromFile (List RegistryEntry) → Bool
unfolding load_registry
cmd_validate_registry registry = elim (load_registry registry).1 [ [] ↦ true | _ ∷ _ ↦ false ]

unfoldable pub cmd_validate_observation :
    FromFile (List RegistryEntry) → FromFile Observation → Bool
unfolding accept
cmd_validate_observation registry observation = elim (accept registry observation) [
  | none ↦ false
  | some _ ↦ true
]
