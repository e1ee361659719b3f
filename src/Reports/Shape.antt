-- ===== src/Reports/Shape.antt =====
-- The constants of reports.py, and the texts that it looks into.
use Prim.Native.Char.{code}
use sourceos_syncd.Prelude.{
  ℕ, ◌+◌, ◌-◌, ◌*◌, String, Bool, not, ◌&&◌, ◌||◌, Option, none, some, List, [], ◌∷◌, ◌==◌,
  string_eq, leb, nat_beq, if◌then◌else◌, starts_with,
}
use sourceos_syncd.Json.{Object, get_json, is_text}
use sourceos_syncd.Reports.Checks.{Found, ◌also◌, flag, lacks, about, is_arr}

abbrev pub state_schema : String
state_schema = "sourceos.state-integrity-report/v1alpha1"

abbrev pub repair_schema : String
repair_schema = "sourceos.repair-plan/v1alpha1"

abbrev pub required_top_level_keys : List String
required_top_level_keys =
    "schema" ∷ "generated_at" ∷ "identity" ∷ "collection" ∷ "runtime" ∷ "stores" ∷ "lanes"
    ∷ "pipeline" ∷ "resources" ∷ "policy" ∷ "invariants" ∷ "diagnosis" ∷ "controls" ∷ "attestation"
    ∷ []

abbrev pub required_identity_keys : List String
required_identity_keys =
    "component" ∷ "repo" ∷ "pid" ∷ "process_name" ∷ "node_id_hash" ∷ "version" ∷ "platform"
    ∷ "service_manager" ∷ []

abbrev pub required_collection_keys : List String
required_collection_keys =
    "status" ∷ "errors" ∷ "redacted_fields" ∷ "permission_denied_fields" ∷ "timed_out_fields"
    ∷ "unavailable_fields" ∷ []

abbrev pub required_store_keys : List String
required_store_keys =
    "name" ∷ "role" ∷ "backend" ∷ "schema_version" ∷ "runtime_version" ∷ "migration_state"
    ∷ "checksum_state" ∷ []

abbrev pub required_lane_keys : List String
required_lane_keys = "name" ∷ "status" ∷ "sla" ∷ "objects" ∷ "journal" ∷ "maintenance" ∷ []

abbrev pub required_invariant_keys : List String
required_invariant_keys = "id" ∷ "status" ∷ "severity" ∷ "evidence" ∷ "remediation" ∷ []

abbrev pub required_repair_keys : List String
required_repair_keys =
    "schema" ∷ "generated_at" ∷ "source_report" ∷ "plan_id" ∷ "status" ∷ "severity" ∷ "summary"
    ∷ "policy" ∷ "preconditions" ∷ "checkpoint" ∷ "steps" ∷ "blocked_steps" ∷ "rollback"
    ∷ "postconditions" ∷ []

abbrev pub collection_statuses : List String
collection_statuses = "complete" ∷ "partial" ∷ "failed" ∷ []

abbrev pub store_roles : List String
store_roles =
    "active" ∷ "shadow" ∷ "migration" ∷ "archive" ∷ "repair" ∷ "retired" ∷ "quarantined"
    ∷ "rebuilding" ∷ []

abbrev pub migration_states : List String
migration_states =
    "none" ∷ "pending" ∷ "lazy" ∷ "running" ∷ "complete" ∷ "failed" ∷ "rollback_available" ∷ []

abbrev pub checksum_states : List String
checksum_states = "verified" ∷ "unverified" ∷ "mismatch" ∷ "unsupported" ∷ []

abbrev pub lane_statuses : List String
lane_statuses = "active" ∷ "dormant" ∷ "degraded" ∷ "repairing" ∷ "retired" ∷ "unsafe" ∷ []

abbrev pub pressure_states : List String
pressure_states = "none" ∷ "watch" ∷ "warning" ∷ "critical" ∷ "unknown" ∷ []

abbrev pub invariant_statuses : List String
invariant_statuses = "pass" ∷ "warn" ∷ "fail" ∷ []

abbrev pub severities : List String
severities = "info" ∷ "warning" ∷ "error" ∷ "critical" ∷ []

abbrev pub repair_statuses : List String
repair_statuses = "preview" ∷ "approved" ∷ "running" ∷ "complete" ∷ "failed" ∷ "rolled_back" ∷ []

-- `s.endswith(t)`
unfoldable pub has_suffix : String → String → Bool
has_suffix t String.[] = t == ""
has_suffix t (String.◌∷◌ c s) = String.◌∷◌ c s == t || has_suffix t s

-- `t in s`
unfoldable pub has_infix : String → String → Bool
has_infix t String.[] = t == ""
has_infix t (String.◌∷◌ c s) = starts_with (String.◌∷◌ c s) t || has_infix t s

unfoldable pub hex_digit : ℕ → Option ℕ
hex_digit n =
    if leb b'0' n && leb n b'9'
    then some (n - b'0')
    else if leb b'a' n && leb n b'f'
    then some (n - b'a' + 10)
    else if leb b'A' n && leb n b'F'
    then some (n - b'A' + 10)
    else none

-- The digits that are left: `$` lets one line break stand behind them.
unfoldable pub hex_rest : String → ℕ → Option ℕ
unfolding hex_digit
hex_rest String.[] acc = some acc
hex_rest (String.◌∷◌ c s) acc = elim (hex_digit (code c)) [
  | some d ↦ hex_rest s (acc * 16 + d)
  | none ↦ if nat_beq (code c) 10 && s == "" then some acc else none
]

unfoldable pub hex_digits : String → Option ℕ
unfolding hex_rest
hex_digits String.[] = none
hex_digits (String.◌∷◌ c s) = elim (hex_digit (code c)) [ none ↦ none | some d ↦ hex_rest s d ]

-- `int(s, 16)` of a text that `HEX_RE` matches, `none` if it does not.
unfoldable pub hex_value : String → Option ℕ
unfolding hex_digits
hex_value (String.◌∷◌ a (String.◌∷◌ b s)) =
    if nat_beq (code a) b'0' && nat_beq (code b) b'x' then hex_digits s else none
hex_value s = none

unfoldable pub validate_shape : Object → Found
unfolding flag lacks get_json is_text is_arr
validate_shape r =
    flag (lacks r required_top_level_keys) (about "top-level keys" "are missing")
    also flag (not (is_text state_schema (get_json "schema" r))) (about "schema" "unsupported")
    also flag (not (is_arr (get_json "lanes" r))) (about "lanes" "must be a list")
    also flag (not (is_arr (get_json "stores" r))) (about "stores" "must be a list")
