-- ===== src/Examples/Normalize.antt =====
-- An agent that was denied a file, and a registry of two codes.
use sourceos_syncd.Prelude.{
  String, string_eq, false, Option, none, some, List, [], ◌∷◌, ◌≡◌, refl, ◌↔◌,
}
use sourceos_syncd.Prelude.Dict
use sourceos_syncd.Json.{Object, null, str}
use sourceos_syncd.Normalizer.{
  SeverityLevel, notice, warning, info, severity_order, severity_text, RegistryEntry, Observation,
  valid, index_codes, load_registry, matches_allowed, stricter_or_equal, severity_errors,
  validate_observation_semantics, load_valid_observation, accept, cmd_validate_observation,
}
use sourceos_syncd.Normalizer.Event.{normalize_observation, cmd_normalize}
use sourceos_syncd.Normalizer.Index.{Listed, load_registry-found_iff}
use sourceos_syncd.Normalizer.Faithful.{IsRegistered, cmd_normalize-IsRegistered}

abbrev denied_entry : RegistryEntry
denied_entry = record {
  code = "FS_READ_DENIED";
  result = "deny";
  semantic_outcome = "blocked_expected";
  severity = notice;
  risk = "low";
  default_summary = "A read was denied.";
  default_why = "The agent has no grant.";
  default_next_action = "Grant the path.";
  allowed_operation_classes = "read" ∷ [];
  allowed_target_classes = "*" ∷ [];
  allow_stricter_severity = none;
}

abbrev fixed_entry : RegistryEntry
fixed_entry = record {
  code = "SYNC_DEFERRED";
  result = "defer";
  semantic_outcome = "degraded";
  severity = warning;
  risk = "medium";
  default_summary = "A sync waits.";
  default_why = "The network is metered.";
  default_next_action = "None.";
  allowed_operation_classes = "*" ∷ [];
  allowed_target_classes = "replica" ∷ [];
  allow_stricter_severity = some false;
}

abbrev codes_file : List RegistryEntry
codes_file = fixed_entry ∷ denied_entry ∷ []

abbrev observed : Option SeverityLevel → Observation
observed severity = record {
  observation_id = "obs_7";
  explanation_code = "FS_READ_DENIED";
  policy_bundle = none;
  policy_rule = none;
  actor = record {
    actor_id = "agent_1";
    actor_type = "agent";
    display_name = "Agent";
    uid = null;
    session_id = none;
    authority_domain = none;
  };
  subject = ("type", str "file") ∷ ("id", str "f_1") ∷ ("display", str "notes") ∷ [];
  operation = "read";
  target_class = "document";
  result = "deny";
  semantic_outcome = none;
  severity = severity;
  risk = some "low";
  summary = none;
  why = none;
  next_action = none;
  causality = record {
    parent_event_id = none;
    root_event_id = none;
    trace_id = none;
    span_id = none;
  };
  privacy = record { tier = none; redaction_policy = none; secret_fields = none };
  evidence = [];
}

abbrev same_text : String → String
same_text s = s

abbrev no_errors : Object → List String
no_errors e = []

abbrev normalized_event : Object
normalized_event =
    normalize_observation same_text (observed (some warning)) denied_entry none "0123456789abcdef"
      "t0" "t1" "t2"

normalized :
    cmd_normalize same_text no_errors none "0123456789abcdef" "t0" "t1" "t2"
      (valid codes_file)
      (valid (observed (some warning)))
    ≡ some normalized_event
unfolding cmd_normalize accept load_registry load_valid_observation validate_observation_semantics
    severity_errors matches_allowed stricter_or_equal severity_order severity_text index_codes
    Dict.get Dict.put Dict.has string_eq
normalized = refl

cmd_normalize-IsRegistered_example :
    IsRegistered same_text no_errors none "0123456789abcdef" "t0" "t1" "t2"
      (valid codes_file)
      (valid (observed (some warning)))
      normalized_event
cmd_normalize-IsRegistered_example =
    cmd_normalize-IsRegistered same_text no_errors none "0123456789abcdef" "t0" "t1" "t2"
      (valid codes_file) (valid (observed (some warning))) normalized_event normalized

weaker-refused : cmd_validate_observation (valid codes_file) (valid (observed (some info))) ≡ false
unfolding cmd_validate_observation accept load_registry load_valid_observation
    validate_observation_semantics severity_errors matches_allowed stricter_or_equal severity_order
    severity_text index_codes Dict.get Dict.put Dict.has string_eq
weaker-refused = refl

codes_file-clean : (load_registry (valid codes_file)).1 ≡ []
unfolding load_registry index_codes Dict.get Dict.put Dict.has string_eq
codes_file-clean = refl

load_registry-found_iff_example :
    (Dict.get "FS_READ_DENIED" (load_registry (valid codes_file)).0 ≡ some denied_entry)
    ↔ (Listed denied_entry codes_file × (denied_entry.code ≡ "FS_READ_DENIED"))
load_registry-found_iff_example =
    load_registry-found_iff codes_file "FS_READ_DENIED" denied_entry codes_file-clean
