-- ===== src/EventStore/Emit.antt =====
-- `policy_event` and `cmd_emit_policy_decision` of tools/sourceos_eventctl.py. The texts of uuid4 and
-- the time are arguments.
use sourceos_syncd.Prelude.{
  String, ◌<>◌, false, Option, none, some, List, [], ◌∷◌, ◌==◌, string_eq, if◌then◌else◌,
}
use sourceos_syncd.Prelude.Signed.{pos}
use sourceos_syncd.Json.{Json, null, bool, int, str, arr, obj, nil, Object, fields}
use sourceos_syncd.Evidence.{shortened}
use sourceos_syncd.EventStore.{Line, Exit, succeeded, failed, append_event}

-- The arguments that the event is made from.
pub record PolicyArgs : Type 0 where
  pub actor : String
  pub actor_id : String
  pub actor_type : String
  pub authority_domain : String
  pub explanation_code : String
  pub fingerprint : String
  pub host_id : String
  pub next_action : String
  pub operation : String
  pub outcome : String
  pub parent_event_id : Option String
  pub policy_bundle : String
  pub policy_rule : String
  pub result : String
  pub risk : String
  pub root_event_id : Option String
  pub session_id : Option String
  pub severity : String
  pub subject : String
  pub subject_id : String
  pub subject_type : String
  pub summary : String
  pub target_class : String
  pub trace_id : Option String
  pub why : String

abbrev pub opt_str : Option String → Json
opt_str none = null
opt_str (some s) = str s

-- `d if v is None else v`
abbrev pub given : Option String → String → String
given none d = d
given (some s) d = s

-- `v or d`
abbrev pub given_text : Option String → String → String
given_text none d = d
given_text (some s) d = if s == "" then d else s

abbrev pub dict : Object → Json
dict d = obj (fields d)

unfoldable pub policy_event : PolicyArgs → String → String → String → String → String → Object
unfolding shortened fields
policy_event a now event_hex span_hex trace_hex decision_hex =
    let event_id = "evt_" <> event_hex in
    ("schema_version", str "sourceos.event.v0.1")
    ∷ ("event_id", str event_id)
    ∷ ("event_class", str "policy.decision")
    ∷ ("lane", str "policy")
    ∷ ("severity", str a.severity)
    ∷ ("outcome", str a.outcome)
    ∷ ("created_at", str now)
    ∷ ("observed_at_monotonic_ns", int (pos 0))
    ∷ (
      "host",
      dict (
          ("host_id", str a.host_id)
          ∷ ("platform", str "sourceos")
          ∷ ("kernel", str "unknown")
          ∷ ("privacy_zone", str "user_private")
          ∷ []),
    )
    ∷ (
      "actor",
      dict (
          ("actor_id", str a.actor_id)
          ∷ ("actor_type", str a.actor_type)
          ∷ ("display_name", str a.actor)
          ∷ ("uid", null)
          ∷ ("session_id", opt_str a.session_id)
          ∷ ("authority_domain", str a.authority_domain)
          ∷ []),
    )
    ∷ (
      "causality",
      dict (
          ("parent_event_id", opt_str a.parent_event_id)
          ∷ ("root_event_id", str (given a.root_event_id event_id))
          ∷ ("span_id", str ("span_" <> shortened 12 span_hex))
          ∷ ("trace_id", str (given_text a.trace_id ("trace_" <> trace_hex)))
          ∷ []),
    )
    ∷ (
      "subject",
      dict (
          ("type", str a.subject_type)
          ∷ ("id", str a.subject_id)
          ∷ ("display", str a.subject)
          ∷ []),
    )
    ∷ (
      "decision",
      dict (
          ("decision_id", str ("dec_" <> decision_hex))
          ∷ ("policy_bundle", str a.policy_bundle)
          ∷ ("policy_rule", str a.policy_rule)
          ∷ ("operation", str a.operation)
          ∷ ("target_class", str a.target_class)
          ∷ ("result", str a.result)
          ∷ ("semantic_outcome", str a.outcome)
          ∷ ("explanation_code", str a.explanation_code)
          ∷ []),
    )
    ∷ (
      "trust",
      dict (
          ("mode", str "local_first")
          ∷ ("signature_state", str "not_applicable")
          ∷ ("package_origin", str "unknown")
          ∷ ("content_hash", null)
          ∷ ("attestation_state", str "not_applicable")
          ∷ ("network_lookup", str "not_attempted")
          ∷ []),
    )
    ∷ (
      "noise_control",
      dict (
          ("event_fingerprint", str a.fingerprint)
          ∷ ("first_seen", str now)
          ∷ ("last_seen", str now)
          ∷ ("count", int (pos 1))
          ∷ ("suppressed_count", int (pos 0))
          ∷ ("coalesce_window_ms", int (pos 1))
          ∷ []),
    )
    ∷ (
      "privacy",
      dict (
          ("tier", str "user_private")
          ∷ ("redaction_policy", str "preserve_causality")
          ∷ ("secret_fields", arr nil)
          ∷ []),
    )
    ∷ ("evidence", arr nil)
    ∷ (
      "operator_narrative",
      dict (
          ("summary", str a.summary)
          ∷ ("risk", str a.risk)
          ∷ ("why", str a.why)
          ∷ ("next_action", str a.next_action)
          ∷ []),
    )
    ∷ (
      "sync",
      dict (
          ("replication_policy", str "local_only")
          ∷ ("retention_class", str "standard")
          ∷ ("exportable", bool false)
          ∷ []),
    )
    ∷ []

-- With a store the valid event is appended, without one it is printed.
abbrev pub emit_valid : Option (List Line) → Option Object → Option (List Line) × Exit
emit_valid store none = (store, failed)
emit_valid none (some e) = (none, succeeded)
emit_valid (some store) (some e) = (some (append_event store e), succeeded)

unfoldable pub cmd_emit_policy_decision :
    (Object → List String) → Object → Option (List Line) → Option (List Line) × Exit
unfolding append_event
cmd_emit_policy_decision validate_event_obj e store =
    emit_valid store (elim (validate_event_obj e) [ [] ↦ some e | _ ∷ _ ↦ none ])
