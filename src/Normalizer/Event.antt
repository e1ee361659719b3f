-- ===== src/Normalizer/Event.antt =====
-- `event_evidence`, `normalize_observation` and `cmd_normalize` of tools/sourceos_policy_normalizer.py.
-- `str.lower`, the text of uuid4 and what the clock reads the three times are parameters.
use sourceos_syncd.Prelude.{
  String, ◌<>◌, false, Option, none, some, List, [], ◌∷◌, string_eq, contains, map, starts_with,
  if◌then◌else◌,
}
use sourceos_syncd.Prelude.Signed.{pos}
use sourceos_syncd.Json.{Json, null, bool, int, str, arr, Items, nil, cons, Object, fields}
use sourceos_syncd.Evidence.{shortened}
use sourceos_syncd.EventStore.Emit.{opt_str, given, given_text, dict}
use sourceos_syncd.Normalizer.{
  SeverityLevel, severity_text, RegistryEntry, EvidenceItem, Observation, FromFile, accept,
  if_clean,
}

abbrev pub event_evidence_sources : List String
event_evidence_sources =
    "kernel" ∷ "policy-engine" ∷ "trust-engine" ∷ "package-db" ∷ "process-monitor" ∷ "sync-engine"
    ∷ "operator" ∷ "agent" ∷ "raw-log" ∷ "uploaded-macos-log" ∷ "uploaded-airport-log"
    ∷ "uploaded-console-log" ∷ "uploaded-crash-report" ∷ []

abbrev pub normalize_item : EvidenceItem → EvidenceItem
normalize_item i = record {
  evidence_id = i.evidence_id;
  source = if contains event_evidence_sources i.source then i.source else "raw-log";
  raw_ref = i.raw_ref;
  summary = i.summary;
}

abbrev pub evidence_or : Observation → List EvidenceItem → List EvidenceItem
evidence_or o [] =
    record {
      evidence_id = "ev_" <> o.observation_id;
      source = "policy-engine";
      raw_ref = some o.observation_id;
      summary = "Policy decision normalized from registry-backed SourceOS policy observation.";
    }
    ∷ []
evidence_or o (i ∷ is) = map normalize_item (i ∷ is)

unfoldable pub event_evidence : Observation → List EvidenceItem
event_evidence o = evidence_or o o.evidence

abbrev pub item_json : EvidenceItem → Json
item_json i = dict (
    ("evidence_id", str i.evidence_id)
    ∷ ("source", str i.source)
    ∷ ("raw_ref", opt_str i.raw_ref)
    ∷ ("summary", str i.summary)
    ∷ [])

abbrev pub array : List Json → Items
array [] = nil
array (j ∷ js) = cons j (array js)

abbrev pub given_severity : Option SeverityLevel → SeverityLevel → SeverityLevel
given_severity none d = d
given_severity (some s) d = s

abbrev pub given_list : Option (List String) → List String
given_list none = []
given_list (some xs) = xs

unfoldable pub normalize_observation :
    (String → String)
    → Observation
    → RegistryEntry
    → Option String
    → String
    → String
    → String
    → String
    → Object
unfolding severity_text event_evidence shortened fields
normalize_observation lower o e created_at span_hex now now_first now_last =
    let event_id : String =
      if starts_with o.observation_id "evt_"
      then o.observation_id
      else "evt_" <> o.observation_id in
    let outcome : String = given o.semantic_outcome e.semantic_outcome in
    ("schema_version", str "sourceos.event.v0.1")
    ∷ ("event_id", str event_id)
    ∷ ("event_class", str "policy.decision")
    ∷ ("lane", str "policy")
    ∷ ("severity", str (severity_text (given_severity o.severity e.severity)))
    ∷ ("outcome", str outcome)
    ∷ ("created_at", str (given_text created_at now))
    ∷ ("observed_at_monotonic_ns", int (pos 0))
    ∷ (
      "host",
      dict (
          ("host_id", str "host_local_pseudonym")
          ∷ ("platform", str "sourceos")
          ∷ ("kernel", str "unknown")
          ∷ ("privacy_zone", str (given o.privacy.tier "user_private"))
          ∷ []),
    )
    ∷ (
      "actor",
      dict (
          ("actor_id", str o.actor.actor_id)
          ∷ ("actor_type", str o.actor.actor_type)
          ∷ ("display_name", str o.actor.display_name)
          ∷ ("uid", o.actor.uid)
          ∷ ("session_id", opt_str o.actor.session_id)
          ∷ ("authority_domain", opt_str o.actor.authority_domain)
          ∷ []),
    )
    ∷ (
      "causality",
      dict (
          ("parent_event_id", opt_str o.causality.parent_event_id)
          ∷ ("root_event_id", str (given_text o.causality.root_event_id event_id))
          ∷ ("span_id", str (given_text o.causality.span_id ("span_" <> shortened 12 span_hex)))
          ∷ ("trace_id", str (given_text o.causality.trace_id ("trace_" <> o.observation_id)))
          ∷ []),
    )
    ∷ ("subject", dict o.subject)
    ∷ (
      "decision",
      dict (
          ("decision_id", str ("dec_" <> o.observation_id))
          ∷ ("policy_bundle", str (given o.policy_bundle "sourceos.baseline"))
          ∷ ("policy_rule", str (given o.policy_rule ("sourceos.policy." <> lower e.code)))
          ∷ ("operation", str o.operation)
          ∷ ("target_class", str o.target_class)
          ∷ ("result", str o.result)
          ∷ ("semantic_outcome", str outcome)
          ∷ ("explanation_code", str e.code)
          ∷ []),
    )
    ∷ (
      "trust",
      dict (
          ("mode", str "local_first")
          ∷ ("signature_state", str "not_applicable")
          ∷ ("package_origin", str "unknown")
          ∷ ("content_hash", null)
          ∷ ("attestation_state", str "not_applicable")
          ∷ ("network_lookup", str "not_attempted")
          ∷ ("degradation_reason", null)
          ∷ []),
    )
    ∷ (
      "noise_control",
      dict (
          (
            "event_fingerprint",
            str ("fp_" <> lower e.code <> "_" <> o.operation <> "_" <> o.target_class),
          )
          ∷ ("first_seen", str (given_text created_at now_first))
          ∷ ("last_seen", str (given_text created_at now_last))
          ∷ ("count", int (pos 1))
          ∷ ("suppressed_count", int (pos 0))
          ∷ ("coalesce_window_ms", int (pos 1))
          ∷ []),
    )
    ∷ (
      "privacy",
      dict (
          ("tier", str (given o.privacy.tier "user_private"))
          ∷ ("redaction_policy", str (given o.privacy.redaction_policy "preserve_causality"))
          ∷ ("secret_fields", arr (array (map str (given_list o.privacy.secret_fields))))
          ∷ []),
    )
    ∷ ("evidence", arr (array (map item_json (event_evidence o))))
    ∷ (
      "operator_narrative",
      dict (
          ("summary", str (given_text o.summary e.default_summary))
          ∷ ("risk", str (given o.risk e.risk))
          ∷ ("why", str (given_text o.why e.default_why))
          ∷ ("next_action", str (given_text o.next_action e.default_next_action))
          ∷ ("drilldown_refs", arr (array (map (λ i. str i.evidence_id) (event_evidence o))))
          ∷ []),
    )
    ∷ (
      "sync",
      dict (
          ("replication_policy", str "local_only")
          ∷ ("retention_class", str "standard")
          ∷ ("exportable", bool false)
          ∷ []),
    )
    ∷ []

abbrev pub emit_accepted :
    (Observation → RegistryEntry → Object)
    → (Object → List String)
    → Option (Observation × RegistryEntry)
    → Option Object
emit_accepted event_of validate_event none = none
emit_accepted event_of validate_event (some (o, e)) =
    if_clean (validate_event (event_of o e)) (event_of o e)

-- The event that is written or printed; `none` is the exit code 1.
unfoldable pub cmd_normalize :
    (String → String)
    → (Object → List String)
    → Option String
    → String
    → String
    → String
    → String
    → FromFile (List RegistryEntry)
    → FromFile Observation
    → Option Object
unfolding accept normalize_observation
cmd_normalize lower validate_event created_at span_hex now now_first now_last registry observation =
    emit_accepted
      (λ o e. normalize_observation lower o e created_at span_hex now now_first now_last)
      validate_event (accept registry observation)
