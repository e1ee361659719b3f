-- ===== src/Policy.antt =====
-- src/sourceos_syncd/policy.py: policy decisions, local and remote. `digest` is the shortened SHA-256
-- of the JSON text of a payload; `fetch` is the HTTP request with its parsed answer.
pub mod Report
pub mod Boundary
pub mod Local
use Prim.Native.Char.{Char, code}
use sourceos_syncd.Prelude.{
  nat_beq, ℕ, ◌+◌, suc, String, ◌<>◌, Bool, true, false, not, ◌&&◌, ◌||◌, Option, none, some, List,
  [], ◌∷◌, ◌==◌, string_eq, contains, if◌then◌else◌,
}
use sourceos_syncd.Prelude.Dict
use sourceos_syncd.Text.{rstrip}
use sourceos_syncd.Json.{
  Json, null, bool, str, arr, obj, cons, nil, Object, fields, as_object, get_json, is_false,
  is_text, items,
}
use sourceos_syncd.Show.{to_str, str_field}

abbrev pub decision_scope : String
decision_scope = "policy-only"

abbrev pub actions : List String
actions =
    "index" ∷ "retain" ∷ "replicate" ∷ "agent_access" ∷ "repair_preview" ∷ "purge_preview" ∷ "read"
    ∷ "write" ∷ []

pub record PolicyRequest : Type 0 where
  pub action : String
  pub lane : String
  pub subject : String
  pub object_id : Option String
  pub data_class : String
  pub context : Object

pub record DecisionBoundary : Type 0 where
  pub scope : String
  pub runtime_effect_performed : Bool
  pub authority_mutation_performed : Bool
  pub state_repair_performed : Bool
  pub ledger_write_performed : Bool
  pub downstream_refs : List String

-- The defaults of the class.
abbrev pub default_boundary : DecisionBoundary
default_boundary = record {
  scope = decision_scope;
  runtime_effect_performed = false;
  authority_mutation_performed = false;
  state_repair_performed = false;
  ledger_write_performed = false;
  downstream_refs = "SourceOS-Linux/sourceos-spec#113" ∷ "SourceOS-Linux/sourceos-syncd#30" ∷ [];
}

abbrev pub strings : List String → Json
strings [] = arr nil
strings (s ∷ ss) = elim (strings ss) [ arr xs ↦ arr (cons (str s) xs) | j ↦ j ]

unfoldable pub boundary_dict : DecisionBoundary → Object
boundary_dict b =
    ("decision_scope", str b.scope)
    ∷ ("runtime_effect_performed", bool b.runtime_effect_performed)
    ∷ ("authority_mutation_performed", bool b.authority_mutation_performed)
    ∷ ("state_repair_performed", bool b.state_repair_performed)
    ∷ ("ledger_write_performed", bool b.ledger_write_performed)
    ∷ ("downstream_refs", strings b.downstream_refs)
    ∷ []

pub record PolicyDecision : Type 0 where
  pub decision_id : String
  pub action : String
  pub lane : String
  pub status : String
  pub reason : String
  pub subject : String
  pub object_id : Json
  pub data_class : String
  pub engine : String
  pub generated_at : String
  pub boundary : DecisionBoundary

unfoldable pub decision_dict : PolicyDecision → Object
unfolding boundary_dict fields
decision_dict d =
    ("schema", str "sourceos.policy-decision/v1alpha1")
    ∷ ("decision_id", str d.decision_id)
    ∷ ("generated_at", str d.generated_at)
    ∷ ("engine", str d.engine)
    ∷ ("action", str d.action)
    ∷ ("lane", str d.lane)
    ∷ ("status", str d.status)
    ∷ ("reason", str d.reason)
    ∷ ("subject", str d.subject)
    ∷ ("object_id", d.object_id)
    ∷ ("data_class", str d.data_class)
    ∷ ("decision_boundary", obj (fields (boundary_dict d.boundary)))
    ∷ []

unfoldable pub is_boundary : Object → Bool
unfolding get_json is_text is_false
is_boundary boundary =
    is_text decision_scope (get_json "decision_scope" boundary)
    && (is_false (get_json "runtime_effect_performed" boundary)
        && (is_false (get_json "authority_mutation_performed" boundary)
            && (is_false (get_json "state_repair_performed" boundary)
                && is_false (get_json "ledger_write_performed" boundary))))

-- Whether `validate_decision_boundary` returns; it raises a `ValueError` otherwise.
unfoldable pub validate_decision_boundary : Object → Bool
unfolding is_boundary as_object get_json
validate_decision_boundary decision = elim (as_object (get_json "decision_boundary" decision)) [
  | none ↦ false
  | some boundary ↦ is_boundary boundary
]

-- The status and the reason of the local policy.
unfoldable pub local_verdict : PolicyRequest → String × String
local_verdict r =
    if not (contains actions r.action)
    then ("deferred", "unknown_action")
    else if r.lane == "secure" && (r.action == "agent_access" || r.action == "replicate")
    then ("denied", "secure_lane_requires_explicit_grant")
    else if r.lane == "secure" && r.action == "index"
    then ("redacted", "secure_lane_indexing_requires_redaction")
    else if r.lane == "repair" && (r.action == "agent_access" || r.action == "write")
    then ("denied", "repair_lane_is_quarantine_scoped")
    else if r.lane == "ephemeral" && r.action == "retain"
    then ("deferred", "ephemeral_retention_requires_ttl")
    else if (r.data_class == "secret" || r.data_class == "credential")
        && (r.action == "replicate" || r.action == "agent_access")
    then ("denied", "sensitive_data_requires_explicit_grant")
    else ("allowed", "default_local_policy_allows")

abbrev pub text_json : Option String → Json
text_json none = null
text_json (some s) = str s

abbrev pub is_slash : Char → Bool
is_slash c = nat_beq (code c) b'/'

-- What comes of a request: a `ValueError` when it is made, for a URL that is malformed; no answer; or the
-- parsed answer.
pub data Fetched : Type 0 where
  malformed failed : Fetched
  replied : Json → Fetched

-- What the service says: the exception that leaves the evaluation, nothing, or a decision.
pub data Asked : Type 0 where
  raises silent : Asked
  decided : PolicyDecision → Asked

abbrev pub answered : Option PolicyDecision → Asked
answered none = silent
answered (some d) = decided d

-- `data[k]`, which raises on a missing key.
abbrev pub both {ℓ κ} : {A : Type ℓ} {B : Type κ} → Option A → Option B → Option (A × B)
both none b = none
both (some a) none = none
both (some a) (some b) = some (a, b)

module _ (digest : Object → String) (text_of : Json → String)
    (fetch : String → PolicyRequest → Fetched) (now : String) where
  unfoldable pub policy_decision_id : PolicyRequest → String → String → String
  policy_decision_id r status reason =
      "policy-"
      <> digest (
          ("action", str r.action)
          ∷ ("lane", str r.lane)
          ∷ ("subject", str r.subject)
          ∷ ("object_id", text_json r.object_id)
          ∷ ("data_class", str r.data_class)
          ∷ ("status", str status)
          ∷ ("reason", str reason)
          ∷ [])

  unfoldable pub evaluate_locally : PolicyRequest → PolicyDecision
  unfolding local_verdict policy_decision_id
  evaluate_locally r =
      let (status, reason) = local_verdict r in
      record {
        decision_id = policy_decision_id r status reason;
        action = r.action;
        lane = r.lane;
        status = status;
        reason = reason;
        subject = r.subject;
        object_id = text_json r.object_id;
        data_class = r.data_class;
        engine = "policy-fabric-local";
        generated_at = now;
        boundary = default_boundary;
      }

  -- The decision from the four keys that the answer must have; a missing one is an exception.
  unfoldable pub remote_fields :
      String
      → PolicyRequest
      → Object
      → Option ((Json × Json) × (Json × Json))
      → Option PolicyDecision
  unfolding to_str str_field get_json
  remote_fields url r answer none = none
  remote_fields url r answer (some ((id, action), (lane, status))) = some (record {
    decision_id = to_str text_of id;
    action = to_str text_of action;
    lane = to_str text_of lane;
    status = to_str text_of status;
    reason = str_field text_of "reason" "remote" answer;
    subject = str_field text_of "subject" r.subject answer;
    object_id = get_json "object_id" answer;
    data_class = str_field text_of "data_class" r.data_class answer;
    engine = url;
    generated_at = now;
    boundary = default_boundary;
  })

  unfoldable pub remote_decision : String → PolicyRequest → Option Object → Option PolicyDecision
  unfolding remote_fields Dict.get
  remote_decision url r none = none
  remote_decision url r (some answer) = remote_fields url r answer (
      both (both (Dict.get "decision_id" answer) (Dict.get "action" answer))
        (both (Dict.get "lane" answer) (Dict.get "status" answer)))

  -- `RemotePolicyFabricClient.evaluate`, from the request on and whole.
  unfoldable pub evaluate_fetched : String → PolicyRequest → Fetched → Asked
  unfolding remote_decision as_object
  evaluate_fetched base r malformed = raises
  evaluate_fetched base r failed = silent
  evaluate_fetched base r (replied j) = answered (remote_decision base r (as_object j))

  unfoldable pub evaluate_remotely : String → PolicyRequest → Asked
  unfolding evaluate_fetched rstrip
  evaluate_remotely url r = let base = rstrip is_slash url in evaluate_fetched base r (fetch base r)

  unfoldable pub or_locally : PolicyRequest → Asked → Option PolicyDecision
  unfolding evaluate_locally
  or_locally r raises = none
  or_locally r silent = some (evaluate_locally r)
  or_locally r (decided d) = some d

  -- The service is asked if the variable SOURCEOS_POLICY_FABRIC_URL is set and not empty.
  unfoldable pub ask_service : Option String → PolicyRequest → Asked
  unfolding evaluate_remotely
  ask_service none r = silent
  ask_service (some url) r = if url == "" then silent else evaluate_remotely url r

  -- `none` is the `ValueError` of a malformed URL.
  unfoldable pub evaluate_policy : Option String → PolicyRequest → Option PolicyDecision
  unfolding ask_service or_locally
  evaluate_policy url r = or_locally r (ask_service url r)
