-- ===== src/Normalizer/Faithful.antt =====
-- A normalized event says of a decision what the registry says of its explanation code.
use mathlib.Core.Path.{subst}
use sourceos_syncd.Prelude.{
  ℕ, ◌≤◌, String, Bool, true, false, not, Option, none, some, List, [], ◌∷◌, ◌++◌, ◌==◌, string_eq,
  ◌≡◌, refl, sym, ap, ◌∙◌, arith, if◌then◌else◌,
}
use sourceos_syncd.Prelude.Dict
use sourceos_syncd.Json.{str, Object, get_json, sub_object, entries, fields, as_object}
use sourceos_syncd.EventStore.Emit.{given}
use sourceos_syncd.Normalizer.{
  SeverityLevel, trace, debug, info, notice, warning, error, critical, severity_order,
  severity_text, RegistryEntry, Observation, FromFile, not_an_object, invalid, valid, load_registry,
  load_valid_observation, matches_allowed, stricter_or_equal, SemanticError, result_contradicts,
  outcome_contradicts, risk_contradicts, operation_refused, target_refused, report_if, contradicts,
  severity_errors, validate_observation_semantics, if_clean, check_entry, if_loaded, RegistryError,
  accept,
}
use sourceos_syncd.Normalizer.Event.{
  given_severity, normalize_observation, cmd_normalize, emit_accepted,
}
use sourceos_syncd.Normalizer.Index.{Listed, load_registry-found_iff}

-- The decision as the registry has it, in an event.
pub record IsFaithful (e : RegistryEntry) (event : Object) : Type 0 where
  pub code : get_json "explanation_code" (sub_object "decision" event) ≡ str e.code
  pub result : get_json "result" (sub_object "decision" event) ≡ str e.result
  pub outcome : get_json "outcome" event ≡ str e.semantic_outcome
  pub risk : get_json "risk" (sub_object "operator_narrative" event) ≡ str e.risk
  pub severity :
      (s : SeverityLevel) × (get_json "severity" event ≡ str (severity_text s))
      × (severity_order e.severity ≤ severity_order s)
  pub operation :
      (op : String) × (get_json "operation" (sub_object "decision" event) ≡ str op)
      × (matches_allowed op e.allowed_operation_classes ≡ true)
  pub target :
      (t : String) × (get_json "target_class" (sub_object "decision" event) ≡ str t)
      × (matches_allowed t e.allowed_target_classes ≡ true)

append_empty : (xs ys : List SemanticError) → xs ++ ys ≡ [] → (xs ≡ []) × (ys ≡ [])
append_empty [] ys h = (refl, h)
append_empty (x ∷ xs) ys h = cc

report_if-empty : (b : Bool) (m : SemanticError) → report_if b m ≡ [] → b ≡ false
report_if-empty true m h = cc
report_if-empty false m h = refl

negated : (b : Bool) → not b ≡ false → b ≡ true
negated b h = ground arith

same : (a b : String) → not (a == b) ≡ false → a ≡ b
same a b h = ground arith

contradicts-given : (o : Option String) (v : String) → contradicts o v ≡ false → given o v ≡ v
contradicts-given none v h = refl
contradicts-given (some u) v h = same u v h

order_named : String → ℕ
order_named t =
    if t == "trace"
    then 0
    else if t == "debug"
    then 1
    else if t == "info"
    then 2
    else if t == "notice"
    then 3
    else if t == "warning"
    then 4
    else if t == "error"
    then 5
    else 6

order_named-severity_text : (s : SeverityLevel) → order_named (severity_text s) ≡ severity_order s
unfolding order_named severity_text severity_order string_eq
order_named-severity_text trace = refl
order_named-severity_text debug = refl
order_named-severity_text info = refl
order_named-severity_text notice = refl
order_named-severity_text warning = refl
order_named-severity_text error = refl
order_named-severity_text critical = refl

same_order :
    (s t : SeverityLevel) → severity_text s ≡ severity_text t → severity_order s ≡ severity_order t
same_order s t h =
    sym (order_named-severity_text s) ∙ ap order_named h ∙ order_named-severity_text t

severity_errors-stricter :
    (o : Option SeverityLevel) (e : RegistryEntry)
    → severity_errors o e ≡ []
    → severity_order e.severity ≤ severity_order (given_severity o e.severity)
unfolding severity_errors stricter_or_equal
severity_errors-stricter none e h = omega arith
severity_errors-stricter (some s) e h = let p = same_order s e.severity in ground arith

-- What an observation without semantic errors satisfies.
record IsConsistent (o : Observation) (e : RegistryEntry) : Type 0 where
  result : o.result ≡ e.result
  outcome : given o.semantic_outcome e.semantic_outcome ≡ e.semantic_outcome
  severity : severity_order e.severity ≤ severity_order (given_severity o.severity e.severity)
  risk : given o.risk e.risk ≡ e.risk
  operation : matches_allowed o.operation e.allowed_operation_classes ≡ true
  target : matches_allowed o.target_class e.allowed_target_classes ≡ true

semantics-IsConsistent :
    (o : Observation) (e : RegistryEntry)
    → validate_observation_semantics o e ≡ []
    → IsConsistent o e
unfolding validate_observation_semantics
semantics-IsConsistent o e h =
    let (h1, t) =
      append_empty _
        (report_if (not (matches_allowed o.target_class e.allowed_target_classes)) target_refused)
        h in
    let (h2, p) =
      append_empty _
        (report_if (not (matches_allowed o.operation e.allowed_operation_classes))
          operation_refused)
        h1 in
    let (h3, k) = append_empty _ (report_if (contradicts o.risk e.risk) risk_contradicts) h2 in
    let (h4, s) = append_empty _ (severity_errors o.severity e) h3 in
    let (r, u) =
      append_empty (report_if (not (o.result == e.result)) result_contradicts)
        (report_if (contradicts o.semantic_outcome e.semantic_outcome) outcome_contradicts) h4 in
    record {
      result = same o.result e.result (report_if-empty _ result_contradicts r);
      outcome =
          contradicts-given o.semantic_outcome e.semantic_outcome
            (report_if-empty _ outcome_contradicts u);
      severity = severity_errors-stricter o.severity e s;
      risk = contradicts-given o.risk e.risk (report_if-empty _ risk_contradicts k);
      operation = negated _ (report_if-empty _ operation_refused p);
      target = negated _ (report_if-empty _ target_refused t);
    }

if_clean-some :
    {A B : Type 0} (ms : List A) (b c : B) → if_clean ms b ≡ some c → (ms ≡ []) × (b ≡ c)
if_clean-some [] b c h = (refl, cc)
if_clean-some (m ∷ ms) b c h = cc

entry_checked :
    (o : Observation) (found : Option RegistryEntry) (a : Observation × RegistryEntry)
    → check_entry o found ≡ some a
    → (e : RegistryEntry) × (found ≡ some e)
      × (validate_observation_semantics o e ≡ [])
      × (a ≡ (o, e))
entry_checked o none a h = cc
entry_checked o (some e) a h =
    let (clean, same) = if_clean-some (validate_observation_semantics o e) (o, e) a h in
    (e, refl, clean, sym same)

if_loaded-some :
    (ms : List RegistryError) (checked : Option (Observation × RegistryEntry))
    (a : Observation × RegistryEntry)
    → if_loaded ms checked ≡ some a
    → (ms ≡ []) × (checked ≡ some a)
if_loaded-some [] checked a h = (refl, h)
if_loaded-some (m ∷ ms) checked a h = cc

-- What the shared checks accept: a consistent observation and the entry of the file with its code.
abbrev IsAccepted :
    FromFile (List RegistryEntry) → FromFile Observation → Observation × RegistryEntry → Type 0
IsAccepted registry observation a =
    (es : List RegistryEntry) × (registry ≡ valid es)
    × (observation ≡ valid a.0)
    × Listed a.1 es
    × (a.1.code ≡ a.0.explanation_code)
    × IsConsistent a.0 a.1

accept-IsAccepted :
    (registry : FromFile (List RegistryEntry)) (observation : FromFile Observation)
    (a : Observation × RegistryEntry)
    → accept registry observation ≡ some a
    → IsAccepted registry observation a
unfolding accept load_valid_observation load_registry
accept-IsAccepted registry not_an_object a h =
    let (clean, absent) = if_loaded-some (load_registry registry).1 none a h in cc
accept-IsAccepted registry (invalid m ms) a h =
    let (clean, absent) = if_loaded-some (load_registry registry).1 none a h in cc
accept-IsAccepted not_an_object (valid o) a h = cc
accept-IsAccepted (invalid m ms) (valid o) a h = cc
accept-IsAccepted (valid es) (valid o) a h =
    let found = Dict.get o.explanation_code (load_registry (valid es)).0 in
    let (clean, ok) = if_loaded-some (load_registry (valid es)).1 (check_entry o found) a h in
    let (e, at_code, consistent, same) = entry_checked o found a ok in
    let (listed, code) = (load_registry-found_iff es o.explanation_code e clean).0 at_code in
    subst (IsAccepted (valid es) (valid o)) (sym same)
      (es, refl, refl, listed, code, semantics-IsConsistent o e consistent)

module _ (lower : String → String) (validate_event : Object → List String)
    (created_at : Option String) (span_hex now now_first now_last : String) where
  abbrev event_of : Observation → RegistryEntry → Object
  event_of o e = normalize_observation lower o e created_at span_hex now now_first now_last

  event_of-IsFaithful :
      (o : Observation) (e : RegistryEntry) → IsConsistent o e → IsFaithful e (event_of o e)
  unfolding normalize_observation get_json sub_object as_object fields entries Dict.get string_eq
  event_of-IsFaithful o e c = record {
    code = refl;
    result = ap str c.result;
    outcome = ap str c.outcome;
    risk = ap str c.risk;
    severity = (given_severity o.severity e.severity, refl, c.severity);
    operation = (o.operation, refl, c.operation);
    target = (o.target_class, refl, c.target);
  }

  -- What an event rests on.
  abbrev pub IsRegistered : FromFile (List RegistryEntry) → FromFile Observation → Object → Type 0
  IsRegistered registry observation event =
      (es : List RegistryEntry) × (o : Observation) × (e : RegistryEntry) × (registry ≡ valid es)
      × (observation ≡ valid o)
      × Listed e es
      × (e.code ≡ o.explanation_code)
      × IsFaithful e event
      × (validate_event event ≡ [])

  emit_accepted-IsRegistered :
      (registry : FromFile (List RegistryEntry)) (observation : FromFile Observation)
      (event : Object) (accepted : Option (Observation × RegistryEntry))
      → accept registry observation ≡ accepted
      → emit_accepted event_of validate_event accepted ≡ some event
      → IsRegistered registry observation event
  emit_accepted-IsRegistered registry observation event none a h = cc
  emit_accepted-IsRegistered registry observation event (some (o, e)) a h =
      let (clean, same) = if_clean-some (validate_event (event_of o e)) (event_of o e) event h in
      let (es, r, ob, listed, code, c) = accept-IsAccepted registry observation (o, e) a in
      (
        es,
        o,
        e,
        r,
        ob,
        listed,
        code,
        subst (IsFaithful e) same (event_of-IsFaithful o e c),
        subst (λ x. validate_event x ≡ []) same clean,
      )

  -- Only an observation that passed its schema is normalized, against an entry of a valid registry
  -- file that has its code. The event passes the event schema and has the result, the outcome and the
  -- risk of that entry, a severity not below it, and an operation and a target that it allows.
  pub cmd_normalize-IsRegistered :
      (registry : FromFile (List RegistryEntry)) (observation : FromFile Observation)
      (event : Object)
      → cmd_normalize lower validate_event created_at span_hex now now_first now_last registry
          observation
        ≡ some event
      → IsRegistered registry observation event
  unfolding cmd_normalize
  cmd_normalize-IsRegistered registry observation event h =
      emit_accepted-IsRegistered registry observation event (accept registry observation) refl h
