-- ===== src/Examples/Files.antt =====
-- The event queue and the receipt files at concrete inputs.
use Prim.Native.Char.{Char, code}
use sourceos_syncd.Prelude.{
  ◌⊎◌, inr, some, String, ◌≡◌, refl, Bool, true, ◌&&◌, ◌||◌, leb, none, [], ◌∷◌, string_eq,
  contains, arith, differ,
}
use sourceos_syncd.Prelude.Dict
use sourceos_syncd.Json.{
  Json, Object, str, bool, arr, cons, nil, obj, fields, sub_object, get_json, truthy, is_true,
}
use sourceos_syncd.Show.{str_field, to_str}
use sourceos_syncd.LocalStore.{LocalStore, StoreError, stamped, put_record, get_record}
use sourceos_syncd.LocalStore.Registry.{get-put_record}
use sourceos_syncd.SafeId.{safe_id}
use sourceos_syncd.Queue.{
  EventQueue, dead_letter, pending, waiting_approval, blocked, state_dir, read_record, is_high_risk,
  or_else, validate_event_record, strict_approvals, enqueue_event_records,
}
use sourceos_syncd.Queue.Verdict.{IsComplete, IsGuarded, validate_event_record-high_risk}
use sourceos_syncd.Queue.Files.{Keeps, enqueue_event_records-Keeps}
use sourceos_syncd.Queue.Filing.{IsFiled, enqueue_event_records-IsFiled}

-- The letters and digits of ASCII.
abbrev ascii_alnum : Char → Bool
ascii_alnum c =
    let n = code c in leb 48 n && leb n 57 || leb 65 n && leb n 90 || leb 97 n && leb n 122

abbrev no_text : Json → String
no_text j = ""

-- A record of a given effect with its outcome.
abbrev entry_of : String → String → Object
entry_of effect outcome =
    (
      "event",
      obj (
          fields (
            ("event_id", str "e1")
            ∷ ("causality", obj (fields (("idempotency_key", str "k/1") ∷ [])))
            ∷ [])),
    )
    ∷ (
      "capability",
      obj (
          fields (
            ("capability_id", str "c1")
            ∷ ("effect_class", str effect)
            ∷ ("required_policy_outcome", str outcome)
            ∷ ("approval_mode", str "admin_approval")
            ∷ [])),
    )
    ∷ (
      "reaction",
      obj (fields (("policy_outcome", str outcome) ∷ ("dead_letter_on_failure", bool true) ∷ [])),
    )
    ∷ ("evidence_refs", arr (cons (str "r1") nil))
    ∷ []

abbrev plain : Object
plain = entry_of "notify" "allowed"

abbrev risky : Object
risky = entry_of "high_risk_actuation" "redacted"

abbrev empty_queue : EventQueue
empty_queue = record {
  created_at = none;
  pending_dir = [];
  waiting_dir = [];
  blocked_dir = [];
  dead_letter_dir = [];
  replay_dir = [];
  audit = [];
}

abbrev slug : String
slug = "k_1"

plain-IsComplete : IsComplete (read_record no_text plain)
unfolding read_record str_field to_str sub_object get_json or_else truthy is_true fields string_eq
plain-IsComplete = record {
  event_id = differ "e1" "" refl;
  capability_id = differ "c1" "" refl;
  idempotency_key = differ "k/1" "" refl;
  receipts = refl;
  dead_letter_flag = refl;
  outcome = refl;
}

plain-IsGuarded : IsGuarded (read_record no_text plain)
unfolding is_high_risk read_record str_field to_str sub_object get_json or_else truthy is_true
    fields string_eq
plain-IsGuarded = record { never_allowed = ground arith; strict = ground arith }

validate_event_record-high_risk_example :
    ((validate_event_record no_text risky).state ≡ pending
      → (read_record no_text risky).policy_outcome ≡ "redacted")
    × ((validate_event_record no_text risky).state ≡ waiting_approval
        → contains strict_approvals (read_record no_text risky).approval_mode ≡ true)
unfolding is_high_risk read_record str_field to_str sub_object get_json or_else truthy is_true
    fields string_eq
validate_event_record-high_risk_example = validate_event_record-high_risk no_text risky refl

abbrev enqueued : EventQueue
enqueued = (enqueue_event_records ascii_alnum no_text "t" (plain ∷ risky ∷ []) empty_queue).0

enqueue_event_records-Keeps_example : Keeps empty_queue enqueued
enqueue_event_records-Keeps_example =
    enqueue_event_records-Keeps ascii_alnum no_text "t" (plain ∷ risky ∷ []) empty_queue

empty_queue-IsFiled : IsFiled no_text empty_queue
unfolding state_dir Dict.get
empty_queue-IsFiled pending name e h = cc
empty_queue-IsFiled waiting_approval name e h = cc
empty_queue-IsFiled blocked name e h = cc
empty_queue-IsFiled dead_letter name e h = cc

enqueue_event_records-IsFiled_example : IsFiled no_text enqueued
enqueue_event_records-IsFiled_example =
    enqueue_event_records-IsFiled ascii_alnum no_text "t" (plain ∷ risky ∷ []) empty_queue
      empty_queue-IsFiled

abbrev empty_store : LocalStore
empty_store = record { manifest = some []; journal = none; registries = [] }

-- The ids `a/b` and `a_b` share a file.
abbrev put : LocalStore × (StoreError ⊎ Object)
put = put_record ascii_alnum "t" "devices" "a/b" [] empty_store

abbrev device : Object
device = stamped "t" "a/b" "sourceos.device-record/v1alpha1" []

get-put_record_example : get_record ascii_alnum "devices" "a_b" put.0 ≡ inr device
unfolding put_record safe_id string_eq Dict.get
get-put_record_example =
    get-put_record ascii_alnum "t" "devices" "a/b" "a_b" [] device empty_store put.0 refl refl
