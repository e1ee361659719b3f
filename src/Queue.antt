-- ===== src/Queue.antt =====
-- src/sourceos_syncd/orchestration_events.py: the event-capability queue. Its directories are
-- dictionaries from file names to envelopes; `text_of` is `str` on numbers and containers, and
-- `is_alnum` is `str.isalnum`. One reading of the clock serves a whole call.
mod Check
pub mod Verdict
pub mod Files
pub mod Listing
pub mod Dedup
pub mod Filing
unfoldable pub use Check.*
use Prim.Native.Char.{Char}
use sourceos_syncd.Prelude.{
  ℕ, String, ◌<>◌, Bool, true, false, not, ◌&&◌, ◌||◌, Option, none, some, List, [], ◌∷◌, ◌++◌,
  ◌==◌, string_eq, contains, length, if◌then◌else◌,
}
use sourceos_syncd.Prelude.Dict
use sourceos_syncd.Prelude.Dict.{Dict}
use sourceos_syncd.Json.{
  Json, null, str, bool, arr, nil, Object, truthy, is_true, get_json, sub_object,
}
use sourceos_syncd.Show.{str_field}
use sourceos_syncd.SafeId.{safe_id}

-- A file of one of the four directories.
pub record Envelope : Type 0 where
  pub queued_at : String
  pub queue_state : QueueState
  pub decision : Decision
  pub entry : Object

pub data Action : Type 0 where
  queued deduped : Action

-- A line of audit.jsonl.
pub record Audit : Type 0 where
  pub at : String
  pub action : Action
  pub queue_state : QueueState
  pub idempotency_key : String
  pub event_id : String
  pub capability_id : String

-- A row of `list_event_queue`.
pub record Row : Type 0 where
  pub name : String
  pub queue_state : QueueState
  pub event_id : String
  pub capability_id : String
  pub policy_outcome : String
  pub idempotency_key : String

pub record Replay : Type 0 where
  pub created_at : String
  pub source_state : QueueState
  pub rows : List Row

-- `created_at` is the manifest's; the directories are there once it is.
pub record EventQueue : Type 0 where
  pub created_at : Option String
  pub pending_dir : Dict Envelope
  pub waiting_dir : Dict Envelope
  pub blocked_dir : Dict Envelope
  pub dead_letter_dir : Dict Envelope
  pub replay_dir : Dict Replay
  pub audit : List Audit

unfoldable pub init_event_queue : String → EventQueue → EventQueue
init_event_queue now q = elim q.created_at [
  | none ↦ record q { created_at = some now }
  | some _ ↦ q
]

-- `_state_dir`, read and written.
unfoldable pub state_dir : QueueState → EventQueue → Dict Envelope
state_dir pending q = q.pending_dir
state_dir waiting_approval q = q.waiting_dir
state_dir blocked q = q.blocked_dir
state_dir dead_letter q = q.dead_letter_dir

unfoldable pub set_dir : QueueState → Dict Envelope → EventQueue → EventQueue
set_dir pending d q = record q { pending_dir = d }
set_dir waiting_approval d q = record q { waiting_dir = d }
set_dir blocked d q = record q { blocked_dir = d }
set_dir dead_letter d q = record q { dead_letter_dir = d }

-- An entry of the list `enqueued`.
pub record Enqueued : Type 0 where
  pub idempotency_key : String
  pub action : Action
  pub queue_state : QueueState
  pub errors : List EventError
  pub warnings : List EventWarning

-- `_append_audit`
unfoldable pub append_audit : Audit → EventQueue → EventQueue
append_audit line q = record q { audit = q.audit ++ (line ∷ []) }

unfoldable pub add_result :
    Enqueued → EventQueue × Option (List Enqueued) → EventQueue × Option (List Enqueued)
add_result result (q, none) = (q, none)
add_result result (q, some results) = (q, some (result ∷ results))

module _ (is_alnum : Char → Bool) (text_of : Json → String) (now : String) where
  -- `decision.get("idempotency_key") or str(record.get("record_id", "missing-id"))`
  unfoldable pub key_of : Object → String
  unfolding str_field
  key_of entry =
      let key = (validate_event_record text_of entry).idempotency_key in
      if key == "" then str_field text_of "record_id" "missing-id" entry else key

  unfoldable pub audit_line : Object → Decision → Action → Audit
  audit_line entry d action = record {
    at = now;
    action = action;
    queue_state = d.state;
    idempotency_key = key_of entry;
    event_id = d.event_id;
    capability_id = d.capability_id;
  }

  unfoldable pub write_envelope : String → Object → Decision → EventQueue → EventQueue
  write_envelope name entry d q =
      set_dir d.state
        (Dict.put name
          (record { queued_at = now; queue_state = d.state; decision = d; entry = entry })
          (state_dir d.state q))
        q

  -- The file is there already or not.
  unfoldable pub store_entry :
      String → Object → Decision → Bool → EventQueue → EventQueue × Enqueued
  unfolding write_envelope audit_line append_audit
  store_entry name entry d there q =
      let action = if there then deduped else queued in
      (
        append_audit (audit_line entry d action)
            (if there then q else write_envelope name entry d q),
        record {
          idempotency_key = key_of entry;
          action = action;
          queue_state = d.state;
          errors = d.errors;
          warnings = d.warnings;
        },
      )

  -- One round of the loop; `none` is the `ValueError` of `safe_id`.
  unfoldable pub enqueue_one : Object → EventQueue → Option (EventQueue × Enqueued)
  enqueue_one entry q =
      let d = validate_event_record text_of entry in
      elim (safe_id is_alnum (key_of entry)) [
        | none ↦ none
        | some id ↦
            let name = id <> ".json" in
            some (store_entry name entry d (Dict.has name (state_dir d.state q)) q)
      ]

  -- The loop: the queue that it leaves, and its results unless it raised.
  unfoldable pub enqueue_all : List Object → EventQueue → EventQueue × Option (List Enqueued)
  unfolding enqueue_one add_result
  enqueue_all [] q = (q, some [])
  enqueue_all (entry ∷ rest) q = elim (enqueue_one entry q) [
    | none ↦ (q, none)
    | some (q', result) ↦ add_result result (enqueue_all rest q')
  ]

  unfoldable pub enqueue_event_records :
      List Object → EventQueue → EventQueue × Option (List Enqueued)
  unfolding init_event_queue enqueue_all
  enqueue_event_records entries q = enqueue_all entries (init_event_queue now q)
