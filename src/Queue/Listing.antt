-- ===== src/Queue/Listing.antt =====
-- `list_event_queue`, `replay_event_queue` and `summarize_event_queue`.
use Prim.Native.String.{compare}
use Prim.Native.Nat.{Ordering}
use sourceos_syncd.Prelude.{ℕ, String, ◌<>◌, Option, none, some, List, [], ◌∷◌, ◌++◌, length}
use sourceos_syncd.Prelude.Dict
use sourceos_syncd.Prelude.Dict.{Dict}
use sourceos_syncd.Text.{replace_char}
use sourceos_syncd.Queue.{
  QueueState, pending, waiting_approval, blocked, dead_letter, Envelope, Row, Replay, EventQueue,
  init_event_queue, state_dir,
}

-- A directory by file name, as `sorted(directory.glob("*.json"))` lists it.
unfoldable pub insert : String → Envelope → Dict Envelope → Dict Envelope
insert name e [] = (name, e) ∷ []
insert name e ((n, f) ∷ d) = elim (compare name n) [
  | Ordering.gt ↦ (n, f) ∷ insert name e d
  | _ ↦ (name, e) ∷ (n, f) ∷ d
]

unfoldable pub sorted : Dict Envelope → Dict Envelope
unfolding insert
sorted [] = []
sorted ((name, e) ∷ d) = insert name e (sorted d)

unfoldable pub row : QueueState → String → Envelope → Row
row state name e = record {
  name = name;
  queue_state = state;
  event_id = e.decision.event_id;
  capability_id = e.decision.capability_id;
  policy_outcome = e.decision.policy_outcome;
  idempotency_key = e.decision.idempotency_key;
}

unfoldable pub rows_of : QueueState → Dict Envelope → List Row
unfolding row
rows_of state [] = []
rows_of state ((name, e) ∷ d) = row state name e ∷ rows_of state d

unfoldable pub rows_in : QueueState → EventQueue → List Row
unfolding rows_of sorted state_dir
rows_in state q = rows_of state (sorted (state_dir state q))

-- The member `counts` of the result.
pub record Counts : Type 0 where
  pub pending_count : ℕ
  pub waiting_count : ℕ
  pub blocked_count : ℕ
  pub dead_letter_count : ℕ
  pub replay_count : ℕ

module _ (now : String) where
  -- The queue with its directories made, and the rows.
  unfoldable pub list_event_queue : Option QueueState → EventQueue → EventQueue × List Row
  unfolding init_event_queue rows_in
  list_event_queue none q =
      let q' = init_event_queue now q in
      (
        q',
        rows_in pending q'
            ++ (rows_in waiting_approval q' ++ (rows_in blocked q' ++ rows_in dead_letter q')),
      )
  list_event_queue (some state) q = let q' = init_event_queue now q in (q', rows_in state q')

  abbrev pub state_name : QueueState → String
  state_name pending = "pending"
  state_name waiting_approval = "waiting-approval"
  state_name blocked = "blocked"
  state_name dead_letter = "dead-letter"

  unfoldable pub replay_name : QueueState → String
  unfolding replace_char
  replay_name state =
      "replay-" <> (state_name state <> ("-" <> (replace_char b':' "" now <> ".json")))

  -- `safe_id` leaves the name of a state as it is. The replay file is written over one of the same second.
  unfoldable pub replay_event_queue : QueueState → EventQueue → EventQueue × Replay
  unfolding list_event_queue replay_name
  replay_event_queue state q =
      let (q', rows) = list_event_queue (some state) q in
      let replay : Replay = record { created_at = now; source_state = state; rows = rows } in
      (record q' { replay_dir = Dict.put (replay_name state) replay q'.replay_dir }, replay)

  unfoldable pub summarize_event_queue : EventQueue → EventQueue × Counts
  unfolding init_event_queue
  summarize_event_queue q =
      let q' = init_event_queue now q in
      (
        q',
        record {
          pending_count = length q'.pending_dir;
          waiting_count = length q'.waiting_dir;
          blocked_count = length q'.blocked_dir;
          dead_letter_count = length q'.dead_letter_dir;
          replay_count = length q'.replay_dir;
        },
      )
