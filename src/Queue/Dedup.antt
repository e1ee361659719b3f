-- ===== src/Queue/Dedup.antt =====
-- Records that are enqueued again.
use Prim.Native.Char.{Char}
use sourceos_syncd.Prelude.{String, ◌≡◌, Bool, true, Option, some, List, ◌<>◌, string_eq, All}
use sourceos_syncd.Prelude.Dict
use sourceos_syncd.Json.{Json, Object}
use sourceos_syncd.SafeId.{safe_id}
use sourceos_syncd.Queue.{QueueState, deduped, EventQueue, Enqueued, state_dir, key_of, enqueue_all}
use sourceos_syncd.Queue.Files.{there}

-- The files of two queues are the same.
abbrev pub SameFiles : EventQueue → EventQueue → Type 0
SameFiles q q' = (state : QueueState) → state_dir state q' ≡ state_dir state q

-- Nothing but the audit changes, and every result is a duplicate.
abbrev pub IsIdle : EventQueue → EventQueue × Option (List Enqueued) → Type 0
IsIdle q p =
    SameFiles q p.0 × ((rs : List Enqueued) × (p.1 ≡ some rs) × All (λ r. r.action ≡ deduped) rs)

module _ (is_alnum : Char → Bool) (text_of : Json → String) (now : String) where
  -- The file that the record goes to is there.
  abbrev IsStored : EventQueue → Object → Type 0
  IsStored q entry =
      (id : String) × (safe_id is_alnum (key_of is_alnum text_of now entry) ≡ some id)
      × (there is_alnum text_of now (id <> ".json") entry q ≡ true)

  abbrev loop : List Object → EventQueue → EventQueue × Option (List Enqueued)
  loop entries q = enqueue_all is_alnum text_of now entries q
