-- ===== src/LocalStore/Journal.antt =====
-- The journal of the local state store: `init`, `append_event` and `iter_events` of local_store.py.
-- What `f"{count:08d}"`, `str` on numbers, `int` on texts and the message of a broken line give are parameters.
pub mod Numbered
use Prim.Native.Nat.{◌*◌, ◌/◌, ◌^◌}
use sourceos_syncd.Prelude.{
  ℕ, ◌+◌, suc, String, ◌<>◌, Bool, true, false, not, ◌⊎◌, inl, inr, Option, none, some, List, [],
  ◌∷◌, ◌++◌, ◌==◌, string_eq, contains, any_of, length, if◌then◌else◌,
}
use sourceos_syncd.Prelude.Dict
use sourceos_syncd.Prelude.Signed.{ℤ, pos, negsuc, ◌+ℤ◌}
use sourceos_syncd.Json.{
  Json, null, bool, int, float, str, arr, obj, Object, Items, fields, entries, items, is_text,
  truthy,
}
use sourceos_syncd.NoiseBudget.{field_or}
use sourceos_syncd.Policy.{strings}
use sourceos_syncd.Reports.Checks.{negated}
use sourceos_syncd.Reports.Shape.{has_infix}
use sourceos_syncd.EventStore.{Line, blank, broken, value, line_of}
use sourceos_syncd.LocalStore.{LocalStore}

abbrev pub default_lanes : List String
default_lanes =
    "normal" ∷ "priority" ∷ "secure" ∷ "memory" ∷ "policy" ∷ "audit" ∷ "tombstone" ∷ "migration"
    ∷ "repair" ∷ "archive" ∷ []

abbrev pub store_schema : String
store_schema = "sourceos.local-state-store/v1alpha1"

abbrev pub journal_schema : String
journal_schema = "sourceos.journal-event/v1alpha1"

abbrev pub event_types : List String
event_types = "add" ∷ "update" ∷ "delete" ∷ "checkpoint" ∷ "repair" ∷ "policy" ∷ []

abbrev pub durable_dirs : List String
durable_dirs =
    "profiles" ∷ "devices" ∷ "actors" ∷ "schemas" ∷ "objects" ∷ "events" ∷ "repair-reports" ∷ []

-- REGISTRY_KINDS, sorted.
abbrev pub registry_kinds : List String
registry_kinds =
    "actors" ∷ "devices" ∷ "indexes" ∷ "objects" ∷ "profiles" ∷ "repair-reports" ∷ "schemas" ∷ []

abbrev pub new_manifest : String → Object
new_manifest now =
    ("schema", str store_schema)
    ∷ ("created_at", str now)
    ∷ ("updated_at", str now)
    ∷ ("active_generation", int (pos 1))
    ∷ ("last_known_good_generation", int (pos 1))
    ∷ ("lanes", strings default_lanes)
    ∷ ("backend", str "filesystem-jsonl")
    ∷ ("durable_dirs", strings durable_dirs)
    ∷ ("rebuildable_dirs", strings ("indexes" ∷ "checkpoints" ∷ []))
    ∷ ("disposable_dirs", strings ("tmp" ∷ []))
    ∷ ("registry_kinds", strings registry_kinds)
    ∷ []

unfoldable pub write_manifest : String → Object → LocalStore → LocalStore
unfolding Dict.put
write_manifest now m s = record s {
  manifest = some (Dict.put "updated_at" (str now) (Dict.put "initialized" (bool true) m));
}

abbrev pub with_journal : Option (List Line) → List Line
with_journal none = []
with_journal (some ls) = ls

abbrev pub with_manifest : String → Option Object → LocalStore → LocalStore
with_manifest now none s = write_manifest now (new_manifest now) s
with_manifest now (some m) s = s

-- What is there is kept; the directories are not part of the model.
unfoldable pub init : String → LocalStore → LocalStore
unfolding write_manifest
init now s = with_manifest now s.manifest (record s { journal = some (with_journal s.journal) })

-- `lane in lanes`; `none` is the TypeError.
abbrev pub lane_in : String → Option Json → Option Bool
lane_in lane none = some false
lane_in lane (some (arr xs)) = some (any_of (is_text lane) (items xs))
lane_in lane (some (str s)) = some (has_infix lane s)
lane_in lane (some (obj fs)) = some (Dict.has lane (entries fs))
lane_in lane (some _) = none

pub data JournalError : Type 0 where
  not_initialized unknown_lane unknown_event_type type_error : JournalError

pub record AppendRequest : Type 0 where
  pub event_type : String
  pub lane : String
  pub object_id : Option String
  pub producer : String
  pub payload : Option Object

-- `x or d`
abbrev pub or_text : Option String → String → String
or_text none d = d
or_text (some s) d = if s == "" then d else s

abbrev pub or_object : Option Object → Object
or_object none = []
or_object (some o) = o

-- `int(j)`
unfoldable pub int_of : (String → Option ℤ) → Json → Option ℤ
int_of parse_int (int z) = some z
int_of parse_int (bool true) = some (pos 1)
int_of parse_int (bool false) = some (pos 0)
int_of parse_int (float (pos m) e) = some (pos (m / 10 ^ e))
int_of parse_int (float (negsuc m) e) = some (negated ((m + 1) / 10 ^ e))
int_of parse_int (str s) = parse_int s
int_of parse_int _ = none

module _ (padded decimal : ℕ → String) (parse_int : String → Option ℤ) (message : ℕ → String)
    (now : String) where
  -- The event that stands for a line which is no JSON.
  unfoldable pub corrupt_event : ℕ → Object
  unfolding fields
  corrupt_event n =
      ("schema", str journal_schema)
      ∷ ("event_id", str ("corrupt-line-" <> decimal n))
      ∷ ("event_type", str "corrupt")
      ∷ ("lane", str "repair")
      ∷ ("object_id", null)
      ∷ ("producer", str "local-store-reader")
      ∷ ("created_at", str now)
      ∷ ("payload", obj (fields (("line_number", int (pos n)) ∷ ("error", str (message n)) ∷ [])))
      ∷ ("applied", bool false)
      ∷ []

  unfoldable pub iter_lines : ℕ → List Line → List Json
  unfolding corrupt_event fields
  iter_lines n [] = []
  iter_lines n (blank ∷ ls) = iter_lines (n + 1) ls
  iter_lines n (broken ∷ ls) = obj (fields (corrupt_event n)) ∷ iter_lines (n + 1) ls
  iter_lines n (value j ∷ ls) = j ∷ iter_lines (n + 1) ls

  unfoldable pub iter_events : LocalStore → List Json
  unfolding iter_lines
  iter_events s = iter_lines 1 (with_journal s.journal)

  unfoldable pub next_event_id : LocalStore → String
  unfolding iter_events
  next_event_id s = "evt-" <> padded (length (iter_events s) + 1)

  unfoldable pub journal_event : AppendRequest → String → Object
  unfolding fields
  journal_event q event_id =
      ("schema", str journal_schema)
      ∷ ("event_id", str event_id)
      ∷ ("event_type", str q.event_type)
      ∷ ("lane", str q.lane)
      ∷ ("object_id", str (or_text q.object_id ("object-" <> event_id)))
      ∷ ("producer", str q.producer)
      ∷ ("created_at", str now)
      ∷ ("payload", obj (fields (or_object q.payload)))
      ∷ ("applied", bool true)
      ∷ []

  unfoldable pub write_line : Object → LocalStore → LocalStore
  unfolding fields
  write_line e s = record s { journal = some (with_journal s.journal ++ line_of e ∷ []) }

  -- The line is written before the generation is read.
  abbrev pub next_generation :
      Object → Object → LocalStore → Option ℤ → LocalStore × (JournalError ⊎ Object)
  next_generation e m s none = (s, inl type_error)
  next_generation e m s (some g) =
      (write_manifest now (Dict.put "active_generation" (int (g +ℤ pos 1)) m) s, inr e)

  unfoldable pub append_checked :
      AppendRequest → Object → LocalStore → LocalStore × (JournalError ⊎ Object)
  unfolding next_event_id journal_event write_line int_of field_or write_manifest
  append_checked q m s =
      let e = journal_event q (next_event_id s) in
      next_generation e m (write_line e s)
        (int_of parse_int (field_or "active_generation" (int (pos 1)) m))

  abbrev pub append_in :
      AppendRequest → Object → LocalStore → Option Bool → LocalStore × (JournalError ⊎ Object)
  append_in q m s none = (s, inl type_error)
  append_in q m s (some false) = (s, inl unknown_lane)
  append_in q m s (some true) =
      if contains event_types q.event_type
      then append_checked q m s
      else (s, inl unknown_event_type)

  abbrev pub append_to :
      AppendRequest → LocalStore → Option Object → LocalStore × (JournalError ⊎ Object)
  append_to q s none = (s, inl not_initialized)
  append_to q s (some m) = append_in q m s (lane_in q.lane (Dict.get "lanes" m))

  unfoldable pub append_event : AppendRequest → LocalStore → LocalStore × (JournalError ⊎ Object)
  unfolding append_checked items is_text has_infix entries Dict.get Dict.has
  append_event q s = append_to q s s.manifest

  -- The requests one after the other.
  unfoldable pub append_all : List AppendRequest → LocalStore → LocalStore
  unfolding append_event
  append_all [] s = s
  append_all (q ∷ qs) s = append_all qs (append_event q s).0
