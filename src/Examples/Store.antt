-- ===== src/Examples/Store.antt =====
-- The event store filled with three files, of which one is a duplicate and one is no event.
use sourceos_syncd.Prelude.{
  ℕ, ◌+◌, ◌++◌, nat_beq, length, String, string_eq, true, false, Option, none, some, List, [], ◌∷◌,
  ◌≡◌, refl,
}
use sourceos_syncd.Prelude.Dict
use sourceos_syncd.Prelude.Signed.{ℤ}
use sourceos_syncd.Json.{entries, items, Json, bool, str, obj, Object, fields}
use sourceos_syncd.EventStore.{write_all, cmd_verify_store}
use sourceos_syncd.LocalStore.{LocalStore}
use sourceos_syncd.LocalStore.Journal.{AppendRequest, init, with_journal, iter_events, append_all}
use sourceos_syncd.LocalStore.Journal.Numbered.{IsNumbered, values, append_all-IsNumbered}
use sourceos_syncd.EventStore.Firsts.{AsksForId, firsts, stored, write_all-firsts}
use sourceos_syncd.EventStore.Verified.{verify-write_all}

abbrev plain_text : Json → String
plain_text j = ""

abbrev journal_length : LocalStore → ℕ
journal_length s = length (with_journal s.journal)

-- A schema that asks for the id alone.
abbrev no_text : Option Json → List String
no_text (some (str id)) = []
no_text _ = "event_id is required" ∷ []

abbrev id_schema : Object → List String
id_schema e = no_text (Dict.get "event_id" e)

no_text-id : (o : Option Json) → no_text o ≡ [] → (id : String) × (o ≡ some (str id))
no_text-id (some (str id)) h = (id, refl)
no_text-id none h = cc
no_text-id (some _) h = cc

id_schema-AsksForId : AsksForId plain_text id_schema
id_schema-AsksForId e h = no_text-id (Dict.get "event_id" e) h

abbrev started : Object
started = ("event_id", str "evt_start") ∷ ("outcome", str "observed") ∷ []

abbrev started_twice : Object
started_twice = ("event_id", str "evt_start") ∷ ("outcome", str "failed") ∷ []

abbrev files : List Json
files = obj (fields started) ∷ obj (fields started_twice) ∷ bool true ∷ []

write_all-firsts_example :
    write_all plain_text id_schema files []
    ≡ stored plain_text id_schema (firsts plain_text id_schema files)
write_all-firsts_example = write_all-firsts plain_text id_schema id_schema-AsksForId files

files-firsts : firsts plain_text id_schema files ≡ started ∷ []
unfolding firsts string_eq fields Dict.get
files-firsts = refl

verify-write_all_example :
    cmd_verify_store plain_text id_schema false (write_all plain_text id_schema files []) ≡ []
verify-write_all_example = verify-write_all plain_text id_schema id_schema-AsksForId files

abbrev fresh_store : LocalStore
fresh_store = init "now" (record { manifest = none; journal = none; registries = [] })

abbrev add_object : AppendRequest
add_object = record {
  event_type = "add";
  lane = "normal";
  object_id = none;
  producer = "manual";
  payload = none;
}

abbrev wrong_lane : AppendRequest
wrong_lane = record add_object { lane = "fast" }

abbrev shown : ℕ → String
shown n = elim (nat_beq n 1) [ true ↦ "00000001" | false ↦ "00000002" ]

abbrev no_number : String → Option ℤ
no_number s = none

abbrev broken_text : ℕ → String
broken_text n = "broken"

requests-journal :
    journal_length (
      append_all shown shown no_number broken_text "now"
        (add_object ∷ wrong_lane ∷ add_object ∷ [])
        fresh_store)
    ≡ 2
unfolding append_all init string_eq fields entries items
requests-journal = refl

append_all-IsNumbered_example :
    let qs = add_object ∷ wrong_lane ∷ add_object ∷ [] in
    (es : List Object) × (iter_events shown shown no_number broken_text "now"
        (append_all shown shown no_number broken_text "now" qs fresh_store)
      ≡ iter_events shown shown no_number broken_text "now" fresh_store
        ++ values shown shown no_number broken_text "now" es)
    × IsNumbered shown shown no_number broken_text "now"
        (length (iter_events shown shown no_number broken_text "now" fresh_store) + 1)
        es
append_all-IsNumbered_example =
    append_all-IsNumbered shown shown no_number broken_text "now"
      (add_object ∷ wrong_lane ∷ add_object ∷ []) fresh_store
