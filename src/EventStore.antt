-- ===== src/EventStore.antt =====
-- tools/sourceos_eventctl.py: the store of canonical events, a file with one JSON value in each line.
-- A file that is not there is a file without lines. The validator of the event schema is a parameter,
-- which gives the messages of an event. Every writer ends its line, so a line is appended as one.
pub mod Emit
pub mod Firsts
pub mod Verified
use sourceos_syncd.Prelude.{
  ℕ, suc, ◌+◌, String, Bool, true, false, not, Option, none, some, List, [], ◌∷◌, ◌++◌, map, ◌==◌,
  string_eq, contains, nat_beq, ◌&&◌, if◌then◌else◌,
}
use sourceos_syncd.Prelude.Dict
use sourceos_syncd.Json.{Json, obj, Object, fields, entries, get_json, is_text, as_object}
use sourceos_syncd.Show.{to_str, str_field}

-- A line of the file: white space, no JSON, or a value.
pub data Line : Type 0 where
  blank broken : Line
  value : Json → Line

pub data BadLine : Type 0 where
  invalid_record not_an_object : BadLine

-- What `iter_store` yields, with the number of the line.
pub data Entry : Type 0 where
  event : ℕ → Object → Entry
  bad : ℕ → BadLine → Entry

unfoldable pub iter_store : ℕ → List Line → List Entry
unfolding entries
iter_store n [] = []
iter_store n (blank ∷ ls) = iter_store (n + 1) ls
iter_store n (broken ∷ ls) = bad n invalid_record ∷ iter_store (n + 1) ls
iter_store n (value (obj fs) ∷ ls) = event n (entries fs) ∷ iter_store (n + 1) ls
iter_store n (value _ ∷ ls) = bad n not_an_object ∷ iter_store (n + 1) ls

unfoldable pub find_in : String → List Entry → Option Object
unfolding is_text get_json
find_in id [] = none
find_in id (bad n b ∷ es) = find_in id es
find_in id (event n e ∷ es) =
    let rest = find_in id es in if is_text id (get_json "event_id" e) then some e else rest

unfoldable pub find_event : List Line → String → Option Object
unfolding find_in iter_store
find_event store id = find_in id (iter_store 1 store)

abbrev pub line_of : Object → Line
line_of e = value (obj (fields e))

unfoldable pub append_event : List Line → Object → List Line
unfolding fields
append_event store e = store ++ line_of e ∷ []

-- The exit code, or that a KeyError ends the command.
pub data Exit : Type 0 where
  succeeded failed raised : Exit

pub data StoreProblem : Type 0 where
  bad_line : ℕ → BadLine → StoreProblem
  duplicate : ℕ → String → StoreProblem
  invalid : ℕ → String → StoreProblem
  no_events : StoreProblem

abbrev pub is_some {ℓ} : {A : Type ℓ} → Option A → Bool
is_some none = false
is_some (some _) = true

module _ (text_of : Json → String) (validate_event_obj : Object → List String) where
  abbrev pub if_valid : Object → List String → Option Object
  if_valid e [] = some e
  if_valid e (_ ∷ _) = none

  abbrev pub if_object : Option Object → Option Object
  if_object none = none
  if_object (some e) = if_valid e (validate_event_obj e)

  -- The event without the messages, `none` if there are some.
  unfoldable pub load_valid_event : Json → Option Object
  unfolding as_object
  load_valid_event j = if_object (as_object j)

  unfoldable pub cmd_validate : Json → Exit
  unfolding load_valid_event
  cmd_validate j = if is_some (load_valid_event j) then succeeded else failed

  -- The valid event is written, unless it is a duplicate; its id is read for that and at the end.
  unfoldable pub write_valid : Bool → List Line → Object → Option Json → List Line × Exit
  unfolding to_str find_event append_event
  write_valid true store e none = (store, raised)
  write_valid false store e none = (append_event store e, raised)
  write_valid true store e (some id) =
      if is_some (find_event store (to_str text_of id))
      then (store, failed)
      else (append_event store e, succeeded)
  write_valid false store e (some id) = (append_event store e, succeeded)

  abbrev pub write_loaded : Bool → List Line → Option Object → List Line × Exit
  write_loaded reject_duplicate store none = (store, failed)
  write_loaded reject_duplicate store (some e) =
      write_valid reject_duplicate store e (Dict.get "event_id" e)

  unfoldable pub cmd_write : Bool → List Line → Json → List Line × Exit
  unfolding load_valid_event write_valid Dict.get
  cmd_write reject_duplicate store j = write_loaded reject_duplicate store (load_valid_event j)

  abbrev pub invalids : ℕ → List String → List StoreProblem
  invalids n [] = []
  invalids n (m ∷ ms) = invalid n m ∷ invalids n ms

  unfoldable pub verify_entries : List String → List Entry → List StoreProblem
  unfolding str_field
  verify_entries seen [] = []
  verify_entries seen (bad n b ∷ es) = bad_line n b ∷ verify_entries seen es
  verify_entries seen (event n e ∷ es) =
      let id = str_field text_of "event_id" "" e in
      (if contains seen id
        then duplicate n id ∷ (invalids n (validate_event_obj e) ++ verify_entries seen es)
        else invalids n (validate_event_obj e) ++ verify_entries (id ∷ seen) es)

  unfoldable pub count_events : List Entry → ℕ
  count_events [] = 0
  count_events (bad n b ∷ es) = count_events es
  count_events (event n e ∷ es) = suc (count_events es)

  abbrev pub no_events_if : Bool → List StoreProblem
  no_events_if true = no_events ∷ []
  no_events_if false = []

  -- The errors that are printed; without one the command succeeds.
  unfoldable pub cmd_verify_store : Bool → List Line → List StoreProblem
  unfolding verify_entries count_events iter_store
  cmd_verify_store fail_empty store =
      verify_entries [] (iter_store 1 store)
      ++ no_events_if (fail_empty && nat_beq (count_events (iter_store 1 store)) 0)

  -- The command on one file after the other.
  unfoldable pub write_all : List Json → List Line → List Line
  unfolding cmd_write
  write_all [] store = store
  write_all (j ∷ js) store = write_all js (cmd_write true store j).0

unfoldable pub cmd_show : List Line → String → Option Object
unfolding find_event
cmd_show store id = find_event store id

-- The events that are printed, and whether a line was bad; the first bad line ends the command.
unfoldable pub list_entries : List Entry → List Object × Bool
list_entries [] = ([], true)
list_entries (bad n b ∷ es) = ([], false)
list_entries (event n e ∷ es) = let rest = list_entries es in (e ∷ rest.0, rest.1)

abbrev pub is_empty {ℓ} : {A : Type ℓ} → List A → Bool
is_empty [] = true
is_empty (_ ∷ _) = false

unfoldable pub cmd_list : Bool → List Line → List Object × Exit
unfolding list_entries iter_store
cmd_list fail_empty store =
    let printed = list_entries (iter_store 1 store) in
    (
      printed.0,
      (if printed.1
          then (if fail_empty
              then (if is_empty printed.0 then failed else succeeded)
              else succeeded)
          else failed),
    )
