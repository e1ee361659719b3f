-- ===== src/Reports/Sections.antt =====
-- The checks of `validate_report`, one function for each section of a report.
use sourceos_syncd.Prelude.{
  ℕ, ◌+◌, String, Bool, false, not, ◌&&◌, Option, none, some, List, [], ◌∷◌, ◌++◌, string_eq,
  contains, if◌then◌else◌, starts_with,
}
use sourceos_syncd.Prelude.Dict
use sourceos_syncd.Prelude.Signed.{ℤ, pos, eqb_ℤ}
use sourceos_syncd.Json.{Json, null, str, obj, Object, entries, get_json, in_set}
use sourceos_syncd.Show.{str_field}
use sourceos_syncd.Reports.Checks.{
  Library, Found, Complaint, about, at, ◌also◌, complain, flag, outside, as_int, is_nonnegative_int,
  nonneg_of, is_arr, absent, parse_instant,
}
use sourceos_syncd.Reports.Shape.{
  required_identity_keys, required_collection_keys, required_store_keys, required_lane_keys,
  collection_statuses, store_roles, migration_states, checksum_states, lane_statuses, has_suffix,
  hex_value,
}

unfoldable pub check_identity : Library → Json → Found
unfolding flag absent is_nonnegative_int str_field
check_identity lib (obj fs) =
    let identity = entries fs in
    some (absent (about "identity") identity required_identity_keys)
    also flag (not (is_nonnegative_int (get_json "pid" identity)))
        (about "identity.pid" "must be a non-negative integer")
    also flag (not (starts_with (str_field lib.text_of "node_id_hash" "" identity) "sha256:"))
        (about "identity.node_id_hash" "must start with sha256:")
check_identity lib _ = some (about "identity" "must be an object" ∷ [])

unfoldable pub check_lists : List String → Object → List Complaint
unfolding is_arr get_json
check_lists [] r = []
check_lists (k ∷ ks) r =
    complain (not (is_arr (get_json k r))) (about k "must be a list") ++ check_lists ks r

unfoldable pub check_collection : Json → Found
unfolding absent outside in_set check_lists
check_collection (obj fs) =
    let collection = entries fs in
    some (absent (about "collection") collection required_collection_keys)
    also outside (in_set collection_statuses (get_json "status" collection))
        (about "collection.status" "is invalid")
    also some (
        check_lists
          ("errors" ∷ "redacted_fields" ∷ "permission_denied_fields" ∷ "timed_out_fields"
            ∷ "unavailable_fields" ∷ [])
          collection)
check_collection _ = some (about "collection" "must be an object" ∷ [])

abbrev pub no_instant : Option (Option String) → Complaint → Found
no_instant none c = none
no_instant (some none) c = some (c ∷ [])
no_instant (some (some t)) c = some []

-- `value is not None and parse_instant(value) is None`
unfoldable pub check_time : Library → String → Json → Found
unfolding parse_instant
check_time lib k null = some []
check_time lib k j =
    no_instant (parse_instant lib j) (about k "must be null or an ISO-8601 timestamp")

unfoldable pub check_times : Library → Object → Found
unfolding check_time has_suffix
check_times lib [] = some []
check_times lib ((k, j) ∷ r) =
    (if has_suffix "_at" k then check_time lib k j else some []) also check_times lib r

unfoldable pub check_runtime : Library → Json → Found
unfolding check_times
check_runtime lib (obj fs) = check_times lib (entries fs)
check_runtime lib _ = some (about "runtime" "must be an object" ∷ [])

-- The name among those seen, and with them.
abbrev pub repeated : Json → List String → Bool
repeated (str s) seen = contains seen s
repeated _ seen = false

abbrev pub also_seen : Json → List String → List String
also_seen (str s) seen = s ∷ seen
also_seen _ seen = seen

abbrev pub hex_complaint : String → Option ℕ → Option ℤ → List String
hex_complaint s none raw = "flags_hex must be a hexadecimal string" ∷ []
hex_complaint s (some n) none = []
hex_complaint s (some n) (some z) =
    if nonneg_of (some z) && not (eqb_ℤ (pos n) z)
    then "flags_hex does not match flags_raw" ∷ []
    else []

abbrev pub flags_complaint : Option Json → Option ℤ → List String
flags_complaint none raw = []
flags_complaint (some (str s)) raw = hex_complaint s (hex_value s) raw
flags_complaint (some _) raw = "flags_hex must be a hexadecimal string" ∷ []

abbrev pub placed : String → ℕ → List String → List Complaint
placed part index [] = []
placed part index (w ∷ ws) = at part index w ∷ placed part index ws

unfoldable pub check_store : ℕ → List String → Object → Found
unfolding flag outside absent in_set is_nonnegative_int as_int get_json Dict.has Dict.get hex_value
check_store index seen store =
    some (absent (at "stores" index) store required_store_keys)
    also flag (repeated (get_json "name" store) seen) (at "stores" index "duplicate name")
    also outside (in_set store_roles (get_json "role" store)) (at "stores" index "role")
    also outside (in_set migration_states (get_json "migration_state" store))
        (at "stores" index "migration_state")
    also outside (in_set checksum_states (get_json "checksum_state" store))
        (at "stores" index "checksum_state")
    also flag (Dict.has "flags_raw" store && not (is_nonnegative_int (get_json "flags_raw" store)))
        (at "stores" index "flags_raw")
    also some (
        placed "stores" index
          (flags_complaint (Dict.get "flags_hex" store) (as_int (get_json "flags_raw" store))))

unfoldable pub check_stores : ℕ → List String → List Json → Found
unfolding check_store
check_stores index seen [] = some []
check_stores index seen (obj fs ∷ js) =
    check_store index seen (entries fs)
    also check_stores (index + 1) (also_seen (get_json "name" (entries fs)) seen) js
check_stores index seen (_ ∷ js) =
    some (at "stores" index "must be an object" ∷ []) also check_stores (index + 1) seen js

unfoldable pub check_numbers : (String → Complaint) → Object → List Complaint
unfolding is_nonnegative_int
check_numbers complaint [] = []
check_numbers complaint ((k, j) ∷ r) =
    complain (not (is_nonnegative_int j)) (complaint k) ++ check_numbers complaint r

-- `lane.get(section, {})`
abbrev pub check_counts : ℕ → Option Json → List Complaint
check_counts index none = []
check_counts index (some (obj fs)) = check_numbers (at "lanes" index) (entries fs)
check_counts index (some _) = at "lanes" index "must be an object" ∷ []

abbrev pub journal_keys : List String
journal_keys =
    "segment_count" ∷ "total_bytes" ∷ "max_segment_bytes" ∷ "oldest_unapplied_event_age_ms"
    ∷ "replay_lag_events" ∷ "replay_lag_bytes" ∷ "replay_eta_ms" ∷ []

unfoldable pub check_keys : (String → Complaint) → List String → Object → List Complaint
unfolding Dict.has is_nonnegative_int get_json
check_keys complaint [] r = []
check_keys complaint (k ∷ ks) r =
    complain (Dict.has k r && not (is_nonnegative_int (get_json k r))) (complaint k)
    ++ check_keys complaint ks r

abbrev pub check_journal : ℕ → Option Json → List Complaint
check_journal index none = []
check_journal index (some (obj fs)) = check_keys (at "lanes" index) journal_keys (entries fs)
check_journal index (some _) = at "lanes" index "must be an object" ∷ []

unfoldable pub check_lane : ℕ → List String → Object → Found
unfolding flag outside absent in_set check_numbers check_keys get_json Dict.get
check_lane index seen lane =
    some (absent (at "lanes" index) lane required_lane_keys)
    also flag (repeated (get_json "name" lane) seen) (at "lanes" index "duplicate name")
    also outside (in_set lane_statuses (get_json "status" lane)) (at "lanes" index "status")
    also some (check_counts index (Dict.get "sla" lane))
    also some (check_counts index (Dict.get "objects" lane))
    also some (check_journal index (Dict.get "journal" lane))

unfoldable pub check_lanes_from : ℕ → List String → List Json → Found
unfolding check_lane
check_lanes_from index seen [] = some []
check_lanes_from index seen (obj fs ∷ js) =
    check_lane index seen (entries fs)
    also check_lanes_from (index + 1) (also_seen (get_json "name" (entries fs)) seen) js
check_lanes_from index seen (_ ∷ js) =
    some (at "lanes" index "must be an object" ∷ []) also check_lanes_from (index + 1) seen js

unfoldable pub check_lanes : List Json → Found
unfolding check_lanes_from
check_lanes [] = some (about "lanes" "must be a non-empty list" ∷ [])
check_lanes (j ∷ js) = check_lanes_from 0 [] (j ∷ js)
