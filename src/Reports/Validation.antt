-- ===== src/Reports/Validation.antt =====
-- `validate_report`: the shape first, then every section.
use sourceos_syncd.Prelude.{String, none, some, List, [], ◌∷◌}
use sourceos_syncd.Json.{Json, arr, Object, items, get_json}
use sourceos_syncd.Reports.Checks.{Library, Found, about, ◌also◌, parse_instant}
use sourceos_syncd.Reports.Shape.{validate_shape}
use sourceos_syncd.Reports.Sections.{
  no_instant, check_identity, check_collection, check_runtime, check_stores, check_lanes,
}
use sourceos_syncd.Reports.Resources.{check_resources, check_policy, check_invariants_from}

abbrev pub listed : String → (List Json → Found) → Json → Found
listed part check (arr xs) = check (items xs)
listed part check _ = some (about part "must be a list" ∷ [])

unfoldable pub check_generated_at : Library → Object → Found
unfolding parse_instant get_json
check_generated_at lib r =
    no_instant (parse_instant lib (get_json "generated_at" r))
      (about "generated_at" "must be an ISO-8601 timestamp")

unfoldable pub validate_sections : Library → Object → Found
unfolding get_json check_generated_at check_identity check_collection check_runtime check_stores
    check_lanes check_resources check_policy check_invariants_from
validate_sections lib r =
    check_generated_at lib r
    also check_identity lib (get_json "identity" r)
    also check_collection (get_json "collection" r)
    also check_runtime lib (get_json "runtime" r)
    also listed "stores" (check_stores 0 []) (get_json "stores" r)
    also listed "lanes" check_lanes (get_json "lanes" r)
    also check_resources (get_json "resources" r)
    also check_policy (get_json "policy" r)
    also listed "invariants" (check_invariants_from 0) (get_json "invariants" r)

-- The errors of the shape are returned alone.
abbrev pub after_shape : Found → Found → Found
after_shape none rest = none
after_shape (some []) rest = rest
after_shape (some (c ∷ cs)) rest = some (c ∷ cs)

unfoldable pub validate_report : Library → Object → Found
unfolding validate_shape validate_sections
validate_report lib r = after_shape (validate_shape r) (validate_sections lib r)
