-- ===== src/Contracts.antt =====
-- src/sourceos_syncd/contracts.py: the validation of contract records and their classes. A set is
-- gone through in the order of its literal, so which of several wrong fields is named first is not
-- told; `text_of` is `str` on numbers and containers.
mod Shape
pub mod Sets
mod Records
mod Events
pub mod Sound
pub mod Build
pub mod Card
pub mod Decisions
pub use Shape.*
pub use Records.*
pub use Events.*
use sourceos_syncd.Prelude.{
  String, Bool, true, false, not, ◌||◌, Option, none, some, List, [], ◌∷◌, map, ◌++◌, ◌==◌,
  string_eq, contains, any_of, all_of, keep, if◌then◌else◌,
}
use sourceos_syncd.Prelude.Dict
use sourceos_syncd.Prelude.Dict.{Dict}
use sourceos_syncd.Json.{
  Json, null, bool, str, arr, obj, Object, get_json, items, as_object, as_list,
}
use sourceos_syncd.Show.{to_str}

-- Why a record is refused; `type_error` is an exception of Python's own.
pub data Refusal : Type 0 where
  schema_missing schema_unknown : Refusal
  missing : List String → Refusal
  not_allowed not_list not_mapping : String → Refusal
  bad_capabilities bad_options bad_recommended bad_selected type_error : Refusal

-- The first refusal of two checks.
unfoldable pub or_next : Option Refusal → Option Refusal → Option Refusal
or_next none b = b
or_next (some e) b = some e

abbrev pub refuse : Bool → Refusal → Option Refusal
refuse true e = some e
refuse false e = none

abbrev pub missing_of : List String → Option Refusal
missing_of [] = none
missing_of (n ∷ ns) = some (missing (n ∷ ns))

unfoldable pub require_fields : List String → Object → Option Refusal
unfolding Dict.has
require_fields names r = missing_of (keep (λ n. not (Dict.has n r)) names)

unfoldable pub is_list : Json → Bool
is_list (arr _) = true
is_list _ = false

unfoldable pub is_mapping : Json → Bool
is_mapping (obj _) = true
is_mapping _ = false

unfoldable pub require_lists : List String → Object → Option Refusal
unfolding or_next is_list
require_lists [] r = none
require_lists (f ∷ fs) r =
    or_next (refuse (not (is_list (get_json f r))) (not_list f)) (require_lists fs r)

unfoldable pub require_mappings : List String → Object → Option Refusal
unfolding or_next is_mapping
require_mappings [] r = none
require_mappings (f ∷ fs) r =
    or_next (refuse (not (is_mapping (get_json f r))) (not_mapping f)) (require_mappings fs r)

abbrev pub actor_capabilities : List String
actor_capabilities =
    "read" ∷ "write" ∷ "delete" ∷ "merge" ∷ "repair" ∷ "migrate_schema" ∷ "export" ∷ "replicate"
    ∷ []

abbrev pub decision_card_options : List String
decision_card_options = "merge" ∷ "fork" ∷ "skip" ∷ []

abbrev pub card_fields : List String
card_fields =
    "card_id" ∷ "options" ∷ "recommended_option" ∷ "selected_option" ∷ "rationale" ∷ "selected_by"
    ∷ "selected_at" ∷ []

abbrev pub is_unhashable : Json → Bool
is_unhashable (arr _) = true
is_unhashable (obj _) = true
is_unhashable _ = false

abbrev pub is_capability : Json → Bool
is_capability (str s) = contains actor_capabilities s
is_capability _ = false

-- `set(capabilities) - ACTOR_CAPABILITIES`, empty or not; the exception of sorting values of different
-- types is not told from the refusal.
unfoldable pub check_capabilities : List Json → Option Refusal
unfolding or_next
check_capabilities js =
    or_next (refuse (any_of is_unhashable js) type_error)
      (refuse (not (all_of is_capability js)) bad_capabilities)

abbrev pub list_or_nil : Option (List Json) → List Json
list_or_nil none = []
list_or_nil (some js) = js

module _ (text_of : Json → String) where
  -- `require_allowed` for each controlled field.
  unfoldable pub require_all_allowed : List (String × List String) → Object → Option Refusal
  unfolding or_next to_str get_json
  require_all_allowed [] r = none
  require_all_allowed ((f, allowed) ∷ fs) r =
      or_next (refuse (not (contains allowed (to_str text_of (get_json f r)))) (not_allowed f))
        (require_all_allowed fs r)

  abbrev pub texts : List Json → List String
  texts js = map (to_str text_of) js

  -- The options that a card offers, against the ones that it recommends and that were selected.
  unfoldable pub check_options : List String → Object → Option Refusal
  unfolding or_next
  check_options options card =
      or_next (refuse (not (all_of (contains decision_card_options) options)) bad_options) (
        or_next
          (refuse (not (contains options (to_str text_of (get_json "recommended_option" card))))
            bad_recommended)
          (refuse (not (contains options (to_str text_of (get_json "selected_option" card))))
            bad_selected))

  unfoldable pub check_listed : Option (List Json) → Object → Option Refusal
  unfolding check_options
  check_listed none card = some (not_list "options")
  check_listed (some js) card = check_options (texts js) card

  unfoldable pub check_card : Option Object → Option Refusal
  unfolding or_next require_fields check_listed as_list
  check_card none = some (not_mapping "decision_card")
  check_card (some card) =
      or_next (require_fields card_fields card)
        (check_listed (as_list (get_json "options" card)) card)

  unfoldable pub check_extra : ExtraCheck → Object → Option Refusal
  unfolding check_capabilities check_card
  check_extra no_check r = none
  check_extra capabilities_check r =
      check_capabilities (list_or_nil (as_list (get_json "capabilities" r)))
  check_extra card_check r = check_card (as_object (get_json "decision_card" r))

  -- `validate_dict` of the class; `none` is that it returns the record.
  unfoldable pub validate_dict : Contract → Object → Option Refusal
  unfolding or_next require_fields require_all_allowed require_lists require_mappings check_extra
  validate_dict c r = or_next (require_fields c.required_fields r) (
      or_next (require_all_allowed c.controlled_fields r) (
        or_next (require_lists c.list_fields r)
          (or_next (require_mappings c.mapping_fields r) (check_extra c.extra_check r))))

abbrev pub contract_types : List Contract
contract_types =
    profile_record ∷ device_trust_record ∷ actor_record ∷ schema_contract_record
    ∷ source_object_record ∷ sync_plan_record ∷ conflict_record ∷ policy_decision_record
    ∷ integrity_event_record ∷ agent_object_transaction_record ∷ workspace_operation_record
    ∷ operation_task_record ∷ []

-- `CONTRACT_TYPES.get(schema)`
unfoldable pub contract_in : List Contract → String → Option Contract
contract_in [] schema = none
contract_in (c ∷ cs) schema = if schema == c.schema then some c else contract_in cs schema

unfoldable pub validate_schema : (Json → String) → Json → Object → Option Refusal
unfolding contract_in validate_dict
validate_schema text_of (str schema) r = elim (contract_in contract_types schema) [
  | none ↦ some schema_unknown
  | some c ↦ validate_dict text_of c r
]
validate_schema text_of _ r = some schema_missing

unfoldable pub validate_contract : (Json → String) → Object → Option Refusal
unfolding validate_schema get_json
validate_contract text_of r = validate_schema text_of (get_json "schema" r) r
