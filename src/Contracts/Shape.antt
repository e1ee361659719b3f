-- ===== src/Contracts/Shape.antt =====
-- A contract type of src/sourceos_syncd/contracts.py: the class variables and the fields of its class.
use sourceos_syncd.Prelude.{String, Bool, List}
use sourceos_syncd.Json.{Object}

-- What a class adds to the checks of its base.
pub data ExtraCheck : Type 0 where
  no_check capabilities_check card_check : ExtraCheck

-- `fields` have no default, `optional_fields` have the one given; `renames` is for the class that keeps
-- the key `required_fields` in the field `required_field_names`.
pub record Contract : Type 0 where
  pub schema : String
  pub required_fields : List String
  pub controlled_fields : List (String × List String)
  pub list_fields : List String
  pub mapping_fields : List String
  pub extra_check : ExtraCheck
  pub fields : List String
  pub optional_fields : Object
  pub renames : Bool
