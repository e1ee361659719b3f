-- ===== src/LocalStore.antt =====
-- src/sourceos_syncd/local_store.py: the registries of the local state store. A registry is a
-- dictionary from file names to records, `manifest` says whether the store is initialized, and
-- `journal` is the journal's file, if there is one: its lines, each with its end.
pub mod Registry
pub mod Journal
use Prim.Native.Char.{Char}
use Prim.Native.String.{compare}
use Prim.Native.Nat.{Ordering}
use sourceos_syncd.Prelude.{
  String, ◌<>◌, Bool, true, false, not, ◌⊎◌, inl, inr, Option, none, some, List, [], ◌∷◌, ◌==◌,
  string_eq, if◌then◌else◌,
}
use sourceos_syncd.Prelude.Dict
use sourceos_syncd.Prelude.Dict.{Dict}
use sourceos_syncd.Json.{str, Object}
use sourceos_syncd.SafeId.{safe_id}
use sourceos_syncd.EventStore.{Line}

pub record LocalStore : Type 0 where
  pub manifest : Option Object
  pub journal : Option (List Line)
  pub registries : Dict (Dict Object)

-- `ValueError` of an unknown kind, `FileNotFoundError` of a store that is not initialized and of a
-- record that is not there, `ValueError` of an empty id.
pub data StoreError : Type 0 where
  unknown_kind not_initialized not_found empty_id : StoreError

-- REGISTRY_KINDS with RECORD_SCHEMAS.
abbrev pub record_schemas : Dict String
record_schemas =
    ("profiles", "sourceos.profile-record/v1alpha1")
    ∷ ("devices", "sourceos.device-record/v1alpha1")
    ∷ ("actors", "sourceos.actor-record/v1alpha1")
    ∷ ("schemas", "sourceos.schema-record/v1alpha1")
    ∷ ("objects", "sourceos.object-record/v1alpha1")
    ∷ ("indexes", "sourceos.index-record/v1alpha1")
    ∷ ("repair-reports", "sourceos.repair-report/v1alpha1")
    ∷ []

abbrev pub files_of : Option (Dict Object) → Dict Object
files_of none = []
files_of (some files) = files

-- The files of a registry, none if its directory is missing.
unfoldable pub registry : String → LocalStore → Dict Object
unfolding Dict.get
registry kind s = files_of (Dict.get kind s.registries)

-- `d.setdefault(k, v)`
abbrev pub set_default : String → String → Object → Object
set_default k v d = if Dict.has k d then d else Dict.put k (str v) d

-- The record that is written.
unfoldable pub stamped : String → String → String → Object → Object
stamped now id schema r =
    Dict.put "updated_at" (str now) (set_default "schema" schema (set_default "record_id" id r))

unfoldable pub write_record : String → String → Object → LocalStore → LocalStore
write_record kind name stored s = record s {
  registries = Dict.put kind (Dict.put name stored (registry kind s)) s.registries;
}

unfoldable pub found : Option Object → StoreError ⊎ Object
found none = inl not_found
found (some r) = inr r

module _ (is_alnum : Char → Bool) where
  abbrev pub file_of : String → Option String
  file_of id = elim (safe_id is_alnum id) [ none ↦ none | some name ↦ some (name <> ".json") ]

  unfoldable pub put_named :
      String
      → String
      → String
      → Object
      → String
      → LocalStore
      → Option String
      → LocalStore × (StoreError ⊎ Object)
  unfolding write_record stamped
  put_named now kind id r schema s none = (s, inl empty_id)
  put_named now kind id r schema s (some name) =
      let stored = stamped now id schema r in (write_record kind name stored s, inr stored)

  -- The kind's schema, if the kind is known, and the manifest.
  unfoldable pub put_known :
      String
      → String
      → String
      → Object
      → LocalStore
      → Option String
      → Option Object
      → LocalStore × (StoreError ⊎ Object)
  unfolding put_named
  put_known now kind id r s none manifest = (s, inl unknown_kind)
  put_known now kind id r s (some schema) none = (s, inl not_initialized)
  put_known now kind id r s (some schema) (some _) = put_named now kind id r schema s (file_of id)

  unfoldable pub put_record :
      String → String → String → Object → LocalStore → LocalStore × (StoreError ⊎ Object)
  unfolding put_known
  put_record now kind id r s = put_known now kind id r s (Dict.get kind record_schemas) s.manifest

  unfoldable pub get_named : String → Option String → LocalStore → StoreError ⊎ Object
  unfolding found
  get_named kind none s = inl empty_id
  get_named kind (some name) s = found (Dict.get name (registry kind s))

  unfoldable pub get_record : String → String → LocalStore → StoreError ⊎ Object
  unfolding get_named
  get_record kind id s =
      if Dict.has kind record_schemas then get_named kind (file_of id) s else inl unknown_kind

-- `sorted(registry.glob("*.json"))`, by the names.
unfoldable pub insert_file : String → Object → Dict Object → Dict Object
insert_file name r [] = (name, r) ∷ []
insert_file name r ((other, s) ∷ files) = elim (compare name other) [
  | Ordering.gt ↦ (other, s) ∷ insert_file name r files
  | _ ↦ (name, r) ∷ (other, s) ∷ files
]

unfoldable pub sorted_files : Dict Object → Dict Object
unfolding insert_file
sorted_files [] = []
sorted_files ((name, r) ∷ files) = insert_file name r (sorted_files files)

abbrev pub records_of : Dict Object → List Object
records_of [] = []
records_of ((name, r) ∷ files) = r ∷ records_of files

unfoldable pub list_records : String → LocalStore → StoreError ⊎ List Object
unfolding sorted_files registry Dict.has
list_records kind s =
    if Dict.has kind record_schemas
    then inr (records_of (sorted_files (registry kind s)))
    else inl unknown_kind
