-- ===== src/Contracts/Records.antt =====
-- The record types of contracts.py: profiles, devices, actors, schemas, objects and sync plans.
use sourceos_syncd.Prelude.{[], ◌∷◌, true, false}
use sourceos_syncd.Json.{null, arr, nil}
use sourceos_syncd.Contracts.Shape.{Contract, no_check, capabilities_check}
use sourceos_syncd.Contracts.Sets.{
  actor_types, device_states, object_states, privacy_classes, profile_classes, retention_classes,
  sync_operation_classes, sync_plan_statuses, sync_visibilities, trust_levels,
}

abbrev pub profile_record : Contract
profile_record = record {
  schema = "sourceos.profile-record/v1alpha1";
  required_fields =
      "profile_id" ∷ "display_name" ∷ "profile_class" ∷ "created_at" ∷ "policy_tags" ∷ [];
  controlled_fields = ("profile_class", profile_classes) ∷ [];
  list_fields = "policy_tags" ∷ [];
  mapping_fields = [];
  extra_check = no_check;
  fields = "profile_id" ∷ "display_name" ∷ "profile_class" ∷ "created_at" ∷ [];
  optional_fields = ("policy_tags", arr nil) ∷ [];
  renames = false;
}

abbrev pub device_trust_record : Contract
device_trust_record = record {
  schema = "sourceos.device-record/v1alpha1";
  required_fields =
      "device_id" ∷ "display_name" ∷ "trust_level" ∷ "device_state" ∷ "created_at" ∷ [];
  controlled_fields = ("trust_level", trust_levels) ∷ ("device_state", device_states) ∷ [];
  list_fields = [];
  mapping_fields = [];
  extra_check = no_check;
  fields = "device_id" ∷ "display_name" ∷ "trust_level" ∷ "device_state" ∷ "created_at" ∷ [];
  optional_fields = ("revoked_at", null) ∷ [];
  renames = false;
}

abbrev pub actor_record : Contract
actor_record = record {
  schema = "sourceos.actor-record/v1alpha1";
  required_fields =
      "actor_id" ∷ "actor_type" ∷ "display_name" ∷ "identity_id" ∷ "workspace_scope"
      ∷ "profile_scope" ∷ "capabilities" ∷ "trust_level" ∷ "policy_subject" ∷ "signing_key_ref"
      ∷ "created_at" ∷ [];
  controlled_fields = ("actor_type", actor_types) ∷ ("trust_level", trust_levels) ∷ [];
  list_fields = "workspace_scope" ∷ "profile_scope" ∷ "capabilities" ∷ [];
  mapping_fields = [];
  extra_check = capabilities_check;
  fields =
      "actor_id" ∷ "actor_type" ∷ "display_name" ∷ "identity_id" ∷ "workspace_scope"
      ∷ "profile_scope" ∷ "capabilities" ∷ "trust_level" ∷ "policy_subject" ∷ "signing_key_ref"
      ∷ "created_at" ∷ [];
  optional_fields = ("revoked_at", null) ∷ [];
  renames = false;
}

abbrev pub schema_contract_record : Contract
schema_contract_record = record {
  schema = "sourceos.schema-record/v1alpha1";
  required_fields =
      "schema_id" ∷ "object_type" ∷ "schema_version" ∷ "required_fields" ∷ "field_owners"
      ∷ "migration_policy" ∷ "conflict_policy" ∷ "tombstone_policy" ∷ "sync_visibility"
      ∷ "retention_class" ∷ [];
  controlled_fields =
      ("sync_visibility", sync_visibilities) ∷ ("retention_class", retention_classes) ∷ [];
  list_fields = "required_fields" ∷ [];
  mapping_fields = "field_owners" ∷ [];
  extra_check = no_check;
  fields =
      "schema_id" ∷ "object_type" ∷ "schema_version" ∷ "required_field_names" ∷ "field_owners"
      ∷ "migration_policy" ∷ "conflict_policy" ∷ "tombstone_policy" ∷ "sync_visibility"
      ∷ "retention_class" ∷ [];
  optional_fields = [];
  renames = true;
}

abbrev pub source_object_record : Contract
source_object_record = record {
  schema = "sourceos.object-record/v1alpha1";
  required_fields =
      "object_id" ∷ "object_type" ∷ "schema_id" ∷ "schema_version" ∷ "workspace_id" ∷ "profile_id"
      ∷ "owner_identity" ∷ "created_by_actor" ∷ "last_modified_by_actor" ∷ "created_at"
      ∷ "updated_at" ∷ "privacy_class" ∷ "sync_visibility" ∷ "retention_class" ∷ "policy_tags"
      ∷ "provenance" ∷ "state" ∷ [];
  controlled_fields =
      ("privacy_class", privacy_classes)
      ∷ ("sync_visibility", sync_visibilities)
      ∷ ("retention_class", retention_classes)
      ∷ ("state", object_states)
      ∷ [];
  list_fields = "policy_tags" ∷ "provenance" ∷ [];
  mapping_fields = [];
  extra_check = no_check;
  fields =
      "object_id" ∷ "object_type" ∷ "schema_id" ∷ "schema_version" ∷ "workspace_id" ∷ "profile_id"
      ∷ "owner_identity" ∷ "created_by_actor" ∷ "last_modified_by_actor" ∷ "created_at"
      ∷ "updated_at" ∷ "privacy_class" ∷ "sync_visibility" ∷ "retention_class" ∷ "policy_tags"
      ∷ "provenance" ∷ "state" ∷ [];
  optional_fields = ("content_hash", null) ∷ [];
  renames = false;
}

abbrev pub sync_plan_record : Contract
sync_plan_record = record {
  schema = "sourceos.sync-plan/v1alpha1";
  required_fields =
      "plan_id" ∷ "source_actor" ∷ "target_actor" ∷ "profile_id" ∷ "workspace_id" ∷ "object_ids"
      ∷ "operation_class" ∷ "dependencies" ∷ "policy_decision_ref" ∷ "retry_policy"
      ∷ "conflict_policy" ∷ "status" ∷ "user_explanation" ∷ "created_at" ∷ "updated_at" ∷ [];
  controlled_fields =
      ("operation_class", sync_operation_classes) ∷ ("status", sync_plan_statuses) ∷ [];
  list_fields = "object_ids" ∷ "dependencies" ∷ [];
  mapping_fields = [];
  extra_check = no_check;
  fields =
      "plan_id" ∷ "source_actor" ∷ "target_actor" ∷ "profile_id" ∷ "workspace_id" ∷ "object_ids"
      ∷ "operation_class" ∷ "dependencies" ∷ "policy_decision_ref" ∷ "retry_policy"
      ∷ "conflict_policy" ∷ "status" ∷ "user_explanation" ∷ "created_at" ∷ "updated_at" ∷ [];
  optional_fields = ("last_error", null) ∷ [];
  renames = false;
}
