-- ===== src/Contracts/Events.antt =====
-- The record types of contracts.py: conflicts, policy decisions, events, transactions, operations
-- and tasks.
use sourceos_syncd.Prelude.{[], ◌∷◌, true, false}
use sourceos_syncd.Json.{null, bool}
use sourceos_syncd.Contracts.Shape.{Contract, no_check, card_check}
use sourceos_syncd.Contracts.Sets.{
  conflict_severities, operation_task_statuses, policy_effects, transaction_operations,
  transaction_statuses, workspace_operation_statuses, workspace_operation_types,
}

abbrev pub conflict_record : Contract
conflict_record = record {
  schema = "sourceos.conflict-record/v1alpha1";
  required_fields =
      "conflict_id" ∷ "object_id" ∷ "object_type" ∷ "workspace_id" ∷ "profile_id" ∷ "actors"
      ∷ "devices" ∷ "schema_version" ∷ "severity" ∷ "merge_policy" ∷ "decision_card"
      ∷ "user_explanation" ∷ "created_at" ∷ [];
  controlled_fields = ("severity", conflict_severities) ∷ [];
  list_fields = "actors" ∷ "devices" ∷ [];
  mapping_fields = "decision_card" ∷ [];
  extra_check = card_check;
  fields =
      "conflict_id" ∷ "object_id" ∷ "object_type" ∷ "workspace_id" ∷ "profile_id" ∷ "actors"
      ∷ "devices" ∷ "schema_version" ∷ "severity" ∷ "merge_policy" ∷ "decision_card"
      ∷ "user_explanation" ∷ "created_at" ∷ [];
  optional_fields = [];
  renames = false;
}

abbrev pub policy_decision_record : Contract
policy_decision_record = record {
  schema = "sourceos.policy-decision/v1alpha1";
  required_fields =
      "decision_id" ∷ "effect" ∷ "policy_id" ∷ "policy_version" ∷ "actor_id" ∷ "profile_id"
      ∷ "workspace_id" ∷ "rationale" ∷ "decided_at" ∷ [];
  controlled_fields = ("effect", policy_effects) ∷ [];
  list_fields = [];
  mapping_fields = [];
  extra_check = no_check;
  fields =
      "decision_id" ∷ "effect" ∷ "policy_id" ∷ "policy_version" ∷ "actor_id" ∷ "profile_id"
      ∷ "workspace_id" ∷ "rationale" ∷ "decided_at" ∷ [];
  optional_fields = ("object_id", null) ∷ [];
  renames = false;
}

abbrev pub integrity_event_record : Contract
integrity_event_record = record {
  schema = "sourceos.integrity-event/v1alpha1";
  required_fields = "event_id" ∷ "event_type" ∷ "occurred_at" ∷ "summary" ∷ [];
  controlled_fields = [];
  list_fields = [];
  mapping_fields = [];
  extra_check = no_check;
  fields = "event_id" ∷ "event_type" ∷ "occurred_at" ∷ "summary" ∷ [];
  optional_fields =
      ("actor_id", null)
      ∷ ("object_id", null)
      ∷ ("device_id", null)
      ∷ ("profile_id", null)
      ∷ ("workspace_id", null)
      ∷ ("schema_version", null)
      ∷ ("policy_decision_ref", null)
      ∷ [];
  renames = false;
}

abbrev pub agent_object_transaction_record : Contract
agent_object_transaction_record = record {
  schema = "sourceos.agent-object-transaction/v1alpha1";
  required_fields =
      "transaction_id" ∷ "actor_id" ∷ "workspace_id" ∷ "profile_id" ∷ "object_ids" ∷ "operation"
      ∷ "status" ∷ "policy_decision_ref" ∷ "created_at" ∷ "updated_at" ∷ [];
  controlled_fields = ("operation", transaction_operations) ∷ ("status", transaction_statuses) ∷ [];
  list_fields = "object_ids" ∷ [];
  mapping_fields = [];
  extra_check = no_check;
  fields =
      "transaction_id" ∷ "actor_id" ∷ "workspace_id" ∷ "profile_id" ∷ "object_ids" ∷ "operation"
      ∷ "status" ∷ "policy_decision_ref" ∷ "created_at" ∷ "updated_at" ∷ [];
  optional_fields = [];
  renames = false;
}

abbrev pub workspace_operation_record : Contract
workspace_operation_record = record {
  schema = "sourceos.workspace-operation/v1alpha1";
  required_fields =
      "operation_id" ∷ "local_operation_id" ∷ "operation_type" ∷ "status" ∷ "workspace_id"
      ∷ "profile_id" ∷ "actor_id" ∷ "device_id" ∷ "encryption_profile_ref" ∷ "local_log_ref"
      ∷ "checkpoint_ref" ∷ "causal_parent_ids" ∷ "conflict_ids" ∷ "provisional_artifact_ids"
      ∷ "artifact_reconciliation" ∷ "policy_decision_ref" ∷ "artifact_admission_ref"
      ∷ "ledger_evidence_refs" ∷ "replay_safe" ∷ "stale_task" ∷ "lease_expired" ∷ "created_at"
      ∷ "updated_at" ∷ [];
  controlled_fields =
      ("operation_type", workspace_operation_types) ∷ ("status", workspace_operation_statuses) ∷ [];
  list_fields = "causal_parent_ids" ∷ "conflict_ids" ∷ "ledger_evidence_refs" ∷ [];
  mapping_fields = "provisional_artifact_ids" ∷ "artifact_reconciliation" ∷ [];
  extra_check = no_check;
  fields =
      "operation_id" ∷ "local_operation_id" ∷ "operation_type" ∷ "status" ∷ "workspace_id"
      ∷ "profile_id" ∷ "actor_id" ∷ "device_id" ∷ "encryption_profile_ref" ∷ "local_log_ref"
      ∷ "checkpoint_ref" ∷ "causal_parent_ids" ∷ "conflict_ids" ∷ "provisional_artifact_ids"
      ∷ "artifact_reconciliation" ∷ "policy_decision_ref" ∷ "artifact_admission_ref"
      ∷ "ledger_evidence_refs" ∷ "replay_safe" ∷ "stale_task" ∷ "lease_expired" ∷ "created_at"
      ∷ "updated_at" ∷ [];
  optional_fields = ("remote_operation_id", null) ∷ ("replay_idempotency_key", null) ∷ [];
  renames = false;
}

abbrev pub operation_task_record : Contract
operation_task_record = record {
  schema = "sourceos.operation-task/v1alpha1";
  required_fields =
      "task_id" ∷ "operation_id" ∷ "operation_type" ∷ "status" ∷ "attempt" ∷ "idempotency_key"
      ∷ "policy_decision_ref" ∷ "evidence_refs" ∷ "created_at" ∷ "updated_at" ∷ [];
  controlled_fields =
      ("operation_type", workspace_operation_types) ∷ ("status", operation_task_statuses) ∷ [];
  list_fields = "evidence_refs" ∷ [];
  mapping_fields = [];
  extra_check = no_check;
  fields =
      "task_id" ∷ "operation_id" ∷ "operation_type" ∷ "status" ∷ "attempt" ∷ "idempotency_key"
      ∷ "policy_decision_ref" ∷ "evidence_refs" ∷ "created_at" ∷ "updated_at" ∷ [];
  optional_fields =
      ("started_at", null)
      ∷ ("completed_at", null)
      ∷ ("remote_operation_id", null)
      ∷ ("conflict_id", null)
      ∷ ("checkpoint_ref", null)
      ∷ ("replay_safe", bool true)
      ∷ [];
  renames = false;
}
