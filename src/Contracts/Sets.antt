-- ===== src/Contracts/Sets.antt =====
-- The sets of values of contracts.py that its records control.
use sourceos_syncd.Prelude.{String, List, [], ◌∷◌}

abbrev pub actor_types : List String
actor_types =
    "human" ∷ "app" ∷ "agent" ∷ "device" ∷ "service" ∷ "import_bridge" ∷ "export_bridge"
    ∷ "model_runtime" ∷ "remote_relay" ∷ []

abbrev pub trust_levels : List String
trust_levels = "local" ∷ "user" ∷ "workspace" ∷ "org" ∷ "external" ∷ "quarantined" ∷ []

abbrev pub privacy_classes : List String
privacy_classes = "public" ∷ "personal" ∷ "work" ∷ "confidential" ∷ "regulated" ∷ "secret" ∷ []

abbrev pub sync_visibilities : List String
sync_visibilities = "local_only" ∷ "profile" ∷ "workspace" ∷ "org" ∷ "public" ∷ []

abbrev pub retention_classes : List String
retention_classes = "ephemeral" ∷ "normal" ∷ "retained" ∷ "legal_hold" ∷ []

abbrev pub object_states : List String
object_states = "active" ∷ "deleted" ∷ "tombstoned" ∷ "quarantined" ∷ "conflicted" ∷ []

abbrev pub sync_operation_classes : List String
sync_operation_classes =
    "replicate" ∷ "import" ∷ "export" ∷ "repair" ∷ "migrate" ∷ "delete" ∷ "restore" ∷ []

abbrev pub sync_plan_statuses : List String
sync_plan_statuses = "planned" ∷ "blocked" ∷ "running" ∷ "failed" ∷ "completed" ∷ "cancelled" ∷ []

abbrev pub conflict_severities : List String
conflict_severities = "info" ∷ "warning" ∷ "review_required" ∷ "blocking" ∷ []

abbrev pub policy_effects : List String
policy_effects = "allow" ∷ "deny" ∷ "review_required" ∷ []

abbrev pub transaction_operations : List String
transaction_operations = "create" ∷ "update" ∷ "delete" ∷ "merge" ∷ "repair" ∷ "migrate" ∷ []

abbrev pub transaction_statuses : List String
transaction_statuses = "draft" ∷ "proposed" ∷ "approved" ∷ "applied" ∷ "rejected" ∷ "reverted" ∷ []

abbrev pub device_states : List String
device_states = "trusted" ∷ "untrusted" ∷ "revoked" ∷ "quarantined" ∷ []

abbrev pub profile_classes : List String
profile_classes = "personal" ∷ "work" ∷ "client" ∷ "air_gapped" ∷ "lab" ∷ "public_open_source" ∷ []

abbrev pub workspace_operation_types : List String
workspace_operation_types =
    "sync.operation.enqueue" ∷ "sync.operation.replay" ∷ "sync.operation.reconcile"
    ∷ "sync.conflict.detect" ∷ "sync.conflict.resolve" ∷ "sync.repair.apply"
    ∷ "sync.tombstone.apply" ∷ "sync.checkpoint.write" ∷ []

abbrev pub workspace_operation_statuses : List String
workspace_operation_statuses =
    "queued" ∷ "running" ∷ "replayed" ∷ "reconciled" ∷ "blocked" ∷ "completed" ∷ "failed"
    ∷ "cancelled" ∷ []

abbrev pub operation_task_statuses : List String
operation_task_statuses = "pending" ∷ "running" ∷ "succeeded" ∷ "failed" ∷ "cancelled" ∷ []
