-- ===== src/Daemon.antt =====
-- src/sourceos_syncd/daemon.py: one poll, the back-off, and the loop over polls.
-- A `World` is all that a poll meets outside the process: the Katello reply, the attestation files,
-- the machine, the disk, the drawn identifiers, and whether a signal arrived.
pub mod Poll
pub mod Backoff
pub mod Safety
pub mod History
use sourceos_syncd.Prelude.{
  ℕ, zero, suc, ◌*◌, min, String, ◌<>◌, ◌≡◌, Bool, true, false, not, Option, none, some, List, [],
  ◌∷◌, ◌==◌, string_eq, nat_beq, starts_with, if◌then◌else◌,
}
use sourceos_syncd.Json.{Json, null, Object, as_object}
use sourceos_syncd.Text.{ends_with}
use sourceos_syncd.Katello.{ContentViewManifest}
use sourceos_syncd.Attestation.{Verifier, Minisign}
use sourceos_syncd.ContentSync.{Gate, ContentSyncPlan, ContentViewSyncer, plan}
use sourceos_syncd.ContentSync.Execute.{Machine, Stamp, Outcome, Executed, execute}
use sourceos_syncd.Receipts.{
  Disk, succeeds, ReceiptStore, read_current_version, write_version_on, write_receipt_on,
}

pub record Config : Type 0 where
  pub flake_ref : String
  pub locus : String
  pub signing_public_key : Option String
  pub agentplane_run_ref : Option String
  pub require_attestation : Bool
  pub attestation_public_key : Option String
  pub attestation_dir : Option String
  pub attestation_verifier : Option Verifier
  pub poll_interval_s : ℕ

-- `katello` is `none` where `get_latest_version` raises; `json_file` is `none` where the file cannot
-- be read or parsed; the two disks say how the writes of a poll end.
pub record World : Type 0 where
  pub katello : Option ContentViewManifest
  pub json_file : String → Option Json
  pub machine : Machine
  pub minisign : Minisign
  pub stamp : Stamp
  pub receipt_disk : Disk Bool
  pub version_disk : Disk ℕ
  pub signalled : Bool

-- What `_load_attestation` returns; `malformed` is JSON that is no object.
pub data Loaded : Type 0 where
  absent : Loaded
  loaded : Object → Loaded
  malformed : Loaded

-- `os.path.join(directory, name)`
unfoldable pub join_path : String → String → String
join_path directory name =
    if starts_with name "/"
    then name
    else if ends_with b'/' directory
    then directory <> name
    else directory <> ("/" <> name)

abbrev pub attestation_path : String → ContentViewManifest → String
attestation_path directory manifest =
    join_path directory (manifest.content_view <> ("-" <> (manifest.version <> ".json")))

unfoldable pub classify : Option Json → Loaded
unfolding as_object
classify none = absent
classify (some null) = absent
classify (some j) = elim (as_object j) [ none ↦ malformed | some o ↦ loaded o ]

unfoldable pub load_attestation : Config → World → ContentViewManifest → Loaded
unfolding join_path classify
load_attestation cfg w manifest = elim cfg.attestation_dir [
  | none ↦ absent
  | some directory ↦
      if directory == ""
      then absent
      else classify (w.json_file (attestation_path directory manifest))
]

abbrev pub syncer_for : Config → Option String → ContentViewSyncer
syncer_for cfg current = record {
  flake_ref = cfg.flake_ref;
  locus = cfg.locus;
  current_version = current;
  signing_public_key = cfg.signing_public_key;
  agentplane_run_ref = cfg.agentplane_run_ref;
  require_attestation = cfg.require_attestation;
  attestation_public_key = cfg.attestation_public_key;
  attestation_verifier = cfg.attestation_verifier;
}

-- With no attestation the plan is blocked exactly where the gate is reached, and there an
-- attestation that is no object raises.
unfoldable pub raise_at : Gate → ContentSyncPlan → Option ContentSyncPlan
raise_at Gate.blocked p = none
raise_at _ p = some p

-- `syncer.plan(manifest, attestation=...)`; `none` is an exception.
unfoldable pub plan_loaded :
    Minisign → ContentViewSyncer → ContentViewManifest → Loaded → Option ContentSyncPlan
unfolding raise_at
plan_loaded m s manifest absent = some (plan m s manifest none)
plan_loaded m s manifest (loaded o) = some (plan m s manifest (some o))
plan_loaded m s manifest malformed = let p = plan m s manifest none in raise_at p.policy_gate p

-- A poll's new store, whether it returned without an exception, and the commands it ran.
pub record Polled : Type 0 where
  pub store : ReceiptStore
  pub returns : Bool
  pub ran : List String

-- The end of a poll, behind the written receipt.
unfoldable pub conclude :
    World → ContentViewManifest → Outcome → ReceiptStore → List String → Polled
unfolding write_version_on
conclude w manifest Outcome.applied r ran = record {
  store = write_version_on w.version_disk manifest.version r;
  returns = succeeds w.version_disk;
  ran = ran;
}
conclude w manifest Outcome.failed r ran = record { store = r; returns = false; ran = ran }
conclude w manifest _ r ran = record { store = r; returns = true; ran = ran }

abbrev pub is_raised : Outcome → Bool
is_raised Outcome.raised = true
is_raised _ = false

unfoldable pub settle_run : World → ContentViewManifest → ReceiptStore → Executed → Polled
unfolding write_receipt_on
settle_run w manifest r run =
    let stored = write_receipt_on w.receipt_disk run.receipt r in
    if is_raised run.status
    then record { store = r; returns = false; ran = run.ran }
    else if succeeds w.receipt_disk
    then conclude w manifest run.status stored run.ran
    else record { store = stored; returns = false; ran = run.ran }

unfoldable pub apply_gate :
    World → ContentViewSyncer → ContentViewManifest → ReceiptStore → ContentSyncPlan → Gate → Polled
apply_gate w s manifest r p Gate.no_op = record { store = r; returns = true; ran = [] }
apply_gate w s manifest r p _ = settle_run w manifest r (execute w.machine s w.stamp false p)

unfoldable pub apply_plan :
    World → ContentViewSyncer → ContentViewManifest → ReceiptStore → Option ContentSyncPlan → Polled
unfolding apply_gate
apply_plan w s manifest r none = record { store = r; returns = false; ran = [] }
apply_plan w s manifest r (some p) = apply_gate w s manifest r p p.policy_gate

unfoldable pub poll_reply : Config → World → ReceiptStore → Option ContentViewManifest → Polled
poll_reply cfg w r none = record { store = r; returns = false; ran = [] }
poll_reply cfg w r (some manifest) =
    let s = syncer_for cfg (read_current_version r) in
    apply_plan w s manifest r (plan_loaded w.minisign s manifest (load_attestation cfg w manifest))

unfoldable pub poll_once : Config → World → ReceiptStore → Polled
unfolding poll_reply
poll_once cfg w r = poll_reply cfg w r w.katello

abbrev pub min_backoff_s : ℕ
min_backoff_s = 30

abbrev pub max_backoff_s : ℕ
max_backoff_s = 1800

unfoldable pub next_backoff : Bool → ℕ → ℕ
next_backoff true backoff = 0
next_backoff false backoff =
    min max_backoff_s (if nat_beq backoff 0 then min_backoff_s else backoff * 2)

pub record SyncDaemon : Type 0 where
  pub store : ReceiptStore
  pub running : Bool
  pub backoff_s : ℕ

-- `sleep_s`
unfoldable pub sleep_s : Config → SyncDaemon → ℕ
sleep_s cfg d = if nat_beq d.backoff_s 0 then cfg.poll_interval_s else d.backoff_s

-- One round of `while self._running`; a signal that arrives in it ends the loop behind it.
unfoldable pub round : Config → World → SyncDaemon → SyncDaemon
unfolding next_backoff
round cfg w d =
    let polled = poll_once cfg w d.store in
    if d.running
    then record {
      store = polled.store;
      running = not w.signalled;
      backoff_s = next_backoff polled.returns d.backoff_s;
    }
    else d

unfoldable pub run : Config → List World → SyncDaemon → SyncDaemon
run cfg [] d = d
run cfg (w ∷ ws) d = run cfg ws (round cfg w d)
