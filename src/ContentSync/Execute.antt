-- ===== src/ContentSync/Execute.antt =====
-- The run of a plan (src/sourceos_syncd/content_sync.py, `execute`). The machine is a parameter: which
-- programs are on the path, and how a shell command ends after the commands run so far.
-- Each run also lists the commands that were handed to the shell.
pub mod Safety
pub mod FailClosed
pub mod MissingTools
use sourceos_syncd.Prelude.{
  ℕ, String, ◌<>◌, Bool, true, false, not, ◌&&◌, ◌||◌, Option, none, some, List, [], ◌∷◌, ◌++◌,
  all_of, any_of, starts_with, if◌then◌else◌,
}
use sourceos_syncd.Prelude.Signed.{ℤ}
use sourceos_syncd.Json.{is_zero}
use sourceos_syncd.Text.{strip, slice_to}
use sourceos_syncd.Attestation.{Epistemic, AttestationDecision}
use sourceos_syncd.ContentSync.{Gate, PolicyReason, ContentSyncPlan, ContentViewSyncer}

-- `subprocess.run(step, shell=True, timeout=600)`: it returns, raises TimeoutExpired, or raises something
-- else, as where the output cannot be decoded.
pub data Process : Type 0 where
  returned : (code : ℤ) (stdout stderr : String) → Process
  expired crashed : Process

pub record Machine : Type 0 where
  pub which : String → Bool
  pub shell : List String → String → Process

-- `uncaught` marks the step whose exception leaves `execute`; the others are the code's.
pub data Status : Type 0 where
  ok failed timeout skipped dry_run not_run uncaught : Status

pub record StepResult : Type 0 where
  pub step : String
  pub status : Status
  pub returncode : Option ℤ
  pub stdout : String
  pub stderr : String

-- An entry that has no process behind it.
abbrev pub plain : String → Status → StepResult
plain step status = record {
  step = step;
  status = status;
  returncode = none;
  stdout = "";
  stderr = "";
}

unfoldable pub lacks_tool : Machine → String → Bool
lacks_tool h step =
    not (h.which "nix") && starts_with step "nix "
    || not (h.which "nixos-rebuild") && starts_with step "nixos-rebuild "

-- The loop's state: the results so far, the flag `aborted` and the commands run.
pub record Progress : Type 0 where
  pub results : List StepResult
  pub aborted : Bool
  pub ran : List String

unfoldable pub record_process : String → Process → Progress → Progress
unfolding strip slice_to is_zero
record_process step (returned code out err) p = record {
  results =
      p.results
      ++ (record {
        step = step;
        status = if is_zero code then ok else Status.failed;
        returncode = some code;
        stdout = slice_to 500 (strip out);
        stderr = slice_to 500 (strip err);
      }
          ∷ []);
  aborted = not (is_zero code);
  ran = p.ran ++ (step ∷ []);
}
record_process step expired p = record {
  results = p.results ++ (plain step timeout ∷ []);
  aborted = true;
  ran = p.ran ++ (step ∷ []);
}
record_process step crashed p = record {
  results = p.results ++ (plain step uncaught ∷ []);
  aborted = true;
  ran = p.ran ++ (step ∷ []);
}

-- One round of the loop. Behind an exception the rounds run nothing, and `outcome_of` says that it left.
unfoldable pub run_step : Machine → Bool → String → Progress → Progress
run_step h dry step p =
    if p.aborted
    then record p { results = p.results ++ (plain step not_run ∷ []) }
    else if dry
    then record p { results = p.results ++ (plain step Status.dry_run ∷ []) }
    else if lacks_tool h step
    then record p { results = p.results ++ (plain step Status.skipped ∷ []) }
    else record_process step (h.shell p.ran step) p

unfoldable pub run_steps : Machine → Bool → List String → Progress → Progress
run_steps h dry [] p = p
run_steps h dry (step ∷ steps) p = run_steps h dry steps (run_step h dry step p)

abbrev pub start : Progress
start = record { results = []; aborted = false; ran = [] }

-- `raised` is no outcome of a receipt: the exception left, and there is no receipt.
pub data Outcome : Type 0 where
  applied failed denied blocked skipped dry_run raised : Outcome

abbrev pub fine : Status → Bool
fine ok = true
fine Status.dry_run = true
fine Status.skipped = true
fine _ = false

-- `r.get("status") in ("ok", "dry_run", "skipped")`
abbrev pub is_fine : StepResult → Bool
is_fine r = fine r.status

abbrev pub is_uncaught : StepResult → Bool
is_uncaught r = elim r.status [ uncaught ↦ true | _ ↦ false ]

unfoldable pub outcome_of : Bool → Progress → Outcome
outcome_of dry p =
    if dry
    then Outcome.dry_run
    else if not p.aborted && all_of is_fine p.results
    then applied
    else if any_of is_uncaught p.results
    then raised
    else Outcome.failed

-- The identifiers and times that a run draws: `uuid.uuid4`, the clock.
pub record Stamp : Type 0 where
  pub cycle_id : String
  pub receipt_uuid : String
  pub audit_uuid : String
  pub duration_ms : ℕ
  pub issued_at : String

pub record SyncReceipt : Type 0 where
  pub id : String
  pub cycle_id : String
  pub org : String
  pub content_view : String
  pub from_version : Option String
  pub to_version : String
  pub lifecycle_env : String
  pub locus : String
  pub outcome : Outcome
  pub policy_gate : Gate
  pub policy_reason : PolicyReason
  pub epistemic_level : Epistemic
  pub attestation : Option AttestationDecision
  pub steps : List StepResult
  pub nix_cache_url : String
  pub flake_ref : String
  pub duration_ms : ℕ
  pub issued_at : String
  pub audit_id : String
  pub agentplane_run_ref : Option String

-- `_build_receipt`
unfoldable pub build_receipt :
    ContentViewSyncer → ContentSyncPlan → Stamp → Outcome → List StepResult → ℕ → SyncReceipt
build_receipt s plan stamp outcome steps duration_ms = record {
  id = "urn:srcos:sync-receipt:" <> stamp.receipt_uuid;
  cycle_id = stamp.cycle_id;
  org = plan.org;
  content_view = plan.content_view;
  from_version = plan.from_version;
  to_version = plan.to_version;
  lifecycle_env = plan.lifecycle_env;
  locus = s.locus;
  outcome = outcome;
  policy_gate = plan.policy_gate;
  policy_reason = plan.policy_reason;
  epistemic_level = plan.epistemic_level;
  attestation = plan.attestation;
  steps = steps;
  nix_cache_url = plan.nix_cache_url;
  flake_ref = plan.flake_ref;
  duration_ms = duration_ms;
  issued_at = stamp.issued_at;
  audit_id = "urn:srcos:audit:" <> stamp.audit_uuid;
  agentplane_run_ref = s.agentplane_run_ref;
}

-- What `execute` returns, with the commands that were run. With the status `raised` it returns nothing,
-- and only the commands count.
pub record Executed : Type 0 where
  pub status : Outcome
  pub results : List StepResult
  pub receipt : SyncReceipt
  pub ran : List String

-- The outcome of a plan whose gate is not "allowed".
unfoldable pub refusal : Gate → Outcome
refusal Gate.denied = Outcome.denied
refusal Gate.blocked = Outcome.blocked
refusal _ = Outcome.skipped

abbrev pub is_allowed : Gate → Bool
is_allowed Gate.allowed = true
is_allowed _ = false

-- The loop over the steps from its start.
unfoldable pub finished : Machine → Bool → ContentSyncPlan → Progress
unfolding run_steps run_step record_process lacks_tool
finished h dry plan = run_steps h dry plan.steps start

unfoldable pub execute : Machine → ContentViewSyncer → Stamp → Bool → ContentSyncPlan → Executed
unfolding outcome_of build_receipt refusal
execute h s stamp dry plan =
    if not (is_allowed plan.policy_gate)
    then (let outcome = refusal plan.policy_gate in
        record {
          status = outcome;
          results = [];
          receipt = build_receipt s plan stamp outcome [] 0;
          ran = [];
        })
    else (let p = finished h dry plan in
        let outcome = outcome_of dry p in
        record {
          status = outcome;
          results = p.results;
          receipt = build_receipt s plan stamp outcome p.results stamp.duration_ms;
          ran = p.ran;
        })
