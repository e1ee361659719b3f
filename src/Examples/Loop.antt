-- ===== src/Examples/Loop.antt =====
-- Polls and runs of the daemon at concrete inputs.
use sourceos_syncd.Prelude.{◌≡◌, refl, ◌⊎◌, inl, true, false, none, some, [], ◌∷◌, string_eq}
use sourceos_syncd.Json.{fields, get_json, truthy, is_text}
use sourceos_syncd.Attestation.{expected_artifact_id, verify_release_attestation, has_missing}
use sourceos_syncd.ContentSync.{plan, plan_steps, is_current, decision_for}
use sourceos_syncd.ContentSync.Execute.{Executed, finished, execute}
use sourceos_syncd.Text.{slice_to}
use sourceos_syncd.Receipts.{
  cut, ReceiptStore, read_current_version, write_receipt, write_current_version, write_version_on,
  write_receipt_on,
}
use sourceos_syncd.Daemon.{
  World, SyncDaemon, poll_once, apply_plan, plan_loaded, load_attestation, settle_run, conclude,
  sleep_s, round, run,
}
use sourceos_syncd.Daemon.Poll.{IsDenial, poll_once-denied}
use sourceos_syncd.Daemon.Backoff.{IsBackoff, IsOutage, run-IsBackoff, run-outage}
use sourceos_syncd.Daemon.Safety.{IsQuiet, IsAuthorized, poll_once-IsAuthorized}
use sourceos_syncd.Daemon.History.{Wrote, run-version}
use sourceos_syncd.Katello.{ContentViewManifest}
use sourceos_syncd.Examples.Data.{
  manifest, config, world, outage, bad_machine, no_minisign, attestation, stamp, empty_store,
  syncer,
}

abbrev begin : SyncDaemon
begin = record { store = empty_store; running = true; backoff_s = 0 }

abbrev at_version : ReceiptStore
at_version = record empty_store { version_file = some "1.3\n" }

poll_once-denied_example :
    IsDenial empty_store (poll_once (record config { locus = "burst_cloud" }) world empty_store)
unfolding string_eq
poll_once-denied_example =
    poll_once-denied (record config { locus = "burst_cloud" }) world empty_store manifest refl refl
      refl

poll_once-IsAuthorized_example :
    IsQuiet empty_store (poll_once config world empty_store)
    ⊎ ((m : ContentViewManifest) × IsAuthorized config world empty_store m)
poll_once-IsAuthorized_example = poll_once-IsAuthorized config world empty_store

-- The first poll applies the version, the second finds nothing to do.
applied_once : (run config (world ∷ world ∷ []) begin).store.version_file ≡ some "1.3\n"
unfolding run round poll_once plan_loaded load_attestation apply_plan settle_run conclude plan
    plan_steps is_current decision_for verify_release_attestation expected_artifact_id has_missing
    is_text truthy get_json string_eq execute finished read_current_version write_receipt fields
    write_current_version write_version_on write_receipt_on
applied_once = refl

-- A disk that fills up leaves a beginning of the version.
cut_off :
    (run config (record world { version_disk = cut 2 } ∷ []) begin).store.version_file ≡ some "1."
unfolding run round poll_once plan_loaded load_attestation apply_plan settle_run conclude plan
    plan_steps is_current decision_for verify_release_attestation expected_artifact_id has_missing
    is_text truthy get_json string_eq execute finished read_current_version write_receipt fields
    write_current_version write_version_on write_receipt_on slice_to
cut_off = refl

run-version_example :
    ((run config (world ∷ []) begin).store.version_file ≡ none)
    ⊎ Wrote config (world ∷ []) begin (run config (world ∷ []) begin).store.version_file
run-version_example = run-version config (world ∷ []) begin

run-IsBackoff_example : IsBackoff (run config (outage ∷ outage ∷ []) begin).backoff_s
run-IsBackoff_example = run-IsBackoff config (outage ∷ outage ∷ []) begin (inl refl)

outage_is : IsOutage outage
outage_is = record { unreachable = refl; undisturbed = refl }

run-outage_example :
    let d = run config (outage ∷ outage ∷ outage ∷ []) begin in
    (d.store ≡ empty_store) × (d.running ≡ true) × (sleep_s config d ≡ 120)
run-outage_example =
    run-outage config outage (outage ∷ outage ∷ []) empty_store outage_is
      (outage_is, (outage_is, tt))

abbrev failing : World
failing = record world { machine = bad_machine }

abbrev broken : Executed
broken =
    execute bad_machine syncer stamp false (plan no_minisign syncer manifest (some attestation))
