-- ===== src/Daemon/Poll.antt =====
-- What a poll does on each path.
use sourceos_syncd.Prelude.{
  ◌≡◌, ◌≢◌, ap, ◌∙◌, true, false, Option, none, some, [], arith, contains, string_eq,
}
use sourceos_syncd.Json.{Object}
use sourceos_syncd.Katello.{ContentViewManifest}
use sourceos_syncd.Attestation.{Minisign}
use sourceos_syncd.ContentSync.{
  Gate, ContentSyncPlan, ContentViewSyncer, allowed_loci, is_current, plan,
}
use sourceos_syncd.ContentSync.Execute.{SyncReceipt, Outcome, Executed, refusal, execute}
use sourceos_syncd.Receipts.{
  ReceiptStore, read_current_version, write_receipt, complete, write_receipt_on,
}
use sourceos_syncd.Daemon.{
  Config, World, Loaded, absent, loaded, malformed, load_attestation, syncer_for, plan_loaded,
  raise_at, apply_gate, poll_reply, Polled, conclude, settle_run, apply_plan, poll_once,
}

plan-no_op :
    (m : Minisign) (s : ContentViewSyncer) (manifest : ContentViewManifest)
    (attestation : Option Object)
    → contains allowed_loci s.locus ≡ true
    → is_current s.current_version manifest.version ≡ true
    → (plan m s manifest attestation).policy_gate ≡ Gate.no_op
unfolding plan
plan-no_op m s manifest attestation locus current = rw (locus, current)

raise_at-no_op :
    (p : ContentSyncPlan) → p.policy_gate ≡ Gate.no_op → raise_at p.policy_gate p ≡ some p
unfolding raise_at
raise_at-no_op p e = ap (λ g. raise_at g p) e

apply_plan-no_op :
    (w : World) (s : ContentViewSyncer) (manifest : ContentViewManifest) (r : ReceiptStore)
    (p : ContentSyncPlan)
    → p.policy_gate ≡ Gate.no_op
    → apply_plan w s manifest r (some p) ≡ record { store = r; returns = true; ran = [] }
unfolding apply_plan
apply_plan-no_op w s manifest r p e = ap (λ g. apply_gate w s manifest r p g) e

module _ (w : World) (s : ContentViewSyncer) (manifest : ContentViewManifest) (r : ReceiptStore)
    (locus : contains allowed_loci s.locus ≡ true)
    (current : is_current s.current_version manifest.version ≡ true) where
  apply_loaded-no_op :
      (l : Loaded)
      → apply_plan w s manifest r (plan_loaded w.minisign s manifest l)
        ≡ record { store = r; returns = true; ran = [] }
  unfolding plan_loaded
  apply_loaded-no_op absent =
      apply_plan-no_op w s manifest r _ (plan-no_op w.minisign s manifest none locus current)
  apply_loaded-no_op (loaded o) =
      apply_plan-no_op w s manifest r _ (plan-no_op w.minisign s manifest (some o) locus current)
  apply_loaded-no_op malformed =
      let p = plan w.minisign s manifest none in
      let e = plan-no_op w.minisign s manifest none locus current in
      ap (apply_plan w s manifest r) (raise_at-no_op p e) ∙ apply_plan-no_op w s manifest r p e

-- A poll that finds the current version promoted again does nothing at all: no command is run, no
-- receipt written, and the version file stays.
pub poll_once-no_op :
    (cfg : Config) (w : World) (r : ReceiptStore) (manifest : ContentViewManifest)
    → w.katello ≡ some manifest
    → contains allowed_loci cfg.locus ≡ true
    → is_current (read_current_version r) manifest.version ≡ true
    → poll_once cfg w r ≡ record { store = r; returns = true; ran = [] }
unfolding poll_once
poll_once-no_op cfg w r manifest k locus current =
    ap (poll_reply cfg w r) k
    ∙ apply_loaded-no_op w (syncer_for cfg (read_current_version r)) manifest r locus current _

-- A plan whose gate is not "allowed" runs nothing and leaves the version file.
pub apply_plan-closed :
    (w : World) (s : ContentViewSyncer) (manifest : ContentViewManifest) (r : ReceiptStore)
    (p : ContentSyncPlan)
    → p.policy_gate ≢ Gate.allowed
    → let polled = apply_plan w s manifest r (some p) in
      (polled.ran ≡ []) × (polled.store.version_file ≡ r.version_file)
unfolding apply_plan settle_run conclude execute refusal write_receipt write_receipt_on
apply_plan-closed w s manifest r p closed = ground arith

-- A poll whose run failed leaves the version file and raises.
pub settle_run-failed :
    (w : World) (manifest : ContentViewManifest) (r : ReceiptStore) (done : Executed)
    → done.status ≡ Outcome.failed
    → let polled = settle_run w manifest r done in
      (polled.store.version_file ≡ r.version_file) × (polled.returns ≡ false)
unfolding settle_run conclude write_receipt write_receipt_on
settle_run-failed w manifest r done failed = ground arith

plan-locus_denied :
    (m : Minisign) (s : ContentViewSyncer) (manifest : ContentViewManifest)
    (attestation : Option Object)
    → contains allowed_loci s.locus ≡ false
    → (plan m s manifest attestation).policy_gate ≡ Gate.denied
unfolding plan
plan-locus_denied m s manifest attestation locus = rw locus

-- A poll that returns, runs nothing, leaves the version file and writes a receipt of a denial.
abbrev pub IsDenial : ReceiptStore → Polled → Type 0
IsDenial r polled =
    (receipt : SyncReceipt) × (receipt.outcome ≡ Outcome.denied)
    × (polled ≡ record { store = (write_receipt receipt r).0; returns = true; ran = [] })

module _ (w : World) (s : ContentViewSyncer) (manifest : ContentViewManifest) (r : ReceiptStore)
    (disk : w.receipt_disk ≡ complete) where
  apply_plan-denied :
      (p : ContentSyncPlan)
      → p.policy_gate ≡ Gate.denied
      → IsDenial r (apply_plan w s manifest r (some p))
  unfolding apply_plan settle_run conclude execute refusal write_receipt_on
  apply_plan-denied p g =
      ((execute w.machine s w.stamp false p).receipt, ground arith, ground arith)

  raise_at-denied :
      (p : ContentSyncPlan) (g : Gate)
      → g ≡ Gate.denied
      → IsDenial r (apply_plan w s manifest r (some p))
      → IsDenial r (apply_plan w s manifest r (raise_at g p))
  unfolding raise_at
  raise_at-denied p Gate.blocked e h = cc
  raise_at-denied p _ e h = h

  module _ (locus : contains allowed_loci s.locus ≡ false) where
    apply_loaded-denied :
        (l : Loaded) → IsDenial r (apply_plan w s manifest r (plan_loaded w.minisign s manifest l))
    unfolding plan_loaded
    apply_loaded-denied absent =
        apply_plan-denied _ (plan-locus_denied w.minisign s manifest none locus)
    apply_loaded-denied (loaded o) =
        apply_plan-denied _ (plan-locus_denied w.minisign s manifest (some o) locus)
    apply_loaded-denied malformed =
        let g = plan-locus_denied w.minisign s manifest none locus in
        raise_at-denied _ _ g (apply_plan-denied _ g)

-- Outside the allowed loci, where Katello names a version and the receipt can be written, a poll returns
-- normally, runs nothing and leaves the version file, but it writes a receipt of the denial.
pub poll_once-denied :
    (cfg : Config) (w : World) (r : ReceiptStore) (manifest : ContentViewManifest)
    → w.katello ≡ some manifest
    → contains allowed_loci cfg.locus ≡ false
    → w.receipt_disk ≡ complete
    → IsDenial r (poll_once cfg w r)
unfolding poll_once poll_reply
poll_once-denied cfg w r manifest k locus disk =
    let s = syncer_for cfg (read_current_version r) in
    let (receipt, outcome, e) =
      apply_loaded-denied w s manifest r disk locus (load_attestation cfg w manifest) in
    (receipt, outcome, ap (poll_reply cfg w r) k ∙ e)
