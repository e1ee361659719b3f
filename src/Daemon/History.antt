-- ===== src/Daemon/History.antt =====
-- What a run of the loop, over any polls, may have written to the version file.
use sourceos_syncd.Prelude.{
  ℕ, true, Bool, String, ◌<>◌, ◌≡◌, refl, ap, ◌∙◌, ◌⊎◌, inl, inr, false, Option, none, some, List,
  [], ◌∷◌, Bool-cases,
}
use sourceos_syncd.Katello.{ContentViewManifest}
use sourceos_syncd.Json.{Object}
use sourceos_syncd.ContentSync.{Gate, ContentSyncPlan, ContentViewSyncer, plan, plan_steps}
use sourceos_syncd.ContentSync.Planning.{plan-steps}
use sourceos_syncd.ContentSync.Execute.{SyncReceipt, Outcome, Executed, execute}
use sourceos_syncd.ContentSync.Execute.Safety.{AllExitZero, runnable, execute-applied_iff}
use sourceos_syncd.Text.{slice_to}
use sourceos_syncd.Receipts.{
  Disk, complete, unopened, cut, succeeds, ReceiptStore, read_current_version, write_receipt,
  write_current_version, write_version_on, write_receipt_on,
}
use sourceos_syncd.Daemon.{
  Config, World, Loaded, absent, loaded, malformed, load_attestation, syncer_for, plan_loaded,
  raise_at, is_raised, conclude, settle_run, apply_gate, apply_plan, poll_reply, poll_once,
  SyncDaemon, round, run,
}
use sourceos_syncd.Daemon.Safety.{IsAuthorized, Gate-cases, poll_once-IsAuthorized}
use sourceos_syncd.Daemon.Poll.{apply_plan-closed}

-- Each step of the manifest's plan exited with 0, but for those of nix and nixos-rebuild where these
-- programs are missing.
abbrev pub StepsSucceeded : Config → World → ReceiptStore → ContentViewManifest → Type 0
StepsSucceeded cfg w r manifest =
    AllExitZero w.machine [] (
      runnable w.machine (plan_steps w.minisign (syncer_for cfg (read_current_version r)) manifest))

-- What a write of the version leaves: its line, or a beginning of it where the disk broke off.
abbrev pub IsLeft : Disk ℕ → String → Option String → Type 0
IsLeft disk version file =
    (file ≡ some (version <> "\n"))
    ⊎ ((n : ℕ) × (disk ≡ cut n) × (file ≡ some (slice_to n (version <> "\n"))))

moved :
    (disk : Disk ℕ) (version : String) {a b : Option String}
    → a ≡ b
    → IsLeft disk version b
    → IsLeft disk version a
moved disk version e (inl whole) = inl (e ∙ whole)
moved disk version e (inr (n, broke, part)) = inr (n, broke, e ∙ part)

write_receipt_on-version :
    (disk : Disk Bool) (receipt : SyncReceipt) (r : ReceiptStore)
    → (write_receipt_on disk receipt r).version_file ≡ r.version_file
unfolding write_receipt_on write_receipt
write_receipt_on-version complete receipt r = refl
write_receipt_on-version unopened receipt r = refl
write_receipt_on-version (cut true) receipt r = refl
write_receipt_on-version (cut false) receipt r = refl

write_version_on-IsLeft :
    (version : String) (disk : Disk ℕ) (r : ReceiptStore)
    → ((write_version_on disk version r).version_file ≡ r.version_file)
      ⊎ IsLeft disk version (write_version_on disk version r).version_file
unfolding write_version_on write_current_version
write_version_on-IsLeft version complete r = inr (inl refl)
write_version_on-IsLeft version unopened r = inl refl
write_version_on-IsLeft version (cut n) r = inr (inr (n, refl, refl))

module _ (w : World) (manifest : ContentViewManifest) (r : ReceiptStore) where
  conclude-version :
      (outcome : Outcome) (q : ReceiptStore) (ran : List String)
      → ((conclude w manifest outcome q ran).store.version_file ≡ q.version_file)
        ⊎ ((outcome ≡ Outcome.applied)
            × IsLeft w.version_disk manifest.version
                (conclude w manifest outcome q ran).store.version_file)
  unfolding conclude
  conclude-version Outcome.applied q ran =
      elim (write_version_on-IsLeft manifest.version w.version_disk q) [
        | inl same ↦ inl same
        | inr left ↦ inr (refl, left)
      ]
  conclude-version Outcome.failed q ran = inl refl
  conclude-version _ q ran = inl refl

  settle_run-version :
      (done : Executed)
      → ((settle_run w manifest r done).store.version_file ≡ r.version_file)
        ⊎ ((done.status ≡ Outcome.applied)
            × IsLeft w.version_disk manifest.version
                (settle_run w manifest r done).store.version_file)
  unfolding settle_run
  settle_run-version done =
      let kept = write_receipt_on-version w.receipt_disk done.receipt r in
      elim (Bool-cases (is_raised done.status)) [
        | inl raised ↦ rw raised (inl refl)
        | inr ended ↦ rw ended (elim (Bool-cases (succeeds w.receipt_disk)) [
          | inl e ↦
              rw e
                (elim (conclude-version done.status (write_receipt_on w.receipt_disk done.receipt r)
                  done.ran) [ inl same ↦ inl (same ∙ kept) | inr written ↦ inr written ])
          | inr e ↦ rw e (inl kept)
        ])
      ]

  apply_plan-version :
      (s : ContentViewSyncer) (p : ContentSyncPlan)
      → ((apply_plan w s manifest r (some p)).store.version_file ≡ r.version_file)
        ⊎ ((p.policy_gate ≡ Gate.allowed)
            × AllExitZero w.machine [] (runnable w.machine p.steps)
            × IsLeft w.version_disk manifest.version
                (apply_plan w s manifest r (some p)).store.version_file)
  unfolding apply_plan
  apply_plan-version s p = elim (Gate-cases p.policy_gate) [
    | inl closed ↦ inl (apply_plan-closed w s manifest r p closed).1
    | inr g ↦
        let done = execute w.machine s w.stamp false p in
        let e = ap (λ k. (apply_gate w s manifest r p k).store.version_file) g in
        elim (settle_run-version done) [
          | inl same ↦ inl (e ∙ same)
          | inr (applied, written) ↦ inr (
            g,
            (execute-applied_iff w.machine s w.stamp p g).0 applied,
            moved w.version_disk manifest.version e written,
          )
        ]
  ]

  planned_version :
      (s : ContentViewSyncer) (attestation : Option Object)
      → let polled = apply_plan w s manifest r (some (plan w.minisign s manifest attestation)) in
        (polled.store.version_file ≡ r.version_file)
        ⊎ (AllExitZero w.machine [] (runnable w.machine (plan_steps w.minisign s manifest))
            × IsLeft w.version_disk manifest.version polled.store.version_file)
  planned_version s attestation =
      let p = plan w.minisign s manifest attestation in
      elim (apply_plan-version s p) [
        | inl same ↦ inl same
        | inr (g, zero_exits, written) ↦
            inr (rw (← (plan-steps w.minisign s manifest attestation).0 g) zero_exits, written)
      ]

  raised_version :
      {A : Type 0} (s : ContentViewSyncer) (p : ContentSyncPlan) (g : Gate)
      → ((apply_plan w s manifest r (some p)).store.version_file ≡ r.version_file)
        ⊎ (A
            × IsLeft w.version_disk manifest.version
                (apply_plan w s manifest r (some p)).store.version_file)
      → ((apply_plan w s manifest r (raise_at g p)).store.version_file ≡ r.version_file)
        ⊎ (A
            × IsLeft w.version_disk manifest.version
                (apply_plan w s manifest r (raise_at g p)).store.version_file)
  unfolding raise_at apply_plan
  raised_version s p Gate.blocked h = inl refl
  raised_version s p _ h = h

  -- Without a change the file holds what it held; with one the plan of the syncer succeeded.
  plan_loaded-version :
      (s : ContentViewSyncer) (l : Loaded)
      → ((apply_plan w s manifest r (plan_loaded w.minisign s manifest l)).store.version_file
          ≡ r.version_file)
        ⊎ (AllExitZero w.machine [] (runnable w.machine (plan_steps w.minisign s manifest))
            × IsLeft w.version_disk manifest.version
                (apply_plan w s manifest r
                  (plan_loaded w.minisign s manifest l)).store.version_file)
  unfolding plan_loaded
  plan_loaded-version s absent = planned_version s none
  plan_loaded-version s (loaded o) = planned_version s (some o)
  plan_loaded-version s malformed =
      raised_version s _ (plan w.minisign s manifest none).policy_gate (planned_version s none)

-- A version that a poll leaves in the file is the one that stood there, or that of the manifest
-- promoted, whose switch was authorized and whose steps succeeded.
pub record IsWritten (cfg : Config) (w : World) (r : ReceiptStore) (version : Option String)
    : Type 0 where
  pub manifest : ContentViewManifest
  pub authorized : IsAuthorized cfg w r manifest
  pub succeeded : StepsSucceeded cfg w r manifest
  pub written : IsLeft w.version_disk manifest.version version

poll_once-version :
    (cfg : Config) (w : World) (r : ReceiptStore)
    → ((poll_once cfg w r).store.version_file ≡ r.version_file)
      ⊎ IsWritten cfg w r (poll_once cfg w r).store.version_file
unfolding poll_once
poll_once-version cfg w r = elim (poll_once-IsAuthorized cfg w r) [
  | inl (_, same) ↦ inl same
  | inr (manifest, authorized) ↦
      let s = syncer_for cfg (read_current_version r) in
      let e = ap (λ reply. (poll_reply cfg w r reply).store.version_file) authorized.promoted in
      elim (plan_loaded-version w manifest r s (load_attestation cfg w manifest)) [
        | inl same ↦ inl (unfold poll_reply in e ∙ same)
        | inr (zero_exits, written) ↦ inr (record {
          manifest = manifest;
          authorized = authorized;
          succeeded = zero_exits;
          written = unfold poll_reply in moved w.version_disk manifest.version e written;
        })
      ]
]

-- Some poll of the run wrote the version.
abbrev pub Wrote : Config → List World → SyncDaemon → Option String → Type 0
Wrote cfg [] d version = ⊥
Wrote cfg (w ∷ ws) d version =
    IsWritten cfg w d.store version ⊎ Wrote cfg ws (round cfg w d) version

round-version :
    (cfg : Config) (w : World) (d : SyncDaemon)
    → ((round cfg w d).store.version_file ≡ d.store.version_file)
      ⊎ IsWritten cfg w d.store (round cfg w d).store.version_file
unfolding round
round-version cfg w d = elim (Bool-cases d.running) [
  | inl e ↦ simp e (poll_once-version cfg w d.store)
  | inr e ↦ inl (simp e)
]

-- Whatever a run of the loop meets, the version file at its end holds what it held at the start, or the
-- line that one of the polls wrote, or a beginning of that line where the disk broke the write off. The
-- line is the version of a manifest that Katello promoted to an allowed locus, where required with a
-- verified attestation of exactly this version, after each step of its plan exited with 0, but for the
-- steps of nix and of nixos-rebuild where these programs are not on the path.
pub run-version :
    (cfg : Config) (ws : List World) (d : SyncDaemon)
    → ((run cfg ws d).store.version_file ≡ d.store.version_file)
      ⊎ Wrote cfg ws d (run cfg ws d).store.version_file
unfolding run
run-version cfg [] d = inl refl
run-version cfg (w ∷ ws) d = elim (run-version cfg ws (round cfg w d)) [
  | inr later ↦ inr (inr later)
  | inl same ↦ elim (round-version cfg w d) [
    | inl before ↦ inl (same ∙ before)
    | inr written ↦ inr (inl (rw same written))
  ]
]
