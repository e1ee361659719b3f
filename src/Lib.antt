-- ===== src/Lib.antt =====
-- Verification of sourceos-syncd, the agent that brings a SourceOS device to the content view that is
-- promoted to it, records what it did, and queues events.
--
-- Parts and the files that model them (source files below sourceos_syncd stand in src/sourceos_syncd/):
--   * Attestation: release_attestation.py, the check of a signed release attestation. The minisign
--     program is a record of functions.
--   * Katello: the manifest record of katello_client.py.
--   * ContentSync and ContentSync.Execute: content_sync.py. `plan` gates a manifest and lists the steps;
--     `execute` runs them on a machine (which programs exist, what each command returns).
--   * Receipts: receipt_store.py, the version file and the receipt files as a value.
--   * Daemon: daemon.py. `poll_once` is one poll of the world (the server, the attestation file, the
--     machine, the clock, whether the disk takes a file); `run` is the loop over a list of such worlds,
--     one for each round, with the backoff after errors.
--   * SafeId: the ids of files, which local_store.py and orchestration_events.py share.
--   * Queue: orchestration_events.py, the event-capability queue; the four state directories are
--     dictionaries from file names to envelopes. Queue.Check has the checks of a record.
--   * LocalStore: local_store.py. LocalStore has the registries, a dictionary of files for each kind of
--     record, and LocalStore.Journal the journal.
--   * EventStore: tools/sourceos_eventctl.py, the store of canonical events, one line for each.
--   * Normalizer: tools/sourceos_policy_normalizer.py. Normalizer has the registry of explanation codes and
--     the checks of an observation, Normalizer.Event the event that is made from it.
--   * NoiseBudget: noise_budget.py, the engine that drops repeated events.
--   * Policy: policy.py. Policy has the decisions, Policy.Report the decisions for the lanes of a report.
--     The remote service is a function from a URL and a request to what comes of it.
--   * Contracts: contracts.py. Contracts.Records and Contracts.Events hold the record types as tables,
--     Contracts validates against them, Contracts.Build makes instances.
--   * Reports: reports.py. Reports.Validation checks a report section by section (Reports.Sections,
--     Reports.Resources), Reports.Verify finds the six invariants, Reports.Diagnosis the status, the causes
--     and the actions, Reports.Repair the plan. What a function raises on values of other types is `none`.
--   * Trust, Scorecard, Evidence: trust.py, scorecard.py and evidence.py, which read reports.
--   * Prelude, Json, Text, Show: what the parts share: Python's equality, dicts, JSON values
--     and text methods.
--   * Examples: the theorems at concrete inputs.
--
-- The daemon polls with the syncer, which asks the attestation gate; its receipts and its version go to
-- the receipt store. The loop of the daemon is structural recursion over the rounds, so no fuel is needed.
--
-- Not modelled: files and processes but for the values that the code reads from them, logging, signal
-- handlers, the text of messages, the snapshot of the running machine (base_snapshot and
-- collect_resources of reports.py), the command line, the summary of the local store, the report
-- builders (authority, coherence, harvest, narrative, systema, store_reports) and the tools other than
-- sourceos_eventctl.py and sourceos_policy_normalizer.py.
--
-- The two files of the receipt store may fail to be written, or be cut off between characters; the other
-- files are written whole, and the lines of the journals and of the event store all have their ends.
-- Numbers are unbounded as in Python; texts are sequences of code points; `str.isalnum` and
-- the text of a container are parameters.
pub mod Attestation
pub mod ContentSync
pub mod Contracts
pub mod Daemon
pub mod EventStore
pub mod Evidence
pub mod Examples
pub mod Json
pub mod Katello
pub mod LocalStore
pub mod NoiseBudget
pub mod Normalizer
pub mod Policy
pub mod Prelude
pub mod Queue
pub mod Receipts
pub mod Reports
pub mod SafeId
pub mod Scorecard
pub mod Show
pub mod Text
pub mod Trust
