-- ===== src/Examples/Data.antt =====
-- A device, the content view promoted to it, and machines on which its steps succeed or fail.
use sourceos_syncd.Prelude.{true, false, none, some, [], ◌∷◌, string_eq}
use sourceos_syncd.Prelude.Signed.{pos}
use sourceos_syncd.Json.{obj, str, fields, Object}
use sourceos_syncd.Katello.{ContentViewManifest}
use sourceos_syncd.Attestation.{Verifier, Minisign, exited}
use sourceos_syncd.ContentSync.{ContentViewSyncer}
use sourceos_syncd.ContentSync.Execute.{Process, returned, Machine, Stamp}
use sourceos_syncd.Receipts.{ReceiptStore, complete}
use sourceos_syncd.Daemon.{Config, World}

abbrev pub manifest : ContentViewManifest
manifest = record {
  org = "SocioProphet";
  content_view = "builder";
  version = "1.3";
  lifecycle_env = "stable";
  katello_url = "https://k:8443";
  pulp_content_url = "https://k:8101";
  nix_cache_url = "https://k:8101/c/";
  artifacts = [];
  description = "";
}

-- No `minisign` binary.
abbrev pub no_minisign : Minisign
no_minisign = record {
  on_path = false;
  text_of = λ j. "";
  verify = λ key message signature. exited (pos 1);
}

abbrev pub accepts_all : Verifier
accepts_all attestation key = true

-- Named by hand, so that it computes without its producer.
abbrev pub attestation : Object
attestation =
    ("artifactId", str "urn:srcos:content-view:SocioProphet:builder:1.3")
    ∷ ("signer", str "release")
    ∷ ("algorithm", str "minisign-ed25519")
    ∷ ("timestamp", str "2026-01-01T00:00:00Z")
    ∷ ("signatureRef", str "RWS")
    ∷ []

abbrev pub syncer : ContentViewSyncer
syncer = record {
  flake_ref = "f";
  locus = "local";
  current_version = none;
  signing_public_key = none;
  agentplane_run_ref = none;
  require_attestation = true;
  attestation_public_key = some "RWK";
  attestation_verifier = some accepts_all;
}

-- Both programs are there, and every command ends with the exit code.
abbrev pub machine_with : Process → Machine
machine_with end = record { which = λ name. true; shell = λ ran command. end }

abbrev pub good_machine : Machine
good_machine = machine_with (returned (pos 0) "" "")

abbrev pub bad_machine : Machine
bad_machine = machine_with (returned (pos 1) "" "no")

abbrev pub bare_machine : Machine
bare_machine = record good_machine { which = λ name. false }

abbrev pub stamp : Stamp
stamp = record {
  cycle_id = "c";
  receipt_uuid = "r";
  audit_uuid = "a";
  duration_ms = 7;
  issued_at = "2026-01-01T00:00:00Z";
}

abbrev pub config : Config
config = record {
  flake_ref = "f";
  locus = "local";
  signing_public_key = none;
  agentplane_run_ref = none;
  require_attestation = true;
  attestation_public_key = some "RWK";
  attestation_dir = some "/att";
  attestation_verifier = some accepts_all;
  poll_interval_s = 300;
}

abbrev pub world : World
world = record {
  katello = some manifest;
  json_file = λ path. some (obj (fields attestation));
  machine = good_machine;
  minisign = no_minisign;
  stamp = stamp;
  receipt_disk = complete;
  version_disk = complete;
  signalled = false;
}

abbrev pub outage : World
outage = record world { katello = none }

abbrev pub empty_store : ReceiptStore
empty_store = record { version_file = none; receipts = [] }
