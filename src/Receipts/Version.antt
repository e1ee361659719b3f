-- ===== src/Receipts/Version.antt =====
-- The round trip of the version file.
use sourceos_syncd.Prelude.{String, ◌≡◌, none, some, ◌==◌, string_eq, if◌then◌else◌}
use sourceos_syncd.Text.{strip}
use sourceos_syncd.Text.Strip.{strip-newline}
use sourceos_syncd.Receipts.{
  ReceiptStore, text_or_none, read_current_version, write_current_version,
}

-- A version that was written reads back without the white space around it, and as no version if
-- nothing else is in it.
pub read-write_current_version :
    (version : String) (r : ReceiptStore)
    → read_current_version (write_current_version version r)
      ≡ (if strip version == "" then none else some (strip version))
unfolding read_current_version write_current_version
read-write_current_version version r = unfold text_or_none in rw strip-newline
