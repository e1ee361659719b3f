-- ===== src/Receipts/Files.antt =====
-- What the receipt files hold after a write.
use sourceos_syncd.Prelude.{String, ◌≡◌, some, ◌==◌, string_eq, if◌then◌else◌}
use sourceos_syncd.Prelude.Dict
use sourceos_syncd.ContentSync.Execute.{SyncReceipt}
use sourceos_syncd.Receipts.{ReceiptStore, receipt_name, write_receipt}

-- A written receipt stands in its file, and each file of another name holds what it held.
pub get-write_receipt :
    (receipt : SyncReceipt) (r : ReceiptStore) (name : String)
    → Dict.get name (write_receipt receipt r).0.receipts
      ≡ (if name == receipt_name receipt then some (some receipt) else Dict.get name r.receipts)
unfolding write_receipt
get-write_receipt receipt r name =
    Dict.get-put name (receipt_name receipt) (some receipt) r.receipts
