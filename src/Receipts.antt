-- ===== src/Receipts.antt =====
-- src/sourceos_syncd/receipt_store.py: the current version and the receipts, one file each. The store
-- is the content of the version file and, by file name, what each receipt file parses to.
pub mod Version
pub mod Files
use Prim.Native.Char.{Char}
use Prim.Native.String.{compare}
use Prim.Native.Nat.{Ordering}
use sourceos_syncd.Prelude.{
  ℕ, zero, suc, String, ◌<>◌, Bool, true, false, Option, none, some, List, [], ◌∷◌, ◌==◌, string_eq,
  if◌then◌else◌,
}
use sourceos_syncd.Prelude.Dict
use sourceos_syncd.Prelude.Dict.{Dict}
use sourceos_syncd.Text.{strip, slice_to, replace_char, after_last}
use sourceos_syncd.ContentSync.Execute.{SyncReceipt}

-- How `write_text` ends: with the whole text in the file; with an exception before the file is opened;
-- or with one behind that, when the file has lost its content and holds a beginning of the text.
pub data Disk {ℓ} (A : Type ℓ) : Type ℓ where
  complete unopened : Disk A
  cut : A → Disk A

abbrev pub succeeds {ℓ} : {A : Type ℓ} → Disk A → Bool
succeeds complete = true
succeeds _ = false

-- `none` is a receipt file that cannot be read or parsed.
pub record ReceiptStore : Type 0 where
  pub version_file : Option String
  pub receipts : Dict (Option SyncReceipt)

-- `text or None`
unfoldable pub text_or_none : String → Option String
text_or_none s = if s == "" then none else some s

unfoldable pub read_current_version : ReceiptStore → Option String
unfolding strip text_or_none
read_current_version r = elim r.version_file [ none ↦ none | some text ↦ text_or_none (strip text) ]

unfoldable pub write_current_version : String → ReceiptStore → ReceiptStore
write_current_version version r = record r { version_file = some (version <> "\n") }

-- The write on a disk that may fail; the number is that of the characters that are kept.
unfoldable pub write_version_on : Disk ℕ → String → ReceiptStore → ReceiptStore
unfolding write_current_version slice_to
write_version_on complete version r = write_current_version version r
write_version_on unopened version r = r
write_version_on (cut n) version r = record r { version_file = some (slice_to n (version <> "\n")) }

unfoldable pub receipt_name : SyncReceipt → String
unfolding replace_char slice_to after_last
receipt_name receipt =
    let issued = replace_char b'T' "_" (replace_char b':' "-" receipt.issued_at) in
    issued <> ("-" <> (slice_to 16 (after_last b':' receipt.id) <> ".json"))

-- The new store and the file's name.
unfoldable pub write_receipt : SyncReceipt → ReceiptStore → ReceiptStore × String
unfolding receipt_name
write_receipt receipt r =
    let name = receipt_name receipt in
    (record r { receipts = Dict.put name (some receipt) r.receipts }, name)

-- The same for a receipt, whose beginning parses only if no more than the line's end is lacking.
unfoldable pub write_receipt_on : Disk Bool → SyncReceipt → ReceiptStore → ReceiptStore
unfolding write_receipt
write_receipt_on complete receipt r = (write_receipt receipt r).0
write_receipt_on unopened receipt r = r
write_receipt_on (cut true) receipt r = (write_receipt receipt r).0
write_receipt_on (cut false) receipt r = record r {
  receipts = Dict.put (receipt_name receipt) none r.receipts;
}

text_lt : String → String → Bool
text_lt s t = elim (compare s t) [ Ordering.lt ↦ true | _ ↦ false ]

insert_name : String × Option SyncReceipt → Dict (Option SyncReceipt) → Dict (Option SyncReceipt)
insert_name f [] = f ∷ []
insert_name f (g ∷ gs) =
    let rest = insert_name f gs in if text_lt f.0 g.0 then g ∷ rest else f ∷ g ∷ gs

-- `sorted(files, reverse=True)`, by file name.
unfoldable pub newest_first : Dict (Option SyncReceipt) → Dict (Option SyncReceipt)
unfolding insert_name text_lt
newest_first [] = []
newest_first (f ∷ fs) = insert_name f (newest_first fs)

first_files : ℕ → Dict (Option SyncReceipt) → Dict (Option SyncReceipt)
first_files zero fs = []
first_files (suc n) [] = []
first_files (suc n) (f ∷ fs) = f ∷ first_files n fs

readable : Dict (Option SyncReceipt) → List SyncReceipt
readable [] = []
readable ((name, none) ∷ fs) = readable fs
readable ((name, some receipt) ∷ fs) = receipt ∷ readable fs

unfoldable pub list_receipts : ℕ → ReceiptStore → List SyncReceipt
unfolding newest_first first_files readable
list_receipts limit r = readable (first_files limit (newest_first r.receipts))

unfoldable pub last_receipt : ReceiptStore → Option SyncReceipt
unfolding list_receipts
last_receipt r = elim (list_receipts 1 r) [ [] ↦ none | receipt ∷ _ ↦ some receipt ]
