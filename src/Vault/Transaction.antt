-- ===== src/Vault/Transaction.antt =====
-- Wiki transactions that are prepared: `roll_forward_with_fault`, `recover_wiki_transaction` and their
-- helpers, of crates/vault/src/transaction.rs. SHA-256 and the JSON of the manifest and the receipt are
-- parameters, and so is the disk. A fault point stands for a crash there.
use wiki_coding.Prelude.{
  ℕ, suc, String, Bool, true, false, not, ◌&&◌, ◌||◌, ◌==◌, nat_eq, string_eq, Option, none, some,
  List, [], ◌∷◌, starts_with, Result, ok, err, refuse_if, ok_or, map_err, ◌>>=◌, ◌>>◌, get,
  if◌then◌else◌, ℕ_discrete,
}
use Prim.Native.String.{◌++◌}
use wiki_coding.Protocol.Event.{v1}
use wiki_coding.Protocol.Vault.{
  ContentHash, TransactionId, TransactionManifest, TransactionTarget, TransactionState,
  VaultReceipt, preparing, applying, committed, validate_manifest, transaction_state_eq,
  transaction_manifest_eq,
}
use wiki_coding.Vault.Files.{
  VaultError, Bytes, Files, Disk, read_file, io, conflict, recovery_required, fault_injected,
  atomic_replace, atomic_create_or_same,
}

pub data TransactionFaultPoint : Type 0 where
  after_prepared after_applying_state : TransactionFaultPoint
  after_target : ℕ → TransactionFaultPoint
  before_receipt : TransactionFaultPoint

unfoldable pub TransactionFaultPoint-discrete : Discrete TransactionFaultPoint
TransactionFaultPoint-discrete = hlevel ℕ_discrete

-- `fault == Some(point)`.
abbrev pub is_fault : Option TransactionFaultPoint → TransactionFaultPoint → Bool
is_fault none point = false
is_fault (some fault) point = elim (TransactionFaultPoint-discrete fault point) [
  | yes _ ↦ true
  | no _ ↦ false
]

abbrev pub Rolled : Type 0
Rolled = Files × Result VaultError VaultReceipt

-- What the code takes from the crates `sha2` and `serde_json`, and the disk.
pub record Codec : Type 0 where
  pub sha256_hex : Bytes → String
  pub text_bytes : String → Bytes
  pub manifest_json : TransactionManifest → Bytes
  pub read_manifest : Bytes → Option TransactionManifest
  pub receipt_json : VaultReceipt → Bytes
  pub read_receipt : Bytes → Option VaultReceipt
  pub disk : Disk

abbrev pub same_hash : Option ContentHash → Option ContentHash → Bool
same_hash none none = true
same_hash none (some b) = false
same_hash (some a) none = false
same_hash (some a) (some b) = a == b

abbrev pub receipt_of : TransactionManifest → VaultReceipt
receipt_of manifest = record {
  schema_version = v1;
  operation_id = manifest.transaction_id;
  code = "committed";
  recorded_at_unix_ms = manifest.created_at_unix_ms;
}

abbrev pub set_state : TransactionManifest → TransactionState → TransactionManifest
set_state manifest state = record manifest { state = state }

module _ (codec : Codec) where
  unfoldable pub transaction_directory_name : TransactionId → String
  transaction_directory_name id = codec.sha256_hex (codec.text_bytes id)

  unfoldable pub manifest_path : TransactionId → String
  unfolding transaction_directory_name
  manifest_path id = ".minimax/transactions/" ++ (transaction_directory_name id ++ "/manifest.json")

  unfoldable pub staged_prefix : TransactionId → String
  unfolding transaction_directory_name
  staged_prefix id = ".minimax/transactions/" ++ (transaction_directory_name id ++ "/staged/")

  unfoldable pub receipt_path : TransactionId → String
  unfolding transaction_directory_name
  receipt_path id = ".minimax/receipts/transaction-" ++ (transaction_directory_name id ++ ".json")

  abbrev pub hash_of : Option Bytes → Option ContentHash
  hash_of none = none
  hash_of (some bytes) = some (codec.sha256_hex bytes)

  unfoldable pub read_hash : String → Files → Result VaultError (Option ContentHash)
  read_hash path files =
      if codec.disk.read_fails path files then err io else ok (hash_of (get path files))

  unfoldable pub load_manifest : TransactionId → Files → Result VaultError TransactionManifest
  load_manifest id files = do
    bytes ← ok_or (read_file codec.disk (manifest_path id) files) recovery_required
    manifest ← ok_or (codec.read_manifest bytes) recovery_required
    map_err (validate_manifest manifest) recovery_required

  -- `write_manifest` with `replace`.
  unfoldable pub write_manifest : TransactionManifest → Files → Result VaultError Files
  write_manifest manifest files =
      atomic_replace codec.disk (manifest_path manifest.transaction_id)
        (codec.manifest_json manifest) files

  unfoldable pub write_receipt : TransactionManifest → Files → Rolled
  write_receipt manifest files =
      elim (atomic_create_or_same codec.disk (receipt_path manifest.transaction_id)
        (codec.receipt_json (receipt_of manifest)) files) [
          | ok after ↦ (after, ok (receipt_of manifest))
          | err e ↦ (files, err e)
        ]

  unfoldable pub check_prepared :
      TransactionId → Files → List TransactionTarget → Result VaultError (Unit {0})
  check_prepared id files [] = ok tt
  check_prepared id files (target ∷ targets) = do
    refuse_if (not (starts_with target.staged_relative_path (staged_prefix id))) recovery_required
    staged ← ok_or (read_file codec.disk target.staged_relative_path files) recovery_required
    refuse_if (not (codec.sha256_hex staged == target.expected_hash)) recovery_required
    current ← read_hash target.relative_path files
    refuse_if
        (not (same_hash current target.old_hash)
          && not (same_hash current (some target.expected_hash)))
        conflict
    check_prepared id files targets

  unfoldable pub validate_prepared : TransactionManifest → Files → Result VaultError (Unit {0})
  validate_prepared manifest files = do
    map_err (validate_manifest manifest) recovery_required
    check_prepared manifest.transaction_id files manifest.targets
    on_disk ← load_manifest manifest.transaction_id files
    refuse_if (not (on_disk == manifest)) recovery_required

  -- One round of the loop over the targets.
  unfoldable pub apply_target : TransactionTarget → Files → Result VaultError Files
  apply_target target files = do
    current ← read_hash target.relative_path files
    if same_hash current (some target.expected_hash) then ok files else (do
      staged ← ok_or (read_file codec.disk target.staged_relative_path files) recovery_required
      atomic_replace codec.disk target.relative_path staged files)

  unfoldable pub apply_targets :
      ℕ
      → Option TransactionFaultPoint
      → List TransactionTarget
      → Files
      → Files × Result VaultError (Unit {0})
  apply_targets index fault [] files = (files, ok tt)
  apply_targets index fault (target ∷ targets) files = elim (apply_target target files) [
    | err e ↦ (files, err e)
    | ok after ↦ elim (is_fault fault (after_target index)) [
      | true ↦ (after, err fault_injected)
      | false ↦ apply_targets (suc index) fault targets after
    ]
  ]

  -- The manifest and the files once the targets are being changed.
  unfoldable pub start_applying :
      TransactionManifest → Files → Result VaultError (TransactionManifest × Files)
  start_applying manifest files = if manifest.state == committed then ok (manifest, files) else (do
    after ← write_manifest (set_state manifest applying) files
    ok (set_state manifest applying, after))

  unfoldable pub finish_roll :
      TransactionManifest
      → Option TransactionFaultPoint
      → Files × Result VaultError (Unit {0})
      → Rolled
  finish_roll manifest fault (files, err e) = (files, err e)
  finish_roll manifest fault (files, ok u) =
      let last = set_state manifest committed in
      elim (write_manifest last files) [
        | err e ↦ (files, err e)
        | ok after ↦
            if is_fault fault before_receipt
            then (after, err fault_injected)
            else write_receipt last after
      ]

  unfoldable pub roll_valid : TransactionManifest → Option TransactionFaultPoint → Files → Rolled
  roll_valid manifest fault files = elim (start_applying manifest files) [
    | err e ↦ (files, err e)
    | ok (started, after) ↦
        if is_fault fault after_applying_state
        then (after, err fault_injected)
        else finish_roll started fault (apply_targets 0 fault started.targets after)
  ]

  unfoldable pub roll_forward_with_fault :
      TransactionManifest → Option TransactionFaultPoint → Files → Rolled
  roll_forward_with_fault manifest fault files =
      if is_fault fault after_prepared
      then (files, err fault_injected)
      else (elim (validate_prepared manifest files) [
        | err e ↦ (files, err e)
        | ok _ ↦ roll_valid manifest fault files
      ])

  unfoldable pub recover_wiki_transaction : TransactionId → Files → Rolled
  recover_wiki_transaction id files = elim (load_manifest id files) [
    | err e ↦ (files, err e)
    | ok manifest ↦
        if not (manifest.transaction_id == id) || manifest.state == preparing
        then (files, err recovery_required)
        else roll_forward_with_fault manifest none files
  ]

  unfoldable pub transaction_is_committed : TransactionId → Files → Result VaultError Bool
  transaction_is_committed id files = do
    manifest ← load_manifest id files
    if not (manifest.transaction_id == id) || not (manifest.state == committed)
        then ok false
        else (do
          bytes ← ok_or (read_file codec.disk (receipt_path id) files) recovery_required
          receipt ← ok_or (codec.read_receipt bytes) recovery_required
          ok (receipt.operation_id == id && receipt.code == "committed"))
