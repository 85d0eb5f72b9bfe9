-- ===== src/Protocol/Vault.antt =====
-- Identifiers, paths, hashes and transaction manifests of the vault: crates/protocol/src/vault.rs.
use Prim.Native.Char.{code}
use wiki_coding.Prelude.{
  ℕ, suc, String, len, [], ◌∷◌, Bool, true, false, not, ◌&&◌, ◌||◌, Option, none, some, List, min,
  ◌-◌, ◌^◌, any, is_empty, all_chars, any_char, is_control, is_blank, is_code_text, starts_with,
  ends_with, split, Result, ok, refuse_if, ◌>>◌, StringSet, insert, contains_key, ◌==◌, nat_eq,
  string_eq, Eq, leb, ltb, ℕ_discrete, String_discrete,
}
use wiki_coding.Protocol.Event.{SchemaVersion, SessionId}

pub data VaultValidationError : Type 0 where
  invalid_id invalid_hash invalid_path invalid_target_order empty_targets duplicate_target
        invalid_state :
      VaultValidationError

abbrev pub TransactionId : Type 0
TransactionId = String

abbrev pub EvidenceId : Type 0
EvidenceId = String

abbrev pub ContentHash : Type 0
ContentHash = String

-- `new` of the identifiers that `vault_id!` declares.
unfoldable pub validated_vault_id : String → Result VaultValidationError String
validated_vault_id value = do
  refuse_if (is_blank value || ltb 256 (len value) || any_char is_control value) invalid_id
  ok value

-- `ContentHash::new`: no byte of a character above 127 passes, so the test may go by characters.
unfoldable pub content_hash : String → Result VaultValidationError ContentHash
content_hash value = do
  refuse_if
      (not (len value == 64)
        || not (
            all_chars
              (λ c. let n = code c in (leb b'0' n && leb n b'9') || (leb b'a' n && leb n b'f'))
              value))
      invalid_hash
  ok value

-- `path.as_bytes().get(1) == Some(&b':')`: the first character has one byte and `:` comes next.
unfoldable pub has_drive : String → Bool
has_drive String.[] = false
has_drive (String.◌∷◌ c String.[]) = false
has_drive (String.◌∷◌ c (String.◌∷◌ d path)) = ltb (code c) 128 && code d == b':'

unfoldable pub bad_segment : String → Bool
bad_segment segment =
    len segment == 0
    || segment == "."
    || segment == ".."
    || ends_with segment "."
    || any_char is_control segment

unfoldable pub validate_vault_relative_path : String → Result VaultValidationError (Unit {0})
unfolding bad_segment has_drive
validate_vault_relative_path path =
    refuse_if
      (len path == 0
        || ltb 1024 (len path)
        || any_char (λ c. code c == 0) path
        || any_char (λ c. code c == 92) path
        || starts_with path "/"
        || ends_with path "/"
        || any bad_segment (split b'/' path)
        || has_drive path)
      invalid_path

pub data RawEvidenceKind : Type 0 where
  session import asset : RawEvidenceKind

pub record RawEvidenceManifest : Type 0 where
  pub schema_version : SchemaVersion
  pub evidence_id : EvidenceId
  pub kind : RawEvidenceKind
  pub session_id : Option SessionId
  pub relative_path : String
  pub content_hash : ContentHash
  pub bytes : ℕ
  pub finalized_at_unix_ms : ℕ

-- `RawEvidenceManifest::validate`.
unfoldable pub kind_has_session : RawEvidenceKind → Option SessionId → Bool
kind_has_session session (some id) = true
kind_has_session session none = false
kind_has_session import none = true
kind_has_session import (some id) = false
kind_has_session asset none = true
kind_has_session asset (some id) = false

unfoldable pub validate_raw_manifest :
    RawEvidenceManifest → Result VaultValidationError RawEvidenceManifest
validate_raw_manifest manifest = do
  validate_vault_relative_path (manifest.relative_path)
  refuse_if (not (starts_with (manifest.relative_path) "raw/")) invalid_path
  refuse_if (not (kind_has_session (manifest.kind) (manifest.session_id))) invalid_state
  ok manifest

pub data InboxImportStatus : Type 0 where
  imported_source_retained compiled_source_removed evidence_only : InboxImportStatus

pub record InboxImportReceipt : Type 0 where
  pub schema_version : SchemaVersion
  pub evidence_id : EvidenceId
  pub kind : RawEvidenceKind
  pub content_hash : ContentHash
  pub bytes : ℕ
  pub origin_relative_path : String
  pub imported_relative_path : String
  pub imported_at_unix_ms : ℕ
  pub status : InboxImportStatus
  pub code : String
  pub transaction_id : Option TransactionId

-- `InboxImportReceipt::validate`.
unfoldable pub is_consistent_import :
    RawEvidenceKind → InboxImportStatus → Option TransactionId → Bool
is_consistent_import import imported_source_retained none = true
is_consistent_import import compiled_source_removed (some id) = true
is_consistent_import asset evidence_only none = true
is_consistent_import _ _ _ = false

unfoldable pub validate_inbox_receipt :
    InboxImportReceipt → Result VaultValidationError InboxImportReceipt
validate_inbox_receipt receipt = do
  validate_vault_relative_path (receipt.origin_relative_path)
  validate_vault_relative_path (receipt.imported_relative_path)
  refuse_if
      (not (starts_with (receipt.origin_relative_path) "inbox/")
        || not (starts_with (receipt.imported_relative_path) "raw/")
        || len (receipt.code) == 0
        || ltb 64 (len (receipt.code))
        || not (is_code_text (receipt.code)))
      invalid_state
  refuse_if (not (is_consistent_import (receipt.kind) (receipt.status) (receipt.transaction_id)))
      invalid_state
  ok receipt

pub data TransactionState : Type 0 where
  preparing prepared applying committed : TransactionState

pub record TransactionTarget : Type 0 where
  pub relative_path : String
  pub old_hash : Option ContentHash
  pub expected_hash : ContentHash
  pub staged_relative_path : String
  pub order : ℕ

-- `TransactionTarget::validate`.
unfoldable pub validate_target : TransactionTarget → Result VaultValidationError TransactionTarget
validate_target target = do
  validate_vault_relative_path (target.relative_path)
  validate_vault_relative_path (target.staged_relative_path)
  refuse_if
      (not (
          starts_with (target.relative_path) "wiki/"
          || target.relative_path == "log.md"
          || starts_with (target.relative_path) ".minimax/")
        || not (starts_with (target.staged_relative_path) ".minimax/transactions/"))
      invalid_path
  ok target

pub record TransactionManifest : Type 0 where
  pub schema_version : SchemaVersion
  pub transaction_id : TransactionId
  pub state : TransactionState
  pub targets : List TransactionTarget
  pub created_at_unix_ms : ℕ

-- `u32::try_from(index).unwrap_or(u32::MAX)`.
abbrev pub u32_index : ℕ → ℕ
u32_index index = min index (2 ^ 32 - 1)

-- The loop of `TransactionManifest::validate`, from a target on.
unfoldable pub check_targets :
    ℕ → StringSet → List TransactionTarget → Result VaultValidationError (Unit {0})
check_targets index paths [] = ok tt
check_targets index paths (target ∷ targets) = do
  validate_target target
  refuse_if (not (target.order == u32_index index)) invalid_target_order
  refuse_if (contains_key (target.relative_path) paths) duplicate_target
  check_targets (suc index) (insert (target.relative_path) tt paths) targets

unfoldable pub validate_manifest :
    TransactionManifest → Result VaultValidationError TransactionManifest
validate_manifest manifest = do
  refuse_if (is_empty (manifest.targets)) empty_targets
  check_targets 0 [] (manifest.targets)
  ok manifest

pub record VaultReceipt : Type 0 where
  pub schema_version : SchemaVersion
  pub operation_id : String
  pub code : String
  pub recorded_at_unix_ms : ℕ

unfoldable pub TransactionState-discrete : Discrete TransactionState
TransactionState-discrete = hlevel

instance abbrev pub transaction_state_eq : Eq TransactionState
transaction_state_eq = record { eq? = TransactionState-discrete }

unfoldable pub TransactionManifest-discrete : Discrete TransactionManifest
TransactionManifest-discrete = hlevel (ℕ_discrete, String_discrete)

instance abbrev pub transaction_manifest_eq : Eq TransactionManifest
transaction_manifest_eq = record { eq? = TransactionManifest-discrete }
