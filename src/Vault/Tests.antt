-- ===== src/Vault/Tests.antt =====
-- Runs of the transactions of the vault on small files.
use wiki_coding.Prelude.{
  List, ◌≡◌, refl, none, some, [], ◌∷◌, ok, err, get, insert, ℕ_discrete, String_discrete, any_char,
  ends_with, split, is_control, contains_key,
}
use wiki_coding.Protocol.Vault.{
  TransactionState-discrete, TransactionManifest-discrete, validate_manifest, check_targets,
  validate_target, validate_vault_relative_path, bad_segment, has_drive,
}
use wiki_coding.Vault.Files.{io, conflict, atomic_replace, atomic_create_or_same, same_bytes}
use wiki_coding.Vault.Transaction.{
  Rolled, after_target, TransactionFaultPoint-discrete, roll_forward_with_fault,
  recover_wiki_transaction, transaction_directory_name, manifest_path, staged_prefix, receipt_path,
  read_hash, load_manifest, write_manifest, write_receipt, check_prepared, validate_prepared,
  apply_target, apply_targets, start_applying, finish_roll, roll_valid,
}
use wiki_coding.Vault.Preparing.{
  Prepared, staged_directory, WikiChange, validate_target_path, target_rank, may_precede, place,
  sort_changes, decimal, four_digits, effective_changes, staged_path, target_of, stage_targets,
  create_manifest, finish_prepare, prepare,
}
use wiki_coding.Vault.Crashes.{Done, prepared_recovers}
use wiki_coding.Vault.Samples.{
  nested_pages, nested_codec, old_files, tree-Serves, blocked, above, two_pages, sample_codec,
  sample_files, two_pages-ReadsBack,
}

abbrev crashed : Rolled
crashed = roll_forward_with_fault sample_codec two_pages (some (after_target 0)) sample_files

abbrev sample_changes : List WikiChange
sample_changes =
    record { relative_path = "log.md"; expected_old_hash = some "old"; bytes = 2 ∷ [] }
    ∷ record { relative_path = "wiki/index.md"; expected_old_hash = none; bytes = 1 ∷ [] }
    ∷ []

-- The index comes before the log.
sample_prepared :
    prepare sample_codec "t1" sample_changes 7 old_files ≡ (sample_files, ok two_pages)
unfolding ℕ_discrete String_discrete any_char ends_with split is_control contains_key get insert
    validate_manifest check_targets validate_target validate_vault_relative_path bad_segment
    has_drive atomic_create_or_same transaction_directory_name manifest_path staged_prefix
    staged_directory blocked above read_hash validate_target_path target_rank may_precede place
    sort_changes decimal four_digits effective_changes staged_path target_of stage_targets
    create_manifest finish_prepare prepare
sample_prepared = refl

no_receipt : get (receipt_path sample_codec "t1") old_files ≡ none
unfolding get insert String_discrete receipt_path transaction_directory_name
no_receipt = refl

prepared_recovers_example :
    Done sample_codec sample_changes two_pages old_files
      (recover_wiki_transaction sample_codec "t1" crashed.0)
prepared_recovers_example =
    prepared_recovers sample_codec "t1" sample_changes 7 old_files sample_files two_pages
      (some (after_target 0)) sample_prepared no_receipt two_pages-ReadsBack tree-Serves

-- The crash leaves the first page new and the second one old.
crash_is_between :
    (get "wiki/index.md" crashed.0 ≡ some (1 ∷ [])) × (get "log.md" crashed.0 ≡ some (5 ∷ []))
unfolding ℕ_discrete String_discrete any_char ends_with split is_control contains_key get insert
    TransactionState-discrete TransactionManifest-discrete validate_manifest check_targets
    validate_target validate_vault_relative_path bad_segment has_drive atomic_replace
    atomic_create_or_same same_bytes TransactionFaultPoint-discrete transaction_directory_name
    manifest_path staged_prefix receipt_path blocked above read_hash load_manifest write_manifest
    write_receipt check_prepared validate_prepared apply_target apply_targets start_applying
    finish_roll roll_valid roll_forward_with_fault
crash_is_between = (refl, refl)

-- A page that somebody else has changed is a conflict, and nothing is written.
changed_elsewhere :
    roll_forward_with_fault sample_codec two_pages none
      (insert "wiki/index.md" (5 ∷ []) sample_files)
    ≡ (insert "wiki/index.md" (5 ∷ []) sample_files, err conflict)
unfolding ℕ_discrete String_discrete any_char ends_with split is_control contains_key get insert
    TransactionState-discrete TransactionManifest-discrete validate_manifest check_targets
    validate_target validate_vault_relative_path bad_segment has_drive atomic_replace
    atomic_create_or_same same_bytes TransactionFaultPoint-discrete transaction_directory_name
    manifest_path staged_prefix receipt_path blocked above read_hash load_manifest write_manifest
    write_receipt check_prepared validate_prepared apply_target apply_targets start_applying
    finish_roll roll_valid roll_forward_with_fault
changed_elsewhere = refl

abbrev nested_changes : List WikiChange
nested_changes =
    record { relative_path = "wiki/a.md"; expected_old_hash = none; bytes = 1 ∷ [] }
    ∷ record { relative_path = "wiki/a.md/b.md"; expected_old_hash = none; bytes = 2 ∷ [] }
    ∷ []

abbrev nested_prepared : Prepared nested_codec
nested_prepared = prepare nested_codec "t1" nested_changes 7 []

abbrev nested_rolled : Rolled
nested_rolled = roll_forward_with_fault nested_codec nested_pages none nested_prepared.0

-- A page below another page of the same transaction is accepted by the preparation; then the roll
-- forward fails, and so does each recovery, which changes no file.
nested_never_recovers :
    (nested_prepared.1 ≡ ok nested_pages)
    × (nested_rolled.1 ≡ err io)
    × (recover_wiki_transaction nested_codec "t1" nested_rolled.0 ≡ (nested_rolled.0, err io))
unfolding ℕ_discrete String_discrete any_char ends_with split is_control contains_key get insert
    validate_manifest check_targets validate_target validate_vault_relative_path bad_segment
    has_drive atomic_create_or_same transaction_directory_name manifest_path staged_prefix
    staged_directory blocked above read_hash validate_target_path target_rank may_precede place
    sort_changes decimal four_digits effective_changes staged_path target_of stage_targets
    create_manifest finish_prepare prepare TransactionState-discrete TransactionManifest-discrete
    atomic_replace same_bytes TransactionFaultPoint-discrete receipt_path load_manifest
    write_manifest write_receipt check_prepared validate_prepared apply_target apply_targets
    start_applying finish_roll roll_valid roll_forward_with_fault recover_wiki_transaction
nested_never_recovers = (refl, refl, refl)
