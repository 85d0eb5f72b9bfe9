-- ===== src/Vault/Preparing.antt =====
-- How a transaction is prepared: `PreparedWikiTransaction::prepare` of
-- crates/vault/src/transaction.rs. Only the files that it creates are changed.
use Prim.Native.Nat.{Ordering, ◌/◌, ◌%◌}
use Prim.Native.String.{◌++◌, compare, slice}
use wiki_coding.Prelude.{
  ℕ, zero, suc, String, Bool, true, false, not, ◌&&◌, ◌||◌, ◌==◌, ◌-◌, ◌^◌, nat_eq, string_eq,
  Option, some, List, [], ◌∷◌, starts_with, ends_with, Result, ok, err, refuse_if, map_err, ◌>>=◌,
  ◌>>◌, StringSet, insert, contains_key, is_empty, ltb, if◌then◌else◌,
}
use wiki_coding.Protocol.Event.{v1}
use wiki_coding.Protocol.Vault.{
  ContentHash, TransactionId, TransactionManifest, TransactionTarget, prepared, validate_manifest,
  validate_vault_relative_path,
}
use wiki_coding.Vault.Files.{
  VaultError, Bytes, Files, io, conflict, recovery_required, empty_transaction, invalid_path,
  atomic_create_or_same,
}
use wiki_coding.Vault.Transaction.{
  transaction_directory_name, Codec, manifest_path, staged_prefix, read_hash, same_hash,
}

pub record WikiChange : Type 0 where
  pub relative_path : String
  pub expected_old_hash : Option ContentHash
  pub bytes : Bytes

unfoldable pub validate_target_path : String → Result VaultError (Unit {0})
validate_target_path path = do
  map_err (validate_vault_relative_path path) invalid_path
  refuse_if
      (not (
        path == "wiki/index.md"
        || path == "log.md"
        || (starts_with path "wiki/" && ends_with path ".md")
        || starts_with path ".minimax/indexes/"))
      invalid_path

unfoldable pub target_rank : String → ℕ
target_rank path =
    if path == "wiki/index.md"
    then 1
    else (if path == "log.md" then 2 else (if starts_with path ".minimax/" then 3 else 0))

-- The order of `sort_by`: `true` where the first change may stand before the second.
unfoldable pub may_precede : WikiChange → WikiChange → Bool
unfolding target_rank
may_precede left right =
    let a = target_rank left.relative_path in
    let b = target_rank right.relative_path in
    ltb a b
    || (a == b && (elim (compare left.relative_path right.relative_path) [
      | Ordering.gt ↦ false
      | _ ↦ true
    ]))

unfoldable pub place : WikiChange → List WikiChange → List WikiChange
place change [] = change ∷ []
place change (next ∷ changes) =
    let rest = place change changes in
    if may_precede change next then change ∷ next ∷ changes else next ∷ rest

-- `sort_by`, which keeps the order of changes that compare as equal.
unfoldable pub sort_changes : List WikiChange → List WikiChange
sort_changes [] = []
sort_changes (change ∷ changes) = place change (sort_changes changes)

-- `{index:04}`: the decimal digits with zeros in front up to four. One unit of fuel for each digit.
unfoldable pub decimal : ℕ → ℕ → String
decimal zero n = ""
decimal (suc fuel) n =
    let front = decimal fuel (n / 10) in
    let last = slice "0123456789" (n % 10) (suc (n % 10)) in
    if ltb n 10 then last else front ++ last

abbrev pub padding : ℕ → String
padding n =
    if ltb n 10 then "000" else (if ltb n 100 then "00" else (if ltb n 1000 then "0" else ""))

unfoldable pub four_digits : ℕ → String
four_digits n = padding n ++ decimal (suc n) n

module _ (codec : Codec) where
  -- The changes that change something, each with the hash of its content.
  unfoldable pub effective_changes :
      Files → StringSet → List WikiChange → Result VaultError (List (WikiChange × ContentHash))
  effective_changes files seen [] = ok []
  effective_changes files seen (change ∷ changes) =
      let path = change.relative_path in
      let hash = codec.sha256_hex change.bytes in
      do
        validate_target_path path
        refuse_if (contains_key path seen) conflict
        current ← read_hash codec path files
        refuse_if (not (same_hash current change.expected_old_hash)) conflict
        rest ← effective_changes files (insert path tt seen) changes
        ok (if same_hash current (some hash) then rest else (change, hash) ∷ rest)

  unfoldable pub staged_path : TransactionId → ℕ → String
  staged_path id index = staged_prefix codec id ++ (four_digits index ++ ".data")

  unfoldable pub target_of : TransactionId → ℕ → WikiChange → ContentHash → TransactionTarget
  target_of id index change hash = record {
    relative_path = change.relative_path;
    old_hash = change.expected_old_hash;
    expected_hash = hash;
    staged_relative_path = staged_path id index;
    order = index;
  }

  abbrev pub Staged : Type 0
  Staged = Files × Result VaultError (List TransactionTarget)

  abbrev pub add_target : TransactionTarget → Staged → Staged
  add_target target (files, ok targets) = (files, ok (target ∷ targets))
  add_target target (files, err e) = (files, err e)

  unfoldable pub stage_targets :
      TransactionId → ℕ → List (WikiChange × ContentHash) → Files → Staged
  stage_targets id index [] files = (files, ok [])
  stage_targets id index ((change, hash) ∷ changes) files =
      elim (atomic_create_or_same codec.disk (staged_path id index) change.bytes files) [
        | err e ↦ (files, err e)
        | ok after ↦ elim (ltb (2 ^ 32 - 1) index) [
          | true ↦ (after, err recovery_required)
          | false ↦
              add_target (target_of id index change hash)
                (stage_targets id (suc index) changes after)
        ]
      ]

  unfoldable pub staged_directory : TransactionId → String
  unfolding transaction_directory_name
  staged_directory id =
      ".minimax/transactions/" ++ (transaction_directory_name codec id ++ "/staged")

  abbrev pub Prepared : Type 0
  Prepared = Files × Result VaultError TransactionManifest

  -- `write_manifest` without `replace`.
  unfoldable pub create_manifest : TransactionManifest → Files → Prepared
  create_manifest manifest files =
      elim (atomic_create_or_same codec.disk (manifest_path codec manifest.transaction_id)
        (codec.manifest_json manifest) files) [
          | ok after ↦ (after, ok manifest)
          | err e ↦ (files, err e)
        ]

  unfoldable pub finish_prepare : TransactionId → ℕ → Staged → Prepared
  finish_prepare id created_at_unix_ms (files, err e) = (files, err e)
  finish_prepare id created_at_unix_ms (files, ok targets) =
      let manifest : TransactionManifest = record {
        schema_version = v1;
        transaction_id = id;
        state = prepared;
        targets = targets;
        created_at_unix_ms = created_at_unix_ms;
      } in
      elim (validate_manifest manifest) [
        | err e ↦ (files, err recovery_required)
        | ok valid ↦ create_manifest valid files
      ]

  unfoldable pub prepare : TransactionId → List WikiChange → ℕ → Files → Prepared
  prepare id changes created_at_unix_ms files =
      if is_empty changes
      then (files, err empty_transaction)
      else (elim (effective_changes files [] (sort_changes changes)) [
        | err e ↦ (files, err e)
        | ok effective ↦
            if is_empty effective
            then (files, err empty_transaction)
            else (if codec.disk.create_dir_fails (staged_directory id) files
                then (files, err io)
                else finish_prepare id created_at_unix_ms (stage_targets id 0 effective files))
      ])
