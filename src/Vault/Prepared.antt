-- ===== src/Vault/Prepared.antt =====
-- Where the preparation of a transaction leads, step by step (`PreparedWikiTransaction::prepare` of
-- crates/vault/src/transaction.rs).
use wiki_coding.Prelude.{
  ℕ, true, ◌≡◌, ◌∙◌, ap, refl, sym, subst, ◌==◌, nat_eq, string_eq, List, [], ok, err, refuse_if,
  >>-passes, is_empty, if◌then◌else◌, inl, inr, if-keeps, Result-cases,
}
use mathlib.Core.List.{Memᴰ}
use wiki_coding.Protocol.Event.{v1}
use wiki_coding.Protocol.Vault.{
  ContentHash, TransactionId, TransactionManifest, prepared, validate_manifest, check_targets,
  empty_targets, transaction_state_eq, TransactionState-discrete,
}
use wiki_coding.Vault.Files.{io, Files, recovery_required, empty_transaction, atomic_create_or_same}
use wiki_coding.Vault.Transaction.{Codec, manifest_path}
use wiki_coding.Vault.Preparing.{
  WikiChange, effective_changes, sort_changes, Staged, Prepared, stage_targets, create_manifest,
  finish_prepare, prepare, staged_directory,
}
use wiki_coding.Vault.Staging.{Created, create-Created, StagedAll, StagesTo, stage_targets_lem}
use wiki_coding.Vault.Effective.{
  Reached, effective_changes-Sound, effective_changes-Reached, sort_changes-Memᴰ,
}

validate_manifest-same : (m v : TransactionManifest) → validate_manifest m ≡ ok v → m ≡ v
unfolding validate_manifest
validate_manifest-same m v valid =
    let (some_targets, rest) = >>-passes (refuse_if (is_empty m.targets) empty_targets) _ valid in
    let (checked, done) = >>-passes (check_targets 0 [] m.targets) _ rest in cc

module _ (codec : Codec) where
  -- The files before, after the staging, and after the manifest.
  pub record Written (id : TransactionId) (changes : List WikiChange) (original after : Files)
      (m : TransactionManifest) : Type 0 where
    pub middle : Files
    pub entries : List (WikiChange × ContentHash)
    pub reached : (c : WikiChange) → Memᴰ c changes → Reached codec original entries c
    pub staging : StagedAll codec id original original middle entries m.targets
    pub manifest :
        Created (manifest_path codec m.transaction_id) (codec.manifest_json m) middle after
    pub valid : validate_manifest m ≡ ok m
    pub named : m.transaction_id ≡ id
    pub begun : (m.state == prepared) ≡ true

  abbrev pub WritesTo : TransactionId → List WikiChange → Files → Prepared codec → Type 0
  WritesTo id changes original (after, ok m) = Written id changes original after m
  WritesTo id changes original (after, err e) = Unit

  -- The end of `prepare`, from the creation of the directory on.
  abbrev after_directory :
      TransactionId → ℕ → List (WikiChange × ContentHash) → Files → Prepared codec
  after_directory id created_at effective original =
      if codec.disk.create_dir_fails (staged_directory codec id) original
      then (original, err io)
      else finish_prepare codec id created_at (stage_targets codec id 0 effective original)

  module _ (id : TransactionId) (changes : List WikiChange) (original : Files) where
    create_manifest_lem :
        (middle : Files) (m : TransactionManifest) (entries : List (WikiChange × ContentHash))
        → ((c : WikiChange) → Memᴰ c changes → Reached codec original entries c)
        → StagedAll codec id original original middle entries m.targets
        → validate_manifest m ≡ ok m
        → m.transaction_id ≡ id
        → (m.state == prepared) ≡ true
        → WritesTo id changes original (create_manifest codec m middle)
    unfolding create_manifest
    create_manifest_lem middle m entries reached staging valid named begun =
        elim (Result-cases (
          atomic_create_or_same codec.disk (manifest_path codec m.transaction_id)
            (codec.manifest_json m) middle)) [
              | inl (after, done) ↦
                  subst
                    (λ r.
                      WritesTo id changes original
                        (elim r [ ok after ↦ (after, ok m) | err e ↦ (middle, err e) ]))
                    (sym done)
                    (record {
                      middle = middle;
                      entries = entries;
                      reached = reached;
                      staging = staging;
                      manifest =
                          create-Created codec.disk (manifest_path codec m.transaction_id)
                            (codec.manifest_json m) middle after done;
                      valid = valid;
                      named = named;
                      begun = begun;
                    })
              | inr (e, refused) ↦
                  subst
                    (λ r.
                      WritesTo id changes original
                        (elim r [ ok after ↦ (after, ok m) | err e ↦ (middle, err e) ]))
                    (sym refused) tt
            ]

    finish_prepare_lem :
        (created_at : ℕ) (entries : List (WikiChange × ContentHash)) (outcome : Staged codec)
        → ((c : WikiChange) → Memᴰ c changes → Reached codec original entries c)
        → StagesTo codec id original original entries outcome
        → WritesTo id changes original (finish_prepare codec id created_at outcome)
    unfolding finish_prepare TransactionState-discrete
    finish_prepare_lem created_at entries (middle, err e) reached staging = tt
    finish_prepare_lem created_at entries (middle, ok targets) reached staging =
        let manifest : TransactionManifest = record {
          schema_version = v1;
          transaction_id = id;
          state = prepared;
          targets = targets;
          created_at_unix_ms = created_at;
        } in
        elim (Result-cases (validate_manifest manifest)) [
          | inl (valid, passes) ↦
              subst
                (λ r. WritesTo id changes original (elim r [
                  | err e ↦ (middle, err recovery_required)
                  | ok v ↦ create_manifest codec v middle
                ]))
                (sym passes)
                (subst (λ v. WritesTo id changes original (create_manifest codec v middle))
                  (validate_manifest-same manifest valid passes)
                  (create_manifest_lem middle manifest entries reached staging
                    (passes ∙ ap ok (sym (validate_manifest-same manifest valid passes))) refl
                    refl))
          | inr (e, refused) ↦
              subst
                (λ r. WritesTo id changes original (elim r [
                  | err e ↦ (middle, err recovery_required)
                  | ok v ↦ create_manifest codec v middle
                ]))
                (sym refused) tt
        ]

    effective_lem :
        (created_at : ℕ)
        → WritesTo id changes original
            (elim (effective_changes codec original [] (sort_changes changes)) [
              | err e ↦ (original, err e)
              | ok effective ↦
                  if is_empty effective
                  then (original, err empty_transaction)
                  else after_directory id created_at effective original
            ])
    effective_lem created_at =
        elim (Result-cases (effective_changes codec original [] (sort_changes changes))) [
          | inl (effective, done) ↦
              subst
                (λ r. WritesTo id changes original (elim r [
                  | err e ↦ (original, err e)
                  | ok effective ↦
                      if is_empty effective
                      then (original, err empty_transaction)
                      else after_directory id created_at effective original
                ]))
                (sym done)
                (if-keeps (WritesTo id changes original) (is_empty effective) (λ none_left. tt)
                  (λ some_left.
                    if-keeps (WritesTo id changes original)
                      (codec.disk.create_dir_fails (staged_directory codec id) original)
                      (λ fails. tt)
                      (λ works.
                        finish_prepare_lem created_at effective
                          (stage_targets codec id 0 effective original)
                          (λ c at.
                            effective_changes-Reached codec original [] (sort_changes changes)
                              effective done c (sort_changes-Memᴰ changes c at))
                          (stage_targets_lem codec original original id 0 effective (
                            effective_changes-Sound codec original [] (sort_changes changes)
                              effective done)))))
          | inr (e, refused) ↦
              subst
                (λ r. WritesTo id changes original (elim r [
                  | err e ↦ (original, err e)
                  | ok effective ↦
                      if is_empty effective
                      then (original, err empty_transaction)
                      else after_directory id created_at effective original
                ]))
                (sym refused) tt
        ]

    pub prepare-WritesTo :
        (created_at : ℕ)
        → WritesTo id changes original (prepare codec id changes created_at original)
    unfolding prepare
    prepare-WritesTo created_at =
        if-keeps (WritesTo id changes original) (is_empty changes) (λ nothing. tt)
          (λ something. effective_lem created_at)
