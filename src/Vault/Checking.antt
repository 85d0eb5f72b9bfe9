-- ===== src/Vault/Checking.antt =====
-- The checks in front of a roll forward (`validate_prepared`, `load_manifest` of
-- crates/vault/src/transaction.rs) pass in files that can be recovered.
use wiki_coding.Prelude.{
  String, true, false, not, ◌&&◌, ◌≡◌, refl, ◌==◌, nat_eq, string_eq, Option, none, some, List, [],
  ◌∷◌, ok, refuse_if, ◌>>◌, get, is_empty, inl, inr, ◌⊎◌, arith, >>-passes,
}
use mathlib.Core.List.{Memᴰ}
use wiki_coding.Protocol.Vault.{
  ContentHash, TransactionManifest, TransactionTarget, TransactionState, validate_manifest,
  check_targets, empty_targets, transaction_manifest_eq,
}
use wiki_coding.Vault.Files.{Files}
use wiki_coding.Vault.Transaction.{
  Codec, same_hash, load_manifest, check_prepared, validate_prepared, set_state, manifest_path,
}
use wiki_coding.Vault.Recoverable.{
  read_hash-found, is_target, is_staged, is_manifest, found_hash, Placed, Recoverable,
}
use wiki_coding.Vault.Applying.{Within}

pub validate_manifest-set_state :
    (m : TransactionManifest) (state : TransactionState)
    → validate_manifest m ≡ ok m
    → validate_manifest (set_state m state) ≡ ok (set_state m state)
unfolding validate_manifest
validate_manifest-set_state m state valid =
    let (some_targets, rest) =
      >>-passes (refuse_if (is_empty m.targets) empty_targets)
        (check_targets 0 [] m.targets >> ok m) valid in
    let (checked, done) = >>-passes (check_targets 0 [] m.targets) (ok m) rest in
    rw (some_targets, checked)

pub same_text : (h : String) → (h == h) ≡ true
same_text h = ground arith

module _ (codec : Codec) where
  -- What is written of a manifest, in each of its states, can be read.
  abbrev pub ReadsBack : TransactionManifest → Type 0
  ReadsBack m =
      (state : TransactionState)
      → codec.read_manifest (codec.manifest_json (set_state m state)) ≡ some (set_state m state)

  pub load_manifest-some :
      (m : TransactionManifest) (state : TransactionState) (files : Files)
      → ReadsBack m
      → validate_manifest m ≡ ok m
      → codec.disk.read_fails (manifest_path codec m.transaction_id) files ≡ false
      → get (manifest_path codec m.transaction_id) files
        ≡ some (codec.manifest_json (set_state m state))
      → load_manifest codec m.transaction_id files ≡ ok (set_state m state)
  unfolding load_manifest
  load_manifest-some m state files reads valid works written =
      rw (works, written, reads state, validate_manifest-set_state m state valid)

  same_hash-same : (o : Option ContentHash) → same_hash o o ≡ true
  same_hash-same none = refl
  same_hash-same (some h) = ground arith

  -- A target in one of its two states is no conflict.
  reached-no_conflict :
      (o old : Option ContentHash) (expected : ContentHash)
      → (o ≡ old) ⊎ (o ≡ some expected)
      → (not (same_hash o old) && not (same_hash o (some expected))) ≡ false
  reached-no_conflict o old expected (inl same) = ground (arith, same, same_hash-same old)
  reached-no_conflict o old expected (inr same) =
      ground (arith, same, same_hash-same (some expected))

  module _ (m : TransactionManifest) (original files : Files) (placed : Placed codec m original)
      (r : Recoverable codec m original files) where
    check_prepared-ok :
        (targets : List TransactionTarget)
        → Within codec m original targets
        → check_prepared codec m.transaction_id files targets ≡ ok tt
    unfolding check_prepared
    check_prepared-ok [] within = refl
    check_prepared-ok (t ∷ targets) within =
        let here = within t (Memᴰ.head refl) in
        let (bytes, found, hash) = r.staged t here in
        let reads = (placed.serves t.relative_path files (is_target t here refl) r.others).0 in
        let staged_reads =
          (placed.serves t.staged_relative_path files (is_staged t here refl) r.others).0 in
        let rest = check_prepared-ok targets (λ u at. within u (Memᴰ.tail at)) in
        rw (
          placed.prefixed t here,
          staged_reads,
          found,
          hash,
          same_text t.expected_hash,
          read_hash-found codec t.relative_path files reads,
          reached-no_conflict (found_hash codec t.relative_path files) t.old_hash t.expected_hash
              (r.reached t here),
          rest,
        )

    same_manifest : (n : TransactionManifest) → (n == n) ≡ true
    same_manifest n = ground arith

    pub validate_prepared-ok :
        (state : TransactionState)
        → ReadsBack m
        → get (manifest_path codec m.transaction_id) files
          ≡ some (codec.manifest_json (set_state m state))
        → validate_prepared codec (set_state m state) files ≡ ok tt
    unfolding validate_prepared
    validate_prepared-ok state reads written = rw (
      validate_manifest-set_state m state placed.valid,
      check_prepared-ok m.targets (λ u at. at),
      load_manifest-some m state files reads placed.valid
          (placed.serves (manifest_path codec m.transaction_id) files (is_manifest refl) r.others).0
          written,
      same_manifest (set_state m state),
    )
