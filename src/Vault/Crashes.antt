-- ===== src/Vault/Crashes.antt =====
-- A transaction that is prepared can be recovered (`PreparedWikiTransaction::prepare` and
-- `recover_wiki_transaction` of crates/vault/src/transaction.rs).
use wiki_coding.Prelude.{
  Bool-cases, ℕ, String, true, false, ◌≡◌, refl, sym, subst, ap, ◌∙◌, ◌==◌, nat_eq, string_eq,
  Option, none, some, List, ok, get, inl, inr, ◌⊎◌,
}
use mathlib.Core.List.{Memᴰ}
use wiki_coding.Protocol.Vault.{
  TransactionId, TransactionManifest, TransactionTarget, TransactionState, preparing, prepared,
  applying, committed, transaction_state_eq, TransactionState-discrete,
}
use wiki_coding.Vault.Files.{Files}
use wiki_coding.Vault.Transaction.{
  Codec, Rolled, hash_of, manifest_path, receipt_path, TransactionFaultPoint, receipt_of,
  roll_forward_with_fault, recover_wiki_transaction,
}
use wiki_coding.Vault.Preparing.{WikiChange, prepare}
use wiki_coding.Vault.Recoverable.{
  Own, is_staged, is_manifest, same_path, Serves, found_hash, apart_sym, Placed, Recoverable,
}
use wiki_coding.Vault.Applying.{AllSettled}
use wiki_coding.Vault.Checking.{ReadsBack}
use wiki_coding.Vault.Recovery.{crash_recovers}
use wiki_coding.Vault.Placing.{Written-Placed}
use wiki_coding.Vault.Prepared.{Written, WritesTo, prepare-WritesTo}

not_preparing :
    (state : TransactionState) → (state == prepared) ≡ true → (state == preparing) ≡ false
unfolding TransactionState-discrete
not_preparing preparing begun = cc
not_preparing prepared begun = refl
not_preparing applying begun = refl
not_preparing committed begun = refl

module _ (codec : Codec) where
  module _ (id : TransactionId) (changes : List WikiChange) (original after : Files)
      (m : TransactionManifest) (placed : Placed codec m original)
      (w : Written codec id changes original after m) where
    -- A file that no staging names, and that is not the manifest, is as it was.
    untouched :
        (q : String)
        → ((t : TransactionTarget) → Memᴰ t m.targets → (q == t.staged_relative_path) ≡ false)
        → (q == manifest_path codec m.transaction_id) ≡ false
        → get q after ≡ get q original
    untouched q apart other = w.manifest.other q other ∙ w.staging.other q apart

    not_path :
        (q p : String)
        → ¬ (Own codec m original q)
        → (q ≡ p → Own codec m original q)
        → (q == p) ≡ false
    not_path q p foreign own = elim (Bool-cases (q == p)) [
      | inl same ↦ elim (foreign (own (same_path q p same))) [ ]
      | inr apart ↦ apart
    ]

    Written-Recoverable :
        get (receipt_path codec m.transaction_id) original ≡ none
        → Recoverable codec m original after
    unfolding found_hash
    Written-Recoverable fresh = record {
      others = λ q foreign.
          untouched q (λ t at. not_path q t.staged_relative_path foreign (is_staged t at))
            (not_path q (manifest_path codec m.transaction_id) foreign is_manifest);
      staged = λ t at.
          let ((bytes, found, hash), current) = w.staging.each t at in
          (bytes, w.manifest.kept t.staged_relative_path bytes found, hash);
      reached = λ t at. inl (
          ap (hash_of codec) (
            untouched t.relative_path
              (λ u there.
                apart_sym u.staged_relative_path t.relative_path (placed.staged_apart t u at there))
              (placed.manifest_apart t at).0)
          ∙ (w.staging.each t at).1);
      on_disk = (m.state, w.manifest.there, not_preparing m.state w.begun);
      receipt = inl (
          untouched (receipt_path codec m.transaction_id)
            (λ t at.
              apart_sym t.staged_relative_path (receipt_path codec m.transaction_id)
                (placed.receipt_apart t at).1)
            placed.records_apart
          ∙ fresh);
    }

  -- What recovery is to have done: the receipt is there, and each change that the files did not have
  -- already.
  abbrev pub Done : List WikiChange → TransactionManifest → Files → Rolled → Type 0
  Done changes m original recovered =
      (recovered.1 ≡ ok (receipt_of m))
      × ((c : WikiChange)
          → Memᴰ c changes
          → (found_hash codec c.relative_path original ≡ some (codec.sha256_hex c.bytes))
            ⊎ (found_hash codec c.relative_path recovered.0 ≡ some (codec.sha256_hex c.bytes)))

  targets_done :
      (id : TransactionId) (changes : List WikiChange) (original after last : Files)
      (m : TransactionManifest)
      → Written codec id changes original after m
      → AllSettled codec m original m.targets last
      → (c : WikiChange) → Memᴰ c changes
      → (found_hash codec c.relative_path original ≡ some (codec.sha256_hex c.bytes))
        ⊎ (found_hash codec c.relative_path last ≡ some (codec.sha256_hex c.bytes))
  targets_done id changes original after last m w settled c at = elim (w.reached c at) [
    | inl there ↦ inl there
    | inr made ↦
        let (t, here, path, hash) = w.staging.covers (c, codec.sha256_hex c.bytes) made in
        inr (ap (λ p. found_hash codec p last) (sym path) ∙ settled t here ∙ ap some hash)
  ]

  recovery_completes :
      (changes : List WikiChange) (original after : Files) (m : TransactionManifest)
      (fault : Option TransactionFaultPoint)
      → Written codec m.transaction_id changes original after m
      → get (receipt_path codec m.transaction_id) original ≡ none
      → ReadsBack codec m
      → Serves codec m original
      → Done changes m original (
          recover_wiki_transaction codec m.transaction_id
            (roll_forward_with_fault codec m fault after).0)
  recovery_completes changes original after m fault w fresh reads serves =
      let placed = Written-Placed codec changes original after m w serves in
      let id = m.transaction_id in
      let (answer, settled) =
        crash_recovers codec m original fault m.state after reads placed
          (Written-Recoverable id changes original after m placed w fresh) w.manifest.there in
      (
        answer,
        targets_done id changes original after
            (recover_wiki_transaction codec id (roll_forward_with_fault codec m fault after).0).0 m
            w settled,
      )

  -- A transaction that is prepared, where it has no receipt yet, and on a disk that reads and writes the
  -- paths of the transaction as long as no other file changes: wherever its roll forward then stops,
  -- recovery answers its receipt, and the file of each change then has the hash of the change's content,
  -- unless it had it from the start. What the codec writes of the manifest it reads back.
  pub prepared_recovers :
      (id : TransactionId) (changes : List WikiChange) (created_at : ℕ) (original after : Files)
      (m : TransactionManifest) (fault : Option TransactionFaultPoint)
      → prepare codec id changes created_at original ≡ (after, ok m)
      → get (receipt_path codec id) original ≡ none
      → ReadsBack codec m
      → Serves codec m original
      → Done changes m original
          (recover_wiki_transaction codec id (roll_forward_with_fault codec m fault after).0)
  prepared_recovers id changes created_at original after m fault done fresh reads serves =
      let w : Written codec id changes original after m =
        subst (WritesTo codec id changes original) done
          (prepare-WritesTo codec id changes original created_at) in
      subst
        (λ name.
          Done changes m original
            (recover_wiki_transaction codec name (roll_forward_with_fault codec m fault after).0))
        w.named
        (recovery_completes changes original after m fault
          (subst (λ name. Written codec name changes original after m) (sym w.named) w)
          (subst (λ name. get (receipt_path codec name) original ≡ none) (sym w.named) fresh) reads
          serves)
