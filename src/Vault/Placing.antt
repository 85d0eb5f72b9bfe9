-- ===== src/Vault/Placing.antt =====
-- The paths of a transaction that is prepared do not meet (`PreparedWikiTransaction::prepare` of
-- crates/vault/src/transaction.rs).
use Prim.Native.String.{◌++◌}
use text.Mathlib.TextBridge.{IsPrefix}
use text.Mathlib.TextEquality.{starts_with_iff}
use text.Mathlib.TextLemmas.{append_assoc}
use wiki_coding.Prelude.{
  String, false, ◌≡◌, refl, sym, ap, ◌∙◌, ◌==◌, string_eq, nat_eq, ℕ_discrete, List,
}
use wiki_coding.Protocol.Vault.{TransactionId, TransactionManifest}
use wiki_coding.Vault.Files.{Files}
use wiki_coding.Vault.Transaction.{
  Codec, transaction_directory_name, manifest_path, staged_prefix, receipt_path,
}
use wiki_coding.Vault.Preparing.{WikiChange}
use wiki_coding.Vault.Recoverable.{apart_sym, Placed, Serves}
use wiki_coding.Vault.Paths.{
  comparable, apart, staged_not_manifest, target_apart, transactions-Foreign, receipts-Foreign,
}
use wiki_coding.Vault.Distinct.{validate_manifest-distinct}
use wiki_coding.Vault.Prepared.{Written}

abbrev transactions : String
transactions = ".minimax/transactions/"

module _ (codec : Codec) (id : TransactionId) where
  staged-IsPrefix : (s n : String) → s ≡ staged_prefix codec id ++ n → IsPrefix transactions s
  unfolding staged_prefix
  staged-IsPrefix s n named = (
    (transaction_directory_name codec id ++ "/staged/") ++ n,
    sym (append_assoc transactions (transaction_directory_name codec id ++ "/staged/") n)
        ∙ sym named,
  )

  manifest-IsPrefix : IsPrefix transactions (manifest_path codec id)
  unfolding manifest_path
  manifest-IsPrefix = (transaction_directory_name codec id ++ "/manifest.json", refl)

  receipt-IsPrefix : IsPrefix ".minimax/receipts/transaction-" (receipt_path codec id)
  unfolding receipt_path
  receipt-IsPrefix = (transaction_directory_name codec id ++ ".json", refl)

  staged-manifest :
      (s n : String) → s ≡ staged_prefix codec id ++ n → (s == manifest_path codec id) ≡ false
  unfolding staged_prefix manifest_path
  staged-manifest s n named =
      ap (λ p. p == manifest_path codec id) named
      ∙ staged_not_manifest transactions (transaction_directory_name codec id) n

  transactions_receipts : comparable transactions ".minimax/receipts/transaction-" ≡ false
  unfolding comparable ℕ_discrete
  transactions_receipts = refl

  receipt-manifest : (receipt_path codec id == manifest_path codec id) ≡ false
  receipt-manifest = apart_sym (manifest_path codec id) (receipt_path codec id) (
      apart (manifest_path codec id) (receipt_path codec id) transactions
        ".minimax/receipts/transaction-" manifest-IsPrefix receipt-IsPrefix transactions_receipts)

module _ (codec : Codec) where
  pub Written-Placed :
      (changes : List WikiChange) (original after : Files) (m : TransactionManifest)
      → Written codec m.transaction_id changes original after m
      → Serves codec m original
      → Placed codec m original
  Written-Placed changes original after m w serves =
      let id = m.transaction_id in
      record {
        serves = serves;
        valid = w.valid;
        prefixed = λ t at.
            let (allowed, (n, named)) = w.staging.formed t at in
            (starts_with_iff t.staged_relative_path (staged_prefix codec id)).1 (n, sym named);
        staged_apart = λ t u here at.
            let (allowed, more) = w.staging.formed t here in
            let (fine, (n, named)) = w.staging.formed u at in
            apart_sym t.relative_path u.staged_relative_path (
              target_apart t.relative_path u.staged_relative_path transactions allowed
                transactions-Foreign (staged-IsPrefix codec id u.staged_relative_path n named));
        distinct = validate_manifest-distinct m m w.valid;
        manifest_apart = λ t at.
            let (allowed, (n, named)) = w.staging.formed t at in
            (
              target_apart t.relative_path (manifest_path codec id) transactions allowed
                  transactions-Foreign (manifest-IsPrefix codec id),
              staged-manifest codec id t.staged_relative_path n named,
            );
        receipt_apart = λ t at.
            let (allowed, (n, named)) = w.staging.formed t at in
            (
              target_apart t.relative_path (receipt_path codec id) ".minimax/receipts/transaction-"
                  allowed receipts-Foreign (receipt-IsPrefix codec id),
              apart t.staged_relative_path (receipt_path codec id) transactions
                  ".minimax/receipts/transaction-"
                  (staged-IsPrefix codec id t.staged_relative_path n named)
                  (receipt-IsPrefix codec id) (transactions_receipts codec id),
            );
        records_apart = receipt-manifest codec id;
      }
