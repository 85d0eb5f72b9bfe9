-- ===== src/Vault/Recoverable.antt =====
-- A prepared transaction in the files, and what each write leaves of it
-- (crates/vault/src/transaction.rs).
use wiki_coding.Prelude.{
  refl, Option, String, true, false, ◌≡◌, sym, subst, ◌∙◌, ◌==◌, nat_eq, string_eq, none, some,
  starts_with, ok, get, insert, get-insert, inl, inr, ◌⊎◌, arith, Bool-cases,
}
use mathlib.Core.List.{Memᴰ}
use wiki_coding.Protocol.Vault.{
  ContentHash, TransactionManifest, TransactionTarget, TransactionState, preparing,
  validate_manifest, transaction_state_eq,
}
use wiki_coding.Vault.Files.{Bytes, Files}
use wiki_coding.Vault.Transaction.{
  hash_of, read_hash, Codec, manifest_path, staged_prefix, receipt_path, hash_of, read_hash,
  receipt_of, set_state,
}

pub get-other :
    (k j : String) (bytes : Bytes) (files : Files)
    → (j == k) ≡ false
    → get j (insert k bytes files) ≡ get j files
get-other k j bytes files apart = ground (arith, get-insert k j bytes files)

pub get-same :
    (k : String) (bytes : Bytes) (files : Files) → get k (insert k bytes files) ≡ some bytes
get-same k bytes files = ground (arith, get-insert k k bytes files)

pub apart_sym : (a b : String) → (a == b) ≡ false → (b == a) ≡ false
apart_sym a b apart = ground arith

pub same_path : (a b : String) → (a == b) ≡ true → a ≡ b
same_path a b same = ground arith

module _ (codec : Codec) where
  -- The hash of what a file holds, where it can be read.
  unfoldable pub found_hash : String → Files → Option ContentHash
  found_hash path files = hash_of codec (get path files)

  pub read_hash-found :
      (path : String) (files : Files)
      → codec.disk.read_fails path files ≡ false
      → read_hash codec path files ≡ ok (found_hash path files)
  unfolding read_hash found_hash
  read_hash-found path files works = rw works

  pub read_hash-ok :
      (path : String) (files : Files) (current : Option ContentHash)
      → read_hash codec path files ≡ ok current
      → current ≡ found_hash path files
  unfolding read_hash found_hash
  read_hash-ok path files current done = elim (Bool-cases (codec.disk.read_fails path files)) [
    | inl fails ↦ ground (arith, fails, done)
    | inr works ↦ ground (arith, works, done)
  ]

module _ (codec : Codec) (m : TransactionManifest) (original : Files) where
  -- The paths that the transaction reads and writes.
  pub data Own (q : String) : Type 0 where
    is_target : (t : TransactionTarget) → Memᴰ t m.targets → q ≡ t.relative_path → Own q
    is_staged : (t : TransactionTarget) → Memᴰ t m.targets → q ≡ t.staged_relative_path → Own q
    is_manifest : q ≡ manifest_path codec m.transaction_id → Own q
    is_receipt : q ≡ receipt_path codec m.transaction_id → Own q

  -- The files are the original ones but for those of the transaction.
  abbrev pub OthersKept : Files → Type 0
  OthersKept files = (q : String) → ¬ (Own q) → get q files ≡ get q original

  -- The disk reads and writes what the transaction asks for, as long as only the files of the
  -- transaction change.
  abbrev pub Serves : Type 0
  Serves =
      (q : String) (files : Files)
      → Own q
      → OthersKept files
      → (codec.disk.read_fails q files ≡ false) × (codec.disk.write_fails q files ≡ false)

  OthersKept-insert :
      (p : String) (bytes : Bytes) (files : Files)
      → Own p
      → OthersKept files
      → OthersKept (insert p bytes files)
  OthersKept-insert p bytes files own kept q foreign = elim (Bool-cases (q == p)) [
    | inl same ↦ elim (foreign (subst Own (sym (same_path q p same)) own)) [ ]
    | inr apart ↦ get-other p q bytes files apart ∙ kept q foreign
  ]

  -- The manifest passes its validation, and the paths of the transaction do not meet.
  pub record Placed : Type 0 where
    pub serves : Serves
    pub valid : validate_manifest m ≡ ok m
    pub prefixed :
        (t : TransactionTarget)
        → Memᴰ t m.targets
        → starts_with t.staged_relative_path (staged_prefix codec m.transaction_id) ≡ true
    pub staged_apart :
        (t u : TransactionTarget)
        → Memᴰ t m.targets
        → Memᴰ u m.targets
        → (u.staged_relative_path == t.relative_path) ≡ false
    pub distinct :
        (t u : TransactionTarget)
        → Memᴰ t m.targets
        → Memᴰ u m.targets
        → (u.relative_path == t.relative_path) ≡ true
        → u ≡ t
    pub manifest_apart :
        (t : TransactionTarget)
        → Memᴰ t m.targets
        → ((t.relative_path == manifest_path codec m.transaction_id) ≡ false)
          × ((t.staged_relative_path == manifest_path codec m.transaction_id) ≡ false)
    pub receipt_apart :
        (t : TransactionTarget)
        → Memᴰ t m.targets
        → ((t.relative_path == receipt_path codec m.transaction_id) ≡ false)
          × ((t.staged_relative_path == receipt_path codec m.transaction_id) ≡ false)
    pub records_apart :
        (receipt_path codec m.transaction_id == manifest_path codec m.transaction_id) ≡ false

  -- The staged files have the hashes that the targets ask for, each target is as it was or as it is to
  -- be, the manifest is there in some state from prepared on, a receipt, if any, is this one, and the
  -- other files are the original ones.
  pub record Recoverable (files : Files) : Type 0 where
    pub others : OthersKept files
    pub staged :
        (t : TransactionTarget)
        → Memᴰ t m.targets
        → (bytes : Bytes) × (get t.staged_relative_path files ≡ some bytes)
          × (codec.sha256_hex bytes ≡ t.expected_hash)
    pub reached :
        (t : TransactionTarget)
        → Memᴰ t m.targets
        → (found_hash codec t.relative_path files ≡ t.old_hash)
          ⊎ (found_hash codec t.relative_path files ≡ some t.expected_hash)
    pub on_disk :
        (state : TransactionState) × (get (manifest_path codec m.transaction_id) files
          ≡ some (codec.manifest_json (set_state m state)))
        × ((state == preparing) ≡ false)
    pub receipt :
        (get (receipt_path codec m.transaction_id) files ≡ none)
        ⊎ (get (receipt_path codec m.transaction_id) files
            ≡ some (codec.receipt_json (receipt_of m)))

  pub found_hash-other :
      (k j : String) (bytes : Bytes) (files : Files)
      → (j == k) ≡ false
      → found_hash codec j (insert k bytes files) ≡ found_hash codec j files
  unfolding found_hash
  found_hash-other k j bytes files apart = rw (get-other k j bytes files apart)

  pub manifest-Recoverable :
      (state : TransactionState) (files : Files)
      → (state == preparing) ≡ false
      → Placed
      → Recoverable files
      → Recoverable (
          insert
            (manifest_path codec m.transaction_id)
            (codec.manifest_json (set_state m state))
            files)
  manifest-Recoverable state files begun placed r =
      let path = manifest_path codec m.transaction_id in
      let bytes = codec.manifest_json (set_state m state) in
      record {
        others = OthersKept-insert path bytes files (is_manifest refl) r.others;
        staged = λ t at.
            let (found, same, hash) = r.staged t at in
            (
              found,
              get-other path t.staged_relative_path bytes files (placed.manifest_apart t at).1
                  ∙ same,
              hash,
            );
        reached = λ t at.
            subst (λ h. (h ≡ t.old_hash) ⊎ (h ≡ some t.expected_hash))
              (sym
                (found_hash-other path t.relative_path bytes files (placed.manifest_apart t at).0))
              (r.reached t at);
        on_disk = (state, get-same path bytes files, begun);
        receipt =
            subst (λ o. (o ≡ none) ⊎ (o ≡ some (codec.receipt_json (receipt_of m))))
              (sym (
                get-other path (receipt_path codec m.transaction_id) bytes files
                  placed.records_apart))
              r.receipt;
      }

  abbrev pub Settled : TransactionTarget → Files → Type 0
  Settled t files = found_hash codec t.relative_path files ≡ some t.expected_hash

  pub replaced-Settled :
      (t u : TransactionTarget) (bytes : Bytes) (files : Files)
      → u ≡ t
      → codec.sha256_hex bytes ≡ t.expected_hash
      → Settled u (insert t.relative_path bytes files)
  unfolding found_hash
  replaced-Settled t u bytes files same hash =
      subst (λ v. Settled v (insert t.relative_path bytes files)) (sym same)
        (rw (get-same t.relative_path bytes files, hash))

  -- A target that has its new content keeps it while another, or the same, is replaced.
  pub replace-Settled :
      (t u : TransactionTarget) (bytes : Bytes) (files : Files)
      → Memᴰ t m.targets
      → Memᴰ u m.targets
      → codec.sha256_hex bytes ≡ t.expected_hash
      → Placed
      → Settled u files
      → Settled u (insert t.relative_path bytes files)
  replace-Settled t u bytes files here at hash placed settled =
      elim (Bool-cases (u.relative_path == t.relative_path)) [
        | inl meets ↦ replaced-Settled t u bytes files (placed.distinct t u here at meets) hash
        | inr apart ↦ found_hash-other t.relative_path u.relative_path bytes files apart ∙ settled
      ]

  -- A target that is replaced by its staged file.
  pub replace-Recoverable :
      (t : TransactionTarget) (bytes : Bytes) (files : Files)
      → Memᴰ t m.targets
      → codec.sha256_hex bytes ≡ t.expected_hash
      → Placed
      → Recoverable files
      → Recoverable (insert t.relative_path bytes files)
  replace-Recoverable t bytes files here hash placed r =
      let path = t.relative_path in
      record {
        others = OthersKept-insert path bytes files (is_target t here refl) r.others;
        staged = λ u at.
            let (found, same, h) = r.staged u at in
            (
              found,
              get-other path u.staged_relative_path bytes files (placed.staged_apart t u here at)
                  ∙ same,
              h,
            );
        reached = λ u at. elim (Bool-cases (u.relative_path == path)) [
          | inl meets ↦
              inr (replaced-Settled t u bytes files (placed.distinct t u here at meets) hash)
          | inr apart ↦
              subst (λ h. (h ≡ u.old_hash) ⊎ (h ≡ some u.expected_hash))
                (sym (found_hash-other path u.relative_path bytes files apart)) (r.reached u at)
        ];
        on_disk =
            let (state, same, begun) = r.on_disk in
            (
              state,
              get-other path (manifest_path codec m.transaction_id) bytes files (
                    apart_sym t.relative_path (manifest_path codec m.transaction_id)
                      (placed.manifest_apart t here).0)
                  ∙ same,
              begun,
            );
        receipt =
            subst (λ o. (o ≡ none) ⊎ (o ≡ some (codec.receipt_json (receipt_of m))))
              (sym (
                get-other path (receipt_path codec m.transaction_id) bytes files (
                  apart_sym t.relative_path (receipt_path codec m.transaction_id)
                    (placed.receipt_apart t here).0)))
              r.receipt;
      }

  pub receipt-Recoverable :
      (files : Files)
      → Placed
      → Recoverable files
      → Recoverable
          (insert (receipt_path codec m.transaction_id) (codec.receipt_json (receipt_of m)) files)
  receipt-Recoverable files placed r =
      let path = receipt_path codec m.transaction_id in
      let bytes = codec.receipt_json (receipt_of m) in
      record {
        others = OthersKept-insert path bytes files (is_receipt refl) r.others;
        staged = λ t at.
            let (found, same, hash) = r.staged t at in
            (
              found,
              get-other path t.staged_relative_path bytes files (placed.receipt_apart t at).1
                  ∙ same,
              hash,
            );
        reached = λ t at.
            subst (λ h. (h ≡ t.old_hash) ⊎ (h ≡ some t.expected_hash))
              (sym
                (found_hash-other path t.relative_path bytes files (placed.receipt_apart t at).0))
              (r.reached t at);
        on_disk =
            let (state, same, begun) = r.on_disk in
            (
              state,
              get-other path (manifest_path codec m.transaction_id) bytes files
                    (apart_sym path (manifest_path codec m.transaction_id) placed.records_apart)
                  ∙ same,
              begun,
            );
        receipt = inr (get-same path bytes files);
      }
