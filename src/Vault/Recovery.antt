-- ===== src/Vault/Recovery.antt =====
-- A roll forward that stops anywhere can be recovered (`roll_forward_with_fault`,
-- `recover_wiki_transaction` of crates/vault/src/transaction.rs).
use wiki_coding.Prelude.{
  true, false, ◌≡◌, refl, sym, subst, ap, ◌∙◌, ◌==◌, nat_eq, string_eq, Option, none, some, [], ◌∷◌,
  Result, ok, err, get, insert, if◌then◌else◌, inl, inr, arith, Bool-cases, if-keeps,
}
use wiki_coding.Protocol.Vault.{
  TransactionManifest, TransactionState, preparing, applying, committed, transaction_state_eq,
  TransactionState-discrete,
}
use wiki_coding.Vault.Files.{
  Bytes, Files, VaultError, fault_injected, atomic_create_or_same, atomic_replace, same_bytes,
}
use wiki_coding.Vault.Transaction.{
  Codec, load_manifest, TransactionFaultPoint, after_prepared, after_applying_state, before_receipt,
  is_fault, Rolled, receipt_of, set_state, manifest_path, receipt_path, write_manifest,
  write_receipt, apply_targets, start_applying, finish_roll, roll_valid, roll_forward_with_fault,
  recover_wiki_transaction,
}
use wiki_coding.Vault.Recoverable.{
  is_receipt, is_manifest, Placed, Recoverable, manifest-Recoverable, receipt-Recoverable,
  found_hash-other,
}
use wiki_coding.Vault.Applying.{AllSettled, Ended, Looped, is_fault-some, apply_targets_lem}
use wiki_coding.Vault.Checking.{ReadsBack, load_manifest-some, same_text, validate_prepared-ok}

module _ (codec : Codec) (m : TransactionManifest) (original : Files) where
  -- The files can be recovered; an end without a fault has the receipt and every target.
  pub record RolledTo (fault : Option TransactionFaultPoint) (outcome : Rolled) : Type 0 where
    pub recoverable : Recoverable codec m original outcome.0
    pub ended :
        Ended codec m original
          (λ receipt. (receipt ≡ receipt_of m) × AllSettled codec m original m.targets outcome.0)
          fault
          outcome.1

  same_bytes-same : (bytes : Bytes) → same_bytes bytes bytes ≡ true
  unfolding same_bytes
  same_bytes-same [] = refl
  same_bytes-same (b ∷ bs) = ground (arith, same_bytes-same bs)

  -- The files with the manifest in a state.
  abbrev manifest_in : TransactionState → Files → Files
  manifest_in state files =
      insert (manifest_path codec m.transaction_id) (codec.manifest_json (set_state m state)) files

  module _ (state : TransactionState) (files : Files) where
    write_manifest-works :
        codec.disk.write_fails (manifest_path codec m.transaction_id) files ≡ false
        → write_manifest codec (set_state m state) files ≡ ok (manifest_in state files)
    unfolding write_manifest atomic_replace
    write_manifest-works works = rw works

    write_receipt-missing :
        codec.disk.write_fails (receipt_path codec m.transaction_id) files ≡ false
        → get (receipt_path codec m.transaction_id) files ≡ none
        → write_receipt codec (set_state m state) files ≡ (
          insert (receipt_path codec m.transaction_id) (codec.receipt_json (receipt_of m)) files,
          ok (receipt_of m),
        )
    unfolding write_receipt atomic_create_or_same
    write_receipt-missing works missing = ground (arith, works, missing)

    write_receipt-present :
        codec.disk.read_fails (receipt_path codec m.transaction_id) files ≡ false
        → get (receipt_path codec m.transaction_id) files ≡ some (codec.receipt_json (receipt_of m))
        → write_receipt codec (set_state m state) files ≡ (files, ok (receipt_of m))
    unfolding write_receipt atomic_create_or_same
    write_receipt-present works present =
        ground (arith, works, present, same_bytes-same (codec.receipt_json (receipt_of m)))

  stopped-RolledTo :
      (fault : Option TransactionFaultPoint) (point : TransactionFaultPoint) (files : Files)
      → is_fault fault point ≡ true
      → Recoverable codec m original files
      → RolledTo fault (files, err fault_injected)
  stopped-RolledTo fault point files hit r = record {
    recoverable = r;
    ended = (refl, is_fault-some codec m original fault point hit);
  }

  module _ (placed : Placed codec m original) (fault : Option TransactionFaultPoint) where
    receipt_works :
        (files : Files)
        → Recoverable codec m original files
        → (codec.disk.read_fails (receipt_path codec m.transaction_id) files ≡ false)
          × (codec.disk.write_fails (receipt_path codec m.transaction_id) files ≡ false)
    receipt_works files r =
        placed.serves (receipt_path codec m.transaction_id) files (is_receipt refl) r.others

    manifest_works :
        (files : Files)
        → Recoverable codec m original files
        → (codec.disk.read_fails (manifest_path codec m.transaction_id) files ≡ false)
          × (codec.disk.write_fails (manifest_path codec m.transaction_id) files ≡ false)
    manifest_works files r =
        placed.serves (manifest_path codec m.transaction_id) files (is_manifest refl) r.others

    write_receipt_lem :
        (state : TransactionState) (files : Files)
        → Recoverable codec m original files
        → AllSettled codec m original m.targets files
        → RolledTo fault (write_receipt codec (set_state m state) files)
    write_receipt_lem state files r settled = elim r.receipt [
      | inl missing ↦
          subst (RolledTo fault)
            (sym (write_receipt-missing state files (receipt_works files r).1 missing))
            (record {
              recoverable = receipt-Recoverable codec m original files placed r;
              ended = (
                refl,
                λ t at.
                    found_hash-other codec m original (receipt_path codec m.transaction_id)
                      t.relative_path (codec.receipt_json (receipt_of m)) files
                      (placed.receipt_apart t at).0
                    ∙ settled t at,
              );
            })
      | inr present ↦
          subst (RolledTo fault)
            (sym (write_receipt-present state files (receipt_works files r).0 present))
            (record { recoverable = r; ended = (refl, settled) })
    ]

    manifest-AllSettled :
        (state : TransactionState) (files : Files)
        → AllSettled codec m original m.targets files
        → AllSettled codec m original m.targets (manifest_in state files)
    manifest-AllSettled state files settled t at =
        found_hash-other codec m original (manifest_path codec m.transaction_id) t.relative_path
          (codec.manifest_json (set_state m state)) files (placed.manifest_apart t at).0
        ∙ settled t at

    finish_roll_lem :
        (state : TransactionState) (before : Files) (outcome : Files × Result VaultError (Unit {0}))
        → Looped codec m original fault m.targets before outcome
        → RolledTo fault (finish_roll codec (set_state m state) fault outcome)
    unfolding finish_roll TransactionState-discrete
    finish_roll_lem state before (files, err e) looped = record {
      recoverable = looped.recoverable;
      ended = looped.ended;
    }
    finish_roll_lem state before (files, ok u) looped =
        let after = manifest_in committed files in
        let r =
          manifest-Recoverable codec m original committed files refl placed looped.recoverable in
        subst
          (λ w. RolledTo fault (elim w [
            | err e ↦ (files, err e)
            | ok after ↦
                if is_fault fault before_receipt
                then (after, err fault_injected)
                else write_receipt codec (set_state m committed) after
          ]))
          (sym (write_manifest-works committed files (manifest_works files looped.recoverable).1))
          (if-keeps (RolledTo fault) (is_fault fault before_receipt)
            (λ hit. stopped-RolledTo fault before_receipt after hit r)
            (λ missed.
              write_receipt_lem committed after r
                (manifest-AllSettled committed files looped.ended)))

    roll_started :
        (state started : TransactionState) (files after : Files)
        → start_applying codec (set_state m state) files ≡ ok (set_state m started, after)
        → Recoverable codec m original after
        → RolledTo fault (roll_valid codec (set_state m state) fault files)
    unfolding roll_valid
    roll_started state started files after start r =
        subst
          (λ r. RolledTo fault (elim r [
            | err e ↦ (files, err e)
            | ok (begun, after) ↦
                if is_fault fault after_applying_state
                then (after, err fault_injected)
                else finish_roll codec begun fault (apply_targets codec 0 fault begun.targets after)
          ]))
          (sym start)
          (if-keeps (RolledTo fault) (is_fault fault after_applying_state)
            (λ hit. stopped-RolledTo fault after_applying_state after hit r)
            (λ missed.
              finish_roll_lem started after (apply_targets codec 0 fault m.targets after)
                (apply_targets_lem codec m original 0 fault m.targets after (λ t at. at) placed r)))

    roll_valid_lem :
        (state : TransactionState) (files : Files)
        → Recoverable codec m original files
        → RolledTo fault (roll_valid codec (set_state m state) fault files)
    unfolding start_applying TransactionState-discrete
    roll_valid_lem state files r = elim (Bool-cases (state == committed)) [
      | inl last ↦ roll_started state state files files (rw last) r
      | inr early ↦
          roll_started state applying files (manifest_in applying files)
            (rw (early, write_manifest-works applying files (manifest_works files r).1))
            (manifest-Recoverable codec m original applying files refl placed r)
    ]

    pub roll_forward_lem :
        (state : TransactionState) (files : Files)
        → ReadsBack codec m
        → Recoverable codec m original files
        → get (manifest_path codec m.transaction_id) files
          ≡ some (codec.manifest_json (set_state m state))
        → RolledTo fault (roll_forward_with_fault codec (set_state m state) fault files)
    unfolding roll_forward_with_fault
    roll_forward_lem state files reads r written =
        if-keeps (RolledTo fault) (is_fault fault after_prepared)
          (λ hit. stopped-RolledTo fault after_prepared files hit r)
          (λ missed.
            subst
              (λ v. RolledTo fault (elim v [
                | err e ↦ (files, err e)
                | ok _ ↦ roll_valid codec (set_state m state) fault files
              ]))
              (sym (validate_prepared-ok codec m original files placed r state reads written))
              (roll_valid_lem state files r))

  recover_early :
      (state : TransactionState) (files : Files)
      → load_manifest codec m.transaction_id files ≡ ok (set_state m state)
      → (state == preparing) ≡ false
      → recover_wiki_transaction codec m.transaction_id files
        ≡ roll_forward_with_fault codec (set_state m state) none files
  unfolding recover_wiki_transaction
  recover_early state files loaded begun = ground (arith, loaded, same_text m.transaction_id, begun)

  -- With no fault the roll forward succeeds.
  RolledTo-none :
      (outcome : Rolled)
      → RolledTo none outcome
      → (outcome.1 ≡ ok (receipt_of m)) × AllSettled codec m original m.targets outcome.0
  RolledTo-none (files, ok receipt) rolled = (ap ok rolled.ended.0, rolled.ended.1)
  RolledTo-none (files, err e) rolled = elim (rolled.ended.1 refl) [ ]

  recover_lem :
      (files : Files)
      → ReadsBack codec m
      → Placed codec m original
      → Recoverable codec m original files
      → RolledTo none (recover_wiki_transaction codec m.transaction_id files)
  recover_lem files reads placed r =
      let (state, written, begun) = r.on_disk in
      subst (RolledTo none)
        (sym (
          recover_early state files
            (load_manifest-some codec m state files reads placed.valid
              (manifest_works placed none files r).0 written)
            begun))
        (roll_forward_lem placed none state files reads r written)

  -- Wherever the roll forward of a prepared transaction stops, in files that hold it, recovery answers
  -- the receipt of the transaction, and each target then has the expected hash. The paths of the
  -- transaction do not meet, the disk serves them, and what the codec writes of the manifest it reads back.
  pub crash_recovers :
      (fault : Option TransactionFaultPoint) (state : TransactionState) (files : Files)
      → ReadsBack codec m
      → Placed codec m original
      → Recoverable codec m original files
      → get (manifest_path codec m.transaction_id) files
        ≡ some (codec.manifest_json (set_state m state))
      → let crashed = (roll_forward_with_fault codec (set_state m state) fault files).0 in
        let recovered = recover_wiki_transaction codec m.transaction_id crashed in
        (recovered.1 ≡ ok (receipt_of m)) × AllSettled codec m original m.targets recovered.0
  crash_recovers fault state files reads placed r written =
      let crashed = (roll_forward_with_fault codec (set_state m state) fault files).0 in
      RolledTo-none (recover_wiki_transaction codec m.transaction_id crashed) (
        recover_lem crashed reads placed
          (roll_forward_lem placed fault state files reads r written).recoverable)
