-- ===== src/Vault/Applying.antt =====
-- The loop over the targets (`roll_forward_with_fault` of crates/vault/src/transaction.rs) in files that
-- can be recovered.
use wiki_coding.Prelude.{
  ℕ, suc, true, false, ◌≡◌, refl, sym, subst, nat_eq, string_eq, Option, none, some, List, [], ◌∷◌,
  Result, ok, err, get, insert, inl, inr, arith, Bool-cases,
}
use mathlib.Core.List.{Memᴰ}
use wiki_coding.Protocol.Vault.{ContentHash, TransactionManifest, TransactionTarget}
use wiki_coding.Vault.Files.{Bytes, Files, VaultError, fault_injected, atomic_replace}
use wiki_coding.Vault.Transaction.{
  Codec, TransactionFaultPoint, after_target, is_fault, same_hash, apply_target, apply_targets,
}
use wiki_coding.Vault.Recoverable.{
  read_hash-found, is_target, is_staged, found_hash, Placed, Recoverable, Settled,
  replace-Recoverable, replace-Settled, replaced-Settled,
}

module _ (codec : Codec) where
  pub same_hash-true :
      (o : Option ContentHash) (h : ContentHash) → same_hash o (some h) ≡ true → o ≡ some h
  same_hash-true none h same = cc
  same_hash-true (some a) h same = ground arith

  module _ (t : TransactionTarget) where
    apply_target-settled :
        (files : Files)
        → codec.disk.read_fails t.relative_path files ≡ false
        → same_hash (found_hash codec t.relative_path files) (some t.expected_hash) ≡ true
        → apply_target codec t files ≡ ok files
    unfolding apply_target
    apply_target-settled files reads same =
        rw (read_hash-found codec t.relative_path files reads, same)

    apply_target-replaces :
        (bytes : Bytes) (files : Files)
        → codec.disk.read_fails t.relative_path files ≡ false
        → codec.disk.write_fails t.relative_path files ≡ false
        → codec.disk.read_fails t.staged_relative_path files ≡ false
        → same_hash (found_hash codec t.relative_path files) (some t.expected_hash) ≡ false
        → get t.staged_relative_path files ≡ some bytes
        → apply_target codec t files ≡ ok (insert t.relative_path bytes files)
    unfolding apply_target atomic_replace
    apply_target-replaces bytes files reads writes staged_reads other found =
        rw (read_hash-found codec t.relative_path files reads, other, staged_reads, found, writes)

  module _ (m : TransactionManifest) (original : Files) where
    -- The files after one target: still to be recovered, this one settled, the settled ones kept.
    pub record Applied (t : TransactionTarget) (before after : Files) : Type 0 where
      pub recoverable : Recoverable codec m original after
      pub settled : Settled codec m original t after
      pub kept :
          (u : TransactionTarget)
          → Memᴰ u m.targets
          → Settled codec m original u before
          → Settled codec m original u after

    pub apply_target_lem :
        (t : TransactionTarget) (files : Files)
        → Memᴰ t m.targets
        → Placed codec m original
        → Recoverable codec m original files
        → (after : Files) × (apply_target codec t files ≡ ok after) × Applied t files after
    apply_target_lem t files here placed r =
        let (reads, writes) =
          placed.serves t.relative_path files (is_target t here refl) r.others in
        let (bytes, found, hash) = r.staged t here in
        let staged_reads =
          (placed.serves t.staged_relative_path files (is_staged t here refl) r.others).0 in
        elim (Bool-cases
          (same_hash (found_hash codec t.relative_path files) (some t.expected_hash))) [
            | inl same ↦ (
              files,
              apply_target-settled t files reads same,
              record {
                recoverable = r;
                settled =
                    same_hash-true (found_hash codec t.relative_path files) t.expected_hash same;
                kept = λ u at settled. settled;
              },
            )
            | inr other ↦ (
              insert t.relative_path bytes files,
              apply_target-replaces t bytes files reads writes staged_reads other found,
              record {
                recoverable = replace-Recoverable codec m original t bytes files here hash placed r;
                settled = replaced-Settled codec m original t t bytes files refl hash;
                kept = λ u at settled.
                    replace-Settled codec m original t u bytes files here at hash placed settled;
              },
            )
          ]

    -- Every target of a list.
    abbrev pub AllSettled : List TransactionTarget → Files → Type 0
    AllSettled targets files =
        (t : TransactionTarget) → Memᴰ t targets → Settled codec m original t files

    abbrev pub Within : List TransactionTarget → Type 0
    Within targets = (t : TransactionTarget) → Memᴰ t targets → Memᴰ t m.targets

    -- What a stop asks for: it is the injected fault, and there was one.
    abbrev pub Ended {ℓ} :
        {A : Type ℓ} → (A → Type 0) → Option TransactionFaultPoint → Result VaultError A → Type 0
    Ended P fault (ok value) = P value
    Ended P fault (err e) = (e ≡ fault_injected) × ¬ (fault ≡ none)

    pub record Looped (fault : Option TransactionFaultPoint) (targets : List TransactionTarget)
        (before : Files) (outcome : Files × Result VaultError (Unit {0})) : Type 0 where
      pub recoverable : Recoverable codec m original outcome.0
      pub kept :
          (u : TransactionTarget)
          → Memᴰ u m.targets
          → Settled codec m original u before
          → Settled codec m original u outcome.0
      pub ended : Ended (λ u. AllSettled targets outcome.0) fault outcome.1

    pub is_fault-some :
        (fault : Option TransactionFaultPoint) (point : TransactionFaultPoint)
        → is_fault fault point ≡ true
        → ¬ (fault ≡ none)
    is_fault-some none point hit = cc
    is_fault-some (some f) point hit = cc

    next_Looped :
        (fault : Option TransactionFaultPoint) (t : TransactionTarget)
        (targets : List TransactionTarget) (before after : Files)
        (outcome : Files × Result VaultError (Unit {0}))
        → Memᴰ t m.targets
        → Applied t before after
        → Looped fault targets after outcome
        → Looped fault (t ∷ targets) before outcome
    next_Looped fault t targets before after (last, ok u) here applied looped = record {
      recoverable = looped.recoverable;
      kept = λ u at settled. looped.kept u at (applied.kept u at settled);
      ended = λ u at. elim at [
        | Memᴰ.head same ↦
            subst (λ v. Settled codec m original v last) (sym same)
              (looped.kept t here applied.settled)
        | Memᴰ.tail later ↦ looped.ended u later
      ];
    }
    next_Looped fault t targets before after (last, err e) here applied looped = record {
      recoverable = looped.recoverable;
      kept = λ u at settled. looped.kept u at (applied.kept u at settled);
      ended = looped.ended;
    }

    module _ (index : ℕ) (fault : Option TransactionFaultPoint) (t : TransactionTarget)
        (targets : List TransactionTarget) (files after : Files)
        (done : apply_target codec t files ≡ ok after) where
      apply_targets-stops :
          is_fault fault (after_target index) ≡ true
          → apply_targets codec index fault (t ∷ targets) files ≡ (after, err fault_injected)
      unfolding apply_targets
      apply_targets-stops hit = ground (arith, done, hit)

      apply_targets-goes_on :
          is_fault fault (after_target index) ≡ false
          → apply_targets codec index fault (t ∷ targets) files
            ≡ apply_targets codec (suc index) fault targets after
      unfolding apply_targets
      apply_targets-goes_on missed = ground (arith, done, missed)

    pub apply_targets_lem :
        (index : ℕ) (fault : Option TransactionFaultPoint) (targets : List TransactionTarget)
        (files : Files)
        → Within targets
        → Placed codec m original
        → Recoverable codec m original files
        → Looped fault targets files (apply_targets codec index fault targets files)
    unfolding apply_targets
    apply_targets_lem index fault [] files within placed r = record {
      recoverable = r;
      kept = λ u at settled. settled;
      ended = λ u at. elim at [ ];
    }
    apply_targets_lem index fault (t ∷ targets) files within placed r =
        let here = within t (Memᴰ.head refl) in
        let (after, done, applied) = apply_target_lem t files here placed r in
        elim (Bool-cases (is_fault fault (after_target index))) [
          | inl hit ↦
              subst (Looped fault (t ∷ targets) files)
                (sym (apply_targets-stops index fault t targets files after done hit))
                (record {
                  recoverable = applied.recoverable;
                  kept = applied.kept;
                  ended = (refl, is_fault-some fault (after_target index) hit);
                })
          | inr missed ↦
              subst (Looped fault (t ∷ targets) files)
                (sym (apply_targets-goes_on index fault t targets files after done missed))
                (next_Looped fault t targets files after
                  (apply_targets codec (suc index) fault targets after) here applied
                  (apply_targets_lem (suc index) fault targets after
                    (λ u at. within u (Memᴰ.tail at)) placed applied.recoverable))
        ]
