-- ===== src/Vault/Staging.antt =====
-- What the preparation of a transaction leaves in the files (`PreparedWikiTransaction::prepare` of
-- crates/vault/src/transaction.rs).
use Prim.Native.String.{◌++◌}
use wiki_coding.Prelude.{
  ℕ, suc, String, true, false, ◌≡◌, refl, sym, subst, ap, ◌∙◌, ◌==◌, ◌-◌, ◌^◌, ltb, nat_eq,
  string_eq, none, some, List, [], ◌∷◌, ok, err, get, insert, get-insert, inl, inr, arith,
  Bool-cases, Option-cases, Result-cases,
}
use mathlib.Core.List.{Memᴰ}
use wiki_coding.Protocol.Vault.{ContentHash, TransactionId, TransactionTarget}
use wiki_coding.Vault.Files.{
  Bytes, Files, Disk, VaultError, recovery_required, atomic_create_or_same, same_bytes,
}
use wiki_coding.Vault.Transaction.{Codec}
use wiki_coding.Vault.Transaction.{staged_prefix}
use wiki_coding.Vault.Preparing.{
  WikiChange, staged_path, four_digits, validate_target_path, target_of, Staged, add_target,
  stage_targets,
}
use wiki_coding.Vault.Effective.{Sound, AllSound}
use wiki_coding.Vault.Recoverable.{found_hash, get-other, get-same}

same_bytes-true : (a b : Bytes) → same_bytes a b ≡ true → a ≡ b
unfolding same_bytes
same_bytes-true [] [] same = refl
same_bytes-true [] (b ∷ bs) same = cc
same_bytes-true (a ∷ more) [] same = cc
same_bytes-true (a ∷ more) (b ∷ bs) same = ground (arith, same_bytes-true more bs)

-- A file that is there with the bytes, where the others are as before.
pub record Created (path : String) (bytes : Bytes) (before after : Files) : Type 0 where
  pub there : get path after ≡ some bytes
  pub other : (q : String) → (q == path) ≡ false → get q after ≡ get q before
  pub kept : (q : String) (found : Bytes) → get q before ≡ some found → get q after ≡ some found

module _ (disk : Disk) (path : String) (bytes : Bytes) (before : Files) where
  create-missing :
      (after : Files)
      → get path before ≡ none
      → atomic_create_or_same disk path bytes before ≡ ok after
      → insert path bytes before ≡ after
  unfolding atomic_create_or_same
  create-missing after missing done = ground (arith, missing, done)

  create-present :
      (after : Files) (old : Bytes)
      → get path before ≡ some old
      → atomic_create_or_same disk path bytes before ≡ ok after
      → (before ≡ after) × (same_bytes old bytes ≡ true)
  unfolding atomic_create_or_same
  create-present after old present done =
      (ground (arith, present, done), ground (arith, present, done))

  inserted-Created : get path before ≡ none → Created path bytes before (insert path bytes before)
  inserted-Created missing = record {
    there = get-same path bytes before;
    other = λ q apart. get-other path q bytes before apart;
    kept = λ q found at. ground (arith, get-insert path q bytes before, at, missing);
  }

  pub create-Created :
      (after : Files)
      → atomic_create_or_same disk path bytes before ≡ ok after
      → Created path bytes before after
  create-Created after done = elim (Option-cases (get path before)) [
    | inl missing ↦
        subst (Created path bytes before) (create-missing after missing done)
          (inserted-Created missing)
    | inr (old, present) ↦
        let (same, equal) = create-present after old present done in
        subst (Created path bytes before) same (record {
          there = present ∙ ap some (same_bytes-true old bytes equal);
          other = λ q apart. refl;
          kept = λ q found at. at;
        })
  ]

module _ (codec : Codec) where
  -- A target for an entry.
  abbrev pub Targeted : WikiChange × ContentHash → List TransactionTarget → Type 0
  Targeted (change, hash) targets =
      (t : TransactionTarget) × Memᴰ t targets
      × (t.relative_path ≡ change.relative_path)
      × (t.expected_hash ≡ hash)

  -- A target has a path that a change may have, and a staged file of its transaction.
  abbrev pub Formed : TransactionId → TransactionTarget → Type 0
  Formed id t =
      (validate_target_path t.relative_path ≡ ok tt)
      × ((n : String) × (t.staged_relative_path ≡ staged_prefix codec id ++ n))

  -- The files after the staging: what was there stays, the rest is as it was but for the staged files,
  -- and each target has its staged file and stood as the change said.
  pub record StagedAll (id : TransactionId) (original before after : Files)
      (entries : List (WikiChange × ContentHash)) (targets : List TransactionTarget) : Type 0 where
    pub covers : (e : WikiChange × ContentHash) → Memᴰ e entries → Targeted e targets
    pub kept : (q : String) (found : Bytes) → get q before ≡ some found → get q after ≡ some found
    pub other :
        (q : String)
        → ((t : TransactionTarget) → Memᴰ t targets → (q == t.staged_relative_path) ≡ false)
        → get q after ≡ get q before
    pub each :
        (t : TransactionTarget)
        → Memᴰ t targets
        → ((bytes : Bytes) × (get t.staged_relative_path after ≡ some bytes)
            × (codec.sha256_hex bytes ≡ t.expected_hash))
          × (found_hash codec t.relative_path original ≡ t.old_hash)
    pub formed : (t : TransactionTarget) → Memᴰ t targets → Formed id t

  abbrev pub StagesTo :
      TransactionId → Files → Files → List (WikiChange × ContentHash) → Staged codec → Type 0
  StagesTo id original before entries (after, ok targets) =
      StagedAll id original before after entries targets
  StagesTo id original before entries (after, err e) = Unit

  next_StagesTo :
      (original before after : Files) (id : TransactionId) (index : ℕ) (change : WikiChange)
      (hash : ContentHash) (entries : List (WikiChange × ContentHash)) (outcome : Staged codec)
      → Sound codec original (change, hash)
      → Created (staged_path codec id index) change.bytes before after
      → StagesTo id original after entries outcome
      → StagesTo id original before
          ((change, hash) ∷ entries)
          (add_target codec (target_of codec id index change hash) outcome)
  unfolding target_of staged_path
  next_StagesTo original before after id index change hash entries (last, err e) sound created
        rest =
      tt
  next_StagesTo original before after id index change hash entries (last, ok targets) sound created
        rest =
      record {
        covers = λ e at. elim at [
          | Memᴰ.head same ↦
              subst (λ e. Targeted e (target_of codec id index change hash ∷ targets)) (sym same)
                (target_of codec id index change hash, Memᴰ.head refl, refl, refl)
          | Memᴰ.tail later ↦
              let (t, there, path, expected) = rest.covers e later in
              (t, Memᴰ.tail there, path, expected)
        ];
        kept = λ q found at. rest.kept q found (created.kept q found at);
        other = λ q apart.
            rest.other q (λ t at. apart t (Memᴰ.tail at))
            ∙ created.other q (apart _ (Memᴰ.head refl));
        each = λ t at. elim at [
          | Memᴰ.head same ↦
              subst
                (λ t.
                  ((bytes : Bytes) × (get t.staged_relative_path last ≡ some bytes)
                    × (codec.sha256_hex bytes ≡ t.expected_hash))
                  × (found_hash codec t.relative_path original ≡ t.old_hash))
                (sym same)
                ((change.bytes, rest.kept _ change.bytes created.there, sound.0), sound.1)
          | Memᴰ.tail later ↦ rest.each t later
        ];
        formed = λ t at. elim at [
          | Memᴰ.head same ↦
              subst (Formed id) (sym same) (sound.2, (four_digits index ++ ".data", refl))
          | Memᴰ.tail later ↦ rest.formed t later
        ];
      }

  module _ (before : Files) (id : TransactionId) (index : ℕ) (change : WikiChange)
      (hash : ContentHash) (entries : List (WikiChange × ContentHash)) where
    stage-refused :
        (e : VaultError)
        → atomic_create_or_same codec.disk (staged_path codec id index) change.bytes before ≡ err e
        → stage_targets codec id index ((change, hash) ∷ entries) before ≡ (before, err e)
    unfolding stage_targets
    stage-refused e refused = ground (arith, refused)

    stage-over :
        (after : Files)
        → atomic_create_or_same codec.disk (staged_path codec id index) change.bytes before
          ≡ ok after
        → ltb (2 ^ 32 - 1) index ≡ true
        → stage_targets codec id index ((change, hash) ∷ entries) before
          ≡ (after, err recovery_required)
    unfolding stage_targets
    stage-over after done over = ground (arith, done, over)

    stage-fits :
        (after : Files)
        → atomic_create_or_same codec.disk (staged_path codec id index) change.bytes before
          ≡ ok after
        → ltb (2 ^ 32 - 1) index ≡ false
        → stage_targets codec id index ((change, hash) ∷ entries) before
          ≡ add_target codec
              (target_of codec id index change hash)
              (stage_targets codec id (suc index) entries after)
    unfolding stage_targets
    stage-fits after done fits = ground (arith, done, fits)

  pub stage_targets_lem :
      (original before : Files) (id : TransactionId) (index : ℕ)
      (entries : List (WikiChange × ContentHash))
      → AllSound codec original entries
      → StagesTo id original before entries (stage_targets codec id index entries before)
  unfolding stage_targets
  stage_targets_lem original before id index [] sound = record {
    covers = λ e at. elim at [ ];
    kept = λ q found at. at;
    other = λ q apart. refl;
    each = λ t at. elim at [ ];
    formed = λ t at. elim at [ ];
  }
  stage_targets_lem original before id index ((change, hash) ∷ entries) sound =
      let path = staged_path codec id index in
      elim (Result-cases (atomic_create_or_same codec.disk path change.bytes before)) [
        | inl (after, done) ↦ elim (Bool-cases (ltb (2 ^ 32 - 1) index)) [
          | inl over ↦
              subst (StagesTo id original before ((change, hash) ∷ entries))
                (sym (stage-over before id index change hash entries after done over)) tt
          | inr fits ↦
              subst (StagesTo id original before ((change, hash) ∷ entries))
                (sym (stage-fits before id index change hash entries after done fits))
                (next_StagesTo original before after id index change hash entries
                  (stage_targets codec id (suc index) entries after)
                  (sound (change, hash) (Memᴰ.head refl))
                  (create-Created codec.disk path change.bytes before after done)
                  (stage_targets_lem original after id (suc index) entries
                    (λ e at. sound e (Memᴰ.tail at))))
        ]
        | inr (e, refused) ↦
            subst (StagesTo id original before ((change, hash) ∷ entries))
              (sym (stage-refused before id index change hash entries e refused)) tt
      ]
