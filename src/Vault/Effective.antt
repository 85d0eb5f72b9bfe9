-- ===== src/Vault/Effective.antt =====
-- The changes that change something (`PreparedWikiTransaction::prepare` of
-- crates/vault/src/transaction.rs, its sorting and its first loop).
use wiki_coding.Prelude.{
  ◌>>=◌, ◌>>◌, Bool, true, false, not, ◌≡◌, refl, sym, subst, nat_eq, string_eq, Option, none, some,
  List, [], ◌∷◌, Result, ok, refuse_if, refuse_if-passes, >>-passes, >>=-succeeds, insert,
  if◌then◌else◌, if-keeps, inl, inr, ◌⊎◌, arith, StringSet, contains_key,
}
use mathlib.Core.List.{Memᴰ}
use wiki_coding.Protocol.Vault.{ContentHash}
use wiki_coding.Vault.Recoverable.{read_hash-ok, found_hash}
use wiki_coding.Vault.Files.{Files, VaultError, conflict}
use wiki_coding.Vault.Transaction.{read_hash, Codec, same_hash}
use wiki_coding.Vault.Preparing.{
  WikiChange, validate_target_path, effective_changes, may_precede, place, sort_changes,
}

pub ok-same {ℓ} : {A : Type ℓ} (r : Result VaultError A) {a b : A} → r ≡ ok a → r ≡ ok b → a ≡ b
ok-same r one two = cc

not-false : (b : Bool) → not b ≡ false → b ≡ true
not-false true done = refl
not-false false done = cc

same_hash-equal : (o p : Option ContentHash) → same_hash o p ≡ true → o ≡ p
same_hash-equal none none same = refl
same_hash-equal none (some h) same = cc
same_hash-equal (some a) none same = cc
same_hash-equal (some a) (some h) same = ground arith

module _ (codec : Codec) where
  -- An entry of the changes that are staged: its hash is that of its content, and the file has the hash
  -- that the change asks for.
  abbrev pub Sound : Files → WikiChange × ContentHash → Type 0
  Sound files (change, hash) =
      (codec.sha256_hex change.bytes ≡ hash)
      × (found_hash codec change.relative_path files ≡ change.expected_old_hash)
      × (validate_target_path change.relative_path ≡ ok tt)

  abbrev pub AllSound : Files → List (WikiChange × ContentHash) → Type 0
  AllSound files entries = (e : WikiChange × ContentHash) → Memᴰ e entries → Sound files e

  next-Sound :
      (files : Files) (change : WikiChange) (rest : List (WikiChange × ContentHash))
      (settled : Bool)
      → found_hash codec change.relative_path files ≡ change.expected_old_hash
      → validate_target_path change.relative_path ≡ ok tt
      → ((e : WikiChange × ContentHash) → Memᴰ e rest → Sound files e)
      → (e : WikiChange × ContentHash)
      → Memᴰ e (if settled then rest else (change, codec.sha256_hex change.bytes) ∷ rest)
      → Sound files e
  next-Sound files change rest true current allowed sound e at = sound e at
  next-Sound files change rest false current allowed sound e at = elim at [
    | Memᴰ.head same ↦ subst (Sound files) (sym same) (refl, current, allowed)
    | Memᴰ.tail later ↦ sound e later
  ]

  -- What a round of the loop asked for, and where it went on.
  effective-passes :
      (files : Files) (seen : StringSet) (change : WikiChange) (changes : List WikiChange)
      (last : List (WikiChange × ContentHash))
      → effective_changes codec files seen (change ∷ changes) ≡ ok last
      → (rest : List (WikiChange × ContentHash)) × (found_hash codec change.relative_path files
          ≡ change.expected_old_hash)
        × (validate_target_path change.relative_path ≡ ok tt)
        × (effective_changes codec files (insert change.relative_path tt seen) changes ≡ ok rest)
        × ((if same_hash
                (found_hash codec change.relative_path files)
                (some (codec.sha256_hex change.bytes))
              then rest
              else (change, codec.sha256_hex change.bytes) ∷ rest)
            ≡ last)
  unfolding effective_changes
  effective-passes files seen change changes last done =
      let path = change.relative_path in
      let (allowed, after_path) = >>-passes (validate_target_path path) _ done in
      let (new, after_new) = >>-passes (refuse_if (contains_key path seen) conflict) _ after_path in
      let (current, read, after_read) = >>=-succeeds _ (read_hash codec path files) after_new in
      let after_found =
        subst
          (λ c.
            (refuse_if (not (same_hash c change.expected_old_hash)) conflict
              >> (effective_changes codec files (insert path tt seen) changes >>= λ rest. ok (
                  if same_hash c (some (codec.sha256_hex change.bytes))
                  then rest
                  else (change, codec.sha256_hex change.bytes) ∷ rest)))
            ≡ ok last)
          (read_hash-ok codec path files current read) after_read in
      let (passes, after_current) =
        >>-passes
          (refuse_if (not (same_hash (found_hash codec path files) change.expected_old_hash))
            conflict)
          _ after_found in
      let (rest, tail_done, whole) =
        >>=-succeeds
          (λ rest. ok (
            if same_hash (found_hash codec path files) (some (codec.sha256_hex change.bytes))
            then rest
            else (change, codec.sha256_hex change.bytes) ∷ rest))
          (effective_changes codec files (insert path tt seen) changes) after_current in
      (
        rest,
        same_hash-equal (found_hash codec path files) change.expected_old_hash
            (not-false _ (refuse_if-passes _ conflict passes)),
        allowed,
        tail_done,
        ok-same _ refl whole,
      )

  pub effective_changes-Sound :
      (files : Files) (seen : StringSet) (changes : List WikiChange)
      (last : List (WikiChange × ContentHash))
      → effective_changes codec files seen changes ≡ ok last
      → AllSound files last
  unfolding effective_changes
  effective_changes-Sound files seen [] last done =
      subst (AllSound files) (ok-same _ refl done) (λ e at. elim at [ ])
  effective_changes-Sound files seen (change ∷ changes) last done =
      let (rest, current, allowed, tail_done, whole) =
        effective-passes files seen change changes last done in
      subst (AllSound files) whole (
        next-Sound files change rest
          (same_hash (found_hash codec change.relative_path files)
            (some (codec.sha256_hex change.bytes)))
          current allowed
          (effective_changes-Sound files (insert change.relative_path tt seen) changes rest
            tail_done))

  -- A change is there already, or it is among those that are to be made.
  abbrev pub Reached : Files → List (WikiChange × ContentHash) → WikiChange → Type 0
  Reached files entries change =
      (found_hash codec change.relative_path files ≡ some (codec.sha256_hex change.bytes))
      ⊎ Memᴰ (change, codec.sha256_hex change.bytes) entries

  later-Reached :
      (files : Files) (entries : List (WikiChange × ContentHash)) (first : WikiChange × ContentHash)
      (settled : Bool) (c : WikiChange)
      → Reached files entries c
      → Reached files (if settled then entries else first ∷ entries) c
  later-Reached files entries first true c reached = reached
  later-Reached files entries first false c (inl there) = inl there
  later-Reached files entries first false c (inr at) = inr (Memᴰ.tail at)

  first-Reached :
      (files : Files) (entries : List (WikiChange × ContentHash)) (c : WikiChange) (settled : Bool)
      → same_hash (found_hash codec c.relative_path files) (some (codec.sha256_hex c.bytes))
        ≡ settled
      → Reached files (if settled then entries else (c, codec.sha256_hex c.bytes) ∷ entries) c
  first-Reached files entries c true test = inl (
      same_hash-equal (found_hash codec c.relative_path files) (some (codec.sha256_hex c.bytes))
        test)
  first-Reached files entries c false test = inr (Memᴰ.head refl)

  pub effective_changes-Reached :
      (files : Files) (seen : StringSet) (changes : List WikiChange)
      (last : List (WikiChange × ContentHash))
      → effective_changes codec files seen changes ≡ ok last
      → (c : WikiChange) → Memᴰ c changes
      → Reached files last c
  unfolding effective_changes
  effective_changes-Reached files seen [] last done c at = elim at [ ]
  effective_changes-Reached files seen (change ∷ changes) last done c at =
      let path = change.relative_path in
      let settled =
        same_hash (found_hash codec path files) (some (codec.sha256_hex change.bytes)) in
      let (rest, current, allowed, tail_done, whole) =
        effective-passes files seen change changes last done in
      subst (λ l. Reached files l c) whole
        (elim at [
          | Memᴰ.head same ↦
              subst
                (Reached files
                  (if settled then rest else (change, codec.sha256_hex change.bytes) ∷ rest))
                (sym same) (first-Reached files rest change settled refl)
          | Memᴰ.tail later ↦
              later-Reached files rest (change, codec.sha256_hex change.bytes) settled c
                (effective_changes-Reached files (insert path tt seen) changes rest tail_done c
                  later)
        ])

place-Memᴰ :
    (change : WikiChange) (changes : List WikiChange) (c : WikiChange)
    → Memᴰ c (change ∷ changes)
    → Memᴰ c (place change changes)
unfolding place
place-Memᴰ change [] c at = at
place-Memᴰ change (next ∷ changes) c at =
    if-keeps (Memᴰ c) (may_precede change next) (λ before. at)
      (λ behind. elim at [
        | Memᴰ.head same ↦ Memᴰ.tail (place-Memᴰ change changes c (Memᴰ.head same))
        | Memᴰ.tail later ↦ elim later [
          | Memᴰ.head same ↦ Memᴰ.head same
          | Memᴰ.tail past ↦ Memᴰ.tail (place-Memᴰ change changes c (Memᴰ.tail past))
        ]
      ])

pub sort_changes-Memᴰ :
    (changes : List WikiChange) (c : WikiChange) → Memᴰ c changes → Memᴰ c (sort_changes changes)
unfolding sort_changes
sort_changes-Memᴰ [] c at = at
sort_changes-Memᴰ (change ∷ changes) c at = place-Memᴰ change (sort_changes changes) c (elim at [
  | Memᴰ.head same ↦ Memᴰ.head same
  | Memᴰ.tail later ↦ Memᴰ.tail (sort_changes-Memᴰ changes c later)
])
