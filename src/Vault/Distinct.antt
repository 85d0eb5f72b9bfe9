-- ===== src/Vault/Distinct.antt =====
-- The targets of a manifest that passes its validation have paths of their own
-- (`TransactionManifest::validate` of crates/protocol/src/vault.rs).
use wiki_coding.Prelude.{
  ℕ, suc, Bool, true, false, not, ◌||◌, ◌≡◌, refl, sym, ap, ◌∙◌, ◌==◌, nat_eq, string_eq, List, [],
  ◌∷◌, ok, err, Result, ◌>>◌, refuse_if, refuse_if-passes, >>-passes, insert, contains_key,
  contains_key-insert, StringSet, is_empty,
}
use mathlib.Core.List.{Memᴰ}
use wiki_coding.Protocol.Vault.{
  VaultValidationError, TransactionTarget, TransactionManifest, check_targets, validate_target,
  validate_manifest, u32_index, empty_targets, invalid_target_order, duplicate_target,
}
use wiki_coding.Vault.Recoverable.{apart_sym}

neither : (x y : Bool) → (x || y) ≡ false → (x ≡ false) × (y ≡ false)
neither true y none_true = cc
neither false y none_true = (refl, none_true)

>>-first :
    {A B : Type 0} (first : Result VaultValidationError A) (second : Result VaultValidationError B)
    {last : B}
    → (first >> second) ≡ ok last
    → (value : A) × (first ≡ ok value) × (second ≡ ok last)
>>-first (ok value) second done = (value, refl, done)
>>-first (err error) second done = cc

check_targets-passes :
    (index : ℕ) (seen : StringSet) (target : TransactionTarget) (targets : List TransactionTarget)
    → check_targets index seen (target ∷ targets) ≡ ok tt
    → (contains_key target.relative_path seen ≡ false)
      × (check_targets (suc index) (insert target.relative_path tt seen) targets ≡ ok tt)
unfolding check_targets
check_targets-passes index seen target targets done =
    let (target_valid, shaped, rest) = >>-first (validate_target target) _ done in
    let (ordered, after_order) =
      >>-passes (refuse_if (not (target.order == u32_index index)) invalid_target_order) _ rest in
    let (new, last) =
      >>-passes (refuse_if (contains_key target.relative_path seen) duplicate_target) _
        after_order in
    (refuse_if-passes (contains_key target.relative_path seen) duplicate_target new, last)

targets_fresh :
    (index : ℕ) (seen : StringSet) (targets : List TransactionTarget)
    → check_targets index seen targets ≡ ok tt
    → (t : TransactionTarget) → Memᴰ t targets
    → contains_key t.relative_path seen ≡ false
targets_fresh index seen [] done t at = elim at [ ]
targets_fresh index seen (target ∷ targets) done t at =
    let (new, later) = check_targets-passes index seen target targets done in
    elim at [
      | Memᴰ.head same ↦ ap (λ v. contains_key v.relative_path seen) same ∙ new
      | Memᴰ.tail past ↦
          (neither (t.relative_path == target.relative_path) (contains_key t.relative_path seen) (
            sym (contains_key-insert target.relative_path t.relative_path seen)
            ∙ targets_fresh (suc index) (insert target.relative_path tt seen) targets later t
                past)).1
    ]

first_differs :
    (index : ℕ) (seen : StringSet) (target : TransactionTarget) (targets : List TransactionTarget)
    → check_targets index seen (target ∷ targets) ≡ ok tt
    → (t : TransactionTarget) → Memᴰ t targets
    → (t.relative_path == target.relative_path) ≡ false
first_differs index seen target targets done t at =
    let (new, later) = check_targets-passes index seen target targets done in
    (neither (t.relative_path == target.relative_path) (contains_key t.relative_path seen) (
      sym (contains_key-insert target.relative_path t.relative_path seen)
      ∙ targets_fresh (suc index) (insert target.relative_path tt seen) targets later t at)).0

check_targets-distinct :
    (index : ℕ) (seen : StringSet) (targets : List TransactionTarget)
    → check_targets index seen targets ≡ ok tt
    → (t u : TransactionTarget) → Memᴰ t targets
    → Memᴰ u targets
    → (u.relative_path == t.relative_path) ≡ true
    → u ≡ t
check_targets-distinct index seen [] done t u here at meets = elim here [ ]
check_targets-distinct index seen (target ∷ targets) done t u here at meets =
    let (new, later) = check_targets-passes index seen target targets done in
    elim here [
      | Memᴰ.head same ↦ elim at [
        | Memᴰ.head also ↦ also ∙ sym same
        | Memᴰ.tail past ↦ cc (first_differs index seen target targets done u past, meets, same)
      ]
      | Memᴰ.tail behind ↦ elim at [
        | Memᴰ.head also ↦ cc (
          apart_sym t.relative_path target.relative_path
              (first_differs index seen target targets done t behind),
          meets,
          also,
        )
        | Memᴰ.tail past ↦
            check_targets-distinct (suc index) (insert target.relative_path tt seen) targets later t
              u behind past meets
      ]
    ]

pub validate_manifest-distinct :
    (m v : TransactionManifest)
    → validate_manifest m ≡ ok v
    → (t u : TransactionTarget) → Memᴰ t m.targets
    → Memᴰ u m.targets
    → (u.relative_path == t.relative_path) ≡ true
    → u ≡ t
unfolding validate_manifest
validate_manifest-distinct m v valid =
    let (some_targets, rest) = >>-passes (refuse_if (is_empty m.targets) empty_targets) _ valid in
    let (checked, done) = >>-passes (check_targets 0 [] m.targets) _ rest in
    check_targets-distinct 0 [] m.targets checked
