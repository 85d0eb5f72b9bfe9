-- ===== src/Vault/Paths.antt =====
-- Paths that cannot meet, since they begin differently or are named differently
-- (`PreparedWikiTransaction::prepare` and the names of crates/vault/src/transaction.rs).
use Prim.Native.Char.{Char, code}
use Prim.Native.String.{◌++◌}
use Prim.Native.String.append.{cons}
use text.Mathlib.TextBridge.{IsPrefix}
use text.Mathlib.TextEquality.{starts_with_iff}
use text.Mathlib.TextLemmas.{append_assoc, append_cancel_left}
use wiki_coding.Protocol.Vault.{validate_vault_relative_path}
use wiki_coding.Vault.Files.{invalid_path}
use wiki_coding.Vault.Preparing.{validate_target_path}
use wiki_coding.Prelude.{
  not, ℕ_discrete, ends_with, ok, map_err, refuse_if-passes, >>-passes, String, Bool, true, false,
  ◌&&◌, ◌||◌, ◌≡◌, refl, sym, ◌∙◌, ◌==◌, nat_eq, string_eq, arith, starts_with, inl, inr, ◌⊎◌,
  Bool-cases,
}

-- One of the texts goes on where the other ends.
unfoldable pub comparable : String → String → Bool
comparable String.[] q = true
comparable (String.◌∷◌ c p) String.[] = true
comparable (String.◌∷◌ c p) (String.◌∷◌ d q) = code c == code d && comparable p q

cons-same :
    (c d : Char) (s t : String) → String.◌∷◌ c s ≡ String.◌∷◌ d t → (code c ≡ code d) × (s ≡ t)
cons-same c d s t same = (cc, cc)

prefixes-comparable : (p q r s : String) → (p ++ r) ≡ (q ++ s) → comparable p q ≡ true
unfolding comparable
prefixes-comparable String.[] q r s same = refl
prefixes-comparable (String.◌∷◌ c p) String.[] r s same = refl
prefixes-comparable (String.◌∷◌ c p) (String.◌∷◌ d q) r s same =
    let (first, rest) = cons-same c d (p ++ r) (q ++ s) (sym (cons c p r) ∙ same ∙ cons d q s) in
    ground (arith, first, prefixes-comparable p q r s rest)

text_same : (a b : String) → (a == b) ≡ true → a ≡ b
text_same a b same = ground arith

pub apart :
    (a b p q : String) → IsPrefix p a → IsPrefix q b → comparable p q ≡ false → (a == b) ≡ false
apart a b p q (r, at) (s, behind) differ = elim (Bool-cases (a == b)) [
  | inr other ↦ other
  | inl same ↦ cc (prefixes-comparable p q r s (at ∙ text_same a b same ∙ sym behind))
]

-- A staged file is not the manifest of the same transaction.
pub staged_not_manifest :
    (top h x : String)
    → (((top ++ (h ++ "/staged/")) ++ x) == (top ++ (h ++ "/manifest.json"))) ≡ false
unfolding comparable ℕ_discrete
staged_not_manifest top h x =
    elim (Bool-cases (((top ++ (h ++ "/staged/")) ++ x) == (top ++ (h ++ "/manifest.json")))) [
      | inr other ↦ other
      | inl same ↦
          let whole =
            text_same ((top ++ (h ++ "/staged/")) ++ x) (top ++ (h ++ "/manifest.json")) same in
          let behind_top =
            append_cancel_left top ((h ++ "/staged/") ++ x) (h ++ "/manifest.json")
              (sym (append_assoc top (h ++ "/staged/") x) ∙ whole) in
          let names =
            append_cancel_left h ("/staged/" ++ x) "/manifest.json"
              (sym (append_assoc h "/staged/" x) ∙ behind_top) in
          cc (prefixes-comparable "/staged/" "/manifest.json" x "" names)
    ]

or-cases : (x y : Bool) → (x || y) ≡ true → (x ≡ true) ⊎ (y ≡ true)
or-cases true y either = inl refl
or-cases false y either = inr either

and-first : (x y : Bool) → (x && y) ≡ true → x ≡ true
and-first true y both = refl
and-first false y both = cc

not-false : (b : Bool) → not b ≡ false → b ≡ true
not-false true done = refl
not-false false done = cc

-- The path of a page, of the log or of an index begins with one of three texts.
target_prefix :
    (path : String)
    → validate_target_path path ≡ ok tt
    → IsPrefix "wiki/" path ⊎ (IsPrefix "log.md" path ⊎ IsPrefix ".minimax/indexes/" path)
unfolding validate_target_path
target_prefix path passes =
    let (safe, last) =
      >>-passes (map_err (validate_vault_relative_path path) invalid_path) _ passes in
    let named = not-false _ (refuse_if-passes _ invalid_path last) in
    elim (or-cases _ (starts_with path ".minimax/indexes/") named) [
      | inr index ↦ inr (inr ((starts_with_iff path ".minimax/indexes/").0 index))
      | inl more ↦ elim (or-cases _ (starts_with path "wiki/" && ends_with path ".md") more) [
        | inr page ↦
            inl ((starts_with_iff path "wiki/").0 (and-first (starts_with path "wiki/") _ page))
        | inl rest ↦ elim (or-cases (path == "wiki/index.md") (path == "log.md") rest) [
          | inl index ↦ inl ("index.md", sym (text_same path "wiki/index.md" index))
          | inr log ↦ inr (inl ("", sym (text_same path "log.md" log)))
        ]
      ]
    ]

-- A text that no path of a target begins with.
abbrev pub Foreign : String → Type 0
Foreign q =
    (comparable "wiki/" q ≡ false)
    × (comparable "log.md" q ≡ false)
    × (comparable ".minimax/indexes/" q ≡ false)

pub target_apart :
    (path b q : String)
    → validate_target_path path ≡ ok tt
    → Foreign q
    → IsPrefix q b
    → (path == b) ≡ false
target_apart path b q passes (no_page, no_log, no_index) begins = elim (target_prefix path passes) [
  | inl page ↦ apart path b "wiki/" q page begins no_page
  | inr (inl log) ↦ apart path b "log.md" q log begins no_log
  | inr (inr index) ↦ apart path b ".minimax/indexes/" q index begins no_index
]

pub transactions-Foreign : Foreign ".minimax/transactions/"
unfolding comparable ℕ_discrete
transactions-Foreign = (refl, refl, refl)

pub receipts-Foreign : Foreign ".minimax/receipts/transaction-"
unfolding comparable ℕ_discrete
receipts-Foreign = (refl, refl, refl)
