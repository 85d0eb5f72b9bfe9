-- ===== src/Vault/Samples.antt =====
-- A transaction of two pages for the tests, and a codec that knows it.
use wiki_coding.Prelude.{
  List, ◌≡◌, arith, get, String_discrete, any, split, contains_key, is_some, Bool, ap, sym, subst,
  ◌∙◌, false, true, ◌||◌, ℕ, String, refl, Option, none, some, [], ◌∷◌, ◌==◌, nat_eq, string_eq,
  if◌then◌else◌, insert, ℕ_discrete,
}
use wiki_coding.Protocol.Event.{v1}
use wiki_coding.Protocol.Vault.{
  TransactionManifest, TransactionTarget, TransactionState, preparing, prepared, applying,
  committed, transaction_state_eq,
}
use wiki_coding.Vault.Files.{Disk, Bytes, Files}
use wiki_coding.Vault.Recoverable.{
  Own, is_target, is_staged, is_manifest, is_receipt, OthersKept, Serves,
}
use Prim.Native.String.{◌++◌}
use mathlib.Core.List.{Memᴰ}
use wiki_coding.Vault.Transaction.{
  receipt_path, transaction_directory_name, Codec, manifest_path, receipt_of, set_state,
}
use wiki_coding.Vault.Checking.{ReadsBack}

abbrev first_target : TransactionTarget
first_target = record {
  relative_path = "wiki/index.md";
  old_hash = none;
  expected_hash = "one";
  staged_relative_path = ".minimax/transactions/id/staged/0000.data";
  order = 0;
}

abbrev second_target : TransactionTarget
second_target = record {
  relative_path = "log.md";
  old_hash = some "old";
  expected_hash = "two";
  staged_relative_path = ".minimax/transactions/id/staged/0001.data";
  order = 1;
}

abbrev pub two_pages : TransactionManifest
two_pages = record {
  schema_version = v1;
  transaction_id = "t1";
  state = prepared;
  targets = first_target ∷ second_target ∷ [];
  created_at_unix_ms = 7;
}

abbrev sample_hash : Bytes → String
sample_hash [] = "id"
sample_hash (b ∷ _) = if b == 1 then "one" else (if b == 2 then "two" else "old")

abbrev state_number : TransactionState → ℕ
state_number preparing = 0
state_number prepared = 1
state_number applying = 2
state_number committed = 3

abbrev numbered : TransactionManifest → Bytes → Option TransactionManifest
numbered m [] = none
numbered m (b ∷ _) = some (
    set_state m (
      if b == 0
      then preparing
      else (if b == 1 then prepared else (if b == 2 then applying else committed))))

-- The paths above a path, from the parts between its slashes.
abbrev above_of : String → List String → List String
above_of top [] = []
above_of top (part ∷ []) = []
above_of top (part ∷ next ∷ parts) = (top ++ part) ∷ above_of (top ++ (part ++ "/")) (next ∷ parts)

unfoldable pub above : String → List String
above path = above_of "" (split b'/' path)

-- A file that stands above a path is in its way.
unfoldable pub blocked : String → Files → Bool
unfolding above
blocked path files = any (λ p. contains_key p files) (above path)

abbrev pub tree : Disk
tree = record { read_fails = blocked; write_fails = blocked; create_dir_fails = blocked }

abbrev pub sample_codec : Codec
sample_codec = record {
  sha256_hex = sample_hash;
  text_bytes = λ s. [];
  manifest_json = λ m. state_number m.state ∷ [];
  read_manifest = numbered two_pages;
  receipt_json = λ r. 9 ∷ [];
  read_receipt = λ bytes. some (receipt_of two_pages);
  disk = tree;
}

pub two_pages-ReadsBack : ReadsBack sample_codec two_pages
unfolding ℕ_discrete
two_pages-ReadsBack preparing = refl
two_pages-ReadsBack prepared = refl
two_pages-ReadsBack applying = refl
two_pages-ReadsBack committed = refl

abbrev pub sample_files : Files
sample_files = insert first_target.staged_relative_path (1 ∷ []) (
    insert second_target.staged_relative_path (2 ∷ [])
      (insert "log.md" (5 ∷ []) (insert (manifest_path sample_codec "t1") (1 ∷ []) [])))

abbrev pub old_files : Files
old_files = insert "log.md" (5 ∷ []) []

abbrev own_paths : List String
own_paths =
    "wiki/index.md" ∷ "log.md" ∷ ".minimax/transactions/id/staged/0000.data"
    ∷ ".minimax/transactions/id/staged/0001.data" ∷ ".minimax/transactions/id/manifest.json"
    ∷ ".minimax/receipts/transaction-id.json" ∷ []

listed : (q : String) → Own sample_codec two_pages old_files q → Memᴰ q own_paths
unfolding manifest_path receipt_path transaction_directory_name
listed q (is_target t at same) = elim at [
  | Memᴰ.head one ↦ Memᴰ.head (same ∙ ap (λ t. t.relative_path) one)
  | Memᴰ.tail later ↦ elim later [
    | Memᴰ.head two ↦ Memᴰ.tail (Memᴰ.head (same ∙ ap (λ t. t.relative_path) two))
    | Memᴰ.tail past ↦ elim past [ ]
  ]
]
listed q (is_staged t at same) = elim at [
  | Memᴰ.head one ↦ Memᴰ.tail (Memᴰ.tail (Memᴰ.head (same ∙ ap (λ t. t.staged_relative_path) one)))
  | Memᴰ.tail later ↦ elim later [
    | Memᴰ.head two ↦
        Memᴰ.tail (Memᴰ.tail (Memᴰ.tail (Memᴰ.head (same ∙ ap (λ t. t.staged_relative_path) two))))
    | Memᴰ.tail past ↦ elim past [ ]
  ]
]
listed q (is_manifest same) = Memᴰ.tail (Memᴰ.tail (Memᴰ.tail (Memᴰ.tail (Memᴰ.head same))))
listed q (is_receipt same) =
    Memᴰ.tail (Memᴰ.tail (Memᴰ.tail (Memᴰ.tail (Memᴰ.tail (Memᴰ.head same)))))

differing : (a b : String) → (a == b) ≡ false → ¬ (a ≡ b)
differing a b differs same = ground arith

or_false : (x y : Bool) → (x || y) ≡ false → (x ≡ false) × (y ≡ false)
or_false true y neither = cc
or_false false y neither = (refl, neither)

none_of : (q : String) (ps : List String) → any (λ p. q == p) ps ≡ false → ¬ (Memᴰ q ps)
none_of q [] missing at = elim at [ ]
none_of q (p ∷ ps) missing at =
    let (differs, rest) = or_false (q == p) (any (λ p. q == p) ps) missing in
    elim at [
      | Memᴰ.head same ↦ differing q p differs same
      | Memᴰ.tail later ↦ none_of q ps rest later
    ]

absent :
    (p : String) (files : Files)
    → get p files ≡ get p old_files
    → contains_key p old_files ≡ false
    → contains_key p files ≡ false
unfolding contains_key
absent p files same missing = ap is_some same ∙ missing

-- A path that is neither the transaction's nor an old file's has no file, as long as the others are kept.
clear :
    (ps : List String) (files : Files)
    → OthersKept sample_codec two_pages old_files files
    → any (λ p. any (λ o. p == o) own_paths || contains_key p old_files) ps ≡ false
    → any (λ p. contains_key p files) ps ≡ false
clear [] files kept apart = refl
clear (p ∷ ps) files kept apart =
    let (here, rest) =
      or_false (any (λ o. p == o) own_paths || contains_key p old_files)
        (any (λ p. any (λ o. p == o) own_paths || contains_key p old_files) ps) apart in
    let (foreign, missing) =
      or_false (any (λ o. p == o) own_paths) (contains_key p old_files) here in
    let none_here =
      absent p files (kept p (λ own. none_of p own_paths foreign (listed p own))) missing in
    rw (none_here, clear ps files kept rest)

abbrev Every : (String → Type 0) → List String → Type 0
Every P [] = Unit
Every P (p ∷ ps) = P p × Every P ps

every_of : (P : String → Type 0) (ps : List String) → Every P ps → (q : String) → Memᴰ q ps → P q
every_of P [] all q at = elim at [ ]
every_of P (p ∷ ps) (first, rest) q at = elim at [
  | Memᴰ.head same ↦ subst P (sym same) first
  | Memᴰ.tail later ↦ every_of P ps rest q later
]

own_clear :
    (q : String)
    → Memᴰ q own_paths
    → any (λ p. any (λ o. p == o) own_paths || contains_key p old_files) (above q) ≡ false
unfolding above split get insert contains_key String_discrete ℕ_discrete
own_clear q at =
    every_of
      (λ q. any (λ p. any (λ o. p == o) own_paths || contains_key p old_files) (above q) ≡ false)
      own_paths (refl, (refl, (refl, (refl, (refl, (refl, tt)))))) q at

serves_own :
    (q : String) (files : Files)
    → OthersKept sample_codec two_pages old_files files
    → Memᴰ q own_paths
    → blocked q files ≡ false
unfolding blocked
serves_own q files kept at = (clear (above q) files kept (own_clear q at))

pub tree-Serves : Serves sample_codec two_pages old_files
tree-Serves q files own kept = let free = serves_own q files kept (listed q own) in (free, free)

-- Two pages of which the first stands in the way of the second.
abbrev pub nested_pages : TransactionManifest
nested_pages = record two_pages {
  targets =
      record {
        relative_path = "wiki/a.md";
        old_hash = none;
        expected_hash = "one";
        staged_relative_path = ".minimax/transactions/id/staged/0000.data";
        order = 0;
      }
      ∷ record {
        relative_path = "wiki/a.md/b.md";
        old_hash = none;
        expected_hash = "two";
        staged_relative_path = ".minimax/transactions/id/staged/0001.data";
        order = 1;
      }
      ∷ [];
}

abbrev pub nested_codec : Codec
nested_codec = record sample_codec { read_manifest = numbered nested_pages }
