-- ===== src/Vault/Files.antt =====
-- The files of a vault: crates/vault/src/path.rs. The store is a map from relative paths to bytes. Where
-- a file operation fails is up to the operating system, which is a parameter.
use wiki_coding.Prelude.{
  ℕ, String, Bool, true, false, ◌&&◌, ◌==◌, nat_eq, Option, none, some, List, [], ◌∷◌, Result, ok,
  err, Map, get, insert, if◌then◌else◌,
}

pub data VaultError : Type 0 where
  busy io invalid_path project_mismatch unsupported_schema conflict recovery_required finalized
        sensitive_content session_not_terminal session_not_found invalid_page empty_transaction
        fault_injected invalid_confirmation not_expired expired :
      VaultError

abbrev pub Bytes : Type 0
Bytes = List ℕ

abbrev pub Files : Type 0
Files = Map Bytes

unfoldable pub same_bytes : Bytes → Bytes → Bool
same_bytes [] [] = true
same_bytes [] (b ∷ bs) = false
same_bytes (a ∷ more) [] = false
same_bytes (a ∷ more) (b ∷ bs) = a == b && same_bytes more bs

-- What the operating system answers where it does not do what is asked: whether a read, a write with
-- the creation of the directories above it, or the creation of a directory fails, at a path and in the
-- files that are there. A read of a path with no file does not fail by itself.
pub record Disk : Type 0 where
  pub read_fails : String → Files → Bool
  pub write_fails : String → Files → Bool
  pub create_dir_fails : String → Files → Bool

module _ (disk : Disk) where
  -- `std::fs::read(..).ok()`.
  abbrev pub read_file : String → Files → Option Bytes
  read_file path files = if disk.read_fails path files then none else get path files

  unfoldable pub atomic_replace : String → Bytes → Files → Result VaultError Files
  atomic_replace path bytes files =
      if disk.write_fails path files then err io else ok (insert path bytes files)

  unfoldable pub atomic_create_or_same : String → Bytes → Files → Result VaultError Files
  atomic_create_or_same path bytes files = elim (get path files) [
    | some old ↦
        if disk.read_fails path files
        then err io
        else (if same_bytes old bytes then ok files else err conflict)
    | none ↦ if disk.write_fails path files then err io else ok (insert path bytes files)
  ]
