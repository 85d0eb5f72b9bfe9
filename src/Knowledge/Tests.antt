-- ===== src/Knowledge/Tests.antt =====
-- The guard and the workflow at small inputs, and the theorems at them (crates/core/src/knowledge.rs).
use wiki_coding.Prelude.{
  ℕ, ◌≡◌, refl, Option, none, some, [], ok, get, insert, remove, contains_key, values, any_char,
  is_control, is_blank, is_whitespace, all_chars, ends_with, contains_text, split,
  to_ascii_lowercase, ℕ_discrete, String_discrete,
}
use mathlib.Core.List.{Memᴰ}
use wiki_coding.Protocol.Vault.{validate_vault_relative_path, bad_segment, has_drive}
use wiki_coding.Protocol.Knowledge.{
  KnowledgePatch, validate_patch, check_operations, validate_operation, validate_page,
  validate_wiki_path, is_wiki_path, operation_page_id, has_repeat, has_descent, status_fits, create,
  current,
}
use wiki_coding.Knowledge.Guard.{
  validate_page_content, validate_sources, is_current, check_topics, check_status,
  check_supersession, validate_projected_truth, repeats, validate_initial_pages, page_map, path_map,
  initial_projection,
}
use wiki_coding.Knowledge.Operations.{project_one, project, validate}
use wiki_coding.Knowledge.Truth.{Truthful}
use wiki_coding.Knowledge.Fits.{Fits}
use wiki_coding.Knowledge.Accepted.{after_operations, accepted-Truthful, accepted-Fits}
use wiki_coding.Knowledge.Sources.{WritesClean, accepted-Clean}
use wiki_coding.Knowledge.Samples.{context, operations, patch, new_page}

abbrev json_bytes : KnowledgePatch → Option ℕ
json_bytes p = some 1000

patch-accepted : validate json_bytes patch context ≡ ok patch
unfolding validate validate_patch check_operations validate_operation validate_page
    validate_wiki_path is_wiki_path operation_page_id has_repeat has_descent status_fits
    validate_vault_relative_path bad_segment has_drive validate_page_content validate_sources
    is_current check_topics check_status check_supersession validate_projected_truth repeats
    validate_initial_pages page_map path_map initial_projection project_one project get insert
    remove contains_key any_char is_control is_blank is_whitespace all_chars ends_with contains_text
    split to_ascii_lowercase ℕ_discrete String_discrete
patch-accepted = refl

accepted-Truthful_example :
    (patch ≡ patch) × Truthful (values (after_operations (page_map (context.pages) []) operations))
accepted-Truthful_example = accepted-Truthful json_bytes patch patch context patch-accepted

accepted-Fits_example :
    Fits
      (page_map (context.pages) [])
      (path_map (context.pages) [])
      (create (new_page "c" "wiki/c.md" current none))
accepted-Fits_example =
    accepted-Fits json_bytes patch patch context patch-accepted
      (create (new_page "c" "wiki/c.md" current none)) (Memᴰ.head refl)

accepted-Clean_example :
    WritesClean (context.evidence) (create (new_page "c" "wiki/c.md" current none))
accepted-Clean_example =
    accepted-Clean json_bytes patch patch context patch-accepted
      (create (new_page "c" "wiki/c.md" current none)) (Memᴰ.head refl)
