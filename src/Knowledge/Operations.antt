-- ===== src/Knowledge/Operations.antt =====
-- The loop of `KnowledgePatchValidator::validate` over the operations, and the whole of it
-- (crates/core/src/knowledge.rs).
use wiki_coding.Prelude.{
  ℕ, String, not, ◌||◌, Option, List, [], ◌∷◌, ◌*◌, ◌==◌, string_eq, ltb, Result, ok, refuse_if,
  ok_or, map_err, ◌>>=◌, ◌>>◌, Map, get, insert, remove, contains_key, values,
}
use wiki_coding.Protocol.Vault.{ContentHash}
use wiki_coding.Protocol.Knowledge.{
  PageId, KnowledgePage, KnowledgeOperation, create, replace, remove_page, KnowledgePatch,
  validate_patch,
}
use wiki_coding.Knowledge.Guard.{
  KnowledgeValidationContext, KnowledgeGuardError, Projected, invalid_patch, wrong_job,
  duplicate_page, duplicate_target, stale_hash, oversized_patch, validate_page_content,
  validate_sources, validate_initial_pages, validate_projected_truth, initial_projection,
  projected_page,
}

-- The changes of the loop's maps on each kind of operation.
abbrev pub created : KnowledgePage → Projected → Projected
created page p = record {
  projection = insert (page.page_id) (projected_page page) (p.projection);
  paths = insert (page.relative_path) (page.page_id) (p.paths);
  operation_paths = insert (page.relative_path) tt (p.operation_paths);
}

abbrev pub replaced : KnowledgePage → Projected → Projected
replaced page p = record p {
  projection = insert (page.page_id) (projected_page page) (p.projection);
  operation_paths = insert (page.relative_path) tt (p.operation_paths);
}

abbrev pub removed : PageId → String → Projected → Projected
removed id path p = record {
  projection = remove id (p.projection);
  paths = remove path (p.paths);
  operation_paths = insert path tt (p.operation_paths);
}

unfoldable pub project_one :
    Map ContentHash → Projected → KnowledgeOperation → Result KnowledgeGuardError Projected
project_one evidence p (create page) = do
  validate_page_content (page.title) (page.body)
  validate_sources (page.sources) evidence
  refuse_if
      (contains_key (page.page_id) (p.projection)
        || contains_key (page.relative_path) (p.paths)
        || contains_key (page.relative_path) (p.operation_paths))
      duplicate_target
  ok (created page p)
project_one evidence p (replace page expected_hash) = do
  validate_page_content (page.title) (page.body)
  validate_sources (page.sources) evidence
  refuse_if (contains_key (page.relative_path) (p.operation_paths)) duplicate_target
  existing ← ok_or (get (page.page_id) (p.projection)) duplicate_page
  refuse_if
      (not (existing.relative_path == page.relative_path)
        || not (existing.topic_id == page.topic_id)
        || not (existing.content_hash == expected_hash))
      stale_hash
  ok (replaced page p)
project_one evidence p (remove_page id path expected_hash) = do
  refuse_if (contains_key path (p.operation_paths)) duplicate_target
  existing ← ok_or (get id (p.projection)) duplicate_page
  refuse_if (not (existing.relative_path == path) || not (existing.content_hash == expected_hash))
      stale_hash
  ok (removed id path p)

unfoldable pub project :
    Map ContentHash → Projected → List KnowledgeOperation → Result KnowledgeGuardError Projected
project evidence p [] = ok p
project evidence p (operation ∷ operations) = do
  next ← project_one evidence p operation
  project evidence next operations

module _ (json_bytes : KnowledgePatch → Option ℕ) where
  unfoldable pub validate :
      KnowledgePatch → KnowledgeValidationContext → Result KnowledgeGuardError KnowledgePatch
  validate submitted context = do
    patch ← map_err (validate_patch submitted) invalid_patch
    refuse_if (not (patch.job_id == context.job_id)) wrong_job
    bytes ← ok_or (json_bytes patch) invalid_patch
    refuse_if (ltb (256 * 1024) bytes) oversized_patch
    validate_initial_pages (context.pages)
    final ← project (context.evidence) (initial_projection (context.pages)) (patch.operations)
    validate_projected_truth (values (final.projection))
    ok patch
