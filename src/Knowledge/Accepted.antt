-- ===== src/Knowledge/Accepted.antt =====
-- What a patch that the guard accepts does to the wiki (crates/core/src/knowledge.rs).
use wiki_coding.Prelude.{
  ℕ, ◌≡◌, refl, Option, List, [], ◌∷◌, string_eq, ok, Map, insert, remove, values, Result-cases,
  subst, inl, inr, >>=-succeeds, arith,
}
use mathlib.Core.List.{Memᴰ}
use wiki_coding.Protocol.Vault.{ContentHash}
use wiki_coding.Protocol.Knowledge.{
  KnowledgeOperation, create, replace, remove_page, KnowledgePatch, validate_patch,
  check_operations,
}
use wiki_coding.Knowledge.Guard.{
  CurrentWikiPage, KnowledgeValidationContext, Projected, validate_projected_truth,
  initial_projection, projected_page, page_map, path_map,
}
use wiki_coding.Knowledge.Operations.{project_one, project, validate}
use wiki_coding.Knowledge.Truth.{Truthful, validate_projected_truth-Truthful}
use wiki_coding.Knowledge.Fits.{Fits, project-Fits}

-- The pages after an operation, and after a list of them: what the patch means, without any guard.
unfoldable pub after_operation : Map CurrentWikiPage → KnowledgeOperation → Map CurrentWikiPage
after_operation pages (create page) = insert (page.page_id) (projected_page page) pages
after_operation pages (replace page hash) = insert (page.page_id) (projected_page page) pages
after_operation pages (remove_page id path hash) = remove id pages

unfoldable pub after_operations :
    Map CurrentWikiPage → List KnowledgeOperation → Map CurrentWikiPage
after_operations pages [] = pages
after_operations pages (operation ∷ operations) =
    after_operations (after_operation pages operation) operations

project_one_lem :
    (evidence : Map ContentHash) (p final : Projected) (operation : KnowledgeOperation)
    → project_one evidence p operation ≡ ok final
    → final.projection ≡ after_operation (p.projection) operation
unfolding project_one after_operation
project_one_lem evidence p final (create page) done = ground (arith)
project_one_lem evidence p final (replace page hash) done = ground (arith)
project_one_lem evidence p final (remove_page id path hash) done = ground (arith)

pub project_lem :
    (evidence : Map ContentHash) (p final : Projected) (operations : List KnowledgeOperation)
    → project evidence p operations ≡ ok final
    → final.projection ≡ after_operations (p.projection) operations
unfolding project after_operations
project_lem evidence p final [] done = cc
project_lem evidence p final (operation ∷ operations) done =
    let (next, first, rest) =
      >>=-succeeds (λ next. project evidence next operations) (project_one evidence p operation)
        done in
    ground (
      arith,
      project_one_lem evidence p next operation first,
      project_lem evidence next final operations rest,
    )

-- The parts of the guard that a patch passes.
pub record Passed (submitted : KnowledgePatch) (context : KnowledgeValidationContext) : Type 0 where
  pub distinct : check_operations [] (submitted.operations) ≡ ok tt
  pub final : Projected
  pub projected :
      project (context.evidence) (initial_projection (context.pages)) (submitted.operations)
      ≡ ok final
  pub truth : validate_projected_truth (values (final.projection)) ≡ ok tt

validate_patch-distinct :
    (submitted patch : KnowledgePatch)
    → validate_patch submitted ≡ ok patch
    → (patch ≡ submitted) × (check_operations [] (submitted.operations) ≡ ok tt)
unfolding validate_patch
validate_patch-distinct submitted patch done = (ground arith, ground arith)

module _ (json_bytes : KnowledgePatch → Option ℕ) where
  pub validate-Passed :
      (submitted patch : KnowledgePatch) (context : KnowledgeValidationContext)
      → validate json_bytes submitted context ≡ ok patch
      → (patch ≡ submitted) × Passed submitted context
  unfolding validate
  validate-Passed submitted patch context done = elim (Result-cases (validate_patch submitted)) [
    | inr (e, refused) ↦ ground arith
    | inl (checked, valid) ↦
        elim (Result-cases
          (project (context.evidence) (initial_projection (context.pages)) (checked.operations))) [
            | inr (e, refused) ↦ ground arith
            | inl (final, projected) ↦
                let (same, distinct) = validate_patch-distinct submitted checked valid in
                let unchanged : patch ≡ submitted = ground arith in
                (
                  unchanged,
                  record {
                    distinct = distinct;
                    final = final;
                    projected =
                        subst
                          (λ q.
                            project (context.evidence) (initial_projection (context.pages))
                              (KnowledgePatch.operations q)
                            ≡ ok final)
                          same projected;
                    truth = ground arith;
                  },
                )
          ]
  ]

  -- An accepted patch comes back as it was submitted, and the pages that it leaves agree: no topic has
  -- two current pages, a current page names no successor, and a superseded page names a current page
  -- of its own topic.
  pub accepted-Truthful :
      (submitted patch : KnowledgePatch) (context : KnowledgeValidationContext)
      → validate json_bytes submitted context ≡ ok patch
      → (patch ≡ submitted)
        × Truthful (values (after_operations (page_map (context.pages) []) (submitted.operations)))
  unfolding initial_projection
  accepted-Truthful submitted patch context done =
      let (same, passed) = validate-Passed submitted patch context done in
      (
        same,
        subst (λ pages. Truthful (values pages))
            (project_lem (context.evidence) (initial_projection (context.pages)) passed.final
              (submitted.operations) passed.projected)
            (validate_projected_truth-Truthful (values (Projected.projection passed.final))
              passed.truth),
      )

  -- An accepted patch fits the wiki as it was before the patch: a page that it creates has an id and a
  -- path that no page had, and a page that it replaces or removes was there, with the path, the hash
  -- and, if replaced, the topic that the patch names. So no operation builds on another one.
  pub accepted-Fits :
      (submitted patch : KnowledgePatch) (context : KnowledgeValidationContext)
      → validate json_bytes submitted context ≡ ok patch
      → (operation : KnowledgeOperation) → Memᴰ operation (submitted.operations)
      → Fits (page_map (context.pages) []) (path_map (context.pages) []) operation
  unfolding initial_projection
  accepted-Fits submitted patch context done =
      let (same, passed) = validate-Passed submitted patch context done in
      project-Fits (context.evidence) (page_map (context.pages) []) (path_map (context.pages) []) []
        (initial_projection (context.pages)) passed.final (submitted.operations) passed.projected
        passed.distinct (record { same_pages = λ id new. refl; same_paths = λ path new. refl })
