-- ===== src/Knowledge/Sources.antt =====
-- The sources and the text of the pages that an accepted patch writes (crates/core/src/knowledge.rs).
use wiki_coding.Prelude.{
  ℕ, String, false, ◌≡◌, sym, subst, Option, some, List, [], ◌∷◌, string_eq, any, contains_text,
  to_ascii_lowercase, ok, Map, two_refusals-pass, get, >>=-succeeds, Option-cases, inl, inr, arith,
}
use Prim.Native.String.{◌++◌}
use mathlib.Core.List.{Memᴰ}
use wiki_coding.Protocol.Vault.{ContentHash}
use wiki_coding.Protocol.Knowledge.{
  SourceCitation, KnowledgePage, KnowledgeOperation, create, replace, remove_page, KnowledgePatch,
}
use wiki_coding.Knowledge.Guard.{
  KnowledgeValidationContext, Projected, validate_sources, validate_page_content, secret_markers,
  injection_markers, initial_projection, sensitive_content, injection_content,
}
use wiki_coding.Knowledge.Operations.{project_one, project, validate}
use wiki_coding.Knowledge.Accepted.{validate-Passed}

-- The page's text with its title in front, in lower case.
abbrev pub searched : KnowledgePage → String
searched page = to_ascii_lowercase (page.title ++ ("\n" ++ page.body))

pub record Clean (evidence : Map ContentHash) (page : KnowledgePage) : Type 0 where
  pub sourced :
      (source : SourceCitation)
      → Memᴰ source (page.sources)
      → get (source.source_id) evidence ≡ some (source.source_hash)
  pub no_secret : any (λ marker. contains_text (searched page) marker) secret_markers ≡ false
  pub no_injection : any (λ marker. contains_text (searched page) marker) injection_markers ≡ false

-- What is asked of a page that an operation writes; a removal writes none.
abbrev pub WritesClean : Map ContentHash → KnowledgeOperation → Type 0
WritesClean evidence (create page) = Clean evidence page
WritesClean evidence (replace page hash) = Clean evidence page
WritesClean evidence (remove_page id path hash) = Unit

module _ (evidence : Map ContentHash) where
  validate_sources-sourced :
      (sources : List SourceCitation) (source : SourceCitation)
      → validate_sources sources evidence ≡ ok tt
      → Memᴰ source sources
      → get (source.source_id) evidence ≡ some (source.source_hash)
  unfolding validate_sources
  validate_sources-sourced [] source done at = elim at [ ]
  validate_sources-sourced (first ∷ rest) source done at =
      elim (Option-cases (get (first.source_id) evidence)) [
        | inl absent ↦ ground arith
        | inr (expected, e) ↦ elim at [
          | Memᴰ.head same ↦
              subst
                (λ s.
                  get (SourceCitation.source_id s) evidence ≡ some (SourceCitation.source_hash s))
                (sym same) (ground arith)
          | Memᴰ.tail later ↦ validate_sources-sourced rest source (ground arith) later
        ]
      ]

  page-Clean :
      (page : KnowledgePage)
      → validate_page_content (page.title) (page.body) ≡ ok tt
      → validate_sources (page.sources) evidence ≡ ok tt
      → Clean evidence page
  unfolding validate_page_content
  page-Clean page fine known =
      let passed =
        two_refusals-pass (any (λ marker. contains_text (searched page) marker) secret_markers)
          (any (λ marker. contains_text (searched page) marker) injection_markers) sensitive_content
          injection_content fine in
      record {
        sourced = λ source at. validate_sources-sourced (page.sources) source known at;
        no_secret = passed.0;
        no_injection = passed.1;
      }

  project_one-Clean :
      (p next : Projected) (operation : KnowledgeOperation)
      → project_one evidence p operation ≡ ok next
      → WritesClean evidence operation
  unfolding project_one
  project_one-Clean p next (create page) done = page-Clean page (ground arith) (ground arith)
  project_one-Clean p next (replace page hash) done = page-Clean page (ground arith) (ground arith)
  project_one-Clean p next (remove_page id path hash) done = tt

  project-Clean :
      (p final : Projected) (operations : List KnowledgeOperation)
      → project evidence p operations ≡ ok final
      → (operation : KnowledgeOperation) → Memᴰ operation operations
      → WritesClean evidence operation
  unfolding project
  project-Clean p final [] done operation at = elim at [ ]
  project-Clean p final (first ∷ rest) done operation at =
      let (next, now, later) =
        >>=-succeeds (λ next. project evidence next rest) (project_one evidence p first) done in
      elim at [
        | Memᴰ.head same ↦
            subst (WritesClean evidence) (sym same) (project_one-Clean p next first now)
        | Memᴰ.tail later_at ↦ project-Clean next final rest later operation later_at
      ]

module _ (json_bytes : KnowledgePatch → Option ℕ) where
  -- Every page that an accepted patch writes cites only evidence that the job offers, each with the
  -- hash that the job has for it, and its title and body contain no marker of a secret and none of an
  -- injected instruction, in any case of ASCII letters.
  pub accepted-Clean :
      (submitted patch : KnowledgePatch) (context : KnowledgeValidationContext)
      → validate json_bytes submitted context ≡ ok patch
      → (operation : KnowledgeOperation) → Memᴰ operation (submitted.operations)
      → WritesClean (context.evidence) operation
  accepted-Clean submitted patch context done =
      let (same, passed) = validate-Passed json_bytes submitted patch context done in
      project-Clean (context.evidence) (initial_projection (context.pages)) passed.final
        (submitted.operations) passed.projected
