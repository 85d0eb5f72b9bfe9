-- ===== src/Knowledge/Fits.antt =====
-- What an operation of a patch asks of the wiki as it was before the patch
-- (crates/core/src/knowledge.rs).
use wiki_coding.Prelude.{
  String, false, ◌≡◌, sym, none, some, List, [], ◌∷◌, string_eq, ok, Map, StringSet, get, insert,
  contains_key, get-insert, get-remove, Option-cases, subst, inl, inr, contains_key-insert,
  >>=-succeeds, arith,
}
use mathlib.Core.List.{Memᴰ}
use wiki_coding.Protocol.Vault.{ContentHash}
use wiki_coding.Protocol.Knowledge.{
  PageId, KnowledgeOperation, create, replace, remove_page, check_operations, operation_page_id,
}
use wiki_coding.Knowledge.Guard.{CurrentWikiPage, Projected, projected_page}
use wiki_coding.Knowledge.Operations.{project_one, project}

-- What an operation asks of the pages it meets: a new page has a new id and a new path, and a page
-- that is replaced or removed is there, with the path and the hash that the operation names.
abbrev pub Fits : Map CurrentWikiPage → Map PageId → KnowledgeOperation → Type 0
Fits pages paths (create page) =
    (get (page.page_id) pages ≡ none) × (get (page.relative_path) paths ≡ none)
Fits pages paths (replace page hash) =
    (existing : CurrentWikiPage) × (get (page.page_id) pages ≡ some existing)
    × (existing.relative_path ≡ page.relative_path)
    × (existing.topic_id ≡ page.topic_id)
    × (existing.content_hash ≡ hash)
Fits pages paths (remove_page id path hash) =
    (existing : CurrentWikiPage) × (get id pages ≡ some existing)
    × (existing.relative_path ≡ path)
    × (existing.content_hash ≡ hash)

-- Apart from the ids and the paths of the operations so far, nothing has changed.
pub record Untouched (pages : Map CurrentWikiPage) (paths : Map PageId) (seen : StringSet)
    (p : Projected) : Type 0 where
  pub same_pages :
      (id : PageId) → contains_key id seen ≡ false → get id (p.projection) ≡ get id pages
  pub same_paths :
      (path : String)
      → contains_key path (p.operation_paths) ≡ false
      → get path (p.paths) ≡ get path paths

module _ (evidence : Map ContentHash) (pages : Map CurrentWikiPage) (paths : Map PageId) where
  project_one-Fits :
      (seen : StringSet) (p next : Projected) (operation : KnowledgeOperation)
      → project_one evidence p operation ≡ ok next
      → contains_key (operation_page_id operation) seen ≡ false
      → Untouched pages paths seen p
      → Fits pages paths operation
  unfolding project_one operation_page_id contains_key
  project_one-Fits seen p next (create page) done new u =
      let same_page = u.same_pages (page.page_id) new in
      let same_path = u.same_paths (page.relative_path) in (ground arith, ground (arith, same_path))
  project_one-Fits seen p next (replace page hash) done new u =
      let same_page = u.same_pages (page.page_id) new in
      elim (Option-cases (get (page.page_id) (p.projection))) [
        | inl absent ↦ ground arith
        | inr (existing, e) ↦ (existing, ground arith, ground arith, ground arith, ground arith)
      ]
  project_one-Fits seen p next (remove_page id path hash) done new u =
      let same_page = u.same_pages id new in
      elim (Option-cases (get id (p.projection))) [
        | inl absent ↦ ground arith
        | inr (existing, e) ↦ (existing, ground arith, ground arith, ground arith)
      ]

  project_one-Untouched :
      (seen : StringSet) (p next : Projected) (operation : KnowledgeOperation)
      → project_one evidence p operation ≡ ok next
      → Untouched pages paths seen p
      → Untouched pages paths (insert (operation_page_id operation) tt seen) next
  unfolding project_one operation_page_id
  project_one-Untouched seen p next (create page) done u = record {
    same_pages = λ other new. ground (
      arith,
      get-insert page.page_id other (projected_page page) p.projection,
      contains_key-insert page.page_id other seen,
      u.same_pages other,
    );
    same_paths = λ other new. ground (
      arith,
      get-insert page.relative_path other page.page_id p.paths,
      contains_key-insert page.relative_path other p.operation_paths,
      u.same_paths other,
    );
  }
  project_one-Untouched seen p next (replace page hash) done u = record {
    same_pages = λ other new. ground (
      arith,
      get-insert page.page_id other (projected_page page) p.projection,
      contains_key-insert page.page_id other seen,
      u.same_pages other,
    );
    same_paths = λ other new.
        ground (
          arith,
          contains_key-insert page.relative_path other p.operation_paths,
          u.same_paths other,
        );
  }
  project_one-Untouched seen p next (remove_page id path hash) done u = record {
    same_pages = λ other new. ground (
      arith,
      get-remove id other p.projection,
      contains_key-insert id other seen,
      u.same_pages other,
    );
    same_paths = λ other new. ground (
      arith,
      get-remove path other p.paths,
      contains_key-insert path other p.operation_paths,
      u.same_paths other,
    );
  }

  check_operations-step :
      (seen : StringSet) (operation : KnowledgeOperation) (operations : List KnowledgeOperation)
      → check_operations seen (operation ∷ operations) ≡ ok tt
      → (contains_key (operation_page_id operation) seen ≡ false)
        × (check_operations (insert (operation_page_id operation) tt seen) operations ≡ ok tt)
  unfolding check_operations
  check_operations-step seen operation operations done = (ground arith, ground arith)

  pub project-Fits :
      (seen : StringSet) (p final : Projected) (operations : List KnowledgeOperation)
      → project evidence p operations ≡ ok final
      → check_operations seen operations ≡ ok tt
      → Untouched pages paths seen p
      → (operation : KnowledgeOperation) → Memᴰ operation operations
      → Fits pages paths operation
  unfolding project
  project-Fits seen p final [] done distinct u operation at = elim at [ ]
  project-Fits seen p final (first ∷ rest) done distinct u operation at =
      let (next, now, later) =
        >>=-succeeds (λ next. project evidence next rest) (project_one evidence p first) done in
      let (new, distinct_later) = check_operations-step seen first rest distinct in
      elim at [
        | Memᴰ.head same ↦
            subst (Fits pages paths) (sym same) (project_one-Fits seen p next first now new u)
        | Memᴰ.tail later_at ↦
            project-Fits (insert (operation_page_id first) tt seen) next final rest later
              distinct_later (project_one-Untouched seen p next first now u) operation later_at
      ]
