-- ===== src/Knowledge/Guard.antt =====
-- `KnowledgePatchValidator::validate` and its helpers: crates/core/src/knowledge.rs. The size of a
-- patch as JSON is a parameter, since `serde_json` is not part of the repository.
use wiki_coding.Prelude.{
  String, Bool, true, false, not, ◌||◌, Option, none, some, List, [], ◌∷◌, ◌==◌, string_eq, any,
  find, contains_text, to_ascii_lowercase, Result, ok, err, refuse_if, ok_or, ◌>>=◌, ◌>>◌, Map,
  StringSet, get, insert, contains_key,
}
use Prim.Native.String.{◌++◌}
use wiki_coding.Protocol.Vault.{ContentHash}
use wiki_coding.Protocol.Knowledge.{
  KnowledgeJobId, PageId, TopicId, KnowledgePageStatus, current, superseded, SourceCitation,
  KnowledgePage,
}

pub record CurrentWikiPage : Type 0 where
  pub page_id : PageId
  pub topic_id : TopicId
  pub relative_path : String
  pub status : KnowledgePageStatus
  pub superseded_by : Option PageId
  pub content_hash : ContentHash

pub record KnowledgeValidationContext : Type 0 where
  pub job_id : KnowledgeJobId
  pub evidence : Map ContentHash
  pub pages : List CurrentWikiPage

pub data KnowledgeGuardError : Type 0 where
  invalid_patch wrong_job unknown_source source_hash_mismatch duplicate_page duplicate_target
        stale_hash current_truth_conflict invalid_supersession sensitive_content injection_content
        oversized_patch :
      KnowledgeGuardError

abbrev pub Checked : Type 0
Checked = Result KnowledgeGuardError (Unit {0})

abbrev pub zero_hash : ContentHash
zero_hash = "0000000000000000000000000000000000000000000000000000000000000000"

abbrev pub secret_markers : List String
secret_markers =
    "-----begin private key-----" ∷ "-----begin rsa private key-----"
    ∷ "-----begin openssh private key-----" ∷ "github_pat_" ∷ "api_key=" ∷ "api-key="
    ∷ "client_secret=" ∷ "access_token=" ∷ "password=" ∷ "authorization: bearer "
    ∷ "private_reasoning" ∷ "chain_of_thought" ∷ []

abbrev pub injection_markers : List String
injection_markers =
    "ignore previous instructions" ∷ "follow these instructions instead" ∷ "<system" ∷ "<assistant"
    ∷ "tool_calls" ∷ "execute this command" ∷ []

unfoldable pub validate_page_content : String → String → Checked
validate_page_content title body =
    let value = to_ascii_lowercase (title ++ ("\n" ++ body)) in
    do
      refuse_if (any (λ marker. contains_text value marker) secret_markers) sensitive_content
      refuse_if (any (λ marker. contains_text value marker) injection_markers) injection_content

unfoldable pub validate_sources : List SourceCitation → Map ContentHash → Checked
validate_sources [] allowed = ok tt
validate_sources (source ∷ sources) allowed = do
  expected ← ok_or (get (source.source_id) allowed) unknown_source
  refuse_if (not (expected == source.source_hash)) source_hash_mismatch
  validate_sources sources allowed

unfoldable pub is_current : KnowledgePageStatus → Bool
is_current current = true
is_current superseded = false

-- The first loop of `validate_projected_truth`, from a page on.
unfoldable pub check_topics : StringSet → List CurrentWikiPage → Checked
check_topics topics [] = ok tt
check_topics topics (page ∷ pages) = elim (is_current (page.status)) [
  | true ↦ do
    refuse_if (contains_key (page.topic_id) topics) current_truth_conflict
    check_topics (insert (page.topic_id) tt topics) pages
  | false ↦ check_topics topics pages
]

abbrev pub find_page : PageId → List CurrentWikiPage → Option CurrentWikiPage
find_page id pages = find (λ candidate. candidate.page_id == id) pages

unfoldable pub check_status :
    List CurrentWikiPage → TopicId → KnowledgePageStatus → Option PageId → Checked
check_status pages topic current none = ok tt
check_status pages topic current (some id) = err invalid_supersession
check_status pages topic superseded none = err invalid_supersession
check_status pages topic superseded (some id) = do
  replacement ← ok_or (find_page id pages) invalid_supersession
  refuse_if (not (replacement.topic_id == topic) || not (is_current (replacement.status)))
      invalid_supersession

-- The second loop, over `rest`, with the replacements looked up in `pages`.
unfoldable pub check_supersession : List CurrentWikiPage → List CurrentWikiPage → Checked
check_supersession pages [] = ok tt
check_supersession pages (page ∷ rest) = do
  check_status pages (page.topic_id) (page.status) (page.superseded_by)
  check_supersession pages rest

unfoldable pub validate_projected_truth : List CurrentWikiPage → Checked
validate_projected_truth pages = do check_topics [] pages; check_supersession pages pages

-- The `any` of `validate_initial_pages`, from a page on.
unfoldable pub repeats : StringSet → StringSet → List CurrentWikiPage → Bool
repeats ids paths [] = false
repeats ids paths (page ∷ pages) =
    contains_key (page.page_id) ids
    || contains_key (page.relative_path) paths
    || repeats (insert (page.page_id) tt ids) (insert (page.relative_path) tt paths) pages

unfoldable pub validate_initial_pages : List CurrentWikiPage → Checked
validate_initial_pages pages = do
  refuse_if (repeats [] [] pages) duplicate_page
  validate_projected_truth pages

-- What the loop of `validate` changes.
pub record Projected : Type 0 where
  pub projection : Map CurrentWikiPage
  pub paths : Map PageId
  pub operation_paths : StringSet

unfoldable pub page_map : List CurrentWikiPage → Map CurrentWikiPage → Map CurrentWikiPage
page_map [] pages = pages
page_map (page ∷ rest) pages = page_map rest (insert (page.page_id) page pages)

unfoldable pub path_map : List CurrentWikiPage → Map PageId → Map PageId
path_map [] paths = paths
path_map (page ∷ rest) paths = path_map rest (insert (page.relative_path) (page.page_id) paths)

unfoldable pub initial_projection : List CurrentWikiPage → Projected
initial_projection pages = record {
  projection = page_map pages [];
  paths = path_map pages [];
  operation_paths = [];
}

abbrev pub projected_page : KnowledgePage → CurrentWikiPage
projected_page page = record {
  page_id = page.page_id;
  topic_id = page.topic_id;
  relative_path = page.relative_path;
  status = page.status;
  superseded_by = page.superseded_by;
  content_hash = zero_hash;
}
