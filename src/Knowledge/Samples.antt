-- ===== src/Knowledge/Samples.antt =====
-- A job with a small wiki and a patch, for the examples.
use wiki_coding.Prelude.{String, Option, none, some, List, [], ◌∷◌}
use wiki_coding.Protocol.Event.{v1, responses, Usage}
use wiki_coding.Protocol.Session.{ModelBinding}
use wiki_coding.Protocol.Knowledge.{
  KnowledgeEvaluationJob, KnowledgePage, KnowledgePageStatus, KnowledgePatch, KnowledgeOperation,
  current, superseded, create, replace, remove_page,
}
use wiki_coding.Knowledge.Guard.{CurrentWikiPage, KnowledgeValidationContext}

abbrev pub binding : ModelBinding
binding = record { provider_id = "provider"; model_id = "model"; protocol = responses }

abbrev pub job : KnowledgeEvaluationJob
job = record {
  schema_version = v1;
  job_id = "job";
  source_id = "raw";
  source_hash = "hash";
  model_binding = binding;
  prompt_version = 1;
  patch_schema_version = 1;
  max_evidence_bytes = 1024;
  max_output_tokens = 100;
}

abbrev pub old_page : String → String → CurrentWikiPage
old_page id path = record {
  page_id = id;
  topic_id = id;
  relative_path = path;
  status = current;
  superseded_by = none;
  content_hash = "old";
}

abbrev pub context : KnowledgeValidationContext
context = record {
  job_id = "job";
  evidence = ("raw", "hash") ∷ [];
  pages = old_page "a" "wiki/a.md" ∷ old_page "b" "wiki/b.md" ∷ [];
}

abbrev pub new_page : String → String → KnowledgePageStatus → Option String → KnowledgePage
new_page id path status successor = record {
  schema_version = v1;
  page_id = id;
  topic_id = "a";
  relative_path = path;
  title = "Title";
  status = status;
  superseded_by = successor;
  sources = record { source_id = "raw"; source_hash = "hash" } ∷ [];
  body = "Text";
}

-- Page `c` takes the place of page `a`, and page `b` goes.
abbrev pub operations : List KnowledgeOperation
operations =
    create (new_page "c" "wiki/c.md" current none)
    ∷ replace (new_page "a" "wiki/a.md" superseded (some "c")) "old"
    ∷ remove_page "b" "wiki/b.md" "old"
    ∷ []

abbrev pub patch : KnowledgePatch
patch = record { schema_version = v1; job_id = "job"; operations = operations }

abbrev pub some_usage : Usage
some_usage = record { input_tokens = some 5; output_tokens = none; total_tokens = some 5 }
