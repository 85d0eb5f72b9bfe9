-- ===== src/Knowledge/Truth.antt =====
-- What `validate_projected_truth` makes sure of (crates/core/src/knowledge.rs).
use wiki_coding.Prelude.{
  Bool, true, ◌&&◌, ◌≡◌, refl, sym, ◌≤◌, ◌+◌, Option, none, some, List, [], ◌∷◌, ◌==◌, string_eq,
  count_if, find, ok, StringSet, insert, contains_key, contains_key-insert, arith, if◌then◌else◌,
  inl, inr, Option-cases, Bool-cases, >>-passes, subst,
}
use mathlib.Core.List.{Memᴰ}
use wiki_coding.Protocol.Knowledge.{PageId, TopicId, KnowledgePageStatus, current, superseded}
use wiki_coding.Knowledge.Guard.{
  CurrentWikiPage, is_current, check_topics, check_status, check_supersession,
  validate_projected_truth, find_page,
}

abbrev pub is_current_of : TopicId → CurrentWikiPage → Bool
is_current_of topic page = is_current (page.status) && page.topic_id == topic

-- A current page names no successor; a superseded one names a current page of its topic.
abbrev pub Supported : List CurrentWikiPage → TopicId → KnowledgePageStatus → Option PageId → Type 0
Supported pages topic current successor = successor ≡ none
Supported pages topic superseded successor =
    (page : CurrentWikiPage) × Memᴰ page pages
    × (successor ≡ some (page.page_id))
    × (page.topic_id ≡ topic)
    × (is_current (page.status) ≡ true)

pub record Truthful (pages : List CurrentWikiPage) : Type 0 where
  pub one_current : (topic : TopicId) → count_if (is_current_of topic) pages ≤ 1
  pub all_supported :
      (page : CurrentWikiPage)
      → Memᴰ page pages
      → Supported pages (page.topic_id) (page.status) (page.superseded_by)

check_topics-one :
    (topics : StringSet) (pages : List CurrentWikiPage) (topic : TopicId)
    → check_topics topics pages ≡ ok tt
    → count_if (is_current_of topic) pages + (if contains_key topic topics then 1 else 0) ≤ 1
unfolding check_topics count_if
check_topics-one topics [] topic done = ground arith
check_topics-one topics (page ∷ pages) topic done = ground (
  arith,
  check_topics-one topics pages topic,
  check_topics-one (insert page.topic_id tt topics) pages topic,
  contains_key-insert page.topic_id topic topics,
)

find-Mem {ℓ} :
    {A : Type ℓ} (p : A → Bool) (xs : List A) (x : A)
    → find p xs ≡ some x
    → Memᴰ x xs × (p x ≡ true)
find-Mem p [] x found = cc
find-Mem p (y ∷ ys) x found = elim (Bool-cases (p y)) [
  | inl passes ↦ let same : x ≡ y = ground arith in (Memᴰ.head same, cc)
  | inr fails ↦ let later = find-Mem p ys x (ground arith) in (Memᴰ.tail later.0, later.1)
]

check_status-Supported :
    (pages : List CurrentWikiPage) (topic : TopicId) (status : KnowledgePageStatus)
    (successor : Option PageId)
    → check_status pages topic status successor ≡ ok tt
    → Supported pages topic status successor
unfolding check_status
check_status-Supported pages topic current none done = refl
check_status-Supported pages topic current (some id) done = cc
check_status-Supported pages topic superseded none done = cc
check_status-Supported pages topic superseded (some id) done =
    elim (Option-cases (find_page id pages)) [
      | inl absent ↦ cc
      | inr (page, e) ↦
          let found = find-Mem (λ candidate. candidate.page_id == id) pages page e in
          (page, found.0, ground arith, ground arith, ground arith)
    ]

check_supersession-Supported :
    (pages rest : List CurrentWikiPage) (page : CurrentWikiPage)
    → check_supersession pages rest ≡ ok tt
    → Memᴰ page rest
    → Supported pages (page.topic_id) (page.status) (page.superseded_by)
unfolding check_supersession
check_supersession-Supported pages [] page done at = elim at [ ]
check_supersession-Supported pages (first ∷ rest) page done at =
    let parts =
      >>-passes (check_status pages (first.topic_id) (first.status) (first.superseded_by))
        (check_supersession pages rest) done in
    elim at [
      | Memᴰ.head same ↦
          subst (λ q. Supported pages (q.topic_id) (q.status) (q.superseded_by)) (sym same)
            (check_status-Supported pages first.topic_id first.status first.superseded_by parts.0)
      | Memᴰ.tail later ↦ check_supersession-Supported pages rest page parts.1 later
    ]

pub validate_projected_truth-Truthful :
    (pages : List CurrentWikiPage) → validate_projected_truth pages ≡ ok tt → Truthful pages
unfolding validate_projected_truth
validate_projected_truth-Truthful pages done =
    let parts = >>-passes (check_topics [] pages) (check_supersession pages pages) done in
    record {
      one_current = λ topic. omega (arith, check_topics-one [] pages topic parts.0);
      all_supported = λ page at. check_supersession-Supported pages pages page parts.1 at;
    }
