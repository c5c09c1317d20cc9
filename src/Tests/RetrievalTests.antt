-- ===== src/Tests/RetrievalTests.antt =====
-- Retrieval over a chain of three relations, and an answer with triples and chunks.
use Prim.Native.Nat.{min, ◌/◌}
use membox.Base.{
  ℕ, ◌+◌, ◌-◌, ◌*◌, ◌≡◌, String, true, false, not, ◌&&◌, Option, none, some, List, [], ◌∷◌, ◌++◌,
  any_of, all_of, length, ltb,
}
use membox.Graph.Tables.{Document, Entity, Relation, Store}
use membox.Graph.Relations.{id_in}
use membox.Retrieval.Bfs.{walk}
use membox.Retrieval.Reach.{within, walk-visits}
use membox.Retrieval.Depths.{depth_in, distance, walk-distance}
use membox.Retrieval.Knapsack.{Snippet, Scored, ids_of, fused_admissions}
use membox.Retrieval.Selection.{
  taken_or_over, emitted, fused_admissions-greedy, fused_admissions-once,
}
use membox.Retrieval.Chunks.{round_robin_by_source}
use membox.Retrieval.Spread.{round_robin_by_source-length}
use membox.Retrieval.Spans.{Span, inside, apart, merge_spans, merge_spans-covers}
use membox.Retrieval.Score.{Floats, RetrievalConfig, scored_query}
use membox.Retrieval.Isolation.{only_from, scored_query-only_from}
use membox.Retrieval.Terms.{fts_tokens}
use membox.Retrieval.Anchors.{is_phrase, fts_tokens-plain}

abbrev relation : ℕ → ℕ → ℕ → Option ℕ → Relation ℕ
relation i src tgt superseded_by = record {
  id = i;
  source_id = src;
  target_id = tgt;
  predicate = "uses";
  embedding = none;
  superseded_by = superseded_by;
}

abbrev entity : ℕ → String → Entity ℕ
entity i name = record {
  id = i;
  canonical_name = name;
  entity_type = "tool";
  description = "";
  embedding = none;
}

abbrev document : ℕ → String → Document
document i path = record {
  id = i;
  content = "a line of the notes";
  source = path;
  project = some "membox";
  source_path = some path;
  section = none;
  doc_date = none;
  version = some 1;
}

-- 1 - 2 - 3, and 3 - 4 by a relation that is superseded.
abbrev chain : Store ℕ
chain = record {
  documents = document 1 "a.md" ∷ document 2 "b.md" ∷ [];
  next_document = 3;
  entities = entity 1 "membox" ∷ entity 2 "sqlite" ∷ entity 3 "fts5" ∷ entity 4 "like" ∷ [];
  next_entity = 5;
  entity_aliases = [];
  relations = relation 1 1 2 none ∷ relation 2 2 3 none ∷ relation 3 3 4 (some 2) ∷ [];
  next_relation = 4;
  relation_evidence =
      record { relation_id = 1; doc_id = 1 } ∷ record { relation_id = 2; doc_id = 2 } ∷ [];
}

walk-visits_run : id_in (walk (1 ∷ []) 2 false chain).visited 3 ≡ within false chain (1 ∷ []) 2 3
walk-visits_run = walk-visits (1 ∷ []) 2 false chain 3

walk-distance_example :
    depth_in (walk (1 ∷ []) 3 false chain).entity_depth 3 ≡ distance false chain (1 ∷ []) 3 3
walk-distance_example = walk-distance (1 ∷ []) 3 false chain 3

abbrev snippet : ℕ → String → Snippet
snippet i path = record {
  doc_id = i;
  content = "a line of the notes";
  project = some "membox";
  source_path = some path;
  section = none;
  doc_date = none;
}

abbrev triple : ℕ → String → String → List Snippet → Scored
triple i subject object evidence = record {
  relation_id = i;
  subject = subject;
  predicate = "uses";
  object = object;
  evidence = evidence;
}

abbrev scored : List Scored
scored =
    triple 1 "membox" "sqlite" (snippet 1 "a.md" ∷ [])
    ∷ triple 2 "sqlite" "fts5" (snippet 2 "b.md" ∷ [])
    ∷ []

abbrev chunks : List Snippet
chunks = snippet 1 "a.md" ∷ snippet 3 "c.md" ∷ []

abbrev two_fifths : ℕ → ℕ
two_fifths budget = (budget * 2) / 5

fused_admissions-greedy_example :
    (let f = fused_admissions scored chunks 40 two_fifths 1 in
      all_of (taken_or_over (ids_of f.first.triples ++ ids_of f.backfill) f.remaining) scored)
    ≡ true
fused_admissions-greedy_example = fused_admissions-greedy scored chunks 40 two_fifths 1

fused_admissions-once_example :
    (let f = fused_admissions scored chunks 40 two_fifths 1 in
      all_of (λ chunk. not (emitted f.first.evidence_admitted chunk.doc_id)) f.chunks
      && all_of (λ item. not (id_in (ids_of f.first.triples) item.relation_id)) f.backfill)
    ≡ true
fused_admissions-once_example = fused_admissions-once scored chunks 40 two_fifths 1

abbrev rows : List Document
rows = document 1 "a.md" ∷ document 2 "a.md" ∷ document 3 "b.md" ∷ []

round_robin_by_source-length_example : length (round_robin_by_source rows 2) ≡ min 2 3
round_robin_by_source-length_example = round_robin_by_source-length rows 2

abbrev spans : List Span
spans = (10, 20) ∷ (0, 12) ∷ (30, 40) ∷ []

merge_spans-covers_example :
    (any_of (inside 11) (merge_spans spans) ≡ any_of (inside 11) spans)
    × (apart (merge_spans spans) ≡ true)
merge_spans-covers_example = merge_spans-covers 11 spans

fts_tokens-plain_example : all_of is_phrase (fts_tokens "where is \"the\" lease?") ≡ true
fts_tokens-plain_example = fts_tokens-plain "where is \"the\" lease?"

-- Hundredths stand for the scores.
abbrev hundredths : Floats ℕ ℕ
hundredths = record {
  nought = 0;
  one = 100;
  two = 200;
  add = λ a b. a + b;
  sub = λ a b. a - b;
  mul = λ a b. a * b;
  div = λ a b. a;
  power = λ a n. a;
  less = λ a b. ltb a b;
  dimension = λ v. 1;
  cosine = λ v w. some 50;
}

abbrev config : RetrievalConfig ℕ
config = record { hop_decay = 70; alpha = 60 }

scored_query-only_from_example :
    all_of (only_from hundredths "membox") (
      scored_query hundredths config
        (λ ids query. [])
        (1 ∷ [])
        2
        "sqlite"
        none
        (some "membox")
        false
        chain)
    ≡ true
scored_query-only_from_example =
    scored_query-only_from hundredths config (λ ids query. []) (1 ∷ []) 2 "sqlite" none "membox"
      false chain
