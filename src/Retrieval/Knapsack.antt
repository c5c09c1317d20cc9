-- ===== src/Retrieval/Knapsack.antt =====
-- The greedy admission of triples, snippets and chunks within a budget of tokens.
use Prim.Native.String
use membox.Base.{
  ℕ, ◌+◌, ◌-◌, String, Bool, not, ◌&&◌, Option, none, some, List, [], ◌∷◌, ◌++◌, ◌==◌, leb,
  if◌then◌else◌, map, select, take,
}
use membox.Base.Text.{is_empty, strip, concat, join}
use membox.Chunk.Tokens.{est_tokens}
use membox.Graph.Relations.{id_in}

-- `(doc_id, content, project, source_path, section, doc_date)`, of an evidence document or a chunk.
pub record Snippet : Type 0 where
  pub doc_id : ℕ
  pub content : String
  pub project : Option String
  pub source_path : Option String
  pub section : Option String
  pub doc_date : Option String

-- What the output reads of a scored triple.
pub record Scored : Type 0 where
  pub relation_id : ℕ
  pub subject : String
  pub predicate : String
  pub object : String
  pub evidence : List Snippet

-- `if part: parts.append(prefix + part)`
unfoldable pub tag_part : String → Option String → List String
tag_part prefix none = []
tag_part prefix (some part) = if is_empty part then [] else String.◌++◌ prefix part ∷ []

unfoldable pub tag_of : List String → String
tag_of [] = "unknown"
tag_of (part ∷ parts) = join " " (part ∷ parts)

unfoldable pub provenance_tag :
    Option String → Option String → Option String → Option String → String
unfolding tag_part tag_of
provenance_tag project source_path section doc_date = tag_of (
    tag_part "" project
    ++ tag_part "" source_path
    ++ tag_part "## " section
    ++ tag_part "" doc_date)

unfoldable pub tag_line : Snippet → String
unfolding provenance_tag
tag_line c = concat ("[" ∷ provenance_tag c.project c.source_path c.section c.doc_date ∷ "]" ∷ [])

abbrev pub triple_line : Scored → String
triple_line item = concat (item.subject ∷ ": " ∷ item.predicate ∷ " " ∷ item.object ∷ [])

-- The costs of the three loops.
unfoldable pub triple_cost : Scored → ℕ
triple_cost item = est_tokens (triple_line item)

unfoldable pub snippet_cost : Snippet → ℕ
snippet_cost ev = est_tokens ev.content

unfoldable pub chunk_cost : Snippet → ℕ
unfolding tag_line
chunk_cost chunk = est_tokens (tag_line chunk) + est_tokens (strip chunk.content)

-- `if cost <= remaining: admitted.append(item); remaining -= cost`, over the items.
unfoldable pub admit {ℓ} : {A : Type ℓ} → (A → ℕ) → List A → ℕ → List A × ℕ
admit cost [] remaining = ([], remaining)
admit cost (item ∷ items) remaining =
    let left = if leb (cost item) remaining then remaining - cost item else remaining in
    let rest = admit cost items left in
    if leb (cost item) remaining then (item ∷ rest.0, rest.1) else rest

abbrev pub ids_of : List Scored → List ℕ
ids_of = map (λ item. item.relation_id)

-- `{scored[i]["relation_id"] for i in range(min(k, len(scored)))}`
abbrev pub top_ids : ℕ → List Scored → List ℕ
top_ids k scored = ids_of (take k scored)

-- `evidence_admitted[rid] = snippets`
unfoldable pub put_evidence : ℕ → List Snippet → List (ℕ × List Snippet) → List (ℕ × List Snippet)
put_evidence rid snippets [] = (rid, snippets) ∷ []
put_evidence rid snippets (item ∷ items) =
    let rest = put_evidence rid snippets items in
    if item.0 == rid then (rid, snippets) ∷ items else item ∷ rest

-- `if admitted_snippets:`
unfoldable pub put_some : ℕ → List Snippet → List (ℕ × List Snippet) → List (ℕ × List Snippet)
unfolding put_evidence
put_some rid [] admitted = admitted
put_some rid (ev ∷ evs) admitted = put_evidence rid (ev ∷ evs) admitted

-- The evidence pass of `compact_output`, over all that is scored.
unfoldable pub admit_evidence :
    (ℕ → Bool) → List Scored → List (ℕ × List Snippet) × ℕ → List (ℕ × List Snippet) × ℕ
unfolding admit put_some
admit_evidence eligible [] (admitted, remaining) = (admitted, remaining)
admit_evidence eligible (item ∷ items) (admitted, remaining) =
    let snippets = admit snippet_cost item.evidence remaining in
    admit_evidence eligible items (
      if eligible item.relation_id
      then (put_some item.relation_id snippets.0 admitted, snippets.1)
      else (admitted, remaining))

-- What `compact_output` has admitted when it renders; `triples` are the items of `admitted_rids`.
pub record Compact : Type 0 where
  pub triples : List Scored
  pub evidence_admitted : List (ℕ × List Snippet)
  pub remaining : ℕ

unfoldable pub compact_admissions : List Scored → ℕ → ℕ → Compact
unfolding admit admit_evidence
compact_admissions scored budget top_evidence_k =
    let admitted = admit triple_cost scored budget in
    let evidence =
      admit_evidence
        (λ rid. id_in (top_ids top_evidence_k scored) rid && id_in (ids_of admitted.0) rid) scored
        ([], admitted.1) in
    record { triples = admitted.0; evidence_admitted = evidence.0; remaining = evidence.1 }

-- Pass 1 of `fused_output`: the triples, each with its evidence at once, and the documents emitted.
pub record Pass : Type 0 where
  pub triples : List Scored
  pub evidence_admitted : List (ℕ × List Snippet)
  pub evidence_doc_ids : List ℕ
  pub remaining : ℕ

unfoldable pub attach_evidence : Bool → Scored → Pass → Pass
unfolding admit put_some
attach_evidence eligible item p =
    let snippets = admit snippet_cost item.evidence p.remaining in
    if eligible
    then record p {
      evidence_admitted = put_some item.relation_id snippets.0 p.evidence_admitted;
      evidence_doc_ids = p.evidence_doc_ids ++ map (λ ev. ev.doc_id) snippets.0;
      remaining = snippets.1;
    }
    else p

unfoldable pub admit_triple : List ℕ → Scored → Pass → Pass
unfolding attach_evidence
admit_triple top_k item p =
    if leb (triple_cost item) p.remaining
    then attach_evidence (id_in top_k item.relation_id) item
        (record p { triples = p.triples ++ item ∷ []; remaining = p.remaining - triple_cost item })
    else p

unfoldable pub admit_triples : List ℕ → List Scored → Pass → Pass
unfolding admit_triple
admit_triples top_k [] p = p
admit_triples top_k (item ∷ items) p = admit_triples top_k items (admit_triple top_k item p)

-- What `fused_output` has admitted when it renders.
pub record Fused : Type 0 where
  pub first : Pass
  pub chunks : List Snippet
  pub backfill : List Scored
  pub remaining : ℕ

abbrev pub first_pass : ℕ → List Scored → ℕ → Pass
first_pass top_evidence_k scored allowance =
    admit_triples (top_ids top_evidence_k scored) scored (record {
      triples = [];
      evidence_admitted = [];
      evidence_doc_ids = [];
      remaining = allowance;
    })

-- `chunk_reserve = floor(budget * chunk_share)`. The share is a floating-point number, which stands here
-- for what it makes of a budget: the floor of the product.
unfoldable pub chunk_reserve : ℕ → (ℕ → ℕ) → ℕ
chunk_reserve budget chunk_share = chunk_share budget

unfoldable pub fused_admissions : List Scored → List Snippet → ℕ → (ℕ → ℕ) → ℕ → Fused
unfolding admit admit_triples chunk_reserve
fused_admissions scored chunks budget chunk_share top_evidence_k =
    let reserve = chunk_reserve budget chunk_share in
    let first = first_pass top_evidence_k scored (budget - reserve) in
    let second =
      admit chunk_cost (select (λ chunk. not (id_in first.evidence_doc_ids chunk.doc_id)) chunks)
        (reserve + first.remaining) in
    let third =
      admit triple_cost
        (select (λ item. not (id_in (ids_of first.triples) item.relation_id)) scored) second.1 in
    record { first = first; chunks = second.0; backfill = third.0; remaining = third.1 }
