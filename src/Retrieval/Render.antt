-- ===== src/Retrieval/Render.antt =====
-- The texts of `compact_output`, `fts_fallback_output` and `fused_output`.
use Prim.Native.Nat.{◌/◌, ◌%◌}
use membox.Base.{
  ℕ, zero, suc, ◌-◌, String, Bool, ◌||◌, List, [], ◌∷◌, ◌++◌, ◌==◌, ltb, if◌then◌else◌, str_eq, map,
  length, none, some, first_where,
}
use membox.Base.Text.{strip, concat, join, show}
use membox.Retrieval.Knapsack.{
  Snippet, Scored, tag_line, ids_of, admit, chunk_cost, compact_admissions, fused_admissions,
}

-- Three digits, and `f"{n:,}"`; the fuel n is more than the number of the groups.
unfoldable pub three_digits : ℕ → String
three_digits n = concat (show (n / 100) ∷ show ((n / 10) % 10) ∷ show (n % 10) ∷ [])

unfoldable pub show_groups : ℕ → ℕ → String
unfolding three_digits
show_groups zero n = show n
show_groups (suc fuel) n =
    let rest = show_groups fuel (n / 1000) in
    if ltb n 1000 then show n else concat (rest ∷ "," ∷ three_digits (n % 1000) ∷ [])

unfoldable pub show_commas : ℕ → String
unfolding show_groups
show_commas n = show_groups n n

-- `subj_groups.setdefault(subj, []).append(part)`
unfoldable pub put_group :
    String → String → List (String × List String) → List (String × List String)
put_group subj part [] = (subj, part ∷ []) ∷ []
put_group subj part (group ∷ groups) =
    let rest = put_group subj part groups in
    if str_eq group.0 subj then (group.0, group.1 ++ part ∷ []) ∷ groups else group ∷ rest

-- `next(x for x in scored if x["relation_id"] == rid)`; an admitted id is the id of an item.
unfoldable pub subject_groups :
    List Scored → List ℕ → List (String × List String) → List (String × List String)
unfolding put_group
subject_groups scored [] groups = groups
subject_groups scored (rid ∷ rids) groups =
    subject_groups scored rids (elim (first_where (λ item. item.relation_id == rid) scored) [
      | none ↦ groups
      | some item ↦ put_group item.subject (concat (item.predicate ∷ " " ∷ item.object ∷ [])) groups
    ])

unfoldable pub group_line : String × List String → String
group_line (subj, parts) = concat (subj ∷ ": " ∷ join " | " parts ∷ [])

unfoldable pub triple_lines : List Scored → List ℕ → List String
unfolding subject_groups group_line
triple_lines scored rids = map group_line (subject_groups scored rids [])

unfoldable pub snippet_lines : List Snippet → List String
unfolding tag_line
snippet_lines [] = []
snippet_lines (ev ∷ evs) = tag_line ev ∷ strip ev.content ∷ snippet_lines evs

unfoldable pub evidence_lines : List (ℕ × List Snippet) → List String
unfolding snippet_lines
evidence_lines [] = []
evidence_lines (item ∷ items) = snippet_lines item.1 ++ evidence_lines items

-- The evidence block, which an empty line precedes.
unfoldable pub evidence_block : List (ℕ × List Snippet) → List String
unfolding evidence_lines
evidence_block [] = []
evidence_block (item ∷ items) = "" ∷ evidence_lines (item ∷ items)

unfoldable pub suffix : Bool → String
suffix truncated = if truncated then "; raise --budget for more)" else ")"

unfoldable pub tokens_part : ℕ → ℕ → Bool → List String
unfolding show_commas suffix
tokens_part used budget truncated =
    "~" ∷ show_commas used ∷ "/" ∷ show_commas budget ∷ " tokens" ∷ suffix truncated ∷ []

unfoldable pub compact_output : List Scored → ℕ → ℕ → String
unfolding compact_admissions triple_lines evidence_block tokens_part
compact_output scored budget top_evidence_k =
    let p = compact_admissions scored budget top_evidence_k in
    let count = length p.triples in
    join "\n" (
      triple_lines scored (ids_of p.triples)
      ++ evidence_block p.evidence_admitted
      ++ ""
        ∷ concat (
            "(returned "
            ∷ show count
            ∷ "/"
            ∷ show (length scored)
            ∷ " triples, "
            ∷ tokens_part (budget - p.remaining) budget (ltb count (length scored)))
        ∷ [])

-- `if lines: lines.append("")`
unfoldable pub spaced : List String → List String
spaced [] = []
spaced (line ∷ lines) = (line ∷ lines) ++ "" ∷ []

unfoldable pub fts_fallback_output : List Snippet → ℕ → String
unfolding admit chunk_cost snippet_lines spaced tokens_part
fts_fallback_output chunks budget =
    let p = admit chunk_cost chunks budget in
    let admitted = length p.0 in
    join "\n" (
      spaced (snippet_lines p.0)
      ++ concat (
          "(returned 0/0 triples, "
          ∷ show admitted
          ∷ "/"
          ∷ show (length chunks)
          ∷ " FTS chunks, "
          ∷ tokens_part (budget - p.1) budget (ltb admitted (length chunks)))
        ∷ [])

-- The chunk section, after the lines before it.
unfoldable pub chunk_section : List String → List Snippet → List String
unfolding spaced snippet_lines
chunk_section lines [] = lines
chunk_section lines (chunk ∷ chunks) =
    spaced lines ++ "Relevant source chunks" ∷ snippet_lines (chunk ∷ chunks)

unfoldable pub fused_output : List Scored → List Snippet → ℕ → (ℕ → ℕ) → ℕ → String
unfolding fused_admissions triple_lines evidence_block chunk_section tokens_part
fused_output scored chunks budget chunk_share top_evidence_k =
    let p = fused_admissions scored chunks budget chunk_share top_evidence_k in
    let rids = ids_of p.first.triples ++ ids_of p.backfill in
    let triples = length rids in
    let admitted = length p.chunks in
    join "\n" (
      chunk_section (triple_lines scored rids ++ evidence_block p.first.evidence_admitted) p.chunks
      ++ ""
        ∷ concat (
            "(returned "
            ∷ show triples
            ∷ "/"
            ∷ show (length scored)
            ∷ " triples, "
            ∷ show admitted
            ∷ "/"
            ∷ show (length chunks)
            ∷ " FTS chunks, "
            ∷ tokens_part (budget - p.remaining) budget
                (ltb triples (length scored) || ltb admitted (length chunks)))
        ∷ [])
