-- ===== src/Retrieval/Chunks.antt =====
-- `_dedup_chunk_rows` and `_round_robin_by_source`: which chunks are shown, and in what order.
use membox.Base.{
  ℕ, zero, suc, ◌-◌, String, Bool, true, false, not, ◌&&◌, ◌||◌, Option, none, some, List, [], ◌∷◌,
  ◌++◌, ◌==◌, leb, ltb, if◌then◌else◌, take, length, same_text,
}
use membox.Base.Text.{is_empty}
use membox.Graph.Tables.{Document}

-- `if sp`
abbrev pub truthy : Option String → Bool
truthy none = false
truthy (some t) = not (is_empty t)

abbrev pub same_option : Option String → Option String → Bool
same_option none none = true
same_option none (some t) = false
same_option (some s) t = same_text t s

-- The keys `(sp, section)` or `("doc", doc_id)` of two rows are the same.
unfoldable pub same_key : Document → Document → Bool
same_key c d =
    if truthy c.source_path && truthy d.source_path
    then same_option c.source_path d.source_path && same_option c.section d.section
    else not (truthy c.source_path) && not (truthy d.source_path) && c.id == d.id

-- `int(version) if version is not None else 0`
abbrev pub version_of : Document → ℕ
version_of d = elim d.version [ none ↦ 0 | some v ↦ v ]

-- The values of `chosen` by `order`, which is the order of the keys' insertion.
unfoldable pub choose : Document → List Document → List Document
unfolding same_key
choose row [] = row ∷ []
choose row (c ∷ chosen) =
    let rest = choose row chosen in
    if same_key c row
    then (if ltb (version_of c) (version_of row) then row else c) ∷ chosen
    else c ∷ rest

unfoldable pub choose_all : List Document → List Document → List Document
unfolding choose
choose_all [] chosen = chosen
choose_all (row ∷ rows) chosen = choose_all rows (choose row chosen)

-- `source_path` is the key, or `(project, id)` where it is None.
unfoldable pub same_source : Document → Document → Bool
same_source c d = elim c.source_path [
  | some path ↦ same_text d.source_path path
  | none ↦ elim d.source_path [
    | some path ↦ false
    | none ↦ same_option c.project d.project && c.id == d.id
  ]
]

-- A bucket keeps the row that made it beside its rows.
abbrev pub Buckets : Type 0
Buckets = List (Document × List Document)

-- `buckets.setdefault(source_key, []).append(row)`
unfoldable pub put_bucket : Document → Buckets → Buckets
unfolding same_source
put_bucket row [] = (row, row ∷ []) ∷ []
put_bucket row (bucket ∷ buckets) =
    let rest = put_bucket row buckets in
    if same_source bucket.0 row then (bucket.0, bucket.1 ++ row ∷ []) ∷ buckets else bucket ∷ rest

unfoldable pub put_buckets : List Document → Buckets → Buckets
unfolding put_bucket
put_buckets [] buckets = buckets
put_buckets (row ∷ rows) buckets = put_buckets rows (put_bucket row buckets)

-- One round over the buckets, with room for so many rows: the rows popped and the buckets left. A
-- bucket that is found empty is dropped.
unfoldable pub robin_round : ℕ → Buckets → List Document × Buckets
robin_round zero buckets = ([], buckets)
robin_round (suc room) [] = ([], [])
robin_round (suc room) ((key, []) ∷ buckets) = robin_round (suc room) buckets
robin_round (suc room) ((key, row ∷ rows) ∷ buckets) =
    let rest = robin_round room buckets in (row ∷ rest.0, (key, rows) ∷ rest.1)

-- `while len(result) < limit and buckets`, on fuel.
unfoldable pub robin : ℕ → ℕ → Buckets → List Document
unfolding robin_round
robin zero room buckets = []
robin (suc fuel) zero buckets = []
robin (suc fuel) (suc room) [] = []
robin (suc fuel) (suc room) (bucket ∷ buckets) =
    let round = robin_round (suc room) (bucket ∷ buckets) in
    round.0 ++ robin fuel (suc room - length round.0) round.1

unfoldable pub round_robin_by_source : List Document → ℕ → List Document
unfolding put_buckets robin
round_robin_by_source rows limit =
    let buckets = put_buckets rows [] in
    if limit == 0 || leb (length rows) limit || leb (length buckets) 1
    then take limit rows
    else robin limit limit buckets
