-- ===== src/Retrieval/Selection.antt =====
-- What is admitted and what is left out.
use membox.Base.{
  ℕ, ◌+◌, ◌-◌, ◌≤◌, Bool, true, false, not, ◌&&◌, ◌||◌, List, [], ◌∷◌, ◌++◌, ◌==◌, leb, ltb,
  if◌then◌else◌, any_of, any_of-append, all_of, map, select, arith, ◌≡◌, refl, Bool-cases, inl, inr,
}
use membox.Graph.Relations.{id_in}
use membox.Retrieval.Knapsack.{
  Snippet, Scored, Pass, triple_cost, snippet_cost, chunk_cost, admit, ids_of, top_ids,
  put_evidence, put_some, attach_evidence, admit_triple, admit_triples, first_pass, chunk_reserve,
  fused_admissions,
}
use membox.Retrieval.Budget.{admit-le}

module _ {ℓ} {A : Type ℓ} where
  all_of-select : (test : A → Bool) (xs : List A) → all_of test (select test xs) ≡ true
  all_of-select test [] = refl
  all_of-select test (x ∷ xs) = ground (arith, all_of-select test xs)

  all_of_mono :
      (f g : A → Bool) (xs : List A)
      → ((x : A) → f x ≡ true → g x ≡ true)
      → all_of f xs ≡ true
      → all_of g xs ≡ true
  all_of_mono f g [] m h = refl
  all_of_mono f g (x ∷ xs) m h = ground (arith, m x, all_of_mono f g xs m)

  all_of-admit :
      (test : A → Bool) (cost : A → ℕ) (xs : List A) (remaining : ℕ)
      → all_of test xs ≡ true
      → all_of test (admit cost xs remaining).0 ≡ true
  unfolding admit
  all_of-admit test cost [] remaining h = refl
  all_of-admit test cost (x ∷ xs) remaining h = elim (Bool-cases (leb (cost x) remaining)) [
    | inl fits ↦ ground (arith, fits, all_of-admit test cost xs (remaining - cost x))
    | inr over ↦ ground (arith, over, all_of-admit test cost xs remaining)
  ]

-- The item was admitted, or its line does not fit.
abbrev pub taken_or_over : List ℕ → ℕ → Scored → Bool
taken_or_over rids remaining item = id_in rids item.relation_id || ltb remaining (triple_cost item)

over-lt :
    (cost remaining left : ℕ) → left ≤ remaining → leb cost remaining ≡ false → ltb left cost ≡ true
over-lt cost remaining left le over = ground arith

admit-greedy :
    (items : List Scored) (remaining : ℕ)
    → all_of
        (taken_or_over
          (ids_of (admit triple_cost items remaining).0)
          (admit triple_cost items remaining).1)
        items
      ≡ true
unfolding admit
admit-greedy [] remaining = refl
admit-greedy (x ∷ xs) remaining = elim (Bool-cases (leb (triple_cost x) remaining)) [
  | inl fits ↦
      let rest = admit triple_cost xs (remaining - triple_cost x) in
      ground (
        arith,
        fits,
        all_of_mono (taken_or_over (ids_of rest.0) rest.1)
            (taken_or_over (x.relation_id ∷ ids_of rest.0) rest.1) xs (λ item h. ground (arith, h))
            (admit-greedy xs (remaining - triple_cost x)),
      )
  | inr over ↦ ground (
    arith,
    over,
    over-lt (triple_cost x) remaining (admit triple_cost xs remaining).1
        (admit-le triple_cost xs remaining) over,
    admit-greedy xs remaining,
  )
]

-- What is admitted of a selection, beside what the selection leaves out.
greedy-beside :
    (before after : List ℕ) (remaining : ℕ) (items : List Scored)
    → all_of
        (taken_or_over after remaining)
        (select (λ item. not (id_in before item.relation_id)) items)
      ≡ true
    → all_of (taken_or_over (before ++ after) remaining) items ≡ true
greedy-beside before after remaining [] h = refl
greedy-beside before after remaining (x ∷ xs) h = ground (
  arith,
  any_of-append (λ j. j == x.relation_id) before after,
  greedy-beside before after remaining xs,
)

-- A triple that `fused_output` leaves out would not fit into the tokens that remain.
pub fused_admissions-greedy :
    (scored : List Scored) (chunks : List Snippet) (budget : ℕ) (chunk_share : ℕ → ℕ)
    (top_evidence_k : ℕ)
    → (let f = fused_admissions scored chunks budget chunk_share top_evidence_k in
        all_of (taken_or_over (ids_of f.first.triples ++ ids_of f.backfill) f.remaining) scored)
      ≡ true
unfolding fused_admissions
fused_admissions-greedy scored chunks budget chunk_share top_evidence_k =
    let reserve = chunk_reserve budget chunk_share in
    let first = first_pass top_evidence_k scored (budget - reserve) in
    let second =
      admit chunk_cost (select (λ chunk. not (id_in first.evidence_doc_ids chunk.doc_id)) chunks)
        (reserve + first.remaining) in
    let left = select (λ item. not (id_in (ids_of first.triples) item.relation_id)) scored in
    let third = admit triple_cost left second.1 in
    greedy-beside (ids_of first.triples) (ids_of third.0) third.1 scored
      (admit-greedy left second.1)

-- The document is emitted as evidence.
abbrev pub emitted : List (ℕ × List Snippet) → ℕ → Bool
emitted items doc_id = any_of (λ item. id_in (map (λ ev. ev.doc_id) item.1) doc_id) items

emitted-put :
    (rid doc_id : ℕ) (snippets : List Snippet) (items : List (ℕ × List Snippet))
    → emitted (put_evidence rid snippets items) doc_id ≡ true
    → (emitted items doc_id || id_in (map (λ ev. ev.doc_id) snippets) doc_id) ≡ true
unfolding put_evidence
emitted-put rid doc_id snippets [] h = ground arith
emitted-put rid doc_id snippets (item ∷ items) h = elim (Bool-cases (item.0 == rid)) [
  | inl same ↦ ground (arith, same)
  | inr other ↦ ground (arith, other, emitted-put rid doc_id snippets items)
]

emitted-put_some :
    (rid doc_id : ℕ) (snippets : List Snippet) (items : List (ℕ × List Snippet))
    → emitted (put_some rid snippets items) doc_id ≡ true
    → (emitted items doc_id || id_in (map (λ ev. ev.doc_id) snippets) doc_id) ≡ true
unfolding put_some
emitted-put_some rid doc_id [] items h = ground (arith, h)
emitted-put_some rid doc_id (ev ∷ evs) items h = emitted-put rid doc_id (ev ∷ evs) items h

-- What is emitted is recorded.
abbrev recorded : Pass → ℕ → Bool
recorded p doc_id =
    if emitted p.evidence_admitted doc_id then id_in p.evidence_doc_ids doc_id else true

recorded-attach :
    (eligible : Bool) (item : Scored) (p : Pass) (doc_id : ℕ)
    → recorded p doc_id ≡ true
    → recorded (attach_evidence eligible item p) doc_id ≡ true
unfolding attach_evidence
recorded-attach false item p doc_id h = h
recorded-attach true item p doc_id h =
    let snippets = admit snippet_cost item.evidence p.remaining in
    ground (
      arith,
      h,
      emitted-put_some item.relation_id doc_id snippets.0 p.evidence_admitted,
      any_of-append (λ j. j == doc_id) p.evidence_doc_ids (map (λ ev. ev.doc_id) snippets.0),
    )

recorded-admit_triple :
    (top_k : List ℕ) (item : Scored) (p : Pass) (doc_id : ℕ)
    → recorded p doc_id ≡ true
    → recorded (admit_triple top_k item p) doc_id ≡ true
unfolding admit_triple
recorded-admit_triple top_k item p doc_id h =
    elim (Bool-cases (leb (triple_cost item) p.remaining)) [
      | inl fits ↦
          let taken = record p {
            triples = p.triples ++ item ∷ [];
            remaining = p.remaining - triple_cost item;
          } in
          ground (arith, fits, recorded-attach (id_in top_k item.relation_id) item taken doc_id h)
      | inr over ↦ ground (arith, over, h)
    ]

recorded-admit_triples :
    (top_k : List ℕ) (items : List Scored) (p : Pass) (doc_id : ℕ)
    → recorded p doc_id ≡ true
    → recorded (admit_triples top_k items p) doc_id ≡ true
unfolding admit_triples
recorded-admit_triples top_k [] p doc_id h = h
recorded-admit_triples top_k (item ∷ items) p doc_id h =
    recorded-admit_triples top_k items (admit_triple top_k item p) doc_id
      (recorded-admit_triple top_k item p doc_id h)

-- No chunk that `fused_output` renders is a document that it has emitted as evidence, and no triple of
-- the backfill is one of the first pass.
pub fused_admissions-once :
    (scored : List Scored) (chunks : List Snippet) (budget : ℕ) (chunk_share : ℕ → ℕ)
    (top_evidence_k : ℕ)
    → (let f = fused_admissions scored chunks budget chunk_share top_evidence_k in
        all_of (λ chunk. not (emitted f.first.evidence_admitted chunk.doc_id)) f.chunks
        && all_of (λ item. not (id_in (ids_of f.first.triples) item.relation_id)) f.backfill)
      ≡ true
unfolding fused_admissions
fused_admissions-once scored chunks budget chunk_share top_evidence_k =
    let reserve = chunk_reserve budget chunk_share in
    let top_k = top_ids top_evidence_k scored in
    let nothing : Pass = record {
      triples = [];
      evidence_admitted = [];
      evidence_doc_ids = [];
      remaining = budget - reserve;
    } in
    let first = first_pass top_evidence_k scored (budget - reserve) in
    let unseen : Snippet → Bool = λ chunk. not (id_in first.evidence_doc_ids chunk.doc_id) in
    let unemitted : Snippet → Bool = λ chunk. not (emitted first.evidence_admitted chunk.doc_id) in
    let new : Scored → Bool = λ item. not (id_in (ids_of first.triples) item.relation_id) in
    let second = admit chunk_cost (select unseen chunks) (reserve + first.remaining) in
    ground (
      arith,
      all_of_mono unseen unemitted second.0
          (λ chunk h.
            ground (arith, h, recorded-admit_triples top_k scored nothing chunk.doc_id refl))
          (all_of-admit unseen chunk_cost (select unseen chunks) (reserve + first.remaining)
            (all_of-select unseen chunks)),
      all_of-admit new triple_cost (select new scored) second.1 (all_of-select new scored),
    )
