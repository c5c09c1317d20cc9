-- ===== src/Retrieval/Budget.antt =====
-- What is admitted within a budget of tokens.
use membox.Base.{
  ℕ, ◌+◌, ◌-◌, ◌≤◌, Bool, ◌&&◌, List, [], ◌∷◌, ◌++◌, ◌==◌, leb, arith, ◌≡◌, leb→le, Bool-cases, inl,
  inr,
}
use membox.Graph.Relations.{id_in}
use membox.Retrieval.Knapsack.{
  Snippet, Scored, Pass, Fused, triple_cost, snippet_cost, chunk_cost, admit, ids_of, top_ids,
  put_evidence, put_some, admit_evidence, compact_admissions,
}

-- The tokens of a list.
abbrev pub total {ℓ} : {A : Type ℓ} → (A → ℕ) → List A → ℕ
total cost [] = 0
total cost (x ∷ xs) = cost x + total cost xs

module _ {ℓ} {A : Type ℓ} (cost : A → ℕ) where
  pub admit-total :
      (items : List A) (remaining : ℕ)
      → total cost (admit cost items remaining).0 + (admit cost items remaining).1 ≡ remaining
  unfolding admit
  admit-total [] remaining = omega arith
  admit-total (x ∷ xs) remaining = elim (Bool-cases (leb (cost x) remaining)) [
    | inl fits ↦
        ground (arith, fits, leb→le (cost x) remaining fits, admit-total xs (remaining - cost x))
    | inr over ↦ ground (arith, over, admit-total xs remaining)
  ]

  pub admit-le : (items : List A) (remaining : ℕ) → (admit cost items remaining).1 ≤ remaining
  admit-le items remaining = omega (arith, admit-total items remaining)

  pub total-append : (xs ys : List A) → total cost (xs ++ ys) ≡ total cost xs + total cost ys
  total-append [] ys = omega arith
  total-append (x ∷ xs) ys = omega (arith, total-append xs ys)

abbrev pub evidence_total : List (ℕ × List Snippet) → ℕ
evidence_total = total (λ item. total snippet_cost item.1)

evidence_total-put :
    (rid : ℕ) (snippets : List Snippet) (items : List (ℕ × List Snippet))
    → evidence_total (put_evidence rid snippets items)
      ≤ evidence_total items + total snippet_cost snippets
unfolding put_evidence
evidence_total-put rid snippets [] = omega arith
evidence_total-put rid snippets (item ∷ items) = elim (Bool-cases (item.0 == rid)) [
  | inl same ↦ ground (arith, same)
  | inr other ↦ ground (arith, other, evidence_total-put rid snippets items)
]

evidence_total-put_some :
    (rid : ℕ) (snippets : List Snippet) (items : List (ℕ × List Snippet))
    → evidence_total (put_some rid snippets items)
      ≤ evidence_total items + total snippet_cost snippets
unfolding put_some
evidence_total-put_some rid [] items = omega arith
evidence_total-put_some rid (ev ∷ evs) items = evidence_total-put rid (ev ∷ evs) items

admit_evidence-total :
    (eligible : ℕ → Bool) (items : List Scored) (admitted : List (ℕ × List Snippet)) (remaining : ℕ)
    → evidence_total (admit_evidence eligible items (admitted, remaining)).0
        + (admit_evidence eligible items (admitted, remaining)).1
      ≤ evidence_total admitted + remaining
unfolding admit_evidence
admit_evidence-total eligible [] admitted remaining = omega arith
admit_evidence-total eligible (item ∷ items) admitted remaining =
    let snippets = admit snippet_cost item.evidence remaining in
    elim (Bool-cases (eligible item.relation_id)) [
      | inl on ↦ ground (
        arith,
        on,
        admit_evidence-total eligible items (put_some item.relation_id snippets.0 admitted)
            snippets.1,
        evidence_total-put_some item.relation_id snippets.0 admitted,
        admit-total snippet_cost item.evidence remaining,
      )
      | inr off ↦ ground (arith, off, admit_evidence-total eligible items admitted remaining)
    ]

-- The tokens of the triples and of the evidence that `compact_output` renders, with what remains, are
-- at most the budget.
pub compact_admissions-within :
    (scored : List Scored) (budget top_evidence_k : ℕ)
    → total triple_cost (compact_admissions scored budget top_evidence_k).triples
        + evidence_total (compact_admissions scored budget top_evidence_k).evidence_admitted
        + (compact_admissions scored budget top_evidence_k).remaining
      ≤ budget
unfolding compact_admissions
compact_admissions-within scored budget top_evidence_k =
    let admitted = admit triple_cost scored budget in
    omega (
      arith,
      admit-total triple_cost scored budget,
      admit_evidence-total
          (λ rid. id_in (top_ids top_evidence_k scored) rid && id_in (ids_of admitted.0) rid) scored
          [] admitted.1,
    )

-- The tokens that a pass has given out, with what it has left.
abbrev pub spent : Pass → ℕ
spent p = total triple_cost p.triples + evidence_total p.evidence_admitted + p.remaining

-- The tokens of what `fused_output` renders, with what remains.
abbrev pub fused_total : Fused → ℕ
fused_total f =
    total triple_cost f.first.triples
    + evidence_total f.first.evidence_admitted
    + total chunk_cost f.chunks
    + total triple_cost f.backfill
    + f.remaining
