-- ===== src/Store/Queue/Rows.antt =====
-- Rows of the queue by id: what an UPDATE does to them.
use mathlib.Core.Option
use mathlib.Core.Path.{subst}
use membox.Base.{
  ℕ, ◌≤◌, ◌<◌, ◌≡◌, ◌≢◌, refl, Bool, true, false, Option, none, some, List, [], ◌∷◌, arith, ◌==◌,
  if◌then◌else◌, All, first_where, update_where, Bool-cases, Option-cases, All-mono, inl, inr,
}
use membox.Store.Queue.{Row, has_id, is_pending, oldest_pending}

-- The row with an id.
abbrev pub row_at : ℕ → List Row → Option Row
row_at i = first_where (has_id i)

abbrev pub Distinct : List Row → Type 0
Distinct [] = Unit
Distinct (r ∷ rows) = All (λ q. r.id ≢ q.id) rows × Distinct rows

abbrev pub patch : (Row → Bool) → (Row → Row) → Row → Row
patch test change r = if test r then change r else r

module _ (test : Row → Bool) (change : Row → Row) (same : (r : Row) → (change r).id ≡ r.id) where
  pub row_at-update_where :
      (j : ℕ) (rows : List Row)
      → row_at j (update_where test change rows) ≡ Option.map (patch test change) (row_at j rows)
  row_at-update_where j [] = refl
  row_at-update_where j (r ∷ rows) = ground (arith, same r, row_at-update_where j rows)

  All-update_where :
      (P : ℕ → Type 0) (rows : List Row)
      → All (λ q. P q.id) rows
      → All (λ q. P q.id) (update_where test change rows)
  All-update_where P [] h = tt
  All-update_where P (r ∷ rows) h = elim (Bool-cases (test r)) [
    | inl e ↦ rw e ((rw (same r) h.0), All-update_where P rows h.1)
    | inr e ↦ rw e (h.0, All-update_where P rows h.1)
  ]

  pub Distinct-update_where :
      (rows : List Row) → Distinct rows → Distinct (update_where test change rows)
  Distinct-update_where [] h = tt
  Distinct-update_where (r ∷ rows) h = elim (Bool-cases (test r)) [
    | inl e ↦
        rw (e, same r) (All-update_where (λ i. r.id ≢ i) rows h.0, Distinct-update_where rows h.1)
    | inr e ↦ rw e (All-update_where (λ i. r.id ≢ i) rows h.0, Distinct-update_where rows h.1)
  ]

  pub Below-update_where :
      (n : ℕ) (rows : List Row)
      → All (λ q. q.id < n) rows
      → All (λ q. q.id < n) (update_where test change rows)
  Below-update_where n = All-update_where (λ i. i < n)

-- What an id satisfies, a row found by it satisfies.
pub All-row_at {ℓ} :
    (P : Row → Type ℓ) (j : ℕ) (rows : List Row) {q : Row}
    → All P rows
    → row_at j rows ≡ some q
    → P q × (q.id ≡ j)
All-row_at P j [] h e = cc
All-row_at P j (r ∷ rows) {q} h e = elim (Bool-cases (r.id == j)) [
  | inl found ↦ let same : r ≡ q = ground arith in (subst P same h.0, ground arith)
  | inr other ↦ All-row_at P j rows h.1 (rw other at e)
]

pub oldest_pending-none :
    (rows : List Row) → oldest_pending rows ≡ none → All (λ q. is_pending q ≡ false) rows
unfolding oldest_pending
oldest_pending-none [] e = tt
oldest_pending-none (q ∷ rows) e = (ground arith, oldest_pending-none rows (ground arith))

pub oldest_pending-least :
    (rows : List Row) {r : Row}
    → oldest_pending rows ≡ some r
    → (is_pending r ≡ true) × All (λ q. is_pending q ≡ true → r.id ≤ q.id) rows
unfolding oldest_pending
oldest_pending-least [] e = cc
oldest_pending-least (q ∷ rows) {r} e = elim (Option-cases (oldest_pending rows)) [
  | inl nothing ↦
      let first : (is_pending q ≡ true) × (q ≡ r) = ground arith in
      (
        subst (λ x. is_pending x ≡ true) first.1 first.0,
        (
          ground arith,
          All-mono (λ x. is_pending x ≡ false) (λ x. is_pending x ≡ true → r.id ≤ x.id) rows
              (λ x no_wait wait. cc) (oldest_pending-none rows nothing),
        ),
      )
  | inr (t, found) ↦
      let later = oldest_pending-least rows found in
      (
        ground arith,
        (
          ground arith,
          All-mono (λ x. is_pending x ≡ true → t.id ≤ x.id) (λ x. is_pending x ≡ true → r.id ≤ x.id)
              rows (λ x le wait. ground (arith, le wait)) later.1,
        ),
      )
]

pub row_at-oldest_pending :
    (rows : List Row) {r : Row}
    → Distinct rows
    → oldest_pending rows ≡ some r
    → row_at r.id rows ≡ some r
unfolding oldest_pending
row_at-oldest_pending [] d e = cc
row_at-oldest_pending (q ∷ rows) {r} d e = elim (Option-cases (oldest_pending rows)) [
  | inl nothing ↦ ground arith
  | inr (t, found) ↦
      let there = row_at-oldest_pending rows d.1 found in
      let apart = All-row_at (λ x. q.id ≢ x.id) t.id rows d.0 there in ground (arith, apart.0)
]
