-- ===== src/Store/Queue/Claim.antt =====
-- `claim_next_pending`, `mark_done`, `mark_failed`, `retry_failed` and the counts, row by row.
use mathlib.Core.Option
use membox.Base.{
  not, ◌||◌, leb, ℕ, ◌≡◌, refl, true, Option, some, List, [], ◌∷◌, arith, ◌==◌, if◌then◌else◌, All,
  update_where,
}
use membox.Store.Queue.{
  Row, Store, QueueItem, has_id, is_pending, item_of, claim, claim_row, claim_next_pending,
  oldest_pending,
}
use membox.Store.Queue.Rows.{row_at, Distinct, row_at-oldest_pending}

-- What a successful claim did to the store.
pub record Claimed (now : ℕ) (s : Store) (item : QueueItem) (s' : Store) : Type 0 where
  pub row : Row
  pub found : row_at item.id s.ingest_queue ≡ some row
  pub waiting : is_pending row ≡ true
  pub returned : item ≡ item_of row
  pub rows :
      (j : ℕ)
      → row_at j s'.ingest_queue
        ≡ (if item.id == j then some (claim now row) else row_at j s.ingest_queue)
  pub oldest : All (λ q. not (is_pending q) || leb item.id q.id ≡ true) s.ingest_queue

module _ (change : Row → Row) (same : (r : Row) → (change r).id ≡ r.id) (i : ℕ) where
  pub row_at-change :
      (j : ℕ) (rows : List Row)
      → row_at j (update_where (has_id i) change rows)
        ≡ (if i == j then Option.map change (row_at j rows) else row_at j rows)
  row_at-change j [] = ground arith
  row_at-change j (r ∷ rows) = ground (arith, same r, row_at-change j rows)

pub row_at-claim_row :
    (now : ℕ) (s : Store) (r : Row)
    → Distinct s.ingest_queue
    → oldest_pending s.ingest_queue ≡ some r
    → row_at r.id (claim_row now (some r) s).1.ingest_queue ≡ some (claim now r)
unfolding claim_row
row_at-claim_row now s r d e =
    let stored = row_at-oldest_pending s.ingest_queue d e in
    ground (arith, row_at-change (claim now) (λ q. refl) r.id r.id s.ingest_queue, stored)

pub claim_next_pending-eq :
    (now : ℕ) (s : Store) {o : Option Row}
    → oldest_pending s.ingest_queue ≡ o
    → claim_next_pending now s ≡ claim_row now o s
unfolding claim_next_pending
claim_next_pending-eq now s e = rw e
