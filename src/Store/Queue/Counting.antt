-- ===== src/Store/Queue/Counting.antt =====
-- How the operations on one row move the counts of the statuses.
use membox.Base.{
  ℕ, ◌+◌, ◌≡◌, ◌≢◌, refl, Bool, true, false, some, List, [], ◌∷◌, arith, String, ◌==◌,
  if◌then◌else◌, All, count_where, update_where, Bool-cases, inl, inr, length,
}
use membox.Store.Queue.{
  Row, Store, has_id, is_pending, is_failed, is_processing, is_done, claim, claim_row,
  oldest_pending, mark_done, mark_failed, finish, fail, retry_failed, is_retryable, reopen,
  queue_counts, pending_ingest_count, is_outstanding,
}
use membox.Store.Queue.Rows.{row_at, Distinct, row_at-oldest_pending, oldest_pending-least}

abbrev bit : Bool → ℕ
bit b = if b then 1 else 0

update_absent :
    (change : Row → Row) (i : ℕ) (rows : List Row)
    → All (λ q. i ≢ q.id) rows
    → update_where (has_id i) change rows ≡ rows
update_absent change i [] h = refl
update_absent change i (r ∷ rows) h = ground (arith, update_absent change i rows h.1, h.0)

-- Changing the one row with an id moves a count by what the change does to that row.
pub count-change :
    (test : Row → Bool) (change : Row → Row) (i : ℕ) (rows : List Row) {r : Row}
    → Distinct rows
    → row_at i rows ≡ some r
    → count_where test (update_where (has_id i) change rows) + bit (test r)
      ≡ count_where test rows + bit (test (change r))
count-change test change i [] d e = cc
count-change test change i (q ∷ rows) {r} d e = elim (Bool-cases (q.id == i)) [
  | inl here ↦
      let same : q ≡ r = ground arith in
      let id : q.id ≡ i = ground arith in
      let rest : update_where (has_id i) change rows ≡ rows =
        rw (← id) (update_absent change q.id rows d.0) in
      rw (here, rest, same) (omega arith)
  | inr there ↦ rw there (omega (arith, count-change test change i rows d.1 (rw there at e)))
]

abbrev pub pending_rows : Store → ℕ
pending_rows s = count_where is_pending s.ingest_queue

abbrev pub processing_rows : Store → ℕ
processing_rows s = count_where is_processing s.ingest_queue

abbrev pub done_rows : Store → ℕ
done_rows s = count_where is_done s.ingest_queue

abbrev pub failed_rows : Store → ℕ
failed_rows s = count_where is_failed s.ingest_queue

pub count-none_pending :
    (rows : List Row) → All (λ q. is_pending q ≡ false) rows → count_where is_pending rows ≡ 0
count-none_pending [] h = refl
count-none_pending (r ∷ rows) h = ground (arith, h.0, count-none_pending rows h.1)

-- A claimed row is no longer pending but in hand.
pub count-claim_row :
    (now : ℕ) (s : Store) {r : Row}
    → Distinct s.ingest_queue
    → oldest_pending s.ingest_queue ≡ some r
    → let s' = (claim_row now (some r) s).1 in
      (pending_rows s' + 1 ≡ pending_rows s)
      × (processing_rows s' ≡ processing_rows s + 1)
      × (done_rows s' ≡ done_rows s)
      × (failed_rows s' ≡ failed_rows s)
unfolding claim_row
count-claim_row now s {r} d e =
    let there = row_at-oldest_pending s.ingest_queue d e in
    let wait = (oldest_pending-least s.ingest_queue e).0 in
    let move = λ (test : Row → Bool). count-change test (claim now) r.id s.ingest_queue d there in
    (
      ground (arith, move is_pending, wait),
      ground (arith, move is_processing, wait),
      ground (arith, move is_done, wait),
      ground (arith, move is_failed, wait),
    )

module _ (now i : ℕ) (s : Store) {r : Row} (d : Distinct s.ingest_queue) where
  -- A row in hand that is marked done, or failed, leaves the rows in hand.
  pub count-mark_done :
      row_at i s.ingest_queue ≡ some r
      → is_processing r ≡ true
      → let s' = mark_done now i s in
        (pending_rows s' ≡ pending_rows s)
        × (processing_rows s' + 1 ≡ processing_rows s)
        × (done_rows s' ≡ done_rows s + 1)
        × (failed_rows s' ≡ failed_rows s)
  unfolding mark_done
  count-mark_done there busy =
      let move = λ (test : Row → Bool). count-change test (finish now) i s.ingest_queue d there in
      (
        ground (arith, move is_pending, busy),
        ground (arith, move is_processing, busy),
        ground (arith, move is_done, busy),
        ground (arith, move is_failed, busy),
      )

  pub count-mark_failed :
      (message : String)
      → row_at i s.ingest_queue ≡ some r
      → is_processing r ≡ true
      → let s' = mark_failed now i message s in
        (pending_rows s' ≡ pending_rows s)
        × (processing_rows s' + 1 ≡ processing_rows s)
        × (done_rows s' ≡ done_rows s)
        × (failed_rows s' ≡ failed_rows s + 1)
  unfolding mark_failed
  count-mark_failed message there busy =
      let move =
        λ (test : Row → Bool). count-change test (fail now message) i s.ingest_queue d there in
      (
        ground (arith, move is_pending, busy),
        ground (arith, move is_processing, busy),
        ground (arith, move is_done, busy),
        ground (arith, move is_failed, busy),
      )

count-reopen :
    (n : ℕ) (rows : List Row)
    → let after = update_where (is_retryable n) reopen rows in
      let moved = count_where (is_retryable n) rows in
      (count_where is_pending after ≡ count_where is_pending rows + moved)
      × (count_where is_processing after ≡ count_where is_processing rows)
      × (count_where is_done after ≡ count_where is_done rows)
      × (count_where is_failed after + moved ≡ count_where is_failed rows)
      × (count_where (is_retryable n) after ≡ 0)
unfolding is_retryable reopen
count-reopen n [] = (refl, refl, refl, refl, refl)
count-reopen n (r ∷ rows) = ground (arith, count-reopen n rows)

-- `retry_failed` returns the number of rows that it moved from failed to pending, leaves no failed
-- row below the ceiling, and moves no other.
pub retry_failed-counts :
    (n : ℕ) (s : Store)
    → let (moved, s') = retry_failed n s in
      (pending_rows s' ≡ pending_rows s + moved)
      × (processing_rows s' ≡ processing_rows s)
      × (done_rows s' ≡ done_rows s)
      × (failed_rows s' + moved ≡ failed_rows s)
      × (count_where (is_retryable n) s'.ingest_queue ≡ 0)
unfolding retry_failed
retry_failed-counts n s = count-reopen n s.ingest_queue

count-partition :
    (rows : List Row)
    → (count_where is_pending rows
          + count_where is_processing rows
          + count_where is_done rows
          + count_where is_failed rows
        ≡ length rows)
      × (count_where is_outstanding rows
          ≡ count_where is_pending rows + count_where is_processing rows)
count-partition [] = (refl, refl)
count-partition (r ∷ rows) = ground (arith, count-partition rows)

-- The counts that `queue` shows add up to the number of rows, and the pending count of the query
-- footer is the pending rows and those in hand.
pub queue_counts-partition :
    (s : Store)
    → let c = queue_counts s in
      (c.pending_rows + c.processing_rows + c.done_rows + c.failed_rows ≡ length s.ingest_queue)
      × (pending_ingest_count s ≡ c.pending_rows + c.processing_rows)
unfolding queue_counts pending_ingest_count
queue_counts-partition s = count-partition s.ingest_queue
