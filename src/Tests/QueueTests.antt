-- ===== src/Tests/QueueTests.antt =====
-- The queue on a table with a row of each status.
use Prim.Native.Nat.{◌+◌}
use membox.Base.{true, ℕ, ◌≡◌, refl, arith, none, some, [], ◌∷◌, length, count_where}
use membox.Store.Queue.{
  mark_done, Status, Row, Store, pending, processing, done, failed, is_retryable, oldest_pending,
  claim_row, item_of, claim, older, claim_next_pending, retry_failed, reopen, queue_counts,
  pending_ingest_count, mark_failed, fail,
}
use membox.Store.Queue.Rows.{row_at, Distinct}
use membox.Store.Queue.Counting.{
  pending_rows, processing_rows, done_rows, failed_rows, retry_failed-counts,
  queue_counts-partition,
}
use membox.Store.Queue.Consistency.{consistent, Reach-consistent}
use membox.Store.Queue.History.{
  complete, retry, Reach, here, next, claim_one, give_up, IsWellFormed, Kept, Reach-IsWellFormed,
  Reach-Kept,
}

abbrev pub row_of : ℕ → Status → ℕ → Row
row_of id status retries = record {
  id = id;
  content = "a note";
  project = some "membox";
  source_path = none;
  doc_date = none;
  status = status;
  retries = retries;
  error = none;
  enqueued_at = 10;
  started_at = none;
  finished_at = none;
}

abbrev pub mixed : Store
mixed = record {
  ingest_queue =
      row_of 1 done 0
      ∷ row_of 2 failed 1
      ∷ row_of 3 processing 0
      ∷ row_of 4 pending 0
      ∷ row_of 5 pending 0
      ∷ [];
  next_id = 6;
  meta = [];
}

pub mixed-Distinct : Distinct mixed.ingest_queue
mixed-Distinct = ground arith

pub mixed-IsWellFormed : IsWellFormed mixed
mixed-IsWellFormed = record { distinct = mixed-Distinct; below = ground arith }

claimed_first : (claim_next_pending 20 mixed).0 ≡ some (item_of (row_of 4 pending 0))
unfolding claim_next_pending oldest_pending older claim_row item_of
claimed_first = refl

abbrev retried : ℕ × Store
retried = retry_failed 3 mixed

retry_failed-counts_run :
    (pending_rows retried.1 ≡ pending_rows mixed + retried.0)
    × (processing_rows retried.1 ≡ processing_rows mixed)
    × (done_rows retried.1 ≡ done_rows mixed)
    × (failed_rows retried.1 + retried.0 ≡ failed_rows mixed)
    × (count_where (is_retryable 3) retried.1.ingest_queue ≡ 0)
retry_failed-counts_run = retry_failed-counts 3 mixed

retried_one : retried.0 ≡ 1
unfolding retry_failed is_retryable reopen
retried_one = refl

queue_counts-partition_run :
    ((queue_counts mixed).pending_rows
        + (queue_counts mixed).processing_rows
        + (queue_counts mixed).done_rows
        + (queue_counts mixed).failed_rows
      ≡ length mixed.ingest_queue)
    × (pending_ingest_count mixed
        ≡ (queue_counts mixed).pending_rows + (queue_counts mixed).processing_rows)
queue_counts-partition_run = queue_counts-partition mixed

abbrev given_up : Store
given_up = mark_failed 30 4 "boom" (claim_next_pending 20 mixed).1

run : Reach mixed given_up
run = next (next here (claim_one 20 mixed)) (give_up 30 4 "boom" (claim_next_pending 20 mixed).1)

Reach-IsWellFormed_run : IsWellFormed given_up
Reach-IsWellFormed_run = Reach-IsWellFormed mixed-IsWellFormed run

-- A row in hand, a failed one and a done one, with what their statuses say.
abbrev stamped : Store
stamped = record mixed {
  ingest_queue =
      record (row_of 1 processing 0) { started_at = some 11 }
      ∷ record (row_of 2 failed 1) {
        error = some "boom";
        started_at = some 12;
        finished_at = some 13;
      }
      ∷ record (row_of 3 done 1) { started_at = some 14; finished_at = some 15 }
      ∷ row_of 4 pending 0
      ∷ [];
}

-- The failed row is opened again, the next claim takes it, and it is done at last.
abbrev reopened : Store
reopened = (retry_failed 3 stamped).1

abbrev claimed_again : Store
claimed_again = (claim_next_pending 20 reopened).1

Reach-consistent_example : consistent (mark_done 30 2 claimed_again) ≡ true
Reach-consistent_example = Reach-consistent refl (
    next (next (next here (retry 3 stamped)) (claim_one 20 reopened)) (complete 30 2 claimed_again))

Reach-Kept_example :
    (r' : Row) × (row_at 4 given_up.ingest_queue ≡ some r') × Kept (row_of 4 pending 0) r'
Reach-Kept_example = Reach-Kept 4 (row_of 4 pending 0) refl run

failed_after_run :
    row_at 4 given_up.ingest_queue ≡ some (fail 30 "boom" (claim 20 (row_of 4 pending 0)))
unfolding claim_next_pending oldest_pending older claim_row mark_failed fail claim
failed_after_run = refl
