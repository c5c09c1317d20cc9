-- ===== src/Store/Queue.antt =====
-- core/store/queue.py: the `ingest_queue` table with its statuses, and the worker lease in `meta`.
-- An operation that writes returns the new store beside its result.
pub mod Rows
pub mod Claim
pub mod Counting
pub mod History
pub mod Exclusion
pub mod Consistency
use membox.Base.{
  ℕ, ◌+◌, ◌*◌, String, Bool, true, false, not, ◌&&◌, Option, none, some, List, [], ◌∷◌, ◌++◌, ltb,
  ◌==◌, if◌then◌else◌, count_where, update_where,
}
use membox.Store.Meta
use membox.Store.Leases.{
  Value, Process, Lease, second, render_lease, parse_lease, lease_is_live, lease_is_mine,
}

pub data Status : Type 0 where
  pending processing done failed : Status

pub record Row : Type 0 where
  pub id : ℕ
  pub content : String
  pub project : Option String
  pub source_path : Option String
  pub doc_date : Option String
  pub status : Status
  pub retries : ℕ
  pub error : Option String
  pub enqueued_at : ℕ
  pub started_at : Option ℕ
  pub finished_at : Option ℕ

-- What `claim_next_pending` hands to the worker.
pub record QueueItem : Type 0 where
  pub id : ℕ
  pub content : String
  pub project : Option String
  pub source_path : Option String
  pub doc_date : Option String
  pub retries : ℕ

-- `next_id` is the AUTOINCREMENT counter of the table.
pub record Store : Type 0 where
  pub ingest_queue : List Row
  pub next_id : ℕ
  pub meta : List (String × Value)

abbrev pub lease_key : String
lease_key = "worker_lease"

abbrev pub default_lease_ttl : ℕ
default_lease_ttl = 60 * second

abbrev pub default_max_retries : ℕ
default_max_retries = 3

abbrev pub is_pending : Row → Bool
is_pending r = elim r.status [ pending ↦ true | _ ↦ false ]

abbrev pub is_processing : Row → Bool
is_processing r = elim r.status [ processing ↦ true | _ ↦ false ]

abbrev pub is_done : Row → Bool
is_done r = elim r.status [ done ↦ true | _ ↦ false ]

abbrev pub is_failed : Row → Bool
is_failed r = elim r.status [ failed ↦ true | _ ↦ false ]

abbrev pub has_id : ℕ → Row → Bool
has_id i r = r.id == i

unfoldable pub enqueue_ingest :
    ℕ → String → Option String → Option String → Option String → Store → ℕ × Store
enqueue_ingest now content project source_path doc_date s = (
  s.next_id,
  record s {
    ingest_queue =
        s.ingest_queue
        ++ record {
          id = s.next_id;
          content = content;
          project = project;
          source_path = source_path;
          doc_date = doc_date;
          status = pending;
          retries = 0;
          error = none;
          enqueued_at = now;
          started_at = none;
          finished_at = none;
        }
          ∷ [];
    next_id = s.next_id + 1;
  },
)

-- The smaller id of two rows, the second of which may be missing.
unfoldable pub older : Row → Option Row → Row
older r none = r
older r (some q) = if ltb q.id r.id then q else r

-- `SELECT … WHERE status = 'pending' ORDER BY id LIMIT 1`
unfoldable pub oldest_pending : List Row → Option Row
unfolding older
oldest_pending [] = none
oldest_pending (r ∷ rows) =
    let rest = oldest_pending rows in if is_pending r then some (older r rest) else rest

unfoldable pub item_of : Row → QueueItem
item_of r = record {
  id = r.id;
  content = r.content;
  project = r.project;
  source_path = r.source_path;
  doc_date = r.doc_date;
  retries = r.retries;
}

unfoldable pub claim : ℕ → Row → Row
claim now r = record r { status = processing; started_at = some now }

-- The UPDATE of one selected row, if there is one, and its RETURNING clause.
unfoldable pub claim_row : ℕ → Option Row → Store → Option QueueItem × Store
unfolding item_of claim
claim_row now none s = (none, s)
claim_row now (some r) s = (
  some (item_of r),
  record s { ingest_queue = update_where (has_id r.id) (claim now) s.ingest_queue },
)

unfoldable pub claim_next_pending : ℕ → Store → Option QueueItem × Store
unfolding oldest_pending claim_row
claim_next_pending now s = claim_row now (oldest_pending s.ingest_queue) s

unfoldable pub finish : ℕ → Row → Row
finish now r = record r { status = done; error = none; finished_at = some now }

unfoldable pub mark_done : ℕ → ℕ → Store → Store
unfolding finish
mark_done now queue_id s = record s {
  ingest_queue = update_where (has_id queue_id) (finish now) s.ingest_queue;
}

unfoldable pub fail : ℕ → String → Row → Row
fail now message r = record r {
  status = failed;
  error = some message;
  retries = r.retries + 1;
  finished_at = some now;
}

unfoldable pub mark_failed : ℕ → ℕ → String → Store → Store
unfolding fail
mark_failed now queue_id message s = record s {
  ingest_queue = update_where (has_id queue_id) (fail now message) s.ingest_queue;
}

unfoldable pub is_retryable : ℕ → Row → Bool
is_retryable max_retries r = is_failed r && ltb r.retries max_retries

unfoldable pub reopen : Row → Row
reopen r = record r { status = pending }

unfoldable pub retry_failed : ℕ → Store → ℕ × Store
unfolding is_retryable reopen
retry_failed max_retries s = (
  count_where (is_retryable max_retries) s.ingest_queue,
  record s { ingest_queue = update_where (is_retryable max_retries) reopen s.ingest_queue },
)

pub record Counts : Type 0 where
  pub pending_rows : ℕ
  pub processing_rows : ℕ
  pub done_rows : ℕ
  pub failed_rows : ℕ

unfoldable pub queue_counts : Store → Counts
queue_counts s = record {
  pending_rows = count_where is_pending s.ingest_queue;
  processing_rows = count_where is_processing s.ingest_queue;
  done_rows = count_where is_done s.ingest_queue;
  failed_rows = count_where is_failed s.ingest_queue;
}

abbrev pub is_outstanding : Row → Bool
is_outstanding r = elim r.status [ pending ↦ true | processing ↦ true | _ ↦ false ]

unfoldable pub pending_ingest_count : Store → ℕ
pending_ingest_count s = count_where is_outstanding s.ingest_queue

-- The worker lease.

unfoldable pub recover : Row → Row
recover r = record r { status = pending; started_at = none }

unfoldable pub reset_processing : Store → Store
unfolding recover
reset_processing s = record s { ingest_queue = update_where is_processing recover s.ingest_queue }

unfoldable pub refresh_worker_lease : Process → Store → Store
unfolding render_lease Meta.write
refresh_worker_lease p s = record s { meta = Meta.write lease_key (render_lease p) s.meta }

-- Another process holds a lease that has not expired.
unfoldable pub is_held : Process → ℕ → Option Lease → Bool
unfolding lease_is_live lease_is_mine
is_held p ttl none = false
is_held p ttl (some lease) = lease_is_live p lease ttl && not (lease_is_mine p lease)

-- The stale rows are recovered only where a lease row was found.
unfoldable pub take_lease : Process → ℕ → Option Value → Store → Bool × Store
unfolding refresh_worker_lease reset_processing parse_lease is_held
take_lease p ttl none s = (true, refresh_worker_lease p s)
take_lease p ttl (some v) s =
    if is_held p ttl (parse_lease v)
    then (false, s)
    else (true, refresh_worker_lease p (reset_processing s))

unfoldable pub acquire_worker_lease : Process → ℕ → Store → Bool × Store
unfolding take_lease Meta.read
acquire_worker_lease p ttl s = take_lease p ttl (Meta.read lease_key s.meta) s

unfoldable pub may_release : Process → Option Lease → Bool
unfolding lease_is_mine
may_release p none = true
may_release p (some lease) = lease_is_mine p lease

unfoldable pub drop_lease : Process → Option Value → Store → Store
unfolding may_release parse_lease Meta.delete
drop_lease p none s = s
drop_lease p (some v) s =
    if may_release p (parse_lease v) then record s { meta = Meta.delete lease_key s.meta } else s

unfoldable pub release_worker_lease : Process → Store → Store
unfolding drop_lease Meta.read
release_worker_lease p s = drop_lease p (Meta.read lease_key s.meta) s

unfoldable pub value_is_live : Process → ℕ → Option Lease → Bool
unfolding lease_is_live
value_is_live p ttl none = false
value_is_live p ttl (some lease) = lease_is_live p lease ttl

unfoldable pub lease_row_is_live : Process → ℕ → Option Value → Bool
unfolding value_is_live parse_lease
lease_row_is_live p ttl none = false
lease_row_is_live p ttl (some v) = value_is_live p ttl (parse_lease v)

unfoldable pub worker_is_alive : Process → ℕ → Store → Bool
unfolding lease_row_is_live Meta.read
worker_is_alive p ttl s = lease_row_is_live p ttl (Meta.read lease_key s.meta)
