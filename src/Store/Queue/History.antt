-- ===== src/Store/Queue/History.antt =====
-- Every run of queue operations, by any processes in any order, as a step relation on the store.

use mathlib.Core.Path.{subst}
use membox.Base.{
  ℕ, ◌+◌, ◌≤◌, ◌<◌, ◌≡◌, ◌≢◌, refl, Bool, Option, none, some, List, [], ◌∷◌, ◌++◌, arith, String,
  All, All-append, All-mono, update_where, Bool-cases, Option-cases, inl, inr,
}
use membox.Store.Leases.{Process, Value, parse_lease}
use membox.Store.Queue.{
  Row, Store, has_id, is_processing, enqueue_ingest, claim, claim_next_pending, oldest_pending,
  mark_done, mark_failed, finish, fail, retry_failed, is_retryable, reopen, reset_processing,
  recover, refresh_worker_lease, acquire_worker_lease, take_lease, release_worker_lease, drop_lease,
  is_held, may_release,
}
use membox.Store.Queue.Rows.{
  row_at, Distinct, patch, row_at-update_where, Distinct-update_where, Below-update_where,
}

-- One call of one operation.
pub data Step : Store → Store → Type 0 where
  enqueue :
      (now : ℕ) (content : String) (project source_path doc_date : Option String) (s : Store)
      → Step s (enqueue_ingest now content project source_path doc_date s).1
  claim_one : (now : ℕ) (s : Store) → Step s (claim_next_pending now s).1
  complete : (now i : ℕ) (s : Store) → Step s (mark_done now i s)
  give_up : (now i : ℕ) (message : String) (s : Store) → Step s (mark_failed now i message s)
  retry : (max_retries : ℕ) (s : Store) → Step s (retry_failed max_retries s).1
  acquire : (p : Process) (ttl : ℕ) (s : Store) → Step s (acquire_worker_lease p ttl s).1
  refresh : (p : Process) (s : Store) → Step s (refresh_worker_lease p s)
  release : (p : Process) (s : Store) → Step s (release_worker_lease p s)

pub data Reach (s : Store) : Store → Type 0 where
  here : Reach s s
  next : {t u : Store} → Reach s t → Step t u → Reach s u

pub record IsWellFormed (s : Store) : Type 0 where
  pub distinct : Distinct s.ingest_queue
  pub below : All (λ r. r.id < s.next_id) s.ingest_queue

-- What never changes about a row, and what only grows.
pub record Kept (r r' : Row) : Type 0 where
  pub id : r'.id ≡ r.id
  pub content : r'.content ≡ r.content
  pub project : r'.project ≡ r.project
  pub source_path : r'.source_path ≡ r.source_path
  pub doc_date : r'.doc_date ≡ r.doc_date
  pub enqueued_at : r'.enqueued_at ≡ r.enqueued_at
  pub retries : r.retries ≤ r'.retries

Kept-refl : (r : Row) → Kept r r
Kept-refl r = ground arith

Kept-trans : {q r t : Row} → Kept q r → Kept r t → Kept q t
Kept-trans h k = ground arith

-- A step keeps the rows and the well-formedness of the table.
record Keeps (s s' : Store) : Type 0 where
  rows :
      (i : ℕ) (r : Row)
      → row_at i s.ingest_queue ≡ some r
      → (r' : Row) × (row_at i s'.ingest_queue ≡ some r') × Kept r r'
  well_formed : IsWellFormed s → IsWellFormed s'

Keeps-refl : (s : Store) → Keeps s s
Keeps-refl s = record { rows = λ i r e. (r, e, Kept-refl r); well_formed = λ h. h }

-- An UPDATE that keeps each row.
module _ (test : Row → Bool) (change : Row → Row) (keeps : (r : Row) → Kept r (change r)) where
  patch-Kept : (r : Row) → Kept r (patch test change r)
  patch-Kept r = elim (Bool-cases (test r)) [ inl e ↦ rw e (keeps r) | inr e ↦ rw e (Kept-refl r) ]

  update-Keeps :
      (s : Store) → Keeps s (record s { ingest_queue = update_where test change s.ingest_queue })
  update-Keeps s = record {
    rows = λ i r e. (
      patch test change r,
      rw (row_at-update_where test change (λ q. (keeps q).id) i s.ingest_queue, e),
      patch-Kept r,
    );
    well_formed = λ h. record {
      distinct = Distinct-update_where test change (λ q. (keeps q).id) s.ingest_queue h.distinct;
      below = Below-update_where test change (λ q. (keeps q).id) s.next_id s.ingest_queue h.below;
    };
  }

-- A change of the `meta` table alone.
meta-Keeps :
    {s t : Store} (q : Store)
    → s.ingest_queue ≡ t.ingest_queue
    → s.next_id ≡ t.next_id
    → Keeps q s
    → Keeps q t
meta-Keeps {s} {t} q same_rows same_id k = record {
  rows = λ i r e. rw (← same_rows) (k.rows i r e);
  well_formed = λ h. record {
    distinct = subst Distinct same_rows (k.well_formed h).distinct;
    below =
        subst (λ n. All (λ r. r.id < n) t.ingest_queue) same_id
          (subst (All (λ r. r.id < s.next_id)) same_rows (k.well_formed h).below);
  };
}

row_at-append :
    (i : ℕ) (r : Row) (rows later : List Row)
    → row_at i rows ≡ some r
    → row_at i (rows ++ later) ≡ some r
row_at-append i r [] later e = cc
row_at-append i r (q ∷ rows) later e = ground (arith, row_at-append i r rows later)

Distinct-append :
    (n : ℕ) (r : Row) (rows : List Row)
    → r.id ≡ n
    → All (λ q. q.id < n) rows
    → Distinct rows
    → Distinct (rows ++ r ∷ [])
Distinct-append n r [] e b d = (tt, tt)
Distinct-append n r (q ∷ rows) e b d = (
  All-append (λ x. q.id ≢ x.id) rows (r ∷ []) d.0 (omega arith, tt),
  Distinct-append n r rows e b.1 d.1,
)

enqueue-Keeps :
    (now : ℕ) (content : String) (project source_path doc_date : Option String) (s : Store)
    → Keeps s (enqueue_ingest now content project source_path doc_date s).1
unfolding enqueue_ingest
enqueue-Keeps now content project source_path doc_date s = record {
  rows = λ i r e. (r, row_at-append i r s.ingest_queue _ e, Kept-refl r);
  well_formed = λ h. record {
    distinct = Distinct-append s.next_id _ s.ingest_queue refl h.below h.distinct;
    below =
        All-append (λ q. q.id < s.next_id + 1) s.ingest_queue _
          (All-mono (λ q. q.id < s.next_id) (λ q. q.id < s.next_id + 1) s.ingest_queue
            (λ q lt. omega arith) h.below)
          (omega arith, tt);
  };
}

claim-Kept : (now : ℕ) (r : Row) → Kept r (claim now r)
unfolding claim
claim-Kept now r = ground arith

claim-Keeps : (now : ℕ) (s : Store) → Keeps s (claim_next_pending now s).1
unfolding claim_next_pending
claim-Keeps now s = elim (Option-cases (oldest_pending s.ingest_queue)) [
  | inl nothing ↦ rw nothing (Keeps-refl s)
  | inr (r, found) ↦ rw found (update-Keeps (has_id r.id) (claim now) (claim-Kept now) s)
]

done-Keeps : (now i : ℕ) (s : Store) → Keeps s (mark_done now i s)
unfolding mark_done
done-Keeps now i s = update-Keeps (has_id i) (finish now) (λ r. ground arith) s

failed-Keeps : (now i : ℕ) (message : String) (s : Store) → Keeps s (mark_failed now i message s)
unfolding mark_failed
failed-Keeps now i message s = update-Keeps (has_id i) (fail now message) (λ r. ground arith) s

retry-Keeps : (max_retries : ℕ) (s : Store) → Keeps s (retry_failed max_retries s).1
unfolding retry_failed
retry-Keeps n s = update-Keeps (is_retryable n) reopen (λ r. ground arith) s

refresh-Keeps : (p : Process) (q s : Store) → Keeps q s → Keeps q (refresh_worker_lease p s)
unfolding refresh_worker_lease
refresh-Keeps p q s = meta-Keeps q refl refl

reset-Keeps : (s : Store) → Keeps s (reset_processing s)
unfolding reset_processing
reset-Keeps s = update-Keeps is_processing recover (λ r. ground arith) s

take_lease-Keeps :
    (p : Process) (ttl : ℕ) (v : Option Value) (s : Store) → Keeps s (take_lease p ttl v s).1
unfolding take_lease
take_lease-Keeps p ttl none s = refresh-Keeps p s s (Keeps-refl s)
take_lease-Keeps p ttl (some v) s = elim (Bool-cases (is_held p ttl (parse_lease v))) [
  | inl held ↦ rw held (Keeps-refl s)
  | inr free ↦ rw free (refresh-Keeps p s (reset_processing s) (reset-Keeps s))
]

drop_lease-Keeps : (p : Process) (v : Option Value) (s : Store) → Keeps s (drop_lease p v s)
unfolding drop_lease
drop_lease-Keeps p none s = Keeps-refl s
drop_lease-Keeps p (some v) s = elim (Bool-cases (may_release p (parse_lease v))) [
  | inl mine ↦ rw mine (meta-Keeps s refl refl (Keeps-refl s))
  | inr theirs ↦ rw theirs (Keeps-refl s)
]

Step-Keeps : {s s' : Store} → Step s s' → Keeps s s'
unfolding acquire_worker_lease release_worker_lease
Step-Keeps (enqueue now content project source_path doc_date s) =
    enqueue-Keeps now content project source_path doc_date s
Step-Keeps (claim_one now s) = claim-Keeps now s
Step-Keeps (complete now i s) = done-Keeps now i s
Step-Keeps (give_up now i message s) = failed-Keeps now i message s
Step-Keeps (retry max_retries s) = retry-Keeps max_retries s
Step-Keeps (acquire p ttl s) = take_lease-Keeps p ttl _ s
Step-Keeps (refresh p s) = refresh-Keeps p s s (Keeps-refl s)
Step-Keeps (release p s) = drop_lease-Keeps p _ s

-- Any run of queue operations from a well-formed table ends in a well-formed table: ids stay
-- distinct and below the counter.
pub Reach-IsWellFormed : {s s' : Store} → IsWellFormed s → Reach s s' → IsWellFormed s'
Reach-IsWellFormed h here = h
Reach-IsWellFormed h (next r st) = (Step-Keeps st).well_formed (Reach-IsWellFormed h r)

-- No run of queue operations loses an enqueued row, changes its payload or its enqueue time, or
-- lowers its retry counter.
pub Reach-Kept :
    {s s' : Store} (i : ℕ) (r : Row)
    → row_at i s.ingest_queue ≡ some r
    → Reach s s'
    → (r' : Row) × (row_at i s'.ingest_queue ≡ some r') × Kept r r'
Reach-Kept i r e here = (r, e, Kept-refl r)
Reach-Kept i r e (next reached st) =
    let (q, there, kept) = Reach-Kept i r e reached in
    let (q', there', kept') = (Step-Keeps st).rows i q there in (q', there', Kept-trans kept kept')
