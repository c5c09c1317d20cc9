-- ===== src/Store/Queue/Consistency.antt =====
-- What the status of a queue row says of its other columns, in every run of queue operations.
use membox.Base.{
  ℕ, ◌≡◌, refl, Bool, true, not, ◌&&◌, ◌||◌, Option, none, some, List, [], ◌∷◌, ◌++◌, arith, leb,
  is_some, all_of, update_where, Bool-cases, Option-cases, inl, inr,
}
use membox.Store.Leases.{Process, Value, parse_lease}
use membox.Store.Queue.{
  Row, Store, pending, processing, done, failed, has_id, is_processing, enqueue_ingest, claim,
  claim_row, claim_next_pending, oldest_pending, mark_done, mark_failed, finish, fail, retry_failed,
  is_retryable, reopen, reset_processing, recover, refresh_worker_lease, acquire_worker_lease,
  take_lease, release_worker_lease, drop_lease, is_held,
}
use membox.Store.Queue.History.{
  Step, enqueue, claim_one, complete, give_up, retry, acquire, refresh, release, Reach, here, next,
}

-- A row in hand has a start; a done one has an end and no error; a failed one has an end, an error and
-- a retry on its counter; and an error is left only by a failure that was counted.
abbrev is_consistent : Row → Bool
is_consistent r =
    (elim r.status [
      | pending ↦ true
      | processing ↦ is_some r.started_at
      | done ↦ is_some r.finished_at && not (is_some r.error)
      | failed ↦ is_some r.finished_at && is_some r.error
    ])
    && (not (is_some r.error) || (leb 1 r.retries && is_some r.finished_at))

abbrev pub consistent : Store → Bool
consistent s = all_of is_consistent s.ingest_queue

module _ (test : Row → Bool) (change : Row → Row)
    (keeps : (r : Row)
      → test r ≡ true
      → is_consistent r ≡ true
      → is_consistent (change r) ≡ true) where
  all_consistent-update_where :
      (rows : List Row)
      → all_of is_consistent rows ≡ true
      → all_of is_consistent (update_where test change rows) ≡ true
  all_consistent-update_where [] h = refl
  all_consistent-update_where (r ∷ rows) h = elim (Bool-cases (test r)) [
    | inl e ↦ ground (arith, e, keeps r e, all_consistent-update_where rows)
    | inr e ↦ ground (arith, e, all_consistent-update_where rows)
  ]

all_consistent-append :
    (rows : List Row) (r : Row)
    → all_of is_consistent rows ≡ true
    → is_consistent r ≡ true
    → all_of is_consistent (rows ++ r ∷ []) ≡ true
all_consistent-append [] r h k = ground (arith, k)
all_consistent-append (q ∷ rows) r h k = ground (arith, all_consistent-append rows r)

claim-consistent :
    (now : ℕ) (s : Store) → consistent s ≡ true → consistent (claim_next_pending now s).1 ≡ true
unfolding claim_next_pending claim_row claim
claim-consistent now s h = elim (Option-cases (oldest_pending s.ingest_queue)) [
  | inl nothing ↦ ground (arith, nothing, h)
  | inr (r, found) ↦ ground (
    arith,
    found,
    all_consistent-update_where (has_id r.id) (claim now) (λ q t k. ground (arith, k))
        s.ingest_queue h,
  )
]

reset-consistent : (s : Store) → consistent s ≡ true → consistent (reset_processing s) ≡ true
unfolding reset_processing recover
reset-consistent s h =
    all_consistent-update_where is_processing recover (λ q t k. ground (arith, k)) s.ingest_queue h

take_lease-consistent :
    (p : Process) (ttl : ℕ) (v : Option Value) (s : Store)
    → consistent s ≡ true
    → consistent (take_lease p ttl v s).1 ≡ true
unfolding take_lease refresh_worker_lease
take_lease-consistent p ttl none s h = h
take_lease-consistent p ttl (some v) s h = elim (Bool-cases (is_held p ttl (parse_lease v))) [
  | inl held ↦ ground (arith, held, h)
  | inr free ↦ ground (arith, free, reset-consistent s h)
]

drop_lease-consistent :
    (p : Process) (v : Option Value) (s : Store)
    → consistent s ≡ true
    → consistent (drop_lease p v s) ≡ true
unfolding drop_lease
drop_lease-consistent p none s h = h
drop_lease-consistent p (some v) s h = ground (arith, h)

Step-consistent : {s s' : Store} → Step s s' → consistent s ≡ true → consistent s' ≡ true
unfolding enqueue_ingest mark_done mark_failed retry_failed refresh_worker_lease
    acquire_worker_lease release_worker_lease finish fail reopen is_retryable
Step-consistent (enqueue now content project source_path doc_date s) h =
    all_consistent-append s.ingest_queue _ h refl
Step-consistent (claim_one now s) h = claim-consistent now s h
Step-consistent (complete now i s) h =
    all_consistent-update_where (has_id i) (finish now) (λ q t k. ground (arith, k)) s.ingest_queue
      h
Step-consistent (give_up now i message s) h =
    all_consistent-update_where (has_id i) (fail now message) (λ q t k. ground (arith, k))
      s.ingest_queue h
Step-consistent (retry max_retries s) h =
    all_consistent-update_where (is_retryable max_retries) reopen (λ q t k. ground (arith, t, k))
      s.ingest_queue h
Step-consistent (acquire p ttl s) h = take_lease-consistent p ttl _ s h
Step-consistent (refresh p s) h = h
Step-consistent (release p s) h = drop_lease-consistent p _ s h

-- Where it holds at first, it holds after any run of queue operations that every row in hand has a
-- start time, every done row an end time and no error, every failed row an end time and an error, and
-- every row with an error at least one counted retry and an end time.
pub Reach-consistent : {s s' : Store} → consistent s ≡ true → Reach s s' → consistent s' ≡ true
Reach-consistent h here = h
Reach-consistent h (next reached st) = Step-consistent st (Reach-consistent h reached)
