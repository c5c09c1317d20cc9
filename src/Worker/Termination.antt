-- ===== src/Worker/Termination.antt =====
-- The drain loop ends, with every pending row settled and the lease released.
use mathlib.Core.Path.{subst}
use membox.Base.{
  ℕ, zero, suc, ◌+◌, ◌<◌, ◌≡◌, refl, ap, Bool, true, false, Option, none, some, arith, Option-cases,
  inl, inr, length, length-update_where, count_where-le-length,
}
use membox.Store.Leases.{Process}
use membox.Store.Queue.{
  Row, Store, is_pending, is_processing, claim_row, oldest_pending, item_of, release_worker_lease,
  acquire_worker_lease, default_lease_ttl, retry_failed, is_retryable, reopen, reset_processing,
  recover,
}
use membox.Store.Queue.Rows.{oldest_pending-none}
use membox.Store.Queue.Claim.{claim_next_pending-eq}
use membox.Store.Queue.Counting.{
  pending_rows, processing_rows, done_rows, failed_rows, count-none_pending, retry_failed-counts,
}
use membox.Store.Queue.History.{
  IsWellFormed, here, next, acquire, retry as retry_step, Reach-IsWellFormed,
}
use membox.Store.Queue.Exclusion.{
  lease_row, release-Holds, acquire-Holds, acquire_worker_lease-rows,
}
use membox.Worker.Drain.{
  Agent, Identity, Progress, Outcome, drained, at, step, refreshed, end_drain, drain_loop,
  drain_queue, begin, retry,
}
use membox.Worker.Rounds.{NeverInterrupts, Owned, claimed_store, round}

module _ {W : Type 0} (agent : Agent W) (me : Identity) where
  -- The loop returned, with every waiting row settled, counted and the lease given up.
  pub record Emptied (retried : ℕ) (p : Progress W) (o : Option (Outcome W)) : Type 0 where
    pub done : ℕ
    pub failed : ℕ
    pub store : Store
    pub world : W
    pub returned : o ≡ some (drained done failed retried store world)
    pub none_waiting : pending_rows store ≡ 0
    pub in_hand : processing_rows store ≡ processing_rows p.store
    pub handled : done + failed ≡ p.done + p.failed + pending_rows p.store
    pub finished : done_rows store + p.done ≡ done_rows p.store + done
    pub given_up : failed_rows store + p.failed ≡ failed_rows p.store + failed
    pub released : lease_row store ≡ none

  ended :
      (p : Progress W) (retried fuel : ℕ)
      → Owned agent me p.store
      → oldest_pending p.store.ingest_queue ≡ none
      → Emptied retried p (drain_loop agent me (suc fuel) retried p)
  unfolding drain_loop end_drain claim_row
  ended p retried fuel (q, pid, host, holds) e =
      let gone = release-Holds q (at agent me p.world) p.store holds (pid, host) in
      let same = gone.1 in
      let empty = count-none_pending p.store.ingest_queue (oldest_pending-none _ e) in
      record {
        done = p.done;
        failed = p.failed;
        store = release_worker_lease (at agent me p.world) p.store;
        world = p.world;
        returned = ground (arith, claim_next_pending-eq (agent.now p.world) p.store e);
        none_waiting = rw same empty;
        in_hand = rw same;
        handled = omega (arith, empty);
        finished = rw same;
        given_up = rw same;
        released = gone.0;
      }

  one_round :
      (p p' : Progress W) (retried fuel : ℕ) {r : Row}
      → oldest_pending p.store.ingest_queue ≡ some r
      → step agent me (item_of r) (record p { store = claimed_store agent me p r }) ≡ some p'
      → drain_loop agent me (suc fuel) retried p
        ≡ drain_loop agent me fuel retried (refreshed agent me p')
  unfolding drain_loop claim_row item_of
  one_round p p' retried fuel e s =
      ground (arith, claim_next_pending-eq (agent.now p.world) p.store e, s)

  drain_loop-Emptied :
      (fuel retried : ℕ) (p : Progress W)
      → NeverInterrupts agent
      → IsWellFormed p.store
      → Owned agent me p.store
      → pending_rows p.store < fuel
      → Emptied retried p (drain_loop agent me fuel retried p)
  drain_loop-Emptied zero retried p calm h own lt = elim lt [ ]
  drain_loop-Emptied (suc fuel) retried p calm h own lt =
      elim (Option-cases (oldest_pending p.store.ingest_queue)) [
        | inl nothing ↦ ended p retried fuel own nothing
        | inr (r, found) ↦
            let (p', stepped, k) = round agent me p calm h found in
            let rest =
              drain_loop-Emptied fuel retried (refreshed agent me p') calm k.well_formed k.owned
                (omega (arith, k.waiting)) in
            rw (one_round p p' retried fuel found stepped) (record {
              done = rest.done;
              failed = rest.failed;
              store = rest.store;
              world = rest.world;
              returned = rest.returned;
              none_waiting = rest.none_waiting;
              in_hand = omega (arith, rest.in_hand, k.in_hand);
              handled = omega (arith, rest.handled, k.handled, k.waiting);
              finished = omega (arith, rest.finished, k.finished);
              given_up = omega (arith, rest.given_up, k.given_up);
              released = rest.released;
            })
      ]

length-begun :
    (p : Process) (ttl : ℕ) (s : Store) {s' : Store}
    → acquire_worker_lease p ttl s ≡ (true, s')
    → length s'.ingest_queue ≡ length s.ingest_queue
unfolding reset_processing
length-begun p ttl s e =
    let rows = acquire_worker_lease-rows p ttl s e in
    ground (arith, ap length rows, length-update_where is_processing recover s.ingest_queue)

module _ {W : Type 0} (agent : Agent W) (me : Identity) where
  retry-kept :
      (retry_first : Bool) (n : ℕ) (s : Store)
      → IsWellFormed s
      → let begun = (retry agent me retry_first n s).1 in
        IsWellFormed begun
        × (begun.meta ≡ s.meta)
        × (length begun.ingest_queue ≡ length s.ingest_queue)
        × (processing_rows begun ≡ processing_rows s)
  unfolding retry retry_failed
  retry-kept false n s h = (h, refl, refl, refl)
  retry-kept true n s h = (
    Reach-IsWellFormed h (next here (retry_step n s)),
    refl,
    length-update_where (is_retryable n) reopen s.ingest_queue,
    (retry_failed-counts n s).1,
  )

  -- A worker that gets the lease of a well-formed store, and whose agent is never interrupted, drains
  -- the queue on any fuel above the number of rows: it returns with no row pending, the lease given up and no more
  -- rows in hand than it began with. The rows pending after the retry are exactly those that it
  -- reports as done or failed, and the table holds that many more of each.
  pub drain_queue-empties :
      (fuel n : ℕ) (retry_first : Bool) (s : Store) (w : W) {s' : Store}
      → NeverInterrupts agent
      → IsWellFormed s
      → acquire_worker_lease (at agent me w) default_lease_ttl s ≡ (true, s')
      → length s.ingest_queue < fuel
      → let (retried, begun) = retry agent me retry_first n s' in
        (done : ℕ) × (failed : ℕ) × (store : Store) × (world : W) × (drain_queue agent me fuel
            retry_first n s w
          ≡ some (drained done failed retried store world))
        × (pending_rows store ≡ 0)
        × (done + failed ≡ pending_rows begun)
        × (done_rows store ≡ done_rows begun + done)
        × (failed_rows store ≡ failed_rows begun + failed)
        × (processing_rows store ≡ processing_rows begun)
        × (lease_row store ≡ none)
  unfolding drain_queue begin
  drain_queue-empties fuel n retry_first s w {s'} calm h taken enough =
      let p : Process = at agent me w in
      let h' : IsWellFormed s' =
        subst (λ (r : Bool × Store). IsWellFormed r.1) taken
          (Reach-IsWellFormed h (next here (acquire p default_lease_ttl s))) in
      let holds = acquire-Holds p default_lease_ttl s taken in
      let kept = retry-kept retry_first n s' h' in
      let begun : Store = (retry agent me retry_first n s').1 in
      let e =
        drain_loop-Emptied agent me fuel (retry agent me retry_first n s').0
          (record { store = begun; world = w; done = 0; failed = 0 }) calm kept.0
          (p, refl, refl, rw kept.1 holds)
          (omega (
            arith,
            kept.2,
            length-begun p default_lease_ttl s taken,
            count_where-le-length is_pending begun.ingest_queue,
          )) in
      (
        e.done,
        e.failed,
        e.store,
        e.world,
        ground (arith, taken, e.returned),
        e.none_waiting,
        omega (arith, e.handled),
        omega (arith, e.finished),
        omega (arith, e.given_up),
        e.in_hand,
        e.released,
      )
