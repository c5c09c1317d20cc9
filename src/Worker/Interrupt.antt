-- ===== src/Worker/Interrupt.antt =====
-- What an interrupt leaves behind, and what a second worker does while another one runs.
use membox.Base.{ℕ, suc, ◌<◌, ◌≡◌, refl, ◌∙◌, Bool, true, false, none, some, arith, length}
use membox.Store.Leases.{Process}
use membox.Store.Queue.{
  Row, Store, claim, claim_row, oldest_pending, item_of, release_worker_lease, acquire_worker_lease,
  default_lease_ttl,
}
use membox.Store.Queue.Rows.{row_at, Distinct}
use membox.Store.Queue.Claim.{row_at-claim_row, claim_next_pending-eq}
use membox.Store.Queue.Counting.{processing_rows, retry_failed-counts}
use membox.Store.Queue.History.{IsWellFormed}
use membox.Store.Queue.Exclusion.{
  Holds, SameOwner, lease_row, release-Holds, acquire_worker_lease-rows,
}
use membox.Worker.Drain.{
  interrupted, Agent, Identity, Progress, drained, keyboard_interrupt, at, settle, step, end_drain,
  drain_loop, drain_queue, retry,
}
use membox.Worker.Rounds.{NeverInterrupts}
use membox.Worker.Termination.{drain_queue-empties}

module _ {W : Type 0} (agent : Agent W) (me : Identity) where
  -- While another process holds the lease the worker does nothing: no row is claimed or settled,
  -- no item ingested, and the counts are zero.
  pub drain_queue-held :
      (fuel n : ℕ) (retry_first : Bool) (s : Store) (w : W)
      → acquire_worker_lease (at agent me w) default_lease_ttl s ≡ (false, s)
      → drain_queue agent me fuel retry_first n s w ≡ some (drained 0 0 0 s w)
  unfolding drain_queue
  drain_queue-held fuel n retry_first s w held = ground (arith, held)

  -- An interrupt during an item ends the call with the lease released and the item's row left as
  -- the claim made it: in hand, and with no lease row by which the next worker would know.
  pub drain_loop-interrupted :
      (fuel retried : ℕ) (p : Progress W) (q : Process) {r : Row}
      → Distinct p.store.ingest_queue
      → Holds q p.store
      → SameOwner q (at agent me p.world)
      → oldest_pending p.store.ingest_queue ≡ some r
      → (agent.ingest_content p.world (item_of r)).1 ≡ interrupted
      → (s : Store) × (w : W) × (drain_loop agent me (suc fuel) retried p
          ≡ some (keyboard_interrupt s w))
        × (row_at r.id s.ingest_queue ≡ some (claim (agent.now p.world) r))
        × (lease_row s ≡ none)
  unfolding drain_loop step settle end_drain claim_row item_of
  drain_loop-interrupted fuel retried p q {r} d holds same e stop =
      let now = agent.now p.world in
      let s : Store = (claim_row now (some r) p.store).1 in
      let w = (agent.ingest_content p.world (item_of r)).0 in
      let gone = release-Holds q (at agent me w) s holds same in
      (
        release_worker_lease (at agent me w) s,
        w,
        ground (arith, claim_next_pending-eq now p.store e, stop),
        rw gone.1 (row_at-claim_row now p.store r d e),
        gone.0,
      )

  retry-in_hand :
      (retry_first : Bool) (n : ℕ) (s : Store)
      → processing_rows (retry agent me retry_first n s).1 ≡ processing_rows s
  unfolding retry
  retry-in_hand false n s = refl
  retry-in_hand true n s = (retry_failed-counts n s).1

  -- Rows in hand with no lease row are not recovered. The store is well-formed and has no lease row,
  -- the worker gets the lease, its agent is never interrupted, and the fuel is more than the rows.
  -- Then the drain, with or without the retry of failed rows, returns, and ends with as many rows in
  -- hand as before and again without a lease row.
  pub drain_queue-strands :
      (fuel n : ℕ) (retry_first : Bool) (s : Store) (w : W) {s' : Store}
      → NeverInterrupts agent
      → IsWellFormed s
      → acquire_worker_lease (at agent me w) default_lease_ttl s ≡ (true, s')
      → length s.ingest_queue < fuel
      → lease_row s ≡ none
      → (done : ℕ) × (failed : ℕ) × (store : Store) × (world : W) × (drain_queue agent me fuel
            retry_first n s w
          ≡ some (drained done failed (retry agent me retry_first n s').0 store world))
        × (processing_rows store ≡ processing_rows s)
        × (lease_row store ≡ none)
  drain_queue-strands fuel n retry_first s w {s'} calm h taken enough unowned =
      let (done, failed, store, world, returned, _, _, _, _, in_hand, released) =
        drain_queue-empties agent me fuel n retry_first s w calm h taken enough in
      let rows = acquire_worker_lease-rows (at agent me w) default_lease_ttl s taken in
      let same : s'.ingest_queue ≡ s.ingest_queue = ground (arith, rows, unowned) in
      (
        done,
        failed,
        store,
        world,
        returned,
        in_hand ∙ retry-in_hand retry_first n s' ∙ rw same,
        released,
      )
