-- ===== src/Worker/Rounds.antt =====
-- One round of the drain loop: a claimed item is settled and the lease refreshed.
use membox.Base.{
  ℕ, ◌+◌, ◌≡◌, ◌≢◌, refl, true, some, List, [], ◌∷◌, arith, String, ◌==◌, Bool-cases, inl, inr,
  length,
}
use membox.Store.Leases.{Process}
use membox.Store.Queue.{
  Row, Store, QueueItem, is_processing, claim, claim_row, claim_next_pending, oldest_pending,
  item_of, mark_done, mark_failed, refresh_worker_lease,
}
use membox.Store.Queue.Rows.{row_at}
use membox.Store.Queue.Claim.{row_at-claim_row}
use membox.Store.Queue.Counting.{
  pending_rows, processing_rows, done_rows, failed_rows, count-claim_row, count-mark_done,
  count-mark_failed,
}
use membox.Store.Queue.History.{
  IsWellFormed, here, next, claim_one, complete, give_up, refresh, Reach-IsWellFormed,
}
use membox.Store.Queue.Exclusion.{Holds, refresh-Holds}
use membox.Worker.Drain.{
  Chunks, Ingested, results, raised, interrupted, Agent, Identity, Progress, at, chunk_errors,
  settle, settle_results, step, refreshed,
}

-- What the agent does with any item is not an interrupt.
abbrev pub NeverInterrupts : {W : Type 0} → Agent W → Type 0
NeverInterrupts {W} agent =
    (w : W) (item : QueueItem) → (agent.ingest_content w item).1 ≢ interrupted

module _ {W : Type 0} (agent : Agent W) (me : Identity) where
  -- The worker's record is in the lease row, as of some time.
  abbrev pub Owned : Store → Type 0
  Owned s = (q : Process) × (q.pid ≡ me.pid) × (q.hostname ≡ me.hostname) × Holds q s

  -- What one round, from a claim to the refreshed lease, does to the counts.
  pub record Round (p p' : Progress W) : Type 0 where
    pub well_formed : IsWellFormed p'.store
    pub owned : Owned p'.store
    pub waiting : pending_rows p'.store + 1 ≡ pending_rows p.store
    pub in_hand : processing_rows p'.store ≡ processing_rows p.store
    pub handled : p'.done + p'.failed ≡ p.done + p.failed + 1
    pub finished : done_rows p'.store + p.done ≡ done_rows p.store + p'.done
    pub given_up : failed_rows p'.store + p.failed ≡ failed_rows p.store + p'.failed

  -- Settling an item in hand: it is done or failed, and counted as such.
  record Settled (i : ℕ) (p p' : Progress W) : Type 0 where
    well_formed : IsWellFormed p'.store
    waiting : pending_rows p'.store ≡ pending_rows p.store
    in_hand : processing_rows p'.store + 1 ≡ processing_rows p.store
    handled : p'.done + p'.failed ≡ p.done + p.failed + 1
    finished : done_rows p'.store + p.done ≡ done_rows p.store + p'.done
    given_up : failed_rows p'.store + p.failed ≡ failed_rows p.store + p'.failed

  module _ (i : ℕ) (p : Progress W) {r : Row} (h : IsWellFormed p.store)
      (there : row_at i p.store.ingest_queue ≡ some r) (busy : is_processing r ≡ true) where
    settle-done :
        Settled i p
          (record p { store = mark_done (agent.now p.world) i p.store; done = p.done + 1 })
    settle-done =
        let moved = count-mark_done (agent.now p.world) i p.store h.distinct there busy in
        record {
          well_formed = Reach-IsWellFormed h (next here (complete (agent.now p.world) i p.store));
          waiting = moved.0;
          in_hand = moved.1;
          handled = omega arith;
          finished = omega (arith, moved.2);
          given_up = omega (arith, moved.3);
        }

    settle-failed :
        (message : String)
        → Settled i p (record p {
          store = mark_failed (agent.now p.world) i message p.store;
          failed = p.failed + 1;
        })
    settle-failed message =
        let moved = count-mark_failed (agent.now p.world) i p.store h.distinct message there busy in
        record {
          well_formed =
              Reach-IsWellFormed h (next here (give_up (agent.now p.world) i message p.store));
          waiting = moved.0;
          in_hand = moved.1;
          handled = omega arith;
          finished = omega (arith, moved.2);
          given_up = omega (arith, moved.3);
        }

    settle_results-Settled :
        (chunks : Chunks) (errors : List String)
        → Settled i p (settle_results agent me i chunks errors p)
    unfolding settle_results
    settle_results-Settled chunks [] = settle-done
    settle_results-Settled chunks (e ∷ errors) =
        elim (Bool-cases (length (e ∷ errors) == length chunks)) [
          | inl all ↦ rw all (settle-failed e)
          | inr partly ↦ rw partly settle-done
        ]

    settle-Settled :
        (result : Ingested)
        → result ≢ interrupted
        → (p' : Progress W) × (settle agent me i result p ≡ some p') × Settled i p p'
    unfolding settle
    settle-Settled (results chunks) ne =
        (_, refl, settle_results-Settled chunks (chunk_errors chunks))
    settle-Settled (raised message) ne = (_, refl, settle-failed message)
    settle-Settled interrupted ne = absurd (ne refl)

  -- The store after a claim of the row r.
  abbrev pub claimed_store : Progress W → Row → Store
  claimed_store p r = (claim_row (agent.now p.world) (some r) p.store).1

  claim-IsWellFormed :
      (p : Progress W) {r : Row}
      → IsWellFormed p.store
      → oldest_pending p.store.ingest_queue ≡ some r
      → IsWellFormed (claimed_store p r)
  unfolding claim_next_pending
  claim-IsWellFormed p {r} h e =
      rw e at (Reach-IsWellFormed h (next here (claim_one (agent.now p.world) p.store)))

  pub round :
      (p : Progress W) {r : Row}
      → NeverInterrupts agent
      → IsWellFormed p.store
      → oldest_pending p.store.ingest_queue ≡ some r
      → (p' : Progress W) × (step agent me (item_of r) (record p { store = claimed_store p r })
          ≡ some p')
        × Round p (refreshed agent me p')
  unfolding step refreshed claim item_of refresh_worker_lease
  round p {r} calm h e =
      let now = agent.now p.world in
      let w = (agent.ingest_content p.world (item_of r)).0 in
      let p₁ : Progress W = record p { store = claimed_store p r; world = w } in
      let taken = row_at-claim_row now p.store r h.distinct e in
      let h₁ = claim-IsWellFormed p h e in
      let moved = count-claim_row now p.store h.distinct e in
      let (p', settled, s) =
        settle-Settled r.id p₁ h₁ taken refl (agent.ingest_content p.world (item_of r)).1
          (calm p.world (item_of r)) in
      (
        p',
        settled,
        record {
          well_formed =
              Reach-IsWellFormed s.well_formed
                (next here (refresh (at agent me p'.world) p'.store));
          owned = (at agent me p'.world, refl, refl, refresh-Holds (at agent me p'.world) p'.store);
          waiting = omega (arith, s.waiting, moved.0);
          in_hand = omega (arith, s.in_hand, moved.1);
          handled = s.handled;
          finished = omega (arith, s.finished, moved.2);
          given_up = omega (arith, s.given_up, moved.3);
        },
      )
