-- ===== src/Tests/WorkerTests.antt =====
-- The drain loop, with an agent that always succeeds and one that is interrupted.
use Prim.Native.Nat.{◌+◌}
use mathlib.Core.Path.{subst}
use membox.Base.{sym, ℕ, ◌≡◌, refl, arith, true, none, some, [], ◌∷◌}
use membox.Store.Meta.{read, write}
use membox.Store.Queue.{
  Store, claim, oldest_pending, older, acquire_worker_lease, take_lease, refresh_worker_lease,
  default_lease_ttl, pending,
}
use membox.Store.Queue.Rows.{row_at, Distinct}
use membox.Store.Queue.Counting.{pending_rows, processing_rows, done_rows, failed_rows}
use membox.Store.Queue.Exclusion.{Holds, lease_row}
use membox.Worker.{
  Agent, Identity, Progress, results, interrupted, drained, keyboard_interrupt, drain_loop,
  drain_queue, retry, at,
}
use membox.Worker.Rounds.{NeverInterrupts}
use membox.Worker.Termination.{drain_queue-empties}
use membox.Worker.Interrupt.{drain_loop-interrupted, drain_queue-strands}
use membox.Tests.QueueTests.{mixed, mixed-IsWellFormed, mixed-Distinct, row_of}

-- The world is a clock, which an ingestion advances by 5.
abbrev ingests : Agent ℕ
ingests = record { now = λ w. w; ingest_content = λ w item. (w + 5, results (none ∷ [])) }

abbrev stops : Agent ℕ
stops = record { now = λ w. w; ingest_content = λ w item. (w + 5, interrupted) }

abbrev me : Identity
me = record { pid = 7; hostname = "desk" }

ingests-NeverInterrupts : NeverInterrupts ingests
ingests-NeverInterrupts w item = ground arith

abbrev owned : Store
owned = refresh_worker_lease (at ingests me 100) mixed

taken : acquire_worker_lease (at ingests me 100) default_lease_ttl mixed ≡ (true, owned)
unfolding acquire_worker_lease take_lease read
taken = refl

drain_queue-empties_example :
    let (retried, begun) = retry ingests me true 3 owned in
    (done : ℕ) × (failed : ℕ) × (store : Store) × (world : ℕ) × (drain_queue ingests me 9 true 3
        mixed 100
      ≡ some (drained done failed retried store world))
    × (pending_rows store ≡ 0)
    × (done + failed ≡ pending_rows begun)
    × (done_rows store ≡ done_rows begun + done)
    × (failed_rows store ≡ failed_rows begun + failed)
    × (processing_rows store ≡ processing_rows begun)
    × (lease_row store ≡ none)
drain_queue-empties_example =
    drain_queue-empties ingests me 9 3 true mixed 100 ingests-NeverInterrupts mixed-IsWellFormed
      taken (ground arith)

no_lease : lease_row mixed ≡ none
unfolding read
no_lease = refl

drain_queue-strands_example :
    (done : ℕ) × (failed : ℕ) × (store : Store) × (world : ℕ) × (drain_queue ingests me 9 true 3
        mixed 100
      ≡ some (drained done failed (retry ingests me true 3 owned).0 store world))
    × (processing_rows store ≡ processing_rows mixed)
    × (lease_row store ≡ none)
drain_queue-strands_example =
    drain_queue-strands ingests me 9 3 true mixed 100 ingests-NeverInterrupts mixed-IsWellFormed
      taken (ground arith) no_lease

abbrev begun_drain : Progress ℕ
begun_drain = record {
  store = refresh_worker_lease (at stops me 100) mixed;
  world = 110;
  done = 0;
  failed = 0;
}

held : Holds (at stops me 100) begun_drain.store
unfolding refresh_worker_lease read write
held = refl

same_rows : begun_drain.store.ingest_queue ≡ mixed.ingest_queue
unfolding refresh_worker_lease
same_rows = refl

next_row : oldest_pending begun_drain.store.ingest_queue ≡ some (row_of 4 pending 0)
unfolding refresh_worker_lease oldest_pending older
next_row = refl

begun_Distinct : Distinct begun_drain.store.ingest_queue
begun_Distinct = subst Distinct (sym same_rows) mixed-Distinct

drain_loop-interrupted_example :
    (s : Store) × (w : ℕ) × (drain_loop stops me 4 0 begun_drain ≡ some (keyboard_interrupt s w))
    × (row_at 4 s.ingest_queue ≡ some (claim 110 (row_of 4 pending 0)))
    × (lease_row s ≡ none)
drain_loop-interrupted_example =
    drain_loop-interrupted stops me 3 0 begun_drain (at stops me 100) begun_Distinct held
      (refl, refl) next_row refl
