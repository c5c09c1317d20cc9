-- ===== src/Worker/Drain.antt =====
-- The loop of `drain_queue` and what surrounds it.
use membox.Base.{
  ℕ, zero, suc, ◌+◌, String, Bool, true, false, Option, none, some, List, [], ◌∷◌, ◌==◌,
  if◌then◌else◌, length,
}
use membox.Store.Leases.{Process}
use membox.Store.Queue.{
  Store, QueueItem, default_lease_ttl, acquire_worker_lease, refresh_worker_lease,
  release_worker_lease, retry_failed, claim_next_pending, mark_done, mark_failed,
}

-- The results of `ingest_content`: one for each chunk, with its error if it has one.
abbrev pub Chunks : Type 0
Chunks = List (Option String)

pub data Ingested : Type 0 where
  results : Chunks → Ingested
  raised : String → Ingested
  interrupted : Ingested

-- `now` is the clock that the store's operations read.
pub record Agent (W : Type 0) : Type 0 where
  pub now : W → ℕ
  pub ingest_content : W → QueueItem → W × Ingested

-- The worker process.
pub record Identity : Type 0 where
  pub pid : ℕ
  pub hostname : String

pub record Progress (W : Type 0) : Type 0 where
  pub store : Store
  pub world : W
  pub done : ℕ
  pub failed : ℕ

-- How the call ends: with its counts, or by the interrupt.
pub data Outcome (W : Type 0) : Type 0 where
  drained : (done failed retried : ℕ) → Store → W → Outcome W
  keyboard_interrupt : Store → W → Outcome W

-- `[r["error"] for r in results if "error" in r]`
unfoldable pub chunk_errors : Chunks → List String
chunk_errors [] = []
chunk_errors (none ∷ rest) = chunk_errors rest
chunk_errors (some e ∷ rest) = e ∷ chunk_errors rest

module _ {W : Type 0} (agent : Agent W) (me : Identity) where
  abbrev pub at : W → Process
  at w = record { pid = me.pid; hostname = me.hostname; now = agent.now w }

  -- Every chunk failed: the item failed, with the first error.
  unfoldable pub settle_results : ℕ → Chunks → List String → Progress W → Progress W
  settle_results queue_id chunks [] p = record p {
    store = mark_done (agent.now p.world) queue_id p.store;
    done = p.done + 1;
  }
  settle_results queue_id chunks (e ∷ errors) p =
      if length (e ∷ errors) == length chunks
      then record p {
        store = mark_failed (agent.now p.world) queue_id e p.store;
        failed = p.failed + 1;
      }
      else record p { store = mark_done (agent.now p.world) queue_id p.store; done = p.done + 1 }

  -- The `except` and `else` arms; `none` is the interrupt that passes through.
  unfoldable pub settle : ℕ → Ingested → Progress W → Option (Progress W)
  unfolding settle_results chunk_errors
  settle queue_id (results chunks) p = some (settle_results queue_id chunks (chunk_errors chunks) p)
  settle queue_id (raised message) p = some (record p {
    store = mark_failed (agent.now p.world) queue_id message p.store;
    failed = p.failed + 1;
  })
  settle queue_id interrupted p = none

  -- One claimed item: ingest it and settle its row.
  unfoldable pub step : QueueItem → Progress W → Option (Progress W)
  unfolding settle
  step item p =
      let (w, result) = agent.ingest_content p.world item in
      settle item.id result (record p { world = w })

  unfoldable pub refreshed : Progress W → Progress W
  refreshed p = record p { store = refresh_worker_lease (at p.world) p.store }

  -- The `finally` clause.
  unfoldable pub end_drain : Store → W → Store
  end_drain s w = release_worker_lease (at w) s

  -- `while True`, on fuel; `none` means that the fuel ran out.
  unfoldable pub drain_loop : ℕ → ℕ → Progress W → Option (Outcome W)
  unfolding step refreshed end_drain
  drain_loop zero retried p = none
  drain_loop (suc fuel) retried p =
      let (claimed, s) = claim_next_pending (agent.now p.world) p.store in
      elim claimed [
        | none ↦ some (drained p.done p.failed retried (end_drain s p.world) p.world)
        | some item ↦
            let (w, _) = agent.ingest_content p.world item in
            elim (step item (record p { store = s })) [
              | none ↦ some (keyboard_interrupt (end_drain s w) w)
              | some p' ↦ drain_loop fuel retried (refreshed p')
            ]
      ]

  unfoldable pub retry : Bool → ℕ → Store → ℕ × Store
  retry false max_retries s = (0, s)
  retry true max_retries s = retry_failed max_retries s

  unfoldable pub begin : ℕ → W → ℕ × Store → Option (Outcome W)
  unfolding drain_loop
  begin fuel w (retried, s) =
      drain_loop fuel retried (record { store = s; world = w; done = 0; failed = 0 })

  unfoldable pub drain_queue : ℕ → Bool → ℕ → Store → W → Option (Outcome W)
  unfolding begin retry
  drain_queue fuel retry_first max_retries s w =
      let (taken, s') = acquire_worker_lease (at w) default_lease_ttl s in
      if taken then begin fuel w (retry retry_first max_retries s') else some (drained 0 0 0 s' w)
