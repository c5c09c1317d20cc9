-- ===== src/Store/Queue/Exclusion.antt =====
-- The worker lease: who may take it, for how long, and what taking it recovers.
use mathlib.Core.Path.{subst}
use membox.Base.{
  map, ℕ, ◌+◌, ◌≤◌, ◌<◌, ◌≡◌, ◌↔◌, refl, Bool, true, false, Option, none, some, List, [], ◌∷◌,
  arith, ltb, eq_iff, if◌then◌else◌, count_where, update_where, is_some,
}
use membox.Store.Meta
use membox.Store.Meta.{read-write, read-delete}
use membox.Store.Leases.{Process, Value, Lease, render_lease, parse_lease, lease_is_mine}
use membox.Store.Queue.{
  Row, Store, pending, processing, done, failed, is_pending, is_processing, is_done, is_failed,
  reset_processing, recover, refresh_worker_lease, acquire_worker_lease, take_lease, is_held,
  may_release, release_worker_lease, drop_lease, worker_is_alive, lease_row_is_live, value_is_live,
  lease_key,
}

-- Two processes are the same owner.
abbrev pub SameOwner : Process → Process → Type 0
SameOwner p q = (p.pid ≡ q.pid) × (p.hostname ≡ q.hostname)

-- The lease row of a store, and one that a process wrote.
abbrev pub lease_row : Store → Option Value
lease_row s = Meta.read lease_key s.meta

abbrev parsed_is_mine : Process → Option Lease → Bool
parsed_is_mine q none = false
parsed_is_mine q (some lease) = lease_is_mine q lease

abbrev pub Holds : Process → Store → Type 0
Holds p s = lease_row s ≡ some (render_lease p)

pub refresh-Holds : (p : Process) (s : Store) → Holds p (refresh_worker_lease p s)
unfolding refresh_worker_lease
refresh-Holds p s =
    ground
      (arith, read-write lease_key lease_key (render_lease p) s.meta, eq_iff lease_key lease_key)

-- A process that takes the lease has its own record in the row.
take_lease-Holds :
    (p : Process) (ttl : ℕ) (v : Option Value) (s : Store) {s' : Store}
    → take_lease p ttl v s ≡ (true, s')
    → Holds p s'
unfolding take_lease
take_lease-Holds p ttl none s e = ground (arith, refresh-Holds p s)
take_lease-Holds p ttl (some v) s e = ground (arith, refresh-Holds p (reset_processing s))

pub acquire-Holds :
    (p : Process) (ttl : ℕ) (s : Store) {s' : Store}
    → acquire_worker_lease p ttl s ≡ (true, s')
    → Holds p s'
unfolding acquire_worker_lease
acquire-Holds p ttl s taken = take_lease-Holds p ttl (lease_row s) s taken

is_mine_of_SameOwner :
    (p q : Process) → SameOwner p q ↔ (parsed_is_mine q (parse_lease (render_lease p)) ≡ true)
unfolding parse_lease render_lease lease_is_mine
is_mine_of_SameOwner p q =
    (ground (arith, eq_iff p.hostname q.hostname), ground (arith, eq_iff p.hostname q.hostname))

is_held-render :
    (p q : Process) (ttl : ℕ)
    → q.now < p.now + ttl
    → ¬ SameOwner p q
    → is_held q ttl (parse_lease (render_lease p)) ≡ true
unfolding is_held parse_lease render_lease
is_held-render p q ttl young differ =
    let mine = is_mine_of_SameOwner p q in ground (arith, mine.1, differ)

is_held-expired :
    (p q : Process) (ttl : ℕ)
    → p.now + ttl ≤ q.now
    → is_held q ttl (parse_lease (render_lease p)) ≡ false
unfolding is_held parse_lease render_lease
is_held-expired p q ttl old = ground arith

acquire_worker_lease-held :
    (p q : Process) (ttl : ℕ) (s : Store)
    → Holds p s
    → ¬ SameOwner p q
    → (acquire_worker_lease q ttl s ≡ (
        if ltb q.now (p.now + ttl)
        then (false, s)
        else (true, refresh_worker_lease q (reset_processing s))))
      × (worker_is_alive q ttl s ≡ ltb q.now (p.now + ttl))
unfolding acquire_worker_lease take_lease worker_is_alive lease_row_is_live
acquire_worker_lease-held p q ttl s holds differ = (
  ground (arith, is_held-render p q ttl, is_held-expired p q ttl, differ, holds),
  unfold value_is_live parse_lease render_lease in ground (arith, holds),
)

-- A row as the next owner finds it: one that was being processed is pending again, with no start.
abbrev put_back : Row → Row
put_back r = elim r.status [
  | pending ↦ r
  | processing ↦ record {
    id = r.id;
    content = r.content;
    project = r.project;
    source_path = r.source_path;
    doc_date = r.doc_date;
    status = pending;
    retries = r.retries;
    error = r.error;
    enqueued_at = r.enqueued_at;
    started_at = none;
    finished_at = r.finished_at;
  }
  | done ↦ r
  | failed ↦ r
]

-- The store that q has taken over.
abbrev pub taken_over : Process → Store → Store
taken_over q s = record s {
  ingest_queue = map put_back s.ingest_queue;
  meta = Meta.write lease_key (render_lease q) s.meta;
}

recovered-rows : (rows : List Row) → update_where is_processing recover rows ≡ map put_back rows
unfolding recover
recovered-rows [] = refl
recovered-rows (r ∷ rows) = ground (arith, recovered-rows rows)

recovered-store :
    (q : Process) (s : Store) → refresh_worker_lease q (reset_processing s) ≡ taken_over q s
unfolding refresh_worker_lease reset_processing
recovered-store q s = ground (arith, recovered-rows s.ingest_queue)

-- While p holds the lease, another process q is refused it exactly until p's last heartbeat is ttl
-- old, with the store unchanged, and sees a live worker for as long. From then on q takes the lease
-- over: q's record is in the lease row, every row that was being processed is pending again with no
-- start time, and all else in the store is as it was.
pub lease_lifetime :
    (p q : Process) (ttl : ℕ) (s : Store)
    → Holds p s
    → ¬ SameOwner p q
    → (acquire_worker_lease q ttl s
        ≡ (if ltb q.now (p.now + ttl) then (false, s) else (true, taken_over q s)))
      × (worker_is_alive q ttl s ≡ ltb q.now (p.now + ttl))
      × Holds q (taken_over q s)
lease_lifetime p q ttl s holds differ =
    let (taken, alive) = acquire_worker_lease-held p q ttl s holds differ in
    let same = recovered-store q s in
    (
      ground (arith, taken, same),
      alive,
      subst (Holds q) same (refresh-Holds q (reset_processing s)),
    )

-- Only one worker: once p has taken the lease, whatever it was before, a process q with another pid
-- or host does not take it until p's heartbeat is ttl old, and its attempt changes nothing.
pub acquire_worker_lease-excludes :
    (p q : Process) (ttl : ℕ) (s : Store) {s' : Store}
    → acquire_worker_lease p ttl s ≡ (true, s')
    → ¬ SameOwner p q
    → q.now < p.now + ttl
    → acquire_worker_lease q ttl s' ≡ (false, s')
unfolding acquire_worker_lease
acquire_worker_lease-excludes p q ttl s {s'} taken differ young =
    let holds = acquire-Holds p ttl s taken in
    ground (arith, acquire_worker_lease-held p q ttl s' holds differ)

may_release_own :
    (p p' : Process) → SameOwner p p' → may_release p' (parse_lease (render_lease p)) ≡ true
unfolding may_release parse_lease render_lease
may_release_own p p' same = ground (arith, (is_mine_of_SameOwner p p').0 same)

-- The holder's release leaves no lease row, and the rows of the queue as they are.
pub release-Holds :
    (p p' : Process) (s : Store)
    → Holds p s
    → SameOwner p p'
    → (lease_row (release_worker_lease p' s) ≡ none)
      × ((release_worker_lease p' s).ingest_queue ≡ s.ingest_queue)
unfolding release_worker_lease drop_lease
release-Holds p p' s holds same =
    let own = may_release_own p p' same in
    let erased = read-delete {V = Value} lease_key lease_key s.meta in
    (ground (arith, holds, own, erased, eq_iff lease_key lease_key), ground (arith, holds, own))

-- Releasing gives up the lease of the releasing process, whatever its clock says by then, and no
-- other: another process's release changes nothing. The rows stay as they are.
pub release_worker_lease-own :
    (p p' q : Process) (s : Store)
    → Holds p s
    → SameOwner p p'
    → ¬ SameOwner p q
    → (lease_row (release_worker_lease p' s) ≡ none)
      × ((release_worker_lease p' s).ingest_queue ≡ s.ingest_queue)
      × (release_worker_lease q s ≡ s)
unfolding release_worker_lease drop_lease
release_worker_lease-own p p' q s holds same differ =
    let theirs : may_release q (parse_lease (render_lease p)) ≡ false =
      unfold may_release parse_lease render_lease in
      ground (arith, (is_mine_of_SameOwner p q).1, differ) in
    let mine = release-Holds p p' s holds same in (mine.0, mine.1, ground (arith, holds, theirs))

-- A refresh does not look at the row: a process that lost the lease takes it back by its next
-- heartbeat, whoever holds it, and the holder is then refused it.
pub refresh_worker_lease-takes :
    (p q : Process) (ttl : ℕ) (s : Store)
    → Holds p s
    → ¬ SameOwner q p
    → p.now < q.now + ttl
    → Holds q (refresh_worker_lease q s)
      × (acquire_worker_lease p ttl (refresh_worker_lease q s) ≡ (false, refresh_worker_lease q s))
refresh_worker_lease-takes p q ttl s holds differ young =
    let taken = refresh-Holds q s in
    (
      taken,
      ground (arith, acquire_worker_lease-held q p ttl (refresh_worker_lease q s) taken differ),
    )

count-recovered :
    (rows : List Row)
    → let after = update_where is_processing recover rows in
      (count_where is_processing after ≡ 0)
      × (count_where is_pending after
          ≡ count_where is_pending rows + count_where is_processing rows)
      × (count_where is_done after ≡ count_where is_done rows)
      × (count_where is_failed after ≡ count_where is_failed rows)
unfolding recover
count-recovered [] = (refl, refl, refl, refl)
count-recovered (r ∷ rows) = ground (arith, count-recovered rows)

-- Recovery makes every row that was being processed pending again, and keeps the numbers of
-- finished and failed rows.
pub reset_processing-counts :
    (s : Store)
    → let after = (reset_processing s).ingest_queue in
      (count_where is_processing after ≡ 0)
      × (count_where is_pending after
          ≡ count_where is_pending s.ingest_queue + count_where is_processing s.ingest_queue)
      × (count_where is_done after ≡ count_where is_done s.ingest_queue)
      × (count_where is_failed after ≡ count_where is_failed s.ingest_queue)
unfolding reset_processing
reset_processing-counts s = count-recovered s.ingest_queue

-- What a process that takes the lease finds: the rows as they were if there was no lease row, and
-- the recovered rows otherwise.
pub acquire_worker_lease-rows :
    (p : Process) (ttl : ℕ) (s : Store) {s' : Store}
    → acquire_worker_lease p ttl s ≡ (true, s')
    → s'.ingest_queue
      ≡ (if is_some (lease_row s) then (reset_processing s).ingest_queue else s.ingest_queue)
unfolding acquire_worker_lease take_lease refresh_worker_lease
acquire_worker_lease-rows p ttl s e = ground arith
