-- ===== src/Store/Lifecycle.antt =====
-- `acquire_lifecycle_lease` and `release_lifecycle_lease` of core/store/memory_units.py: one lease in
-- `meta` for each project.
use membox.Base.{
  ℕ, ◌+◌, ◌*◌, ◌<◌, ◌≡◌, ◌≢◌, Bool, true, false, not, ◌&&◌, Option, none, some, List, [], ◌∷◌,
  arith, String, eq_iff, if◌then◌else◌, Option-cases,
}
use membox.Base.Text.{concat}
use membox.Store.Meta
use membox.Store.Meta.{read-write, read-delete}
use membox.Store.Leases.{
  Process, Value, Lease, second, render_lease, parse_lease, lease_is_live, lease_is_mine,
  heartbeat_is_live, is_younger,
}
use membox.Store.Queue.Exclusion.{SameOwner}

abbrev pub Table : Type 0
Table = List (String × Value)

abbrev pub lifecycle_ttl : ℕ
lifecycle_ttl = 30 * second

unfoldable pub lifecycle_key : String → String
unfolding concat
lifecycle_key project = concat ("lifecycle_lease:" ∷ project ∷ [])

unfoldable pub is_refused : Process → Option Lease → Bool
unfolding lease_is_live lease_is_mine
is_refused p none = false
is_refused p (some lease) = lease_is_live p lease lifecycle_ttl && not (lease_is_mine p lease)

unfoldable pub take_lifecycle_lease : Process → String → Option Value → Table → Bool × Table
unfolding is_refused parse_lease
take_lifecycle_lease p project none meta =
    (true, Meta.write (lifecycle_key project) (render_lease p) meta)
take_lifecycle_lease p project (some v) meta =
    if is_refused p (parse_lease v)
    then (false, meta)
    else (true, Meta.write (lifecycle_key project) (render_lease p) meta)

unfoldable pub acquire_lifecycle_lease : Process → String → Table → Bool × Table
unfolding take_lifecycle_lease Meta.read
acquire_lifecycle_lease p project meta =
    take_lifecycle_lease p project (Meta.read (lifecycle_key project) meta) meta

-- A row that is missing or garbled is deleted like one's own.
unfoldable pub drop_lifecycle_lease : Process → String → Option Lease → Table → Table
drop_lifecycle_lease p project none meta = Meta.delete (lifecycle_key project) meta
drop_lifecycle_lease p project (some lease) meta =
    if lease_is_mine p lease then Meta.delete (lifecycle_key project) meta else meta

unfoldable pub parsed_row : Option Value → Option Lease
unfolding parse_lease
parsed_row none = none
parsed_row (some v) = parse_lease v

unfoldable pub release_lifecycle_lease : Process → String → Table → Table
unfolding drop_lifecycle_lease parsed_row
release_lifecycle_lease p project meta =
    drop_lifecycle_lease p project (parsed_row (Meta.read (lifecycle_key project) meta)) meta

-- A process that gets the lease has written it.
acquire_lifecycle_lease-eq :
    (p : Process) (project : String) (meta : Table) {meta' : Table}
    → acquire_lifecycle_lease p project meta ≡ (true, meta')
    → meta' ≡ Meta.write (lifecycle_key project) (render_lease p) meta
unfolding acquire_lifecycle_lease take_lifecycle_lease
acquire_lifecycle_lease-eq p project meta e =
    ground (arith, e, Option-cases (Meta.read (lifecycle_key project) meta))

is_refused_by_other :
    (p q : Process)
    → ¬ SameOwner p q
    → q.now < p.now + lifecycle_ttl
    → is_refused q (parse_lease (render_lease p)) ≡ true
unfolding is_refused parse_lease render_lease lease_is_live lease_is_mine heartbeat_is_live
    is_younger
is_refused_by_other p q others young = ground (arith, others, young, eq_iff p.hostname q.hostname)

-- A process has taken the lease of a project. Within 30 seconds another process is refused it, which
-- changes nothing; and the rows of `meta` under any other key, another project's lease or the
-- worker's, are as they were.
pub acquire_lifecycle_lease-excludes :
    (p q : Process) (project key : String) (meta : Table) {meta' : Table}
    → acquire_lifecycle_lease p project meta ≡ (true, meta')
    → ¬ SameOwner p q
    → q.now < p.now + lifecycle_ttl
    → key ≢ lifecycle_key project
    → (acquire_lifecycle_lease q project meta' ≡ (false, meta'))
      × (Meta.read key meta' ≡ Meta.read key meta)
unfolding acquire_lifecycle_lease take_lifecycle_lease
acquire_lifecycle_lease-excludes p q project key meta taken others young other =
    let written = acquire_lifecycle_lease-eq p project meta taken in
    let own = lifecycle_key project in
    (
      ground (
        arith,
        written,
        is_refused_by_other p q others young,
        read-write own own (render_lease p) meta,
        eq_iff own own,
      ),
      ground (arith, written, read-write own key (render_lease p) meta, eq_iff own key, other),
    )

-- The lease row of a project is a process's. Its release, by whatever clock, deletes that row and no
-- row under another key; the release of another process changes nothing.
pub release_lifecycle_lease-own :
    (p p' q : Process) (project key : String) (meta : Table)
    → Meta.read (lifecycle_key project) meta ≡ some (render_lease p)
    → SameOwner p p'
    → ¬ SameOwner p q
    → key ≢ lifecycle_key project
    → (Meta.read (lifecycle_key project) (release_lifecycle_lease p' project meta) ≡ none)
      × (Meta.read key (release_lifecycle_lease p' project meta) ≡ Meta.read key meta)
      × (release_lifecycle_lease q project meta ≡ meta)
unfolding release_lifecycle_lease drop_lifecycle_lease parsed_row parse_lease render_lease
    lease_is_mine
release_lifecycle_lease-own p p' q project key meta row same others other =
    let own = lifecycle_key project in
    (
      ground (
        arith,
        row,
        same.0,
        same.1,
        read-delete own own meta,
        eq_iff own own,
        eq_iff p.hostname p'.hostname,
      ),
      ground (
        arith,
        row,
        same.0,
        same.1,
        read-delete own key meta,
        eq_iff own key,
        other,
        eq_iff p.hostname p'.hostname,
      ),
      ground (arith, row, others, eq_iff p.hostname q.hostname),
    )
