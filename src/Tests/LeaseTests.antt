-- ===== src/Tests/LeaseTests.antt =====
-- The worker lease between two processes.
use Prim.Native.Nat.{◌+◌}
use membox.Base.{◌≡◌, refl, arith, true, false, none, ltb, if◌then◌else◌, count_where}
use membox.Store.Meta.{read, write}
use membox.Store.Leases.{Process}
use membox.Store.Queue.{
  Store, is_pending, is_processing, is_done, is_failed, acquire_worker_lease, take_lease,
  refresh_worker_lease, reset_processing, release_worker_lease, worker_is_alive, default_lease_ttl,
}
use membox.Store.Leases.{render_lease}
use membox.Base.{◌≢◌, [], eq_iff, str_eq, some, none}
use membox.Base.Text.{concat}
use membox.Store.Lifecycle.{
  Table, lifecycle_key, acquire_lifecycle_lease, take_lifecycle_lease, release_lifecycle_lease,
  acquire_lifecycle_lease-excludes, release_lifecycle_lease-own,
}
use membox.Store.Queue.Exclusion.{
  SameOwner, Holds, lease_row, acquire_worker_lease-excludes, lease_lifetime, taken_over,
  release_worker_lease-own, refresh_worker_lease-takes, reset_processing-counts,
}
use membox.Tests.QueueTests.{mixed}

abbrev pub anne : Process
anne = record { pid = 7; hostname = "desk"; now = 100 }

abbrev anne_later : Process
anne_later = record { pid = 7; hostname = "desk"; now = 150 }

abbrev pub ben : Process
ben = record { pid = 8; hostname = "desk"; now = 120 }

abbrev pub with_anne : Store
with_anne = refresh_worker_lease anne mixed

abbrev with_ben : Store
with_ben = refresh_worker_lease ben mixed

anne_takes : acquire_worker_lease anne default_lease_ttl mixed ≡ (true, with_anne)
unfolding acquire_worker_lease take_lease read
anne_takes = refl

anne-Holds : Holds anne with_anne
unfolding refresh_worker_lease read write
anne-Holds = refl

ben-Holds : Holds ben with_ben
unfolding refresh_worker_lease read write
ben-Holds = refl

others : ¬ SameOwner anne ben
others = ground arith

acquire_worker_lease-excludes_example :
    acquire_worker_lease ben default_lease_ttl with_anne ≡ (false, with_anne)
acquire_worker_lease-excludes_example =
    acquire_worker_lease-excludes anne ben default_lease_ttl mixed anne_takes others (ground arith)

lease_lifetime_example :
    (acquire_worker_lease ben 10 with_anne
      ≡ (if ltb 120 (100 + 10) then (false, with_anne) else (true, taken_over ben with_anne)))
    × (worker_is_alive ben 10 with_anne ≡ ltb 120 (100 + 10))
    × Holds ben (taken_over ben with_anne)
lease_lifetime_example = lease_lifetime anne ben 10 with_anne anne-Holds others

release_worker_lease-own_run :
    (lease_row (release_worker_lease anne_later with_anne) ≡ none)
    × ((release_worker_lease anne_later with_anne).ingest_queue ≡ with_anne.ingest_queue)
    × (release_worker_lease ben with_anne ≡ with_anne)
release_worker_lease-own_run =
    release_worker_lease-own anne anne_later ben with_anne anne-Holds (refl, refl) others

-- Anne lost her lease to Ben, and takes it back by a refresh.
refresh_worker_lease-takes_example :
    Holds anne (refresh_worker_lease anne with_ben)
    × (acquire_worker_lease ben 60 (refresh_worker_lease anne with_ben)
        ≡ (false, refresh_worker_lease anne with_ben))
refresh_worker_lease-takes_example =
    refresh_worker_lease-takes ben anne 60 with_ben ben-Holds others (ground arith)

reset_processing-counts_run :
    (count_where is_processing (reset_processing mixed).ingest_queue ≡ 0)
    × (count_where is_pending (reset_processing mixed).ingest_queue
        ≡ count_where is_pending mixed.ingest_queue + count_where is_processing mixed.ingest_queue)
    × (count_where is_done (reset_processing mixed).ingest_queue
        ≡ count_where is_done mixed.ingest_queue)
    × (count_where is_failed (reset_processing mixed).ingest_queue
        ≡ count_where is_failed mixed.ingest_queue)
reset_processing-counts_run = reset_processing-counts mixed

abbrev leased : Table
leased = write (lifecycle_key "membox") (render_lease anne) []

anne_leases : acquire_lifecycle_lease anne "membox" [] ≡ (true, leased)
unfolding acquire_lifecycle_lease take_lifecycle_lease read
anne_leases = refl

different : str_eq (lifecycle_key "other") (lifecycle_key "membox") ≡ false
unfolding lifecycle_key concat
different = refl

other_project : lifecycle_key "other" ≢ lifecycle_key "membox"
other_project = ground (arith, different, eq_iff (lifecycle_key "other") (lifecycle_key "membox"))

own_row : read (lifecycle_key "membox") leased ≡ some (render_lease anne)
unfolding lifecycle_key concat read write
own_row = refl

acquire_lifecycle_lease-excludes_example :
    (acquire_lifecycle_lease ben "membox" leased ≡ (false, leased))
    × (read (lifecycle_key "other") leased ≡ read (lifecycle_key "other") [])
acquire_lifecycle_lease-excludes_example =
    acquire_lifecycle_lease-excludes anne ben "membox" (lifecycle_key "other") [] anne_leases others
      (ground arith) other_project

release_lifecycle_lease-own_run :
    (read (lifecycle_key "membox") (release_lifecycle_lease anne_later "membox" leased) ≡ none)
    × (read (lifecycle_key "other") (release_lifecycle_lease anne_later "membox" leased)
        ≡ read (lifecycle_key "other") leased)
    × (release_lifecycle_lease ben "membox" leased ≡ leased)
release_lifecycle_lease-own_run =
    release_lifecycle_lease-own anne anne_later ben "membox" (lifecycle_key "other") leased own_row
      (refl, refl) others other_project
