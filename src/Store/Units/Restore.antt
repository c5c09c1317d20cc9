-- ===== src/Store/Units/Restore.antt =====
-- `restore_memory_unit` after an archival, and on a unit that was never archived.

use membox.Base.{
  ℕ, ◌≡◌, refl, true, none, some, List, [], ◌∷◌, ◌++◌, arith, String, ==_iff, ==_refl,
}
use membox.Model.{UnitStatus}
use membox.Model.Enums.{same_status}
use membox.Store.Units.Tables.{UnitRow, LogRow, Store, ok, unit_at, status_at, log_entry}
use membox.Store.Units.Moves.{
  move_unit, write_transition, transition_memory_unit, last_archived, prior_status,
  restore_memory_unit,
}
use membox.Store.Units.Log.{unit_at-write_transition}

last_archived-append :
    (i : ℕ) (log : List LogRow) (row : LogRow)
    → row.unit_id ≡ i
    → row.to_status ≡ UnitStatus.archived
    → last_archived i (log ++ row ∷ []) ≡ some row
unfolding last_archived same_status
last_archived-append i [] row e f = ground arith
last_archived-append i (q ∷ log) row e f = ground (arith, last_archived-append i log row e f)

transition-some :
    (now i : ℕ) (to : UnitStatus) (command reason ref : String) (s : Store) {r : UnitRow}
    → unit_at i s ≡ some r
    → transition_memory_unit now i to command reason ref none s
      ≡ ok (true, write_transition now i r.status to none command reason ref s)
unfolding transition_memory_unit
transition-some now i to command reason ref s e = ground (arith, e)

-- Archiving a unit and restoring it gives every unit of the store the status that it had.
pub restore_memory_unit-archived :
    (now now' i j : ℕ) (command reason ref reason' : String) (s : Store) {r : UnitRow}
    → unit_at i s ≡ some r
    → (s₁ : Store) × (s₂ : Store) × (transition_memory_unit now i UnitStatus.archived command reason
          ref none s
        ≡ ok (true, s₁))
      × (status_at i s₁ ≡ some UnitStatus.archived)
      × (restore_memory_unit now' i reason' s₁ ≡ ok (true, s₂))
      × (status_at j s₂ ≡ status_at j s)
unfolding restore_memory_unit prior_status
restore_memory_unit-archived now now' i j command reason ref reason' s {r} e =
    let s₁ : Store =
      write_transition now i r.status UnitStatus.archived none command reason ref s in
    let moved = unit_at-write_transition now i UnitStatus.archived none command reason ref s e in
    let r₁ : UnitRow = move_unit now UnitStatus.archived none r in
    let there : unit_at i s₁ ≡ some r₁ = ground (arith, moved i) in
    let row = log_entry i (some r.status) UnitStatus.archived command reason ref in
    let logged : last_archived i s₁.status_log ≡ some row =
      unfold write_transition in last_archived-append i s.status_log row refl refl in
    let s₂ : Store =
      write_transition now' i r₁.status r.status none "memory restore" reason' "" s₁ in
    let back = unit_at-write_transition now' i r.status none "memory restore" reason' "" s₁ there in
    (
      s₁,
      s₂,
      transition-some now i UnitStatus.archived command reason ref s e,
      rw there refl,
      rw logged (transition-some now' i r.status "memory restore" reason' "" s₁ there),
      ground (arith, back j, moved j, e, ==_iff i j),
    )

-- A restore does not look at the unit's present status: a unit that no log row archives becomes an
-- active unit, whatever it was, a retracted or superseded one included.
pub restore_memory_unit-never_archived :
    (now i : ℕ) (reason : String) (s : Store) {r : UnitRow}
    → unit_at i s ≡ some r
    → last_archived i s.status_log ≡ none
    → (s' : Store) × (restore_memory_unit now i reason s ≡ ok (true, s'))
      × (status_at i s' ≡ some UnitStatus.active_unit)
unfolding restore_memory_unit prior_status
restore_memory_unit-never_archived now i reason s {r} e never =
    let moved =
      unit_at-write_transition now i UnitStatus.active_unit none "memory restore" reason "" s e in
    (
      write_transition now i r.status UnitStatus.active_unit none "memory restore" reason "" s,
      rw never (transition-some now i UnitStatus.active_unit "memory restore" reason "" s e),
      ground (arith, moved i, ==_refl i),
    )
