-- ===== src/Store/Units/Moves.antt =====
-- The audited status transitions: one by one, a batch in one transaction, and the restore.
use membox.Base.{
  ℕ, String, Bool, true, false, ◌&&◌, Option, none, some, List, [], ◌∷◌, ◌++◌, ◌==◌, if◌then◌else◌,
  update_where, is_some, length,
}
use membox.Model.{UnitStatus}
use membox.Model.Enums.{same_status}
use membox.Store.Units.Tables.{
  UnitRow, LogRow, Store, Result, ok, err, ◌>>=◌, unit_at, has_unit_id, log_entry, no_such_unit,
  no_such_target, supersedes_itself, foreign_key,
}

-- `ConsolidationTransition`, as the store reads it.
pub record Transition : Type 0 where
  pub unit_id : ℕ
  pub title : String
  pub to_status : UnitStatus
  pub reason : String
  pub superseded_by : Option ℕ

-- The foreign key of the column, checked at the UPDATE.
unfoldable pub target_exists : Option ℕ → Store → Bool
target_exists none s = true
target_exists (some target) s = is_some (unit_at target s)

-- `COALESCE(?, superseded_by)`
unfoldable pub move_unit : ℕ → UnitStatus → Option ℕ → UnitRow → UnitRow
move_unit now to_status superseded_by r = record r {
  status = to_status;
  superseded_by = elim superseded_by [ none ↦ r.superseded_by | some target ↦ some target ];
  updated_at = some now;
}

-- `UPDATE memory_units SET … WHERE id=? AND status=?`
unfoldable pub apply_status :
    ℕ → ℕ → UnitStatus → UnitStatus → Option ℕ → List UnitRow → List UnitRow
unfolding move_unit
apply_status now unit_id from_status to_status superseded_by =
    update_where (λ r. has_unit_id unit_id r && same_status r.status from_status)
      (move_unit now to_status superseded_by)

-- The UPDATE and the log row that both kinds of transition write.
unfoldable pub write_transition :
    ℕ → ℕ → UnitStatus → UnitStatus → Option ℕ → String → String → String → Store → Store
unfolding apply_status
write_transition now unit_id from_status to_status superseded_by command reason source_ref s =
    record s {
      memory_units = apply_status now unit_id from_status to_status superseded_by s.memory_units;
      status_log =
          s.status_log
          ++ log_entry unit_id (some from_status) to_status command reason source_ref ∷ [];
    }

-- `false` where there is no such unit. The row read is the row updated, in one transaction, so the
-- UPDATE always finds it.
unfoldable pub transition_memory_unit :
    ℕ → ℕ → UnitStatus → String → String → String → Option ℕ → Store → Result (Bool × Store)
unfolding write_transition target_exists
transition_memory_unit now unit_id to_status command reason source_ref superseded_by s =
    elim (unit_at unit_id s) [
      | none ↦ ok (false, s)
      | some r ↦
          if target_exists superseded_by s
          then ok (
            true,
            write_transition now unit_id r.status to_status superseded_by command reason source_ref
                s,
          )
          else err foreign_key
    ]

-- The checks on the supersession target of one action of a batch.
unfoldable pub validate_transition : Transition → Store → Result (Unit {0})
validate_transition action s = elim action.superseded_by [
  | none ↦ ok tt
  | some target ↦
      if is_some (unit_at target s)
      then if target == action.unit_id then err (supersedes_itself action.unit_id) else ok tt
      else err (no_such_target target)
]

unfoldable pub apply_one : ℕ → String → Transition → Store → Result Store
unfolding validate_transition write_transition
apply_one now command action s = elim (unit_at action.unit_id s) [
  | none ↦ err (no_such_unit action.unit_id)
  | some r ↦ validate_transition action s >>= λ _. ok (
      write_transition now action.unit_id r.status action.to_status action.superseded_by command
        action.reason "" s)
]

unfoldable pub apply_each : ℕ → String → List Transition → Store → Result Store
unfolding apply_one
apply_each now command [] s = ok s
apply_each now command (action ∷ actions) s =
    apply_one now command action s >>= λ s'. apply_each now command actions s'

-- `with self._cm.transaction()`: COMMIT, or ROLLBACK and raise.
unfoldable pub rollback : Store → ℕ → Result Store → Result ℕ × Store
rollback s n (ok s') = (ok n, s')
rollback s n (err e) = (err e, s)

unfoldable pub transition_memory_units_atomically :
    ℕ → String → List Transition → Store → Result ℕ × Store
unfolding apply_each rollback
transition_memory_units_atomically now command [] s = (ok 0, s)
transition_memory_units_atomically now command (action ∷ actions) s =
    let n = length (action ∷ actions) in rollback s n (apply_each now command (action ∷ actions) s)

-- `SELECT from_status … AND to_status='archived' ORDER BY id DESC LIMIT 1`
unfoldable pub last_archived : ℕ → List LogRow → Option LogRow
last_archived unit_id [] = none
last_archived unit_id (row ∷ rows) =
    let rest = last_archived unit_id rows in
    if is_some rest
    then rest
    else if row.unit_id == unit_id && same_status row.to_status UnitStatus.archived
    then some row
    else none

unfoldable pub prior_status : Option LogRow → UnitStatus
prior_status none = UnitStatus.active_unit
prior_status (some row) = elim row.from_status [
  | none ↦ UnitStatus.active_unit
  | some status ↦ status
]

unfoldable pub restore_memory_unit : ℕ → ℕ → String → Store → Result (Bool × Store)
unfolding last_archived prior_status transition_memory_unit
restore_memory_unit now unit_id reason s =
    transition_memory_unit now unit_id (prior_status (last_archived unit_id s.status_log))
      "memory restore" reason "" none s
