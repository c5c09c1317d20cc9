-- ===== src/Store/Units/Log.antt =====
-- The status log: its last entry for a unit is the unit's status, as the transitions keep it.

use mathlib.Core.Path.{subst}
use membox.Base.{
  ℕ, ◌≡◌, refl, Bool, ◌&&◌, Option, none, some, List, [], ◌∷◌, ◌++◌, arith, String, ◌==◌, ==_iff,
  if◌then◌else◌, Option-cases, inl, inr, is_some, first_where-update_where, first_where-holds,
}
use membox.Model.{UnitStatus}
use membox.Model.Enums.{same_status, same_status_iff}
use membox.Store.Units.Tables.{
  UnitRow, LogRow, Store, ok, unit_at, status_at, has_unit_id, log_entry, Result-cases,
}
use membox.Store.Units.Moves.{
  Transition, move_unit, write_transition, transition_memory_unit, apply_one, apply_each,
  transition_memory_units_atomically, last_archived, prior_status, restore_memory_unit, rollback,
}

-- The status that the last entry about a unit leaves it in.
unfoldable pub last_status : ℕ → List LogRow → Option UnitStatus
last_status i [] = none
last_status i (row ∷ rows) =
    let rest = last_status i rows in
    if is_some rest then rest else if row.unit_id == i then some row.to_status else none

pub last_status-append :
    (i : ℕ) (log : List LogRow) (row : LogRow)
    → last_status i (log ++ row ∷ [])
      ≡ (if row.unit_id == i then some row.to_status else last_status i log)
unfolding last_status
last_status-append i [] row = ground arith
last_status-append i (q ∷ log) row = ground (arith, last_status-append i log row)

-- The log records the status of every unit.
pub record Agrees (s : Store) : Type 0 where
  pub at :
      (i : ℕ) → (if is_some (unit_at i s) then last_status i s.status_log else none) ≡ status_at i s

-- The moved unit, and every other unit as it was.
pub unit_at-write_transition :
    (now i : ℕ) (to : UnitStatus) (target : Option ℕ) (command reason ref : String) (s : Store)
    {r : UnitRow}
    → unit_at i s ≡ some r
    → (j : ℕ)
    → unit_at j (write_transition now i r.status to target command reason ref s)
      ≡ (if i == j then some (move_unit now to target r) else unit_at j s)
unfolding write_transition
unit_at-write_transition now i to target command reason ref s {r} e j =
    let moved =
      first_where-update_where (has_unit_id j)
        (λ q. has_unit_id i q && same_status q.status r.status) (move_unit now to target)
        s.memory_units (λ x. refl) in
    elim (Option-cases (unit_at j s)) [
      | inl nothing ↦ ground (arith, moved, e, nothing, ==_iff i j)
      | inr (q, found) ↦
          let id = first_where-holds (has_unit_id j) s.memory_units found in
          ground (arith, moved, e, found, id, ==_iff i j, same_status_iff q.status r.status)
    ]

-- A transition moves one unit and logs it; all else in the store stays.
pub write_transition-Agrees :
    (now i : ℕ) (to : UnitStatus) (target : Option ℕ) (command reason ref : String) (s : Store)
    {r : UnitRow}
    → unit_at i s ≡ some r
    → Agrees s
    → Agrees (write_transition now i r.status to target command reason ref s)
unfolding write_transition
write_transition-Agrees now i to target command reason ref s {r} e agrees = record {
  at = λ j.
      let units = unit_at-write_transition now i to target command reason ref s e j in
      let log =
        last_status-append j s.status_log (log_entry i (some r.status) to command reason ref) in
      elim (Option-cases (unit_at j s)) [
        | inl nothing ↦ ground (arith, units, log, nothing, e, ==_iff i j)
        | inr (q, found) ↦ ground (arith, units, log, found, e, agrees.at j, ==_iff i j)
      ];
}

transition_memory_unit-Agrees :
    (now i : ℕ) (to : UnitStatus) (command reason ref : String) (target : Option ℕ) (s : Store)
    {b : Bool} {s' : Store}
    → transition_memory_unit now i to command reason ref target s ≡ ok (b, s')
    → Agrees s
    → Agrees s'
unfolding transition_memory_unit
transition_memory_unit-Agrees now i to command reason ref target s {b} {s'} e agrees =
    elim (Option-cases (unit_at i s)) [
      | inl nothing ↦ let same : s ≡ s' = ground arith in subst Agrees same agrees
      | inr (r, found) ↦
          let same : write_transition now i r.status to target command reason ref s ≡ s' =
            ground arith in
          subst Agrees same
            (write_transition-Agrees now i to target command reason ref s found agrees)
    ]

apply_one-Agrees :
    (now : ℕ) (command : String) (a : Transition) (s : Store) {s' : Store}
    → apply_one now command a s ≡ ok s'
    → Agrees s
    → Agrees s'
unfolding apply_one
apply_one-Agrees now command a s {s'} e agrees = elim (Option-cases (unit_at a.unit_id s)) [
  | inl nothing ↦ absurd (ground arith)
  | inr (r, found) ↦
      let same : write_transition now a.unit_id r.status a.to_status a.superseded_by command
            a.reason "" s
          ≡ s' =
        ground arith in
      subst Agrees same (
        write_transition-Agrees now a.unit_id a.to_status a.superseded_by command a.reason "" s
          found agrees)
]

apply_each-Agrees :
    (now : ℕ) (command : String) (actions : List Transition) (s : Store) {s' : Store}
    → apply_each now command actions s ≡ ok s'
    → Agrees s
    → Agrees s'
unfolding apply_each
apply_each-Agrees now command [] s {s'} e agrees =
    let same : s ≡ s' = ground arith in subst Agrees same agrees
apply_each-Agrees now command (a ∷ actions) s e agrees =
    elim (Result-cases (apply_one now command a s)) [
      | inl (s₁, one) ↦
          apply_each-Agrees now command actions s₁ (rw one at e)
            (apply_one-Agrees now command a s one agrees)
      | inr (error, failed) ↦ absurd (ground arith)
    ]

atomically-Agrees :
    (now : ℕ) (command : String) (actions : List Transition) (s : Store)
    → Agrees s
    → Agrees (transition_memory_units_atomically now command actions s).1
unfolding transition_memory_units_atomically rollback
atomically-Agrees now command [] s agrees = agrees
atomically-Agrees now command (a ∷ actions) s agrees =
    elim (Result-cases (apply_each now command (a ∷ actions) s)) [
      | inl (s', done) ↦ rw done (apply_each-Agrees now command (a ∷ actions) s done agrees)
      | inr (error, failed) ↦ rw failed agrees
    ]

-- One call of an operation that changes the status of units.
pub data Move : Store → Store → Type 0 where
  transition :
      (now i : ℕ) (to : UnitStatus) (command reason ref : String) (target : Option ℕ) (s : Store)
      {b : Bool} {s' : Store}
      → transition_memory_unit now i to command reason ref target s ≡ ok (b, s')
      → Move s s'
  batch :
      (now : ℕ) (command : String) (actions : List Transition) (s : Store)
      → Move s (transition_memory_units_atomically now command actions s).1
  restore :
      (now i : ℕ) (reason : String) (s : Store) {b : Bool} {s' : Store}
      → restore_memory_unit now i reason s ≡ ok (b, s')
      → Move s s'

pub data Moved (s : Store) : Store → Type 0 where
  here : Moved s s
  next : {t u : Store} → Moved s t → Move t u → Moved s u

Move-Agrees : {s s' : Store} → Move s s' → Agrees s → Agrees s'
unfolding restore_memory_unit
Move-Agrees (transition now i to command reason ref target s e) agrees =
    transition_memory_unit-Agrees now i to command reason ref target s e agrees
Move-Agrees (batch now command actions s) agrees = atomically-Agrees now command actions s agrees
Move-Agrees (restore now i reason s e) agrees =
    transition_memory_unit-Agrees now i (prior_status (last_archived i s.status_log))
      "memory restore" reason "" none s e agrees

-- If the last log entry about each unit names its status, it does so after any transitions, batches
-- (applied or rolled back) and restores.
pub Moved-Agrees : {s s' : Store} → Agrees s → Moved s s' → Agrees s'
Moved-Agrees agrees here = agrees
Moved-Agrees agrees (next moved move) = Move-Agrees move (Moved-Agrees agrees moved)
