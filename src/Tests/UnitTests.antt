-- ===== src/Tests/UnitTests.antt =====
-- Memory units: creations, transitions and restores on a small store.

use membox.Base.{
  ℕ, ◌≡◌, ◌⊎◌, refl, arith, String, true, false, none, some, [], ◌∷◌, any_of, first_where,
}
use membox.Base.Text.{join, strip, lstrip, rstrip, casefold, is_space, is_empty}
use membox.Model.{
  UnitType, UnitStatus, TemporalType, SourceKind, UnitSource, UnitRecord, type_value,
  is_memory_label,
}
use membox.Model.Enums.{same_type, same_status, same_source_kind}
use membox.Store.Units.{
  UnitRow, Store, Error, ok, err, Hashing, Transition, status_at, has_key, memory_unit_content_hash,
  find_unit_covering_sources, covering_unit, covers, later_id, create_memory_unit,
  validate_memory_unit, validate_labels, validate_sources, insert_unit, create_fresh, insert_row,
  lookup_unit_id, fill_unit, log_entry, transition_memory_unit, transition_memory_units_atomically,
  restore_memory_unit, last_archived,
}
use membox.Store.Units.Log.{last_status, Agrees, here, next, batch, Moved-Agrees}
use membox.Store.Units.Batch.{first_fault, Applied, atomically-all_or_nothing}
use membox.Store.Units.Restore.{restore_memory_unit-archived, restore_memory_unit-never_archived}
use membox.Store.Units.Cover.{IsWellFormed}
use membox.Store.Units.Formed.{create_memory_unit-IsWellFormed}
use membox.Store.Units.Dedup.{create_memory_unit-twice, create_memory_unit-clash}

-- Folding that changes nothing, and a hash that is the text itself.
abbrev pub hashing : Hashing
hashing = record { fold = λ c. String.◌∷◌ c String.[]; sha256_hex = λ s. s }

abbrev pub source_of : SourceKind → String → UnitSource
source_of kind ref = record {
  source_kind = kind;
  source_ref = ref;
  source_message_id = "";
  quote = "we adopt WAL mode";
}

abbrev pub record_of : UnitType → String → String → UnitSource → UnitRecord
record_of kind title content source = record {
  id = none;
  project = "membox";
  unit_type = kind;
  status = UnitStatus.active_unit;
  title = title;
  content = content;
  context = "";
  importance_score = 80;
  confidence_score = 75;
  temporal_type = TemporalType.unknown;
  valid_from = none;
  valid_to = none;
  superseded_by = none;
  labels = "storage" ∷ [];
  sources = source ∷ [];
  updated_at = none;
  recall_count = 0;
  last_recalled_at = none;
  why = some "durability";
  how_to_apply = none;
  next_step = none;
}

abbrev wal : UnitRecord
wal = record_of UnitType.decision "WAL" "use WAL" (source_of SourceKind.document "doc:1")

abbrev pub unit_row : ℕ → UnitStatus → UnitRow
unit_row i status = record {
  id = i;
  project = "membox";
  unit_type = UnitType.decision;
  status = status;
  title = "Old";
  content = "old";
  content_hash = "decision\nOld\nold\n\nmembox";
  context = "";
  importance_score = 80;
  confidence_score = 75;
  temporal_type = TemporalType.unknown;
  valid_from = none;
  valid_to = none;
  superseded_by = none;
  why = none;
  how_to_apply = none;
  next_step = none;
  updated_at = none;
  recall_count = 0;
  last_recalled_at = none;
}

-- Unit 1 is active and unit 2, with other content, is retracted.
abbrev pub notes : Store
notes = record {
  memory_units =
      record (unit_row 1 UnitStatus.active_unit) { content_hash = "first" }
      ∷ unit_row 2 UnitStatus.retracted
      ∷ [];
  next_id = 3;
  labels = [];
  sources =
      record {
        unit_id = 1;
        source_kind = SourceKind.document;
        source_ref = "doc:0";
        source_message_id = "";
        quote = "";
      }
      ∷ [];
  status_log =
      log_entry 1 none UnitStatus.active_unit "c" "created" ""
      ∷ log_entry 2 none UnitStatus.retracted "c" "created" ""
      ∷ [];
  message_sessions = [];
  event_sessions = [];
}

notes-IsWellFormed : IsWellFormed notes
notes-IsWellFormed = record { units = ground arith; sources = ground arith }

abbrev after : Store
after = fill_unit wal "capture" 3 (record notes {
  memory_units =
      record (unit_row 1 UnitStatus.active_unit) { content_hash = "first" }
      ∷ unit_row 2 UnitStatus.retracted
      ∷ insert_row 50 (memory_unit_content_hash hashing wal) 3 wal
      ∷ [];
  next_id = 4;
})

created_wal : create_memory_unit hashing 50 wal "capture" notes ≡ ok (3, after)
unfolding create_memory_unit validate_memory_unit validate_labels validate_sources is_memory_label
    is_empty find_unit_covering_sources covering_unit covers later_id insert_unit create_fresh
    lookup_unit_id has_key memory_unit_content_hash insert_row join type_value strip lstrip rstrip
    casefold is_space same_source_kind same_status same_type
created_wal = refl

new_content :
    any_of
      (has_key "membox" UnitType.decision (memory_unit_content_hash hashing wal))
      notes.memory_units
    ≡ false
unfolding has_key memory_unit_content_hash join type_value strip lstrip rstrip casefold is_space
    is_empty same_type
new_content = refl

create_memory_unit-twice_example : create_memory_unit hashing 50 wal "capture" after ≡ ok (3, after)
create_memory_unit-twice_example =
    create_memory_unit-twice hashing 50 wal "capture" notes 3 after notes-IsWellFormed
      (ground arith) new_content created_wal

create_memory_unit-IsWellFormed_example : IsWellFormed after
create_memory_unit-IsWellFormed_example =
    create_memory_unit-IsWellFormed hashing 50 wal "capture" notes 3 after notes-IsWellFormed
      created_wal

-- The content of the retracted unit, captured again from another document.
abbrev again : UnitRecord
again = record_of UnitType.decision "Old" "old" (source_of SourceKind.document "doc:2")

not_covered : find_unit_covering_sources notes again.sources ≡ none
unfolding find_unit_covering_sources covering_unit covers later_id same_source_kind
not_covered = refl

clash :
    first_where
      (has_key "membox" UnitType.decision (memory_unit_content_hash hashing again))
      notes.memory_units
    ≡ some (unit_row 2 UnitStatus.retracted)
unfolding has_key memory_unit_content_hash join type_value strip lstrip rstrip casefold is_space
    is_empty same_type
clash = refl

clashed :
    create_memory_unit hashing 50 again "capture" notes ≡ ok (2, fill_unit again "capture" 2 notes)
unfolding create_memory_unit validate_memory_unit validate_labels validate_sources is_memory_label
    is_empty find_unit_covering_sources covering_unit covers later_id insert_unit create_fresh
    lookup_unit_id has_key memory_unit_content_hash join type_value strip lstrip rstrip casefold
    is_space same_source_kind same_status same_type
clashed = refl

-- The retracted unit stays retracted, and its log ends with a creation as active.
create_memory_unit-clash_example :
    (◌≡◌ {A = ℕ} 2 2)
    × (status_at 2 (fill_unit again "capture" 2 notes) ≡ status_at 2 notes)
    × (last_status 2 (fill_unit again "capture" 2 notes).status_log ≡ some UnitStatus.active_unit)
create_memory_unit-clash_example =
    create_memory_unit-clash hashing 50 again "capture" notes 2 (fill_unit again "capture" 2 notes)
      (unit_row 2 UnitStatus.retracted) not_covered clash clashed

abbrev supersession : ℕ → ℕ → Transition
supersession old new = record {
  unit_id = old;
  title = "Old";
  to_status = UnitStatus.superseded;
  reason = "newer";
  superseded_by = some new;
}

-- A batch whose second action has no unit: nothing is applied.
atomically-all_or_nothing_example :
    ((s' : Store) × (first_fault notes (supersession 1 2 ∷ supersession 9 1 ∷ []) ≡ none)
      × (transition_memory_units_atomically 60 "c" (supersession 1 2 ∷ supersession 9 1 ∷ []) notes
          ≡ (ok 2, s'))
      × Applied 60 "c" (supersession 1 2 ∷ supersession 9 1 ∷ []) notes s')
    ⊎ ((e : Error) × (first_fault notes (supersession 1 2 ∷ supersession 9 1 ∷ []) ≡ some e)
        × (transition_memory_units_atomically 60 "c"
              (supersession 1 2 ∷ supersession 9 1 ∷ [])
              notes
            ≡ (err e, notes)))
atomically-all_or_nothing_example =
    atomically-all_or_nothing 60 "c" (supersession 1 2 ∷ supersession 9 1 ∷ []) notes

notes-Agrees : Agrees notes
unfolding last_status
notes-Agrees = record { at = λ i. ground arith }

abbrev moved : Store
moved = (transition_memory_units_atomically 60 "c" (supersession 1 2 ∷ []) notes).1

Moved-Agrees_example : Agrees moved
Moved-Agrees_example =
    Moved-Agrees notes-Agrees (next here (batch 60 "c" (supersession 1 2 ∷ []) notes))

restore_memory_unit-archived_example :
    (s₁ : Store) × (s₂ : Store) × (transition_memory_unit 60 1 UnitStatus.archived "c" "old" "" none
        notes
      ≡ ok (true, s₁))
    × (status_at 1 s₁ ≡ some UnitStatus.archived)
    × (restore_memory_unit 70 1 "needed" s₁ ≡ ok (true, s₂))
    × (status_at 2 s₂ ≡ status_at 2 notes)
restore_memory_unit-archived_example =
    restore_memory_unit-archived 60 70 1 2 "c" "old" "" "needed" notes refl

never : last_archived 2 notes.status_log ≡ none
unfolding last_archived same_status
never = refl

-- The retracted unit becomes active.
restore_memory_unit-never_archived_example :
    (s' : Store) × (restore_memory_unit 70 2 "oops" notes ≡ ok (true, s'))
    × (status_at 2 s' ≡ some UnitStatus.active_unit)
restore_memory_unit-never_archived_example =
    restore_memory_unit-never_archived 70 2 "oops" notes refl never
