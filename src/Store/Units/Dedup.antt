-- ===== src/Store/Units/Dedup.antt =====
-- `create_memory_unit`: what it returns, a second creation of the same unit, and a clash of content
-- with an existing unit.

use membox.Base.{
  ℕ, ◌≡◌, ◌≢◌, sym, ap, ◌∙◌, false, none, some, List, [], ◌∷◌, arith, String, eq_iff, ==_iff,
  List-cases, Option-cases, inl, inr, any_of, first_where, first_where-append, any_of-first_where,
}
use membox.Model.{UnitStatus, UnitSource, UnitRecord}
use membox.Model.Enums.{same_type_iff}
use membox.Store.Units.Tables.{UnitRow, Store, ok, Hashing, status_at, log_entry, Result-cases}
use membox.Store.Units.Create.{
  validate_memory_unit, find_unit_covering_sources, memory_unit_content_hash, has_key, insert_row,
  create_fresh, insert_unit, lookup_unit_id, fill_unit, create_memory_unit,
}
use membox.Store.Units.Log.{last_status, last_status-append}
use membox.Store.Units.Cover.{IsWellFormed, created, find-created}

-- A valid unit has a source.
first_source :
    (unit : UnitRecord)
    → validate_memory_unit unit ≡ ok tt
    → (source : UnitSource) × (sources : List UnitSource) × (unit.sources ≡ source ∷ sources)
unfolding validate_memory_unit
first_source unit valid = elim (List-cases unit.sources) [
  | inl e ↦ ground (arith, e, valid)
  | inr (source, sources, e) ↦ (source, sources, e)
]

module _ (h : Hashing) (now : ℕ) (unit : UnitRecord) (command : String) (s : Store) where
  create-covered :
      (i : ℕ)
      → validate_memory_unit unit ≡ ok tt
      → find_unit_covering_sources s unit.sources ≡ some i
      → create_memory_unit h now unit command s ≡ ok (i, s)
  unfolding create_memory_unit
  create-covered i valid covered = ground (arith, valid, covered)

  module _ (i : ℕ) (s' : Store)
      (result : create_memory_unit h now unit command s ≡ ok (i, s')) where
    abbrev content_hash : String
    content_hash = memory_unit_content_hash h unit

    create-valid : validate_memory_unit unit ≡ ok tt
    unfolding create_memory_unit
    create-valid = ground (arith, result, Result-cases (validate_memory_unit unit))

    -- What a creation returns where another unit has the sources.
    pub create-covered_result :
        (j : ℕ) → find_unit_covering_sources s unit.sources ≡ some j → (i ≡ j) × (s' ≡ s)
    unfolding create_memory_unit
    create-covered_result j covered = ground (arith, result, create-valid, covered)

    -- What a creation of new content returns and leaves.
    pub create-fresh_result :
        find_unit_covering_sources s unit.sources ≡ none
        → any_of (has_key unit.project unit.unit_type content_hash) s.memory_units ≡ false
        → (i ≡ s.next_id) × (s' ≡ created now content_hash unit command s)
    unfolding create_memory_unit insert_unit create_fresh lookup_unit_id has_key insert_row
    create-fresh_result free new =
        let find = has_key unit.project unit.unit_type content_hash in
        let row = insert_row now content_hash s.next_id unit in
        let split = first_where-append find s.memory_units (row ∷ []) in
        ground (
          arith,
          result,
          create-valid,
          free,
          new,
          split,
          any_of-first_where find s.memory_units,
          Option-cases (first_where find s.memory_units),
          Option-cases unit.superseded_by,
          eq_iff unit.project unit.project,
          eq_iff content_hash content_hash,
          same_type_iff unit.unit_type unit.unit_type,
        )

    pub create-clash_result :
        (r : UnitRow)
        → find_unit_covering_sources s unit.sources ≡ none
        → first_where (has_key unit.project unit.unit_type content_hash) s.memory_units ≡ some r
        → (i ≡ r.id) × (s' ≡ fill_unit unit command r.id s)
    unfolding create_memory_unit insert_unit lookup_unit_id
    create-clash_result r free clash = ground (
      arith,
      result,
      create-valid,
      free,
      clash,
      any_of-first_where (has_key unit.project unit.unit_type content_hash) s.memory_units,
    )

    create-twice_fresh :
        IsWellFormed s
        → unit.status ≢ UnitStatus.retracted
        → find_unit_covering_sources s unit.sources ≡ none
        → any_of (has_key unit.project unit.unit_type content_hash) s.memory_units ≡ false
        → find_unit_covering_sources s' unit.sources ≡ some i
    create-twice_fresh formed live free new =
        let (source, sources, e) = first_source unit create-valid in
        let (same, made) = create-fresh_result free new in
        let found =
          find-created now content_hash unit command s source sources e formed live free in
        ap (λ t. find_unit_covering_sources t unit.sources) made ∙ (found ∙ ap some (sym same))

module _ (h : Hashing) (now : ℕ) (unit : UnitRecord) (command : String) (s : Store) where
  -- A store is well-formed, no row of it has the project, the type and the content hash of a unit,
  -- whose status is not retracted. Then a creation that returned an id and a store returns, from that
  -- store, the same id and the store unchanged.
  pub create_memory_unit-twice :
      (i : ℕ) (s' : Store)
      → IsWellFormed s
      → unit.status ≢ UnitStatus.retracted
      → any_of
          (has_key unit.project unit.unit_type (memory_unit_content_hash h unit))
          s.memory_units
        ≡ false
      → create_memory_unit h now unit command s ≡ ok (i, s')
      → create_memory_unit h now unit command s' ≡ ok (i, s')
  create_memory_unit-twice i s' formed live new result =
      let valid = create-valid h now unit command s i s' result in
      elim (Option-cases (find_unit_covering_sources s unit.sources)) [
        | inl free ↦
            create-covered h now unit command s' i valid
              (create-twice_fresh h now unit command s i s' result formed live free new)
        | inr (j, covered) ↦
            let (same, kept) = create-covered_result h now unit command s i s' result j covered in
            ground (arith, result, kept)
      ]

  -- No live unit has the sources of a unit, and a row has its project, its type and its content hash.
  -- Then a creation that succeeds returns the id of that row and leaves its status, and the last
  -- status that the log then gives the row is the status of the unit that was to be created.
  pub create_memory_unit-clash :
      (i : ℕ) (s' : Store) (r : UnitRow)
      → find_unit_covering_sources s unit.sources ≡ none
      → first_where
          (has_key unit.project unit.unit_type (memory_unit_content_hash h unit))
          s.memory_units
        ≡ some r
      → create_memory_unit h now unit command s ≡ ok (i, s')
      → (i ≡ r.id)
        × (status_at i s' ≡ status_at i s)
        × (last_status i s'.status_log ≡ some unit.status)
  unfolding fill_unit
  create_memory_unit-clash i s' r free clash result =
      let (same, made) = create-clash_result h now unit command s i s' result r free clash in
      let log = last_status-append r.id s.status_log (
        log_entry r.id none unit.status command "created"
          (elim unit.sources [ [] ↦ "" | source ∷ _ ↦ source.source_ref ])) in
      ground (arith, same, made, log, ==_iff r.id r.id)
