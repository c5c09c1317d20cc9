-- ===== src/Store/Units/Cover.antt =====
-- `find_unit_covering_sources` after a creation: the created unit covers its own sources.

use mathlib.Core.List.{append_assoc, append-nil}
use membox.Base.{
  ℕ, ◌+◌, ◌<◌, ◌≡◌, ◌≢◌, ◌⊎◌, refl, sym, ap, ◌∙◌, true, false, none, some, List, [], ◌∷◌, ◌++◌,
  arith, String, eq_iff, All, Option-cases, Bool-cases, inl, inr, any_of, first_where,
  first_where-append,
}
use membox.Model.{UnitStatus, UnitSource, UnitRecord}
use membox.Model.Enums.{same_status_iff, same_source_kind_iff}
use membox.Store.Units.Tables.{UnitRow, SourceRow, Store, unit_at, has_unit_id}
use membox.Store.Units.Create.{
  covers, covering_unit, find_unit_covering_sources, insert_row, same_source, source_row,
  insert_source, insert_sources, fill_unit,
}

-- Ids come from the counter, and a source row belongs to a unit that was created.
pub record IsWellFormed (s : Store) : Type 0 where
  pub units : All (λ r. r.id < s.next_id) s.memory_units
  pub sources : All (λ row. row.unit_id < s.next_id) s.sources

insert_source-old :
    (i : ℕ) (source : UnitSource) (rows : List SourceRow)
    → any_of (same_source i source) rows ≡ true
    → insert_source i source rows ≡ rows
unfolding insert_source
insert_source-old i source rows old = rw old

insert_source-new :
    (i : ℕ) (source : UnitSource) (rows : List SourceRow)
    → any_of (same_source i source) rows ≡ false
    → insert_source i source rows ≡ rows ++ source_row i source ∷ []
unfolding insert_source
insert_source-new i source rows new = rw new

-- The rows that INSERT OR IGNORE adds all belong to the unit.
pub insert_sources-extends :
    (i : ℕ) (sources : List UnitSource) (rows : List SourceRow)
    → (added : List SourceRow) × (insert_sources i sources rows ≡ rows ++ added)
      × All (λ row. row.unit_id ≡ i) added
unfolding insert_sources insert_source
insert_sources-extends i [] rows = ([], sym (append-nil rows), tt)
insert_sources-extends i (source ∷ sources) rows =
    let (more, e, h) = insert_sources-extends i sources (insert_source i source rows) in
    elim (Bool-cases (any_of (same_source i source) rows)) [
      | inl old ↦ (more, e ∙ ap (λ x. x ++ more) (insert_source-old i source rows old), h)
      | inr new ↦ (
        source_row i source ∷ more,
        e
            ∙ (ap (λ x. x ++ more) (insert_source-new i source rows new)
                ∙ append_assoc rows (source_row i source ∷ []) more),
        (refl, h),
      )
    ]

covering_unit-none :
    (s : Store) (source : UnitSource) (rows : List SourceRow)
    → covering_unit s source rows ≡ none
    → All (λ row. covers s source row ≡ false) rows
unfolding covering_unit
covering_unit-none s source [] e = tt
covering_unit-none s source (row ∷ rows) e =
    (ground arith, covering_unit-none s source rows (ground arith))

-- Rows of one unit cover by that unit or not at all.
covering_unit-own :
    (s : Store) (source : UnitSource) (i : ℕ) (rows : List SourceRow)
    → All (λ row. row.unit_id ≡ i) rows
    → (covering_unit s source rows ≡ none) ⊎ (covering_unit s source rows ≡ some i)
unfolding covering_unit
covering_unit-own s source i [] h = inl refl
covering_unit-own s source i (row ∷ rows) h = ground (arith, covering_unit-own s source i rows h.1)

covering_unit-found :
    (s : Store) (source : UnitSource) (i : ℕ) (old : List SourceRow) (row : SourceRow)
    (added : List SourceRow)
    → All (λ q. covers s source q ≡ false) old
    → row.unit_id ≡ i
    → covers s source row ≡ true
    → All (λ q. q.unit_id ≡ i) added
    → covering_unit s source (old ++ row ∷ added) ≡ some i
unfolding covering_unit
covering_unit-found s source i [] row added none_covers id yes_covers h =
    ground (arith, covering_unit-own s source i added h)
covering_unit-found s source i (q ∷ old) row added none_covers id yes_covers h =
    ground (arith, covering_unit-found s source i old row added none_covers.1 id yes_covers h)

module _ (now : ℕ) (content_hash : String) (unit : UnitRecord) (command : String) (s : Store) where
  -- The store after a creation of new content.
  abbrev pub grown : Store
  grown = record s {
    memory_units = s.memory_units ++ insert_row now content_hash s.next_id unit ∷ [];
    next_id = s.next_id + 1;
  }

  abbrev pub created : Store
  created = fill_unit unit command s.next_id grown

  unit_at-old : (i : ℕ) → i < s.next_id → unit_at i grown ≡ unit_at i s
  unfolding insert_row
  unit_at-old i lt =
      let split =
        first_where-append (has_unit_id i) s.memory_units
          (insert_row now content_hash s.next_id unit ∷ []) in
      ground (arith, split, Option-cases (unit_at i s))

  no_unit_at :
      (rows : List UnitRow)
      → All (λ r. r.id < s.next_id) rows
      → first_where (has_unit_id s.next_id) rows ≡ none
  no_unit_at [] h = refl
  no_unit_at (r ∷ rows) h = ground (arith, no_unit_at rows h.1, h.0)

  unit_at-new :
      All (λ r. r.id < s.next_id) s.memory_units
      → unit_at s.next_id grown ≡ some (insert_row now content_hash s.next_id unit)
  unfolding insert_row
  unit_at-new h =
      let split =
        first_where-append (has_unit_id s.next_id) s.memory_units
          (insert_row now content_hash s.next_id unit ∷ []) in
      ground (arith, split, no_unit_at s.memory_units h)

  -- The new source rows, after the old ones.
  none_of_unit :
      (source : UnitSource) (rows : List SourceRow)
      → All (λ row. row.unit_id < s.next_id) rows
      → any_of (same_source s.next_id source) rows ≡ false
  unfolding same_source
  none_of_unit source [] h = refl
  none_of_unit source (row ∷ rows) h = ground (arith, none_of_unit source rows h.1, h.0)

  -- An old row covers a source in the grown store as it did before.
  covers-old :
      (source : UnitSource) (rows : List SourceRow)
      → All (λ row. row.unit_id < s.next_id) rows
      → All (λ row. covers s source row ≡ false) rows
      → All (λ row. covers created source row ≡ false) rows
  unfolding covers fill_unit
  covers-old source [] below free = tt
  covers-old source (row ∷ rows) below free = (
    ground (arith, unit_at-old row.unit_id below.0, free.0),
    covers-old source rows below.1 free.1,
  )

  covers-new :
      (source : UnitSource)
      → All (λ r. r.id < s.next_id) s.memory_units
      → unit.status ≢ UnitStatus.retracted
      → covers created source (source_row s.next_id source) ≡ true
  unfolding covers fill_unit insert_row
  covers-new source h live = ground (
    arith,
    unit_at-new h,
    eq_iff source.source_ref source.source_ref,
    eq_iff source.source_message_id source.source_message_id,
    same_source_kind_iff source.source_kind source.source_kind,
    same_status_iff unit.status UnitStatus.retracted,
  )

  -- The rows after a creation: the old ones, the one of the first source, further ones of the unit.
  created-sources :
      (source : UnitSource) (sources : List UnitSource)
      → unit.sources ≡ source ∷ sources
      → All (λ row. row.unit_id < s.next_id) s.sources
      → created.sources
        ≡ insert_sources s.next_id sources (s.sources ++ source_row s.next_id source ∷ [])
  unfolding fill_unit insert_sources
  created-sources source sources e below =
      ap (λ list. insert_sources s.next_id list s.sources) e
      ∙ ap (insert_sources s.next_id sources)
          (insert_source-new s.next_id source s.sources (none_of_unit source s.sources below))

  -- The created unit covers its first source.
  pub find-created :
      (source : UnitSource) (sources : List UnitSource)
      → unit.sources ≡ source ∷ sources
      → IsWellFormed s
      → unit.status ≢ UnitStatus.retracted
      → find_unit_covering_sources s unit.sources ≡ none
      → find_unit_covering_sources created unit.sources ≡ some s.next_id
  unfolding find_unit_covering_sources
  find-created source sources e h live free =
      let (added, extended, own) =
        insert_sources-extends s.next_id sources (s.sources ++ source_row s.next_id source ∷ []) in
      let first : covering_unit s source s.sources ≡ none = ground (arith, free, e) in
      let rows : created.sources ≡ s.sources ++ source_row s.next_id source ∷ added =
        created-sources source sources e h.sources
        ∙ (extended ∙ append_assoc s.sources (source_row s.next_id source ∷ []) added) in
      let old =
        covers-old source s.sources h.sources (covering_unit-none s source s.sources first) in
      let found =
        covering_unit-found created source s.next_id s.sources (source_row s.next_id source) added
          old refl (covers-new source h.units live) own in
      ground (arith, e, found, rows)
