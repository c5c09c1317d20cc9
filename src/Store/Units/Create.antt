-- ===== src/Store/Units/Create.antt =====
-- `create_memory_unit` and what it calls.
use membox.Base.{
  ℕ, ◌+◌, String, Bool, false, not, ◌&&◌, Option, none, some, List, [], ◌∷◌, ◌++◌, ltb, ◌==◌,
  str_eq, if◌then◌else◌, all_of, any_of, first_where, is_some,
}
use membox.Base.Text.{strip, casefold, is_empty, join}
use membox.Model.{UnitType, UnitStatus, UnitSource, UnitRecord, type_value, is_memory_label}
use membox.Model.Enums.{same_type, same_source_kind, same_status}
use membox.Store.Units.Tables.{
  UnitRow, SourceRow, Store, Result, ok, err, ◌>>=◌, Hashing, unit_at, log_entry, no_source,
  unknown_labels, no_source_ref, foreign_key, no_row,
}

unfoldable pub validate_labels : List String → Result (Unit {0})
validate_labels labels = if all_of is_memory_label labels then ok tt else err unknown_labels

unfoldable pub validate_sources : List UnitSource → Result (Unit {0})
validate_sources sources =
    if all_of (λ source. not (is_empty source.source_ref)) sources then ok tt else err no_source_ref

unfoldable pub validate_memory_unit : UnitRecord → Result (Unit {0})
unfolding validate_labels validate_sources
validate_memory_unit unit = elim unit.sources [
  | [] ↦ err no_source
  | _ ∷ _ ↦ validate_labels unit.labels >>= λ _. validate_sources unit.sources
]

-- `SELECT mus.unit_id … WHERE source identity AND mu.status NOT IN ('retracted')`
unfoldable pub covers : Store → UnitSource → SourceRow → Bool
covers s source row =
    same_source_kind row.source_kind source.source_kind
    && str_eq row.source_ref source.source_ref
    && str_eq row.source_message_id source.source_message_id
    && elim (unit_at row.unit_id s) [
      | none ↦ false
      | some u ↦ not (same_status u.status UnitStatus.retracted)
    ]

unfoldable pub later_id : ℕ → Option ℕ → ℕ
later_id i none = i
later_id i (some j) = if ltb i j then j else i

-- `ORDER BY mus.unit_id DESC LIMIT 1`
unfoldable pub covering_unit : Store → UnitSource → List SourceRow → Option ℕ
unfolding covers later_id
covering_unit s source [] = none
covering_unit s source (row ∷ rows) =
    let rest = covering_unit s source rows in
    if covers s source row then some (later_id row.unit_id rest) else rest

unfoldable pub find_unit_covering_sources : Store → List UnitSource → Option ℕ
unfolding covering_unit
find_unit_covering_sources s [] = none
find_unit_covering_sources s (source ∷ sources) =
    let rest = find_unit_covering_sources s sources in
    elim (covering_unit s source s.sources) [ none ↦ rest | some i ↦ some i ]

unfoldable pub memory_unit_content_hash : Hashing → UnitRecord → String
memory_unit_content_hash h unit = h.sha256_hex (
    join "\n" (
      type_value unit.unit_type
      ∷ casefold h.fold (strip unit.title)
      ∷ casefold h.fold (strip unit.content)
      ∷ casefold h.fold (strip unit.context)
      ∷ casefold h.fold (strip unit.project)
      ∷ []))

-- The columns of the unique index on `memory_units`.
unfoldable pub has_key : String → UnitType → String → UnitRow → Bool
has_key project unit_type content_hash r =
    str_eq r.project project
    && same_type r.unit_type unit_type
    && str_eq r.content_hash content_hash

unfoldable pub insert_row : ℕ → String → ℕ → UnitRecord → UnitRow
insert_row now content_hash id unit = record {
  id = id;
  project = unit.project;
  unit_type = unit.unit_type;
  status = unit.status;
  title = unit.title;
  content = unit.content;
  content_hash = content_hash;
  context = unit.context;
  importance_score = unit.importance_score;
  confidence_score = unit.confidence_score;
  temporal_type = unit.temporal_type;
  valid_from = unit.valid_from;
  valid_to = unit.valid_to;
  superseded_by = unit.superseded_by;
  why = unit.why;
  how_to_apply = unit.how_to_apply;
  next_step = unit.next_step;
  updated_at = some now;
  recall_count = 0;
  last_recalled_at = none;
}

-- The foreign key of `superseded_by`; a row may refer to itself.
unfoldable pub create_fresh : ℕ → String → UnitRecord → Store → Result Store
unfolding insert_row
create_fresh now content_hash unit s =
    let s' : Store = record s {
      memory_units = s.memory_units ++ insert_row now content_hash s.next_id unit ∷ [];
      next_id = s.next_id + 1;
    } in
    elim unit.superseded_by [
      | none ↦ ok s'
      | some target ↦ if is_some (unit_at target s') then ok s' else err foreign_key
    ]

-- `INSERT … ON CONFLICT(project, unit_type, content_hash) DO NOTHING`
unfoldable pub insert_unit : ℕ → String → UnitRecord → Store → Result Store
unfolding has_key create_fresh
insert_unit now content_hash unit s =
    if any_of (has_key unit.project unit.unit_type content_hash) s.memory_units
    then ok s
    else create_fresh now content_hash unit s

unfoldable pub lookup_unit_id : String → UnitType → String → Store → Result ℕ
unfolding has_key
lookup_unit_id project unit_type content_hash s =
    elim (first_where (has_key project unit_type content_hash) s.memory_units) [
      | none ↦ err no_row
      | some r ↦ ok r.id
    ]

-- `INSERT OR IGNORE INTO memory_unit_labels`
unfoldable pub insert_labels : ℕ → List String → List (ℕ × String) → List (ℕ × String)
insert_labels i [] rows = rows
insert_labels i (label ∷ labels) rows = insert_labels i labels (
    if any_of (λ row. row.0 == i && str_eq row.1 label) rows then rows else rows ++ (i, label) ∷ [])

-- The primary key of `memory_unit_sources`.
unfoldable pub same_source : ℕ → UnitSource → SourceRow → Bool
same_source i source row =
    row.unit_id == i
    && same_source_kind row.source_kind source.source_kind
    && str_eq row.source_ref source.source_ref
    && str_eq row.source_message_id source.source_message_id

abbrev pub source_row : ℕ → UnitSource → SourceRow
source_row i source = record {
  unit_id = i;
  source_kind = source.source_kind;
  source_ref = source.source_ref;
  source_message_id = source.source_message_id;
  quote = source.quote;
}

-- `INSERT OR IGNORE INTO memory_unit_sources`
unfoldable pub insert_source : ℕ → UnitSource → List SourceRow → List SourceRow
unfolding same_source
insert_source i source rows =
    if any_of (same_source i source) rows then rows else rows ++ source_row i source ∷ []

unfoldable pub insert_sources : ℕ → List UnitSource → List SourceRow → List SourceRow
unfolding insert_source
insert_sources i [] rows = rows
insert_sources i (source ∷ sources) rows = insert_sources i sources (insert_source i source rows)

-- The labels, the sources and the log row of a unit that is in the table.
unfoldable pub fill_unit : UnitRecord → String → ℕ → Store → Store
unfolding insert_labels insert_sources
fill_unit unit command i s = record s {
  labels = insert_labels i unit.labels s.labels;
  sources = insert_sources i unit.sources s.sources;
  status_log =
      s.status_log
      ++ log_entry i none unit.status command "created"
          (elim unit.sources [ [] ↦ "" | source ∷ _ ↦ source.source_ref ])
        ∷ [];
}

-- Raised inside the transaction, an error leaves the store as it was; so no store comes with it.
unfoldable pub create_memory_unit : Hashing → ℕ → UnitRecord → String → Store → Result (ℕ × Store)
unfolding validate_memory_unit find_unit_covering_sources memory_unit_content_hash insert_unit
    lookup_unit_id fill_unit
create_memory_unit h now unit command s = validate_memory_unit unit >>= λ _.
    elim (find_unit_covering_sources s unit.sources) [
      | some existing ↦ ok (existing, s)
      | none ↦
          let content_hash = memory_unit_content_hash h unit in
          insert_unit now content_hash unit s >>= λ s'.
          lookup_unit_id unit.project unit.unit_type content_hash s' >>= λ i.
          ok (i, fill_unit unit command i s')
    ]
