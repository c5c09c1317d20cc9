-- ===== src/Store/Units/Sources.antt =====
-- The sources of a unit: which of them are independent, and what a further one adds.

use Prim.Native.Nat.{min, max}
use text.Mathlib.Text.{starts_with}
use membox.Base.{
  ℕ, ◌+◌, ◌*◌, String, Bool, true, false, Option, none, some, List, [], ◌∷◌, ◌++◌, ltb, ◌==◌,
  str_eq, if◌then◌else◌, any_of, update_where, length,
}
use membox.Base.Text.{concat, contains, is_empty}
use membox.Model.{SourceKind, UnitSource, source_value}
use membox.Store.Units.Tables.{
  UnitRow, SourceRow, Session, Store, Result, ok, err, unit_at, has_unit_id, log_entry,
  no_source_ref,
}
use membox.Store.Units.Create.{insert_source}

unfoldable pub session_of : String → List Session → Option String
session_of trace_id [] = none
session_of trace_id (row ∷ rows) =
    let rest = session_of trace_id rows in
    if str_eq row.trace_id trace_id then some row.session_id else rest

-- `s.split(marker, maxsplit=1)[0]` where the marker occurs.
unfoldable pub before_marker : String → String → String
before_marker marker String.[] = String.[]
before_marker marker (String.◌∷◌ c s) =
    let rest = before_marker marker s in
    if starts_with (String.◌∷◌ c s) marker then String.[] else String.◌∷◌ c rest

unfoldable pub trace_session_key : String → String
unfolding before_marker contains
trace_session_key source_ref =
    if contains ":msg:" source_ref
    then before_marker ":msg:" source_ref
    else if contains ":evt:" source_ref
    then before_marker ":evt:" source_ref
    else source_ref

unfoldable pub session_key : Option String → String → String
unfolding trace_session_key concat
session_key none source_ref = concat ("session:" ∷ trace_session_key source_ref ∷ [])
session_key (some session) source_ref = concat ("session:" ∷ session ∷ [])

-- Sources of one session count once; any other source counts by its kind and reference.
unfoldable pub source_key : Store → SourceRow → String
unfolding session_key session_of source_value concat
source_key s row = elim row.source_kind [
  | SourceKind.history_message ↦
      session_key (session_of row.source_ref s.message_sessions) row.source_ref
  | SourceKind.history_event ↦
      session_key (session_of row.source_ref s.event_sessions) row.source_ref
  | kind ↦ concat (source_value kind ∷ ":" ∷ row.source_ref ∷ [])
]

-- `keys.add(key)` on a set.
unfoldable pub insert_key : String → List String → List String
insert_key key keys = if any_of (λ k. str_eq k key) keys then keys else key ∷ keys

unfoldable pub keys_of : Store → ℕ → List SourceRow → List String
unfolding insert_key source_key
keys_of s unit_id [] = []
keys_of s unit_id (row ∷ rows) =
    let rest = keys_of s unit_id rows in
    if row.unit_id == unit_id then insert_key (source_key s row) rest else rest

unfoldable pub independent_source_keys : ℕ → Store → List String
unfolding keys_of
independent_source_keys unit_id s = keys_of s unit_id s.sources

unfoldable pub count_independent_sources : ℕ → Store → ℕ
unfolding independent_source_keys
count_independent_sources unit_id s = length (independent_source_keys unit_id s)

abbrev pub crystal_confidence_increment : ℕ
crystal_confidence_increment = 5

abbrev pub crystal_confidence_cap : ℕ
crystal_confidence_cap = 95

unfoldable pub evolved_confidence : ℕ → ℕ → ℕ
evolved_confidence current new_sources =
    if new_sources == 0
    then current
    else max current
        (min crystal_confidence_cap (current + crystal_confidence_increment * new_sources))

-- `len(after - before)`
unfoldable pub gained_keys : List String → List String → ℕ
gained_keys before [] = 0
gained_keys before (key ∷ keys) =
    (if any_of (λ k. str_eq k key) before then 0 else 1) + gained_keys before keys

unfoldable pub strengthen : ℕ → ℕ → UnitRow → UnitRow
strengthen now confidence r = record r { confidence_score = confidence; updated_at = some now }

-- A source that brings a new key raises the confidence, with a log row that repeats the status.
unfoldable pub credit : ℕ → UnitRow → UnitSource → String → String → ℕ → Store → Store
unfolding strengthen evolved_confidence
credit now r source command reason gained s = record s {
  memory_units =
      update_where (has_unit_id r.id)
        (strengthen now (evolved_confidence r.confidence_score gained)) s.memory_units;
  status_log =
      s.status_log ++ log_entry r.id (some r.status) r.status command reason source.source_ref ∷ [];
}

unfoldable pub attach_source : ℕ → UnitRow → UnitSource → String → String → Store → Store
unfolding insert_source independent_source_keys gained_keys credit
attach_source now r source command reason s =
    let s' : Store = record s { sources = insert_source r.id source s.sources } in
    let gained = gained_keys (independent_source_keys r.id s) (independent_source_keys r.id s') in
    if ltb 0 gained then credit now r source command reason gained s' else s'

unfoldable pub attach_memory_unit_source :
    ℕ → ℕ → UnitSource → String → String → Store → Result (Bool × Store)
unfolding attach_source
attach_memory_unit_source now unit_id source command reason s =
    if is_empty source.source_ref then err no_source_ref else elim (unit_at unit_id s) [
      | none ↦ ok (false, s)
      | some r ↦ ok (true, attach_source now r source command reason s)
    ]

unfoldable pub member_id : List ℕ → UnitRow → Bool
member_id ids r = any_of (λ i. i == r.id) ids

unfoldable pub recall : ℕ → UnitRow → UnitRow
recall now r = record r { recall_count = r.recall_count + 1; last_recalled_at = some now }

unfoldable pub mark_memory_units_recalled : ℕ → List ℕ → Store → Store
unfolding member_id recall
mark_memory_units_recalled now ids s = record s {
  memory_units = update_where (member_id ids) (recall now) s.memory_units;
}
