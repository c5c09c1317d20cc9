-- ===== src/Store/Traces.antt =====
-- core/store/memory_units.py: the history traces that wait for triage, and the table `history_triage`
-- of the decisions.
pub mod Pending
use membox.Base.{
  ℕ, ◌+◌, String, Bool, true, false, not, ◌&&◌, Option, none, some, List, [], ◌∷◌, ◌++◌, ◌==◌,
  if◌then◌else◌, any_of, select, first_where, update_where, map, take, str_eq, is_some,
}
use membox.Base.Text.{text_le}
use membox.Model.{UnitType, TemporalType, UserIntent}

pub data TraceKind : Type 0 where
  message event : TraceKind

abbrev pub same_kind : TraceKind → TraceKind → Bool
same_kind TraceKind.message TraceKind.message = true
same_kind TraceKind.event TraceKind.event = true
same_kind _ _ = false

-- A row of `history_messages` or `history_events`, with its columns by the names of `TraceForTriage`.
pub record Trace : Type 0 where
  pub trace_id : String
  pub project : String
  pub role : String
  pub text : String
  pub created_at : Option String

-- `HistoryTriageRecord`, without the columns that the table fills in.
pub record TriageRecord : Type 0 where
  pub project : String
  pub trace_kind : TraceKind
  pub trace_id : String
  pub should_extract : Bool
  pub unit_type : UnitType
  pub importance_score : ℕ
  pub confidence_score : ℕ
  pub temporal_type : TemporalType
  pub user_intent : UserIntent
  pub extraction_hint : String
  pub reason : String
  pub gate_version : String

pub record TriageRow : Type 0 where
  pub id : ℕ
  pub decision : TriageRecord
  pub consumed_at : Option ℕ

pub record Traces : Type 0 where
  pub history_messages : List Trace
  pub history_events : List Trace
  pub history_triage : List TriageRow
  pub next_id : ℕ

-- The row's key `(trace_kind, trace_id, gate_version)`.
abbrev pub has_trace : TraceKind → String → String → TriageRow → Bool
has_trace kind trace_id gate_version row =
    same_kind row.decision.trace_kind kind
    && str_eq row.decision.trace_id trace_id
    && str_eq row.decision.gate_version gate_version

-- `created_at>=?`, which is not true of NULL.
abbrev pub is_since : Option String → Option String → Bool
is_since none created_at = true
is_since (some since) none = false
is_since (some since) (some date) = text_le since date

unfoldable pub is_eligible :
    TraceKind → String → String → Option String → List TriageRow → Trace → Bool
is_eligible kind project gate_version since rows trace =
    str_eq trace.project project
    && is_since since trace.created_at
    && not (any_of (has_trace kind trace.trace_id gate_version) rows)

-- `ORDER BY created_at`, with NULL first.
unfoldable pub date_le : Option String → Option String → Bool
date_le none b = true
date_le (some a) none = false
date_le (some a) (some b) = text_le a b

unfoldable pub insert_trace :
    TraceKind × Trace → List (TraceKind × Trace) → List (TraceKind × Trace)
unfolding date_le
insert_trace a [] = a ∷ []
insert_trace a (b ∷ rest) =
    let later = insert_trace a rest in
    if date_le a.1.created_at b.1.created_at then a ∷ b ∷ rest else b ∷ later

unfoldable pub sort_traces : List (TraceKind × Trace) → List (TraceKind × Trace)
unfolding insert_trace
sort_traces [] = []
sort_traces (a ∷ rest) = insert_trace a (sort_traces rest)

unfoldable pub trace_rows_for_triage :
    String → String → Option String → ℕ → Traces → List (TraceKind × Trace)
unfolding is_eligible sort_traces
trace_rows_for_triage project gate_version since limit s = take limit (
    sort_traces (
      map (λ t. (TraceKind.message, t))
        (select (is_eligible TraceKind.message project gate_version since s.history_triage)
          s.history_messages)
      ++ map (λ t. (TraceKind.event, t))
          (select (is_eligible TraceKind.event project gate_version since s.history_triage)
            s.history_events)))

unfoldable pub get_trace_text : TraceKind → String → Traces → Option Trace
get_trace_text TraceKind.message trace_id s =
    first_where (λ t. str_eq t.trace_id trace_id) s.history_messages
get_trace_text TraceKind.event trace_id s =
    first_where (λ t. str_eq t.trace_id trace_id) s.history_events

abbrev pub key_of : TriageRecord → TriageRow → Bool
key_of decision = has_trace decision.trace_kind decision.trace_id decision.gate_version

-- `DO UPDATE SET`: every column but the key, `id` and `consumed_at`, whose values stay.
unfoldable pub write_decision : TriageRecord → List TriageRow → List TriageRow
write_decision decision = update_where (key_of decision) (λ row. record row { decision = decision })

-- The row that the SELECT reads back.
unfoldable pub upsert_history_triage : TriageRecord → Traces → Option ℕ × Traces
unfolding write_decision
upsert_history_triage decision s = elim (first_where (key_of decision) s.history_triage) [
  | some row ↦ (some row.id, record s { history_triage = write_decision decision s.history_triage })
  | none ↦ (
    some s.next_id,
    record s {
      history_triage =
          s.history_triage
          ++ record { id = s.next_id; decision = decision; consumed_at = none } ∷ [];
      next_id = s.next_id + 1;
    },
  )
]

abbrev pub is_pending : String → String → TriageRow → Bool
is_pending project gate_version row =
    str_eq row.decision.project project
    && str_eq row.decision.gate_version gate_version
    && row.decision.should_extract
    && not (is_some row.consumed_at)

-- The rows are in the order of their ids.
unfoldable pub pending_triage_rows : String → String → ℕ → Traces → List TriageRow
pending_triage_rows project gate_version limit s =
    take limit (select (is_pending project gate_version) s.history_triage)

abbrev pub has_id_in : List ℕ → TriageRow → Bool
has_id_in ids row = any_of (λ i. i == row.id) ids

unfoldable pub mark_triage_consumed : ℕ → List ℕ → Traces → Traces
mark_triage_consumed now triage_ids s = record s {
  history_triage =
      update_where (has_id_in triage_ids) (λ row. record row { consumed_at = some now })
        s.history_triage;
}
