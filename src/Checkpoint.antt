-- ===== src/Checkpoint.antt =====
-- core/lifecycle.py: the checkpoint, which triages the traces of a project and extracts units from
-- them, under the lease of the project where it is applied. It is the client of Triage, Store/Traces,
-- Store/Units and Store/Lifecycle.
pub mod Once
use membox.Base.{
  ℕ, ◌+◌, String, Bool, true, false, Option, none, some, List, [], ◌∷◌, ◌++◌, if◌then◌else◌, length,
}
use membox.Base.Text.{is_empty, strip, concat}
use membox.Model.{UnitStatus, SourceKind, UserIntent, UnitRecord}
use membox.Triage.Shapes.{Characters, text_take}
use membox.Triage.Gate.{GateDecision, triage_trace, activation_passes}
use membox.Store.Leases.{Process}
use membox.Store.Lifecycle.{Table, acquire_lifecycle_lease, release_lifecycle_lease}
use membox.Store.Traces.{
  TraceKind, Trace, TriageRecord, TriageRow, Traces, trace_rows_for_triage, get_trace_text,
  upsert_history_triage, pending_triage_rows, mark_triage_consumed,
}
use membox.Store.Units.{Hashing, Error, Result, ok, err, create_memory_unit}
use membox.Store.Units

-- The tables that a checkpoint changes.
pub record World : Type 0 where
  pub traces : Traces
  pub units : Units.Store
  pub meta : Table

pub record PullResult : Type 0 where
  pub sessions : ℕ
  pub messages : ℕ
  pub skipped_lines : ℕ

pub record CheckpointResult : Type 0 where
  pub sessions_pulled : ℕ
  pub messages_pulled : ℕ
  pub skipped_lines : ℕ
  pub triaged_rows : ℕ
  pub units_created : ℕ
  pub applied : Bool

abbrev pub kind_value : TraceKind → String
kind_value TraceKind.message = "message"
kind_value TraceKind.event = "event"

abbrev pub source_kind_of : TraceKind → SourceKind
source_kind_of TraceKind.message = SourceKind.history_message
source_kind_of TraceKind.event = SourceKind.history_event

module _ (chars : Characters) (gate_version project : String) where
  abbrev pub decision_of : TraceKind → Trace → GateDecision
  decision_of kind trace =
      triage_trace chars trace.text trace.role UserIntent.auto (kind_value kind)

  unfoldable pub triage_record : TraceKind × Trace → TriageRecord
  triage_record (kind, trace) =
      let decision = decision_of kind trace in
      record {
        project = project;
        trace_kind = kind;
        trace_id = trace.trace_id;
        should_extract = decision.should_extract;
        unit_type = decision.unit_type;
        importance_score = decision.importance_score;
        confidence_score = decision.confidence_score;
        temporal_type = decision.temporal_type;
        user_intent = decision.user_intent;
        extraction_hint = decision.extraction_hint;
        reason = decision.reason;
        gate_version = gate_version;
      }

  -- The loop of the triage.
  unfoldable pub triage_all : List (TraceKind × Trace) → Traces → Traces
  unfolding triage_record upsert_history_triage
  triage_all [] s = s
  triage_all (row ∷ rows) s = triage_all rows (upsert_history_triage (triage_record row) s).1

  unfoldable pub unit_from_trace : TraceKind → Trace → GateDecision → UnitRecord
  unfolding activation_passes strip text_take concat
  unit_from_trace kind trace decision =
      let text = strip trace.text in
      record {
        id = none;
        project = project;
        unit_type = decision.unit_type;
        status =
            if activation_passes decision true
            then UnitStatus.active_unit
            else UnitStatus.unit_candidate;
        title =
            if is_empty decision.extraction_hint then "Memory unit" else decision.extraction_hint;
        content = text_take 1200 text;
        context = concat ("Extracted from " ∷ kind_value kind ∷ " " ∷ trace.trace_id ∷ []);
        importance_score = decision.importance_score;
        confidence_score = decision.confidence_score;
        temporal_type = decision.temporal_type;
        valid_from = none;
        valid_to = none;
        superseded_by = none;
        labels = decision.labels;
        sources =
            record {
              source_kind = source_kind_of kind;
              source_ref = trace.trace_id;
              source_message_id = elim kind [
                | TraceKind.message ↦ trace.trace_id
                | TraceKind.event ↦ ""
              ];
              quote = text_take 300 text;
            }
            ∷ [];
        updated_at = none;
        recall_count = 0;
        last_recalled_at = none;
        why = none;
        how_to_apply = none;
        next_step = none;
      }

  module _ (hashing : Hashing) (now : ℕ) where
    -- The loop of the extraction: the rows consumed, or the error that ends it, and the units.
    unfoldable pub extract_all :
        Traces → List TriageRow → List ℕ → Units.Store → Result (List ℕ) × Units.Store
    unfolding get_trace_text unit_from_trace create_memory_unit
    extract_all traces [] consumed units = (ok consumed, units)
    extract_all traces (row ∷ rows) consumed units =
        elim (get_trace_text row.decision.trace_kind row.decision.trace_id traces) [
          | none ↦ extract_all traces rows consumed units
          | some trace ↦
              elim (create_memory_unit hashing now
                (unit_from_trace row.decision.trace_kind trace
                  (decision_of row.decision.trace_kind trace))
                "memory extract" units) [
                  | err e ↦ (err e, units)
                  | ok (i, units') ↦ extract_all traces rows (consumed ++ row.id ∷ []) units'
                ]
        ]

    -- An error leaves the rows pending, and the units that were created before it.
    unfoldable pub settle_extraction :
        ℕ
        → PullResult
        → Bool
        → World
        → Result (List ℕ) × Units.Store
        → Result CheckpointResult × World
    unfolding mark_triage_consumed
    settle_extraction triaged pull applied w (err e, units) = (err e, record w { units = units })
    settle_extraction triaged pull applied w (ok consumed, units) = (
      ok (record {
        sessions_pulled = pull.sessions;
        messages_pulled = pull.messages;
        skipped_lines = pull.skipped_lines;
        triaged_rows = triaged;
        units_created = length consumed;
        applied = applied;
      }),
      record w { traces = mark_triage_consumed now consumed w.traces; units = units },
    )

    -- What follows the pull, which has added its traces.
    unfoldable pub run_chain :
        PullResult → Option String → ℕ → Bool → World → Result CheckpointResult × World
    unfolding trace_rows_for_triage triage_all pending_triage_rows extract_all settle_extraction
    run_chain pull since limit applied w =
        let rows = trace_rows_for_triage project gate_version since limit w.traces in
        let traces = triage_all rows w.traces in
        settle_extraction (length rows) pull applied (record w { traces = traces })
          (extract_all traces (pending_triage_rows project gate_version limit traces) [] w.units)

    -- The lease is released whether the chain returns or raises, by the clock of that time; `none` is
    -- LifecycleLeaseError.
    unfoldable pub apply_checkpoint :
        Process
        → Process
        → (Traces → PullResult × Traces)
        → Option String
        → ℕ
        → World
        → Option (Result CheckpointResult) × World
    unfolding acquire_lifecycle_lease release_lifecycle_lease run_chain
    apply_checkpoint p later pull since limit w =
        let lease = acquire_lifecycle_lease p project w.meta in
        let pulled = pull w.traces in
        let ran =
          run_chain pulled.0 since limit true (record w { traces = pulled.1; meta = lease.1 }) in
        if lease.0
        then (
          some ran.0,
          record (ran.1) { meta = release_lifecycle_lease later project ran.1.meta },
        )
        else (none, record w { meta = lease.1 })
