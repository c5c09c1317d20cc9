-- ===== src/Tests/TraceTests.antt =====
-- A trace that is decided once.
use membox.Base.{
  ◌≡◌, refl, true, false, none, some, [], ◌∷◌, any_of, all_of, not, leb, ◌==◌, ◌&&◌, ◌||◌, length,
}
use Prim.Native.Char.{code}
use Prim.Native.String
use membox.Triage.Shapes.{Characters}
use membox.Checkpoint.{triage_all}
use membox.Checkpoint.Once.{waits, triage_all-settles}
use membox.Model.{UnitType, TemporalType, UserIntent}
use membox.Store.Traces.{
  TraceKind, Trace, TriageRecord, Traces, trace_rows_for_triage, upsert_history_triage, is_eligible,
  sort_traces, insert_trace, date_le,
}
use membox.Store.Traces.Pending.{is_trace_of, upsert_history_triage-excludes}

abbrev message : Trace
message = record {
  trace_id = "m1";
  project = "membox";
  role = "user";
  text = "remember the lease";
  created_at = some "2026-01-01";
}

abbrev decision : TriageRecord
decision = record {
  project = "membox";
  trace_kind = TraceKind.message;
  trace_id = "m1";
  should_extract = true;
  unit_type = UnitType.decision;
  importance_score = 85;
  confidence_score = 75;
  temporal_type = TemporalType.unknown;
  user_intent = UserIntent.auto;
  extraction_hint = "";
  reason = "explicit_decision_or_rule";
  gate_version = "v1";
}

abbrev waiting : Traces
waiting = record {
  history_messages = message ∷ [];
  history_events = [];
  history_triage = [];
  next_id = 1;
}

one_waits : length (trace_rows_for_triage "membox" "v1" none 10 waiting) ≡ 1
unfolding trace_rows_for_triage is_eligible sort_traces insert_trace date_le
one_waits = refl

upsert_history_triage-excludes_run :
    any_of
      (is_trace_of decision)
      (trace_rows_for_triage "membox" "v1" none 10 (upsert_history_triage decision waiting).1)
    ≡ false
upsert_history_triage-excludes_run =
    upsert_history_triage-excludes decision "membox" none 10 waiting

-- ASCII letters, digits and the underscore.
abbrev ascii : Characters
ascii = record {
  fold = λ c. String.◌∷◌ c String.[];
  is_word = λ c.
      (leb 48 (code c) && leb (code c) 57)
      || (leb 65 (code c) && leb (code c) 90)
      || (leb 97 (code c) && leb (code c) 122)
      || code c == 95;
  is_digit = λ c. leb 48 (code c) && leb (code c) 57;
}

triage_all-settles_example :
    all_of
      (λ row. not (
        waits ascii "v1" "membox" none 10
          (triage_all ascii "v1" "membox" ((TraceKind.message, message) ∷ []) waiting)
          row))
      ((TraceKind.message, message) ∷ [])
    ≡ true
triage_all-settles_example =
    triage_all-settles ascii "v1" "membox" none 10 ((TraceKind.message, message) ∷ []) waiting
