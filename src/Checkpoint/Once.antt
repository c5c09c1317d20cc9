-- ===== src/Checkpoint/Once.antt =====
-- A checkpoint triages a trace once by one version of the gate.
use mathlib.Core.Path.{subst}
use membox.Base.{
  ℕ, String, Bool, true, not, ◌&&◌, Option, none, List, [], ◌∷◌, any_of, any_of-append, all_of,
  first_where, str_eq, eq_iff, arith, ◌≡◌, refl, sym, ap, Bool-cases, Option-cases, inl, inr,
}
use membox.Triage.Shapes.{Characters}
use membox.Store.Traces.{
  TraceKind, same_kind, Trace, TriageRecord, TriageRow, Traces, has_trace, trace_rows_for_triage,
  key_of, write_decision, upsert_history_triage,
}
use membox.Store.Traces.Pending.{kind_eq, key_of-upsert, decided-excluded}
use membox.Checkpoint.{triage_record, triage_all}

-- A write keeps the keys of the rows.
has_trace-write :
    (kind : TraceKind) (trace_id gate_version : String) (decision : TriageRecord)
    (rows : List TriageRow)
    → any_of (has_trace kind trace_id gate_version) (write_decision decision rows)
      ≡ any_of (has_trace kind trace_id gate_version) rows
unfolding write_decision
has_trace-write kind trace_id gate_version decision [] = refl
has_trace-write kind trace_id gate_version decision (row ∷ rows) =
    elim (Bool-cases (key_of decision row)) [
      | inr other ↦ ground (arith, other, has_trace-write kind trace_id gate_version decision rows)
      | inl own ↦
          let one_kind : row.decision.trace_kind ≡ decision.trace_kind =
            kind_eq row.decision.trace_kind decision.trace_kind (ground (arith, own)) in
          ground (
            arith,
            own,
            ap (λ k. same_kind k kind) one_kind,
            eq_iff row.decision.trace_id decision.trace_id,
            eq_iff row.decision.gate_version decision.gate_version,
            has_trace-write kind trace_id gate_version decision rows,
          )
    ]

-- A decision stays in the table.
key_of-kept :
    (decision other : TriageRecord) (s : Traces)
    → any_of (key_of decision) s.history_triage ≡ true
    → any_of (key_of decision) (upsert_history_triage other s).1.history_triage ≡ true
unfolding upsert_history_triage
key_of-kept decision other s k = elim (Option-cases (first_where (key_of other) s.history_triage)) [
  | inr (row, e) ↦ ground (
    arith,
    e,
    k,
    has_trace-write decision.trace_kind decision.trace_id decision.gate_version other
        s.history_triage,
  )
  | inl n ↦
      let new : TriageRow = record { id = s.next_id; decision = other; consumed_at = none } in
      ground (arith, n, k, any_of-append (key_of decision) s.history_triage (new ∷ []))
]

module _ (chars : Characters) (gate_version project : String) where
  key_of-kept_all :
      (decision : TriageRecord) (rows : List (TraceKind × Trace)) (s : Traces)
      → any_of (key_of decision) s.history_triage ≡ true
      → any_of (key_of decision) (triage_all chars gate_version project rows s).history_triage
        ≡ true
  unfolding triage_all
  key_of-kept_all decision [] s k = k
  key_of-kept_all decision (row ∷ rows) s k =
      key_of-kept_all decision rows
        (upsert_history_triage (triage_record chars gate_version project row) s).1
        (key_of-kept decision (triage_record chars gate_version project row) s k)

  -- The row's trace is among those that wait.
  abbrev pub waits : Option String → ℕ → Traces → TraceKind × Trace → Bool
  waits since limit s row =
      any_of (λ item. same_kind row.0 item.0 && str_eq row.1.trace_id item.1.trace_id)
        (trace_rows_for_triage project gate_version since limit s)

  decided_all :
      (since : Option String) (limit : ℕ) (rows : List (TraceKind × Trace)) (s s' : Traces)
      → s' ≡ triage_all chars gate_version project rows s
      → all_of (λ row. not (waits since limit s' row)) rows ≡ true
  unfolding triage_all triage_record
  decided_all since limit [] s s' e = refl
  decided_all since limit (row ∷ rows) s s' e =
      let decision = triage_record chars gate_version project row in
      let next = (upsert_history_triage decision s).1 in
      let stays : any_of (key_of decision) s'.history_triage ≡ true =
        subst (λ t. any_of (key_of decision) t.history_triage ≡ true) (sym e)
          (key_of-kept_all decision rows next (key_of-upsert decision s)) in
      ground (
        arith,
        decided-excluded decision project since limit s' stays,
        decided_all since limit rows next s' e,
      )

  -- None of the traces that a checkpoint has triaged waits for the same version of the gate afterwards,
  -- from whatever date.
  pub triage_all-settles :
      (since : Option String) (limit : ℕ) (rows : List (TraceKind × Trace)) (s : Traces)
      → all_of
          (λ row. not (waits since limit (triage_all chars gate_version project rows s) row))
          rows
        ≡ true
  triage_all-settles since limit rows s =
      decided_all since limit rows s (triage_all chars gate_version project rows s) refl
