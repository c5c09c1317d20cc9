-- ===== src/Store/Traces/Pending.antt =====
-- No trace is triaged twice by one version of the gate, and no decision is consumed twice.
use membox.Base.{
  ℕ, zero, suc, String, Bool, true, false, ◌&&◌, ◌||◌, Option, none, some, List, [], ◌∷◌, ◌++◌,
  any_of, any_of-append, select, first_where, any_of-first_where, update_where, map, take, str_eq,
  eq_iff, arith, ◌≡◌, refl, ap, Bool-cases, Option-cases, inl, inr,
}
use membox.Store.Traces.{
  TraceKind, same_kind, Trace, TriageRecord, TriageRow, Traces, has_trace, is_eligible, date_le,
  insert_trace, sort_traces, trace_rows_for_triage, key_of, write_decision, upsert_history_triage,
  is_pending, pending_triage_rows, has_id_in, mark_triage_consumed,
}

-- The trace of the decision.
abbrev pub is_trace_of : TriageRecord → TraceKind × Trace → Bool
is_trace_of decision item =
    same_kind decision.trace_kind item.0 && str_eq decision.trace_id item.1.trace_id

none_of-insert :
    (test : TraceKind × Trace → Bool) (a : TraceKind × Trace) (items : List (TraceKind × Trace))
    → any_of test (insert_trace a items) ≡ (test a || any_of test items)
unfolding insert_trace
none_of-insert test a [] = ground arith
none_of-insert test a (b ∷ rest) = elim (Bool-cases (date_le a.1.created_at b.1.created_at)) [
  | inl before ↦ ground (arith, before)
  | inr after ↦ ground (arith, after, none_of-insert test a rest)
]

none_of-sort :
    (test : TraceKind × Trace → Bool) (items : List (TraceKind × Trace))
    → any_of test (sort_traces items) ≡ any_of test items
unfolding sort_traces
none_of-sort test [] = refl
none_of-sort test (a ∷ rest) =
    ground (arith, none_of-insert test a (sort_traces rest), none_of-sort test rest)

none_of-take :
    (test : TraceKind × Trace → Bool) (n : ℕ) (items : List (TraceKind × Trace))
    → any_of test items ≡ false
    → any_of test (take n items) ≡ false
none_of-take test zero items h = refl
none_of-take test (suc n) [] h = refl
none_of-take test (suc n) (a ∷ rest) h = ground (arith, none_of-take test n rest)

same_kind_refl : (kind : TraceKind) → same_kind kind kind ≡ true
same_kind_refl TraceKind.message = refl
same_kind_refl TraceKind.event = refl

key_of-own :
    (decision : TriageRecord) (i : ℕ) (at : Option ℕ)
    → key_of decision (record { id = i; decision = decision; consumed_at = at }) ≡ true
key_of-own decision i at = ground (
  arith,
  same_kind_refl decision.trace_kind,
  eq_iff decision.trace_id decision.trace_id,
  eq_iff decision.gate_version decision.gate_version,
)

key_of-write :
    (decision : TriageRecord) (rows : List TriageRow)
    → any_of (key_of decision) (write_decision decision rows) ≡ any_of (key_of decision) rows
unfolding write_decision
key_of-write decision [] = refl
key_of-write decision (row ∷ rows) =
    ground (arith, key_of-own decision row.id row.consumed_at, key_of-write decision rows)

-- The decision is in the table.
pub key_of-upsert :
    (decision : TriageRecord) (s : Traces)
    → any_of (key_of decision) (upsert_history_triage decision s).1.history_triage ≡ true
unfolding upsert_history_triage
key_of-upsert decision s = elim (Option-cases (first_where (key_of decision) s.history_triage)) [
  | inr (row, e) ↦ ground (
    arith,
    e,
    key_of-write decision s.history_triage,
    any_of-first_where (key_of decision) s.history_triage,
  )
  | inl n ↦
      let new : TriageRow = record { id = s.next_id; decision = decision; consumed_at = none } in
      ground (
        arith,
        n,
        key_of-own decision s.next_id none,
        any_of-append (key_of decision) s.history_triage (new ∷ []),
      )
]

pub kind_eq : (a b : TraceKind) → same_kind a b ≡ true → a ≡ b
kind_eq TraceKind.message TraceKind.message h = refl
kind_eq TraceKind.event TraceKind.event h = refl
kind_eq TraceKind.message TraceKind.event h = cc
kind_eq TraceKind.event TraceKind.message h = cc

-- A trace that has a decision of the version is not eligible.
decided-is_not :
    (decision : TriageRecord) (kind : TraceKind) (project : String) (since : Option String)
    (rows : List TriageRow) (trace : Trace)
    → any_of (key_of decision) rows ≡ true
    → is_trace_of decision (kind, trace) ≡ true
    → is_eligible kind project decision.gate_version since rows trace ≡ false
unfolding is_eligible
decided-is_not decision kind project since rows trace k h =
    let one_kind : decision.trace_kind ≡ kind =
      kind_eq decision.trace_kind kind (ground (arith, h)) in
    let one_id : decision.trace_id ≡ trace.trace_id =
      ground (arith, h, eq_iff decision.trace_id trace.trace_id) in
    ground (
      arith,
      k,
      h,
      ap (λ t. any_of (has_trace t decision.trace_id decision.gate_version) rows) one_kind,
      ap (λ t. any_of (has_trace kind t decision.gate_version) rows) one_id,
    )

decided-select :
    (decision : TriageRecord) (kind : TraceKind) (project : String) (since : Option String)
    (rows : List TriageRow) (traces : List Trace)
    → any_of (key_of decision) rows ≡ true
    → any_of (is_trace_of decision) (
        map
          (λ t. (kind, t))
          (select (is_eligible kind project decision.gate_version since rows) traces))
      ≡ false
decided-select decision kind project since rows [] k = refl
decided-select decision kind project since rows (t ∷ traces) k =
    elim (Bool-cases (is_trace_of decision (kind, t))) [
      | inl own ↦ ground (
        arith,
        own,
        decided-is_not decision kind project since rows t k own,
        decided-select decision kind project since rows traces k,
      )
      | inr other ↦ ground (arith, other, decided-select decision kind project since rows traces k)
    ]

-- Of a trace that has a decision no row waits.
pub decided-excluded :
    (decision : TriageRecord) (project : String) (since : Option String) (limit : ℕ) (s : Traces)
    → any_of (key_of decision) s.history_triage ≡ true
    → any_of
        (is_trace_of decision)
        (trace_rows_for_triage project decision.gate_version since limit s)
      ≡ false
unfolding trace_rows_for_triage
decided-excluded decision project since limit s k =
    let rows = s.history_triage in
    let messages =
      map (λ t. (TraceKind.message, t))
        (select (is_eligible TraceKind.message project decision.gate_version since rows)
          s.history_messages) in
    let events =
      map (λ t. (TraceKind.event, t))
        (select (is_eligible TraceKind.event project decision.gate_version since rows)
          s.history_events) in
    none_of-take (is_trace_of decision) limit (sort_traces (messages ++ events)) (
      ground (
        arith,
        none_of-sort (is_trace_of decision) (messages ++ events),
        any_of-append (is_trace_of decision) messages events,
        decided-select decision TraceKind.message project since rows s.history_messages k,
        decided-select decision TraceKind.event project since rows s.history_events k,
      ))

-- A trace that has been decided by a version of the gate is never again among the traces that wait for
-- that version, in whatever project and from whatever date.
pub upsert_history_triage-excludes :
    (decision : TriageRecord) (project : String) (since : Option String) (limit : ℕ) (s : Traces)
    → any_of (is_trace_of decision) (
        trace_rows_for_triage project decision.gate_version since limit
          (upsert_history_triage decision s).1)
      ≡ false
upsert_history_triage-excludes decision project since limit s =
    decided-excluded decision project since limit (upsert_history_triage decision s).1
      (key_of-upsert decision s)

settled-take :
    (test : TriageRow → Bool) (n : ℕ) (rows : List TriageRow)
    → any_of test rows ≡ false
    → any_of test (take n rows) ≡ false
settled-take test zero rows h = refl
settled-take test (suc n) [] h = refl
settled-take test (suc n) (row ∷ rows) h = ground (arith, settled-take test n rows)

settled-select :
    (project gate_version : String) (ids : List ℕ) (now : ℕ) (rows : List TriageRow)
    → any_of (has_id_in ids) (
        select
          (is_pending project gate_version)
          (update_where (has_id_in ids) (λ row. record row { consumed_at = some now }) rows))
      ≡ false
settled-select project gate_version ids now [] = refl
settled-select project gate_version ids now (row ∷ rows) =
    ground (arith, settled-select project gate_version ids now rows)

-- A decision that has been consumed is not pending for any project or version of the gate.
pub mark_triage_consumed-settles :
    (project gate_version : String) (limit now : ℕ) (ids : List ℕ) (s : Traces)
    → any_of
        (has_id_in ids)
        (pending_triage_rows project gate_version limit (mark_triage_consumed now ids s))
      ≡ false
unfolding pending_triage_rows mark_triage_consumed
mark_triage_consumed-settles project gate_version limit now ids s =
    settled-take (has_id_in ids) limit
      (select (is_pending project gate_version) (
        update_where (has_id_in ids) (λ row. record row { consumed_at = some now })
          s.history_triage))
      (settled-select project gate_version ids now s.history_triage)
