-- ===== src/Store/Units/Batch.antt =====
-- The atomic batch of transitions against its specification, and the restore.
use mathlib.Core.Option
use mathlib.Core.Path.{subst}
use mathlib.Core.List.{append_assoc, append-nil}
use membox.Base.{
  ℕ, ◌≡◌, ◌⊎◌, refl, sym, ◌∙◌, Bool, true, false, not, ◌&&◌, Option, none, some, List, [], ◌∷◌,
  ◌++◌, arith, String, ◌==◌, ==_iff, if◌then◌else◌, Option-cases, Bool-cases, inl, inr, length,
  is_some,
}
use membox.Model.{UnitStatus}
use membox.Store.Units.Tables.{
  UnitRow, LogRow, Store, Error, Result, ok, err, unit_at, log_entry, no_such_unit, no_such_target,
  supersedes_itself,
}
use membox.Store.Units.Moves.{
  Transition, move_unit, write_transition, validate_transition, apply_one, apply_each,
  transition_memory_units_atomically, rollback,
}
use membox.Store.Units.Log.{unit_at-write_transition}

-- What one action needs of the table: its unit, and a supersession target other than the unit.
abbrev pub target_applies : ℕ → Option ℕ → Store → Bool
target_applies i none s = true
target_applies i (some t) s = is_some (unit_at t s) && not (t == i)

abbrev pub applies : Store → Transition → Bool
applies s a = is_some (unit_at a.unit_id s) && target_applies a.unit_id a.superseded_by s

-- The error of an action that does not apply.
abbrev target_fault : ℕ → Option ℕ → Store → Error
target_fault i none s = no_such_unit i
target_fault i (some t) s = if is_some (unit_at t s) then supersedes_itself i else no_such_target t

abbrev fault : Store → Transition → Error
fault s a =
    if is_some (unit_at a.unit_id s)
    then target_fault a.unit_id a.superseded_by s
    else no_such_unit a.unit_id

-- The error of the first action that does not apply to the table.
abbrev pub first_fault : Store → List Transition → Option Error
first_fault s [] = none
first_fault s (a ∷ actions) = if applies s a then first_fault s actions else some (fault s a)

-- What a batch makes of a unit: each action on it in turn.
abbrev pub final_unit : ℕ → ℕ → List Transition → UnitRow → UnitRow
final_unit now i [] r = r
final_unit now i (a ∷ actions) r =
    final_unit now i actions
      (if a.unit_id == i then move_unit now a.to_status a.superseded_by r else r)

-- A log row says what an action asked for.
abbrev pub Records : String → List Transition → List LogRow → Type 0
Records command [] [] = Unit
Records command (a ∷ actions) (row ∷ rows) =
    (row.unit_id ≡ a.unit_id)
    × (row.to_status ≡ a.to_status)
    × (row.command ≡ command)
    × (row.reason ≡ a.reason)
    × Records command actions rows
Records command _ _ = ⊥

-- One action applies exactly when its unit and its target are there.
apply_one-eq :
    (now : ℕ) (command : String) (a : Transition) (s : Store) {r : UnitRow}
    → unit_at a.unit_id s ≡ some r
    → applies s a ≡ true
    → apply_one now command a s
      ≡ ok (
          write_transition now a.unit_id r.status a.to_status a.superseded_by command a.reason "" s)
unfolding apply_one validate_transition
apply_one-eq now command a s e h = ground arith

apply_one-err :
    (now : ℕ) (command : String) (a : Transition) (s : Store)
    → applies s a ≡ false
    → apply_one now command a s ≡ err (fault s a)
unfolding apply_one validate_transition
apply_one-err now command a s h = ground arith

is_some-write :
    (now i : ℕ) (to : UnitStatus) (target : Option ℕ) (command reason ref : String) (s : Store)
    {r : UnitRow}
    → unit_at i s ≡ some r
    → (j : ℕ)
    → is_some (unit_at j (write_transition now i r.status to target command reason ref s))
      ≡ is_some (unit_at j s)
is_some-write now i to target command reason ref s e j =
    ground (arith, unit_at-write_transition now i to target command reason ref s e j, e, ==_iff i j)

applies-write :
    (now i : ℕ) (to : UnitStatus) (target : Option ℕ) (command reason ref : String) (s : Store)
    {r : UnitRow}
    → unit_at i s ≡ some r
    → (a : Transition)
    → applies (write_transition now i r.status to target command reason ref s) a ≡ applies s a
applies-write now i to target command reason ref s {r} e a =
    let same = is_some-write now i to target command reason ref s e in
    elim (Option-cases a.superseded_by) [
      | inl nothing ↦ rw (nothing, same a.unit_id)
      | inr (t, found) ↦ rw (found, same a.unit_id, same t)
    ]

first_fault-write :
    (now i : ℕ) (to : UnitStatus) (target : Option ℕ) (command reason ref : String) (s : Store)
    {r : UnitRow}
    → unit_at i s ≡ some r
    → (actions : List Transition)
    → first_fault (write_transition now i r.status to target command reason ref s) actions
      ≡ first_fault s actions
first_fault-write now i to target command reason ref s e [] = refl
first_fault-write now i to target command reason ref s {r} e (a ∷ actions) =
    let there = is_some-write now i to target command reason ref s e in
    let rest = first_fault-write now i to target command reason ref s e actions in
    elim (Option-cases a.superseded_by) [
      | inl nothing ↦ rw (nothing, there a.unit_id, rest)
      | inr (t, found) ↦ rw (found, there a.unit_id, there t, rest)
    ]

-- The batch was carried out in full, and touched nothing else.
pub record Applied (now : ℕ) (command : String) (actions : List Transition) (s s' : Store)
    : Type 0 where
  pub units : (i : ℕ) → unit_at i s' ≡ Option.map (final_unit now i actions) (unit_at i s)
  pub entries : List LogRow
  pub log : s'.status_log ≡ s.status_log ++ entries
  pub recorded : Records command actions entries
  pub labels : s'.labels ≡ s.labels
  pub sources : s'.sources ≡ s.sources

Option-map-id {ℓ} : {A : Type ℓ} (o : Option A) → o ≡ Option.map (λ x. x) o
Option-map-id none = refl
Option-map-id (some x) = refl

apply_each-nil : (now : ℕ) (command : String) (s : Store) → apply_each now command [] s ≡ ok s
unfolding apply_each
apply_each-nil now command s = refl

ok-injective : {s t : Store} → ◌≡◌ {A = Result Store} (ok s) (ok t) → s ≡ t
ok-injective e = ground arith

Applied-cons :
    (now : ℕ) (command : String) (a : Transition) (actions : List Transition) (s s' : Store)
    {r : UnitRow}
    → unit_at a.unit_id s ≡ some r
    → Applied now command actions
        (write_transition now a.unit_id r.status a.to_status a.superseded_by command a.reason "" s)
        s'
    → Applied now command (a ∷ actions) s s'
unfolding write_transition
Applied-cons now command a actions s s' {r} e k = record {
  units = λ i.
      let moved =
        unit_at-write_transition now a.unit_id a.to_status a.superseded_by command a.reason "" s e
          i in
      let rest = k.units i in ground (arith, moved, rest, e, ==_iff a.unit_id i);
  entries = log_entry a.unit_id (some r.status) a.to_status command a.reason "" ∷ k.entries;
  log = k.log ∙ append_assoc s.status_log _ k.entries;
  recorded = (refl, refl, refl, refl, k.recorded);
  labels = k.labels;
  sources = k.sources;
}

apply_each-Applied :
    (now : ℕ) (command : String) (actions : List Transition) (s : Store)
    → first_fault s actions ≡ none
    → (s' : Store) × (apply_each now command actions s ≡ ok s') × Applied now command actions s s'
unfolding apply_each
apply_each-Applied now command [] s h = (
  s,
  refl,
  record {
    units = λ i. Option-map-id (unit_at i s);
    entries = [];
    log = sym (append-nil s.status_log);
    recorded = tt;
    labels = refl;
    sources = refl;
  },
)
apply_each-Applied now command (a ∷ actions) s h = elim (Option-cases (unit_at a.unit_id s)) [
  | inl nothing ↦ absurd (ground arith)
  | inr (r, found) ↦
      let good : applies s a ≡ true = ground arith in
      let s₁ : Store =
        write_transition now a.unit_id r.status a.to_status a.superseded_by command a.reason "" s in
      let one = apply_one-eq now command a s found good in
      let later : first_fault s₁ actions ≡ none =
        first_fault-write now a.unit_id a.to_status a.superseded_by command a.reason "" s found
          actions
        ∙ ground arith in
      let (s', done, k) = apply_each-Applied now command actions s₁ later in
      (s', rw one done, Applied-cons now command a actions s s' found k)
]

apply_each-fault :
    (now : ℕ) (command : String) (actions : List Transition) (s : Store) {e : Error}
    → first_fault s actions ≡ some e
    → apply_each now command actions s ≡ err e
unfolding apply_each
apply_each-fault now command [] s h = cc
apply_each-fault now command (a ∷ actions) s {e} h = elim (Bool-cases (applies s a)) [
  | inl good ↦ elim (Option-cases (unit_at a.unit_id s)) [
    | inl nothing ↦ absurd (ground arith)
    | inr (r, found) ↦
        let one = apply_one-eq now command a s found good in
        let same =
          first_fault-write now a.unit_id a.to_status a.superseded_by command a.reason "" s found
            actions in
        rw one (apply_each-fault now command actions _ (same ∙ ground arith))
  ]
  | inr bad ↦ ground (arith, apply_one-err now command a s bad)
]

-- A batch of transitions is all or nothing. If every action finds its unit, and its supersession
-- target if it names one, which is not the unit itself, the batch returns the number of actions,
-- every unit is what the actions on it make of it in turn, one log row is appended for each action
-- in order, and labels and sources stay. Otherwise it raises the error of the first action that
-- does not apply to the table as it was, and the store is unchanged.
pub atomically-all_or_nothing :
    (now : ℕ) (command : String) (actions : List Transition) (s : Store)
    → ((s' : Store) × (first_fault s actions ≡ none)
        × (transition_memory_units_atomically now command actions s ≡ (ok (length actions), s'))
        × Applied now command actions s s')
      ⊎ ((e : Error) × (first_fault s actions ≡ some e)
          × (transition_memory_units_atomically now command actions s ≡ (err e, s)))
unfolding transition_memory_units_atomically rollback
atomically-all_or_nothing now command [] s =
    let (s', done, k) = apply_each-Applied now command [] s refl in
    inl (
      s,
      refl,
      refl,
      subst (Applied now command [] s) (ok-injective (sym done ∙ apply_each-nil now command s)) k,
    )
atomically-all_or_nothing now command (a ∷ actions) s =
    elim (Option-cases (first_fault s (a ∷ actions))) [
      | inl sound ↦
          let (s', done, k) = apply_each-Applied now command (a ∷ actions) s sound in
          inl (s', sound, rw done, k)
      | inr (e, found) ↦ inr (e, found, rw (apply_each-fault now command (a ∷ actions) s found))
    ]
