-- ===== src/Triage/Decision.antt =====
-- What a decision of the gate says, and that an extracted trace activates.
use Prim.Native.Nat.{min}
use membox.Base.{
  ℕ, sym, ap, ◌∙◌, ◌≤◌, ◌≡◌, refl, Bool, true, false, not, ◌&&◌, ◌||◌, String, List, [], ◌∷◌, arith,
  leb, str_eq, any_of, all_of, Bool-cases, inl, inr,
}
use membox.Base.Text.{casefold}
use membox.Model.{UnitType, UserIntent, is_memory_label}
use membox.Model.Enums.{same_type}
use membox.Triage.Shapes.{Characters, text_take, is_boilerplate_content}
use membox.Triage.Gate.{
  Signals, Verdict, verdict_by, is_manual, signals_of, verdict_of, infer_labels, labels_among,
  or_workflow, label_keywords, boilerplate, decide, triage_trace, infer_unit_type,
  unit_type_priority, activation_passes,
}

-- Labels of the table are labels of the vocabulary.
labels_among-known :
    (lowered : String) (rows : List (String × List String))
    → all_of (λ row. is_memory_label row.0) rows ≡ true
    → all_of is_memory_label (labels_among lowered rows) ≡ true
unfolding labels_among
labels_among-known lowered [] h = refl
labels_among-known lowered (row ∷ rows) h = ground (arith, h, labels_among-known lowered rows)

label_keywords-known : all_of (λ row. is_memory_label row.0) label_keywords ≡ true
unfolding is_memory_label
label_keywords-known = refl

or_workflow-known :
    (labels : List String)
    → all_of is_memory_label labels ≡ true
    → all_of is_memory_label (or_workflow labels) ≡ true
unfolding or_workflow is_memory_label
or_workflow-known [] h = refl
or_workflow-known (label ∷ labels) h = h

infer_labels-known : (lowered : String) → all_of is_memory_label (infer_labels lowered) ≡ true
unfolding infer_labels
infer_labels-known lowered =
    or_workflow-known (labels_among lowered label_keywords)
      (labels_among-known lowered label_keywords label_keywords-known)

type_has_priority : (t : UnitType) → any_of (same_type t) unit_type_priority ≡ true
unfolding same_type
type_has_priority t = ground arith

abbrev is_weak : Verdict → Bool
is_weak v = str_eq v.reason "weak_context_only"

-- The confidence of every verdict is from 50 to 85; the weak verdict alone has an importance below
-- 45, and no manual intent has it.
abbrev IsBounded : Bool → Verdict → Type 0
IsBounded manual v =
    (leb 50 v.confidence ≡ true)
    × (leb v.confidence 85 ≡ true)
    × (leb 45 v.importance ≡ not (is_weak v))
    × (manual && is_weak v ≡ false)

verdict_by-bounds : (a b c d e f : Bool) → IsBounded a (verdict_by a b c d e f)
unfolding verdict_by
verdict_by-bounds true b c d e f = (refl, refl, refl, refl)
verdict_by-bounds false true c d e f = (refl, refl, refl, refl)
verdict_by-bounds false false true d e f = (refl, refl, refl, refl)
verdict_by-bounds false false false true e f = (refl, refl, refl, refl)
verdict_by-bounds false false false false true f = (refl, refl, refl, refl)
verdict_by-bounds false false false false false true = (refl, refl, refl, refl)
verdict_by-bounds false false false false false false = (refl, refl, refl, refl)

verdict_of-bounds : (g : Signals) → IsBounded g.manual (verdict_of g)
unfolding verdict_of
verdict_of-bounds g =
    verdict_by-bounds g.manual (g.role_weighted_explicit || g.correction)
      (g.fix || (g.procedure && not g.is_event && (g.durable || g.explicit || g.failing)))
      (g.durable && g.explicit) (g.durable && g.declared_fact)
      (g.durable && g.declared_plan && not g.is_event)

at_least_capped : (c : ℕ) → leb 50 c ≡ true → leb 50 (min c 85) ≡ true
at_least_capped c h = ground (arith, h)

activation :
    (sourced prior known confident important manual weak : Bool)
    → prior ≡ true
    → known ≡ true
    → confident ≡ true
    → important ≡ not weak
    → manual && weak ≡ false
    → (sourced && prior && known && confident && (important || manual)) ≡ (sourced && not weak)
activation sourced prior known confident important manual weak h k c i w =
    ground (arith, h, k, c, i, w)

decide-activates :
    (chars : Characters) (window role : String) (user_intent : UserIntent) (trace_kind : String)
    (has_source : Bool)
    → activation_passes (decide chars window role user_intent trace_kind) has_source
      ≡ (has_source && (decide chars window role user_intent trace_kind).should_extract)
unfolding decide activation_passes
decide-activates chars window role user_intent trace_kind has_source =
    let lowered = casefold chars.fold window in
    let g = signals_of chars lowered role user_intent trace_kind in
    let manual : g.manual ≡ is_manual user_intent = unfold signals_of in refl in
    let v = verdict_of g in
    let (confident, capped, important, weak) = verdict_of-bounds g in
    let weak' : is_manual user_intent && is_weak v ≡ false =
      ap (λ m. m && is_weak v) (sym manual) ∙ weak in
    let confident' : leb 50 (min v.confidence 85) ≡ true = at_least_capped v.confidence confident in
    activation has_source (any_of (same_type (infer_unit_type chars lowered g)) unit_type_priority)
      (all_of is_memory_label (infer_labels lowered)) (leb 50 (min v.confidence 85))
      (leb 45 v.importance) (is_manual user_intent) (is_weak v)
      (type_has_priority (infer_unit_type chars lowered g)) (infer_labels-known lowered) confident'
      important weak'

-- A decision of the gate activates exactly if it says to extract and the trace has a source.
pub triage_trace-activates :
    (chars : Characters) (text role : String) (user_intent : UserIntent) (trace_kind : String)
    (has_source : Bool)
    → activation_passes (triage_trace chars text role user_intent trace_kind) has_source
      ≡ (has_source && (triage_trace chars text role user_intent trace_kind).should_extract)
unfolding triage_trace
triage_trace-activates chars text role user_intent trace_kind has_source =
    let window = text_take 4000 text in
    elim (Bool-cases (is_boilerplate_content chars window)) [
      | inl shape ↦ unfold activation_passes boilerplate in ground (arith, shape)
      | inr prose ↦
          ground
            (arith, prose, decide-activates chars window role user_intent trace_kind has_source)
    ]

-- A manual intent extracts a text exactly if its first 4000 characters are not boilerplate; whatever
-- the intent, boilerplate is not extracted, and no confidence is above 85.
pub triage_trace-manual :
    (chars : Characters) (text role trace_kind : String) (user_intent : UserIntent)
    → ((triage_trace chars text role UserIntent.manual trace_kind).should_extract
        ≡ not (is_boilerplate_content chars (text_take 4000 text)))
      × (is_boilerplate_content chars (text_take 4000 text)
            && (triage_trace chars text role user_intent trace_kind).should_extract
          ≡ false)
      × ((triage_trace chars text role user_intent trace_kind).confidence_score ≤ 85)
unfolding triage_trace decide boilerplate
triage_trace-manual chars text role trace_kind user_intent =
    let window = text_take 4000 text in
    let lowered = casefold chars.fold window in
    let g = signals_of chars lowered role UserIntent.manual trace_kind in
    let weak : str_eq (verdict_of g).reason "weak_context_only" ≡ false =
      unfold signals_of verdict_of in refl in
    (ground (arith, weak), ground arith, ground arith)
