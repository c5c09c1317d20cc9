-- ===== src/Consolidate/Targets.antt =====
-- Which units a plan touches, and by which it lets them be superseded.
use mathlib.Core.Path.{subst}
use membox.Base.{
  ℕ, ◌≡◌, ◌⊎◌, refl, sym, ap, ◌||◌, Option, none, some, List, [], ◌∷◌, ◌++◌, arith, ◌==◌,
  Bool-cases, inl, inr, All, All-mono, map, select, length,
}
use membox.Model.{UnitRecord}
use membox.Store.Units.{Transition}
use membox.Consolidate.Claims.{Surroundings}
use membox.Consolidate.Validate.{Known, validate_units}
use membox.Consolidate.Detect.{
  member_id, conflict_ids, detect_supersessions, detect_conflicts, detect_fts_pairs,
}
use membox.Consolidate.Plan.{
  Plan, ordered_transitions, keeps, rescore, apply_llm_comparator, Comparator, Score,
  eligible_units, draft_plan, build_consolidation_plan,
}
use membox.Consolidate.Loop.{
  All-select, known-member, Concerns, Moves, IsWithin, place_each-IsWithin, place_each-fixed_part,
}
use membox.Consolidate.Successors.{Supersedes, detect_supersessions-Supersedes}

-- The transitions of a plan: of units in `ids`, of none in `excluded`.
pub record IsSound (ids excluded : List ℕ) (plan : Plan) : Type 0 where
  pub supersessions : All (λ t. Supersedes ids excluded t) plan.supersessions
  pub others : IsWithin ids excluded plan

member_id-append :
    (i : ℕ) (left right : List ℕ)
    → member_id i (left ++ right) ≡ (member_id i left || member_id i right)
member_id-append i [] right = refl
member_id-append i (j ∷ left) right = ground (arith, member_id-append i left right)

Concerns-right :
    (ids left right : List ℕ) (i : ℕ) → Concerns ids (left ++ right) i → Concerns ids right i
Concerns-right ids left right i c = (c.0, ground (arith, c.1, member_id-append i left right))

IsWithin-right :
    (ids left right : List ℕ) (plan : Plan)
    → IsWithin ids (left ++ right) plan
    → IsWithin ids right plan
IsWithin-right ids left right plan within =
    let narrow : (list : List Transition)
        → All (λ t. Moves ids (left ++ right) t) list
        → All (λ t. Moves ids right t) list =
      λ list.
        All-mono (λ t. Moves ids (left ++ right) t) (λ t. Moves ids right t) list
          (λ t m. (Concerns-right ids left right t.unit_id m.0, m.1)) in
    record {
      promotions = narrow plan.promotions within.promotions;
      candidates = narrow plan.candidates within.candidates;
      demotions = narrow plan.demotions within.demotions;
      decay_archives = narrow plan.decay_archives within.decay_archives;
    }

rescore-IsSound :
    (ids excluded : List ℕ) (scores : List Score) (threshold : ℕ) (plan : Plan)
    → IsSound ids excluded plan
    → IsSound ids excluded (rescore scores threshold plan)
unfolding rescore
rescore-IsSound ids excluded scores threshold plan sound =
    let kept : (list : List Transition)
        → All (λ t. Moves ids excluded t) list
        → All (λ t. Moves ids excluded t) (select (keeps scores threshold) list) =
      λ list. All-select (λ t. Moves ids excluded t) (keeps scores threshold) list in
    record {
      supersessions =
          All-select (λ t. Supersedes ids excluded t) (keeps scores threshold) plan.supersessions
            sound.supersessions;
      others = record {
        promotions = kept plan.promotions sound.others.promotions;
        candidates = kept plan.candidates sound.others.candidates;
        demotions = kept plan.demotions sound.others.demotions;
        decay_archives = kept plan.decay_archives sound.others.decay_archives;
      };
    }

pub apply_llm_comparator-cases :
    (rescorer : Comparator) (threshold : ℕ) (units : List Known) (plan : Plan)
    → (apply_llm_comparator rescorer threshold units plan ≡ plan)
      ⊎ ((scores : List Score) × (apply_llm_comparator rescorer threshold units plan
            ≡ rescore scores threshold plan))
unfolding apply_llm_comparator
apply_llm_comparator-cases rescorer threshold units plan =
    let ids = map (λ t. t.unit_id) (ordered_transitions plan) in
    let candidates = select (λ unit. member_id unit.0 ids) units in
    elim (Bool-cases (length candidates == 0)) [
      | inl empty ↦ inl (ground (arith, empty))
      | inr some_left ↦ inr (
        rescorer (map (λ unit. unit.1) candidates) (map (λ unit. unit.1) units),
        ground (arith, some_left),
      )
    ]

apply_llm_comparator-IsSound :
    (rescorer : Comparator) (threshold : ℕ) (units : List Known) (ids : List ℕ) (plan : Plan)
    → IsSound ids (conflict_ids plan.conflicts) plan
    → IsSound ids
        (conflict_ids (apply_llm_comparator rescorer threshold units plan).conflicts)
        (apply_llm_comparator rescorer threshold units plan)
unfolding rescore
apply_llm_comparator-IsSound rescorer threshold units ids plan sound =
    let P : Plan → Type 0 = λ p. IsSound ids (conflict_ids p.conflicts) p in
    elim (apply_llm_comparator-cases rescorer threshold units plan) [
      | inl same ↦ subst P (sym same) sound
      | inr (scores, same) ↦
          subst P (sym same)
            (rescore-IsSound ids (conflict_ids plan.conflicts) scores threshold plan sound)
    ]

module _ (world : Surroundings) (units : List UnitRecord) (counts pairs : List (ℕ × ℕ)) where
  -- The units that may be moved: those that have an id and no rejection.
  abbrev pub eligible : List Known
  eligible = eligible_units (validate_units world units).0 units

  abbrev pub movable : List ℕ
  movable = map (λ unit. unit.0) eligible

  abbrev draft : Plan
  draft = draft_plan world units counts pairs

  abbrev excluded : List ℕ
  excluded = conflict_ids (detect_conflicts world eligible)

  draft_plan-IsSound :
      (draft.conflicts ≡ detect_conflicts world eligible)
      × (draft.validator_rejections ≡ (validate_units world units).0)
      × IsSound movable excluded draft
  unfolding draft_plan
  draft_plan-IsSound =
      let supersessions = detect_supersessions world excluded eligible in
      let skipped = map (λ t. t.unit_id) supersessions ++ excluded in
      let start : Plan = record {
        promotions = [];
        candidates = [];
        demotions = [];
        conflicts = detect_conflicts world eligible;
        fts_pairs = detect_fts_pairs world pairs eligible;
        supersessions = supersessions;
        decay_archives = [];
        decay_reviews = [];
        validator_rejections = (validate_units world units).0;
        validator_flags = (validate_units world units).1;
      } in
      let known = known-member eligible in
      let fixed = place_each-fixed_part world counts movable skipped eligible start in
      let empty : IsWithin movable skipped start = record {
        promotions = tt;
        candidates = tt;
        demotions = tt;
        decay_archives = tt;
      } in
      let within = place_each-IsWithin world counts movable skipped eligible start known empty in
      let sup = detect_supersessions-Supersedes world movable excluded eligible known in
      (
        ap (λ part. part.1.0) fixed,
        ap (λ part. part.1.1) fixed,
        record {
          supersessions =
              subst (λ list. All (λ t. Supersedes movable excluded t) list)
                (sym (ap (λ part. part.0) fixed)) sup;
          others =
              IsWithin-right movable (map (λ t. t.unit_id) supersessions) excluded draft within;
        },
      )

  draft-IsSound : IsSound movable (conflict_ids draft.conflicts) draft
  draft-IsSound =
      let (conflicts, issues, sound) = draft_plan-IsSound in
      subst (λ list. IsSound movable (conflict_ids list) draft) (sym conflicts) sound

  pub build_consolidation_plan-IsSound :
      (comparator : Option Comparator) (threshold : ℕ)
      → IsSound movable
          (conflict_ids
            (build_consolidation_plan world units counts pairs comparator threshold).conflicts)
          (build_consolidation_plan world units counts pairs comparator threshold)
  unfolding build_consolidation_plan
  build_consolidation_plan-IsSound none threshold = draft-IsSound
  build_consolidation_plan-IsSound (some rescorer) threshold =
      apply_llm_comparator-IsSound rescorer threshold
        (eligible_units draft.validator_rejections units) movable draft draft-IsSound
