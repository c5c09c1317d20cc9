-- ===== src/Consolidate/Apply.antt =====
-- A plan applied to the store: `plan.ordered_transitions()` as one atomic batch.

use mathlib.Core.Path.{subst}
use membox.Base.{
  ℕ, ◌≡◌, refl, true, Option, none, List, [], ◌∷◌, ◌++◌, arith, String, ◌==◌, ==_iff, All, All-mono,
  All-append, length, is_some, inl, inr, Bool-cases,
}
use membox.Model.{UnitRecord}
use membox.Store.Units.{Store, Transition, unit_at, ok, transition_memory_units_atomically}
use membox.Store.Units.Batch.{applies, first_fault, Applied, atomically-all_or_nothing}
use membox.Consolidate.Claims.{Surroundings}
use membox.Consolidate.Detect.{member_id, conflict_ids}
use membox.Consolidate.Plan.{Plan, Comparator, ordered_transitions, build_consolidation_plan}
use membox.Consolidate.Loop.{Moves}
use membox.Consolidate.Successors.{Supersedes}
use membox.Consolidate.Targets.{IsSound, movable, build_consolidation_plan-IsSound}

member_id-All : (P : ℕ → Type 0) (i : ℕ) (ids : List ℕ) → All P ids → member_id i ids ≡ true → P i
member_id-All P i [] h e = cc
member_id-All P i (j ∷ ids) h e = elim (Bool-cases (j == i)) [
  | inl same ↦ subst P (ground (arith, same, ==_iff j i)) h.0
  | inr other ↦ member_id-All P i ids h.1 (ground (arith, e, other))
]

first_fault-none :
    (s : Store) (actions : List Transition)
    → All (λ a. applies s a ≡ true) actions
    → first_fault s actions ≡ none
first_fault-none s [] h = refl
first_fault-none s (a ∷ actions) h = ground (arith, h.0, first_fault-none s actions h.1)

module _ (s : Store) (ids excluded : List ℕ) (plan : Plan) where
  supersessions-apply :
      All (λ i. is_some (unit_at i s) ≡ true) ids
      → IsSound ids excluded plan
      → All (λ a. applies s a ≡ true) plan.supersessions
  supersessions-apply present sound =
      All-mono (λ t. Supersedes ids excluded t) (λ a. applies s a ≡ true) plan.supersessions
        (λ a h.
          let unit =
            member_id-All (λ i. is_some (unit_at i s) ≡ true) a.unit_id ids present h.unit in
          let target =
            member_id-All (λ i. is_some (unit_at i s) ≡ true) h.newer ids present h.target in
          ground (arith, h.by, h.older, unit, target, ==_iff h.newer a.unit_id))
        sound.supersessions

  Moves-apply :
      (list : List Transition)
      → All (λ i. is_some (unit_at i s) ≡ true) ids
      → All (λ t. Moves ids excluded t) list
      → All (λ a. applies s a ≡ true) list
  Moves-apply list present within =
      All-mono (λ t. Moves ids excluded t) (λ a. applies s a ≡ true) list
        (λ a m.
          let unit =
            member_id-All (λ i. is_some (unit_at i s) ≡ true) a.unit_id ids present m.0.0 in
          ground (arith, m.1, unit))
        within

  -- A sound plan applies to a store that has its units.
  sound-applies :
      All (λ i. is_some (unit_at i s) ≡ true) ids
      → IsSound ids excluded plan
      → All (λ a. applies s a ≡ true) (ordered_transitions plan)
  unfolding ordered_transitions
  sound-applies present sound =
      let P : Transition → Type 0 = λ a. applies s a ≡ true in
      let others = sound.others in
      All-append P plan.supersessions
        (plan.decay_archives ++ (plan.promotions ++ (plan.candidates ++ plan.demotions)))
        (supersessions-apply present sound)
        (All-append P plan.decay_archives (plan.promotions ++ (plan.candidates ++ plan.demotions))
          (Moves-apply plan.decay_archives present others.decay_archives)
          (All-append P plan.promotions (plan.candidates ++ plan.demotions)
            (Moves-apply plan.promotions present others.promotions)
            (All-append P plan.candidates plan.demotions
              (Moves-apply plan.candidates present others.candidates)
              (Moves-apply plan.demotions present others.demotions))))

-- If every unit that has an id and no rejection is in the store, the transitions of the plan apply as
-- one batch: no error is raised, their number is returned, and the store is changed as the batch
-- says.
pub consolidation_plan-applies :
    (world : Surroundings) (units : List UnitRecord) (counts pairs : List (ℕ × ℕ))
    (comparator : Option Comparator) (threshold now : ℕ) (command : String) (s : Store)
    → All (λ i. is_some (unit_at i s) ≡ true) (movable world units counts pairs)
    → (s' : Store) × (transition_memory_units_atomically now command
          (ordered_transitions
            (build_consolidation_plan world units counts pairs comparator threshold))
          s
        ≡ (
          ok (
              length (
                ordered_transitions
                  (build_consolidation_plan world units counts pairs comparator threshold))),
          s',
        ))
      × Applied now command
          (ordered_transitions
            (build_consolidation_plan world units counts pairs comparator threshold))
          s
          s'
consolidation_plan-applies world units counts pairs comparator threshold now command s present =
    let plan = build_consolidation_plan world units counts pairs comparator threshold in
    let actions = ordered_transitions plan in
    let sound = build_consolidation_plan-IsSound world units counts pairs comparator threshold in
    let clean = first_fault-none s actions (
      sound-applies s (movable world units counts pairs) (conflict_ids plan.conflicts) plan present
        sound) in
    elim (atomically-all_or_nothing now command actions s) [
      | inl (s', _, result, applied) ↦ (s', result, applied)
      | inr (e, fault, _) ↦ cc
    ]
