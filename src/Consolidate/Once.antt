-- ===== src/Consolidate/Once.antt =====
-- A plan moves no unit twice.
use Prim.Native.Nat.{◌+◌}
use membox.Base.{
  ℕ, ◌≤◌, ◌≡◌, ◌⊎◌, refl, sym, ap, ◌∙◌, Bool, true, false, not, Option, none, some, List, [], ◌∷◌,
  ◌++◌, arith, ◌==◌, ==_iff, if◌then◌else◌, Option-cases, Bool-cases, inl, inr, count_where, map,
  select,
}
use membox.Model.{UnitRecord}
use membox.Store.Units.{Transition}
use membox.Consolidate.Claims.{Surroundings}
use membox.Consolidate.Validate.{Known, known_units, validate_units}
use membox.Consolidate.Detect.{
  member_id, conflict_ids, replaces, newest, supersede, supersessions_of, detect_supersessions,
  is_settled, detect_conflicts, detect_fts_pairs, decay_action,
}
use membox.Consolidate.Plan.{
  Policy, Plan, ordered_transitions, promote, judge, place, place_each, rescore, keeps, Comparator,
  Score, eligible_units, independent_count, draft_plan, build_consolidation_plan, crystal_policy,
}
use membox.Consolidate.Loop.{Decay-cases, archived-unit, place_each-fixed_part}
use membox.Consolidate.Targets.{apply_llm_comparator-cases}

module _ {A : Type 0} (test : A → Bool) where
  count_where-append :
      (xs ys : List A) → count_where test (xs ++ ys) ≡ count_where test xs + count_where test ys
  count_where-append [] ys = omega arith
  count_where-append (x ∷ xs) ys = omega (arith, count_where-append xs ys)

  count_where-select :
      (chosen : A → Bool) (xs : List A) → count_where test (select chosen xs) ≤ count_where test xs
  count_where-select chosen [] = omega arith
  count_where-select chosen (x ∷ xs) = ground (arith, count_where-select chosen xs)

at_most : (b : Bool) (n : ℕ) {p : ℕ} → p ≤ 0 + (if b then 0 else n) → p ≤ n
at_most b n h = ground (arith, h)

at_zero : {b : Bool} (n : ℕ) {p : ℕ} → b ≡ true → p ≤ 0 + (if b then 0 else n) → p ≤ 0
at_zero n e h = ground (arith, e, h)

module _ (i : ℕ) where
  abbrev pub is_of : Transition → Bool
  is_of t = t.unit_id == i

  abbrev pub is_unit : Known → Bool
  is_unit unit = unit.0 == i

  -- How many transitions of the loop are of the unit.
  abbrev placed : Plan → ℕ
  placed plan =
      count_where is_of plan.decay_archives
      + count_where is_of plan.promotions
      + count_where is_of plan.candidates
      + count_where is_of plan.demotions

  judge-placed :
      (world : Surroundings) (unit : Known) (policy : Policy) (plan : Plan)
      → placed (judge world unit policy plan) ≤ placed plan + (if unit.0 == i then 1 else 0)
  unfolding judge promote
  judge-placed world unit policy plan = ground arith

  place-placed :
      (world : Surroundings) (counts : List (ℕ × ℕ)) (unit : Known) (plan : Plan)
      → placed (place world counts unit plan) ≤ placed plan + (if unit.0 == i then 1 else 0)
  unfolding place
  place-placed world counts unit plan =
      let policy = crystal_policy world.fold unit.1 (independent_count counts unit.0) in
      elim (Decay-cases (decay_action world unit)) [
        | inl (t, e) ↦
            let same = archived-unit world counts [] [] unit t e in ground (arith, e, same.0)
        | inr (inl (found, e)) ↦ ground (arith, e)
        | inr (inr e) ↦
            let kept : place world counts unit plan ≡ judge world unit policy plan =
              ground (arith, e) in
            ground (arith, kept, judge-placed world unit policy plan)
      ]

  place_each-placed :
      (world : Surroundings) (counts : List (ℕ × ℕ)) (skipped : List ℕ) (units : List Known)
      (plan : Plan)
      → placed (place_each world counts skipped units plan)
        ≤ placed plan + (if member_id i skipped then 0 else count_where is_unit units)
  unfolding place_each
  place_each-placed world counts skipped [] plan = ground arith
  place_each-placed world counts skipped (unit ∷ units) plan =
      let rest = place_each-placed world counts skipped units plan in
      let next = place_each world counts skipped units plan in
      elim (Bool-cases (member_id unit.0 skipped)) [
        | inl skip ↦ ground (arith, skip, rest)
        | inr free ↦
            let added = place-placed world counts unit next in
            elim (Bool-cases (unit.0 == i)) [
              | inl own ↦
                  let same : unit.0 ≡ i = (==_iff unit.0 i).0 own in
                  let out : member_id i skipped ≡ false =
                    ap (λ j. member_id j skipped) (sym same) ∙ free in
                  ground (arith, free, out, rest, added, own)
              | inr other ↦ ground (arith, free, rest, added, other)
            ]
      ]

  -- A superseded unit is in the list of the superseded.
  superseded-member :
      (list : List Transition)
      → (count_where is_of list ≡ 0) ⊎ (member_id i (map (λ t. t.unit_id) list) ≡ true)
  superseded-member [] = inl refl
  superseded-member (t ∷ list) = ground (arith, superseded-member list)

  supersessions_of-count :
      (world : Surroundings) (active units : List Known)
      → count_where is_of (supersessions_of world active units) ≤ count_where is_unit units
  unfolding supersessions_of supersede
  supersessions_of-count world active [] = omega arith
  supersessions_of-count world active (older ∷ units) =
      let rest = supersessions_of-count world active units in
      elim (Option-cases (newest (select (replaces world older) active))) [
        | inl empty ↦ ground (arith, empty, rest)
        | inr (j, found) ↦ ground (arith, found, rest)
      ]

  detect_supersessions-count :
      (world : Surroundings) (excluded : List ℕ) (units : List Known)
      → count_where is_of (detect_supersessions world excluded units) ≤ count_where is_unit units
  unfolding detect_supersessions
  detect_supersessions-count world excluded units =
      let active = select (is_settled excluded) units in
      let found = supersessions_of-count world active active in
      let fewer = count_where-select is_unit (is_settled excluded) units in
      omega (arith, found, fewer)

  -- All the transitions of a plan that are of the unit.
  ordered_transitions-count :
      (plan : Plan)
      → count_where is_of (ordered_transitions plan)
        ≡ count_where is_of plan.supersessions + placed plan
  unfolding ordered_transitions
  ordered_transitions-count plan =
      let d = plan.decay_archives in
      let p = plan.promotions in
      let c = plan.candidates in
      let m = plan.demotions in
      omega (
        arith,
        count_where-append is_of plan.supersessions (d ++ (p ++ (c ++ m))),
        count_where-append is_of d (p ++ (c ++ m)),
        count_where-append is_of p (c ++ m),
        count_where-append is_of c m,
      )

  member_id-left :
      (left right : List ℕ) → member_id i left ≡ true → member_id i (left ++ right) ≡ true
  member_id-left [] right e = cc
  member_id-left (j ∷ left) right e = ground (arith, e, member_id-left left right)

  rescore-count :
      (scores : List Score) (threshold : ℕ) (plan : Plan)
      → count_where is_of (ordered_transitions (rescore scores threshold plan))
        ≤ count_where is_of (ordered_transitions plan)
  unfolding rescore
  rescore-count scores threshold plan =
      let a = ordered_transitions-count (rescore scores threshold plan) in
      let b = ordered_transitions-count plan in
      omega (
        arith,
        a,
        b,
        count_where-select is_of (keeps scores threshold) plan.supersessions,
        count_where-select is_of (keeps scores threshold) plan.decay_archives,
        count_where-select is_of (keeps scores threshold) plan.promotions,
        count_where-select is_of (keeps scores threshold) plan.candidates,
        count_where-select is_of (keeps scores threshold) plan.demotions,
      )

  module _ (world : Surroundings) (units : List UnitRecord) (counts pairs : List (ℕ × ℕ)) where
    draft_plan-count :
        count_where is_of (ordered_transitions (draft_plan world units counts pairs))
        ≤ count_where is_unit (known_units units)
    unfolding draft_plan eligible_units
    draft_plan-count =
        let issues = validate_units world units in
        let eligible = eligible_units issues.0 units in
        let excluded = conflict_ids (detect_conflicts world eligible) in
        let supersessions = detect_supersessions world excluded eligible in
        let ids = map (λ t. t.unit_id) supersessions in
        let start : Plan = record {
          promotions = [];
          candidates = [];
          demotions = [];
          conflicts = detect_conflicts world eligible;
          fts_pairs = detect_fts_pairs world pairs eligible;
          supersessions = supersessions;
          decay_archives = [];
          decay_reviews = [];
          validator_rejections = issues.0;
          validator_flags = issues.1;
        } in
        let plan = place_each world counts (ids ++ excluded) eligible start in
        let total = ordered_transitions-count plan in
        let fixed : count_where is_of plan.supersessions ≡ count_where is_of supersessions =
          ap (λ part. count_where is_of part.0)
            (place_each-fixed_part world counts [] (ids ++ excluded) eligible start) in
        let loop = place_each-placed world counts (ids ++ excluded) eligible start in
        let few = detect_supersessions-count world excluded eligible in
        let fewer =
          count_where-select is_unit
            (λ unit. not (member_id unit.0 (map (λ found. found.unit_id) issues.0)))
            (known_units units) in
        elim (superseded-member supersessions) [
          | inl never ↦
              let most =
                at_most (member_id i (ids ++ excluded)) (count_where is_unit eligible) loop in
              omega (arith, total, fixed, never, most, fewer)
          | inr gone ↦
              let zero_placed =
                at_zero (count_where is_unit eligible) (member_id-left ids excluded gone) loop in
              omega (arith, total, fixed, few, zero_placed, fewer)
        ]

-- The transitions of a plan that are of a unit are at most as many as the units with its id in the
-- input: where the ids differ, a plan moves each unit at most once.
pub build_consolidation_plan-once :
    (world : Surroundings) (units : List UnitRecord) (counts pairs : List (ℕ × ℕ))
    (comparator : Option Comparator) (threshold i : ℕ)
    → count_where (is_of i) (
        ordered_transitions
          (build_consolidation_plan world units counts pairs comparator threshold))
      ≤ count_where (is_unit i) (known_units units)
unfolding build_consolidation_plan
build_consolidation_plan-once world units counts pairs none threshold i =
    draft_plan-count i world units counts pairs
build_consolidation_plan-once world units counts pairs (some rescorer) threshold i =
    let draft = draft_plan world units counts pairs in
    let few = draft_plan-count i world units counts pairs in
    let eligible = eligible_units draft.validator_rejections units in
    elim (apply_llm_comparator-cases rescorer threshold eligible draft) [
      | inl same ↦
          let kept = ap (λ plan. count_where (is_of i) (ordered_transitions plan)) same in
          omega (arith, few, kept)
      | inr (scores, same) ↦
          let kept = ap (λ plan. count_where (is_of i) (ordered_transitions plan)) same in
          omega (arith, few, kept, rescore-count i scores threshold draft)
    ]
