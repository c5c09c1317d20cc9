-- ===== src/Consolidate/Plan.antt =====
-- `crystal_policy`, `build_consolidation_plan` and the re-scoring of a plan by a comparator.

use membox.Base.{
  ℕ, String, Bool, true, false, not, ◌&&◌, ◌||◌, Option, none, some, List, [], ◌∷◌, ◌++◌, leb, ◌==◌,
  if◌then◌else◌, select, length, map,
}
use membox.Base.Text.{Folding, concat}
use membox.Model.{UnitType, UnitStatus, UnitRecord}
use membox.Model.Enums.{same_type, same_status}
use membox.Store.Units.{Transition}
use membox.Consolidate.Claims.{
  Surroundings, has_explicit_user_confirmation, should_be_crystal_candidate,
}
use membox.Consolidate.Validate.{Known, Issue, validate_units, known_units}
use membox.Consolidate.Detect.{
  Conflict, proposal, member_id, detect_conflicts, detect_fts_pairs, conflict_ids,
  detect_supersessions, archive, review, keep, decay_action,
}

pub record Policy : Type 0 where
  pub eligible : Bool
  pub reason : String
  pub independent_source_count : ℕ

unfoldable pub crystal_policy : Folding → UnitRecord → ℕ → Policy
crystal_policy fold unit count =
    let decide : Bool → String → Policy = λ eligible reason. record {
      eligible = eligible;
      reason = reason;
      independent_source_count = count;
    } in
    if length unit.sources == 0
    then decide false "no_source"
    else if has_explicit_user_confirmation fold unit
    then decide true "explicit_user_confirmation"
    else if leb 3 count
    then decide true "independent_source_count>=3"
    else if same_type unit.unit_type UnitType.decision
        && leb 90 unit.confidence_score
        && leb 80 unit.importance_score
    then decide true "high_confidence_decision"
    else decide false "below_crystal_threshold"

pub record Plan : Type 0 where
  pub promotions : List Transition
  pub candidates : List Transition
  pub demotions : List Transition
  pub conflicts : List Conflict
  pub fts_pairs : List Conflict
  pub supersessions : List Transition
  pub decay_archives : List Transition
  pub decay_reviews : List Issue
  pub validator_rejections : List Issue
  pub validator_flags : List Issue

unfoldable pub ordered_transitions : Plan → List Transition
ordered_transitions plan =
    plan.supersessions
    ++ (plan.decay_archives ++ (plan.promotions ++ (plan.candidates ++ plan.demotions)))

unfoldable pub promote : Known → Policy → Plan → Plan
promote unit policy plan = record plan {
  promotions =
      proposal unit UnitStatus.crystal (concat ("crystal policy: " ∷ policy.reason ∷ []))
      ∷ plan.promotions;
}

-- What the policy makes of a unit that stays, before what it makes of the later units.
unfoldable pub judge : Surroundings → Known → Policy → Plan → Plan
unfolding promote
judge world unit policy plan =
    let active = same_status unit.1.status UnitStatus.active_unit in
    let candidate = same_status unit.1.status UnitStatus.crystal_candidate in
    let recurring = should_be_crystal_candidate world.fold unit.1 in
    if not (active || candidate)
    then plan
    else if policy.eligible
    then promote unit policy plan
    else if active && recurring
    then record plan {
      candidates =
          proposal unit UnitStatus.crystal_candidate
            "recurring or failure-backed unit needs crystal review"
          ∷ plan.candidates;
    }
    else if candidate && not recurring
    then record plan {
      demotions =
          proposal unit UnitStatus.active_unit "crystal policy rejected candidate" ∷ plan.demotions;
    }
    else plan

unfoldable pub independent_count : List (ℕ × ℕ) → ℕ → ℕ
independent_count [] i = 0
independent_count (row ∷ rows) i =
    let rest = independent_count rows i in if row.0 == i then row.1 else rest

unfoldable pub place : Surroundings → List (ℕ × ℕ) → Known → Plan → Plan
unfolding judge crystal_policy decay_action independent_count
place world counts unit plan = elim (decay_action world unit) [
  | archive transition ↦ record plan { decay_archives = transition ∷ plan.decay_archives }
  | review found ↦ record plan { decay_reviews = found ∷ plan.decay_reviews }
  | keep ↦
      judge world unit (crystal_policy world.fold unit.1 (independent_count counts unit.0)) plan
]

-- The loop over the eligible units: those in `skipped` are in a conflict or superseded.
unfoldable pub place_each : Surroundings → List (ℕ × ℕ) → List ℕ → List Known → Plan → Plan
unfolding place
place_each world counts skipped [] plan = plan
place_each world counts skipped (unit ∷ units) plan =
    let rest = place_each world counts skipped units plan in
    if member_id unit.0 skipped then rest else place world counts unit rest

-- A comparator's score of one unit.
pub record Score : Type 0 where
  pub unit_id : ℕ
  pub score : ℕ

abbrev pub Comparator : Type 0
Comparator = List UnitRecord → List UnitRecord → List Score

-- Of two scores of one unit, a dict keeps the later.
unfoldable pub score_of : List Score → ℕ → Option ℕ
score_of [] i = none
score_of (row ∷ rows) i = elim (score_of rows i) [
  | some score ↦ some score
  | none ↦ if row.unit_id == i then some row.score else none
]

unfoldable pub keeps : List Score → ℕ → Transition → Bool
unfolding score_of
keeps scores threshold transition = elim (score_of scores transition.unit_id) [
  | none ↦ true
  | some score ↦ leb threshold score
]

unfoldable pub rescore : List Score → ℕ → Plan → Plan
unfolding keeps
rescore scores threshold plan = record plan {
  promotions = select (keeps scores threshold) plan.promotions;
  candidates = select (keeps scores threshold) plan.candidates;
  demotions = select (keeps scores threshold) plan.demotions;
  supersessions = select (keeps scores threshold) plan.supersessions;
  decay_archives = select (keeps scores threshold) plan.decay_archives;
}

unfoldable pub apply_llm_comparator : Comparator → ℕ → List Known → Plan → Plan
unfolding ordered_transitions rescore
apply_llm_comparator comparator threshold eligible plan =
    let ids = map (λ t. t.unit_id) (ordered_transitions plan) in
    let candidates = select (λ unit. member_id unit.0 ids) eligible in
    if length candidates == 0
    then plan
    else rescore (comparator (map (λ unit. unit.1) candidates) (map (λ unit. unit.1) eligible))
        threshold plan

unfoldable pub eligible_units : List Issue → List UnitRecord → List Known
unfolding known_units
eligible_units rejections units =
    let rejected = map (λ found. found.unit_id) rejections in
    select (λ unit. not (member_id unit.0 rejected)) (known_units units)

-- The plan before a comparator sees it.
unfoldable pub draft_plan : Surroundings → List UnitRecord → List (ℕ × ℕ) → List (ℕ × ℕ) → Plan
unfolding validate_units eligible_units detect_conflicts detect_fts_pairs conflict_ids
    detect_supersessions place_each
draft_plan world units counts fts_pair_ids =
    let issues = validate_units world units in
    let eligible = eligible_units issues.0 units in
    let conflicts = detect_conflicts world eligible in
    let excluded = conflict_ids conflicts in
    let supersessions = detect_supersessions world excluded eligible in
    let skipped = map (λ t. t.unit_id) supersessions ++ excluded in
    place_each world counts skipped eligible record {
      promotions = [];
      candidates = [];
      demotions = [];
      conflicts = conflicts;
      fts_pairs = detect_fts_pairs world fts_pair_ids eligible;
      supersessions = supersessions;
      decay_archives = [];
      decay_reviews = [];
      validator_rejections = issues.0;
      validator_flags = issues.1;
    }

unfoldable pub build_consolidation_plan :
    Surroundings → List UnitRecord → List (ℕ × ℕ) → List (ℕ × ℕ) → Option Comparator → ℕ → Plan
unfolding draft_plan apply_llm_comparator
build_consolidation_plan world units counts fts_pair_ids comparator threshold =
    let plan = draft_plan world units counts fts_pair_ids in
    elim comparator [
      | none ↦ plan
      | some rescorer ↦
          apply_llm_comparator rescorer threshold (eligible_units plan.validator_rejections units)
            plan
    ]
