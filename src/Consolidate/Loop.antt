-- ===== src/Consolidate/Loop.antt =====
-- The loop of `build_consolidation_plan`: which units its transitions are of.

use mathlib.Core.Path.{subst}
use membox.Base.{
  ℕ, ◌≡◌, ◌⊎◌, refl, sym, ap, ◌∙◌, Bool, true, false, none, List, [], ◌∷◌, arith, ==_iff,
  Option-cases, Bool-cases, inl, inr, All, All-mono, map, select,
}
use membox.Store.Units.{Transition}
use membox.Consolidate.Claims.{Surroundings}
use membox.Consolidate.Validate.{Known, Issue}
use membox.Consolidate.Detect.{
  Conflict, member_id, Decay, archive, review, keep, decay_action, expired, parse_datetime,
}
use membox.Consolidate.Plan.{
  Policy, Plan, promote, judge, place, place_each, independent_count, crystal_policy,
}

pub All-select :
    {A : Type 0} (P : A → Type 0) (test : A → Bool) (xs : List A)
    → All P xs
    → All P (select test xs)
All-select P test [] h = tt
All-select P test (x ∷ xs) h = ground (arith, h.0, All-select P test xs h.1)

pub All-select_holds :
    {A : Type 0} (test : A → Bool) (xs : List A) → All (λ x. test x ≡ true) (select test xs)
All-select_holds test [] = tt
All-select_holds test (x ∷ xs) = ground (arith, All-select_holds test xs)

pub All-both :
    {A : Type 0} (P Q : A → Type 0) (xs : List A) → All P xs → All Q xs → All (λ x. P x × Q x) xs
All-both P Q [] h k = tt
All-both P Q (x ∷ xs) h k = ((h.0, k.0), All-both P Q xs h.1 k.1)

-- A transition of a unit in `ids` and not in `skipped`.
abbrev pub Concerns : List ℕ → List ℕ → ℕ → Type 0
Concerns ids skipped i = (member_id i ids ≡ true) × (member_id i skipped ≡ false)

-- A transition of such a unit that names no successor.
abbrev pub Moves : List ℕ → List ℕ → Transition → Type 0
Moves ids skipped t = Concerns ids skipped t.unit_id × (t.superseded_by ≡ none)

-- The transitions of the loop: all but the supersessions.
pub record IsWithin (ids skipped : List ℕ) (plan : Plan) : Type 0 where
  pub promotions : All (λ t. Moves ids skipped t) plan.promotions
  pub candidates : All (λ t. Moves ids skipped t) plan.candidates
  pub demotions : All (λ t. Moves ids skipped t) plan.demotions
  pub decay_archives : All (λ t. Moves ids skipped t) plan.decay_archives

pub Decay-cases :
    (d : Decay)
    → ((t : Transition) × (d ≡ archive t)) ⊎ (((found : Issue) × (d ≡ review found)) ⊎ (d ≡ keep))
Decay-cases (archive t) = inl (t, refl)
Decay-cases (review found) = inr (inl (found, refl))
Decay-cases keep = inr (inr refl)

module _ (world : Surroundings) (counts : List (ℕ × ℕ)) (ids skipped : List ℕ) where
  judge-IsWithin :
      (unit : Known) (policy : Policy) (plan : Plan)
      → Concerns ids skipped unit.0
      → IsWithin ids skipped plan
      → IsWithin ids skipped (judge world unit policy plan)
  unfolding judge promote
  judge-IsWithin unit policy plan c within = record {
    promotions = ground (arith, c.0, c.1, within.promotions);
    candidates = ground (arith, c.0, c.1, within.candidates);
    demotions = ground (arith, c.0, c.1, within.demotions);
    decay_archives = ground (arith, c.0, c.1, within.decay_archives);
  }

  pub archived-unit :
      (unit : Known) (t : Transition)
      → decay_action world unit ≡ archive t
      → (t.unit_id ≡ unit.0) × (t.superseded_by ≡ none)
  unfolding decay_action expired
  archived-unit unit t e = (
    ground (arith, e, Option-cases unit.1.valid_to, parse_datetime world),
    ground (arith, e, Option-cases unit.1.valid_to, parse_datetime world),
  )

  place-IsWithin :
      (unit : Known) (plan : Plan)
      → Concerns ids skipped unit.0
      → IsWithin ids skipped plan
      → IsWithin ids skipped (place world counts unit plan)
  unfolding place
  place-IsWithin unit plan c within = elim (Decay-cases (decay_action world unit)) [
    | inl (t, e) ↦
        let same = archived-unit unit t e in
        record {
          promotions = ground (arith, e, within.promotions);
          candidates = ground (arith, e, within.candidates);
          demotions = ground (arith, e, within.demotions);
          decay_archives = ground (arith, e, same.0, same.1, c.0, c.1, within.decay_archives);
        }
    | inr (inl (found, e)) ↦ record {
      promotions = ground (arith, e, within.promotions);
      candidates = ground (arith, e, within.candidates);
      demotions = ground (arith, e, within.demotions);
      decay_archives = ground (arith, e, within.decay_archives);
    }
    | inr (inr e) ↦
        let policy = crystal_policy world.fold unit.1 (independent_count counts unit.0) in
        let kept : place world counts unit plan ≡ judge world unit policy plan =
          ground (arith, e) in
        subst (IsWithin ids skipped) (sym kept) (judge-IsWithin unit policy plan c within)
  ]

  pub place_each-IsWithin :
      (units : List Known) (plan : Plan)
      → All (λ unit. member_id unit.0 ids ≡ true) units
      → IsWithin ids skipped plan
      → IsWithin ids skipped (place_each world counts skipped units plan)
  unfolding place_each
  place_each-IsWithin [] plan all within = within
  place_each-IsWithin (unit ∷ units) plan all within =
      let rest = place_each-IsWithin units plan all.1 within in
      let next = place_each world counts skipped units plan in
      elim (Bool-cases (member_id unit.0 skipped)) [
        | inl skip ↦
            let same : place_each world counts skipped (unit ∷ units) plan ≡ next =
              ground (arith, skip) in
            subst (IsWithin ids skipped) (sym same) rest
        | inr free ↦
            let same : place_each world counts skipped (unit ∷ units) plan
                ≡ place world counts unit next =
              ground (arith, free) in
            subst (IsWithin ids skipped) (sym same) (place-IsWithin unit next (all.0, free) rest)
      ]

  -- The lists that the loop leaves as they are.
  abbrev pub fixed_part : Plan → List Transition × (List Conflict × List Issue)
  fixed_part plan = (plan.supersessions, (plan.conflicts, plan.validator_rejections))

  judge-fixed_part :
      (unit : Known) (policy : Policy) (plan : Plan)
      → fixed_part (judge world unit policy plan) ≡ fixed_part plan
  unfolding judge promote
  judge-fixed_part unit policy plan = ground arith

  place-fixed_part :
      (unit : Known) (plan : Plan) → fixed_part (place world counts unit plan) ≡ fixed_part plan
  unfolding place
  place-fixed_part unit plan =
      let policy = crystal_policy world.fold unit.1 (independent_count counts unit.0) in
      elim (Decay-cases (decay_action world unit)) [
        | inl (t, e) ↦ ground (arith, e)
        | inr (inl (found, e)) ↦ ground (arith, e)
        | inr (inr e) ↦
            let kept : place world counts unit plan ≡ judge world unit policy plan =
              ground (arith, e) in
            ap fixed_part kept ∙ judge-fixed_part unit policy plan
      ]

  pub place_each-fixed_part :
      (units : List Known) (plan : Plan)
      → fixed_part (place_each world counts skipped units plan) ≡ fixed_part plan
  unfolding place_each
  place_each-fixed_part [] plan = refl
  place_each-fixed_part (unit ∷ units) plan =
      let rest = place_each-fixed_part units plan in
      let next = place_each world counts skipped units plan in
      elim (Bool-cases (member_id unit.0 skipped)) [
        | inl skip ↦ ground (arith, skip, rest)
        | inr free ↦ ground (arith, free, rest, place-fixed_part unit next)
      ]

-- Every unit of a list has its id in the list of the ids.
pub known-member :
    (units : List Known) → All (λ unit. member_id unit.0 (map (λ u. u.0) units) ≡ true) units
known-member [] = tt
known-member (unit ∷ units) = (
  ground (arith, ==_iff unit.0 unit.0),
  All-mono (λ u. member_id u.0 (map (λ q. q.0) units) ≡ true)
      (λ u. member_id u.0 (map (λ q. q.0) (unit ∷ units)) ≡ true) units (λ u h. ground (arith, h))
      (known-member units),
)
