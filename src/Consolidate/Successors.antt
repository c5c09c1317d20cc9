-- ===== src/Consolidate/Successors.antt =====
-- `detect_supersessions`: which unit supersedes which.

use mathlib.Core.Path.{subst}
use membox.Base.{
  ℕ, ◌<◌, ◌≡◌, ◌⊎◌, refl, sym, true, false, some, List, [], ◌∷◌, arith, Option-cases, inl, inr, All,
  All-mono, select,
}
use membox.Store.Units.{Transition}
use membox.Consolidate.Claims.{Surroundings}
use membox.Consolidate.Validate.{Known}
use membox.Consolidate.Detect.{
  member_id, is_settled, replaces, newest, supersede, supersessions_of, detect_supersessions,
}
use membox.Consolidate.Loop.{All-select, All-select_holds, All-both, Concerns}

-- A supersession: the unit is in `ids` and settled, and the newer one is so too, with a larger id.
pub record Supersedes (ids excluded : List ℕ) (t : Transition) : Type 0 where
  pub unit : member_id t.unit_id ids ≡ true
  pub free : member_id t.unit_id excluded ≡ false
  pub newer : ℕ
  pub by : t.superseded_by ≡ some newer
  pub older : t.unit_id < newer
  pub target : member_id newer ids ≡ true
  pub target_free : member_id newer excluded ≡ false

-- What holds of the id of every candidate holds of the newest.
newest-holds :
    (P : ℕ → Type 0) (units : List Known) (i : ℕ)
    → All (λ unit. P unit.0) units
    → newest units ≡ some i
    → P i
unfolding newest
newest-holds P [] i h e = cc
newest-holds P (unit ∷ units) i h e =
    let choice : (unit.0 ≡ i) ⊎ (newest units ≡ some i) = elim (Option-cases (newest units)) [
      | inl empty ↦ ground (arith, e, empty)
      | inr (j, found) ↦ ground (arith, e, found)
    ] in
    elim choice [ inl first ↦ subst P first h.0 | inr later ↦ newest-holds P units i h.1 later ]

module _ (world : Surroundings) (ids excluded : List ℕ) (active : List Known) where
  -- What the units that replace an older one have in common.
  abbrev Newer : ℕ → ℕ → Type 0
  Newer old i = (old < i) × Concerns ids excluded i

  -- The units that replace an older one have larger ids of the same list, and are settled.
  replacing :
      (older : Known)
      → All (λ unit. Concerns ids excluded unit.0) active
      → All (λ unit. Newer older.0 unit.0) (select (replaces world older) active)
  unfolding replaces
  replacing older within =
      All-mono (λ unit. (replaces world older unit ≡ true) × Concerns ids excluded unit.0)
        (λ unit. Newer older.0 unit.0) (select (replaces world older) active)
        (λ unit h. (ground (arith, h.0), h.1))
        (All-both (λ unit. replaces world older unit ≡ true) (λ unit. Concerns ids excluded unit.0)
          (select (replaces world older) active) (All-select_holds (replaces world older) active)
          (All-select (λ unit. Concerns ids excluded unit.0) (replaces world older) active within))

  supersessions_of-Supersedes :
      (units : List Known)
      → All (λ unit. Concerns ids excluded unit.0) active
      → All (λ unit. Concerns ids excluded unit.0) units
      → All (λ t. Supersedes ids excluded t) (supersessions_of world active units)
  unfolding supersessions_of supersede
  supersessions_of-Supersedes [] within h = tt
  supersessions_of-Supersedes (older ∷ units) within h =
      let rest = supersessions_of-Supersedes units within h.1 in
      let found = select (replaces world older) active in
      elim (Option-cases (newest found)) [
        | inl empty ↦
            let same : supersessions_of world active (older ∷ units)
                ≡ supersessions_of world active units =
              ground (arith, empty) in
            subst (λ list. All (λ t. Supersedes ids excluded t) list) (sym same) rest
        | inr (i, at) ↦
            let (larger, (target, target_free)) =
              newest-holds (λ j. Newer older.0 j) found i (replacing older within) at in
            let first : Supersedes ids excluded (supersede older i) = record {
              unit = h.0.0;
              free = h.0.1;
              newer = i;
              by = refl;
              older = larger;
              target = target;
              target_free = target_free;
            } in
            let same : supersessions_of world active (older ∷ units)
                ≡ supersede older i ∷ supersessions_of world active units =
              ground (arith, at) in
            subst (λ list. All (λ t. Supersedes ids excluded t) list) (sym same) (first, rest)
      ]

pub detect_supersessions-Supersedes :
    (world : Surroundings) (ids excluded : List ℕ) (units : List Known)
    → All (λ unit. member_id unit.0 ids ≡ true) units
    → All (λ t. Supersedes ids excluded t) (detect_supersessions world excluded units)
unfolding detect_supersessions is_settled
detect_supersessions-Supersedes world ids excluded units within =
    let active = select (is_settled excluded) units in
    let free =
      All-mono (λ unit. (is_settled excluded unit ≡ true) × (member_id unit.0 ids ≡ true))
        (λ unit. Concerns ids excluded unit.0) active (λ unit h. (h.1, ground (arith, h.0)))
        (All-both (λ unit. is_settled excluded unit ≡ true) (λ unit. member_id unit.0 ids ≡ true)
          active (All-select_holds (is_settled excluded) units)
          (All-select (λ unit. member_id unit.0 ids ≡ true) (is_settled excluded) units within)) in
    supersessions_of-Supersedes world ids excluded active active free free
