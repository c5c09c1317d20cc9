-- ===== src/Consolidate/Detect.antt =====
-- The pairs of units for review, the units that newer ones supersede, and decay.
use membox.Base.{
  ℕ, String, Bool, not, ◌&&◌, ◌||◌, Option, none, some, List, [], ◌∷◌, ◌++◌, ltb, leb, ◌==◌,
  if◌then◌else◌, any_of, select, length, map, str_eq,
}
use membox.Base.Text.{concat, show, intersection, union, sorted, replace_char}
use membox.Model.{UnitType, UnitStatus}
use membox.Model.Enums.{same_type, same_status}
use membox.Consolidate.Claims.{
  Surroundings, source_refs, looks_conflicting, looks_fts_pair, looks_like_replacement,
}
use membox.Store.Units.{Transition}
use membox.Consolidate.Validate.{Known, Issue, issue}

pub record Conflict : Type 0 where
  pub left_id : ℕ
  pub right_id : ℕ
  pub left_title : String
  pub right_title : String
  pub reason : String
  pub source_refs : List String

abbrev pub proposal : Known → UnitStatus → String → Transition
proposal unit to reason = record {
  unit_id = unit.0;
  title = unit.1.title;
  to_status = to;
  reason = reason;
  superseded_by = none;
}

-- `unit_id in ids`
abbrev pub member_id : ℕ → List ℕ → Bool
member_id i ids = any_of (λ j. j == i) ids

unfoldable pub is_recalled : Known → Bool
is_recalled unit =
    same_status unit.1.status UnitStatus.active_unit
    || same_status unit.1.status UnitStatus.crystal_candidate
    || same_status unit.1.status UnitStatus.crystal

unfoldable pub shares_topic : Known → Known → Bool
shares_topic left right =
    str_eq left.1.project right.1.project
    && ltb 0 (length (intersection left.1.labels right.1.labels))

abbrev conflict : String → Known → Known → Conflict
conflict reason left right = record {
  left_id = left.0;
  right_id = right.0;
  left_title = left.1.title;
  right_title = right.1.title;
  reason = reason;
  source_refs = sorted (union (source_refs left.1) (source_refs right.1));
}

-- Every unit with each later one that the test accepts.
unfoldable pub pairs_of : (Known → Known → Bool) → String → List Known → List Conflict
pairs_of test reason [] = []
pairs_of test reason (left ∷ units) =
    map (conflict reason left) (select (λ right. shares_topic left right && test left right) units)
    ++ pairs_of test reason units

unfoldable pub detect_conflicts : Surroundings → List Known → List Conflict
unfolding pairs_of is_recalled
detect_conflicts world units =
    pairs_of (λ left right. looks_conflicting world.fold left.1 right.1)
      "overlapping labels and topic with contrast signals" (select is_recalled units)

unfoldable pub detect_fts_pairs : Surroundings → List (ℕ × ℕ) → List Known → List Conflict
unfolding pairs_of is_recalled
detect_fts_pairs world [] units = []
detect_fts_pairs world (pair ∷ pairs) units =
    pairs_of
      (λ left right.
        any_of (λ ids. ids.0 == left.0 && ids.1 == right.0) (pair ∷ pairs)
        && looks_fts_pair world.fold left.1 right.1)
      "fts_pair token-overlap candidate" (select is_recalled units)

-- `{c.left_id for c in conflicts} | {c.right_id for c in conflicts}`
unfoldable pub conflict_ids : List Conflict → List ℕ
conflict_ids conflicts = map (λ c. c.left_id) conflicts ++ map (λ c. c.right_id) conflicts

unfoldable pub is_settled : List ℕ → Known → Bool
is_settled excluded unit =
    not (member_id unit.0 excluded)
    && (same_status unit.1.status UnitStatus.active_unit
        || same_status unit.1.status UnitStatus.crystal)

unfoldable pub replaces : Surroundings → Known → Known → Bool
unfolding shares_topic
replaces world older newer =
    ltb older.0 newer.0
    && shares_topic newer older
    && looks_like_replacement world.fold older.1 newer.1

-- `max(newer_candidates, key=id)`
unfoldable pub newest : List Known → Option ℕ
newest [] = none
newest (unit ∷ units) = elim (newest units) [
  | none ↦ some unit.0
  | some i ↦ some (if leb i unit.0 then unit.0 else i)
]

unfoldable pub supersede : Known → ℕ → Transition
supersede older newer = record {
  unit_id = older.0;
  title = older.1.title;
  to_status = UnitStatus.superseded;
  reason = concat ("newer unit " ∷ show newer ∷ " supersedes this memory" ∷ []);
  superseded_by = some newer;
}

unfoldable pub supersessions_of : Surroundings → List Known → List Known → List Transition
unfolding replaces newest supersede
supersessions_of world active [] = []
supersessions_of world active (older ∷ units) =
    let rest = supersessions_of world active units in
    elim (newest (select (replaces world older) active)) [
      | none ↦ rest
      | some newer ↦ supersede older newer ∷ rest
    ]

unfoldable pub detect_supersessions : Surroundings → List ℕ → List Known → List Transition
unfolding is_settled supersessions_of
detect_supersessions world excluded units =
    let active = select (is_settled excluded) units in supersessions_of world active active

-- `value.replace("Z", "+00:00")`, then the moment that the text names.
unfoldable pub parse_datetime : Surroundings → String → Option ℕ
parse_datetime world value = world.from_iso (replace_char 90 "+00:00" value)

pub data Decay : Type 0 where
  archive : Transition → Decay
  review : Issue → Decay
  keep : Decay

unfoldable pub expired : Known → String → Decay
expired unit valid_to =
    if same_type unit.1.unit_type UnitType.plan || same_type unit.1.unit_type UnitType.context
    then review (issue unit "review horizon passed")
    else archive (proposal unit UnitStatus.archived (concat ("valid_to passed: " ∷ valid_to ∷ [])))

unfoldable pub decay_action : Surroundings → Known → Decay
unfolding parse_datetime expired
decay_action world unit = elim unit.1.valid_to [
  | none ↦ keep
  | some value ↦ elim (parse_datetime world value) [
    | none ↦ keep
    | some valid_to ↦ if leb world.now valid_to then keep else expired unit value
  ]
]
