-- ===== src/Tests/PlanTests.antt =====
-- A consolidation plan of three units, and its application.

use membox.Base.{
  ◌≤◌, count_where, ℕ, ◌≡◌, refl, String, true, false, none, some, List, [], ◌∷◌, All, length,
  is_some, map,
}
use membox.Base.Text.{
  concat, join, strip, lstrip, rstrip, casefold, is_space, is_empty, contains, text_length,
  replace_char, split, split_from, set_of, intersection, union, show, show_digits, digit,
}
use membox.Model.{UnitType, UnitStatus, SourceKind, UnitRecord}
use membox.Model.Enums.{same_type, same_status, same_source_kind}
use membox.Store.Units.{Store, ok, unit_at, transition_memory_units_atomically}
use membox.Store.Units.Batch.{Applied}
use membox.Consolidate.Claims.{
  Surroundings, unsupported_claim, claim_tokens, has_manual_source, looks_conflicting,
  looks_fts_pair, looks_like_replacement, claim_text, full_text, has_explicit_user_confirmation,
  should_be_crystal_candidate,
}
use membox.Consolidate.Validate.{
  validate_units, validate_from, known_units, unit_rejections, unit_flags, is_vague,
  has_strong_provenance, title_key, previous_title, title_issues, stale_refs, rationale_issues,
  is_agent_extracted, has_text, has_non_latin_content,
}
use membox.Consolidate.Plan.{
  draft_plan, place_each, place, judge, promote, crystal_policy, independent_count, eligible_units,
  Plan, ordered_transitions, build_consolidation_plan,
}
use membox.Consolidate.Detect.{
  conflict_ids, detect_conflicts, detect_fts_pairs, detect_supersessions, decay_action, is_settled,
  is_recalled, pairs_of, shares_topic, replaces, newest, supersede, supersessions_of,
}
use membox.Consolidate.Targets.{movable}
use membox.Consolidate.Once.{is_of, is_unit, build_consolidation_plan-once}
use membox.Consolidate.Apply.{consolidation_plan-applies}
use membox.Tests.UnitTests.{notes, record_of, source_of}

-- No file is missing, and no text is a date.
abbrev surroundings : Surroundings
surroundings = record {
  fold = λ c. String.◌∷◌ c String.[];
  is_missing_path = λ ref. false;
  from_iso = λ text. none;
  now = 1000;
}

abbrev first_unit : UnitRecord
first_unit =
    record (record_of UnitType.decision "Storage journal mode"
      "adopt journal mode delete for storage" (source_of SourceKind.manual "manual:1")) {
        id = some 1;
      }

abbrev second_unit : UnitRecord
second_unit =
    record (record_of UnitType.decision "Storage journal mode now"
      "updated: adopt journal mode WAL for storage" (source_of SourceKind.manual "manual:2")) {
        id = some 2;
      }

abbrev input : List UnitRecord
input = first_unit ∷ second_unit ∷ []

abbrev example_plan : Plan
example_plan = build_consolidation_plan surroundings input [] [] none 50

build_consolidation_plan-once_example :
    count_where (is_of 1) (ordered_transitions example_plan)
    ≤ count_where (is_unit 1) (known_units input)
build_consolidation_plan-once_example =
    build_consolidation_plan-once surroundings input [] [] none 50 1

present : All (λ i. is_some (unit_at i notes) ≡ true) (movable surroundings input [] [])
unfolding eligible_units validate_units validate_from known_units unit_rejections unit_flags
    is_vague has_strong_provenance title_key previous_title title_issues stale_refs
    unsupported_claim rationale_issues is_agent_extracted has_text has_manual_source claim_tokens
    has_non_latin_content join strip lstrip rstrip casefold is_space is_empty text_length
    replace_char split split_from set_of intersection same_source_kind same_type concat show
    show_digits digit
present = (refl, (refl, tt))

consolidation_plan-applies_example :
    (s' : Store) × (transition_memory_units_atomically 60 "memory consolidate"
        (ordered_transitions example_plan)
        notes
      ≡ (ok (length (ordered_transitions example_plan)), s'))
    × Applied 60 "memory consolidate" (ordered_transitions example_plan) notes s'
consolidation_plan-applies_example =
    consolidation_plan-applies surroundings input [] [] none 50 60 "memory consolidate" notes
      present

-- The newer unit, which says `updated`, supersedes the older one, and is promoted itself.
planned :
    map {B = ℕ × UnitStatus} (λ a. (a.unit_id, a.to_status)) (ordered_transitions example_plan)
    ≡ (1, UnitStatus.superseded) ∷ (2, UnitStatus.crystal) ∷ []
unfolding eligible_units validate_units validate_from known_units unit_rejections unit_flags
    is_vague has_strong_provenance title_key previous_title title_issues stale_refs
    unsupported_claim rationale_issues is_agent_extracted has_text has_manual_source claim_tokens
    has_non_latin_content join strip lstrip rstrip casefold is_space is_empty text_length
    replace_char split split_from set_of intersection same_source_kind same_type concat show
    show_digits digit build_consolidation_plan draft_plan ordered_transitions detect_conflicts
    detect_fts_pairs conflict_ids detect_supersessions place_each place judge promote crystal_policy
    decay_action is_settled is_recalled pairs_of shares_topic replaces newest supersede
    supersessions_of looks_conflicting looks_fts_pair looks_like_replacement claim_text full_text
    has_explicit_user_confirmation should_be_crystal_candidate union same_status contains
    independent_count
planned = refl
