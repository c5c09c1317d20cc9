-- ===== src/Consolidate/Validate.antt =====
-- `validate_units` and its rules.
use Prim.Native.Char.{code}
use mathlib.Core.Option
use membox.Base.{
  ℕ, String, Bool, false, not, ◌&&◌, ◌||◌, Option, none, some, List, [], ◌∷◌, ◌++◌, ltb, leb,
  if◌then◌else◌, any_of, all_of, select, first_where, is_some, length, map, str_eq,
}
use membox.Base.Text.{strip, casefold, Folding, is_empty, concat, text_length, set_of, member, show}
use membox.Model.{UnitType, UnitSource, UnitRecord, SourceKind}
use membox.Model.Enums.{same_type, same_source_kind}
use membox.Consolidate.Claims.{Surroundings, claim_tokens, unsupported_claim}

-- A unit with the id that it has in the store.
abbrev pub Known : Type 0
Known = ℕ × UnitRecord

pub record Issue : Type 0 where
  pub unit_id : ℕ
  pub title : String
  pub reason : String

abbrev pub issue : Known → String → Issue
issue unit reason = record { unit_id = unit.0; title = unit.1.title; reason = reason }

abbrev issue_if : Bool → Known → String → List Issue
issue_if test unit reason = if test then issue unit reason ∷ [] else []

unfoldable pub has_text : Option String → Bool
has_text none = false
has_text (some value) = not (is_empty (strip value))

unfoldable pub has_non_latin_content : String → Bool
has_non_latin_content String.[] = false
has_non_latin_content (String.◌∷◌ c s) = ltb 767 (code c) || has_non_latin_content s

unfoldable pub has_strong_provenance : UnitRecord → Bool
has_strong_provenance unit =
    any_of (λ source. not (is_empty (strip source.quote))) unit.sources
    || leb 2 (
        length (
          set_of
            (select (λ ref. not (is_empty ref)) (map (λ source. source.source_ref) unit.sources))))

unfoldable pub is_agent_extracted : UnitRecord → Bool
is_agent_extracted unit = not (
    all_of
      (λ source.
        same_source_kind source.source_kind SourceKind.history_message
        || same_source_kind source.source_kind SourceKind.history_event)
      unit.sources)

unfoldable pub rationale_issues : Known → List Issue
unfolding has_text
rationale_issues unit =
    let kind = unit.1.unit_type in
    issue_if
      ((same_type kind UnitType.decision
          || same_type kind UnitType.learning
          || same_type kind UnitType.procedure)
        && not (has_text unit.1.why))
      unit "decision missing rationale (why)"
    ++ (issue_if
          ((same_type kind UnitType.procedure || same_type kind UnitType.plan)
            && not (has_text unit.1.next_step))
          unit "procedure/plan missing next_step"
        ++ issue_if (same_type kind UnitType.procedure && not (has_text unit.1.how_to_apply)) unit
            "procedure missing how_to_apply")

unfoldable pub is_vague : Folding → UnitRecord → Bool
unfolding claim_tokens has_non_latin_content
is_vague fold unit =
    let meaningful = length (claim_tokens fold unit.content) in
    let title_tokens = length (claim_tokens fold unit.title) in
    ltb 0 meaningful
    && ltb (text_length (strip unit.content)) 80
    && not (has_non_latin_content unit.content)
    && (ltb meaningful 3
        || (ltb 0 title_tokens && ltb meaningful title_tokens && ltb meaningful 12))

-- The references that no earlier source of the unit was rejected for.
unfoldable pub stale_refs : Surroundings → List String → List UnitSource → List String
stale_refs world seen [] = []
stale_refs world seen (source ∷ sources) =
    let ref = source.source_ref in
    let skip = stale_refs world seen sources in
    let rest = stale_refs world (ref ∷ seen) sources in
    if is_empty ref || member ref seen
    then skip
    else if world.is_missing_path ref
    then ref ∷ rest
    else skip

-- The units seen so far, by project and folded title.
abbrev pub Titles : Type 0
Titles = List ((String × String) × ℕ)

unfoldable pub title_key : Surroundings → UnitRecord → String × String
title_key world unit = (unit.project, casefold world.fold (strip unit.title))

unfoldable pub previous_title : String × String → Titles → Option ℕ
previous_title key seen =
    Option.map (λ row. row.1)
      (first_where (λ row. str_eq row.0.0 key.0 && str_eq row.0.1 key.1) seen)

unfoldable pub title_issues : Known → Option ℕ → List Issue
title_issues unit none = []
title_issues unit (some previous) =
    issue unit (concat ("duplicate title also used by " ∷ show previous ∷ [])) ∷ []

-- The rejections of one unit, in the order of the rules.
unfoldable pub unit_rejections : Surroundings → Titles → Known → List Issue
unfolding is_vague has_strong_provenance title_key previous_title title_issues stale_refs
    unsupported_claim rationale_issues is_agent_extracted
unit_rejections world seen unit =
    let sources = unit.1.sources in
    let has_source = ltb 0 (length sources) in
    let content_len = text_length (strip unit.1.content) in
    let in_bounds = leb 3 content_len && leb content_len 4000 in
    issue_if (not has_source) unit "no source"
    ++ (issue_if (not in_bounds) unit "content length out of bounds"
        ++ (issue_if (in_bounds && is_vague world.fold unit.1) unit
              "vague content (insufficient signal)"
            ++ (issue_if (in_bounds && ltb 1500 content_len) unit (
                  concat
                    ("content exceeds crystal budget (" ∷ show content_len ∷ " > 1500 chars)" ∷ []))
                ++ (issue_if (has_source && not (has_strong_provenance unit.1)) unit
                      "insufficient provenance for crystal (needs a quote or ≥2 sources)"
                    ++ (title_issues unit (previous_title (title_key world unit.1) seen)
                        ++ (map (λ ref. issue unit (concat ("stale source path: " ∷ ref ∷ [])))
                              (stale_refs world [] sources)
                            ++ (issue_if (has_source && unsupported_claim world.fold unit.1) unit
                                  "unsupported claim heuristic"
                                ++ (if is_agent_extracted unit.1
                                    then rationale_issues unit
                                    else []))))))))

unfoldable pub unit_flags : Known → List Issue
unfolding rationale_issues is_agent_extracted
unit_flags unit = if is_agent_extracted unit.1 then [] else rationale_issues unit

-- The rejections and the flags of the units, after those that are seen.
unfoldable pub validate_from : Surroundings → Titles → List Known → List Issue × List Issue
unfolding unit_rejections unit_flags title_key previous_title
validate_from world seen [] = ([], [])
validate_from world seen (unit ∷ units) =
    let key = title_key world unit.1 in
    let seen' = if is_some (previous_title key seen) then seen else (key, unit.0) ∷ seen in
    let rest = validate_from world seen' units in
    (unit_rejections world seen unit ++ rest.0, unit_flags unit ++ rest.1)

-- The units that have an id.
unfoldable pub known_units : List UnitRecord → List Known
known_units [] = []
known_units (unit ∷ units) =
    let rest = known_units units in elim unit.id [ none ↦ rest | some i ↦ (i, unit) ∷ rest ]

unfoldable pub validate_units : Surroundings → List UnitRecord → List Issue × List Issue
unfolding validate_from known_units
validate_units world units = validate_from world [] (known_units units)
