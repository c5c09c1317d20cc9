-- ===== src/Consolidate/Claims.antt =====
-- What the policy reads of a unit's text: its claim tokens and the signals of two units.
use membox.Base.{
  ℕ, ◌*◌, String, Bool, not, ◌&&◌, ◌||◌, Option, List, [], ◌∷◌, ltb, leb, any_of, select, length,
  map,
}
use membox.Base.Text.{
  strip, casefold, Folding, contains, concat, join, text_length, replace_char, split, set_of,
  intersection, union,
}
use membox.Model.{UnitType, UnitRecord, SourceKind, source_value}
use membox.Model.Enums.{same_type, same_source_kind}

-- `casefold`, the test of a reference for an absolute path of no file, `datetime.fromisoformat` in
-- UTC, and the time of the run.
pub record Surroundings : Type 0 where
  pub fold : Folding
  pub is_missing_path : String → Bool
  pub from_iso : String → Option ℕ
  pub now : ℕ

-- `any(term in text for term in terms)`
abbrev pub mentions : List String → String → Bool
mentions terms text = any_of (λ term. contains term text) terms

abbrev pub correction_terms : List String
correction_terms = "correction" ∷ "corrected" ∷ "updated" ∷ "stale" ∷ "instead" ∷ "更正" ∷ []

abbrev pub contrast_terms : List String
contrast_terms = "instead of" ∷ "rather than" ∷ "conflict" ∷ "conflicting" ∷ "而不是" ∷ "冲突" ∷ []

abbrev pub strong_correction_terms : List String
strong_correction_terms = "correction" ∷ "corrected" ∷ "stale" ∷ "supersede" ∷ "更正" ∷ "作废" ∷ []

unfoldable pub claim_tokens : Folding → String → List String
claim_tokens fold text =
    set_of (
      select (λ token. leb 4 (text_length token))
        (split (replace_char 95 " " (casefold fold text))))

unfoldable pub claim_text : Folding → UnitRecord → String
claim_text fold unit = casefold fold (concat (unit.title ∷ "\n" ∷ unit.content ∷ []))

unfoldable pub full_text : Folding → UnitRecord → String
full_text fold unit =
    casefold fold (concat (unit.title ∷ "\n" ∷ unit.content ∷ "\n" ∷ unit.context ∷ []))

unfoldable pub has_manual_source : UnitRecord → Bool
has_manual_source unit =
    any_of (λ source. same_source_kind source.source_kind SourceKind.manual) unit.sources

unfoldable pub has_explicit_user_confirmation : Folding → UnitRecord → Bool
unfolding has_manual_source full_text
has_explicit_user_confirmation fold unit =
    has_manual_source unit
    || mentions ("user-confirmed" ∷ "owner confirmed" ∷ "explicitly confirmed" ∷ [])
        (full_text fold unit)

unfoldable pub should_be_crystal_candidate : Folding → UnitRecord → Bool
unfolding full_text
should_be_crystal_candidate fold unit =
    (same_type unit.unit_type UnitType.procedure || same_type unit.unit_type UnitType.learning)
    && (mentions ("failure" ∷ "failed" ∷ "error" ∷ "verify" ∷ []) (full_text fold unit)
        || ltb 1 (length unit.sources))

-- `len(overlap) / len(union) >= 0.35`, multiplied out by 20.
unfoldable pub looks_fts_pair : Folding → UnitRecord → UnitRecord → Bool
unfolding claim_text claim_tokens
looks_fts_pair fold left right =
    let left_text = claim_text fold left in
    let right_text = claim_text fold right in
    let left_tokens = claim_tokens fold left_text in
    let right_tokens = claim_tokens fold right_text in
    let overlap = length (intersection left_tokens right_tokens) in
    same_type left.unit_type right.unit_type
    && not (mentions strong_correction_terms (concat (left_text ∷ "\n" ∷ right_text ∷ [])))
    && leb 4 (length left_tokens)
    && leb 4 (length right_tokens)
    && leb 4 overlap
    && leb (7 * length (union left_tokens right_tokens)) (20 * overlap)

unfoldable pub looks_conflicting : Folding → UnitRecord → UnitRecord → Bool
unfolding looks_fts_pair claim_text claim_tokens
looks_conflicting fold left right =
    let left_text = claim_text fold left in
    let right_text = claim_text fold right in
    let combined = concat (left_text ∷ "\n" ∷ right_text ∷ []) in
    not (looks_fts_pair fold left right)
    && not (mentions strong_correction_terms combined)
    && leb 3 (length (intersection (claim_tokens fold left_text) (claim_tokens fold right_text)))
    && mentions contrast_terms combined

unfoldable pub looks_like_replacement : Folding → UnitRecord → UnitRecord → Bool
unfolding claim_text claim_tokens
looks_like_replacement fold older newer =
    let older_text = claim_text fold older in
    let newer_text = claim_text fold newer in
    (same_type older.unit_type newer.unit_type
      || (same_type older.unit_type UnitType.plan && same_type newer.unit_type UnitType.decision))
    && leb 2 (length (intersection (claim_tokens fold older_text) (claim_tokens fold newer_text)))
    && (mentions correction_terms newer_text
        || (contains "old" newer_text
            && (contains "now" newer_text || contains "updated" newer_text))
        || (contains "maybe" older_text && same_type newer.unit_type UnitType.decision))

-- The references of a unit's sources, each with its kind.
unfoldable pub source_refs : UnitRecord → List String
source_refs unit = set_of (
    map (λ source. concat (source_value source.source_kind ∷ ":" ∷ source.source_ref ∷ []))
      unit.sources)

unfoldable pub unsupported_claim : Folding → UnitRecord → Bool
unfolding has_manual_source claim_tokens
unsupported_claim fold unit =
    let content_tokens = claim_tokens fold unit.content in
    let source_quote = strip (join " " (map (λ source. source.quote) unit.sources)) in
    let source_tokens = claim_tokens fold source_quote in
    not (has_manual_source unit)
    && ltb 0 (length content_tokens)
    && leb 20 (text_length source_quote)
    && ltb 0 (length source_tokens)
    && ltb (length (intersection content_tokens source_tokens)) 2
