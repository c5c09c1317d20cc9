-- ===== src/Tests/SourceTests.antt =====
-- Sources attached to a unit, and what they do to its confidence.
use Prim.Native.Nat.{max, ◌+◌}
use membox.Base.{◌≤◌, ◌≡◌, refl, true, some}
use membox.Base.Text.{concat, is_empty}
use membox.Model.{SourceKind, UnitSource, UnitStatus, source_value}
use membox.Model.Enums.{same_source_kind}
use membox.Store.Units.{
  UnitRow, Store, ok, unit_at, attach_memory_unit_source, attach_source, insert_source, same_source,
  independent_source_keys, keys_of, insert_key, source_key, gained_keys, credit, strengthen,
  evolved_confidence,
}
use membox.Store.Units.Confidence.{
  evolved_confidence-evolves, attach_memory_unit_source-confidence, attach_memory_unit_source-twice,
}
use membox.Tests.UnitTests.{notes, source_of, unit_row}

evolved_confidence-evolves_run :
    (75 ≤ evolved_confidence 75 3)
    × (evolved_confidence 75 3 ≤ max 75 95)
    × (evolved_confidence (evolved_confidence 75 2) 3 ≡ evolved_confidence 75 (2 + 3))
evolved_confidence-evolves_run = evolved_confidence-evolves 75 2 3

abbrev document : UnitSource
document = source_of SourceKind.document "doc:7"

abbrev first_note : UnitRow
first_note = record (unit_row 1 UnitStatus.active_unit) { content_hash = "first" }

abbrev attached : Store
attached = attach_source 80 first_note document "c" "seen again" notes

attaches : attach_memory_unit_source 80 1 document "c" "seen again" notes ≡ ok (true, attached)
unfolding attach_memory_unit_source is_empty
attaches = refl

raised_confidence :
    unit_at 1 attached ≡ some (record first_note { confidence_score = 80; updated_at = some 80 })
unfolding attach_source insert_source same_source same_source_kind independent_source_keys keys_of
    insert_key source_key source_value concat gained_keys credit strengthen evolved_confidence
raised_confidence = refl

attach_memory_unit_source-confidence_example :
    (q : UnitRow) × (unit_at 1 attached ≡ some q)
    × (q.status ≡ UnitStatus.active_unit)
    × (75 ≤ q.confidence_score)
    × (q.confidence_score ≤ max 75 95)
attach_memory_unit_source-confidence_example =
    attach_memory_unit_source-confidence 80 document "c" "seen again" notes 1 1 true attached
      first_note attaches refl

attach_memory_unit_source-twice_run :
    attach_memory_unit_source 90 1 document "c" "seen again" attached ≡ ok (true, attached)
attach_memory_unit_source-twice_run =
    attach_memory_unit_source-twice 80 90 document "c" "seen again" notes 1 true attached attaches
