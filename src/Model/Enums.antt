-- ===== src/Model/Enums.antt =====
-- Equality of the enums, which Python compares by identity and the tables by text.
use membox.Base.{ℕ, ◌≡◌, ◌↔◌, Bool, true, arith, ◌==◌}
use membox.Model.{UnitType, UnitStatus, SourceKind}

abbrev type_code : UnitType → ℕ
type_code UnitType.preference = 0
type_code UnitType.decision = 1
type_code UnitType.procedure = 2
type_code UnitType.fact = 3
type_code UnitType.learning = 4
type_code UnitType.plan = 5
type_code UnitType.event = 6
type_code UnitType.context = 7

abbrev status_code : UnitStatus → ℕ
status_code UnitStatus.unit_candidate = 0
status_code UnitStatus.active_unit = 1
status_code UnitStatus.crystal_candidate = 2
status_code UnitStatus.crystal = 3
status_code UnitStatus.superseded = 4
status_code UnitStatus.archived = 5
status_code UnitStatus.retracted = 6

abbrev source_code : SourceKind → ℕ
source_code SourceKind.history_message = 0
source_code SourceKind.history_event = 1
source_code SourceKind.document = 2
source_code SourceKind.relation = 3
source_code SourceKind.unit = 4
source_code SourceKind.manual = 5

unfoldable pub same_type : UnitType → UnitType → Bool
same_type a b = type_code a == type_code b

unfoldable pub same_status : UnitStatus → UnitStatus → Bool
same_status a b = status_code a == status_code b

unfoldable pub same_source_kind : SourceKind → SourceKind → Bool
same_source_kind a b = source_code a == source_code b

pub same_type_iff : (a b : UnitType) → (same_type a b ≡ true) ↔ (a ≡ b)
unfolding same_type
same_type_iff a b = ground arith

pub same_status_iff : (a b : UnitStatus) → (same_status a b ≡ true) ↔ (a ≡ b)
unfolding same_status
same_status_iff a b = ground arith

pub same_source_kind_iff : (a b : SourceKind) → (same_source_kind a b ≡ true) ↔ (a ≡ b)
unfolding same_source_kind
same_source_kind_iff a b = ground arith
