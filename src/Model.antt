-- ===== src/Model.antt =====
-- model/schema.py: the enums and records of the memory lifecycle. Scores are in hundredths.
pub mod Enums
use membox.Base.{ℕ, String, Bool, true, false, Option, List, [], ◌∷◌, any_of, str_eq}

pub data UnitType : Type 0 where
  preference decision procedure fact learning plan event context : UnitType

pub data UnitStatus : Type 0 where
  unit_candidate active_unit crystal_candidate crystal superseded archived retracted : UnitStatus

pub data TemporalType : Type 0 where
  point range ongoing unknown : TemporalType

pub data UserIntent : Type 0 where
  manual auto : UserIntent

pub data SourceKind : Type 0 where
  history_message history_event document relation unit manual : SourceKind

-- The text of an enum member, which the tables store and the code compares.
unfoldable pub type_value : UnitType → String
type_value UnitType.preference = "preference"
type_value UnitType.decision = "decision"
type_value UnitType.procedure = "procedure"
type_value UnitType.fact = "fact"
type_value UnitType.learning = "learning"
type_value UnitType.plan = "plan"
type_value UnitType.event = "event"
type_value UnitType.context = "context"

unfoldable pub source_value : SourceKind → String
source_value SourceKind.history_message = "history_message"
source_value SourceKind.history_event = "history_event"
source_value SourceKind.document = "document"
source_value SourceKind.relation = "relation"
source_value SourceKind.unit = "unit"
source_value SourceKind.manual = "manual"

abbrev pub memory_labels : List String
memory_labels =
    "architecture" ∷ "storage" ∷ "retrieval" ∷ "cli" ∷ "testing" ∷ "tooling" ∷ "workflow"
    ∷ "conventions" ∷ "dependencies" ∷ "performance" ∷ "security" ∷ []

-- `label in MEMORY_LABELS`
unfoldable pub is_memory_label : String → Bool
is_memory_label label = any_of (λ known. str_eq label known) memory_labels

pub record UnitSource : Type 0 where
  pub source_kind : SourceKind
  pub source_ref : String
  pub source_message_id : String
  pub quote : String

pub record UnitRecord : Type 0 where
  pub id : Option ℕ
  pub project : String
  pub unit_type : UnitType
  pub status : UnitStatus
  pub title : String
  pub content : String
  pub context : String
  pub importance_score : ℕ
  pub confidence_score : ℕ
  pub temporal_type : TemporalType
  pub valid_from : Option String
  pub valid_to : Option String
  pub superseded_by : Option ℕ
  pub labels : List String
  pub sources : List UnitSource
  pub updated_at : Option ℕ
  pub recall_count : ℕ
  pub last_recalled_at : Option ℕ
  pub why : Option String
  pub how_to_apply : Option String
  pub next_step : Option String
