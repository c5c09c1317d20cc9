-- ===== src/Store/Units/Tables.antt =====
-- The tables, as migration 0008 and the later ones leave them, and the results of the operations.
use membox.Base.{ℕ, String, ◌≡◌, ◌⊎◌, refl, inl, inr, Bool, Option, List, ◌==◌, first_where}
use membox.Model.{UnitType, UnitStatus, TemporalType, SourceKind}
use mathlib.Core.Option

pub record UnitRow : Type 0 where
  pub id : ℕ
  pub project : String
  pub unit_type : UnitType
  pub status : UnitStatus
  pub title : String
  pub content : String
  pub content_hash : String
  pub context : String
  pub importance_score : ℕ
  pub confidence_score : ℕ
  pub temporal_type : TemporalType
  pub valid_from : Option String
  pub valid_to : Option String
  pub superseded_by : Option ℕ
  pub why : Option String
  pub how_to_apply : Option String
  pub next_step : Option String
  pub updated_at : Option ℕ
  pub recall_count : ℕ
  pub last_recalled_at : Option ℕ

pub record SourceRow : Type 0 where
  pub unit_id : ℕ
  pub source_kind : SourceKind
  pub source_ref : String
  pub source_message_id : String
  pub quote : String

pub record LogRow : Type 0 where
  pub unit_id : ℕ
  pub from_status : Option UnitStatus
  pub to_status : UnitStatus
  pub command : String
  pub reason : String
  pub source_ref : String

-- The columns `id` and `session_id` of `history_messages` or `history_events`.
pub record Session : Type 0 where
  pub trace_id : String
  pub session_id : String

-- The log is in the order of its ids.
pub record Store : Type 0 where
  pub memory_units : List UnitRow
  pub next_id : ℕ
  pub labels : List (ℕ × String)
  pub sources : List SourceRow
  pub status_log : List LogRow
  pub message_sessions : List Session
  pub event_sessions : List Session

-- The messages of the exceptions: `ValueError`, SQLite's foreign-key failure, `RuntimeError`.
pub data Error : Type 0 where
  no_source unknown_labels no_source_ref : Error
  no_such_unit no_such_target supersedes_itself transition_failed : ℕ → Error
  foreign_key no_row : Error

pub data Result {ℓ} (A : Type ℓ) : Type ℓ where
  ok : A → Result A
  err : Error → Result A

infixl 5 ◌>>=◌
abbrev pub ◌>>=◌ {ℓ κ} : {A : Type ℓ} {B : Type κ} → Result A → (A → Result B) → Result B
ok a >>= f = f a
err e >>= f = err e

-- Unicode case folding, and `hashlib.sha256(…).hexdigest()` of the UTF-8 encoding of a text.
pub record Hashing : Type 0 where
  pub fold : Prim.Native.Char.Char → String
  pub sha256_hex : String → String

abbrev pub has_unit_id : ℕ → UnitRow → Bool
has_unit_id i r = r.id == i

-- `SELECT … FROM memory_units WHERE id=?`
abbrev pub unit_at : ℕ → Store → Option UnitRow
unit_at i s = first_where (has_unit_id i) s.memory_units

abbrev pub status_at : ℕ → Store → Option UnitStatus
status_at i s = Option.map (λ r. r.status) (unit_at i s)

abbrev pub log_entry : ℕ → Option UnitStatus → UnitStatus → String → String → String → LogRow
log_entry unit_id from to command reason source_ref = record {
  unit_id = unit_id;
  from_status = from;
  to_status = to;
  command = command;
  reason = reason;
  source_ref = source_ref;
}

pub Result-cases {ℓ} :
    {A : Type ℓ} (r : Result A) → ((a : A) × (r ≡ ok a)) ⊎ ((e : Error) × (r ≡ err e))
Result-cases (ok a) = inl (a, refl)
Result-cases (err e) = inr (e, refl)
