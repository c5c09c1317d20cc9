-- ===== src/Store/Leases.antt =====
-- core/store/leases.py: the JSON ownership records of the `meta` table. A stored value is held as
-- `parse_lease` reads it. Times are counted in microseconds.
use membox.Base.{ℕ, ◌+◌, String, Bool, false, ◌&&◌, Option, none, some, ltb, same_number, same_text}

-- What `datetime.fromisoformat` makes of the `heartbeat` member of a lease.
pub data Heartbeat : Type 0 where
  missing garbled : Heartbeat
  naive aware : ℕ → Heartbeat

-- A JSON object; a member that is absent, or of another type, is `none`.
pub record Lease : Type 0 where
  pub pid : Option ℕ
  pub hostname : Option String
  pub heartbeat : Heartbeat

-- A text of the `meta` table: a JSON object, or anything else.
pub data Value : Type 0 where
  object : Lease → Value
  other : String → Value

-- `os.getpid()`, `socket.gethostname()` and `utcnow()` of the calling process.
pub record Process : Type 0 where
  pub pid : ℕ
  pub hostname : String
  pub now : ℕ

abbrev pub second : ℕ
second = 1000000

unfoldable pub render_lease : Process → Value
render_lease p =
    object (record { pid = some p.pid; hostname = some p.hostname; heartbeat = aware p.now })

unfoldable pub parse_lease : Value → Option Lease
parse_lease (object lease) = some lease
parse_lease (other text) = none

-- The age of a heartbeat is below `ttl`, as an order without subtraction.
unfoldable pub is_younger : ℕ → ℕ → ℕ → Bool
is_younger now heartbeat ttl = ltb now (heartbeat + ttl)

-- A naive timestamp is read as UTC.
unfoldable pub heartbeat_is_live : Heartbeat → ℕ → ℕ → Bool
unfolding is_younger
heartbeat_is_live missing now ttl = false
heartbeat_is_live garbled now ttl = false
heartbeat_is_live (naive t) now ttl = is_younger now t ttl
heartbeat_is_live (aware t) now ttl = is_younger now t ttl

unfoldable pub lease_is_live : Process → Lease → ℕ → Bool
unfolding heartbeat_is_live
lease_is_live p lease ttl = heartbeat_is_live lease.heartbeat p.now ttl

unfoldable pub lease_is_mine : Process → Lease → Bool
lease_is_mine p lease = same_number lease.pid p.pid && same_text lease.hostname p.hostname
