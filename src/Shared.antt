-- ===== src/Shared.antt =====
-- internal/shared: the identity facts of a caller, and time.Time as far as the domain reads it.
pub mod Uuid
pub mod PolicyVersion
pub mod Utf8
pub mod Sorting
mod Tests
use iwut_app_center.Prelude.{ℤ, pos, eqb_ℤ, Bool, true, false, not, Bytes, is_empty}

-- The instant in nanoseconds since year 1 (UTC), and whether the location is time.UTC.
pub record Time : Type 0 where
  pub instant : ℤ
  pub in_utc : Bool

abbrev pub is_zero : Time → Bool
is_zero t = eqb_ℤ t.instant (pos 0)

-- `t.UTC()`: the same instant in the location UTC.
abbrev pub utc : Time → Time
utc t = record t { in_utc = true }

-- `t.Equal(u)`: the same instant.
abbrev pub time_equal : Time → Time → Bool
time_equal t u = eqb_ℤ t.instant u.instant

-- AuthID is a string; it is valid unless it is empty.
abbrev pub AuthId : Type 0
AuthId = Bytes

unfoldable pub auth_id_is_valid : AuthId → Bool
auth_id_is_valid id = not (is_empty id)

pub data DeveloperStatus : Type 0 where
  pending approved rejected suspended withdrawn : DeveloperStatus
  -- any other text
  unknown : Bytes → DeveloperStatus

abbrev pub is_approved : DeveloperStatus → Bool
is_approved approved = true
is_approved _ = false

pub record DeveloperIdentity : Type 0 where
  pub auth_id : AuthId
  pub developer_status : DeveloperStatus
