-- ===== src/Store.antt =====
-- The database of the program (internal/database, its sqlc queries and migrations): the tables as
-- lists of rows in the order of insertion, which is the order in which SQLite scans them.
-- An id is a text that is only compared; it is a number here, and 0 is the empty text.
pub mod Exec
pub mod Members
pub mod Leaves
pub mod Assignments
pub mod Rotation
use madhatter.Base.{ℕ, Bool, Option, List, Text, ◌==◌, any}
use madhatter.Base.Int.{ℤ}
use madhatter.Calendar.{Day}

-- `RecurringWFHDays`.
pub record RecurringWfhDays : Type 0 where
  pub monday : Bool
  pub tuesday : Bool
  pub wednesday : Bool
  pub thursday : Bool
  pub friday : Bool

pub record TeamMember : Type 0 where
  pub id : ℕ
  pub name : Text
  pub is_active : Bool
  pub recurring : RecurringWfhDays
  pub is_exempt_from_assignment : Bool

pub record LeaveRecord : Type 0 where
  pub id : ℕ
  pub member_id : ℕ
  pub start_date : Day
  pub end_date : Day
  pub cover_member_id : ℕ
  pub status : Text
  pub leave_type : Text

pub record RotaAssignment : Type 0 where
  pub id : ℕ
  pub date : Day
  pub member_id : ℕ
  pub is_cover : Bool
  pub is_swapped : Bool
  pub original_assignment_id : Option ℕ

-- The row of `cover_rotation_state`: the ad-hoc columns are NOT NULL.
pub record CoverRotation : Type 0 where
  pub last_date : Day
  pub last_index : ℤ
  pub reassign : Option (Day × ℤ)

-- A row of `r1_rotation_state`.
pub record R1Rotation : Type 0 where
  pub last_date : Day
  pub last_index : ℤ

pub data SwapStatus : Type 0 where
  pending accepted rejected cancelled : SwapStatus

pub record HatSwap : Type 0 where
  pub id : ℕ
  pub requester_assignment_id : ℕ
  pub target_assignment_id : ℕ
  pub requester_member_id : ℕ
  pub target_member_id : ℕ
  pub status : SwapStatus

-- `r1_scan n` is where the row that SQLite reads first stands among `n` rows of `r1_rotation`: a query
-- without an order leaves that open. `uuid n` is the id that the n-th call of `uuid.New` returns; `drawn` calls were made.
pub record Db : Type 0 where
  pub members : List TeamMember
  pub leaves : List LeaveRecord
  pub assignments : List RotaAssignment
  pub cover_rotation : Option CoverRotation
  pub r1_rotation : List R1Rotation
  pub r1_scan : ℕ → ℕ
  pub hat_swaps : List HatSwap
  pub uuid : ℕ → ℕ
  pub drawn : ℕ

-- A row of `team_members` with this id is there: `GetMemberByID` succeeds, a JOIN finds it, and a
-- foreign key holds.
abbrev pub has_member : ℕ → List TeamMember → Bool
has_member id ms = any (λ (m : TeamMember). m.id == id) ms
