-- ===== src/Wfh.antt =====
-- Working from home (internal/wfh, internal/database/wfh*.go): the rows of `wfh_requests`,
-- `wfh_co_presence` and `wfh_assignment_swaps` beside the tables of `Store`, and the service that
-- settles requests, assigns days to hold the seat cap and records who met on site.
pub mod Period
pub mod Requests
pub mod Swaps
pub mod Quota
pub mod Presence
pub mod Settlement
pub mod Picker
pub mod CoPresence
pub mod Recurring
pub mod Actions
pub mod Tick
use madhatter.Base.{
  ℕ, suc, ◌/◌, ◌==◌, Bool, true, false, ◌&&◌, Option, none, some, List, ◌∷◌, [], ◌++◌, any, Text,
  if◌then◌else◌,
}
use madhatter.Calendar.{Day, HolidayChecker}
use madhatter.Store.{Db, SwapStatus}
use madhatter.Store.Exec.{Exec, ok}

-- `WFHStatus…`, the values that the CHECK of the column accepts.
pub data WfhStatus : Type 0 where
  pending approved denied cancelled withdrawn : WfhStatus

abbrev pub status_code : WfhStatus → ℕ
status_code pending = 0
status_code approved = 1
status_code denied = 2
status_code cancelled = 3
status_code withdrawn = 4

abbrev pub status_eq : WfhStatus → WfhStatus → Bool
status_eq a b = status_code a == status_code b

-- `no_origin` is the empty text, of a value that is not read from a row.
pub data Origin : Type 0 where
  ad_hoc recurring assigned swapped no_origin : Origin

abbrev pub is_assigned : Origin → Bool
is_assigned assigned = true
is_assigned _ = false

-- `Origin == "assigned" || Origin == "swap"`.
abbrev pub is_system_made : Origin → Bool
is_system_made assigned = true
is_system_made swapped = true
is_system_made _ = false

-- The text of `denialReason`, which its two numbers fix.
pub record DenialReason : Type 0 where
  pub min_onsite : ℕ
  pub slots_used : ℕ

-- Times are seconds since the zero `time.Time`.
pub record WfhRequest : Type 0 where
  pub id : ℕ
  pub member_id : ℕ
  pub date : Day
  pub status : WfhStatus
  pub created_at : ℕ
  pub settled_at : Option ℕ
  pub withdrawn_by : Option ℕ
  pub withdrawn_at : Option ℕ
  pub is_recurring : Bool
  pub is_admin_marked : Bool
  pub marked_by : Option ℕ
  pub marked_at : Option ℕ
  pub origin : Origin
  pub denial_reason : Option DenialReason

-- `member_id_a < member_id_b` by the CHECK of the table.
pub record WfhCoPresence : Type 0 where
  pub working_date : Day
  pub member_id_a : ℕ
  pub member_id_b : ℕ

pub record WfhAssignmentSwap : Type 0 where
  pub id : ℕ
  pub requester_wfh_request_id : ℕ
  pub target_member_id : ℕ
  pub swap_date : Day
  pub status : SwapStatus
  pub created_at : ℕ
  pub resolved_at : Option ℕ

-- The request that a notification names: a row, or the text "assigned-<date>-<member>".
pub data EventId : Type 0 where
  row_id : ℕ → EventId
  assigned_id : Day → ℕ → EventId

-- `none` is the empty status.
pub record WfhEvent : Type 0 where
  pub request_id : EventId
  pub member_id : ℕ
  pub member_name : Text
  pub date : Day
  pub old_status : Option WfhStatus
  pub new_status : WfhStatus
  pub actor_name : Text
  pub reason : Option DenialReason

-- The tables, the ids of the rows of `users`, and the calls of the notifier so far.
pub record Wfh : Type 0 where
  pub db : Db
  pub users : List ℕ
  pub requests : List WfhRequest
  pub co_presence : List WfhCoPresence
  pub swaps : List WfhAssignmentSwap
  pub events : List WfhEvent

-- `Config`. The numbers are those of a configuration in which none is negative, the percentage is
-- a whole one, and `none` is an anchor that is no date.
pub record Config : Type 0 where
  pub enabled : Bool
  pub min_onsite_percentage : ℕ
  pub min_onsite_absolute : ℕ
  pub max_days_per_period : ℕ
  pub period_days : ℕ
  pub period_anchor : Option Day
  pub settlement_days : ℕ
  pub request_horizon_days : ℕ
  pub purge_enabled : Bool
  pub seat_cap : ℕ
  pub assignment_enabled : Bool
  pub co_presence_enabled : Bool
  pub co_presence_horizon_days : ℕ
  pub co_presence_retention_days : ℕ

-- `Service`, with the clock at the time of the call, which one call reads as constant.
pub record Service : Type 0 where
  pub cfg : Config
  pub now : ℕ
  pub holiday_checker : HolidayChecker
  pub notifying : Bool

abbrev pub seconds_per_day : ℕ
seconds_per_day = 86_400

-- `todayUTC`.
abbrev pub today_utc : Service → Day
today_utc s = s.now / seconds_per_day

-- `uuid.New`.
abbrev pub draw : Exec Wfh ℕ
draw w = ok (w.db.uuid w.db.drawn) (record w { db = record w.db { drawn = suc w.db.drawn } })

-- The row of a member and a date, which is one by the UNIQUE constraint.
abbrev pub is_on : ℕ → Day → WfhRequest → Bool
is_on member_id date r = (r.member_id == member_id) && (r.date == date)

abbrev pub elem : ℕ → List ℕ → Bool
elem x xs = any (λ y. y == x) xs
