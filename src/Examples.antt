-- ===== src/Examples.antt =====
-- Runs at concrete inputs: a team of three, with day 21 a Monday on which one of them is away.
pub mod Swaps
pub mod Schedules
pub mod Covers
pub mod Rotations
pub mod Home
pub mod Notices
pub mod Feeds
pub mod Limits
use madhatter.Base.{ℕ, ◌+◌, true, false, List, [], ◌∷◌, none, Text, codes}
use madhatter.Base.Int.{pos}
use madhatter.Calendar.{Day}
use madhatter.Store.{
  TeamMember, RecurringWfhDays, LeaveRecord, RotaAssignment, HatSwap, pending, Db,
}
use madhatter.Rota.Engine.{Engine}

abbrev pub at_office : RecurringWfhDays
at_office = record {
  monday = false;
  tuesday = false;
  wednesday = false;
  thursday = false;
  friday = false;
}

abbrev pub member : ℕ → Text → TeamMember
member id name = record {
  id = id;
  name = name;
  is_active = true;
  recurring = at_office;
  is_exempt_from_assignment = false;
}

abbrev pub team : List TeamMember
team = member 1 (codes "Ada") ∷ member 2 (codes "Bo") ∷ member 3 (codes "Cy") ∷ []

abbrev pub ada_away : LeaveRecord
ada_away = record {
  id = 70;
  member_id = 1;
  start_date = 21;
  end_date = 21;
  cover_member_id = 0;
  status = codes "pending";
  leave_type = codes "leave";
}

abbrev pub row : ℕ → Day → ℕ → RotaAssignment
row id date owner = record {
  id = id;
  date = date;
  member_id = owner;
  is_cover = false;
  is_swapped = false;
  original_assignment_id = none;
}

abbrev pub swap : HatSwap
swap = record {
  id = 50;
  requester_assignment_id = 10;
  target_assignment_id = 11;
  requester_member_id = 1;
  target_member_id = 2;
  status = pending;
}

abbrev pub office : Db
office = record {
  members = team;
  leaves = ada_away ∷ [];
  assignments = row 10 21 1 ∷ row 11 22 2 ∷ [];
  cover_rotation = none;
  r1_rotation = record { last_date = 21; last_index = pos 0 } ∷ [];
  r1_scan = λ n. 0;
  hat_swaps = swap ∷ [];
  uuid = λ n. 100 + n;
  drawn = 0;
}

abbrev pub engine : Engine
engine = record {
  db = office;
  holiday_checker = none;
  notifying = false;
  events = [];
  reassign_last_date = 0;
  reassign_last_index = pos 0;
}
