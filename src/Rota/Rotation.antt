-- ===== src/Rota/Rotation.antt =====
-- The rotation indices of internal/rota/engine.go: where the round robin stands on a date. The only
-- errors of the three functions are failures of the driver, so they are total here.
pub mod Laws
pub mod Stored
use madhatter.Base.{ℕ, zero, suc, ◌-◌, Bool, ◌==◌, ltb, if◌then◌else◌, Option, none, some}
use madhatter.Base.Int.{ℤ, pos, negsuc, ◌+ℤ◌, ◌-ℤ◌, ◌%ℤ◌}
use madhatter.Calendar.{Day, HolidayChecker, working_days_between, zero_day}
use madhatter.Store.{Db}
use madhatter.Store.Rotation.{get_cover_rotation_state, get_r1_rotation_state}

-- Go's remainder has the sign of `x`; a negative one is moved up by `m`.
unfoldable pub mod_non_negative : ℤ → ℕ → ℕ
mod_non_negative x m = elim (x %ℤ m) [ pos r ↦ r | negsuc k ↦ m - suc k ]

-- The `switch` that the three functions share.
unfoldable pub index_from : HolidayChecker → Day → ℤ → Day → ℕ → ℕ
unfolding mod_non_negative
index_from checker last_date last_index current_date team_size =
    if current_date == last_date
    then mod_non_negative last_index team_size
    else if ltb last_date current_date
    then mod_non_negative (last_index +ℤ pos (working_days_between checker last_date current_date))
        team_size
    else mod_non_negative (last_index -ℤ pos (working_days_between checker current_date last_date))
        team_size

abbrev pub rotation_index : HolidayChecker → Option (Day × ℤ) → Day → ℕ → ℕ
rotation_index checker none current_date team_size = 0
rotation_index checker (some (last_date, last_index)) current_date team_size =
    if team_size == 0 then 0 else index_from checker last_date last_index current_date team_size

unfoldable pub compute_cover_rotation_index : HolidayChecker → Db → Day → ℕ → ℕ
compute_cover_rotation_index checker db = rotation_index checker (get_cover_rotation_state db)

unfoldable pub r1_rotation_index : HolidayChecker → Db → Day → ℕ → ℕ
r1_rotation_index checker db = rotation_index checker (get_r1_rotation_state db)

-- The state in memory, whose date is zero before the first day of a run.
unfoldable pub compute_reassign_rotation_index : HolidayChecker → Day → ℤ → Day → ℕ → ℕ
compute_reassign_rotation_index checker last_date last_index current_date team_size =
    if team_size == 0
    then 0
    else if last_date == zero_day
    then 0
    else index_from checker last_date last_index current_date team_size
