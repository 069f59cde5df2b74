-- ===== src/Examples/Schedules.antt =====
-- Runs of the schedule of internal/rota/engine.go and maintenance.go.
use madhatter.Base.{◌≡◌, refl, arith, true, text_leb, text_eq}
use madhatter.Store.Assignments.{delete_assignments_in_range}
use madhatter.Store.Rotation.{upsert_cover_rotation_state}
use madhatter.Rota.Rotation.{compute_cover_rotation_index}
use madhatter.Rota.Cover.{find_cover_from, find_member_index}
use madhatter.Rota.Engine.{record_actual_cover_slot, commit_cover_rotation_state}
use madhatter.Rota.Maintenance.{regenerate_schedule}
use madhatter.Base.Int.{◌+ℤ◌, ◌-ℤ◌, ◌%ℤ◌}
use madhatter.Calendar.{should_skip_date, working_days_between, count_working}
use madhatter.Store.Exec.{ok, after}
use madhatter.Rota.Engine.{on_db, lift_outcome, advance_r1_rotation_state}
use madhatter.Store.Rotation.{
  get_cover_rotation_state, get_r1_rotation_state, upsert_r1_rotation_state,
}
use madhatter.Store.Assignments.{create_rota_assignment, get_assignments_by_date_range}
use madhatter.Rota.Rotation.{index_from, mod_non_negative, r1_rotation_index}
use madhatter.Rota.Cover.{find_cover, original_is_on_leave}
use madhatter.Store.Members.{get_active_team_members}
use madhatter.Store.Leaves.{get_leave_by_date, is_leave_on}
use madhatter.Rota.Schedule.{
  generate_schedule, create_assignment, process_dates, process_date, assign_date,
  determine_covering_member,
}
use madhatter.Rota.Schedule.Complete.{HasOriginal}
use madhatter.Rota.Schedule.Dates.{generate_schedule-HasOriginal}
use madhatter.Rota.Maintenance.{
  generate_missing_days, generate_missing, should_skip, dates_with_assignments,
}
use madhatter.Rota.Maintenance.Ranges.{HasDate, generate_missing_days-HasDate}
use madhatter.Base.Sort.{sort_by, insert_by}
use madhatter.Examples.{engine}

scheduled : generate_schedule 23 25 engine ≡ ok tt (after (generate_schedule 23 25 engine))
unfolding generate_schedule text_leb text_eq ◌+ℤ◌ ◌-ℤ◌ ◌%ℤ◌ process_dates process_date
    should_skip_date assign_date get_active_team_members sort_by insert_by get_leave_by_date
    is_leave_on r1_rotation_index get_r1_rotation_state index_from mod_non_negative
    working_days_between count_working determine_covering_member create_assignment on_db
    lift_outcome create_rota_assignment advance_r1_rotation_state upsert_r1_rotation_state
    original_is_on_leave
scheduled = refl

generate_schedule-HasOriginal_example : HasOriginal 24 (after (generate_schedule 23 25 engine))
unfolding should_skip_date
generate_schedule-HasOriginal_example =
    generate_schedule-HasOriginal 23 25 engine (after (generate_schedule 23 25 engine)) scheduled 24
      (omega arith) (omega arith) refl

completed :
    generate_missing_days 21 25 engine ≡ ok true (after (generate_missing_days 21 25 engine))
unfolding generate_missing_days text_leb text_eq ◌+ℤ◌ ◌-ℤ◌ ◌%ℤ◌ generate_missing should_skip
    dates_with_assignments get_assignments_by_date_range process_date should_skip_date assign_date
    get_active_team_members sort_by insert_by get_leave_by_date is_leave_on r1_rotation_index
    get_r1_rotation_state index_from mod_non_negative working_days_between count_working
    determine_covering_member create_assignment on_db lift_outcome create_rota_assignment
    advance_r1_rotation_state upsert_r1_rotation_state original_is_on_leave
completed = refl

generate_missing_days-HasDate_example : HasDate 25 (after (generate_missing_days 21 25 engine))
unfolding should_skip_date
generate_missing_days-HasDate_example =
    generate_missing_days-HasDate 21 25 engine true (after (generate_missing_days 21 25 engine))
      completed 25 (omega arith) (omega arith) refl

regenerated : regenerate_schedule 21 25 engine ≡ ok 6 (after (regenerate_schedule 21 25 engine))
unfolding regenerate_schedule text_leb text_eq ◌+ℤ◌ ◌-ℤ◌ ◌%ℤ◌ should_skip_date get_leave_by_date
    is_leave_on index_from mod_non_negative working_days_between count_working on_db lift_outcome
    create_rota_assignment original_is_on_leave get_active_team_members sort_by insert_by
    process_dates process_date assign_date r1_rotation_index get_r1_rotation_state
    determine_covering_member create_assignment advance_r1_rotation_state upsert_r1_rotation_state
    delete_assignments_in_range get_assignments_by_date_range find_cover find_cover_from
    compute_cover_rotation_index get_cover_rotation_state record_actual_cover_slot find_member_index
    upsert_cover_rotation_state commit_cover_rotation_state
regenerated = refl
