-- ===== src/Examples/Covers.antt =====
-- Runs of the covers of internal/rota/engine.go and reassign.go.
use madhatter.Base.{ℕ, ◌≡◌, refl, false, none, text_leb, text_eq}
use madhatter.Store.Assignments.{get_assignments_by_date}
use madhatter.Store.Leaves.{update_leave_status}
use madhatter.Store.Rotation.{upsert_cover_rotation_state}
use madhatter.Rota.Rotation.{compute_cover_rotation_index}
use madhatter.Rota.Cover.{find_cover_from, find_member_index}
use madhatter.Rota.Engine.{
  compute_rotation_index, record_actual_cover_slot_for, commit_for, commit_cover_rotation_state,
}
use madhatter.Rota.LeaveCovers.{
  ensure_original_assignment, create_cover_assignment, process_leave_date,
}
use madhatter.Rota.LeaveCovers.Chosen.{CoverOf, process_leave_date-IsFreeMember}
use madhatter.Base.Int.{◌+ℤ◌, ◌-ℤ◌, ◌%ℤ◌}
use madhatter.Calendar.{should_skip_date, working_days_between, count_working}
use madhatter.Store.Exec.{ok, after}
use madhatter.Rota.Engine.{Engine, ad_hoc, on_db, lift_outcome}
use madhatter.Store.Rotation.{get_cover_rotation_state}
use madhatter.Store.Assignments.{create_rota_assignment}
use madhatter.Store.Assignments.Create.{Created, create-Created}
use madhatter.Rota.Rotation.{index_from, mod_non_negative}
use madhatter.Rota.Cover.{find_cover, original_is_on_leave}
use madhatter.Store.Leaves.{get_leave_by_date, is_leave_on}
use madhatter.Rota.LeaveCovers.{assign_covers_for_leave}
use madhatter.Rota.LeaveCovers.Untouched.{fixed_rows, covering_keeps_fixed}
use madhatter.Rota.Reassign.{reassign_covers}
use madhatter.Rota.Reassign.Run.{reassign_covers_keeps_ad_hoc}
use madhatter.Examples.{team, ada_away, office, engine}

covering_keeps_fixed_example :
    fixed_rows (after (assign_covers_for_leave 70 ad_hoc engine)).db ≡ fixed_rows engine.db
covering_keeps_fixed_example = covering_keeps_fixed ad_hoc 70 engine

reassign_covers_keeps_ad_hoc_example :
    get_cover_rotation_state (reassign_covers engine).1.db ≡ get_cover_rotation_state engine.db
reassign_covers_keeps_ad_hoc_example = reassign_covers_keeps_ad_hoc engine

create-Created_example :
    Created 24 1 false none office (create_rota_assignment 24 1 false none office)
create-Created_example = create-Created 24 1 false none office

-- Bo covers on a day on which Ada is away.
abbrev bo : ℕ
bo = 2

abbrev covered : Engine
covered = after (process_leave_date 21 team ada_away 70 ad_hoc engine)

covers : process_leave_date 21 team ada_away 70 ad_hoc engine ≡ ok 2 covered
unfolding process_leave_date text_leb text_eq ◌+ℤ◌ ◌-ℤ◌ ◌%ℤ◌ should_skip_date get_leave_by_date
    is_leave_on index_from mod_non_negative working_days_between count_working on_db lift_outcome
    create_rota_assignment original_is_on_leave ensure_original_assignment get_assignments_by_date
    find_cover find_cover_from compute_rotation_index compute_cover_rotation_index
    get_cover_rotation_state create_cover_assignment update_leave_status
    record_actual_cover_slot_for find_member_index commit_for commit_cover_rotation_state
    upsert_cover_rotation_state
covers = refl

process_leave_date-IsFreeMember_example : CoverOf 21 team engine bo covered
process_leave_date-IsFreeMember_example =
    process_leave_date-IsFreeMember 21 team ada_away 70 ad_hoc engine 2 covered covers
