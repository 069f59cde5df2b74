-- ===== src/Rota/Schedule.antt =====
-- Original assignments: `GenerateSchedule` and `processDate` of internal/rota/engine.go.
pub mod Original
pub mod Complete
pub mod Dates
use madhatter.Base.{
  ℕ, zero, suc, ◌-◌, true, false, not, ◌==◌, if◌then◌else◌, List, [], ◌∷◌, Option, none, some,
  length, get_elem?, is_empty,
}
use madhatter.Calendar.{Day, HolidayChecker, should_skip_date}
use madhatter.Store.{TeamMember, LeaveRecord, Db}
use madhatter.Store.Exec.{
  Exec, ok, err, bind, ◌>>=◌, ◌>>◌, gets, pure, raise, index_out_of_range, no_active_members,
}
use madhatter.Store.Members.{get_active_team_members}
use madhatter.Store.Leaves.{get_leave_by_date}
use madhatter.Store.Assignments.{create_rota_assignment}
use madhatter.Rota.Rotation.{compute_cover_rotation_index, r1_rotation_index}
use madhatter.Rota.Cover.{original_is_on_leave, find_cover}
use madhatter.Rota.Engine.{Engine, on_db, advance_r1_rotation_state, record_actual_cover_slot}

-- With no cover available the original member stays.
unfoldable pub determine_covering_member :
    TeamMember → List LeaveRecord → List TeamMember → Day → Exec Engine TeamMember
determine_covering_member original_member leaves members current_date =
    if not (original_is_on_leave original_member leaves) then pure original_member else do
      candidate ←
          gets
            λ e. compute_cover_rotation_index e.holiday_checker e.db current_date (length members)
      elim (find_cover members leaves candidate) [
        | none ↦ pure original_member
        | some cover ↦ do record_actual_cover_slot current_date members cover.id; pure cover
      ]

unfoldable pub create_assignment : Day → ℕ → TeamMember → TeamMember → Exec Engine Unit
create_assignment current_date r1_index original_member covering_member =
    if not (covering_member.id == original_member.id)
    then (do
      original_assignment_id ←
          on_db (create_rota_assignment current_date original_member.id false none)
      advance_r1_rotation_state current_date r1_index
      on_db (
          create_rota_assignment current_date covering_member.id true (some original_assignment_id))
      pure tt)
    else (do
      on_db (create_rota_assignment current_date covering_member.id false none)
      advance_r1_rotation_state current_date r1_index)

-- `members[index]`.
unfoldable pub member_at : List TeamMember → ℕ → Exec Engine TeamMember
member_at members index = elim (get_elem? members index) [
  | none ↦ raise index_out_of_range
  | some m ↦ pure m
]

unfoldable pub assign_date : Day → List TeamMember → Exec Engine Unit
unfolding determine_covering_member create_assignment member_at
assign_date current_date members = do
  leaves ← gets λ e. get_leave_by_date current_date e.db
  r1_index ← gets λ e. r1_rotation_index e.holiday_checker e.db current_date (length members)
  original_member ← member_at members r1_index
  covering_member ← determine_covering_member original_member leaves members current_date
  create_assignment current_date r1_index original_member covering_member

-- Weekends and holidays are skipped.
unfoldable pub process_date : Day → List TeamMember → Exec Engine Unit
unfolding assign_date
process_date current_date members e =
    if should_skip_date e.holiday_checker current_date
    then ok tt e
    else assign_date current_date members e

-- The loop over the `n` dates from `current_date` on.
unfoldable pub process_dates : List TeamMember → Day → ℕ → Exec Engine Unit
process_dates members current_date zero e = ok tt e
process_dates members current_date (suc n) e =
    bind (process_date current_date members e)
      (λ _ e'. process_dates members (suc current_date) n e')

unfoldable pub generate_schedule : Day → Day → Exec Engine Unit
generate_schedule start_date end_date e =
    let members = get_active_team_members e.db in
    if is_empty members
    then err no_active_members e
    else process_dates members start_date (suc end_date - start_date) e
