-- ===== src/Rota/Maintenance.antt =====
-- internal/rota/maintenance.go: keeping the schedule complete, and covers in step with the leaves.
-- The date of today is an argument; an error that is wrapped is the error.
pub mod Ranges
pub mod Regenerate
use madhatter.Base.{
  ℕ, zero, suc, ◌+◌, ◌-◌, Bool, true, false, not, ◌&&◌, ◌||◌, ◌==◌, ltb, if◌then◌else◌, List, [],
  ◌∷◌, Option, none, some, length, find, any, is_empty, map,
}
use madhatter.Calendar.{Day, is_weekend, should_skip_date}
use madhatter.Store.{TeamMember, LeaveRecord, RotaAssignment, Db}
use madhatter.Store.Exec.{Exec, ok, err, bind, no_active_members}
use madhatter.Store.Members.{get_active_team_members}
use madhatter.Store.Leaves.{get_leave_by_date, get_leave_by_id, delete_leave_record}
use madhatter.Store.Assignments.{
  get_assignments_by_date, get_assignments_by_date_range, delete_rota_assignment,
  delete_assignments_in_range, get_latest_assignment_date,
}
use madhatter.Rota.Engine.{Engine, on_db, ad_hoc}
use madhatter.Rota.Schedule.{process_date, process_dates}
use madhatter.Rota.LeaveCovers.{assign_covers_for_leave}

abbrev pub schedule_days_ahead : ℕ
schedule_days_ahead = 14

-- `leaveIndex[date][member]`, for a date of the range.
unfoldable pub on_leave_in_index : Day → Day → Db → Day → ℕ → Bool
on_leave_in_index start_date end_date db date member_id =
    (not (ltb date start_date) && not (ltb end_date date))
    && any (λ (l : LeaveRecord). l.member_id == member_id) (get_leave_by_date date db)

-- `none` is the empty text.
unfoldable pub find_original_member_id : List RotaAssignment → Option ℕ → Option ℕ
find_original_member_id assignments none = none
find_original_member_id assignments (some id) =
    elim (find (λ (a : RotaAssignment). a.id == id) assignments) [
      | none ↦ none
      | some a ↦ some a.member_id
    ]

-- A cover whose original is in the range, of a member who is not on leave on that date.
unfoldable pub is_stale_cover : Day → Day → Db → List RotaAssignment → RotaAssignment → Bool
unfolding find_original_member_id on_leave_in_index
is_stale_cover start_date end_date db assignments a =
    if not a.is_cover
    then false
    else elim (find_original_member_id assignments a.original_assignment_id) [
      | none ↦ false
      | some member_id ↦ not (on_leave_in_index start_date end_date db a.date member_id)
    ]

-- The loop over the assignments that were read; `stale` is the test on those, and on the leaves read.
unfoldable pub remove_stale : (RotaAssignment → Bool) → List RotaAssignment → Exec Engine Unit
remove_stale stale [] e = ok tt e
remove_stale stale (a ∷ rest) e =
    if stale a
    then bind (on_db (delete_rota_assignment a.id) e) (λ _ e'. remove_stale stale rest e')
    else remove_stale stale rest e

unfoldable pub reconcile_covers_for_date_range : Day → Day → Exec Engine Unit
unfolding remove_stale is_stale_cover
reconcile_covers_for_date_range start_date end_date e =
    let assignments = get_assignments_by_date_range start_date end_date e.db in
    remove_stale (is_stale_cover start_date end_date e.db assignments) assignments e

-- `datesWithAssignments[date]`.
unfoldable pub dates_with_assignments : Day → Day → Db → Day → Bool
dates_with_assignments start_date end_date db date =
    any (λ (a : RotaAssignment). a.date == date)
      (get_assignments_by_date_range start_date end_date db)

unfoldable pub should_skip : (Day → Bool) → Engine → Day → Bool
should_skip taken e date = if taken date then true else should_skip_date e.holiday_checker date

-- The loop over the `n` dates from `current_date` on.
unfoldable pub generate_missing : (Day → Bool) → List TeamMember → Day → ℕ → Bool → Exec Engine Bool
unfolding should_skip
generate_missing taken members current_date zero created_any e = ok created_any e
generate_missing taken members current_date (suc n) created_any e =
    let go_on = λ (created : Bool). generate_missing taken members (suc current_date) n created in
    if should_skip taken e current_date
    then go_on created_any e
    else bind (process_date current_date members e) (λ _ e'. go_on true e')

unfoldable pub generate_missing_days : Day → Day → Exec Engine Bool
unfolding generate_missing
generate_missing_days start_date end_date e =
    let members = get_active_team_members e.db in
    if is_empty members
    then err no_active_members e
    else generate_missing (dates_with_assignments start_date end_date e.db) members start_date
        (suc end_date - start_date) false e

unfoldable pub ensure_schedule : Day → Exec Engine Bool
unfolding reconcile_covers_for_date_range generate_missing_days
ensure_schedule today e =
    bind (reconcile_covers_for_date_range today (today + schedule_days_ahead) e)
      λ _ e'. generate_missing_days today (today + schedule_days_ahead) e'

unfoldable pub has_business_gap : Db → Day → ℕ → Bool
has_business_gap db current_date zero = false
has_business_gap db current_date (suc n) =
    let rest = has_business_gap db (suc current_date) n in
    if is_weekend current_date
    then rest
    else if is_empty (get_assignments_by_date current_date db)
    then true
    else rest

-- `none` is the pair of empty texts.
unfoldable pub get_schedule_gap : Day → Db → Option (Day × Day)
unfolding has_business_gap
get_schedule_gap today db =
    let start_date : Day = elim (get_latest_assignment_date db) [ none ↦ today | some d ↦ suc d ] in
    let end_date : Day = today + schedule_days_ahead in
    if ltb end_date start_date
    then none
    else if not (has_business_gap db start_date (suc end_date - start_date))
    then none
    else some (start_date, end_date)

unfoldable pub handle_team_change : Day → Exec Engine Unit
unfolding ensure_schedule
handle_team_change today e = bind (ensure_schedule today e) (λ _ e'. ok tt e')

unfoldable pub regenerate_schedule : Day → Day → Exec Engine ℕ
regenerate_schedule start end e =
    let members = get_active_team_members e.db in
    if is_empty members
    then err no_active_members e
    else bind (on_db (delete_assignments_in_range start end) e) λ _ e1.
      bind (process_dates members start (suc end - start) e1)
        λ _ e2. ok (length (get_assignments_by_date_range start end e2.db)) e2

unfoldable pub handle_leave_change : ℕ → Exec Engine Unit
unfolding reconcile_covers_for_date_range
handle_leave_change leave_id e = bind (on_db (get_leave_by_id leave_id) e) λ leave e1.
    bind (reconcile_covers_for_date_range leave.start_date leave.end_date e1)
      λ _ e2. assign_covers_for_leave leave_id ad_hoc e2

unfoldable pub handle_leave_delete : ℕ → Exec Engine Unit
unfolding reconcile_covers_for_date_range generate_missing_days
handle_leave_delete leave_id e = bind (on_db (get_leave_by_id leave_id) e) λ leave e1.
    bind (on_db (delete_leave_record leave_id) e1) λ _ e2.
      bind (reconcile_covers_for_date_range leave.start_date leave.end_date e2)
        λ _ e3. bind (generate_missing_days leave.start_date leave.end_date e3) (λ _ e4. ok tt e4)
