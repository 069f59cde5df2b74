-- ===== src/Wfh/Actions.antt =====
-- The calls of internal/wfh/service.go that a member or an administrator makes for one day.
pub mod Reassigned
use madhatter.Base.{
  ℕ, Bool, true, not, ◌&&◌, ◌==◌, ltb, if◌then◌else◌, Option, none, some, find, any, [], ◌∷◌, Text,
}
use madhatter.Calendar.{Day, is_holiday}
use madhatter.Store.{TeamMember}
use madhatter.Store.Members.{get_member_by_id}
use madhatter.Store.Exec.{
  Exec, Outcome, ok, err, ◌>>=◌, ◌>>◌, raise, pure, wfh_disabled, wfh_on_holiday,
  wfh_duplicate_request, wfh_quota_exhausted, wfh_date_passed, wfh_assigned, wfh_not_approved,
  wfh_not_found, wfh_member_not_found, wfh_invalid_date, not_eligible,
}
use madhatter.Wfh.{
  approved, withdrawn, status_eq, is_assigned, is_system_made, no_origin, WfhRequest, Wfh, Service,
  row_id, today_utc, draw,
}
use madhatter.Wfh.Requests.{
  get_wfh_request_by_id, get_wfh_request_by_member_and_date, get_wfh_requests_by_member,
  has_wfh_request_on_date,
}
use madhatter.Wfh.Requests.Create.{
  new_request, create_wfh_request, mark_admin_wfh, create_approved_assigned_wfh_request,
}
use madhatter.Wfh.Requests.Withdraw.{withdraw_own_wfh_request, withdraw_assigned_wfh_request}
use madhatter.Wfh.Quota.{check_quota}
use madhatter.Wfh.Presence.{eligible_swap_targets, fire_wfh_state_changed}
use madhatter.Wfh.Settlement.{settle_date}

unfoldable pub report_today_validate : Service → Exec Wfh Day
report_today_validate s w =
    if is_holiday s.holiday_checker (today_utc s) then err wfh_on_holiday w else ok (today_utc s) w

-- The row after the settlement; without one, the row before it.
unfoldable pub report_today_re_read : WfhRequest → Exec Wfh WfhRequest
unfolding get_wfh_request_by_id
report_today_re_read req w = elim (get_wfh_request_by_id req.id w) [
  | ok settled w' ↦ ok settled w'
  | err e w' ↦ ok req w'
]

unfoldable pub report_today : Service → ℕ → Exec Wfh WfhRequest
unfolding report_today_validate has_wfh_request_on_date check_quota create_wfh_request settle_date
    report_today_re_read
report_today s member_id w =
    if not s.cfg.enabled
    then err wfh_disabled w
    else (do
      today ← report_today_validate s
      λ w₁.
          if has_wfh_request_on_date member_id today w₁
          then err wfh_duplicate_request w₁
          else (do
            has_quota ← check_quota s member_id today
            (if has_quota then pure tt else raise wfh_quota_exhausted)
            req ← create_wfh_request s member_id today
            settle_date s today (req ∷ [])
            report_today_re_read req)
              w₁)
        w

-- The row of the loop, after the loop has found it.
unfoldable pub withdraw_row : Service → ℕ → WfhRequest → Exec Wfh WfhRequest
unfolding withdraw_own_wfh_request get_wfh_request_by_id
withdraw_row s member_id r =
    if is_system_made r.origin
    then raise wfh_assigned
    else (do withdraw_own_wfh_request s r.id member_id; get_wfh_request_by_id r.id)

unfoldable pub withdraw_approved_row_on_date : Service → ℕ → Day → Exec Wfh WfhRequest
unfolding get_wfh_requests_by_member withdraw_row
withdraw_approved_row_on_date s member_id date w =
    elim (find (λ (r : WfhRequest). (r.date == date) && status_eq r.status approved)
      (get_wfh_requests_by_member member_id w)) [
        | none ↦ err wfh_not_found w
        | some r ↦ withdraw_row s member_id r w
      ]

unfoldable pub signal_on_site_today : Service → ℕ → Exec Wfh WfhRequest
unfolding withdraw_approved_row_on_date
signal_on_site_today s member_id = withdraw_approved_row_on_date s member_id (today_utc s)

unfoldable pub signal_on_site_on_date : Service → ℕ → Day → Exec Wfh WfhRequest
unfolding withdraw_approved_row_on_date
signal_on_site_on_date s member_id date =
    if ltb date (today_utc s)
    then raise wfh_date_passed
    else withdraw_approved_row_on_date s member_id date

unfoldable pub admin_reassign_target_ok : Day → ℕ → ℕ → Wfh → Bool
unfolding eligible_swap_targets
admin_reassign_target_ok date requester_id replacement w =
    any (λ (m : TeamMember). m.id == replacement) (eligible_swap_targets date requester_id w)

-- The event of the row that the replacement has now.
unfoldable pub notify_replacement : Service → ℕ → Day → Text → Outcome Wfh WfhRequest → Wfh
unfolding fire_wfh_state_changed
notify_replacement s replacement date actor_name (ok r w) =
    fire_wfh_state_changed s (row_id r.id) replacement date none approved actor_name none w
notify_replacement s replacement date actor_name (err _ w) = w

unfoldable pub admin_reassign_notify : Service → ℕ → WfhRequest → ℕ → Text → Wfh → Wfh
unfolding fire_wfh_state_changed get_wfh_request_by_member_and_date notify_replacement
admin_reassign_notify s original_id original replacement actor_name w =
    let w' =
      fire_wfh_state_changed s (row_id original_id) original.member_id original.date (some approved)
        withdrawn actor_name none w in
    if s.notifying
    then notify_replacement s replacement original.date actor_name
        (get_wfh_request_by_member_and_date replacement original.date w')
    else w

-- 0 is the empty id.
unfoldable pub admin_reassign_result_id : ℕ → Day → Exec Wfh ℕ
unfolding get_wfh_request_by_member_and_date
admin_reassign_result_id replacement date w =
    elim (get_wfh_request_by_member_and_date replacement date w) [
      | ok r w' ↦ ok r.id w'
      | err _ w' ↦ ok 0 w'
    ]

-- After the guards: the original row is withdrawn before the new one is tried.
unfoldable pub reassign_row : Service → WfhRequest → ℕ → ℕ → ℕ → Text → Exec Wfh ℕ
unfolding withdraw_assigned_wfh_request create_approved_assigned_wfh_request admin_reassign_notify
    admin_reassign_result_id
reassign_row s original original_id replacement actor_user_id actor_name = do
  withdraw_assigned_wfh_request s original_id actor_user_id
  create_approved_assigned_wfh_request s replacement original.date s.now
  λ w.
      admin_reassign_result_id replacement original.date
        (admin_reassign_notify s original_id original replacement actor_name w)

unfoldable pub admin_reassign_wfh : Service → ℕ → ℕ → ℕ → Text → Exec Wfh ℕ
unfolding get_wfh_request_by_id admin_reassign_target_ok reassign_row
admin_reassign_wfh s original_id replacement actor_user_id actor_name w =
    if not s.cfg.enabled
    then err wfh_disabled w
    else (do
      original ← get_wfh_request_by_id original_id
      λ w₁.
          if not (is_assigned original.origin)
          then err wfh_assigned w₁
          else if not (status_eq original.status approved)
          then err wfh_not_approved w₁
          else if not (admin_reassign_target_ok original.date original.member_id replacement w₁)
          then err not_eligible w₁
          else reassign_row s original original_id replacement actor_user_id actor_name w₁)
        w

-- `none` is the empty text, which stands for today.
unfoldable pub mark_wfh_validate_date : Service → Option Day → Exec Wfh Day
mark_wfh_validate_date s none w = ok (today_utc s) w
mark_wfh_validate_date s (some date) w =
    if date == today_utc s then ok date w else err wfh_invalid_date w

unfoldable pub mark_wfh_validate_member : ℕ → Exec Wfh Unit
mark_wfh_validate_member member_id w = elim (get_member_by_id member_id w.db) [
  | none ↦ err wfh_member_not_found w
  | some _ ↦ ok tt w
]

-- The value returned, which is not read back; its creation time is the zero time.
unfoldable pub mark_wfh_build_request : Service → ℕ → ℕ → Day → ℕ → WfhRequest
mark_wfh_build_request s id member_id date actor_user_id =
    record (new_request s id member_id date) {
      status = approved;
      created_at = 0;
      is_admin_marked = true;
      marked_by = if actor_user_id == 0 then none else some actor_user_id;
      marked_at = some s.now;
      origin = no_origin;
    }

unfoldable pub mark_wfh_notify : Service → WfhRequest → Text → Wfh → Wfh
unfolding fire_wfh_state_changed
mark_wfh_notify s req actor_name =
    fire_wfh_state_changed s (row_id req.id) req.member_id req.date none approved actor_name none

unfoldable pub mark_wfh : Service → ℕ → Option Day → ℕ → Text → Exec Wfh WfhRequest
unfolding mark_wfh_validate_date mark_wfh_validate_member mark_admin_wfh mark_wfh_build_request
    mark_wfh_notify
mark_wfh s member_id date actor_user_id actor_name w =
    if not s.cfg.enabled
    then err wfh_disabled w
    else (do
      day ← mark_wfh_validate_date s date
      (if is_holiday s.holiday_checker day then raise wfh_on_holiday else pure tt)
      mark_wfh_validate_member member_id
      id ← draw
      mark_admin_wfh s id member_id day actor_user_id
      λ w'.
          let req : WfhRequest = mark_wfh_build_request s id member_id day actor_user_id in
          ok req (mark_wfh_notify s req actor_name w'))
        w
