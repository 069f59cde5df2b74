-- ===== src/Wfh/Requests/Withdraw.antt =====
-- The calls that end a request: cancel and withdraw.
use madhatter.Base.{ℕ, not, ◌&&◌, ◌==◌, ltb, if◌then◌else◌, Option, none, some, any}
use madhatter.Store.Exec.{
  Exec, ok, err, ◌>>=◌, wfh_not_owner, wfh_already_settled, wfh_not_approved, wfh_assigned,
  wfh_date_passed, foreign_key_violation,
}
use madhatter.Wfh.{
  pending, approved, cancelled, withdrawn, status_eq, is_system_made, WfhRequest, Wfh, Service,
  today_utc,
}
use madhatter.Wfh.Requests.{get_wfh_request_by_id, set_request, update_wfh_request_status, is_user}

unfoldable pub cancel_wfh_request : Service → ℕ → ℕ → Exec Wfh Unit
unfolding get_wfh_request_by_id update_wfh_request_status
cancel_wfh_request s id member_id = do
  req ← get_wfh_request_by_id id
  λ w.
      if not (req.member_id == member_id)
      then err wfh_not_owner w
      else if not (status_eq req.status pending)
      then err wfh_already_settled w
      else ok tt (update_wfh_request_status s id cancelled w)

abbrev pub with_withdrawal : Service → Option ℕ → WfhRequest → WfhRequest
with_withdrawal s by r = record r {
  status = withdrawn;
  withdrawn_by = by;
  withdrawn_at = some s.now;
}

-- `UpdateWFHRequestWithdrawn`, with the foreign key of `withdrawn_by`.
unfoldable pub update_wfh_request_withdrawn : Service → ℕ → Option ℕ → Exec Wfh Unit
unfolding set_request
update_wfh_request_withdrawn s id by w =
    if any (λ (r : WfhRequest). r.id == id) w.requests && not (is_user by w)
    then err foreign_key_violation w
    else ok tt (set_request id (with_withdrawal s by) w)

-- 0 is the empty text, of a member or a user that is not given.
unfoldable pub withdraw_wfh : Service → ℕ → ℕ → ℕ → Exec Wfh Unit
unfolding get_wfh_request_by_id update_wfh_request_withdrawn
withdraw_wfh s id member_id actor_user_id = do
  req ← get_wfh_request_by_id id
  λ w.
      if not (status_eq req.status approved)
      then err wfh_not_approved w
      else if is_system_made req.origin
      then err wfh_assigned w
      else if not (member_id == 0) && not (req.member_id == member_id)
      then err wfh_not_owner w
      else if ltb req.date (today_utc s)
      then err wfh_date_passed w
      else update_wfh_request_withdrawn s id
          (if actor_user_id == 0 then none else some actor_user_id) w

unfoldable pub withdraw_wfh_request : Service → ℕ → ℕ → Exec Wfh Unit
unfolding withdraw_wfh
withdraw_wfh_request s id admin_user_id = withdraw_wfh s id 0 admin_user_id

unfoldable pub withdraw_own_wfh_request : Service → ℕ → ℕ → Exec Wfh Unit
unfolding withdraw_wfh
withdraw_own_wfh_request s id member_id = withdraw_wfh s id member_id 0

unfoldable pub withdraw_assigned_wfh_request : Service → ℕ → ℕ → Exec Wfh Unit
unfolding get_wfh_request_by_id update_wfh_request_withdrawn
withdraw_assigned_wfh_request s id actor_user_id = do
  req ← get_wfh_request_by_id id
  λ w.
      if not (status_eq req.status approved)
      then err wfh_not_approved w
      else if ltb req.date (today_utc s)
      then err wfh_date_passed w
      else update_wfh_request_withdrawn s id (some actor_user_id) w
