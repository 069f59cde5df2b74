-- ===== src/Wfh/Requests/Create.antt =====
-- The calls that insert a request, or bring one back.
use madhatter.Base.{
  ℕ, Bool, true, false, not, ◌&&◌, ◌==◌, ltb, if◌then◌else◌, Option, none, some, any, find,
}
use madhatter.Calendar.{Day}
use madhatter.Store.{has_member}
use madhatter.Store.Exec.{
  Exec, Outcome, ok, err, ◌>>=◌, ◌>>◌, raise, fields_required, wfh_member_not_found,
  wfh_duplicate_request, wfh_date_passed,
}
use madhatter.Wfh.{
  WfhStatus, pending, approved, cancelled, withdrawn, ad_hoc, recurring, assigned, no_origin,
  WfhRequest, Wfh, Service, today_utc, is_on, draw,
}
use madhatter.Wfh.Requests.{
  get_wfh_request_by_id, insert_request, is_unique_constraint_error, or_duplicate, set_request,
  validate_request_date,
}

-- A row with the defaults of the columns.
abbrev pub new_request : Service → ℕ → ℕ → Day → WfhRequest
new_request s id member_id date = record {
  id = id;
  member_id = member_id;
  date = date;
  status = pending;
  created_at = s.now;
  settled_at = none;
  withdrawn_by = none;
  withdrawn_at = none;
  is_recurring = false;
  is_admin_marked = false;
  marked_by = none;
  marked_at = none;
  origin = ad_hoc;
  denial_reason = none;
}

unfoldable pub is_user_resurrectable : WfhStatus → Option ℕ → Bool
is_user_resurrectable cancelled by = true
is_user_resurrectable withdrawn none = true
is_user_resurrectable withdrawn (some by) = false
is_user_resurrectable _ by = false

abbrev pub is_resurrectable : WfhRequest → Bool
is_resurrectable r = is_user_resurrectable r.status r.withdrawn_by

-- What `ResurrectWFHRequest` sets, where its WHERE clause holds of the row.
abbrev pub resurrected : WfhRequest → WfhRequest
resurrected r =
    if is_resurrectable r
    then record r {
      status = pending;
      settled_at = none;
      withdrawn_by = none;
      withdrawn_at = none;
      is_recurring = false;
    }
    else r

unfoldable pub resurrect : WfhRequest → Exec Wfh WfhRequest
unfolding is_user_resurrectable set_request get_wfh_request_by_id
resurrect existing w =
    if not (is_resurrectable existing)
    then err wfh_duplicate_request w
    else if not (any (λ (r : WfhRequest). (r.id == existing.id) && is_resurrectable r) w.requests)
    then err wfh_duplicate_request w
    else get_wfh_request_by_id existing.id (set_request existing.id resurrected w)

-- The row that the unique index names, if it can come back.
unfoldable pub resurrect_or_duplicate : Service → ℕ → Day → Exec Wfh WfhRequest
unfolding validate_request_date resurrect
resurrect_or_duplicate s member_id date = do
  validate_request_date s date
  λ w. elim (find (is_on member_id date) w.requests) [
    | none ↦ err wfh_duplicate_request w
    | some existing ↦ resurrect existing w
  ]

-- After the INSERT. The value returned for a new row leaves out the origin.
unfoldable pub inserted : Service → ℕ → ℕ → Day → Outcome Wfh Unit → Outcome Wfh WfhRequest
unfolding get_wfh_request_by_id resurrect_or_duplicate is_unique_constraint_error
inserted s id member_id date (ok _ w) =
    (do row ← get_wfh_request_by_id id; λ w'. ok (record row { origin = no_origin }) w') w
inserted s id member_id date (err e w) =
    if is_unique_constraint_error e then resurrect_or_duplicate s member_id date w else err e w

unfoldable pub create_wfh_request : Service → ℕ → Day → Exec Wfh WfhRequest
unfolding validate_request_date insert_request inserted
create_wfh_request s member_id date w =
    if member_id == 0
    then err fields_required w
    else if not (has_member member_id w.db.members)
    then err wfh_member_not_found w
    else (do
      validate_request_date s date
      id ← draw
      λ w'. inserted s id member_id date (insert_request (new_request s id member_id date) w'))
        w

unfoldable pub mark_admin_wfh : Service → ℕ → ℕ → Day → ℕ → Exec Wfh Unit
unfolding insert_request or_duplicate
mark_admin_wfh s id member_id date admin_user_id w = or_duplicate (
    insert_request
      (record (new_request s id member_id date) {
        status = approved;
        is_admin_marked = true;
        marked_by = if admin_user_id == 0 then none else some admin_user_id;
        marked_at = some s.now;
      })
      w)

abbrev pub recurring_request : Service → ℕ → ℕ → Day → ℕ → WfhRequest
recurring_request s id member_id date settled_at = record (new_request s id member_id date) {
  status = approved;
  is_recurring = true;
  settled_at = some settled_at;
  origin = recurring;
}

unfoldable pub create_approved_recurring_wfh_request : Service → ℕ → Day → ℕ → Exec Wfh Unit
unfolding insert_request or_duplicate
create_approved_recurring_wfh_request s member_id date settled_at =
    if ltb date (today_utc s) then raise wfh_date_passed else (do
      id ← draw
      λ w. or_duplicate (insert_request (recurring_request s id member_id date settled_at) w))

abbrev pub assigned_request : Service → ℕ → ℕ → Day → ℕ → WfhRequest
assigned_request s id member_id date settled_at = record (new_request s id member_id date) {
  status = approved;
  settled_at = some settled_at;
  origin = assigned;
}

unfoldable pub create_approved_assigned_wfh_request : Service → ℕ → Day → ℕ → Exec Wfh Unit
unfolding insert_request or_duplicate
create_approved_assigned_wfh_request s member_id date settled_at =
    if ltb date (today_utc s) then raise wfh_date_passed else (do
      id ← draw
      λ w. or_duplicate (insert_request (assigned_request s id member_id date settled_at) w))
