-- ===== src/Wfh/Requests.antt =====
-- internal/database/wfh_crud.go, wfh_recurring.go and wfh_admin.go with their queries: the calls
-- that read and write `wfh_requests`.
pub mod Create
pub mod Withdraw
pub mod Insert
pub mod Unique
mod Kept
pub mod Calls
use madhatter.Base.{
  ℕ, ◌-◌, Bool, true, false, not, ◌&&◌, ◌||◌, ◌==◌, leb, ltb, if◌then◌else◌, List, [], ◌∷◌, ◌++◌,
  Option, none, some, keep, find, any, update, length,
}
use madhatter.Base.Sort.{sort_by}
use madhatter.Base.Int.{ℤ, pos, leb_ℤ}
use madhatter.Calendar.{Day, is_holiday}
use madhatter.Store.{has_member}
use madhatter.Store.Exec.{
  Exec, Error, Outcome, ok, err, ◌>>=◌, ◌>>◌, pure, raise, unique_violation, foreign_key_violation,
  wfh_not_found, wfh_duplicate_request, wfh_on_holiday, wfh_date_passed,
}
use madhatter.Wfh.{
  WfhStatus, pending, approved, status_eq, is_assigned, DenialReason, WfhRequest, WfhAssignmentSwap,
  Wfh, Service, today_utc, is_on, elem,
}
use madhatter.Wfh.{denied}
use madhatter.Wfh.Period.{Period, in_period}

-- `ErrNoRows` becomes the error of a missing request.
unfoldable pub get_wfh_request_by_id : ℕ → Exec Wfh WfhRequest
get_wfh_request_by_id id w = elim (find (λ (r : WfhRequest). r.id == id) w.requests) [
  | none ↦ err wfh_not_found w
  | some r ↦ ok r w
]

unfoldable pub get_wfh_request_by_member_and_date : ℕ → Day → Exec Wfh WfhRequest
get_wfh_request_by_member_and_date member_id date w =
    elim (find (is_on member_id date) w.requests) [ none ↦ err wfh_not_found w | some r ↦ ok r w ]

-- `row.ID != ""`, of the row that is there.
unfoldable pub has_wfh_request_on_date : ℕ → Day → Wfh → Bool
has_wfh_request_on_date member_id date w = elim (find (is_on member_id date) w.requests) [
  | none ↦ false
  | some r ↦ not (r.id == 0)
]

abbrev pub by_created_at : WfhRequest → WfhRequest → Bool
by_created_at a b = leb a.created_at b.created_at

unfoldable pub get_wfh_requests_by_date : Day → Wfh → List WfhRequest
get_wfh_requests_by_date date w =
    sort_by by_created_at (keep (λ (r : WfhRequest). r.date == date) w.requests)

abbrev pub has_status_on : Day → WfhStatus → WfhRequest → Bool
has_status_on date status r = (r.date == date) && status_eq r.status status

unfoldable pub get_wfh_requests_by_date_and_status : Day → WfhStatus → Wfh → List WfhRequest
get_wfh_requests_by_date_and_status date status w =
    sort_by by_created_at (keep (has_status_on date status) w.requests)

unfoldable pub get_wfh_requests_by_member : ℕ → Wfh → List WfhRequest
get_wfh_requests_by_member member_id w =
    sort_by (λ (a b : WfhRequest). leb b.date a.date)
      (keep (λ (r : WfhRequest). r.member_id == member_id) w.requests)

-- `status IN ('pending', 'approved')` on a day of the period.
abbrev pub is_used_in : ℕ → Period → WfhRequest → Bool
is_used_in member_id p r =
    (r.member_id == member_id)
    && (in_period p r.date && (status_eq r.status pending || status_eq r.status approved))

unfoldable pub get_wfh_requests_used_in_period : ℕ → Period → Wfh → List WfhRequest
get_wfh_requests_used_in_period member_id p w =
    sort_by (λ (a b : WfhRequest). leb a.date b.date) (keep (is_used_in member_id p) w.requests)

abbrev pub is_voluntary_in : ℕ → Period → WfhRequest → Bool
is_voluntary_in member_id p r = is_used_in member_id p r && not (is_assigned r.origin)

unfoldable pub get_wfh_requests_voluntary_in_period : ℕ → Period → Wfh → List WfhRequest
get_wfh_requests_voluntary_in_period member_id p w =
    sort_by (λ (a b : WfhRequest). leb a.date b.date)
      (keep (is_voluntary_in member_id p) w.requests)

abbrev pub is_settleable : Day → WfhRequest → Bool
is_settleable cutoff r = status_eq r.status pending && (not r.is_recurring && leb r.date cutoff)

-- `ORDER BY date ASC, created_at ASC`.
unfoldable pub get_pending_for_settlement : Day → Wfh → List WfhRequest
get_pending_for_settlement cutoff w =
    sort_by (λ (a b : WfhRequest). ltb a.date b.date || ((a.date == b.date) && by_created_at a b))
      (keep (is_settleable cutoff) w.requests)

unfoldable pub get_all_wfh_requests : Wfh → List WfhRequest
get_all_wfh_requests w =
    sort_by (λ (a b : WfhRequest). ltb b.date a.date || ((a.date == b.date) && by_created_at b a))
      w.requests

unfoldable pub is_admin_marked_wfh : ℕ → Day → Wfh → Bool
is_admin_marked_wfh member_id date w = elim (find (is_on member_id date) w.requests) [
  | none ↦ false
  | some r ↦ r.is_admin_marked
]

unfoldable pub count_approved_wfh_by_date : Day → Wfh → ℕ
count_approved_wfh_by_date date w = length (keep (has_status_on date approved) w.requests)

-- `date < cutoff`.
abbrev pub is_before : ℤ → WfhRequest → Bool
is_before cutoff r = not (leb_ℤ cutoff (pos r.date))

unfoldable pub count_wfh_requests_before : ℤ → Wfh → ℕ
count_wfh_requests_before cutoff w = length (keep (is_before cutoff) w.requests)

-- The foreign key of a swap, with ON DELETE CASCADE (migrations/000025).
abbrev pub refers_to_old : ℤ → Wfh → WfhAssignmentSwap → Bool
refers_to_old cutoff w x =
    any (λ (r : WfhRequest). (r.id == x.requester_wfh_request_id) && is_before cutoff r) w.requests

-- The number of rows that went; the swaps of these rows go with them.
unfoldable pub purge_wfh_requests_before : ℤ → Exec Wfh ℕ
purge_wfh_requests_before cutoff w =
    let left = keep (λ r. not (is_before cutoff r)) w.requests in
    ok (length w.requests - length left)
      (record w { requests = left; swaps = keep (λ x. not (refers_to_old cutoff w x)) w.swaps })

unfoldable pub set_request : ℕ → (WfhRequest → WfhRequest) → Wfh → Wfh
set_request id f w = record w { requests = update (λ (r : WfhRequest). r.id == id) f w.requests }

abbrev pub with_status : Service → WfhStatus → WfhRequest → WfhRequest
with_status s status r = record r { status = status; settled_at = some s.now }

unfoldable pub update_wfh_request_status : Service → ℕ → WfhStatus → Wfh → Wfh
unfolding set_request
update_wfh_request_status s id status = set_request id (with_status s status)

abbrev pub with_denial : Service → DenialReason → WfhRequest → WfhRequest
with_denial s reason r = record r {
  status = denied;
  settled_at = some s.now;
  denial_reason = some reason;
}

unfoldable pub deny_wfh_request : Service → ℕ → DenialReason → Wfh → Wfh
unfolding set_request
deny_wfh_request s id reason = set_request id (with_denial s reason)

-- NULL, or a row of `users`.
abbrev pub is_user : Option ℕ → Wfh → Bool
is_user none w = true
is_user (some id) w = elem id w.users

-- An INSERT: the primary key and UNIQUE(member_id, date), then the foreign keys.
unfoldable pub insert_request : WfhRequest → Exec Wfh Unit
insert_request r w =
    if any (λ (q : WfhRequest). q.id == r.id) w.requests
      || any (is_on r.member_id r.date) w.requests
    then err unique_violation w
    else if not (has_member r.member_id w.db.members && is_user r.marked_by w)
    then err foreign_key_violation w
    else ok tt (record w { requests = w.requests ++ r ∷ [] })

-- `isUniqueConstraintError`.
unfoldable pub is_unique_constraint_error : Error → Bool
is_unique_constraint_error unique_violation = true
is_unique_constraint_error _ = false

-- The error of a second row of a member and a date.
unfoldable pub or_duplicate : {A : Type 0} → Outcome Wfh A → Outcome Wfh A
unfolding is_unique_constraint_error
or_duplicate (ok a w) = ok a w
or_duplicate (err e w) = err (if is_unique_constraint_error e then wfh_duplicate_request else e) w

unfoldable pub validate_request_date : Service → Day → Exec Wfh Unit
validate_request_date s date =
    if is_holiday s.holiday_checker date
    then raise wfh_on_holiday
    else if ltb date (today_utc s)
    then raise wfh_date_passed
    else pure tt
