-- ===== src/Wfh/Requests/Calls.antt =====
-- The calls that write `wfh_requests`, in any order: the UNIQUE constraint as an invariant.
use madhatter.Base.{ℕ, refl, not, List, [], ◌∷◌}
use madhatter.Base.Int.{ℤ}
use madhatter.Calendar.{Day}
use madhatter.Store.Exec.{after}
use madhatter.Wfh.{WfhStatus, Wfh, Service, DenialReason}
use madhatter.Wfh.Requests.{
  update_wfh_request_status, deny_wfh_request, purge_wfh_requests_before, is_before, with_status,
  with_denial,
}
use madhatter.Wfh.Requests.Create.{
  create_wfh_request, mark_admin_wfh, create_approved_recurring_wfh_request,
  create_approved_assigned_wfh_request,
}
use madhatter.Wfh.Requests.Withdraw.{
  cancel_wfh_request, withdraw_wfh_request, withdraw_own_wfh_request, withdraw_assigned_wfh_request,
}
use madhatter.Wfh.Requests.Unique.{
  IsUnique, Keeps, keep-IsUnique, set_request-Keeps, insert_or_duplicate-Keeps,
}
use madhatter.Wfh.Requests.Kept.{
  create_wfh_request-Keeps, withdraw_wfh-Keeps, withdraw_assigned-Keeps, cancel-Keeps,
  create_recurring-Keeps, create_assigned-Keeps,
}

-- One call of the database, with its arguments.
pub data RequestCall : Type 0 where
  create : ℕ → Day → RequestCall
  mark : ℕ → ℕ → Day → ℕ → RequestCall
  create_recurring create_assigned : ℕ → Day → ℕ → RequestCall
  cancel withdraw withdraw_own withdraw_assigned : ℕ → ℕ → RequestCall
  set_status : ℕ → WfhStatus → RequestCall
  deny : ℕ → DenialReason → RequestCall
  purge : ℤ → RequestCall

unfoldable pub perform : Service → RequestCall → Wfh → Wfh
unfolding create_wfh_request mark_admin_wfh create_approved_recurring_wfh_request
    create_approved_assigned_wfh_request cancel_wfh_request withdraw_wfh_request
    withdraw_own_wfh_request withdraw_assigned_wfh_request update_wfh_request_status
    deny_wfh_request purge_wfh_requests_before
perform s (create m d) w = after (create_wfh_request s m d w)
perform s (mark id m d admin) w = after (mark_admin_wfh s id m d admin w)
perform s (create_recurring m d t) w = after (create_approved_recurring_wfh_request s m d t w)
perform s (create_assigned m d t) w = after (create_approved_assigned_wfh_request s m d t w)
perform s (cancel id m) w = after (cancel_wfh_request s id m w)
perform s (withdraw id admin) w = after (withdraw_wfh_request s id admin w)
perform s (withdraw_own id m) w = after (withdraw_own_wfh_request s id m w)
perform s (withdraw_assigned id actor) w = after (withdraw_assigned_wfh_request s id actor w)
perform s (set_status id status) w = update_wfh_request_status s id status w
perform s (deny id reason) w = deny_wfh_request s id reason w
perform s (purge cutoff) w = after (purge_wfh_requests_before cutoff w)

perform-Keeps : (s : Service) (c : RequestCall) (w : Wfh) → Keeps w (perform s c w)
unfolding perform mark_admin_wfh withdraw_wfh_request withdraw_own_wfh_request
    update_wfh_request_status deny_wfh_request purge_wfh_requests_before
perform-Keeps s (create m d) w = create_wfh_request-Keeps s m d w
perform-Keeps s (mark id m d admin) w = insert_or_duplicate-Keeps _ w
perform-Keeps s (create_recurring m d t) w = create_recurring-Keeps s m d t w
perform-Keeps s (create_assigned m d t) w = create_assigned-Keeps s m d t w
perform-Keeps s (cancel id m) w = cancel-Keeps s id m w
perform-Keeps s (withdraw id admin) w = withdraw_wfh-Keeps s id 0 admin w
perform-Keeps s (withdraw_own id m) w = withdraw_wfh-Keeps s id m 0 w
perform-Keeps s (withdraw_assigned id actor) w = withdraw_assigned-Keeps s id actor w
perform-Keeps s (set_status id status) w =
    set_request-Keeps id (with_status s status) w (λ r. (refl, refl))
perform-Keeps s (deny id reason) w =
    set_request-Keeps id (with_denial s reason) w (λ r. (refl, refl))
perform-Keeps s (purge cutoff) w = keep-IsUnique (λ r. not (is_before cutoff r)) w.requests

-- Calls at different times, each with the service of its time.
unfoldable pub perform_all : List (Service × RequestCall) → Wfh → Wfh
unfolding perform
perform_all [] w = w
perform_all ((s, c) ∷ cs) w = perform_all cs (perform s c w)

-- From requests of which no two have one member and one date, any sequence of the calls that write
-- requests, whatever of them fails, leads to requests of which that holds too.
pub perform_all-IsUnique :
    (cs : List (Service × RequestCall)) (w : Wfh)
    → IsUnique w.requests
    → IsUnique (perform_all cs w).requests
unfolding perform_all
perform_all-IsUnique [] w u = u
perform_all-IsUnique (c ∷ cs) w u =
    perform_all-IsUnique cs (perform c.0 c.1 w) (perform-Keeps c.0 c.1 w u)
