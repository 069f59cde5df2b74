-- ===== src/Wfh/Settlement.antt =====
-- `settleDate` and `prioritisePending` of internal/wfh/service.go: which requests of a date are
-- approved, and which are denied because too few would be left on site.
pub mod Steps
pub mod Run
pub mod Floor
pub mod Fair
pub mod Decided
use madhatter.Base.{
  ℕ, suc, ◌+◌, ◌-◌, Bool, ◌&&◌, ◌||◌, ◌==◌, leb, ltb, if◌then◌else◌, List, [], ◌∷◌, ◌++◌, none,
  some, map, length, is_empty, codes,
}
use madhatter.Base.Sort.{sort_by}
use madhatter.Calendar.{Day}
use madhatter.Store.{TeamMember}
use madhatter.Store.Members.{get_active_team_members}
use madhatter.Store.Exec.{Exec, Outcome, ok, err, bind, invalid_period_anchor}
use madhatter.Wfh.{pending, approved, denied, WfhRequest, DenialReason, row_id, Wfh, Service}
use madhatter.Wfh.Period.{Period, compute_period_bounds}
use madhatter.Wfh.Requests.{
  get_wfh_requests_voluntary_in_period, update_wfh_request_status, deny_wfh_request,
}
use madhatter.Wfh.Presence.{
  leave_member_ids_for_date, approved_member_ids, count_unique_members, min_onsite_count,
  fire_wfh_state_changed,
}

pub record PendingWithUsage : Type 0 where
  pub req : WfhRequest
  pub used_days : ℕ

-- The order of the stable sort: `a` does not come after `b`.
abbrev pub comes_first : PendingWithUsage → PendingWithUsage → Bool
comes_first a b =
    ltb a.used_days b.used_days
    || ((a.used_days == b.used_days) && leb a.req.created_at b.req.created_at)

abbrev pub with_usage : Period → Wfh → WfhRequest → PendingWithUsage
with_usage p w r = record {
  req = r;
  used_days = length (get_wfh_requests_voluntary_in_period r.member_id p w);
}

unfoldable pub prioritise_in : Period → List WfhRequest → Wfh → List WfhRequest
unfolding get_wfh_requests_voluntary_in_period
prioritise_in p requests w =
    map (λ (x : PendingWithUsage). x.req) (sort_by comes_first (map (with_usage p w) requests))

unfoldable pub prioritise_pending : Service → Day → List WfhRequest → Exec Wfh (List WfhRequest)
unfolding compute_period_bounds prioritise_in
prioritise_pending s date requests w = elim (compute_period_bounds s.cfg date) [
  | none ↦ err invalid_period_anchor w
  | some p ↦ ok (prioritise_in p requests w) w
]

unfoldable pub approve_one : Service → WfhRequest → Wfh → Wfh
unfolding update_wfh_request_status fire_wfh_state_changed
approve_one s r w =
    fire_wfh_state_changed s (row_id r.id) r.member_id r.date (some pending) approved
      (codes "system") none (update_wfh_request_status s r.id approved w)

unfoldable pub deny_one : Service → DenialReason → WfhRequest → Wfh → Wfh
unfolding deny_wfh_request fire_wfh_state_changed
deny_one s reason r w =
    fire_wfh_state_changed s (row_id r.id) r.member_id r.date (some pending) denied (codes "system")
      (some reason) (deny_wfh_request s r.id reason w)

-- The loop over the requests in their order, at position `i`.
unfoldable pub settle_from : Service → DenialReason → ℕ → ℕ → List WfhRequest → Wfh → Wfh
unfolding approve_one deny_one
settle_from s reason available i [] w = w
settle_from s reason available i (r ∷ rs) w =
    settle_from s reason available (suc i) rs
      (if leb available i then deny_one s reason r w else approve_one s r w)

-- The members who are away or approved to be, as one set.
abbrev pub unavailable : Day → Wfh → List ℕ
unavailable date w = leave_member_ids_for_date date w ++ approved_member_ids date w

unfoldable pub settle_date : Service → Day → List WfhRequest → Exec Wfh Unit
unfolding get_active_team_members min_onsite_count count_unique_members prioritise_pending
    leave_member_ids_for_date approved_member_ids settle_from
settle_date s date requests w =
    let total_active = length (get_active_team_members w.db) in
    let min_onsite = min_onsite_count s.cfg total_active in
    let slots_used = count_unique_members (unavailable date w) in
    let reason : DenialReason = record { min_onsite = min_onsite; slots_used = slots_used } in
    if total_active == 0
    then ok tt w
    else bind (prioritise_pending s date requests w) (λ prioritized w'.
      ok tt (settle_from s reason (total_active - slots_used - min_onsite) 0 prioritized w'))
