-- ===== src/Wfh/Presence.antt =====
-- Who is where on a date (internal/wfh/service.go). A Go set of member ids is a list of ids, of which
-- only the membership and the number of different ids are read.
pub mod Counting
use madhatter.Base.{
  ℕ, suc, zero, ◌+◌, ◌*◌, ◌/◌, Bool, true, false, not, ◌&&◌, ◌==◌, ltb, if◌then◌else◌, List, [],
  ◌∷◌, ◌++◌, Option, none, some, map, keep, find, any, length, Text,
}
use madhatter.Calendar.{Day}
use madhatter.Store.{TeamMember, LeaveRecord, Db}
use madhatter.Store.Members.{get_active_team_members, get_member_by_id, has_permanent_recurring_wfh}
use madhatter.Store.Leaves.{get_leave_by_date}
use madhatter.Wfh.{
  approved, WfhStatus, WfhRequest, WfhEvent, EventId, DenialReason, Wfh, Config, Service, elem,
}
use madhatter.Wfh.Requests.{get_wfh_requests_by_date_and_status}

unfoldable pub leave_member_ids_for_date : Day → Wfh → List ℕ
unfolding get_leave_by_date
leave_member_ids_for_date date w =
    map (λ (l : LeaveRecord). l.member_id) (get_leave_by_date date w.db)

unfoldable pub permanent_wfh_member_ids : List TeamMember → List ℕ
unfolding has_permanent_recurring_wfh
permanent_wfh_member_ids members =
    map (λ (m : TeamMember). m.id) (keep has_permanent_recurring_wfh members)

abbrev pub member_ids_from_wfh_requests : List WfhRequest → List ℕ
member_ids_from_wfh_requests = map (λ (r : WfhRequest). r.member_id)

unfoldable pub approved_member_ids : Day → Wfh → List ℕ
unfolding get_wfh_requests_by_date_and_status
approved_member_ids date w =
    member_ids_from_wfh_requests (get_wfh_requests_by_date_and_status date approved w)

-- The number of different ids.
unfoldable pub count_unique_members : List ℕ → ℕ
count_unique_members [] = 0
count_unique_members (x ∷ xs) =
    if elem x xs then count_unique_members xs else suc (count_unique_members xs)

-- `math.Ceil` of a whole percentage.
unfoldable pub min_onsite_count : Config → ℕ → ℕ
min_onsite_count cfg total_active =
    let pct_min = (total_active * cfg.min_onsite_percentage + 99) / 100 in
    if ltb pct_min cfg.min_onsite_absolute then cfg.min_onsite_absolute else pct_min

unfoldable pub on_site_cohort_ids : Day → Wfh → List ℕ
unfolding get_active_team_members leave_member_ids_for_date permanent_wfh_member_ids
    approved_member_ids
on_site_cohort_ids date w =
    map (λ (m : TeamMember). m.id)
      (keep
        (λ (m : TeamMember).
          not (elem m.id (leave_member_ids_for_date date w))
          && (not (elem m.id (permanent_wfh_member_ids (get_active_team_members w.db)))
              && not (elem m.id (approved_member_ids date w))))
        (get_active_team_members w.db))

abbrev pub is_eligible_swap_target : Day → ℕ → Wfh → TeamMember → Bool
is_eligible_swap_target date requester_id w m =
    m.is_active
    && (not (m.id == requester_id)
        && (not m.is_exempt_from_assignment
            && (not (elem m.id (leave_member_ids_for_date date w))
                && not (elem m.id (approved_member_ids date w)))))

unfoldable pub eligible_swap_targets : Day → ℕ → Wfh → List TeamMember
unfolding get_active_team_members leave_member_ids_for_date approved_member_ids
eligible_swap_targets date requester_id w =
    keep (is_eligible_swap_target date requester_id w) (get_active_team_members w.db)

unfoldable pub resolve_member_name : ℕ → Wfh → Text
resolve_member_name member_id w =
    if member_id == 0
    then []
    else elim (get_member_by_id member_id w.db) [ none ↦ [] | some m ↦ m.name ]

-- One call of the notifier, if there is one.
unfoldable pub fire_wfh_state_changed :
    Service
    → EventId
    → ℕ
    → Day
    → Option WfhStatus
    → WfhStatus
    → Text
    → Option DenialReason
    → Wfh
    → Wfh
unfolding resolve_member_name
fire_wfh_state_changed s request_id member_id date old_status new_status actor_name reason w =
    if s.notifying
    then record w {
      events =
          w.events
          ++ record {
            request_id = request_id;
            member_id = member_id;
            member_name = resolve_member_name member_id w;
            date = date;
            old_status = old_status;
            new_status = new_status;
            actor_name = actor_name;
            reason = reason;
          }
            ∷ [];
    }
    else w
