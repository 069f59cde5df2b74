-- ===== src/Wfh/Swaps.antt =====
-- internal/database/wfh_assignment_swaps.go: the swaps of assigned days.
use madhatter.Base.{
  ℕ, Bool, true, false, not, ◌&&◌, ◌==◌, leb, ltb, if◌then◌else◌, List, [], ◌∷◌, ◌++◌, none, some,
  keep, find, any, update,
}
use madhatter.Base.Sort.{sort_by}
use madhatter.Calendar.{Day}
use madhatter.Store.{SwapStatus, pending, accepted, rejected, cancelled, has_member}
use madhatter.Store.Exec.{
  Exec, ok, err, ◌>>=◌, wfh_not_found, no_pending_swap_for_row, foreign_key_violation,
}
use madhatter.Wfh.{WfhRequest, WfhAssignmentSwap, Wfh, Service, draw}

abbrev is_pending : SwapStatus → Bool
is_pending pending = true
is_pending accepted = false
is_pending rejected = false
is_pending cancelled = false

abbrev newest_first : List WfhAssignmentSwap → List WfhAssignmentSwap
newest_first = sort_by (λ (a b : WfhAssignmentSwap). leb b.created_at a.created_at)

-- The id drawn is the whole id: the prefix "swap-" is on each of them.
unfoldable pub create_wfh_assignment_swap : Service → ℕ → ℕ → Day → Exec Wfh ℕ
create_wfh_assignment_swap s requester_wfh_request_id target_member_id swap_date = do
  id ← draw
  λ w.
      if not (
        any (λ (r : WfhRequest). r.id == requester_wfh_request_id) w.requests
        && has_member target_member_id w.db.members)
      then err foreign_key_violation w
      else ok id (record w {
        swaps =
            w.swaps
            ++ record {
              id = id;
              requester_wfh_request_id = requester_wfh_request_id;
              target_member_id = target_member_id;
              swap_date = swap_date;
              status = pending;
              created_at = s.now;
              resolved_at = none;
            }
              ∷ [];
      })

unfoldable pub get_wfh_assignment_swap_by_id : ℕ → Exec Wfh WfhAssignmentSwap
get_wfh_assignment_swap_by_id id w = elim (find (λ (x : WfhAssignmentSwap). x.id == id) w.swaps) [
  | none ↦ err wfh_not_found w
  | some x ↦ ok x w
]

unfoldable pub get_pending_wfh_swaps_for_target : ℕ → Wfh → List WfhAssignmentSwap
unfolding newest_first
get_pending_wfh_swaps_for_target target_member_id w = newest_first (
    keep
      (λ (x : WfhAssignmentSwap). (x.target_member_id == target_member_id) && is_pending x.status)
      w.swaps)

unfoldable pub get_pending_wfh_swaps_for_requester_member : ℕ → Wfh → List WfhAssignmentSwap
unfolding newest_first
get_pending_wfh_swaps_for_requester_member member_id w = newest_first (
    keep
      (λ (x : WfhAssignmentSwap).
        any (λ (r : WfhRequest). (r.id == x.requester_wfh_request_id) && (r.member_id == member_id))
          w.requests
        && is_pending x.status)
      w.swaps)

unfoldable pub get_pending_wfh_swap_for_requester_row : ℕ → Exec Wfh WfhAssignmentSwap
get_pending_wfh_swap_for_requester_row row w =
    elim (find
      (λ (x : WfhAssignmentSwap). (x.requester_wfh_request_id == row) && is_pending x.status)
      w.swaps) [ none ↦ err no_pending_swap_for_row w | some x ↦ ok x w ]

unfoldable pub update_wfh_assignment_swap_status : ℕ → SwapStatus → ℕ → Wfh → Wfh
update_wfh_assignment_swap_status id status resolved_at w = record w {
  swaps =
      update (λ (x : WfhAssignmentSwap). x.id == id)
        (λ (x : WfhAssignmentSwap). record x { status = status; resolved_at = some resolved_at })
        w.swaps;
}

abbrev pub is_expired_swap : Day → WfhAssignmentSwap → Bool
is_expired_swap cutoff x = is_pending x.status && ltb x.swap_date cutoff

unfoldable pub cancel_expired_wfh_swaps : Service → Day → Wfh → Wfh
cancel_expired_wfh_swaps s cutoff w = record w {
  swaps =
      update (is_expired_swap cutoff)
        (λ (x : WfhAssignmentSwap). record x { status = cancelled; resolved_at = some s.now })
        w.swaps;
}
