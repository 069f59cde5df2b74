-- ===== src/Wfh/Tick.antt =====
-- `SettlePendingRequests` of internal/wfh/service.go: what the scheduler runs at each tick.
pub mod Left
mod Dated
pub mod Settles
use madhatter.Base.{
  ℕ, zero, suc, ◌+◌, Bool, not, ◌||◌, ◌==◌, leb, if◌then◌else◌, List, [], ◌∷◌, map, keep, is_empty,
}
use madhatter.Base.Sort.{sort_by}
use madhatter.Calendar.{Day, is_weekend}
use madhatter.Store.Exec.{after}
use madhatter.Wfh.{WfhRequest, Wfh, Service, today_utc, elem}
use madhatter.Wfh.Requests.{get_pending_for_settlement}
use madhatter.Wfh.Swaps.{cancel_expired_wfh_swaps}
use madhatter.Wfh.Settlement.{settle_date}
use madhatter.Wfh.Picker.{picker_disabled, assign_wfh_for_date}
use madhatter.Wfh.CoPresence.{backfill_co_presence}
use madhatter.Wfh.Recurring.{ensure_recurring_materialized}

-- The loop over `n` dates; an error of one date is passed over.
unfoldable pub assign_dates : Service → ℕ → Day → Wfh → Wfh
unfolding assign_wfh_for_date
assign_dates s zero d w = w
assign_dates s (suc n) d w =
    assign_dates s n (suc d) (if is_weekend d then w else after (assign_wfh_for_date s d w))

-- From today up to the cutoff, both of which are looked at.
unfoldable pub settle_assignment_pass : Service → Wfh → Wfh
unfolding picker_disabled assign_dates
settle_assignment_pass s w =
    if picker_disabled s.cfg then w else assign_dates s (suc s.cfg.settlement_days) (today_utc s) w

-- The keys of the map by date.
unfoldable pub distinct : List ℕ → List ℕ
distinct [] = []
distinct (x ∷ xs) = if elem x xs then distinct xs else x ∷ distinct xs

abbrev pub of_date : Day → List WfhRequest → List WfhRequest
of_date date = keep (λ (r : WfhRequest). r.date == date)

-- The loop over the dates; an error of one date is passed over.
unfoldable pub settle_dates : Service → List WfhRequest → List Day → Wfh → Wfh
unfolding settle_date
settle_dates s requests [] w = w
settle_dates s requests (d ∷ ds) w =
    settle_dates s requests ds (after (settle_date s d (of_date d requests) w))

abbrev pub dates_of : List WfhRequest → List Day
dates_of requests = sort_by leb (distinct (map (λ (r : WfhRequest). r.date) requests))

unfoldable pub auto_cancel_expired_swaps : Service → Wfh → Wfh
unfolding cancel_expired_wfh_swaps
auto_cancel_expired_swaps s = cancel_expired_wfh_swaps s (today_utc s)

abbrev pub settlement_cutoff : Service → Day
settlement_cutoff s = today_utc s + s.cfg.settlement_days

-- After the query: with no request the call ends after the assignment pass.
unfoldable pub settle_requests : Service → List WfhRequest → Wfh → Wfh
unfolding settle_assignment_pass distinct settle_dates auto_cancel_expired_swaps
    backfill_co_presence
settle_requests s [] w = settle_assignment_pass s w
settle_requests s (r ∷ rs) w = backfill_co_presence s (
    auto_cancel_expired_swaps s
      (settle_assignment_pass s (settle_dates s (r ∷ rs) (dates_of (r ∷ rs)) w)))

unfoldable pub settle_pending_requests : Service → Wfh → Wfh
unfolding ensure_recurring_materialized get_pending_for_settlement settle_requests
settle_pending_requests s w =
    let w₁ = (ensure_recurring_materialized s (today_utc s) (settlement_cutoff s) w).2 in
    settle_requests s (get_pending_for_settlement (settlement_cutoff s) w₁) w₁
