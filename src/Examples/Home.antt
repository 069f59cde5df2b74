-- ===== src/Examples/Home.antt =====
-- Runs of the settlement, the picker and the calls of internal/wfh, on the morning of Monday 21 with
-- two requests for Tuesday.
use madhatter.Base.{
  codes, text_leb, ◌*◌, ◌+◌, ◌≤◌, ◌≡◌, refl, true, none, some, List, [], ◌∷◌, length, ◌⊎◌, ◌↔◌,
  arith,
}
use madhatter.Base.Int.{pos, ◌+ℤ◌, ◌-ℤ◌, ◌*ℤ◌, ◌/ℤ◌}
use madhatter.Base.Sort.{sort_by, insert_by}
use mathlib.Core.List.{Perm}
use madhatter.Calendar.{Day}
use madhatter.Store.Exec.{ok, after}
use madhatter.Store.Members.{get_active_team_members}
use madhatter.Wfh.{WfhRequest, Wfh, Config, DenialReason, Service, seconds_per_day}
use madhatter.Wfh.Period.{Period, compute_period_bounds, in_period, period_index, period_at}
use madhatter.Wfh.Period.Tiling.{compute_period_bounds-tile}
use madhatter.Wfh.Requests.{get_pending_for_settlement}
use madhatter.Wfh.Requests.Create.{new_request, assigned_request}
use madhatter.Wfh.Requests.Insert.{Extends}
use madhatter.Wfh.Requests.Unique.{IsUnique}
use madhatter.Wfh.Requests.Calls.{create, cancel, perform_all, perform_all-IsUnique}
use madhatter.Wfh.Quota.{
  get_quota_status_for_date, check_quota, purge_past_periods, purge_past_periods_dry_run,
}
use madhatter.Wfh.Quota.Agreement.{Agree, check_quota-Agree}
use madhatter.Wfh.Quota.Purge.{result_of, Purges, purge_past_periods-Purges}
use madhatter.Wfh.Presence.{count_unique_members, min_onsite_count}
use madhatter.Wfh.Actions.{admin_reassign_wfh}
use madhatter.Wfh.Actions.Reassigned.{Reassigned, admin_reassign_wfh-Reassigned}
use madhatter.Store.Exec.Frames.{OnOk}
use madhatter.Wfh.Settlement.{settle_from, settle_date, unavailable, prioritise_in}
use madhatter.Wfh.Settlement.Floor.{settle_date-floor}
use madhatter.Wfh.Settlement.Decided.{Decided, settle_from-Decided}
use madhatter.Wfh.Settlement.Fair.{InOrder, NoLater, prioritise_in-fair}
use madhatter.Wfh.Presence.{on_site_cohort_ids}
use madhatter.Wfh.CoPresence.{write_co_presence_for_past_date}
use madhatter.Wfh.CoPresence.Counts.{Counts, IsBetween, AllMet}
use madhatter.Wfh.CoPresence.Recorded.{write_co_presence_for_past_date-Counts}
use madhatter.Wfh.Picker.{run_picker, on_site_count}
use madhatter.Wfh.Picker.Run.{PickedRow, run_picker-adds_candidates}
use madhatter.Wfh.Picker.Cap.{run_picker-keeps_seats}
use madhatter.Wfh.Recurring.{ensure_recurring_materialized}
use madhatter.Wfh.Recurring.Preserves.{TeamRow, ensure_recurring_materialized-preserves}
use madhatter.Wfh.Tick.{settlement_cutoff, settle_pending_requests}
use madhatter.Wfh.Tick.Settles.{settle_pending_requests-decides_all}
use madhatter.Examples.{office}

abbrev config : Config
config = record {
  enabled = true;
  min_onsite_percentage = 50;
  min_onsite_absolute = 1;
  max_days_per_period = 2;
  period_days = 14;
  period_anchor = some 14;
  settlement_days = 3;
  request_horizon_days = 30;
  purge_enabled = true;
  seat_cap = 1;
  assignment_enabled = true;
  co_presence_enabled = true;
  co_presence_horizon_days = 30;
  co_presence_retention_days = 60;
}

abbrev service : Service
service = record {
  cfg = config;
  now = 21 * seconds_per_day + 30_000;
  holiday_checker = none;
  notifying = true;
}

-- Bo and Cy ask for Tuesday.
abbrev asked : List WfhRequest
asked = new_request service 80 2 22 ∷ new_request service 81 3 22 ∷ []

abbrev home : Wfh
home = record {
  db = office;
  users = 900 ∷ [];
  requests = asked;
  co_presence = [];
  swaps = [];
  events = [];
}

abbrev fortnight : Period
fortnight = record { period_start = pos 14; period_end = pos 27 }

abbrev anchor : Day
anchor = 14

settle_pending_requests-decides_all_example :
    get_pending_for_settlement (settlement_cutoff service) (settle_pending_requests service home)
    ≡ []
unfolding get_active_team_members sort_by insert_by text_leb
settle_pending_requests-decides_all_example =
    settle_pending_requests-decides_all service anchor home refl refl

settle_date-floor_example :
    (count_unique_members (unavailable 22 (after (settle_date service 22 asked home)))
      ≤ count_unique_members (unavailable 22 home))
    ⊎ (count_unique_members (unavailable 22 (after (settle_date service 22 asked home)))
          + min_onsite_count config (length (get_active_team_members office))
        ≤ length (get_active_team_members office))
settle_date-floor_example = settle_date-floor service 22 asked home (
  ((λ _. refl), ((λ e. absurd (omega (arith, e))), tt)),
  (((λ e. absurd (omega (arith, e))), ((λ _. refl), tt)), tt),
)

run_picker-keeps_seats_example :
    (after (run_picker service 22 home) ≡ home)
    ⊎ (config.seat_cap ≤ on_site_count 22 (after (run_picker service 22 home)))
run_picker-keeps_seats_example = run_picker-keeps_seats service 22 home

run_picker-adds_candidates_example :
    Extends (PickedRow 22 home) home (after (run_picker service 22 home))
run_picker-adds_candidates_example = run_picker-adds_candidates service 22 home

perform_all-IsUnique_example :
    IsUnique (perform_all ((service, create 2 23) ∷ (service, cancel 80 2) ∷ []) home).requests
perform_all-IsUnique_example =
    perform_all-IsUnique ((service, create 2 23) ∷ (service, cancel 80 2) ∷ []) home
      (refl, (refl, tt))

compute_period_bounds-tile_example :
    (in_period fortnight 20 ≡ true) ↔ (compute_period_bounds config 20 ≡ some fortnight)
unfolding compute_period_bounds period_index period_at ◌+ℤ◌ ◌*ℤ◌ ◌-ℤ◌ ◌/ℤ◌
compute_period_bounds-tile_example =
    compute_period_bounds-tile config 22 20 fortnight (omega arith) refl

ensure_recurring_materialized-preserves_example :
    Extends (TeamRow home) home (ensure_recurring_materialized service 21 24 home).2
ensure_recurring_materialized-preserves_example =
    ensure_recurring_materialized-preserves service 21 24 home

prioritise_in-fair_example :
    Perm (prioritise_in fortnight asked home) asked
    × InOrder (NoLater fortnight home) (prioritise_in fortnight asked home)
prioritise_in-fair_example = prioritise_in-fair fortnight asked home

purge_past_periods-Purges_example :
    (result_of (purge_past_periods_dry_run service home)
      ≡ result_of (purge_past_periods service home))
    × (after (purge_past_periods_dry_run service home) ≡ home)
    × Purges service home (purge_past_periods service home)
purge_past_periods-Purges_example = purge_past_periods-Purges service home

check_quota-Agree_example :
    Agree config.max_days_per_period
      (check_quota service 2 22 home)
      (get_quota_status_for_date service 2 22 home)
check_quota-Agree_example = check_quota-Agree service 2 22 home

abbrev too_few : DenialReason
too_few = record { min_onsite = 2; slots_used = 0 }

-- One slot for the two requests.
settle_from-Decided_example :
    Decided 1 0 asked (settle_from service too_few 1 0 asked home).requests
settle_from-Decided_example = settle_from-Decided service too_few 1 0 asked home (refl, (refl, tt))

-- The picker sent Bo home on Wednesday; Cy takes the day over.
abbrev picked_home : Wfh
picked_home = record home { requests = assigned_request service 90 2 23 5 ∷ asked }

admin_reassign_wfh-Reassigned_example :
    OnOk
      (λ _ w'. Reassigned service 90 3 900 picked_home w')
      (admin_reassign_wfh service 90 3 900 (codes "Ada") picked_home)
admin_reassign_wfh-Reassigned_example =
    admin_reassign_wfh-Reassigned service 90 3 900 (codes "Ada") picked_home

-- Ada, Bo and Cy were on site the day before.
write_co_presence_for_past_date-Counts_example :
    Counts
      (IsBetween 20 (on_site_cohort_ids 20 home))
      (λ w'.
        AllMet 20 (on_site_cohort_ids 20 home) w'
        × (write_co_presence_for_past_date service 20 w' ≡ ok 0 w'))
      0
      home
      (write_co_presence_for_past_date service 20 home)
write_co_presence_for_past_date-Counts_example =
    write_co_presence_for_past_date-Counts service 20 home refl (refl, (refl, (refl, tt)))
