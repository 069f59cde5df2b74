-- ===== src/Wfh/Picker.antt =====
-- internal/wfh/service_picker.go: the days that the program assigns so that no more members come to
-- the office than there are seats.
pub mod Picks
pub mod Run
pub mod Cap
pub mod Quiet
use madhatter.Base.{
  ℕ, zero, suc, ◌+◌, ◌-◌, ◌*◌, ◌/◌, Bool, true, false, not, ◌&&◌, ◌||◌, ◌==◌, leb, ltb,
  if◌then◌else◌, List, [], ◌∷◌, ◌++◌, Option, none, some, map, take, keep, length, is_empty, codes,
  text_leb, text_eq,
}
use madhatter.Base.Sort.{sort_by}
use madhatter.Calendar.{Day, is_holiday, is_weekend}
use madhatter.Store.{TeamMember}
use madhatter.Store.Members.{get_active_team_members, has_permanent_recurring_wfh}
use madhatter.Store.Exec.{Exec, Outcome, ok, err, bind, invalid_period_anchor}
use madhatter.Wfh.{approved, Wfh, Service, Config, today_utc, seconds_per_day, assigned_id, elem}
use madhatter.Wfh.Period.{Period, compute_period_bounds}
use madhatter.Wfh.Requests.{get_wfh_requests_voluntary_in_period}
use madhatter.Wfh.Requests.Create.{create_approved_assigned_wfh_request}
use madhatter.Wfh.Presence.{
  leave_member_ids_for_date, approved_member_ids, permanent_wfh_member_ids, count_unique_members,
  fire_wfh_state_changed,
}
use madhatter.Wfh.CoPresence.{get_latest_co_presence_with_cohort}

unfoldable pub picker_disabled : Config → Bool
picker_disabled cfg = not cfg.enabled || (not cfg.assignment_enabled || cfg.seat_cap == 0)

unfoldable pub past_date_guard : Service → Day → Bool
past_date_guard s date = ltb date (today_utc s)

unfoldable pub is_picker_active_on_date : Service → Day → Bool
is_picker_active_on_date s date =
    if is_holiday s.holiday_checker date then false else not (is_weekend date)

abbrev pub is_candidate : List ℕ → List ℕ → TeamMember → Bool
is_candidate on_leave_ids approved_ids m =
    m.is_active
    && (not (has_permanent_recurring_wfh m)
        && (not m.is_exempt_from_assignment
            && (not (elem m.id on_leave_ids) && not (elem m.id approved_ids))))

unfoldable pub assign_candidates : List TeamMember → List ℕ → List ℕ → List TeamMember
unfolding has_permanent_recurring_wfh
assign_candidates members on_leave_ids approved_ids =
    keep (is_candidate on_leave_ids approved_ids) members

abbrev pub cohort_cap : ℕ
cohort_cap = 3

-- The first members of the team, up to the cap, who are neither on leave nor always away.
unfoldable pub picker_cohort_ids : Day → Wfh → List ℕ
unfolding get_active_team_members leave_member_ids_for_date permanent_wfh_member_ids
picker_cohort_ids date w = take cohort_cap (
    map (λ (m : TeamMember). m.id)
      (keep
        (λ (m : TeamMember).
          not (elem m.id (leave_member_ids_for_date date w))
          && not (elem m.id (permanent_wfh_member_ids (get_active_team_members w.db))))
        (get_active_team_members w.db)))

-- Days since the candidate last met the cohort on site, cut off at the horizon.
unfoldable pub co_presence_score : Service → ℕ → List ℕ → Wfh → ℕ
unfolding get_latest_co_presence_with_cohort
co_presence_score s candidate_id cohort_ids w =
    let sentinel = suc s.cfg.co_presence_horizon_days in
    if not s.cfg.co_presence_enabled || is_empty cohort_ids
    then sentinel
    else elim (get_latest_co_presence_with_cohort s candidate_id cohort_ids w) [
      | none ↦ sentinel
      | some last ↦
          let raw = (s.now - last * seconds_per_day) / seconds_per_day in
          if ltb raw sentinel then raw else sentinel
    ]

pub record PickerScored : Type 0 where
  pub m : TeamMember
  pub period_wfh_count : ℕ
  pub score : ℕ

abbrev pub scored_first : PickerScored → PickerScored → Bool
scored_first a b =
    ltb a.period_wfh_count b.period_wfh_count
    || ((a.period_wfh_count == b.period_wfh_count)
        && (ltb a.score b.score || ((a.score == b.score) && text_leb a.m.name b.m.name)))

-- The period is that of the day of the call, whatever the date.
unfoldable pub score_candidates : Service → List TeamMember → Day → Period → Wfh → List PickerScored
unfolding get_wfh_requests_voluntary_in_period co_presence_score picker_cohort_ids
score_candidates s candidates date p w =
    map
      (λ (c : TeamMember). record {
        m = c;
        period_wfh_count = length (get_wfh_requests_voluntary_in_period c.id p w);
        score = co_presence_score s c.id (picker_cohort_ids date w) w;
      })
      candidates

unfoldable pub order_by_picker_priority :
    Service → List TeamMember → Day → Exec Wfh (List TeamMember)
unfolding compute_period_bounds score_candidates
order_by_picker_priority s candidates date w = elim (compute_period_bounds s.cfg (today_utc s)) [
  | none ↦ err invalid_period_anchor w
  | some p ↦
      ok
        (map (λ (x : PickerScored). x.m)
          (sort_by scored_first (score_candidates s candidates date p w)))
        w
]

-- After the INSERT of one pick: a duplicate and any other error are passed over.
unfoldable pub picked : Service → Day → TeamMember → Outcome Wfh Unit → Wfh
unfolding fire_wfh_state_changed
picked s date p (ok _ w) =
    fire_wfh_state_changed s (assigned_id date p.id) p.id date none approved (codes "system") none w
picked s date p (err _ w) = w

unfoldable pub insert_picks : Service → Day → List TeamMember → Wfh → Wfh
unfolding picked create_approved_assigned_wfh_request
insert_picks s date [] w = w
insert_picks s date (p ∷ ps) w =
    insert_picks s date ps
      (picked s date p (create_approved_assigned_wfh_request s p.id date s.now w))

-- The members who are not in the office, as one set.
abbrev pub away : Day → Wfh → List ℕ
away date w =
    leave_member_ids_for_date date w
    ++ (permanent_wfh_member_ids (get_active_team_members w.db) ++ approved_member_ids date w)

-- The subtraction stops at 0 and Go's does not; at most 0 is within every cap.
unfoldable pub on_site_count : Day → Wfh → ℕ
unfolding get_active_team_members leave_member_ids_for_date permanent_wfh_member_ids
    approved_member_ids count_unique_members
on_site_count date w = length (get_active_team_members w.db) - count_unique_members (away date w)

unfoldable pub picker_candidates : Day → Wfh → List TeamMember
unfolding get_active_team_members leave_member_ids_for_date approved_member_ids assign_candidates
picker_candidates date w =
    assign_candidates (get_active_team_members w.db) (leave_member_ids_for_date date w)
      (approved_member_ids date w)

-- How many of the candidates are picked.
unfoldable pub excess_of : ℕ → ℕ → ℕ
excess_of excess candidates = if ltb candidates excess then candidates else excess

unfoldable pub run_picker : Service → Day → Exec Wfh Unit
unfolding get_active_team_members on_site_count picker_candidates excess_of order_by_picker_priority
    insert_picks
run_picker s date w =
    let on_site = on_site_count date w in
    let candidates = picker_candidates date w in
    if is_empty (get_active_team_members w.db) || leb on_site s.cfg.seat_cap
    then ok tt w
    else bind (order_by_picker_priority s candidates date w) (λ ordered w'. ok tt (
        insert_picks s date
          (take (excess_of (on_site - s.cfg.seat_cap) (length candidates)) ordered) w'))

unfoldable pub assign_wfh_for_date : Service → Day → Exec Wfh Unit
unfolding picker_disabled past_date_guard is_picker_active_on_date run_picker
assign_wfh_for_date s date w =
    if picker_disabled s.cfg || (past_date_guard s date || not (is_picker_active_on_date s date))
    then ok tt w
    else run_picker s date w
