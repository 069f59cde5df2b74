-- ===== src/Wfh/Recurring.antt =====
-- internal/wfh/recurring_materializer.go: the rows of the contractual days.
pub mod Team
pub mod Preserves
use madhatter.Base.{
  ℕ, zero, suc, ◌+◌, ◌-◌, Bool, true, false, not, ◌&&◌, ◌==◌, ltb, if◌then◌else◌, List, [], ◌∷◌,
  Option, none, some,
}
use madhatter.Calendar.{Day}
use madhatter.Store.{TeamMember}
use madhatter.Store.Members.{
  get_active_team_members, get_member_by_id, is_recurring_wfh_on, has_any_recurring_wfh,
}
use madhatter.Store.Exec.{Exec, Error, Outcome, ok, err, wfh_duplicate_request, no_rows}
use madhatter.Wfh.{Wfh, Service, today_utc}
use madhatter.Wfh.Requests.{has_wfh_request_on_date}
use madhatter.Wfh.Requests.Create.{create_approved_recurring_wfh_request}

-- The number of rows inserted, and the error that ended the work, or the last one of several.
abbrev pub Filled : Type 0
Filled = ℕ × Option Error × Wfh

-- A duplicate is a row that is there already.
fatal : Error → Option Error
fatal wfh_duplicate_request = none
fatal e = some e

-- After the INSERT of one day: whether a row went in, or the error to return.
unfoldable pub day_filled : Outcome Wfh Unit → Filled
unfolding fatal
day_filled (ok _ w) = (1, none, w)
day_filled (err e w) = (0, fatal e, w)

-- The body of the loop over the dates.
unfoldable pub materialize_day : Service → TeamMember → Day → Wfh → Filled
unfolding day_filled is_recurring_wfh_on has_wfh_request_on_date
    create_approved_recurring_wfh_request
materialize_day s m date w =
    if not (is_recurring_wfh_on m date)
    then (0, none, w)
    else if has_wfh_request_on_date m.id date w
    then (0, none, w)
    else day_filled (create_approved_recurring_wfh_request s m.id date s.now w)

-- The loop over `n` dates, which an error ends.
unfoldable pub materialize_days : Service → TeamMember → Day → ℕ → ℕ → Wfh → Filled
unfolding materialize_day
materialize_days s m date zero inserted w = (inserted, none, w)
materialize_days s m date (suc n) inserted w =
    let r : Filled = materialize_day s m date w in
    elim r.1 [
      | some e ↦ (inserted + r.0, some e, r.2)
      | none ↦ materialize_days s m (suc date) n (inserted + r.0) r.2
    ]

unfoldable pub materialize_for_member : Service → TeamMember → Day → Day → Wfh → Filled
unfolding materialize_days
materialize_for_member s m start last = materialize_days s m start (suc last - start) 0

abbrev pub later_error : Option Error → Option Error → Option Error
later_error none last = last
later_error (some e) last = some e

-- The loop over the members, which an error does not end.
unfoldable pub materialize_members :
    Service → Day → Day → List TeamMember → ℕ → Option Error → Wfh → Filled
unfolding has_any_recurring_wfh materialize_for_member later_error
materialize_members s start last [] inserted e w = (inserted, e, w)
materialize_members s start last (m ∷ ms) inserted e w =
    let r : Filled = materialize_for_member s m start last w in
    if not (has_any_recurring_wfh m)
    then materialize_members s start last ms inserted e w
    else materialize_members s start last ms (inserted + r.0) (later_error r.1 e) r.2

abbrev pub effective_start : Service → Day → Day
effective_start s start = if ltb start (today_utc s) then today_utc s else start

unfoldable pub ensure_recurring_materialized : Service → Day → Day → Wfh → Filled
unfolding get_active_team_members materialize_members
ensure_recurring_materialized s start last w =
    if ltb last start
    then (0, none, w)
    else if ltb last (effective_start s start)
    then (0, none, w)
    else materialize_members s (effective_start s start) last (get_active_team_members w.db) 0 none
        w

unfoldable pub ensure_recurring_materialized_for_member : Service → ℕ → Day → Day → Wfh → Filled
unfolding has_any_recurring_wfh materialize_for_member
ensure_recurring_materialized_for_member s member_id start last w =
    if ltb last start
    then (0, none, w)
    else if ltb last (effective_start s start)
    then (0, none, w)
    else elim (get_member_by_id member_id w.db) [
      | none ↦ (0, some no_rows, w)
      | some m ↦
          if not (has_any_recurring_wfh m)
          then (0, none, w)
          else materialize_for_member s m (effective_start s start) last w
    ]
