-- ===== src/Store/Members.antt =====
-- Team members: the queries of internal/database/db.go that the scheduler uses, and the recurring
-- working-from-home days of internal/database/models.go.
use madhatter.Base.{
  ℕ, Bool, false, ◌&&◌, ◌||◌, ◌==◌, if◌then◌else◌, List, Option, text_leb, keep, find, update,
}
use madhatter.Base.Sort.{sort_by}
use madhatter.Calendar.{Day, weekday}
use madhatter.Store.{TeamMember, RecurringWfhDays, Db}
use madhatter.Store.Exec.{Exec, ok, err, fields_required}

-- `WHERE is_active = 1 ORDER BY name`.
unfoldable pub get_active_team_members : Db → List TeamMember
get_active_team_members db =
    sort_by (λ (a b : TeamMember). text_leb a.name b.name)
      (keep (λ (m : TeamMember). m.is_active) db.members)

-- `none` is `sql.ErrNoRows`.
abbrev pub get_member_by_id : ℕ → Db → Option TeamMember
get_member_by_id id db = find (λ (m : TeamMember). m.id == id) db.members

unfoldable pub has_permanent_recurring_wfh : TeamMember → Bool
has_permanent_recurring_wfh m = monday && (tuesday && (wednesday && (thursday && friday)))
  where
    open m.recurring use {monday, tuesday, wednesday, thursday, friday}

unfoldable pub has_any_recurring_wfh : TeamMember → Bool
has_any_recurring_wfh m = monday || (tuesday || (wednesday || (thursday || friday)))
  where
    open m.recurring use {monday, tuesday, wednesday, thursday, friday}

-- The `switch` on the weekday, Monday first; Saturday and Sunday fall to the end.
unfoldable pub is_recurring_wfh_on : TeamMember → Day → Bool
is_recurring_wfh_on m date =
    if weekday date == 0
    then monday
    else if weekday date == 1
    then tuesday
    else if weekday date == 2
    then wednesday
    else if weekday date == 3
    then thursday
    else if weekday date == 4
    then friday
    else false
  where
    open m.recurring use {monday, tuesday, wednesday, thursday, friday}

set_members : (ℕ → Bool) → (TeamMember → TeamMember) → Db → Db
set_members p f db = record db { members = update (λ (m : TeamMember). p m.id) f db.members }

unfoldable pub set_team_member_recurring_wfh_days : ℕ → RecurringWfhDays → Exec Db Unit
unfolding set_members
set_team_member_recurring_wfh_days id days db =
    if id == 0
    then err fields_required db
    else ok tt (set_members (λ i. i == id) (λ m. record m { recurring = days }) db)

unfoldable pub set_team_member_permanent_wfh : ℕ → Bool → Exec Db Unit
unfolding set_team_member_recurring_wfh_days
set_team_member_permanent_wfh id is_permanent = set_team_member_recurring_wfh_days id (record {
  monday = is_permanent;
  tuesday = is_permanent;
  wednesday = is_permanent;
  thursday = is_permanent;
  friday = is_permanent;
})

unfoldable pub set_team_member_exempt_from_assignment : ℕ → Bool → Exec Db Unit
unfolding set_members
set_team_member_exempt_from_assignment id exempt db =
    if id == 0
    then err fields_required db
    else ok tt
        (set_members (λ i. i == id) (λ m. record m { is_exempt_from_assignment = exempt }) db)
