-- ===== src/Rota/LeaveCovers.antt =====
-- Covers of a leave: `AssignCoversForLeave` and what it calls in internal/rota/engine.go.
pub mod Frame
pub mod Shown
pub mod Untouched
mod Given
pub mod Chosen
use madhatter.Base.{
  ℕ, zero, suc, ◌-◌, Bool, true, false, not, ◌&&◌, ◌||◌, ◌==◌, if◌then◌else◌, List, [], ◌∷◌, ◌++◌,
  Option, none, some, length, find, update, codes, is_empty,
}
use madhatter.Calendar.{Day, should_skip_date}
use madhatter.Store.{TeamMember, LeaveRecord, RotaAssignment, Db, has_member}
use madhatter.Store.Exec.{Exec, ok, err, bind, ◌>>=◌, ◌>>◌, gets, pure, foreign_key_violation}
use madhatter.Store.Members.{get_active_team_members}
use madhatter.Store.Leaves.{get_leave_by_date, get_leave_by_id, update_leave_status}
use madhatter.Store.Assignments.{get_assignments_by_date, create_rota_assignment}
use madhatter.Rota.Cover.{find_cover, is_leave_active, member_name_by_id}
use madhatter.Rota.Engine.{
  Engine, CoverEvent, RotationSource, ad_hoc, reassign, on_db, compute_rotation_index,
  record_actual_cover_slot_for,
}

abbrev pub is_original_of : LeaveRecord → RotaAssignment → Bool
is_original_of leave a = a.member_id == leave.member_id && not a.is_cover

abbrev pub is_linked : Option ℕ → Bool
is_linked none = false
is_linked (some id) = true

abbrev pub is_cover_of : LeaveRecord → RotaAssignment → Bool
is_cover_of leave a =
    a.member_id == leave.member_id && (a.is_cover && is_linked a.original_assignment_id)

-- `none` is `errMemberNotScheduled`.
unfoldable pub ensure_original_assignment : Day → LeaveRecord → Db → Option ℕ
ensure_original_assignment date leave db =
    elim (find (is_original_of leave) (get_assignments_by_date date db)) [
      | some a ↦ some a.id
      | none ↦ elim (find (is_cover_of leave) (get_assignments_by_date date db)) [
        | some a ↦ a.original_assignment_id
        | none ↦ none
      ]
    ]

-- `UPDATE … WHERE date = ? AND is_cover = 1 AND is_swapped = 0`.
abbrev pub is_free_cover : Day → RotaAssignment → Bool
is_free_cover date a = a.date == date && (a.is_cover && not a.is_swapped)

unfoldable pub repoint_cover : Day → ℕ → Exec Db Unit
repoint_cover date cover_member_id db =
    if has_member cover_member_id db.members
    then ok tt (record db {
      assignments =
          update (is_free_cover date)
            (λ (a : RotaAssignment). record a { member_id = cover_member_id }) db.assignments;
    })
    else err foreign_key_violation db

-- The loop returns at the first cover of the date.
unfoldable pub create_cover_assignment : Day → ℕ → ℕ → Exec Db Unit
unfolding repoint_cover
create_cover_assignment date cover_member_id original_assignment_id db =
    elim (find (λ (a : RotaAssignment). a.is_cover) (get_assignments_by_date date db)) [
      | some a ↦
          if a.is_swapped
          then ok tt db
          else if a.member_id == cover_member_id
          then ok tt db
          else repoint_cover date cover_member_id db
      | none ↦
          bind (create_rota_assignment date cover_member_id true (some original_assignment_id) db)
            (λ _ db'. ok tt db')
    ]

-- The id of the cover; 0 is the empty text, for a date with none.
unfoldable pub process_leave_date :
    Day → List TeamMember → LeaveRecord → ℕ → RotationSource → Exec Engine ℕ
process_leave_date d members leave leave_id src e =
    if should_skip_date e.holiday_checker d
    then ok 0 e
    else elim (ensure_original_assignment d leave e.db) [
      | none ↦ ok 0 e
      | some original_assignment_id ↦
          elim (find_cover members (get_leave_by_date d e.db)
            (compute_rotation_index src d (length members) e)) [
              | none ↦ ok 0 e
              | some cover ↦
                  bind (on_db (create_cover_assignment d cover.id original_assignment_id) e) λ _ e1.
                    bind (on_db (update_leave_status leave_id (codes "assigned")) e1) λ _ e2.
                      bind (record_actual_cover_slot_for src d members cover.id e2)
                        λ _ e3. ok cover.id e3
            ]
    ]

-- `coverDates[id] = append(coverDates[id], date)`.
abbrev pub CoverDates : Type 0
CoverDates = List (ℕ × List Day)

unfoldable pub add_date : ℕ → Day → CoverDates → CoverDates
add_date id d [] = (id, d ∷ []) ∷ []
add_date id d ((other, dates) ∷ rest) =
    if other == id then (other, dates ++ d ∷ []) ∷ rest else (other, dates) ∷ add_date id d rest

-- The loop over the `n` dates from `d` on.
unfoldable pub process_leave_dates :
    LeaveRecord
    → List TeamMember
    → ℕ
    → RotationSource
    → Day
    → ℕ
    → CoverDates
    → Exec Engine CoverDates
process_leave_dates leave members leave_id src d zero covered e = ok covered e
process_leave_dates leave members leave_id src d (suc n) covered e =
    bind (process_leave_date d members leave leave_id src e) λ cover_id e'.
      process_leave_dates leave members leave_id src (suc d) n
        (if cover_id == 0 then covered else add_date cover_id d covered) e'

-- The last date of a list that begins with `first`.
last_date : Day → List Day → Day
last_date first [] = first
last_date first (d ∷ dates) = last_date d dates

cover_events : LeaveRecord → List TeamMember → CoverDates → List CoverEvent
unfolding last_date
cover_events leave members [] = []
cover_events leave members ((cover_id, []) ∷ rest) = cover_events leave members rest
cover_events leave members ((cover_id, first ∷ dates) ∷ rest) =
    record {
      leave_id = leave.id;
      leave_member_id = leave.member_id;
      leave_member_name = member_name_by_id members leave.member_id;
      cover_member_id = cover_id;
      cover_member_name = member_name_by_id members cover_id;
      start_date = first;
      end_date = last_date first dates;
    }
    ∷ cover_events leave members rest

-- The order of the events is that of a Go map, which is not fixed; here it is that of the first dates.
unfoldable pub fire_cover_assigned : LeaveRecord → List TeamMember → CoverDates → Exec Engine Unit
unfolding cover_events
fire_cover_assigned leave members cover_dates e =
    if not e.notifying || is_empty cover_dates
    then ok tt e
    else ok tt (record e { events = e.events ++ cover_events leave members cover_dates })

unfoldable pub assign_covers_for_leave : ℕ → RotationSource → Exec Engine Unit
assign_covers_for_leave leave_id src e = bind (on_db (get_leave_by_id leave_id) e) λ leave e1.
    if not (is_leave_active leave.status)
    then ok tt e1
    else let members = get_active_team_members e1.db in
      bind
        (process_leave_dates leave members leave_id src leave.start_date
          (suc leave.end_date - leave.start_date) [] e1)
        λ cover_dates e2. elim src [
          | ad_hoc ↦ fire_cover_assigned leave members cover_dates e2
          | reassign ↦ ok tt e2
        ]
