-- ===== src/Store/Leaves.antt =====
-- internal/database/leave.go and its queries.
use madhatter.Base.{
  ℕ, suc, Bool, true, not, ◌&&◌, ◌||◌, ◌==◌, leb, ltb, if◌then◌else◌, List, [], ◌∷◌, ◌++◌, none,
  some, Text, text_eq, codes, keep, find, update,
}
use madhatter.Base.Sort.{sort_by}
use madhatter.Calendar.{Day}
use madhatter.Store.{LeaveRecord, Db, has_member}
use madhatter.Store.Exec.{Exec, ok, err, no_rows, fields_required, member_not_found, bad_date_order}

abbrev pub leave_type_leave : Text
leave_type_leave = codes "leave"

abbrev pub leave_type_conference : Text
leave_type_conference = codes "conference"

unfoldable pub is_valid_leave_type : Text → Bool
is_valid_leave_type v = if text_eq v leave_type_leave then true else text_eq v leave_type_conference

-- `WHERE ? >= start_date AND ? <= end_date AND status != 'completed'`.
unfoldable pub is_leave_on : Day → LeaveRecord → Bool
is_leave_on date l =
    leb l.start_date date && (leb date l.end_date && not (text_eq l.status (codes "completed")))

unfoldable pub get_leave_by_date : Day → Db → List LeaveRecord
unfolding is_leave_on
get_leave_by_date date db = keep (is_leave_on date) db.leaves

unfoldable pub get_leave_by_id : ℕ → Exec Db LeaveRecord
get_leave_by_id id db = elim (find (λ (l : LeaveRecord). l.id == id) db.leaves) [
  | none ↦ err no_rows db
  | some l ↦ ok l db
]

-- With no filter: `ORDER BY start_date DESC`.
unfoldable pub get_leave_records : Db → List LeaveRecord
get_leave_records db = sort_by (λ (a b : LeaveRecord). leb b.start_date a.start_date) db.leaves

unfoldable pub update_leave_status : ℕ → Text → Exec Db Unit
update_leave_status id status db = ok tt (record db {
  leaves =
      update (λ (l : LeaveRecord). l.id == id) (λ (l : LeaveRecord). record l { status = status })
        db.leaves;
})

-- The two dates, if they are in order.
unfoldable pub parse_leave_dates : Day → Day → Exec Db (Day × Day)
parse_leave_dates start_date end_date db =
    if ltb end_date start_date then err bad_date_order db else ok (start_date, end_date) db

unfoldable pub create_leave_record : ℕ → Day → Day → Text → Exec Db ℕ
unfolding parse_leave_dates
create_leave_record member_id start_date end_date leave_type db =
    if member_id == 0
    then err fields_required db
    else if not (has_member member_id db.members)
    then err member_not_found db
    else if ltb end_date start_date
    then err bad_date_order (record db { drawn = suc db.drawn })
    else ok (db.uuid db.drawn) (record db {
      leaves =
          db.leaves
          ++ record {
            id = db.uuid db.drawn;
            member_id = member_id;
            start_date = start_date;
            end_date = end_date;
            cover_member_id = 0;
            status = codes "pending";
            leave_type = if is_valid_leave_type leave_type then leave_type else leave_type_leave;
          }
            ∷ [];
      drawn = suc db.drawn;
    })

unfoldable pub update_leave_record : ℕ → ℕ → Day → Day → Text → Text → Exec Db Unit
update_leave_record leave_id member_id start_date end_date status leave_type db =
    if leave_id == 0 || (member_id == 0 || text_eq status [])
    then err fields_required db
    else if not (has_member member_id db.members)
    then err member_not_found db
    else if ltb end_date start_date
    then err bad_date_order db
    else ok tt (record db {
      leaves =
          update (λ (l : LeaveRecord). l.id == leave_id)
            (λ (l : LeaveRecord). record l {
              member_id = member_id;
              start_date = start_date;
              end_date = end_date;
              status = status;
              leave_type = if is_valid_leave_type leave_type then leave_type else leave_type_leave;
            })
            db.leaves;
    })

unfoldable pub delete_leave_record : ℕ → Exec Db Unit
delete_leave_record id db =
    if id == 0
    then err fields_required db
    else ok tt (record db { leaves = keep (λ (l : LeaveRecord). not (l.id == id)) db.leaves })

-- `today` is the date of the call.
unfoldable pub delete_expired_leave_records : Day → Exec Db Unit
delete_expired_leave_records today db =
    ok tt (record db { leaves = keep (λ (l : LeaveRecord). not (ltb l.end_date today)) db.leaves })
