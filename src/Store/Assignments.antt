-- ===== src/Store/Assignments.antt =====
-- The rows of `rota_assignments`: internal/database/rota.go and its queries, with the constraints of
-- the table: the primary key, UNIQUE(date, is_cover), and the foreign keys.
pub mod Create
use madhatter.Base.{
  ℕ, suc, Bool, true, false, not, ◌&&◌, ◌||◌, ◌==◌, leb, if◌then◌else◌, List, [], ◌∷◌, ◌++◌, Option,
  none, some, keep, find, update, any,
}
use madhatter.Base.Sort.{sort_by}
use madhatter.Calendar.{Day}
use madhatter.Store.{RotaAssignment, HatSwap, Db, has_member}
use madhatter.Store.Exec.{
  Exec, ok, err, fields_required, member_not_found, unique_violation, foreign_key_violation,
}

abbrev pub same_bool : Bool → Bool → Bool
same_bool true b = b
same_bool false b = not b

-- A row with this id, or of the same date and kind, is there.
abbrev pub clashes : RotaAssignment → RotaAssignment → Bool
clashes row a = a.id == row.id || (a.date == row.date && same_bool a.is_cover row.is_cover)

abbrev pub has_assignment : ℕ → List RotaAssignment → Bool
has_assignment id rows = any (λ (a : RotaAssignment). a.id == id) rows

abbrev pub original_present : Option ℕ → List RotaAssignment → Bool
original_present none rows = true
original_present (some id) rows = has_assignment id rows

-- The INSERT, with what the table checks.
insert_assignment : RotaAssignment → Exec Db ℕ
insert_assignment row db =
    if any (clashes row) db.assignments
    then err unique_violation db
    else if original_present row.original_assignment_id db.assignments
    then ok row.id (record db { assignments = db.assignments ++ row ∷ [] })
    else err foreign_key_violation db

unfoldable pub create_rota_assignment : Day → ℕ → Bool → Option ℕ → Exec Db ℕ
unfolding insert_assignment
create_rota_assignment date member_id is_cover original_assignment_id db =
    if member_id == 0
    then err fields_required db
    else if not (has_member member_id db.members)
    then err member_not_found db
    else insert_assignment
        (record {
          id = db.uuid db.drawn;
          date = date;
          member_id = member_id;
          is_cover = is_cover;
          is_swapped = false;
          original_assignment_id = original_assignment_id;
        })
        (record db { drawn = suc db.drawn })

-- The JOIN with `team_members` drops a row whose member is not there.
abbrev pub on_date : Day → Db → RotaAssignment → Bool
on_date date db a = a.date == date && has_member a.member_id db.members

unfoldable pub get_assignments_by_date : Day → Db → List RotaAssignment
get_assignments_by_date date db = keep (on_date date db) db.assignments

abbrev pub in_range : Day → Day → Db → RotaAssignment → Bool
in_range start end db a = leb start a.date && (leb a.date end && has_member a.member_id db.members)

-- `ORDER BY ra.date`.
unfoldable pub get_assignments_by_date_range : Day → Day → Db → List RotaAssignment
get_assignments_by_date_range start end db =
    sort_by (λ (a b : RotaAssignment). leb a.date b.date)
      (keep (in_range start end db) db.assignments)

abbrev pub get_assignment_by_id : ℕ → Db → Option RotaAssignment
get_assignment_by_id id db = find (λ (a : RotaAssignment). a.id == id) db.assignments

-- `ON DELETE SET NULL` for the covers of a deleted row.
abbrev pub unlink : (ℕ → Bool) → RotaAssignment → RotaAssignment
unlink gone a = elim a.original_assignment_id [
  | none ↦ a
  | some id ↦ if gone id then record a { original_assignment_id = none } else a
]

-- The rows that pass `doomed` are deleted, the references of the others to them are set to NULL, and
-- the swaps of a deleted row go with it (`ON DELETE CASCADE`).
delete_where : (RotaAssignment → Bool) → Db → Db
delete_where doomed db = record db {
  assignments =
      update (λ a. true) (unlink gone)
        (keep (λ (a : RotaAssignment). not (doomed a)) db.assignments);
  hat_swaps =
      keep (λ (s : HatSwap). not (gone s.requester_assignment_id || gone s.target_assignment_id))
        db.hat_swaps;
}
  where
    gone : ℕ → Bool
    gone id = any (λ (a : RotaAssignment). doomed a && a.id == id) db.assignments

unfoldable pub delete_rota_assignment : ℕ → Exec Db Unit
unfolding delete_where
delete_rota_assignment id db = ok tt (delete_where (λ (a : RotaAssignment). a.id == id) db)

unfoldable pub delete_assignments_in_range : Day → Day → Exec Db Unit
unfolding delete_where
delete_assignments_in_range start end db =
    ok tt (delete_where (λ (a : RotaAssignment). leb start a.date && leb a.date end) db)

-- `SELECT MAX(date)`; `none` is the empty text.
unfoldable pub get_latest_assignment_date : Db → Option Day
get_latest_assignment_date db = latest db.assignments
  where
    later : Day → Option Day → Day
    later d none = d
    later d (some e) = if leb e d then d else e

    latest : List RotaAssignment → Option Day
    latest [] = none
    latest (a ∷ rows) = some (later a.date (latest rows))
