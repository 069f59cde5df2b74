-- ===== src/Rota/Reassign.antt =====
-- internal/rota/reassign.go: the covers of all leaves, assigned anew.
pub mod Run
use madhatter.Base.{
  ℕ, suc, ◌+◌, Bool, true, false, not, ◌&&◌, ◌==◌, leb, ltb, if◌then◌else◌, List, [], ◌∷◌, ◌++◌,
  Option, none, some, length,
}
use madhatter.Base.Int.{pos}
use madhatter.Base.Sort.{sort_by}
use madhatter.Calendar.{Day, zero_day}
use madhatter.Store.{LeaveRecord, RotaAssignment, Db}
use madhatter.Store.Exec.{Outcome, Exec, ok, err, bind, after}
use madhatter.Store.Leaves.{get_leave_records}
use madhatter.Store.Assignments.{get_assignments_by_date_range}
use madhatter.Rota.Engine.{Engine, reassign}
use madhatter.Rota.LeaveCovers.{assign_covers_for_leave}
use madhatter.Rota.Maintenance.{reconcile_covers_for_date_range}

pub record ReassignResult : Type 0 where
  pub leaves_processed : ℕ
  pub covers_changed : ℕ
  pub failures : List ℕ

unfoldable pub reassign_handle_leave_change : LeaveRecord → Exec Engine Unit
reassign_handle_leave_change l e =
    bind (reconcile_covers_for_date_range l.start_date l.end_date e)
      λ _ e'. assign_covers_for_leave l.id reassign e'

-- A map from dates to cover members; a write replaces the value of its key.
abbrev pub Snapshot : Type 0
Snapshot = List (Day × ℕ)

unfoldable pub write : Day → ℕ → Snapshot → Snapshot
write date member [] = (date, member) ∷ []
write date member ((other, old) ∷ rest) =
    if other == date then (date, member) ∷ rest else (other, old) ∷ write date member rest

-- A key that is not there reads as the empty text.
unfoldable pub read : Day → Snapshot → ℕ
read date [] = 0
read date ((other, member) ∷ rest) = if other == date then member else read date rest

snapshot_from : List RotaAssignment → Snapshot → Snapshot
snapshot_from [] out = out
snapshot_from (a ∷ rest) out =
    snapshot_from rest (if a.is_cover then write a.date a.member_id out else out)

unfoldable pub snapshot_leave_covers : LeaveRecord → Db → Snapshot
unfolding snapshot_from
snapshot_leave_covers l db =
    if ltb l.end_date l.start_date
    then []
    else snapshot_from (get_assignments_by_date_range l.start_date l.end_date db) []

all_read : Snapshot → Snapshot → Bool
all_read [] b = true
all_read ((date, member) ∷ rest) b = if read date b == member then all_read rest b else false

unfoldable pub same_cover_set : Snapshot → Snapshot → Bool
unfolding all_read
same_cover_set a b = if not (length a == length b) then false else all_read a b

-- What the loop records of a leave, from the tables before its turn and the outcome.
unfoldable pub recorded :
    LeaveRecord → ReassignResult → Db → Outcome Engine Unit → ReassignResult × Engine
recorded l result before (err x e') =
    (record result { failures = result.failures ++ l.id ∷ [] }, e')
recorded l result before (ok u e') = (
  record result {
    leaves_processed = suc result.leaves_processed;
    covers_changed =
        if same_cover_set (snapshot_leave_covers l before) (snapshot_leave_covers l e'.db)
        then result.covers_changed
        else suc result.covers_changed;
  },
  e',
)

-- One leave of the loop: a failure is recorded, and the loop goes on from what it left.
unfoldable pub reassign_leave : LeaveRecord → ReassignResult → Engine → ReassignResult × Engine
unfolding recorded
reassign_leave l result e = recorded l result e.db (reassign_handle_leave_change l e)

unfoldable pub reassign_leaves :
    List LeaveRecord → ReassignResult → Engine → ReassignResult × Engine
unfolding reassign_leave
reassign_leaves [] result e = (result, e)
reassign_leaves (l ∷ rest) result e =
    let (result', e') = reassign_leave l result e in reassign_leaves rest result' e'

abbrev pub reset_reassign : Engine → Engine
reset_reassign e = record e { reassign_last_date = zero_day; reassign_last_index = pos 0 }

-- Oldest start first. `sort.Slice` fixes no order of leaves that start on one day; here it is that of
-- the rows that were read.
abbrev pub oldest_first : Db → List LeaveRecord
oldest_first db =
    sort_by (λ (a b : LeaveRecord). leb a.start_date b.start_date) (get_leave_records db)

abbrev pub nothing_done : ReassignResult
nothing_done = record { leaves_processed = 0; covers_changed = 0; failures = [] }

-- The memory is reset before and after the run.
unfoldable pub reassign_covers : Engine → ReassignResult × Engine
unfolding reassign_leaves
reassign_covers e =
    let (result, e') = reassign_leaves (oldest_first e.db) nothing_done (reset_reassign e) in
    (result, reset_reassign e')
