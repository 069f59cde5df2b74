-- ===== src/Swap/Execute.antt =====
-- `ExecuteSwap` and what it calls in internal/database/hat_swaps.go.
pub mod Transfer
pub mod Effect
pub mod Settled
use madhatter.Base.{
  ℕ, Bool, true, false, not, ◌&&◌, ◌||◌, ◌==◌, ltb, if◌then◌else◌, List, Option, none, some, find,
  update,
}
use madhatter.Calendar.{Day}
use madhatter.Store.{RotaAssignment, HatSwap, accepted, Db, has_member}
use madhatter.Store.Exec.{
  Exec, Outcome, ok, err, bind, no_rows, swap_not_pending, swap_target_self, swap_date_passed,
  foreign_key_violation,
}
use madhatter.Store.Assignments.{get_assignment_by_id, has_assignment}
use madhatter.Swap.{is_pending, get_hat_swap_by_id, update_hat_swap_status}

abbrev pub set_assignment : ℕ → (RotaAssignment → RotaAssignment) → Db → Db
set_assignment id f db = record db {
  assignments = update (λ (a : RotaAssignment). a.id == id) f db.assignments;
}

-- The foreign key is checked for a row that is written.
unfoldable pub update_assignment_member : ℕ → ℕ → Exec Db Unit
update_assignment_member id member_id db =
    if has_assignment id db.assignments && not (has_member member_id db.members)
    then err foreign_key_violation db
    else ok tt (set_assignment id (λ (a : RotaAssignment). record a { member_id = member_id }) db)

unfoldable pub mark_assignment_swapped : ℕ → Exec Db Unit
mark_assignment_swapped id db =
    ok tt (set_assignment id (λ (a : RotaAssignment). record a { is_swapped = true }) db)

-- A transaction: an error rolls back what was written.
abbrev pub in_tx : {A : Type 0} → Exec Db A → Exec Db A
in_tx m db = elim (m db) [ ok a db' ↦ ok a db' | err x db' ↦ err x db ]

unfoldable pub execute_swap_tx : RotaAssignment → RotaAssignment → HatSwap → Exec Db Unit
unfolding update_assignment_member mark_assignment_swapped
execute_swap_tx req tgt swap db =
    bind (update_assignment_member req.id swap.target_member_id db) λ _ db1.
      bind (update_assignment_member tgt.id swap.requester_member_id db1) λ _ db2.
        bind (mark_assignment_swapped req.id db2) λ _ db3.
          bind (mark_assignment_swapped tgt.id db3)
            λ _ db4. update_hat_swap_status swap.id accepted db4

unfoldable pub load_swap_assignments_for_execution :
    Day → HatSwap → Exec Db (RotaAssignment × RotaAssignment)
load_swap_assignments_for_execution today swap db =
    elim (get_assignment_by_id swap.requester_assignment_id db) [
      | none ↦ err no_rows db
      | some req ↦ elim (get_assignment_by_id swap.target_assignment_id db) [
        | none ↦ err no_rows db
        | some tgt ↦
            if swap.requester_member_id == swap.target_member_id
            then err swap_target_self db
            else if req.member_id == tgt.member_id
            then err swap_target_self db
            else if ltb req.date today || ltb tgt.date today
            then err swap_date_passed db
            else ok (req, tgt) db
      ]
    ]

unfoldable pub execute_swap : Day → ℕ → Exec Db Unit
unfolding load_swap_assignments_for_execution execute_swap_tx
execute_swap today swap_id db = elim (get_hat_swap_by_id swap_id db) [
  | none ↦ err no_rows db
  | some swap ↦
      if not (is_pending swap.status)
      then err swap_not_pending db
      else bind (load_swap_assignments_for_execution today swap db)
          λ pair db'. in_tx (execute_swap_tx pair.0 pair.1 swap) db'
]
