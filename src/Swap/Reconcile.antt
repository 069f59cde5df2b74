-- ===== src/Swap/Reconcile.antt =====
-- Repair of accepted swaps: `ReconcileAcceptedSwap` and what it calls in internal/database/hat_swaps.go.
pub mod Clean
pub mod Twice
pub mod Dry
use madhatter.Base.{
  ℕ, Bool, true, false, not, ◌&&◌, ◌||◌, ◌==◌, if◌then◌else◌, List, [], ◌∷◌, ◌++◌, Option, none,
  some, keep, is_empty,
}
use madhatter.Store.{RotaAssignment, HatSwap, Db}
use madhatter.Store.Exec.{Exec, Error, ok, err, bind, no_rows, swap_not_pending, swap_not_found}
use madhatter.Store.Assignments.{get_assignment_by_id}
use madhatter.Swap.{is_accepted, get_hat_swap_by_id}
use madhatter.Swap.Execute.{update_assignment_member, mark_assignment_swapped, in_tx}

-- The field of a change is the constructor; its arguments are the old and the new value.
pub data FieldChange : Type 0 where
  member_id : ℕ → ℕ → FieldChange
  is_swapped : Bool → Bool → FieldChange
  error : Error → FieldChange

pub record HatSwapReconcileResult : Type 0 where
  pub swap_id : ℕ
  pub requester_drift : List FieldChange
  pub target_drift : List FieldChange
  pub assignment_missing : Bool

unfoldable pub get_accepted_swaps : Db → List HatSwap
get_accepted_swaps db = keep (λ (s : HatSwap). is_accepted s.status) db.hat_swaps

unfoldable pub load_accepted_swap_for_reconcile : ℕ → Exec Db HatSwap
load_accepted_swap_for_reconcile swap_id db = elim (get_hat_swap_by_id swap_id db) [
  | none ↦ err swap_not_found db
  | some swap ↦ if is_accepted swap.status then ok swap db else err swap_not_pending db
]

-- The drift of one side: its assignment against the member it should have.
unfoldable pub side_drift : ℕ → RotaAssignment → List FieldChange
side_drift expected a =
    (if a.member_id == expected then [] else member_id a.member_id expected ∷ [])
    ++ (if a.is_swapped then [] else is_swapped a.is_swapped true ∷ [])

unfoldable pub compute_reconcile_drift :
    HatSwapReconcileResult → HatSwap → RotaAssignment → RotaAssignment → HatSwapReconcileResult
unfolding side_drift
compute_reconcile_drift result swap req tgt = record result {
  requester_drift = result.requester_drift ++ side_drift swap.target_member_id req;
  target_drift = result.target_drift ++ side_drift swap.requester_member_id tgt;
}

unfoldable pub apply_reconciliation : HatSwap → Exec Db Unit
unfolding update_assignment_member mark_assignment_swapped
apply_reconciliation swap = in_tx λ db.
    bind (update_assignment_member swap.requester_assignment_id swap.target_member_id db) λ _ db1.
      bind (mark_assignment_swapped swap.requester_assignment_id db1) λ _ db2.
        bind (update_assignment_member swap.target_assignment_id swap.requester_member_id db2)
          λ _ db3. mark_assignment_swapped swap.target_assignment_id db3

-- The result comes with the error, as in Go.
abbrev pub Reconciled : Type 0
Reconciled = HatSwapReconcileResult × Option Error

unfoldable pub reconcile_accepted_swap : ℕ → Bool → Exec Db Reconciled
unfolding load_accepted_swap_for_reconcile compute_reconcile_drift apply_reconciliation
reconcile_accepted_swap swap_id apply db =
    let result : HatSwapReconcileResult = record {
      swap_id = swap_id;
      requester_drift = [];
      target_drift = [];
      assignment_missing = false;
    } in
    let missing : HatSwapReconcileResult = record result { assignment_missing = true } in
    elim (load_accepted_swap_for_reconcile swap_id db) [
      | err x db' ↦ ok (result, some x) db'
      | ok swap db' ↦ elim (get_assignment_by_id swap.requester_assignment_id db') [
        | none ↦ ok (missing, some no_rows) db'
        | some req ↦ elim (get_assignment_by_id swap.target_assignment_id db') [
          | none ↦ ok (missing, some no_rows) db'
          | some tgt ↦
              let r : HatSwapReconcileResult = compute_reconcile_drift result swap req tgt in
              if not apply || (is_empty r.requester_drift && is_empty r.target_drift)
              then ok (r, none) db'
              else elim (apply_reconciliation swap db') [
                | ok u db2 ↦ ok (r, none) db2
                | err x db2 ↦ ok (r, some x) db2
              ]
        ]
      ]
    ]

abbrev pub failed : ℕ → Error → HatSwapReconcileResult
failed id x = record {
  swap_id = id;
  requester_drift = error x ∷ [];
  target_drift = [];
  assignment_missing = false;
}

abbrev pub shown : ℕ → Reconciled → HatSwapReconcileResult
shown id (r, none) = r
shown id (r, some x) = failed id x

-- The loop: an error of one swap is shown in its result, and the next one is taken.
unfoldable pub reconcile_each : Bool → List HatSwap → Exec Db (List HatSwapReconcileResult)
unfolding reconcile_accepted_swap
reconcile_each apply [] db = ok [] db
reconcile_each apply (s ∷ rest) db =
    bind (reconcile_accepted_swap s.id apply db)
      λ r db1. bind (reconcile_each apply rest db1) (λ rs db2. ok (shown s.id r ∷ rs) db2)

unfoldable pub reconcile_all_accepted_swaps : Bool → Exec Db (List HatSwapReconcileResult)
unfolding get_accepted_swaps reconcile_each
reconcile_all_accepted_swaps apply db = reconcile_each apply (get_accepted_swaps db) db
