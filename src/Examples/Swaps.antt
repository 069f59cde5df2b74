-- ===== src/Examples/Swaps.antt =====
-- Runs of the swaps of internal/database/hat_swaps.go.
use madhatter.Base.{◌≡◌, refl, arith, true, false, List, [], ◌∷◌, none}
use madhatter.Store.{accepted, rejected, Db}
use madhatter.Store.Exec.{ok, after}
use madhatter.Swap.{update_hat_swap_status}
use madhatter.Swap.Execute.{execute_swap}
use madhatter.Swap.Execute.Effect.{Executed, execute_swap-Executed}
use madhatter.Swap.Execute.Settled.{reconcile_after_execute}
use madhatter.Swap.Reconcile.{
  member_id, is_swapped, HatSwapReconcileResult, reconcile_accepted_swap,
  load_accepted_swap_for_reconcile, compute_reconcile_drift, apply_reconciliation, side_drift,
}
use madhatter.Swap.Reconcile.Clean.{clean}
use madhatter.Swap.Reconcile.Twice.{reconcile_twice}
use madhatter.Swap.Execute.{update_assignment_member, mark_assignment_swapped}
use madhatter.Base.{List, length}
use madhatter.Swap.{create_hat_swap}
use madhatter.Swap.Created.{SwapCreated, create_hat_swap-SwapCreated}
use madhatter.Swap.Reconcile.{get_accepted_swaps, reconcile_all_accepted_swaps}
use madhatter.Swap.Reconcile.Dry.{reconcile_all-dry}
use madhatter.Swap.Exclusive.{Exclusive}
use madhatter.Swap.Exclusive.Calls.{
  SwapCall, create, set_status, execute, run_all, swaps_stay-Exclusive,
}
use madhatter.Examples.{swap, office}

abbrev swapped : Db
swapped = after (execute_swap 20 50 office)

swaps_office : execute_swap 20 50 office ≡ ok tt swapped
unfolding execute_swap update_hat_swap_status
swaps_office = refl

execute_swap-Executed_example : Executed 20 50 office (execute_swap 20 50 office)
execute_swap-Executed_example = execute_swap-Executed 20 50 office

reconcile_after_execute_example :
    reconcile_accepted_swap 50 true swapped
    ≡ ok
        (
          record {
            swap_id = 50;
            requester_drift = [];
            target_drift = [];
            assignment_missing = false;
          },
          none,
        )
        swapped
reconcile_after_execute_example = reconcile_after_execute 20 50 office swapped swaps_office true

abbrev calls : List SwapCall
calls = create 11 10 2 1 ∷ set_status 50 rejected ∷ create 11 10 2 1 ∷ execute 20 100 ∷ []

office-Exclusive : Exclusive office.hat_swaps
unfolding Exclusive
office-Exclusive = (tt, tt)

swaps_stay-Exclusive_example : Exclusive (run_all calls office).hat_swaps
swaps_stay-Exclusive_example = swaps_stay-Exclusive calls office office-Exclusive

-- The swap is accepted, but its assignments were never handed over.
abbrev drifted : Db
drifted = record office { hat_swaps = record swap { status = accepted } ∷ [] }

abbrev drift : HatSwapReconcileResult
drift = record {
  swap_id = 50;
  requester_drift = member_id 1 2 ∷ is_swapped false true ∷ [];
  target_drift = member_id 2 1 ∷ is_swapped false true ∷ [];
  assignment_missing = false;
}

repairs_drifted : reconcile_accepted_swap 50 true drifted ≡ ok (drift, none) swapped
unfolding reconcile_accepted_swap execute_swap update_hat_swap_status
    load_accepted_swap_for_reconcile compute_reconcile_drift apply_reconciliation
    update_assignment_member mark_assignment_swapped side_drift
repairs_drifted = refl

reconcile_twice_example : reconcile_accepted_swap 50 false swapped ≡ ok (clean 50, none) swapped
reconcile_twice_example =
    reconcile_twice 50 (record swap { status = accepted }) drifted swapped drift refl refl
      (λ e. absurd (omega (arith, e))) repairs_drifted false

reconcile_all-dry_example :
    (rs : List HatSwapReconcileResult) × (reconcile_all_accepted_swaps false drifted
      ≡ ok rs drifted)
    × (length rs ≡ length (get_accepted_swaps drifted))
reconcile_all-dry_example = reconcile_all-dry drifted

create_hat_swap-SwapCreated_example :
    SwapCreated 11 10 2 1 drifted (create_hat_swap 11 10 2 1 drifted)
create_hat_swap-SwapCreated_example = create_hat_swap-SwapCreated 11 10 2 1 drifted
