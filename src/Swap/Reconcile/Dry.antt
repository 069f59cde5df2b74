-- ===== src/Swap/Reconcile/Dry.antt =====
-- Dry runs of the reconciliation of internal/database/hat_swaps.go.
use madhatter.Base.{
  ℕ, suc, ◌≡◌, refl, ap, false, Bool-cases, Option-cases, inl, inr, List, [], ◌∷◌, length,
}
use madhatter.Store.{HatSwap, Db}
use madhatter.Store.Exec.{ok}
use madhatter.Store.Assignments.{get_assignment_by_id}
use madhatter.Swap.{is_accepted, get_hat_swap_by_id}
use madhatter.Swap.Reconcile.{
  HatSwapReconcileResult, Reconciled, shown, get_accepted_swaps, load_accepted_swap_for_reconcile,
  reconcile_accepted_swap, reconcile_each, reconcile_all_accepted_swaps,
}

reconcile-dry :
    (id : ℕ) (db : Db) → (x : Reconciled) × (reconcile_accepted_swap id false db ≡ ok x db)
unfolding reconcile_accepted_swap load_accepted_swap_for_reconcile
reconcile-dry id db = elim (Option-cases (get_hat_swap_by_id id db)) [
  | inl h ↦ rw (h, reconcile_accepted_swap, load_accepted_swap_for_reconcile) (_, refl)
  | inr (s, h) ↦ elim (Bool-cases (is_accepted s.status)) [
    | inr a ↦ rw (h, a, reconcile_accepted_swap, load_accepted_swap_for_reconcile) (_, refl)
    | inl a ↦ elim (Option-cases (get_assignment_by_id s.requester_assignment_id db)) [
      | inl x ↦ rw (h, a, x, reconcile_accepted_swap, load_accepted_swap_for_reconcile) (_, refl)
      | inr (req, x) ↦ elim (Option-cases (get_assignment_by_id s.target_assignment_id db)) [
        | inl y ↦
            rw (h, a, x, y, reconcile_accepted_swap, load_accepted_swap_for_reconcile) (_, refl)
        | inr (tgt, y) ↦
            rw (h, a, x, y, reconcile_accepted_swap, load_accepted_swap_for_reconcile) (_, refl)
      ]
    ]
  ]
]

reconcile_each-dry :
    (ss : List HatSwap) (db : Db)
    → (rs : List HatSwapReconcileResult) × (reconcile_each false ss db ≡ ok rs db)
      × (length rs ≡ length ss)
unfolding reconcile_each
reconcile_each-dry [] db = ([], refl, refl)
reconcile_each-dry (s ∷ ss) db =
    let (x, h) = reconcile-dry s.id db in
    let (rs, k, n) = reconcile_each-dry ss db in
    (shown s.id x ∷ rs, rw (h, reconcile_each) (rw (k, reconcile_each) refl), ap suc n)

-- A dry run over all accepted swaps always succeeds, gives one result for each of them, and writes
-- nothing.
pub reconcile_all-dry :
    (db : Db)
    → (rs : List HatSwapReconcileResult) × (reconcile_all_accepted_swaps false db ≡ ok rs db)
      × (length rs ≡ length (get_accepted_swaps db))
unfolding reconcile_all_accepted_swaps
reconcile_all-dry db = reconcile_each-dry (get_accepted_swaps db) db
