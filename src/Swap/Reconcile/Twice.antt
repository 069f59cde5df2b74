-- ===== src/Swap/Reconcile/Twice.antt =====
-- `ReconcileAcceptedSwap` of internal/database/hat_swaps.go, run again.

use madhatter.Base.{
  ℕ, ◌==◌, ◌≡◌, ◌≢◌, refl, sym, ap, subst, ◌∙◌, arith, Bool, true, false, not, ◌&&◌, ◌||◌,
  Bool-cases, Option-cases, inl, inr, none, some, is_empty, find-update, if◌then◌else◌,
}
use madhatter.Store.{RotaAssignment, HatSwap, Db}
use madhatter.Store.Exec.{Outcome, ok, err}
use madhatter.Store.Assignments.{get_assignment_by_id}
use madhatter.Swap.{is_accepted, get_hat_swap_by_id}
use madhatter.Swap.Execute.{set_assignment, mark_assignment_swapped, in_tx}
use madhatter.Swap.Execute.Transfer.{found, update_assignment_member-cases}
use madhatter.Swap.Reconcile.{
  HatSwapReconcileResult, Reconciled, reconcile_accepted_swap, load_accepted_swap_for_reconcile,
  compute_reconcile_drift, side_drift, apply_reconciliation,
}
use madhatter.Swap.Reconcile.Clean.{Fits, clean, reconcile_accepted_swap-Fits, side_drift-is_empty}

module _ (f : RotaAssignment → RotaAssignment)
    (same_id : (a : RotaAssignment) → (f a).id ≡ a.id) where
  found_set :
      (k : ℕ) (db : Db) (a : RotaAssignment)
      → get_assignment_by_id k db ≡ some a
      → get_assignment_by_id k (set_assignment k f db) ≡ some (f a)
  found_set k db a h =
      let e : a.id ≡ k = found db k a h in
      let t : (a.id == k) ≡ true = ground arith in
      find-update (λ (b : RotaAssignment). b.id == k) (λ (b : RotaAssignment). b.id == k) f
        db.assignments {y = a} (λ b. ap (λ i. i == k) (same_id b)) h
      ∙ rw t refl

  found_other :
      (k j : ℕ) (db : Db) (a : RotaAssignment)
      → k ≢ j
      → get_assignment_by_id k db ≡ some a
      → get_assignment_by_id k (set_assignment j f db) ≡ some a
  found_other k j db a d h =
      let e : a.id ≡ k = found db k a h in
      let t : (a.id == j) ≡ false = ground arith in
      find-update (λ (b : RotaAssignment). b.id == k) (λ (b : RotaAssignment). b.id == j) f
        db.assignments {y = a} (λ b. ap (λ i. i == k) (same_id b)) h
      ∙ rw t refl

module _ (id : ℕ) (swap : HatSwap) (db : Db) (there : get_hat_swap_by_id id db ≡ some swap)
    (acc : is_accepted swap.status ≡ true)
    (d : swap.requester_assignment_id ≢ swap.target_assignment_id) where
  abbrev r : ℕ
  r = swap.requester_assignment_id

  abbrev t : ℕ
  t = swap.target_assignment_id

  abbrev owner : ℕ → RotaAssignment → RotaAssignment
  owner m a = record a { member_id = m }

  abbrev mark : RotaAssignment → RotaAssignment
  mark a = record a { is_swapped = true }

  -- Where no error is reported, the swap is there as before, and its assignments fit it.
  abbrev Repaired : Outcome Db Reconciled → Type 0
  Repaired (ok (result, none) db') = (get_hat_swap_by_id id db' ≡ some swap) × Fits swap db'
  Repaired (ok (result, some x) db') = Unit
  Repaired (err x db') = Unit

  module _ (req tgt : RotaAssignment) (x : get_assignment_by_id r db ≡ some req)
      (y : get_assignment_by_id t db ≡ some tgt) where
    abbrev db1 : Db
    db1 = set_assignment r (owner swap.target_member_id) db

    abbrev db2 : Db
    db2 = set_assignment r mark db1

    abbrev db3 : Db
    db3 = set_assignment t (owner swap.requester_member_id) db2

    abbrev db4 : Db
    db4 = set_assignment t mark db3

    db4-Fits : Fits swap db4
    db4-Fits = record {
      req = mark (owner swap.target_member_id req);
      tgt = mark (owner swap.requester_member_id tgt);
      req_there =
          found_other mark (λ a. refl) r t db3 _ d
            (found_other (owner swap.requester_member_id) (λ a. refl) r t db2 _ d
              (found_set mark (λ a. refl) r db1 _
                (found_set (owner swap.target_member_id) (λ a. refl) r db req x)));
      tgt_there =
          found_set mark (λ a. refl) t db3 _
            (found_set (owner swap.requester_member_id) (λ a. refl) t db2 _
              (found_other mark (λ a. refl) t r db1 _ (λ e. d (sym e))
                (found_other (owner swap.target_member_id) (λ a. refl) t r db tgt (λ e. d (sym e))
                  y)));
      req_member = refl;
      req_marked = refl;
      tgt_member = refl;
      tgt_marked = refl;
    }

    no_drift-Fits :
        is_empty (side_drift swap.target_member_id req) ≡ true
        → is_empty (side_drift swap.requester_member_id tgt) ≡ true
        → Fits swap db
    no_drift-Fits u v = record {
      req = req;
      tgt = tgt;
      req_there = x;
      tgt_there = y;
      req_member = (side_drift-is_empty swap.target_member_id req u).0;
      req_marked = (side_drift-is_empty swap.target_member_id req u).1;
      tgt_member = (side_drift-is_empty swap.requester_member_id tgt v).0;
      tgt_marked = (side_drift-is_empty swap.requester_member_id tgt v).1;
    }

    applied-Repaired :
        (result : HatSwapReconcileResult)
        → Repaired (elim (apply_reconciliation swap db) as (λ o. Outcome Db Reconciled) [
          | ok u db' ↦ ok (result, none) db'
          | err e db' ↦ ok (result, some e) db'
        ])
    unfolding apply_reconciliation mark_assignment_swapped
    applied-Repaired result = elim (update_assignment_member-cases r swap.target_member_id db) [
      | inl u ↦ rw (u, Repaired, apply_reconciliation, in_tx) tt
      | inr u ↦ elim (update_assignment_member-cases t swap.requester_member_id db2) [
        | inl v ↦ rw (u, v, Repaired, apply_reconciliation, in_tx) tt
        | inr v ↦ rw (u, v, Repaired, apply_reconciliation, in_tx) (there, db4-Fits)
      ]
    ]

    compared-Repaired :
        (result : HatSwapReconcileResult)
        → Repaired (
            if not true
              || (is_empty (side_drift swap.target_member_id req)
                  && is_empty (side_drift swap.requester_member_id tgt))
            then ok (result, none) db
            else elim (apply_reconciliation swap db) as (λ o. Outcome Db Reconciled) [
              | ok u db' ↦ ok (result, none) db'
              | err e db' ↦ ok (result, some e) db'
            ])
    compared-Repaired result = elim (Bool-cases (is_empty (side_drift swap.target_member_id req))) [
      | inr u ↦ rw u (applied-Repaired result)
      | inl u ↦ elim (Bool-cases (is_empty (side_drift swap.requester_member_id tgt))) [
        | inr v ↦ rw (u, v) (applied-Repaired result)
        | inl v ↦ rw (u, v) (there, no_drift-Fits u v)
      ]
    ]

  reconcile-Repaired : Repaired (reconcile_accepted_swap id true db)
  unfolding reconcile_accepted_swap load_accepted_swap_for_reconcile compute_reconcile_drift
  reconcile-Repaired = elim (Option-cases (get_assignment_by_id r db)) [
    | inl x ↦
        rw (there, acc, x, Repaired, reconcile_accepted_swap, load_accepted_swap_for_reconcile) tt
    | inr (req, x) ↦ elim (Option-cases (get_assignment_by_id t db)) [
      | inl y ↦
          rw (there, acc, x, y, Repaired, reconcile_accepted_swap, load_accepted_swap_for_reconcile)
            tt
      | inr (tgt, y) ↦
          rw
            (
              there, acc, x, y, reconcile_accepted_swap, load_accepted_swap_for_reconcile,
              compute_reconcile_drift,
            )
            (compared-Repaired req tgt x y _)
    ]
  ]

-- A reconciliation that was applied and reported no error is not needed again: another one, dry or
-- applied, finds nothing to repair and writes nothing. The swap is between two assignments.
pub reconcile_twice :
    (id : ℕ) (swap : HatSwap) (db db' : Db) (result : HatSwapReconcileResult)
    → get_hat_swap_by_id id db ≡ some swap
    → is_accepted swap.status ≡ true
    → swap.requester_assignment_id ≢ swap.target_assignment_id
    → reconcile_accepted_swap id true db ≡ ok (result, none) db'
    → (apply : Bool) → reconcile_accepted_swap id apply db' ≡ ok (clean id, none) db'
reconcile_twice id swap db db' result there acc d h apply =
    let (still, fits) =
      subst (Repaired id swap db there acc d) h (reconcile-Repaired id swap db there acc d) in
    reconcile_accepted_swap-Fits id swap db' apply still acc fits
