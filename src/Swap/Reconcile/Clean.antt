-- ===== src/Swap/Reconcile/Clean.antt =====
-- `ReconcileAcceptedSwap` of internal/database/hat_swaps.go where there is nothing to repair.
use madhatter.Base.{
  ℕ, ◌==◌, ◌≡◌, refl, arith, Bool, true, false, Bool-cases, inl, inr, [], none, some, is_empty,
}
use madhatter.Store.{RotaAssignment, HatSwap, Db}
use madhatter.Store.Exec.{ok}
use madhatter.Store.Assignments.{get_assignment_by_id}
use madhatter.Swap.{is_accepted, get_hat_swap_by_id}
use madhatter.Swap.Reconcile.{
  HatSwapReconcileResult, reconcile_accepted_swap, load_accepted_swap_for_reconcile,
  compute_reconcile_drift, side_drift,
}

pub side_drift-none :
    (m : ℕ) (a : RotaAssignment) → a.member_id ≡ m → a.is_swapped ≡ true → side_drift m a ≡ []
unfolding side_drift
side_drift-none m a e f =
    let t : (a.member_id == m) ≡ true = ground arith in rw (t, f, side_drift) refl

pub side_drift-is_empty :
    (m : ℕ) (a : RotaAssignment)
    → is_empty (side_drift m a) ≡ true
    → (a.member_id ≡ m) × (a.is_swapped ≡ true)
unfolding side_drift
side_drift-is_empty m a h = elim (Bool-cases (a.member_id == m)) [
  | inl x ↦ elim (Bool-cases a.is_swapped) [
    | inl y ↦ (ground arith, y)
    | inr y ↦
        let t : is_empty (side_drift m a) ≡ false = rw (x, y, side_drift) refl in absurd (cc (h, t))
  ]
  | inr x ↦
      let t : is_empty (side_drift m a) ≡ false = rw (x, side_drift) refl in absurd (cc (h, t))
]

-- The two assignments are there, of the members that the swap gave them to, and marked.
pub record Fits (swap : HatSwap) (db : Db) : Type 0 where
  pub req : RotaAssignment
  pub tgt : RotaAssignment
  pub req_there : get_assignment_by_id swap.requester_assignment_id db ≡ some req
  pub tgt_there : get_assignment_by_id swap.target_assignment_id db ≡ some tgt
  pub req_member : req.member_id ≡ swap.target_member_id
  pub req_marked : req.is_swapped ≡ true
  pub tgt_member : tgt.member_id ≡ swap.requester_member_id
  pub tgt_marked : tgt.is_swapped ≡ true

abbrev pub clean : ℕ → HatSwapReconcileResult
clean id = record {
  swap_id = id;
  requester_drift = [];
  target_drift = [];
  assignment_missing = false;
}

pub reconcile_accepted_swap-Fits :
    (id : ℕ) (swap : HatSwap) (db : Db) (apply : Bool)
    → get_hat_swap_by_id id db ≡ some swap
    → is_accepted swap.status ≡ true
    → Fits swap db
    → reconcile_accepted_swap id apply db ≡ ok (clean id, none) db
unfolding reconcile_accepted_swap load_accepted_swap_for_reconcile compute_reconcile_drift
reconcile_accepted_swap-Fits id swap db apply there acc fits =
    rw
      (
        there, acc, fits.req_there, fits.tgt_there, reconcile_accepted_swap,
        load_accepted_swap_for_reconcile, compute_reconcile_drift,
      )
      (rw
        (
          side_drift-none swap.target_member_id fits.req fits.req_member fits.req_marked,
          side_drift-none swap.requester_member_id fits.tgt fits.tgt_member fits.tgt_marked,
        )
        (elim (Bool-cases apply) [ inl e ↦ rw e refl | inr e ↦ rw e refl ]))
