-- ===== src/Swap/Execute/Settled.antt =====
-- The state after `ExecuteSwap` of internal/database/hat_swaps.go, seen by its other functions.
use madhatter.Base.{
  ℕ, ◌≡◌, ◌≢◌, refl, ap, subst, ◌∙◌, arith, Bool, true, false, ◌&&◌, ◌==◌, none, some, find-update,
  find-map, Bool-cases, inl, inr,
}
use madhatter.Calendar.{Day}
use madhatter.Swap.Reconcile.{reconcile_accepted_swap}
use madhatter.Swap.Reconcile.Clean.{Fits, clean, reconcile_accepted_swap-Fits}
use madhatter.Store.{RotaAssignment, HatSwap, accepted, Db}
use madhatter.Store.Exec.{ok, err, swap_not_pending}
use madhatter.Store.Assignments.{get_assignment_by_id}
use madhatter.Swap.{is_pending, is_open, get_hat_swap_by_id}
use madhatter.Swap.Execute.{execute_swap}
use madhatter.Swap.Execute.Effect.{Executed, execute_swap-Executed}
use madhatter.Swap.Execute.Transfer.{handed_over, found, found_swap, distinct}

handed_over-id : (swap : HatSwap) (a : RotaAssignment) → (handed_over swap a).id ≡ a.id
handed_over-id swap a = elim (Bool-cases (a.id == swap.requester_assignment_id)) [
  | inl x ↦ rw x refl
  | inr x ↦ elim (Bool-cases (a.id == swap.target_assignment_id)) [
    | inl y ↦ rw (x, y) refl
    | inr y ↦ rw (x, y) refl
  ]
]

module _ (today : Day) (id : ℕ) (db db' : Db) (h : execute_swap today id db ≡ ok tt db') where
  pub facts : Executed today id db (ok tt db')
  facts = subst (Executed today id db) h (execute_swap-Executed today id db)

  abbrev pub swap_of : HatSwap
  swap_of = facts.0

  -- The row of the swap is there still, and it is accepted.
  pub settled_row : get_hat_swap_by_id id db' ≡ some (record swap_of { status = accepted })
  settled_row =
      let (swap, there, pending, loaded, after) = facts in
      let open_ : (swap.id == id && is_pending swap.status) ≡ true =
        (let same : swap.id ≡ id = found_swap db id swap there in ground arith) in
      ap (λ (t : Db). get_hat_swap_by_id id t) after
      ∙ find-update (λ (s : HatSwap). s.id == id) (is_open id)
          (λ (s : HatSwap). record s { status = accepted }) db.hat_swaps {y = swap} (λ x. refl)
          there
      ∙ rw open_ refl

  -- A swap that was executed is not executed again, on whatever day, and the database stays as it is.
  execute_swap_once : (later : Day) → execute_swap later id db' ≡ err swap_not_pending db'
  unfolding execute_swap
  execute_swap_once later = rw (settled_row, execute_swap) refl

  -- An assignment is found as before, with the owner and the mark that the swap gave it.
  pub settled_assignment :
      (aid : ℕ) (a : RotaAssignment)
      → get_assignment_by_id aid db ≡ some a
      → get_assignment_by_id aid db' ≡ some (handed_over swap_of a)
  settled_assignment aid a found_before =
      ap (λ (t : Db). get_assignment_by_id aid t) facts.4
      ∙ find-map (λ (b : RotaAssignment). b.id == aid) (handed_over swap_of) db.assignments {y = a}
          (λ x. ap (λ k. k == aid) (handed_over-id swap_of x)) found_before

  module _ (req tgt : RotaAssignment)
      (x : get_assignment_by_id swap_of.requester_assignment_id db ≡ some req)
      (y : get_assignment_by_id swap_of.target_assignment_id db ≡ some tgt)
      (v : (req.member_id == tgt.member_id) ≡ false) where
    pub settled_requester :
        get_assignment_by_id swap_of.requester_assignment_id db'
        ≡ some (record req { member_id = swap_of.target_member_id; is_swapped = true })
    settled_requester =
        let same : (req.id == swap_of.requester_assignment_id) ≡ true =
          (let e : req.id ≡ swap_of.requester_assignment_id = found db _ req x in ground arith) in
        settled_assignment swap_of.requester_assignment_id req x ∙ rw same refl

    pub settled_target :
        get_assignment_by_id swap_of.target_assignment_id db'
        ≡ some (record tgt { member_id = swap_of.requester_member_id; is_swapped = true })
    settled_target =
        let e : tgt.id ≡ swap_of.target_assignment_id = found db _ tgt y in
        let d : swap_of.requester_assignment_id ≢ swap_of.target_assignment_id =
          distinct db _ _ req tgt x y v in
        let same : (tgt.id == swap_of.target_assignment_id) ≡ true = ground arith in
        let other : (tgt.id == swap_of.requester_assignment_id) ≡ false = ground arith in
        settled_assignment swap_of.target_assignment_id tgt y ∙ rw (other, same) refl

    settled-Fits : Fits (record swap_of { status = accepted }) db'
    settled-Fits = record {
      req = record req { member_id = swap_of.target_member_id; is_swapped = true };
      tgt = record tgt { member_id = swap_of.requester_member_id; is_swapped = true };
      req_there = settled_requester;
      tgt_there = settled_target;
      req_member = refl;
      req_marked = refl;
      tgt_member = refl;
      tgt_marked = refl;
    }

  -- Reconciliation finds nothing to repair right after the swap, and writes nothing.
  pub reconcile_after_execute :
      (apply : Bool) → reconcile_accepted_swap id apply db' ≡ ok (clean id, none) db'
  reconcile_after_execute apply =
      let (req, tgt, x, y, u, v, w) = facts.3 in
      reconcile_accepted_swap-Fits id (record swap_of { status = accepted }) db' apply settled_row
        refl (settled-Fits req tgt x y v)
