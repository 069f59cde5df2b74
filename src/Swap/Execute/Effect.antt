-- ===== src/Swap/Execute/Effect.antt =====
-- What `ExecuteSwap` of internal/database/hat_swaps.go does to the tables.
use madhatter.Base.{
  ℕ, ◌≡◌, refl, ap, ◌∙◌, true, false, ◌||◌, ◌==◌, ltb, Bool-cases, Option-cases, inl, inr, map,
  some,
}
use madhatter.Calendar.{Day}
use madhatter.Store.{RotaAssignment, HatSwap, Db}
use madhatter.Store.Exec.{Outcome, ok, err, bind}
use madhatter.Store.Assignments.{get_assignment_by_id}
use madhatter.Swap.{is_pending, get_hat_swap_by_id}
use madhatter.Swap.Execute.{
  execute_swap, execute_swap_tx, load_swap_assignments_for_execution, in_tx,
}
use madhatter.Swap.Execute.Transfer.{
  handed_over, accept, found, found_swap, distinct, Done, tx-Done,
}

module _ (today : Day) (id : ℕ) (db : Db) where
  -- Both assignments are there, with different owners, for different members, and no date is past.
  abbrev pub Loaded : HatSwap → Type 0
  Loaded swap =
      (req : RotaAssignment) × (tgt : RotaAssignment) × (get_assignment_by_id
          swap.requester_assignment_id db
        ≡ some req)
      × (get_assignment_by_id swap.target_assignment_id db ≡ some tgt)
      × ((swap.requester_member_id == swap.target_member_id) ≡ false)
      × ((req.member_id == tgt.member_id) ≡ false)
      × ((ltb req.date today || ltb tgt.date today) ≡ false)

  abbrev Ran : HatSwap → Outcome Db Unit → Type 0
  Ran swap (ok u db') = Loaded swap × Done swap db (ok u db')
  Ran swap (err x db') = db' ≡ db

  Ran-of_Done : (swap : HatSwap) (r : Outcome Db Unit) → Loaded swap → Done swap db r → Ran swap r
  Ran-of_Done swap (ok u db') l d = (l, d)
  Ran-of_Done swap (err x db') l d = d

  -- What a success found: a pending swap with this id, with two assignments of different owners whose
  -- dates are not past, between two different members; and what it left.
  abbrev pub Executed : Outcome Db Unit → Type 0
  Executed (ok u db') =
      (swap : HatSwap) × (get_hat_swap_by_id id db ≡ some swap)
      × (is_pending swap.status ≡ true)
      × Loaded swap
      × (db' ≡ record db {
        assignments = map (handed_over swap) db.assignments;
        hat_swaps = accept id db.hat_swaps;
      })
  Executed (err x db') = db' ≡ db

  Executed-of_Ran :
      (swap : HatSwap) (r : Outcome Db Unit)
      → get_hat_swap_by_id id db ≡ some swap
      → is_pending swap.status ≡ true
      → swap.id ≡ id
      → Ran swap r
      → Executed r
  Executed-of_Ran swap (ok u db') h p same done = (
    swap,
    h,
    p,
    done.0,
    done.1
        ∙ ap
            (λ k. record db {
              assignments = map (handed_over swap) db.assignments;
              hat_swaps = accept k db.hat_swaps;
            })
            same,
  )
  Executed-of_Ran swap (err x db') h p same done = done

  loaded-Ran :
      (swap : HatSwap)
      → Ran swap (
          bind
            (load_swap_assignments_for_execution today swap db)
            (λ pair db'. in_tx (execute_swap_tx pair.0 pair.1 swap) db'))
  unfolding load_swap_assignments_for_execution
  loaded-Ran swap = elim (Option-cases (get_assignment_by_id swap.requester_assignment_id db)) [
    | inl x ↦ rw (x, Ran, load_swap_assignments_for_execution) refl
    | inr (req, x) ↦ elim (Option-cases (get_assignment_by_id swap.target_assignment_id db)) [
      | inl y ↦ rw (x, y, Ran, load_swap_assignments_for_execution) refl
      | inr (tgt, y) ↦ elim (Bool-cases (swap.requester_member_id == swap.target_member_id)) [
        | inl u ↦ rw (x, y, u, Ran, load_swap_assignments_for_execution) refl
        | inr u ↦ elim (Bool-cases (req.member_id == tgt.member_id)) [
          | inl v ↦ rw (x, y, u, v, Ran, load_swap_assignments_for_execution) refl
          | inr v ↦ elim (Bool-cases (ltb req.date today || ltb tgt.date today)) [
            | inl w ↦ rw (x, y, u, v, w, Ran, load_swap_assignments_for_execution) refl
            | inr w ↦
                rw (x, y, u, v, w, load_swap_assignments_for_execution)
                  (Ran-of_Done swap (in_tx (execute_swap_tx req tgt swap) db)
                    (req, tgt, x, y, u, v, w)
                    (tx-Done swap req tgt db (found db swap.requester_assignment_id req x)
                      (found db swap.target_assignment_id tgt y)
                      (distinct db swap.requester_assignment_id swap.target_assignment_id req tgt x
                        y v)))
          ]
        ]
      ]
    ]
  ]

  -- A success found a pending swap with this id, between two members and two assignments of different
  -- owners whose dates are not past; it hands each assignment to the other member of the swap, marks
  -- both, and accepts the swap, and changes nothing else. Every error leaves the database as it was.
  pub execute_swap-Executed : Executed (execute_swap today id db)
  unfolding execute_swap
  execute_swap-Executed = elim (Option-cases (get_hat_swap_by_id id db)) [
    | inl h ↦ rw (h, Executed, execute_swap) refl
    | inr (swap, h) ↦ elim (Bool-cases (is_pending swap.status)) [
      | inr p ↦ rw (h, p, Executed, execute_swap) refl
      | inl p ↦
          rw (h, p, execute_swap)
            (Executed-of_Ran swap _ h p (found_swap db id swap h) (loaded-Ran swap))
    ]
  ]
