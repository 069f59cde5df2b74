-- ===== src/Swap/Exclusive/Calls.antt =====
-- Calls of internal/database/hat_swaps.go and of the deletions of internal/database/rota.go, in any
-- order: each is one transaction, so an interleaving of several clients is such a sequence.
use madhatter.Base.{
  ℕ, suc, ◌≡◌, refl, sym, subst, ◌∙◌, inl, inr, arith, Bool, true, false, not, ◌&&◌, ◌||◌, ◌==◌,
  ltb, Bool-cases, Option-cases, List, [], ◌∷◌, any, find,
}
use madhatter.Calendar.{Day}
use madhatter.Store.{HatSwap, SwapStatus, accepted, cancelled, Db, has_member}
use madhatter.Store.Exec.{Outcome, ok, err, after}
use madhatter.Store.Assignments.{
  get_assignment_by_id, delete_rota_assignment, delete_assignments_in_range,
}
use madhatter.Swap.{
  is_pending, is_open, is_expired, conflicts, create_hat_swap, insert_hat_swap,
  update_hat_swap_status, delete_hat_swap, cleanup_expired_pending_swaps,
}
use madhatter.Swap.Execute.{execute_swap}
use madhatter.Swap.Execute.Effect.{Executed, execute_swap-Executed}
use madhatter.Swap.Created.{validate-Owned}
use madhatter.Swap.Exclusive.{Exclusive, Exclusive-snoc, Exclusive-keep, Exclusive-update}

pub data SwapCall : Type 0 where
  create : ℕ → ℕ → ℕ → ℕ → SwapCall
  set_status : ℕ → SwapStatus → SwapCall
  delete : ℕ → SwapCall
  cleanup : Day → SwapCall
  execute : Day → ℕ → SwapCall
  delete_assignment : ℕ → SwapCall
  delete_assignments : Day → Day → SwapCall

abbrev pub run : SwapCall → Db → Db
run (create r t m n) db = after (create_hat_swap r t m n db)
run (set_status id status) db = after (update_hat_swap_status id status db)
run (delete id) db = after (delete_hat_swap id db)
run (cleanup today) db = after (cleanup_expired_pending_swaps today db)
run (execute today id) db = after (execute_swap today id db)
run (delete_assignment id) db = after (delete_rota_assignment id db)
run (delete_assignments start end) db = after (delete_assignments_in_range start end db)

abbrev pub run_all : List SwapCall → Db → Db
run_all [] db = db
run_all (c ∷ cs) db = run_all cs (run c db)

&&-left : (a b : Bool) → (a && b) ≡ true → a ≡ true
&&-left true b h = refl
&&-left false b h = h

insert-Exclusive :
    (new : HatSwap) (db : Db)
    → is_pending new.status ≡ true
    → Exclusive db.hat_swaps
    → Exclusive (after (insert_hat_swap new db)).hat_swaps
unfolding insert_hat_swap
insert-Exclusive new db h ex = elim (Bool-cases (any (conflicts new) db.hat_swaps)) [
  | inl a ↦ rw (a, insert_hat_swap) ex
  | inr a ↦ elim (Bool-cases (new.requester_member_id == new.target_member_id)) [
    | inl b ↦ rw (a, b, insert_hat_swap) ex
    | inr b ↦ elim (Bool-cases (any (λ (s : HatSwap). s.id == new.id) db.hat_swaps)) [
      | inl c ↦ rw (a, b, c, insert_hat_swap) ex
      | inr c ↦
          elim (Bool-cases (
            has_member new.requester_member_id db.members
            && has_member new.target_member_id db.members)) [
              | inl d ↦ rw (a, b, c, d, insert_hat_swap) (Exclusive-snoc new db.hat_swaps h a ex)
              | inr d ↦ rw (a, b, c, d, insert_hat_swap) ex
            ]
    ]
  ]
]

after_set :
    (id : ℕ) (status : SwapStatus) (db : Db)
    → Exclusive db.hat_swaps
    → Exclusive (after (update_hat_swap_status id status db)).hat_swaps
unfolding update_hat_swap_status
after_set id status db ex = elim (Option-cases (find (is_open id) db.hat_swaps)) [
  | inl a ↦ rw (a, update_hat_swap_status) ex
  | inr (s, a) ↦
      elim (Bool-cases (
        is_pending status
        && any (λ (t : HatSwap). not (t.id == id) && conflicts s t) db.hat_swaps)) [
          | inl b ↦ rw (a, b, update_hat_swap_status) ex
          | inr b ↦
              rw (a, b, update_hat_swap_status)
                (Exclusive-update (is_open id) status (λ t h. ground arith) db.hat_swaps ex)
        ]
]

expired_pending :
    (today : Day) (db : Db) (s : HatSwap)
    → is_expired today db s ≡ true
    → is_pending s.status ≡ true
unfolding is_expired
expired_pending today db s h =
    elim (Option-cases (get_assignment_by_id s.requester_assignment_id db)) [
      | inl a ↦
          let e : is_expired today db s ≡ false = rw (a, is_expired) refl in absurd (cc (sym e ∙ h))
      | inr (req, a) ↦ elim (Option-cases (get_assignment_by_id s.target_assignment_id db)) [
        | inl b ↦
            let e : is_expired today db s ≡ false = rw (a, b, is_expired) refl in
            absurd (cc (sym e ∙ h))
        | inr (tgt, b) ↦
            let late : Bool = ltb req.date today || ltb tgt.date today in
            let e : is_expired today db s ≡ (is_pending s.status && late) =
              rw (a, b, is_expired) refl in
            &&-left (is_pending s.status) late (sym e ∙ h)
      ]
    ]

after_execute :
    (today : Day) (id : ℕ) (db : Db) (r : Outcome Db Unit)
    → Executed today id db r
    → Exclusive db.hat_swaps
    → Exclusive (after r).hat_swaps
after_execute today id db (err x db') same ex =
    subst (λ (t : Db). Exclusive t.hat_swaps) (sym same) ex
after_execute today id db (ok u db') x ex =
    subst (λ (t : Db). Exclusive t.hat_swaps) (sym x.4)
      (Exclusive-update (is_open id) accepted (λ t h. ground arith) db.hat_swaps ex)

run-Exclusive : (c : SwapCall) (db : Db) → Exclusive db.hat_swaps → Exclusive (run c db).hat_swaps
unfolding create_hat_swap delete_hat_swap delete_rota_assignment delete_assignments_in_range
    cleanup_expired_pending_swaps
run-Exclusive (create r t m n) db ex = elim (validate-Owned r t m n db) [
  | inl (v, owned) ↦
      rw (v, create_hat_swap) (insert-Exclusive _ (record db { drawn = suc db.drawn }) refl ex)
  | inr (x, v) ↦ rw (v, create_hat_swap) ex
]
run-Exclusive (set_status id status) db ex = after_set id status db ex
run-Exclusive (delete id) db ex = Exclusive-keep _ db.hat_swaps ex
run-Exclusive (cleanup today) db ex =
    Exclusive-update (is_expired today db) cancelled (λ s h. expired_pending today db s h)
      db.hat_swaps ex
run-Exclusive (execute today id) db ex =
    after_execute today id db (execute_swap today id db) (execute_swap-Executed today id db) ex
run-Exclusive (delete_assignment id) db ex = Exclusive-keep _ db.hat_swaps ex
run-Exclusive (delete_assignments start end) db ex = Exclusive-keep _ db.hat_swaps ex

-- From a table where no two pending swaps share an assignment, no sequence of calls reaches one where
-- two do.
pub swaps_stay-Exclusive :
    (calls : List SwapCall) (db : Db)
    → Exclusive db.hat_swaps
    → Exclusive (run_all calls db).hat_swaps
swaps_stay-Exclusive [] db ex = ex
swaps_stay-Exclusive (c ∷ cs) db ex = swaps_stay-Exclusive cs (run c db) (run-Exclusive c db ex)
