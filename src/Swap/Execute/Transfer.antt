-- ===== src/Swap/Execute/Transfer.antt =====
-- The transaction of `ExecuteSwap`, `executeSwapTx` of internal/database/hat_swaps.go.
use madhatter.Base.{
  ℕ, ◌≡◌, ◌≢◌, ◌⊎◌, refl, sym, ap, ◌∙◌, arith, true, false, not, ◌&&◌, ◌==◌, Bool-cases,
  Option-cases, inl, inr, if◌then◌else◌, List, [], ◌∷◌, map, some, update, find, find-some,
}
use mathlib.Core.Option.{some-injective}
use madhatter.Store.{RotaAssignment, HatSwap, accepted, Db, has_member}
use madhatter.Store.Exec.{Outcome, ok, err, foreign_key_violation}
use madhatter.Store.Assignments.{get_assignment_by_id, has_assignment}
use madhatter.Swap.{is_open, get_hat_swap_by_id, update_hat_swap_status}
use madhatter.Swap.Execute.{
  execute_swap_tx, in_tx, set_assignment, update_assignment_member, mark_assignment_swapped,
}

abbrev set_owner : ℕ → RotaAssignment → RotaAssignment
set_owner m a = record a { member_id = m }

abbrev mark : RotaAssignment → RotaAssignment
mark a = record a { is_swapped = true }

-- The row of the requester goes to the target, that of the target to the requester, both marked; every
-- other row stays.
abbrev pub handed_over : HatSwap → RotaAssignment → RotaAssignment
handed_over swap a =
    if a.id == swap.requester_assignment_id
    then record a { member_id = swap.target_member_id; is_swapped = true }
    else if a.id == swap.target_assignment_id
    then record a { member_id = swap.requester_member_id; is_swapped = true }
    else a

abbrev pub accept : ℕ → List HatSwap → List HatSwap
accept id = update (is_open id) (λ (s : HatSwap). record s { status = accepted })

pub update_assignment_member-cases :
    (id m : ℕ) (db : Db)
    → (update_assignment_member id m db ≡ err foreign_key_violation db)
      ⊎ (update_assignment_member id m db ≡ ok tt (set_assignment id (set_owner m) db))
unfolding update_assignment_member
update_assignment_member-cases id m db =
    elim (Bool-cases (has_assignment id db.assignments && not (has_member m db.members))) [
      | inl x ↦ inl (rw x refl)
      | inr x ↦ inr (rw x refl)
    ]

pub found :
    (db : Db) (id : ℕ) (a : RotaAssignment) → get_assignment_by_id id db ≡ some a → a.id ≡ id
found db id a h =
    let p : (a.id == id) ≡ true =
      find-some (λ (b : RotaAssignment). b.id == id) db.assignments {y = a} h in
    ground arith

pub found_swap : (db : Db) (id : ℕ) (s : HatSwap) → get_hat_swap_by_id id db ≡ some s → s.id ≡ id
found_swap db id s h =
    let p : (s.id == id) ≡ true = find-some (λ (b : HatSwap). b.id == id) db.hat_swaps {y = s} h in
    ground arith

-- Assignments of different owners are different.
pub distinct :
    (db : Db) (r t : ℕ) (req tgt : RotaAssignment)
    → get_assignment_by_id r db ≡ some req
    → get_assignment_by_id t db ≡ some tgt
    → (req.member_id == tgt.member_id) ≡ false
    → r ≢ t
distinct db r t req tgt x y v e =
    let p : req ≡ tgt =
      some-injective req tgt (sym x ∙ ap (λ k. get_assignment_by_id k db) e ∙ y) in
    let q : req.member_id ≡ tgt.member_id = ap RotaAssignment.member_id p in ground arith

module _ (swap : HatSwap) where
  one :
      (a : RotaAssignment) (r t m n : ℕ)
      → r ≢ t
      → (let a1 : RotaAssignment = if a.id == r then set_owner m a else a in
          let a2 : RotaAssignment = if a1.id == t then set_owner n a1 else a1 in
          let a3 : RotaAssignment = if a2.id == r then mark a2 else a2 in
          if a3.id == t then mark a3 else a3)
        ≡ (if a.id == r
            then mark (set_owner m a)
            else if a.id == t
            then mark (set_owner n a)
            else a)
  one a r t m n d = elim (Bool-cases (a.id == r)) [
    | inl x ↦ elim (Bool-cases (a.id == t)) [
      | inl y ↦ absurd (ground arith)
      | inr y ↦ rw (x, y) (rw (x, y) refl)
    ]
    | inr x ↦ elim (Bool-cases (a.id == t)) [
      | inl y ↦ rw (x, y) (rw (x, y) refl)
      | inr y ↦ rw (x, y) (rw (x, y) refl)
    ]
  ]

  abbrev moved : ℕ → ℕ → ℕ → ℕ → RotaAssignment → RotaAssignment
  moved r t m n a =
      if a.id == r then mark (set_owner m a) else if a.id == t then mark (set_owner n a) else a

  abbrev four : ℕ → ℕ → ℕ → ℕ → List RotaAssignment → List RotaAssignment
  four r t m n rows =
      update (λ (a : RotaAssignment). a.id == t) mark
        (update (λ (a : RotaAssignment). a.id == r) mark
          (update (λ (a : RotaAssignment). a.id == t) (set_owner n)
            (update (λ (a : RotaAssignment). a.id == r) (set_owner m) rows)))

  four-map :
      (r t m n : ℕ) (rows : List RotaAssignment)
      → r ≢ t
      → four r t m n rows ≡ map (moved r t m n) rows
  four-map r t m n [] d = refl
  four-map r t m n (a ∷ rows) d = cc (one a r t m n d, four-map r t m n rows d)

  -- A success hands the two rows over and accepts the swap; an error leaves the database as it was.
  abbrev pub Done : Db → Outcome Db Unit → Type 0
  Done db (ok u db') = db' ≡ record db {
    assignments = map (handed_over swap) db.assignments;
    hat_swaps = accept swap.id db.hat_swaps;
  }
  Done db (err x db') = db' ≡ db

  module _ (req tgt : RotaAssignment) (db : Db) where
    abbrev db1 : Db
    db1 = set_assignment req.id (set_owner swap.target_member_id) db

    abbrev db2 : Db
    db2 = set_assignment tgt.id (set_owner swap.requester_member_id) db1

    pub tx-Done :
        req.id ≡ swap.requester_assignment_id
        → tgt.id ≡ swap.target_assignment_id
        → swap.requester_assignment_id ≢ swap.target_assignment_id
        → Done db (in_tx (execute_swap_tx req tgt swap) db)
    unfolding execute_swap_tx mark_assignment_swapped update_hat_swap_status
    tx-Done er et d = elim (update_assignment_member-cases req.id swap.target_member_id db) [
      | inl x ↦ rw (x, Done, in_tx, execute_swap_tx) refl
      | inr x ↦ elim (update_assignment_member-cases tgt.id swap.requester_member_id db1) [
        | inl y ↦ rw (x, y, Done, in_tx, execute_swap_tx) refl
        | inr y ↦ elim (Option-cases (find (is_open swap.id) db.hat_swaps)) [
          | inl z ↦ rw (x, y, z, Done, in_tx, execute_swap_tx, update_hat_swap_status) refl
          | inr (s, z) ↦
              rw (x, y, z, Done, in_tx, execute_swap_tx, update_hat_swap_status)
                (ap
                  (λ (rows : List RotaAssignment). record db {
                    assignments = rows;
                    hat_swaps = accept swap.id db.hat_swaps;
                  })
                  (ap
                      (λ k.
                        four k tgt.id swap.target_member_id swap.requester_member_id db.assignments)
                      er
                    ∙ ap
                        (λ k.
                          four swap.requester_assignment_id k swap.target_member_id
                            swap.requester_member_id db.assignments)
                        et
                    ∙ four-map swap.requester_assignment_id swap.target_assignment_id
                        swap.target_member_id swap.requester_member_id db.assignments d))
        ]
      ]
    ]
