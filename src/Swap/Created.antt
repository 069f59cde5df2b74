-- ===== src/Swap/Created.antt =====
-- `CreateHatSwap` of internal/database/hat_swaps.go on every branch.
use madhatter.Base.{
  ℕ, suc, ◌==◌, ◌≡◌, ◌≢◌, ◌⊎◌, refl, arith, false, ◌&&◌, ◌||◌, Bool-cases, Option-cases, inl, inr,
  any, [], ◌∷◌, ◌++◌, some,
}
use madhatter.Store.{RotaAssignment, HatSwap, pending, Db, has_member}
use madhatter.Store.Exec.{
  Error, Outcome, ok, err, fields_required, swap_target_self, no_rows, swap_not_owner,
  target_owner_mismatch,
}
use madhatter.Store.Assignments.{get_assignment_by_id}
use madhatter.Swap.{conflicts, create_hat_swap, insert_hat_swap, validate_create_hat_swap}

-- A success adds the row, which shares no assignment with a pending one; an error changes nothing.
abbrev Inserted : HatSwap → Db → Outcome Db ℕ → Type 0
Inserted new db (ok id db') =
    (id ≡ new.id)
    × (any (conflicts new) db.hat_swaps ≡ false)
    × (db' ≡ record db { hat_swaps = db.hat_swaps ++ new ∷ [] })
Inserted new db (err x db') = db' ≡ db

insert_hat_swap-Inserted : (new : HatSwap) (db : Db) → Inserted new db (insert_hat_swap new db)
unfolding insert_hat_swap
insert_hat_swap-Inserted new db = elim (Bool-cases (any (conflicts new) db.hat_swaps)) [
  | inl a ↦ rw (a, Inserted, insert_hat_swap) refl
  | inr a ↦ elim (Bool-cases (new.requester_member_id == new.target_member_id)) [
    | inl b ↦ rw (a, b, Inserted, insert_hat_swap) refl
    | inr b ↦ elim (Bool-cases (any (λ (s : HatSwap). s.id == new.id) db.hat_swaps)) [
      | inl c ↦ rw (a, b, c, Inserted, insert_hat_swap) refl
      | inr c ↦
          elim (Bool-cases (
            has_member new.requester_member_id db.members
            && has_member new.target_member_id db.members)) [
              | inl d ↦ rw (a, b, c, d, Inserted, insert_hat_swap) (refl, a, refl)
              | inr d ↦ rw (a, b, c, d, Inserted, insert_hat_swap) refl
            ]
    ]
  ]
]

module _ (r t m n : ℕ) (db : Db) where
  -- Both assignments are there, and belong to the two members, who are different.
  abbrev pub Owned : Type 0
  Owned =
      (req : RotaAssignment) × (tgt : RotaAssignment) × (get_assignment_by_id r db ≡ some req)
      × (get_assignment_by_id t db ≡ some tgt)
      × (req.member_id ≡ m)
      × (tgt.member_id ≡ n)
      × (m ≢ n)

  pub validate-Owned :
      ((validate_create_hat_swap r t m n db ≡ ok tt db) × Owned)
      ⊎ ((x : Error) × (validate_create_hat_swap r t m n db ≡ err x db))
  unfolding validate_create_hat_swap
  validate-Owned = elim (Bool-cases (r == 0 || (t == 0 || (m == 0 || n == 0)))) [
    | inl a ↦ inr (fields_required, rw a refl)
    | inr a ↦ elim (Bool-cases (m == n)) [
      | inl b ↦ inr (swap_target_self, rw (a, b) refl)
      | inr b ↦ elim (Option-cases (get_assignment_by_id r db)) [
        | inl c ↦ inr (no_rows, rw (a, b, c) refl)
        | inr (req, c) ↦ elim (Bool-cases (req.member_id == m)) [
          | inr d ↦ inr (swap_not_owner, rw (a, b, c, d) refl)
          | inl d ↦ elim (Option-cases (get_assignment_by_id t db)) [
            | inl e ↦ inr (no_rows, rw (a, b, c, d, e) refl)
            | inr (tgt, e) ↦ elim (Bool-cases (tgt.member_id == n)) [
              | inr f ↦ inr (target_owner_mismatch, rw (a, b, c, d, e, f) refl)
              | inl f ↦ inl (
                rw (a, b, c, d, e, f) refl,
                (req, tgt, c, e, ground arith, ground arith, λ same. absurd (ground arith)),
              )
            ]
          ]
        ]
      ]
    ]
  ]

  abbrev pub new_swap : HatSwap
  new_swap = record {
    id = db.uuid db.drawn;
    requester_assignment_id = r;
    target_assignment_id = t;
    requester_member_id = m;
    target_member_id = n;
    status = pending;
  }

  abbrev pub SwapCreated : Outcome Db ℕ → Type 0
  SwapCreated (ok id db') =
      (id ≡ db.uuid db.drawn)
      × Owned
      × (any (conflicts new_swap) db.hat_swaps ≡ false)
      × (db' ≡ record db { hat_swaps = db.hat_swaps ++ new_swap ∷ []; drawn = suc db.drawn })
  SwapCreated (err x db') = (k : ℕ) × (db' ≡ record db { drawn = k })

  SwapCreated-of_Inserted :
      (o : Outcome Db ℕ)
      → Owned
      → Inserted new_swap (record db { drawn = suc db.drawn }) o
      → SwapCreated o
  SwapCreated-of_Inserted (ok id db') owned (i, c, same) = (i, owned, c, same)
  SwapCreated-of_Inserted (err x db') owned same = (suc db.drawn, same)

  -- A success adds one pending swap, under a new id, of two assignments that belong to two different
  -- members and are in no pending swap; an error changes no table.
  pub create_hat_swap-SwapCreated : SwapCreated (create_hat_swap r t m n db)
  unfolding create_hat_swap
  create_hat_swap-SwapCreated = elim validate-Owned [
    | inr (x, v) ↦ rw (v, SwapCreated, create_hat_swap) (db.drawn, refl)
    | inl (v, owned) ↦
        rw (v, create_hat_swap)
          (SwapCreated-of_Inserted (insert_hat_swap new_swap (record db { drawn = suc db.drawn }))
            owned (insert_hat_swap-Inserted new_swap (record db { drawn = suc db.drawn })))
  ]
