-- ===== src/Rota/LeaveCovers/Untouched.antt =====
-- What the covering of a leave (internal/rota/engine.go) leaves alone.
use madhatter.Base.{
  ℕ, ◌≡◌, refl, ap, ◌∙◌, arith, Bool, true, false, not, ◌||◌, Bool-cases, inl, inr, List, [], ◌∷◌,
  ◌++◌, Option, none, some, keep, keep-append, update, Text, if◌then◌else◌,
}
use mathlib.Core.List.{append-nil}
use madhatter.Base.Int.{ℤ, pos}
use madhatter.Calendar.{Day}
use madhatter.Store.{RotaAssignment, CoverRotation, Db}
use madhatter.Store.Exec.{Outcome, ok, after}
use madhatter.Store.Leaves.{update_leave_status}
use madhatter.Store.Rotation.{
  get_cover_rotation_state, upsert_cover_rotation_state, write_reassignment_anchor,
}
use madhatter.Store.Assignments.Create.{new_row}
use madhatter.Rota.Engine.{
  Engine, RotationSource, ad_hoc, reassign, on_db, lift_outcome, commit_for,
  commit_cover_rotation_state, commit_reassign_rotation_state,
}
use madhatter.Rota.LeaveCovers.{is_free_cover, assign_covers_for_leave}
use madhatter.Rota.LeaveCovers.Shown.{lift-Same, slot-Same, covering-Same}

-- Original assignments, and all that a swap has moved.
abbrev pub is_fixed : RotaAssignment → Bool
is_fixed a = a.is_swapped || not a.is_cover

abbrev pub fixed_rows : Db → List RotaAssignment
fixed_rows db = keep is_fixed db.assignments

keep-repointed :
    (d : Day) (c : ℕ) (rows : List RotaAssignment)
    → keep is_fixed
        (update (is_free_cover d) (λ (a : RotaAssignment). record a { member_id = c }) rows)
      ≡ keep is_fixed rows
keep-repointed d c [] = refl
keep-repointed d c (a ∷ rows) = elim (Bool-cases (is_free_cover d a)) [
  | inl x ↦ let y : is_fixed a ≡ false = ground arith in rw (x, y) (keep-repointed d c rows)
  | inr x ↦ rw x (ap (λ t. if is_fixed a then a ∷ t else t) (keep-repointed d c rows))
]

keep-reps :
    (d : Day) (c : ℕ) (db : Db)
    → fixed_rows (record db {
      assignments =
          update
            (is_free_cover d)
            (λ (a : RotaAssignment). record a { member_id = c })
            db.assignments;
    })
      ≡ fixed_rows db
keep-reps d c db = keep-repointed d c db.assignments

keep-adds :
    (d : Day) (c o n : ℕ) (db : Db)
    → fixed_rows
        (record db { assignments = db.assignments ++ new_row d c true (some o) db ∷ []; drawn = n })
      ≡ fixed_rows db
keep-adds d c o n db = keep-append is_fixed db.assignments _ ∙ append-nil (fixed_rows db)

keep-drew : (n : ℕ) (db : Db) → fixed_rows (record db { drawn = n }) ≡ fixed_rows db
keep-drew n db = refl

-- A write of the reassign's state keeps the two columns of the ad-hoc state.
anchor_same :
    (d : Day) (i : ℤ) (db : Db) (c : Option CoverRotation)
    → db.cover_rotation ≡ c
    → get_cover_rotation_state (after (write_reassignment_anchor d i db))
      ≡ get_cover_rotation_state db
unfolding write_reassignment_anchor get_cover_rotation_state
anchor_same d i db none h =
    let same : write_reassignment_anchor d i db ≡ ok tt db =
      ap
        (λ (o : Option CoverRotation). elim o as (λ x. Outcome Db Unit) [
          | none ↦ ok tt db
          | some c ↦
              ok tt (record db { cover_rotation = some (record c { reassign = some (d, i) }) })
        ])
        h in
    ap (λ (r : Outcome Db Unit). get_cover_rotation_state (after r)) same
anchor_same d i db (some c) h = rw (h, write_reassignment_anchor, get_cover_rotation_state) refl

cover_upsert_fixed :
    (d : Day) (i : ℤ) (db : Db) (c : Option CoverRotation)
    → db.cover_rotation ≡ c
    → fixed_rows (after (upsert_cover_rotation_state d i db)) ≡ fixed_rows db
unfolding upsert_cover_rotation_state
cover_upsert_fixed d i db none h = rw (h, upsert_cover_rotation_state) refl
cover_upsert_fixed d i db (some c) h = rw (h, upsert_cover_rotation_state) refl

anchor_fixed :
    (d : Day) (i : ℤ) (db : Db) (c : Option CoverRotation)
    → db.cover_rotation ≡ c
    → fixed_rows (after (write_reassignment_anchor d i db)) ≡ fixed_rows db
unfolding write_reassignment_anchor
anchor_fixed d i db none h = rw (h, write_reassignment_anchor) refl
anchor_fixed d i db (some c) h = rw (h, write_reassignment_anchor) refl

commit_fixed :
    (src : RotationSource) (d : Day) (i : ℕ) (e : Engine)
    → fixed_rows (after (commit_for src d i e)).db ≡ fixed_rows e.db
unfolding commit_for commit_cover_rotation_state commit_reassign_rotation_state on_db
commit_fixed ad_hoc d i e =
    lift-Same fixed_rows keep-reps keep-adds keep-drew e
      (upsert_cover_rotation_state d (pos i) e.db)
      (cover_upsert_fixed d (pos i) e.db e.db.cover_rotation refl)
commit_fixed reassign d i e =
    lift-Same fixed_rows keep-reps keep-adds keep-drew
      (record e { reassign_last_date = d; reassign_last_index = pos i })
      (write_reassignment_anchor d (pos i) e.db)
      (anchor_fixed d (pos i) e.db e.db.cover_rotation refl)

commit_reassign_ad_hoc :
    (d : Day) (i : ℕ) (e : Engine)
    → get_cover_rotation_state (after (commit_for reassign d i e)).db
      ≡ get_cover_rotation_state e.db
unfolding commit_for commit_reassign_rotation_state on_db get_cover_rotation_state
commit_reassign_ad_hoc d i e =
    lift-Same get_cover_rotation_state (λ d c db. refl) (λ d c o n db. refl) (λ n db. refl)
      (record e { reassign_last_date = d; reassign_last_index = pos i })
      (write_reassignment_anchor d (pos i) e.db)
      (anchor_same d (pos i) e.db e.db.cover_rotation refl)

status_fixed :
    (id : ℕ) (s : Text) (e : Engine)
    → fixed_rows (after (on_db (update_leave_status id s) e)).db ≡ fixed_rows e.db
unfolding on_db lift_outcome update_leave_status
status_fixed id s e = refl

status_ad_hoc :
    (id : ℕ) (s : Text) (e : Engine)
    → get_cover_rotation_state (after (on_db (update_leave_status id s) e)).db
      ≡ get_cover_rotation_state e.db
unfolding on_db lift_outcome update_leave_status get_cover_rotation_state
status_ad_hoc id s e = refl

-- The covering of a leave with the reassign's rotation never changes the ad-hoc rotation's state,
-- whatever its outcome.
pub reassign_keeps_ad_hoc :
    (id : ℕ) (e : Engine)
    → get_cover_rotation_state (after (assign_covers_for_leave id reassign e)).db
      ≡ get_cover_rotation_state e.db
unfolding get_cover_rotation_state
reassign_keeps_ad_hoc id e =
    covering-Same get_cover_rotation_state (λ d c db. refl) (λ d c o n db. refl) (λ n db. refl)
      reassign id e status_ad_hoc
      (slot-Same get_cover_rotation_state (λ d c db. refl) (λ d c o n db. refl) (λ n db. refl)
        reassign commit_reassign_ad_hoc)

-- The covering of a leave never changes an original assignment, or one that a swap has moved, and adds
-- none of these, whatever its outcome and whichever rotation it uses.
pub covering_keeps_fixed :
    (src : RotationSource) (id : ℕ) (e : Engine)
    → fixed_rows (after (assign_covers_for_leave id src e)).db ≡ fixed_rows e.db
covering_keeps_fixed src id e =
    covering-Same fixed_rows keep-reps keep-adds keep-drew src id e status_fixed
      (slot-Same fixed_rows keep-reps keep-adds keep-drew src (commit_fixed src))
