-- ===== src/Rota/LeaveCovers/Shown.antt =====
-- The covering of a leave (internal/rota/engine.go) through a view of the tables.
use madhatter.Base.{
  ℕ, suc, ◌==◌, ◌≡◌, refl, ap, ◌∙◌, true, not, ◌||◌, Bool-cases, Option-cases, inl, inr, List, [],
  ◌∷◌, ◌++◌, some, find, update, Text, is_empty,
}
use madhatter.Calendar.{Day}
use madhatter.Store.{TeamMember, LeaveRecord, RotaAssignment, Db, has_member}
use madhatter.Store.Exec.{Outcome, ok, err, after, bind}
use madhatter.Store.Leaves.{update_leave_status}
use madhatter.Store.Assignments.{get_assignments_by_date}
use madhatter.Store.Assignments.Create.{Created, create-Created, new_row}
use madhatter.Rota.Cover.{find_member_index}
use madhatter.Rota.Engine.{
  Engine, RotationSource, on_db, lift_outcome, ignore_error, record_actual_cover_slot_for,
  commit_for,
}
use madhatter.Rota.LeaveCovers.{
  create_cover_assignment, repoint_cover, is_free_cover, CoverDates, fire_cover_assigned,
  assign_covers_for_leave,
}
use madhatter.Rota.LeaveCovers.Frame.{assign_covers_for_leave-frame}

-- What the tables show through `g`, if neither a change of free covers nor a new cover shows.
module _ {X : Type 0} (g : Db → X)
    (repointed : (d : Day) (c : ℕ) (db : Db)
      → g (record db {
        assignments =
            update
              (is_free_cover d)
              (λ (a : RotaAssignment). record a { member_id = c })
              db.assignments;
      })
        ≡ g db)
    (added : (d : Day) (c o n : ℕ) (db : Db)
      → g (record db {
        assignments = db.assignments ++ new_row d c true (some o) db ∷ [];
        drawn = n;
      })
        ≡ g db)
    (drew : (n : ℕ) (db : Db) → g (record db { drawn = n }) ≡ g db) where
  kept_by_new :
      (d : Day) (c o : ℕ) (db : Db) (r : Outcome Db ℕ)
      → Created d c true (some o) db r
      → g (after (bind r (λ i db'. ok tt db'))) ≡ g db
  kept_by_new d c o db (err x db') (n, same) = ap g same ∙ drew n db
  kept_by_new d c o db (ok i db') (id, same, x, y, z) = ap g same ∙ added d c o (suc db.drawn) db

  create_cover_assignment-same :
      (d : Day) (c o : ℕ) (db : Db) → g (after (create_cover_assignment d c o db)) ≡ g db
  unfolding create_cover_assignment repoint_cover
  create_cover_assignment-same d c o db =
      elim (Option-cases
        (find (λ (a : RotaAssignment). a.is_cover) (get_assignments_by_date d db))) [
          | inl x ↦
              rw (x, create_cover_assignment)
                (kept_by_new d c o db _ (create-Created d c true (some o) db))
          | inr (a, x) ↦ elim (Bool-cases a.is_swapped) [
            | inl y ↦ rw (x, y, create_cover_assignment) refl
            | inr y ↦ elim (Bool-cases (a.member_id == c)) [
              | inl z ↦ rw (x, y, z, create_cover_assignment) refl
              | inr z ↦ elim (Bool-cases (has_member c db.members)) [
                | inl w ↦ rw (x, y, z, w, create_cover_assignment, repoint_cover) (repointed d c db)
                | inr w ↦ rw (x, y, z, w, create_cover_assignment, repoint_cover) refl
              ]
            ]
          ]
        ]

  abbrev pub Same : Engine → Engine → Type 0
  Same e f = g f.db ≡ g e.db

  pub lift-Same :
      {A : Type 0} (e : Engine) (r : Outcome Db A)
      → g (after r) ≡ g e.db
      → Same e (after (lift_outcome e r))
  unfolding lift_outcome
  lift-Same e (ok a db) h = h
  lift-Same e (err x db) h = h

  fire-Same :
      (leave : LeaveRecord) (members : List TeamMember) (dates : CoverDates) (e : Engine)
      → Same e (after (fire_cover_assigned leave members dates e))
  unfolding fire_cover_assigned
  fire-Same leave members dates e = elim (Bool-cases (not e.notifying || is_empty dates)) [
    | inl x ↦ rw (x, fire_cover_assigned) refl
    | inr x ↦ rw (x, fire_cover_assigned) refl
  ]

  pub slot-Same :
      (src : RotationSource)
      → ((d : Day) (i : ℕ) (e : Engine) → Same e (after (commit_for src d i e)))
      → (d : Day) (members : List TeamMember) (id : ℕ) (e : Engine)
      → Same e (after (record_actual_cover_slot_for src d members id e))
  unfolding record_actual_cover_slot_for ignore_error
  slot-Same src commit d members id e = elim (Option-cases (find_member_index members id)) [
    | inl x ↦ rw (x, record_actual_cover_slot_for) refl
    | inr (i, x) ↦ rw (x, record_actual_cover_slot_for) (commit d i e)
  ]

  -- A covering keeps what `g` shows, if its status and its rotation state keep it.
  pub covering-Same :
      (src : RotationSource) (id : ℕ) (e : Engine)
      → ((id : ℕ) (s : Text) (e : Engine) → Same e (after (on_db (update_leave_status id s) e)))
      → ((d : Day) (members : List TeamMember) (id : ℕ) (e : Engine)
          → Same e (after (record_actual_cover_slot_for src d members id e)))
      → Same e (after (assign_covers_for_leave id src e))
  unfolding on_db
  covering-Same src id e status slot =
      assign_covers_for_leave-frame Same (λ f. refl) (λ a b c h k. k ∙ h) src
        (λ d c o f.
          lift-Same f (create_cover_assignment d c o f.db)
            (create_cover_assignment-same d c o f.db))
        status slot fire-Same id e
