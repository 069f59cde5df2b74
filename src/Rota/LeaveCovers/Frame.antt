-- ===== src/Rota/LeaveCovers/Frame.antt =====
-- What the covering of a leave (internal/rota/engine.go) keeps, from what its writes keep.
use madhatter.Base.{
  ℕ, zero, suc, ◌-◌, ◌==◌, Bool-cases, Option-cases, inl, inr, List, [], length, find, Text, codes,
  if◌then◌else◌,
}
use madhatter.Calendar.{Day, should_skip_date}
use madhatter.Store.{TeamMember, LeaveRecord}
use madhatter.Store.Exec.{Outcome, ok, after, bind}
use madhatter.Store.Exec.Frames.{after-bind}
use madhatter.Store.Members.{get_active_team_members}
use madhatter.Store.Leaves.{get_leave_by_date, get_leave_by_id, update_leave_status}
use madhatter.Rota.Cover.{find_cover, is_leave_active}
use madhatter.Rota.Engine.{
  Engine, RotationSource, ad_hoc, reassign, on_db, lift_outcome, compute_rotation_index,
  record_actual_cover_slot_for,
}
use madhatter.Rota.LeaveCovers.{
  ensure_original_assignment, create_cover_assignment, process_leave_date, process_leave_dates,
  CoverDates, add_date, fire_cover_assigned, assign_covers_for_leave,
}

module _ (R : Engine → Engine → Type 0) (R_refl : (e : Engine) → R e e)
    (R_trans : (e f g : Engine) → R e f → R f g → R e g) (src : RotationSource)
    (cover : (d : Day) (c o : ℕ) (e : Engine)
      → R e (after (on_db (create_cover_assignment d c o) e)))
    (set_status : (id : ℕ) (s : Text) (e : Engine)
      → R e (after (on_db (update_leave_status id s) e)))
    (slot : (d : Day) (members : List TeamMember) (id : ℕ) (e : Engine)
      → R e (after (record_actual_cover_slot_for src d members id e)))
    (fire : (leave : LeaveRecord) (members : List TeamMember) (dates : CoverDates) (e : Engine)
      → R e (after (fire_cover_assigned leave members dates e))) where
  chain :
      {A B : Type 0} (e : Engine) (r : Outcome Engine A) (k : A → Engine → Outcome Engine B)
      → R e (after r)
      → ((a : A) (f : Engine) → R f (after (k a f)))
      → R e (after (bind r k))
  chain e r k h rest = after-bind R R_trans e r k h rest

  process_leave_date-frame :
      (d : Day) (members : List TeamMember) (leave : LeaveRecord) (id : ℕ) (e : Engine)
      → R e (after (process_leave_date d members leave id src e))
  unfolding process_leave_date
  process_leave_date-frame d members leave id e =
      elim (Bool-cases (should_skip_date e.holiday_checker d)) [
        | inl x ↦ rw (x, process_leave_date) (R_refl e)
        | inr x ↦ elim (Option-cases (ensure_original_assignment d leave e.db)) [
          | inl y ↦ rw (x, y, process_leave_date) (R_refl e)
          | inr (o, y) ↦
              elim (Option-cases (
                find_cover members (get_leave_by_date d e.db)
                  (compute_rotation_index src d (length members) e))) [
                    | inl z ↦ rw (x, y, z, process_leave_date) (R_refl e)
                    | inr (c, z) ↦
                        rw (x, y, z, process_leave_date)
                          (chain e (on_db (create_cover_assignment d c.id o) e) _ (cover d c.id o e)
                            (λ u f.
                              chain f (on_db (update_leave_status id (codes "assigned")) f) _
                                (set_status id (codes "assigned") f)
                                (λ v g.
                                  chain g (record_actual_cover_slot_for src d members c.id g)
                                    (λ w h. ok c.id h) (slot d members c.id g) (λ w h. R_refl h))))
                  ]
        ]
      ]

  process_leave_dates-frame :
      (leave : LeaveRecord) (members : List TeamMember) (id : ℕ) (d : Day) (n : ℕ)
      (covered : CoverDates) (e : Engine)
      → R e (after (process_leave_dates leave members id src d n covered e))
  unfolding process_leave_dates
  process_leave_dates-frame leave members id d zero covered e = R_refl e
  process_leave_dates-frame leave members id d (suc n) covered e =
      chain e (process_leave_date d members leave id src e)
        (λ c f.
          process_leave_dates leave members id src (suc d) n
            (if c == 0 then covered else add_date c d covered) f)
        (process_leave_date-frame d members leave id e)
        (λ c f.
          process_leave_dates-frame leave members id (suc d) n
            (if c == 0 then covered else add_date c d covered) f)

  last_step :
      (s : RotationSource) (leave : LeaveRecord) (members : List TeamMember) (dates : CoverDates)
      (e : Engine)
      → R e (
          after (elim s as (λ x. Outcome Engine Unit) [
            | ad_hoc ↦ fire_cover_assigned leave members dates e
            | reassign ↦ ok tt e
          ]))
  last_step ad_hoc leave members dates e = fire leave members dates e
  last_step reassign leave members dates e = R_refl e

  get_leave-frame : (id : ℕ) (e : Engine) → R e (after (on_db (get_leave_by_id id) e))
  unfolding on_db get_leave_by_id lift_outcome
  get_leave-frame id e = elim (Option-cases (find (λ (l : LeaveRecord). l.id == id) e.db.leaves)) [
    | inl x ↦ rw (x, after, get_leave_by_id, lift_outcome) (R_refl e)
    | inr (leave, x) ↦ rw (x, after, get_leave_by_id, lift_outcome) (R_refl e)
  ]

  pub assign_covers_for_leave-frame :
      (id : ℕ) (e : Engine) → R e (after (assign_covers_for_leave id src e))
  unfolding assign_covers_for_leave
  assign_covers_for_leave-frame id e =
      chain e (on_db (get_leave_by_id id) e) _ (get_leave-frame id e) λ leave f.
        elim (Bool-cases (is_leave_active leave.status)) [
          | inr y ↦ rw y (R_refl f)
          | inl y ↦ rw y (
              chain f
                (process_leave_dates leave (get_active_team_members f.db) id src leave.start_date
                  (suc leave.end_date - leave.start_date) [] f)
                _
                (process_leave_dates-frame leave (get_active_team_members f.db) id leave.start_date
                  (suc leave.end_date - leave.start_date) [] f)
                (λ dates g. last_step src leave (get_active_team_members f.db) dates g))
        ]
