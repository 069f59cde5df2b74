-- ===== src/Rota/LeaveCovers/Chosen.antt =====
-- Whom `processLeaveDate` of internal/rota/engine.go assigns.
use madhatter.Base.{
  ℕ, ◌<◌, ◌≡◌, refl, subst, arith, false, Bool-cases, Option-cases, ◌⊎◌, inl, inr, List, [], ◌∷◌,
  length, get_elem?, some, codes,
}
use madhatter.Calendar.{Day, should_skip_date}
use madhatter.Store.{TeamMember, LeaveRecord, Db}
use madhatter.Store.Exec.{Outcome, ok, err, after, bind}
use madhatter.Store.Exec.Frames.{OnOk, OnOk-bind}
use madhatter.Store.Leaves.{get_leave_by_date, update_leave_status}
use madhatter.Rota.Cover.{find_cover, original_is_on_leave}
use madhatter.Rota.Cover.Laws.{find_cover-free}
use madhatter.Rota.Engine.{
  Engine, RotationSource, on_db, lift_outcome, compute_rotation_index, record_actual_cover_slot_for,
}
use madhatter.Rota.LeaveCovers.Given.{
  IsCovered, IsCovered-same, create_cover_assignment-IsCovered, slot-assignments,
}
use madhatter.Rota.LeaveCovers.{
  ensure_original_assignment, create_cover_assignment, process_leave_date,
}

find_cover-team :
    (members : List TeamMember) (leaves : List LeaveRecord) (start : ℕ) (c : TeamMember)
    → find_cover members leaves start ≡ some c
    → 0 < length members
unfolding find_cover
find_cover-team [] leaves start c h = absurd (ground arith)
find_cover-team (m ∷ members) leaves start c h = omega arith

-- A member of the team with this id who has no leave on the date.
abbrev pub IsFreeMember : List TeamMember → List LeaveRecord → ℕ → Type 0
IsFreeMember members leaves id =
    (m : TeamMember) × (m.id ≡ id)
    × ((j : ℕ) × (j < length members) × (get_elem? members j ≡ some m))
    × (original_is_on_leave m leaves ≡ false)

chosen :
    (members : List TeamMember) (leaves : List LeaveRecord) (start : ℕ) (c : TeamMember)
    → find_cover members leaves start ≡ some c
    → IsFreeMember members leaves c.id
chosen members leaves start c h =
    let (j, low, at, free) =
      find_cover-free members leaves start c h (find_cover-team members leaves start c h) in
    (c, refl, (j, low, at), free)

-- On a success the state is that of the outcome.
OnOk-after : {S A : Type 0} (P : S → Type 0) (r : Outcome S A) → P (after r) → OnOk (λ _ s. P s) r
OnOk-after P (ok a s) h = h
OnOk-after P (err x s) h = tt

lift-OnOk :
    {A : Type 0} (P : Db → Type 0) (e : Engine) (r : Outcome Db A)
    → OnOk (λ _ db. P db) r
    → OnOk (λ _ f. P f.db) (lift_outcome e r)
unfolding lift_outcome
lift-OnOk P e (ok a db) h = h
lift-OnOk P e (err x db) h = tt

-- The outcome of a date of a leave: no cover and no change, or a member of the team who has no leave on
-- the date, and who then covers it unless the cover came of a swap.
abbrev pub CoverOf : Day → List TeamMember → Engine → ℕ → Engine → Type 0
CoverOf d members e c f =
    ((c ≡ 0) × (f ≡ e))
    ⊎ (IsFreeMember members (get_leave_by_date d e.db) c × IsCovered d c e.db f.db)

module _ (d : Day) (members : List TeamMember) (leave : LeaveRecord) (id : ℕ) (src : RotationSource)
    (e : Engine) where
  abbrev away : List LeaveRecord
  away = get_leave_by_date d e.db

  -- After the choice of a cover.
  writes-IsCovered :
      (c o : ℕ)
      → IsFreeMember members away c
      → OnOk (CoverOf d members e) (
          bind (on_db (create_cover_assignment d c o) e) λ _ e1.
            bind
              (on_db (update_leave_status id (codes "assigned")) e1)
              λ _ e2. bind (record_actual_cover_slot_for src d members c e2) λ _ e3. ok c e3)
  unfolding on_db lift_outcome update_leave_status
  writes-IsCovered c o free =
      OnOk-bind (λ _ f. IsCovered d c e.db f.db) (CoverOf d members e) _ _
        (lift-OnOk (IsCovered d c e.db) e (create_cover_assignment d c o e.db)
          (create_cover_assignment-IsCovered d c o e.db))
        (λ u f covered.
          OnOk-bind (λ _ g. IsCovered d c e.db g.db) (CoverOf d members e)
            (record_actual_cover_slot_for src d members c
              (after (on_db (update_leave_status id (codes "assigned")) f)))
            (λ _ h. ok c h)
            (OnOk-after (λ g. IsCovered d c e.db g.db) _
              (IsCovered-same d c e.db f.db _
                (slot-assignments src d members c
                  (after (on_db (update_leave_status id (codes "assigned")) f)))
                covered))
            (λ w h k. inr (free, k)))

  process_leave_date-CoverOf :
      OnOk (CoverOf d members e) (process_leave_date d members leave id src e)
  unfolding process_leave_date
  process_leave_date-CoverOf = elim (Bool-cases (should_skip_date e.holiday_checker d)) [
    | inl x ↦ rw (x, process_leave_date) (inl (refl, refl))
    | inr x ↦ elim (Option-cases (ensure_original_assignment d leave e.db)) [
      | inl y ↦ rw (x, y, process_leave_date) (inl (refl, refl))
      | inr (o, y) ↦
          elim (Option-cases
            (find_cover members away (compute_rotation_index src d (length members) e))) [
              | inl z ↦ rw (x, y, z, process_leave_date) (inl (refl, refl))
              | inr (c, z) ↦
                  rw (x, y, z, process_leave_date)
                    (writes-IsCovered c.id o
                      (chosen members away (compute_rotation_index src d (length members) e) c z))
            ]
    ]
  ]

  -- A success on a date of a leave changes nothing and gives no cover, or gives a member of the team who
  -- has no leave on that date; then a cover row of the date has that member, unless the cover that was
  -- there came of a swap: in that case the assignments are as they were.
  pub process_leave_date-IsFreeMember :
      (c : ℕ) (f : Engine)
      → process_leave_date d members leave id src e ≡ ok c f
      → CoverOf d members e c f
  process_leave_date-IsFreeMember c f h =
      subst (OnOk (CoverOf d members e)) h process_leave_date-CoverOf
