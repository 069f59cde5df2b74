-- ===== src/Rota/Schedule/Complete.antt =====
-- `GenerateSchedule` of internal/rota/engine.go: what the loop over the dates leaves.
use madhatter.Base.{
  ℕ, ◌==◌, ◌≡◌, refl, ap, ◌∙◌, inl, inr, Bool, true, false, not, ◌&&◌, ◌||◌, Bool-cases,
  Option-cases, List, Option, none, some, length, any, any-append, get_elem?, ==_refl,
}
use madhatter.Calendar.{Day, should_skip_date}
use madhatter.Store.{TeamMember, LeaveRecord, RotaAssignment}
use madhatter.Store.Exec.{Outcome, Exec, ok, err, after, bind, pure, ◌>>◌}
use madhatter.Store.Exec.Frames.{after-bind, OnOk}
use madhatter.Store.Leaves.{get_leave_by_date}
use madhatter.Store.Assignments.{create_rota_assignment}
use madhatter.Rota.Cover.{original_is_on_leave, find_cover}
use madhatter.Rota.Rotation.{compute_cover_rotation_index, r1_rotation_index}
use madhatter.Rota.Engine.{Engine, on_db, advance_r1_rotation_state, record_actual_cover_slot}
use madhatter.Rota.Engine.Grows.{
  Grows, Grows-refl, Grows-trans, create_rota_assignment-Grows, advance_r1-Grows,
  record_actual_cover_slot-Grows,
}
use madhatter.Rota.Schedule.{
  determine_covering_member, create_assignment, member_at, assign_date, process_date,
}
use madhatter.Rota.Schedule.Original.{Written, create_assignment-Written}

-- Somebody is the original of this date.
abbrev pub HasOriginal : Day → Engine → Type 0
HasOriginal d e =
    any (λ (a : RotaAssignment). a.date == d && not a.is_cover) e.db.assignments ≡ true

pub HasOriginal-Grows : (d : Day) (e f : Engine) → Grows e f → HasOriginal d e → HasOriginal d f
HasOriginal-Grows d e f g h =
    ap (any (λ (a : RotaAssignment). a.date == d && not a.is_cover)) g.grown
    ∙ any-append (λ (a : RotaAssignment). a.date == d && not a.is_cover) e.db.assignments g.added
    ∙ rw h refl

||-true : (a : Bool) → (a || true) ≡ true
||-true true = refl
||-true false = refl

module _ (d : Day) where
  cover_chosen :
      (original : TeamMember) (members : List TeamMember) (o : Option TeamMember) (e : Engine)
      → Grows e (
          after (
            (elim o as (λ x. Exec Engine TeamMember) [
              | none ↦ pure original
              | some cover ↦ record_actual_cover_slot d members cover.id >> pure cover
            ])
              e))
  cover_chosen original members none e = Grows-refl e
  cover_chosen original members (some c) e =
      after-bind Grows Grows-trans e (record_actual_cover_slot d members c.id e) (λ u t. ok c t)
        (record_actual_cover_slot-Grows d members c.id e) (λ u t. Grows-refl t)

  determine-Grows :
      (original : TeamMember) (leaves : List LeaveRecord) (members : List TeamMember) (e : Engine)
      → Grows e (after (determine_covering_member original leaves members d e))
  unfolding determine_covering_member
  determine-Grows original leaves members e =
      elim (Bool-cases (original_is_on_leave original leaves)) [
        | inr x ↦ rw (x, determine_covering_member) (Grows-refl e)
        | inl x ↦
            rw (x, determine_covering_member)
              (cover_chosen original members
                (find_cover members leaves
                  (compute_cover_rotation_index e.holiday_checker e.db d (length members)))
                e)
      ]

  create_assignment-Grows :
      (index : ℕ) (original covering : TeamMember) (e : Engine)
      → Grows e (after (create_assignment d index original covering e))
  unfolding create_assignment
  create_assignment-Grows index original covering e =
      elim (Bool-cases (covering.id == original.id)) [
        | inl x ↦
            rw (x, create_assignment)
              (after-bind Grows Grows-trans e
                (on_db (create_rota_assignment d covering.id false none) e)
                (λ i f. advance_r1_rotation_state d index f)
                (create_rota_assignment-Grows d covering.id false none e)
                (λ i f. advance_r1-Grows d index f))
        | inr x ↦
            rw (x, create_assignment)
              (after-bind Grows Grows-trans e
                (on_db (create_rota_assignment d original.id false none) e)
                (λ id f. bind (advance_r1_rotation_state d index f) (λ u g.
                  bind (on_db (create_rota_assignment d covering.id true (some id)) g)
                    (λ i h. ok tt h)))
                (create_rota_assignment-Grows d original.id false none e)
                (λ id f.
                  after-bind Grows Grows-trans f (advance_r1_rotation_state d index f)
                    (λ u g.
                      bind (on_db (create_rota_assignment d covering.id true (some id)) g)
                        (λ i h. ok tt h))
                    (advance_r1-Grows d index f)
                    (λ u g.
                      after-bind Grows Grows-trans g
                        (on_db (create_rota_assignment d covering.id true (some id)) g)
                        (λ i h. ok tt h)
                        (create_rota_assignment-Grows d covering.id true (some id) g)
                        (λ i h. Grows-refl h))))
      ]

  -- Rows only come, and a success leaves an original for the date.
  abbrev Filled : Engine → Outcome Engine Unit → Type 0
  Filled e r = Grows e (after r) × OnOk (λ (u : Unit) f. HasOriginal d f) r

  Written-HasOriginal :
      (index id : ℕ) (e : Engine) (r : Outcome Engine Unit)
      → Written d index id e r
      → OnOk (λ (u : Unit) f. HasOriginal d f) r
  Written-HasOriginal index id e (err x f) w = tt
  Written-HasOriginal index id e (ok u f) (rows, grown, stored) =
      ap (any (λ (a : RotaAssignment). a.date == d && not a.is_cover)) grown
      ∙ any-append (λ (a : RotaAssignment). a.date == d && not a.is_cover) e.db.assignments _
      ∙ ap
          (λ b.
            any (λ (a : RotaAssignment). a.date == d && not a.is_cover) e.db.assignments
            || ((b && true) || any (λ (a : RotaAssignment). a.date == d && not a.is_cover) rows))
          (==_refl d)
      ∙ ||-true (any (λ (a : RotaAssignment). a.date == d && not a.is_cover) e.db.assignments)

  bind-Filled :
      {A : Type 0} (e : Engine) (r : Outcome Engine A) (k : A → Engine → Outcome Engine Unit)
      → Grows e (after r)
      → ((a : A) (f : Engine) → Filled f (k a f))
      → Filled e (bind r k)
  bind-Filled e (err x f) k h rest = (h, tt)
  bind-Filled e (ok a f) k h rest = (Grows-trans e f (after (k a f)) h (rest a f).0, (rest a f).1)

  member_at-Grows :
      (members : List TeamMember) (i : ℕ) (e : Engine) → Grows e (after (member_at members i e))
  unfolding member_at
  member_at-Grows members i e = elim (Option-cases (get_elem? members i)) [
    | inl x ↦ rw (x, member_at) (Grows-refl e)
    | inr (m, x) ↦ rw (x, member_at) (Grows-refl e)
  ]

  assign_date-Filled : (members : List TeamMember) (e : Engine) → Filled e (assign_date d members e)
  unfolding assign_date
  assign_date-Filled members e =
      let index : ℕ = r1_rotation_index e.holiday_checker e.db d (length members) in
      bind-Filled e (member_at members index e)
        (λ m f.
          bind (determine_covering_member m (get_leave_by_date d e.db) members d f)
            (λ c g. create_assignment d index m c g))
        (member_at-Grows members index e)
        (λ m f.
          bind-Filled f (determine_covering_member m (get_leave_by_date d e.db) members d f)
            (λ c g. create_assignment d index m c g)
            (determine-Grows m (get_leave_by_date d e.db) members f)
            (λ c g. (
              create_assignment-Grows index m c g,
              Written-HasOriginal index m.id g (create_assignment d index m c g)
                  (create_assignment-Written d index m c g),
            )))

-- A date that is no weekend and no holiday is filled; any other is left alone.
pub process_date-Grows :
    (d : Day) (members : List TeamMember) (e : Engine) → Grows e (after (process_date d members e))
unfolding process_date
process_date-Grows d members e = elim (Bool-cases (should_skip_date e.holiday_checker d)) [
  | inl x ↦ rw (x, process_date) (Grows-refl e)
  | inr x ↦ rw (x, process_date) (assign_date-Filled d members e).0
]

pub process_date-HasOriginal :
    (d : Day) (members : List TeamMember) (e : Engine)
    → should_skip_date e.holiday_checker d ≡ false
    → OnOk (λ (u : Unit) f. HasOriginal d f) (process_date d members e)
unfolding process_date
process_date-HasOriginal d members e x = rw (x, process_date) (assign_date-Filled d members e).1
