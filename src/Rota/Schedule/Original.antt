-- ===== src/Rota/Schedule/Original.antt =====
-- `createAssignment` and `processDate` of internal/rota/engine.go: what one date adds.
use madhatter.Base.{
  ℕ, ◌==◌, ◌≡◌, refl, sym, ap, ◌∙◌, ◌⊎◌, inl, inr, true, false, Bool-cases, List, [], ◌∷◌, ◌++◌,
  none, some, subst, arith,
}
use madhatter.Base.Int.{pos}
use mathlib.Core.List.{append-nil, append_assoc}
use madhatter.Calendar.{Day}
use madhatter.Store.{TeamMember, RotaAssignment, R1Rotation, Db}
use madhatter.Store.Exec.{Outcome, ok, err, after, bind}
use madhatter.Store.Rotation.{upsert_r1_rotation_state}
use madhatter.Store.Assignments.{create_rota_assignment}
use madhatter.Store.Assignments.Create.{Created, create-Created, new_row}
use madhatter.Rota.Engine.{Engine, on_db, lift_outcome, advance_r1_rotation_state}
use madhatter.Rota.Schedule.{create_assignment}

module _ (d : Day) (index : ℕ) where
  abbrev new_state : List R1Rotation
  new_state = record { last_date = d; last_index = pos index } ∷ []

  -- More rows may have come, and the R1 state was stored once.
  abbrev Advanced : Engine → Engine → Type 0
  Advanced e f =
      (rows : List RotaAssignment) × (f.db.assignments ≡ e.db.assignments ++ rows)
      × (f.db.r1_rotation ≡ e.db.r1_rotation ++ new_state)

  -- The original row was written, first of all, and the R1 state advanced once.
  abbrev Put : ℕ → Engine → Engine → Type 0
  Put member_id e f =
      (rows : List RotaAssignment) × (f.db.assignments
        ≡ e.db.assignments ++ new_row d member_id false none e.db ∷ rows)
      × (f.db.r1_rotation ≡ e.db.r1_rotation ++ new_state)

  -- A success did that; an error did that, or left both tables as they were.
  abbrev pub Written : ℕ → Engine → Outcome Engine Unit → Type 0
  Written member_id e (ok u f) = Put member_id e f
  Written member_id e (err x f) =
      ((f.db.assignments ≡ e.db.assignments) × (f.db.r1_rotation ≡ e.db.r1_rotation))
      ⊎ Put member_id e f

  Written-of_Put :
      (member_id : ℕ) (e : Engine) (r : Outcome Engine Unit)
      → Put member_id e (after r)
      → Written member_id e r
  Written-of_Put member_id e (ok u f) p = p
  Written-of_Put member_id e (err x f) p = inr p

  original_then :
      (member_id : ℕ) (e : Engine) (r : Outcome Db ℕ) (k : ℕ → Engine → Outcome Engine Unit)
      → Created d member_id false none e.db r
      → ((id : ℕ) (f : Engine) → Advanced f (after (k id f)))
      → Written member_id e (bind (lift_outcome e r) k)
  unfolding lift_outcome
  original_then member_id e (err x db) k (n, same) next =
      inl (ap Db.assignments same, ap Db.r1_rotation same)
  original_then member_id e (ok id db) k (i, same, rest, r2, r3) next =
      let (rows, grown, stored) = next id (record e { db = db }) in
      let row : List RotaAssignment = new_row d member_id false none e.db ∷ [] in
      Written-of_Put member_id e (k id (record e { db = db })) (
        rows,
        grown
            ∙ ap (λ (t : Db). t.assignments ++ rows) same
            ∙ append_assoc e.db.assignments row rows,
        stored ∙ ap (λ (t : Db). t.r1_rotation ++ new_state) same,
      )

  advance-Advanced : (e : Engine) → Advanced e (after (advance_r1_rotation_state d index e))
  unfolding advance_r1_rotation_state on_db lift_outcome upsert_r1_rotation_state
  advance-Advanced e = ([], sym (append-nil e.db.assignments), refl)

  cover_then :
      (member_id original_id : ℕ) (e f : Engine) (r : Outcome Db ℕ)
      → Created d member_id true (some original_id) f.db r
      → Advanced e f
      → Advanced e (after (bind (lift_outcome f r) (λ _ g. ok tt g)))
  unfolding lift_outcome
  cover_then member_id original_id e f (err x db) (n, same) (rows, grown, stored) =
      (rows, ap Db.assignments same ∙ grown, ap Db.r1_rotation same ∙ stored)
  cover_then member_id original_id e f (ok id db) (i, same, rest, r2, r3) (rows, grown, stored) =
      let row : List RotaAssignment = new_row d member_id true (some original_id) f.db ∷ [] in
      (
        rows ++ row,
        ap Db.assignments same ∙ ap (λ t. t ++ row) grown ∙ append_assoc e.db.assignments rows row,
        ap Db.r1_rotation same ∙ stored,
      )

  -- The rotation of the original members advances exactly when a new original assignment is written, on
  -- every outcome: also where the cover's row then fails.
  pub create_assignment-Written :
      (original covering : TeamMember) (e : Engine)
      → Written original.id e (create_assignment d index original covering e)
  unfolding create_assignment on_db advance_r1_rotation_state upsert_r1_rotation_state lift_outcome
  create_assignment-Written original covering e = elim (Bool-cases (covering.id == original.id)) [
    | inl same ↦
        rw (same, create_assignment)
          (subst
            (λ m. Written m e (
              bind (on_db (create_rota_assignment d covering.id false none) e)
                (λ i f. advance_r1_rotation_state d index f)))
            (let q : covering.id ≡ original.id = ground arith in q)
            (original_then covering.id e (create_rota_assignment d covering.id false none e.db)
              (λ i f. advance_r1_rotation_state d index f)
              (create-Created d covering.id false none e.db) (λ i f. advance-Advanced f)))
    | inr other ↦
        rw (other, create_assignment)
          (original_then original.id e (create_rota_assignment d original.id false none e.db)
            (λ id f. bind (advance_r1_rotation_state d index f) (λ _ g.
              bind (on_db (create_rota_assignment d covering.id true (some id)) g)
                (λ _ h. ok tt h)))
            (create-Created d original.id false none e.db)
            (λ id f.
              cover_then covering.id id f (after (advance_r1_rotation_state d index f))
                (create_rota_assignment d covering.id true (some id)
                  (after (advance_r1_rotation_state d index f)).db)
                (create-Created d covering.id true (some id)
                  (after (advance_r1_rotation_state d index f)).db)
                (advance-Advanced f)))
  ]
