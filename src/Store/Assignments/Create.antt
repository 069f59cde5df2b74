-- ===== src/Store/Assignments/Create.antt =====
-- `CreateRotaAssignment` of internal/database/rota.go, on every branch.
use madhatter.Base.{
  ℕ, suc, ◌==◌, ◌≡◌, refl, Bool, true, false, Bool-cases, inl, inr, any, [], ◌∷◌, ◌++◌, Option,
}
use madhatter.Calendar.{Day}
use madhatter.Store.{RotaAssignment, Db, has_member}
use madhatter.Store.Exec.{Outcome, ok, err}
use madhatter.Store.Assignments.{create_rota_assignment, clashes, original_present}

module _ (date : Day) (member_id : ℕ) (is_cover : Bool) (original : Option ℕ) (db : Db) where
  abbrev pub new_row : RotaAssignment
  new_row = record {
    id = db.uuid db.drawn;
    date = date;
    member_id = member_id;
    is_cover = is_cover;
    is_swapped = false;
    original_assignment_id = original;
  }

  -- A success adds the new row, which clashes with none that is there, for a member who is there; an
  -- error changes no table.
  abbrev pub Created : Outcome Db ℕ → Type 0
  Created (ok id db') =
      (id ≡ db.uuid db.drawn)
      × (db' ≡ record db { assignments = db.assignments ++ new_row ∷ []; drawn = suc db.drawn })
      × (any (clashes new_row) db.assignments ≡ false)
      × (has_member member_id db.members ≡ true)
      × (original_present original db.assignments ≡ true)
  Created (err x db') = (n : ℕ) × (db' ≡ record db { drawn = n })

  -- A success returns a new id and adds one row, which shares its id, and its date and kind, with no row
  -- that was there, whose member is there, and so is the original it names; an error changes no table.
  pub create-Created : Created (create_rota_assignment date member_id is_cover original db)
  unfolding create_rota_assignment
  create-Created = elim (Bool-cases (member_id == 0)) [
    | inl e ↦ rw e (db.drawn, refl)
    | inr e ↦ elim (Bool-cases (has_member member_id db.members)) [
      | inr f ↦ rw (e, f) (db.drawn, refl)
      | inl f ↦ elim (Bool-cases (any (clashes new_row) db.assignments)) [
        | inl g ↦ rw (e, f, g) (suc db.drawn, refl)
        | inr g ↦ elim (Bool-cases (original_present original db.assignments)) [
          | inl h ↦ rw (e, f, g, h) (refl, refl, g, f, h)
          | inr h ↦ rw (e, f, g, h) (suc db.drawn, refl)
        ]
      ]
    ]
  ]
