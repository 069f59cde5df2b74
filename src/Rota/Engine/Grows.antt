-- ===== src/Rota/Engine/Grows.antt =====
-- The rows that calls of the engine (internal/rota/engine.go) add.
use madhatter.Base.{
  ℕ, ◌≡◌, refl, sym, ◌∙◌, ap, Bool, inl, inr, List, [], ◌∷◌, ◌++◌, Option, none, some, Option-cases,
}
use mathlib.Core.List.{append-nil, append_assoc}
use madhatter.Calendar.{Day}
use madhatter.Store.{TeamMember, RotaAssignment, CoverRotation, Db}
use madhatter.Store.Exec.{Outcome, ok, err, after}
use madhatter.Store.Rotation.{upsert_cover_rotation_state, upsert_r1_rotation_state}
use madhatter.Store.Assignments.{create_rota_assignment}
use madhatter.Store.Assignments.Create.{Created, create-Created, new_row}
use madhatter.Rota.Cover.{find_member_index}
use madhatter.Rota.Engine.{
  Engine, on_db, advance_r1_rotation_state, record_actual_cover_slot, lift_outcome, ignore_error,
  commit_cover_rotation_state,
}

-- The rows that are there stay as they are, and so do members, leaves and holidays.
pub record Grows (e f : Engine) : Type 0 where
  pub same_members : f.db.members ≡ e.db.members
  pub same_leaves : f.db.leaves ≡ e.db.leaves
  pub same_checker : f.holiday_checker ≡ e.holiday_checker
  pub added : List RotaAssignment
  pub grown : f.db.assignments ≡ e.db.assignments ++ added

pub Grows-of_same :
    (e f : Engine)
    → f.db.members ≡ e.db.members
    → f.db.leaves ≡ e.db.leaves
    → f.holiday_checker ≡ e.holiday_checker
    → f.db.assignments ≡ e.db.assignments
    → Grows e f
Grows-of_same e f m l c a = record {
  same_members = m;
  same_leaves = l;
  same_checker = c;
  added = [];
  grown = a ∙ sym (append-nil e.db.assignments);
}

pub Grows-refl : (e : Engine) → Grows e e
Grows-refl e = Grows-of_same e e refl refl refl refl

pub Grows-trans : (e f g : Engine) → Grows e f → Grows f g → Grows e g
Grows-trans e f g h k = record {
  same_members = k.same_members ∙ h.same_members;
  same_leaves = k.same_leaves ∙ h.same_leaves;
  same_checker = k.same_checker ∙ h.same_checker;
  added = h.added ++ k.added;
  grown = k.grown ∙ ap (λ t. t ++ k.added) h.grown ∙ append_assoc e.db.assignments h.added k.added;
}

Created-Grows :
    (date : Day) (member_id : ℕ) (is_cover : Bool) (original : Option ℕ) (e : Engine)
    (r : Outcome Db ℕ)
    → Created date member_id is_cover original e.db r
    → Grows e (after (lift_outcome e r))
unfolding lift_outcome
Created-Grows date member_id is_cover original e (ok id db) c = record {
  same_members = ap Db.members c.1;
  same_leaves = ap Db.leaves c.1;
  same_checker = refl;
  added = new_row date member_id is_cover original e.db ∷ [];
  grown = ap Db.assignments c.1;
}
Created-Grows date member_id is_cover original e (err x db) (n, c) =
    Grows-of_same _ _ (ap Db.members c) (ap Db.leaves c) refl (ap Db.assignments c)

pub create_rota_assignment-Grows :
    (date : Day) (member_id : ℕ) (is_cover : Bool) (original : Option ℕ) (e : Engine)
    → Grows e (after (on_db (create_rota_assignment date member_id is_cover original) e))
unfolding on_db
create_rota_assignment-Grows date member_id is_cover original e =
    Created-Grows date member_id is_cover original e _
      (create-Created date member_id is_cover original e.db)

pub advance_r1-Grows :
    (d : Day) (i : ℕ) (e : Engine) → Grows e (after (advance_r1_rotation_state d i e))
unfolding advance_r1_rotation_state on_db lift_outcome upsert_r1_rotation_state
advance_r1-Grows d i e = Grows-of_same _ _ refl refl refl refl

commit_cover-Grows :
    (d : Day) (i : ℕ) (e : Engine) (c : Option CoverRotation)
    → e.db.cover_rotation ≡ c
    → Grows e (after (commit_cover_rotation_state d i e))
unfolding commit_cover_rotation_state on_db lift_outcome upsert_cover_rotation_state
commit_cover-Grows d i e none h =
    rw (h, upsert_cover_rotation_state) (Grows-of_same _ _ refl refl refl refl)
commit_cover-Grows d i e (some c) h =
    rw (h, upsert_cover_rotation_state) (Grows-of_same _ _ refl refl refl refl)

pub record_actual_cover_slot-Grows :
    (d : Day) (members : List TeamMember) (id : ℕ) (e : Engine)
    → Grows e (after (record_actual_cover_slot d members id e))
unfolding record_actual_cover_slot ignore_error
record_actual_cover_slot-Grows d members id e = elim (Option-cases (find_member_index members id)) [
  | inl h ↦ rw (h, record_actual_cover_slot) (Grows-refl e)
  | inr (i, h) ↦
      rw (h, record_actual_cover_slot) (commit_cover-Grows d i e e.db.cover_rotation refl)
]
