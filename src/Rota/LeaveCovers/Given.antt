-- ===== src/Rota/LeaveCovers/Given.antt =====
-- The cover row that `createCoverAssignment` of internal/rota/engine.go leaves.
use madhatter.Base.{
  ℕ, ◌==◌, ==_refl, ◌≡◌, refl, ap, subst, ◌∙◌, true, Bool, ◌&&◌, &&-true, Bool-cases, Option-cases,
  ◌⊎◌, inl, inr, List, [], ◌∷◌, some, some_inj, find, keep, update, any, any-append, arith,
}
use madhatter.Base.Int.{ℤ, pos}
use madhatter.Calendar.{Day}
use madhatter.Store.{TeamMember, RotaAssignment, Db, has_member}
use madhatter.Store.Exec.{Outcome, ok, err, after, bind}
use madhatter.Store.Exec.Frames.{OnOk}
use madhatter.Store.Rotation.{upsert_cover_rotation_state, write_reassignment_anchor}
use madhatter.Store.Assignments.{get_assignments_by_date, on_date}
use madhatter.Store.Assignments.Create.{Created, create-Created, new_row}
use madhatter.Rota.Cover.{find_member_index}
use madhatter.Rota.Engine.{
  Engine, RotationSource, ad_hoc, reassign, on_db, lift_outcome, ignore_error, commit_for,
  commit_cover_rotation_state, commit_reassign_rotation_state, record_actual_cover_slot_for,
}
use madhatter.Rota.LeaveCovers.{create_cover_assignment, repoint_cover, is_free_cover}

-- A cover row of a date and a member.
abbrev pub is_cover_by : Day → ℕ → RotaAssignment → Bool
is_cover_by d c a = (a.date == d) && (a.is_cover && (a.member_id == c))

-- The member covers the date, in a row of its own; or the cover that was there came of a swap, and the
-- assignments are as they were.
unfoldable pub IsCovered : Day → ℕ → Db → Db → Type 0
IsCovered d c db db' =
    (any (is_cover_by d c) db'.assignments ≡ true)
    ⊎ ((a : RotaAssignment) × (find (λ (a : RotaAssignment). a.is_cover)
            (get_assignments_by_date d db)
          ≡ some a)
        × (a.is_swapped ≡ true)
        × (db'.assignments ≡ db.assignments))

IsCovered-by_row :
    (d : Day) (c : ℕ) (db db' : Db)
    → any (is_cover_by d c) db'.assignments ≡ true
    → IsCovered d c db db'
unfolding IsCovered
IsCovered-by_row d c db db' h = inl h

IsCovered-by_swap :
    (d : Day) (c : ℕ) (db : Db) (a : RotaAssignment)
    → find (λ (a : RotaAssignment). a.is_cover) (get_assignments_by_date d db) ≡ some a
    → a.is_swapped ≡ true
    → IsCovered d c db db
unfolding IsCovered
IsCovered-by_swap d c db a x y = inr (a, x, y, refl)

find-keep :
    (p q : RotaAssignment → Bool) (xs : List RotaAssignment) (a : RotaAssignment)
    → find p (keep q xs) ≡ some a
    → (p a ≡ true) × (q a ≡ true)
find-keep p q [] a h = absurd (ground arith)
find-keep p q (x ∷ xs) a h = elim (Bool-cases (q x)) [
  | inr out ↦ find-keep p q xs a (rw out at h)
  | inl in_it ↦ elim (Bool-cases (p x)) [
    | inl hit ↦
        let same : x ≡ a = some_inj (rw (in_it, hit) at h) in
        (subst (λ y. p y ≡ true) same hit, subst (λ y. q y ≡ true) same in_it)
    | inr miss ↦ find-keep p q xs a (rw (in_it, miss) at h)
  ]
]

any-found :
    (g p q : RotaAssignment → Bool) (xs : List RotaAssignment) (a : RotaAssignment)
    → find p (keep q xs) ≡ some a
    → g a ≡ true
    → any g xs ≡ true
any-found g p q [] a h k = absurd (ground arith)
any-found g p q (x ∷ xs) a h k = elim (Bool-cases (g x)) [
  | inl hit ↦ rw hit refl
  | inr other ↦ elim (Bool-cases (q x)) [
    | inr out ↦ rw other (any-found g p q xs a (rw out at h) k)
    | inl in_it ↦ elim (Bool-cases (p x)) [
      | inl first ↦ let same : x ≡ a = some_inj (rw (in_it, first) at h) in cc (same, k, other)
      | inr miss ↦ rw other (any-found g p q xs a (rw (in_it, miss) at h) k)
    ]
  ]
]

any-repointed :
    (d : Day) (c : ℕ) (xs : List RotaAssignment)
    → any (is_free_cover d) xs ≡ true
    → any
        (is_cover_by d c)
        (update (is_free_cover d) (λ (a : RotaAssignment). record a { member_id = c }) xs)
      ≡ true
any-repointed d c [] h = h
any-repointed d c (x ∷ xs) h = elim (Bool-cases (is_free_cover d x)) [
  | inl free ↦
      let is_it : ((x.date == d) && (x.is_cover && (c == c))) ≡ true = ground (arith, ==_refl c) in
      rw (free, is_it) refl
  | inr other ↦ ground (arith, any-repointed d c xs, other)
]

Created-IsCovered :
    (d : Day) (c o : ℕ) (db : Db) (r : Outcome Db ℕ)
    → Created d c true (some o) db r
    → OnOk (λ _ db'. IsCovered d c db db') (bind r (λ i db'. ok tt db'))
Created-IsCovered d c o db (err x db') h = tt
Created-IsCovered d c o db (ok i db') (id, same, _, _, _) = IsCovered-by_row d c db db' (
    ap (λ (x : Db). any (is_cover_by d c) x.assignments) same
    ∙ any-append (is_cover_by d c) db.assignments (new_row d c true (some o) db ∷ [])
    ∙ ground (arith, ==_refl d, ==_refl c))

rows_of :
    (d : Day) (db : Db) (a : RotaAssignment)
    → find (λ (a : RotaAssignment). a.is_cover) (get_assignments_by_date d db) ≡ some a
    → find (λ (a : RotaAssignment). a.is_cover) (keep (on_date d db) db.assignments) ≡ some a
unfolding get_assignments_by_date
rows_of d db a h = h

pub create_cover_assignment-IsCovered :
    (d : Day) (c o : ℕ) (db : Db)
    → OnOk (λ _ db'. IsCovered d c db db') (create_cover_assignment d c o db)
unfolding create_cover_assignment repoint_cover
create_cover_assignment-IsCovered d c o db =
    elim (Option-cases (find (λ (a : RotaAssignment). a.is_cover) (get_assignments_by_date d db))) [
      | inl x ↦
          rw (x, create_cover_assignment)
            (Created-IsCovered d c o db _ (create-Created d c true (some o) db))
      | inr (a, x) ↦
          let at_date = rows_of d db a x in
          let there =
            find-keep (λ (a : RotaAssignment). a.is_cover) (on_date d db) db.assignments a
              at_date in
          let dated = (&&-true (a.date == d) (has_member a.member_id db.members) there.1).0 in
          elim (Bool-cases a.is_swapped) [
            | inl y ↦ rw (x, y, create_cover_assignment) (IsCovered-by_swap d c db a x y)
            | inr y ↦ elim (Bool-cases (a.member_id == c)) [
              | inl z ↦
                  rw (x, y, z, create_cover_assignment)
                    (IsCovered-by_row d c db _ (
                      any-found (is_cover_by d c) (λ (a : RotaAssignment). a.is_cover)
                        (on_date d db) db.assignments a at_date
                        (ground (arith, dated, there.0, z))))
              | inr z ↦ elim (Bool-cases (has_member c db.members)) [
                | inl w ↦
                    rw (x, y, z, w, create_cover_assignment, repoint_cover)
                      (IsCovered-by_row d c db _ (
                        any-repointed d c db.assignments (
                          any-found (is_free_cover d) (λ (a : RotaAssignment). a.is_cover)
                            (on_date d db) db.assignments a at_date
                            (ground (arith, dated, there.0, y)))))
                | inr w ↦ rw (x, y, z, w, create_cover_assignment, repoint_cover) tt
              ]
            ]
          ]
    ]

pub IsCovered-same :
    (d : Day) (c : ℕ) (db x y : Db)
    → y.assignments ≡ x.assignments
    → IsCovered d c db x
    → IsCovered d c db y
unfolding IsCovered
IsCovered-same d c db x y same (inl row) = inl (ap (any (is_cover_by d c)) same ∙ row)
IsCovered-same d c db x y same (inr (a, there, moved, left)) = inr (a, there, moved, same ∙ left)

lift-assignments :
    {A : Type 0} (e : Engine) (r : Outcome Db A)
    → (after (lift_outcome e r)).db.assignments ≡ (after r).assignments
unfolding lift_outcome
lift-assignments e (ok a db) = refl
lift-assignments e (err x db) = refl

upsert-assignments :
    (d : Day) (i : ℤ) (db : Db)
    → (after (upsert_cover_rotation_state d i db)).assignments ≡ db.assignments
unfolding upsert_cover_rotation_state
upsert-assignments d i db = elim (Option-cases db.cover_rotation) [
  | inl x ↦ rw (x, upsert_cover_rotation_state) refl
  | inr (c, x) ↦ rw (x, upsert_cover_rotation_state) refl
]

anchor-assignments :
    (d : Day) (i : ℤ) (db : Db)
    → (after (write_reassignment_anchor d i db)).assignments ≡ db.assignments
unfolding write_reassignment_anchor
anchor-assignments d i db = elim (Option-cases db.cover_rotation) [
  | inl x ↦ rw (x, write_reassignment_anchor) refl
  | inr (c, x) ↦ rw (x, write_reassignment_anchor) refl
]

commit-assignments :
    (src : RotationSource) (d : Day) (i : ℕ) (e : Engine)
    → (after (commit_for src d i e)).db.assignments ≡ e.db.assignments
unfolding commit_for commit_cover_rotation_state commit_reassign_rotation_state on_db
commit-assignments ad_hoc d i e =
    lift-assignments e (upsert_cover_rotation_state d (pos i) e.db)
    ∙ upsert-assignments d (pos i) e.db
commit-assignments reassign d i e =
    lift-assignments (record e { reassign_last_date = d; reassign_last_index = pos i })
      (write_reassignment_anchor d (pos i) e.db)
    ∙ anchor-assignments d (pos i) e.db

pub slot-assignments :
    (src : RotationSource) (d : Day) (members : List TeamMember) (id : ℕ) (e : Engine)
    → (after (record_actual_cover_slot_for src d members id e)).db.assignments ≡ e.db.assignments
unfolding record_actual_cover_slot_for ignore_error
slot-assignments src d members id e = elim (Option-cases (find_member_index members id)) [
  | inl x ↦ rw (x, record_actual_cover_slot_for) refl
  | inr (i, x) ↦ rw (x, record_actual_cover_slot_for) (commit-assignments src d i e)
]
