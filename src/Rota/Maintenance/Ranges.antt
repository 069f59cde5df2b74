-- ===== src/Rota/Maintenance/Ranges.antt =====
-- `GenerateMissingDays` of internal/rota/maintenance.go: the range it leaves.
use madhatter.Base.{
  ℕ, zero, suc, ◌+◌, ◌-◌, ◌≤◌, ◌<◌, ◌==◌, ◌≡◌, refl, sym, ap, subst, ◌∙◌, inl, inr, arith, Bool,
  true, false, not, ◌&&◌, Bool-cases, List, any, if◌then◌else◌, any-append, any-keep, any_mono,
  is_empty,
}
use madhatter.Base.Sort.{any-sort_by}
use madhatter.Calendar.{Day, should_skip_date}
use madhatter.Store.{TeamMember, RotaAssignment}
use madhatter.Store.Exec.{Outcome, ok, err, after, bind}
use madhatter.Store.Exec.Frames.{after-bind, OnOk}
use madhatter.Store.Members.{get_active_team_members}
use madhatter.Store.Assignments.{get_assignments_by_date_range, in_range}
use madhatter.Rota.Engine.{Engine}
use madhatter.Rota.Engine.Grows.{Grows, Grows-refl, Grows-trans}
use madhatter.Rota.Schedule.{process_date}
use madhatter.Rota.Schedule.Complete.{
  HasOriginal, HasOriginal-Grows, process_date-Grows, process_date-HasOriginal,
}
use madhatter.Rota.Maintenance.{
  dates_with_assignments, should_skip, generate_missing, generate_missing_days,
}

abbrev pub HasDate : Day → Engine → Type 0
HasDate d e = any (λ (a : RotaAssignment). a.date == d) e.db.assignments ≡ true

HasDate-Grows : (d : Day) (e f : Engine) → Grows e f → HasDate d e → HasDate d f
HasDate-Grows d e f g h =
    ap (any (λ (a : RotaAssignment). a.date == d)) g.grown
    ∙ any-append (λ (a : RotaAssignment). a.date == d) e.db.assignments g.added
    ∙ rw h refl

HasDate-of_HasOriginal : (d : Day) (e : Engine) → HasOriginal d e → HasDate d e
HasDate-of_HasOriginal d e h =
    any_mono (λ (a : RotaAssignment). a.date == d && not a.is_cover)
      (λ (a : RotaAssignment). a.date == d) e.db.assignments (λ a p. ground arith) h

taken-HasDate :
    (start end d : Day) (e : Engine) → dates_with_assignments start end e.db d ≡ true → HasDate d e
unfolding dates_with_assignments get_assignments_by_date_range
taken-HasDate start end d e h =
    any-keep (λ (a : RotaAssignment). a.date == d) (in_range start end e.db) e.db.assignments
      (sym (any-sort_by _ (λ (a : RotaAssignment). a.date == d) _) ∙ h)

module _ (taken : Day → Bool) (members : List TeamMember) where
  pub generate_missing-Grows :
      (d : Day) (n : ℕ) (created : Bool) (e : Engine)
      → Grows e (after (generate_missing taken members d n created e))
  unfolding generate_missing should_skip
  generate_missing-Grows d zero created e = Grows-refl e
  generate_missing-Grows d (suc n) created e = elim (Bool-cases (should_skip taken e d)) [
    | inl x ↦ rw (x, generate_missing) (generate_missing-Grows (suc d) n created e)
    | inr x ↦
        rw (x, generate_missing)
          (after-bind Grows Grows-trans e (process_date d members e)
            (λ u f. generate_missing taken members (suc d) n true f)
            (process_date-Grows d members e) (λ u f. generate_missing-Grows (suc d) n true f))
  ]

  -- The dates of the range that were not taken, and are no weekend and no holiday.
  abbrev AllMade : Day → ℕ → Engine → Engine → Type 0
  AllMade start n e f =
      (d : Day) → start ≤ d → d < start + n → should_skip taken e d ≡ false → HasOriginal d f

  skip_same :
      (e f : Engine) (d : Day)
      → Grows e f
      → should_skip taken e d ≡ false
      → should_skip taken f d ≡ false
  unfolding should_skip
  skip_same e f d g h = ap (λ c. if taken d then true else should_skip_date c d) g.same_checker ∙ h

  next_made :
      (start : Day) (n : ℕ) (e f : Engine) (r : Outcome Engine Bool)
      → Grows e f
      → (should_skip taken e start ≡ false → HasOriginal start f)
      → Grows f (after r)
      → OnOk (λ (u : Bool) g. AllMade (suc start) n f g) r
      → OnOk (λ (u : Bool) g. AllMade start (suc n) e g) r
  next_made start n e f (err x g) grows first more rest = tt
  next_made start n e f (ok u g) grows first more rest = λ d low high open_.
      elim (Bool-cases (start == d)) [
        | inl x ↦
            let same : start ≡ d = ground arith in
            HasOriginal-Grows d f g more (
              subst (λ t. HasOriginal t f) same
                (first (subst (λ t. should_skip taken e t ≡ false) (sym same) open_)))
        | inr x ↦ rest d (ground arith) (omega arith) (skip_same e f d grows open_)
      ]

  pub not_taken :
      (e : Engine) (d : Day)
      → taken d ≡ false
      → should_skip_date e.holiday_checker d ≡ false
      → should_skip taken e d ≡ false
  unfolding should_skip
  not_taken e d x h = rw (x, should_skip) h

  not_holiday :
      (e : Engine) (d : Day)
      → should_skip taken e d ≡ false
      → should_skip_date e.holiday_checker d ≡ false
  unfolding should_skip
  not_holiday e d h = elim (Bool-cases (taken d)) [
    | inl x ↦ let t : should_skip taken e d ≡ true = rw (x, should_skip) refl in absurd (cc (t, h))
    | inr x ↦
        let t : should_skip taken e d ≡ should_skip_date e.holiday_checker d =
          rw (x, should_skip) refl in
        sym t ∙ h
  ]

  then_made :
      (start : Day) (n : ℕ) (e : Engine) (r : Outcome Engine Unit)
      → Grows e (after r)
      → (should_skip taken e start ≡ false → OnOk (λ (u : Unit) f. HasOriginal start f) r)
      → ((f : Engine)
          → OnOk
              (λ (u : Bool) g. AllMade (suc start) n f g)
              (generate_missing taken members (suc start) n true f))
      → OnOk
          (λ (u : Bool) g. AllMade start (suc n) e g)
          (bind r (λ u f. generate_missing taken members (suc start) n true f))
  then_made start n e (err x f) grows first rest = tt
  then_made start n e (ok u f) grows first rest =
      next_made start n e f (generate_missing taken members (suc start) n true f) grows first
        (generate_missing-Grows (suc start) n true f) (rest f)

  pub generate_missing-AllMade :
      (start : Day) (n : ℕ) (created : Bool) (e : Engine)
      → OnOk
          (λ (u : Bool) f. AllMade start n e f)
          (generate_missing taken members start n created e)
  unfolding generate_missing should_skip
  generate_missing-AllMade start zero created e = λ d low high open_. absurd (omega arith)
  generate_missing-AllMade start (suc n) created e = elim (Bool-cases (should_skip taken e start)) [
    | inl x ↦
        rw (x, generate_missing)
          (next_made start n e e (generate_missing taken members (suc start) n created e)
            (Grows-refl e) (λ y. absurd (cc (x, y)))
            (generate_missing-Grows (suc start) n created e)
            (generate_missing-AllMade (suc start) n created e))
    | inr x ↦
        rw (x, generate_missing)
          (then_made start n e (process_date start members e) (process_date-Grows start members e)
            (λ y. process_date-HasOriginal start members e (not_holiday e start y))
            (generate_missing-AllMade (suc start) n true))
  ]

module _ (start end : Day) (e : Engine) where
  abbrev taken_then : Day → Bool
  taken_then = dates_with_assignments start end e.db

  abbrev members_then : List TeamMember
  members_then = get_active_team_members e.db

  -- On every outcome the rows that were there are the first of the rows that are there afterwards, and
  -- members, leaves and holidays are the same.
  generate_missing_days-Grows : Grows e (after (generate_missing_days start end e))
  unfolding generate_missing_days
  generate_missing_days-Grows = elim (Bool-cases (is_empty members_then)) [
    | inl x ↦ rw (x, generate_missing_days) (Grows-refl e)
    | inr x ↦
        rw (x, generate_missing_days)
          (generate_missing-Grows taken_then members_then start (suc end - start) false e)
  ]

  generate_missing_days-AllMade :
      OnOk
        (λ (u : Bool) f. AllMade taken_then members_then start (suc end - start) e f)
        (generate_missing_days start end e)
  unfolding generate_missing_days
  generate_missing_days-AllMade = elim (Bool-cases (is_empty members_then)) [
    | inl x ↦ rw (x, generate_missing_days) tt
    | inr x ↦
        rw (x, generate_missing_days)
          (generate_missing-AllMade taken_then members_then start (suc end - start) false e)
  ]

  -- After a success each date from the start to the end, both included, that is no weekend and no
  -- holiday has an assignment.
  pub generate_missing_days-HasDate :
      (created : Bool) (f : Engine)
      → generate_missing_days start end e ≡ ok created f
      → (d : Day) → start ≤ d
      → d ≤ end
      → should_skip_date e.holiday_checker d ≡ false
      → HasDate d f
  generate_missing_days-HasDate created f h d low high open_ = elim (Bool-cases (taken_then d)) [
    | inl y ↦
        HasDate-Grows d e f
          (subst (λ (r : Outcome Engine Bool). Grows e (after r)) h generate_missing_days-Grows)
          (taken-HasDate start end d e y)
    | inr y ↦ HasDate-of_HasOriginal d f (
        subst (OnOk (λ (u : Bool) g. AllMade taken_then members_then start (suc end - start) e g)) h
          generate_missing_days-AllMade d low (omega arith)
          (not_taken taken_then members_then e d y open_))
  ]
