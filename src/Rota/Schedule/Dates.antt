-- ===== src/Rota/Schedule/Dates.antt =====
-- The loop over the dates in `GenerateSchedule` of internal/rota/engine.go.
use madhatter.Base.{
  ℕ, zero, suc, ◌+◌, ◌-◌, ◌≤◌, ◌<◌, ◌==◌, ◌≡◌, sym, ap, subst, ◌∙◌, inl, inr, arith, false,
  Bool-cases, List, is_empty,
}
use madhatter.Calendar.{Day, should_skip_date}
use madhatter.Store.{TeamMember}
use madhatter.Store.Exec.{Outcome, ok, err, after, bind}
use madhatter.Store.Exec.Frames.{after-bind, OnOk}
use madhatter.Store.Members.{get_active_team_members}
use madhatter.Rota.Engine.{Engine}
use madhatter.Rota.Engine.Grows.{Grows, Grows-refl, Grows-trans}
use madhatter.Rota.Schedule.{process_date, process_dates, generate_schedule}
use madhatter.Rota.Schedule.Complete.{
  HasOriginal, HasOriginal-Grows, process_date-Grows, process_date-HasOriginal,
}

pub process_dates-Grows :
    (members : List TeamMember) (d : Day) (n : ℕ) (e : Engine)
    → Grows e (after (process_dates members d n e))
unfolding process_dates
process_dates-Grows members d zero e = Grows-refl e
process_dates-Grows members d (suc n) e =
    after-bind Grows Grows-trans e (process_date d members e)
      (λ u f. process_dates members (suc d) n f) (process_date-Grows d members e)
      (λ u f. process_dates-Grows members (suc d) n f)

-- Each of the `n` dates from `start` on that is no weekend and no holiday has an original.
abbrev pub AllFilled : Day → ℕ → Engine → Engine → Type 0
AllFilled start n e f =
    (d : Day)
    → start ≤ d
    → d < start + n
    → should_skip_date e.holiday_checker d ≡ false
    → HasOriginal d f

module _ (members : List TeamMember) where
  -- What is filled after the first date, and stays so through the rest.
  next_date :
      (start : Day) (n : ℕ) (e f : Engine) (r : Outcome Engine Unit)
      → Grows e f
      → (should_skip_date e.holiday_checker start ≡ false → HasOriginal start f)
      → Grows f (after r)
      → OnOk (λ (u : Unit) g. AllFilled (suc start) n f g) r
      → OnOk (λ (u : Unit) g. AllFilled start (suc n) e g) r
  next_date start n e f (err x g) grows first more rest = tt
  next_date start n e f (ok u g) grows first more rest = λ d low high open_.
      elim (Bool-cases (start == d)) [
        | inl x ↦
            let same : start ≡ d = ground arith in
            HasOriginal-Grows d f g more (
              subst (λ t. HasOriginal t f) same
                (first
                  (subst (λ t. should_skip_date e.holiday_checker t ≡ false) (sym same) open_)))
        | inr x ↦
            rest d (ground arith) (omega arith)
              (ap (λ c. should_skip_date c d) grows.same_checker ∙ open_)
      ]

  first_then :
      (start : Day) (n : ℕ) (e : Engine) (r : Outcome Engine Unit)
      → Grows e (after r)
      → (should_skip_date e.holiday_checker start ≡ false
          → OnOk (λ (u : Unit) f. HasOriginal start f) r)
      → ((f : Engine)
          → OnOk
              (λ (u : Unit) g. AllFilled (suc start) n f g)
              (process_dates members (suc start) n f))
      → OnOk
          (λ (u : Unit) g. AllFilled start (suc n) e g)
          (bind r (λ u f. process_dates members (suc start) n f))
  first_then start n e (err x f) grows first rest = tt
  first_then start n e (ok u f) grows first rest =
      next_date start n e f (process_dates members (suc start) n f) grows first
        (process_dates-Grows members (suc start) n f) (rest f)

  pub process_dates-AllFilled :
      (start : Day) (n : ℕ) (e : Engine)
      → OnOk (λ (u : Unit) f. AllFilled start n e f) (process_dates members start n e)
  unfolding process_dates
  process_dates-AllFilled start zero e = λ d low high open_. absurd (omega arith)
  process_dates-AllFilled start (suc n) e =
      first_then start n e (process_date start members e) (process_date-Grows start members e)
        (process_date-HasOriginal start members e) (process_dates-AllFilled (suc start) n)

abbrev members_of : Engine → List TeamMember
members_of e = get_active_team_members e.db

-- On every outcome the rows that were there are the first of the rows that are there afterwards, and
-- members, leaves and holidays are the same.
generate_schedule-Grows :
    (start end : Day) (e : Engine) → Grows e (after (generate_schedule start end e))
unfolding generate_schedule
generate_schedule-Grows start end e = elim (Bool-cases (is_empty (members_of e))) [
  | inl x ↦ rw (x, generate_schedule) (Grows-refl e)
  | inr x ↦ rw (x, generate_schedule) (process_dates-Grows (members_of e) start (suc end - start) e)
]

generate_schedule-AllFilled :
    (start end : Day) (e : Engine)
    → OnOk (λ (u : Unit) f. AllFilled start (suc end - start) e f) (generate_schedule start end e)
unfolding generate_schedule
generate_schedule-AllFilled start end e = elim (Bool-cases (is_empty (members_of e))) [
  | inl x ↦ rw (x, generate_schedule) tt
  | inr x ↦
      rw (x, generate_schedule) (process_dates-AllFilled (members_of e) start (suc end - start) e)
]

-- After a success each date from the start to the end, both included, that is no weekend and no holiday
-- has an original assignment.
pub generate_schedule-HasOriginal :
    (start end : Day) (e f : Engine)
    → generate_schedule start end e ≡ ok tt f
    → (d : Day) → start ≤ d
    → d ≤ end
    → should_skip_date e.holiday_checker d ≡ false
    → HasOriginal d f
generate_schedule-HasOriginal start end e f h d low high open_ =
    subst (OnOk (λ (u : Unit) g. AllFilled start (suc end - start) e g)) h
      (generate_schedule-AllFilled start end e) d low (omega arith) open_
