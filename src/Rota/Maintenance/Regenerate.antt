-- ===== src/Rota/Maintenance/Regenerate.antt =====
-- `RegenerateSchedule` of internal/rota/maintenance.go.
use madhatter.Base.{
  ℕ, suc, ◌-◌, ◌≤◌, ◌≡◌, subst, arith, false, Bool-cases, inl, inr, length, is_empty,
}
use madhatter.Calendar.{Day, should_skip_date}
use madhatter.Store.Exec.{ok, after}
use madhatter.Store.Exec.Frames.{OnOk, OnOk-bind}
use madhatter.Store.Members.{get_active_team_members}
use madhatter.Store.Assignments.{get_assignments_by_date_range, delete_assignments_in_range}
use madhatter.Rota.Engine.{Engine, on_db, lift_outcome}
use madhatter.Rota.Schedule.{process_dates}
use madhatter.Rota.Schedule.Complete.{HasOriginal}
use madhatter.Rota.Schedule.Dates.{AllFilled, process_dates-AllFilled}
use madhatter.Rota.Maintenance.{regenerate_schedule}

module _ (start end : Day) (e : Engine) where
  abbrev cleared : Engine
  cleared = after (on_db (delete_assignments_in_range start end) e)

  regenerate-AllFilled :
      OnOk (λ (n : ℕ) f. AllFilled start (suc end - start) e f) (regenerate_schedule start end e)
  unfolding regenerate_schedule on_db lift_outcome delete_assignments_in_range
  regenerate-AllFilled = elim (Bool-cases (is_empty (get_active_team_members e.db))) [
    | inl x ↦ rw (x, regenerate_schedule) tt
    | inr x ↦
        rw (x, regenerate_schedule)
          (OnOk-bind (λ (u : Unit) f. AllFilled start (suc end - start) e f)
            (λ (n : ℕ) f. AllFilled start (suc end - start) e f)
            (process_dates (get_active_team_members e.db) start (suc end - start) cleared)
            (λ u f. ok (length (get_assignments_by_date_range start end f.db)) f)
            (process_dates-AllFilled (get_active_team_members e.db) start (suc end - start) cleared)
            (λ u f h. h))
  ]

  -- After a success each date from the start to the end, both included, that is no weekend and no
  -- holiday has an original assignment.
  regenerate_schedule-HasOriginal :
      (n : ℕ) (f : Engine)
      → regenerate_schedule start end e ≡ ok n f
      → (d : Day) → start ≤ d
      → d ≤ end
      → should_skip_date e.holiday_checker d ≡ false
      → HasOriginal d f
  regenerate_schedule-HasOriginal n f h d low high open_ =
      subst (OnOk (λ (k : ℕ) g. AllFilled start (suc end - start) e g)) h regenerate-AllFilled d low
        (omega arith) open_
