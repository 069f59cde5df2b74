-- ===== src/Rota/Engine.antt =====
-- The `Engine` of internal/rota/engine.go: its state, and how it reads and writes the two rotations.
pub mod Grows
use madhatter.Base.{ℕ, Bool, ◌==◌, List, [], Option, none, some, Text, if◌then◌else◌}
use madhatter.Base.Int.{ℤ, pos}
use madhatter.Calendar.{Day, HolidayChecker}
use madhatter.Store.{Db, TeamMember}
use madhatter.Store.Exec.{Outcome, Exec, ok, err, after, ◌>>=◌, ◌>>◌, gets, pure}
use madhatter.Store.Rotation.{
  upsert_cover_rotation_state, upsert_r1_rotation_state, write_reassignment_anchor,
}
use madhatter.Rota.Rotation.{compute_cover_rotation_index, compute_reassign_rotation_index}
use madhatter.Rota.Cover.{find_member_index}

pub record CoverEvent : Type 0 where
  pub leave_id : ℕ
  pub leave_member_id : ℕ
  pub leave_member_name : Text
  pub cover_member_id : ℕ
  pub cover_member_name : Text
  pub start_date : Day
  pub end_date : Day

-- `notifying` says that a notifier is wired; `events` are the calls made of it, oldest first.
pub record Engine : Type 0 where
  pub db : Db
  pub holiday_checker : HolidayChecker
  pub notifying : Bool
  pub events : List CoverEvent
  pub reassign_last_date : Day
  pub reassign_last_index : ℤ

unfoldable pub lift_outcome : {A : Type 0} → Engine → Outcome Db A → Outcome Engine A
lift_outcome e (ok a db) = ok a (record e { db = db })
lift_outcome e (err x db) = err x (record e { db = db })

-- A call of the database.
unfoldable pub on_db : {A : Type 0} → Exec Db A → Exec Engine A
unfolding lift_outcome
on_db m e = lift_outcome e (m e.db)

-- `_ = m`: the error is dropped, and what was written stays.
unfoldable pub ignore_error : Exec Engine Unit → Exec Engine Unit
ignore_error m e = ok tt (after (m e))

unfoldable pub advance_r1_rotation_state : Day → ℕ → Exec Engine Unit
advance_r1_rotation_state current_date index =
    on_db (upsert_r1_rotation_state current_date (pos index))

unfoldable pub commit_cover_rotation_state : Day → ℕ → Exec Engine Unit
commit_cover_rotation_state current_date index =
    on_db (upsert_cover_rotation_state current_date (pos index))

-- The state in memory is written first, whether or not the database then takes the anchor.
unfoldable pub commit_reassign_rotation_state : Day → ℕ → Exec Engine Unit
commit_reassign_rotation_state current_date index e =
    on_db (write_reassignment_anchor current_date (pos index))
      (record e { reassign_last_date = current_date; reassign_last_index = pos index })

unfoldable pub record_actual_cover_slot : Day → List TeamMember → ℕ → Exec Engine Unit
unfolding ignore_error
record_actual_cover_slot d members cover_id = elim (find_member_index members cover_id) [
  | none ↦ pure tt
  | some actual_index ↦ ignore_error (commit_cover_rotation_state d actual_index)
]

pub data RotationSource : Type 0 where
  ad_hoc reassign : RotationSource

unfoldable pub compute_rotation_index : RotationSource → Day → ℕ → Engine → ℕ
compute_rotation_index reassign d team_size e =
    compute_reassign_rotation_index e.holiday_checker e.reassign_last_date e.reassign_last_index d
      team_size
compute_rotation_index ad_hoc d team_size e =
    compute_cover_rotation_index e.holiday_checker e.db d team_size

unfoldable pub commit_for : RotationSource → Day → ℕ → Exec Engine Unit
unfolding commit_cover_rotation_state commit_reassign_rotation_state on_db
commit_for reassign = commit_reassign_rotation_state
commit_for ad_hoc = commit_cover_rotation_state

unfoldable pub record_actual_cover_slot_for :
    RotationSource → Day → List TeamMember → ℕ → Exec Engine Unit
unfolding ignore_error commit_for
record_actual_cover_slot_for src d members cover_id = elim (find_member_index members cover_id) [
  | none ↦ pure tt
  | some idx ↦ ignore_error (commit_for src d idx)
]
