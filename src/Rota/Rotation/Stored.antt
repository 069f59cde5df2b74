-- ===== src/Rota/Rotation/Stored.antt =====
-- The rotation of the covers (internal/rota/engine.go) through its stored state.
use madhatter.Base.{ℕ, ◌==◌, ◌<◌, ◌≡◌, refl, ap, ◌∙◌, arith, false, Option, none, some}
use madhatter.Base.Int.{ℤ, pos}
use madhatter.Calendar.{Day, HolidayChecker}
use madhatter.Store.{CoverRotation, Db}
use madhatter.Store.Exec.{after}
use madhatter.Store.Rotation.{get_cover_rotation_state, upsert_cover_rotation_state}
use madhatter.Rota.Rotation.{rotation_index, compute_cover_rotation_index}
use madhatter.Rota.Rotation.Laws.{index_from-index_from}

stored_state :
    (d : Day) (i : ℤ) (db : Db) (c : Option CoverRotation)
    → db.cover_rotation ≡ c
    → get_cover_rotation_state (after (upsert_cover_rotation_state d i db)) ≡ some (d, i)
unfolding get_cover_rotation_state upsert_cover_rotation_state
stored_state d i db none h = rw (h, upsert_cover_rotation_state, get_cover_rotation_state) refl
stored_state d i db (some c) h = rw (h, upsert_cover_rotation_state, get_cover_rotation_state) refl

module _ (checker : HolidayChecker) (db : Db) (team_size : ℕ) (team : 0 < team_size) where
  -- The index that was computed for a date, once stored for it, leaves the index of every date as it was,
  -- where there is a state and the team is not empty.
  compute_cover_rotation_index_stored :
      (s : Day × ℤ) (d e : Day)
      → get_cover_rotation_state db ≡ some s
      → compute_cover_rotation_index checker
          (after (
            upsert_cover_rotation_state d
              (pos (compute_cover_rotation_index checker db d team_size))
              db))
          e
          team_size
        ≡ compute_cover_rotation_index checker db e team_size
  unfolding compute_cover_rotation_index
  compute_cover_rotation_index_stored (last, i) d e h =
      let t : (team_size == 0) ≡ false = ground arith in
      ap (λ s. rotation_index checker s e team_size) (stored_state d _ db db.cover_rotation refl)
      ∙ rw (h, t) (index_from-index_from checker last i team_size team d e)
