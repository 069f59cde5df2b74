-- ===== src/Examples/Rotations.antt =====
-- Runs of the rotation and of the search of internal/rota/engine.go.
use madhatter.Base.{◌<◌, ◌≡◌, ◌≢◌, arith, none, some}
use madhatter.Base.Int.{pos}
use madhatter.Calendar.{should_skip_date, working_days_between, count_working}
use madhatter.Store.{Db}
use madhatter.Rota.Rotation.{index_from}
use madhatter.Rota.Rotation.Laws.{index_from-index_from, index_from_fair}
use madhatter.Examples.{office}

index_from-index_from_example :
    index_from none 24 (pos (index_from none 21 (pos 0) 24 3)) 30 3
    ≡ index_from none 21 (pos 0) 30 3
index_from-index_from_example = index_from-index_from none 21 (pos 0) 3 (omega arith) 24 30

index_from_fair_example : index_from none 21 (pos 0) 24 3 ≢ index_from none 21 (pos 0) 26 3
unfolding working_days_between count_working should_skip_date
index_from_fair_example =
    index_from_fair none 21 (pos 0) 3 (omega arith) 24 26 (omega arith) two_days (omega arith)
  where
    two_days : 0 < working_days_between none 24 26
    two_days = omega arith

abbrev covering_office : Db
covering_office = record office {
  cover_rotation = some (record { last_date = 21; last_index = pos 1; reassign = none });
}
