-- ===== src/Store/Rotation.antt =====
-- The two rotation states of internal/database/rota.go, as their queries and migrations define them.
use madhatter.Base.{◌%◌, length, get_elem?, [], ◌∷◌, ◌++◌, Option, none, some}
use madhatter.Base.Int.{ℤ}
use madhatter.Calendar.{Day}
use madhatter.Store.{Db}
use madhatter.Store.Exec.{Exec, ok}

-- `none` is `sql.ErrNoRows`.
unfoldable pub get_cover_rotation_state : Db → Option (Day × ℤ)
get_cover_rotation_state db = elim db.cover_rotation [
  | none ↦ none
  | some c ↦ some (c.last_date, c.last_index)
]

-- INSERT … ON CONFLICT (id) DO UPDATE of the ad-hoc columns.
unfoldable pub upsert_cover_rotation_state : Day → ℤ → Exec Db Unit
upsert_cover_rotation_state date index db = elim db.cover_rotation [
  | none ↦ ok tt (record db {
    cover_rotation = some (record { last_date = date; last_index = index; reassign = none });
  })
  | some c ↦
      ok tt
        (record db { cover_rotation = some (record c { last_date = date; last_index = index }) })
]

-- The valid anchor, if there is one.
unfoldable pub get_reassignment_anchor : Db → Option (Day × ℤ)
get_reassignment_anchor db = elim db.cover_rotation [ none ↦ none | some c ↦ c.reassign ]

-- INSERT OR IGNORE of a row with only its id is ignored where the row is missing, since the ad-hoc
-- columns are NOT NULL without a default (migrations/000017); the UPDATE then meets no row.
unfoldable pub write_reassignment_anchor : Day → ℤ → Exec Db Unit
write_reassignment_anchor date index db = elim db.cover_rotation [
  | none ↦ ok tt db
  | some c ↦
      ok tt (record db { cover_rotation = some (record c { reassign = some (date, index) }) })
]

-- `LIMIT 1` with no ORDER BY: one of the rows.
unfoldable pub get_r1_rotation_state : Db → Option (Day × ℤ)
get_r1_rotation_state db =
    elim (get_elem? db.r1_rotation (db.r1_scan (length db.r1_rotation) % length db.r1_rotation)) [
      | none ↦ none
      | some r ↦ some (r.last_date, r.last_index)
    ]

-- INSERT OR REPLACE into a table with no key (migrations/000018): no row conflicts, so it adds one.
unfoldable pub upsert_r1_rotation_state : Day → ℤ → Exec Db Unit
upsert_r1_rotation_state date index db = ok tt (record db {
  r1_rotation = db.r1_rotation ++ record { last_date = date; last_index = index } ∷ [];
})
