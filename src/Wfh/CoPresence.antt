-- ===== src/Wfh/CoPresence.antt =====
-- Who met on site: internal/database/wfh_co_presence.go, and the writer of internal/wfh/service.go.
pub mod Counts
pub mod Recorded
pub mod Rows
use madhatter.Base.{
  ℕ, zero, suc, ◌+◌, ◌-◌, ◌*◌, Bool, true, false, not, ◌&&◌, ◌||◌, ◌==◌, leb, ltb, if◌then◌else◌,
  List, [], ◌∷◌, ◌++◌, Option, none, some, keep, any, length,
}
use madhatter.Calendar.{Day, is_weekend}
use madhatter.Store.{has_member}
use madhatter.Store.Exec.{
  Exec, Outcome, ok, err, bind, after, wfh_invalid_date, foreign_key_violation,
}
use madhatter.Wfh.{WfhCoPresence, Wfh, Service, today_utc, seconds_per_day, elem}
use madhatter.Wfh.Presence.{on_site_cohort_ids}

abbrev pub is_pair : Day → ℕ → ℕ → WfhCoPresence → Bool
is_pair date a b c = (c.working_date == date) && ((c.member_id_a == a) && (c.member_id_b == b))

-- `INSERT OR IGNORE` of a pair in order: whether a row went in.
unfoldable pub record_pair : Day → ℕ → ℕ → Exec Wfh Bool
record_pair date a b w =
    if any (is_pair date a b) w.co_presence
    then ok false w
    else if not (has_member a w.db.members && has_member b w.db.members)
    then err foreign_key_violation w
    else ok true (record w {
      co_presence =
          w.co_presence ++ record { working_date = date; member_id_a = a; member_id_b = b } ∷ [];
    })

unfoldable pub insert_wfh_co_presence_pair : Day → ℕ → ℕ → Exec Wfh Bool
unfolding record_pair
insert_wfh_co_presence_pair date a b w =
    if a == 0 || b == 0
    then err wfh_invalid_date w
    else if a == b
    then ok false w
    else if ltb b a
    then record_pair date b a w
    else record_pair date a b w

unfoldable pub record_wfh_co_presence_pair : Day → ℕ → ℕ → Exec Wfh Unit
unfolding insert_wfh_co_presence_pair
record_wfh_co_presence_pair date a b w =
    bind (insert_wfh_co_presence_pair date a b w) (λ _ w'. ok tt w')

unfoldable pub prune_wfh_co_presence_older_than : Day → Wfh → Wfh
prune_wfh_co_presence_older_than cutoff w = record w {
  co_presence = keep (λ (c : WfhCoPresence). not (ltb c.working_date cutoff)) w.co_presence;
}

-- The greatest of the dates.
unfoldable pub latest_of : List WfhCoPresence → Option Day
latest_of [] = none
latest_of (c ∷ cs) = elim (latest_of cs) [
  | none ↦ some c.working_date
  | some d ↦ some (if ltb d c.working_date then c.working_date else d)
]

-- From the horizon, which starts at this time of an earlier day, up to now.
abbrev pub in_horizon : Service → Day → Bool
in_horizon s d =
    leb s.now ((d + s.cfg.co_presence_horizon_days) * seconds_per_day)
    && ltb (d * seconds_per_day) s.now

abbrev pub met_cohort : Service → ℕ → List ℕ → WfhCoPresence → Bool
met_cohort s candidate cohort c =
    in_horizon s c.working_date
    && (((c.member_id_a == candidate) && elem c.member_id_b cohort)
        || ((c.member_id_b == candidate) && elem c.member_id_a cohort))

-- The two queries, with the candidate first and second, and the later of their dates. The queries
-- take three ids, and the caller gives no more.
unfoldable pub get_latest_co_presence_with_cohort : Service → ℕ → List ℕ → Wfh → Option Day
unfolding latest_of
get_latest_co_presence_with_cohort s candidate cohort w =
    latest_of (keep (met_cohort s candidate cohort) w.co_presence)

-- The inner loop: one member with each of those after it. `n` rows are written so far.
unfoldable pub write_pairs_with : Day → ℕ → List ℕ → ℕ → Exec Wfh ℕ
unfolding insert_wfh_co_presence_pair
write_pairs_with date a [] n w = ok n w
write_pairs_with date a (b ∷ bs) n w =
    bind (insert_wfh_co_presence_pair date a b w)
      (λ inserted w'. write_pairs_with date a bs (if inserted then suc n else n) w')

unfoldable pub write_pairs_from : Day → List ℕ → ℕ → Exec Wfh ℕ
unfolding write_pairs_with
write_pairs_from date [] n w = ok n w
write_pairs_from date (a ∷ others) n w =
    bind (write_pairs_with date a others n w) (λ n' w'. write_pairs_from date others n' w')

unfoldable pub write_co_presence_pairs : Day → List ℕ → Exec Wfh ℕ
unfolding write_pairs_from
write_co_presence_pairs date on_site w =
    if ltb (length on_site) 2 then ok 0 w else write_pairs_from date on_site 0 w

unfoldable pub write_co_presence_for_past_date : Service → Day → Exec Wfh ℕ
unfolding on_site_cohort_ids write_co_presence_pairs
write_co_presence_for_past_date s date w =
    if not (ltb date (today_utc s))
    then ok 0 w
    else write_co_presence_pairs date (on_site_cohort_ids date w) w

-- The loop of the backfill, with `n` rounds left: an error is passed over.
unfoldable pub backfill_from : Service → ℕ → Day → Wfh → Wfh
unfolding write_co_presence_for_past_date
backfill_from s zero d w = w
backfill_from s (suc n) d w =
    backfill_from s n (d - 1)
      (if is_weekend d then w else after (write_co_presence_for_past_date s d w))

abbrev pub backfill_safety_multiplier : ℕ
backfill_safety_multiplier = 2

-- Seven days, or those of the retention, times the multiplier; the round in which the count reaches
-- that ends before its date is looked at.
abbrev pub backfill_rounds : Service → ℕ
backfill_rounds s =
    (if ltb s.cfg.co_presence_retention_days 7 then s.cfg.co_presence_retention_days else 7)
      * backfill_safety_multiplier
    - 1

unfoldable pub backfill_co_presence : Service → Wfh → Wfh
unfolding backfill_from
backfill_co_presence s w =
    if s.cfg.co_presence_enabled then backfill_from s (backfill_rounds s) (today_utc s - 1) w else w
