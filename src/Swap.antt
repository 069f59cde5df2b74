-- ===== src/Swap.antt =====
-- Swaps of HAT days: internal/database/hat_swaps.go with its queries (internal/database/sqlc/queries)
-- and the triggers of the table (migrations/000006, migrations/000028). `today` is the UTC date of the
-- call. The times of creation and of change are not modelled.
pub mod Execute
pub mod Reconcile
pub mod Exclusive
pub mod Created
use madhatter.Base.{
  ℕ, suc, Bool, true, false, not, ◌&&◌, ◌||◌, ◌==◌, ltb, if◌then◌else◌, List, [], ◌∷◌, ◌++◌, Option,
  none, some, find, any, keep, update, length,
}
use madhatter.Calendar.{Day}
use madhatter.Store.{
  RotaAssignment, HatSwap, SwapStatus, pending, accepted, rejected, cancelled, Db, has_member,
}
use madhatter.Store.Exec.{
  Exec, ok, err, bind, swap_same_assignment, requester_assignment_not_found,
  target_assignment_not_found, swap_not_owner, swap_target_self, swap_requester_date_passed,
  swap_target_date_passed, swap_assignment_busy, fields_required, no_rows, target_owner_mismatch,
  swap_not_pending, trigger_violation, unique_violation, foreign_key_violation,
}
use madhatter.Store.Assignments.{get_assignment_by_id}

abbrev pub is_pending : SwapStatus → Bool
is_pending pending = true
is_pending accepted = false
is_pending rejected = false
is_pending cancelled = false

abbrev pub is_accepted : SwapStatus → Bool
is_accepted accepted = true
is_accepted pending = false
is_accepted rejected = false
is_accepted cancelled = false

unfoldable pub validate_swap_assignment_dates : Day → Day → Day → Exec Db Unit
validate_swap_assignment_dates today req_date tgt_date db =
    if ltb req_date today
    then err swap_requester_date_passed db
    else if ltb tgt_date today
    then err swap_target_date_passed db
    else ok tt db

unfoldable pub validate_swap_assignments :
    Day → ℕ → ℕ → ℕ → Exec Db (RotaAssignment × RotaAssignment)
unfolding validate_swap_assignment_dates
validate_swap_assignments today requester_assignment_id target_assignment_id requester_member_id
      db =
    if requester_assignment_id == target_assignment_id
    then err swap_same_assignment db
    else elim (get_assignment_by_id requester_assignment_id db) [
      | none ↦ err requester_assignment_not_found db
      | some req ↦ elim (get_assignment_by_id target_assignment_id db) [
        | none ↦ err target_assignment_not_found db
        | some tgt ↦
            if not (req.member_id == requester_member_id)
            then err swap_not_owner db
            else if tgt.member_id == req.member_id
            then err swap_target_self db
            else bind (validate_swap_assignment_dates today req.date tgt.date db)
                λ _ db'. ok (req, tgt) db'
      ]
    ]

abbrev pub touches : ℕ → HatSwap → Bool
touches id s = s.requester_assignment_id == id || s.target_assignment_id == id

-- `WHERE (requester_assignment_id = ? OR target_assignment_id = ?) AND status = 'pending' LIMIT 1`.
unfoldable pub get_open_swap_for_assignment : ℕ → Db → Option HatSwap
get_open_swap_for_assignment id db =
    find (λ (s : HatSwap). touches id s && is_pending s.status) db.hat_swaps

unfoldable pub check_no_open_swaps : List ℕ → Exec Db Unit
unfolding get_open_swap_for_assignment
check_no_open_swaps [] db = ok tt db
check_no_open_swaps (aid ∷ ids) db =
    let rest = check_no_open_swaps ids db in
    elim (get_open_swap_for_assignment aid db) [
      | none ↦ rest
      | some existing ↦ err swap_assignment_busy db
    ]

abbrev pub get_hat_swap_by_id : ℕ → Db → Option HatSwap
get_hat_swap_by_id id db = find (λ (s : HatSwap). s.id == id) db.hat_swaps

-- The two pending swaps have an assignment in common: the test of the triggers.
abbrev pub conflicts : HatSwap → HatSwap → Bool
conflicts new s =
    is_pending s.status
    && (touches new.requester_assignment_id s || touches new.target_assignment_id s)

unfoldable pub validate_create_hat_swap : ℕ → ℕ → ℕ → ℕ → Exec Db Unit
validate_create_hat_swap requester_assignment_id target_assignment_id requester_member_id
      target_member_id db =
    if requester_assignment_id == 0
      || (target_assignment_id == 0 || (requester_member_id == 0 || target_member_id == 0))
    then err fields_required db
    else if requester_member_id == target_member_id
    then err swap_target_self db
    else elim (get_assignment_by_id requester_assignment_id db) [
      | none ↦ err no_rows db
      | some req ↦
          if not (req.member_id == requester_member_id)
          then err swap_not_owner db
          else elim (get_assignment_by_id target_assignment_id db) [
            | none ↦ err no_rows db
            | some tgt ↦
                if not (tgt.member_id == target_member_id)
                then err target_owner_mismatch db
                else ok tt db
          ]
    ]

-- The INSERT: its triggers first, then the key and the foreign keys of the members; those of the
-- assignments hold where `validate_create_hat_swap` succeeded.
unfoldable pub insert_hat_swap : HatSwap → Exec Db ℕ
insert_hat_swap new db =
    if any (conflicts new) db.hat_swaps || new.requester_member_id == new.target_member_id
    then err swap_assignment_busy db
    else if any (λ (s : HatSwap). s.id == new.id) db.hat_swaps
    then err unique_violation db
    else if has_member new.requester_member_id db.members
        && has_member new.target_member_id db.members
    then ok new.id (record db { hat_swaps = db.hat_swaps ++ new ∷ [] })
    else err foreign_key_violation db

unfoldable pub create_hat_swap : ℕ → ℕ → ℕ → ℕ → Exec Db ℕ
unfolding insert_hat_swap validate_create_hat_swap
create_hat_swap requester_assignment_id target_assignment_id requester_member_id target_member_id
      db =
    elim (validate_create_hat_swap requester_assignment_id target_assignment_id requester_member_id
      target_member_id db) [
        | err x db' ↦ err x db'
        | ok u db' ↦
            insert_hat_swap
              (record {
                id = db'.uuid db'.drawn;
                requester_assignment_id = requester_assignment_id;
                target_assignment_id = target_assignment_id;
                requester_member_id = requester_member_id;
                target_member_id = target_member_id;
                status = pending;
              })
              (record db' { drawn = suc db'.drawn })
      ]

-- `ORDER BY created_at DESC`: the rows are in the order of insertion, and so of their creation.
newest_first : List HatSwap → List HatSwap
newest_first [] = []
newest_first (s ∷ rest) = newest_first rest ++ s ∷ []

unfoldable pub get_pending_swaps_for_member : ℕ → Db → List HatSwap
unfolding newest_first
get_pending_swaps_for_member member_id db =
    newest_first
      (keep (λ (s : HatSwap). s.target_member_id == member_id && is_pending s.status) db.hat_swaps)

unfoldable pub get_swaps_for_member : ℕ → Db → List HatSwap
unfolding newest_first
get_swaps_for_member member_id db = newest_first (
    keep (λ (s : HatSwap). s.requester_member_id == member_id || s.target_member_id == member_id)
      db.hat_swaps)

unfoldable pub count_pending_swaps_for_member : ℕ → Db → ℕ
unfolding get_pending_swaps_for_member
count_pending_swaps_for_member member_id db = length (get_pending_swaps_for_member member_id db)

abbrev pub is_open : ℕ → HatSwap → Bool
is_open id s = s.id == id && is_pending s.status

-- `UPDATE … WHERE id = ? AND status = 'pending'`, with the trigger on a status that is set to pending.
unfoldable pub update_hat_swap_status : ℕ → SwapStatus → Exec Db Unit
update_hat_swap_status id status db = elim (find (is_open id) db.hat_swaps) [
  | none ↦ err swap_not_pending db
  | some s ↦
      if is_pending status && any (λ (t : HatSwap). not (t.id == id) && conflicts s t) db.hat_swaps
      then err trigger_violation db
      else ok tt (record db {
        hat_swaps =
            update (is_open id) (λ (t : HatSwap). record t { status = status }) db.hat_swaps;
      })
]

unfoldable pub delete_hat_swap : ℕ → Exec Db Unit
delete_hat_swap id db =
    ok tt (record db { hat_swaps = keep (λ (s : HatSwap). not (s.id == id)) db.hat_swaps })

-- Both assignments are there, and one of their dates is past.
unfoldable pub is_expired : Day → Db → HatSwap → Bool
is_expired today db s = elim (get_assignment_by_id s.requester_assignment_id db) [
  | none ↦ false
  | some req ↦ elim (get_assignment_by_id s.target_assignment_id db) [
    | none ↦ false
    | some tgt ↦ is_pending s.status && (ltb req.date today || ltb tgt.date today)
  ]
]

unfoldable pub cleanup_expired_pending_swaps : Day → Exec Db ℕ
unfolding is_expired
cleanup_expired_pending_swaps today db =
    ok (length (keep (is_expired today db) db.hat_swaps)) (record db {
      hat_swaps =
          update (is_expired today db) (λ (s : HatSwap). record s { status = cancelled })
            db.hat_swaps;
    })
