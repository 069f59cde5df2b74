-- ===== src/Notify/Worker/Claimed.antt =====
-- The rows that a drain claims, and what it uses up on them.
use madhatter.Base.{
  ℕ, zero, suc, ◌<◌, ◌≡◌, Bool, true, List, [], ◌∷◌, any, keep, take, length, All, All-keep,
  All-keep_of, All-take, arith,
}
use madhatter.Base.Sort.{sort_by, All-sort_by, length-sort_by}
use madhatter.Notify.{OutboxEntry, Outbox}
use madhatter.Notify.Table.{is_due, claim_due_outbox_entries}
use madhatter.Notify.Worker.{drain_batch_size, Worker, dispatch, dispatch_all, drain}
use madhatter.Notify.Worker.Left.{
  attempts_left, IsAmong, dispatch-lt, dispatch_all-le, IsAmong-self,
}

-- A row that is claimed is in the table and is pending.
abbrev pub IsClaimed : ℕ → Outbox → OutboxEntry → Type 0
IsClaimed now o r = IsAmong r o.rows × (is_due now r ≡ true)

All-both_of :
    (P Q : OutboxEntry → Type 0) (rs : List OutboxEntry)
    → All P rs
    → All Q rs
    → All (λ r. P r × Q r) rs
All-both_of P Q [] h k = tt
All-both_of P Q (r ∷ rs) h k = ((h.0, k.0), All-both_of P Q rs h.1 k.1)

pub claim-IsClaimed :
    (s : Worker) (now n : ℕ) (o : Outbox)
    → All (IsClaimed now o) (claim_due_outbox_entries s.by_next now n o)
unfolding claim_due_outbox_entries
claim-IsClaimed s now n o =
    let due = keep (is_due now) o.rows in
    All-take (IsClaimed now o) n (sort_by s.by_next due) (
      All-sort_by s.by_next (IsClaimed now o) due (
        All-both_of (λ r. IsAmong r o.rows) (λ r. is_due now r ≡ true) due
          (All-keep_of (λ r. IsAmong r o.rows) (is_due now) o.rows (IsAmong-self o.rows))
          (All-keep (is_due now) o.rows)))

length-keep-any :
    (p : OutboxEntry → Bool) (rs : List OutboxEntry) → any p rs ≡ true → 0 < length (keep p rs)
length-keep-any p [] h = cc
length-keep-any p (r ∷ rs) h = ground (arith, length-keep-any p rs)

length-take_pos : (n : ℕ) (rs : List OutboxEntry) → 0 < n → 0 < length rs → 0 < length (take n rs)
length-take_pos zero rs h k = absurd (omega arith)
length-take_pos (suc n) [] h k = absurd (omega arith)
length-take_pos (suc n) (r ∷ rs) h k = omega arith

dispatch_all-lt :
    (s : Worker) (now : ℕ) (rs : List OutboxEntry) (o : Outbox)
    → 0 < length rs
    → All (IsClaimed now o) rs
    → attempts_left s (dispatch_all s now rs o).rows < attempts_left s o.rows
unfolding dispatch_all
dispatch_all-lt s now [] o h claimed = absurd (omega arith)
dispatch_all-lt s now (r ∷ rs) o h claimed =
    let first = dispatch-lt s now r o (ground (arith, claimed.0.1)) claimed.0.0 in
    omega (arith, first, dispatch_all-le s now rs (dispatch s now r o))

-- A drain in which a row is due, and which is not cancelled at once, uses up an attempt.
pub drain-lt :
    (s : Worker) (now budget : ℕ) (o : Outbox)
    → 0 < budget
    → any (is_due now) o.rows ≡ true
    → attempts_left s (drain s now budget o).rows < attempts_left s o.rows
unfolding drain claim_due_outbox_entries
drain-lt s now budget o h due =
    let claims = claim_due_outbox_entries s.by_next now drain_batch_size o in
    let pool = sort_by s.by_next (keep (is_due now) o.rows) in
    let some_due : 0 < length pool = omega (
      arith,
      length-sort_by s.by_next (keep (is_due now) o.rows),
      length-keep-any (is_due now) o.rows due,
    ) in
    dispatch_all-lt s now (take budget claims) o
      (length-take_pos budget claims h
        (length-take_pos drain_batch_size pool (omega arith) some_due))
      (All-take (IsClaimed now o) budget claims (claim-IsClaimed s now drain_batch_size o))
