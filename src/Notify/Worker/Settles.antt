-- ===== src/Notify/Worker/Settles.antt =====
-- Drains an hour apart, until nothing is pending.
use Prim.Native.Nat.{◌^◌}
use madhatter.Base.{
  ℕ, suc, ◌+◌, ◌-◌, ◌*◌, ◌≤◌, ◌≡◌, refl, Bool, true, false, ◌==◌, ltb, leb, if◌then◌else◌,
  Bool-cases, Option, Option-cases, none, some, List, [], ◌∷◌, any, update, take, length, All, Text,
  inl, inr, arith,
}
use madhatter.Base.Int.{ℤ, pos, negsuc}
use madhatter.Notify.{OutboxEntry, Outbox}
use madhatter.Notify.Table.{
  is_pending, is_due, with_sent, with_failure, with_death, mark_outbox_sent, mark_outbox_failed,
  mark_outbox_dead, claim_due_outbox_entries,
}
use madhatter.Notify.Worker.{
  max_backoff, drain_batch_size, Worker, to_duration, cap_backoff, add_duration,
  compute_next_attempt, message_of, unknown_channel, called, settle_call, dispatch, dispatch_all,
  drain, run,
}
use madhatter.Notify.Worker.Left.{attempts_left, drain-le}
use madhatter.Notify.Worker.Claimed.{drain-lt}

add_capped-le : (now : ℕ) (d : ℤ) → add_duration now (cap_backoff d) ≤ now + max_backoff
unfolding add_duration cap_backoff
add_capped-le now (pos d) = elim (Bool-cases (leb d max_backoff)) [
  | inl small ↦ rw (small, add_duration) (ground arith)
  | inr large ↦ rw (large, add_duration) (omega arith)
]
add_capped-le now (negsuc d) = omega arith

-- The next attempt is never more than the greatest backoff away, whatever an overflow gives.
pub compute_next_attempt-le :
    (s : Worker) (now n : ℕ) → compute_next_attempt s now n ≤ now + max_backoff
unfolding compute_next_attempt
compute_next_attempt-le s now n =
    add_capped-le now (to_duration s (s.backoff_base * 2 ^ ((if ltb n 1 then 1 else n) - 1)))

-- No pending row waits for longer than to this instant.
abbrev pub WaitsTo : ℕ → OutboxEntry → Type 0
WaitsTo t r = is_pending r.status ≡ true → r.next_attempt_at ≤ t

update-WaitsTo :
    (t : ℕ) (p : OutboxEntry → Bool) (f : OutboxEntry → OutboxEntry) (rs : List OutboxEntry)
    → ((r : OutboxEntry) → WaitsTo t (f r))
    → All (WaitsTo t) rs
    → All (WaitsTo t) (update p f rs)
update-WaitsTo t p f [] h hs = tt
update-WaitsTo t p f (r ∷ rs) h hs =
    let rest = update-WaitsTo t p f rs h hs.1 in
    elim (p r) as (λ b. All (WaitsTo t) ((if b then f r else r) ∷ update p f rs)) [
      | true ↦ (h r, rest)
      | false ↦ (hs.0, rest)
    ]

settle_call-WaitsTo :
    (s : Worker) (now : ℕ) (r : OutboxEntry) (a : Option Text) (o : Outbox)
    → All (WaitsTo (now + max_backoff)) o.rows
    → All (WaitsTo (now + max_backoff)) (settle_call s now r a o).rows
unfolding settle_call mark_outbox_sent mark_outbox_failed mark_outbox_dead
settle_call-WaitsTo s now r none o h =
    update-WaitsTo (now + max_backoff) (λ (q : OutboxEntry). q.id == r.id) (with_sent now) o.rows
      (λ q e. cc) h
settle_call-WaitsTo s now r (some e) o h = elim (Bool-cases (leb s.max_attempts (suc r.attempts))) [
  | inl last ↦ rw last (
      update-WaitsTo (now + max_backoff) (λ (q : OutboxEntry). q.id == r.id) (with_death e now)
        o.rows (λ q e. cc) h)
  | inr more ↦
      let t = compute_next_attempt s now (suc r.attempts) in
      rw more (
        update-WaitsTo (now + max_backoff) (λ (q : OutboxEntry). q.id == r.id) (with_failure e t)
          o.rows (λ q _. compute_next_attempt-le s now (suc r.attempts)) h)
]

dispatch-WaitsTo :
    (s : Worker) (now : ℕ) (r : OutboxEntry) (o : Outbox)
    → All (WaitsTo (now + max_backoff)) o.rows
    → All (WaitsTo (now + max_backoff)) (dispatch s now r o).rows
unfolding dispatch mark_outbox_dead
dispatch-WaitsTo s now r o h = elim (Option-cases (s.resolve r.channel)) [
  | inl unknown ↦
      rw (unknown, dispatch)
        (update-WaitsTo (now + max_backoff) (λ (q : OutboxEntry). q.id == r.id)
          (with_death (unknown_channel r.channel) now) o.rows (λ q e. cc) h)
  | inr (send, known) ↦
      let a = send (length o.calls) (message_of r) in
      rw (known, dispatch) (settle_call-WaitsTo s now r a (called (message_of r) a o) h)
]

dispatch_all-WaitsTo :
    (s : Worker) (now : ℕ) (rs : List OutboxEntry) (o : Outbox)
    → All (WaitsTo (now + max_backoff)) o.rows
    → All (WaitsTo (now + max_backoff)) (dispatch_all s now rs o).rows
unfolding dispatch_all
dispatch_all-WaitsTo s now [] o h = h
dispatch_all-WaitsTo s now (r ∷ rs) o h =
    dispatch_all-WaitsTo s now rs (dispatch s now r o) (dispatch-WaitsTo s now r o h)

later-WaitsTo : (t u : ℕ) (rs : List OutboxEntry) → t ≤ u → All (WaitsTo t) rs → All (WaitsTo u) rs
later-WaitsTo t u [] h hs = tt
later-WaitsTo t u (r ∷ rs) h hs = ((λ e. omega (arith, hs.0 e)), later-WaitsTo t u rs h hs.1)

-- Where some row is pending and none waits to later than now, one is due.
pending-due :
    (now : ℕ) (rs : List OutboxEntry)
    → All (WaitsTo now) rs
    → any (λ (r : OutboxEntry). is_pending r.status) rs ≡ true
    → any (is_due now) rs ≡ true
pending-due now [] h e = e
pending-due now (r ∷ rs) h e = elim (Bool-cases (is_pending r.status)) [
  | inl waits ↦ let t = h.0 waits in ground (arith, waits)
  | inr settled ↦ ground (arith, settled, pending-due now rs h.1)
]

none_left :
    (s : Worker) (rs : List OutboxEntry)
    → attempts_left s rs ≤ 0
    → any (λ (r : OutboxEntry). is_pending r.status) rs ≡ false
none_left s [] h = refl
none_left s (r ∷ rs) h = ground (arith, none_left s rs)

none_pending :
    (s : Worker) (rs : List OutboxEntry)
    → any (λ (r : OutboxEntry). is_pending r.status) rs ≡ false
    → attempts_left s rs ≤ 0
none_pending s [] h = omega arith
none_pending s (r ∷ rs) h = ground (arith, none_pending s rs)

-- Each tick comes the greatest backoff or more after the one before, and the first not before `t`.
abbrev pub Spaced : ℕ → List ℕ → Type 0
Spaced t [] = Unit
Spaced t (now ∷ ticks) = (t ≤ now) × Spaced (now + max_backoff) ticks

drain-fewer :
    (s : Worker) (now n : ℕ) (o : Outbox)
    → All (WaitsTo now) o.rows
    → attempts_left s o.rows ≤ suc n
    → attempts_left s (drain s now drain_batch_size o).rows ≤ n
drain-fewer s now n o h few =
    elim (Bool-cases (any (λ (r : OutboxEntry). is_pending r.status) o.rows)) [
      | inl some_wait ↦ omega (
        arith,
        drain-lt s now drain_batch_size o (omega arith) (pending-due now o.rows h some_wait),
      )
      | inr none_waits ↦
          omega (arith, drain-le s now drain_batch_size o, none_pending s o.rows none_waits)
    ]

-- With ticks an hour or more apart, the first not before the instants of the next attempts, and as
-- many as there are attempts left in all, no row is pending after them, whatever the channels answer
-- and in whatever order the rows are claimed.
pub run-settles :
    (s : Worker) (ticks : List ℕ) (t : ℕ) (o : Outbox)
    → All (WaitsTo t) o.rows
    → Spaced t ticks
    → attempts_left s o.rows ≤ length ticks
    → any (λ (r : OutboxEntry). is_pending r.status) (run s ticks o).rows ≡ false
unfolding run
run-settles s [] t o waits spaced few = none_left s o.rows few
run-settles s (now ∷ ticks) t o waits spaced few =
    let h = later-WaitsTo t now o.rows spaced.0 waits in
    let o' = drain s now drain_batch_size o in
    let h' : All (WaitsTo (now + max_backoff)) o'.rows =
      unfold drain in
      dispatch_all-WaitsTo s now
        (take drain_batch_size (claim_due_outbox_entries s.by_next now drain_batch_size o)) o
        (later-WaitsTo now (now + max_backoff) o.rows (omega arith) h) in
    run-settles s ticks (now + max_backoff) o' h' spaced.1
      (drain-fewer s now (length ticks) o h few)
