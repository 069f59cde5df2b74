-- ===== src/Notify/Worker.antt =====
-- internal/notify/outbox_worker.go: the worker that drains the outbox. The clock stands still during
-- a drain, and the log lines are left out.
pub mod Key
pub mod Left
mod Claimed
pub mod Settles
pub mod Untouched
use Prim.Native.Nat.{◌^◌}
use madhatter.Base.{
  nanoseconds, ℕ, suc, ◌+◌, ◌-◌, ◌*◌, ltb, leb, Bool, Option, none, some, length, List, [], ◌∷◌,
  ◌++◌, Text, codes, take, if◌then◌else◌,
}
use madhatter.Base.Int.{ℤ, pos, negsuc}
use madhatter.Notify.{OutboxEntry, OutboundMessage, Outbox}
use madhatter.Notify.Table.{
  claim_due_outbox_entries, mark_outbox_sent, mark_outbox_failed, mark_outbox_dead,
}

abbrev pub max_backoff : ℕ
max_backoff = 3_600 * nanoseconds

abbrev pub drain_batch_size : ℕ
drain_batch_size = 32

-- `send` is a channel's answer to a message after that many calls: the text of its error, if any.
abbrev pub Channel : Type 0
Channel = ℕ → OutboundMessage → Option Text

-- `out_of_range` is what the hardware makes of a float that is no int64, when it is converted to one.
-- `by_next` is the order of the stored texts of two rows' `next_attempt_at`.
pub record Worker : Type 0 where
  pub resolve : Text → Option Channel
  pub max_attempts : ℕ
  pub backoff_base : ℕ
  pub out_of_range : ℕ → ℤ
  pub by_next : OutboxEntry → OutboxEntry → Bool

-- `time.Duration(f)`, for a float that is a whole number.
unfoldable pub to_duration : Worker → ℕ → ℤ
to_duration s f = if ltb f (2 ^ 63) then pos f else s.out_of_range f

-- `min(d, MaxBackoff)`.
unfoldable pub cap_backoff : ℤ → ℤ
cap_backoff (pos d) = if leb d max_backoff then pos d else pos max_backoff
cap_backoff (negsuc d) = negsuc d

-- No instant is before year 1.
unfoldable pub add_duration : ℕ → ℤ → ℕ
add_duration t (pos d) = t + d
add_duration t (negsuc d) = t - suc d

-- The product is exact in floats for a base below 2^53 nanoseconds, 104 days.
unfoldable pub compute_next_attempt : Worker → ℕ → ℕ → ℕ
unfolding to_duration cap_backoff add_duration
compute_next_attempt s now attempts =
    let n : ℕ = if ltb attempts 1 then 1 else attempts in
    add_duration now (cap_backoff (to_duration s (s.backoff_base * 2 ^ (n - 1))))

abbrev pub message_of : OutboxEntry → OutboundMessage
message_of r = record {
  event_kind = r.event_kind;
  recipient = r.recipient;
  recipient_name = r.recipient_name;
  subject = r.subject;
  body = r.body;
  unsubscribe_url = r.unsubscribe_url;
}

abbrev pub unknown_channel : Text → Text
unknown_channel name = codes "unknown channel: " ++ name

abbrev pub called : OutboundMessage → Option Text → Outbox → Outbox
called msg answer o = record o { calls = (msg, answer) ∷ o.calls }

-- What follows the answer of the channel.
unfoldable pub settle_call : Worker → ℕ → OutboxEntry → Option Text → Outbox → Outbox
unfolding compute_next_attempt mark_outbox_sent mark_outbox_failed mark_outbox_dead
settle_call s now row none o = mark_outbox_sent now row.id o
settle_call s now row (some e) o =
    let attempts = suc row.attempts in
    if leb s.max_attempts attempts
    then mark_outbox_dead row.id e now o
    else mark_outbox_failed row.id e (compute_next_attempt s now attempts) o

unfoldable pub dispatch : Worker → ℕ → OutboxEntry → Outbox → Outbox
unfolding settle_call mark_outbox_dead
dispatch s now row o = elim (s.resolve row.channel) [
  | none ↦ mark_outbox_dead row.id (unknown_channel row.channel) now o
  | some send ↦
      let answer = send (length o.calls) (message_of row) in
      settle_call s now row answer (called (message_of row) answer o)
]

unfoldable pub dispatch_all : Worker → ℕ → List OutboxEntry → Outbox → Outbox
unfolding dispatch
dispatch_all s now [] o = o
dispatch_all s now (r ∷ rs) o = dispatch_all s now rs (dispatch s now r o)

-- The context is cancelled after `budget` rows; a drain of a full batch needs `drain_batch_size`.
unfoldable pub drain : Worker → ℕ → ℕ → Outbox → Outbox
unfolding dispatch_all claim_due_outbox_entries
drain s now budget o =
    dispatch_all s now (take budget (claim_due_outbox_entries s.by_next now drain_batch_size o)) o

-- `Run`: a drain on entry and at each tick, at these instants, with no cancellation during them.
unfoldable pub run : Worker → List ℕ → Outbox → Outbox
unfolding drain
run s [] o = o
run s (now ∷ ticks) o = run s ticks (drain s now drain_batch_size o)
