-- ===== src/Notify/Table.antt =====
-- internal/database/notification_outbox.go, with its generated queries.
use madhatter.Base.{
  nanoseconds, ℕ, suc, ◌*◌, ◌/◌, Bool, true, false, ◌&&◌, ◌==◌, leb, Option, none, some, List, [],
  ◌∷◌, ◌++◌, Text, take, keep, find, update, any, if◌then◌else◌,
}
use madhatter.Base.Sort.{sort_by}
use madhatter.Notify.{OutboxStatus, pending, sent, dead, OutboxEntry, Outbox}

-- The resolution of CURRENT_TIMESTAMP and of `datetime(…)`.
abbrev pub seconds_of : ℕ → ℕ
seconds_of t = t / nanoseconds

abbrev pub is_pending : OutboxStatus → Bool
is_pending pending = true
is_pending sent = false
is_pending dead = false

abbrev pub new_entry : ℕ → ℕ → Text → Text → Text → Text → Text → Text → Text → OutboxEntry
new_entry id now event_kind channel recipient recipient_name subject body unsubscribe_url = record {
  id = id;
  event_kind = event_kind;
  channel = channel;
  recipient = recipient;
  recipient_name = recipient_name;
  subject = subject;
  body = body;
  unsubscribe_url = unsubscribe_url;
  attempts = 0;
  last_error = [];
  next_attempt_at = seconds_of now * nanoseconds;
  status = pending;
  created_at = seconds_of now * nanoseconds;
  sent_at = none;
}

-- The insertion fails, with no id, where the id that is drawn has a row.
unfoldable pub enqueue_outbox_entry :
    ℕ → Text → Text → Text → Text → Text → Text → Text → Outbox → Option ℕ × Outbox
enqueue_outbox_entry now kind channel recipient name subject body url o =
    let id = o.uuid o.drawn in
    let o' = record o { drawn = suc o.drawn } in
    if any (λ (r : OutboxEntry). r.id == id) o.rows then (none, o') else (
      some id,
      record o' {
        rows = o.rows ++ new_entry id now kind channel recipient name subject body url ∷ [];
      },
    )

abbrev pub is_due : ℕ → OutboxEntry → Bool
is_due now r = is_pending r.status && leb (seconds_of r.next_attempt_at) (seconds_of now)

-- The order is that of the stored texts of `next_attempt_at`, whatever their formats are.
unfoldable pub claim_due_outbox_entries :
    (OutboxEntry → OutboxEntry → Bool) → ℕ → ℕ → Outbox → List OutboxEntry
unfolding sort_by
claim_due_outbox_entries by_next now limit o =
    take limit (sort_by by_next (keep (is_due now) o.rows))

unfoldable pub set_entry : ℕ → (OutboxEntry → OutboxEntry) → Outbox → Outbox
set_entry id f o = record o { rows = update (λ (r : OutboxEntry). r.id == id) f o.rows }

abbrev pub with_sent : ℕ → OutboxEntry → OutboxEntry
with_sent now r = record r {
  status = sent;
  sent_at = some (seconds_of now * nanoseconds);
  last_error = [];
}

abbrev pub with_failure : Text → ℕ → OutboxEntry → OutboxEntry
with_failure last_error next_attempt r = record r {
  attempts = suc r.attempts;
  last_error = last_error;
  next_attempt_at = next_attempt;
}

abbrev pub with_death : Text → ℕ → OutboxEntry → OutboxEntry
with_death last_error at r = record (with_failure last_error at r) { status = dead }

unfoldable pub mark_outbox_sent : ℕ → ℕ → Outbox → Outbox
unfolding set_entry
mark_outbox_sent now id = set_entry id (with_sent now)

unfoldable pub mark_outbox_failed : ℕ → Text → ℕ → Outbox → Outbox
unfolding set_entry
mark_outbox_failed id last_error next_attempt = set_entry id (with_failure last_error next_attempt)

unfoldable pub mark_outbox_dead : ℕ → Text → ℕ → Outbox → Outbox
unfolding set_entry
mark_outbox_dead id last_error at = set_entry id (with_death last_error at)

unfoldable pub get_outbox_entry : ℕ → Outbox → Option OutboxEntry
get_outbox_entry id o = find (λ (r : OutboxEntry). r.id == id) o.rows
