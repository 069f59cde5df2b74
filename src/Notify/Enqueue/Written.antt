-- ===== src/Notify/Enqueue/Written.antt =====
-- The rows that an event leaves in the outbox.
use madhatter.Base.{
  ℕ, suc, ◌≤◌, ◌<◌, ◌≡◌, refl, sym, ap, ◌∙◌, false, ◌==◌, Option-cases, none, some, List, [], ◌∷◌,
  ◌++◌, map, any, any-append, Text, inl, inr, arith,
}
use mathlib.Core.List.{append_assoc, append-nil, map-append}
use madhatter.Base.{nanoseconds, ◌*◌}
use madhatter.Notify.{pending, OutboxEntry, Outbox}
use madhatter.Notify.Events.{EventKind, Event}
use madhatter.Notify.Table.{seconds_of, new_entry, enqueue_outbox_entry}
use madhatter.Notify.Worker.Key.{has_id}
use madhatter.Notify.Enqueue.{
  RecipientRef, ChannelNotifier, url_of, render, resolve_recipient, enqueue_channels, enqueue_one,
  enqueue,
}

-- A row but for its id.
abbrev pub content : OutboxEntry → OutboxEntry
content r = record r { id = 0 }

-- The row of a recipient and a channel: it is pending, has had no attempt and is due at once.
abbrev pub notice : ChannelNotifier → EventKind → ℕ → Text × Text → Text × Text → Text → OutboxEntry
notice n kind id to text c = record {
  id = 0;
  event_kind = n.kind_name kind;
  channel = c;
  recipient = to.0;
  recipient_name = to.1;
  subject = text.0;
  body = text.1;
  unsubscribe_url = url_of n id;
  attempts = 0;
  last_error = [];
  next_attempt_at = seconds_of n.now * nanoseconds;
  status = pending;
  created_at = seconds_of n.now * nanoseconds;
  sent_at = none;
}

abbrev pub notices_to : ChannelNotifier → EventKind → Event → RecipientRef → List OutboxEntry
notices_to n kind event r = elim (resolve_recipient n r) [
  | none ↦ []
  | some to ↦ elim (render n kind event r.id) [
    | none ↦ []
    | some text ↦ map (notice n kind r.id to text) n.enabled
  ]
]

-- One notice for each recipient who can be reached, on each channel.
abbrev pub notices : ChannelNotifier → EventKind → Event → List RecipientRef → List OutboxEntry
notices n kind event [] = []
notices n kind event (r ∷ rs) = notices_to n kind event r ++ notices n kind event rs

-- The ids to come are new ones.
abbrev pub IsFresh : Outbox → Type 0
IsFresh o =
    ((k : ℕ) → o.drawn ≤ k → any (has_id (o.uuid k)) o.rows ≡ false)
    × ((j k : ℕ) → j < k → (o.uuid j == o.uuid k) ≡ false)

-- The rows of before and these after them, and the ids to come are new.
abbrev pub Writes : List OutboxEntry → Outbox → Outbox → Type 0
Writes cs o o' =
    (ns : List OutboxEntry) × (o'.rows ≡ o.rows ++ ns) × (map content ns ≡ cs) × IsFresh o'

Writes-none : (o : Outbox) → IsFresh o → Writes [] o o
Writes-none o fresh = ([], sym (append-nil o.rows), refl, fresh)

Writes-then :
    (cs ds : List OutboxEntry) (a b c : Outbox)
    → Writes cs a b
    → Writes ds b c
    → Writes (cs ++ ds) a c
Writes-then cs ds a b c (ns, rows, same, _) (ms, rows', same', fresh) = (
  ns ++ ms,
  rows' ∙ ap (λ t. t ++ ms) rows ∙ append_assoc a.rows ns ms,
  map-append content ns ms ∙ ap (λ t. t ++ map content ms) same ∙ ap (λ t. cs ++ t) same',
  fresh,
)

insert-IsFresh :
    (r : OutboxEntry) (o : Outbox)
    → r.id ≡ o.uuid o.drawn
    → IsFresh o
    → IsFresh (record o { drawn = suc o.drawn; rows = o.rows ++ r ∷ [] })
insert-IsFresh r o own (fresh, distinct) = (
  (λ k h.
      let differs : (o.uuid o.drawn == o.uuid k) ≡ false = distinct o.drawn k (omega arith) in
      ground (
        arith,
        own,
        differs,
        fresh k (omega arith),
        any-append (has_id (o.uuid k)) o.rows (r ∷ []),
      )),
  distinct,
)

enqueue_outbox_entry-Writes :
    (now : ℕ) (kind c recipient name subject body url : Text) (o : Outbox)
    → IsFresh o
    → Writes
        (new_entry 0 now kind c recipient name subject body url ∷ [])
        o
        (enqueue_outbox_entry now kind c recipient name subject body url o).1
unfolding enqueue_outbox_entry
enqueue_outbox_entry-Writes now kind c recipient name subject body url o fresh =
    let row = new_entry (o.uuid o.drawn) now kind c recipient name subject body url in
    rw (fresh.0 o.drawn (omega arith)) (row ∷ [], refl, refl, insert-IsFresh row o refl fresh)

enqueue_channels-Writes :
    (n : ChannelNotifier) (kind : EventKind) (id : ℕ) (to text : Text × Text) (cs : List Text)
    (o : Outbox)
    → IsFresh o
    → Writes (map (notice n kind id to text) cs) o (enqueue_channels n kind id to text cs o)
unfolding enqueue_channels
enqueue_channels-Writes n kind id to text [] o fresh = Writes-none o fresh
enqueue_channels-Writes n kind id to text (c ∷ cs) o fresh =
    let o' =
      (enqueue_outbox_entry n.now (n.kind_name kind) c to.0 to.1 text.0 text.1 (url_of n id) o).1 in
    let first =
      enqueue_outbox_entry-Writes n.now (n.kind_name kind) c to.0 to.1 text.0 text.1 (url_of n id) o
        fresh in
    Writes-then (notice n kind id to text c ∷ []) (map (notice n kind id to text) cs) o o'
      (enqueue_channels n kind id to text cs o') first
      (enqueue_channels-Writes n kind id to text cs o' first.3)

enqueue_one-Writes :
    (n : ChannelNotifier) (kind : EventKind) (event : Event) (r : RecipientRef) (o : Outbox)
    → IsFresh o
    → Writes (notices_to n kind event r) o (enqueue_one n kind event r o)
unfolding enqueue_one
enqueue_one-Writes n kind event r o fresh = elim (Option-cases (resolve_recipient n r)) [
  | inl unknown ↦ rw (unknown, enqueue_one, notices_to) (Writes-none o fresh)
  | inr (to, known) ↦ elim (Option-cases (render n kind event r.id)) [
    | inl blank ↦ rw (known, blank, enqueue_one, notices_to) (Writes-none o fresh)
    | inr (text, rendered) ↦
        rw (known, rendered, enqueue_one, notices_to)
          (enqueue_channels-Writes n kind r.id to text n.enabled o fresh)
  ]
]

pub enqueue-notices :
    (n : ChannelNotifier) (kind : EventKind) (event : Event) (rs : List RecipientRef) (o : Outbox)
    → IsFresh o
    → Writes (notices n kind event rs) o (enqueue n kind event rs o)
unfolding enqueue
enqueue-notices n kind event [] o fresh = Writes-none o fresh
enqueue-notices n kind event (r ∷ rs) o fresh =
    let o' = enqueue_one n kind event r o in
    let first = enqueue_one-Writes n kind event r o fresh in
    Writes-then (notices_to n kind event r) (notices n kind event rs) o o'
      (enqueue n kind event rs o') first (enqueue-notices n kind event rs o' first.3)
