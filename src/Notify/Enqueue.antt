-- ===== src/Notify/Enqueue.antt =====
-- internal/notify/channel_notifier.go and renderer.go: from an event to rows of the outbox.
pub mod Written
pub mod Exact
pub mod Reached
use madhatter.Base.{
  ℕ, Bool, true, false, not, Option, none, some, List, [], ◌∷◌, Text, map, is_empty, if◌then◌else◌,
}
use madhatter.Notify.{Outbox}
use madhatter.Notify.Events.{
  EventKind, swap_requested, swap_accepted, swap_rejected, swap_cancelled, wfh_state_changed,
  cover_assigned, user_pending_approval, SwapEvent, WfhEvent, CoverEvent, UserPendingApprovalEvent,
  Event, swap, wfh, cover, user, TemplateData, to_data,
}
use madhatter.Notify.Recipients.{Directory, resolve_by_id, email_enabled}
use madhatter.Notify.Table.{enqueue_outbox_entry}

pub record RecipientRef : Type 0 where
  pub id : ℕ
  pub name : Text

-- `subject` and `body` execute the template of a kind, and may fail; `trim_right` cuts the newlines off
-- the end of the subject; `unsubscribe_fn` is the URL of a member, if there is one. `enabled` are the
-- keys of the map, in the order in which it is walked; `kind_name` is the text of a kind.
pub record ChannelNotifier : Type 0 where
  pub base_url : Text
  pub subject : EventKind → TemplateData → Option Text
  pub body : EventKind → TemplateData → Option Text
  pub trim_right : Text → Text
  pub unsubscribe_fn : Option (ℕ → Text)
  pub enabled : List Text
  pub kind_name : EventKind → Text
  pub now : ℕ
  pub directory : Directory

-- The kinds for which `newRenderer` loads templates.
unfoldable pub has_templates : EventKind → Bool
has_templates swap_requested = true
has_templates swap_accepted = true
has_templates swap_rejected = true
has_templates swap_cancelled = true
has_templates wfh_state_changed = true
has_templates cover_assigned = true
has_templates user_pending_approval = false

abbrev pub url_of : ChannelNotifier → ℕ → Text
url_of n id = elim n.unsubscribe_fn [ none ↦ [] | some f ↦ f id ]

unfoldable pub render : ChannelNotifier → EventKind → Event → ℕ → Option (Text × Text)
unfolding has_templates to_data
render n kind event id =
    let d : TemplateData = record (to_data event) {
      base_url = n.base_url;
      recipient_member = id;
      unsubscribe_url = url_of n id;
    } in
    if not (has_templates kind) then none else elim (n.subject kind d) [
      | none ↦ none
      | some subject ↦ elim (n.body kind d) [
        | none ↦ none
        | some body ↦ some (n.trim_right subject, body)
      ]
    ]

-- The address and the name to use, of a recipient who is known, has an address and wants email.
unfoldable pub resolve_recipient : ChannelNotifier → RecipientRef → Option (Text × Text)
unfolding resolve_by_id email_enabled
resolve_recipient n r = elim (resolve_by_id r.id n.directory) [
  | none ↦ none
  | some (email, name) ↦
      if is_empty email
      then none
      else if not (n.directory.is_address email)
      then none
      else if not (email_enabled r.id n.directory)
      then none
      else some (email, (if is_empty r.name then name else r.name))
]

-- A row that cannot be written is dropped.
unfoldable pub enqueue_channels :
    ChannelNotifier → EventKind → ℕ → Text × Text → Text × Text → List Text → Outbox → Outbox
unfolding enqueue_outbox_entry
enqueue_channels n kind id to text [] o = o
enqueue_channels n kind id to text (c ∷ cs) o =
    enqueue_channels n kind id to text cs
      (enqueue_outbox_entry n.now (n.kind_name kind) c to.0 to.1 text.0 text.1 (url_of n id) o).1

unfoldable pub enqueue_one : ChannelNotifier → EventKind → Event → RecipientRef → Outbox → Outbox
unfolding resolve_recipient render enqueue_channels
enqueue_one n kind event r o = elim (resolve_recipient n r) [
  | none ↦ o
  | some to ↦ elim (render n kind event r.id) [
    | none ↦ o
    | some text ↦ enqueue_channels n kind r.id to text n.enabled o
  ]
]

unfoldable pub enqueue : ChannelNotifier → EventKind → Event → List RecipientRef → Outbox → Outbox
unfolding enqueue_one
enqueue n kind event [] o = o
enqueue n kind event (r ∷ rs) o = enqueue n kind event rs (enqueue_one n kind event r o)

abbrev pub requester : SwapEvent → RecipientRef
requester e = record { id = e.requester_member_id; name = e.requester_name }

abbrev pub target : SwapEvent → RecipientRef
target e = record { id = e.target_member_id; name = e.target_name }

unfoldable pub notify_swap_requested : ChannelNotifier → SwapEvent → Outbox → Outbox
unfolding enqueue
notify_swap_requested n e = enqueue n swap_requested (swap e) (target e ∷ [])

unfoldable pub notify_swap_accepted : ChannelNotifier → SwapEvent → Outbox → Outbox
unfolding enqueue
notify_swap_accepted n e = enqueue n swap_accepted (swap e) (requester e ∷ target e ∷ [])

unfoldable pub notify_swap_rejected : ChannelNotifier → SwapEvent → Outbox → Outbox
unfolding enqueue
notify_swap_rejected n e = enqueue n swap_rejected (swap e) (requester e ∷ [])

unfoldable pub notify_swap_cancelled : ChannelNotifier → SwapEvent → Outbox → Outbox
unfolding enqueue
notify_swap_cancelled n e = enqueue n swap_cancelled (swap e) (target e ∷ [])

unfoldable pub notify_wfh_state_changed : ChannelNotifier → WfhEvent → Outbox → Outbox
unfolding enqueue
notify_wfh_state_changed n e =
    enqueue n wfh_state_changed (wfh e) (record { id = e.member_id; name = e.member_name } ∷ [])

unfoldable pub notify_cover_assigned : ChannelNotifier → CoverEvent → Outbox → Outbox
unfolding enqueue
notify_cover_assigned n e =
    enqueue n cover_assigned (cover e)
      (record { id = e.cover_member_id; name = e.cover_member_name } ∷ [])

unfoldable pub notify_user_pending_approval :
    ChannelNotifier → UserPendingApprovalEvent → Outbox → Outbox
unfolding enqueue
notify_user_pending_approval n e =
    enqueue n user_pending_approval (user e)
      (map (λ (a : ℕ × Text). record { id = a.0; name = a.1 }) n.directory.admins)
