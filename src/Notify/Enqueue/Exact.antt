-- ===== src/Notify/Enqueue/Exact.antt =====
-- The rows of an event, by whom it reaches and what the templates give.
use madhatter.Base.{
  ℕ, ◌≡◌, ◌≢◌, refl, true, false, ◌==◌, Bool-cases, Option-cases, none, some, List, [], ◌∷◌, ◌++◌,
  map, find, is_empty, if◌then◌else◌, Text, ◌⊎◌, inl, inr,
}
use madhatter.Notify.{OutboxEntry, Outbox}
use madhatter.Notify.Events.{
  EventKind, swap_requested, swap_accepted, swap_rejected, swap_cancelled, wfh_state_changed,
  cover_assigned, user_pending_approval, Event, TemplateData, to_data,
}
use madhatter.Notify.Recipients.{
  Contact, NotificationPreference, Directory, resolve_by_id, email_enabled,
  is_notification_email_enabled, get_notification_preference,
}
use madhatter.Notify.Enqueue.{
  RecipientRef, ChannelNotifier, url_of, has_templates, render, resolve_recipient, enqueue,
}
use madhatter.Notify.Enqueue.Written.{IsFresh, Writes, notice, notices_to, notices, enqueue-notices}

-- The member has not turned email off: there is no preference, or it says so.
abbrev pub WantsEmail : ℕ → Directory → Type 0
WantsEmail id d =
    (find (λ (p : NotificationPreference). p.member_id == id) d.preferences ≡ none)
    ⊎ ((p : NotificationPreference) × (find (λ (p : NotificationPreference). p.member_id == id)
            d.preferences
          ≡ some p)
        × (p.email_enabled ≡ true))

-- A recipient is a member with a valid address who wants email; the name of the event goes before that
-- of the member.
abbrev pub IsReached : ChannelNotifier → RecipientRef → Text × Text → Type 0
IsReached n r to =
    (c : Contact) × ((r.id == 0) ≡ false)
    × (find (λ (c : Contact). c.id == r.id) n.directory.contacts ≡ some c)
    × (is_empty c.email ≡ false)
    × (n.directory.is_address c.email ≡ true)
    × WantsEmail r.id n.directory
    × (to ≡ (c.email, (if is_empty r.name then c.name else r.name)))

abbrev template_data : ChannelNotifier → Event → ℕ → TemplateData
template_data n event id = record (to_data event) {
  base_url = n.base_url;
  recipient_member = id;
  unsubscribe_url = url_of n id;
}

-- The subject and the body that the templates of the kind give for a recipient.
abbrev pub IsRendered : ChannelNotifier → EventKind → Event → ℕ → Text × Text → Type 0
IsRendered n kind event id text =
    (subject : Text) × (kind ≢ user_pending_approval)
    × (n.subject kind (template_data n event id) ≡ some subject)
    × (n.body kind (template_data n event id) ≡ some text.1)
    × (text.0 ≡ n.trim_right subject)

preference :
    (id : ℕ) (d : Directory)
    → (WantsEmail id d × (is_notification_email_enabled id d ≡ true))
      ⊎ ((¬ WantsEmail id d) × (is_notification_email_enabled id d ≡ false))
unfolding is_notification_email_enabled get_notification_preference
preference id d =
    elim (Option-cases (find (λ (p : NotificationPreference). p.member_id == id) d.preferences)) [
      | inl unset ↦ inl (inl unset, rw (unset, is_notification_email_enabled) refl)
      | inr (p, set) ↦ elim (Bool-cases p.email_enabled) [
        | inl on ↦ inl (inr (p, set, on), rw (set, is_notification_email_enabled) on)
        | inr off ↦ inr (
          (λ w. elim w [
            | inl unset ↦ cc (unset, set)
            | inr (q, again, on) ↦ cc (again, set, on, off)
          ]),
          rw (set, is_notification_email_enabled) off,
        )
      ]
    ]

-- Whether a recipient is reached, and as whom.
Reach : ChannelNotifier → RecipientRef → Type 0
Reach n r =
    ((to : Text × Text) × IsReached n r to × (resolve_recipient n r ≡ some to))
    ⊎ ((¬ ((to : Text × Text) × IsReached n r to)) × (resolve_recipient n r ≡ none))

reach : (n : ChannelNotifier) (r : RecipientRef) → Reach n r
unfolding Reach resolve_recipient resolve_by_id email_enabled
reach n r = elim (Bool-cases (r.id == 0)) [
  | inl empty ↦ inr ((λ x. cc (x.1.1, empty)), rw (empty, resolve_recipient) refl)
  | inr given ↦ elim (Option-cases (find (λ (c : Contact). c.id == r.id) n.directory.contacts)) [
    | inl unknown ↦ inr ((λ x. cc (x.1.2, unknown)), rw (given, unknown, resolve_recipient) refl)
    | inr (c, there) ↦
        let known : resolve_by_id r.id n.directory ≡ some (c.email, c.name) =
          rw (given, there) refl in
        elim (Bool-cases (is_empty c.email)) [
          | inl blank ↦
              inr
                ((λ x. cc (x.1.2, x.1.3, there, blank)), rw (known, resolve_recipient, blank) refl)
          | inr full ↦ elim (Bool-cases (n.directory.is_address c.email)) [
            | inr wrong ↦ inr (
              (λ x. cc (x.1.2, x.1.4, there, wrong)),
              rw (known, resolve_recipient, full, wrong) refl,
            )
            | inl right ↦ elim (preference r.id n.directory) [
              | inl (wants, on) ↦ inl (
                (c.email, (if is_empty r.name then c.name else r.name)),
                (c, given, there, full, right, wants, refl),
                rw (known, resolve_recipient, full, right, given, on) refl,
              )
              | inr (silent, off) ↦
                  inr (
                    (λ x. silent x.1.5),
                    rw (known, resolve_recipient, full, right, given, off) refl,
                  )
            ]
          ]
        ]
  ]
]

-- Whether the templates give a message, and which.
Draft : ChannelNotifier → EventKind → Event → ℕ → Type 0
Draft n kind event id =
    ((text : Text × Text) × IsRendered n kind event id text × (render n kind event id ≡ some text))
    ⊎ ((¬ ((text : Text × Text) × IsRendered n kind event id text))
        × (render n kind event id ≡ none))

has_templates_iff :
    (kind : EventKind)
    → ((kind ≢ user_pending_approval) × (has_templates kind ≡ true))
      ⊎ ((kind ≡ user_pending_approval) × (has_templates kind ≡ false))
unfolding has_templates
has_templates_iff swap_requested = inl ((λ e. cc (e)), refl)
has_templates_iff swap_accepted = inl ((λ e. cc (e)), refl)
has_templates_iff swap_rejected = inl ((λ e. cc (e)), refl)
has_templates_iff swap_cancelled = inl ((λ e. cc (e)), refl)
has_templates_iff wfh_state_changed = inl ((λ e. cc (e)), refl)
has_templates_iff cover_assigned = inl ((λ e. cc (e)), refl)
has_templates_iff user_pending_approval = inr (refl, refl)

draft : (n : ChannelNotifier) (kind : EventKind) (event : Event) (id : ℕ) → Draft n kind event id
unfolding Draft render
draft n kind event id = elim (has_templates_iff kind) [
  | inr (unknown, lacks) ↦ inr ((λ x. x.1.1 unknown), rw (render, lacks) refl)
  | inl (known, has) ↦ elim (Option-cases (n.subject kind (template_data n event id))) [
    | inl failed ↦ inr ((λ x. cc (x.1.2, failed)), rw (render, has, failed) refl)
    | inr (subject, subject_of) ↦ elim (Option-cases (n.body kind (template_data n event id))) [
      | inl failed ↦ inr ((λ x. cc (x.1.3, failed)), rw (render, has, subject_of, failed) refl)
      | inr (body, body_of) ↦ inl (
        (n.trim_right subject, body),
        (subject, known, subject_of, body_of, refl),
        rw (render, has, subject_of, body_of) refl,
      )
    ]
  ]
]

-- What a recipient gets: a notice on each channel that is enabled, where it is reached and there is a
-- message; nothing otherwise.
abbrev pub NoticesTo :
    ChannelNotifier → EventKind → Event → RecipientRef → List OutboxEntry → Type 0
NoticesTo n kind event r cs =
    ((to text : Text × Text) × IsReached n r to
      × IsRendered n kind event r.id text
      × (cs ≡ map (notice n kind r.id to text) n.enabled))
    ⊎ ((¬ (
          ((to : Text × Text) × IsReached n r to)
          × ((text : Text × Text) × IsRendered n kind event r.id text)))
        × (cs ≡ []))

-- The notices of all the recipients, in their order.
abbrev pub NoticesOf :
    ChannelNotifier → EventKind → Event → List RecipientRef → List OutboxEntry → Type 0
NoticesOf n kind event [] cs = cs ≡ []
NoticesOf n kind event (r ∷ rs) cs =
    (own others : List OutboxEntry) × NoticesTo n kind event r own
    × NoticesOf n kind event rs others
    × (cs ≡ own ++ others)

notices_to-NoticesTo :
    (n : ChannelNotifier) (kind : EventKind) (event : Event) (r : RecipientRef)
    → NoticesTo n kind event r (notices_to n kind event r)
unfolding Reach Draft
notices_to-NoticesTo n kind event r = elim (reach n r) [
  | inr (unreached, nobody) ↦ inr ((λ x. unreached x.0), rw (notices_to, nobody) refl)
  | inl (to, reached, known) ↦ elim (draft n kind event r.id) [
    | inr (blank, no_text) ↦ inr ((λ x. blank x.1), rw (notices_to, known, no_text) refl)
    | inl (text, rendered, drafted) ↦
        inl (to, text, reached, rendered, rw (notices_to, known, drafted) refl)
  ]
]

notices-NoticesOf :
    (n : ChannelNotifier) (kind : EventKind) (event : Event) (rs : List RecipientRef)
    → NoticesOf n kind event rs (notices n kind event rs)
notices-NoticesOf n kind event [] = refl
notices-NoticesOf n kind event (r ∷ rs) = (
  notices_to n kind event r,
  notices n kind event rs,
  notices_to-NoticesTo n kind event r,
  notices-NoticesOf n kind event rs,
  refl,
)

-- Where the ids to come are new, an event adds to the outbox, after the rows of before, exactly one row
-- for each recipient who can be reached and each channel that is enabled, in their order: it is pending,
-- with no attempt, due at once, and holds the address and the text. A recipient is reached who is a
-- member with a valid address and has not turned email off, where the templates of the kind give a
-- message; and the ids to come are still new.
pub enqueue-Writes :
    (n : ChannelNotifier) (kind : EventKind) (event : Event) (rs : List RecipientRef) (o : Outbox)
    → IsFresh o
    → (cs : List OutboxEntry) × NoticesOf n kind event rs cs
      × Writes cs o (enqueue n kind event rs o)
enqueue-Writes n kind event rs o fresh = (
  notices n kind event rs,
  notices-NoticesOf n kind event rs,
  enqueue-notices n kind event rs o fresh,
)
