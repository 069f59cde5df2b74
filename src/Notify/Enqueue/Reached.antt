-- ===== src/Notify/Enqueue/Reached.antt =====
-- Who is written to, after a change of a preference.
use madhatter.Base.{
  ℕ, ◌≡◌, refl, ap, ◌∙◌, Bool, true, false, ◌==◌, ==_refl, Bool-cases, Option, Option-cases, none,
  some, List, [], ◌∷◌, ◌++◌, map, find, update, any, All, Text, if◌then◌else◌, inl, inr, arith,
}
use madhatter.Notify.{Outbox}
use madhatter.Notify.Events.{
  EventKind, Event, UserPendingApprovalEvent, user_pending_approval, user,
}
use madhatter.Notify.Recipients.{
  NotificationPreference, Directory, is_of, get_notification_preference,
  is_notification_email_enabled, set_notification_email_enabled, resolve_by_id, email_enabled,
}
use madhatter.Notify.Enqueue.{
  RecipientRef, ChannelNotifier, has_templates, render, resolve_recipient, enqueue_one, enqueue,
  notify_user_pending_approval,
}

find-update_other :
    (k m : ℕ) (row : NotificationPreference) (ps : List NotificationPreference)
    → row.member_id ≡ m
    → (k == m) ≡ false
    → find (is_of k) (update (is_of m) (λ _. row) ps) ≡ find (is_of k) ps
find-update_other k m row [] own other = refl
find-update_other k m row (p ∷ ps) own other = ground (arith, find-update_other k m row ps)

find-update_own :
    (m : ℕ) (row : NotificationPreference) (ps : List NotificationPreference)
    → row.member_id ≡ m
    → any (is_of m) ps ≡ true
    → find (is_of m) (update (is_of m) (λ _. row) ps) ≡ some row
find-update_own m row [] own there = cc
find-update_own m row (p ∷ ps) own there = ground (arith, find-update_own m row ps)

find-append_other :
    (k m : ℕ) (row : NotificationPreference) (ps : List NotificationPreference)
    → row.member_id ≡ m
    → (k == m) ≡ false
    → find (is_of k) (ps ++ row ∷ []) ≡ find (is_of k) ps
find-append_other k m row [] own other = ground arith
find-append_other k m row (p ∷ ps) own other = ground (arith, find-append_other k m row ps)

find-append_own :
    (m : ℕ) (row : NotificationPreference) (ps : List NotificationPreference)
    → row.member_id ≡ m
    → any (is_of m) ps ≡ false
    → find (is_of m) (ps ++ row ∷ []) ≡ some row
find-append_own m row [] own absent = ground arith
find-append_own m row (p ∷ ps) own absent = ground (arith, find-append_own m row ps)

abbrev preference : ℕ → ℕ → Bool → Option ℕ → NotificationPreference
preference now m b at = record {
  member_id = m;
  email_enabled = b;
  disabled_at = at;
  updated_at = now;
}

get_preference-set_enabled :
    (now m : ℕ) (b : Bool) (at : Option ℕ) (d : Directory) (k : ℕ)
    → get_notification_preference k (set_notification_email_enabled now m b at d)
      ≡ (if k == m then some (preference now m b at) else get_notification_preference k d)
unfolding get_notification_preference set_notification_email_enabled
get_preference-set_enabled now m b at d k =
    let row = preference now m b at in
    elim (Bool-cases (any (is_of m) d.preferences)) [
      | inl there ↦ elim (Bool-cases (k == m)) [
        | inl own ↦
            let e : k ≡ m = ground (arith, own) in
            rw (there, own, e) (find-update_own m row d.preferences refl there)
        | inr other ↦ rw (there, other) (find-update_other k m row d.preferences refl other)
      ]
      | inr absent ↦ elim (Bool-cases (k == m)) [
        | inl own ↦
            let e : k ≡ m = ground (arith, own) in
            rw (absent, own, e) (find-append_own m row d.preferences refl absent)
        | inr other ↦ rw (absent, other) (find-append_other k m row d.preferences refl other)
      ]
    ]

-- After the preference of a member is set, email is enabled for that member as it was set, whether
-- there was a row or not, and for every other member as before.
pub is_enabled-set_enabled :
    (now m : ℕ) (b : Bool) (at : Option ℕ) (d : Directory) (k : ℕ)
    → is_notification_email_enabled k (set_notification_email_enabled now m b at d)
      ≡ (if k == m then b else is_notification_email_enabled k d)
unfolding is_notification_email_enabled
is_enabled-set_enabled now m b at d k = elim (Bool-cases (k == m)) [
  | inl own ↦
      rw (get_preference-set_enabled now m b at d k, is_notification_email_enabled, own) refl
  | inr other ↦
      rw (get_preference-set_enabled now m b at d k, is_notification_email_enabled, other) refl
]

resolve_recipient-disabled :
    (n : ChannelNotifier) (r : RecipientRef)
    → (r.id == 0) ≡ false
    → is_notification_email_enabled r.id n.directory ≡ false
    → resolve_recipient n r ≡ none
unfolding resolve_recipient email_enabled
resolve_recipient-disabled n r given off = elim (Option-cases (resolve_by_id r.id n.directory)) [
  | inl unknown ↦ rw (unknown, resolve_recipient) refl
  | inr ((email, name), known) ↦ rw (known, resolve_recipient, given, off) (ground arith)
]

-- An event whose recipients all turned email off writes nothing.
pub enqueue-disabled :
    (n : ChannelNotifier) (kind : EventKind) (event : Event) (rs : List RecipientRef) (o : Outbox)
    → All
        (λ (r : RecipientRef).
          ((r.id == 0) ≡ false) × (is_notification_email_enabled r.id n.directory ≡ false))
        rs
    → enqueue n kind event rs o ≡ o
unfolding enqueue enqueue_one
enqueue-disabled n kind event [] o h = refl
enqueue-disabled n kind event (r ∷ rs) o h =
    rw (enqueue, enqueue_one, resolve_recipient-disabled n r h.0.0 h.0.1)
      (enqueue-disabled n kind event rs o h.1)

silent :
    (n : ChannelNotifier) (e : UserPendingApprovalEvent) (rs : List RecipientRef) (o : Outbox)
    → enqueue n user_pending_approval (user e) rs o ≡ o
unfolding enqueue enqueue_one render has_templates
silent n e [] o = refl
silent n e (r ∷ rs) o = elim (Option-cases (resolve_recipient n r)) [
  | inl unknown ↦ rw (enqueue, enqueue_one, unknown) (silent n e rs o)
  | inr (to, known) ↦ rw (enqueue, enqueue_one, known) (silent n e rs o)
]

-- The renderer has no template for a user who waits for approval, so no administrator is written to.
pub notify_user_pending_approval-silent :
    (n : ChannelNotifier) (e : UserPendingApprovalEvent) (o : Outbox)
    → notify_user_pending_approval n e o ≡ o
unfolding notify_user_pending_approval
notify_user_pending_approval-silent n e o =
    silent n e (map (λ (a : ℕ × Text). record { id = a.0; name = a.1 }) n.directory.admins) o

abbrev pub with_directory : Directory → ChannelNotifier → ChannelNotifier
with_directory d n = record n { directory = d }

resolve_recipient-same :
    (n : ChannelNotifier) (d : Directory) (r : RecipientRef)
    → resolve_by_id r.id d ≡ resolve_by_id r.id n.directory
    → d.is_address ≡ n.directory.is_address
    → email_enabled r.id d ≡ email_enabled r.id n.directory
    → resolve_recipient (with_directory d n) r ≡ resolve_recipient n r
unfolding resolve_recipient
resolve_recipient-same n d r found address enabled =
    elim (Option-cases (resolve_by_id r.id n.directory)) [
      | inl unknown ↦ rw (found ∙ unknown, unknown, resolve_recipient) refl
      | inr (c, known) ↦
          rw (found ∙ known, known, resolve_recipient)
            (rw (resolve_recipient, address, enabled) refl)
    ]

-- Once a member has turned email off, an event for that member alone writes nothing; and whether and
-- how another recipient is reached is as it was.
pub unsubscribed-silent :
    (n : ChannelNotifier) (now m : ℕ) (at : Option ℕ) (kind : EventKind) (event : Event)
    (name : Text) (r : RecipientRef) (o : Outbox)
    → (m == 0) ≡ false
    → let n' = with_directory (set_notification_email_enabled now m false at n.directory) n in
      (enqueue n' kind event (record { id = m; name = name } ∷ []) o ≡ o)
      × ((r.id == m) ≡ false → resolve_recipient n' r ≡ resolve_recipient n r)
unfolding resolve_recipient email_enabled resolve_by_id set_notification_email_enabled
unsubscribed-silent n now m at kind event name r o given =
    let d' = set_notification_email_enabled now m false at n.directory in
    let off : is_notification_email_enabled m d' ≡ false =
      is_enabled-set_enabled now m false at n.directory m ∙ rw (==_refl m) refl in
    (
      enqueue-disabled (with_directory d' n) kind event (record { id = m; name = name } ∷ []) o
          ((given, off), tt),
      (λ other.
          let same : is_notification_email_enabled r.id d'
              ≡ is_notification_email_enabled r.id n.directory =
            is_enabled-set_enabled now m false at n.directory r.id ∙ rw other refl in
          resolve_recipient-same n d' r refl refl (ap (λ b. if r.id == 0 then true else b) same)),
    )
