-- ===== src/Notify/Recipients.antt =====
-- Who can be written to: internal/database/notification_preferences.go and `dbRecipientResolver` of
-- internal/api/server.go. Failures of the database itself are left out.
use madhatter.Base.{
  ℕ, Bool, true, ◌==◌, Option, none, some, List, [], ◌∷◌, ◌++◌, Text, find, update, any,
  if◌then◌else◌,
}

-- The columns of `team_members` that are read here.
pub record Contact : Type 0 where
  pub id : ℕ
  pub name : Text
  pub email : Text

pub record NotificationPreference : Type 0 where
  pub member_id : ℕ
  pub email_enabled : Bool
  pub disabled_at : Option ℕ
  pub updated_at : ℕ

-- `admins` are the rows of `users` that `ListAdminUsers` returns; `is_address` is whether
-- `mail.ParseAddress` takes a text.
pub record Directory : Type 0 where
  pub contacts : List Contact
  pub preferences : List NotificationPreference
  pub admins : List (ℕ × Text)
  pub is_address : Text → Bool

abbrev pub is_of : ℕ → NotificationPreference → Bool
is_of member_id p = p.member_id == member_id

unfoldable pub get_notification_preference : ℕ → Directory → Option NotificationPreference
get_notification_preference member_id d = find (is_of member_id) d.preferences

-- With no row for the member, email is enabled.
unfoldable pub is_notification_email_enabled : ℕ → Directory → Bool
unfolding get_notification_preference
is_notification_email_enabled member_id d = elim (get_notification_preference member_id d) [
  | none ↦ true
  | some p ↦ p.email_enabled
]

-- The foreign key of `member_id` is that of the members: the call is made for one of them.
unfoldable pub set_notification_email_enabled : ℕ → ℕ → Bool → Option ℕ → Directory → Directory
set_notification_email_enabled now member_id enabled disabled_at d =
    let row : NotificationPreference = record {
      member_id = member_id;
      email_enabled = enabled;
      disabled_at = disabled_at;
      updated_at = now;
    } in
    record d {
      preferences =
          if any (is_of member_id) d.preferences
          then update (is_of member_id) (λ _. row) d.preferences
          else d.preferences ++ row ∷ [];
    }

unfoldable pub resolve_by_id : ℕ → Directory → Option (Text × Text)
resolve_by_id member_id d =
    if member_id == 0 then none else elim (find (λ (c : Contact). c.id == member_id) d.contacts) [
      | none ↦ none
      | some c ↦ some (c.email, c.name)
    ]

unfoldable pub email_enabled : ℕ → Directory → Bool
unfolding is_notification_email_enabled
email_enabled member_id d =
    if member_id == 0 then true else is_notification_email_enabled member_id d
