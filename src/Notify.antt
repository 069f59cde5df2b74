-- ===== src/Notify.antt =====
-- The notifications (internal/notify): the outbox, its worker, and who is written to.
-- An instant is the number of nanoseconds since 1 January of year 1.
pub mod Table
pub mod Worker
pub mod Events
pub mod Recipients
pub mod Enqueue
pub mod Token
use madhatter.Base.{ℕ, Option, List, Text}

pub data OutboxStatus : Type 0 where
  pending sent dead : OutboxStatus

-- An empty text stands for NULL in the columns that may be NULL.
pub record OutboxEntry : Type 0 where
  pub id : ℕ
  pub event_kind : Text
  pub channel : Text
  pub recipient : Text
  pub recipient_name : Text
  pub subject : Text
  pub body : Text
  pub unsubscribe_url : Text
  pub attempts : ℕ
  pub last_error : Text
  pub next_attempt_at : ℕ
  pub status : OutboxStatus
  pub created_at : ℕ
  pub sent_at : Option ℕ

-- `channels.OutboundMessage`.
pub record OutboundMessage : Type 0 where
  pub event_kind : Text
  pub recipient : Text
  pub recipient_name : Text
  pub subject : Text
  pub body : Text
  pub unsubscribe_url : Text

-- The table `notification_outbox`; what was handed to a channel so far, the latest first, with the
-- error of each call that failed; and the ids that `uuid.New` returns, of which `drawn` were drawn.
pub record Outbox : Type 0 where
  pub rows : List OutboxEntry
  pub calls : List (OutboundMessage × Option Text)
  pub uuid : ℕ → ℕ
  pub drawn : ℕ
