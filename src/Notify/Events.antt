-- ===== src/Notify/Events.antt =====
-- internal/notify/events.go, the kinds of doc.go, and what the templates of renderer.go may read.
use madhatter.Base.{ℕ, Text, []}

pub data EventKind : Type 0 where
  swap_requested swap_accepted swap_rejected swap_cancelled : EventKind
  wfh_state_changed cover_assigned user_pending_approval : EventKind

-- A date, a status and a time stamp are texts here.
pub record SwapEvent : Type 0 where
  pub swap_id : Text
  pub requester_member_id : ℕ
  pub requester_name : Text
  pub target_member_id : ℕ
  pub target_name : Text
  pub requester_date : Text
  pub target_date : Text
  pub actor_name : Text
  pub reason : Text

pub record WfhEvent : Type 0 where
  pub request_id : Text
  pub member_id : ℕ
  pub member_name : Text
  pub date : Text
  pub old_status : Text
  pub new_status : Text
  pub actor_name : Text
  pub reason : Text

pub record CoverEvent : Type 0 where
  pub leave_id : Text
  pub leave_member_id : ℕ
  pub leave_member_name : Text
  pub cover_member_id : ℕ
  pub cover_member_name : Text
  pub start_date : Text
  pub end_date : Text
  pub resolved_by : Text

pub record UserPendingApprovalEvent : Type 0 where
  pub user_id : Text
  pub user_name : Text
  pub user_email : Text
  pub provider : Text
  pub created_at : Text

pub data Event : Type 0 where
  swap : SwapEvent → Event
  wfh : WfhEvent → Event
  cover : CoverEvent → Event
  user : UserPendingApprovalEvent → Event

-- `data`: the fields that no event of a kind gives are empty.
pub record TemplateData : Type 0 where
  pub base_url : Text
  pub unsubscribe_url : Text
  pub recipient_member : ℕ
  pub swap_id : Text
  pub requester_name : Text
  pub requester_date : Text
  pub target_name : Text
  pub target_date : Text
  pub actor_name : Text
  pub reason : Text
  pub date : Text
  pub old_status : Text
  pub new_status : Text
  pub leave_member_name : Text
  pub start_date : Text
  pub end_date : Text
  pub resolved_by : Text
  pub user_name : Text
  pub user_email : Text
  pub provider : Text
  pub created_at : Text

abbrev pub no_data : TemplateData
no_data = record {
  base_url = [];
  unsubscribe_url = [];
  recipient_member = 0;
  swap_id = [];
  requester_name = [];
  requester_date = [];
  target_name = [];
  target_date = [];
  actor_name = [];
  reason = [];
  date = [];
  old_status = [];
  new_status = [];
  leave_member_name = [];
  start_date = [];
  end_date = [];
  resolved_by = [];
  user_name = [];
  user_email = [];
  provider = [];
  created_at = [];
}

unfoldable pub to_data : Event → TemplateData
to_data (swap e) = record no_data {
  swap_id = e.swap_id;
  requester_name = e.requester_name;
  requester_date = e.requester_date;
  target_name = e.target_name;
  target_date = e.target_date;
  actor_name = e.actor_name;
  reason = e.reason;
}
to_data (wfh e) = record no_data {
  date = e.date;
  old_status = e.old_status;
  new_status = e.new_status;
  actor_name = e.actor_name;
  reason = e.reason;
}
to_data (cover e) = record no_data {
  leave_member_name = e.leave_member_name;
  start_date = e.start_date;
  end_date = e.end_date;
  resolved_by = e.resolved_by;
}
to_data (user e) = record no_data {
  user_name = e.user_name;
  user_email = e.user_email;
  provider = e.provider;
  created_at = e.created_at;
}
